-- ===== src/Server/Idle.antt =====
-- The timeout of idle clients in the main loop.
use epoll_http_server.Prelude.{
  ℕ, ◌+◌, ◌≤◌, ◌<◌, ◌≡◌, refl, sym, ap, subst, ◌∙◌, List, Bool, true, false, inl, inr, Option, none,
  some, some_inj, arith, leb, if◌then◌else◌, Bool-cases,
}
use epoll_http_server.Connection.{Connection}
use epoll_http_server.Epoll.Table.{entry, max_events, timed_out, epoll_handler_check_timeout}
use epoll_http_server.Epoll.Table.Entries.{expire, entry-epoll_handler_check_timeout}
use epoll_http_server.Server.{events, Ready, Loop, handle_events, check_time, round}

-- An entry that the check leaves is in use, or has been active within the timeout.
expire-some :
    (now : ℕ) (e : Option Connection) (conn : Connection)
    → expire now e ≡ some conn
    → conn.in_use ≡ false
    → now ≤ conn.last_active + 60
expire-some now none conn h idle = cc
expire-some now (some c) conn h idle = elim (Bool-cases c.in_use) [
  | inl used ↦
      absurd (
        true_false
          (sym used ∙ ap (λ (k : Connection). k.in_use) (some_inj (simp used at h)) ∙ idle))
  | inr unused ↦ elim (Bool-cases (timed_out now c)) [
    | inl old ↦ absurd (none_some (simp (unused, old) at h))
    | inr new ↦
        subst (λ (k : Connection). now ≤ k.last_active + 60) (some_inj (simp (unused, new) at h))
          (ground (arith, new))
  ]
]
  where
    true_false : true ≡ false → ⊥
    true_false e = cc

    none_some : none ≡ some conn → ⊥
    none_some e = cc

-- No idle client has been silent for longer than the timeout.
abbrev pub AreFresh : ℕ → Loop → Type 0
AreFresh now loop =
    (j : ℕ) (conn : Connection)
    → j < max_events
    → entry loop.handler.connections j ≡ some conn
    → conn.in_use ≡ false
    → now ≤ conn.last_active + 60

checked : Loop → ℕ → Loop
unfolding epoll_handler_check_timeout
checked loop now = record loop {
  handler = epoll_handler_check_timeout now loop.handler;
  last_timeout_check = now;
}

check_time-checked :
    (loop : Loop) (now : ℕ) → loop.last_timeout_check < now → check_time loop now ≡ checked loop now
unfolding check_time checked
check_time-checked loop now due = ap (λ (b : Bool). if b then checked loop now else loop) is_due
  where
    is_due : leb (loop.last_timeout_check + 1) now ≡ true
    is_due = ground (arith, due)

checked-AreFresh :
    (loop : Loop) (now : ℕ)
    → ((checked loop now).last_timeout_check ≡ now) × AreFresh now (checked loop now)
unfolding checked
checked-AreFresh loop now = (
  refl,
  λ j conn below e idle.
      expire-some now (entry loop.handler.connections j) conn
        (sym (entry-epoll_handler_check_timeout now j loop.handler below) ∙ e) idle,
)

-- A round of the loop whose events are handled in a later second than the last check goes on, whatever
-- the events are; behind it no client that no worker uses has been silent for more than 60 seconds, and
-- the next check counts from this time.
pub round-AreFresh :
    (listen_fd worker : ℕ) (loop : Loop) (ready : List Ready) (now : ℕ)
    → loop.last_timeout_check < now
    → (after : Loop) × (round listen_fd worker loop (events ready now) ≡ some after)
      × (after.last_timeout_check ≡ now)
      × AreFresh now after
unfolding round
round-AreFresh listen_fd worker loop ready now due =
    let (h, pool) = handle_events listen_fd worker (loop.handler, loop.pool) ready in
    let waited : Loop = record loop { handler = h; pool = pool } in
    let (last, fresh) = checked-AreFresh waited now in
    (checked waited now, ap some (check_time-checked waited now due), last, fresh)
