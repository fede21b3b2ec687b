-- ===== src/Epoll/Invariant.antt =====
-- When the table of connections is well formed, and that the main thread's operations keep it so.
use epoll_http_server.Prelude.{
  ℕ, zero, suc, ◌<◌, ◌≡◌, refl, sym, ◌∙◌, subst, Bool, true, false, inl, inr, List, [], ◌∷◌, Option,
  none, some, some_inj, arith, leb, ◌==◌, ==_iff, Bytes, ◌+◌, length, length-set, length-replicate,
  set, replicate, Bool-cases, Option-cases,
}
use epoll_http_server.Connection.{Connection, buffer_size, write_size}
use epoll_http_server.Epoll.Table.{
  Handler, entry, max_events, epoll_handler_init, epoll_handler_close, timed_out, check_entry,
  check_from, epoll_handler_check_timeout, Accepted, again, failed, client, new_connection,
  accept_client, epoll_handler_accept,
}
use epoll_http_server.Epoll.Table.Entries.{entry-set, entry-lt}
use epoll_http_server.Epoll.Worker.Reads.{Buffered}

-- A connection of the descriptor `fd`: its buffers have their sizes, and the read buffer holds a text
-- with a NUL behind it.
pub record IsConnection (fd : ℕ) (conn : Connection) : Type 0 where
  pub text : Bytes
  pub buffered : Buffered text conn
  pub cells : length conn.write_buf ≡ write_size
  pub same_fd : conn.fd ≡ fd

-- The table has its size, and each entry is a connection of its index.
pub record IsTable (cs : List (Option Connection)) : Type 0 where
  pub size : length cs ≡ max_events
  pub entries : (i : ℕ) (conn : Connection) → entry cs i ≡ some conn → IsConnection i conn

pub set-IsTable :
    (cs : List (Option Connection)) (fd : ℕ) (o : Option Connection)
    → IsTable cs
    → fd < length cs
    → ((conn : Connection) → o ≡ some conn → IsConnection fd conn)
    → IsTable (set cs fd o)
set-IsTable cs fd o is inside good = record {
  size = length-set cs fd o ∙ is.size;
  entries = λ i conn e. elim (Bool-cases (fd == i)) [
    | inl same ↦
        subst (λ k. IsConnection k conn) ((==_iff fd i).0 same)
          (good conn (sym (rw same at (entry-set cs fd i o inside)) ∙ e))
    | inr other ↦ is.entries i conn (sym (rw other at (entry-set cs fd i o inside)) ∙ e)
  ];
}

pub epoll_handler_close-IsTable :
    (h : Handler) (fd : ℕ) → IsTable h.connections → IsTable (epoll_handler_close h fd).connections
unfolding epoll_handler_close
epoll_handler_close-IsTable h fd is = elim (Option-cases (entry h.connections fd)) [
  | inl e ↦ rw (e, epoll_handler_close) is
  | inr (conn, e) ↦
      rw (e, epoll_handler_close)
        (set-IsTable h.connections fd none is (entry-lt h.connections fd e) (λ c absent. cc))
]

check_entry-IsTable :
    (now : ℕ) (h : Handler) (i : ℕ)
    → IsTable h.connections
    → IsTable (check_entry now h i).connections
unfolding check_entry
check_entry-IsTable now h i is = elim (Option-cases (entry h.connections i)) [
  | inl e ↦ rw (e, check_entry) is
  | inr (conn, e) ↦
      rw (e, check_entry)
        (elim (Bool-cases conn.in_use) [
          | inl used ↦ simp used is
          | inr idle ↦ simp idle (elim (Bool-cases (timed_out now conn)) [
            | inl old ↦ simp old (epoll_handler_close-IsTable h i is)
            | inr new ↦ simp new is
          ])
        ])
]

check_from-IsTable :
    (n now i : ℕ) (h : Handler) → IsTable h.connections → IsTable (check_from n now i h).connections
unfolding check_from
check_from-IsTable zero now i h is = is
check_from-IsTable (suc n) now i h is =
    check_from-IsTable n now (i + 1) (check_entry now h i) (check_entry-IsTable now h i is)

pub epoll_handler_check_timeout-IsTable :
    (now : ℕ) (h : Handler)
    → IsTable h.connections
    → IsTable (epoll_handler_check_timeout now h).connections
unfolding epoll_handler_check_timeout
epoll_handler_check_timeout-IsTable now h is = check_from-IsTable max_events now 0 h is

new_connection-IsConnection : (fd now : ℕ) → IsConnection fd (new_connection fd now)
new_connection-IsConnection fd now = record {
  text = [];
  buffered = record {
    behind = replicate 4095 0;
    cells = refl;
    position = refl;
    size = length-replicate {A = ℕ} buffer_size 0;
  };
  cells = length-replicate {A = ℕ} write_size 0;
  same_fd = refl;
}

leb-false : (a b : ℕ) → leb a b ≡ false → b < a
leb-false a b h = ground arith

set_new :
    (h : Handler) (fd now : ℕ)
    → IsTable h.connections
    → leb max_events fd ≡ false
    → IsTable (set h.connections fd (some (new_connection fd now)))
set_new h fd now is small =
    set-IsTable h.connections fd (some (new_connection fd now)) is
      (omega (arith, is.size, leb-false max_events fd small))
      (λ conn e. subst (IsConnection fd) (some_inj e) (new_connection-IsConnection fd now))

pub accept_client-IsTable :
    (h : Handler) (fd : ℕ) (nonblocking allocated added : Bool) (now : ℕ)
    → IsTable h.connections
    → IsTable (accept_client h fd nonblocking allocated added now).connections
unfolding accept_client
accept_client-IsTable h fd false allocated added now is = is
accept_client-IsTable h fd true false added now is = elim (Bool-cases (leb max_events fd)) [
  | inl big ↦ rw (big, accept_client) is
  | inr small ↦ rw (small, accept_client) is
]
accept_client-IsTable h fd true true true now is = elim (Bool-cases (leb max_events fd)) [
  | inl big ↦ rw (big, accept_client) is
  | inr small ↦ rw (small, accept_client) (set_new h fd now is small)
]
accept_client-IsTable h fd true true false now is = elim (Bool-cases (leb max_events fd)) [
  | inl big ↦ rw (big, accept_client) is
  | inr small ↦
      let is' = set_new h fd now is small in
      rw (small, accept_client)
        (set-IsTable _ fd none is' (omega (arith, is'.size, leb-false max_events fd small))
          (λ conn e. cc))
]

pub epoll_handler_accept-IsTable :
    (h : Handler) (answers : List Accepted)
    → IsTable h.connections
    → IsTable (epoll_handler_accept h answers).connections
unfolding epoll_handler_accept
epoll_handler_accept-IsTable h [] is = is
epoll_handler_accept-IsTable h (again ∷ rest) is = is
epoll_handler_accept-IsTable h (failed ∷ rest) is = is
epoll_handler_accept-IsTable h (client fd nonblocking allocated added now ∷ rest) is =
    epoll_handler_accept-IsTable (accept_client h fd nonblocking allocated added now) rest
      (accept_client-IsTable h fd nonblocking allocated added now is)

entry-replicate : (n i : ℕ) → entry (replicate n none) i ≡ none
unfolding entry
entry-replicate zero i = refl
entry-replicate (suc n) zero = refl
entry-replicate (suc n) (suc i) = entry-replicate n i

pub epoll_handler_init-IsTable : (h : Handler) → IsTable (epoll_handler_init h).connections
unfolding epoll_handler_init
epoll_handler_init-IsTable h = record {
  size = length-replicate {A = Option Connection} max_events none;
  entries = λ i conn e. absurd (none_some (sym (entry-replicate max_events i) ∙ e));
}
  where
    none_some : {c : Connection} → none ≡ some c → ⊥
    none_some e = cc
