-- ===== src/Epoll/Table/Accept.antt =====
-- `epoll_handler_accept`: what an accepted descriptor does to the table.
use epoll_http_server.Prelude.{
  ℕ, ◌<◌, ◌≡◌, ◌⊎◌, ◌∷◌, refl, sym, ap, ◌∙◌, Bool, true, false, ◌&&◌, List, Option, none, some,
  arith, ltb, leb, ltb→lt, ◌==◌, ==_iff, if◌then◌else◌, length, length-set, set, Bool-cases, inl,
  inr,
}
use epoll_http_server.Connection.{Connection}
use epoll_http_server.Epoll.Table.{
  epoll_add, close_fd, free_connection, Handler, entry, max_events, new_connection, accept_client,
}
use epoll_http_server.Epoll.Table.Entries.{entry-set}

-- The entry that the body of the loop leaves at the descriptor it was given.
abbrev pub entered : Option Connection → ℕ → Bool → Bool → Bool → ℕ → Option Connection
entered before fd nonblocking allocated added now =
    if nonblocking && ltb fd max_events && allocated
    then (if added then some (new_connection fd now) else none)
    else before

-- All that the loop's body asks for was granted.
abbrev pub taken_in : ℕ → Bool → Bool → Bool → Bool
taken_in fd nonblocking allocated added = nonblocking && ltb fd max_events && allocated && added

big_leb : (a b : ℕ) → ltb a b ≡ false → leb b a ≡ true
big_leb a b h = ground arith

small_leb : (a b : ℕ) → ltb a b ≡ true → leb b a ≡ false
small_leb a b h = ground arith

unchanged : {A : Type 0} (b : Bool) (x : A) → x ≡ (if b then x else x)
unchanged true x = refl
unchanged false x = refl

set_twice :
    (cs : List (Option Connection)) (fd j : ℕ) (c : Option Connection)
    → fd < length cs
    → entry (set (set cs fd c) fd none) j ≡ (if fd == j then none else entry cs j)
set_twice cs fd j c small = elim (Bool-cases (fd == j)) [
  | inl same ↦ rw same at outer ∙ rw same
  | inr other ↦ rw other at outer ∙ (rw other at (entry-set cs fd j c small)) ∙ rw other
]
  where
    outer : entry (set (set cs fd c) fd none) j ≡ (if fd == j then none else entry (set cs fd c) j)
    outer = entry-set (set cs fd c) fd j none (omega (arith, length-set cs fd c))

-- The entry that the body of the loop leaves at the descriptor it was given: the new connection if
-- `fcntl` and `malloc` succeeded, the descriptor is below 1024 and epoll took it; none if all but
-- epoll did. Else it is as before, and so are all other entries.
pub entry-accept_client :
    (h : Handler) (fd j : ℕ) (nonblocking allocated added : Bool) (now : ℕ)
    → length h.connections ≡ max_events
    → entry (accept_client h fd nonblocking allocated added now).connections j ≡ (
        if fd == j
        then entered (entry h.connections j) fd nonblocking allocated added now
        else entry h.connections j)
unfolding accept_client
entry-accept_client h fd j false allocated added now size = unchanged (fd == j) _
entry-accept_client h fd j true false added now size = elim (Bool-cases (ltb fd max_events)) [
  | inr big ↦ rw (big, big_leb fd max_events big, accept_client) (unchanged (fd == j) _)
  | inl small ↦ rw (small, small_leb fd max_events small, accept_client) (unchanged (fd == j) _)
]
entry-accept_client h fd j true true true now size = elim (Bool-cases (ltb fd max_events)) [
  | inr big ↦ rw (big, big_leb fd max_events big, accept_client) (unchanged (fd == j) _)
  | inl small ↦
      rw (small, small_leb fd max_events small, accept_client)
        (entry-set h.connections fd j _ (below small))
]
  where
    below : ltb fd max_events ≡ true → fd < length h.connections
    below small = omega (arith, ltb→lt fd max_events small)
entry-accept_client h fd j true true false now size = elim (Bool-cases (ltb fd max_events)) [
  | inr big ↦ rw (big, big_leb fd max_events big, accept_client) (unchanged (fd == j) _)
  | inl small ↦
      rw (small, small_leb fd max_events small, accept_client)
        (set_twice h.connections fd j _ (below small))
]
  where
    below : ltb fd max_events ≡ true → fd < length h.connections
    below small = omega (arith, ltb→lt fd max_events small)

-- A client that is turned away leaves no entry where there was none.
pub entry-turned_away :
    (h : Handler) (fd j : ℕ) (nonblocking allocated added : Bool) (now : ℕ)
    → length h.connections ≡ max_events
    → entry h.connections fd ≡ none
    → taken_in fd nonblocking allocated added ≡ false
    → entry (accept_client h fd nonblocking allocated added now).connections j
      ≡ entry h.connections j
entry-turned_away h fd j nonblocking allocated added now size free away =
    entry-accept_client h fd j nonblocking allocated added now size ∙ elim (Bool-cases (fd == j)) [
      | inr other ↦ rw other
      | inl same ↦
          let here : entry h.connections j ≡ none =
            ap (entry h.connections) (sym ((==_iff fd j).0 same)) ∙ free in
          rw (same, here) (none_there nonblocking (ltb fd max_events) allocated added away)
    ]
  where
    none_there :
        (n s a d : Bool)
        → (n && s && a && d) ≡ false
        → (if n && s && a then (if d then some (new_connection fd now) else none) else none) ≡ none
    none_there true true true true e = cc
    none_there true true true false e = refl
    none_there true true false d e = refl
    none_there true false a d e = refl
    none_there false s a d e = refl

pub length-accept_client :
    (h : Handler) (fd : ℕ) (nonblocking allocated added : Bool) (now : ℕ)
    → length (accept_client h fd nonblocking allocated added now).connections ≡ length h.connections
unfolding accept_client
length-accept_client h fd false allocated added now = refl
length-accept_client h fd true false added now = elim (Bool-cases (leb max_events fd)) [
  | inl big ↦ rw (big, accept_client) refl
  | inr small ↦ rw (small, accept_client) refl
]
length-accept_client h fd true true true now = elim (Bool-cases (leb max_events fd)) [
  | inl big ↦ rw (big, accept_client) refl
  | inr small ↦ rw (small, accept_client) (length-set h.connections fd _)
]
length-accept_client h fd true true false now = elim (Bool-cases (leb max_events fd)) [
  | inl big ↦ rw (big, accept_client) refl
  | inr small ↦
      rw (small, accept_client)
        (length-set (set h.connections fd (some (new_connection fd now))) fd none
          ∙ length-set h.connections fd (some (new_connection fd now)))
]

-- The descriptor of one that is turned away is closed.
pub accept_client-closed :
    (h : Handler) (fd : ℕ) (nonblocking allocated added : Bool) (now : ℕ)
    → taken_in fd nonblocking allocated added ≡ false
    → let log = (accept_client h fd nonblocking allocated added now).log in
      (log ≡ close_fd fd ∷ h.log) ⊎ (log ≡ free_connection fd ∷ close_fd fd ∷ epoll_add fd ∷ h.log)
unfolding accept_client
accept_client-closed h fd false allocated added now away = inl refl
accept_client-closed h fd true false added now away = elim (Bool-cases (leb max_events fd)) [
  | inl big ↦ rw (big, accept_client) (inl refl)
  | inr small ↦ rw (small, accept_client) (inl refl)
]
accept_client-closed h fd true true false now away = elim (Bool-cases (leb max_events fd)) [
  | inl big ↦ rw (big, accept_client) (inl refl)
  | inr small ↦ rw (small, accept_client) (inr refl)
]
accept_client-closed h fd true true true now away = elim (Bool-cases (leb max_events fd)) [
  | inl big ↦ rw (big, accept_client) (inl refl)
  | inr small ↦ absurd (ground (arith, away, small))
]
