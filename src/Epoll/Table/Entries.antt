-- ===== src/Epoll/Table/Entries.antt =====
-- What close, the timeout check, the count and the cleanup do to each entry of the table.
use epoll_http_server.Prelude.{
  ℕ, zero, suc, ◌+◌, ◌≤◌, ◌<◌, ◌≡◌, refl, sym, ap, ◌∙◌, true, false, inl, inr, List, [], ◌∷◌,
  Option, none, some, arith, ltb, leb, ◌&&◌, ==_iff, ◌==◌, if◌then◌else◌, length, length-take, take,
  set, Bool-cases, Option-cases, ℕ_discrete,
}
use epoll_http_server.Connection.{Connection}
use epoll_http_server.Epoll.Table.{
  max_events, timed_out, Handler, entry, epoll_handler_close, check_entry, check_from,
  epoll_handler_check_timeout, count_entries, epoll_handler_get_connection_count,
}

pub entry-set :
    (cs : List (Option Connection)) (i j : ℕ) (c : Option Connection)
    → i < length cs
    → entry (set cs i c) j ≡ (if i == j then c else entry cs j)
unfolding entry
entry-set [] i j c h = absurd (omega arith)
entry-set (x ∷ cs) zero zero c h = refl
entry-set (x ∷ cs) zero (suc j) c h = ground arith
entry-set (x ∷ cs) (suc i) zero c h = ground arith
entry-set (x ∷ cs) (suc i) (suc j) c h = ground (arith, entry-set cs i j c)

pub entry-lt :
    (cs : List (Option Connection)) (i : ℕ) {c : Connection} → entry cs i ≡ some c → i < length cs
unfolding entry
entry-lt [] i h = cc
entry-lt (x ∷ cs) zero h = omega arith
entry-lt (x ∷ cs) (suc i) h = omega (arith, entry-lt cs i h)

==_refl : (n : ℕ) → (n == n) ≡ true
==_refl n = ground arith

pub entry-set_here :
    (cs : List (Option Connection)) (fd : ℕ) (c : Option Connection)
    → fd < length cs
    → entry (set cs fd c) fd ≡ c
entry-set_here cs fd c h = rw (==_refl fd) at (entry-set cs fd fd c h)

-- After a close the entry is NULL and all others are as they were.
pub entry-epoll_handler_close :
    (h : Handler) (fd j : ℕ)
    → entry (epoll_handler_close h fd).connections j
      ≡ (if fd == j then none else entry h.connections j)
unfolding epoll_handler_close
entry-epoll_handler_close h fd j = elim (Option-cases (entry h.connections fd)) [
  | inl e ↦
      rw (e, epoll_handler_close)
        (elim (Bool-cases (fd == j)) [
          | inl same ↦ rw same (ap (entry h.connections) (sym ((==_iff fd j).0 same)) ∙ e)
          | inr other ↦ rw other
        ])
  | inr (c, e) ↦
      rw (e, epoll_handler_close) (entry-set h.connections fd j none (entry-lt h.connections fd e))
]

close_absent : (h : Handler) (fd : ℕ) → entry h.connections fd ≡ none → epoll_handler_close h fd ≡ h
unfolding epoll_handler_close
close_absent h fd e = rw (e, epoll_handler_close)

pub entry-close_here :
    (h : Handler) (fd : ℕ) → entry (epoll_handler_close h fd).connections fd ≡ none
entry-close_here h fd = rw (==_refl fd) at (entry-epoll_handler_close h fd fd)

-- A second close of the same descriptor does nothing, so that none is closed or freed twice.
pub epoll_handler_close_twice :
    (h : Handler) (fd : ℕ)
    → epoll_handler_close (epoll_handler_close h fd) fd ≡ epoll_handler_close h fd
epoll_handler_close_twice h fd = close_absent (epoll_handler_close h fd) fd (entry-close_here h fd)

-- What the check leaves of an entry: it drops a connection that is not in use and has been idle for more
-- than 60 seconds.
abbrev pub expire : ℕ → Option Connection → Option Connection
expire now none = none
expire now (some conn) =
    if conn.in_use then some conn else if ltb (conn.last_active + 60) now then none else some conn

entry-check_entry :
    (now : ℕ) (h : Handler) (i j : ℕ)
    → entry (check_entry now h i).connections j
      ≡ (if i == j then expire now (entry h.connections j) else entry h.connections j)
unfolding check_entry
entry-check_entry now h i j = elim (Option-cases (entry h.connections i)) [
  | inl e ↦
      rw (e, check_entry)
        (elim (Bool-cases (i == j)) [
          | inl same ↦
              let here : entry h.connections j ≡ none =
                ap (entry h.connections) (sym ((==_iff i j).0 same)) ∙ e in
              rw (same, here)
          | inr other ↦ rw other
        ])
  | inr (c, e) ↦ elim (Bool-cases (i == j)) [
    | inl same ↦
        let here : entry h.connections j ≡ some c =
          ap (entry h.connections) (sym ((==_iff i j).0 same)) ∙ e in
        rw (e, same, here, check_entry)
          (elim (Bool-cases c.in_use) [
            | inl used ↦ simp used here
            | inr idle ↦ simp idle (elim (Bool-cases (timed_out now c)) [
              | inl old ↦ simp old (entry-epoll_handler_close h i j ∙ rw same)
              | inr new ↦ simp new here
            ])
          ])
    | inr other ↦
        rw (e, other, check_entry)
          (elim (Bool-cases c.in_use) [
            | inl used ↦ simp used
            | inr idle ↦ simp idle (elim (Bool-cases (timed_out now c)) [
              | inl old ↦ simp old (entry-epoll_handler_close h i j ∙ rw other)
              | inr new ↦ simp new
            ])
          ])
  ]
]

-- The entries that the rounds from `i` on have reached.
entry-check_from :
    (n now i j : ℕ) (h : Handler)
    → entry (check_from n now i h).connections j ≡ (
        if leb i j && ltb j (i + n)
        then expire now (entry h.connections j)
        else entry h.connections j)
unfolding check_from
entry-check_from zero now i j h = ground arith
entry-check_from (suc n) now i j h =
    entry-check_from n now (i + 1) j (check_entry now h i) ∙ elim (ℕ_discrete i j) [
      | yes same ↦
          let out : (leb (i + 1) j && ltb j (i + 1 + n)) ≡ false = ground arith in
          let within : (leb i j && ltb j (i + suc n)) ≡ true = ground arith in
          let here : (i == j) ≡ true = ground arith in
          rw (out, within) (entry-check_entry now h i j ∙ rw here)
      | no other ↦
          let there : (i == j) ≡ false = ground arith in
          let kept : entry (check_entry now h i).connections j ≡ entry h.connections j =
            entry-check_entry now h i j ∙ rw there in
          let tests : (leb (i + 1) j && ltb j (i + 1 + n)) ≡ (leb i j && ltb j (i + suc n)) =
            ground arith in
          rw (tests, kept)
    ]

-- The check drops, of the entries of the table, those that are not in use and have been idle for
-- longer than 60 seconds; every other entry stays as it was.
pub entry-epoll_handler_check_timeout :
    (now j : ℕ) (h : Handler)
    → j < max_events
    → entry (epoll_handler_check_timeout now h).connections j ≡ expire now (entry h.connections j)
unfolding epoll_handler_check_timeout
entry-epoll_handler_check_timeout now j h below =
    let within : (leb 0 j && ltb j (0 + max_events)) ≡ true = ground arith in
    entry-check_from max_events now 0 j h ∙ rw within

length-count_entries-le : (cs : List (Option Connection)) → count_entries cs ≤ length cs
unfolding count_entries
length-count_entries-le [] = omega arith
length-count_entries-le (none ∷ cs) = omega (arith, length-count_entries-le cs)
length-count_entries-le (some conn ∷ cs) = omega (arith, length-count_entries-le cs)

-- At most as many connections are counted as the table has entries.
pub epoll_handler_get_connection_count-le :
    (h : Handler) → epoll_handler_get_connection_count h ≤ max_events
unfolding epoll_handler_get_connection_count
epoll_handler_get_connection_count-le h = omega (
  arith,
  length-count_entries-le (take max_events h.connections),
  length-take max_events h.connections,
)
