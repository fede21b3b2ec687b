-- ===== src/Epoll/Sharing/Sizes.antt =====
-- The operations of the table keep its length.
use epoll_http_server.Prelude.{
  ℕ, zero, suc, ◌+◌, ◌≤◌, ◌≡◌, refl, ◌∙◌, false, inl, inr, List, [], ◌∷◌, Option, none, arith, ltb,
  ltb→lt, length, length-set, replicate, Bool-cases, Option-cases,
}
use epoll_http_server.Connection.{Connection}
use epoll_http_server.Epoll.Table.{
  Handler, entry, max_events, epoll_handler_close, epoll_handler_check_timeout, check_entry,
  check_from,
}
use epoll_http_server.Epoll.Table.Entries.{expire, entry-epoll_handler_check_timeout}

pub length-close :
    (h : Handler) (fd : ℕ) → length (epoll_handler_close h fd).connections ≡ length h.connections
unfolding epoll_handler_close
length-close h fd = elim (Option-cases (entry h.connections fd)) [
  | inl e ↦ rw (e, epoll_handler_close)
  | inr (conn, e) ↦ rw (e, epoll_handler_close) (length-set h.connections fd none)
]

pub length-check_entry :
    (now : ℕ) (h : Handler) (i : ℕ)
    → length (check_entry now h i).connections ≡ length h.connections
unfolding check_entry
length-check_entry now h i = elim (Option-cases (entry h.connections i)) [
  | inl e ↦ rw (e, check_entry)
  | inr (conn, e) ↦ rw (e, check_entry) (ground (arith, length-close h i))
]

pub length-check_from :
    (n now i : ℕ) (h : Handler) → length (check_from n now i h).connections ≡ length h.connections
unfolding check_from
length-check_from zero now i h = refl
length-check_from (suc n) now i h =
    length-check_from n now (i + 1) (check_entry now h i) ∙ length-check_entry now h i

pub length-check :
    (now : ℕ) (h : Handler)
    → length (epoll_handler_check_timeout now h).connections ≡ length h.connections
unfolding epoll_handler_check_timeout
length-check now h = length-check_from max_events now 0 h

pub entry_beyond : (cs : List (Option Connection)) (j : ℕ) → length cs ≤ j → entry cs j ≡ none
unfolding entry
entry_beyond [] j h = refl
entry_beyond (c ∷ cs) zero h = absurd (omega arith)
entry_beyond (c ∷ cs) (suc j) h = entry_beyond cs j (omega arith)

pub not_below : (a b : ℕ) → ltb a b ≡ false → b ≤ a
not_below a b h = ground arith

-- What the check makes of an entry, inside the table and outside of it.
pub entry-check :
    (now : ℕ) (h : Handler) (j : ℕ)
    → length h.connections ≡ max_events
    → entry (epoll_handler_check_timeout now h).connections j ≡ expire now (entry h.connections j)
entry-check now h j size = elim (Bool-cases (ltb j max_events)) [
  | inl below ↦ entry-epoll_handler_check_timeout now j h (ltb→lt j max_events below)
  | inr beyond ↦ rw (
    entry_beyond h.connections j (omega (arith, not_below j max_events beyond)),
    entry_beyond (epoll_handler_check_timeout now h).connections j
        (omega (arith, length-check now h, not_below j max_events beyond)),
  )
]

pub entry_idle : (n j : ℕ) → entry (replicate n none) j ≡ none
unfolding entry
entry_idle zero j = refl
entry_idle (suc n) zero = refl
entry_idle (suc n) (suc j) = entry_idle n j
