-- ===== src/Epoll/Table/Cleanup.antt =====
-- `epoll_handler_cleanup`: the table is empty behind it.
use epoll_http_server.Prelude.{
  ℕ, zero, suc, ◌+◌, ◌≡◌, sym, ap, ◌∙◌, true, false, ◌&&◌, inl, inr, none, arith, ltb, leb, ◌==◌,
  if◌then◌else◌, ==_iff, ℕ_discrete, Bool-cases, Option-cases, ◌<◌,
}
use epoll_http_server.Epoll.Table.{
  Handler, entry, max_events, clean_entry, clean_from, epoll_handler_cleanup,
}
use epoll_http_server.Epoll.Table.Entries.{entry-set, entry-lt}

entry-clean_entry :
    (h : Handler) (i j : ℕ)
    → entry (clean_entry h i).connections j ≡ (if i == j then none else entry h.connections j)
unfolding clean_entry
entry-clean_entry h i j = elim (Option-cases (entry h.connections i)) [
  | inl e ↦
      rw (e, clean_entry)
        (elim (Bool-cases (i == j)) [
          | inl same ↦ rw same (ap (entry h.connections) (sym ((==_iff i j).0 same)) ∙ e)
          | inr other ↦ rw other
        ])
  | inr (c, e) ↦ rw (e, clean_entry) (entry-set h.connections i j none (entry-lt h.connections i e))
]

entry-clean_from :
    (n i j : ℕ) (h : Handler)
    → entry (clean_from n i h).connections j
      ≡ (if leb i j && ltb j (i + n) then none else entry h.connections j)
unfolding clean_from
entry-clean_from zero i j h = ground arith
entry-clean_from (suc n) i j h =
    entry-clean_from n (i + 1) j (clean_entry h i) ∙ elim (ℕ_discrete i j) [
      | yes same ↦
          let out : (leb (i + 1) j && ltb j (i + 1 + n)) ≡ false = ground arith in
          let within : (leb i j && ltb j (i + suc n)) ≡ true = ground arith in
          let here : (i == j) ≡ true = ground arith in
          rw (out, within) (entry-clean_entry h i j ∙ rw here)
      | no other ↦
          let there : (i == j) ≡ false = ground arith in
          let kept : entry (clean_entry h i).connections j ≡ entry h.connections j =
            entry-clean_entry h i j ∙ rw there in
          let tests : (leb (i + 1) j && ltb j (i + 1 + n)) ≡ (leb i j && ltb j (i + suc n)) =
            ground arith in
          rw (tests, kept)
    ]

-- The cleanup leaves no entry below 1024.
pub epoll_handler_cleanup-Empties :
    (h : Handler) (j : ℕ) → j < max_events → entry (epoll_handler_cleanup h).connections j ≡ none
unfolding epoll_handler_cleanup
epoll_handler_cleanup-Empties h j below =
    let within : (leb 0 j && ltb j (0 + max_events)) ≡ true = ground arith in
    entry-clean_from max_events 0 j h ∙ rw within
