-- ===== src/Epoll/Worker/Writes.antt =====
-- The loop over `write`: it ends, and what went out is the response or a beginning of it.
use epoll_http_server.Prelude.{
  ℕ, suc, ◌+◌, ◌-◌, ◌*◌, ◌≤◌, ◌<◌, ◌≡◌, ◌⊎◌, refl, min, Bool, true, false, inl, inr, List, [], ◌∷◌,
  Option, none, some, arith, ltb, leb, ltb→lt, ◌||◌, ◌&&◌, length, Bool-cases, All,
}
use epoll_http_server.Epoll.Worker.{WriteAnswer, again, failed, wrote, max_retries, write_loop}

-- Whether the socket fails before it has taken the bytes that are left: an error, or more than a
-- thousand answers in a row without room.
abbrev pub fails : ℕ → ℕ → List WriteAnswer → Bool
fails left retry [] = false
fails left retry (again ∷ rest) = ltb 0 left && (leb 1000 retry || fails left (retry + 1) rest)
fails left retry (failed ∷ rest) = ltb 0 left
fails left retry (wrote count ∷ rest) = ltb 0 left && fails (left - count) 0 rest

-- What the loop returns with: everything was sent, and the socket did not fail; or it failed, and not
-- everything was sent.
abbrev pub Ends : ℕ → Bool → Option (ℕ × Bool) → Type 0
Ends total failure none = ⊥
Ends total failure (some (sent, close_conn)) =
    ((sent ≡ total) × (close_conn ≡ false) × (failure ≡ false))
    ⊎ ((sent < total) × (close_conn ≡ true) × (failure ≡ true))

-- An answer that takes bytes takes one at least, as on a socket.
abbrev pub MakesProgress : WriteAnswer → Type 0
MakesProgress (wrote count) = 0 < count
MakesProgress _ = Unit

-- The answers that the loop may ask for before it ends.
abbrev pub rounds : ℕ → ℕ → ℕ → ℕ
rounds total sent retry = (total - sent) * 1001 + (1001 - retry)

fewer :
    (total sent retry count : ℕ) {n : ℕ}
    → 0 < count
    → sent < total
    → retry ≤ max_retries
    → rounds total sent retry ≤ suc n
    → rounds total (sent + min count (total - sent)) 0 ≤ n
fewer total sent retry count p s r h = omega (arith, step)
  where
    step : total - (sent + min count (total - sent)) + 1 ≤ total - sent
    step = omega arith

none_left : (total sent : ℕ) → ltb sent total ≡ false → ltb 0 (total - sent) ≡ false
none_left total sent h = ground arith

some_left : (total sent : ℕ) → ltb sent total ≡ true → ltb 0 (total - sent) ≡ true
some_left total sent h = ground arith

-- With enough answers the loop ends. It reports success exactly if every byte was sent, which is so
-- exactly if the socket does not fail before; and else it asks for the connection to be closed.
pub write_loop-Ends :
    (answers : List WriteAnswer) (total sent retry : ℕ)
    → sent ≤ total
    → retry ≤ max_retries
    → All MakesProgress answers
    → rounds total sent retry ≤ length answers
    → Ends total (fails (total - sent) retry answers) (write_loop total sent retry answers)
unfolding write_loop
write_loop-Ends [] total sent retry s r p enough = absurd (omega arith)
write_loop-Ends (again ∷ rest) total sent retry s r p enough = elim (Bool-cases (ltb sent total)) [
  | inr all ↦ rw (all, none_left total sent all, write_loop) (inl (ground arith, refl, refl))
  | inl more ↦ elim (Bool-cases (ltb max_retries (retry + 1))) [
    | inl many ↦
        let no_more : leb 1000 retry ≡ true = ground arith in
        rw (more, many, some_left total sent more, no_more, write_loop)
          (inr (ground arith, refl, refl))
    | inr few ↦
        let again_then : leb 1000 retry ≡ false = ground arith in
        rw (more, few, some_left total sent more, again_then, write_loop)
          (write_loop-Ends rest total sent (retry + 1) s (ground arith) p.1 (ground arith))
  ]
]
write_loop-Ends (failed ∷ rest) total sent retry s r p enough = elim (Bool-cases (ltb sent total)) [
  | inr all ↦ rw (all, none_left total sent all, write_loop) (inl (ground arith, refl, refl))
  | inl more ↦ rw (more, some_left total sent more, write_loop) (inr (ground arith, refl, refl))
]
write_loop-Ends (wrote count ∷ rest) total sent retry s r p enough =
    elim (Bool-cases (ltb sent total)) [
      | inr all ↦ rw (all, none_left total sent all, write_loop) (inl (ground arith, refl, refl))
      | inl more ↦
          let left : total - (sent + min count (total - sent)) ≡ total - sent - count =
            omega arith in
          rw (more, some_left total sent more, write_loop)
            (rw left at (
              write_loop-Ends rest total (sent + min count (total - sent)) 0 (omega arith)
                (omega arith) p.1
                (fewer total sent retry count p.0 (ltb→lt sent total more) r enough)))
    ]
