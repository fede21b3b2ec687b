-- ===== src/Files/Balance.antt =====
-- When the events of a handler leave no descriptor open.
use epoll_http_server.Prelude.{
  ℕ, ◌≡◌, refl, ap, ◌∙◌, List, [], ◌∷◌, ◌++◌, arith, Option, none, some, Bool-cases, inl, inr, ◌==◌,
}
use epoll_http_server.Files.{Event, opened, closed, still_open}

abbrev pub then_open : Option (List ℕ) → List Event → Option (List ℕ)
then_open none b = none
then_open (some fds) b = still_open b fds

pub still_open-append :
    (a b : List Event) (fds : List ℕ) → still_open (a ++ b) fds ≡ then_open (still_open a fds) b
still_open-append [] b fds = refl
still_open-append (opened fd ∷ a) b fds = still_open-append a b (fd ∷ fds)
still_open-append (closed fd ∷ a) b [] = refl
still_open-append (closed fd ∷ a) b (top ∷ fds) = elim (Bool-cases (top == fd)) [
  | inl same ↦ rw same (still_open-append a b fds)
  | inr other ↦ rw other refl
]

-- Every descriptor that was opened is closed again, once, and nothing else is closed.
abbrev pub IsBalanced : List Event → Type 0
IsBalanced es = still_open es [] ≡ some []

pub IsBalanced-append : (a b : List Event) → IsBalanced a → IsBalanced b → IsBalanced (a ++ b)
IsBalanced-append a b h k = still_open-append a b [] ∙ ap (λ o. then_open o b) h ∙ k

pub IsBalanced-pair : (fd : ℕ) → IsBalanced (opened fd ∷ closed fd ∷ [])
IsBalanced-pair fd = ground arith
