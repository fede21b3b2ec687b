-- ===== src/ThreadPool/Monitor/Counts.antt =====
-- How many threads stand where, and what a step of one of them does to the count.
use epoll_http_server.Prelude.{
  ℕ, zero, suc, ◌+◌, ◌<◌, ◌≡◌, refl, inl, inr, List, [], ◌∷◌, ◌++◌, some, arith, get_elem?, set,
  length, ◌==◌, if◌then◌else◌, Bool-cases,
}
use epoll_http_server.ThreadPool.Monitor.{
  Place, outside, inside, dozing, asleep, awake, gone, busy, wake_all,
}

-- At the test behind the lock.
abbrev pub tests : Place → ℕ
tests inside = 1
tests _ = 0

-- About to wait, still with the lock.
abbrev pub dozes : Place → ℕ
dozes dozing = 1
dozes _ = 0

abbrev pub sleeps : Place → ℕ
sleeps asleep = 1
sleeps _ = 0

abbrev pub ended : Place → ℕ
ended gone = 1
ended _ = 0

-- Neither in the wait nor at the end.
abbrev pub able : Place → ℕ
able asleep = 0
able gone = 0
able _ = 1

-- With the task at an address.
abbrev pub busy_at : ℕ → Place → ℕ
busy_at a (busy b) = if b == a then 1 else 0
busy_at a _ = 0

module _ {A : Type 0} (w : A → ℕ) where
  abbrev pub total : List A → ℕ
  total [] = 0
  total (p ∷ ps) = w p + total ps

  pub total-set :
      (ps : List A) (i : ℕ) {p : A} (q : A)
      → get_elem? ps i ≡ some p
      → total (set ps i q) + w p ≡ total ps + w q
  total-set [] i q e = cc
  total-set (x ∷ ps) zero {p} q e = ground (arith, e)
  total-set (x ∷ ps) (suc i) q e = omega (arith, total-set ps i q e)

  pub total-append : (ps qs : List A) → total (ps ++ qs) ≡ total ps + total qs
  total-append [] qs = omega arith
  total-append (p ∷ ps) qs = omega (arith, total-append ps qs)

  -- An element that counts is there.
  pub total-some :
      (ps : List A) → 0 < total ps → (i : ℕ) × (p : A) × (get_elem? ps i ≡ some p) × (0 < w p)
  total-some [] h = absurd (omega arith)
  total-some (p ∷ ps) h = elim (Bool-cases (w p == 0)) [
    | inr here ↦ (0, p, refl, ground (arith, here))
    | inl later ↦ let (i, q, e, k) = total-some ps (ground (arith, h, later)) in (suc i, q, e, k)
  ]

module _ (w : Place → ℕ) where
  pub total-wake_all : w asleep ≡ w awake → (ps : List Place) → total w (wake_all ps) ≡ total w ps
  total-wake_all e [] = refl
  total-wake_all e (outside ∷ ps) = omega (arith, total-wake_all e ps)
  total-wake_all e (inside ∷ ps) = omega (arith, total-wake_all e ps)
  total-wake_all e (dozing ∷ ps) = omega (arith, total-wake_all e ps)
  total-wake_all e (asleep ∷ ps) = omega (arith, e, total-wake_all e ps)
  total-wake_all e (awake ∷ ps) = omega (arith, total-wake_all e ps)
  total-wake_all e (gone ∷ ps) = omega (arith, total-wake_all e ps)
  total-wake_all e (busy a ∷ ps) = omega (arith, total-wake_all e ps)

pub sleeps-wake_all : (ps : List Place) → total sleeps (wake_all ps) ≡ 0
sleeps-wake_all [] = refl
sleeps-wake_all (outside ∷ ps) = omega (arith, sleeps-wake_all ps)
sleeps-wake_all (inside ∷ ps) = omega (arith, sleeps-wake_all ps)
sleeps-wake_all (dozing ∷ ps) = omega (arith, sleeps-wake_all ps)
sleeps-wake_all (asleep ∷ ps) = omega (arith, sleeps-wake_all ps)
sleeps-wake_all (awake ∷ ps) = omega (arith, sleeps-wake_all ps)
sleeps-wake_all (gone ∷ ps) = omega (arith, sleeps-wake_all ps)
sleeps-wake_all (busy a ∷ ps) = omega (arith, sleeps-wake_all ps)

-- Every thread is in the wait, at the end, or able.
pub length-total : (ps : List Place) → length ps ≡ total able ps + total sleeps ps + total ended ps
length-total [] = refl
length-total (outside ∷ ps) = omega (arith, length-total ps)
length-total (inside ∷ ps) = omega (arith, length-total ps)
length-total (dozing ∷ ps) = omega (arith, length-total ps)
length-total (asleep ∷ ps) = omega (arith, length-total ps)
length-total (awake ∷ ps) = omega (arith, length-total ps)
length-total (gone ∷ ps) = omega (arith, length-total ps)
length-total (busy a ∷ ps) = omega (arith, length-total ps)
