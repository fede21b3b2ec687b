-- ===== src/ThreadPool/Monitor/Ends.antt =====
-- How the threads go on by themselves: each step of a thread brings the end nearer, and there is one
-- while a task waits, and while a thread has not ended behind the stop.
use epoll_http_server.Prelude.{
  ℕ, zero, suc, ◌+◌, ◌-◌, ◌*◌, ◌≤◌, ◌<◌, ◌≡◌, refl, sym, ap, ◌∙◌, ◌⊎◌, true, false, inl, inr, List,
  [], ◌∷◌, ◌++◌, append-nil, length-append, arith, length, length-set, ◌==◌, Bool-cases,
}
use epoll_http_server.ThreadPool.Queue.{Waiting, Chain}
use epoll_http_server.ThreadPool.System
use epoll_http_server.ThreadPool.Order.{Holds, Reaches-Holds}
use epoll_http_server.ThreadPool.Monitor.{
  Place, outside, inside, dozing, asleep, awake, gone, busy, Monitor, Move, Reaches, acquire, doze,
  rest, quit, take_next, end_task,
}
use epoll_http_server.ThreadPool.Monitor.Counts.{ended, able, total, total-set, length-total}
use epoll_http_server.ThreadPool.Monitor.Fair.{waits, run-test}
use epoll_http_server.ThreadPool.Monitor.Sound.{Sound, Reaches-Sound, Move-Sound}
use epoll_http_server.ThreadPool.Monitor.Progress.{able_moves}

-- Whatever the threads do from `s`, one step of one thread after the other, they are where `P` holds
-- within `n` steps: until then some thread can take a step, and every step of every thread leads there.
pub data Comes (P : Monitor → Type 0) : ℕ → Monitor → Type 0 where
  there : {n : ℕ} {s : Monitor} → P s → Comes P n s
  onward :
      {n : ℕ} {s : Monitor}
      → ((t : Monitor) × Move s t)
      → ((t : Monitor) → Move s t → Comes P n t)
      → Comes P (suc n) s

-- The steps of its own that a thread has left, at most, before it waits or ends.
abbrev pub left_at : Place → ℕ
left_at outside = 3
left_at awake = 3
left_at inside = 2
left_at dozing = 1
left_at (busy a) = 4
left_at _ = 0

-- The steps that are left, three for each task that waits.
abbrev pub steps_left : Monitor → ℕ
steps_left s = total left_at s.threads + 3 * (length s.system.added - length s.system.taken)

-- Every step of a thread leaves fewer.
Move-steps_left : {s t : Monitor} → Sound s → Move s t → steps_left t < steps_left s
Move-steps_left {s} h (acquire i {p = outside} e a free) =
    omega (arith, total-set left_at s.threads i inside e)
Move-steps_left {s} h (acquire i {p = awake} e a free) =
    omega (arith, total-set left_at s.threads i inside e)
Move-steps_left {s} h (acquire i {p = inside} e a free) = cc
Move-steps_left {s} h (acquire i {p = dozing} e a free) = cc
Move-steps_left {s} h (acquire i {p = asleep} e a free) = cc
Move-steps_left {s} h (acquire i {p = gone} e a free) = cc
Move-steps_left {s} h (acquire i {p = busy b} e a free) = cc
Move-steps_left {s} h (doze i e w) = omega (arith, total-set left_at s.threads i dozing e)
Move-steps_left {s} h (rest i e) = omega (arith, total-set left_at s.threads i asleep e)
Move-steps_left {s} h (quit i e w) = omega (arith, total-set left_at s.threads i gone e)
Move-steps_left {s} h (take_next i {a = a} {task = task} {left = left} e w) = omega (
  arith,
  total-set left_at s.threads i (busy a) e,
  left_to_take,
  length-append s.system.taken (first ∷ []),
)
  where
    first : Waiting
    first = record { address = a; function = task.function; arg = task.arg }

    after_take : Holds (record s.system {
      pool = left;
      taken = s.system.taken ++ (first ∷ []);
      running = a ∷ s.system.running;
    })
    after_take = Reaches-Holds (Move-Sound h (take_next i e w)).reached

    left_to_take : length s.system.taken + 1 ≤ length s.system.added
    left_to_take = omega (
      arith,
      ap length after_take.order,
      length-append (s.system.taken ++ (first ∷ [])) after_take.waiting,
      length-append s.system.taken (first ∷ []),
    )
Move-steps_left {s} h (end_task i a e) = omega (arith, total-set left_at s.threads i outside e)

module _ (P Q : Monitor → Type 0) where
  -- Where the steps keep `Q`, and with it there is one as long as `P` does not hold, the threads come
  -- to `P`.
  pub comes :
      ((s t : Monitor) → Q s → Move s t → Q t)
      → ((s : Monitor) → Sound s → Q s → P s ⊎ ((t : Monitor) × Move s t))
      → (n : ℕ) (s : Monitor) → Sound s
      → Q s
      → steps_left s ≤ n
      → Comes P n s
  comes keep go zero s h q k = elim (go s h q) [
    | inl p ↦ there p
    | inr (t, m) ↦ absurd (omega (arith, Move-steps_left h m))
  ]
  comes keep go (suc n) s h q k = elim (go s h q) [
    | inl p ↦ there p
    | inr m ↦ onward m (λ t m'.
        comes keep go n t (Move-Sound h m') (keep s t q m')
          (omega (arith, Move-steps_left h m', k)))
  ]

pub Move-shutdown : (s t : Monitor) → Move s t → t.system.pool.shutdown ≡ s.system.pool.shutdown
Move-shutdown s t (acquire i e a free) = refl
Move-shutdown s t (doze i e w) = refl
Move-shutdown s t (rest i e) = refl
Move-shutdown s t (quit i e w) = refl
Move-shutdown s t (take_next i e w) = run-test s.system.pool w
Move-shutdown s t (end_task i a e) = refl

pub Move-threads : (s t : Monitor) → Move s t → length t.threads ≡ length s.threads
Move-threads s t (acquire i e a free) = length-set s.threads i _
Move-threads s t (doze i e w) = length-set s.threads i _
Move-threads s t (rest i e) = length-set s.threads i _
Move-threads s t (quit i e w) = length-set s.threads i _
Move-threads s t (take_next i e w) = length-set s.threads i _
Move-threads s t (end_task i a e) = length-set s.threads i _

-- Every thread that was created has ended: `pthread_join` returns for each.
abbrev pub AllGone : Monitor → Type 0
AllGone s = total ended s.threads ≡ length s.threads

-- Behind the stop every thread has ended, or there is a step.
pub gone_or_moves :
    {s : Monitor} → Sound s → s.system.pool.shutdown ≡ true → AllGone s ⊎ ((t : Monitor) × Move s t)
gone_or_moves {s} h q = elim (Bool-cases (total able s.threads == 0)) [
  | inl no_one ↦ inl (ground (arith, no_one, length-total s.threads, h.fair.sleepers q))
  | inr some_one ↦ inr (able_moves h (ground (arith, some_one)))
]

-- Every task that was added is with a thread, or done.
abbrev pub AllTaken : Monitor → Type 0
AllTaken s = s.system.taken ≡ s.system.added

no_head : (s : System.System) → Holds s → waits s.pool ≡ false → s.taken ≡ s.added
no_head s h = by_list h.waiting h.order h.queue.chain
  where
    by_list :
        (xs : List Waiting)
        → s.added ≡ s.taken ++ xs
        → Chain s.pool.heap s.pool.queue_head xs
        → waits s.pool ≡ false
        → s.taken ≡ s.added
    by_list [] order chain off = sym (order ∙ append-nil s.taken)
    by_list (x ∷ xs) order chain off = absurd (ground (arith, chain.0, off))

-- No wake-up is lost before the stop: in every state that is reached with a thread and without a stop,
-- in whatever order the threads take their steps, as long as nothing is added and no wait ends for no
-- reason, every task that was added is taken within a number of steps that the state gives; and until then some thread can take
-- a step.
pub Reaches-AllTaken :
    {s : Monitor}
    → Reaches false s
    → s.system.pool.shutdown ≡ false
    → 0 < length s.threads
    → Comes AllTaken (steps_left s) s
Reaches-AllTaken {s} r e some_thread =
    comes AllTaken (λ t. (t.system.pool.shutdown ≡ false) × (0 < length t.threads))
      (λ t u q m. (Move-shutdown t u m ∙ q.0, omega (arith, Move-threads t u m, q.1))) go
      (steps_left s) s (Reaches-Sound r) (e, some_thread) (omega arith)
  where
    go :
        (t : Monitor)
        → Sound t
        → (t.system.pool.shutdown ≡ false) × (0 < length t.threads)
        → AllTaken t ⊎ ((u : Monitor) × Move t u)
    go t h q = elim (Bool-cases (waits t.system.pool)) [
      | inr off ↦ inl (no_head t.system (Reaches-Holds h.reached) off)
      | inl on ↦ inr (
          able_moves h (
            ground (arith, length-total t.threads, h.fair.leavers q.0, h.fair.workers on q.0, q.1)))
    ]
