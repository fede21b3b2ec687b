-- ===== src/ThreadPool/Monitor/Progress.antt =====
-- Which thread can take a step: the one with the lock, one that asks for a free lock, or one with a
-- task.
use epoll_http_server.Prelude.{
  ℕ, ◌<◌, ◌≡◌, refl, ap, ◌∙◌, true, inl, inr, List, [], ◌∷◌, some, arith, get_elem?, ◌==◌,
  if◌then◌else◌, Bool-cases,
}
use epoll_http_server.ThreadPool.{sleep, leave}
use epoll_http_server.ThreadPool.Queue.{Waiting, Finds, worker_thread-Finds}
use epoll_http_server.ThreadPool.Order.{Holds, Reaches-Holds}
use epoll_http_server.ThreadPool.Monitor.{
  Place, asks, outside, inside, dozing, asleep, awake, gone, busy, Monitor, Move, acquire, doze,
  rest, quit, take_next, end_task,
}
use epoll_http_server.ThreadPool.Monitor.Counts.{tests, dozes, able, total, total-some}
use epoll_http_server.ThreadPool.Monitor.Sound.{Sound}

-- A thread at the test behind the lock waits, ends or has a task: no other outcome is reached.
pub inside_moves :
    {s : Monitor} (i : ℕ) → Sound s → get_elem? s.threads i ≡ some inside → (t : Monitor) × Move s t
inside_moves {s} i h e = by_list q.waiting (worker_thread-Finds s.system.pool q.waiting q.queue)
  where
    q : Holds s.system
    q = Reaches-Holds h.reached

    by_list : (xs : List Waiting) → Finds s.system.pool xs → (t : Monitor) × Move s t
    by_list [] found = elim (Bool-cases s.system.pool.shutdown) [
      | inl on ↦ (_, quit i e (found ∙ ap (λ b. if b then leave else sleep) on))
      | inr off ↦ (_, doze i e (found ∙ ap (λ b. if b then leave else sleep) off))
    ]
    by_list (x ∷ xs) (next, left, found, flag, heap, queue, freed) = (_, take_next i e found)

-- The thread with the lock can take a step.
pub holder_moves : {s : Monitor} → Sound s → s.locked ≡ true → (t : Monitor) × Move s t
holder_moves {s} h on = elim (Bool-cases (total tests s.threads == 0)) [
  | inr some_tests ↦ at_test (total-some tests s.threads (ground (arith, some_tests)))
  | inl no_tests ↦
      at_doze (total-some dozes s.threads (ground (arith, no_tests, h.fair.holders, on)))
]
  where
    at_test :
        ((i : ℕ) × (p : Place) × (get_elem? s.threads i ≡ some p) × (0 < tests p))
        → (t : Monitor) × Move s t
    at_test (i, inside, e, k) = inside_moves i h e
    at_test (i, outside, e, k) = absurd (omega arith)
    at_test (i, dozing, e, k) = absurd (omega arith)
    at_test (i, asleep, e, k) = absurd (omega arith)
    at_test (i, awake, e, k) = absurd (omega arith)
    at_test (i, gone, e, k) = absurd (omega arith)
    at_test (i, busy a, e, k) = absurd (omega arith)

    at_doze :
        ((i : ℕ) × (p : Place) × (get_elem? s.threads i ≡ some p) × (0 < dozes p))
        → (t : Monitor) × Move s t
    at_doze (i, dozing, e, k) = (_, rest i e)
    at_doze (i, outside, e, k) = absurd (omega arith)
    at_doze (i, inside, e, k) = absurd (omega arith)
    at_doze (i, asleep, e, k) = absurd (omega arith)
    at_doze (i, awake, e, k) = absurd (omega arith)
    at_doze (i, gone, e, k) = absurd (omega arith)
    at_doze (i, busy a, e, k) = absurd (omega arith)

-- A thread that asks for the lock gets it, or the one that has it can take a step.
pub asking_moves :
    {s : Monitor} (i : ℕ) (p : Place)
    → Sound s
    → get_elem? s.threads i ≡ some p
    → asks p ≡ true
    → (t : Monitor) × Move s t
asking_moves {s} i p h e a = elim (Bool-cases s.locked) [
  | inl on ↦ holder_moves h on
  | inr off ↦ (_, acquire i e a off)
]

-- Where a thread is neither in the wait nor at the end, some thread can take a step.
pub able_moves : {s : Monitor} → Sound s → 0 < total able s.threads → (t : Monitor) × Move s t
able_moves {s} h k = at (total-some able s.threads k)
  where
    at :
        ((i : ℕ) × (p : Place) × (get_elem? s.threads i ≡ some p) × (0 < able p))
        → (t : Monitor) × Move s t
    at (i, outside, e, k') = asking_moves i outside h e refl
    at (i, awake, e, k') = asking_moves i awake h e refl
    at (i, inside, e, k') = inside_moves i h e
    at (i, dozing, e, k') = (_, rest i e)
    at (i, busy a, e, k') = (_, end_task i a e)
    at (i, asleep, e, k') = absurd (omega arith)
    at (i, gone, e, k') = absurd (omega arith)
