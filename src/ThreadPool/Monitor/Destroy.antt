-- ===== src/ThreadPool/Monitor/Destroy.antt =====
-- `thread_pool_destroy` from its broadcast on: the threads end, so each `pthread_join` returns, and what
-- the destroy frees then is all that is left.
use epoll_http_server.Prelude.{
  ℕ, ◌+◌, ◌≤◌, ◌<◌, ◌≡◌, refl, ap, ◌∙◌, ◌⊎◌, true, false, inl, inr, List, [], ◌∷◌, length-append,
  some, none, arith, length, if◌then◌else◌, Bool-cases,
}
use epoll_http_server.ThreadPool.{Heap}
use epoll_http_server.ThreadPool.Nodes.{Reaches-NoLeak}
use epoll_http_server.ThreadPool.System.{runs}
use epoll_http_server.ThreadPool.Order.{Holds, Reaches-Holds}
use epoll_http_server.ThreadPool.Threads.{Resource, Use, thread_pool_destroy}
use epoll_http_server.ThreadPool.Threads.Held.{holds, owns}
use epoll_http_server.ThreadPool.Threads.Destroyed.{waits, thread_pool_destroy-Frees}
use epoll_http_server.ThreadPool.Monitor.{
  Place, outside, inside, dozing, asleep, awake, gone, busy, Monitor, Move, Reaches, acquire, doze,
  rest, quit, take_next, end_task,
}
use epoll_http_server.ThreadPool.Monitor.Counts.{ended, busy_at, total}
use epoll_http_server.ThreadPool.Monitor.Sound.{Sound, Reaches-Sound}
use epoll_http_server.ThreadPool.Monitor.Ends.{
  Comes, steps_left, comes, Move-shutdown, Move-threads, AllGone, gone_or_moves,
}

-- Every thread has ended, and the rest of the destroy returns, frees every node of a task that is still
-- allocated, and gives back all that the pool held.
abbrev pub Destroyed : ℕ → List Use → Monitor → Type 0
Destroyed fuel log s =
    AllGone s
    × (heap : Heap) × (log' : List Use) × (thread_pool_destroy fuel (length s.threads) s.system.pool
          log
        ≡ some (heap, log'))
    × ((a : ℕ) → heap a ≡ none)
    × ((r : Resource) → holds r log' ≡ false)

-- A thread at the end has no task.
busy-ended : (a : ℕ) (ps : List Place) → total (busy_at a) ps + total ended ps ≤ length ps
busy-ended a [] = omega arith
busy-ended a (outside ∷ ps) = omega (arith, busy-ended a ps)
busy-ended a (inside ∷ ps) = omega (arith, busy-ended a ps)
busy-ended a (dozing ∷ ps) = omega (arith, busy-ended a ps)
busy-ended a (asleep ∷ ps) = omega (arith, busy-ended a ps)
busy-ended a (awake ∷ ps) = omega (arith, busy-ended a ps)
busy-ended a (gone ∷ ps) = omega (arith, busy-ended a ps)
busy-ended a (busy b ∷ ps) = ground (arith, busy-ended a ps)

gone-runs : {s : Monitor} → Sound s → AllGone s → (a : ℕ) → runs a s.system.running ≡ false
gone-runs {s} h g a = ground (arith, h.busies.at a, busy-ended a s.threads)

Move-added : (s t : Monitor) → Move s t → t.system.added ≡ s.system.added
Move-added s t (acquire i e a free) = refl
Move-added s t (doze i e w) = refl
Move-added s t (rest i e) = refl
Move-added s t (quit i e w) = refl
Move-added s t (take_next i e w) = refl
Move-added s t (end_task i a e) = refl

module _ (fuel : ℕ) (log : List Use) where
  -- What the moves keep: the stop, the number of threads and of tasks that were added.
  Stopped : Monitor → Type 0
  Stopped s =
      (s.system.pool.shutdown ≡ true)
      × (length s.system.added < fuel)
      × ((r : Resource) → holds r log ≡ owns (length s.threads) r)

  Move-Stopped : (s t : Monitor) → Stopped s → Move s t → Stopped t
  unfolding Stopped
  Move-Stopped s t q m =
      (Move-shutdown s t m ∙ q.0, rw (Move-added s t m) (q.1), rw (Move-threads s t m) (q.2))

  gone-Destroyed : (s : Monitor) → Sound s → Stopped s → AllGone s → Destroyed fuel log s
  unfolding Stopped
  gone-Destroyed s h q g =
      let (heap, log', result, freed, released) =
        thread_pool_destroy-Frees fuel (length s.threads) s.system.pool log left.waiting left.queue
          few q.2 in
      (g, heap, log', result, λ a. freed a ∙ none_left a, released)
    where
      left : Holds s.system
      left = Reaches-Holds h.reached

      few : length left.waiting < fuel
      few = omega (arith, ap length left.order, length-append s.system.taken left.waiting, q.1)

      none_left : (a : ℕ) → (if waits a left.waiting then none else s.system.pool.heap a) ≡ none
      none_left a = elim (Bool-cases (waits a left.waiting)) [
        | inl on ↦ rw on
        | inr off ↦
            rw off (Reaches-NoLeak h.reached left.waiting left.order a off (gone-runs h g a))
      ]

  -- Once the pool is stopped under the lock, with one unit of fuel more than tasks were ever added and
  -- with the pool holding all that a pool of its threads has: in whatever order the threads take their
  -- steps, within a number of steps that the state gives every thread has ended, with a
  -- step for some thread until then; and then the rest of the destroy returns, leaves no node of a task allocated,
  -- and gives back all that the pool held.
  pub Reaches-Destroyed :
      {s : Monitor}
      → Reaches false s
      → s.system.pool.shutdown ≡ true
      → length s.system.added < fuel
      → ((r : Resource) → holds r log ≡ owns (length s.threads) r)
      → Comes (Destroyed fuel log) (steps_left s) s
  unfolding Stopped
  Reaches-Destroyed {s} r e few held =
      comes (Destroyed fuel log) Stopped Move-Stopped go (steps_left s) s (Reaches-Sound r)
        (e, few, held) (omega arith)
    where
      go : (t : Monitor) → Sound t → Stopped t → Destroyed fuel log t ⊎ ((u : Monitor) × Move t u)
      go t h q = elim (gone_or_moves h q.0) [ inl g ↦ inl (gone-Destroyed t h q g) | inr m ↦ inr m ]
