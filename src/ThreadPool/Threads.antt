-- ===== src/ThreadPool/Threads.antt =====
-- `thread_pool_create` and `thread_pool_destroy`: the memory, the lock, the condition and the threads
-- of a pool, as what is acquired and released, newest first. What the calls answer is an argument.
pub mod Held
pub mod Destroyed
use epoll_http_server.Prelude.{
  ℕ, zero, suc, ◌+◌, Bool, true, false, List, [], ◌∷◌, Option, none, some, ◌==◌, ltb, if◌then◌else◌,
}
use epoll_http_server.Prelude.Int.{ℤ, pos, pos_part, ltb_ℤ}
use epoll_http_server.ThreadPool.{Heap, Pool, store, new_pool}

-- The memory of the pool, its lock and its condition, the array of the threads, and each thread.
pub data Resource : Type 0 where
  memory lock notify threads : Resource
  thread : (i : ℕ) → Resource

pub data Use : Type 0 where
  acquire release : (r : Resource) → Use

-- What the calls answer: `malloc` twice, the two `init`, and `pthread_create` for each thread.
pub record Answers : Type 0 where
  pub memory : Bool
  pub lock : Bool
  pub notify : Bool
  pub threads : Bool
  pub thread : ℕ → Bool

-- `pthread_join` for `n` threads from `i` on.
unfoldable pub join_threads : ℕ → ℕ → List Use → List Use
join_threads zero i log = log
join_threads (suc n) i log = join_threads n (i + 1) (release (thread i) ∷ log)

-- The loop over `pthread_create`, with the threads left and the next one. Where a call fails, the
-- threads before it are joined.
unfoldable pub create_threads : ℕ → ℕ → (ℕ → Bool) → List Use → Bool × List Use
unfolding join_threads
create_threads zero i answers log = (true, log)
create_threads (suc n) i answers log =
    if answers i then create_threads n (i + 1) answers (acquire (thread i) ∷ log) else (
      false,
      release memory ∷ release lock ∷ release notify ∷ release threads ∷ join_threads i 0 log,
    )

unfoldable pub thread_pool_create : ℤ → Answers → Option Pool × List Use
unfolding create_threads new_pool
thread_pool_create count answers =
    if ltb_ℤ (pos 0) count
    then (if answers.memory
        then (if answers.lock
            then (if answers.notify
                then (if answers.threads
                    then (let (created, log) =
                          create_threads (pos_part count) 0 answers.thread (
                            acquire threads
                            ∷ acquire notify
                            ∷ acquire lock
                            ∷ acquire memory
                            ∷ []) in
                        (if created then some new_pool else none, log))
                    else (
                      none,
                      release memory
                          ∷ release lock
                          ∷ release notify
                          ∷ acquire notify
                          ∷ acquire lock
                          ∷ acquire memory
                          ∷ [],
                    ))
                else (none, release memory ∷ release lock ∷ acquire lock ∷ acquire memory ∷ []))
            else (none, release memory ∷ acquire memory ∷ []))
        else (none, []))
    else (none, [])

-- `while (task != NULL)`: the nodes from `head` on are freed. With no fuel left, or where a pointer
-- goes to no node, the result is `none`.
unfoldable pub free_nodes : ℕ → Heap → Option ℕ → Option Heap
free_nodes zero heap head = none
free_nodes (suc fuel) heap none = some heap
free_nodes (suc fuel) heap (some a) = elim (heap a) [
  | none ↦ none
  | some task ↦ free_nodes fuel (store heap a none) task.next
]

-- From the joins on, with the pool as its threads have left it: the heap that is left, and the log.
unfoldable pub thread_pool_destroy : ℕ → ℕ → Pool → List Use → Option (Heap × List Use)
unfolding join_threads free_nodes
thread_pool_destroy fuel thread_counts pool log = elim (free_nodes fuel pool.heap pool.queue_head) [
  | none ↦ none
  | some heap ↦ some (
    heap,
    release memory
        ∷ release threads
        ∷ release notify
        ∷ release lock
        ∷ join_threads thread_counts 0 log,
  )
]
