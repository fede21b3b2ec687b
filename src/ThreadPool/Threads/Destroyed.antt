-- ===== src/ThreadPool/Threads/Destroyed.antt =====
-- What `thread_pool_destroy` frees: the nodes that are left, and all that the pool holds.
use epoll_http_server.Prelude.{
  ℕ, zero, suc, ◌<◌, ◌≡◌, refl, ◌∙◌, Bool, true, false, ◌||◌, List, [], ◌∷◌, Option, none, some,
  arith, ◌==◌, if◌then◌else◌, length,
}
use epoll_http_server.ThreadPool.{Heap, Pool, store}
use epoll_http_server.ThreadPool.Queue.{Waiting, Chain, Distinct, IsQueue, frame}
use epoll_http_server.ThreadPool.Threads.{
  Resource, memory, lock, notify, threads, thread, Use, release, join_threads, free_nodes,
  thread_pool_destroy,
}
use epoll_http_server.ThreadPool.Threads.Held.{holds, owns, join_threads_thread}

pub released :
    (n : ℕ) (r : Resource) (log : List Use)
    → ((s : Resource) → holds s log ≡ owns n s)
    → holds r
        (release memory ∷ release threads ∷ release notify ∷ release lock ∷ join_threads n 0 log)
      ≡ false
released n memory log h = refl
released n lock log h = refl
released n notify log h = refl
released n threads log h = refl
released n (thread j) log h = ground (arith, join_threads_thread n 0 j log, h (thread j))

-- The list without the nodes of the waiting tasks.
abbrev pub without : Heap → List Waiting → Heap
without heap [] = heap
without heap (x ∷ xs) = without (store heap x.address none) xs

pub free_nodes-Chain :
    (fuel : ℕ) (heap : Heap) (head : Option ℕ) (xs : List Waiting)
    → Chain heap head xs
    → Distinct xs
    → length xs < fuel
    → free_nodes fuel heap head ≡ some (without heap xs)
unfolding free_nodes
free_nodes-Chain zero heap head xs c d enough = absurd (omega arith)
free_nodes-Chain (suc fuel) heap head [] c d enough = rw (c, free_nodes)
free_nodes-Chain (suc fuel) heap head (x ∷ xs) (at_head, next, node, rest) d enough =
    rw (at_head, free_nodes, node)
      (free_nodes-Chain fuel (store heap x.address none) next xs
        (frame heap x.address none next xs d.0 rest) d.1 (omega arith))

-- Whether the node of a waiting task is at an address.
abbrev pub waits : ℕ → List Waiting → Bool
waits a [] = false
waits a (x ∷ xs) = (x.address == a) || waits a xs

pub without_lem :
    (heap : Heap) (xs : List Waiting) (a : ℕ)
    → without heap xs a ≡ (if waits a xs then none else heap a)
without_lem heap [] a = refl
without_lem heap (x ∷ xs) a =
    without_lem (store heap x.address none) xs a ∙ either (x.address == a) (waits a xs)
  where
    either :
        (here later : Bool)
        → (if later then none else (if here then none else heap a))
          ≡ (if here || later then none else heap a)
    either true true = refl
    either true false = refl
    either false later = refl

-- For a pool that holds all that a pool of its threads has, with its queue well formed and fuel for the
-- tasks that are left, the destroy returns. Every node that was left is freed, no other is, and of what
-- the pool held nothing is left: each thread has been joined.
pub thread_pool_destroy-Frees :
    (fuel n : ℕ) (pool : Pool) (log : List Use) (xs : List Waiting)
    → IsQueue pool xs
    → length xs < fuel
    → ((r : Resource) → holds r log ≡ owns n r)
    → (heap : Heap) × (log' : List Use) × (thread_pool_destroy fuel n pool log ≡ some (heap, log'))
      × ((a : ℕ) → heap a ≡ (if waits a xs then none else pool.heap a))
      × ((r : Resource) → holds r log' ≡ false)
unfolding thread_pool_destroy
thread_pool_destroy-Frees fuel n pool log xs q enough h = (
  without pool.heap xs,
  release memory ∷ release threads ∷ release notify ∷ release lock ∷ join_threads n 0 log,
  rw (
    free_nodes-Chain fuel pool.heap pool.queue_head xs q.chain q.distinct enough,
    thread_pool_destroy,
  ),
  without_lem pool.heap xs,
  λ r. released n r log h,
)
