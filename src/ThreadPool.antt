-- ===== src/ThreadPool.antt =====
-- src/thread_pool.c and include/thread_pool.h: the queue of tasks as linked nodes on a heap. What
-- stands between a lock and its unlock is one function. Threads has create and destroy.
pub mod Queue
pub mod System
pub mod Order
pub mod Threads
pub mod Nodes
pub mod Monitor
use epoll_http_server.Prelude.{
  ℕ, zero, suc, Bool, true, false, ◌||◌, ◌&&◌, not, List, [], ◌∷◌, Option, none, some, ◌==◌,
  if◌then◌else◌,
}

-- `thread_pool_task`: a function and its argument, as addresses, and the next node.
pub record Task : Type 0 where
  pub function : ℕ
  pub arg : ℕ
  pub next : Option ℕ

-- What `malloc` gave and `free` has not taken back.
abbrev pub Heap : Type 0
Heap = ℕ → Option Task

-- `thread_pool_t`, with the heap of its nodes.
pub record Pool : Type 0 where
  pub queue_head : Option ℕ
  pub queue_tail : Option ℕ
  pub shutdown : Bool
  pub heap : Heap

-- The heap with a new content at an address; `none` is what `free` leaves.
abbrev pub store : Heap → ℕ → Option Task → Heap
store heap a v b = if a == b then v else heap b

abbrev pub with_next : ℕ → Option Task → Option Task
with_next a none = none
with_next a (some task) = some (record task { next = some a })

-- `node->next = a`
abbrev pub link : Heap → ℕ → ℕ → Heap
link heap node a b = if node == b then with_next a (heap b) else heap b

-- A new pool.
unfoldable pub new_pool : Pool
new_pool = record { queue_head = none; queue_tail = none; shutdown = false; heap = λ a. none }

-- The node at `a` is put at the end of the queue.
unfoldable pub push_task : Pool → ℕ → Pool
push_task pool a = elim pool.queue_tail [
  | none ↦ record pool { queue_head = some a; queue_tail = some a }
  | some tail ↦ record pool { queue_tail = some a; heap = link pool.heap tail a }
]

-- A new node is filled and put into the queue.
unfoldable pub put_task : Pool → ℕ → ℕ → ℕ → Pool
unfolding push_task
put_task pool a function arg =
    push_task
      (record pool {
        heap = store pool.heap a (some (record { function = function; arg = arg; next = none }));
      })
      a

-- With `none` for NULL, and the answer of `malloc`. The result is `true` for 0.
unfoldable pub thread_pool_add_task : Option Pool → Option ℕ → ℕ → Option ℕ → Option Pool × Bool
unfolding put_task
thread_pool_add_task none function arg address = (none, false)
thread_pool_add_task (some pool) none arg address = (some pool, false)
thread_pool_add_task (some pool) (some function) arg none = (some pool, false)
thread_pool_add_task (some pool) (some function) arg (some a) =
    if pool.shutdown then (some pool, false) else (some (put_task pool a function arg), true)

-- What a thread does behind the lock: it waits, it ends, or it has a task, which is no longer in the
-- queue. A head that points to no node is a fault.
pub data Next : Type 0 where
  sleep leave fault : Next
  run : (a : ℕ) (task : Task) (pool : Pool) → Next

-- The node is taken off the head.
unfoldable pub take_task : Pool → ℕ → Option Task → Next
take_task pool a none = fault
take_task pool a (some task) = run a task (elim task.next [
  | none ↦ record pool { queue_head = none; queue_tail = none }
  | some b ↦ record pool { queue_head = some b }
])

-- One round of the loop of a thread, up to the unlock.
unfoldable pub worker_thread : Pool → Next
unfolding take_task
worker_thread pool = elim pool.queue_head [
  | none ↦ if pool.shutdown then leave else sleep
  | some a ↦ take_task pool a (pool.heap a)
]

-- `free(task)`
abbrev pub free_task : Pool → ℕ → Pool
free_task pool a = record pool { heap = store pool.heap a none }

-- What `thread_pool_destroy` sets behind the lock.
unfoldable pub stop : Pool → Pool
stop pool = record pool { shutdown = true }
