-- ===== src/ThreadPool/Monitor.antt =====
-- The threads of a pool at its lock and its condition: where each thread stands in `worker_thread`, who
-- has the lock, and what a signal and a broadcast do, as steps in any interleaving. The lock and the
-- condition are those of POSIX: a wait gives the lock back at once, and may end without a signal.
pub mod Counts
pub mod Fair
pub mod Sound
pub mod Progress
pub mod Ends
pub mod Lost
pub mod Destroy
use epoll_http_server.Prelude.{
  ℕ, ◌≡◌, Bool, true, false, List, [], ◌∷◌, ◌++◌, Option, none, some, get_elem?, set,
}
use epoll_http_server.ThreadPool.{
  Task, Pool, sleep, leave, run, put_task, worker_thread, free_task, stop,
}
use epoll_http_server.ThreadPool.Queue.{Waiting}
use epoll_http_server.ThreadPool.System
use epoll_http_server.ThreadPool.System.{start, runs, remove}

-- Before the lock; at the test behind it; behind the test, about to wait; in the wait; out of the
-- wait, about to get the lock back; with a task; at the end.
pub data Place : Type 0 where
  outside inside dozing asleep awake gone : Place
  busy : (a : ℕ) → Place

-- The pool and its tasks, whether the lock is held, and the threads that were created.
pub record Monitor : Type 0 where
  pub system : System.System
  pub locked : Bool
  pub threads : List Place

-- A thread that asks for the lock.
abbrev pub asks : Place → Bool
asks outside = true
asks awake = true
asks _ = false

-- `pthread_cond_broadcast`
abbrev pub wake : Place → Place
wake asleep = awake
wake p = p

abbrev pub wake_all : List Place → List Place
wake_all [] = []
wake_all (p ∷ ps) = wake p ∷ wake_all ps

-- One step of one thread.
pub data Move (s : Monitor) : Monitor → Type 0 where
  acquire :
      (i : ℕ) {p : Place}
      → get_elem? s.threads i ≡ some p
      → asks p ≡ true
      → s.locked ≡ false
      → Move s (record s { locked = true; threads = set s.threads i inside })
  doze :
      (i : ℕ)
      → get_elem? s.threads i ≡ some inside
      → worker_thread s.system.pool ≡ sleep
      → Move s (record s { threads = set s.threads i dozing })
  rest :
      (i : ℕ)
      → get_elem? s.threads i ≡ some dozing
      → Move s (record s { locked = false; threads = set s.threads i asleep })
  quit :
      (i : ℕ)
      → get_elem? s.threads i ≡ some inside
      → worker_thread s.system.pool ≡ leave
      → Move s (record s { locked = false; threads = set s.threads i gone })
  take_next :
      (i : ℕ) {a : ℕ} {task : Task} {left : Pool}
      → get_elem? s.threads i ≡ some inside
      → worker_thread s.system.pool ≡ run a task left
      → Move s (record {
        system = record s.system {
          pool = left;
          taken =
              s.system.taken
              ++ (record { address = a; function = task.function; arg = task.arg } ∷ []);
          running = a ∷ s.system.running;
        };
        locked = false;
        threads = set s.threads i (busy a);
      })
  end_task :
      (i a : ℕ)
      → get_elem? s.threads i ≡ some (busy a)
      → Move s (record s {
        system = record s.system {
          pool = free_task s.system.pool a;
          running = remove a s.system.running;
        };
        threads = set s.threads i outside;
      })

-- The threads behind a signal: one that waits is woken, if there is one.
pub data Signalled (ps : List Place) : List Place → Type 0 where
  woken : (i : ℕ) → get_elem? ps i ≡ some asleep → Signalled ps (set ps i awake)
  unheard : ((i : ℕ) → get_elem? ps i ≡ some asleep → ⊥) → Signalled ps ps

-- With `late` the pool may also be shut down without the lock, as `thread_pool_create` does where a
-- thread cannot be created.
pub data Step (late : Bool) : Monitor → Monitor → Type 0 where
  move : {s t : Monitor} → Move s t → Step late s t
  spawn : {s : Monitor} → Step late s (record s { threads = s.threads ++ (outside ∷ []) })
  -- A wait may end for no reason.
  stir :
      {s : Monitor} (i : ℕ)
      → get_elem? s.threads i ≡ some asleep
      → Step late s (record s { threads = set s.threads i awake })
  -- `thread_pool_add_task`, behind its lock.
  add :
      {s : Monitor} {ps : List Place} (e : Waiting)
      → s.locked ≡ false
      → s.system.pool.heap e.address ≡ none
      → Signalled s.threads ps
      → Step late s (record s {
        system = record s.system {
          pool = put_task s.system.pool e.address e.function e.arg;
          added = s.system.added ++ (e ∷ []);
        };
        threads = ps;
      })
  -- `thread_pool_destroy`, behind its lock.
  shut :
      {s : Monitor}
      → s.locked ≡ false
      → Step late s (record s {
        system = record s.system { pool = stop s.system.pool };
        threads = wake_all s.threads;
      })
  -- The two calls of the error path of `thread_pool_create`.
  flag :
      {s : Monitor}
      → late ≡ true
      → Step late s (record s { system = record s.system { pool = stop s.system.pool } })
  broadcast : {s : Monitor} → late ≡ true → Step late s (record s { threads = wake_all s.threads })

abbrev pub no_threads : Monitor
no_threads = record { system = start; locked = false; threads = [] }

pub data Reaches (late : Bool) : Monitor → Type 0 where
  begin : Reaches late no_threads
  after : {s t : Monitor} → Reaches late s → Step late s t → Reaches late t
