-- ===== src/ThreadPool/System.antt =====
-- The pool at work: any interleaving of callers that add tasks, threads that take and end them, and
-- the stop of the pool, as a step relation.
use epoll_http_server.Prelude.{
  ℕ, ◌≡◌, Bool, true, false, ◌||◌, List, [], ◌∷◌, ◌++◌, none, ◌==◌, if◌then◌else◌,
}
use epoll_http_server.ThreadPool.{
  Task, Pool, run, new_pool, put_task, worker_thread, free_task, stop,
}
use epoll_http_server.ThreadPool.Queue.{Waiting}

-- The pool, the tasks that were added and those that were taken, each in its order, and the nodes
-- whose tasks run.
pub record System : Type 0 where
  pub pool : Pool
  pub added : List Waiting
  pub taken : List Waiting
  pub running : List ℕ

abbrev pub start : System
unfolding new_pool
start = record { pool = new_pool; added = []; taken = []; running = [] }

abbrev pub runs : ℕ → List ℕ → Bool
runs a [] = false
runs a (b ∷ bs) = (b == a) || runs a bs

abbrev pub remove : ℕ → List ℕ → List ℕ
remove a [] = []
remove a (b ∷ bs) = if b == a then remove a bs else b ∷ remove a bs

-- A task is added at a node that `malloc` gave. The callers read `shutdown` outside of the lock, so
-- a task may come in behind a stop.
pub data Step : System → System → Type 0 where
  add :
      {s : System} (e : Waiting)
      → s.pool.heap e.address ≡ none
      → Step s (record s {
        pool = put_task s.pool e.address e.function e.arg;
        added = s.added ++ (e ∷ []);
      })
  take_next :
      {s : System} {a : ℕ} {task : Task} {rest : Pool}
      → worker_thread s.pool ≡ run a task rest
      → Step s (record s {
        pool = rest;
        taken = s.taken ++ (record { address = a; function = task.function; arg = task.arg } ∷ []);
        running = a ∷ s.running;
      })
  end_task :
      {s : System} (a : ℕ)
      → runs a s.running ≡ true
      → Step s (record s { pool = free_task s.pool a; running = remove a s.running })
  shut : {s : System} → Step s (record s { pool = stop s.pool })

pub data Reaches : System → Type 0 where
  begin : Reaches start
  after : {s t : System} → Reaches s → Step s t → Reaches t
