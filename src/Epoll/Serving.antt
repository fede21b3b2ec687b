-- ===== src/Epoll/Serving.antt =====
-- The server at work as a whole: the main thread that accepts and dispatches, the pool with its linked
-- queue, the arguments of its tasks on the heap, the turns of the workers, and the table. The steps of
-- the pool are those of ThreadPool/System, which its threads keep to.
pub mod Shows
pub mod Counted
pub mod Refines
pub mod Safe
pub mod MainThread
use epoll_http_server.Prelude.{
  ℕ, ◌<◌, ◌≡◌, Bool, true, false, ◌&&◌, List, [], ◌∷◌, ◌++◌, Option, none, some, get_elem?, set,
  ◌==◌, if◌then◌else◌,
}
use epoll_http_server.Connection.{Connection}
use epoll_http_server.ThreadPool.{Task, Pool, run, put_task, worker_thread, free_task, stop}
use epoll_http_server.ThreadPool.Queue.{Waiting}
use epoll_http_server.ThreadPool.System
use epoll_http_server.Epoll.Table.{
  Handler, entry, max_events, epoll_handler_close, epoll_handler_check_timeout,
}
use epoll_http_server.Epoll.Table.Entries.{expire}
use epoll_http_server.Epoll.Worker.{put, rearm, taken_up}
use epoll_http_server.Epoll.Sharing
use epoll_http_server.Epoll.Sharing.{update, occupied, joined, TurnedAway}

-- How far a worker is with its task: it has the pointer to its argument; it has a connection in use; it
-- has released the connection of an incomplete request and not armed it again; or
-- `worker_process_request` has returned.
pub data Stage : Type 0 where
  comes : (arg : ℕ) → Stage
  holds : (fd : ℕ) → Stage
  leaves : (fd : ℕ) → Stage
  over : Stage

-- A task that was taken, by the address of its node.
pub record Job : Type 0 where
  pub node : ℕ
  pub stage : Stage

-- The pool; the descriptor in each `work_arg_t` that is allocated; the tasks that were taken; the
-- table; and the descriptors that epoll may report.
pub record Serving : Type 0 where
  pub system : System.System
  pub args : ℕ → Option ℕ
  pub jobs : List Job
  pub handler : Handler
  pub armed : ℕ → Bool

abbrev pub put_arg : (ℕ → Option ℕ) → ℕ → Option ℕ → ℕ → Option ℕ
put_arg args a v b = if a == b then v else args b

pub data Step (late : Bool) : Serving → Serving → Type 0 where
  accept :
      {w : Serving} (fd time : ℕ)
      → fd < max_events
      → entry w.handler.connections fd ≡ none
      → Step late w
          (record w { handler = joined w.handler fd time; armed = update w.armed fd true })
  -- A client is turned away.
  turn_away :
      {w : Serving} (fd : ℕ) (after : Handler)
      → entry w.handler.connections fd ≡ none
      → TurnedAway fd w.handler after
      → Step late w (record w { handler = after })
  -- An event is dispatched: `malloc` gives room for the argument and for the node of the task.
  event :
      {w : Serving} (fd : ℕ) (e : Waiting)
      → w.armed fd ≡ true
      → w.args e.arg ≡ none
      → w.system.pool.heap e.address ≡ none
      → Step late w (record w {
        system = record w.system {
          pool = put_task w.system.pool e.address e.function e.arg;
          added = w.system.added ++ (e ∷ []);
        };
        args = put_arg w.args e.arg (some fd);
        armed = update w.armed fd false;
      })
  -- An event whose task cannot be made, or is refused: the client is closed.
  refuse :
      {w : Serving} (fd : ℕ)
      → w.armed fd ≡ true
      → Step late w
          (record w { handler = epoll_handler_close w.handler fd; armed = update w.armed fd false })
  -- A worker takes the first task.
  take_next :
      {w : Serving} {a : ℕ} {task : Task} {left : Pool}
      → worker_thread w.system.pool ≡ run a task left
      → Step late w (record w {
        system = record w.system {
          pool = left;
          taken =
              w.system.taken
              ++ (record { address = a; function = task.function; arg = task.arg } ∷ []);
          running = a ∷ w.system.running;
        };
        jobs = w.jobs ++ (record { node = a; stage = comes task.arg } ∷ []);
      })
  -- It reads and frees its argument, and marks the connection.
  start :
      {w : Serving} {conn : Connection} (i a arg fd arrival : ℕ)
      → get_elem? w.jobs i ≡ some (record { node = a; stage = comes arg })
      → w.args arg ≡ some fd
      → entry w.handler.connections fd ≡ some conn
      → Step late w (record w {
        args = put_arg w.args arg none;
        jobs = set w.jobs i (record { node = a; stage = holds fd });
        handler = put w.handler fd (taken_up conn arrival);
      })
  -- The connection is gone.
  miss :
      {w : Serving} (i a arg fd : ℕ)
      → get_elem? w.jobs i ≡ some (record { node = a; stage = comes arg })
      → w.args arg ≡ some fd
      → entry w.handler.connections fd ≡ none
      → Step late w (record w {
        args = put_arg w.args arg none;
        jobs = set w.jobs i (record { node = a; stage = over });
      })
  -- The end of a turn behind a response that keeps the connection, and of one that closes it.
  keep :
      {w : Serving} {old : Connection} (i a fd : ℕ) (conn : Connection)
      → get_elem? w.jobs i ≡ some (record { node = a; stage = holds fd })
      → entry w.handler.connections fd ≡ some old
      → Step late w (record w {
        jobs = set w.jobs i (record { node = a; stage = over });
        handler = rearm (put w.handler fd (record conn { in_use = false })) fd;
        armed = update w.armed fd true;
      })
  finish :
      {w : Serving} (i a fd : ℕ)
      → get_elem? w.jobs i ≡ some (record { node = a; stage = holds fd })
      → Step late w (record w {
        jobs = set w.jobs i (record { node = a; stage = over });
        handler = epoll_handler_close w.handler fd;
        armed = update w.armed fd false;
      })
  -- The request is incomplete: the mark is taken off with no lock held, and then the descriptor is armed
  -- again, whatever has become of the connection in between.
  release :
      {w : Serving} {old : Connection} (i a fd : ℕ) (conn : Connection)
      → get_elem? w.jobs i ≡ some (record { node = a; stage = holds fd })
      → entry w.handler.connections fd ≡ some old
      → Step late w (record w {
        jobs = set w.jobs i (record { node = a; stage = leaves fd });
        handler = put w.handler fd (record conn { in_use = false });
      })
  arm_again :
      {w : Serving} (i a fd : ℕ)
      → get_elem? w.jobs i ≡ some (record { node = a; stage = leaves fd })
      → Step late w (record w {
        jobs = set w.jobs i (record { node = a; stage = over });
        handler = rearm w.handler fd;
        armed = update w.armed fd (occupied (entry w.handler.connections fd));
      })
  -- The node of the task is freed.
  end_task :
      {w : Serving} (i a : ℕ)
      → get_elem? w.jobs i ≡ some (record { node = a; stage = over })
      → System.runs a w.system.running ≡ true
      → Step late w (record w {
        system = record w.system {
          pool = free_task w.system.pool a;
          running = System.remove a w.system.running;
        };
      })
  shut :
      {w : Serving}
      → Step late w (record w { system = record w.system { pool = stop w.system.pool } })
  check :
      {w : Serving} (time : ℕ)
      → (late ≡ false
          → ((arg fd : ℕ)
              → w.args arg ≡ some fd
              → expire time (entry w.handler.connections fd) ≡ entry w.handler.connections fd)
            × ((i a fd : ℕ)
                → get_elem? w.jobs i ≡ some (record { node = a; stage = leaves fd })
                → expire time (entry w.handler.connections fd) ≡ entry w.handler.connections fd))
      → Step late w (record w {
        handler = epoll_handler_check_timeout time w.handler;
        armed = λ fd. w.armed fd && occupied (expire time (entry w.handler.connections fd));
      })

abbrev pub at_start : Serving
at_start = record {
  system = System.start;
  args = λ a. none;
  jobs = [];
  handler = Sharing.idle.handler;
  armed = λ fd. false;
}

pub data Reaches (late : Bool) : Serving → Type 0 where
  begin : Reaches late at_start
  after : {w v : Serving} → Reaches late w → Step late w v → Reaches late v
