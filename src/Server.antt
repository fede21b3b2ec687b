-- ===== src/Server.antt =====
-- src/server.c: the socket that listens, and the main thread's loop over events. The answers of the
-- operating system are arguments, and so is what the workers do to the table while the loop waits.
pub mod Init
pub mod Rounds
pub mod Idle
pub mod Run
pub mod Workers
use epoll_http_server.Prelude.{
  ℕ, ◌+◌, Bool, true, false, List, [], ◌∷◌, ◌++◌, Option, none, some, replicate, leb, ltb, ◌==◌,
  if◌then◌else◌,
}
use Prim.Native.Nat.{bit_or}
use epoll_http_server.Prelude.Int.{ℤ, pos, pos_part, ltb_ℤ}
use epoll_http_server.Files.{Event, opened, closed}
use epoll_http_server.Request.{Config}
use epoll_http_server.ThreadPool.{Pool}
use epoll_http_server.ThreadPool.Threads.{Answers, Use, thread_pool_create, thread_pool_destroy}
use epoll_http_server.Epoll.Table.{
  Handler, max_events, Accepted, epoll_handler_init, epoll_handler_accept,
  epoll_handler_check_timeout, epoll_handler_cleanup,
}
use epoll_http_server.Epoll.Dispatch.{epoll_handler_set_pool, epoll_handler_dispatch}

-- `server_init`, on the answers of `socket`, `setsockopt`, `bind` and `listen`. The result is the
-- descriptor, or `none` for -1, with what was opened and closed.
unfoldable pub server_init : Option ℕ → Bool → Bool → Bool → Option ℕ × List Event
server_init none reused bound listening = (none, [])
server_init (some fd) reused bound listening =
    if reused
    then (if bound
        then (if listening then (some fd, opened fd ∷ []) else (none, opened fd ∷ closed fd ∷ []))
        else (none, opened fd ∷ closed fd ∷ []))
    else (none, opened fd ∷ closed fd ∷ [])

-- `O_NONBLOCK`, on Linux.
abbrev pub o_nonblock : ℕ
o_nonblock = 2048

-- `set_nonblocking`, on what `fcntl` answers to `F_GETFL`, and to `F_SETFL` for the flags it is given.
unfoldable pub set_nonblocking : Option ℕ → (ℕ → Bool) → Bool
set_nonblocking none set_flags = false
set_nonblocking (some flags) set_flags = set_flags (bit_or flags o_nonblock)

-- The signals that `setup_signals` cares for.
pub data Signal : Type 0 where
  sigint sigterm sigpipe : Signal

-- `signal_handler`: what a signal makes of `running`. SIGPIPE is ignored.
unfoldable pub signal_handler : Signal → Bool → Bool
signal_handler sigint running = false
signal_handler sigterm running = false
signal_handler sigpipe running = running

unfoldable pub signal_handlers : List Signal → Bool → Bool
unfolding signal_handler
signal_handlers [] running = running
signal_handlers (signal ∷ rest) running = signal_handlers rest (signal_handler signal running)

-- `DEFAULT_THREAD_COUNT`, if the configuration has no number of threads.
abbrev pub threads_of : Config → ℕ
threads_of config = if ltb_ℤ (pos 0) config.thread_count then pos_part config.thread_count else 4

-- An event with the answers that its handler gets: of `accept`, or of `malloc` for the argument and
-- for the node of a task.
pub record Ready : Type 0 where
  pub fd : ℕ
  pub accepts : List Accepted
  pub arg : Option ℕ
  pub address : Option ℕ

-- What `epoll_wait` returns with: a signal came, an error, or events. The time is that of the check.
pub data Wait : Type 0 where
  interrupted : Wait
  failed : Wait
  events : (ready : List Ready) (now : ℕ) → Wait

-- One round of the loop: the signals that come in, what the workers do to the table and to the queue
-- while the main thread waits, and how the wait ends.
pub record Wake : Type 0 where
  pub signals : List Signal
  pub workers : Handler × Option Pool → Handler × Option Pool
  pub wait : Wait

-- The table, the pool, the time of the last check, and `running`.
pub record Loop : Type 0 where
  pub handler : Handler
  pub pool : Option Pool
  pub last_timeout_check : ℕ
  pub running : Bool

-- The check, once a second.
unfoldable pub check_time : Loop → ℕ → Loop
unfolding epoll_handler_check_timeout
check_time loop now =
    if leb (loop.last_timeout_check + 1) now
    then record loop {
      handler = epoll_handler_check_timeout now loop.handler;
      last_timeout_check = now;
    }
    else loop

module _ (listen_fd worker : ℕ) where
  -- One event: new clients, or a client's request for the pool.
  unfoldable pub handle_event : Handler × Option Pool → Ready → Handler × Option Pool
  unfolding epoll_handler_accept epoll_handler_dispatch
  handle_event (h, pool) ready =
      if ready.fd == listen_fd
      then (epoll_handler_accept h ready.accepts, pool)
      else epoll_handler_dispatch h pool worker ready.fd ready.arg ready.address

  -- The loop over the events of one wait.
  unfoldable pub handle_events : Handler × Option Pool → List Ready → Handler × Option Pool
  unfolding handle_event
  handle_events state [] = state
  handle_events state (ready ∷ rest) = handle_events (handle_event state ready) rest

  -- A round of the loop from the wait on; `none` where the loop breaks off.
  unfoldable pub round : Loop → Wait → Option Loop
  unfolding handle_events check_time
  round loop interrupted = some loop
  round loop failed = none
  round loop (events ready now) =
      let (h, pool) = handle_events (loop.handler, loop.pool) ready in
      some (check_time (record loop { handler = h; pool = pool }) now)

  -- `while (running)`: the state that the loop is left with. With no round left the loop still waits.
  unfoldable pub main_loop : Loop → List Wake → Option Loop
  unfolding round signal_handlers
  main_loop loop [] = if loop.running then none else some loop
  main_loop loop (wake ∷ rest) =
      let (h, pool) = wake.workers (loop.handler, loop.pool) in
      let waited = record loop {
        handler = h;
        pool = pool;
        running = signal_handlers wake.signals loop.running;
      } in
      let later : Option Loop = elim (round waited wake.wait) [
        | none ↦ some waited
        | some loop' ↦ main_loop loop' rest
      ] in
      if loop.running then later else some loop

-- What `server_run` is told: by `fcntl`, `epoll_create1`, the calls of `thread_pool_create` and
-- `epoll_ctl` for the socket; the time; the rounds of the loop; what the workers do to the table until
-- they are joined, and the pool as they leave it.
pub record Setup : Type 0 where
  pub flags : Option ℕ
  pub set_flags : ℕ → Bool
  pub epoll : Option ℕ
  pub pool : Answers
  pub added : Bool
  pub time : ℕ
  pub wakes : List Wake
  pub finish : Handler → Handler
  pub left : Pool

-- The table, what was done with descriptors, and what the pool has acquired and released.
pub record Ended : Type 0 where
  pub handler : Handler
  pub events : List Event
  pub uses : List Use

-- The table at the start of the program.
abbrev pub no_clients : Handler
no_clients = record { connections = replicate max_events none; log = [] }

module _ (listen_fd worker fuel : ℕ) (config : Config) (setup : Setup) where
  -- Behind the loop.
  unfoldable pub shut_down : ℕ → Loop → List Use → Option Ended
  unfolding thread_pool_destroy epoll_handler_cleanup
  shut_down epoll_fd loop uses =
      elim (thread_pool_destroy fuel (threads_of config) setup.left uses) [
        | none ↦ none
        | some (heap, uses') ↦ some (record {
          handler = epoll_handler_cleanup (setup.finish loop.handler);
          events = opened epoll_fd ∷ closed epoll_fd ∷ closed listen_fd ∷ [];
          uses = uses';
        })
      ]

  -- From the pool on.
  unfoldable pub run_pool : ℕ → Handler → Option Pool × List Use → Option Ended
  unfolding main_loop shut_down
  run_pool epoll_fd h (none, uses) = some (record {
    handler = h;
    events = opened epoll_fd ∷ closed epoll_fd ∷ closed listen_fd ∷ [];
    uses = uses;
  })
  run_pool epoll_fd h (some pool, uses) =
      if setup.added
      then elim (main_loop listen_fd worker
          (record {
            handler = h;
            pool = epoll_handler_set_pool none (some pool);
            last_timeout_check = setup.time;
            running = true;
          })
          setup.wakes) [ none ↦ none | some loop ↦ shut_down epoll_fd loop uses ]
      else some (record {
        handler = h;
        events = opened epoll_fd ∷ closed epoll_fd ∷ closed listen_fd ∷ [];
        uses = uses;
      })

  -- `none` stands for a server that still runs.
  unfoldable pub server_run : Option Ended
  unfolding run_pool epoll_handler_init thread_pool_create set_nonblocking
  server_run =
      if set_nonblocking setup.flags setup.set_flags
      then elim setup.epoll [
        | none ↦ some (record { handler = no_clients; events = closed listen_fd ∷ []; uses = [] })
        | some epoll_fd ↦
            run_pool epoll_fd (epoll_handler_init no_clients)
              (thread_pool_create (pos (threads_of config)) setup.pool)
      ]
      else some (record { handler = no_clients; events = closed listen_fd ∷ []; uses = [] })
