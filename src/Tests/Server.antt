-- ===== src/Tests/Server.antt =====
-- The theorems of the main thread and of the shared table, on concrete inputs.
use epoll_http_server.Prelude.{
  ℕ, zero, suc, ◌≤◌, ◌≡◌, refl, true, false, ◌&&◌, ltb, List, [], ◌∷◌, none, some, arith, All,
  length, codes,
}
use epoll_http_server.Prelude.Int.{pos}
use epoll_http_server.Files.{still_open}
use epoll_http_server.Connection.{write_size}
use epoll_http_server.ThreadPool.{new_pool}
use epoll_http_server.ThreadPool.Threads.{
  Resource, Use, Answers, acquire, memory, lock, notify, threads, thread, thread_pool_create,
}
use epoll_http_server.ThreadPool.Threads.Held.{holds, owns, owned, thread_pool_create-owned}
use epoll_http_server.Epoll.Table.{
  Handler, max_events, client, epoll_handler_init, epoll_handler_accept,
}
use epoll_http_server.Epoll.Invariant.{
  IsTable, epoll_handler_init-IsTable, epoll_handler_accept-IsTable,
}
use epoll_http_server.Epoll.Worker.{WriteAnswer, wrote, bytes, Turn, worker_process_request}
use epoll_http_server.Epoll.Worker.Writes.{MakesProgress, rounds}
use epoll_http_server.Epoll.Worker.Safety.{Leaves, worker_process_request-Leaves}
use epoll_http_server.Epoll.Sharing.{Shared, joined, update, idle, accept, Reaches, begin, after}
use epoll_http_server.Epoll.Sharing.Ownership.{Reaches-Owned}
use epoll_http_server.Epoll.Sharing.Steps.{Owned}
use epoll_http_server.Epoll.Sharing.Sizes.{entry_idle}
use epoll_http_server.Server.{
  sigpipe, sigint, signal_handlers, round, Ready, interrupted, events, Wake, Loop, Setup,
  no_clients, server_init, server_run,
}
use epoll_http_server.Server.Idle.{AreFresh, round-AreFresh}
use epoll_http_server.Server.Init.{listens, fds_of, server_init-listens}
use epoll_http_server.Server.Run.{Closes, leaked, server_run-Closes}
use epoll_http_server.Server.Rounds.{stops, WorkersKeep}
use epoll_http_server.Server.Workers.{work, work-KeepsTable}
use epoll_http_server.Tests.{hello, config, stats, now, in_range}
use epoll_http_server.Tests.Pool.{first, one_task, one_task-IsQueue}

-- A socket that takes a byte at a time.
unfoldable pub slow_socket : ℕ → List WriteAnswer
slow_socket zero = []
slow_socket (suc n) = wrote 1 ∷ slow_socket n

pub slow_socket-MakesProgress : (n : ℕ) → All MakesProgress (slow_socket n)
unfolding slow_socket
slow_socket-MakesProgress zero = tt
slow_socket-MakesProgress (suc n) = (omega arith, slow_socket-MakesProgress n)

pub length-slow_socket : (n : ℕ) → length (slow_socket n) ≡ n
unfolding slow_socket
length-slow_socket zero = refl
length-slow_socket (suc n) = omega (arith, length-slow_socket n)

-- A client at descriptor 9 that asks for a page.
abbrev visit : Turn
visit = record {
  arrival = 100;
  reads = bytes (codes "GET /a.html HTTP/1.1\r\n\r\n") ∷ [];
  writes = slow_socket (rounds write_size 0 0);
  alloc = λ n. true;
  files = hello;
  now = now;
}

visit_enough : rounds write_size 0 0 ≤ length visit.writes
visit_enough = omega (arith, length-slow_socket (rounds write_size 0 0))

abbrev pub with_client : Handler
with_client =
    epoll_handler_accept (epoll_handler_init no_clients) (client 9 true true true 100 ∷ [])

pub with_client-IsTable : IsTable with_client.connections
with_client-IsTable =
    epoll_handler_accept-IsTable (epoll_handler_init no_clients) (client 9 true true true 100 ∷ [])
      (epoll_handler_init-IsTable no_clients)

worker_process_request-Leaves_example :
    Leaves with_client 9 (worker_process_request with_client config stats 9 visit)
worker_process_request-Leaves_example =
    worker_process_request-Leaves with_client config stats 9 visit with_client-IsTable in_range
      (slow_socket-MakesProgress (rounds write_size 0 0)) visit_enough

server_init-listens_example :
    let (result, done) = server_init (some 3) true false true in
    (result ≡ listens (some 3) (true && false && true))
    × (still_open done [] ≡ some (fds_of result))
server_init-listens_example = server_init-listens (some 3) true false true

-- The third thread cannot be created.
abbrev two_threads : Answers
two_threads = record {
  memory = true;
  lock = true;
  notify = true;
  threads = true;
  thread = λ i. ltb i 2;
}

thread_pool_create-owned_example :
    let (pool, log) = thread_pool_create (pos 4) two_threads in
    holds (thread 1) log ≡ owned (pos 4) pool (thread 1)
thread_pool_create-owned_example = thread_pool_create-owned (pos 4) two_threads (thread 1)

abbrev pub one_thread : List Use
one_thread =
    acquire (thread 0) ∷ acquire threads ∷ acquire notify ∷ acquire lock ∷ acquire memory ∷ []

pub one_thread_held : (r : Resource) → holds r one_thread ≡ owns 1 r
one_thread_held memory = refl
one_thread_held lock = refl
one_thread_held notify = refl
one_thread_held threads = refl
one_thread_held (thread i) = ground arith

-- A new client, and then a turn of a worker for it, while the signals come in that end the loop.
abbrev new_client : Ready
new_client = record {
  fd = 3;
  accepts = client 9 true true true 100 ∷ [];
  arg = none;
  address = none;
}

abbrev pub wakes : List Wake
wakes =
    record { signals = []; workers = λ s. s; wait = events (new_client ∷ []) 100 }
    ∷ record {
      signals = sigpipe ∷ sigint ∷ [];
      workers = work config stats 9 visit;
      wait = interrupted;
    }
    ∷ []

pub wakes-WorkersKeep : All WorkersKeep wakes
wakes-WorkersKeep = (
  (λ s is. is),
  (
    work-KeepsTable config stats 9 visit in_range
        (slow_socket-MakesProgress (rounds write_size 0 0)) visit_enough,
    tt,
  ),
)

pub wakes_stop : stops true wakes ≡ true
unfolding signal_handlers
wakes_stop = refl

abbrev at_start : Loop
at_start = record {
  handler = epoll_handler_init no_clients;
  pool = some new_pool;
  last_timeout_check = 100;
  running = true;
}

abbrev all_given : Answers
all_given = record { memory = true; lock = true; notify = true; threads = true; thread = λ i. true }

-- Everything works but the last call before the loop.
abbrev pub not_added : Setup
not_added = record {
  flags = some 2;
  set_flags = λ flags. true;
  epoll = some 4;
  pool = all_given;
  added = false;
  time = 100;
  wakes = wakes;
  finish = λ h. h;
  left = one_task;
}

server_run-Closes_example : Closes 3 (leaked config not_added) (server_run 3 1 5 config not_added)
server_run-Closes_example =
    server_run-Closes 3 1 5 config not_added (first ∷ []) one_task-IsQueue (omega arith)
      wakes-WorkersKeep wakes_stop

abbrev pub one_client : Shared
one_client = record idle { handler = joined idle.handler 9 100; armed = update idle.armed 9 true }

pub one_client-Reaches : Reaches false one_client
one_client-Reaches = after begin (accept 9 100 (omega arith) (entry_idle max_events 9))

Reaches-Owned_example : Owned one_client
Reaches-Owned_example = Reaches-Owned one_client-Reaches

round-AreFresh_example :
    (after : Loop) × (round 3 1 at_start (events (new_client ∷ []) 200) ≡ some after)
    × (after.last_timeout_check ≡ 200)
    × AreFresh 200 after
round-AreFresh_example = round-AreFresh 3 1 at_start (new_client ∷ []) 200 (omega arith)
