-- ===== src/Tests/Threads.antt =====
-- The theorems of the threads of the pool and of a turn in two parts, on concrete inputs.
use epoll_http_server.Prelude.{
  ℕ, zero, suc, Bool, ◌≡◌, refl, true, false, List, [], ◌∷◌, Option, none, some, arith,
  length-replicate, get_elem?,
}
use epoll_http_server.Connection.{Connection}
use epoll_http_server.ThreadPool.{new_pool, worker_thread, stop, put_task}
use epoll_http_server.ThreadPool.Nodes.{NoLeak, Reaches-NoLeak}
use epoll_http_server.ThreadPool.Monitor.{
  Monitor, outside, dozing, asleep, acquire, doze, move, spawn, add, shut, unheard, no_threads,
  Reaches, begin, after,
}
use epoll_http_server.ThreadPool.Monitor.Sound.{Sound, Reaches-Sound}
use epoll_http_server.ThreadPool.Monitor.Ends.{Comes, steps_left, AllTaken, Reaches-AllTaken}
use epoll_http_server.ThreadPool.Monitor.Destroy.{Destroyed, Reaches-Destroyed}
use epoll_http_server.ThreadPool.Monitor.Lost.{Runs, slept_in, Reaches-asleep}
use epoll_http_server.Epoll.Table
use epoll_http_server.Epoll.Table.Entries.{entry-set}
use epoll_http_server.Epoll.Table.{Accepted, client, again, entry, max_events, new_connection}
use epoll_http_server.Epoll.Worker.{worker_process_request}
use epoll_http_server.Epoll.Sharing
use epoll_http_server.Epoll.Sharing.{Shared, idle, joined}
use epoll_http_server.Epoll.Sharing.Alone.{started}
use epoll_http_server.Connection.{write_size}
use epoll_http_server.Epoll.Dispatch.{epoll_handler_dispatch}
use epoll_http_server.Epoll.Invariant.{IsTable}
use epoll_http_server.Epoll.Worker.{Outcome}
use epoll_http_server.Epoll.Worker.Writes.{rounds}
use epoll_http_server.Epoll.Sharing.Turn.{Stepped, worker_process_request-Steps}
use epoll_http_server.Epoll.Serving.MainThread.{epoll_handler_dispatch-Step}
use epoll_http_server.Epoll.Serving
use epoll_http_server.Epoll.Serving.{Serving, at_start, put_arg}
use epoll_http_server.Epoll.Serving.Refines.{Refines, Reaches-Refines}
use epoll_http_server.Epoll.Serving.Safe.{Safe, Reaches-Safe}
use epoll_http_server.Epoll.Sharing.Sizes.{entry_idle}
use epoll_http_server.ThreadPool.System
use epoll_http_server.Tests.{config, stats, in_range}
use epoll_http_server.Tests.Exchange.{visit}
use epoll_http_server.Tests.Pool.{first, added_one, added_one-Reaches}
use epoll_http_server.Tests.Server.{
  slow_socket-MakesProgress, length-slow_socket, with_client-IsTable, one_thread, one_thread_held,
  one_client,
}

-- A pool of one thread, which is before the lock.
abbrev one_place : Monitor
one_place = record no_threads { threads = outside ∷ [] }

one_place-Reaches : (late : Bool) → Reaches late one_place
one_place-Reaches late = after begin spawn

-- A task is added to it.
abbrev with_task : Monitor
with_task = record one_place {
  system = record one_place.system {
    pool = put_task one_place.system.pool first.address first.function first.arg;
    added = first ∷ [];
  };
}

with_task-Reaches : Reaches false with_task
unfolding new_pool
with_task-Reaches = after (one_place-Reaches false) (add first refl refl (unheard none_sleeps))
  where
    none_sleeps : (i : ℕ) → get_elem? one_place.threads i ≡ some asleep → ⊥
    none_sleeps zero e = cc
    none_sleeps (suc i) e = cc

Reaches-AllTaken_example : Comes AllTaken (steps_left with_task) with_task
unfolding new_pool put_task
Reaches-AllTaken_example = Reaches-AllTaken with_task-Reaches refl (omega arith)

Reaches-Sound_example : Sound with_task
Reaches-Sound_example = Reaches-Sound with_task-Reaches

-- The pool is stopped with the task in the queue.
abbrev stopped : Monitor
stopped = record with_task {
  system = record with_task.system { pool = stop with_task.system.pool };
}

stopped-Reaches : Reaches false stopped
stopped-Reaches = after with_task-Reaches (shut refl)

Reaches-Destroyed_example : Comes (Destroyed 2 one_thread) (steps_left stopped) stopped
unfolding stop
Reaches-Destroyed_example =
    Reaches-Destroyed 2 one_thread stopped-Reaches refl (omega arith) one_thread_held

-- Its thread has tested the queue and the stop.
abbrev about_to_wait : Monitor
about_to_wait = record no_threads { locked = true; threads = dozing ∷ [] }

about_to_wait-Reaches : Reaches true about_to_wait
unfolding worker_thread new_pool
about_to_wait-Reaches =
    after (after (one_place-Reaches true) (move (acquire 0 refl refl refl)))
      (move (doze 0 refl refl))

Reaches-asleep_example :
    Reaches true (slept_in about_to_wait 0)
    × ((slept_in about_to_wait 0).system.pool.shutdown ≡ true)
    × ((t : Monitor) → Runs (slept_in about_to_wait 0) t → get_elem? t.threads 0 ≡ some asleep)
Reaches-asleep_example = Reaches-asleep 0 about_to_wait-Reaches refl

Reaches-NoLeak_example : NoLeak added_one
Reaches-NoLeak_example = Reaches-NoLeak added_one-Reaches

-- A client whose task waits; while a worker serves it another is turned away.
abbrev one_waits : Shared
one_waits = record one_client { armed = Sharing.update one_client.armed 9 false; queued = 9 ∷ [] }

one_waits-entry : entry one_waits.handler.connections 9 ≡ some (new_connection 9 100)
one_waits-entry =
    entry-set idle.handler.connections 9 9 (some (new_connection 9 100))
      (omega (arith, length-replicate {A = Option Connection} max_events none))

abbrev turn_started : Shared
turn_started = started one_waits 9 (new_connection 9 100) visit.arrival

abbrev turned_away : Shared
turned_away = record turn_started {
  handler = record turn_started.handler { log = Table.close_fd 2000 ∷ turn_started.handler.log };
}

-- The whole server, with one client whose task waits.
abbrev client_waits : Serving
client_waits = record at_start {
  system = record System.start {
    pool = put_task System.start.pool first.address first.function first.arg;
    added = first ∷ [];
  };
  args = put_arg at_start.args first.arg (some 9);
  handler = joined at_start.handler 9 100;
  armed = Sharing.update (Sharing.update at_start.armed 9 true) 9 false;
}

client_waits-Reaches : Serving.Reaches false client_waits
unfolding new_pool
client_waits-Reaches =
    Serving.after
      (Serving.after Serving.begin (Serving.accept 9 100 (omega arith) (entry_idle max_events 9)))
      (Serving.event 9 first refl refl refl)

Reaches-Refines_example : Refines false client_waits
Reaches-Refines_example = Reaches-Refines client_waits-Reaches

Reaches-Safe_example : Safe client_waits
Reaches-Safe_example = Reaches-Safe client_waits-Reaches

-- A client that epoll may report.
abbrev client_armed : Serving
client_armed = record at_start {
  handler = joined at_start.handler 9 100;
  armed = Sharing.update at_start.armed 9 true;
}

epoll_handler_dispatch-Step_example :
    (v : Serving) × Serving.Step false client_armed v
    × (epoll_handler_dispatch client_armed.handler
          (some client_armed.system.pool)
          1
          9
          (some 7)
          (some 100)
        ≡ (v.handler, some v.system.pool))
    × (v.armed ≡ Sharing.update client_armed.armed 9 false)
unfolding new_pool
epoll_handler_dispatch-Step_example =
    epoll_handler_dispatch-Step false client_armed 1 9 (some 7) (some 100) refl (λ n e. refl)
      (λ n e. refl)

one_waits-IsTable : IsTable one_waits.handler.connections
unfolding Table.epoll_handler_accept Table.epoll_handler_init
one_waits-IsTable = with_client-IsTable

worker_process_request-Steps_example :
    (o : Outcome) × (worker_process_request one_waits.handler config stats 9 visit ≡ some o)
    × Stepped false one_waits 9 (new_connection 9 100) visit.arrival o.handler
worker_process_request-Steps_example =
    worker_process_request-Steps false one_waits config stats 9 visit one_waits-IsTable in_range
      (slow_socket-MakesProgress (rounds write_size 0 0))
      (omega (arith, length-slow_socket (rounds write_size 0 0))) (omega arith) one_waits-entry

-- Two clients come; epoll does not take the second.
abbrev two_clients : List Accepted
two_clients = client 9 true true true 100 ∷ client 10 true true false 100 ∷ again ∷ []
