-- ===== src/Tests/Pool.antt =====
-- The theorems of the thread pool, on concrete inputs.
use epoll_http_server.Prelude.{
  subst, some_inj, replicate, ◌≡◌, refl, true, false, [], ◌∷◌, ◌++◌, none, some,
}
use epoll_http_server.Epoll.Table.{Handler}
use epoll_http_server.Epoll.Dispatch.{
  epoll_handler_dispatch, Dispatched, epoll_handler_dispatch-Dispatched,
}
use epoll_http_server.ThreadPool.{Pool, new_pool, put_task, worker_thread, stop}
use epoll_http_server.ThreadPool.Queue.{Waiting, IsQueue, put_task-IsQueue}
use epoll_http_server.ThreadPool.System.{System, start, add, shut, Reaches, begin, after}
use epoll_http_server.ThreadPool.Order.{Holds, Reaches-Holds, leave-Drained}

abbrev no_clients : Handler
no_clients = record { connections = replicate 1024 none; log = [] }

abbrev pub first : Waiting
first = record { address = 100; function = 1; arg = 7 }

new_pool-IsQueue : IsQueue new_pool []
unfolding new_pool
new_pool-IsQueue = record { chain = refl; tail = refl; distinct = tt }

abbrev pub one_task : Pool
one_task = put_task new_pool first.address first.function first.arg

pub one_task-IsQueue : IsQueue one_task (first ∷ [])
unfolding new_pool
one_task-IsQueue = put_task-IsQueue new_pool [] first new_pool-IsQueue refl

abbrev pub added_one : System
added_one = record start { pool = put_task start.pool 100 1 7; added = start.added ++ (first ∷ []) }

pub added_one-Reaches : Reaches added_one
unfolding new_pool
added_one-Reaches = after begin (add first refl)

Reaches-Holds_example : Holds added_one
Reaches-Holds_example = Reaches-Holds added_one-Reaches

abbrev stopped : System
stopped = record start { pool = stop start.pool }

leave-Drained_example : (stopped.pool.shutdown ≡ true) × (stopped.taken ≡ stopped.added)
unfolding worker_thread stop new_pool
leave-Drained_example = leave-Drained stopped (after begin shut) refl

epoll_handler_dispatch-Dispatched_example :
    Dispatched no_clients
      (first ∷ [])
      1
      7
      (some 9)
      (some 200)
      false
      (epoll_handler_dispatch no_clients (some one_task) 1 7 (some 9) (some 200))
unfolding new_pool put_task
epoll_handler_dispatch-Dispatched_example =
    epoll_handler_dispatch-Dispatched no_clients one_task (first ∷ []) 1 7 (some 9) (some 200)
      one_task-IsQueue (λ n e. subst (λ k. one_task.heap k ≡ none) (some_inj e) refl)
