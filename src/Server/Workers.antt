-- ===== src/Server/Workers.antt =====
-- A worker's turn as one of the things that happen while the main loop waits.
use epoll_http_server.Prelude.{ℕ, ◌≤◌, Option, none, some, All, length}
use epoll_http_server.Request.{Config, Stats}
use epoll_http_server.Request.Dispatch.{InRange}
use epoll_http_server.ThreadPool.{Pool}
use epoll_http_server.Connection.{write_size}
use epoll_http_server.Epoll.Table.{Handler}
use epoll_http_server.Epoll.Invariant.{IsTable}
use epoll_http_server.Epoll.Worker.{Turn, Outcome, worker_process_request}
use epoll_http_server.Epoll.Worker.Writes.{MakesProgress, rounds}
use epoll_http_server.Epoll.Worker.Safety.{Leaves, worker_process_request-Leaves}
use epoll_http_server.Server.Rounds.{KeepsTable}

-- The table that an outcome leaves, with the pool; without an outcome nothing has happened yet.
abbrev pub left_by : Handler × Option Pool → Option Outcome → Handler × Option Pool
left_by s none = s
left_by s (some outcome) = (outcome.handler, s.1)

abbrev pub work : Config → Stats → ℕ → Turn → Handler × Option Pool → Handler × Option Pool
work config stats fd turn s = left_by s (worker_process_request s.0 config stats fd turn)

Leaves-IsTable :
    (fd : ℕ) (s : Handler × Option Pool) (o : Option Outcome)
    → Leaves s.0 fd o
    → IsTable (left_by s o).0.connections
Leaves-IsTable fd s none leaves = absurd leaves
Leaves-IsTable fd s (some outcome) leaves = leaves.table

-- A turn keeps the table well formed, as the main loop asks of the workers.
pub work-KeepsTable :
    (config : Config) (stats : Stats) (fd : ℕ) (turn : Turn)
    → InRange stats turn.now config
    → All MakesProgress turn.writes
    → rounds write_size 0 0 ≤ length turn.writes
    → KeepsTable (work config stats fd turn)
work-KeepsTable config stats fd turn r p enough (h, pool) is =
    Leaves-IsTable fd (h, pool) (worker_process_request h config stats fd turn)
      (worker_process_request-Leaves h config stats fd turn is r p enough)
