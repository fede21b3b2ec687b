-- ===== src/Epoll/Sharing/Race.antt =====
-- What the timeout check can do to a client whose task still waits, in a few steps from the start.
use epoll_http_server.Prelude.{ℕ, ◌≡◌, Bool, true, List, Option, length}
use epoll_http_server.Connection.{Connection}
use epoll_http_server.Epoll.Table.{entry, max_events}
use epoll_http_server.Epoll.Sharing.{Shared, Reaches}

-- A state that is reached, as one descriptor sees it.
record Stage (fd : ℕ) (armed : Bool) (e : Option Connection) (queued held : List ℕ) : Type 0 where
  state : Shared
  reached : Reaches true state
  size : length state.handler.connections ≡ max_events
  is_armed : state.armed fd ≡ armed
  is_entry : entry state.handler.connections fd ≡ e
  is_queued : state.queued ≡ queued
  is_held : state.held ≡ held
