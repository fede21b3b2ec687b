-- ===== src/Epoll/Sharing/Alone.antt =====
-- While a worker holds a connection the other steps leave it alone, so that a turn in two parts, with
-- any of them in between, does what it does as one step.
use epoll_http_server.Prelude.{ℕ, ◌<◌, false, ◌∷◌}
use epoll_http_server.Connection.{Connection}
use epoll_http_server.Epoll.Worker.{put, taken_up}
use epoll_http_server.Epoll.Sharing.{Shared, count, remove_one, Step}

-- Steps of others behind which a worker still holds `fd`.
pub data While (fd : ℕ) (s : Shared) : Shared → Type 0 where
  at_once : While fd s s
  later : {t u : Shared} → While fd s t → Step false t u → 0 < count fd u.held → While fd s u

-- The state behind the start of a turn.
abbrev pub started : Shared → ℕ → Connection → ℕ → Shared
started s fd conn arrival = record s {
  handler = put s.handler fd (taken_up conn arrival);
  queued = remove_one fd s.queued;
  held = fd ∷ s.held;
}
