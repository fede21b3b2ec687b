-- ===== src/Epoll/Sharing/Turn.antt =====
-- The code of a worker's turn makes the steps that Epoll/Sharing has for it: its start, and then one of
-- its ends.
use epoll_http_server.Prelude.{
  ℕ, ◌≤◌, ◌<◌, ◌≡◌, refl, sym, ap, ◌∙◌, ◌⊎◌, Bool, true, false, ◌||◌, not, inl, inr, List, ◌∷◌,
  Option, none, some, arith, All, length, Bool-cases, Option-cases, set,
}
use epoll_http_server.Connection.{Connection, write_size}
use epoll_http_server.Parser.{http_parse_request}
use epoll_http_server.Request.{Config, Stats}
use epoll_http_server.Request.Dispatch.{InRange}
use epoll_http_server.Epoll.Complete.{is_request_complete}
use epoll_http_server.Epoll.Invariant.{IsTable}
use epoll_http_server.Epoll.Table.{
  epoll_remove, close_fd, free_connection, Handler, entry, epoll_handler_close,
}
use epoll_http_server.Epoll.Table.Entries.{entry-lt, entry-set_here}
use epoll_http_server.Epoll.Worker.{
  WriteAnswer, Turn, Outcome, put, rearm, clear_write, clear_read, settle, send, deliver,
  counted_now, answer, process, read_loop, finish_turn, worker_process_request, taken_up,
}
use epoll_http_server.Epoll.Worker.Writes.{MakesProgress, rounds}
use epoll_http_server.Epoll.Worker.Safety.{set-set, worker_process_request-Leaves}
use epoll_http_server.Epoll.Sharing.{
  Shared, count, remove_one, Step, start, keep, finish, release, arm_again,
}
use epoll_http_server.Epoll.Sharing.Alone.{started}
use epoll_http_server.Epoll.Sharing.Places.{==_refl}

-- The connection is closed; or it is released and its descriptor armed again, at once behind a
-- response, and in two steps (`true`) where the request is incomplete.
abbrev Ending : Handler → ℕ → Handler → Type 0
Ending h fd after =
    ((conn : Connection) × (after ≡ epoll_handler_close (put h fd conn) fd))
    ⊎ ((conn : Connection) × (incomplete : Bool) × (after
          ≡ rearm (put h fd (record conn { in_use = false })) fd))

abbrev EndsSo : Handler → ℕ → Option Outcome → Type 0
EndsSo h fd none = Unit
EndsSo h fd (some o) = Ending h fd o.handler

module _ (h : Handler) (fd : ℕ) where
  settle-Ending :
      (conn : Connection) (close_conn : Bool) → Ending h fd (settle h fd conn close_conn)
  unfolding settle clear_read
  settle-Ending conn close_conn = elim (Bool-cases (close_conn || not conn.keep_alive)) [
    | inl close ↦ inl (conn, rw (close, settle) refl)
    | inr go_on ↦ inr (clear_read conn, false, rw (go_on, settle) refl)
  ]

  deliver-EndsSo :
      (stats : Stats) (conn : Connection) (writes : List WriteAnswer)
      → EndsSo h fd (deliver h stats fd conn writes)
  unfolding deliver
  deliver-EndsSo stats conn writes = elim (Option-cases (send conn writes)) [
    | inl e ↦ rw (e, deliver) tt
    | inr ((n, close_conn), e) ↦ rw (e, deliver) (settle-Ending (clear_write conn) close_conn)
  ]

  process-EndsSo :
      (config : Config) (stats : Stats) (turn : Turn) (conn : Connection)
      → EndsSo h fd (process h config stats fd turn conn)
  unfolding process
  process-EndsSo config stats turn conn =
      elim (Option-cases (is_request_complete conn.read_buf conn.read_pos)) [
        | inl e ↦ rw (e, process) tt
        | inr ((false, n), e) ↦ rw (e, process) (inr (conn, true, refl))
        | inr ((true, n), e) ↦
            rw (e, process)
              (elim (Option-cases (http_parse_request turn.alloc conn.read_buf conn.read_pos)) [
                | inl f ↦ rw f tt
                | inr (parsed, f) ↦ rw f (
                    deliver-EndsSo (answer config stats turn (counted_now h turn.now) conn parsed).1
                      (answer config stats turn (counted_now h turn.now) conn parsed).0 turn.writes)
              ])
      ]

  finish_turn-EndsSo :
      (config : Config) (stats : Stats) (turn : Turn) (conn : Connection)
      → EndsSo h fd (finish_turn h config stats fd turn conn)
  unfolding finish_turn
  finish_turn-EndsSo config stats turn conn = elim (Bool-cases (read_loop conn turn.reads).1) [
    | inl close ↦ rw close (inl ((read_loop conn turn.reads).0, refl))
    | inr go_on ↦ rw go_on (process-EndsSo config stats turn (read_loop conn turn.reads).0)
  ]

-- What a close makes of a connection that is there does not depend on it.
close-put :
    (h : Handler) (fd : ℕ) (conn : Connection)
    → fd < length h.connections
    → epoll_handler_close (put h fd conn) fd ≡ record {
      connections = set h.connections fd none;
      log = free_connection fd ∷ close_fd fd ∷ epoll_remove fd ∷ h.log;
    }
unfolding epoll_handler_close
close-put h fd conn inside = rw (
  entry-set_here h.connections fd (some conn) inside,
  epoll_handler_close,
  set-set h.connections fd (some conn) none,
)

-- A start step for the task of `fd`, and then the end of the turn, a step or a release and an arming, to
-- a table that is `after`, with the task gone, the descriptor armed again or closed, and the connections
-- that are held and those that are released as before.
pub record Stepped (late : Bool) (s : Shared) (fd : ℕ) (conn : Connection) (arrival : ℕ)
    (after : Handler) : Type 0 where
  pub first : Step late s (started s fd conn arrival)
  pub end : Shared
  pub second :
      Step late (started s fd conn arrival) end
      ⊎ ((between : Shared) × Step late (started s fd conn arrival) between
          × (between.leaving ≡ fd ∷ s.leaving)
          × Step late between end)
  pub handler : end.handler ≡ after
  pub queued : end.queued ≡ remove_one fd s.queued
  pub held : end.held ≡ s.held
  pub leaving : end.leaving ≡ s.leaving

turn-EndsSo :
    (h : Handler) (config : Config) (stats : Stats) (fd : ℕ) (turn : Turn) {conn : Connection}
    → entry h.connections fd ≡ some conn
    → EndsSo h fd (worker_process_request h config stats fd turn)
unfolding worker_process_request
turn-EndsSo h config stats fd turn {conn = conn} there =
    rw (there, worker_process_request)
      (finish_turn-EndsSo h fd config stats turn (taken_up conn turn.arrival))

-- Whatever the client sent and whatever the files are, in a well formed table with a task for `fd` and
-- its connection there, and given enough answers of the socket, each taking a byte at least: the turn
-- returns, and what it makes of the table is what a start step and then the end of a turn make of it, one
-- step, or a release and an arming of the descriptor; behind it the task is gone, and the connections that
-- are held and those that are released and not armed again are as before.
pub worker_process_request-Steps :
    (late : Bool) (s : Shared) (config : Config) (stats : Stats) (fd : ℕ) (turn : Turn)
    {conn : Connection}
    → IsTable s.handler.connections
    → InRange stats turn.now config
    → All MakesProgress turn.writes
    → rounds write_size 0 0 ≤ length turn.writes
    → 0 < count fd s.queued
    → entry s.handler.connections fd ≡ some conn
    → (o : Outcome) × (worker_process_request s.handler config stats fd turn ≡ some o)
      × Stepped late s fd conn turn.arrival o.handler
worker_process_request-Steps late s config stats fd turn {conn = conn} is range p enough waits
      there =
    elim (Option-cases (worker_process_request s.handler config stats fd turn)) [
      | inl never ↦ absurd (
          rw never at
            (worker_process_request-Leaves s.handler config stats fd turn is range p enough))
      | inr (o, e) ↦ (o, e, stepped o (rw e at (turn-EndsSo s.handler config stats fd turn there)))
    ]
  where
    inside : fd < length s.handler.connections
    inside = entry-lt s.handler.connections fd there

    stepped :
        (o : Outcome)
        → Ending s.handler fd o.handler
        → Stepped late s fd conn turn.arrival o.handler
    stepped o (inl (c, e)) = record {
      first = start fd turn.arrival waits there;
      end = _;
      second = inl (finish fd (ground arith));
      handler =
          close-put s.handler fd (taken_up conn turn.arrival) inside
          ∙ sym (close-put s.handler fd c inside)
          ∙ sym e;
      queued = refl;
      held = rw (==_refl fd);
      leaving = refl;
    }
    stepped o (inr (c, true, e)) =
        let there' = entry-set_here s.handler.connections fd _ inside in
        record {
          first = start fd turn.arrival waits there;
          end = _;
          second = inr (_, release fd c (ground arith) there', refl, arm_again fd (ground arith));
          handler =
              ap (λ cs. rearm (record s.handler { connections = cs }) fd)
                (set-set s.handler.connections fd (some (taken_up conn turn.arrival))
                  (some (record c { in_use = false })))
              ∙ sym e;
          queued = refl;
          held = rw (==_refl fd);
          leaving = rw (==_refl fd);
        }
    stepped o (inr (c, false, e)) = record {
      first = start fd turn.arrival waits there;
      end = _;
      second = inl (keep fd c (ground arith) (entry-set_here s.handler.connections fd _ inside));
      handler =
          ap (λ cs. rearm (record s.handler { connections = cs }) fd)
            (set-set s.handler.connections fd (some (taken_up conn turn.arrival))
              (some (record c { in_use = false })))
          ∙ sym e;
      queued = refl;
      held = rw (==_refl fd);
      leaving = refl;
    }
