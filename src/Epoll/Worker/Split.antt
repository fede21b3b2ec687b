-- ===== src/Epoll/Worker/Split.antt =====
-- A turn of a worker in two parts, its start and its end, with other threads on the table in between.
use epoll_http_server.Prelude.{
  ℕ, ◌<◌, ◌≡◌, refl, sym, ◌∙◌, Bool, true, false, ◌||◌, not, inl, inr, List, [], ◌∷◌, ◌++◌, Option,
  none, some, ◌==◌, length, Bool-cases, Option-cases,
}
use epoll_http_server.Connection.{Connection}
use epoll_http_server.Parser.{http_parse_request}
use epoll_http_server.Request.{Config, Stats}
use epoll_http_server.Epoll.Complete.{is_request_complete}
use epoll_http_server.Epoll.Table.{
  Call, epoll_modify, epoll_remove, close_fd, free_connection, Handler, entry, epoll_handler_close,
  epoll_handler_get_connection_count,
}
use epoll_http_server.Epoll.Table.Entries.{
  entry-set, entry-set_here, entry-lt, entry-epoll_handler_close, entry-close_here,
}
use epoll_http_server.Epoll.Worker.{
  WriteAnswer, Turn, Outcome, put, rearm, clear_write, clear_read, settle, send, deliver,
  counted_now, answer, process, read_loop, finish_turn, worker_process_request, taken_up,
}

-- Two tables that a turn for `fd` makes of `h` and of `g`: the same entry at `fd`, the same calls to the
-- system, and at every other descriptor what was there.
pub record Moved (fd : ℕ) (h g h' g' : Handler) : Type 0 where
  pub here : entry h'.connections fd ≡ entry g'.connections fd
  pub others :
      (j : ℕ)
      → (fd == j) ≡ false
      → (entry h'.connections j ≡ entry h.connections j)
        × (entry g'.connections j ≡ entry g.connections j)
  pub calls : (cs : List Call) × (h'.log ≡ cs ++ h.log) × (g'.log ≡ cs ++ g.log)

-- The same bytes sent and the same counters, or both still wait.
abbrev pub Agree : ℕ → Handler → Handler → Option Outcome → Option Outcome → Type 0
Agree fd h g none none = Unit
Agree fd h g (some o) (some p) =
    (o.sent ≡ p.sent) × (o.stats ≡ p.stats) × Moved fd h g o.handler p.handler
Agree fd h g _ _ = ⊥

module _ (fd : ℕ) (h g : Handler) (in_h : fd < length h.connections)
    (in_g : fd < length g.connections)
    (as_many : epoll_handler_get_connection_count h ≡ epoll_handler_get_connection_count g) where
  rearm-Moved :
      (conn : Connection) → Moved fd h g (rearm (put h fd conn) fd) (rearm (put g fd conn) fd)
  rearm-Moved conn = record {
    here =
        entry-set_here h.connections fd (some conn) in_h
        ∙ sym (entry-set_here g.connections fd (some conn) in_g);
    others = λ j e. (
      rw e at (entry-set h.connections fd j (some conn) in_h),
      rw e at (entry-set g.connections fd j (some conn) in_g),
    );
    calls = (epoll_modify fd ∷ [], refl, refl);
  }

  close_others :
      (k : Handler) (conn : Connection)
      → fd < length k.connections
      → (j : ℕ) → (fd == j) ≡ false
      → entry (epoll_handler_close (put k fd conn) fd).connections j ≡ entry k.connections j
  close_others k conn inside j e =
      (rw e at (entry-epoll_handler_close (put k fd conn) fd j))
      ∙ (rw e at (entry-set k.connections fd j (some conn) inside))

  close_calls :
      (k : Handler) (conn : Connection)
      → fd < length k.connections
      → (epoll_handler_close (put k fd conn) fd).log
        ≡ (free_connection fd ∷ close_fd fd ∷ epoll_remove fd ∷ []) ++ k.log
  unfolding epoll_handler_close
  close_calls k conn inside =
      rw (entry-set_here k.connections fd (some conn) inside, epoll_handler_close)

  close-Moved :
      (conn : Connection)
      → Moved fd h g
          (epoll_handler_close (put h fd conn) fd)
          (epoll_handler_close (put g fd conn) fd)
  close-Moved conn = record {
    here = entry-close_here (put h fd conn) fd ∙ sym (entry-close_here (put g fd conn) fd);
    others = λ j e. (close_others h conn in_h j e, close_others g conn in_g j e);
    calls = (
      free_connection fd ∷ close_fd fd ∷ epoll_remove fd ∷ [],
      close_calls h conn in_h,
      close_calls g conn in_g,
    );
  }

  settle-Moved :
      (conn : Connection) (close_conn : Bool)
      → Moved fd h g (settle h fd conn close_conn) (settle g fd conn close_conn)
  unfolding settle
  settle-Moved conn close_conn = elim (Bool-cases (close_conn || not conn.keep_alive)) [
    | inl close ↦ rw (close, settle) (close-Moved conn)
    | inr keep ↦ rw (keep, settle) (rearm-Moved (clear_read conn))
  ]

  deliver-Agree :
      (stats : Stats) (conn : Connection) (writes : List WriteAnswer)
      → Agree fd h g (deliver h stats fd conn writes) (deliver g stats fd conn writes)
  unfolding deliver
  deliver-Agree stats conn writes = elim (Option-cases (send conn writes)) [
    | inl e ↦ rw (e, deliver) tt
    | inr ((count, close_conn), e) ↦
        rw (e, deliver) (refl, refl, settle-Moved (clear_write conn) close_conn)
  ]

  process-Agree :
      (config : Config) (stats : Stats) (turn : Turn) (conn : Connection)
      → Agree fd h g (process h config stats fd turn conn) (process g config stats fd turn conn)
  unfolding process
  process-Agree config stats turn conn =
      elim (Option-cases (is_request_complete conn.read_buf conn.read_pos)) [
        | inl e ↦ rw (e, process) tt
        | inr ((false, n), e) ↦
            rw (e, process) (refl, refl, rearm-Moved (record conn { in_use = false }))
        | inr ((true, n), e) ↦
            rw (e, process)
              (elim (Option-cases (http_parse_request turn.alloc conn.read_buf conn.read_pos)) [
                | inl f ↦ rw f tt
                | inr (parsed, f) ↦
                    rw (f, as_many)
                      (deliver-Agree
                        (answer config stats turn (counted_now g turn.now) conn parsed).1
                        (answer config stats turn (counted_now g turn.now) conn parsed).0
                        turn.writes)
              ])
      ]

  -- The end of a turn does the same to any two tables with as many connections, whatever else they hold.
  pub finish_turn-Agree :
      (config : Config) (stats : Stats) (turn : Turn) (conn : Connection)
      → Agree fd h g
          (finish_turn h config stats fd turn conn)
          (finish_turn g config stats fd turn conn)
  unfolding finish_turn
  finish_turn-Agree config stats turn conn = elim (Bool-cases (read_loop conn turn.reads).1) [
    | inl close ↦ rw close (refl, refl, close-Moved (read_loop conn turn.reads).0)
    | inr go_on ↦ rw go_on (process-Agree config stats turn (read_loop conn turn.reads).0)
  ]

-- A turn in two parts agrees with the turn as one step.
pub worker_process_request-Agree :
    (h g : Handler) (config : Config) (stats : Stats) (fd : ℕ) (turn : Turn)
    {conn held : Connection}
    → entry h.connections fd ≡ some conn
    → entry g.connections fd ≡ some held
    → epoll_handler_get_connection_count h ≡ epoll_handler_get_connection_count g
    → Agree fd h g
        (worker_process_request h config stats fd turn)
        (finish_turn g config stats fd turn (taken_up conn turn.arrival))
unfolding worker_process_request
worker_process_request-Agree h g config stats fd turn {conn = conn} e f as_many =
    rw (e, worker_process_request)
      (finish_turn-Agree fd h g (entry-lt h.connections fd e) (entry-lt g.connections fd f) as_many
        config stats turn (taken_up conn turn.arrival))
