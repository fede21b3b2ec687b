-- ===== src/Epoll/Worker/Safety.antt =====
-- A whole turn of a worker: it returns, and leaves the table well formed.
use epoll_http_server.Prelude.{
  ℕ, zero, suc, ◌≤◌, ◌<◌, ◌≡◌, ◌≢◌, refl, ap, ◌∙◌, subst, Bool, true, false, ◌||◌, not, inl, inr,
  List, [], ◌∷◌, Option, none, some, some_inj, arith, ◌==◌, length, length-take, length-replicate,
  set, replicate, Bool-cases, Option-cases, All, Bytes, codes,
}
use epoll_http_server.Connection.{Connection, buffer_size, write_size}
use epoll_http_server.Parser
use epoll_http_server.Parser.{http_parse_request}
use epoll_http_server.Parser.Total.{http_parse_request_total}
use epoll_http_server.Response.{http_send_error}
use epoll_http_server.Response.Pages.{Answers, http_send_error-Answers}
use epoll_http_server.Request.{Config, Stats, Readings, http_handle_request}
use epoll_http_server.Request.Keeps.{http_send_error-Keeps, http_handle_request-Keeps}
use epoll_http_server.Request.Dispatch.{InRange, reply, http_handle_request-Answers}
use epoll_http_server.Epoll.Complete.Ascii.{is_request_complete_total}
use epoll_http_server.Epoll.Table.{Handler, entry, epoll_handler_close}
use epoll_http_server.Epoll.Table.Entries.{
  entry-set, entry-set_here, entry-lt, epoll_handler_get_connection_count-le,
}
use epoll_http_server.Epoll.Invariant.{IsConnection, IsTable, set-IsTable}
use epoll_http_server.Epoll.Worker.{
  read_loop, WriteAnswer, Turn, Outcome, put, clear_write, clear_read, settle, send, deliver,
  counted_now, answer, process, taken_up, worker_process_request,
}
use epoll_http_server.Epoll.Worker.Writes.{MakesProgress, rounds}
use epoll_http_server.Epoll.Worker.Turns.{send-Ends}
use epoll_http_server.Epoll.Worker.Received.{read-IsConnection}

-- No worker uses the connection.
abbrev pub Released : Option Connection → Type 0
Released none = Unit
Released (some conn) = conn.in_use ≡ false

-- What a turn for `fd` makes of a table: it is well formed, the entry of `fd` is none or released, and
-- every other entry is as it was.
pub record Turned (before : List (Option Connection)) (fd : ℕ) (after : List (Option Connection))
    : Type 0 where
  pub table : IsTable after
  pub released : Released (entry after fd)
  pub others : (j : ℕ) → fd ≢ j → entry after j ≡ entry before j

-- A turn that has returned, with such a table.
abbrev pub Leaves : Handler → ℕ → Option Outcome → Type 0
Leaves h fd none = ⊥
Leaves h fd (some outcome) = Turned h.connections fd outcome.handler.connections

==_false : {a b : ℕ} → a ≢ b → (a == b) ≡ false
==_false {a = a} {b = b} h = ground arith

set-Turned :
    (cs : List (Option Connection)) (fd : ℕ) (o : Option Connection)
    → IsTable cs
    → fd < length cs
    → ((conn : Connection) → o ≡ some conn → IsConnection fd conn)
    → Released o
    → Turned cs fd (set cs fd o)
set-Turned cs fd o is inside good free = record {
  table = set-IsTable cs fd o is inside good;
  released = rw (entry-set_here cs fd o inside) free;
  others = λ j other. rw (==_false other) at (entry-set cs fd j o inside);
}

pub set-set :
    (cs : List (Option Connection)) (fd : ℕ) (a b : Option Connection)
    → set (set cs fd a) fd b ≡ set cs fd b
set-set [] fd a b = refl
set-set (c ∷ cs) zero a b = refl
set-set (c ∷ cs) (suc fd) a b = ap (◌∷◌ c) (set-set cs fd a b)

close-Turned :
    (h : Handler) (fd : ℕ) (conn : Connection)
    → IsTable h.connections
    → fd < length h.connections
    → Turned h.connections fd (epoll_handler_close (put h fd conn) fd).connections
unfolding epoll_handler_close
close-Turned h fd conn is inside =
    rw (entry-set_here h.connections fd (some conn) inside, epoll_handler_close)
      (rw (set-set h.connections fd (some conn) none)
        (set-Turned h.connections fd none is inside (λ c e. cc) tt))

keep-Turned :
    (h : Handler) (fd : ℕ) (conn : Connection)
    → IsTable h.connections
    → fd < length h.connections
    → IsConnection fd conn
    → conn.in_use ≡ false
    → Turned h.connections fd (set h.connections fd (some conn))
keep-Turned h fd conn is inside good free =
    set-Turned h.connections fd (some conn) is inside
      (λ c e. subst (IsConnection fd) (some_inj e) good) free

-- Both buffers are fresh when a connection is kept.
cleared-IsConnection :
    (fd : ℕ) (conn : Connection) → conn.fd ≡ fd → IsConnection fd (clear_read (clear_write conn))
unfolding clear_read clear_write
cleared-IsConnection fd conn same = record {
  text = [];
  buffered = record {
    behind = replicate 4095 0;
    cells = refl;
    position = refl;
    size = length-replicate {A = ℕ} buffer_size 0;
  };
  cells = length-replicate {A = ℕ} write_size 0;
  same_fd = same;
}

settle-Turned :
    (h : Handler) (fd : ℕ) (conn : Connection) (close_conn : Bool)
    → IsTable h.connections
    → fd < length h.connections
    → conn.fd ≡ fd
    → Turned h.connections fd (settle h fd (clear_write conn) close_conn).connections
unfolding settle clear_read clear_write
settle-Turned h fd conn close_conn is inside same =
    elim (Bool-cases (close_conn || not conn.keep_alive)) [
      | inl close ↦ simp (close, settle) (close-Turned h fd (clear_write conn) is inside)
      | inr keep ↦
          simp (keep, settle)
            (keep-Turned h fd (clear_read (clear_write conn)) is inside
              (cleared-IsConnection fd conn same) refl)
    ]

deliver-Leaves :
    (h : Handler) (stats : Stats) (fd : ℕ) (conn : Connection) (writes : List WriteAnswer)
    → IsTable h.connections
    → fd < length h.connections
    → conn.fd ≡ fd
    → All MakesProgress writes
    → rounds conn.write_len 0 0 ≤ length writes
    → Leaves h fd (deliver h stats fd conn writes)
unfolding deliver
deliver-Leaves h stats fd conn writes is inside same p enough =
    elim (Option-cases (send conn writes)) [
      | inl never ↦ absurd (rw never at (send-Ends conn writes p enough))
      | inr (sent, e) ↦ rw (e, deliver) (settle-Turned h fd conn sent.1 is inside same)
    ]

-- A response takes at most the buffer.
pub Answers-write_len-le :
    (conn : Connection) (text : Bytes) → Answers conn text → conn.write_len ≤ write_size
Answers-write_len-le conn text (out, cells, len) =
    omega (arith, len, cells, ap length out, length-take conn.write_len conn.write_buf)

-- The table never counts more connections than it has entries.
pub counted_now-InRange :
    (h : Handler) {stats : Stats} {now : Readings} {config : Config}
    → InRange stats now config
    → InRange stats (counted_now h now) config
counted_now-InRange h r = record {
  connections = epoll_handler_get_connection_count-le h;
  threads = r.threads;
  start_time = r.start_time;
  first_time = r.first_time;
  second_time = r.second_time;
  requests = r.requests;
}

answer_fits :
    (config : Config) (stats : Stats) (turn : Turn) (now : Readings) (conn : Connection)
    (parsed : Parser.Request × Bool)
    → length conn.write_buf ≡ write_size
    → InRange stats now config
    → let conn' = (answer config stats turn now conn parsed).0 in
      (conn'.fd ≡ conn.fd) × (conn'.write_len ≤ write_size)
unfolding answer
answer_fits config stats turn now conn (request, false) cells r = (
  (http_send_error-Keeps conn 400 (codes "Bad Request")).fd,
  Answers-write_len-le (http_send_error conn 400 (codes "Bad Request")) _
      (http_send_error-Answers conn 400 (codes "Bad Request") cells (omega arith) (omega arith)),
)
answer_fits config stats turn now conn (request, true) cells r =
    let taken = record conn { keep_alive = request.keep_alive } in
    (
      (http_handle_request-Keeps turn.files request taken config stats now).fd,
      Answers-write_len-le (http_handle_request turn.files request taken config stats now).0.conn
          (reply turn.files request config stats now request.keep_alive)
          (http_handle_request-Answers turn.files request config stats now taken cells r),
    )

-- The mark of use and the time concern no buffer.
other_use :
    (fd : ℕ) (conn : Connection) (in_use : Bool)
    → IsConnection fd conn
    → IsConnection fd (record conn { in_use = in_use })
other_use fd conn in_use good = record {
  text = good.text;
  buffered = record {
    behind = good.buffered.behind;
    cells = good.buffered.cells;
    position = good.buffered.position;
    size = good.buffered.size;
  };
  cells = good.cells;
  same_fd = good.same_fd;
}

process-Leaves :
    (h : Handler) (config : Config) (stats : Stats) (fd : ℕ) (turn : Turn) (conn : Connection)
    → IsTable h.connections
    → fd < length h.connections
    → IsConnection fd conn
    → InRange stats turn.now config
    → All MakesProgress turn.writes
    → rounds write_size 0 0 ≤ length turn.writes
    → Leaves h fd (process h config stats fd turn conn)
unfolding process
process-Leaves h config stats fd turn conn is inside good r p enough =
    let ((complete, n), e) = is_request_complete_total conn.read_buf conn.read_pos in
    let (parsed, f) = http_parse_request_total turn.alloc conn.read_buf conn.read_pos in
    let (same, fits) =
      answer_fits config stats turn (counted_now h turn.now) conn parsed good.cells
        (counted_now-InRange h r) in
    elim (Bool-cases complete) [
      | inr short ↦
          rw (process, e, short)
            (keep-Turned h fd (record conn { in_use = false }) is inside
              (other_use fd conn false good) refl)
      | inl whole ↦
          rw (process, e, whole, f)
            (deliver-Leaves h (answer config stats turn (counted_now h turn.now) conn parsed).1 fd
              (answer config stats turn (counted_now h turn.now) conn parsed).0 turn.writes is
              inside (same ∙ good.same_fd) p (omega arith))
    ]

-- A turn of a worker returns, whatever the client sent and whatever the files are, given enough answers
-- of the socket for a response that fills the buffer, each taking a byte at least. It leaves the table
-- well formed, with the entry of the descriptor none or released, and every other entry as it was.
pub worker_process_request-Leaves :
    (h : Handler) (config : Config) (stats : Stats) (fd : ℕ) (turn : Turn)
    → IsTable h.connections
    → InRange stats turn.now config
    → All MakesProgress turn.writes
    → rounds write_size 0 0 ≤ length turn.writes
    → Leaves h fd (worker_process_request h config stats fd turn)
unfolding worker_process_request
worker_process_request-Leaves h config stats fd turn is r p enough =
    elim (Option-cases (entry h.connections fd)) [
      | inl absent ↦
          rw (worker_process_request, absent)
            (record { table = is; released = rw absent tt; others = λ j other. refl })
      | inr (conn, e) ↦
          let inside = entry-lt h.connections fd e in
          let good = is.entries fd conn e in
          let (conn', close_conn) = read_loop (taken_up conn turn.arrival) turn.reads in
          elim (Bool-cases close_conn) [
            | inl close ↦ rw (worker_process_request, e, close) (close-Turned h fd conn' is inside)
            | inr go_on ↦
                rw (worker_process_request, e, go_on)
                  (process-Leaves h config stats fd turn conn' is inside
                    (read-IsConnection fd conn turn.arrival turn.reads good) r p enough)
          ]
    ]
