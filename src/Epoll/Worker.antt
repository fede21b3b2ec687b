-- ===== src/Epoll/Worker.antt =====
-- `worker_process_request`: what a worker does with one event of a connection. The answers of the
-- socket and of the other parts of the system are arguments; the turn runs as one step, and
-- `finish_turn` is what of it stands behind its first lock.
pub mod Reads
pub mod Writes
pub mod Turns
pub mod Split
pub mod Received
pub mod Safety
pub mod Arrivals
pub mod Exchange
pub mod Session
use epoll_http_server.Prelude.{
  ℕ, zero, suc, ◌+◌, ◌-◌, min, Bool, true, false, ◌||◌, not, List, [], ◌∷◌, ◌++◌, Option, none,
  some, ltb, leb, ◌==◌, if◌then◌else◌, Bytes, codes, length, set, take, replicate,
}
use epoll_http_server.CString.{memcpy_at}
use epoll_http_server.Connection.{Connection, buffer_size, write_size}
use epoll_http_server.Files.{Files}
use epoll_http_server.Parser
use epoll_http_server.Parser.{http_parse_request, http_request_cleanup}
use epoll_http_server.Response.{http_send_error}
use epoll_http_server.Request.{Config, Stats, Readings, http_handle_request}
use epoll_http_server.Epoll.Complete.{is_request_complete}
use epoll_http_server.Epoll.Table.{
  epoll_modify_fd, Handler, entry, epoll_handler_close, epoll_handler_get_connection_count,
}

-- An answer of `read`: nothing there yet, an error, or bytes. Of the bytes the call returns as many
-- as it asked for at most; none means that the peer has closed.
pub data ReadAnswer : Type 0 where
  again : ReadAnswer
  failed : ReadAnswer
  bytes : (text : Bytes) → ReadAnswer

-- `BUFFER_SIZE - conn->read_pos - 1`
abbrev pub space_left : Connection → ℕ
space_left conn = buffer_size - conn.read_pos - 1

-- The bytes that were read, and the NUL behind them.
unfoldable pub store_read : Connection → Bytes → Connection
store_read conn got = record conn {
  read_buf =
      set (memcpy_at conn.read_buf conn.read_pos got (length got)) (conn.read_pos + length got) 0;
  read_pos = conn.read_pos + length got;
}

-- The loop over `read`, with `close_conn`. Where the list ends the socket has nothing more.
unfoldable pub read_loop : Connection → List ReadAnswer → Connection × Bool
unfolding store_read
read_loop conn [] = (conn, space_left conn == 0)
read_loop conn (again ∷ rest) = (conn, space_left conn == 0)
read_loop conn (failed ∷ rest) = (conn, true)
read_loop conn (bytes text ∷ rest) = elim (take (space_left conn) text) [
  | [] ↦ (conn, true)
  | c ∷ got ↦ read_loop (store_read conn (c ∷ got)) rest
]

-- An answer of `write`: no room yet, an error, or how many bytes were taken, of those asked for.
pub data WriteAnswer : Type 0 where
  again : WriteAnswer
  failed : WriteAnswer
  wrote : (count : ℕ) → WriteAnswer

-- The retries in a row that are allowed.
abbrev pub max_retries : ℕ
max_retries = 1000

-- The loop over `write`: how much was sent, and `close_conn`. With no answer left the result is
-- `none`: the loop is still waiting.
unfoldable pub write_loop : ℕ → ℕ → ℕ → List WriteAnswer → Option (ℕ × Bool)
write_loop total sent retry [] = if ltb sent total then none else some (sent, false)
write_loop total sent retry (again ∷ rest) =
    let more = write_loop total sent (retry + 1) rest in
    if ltb sent total
    then (if ltb max_retries (retry + 1) then some (sent, true) else more)
    else some (sent, false)
write_loop total sent retry (failed ∷ rest) = some (sent, ltb sent total)
write_loop total sent retry (wrote count ∷ rest) =
    let more = write_loop total (sent + min count (total - sent)) 0 rest in
    if ltb sent total then more else some (sent, false)

-- What a turn is told by its surroundings. Of `now` only the times are read: the connections are those
-- that the table has.
pub record Turn : Type 0 where
  pub arrival : ℕ
  pub reads : List ReadAnswer
  pub writes : List WriteAnswer
  pub alloc : ℕ → Bool
  pub files : Files
  pub now : Readings

-- The table, the counters, and the bytes that went out.
pub record Outcome : Type 0 where
  pub handler : Handler
  pub stats : Stats
  pub sent : Bytes

abbrev pub put : Handler → ℕ → Connection → Handler
put h fd conn = record h { connections = set h.connections fd (some conn) }

-- The descriptor is armed again. The result is not read.
abbrev pub rearm : Handler → ℕ → Handler
rearm h fd = (epoll_modify_fd h fd true).0

-- The write buffer is cleared.
unfoldable pub clear_write : Connection → Connection
clear_write conn = record conn { write_pos = 0; write_len = 0; write_buf = replicate write_size 0 }

-- The read buffer is cleared for the next request.
unfoldable pub clear_read : Connection → Connection
clear_read conn = record conn { read_pos = 0; read_buf = replicate buffer_size 0; in_use = false }

-- Close, or keep the connection for the next request.
unfoldable pub settle : Handler → ℕ → Connection → Bool → Handler
unfolding epoll_handler_close clear_read
settle h fd conn close_conn =
    if close_conn || not conn.keep_alive
    then epoll_handler_close (put h fd conn) fd
    else rearm (put h fd (clear_read conn)) fd

-- `if (conn->write_len > 0)` and the loop behind it.
unfoldable pub send : Connection → List WriteAnswer → Option (ℕ × Bool)
unfolding write_loop
send conn writes =
    if ltb 0 conn.write_len then write_loop conn.write_len 0 0 writes else some (0, false)

-- From the response in the buffer on.
unfoldable pub deliver : Handler → Stats → ℕ → Connection → List WriteAnswer → Option Outcome
unfolding send settle clear_write
deliver h stats fd conn writes = elim (send conn writes) [
  | none ↦ none
  | some (count, close_conn) ↦ some (record {
    handler = settle h fd (clear_write conn) close_conn;
    stats = stats;
    sent = take count conn.write_buf;
  })
]

-- `epoll_handler_get_connection_count` of the table, where `/status` asks for it.
abbrev pub counted_now : Handler → Readings → Readings
counted_now h now = record now { connections = epoll_handler_get_connection_count h }

-- From the parsed request on. The request is cleaned up, which concerns no other part.
unfoldable pub answer :
    Config → Stats → Turn → Readings → Connection → Parser.Request × Bool → Connection × Stats
unfolding http_send_error http_handle_request
answer config stats turn now conn (request, false) =
    (http_send_error conn 400 (codes "Bad Request"), stats)
answer config stats turn now conn (request, true) =
    let (sent, stats') =
      http_handle_request turn.files request (record conn { keep_alive = request.keep_alive })
        config stats now in
    (sent.conn, stats')

-- From the end of reading on.
unfoldable pub process : Handler → Config → Stats → ℕ → Turn → Connection → Option Outcome
unfolding answer deliver epoll_handler_get_connection_count
process h config stats fd turn conn = elim (is_request_complete conn.read_buf conn.read_pos) [
  | none ↦ none
  | some (false, n) ↦ some (record {
    handler = rearm (put h fd (record conn { in_use = false })) fd;
    stats = stats;
    sent = [];
  })
  | some (true, n) ↦ elim (http_parse_request turn.alloc conn.read_buf conn.read_pos) [
    | none ↦ none
    | some parsed ↦
        let (conn', stats') = answer config stats turn (counted_now h turn.now) conn parsed in
        deliver h stats' fd conn' turn.writes
  ]
]

-- The connection of a turn, taken into use.
abbrev pub taken_up : Connection → ℕ → Connection
taken_up conn arrival = record conn { in_use = true; last_active = arrival }

-- From the mark on: the reads, and what they lead to. It takes the table as it is when it ends.
unfoldable pub finish_turn : Handler → Config → Stats → ℕ → Turn → Connection → Option Outcome
unfolding process read_loop epoll_handler_close
finish_turn h config stats fd turn conn =
    let (conn', close_conn) = read_loop conn turn.reads in
    if close_conn
    then some
        (record { handler = epoll_handler_close (put h fd conn') fd; stats = stats; sent = [] })
    else process h config stats fd turn conn'

unfoldable pub worker_process_request : Handler → Config → Stats → ℕ → Turn → Option Outcome
unfolding finish_turn entry
worker_process_request h config stats fd turn = elim (entry h.connections fd) [
  | none ↦ some (record { handler = h; stats = stats; sent = [] })
  | some conn ↦ finish_turn h config stats fd turn (taken_up conn turn.arrival)
]
