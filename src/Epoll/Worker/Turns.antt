-- ===== src/Epoll/Worker/Turns.antt =====
-- What a worker does with a response: it is sent, and the connection is closed or kept.
use epoll_http_server.Prelude.{
  ℕ, ◌-◌, ◌≤◌, ◌<◌, ◌≡◌, ◌⊎◌, refl, Bool, true, false, inl, inr, List, [], ◌∷◌, replicate, Option,
  none, some, arith, ltb, if◌then◌else◌, length, take, Bool-cases, All, codes, ◌∙◌, ◌++◌, Bytes,
}
use epoll_http_server.CString.Decimal.{decimal}
use epoll_http_server.Connection.{Connection, buffer_size, write_size}
use epoll_http_server.Parser
use epoll_http_server.Request.{Config, Stats, Readings}
use epoll_http_server.Response.{http_send_error, header_text, error_page, get_status_description}
use epoll_http_server.Response.Pages.{error_bytes, response, http_send_error-Answers}
use epoll_http_server.Epoll.Table.{Handler, entry}
use epoll_http_server.Epoll.Table.Entries.{entry-set_here, entry-close_here}
use epoll_http_server.Epoll.Worker.{
  WriteAnswer, again, failed, wrote, Turn, Outcome, put, clear_write, clear_read, settle, send,
  deliver, answer,
}
use epoll_http_server.Epoll.Worker.Writes.{Ends, fails, MakesProgress, rounds, write_loop-Ends}

-- The entry of a connection whose response went out in full: none, or it is released, with both
-- buffers zero.
abbrev pub kept : Connection → Option Connection
kept conn =
    if conn.keep_alive
    then some (record conn {
      in_use = false;
      read_buf = replicate buffer_size 0;
      read_pos = 0;
      write_buf = replicate write_size 0;
      write_pos = 0;
      write_len = 0;
    })
    else none

settle_done :
    (h : Handler) (fd : ℕ) (conn : Connection)
    → fd < length h.connections
    → entry (settle h fd conn false).connections fd
      ≡ (if conn.keep_alive then some (clear_read conn) else none)
unfolding settle
settle_done h fd conn inside = elim (Bool-cases conn.keep_alive) [
  | inl keep ↦ simp (keep, settle) (entry-set_here h.connections fd _ inside)
  | inr close ↦ simp (close, settle) (entry-close_here (put h fd conn) fd)
]

-- What a delivery ends in: the socket did not fail, the response went out in full, and the entry is the
-- connection made ready for its next request, if it is kept, or none; or the socket failed, only the first
-- bytes of the response went out, and the entry is none.
abbrev pub Delivered : ℕ → Connection → List WriteAnswer → Outcome → Type 0
Delivered fd conn writes outcome =
    ((fails conn.write_len 0 writes ≡ false)
      × (outcome.sent ≡ response conn)
      × (entry outcome.handler.connections fd ≡ kept conn))
    ⊎ ((fails conn.write_len 0 writes ≡ true)
        × (count : ℕ) × (count < conn.write_len)
        × (outcome.sent ≡ take count conn.write_buf)
        × (entry outcome.handler.connections fd ≡ none))

fails_nothing :
    (left : ℕ) (writes : List WriteAnswer) → ltb 0 left ≡ false → fails left 0 writes ≡ false
fails_nothing left [] e = refl
fails_nothing left (again ∷ rest) e = rw e refl
fails_nothing left (failed ∷ rest) e = e
fails_nothing left (wrote n ∷ rest) e = rw e refl

pub send-Ends :
    (conn : Connection) (writes : List WriteAnswer)
    → All MakesProgress writes
    → rounds conn.write_len 0 0 ≤ length writes
    → Ends conn.write_len (fails conn.write_len 0 writes) (send conn writes)
unfolding send
send-Ends conn writes p enough = elim (Bool-cases (ltb 0 conn.write_len)) [
  | inl some_bytes ↦
      rw (some_bytes, send)
        (rw nothing_sent at
          (write_loop-Ends writes conn.write_len 0 0 (omega arith) (omega arith) p enough))
  | inr no_bytes ↦
      rw (no_bytes, send) (inl (ground arith, refl, fails_nothing conn.write_len writes no_bytes))
]
  where
    nothing_sent : conn.write_len - 0 ≡ conn.write_len
    nothing_sent = omega arith

deliver_ended :
    (h : Handler) (stats : Stats) (fd : ℕ) (conn : Connection) (writes : List WriteAnswer)
    (result : Option (ℕ × Bool))
    → send conn writes ≡ result
    → Ends conn.write_len (fails conn.write_len 0 writes) result
    → fd < length h.connections
    → (outcome : Outcome) × (deliver h stats fd conn writes ≡ some outcome)
      × (outcome.stats ≡ stats)
      × Delivered fd conn writes outcome
unfolding deliver
deliver_ended h stats fd conn writes none e ends inside = absurd ends
deliver_ended h stats fd conn writes (some (count, close_conn)) e (inl (all, go_on, works)) inside =
    (
      record {
        handler = settle h fd (clear_write conn) close_conn;
        stats = stats;
        sent = take count conn.write_buf;
      },
      rw (e, deliver),
      refl,
      inl (works, rw all, rw go_on (settle_done h fd (clear_write conn) inside)),
    )
deliver_ended h stats fd conn writes (some (count, close_conn)) e (inr (few, stop, breaks)) inside =
    (
      record {
        handler = settle h fd (clear_write conn) close_conn;
        stats = stats;
        sent = take count conn.write_buf;
      },
      rw (e, deliver),
      refl,
      inr (breaks, count, few, refl, rw stop (entry-close_here (put h fd (clear_write conn)) fd)),
    )

-- Given enough answers of the socket, each taking a byte at least, a delivery returns. Where the socket
-- takes the whole response, it went out, and the connection is closed, or kept if it is to be kept alive:
-- released, its positions and lengths 0 and both buffers zero. Where the socket fails before, by an error or
-- by a thousand and one answers in a row without room, fewer bytes went out, a beginning of the
-- response, and the connection is closed.
pub deliver-Delivered :
    (h : Handler) (stats : Stats) (fd : ℕ) (conn : Connection) (writes : List WriteAnswer)
    → All MakesProgress writes
    → rounds conn.write_len 0 0 ≤ length writes
    → fd < length h.connections
    → (outcome : Outcome) × (deliver h stats fd conn writes ≡ some outcome)
      × (outcome.stats ≡ stats)
      × Delivered fd conn writes outcome
deliver-Delivered h stats fd conn writes p enough inside =
    deliver_ended h stats fd conn writes (send conn writes) refl (send-Ends conn writes p enough)
      inside

-- The response to a request that is not parsed, byte for byte.
abbrev pub bad_request : Bytes
bad_request =
    codes
      "HTTP/1.1 400 Bad Request\r\nServer: SimpleHTTP/1.0\r\nContent-Type: text/html\r\nContent-Length: 142\r\nConnection: close\r\n\r\n"
    ++ codes
        "<!DOCTYPE html>\n<html>\n<head><title>400 Bad Request</title></head>\n<body>\n<h1>400 Bad Request</h1>\n<hr>\n<p>SimpleHTTP/1.0</p>\n</body>\n</html>\n"

bad_request_is : error_bytes 400 (codes "Bad Request") ≡ bad_request
unfolding header_text error_page get_status_description decimal
bad_request_is = refl

-- A request that is not parsed is answered with the page for 400, byte for byte, whose header says
-- `Connection: close`, and the connection keeps the `keep_alive` of its last request.
pub answer_unparsed :
    (config : Config) (stats : Stats) (turn : Turn) (now : Readings) (conn : Connection)
    (request : Parser.Request)
    → length conn.write_buf ≡ write_size
    → (response (answer config stats turn now conn (request, false)).0 ≡ bad_request)
      × ((answer config stats turn now conn (request, false)).0.keep_alive ≡ conn.keep_alive)
unfolding answer http_send_error
answer_unparsed config stats turn now conn request cells = (
  (http_send_error-Answers conn 400 (codes "Bad Request") cells (omega arith) (omega arith)).0
      ∙ bad_request_is,
  refl,
)
