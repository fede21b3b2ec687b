-- ===== src/Epoll/Worker/Exchange.antt =====
-- A whole exchange: what a client sends, in any pieces, is parsed as it was meant, and answered.
use epoll_http_server.Prelude.{
  ℕ, zero, suc, ◌+◌, ◌-◌, ◌≤◌, ◌<◌, ◌≡◌, ◌⊎◌, refl, sym, ap, ◌∙◌, subst, Bool, true, false, inl,
  inr, List, [], ◌∷◌, ◌++◌, Option, none, some, arith, Bytes, length, length-append, take, take_all,
  All, replicate,
}
use mathlib.Core.Path.{ap₂}
use epoll_http_server.Prelude.Int.{pos}
use epoll_http_server.Connection.{Connection, buffer_size, write_size}
use epoll_http_server.Parser
use epoll_http_server.Parser.{http_parse_request}
use epoll_http_server.Parser.RoundTrip.{ReadBack, http_parse_request-followed}
use epoll_http_server.Parser.Message.{Message, IsMessage, print, followed, print_onto}
use epoll_http_server.Response.Pages.{Answers}
use epoll_http_server.Request.{Config, Stats, http_handle_request}
use epoll_http_server.Request.Dispatch.{InRange, reply, http_handle_request-Answers}
use epoll_http_server.Request.Keeps.{http_handle_request-Keeps}
use epoll_http_server.Epoll.Complete.{is_request_complete}
use epoll_http_server.Epoll.Complete.Ascii.{IsAscii}
use epoll_http_server.Epoll.Complete.Printed.{is_request_complete-printed}
use epoll_http_server.Epoll.Table.{Handler, entry}
use epoll_http_server.Epoll.Table.Entries.{entry-lt}
use epoll_http_server.Epoll.Worker.{
  WriteAnswer, Turn, Outcome, read_loop, taken_up, counted_now, clear_read, clear_write, answer,
  deliver, process, worker_process_request,
}
use epoll_http_server.Epoll.Worker.Reads.{Buffered, stream, read_loop_text}
use epoll_http_server.Epoll.Worker.Writes.{fails, MakesProgress, rounds}
use epoll_http_server.Epoll.Worker.Turns.{Delivered, kept, deliver-Delivered}
use epoll_http_server.Epoll.Worker.Arrivals.{
  Arrives, read_loop_open, read_loop-IsAscii, IsAscii-front,
}
use epoll_http_server.Epoll.Worker.Safety.{Answers-write_len-le, counted_now-InRange}
use epoll_http_server.Epoll.Worker.Received.{store_read-fields, taken_up-Buffered}

-- The connection holds the beginning of an ASCII message, and the rest of it arrives in this turn.
pub record Sends (turn : Turn) (conn : Connection) (m : Message) : Type 0 where
  pub text : Bytes
  pub buffered : Buffered text conn
  pub buffer_ascii : IsAscii conn.read_buf
  pub cells : length conn.write_buf ≡ write_size
  pub whole : text ++ stream turn.reads ≡ print m
  pub message_ascii : IsAscii (print m)
  pub arrives : Arrives turn.reads
  pub short : length (print m) < 4095

-- The entry behind a response that went out: the connection with empty buffers and released, or none.
abbrev pub KeptIf : Bool → Option Connection → Type 0
KeptIf true (some conn) =
    (conn.in_use ≡ false)
    × (conn.read_pos ≡ 0)
    × (conn.write_len ≡ 0)
    × (conn.read_buf ≡ replicate buffer_size 0)
    × (conn.write_buf ≡ replicate write_size 0)
KeptIf true none = ⊥
KeptIf false (some conn) = ⊥
KeptIf false none = Unit

-- The socket takes the page: it went out, and the connection is kept if it is to be. Or the socket fails
-- before: only a beginning of the page went out, and the connection is closed.
abbrev pub Served : ℕ → Bytes → Bool → List WriteAnswer → Outcome → Type 0
Served fd page keep_alive writes outcome =
    ((fails (length page) 0 writes ≡ false)
      × (outcome.sent ≡ page)
      × KeptIf keep_alive (entry outcome.handler.connections fd))
    ⊎ ((fails (length page) 0 writes ≡ true)
        × (count : ℕ) × (count < length page)
        × (outcome.sent ≡ take count page)
        × (entry outcome.handler.connections fd ≡ none))

take-take : (n k : ℕ) (xs : Bytes) → n ≤ k → take n (take k xs) ≡ take n xs
take-take zero k xs h = refl
take-take (suc n) zero xs h = absurd (omega arith)
take-take (suc n) (suc k) [] h = refl
take-take (suc n) (suc k) (x ∷ xs) h = ap (◌∷◌ x) (take-take n k xs (omega arith))

kept-KeptIf :
    (conn : Connection) (keep_alive : Bool)
    → conn.keep_alive ≡ keep_alive
    → KeptIf keep_alive (kept conn)
unfolding clear_read clear_write
kept-KeptIf conn true e = rw e (refl, refl, refl, refl, refl)
kept-KeptIf conn false e = rw e tt

Delivered-Served :
    (fd : ℕ) (conn : Connection) (page : Bytes) (keep_alive : Bool) (writes : List WriteAnswer)
    (outcome : Outcome)
    → Answers conn page
    → conn.keep_alive ≡ keep_alive
    → Delivered fd conn writes outcome
    → Served fd page keep_alive writes outcome
Delivered-Served fd conn page keep_alive writes outcome (out, cells, len) alive
      (inl (works, sent, e)) =
    inl (
      ap (λ (n : ℕ). fails n 0 writes) (sym len) ∙ works,
      sent ∙ out,
      rw e (kept-KeptIf conn keep_alive alive),
    )
Delivered-Served fd conn page keep_alive writes outcome (out, cells, len) alive
      (inr (breaks, count, few, sent, e)) =
    inr (
      ap (λ (n : ℕ). fails n 0 writes) (sym len) ∙ breaks,
      count,
      omega (arith, len),
      sent
          ∙ sym (take-take count conn.write_len conn.write_buf (omega arith))
          ∙ ap (take count) out,
      e,
    )

-- A turn ends like this for a request that is read back.
abbrev pub Exchanged : Handler → Config → Stats → ℕ → Turn → Message → Option Outcome → Type 0
Exchanged h config stats fd turn m o =
    (request : Parser.Request) × ReadBack m request
    × (outcome : Outcome) × (o ≡ some outcome)
    × Served fd (reply turn.files request config stats (counted_now h turn.now) request.keep_alive)
        request.keep_alive turn.writes outcome

module _ (h : Handler) (config : Config) (stats : Stats) (fd : ℕ) (turn : Turn) (m : Message)
    (is : IsMessage m) (given : (n : ℕ) → turn.alloc n ≡ true) (r : InRange stats turn.now config)
    (p : All MakesProgress turn.writes) (enough : rounds write_size 0 0 ≤ length turn.writes) where
  answer-Exchanged :
      (conn : Connection) (request : Parser.Request)
      → fd < length h.connections
      → length conn.write_buf ≡ write_size
      → ReadBack m request
      → let (conn', stats') =
          answer config stats turn (counted_now h turn.now) conn (request, true) in
        Exchanged h config stats fd turn m (deliver h stats' fd conn' turn.writes)
  unfolding answer
  answer-Exchanged conn request inside cells back =
      let taken = record conn { keep_alive = request.keep_alive } in
      let handled =
        http_handle_request turn.files request taken config stats (counted_now h turn.now) in
      let page =
        reply turn.files request config stats (counted_now h turn.now) request.keep_alive in
      let answers =
        http_handle_request-Answers turn.files request config stats (counted_now h turn.now) taken
          cells (counted_now-InRange h r) in
      let (outcome, e, same, delivered) =
        deliver-Delivered h handled.1 fd handled.0.conn turn.writes p
          (omega (arith, Answers-write_len-le handled.0.conn page answers)) inside in
      (
        request,
        back,
        outcome,
        e,
        Delivered-Served fd handled.0.conn page request.keep_alive turn.writes outcome answers
            (http_handle_request-Keeps turn.files request taken config stats
              (counted_now h turn.now)).keep_alive
            delivered,
      )

  -- From the end of reading on.
  process-Exchanged :
      (conn : Connection) (behind : Bytes)
      → fd < length h.connections
      → length conn.write_buf ≡ write_size
      → conn.read_buf ≡ print (followed m (0 ∷ behind))
      → conn.read_pos ≡ length (print m)
      → IsAscii conn.read_buf
      → Exchanged h config stats fd turn m (process h config stats fd turn conn)
  unfolding process
  process-Exchanged conn behind inside cells buffer position ascii =
      let (request, parsed, back) =
        http_parse_request-followed m (0 ∷ behind) turn.alloc is given refl in
      let complete : is_request_complete conn.read_buf conn.read_pos ≡ some (true, some (pos 0)) =
        ap₂ is_request_complete buffer position
        ∙ is_request_complete-printed m (0 ∷ behind) is (subst IsAscii buffer ascii) in
      let read_back : http_parse_request turn.alloc conn.read_buf conn.read_pos
          ≡ some (request, true) =
        ap₂ (http_parse_request turn.alloc) buffer position ∙ parsed in
      rw (process, complete, read_back) (answer-Exchanged conn request inside cells back)

  -- A client sends a message as a client prints it, in ASCII and of fewer than 4095 bytes, in any
  -- pieces. The buffer of its connection holds a beginning of it that is not answered yet, from none of
  -- it to all but the rest that arrives in this turn; so a body is part of the message as far as it comes
  -- with the end of the headers. With memory, and with enough answers of the socket for a full buffer,
  -- each of which takes a byte at least, the turn returns, and the request is the message, read back. If
  -- the socket takes the page that answers it, that page is what goes out, and the connection is then
  -- kept, released and with empty buffers, exactly if the request asks for it. If the socket fails before,
  -- by an error or a thousand and one answers in a row without room, a beginning of the page went out
  -- and the connection is closed.
  pub worker_process_request-Exchanged :
      (conn : Connection)
      → entry h.connections fd ≡ some conn
      → Sends turn conn m
      → Exchanged h config stats fd turn m (worker_process_request h config stats fd turn)
  unfolding worker_process_request
  worker_process_request-Exchanged conn e s =
      rw (worker_process_request, e, goes_on)
        (process-Exchanged after buffered.behind (entry-lt h.connections fd e) cells_left
          (buffered.cells ∙ sym (print_onto m (0 ∷ buffered.behind))) buffered.position
          (read_loop-IsAscii turn.reads taken s.buffer_ascii
            (IsAscii-front s.text (stream turn.reads)
              (subst IsAscii (sym s.whole) s.message_ascii)).1))
    where
      taken : Connection
      taken = taken_up conn turn.arrival

      after : Connection
      after = (read_loop taken turn.reads).0

      start : Buffered s.text taken
      start = taken_up-Buffered conn turn.arrival s.text s.buffered

      fits : length s.text + length (stream turn.reads) < 4095
      fits = omega (arith, s.short, ap length s.whole, length-append s.text (stream turn.reads))

      goes_on : (read_loop taken turn.reads).1 ≡ false
      goes_on = read_loop_open turn.reads s.text taken start fits s.arrives

      buffered : Buffered (print m) after
      buffered =
          subst (λ t. Buffered t after)
            (ap (λ (t : Bytes). s.text ++ t)
                (take_all (4095 - length s.text) (stream turn.reads) (omega (arith, fits)))
              ∙ s.whole)
            (read_loop_text turn.reads s.text taken start)

      cells_left : length after.write_buf ≡ write_size
      cells_left = (store_read-fields taken.fd taken turn.reads refl s.cells).1
