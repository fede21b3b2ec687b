-- ===== src/Epoll/Worker/Session.antt =====
-- Several requests on one connection, one after the other, as `Connection: keep-alive` has it.
use epoll_http_server.Prelude.{
  ℕ, zero, suc, ◌≤◌, ◌<◌, ◌≡◌, ◌⊎◌, refl, ap, ◌∙◌, true, false, inl, inr, List, [], ◌∷◌, Option,
  none, some, arith, Bytes, length, length-replicate, take, All, replicate, Bool-cases,
}
use epoll_http_server.Connection.{Connection, buffer_size, write_size}
use epoll_http_server.Parser
use epoll_http_server.Parser.Message.{Message, IsMessage, print}
use epoll_http_server.Parser.RoundTrip.{ReadBack}
use epoll_http_server.Request.{Config, Stats}
use epoll_http_server.Request.Dispatch.{InRange, reply}
use epoll_http_server.Epoll.Complete.Ascii.{IsAscii}
use epoll_http_server.Epoll.Table.{Handler, entry}
use epoll_http_server.Epoll.Worker.{Turn, Outcome, counted_now, worker_process_request}
use epoll_http_server.Epoll.Worker.Reads.{stream}
use epoll_http_server.Epoll.Worker.Writes.{fails, MakesProgress, rounds}
use epoll_http_server.Epoll.Worker.Arrivals.{Arrives}
use epoll_http_server.Epoll.Worker.Exchange.{Sends, KeptIf, worker_process_request-Exchanged}

-- What happens to the table before a turn, the turn, the counters at that time, and the message that
-- the client sends.
pub record Visit : Type 0 where
  pub before : Handler → Handler
  pub turn : Turn
  pub stats : Stats
  pub message : Message

-- The message arrives whole in the turn, and the others have not touched the connection.
pub record IsVisit (config : Config) (fd : ℕ) (v : Visit) : Type 0 where
  pub untouched : (h : Handler) → entry (v.before h).connections fd ≡ entry h.connections fd
  pub is_message : IsMessage v.message
  pub ascii : IsAscii (print v.message)
  pub short : length (print v.message) < 4095
  pub whole : stream v.turn.reads ≡ print v.message
  pub arrives : Arrives v.turn.reads
  pub given : (n : ℕ) → v.turn.alloc n ≡ true
  pub in_range : InRange v.stats v.turn.now config
  pub progress : All MakesProgress v.turn.writes
  pub enough : rounds write_size 0 0 ≤ length v.turn.writes

-- A connection that waits for a request.
pub record Waits (conn : Connection) : Type 0 where
  pub position : conn.read_pos ≡ 0
  pub read_buf : conn.read_buf ≡ replicate buffer_size 0
  pub write_buf : conn.write_buf ≡ replicate write_size 0

module _ (config : Config) (fd : ℕ) where
  -- The turns one after the other, with what each of them sends.
  unfoldable pub serve_visits : List Visit → Handler → Option (List Bytes)
  serve_visits [] h = some []
  serve_visits (v ∷ vs) h = elim (worker_process_request (v.before h) config v.stats fd v.turn) [
    | none ↦ none
    | some outcome ↦ elim (serve_visits vs outcome.handler) [
      | none ↦ none
      | some sent ↦ some (outcome.sent ∷ sent)
    ]
  ]

  -- Nothing is sent any more.
  abbrev pub silent : List Visit → List Bytes
  silent [] = []
  silent (v ∷ vs) = [] ∷ silent vs

  -- Each message is answered in its turn with its page, whole where the socket takes it, until one asks
  -- for the end or the socket fails.
  abbrev pub Talks : List Visit → Handler → List Bytes → Type 0
  Talks [] h [] = Unit
  Talks [] h (text ∷ sent) = ⊥
  Talks (v ∷ vs) h [] = ⊥
  Talks (v ∷ vs) h (text ∷ sent) =
      (request : Parser.Request) × ReadBack v.message request
      × (outcome : Outcome) × (worker_process_request (v.before h) config v.stats fd v.turn
          ≡ some outcome)
      × (let now = counted_now (v.before h) v.turn.now in
          let page = reply v.turn.files request config v.stats now request.keep_alive in
          ((fails (length page) 0 v.turn.writes ≡ false)
            × (text ≡ page)
            × (((request.keep_alive ≡ true) × Talks vs outcome.handler sent)
                ⊎ ((request.keep_alive ≡ false) × (sent ≡ silent vs))))
          ⊎ ((fails (length page) 0 v.turn.writes ≡ true)
              × (count : ℕ) × (count < length page)
              × (text ≡ take count page)
              × (sent ≡ silent vs)))

  closed_silent :
      (vs : List Visit) (h : Handler)
      → All (IsVisit config fd) vs
      → entry h.connections fd ≡ none
      → serve_visits vs h ≡ some (silent vs)
  unfolding serve_visits worker_process_request
  closed_silent [] h are e = refl
  closed_silent (v ∷ vs) h are e =
      let gone : entry (v.before h).connections fd ≡ none = are.0.untouched h ∙ e in
      rw (serve_visits, worker_process_request, gone)
        (rw (closed_silent vs (v.before h) are.1 gone) refl)

  zeros-IsAscii : (n : ℕ) → IsAscii (replicate n 0)
  zeros-IsAscii zero = tt
  zeros-IsAscii (suc n) = (omega arith, zeros-IsAscii n)

  Waits-Sends :
      (v : Visit) (conn : Connection)
      → IsVisit config fd v
      → Waits conn
      → Sends v.turn conn v.message
  Waits-Sends v conn is w = record {
    text = [];
    buffered = record {
      behind = replicate 4095 0;
      cells = w.read_buf;
      position = w.position;
      size = ap length w.read_buf ∙ length-replicate {A = ℕ} buffer_size 0;
    };
    buffer_ascii = rw (w.read_buf) (zeros-IsAscii buffer_size);
    cells = ap length w.write_buf ∙ length-replicate {A = ℕ} write_size 0;
    whole = is.whole;
    message_ascii = is.ascii;
    arrives = is.arrives;
    short = is.short;
  }

  KeptIf-Waits :
      (o : Option Connection) → KeptIf true o → (conn : Connection) × (o ≡ some conn) × Waits conn
  KeptIf-Waits none k = absurd k
  KeptIf-Waits (some conn) (released, position, length, read_buf, write_buf) =
      (conn, refl, record { position = position; read_buf = read_buf; write_buf = write_buf })

  KeptIf-closed : (o : Option Connection) → KeptIf false o → o ≡ none
  KeptIf-closed none k = refl
  KeptIf-closed (some conn) k = absurd k

  -- What is left to serve behind a turn.
  serve_visits-cons :
      (v : Visit) (vs : List Visit) (h : Handler) {outcome : Outcome} {sent : List Bytes}
      → worker_process_request (v.before h) config v.stats fd v.turn ≡ some outcome
      → serve_visits vs outcome.handler ≡ some sent
      → serve_visits (v ∷ vs) h ≡ some (outcome.sent ∷ sent)
  unfolding serve_visits
  serve_visits-cons v vs h e f = rw (serve_visits, e) (rw f refl)

  -- A client sends messages one after the other, each in ASCII, of fewer than 4095 bytes, and whole in
  -- its turn when the one before has been answered; the connection waits for the first, and nothing but
  -- these turns touches it. With memory, and with enough answers of the socket in each turn, every turn
  -- returns. As long as the requests ask for the connection to be kept and the socket takes every page, the
  -- pages go out in the order of the messages, each whole and the answer to its own. Behind the first
  -- request that does not ask for it nothing more is sent; and where the socket fails before it has taken a
  -- page, by an error or a thousand and one answers in a row without room, a beginning of it goes out and
  -- nothing more.
  pub serve_visits-Talks :
      (vs : List Visit) (h : Handler) (conn : Connection)
      → All (IsVisit config fd) vs
      → entry h.connections fd ≡ some conn
      → Waits conn
      → (sent : List Bytes) × (serve_visits vs h ≡ some sent) × Talks vs h sent
  unfolding serve_visits
  serve_visits-Talks [] h conn are e w = ([], refl, tt)
  serve_visits-Talks (v ∷ vs) h conn are e w =
      let is = are.0 in
      let (request, back, outcome, done, served) =
        worker_process_request-Exchanged (v.before h) config v.stats fd v.turn v.message
          is.is_message is.given is.in_range is.progress is.enough conn (is.untouched h ∙ e)
          (Waits-Sends v conn is w) in
      elim served [
        | inr (breaks, count, few, text, gone) ↦ (
          outcome.sent ∷ silent vs,
          serve_visits-cons v vs h done (closed_silent vs outcome.handler are.1 gone),
          (request, back, outcome, done, inr (breaks, count, few, text, refl)),
        )
        | inl (works, text, kept) ↦ elim (Bool-cases request.keep_alive) [
          | inl stay ↦
              let (conn', e', w') =
                KeptIf-Waits (entry outcome.handler.connections fd) (rw stay at kept) in
              let (sent, later, talks) = serve_visits-Talks vs outcome.handler conn' are.1 e' w' in
              (
                outcome.sent ∷ sent,
                serve_visits-cons v vs h done later,
                (request, back, outcome, done, inl (works, text, inl (stay, talks))),
              )
          | inr leave ↦ (
            outcome.sent ∷ silent vs,
            serve_visits-cons v vs h done (
                closed_silent vs outcome.handler are.1
                  (KeptIf-closed (entry outcome.handler.connections fd) (rw leave at kept))),
            (request, back, outcome, done, inl (works, text, inr (leave, refl))),
          )
        ]
      ]
