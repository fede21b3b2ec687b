-- ===== src/Tests/Connections.antt =====
-- The theorems of the table of connections and of the worker, on concrete inputs.
use epoll_http_server.Prelude.{
  ℕ, zero, suc, ◌-◌, ◌≡◌, refl, true, false, List, [], ◌∷◌, ◌++◌, none, some, arith, Bytes, codes,
  All, length, take, replicate, length-replicate,
}
use epoll_http_server.Prelude.Int.{pos}
use epoll_http_server.CString.{starts, strstr}
use epoll_http_server.Connection.{Connection, buffer_size, write_size}
use epoll_http_server.Parser.{http_request_init}
use epoll_http_server.Response.Pages.{response}
use epoll_http_server.Epoll.Complete.{is_request_complete}
use epoll_http_server.Epoll.Complete.Ascii.{is_request_complete-ascii}
use epoll_http_server.Epoll.Table.{Handler, entry, new_connection, epoll_handler_check_timeout}
use epoll_http_server.Epoll.Table.Entries.{expire, entry-epoll_handler_check_timeout}
use epoll_http_server.Epoll.Worker.{
  ReadAnswer, bytes, again, WriteAnswer, wrote, Outcome, Turn, read_loop, deliver, answer,
}
use epoll_http_server.Epoll.Worker.Reads.{Buffered, stream, read_loop_text}
use epoll_http_server.Epoll.Worker.Writes.{MakesProgress}
use epoll_http_server.Epoll.Worker.Turns.{
  Delivered, deliver-Delivered, answer_unparsed, bad_request,
}
use epoll_http_server.Tests.{hello, config, stats, now}

-- A table with one client, at descriptor 7.
abbrev pub client : Connection
client = new_connection 7 100

abbrev pub table : Handler
table = record { connections = replicate 7 none ++ (some client ∷ replicate 1016 none); log = [] }

entry-epoll_handler_check_timeout_example :
    entry (epoll_handler_check_timeout 161 table).connections 7
    ≡ expire 161 (entry table.connections 7)
entry-epoll_handler_check_timeout_example =
    entry-epoll_handler_check_timeout 161 7 table (omega arith)

-- A request that announces a body of nine bytes, none of which is there.
abbrev no_body_yet : Bytes
no_body_yet = codes "POST / HTTP/1.1\r\nContent-Length: 9\r\n\r\n"

is_request_complete-ascii_example : is_request_complete no_body_yet 38 ≡ some (true, some (pos 0))
unfolding strstr starts
is_request_complete-ascii_example =
    is_request_complete-ascii no_body_yet (codes "\r\n\r\n") 38 (ground arith) refl (omega arith)

pub Buffered-client : Buffered [] client
Buffered-client = record {
  behind = replicate 4095 0;
  cells = refl;
  position = refl;
  size = length-replicate {A = ℕ} buffer_size 0;
}

abbrev arrivals : List ReadAnswer
arrivals = bytes (codes "GET /") ∷ bytes (codes " HTTP/1.1\r\n\r\n") ∷ again ∷ []

read_loop_text_example :
    Buffered ([] ++ take (4095 - length {A = ℕ} []) (stream arrivals)) (read_loop client arrivals).0
read_loop_text_example = read_loop_text arrivals [] client Buffered-client

-- A socket that takes a byte at a time.
abbrev slow : ℕ → List WriteAnswer
slow n = replicate n (wrote 1)

slow-MakesProgress : (n : ℕ) → All MakesProgress (slow n)
slow-MakesProgress zero = tt
slow-MakesProgress (suc n) = (omega arith, slow-MakesProgress n)

-- A client with two bytes to be sent.
abbrev answered : Connection
answered = record client { write_len = 2 }

deliver-Delivered_example :
    (outcome : Outcome) × (deliver table stats 7 answered (slow 3003) ≡ some outcome)
    × (outcome.stats ≡ stats)
    × Delivered 7 answered (slow 3003) outcome
deliver-Delivered_example =
    deliver-Delivered table stats 7 answered (slow 3003) (slow-MakesProgress 3003)
      (omega (arith, length-replicate 3003 (wrote 1))) (omega arith)

abbrev turn : Turn
turn = record {
  arrival = 100;
  reads = [];
  writes = slow 3003;
  alloc = λ n. true;
  files = hello;
  now = now;
}

answer_unparsed_example :
    (response (answer config stats turn now client (http_request_init, false)).0 ≡ bad_request)
    × ((answer config stats turn now client (http_request_init, false)).0.keep_alive
        ≡ client.keep_alive)
answer_unparsed_example =
    answer_unparsed config stats turn now client http_request_init
      (length-replicate {A = ℕ} write_size 0)
