-- ===== src/Tests/Exchange.antt =====
-- The theorems of a whole exchange, of the start, and of the files that are sent, on concrete inputs.
use epoll_http_server.Prelude.{
  Bytes, true, ℕ, zero, suc, ◌≡◌, refl, List, [], ◌∷◌, some, arith, codes, length-replicate,
  replicate, take, drop,
}
use epoll_http_server.Connection.{buffer_size, write_size}
use epoll_http_server.CString.{cstr}
use epoll_http_server.Mime.{mime_get_type}
use epoll_http_server.Parser.Message.{print}
use epoll_http_server.Response.{http_send_file, http_send_head}
use epoll_http_server.Request.{locate, serve_get, serve_head}
use epoll_http_server.Request.Same.{serve-Same}
use epoll_http_server.Epoll.Complete.Ascii.{IsAscii}
use epoll_http_server.Epoll.Table.{entry}
use epoll_http_server.Epoll.Worker.{ReadAnswer, bytes, again, Turn, worker_process_request}
use epoll_http_server.Epoll.Worker.Writes.{rounds}
use epoll_http_server.Epoll.Worker.Exchange.{Sends, Exchanged, worker_process_request-Exchanged}
use epoll_http_server.Epoll.Worker.Session.{
  Visit, IsVisit, Waits, serve_visits, Talks, serve_visits-Talks,
}
use epoll_http_server.Main.Start.{World, main}
use epoll_http_server.Main.Start.Ends.{EndsWell, main-EndsWell}
use epoll_http_server.Tests.{
  hello, config, stats, now, in_range, fresh, page_request, page_request-IsMessage,
}
use epoll_http_server.Tests.Connections.{client, table, Buffered-client}
use epoll_http_server.Tests.Pool.{first, one_task-IsQueue}
use epoll_http_server.Tests.Server.{
  slow_socket, slow_socket-MakesProgress, length-slow_socket, wakes-WorkersKeep, wakes_stop,
  not_added,
}

-- The request comes in two pieces.
abbrev pieces : List ReadAnswer
pieces = bytes (take 10 (print page_request)) ∷ bytes (drop 10 (print page_request)) ∷ again ∷ []

abbrev pub visit : Turn
visit = record {
  arrival = 100;
  reads = pieces;
  writes = slow_socket (rounds write_size 0 0);
  alloc = λ n. true;
  files = hello;
  now = now;
}

zeros-IsAscii : (n : ℕ) → IsAscii (replicate n 0)
zeros-IsAscii zero = tt
zeros-IsAscii (suc n) = (omega arith, zeros-IsAscii n)

visit-Sends : Sends visit client page_request
visit-Sends = record {
  text = [];
  buffered = Buffered-client;
  buffer_ascii = zeros-IsAscii buffer_size;
  cells = length-replicate {A = ℕ} write_size 0;
  whole = refl;
  message_ascii = ground arith;
  arrives = tt;
  short = omega arith;
}

table_client : entry table.connections 7 ≡ some client
unfolding entry
table_client = refl

worker_process_request-Exchanged_example :
    Exchanged table config stats 7 visit page_request
      (worker_process_request table config stats 7 visit)
worker_process_request-Exchanged_example =
    worker_process_request-Exchanged table config stats 7 visit page_request page_request-IsMessage
      (λ n. refl) in_range (slow_socket-MakesProgress (rounds write_size 0 0))
      (omega (arith, length-slow_socket (rounds write_size 0 0))) client table_client visit-Sends

serve-Same_example :
    (serve_get hello fresh (locate hello (codes "./www/a.html"))
      ≡ http_send_file hello fresh
          (cstr (codes "./www/a.html"))
          (mime_get_type (codes "./www/a.html")))
    × (serve_head hello fresh (locate hello (codes "./www/a.html"))
        ≡ http_send_head hello fresh
            (cstr (codes "./www/a.html"))
            (mime_get_type (codes "./www/a.html")))
serve-Same_example = serve-Same hello fresh (codes "./www/a.html") 5 5 refl refl

-- The directory is there, and the socket listens.
abbrev world : World
world = record {
  directory = λ path. some 3;
  socket = some 3;
  reused = true;
  bound = true;
  listening = true;
  worker = 1;
  fuel = 5;
  setup = not_added;
}

main-EndsWell_example : EndsWell (main (codes "-p" ∷ codes "9000" ∷ []) world)
main-EndsWell_example =
    main-EndsWell world (first ∷ []) one_task-IsQueue (omega arith) wakes-WorkersKeep wakes_stop
      (codes "-p" ∷ codes "9000" ∷ [])

-- The client asks for the same page twice.
abbrev page_visit : Visit
page_visit = record { before = λ h. h; turn = visit; stats = stats; message = page_request }

page_visit-IsVisit : IsVisit config 7 page_visit
page_visit-IsVisit = record {
  untouched = λ h. refl;
  is_message = page_request-IsMessage;
  ascii = ground arith;
  short = omega arith;
  whole = refl;
  arrives = tt;
  given = λ n. refl;
  in_range = in_range;
  progress = slow_socket-MakesProgress (rounds write_size 0 0);
  enough = omega (arith, length-slow_socket (rounds write_size 0 0));
}

client-Waits : Waits client
client-Waits = record { position = refl; read_buf = refl; write_buf = refl }

serve_visits-Talks_example :
    (sent : List Bytes) × (serve_visits config 7 (page_visit ∷ page_visit ∷ []) table ≡ some sent)
    × Talks config 7 (page_visit ∷ page_visit ∷ []) table sent
serve_visits-Talks_example =
    serve_visits-Talks config 7 (page_visit ∷ page_visit ∷ []) table client
      (page_visit-IsVisit, (page_visit-IsVisit, tt)) table_client client-Waits
