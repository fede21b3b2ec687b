-- ===== src/Tests.antt =====
-- The theorems of the parser and of the requests, on concrete inputs.
pub mod Connections
pub mod Pool
pub mod CommandLine
pub mod Server
pub mod Exchange
pub mod Threads
use epoll_http_server.Prelude.{
  ℕ, zero, suc, subst, ◌+◌, ◌%◌, ◌^◌, ap, ◌<◌, ◌≡◌, ◌≢◌, ◌⊎◌, inl, inr, refl, Bool, true, false,
  List, [], ◌∷◌, ◌++◌, Option, none, some, some_inj, arith, Bytes, codes, All, length, take,
  length-take, replicate, length-replicate, get_elem?,
}
use epoll_http_server.Prelude.Int.{pos}
use epoll_http_server.CString.{case_eq, cstr, isspace, strstr, strcmp_zero}
use epoll_http_server.Connection.{Connection, buffer_size, write_size}
use epoll_http_server.Files.{Files}
use epoll_http_server.Files.Balance.{IsBalanced}
use epoll_http_server.Mime.{Entry, mime_table, default_type, mime_get_type}
use epoll_http_server.Mime.Lookup.{mime_get_type_known, mime_get_type_unknown}
use epoll_http_server.Parser
use epoll_http_server.Parser.{
  http_request_init, parse_request_line, parse_header_line, empty_header, http_parse_request,
}
use epoll_http_server.Parser.Total.{http_parse_request_total}
use epoll_http_server.Parser.Sizes.{
  Fits, http_request_init-Fits, empty_header-HeaderFits, http_parse_request-Fits,
}
use epoll_http_server.Parser.RequestLine.{Parsed, parse_request_line_printed}
use epoll_http_server.Parser.HeaderLine.{HeaderIs, print_header, parse_header_line_printed}
use epoll_http_server.Parser.Headers.{Field, IsField, store_all}
use epoll_http_server.Parser.Stored.{Keeps, store_all-Keeps}
use epoll_http_server.Parser.RoundTrip.{http_parse_request_printed}
use epoll_http_server.Parser.Message.{Message, IsMessage, print}
use epoll_http_server.Response.{http_send_error}
use epoll_http_server.Response.Pages.{response, Answers, error_bytes, http_send_error-Answers}
use epoll_http_server.Request.{
  Config, Stats, Readings, path_size, relative, tail_of, build_file_path, locate, handle_get,
  handle_head, http_handle_request,
}
use epoll_http_server.Request.Path.{NoDots, GoesDown, build_file_path_safe}
use epoll_http_server.Request.Serve.{
  path_of, get_bytes, head_bytes, handle_get-Answers, handle_head-Answers, handle_file-IsBalanced,
}
use epoll_http_server.Request.Dispatch.{
  InRange, reply, http_handle_request-Answers, http_handle_request_counts,
}

-- A request for a page, with one header and a body.
abbrev pub host_field : Field
host_field = record { name = codes "Host"; value = codes "example.org" }

abbrev pub page_request : Message
page_request = record {
  method = codes "GET";
  uri = codes "/index.html";
  version = codes "HTTP/1.1";
  fields = host_field ∷ [];
  body = [];
}

host_field-IsField : IsField host_field
unfolding isspace
host_field-IsField = record {
  is_name = ground arith;
  name_no_cr = ground arith;
  is_value = ground arith;
  short = omega arith;
}

pub page_request-IsMessage : IsMessage page_request
unfolding isspace case_eq
page_request-IsMessage = record {
  method_word = ground arith;
  uri_word = ground arith;
  version_word = ground arith;
  line_no_cr = ground arith;
  line_short = omega arith;
  are_fields = (host_field-IsField, tt);
  length_fits = refl;
}

abbrev always : ℕ → Bool
always n = true

http_parse_request_total_example :
    (r : Parser.Request × Bool) × (http_parse_request always (codes "GET / HTTP/1.1") 14 ≡ some r)
http_parse_request_total_example = http_parse_request_total always (codes "GET / HTTP/1.1") 14

http_parse_request-Fits_example :
    Fits (http_parse_request_printed page_request always page_request-IsMessage (λ n. refl)).0
http_parse_request-Fits_example =
    http_parse_request-Fits always (print page_request) (length (print page_request))
      (http_parse_request_printed page_request always page_request-IsMessage (λ n. refl)).1

mime_get_type_known_example :
    mime_get_type (codes "/www/a" ++ codes ".css") ≡ codes "text/css; charset=utf-8"
unfolding mime_table
mime_get_type_known_example =
    mime_get_type_known (codes "/www/a") 2
      (record { extension = codes ".css"; content_type = codes "text/css; charset=utf-8" }) refl
      (λ h. cc) (ground arith)

-- A file of five bytes stands at every path.
abbrev hello : Files
hello = record {
  open_file = λ path. some 5;
  size_of = λ fd. some 5;
  read_file = λ fd n. some (take n (codes "hello"));
  read_at_most =
      λ fd n bytes h. omega (arith, ap length (some_inj h), length-take n (codes "hello"));
  size_is_long = λ fd n h. omega (arith, some_inj h);
}

abbrev config : Config
config = record {
  port = 8080;
  web_root = codes "./www";
  max_connections = pos 100;
  thread_count = pos 4;
}

abbrev pub fresh : Connection
fresh = record {
  in_use = true;
  fd = 7;
  read_buf = replicate buffer_size 0;
  read_pos = 0;
  write_buf = replicate write_size 0;
  write_pos = 0;
  write_len = 0;
  last_active = 10;
  keep_alive = true;
}

fresh_size : length fresh.write_buf ≡ write_size
fresh_size = length-replicate {A = ℕ} write_size 0

abbrev stats : Stats
stats = record { start_time = 100; total_requests = 3 }

abbrev now : Readings
now = record { first_time = 200; second_time = 201; connections = 2 }

pub in_range : InRange stats now config
in_range = record {
  connections = omega arith;
  threads = omega arith;
  start_time = omega arith;
  first_time = omega arith;
  second_time = omega arith;
  requests = omega arith;
}

abbrev get_page : Parser.Request
get_page = record http_request_init {
  method = codes "GET";
  uri = codes "/index.html";
  keep_alive = true;
}

http_handle_request-Answers_example :
    Answers
      (http_handle_request hello get_page fresh config stats now).0.conn
      (reply hello get_page config stats now true)
http_handle_request-Answers_example =
    http_handle_request-Answers hello get_page config stats now fresh fresh_size in_range

http_handle_request_counts_example :
    let after = (http_handle_request hello get_page fresh config stats now).1 in
    (after.total_requests ≡ (stats.total_requests + 1) % 2 ^ 64)
    × (stats.start_time ≢ 0 → after.start_time ≡ stats.start_time)
    × (stats.start_time ≡ 0 → after.start_time ≡ now.first_time)
http_handle_request_counts_example =
    http_handle_request_counts hello get_page config stats now fresh

handle_file-IsBalanced_example :
    IsBalanced (handle_get hello (codes "/a.html") fresh config).events
    × IsBalanced (handle_head hello (codes "/a.html") fresh config).events
handle_file-IsBalanced_example = handle_file-IsBalanced hello (codes "/a.html") fresh config

build_file_path_safe_example :
    let uri = codes "/../etc/passwd" in
    ((build_file_path (codes "./www") uri (replicate path_size 0) path_size ≡ none)
      × (strstr uri (codes "..") ≢ none))
    ⊎ ((path : Bytes) × (build_file_path (codes "./www") uri (replicate path_size 0) path_size
          ≡ some path)
        × NoDots uri
        × (cstr path ≡ take 1023 (cstr (codes "./www") ++ tail_of (relative uri)))
        × GoesDown (tail_of (relative uri)))
build_file_path_safe_example = build_file_path_safe (codes "./www") (codes "/../etc/passwd")
