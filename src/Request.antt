-- ===== src/Request.antt =====
-- src/http_request.c: the path of a request's file, the handlers of GET and HEAD, the status
-- page, and the dispatch on the method. Counters and start time are explicit state.
pub mod Path
pub mod Serve
mod Expected
pub mod Keeps
pub mod Same
pub mod Dispatch
use epoll_http_server.Prelude.{
  ℕ, ◌+◌, ◌-◌, ◌%◌, ◌^◌, Bool, true, false, ◌&&◌, ◌||◌, List, [], ◌∷◌, ◌++◌, Option, none, some,
  ltb, ◌==◌, if◌then◌else◌, Bytes, codes, length, drop, replicate, set,
}
use epoll_http_server.Prelude.Int.{ℤ, pos, negsuc, sub_ℕ}
use epoll_http_server.CString.{deref, cstr, strstr, strcmp_zero, strncpy, snprintf, memcpy_at}
use epoll_http_server.CString.Decimal.{decimal, decimal_int}
use epoll_http_server.Connection.{Connection, write_size}
use epoll_http_server.Files.{Files, Event, opened, closed}
use epoll_http_server.Mime.{mime_get_type}
use epoll_http_server.Parser
use epoll_http_server.Response.{
  header_text, http_send_error, max_file_size, Sent, error_response, finish_file,
}

-- `server_config_t`
pub record Config : Type 0 where
  pub port : ℕ
  pub web_root : Bytes
  pub max_connections : ℤ
  pub thread_count : ℤ

-- `char file_path[1024]`
abbrev pub path_size : ℕ
path_size = 1024

-- The URI behind its first slash.
abbrev pub relative : Bytes → Bytes
relative uri = if deref uri == b'/' then drop 1 uri else uri

-- What is put behind the root of the site.
abbrev pub tail_of : Bytes → Bytes
tail_of rel_path =
    if deref rel_path == 0 || strcmp_zero rel_path (codes "/")
    then codes "/index.html"
    else b'/' ∷ cstr rel_path

-- The path in its array; `none` for a URI that holds two dots in a row.
unfoldable pub build_file_path : Bytes → Bytes → Bytes → ℕ → Option Bytes
build_file_path web_root uri path size = elim (strstr uri (codes "..")) [
  | some dots ↦ none
  | none ↦ some (snprintf path size (cstr web_root ++ tail_of (relative uri))).0
]

-- `snprintf(index_path, …, "%s/index.html", file_path)`
abbrev pub index_of : Bytes → Bytes
index_of file_path =
    (snprintf (replicate path_size 0) path_size (cstr file_path ++ codes "/index.html")).0

-- `200 OK`
abbrev pub ok_line : Bytes
ok_line = codes "200 OK"

module _ (files : Files) where
  open files use {open_file, size_of, read_file}

  -- The descriptor and the size, and what was opened and closed.
  unfoldable pub get_file_size : Bytes → Option (ℕ × ℕ) × List Event
  get_file_size file_path = elim (open_file (cstr file_path)) [
    | none ↦ (none, [])
    | some fd ↦ elim (size_of fd) [
      | none ↦ (none, opened fd ∷ closed fd ∷ [])
      | some size ↦ (some (fd, size), opened fd ∷ [])
    ]
  ]

  -- The second try of a handler, with the index below the path.
  unfoldable pub locate_index : Bytes → List Event → Option (Bytes × ℕ × ℕ) × List Event
  unfolding get_file_size
  locate_index file_path before =
      let (found, events) = get_file_size (index_of file_path) in
      elim found [
        | none ↦ (none, before ++ events)
        | some (fd, size) ↦ (
          some (strncpy file_path (index_of file_path) (path_size - 1), fd, size),
          before ++ events,
        )
      ]

  -- The file of a path, or the index below it, as both handlers look for it.
  unfoldable pub locate : Bytes → Option (Bytes × ℕ × ℕ) × List Event
  unfolding get_file_size locate_index
  locate file_path =
      let (found, events) = get_file_size file_path in
      elim found [
        | none ↦ locate_index file_path events
        | some (fd, size) ↦ (some (file_path, fd, size), events)
      ]

  -- `handle_get` from the file on.
  unfoldable pub serve_get : Connection → Option (Bytes × ℕ × ℕ) × List Event → Sent
  unfolding finish_file http_send_error header_text mime_get_type
  serve_get conn (none, events) = error_response conn 404 (codes "Not Found") events
  serve_get conn (some (file_path, fd, size), events) =
      if ltb max_file_size size
      then error_response conn 413 (codes "Payload Too Large") (events ++ closed fd ∷ [])
      else (let text =
            header_text ok_line (mime_get_type file_path) (decimal size) conn.keep_alive in
          let (head, header_len) = snprintf conn.write_buf write_size text in
          finish_file conn head header_len (events ++ closed fd ∷ []) (read_file fd size))

  -- `handle_head` from the file on.
  unfoldable pub serve_head : Connection → Option (Bytes × ℕ × ℕ) × List Event → Sent
  unfolding http_send_error header_text mime_get_type
  serve_head conn (none, events) = error_response conn 404 (codes "Not Found") events
  serve_head conn (some (file_path, fd, size), events) =
      let text = header_text ok_line (mime_get_type file_path) (decimal size) conn.keep_alive in
      let (head, header_len) = snprintf conn.write_buf write_size text in
      record {
        conn = record conn { write_buf = head; write_pos = 0; write_len = header_len };
        succeeded = true;
        events = events ++ closed fd ∷ [];
      }

  -- Both handlers refuse a path with 403.
  unfoldable pub handle_file :
      (Connection → Option (Bytes × ℕ × ℕ) × List Event → Sent) → Bytes → Connection → Config → Sent
  unfolding build_file_path locate http_send_error
  handle_file serve uri conn config =
      elim (build_file_path config.web_root uri (replicate path_size 0) path_size) [
        | none ↦ error_response conn 403 (codes "Forbidden") []
        | some file_path ↦ serve conn (locate file_path)
      ]

  unfoldable pub handle_get : Bytes → Connection → Config → Sent
  unfolding handle_file serve_get
  handle_get = handle_file serve_get

  unfoldable pub handle_head : Bytes → Connection → Config → Sent
  unfolding handle_file serve_head
  handle_head = handle_file serve_head

-- `server_start_time` and the bits of `total_requests`.
pub record Stats : Type 0 where
  pub start_time : ℕ
  pub total_requests : ℕ

-- A `long` of 64 bits as it is printed.
abbrev pub long_of_bits : ℕ → ℤ
long_of_bits w = if ltb w (2 ^ 63) then pos w else negsuc (2 ^ 64 - 1 - w)

-- The clock as the handler reads it, twice, and the connections that it counts in between.
pub record Readings : Type 0 where
  pub first_time : ℕ
  pub second_time : ℕ
  pub connections : ℕ

-- What every request does first: the start time is set once, and the request is counted.
unfoldable pub count_request : Stats → Readings → Stats
count_request stats now = record {
  start_time = if stats.start_time == 0 then now.first_time else stats.start_time;
  total_requests = (stats.total_requests + 1) % 2 ^ 64;
}

unfoldable pub status_json : ℕ → ℤ → ℤ → ℤ → Bytes
status_json connections requests threads uptime =
    codes "{\"connections\":"
    ++ (decimal connections
        ++ (codes ",\"total_requests\":"
            ++ (decimal_int requests
                ++ (codes ",\"thread_pool_size\":"
                    ++ (decimal_int threads
                        ++ (codes ",\"uptime\":" ++ (decimal_int uptime ++ codes "}")))))))

-- `char json_body[256]`
abbrev pub json_size : ℕ
json_size = 256

-- The branch of `/status`.
unfoldable pub send_status : Stats → Readings → Connection → Config → Sent
unfolding status_json header_text
send_status stats now conn config =
    let uptime = sub_ℕ now.second_time stats.start_time in
    let json =
      status_json now.connections (long_of_bits stats.total_requests) config.thread_count uptime in
    let (json_body, body_len) = snprintf (replicate json_size 0) json_size json in
    let text = header_text ok_line (codes "application/json") (decimal body_len) conn.keep_alive in
    let (head, header_len) = snprintf conn.write_buf write_size text in
    record {
      conn = record conn {
        write_buf = memcpy_at head header_len json_body body_len;
        write_pos = 0;
        write_len = header_len + body_len;
      };
      succeeded = true;
      events = [];
    }

unfoldable pub http_handle_request :
    Files → Parser.Request → Connection → Config → Stats → Readings → Sent × Stats
unfolding count_request send_status handle_get handle_head http_send_error
http_handle_request files request conn config stats now =
    let stats' = count_request stats now in
    if strcmp_zero request.method (codes "GET") && strcmp_zero request.uri (codes "/status")
    then (send_status stats' now conn config, stats')
    else if strcmp_zero request.method (codes "GET")
    then (handle_get files request.uri conn config, stats')
    else if strcmp_zero request.method (codes "HEAD")
    then (handle_head files request.uri conn config, stats')
    else if strcmp_zero request.method (codes "POST")
    then (error_response conn 501 (codes "Not Implemented") [], stats')
    else (error_response conn 405 (codes "Method Not Allowed") [], stats')
