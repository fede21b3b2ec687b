-- ===== src/Request/Dispatch.antt =====
-- `http_handle_request`: the status page, the dispatch on the method, and the counters.
use epoll_http_server.Prelude.{
  ℕ, ◌+◌, ◌^◌, ◌%◌, ◌≤◌, ◌<◌, ◌≡◌, ◌≢◌, refl, ap, ◌∙◌, Bool, ◌&&◌, inl, inr, ◌++◌, Option, none,
  some, subst, arith, Bytes, codes, length, length-append, take, replicate, if◌then◌else◌,
  Bool-cases,
}
use mathlib.Core.Path.{ap₂}
use epoll_http_server.Prelude.Int.{ℤ, sub_ℕ}
use epoll_http_server.CString.{strcmp_zero, snprintf}
use epoll_http_server.CString.Copy.{
  length-snprintf, snprintf_whole, snprintf_result, length-memcpy_at,
}
use epoll_http_server.CString.Decimal.{
  decimal, decimal_int, magnitude, length-decimal, length-decimal_int,
}
use epoll_http_server.Connection.{Connection, write_size}
use epoll_http_server.Files.{Files}
use epoll_http_server.Parser
use epoll_http_server.Response.{header_text}
use epoll_http_server.Response.Length.{length-header_text-le}
use epoll_http_server.Response.Pages.{
  Answers, error_bytes, head_and_body, head_and_body_length, http_send_error-Answers,
}
use epoll_http_server.Request.Expected.{
  status_bytes, status_of, error_of, get_of, head_of, status_bytes-same, get_bytes-same,
  head_bytes-same, error_bytes-403, error_bytes-405, error_bytes-501,
}
use epoll_http_server.Request.Serve.{
  path_of, get_bytes, head_bytes, handle_get-Answers, handle_head-Answers,
}
use epoll_http_server.Request.{
  Config, Stats, Readings, ok_line, json_size, locate, long_of_bits, count_request, status_json,
  send_status, http_handle_request,
}

-- The values that the status page prints are those of their C types.
pub record InRange (stats : Stats) (now : Readings) (config : Config) : Type 0 where
  pub connections : now.connections ≤ 1024
  pub threads : magnitude config.thread_count ≤ 2 ^ 31
  pub start_time : stats.start_time < 2 ^ 63
  pub first_time : now.first_time < 2 ^ 63
  pub second_time : now.second_time < 2 ^ 63
  pub requests : stats.total_requests < 2 ^ 64

magnitude-sub_ℕ-lt : (a b k : ℕ) → a < k → b < k → magnitude (sub_ℕ a b) < k
magnitude-sub_ℕ-lt a b k h l = ground arith

magnitude-long-le : (w : ℕ) → w < 2 ^ 64 → magnitude (long_of_bits w) ≤ 2 ^ 63
magnitude-long-le w h = ground arith

length-status_json-le :
    (connections : ℕ) (requests threads uptime : ℤ)
    → connections ≤ 1024
    → magnitude requests ≤ 2 ^ 63
    → magnitude threads ≤ 2 ^ 31
    → magnitude uptime ≤ 2 ^ 63
    → length (status_json connections requests threads uptime) ≤ 140
unfolding status_json
length-status_json-le connections requests threads uptime c r t u =
    let e = decimal_int uptime ++ codes "}" in
    let d = decimal_int threads ++ (codes ",\"uptime\":" ++ e) in
    let f = decimal_int requests ++ (codes ",\"thread_pool_size\":" ++ d) in
    omega (
      arith,
      length-append (decimal_int uptime) (codes "}"),
      length-append (decimal_int threads) (codes ",\"uptime\":" ++ e),
      length-append (decimal_int requests) (codes ",\"thread_pool_size\":" ++ d),
      length-append (decimal connections) (codes ",\"total_requests\":" ++ f),
      length-decimal 3 connections (omega arith),
      length-decimal_int 18 requests (omega arith),
      length-decimal_int 9 threads (omega arith),
      length-decimal_int 18 uptime (omega arith),
    )

send_status-Answers :
    (stats : Stats) (now : Readings) (conn : Connection) (config : Config)
    → length conn.write_buf ≡ write_size
    → InRange stats now config
    → Answers
        (send_status stats now conn config).conn
        (status_bytes stats now config conn.keep_alive)
unfolding send_status
send_status-Answers stats now conn config cells r =
    let uptime = sub_ℕ now.second_time stats.start_time in
    let json =
      status_json now.connections (long_of_bits stats.total_requests) config.thread_count uptime in
    let zeros : length {A = ℕ} (replicate json_size 0) ≡ json_size = refl in
    let (body, body_len) = snprintf (replicate json_size 0) json_size json in
    let u : magnitude uptime < 2 ^ 63 =
      magnitude-sub_ℕ-lt now.second_time stats.start_time (2 ^ 63) r.second_time r.start_time in
    let json_len : length json ≤ 140 =
      length-status_json-le now.connections (long_of_bits stats.total_requests) config.thread_count
        uptime r.connections (magnitude-long-le stats.total_requests r.requests) r.threads
        (omega arith) in
    let len : body_len ≡ length json = snprintf_result (replicate json_size 0) json_size json in
    let room : length body ≡ json_size =
      length-snprintf (replicate json_size 0) json_size json ∙ zeros in
    let whole : take (length json) body ≡ json =
      snprintf_whole (replicate json_size 0) json_size json (omega arith) (omega arith) in
    let text = header_text ok_line (codes "application/json") (decimal body_len) conn.keep_alive in
    let head_len =
      length-header_text-le ok_line (codes "application/json") (decimal body_len) conn.keep_alive in
    let digits = length-decimal 3 body_len (omega arith) in
    let same =
      ap₂
        (λ (n : ℕ) (b : Bytes).
          header_text ok_line (codes "application/json") (decimal n) conn.keep_alive ++ b)
        len (ap (λ (k : ℕ). take k body) len ∙ whole) in
    (
      head_and_body conn.write_buf text body body_len cells (omega arith) (omega arith)
            (omega arith)
          ∙ same,
      length-memcpy_at _ _ body body_len ∙ length-snprintf conn.write_buf write_size text ∙ cells,
      head_and_body_length conn.write_buf text body body_len (omega arith) ∙ ap length same,
    )

count_request-InRange :
    (stats : Stats) (now : Readings) (config : Config)
    → InRange stats now config
    → InRange (count_request stats now) now config
unfolding count_request
count_request-InRange stats now config r = record {
  connections = r.connections;
  threads = r.threads;
  start_time = ground arith;
  first_time = r.first_time;
  second_time = r.second_time;
  requests = omega arith;
}

module _ (files : Files) (request : Parser.Request) (config : Config) (stats : Stats)
    (now : Readings) where
  -- What the code writes, by the method and the URI.
  abbrev written : Bool → Bytes
  written keep_alive =
      if strcmp_zero request.method (codes "GET") && strcmp_zero request.uri (codes "/status")
      then status_bytes (count_request stats now) now config keep_alive
      else if strcmp_zero request.method (codes "GET")
      then (elim (path_of files config request.uri) [
        | none ↦ error_bytes 403 (codes "Forbidden")
        | some file_path ↦ get_bytes files keep_alive (locate files file_path).0
      ])
      else if strcmp_zero request.method (codes "HEAD")
      then (elim (path_of files config request.uri) [
        | none ↦ error_bytes 403 (codes "Forbidden")
        | some file_path ↦ head_bytes files keep_alive (locate files file_path).0
      ])
      else if strcmp_zero request.method (codes "POST")
      then error_bytes 501 (codes "Not Implemented")
      else error_bytes 405 (codes "Method Not Allowed")

  http_handle_request-written :
      (conn : Connection)
      → length conn.write_buf ≡ write_size
      → InRange stats now config
      → Answers
          (http_handle_request files request conn config stats now).0.conn
          (written conn.keep_alive)
  unfolding http_handle_request
  http_handle_request-written conn cells r =
      elim (Bool-cases
        (strcmp_zero request.method (codes "GET") && strcmp_zero request.uri (codes "/status"))) [
          | inl status ↦
              rw (status, http_handle_request)
                (send_status-Answers (count_request stats now) now conn config cells
                  (count_request-InRange stats now config r))
          | inr n₁ ↦ elim (Bool-cases (strcmp_zero request.method (codes "GET"))) [
            | inl get ↦
                rw (n₁, get, http_handle_request)
                  (handle_get-Answers files request.uri conn config cells)
            | inr n₂ ↦ elim (Bool-cases (strcmp_zero request.method (codes "HEAD"))) [
              | inl head ↦
                  rw (n₁, n₂, head, http_handle_request)
                    (handle_head-Answers files request.uri conn config cells)
              | inr n₃ ↦ elim (Bool-cases (strcmp_zero request.method (codes "POST"))) [
                | inl post ↦
                    rw (n₁, n₂, n₃, post, http_handle_request)
                      (http_send_error-Answers conn 501 (codes "Not Implemented") cells
                        (omega arith) (omega arith))
                | inr n₄ ↦
                    rw (n₁, n₂, n₃, n₄, http_handle_request)
                      (http_send_error-Answers conn 405 (codes "Method Not Allowed") cells
                        (omega arith) (omega arith))
              ]
            ]
          ]
        ]

  -- What the client is told, by the method and the URI.
  abbrev pub reply : Bool → Bytes
  reply keep_alive =
      if strcmp_zero request.method (codes "GET") && strcmp_zero request.uri (codes "/status")
      then status_of stats now config keep_alive
      else if strcmp_zero request.method (codes "GET")
      then (elim (path_of files config request.uri) [
        | none ↦ error_of (codes "403 Forbidden")
        | some file_path ↦ get_of files keep_alive (locate files file_path).0
      ])
      else if strcmp_zero request.method (codes "HEAD")
      then (elim (path_of files config request.uri) [
        | none ↦ error_of (codes "403 Forbidden")
        | some file_path ↦ head_of keep_alive (locate files file_path).0
      ])
      else if strcmp_zero request.method (codes "POST")
      then error_of (codes "501 Not Implemented")
      else error_of (codes "405 Method Not Allowed")

  by_path :
      {f g : Bytes → Bytes} (o : Option Bytes)
      → ((file_path : Bytes) → f file_path ≡ g file_path)
      → (elim o as (λ _. Bytes) [
        | none ↦ error_bytes 403 (codes "Forbidden")
        | some file_path ↦ f file_path
      ])
        ≡ (elim o as (λ _. Bytes) [
          | none ↦ error_of (codes "403 Forbidden")
          | some file_path ↦ g file_path
        ])
  by_path none same = error_bytes-403
  by_path (some file_path) same = same file_path

  written-reply : (keep_alive : Bool) → written keep_alive ≡ reply keep_alive
  written-reply keep_alive =
      elim (Bool-cases
        (strcmp_zero request.method (codes "GET") && strcmp_zero request.uri (codes "/status"))) [
          | inl status ↦ rw status (status_bytes-same stats now config keep_alive)
          | inr n₁ ↦ elim (Bool-cases (strcmp_zero request.method (codes "GET"))) [
            | inl get ↦
                rw (n₁, get)
                  (by_path (path_of files config request.uri)
                    (λ p. get_bytes-same files keep_alive (locate files p).0))
            | inr n₂ ↦ elim (Bool-cases (strcmp_zero request.method (codes "HEAD"))) [
              | inl head ↦
                  rw (n₁, n₂, head)
                    (by_path (path_of files config request.uri)
                      (λ p. head_bytes-same files keep_alive (locate files p).0))
              | inr n₃ ↦ elim (Bool-cases (strcmp_zero request.method (codes "POST"))) [
                | inl post ↦ rw (n₁, n₂, n₃, post) error_bytes-501
                | inr n₄ ↦ rw (n₁, n₂, n₃, n₄) error_bytes-405
              ]
            ]
          ]
        ]

  -- Every request is answered in full, whatever its method and its URI, with values that fit their C
  -- types: the bytes to send are those of one page, written out line by line, and the buffer keeps its
  -- size. GET /status gets the counters, this request among them. GET gets 403 where build_file_path
  -- refuses the URI, 404 where no file is found for the path it makes, 413 above 15872 bytes, 500 where
  -- the file cannot be read, and else the bytes read behind lines that say its type, its size and what
  -- becomes of the connection; HEAD gets the same lines with no body, 403 or 404. POST gets 501 and every
  -- other method 405. Every page but those with 200 says `Connection: close`.
  pub http_handle_request-Answers :
      (conn : Connection)
      → length conn.write_buf ≡ write_size
      → InRange stats now config
      → Answers
          (http_handle_request files request conn config stats now).0.conn
          (reply conn.keep_alive)
  http_handle_request-Answers conn cells r =
      subst (Answers (http_handle_request files request conn config stats now).0.conn)
        (written-reply conn.keep_alive) (http_handle_request-written conn cells r)

  -- Every request is counted once, and the start time is set by the first request and kept.
  pub http_handle_request_counts :
      (conn : Connection)
      → let after = (http_handle_request files request conn config stats now).1 in
        (after.total_requests ≡ (stats.total_requests + 1) % 2 ^ 64)
        × (stats.start_time ≢ 0 → after.start_time ≡ stats.start_time)
        × (stats.start_time ≡ 0 → after.start_time ≡ now.first_time)
  unfolding http_handle_request count_request
  http_handle_request_counts conn = ground arith
