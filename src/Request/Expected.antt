-- ===== src/Request/Expected.antt =====
-- The pages that a client expects, line by line as HTTP has them, and that the pages of the handlers are
-- these.
use epoll_http_server.Prelude.{
  ℕ, ◌+◌, ◌^◌, ◌%◌, ◌≡◌, refl, Bool, true, false, [], ◌∷◌, ◌++◌, Option, none, some, ltb, ◌==◌,
  if◌then◌else◌, Bytes, codes, length, ap, sym, ◌∙◌, append_assoc, append-nil, inl, inr, Bool-cases,
}
use epoll_http_server.Prelude.Int.{sub_ℕ}
use epoll_http_server.CString.Decimal.{decimal, decimal_int}
use epoll_http_server.Files.{Files}
use epoll_http_server.Mime.{mime_get_type}
use epoll_http_server.Response.{header_text, error_page, get_status_description}
use epoll_http_server.Response.Pages.{error_bytes, finished_bytes}
use epoll_http_server.Request.{
  Config, Stats, Readings, long_of_bits, count_request, status_json, ok_line,
}
use epoll_http_server.Request.Serve.{file_head, get_bytes, head_bytes}

-- A line with its end, and what follows.
abbrev pub line : Bytes → Bytes → Bytes
line text rest = text ++ (13 ∷ 10 ∷ rest)

-- A response: the status line, four headers, the empty line, and the body.
abbrev pub page : Bytes → Bytes → ℕ → Bool → Bytes → Bytes
page status content_type size keep_alive body = line (codes "HTTP/1.1 " ++ status) (
    line (codes "Server: SimpleHTTP/1.0") (
      line (codes "Content-Type: " ++ content_type) (
        line (codes "Content-Length: " ++ decimal size) (
          line (if keep_alive then codes "Connection: keep-alive" else codes "Connection: close")
            (line [] body)))))

-- An error: its title on an HTML page, and the connection is closed.
abbrev pub error_of : Bytes → Bytes
error_of title =
    let html =
      codes "<!DOCTYPE html>\n<html>\n<head><title>"
      ++ (title
          ++ (codes "</title></head>\n<body>\n<h1>"
              ++ (title ++ codes "</h1>\n<hr>\n<p>SimpleHTTP/1.0</p>\n</body>\n</html>\n"))) in
    page title (codes "text/html") (length html) false html

-- The counters, this request among them, and the seconds since the first request.
abbrev pub status_of : Stats → Readings → Config → Bool → Bytes
status_of stats now config keep_alive =
    let started = if stats.start_time == 0 then now.first_time else stats.start_time in
    let json =
      codes "{\"connections\":"
      ++ (decimal now.connections
          ++ (codes ",\"total_requests\":"
              ++ (decimal_int (long_of_bits ((stats.total_requests + 1) % 2 ^ 64))
                  ++ (codes ",\"thread_pool_size\":"
                      ++ (decimal_int config.thread_count
                          ++ (codes ",\"uptime\":"
                              ++ (decimal_int (sub_ℕ now.second_time started) ++ codes "}"))))))) in
    page (codes "200 OK") (codes "application/json") (length json) keep_alive json

-- A file that was found, for GET: 413 above 15872 bytes, 500 where it cannot be read.
abbrev pub get_of : Files → Bool → Option (Bytes × ℕ × ℕ) → Bytes
get_of files keep_alive none = error_of (codes "404 Not Found")
get_of files keep_alive (some (file_path, fd, size)) =
    if ltb 15872 size
    then error_of (codes "413 Payload Too Large")
    else (elim (files.read_file fd size) [
      | none ↦ error_of (codes "500 Internal Server Error")
      | some bytes ↦ page (codes "200 OK") (mime_get_type file_path) size keep_alive bytes
    ])

-- And for HEAD: the same lines, with no body.
abbrev pub head_of : Bool → Option (Bytes × ℕ × ℕ) → Bytes
head_of keep_alive none = error_of (codes "404 Not Found")
head_of keep_alive (some (file_path, fd, size)) =
    page (codes "200 OK") (mime_get_type file_path) size keep_alive []

-- The page that `/status` shows: its head and the counters.
abbrev pub status_bytes : Stats → Readings → Config → Bool → Bytes
status_bytes stats now config keep_alive =
    let json =
      status_json now.connections (long_of_bits stats.total_requests) config.thread_count
        (sub_ℕ now.second_time stats.start_time) in
    header_text ok_line (codes "application/json") (decimal (length json)) keep_alive ++ json

-- The pages of the handlers are these.
header_text-page :
    (status content_type : Bytes) (size : ℕ) (keep_alive : Bool) (body : Bytes)
    → header_text status content_type (decimal size) keep_alive ++ body
      ≡ page status content_type size keep_alive body
unfolding header_text
header_text-page status content_type size true body =
    ap (λ (t : Bytes). codes "HTTP/1.1 " ++ t)
      (append_assoc status _ body
        ∙ ap (λ (t : Bytes). status ++ (codes "\r\nServer: SimpleHTTP/1.0\r\nContent-Type: " ++ t))
            (append_assoc content_type _ body
              ∙ ap (λ (t : Bytes). content_type ++ (codes "\r\nContent-Length: " ++ t))
                  (append_assoc (decimal size) _ body)))
header_text-page status content_type size false body =
    ap (λ (t : Bytes). codes "HTTP/1.1 " ++ t)
      (append_assoc status _ body
        ∙ ap (λ (t : Bytes). status ++ (codes "\r\nServer: SimpleHTTP/1.0\r\nContent-Type: " ++ t))
            (append_assoc content_type _ body
              ∙ ap (λ (t : Bytes). content_type ++ (codes "\r\nContent-Length: " ++ t))
                  (append_assoc (decimal size) _ body)))

pub error_bytes-403 : error_bytes 403 (codes "Forbidden") ≡ error_of (codes "403 Forbidden")
unfolding header_text error_page get_status_description decimal
error_bytes-403 = refl

error_bytes-404 : error_bytes 404 (codes "Not Found") ≡ error_of (codes "404 Not Found")
unfolding header_text error_page get_status_description decimal
error_bytes-404 = refl

pub error_bytes-405 :
    error_bytes 405 (codes "Method Not Allowed") ≡ error_of (codes "405 Method Not Allowed")
unfolding header_text error_page get_status_description decimal
error_bytes-405 = refl

error_bytes-413 :
    error_bytes 413 (codes "Payload Too Large") ≡ error_of (codes "413 Payload Too Large")
unfolding header_text error_page get_status_description decimal
error_bytes-413 = refl

error_bytes-500 :
    error_bytes 500 (codes "Internal Server Error") ≡ error_of (codes "500 Internal Server Error")
unfolding header_text error_page get_status_description decimal
error_bytes-500 = refl

pub error_bytes-501 :
    error_bytes 501 (codes "Not Implemented") ≡ error_of (codes "501 Not Implemented")
unfolding header_text error_page get_status_description decimal
error_bytes-501 = refl

pub status_bytes-same :
    (stats : Stats) (now : Readings) (config : Config) (keep_alive : Bool)
    → status_bytes (count_request stats now) now config keep_alive
      ≡ status_of stats now config keep_alive
unfolding count_request status_json
status_bytes-same stats now config keep_alive = header_text-page _ _ _ keep_alive _

finished_bytes-same :
    (file_path : Bytes) (size : ℕ) (keep_alive : Bool) (got : Option Bytes)
    → finished_bytes (file_head file_path size keep_alive) got ≡ (elim got [
      | none ↦ error_of (codes "500 Internal Server Error")
      | some bytes ↦ page (codes "200 OK") (mime_get_type file_path) size keep_alive bytes
    ])
finished_bytes-same file_path size keep_alive none = error_bytes-500
finished_bytes-same file_path size keep_alive (some bytes) =
    header_text-page ok_line (mime_get_type file_path) size keep_alive bytes

pub get_bytes-same :
    (files : Files) (keep_alive : Bool) (found : Option (Bytes × ℕ × ℕ))
    → get_bytes files keep_alive found ≡ get_of files keep_alive found
get_bytes-same files keep_alive none = error_bytes-404
get_bytes-same files keep_alive (some (file_path, fd, size)) = elim (Bool-cases (ltb 15872 size)) [
  | inl large ↦ rw large error_bytes-413
  | inr small ↦ rw small (finished_bytes-same file_path size keep_alive (files.read_file fd size))
]

pub head_bytes-same :
    (files : Files) (keep_alive : Bool) (found : Option (Bytes × ℕ × ℕ))
    → head_bytes files keep_alive found ≡ head_of keep_alive found
head_bytes-same files keep_alive none = error_bytes-404
head_bytes-same files keep_alive (some (file_path, fd, size)) =
    sym (append-nil _) ∙ header_text-page ok_line (mime_get_type file_path) size keep_alive []
