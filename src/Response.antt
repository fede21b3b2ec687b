-- ===== src/Response.antt =====
-- src/http_response.c: the head of a response, the responses with a file, and the error pages.
pub mod Length
pub mod Pages
use epoll_http_server.Prelude.{
  ℕ, ◌+◌, ◌-◌, ◌*◌, Bool, true, false, List, [], ◌∷◌, ◌++◌, Option, none, some, ltb, ◌==◌,
  if◌then◌else◌, Bytes, codes, length, replicate,
}
use epoll_http_server.CString.{snprintf, memcpy_at}
use epoll_http_server.CString.Decimal.{decimal}
use epoll_http_server.Connection.{Connection, write_size}
use epoll_http_server.Files.{Files, Event, opened, closed}

unfoldable pub get_status_description : ℕ → Bytes
get_status_description status =
    if status == 200
    then codes "OK"
    else if status == 400
    then codes "Bad Request"
    else if status == 403
    then codes "Forbidden"
    else if status == 404
    then codes "Not Found"
    else if status == 405
    then codes "Method Not Allowed"
    else if status == 413
    then codes "Payload Too Large"
    else if status == 500
    then codes "Internal Server Error"
    else if status == 501
    then codes "Not Implemented"
    else codes "Unknown"

-- `keep_alive ? "keep-alive" : "close"`
abbrev pub connection_word : Bool → Bytes
connection_word keep_alive = if keep_alive then codes "keep-alive" else codes "close"

-- The text of the format: status line, three headers and the empty line, with the length printed.
unfoldable pub header_text : Bytes → Bytes → Bytes → Bool → Bytes
header_text status content_type content_length keep_alive =
    codes "HTTP/1.1 "
    ++ (status
        ++ (codes "\r\nServer: SimpleHTTP/1.0\r\nContent-Type: "
            ++ (content_type
                ++ (codes "\r\nContent-Length: "
                    ++ (content_length
                        ++ (codes "\r\nConnection: "
                            ++ (connection_word keep_alive ++ codes "\r\n\r\n")))))))

-- `%d %s`
abbrev pub status_line : ℕ → Bytes
status_line status = decimal status ++ (32 ∷ get_status_description status)

-- The buffer with the head in it, and the length of the head.
unfoldable pub build_response_header : Bytes → ℕ → ℕ → Bytes → ℕ → Bool → Bytes × ℕ
unfolding header_text
build_response_header buffer size status content_type content_length keep_alive =
    snprintf buffer size
      (header_text (status_line status) content_type (decimal content_length) keep_alive)

-- The page of an error.
unfoldable pub error_page : ℕ → Bytes → Bytes
error_page status message =
    codes "<!DOCTYPE html>\n<html>\n<head><title>"
    ++ (decimal status
        ++ (32
            ∷ (message
                ++ (codes "</title></head>\n<body>\n<h1>"
                    ++ (decimal status
                        ++ (32
                            ∷ (message
                                ++ codes
                                    "</h1>\n<hr>\n<p>SimpleHTTP/1.0</p>\n</body>\n</html>\n")))))))

-- `char body[1024]`
abbrev pub page_size : ℕ
page_size = 1024

unfoldable pub http_send_error : Connection → ℕ → Bytes → Connection
unfolding build_response_header error_page get_status_description
http_send_error conn status message =
    let (body, body_len) = snprintf (replicate page_size 0) page_size (error_page status message) in
    let (head, header_len) =
      build_response_header conn.write_buf write_size status (codes "text/html") body_len false in
    record conn {
      write_buf = memcpy_at head header_len body body_len;
      write_pos = 0;
      write_len = header_len + body_len;
    }

-- The largest file that is sent: `BUFFER_SIZE * 4 - 512`.
abbrev pub max_file_size : ℕ
max_file_size = write_size - 512

-- The connection with its response, whether the result is 0, and what was done with descriptors.
pub record Sent : Type 0 where
  pub conn : Connection
  pub succeeded : Bool
  pub events : List Event

abbrev pub error_response : Connection → ℕ → Bytes → List Event → Sent
error_response conn status message events = record {
  conn = http_send_error conn status message;
  succeeded = false;
  events = events;
}

-- The end of sending a file: what `read` gave is written behind the head.
unfoldable pub finish_file : Connection → Bytes → ℕ → List Event → Option Bytes → Sent
unfolding http_send_error
finish_file conn head header_len events none =
    error_response (record conn { write_buf = head }) 500 (codes "Internal Server Error") events
finish_file conn head header_len events (some bytes) = record {
  conn = record conn {
    write_buf = memcpy_at head header_len bytes (length bytes);
    write_pos = 0;
    write_len = header_len + length bytes;
  };
  succeeded = true;
  events = events;
}

module _ (files : Files) where
  open files use {open_file, size_of, read_file}

  send_sized : Connection → Bytes → ℕ → Option ℕ → Sent
  unfolding finish_file http_send_error build_response_header
  send_sized conn content_type fd none =
      error_response conn 500 (codes "Internal Server Error") (opened fd ∷ closed fd ∷ [])
  send_sized conn content_type fd (some size) =
      if ltb max_file_size size
      then error_response conn 413 (codes "Payload Too Large") (opened fd ∷ closed fd ∷ [])
      else (let (head, header_len) =
            build_response_header conn.write_buf write_size 200 content_type size conn.keep_alive in
          finish_file conn head header_len (opened fd ∷ closed fd ∷ []) (read_file fd size))

  send_opened : Connection → Bytes → Option ℕ → Sent
  unfolding send_sized
  send_opened conn content_type none = error_response conn 403 (codes "Forbidden") []
  send_opened conn content_type (some fd) = send_sized conn content_type fd (size_of fd)

  unfoldable pub http_send_file : Connection → Bytes → Bytes → Sent
  unfolding send_opened
  http_send_file conn file_path content_type = send_opened conn content_type (open_file file_path)

  head_sized : Connection → Bytes → ℕ → Option ℕ → Sent
  unfolding http_send_error build_response_header
  head_sized conn content_type fd none =
      error_response conn 404 (codes "Not Found") (opened fd ∷ closed fd ∷ [])
  head_sized conn content_type fd (some size) =
      let (head, header_len) =
        build_response_header conn.write_buf write_size 200 content_type size conn.keep_alive in
      record {
        conn = record conn { write_buf = head; write_pos = 0; write_len = header_len };
        succeeded = true;
        events = opened fd ∷ closed fd ∷ [];
      }

  head_opened : Connection → Bytes → Option ℕ → Sent
  unfolding head_sized
  head_opened conn content_type none = error_response conn 404 (codes "Not Found") []
  head_opened conn content_type (some fd) = head_sized conn content_type fd (size_of fd)

  unfoldable pub http_send_head : Connection → Bytes → Bytes → Sent
  unfolding head_opened
  http_send_head conn file_path content_type = head_opened conn content_type (open_file file_path)
