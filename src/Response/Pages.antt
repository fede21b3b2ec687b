-- ===== src/Response/Pages.antt =====
-- What stands in the buffer after the handlers of src/http_response.c: the response whole, with
-- nothing written behind the end of the buffer.
use epoll_http_server.Prelude.{
  ℕ, ◌+◌, ◌^◌, ◌≤◌, ◌<◌, ◌≡◌, refl, ap, ◌∙◌, Bool, false, List, ◌++◌, Option, none, some, arith,
  Bytes, codes, length, length-append, length-take, take, take_all, replicate, if◌then◌else◌, ltb,
}
use mathlib.Core.Path.{ap₂}
use epoll_http_server.CString.{snprintf, memcpy_at}
use epoll_http_server.CString.Copy.{
  length-snprintf, snprintf_whole, snprintf_result, take-memcpy_at_cells, length-memcpy_at,
}
use epoll_http_server.CString.Decimal.{decimal, length-decimal}
use epoll_http_server.Connection.{Connection, write_size}
use epoll_http_server.Files.{Files, Event}
use epoll_http_server.Response.Length.{
  length-header_text-le, length-status_line-le, length-error_page-le,
}
use epoll_http_server.Response.{
  header_text, status_line, build_response_header, error_page, page_size, http_send_error,
  max_file_size, finish_file,
}

-- The bytes that the worker will send.
abbrev pub response : Connection → Bytes
response conn = take conn.write_len conn.write_buf

-- A text printed into a buffer with bytes copied behind it.
pub head_and_body :
    (buffer text bytes : Bytes) (n : ℕ)
    → length buffer ≡ write_size
    → length text + n ≤ write_size
    → length text < write_size
    → n ≤ length bytes
    → let (head, header_len) = snprintf buffer write_size text in
      take (header_len + n) (memcpy_at head header_len bytes n) ≡ text ++ take n bytes
head_and_body buffer text bytes n size fits short enough =
    let (head, header_len) = snprintf buffer write_size text in
    let len : header_len ≡ length text = snprintf_result buffer write_size text in
    let cells : length head ≡ write_size = length-snprintf buffer write_size text ∙ size in
    let whole : take (length text) head ≡ text =
      snprintf_whole buffer write_size text (omega arith) short in
    take-memcpy_at_cells head header_len bytes n (omega arith) enough
    ∙ ap (λ (t : Bytes). t ++ take n bytes) (ap (λ (k : ℕ). take k head) len ∙ whole)

-- The length of that text is the one announced, and it fits the buffer.
pub head_and_body_length :
    (buffer text bytes : Bytes) (n : ℕ)
    → n ≤ length bytes
    → (snprintf buffer write_size text).1 + n ≡ length (text ++ take n bytes)
head_and_body_length buffer text bytes n enough = omega (
  arith,
  snprintf_result buffer write_size text,
  length-append text (take n bytes),
  length-take n bytes,
)

-- What a handler leaves to send: the bytes, and their number; and the buffer keeps its size.
abbrev pub Answers : Connection → Bytes → Type 0
Answers conn bytes =
    (response conn ≡ bytes) × (length conn.write_buf ≡ write_size) × (conn.write_len ≡ length bytes)

-- An error response: its head, which announces the page and a close, and the page.
abbrev pub error_bytes : ℕ → Bytes → Bytes
error_bytes status message =
    header_text (status_line status) (codes "text/html")
      (decimal (length (error_page status message))) false
    ++ error_page status message

-- For a status below 1000 and a message of at most 400 bytes, the buffer holds the error response and
-- keeps its size, and the length is that of the response.
pub http_send_error-Answers :
    (conn : Connection) (status : ℕ) (message : Bytes)
    → length conn.write_buf ≡ write_size
    → status < 1000
    → length message ≤ 400
    → Answers (http_send_error conn status message) (error_bytes status message)
unfolding http_send_error build_response_header
http_send_error-Answers conn status message size small short =
    let page = error_page status message in
    let zeros : length {A = ℕ} (replicate page_size 0) ≡ page_size = refl in
    let (body, body_len) = snprintf (replicate page_size 0) page_size page in
    let page_len = length-error_page-le status message small in
    let len : body_len ≡ length page = snprintf_result (replicate page_size 0) page_size page in
    let cells : length body ≡ page_size =
      length-snprintf (replicate page_size 0) page_size page ∙ zeros in
    let text = header_text (status_line status) (codes "text/html") (decimal body_len) false in
    let head_len =
      length-header_text-le (status_line status) (codes "text/html") (decimal body_len) false in
    let digits = length-decimal 3 body_len (omega arith) in
    let line_len = length-status_line-le status small in
    let whole : take (length page) body ≡ page =
      snprintf_whole (replicate page_size 0) page_size page (omega arith) (omega arith) in
    let joined =
      head_and_body conn.write_buf text body body_len size (omega arith) (omega arith)
        (omega arith) in
    let same =
      ap₂
        (λ (n : ℕ) (b : Bytes).
          header_text (status_line status) (codes "text/html") (decimal n) false ++ b)
        len (ap (λ (k : ℕ). take k body) len ∙ whole) in
    (
      joined ∙ same,
      length-memcpy_at _ _ body body_len ∙ length-snprintf conn.write_buf write_size text ∙ size,
      head_and_body_length conn.write_buf text body body_len (omega arith) ∙ ap length same,
    )

-- What `http_send_file` answers: a page for each call that fails and for a file that is too large,
-- and otherwise the head, which announces the size, with the bytes that were read.
abbrev pub file_bytes : Files → Bytes → Bytes → Bool → Bytes
file_bytes files file_path content_type keep_alive = elim (files.open_file file_path) [
  | none ↦ error_bytes 403 (codes "Forbidden")
  | some fd ↦ elim (files.size_of fd) [
    | none ↦ error_bytes 500 (codes "Internal Server Error")
    | some size ↦
        if ltb max_file_size size
        then error_bytes 413 (codes "Payload Too Large")
        else elim (files.read_file fd size) [
          | none ↦ error_bytes 500 (codes "Internal Server Error")
          | some bytes ↦
              header_text (status_line 200) content_type (decimal size) keep_alive ++ bytes
        ]
  ]
]

-- The head of a file that is not too large, with the file behind it, fits the buffer.
pub head_fits :
    (content_type : Bytes) (size : ℕ) (keep_alive : Bool)
    → length content_type ≤ 300
    → size ≤ max_file_size
    → length (header_text (status_line 200) content_type (decimal size) keep_alive) + size
      ≤ write_size
head_fits content_type size keep_alive short small = omega (
  arith,
  length-header_text-le (status_line 200) content_type (decimal size) keep_alive,
  length-status_line-le 200 (omega arith),
  length-decimal 4 size (omega arith),
)

head_short :
    (content_type : Bytes) (size : ℕ) (keep_alive : Bool)
    → length content_type ≤ 300
    → size < 10 ^ 20
    → length (header_text (status_line 200) content_type (decimal size) keep_alive) < write_size
head_short content_type size keep_alive short small = omega (
  arith,
  length-header_text-le (status_line 200) content_type (decimal size) keep_alive,
  length-status_line-le 200 (omega arith),
  length-decimal 19 size small,
)

-- What `finish_file` leaves to send.
abbrev pub finished_bytes : Bytes → Option Bytes → Bytes
finished_bytes text none = error_bytes 500 (codes "Internal Server Error")
finished_bytes text (some bytes) = text ++ bytes

pub finish_file-Answers :
    (conn : Connection) (text : Bytes) (size : ℕ) (got : Option Bytes) (events : List Event)
    → length conn.write_buf ≡ write_size
    → length text + size ≤ write_size
    → length text < write_size
    → ((bytes : Bytes) → got ≡ some bytes → length bytes ≤ size)
    → let (head, header_len) = snprintf conn.write_buf write_size text in
      Answers (finish_file conn head header_len events got).conn (finished_bytes text got)
unfolding finish_file
finish_file-Answers conn text size none events cells fits short at_most =
    http_send_error-Answers
      (record conn { write_buf = (snprintf conn.write_buf write_size text).0 }) 500
      (codes "Internal Server Error") (length-snprintf conn.write_buf write_size text ∙ cells)
      (omega arith) (omega arith)
finish_file-Answers conn text size (some bytes) events cells fits short at_most =
    let few = at_most bytes refl in
    (
      head_and_body conn.write_buf text bytes (length bytes) cells (omega arith) short (omega arith)
          ∙ ap (◌++◌ text) (take_all (length bytes) bytes (omega arith)),
      length-memcpy_at _ _ bytes (length bytes)
          ∙ length-snprintf conn.write_buf write_size text
          ∙ cells,
      head_and_body_length conn.write_buf text bytes (length bytes) (omega arith)
          ∙ ap (λ (b : Bytes). length (text ++ b)) (take_all (length bytes) bytes (omega arith)),
    )
