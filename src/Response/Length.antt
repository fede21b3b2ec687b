-- ===== src/Response/Length.antt =====
-- How long a head and a page are, so that the writes of a response stay in its buffers.
use epoll_http_server.Prelude.{
  ℕ, ◌+◌, ◌≤◌, ◌<◌, Bool, true, false, ◌∷◌, ◌++◌, arith, Bytes, codes, length, length-append,
}
use epoll_http_server.CString.Decimal.{decimal, length-decimal}
use epoll_http_server.Response.{
  get_status_description, connection_word, header_text, status_line, error_page,
}

length-get_status_description-le : (status : ℕ) → length (get_status_description status) ≤ 21
unfolding get_status_description
length-get_status_description-le status = ground arith

length-connection_word-le : (keep_alive : Bool) → length (connection_word keep_alive) ≤ 10
length-connection_word-le true = omega arith
length-connection_word-le false = omega arith

-- The literals of the format and the longer word take 97 bytes at most.
pub length-header_text-le :
    (status content_type content_length : Bytes) (keep_alive : Bool)
    → length (header_text status content_type content_length keep_alive)
      ≤ 97 + length status + length content_type + length content_length
unfolding header_text
length-header_text-le status content_type content_length keep_alive =
    let w = connection_word keep_alive in
    let e = codes "\r\n\r\n" in
    let c = w ++ e in
    let l = content_length ++ (codes "\r\nConnection: " ++ c) in
    let t = content_type ++ (codes "\r\nContent-Length: " ++ l) in
    omega (
      arith,
      length-connection_word-le keep_alive,
      length-append w e,
      length-append content_length (codes "\r\nConnection: " ++ c),
      length-append content_type (codes "\r\nContent-Length: " ++ l),
      length-append status (codes "\r\nServer: SimpleHTTP/1.0\r\nContent-Type: " ++ t),
    )

pub length-status_line-le : (status : ℕ) → status < 1000 → length (status_line status) ≤ 25
length-status_line-le status h = omega (
  arith,
  length-append (decimal status) (32 ∷ get_status_description status),
  length-decimal 2 status h,
  length-get_status_description-le status,
)

pub length-error_page-le :
    (status : ℕ) (message : Bytes)
    → status < 1000
    → length (error_page status message) ≤ 130 + length message + length message
unfolding error_page
length-error_page-le status message h =
    let d = decimal status in
    let z = codes "</h1>\n<hr>\n<p>SimpleHTTP/1.0</p>\n</body>\n</html>\n" in
    let y = message ++ z in
    let x = d ++ (32 ∷ y) in
    let w = message ++ (codes "</title></head>\n<body>\n<h1>" ++ x) in
    omega (
      arith,
      length-decimal 2 status h,
      length-append message z,
      length-append d (32 ∷ y),
      length-append message (codes "</title></head>\n<body>\n<h1>" ++ x),
      length-append d (32 ∷ w),
    )
