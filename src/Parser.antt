-- ===== src/Parser.antt =====
-- src/http_parser.c and include/http_parser.h: a request as the arrays of `http_request_t`, and
-- the parser that fills them. A pointer into the raw data is the list of the cells from it on.
mod Cases
pub mod Cells
pub mod Sizes
pub mod Total
pub mod RequestLine
pub mod HeaderLine
pub mod Headers
pub mod Stored
pub mod Message
pub mod Body
pub mod RoundTrip
pub mod Print
use epoll_http_server.Prelude.{
  ℕ, zero, suc, ◌+◌, ◌-◌, ◌^◌, ◌%◌, Bool, true, false, ◌&&◌, not, List, [], ◌∷◌, Option, none, some,
  ltb, leb, ◌==◌, if◌then◌else◌, Bytes, codes, length, set, take, drop, replicate, get_elem?,
}
use epoll_http_server.Prelude.Int.{ℤ, pos, pos_part, ltb_ℤ, sub_ℕ}
use epoll_http_server.CString.{
  deref, strlen, ptr_diff, starts, strstr, strchr, strcasecmp_zero, isspace, strncpy, atoi,
}

-- The sizes of the arrays, with the room for the NUL.
abbrev pub max_method_length : ℕ
max_method_length = 16

abbrev pub max_uri_length : ℕ
max_uri_length = 2048

abbrev pub max_version_length : ℕ
max_version_length = 16

abbrev pub max_headers : ℕ
max_headers = 32

abbrev pub max_header_name : ℕ
max_header_name = 64

abbrev pub max_header_value : ℕ
max_header_value = 256

-- `char request_line[1024]` and `char header_line[1024]`
abbrev pub line_size : ℕ
line_size = 1024

abbrev pub crlf : Bytes
crlf = 13 ∷ 10 ∷ []

-- `http_header_t`
pub record Header : Type 0 where
  pub name : Bytes
  pub value : Bytes

-- `http_request_t`
pub record Request : Type 0 where
  pub method : Bytes
  pub uri : Bytes
  pub version : Bytes
  pub headers : List Header
  pub header_count : ℕ
  pub body : Option Bytes
  pub body_length : ℤ
  pub host : Bytes
  pub keep_alive : Bool
  pub content_length : ℤ

unfoldable pub skip_spaces : Bytes → Bytes
skip_spaces [] = []
skip_spaces (c ∷ s) = if isspace c then skip_spaces s else c ∷ s

-- The two branches of `copy_until`, on what `strstr` found.
unfoldable pub copy_to : Bytes → ℕ → Bytes → Option Bytes → Bytes × Option Bytes
copy_to dest dest_size src none = (set (strncpy dest src (dest_size - 1)) (dest_size - 1) 0, none)
copy_to dest dest_size src (some end) =
    let found = ptr_diff end src in
    let len = (if leb dest_size found then dest_size - 1 else found) in
    (set (strncpy dest src len) len 0, some end)

-- The array after the copy, and where the delimiter stands.
unfoldable pub copy_until : Bytes → ℕ → Bytes → Bytes → Bytes × Option Bytes
unfolding copy_to
copy_until dest dest_size src delimiter = copy_to dest dest_size src (strstr src delimiter)

abbrev pub empty_header : Header
empty_header = record { name = replicate max_header_name 0; value = replicate max_header_value 0 }

-- `memset` to zero, and the default of `keep_alive`.
unfoldable pub http_request_init : Request
http_request_init = record {
  method = replicate max_method_length 0;
  uri = replicate max_uri_length 0;
  version = replicate max_version_length 0;
  headers = replicate max_headers empty_header;
  header_count = 0;
  body = none;
  body_length = pos 0;
  host = replicate max_header_value 0;
  keep_alive = true;
  content_length = pos 0;
}

-- The body is freed and its pointer is NULL.
unfoldable pub http_request_cleanup : Request → Request
http_request_cleanup request = record request { body = none }

-- `strstr(version, "\r")` and `*cr = '\0'`
unfoldable pub cut_at_cr : Bytes → Bytes
cut_at_cr version = elim (strstr version (13 ∷ [])) [
  | none ↦ version
  | some cr ↦ set version (ptr_diff cr version) 0
]

unfoldable pub parse_version : Bytes → Request → Request
unfolding copy_until cut_at_cr
parse_version p request =
    let version = (copy_until request.version max_version_length p crlf).0 in
    if deref version == 0
    then record request { version = cut_at_cr (strncpy version p (max_version_length - 1)) }
    else record request { version = version }

-- From the delimiter behind the URI on.
unfoldable pub parse_after_uri : Option Bytes → Request → Request × Bool
unfolding parse_version
parse_after_uri none request = (request, false)
parse_after_uri (some end) request = (parse_version (skip_spaces (drop 1 end)) request, true)

-- From the delimiter behind the method on.
unfoldable pub parse_after_method : Option Bytes → Request → Request × Bool
unfolding parse_after_uri copy_until
parse_after_method none request = (request, false)
parse_after_method (some end) request =
    let (uri, end') =
      copy_until request.uri max_uri_length (skip_spaces (drop 1 end)) (codes " ") in
    parse_after_uri end' (record request { uri = uri })

-- The flag is `true` for the result 0 and `false` for -1.
unfoldable pub parse_request_line : Bytes → Request → Request × Bool
unfolding parse_after_method copy_until skip_spaces
parse_request_line line request =
    let (method, end) =
      copy_until request.method max_method_length (skip_spaces line) (codes " ") in
    parse_after_method end (record request { method = method })

-- `len >= size ? size - 1 : len`
abbrev pub clip : ℕ → ℕ → ℕ
clip size len = if leb size len then size - 1 else len

-- `value_len`: up to the end of the line or of the string.
unfoldable pub value_length : Bytes → ℕ
value_length value = elim (strstr value crlf) [
  | none ↦ strlen value
  | some end ↦ ptr_diff end value
]

-- From the colon on.
unfoldable pub parse_after_colon : Bytes → Option Bytes → Header → Header × Bool
unfolding value_length
parse_after_colon line none header = (header, false)
parse_after_colon line (some colon) header =
    let name_len = clip max_header_name (ptr_diff colon line) in
    let value = skip_spaces (drop 1 colon) in
    let value_len = clip max_header_value (value_length value) in
    (
      record {
        name = set (strncpy header.name line name_len) name_len 0;
        value = set (strncpy header.value value value_len) value_len 0;
      },
      true,
    )

unfoldable pub parse_header_line : Bytes → Header → Header × Bool
unfolding parse_after_colon skip_spaces
parse_header_line line header = parse_after_colon line (strchr line b':') header

-- The members that cache the common headers.
unfoldable pub cache_header : Header → Request → Request
cache_header header request =
    if strcasecmp_zero header.name (codes "Host")
    then record request { host = strncpy request.host header.value (max_header_value - 1) }
    else if strcasecmp_zero header.name (codes "Connection")
    then (if strcasecmp_zero header.value (codes "keep-alive")
        then record request { keep_alive = true }
        else if strcasecmp_zero header.value (codes "close")
        then record request { keep_alive = false }
        else request)
    else if strcasecmp_zero header.name (codes "Content-Length")
    then record request { content_length = atoi header.value }
    else request

-- `request->headers[i]`
unfoldable pub header_at : List Header → ℕ → Header
header_at [] i = empty_header
header_at (h ∷ hs) zero = h
header_at (h ∷ hs) (suc i) = header_at hs i

-- What the loop does with one line of the headers.
unfoldable pub store_header : Bytes → Request → Request
unfolding cache_header header_at
store_header line request =
    if ltb request.header_count max_headers
    then (let (header, parsed) =
          parse_header_line line (header_at request.headers request.header_count) in
        let stored = record request { headers = set request.headers request.header_count header } in
        let cached = cache_header header stored in
        if parsed then record cached { header_count = cached.header_count + 1 } else request)
    else request

-- The line of `len` bytes at `p`, cut to a local array of `line_size`; what stands behind the NUL
-- in that array is never read.
abbrev pub copy_line : Bytes → ℕ → Bytes
copy_line p len = take (clip line_size len) p

-- One round of the loop over the headers: it ends with the pointer at the body, or it has a line
-- and goes on behind that.
pub data Round : Type 0 where
  finish : (p : Bytes) → Round
  line : (text p : Bytes) → Round

unfoldable pub next_line : Bytes → Round
next_line p =
    if deref p == 0
    then finish p
    else if starts crlf p
    then finish (drop 2 p)
    else (elim (strstr p crlf) [
      | none ↦ finish p
      | some line_end ↦ line (copy_line p (ptr_diff line_end p)) (drop 2 line_end)
    ])

-- `while (*p)`. With no fuel left the result is `none`.
unfoldable pub parse_headers : ℕ → Bytes → Request → Option (Bytes × Request)
unfolding next_line store_header
parse_headers zero p request = none
parse_headers (suc fuel) p request = elim (next_line p) [
  | finish q ↦ some (q, request)
  | line text q ↦ parse_headers fuel q (store_header text request)
]

-- `content_length + 1` as an `int`, which wraps, and then as the `size_t` that `malloc` takes.
abbrev pub body_room : ℤ → ℕ
body_room n =
    let sum = (pos_part n + 1) % 2 ^ 32 in if ltb sum (2 ^ 31) then sum else sum + (2 ^ 64 - 2 ^ 32)

-- The body, if there is one; `alloc n` says whether `malloc(n)` succeeds.
unfoldable pub parse_body : (ℕ → Bool) → Bytes → ℕ → Bytes → Request → Request
parse_body alloc raw_data len p request =
    if ltb_ℤ (pos 0) request.content_length && not (deref p == 0)
    then (if alloc (body_room request.content_length)
        then (let rest = sub_ℕ len (ptr_diff p raw_data) in
            let body_len =
              (if ltb_ℤ request.content_length rest then request.content_length else rest) in
            record request { body = some (take (pos_part body_len) p); body_length = body_len })
        else request)
    else request

-- The rest of `http_parse_request` behind a request line that was parsed.
unfoldable pub parse_rest :
    (ℕ → Bool) → Bytes → ℕ → Bytes → Request × Bool → Option (Request × Bool)
unfolding parse_headers parse_body
parse_rest alloc raw_data len p (request, false) = some (request, false)
parse_rest alloc raw_data len p (request, true) = elim (parse_headers (suc (length p)) p request) [
  | none ↦ none
  | some (q, request') ↦ some (parse_body alloc raw_data len q request', true)
]

-- The request as it is filled, with `true` for the result 0 and `false` for -1.
unfoldable pub http_parse_request : (ℕ → Bool) → Bytes → ℕ → Option (Request × Bool)
unfolding parse_rest parse_request_line http_request_init
http_parse_request alloc raw_data len = elim (strstr raw_data crlf) [
  | none ↦ some (http_request_init, false)
  | some line_end ↦
      let request_line = copy_line raw_data (ptr_diff line_end raw_data) in
      parse_rest alloc raw_data len (drop 2 line_end)
        (parse_request_line request_line http_request_init)
]
