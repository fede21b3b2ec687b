-- ===== src/Parser/Total.antt =====
-- The loop over the headers ends: each round that goes on leaves the pointer further on, so that
-- the fuel of `http_parse_request` is never used up.
use epoll_http_server.Prelude.{
  ℕ, zero, suc, ◌+◌, ◌≤◌, ◌<◌, ◌≡◌, refl, ◌⊎◌, inl, inr, Bool, true, false, some, arith, Bool-cases,
  Option-cases, Bytes, length, drop, length-drop, ◌==◌,
}
use epoll_http_server.CString.{deref, starts, strstr}
use epoll_http_server.CString.Scan.{strstr-Found, Found-length, starts-length}
use epoll_http_server.Parser.{
  Request, Round, finish, line, crlf, next_line, store_header, parse_headers, parse_body,
  parse_rest, http_request_init, http_parse_request,
}

-- The pointer behind a round stands no further left, and further right where the loop goes on.
abbrev Advances : Bytes → Round → Type 0
Advances p (finish q) = length q ≤ length p
Advances p (line text q) = length q < length p

crlf-length : (p e : Bytes) → strstr p crlf ≡ some e → length (drop 2 e) + 2 ≤ length p
crlf-length p e h =
    let f = strstr-Found p crlf h in
    omega (arith, Found-length f, starts-length crlf e f.stands, length-drop 2 e)

pub next_line-Advances : (p : Bytes) → Advances p (next_line p)
unfolding next_line
next_line-Advances p = elim (Bool-cases (deref p == 0)) [
  | inl ended ↦ rw ended (omega arith)
  | inr going ↦ elim (Bool-cases (starts crlf p)) [
    | inl empty_line ↦ rw (going, empty_line) (omega (arith, length-drop 2 p))
    | inr text ↦ elim (Option-cases (strstr p crlf)) [
      | inl missing ↦ rw (going, text, missing) (omega arith)
      | inr (e, found) ↦ rw (going, text, found) (omega (arith, crlf-length p e found))
    ]
  ]
]

pub Round-cases :
    (r : Round)
    → ((q : Bytes) × (r ≡ finish q)) ⊎ ((text : Bytes) × (q : Bytes) × (r ≡ line text q))
Round-cases (finish q) = inl (q, refl)
Round-cases (line text q) = inr (text, q, refl)

-- With the length of what is left for fuel the loop returns.
pub parse_headers_total :
    (fuel : ℕ) (p : Bytes) (request : Request)
    → length p < fuel
    → (r : Bytes × Request) × (parse_headers fuel p request ≡ some r)
unfolding parse_headers
parse_headers_total zero p request h = elim h [ ]
parse_headers_total (suc fuel) p request h = elim (Round-cases (next_line p)) [
  | inl (q, e) ↦ ((q, request), rw (e, parse_headers))
  | inr (text, q, e) ↦
      let shorter : length q < length p = rw e at (next_line-Advances p) in
      rw (e, parse_headers) (parse_headers_total fuel q (store_header text request) (omega arith))
]

parse_rest_total :
    (alloc : ℕ → Bool) (raw_data : Bytes) (len : ℕ) (p : Bytes) (parsed : Request × Bool)
    → (r : Request × Bool) × (parse_rest alloc raw_data len p parsed ≡ some r)
unfolding parse_rest
parse_rest_total alloc raw_data len p (request, false) = ((request, false), refl)
parse_rest_total alloc raw_data len p (request, true) =
    let ((q, request'), e) = parse_headers_total (suc (length p)) p request (omega arith) in
    ((parse_body alloc raw_data len q request', true), rw (e, parse_rest))

-- The parser returns on every buffer: its loop over the headers ends.
pub http_parse_request_total :
    (alloc : ℕ → Bool) (raw_data : Bytes) (len : ℕ)
    → (r : Request × Bool) × (http_parse_request alloc raw_data len ≡ some r)
unfolding http_parse_request
http_parse_request_total alloc raw_data len = elim (Option-cases (strstr raw_data crlf)) [
  | inl missing ↦ ((http_request_init, false), rw (missing, http_parse_request))
  | inr (e, found) ↦
      rw (found, http_parse_request) (parse_rest_total alloc raw_data len (drop 2 e) _)
]
