-- ===== src/Parser/Sizes.antt =====
-- The arrays of a request keep their sizes, and every string in them ends within its array,
-- whatever bytes the client sent.
use epoll_http_server.Prelude.{
  ℕ, zero, suc, ◌+◌, ◌≤◌, ◌<◌, ◌≡◌, ◌∙◌, subst, some_inj, inl, inr, Bool, true, false, List, [],
  ◌∷◌, Option, none, some, arith, Bool-cases, Option-cases, Bytes, codes, length, set, drop,
  length-set, length-replicate, replicate, ◌==◌, All,
}
use epoll_http_server.CString.{deref, strstr, strchr, ptr_diff}
use epoll_http_server.Parser.Total.{Round-cases, parse_headers_total}
use epoll_http_server.Parser.Cases.{cache_header_cases, store_header_cases, parse_body_cases}
use epoll_http_server.Parser.{
  skip_spaces, value_length, Header, Request, crlf, max_method_length, max_uri_length,
  max_version_length, max_headers, empty_header, http_request_init, copy_until, parse_version,
  parse_after_uri, parse_after_method, parse_request_line, parse_after_colon, parse_header_line,
  cache_header, header_at, store_header, next_line, parse_headers, parse_body, parse_rest,
  http_parse_request,
}
use epoll_http_server.Parser.Cells.{
  LastIsNul, strncpy-LastIsNul, replicate-LastIsNul, copy-LastIsNul, clip-le, copy_until-LastIsNul,
  cut_at_cr-LastIsNul,
}

pub record HeaderFits (h : Header) : Type 0 where
  pub name_ends : LastIsNul 63 h.name
  pub value_ends : LastIsNul 255 h.value

-- The arrays of a request are of their sizes, each with its NUL, and the count stays in the array.
pub record Fits (request : Request) : Type 0 where
  pub method_ends : LastIsNul 15 request.method
  pub uri_ends : LastIsNul 2047 request.uri
  pub version_ends : LastIsNul 15 request.version
  pub host_ends : LastIsNul 255 request.host
  pub headers_size : length request.headers ≡ max_headers
  pub headers_fit : All HeaderFits request.headers
  pub count_fits : request.header_count ≤ max_headers

pub empty_header-HeaderFits : HeaderFits empty_header
empty_header-HeaderFits = record {
  name_ends = replicate-LastIsNul 63;
  value_ends = replicate-LastIsNul 255;
}

All-replicate : (n : ℕ) (h : Header) → HeaderFits h → All HeaderFits (replicate n h)
All-replicate zero h f = tt
All-replicate (suc n) h f = (f, All-replicate n h f)

pub http_request_init-Fits : Fits http_request_init
unfolding http_request_init
http_request_init-Fits = record {
  method_ends = replicate-LastIsNul 15;
  uri_ends = replicate-LastIsNul 2047;
  version_ends = replicate-LastIsNul 15;
  host_ends = replicate-LastIsNul 255;
  headers_size = length-replicate max_headers empty_header;
  headers_fit = All-replicate max_headers empty_header empty_header-HeaderFits;
  count_fits = omega arith;
}

module _ {request : Request} (f : Fits request) {cells : Bytes} where
  Fits-method : LastIsNul 15 cells → Fits (record request { method = cells })
  Fits-method h = assumption

  Fits-uri : LastIsNul 2047 cells → Fits (record request { uri = cells })
  Fits-uri h = assumption

  Fits-version : LastIsNul 15 cells → Fits (record request { version = cells })
  Fits-version h = assumption

  Fits-host : LastIsNul 255 cells → Fits (record request { host = cells })
  Fits-host h = assumption

parse_version-Fits : (p : Bytes) (request : Request) → Fits request → Fits (parse_version p request)
unfolding parse_version
parse_version-Fits p request f =
    let copied = copy_until-LastIsNul 15 request.version p crlf f.version_ends in
    elim (Bool-cases (deref (copy_until request.version max_version_length p crlf).0 == 0)) [
      | inl empty ↦
          rw (empty, parse_version)
            (Fits-version f
              (cut_at_cr-LastIsNul 15 _ (strncpy-LastIsNul 15 _ p 15 (omega arith) copied)))
      | inr given ↦ rw (given, parse_version) (Fits-version f copied)
    ]

parse_after_uri-Fits :
    (end : Option Bytes) (request : Request) → Fits request → Fits (parse_after_uri end request).0
unfolding parse_after_uri
parse_after_uri-Fits none request f = f
parse_after_uri-Fits (some end) request f = parse_version-Fits _ request f

parse_after_method-Fits :
    (end : Option Bytes) (request : Request)
    → Fits request
    → Fits (parse_after_method end request).0
unfolding parse_after_method
parse_after_method-Fits none request f = f
parse_after_method-Fits (some end) request f =
    let p = skip_spaces (drop 1 end) in
    parse_after_uri-Fits (copy_until request.uri max_uri_length p (codes " ")).1 _
      (Fits-uri f (copy_until-LastIsNul 2047 request.uri p (codes " ") f.uri_ends))

pub parse_request_line-Fits :
    (text : Bytes) (request : Request) → Fits request → Fits (parse_request_line text request).0
unfolding parse_request_line
parse_request_line-Fits text request f =
    let p = skip_spaces text in
    parse_after_method-Fits (copy_until request.method max_method_length p (codes " ")).1 _
      (Fits-method f (copy_until-LastIsNul 15 request.method p (codes " ") f.method_ends))

parse_after_colon-HeaderFits :
    (text : Bytes) (colon : Option Bytes) (h : Header)
    → HeaderFits h
    → HeaderFits (parse_after_colon text colon h).0
unfolding parse_after_colon
parse_after_colon-HeaderFits text none h f = f
parse_after_colon-HeaderFits text (some colon) h f = record {
  name_ends = copy-LastIsNul 63 h.name text _ (clip-le 63 (ptr_diff colon text)) f.name_ends;
  value_ends =
      copy-LastIsNul 255 h.value (skip_spaces (drop 1 colon)) _
        (clip-le 255 (value_length (skip_spaces (drop 1 colon)))) f.value_ends;
}

parse_header_line-HeaderFits :
    (text : Bytes) (h : Header) → HeaderFits h → HeaderFits (parse_header_line text h).0
unfolding parse_header_line
parse_header_line-HeaderFits text h f = parse_after_colon-HeaderFits text (strchr text b':') h f

pub header_at-HeaderFits :
    (hs : List Header) (i : ℕ) → All HeaderFits hs → HeaderFits (header_at hs i)
unfolding header_at
header_at-HeaderFits [] i f = empty_header-HeaderFits
header_at-HeaderFits (h ∷ hs) zero f = f.0
header_at-HeaderFits (h ∷ hs) (suc i) f = header_at-HeaderFits hs i f.1

All-set :
    (hs : List Header) (i : ℕ) (h : Header)
    → All HeaderFits hs
    → HeaderFits h
    → All HeaderFits (set hs i h)
All-set [] i h f g = tt
All-set (x ∷ hs) zero h f g = (g, f.1)
All-set (x ∷ hs) (suc i) h f g = (f.0, All-set hs i h f.1 g)

cache_header-Fits : (h : Header) (request : Request) → Fits request → Fits (cache_header h request)
cache_header-Fits h request f =
    cache_header_cases Fits h request f
      (Fits-host f (strncpy-LastIsNul 255 request.host h.value 255 (omega arith) f.host_ends))
      (λ b. assumption) (λ n. assumption)

pub cache_header_count :
    (h : Header) (request : Request) → (cache_header h request).header_count ≡ request.header_count
unfolding cache_header
cache_header_count h request = ground arith

Fits-headers :
    {request : Request} (h : Header)
    → Fits request
    → HeaderFits h
    → Fits (record request { headers = set request.headers request.header_count h })
Fits-headers {request} h f g = record {
  method_ends = f.method_ends;
  uri_ends = f.uri_ends;
  version_ends = f.version_ends;
  host_ends = f.host_ends;
  headers_size = length-set request.headers request.header_count h ∙ f.headers_size;
  headers_fit = All-set request.headers request.header_count h f.headers_fit g;
  count_fits = f.count_fits;
}

Fits-count :
    {request : Request}
    → Fits request
    → request.header_count < max_headers
    → Fits (record request { header_count = request.header_count + 1 })
Fits-count f h = record {
  method_ends = f.method_ends;
  uri_ends = f.uri_ends;
  version_ends = f.version_ends;
  host_ends = f.host_ends;
  headers_size = f.headers_size;
  headers_fit = f.headers_fit;
  count_fits = omega arith;
}

pub store_header-Fits :
    (text : Bytes) (request : Request) → Fits request → Fits (store_header text request)
store_header-Fits text request f = store_header_cases Fits text request f λ room.
    let h = (parse_header_line text (header_at request.headers request.header_count)).0 in
    let g =
      parse_header_line-HeaderFits text _
        (header_at-HeaderFits request.headers request.header_count f.headers_fit) in
    let stored = record request { headers = set request.headers request.header_count h } in
    Fits-count (cache_header-Fits h stored (Fits-headers h f g))
      (rw (cache_header_count h stored) room)

parse_headers-Fits :
    (fuel : ℕ) (p : Bytes) (request : Request) {r : Bytes × Request}
    → Fits request
    → parse_headers fuel p request ≡ some r
    → Fits r.1
unfolding parse_headers
parse_headers-Fits zero p request f e = cc
parse_headers-Fits (suc fuel) p request {r} f e = elim (Round-cases (next_line p)) [
  | inl (q, here) ↦
      let ended : some (q, request) ≡ some r = rw (here, parse_headers) at e in
      subst (λ (t : Bytes × Request). Fits t.1) (some_inj ended) f
  | inr (text, q, here) ↦
      let later : parse_headers fuel q (store_header text request) ≡ some r =
        rw (here, parse_headers) at e in
      parse_headers-Fits fuel q (store_header text request) (store_header-Fits text request f) later
]

parse_body-Fits :
    (alloc : ℕ → Bool) (raw_data : Bytes) (len : ℕ) (p : Bytes) (request : Request)
    → Fits request
    → Fits (parse_body alloc raw_data len p request)
parse_body-Fits alloc raw_data len p request f =
    parse_body_cases Fits alloc raw_data len p request f (λ b n. assumption)

parse_rest-Fits :
    (alloc : ℕ → Bool) (raw_data : Bytes) (len : ℕ) (p : Bytes) (parsed : Request × Bool)
    {r : Request × Bool}
    → Fits parsed.0
    → parse_rest alloc raw_data len p parsed ≡ some r
    → Fits r.0
unfolding parse_rest
parse_rest-Fits alloc raw_data len p (request, false) {r} f e =
    subst (λ (t : Request × Bool). Fits t.0) (some_inj e) f
parse_rest-Fits alloc raw_data len p (request, true) {r} f e =
    let ((q, request'), here) = parse_headers_total (suc (length p)) p request (omega arith) in
    let ended : some (parse_body alloc raw_data len q request', true) ≡ some r =
      rw (here, parse_rest) at e in
    subst (λ (t : Request × Bool). Fits t.0) (some_inj ended)
      (parse_body-Fits alloc raw_data len q request'
        (parse_headers-Fits (suc (length p)) p request f here))

-- Whatever bytes the client sent: the parser leaves every array of the request at its size, with
-- a NUL in the last cell, and counts no more headers than the array holds.
pub http_parse_request-Fits :
    (alloc : ℕ → Bool) (raw_data : Bytes) (len : ℕ) {r : Request × Bool}
    → http_parse_request alloc raw_data len ≡ some r
    → Fits r.0
unfolding http_parse_request
http_parse_request-Fits alloc raw_data len {r} e = elim (Option-cases (strstr raw_data crlf)) [
  | inl missing ↦
      let failed : some (http_request_init, false) ≡ some r =
        rw (missing, http_parse_request) at e in
      subst (λ (t : Request × Bool). Fits t.0) (some_inj failed) http_request_init-Fits
  | inr (end, found) ↦
      parse_rest-Fits alloc raw_data len (drop 2 end) _
        (parse_request_line-Fits _ _ http_request_init-Fits) (rw (found, http_parse_request) at e)
]
