-- ===== src/Parser/Cases.antt =====
-- Splits of the parser's branching helpers, for any property of the request that they return.
use epoll_http_server.Prelude.{
  ℕ, ◌+◌, ◌-◌, ◌<◌, ◌&&◌, ◌==◌, not, Option, none, some, drop, inl, inr, Bool, true, false,
  Bool-cases, Bytes, codes, set, ltb, ltb→lt,
}
use epoll_http_server.Prelude.Int.{ℤ, pos, ltb_ℤ}
use epoll_http_server.CString.{deref, strncpy, strcasecmp_zero, atoi}
use epoll_http_server.Parser.{
  Header, Request, max_headers, max_header_value, parse_header_line, cache_header, header_at,
  store_header, body_room, parse_body, crlf, max_version_length, max_method_length, max_uri_length,
  copy_until, parse_version, parse_after_uri, parse_after_method, parse_request_line, skip_spaces,
}

pub cache_header_cases {ℓ} :
    (P : Request → Type ℓ) (h : Header) (request : Request)
    → P request
    → P (record request { host = strncpy request.host h.value (max_header_value - 1) })
    → ((b : Bool) → P (record request { keep_alive = b }))
    → ((n : ℤ) → P (record request { content_length = n }))
    → P (cache_header h request)
unfolding cache_header
cache_header_cases P h request same host alive size =
    elim (Bool-cases (strcasecmp_zero h.name (codes "Host"))) [
      | inl e ↦ rw (e, cache_header) host
      | inr n₁ ↦ elim (Bool-cases (strcasecmp_zero h.name (codes "Connection"))) [
        | inl c ↦ elim (Bool-cases (strcasecmp_zero h.value (codes "keep-alive"))) [
          | inl e ↦ rw (n₁, c, e, cache_header) (alive true)
          | inr n₂ ↦ elim (Bool-cases (strcasecmp_zero h.value (codes "close"))) [
            | inl e ↦ rw (n₁, c, n₂, e, cache_header) (alive false)
            | inr n₃ ↦ rw (n₁, c, n₂, n₃, cache_header) same
          ]
        ]
        | inr n₂ ↦ elim (Bool-cases (strcasecmp_zero h.name (codes "Content-Length"))) [
          | inl e ↦ rw (n₁, n₂, e, cache_header) (size (atoi h.value))
          | inr n₃ ↦ rw (n₁, n₂, n₃, cache_header) same
        ]
      ]
    ]

-- A line is dropped, or its header is stored at the end and counted.
pub store_header_cases {ℓ} :
    (P : Request → Type ℓ) (text : Bytes) (request : Request)
    → P request
    → (request.header_count < max_headers
        → let h = (parse_header_line text (header_at request.headers request.header_count)).0 in
          let cached =
            cache_header h
              (record request { headers = set request.headers request.header_count h }) in
          P (record cached { header_count = cached.header_count + 1 }))
    → P (store_header text request)
unfolding store_header
store_header_cases P text request same stored =
    elim (Bool-cases (ltb request.header_count max_headers)) [
      | inr full ↦ rw (full, store_header) same
      | inl room ↦
          elim (Bool-cases
            (parse_header_line text (header_at request.headers request.header_count)).1) [
              | inr bad ↦ rw (room, bad, store_header) same
              | inl good ↦ rw (room, good, store_header) (stored (ltb→lt _ _ room))
            ]
    ]

-- No body is stored, or one with its length.
pub parse_body_cases {ℓ} :
    (P : Request → Type ℓ) (alloc : ℕ → Bool) (raw_data : Bytes) (len : ℕ) (p : Bytes)
    (request : Request)
    → P request
    → ((b : Option Bytes) (n : ℤ) → P (record request { body = b; body_length = n }))
    → P (parse_body alloc raw_data len p request)
unfolding parse_body
parse_body_cases P alloc raw_data len p request same stored =
    elim (Bool-cases (ltb_ℤ (pos 0) request.content_length && not (deref p == 0))) [
      | inr absent ↦ rw (absent, parse_body) same
      | inl present ↦ elim (Bool-cases (alloc (body_room request.content_length))) [
        | inr refused ↦ rw (present, refused, parse_body) same
        | inl given ↦ rw (present, given, parse_body) (stored _ _)
      ]
    ]

-- The request line changes the method, the URI and the version, and nothing else.
module _ {ℓ} (P : Request → Type ℓ) where
  parse_version_cases :
      (p : Bytes) (r : Request)
      → ((v : Bytes) → P (record r { version = v }))
      → P (parse_version p r)
  unfolding parse_version
  parse_version_cases p r any =
      elim (Bool-cases (deref (copy_until r.version max_version_length p crlf).0 == 0)) [
        | inl empty ↦ rw (empty, parse_version) (any _)
        | inr given ↦ rw (given, parse_version) (any _)
      ]

  parse_after_uri_cases :
      (end : Option Bytes) (r : Request)
      → ((v : Bytes) → P (record r { version = v }))
      → P (parse_after_uri end r).0
  unfolding parse_after_uri
  parse_after_uri_cases none r any = any r.version
  parse_after_uri_cases (some end) r any = parse_version_cases (skip_spaces (drop 1 end)) r any

  parse_after_method_cases :
      (end : Option Bytes) (r : Request)
      → ((u v : Bytes) → P (record r { uri = u; version = v }))
      → P (parse_after_method end r).0
  unfolding parse_after_method
  parse_after_method_cases none r any = any r.uri r.version
  parse_after_method_cases (some end) r any =
      let p = skip_spaces (drop 1 end) in
      parse_after_uri_cases (copy_until r.uri max_uri_length p (codes " ")).1 _ (any _)

  pub parse_request_line_cases :
      (text : Bytes) (r : Request)
      → ((m u v : Bytes) → P (record r { method = m; uri = u; version = v }))
      → P (parse_request_line text r).0
  unfolding parse_request_line
  parse_request_line_cases text r any =
      parse_after_method_cases
        (copy_until r.method max_method_length (skip_spaces text) (codes " ")).1 _ (any _)
