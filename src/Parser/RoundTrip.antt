-- ===== src/Parser/RoundTrip.antt =====
-- `http_parse_request` reads back a message as a client prints it.
use mathlib.Core.Path.{ap₂}
use epoll_http_server.Prelude.{
  append_assoc, append-nil, subst, ℕ, suc, ◌-◌, ◌≡◌, refl, sym, ap, ◌∙◌, Bool, true, false, List,
  [], ◌∷◌, ◌++◌, Option, none, some, arith, Bytes, length, take,
}
use epoll_http_server.Prelude.Int.{ℤ, pos}
use epoll_http_server.CString.{cstr, deref, ptr_diff, strstr}
use epoll_http_server.CString.Scan.{strstr_found}
use epoll_http_server.Parser.Cases.{
  cache_header_cases, store_header_cases, parse_body_cases, parse_request_line_cases,
}
use epoll_http_server.Parser.Sizes.{Fits, http_request_init-Fits, parse_request_line-Fits}
use epoll_http_server.Parser.RequestLine.{
  IsWord-Lacks, Parsed, parse_request_line_printed, ptr_diff-append,
}
use epoll_http_server.Parser.HeaderLine.{print_header}
use epoll_http_server.Parser.Headers.{
  Field, print_headers, store_all, parse_headers_printed, copy_line_whole,
}
use epoll_http_server.Parser.Stored.{
  cut, view, stored, map_fields, keep_alive_of, content_length_of, host_of, Keeps, store_all-Keeps,
}
use epoll_http_server.Parser.{
  Request, crlf, copy_line, max_headers, http_request_init, parse_request_line, store_header,
  parse_headers, parse_body, parse_rest, http_parse_request,
}
use epoll_http_server.Parser.Message.{
  Message, print_line, print, IsMessage, print_line-Lacks, print_headers_before, followed,
  print_onto,
}
use epoll_http_server.Parser.Body.{body_of, parse_body_whole}

store_header-Parsed :
    (text : Bytes) (r : Request) (method uri version : Bytes)
    → Parsed r method uri version
    → Parsed (store_header text r) method uri version
store_header-Parsed text r method uri version p =
    let P = λ (q : Request). Parsed q method uri version in
    store_header_cases P text r p λ room. cache_header_cases P _ _ p p (λ b. p) (λ n. p)

store_all-Parsed :
    (xs : List Field) (r : Request) (method uri version : Bytes)
    → Parsed r method uri version
    → Parsed (store_all xs r) method uri version
store_all-Parsed [] r method uri version p = p
store_all-Parsed (x ∷ xs) r method uri version p =
    store_all-Parsed xs _ method uri version
      (store_header-Parsed (print_header x.name x.value) r method uri version p)

-- What the server makes of a message: its words and headers, cut to their arrays and to the number
-- of entries there are; the cached members; and the body that the length announces.
pub record ReadBack (m : Message) (r : Request) : Type 0 where
  pub line : Parsed r m.method m.uri m.version
  pub headers : stored r ≡ map_fields cut (take max_headers m.fields)
  pub alive : r.keep_alive ≡ keep_alive_of (map_fields cut (take max_headers m.fields)) true
  pub size :
      r.content_length ≡ content_length_of (map_fields cut (take max_headers m.fields)) (pos 0)
  pub host : cstr r.host ≡ host_of (map_fields cut (take max_headers m.fields)) []
  pub body : r.body ≡ body_of r.content_length m.body

-- What a request line leaves as `http_request_init` made it.
abbrev Untouched : Request → Type 0
Untouched r =
    (r.header_count ≡ 0)
    × (r.keep_alive ≡ true)
    × (r.content_length ≡ pos 0)
    × (r.body ≡ none)
    × (cstr r.host ≡ [])

request_line-Untouched : (text : Bytes) → Untouched (parse_request_line text http_request_init).0
unfolding http_request_init cstr
request_line-Untouched text =
    parse_request_line_cases Untouched text http_request_init
      (λ u v w. (refl, refl, refl, refl, refl))

store_all-body : (xs : List Field) (r : Request) → r.body ≡ none → (store_all xs r).body ≡ none
store_all-body [] r e = e
store_all-body (x ∷ xs) r e = store_all-body xs _ (
    store_header_cases (λ q. q.body ≡ none) (print_header x.name x.value) r e
      λ room. cache_header_cases (λ q. q.body ≡ none) _ _ e e (λ b. e) (λ n. e))

from_start-headers :
    (xs : List Field) (r q : Request)
    → Keeps xs r q
    → r.header_count ≡ 0
    → stored q ≡ map_fields cut (take max_headers xs)
from_start-headers xs r q kept count =
    let n = r.header_count in
    kept.headers
    ∙ ap
        (λ (n : ℕ).
          map_fields view (take n r.headers) ++ map_fields cut (take (max_headers - n) xs))
        count

-- Behind a request line that was parsed.
after_line :
    (m : Message) (behind : Bytes) (alloc : ℕ → Bool) (r : Request)
    → IsMessage m
    → ((n : ℕ) → alloc n ≡ true)
    → Fits r
    → Untouched r
    → Parsed r m.method m.uri m.version
    → deref behind ≡ 0
    → ReadBack m (
        parse_body alloc
          (print (followed m behind))
          (length (print m))
          (m.body ++ behind)
          (store_all m.fields r))
after_line m behind alloc r is given fits (count, alive, size, no_body, no_host) parsed ended =
    record {
      line = keep (λ s. Parsed s m.method m.uri m.version) (λ b n. whole) whole;
      headers = keep (λ s. stored s ≡ map_fields cut first) (λ b n. headers) headers;
      alive =
          keep (λ s. s.keep_alive ≡ keep_alive_of (map_fields cut first) true) (λ b n. alive')
            alive';
      size =
          keep (λ s. s.content_length ≡ content_length_of (map_fields cut first) (pos 0))
            (λ b n. size') size';
      host = keep (λ s. cstr s.host ≡ host_of (map_fields cut first) []) (λ b n. host') host';
      body = body' ∙ ap (λ (n : ℤ). body_of n m.body) (sym same_length);
    }
  where
    q : Request
    q = store_all m.fields r

    first : List Field
    first = take max_headers m.fields

    kept : Keeps m.fields r q
    kept = store_all-Keeps m.fields r is.are_fields fits

    whole : Parsed q m.method m.uri m.version
    whole = store_all-Parsed m.fields r m.method m.uri m.version parsed

    keep :
        (P : Request → Type 0)
        → ((b : Option Bytes) (n : ℤ) → P (record q { body = b; body_length = n }))
        → P q
        → P (parse_body alloc (print (followed m behind)) (length (print m)) (m.body ++ behind) q)
    keep P stays same =
        parse_body_cases P alloc (print (followed m behind)) (length (print m)) (m.body ++ behind) q
          same stays

    headers : stored q ≡ map_fields cut first
    headers = from_start-headers m.fields r q kept count

    alive' : q.keep_alive ≡ keep_alive_of (map_fields cut first) true
    alive' =
        kept.alive
        ∙ ap₂
            (λ (n : ℕ) (b : Bool).
              keep_alive_of (map_fields cut (take (max_headers - n) m.fields)) b)
            count alive

    size' : q.content_length ≡ content_length_of (map_fields cut first) (pos 0)
    size' =
        kept.size
        ∙ ap₂
            (λ (n : ℕ) (c : ℤ).
              content_length_of (map_fields cut (take (max_headers - n) m.fields)) c)
            count size

    host' : cstr q.host ≡ host_of (map_fields cut first) []
    host' =
        kept.host
        ∙ ap₂ (λ (n : ℕ) (s : Bytes). host_of (map_fields cut (take (max_headers - n) m.fields)) s)
            count no_host

    same_length :
        (parse_body alloc
          (print (followed m behind))
          (length (print m))
          (m.body ++ behind)
          q).content_length
        ≡ q.content_length
    same_length = keep (λ s. s.content_length ≡ q.content_length) (λ b n. refl) refl

    before : Bytes
    before = (print_headers_before m.fields m.body).0

    splits : print m ≡ (print_line m ++ (13 ∷ 10 ∷ before)) ++ m.body
    splits =
        ap (λ (b : Bytes). print_line m ++ (13 ∷ 10 ∷ b)) (print_headers_before m.fields m.body).1
        ∙ sym (append_assoc (print_line m) (13 ∷ 10 ∷ before) m.body)

    body' :
        (parse_body alloc (print (followed m behind)) (length (print m)) (m.body ++ behind) q).body
        ≡ body_of q.content_length m.body
    body' =
        parse_body_whole alloc (print (followed m behind)) (length (print m))
          (print_line m ++ (13 ∷ 10 ∷ before)) m.body behind q given
          (print_onto m behind
            ∙ ap (λ (t : Bytes). t ++ behind) splits
            ∙ append_assoc (print_line m ++ (13 ∷ 10 ∷ before)) m.body behind)
          (ap length splits) ended (store_all-body m.fields r no_body)

parse_rest_good :
    (alloc : ℕ → Bool) (raw_data : Bytes) (len : ℕ) (p : Bytes) (parsed : Request × Bool)
    {q : Bytes} {r : Request}
    → parsed.1 ≡ true
    → parse_headers (suc (length p)) p parsed.0 ≡ some (q, r)
    → parse_rest alloc raw_data len p parsed ≡ some (parse_body alloc raw_data len q r, true)
unfolding parse_rest
parse_rest_good alloc raw_data len p (request, false) no_flag e = cc
parse_rest_good alloc raw_data len p (request, true) flag e = rw (e, parse_rest)

-- A message is parsed in the same way where the buffer goes on behind it with a NUL.
pub http_parse_request-followed :
    (m : Message) (behind : Bytes) (alloc : ℕ → Bool)
    → IsMessage m
    → ((n : ℕ) → alloc n ≡ true)
    → deref behind ≡ 0
    → (r : Request) × (http_parse_request alloc (print (followed m behind)) (length (print m))
        ≡ some (r, true))
      × ReadBack m r
unfolding http_parse_request parse_rest
http_parse_request-followed m behind alloc is given ended =
    let buffer = print (followed m behind) in
    let len = length (print m) in
    let text = print_line m in
    let body = m.body ++ behind in
    let rest = print_headers m.fields body in
    let found : strstr buffer crlf ≡ some (13 ∷ 10 ∷ rest) =
      strstr_found 13 (10 ∷ []) text rest
        (print_line-Lacks 13 m (omega arith) is.line_no_cr.0 is.line_no_cr.1 is.line_no_cr.2)
        (print_line-Lacks 0 m (omega arith) (IsWord-Lacks m.method is.method_word).1
          (IsWord-Lacks m.uri is.uri_word).1 (IsWord-Lacks m.version is.version_word).1) in
    let line_is : copy_line buffer (ptr_diff (13 ∷ 10 ∷ rest) buffer) ≡ text =
      ap (copy_line buffer) (ptr_diff-append text (13 ∷ 10 ∷ rest))
      ∙ copy_line_whole text (13 ∷ 10 ∷ rest) is.line_short in
    let r = (parse_request_line text http_request_init).0 in
    let (good, parsed) =
      parse_request_line_printed m.method m.uri m.version is.uri_word is.version_word
        is.line_no_cr.2 http_request_init http_request_init-Fits is.method_word in
    let headers =
      parse_headers_printed (suc (length rest)) m.fields body r is.are_fields (omega arith) in
    (
      parse_body alloc buffer len body (store_all m.fields r),
      rw (found, http_parse_request)
          (ap
              (λ (t : Bytes).
                parse_rest alloc buffer len rest (parse_request_line t http_request_init))
              line_is
            ∙ parse_rest_good alloc buffer len rest (parse_request_line text http_request_init) good
                headers),
      after_line m behind alloc r is given
          (parse_request_line-Fits text http_request_init http_request_init-Fits)
          (request_line-Untouched text) parsed ended,
    )

pub http_parse_request_printed :
    (m : Message) (alloc : ℕ → Bool)
    → IsMessage m
    → ((n : ℕ) → alloc n ≡ true)
    → (r : Request) × (http_parse_request alloc (print m) (length (print m)) ≡ some (r, true))
      × ReadBack m r
http_parse_request_printed m alloc is given =
    subst
      (λ (text : Bytes).
        (r : Request) × (http_parse_request alloc text (length (print m)) ≡ some (r, true))
        × ReadBack m r)
      (print_onto m [] ∙ append-nil (print m))
      (http_parse_request-followed m [] alloc is given refl)
