-- ===== src/Parser/Print.antt =====
-- `http_request_print` of src/http_parser.c: the messages that it passes to `log_info`, in order.
use epoll_http_server.Prelude.{
  ◌+◌, ◌/◌, ◌%◌, ◌≡◌, refl, ap, List, [], ◌∷◌, ◌++◌, ltb, if◌then◌else◌, Bytes, codes, take,
}
use epoll_http_server.Prelude.Int.{ℤ, pos, ltb_ℤ}
use epoll_http_server.CString.{cstr}
use epoll_http_server.CString.Decimal.{decimal, decimal_int}
use epoll_http_server.Parser.{Header, Request, max_headers}
use epoll_http_server.Parser.Headers.{Field}
use epoll_http_server.Parser.Message.{Message}
use epoll_http_server.Parser.RoundTrip.{ReadBack}
use epoll_http_server.Parser.Stored.{cut, view, map_fields}

-- The bytes of a text whose code points are below 65536.
unfoldable pub utf8 : Bytes → Bytes
utf8 [] = []
utf8 (c ∷ cs) =
    let rest = utf8 cs in
    if ltb c 128
    then c ∷ rest
    else if ltb c 2048
    then (192 + c / 64) ∷ (128 + c % 64) ∷ rest
    else (224 + c / 4096) ∷ (128 + c / 64 % 64) ∷ (128 + c % 64) ∷ rest

-- `  %s: %s`
abbrev pub print_field : Field → Bytes
print_field x = codes "  " ++ (x.name ++ (codes ": " ++ x.value))

unfoldable pub print_stored : List Header → List Bytes
print_stored [] = []
print_stored (x ∷ xs) =
    (codes "  " ++ (cstr x.name ++ (codes ": " ++ cstr x.value))) ∷ print_stored xs

-- The message on the body, and the last line.
unfoldable pub print_end : ℤ → List Bytes
unfolding utf8
print_end body_length =
    if ltb_ℤ (pos 0) body_length
    then (utf8 (codes "请求体长度: ") ++ decimal_int body_length) ∷ codes "===================" ∷ []
    else codes "===================" ∷ []

unfoldable pub http_request_print : Request → List Bytes
unfolding print_stored print_end utf8
http_request_print request =
    utf8 (codes "===== HTTP请求 =====")
    ∷ (utf8 (codes "方法: ") ++ cstr request.method)
    ∷ (codes "URI: " ++ cstr request.uri)
    ∷ (utf8 (codes "版本: ") ++ cstr request.version)
    ∷ (codes "Host: " ++ cstr request.host)
    ∷ (codes "Keep-Alive: " ++ (if request.keep_alive then codes "yes" else codes "no"))
    ∷ (utf8 (codes "头部数量: ") ++ decimal request.header_count)
    ∷ (print_stored (take request.header_count request.headers) ++ print_end request.body_length)

abbrev pub print_fields : List Field → List Bytes
print_fields [] = []
print_fields (x ∷ xs) = print_field x ∷ print_fields xs

print_stored-view : (xs : List Header) → print_stored xs ≡ print_fields (map_fields view xs)
unfolding print_stored
print_stored-view [] = refl
print_stored-view (x ∷ xs) =
    ap (λ (ys : List Bytes). print_field (view x) ∷ ys) (print_stored-view xs)

-- For a request that was read back from a message, the log has the words of its request line and its
-- first headers, in order, each cut to its array.
pub http_request_print-ReadBack :
    (m : Message) (r : Request)
    → ReadBack m r
    → http_request_print r
      ≡ utf8 (codes "===== HTTP请求 =====")
        ∷ (utf8 (codes "方法: ") ++ take 15 m.method)
        ∷ (codes "URI: " ++ take 2047 m.uri)
        ∷ (utf8 (codes "版本: ") ++ take 15 m.version)
        ∷ (codes "Host: " ++ cstr r.host)
        ∷ (codes "Keep-Alive: " ++ (if r.keep_alive then codes "yes" else codes "no"))
        ∷ (utf8 (codes "头部数量: ") ++ decimal r.header_count)
        ∷ (print_fields (map_fields cut (take max_headers m.fields)) ++ print_end r.body_length)
unfolding http_request_print
http_request_print-ReadBack m r b =
    rw (print_stored-view (take r.header_count r.headers), b.headers, b.line.0, b.line.1, b.line.2)
