-- ===== src/Parser/Message.antt =====
-- A message as a client prints it, and a buffer that holds one.

use epoll_http_server.Prelude.{
  append_assoc, ℕ, ◌<◌, ◌≡◌, refl, sym, ap, ◌∙◌, ◌≢◌, List, [], ◌∷◌, ◌++◌, Bytes, length, take,
  true, All, All-append,
}
use epoll_http_server.CString.Scan.{Lacks}
use epoll_http_server.Parser.RequestLine.{IsWord}
use epoll_http_server.Parser.HeaderLine.{print_header}
use epoll_http_server.Parser.Headers.{Field, IsField, print_headers}
use epoll_http_server.Prelude.Int.{pos, ltb_ℤ}
use epoll_http_server.Parser.Stored.{map_fields, cut, content_length_of}
use epoll_http_server.Parser.{line_size, max_headers}

-- A message as the client means it.
pub record Message : Type 0 where
  pub method : Bytes
  pub uri : Bytes
  pub version : Bytes
  pub fields : List Field
  pub body : Bytes

abbrev pub print_line : Message → Bytes
print_line m = m.method ++ 32 ∷ (m.uri ++ 32 ∷ m.version)

abbrev pub print : Message → Bytes
print m = print_line m ++ (13 ∷ 10 ∷ print_headers m.fields m.body)

-- Its request line has three words with no CR and fits a line, and so do its headers.
pub record IsMessage (m : Message) : Type 0 where
  pub method_word : IsWord m.method
  pub uri_word : IsWord m.uri
  pub version_word : IsWord m.version
  pub line_no_cr : Lacks 13 m.method × Lacks 13 m.uri × Lacks 13 m.version
  pub line_short : length (print_line m) < line_size
  pub are_fields : All IsField m.fields
  -- The length that the headers announce leaves room for the NUL in an `int`.
  pub length_fits :
      ltb_ℤ
        (content_length_of (map_fields cut (take max_headers m.fields)) (pos 0))
        (pos 2147483647)
      ≡ true

pub print_line-Lacks :
    (x : ℕ) (m : Message)
    → 32 ≢ x
    → Lacks x m.method
    → Lacks x m.uri
    → Lacks x m.version
    → Lacks x (print_line m)
print_line-Lacks x m ne a b c =
    All-append (λ k. k ≢ x) m.method _ a (ne, All-append (λ k. k ≢ x) m.uri _ b (ne, c))

pub print_headers_before :
    (xs : List Field) (body : Bytes) → (b : Bytes) × (print_headers xs body ≡ b ++ body)
print_headers_before [] body = (13 ∷ 10 ∷ [], refl)
print_headers_before (x ∷ xs) body =
    let (b, e) = print_headers_before xs body in
    let text = print_header x.name x.value in
    (
      text ++ (13 ∷ 10 ∷ b),
      ap (λ (t : Bytes). text ++ (13 ∷ 10 ∷ t)) e ∙ sym (append_assoc text (13 ∷ 10 ∷ b) body),
    )

-- A buffer that holds a message and more behind it.
abbrev pub followed : Message → Bytes → Message
followed m behind = record m { body = m.body ++ behind }

pub print_headers_onto :
    (xs : List Field) (body behind : Bytes)
    → print_headers xs (body ++ behind) ≡ print_headers xs body ++ behind
print_headers_onto [] body behind = refl
print_headers_onto (x ∷ xs) body behind =
    let text = print_header x.name x.value in
    ap (λ (t : Bytes). text ++ (13 ∷ 10 ∷ t)) (print_headers_onto xs body behind)
    ∙ sym (append_assoc text (13 ∷ 10 ∷ print_headers xs body) behind)

pub print_onto : (m : Message) (behind : Bytes) → print (followed m behind) ≡ print m ++ behind
print_onto m behind =
    ap (λ (t : Bytes). print_line m ++ (13 ∷ 10 ∷ t)) (print_headers_onto m.fields m.body behind)
    ∙ sym (append_assoc (print_line m) (13 ∷ 10 ∷ print_headers m.fields m.body) behind)
