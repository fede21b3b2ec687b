-- ===== src/Parser/Headers.antt =====
-- The loop over the headers on the lines that a client writes: which of them it keeps.
use epoll_http_server.Prelude.{
  ℕ, zero, suc, ◌<◌, ◌≡◌, refl, ap, ◌∙◌, ◌≢◌, false, List, [], ◌∷◌, ◌++◌, some, arith, Bytes,
  length, take_all, All, All-append, ◌==◌, length-append,
}
use epoll_http_server.CString.{starts, strstr}
use epoll_http_server.CString.Scan.{Lacks, strstr_found}
use epoll_http_server.Parser.RequestLine.{ptr_diff-append, take-clip}
use epoll_http_server.Parser.HeaderLine.{IsName, IsValue, IsValue-Lacks, print_header}
use epoll_http_server.Parser.{
  Request, finish, line, crlf, line_size, copy_line, next_line, store_header, parse_headers,
}

-- A header as the client means it.
pub record Field : Type 0 where
  pub name : Bytes
  pub value : Bytes

-- Its name and value can be written on a line that the server takes whole.
pub record IsField (x : Field) : Type 0 where
  pub is_name : IsName x.name
  pub name_no_cr : Lacks 13 x.name
  pub is_value : IsValue x.value
  pub short : length (print_header x.name x.value) < line_size

-- The lines of the headers, then the empty line, then what follows.
abbrev pub print_headers : List Field → Bytes → Bytes
print_headers [] rest = 13 ∷ 10 ∷ rest
print_headers (x ∷ xs) rest = print_header x.name x.value ++ (13 ∷ 10 ∷ print_headers xs rest)

next_line_end : (rest : Bytes) → next_line (13 ∷ 10 ∷ rest) ≡ finish rest
unfolding next_line starts
next_line_end rest = refl

pub copy_line_whole :
    (pre rest : Bytes) → length pre < line_size → copy_line (pre ++ rest) (length pre) ≡ pre
copy_line_whole pre rest h = take-clip 1023 pre rest ∙ take_all 1023 pre (omega arith)

next_line_text :
    (text rest : Bytes)
    → Lacks 13 text
    → Lacks 0 text
    → (text ≡ [] → ⊥)
    → length text < line_size
    → next_line (text ++ (13 ∷ 10 ∷ rest)) ≡ line text rest
unfolding next_line starts
next_line_text [] rest cr nul ne short = absurd (ne refl)
next_line_text (c ∷ s) rest cr nul ne short =
    let found : strstr ((c ∷ s) ++ (13 ∷ 10 ∷ rest)) crlf ≡ some (13 ∷ 10 ∷ rest) =
      strstr_found 13 (10 ∷ []) (c ∷ s) rest cr nul in
    let not_nul : (c == 0) ≡ false = ground arith in
    let not_cr : (13 == c) ≡ false = ground arith in
    rw (not_nul, not_cr, found, next_line)
      (ap (λ (t : Bytes). line t rest)
        (ap (copy_line ((c ∷ s) ++ (13 ∷ 10 ∷ rest))) (ptr_diff-append (c ∷ s) (13 ∷ 10 ∷ rest))
          ∙ copy_line_whole (c ∷ s) (13 ∷ 10 ∷ rest) short))

-- The requests that the loop goes through, a line at a time.
abbrev pub store_all : List Field → Request → Request
store_all [] request = request
store_all (x ∷ xs) request = store_all xs (store_header (print_header x.name x.value) request)

print_header-Lacks_cr : (x : Field) → IsField x → Lacks 13 (print_header x.name x.value)
print_header-Lacks_cr x f =
    All-append (λ c. c ≢ 13) x.name _ f.name_no_cr
      (omega arith, (omega arith, (IsValue-Lacks x.value f.is_value).0))

pub print_header-Lacks_nul : (x : Field) → IsField x → Lacks 0 (print_header x.name x.value)
print_header-Lacks_nul x f =
    All-append (λ c. c ≢ 0) x.name _ f.is_name.1
      (omega arith, (omega arith, (IsValue-Lacks x.value f.is_value).1))

print_header-ne-nil : (name value : Bytes) → print_header name value ≡ [] → ⊥
print_header-ne-nil [] value h = cc
print_header-ne-nil (c ∷ name) value h = cc

-- The loop takes the lines in order and stops behind the empty line.
pub parse_headers_printed :
    (fuel : ℕ) (xs : List Field) (rest : Bytes) (request : Request)
    → All IsField xs
    → length (print_headers xs rest) < fuel
    → parse_headers fuel (print_headers xs rest) request ≡ some (rest, store_all xs request)
unfolding parse_headers
parse_headers_printed zero xs rest request h short = elim short [ ]
parse_headers_printed (suc fuel) [] rest request h short = rw (next_line_end rest, parse_headers)
parse_headers_printed (suc fuel) (x ∷ xs) rest request h short =
    let text = print_header x.name x.value in
    let here : next_line (text ++ (13 ∷ 10 ∷ print_headers xs rest))
        ≡ line text (print_headers xs rest) =
      next_line_text text (print_headers xs rest) (print_header-Lacks_cr x h.0)
        (print_header-Lacks_nul x h.0) (print_header-ne-nil x.name x.value) h.0.short in
    rw (here, parse_headers)
      (parse_headers_printed fuel xs rest (store_header text request) h.1
        (omega (arith, length-append text (13 ∷ 10 ∷ print_headers xs rest))))
