-- ===== src/Parser/HeaderLine.antt =====
-- `parse_header_line` on a line `Name: value`.
use epoll_http_server.Prelude.{
  ◌≡◌, refl, ap, ◌∙◌, true, false, [], ◌∷◌, ◌++◌, some, Bytes, length, take, append-nil,
}
use epoll_http_server.CString.{cstr, strlen, isspace, strchr}
use epoll_http_server.CString.Copy.{cstr-strncpy}
use epoll_http_server.CString.Scan.{Lacks, strchr_found, strchr_missing, strstr_missing, cstr_whole}
use epoll_http_server.Parser.Sizes.{HeaderFits}
use epoll_http_server.Parser.RequestLine.{cstr-append, take-clip, clip-lt, ptr_diff-append}
use epoll_http_server.Parser.{
  Header, clip, skip_spaces, value_length, parse_after_colon, parse_header_line,
}

-- The value of a header: it does not begin with white space, and has no CR and no NUL.
abbrev pub IsValue : Bytes → Type 0
IsValue [] = Unit
IsValue (c ∷ s) = (isspace c ≡ false) × Lacks 13 (c ∷ s) × Lacks 0 (c ∷ s)

-- The name of a header: no colon and no NUL.
abbrev pub IsName : Bytes → Type 0
IsName name = Lacks b':' name × Lacks 0 name

pub IsValue-Lacks : (v : Bytes) → IsValue v → Lacks 13 v × Lacks 0 v
IsValue-Lacks [] h = (tt, tt)
IsValue-Lacks (c ∷ s) h = (h.1, h.2)

skip_blank : (v : Bytes) → IsValue v → skip_spaces (32 ∷ v) ≡ v
unfolding skip_spaces isspace
skip_blank [] h = refl
skip_blank (c ∷ s) h = rw (h.0)

value_length_whole : (v : Bytes) → IsValue v → value_length v ≡ length v
unfolding value_length strlen
value_length_whole v h =
    rw (strstr_missing 13 (10 ∷ []) v (IsValue-Lacks v h).0, value_length)
      (ap length (cstr_whole v (IsValue-Lacks v h).1))

-- `Name: value`, without the end of the line.
abbrev pub print_header : Bytes → Bytes → Bytes
print_header name value = name ++ b':' ∷ 32 ∷ value

abbrev pub HeaderIs : Header → Bytes → Bytes → Type 0
HeaderIs h name value = (cstr h.name ≡ take 63 name) × (cstr h.value ≡ take 255 value)

-- A printed header is parsed, and its name and its value are read back, each cut to its array.
pub parse_header_line_printed :
    (name value : Bytes) (h : Header)
    → HeaderFits h
    → IsName name
    → IsValue value
    → let (r, parsed) = parse_header_line (print_header name value) h in
      (parsed ≡ true) × HeaderIs r name value
unfolding parse_header_line parse_after_colon
parse_header_line_printed name value h f n v =
    let colon : strchr (print_header name value) b':' ≡ some (b':' ∷ 32 ∷ value) =
      strchr_found b':' name (32 ∷ value) n.0 n.1 in
    let name_copied =
      cstr-strncpy h.name (print_header name value) (clip 64 (length name))
        (rw (f.name_ends.0) (clip-lt 63 (length name))) in
    let value_copied =
      cstr-strncpy h.value value (clip 256 (length value))
        (rw (f.value_ends.0) (clip-lt 255 (length value))) in
    rw
      (
        colon,
        ptr_diff-append name (b':' ∷ 32 ∷ value),
        skip_blank value v,
        value_length_whole value v,
      )
      (
        refl,
        (
          name_copied
              ∙ ap (take (clip 64 (length name))) (cstr-append name _ n.1)
              ∙ take-clip 63 name _,
          value_copied
              ∙ ap (take (clip 256 (length value))) (cstr_whole value (IsValue-Lacks value v).1)
              ∙ (rw append-nil at (take-clip 255 value [])),
        ),
      )

-- A line with no colon is no header, and leaves the entry as it was.
pub parse_header_line_no_colon :
    (text : Bytes) (h : Header) → Lacks b':' text → parse_header_line text h ≡ (h, false)
unfolding parse_header_line parse_after_colon
parse_header_line_no_colon text h lacks = rw (strchr_missing b':' text lacks)
