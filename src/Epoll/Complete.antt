-- ===== src/Epoll/Complete.antt =====
-- `is_request_complete`: the end of the headers, and the length of the body that they announce.
pub mod Ascii
pub mod Printed
use epoll_http_server.Prelude.{
  ℕ, zero, suc, ◌+◌, ◌-◌, ◌^◌, Bool, true, false, ◌||◌, not, [], ◌∷◌, ◌++◌, Option, none, some, ltb,
  ◌==◌, if◌then◌else◌, Bytes, codes, length, drop,
}
use epoll_http_server.Prelude.Int.{ℤ, pos, negsuc, pos_part, neg_part, sub_ℕ, ltb_ℤ}
use epoll_http_server.CString.{ptr_diff, strstr, strncasecmp_zero, atoi}
use epoll_http_server.Parser.{crlf}

-- The end of the headers.
abbrev pub blank_line : Bytes
blank_line = 13 ∷ 10 ∷ 13 ∷ 10 ∷ []

-- The literal of the source, byte for byte: between `Content` and `Length:` stand the three bytes of
-- U+2011, a hyphen that is not the ASCII one.
abbrev pub length_literal : Bytes
length_literal = codes "Content" ++ (0xe2 ∷ 0x80 ∷ 0x91 ∷ codes "Length:")

-- `while (*p == ' ' || *p == '\t')`
unfoldable pub skip_blanks : Bytes → Bytes
skip_blanks [] = []
skip_blanks (c ∷ s) = if c == 32 || c == 9 then skip_blanks s else c ∷ s

-- One round of the search for the header: it ends with a length, or goes on at the next line.
pub data Round : Type 0 where
  found : (length : ℤ) → Round
  absent : Round
  next : (p : Bytes) → Round

unfoldable pub scan_step : Bytes → Bytes → Round
unfolding skip_blanks
scan_step p header_end =
    if ltb (length header_end) (length p)
    then (if strncasecmp_zero p length_literal 15
        then found (atoi (skip_blanks (drop 15 p)))
        else (elim (strstr p crlf) [ none ↦ absent | some e ↦ next (drop 2 e) ]))
    else absent

-- `while (p < header_end)`. With no fuel left the result is `none`.
unfoldable pub scan_length : ℕ → Bytes → Bytes → Option ℤ
unfolding scan_step
scan_length zero p header_end = none
scan_length (suc fuel) p header_end = elim (scan_step p header_end) [
  | found n ↦ some n
  | absent ↦ some (pos 0)
  | next q ↦ scan_length fuel q header_end
]

-- A sum as an `int`, which wraps.
abbrev pub wrap_int : ℤ → ℤ
wrap_int (pos k) = if ltb k (2 ^ 31) then pos k else sub_ℕ k (2 ^ 32)
wrap_int (negsuc k) = negsuc k

-- `len < header_len + content_length`
abbrev pub is_short : ℕ → ℕ → ℤ → Bool
is_short len header_len n =
    ltb_ℤ (pos len) (wrap_int (sub_ℕ (header_len + pos_part n) (neg_part n)))

-- Whether the request is complete, and the length that was found, if the headers have ended.
unfoldable pub is_request_complete : Bytes → ℕ → Option (Bool × Option ℤ)
unfolding scan_length
is_request_complete buf len = elim (strstr buf blank_line) [
  | none ↦ some (false, none)
  | some header_end ↦ elim (scan_length (suc (length buf)) buf header_end) [
    | none ↦ none
    | some n ↦ some (not (is_short len (ptr_diff header_end buf + 4) n), some n)
  ]
]
