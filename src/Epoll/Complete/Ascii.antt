-- ===== src/Epoll/Complete/Ascii.antt =====
-- How `is_request_complete` runs: it always returns, and on ASCII text it never finds a length.
use epoll_http_server.Prelude.{
  ℕ, zero, suc, ◌+◌, ◌≤◌, ◌<◌, ◌≡◌, ◌⊎◌, refl, Bool, true, false, not, inl, inr, [], ◌∷◌, ◌++◌,
  Option, none, some, arith, ltb, Bytes, codes, length, drop, length-drop, All, Bool-cases,
  Option-cases,
}
use epoll_http_server.Prelude.Int.{ℤ, pos}
use epoll_http_server.CString.{ptr_diff, strstr, strncasecmp_zero, tolower}
use epoll_http_server.CString.Scan.{Lacks, strstr-Found, Found-length, starts-length}
use epoll_http_server.Parser.{crlf}
use epoll_http_server.Epoll.Complete.{
  blank_line, length_literal, Round, found, absent, next, scan_step, scan_length, is_short,
  is_request_complete,
}

Round-cases :
    (r : Round) → ((n : ℤ) × (r ≡ found n)) ⊎ ((r ≡ absent) ⊎ ((q : Bytes) × (r ≡ next q)))
Round-cases (found n) = inl (n, refl)
Round-cases absent = inr (inl refl)
Round-cases (next q) = inr (inr (q, refl))

-- A round that goes on leaves the pointer further on.
abbrev Advances : Bytes → Round → Type 0
Advances p (next q) = length q < length p
Advances p _ = Unit

scan_step-Advances : (p header_end : Bytes) → Advances p (scan_step p header_end)
unfolding scan_step
scan_step-Advances p header_end = elim (Bool-cases (ltb (length header_end) (length p))) [
  | inr past ↦ rw (past, scan_step) tt
  | inl before ↦ elim (Bool-cases (strncasecmp_zero p length_literal 15)) [
    | inl hit ↦ rw (before, hit, scan_step) tt
    | inr miss ↦ elim (Option-cases (strstr p crlf)) [
      | inl last ↦ rw (before, miss, last, scan_step) tt
      | inr (e, at_e) ↦
          let f = strstr-Found p crlf at_e in
          rw (before, miss, at_e, scan_step)
            (omega (arith, Found-length f, starts-length crlf e f.stands, length-drop 2 e))
    ]
  ]
]

scan_length_total :
    (fuel : ℕ) (p header_end : Bytes)
    → length p < fuel
    → (n : ℤ) × (scan_length fuel p header_end ≡ some n)
unfolding scan_length
scan_length_total zero p header_end h = elim h [ ]
scan_length_total (suc fuel) p header_end h = elim (Round-cases (scan_step p header_end)) [
  | inl (n, e) ↦ (n, rw (e, scan_length))
  | inr (inl e) ↦ (pos 0, rw (e, scan_length))
  | inr (inr (q, e)) ↦
      let shorter : length q < length p = rw e at (scan_step-Advances p header_end) in
      rw (e, scan_length) (scan_length_total fuel q header_end (omega arith))
]

-- The test returns on every buffer: its search for the length ends.
pub is_request_complete_total :
    (buf : Bytes) (len : ℕ) → (r : Bool × Option ℤ) × (is_request_complete buf len ≡ some r)
unfolding is_request_complete
is_request_complete_total buf len = elim (Option-cases (strstr buf blank_line)) [
  | inl open_headers ↦ ((false, none), rw (open_headers, is_request_complete))
  | inr (e, at_e) ↦
      let (n, found_n) = scan_length_total (suc (length buf)) buf e (omega arith) in
      ((not (is_short len (ptr_diff e buf + 4) n), some n), rw (at_e, found_n, is_request_complete))
]

-- ASCII bytes.
abbrev pub IsAscii : Bytes → Type 0
IsAscii = All (λ c. c < 128)

-- ASCII text differs from a literal with a byte that is not ASCII.
ascii_differs :
    (p pre post : Bytes) (x n : ℕ)
    → IsAscii p
    → 128 ≤ x
    → Lacks 0 pre
    → length pre < n
    → strncasecmp_zero p (pre ++ x ∷ post) n ≡ false
unfolding strncasecmp_zero tolower
ascii_differs p pre post x zero a h z k = absurd (omega arith)
ascii_differs [] [] post x (suc n) a h z k = ground arith
ascii_differs [] (d ∷ pre) post x (suc n) a h z k = ground arith
ascii_differs (c ∷ p) [] post x (suc n) a h z k = ground arith
ascii_differs (c ∷ p) (d ∷ pre) post x (suc n) a h z k =
    ground (arith, ascii_differs p pre post x n a.1 h z.1)

never_matches : (p : Bytes) → IsAscii p → strncasecmp_zero p length_literal 15 ≡ false
never_matches p a =
    ascii_differs p (codes "Content") (0x80 ∷ 0x91 ∷ codes "Length:") 0xe2 15 a (omega arith)
      (omega arith) (omega arith)

IsAscii-drop : (n : ℕ) (s : Bytes) → IsAscii s → IsAscii (drop n s)
IsAscii-drop zero s a = a
IsAscii-drop (suc n) [] a = tt
IsAscii-drop (suc n) (c ∷ s) a = IsAscii-drop n s a.1

IsAscii-behind : (before rest : Bytes) → IsAscii (before ++ rest) → IsAscii rest
IsAscii-behind [] rest a = a
IsAscii-behind (c ∷ before) rest a = IsAscii-behind before rest a.1

scan_length-ascii :
    (fuel : ℕ) (p header_end : Bytes)
    → IsAscii p
    → length p < fuel
    → scan_length fuel p header_end ≡ some (pos 0)
unfolding scan_length scan_step
scan_length-ascii zero p header_end a h = elim h [ ]
scan_length-ascii (suc fuel) p header_end a h =
    elim (Bool-cases (ltb (length header_end) (length p))) [
      | inr past ↦ rw (past, scan_length, scan_step)
      | inl before ↦ elim (Option-cases (strstr p crlf)) [
        | inl last ↦ rw (before, never_matches p a, last, scan_length, scan_step)
        | inr (e, at_e) ↦
            let f = strstr-Found p crlf at_e in
            let shorter : length (drop 2 e) < length p =
              omega (arith, Found-length f, starts-length crlf e f.stands, length-drop 2 e) in
            let behind : IsAscii e = IsAscii-behind f.before e (rw (f.splits) at a) in
            rw (before, never_matches p a, at_e, scan_length, scan_step)
              (scan_length-ascii fuel (drop 2 e) header_end (IsAscii-drop 2 e behind) (omega arith))
      ]
    ]

-- On ASCII text the length of the body is never found: once the headers have ended the request
-- counts as complete, whatever `Content-Length` it announces, and however little of its body is there.
pub is_request_complete-ascii :
    (buf header_end : Bytes) (len : ℕ)
    → IsAscii buf
    → strstr buf blank_line ≡ some header_end
    → ptr_diff header_end buf + 4 ≤ len
    → is_request_complete buf len ≡ some (true, some (pos 0))
unfolding is_request_complete
is_request_complete-ascii buf header_end len a ended enough =
    rw
      (
        ended,
        scan_length-ascii (suc (length buf)) buf header_end a (omega arith),
        is_request_complete,
      )
      (ground arith)
