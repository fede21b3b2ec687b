-- ===== src/Parser/RequestLine.antt =====
-- `copy_until` and `parse_request_line` on a line as a client writes it: method, URI and version
-- with a blank between them.
use epoll_http_server.Prelude.{
  ℕ, zero, suc, ◌-◌, ◌≤◌, ◌<◌, ◌≡◌, refl, sym, ap, ◌∙◌, inl, inr, true, false, [], ◌∷◌, ◌++◌, some,
  arith, Bool-cases, Bytes, codes, length, take, length-append, append-nil, take_all, take-append,
  ◌==◌, leb,
}
use epoll_http_server.CString.{deref, cstr, ptr_diff, isspace, strstr}
use epoll_http_server.CString.Copy.{cstr-strncpy}
use epoll_http_server.CString.Scan.{Lacks, strstr_found, strstr_missing, cstr_whole}
use epoll_http_server.Parser.Sizes.{Fits}
use epoll_http_server.Parser.{
  Request, clip, crlf, max_uri_length, max_version_length, skip_spaces, copy_to, copy_until,
  parse_version, parse_after_uri, parse_after_method, parse_request_line,
}

-- A word of a request line: it has a first byte, which is no white space, and no blank or NUL.
abbrev pub IsWord : Bytes → Type 0
IsWord [] = ⊥
IsWord (c ∷ s) = (isspace c ≡ false) × Lacks 32 (c ∷ s) × Lacks 0 (c ∷ s)

pub IsWord-Lacks : (w : Bytes) → IsWord w → Lacks 32 w × Lacks 0 w
IsWord-Lacks [] h = absurd h
IsWord-Lacks (c ∷ s) h = (h.1, h.2)

pub cstr-append : (pre rest : Bytes) → Lacks 0 pre → cstr (pre ++ rest) ≡ pre ++ cstr rest
unfolding cstr
cstr-append [] rest h = refl
cstr-append (c ∷ pre) rest h = ground (arith, cstr-append pre rest h.1)

pub take-append_le : (n : ℕ) (xs ys : Bytes) → n ≤ length xs → take n (xs ++ ys) ≡ take n xs
take-append_le zero xs ys h = refl
take-append_le (suc n) [] ys h = absurd (omega arith)
take-append_le (suc n) (x ∷ xs) ys h = ap (◌∷◌ x) (take-append_le n xs ys (omega arith))

suc_pred : (n : ℕ) → suc n - 1 ≡ n
suc_pred n = omega arith

-- A copy of the bytes up to a delimiter is cut to the array.
pub take-clip :
    (n : ℕ) (pre rest : Bytes) → take (clip (suc n) (length pre)) (pre ++ rest) ≡ take n pre
take-clip n pre rest = elim (Bool-cases (leb (suc n) (length pre))) [
  | inl long ↦ rw (long, suc_pred n) (take-append_le n pre rest (ground arith))
  | inr short ↦
      rw short (take-append (length pre) pre rest refl ∙ sym (take_all n pre (ground arith)))
]

pub ptr_diff-append : (pre rest : Bytes) → ptr_diff rest (pre ++ rest) ≡ length pre
ptr_diff-append pre rest = omega (arith, length-append pre rest)

pub clip-lt : (n len : ℕ) → clip (suc n) len < suc n
clip-lt n len = ground arith

copy_to_found :
    (n : ℕ) (dest pre rest : Bytes)
    → length dest ≡ suc n
    → Lacks 0 pre
    → cstr (copy_to dest (suc n) (pre ++ rest) (some rest)).0 ≡ take n pre
unfolding copy_to
copy_to_found n dest pre rest size nul =
    let found : ptr_diff rest (pre ++ rest) ≡ length pre = ptr_diff-append pre rest in
    rw found (
      cstr-strncpy dest (pre ++ rest) (clip (suc n) (length pre)) (rw size (clip-lt n (length pre)))
      ∙ ap (take (clip (suc n) (length pre))) (cstr-append pre rest nul)
      ∙ take-clip n pre (cstr rest))

-- Up to a blank: the bytes before it, cut to the array, and a pointer at the blank.
pub copy_until_blank :
    (n : ℕ) (dest pre rest : Bytes)
    → length dest ≡ suc n
    → Lacks 32 pre
    → Lacks 0 pre
    → (cstr (copy_until dest (suc n) (pre ++ 32 ∷ rest) (codes " ")).0 ≡ take n pre)
      × ((copy_until dest (suc n) (pre ++ 32 ∷ rest) (codes " ")).1 ≡ some (32 ∷ rest))
unfolding copy_until copy_to
copy_until_blank n dest pre rest size blank nul =
    let found : strstr (pre ++ 32 ∷ rest) (codes " ") ≡ some (32 ∷ rest) =
      strstr_found 32 [] pre rest blank nul in
    rw (found, copy_until) (copy_to_found n dest pre (32 ∷ rest) size nul, refl)

-- With no delimiter in the string the whole of it, cut to the array.
pub copy_until_missing :
    (n : ℕ) (dest src : Bytes) (x : ℕ) (more : Bytes)
    → length dest ≡ suc n
    → Lacks x src
    → cstr (copy_until dest (suc n) src (x ∷ more)).0 ≡ take n (cstr src)
unfolding copy_until copy_to
copy_until_missing n dest src x more size lacks =
    rw (strstr_missing x more src lacks, copy_until, copy_to, suc_pred n)
      (cstr-strncpy dest src n (omega arith))

skip_spaces_word : (w rest : Bytes) → IsWord w → skip_spaces (w ++ rest) ≡ w ++ rest
unfolding skip_spaces
skip_spaces_word [] rest h = absurd h
skip_spaces_word (c ∷ w) rest h = rw (h.0)

deref_of_cstr :
    (cells : Bytes) {c : ℕ} {s : Bytes} → cstr cells ≡ c ∷ s → (deref cells == 0) ≡ false
unfolding cstr
deref_of_cstr [] h = cc
deref_of_cstr (x ∷ cells) h = ground arith

-- The version goes on to the end of the line.
parse_version_printed :
    (version : Bytes) (request : Request)
    → length request.version ≡ max_version_length
    → IsWord version
    → Lacks 13 version
    → cstr (parse_version version request).version ≡ take 15 version
unfolding parse_version
parse_version_printed [] request size word lacks = absurd word
parse_version_printed (c ∷ s) request size word lacks =
    let copied : cstr (copy_until request.version 16 (c ∷ s) crlf).0 ≡ take 15 (c ∷ s) =
      copy_until_missing 15 request.version (c ∷ s) 13 (10 ∷ []) size lacks
      ∙ ap (take 15) (cstr_whole (c ∷ s) word.2) in
    rw (deref_of_cstr (copy_until request.version 16 (c ∷ s) crlf).0 copied, parse_version) copied

parse_version_keeps :
    (p : Bytes) (request : Request)
    → ((parse_version p request).method ≡ request.method)
      × ((parse_version p request).uri ≡ request.uri)
unfolding parse_version
parse_version_keeps p request =
    elim (Bool-cases (deref (copy_until request.version max_version_length p crlf).0 == 0)) [
      | inl empty ↦ rw (empty, parse_version) (refl, refl)
      | inr given ↦ rw (given, parse_version) (refl, refl)
    ]

skip_spaces_whole : (w : Bytes) → IsWord w → skip_spaces w ≡ w
skip_spaces_whole w h = rw append-nil at (skip_spaces_word w [] h)

-- The strings of the request line, each cut to its array.
abbrev pub Parsed : Request → Bytes → Bytes → Bytes → Type 0
Parsed r method uri version =
    (cstr r.method ≡ take 15 method)
    × (cstr r.uri ≡ take 2047 uri)
    × (cstr r.version ≡ take 15 version)

module _ (method uri version : Bytes) (uri_word : IsWord uri) (version_word : IsWord version)
    (no_cr : Lacks 13 version) where
  parse_after_uri_printed :
      (request : Request)
      → length request.version ≡ max_version_length
      → cstr request.method ≡ take 15 method
      → cstr request.uri ≡ take 2047 uri
      → let (r, parsed) = parse_after_uri (some (32 ∷ version)) request in
        (parsed ≡ true) × Parsed r method uri version
  unfolding parse_after_uri
  parse_after_uri_printed request size m u =
      let (same_method, same_uri) = parse_version_keeps version request in
      rw (skip_spaces_whole version version_word) (
        refl,
        (
          ap cstr same_method ∙ m,
          ap cstr same_uri ∙ u,
          parse_version_printed version request size version_word no_cr,
        ),
      )

  parse_after_method_printed :
      (request : Request)
      → length request.uri ≡ max_uri_length
      → length request.version ≡ max_version_length
      → cstr request.method ≡ take 15 method
      → let (r, parsed) = parse_after_method (some (32 ∷ (uri ++ 32 ∷ version))) request in
        (parsed ≡ true) × Parsed r method uri version
  unfolding parse_after_method
  parse_after_method_printed request uri_size version_size m =
      let (copied, behind) =
        copy_until_blank 2047 request.uri uri version uri_size (IsWord-Lacks uri uri_word).0
          (IsWord-Lacks uri uri_word).1 in
      rw (skip_spaces_word uri (32 ∷ version) uri_word, behind)
        (parse_after_uri_printed _ version_size m copied)

  -- A printed request line is parsed, and each of its three words is read back, cut to its array.
  pub parse_request_line_printed :
      (request : Request)
      → Fits request
      → IsWord method
      → let (r, parsed) = parse_request_line (method ++ 32 ∷ (uri ++ 32 ∷ version)) request in
        (parsed ≡ true) × Parsed r method uri version
  unfolding parse_request_line
  parse_request_line_printed request f word =
      let (copied, behind) =
        copy_until_blank 15 request.method method (uri ++ 32 ∷ version) f.method_ends.0
          (IsWord-Lacks method word).0 (IsWord-Lacks method word).1 in
      rw (skip_spaces_word method (32 ∷ (uri ++ 32 ∷ version)) word, behind)
        (parse_after_method_printed _ f.uri_ends.0 f.version_ends.0 copied)
