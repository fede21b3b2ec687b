-- ===== src/Mime/Lookup.antt =====
-- Which type a path gets.
use epoll_http_server.Prelude.{
  ℕ, zero, suc, ◌≤◌, ◌≡◌, refl, ◌≢◌, Bool, true, false, ◌&&◌, inl, inr, List, [], ◌∷◌, ◌++◌, some,
  arith, leb, leb→le, ◌==◌, if◌then◌else◌, Bytes, length, length-append, drop, get_elem?,
  Bool-cases, Option-cases,
}
use epoll_http_server.CString.{deref, strcmp_zero, bytes_eq, strrchr, ptr_diff}
use epoll_http_server.CString.Scan.{strrchr_last, Lacks, bytes_eq→eq}
use epoll_http_server.Mime.{
  Entry, default_type, mime_table, get_extension, find_type, mime_get_type,
}

lacks : ℕ → Bytes → Bool
lacks x [] = true
lacks x (c ∷ s) = (if c == x then false else true) && lacks x s

lacks-Lacks : (x : ℕ) (s : Bytes) → lacks x s ≡ true → Lacks x s
unfolding lacks
lacks-Lacks x [] h = tt
lacks-Lacks x (c ∷ s) h = ground (arith, lacks-Lacks x s)

-- What is checked of each entry by evaluation.
entry_good : Entry → Bool
unfolding lacks bytes_eq find_type mime_table strcmp_zero
entry_good e =
    (deref e.extension == b'.')
    && lacks b'.' (drop 1 e.extension)
    && bytes_eq (find_type e.extension mime_table) e.content_type
    && leb (length e.content_type) 38

all_good : List Entry → Bool
unfolding entry_good
all_good [] = true
all_good (e ∷ es) = entry_good e && all_good es

table_good : all_good mime_table ≡ true
unfolding all_good mime_table
table_good = refl

all_good_at :
    (es : List Entry) (i : ℕ) (e : Entry)
    → all_good es ≡ true
    → get_elem? es i ≡ some e
    → entry_good e ≡ true
unfolding all_good
all_good_at [] i e h at_i = cc
all_good_at (x ∷ es) zero e h at_i = ground arith
all_good_at (x ∷ es) (suc i) e h at_i = ground (arith, all_good_at es i e)

-- What the check says of an entry.
record IsGood (e : Entry) : Type 0 where
  dotted : e.extension ≡ b'.' ∷ drop 1 e.extension
  one_dot : Lacks b'.' (drop 1 e.extension)
  found : find_type e.extension mime_table ≡ e.content_type
  short : length e.content_type ≤ 38

head_tail : (s : Bytes) (c : ℕ) → c ≢ 0 → (deref s == c) ≡ true → s ≡ c ∷ drop 1 s
head_tail [] c ne h = absurd (ground arith)
head_tail (x ∷ s) c ne h = ground arith

entry_good-IsGood : (e : Entry) → entry_good e ≡ true → IsGood e
unfolding entry_good
entry_good-IsGood e h = record {
  dotted = head_tail e.extension b'.' (omega arith) (ground arith);
  one_dot = lacks-Lacks b'.' (drop 1 e.extension) (ground arith);
  found = bytes_eq→eq (find_type e.extension mime_table) e.content_type (ground arith);
  short = leb→le (length e.content_type) 38 (ground arith);
}

table_at : (i : ℕ) (e : Entry) → get_elem? mime_table i ≡ some e → IsGood e
table_at i e h = entry_good-IsGood e (all_good_at mime_table i e table_good h)

get_extension_dotted :
    (stem ext : Bytes)
    → stem ≢ []
    → Lacks 0 stem
    → Lacks b'.' ext
    → get_extension (stem ++ b'.' ∷ ext) ≡ some (b'.' ∷ ext)
unfolding get_extension
get_extension_dotted [] ext ne z h = absurd (ne refl)
get_extension_dotted (c ∷ s) ext ne z h =
    let last : strrchr ((c ∷ s) ++ b'.' ∷ ext) b'.' ≡ some (b'.' ∷ ext) =
      strrchr_last b'.' (c ∷ s) ext (omega arith) h z in
    let behind : (ptr_diff (b'.' ∷ ext) ((c ∷ s) ++ b'.' ∷ ext) == 0) ≡ false =
      ground (arith, length-append s (b'.' ∷ ext)) in
    rw (last, behind, get_extension)

-- A path that ends with an extension of the table, with at least one byte before it and no NUL among
-- those, gets the type of that entry.
pub mime_get_type_known :
    (stem : Bytes) (i : ℕ) (e : Entry)
    → get_elem? mime_table i ≡ some e
    → stem ≢ []
    → Lacks 0 stem
    → mime_get_type (stem ++ e.extension) ≡ e.content_type
unfolding mime_get_type
mime_get_type_known stem i e at_i ne z =
    let good = table_at i e at_i in
    let ext : get_extension (stem ++ e.extension) ≡ some e.extension =
      rw (good.dotted) (get_extension_dotted stem (drop 1 e.extension) ne z good.one_dot) in
    rw (ext, mime_get_type) good.found

find_type_unknown :
    (ext : Bytes) (es : List Entry)
    → ((i : ℕ) (e : Entry) → get_elem? es i ≡ some e → strcmp_zero ext e.extension ≡ false)
    → find_type ext es ≡ default_type
unfolding find_type
find_type_unknown ext [] h = refl
find_type_unknown ext (e ∷ es) h = rw (h 0 e refl) (find_type_unknown ext es (λ i x. h (suc i) x))

-- A path whose extension is none of the table's is taken for plain bytes.
pub mime_get_type_unknown :
    (stem ext : Bytes)
    → stem ≢ []
    → Lacks 0 stem
    → Lacks b'.' ext
    → ((i : ℕ) (e : Entry)
        → get_elem? mime_table i ≡ some e
        → strcmp_zero (b'.' ∷ ext) e.extension ≡ false)
    → mime_get_type (stem ++ b'.' ∷ ext) ≡ default_type
unfolding mime_get_type
mime_get_type_unknown stem ext ne z h other =
    rw (get_extension_dotted stem ext ne z h, mime_get_type)
      (find_type_unknown (b'.' ∷ ext) mime_table other)

find_type-le : (ext : Bytes) (es : List Entry) → all_good es ≡ true → length (find_type ext es) ≤ 38
unfolding find_type all_good
find_type-le ext [] h = omega arith
find_type-le ext (e ∷ es) h = elim (Bool-cases (strcmp_zero ext e.extension)) [
  | inl hit ↦ rw (hit, find_type) ((entry_good-IsGood e (ground arith)).short)
  | inr miss ↦ rw (miss, find_type) (find_type-le ext es (ground arith))
]

-- Every type that the lookup returns is short, whatever the path.
pub length-mime_get_type-le : (path : Bytes) → length (mime_get_type path) ≤ 38
unfolding mime_get_type
length-mime_get_type-le path = elim (Option-cases (get_extension path)) [
  | inl missing ↦ rw (missing, mime_get_type) (omega arith)
  | inr (ext, e) ↦ rw (e, mime_get_type) (find_type-le ext mime_table table_good)
]
