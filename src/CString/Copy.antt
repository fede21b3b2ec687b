-- ===== src/CString/Copy.antt =====
-- What the copies of CString leave in an array: its size never changes, and the string that is read
-- back is the source's, cut to the room there is.
use Prim.Native.Nat.add
use epoll_http_server.Prelude.{
  ℕ, zero, suc, ◌+◌, ◌≤◌, ◌<◌, ◌≡◌, refl, ap, ◌∙◌, [], ◌∷◌, ◌++◌, arith, Bytes, length, set, take,
  take_all, sym, dec_le, take-set, min, length-set,
}
use epoll_http_server.CString.Scan.{Lacks}
use epoll_http_server.CString.{cstr, strncpy, memcpy, memcpy_at, snprintf}

pub length-strncpy : (dest src : Bytes) (n : ℕ) → length (strncpy dest src n) ≡ length dest
unfolding strncpy
length-strncpy dest src zero = refl
length-strncpy [] src (suc n) = refl
length-strncpy (d ∷ dest) [] (suc n) = ap suc (length-strncpy dest [] n)
length-strncpy (d ∷ dest) (c ∷ src) (suc n) = ap suc (length-strncpy dest _ n)

-- `strncpy(dest, src, n); dest[n] = '\0';` with room for the NUL.
pub cstr-strncpy :
    (dest src : Bytes) (n : ℕ)
    → n < length dest
    → cstr (set (strncpy dest src n) n 0) ≡ take n (cstr src)
unfolding strncpy cstr
cstr-strncpy [] src n h = absurd (omega arith)
cstr-strncpy (d ∷ dest) src zero h = refl
cstr-strncpy (d ∷ dest) [] (suc n) h = refl
cstr-strncpy (d ∷ dest) (c ∷ src) (suc n) h = ground (arith, cstr-strncpy dest src n)

pub length-memcpy : (dest src : Bytes) (n : ℕ) → length (memcpy dest src n) ≡ length dest
unfolding memcpy
length-memcpy dest src zero = refl
length-memcpy [] src (suc n) = refl
length-memcpy (d ∷ dest) [] (suc n) = refl
length-memcpy (d ∷ dest) (c ∷ src) (suc n) = ap suc (length-memcpy dest src n)

pub length-memcpy_at :
    (dest : Bytes) (i : ℕ) (src : Bytes) (n : ℕ) → length (memcpy_at dest i src n) ≡ length dest
unfolding memcpy_at
length-memcpy_at dest zero src n = length-memcpy dest src n
length-memcpy_at [] (suc i) src n = refl
length-memcpy_at (d ∷ dest) (suc i) src n = ap suc (length-memcpy_at dest i src n)

-- With room in the array the bytes copied stand where they were written, behind what was there.
pub take-memcpy :
    (dest src : Bytes)
    → length src ≤ length dest
    → take (length src) (memcpy dest src (length src)) ≡ src
unfolding memcpy
take-memcpy dest [] h = refl
take-memcpy [] (c ∷ src) h = absurd (omega arith)
take-memcpy (d ∷ dest) (c ∷ src) h = ap (◌∷◌ c) (take-memcpy dest src (omega arith))

pub take-memcpy_at :
    (dest : Bytes) (i : ℕ) (src : Bytes)
    → i + length src ≤ length dest
    → take (i + length src) (memcpy_at dest i src (length src)) ≡ take i dest ++ src
unfolding memcpy_at
take-memcpy_at dest zero src h = ground (arith, take-memcpy dest src)
take-memcpy_at [] (suc i) src h = absurd (omega arith)
take-memcpy_at (d ∷ dest) (suc i) src h =
    rw add.suc (ap (◌∷◌ d) (take-memcpy_at dest i src (omega arith)))

-- What stands before the place of a copy stays.
pub take-memcpy_at_before :
    (dest : Bytes) (i : ℕ) (src : Bytes) (n : ℕ) → take i (memcpy_at dest i src n) ≡ take i dest
unfolding memcpy_at
take-memcpy_at_before dest zero src n = refl
take-memcpy_at_before [] (suc i) src n = refl
take-memcpy_at_before (d ∷ dest) (suc i) src n = ap (◌∷◌ d) (take-memcpy_at_before dest i src n)

-- Copying the whole string: what is read back is that string.
pub cstr-strncpy_whole :
    (dest src : Bytes) (n : ℕ)
    → n < length dest
    → length (cstr src) ≤ n
    → cstr (set (strncpy dest src n) n 0) ≡ cstr src
cstr-strncpy_whole dest src n h k = cstr-strncpy dest src n h ∙ take_all n (cstr src) k

take-memcpy_cells :
    (dest src : Bytes) (n : ℕ)
    → n ≤ length dest
    → n ≤ length src
    → take n (memcpy dest src n) ≡ take n src
unfolding memcpy
take-memcpy_cells dest src zero h k = refl
take-memcpy_cells [] src (suc n) h k = absurd (omega arith)
take-memcpy_cells (d ∷ dest) [] (suc n) h k = absurd (omega arith)
take-memcpy_cells (d ∷ dest) (c ∷ src) (suc n) h k =
    ap (◌∷◌ c) (take-memcpy_cells dest src n (omega arith) (omega arith))

-- The cells copied stand behind what was there before the place of the copy.
pub take-memcpy_at_cells :
    (dest : Bytes) (i : ℕ) (src : Bytes) (n : ℕ)
    → i + n ≤ length dest
    → n ≤ length src
    → take (i + n) (memcpy_at dest i src n) ≡ take i dest ++ take n src
unfolding memcpy_at
take-memcpy_at_cells dest zero src n h k =
    ap (λ (m : ℕ). take m (memcpy dest src n)) (add.zero n)
    ∙ take-memcpy_cells dest src n (omega arith) k
take-memcpy_at_cells [] (suc i) src n h k = absurd (omega arith)
take-memcpy_at_cells (d ∷ dest) (suc i) src n h k =
    rw add.suc (ap (◌∷◌ d) (take-memcpy_at_cells dest i src n (omega arith) k))

-- A text that fits is printed whole.
pub snprintf_whole :
    (dest : Bytes) (size : ℕ) (text : Bytes)
    → size ≤ length dest
    → length text < size
    → take (length text) (snprintf dest size text).0 ≡ text
unfolding snprintf
snprintf_whole dest zero text h k = absurd (omega arith)
snprintf_whole dest (suc size) text h k =
    let all : min size (length text) ≡ length text = omega arith in
    rw all (
      take-set (memcpy dest text (length text)) (length text) 0
      ∙ take-memcpy dest text (omega arith))

pub length-snprintf :
    (dest : Bytes) (size : ℕ) (text : Bytes) → length (snprintf dest size text).0 ≡ length dest
unfolding snprintf
length-snprintf dest zero text = refl
length-snprintf dest (suc size) text =
    length-set (memcpy dest text (min size (length text))) _ 0 ∙ length-memcpy dest text _

pub snprintf_result :
    (dest : Bytes) (size : ℕ) (text : Bytes) → (snprintf dest size text).1 ≡ length text
unfolding snprintf
snprintf_result dest zero text = refl
snprintf_result dest (suc size) text = refl

cstr-memcpy :
    (dest text : Bytes) (n : ℕ)
    → n < length dest
    → n ≤ length text
    → Lacks 0 text
    → cstr (set (memcpy dest text n) n 0) ≡ take n text
unfolding memcpy cstr
cstr-memcpy [] text n h k z = absurd (omega arith)
cstr-memcpy (d ∷ dest) text zero h k z = refl
cstr-memcpy (d ∷ dest) [] (suc n) h k z = absurd (omega arith)
cstr-memcpy (d ∷ dest) (c ∷ text) (suc n) h k z = ground (arith, cstr-memcpy dest text n)

take-min : (n : ℕ) (text : Bytes) → take (min n (length text)) text ≡ take n text
take-min n text = elim (dec_le n (length text)) [
  | yes h ↦ let e : min n (length text) ≡ n = omega arith in rw e
  | no h ↦
      let e : min n (length text) ≡ length text = omega arith in
      rw e (take_all (length text) text (omega arith) ∙ sym (take_all n text (omega arith)))
]

-- The string that `snprintf` leaves: the text, cut to the room there is.
pub cstr-snprintf :
    (dest : Bytes) (size : ℕ) (text : Bytes)
    → size < length dest
    → Lacks 0 text
    → cstr (snprintf dest (suc size) text).0 ≡ take size text
unfolding snprintf
cstr-snprintf dest size text h z =
    cstr-memcpy dest text (min size (length text)) (omega arith) (omega arith) z
    ∙ take-min size text
