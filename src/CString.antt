-- ===== src/CString.antt =====
-- C strings and the functions of <string.h>, <strings.h>, <ctype.h> and <stdlib.h> that the
-- server calls. A pointer into a char array is the list of the cells from it on; a cell is a byte,
-- and reading past the last cell gives the terminating NUL.
pub mod Scan
pub mod Copy
pub mod Decimal
pub mod Number
use epoll_http_server.Prelude.{
  ℕ, zero, suc, ◌+◌, ◌-◌, ◌*◌, ◌%◌, ◌^◌, Bool, true, false, ◌&&◌, ◌||◌, List, [], ◌∷◌, ◌++◌, Option,
  none, some, ltb, leb, ◌==◌, if◌then◌else◌, Bytes, length, min, set,
}
use epoll_http_server.Prelude.Int.{ℤ, pos, negsuc, int32_of_bits, bits_of}

-- `*p`
abbrev pub deref : Bytes → ℕ
deref [] = 0
deref (c ∷ s) = c

-- The bytes of the string under a pointer, up to its NUL.
unfoldable pub cstr : Bytes → Bytes
cstr [] = []
cstr (c ∷ s) = if c == 0 then [] else c ∷ cstr s

unfoldable pub strlen : Bytes → ℕ
unfolding cstr
strlen s = length (cstr s)

-- `q - p` for a pointer `q` further on in the array of `p`.
abbrev pub ptr_diff : Bytes → Bytes → ℕ
ptr_diff q p = length p - length q

-- The literal `n` stands at `p`: `strncmp(p, n, strlen(n)) == 0`. A literal holds no NUL, so that
-- the comparison never reads past the end of `p`.
unfoldable pub starts : Bytes → Bytes → Bool
starts [] p = true
starts (x ∷ n) [] = false
starts (x ∷ n) (c ∷ p) = x == c && starts n p

-- `strstr(s, n)` for a literal `n`: the first place in the string at which `n` stands.
unfoldable pub strstr : Bytes → Bytes → Option Bytes
unfolding starts
strstr [] n = if starts n [] then some [] else none
strstr (c ∷ s) n = if starts n (c ∷ s) then some (c ∷ s) else if c == 0 then none else strstr s n

-- `strchr(s, x)` for a character other than NUL.
unfoldable pub strchr : Bytes → ℕ → Option Bytes
strchr [] x = none
strchr (c ∷ s) x = if c == x then some (c ∷ s) else if c == 0 then none else strchr s x

-- `strrchr(s, x)` for a character other than NUL: the last place.
unfoldable pub strrchr : Bytes → ℕ → Option Bytes
strrchr [] x = none
strrchr (c ∷ s) x =
    let later = strrchr s x in
    if c == 0
    then none
    else elim later [ some p ↦ some p | none ↦ if c == x then some (c ∷ s) else none ]

unfoldable pub bytes_eq : Bytes → Bytes → Bool
bytes_eq [] [] = true
bytes_eq (x ∷ a) (y ∷ b) = x == y && bytes_eq a b
bytes_eq _ _ = false

-- `strcmp(a, b) == 0`
unfoldable pub strcmp_zero : Bytes → Bytes → Bool
unfolding bytes_eq cstr
strcmp_zero a b = bytes_eq (cstr a) (cstr b)

unfoldable pub tolower : ℕ → ℕ
tolower c = if leb b'A' c && leb c b'Z' then c + 32 else c

unfoldable pub case_eq : Bytes → Bytes → Bool
unfolding tolower
case_eq [] [] = true
case_eq (x ∷ a) (y ∷ b) = tolower x == tolower y && case_eq a b
case_eq _ _ = false

-- `strcasecmp(a, b) == 0`
unfoldable pub strcasecmp_zero : Bytes → Bytes → Bool
unfolding case_eq cstr
strcasecmp_zero a b = case_eq (cstr a) (cstr b)

-- `strncasecmp(a, b, n) == 0`
unfoldable pub strncasecmp_zero : Bytes → Bytes → ℕ → Bool
unfolding tolower
strncasecmp_zero a b zero = true
strncasecmp_zero [] b (suc n) = deref b == 0
strncasecmp_zero (c ∷ a) [] (suc n) = c == 0
strncasecmp_zero (c ∷ a) (d ∷ b) (suc n) =
    tolower c == tolower d && (c == 0 || strncasecmp_zero a b n)

-- `isspace` in the C locale
unfoldable pub isspace : ℕ → Bool
isspace c = c == 32 || leb 9 c && leb c 13

-- `strncpy(dest, src, n)` on the cells of `dest`: at most `n` bytes, padded with NULs up to `n`.
unfoldable pub strncpy : Bytes → Bytes → ℕ → Bytes
strncpy dest src zero = dest
strncpy [] src (suc n) = []
strncpy (d ∷ dest) [] (suc n) = 0 ∷ strncpy dest [] n
strncpy (d ∷ dest) (c ∷ src) (suc n) = c ∷ strncpy dest (if c == 0 then [] else src) n

-- `memcpy(dest, src, n)`: the first `n` cells of `src` written over those of `dest`.
unfoldable pub memcpy : Bytes → Bytes → ℕ → Bytes
memcpy dest src zero = dest
memcpy [] src (suc n) = []
memcpy (d ∷ dest) [] (suc n) = d ∷ dest
memcpy (d ∷ dest) (c ∷ src) (suc n) = c ∷ memcpy dest src n

-- `memcpy(dest + at, src, n)`
unfoldable pub memcpy_at : Bytes → ℕ → Bytes → ℕ → Bytes
unfolding memcpy
memcpy_at dest zero src n = memcpy dest src n
memcpy_at [] (suc i) src n = []
memcpy_at (d ∷ dest) (suc i) src n = d ∷ memcpy_at dest i src n

is_digit : ℕ → Bool
is_digit c = leb b'0' c && leb c b'9'

-- The value of the leading digits.
digits_value : ℕ → Bytes → ℕ
unfolding is_digit
digits_value acc [] = acc
digits_value acc (c ∷ s) =
    let rest = digits_value (acc * 10 + (c - b'0')) s in if is_digit c then rest else acc

strip : Bytes → Bytes
unfolding isspace
strip [] = []
strip (c ∷ s) = if isspace c then strip s else c ∷ s

-- `strtol(s, NULL, 10)`: a sign and digits, clamped to a `long` of 64 bits.
signed_value : Bytes → ℤ
unfolding digits_value
signed_value [] = pos 0
signed_value (c ∷ s) =
    if c == b'-'
    then (let n = digits_value 0 s in
        if n == 0 then pos 0 else if ltb (2 ^ 63) n then negsuc (2 ^ 63 - 1) else negsuc (n - 1))
    else (let n = (if c == b'+' then digits_value 0 s else digits_value 0 (c ∷ s)) in
        if ltb (2 ^ 63 - 1) n then pos (2 ^ 63 - 1) else pos n)

-- `atoi(s)`: that `long` cut to an `int` of 32 bits.
unfoldable pub atoi : Bytes → ℤ
unfolding signed_value strip
atoi s = int32_of_bits (bits_of (2 ^ 32) (signed_value (strip s)))

-- `snprintf(dest, size, …)` for the text that the format yields: at most `size - 1` bytes and a NUL
-- are written, and the result is the length of the whole text.
unfoldable pub snprintf : Bytes → ℕ → Bytes → Bytes × ℕ
unfolding memcpy
snprintf dest zero text = (dest, length text)
snprintf dest (suc size) text =
    let n = min size (length text) in (set (memcpy dest text n) n 0, length text)
