-- ===== src/Parser/Cells.antt =====
-- Arrays whose last cell holds a NUL, and what copying does to them.
use epoll_http_server.Prelude.{
  ℕ, zero, suc, ◌-◌, ◌≤◌, ◌<◌, ◌≡◌, refl, ap, inl, inr, [], ◌∷◌, Option, none, some, arith,
  Option-cases, Bytes, length, set, drop, replicate, ◌==◌, if◌then◌else◌,
}
use epoll_http_server.CString.{strlen, strstr, strncpy}
use epoll_http_server.Parser.{clip, copy_to, copy_until, cut_at_cr}

-- An array of `suc n` cells whose last cell is NUL, so that its string ends within it.
abbrev pub LastIsNul : ℕ → Bytes → Type 0
LastIsNul n cells = (length cells ≡ suc n) × (drop n cells ≡ 0 ∷ [])

pub strncpy-LastIsNul :
    (n : ℕ) (dest src : Bytes) (m : ℕ) → m ≤ n → LastIsNul n dest → LastIsNul n (strncpy dest src m)
unfolding strncpy
strncpy-LastIsNul n dest src zero k h = h
strncpy-LastIsNul zero dest src (suc m) k h = absurd (omega arith)
strncpy-LastIsNul (suc n) [] src (suc m) k h = h
strncpy-LastIsNul (suc n) (d ∷ dest) [] (suc m) k h = ground (arith, strncpy-LastIsNul n dest [] m)
strncpy-LastIsNul (suc n) (d ∷ dest) (c ∷ src) (suc m) k h =
    ground (arith, strncpy-LastIsNul n dest (if c == 0 then [] else src) m)

pub set-LastIsNul : (n : ℕ) (dest : Bytes) (i : ℕ) → LastIsNul n dest → LastIsNul n (set dest i 0)
set-LastIsNul n [] i h = h
set-LastIsNul zero (d ∷ dest) zero h = ground arith
set-LastIsNul zero (d ∷ dest) (suc i) h = ground arith
set-LastIsNul (suc n) (d ∷ dest) zero h = h
set-LastIsNul (suc n) (d ∷ dest) (suc i) h = ground (arith, set-LastIsNul n dest i)

pub set_last : (n : ℕ) (cells : Bytes) → LastIsNul n cells → set cells n 0 ≡ cells
set_last n [] h = absurd (omega arith)
set_last zero (c ∷ s) h = ground arith
set_last (suc n) (c ∷ s) h = ap (◌∷◌ c) (set_last n s (ground arith))

pub replicate-LastIsNul : (n : ℕ) → LastIsNul n (replicate (suc n) 0)
replicate-LastIsNul zero = (refl, refl)
replicate-LastIsNul (suc n) = ground (arith, replicate-LastIsNul n)

pub strlen-lt : (n : ℕ) (cells : Bytes) → LastIsNul n cells → strlen cells < suc n
unfolding strlen
strlen-lt zero [] h = absurd (omega arith)
strlen-lt zero (c ∷ s) h = ground arith
strlen-lt (suc n) [] h = absurd (omega arith)
strlen-lt (suc n) (c ∷ s) h = ground (arith, strlen-lt n s)

pub copy-LastIsNul :
    (n : ℕ) (dest src : Bytes) (m : ℕ)
    → m ≤ n
    → LastIsNul n dest
    → LastIsNul n (set (strncpy dest src m) m 0)
copy-LastIsNul n dest src m k h = set-LastIsNul n _ m (strncpy-LastIsNul n dest src m k h)

pub clip-le : (n len : ℕ) → clip (suc n) len ≤ n
clip-le n len = ground arith

pub copy_until-LastIsNul :
    (n : ℕ) (dest src delimiter : Bytes)
    → LastIsNul n dest
    → LastIsNul n (copy_until dest (suc n) src delimiter).0
unfolding copy_until
copy_until-LastIsNul n dest src delimiter h = go (strstr src delimiter)
  where
    go : (found : Option Bytes) → LastIsNul n (copy_to dest (suc n) src found).0
    go none = copy-LastIsNul n dest src (suc n - 1) (omega arith) h
    go (some end) = copy-LastIsNul n dest src _ (clip-le n _) h

pub cut_at_cr-LastIsNul : (n : ℕ) (s : Bytes) → LastIsNul n s → LastIsNul n (cut_at_cr s)
unfolding cut_at_cr
cut_at_cr-LastIsNul n s h = elim (Option-cases (strstr s (13 ∷ []))) [
  | inl missing ↦ rw (missing, cut_at_cr) h
  | inr (cr, found) ↦ rw (found, cut_at_cr) (set-LastIsNul n s _ h)
]
