-- ===== src/CString/Number.antt =====
-- `atoi` reads no further than the NUL of its string.
use epoll_http_server.Prelude.{
  ℕ, ◌+◌, ◌-◌, ◌*◌, ◌≡◌, refl, ◌==◌, ◌∷◌, [], arith, Bytes, inl, inr, Bool-cases,
}
use epoll_http_server.CString.{cstr, isspace, is_digit, digits_value, strip, signed_value, atoi}

digits_value-cstr : (acc : ℕ) (s : Bytes) → digits_value acc (cstr s) ≡ digits_value acc s
unfolding digits_value cstr is_digit
digits_value-cstr acc [] = refl
digits_value-cstr acc (c ∷ s) = ground (arith, digits_value-cstr (acc * 10 + (c - b'0')) s)

strip-cstr : (s : Bytes) → strip (cstr s) ≡ cstr (strip s)
unfolding strip cstr isspace
strip-cstr [] = refl
strip-cstr (c ∷ s) = ground (arith, strip-cstr s)

signed_value-cstr : (s : Bytes) → signed_value (cstr s) ≡ signed_value s
unfolding signed_value cstr is_digit
signed_value-cstr [] = refl
signed_value-cstr (c ∷ s) = elim (Bool-cases (c == 0)) [
  | inl e ↦ let z : c ≡ 0 = ground arith in rw z
  | inr e ↦ rw (e, cstr) (simp digits_value-cstr)
]

pub atoi-cstr : (s : Bytes) → atoi (cstr s) ≡ atoi s
unfolding atoi
atoi-cstr s = rw (strip-cstr s, signed_value-cstr (strip s))
