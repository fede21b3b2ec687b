-- ===== src/CString/Scan.antt =====
-- What the searches of CString find: where a literal or a byte stands, and what stands before it.
use epoll_http_server.Prelude.{
  ℕ, ◌≤◌, ◌≡◌, refl, ap, ◌≢◌, inl, inr, true, [], ◌∷◌, ◌++◌, none, some, arith, Bool-cases, Bytes,
  length, length-append, All,
}
use epoll_http_server.CString.{cstr, starts, strstr, strchr, strrchr, bytes_eq}

-- The byte `x` does not occur.
abbrev pub Lacks : ℕ → Bytes → Type 0
Lacks x = All (λ c. c ≢ x)

pub starts-append : (n rest : Bytes) → starts n (n ++ rest) ≡ true
unfolding starts
starts-append [] rest = refl
starts-append (x ∷ n) rest = ground (arith, starts-append n rest)

-- The literal stands where its first byte first occurs.
pub strstr_found :
    (x : ℕ) (n pre rest : Bytes)
    → Lacks x pre
    → Lacks 0 pre
    → strstr (pre ++ (x ∷ (n ++ rest))) (x ∷ n) ≡ some (x ∷ (n ++ rest))
unfolding strstr
strstr_found x n [] rest h z = ground (arith, starts-append n rest)
strstr_found x n (c ∷ pre) rest h z = ground (arith, strstr_found x n pre rest h.1 z.1)

pub strstr_missing : (x : ℕ) (n s : Bytes) → Lacks x s → strstr s (x ∷ n) ≡ none
unfolding strstr
strstr_missing x n [] h = refl
strstr_missing x n (c ∷ s) h = ground (arith, strstr_missing x n s h.1)

-- What a search returns is the rest of the string from a place at which the literal stands.
pub record Found (s n e : Bytes) : Type 0 where
  pub before : Bytes
  pub splits : s ≡ before ++ e
  pub no_nul : Lacks 0 before
  pub stands : starts n e ≡ true

Found-cons : {s n e : Bytes} (c : ℕ) → c ≢ 0 → Found s n e → Found (c ∷ s) n e
Found-cons c h f = record {
  before = c ∷ f.before;
  splits = ap (◌∷◌ c) f.splits;
  no_nul = (h, f.no_nul);
  stands = f.stands;
}

Found-here : {s n e : Bytes} → s ≡ e → starts n s ≡ true → Found s n e
Found-here {n} e h = record { before = []; splits = e; no_nul = tt; stands = rw e at h }

pub strstr-Found : (s n : Bytes) {e : Bytes} → strstr s n ≡ some e → Found s n e
unfolding strstr
strstr-Found [] n {e} h = elim (Bool-cases (starts n [])) [
  | inl t ↦ Found-here (ground arith) t
  | inr f ↦ absurd (ground arith)
]
strstr-Found (c ∷ s) n {e} h = elim (Bool-cases (starts n (c ∷ s))) [
  | inl t ↦ Found-here (ground arith) t
  | inr f ↦ Found-cons c (ground arith) (strstr-Found s n (ground arith))
]

pub Found-length : {s n e : Bytes} → Found s n e → length e ≤ length s
Found-length f = omega (arith, ap length f.splits, length-append f.before _)

pub starts-length : (n p : Bytes) → starts n p ≡ true → length n ≤ length p
unfolding starts
starts-length [] p h = omega arith
starts-length (x ∷ n) [] h = absurd (ground arith)
starts-length (x ∷ n) (c ∷ p) h = ground (arith, starts-length n p)

pub strchr_found :
    (x : ℕ) (pre rest : Bytes)
    → Lacks x pre
    → Lacks 0 pre
    → strchr (pre ++ x ∷ rest) x ≡ some (x ∷ rest)
unfolding strchr
strchr_found x [] rest h z = ground arith
strchr_found x (c ∷ pre) rest h z = ground (arith, strchr_found x pre rest h.1 z.1)

pub strchr_missing : (x : ℕ) (s : Bytes) → Lacks x s → strchr s x ≡ none
unfolding strchr
strchr_missing x [] h = refl
strchr_missing x (c ∷ s) h = ground (arith, strchr_missing x s h.1)

pub bytes_eq_refl : (s : Bytes) → bytes_eq s s ≡ true
unfolding bytes_eq
bytes_eq_refl [] = refl
bytes_eq_refl (c ∷ s) = ground (arith, bytes_eq_refl s)

pub bytes_eq→eq : (a b : Bytes) → bytes_eq a b ≡ true → a ≡ b
unfolding bytes_eq
bytes_eq→eq [] [] h = refl
bytes_eq→eq (x ∷ a) (y ∷ b) h = ground (arith, bytes_eq→eq a b)
bytes_eq→eq _ _ h = absurd (ground arith)

pub cstr_whole : (s : Bytes) → Lacks 0 s → cstr s ≡ s
unfolding cstr
cstr_whole [] h = refl
cstr_whole (c ∷ s) h = ground (arith, cstr_whole s h.1)

pub cstr_cut : (s rest : Bytes) → Lacks 0 s → cstr (s ++ 0 ∷ rest) ≡ s
unfolding cstr
cstr_cut [] rest h = refl
cstr_cut (c ∷ s) rest h = ground (arith, cstr_cut s rest h.1)

pub cstr-Lacks : (s : Bytes) → Lacks 0 (cstr s)
unfolding cstr
cstr-Lacks [] = tt
cstr-Lacks (c ∷ s) = ground (arith, cstr-Lacks s)

pub strrchr_missing : (x : ℕ) (s : Bytes) → Lacks x s → strrchr s x ≡ none
unfolding strrchr
strrchr_missing x [] h = refl
strrchr_missing x (c ∷ s) h = ground (arith, strrchr_missing x s h.1)

pub strrchr_last :
    (x : ℕ) (pre rest : Bytes)
    → x ≢ 0
    → Lacks x rest
    → Lacks 0 pre
    → strrchr (pre ++ x ∷ rest) x ≡ some (x ∷ rest)
unfolding strrchr
strrchr_last x [] rest ne h z = ground (arith, strrchr_missing x rest h)
strrchr_last x (c ∷ pre) rest ne h z = ground (arith, strrchr_last x pre rest ne h z.1)
