-- ===== src/CString/Decimal.antt =====
-- The numbers that `snprintf` prints with `%d` and `%ld`, and how long they are.
use epoll_http_server.Prelude.{
  ℕ, zero, suc, ◌+◌, ◌/◌, ◌%◌, ◌^◌, ◌≤◌, ◌<◌, [], ◌∷◌, ◌++◌, arith, ltb, if◌then◌else◌, Bytes,
  length, length-append,
}
use epoll_http_server.Prelude.Int.{ℤ, pos, negsuc}

-- The decimal digits; the fuel is the number itself, and each round divides it by ten.
decimal_fuel : ℕ → ℕ → Bytes
decimal_fuel zero n = (b'0' + n % 10) ∷ []
decimal_fuel (suc f) n =
    let rest = decimal_fuel f (n / 10) in
    if ltb n 10 then (b'0' + n) ∷ [] else rest ++ (b'0' + n % 10) ∷ []

unfoldable pub decimal : ℕ → Bytes
unfolding decimal_fuel
decimal n = decimal_fuel n n

unfoldable pub decimal_int : ℤ → Bytes
unfolding decimal
decimal_int (pos n) = decimal n
decimal_int (negsuc n) = b'-' ∷ decimal (n + 1)

length-decimal_fuel : (k f n : ℕ) → n < 10 ^ suc k → length (decimal_fuel f n) ≤ suc k
unfolding decimal_fuel
length-decimal_fuel k zero n h = omega arith
length-decimal_fuel zero (suc f) n h = ground arith
length-decimal_fuel (suc k) (suc f) n h = ground (
  arith,
  length-decimal_fuel k f (n / 10),
  length-append (decimal_fuel f (n / 10)) ((b'0' + n % 10) ∷ []),
)

-- A number below `10 ^ (k + 1)` has at most `k + 1` digits.
pub length-decimal : (k n : ℕ) → n < 10 ^ suc k → length (decimal n) ≤ suc k
unfolding decimal
length-decimal k n h = length-decimal_fuel k n n h

-- The magnitude of an integer.
abbrev pub magnitude : ℤ → ℕ
magnitude (pos n) = n
magnitude (negsuc n) = n + 1

-- A sign and the digits.
pub length-decimal_int :
    (k : ℕ) (n : ℤ) → magnitude n < 10 ^ suc k → length (decimal_int n) ≤ suc (suc k)
unfolding decimal_int
length-decimal_int k (pos n) h = omega (arith, length-decimal k n h)
length-decimal_int k (negsuc n) h = omega (arith, length-decimal k (n + 1) h)
