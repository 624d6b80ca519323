-- ===== src/Decimal/Int.antt =====
-- The signed numbers of the wire format: `std::to_string` and `std::from_chars` of an `int`.
use gossip_net.Prelude.{
  ℕ, zero, suc, ◌-◌, ◌^◌, ◌<◌, ◌≡◌, true, Option, none, some, [], ◌∷◌, ◌++◌, arith, Bytes, ◌==◌,
  if◌then◌else◌,
}
use gossip_net.Decimal.{to_string, from_chars, is_digit}
use gossip_net.Decimal.RoundTrip.{Stops, to_string-head, from_chars-to_string}

-- `negsuc n` is -(n + 1).
pub data ℤ : Type 0 where
  pos : ℕ → ℤ
  negsuc : ℕ → ℤ

abbrev pub neg : ℕ → ℤ
neg zero = pos 0
neg (suc n) = negsuc n

-- The values of a 32-bit `int`.
abbrev pub IsInt : ℤ → Type 0
IsInt (pos n) = n < 2 ^ 31
IsInt (negsuc n) = n < 2 ^ 31

unfoldable pub to_string_int : ℤ → Bytes
to_string_int (pos n) = to_string n
to_string_int (negsuc n) = b'-' ∷ to_string (suc n)

abbrev pub signed : (ℕ → ℤ) → Option (ℕ × Bytes) → Option (ℤ × Bytes)
signed sign none = none
signed sign (some (n, rest)) = some (sign n, rest)

unfoldable pub from_chars_int : Bytes → Option (ℤ × Bytes)
from_chars_int [] = none
from_chars_int (c ∷ s) =
    if c == b'-'
    then signed neg (from_chars (2 ^ 31) s)
    else signed pos (from_chars (2 ^ 31 - 1) (c ∷ s))

from_chars_int-digit :
    (c : ℕ) (s : Bytes)
    → is_digit c ≡ true
    → from_chars_int (c ∷ s) ≡ signed pos (from_chars (2 ^ 31 - 1) (c ∷ s))
unfolding from_chars_int
from_chars_int-digit c s d = ground arith

-- Every `int` is read back from its print.
pub from_chars_int-to_string_int :
    (i : ℤ) (tail : Bytes)
    → IsInt i
    → Stops tail
    → from_chars_int (to_string_int i ++ tail) ≡ some (i, tail)
unfolding to_string_int
from_chars_int-to_string_int (pos n) tail fits h =
    let (c, s, e, d) = to_string-head n in
    let r : from_chars (2 ^ 31 - 1) (c ∷ (s ++ tail)) ≡ some (n, tail) =
      rw e at (from_chars-to_string (2 ^ 31 - 1) n tail (omega arith) h) in
    rw (e, from_chars_int-digit c (s ++ tail) d, r)
from_chars_int-to_string_int (negsuc n) tail fits h =
    unfold from_chars_int in rw (from_chars-to_string (2 ^ 31) (suc n) tail (omega arith) h)
