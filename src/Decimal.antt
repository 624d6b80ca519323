-- ===== src/Decimal.antt =====
-- The numbers of the wire format: `std::to_string` and `std::from_chars`, base ten.
pub mod Int
pub mod RoundTrip
use gossip_net.Prelude.{
  ℕ, zero, suc, ◌+◌, ◌-◌, ◌*◌, ◌/◌, ◌%◌, ◌^◌, Bool, ◌&&◌, Option, none, some, [], ◌∷◌, Bytes, ltb,
  leb, if◌then◌else◌,
}

abbrev pub max_u64 : ℕ
max_u64 = 2 ^ 64 - 1

abbrev pub is_digit : ℕ → Bool
is_digit c = leb b'0' c && leb c b'9'

-- The digits of `n` put in front of `out`, the last one first. A call has fuel `suc n`.
unfoldable pub emit : ℕ → ℕ → Bytes → Bytes
emit zero n out = out
emit (suc f) n out =
    let rest = emit f (n / 10) ((b'0' + n % 10) ∷ out) in
    if ltb n 10 then (b'0' + n) ∷ out else rest

-- `std::to_string` of an unsigned number.
unfoldable pub to_string : ℕ → Bytes
unfolding emit
to_string n = emit (suc n) n []

-- The longest run of digits, read on from the value `n`: the value, and what is behind the run.
unfoldable pub scan : ℕ → Bytes → ℕ × Bytes
scan n [] = (n, [])
scan n (c ∷ s) = if is_digit c then scan (n * 10 + (c - b'0')) s else (n, c ∷ s)

-- `from_chars` of an unsigned type with the largest value `bound`: the value and the end pointer.
-- `none` stands for both of its errors, `invalid_argument` and `result_out_of_range`.
unfoldable pub from_chars : ℕ → Bytes → Option (ℕ × Bytes)
unfolding scan
from_chars bound [] = none
from_chars bound (c ∷ s) =
    if is_digit c then (let r = scan 0 (c ∷ s) in if leb r.0 bound then some r else none) else none
