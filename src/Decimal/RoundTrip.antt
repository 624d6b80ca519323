-- ===== src/Decimal/RoundTrip.antt =====
-- `from_chars` on what `to_string` wrote.
use gossip_net.Prelude.{
  ℕ, zero, suc, ◌+◌, ◌*◌, ◌/◌, ◌%◌, ◌-◌, length, ◌≤◌, ◌<◌, ◌≡◌, refl, inl, inr, true, false, some,
  [], ◌∷◌, ◌++◌, arith, Bytes, ltb, leb, none, Bool-cases, if◌then◌else◌,
}
use gossip_net.Decimal.{is_digit, emit, to_string, scan, from_chars}

emit-append : (f n : ℕ) (out tail : Bytes) → n < f → emit f n out ++ tail ≡ emit f n (out ++ tail)
unfolding emit
emit-append zero n out tail h = elim h [ ]
emit-append (suc f) n out tail h =
    ground (arith, emit-append f (n / 10) ((b'0' + n % 10) ∷ out) tail)

scan-emit : (f n : ℕ) (out : Bytes) → n < f → scan 0 (emit f n out) ≡ scan n out
unfolding emit scan
scan-emit zero n out h = elim h [ ]
scan-emit (suc f) n out h = ground (arith, scan-emit f (n / 10) ((b'0' + n % 10) ∷ out))

-- The byte that starts a text is no digit.
abbrev pub Stops : Bytes → Type 0
Stops [] = Unit {0}
Stops (c ∷ s) = is_digit c ≡ false

scan-Stops : (n : ℕ) (s : Bytes) → Stops s → scan n s ≡ (n, s)
unfolding scan
scan-Stops n [] h = refl
scan-Stops n (c ∷ s) h = rw h

-- Every emitted text starts with a digit.
emit-head :
    (f n : ℕ) (out : Bytes)
    → n < f
    → (c : ℕ) × (s : Bytes) × (emit f n out ≡ c ∷ s) × (is_digit c ≡ true)
unfolding emit
emit-head zero n out h = elim h [ ]
emit-head (suc f) n out h = elim (Bool-cases (ltb n 10)) [
  | inl small ↦ (b'0' + n, out, rw small, ground arith)
  | inr large ↦
      let (c, s, e, d) = emit-head f (n / 10) ((b'0' + n % 10) ∷ out) (ground arith) in
      (c, s, rw large e, d)
]

pub to_string-head : (n : ℕ) → (c : ℕ) × (s : Bytes) × (to_string n ≡ c ∷ s) × (is_digit c ≡ true)
unfolding to_string
to_string-head n = emit-head (suc n) n [] (omega arith)

scan-to_string : (n : ℕ) (tail : Bytes) → Stops tail → scan 0 (to_string n ++ tail) ≡ (n, tail)
unfolding to_string
scan-to_string n tail h =
    rw (emit-append (suc n) n [] tail (omega arith), scan-emit (suc n) n tail (omega arith))
      (scan-Stops n tail h)

from_chars-digit :
    (bound c : ℕ) (s : Bytes)
    → is_digit c ≡ true
    → from_chars bound (c ∷ s)
      ≡ (if leb (scan 0 (c ∷ s)).0 bound then some (scan 0 (c ∷ s)) else none)
from_chars-digit bound c s d = unfold from_chars in rw d

-- Every number up to the type's bound is read back from its decimal print, whatever text follows
-- it, as long as that does not go on with a digit.
pub from_chars-to_string :
    (bound n : ℕ) (tail : Bytes)
    → n ≤ bound
    → Stops tail
    → from_chars bound (to_string n ++ tail) ≡ some (n, tail)
from_chars-to_string bound n tail fits h =
    let (c, s, e, d) = to_string-head n in
    let r : scan 0 (c ∷ (s ++ tail)) ≡ (n, tail) = rw e at (scan-to_string n tail h) in
    rw (e, from_chars-digit bound c (s ++ tail) d) (rw r (ground arith))

-- A parsed number is within its bound, and the rest is shorter than the text.
length-scan : (n : ℕ) (s : Bytes) → length (scan n s).1 ≤ length s
unfolding scan
length-scan n [] = omega arith
length-scan n (c ∷ s) = ground (arith, length-scan (n * 10 + (c - b'0')) s)

pub from_chars-bounds :
    (bound : ℕ) (s : Bytes) {n : ℕ} {rest : Bytes}
    → from_chars bound s ≡ some (n, rest)
    → (n ≤ bound) × (length rest < length s)
unfolding from_chars
from_chars-bounds bound [] h = cc
from_chars-bounds bound (c ∷ s) h = ground (arith, length-scan (0 * 10 + (c - b'0')) s)
