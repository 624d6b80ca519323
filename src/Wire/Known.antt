-- ===== src/Wire/Known.antt =====
-- The nodes that `parse_node` and `parse_rumors` make of any arguments.
use gossip_net.Prelude.{
  ℕ, zero, suc, ◌-◌, ◌^◌, ◌==◌, Option, ◌≤◌, ◌<◌, arith, refl, inl, inr, some, none, List, [], ◌∷◌,
  ◌++◌, Bytes, codes, same, leb, leb→le, length, Bool-cases, if◌then◌else◌, All, All-snoc,
}
use gossip_net.Outcome.Ends.{Ends, Ends-bind, Ends-if}
use gossip_net.Decimal.{max_u64, from_chars, is_digit}
use gossip_net.Decimal.Int.{pos, neg, signed, IsInt, from_chars_int}
use gossip_net.Node.{Node, NodeStatus, is_unknown, parse_status}
use gossip_net.Node.Order.{IsKnown}
use gossip_net.Wire.Accepted.{IsSized}
use gossip_net.Wire.{
  parsed, to_num_int, to_num_u64, with_status, parse_node, rumors_loop, parse_rumors,
}

-- A status that the protocol carries, and numbers that fit their types.
pub record IsRead (n : Node) : Type 0 where
  pub known : IsKnown n
  pub sized : IsSized n

-- A number that was read, in its range.
abbrev Holds : {A : Type 0} → (A → Type 0) → Option (A × Bytes) → Type 0
Holds P none = Unit
Holds P (some r) = P r.0

bounded : (max : ℕ) (r : ℕ × Bytes) → Holds (λ n. n ≤ max) (if leb r.0 max then some r else none)
bounded max r = elim (Bool-cases (leb r.0 max)) [
  | inl fits ↦ rw fits (leb→le r.0 max fits)
  | inr big ↦ rw big tt
]

from_chars-Holds : (max : ℕ) (s : Bytes) → Holds (λ n. n ≤ max) (from_chars max s)
unfolding from_chars
from_chars-Holds max [] = tt
from_chars-Holds max (c ∷ s) = elim (Bool-cases (is_digit c)) [
  | inl digit ↦ rw digit (bounded max _)
  | inr other ↦ rw other tt
]

pos-Holds : (r : Option (ℕ × Bytes)) → Holds (λ n. n ≤ 2 ^ 31 - 1) r → Holds IsInt (signed pos r)
pos-Holds none h = tt
pos-Holds (some r) h = omega arith

neg-IsInt : (n : ℕ) → n ≤ 2 ^ 31 → IsInt (neg n)
neg-IsInt zero h = omega arith
neg-IsInt (suc n) h = omega arith

neg-Holds : (r : Option (ℕ × Bytes)) → Holds (λ n. n ≤ 2 ^ 31) r → Holds IsInt (signed neg r)
neg-Holds none h = tt
neg-Holds (some r) h = neg-IsInt r.0 h

from_chars_int-Holds : (s : Bytes) → Holds IsInt (from_chars_int s)
unfolding from_chars_int
from_chars_int-Holds [] = tt
from_chars_int-Holds (c ∷ s) = elim (Bool-cases (c == b'-')) [
  | inl minus ↦ rw minus (neg-Holds _ (from_chars-Holds (2 ^ 31) s))
  | inr other ↦ rw other (pos-Holds _ (from_chars-Holds (2 ^ 31 - 1) (c ∷ s)))
]

parsed-Ends : {A : Type 0} (P : A → Type 0) (r : Option (A × Bytes)) → Holds P r → Ends P (parsed r)
parsed-Ends P none h = tt
parsed-Ends P (some r) h = h

to_num_u64-Ends : (s : Bytes) → Ends (λ n. n ≤ max_u64) (to_num_u64 s)
unfolding to_num_u64
to_num_u64-Ends s = parsed-Ends _ (from_chars max_u64 s) (from_chars-Holds max_u64 s)

to_num_int-Ends : (s : Bytes) → Ends IsInt (to_num_int s)
unfolding to_num_int
to_num_int-Ends s = parsed-Ends IsInt (from_chars_int s) (from_chars_int-Holds s)

-- A node that was read, and fewer arguments than there were.
abbrev pub Takes : ℕ → Node × List Bytes → Type 0
Takes n r = IsRead r.0 × (length r.1 < n)

resized : (n : Node) (status : NodeStatus) → IsSized n → IsSized (record n { status = status })
resized n status h = record { port_fits = h.port_fits; version_fits = h.version_fits }

with_status-Ends :
    (c : ℕ) (n : Node) (args : List Bytes)
    → IsRead n
    → length args < c
    → Ends (Takes c) (with_status n args)
unfolding with_status
with_status-Ends c n [] k h = (k, h)
with_status-Ends c n (x ∷ []) k h = tt
with_status-Ends c n (x ∷ y ∷ args) k h = elim (Bool-cases (is_unknown (parse_status y))) [
  | inl e ↦ rw e (k, omega arith)
  | inr e ↦ rw e (
    record {
      known = record { known = e; fits = k.known.fits };
      sized = resized n (parse_status y) k.sized;
    },
    h,
  )
]

pub parse_node-Ends :
    (type : Bytes) (args : List Bytes) → Ends (Takes (length args)) (parse_node type args)
unfolding parse_node
parse_node-Ends type [] = tt
parse_node-Ends type (t ∷ []) = tt
parse_node-Ends type (t ∷ id ∷ []) = tt
parse_node-Ends type (t ∷ id ∷ ip ∷ []) = tt
parse_node-Ends type (t ∷ id ∷ ip ∷ port ∷ []) = tt
parse_node-Ends type (t ∷ id ∷ ip ∷ port ∷ version ∷ rest) =
    let c = length (t ∷ id ∷ ip ∷ port ∷ version ∷ rest) in
    Ends-if (Takes c) (same t type) _ _
      (λ _. Ends-bind IsInt (Takes c) (to_num_int port) _ (to_num_int-Ends port) (λ p int.
        Ends-bind (λ n. n ≤ max_u64) (Takes c) (to_num_u64 version) _ (to_num_u64-Ends version)
          (λ v le.
            with_status-Ends c _ rest
              (record {
                known = record { known = refl; fits = le };
                sized = record { port_fits = int; version_fits = le };
              })
              (omega arith))))
      (λ _. tt)

rumors_loop-Ends :
    (f : ℕ) (args : List Bytes) (rumors : List Node)
    → length args < f
    → All IsRead rumors
    → Ends (All IsRead) (rumors_loop f args rumors)
unfolding rumors_loop
rumors_loop-Ends zero args rumors lt h = elim lt [ ]
rumors_loop-Ends (suc f) [] rumors lt h = h
rumors_loop-Ends (suc f) (a ∷ args) rumors lt h =
    Ends-bind (Takes (length (a ∷ args))) (All IsRead) (parse_node (codes "rumor") (a ∷ args)) _
      (parse_node-Ends (codes "rumor") (a ∷ args))
      (λ one k.
        rumors_loop-Ends f one.1 (rumors ++ one.0 ∷ []) (let less = k.1 in omega arith)
          (All-snoc IsRead rumors one.0 h k.0))

pub parse_rumors-Ends : (args : List Bytes) → Ends (All IsRead) (parse_rumors args)
unfolding parse_rumors
parse_rumors-Ends args = rumors_loop-Ends (suc (length args)) args [] (omega arith) tt

pub All-IsKnown : (ns : List Node) → All IsRead ns → All IsKnown ns
All-IsKnown [] h = tt
All-IsKnown (n ∷ ns) h = (h.0.known, All-IsKnown ns h.1)
