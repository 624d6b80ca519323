-- ===== src/Table.antt =====
-- `std::unordered_map` with string keys, as the list of its elements in iteration order.
use gossip_net.Prelude.{
  ℕ, zero, suc, Option, none, some, List, [], ◌∷◌, map, Bytes, same, if◌then◌else◌,
}
pub mod Laws
pub mod Every

-- Where a new element goes in the iteration order is up to the hash table: given the keys in
-- order and the new key, its position.
abbrev pub Slot : Type 0
Slot = List Bytes → Bytes → ℕ

module _ {ℓ} {V : Type ℓ} where
  abbrev pub keys : List (Bytes × V) → List Bytes
  keys [] = []
  keys ((k, v) ∷ m) = k ∷ keys m

  unfoldable pub find : Bytes → List (Bytes × V) → Option V
  find k [] = none
  find k ((j, v) ∷ m) = if same j k then some v else find k m

  -- `erase`, of the element under the key.
  unfoldable pub erase : Bytes → List (Bytes × V) → List (Bytes × V)
  erase k [] = []
  erase k ((j, v) ∷ m) = let rest = erase k m in if same j k then rest else (j, v) ∷ rest

  -- A write through the reference to the element under the key.
  unfoldable pub assign : Bytes → V → List (Bytes × V) → List (Bytes × V)
  assign k v [] = []
  assign k v ((j, w) ∷ m) =
      let rest = assign k v m in if same j k then (j, v) ∷ rest else (j, w) ∷ rest

  -- A position beyond the end is the end.
  unfoldable pub insert_at : ℕ → Bytes × V → List (Bytes × V) → List (Bytes × V)
  insert_at i e [] = e ∷ []
  insert_at zero e (x ∷ m) = e ∷ x ∷ m
  insert_at (suc i) e (x ∷ m) = x ∷ insert_at i e m
