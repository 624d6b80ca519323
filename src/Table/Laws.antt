-- ===== src/Table/Laws.antt =====
-- What `find` sees after each change of a table.
use gossip_net.Prelude.{
  ℕ, zero, suc, ◌≤◌, ◌≡◌, refl, none, some, List, [], ◌∷◌, ◌++◌, Bytes, same, same_iff, same_comm,
  false, inl, inr, Bool-cases, length, arith, if◌then◌else◌,
}
use gossip_net.Table.{find, erase, assign, insert_at}

module _ {ℓ} {V : Type ℓ} where
  pub find-erase :
      (k j : Bytes) (m : List (Bytes × V))
      → find j (erase k m) ≡ (if same k j then none else find j m)
  unfolding find erase
  find-erase k j [] = ground arith
  find-erase k j ((i, v) ∷ m) =
      ground (arith, find-erase k j m, same_iff i k, same_iff i j, same_iff k j)

  pub find-assign :
      (k j : Bytes) (v : V) (m : List (Bytes × V))
      → find j (assign k v m)
        ≡ (if same k j then (elim (find j m) [ none ↦ none | some _ ↦ some v ]) else find j m)
  unfolding find assign
  find-assign k j v [] = ground arith
  find-assign k j v ((i, w) ∷ m) =
      ground (arith, find-assign k j v m, same_iff i k, same_iff i j, same_iff k j)

  pub find-insert_at :
      (n : ℕ) (k j : Bytes) (v : V) (m : List (Bytes × V))
      → find k m ≡ none
      → find j (insert_at n (k, v) m) ≡ (if same k j then some v else find j m)
  unfolding find insert_at
  find-insert_at n k j v [] h = refl
  find-insert_at zero k j v ((i, w) ∷ m) h = refl
  find-insert_at (suc n) k j v ((i, w) ∷ m) h =
      ground (arith, find-insert_at n k j v m, same_iff i k, same_iff i j, same_iff k j)

  pub length-erase-le : (k : Bytes) (m : List (Bytes × V)) → length (erase k m) ≤ length m
  unfolding erase
  length-erase-le k [] = omega arith
  length-erase-le k ((i, v) ∷ m) = ground (arith, length-erase-le k m)

  pub length-insert_at :
      (n : ℕ) (e : Bytes × V) (m : List (Bytes × V)) → length (insert_at n e m) ≡ suc (length m)
  unfolding insert_at
  length-insert_at n e [] = refl
  length-insert_at zero e (x ∷ m) = refl
  length-insert_at (suc n) e (x ∷ m) = omega (arith, length-insert_at n e m)

  pub find-append :
      (k : Bytes) (m m' : List (Bytes × V))
      → find k (m ++ m') ≡ (elim (find k m) [ none ↦ find k m' | some v ↦ some v ])
  unfolding find
  find-append k [] m' = refl
  find-append k ((j, v) ∷ m) m' = ground (arith, find-append k m m')

  -- No key stands twice.
  abbrev pub IsDistinct : List (Bytes × V) → Type ℓ
  IsDistinct [] = Unit
  IsDistinct ((k, v) ∷ m) = (find k m ≡ none) × IsDistinct m

  -- No key of the first table is in the second.
  abbrev pub Apart : List (Bytes × V) → List (Bytes × V) → Type ℓ
  Apart [] m' = Unit
  Apart ((k, v) ∷ m) m' = (find k m' ≡ none) × Apart m m'

  find-snoc :
      (k j : Bytes) (v : V) (m : List (Bytes × V))
      → same k j ≡ false
      → find j m ≡ none
      → find j (m ++ (k, v) ∷ []) ≡ none
  unfolding find
  find-snoc k j v m h e = ground (arith, find-append j m ((k, v) ∷ []))

  pub find-fresh :
      (k j : Bytes) (v : V) (m : List (Bytes × V))
      → find j ((k, v) ∷ m) ≡ none
      → (same k j ≡ false) × (find j m ≡ none)
  unfolding find
  find-fresh k j v m h = ground arith

  pub IsDistinct-snoc :
      (k : Bytes) (v : V) (m : List (Bytes × V))
      → IsDistinct m
      → find k m ≡ none
      → IsDistinct (m ++ (k, v) ∷ [])
  unfolding find
  IsDistinct-snoc k v [] d e = (refl, tt)
  IsDistinct-snoc k v ((j, w) ∷ m) d e =
      let (apart, rest) = find-fresh j k w m e in
      (find-snoc k j v m (rw (same_comm k j) apart) d.0, IsDistinct-snoc k v m d.1 rest)

  pub Apart-snoc :
      (k : Bytes) (v : V) (m m' : List (Bytes × V))
      → find k m ≡ none
      → Apart m m'
      → Apart m (m' ++ (k, v) ∷ [])
  Apart-snoc k v [] m' e a = tt
  Apart-snoc k v ((j, w) ∷ m) m' e a =
      let (apart, rest) = find-fresh j k w m e in
      (find-snoc k j v m' (rw (same_comm k j) apart) a.0, Apart-snoc k v m m' rest a.1)

  pub Apart-nil : (m : List (Bytes × V)) → Apart m []
  unfolding find
  Apart-nil [] = tt
  Apart-nil ((k, v) ∷ m) = (refl, Apart-nil m)

  pub IsDistinct-erase : (k : Bytes) (m : List (Bytes × V)) → IsDistinct m → IsDistinct (erase k m)
  unfolding erase
  IsDistinct-erase k [] d = tt
  IsDistinct-erase k ((j, v) ∷ m) d = elim (Bool-cases (same j k)) [
    | inl hit ↦ rw hit (IsDistinct-erase k m d.1)
    | inr miss ↦ rw miss (ground (arith, find-erase k j m, d.0), IsDistinct-erase k m d.1)
  ]

  pub IsDistinct-assign :
      (k : Bytes) (v : V) (m : List (Bytes × V)) → IsDistinct m → IsDistinct (assign k v m)
  unfolding assign
  IsDistinct-assign k v [] d = tt
  IsDistinct-assign k v ((j, w) ∷ m) d =
      let first : find j (assign k v m) ≡ none = ground (arith, find-assign k j v m, d.0) in
      elim (Bool-cases (same j k)) [
        | inl hit ↦ rw hit (first, IsDistinct-assign k v m d.1)
        | inr miss ↦ rw miss (first, IsDistinct-assign k v m d.1)
      ]

  pub IsDistinct-insert_at :
      (i : ℕ) (k : Bytes) (v : V) (m : List (Bytes × V))
      → IsDistinct m
      → find k m ≡ none
      → IsDistinct (insert_at i (k, v) m)
  unfolding insert_at
  IsDistinct-insert_at i k v [] d e = (e, tt)
  IsDistinct-insert_at zero k v ((j, w) ∷ m) d e = (e, d)
  IsDistinct-insert_at (suc i) k v ((j, w) ∷ m) d e =
      let (apart, rest) = find-fresh j k w m e in
      (
        ground (arith, find-insert_at i k j v m rest, same_comm j k, apart, d.0),
        IsDistinct-insert_at i k v m d.1 rest,
      )
