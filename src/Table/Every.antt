-- ===== src/Table/Every.antt =====
-- What holds of every value of a hash table.
use gossip_net.Prelude.{
  ℕ, zero, suc, ◌≡◌, refl, inl, inr, some, none, List, [], ◌∷◌, ◌++◌, Bytes, same, same_refl,
  same→eq, Bool-cases, All,
}
use mathlib.Core.Path.{subst}
use gossip_net.Table.{find, erase, assign, insert_at}
use gossip_net.Table.Laws.{IsDistinct}

pub All-append {ℓ κ} :
    {A : Type ℓ} (P : A → Type κ) (xs ys : List A) → All P xs → All P ys → All P (xs ++ ys)
All-append P [] ys h k = k
All-append P (x ∷ xs) ys h k = (h.0, All-append P xs ys h.1 k)

pub All-left {ℓ κ} : {A : Type ℓ} (P : A → Type κ) (xs ys : List A) → All P (xs ++ ys) → All P xs
All-left P [] ys h = tt
All-left P (x ∷ xs) ys h = (h.0, All-left P xs ys h.1)

pub All-right {ℓ κ} : {A : Type ℓ} (P : A → Type κ) (xs ys : List A) → All P (xs ++ ys) → All P ys
All-right P [] ys h = h
All-right P (x ∷ xs) ys h = All-right P xs ys h.1

module _ {ℓ} {V : Type ℓ} (Q : V → Type 0) where
  abbrev pub Every : List (Bytes × V) → Type 0
  Every m = All (λ p. Q p.1) m

  pub Every-erase : (k : Bytes) (m : List (Bytes × V)) → Every m → Every (erase k m)
  unfolding erase
  Every-erase k [] h = tt
  Every-erase k ((j, v) ∷ m) h = elim (Bool-cases (same j k)) [
    | inl hit ↦ rw hit (Every-erase k m h.1)
    | inr miss ↦ rw miss (h.0, Every-erase k m h.1)
  ]

  pub Every-assign :
      (k : Bytes) (v : V) (m : List (Bytes × V)) → Q v → Every m → Every (assign k v m)
  unfolding assign
  Every-assign k v [] q h = tt
  Every-assign k v ((j, w) ∷ m) q h = elim (Bool-cases (same j k)) [
    | inl hit ↦ rw hit (q, Every-assign k v m q h.1)
    | inr miss ↦ rw miss (h.0, Every-assign k v m q h.1)
  ]

  pub Every-insert_at :
      (i : ℕ) (k : Bytes) (v : V) (m : List (Bytes × V))
      → Q v
      → Every m
      → Every (insert_at i (k, v) m)
  unfolding insert_at
  Every-insert_at i k v [] q h = (q, tt)
  Every-insert_at zero k v (x ∷ m) q h = (q, h)
  Every-insert_at (suc i) k v (x ∷ m) q h = (h.0, Every-insert_at i k v m q h.1)

  pub Every-find : (k : Bytes) (v : V) (m : List (Bytes × V)) → Every m → find k m ≡ some v → Q v
  unfolding find
  Every-find k v [] h e = cc
  Every-find k v ((j, w) ∷ m) h e = elim (Bool-cases (same j k)) [
    | inl hit ↦ let q : some w ≡ some v = rw hit at e in let f : w ≡ v = cc in subst Q f h.0
    | inr miss ↦ Every-find k v m h.1 (rw miss at e)
  ]

  -- In a table of distinct keys every value can be found.
  pub Every-found :
      (m : List (Bytes × V))
      → IsDistinct m
      → ((k : Bytes) (v : V) → find k m ≡ some v → Q v)
      → Every m
  unfolding find
  Every-found [] d f = tt
  Every-found ((j, w) ∷ m) d f = (
    f j w (rw (same_refl j) refl),
    Every-found m d.1 (λ k v e. elim (Bool-cases (same j k)) [
      | inl hit ↦ let q = subst (λ i. find i m ≡ none) (same→eq j k hit) d.0 in cc
      | inr miss ↦ f k v (rw miss e)
    ]),
  )
