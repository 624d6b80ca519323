-- ===== src/Recent/Debt.antt =====
-- How far the counts of a set of recently_updated_set.cpp are behind a given one.
use gossip_net.Prelude.{
  ℕ, ◌+◌, ◌-◌, ◌*◌, ◌≤◌, ◌<◌, ◌≡◌, refl, ap, inl, inr, none, some, [], ◌∷◌, arith, Bytes, same,
  same→eq, length, Bool-cases,
}
use mathlib.Core.Path.{subst}
use gossip_net.Table.{find, erase, assign}
use gossip_net.Table.Laws.{IsDistinct}
use gossip_net.Recent.{RecentlyUpdatedSet, Member}

-- By how much each member is behind the next count after `c`, summed up.
abbrev pub debt : ℕ → RecentlyUpdatedSet → ℕ
debt c [] = 0
debt c ((k, mem) ∷ m) = (c + 1 - mem.counter) + debt c m

pub debt-le : (c : ℕ) (m : RecentlyUpdatedSet) → debt c m ≤ (c + 1) * length m
debt-le c [] = omega arith
debt-le c ((k, mem) ∷ m) = omega (arith, debt-le c m)

pub debt_pos :
    (k : Bytes) (x : Member) (m : RecentlyUpdatedSet) → find k m ≡ some x → 0 < debt x.counter m
unfolding find
debt_pos k x [] h = cc
debt_pos k x ((j, y) ∷ m) h = elim (Bool-cases (same j k)) [
  | inl hit ↦
      let q : some y ≡ some x = rw hit at h in
      let e : y ≡ x = cc in
      let c : y.counter ≡ x.counter = ap (λ (z : Member). z.counter) e in omega (arith, c)
  | inr miss ↦ omega (arith, debt_pos k x m (rw miss at h))
]

erase_absent : (k : Bytes) (m : RecentlyUpdatedSet) → find k m ≡ none → erase k m ≡ m
unfolding find erase
erase_absent k [] h = refl
erase_absent k ((j, y) ∷ m) h = elim (Bool-cases (same j k)) [
  | inl hit ↦ let q : some y ≡ none = rw hit at h in cc
  | inr miss ↦ rw (miss, erase_absent k m (rw miss at h)) refl
]

assign_absent :
    (k : Bytes) (x : Member) (m : RecentlyUpdatedSet) → find k m ≡ none → assign k x m ≡ m
unfolding find assign
assign_absent k x [] h = refl
assign_absent k x ((j, y) ∷ m) h = elim (Bool-cases (same j k)) [
  | inl hit ↦ let q : some y ≡ none = rw hit at h in cc
  | inr miss ↦ rw (miss, assign_absent k x m (rw miss at h)) refl
]

-- A member that is taken out, or whose count goes up.
pub debt-erase :
    (c : ℕ) (k : Bytes) (z : Member) (m : RecentlyUpdatedSet)
    → IsDistinct m
    → find k m ≡ some z
    → debt c (erase k m) + (c + 1 - z.counter) ≡ debt c m
unfolding find erase
debt-erase c k z [] d h = cc
debt-erase c k z ((j, y) ∷ m) d h = elim (Bool-cases (same j k)) [
  | inl hit ↦
      let q : some y ≡ some z = rw hit at h in
      let e : y ≡ z = cc in
      let gone = subst (λ i. find i m ≡ none) (same→eq j k hit) d.0 in
      let f : y.counter ≡ z.counter = ap (λ (w : Member). w.counter) e in
      rw (hit, erase_absent k m gone) (omega (arith, f))
  | inr miss ↦ rw miss (omega (arith, debt-erase c k z m d.1 (rw miss at h)))
]

pub debt-assign :
    (c : ℕ) (k : Bytes) (z z' : Member) (m : RecentlyUpdatedSet)
    → IsDistinct m
    → find k m ≡ some z
    → debt c (assign k z' m) + (c + 1 - z.counter) ≡ debt c m + (c + 1 - z'.counter)
unfolding find assign
debt-assign c k z z' [] d h = cc
debt-assign c k z z' ((j, y) ∷ m) d h = elim (Bool-cases (same j k)) [
  | inl hit ↦
      let q : some y ≡ some z = rw hit at h in
      let e : y ≡ z = cc in
      let gone = subst (λ i. find i m ≡ none) (same→eq j k hit) d.0 in
      let f : y.counter ≡ z.counter = ap (λ (w : Member). w.counter) e in
      rw (hit, assign_absent k z' m gone) (omega (arith, f))
  | inr miss ↦ rw miss (omega (arith, debt-assign c k z z' m d.1 (rw miss at h)))
]
