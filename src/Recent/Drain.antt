-- ===== src/Recent/Drain.antt =====
-- The loop of `_fetch` of recently_updated_set.cpp, by what it does with the head of the queue.
use gossip_net.Prelude.{
  ℕ, ◌+◌, ◌≤◌, ◌≡◌, ◌≢◌, refl, ◌∙◌, inl, inr, true, false, some, none, [], ◌∷◌, arith, Bytes, same,
  same→eq, same_refl, ltb, length, ◌==◌, Bool-cases, All,
}
use mathlib.Core.Path.{subst}
use gossip_net.Table.{find}
use gossip_net.Table.Laws.{find-erase, find-assign}
use gossip_net.Recent.{RecentlyUpdatedSet, Member, Fetched, member_cmp, erased, spread, drain}

-- The order of `MemberCmp`: no element comes after one that is behind it.
abbrev pub IsSorted : RecentlyUpdatedSet → Type 0
IsSorted [] = Unit
IsSorted ((k, mem) ∷ m) = All (λ p. member_cmp mem p.1 ≡ false) m × IsSorted m

-- A fetch leaves the member in another way than it was, or not at all.
abbrev pub Touched : Bytes → Member → Fetched → Type 0
Touched k mem r = find k r.members ≢ some mem

pub find-All :
    (x : Member) (k : Bytes) (mem : Member) (m : RecentlyUpdatedSet)
    → All (λ p. member_cmp x p.1 ≡ false) m
    → find k m ≡ some mem
    → x.counter ≤ mem.counter
unfolding find
find-All x k mem [] a h = cc
find-All x k mem ((j, y) ∷ m) a h = elim (Bool-cases (same j k)) [
  | inl hit ↦ let q : y ≡ mem = cc in rw (← q) (let first = a.0 in ground arith)
  | inr miss ↦ find-All x k mem m a.1 (rw miss at h)
]

-- The elements of the queue stand in the set as they did.
abbrev pub Holds : RecentlyUpdatedSet → Fetched → Type 0
Holds queue s = (k : Bytes) (mem : Member) → find k queue ≡ some mem → find k s.members ≡ some mem

module _ (k : Bytes) (x : Member) (queue : RecentlyUpdatedSet) (fresh : find k queue ≡ none) where
  other_key : (j : Bytes) (mem : Member) → find j queue ≡ some mem → same k j ≡ false
  other_key j mem h = elim (Bool-cases (same k j)) [
    | inr miss ↦ miss
    | inl hit ↦ let q = subst (λ i. find i queue ≡ none) (same→eq k j hit) fresh in cc
  ]

  module _ (s : Fetched) (holds : Holds ((k, x) ∷ queue) s) where
    pub held_there :
        (j : Bytes) (mem : Member) → find j queue ≡ some mem → find j s.members ≡ some mem
    unfolding find
    held_there j mem h = holds j mem (rw (other_key j mem h) h)

    pub Holds-erased : Holds queue (erased k x s)
    unfolding erased
    Holds-erased j mem h =
        ground (arith, find-erase k j s.members, held_there j mem h, other_key j mem h)

    pub Holds-spread : Holds queue (spread k x s)
    unfolding spread
    Holds-spread j mem h = ground (
      arith,
      find-assign k j (record x { counter = x.counter + 1 }) s.members,
      held_there j mem h,
      other_key j mem h,
    )

pub erased_here : (k : Bytes) (x : Member) (s : Fetched) → find k (erased k x s).members ≡ none
unfolding erased
erased_here k x s = ground (arith, find-erase k k s.members, same_refl k)

pub spread_here :
    (k : Bytes) (x : Member) (s : Fetched)
    → find k s.members ≡ some x
    → find k (spread k x s).members ≡ some (record x { counter = x.counter + 1 })
unfolding spread
spread_here k x s h =
    ground (arith, find-assign k k (record x { counter = x.counter + 1 }) s.members, same_refl k, h)

pub spread_there :
    (k j : Bytes) (x : Member) (s : Fetched)
    → same k j ≡ false
    → find j (spread k x s).members ≡ find j s.members
unfolding spread
spread_there k j x s h =
    ground (arith, find-assign k j (record x { counter = x.counter + 1 }) s.members, h)

pub erased_there :
    (k j : Bytes) (x : Member) (s : Fetched)
    → same k j ≡ false
    → find j (erased k x s).members ≡ find j s.members
unfolding erased
erased_there k j x s h = ground (arith, find-erase k j s.members, h)

-- What the loop does with the head of the queue.
pub drain_over :
    (n max : ℕ) (k : Bytes) (x : Member) (queue : RecentlyUpdatedSet) (s : Fetched)
    → ltb max (x.counter + 1) ≡ true
    → drain n max ((k, x) ∷ queue) s ≡ drain n max queue (erased k x s)
unfolding drain
drain_over n max k x queue s h = rw h refl

pub drain_full :
    (n max : ℕ) (k : Bytes) (x : Member) (queue : RecentlyUpdatedSet) (s : Fetched)
    → ltb max (x.counter + 1) ≡ false
    → (length (spread k x s).recent == n) ≡ true
    → drain n max ((k, x) ∷ queue) s ≡ spread k x s
unfolding drain
drain_full n max k x queue s h g = rw (h, g) refl

pub drain_more :
    (n max : ℕ) (k : Bytes) (x : Member) (queue : RecentlyUpdatedSet) (s : Fetched)
    → ltb max (x.counter + 1) ≡ false
    → (length (spread k x s).recent == n) ≡ false
    → drain n max ((k, x) ∷ queue) s ≡ drain n max queue (spread k x s)
unfolding drain
drain_more n max k x queue s h g = rw (h, g) refl

-- The loop leaves alone what is not in the queue.
pub drain_other :
    (n max : ℕ) (j : Bytes) (queue : RecentlyUpdatedSet) (s : Fetched)
    → find j queue ≡ none
    → find j (drain n max queue s).members ≡ find j s.members
unfolding find
drain_other n max j [] s h = unfold drain in refl
drain_other n max j ((k, x) ∷ queue) s h = elim (Bool-cases (same k j)) [
  | inl hit ↦ let q : some x ≡ none = rw hit at h in cc
  | inr miss ↦
      let rest = rw miss at h in
      elim (Bool-cases (ltb max (x.counter + 1))) [
        | inl over ↦
            rw (drain_over n max k x queue s over)
              (drain_other n max j queue (erased k x s) rest ∙ erased_there k j x s miss)
        | inr again ↦ elim (Bool-cases (length (spread k x s).recent == n)) [
          | inl full ↦ rw (drain_full n max k x queue s again full) (spread_there k j x s miss)
          | inr more ↦
              rw (drain_more n max k x queue s again more)
                (drain_other n max j queue (spread k x s) rest ∙ spread_there k j x s miss)
        ]
      ]
]
