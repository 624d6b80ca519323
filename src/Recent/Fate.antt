-- ===== src/Recent/Fate.antt =====
-- What one `_fetch_all` of recently_updated_set.cpp does with each member.
use gossip_net.Prelude.{
  ℕ, ◌+◌, ◌≤◌, ◌<◌, ◌≡◌, refl, sym, ◌∙◌, ◌⊎◌, inl, inr, true, false, some, none, List, [], ◌∷◌,
  Bytes, same, same→eq, same_refl, Bool-cases,
}
use mathlib.Core.Path.{subst}
use mathlib.Core.List.{Mem, mem-append_right, mem-cons_self}
use gossip_net.Node.{Node, is_failed}
use gossip_net.Table.{find}
use gossip_net.Table.Laws.{find-append, IsDistinct, IsDistinct-snoc, Apart, Apart-snoc}
use gossip_net.Recent.{RecentlyUpdatedSet, Member, Fetched, settle, visit, fetch_all}
use gossip_net.Recent.Spread.{Grows-fetch_all, visit_over, visit_again, counter_cases}

abbrev pub bumped : Member → Member
bumped mem = record mem { counter = mem.counter + 1 }

-- A member that has been spread fewer than `max` times is spread once more and counted; any other
-- leaves the set, for the stable members unless it failed.
abbrev pub Fate : ℕ → Bytes → Member → Fetched → Type 0
Fate max k mem r =
    ((mem.counter < max) × (find k r.members ≡ some (bumped mem)) × Mem mem.node r.recent)
    ⊎ ((max ≤ mem.counter)
        × (find k r.members ≡ none)
        × ((is_failed mem.node.status ≡ true) ⊎ Mem mem.node r.stable))

find_here : (k : Bytes) (v : Member) (m : RecentlyUpdatedSet) → find k ((k, v) ∷ m) ≡ some v
unfolding find
find_here k v m = rw (same_refl k) refl

find_there :
    (j k : Bytes) (v : Member) (m : RecentlyUpdatedSet)
    → same j k ≡ false
    → find k ((j, v) ∷ m) ≡ find k m
unfolding find
find_there j k v m h = rw h refl

find_hit :
    (j k : Bytes) (v : Member) (m : RecentlyUpdatedSet)
    → same j k ≡ true
    → find k ((j, v) ∷ m) ≡ some v
unfolding find
find_hit j k v m h = rw h refl

find_nil : (k : Bytes) → find {V = Member} k [] ≡ none
unfolding find
find_nil k = refl

pub mem-settle_self :
    (x : Node) (stable : List Node) → (is_failed x.status ≡ true) ⊎ Mem x (settle x stable)
mem-settle_self x stable = elim (Bool-cases (is_failed x.status)) [
  | inl dead ↦ inl dead
  | inr live ↦ inr (rw live (mem-append_right stable mem-cons_self))
]

visit_other :
    (max : ℕ) (j k : Bytes) (x : Member) (s : Fetched)
    → same j k ≡ false
    → find k s.members ≡ none
    → find k (visit max j x s).members ≡ none
visit_other max j k x s h e = elim (counter_cases max x.counter) [
  | inl again ↦ rw (visit_again max j x s again) (
      rw (find-append k s.members ((j, bumped x) ∷ []), e)
        (find_there j k _ [] h ∙ (unfold find in refl)))
  | inr over ↦ rw (visit_over max j x s over) e
]

absent :
    (max : ℕ) (k : Bytes) (m : RecentlyUpdatedSet) (s : Fetched)
    → find k s.members ≡ none
    → find k m ≡ none
    → find k (fetch_all max m s).members ≡ none
unfolding fetch_all
absent max k [] s e h = e
absent max k ((j, x) ∷ m) s e h = elim (Bool-cases (same j k)) [
  | inl hit ↦ let q : some x ≡ none = sym (find_hit j k x m hit) ∙ h in cc
  | inr miss ↦
      absent max k m (visit max j x s) (visit_other max j k x s miss e)
        (sym (find_there j k x m miss) ∙ h)
]

Fate-here :
    (max : ℕ) (k : Bytes) (mem : Member) (m : RecentlyUpdatedSet) (s : Fetched)
    → find k m ≡ none
    → find k s.members ≡ none
    → Fate max k mem (fetch_all max m (visit max k mem s))
Fate-here max k mem m s gone e = elim (counter_cases max mem.counter) [
  | inl again ↦
      let g = Grows-fetch_all max m (visit max k mem s) in
      inl (
        again,
        g.in_members k (bumped mem) (
            rw (visit_again max k mem s again, find-append k s.members ((k, bumped mem) ∷ []), e)
              (find_here k (bumped mem) [])),
        g.in_recent mem.node
            (rw (visit_again max k mem s again) (mem-append_right s.recent mem-cons_self)),
      )
  | inr over ↦
      let g = Grows-fetch_all max m (visit max k mem s) in
      inr (
        over,
        absent max k m (visit max k mem s) (rw (visit_over max k mem s over) e) gone,
        elim (mem-settle_self mem.node s.stable) [
          | inl dead ↦ inl dead
          | inr kept ↦ inr (g.in_stable mem.node (rw (visit_over max k mem s over) kept))
        ],
      )
]

fate :
    (max : ℕ) (k : Bytes) (mem : Member) (m : RecentlyUpdatedSet) (s : Fetched)
    → IsDistinct m
    → find k m ≡ some mem
    → find k s.members ≡ none
    → Fate max k mem (fetch_all max m s)
unfolding fetch_all
fate max k mem [] s d h e = let q = find_nil k in cc
fate max k mem ((j, x) ∷ m) s d h e = elim (Bool-cases (same j k)) [
  | inl hit ↦
      let jk = same→eq j k hit in
      let xm : x ≡ mem = let q : some x ≡ some mem = sym (find_hit j k x m hit) ∙ h in cc in
      let r = fetch_all max m (visit max j x s) in
      let here = Fate-here max j x m s d.0 (subst (λ i. find i s.members ≡ none) (sym jk) e) in
      subst (λ i. Fate max i mem r) jk (subst (λ y. Fate max j y r) xm here)
  | inr miss ↦
      fate max k mem m (visit max j x s) d.1 (sym (find_there j k x m miss) ∙ h)
        (visit_other max j k x s miss e)
]

abbrev pub nothing : Fetched
nothing = record { members = []; recent = []; stable = [] }

-- In a set of distinct ids, a fetch of all members does one of two things with each: below `max`
-- its count goes up by one, and it stays and is spread; else it leaves and, unless it failed, is
-- handed over to be made stable.
pub fetch_all-Fate :
    (max : ℕ) (m : RecentlyUpdatedSet) (k : Bytes) (mem : Member)
    → IsDistinct m
    → find k m ≡ some mem
    → Fate max k mem (fetch_all max m nothing)
fetch_all-Fate max m k mem d h = fate max k mem m nothing d h (find_nil k)

pub IsDistinct-visit :
    (max : ℕ) (k : Bytes) (mem : Member) (m : RecentlyUpdatedSet) (s : Fetched)
    → find k m ≡ none
    → IsDistinct s.members
    → find k s.members ≡ none
    → Apart m s.members
    → IsDistinct (visit max k mem s).members × Apart m (visit max k mem s).members
IsDistinct-visit max k mem m s gone d e a = elim (counter_cases max mem.counter) [
  | inl again ↦
      rw (visit_again max k mem s again)
        (IsDistinct-snoc k (bumped mem) s.members d e, Apart-snoc k (bumped mem) m s.members gone a)
  | inr over ↦ rw (visit_over max k mem s over) (d, a)
]

pub IsDistinct-fetch_all :
    (max : ℕ) (m : RecentlyUpdatedSet) (s : Fetched)
    → IsDistinct m
    → IsDistinct s.members
    → Apart m s.members
    → IsDistinct (fetch_all max m s).members
unfolding fetch_all
IsDistinct-fetch_all max [] s d e a = e
IsDistinct-fetch_all max ((k, x) ∷ m) s d e a =
    let (e', a') = IsDistinct-visit max k x m s d.0 e a.0 a.1 in
    IsDistinct-fetch_all max m (visit max k x s) d.1 e' a'
