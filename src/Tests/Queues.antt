-- ===== src/Tests/Queues.antt =====
-- A priority queue by the count, and the members that wait in it.
use gossip_net.Prelude.{
  ℕ, ◌+◌, ◌*◌, ◌<◌, ◌≡◌, refl, ap, sym, ◌∙◌, inl, inr, true, false, some, none, [], ◌∷◌, arith,
  Bytes, codes, same, same_iff, same→eq, leb, length, Bool-cases, All, All-map, if◌then◌else◌,
}
use mathlib.Core.Path.{subst}
use gossip_net.Table.{find}
use gossip_net.Table.Laws.{IsDistinct}
use gossip_net.Recent.{RecentlyUpdatedSet, Member, Pops, member_cmp, fetch}
use gossip_net.Recent.Drain.{IsSorted}
use gossip_net.Recent.Fate.{Fate}
use gossip_net.Recent.Fair.{IsFair, fetched_times, fetch-within}
use gossip_net.Tests.{carol, two_recent}
use gossip_net.Tests.Sets.{two-IsDistinct}

push : Bytes → Member → RecentlyUpdatedSet → RecentlyUpdatedSet
push k x [] = (k, x) ∷ []
push k x ((j, y) ∷ m) =
    let rest = push k x m in if leb x.counter y.counter then (k, x) ∷ (j, y) ∷ m else (j, y) ∷ rest

by_count : Pops
by_count [] = []
by_count ((k, x) ∷ m) = push k x (by_count m)

find-push :
    (k j : Bytes) (x : Member) (m : RecentlyUpdatedSet)
    → find k m ≡ none
    → find j (push k x m) ≡ (if same k j then some x else find j m)
unfolding find push
find-push k j x [] h = refl
find-push k j x ((i, y) ∷ m) h = elim (Bool-cases (leb x.counter y.counter)) [
  | inl first ↦ rw first refl
  | inr later ↦ elim (Bool-cases (same i k)) [
    | inl hit ↦ let q : some y ≡ none = rw hit at h in cc
    | inr miss ↦
        let ih = find-push k j x m (rw miss at h) in
        elim (Bool-cases (same i j)) [
          | inr other ↦ rw (later, other) ih
          | inl here ↦ elim (Bool-cases (same k j)) [
            | inl both ↦
                let e : k ≡ j = same→eq k j both in
                let q : true ≡ false = sym here ∙ subst (λ l. same i l ≡ false) e miss in cc
            | inr apart ↦ rw (later, here, apart) refl
          ]
        ]
  ]
]

find-by_count :
    (m : RecentlyUpdatedSet) → IsDistinct m → (j : Bytes) → find j (by_count m) ≡ find j m
unfolding find by_count
find-by_count [] d j = refl
find-by_count ((k, x) ∷ m) d j =
    find-push k j x (by_count m) (find-by_count m d.1 k ∙ d.0)
    ∙ ap (λ o. if same k j then some x else o) (find-by_count m d.1 j)

push-IsDistinct :
    (k : Bytes) (x : Member) (m : RecentlyUpdatedSet)
    → find k m ≡ none
    → IsDistinct m
    → IsDistinct (push k x m)
unfolding find push
push-IsDistinct k x [] h d = (refl, tt)
push-IsDistinct k x ((i, y) ∷ m) h d = elim (Bool-cases (leb x.counter y.counter)) [
  | inl first ↦ rw first (h, d)
  | inr later ↦ elim (Bool-cases (same i k)) [
    | inl hit ↦ let q : some y ≡ none = rw hit at h in cc
    | inr miss ↦
        let fresh = rw miss at h in
        let apart : same k i ≡ false = ground (arith, same_iff i k, same_iff k i, miss) in
        rw later (find-push k i x m fresh ∙ (rw apart d.0), push-IsDistinct k x m fresh d.1)
  ]
]

by_count-IsDistinct : (m : RecentlyUpdatedSet) → IsDistinct m → IsDistinct (by_count m)
unfolding by_count
by_count-IsDistinct [] d = d
by_count-IsDistinct ((k, x) ∷ m) d =
    push-IsDistinct k x (by_count m) (find-by_count m d.1 k ∙ d.0) (by_count-IsDistinct m d.1)

All-push :
    (z : Member) (k : Bytes) (x : Member) (m : RecentlyUpdatedSet)
    → member_cmp z x ≡ false
    → All (λ p. member_cmp z p.1 ≡ false) m
    → All (λ p. member_cmp z p.1 ≡ false) (push k x m)
unfolding push
All-push z k x [] le a = (le, tt)
All-push z k x ((i, y) ∷ m) le a = elim (Bool-cases (leb x.counter y.counter)) [
  | inl first ↦ rw first (le, a)
  | inr later ↦ rw later (a.0, All-push z k x m le a.1)
]

push-IsSorted :
    (k : Bytes) (x : Member) (m : RecentlyUpdatedSet) → IsSorted m → IsSorted (push k x m)
unfolding push
push-IsSorted k x [] s = (tt, tt)
push-IsSorted k x ((i, y) ∷ m) s = elim (Bool-cases (leb x.counter y.counter)) [
  | inl first ↦ rw first ((ground arith, All-map m (λ p h. ground arith) s.0), s)
  | inr later ↦
      let ge : member_cmp y x ≡ false = ground (arith, later) in
      rw later (All-push y k x m ge s.0, push-IsSorted k x m s.1)
]

by_count-IsSorted : (m : RecentlyUpdatedSet) → IsSorted (by_count m)
unfolding by_count
by_count-IsSorted [] = tt
by_count-IsSorted ((k, x) ∷ m) = push-IsSorted k x (by_count m) (by_count-IsSorted m)

by_count-IsFair : IsFair by_count
by_count-IsFair = record {
  once = by_count-IsDistinct;
  same_elements = find-by_count;
  sorted = λ m d. by_count-IsSorted m;
}

-- Carol was spread twice, and alice comes before her where one member is asked for.
abbrev waiting_carol : Member
waiting_carol = record { node = carol; counter = 2 }

find-carol : find (codes "carol") two_recent ≡ some waiting_carol
unfolding find same
find-carol = refl

fetch-within_example :
    (i : ℕ) × (i < (waiting_carol.counter + 1) * length two_recent)
    × (find (codes "carol") (fetched_times by_count 1 9 i two_recent) ≡ some waiting_carol)
    × Fate 9
        (codes "carol")
        waiting_carol
        (fetch by_count 1 9 (fetched_times by_count 1 9 i two_recent))
fetch-within_example =
    fetch-within by_count by_count-IsFair 1 9 (λ e. omega (arith, e)) (codes "carol") waiting_carol
      two_recent two-IsDistinct find-carol
