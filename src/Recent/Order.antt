-- ===== src/Recent/Order.antt =====
-- In which order `fetch` of recently_updated_set.cpp spreads the members.
use gossip_net.Prelude.{
  ◌⊎◌, true, ℕ, ◌+◌, ◌<◌, ◌≡◌, ◌≢◌, refl, ap, sym, ◌∙◌, inl, inr, some, none, Option, [], ◌∷◌,
  arith, Bytes, same, same→eq, same_refl, ltb, leb, length, ◌==◌, Bool-cases,
}
use gossip_net.Table.{find}
use gossip_net.Table.Laws.{IsDistinct}
use gossip_net.Recent.{RecentlyUpdatedSet, Member, Fetched, Pops, erased, spread, drain, fetch}
use gossip_net.Node.{Node, is_failed}
use mathlib.Core.List.{Mem, mem-append_left, mem-append_right, mem-cons_self}
use gossip_net.Recent.Spread.{mem-settle}
use gossip_net.Recent.Fate.{Fate, mem-settle_self, fetch_all-Fate}
use gossip_net.Recent.Drain.{
  IsSorted, find-All, Touched, Holds, held_there, Holds-erased, Holds-spread, erased_here,
  spread_here, spread_there, drain_over, drain_full, drain_more, drain_other,
}

bumped_apart :
    (x : Member) (o : Option Member) → o ≡ some (record x { counter = x.counter + 1 }) → o ≢ some x
bumped_apart x o e h =
    let q : some (record x { counter = x.counter + 1 }) ≡ some x = sym e ∙ h in
    let c : x.counter + 1 ≡ x.counter = ap counter_of q in omega (arith, c)
  where
    counter_of : Option Member → ℕ
    counter_of none = 0
    counter_of (some m) = m.counter

-- A member that was spread or has left is not as it was.
Fate-Touched : (max : ℕ) (k : Bytes) (x : Member) (r : Fetched) → Fate max k x r → Touched k x r
Fate-Touched max k x r (inl (_, e, _)) = bumped_apart x _ e
Fate-Touched max k x r (inr (_, e, _)) = λ q. cc

-- What the loop has collected it does not give up.
drain-grows :
    (n max : ℕ) (queue : RecentlyUpdatedSet) (s : Fetched) (x : Node)
    → (Mem x s.recent → Mem x (drain n max queue s).recent)
      × (Mem x s.stable → Mem x (drain n max queue s).stable)
drain-grows n max [] s x = unfold drain in (λ h. h, λ h. h)
drain-grows n max ((k, y) ∷ queue) s x = elim (Bool-cases (ltb max (y.counter + 1))) [
  | inl over ↦
      let (recent, stable) = drain-grows n max queue (erased k y s) x in
      rw (drain_over n max k y queue s over) (
        λ h. recent (unfold erased in h),
        λ h. stable (unfold erased in mem-settle y.node x s.stable h),
      )
  | inr again ↦ elim (Bool-cases (length (spread k y s).recent == n)) [
    | inl full ↦
        rw (drain_full n max k y queue s again full)
          (unfold spread in (λ h. mem-append_left (y.node ∷ []) h, λ h. h))
    | inr more ↦
        let (recent, stable) = drain-grows n max queue (spread k y s) x in
        rw (drain_more n max k y queue s again more) (
          λ h. recent (unfold spread in mem-append_left (y.node ∷ []) h),
          λ h. stable (unfold spread in h),
        )
  ]
]

spread_recent : (k : Bytes) (x : Member) (s : Fetched) → Mem x.node (spread k x s).recent
unfolding spread
spread_recent k x s = mem-append_right s.recent mem-cons_self

erased_stable :
    (k : Bytes) (x : Member) (s : Fetched)
    → (is_failed x.node.status ≡ true) ⊎ Mem x.node (erased k x s).stable
unfolding erased
erased_stable k x s = mem-settle_self x.node s.stable

-- The head of the queue is spread or leaves.
pub drain_head :
    (n max : ℕ) (k : Bytes) (x : Member) (queue : RecentlyUpdatedSet) (s : Fetched)
    → find k queue ≡ none
    → find k s.members ≡ some x
    → Fate max k x (drain n max ((k, x) ∷ queue) s)
drain_head n max k x queue s fresh here = elim (Bool-cases (ltb max (x.counter + 1))) [
  | inl over ↦ rw (drain_over n max k x queue s over) (
      inr (
        ground arith,
        drain_other n max k queue (erased k x s) fresh ∙ erased_here k x s,
        elim (erased_stable k x s) [
          | inl dead ↦ inl dead
          | inr kept ↦ inr ((drain-grows n max queue (erased k x s) x.node).1 kept)
        ],
      ))
  | inr again ↦ elim (Bool-cases (length (spread k x s).recent == n)) [
    | inl full ↦
        rw (drain_full n max k x queue s again full)
          (inl (ground arith, spread_here k x s here, spread_recent k x s))
    | inr more ↦ rw (drain_more n max k x queue s again more) (
        inl (
          ground arith,
          drain_other n max k queue (spread k x s) fresh ∙ spread_here k x s here,
          (drain-grows n max queue (spread k x s) x.node).0 (spread_recent k x s),
        ))
  ]
]

-- A less spread member of the queue is spread or leaves if a more spread one is touched.
drain_order :
    (n max : ℕ) (queue : RecentlyUpdatedSet) (s : Fetched) (i j : Bytes) (x y : Member)
    → IsSorted queue
    → IsDistinct queue
    → Holds queue s
    → find i queue ≡ some x
    → find j queue ≡ some y
    → y.counter < x.counter
    → Touched i x (drain n max queue s)
    → Fate max j y (drain n max queue s)
unfolding find
drain_order n max [] s i j x y sorted d holds hi hj less touched = cc
drain_order n max ((k, z) ∷ queue) s i j x y sorted d holds hi hj less touched =
    elim (Bool-cases (same k j)) [
      | inl hit ↦
          let e : k ≡ j = same→eq k j hit in
          let q : some z ≡ some y = rw hit at hj in
          let f : z ≡ y = cc in
          rw (← e, ← f) (drain_head n max k z queue s d.0 (holds k z (rw (same_refl k) refl)))
      | inr miss ↦
          let rest_j : find j queue ≡ some y = rw miss at hj in
          let z_le = find-All z j y queue sorted.0 rest_j in
          elim (Bool-cases (same k i)) [
            | inl first ↦
                let q : some z ≡ some x = rw first at hi in
                let e : z ≡ x = cc in
                let c : z.counter ≡ x.counter = ap (λ m. m.counter) e in
                absurd (omega (arith, z_le, less, c))
            | inr later ↦
                let rest_i : find i queue ≡ some x = rw later at hi in
                elim (Bool-cases (ltb max (z.counter + 1))) [
                  | inl over ↦ rw (drain_over n max k z queue s over) (
                      drain_order n max queue (erased k z s) i j x y sorted.1 d.1
                        (Holds-erased k z queue d.0 s holds) rest_i rest_j less
                        (rw (drain_over n max k z queue s over) at touched))
                  | inr again ↦ elim (Bool-cases (length (spread k z s).recent == n)) [
                    | inl full ↦
                        let there = rw (drain_full n max k z queue s again full) at touched in
                        absurd (
                          there (
                            spread_there k i z s later
                            ∙ held_there k z queue d.0 s holds i x rest_i))
                    | inr more ↦ rw (drain_more n max k z queue s again more) (
                        drain_order n max queue (spread k z s) i j x y sorted.1 d.1
                          (Holds-spread k z queue d.0 s holds) rest_i rest_j less
                          (rw (drain_more n max k z queue s again more) at touched))
                  ]
                ]
          ]
    ]

-- If the queue gives up the elements of a set of distinct ids in the order of `MemberCmp`, each once, a
-- fetch that changes anything of one member does what it is there for with every member that has been
-- spread fewer times, whatever their number and the limit: below `max` that member's node is among
-- the rumors and its count goes up by one, and else it leaves the set and, unless it failed, is among
-- the nodes to be made stable.
pub fetch_order :
    (pops : Pops) (n max : ℕ) (m : RecentlyUpdatedSet) (i j : Bytes) (x y : Member)
    → IsSorted (pops m)
    → IsDistinct (pops m)
    → ((k : Bytes) → find k (pops m) ≡ find k m)
    → IsDistinct m
    → find i m ≡ some x
    → find j m ≡ some y
    → y.counter < x.counter
    → Touched i x (fetch pops n max m)
    → Fate max j y (fetch pops n max m)
unfolding fetch
fetch_order pops n max m i j x y sorted once same_elements d hi hj less touched =
    elim (Bool-cases (n == 0)) [
      | inl none_asked ↦ let t = rw none_asked at touched in absurd (t hi)
      | inr asked ↦ elim (Bool-cases (leb (length m) n)) [
        | inl enough ↦ rw (asked, enough) (fetch_all-Fate max m j y d hj)
        | inr few ↦
            let t = rw (asked, few) at touched in
            rw (asked, few)
              (drain_order n max (pops m) (record { members = m; recent = []; stable = [] }) i j x y
                sorted once (λ k mem h. sym (same_elements k) ∙ h) (same_elements i ∙ hi)
                (same_elements j ∙ hj) less t)
      ]
    ]
