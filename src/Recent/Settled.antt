-- ===== src/Recent/Settled.antt =====
-- The nodes that a fetch of recently_updated_set.cpp takes out of the set to be made stable.
use gossip_net.Prelude.{
  ◌≡◌, refl, ap, ◌∙◌, inl, inr, true, false, some, none, List, [], ◌∷◌, ◌++◌, Bytes, same, same→eq,
  same_refl, Bool-cases, arith, Option-cases,
}
use gossip_net.Node.{Node, is_failed}
use gossip_net.Table.{find}
use gossip_net.Table.Laws.{find-append, find-fresh, IsDistinct, IsDistinct-snoc}
use gossip_net.Recent.{RecentlyUpdatedSet, Member, Fetched, settle}

-- Nodes under their ids.
abbrev pub by_id : List Node → List (Bytes × Node)
by_id [] = []
by_id (n ∷ ns) = (n.id, n) ∷ by_id ns

pub by_id-append : (xs ys : List Node) → by_id (xs ++ ys) ≡ by_id xs ++ by_id ys
by_id-append [] ys = refl
by_id-append (x ∷ xs) ys = ap (◌∷◌ (x.id, x)) (by_id-append xs ys)

-- In the course of a fetch from `m`, with `queue` still to come: the stable nodes have distinct ids,
-- which are ids of `m`, and are neither in the set nor in the queue any more.
pub record Settled (m queue : RecentlyUpdatedSet) (s : Fetched) : Type 0 where
  pub distinct : IsDistinct (by_id s.stable)
  pub gone :
      (j : Bytes) (n : Node)
      → find j (by_id s.stable) ≡ some n
      → (find j s.members ≡ none) × (find j queue ≡ none)
  pub old :
      (j : Bytes) → find j m ≡ none → (find j (by_id s.stable) ≡ none) × (find j s.members ≡ none)

find_apart :
    (j k : Bytes) (m : RecentlyUpdatedSet) (x : Member)
    → find k m ≡ some x
    → find j m ≡ none
    → same k j ≡ false
find_apart j k m x h e = elim (Bool-cases (same k j)) [
  | inl hit ↦ let q = same→eq k j hit in cc
  | inr miss ↦ miss
]

module _ (m rest : RecentlyUpdatedSet) (k : Bytes) (mem x : Member) (s s' : Fetched)
    (settled : Settled m ((k, mem) ∷ rest) s) (here : find k m ≡ some x)
    (others : (j : Bytes) → same k j ≡ false → find j s'.members ≡ find j s.members) where
  still :
      (j : Bytes) (n : Node)
      → find j (by_id s.stable) ≡ some n
      → (find j s'.members ≡ none) × (find j rest ≡ none)
  still j n h =
      let (a, b) = settled.gone j n h in
      let (c, d) = find-fresh k j mem rest b in (others j c ∙ a, d)

  pub Settled-kept : s'.stable ≡ s.stable → Settled m rest s'
  Settled-kept e = record {
    distinct = rw e settled.distinct;
    gone = λ j n h. still j n (rw e at h);
    old = λ j h. let (a, b) = settled.old j h in (rw e a, others j (find_apart j k m x here h) ∙ b);
  }

  not_yet : find k (by_id s.stable) ≡ none
  unfolding find
  not_yet = elim (Option-cases (find k (by_id s.stable))) [
    | inl e ↦ e
    | inr (n, e) ↦ let q = (settled.gone k n e).1 in ground (arith, same_refl k)
  ]

  added :
      mem.node.id ≡ k
      → s'.stable ≡ s.stable ++ mem.node ∷ []
      → by_id s'.stable ≡ by_id s.stable ++ (k, mem.node) ∷ []
  added named e =
      ap by_id e
      ∙ by_id-append s.stable (mem.node ∷ [])
      ∙ ap (λ i. by_id s.stable ++ (i, mem.node) ∷ []) named

  Settled-alive :
      mem.node.id ≡ k
      → find k rest ≡ none
      → find k s'.members ≡ none
      → s'.stable ≡ s.stable ++ mem.node ∷ []
      → Settled m rest s'
  unfolding find
  Settled-alive named apart taken e = record {
    distinct =
        rw (added named e) (IsDistinct-snoc k mem.node (by_id s.stable) settled.distinct not_yet);
    gone = λ j n h.
        let h' : find j (by_id s.stable ++ (k, mem.node) ∷ []) ≡ some n = rw (added named e) at h in
        elim (Option-cases (find j (by_id s.stable))) [
          | inr (n', found) ↦ still j n' found
          | inl new ↦
              let hit : same k j ≡ true =
                ground (arith, find-append j (by_id s.stable) ((k, mem.node) ∷ [])) in
              rw (← same→eq k j hit) (taken, apart)
        ];
    old = λ j h.
        let (a, b) = settled.old j h in
        let miss = find_apart j k m x here h in
        (
          rw (added named e, find-append j (by_id s.stable) ((k, mem.node) ∷ []), a, miss) refl,
          others j miss ∙ b,
        );
  }

  pub Settled-settle :
      mem.node.id ≡ k
      → find k rest ≡ none
      → find k s'.members ≡ none
      → s'.stable ≡ settle mem.node s.stable
      → Settled m rest s'
  Settled-settle named apart taken e = elim (Bool-cases (is_failed mem.node.status)) [
    | inl dead ↦ Settled-kept (rw dead at e)
    | inr alive ↦ Settled-alive named apart taken (rw alive at e)
  ]
