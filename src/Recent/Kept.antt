-- ===== src/Recent/Kept.antt =====
-- The nodes that stand in the set after a fetch of recently_updated_set.cpp, and those that left it.
use gossip_net.Prelude.{
  ℕ, ◌+◌, ◌≡◌, refl, sym, ◌∙◌, inl, inr, true, some, List, [], ◌∷◌, ◌++◌, Bytes, same, same→eq, ltb,
  leb, length, ◌==◌, Bool-cases, Option-cases, arith,
}
use mathlib.Core.Path.{subst}
use gossip_net.Node.{Node, is_failed}
use gossip_net.Table.{find}
use gossip_net.Table.Laws.{find-append, find-erase, find-assign, IsDistinct}
use gossip_net.Recent.{
  RecentlyUpdatedSet, Member, Fetched, Pops, settle, visit, fetch_all, erased, spread, drain, fetch,
}
use gossip_net.Recent.Spread.{visit_again, visit_over, counter_cases}
use gossip_net.Recent.Fate.{nothing}
use gossip_net.Recent.Settled.{by_id, by_id-append}
use gossip_net.Recent.Handover.{IsPart, IsPart-head, IsPart-tail}

-- The node of a member of the set.
abbrev pub NodeOf : RecentlyUpdatedSet → Bytes → Node → Type 0
NodeOf m j n = (y : Member) × (find j m ≡ some y) × (n ≡ y.node)

pub record Kept (m : RecentlyUpdatedSet) (s : Fetched) : Type 0 where
  pub staying : (j : Bytes) (x : Member) → find j s.members ≡ some x → NodeOf m j x.node
  pub leaving : (j : Bytes) (n : Node) → find j (by_id s.stable) ≡ some n → NodeOf m j n

module _ (m : RecentlyUpdatedSet) (k : Bytes) (mem : Member) (here : find k m ≡ some mem) where
  node_here : (j : Bytes) (n : Node) → same k j ≡ true → n ≡ mem.node → NodeOf m j n
  node_here j n hit e = (mem, subst (λ i. find i m ≡ some mem) (same→eq k j hit) here, e)

  settle-leaving :
      (stable : List Node)
      → mem.node.id ≡ k
      → ((j : Bytes) (n : Node) → find j (by_id stable) ≡ some n → NodeOf m j n)
      → (j : Bytes) (n : Node) → find j (by_id (settle mem.node stable)) ≡ some n
      → NodeOf m j n
  unfolding find
  settle-leaving stable named old j n h = elim (Bool-cases (is_failed mem.node.status)) [
    | inl dead ↦ old j n (rw dead at h)
    | inr alive ↦
        let h' : find j (by_id stable ++ (mem.node.id, mem.node) ∷ []) ≡ some n =
          rw (alive, by_id-append stable (mem.node ∷ [])) at h in
        elim (Option-cases (find j (by_id stable))) [
          | inr (n', found) ↦
              let q : some n' ≡ some n =
                ground (arith, find-append j (by_id stable) ((mem.node.id, mem.node) ∷ [])) in
              old j n (found ∙ q)
          | inl new ↦
              let hit : same mem.node.id j ≡ true =
                ground (arith, find-append j (by_id stable) ((mem.node.id, mem.node) ∷ [])) in
              let e : n ≡ mem.node =
                ground (arith, find-append j (by_id stable) ((mem.node.id, mem.node) ∷ [])) in
              node_here j n (subst (λ i. same i j ≡ true) named hit) e
        ]
  ]

  Kept-visit : (max : ℕ) (s : Fetched) → mem.node.id ≡ k → Kept m s → Kept m (visit max k mem s)
  unfolding find
  Kept-visit max s named kept = elim (counter_cases max mem.counter) [
    | inl again ↦ rw (visit_again max k mem s again) (record {
      staying = λ j x h. elim (Option-cases (find j s.members)) [
        | inr (x', found) ↦
            let q : some x' ≡ some x = ground (
              arith,
              find-append j s.members ((k, record mem { counter = mem.counter + 1 }) ∷ []),
            ) in
            kept.staying j x (found ∙ q)
        | inl new ↦
            let hit : same k j ≡ true = ground (
              arith,
              find-append j s.members ((k, record mem { counter = mem.counter + 1 }) ∷ []),
            ) in
            let e : x.node ≡ mem.node = ground (
              arith,
              find-append j s.members ((k, record mem { counter = mem.counter + 1 }) ∷ []),
            ) in
            node_here j x.node hit e
      ];
      leaving = kept.leaving;
    })
    | inr over ↦
        rw (visit_over max k mem s over)
          (record { staying = kept.staying; leaving = settle-leaving s.stable named kept.leaving })
  ]

  Kept-erased : (s : Fetched) → mem.node.id ≡ k → Kept m s → Kept m (erased k mem s)
  unfolding erased
  Kept-erased s named kept = record {
    staying = λ j x h. kept.staying j x (let q = find-erase k j s.members in ground arith);
    leaving = settle-leaving s.stable named kept.leaving;
  }

  Kept-spread : (s : Fetched) → Kept m s → Kept m (spread k mem s)
  unfolding spread
  Kept-spread s kept = record {
    staying = λ j x h. elim (Bool-cases (same k j)) [
      | inl hit ↦ node_here j x.node hit (
          let q = find-assign k j (record mem { counter = mem.counter + 1 }) s.members in
          ground arith)
      | inr miss ↦ kept.staying j x (
          let q = find-assign k j (record mem { counter = mem.counter + 1 }) s.members in
          ground arith)
    ];
    leaving = kept.leaving;
  }

module _ (m : RecentlyUpdatedSet)
    (named : (j : Bytes) (x : Member) → find j m ≡ some x → x.node.id ≡ j) where
  Kept-fetch_all :
      (max : ℕ) (rest : RecentlyUpdatedSet) (s : Fetched)
      → IsDistinct rest
      → IsPart m named rest
      → Kept m s
      → Kept m (fetch_all max rest s)
  unfolding fetch_all
  Kept-fetch_all max [] s d part kept = kept
  Kept-fetch_all max ((k, x) ∷ rest) s d part kept =
      let here = IsPart-head m named k x rest part in
      Kept-fetch_all max rest (visit max k x s) d.1 (IsPart-tail m named k x rest d.0 part)
        (Kept-visit m k x here max s (named k x here) kept)

  Kept-drain :
      (n max : ℕ) (queue : RecentlyUpdatedSet) (s : Fetched)
      → IsDistinct queue
      → IsPart m named queue
      → Kept m s
      → Kept m (drain n max queue s)
  unfolding drain
  Kept-drain n max [] s d part kept = kept
  Kept-drain n max ((k, x) ∷ queue) s d part kept =
      let here = IsPart-head m named k x queue part in
      let part' = IsPart-tail m named k x queue d.0 part in
      let spread_more = Kept-spread m k x here s kept in
      elim (Bool-cases (ltb max (x.counter + 1))) [
        | inl over ↦ rw over (
            Kept-drain n max queue (erased k x s) d.1 part'
              (Kept-erased m k x here s (named k x here) kept))
        | inr again ↦ elim (Bool-cases (length (spread k x s).recent == n)) [
          | inl full ↦ rw (again, full) spread_more
          | inr more ↦
              rw (again, more) (Kept-drain n max queue (spread k x s) d.1 part' spread_more)
        ]
      ]

  -- Whatever the fetch from a set of distinct ids with each node under its own, what stays in the set
  -- and what leaves it to be made stable are nodes that the set had under their ids.
  pub fetch-Kept :
      (pops : Pops) (n max : ℕ)
      → IsDistinct m
      → IsDistinct (pops m)
      → ((j : Bytes) → find j (pops m) ≡ find j m)
      → Kept m (fetch pops n max m)
  unfolding fetch find
  fetch-Kept pops n max d dp same_elements =
      let whole : Kept m (record { members = m; recent = []; stable = [] }) = record {
        staying = λ j x h. (x, h, refl);
        leaving = λ j x h. cc;
      } in
      let emptied : Kept m nothing = record { staying = λ j x h. cc; leaving = λ j x h. cc } in
      elim (Bool-cases (n == 0)) [
        | inl zero ↦ rw zero whole
        | inr asked ↦ elim (Bool-cases (leb (length m) n)) [
          | inl enough ↦ rw (asked, enough) (Kept-fetch_all max m nothing d (λ j x h. h) emptied)
          | inr few ↦
              rw (asked, few)
                (Kept-drain n max (pops m) _ dp (λ j x h. sym (same_elements j) ∙ h) whole)
        ]
      ]
