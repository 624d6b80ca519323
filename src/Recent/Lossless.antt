-- ===== src/Recent/Lossless.antt =====
-- A fetch of recently_updated_set.cpp loses no member but a failed one.
use gossip_net.Prelude.{
  ℕ, ◌+◌, ◌≡◌, refl, sym, ◌∙◌, inl, inr, true, none, some, List, [], ◌∷◌, ◌++◌, Bytes, same,
  same→eq, same_refl, ltb, leb, length, ◌==◌, Bool-cases, arith,
}
use mathlib.Core.Path.{subst}
use gossip_net.Node.{Node, is_failed}
use gossip_net.Table.{find}
use gossip_net.Table.Laws.{find-append, find-erase, find-assign, IsDistinct}
use gossip_net.Recent.{
  RecentlyUpdatedSet, Member, Fetched, Pops, settle, visit, fetch_all, erased, spread, drain, fetch,
}
use gossip_net.Recent.Spread.{visit_again, visit_over, counter_cases}
use gossip_net.Recent.Fate.{nothing}
use gossip_net.Recent.Settled.{by_id, by_id-append}
use gossip_net.Recent.Handover.{IsPart, IsPart-head, IsPart-tail}
use gossip_net.Recent.Drain.{drain_over, drain_full, drain_more}

settle_old :
    (j : Bytes) (n : Node) (stable : List Node)
    → find j (by_id (settle n stable)) ≡ none
    → find j (by_id stable) ≡ none
unfolding find
settle_old j n stable h = elim (Bool-cases (is_failed n.status)) [
  | inl dead ↦ rw dead at h
  | inr alive ↦
      let h' : find j (by_id stable ++ (n.id, n) ∷ []) ≡ none =
        rw (alive, by_id-append stable (n ∷ [])) at h in
      ground (arith, find-append j (by_id stable) ((n.id, n) ∷ []))
]

settle_lost :
    (n : Node) (stable : List Node)
    → find n.id (by_id (settle n stable)) ≡ none
    → is_failed n.status ≡ true
unfolding find
settle_lost n stable h = elim (Bool-cases (is_failed n.status)) [
  | inl dead ↦ dead
  | inr alive ↦
      let h' : find n.id (by_id stable ++ (n.id, n) ∷ []) ≡ none =
        rw (alive, by_id-append stable (n ∷ [])) at h in
      ground (arith, find-append n.id (by_id stable) ((n.id, n) ∷ []), same_refl n.id)
]

module _ (m : RecentlyUpdatedSet)
    (named : (j : Bytes) (x : Member) → find j m ≡ some x → x.node.id ≡ j) (j : Bytes) (x : Member)
    (here : find j m ≡ some x) where
  -- If the member is neither in the set, nor among the stable nodes, nor still to come, it failed.
  abbrev Lossless : RecentlyUpdatedSet → Fetched → Type 0
  Lossless rest s =
      find j s.members ≡ none
      → find j (by_id s.stable) ≡ none
      → find j rest ≡ none
      → is_failed x.node.status ≡ true

  settle-failed :
      (k : Bytes) (y : Member) (stable : List Node)
      → find k m ≡ some y
      → same k j ≡ true
      → find j (by_id (settle y.node stable)) ≡ none
      → is_failed x.node.status ≡ true
  settle-failed k y stable there hit h =
      let kj = same→eq k j hit in
      let q : some y ≡ some x = sym there ∙ (rw kj here) in
      let e : y ≡ x = cc in
      let idj : y.node.id ≡ j = named k y there ∙ kj in
      subst (λ (z : Member). is_failed z.node.status ≡ true) e
        (settle_lost y.node stable
          (subst (λ i. find i (by_id (settle y.node stable)) ≡ none) (sym idj) h))

  Lossless-visit :
      (max : ℕ) (k : Bytes) (y : Member) (rest : RecentlyUpdatedSet) (s : Fetched)
      → find k m ≡ some y
      → Lossless ((k, y) ∷ rest) s
      → Lossless rest (visit max k y s)
  unfolding find
  Lossless-visit max k y rest s there l a b c = elim (counter_cases max y.counter) [
    | inl again ↦
        let moved = rw (visit_again max k y s again) at a in
        let kept = rw (visit_again max k y s again) at b in
        elim (Bool-cases (same k j)) [
          | inl hit ↦
              ground
                (arith, find-append j s.members ((k, record y { counter = y.counter + 1 }) ∷ []))
          | inr miss ↦
              l
                (ground
                  (arith, find-append j s.members ((k, record y { counter = y.counter + 1 }) ∷ [])))
                kept (rw miss c)
        ]
    | inr over ↦
        let kept = rw (visit_over max k y s over) at a in
        let settled = rw (visit_over max k y s over) at b in
        elim (Bool-cases (same k j)) [
          | inl hit ↦ settle-failed k y s.stable there hit settled
          | inr miss ↦ l kept (settle_old j y.node s.stable settled) (rw miss c)
        ]
  ]

  Lossless-fetch_all :
      (max : ℕ) (rest : RecentlyUpdatedSet) (s : Fetched)
      → IsDistinct rest
      → IsPart m named rest
      → Lossless rest s
      → Lossless [] (fetch_all max rest s)
  unfolding fetch_all
  Lossless-fetch_all max [] s d part l = l
  Lossless-fetch_all max ((k, y) ∷ rest) s d part l =
      let there = IsPart-head m named k y rest part in
      Lossless-fetch_all max rest (visit max k y s) d.1 (IsPart-tail m named k y rest d.0 part)
        (Lossless-visit max k y rest s there l)

  Lossless-erased :
      (k : Bytes) (y : Member) (s : Fetched)
      → find k m ≡ some y
      → Lossless [] s
      → Lossless [] (erased k y s)
  unfolding erased
  Lossless-erased k y s there l a b c = elim (Bool-cases (same k j)) [
    | inl hit ↦ settle-failed k y s.stable there hit b
    | inr miss ↦
        l (sym (rw (find-erase k j s.members, miss) refl) ∙ a) (settle_old j y.node s.stable b) c
  ]

  Lossless-spread :
      (k : Bytes) (y : Member) (s : Fetched) → Lossless [] s → Lossless [] (spread k y s)
  unfolding spread
  Lossless-spread k y s l a b c =
      l (ground (arith, find-assign k j (record y { counter = y.counter + 1 }) s.members)) b c

  Lossless-drain :
      (n max : ℕ) (queue : RecentlyUpdatedSet) (s : Fetched)
      → IsDistinct queue
      → IsPart m named queue
      → Lossless [] s
      → Lossless [] (drain n max queue s)
  Lossless-drain n max [] s d part l = unfold drain in l
  Lossless-drain n max ((k, y) ∷ queue) s d part l =
      let part' = IsPart-tail m named k y queue d.0 part in
      elim (Bool-cases (ltb max (y.counter + 1))) [
        | inl over ↦ rw (drain_over n max k y queue s over) (
            Lossless-drain n max queue (erased k y s) d.1 part'
              (Lossless-erased k y s (IsPart-head m named k y queue part) l))
        | inr again ↦ elim (Bool-cases (length (spread k y s).recent == n)) [
          | inl full ↦ rw (drain_full n max k y queue s again full) (Lossless-spread k y s l)
          | inr more ↦
              rw (drain_more n max k y queue s again more)
                (Lossless-drain n max queue (spread k y s) d.1 part' (Lossless-spread k y s l))
        ]
      ]

  -- Whatever the fetch from a set of distinct ids with each node under its own, a member that is
  -- afterwards neither in the set nor handed over to be made stable had failed.
  pub fetch-Lossless :
      (pops : Pops) (n max : ℕ)
      → IsDistinct m
      → IsDistinct (pops m)
      → ((i : Bytes) → find i (pops m) ≡ find i m)
      → find j (fetch pops n max m).members ≡ none
      → find j (by_id (fetch pops n max m).stable) ≡ none
      → is_failed x.node.status ≡ true
  unfolding fetch find
  fetch-Lossless pops n max d dp same_elements =
      let whole : Lossless [] (record { members = m; recent = []; stable = [] }) = λ a b c. cc in
      let emptied : Lossless m nothing = λ a b c. cc in
      elim (Bool-cases (n == 0)) [
        | inl zero ↦ rw zero (λ a b. whole a b refl)
        | inr asked ↦ elim (Bool-cases (leb (length m) n)) [
          | inl enough ↦
              rw (asked, enough)
                (λ a b. Lossless-fetch_all max m nothing d (λ i y h. h) emptied a b refl)
          | inr few ↦
              rw (asked, few)
                (λ a b.
                  Lossless-drain n max (pops m) _ dp (λ i y h. sym (same_elements i) ∙ h) whole a b
                    refl)
        ]
      ]
