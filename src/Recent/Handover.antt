-- ===== src/Recent/Handover.antt =====
-- A whole fetch of recently_updated_set.cpp: which nodes it hands over to be made stable.
use gossip_net.Prelude.{
  ℕ, ◌+◌, ◌≡◌, refl, sym, ◌∙◌, inl, inr, some, none, [], ◌∷◌, Bytes, same, same→eq, same_refl,
  Bool-cases, arith, ltb, leb, length, ◌==◌,
}
use gossip_net.Table.{find}
use gossip_net.Table.Laws.{find-append, find-erase, find-assign, IsDistinct, Apart, Apart-nil}
use gossip_net.Recent.{
  RecentlyUpdatedSet, Member, Fetched, Pops, visit, fetch_all, erased, spread, drain, fetch,
}
use gossip_net.Recent.Spread.{visit_again, visit_over, counter_cases}
use gossip_net.Recent.Fate.{IsDistinct-visit, nothing}
use gossip_net.Recent.Settled.{Settled, Settled-kept, Settled-settle}

module _ (m : RecentlyUpdatedSet)
    (named : (j : Bytes) (x : Member) → find j m ≡ some x → x.node.id ≡ j) where
  Settled-visit :
      (max : ℕ) (k : Bytes) (mem : Member) (rest : RecentlyUpdatedSet) (s : Fetched)
      → find k m ≡ some mem
      → find k rest ≡ none
      → find k s.members ≡ none
      → Settled m ((k, mem) ∷ rest) s
      → Settled m rest (visit max k mem s)
  unfolding find
  Settled-visit max k mem rest s here apart taken settled = elim (counter_cases max mem.counter) [
    | inl again ↦ rw (visit_again max k mem s again) (
        Settled-kept m rest k mem mem s _ settled here
          (λ j miss.
            ground
              (arith, find-append j s.members ((k, record mem { counter = mem.counter + 1 }) ∷ [])))
          refl)
    | inr over ↦ rw (visit_over max k mem s over) (
        Settled-settle m rest k mem mem s _ settled here (λ j miss. refl) (named k mem here) apart
          taken refl)
  ]

  Settled-erased :
      (k : Bytes) (mem : Member) (rest : RecentlyUpdatedSet) (s : Fetched)
      → find k m ≡ some mem
      → find k rest ≡ none
      → Settled m ((k, mem) ∷ rest) s
      → Settled m rest (erased k mem s)
  unfolding erased
  Settled-erased k mem rest s here apart settled =
      Settled-settle m rest k mem mem s _ settled here
        (λ j miss. rw (find-erase k j s.members, miss) refl) (named k mem here) apart
        (rw (find-erase k k s.members, same_refl k) refl) refl

  Settled-spread :
      (k : Bytes) (mem : Member) (rest : RecentlyUpdatedSet) (s : Fetched)
      → find k m ≡ some mem
      → Settled m ((k, mem) ∷ rest) s
      → Settled m rest (spread k mem s)
  unfolding spread
  Settled-spread k mem rest s here settled =
      Settled-kept m rest k mem mem s _ settled here
        (λ j miss. rw (find-assign k j _ s.members, miss) refl) refl

  -- What is still to come is as it is in `m`.
  abbrev pub IsPart : RecentlyUpdatedSet → Type 0
  IsPart rest = (j : Bytes) (x : Member) → find j rest ≡ some x → find j m ≡ some x

  Settled-forget : (queue : RecentlyUpdatedSet) (s : Fetched) → Settled m queue s → Settled m [] s
  unfolding find
  Settled-forget queue s settled = record {
    distinct = settled.distinct;
    gone = λ j n h. ((settled.gone j n h).0, refl);
    old = settled.old;
  }

  pub IsPart-head :
      (k : Bytes) (x : Member) (rest : RecentlyUpdatedSet)
      → IsPart ((k, x) ∷ rest)
      → find k m ≡ some x
  unfolding find
  IsPart-head k x rest part = part k x (rw (same_refl k) refl)

  pub IsPart-tail :
      (k : Bytes) (x : Member) (rest : RecentlyUpdatedSet)
      → find k rest ≡ none
      → IsPart ((k, x) ∷ rest)
      → IsPart rest
  unfolding find
  IsPart-tail k x rest apart part j y h = elim (Bool-cases (same k j)) [
    | inl hit ↦ let q = same→eq k j hit in cc
    | inr miss ↦ part j y (rw miss h)
  ]

  Settled-fetch_all :
      (max : ℕ) (rest : RecentlyUpdatedSet) (s : Fetched)
      → IsDistinct rest
      → IsPart rest
      → IsDistinct s.members
      → Apart rest s.members
      → Settled m rest s
      → Settled m [] (fetch_all max rest s)
  unfolding fetch_all
  Settled-fetch_all max [] s d part e a settled = settled
  Settled-fetch_all max ((k, x) ∷ rest) s d part e a settled =
      let (e', a') = IsDistinct-visit max k x rest s d.0 e a.0 a.1 in
      Settled-fetch_all max rest (visit max k x s) d.1 (IsPart-tail k x rest d.0 part) e' a'
        (Settled-visit max k x rest s (IsPart-head k x rest part) d.0 a.0 settled)

  Settled-drain :
      (n max : ℕ) (queue : RecentlyUpdatedSet) (s : Fetched)
      → IsDistinct queue
      → IsPart queue
      → Settled m queue s
      → Settled m [] (drain n max queue s)
  unfolding drain
  Settled-drain n max [] s d part settled = settled
  Settled-drain n max ((k, x) ∷ queue) s d part settled =
      let here = IsPart-head k x queue part in
      let part' = IsPart-tail k x queue d.0 part in
      elim (Bool-cases (ltb max (x.counter + 1))) [
        | inl over ↦ rw over (
            Settled-drain n max queue (erased k x s) d.1 part'
              (Settled-erased k x queue s here d.0 settled))
        | inr again ↦ elim (Bool-cases (length (spread k x s).recent == n)) [
          | inl full ↦
              rw (again, full) (Settled-forget queue _ (Settled-spread k x queue s here settled))
          | inr more ↦
              rw (again, more)
                (Settled-drain n max queue (spread k x s) d.1 part'
                  (Settled-spread k x queue s here settled))
        ]
      ]

  -- Whatever the fetch from a set of distinct ids with each node under its own, the nodes that it
  -- hands over to be made stable have distinct ids of the set, and none of them is left in it; nor
  -- is any id new in the set. The queue is taken to give up each element of the set once.
  pub fetch-Settled :
      (pops : Pops) (n max : ℕ)
      → IsDistinct m
      → IsDistinct (pops m)
      → ((j : Bytes) → find j (pops m) ≡ find j m)
      → Settled m [] (fetch pops n max m)
  unfolding fetch find
  fetch-Settled pops n max d dp same_elements =
      let start : Settled m [] (record { members = m; recent = []; stable = [] }) = record {
        distinct = tt;
        gone = λ j x h. cc;
        old = λ j h. (refl, h);
      } in
      let start_all : Settled m m nothing = record {
        distinct = tt;
        gone = λ j x h. cc;
        old = λ j h. (refl, refl);
      } in
      let start_queue : Settled m (pops m) (record { members = m; recent = []; stable = [] }) =
        record { distinct = tt; gone = λ j x h. cc; old = λ j h. (refl, h) } in
      elim (Bool-cases (n == 0)) [
        | inl zero ↦ rw zero start
        | inr some_asked ↦ elim (Bool-cases (leb (length m) n)) [
          | inl enough ↦
              rw (some_asked, enough)
                (Settled-fetch_all max m nothing d (λ j x h. h) tt (Apart-nil m) start_all)
          | inr few ↦
              rw (some_asked, few)
                (Settled-drain n max (pops m) _ dp (λ j x h. sym (same_elements j) ∙ h) start_queue)
        ]
      ]
