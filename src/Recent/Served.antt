-- ===== src/Recent/Served.antt =====
-- One loop of `_fetch` of recently_updated_set.cpp, and the debt of its set.
use gossip_net.Prelude.{
  ℕ, suc, ◌+◌, ◌-◌, ◌≤◌, ◌≡◌, ◌⊎◌, refl, sym, ◌∙◌, inl, inr, true, some, none, [], ◌∷◌, arith,
  Bytes, same, same→eq, same_refl, ltb, length, ◌==◌, Bool-cases,
}
use mathlib.Core.Path.{subst}
use gossip_net.Table.{find}
use gossip_net.Table.Laws.{IsDistinct, IsDistinct-assign, IsDistinct-erase}
use gossip_net.Recent.{RecentlyUpdatedSet, Member, Fetched, erased, spread, drain}
use gossip_net.Recent.Drain.{
  IsSorted, find-All, Holds, Holds-erased, Holds-spread, spread_there, erased_there, drain_over,
  drain_full, drain_more,
}
use gossip_net.Recent.Fate.{Fate}
use gossip_net.Recent.Order.{drain_head}
use gossip_net.Recent.Debt.{debt, debt-erase, debt-assign}

module _ (max : ℕ) (k : Bytes) (x : Member) where
  -- What a fetch makes of the member: it is spread or leaves, or it stays as it is and the debt is at most `b`.
  abbrev pub Served : ℕ → Fetched → Type 0
  Served b r = Fate max k x r ⊎ ((find k r.members ≡ some x) × (debt x.counter r.members ≤ b))

  Served-le : (a b : ℕ) (r : Fetched) → a ≤ b → Served a r → Served b r
  Served-le a b r le (inl t) = inl t
  Served-le a b r le (inr (h, d)) = inr (h, omega (arith, d, le))

  module _ (j : Bytes) (z : Member) (s : Fetched) (d : IsDistinct s.members)
      (there : find j s.members ≡ some z) where
    debt-erased :
        debt x.counter (erased j z s).members + (x.counter + 1 - z.counter)
        ≡ debt x.counter s.members
    debt-erased = unfold erased in debt-erase x.counter j z s.members d there

    debt-spread :
        debt x.counter (spread j z s).members + (x.counter + 1 - z.counter)
        ≡ debt x.counter s.members + (x.counter + 1 - (z.counter + 1))
    debt-spread =
        unfold spread in
        debt-assign x.counter j z (record z { counter = z.counter + 1 }) s.members d there

  IsDistinct-erased :
      (j : Bytes) (z : Member) (s : Fetched)
      → IsDistinct s.members
      → IsDistinct (erased j z s).members
  unfolding erased
  IsDistinct-erased j z s d = IsDistinct-erase j s.members d

  IsDistinct-spread :
      (j : Bytes) (z : Member) (s : Fetched)
      → IsDistinct s.members
      → IsDistinct (spread j z s).members
  unfolding spread
  IsDistinct-spread j z s d = IsDistinct-assign j (record z { counter = z.counter + 1 }) s.members d

  -- The head of the queue is another member.
  module _ (n : ℕ) (j : Bytes) (z : Member) (queue : RecentlyUpdatedSet) (s : Fetched) (b : ℕ)
      (less_erased : debt x.counter (erased j z s).members ≤ b)
      (less_spread : debt x.counter (spread j z s).members ≤ b) where
    drain_step :
        find k (spread j z s).members ≡ some x
        → Served (debt x.counter (erased j z s).members) (drain n max queue (erased j z s))
        → Served (debt x.counter (spread j z s).members) (drain n max queue (spread j z s))
        → Served b (drain n max ((j, z) ∷ queue) s)
    drain_step here after_erased after_spread = elim (Bool-cases (ltb max (z.counter + 1))) [
      | inl over ↦
          rw (drain_over n max j z queue s over)
            (Served-le _ b (drain n max queue (erased j z s)) less_erased after_erased)
      | inr again ↦ elim (Bool-cases (length (spread j z s).recent == n)) [
        | inl full ↦ rw (drain_full n max j z queue s again full) (inr (here, less_spread))
        | inr more ↦
            rw (drain_more n max j z queue s again more)
              (Served-le _ b (drain n max queue (spread j z s)) less_spread after_spread)
      ]
    ]

  -- The head of the queue is the member.
  drain_hit :
      (n : ℕ) (j : Bytes) (z : Member) (queue : RecentlyUpdatedSet) (s : Fetched)
      → same j k ≡ true
      → find j queue ≡ none
      → find j s.members ≡ some z
      → find k s.members ≡ some x
      → Fate max k x (drain n max ((j, z) ∷ queue) s)
  drain_hit n j z queue s hit fresh there here =
      let r = drain n max ((j, z) ∷ queue) s in
      let e = same→eq j k hit in
      let q : some z ≡ some x = sym there ∙ (rw e here) in
      let f : z ≡ x = cc in
      subst (λ i. Fate max i x r) e
        (subst (λ (y : Member). Fate max j y r) f (drain_head n max j z queue s fresh there))

  drain-Served :
      (n : ℕ) (queue : RecentlyUpdatedSet) (s : Fetched)
      → IsDistinct queue
      → IsDistinct s.members
      → Holds queue s
      → find k s.members ≡ some x
      → Served (debt x.counter s.members) (drain n max queue s)
  unfolding find
  drain-Served n [] s dq d holds here = unfold drain in inr (here, omega arith)
  drain-Served n ((j, z) ∷ queue) s dq d holds here =
      let there : find j s.members ≡ some z = holds j z (rw (same_refl j) refl) in
      elim (Bool-cases (same j k)) [
        | inl hit ↦ inl (drain_hit n j z queue s hit dq.0 there here)
        | inr miss ↦
            drain_step n j z queue s (debt x.counter s.members)
              (omega (arith, debt-erased j z s d there)) (omega (arith, debt-spread j z s d there))
              (spread_there j k z s miss ∙ here)
              (drain-Served n queue (erased j z s) dq.1 (IsDistinct-erased j z s d)
                (Holds-erased j z queue dq.0 s holds) (erased_there j k z s miss ∙ here))
              (drain-Served n queue (spread j z s) dq.1 (IsDistinct-spread j z s d)
                (Holds-spread j z queue dq.0 s holds) (spread_there j k z s miss ∙ here))
      ]

  -- A loop over a sorted queue with an element takes something off the debt.
  pub drain-less :
      (n b : ℕ) (queue : RecentlyUpdatedSet) (s : Fetched)
      → IsSorted queue
      → IsDistinct queue
      → IsDistinct s.members
      → Holds queue s
      → find k queue ≡ some x
      → debt x.counter s.members ≤ suc b
      → Served b (drain n max queue s)
  unfolding find
  drain-less n b [] s sorted dq d holds queued le = cc
  drain-less n b ((j, z) ∷ queue) s sorted dq d holds queued le =
      let there : find j s.members ≡ some z = holds j z (rw (same_refl j) refl) in
      let here : find k s.members ≡ some x = holds k x queued in
      elim (Bool-cases (same j k)) [
        | inl hit ↦ inl (drain_hit n j z queue s hit dq.0 there here)
        | inr miss ↦
            let least = find-All z k x queue sorted.0 (rw miss at queued) in
            drain_step n j z queue s b (omega (arith, least, le, debt-erased j z s d there))
              (omega (arith, least, le, debt-spread j z s d there))
              (spread_there j k z s miss ∙ here)
              (drain-Served n queue (erased j z s) dq.1 (IsDistinct-erased j z s d)
                (Holds-erased j z queue dq.0 s holds) (erased_there j k z s miss ∙ here))
              (drain-Served n queue (spread j z s) dq.1 (IsDistinct-spread j z s d)
                (Holds-spread j z queue dq.0 s holds) (spread_there j k z s miss ∙ here))
      ]
