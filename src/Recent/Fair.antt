-- ===== src/Recent/Fair.antt =====
-- No member of recently_updated_set.cpp waits for ever to be spread.
use gossip_net.Prelude.{
  ℕ, zero, suc, ◌+◌, ◌*◌, ◌≤◌, ◌<◌, ◌≡◌, ◌≢◌, sym, ◌∙◌, inl, inr, some, [], arith, Bytes, leb,
  length, ◌==◌, Bool-cases,
}
use gossip_net.Table.{find}
use gossip_net.Table.Laws.{IsDistinct}
use gossip_net.Recent.{RecentlyUpdatedSet, Member, Pops, fetch}
use gossip_net.Recent.Drain.{IsSorted}
use gossip_net.Recent.Distinct.{fetch-IsDistinct}
use gossip_net.Recent.Fate.{Fate, fetch_all-Fate}
use gossip_net.Recent.Debt.{debt, debt-le, debt_pos}
use gossip_net.Recent.Served.{Served, drain-less}

-- The set after a number of fetches, each of at most `n` members.
unfoldable pub fetched_times : Pops → ℕ → ℕ → ℕ → RecentlyUpdatedSet → RecentlyUpdatedSet
fetched_times pops n max zero m = m
fetched_times pops n max (suc i) m = fetched_times pops n max i (fetch pops n max m).members

-- The queue gives up each element of a set of distinct ids once, in the order of `MemberCmp`.
pub record IsFair (pops : Pops) : Type 0 where
  pub once : (m : RecentlyUpdatedSet) → IsDistinct m → IsDistinct (pops m)
  pub same_elements :
      (m : RecentlyUpdatedSet) → IsDistinct m → (j : Bytes) → find j (pops m) ≡ find j m
  pub sorted : (m : RecentlyUpdatedSet) → IsDistinct m → IsSorted (pops m)

module _ (pops : Pops) (fair : IsFair pops) (n max : ℕ) (asked : n ≢ 0) (k : Bytes)
    (x : Member) where
  fetch-Served :
      (m : RecentlyUpdatedSet) (b : ℕ)
      → IsDistinct m
      → find k m ≡ some x
      → debt x.counter m ≤ suc b
      → Served max k x b (fetch pops n max m)
  unfolding fetch
  fetch-Served m b d here le = elim (Bool-cases (n == 0)) [
    | inl zero_asked ↦ absurd (asked (ground arith))
    | inr some_asked ↦ elim (Bool-cases (leb (length m) n)) [
      | inl enough ↦ rw (some_asked, enough) (inl (fetch_all-Fate max m k x d here))
      | inr few ↦
          rw (some_asked, few)
            (drain-less max k x n b (pops m) (record { members = m; recent = []; stable = [] })
              (fair.sorted m d) (fair.once m d) d (λ j y h. sym (fair.same_elements m d j) ∙ h)
              (fair.same_elements m d k ∙ here) le)
    ]
  ]

  -- At one of the next `b` fetches the member is spread or leaves; until then it stands as it did.
  FateWithin : ℕ → RecentlyUpdatedSet → Type 0
  FateWithin b m =
      (i : ℕ) × (i < b)
      × (find k (fetched_times pops n max i m) ≡ some x)
      × Fate max k x (fetch pops n max (fetched_times pops n max i m))

  fate_within :
      (b : ℕ) (m : RecentlyUpdatedSet)
      → IsDistinct m
      → find k m ≡ some x
      → debt x.counter m ≤ b
      → FateWithin b m
  unfolding FateWithin fetched_times
  fate_within zero m d here le = absurd (omega (arith, debt_pos k x m here, le))
  fate_within (suc b) m d here le = elim (fetch-Served m b d here le) [
    | inl t ↦ (0, omega arith, here, t)
    | inr (h, le') ↦
        let (i, lt, there, t) =
          fate_within b (fetch pops n max m).members (fetch-IsDistinct pops n max m d) h le' in
        (suc i, omega (arith, lt), there, t)
  ]

-- No member starves, however few a fetch may spread: if the queue gives up the elements of any set of
-- distinct ids each once and in the order of `MemberCmp`, then among as many fetches of at least one
-- member as the set has members, times one more than the member's count, there is one that, below
-- `max`, has the member's node among its rumors and counts it once more, or else takes the member out
-- and, unless it failed, has it among the nodes to be made stable. Until then it stands as it did.
pub fetch-within :
    (pops : Pops)
    → IsFair pops
    → (n max : ℕ) → n ≢ 0
    → (k : Bytes) (x : Member) (m : RecentlyUpdatedSet) → IsDistinct m
    → find k m ≡ some x
    → (i : ℕ) × (i < (x.counter + 1) * length m)
      × (find k (fetched_times pops n max i m) ≡ some x)
      × Fate max k x (fetch pops n max (fetched_times pops n max i m))
fetch-within pops fair n max asked k x m d here =
    unfold FateWithin in
    fate_within pops fair n max asked k x ((x.counter + 1) * length m) m d here
      (debt-le x.counter m)
