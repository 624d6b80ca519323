-- ===== src/Recent/Lifetime.antt =====
-- The life of a member in the set, from its `add` until a fetch takes it out.
use gossip_net.Prelude.{
  ℕ, zero, suc, ◌≤◌, ◌<◌, ◌≡◌, ap, ◌∙◌, ◌⊎◌, inl, inr, true, some, none, arith, Bytes,
}
use mathlib.Core.List.{Mem}
use gossip_net.Node.{Node, is_failed}
use gossip_net.Table.{find}
use gossip_net.Table.Laws.{IsDistinct, Apart-nil}
use gossip_net.Recent.{RecentlyUpdatedSet, Member, fetch_all}
use gossip_net.Recent.Fate.{Fate, nothing, fetch_all-Fate, IsDistinct-fetch_all}

-- The set after a number of fetches of all members.
unfoldable pub fetches : ℕ → ℕ → RecentlyUpdatedSet → RecentlyUpdatedSet
fetches zero max m = m
fetches (suc j) max m = (fetch_all max (fetches j max m) nothing).members

IsDistinct-fetches :
    (j max : ℕ) (m : RecentlyUpdatedSet) → IsDistinct m → IsDistinct (fetches j max m)
unfolding fetches
IsDistinct-fetches zero max m d = d
IsDistinct-fetches (suc j) max m d =
    IsDistinct-fetch_all max (fetches j max m) nothing (IsDistinct-fetches j max m d) tt
      (Apart-nil (fetches j max m))

counted : Member → ℕ → Member
counted mem c = record mem { counter = c }

find-fetches :
    (j max : ℕ) (m : RecentlyUpdatedSet) (k : Bytes) (node : Node)
    → IsDistinct m
    → find k m ≡ some (record { node = node; counter = 0 })
    → j ≤ max
    → find k (fetches j max m) ≡ some (record { node = node; counter = j })
unfolding fetches
find-fetches zero max m k node d h le = h
find-fetches (suc j) max m k node d h le =
    let before = find-fetches j max m k node d h (omega arith) in
    elim (fetch_all-Fate max (fetches j max m) k _ (IsDistinct-fetches j max m d) before) [
      | inl (_, found, _) ↦
          found ∙ ap (λ c. some (record { node = node; counter = c })) (omega arith)
      | inr (over, _, _) ↦ absurd (omega arith)
    ]

spread_below :
    (j max : ℕ) (k : Bytes) (node : Node) (m : RecentlyUpdatedSet)
    → j < max
    → Fate max k (record { node = node; counter = j }) (fetch_all max m nothing)
    → Mem node (fetch_all max m nothing).recent
spread_below j max k node m lt (inl (_, _, here)) = here
spread_below j max k node m lt (inr (over, _, _)) = absurd (omega arith)

leaves :
    (max : ℕ) (k : Bytes) (node : Node) (m : RecentlyUpdatedSet)
    → Fate max k (record { node = node; counter = max }) (fetch_all max m nothing)
    → (find k (fetch_all max m nothing).members ≡ none)
      × ((is_failed node.status ≡ true) ⊎ Mem node (fetch_all max m nothing).stable)
leaves max k node m (inl (lt, _, _)) = absurd (omega arith)
leaves max k node m (inr (_, gone, kept)) = (gone, kept)

module _ (max : ℕ) (m : RecentlyUpdatedSet) (k : Bytes) (node : Node) where
  -- In a set of distinct ids, a member that has not been spread yet is among the nodes to spread
  -- in each of the next `max` fetches of all members.
  pub spread_each :
      IsDistinct m
      → find k m ≡ some (record { node = node; counter = 0 })
      → (j : ℕ) → j < max
      → Mem node (fetch_all max (fetches j max m) nothing).recent
  spread_each d h j lt =
      let before = find-fetches j max m k node d h (omega arith) in
      spread_below j max k node (fetches j max m) lt
        (fetch_all-Fate max (fetches j max m) k _ (IsDistinct-fetches j max m d) before)

  -- In a set of distinct ids, the fetch of all members after `max` such fetches takes out a member
  -- that had not been spread before them and, unless it failed, hands it over to be made a stable
  -- one.
  pub spread_end :
      IsDistinct m
      → find k m ≡ some (record { node = node; counter = 0 })
      → (find k (fetches (suc max) max m) ≡ none)
        × ((is_failed node.status ≡ true)
            ⊎ Mem node (fetch_all max (fetches max max m) nothing).stable)
  unfolding fetches
  spread_end d h =
      let last = find-fetches max max m k node d h (omega arith) in
      leaves max k node (fetches max max m)
        (fetch_all-Fate max (fetches max max m) k _ (IsDistinct-fetches max max m d) last)
