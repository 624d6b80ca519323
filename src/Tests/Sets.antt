-- ===== src/Tests/Sets.antt =====
-- The two sets of members, on concrete ones.
use gossip_net.Prelude.{
  ℕ, ◌≤◌, ◌<◌, ◌^◌, ◌≢◌, ◌↔◌, List, ◌≡◌, ◌⊎◌, refl, arith, [], ◌∷◌, Bytes, codes, none, some, true,
  same, same_iff, take, ◌&&◌, if◌then◌else◌,
}
use mathlib.Core.List.{Mem}
use gossip_net.Outcome.{ok, fault, assert_failed, endless}
use gossip_net.Node.{Node, is_failed}
use gossip_net.Table.{find}
use gossip_net.Table.Laws.{IsDistinct}
use gossip_net.Recent
use gossip_net.Recent.{RecentlyUpdatedSet, Member, fetch_all}
use gossip_net.Recent.Laws
use gossip_net.Recent.Laws.{merged, add-merged}
use gossip_net.Recent.Fate.{nothing}
use gossip_net.Recent.Lifetime.{fetches, spread_each, spread_end}
use gossip_net.Members
use gossip_net.Members.{MemberSet, size, nodes}
use gossip_net.Members.Rounds.{turn}
use gossip_net.Members.Rotation.{IsStopped, fetch_stops}
use gossip_net.Members.Turns.{cycle, fetches-cycle}
use gossip_net.Members.Turns
use gossip_net.Members.Update
use gossip_net.Members.Update.{lookup, news, is_news, try_update-news, add-lookup, add_faults}
use gossip_net.Tests.{alice, newer_alice, trio, two_recent}

abbrev three : ℕ
three = 3

fetch_stops_example :
    ((Members.fetch three trio ≡ fault assert_failed) ↔ ((three ≡ size trio) × (three ≢ 0)))
    × ((Members.fetch three trio ≡ fault endless) ↔ ((2 ^ 32 ≤ three) × (three < size trio)))
    × (IsStopped three (size trio)
        ⊎ ((r : MemberSet × List Node) × (Members.fetch three trio ≡ ok r)))
fetch_stops_example = fetch_stops three trio

fetches-cycle_example :
    (s' : MemberSet) × (Members.Turns.fetches (2 ∷ 1 ∷ 2 ∷ []) trio
      ≡ ok (s', nodes (take 5 (cycle 2 (turn trio)))))
fetches-cycle_example =
    fetches-cycle (2 ∷ 1 ∷ 2 ∷ []) trio 2 (omega arith, (omega arith, (omega arith, tt)))
      (omega arith)

pub two-IsDistinct : IsDistinct two_recent
unfolding find same
two-IsDistinct = (refl, (refl, tt))

find-alice : find (codes "alice") two_recent ≡ some (record { node = alice; counter = 0 })
unfolding find same
find-alice = refl

spread_each_example : Mem alice (fetch_all 2 (fetches 1 2 two_recent) nothing).recent
spread_each_example =
    spread_each 2 two_recent (codes "alice") alice two-IsDistinct find-alice 1 (omega arith)

spread_end_example :
    (find (codes "alice") (fetches 3 2 two_recent) ≡ none)
    × ((is_failed alice.status ≡ true)
        ⊎ Mem alice (fetch_all 2 (fetches 2 2 two_recent) nothing).stable)
spread_end_example = spread_end 2 two_recent (codes "alice") alice two-IsDistinct find-alice

pub two-IsKeyed : Recent.Laws.IsKeyed two_recent
unfolding find
two-IsKeyed = record {
  keyed = λ id mem h. ground (arith, same_iff (codes "alice") id, same_iff (codes "carol") id);
  known = λ id mem h. record { known = ground arith; fits = ground arith };
}

trio-IsKeyed : Members.Update.IsKeyed trio
unfolding lookup find same
trio-IsKeyed = record {
  keyed = λ id n h.
      ground (
        arith,
        same_iff (codes "alice") id,
        same_iff (codes "bob") id,
        same_iff (codes "carol") id,
      );
  known = λ id n h. record { known = ground arith; fits = ground arith };
}

try_update-news_example :
    (s : MemberSet) × (Members.try_update newer_alice trio
      ≡ ok (s, news (lookup trio newer_alice.id) newer_alice))
    × ((j : Bytes)
        → lookup s j ≡ (
            if is_news (news (lookup trio newer_alice.id) newer_alice) && same newer_alice.id j
            then none
            else lookup trio j))
try_update-news_example =
    try_update-news newer_alice trio trio-IsKeyed (record { known = refl; fits = omega arith })
