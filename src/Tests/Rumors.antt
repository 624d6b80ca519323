-- ===== src/Tests/Rumors.antt =====
-- The building of rumors, on a member that has news.
use gossip_net.Prelude.{◌≡◌, refl, inr, Bytes}
use gossip_net.Outcome.{ok}
use gossip_net.Table.{find}
use gossip_net.Members.Update.{lookup}
use gossip_net.Net.{GossipNet, add_members, fetch_recent}
use gossip_net.Net.Merge.{IsSound}
use gossip_net.Net.Apart.{IsApart}
use gossip_net.Net.Gather.{IsQueue, joined, add_members-IsApart}
use gossip_net.Tests.{env, busy}
use gossip_net.Tests.Merging.{lone-IsSound}
use gossip_net.Tests.Sets.{two-IsDistinct, two-IsKeyed}

pub busy-IsSound : IsSound busy
busy-IsSound = record { members_keyed = lone-IsSound.members_keyed; recent_keyed = two-IsKeyed }

pub busy-IsApart : IsApart busy
unfolding lookup find
busy-IsApart = record { apart = λ j. inr refl }

busy-IsQueue : IsQueue env.pops busy.recent
busy-IsQueue = record { once = two-IsDistinct; same_elements = λ j. refl }

add_members-IsApart_example :
    (net : GossipNet) × (add_members env
        (fetch_recent env busy).stable
        (record busy { recent = (fetch_recent env busy).members })
      ≡ (ok tt, net))
    × ((j : Bytes) → lookup net.members j ≡ joined (fetch_recent env busy).stable busy.members j)
    × IsSound net
    × IsApart net
add_members-IsApart_example =
    add_members-IsApart env busy busy-IsSound busy-IsApart two-IsDistinct busy-IsQueue
