-- ===== src/Net/Story.antt =====
-- What a member of gossip_net.cpp knows of one id, and how that may change.
pub mod Tells
use gossip_net.Prelude.{◌<◌, ◌≡◌, true, some, none, Option, Bytes}
use mathlib.Core.Path.{subst}
use gossip_net.Node.{Node, is_failed}
use gossip_net.Node.Order.{rank}
use gossip_net.Table.{find}
use gossip_net.Recent.{Member}
use gossip_net.Members.Update.{lookup}
use gossip_net.Net.{GossipNet}

abbrev pub first_of : Option Member → Option Node → Option Node
first_of none o = o
first_of (some m) o = some m.node

-- The node that a member has of an id, in the one or the other set.
abbrev pub known_of : GossipNet → Bytes → Option Node
known_of net j = first_of (find j net.recent) (lookup net.members j)

-- The specification: what is known of an id begins with any news of it, changes for news of a higher
-- rank only, and is forgotten only if it is that the id failed. `Told` holds of the news.
pub data Story (Told : Node → Type 0) (j : Bytes) (o : Option Node) : Option Node → Type 0 where
  so_far : Story Told j o o
  begins : Story Told j o none → (n : Node) → n.id ≡ j → Told n → Story Told j o (some n)
  rises :
      {m : Node}
      → Story Told j o (some m)
      → (n : Node) → n.id ≡ j
      → Told n
      → rank m < rank n
      → Story Told j o (some n)
  forgets : {m : Node} → Story Told j o (some m) → is_failed m.status ≡ true → Story Told j o none

-- What is known at the end of a story that begins with nothing was told.
module _ {Told : Node → Type 0} {j : Bytes} where
  pub Story-told : {o : Option Node} → Story Told j none o → (n : Node) → o ≡ some n → Told n
  Story-told so_far n e = cc
  Story-told (begins s m named told) n e = let q : m ≡ n = cc in subst Told q told
  Story-told (rises s m named told up) n e = let q : m ≡ n = cc in subst Told q told
  Story-told (forgets s failed) n e = cc
