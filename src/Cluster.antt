-- ===== src/Cluster.antt =====
-- Several members of gossip_net.cpp and udp_server.cpp on one network: each calls and answers on its
-- own, and a datagram that was handed over may come anywhere, late, often or never.
pub mod Quiet
pub mod Silent
pub mod Alone
use gossip_net.Prelude.{ℕ, ◌≡◌, ◌≢◌, List, [], ◌∷◌, ◌++◌, Bytes, take, ◌==◌, if◌then◌else◌}
use mathlib.Core.List.{Memᴰ}
use gossip_net.Outcome.Ends.{Survives}
use gossip_net.Decimal.Int.{pos}
use gossip_net.Node.{Node}
use gossip_net.Net.{Env, Event, GossipNet}
use gossip_net.Server.{Commands, on_read, on_event}
use gossip_net.Server.Calls.{
  Call, read_call, event_call, start_call, update_call, ack_call, ping_call, ack_as_call, add_call,
  do_call, perform,
}
use gossip_net.Server.Life.{created}

-- The members by number, and all the datagrams that were handed over.
pub record Cluster : Type 0 where
  pub member : ℕ → GossipNet
  pub sent : List Bytes

abbrev pub put : ℕ → GossipNet → Cluster → Cluster
put i net c = record c { member = λ j. if j == i then net else c.member j }

abbrev pub contents : List Event → List Bytes
contents [] = []
contents (e ∷ events) = e.content ∷ contents events

-- What the user of a member calls; the rest is the loop's.
abbrev pub IsOwn : Call → Type 0
IsOwn (read_call n buffer) = ⊥
IsOwn event_call = ⊥
IsOwn _ = Unit

-- `Permitted` says what the user of each member calls, and what that meets outside the program.
pub data Step (commands : Commands) (Permitted : ℕ → Env → Call → Type 0) (c : Cluster)
    : Cluster → Type 0 where
  calls :
      (i : ℕ) (env : Env) (call : Call)
      → IsOwn call
      → Permitted i env call
      → Survives (perform env commands call (c.member i)).0
      → (c' : Cluster) → put i (perform env commands call (c.member i)).1 c ≡ c'
      → Step commands Permitted c c'
  hands_over :
      (i : ℕ) (c' : Cluster)
      → record (put i (on_event (c.member i)).0 c) {
        sent = c.sent ++ contents (on_event (c.member i)).1;
      }
        ≡ c'
      → Step commands Permitted c c'
  receives :
      (i : ℕ) (env : Env) (n : ℕ) (buffer : Bytes)
      → Memᴰ (take n buffer) c.sent
      → Survives (on_read env commands (pos n) buffer (c.member i)).0
      → (c' : Cluster) → put i (on_read env commands (pos n) buffer (c.member i)).1 c ≡ c'
      → Step commands Permitted c c'

pub data Steps (commands : Commands) (Permitted : ℕ → Env → Call → Type 0) (c : Cluster)
    : Cluster → Type 0 where
  none_yet : Steps commands Permitted c c
  then_step :
      {c' : Cluster}
      → Steps commands Permitted c c'
      → (c'' : Cluster) → Step commands Permitted c' c''
      → Steps commands Permitted c c''

-- Members that were just constructed, and an empty network.
abbrev pub founded : (ℕ → Node) → (ℕ → ℕ) → ℕ → ℕ → Cluster
founded self seed max_rumor_num timeout = record {
  member = λ i. created (self i) (seed i) max_rumor_num timeout;
  sent = [];
}
