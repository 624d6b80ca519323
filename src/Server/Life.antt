-- ===== src/Server/Life.antt =====
-- The life of a member: its constructor, the calls that it meets in any order, the datagrams that it
-- is sent among them, and the states that these lead to.
use gossip_net.Prelude.{ℕ, ◌≡◌, refl, inl, true, false, none, some, [], Bool, if◌then◌else◌}
use mathlib.Core.Path.{subst}
use gossip_net.Outcome.Ends.{Survives}
use gossip_net.Node.{Node}
use gossip_net.Node.Order.{IsKnown}
use gossip_net.Table.{find}
use gossip_net.Members
use gossip_net.Members.{size}
use gossip_net.Members.Update.{lookup}
use gossip_net.Net.{Env, GossipNet, stop}
use gossip_net.Net.Steady.{IsSteady}
use gossip_net.Net.Whole.{IsWhole, IsWhole-same, IsPops, IsWhole-Steady}
use gossip_net.Server.{Commands}
use gossip_net.Server.Calls.{Call, perform, IsAllowed, perform-Runs, allowed-Meets}

-- The constructor. What stands in `_self` it does not set.
unfoldable pub created : Node → ℕ → ℕ → ℕ → GossipNet
created self seed max_rumor_num timeout = record {
  self = self;
  members = Members.empty seed;
  recent = [];
  tasks = record { task_index = []; timeout_index = []; timeout = timeout };
  max_rumor_num = max_rumor_num;
  events = [];
  running = false;
}

-- What calls lead to, each with its own clock and hash table positions; after a fault there is no
-- program left.
pub data Reach (commands : Commands) (net : GossipNet) : GossipNet → Type 0 where
  stay : Reach commands net net
  after :
      {net' : GossipNet}
      → Reach commands net net'
      → (env : Env) → IsPops env.pops
      → (c : Call) → IsAllowed c
      → Survives (perform env commands c net').0
      → (net'' : GossipNet) → (perform env commands c net').1 ≡ net''
      → Reach commands net net''
  stopped :
      {net' : GossipNet}
      → Reach commands net net'
      → (ended : Bool) (net'' : GossipNet) → stop ended net' ≡ some net''
      → Reach commands net net''

pub created-IsWhole : (self : Node) (seed n timeout : ℕ) → IsWhole (created self seed n timeout)
unfolding created lookup find
created-IsWhole self seed n timeout = record {
  sound = record {
    members_keyed = record { keyed = λ id m h. cc; known = λ id m h. cc };
    recent_keyed = record { keyed = λ id m h. cc; known = λ id m h. cc };
  };
  apart = record { apart = λ j. inl refl };
  distinct = tt;
  orderly = record { indexed = record { ordered = tt; indexed = λ j. tt }; distinct = tt };
}

module _ (P : GossipNet → Type 0)
    (stops : (net : GossipNet) → P net → P (record net { running = false })) where
  stop_either :
      (b ended : Bool) (net net' : GossipNet)
      → (if b then (if ended then some (record net { running = false }) else none) else some net)
        ≡ some net'
      → P net
      → P net'
  stop_either true true net net' h p =
      let e : record net { running = false } ≡ net' = cc in subst P e (stops net p)
  stop_either true false net net' h p = cc
  stop_either false ended net net' h p = let e : net ≡ net' = cc in subst P e p

  pub stop-kept :
      (ended : Bool) (net net' : GossipNet) → stop ended net ≡ some net' → P net → P net'
  unfolding stop
  stop-kept ended net net' h p = stop_either net.running ended net net' h p

module _ (P : GossipNet → Type 0) (steady : (env : Env) → IsPops env.pops → IsSteady env IsKnown P)
    (stops : (net : GossipNet) → P net → P (record net { running = false })) where
  -- What every call keeps holds of whatever calls lead to.
  pub Reach-kept :
      {commands : Commands} {net net' : GossipNet} → Reach commands net net' → P net → P net'
  Reach-kept stay p = p
  Reach-kept (after {net' = before} r env pops c h alive net'' e) p =
      subst P e
        (perform-Runs env IsKnown P (steady env pops) _ c
          (allowed-Meets env P (steady env pops) _ c h) before (Reach-kept r p)).1
  Reach-kept (stopped {net' = before} r ended net'' e) p =
      stop-kept P stops ended before net'' e (Reach-kept r p)

module _ (commands : Commands) (self : Node) (seed n timeout : ℕ) (net : GossipNet)
    (reached : Reach commands (created self seed n timeout) net) where
  -- In every state that calls lead to from the constructor, datagrams of any bytes among them, the
  -- invariant holds: every node stands under its own id, with a status and a version of 64 bits; no
  -- id is in both sets, or twice among the recently updated ones; every task is found by its time,
  -- and no id has two lists of tasks. A user's own rumors are taken to have a status and such a
  -- version, and the queue to give up each element once.
  pub reached-IsWhole : IsWhole net
  reached-IsWhole =
      Reach-kept IsWhole IsWhole-Steady (λ net w. IsWhole-same net _ (λ j. refl) refl w.orderly w)
        reached (created-IsWhole self seed n timeout)
