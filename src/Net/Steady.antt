-- ===== src/Net/Steady.antt =====
-- What a predicate on the member of gossip_net.cpp has to stand for every call to keep it: the changes
-- of its sets, of its tasks, of its waiting events and of its thread.
use gossip_net.Prelude.{List, [], ◌∷◌, Bool, Bytes, All}
use gossip_net.Exec.Runs.{Runs, Any, Runs-bind}
use gossip_net.Node.{Node}
use gossip_net.Pending
use gossip_net.Pending.{PingReqTask}
use gossip_net.Net.{Env, Event, GossipNet, update_one, update, build_rumors, add_task}

-- `Known` is what is asked of the rumors.
pub record IsSteady (env : Env) (Known : Node → Type 0) (P : GossipNet → Type 0) : Type 0 where
  pub hears : (rumor : Node) → Known rumor → Runs P Any (update_one env rumor)
  pub builds : Runs P Any (build_rumors env)
  pub adds : (task : PingReqTask) → Runs P Any (add_task env task)
  pub fetches :
      (id : Bytes) (net : GossipNet)
      → P net
      → P (record net { tasks = (Pending.fetch id net.tasks).0 })
  pub sends : (events : List Event) (net : GossipNet) → P net → P (record net { events = events })
  pub starts : (running : Bool) (net : GossipNet) → P net → P (record net { running = running })

module _ (env : Env) (Known : Node → Type 0) (P : GossipNet → Type 0)
    (steady : IsSteady env Known P) where
  pub update-Runs : (rumors : List Node) → All Known rumors → Runs P Any (update env rumors)
  unfolding update
  update-Runs [] known net p = (tt, p)
  update-Runs (r ∷ rs) known net p =
      Runs-bind P Any Any (update_one env r) (λ _. update env rs) (steady.hears r known.0)
        (λ _ _. update-Runs rs known.1) net p

-- More may be asked of the rumors.
pub IsSteady-weaken :
    (env : Env) (Known Asked : Node → Type 0) (P : GossipNet → Type 0)
    → ((n : Node) → Asked n → Known n)
    → IsSteady env Known P
    → IsSteady env Asked P
IsSteady-weaken env Known Asked P known steady = record {
  hears = λ rumor h. steady.hears rumor (known rumor h);
  builds = steady.builds;
  adds = steady.adds;
  fetches = steady.fetches;
  sends = steady.sends;
  starts = steady.starts;
}
