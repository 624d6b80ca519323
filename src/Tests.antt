-- ===== src/Tests.antt =====
-- Concrete nodes, sets, members and requests, and the runs of the theorems on them.
mod Merging
mod Sets
mod Rumors
mod Tasks
mod Requests
mod Messages
mod Commands
mod Pings
mod Lives
mod Sockets
mod Clusters
mod Stories
mod Queues
mod Datagrams
use gossip_net.Prelude.{[], ◌∷◌, codes, true, some}
use gossip_net.Decimal.Int.{pos}
use gossip_net.Node.{Node, NodeStatus, alive, suspected, failed, unknown}
use gossip_net.Recent.{RecentlyUpdatedSet, Member}
use gossip_net.Members.{MemberSet}
use gossip_net.Pending.{PendingLists, PingReqTask}
use gossip_net.Resp.{RespRequest}
use gossip_net.Net.{Env, GossipNet}

abbrev pub alice : Node
alice = record {
  id = codes "alice";
  ip = codes "10.0.0.1";
  port = pos 7000;
  version = 3;
  status = alive;
}

abbrev pub newer_alice : Node
newer_alice = record alice { version = 4; status = suspected }

abbrev pub bob : Node
bob = record {
  id = codes "bob";
  ip = codes "10.0.0.2";
  port = pos 7001;
  version = 1;
  status = suspected;
}

abbrev pub carol : Node
carol = record {
  id = codes "carol";
  ip = codes "10.0.0.3";
  port = pos 7002;
  version = 9;
  status = failed;
}

abbrev pub stranger : Node
stranger = record alice { status = unknown }

abbrev pub env : Env
env = record { slot = λ ks k. 0; pops = λ m. m; scaled_log = λ n. n; now = 50 }

abbrev pub late_env : Env
late_env = record env { slot = λ ks k. 7; now = 60 }

-- Three members, the cursor behind the first.
abbrev pub trio : MemberSet
trio = record {
  before = (codes "xalice", alice) ∷ [];
  after = (codes "xbob", bob) ∷ (codes "xcarol", carol) ∷ [];
  random_key_prefix = codes "x";
}

abbrev pub no_members : MemberSet
no_members = record { before = []; after = []; random_key_prefix = codes "x" }

abbrev pub two_recent : RecentlyUpdatedSet
two_recent =
    (codes "alice", record { node = alice; counter = 0 })
    ∷ (codes "carol", record { node = carol; counter = 2 })
    ∷ []

abbrev pub task : PingReqTask
task = record { dest = alice; peer = bob }

abbrev pub waiting_tasks : PendingLists
waiting_tasks = record {
  task_index = (codes "bob", record { task = some task; time = 50 } ∷ []) ∷ [];
  timeout_index = (50, codes "bob" ∷ []) ∷ [];
  timeout = 1000;
}

abbrev pub lone : GossipNet
lone = record {
  self = carol;
  members = no_members;
  recent = [];
  tasks = waiting_tasks;
  max_rumor_num = 2;
  events = [];
  running = true;
}

abbrev pub other : GossipNet
other = record lone { self = bob; members = record no_members { random_key_prefix = codes "y" } }

abbrev pub greeting : RespRequest
greeting = record { name = codes "ping"; args = codes "self" ∷ codes "alice" ∷ [] }

abbrev pub busy : GossipNet
busy = record lone { recent = two_recent; max_rumor_num = 1 }
