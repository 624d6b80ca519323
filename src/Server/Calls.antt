-- ===== src/Server/Calls.antt =====
-- What a member meets: the calls of the loop of udp_server.cpp, and those that a user of
-- gossip_net.h may make.
use gossip_net.Prelude.{true, false, List, [], Bytes, All, Bool, if◌then◌else◌}
use gossip_net.Outcome.{Outcome, ok}
use gossip_net.Outcome.Ends.{Ends}
use gossip_net.Exec.{Exec}
use gossip_net.Exec.Runs.{Runs, Any}
use gossip_net.Decimal.Int.{ℤ}
use gossip_net.Node.{Node}
use gossip_net.Node.Order.{IsKnown}
use gossip_net.Pending.{PingReqTask}
use gossip_net.Net.{Env, GossipNet, start, update, ack, ack_as, ping, add_task, do_task}
use gossip_net.Net.Steady.{IsSteady-weaken, IsSteady, update-Runs}
use gossip_net.Net.Sends.{ack-Runs, ack_as-Runs, ping-Runs, do_task-Runs}
use gossip_net.Server.{Commands, on_read, on_event}
use gossip_net.Wire.Known.{IsRead}
use gossip_net.Server.Whole.{on_read-Runs}

-- What the loop calls, and what a user of the class may.
pub data Call : Type 0 where
  read_call : ℤ → Bytes → Call
  event_call start_call : Call
  update_call : List Node → Call
  ack_call ping_call : Node → Call
  ack_as_call : Node → Node → Call
  add_call : PingReqTask → Call
  do_call : Bytes → Call

unfoldable pub perform : Env → Commands → Call → Exec GossipNet (Unit {0})
perform env commands (read_call n buffer) = on_read env commands n buffer
perform env commands event_call = λ net. (ok tt, (on_event net).0)
perform env commands start_call = start
perform env commands (update_call rumors) = update env rumors
perform env commands (ack_call dest) = ack env dest
perform env commands (ping_call dest) = ping env dest
perform env commands (ack_as_call dest self) = ack_as env dest self
perform env commands (add_call task) = add_task env task
perform env commands (do_call id) = do_task env id

-- A user's own rumors have a status and a version of 64 bits. Of the bytes of a datagram nothing is
-- asked.
abbrev pub IsAllowed : Call → Type 0
IsAllowed (update_call rumors) = All IsKnown rumors
IsAllowed _ = Unit

-- What a call has to meet besides: its rumors are known ones, and its datagram is read well.
abbrev pub Meets : Env → (Node → Type 0) → (GossipNet → Type 0) → Commands → Call → Type 0
Meets env Known P commands (read_call n buffer) = Runs P Any (on_read env commands n buffer)
Meets env Known P commands (update_call rumors) = All Known rumors
Meets env Known P commands _ = Unit

abbrev Kept : (GossipNet → Type 0) → Outcome (Unit {0}) × GossipNet → Type 0
Kept P r = Ends Any r.0 × P r.1

either-Kept :
    (P : GossipNet → Type 0) (b : Bool) (r r' : Outcome (Unit {0}) × GossipNet)
    → Kept P r
    → Kept P r'
    → Kept P (if b then r else r')
either-Kept P true r r' h h' = h
either-Kept P false r r' h h' = h'

module _ (env : Env) (Known : Node → Type 0) (P : GossipNet → Type 0)
    (steady : IsSteady env Known P) where
  start-Runs : Runs P Any start
  unfolding start
  start-Runs net p = either-Kept P net.running _ _ (tt, p) (tt, steady.starts true net p)

  pub perform-Runs :
      (commands : Commands) (c : Call)
      → Meets env Known P commands c
      → Runs P Any (perform env commands c)
  unfolding perform
  perform-Runs commands (read_call n buffer) h = h
  perform-Runs commands event_call h = λ net p. unfold on_event in (tt, steady.sends [] net p)
  perform-Runs commands start_call h = start-Runs
  perform-Runs commands (update_call rumors) h = update-Runs env Known P steady rumors h
  perform-Runs commands (ack_call dest) h = ack-Runs env Known P steady dest
  perform-Runs commands (ping_call dest) h = ping-Runs env Known P steady dest
  perform-Runs commands (ack_as_call dest self) h = ack_as-Runs env Known P steady dest self
  perform-Runs commands (add_call task) h = steady.adds task
  perform-Runs commands (do_call id) h = do_task-Runs env Known P steady id

pub allowed-Meets :
    (env : Env) (P : GossipNet → Type 0)
    → IsSteady env IsKnown P
    → (commands : Commands) (c : Call) → IsAllowed c
    → Meets env IsKnown P commands c
allowed-Meets env P steady commands (read_call n buffer) h =
    on_read-Runs env P (IsSteady-weaken env IsKnown IsRead P (λ n h. h.known) steady) commands n
      buffer
allowed-Meets env P steady commands event_call h = tt
allowed-Meets env P steady commands start_call h = tt
allowed-Meets env P steady commands (update_call rumors) h = h
allowed-Meets env P steady commands (ack_call dest) h = tt
allowed-Meets env P steady commands (ping_call dest) h = tt
allowed-Meets env P steady commands (ack_as_call dest self) h = tt
allowed-Meets env P steady commands (add_call task) h = tt
allowed-Meets env P steady commands (do_call id) h = tt
