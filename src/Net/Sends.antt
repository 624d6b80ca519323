-- ===== src/Net/Sends.antt =====
-- What every call keeps, under `ack`, `ping` and `do_task`.
use gossip_net.Prelude.{
  true, false, some, none, Option, List, [], ◌∷◌, Bytes, Bool, codes, length, ◌+◌, ◌*◌,
}
use gossip_net.Outcome.Ends.{Ends, Ends-bind, Ends-if}
use gossip_net.Exec.{lift}
use gossip_net.Exec.Runs.{Runs, Any, Runs-bind, Runs-lift}
use gossip_net.Decimal.Int.{ℤ, pos}
use gossip_net.Resp.Builder.{append_array, append_simple_string}
use gossip_net.Node.{Node, NodeStatus, alive, suspected, failed, unknown}
use gossip_net.Pending
use gossip_net.Pending.{PingReqTask}
use gossip_net.Net.{
  Env, GossipNet, send, status_of, append_node, append_rumors, message, build_rumors, send_message,
  ack_as, ack, ping, run_tasks, do_task,
}
use gossip_net.Net.Tasks.{run_tasks_cons}
use gossip_net.Net.Steady.{IsSteady}

status_of-Ends : (s : NodeStatus) → Ends Any (status_of s)
status_of-Ends alive = tt
status_of-Ends suspected = tt
status_of-Ends failed = tt
status_of-Ends unknown = tt

append_node-Ends :
    (builder type : Bytes) (n : Node) (b : Bool) → Ends Any (append_node builder type n b)
unfolding append_node
append_node-Ends builder type n b =
    Ends-if Any b _ _
      (λ _. Ends-bind Any Any (status_of n.status) _ (status_of-Ends n.status) (λ _ _. tt))
      (λ _. tt)

append_rumors-Ends : (builder : Bytes) (ns : List Node) → Ends Any (append_rumors builder ns)
unfolding append_rumors
append_rumors-Ends builder [] = tt
append_rumors-Ends builder (n ∷ ns) =
    Ends-bind Any Any (append_node builder (codes "rumor") n true) _
      (append_node-Ends builder (codes "rumor") n true) (λ b _. append_rumors-Ends b ns)

pub message-Ends :
    (name : Bytes) (self : Node) (rumors : List Node) → Ends Any (message name self rumors)
unfolding message
message-Ends name self rumors =
    let header = append_simple_string (append_array [] (pos (1 + 5 + length rumors * 6))) name in
    Ends-bind Any Any (append_node header (codes "self") self false) _
      (append_node-Ends header (codes "self") self false) (λ b _. append_rumors-Ends b rumors)

module _ (env : Env) (Known : Node → Type 0) (P : GossipNet → Type 0)
    (steady : IsSteady env Known P) where
  send-Runs : (ip : Bytes) (port : ℤ) (content : Bytes) → Runs P Any (send ip port content)
  unfolding send
  send-Runs ip port content net p = (tt, steady.sends _ net p)

  send_message-Runs :
      (name : Bytes) (dest self : Node) → Runs P Any (send_message env name dest self)
  unfolding send_message
  send_message-Runs name dest self =
      Runs-bind P Any Any (build_rumors env) _ steady.builds λ rumors _.
        Runs-bind P Any Any (lift (message name self rumors))
          (λ content. send dest.ip dest.port content)
          (Runs-lift P Any (message name self rumors) (message-Ends name self rumors))
          (λ content _. send-Runs dest.ip dest.port content)

  pub ack_as-Runs : (dest self : Node) → Runs P Any (ack_as env dest self)
  unfolding ack_as
  ack_as-Runs dest self = send_message-Runs (codes "ack") dest self

  pub ack-Runs : (dest : Node) → Runs P Any (ack env dest)
  unfolding ack
  ack-Runs dest net p = ack_as-Runs dest net.self net p

  pub ping-Runs : (dest : Node) → Runs P Any (ping env dest)
  unfolding ping
  ping-Runs dest net p = send_message-Runs (codes "ping") dest net.self net p

  run_tasks-Runs : (ts : List (Option PingReqTask)) → Runs P Any (run_tasks env ts)
  unfolding run_tasks
  run_tasks-Runs [] net p = (tt, p)
  run_tasks-Runs (none ∷ ts) net p = (tt, p)
  run_tasks-Runs (some t ∷ ts) net p = rw (run_tasks_cons env t ts net) (
      Runs-bind P Any Any (ack_as env t.dest t.peer) (λ _. run_tasks env ts)
        (ack_as-Runs t.dest t.peer) (λ _ _. run_tasks-Runs ts) net p)

  pub do_task-Runs : (id : Bytes) → Runs P Any (do_task env id)
  unfolding do_task
  do_task-Runs id net p =
      run_tasks-Runs (Pending.fetch id net.tasks).1
        (record net { tasks = (Pending.fetch id net.tasks).0 }) (steady.fetches id net p)
