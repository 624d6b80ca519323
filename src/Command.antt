-- ===== src/Command.antt =====
-- command.h and command.cpp: the three commands, from their arguments to their effect.
pub mod Effect
pub mod Taken
pub mod Spoken
pub mod Whole
use gossip_net.Prelude.{ℕ, List, [], ◌∷◌, ◌++◌, Bytes, codes}
use gossip_net.Outcome.{Outcome, ok, throws, fault}
use gossip_net.Outcome
use gossip_net.Exec.{Exec, ◌>>=◌, ◌>>◌, lift}
use gossip_net.Node.{Node}
use gossip_net.Wire.{parse_node, parse_rumors}
use gossip_net.Net.{Env, GossipNet, update, ack, ping, add_task, do_task}

pub data Command : Type 0 where
  ping_command ping_req_command ack_command : Command

-- `name()`.
unfoldable pub name : Command → Bytes
name ping_command = codes "ping"
name ping_req_command = codes "ping-req"
name ack_command = codes "ack"

-- `PingCommand::Args` and `AckCommand::Args`.
pub record Args : Type 0 where
  pub self : Node
  pub rumors : List Node

pub record PingReqArgs : Type 0 where
  pub self : Node
  pub peer : Node
  pub rumors : List Node

-- `_parse_args` of `PingCommand` and of `AckCommand`.
unfoldable pub parse_args : List Bytes → Outcome Args
parse_args args =
    Outcome.◌>>=◌ (parse_node (codes "self") args)
      λ s. Outcome.◌>>=◌ (parse_rumors s.1) λ rumors. ok (record { self = s.0; rumors = rumors })

-- `_parse_args` of `PingReqCommand`.
unfoldable pub parse_req_args : List Bytes → Outcome PingReqArgs
parse_req_args args = Outcome.◌>>=◌ (parse_node (codes "self") args) λ s.
    Outcome.◌>>=◌ (parse_node (codes "peer") s.1) λ p.
      Outcome.◌>>=◌ (parse_rumors p.1)
        λ rumors. ok (record { self = s.0; peer = p.0; rumors = rumors })

unfoldable pub run_ping : Env → List Bytes → Exec GossipNet (Unit {0})
run_ping env args = do
  a ← lift (parse_args args)
  update env (a.rumors ++ a.self ∷ [])
  ack env a.self

-- The task is one that passes the peer's acknowledgement on to the sender.
unfoldable pub run_ping_req : Env → List Bytes → Exec GossipNet (Unit {0})
run_ping_req env args = do
  a ← lift (parse_req_args args)
  update env (a.rumors ++ a.self ∷ [])
  ping env a.peer
  add_task env (record { dest = a.self; peer = a.peer })

unfoldable pub run_ack : Env → List Bytes → Exec GossipNet (Unit {0})
run_ack env args = do
  a ← lift (parse_args args)
  update env (a.rumors ++ a.self ∷ [])
  do_task env a.self.id

-- `_run`, by the class of the command.
unfoldable pub run_body : Env → Command → List Bytes → Exec GossipNet (Unit {0})
unfolding run_ping run_ping_req run_ack
run_body env ping_command args = run_ping env args
run_body env ping_req_command args = run_ping_req env args
run_body env ack_command args = run_ack env args

-- `catch (const Error &err)`.
abbrev pub caught : Outcome (Unit {0}) × GossipNet → Outcome (Unit {0}) × GossipNet
caught (ok u, net) = (ok u, net)
caught (throws e, net) = (ok tt, net)
caught (fault x, net) = (fault x, net)

unfoldable pub run : Env → Command → List Bytes → Exec GossipNet (Unit {0})
unfolding run_body
run env c args net = caught (run_body env c args net)
