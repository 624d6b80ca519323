-- ===== src/Command/Whole.antt =====
-- What every call of a member keeps, the three commands of command.cpp keep too.
use gossip_net.Prelude.{List, [], ◌∷◌, ◌++◌, Bytes, All}
use gossip_net.Outcome.{Outcome, ok, throws, fault}
use gossip_net.Outcome.Ends.{Ends}
use gossip_net.Exec.{lift}
use gossip_net.Exec.Runs.{Runs, Any, Runs-bind, Runs-lift}
use gossip_net.Wire.Known.{IsRead}
use gossip_net.Net.{Env, GossipNet, update, ack, ping, do_task}
use gossip_net.Net.Steady.{IsSteady, update-Runs}
use gossip_net.Net.Sends.{ack-Runs, ping-Runs, do_task-Runs}
use gossip_net.Command.{
  Command, ping_command, ping_req_command, ack_command, parse_args, parse_req_args, run_ping,
  run_ping_req, run_ack, run_body, caught, run,
}
use gossip_net.Command.Taken.{nodes_of, req_nodes_of, parse_args-Ends, parse_req_args-Ends}

module _ (env : Env) (P : GossipNet → Type 0) (steady : IsSteady env IsRead P) where
  run_ping-Runs : (args : List Bytes) → Runs P Any (run_ping env args)
  unfolding run_ping
  run_ping-Runs args =
      Runs-bind P (λ a. All IsRead (nodes_of a)) Any (lift (parse_args args)) _
        (Runs-lift P _ (parse_args args) (parse_args-Ends args))
        λ a read.
          Runs-bind P Any Any (update env (a.rumors ++ a.self ∷ [])) (λ _. ack env a.self)
            (update-Runs env IsRead P steady _ read) λ _ _. ack-Runs env IsRead P steady a.self

  run_ping_req-Runs : (args : List Bytes) → Runs P Any (run_ping_req env args)
  unfolding run_ping_req
  run_ping_req-Runs args =
      Runs-bind P (λ a. All IsRead (req_nodes_of a)) Any (lift (parse_req_args args)) _
        (Runs-lift P _ (parse_req_args args) (parse_req_args-Ends args))
        λ a read.
          Runs-bind P Any Any (update env (a.rumors ++ a.self ∷ [])) _
            (update-Runs env IsRead P steady _ read)
            λ _ _.
              Runs-bind P Any Any (ping env a.peer) _ (ping-Runs env IsRead P steady a.peer)
                λ _ _. steady.adds (record { dest = a.self; peer = a.peer })

  run_ack-Runs : (args : List Bytes) → Runs P Any (run_ack env args)
  unfolding run_ack
  run_ack-Runs args =
      Runs-bind P (λ a. All IsRead (nodes_of a)) Any (lift (parse_args args)) _
        (Runs-lift P _ (parse_args args) (parse_args-Ends args))
        λ a read.
          Runs-bind P Any Any (update env (a.rumors ++ a.self ∷ [])) (λ _. do_task env a.self.id)
            (update-Runs env IsRead P steady _ read)
            λ _ _. do_task-Runs env IsRead P steady a.self.id

  run_body-Runs : (c : Command) (args : List Bytes) → Runs P Any (run_body env c args)
  unfolding run_body
  run_body-Runs ping_command args = run_ping-Runs args
  run_body-Runs ping_req_command args = run_ping_req-Runs args
  run_body-Runs ack_command args = run_ack-Runs args

  caught-Ends :
      (r : Outcome (Unit {0}) × GossipNet)
      → Ends Any r.0 × P r.1
      → Ends Any (caught r).0 × P (caught r).1
  caught-Ends (ok u, net) h = h
  caught-Ends (throws e, net) h = (tt, h.1)
  caught-Ends (fault x, net) h = h

  pub run-Runs : (c : Command) (args : List Bytes) → Runs P Any (run env c args)
  unfolding run
  run-Runs c args net w = caught-Ends (run_body env c args net) (run_body-Runs c args net w)
