-- ===== src/Command/Spoken.antt =====
-- The arguments that the three commands of command.cpp understand, and what they do with them.
use gossip_net.Prelude.{◌≡◌, refl, List, [], ◌∷◌, ◌++◌, map, Bytes, codes, All}
use gossip_net.Outcome.{ok}
use gossip_net.Exec.{Exec, ◌>>◌}
use gossip_net.Node.{Node, unknown, parse_status}
use gossip_net.Wire.{parse_node, parse_rumors}
use gossip_net.Wire.Accepted.{
  fields, IsSized, as_alive, spaced, spaced-head, rumor_unknown, parse_node-alone,
  parse_node-fields, with_status_skip, parse_rumors-spaced,
}
use gossip_net.Wire.Sent.{parse_rumors-nil}
use gossip_net.Net.{Env, GossipNet, update, ack, ping, add_task, do_task}
use gossip_net.Command.{
  Command, ping_command, ping_req_command, ack_command, parse_args, parse_req_args, run_ping,
  run_ping_req, run_ack, run_body, run, caught,
}
use gossip_net.Command.Effect.{self_text, peer_text}

-- Rumors with one argument between two of them and none behind the last, and what stands before
-- them, behind a node.
abbrev pub listed : (Node → Bytes) → List Node → List Bytes
listed gap [] = []
listed gap (m ∷ ms) = spaced gap m ms

abbrev pub behind : (Node → Bytes) → Node → List Node → List Bytes
behind gap n [] = []
behind gap n (m ∷ ms) = gap n ∷ spaced gap m ms

-- The arguments of a command from a sender, about a peer for `ping-req`, with one argument of any
-- text, such as a status, between two nodes.
abbrev pub spoken : Command → (Node → Bytes) → Node → Node → List Node → List Bytes
spoken ping_command gap n p rs = fields self_text n ++ behind gap n rs
spoken ping_req_command gap n p rs =
    fields self_text n ++ gap n ∷ fields peer_text p ++ behind gap p rs
spoken ack_command gap n p rs = fields self_text n ++ behind gap n rs

-- What a command does behind its update.
abbrev pub answer : Env → Command → Node → Node → Exec GossipNet (Unit {0})
answer env ping_command n p = ack env n
answer env ping_req_command n p = ping env p >> add_task env (record { dest = n; peer = p })
answer env ack_command n p = do_task env n.id

parse_node-behind :
    (type : Bytes) (gap : Node → Bytes) (n : Node) (rs : List Node)
    → IsSized n
    → parse_node type (fields type n ++ behind gap n rs) ≡ ok (as_alive n, listed gap rs)
parse_node-behind type gap n [] sized = parse_node-alone type n sized
parse_node-behind type gap n (m ∷ ms) sized =
    let (rest, e) = spaced-head gap m ms in
    rw
      (
        e,
        parse_node-fields type n (gap n ∷ codes "rumor" ∷ rest) sized,
        with_status_skip (as_alive n) (gap n) (codes "rumor") rest rumor_unknown,
      )
      refl

parse_rumors-listed :
    (gap : Node → Bytes) (rs : List Node)
    → All IsSized rs
    → parse_rumors (listed gap rs) ≡ ok (map as_alive rs)
parse_rumors-listed gap [] sized = parse_rumors-nil
parse_rumors-listed gap (m ∷ ms) sized = parse_rumors-spaced gap m ms sized

parse_args-spoken :
    (gap : Node → Bytes) (n : Node) (rs : List Node)
    → IsSized n
    → All IsSized rs
    → parse_args (fields self_text n ++ behind gap n rs)
      ≡ ok (record { self = as_alive n; rumors = map as_alive rs })
unfolding parse_args
parse_args-spoken gap n rs sized all_sized =
    rw (parse_node-behind self_text gap n rs sized, parse_rumors-listed gap rs all_sized) refl

peer_unknown : parse_status peer_text ≡ unknown
unfolding parse_status
peer_unknown = refl

parse_req_args-spoken :
    (gap : Node → Bytes) (n p : Node) (rs : List Node)
    → IsSized n
    → IsSized p
    → All IsSized rs
    → parse_req_args (spoken ping_req_command gap n p rs)
      ≡ ok (record { self = as_alive n; peer = as_alive p; rumors = map as_alive rs })
unfolding parse_req_args
parse_req_args-spoken gap n p rs sized peer_sized all_sized =
    rw
      (
        parse_node-fields self_text n (gap n ∷ fields peer_text p ++ behind gap p rs) sized,
        with_status_skip (as_alive n) (gap n) peer_text _ peer_unknown,
        parse_node-behind peer_text gap p rs peer_sized,
        parse_rumors-listed gap rs all_sized,
      )
      refl

-- The update with all that was said, each node as ALIVE, and then the answer; errors are caught.
pub run-spoken :
    (env : Env) (c : Command) (gap : Node → Bytes) (n p : Node) (rs : List Node) (net : GossipNet)
    → IsSized n
    → IsSized p
    → All IsSized rs
    → run env c (spoken c gap n p rs) net
      ≡ caught (
          (update env (map as_alive rs ++ as_alive n ∷ [])
              >> answer env c (as_alive n) (as_alive p))
            net)
unfolding run run_body run_ping run_ping_req run_ack
run-spoken env ping_command gap n p rs net sized peer_sized all_sized =
    rw (parse_args-spoken gap n rs sized all_sized) refl
run-spoken env ping_req_command gap n p rs net sized peer_sized all_sized =
    rw (parse_req_args-spoken gap n p rs sized peer_sized all_sized) refl
run-spoken env ack_command gap n p rs net sized peer_sized all_sized =
    rw (parse_args-spoken gap n rs sized all_sized) refl
