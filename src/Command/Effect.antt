-- ===== src/Command/Effect.antt =====
-- What the commands do with arguments in the documented form.
use gossip_net.Prelude.{
  ◌≡◌, ◌≢◌, refl, ap, ◌⊎◌, inl, inr, true, List, [], ◌∷◌, ◌++◌, Bytes, codes, Bool-cases, All,
}
use gossip_net.Outcome.{ok, throws, fault, Error, bad_node_info, out_of_bounds}
use gossip_net.Decimal.{to_string}
use gossip_net.Decimal.Int.{to_string_int}
use gossip_net.Node.{Node, NodeStatus, alive, suspected, failed, unknown, parse_status, is_unknown}
use gossip_net.Wire.{parse_node}
use gossip_net.Wire.Accepted.{fields, rumor, IsSized, as_alive, parse_node-fields, with_status_skip}
use gossip_net.Wire.Sent.{
  all_fields, parse_rumors-all_fields, parse_rumors-tail_fields, parse_node-rumors,
  parse_node-rumors_status, parse_node_throws, parse_node_short, rumor_throws,
}
use gossip_net.Net.{Env, GossipNet}
use gossip_net.Command.{
  parse_args, parse_req_args, run_ping, run_ack, run, ping_command, ack_command,
}

abbrev pub self_text : Bytes
self_text = codes "self"

abbrev pub peer_text : Bytes
peer_text = codes "peer"

is_unknown-unknown : (s : NodeStatus) → is_unknown s ≡ true → s ≡ unknown
is_unknown-unknown unknown h = refl
is_unknown-unknown alive h = cc
is_unknown-unknown suspected h = cc
is_unknown-unknown failed h = cc

-- What `parse_node` finds where the word `peer` was skipped.
parse_peer_throws :
    (p : Node) (rs : List Node)
    → (e : Error) × (parse_node peer_text
          (p.id ∷ p.ip ∷ to_string_int p.port ∷ to_string p.version ∷ all_fields rs)
        ≡ throws e)
unfolding all_fields
parse_peer_throws p [] = (bad_node_info, parse_node_short peer_text p.id p.ip _ _)
parse_peer_throws p (r ∷ rs) =
    parse_node_throws peer_text p.id p.ip (to_string_int p.port) (to_string p.version) rumor _
      rumor_throws

-- If a node with rumors, all with 32-bit ports and 64-bit versions, is written in the documented
-- form, the arguments are refused or, where the first rumor's id is the name of a status, read
-- past their end.
pub parse_args-rumors :
    (n r : Node) (rs : List Node)
    → IsSized n
    → All IsSized (r ∷ rs)
    → ((parse_status r.id ≡ unknown)
        × ((e : Error) × (parse_args (fields self_text n ++ all_fields (r ∷ rs)) ≡ throws e)))
      ⊎ ((parse_status r.id ≢ unknown)
          × (parse_args (fields self_text n ++ all_fields (r ∷ rs)) ≡ fault out_of_bounds))
unfolding parse_args
parse_args-rumors n r rs sized all_sized = elim (Bool-cases (is_unknown (parse_status r.id))) [
  | inl e ↦
      let u = is_unknown-unknown (parse_status r.id) e in
      let (x, q) = parse_rumors-tail_fields r rs in
      inl (u, (x, rw (parse_node-rumors self_text n r rs sized u, q) refl))
  | inr e ↦ inr (
    λ u. cc (ap is_unknown u),
    rw (parse_node-rumors_status self_text n r rs sized e, parse_rumors-all_fields r rs all_sized)
        refl,
  )
]

-- The documented form of `ping-req`, with or without rumors, from a sender with a 32-bit port and
-- a 64-bit version, is refused if the peer's id is no name of a status.
pub parse_req_args-fields :
    (n p : Node) (rs : List Node)
    → IsSized n
    → parse_status p.id ≡ unknown
    → (e : Error) × (parse_req_args (fields self_text n ++ fields peer_text p ++ all_fields rs)
        ≡ throws e)
unfolding parse_req_args
parse_req_args-fields n p rs sized u =
    let (e, q) = parse_peer_throws p rs in
    (
      e,
      rw
          (
            parse_node-fields self_text n (fields peer_text p ++ all_fields rs) sized,
            with_status_skip (as_alive n) peer_text p.id
                (p.ip ∷ to_string_int p.port ∷ to_string p.version ∷ all_fields rs) u,
            q,
          )
          refl,
    )

-- A request whose arguments are refused changes nothing and sends nothing.
run_refused :
    (env : Env) (args : List Bytes) (net : GossipNet) (e : Error)
    → parse_args args ≡ throws e
    → (run env ping_command args net ≡ (ok tt, net)) × (run env ack_command args net ≡ (ok tt, net))
unfolding run run_ping run_ack
run_refused env args net e h = (rw h refl, rw h refl)

-- A `ping` or an `ack` with rumors in the documented form, from a sender with a 32-bit port and a
-- 64-bit version, changes nothing and gets no answer, if the first rumor's id is no name of a
-- status.
pub run_rumors :
    (env : Env) (net : GossipNet) (n r : Node) (rs : List Node)
    → IsSized n
    → parse_status r.id ≡ unknown
    → let args = fields self_text n ++ all_fields (r ∷ rs) in
      (run env ping_command args net ≡ (ok tt, net)) × (run env ack_command args net ≡ (ok tt, net))
unfolding parse_args
run_rumors env net n r rs sized u =
    let (x, q) = parse_rumors-tail_fields r rs in
    run_refused env _ net x (rw (parse_node-rumors self_text n r rs sized u, q) refl)
