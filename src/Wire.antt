-- ===== src/Wire.antt =====
-- utils.h: nodes and rumors read from the arguments of a request. An iterator range is the list of
-- the arguments from `first` to `last`.
pub mod Accepted
pub mod Sent
pub mod Known
use gossip_net.Prelude.{
  ℕ, zero, suc, Option, none, some, List, [], ◌∷◌, ◌++◌, Bytes, codes, same, length, if◌then◌else◌,
}
use gossip_net.Outcome.{
  Outcome, ok, throws, fault, expect_number, bad_node_info, bad_node_type, out_of_bounds,
  out_of_fuel, ◌>>=◌,
}
use gossip_net.Decimal.{max_u64, from_chars}
use gossip_net.Decimal.Int.{ℤ, from_chars_int}
use gossip_net.Node.{Node, NodeStatus, alive, is_unknown, parse_status}

abbrev parsed {ℓ} : {A : Type ℓ} → Option (A × Bytes) → Outcome A
parsed none = throws expect_number
parsed (some (n, ptr)) = ok n

-- `to_num` at `int` and at `uint64_t`; it does not ask that the whole text is a number.
unfoldable pub to_num_int : Bytes → Outcome ℤ
to_num_int sv = parsed (from_chars_int sv)

unfoldable pub to_num_u64 : Bytes → Outcome ℕ
to_num_u64 sv = parsed (from_chars max_u64 sv)

-- `if (dist > 5)`: the status is looked for in `*(first + 1)`.
pub with_status : Node → List Bytes → Outcome (Node × List Bytes)
with_status node [] = ok (node, [])
with_status node (x ∷ []) = fault out_of_bounds
with_status node (x ∷ y ∷ rest) =
    let status = parse_status y in
    if is_unknown status
    then ok (node, y ∷ rest)
    else ok (record node { status = status }, x ∷ y ∷ rest)

pub parse_node : Bytes → List Bytes → Outcome (Node × List Bytes)
parse_node type (t ∷ id ∷ ip ∷ port ∷ version ∷ rest) =
    if same t type
    then (do
      p ← to_num_int port
      v ← to_num_u64 version
      with_status (record { id = id; ip = ip; port = p; version = v; status = alive }) rest)
    else throws bad_node_type
parse_node type _ = throws bad_node_info

pub rumors_loop : ℕ → List Bytes → List Node → Outcome (List Node)
rumors_loop zero args rumors = fault out_of_fuel
rumors_loop (suc f) [] rumors = ok rumors
rumors_loop (suc f) (a ∷ args) rumors = do
  one ← parse_node (codes "rumor") (a ∷ args)
  rumors_loop f one.1 (rumors ++ one.0 ∷ [])

pub parse_rumors : List Bytes → Outcome (List Node)
parse_rumors args = rumors_loop (suc (length args)) args []
