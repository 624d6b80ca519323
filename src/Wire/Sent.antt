-- ===== src/Wire/Sent.antt =====
-- The arguments in the order that the program writes and command.cpp documents: the status stands
-- right behind the version of each rumor.
use gossip_net.Prelude.{
  ℕ, zero, suc, ◌+◌, ◌≤◌, ◌≡◌, inl, inr, refl, ◌∙◌, false, List, [], ◌∷◌, ◌++◌, arith, Bytes, same,
  length, All, Bool-cases, Option-cases,
}
use gossip_net.Outcome.{
  ok, throws, fault, Error, bad_node_type, bad_node_info, out_of_bounds, expect_number,
}
use gossip_net.Decimal.{to_string, from_chars}
use gossip_net.Decimal.Int.{to_string_int, from_chars_int}
use gossip_net.Node.{
  Node, NodeStatus, alive, suspected, failed, unknown, is_unknown, parse_status, text_alive,
  text_suspected, text_failed,
}
use gossip_net.Wire.{to_num_int, to_num_u64, with_status, parse_node, rumors_loop, parse_rumors}
use gossip_net.Wire.Accepted.{
  IsSized, fields, as_alive, rumor, parse_node-fields, parse_node-gap, with_status_end,
  with_status_skip, rumors_round,
}

-- What `_append_node` writes for a status; it throws on an unknown one.
abbrev pub status_text : NodeStatus → Bytes
status_text alive = text_alive
status_text suspected = text_suspected
status_text failed = text_failed
status_text unknown = []

abbrev pub rumor_fields : Node → List Bytes
rumor_fields n = fields rumor n ++ status_text n.status ∷ []

unfoldable pub all_fields : List Node → List Bytes
all_fields [] = []
all_fields (n ∷ ns) = rumor_fields n ++ all_fields ns

rumors_loop-fields :
    (f : ℕ) (n : Node) (ms acc : List Node)
    → All IsSized (n ∷ ms)
    → length ms + 1 ≤ f
    → rumors_loop f (all_fields (n ∷ ms)) acc ≡ fault out_of_bounds
unfolding all_fields
rumors_loop-fields zero n ms acc sized h = absurd (omega arith)
rumors_loop-fields (suc f) n [] acc sized h =
    unfold rumors_loop in
    rw (parse_node-fields rumor n (status_text n.status ∷ []) sized.0, with_status_end) refl
rumors_loop-fields (suc f) n (m ∷ ms) acc sized h =
    rumors_round f (all_fields (n ∷ m ∷ ms)) (all_fields (m ∷ ms)) (as_alive n) acc (omega arith)
      (parse_node-gap n (status_text n.status) _ sized.0)
    ∙ rumors_loop-fields f m ms (acc ++ as_alive n ∷ []) sized.1 (omega arith)

length-all_fields : (ns : List Node) → length ns ≤ length (all_fields ns)
unfolding all_fields
length-all_fields [] = omega arith
length-all_fields (n ∷ ns) = omega (arith, length-all_fields ns)

-- A list of at least one rumor, with 32-bit ports and 64-bit versions, as the program writes it,
-- makes `parse_rumors` read one argument behind the last.
pub parse_rumors-all_fields :
    (n : Node) (ms : List Node)
    → All IsSized (n ∷ ms)
    → parse_rumors (all_fields (n ∷ ms)) ≡ fault out_of_bounds
unfolding parse_rumors
parse_rumors-all_fields n ms sized =
    rumors_loop-fields _ n ms [] sized (omega (arith, length-all_fields (n ∷ ms)))

pub parse_rumors-nil : parse_rumors [] ≡ ok []
unfolding parse_rumors rumors_loop
parse_rumors-nil = refl

-- A status is no number.
status_throws : (s : NodeStatus) → to_num_u64 (status_text s) ≡ throws expect_number
unfolding to_num_u64 from_chars
status_throws alive = refl
status_throws suspected = refl
status_throws failed = refl
status_throws unknown = refl

pub rumor_throws : to_num_u64 rumor ≡ throws expect_number
unfolding to_num_u64 from_chars
rumor_throws = refl

-- Five arguments whose last is no number are no node.
pub parse_node_throws :
    (type t id ip port version : Bytes) (rest : List Bytes)
    → to_num_u64 version ≡ throws expect_number
    → (e : Error) × (parse_node type (t ∷ id ∷ ip ∷ port ∷ version ∷ rest) ≡ throws e)
parse_node_throws type t id ip port version rest h = elim (Bool-cases (same t type)) [
  | inr other ↦ (bad_node_type, unfold parse_node in rw other refl)
  | inl hit ↦ (
    expect_number,
    elim (Option-cases (from_chars_int port)) [
      | inl bad ↦ unfold parse_node to_num_int in rw (hit, bad) refl
      | inr ((p, ptr), good) ↦ unfold parse_node to_num_int in rw (hit, good, h) refl
    ],
  )
]

-- The arguments of the rumors without the first word.
abbrev pub tail_fields : Node → List Node → List Bytes
tail_fields n ns =
    n.id ∷ n.ip ∷ to_string_int n.port ∷ to_string n.version ∷ status_text n.status ∷ all_fields ns

-- Read one argument too late, the rumors are no nodes.
pub parse_rumors-tail_fields :
    (n : Node) (ns : List Node) → (e : Error) × (parse_rumors (tail_fields n ns) ≡ throws e)
unfolding parse_rumors rumors_loop
parse_rumors-tail_fields n ns =
    let (e, q) =
      parse_node_throws rumor n.id n.ip (to_string_int n.port) (to_string n.version)
        (status_text n.status) (all_fields ns) (status_throws n.status) in
    (e, rw q refl)

-- Before rumors, the status of a node is looked for in the id of the first rumor: if that is no
-- status, the word `rumor` is skipped.
pub parse_node-rumors :
    (type : Bytes) (n m : Node) (ms : List Node)
    → IsSized n
    → parse_status m.id ≡ unknown
    → parse_node type (fields type n ++ all_fields (m ∷ ms)) ≡ ok (as_alive n, tail_fields m ms)
unfolding all_fields
parse_node-rumors type n m ms sized e =
    parse_node-fields type n _ sized ∙ with_status_skip (as_alive n) rumor m.id _ e

-- If it is a status, it becomes that of the node, and the word `rumor` stays.
pub parse_node-rumors_status :
    (type : Bytes) (n m : Node) (ms : List Node)
    → IsSized n
    → is_unknown (parse_status m.id) ≡ false
    → parse_node type (fields type n ++ all_fields (m ∷ ms))
      ≡ ok (record n { status = parse_status m.id }, all_fields (m ∷ ms))
unfolding all_fields
parse_node-rumors_status type n m ms sized e =
    parse_node-fields type n _ sized ∙ (unfold with_status in rw e refl)

pub parse_node_short :
    (type a b c d : Bytes) → parse_node type (a ∷ b ∷ c ∷ d ∷ []) ≡ throws bad_node_info
unfolding parse_node
parse_node_short type a b c d = refl
