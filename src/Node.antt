-- ===== src/Node.antt =====
-- utils.h and utils.cpp: a member of the cluster, its status, and the order `operator<` by which
-- news about a member replaces what is known.
pub mod Order
use gossip_net.Prelude.{
  ℕ, Bool, true, false, ◌&&◌, ◌||◌, Bytes, codes, same, ltb, leb, if◌then◌else◌,
}
use gossip_net.Outcome.{Outcome, ok, fault, assert_failed}
use gossip_net.Decimal.Int.{ℤ}

pub data NodeStatus : Type 0 where
  alive suspected failed unknown : NodeStatus

pub record Node : Type 0 where
  pub id : Bytes
  pub ip : Bytes
  pub port : ℤ
  pub version : ℕ
  pub status : NodeStatus

-- `==` on the enumeration.
abbrev pub is_alive : NodeStatus → Bool
is_alive alive = true
is_alive _ = false

abbrev pub is_suspected : NodeStatus → Bool
is_suspected suspected = true
is_suspected _ = false

abbrev pub is_failed : NodeStatus → Bool
is_failed failed = true
is_failed _ = false

abbrev pub is_unknown : NodeStatus → Bool
is_unknown unknown = true
is_unknown _ = false

-- The `switch` of `operator<` on the status of the right side.
lt_switch : NodeStatus → Node → Node → Outcome Bool
lt_switch alive lhs rhs =
    ok (ltb lhs.version rhs.version && (is_suspected lhs.status || is_alive lhs.status))
lt_switch suspected lhs rhs = ok (
    (is_suspected lhs.status && ltb lhs.version rhs.version)
    || (is_alive lhs.status && leb lhs.version rhs.version))
lt_switch failed lhs rhs = ok (is_alive lhs.status || is_suspected lhs.status)
lt_switch unknown lhs rhs = fault assert_failed

-- The bare names `id`, `node`, `ALIVE` and `version` of the source are read as the fields of `lhs`
-- and the enumerator.
unfoldable pub lt : Node → Node → Outcome Bool
unfolding lt_switch
lt lhs rhs = if same lhs.id rhs.id then lt_switch rhs.status lhs rhs else fault assert_failed

abbrev pub text_alive : Bytes
text_alive = codes "ALIVE"

abbrev pub text_suspected : Bytes
text_suspected = codes "SUSPECTED"

abbrev pub text_failed : Bytes
text_failed = codes "FAILED"

unfoldable pub parse_status : Bytes → NodeStatus
unfolding same
parse_status sv =
    if same sv text_alive
    then alive
    else if same sv text_suspected
    then suspected
    else if same sv text_failed
    then failed
    else unknown
