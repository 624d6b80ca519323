-- ===== src/Node/Order.antt =====
-- `operator<` of utils.cpp against its specification: a number that grows with each piece of news.
use gossip_net.Prelude.{ℕ, ◌+◌, ◌*◌, ◌^◌, ◌≤◌, ◌≡◌, refl, false, arith, ltb, same_iff}
use gossip_net.Outcome.{ok}
use gossip_net.Decimal.{max_u64}
use gossip_net.Node.{Node, NodeStatus, alive, suspected, failed, unknown, lt, lt_switch, is_unknown}

-- A status that the protocol carries, and a version that fits its 64 bits.
pub record IsKnown (n : Node) : Type 0 where
  pub known : is_unknown n.status ≡ false
  pub fits : n.version ≤ max_u64

-- Suspicion counts half a version, and failure is final.
abbrev pub rank_of : NodeStatus → ℕ → ℕ
rank_of alive v = 2 * v
rank_of suspected v = 2 * v + 1
rank_of failed v = 2 * 2 ^ 64
rank_of unknown v = 0

abbrev pub rank : Node → ℕ
rank n = rank_of n.status n.version

lt_switch-rank :
    (s t : NodeStatus) (a b : Node)
    → a.status ≡ s
    → b.status ≡ t
    → IsKnown a
    → IsKnown b
    → lt_switch t a b ≡ ok (ltb (rank_of s a.version) (rank_of t b.version))
unfolding lt_switch
lt_switch-rank s t a b p q ka kb = ground arith

-- For two nodes of one id, each of a known status and a 64-bit version, `operator<` returns, and
-- holds exactly when the right one ranks higher.
pub lt-rank :
    (a b : Node) → IsKnown a → IsKnown b → a.id ≡ b.id → lt a b ≡ ok (ltb (rank a) (rank b))
unfolding lt
lt-rank a b ka kb e =
    rw ((same_iff a.id b.id).1 e) (lt_switch-rank a.status b.status a b refl refl ka kb)
