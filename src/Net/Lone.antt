-- ===== src/Net/Lone.antt =====
-- `_build_rumors` of gossip_net.cpp where no member is known at all: the logarithm of 0.
use gossip_net.Prelude.{
  ◌+◌, ◌≡◌, ◌≢◌, ◌==◌, refl, inl, inr, true, false, ℕ, ◌<◌, [], ◌∷◌, ◌++◌, Bytes, same_iff, arith,
  List, length, Bool-cases,
}
use gossip_net.Outcome.{Outcome, fault, bad_cast}
use gossip_net.Node.{Node}
use gossip_net.Table.{find}
use gossip_net.Members.{size, members}
use gossip_net.Members.Update.{lookup}
use gossip_net.Net.Merge.{view, heard, all_heard}
use gossip_net.Net.{Env, GossipNet, gather_rumors, build_rumors}

-- No member is known, stable or recently updated.
abbrev pub IsLone : GossipNet → Type 0
IsLone net = size net.members + length net.recent ≡ 0

pub build_rumors_lone :
    (env : Env) (net : GossipNet) → IsLone net → build_rumors env net ≡ (fault bad_cast, net)
unfolding build_rumors
build_rumors_lone env net e =
    let yes : (size net.members + length net.recent == 0) ≡ true = ground arith in rw yes refl

pub build_rumors_known :
    (env : Env) (net : GossipNet)
    → size net.members + length net.recent ≢ 0
    → build_rumors env net ≡ gather_rumors env net
unfolding build_rumors
build_rumors_known env net ne =
    let no : (size net.members + length net.recent == 0) ≡ false = ground arith in rw no refl

-- What holds of both ways holds of `_build_rumors`.
pub build_rumors_either :
    (env : Env) (net : GossipNet) (M : Outcome (List Node) × GossipNet → Type 0)
    → M (fault bad_cast, net)
    → M (gather_rumors env net)
    → M (build_rumors env net)
unfolding build_rumors
build_rumors_either env net M lone gathered =
    elim (Bool-cases (size net.members + length net.recent == 0)) [
      | inl e ↦ rw e lone
      | inr e ↦ rw e gathered
    ]

nil_of : {A : Type 0} (xs : List A) → length xs ≡ 0 → xs ≡ []
nil_of [] e = refl
nil_of (x ∷ xs) e = absurd (omega (arith, e))

-- Of a member that knows nobody every view is 0.
pub lone_view : (net : GossipNet) (id : Bytes) → IsLone net → view net id ≡ 0
unfolding view lookup
lone_view net id lone =
    let none_recent : net.recent ≡ [] = nil_of net.recent (omega (arith, lone)) in
    let none_stable : members net.members ≡ [] =
      nil_of (members net.members) (omega (arith, lone)) in
    rw (none_recent, none_stable) (unfold find in refl)

heard_pos : (id : Bytes) (n : Node) (v : ℕ) → n.id ≡ id → 0 < heard id n v
heard_pos id n v e = rw ((same_iff n.id id).1 e) (omega arith)

-- What was heard last is known.
pub all_heard_pos :
    (id : Bytes) (n : Node) (ns : List Node) (v : ℕ) → n.id ≡ id → 0 < all_heard id (ns ++ n ∷ []) v
all_heard_pos id n [] v e = heard_pos id n v e
all_heard_pos id n (m ∷ ns) v e = all_heard_pos id n ns (heard id m v) e
