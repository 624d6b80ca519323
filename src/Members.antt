-- ===== src/Members.antt =====
-- member_set.h and member_set.cpp: the stable members, and the cursor `_iter` from which members
-- are handed out in turn.
pub mod Rounds
pub mod Rotation
pub mod Turns
pub mod Known
pub mod Update
use gossip_net.Prelude.{
  ℕ, zero, suc, ◌+◌, ◌%◌, ◌^◌, ◌-◌, Bool, Option, none, some, List, [], ◌∷◌, ◌++◌, map, Bytes,
  length, ltb, leb, ◌==◌, if◌then◌else◌,
}
use gossip_net.Outcome.{Outcome, ok, fault, assert_failed, out_of_bounds, endless, ◌>>=◌}
use gossip_net.Decimal.{to_string}
use gossip_net.Node.{Node, lt}
use gossip_net.Table.{Slot, keys, find, erase, insert_at}

-- The map in iteration order is `before ++ after`, and the cursor stands at the head of `after`; at
-- the end of the map, `after` is empty.
pub record MemberSet : Type 0 where
  pub before : List (Bytes × Node)
  pub after : List (Bytes × Node)
  pub random_key_prefix : Bytes

abbrev pub members : MemberSet → List (Bytes × Node)
members s = s.before ++ s.after

abbrev pub size : MemberSet → ℕ
size s = length (members s)

-- The prefix is a number of `std::random_device`.
abbrev gen_random_key_prefix : ℕ → Bytes
gen_random_key_prefix rd = to_string rd

-- The constructor.
abbrev pub empty : ℕ → MemberSet
empty rd = record { before = []; after = []; random_key_prefix = gen_random_key_prefix rd }

abbrev pub build_key : MemberSet → Bytes → Bytes
build_key s id = s.random_key_prefix ++ id

-- `erase`; where the cursor is at the element it moves on to the next one.
abbrev pub remove : Bytes → MemberSet → MemberSet
remove key s = record s { before = erase key s.before; after = erase key s.after }

try_known : Bytes → Node → Node → MemberSet → Outcome (MemberSet × Option Node)
try_known key member node s = do
  newer ← lt member node
  ok (if newer then (remove key s, some node) else (s, none))

-- `try_update`: the node to add to the recently updated ones, if it is news.
unfoldable pub try_update : Node → MemberSet → Outcome (MemberSet × Option Node)
unfolding try_known
try_update node s =
    let key = build_key s node.id in
    elim (find key (members s)) [
      | none ↦ ok (s, some node)
      | some member ↦ try_known key member node s
    ]

-- A new element at a position of the map; the cursor stays at its element, or at the end.
pub emplace : ℕ → Bytes × Node → List (Bytes × Node) → List (Bytes × Node) → Bytes → MemberSet
emplace i e before [] prefix = record {
  before = insert_at i e before;
  after = [];
  random_key_prefix = prefix;
}
emplace i e before (x ∷ after) prefix =
    if leb i (length before)
    then record { before = insert_at i e before; after = x ∷ after; random_key_prefix = prefix }
    else record {
      before = before;
      after = insert_at (i - length before) e (x ∷ after);
      random_key_prefix = prefix;
    }

unfoldable pub add : Slot → Node → MemberSet → Outcome MemberSet
unfolding emplace
add slot node s =
    let key = build_key s node.id in
    elim (find key (members s)) [
      | some _ ↦ fault assert_failed
      | none ↦
          ok
            (emplace (slot (keys (members s)) key) (key, node) s.before s.after s.random_key_prefix)
    ]

abbrev pub nodes : List (Bytes × Node) → List Node
nodes [] = []
nodes ((k, n) ∷ m) = n ∷ nodes m

-- `if (_iter == _members.end()) _iter = _members.begin();`
abbrev pub wrap :
    List (Bytes × Node) → List (Bytes × Node) → List (Bytes × Node) × List (Bytes × Node)
wrap before [] = ([], before)
wrap before (x ∷ after) = (before, x ∷ after)

-- `result.push_back(_iter->second); ++_iter;`
abbrev pub step :
    List (Bytes × Node) × List (Bytes × Node)
    → Option (Node × List (Bytes × Node) × List (Bytes × Node))
step (before, []) = none
step (before, (k, n) ∷ after) = some (n, before ++ (k, n) ∷ [], after)

-- `for (auto idx = 0U; idx != num; ++idx)`, with the 32-bit counter `idx`. Where the fuel ends, the
-- counter has not met `num`.
pub rounds : ℕ → ℕ → ℕ → MemberSet → List Node → Outcome (MemberSet × List Node)
rounds zero idx num s result = fault endless
rounds (suc f) idx num s result =
    let next : Outcome (MemberSet × List Node) = elim (step (wrap s.before s.after)) [
      | none ↦ fault out_of_bounds
      | some (n, before, after) ↦
          rounds f ((idx + 1) % 2 ^ 32) num (record s { before = before; after = after })
            (result ++ n ∷ [])
    ] in
    if idx == num then ok (s, result) else next

fetch_num : ℕ → MemberSet → Outcome (MemberSet × List Node)
unfolding rounds
fetch_num num s =
    if num == 0
    then ok (s, [])
    else if ltb num (size s)
    then rounds (suc num) 0 num s []
    else fault assert_failed

unfoldable pub fetch : ℕ → MemberSet → Outcome (MemberSet × List Node)
unfolding fetch_num
fetch num s = if ltb (size s) num then ok (s, nodes (members s)) else fetch_num num s
