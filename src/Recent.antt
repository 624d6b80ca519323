-- ===== src/Recent.antt =====
-- recently_updated_set.h and recently_updated_set.cpp: the members with recent news, each with the
-- count of the times that it was spread.
pub mod Laws
pub mod Spread
pub mod Fate
pub mod Lifetime
pub mod Settled
pub mod Handover
pub mod Kept
pub mod Lossless
pub mod Known
pub mod Distinct
pub mod Drain
pub mod Order
pub mod Debt
pub mod Served
pub mod Fair
use gossip_net.Prelude.{
  ℕ, ◌+◌, Bool, Option, none, some, List, [], ◌∷◌, ◌++◌, Bytes, length, ltb, leb, ◌==◌,
  if◌then◌else◌,
}
use gossip_net.Outcome.{Outcome, ok, ◌>>=◌}
use gossip_net.Node.{Node, lt, is_failed}
use gossip_net.Table.{Slot, keys, find, erase, assign, insert_at}

pub record Member : Type 0 where
  pub node : Node
  pub counter : ℕ

abbrev pub RecentlyUpdatedSet : Type 0
RecentlyUpdatedSet = List (Bytes × Member)

abbrev pub fresh : Node → Member
fresh node = record { node = node; counter = 0 }

add_known : Member → Node → RecentlyUpdatedSet → Outcome RecentlyUpdatedSet
add_known mem node members = do
  newer ← lt mem.node node
  ok (if newer then assign node.id (fresh node) members else members)

unfoldable pub add : Slot → Node → RecentlyUpdatedSet → Outcome RecentlyUpdatedSet
unfolding add_known
add slot node members = elim (find node.id members) [
  | none ↦ ok (insert_at (slot (keys members) node.id) (node.id, fresh node) members)
  | some mem ↦ add_known mem node members
]

-- The members that are left, and the two lists that a fetch returns.
pub record Fetched : Type 0 where
  pub members : RecentlyUpdatedSet
  pub recent : List Node
  pub stable : List Node

-- A member that has been spread often enough is stable, unless it failed.
abbrev pub settle : Node → List Node → List Node
settle node stable = if is_failed node.status then stable else stable ++ node ∷ []

-- The body of the loop of `_fetch_all`; the elements that it has kept are in `members`.
unfoldable pub visit : ℕ → Bytes → Member → Fetched → Fetched
visit max k mem s =
    let c = mem.counter + 1 in
    if ltb max c then record s { stable = settle mem.node s.stable } else record {
      members = s.members ++ (k, record mem { counter = c }) ∷ [];
      recent = s.recent ++ mem.node ∷ [];
      stable = s.stable;
    }

-- `_fetch_all`: the loop over the elements.
unfoldable pub fetch_all : ℕ → RecentlyUpdatedSet → Fetched → Fetched
fetch_all max [] s = s
fetch_all max ((k, mem) ∷ rest) s = fetch_all max rest (visit max k mem s)

-- `_members.erase(iter)` in `_fetch`, with the node moved to the stable ones.
unfoldable pub erased : Bytes → Member → Fetched → Fetched
erased k mem s = record s { members = erase k s.members; stable = settle mem.node s.stable }

-- The other branch: the count goes up, and the node is spread.
unfoldable pub spread : Bytes → Member → Fetched → Fetched
spread k mem s = record s {
  members = assign k (record mem { counter = mem.counter + 1 }) s.members;
  recent = s.recent ++ mem.node ∷ [];
}

-- The loop of `_fetch` over the elements in the order in which the priority queue gives them up. An
-- element is in the queue once, so what the queue's iterator points to is as it was at the start.
unfoldable pub drain : ℕ → ℕ → RecentlyUpdatedSet → Fetched → Fetched
drain n max [] s = s
drain n max ((k, mem) ∷ queue) s =
    let stable = drain n max queue (erased k mem s) in
    let more = drain n max queue (spread k mem s) in
    if ltb max (mem.counter + 1)
    then stable
    else if length (spread k mem s).recent == n
    then spread k mem s
    else more

-- `MemberCmp`: whether `lhs` comes after `rhs`.
abbrev pub member_cmp : Member → Member → Bool
member_cmp lhs rhs = ltb rhs.counter lhs.counter

-- `std::priority_queue` under `MemberCmp`: the elements in the order of the pops.
abbrev pub Pops : Type 0
Pops = RecentlyUpdatedSet → RecentlyUpdatedSet

unfoldable pub fetch : Pops → ℕ → ℕ → RecentlyUpdatedSet → Fetched
fetch pops n max members =
    if n == 0
    then record { members = members; recent = []; stable = [] }
    else if leb (length members) n
    then fetch_all max members (record { members = []; recent = []; stable = [] })
    else drain n max (pops members) (record { members = members; recent = []; stable = [] })
