-- ===== src/Pending.antt =====
-- task.h, task.cpp, pending_lists.h and pending_lists.cpp: the tasks that wait for an answer of a
-- member, under its id, and the index by the time at which each was added.
pub mod Expiry
pub mod Indexed
pub mod Conserved
pub mod Orderly
pub mod Spent
use gossip_net.Prelude.{
  ℕ, Option, none, some, List, [], ◌∷◌, ◌++◌, Bytes, ltb, leb, ◌==◌, if◌then◌else◌,
}
use gossip_net.Node.{Node}
use gossip_net.Table.{Slot, keys, find, erase, assign, insert_at}

-- The one class of tasks: an acknowledgement of `peer` is passed on to `dest`. The id is that of the
-- peer.
pub record PingReqTask : Type 0 where
  pub dest : Node
  pub peer : Node

abbrev pub task_id : PingReqTask → Bytes
task_id t = t.peer.id

-- A `unique_ptr` to a task, null when it has been moved from, and the time of its `add`.
pub record Entry : Type 0 where
  pub task : Option PingReqTask
  pub time : ℕ

-- `_timeout_index` is a `std::map`: the list is ordered by time.
pub record PendingLists : Type 0 where
  pub task_index : List (Bytes × List Entry)
  pub timeout_index : List (ℕ × List Bytes)
  pub timeout : ℕ

-- `_timeout_index[cur].push_back(id)`.
unfoldable pub push_id : ℕ → Bytes → List (ℕ × List Bytes) → List (ℕ × List Bytes)
push_id cur id [] = (cur, id ∷ []) ∷ []
push_id cur id ((t, ids) ∷ m) =
    let rest = push_id cur id m in
    if t == cur
    then (t, ids ++ id ∷ []) ∷ m
    else if ltb cur t
    then (cur, id ∷ []) ∷ (t, ids) ∷ m
    else (t, ids) ∷ rest

-- `_task_index[id].emplace_back(...)`.
unfoldable pub push_entry :
    Slot → Bytes → Entry → List (Bytes × List Entry) → List (Bytes × List Entry)
push_entry slot id e index = elim (find id index) [
  | none ↦ insert_at (slot (keys index) id) (id, e ∷ []) index
  | some tasks ↦ assign id (tasks ++ e ∷ []) index
]

unfoldable pub add : Slot → ℕ → PingReqTask → PendingLists → PendingLists
unfolding push_id push_entry
add slot cur task s = record s {
  task_index =
      push_entry slot (task_id task) (record { task = some task; time = cur }) s.task_index;
  timeout_index = push_id cur (task_id task) s.timeout_index;
}

abbrev pub pointers : List Entry → List (Option PingReqTask)
pointers [] = []
pointers (e ∷ es) = e.task ∷ pointers es

-- What is left of entries whose pointers were moved out.
abbrev pub moved_from : List Entry → List Entry
moved_from [] = []
moved_from (e ∷ es) = record e { task = none } ∷ moved_from es

unfoldable pub fetch : Bytes → PendingLists → PendingLists × List (Option PingReqTask)
fetch id s = elim (find id s.task_index) [
  | none ↦ (s, [])
  | some tasks ↦
      (record s { task_index = assign id (moved_from tasks) s.task_index }, pointers tasks)
]

unfoldable pub expired : ℕ → List Entry → List Entry
expired cur [] = []
expired cur (e ∷ es) = let rest = expired cur es in if ltb e.time cur then e ∷ rest else rest

unfoldable pub waiting : ℕ → List Entry → List Entry
waiting cur [] = []
waiting cur (e ∷ es) = let rest = waiting cur es in if ltb e.time cur then rest else e ∷ rest

-- What stands in the index for what is left of a task list: nothing, if that is empty.
unfoldable pub put_back : Bytes → List Entry → List (Bytes × List Entry) → List (Bytes × List Entry)
put_back id [] index = erase id index
put_back id (e ∷ es) index = assign id (e ∷ es) index

abbrev pub Sweep : Type 0
Sweep = List (Bytes × List Entry) × List (Option PingReqTask)

-- The body of the loop over the ids of one time.
unfoldable pub sweep_id : ℕ → Bytes → Sweep → Sweep
sweep_id cur id s = elim (find id s.0) [
  | none ↦ s
  | some tasks ↦ (put_back id (waiting cur tasks) s.0, s.1 ++ pointers (expired cur tasks))
]

-- That loop.
unfoldable pub sweep_ids : ℕ → List Bytes → Sweep → Sweep
unfolding sweep_id
sweep_ids cur [] s = s
sweep_ids cur (id ∷ ids) s = sweep_ids cur ids (sweep_id cur id s)

-- The loop from the start of the index up to `upper_bound(cur)`.
unfoldable pub sweep : ℕ → List (ℕ × List Bytes) → Sweep → Sweep
unfolding sweep_ids
sweep cur [] s = s
sweep cur ((t, ids) ∷ m) s =
    let rest = sweep cur m (sweep_ids cur ids s) in if leb t cur then rest else s

-- `erase(begin, upper_bound(cur))`.
unfoldable pub after : ℕ → List (ℕ × List Bytes) → List (ℕ × List Bytes)
after cur [] = []
after cur ((t, ids) ∷ m) = let rest = after cur m in if leb t cur then rest else (t, ids) ∷ m

unfoldable pub timeout_tasks : ℕ → PendingLists → PendingLists × List (Option PingReqTask)
unfolding sweep after
timeout_tasks cur s =
    let swept = sweep cur s.timeout_index (s.task_index, []) in
    (record s { task_index = swept.0; timeout_index = after cur s.timeout_index }, swept.1)
