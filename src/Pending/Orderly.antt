-- ===== src/Pending/Orderly.antt =====
-- The two indices of pending_lists.cpp under `add` and `fetch`.
use gossip_net.Prelude.{ℕ, ◌≡◌, refl, inl, inr, List, [], ◌∷◌, ◌++◌, Bytes, Option-cases}
use gossip_net.Table.{Slot, keys, find, assign, insert_at}
use gossip_net.Table.Laws.{IsDistinct, IsDistinct-assign, IsDistinct-insert_at}
use gossip_net.Pending.Expiry.{IsIndexed}
use gossip_net.Pending.Indexed.{add-IsIndexed, fetch-IsIndexed}
use gossip_net.Pending.{
  PingReqTask, task_id, Entry, PendingLists, push_entry, add, pointers, moved_from, fetch,
}

-- Every task is found by its time, and no id has two lists.
pub record IsOrderly (s : PendingLists) : Type 0 where
  pub indexed : IsIndexed s
  pub distinct : IsDistinct s.task_index

IsDistinct-push_entry :
    (slot : Slot) (id : Bytes) (e : Entry) (index : List (Bytes × List Entry))
    → IsDistinct index
    → IsDistinct (push_entry slot id e index)
IsDistinct-push_entry slot id e index d = elim (Option-cases (find id index)) [
  | inl h ↦
      let one : push_entry slot id e index ≡ insert_at (slot (keys index) id) (id, e ∷ []) index =
        unfold push_entry in rw (h, push_entry) refl in
      rw one (IsDistinct-insert_at (slot (keys index) id) id (e ∷ []) index d h)
  | inr (es, h) ↦
      let one : push_entry slot id e index ≡ assign id (es ++ e ∷ []) index =
        unfold push_entry in rw (h, push_entry) refl in
      rw one (IsDistinct-assign id (es ++ e ∷ []) index d)
]

pub add-IsOrderly :
    (slot : Slot) (cur : ℕ) (task : PingReqTask) (s : PendingLists)
    → IsOrderly s
    → IsOrderly (add slot cur task s)
add-IsOrderly slot cur task s o = record {
  indexed = add-IsIndexed slot cur task s o.indexed;
  distinct = unfold add in IsDistinct-push_entry slot (task_id task) _ s.task_index o.distinct;
}

fetch-IsDistinct :
    (id : Bytes) (s : PendingLists) → IsDistinct s.task_index → IsDistinct (fetch id s).0.task_index
fetch-IsDistinct id s d = elim (Option-cases (find id s.task_index)) [
  | inl h ↦ let one : fetch id s ≡ (s, []) = unfold fetch in rw (h, fetch) refl in rw one d
  | inr (es, h) ↦
      let one : fetch id s
          ≡ (record s { task_index = assign id (moved_from es) s.task_index }, pointers es) =
        unfold fetch in rw (h, fetch) refl in
      rw one (IsDistinct-assign id (moved_from es) s.task_index d)
]

pub fetch-IsOrderly : (id : Bytes) (s : PendingLists) → IsOrderly s → IsOrderly (fetch id s).0
fetch-IsOrderly id s o = record {
  indexed = fetch-IsIndexed id s o.indexed;
  distinct = fetch-IsDistinct id s o.distinct;
}
