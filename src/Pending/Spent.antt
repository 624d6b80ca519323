-- ===== src/Pending/Spent.antt =====
-- A task list of pending_lists.cpp whose first pointer was moved out stays so.
use gossip_net.Prelude.{
  ℕ, ◌≡◌, refl, inl, inr, none, some, Option, List, [], ◌∷◌, ◌++◌, arith, Bytes, same, same_iff,
  Bool-cases, Option-cases,
}
use gossip_net.Table.{Slot, find, assign}
use gossip_net.Table.Laws.{find-assign}
use gossip_net.Pending.{PingReqTask, task_id, Entry, PendingLists, add, pointers, moved_from, fetch}
use gossip_net.Pending.Expiry.{entries}
use gossip_net.Pending.Indexed.{push_entry-entries}

abbrev pub IsNullFirst : List Entry → Type 0
IsNullFirst [] = ⊥
IsNullFirst (e ∷ es) = e.task ≡ none

abbrev pub IsSpent : Bytes → PendingLists → Type 0
IsSpent id s = IsNullFirst (entries id s.task_index)

IsNullFirst-append : (es : List Entry) (e : Entry) → IsNullFirst es → IsNullFirst (es ++ e ∷ [])
IsNullFirst-append [] e h = elim h [ ]
IsNullFirst-append (x ∷ es) e h = h

IsNullFirst-moved : (es : List Entry) → IsNullFirst es → IsNullFirst (moved_from es)
IsNullFirst-moved [] h = h
IsNullFirst-moved (x ∷ es) h = refl

pub add-IsSpent :
    (id : Bytes) (slot : Slot) (cur : ℕ) (task : PingReqTask) (s : PendingLists)
    → IsSpent id s
    → IsSpent id (add slot cur task s)
unfolding add
add-IsSpent id slot cur task s h =
    rw
      (push_entry-entries slot (task_id task) id (record { task = some task; time = cur })
        s.task_index)
      (elim (Bool-cases (same (task_id task) id)) [
        | inl hit ↦ rw hit (IsNullFirst-append (entries id s.task_index) _ h)
        | inr miss ↦ rw miss h
      ])

-- The entries under an id after the tasks of another, or of that one, were fetched.
fetch-entries :
    (i j : Bytes) (s : PendingLists) (es : List Entry)
    → find i s.task_index ≡ some es
    → IsSpent j s
    → IsSpent j (record s { task_index = assign i (moved_from es) s.task_index })
fetch-entries i j s es e h = elim (Bool-cases (same i j)) [
  | inl hit ↦
      let there : entries j (assign i (moved_from es) s.task_index) ≡ moved_from es =
        ground (arith, find-assign i j (moved_from es) s.task_index, same_iff i j, e) in
      let old : entries j s.task_index ≡ es = ground (arith, same_iff i j, e) in
      rw there (IsNullFirst-moved es (rw old at h))
  | inr miss ↦
      let other : entries j (assign i (moved_from es) s.task_index) ≡ entries j s.task_index =
        ground (arith, find-assign i j (moved_from es) s.task_index) in
      rw other h
]

pub fetch-IsSpent : (i j : Bytes) (s : PendingLists) → IsSpent j s → IsSpent j (fetch i s).0
fetch-IsSpent i j s h = elim (Option-cases (find i s.task_index)) [
  | inl e ↦ let one : fetch i s ≡ (s, []) = unfold fetch in rw (e, fetch) refl in rw one h
  | inr (es, e) ↦
      let one : fetch i s
          ≡ (record s { task_index = assign i (moved_from es) s.task_index }, pointers es) =
        unfold fetch in rw (e, fetch) refl in
      rw one (fetch-entries i j s es e h)
]

-- What stands in the index.
pub IsSpent-find :
    (id : Bytes) (s : PendingLists)
    → IsSpent id s
    → (e : Entry) × (es : List Entry) × (find id s.task_index ≡ some (e ∷ es)) × (e.task ≡ none)
IsSpent-find id s h = listed (find id s.task_index) refl h
  where
    listed :
        (o : Option (List Entry))
        → find id s.task_index ≡ o
        → IsSpent id s
        → (e : Entry) × (es : List Entry) × (find id s.task_index ≡ some (e ∷ es)) × (e.task ≡ none)
    listed none q h = elim (rw q at h) [ ]
    listed (some []) q h = elim (rw q at h) [ ]
    listed (some (e ∷ es)) q h = (e, es, q, rw q at h)
