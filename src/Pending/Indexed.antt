-- ===== src/Pending/Indexed.antt =====
-- `add` of pending_lists.cpp, and the two indices.
use gossip_net.Prelude.{
  ℕ, ◌≡◌, ◌<◌, refl, ◌⊎◌, inl, inr, true, some, List, [], ◌∷◌, ◌++◌, arith, Bytes, same, same_iff,
  same_refl, same→eq, Bool-cases, Option-cases, if◌then◌else◌, ◌||◌, All, All-map, All-snoc,
}
use mathlib.Core.Path.{subst}
use gossip_net.Table.{Slot, keys, find, assign, insert_at}
use gossip_net.Table.Laws.{find-insert_at, find-assign}
use gossip_net.Pending.{
  fetch, moved_from, pointers, PingReqTask, task_id, Entry, PendingLists, push_id, push_entry, add,
}
use gossip_net.Pending.Expiry.{entries, has, at_time, later_than, IsOrdered, IsIndexed}

pub push_entry-entries :
    (slot : Slot) (i j : Bytes) (e : Entry) (index : List (Bytes × List Entry))
    → entries j (push_entry slot i e index)
      ≡ (if same i j then entries j index ++ e ∷ [] else entries j index)
push_entry-entries slot i j e index = elim (Option-cases (find i index)) [
  | inl h ↦
      let one : push_entry slot i e index ≡ insert_at (slot (keys index) i) (i, e ∷ []) index =
        unfold push_entry in rw (h, push_entry) refl in
      rw one
        (ground (arith, find-insert_at (slot (keys index) i) i j (e ∷ []) index h, same_iff i j, h))
  | inr (es, h) ↦
      let one : push_entry slot i e index ≡ assign i (es ++ e ∷ []) index =
        unfold push_entry in rw (h, push_entry) refl in
      rw one (ground (arith, find-assign i j (es ++ e ∷ []) index, same_iff i j, h))
]

has-append : (j i : Bytes) (ids : List Bytes) → has j (ids ++ i ∷ []) ≡ (has j ids || same i j)
has-append j i [] = ground arith
has-append j i (k ∷ ids) = ground (arith, has-append j i ids)

All-trans :
    (t u : ℕ) (m : List (ℕ × List Bytes)) → t < u → All (λ p. u < p.0) m → All (λ p. t < p.0) m
All-trans t u m lt = All-map m (λ p h. omega arith)

-- The three ways in which a time meets the head of the index.
push_cases : (u cur : ℕ) → (u ≡ cur) ⊎ (cur < u) ⊎ (u < cur)
push_cases u cur = ground arith

push_hit :
    (u cur : ℕ) (i : Bytes) (ids : List Bytes) (m : List (ℕ × List Bytes))
    → u ≡ cur
    → push_id cur i ((u, ids) ∷ m) ≡ (u, ids ++ i ∷ []) ∷ m
unfolding push_id
push_hit u cur i ids m e = ground arith

push_before :
    (u cur : ℕ) (i : Bytes) (ids : List Bytes) (m : List (ℕ × List Bytes))
    → cur < u
    → push_id cur i ((u, ids) ∷ m) ≡ (cur, i ∷ []) ∷ (u, ids) ∷ m
unfolding push_id
push_before u cur i ids m h = ground arith

push_behind :
    (u cur : ℕ) (i : Bytes) (ids : List Bytes) (m : List (ℕ × List Bytes))
    → u < cur
    → push_id cur i ((u, ids) ∷ m) ≡ (u, ids) ∷ push_id cur i m
unfolding push_id
push_behind u cur i ids m h = ground arith

push_nil : (cur : ℕ) (i : Bytes) → push_id cur i [] ≡ (cur, i ∷ []) ∷ []
unfolding push_id
push_nil cur i = refl

-- Nothing of the index is lost.
has-push_id :
    (cur t : ℕ) (i j : Bytes) (m : List (ℕ × List Bytes))
    → IsOrdered m
    → has j (at_time t m) ≡ true
    → has j (at_time t (push_id cur i m)) ≡ true
has-push_id cur t i j [] o h = cc
has-push_id cur t i j ((u, ids) ∷ m) o h = elim (push_cases u cur) [
  | inl hit ↦ rw (push_hit u cur i ids m hit) (ground (arith, has-append j i ids))
  | inr (inl before) ↦
      let later = later_than cur t j ((u, ids) ∷ m) (before, All-trans cur u m before o.0) h in
      rw (push_before u cur i ids m before) (ground arith)
  | inr (inr behind) ↦
      let rest = has-push_id cur t i j m o.1 in
      rw (push_behind u cur i ids m behind) (ground (arith, rest))
]

-- What is pushed is found.
has-push_id_self :
    (cur : ℕ) (i : Bytes) (m : List (ℕ × List Bytes)) → has i (at_time cur (push_id cur i m)) ≡ true
has-push_id_self cur i [] = rw (push_nil cur i) (ground (arith, same_refl i))
has-push_id_self cur i ((u, ids) ∷ m) = elim (push_cases u cur) [
  | inl hit ↦ rw (push_hit u cur i ids m hit) (ground (arith, has-append i i ids, same_refl i))
  | inr (inl before) ↦ rw (push_before u cur i ids m before) (ground (arith, same_refl i))
  | inr (inr behind) ↦
      rw (push_behind u cur i ids m behind) (ground (arith, has-push_id_self cur i m))
]

All-push_id :
    (t cur : ℕ) (i : Bytes) (m : List (ℕ × List Bytes))
    → t < cur
    → All (λ p. t < p.0) m
    → All (λ p. t < p.0) (push_id cur i m)
All-push_id t cur i [] lt h = rw (push_nil cur i) (lt, tt)
All-push_id t cur i ((u, ids) ∷ m) lt h = elim (push_cases u cur) [
  | inl hit ↦ rw (push_hit u cur i ids m hit) (h.0, h.1)
  | inr (inl before) ↦ rw (push_before u cur i ids m before) (lt, (h.0, h.1))
  | inr (inr behind) ↦ rw (push_behind u cur i ids m behind) (h.0, All-push_id t cur i m lt h.1)
]

IsOrdered-push_id :
    (cur : ℕ) (i : Bytes) (m : List (ℕ × List Bytes)) → IsOrdered m → IsOrdered (push_id cur i m)
IsOrdered-push_id cur i [] o = rw (push_nil cur i) (tt, tt)
IsOrdered-push_id cur i ((u, ids) ∷ m) o = elim (push_cases u cur) [
  | inl hit ↦ rw (push_hit u cur i ids m hit) (o.0, o.1)
  | inr (inl before) ↦
      rw (push_before u cur i ids m before) ((before, All-trans cur u m before o.0), (o.0, o.1))
  | inr (inr behind) ↦
      rw (push_behind u cur i ids m behind)
        (All-push_id u cur i m behind o.0, IsOrdered-push_id cur i m o.1)
]

-- If the index by time is ordered and every entry is in it, so it is after a task was added, at
-- whatever time.
pub add-IsIndexed :
    (slot : Slot) (cur : ℕ) (task : PingReqTask) (s : PendingLists)
    → IsIndexed s
    → IsIndexed (add slot cur task s)
unfolding add
add-IsIndexed slot cur task s ix = record {
  ordered = IsOrdered-push_id cur (task_id task) s.timeout_index ix.ordered;
  indexed = λ j.
      let i = task_id task in
      let old =
        All-map (entries j s.task_index)
          (λ e h. has-push_id cur e.time i j s.timeout_index ix.ordered h) (ix.indexed j) in
      rw (push_entry-entries slot i j (record { task = some task; time = cur }) s.task_index)
        (elim (Bool-cases (same i j)) [
          | inr other ↦ rw other old
          | inl hit ↦ rw hit (
              All-snoc _ (entries j s.task_index) _ old (
                subst (λ k. has k (at_time cur (push_id cur i s.timeout_index)) ≡ true)
                  (same→eq i j hit) (has-push_id_self cur i s.timeout_index)))
        ]);
}

All-moved_from :
    (P : ℕ → Type 0) (es : List Entry)
    → All (λ e. P e.time) es
    → All (λ e. P e.time) (moved_from es)
All-moved_from P [] h = tt
All-moved_from P (e ∷ es) h = (h.0, All-moved_from P es h.1)

-- What a fetch leaves is indexed as before: the null pointers keep the times of the tasks.
pub fetch-IsIndexed : (id : Bytes) (s : PendingLists) → IsIndexed s → IsIndexed (fetch id s).0
fetch-IsIndexed id s ix = elim (Option-cases (find id s.task_index)) [
  | inl e ↦
      let same_lists : fetch id s ≡ (s, []) = unfold fetch in rw (e, fetch) refl in rw same_lists ix
  | inr (es, e) ↦
      let moved : fetch id s
          ≡ (record s { task_index = assign id (moved_from es) s.task_index }, pointers es) =
        unfold fetch in rw (e, fetch) refl in
      rw moved (record {
        ordered = ix.ordered;
        indexed = λ j. elim (Bool-cases (same id j)) [
          | inl hit ↦
              let here : entries j (assign id (moved_from es) s.task_index) ≡ moved_from es =
                ground (arith, find-assign id j (moved_from es) s.task_index, same_iff id j, e) in
              let old : entries j s.task_index ≡ es = ground (arith, same_iff id j, e) in
              rw here (
                All-moved_from (λ t. has j (at_time t s.timeout_index) ≡ true) es
                  (rw old at (ix.indexed j)))
          | inr miss ↦
              let other : entries j (assign id (moved_from es) s.task_index)
                  ≡ entries j s.task_index =
                ground (arith, find-assign id j (moved_from es) s.task_index, miss) in
              rw other (ix.indexed j)
        ];
      })
]
