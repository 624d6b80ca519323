-- ===== src/Pending/Conserved.antt =====
-- The tasks of pending_lists.cpp, counted: what `add`, `fetch` and `timeout_tasks` do with each.
use gossip_net.Prelude.{
  ℕ, zero, suc, ◌+◌, ◌≡◌, refl, ◌∙◌, inl, inr, some, none, Option, List, [], ◌∷◌, ◌++◌, arith,
  Bytes, same, same→eq, ltb, leb, Bool-cases, Option-cases,
}
use mathlib.Core.Path.{subst}
use gossip_net.Table.{Slot, keys, find, erase, assign, insert_at}
use gossip_net.Table.Laws.{IsDistinct, IsDistinct-erase, IsDistinct-assign}
use gossip_net.Pending.{
  PingReqTask, task_id, Entry, PendingLists, Sweep, push_entry, add, pointers, moved_from, fetch,
  expired, waiting, put_back, sweep_id, sweep_ids, sweep, timeout_tasks,
}

IsDistinct-put_back :
    (k : Bytes) (es : List Entry) (index : List (Bytes × List Entry))
    → IsDistinct index
    → IsDistinct (put_back k es index)
unfolding put_back
IsDistinct-put_back k [] index d = IsDistinct-erase k index d
IsDistinct-put_back k (e ∷ es) index d = IsDistinct-assign k (e ∷ es) index d

-- The measure: what the pointers of a list, and of an index, weigh by a weight of each.
module _ (f : Option PingReqTask → ℕ) where
  abbrev pub weight : List (Option PingReqTask) → ℕ
  weight [] = 0
  weight (t ∷ ts) = f t + weight ts

  abbrev pub held : List (Bytes × List Entry) → ℕ
  held [] = 0
  held ((k, es) ∷ index) = weight (pointers es) + held index

  weight-append : (ts us : List (Option PingReqTask)) → weight (ts ++ us) ≡ weight ts + weight us
  weight-append [] us = omega arith
  weight-append (t ∷ ts) us = omega (arith, weight-append ts us)

  weight-snoc :
      (es : List Entry) (e : Entry)
      → weight (pointers (es ++ e ∷ [])) ≡ weight (pointers es) + f e.task
  weight-snoc [] e = omega arith
  weight-snoc (x ∷ es) e = omega (arith, weight-snoc es e)

  held-insert_at :
      (n : ℕ) (k : Bytes) (es : List Entry) (index : List (Bytes × List Entry))
      → held (insert_at n (k, es) index) ≡ weight (pointers es) + held index
  unfolding insert_at
  held-insert_at n k es [] = refl
  held-insert_at zero k es ((j, x) ∷ index) = refl
  held-insert_at (suc n) k es ((j, x) ∷ index) = omega (arith, held-insert_at n k es index)

  -- A key that is not there.
  held_absent :
      (k : Bytes) (es : List Entry) (index : List (Bytes × List Entry))
      → find k index ≡ none
      → (held (erase k index) ≡ held index) × (held (assign k es index) ≡ held index)
  unfolding find erase assign
  held_absent k es [] h = (refl, refl)
  held_absent k es ((j, x) ∷ index) h = elim (Bool-cases (same j k)) [
    | inl hit ↦ let q : some x ≡ none = rw hit at h in cc
    | inr miss ↦
        let (a, b) = held_absent k es index (rw miss at h) in
        (rw miss (omega (arith, a)), rw miss (omega (arith, b)))
  ]

  -- One that is.
  held_there :
      (k : Bytes) (old es : List Entry) (index : List (Bytes × List Entry))
      → IsDistinct index
      → find k index ≡ some old
      → (held (erase k index) + weight (pointers old) ≡ held index)
        × (held (assign k es index) + weight (pointers old) ≡ held index + weight (pointers es))
  unfolding find erase assign
  held_there k old es [] d h = cc
  held_there k old es ((j, x) ∷ index) d h = elim (Bool-cases (same j k)) [
    | inl hit ↦
        let q : some x ≡ some old = rw hit at h in
        let e : x ≡ old = cc in
        let (a, b) =
          held_absent k es index (subst (λ i. find i index ≡ none) (same→eq j k hit) d.0) in
        rw (hit, e) (omega (arith, a), omega (arith, b))
    | inr miss ↦
        let (a, b) = held_there k old es index d.1 (rw miss at h) in
        (rw miss (omega (arith, a)), rw miss (omega (arith, b)))
  ]

  held-put_back :
      (k : Bytes) (old es : List Entry) (index : List (Bytes × List Entry))
      → IsDistinct index
      → find k index ≡ some old
      → held (put_back k es index) + weight (pointers old) ≡ held index + weight (pointers es)
  unfolding put_back
  held-put_back k old [] index d h = omega (arith, (held_there k old [] index d h).0)
  held-put_back k old (e ∷ es) index d h = (held_there k old (e ∷ es) index d h).1

  split_by_time :
      (cur : ℕ) (es : List Entry)
      → weight (pointers (expired cur es)) + weight (pointers (waiting cur es))
        ≡ weight (pointers es)
  unfolding expired waiting
  split_by_time cur [] = refl
  split_by_time cur (e ∷ es) = elim (Bool-cases (ltb e.time cur)) [
    | inl old ↦ rw old (omega (arith, split_by_time cur es))
    | inr new ↦ rw new (omega (arith, split_by_time cur es))
  ]

  weight-moved_from : f none ≡ 0 → (es : List Entry) → weight (pointers (moved_from es)) ≡ 0
  weight-moved_from z [] = refl
  weight-moved_from z (e ∷ es) = omega (arith, z, weight-moved_from z es)

  -- What the loops of a timeout keep.
  abbrev Balanced : Sweep → Sweep → Type 0
  Balanced s s' = (held s'.0 + weight s'.1 ≡ held s.0 + weight s.1) × IsDistinct s'.0

  Balanced-sweep_id :
      (cur : ℕ) (id : Bytes) (s : Sweep) → IsDistinct s.0 → Balanced s (sweep_id cur id s)
  Balanced-sweep_id cur id s d = elim (Option-cases (find id s.0)) [
    | inl e ↦
        let one : sweep_id cur id s ≡ s = unfold sweep_id in rw (e, sweep_id) refl in
        rw one (refl, d)
    | inr (es, e) ↦
        let one : sweep_id cur id s
            ≡ (put_back id (waiting cur es) s.0, s.1 ++ pointers (expired cur es)) =
          unfold sweep_id in rw (e, sweep_id) refl in
        rw one (
          omega (
            arith,
            held-put_back id es (waiting cur es) s.0 d e,
            split_by_time cur es,
            weight-append s.1 (pointers (expired cur es)),
          ),
          IsDistinct-put_back id (waiting cur es) s.0 d,
        )
  ]

  Balanced-sweep_ids :
      (cur : ℕ) (ids : List Bytes) (s : Sweep) → IsDistinct s.0 → Balanced s (sweep_ids cur ids s)
  unfolding sweep_ids
  Balanced-sweep_ids cur [] s d = (refl, d)
  Balanced-sweep_ids cur (id ∷ ids) s d =
      let (a, d') = Balanced-sweep_id cur id s d in
      let (b, d'') = Balanced-sweep_ids cur ids (sweep_id cur id s) d' in (b ∙ a, d'')

  Balanced-sweep :
      (cur : ℕ) (m : List (ℕ × List Bytes)) (s : Sweep)
      → IsDistinct s.0
      → Balanced s (sweep cur m s)
  unfolding sweep
  Balanced-sweep cur [] s d = (refl, d)
  Balanced-sweep cur ((t, ids) ∷ m) s d = elim (Bool-cases (leb t cur)) [
    | inr later ↦ rw later (refl, d)
    | inl due ↦
        let (a, d') = Balanced-sweep_ids cur ids s d in
        let (b, d'') = Balanced-sweep cur m (sweep_ids cur ids s) d' in rw due (b ∙ a, d'')
  ]

  held-push_entry :
      (slot : Slot) (id : Bytes) (e : Entry) (index : List (Bytes × List Entry))
      → IsDistinct index
      → held (push_entry slot id e index) ≡ held index + f e.task
  held-push_entry slot id e index d = elim (Option-cases (find id index)) [
    | inl h ↦
        let one : push_entry slot id e index ≡ insert_at (slot (keys index) id) (id, e ∷ []) index =
          unfold push_entry in rw (h, push_entry) refl in
        rw one (omega (arith, held-insert_at (slot (keys index) id) id (e ∷ []) index))
    | inr (es, h) ↦
        let one : push_entry slot id e index ≡ assign id (es ++ e ∷ []) index =
          unfold push_entry in rw (h, push_entry) refl in
        rw one (omega (arith, (held_there id es (es ++ e ∷ []) index d h).1, weight-snoc es e))
  ]

  held-fetch :
      (id : Bytes) (s : PendingLists)
      → f none ≡ 0
      → IsDistinct s.task_index
      → held (fetch id s).0.task_index + weight (fetch id s).1 ≡ held s.task_index
  held-fetch id s z d = elim (Option-cases (find id s.task_index)) [
    | inl h ↦
        let one : fetch id s ≡ (s, []) = unfold fetch in rw (h, fetch) refl in rw one (omega arith)
    | inr (es, h) ↦
        let one : fetch id s
            ≡ (record s { task_index = assign id (moved_from es) s.task_index }, pointers es) =
          unfold fetch in rw (h, fetch) refl in
        rw one (
          omega
            (arith, (held_there id es (moved_from es) s.task_index d h).1, weight-moved_from z es))
  ]

  -- By whatever weight of the tasks, that of a null pointer zero: `add` puts the new task in and keeps
  -- the others, and what `fetch` and `timeout_tasks` hand out and what they leave are together what was
  -- there. The ids of the lists are distinct.
  pub tasks_conserved :
      (slot : Slot) (cur : ℕ) (task : PingReqTask) (id : Bytes) (s : PendingLists)
      → f none ≡ 0
      → IsDistinct s.task_index
      → (held (add slot cur task s).task_index ≡ held s.task_index + f (some task))
        × (held (fetch id s).0.task_index + weight (fetch id s).1 ≡ held s.task_index)
        × (held (timeout_tasks cur s).0.task_index + weight (timeout_tasks cur s).1
            ≡ held s.task_index)
  unfolding add timeout_tasks
  tasks_conserved slot cur task id s z d = (
    held-push_entry slot (task_id task) _ s.task_index d,
    held-fetch id s z d,
    omega (arith, (Balanced-sweep cur s.timeout_index (s.task_index, []) d).0),
  )
