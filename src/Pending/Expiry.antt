-- ===== src/Pending/Expiry.antt =====
-- `timeout_tasks` of pending_lists.cpp, seen through the entries that wait under an id.
use gossip_net.Prelude.{
  ℕ, ◌≡◌, ◌≤◌, ◌<◌, refl, inl, inr, Bool, true, false, some, none, Option, List, [], ◌∷◌, arith,
  Bytes, same, leb, Bool-cases, if◌then◌else◌, ◌==◌, ◌||◌, All,
}
use gossip_net.Table.{find}
use gossip_net.Pending.{Entry, PendingLists, sweep, after, timeout_tasks}

abbrev listed : Option (List Entry) → List Entry
listed none = []
listed (some es) = es

-- What waits under an id.
abbrev pub entries : Bytes → List (Bytes × List Entry) → List Entry
entries j index = listed (find j index)

abbrev pub has : Bytes → List Bytes → Bool
has j [] = false
has j (i ∷ ids) = same i j || has j ids

-- The sweep comes to an id.
abbrev pub swept : ℕ → Bytes → List (ℕ × List Bytes) → Bool
swept cur j [] = false
swept cur j ((t, ids) ∷ m) = if leb t cur then has j ids || swept cur j m else false

-- The ids under a time.
abbrev pub at_time : ℕ → List (ℕ × List Bytes) → List Bytes
at_time t [] = []
at_time t ((u, ids) ∷ m) = if u == t then ids else at_time t m

-- The times of the index grow.
abbrev pub IsOrdered : List (ℕ × List Bytes) → Type 0
IsOrdered [] = Unit
IsOrdered ((t, ids) ∷ m) = All (λ p. t < p.0) m × IsOrdered m

-- Every entry is found in the index by its time.
pub record IsIndexed (s : PendingLists) : Type 0 where
  pub ordered : IsOrdered s.timeout_index
  pub indexed :
      (j : Bytes)
      → All (λ e. has j (at_time e.time s.timeout_index) ≡ true) (entries j s.task_index)

pub later_than :
    (t u : ℕ) (j : Bytes) (m : List (ℕ × List Bytes))
    → All (λ p. t < p.0) m
    → has j (at_time u m) ≡ true
    → t < u
later_than t u j [] h e = cc
later_than t u j ((v, ids) ∷ m) h e = elim (Bool-cases (v == u)) [
  | inl hit ↦ let a = h.0 in ground arith
  | inr miss ↦ later_than t u j m h.1 (rw miss at e)
]

after-All : (cur : ℕ) (m : List (ℕ × List Bytes)) → All (λ p. p.0 ≤ cur) m → after cur m ≡ []
unfolding after
after-All cur [] h = refl
after-All cur ((t, ids) ∷ m) h =
    let rest = after-All cur m h.1 in
    let le = h.0 in let on : leb t cur ≡ true = ground arith in rw (on, rest) refl

-- If no time in the index is later than that of a timeout, the next timeout, at whatever time, gives
-- no task and changes nothing, if no task is added or fetched in between: the tasks that the first
-- one left waiting are no longer found by their time.
pub timeout_tasks_twice :
    (cur cur' : ℕ) (s : PendingLists)
    → All (λ p. p.0 ≤ cur) s.timeout_index
    → timeout_tasks cur' (timeout_tasks cur s).0 ≡ ((timeout_tasks cur s).0, [])
unfolding timeout_tasks
timeout_tasks_twice cur cur' s h =
    let none_left = after-All cur s.timeout_index h in rw none_left (unfold sweep in refl)
