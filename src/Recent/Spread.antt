-- ===== src/Recent/Spread.antt =====
-- How often a member is spread by `fetch` of recently_updated_set.cpp, and what becomes of it.
use gossip_net.Prelude.{
  ℕ, ◌+◌, ◌≤◌, ◌<◌, ◌≡◌, refl, ◌⊎◌, inl, inr, some, List, [], ◌∷◌, ◌++◌, arith, Bytes, length,
  length-append, lt→ltb, le→ltb, Bool-cases,
}
use mathlib.Core.List.{Mem, mem-append_left}
use gossip_net.Node.{Node, is_failed}
use gossip_net.Table.{find}
use gossip_net.Table.Laws.{find-append}
use gossip_net.Recent.{
  RecentlyUpdatedSet, Member, Fetched, Pops, settle, visit, erased, spread, fetch_all, drain, fetch,
}

pub visit_over :
    (max : ℕ) (k : Bytes) (mem : Member) (s : Fetched)
    → max ≤ mem.counter
    → visit max k mem s ≡ record s { stable = settle mem.node s.stable }
unfolding visit
visit_over max k mem s h = rw (lt→ltb max (mem.counter + 1) (omega arith)) refl

pub visit_again :
    (max : ℕ) (k : Bytes) (mem : Member) (s : Fetched)
    → mem.counter < max
    → visit max k mem s ≡ record {
      members = s.members ++ (k, record mem { counter = mem.counter + 1 }) ∷ [];
      recent = s.recent ++ mem.node ∷ [];
      stable = s.stable;
    }
unfolding visit
visit_again max k mem s h = rw (le→ltb max (mem.counter + 1) (omega arith)) refl

pub counter_cases : (max c : ℕ) → (c < max) ⊎ (max ≤ c)
counter_cases max c = ground arith

length-visit :
    (max : ℕ) (k : Bytes) (mem : Member) (s : Fetched)
    → length (visit max k mem s).recent ≤ length s.recent + 1
unfolding visit
length-visit max k mem s = ground (arith, length-append s.recent (mem.node ∷ []))

length-fetch_all :
    (max : ℕ) (m : RecentlyUpdatedSet) (s : Fetched)
    → length (fetch_all max m s).recent ≤ length s.recent + length m
unfolding fetch_all
length-fetch_all max [] s = omega arith
length-fetch_all max ((k, mem) ∷ m) s =
    omega (arith, length-visit max k mem s, length-fetch_all max m (visit max k mem s))

length-drain :
    (n max : ℕ) (queue : RecentlyUpdatedSet) (s : Fetched)
    → length s.recent < n
    → length (drain n max queue s).recent ≤ n
unfolding drain erased spread
length-drain n max [] s h = omega arith
length-drain n max ((k, mem) ∷ queue) s h = ground (
  arith,
  length-drain n max queue (erased k mem s),
  length-drain n max queue (spread k mem s),
  length-append s.recent (mem.node ∷ []),
)

-- A fetch never spreads more members than it is asked for, whatever the order of the queue.
pub fetch-length :
    (pops : Pops) (n max : ℕ) (m : RecentlyUpdatedSet) → length (fetch pops n max m).recent ≤ n
unfolding fetch
fetch-length pops n max m = ground (
  arith,
  length-fetch_all max m (record { members = []; recent = []; stable = [] }),
  length-drain n max (pops m) (record { members = m; recent = []; stable = [] }),
)

-- What was in the three lists stays there.
pub record Grows (s s' : Fetched) : Type 0 where
  pub in_members :
      (k : Bytes) (mem : Member) → find k s.members ≡ some mem → find k s'.members ≡ some mem
  pub in_recent : (n : Node) → Mem n s.recent → Mem n s'.recent
  pub in_stable : (n : Node) → Mem n s.stable → Mem n s'.stable

pub mem-settle : (x : Node) (n : Node) (stable : List Node) → Mem n stable → Mem n (settle x stable)
mem-settle x n stable h = elim (Bool-cases (is_failed x.status)) [
  | inl dead ↦ rw dead h
  | inr live ↦ rw live (mem-append_left (x ∷ []) h)
]

pub Grows-visit : (max : ℕ) (k : Bytes) (mem : Member) (s : Fetched) → Grows s (visit max k mem s)
Grows-visit max k mem s = elim (counter_cases max mem.counter) [
  | inl again ↦ rw (visit_again max k mem s again) (record {
    in_members = λ j x h. rw (find-append j s.members _, h) refl;
    in_recent = λ n h. mem-append_left (mem.node ∷ []) h;
    in_stable = λ n h. h;
  })
  | inr over ↦ rw (visit_over max k mem s over) (record {
    in_members = λ j x h. h;
    in_recent = λ n h. h;
    in_stable = λ n h. mem-settle mem.node n s.stable h;
  })
]

pub Grows-fetch_all : (max : ℕ) (m : RecentlyUpdatedSet) (s : Fetched) → Grows s (fetch_all max m s)
unfolding fetch_all
Grows-fetch_all max [] s = record {
  in_members = λ k mem h. h;
  in_recent = λ n h. h;
  in_stable = λ n h. h;
}
Grows-fetch_all max ((k, mem) ∷ m) s =
    let a = Grows-visit max k mem s in
    let b = Grows-fetch_all max m (visit max k mem s) in
    record {
      in_members = λ j x h. b.in_members j x (a.in_members j x h);
      in_recent = λ n h. b.in_recent n (a.in_recent n h);
      in_stable = λ n h. b.in_stable n (a.in_stable n h);
    }
