-- ===== src/Recent/Known.antt =====
-- What holds of every member of recently_updated_set.cpp, through its operations.
use gossip_net.Prelude.{
  ℕ, ◌+◌, inl, inr, Bool, true, false, List, [], ◌∷◌, Bytes, ltb, leb, length, ◌==◌, Bool-cases,
  Option-cases, All, All-snoc, if◌then◌else◌,
}
use gossip_net.Outcome.{Outcome, ok, throws, fault}
use gossip_net.Outcome
use gossip_net.Exec.Keeps.{Yields}
use gossip_net.Node.{Node, lt, is_failed}
use gossip_net.Table.{Slot, keys, find, assign}
use gossip_net.Table.Every.{All-append, Every, Every-erase, Every-assign, Every-insert_at}
use gossip_net.Recent.{
  RecentlyUpdatedSet, Member, Fetched, Pops, fresh, add_known, add, settle, visit, fetch_all,
  erased, spread, drain, fetch,
}
use gossip_net.Recent.Spread.{visit_again, visit_over, counter_cases}
use gossip_net.Recent.Fate.{nothing}
use gossip_net.Recent.Drain.{drain_over, drain_full, drain_more}

module _ (Q : Node → Type 0) where
  abbrev pub EveryRecent : RecentlyUpdatedSet → Type 0
  EveryRecent m = Every (λ (x : Member). Q x.node) m

  chosen-Every :
      (newer : Outcome Bool) (m m' : RecentlyUpdatedSet)
      → EveryRecent m
      → EveryRecent m'
      → Yields EveryRecent (Outcome.◌>>=◌ newer (λ b. ok (if b then m else m')))
  chosen-Every (ok true) m m' h h' = h
  chosen-Every (ok false) m m' h h' = h'
  chosen-Every (throws e) m m' h h' = tt
  chosen-Every (fault x) m m' h h' = tt

  pub add-Every :
      (slot : Slot) (node : Node) (m : RecentlyUpdatedSet)
      → Q node
      → EveryRecent m
      → Yields EveryRecent (add slot node m)
  unfolding add add_known
  add-Every slot node m q h = elim (Option-cases (find node.id m)) [
    | inl e ↦
        rw (e, add)
          (Every-insert_at (λ (x : Member). Q x.node) (slot (keys m) node.id) node.id (fresh node) m
            q h)
    | inr (mem, e) ↦
        rw (e, add)
          (chosen-Every (lt mem.node node) (assign node.id (fresh node) m) m
            (Every-assign (λ (x : Member). Q x.node) node.id (fresh node) m q h) h)
  ]

  -- The three parts of a fetch.
  pub record IsEvery (s : Fetched) : Type 0 where
    pub members : EveryRecent s.members
    pub recent : All Q s.recent
    pub stable : All Q s.stable

  settle-All : (n : Node) (stable : List Node) → Q n → All Q stable → All Q (settle n stable)
  settle-All n stable q h = elim (Bool-cases (is_failed n.status)) [
    | inl dead ↦ rw dead h
    | inr live ↦ rw live (All-snoc Q stable n h q)
  ]

  visit-IsEvery :
      (max : ℕ) (k : Bytes) (x : Member) (s : Fetched)
      → Q x.node
      → IsEvery s
      → IsEvery (visit max k x s)
  visit-IsEvery max k x s q h = elim (counter_cases max x.counter) [
    | inl again ↦ rw (visit_again max k x s again) (record {
      members = All-append _ s.members _ h.members (q, tt);
      recent = All-snoc Q s.recent x.node h.recent q;
      stable = h.stable;
    })
    | inr over ↦ rw (visit_over max k x s over) (record {
      members = h.members;
      recent = h.recent;
      stable = settle-All x.node s.stable q h.stable;
    })
  ]

  fetch_all-IsEvery :
      (max : ℕ) (m : RecentlyUpdatedSet) (s : Fetched)
      → EveryRecent m
      → IsEvery s
      → IsEvery (fetch_all max m s)
  unfolding fetch_all
  fetch_all-IsEvery max [] s h e = e
  fetch_all-IsEvery max ((k, x) ∷ m) s h e =
      fetch_all-IsEvery max m (visit max k x s) h.1 (visit-IsEvery max k x s h.0 e)

  erased-IsEvery :
      (k : Bytes) (x : Member) (s : Fetched) → Q x.node → IsEvery s → IsEvery (erased k x s)
  unfolding erased
  erased-IsEvery k x s q h = record {
    members = Every-erase (λ (x : Member). Q x.node) k s.members h.members;
    recent = h.recent;
    stable = settle-All x.node s.stable q h.stable;
  }

  spread-IsEvery :
      (k : Bytes) (x : Member) (s : Fetched) → Q x.node → IsEvery s → IsEvery (spread k x s)
  unfolding spread
  spread-IsEvery k x s q h = record {
    members =
        Every-assign (λ (x : Member). Q x.node) k (record x { counter = x.counter + 1 }) s.members q
          h.members;
    recent = All-snoc Q s.recent x.node h.recent q;
    stable = h.stable;
  }

  drain-IsEvery :
      (n max : ℕ) (queue : RecentlyUpdatedSet) (s : Fetched)
      → EveryRecent queue
      → IsEvery s
      → IsEvery (drain n max queue s)
  drain-IsEvery n max [] s h e = unfold drain in e
  drain-IsEvery n max ((k, x) ∷ queue) s h e = elim (Bool-cases (ltb max (x.counter + 1))) [
    | inl over ↦
        rw (drain_over n max k x queue s over)
          (drain-IsEvery n max queue (erased k x s) h.1 (erased-IsEvery k x s h.0 e))
    | inr again ↦ elim (Bool-cases (length (spread k x s).recent == n)) [
      | inl full ↦ rw (drain_full n max k x queue s again full) (spread-IsEvery k x s h.0 e)
      | inr more ↦
          rw (drain_more n max k x queue s again more)
            (drain-IsEvery n max queue (spread k x s) h.1 (spread-IsEvery k x s h.0 e))
    ]
  ]

  -- What a fetch leaves and what it returns is of the set, if the queue is.
  pub fetch-IsEvery :
      (pops : Pops) (n max : ℕ) (m : RecentlyUpdatedSet)
      → EveryRecent m
      → EveryRecent (pops m)
      → IsEvery (fetch pops n max m)
  unfolding fetch
  fetch-IsEvery pops n max m h g =
      let whole : IsEvery (record { members = m; recent = []; stable = [] }) = record {
        members = h;
        recent = tt;
        stable = tt;
      } in
      elim (Bool-cases (n == 0)) [
        | inl none_asked ↦ rw none_asked whole
        | inr asked ↦ elim (Bool-cases (leb (length m) n)) [
          | inl enough ↦
              rw (asked, enough)
                (fetch_all-IsEvery max m nothing h
                  (record { members = tt; recent = tt; stable = tt }))
          | inr few ↦ rw (asked, few) (drain-IsEvery n max (pops m) _ g whole)
        ]
      ]
