-- ===== src/Members/Known.antt =====
-- What holds of every member of member_set.cpp, through its operations.
use gossip_net.Prelude.{
  ℕ, zero, suc, ◌-◌, ◌≡◌, sym, inl, inr, Bool, true, false, some, none, Option, List, [], ◌∷◌, ◌++◌,
  Bytes, take, length, ltb, ltb→lt, leb, ◌==◌, Bool-cases, Option-cases, arith, All, if◌then◌else◌,
}
use mathlib.Core.Path.{subst}
use gossip_net.Outcome.{Outcome, ok, throws, fault}
use gossip_net.Outcome
use gossip_net.Exec.Keeps.{Yields}
use gossip_net.Node.{Node, lt}
use gossip_net.Table.{Slot, keys, find}
use gossip_net.Table.Every.{All-append, All-left, All-right, Every, Every-erase, Every-insert_at}
use gossip_net.Members.{
  MemberSet, members, size, nodes, build_key, remove, try_known, try_update, add, emplace, fetch,
}
use gossip_net.Members.Rounds.{turn}
use gossip_net.Members.Rotation.{fetch_below, fetch_zero, fetch_equal, fetch_above}

module _ (Q : Node → Type 0) where
  abbrev pub EveryMember : MemberSet → Type 0
  EveryMember s = Every Q (members s)

  remove-Every : (key : Bytes) (s : MemberSet) → EveryMember s → EveryMember (remove key s)
  remove-Every key s h =
      All-append _ _ _ (Every-erase Q key s.before (All-left _ s.before s.after h))
        (Every-erase Q key s.after (All-right _ s.before s.after h))

  -- What a `try_update` leaves and gives back.
  abbrev pub Updates : Node → MemberSet × Option Node → Type 0
  Updates node r = EveryMember r.0 × ((n : Node) → r.1 ≡ some n → n ≡ node)

  known-Updates :
      (newer : Bool) (key : Bytes) (node : Node) (s : MemberSet)
      → EveryMember s
      → Updates node (if newer then (remove key s, some node) else (s, none))
  known-Updates true key node s h = (remove-Every key s h, λ n e. cc)
  known-Updates false key node s h = (h, λ n e. cc)

  tested-Updates :
      (r : Outcome Bool) (key : Bytes) (node : Node) (s : MemberSet)
      → EveryMember s
      → Yields
          (Updates node)
          (Outcome.◌>>=◌ r (λ newer. ok (if newer then (remove key s, some node) else (s, none))))
  tested-Updates (ok newer) key node s h = known-Updates newer key node s h
  tested-Updates (throws e) key node s h = tt
  tested-Updates (fault x) key node s h = tt

  pub try_update-Updates :
      (node : Node) (s : MemberSet) → EveryMember s → Yields (Updates node) (try_update node s)
  unfolding try_update try_known
  try_update-Updates node s h = elim (Option-cases (find (build_key s node.id) (members s))) [
    | inl e ↦ rw (e, try_update) (h, λ n q. cc)
    | inr (member, e) ↦
        rw (e, try_update) (tested-Updates (lt member node) (build_key s node.id) node s h)
  ]

  emplace-Every :
      (i : ℕ) (k : Bytes) (n : Node) (before after : List (Bytes × Node)) (prefix : Bytes)
      → Q n
      → Every Q (before ++ after)
      → EveryMember (emplace i (k, n) before after prefix)
  unfolding emplace
  emplace-Every i k n before [] prefix q h =
      All-append _ _ _ (Every-insert_at Q i k n before q (All-left _ before [] h)) tt
  emplace-Every i k n before (x ∷ after) prefix q h =
      let front = All-left _ before (x ∷ after) h in
      let back = All-right _ before (x ∷ after) h in
      elim (Bool-cases (leb i (length before))) [
        | inl first ↦ rw first (All-append _ _ _ (Every-insert_at Q i k n before q front) back)
        | inr later ↦
            rw later (
              All-append _ _ _ front (Every-insert_at Q (i - length before) k n (x ∷ after) q back))
      ]

  pub add-Every :
      (slot : Slot) (node : Node) (s : MemberSet)
      → Q node
      → EveryMember s
      → Yields EveryMember (add slot node s)
  unfolding add
  add-Every slot node s q h = elim (Option-cases (find (build_key s node.id) (members s))) [
    | inr (m, e) ↦ rw (e, add) tt
    | inl e ↦
        rw (e, add)
          (emplace-Every (slot (keys (members s)) (build_key s node.id)) (build_key s node.id) node
            s.before s.after s.random_key_prefix q h)
  ]

  Every-take : (k : ℕ) (m : List (Bytes × Node)) → Every Q m → Every Q (take k m)
  Every-take zero m h = tt
  Every-take (suc k) [] h = tt
  Every-take (suc k) (x ∷ m) h = (h.0, Every-take k m h.1)

  All-nodes : (m : List (Bytes × Node)) → Every Q m → All Q (nodes m)
  All-nodes [] h = tt
  All-nodes ((k, n) ∷ m) h = (h.0, All-nodes m h.1)

  -- The nodes that a fetch hands out, whatever it is asked for, and the set that it leaves.
  pub fetch-All :
      (num : ℕ) (s : MemberSet)
      → EveryMember s
      → Yields (λ r. All Q r.1 × EveryMember r.0) (fetch num s)
  fetch-All num s h = elim (Bool-cases (ltb num (size s))) [
    | inl below ↦
        let turned : Every Q (turn s) =
          All-append _ _ _ (All-right _ s.before s.after h) (All-left _ s.before s.after h) in
        elim (fetch_below num s (ltb→lt num (size s) below)) [
          | inl (_, s', q, t) ↦ rw q (
            All-nodes (take num (turn s)) (Every-take num (turn s) turned),
            subst (Every Q) (sym t.same_map) h,
          )
          | inr (_, q) ↦ rw q tt
        ]
    | inr not_below ↦ elim (Bool-cases (ltb (size s) num)) [
      | inl above ↦ rw (fetch_above num s (ltb→lt (size s) num above)) (All-nodes (members s) h, h)
      | inr not_above ↦ elim (Bool-cases (num == 0)) [
        | inl none_asked ↦ rw (fetch_zero num s (ground arith)) (tt, h)
        | inr some_asked ↦ rw (fetch_equal num s (ground arith) (λ z. ground arith)) tt
      ]
    ]
  ]
