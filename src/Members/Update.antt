-- ===== src/Members/Update.antt =====
-- `try_update` and `add` of member_set.cpp, seen through the members that can be found.
use gossip_net.Prelude.{
  ℕ, suc, length-append, ◌-◌, ◌≡◌, ◌↔◌, refl, ◌∙◌, inl, inr, Bool, true, false, some, none, Option,
  List, [], ◌∷◌, ◌++◌, append-nil, arith, Bytes, same, same_iff, length, ltb, Option-cases, ◌&&◌,
  if◌then◌else◌,
}
use gossip_net.Outcome.{ok, fault, assert_failed}
use gossip_net.Node.{Node}
use gossip_net.Node.Order.{IsKnown, rank, lt-rank}
use gossip_net.Table.{Slot, keys, find, erase, insert_at}
use gossip_net.Table.Laws.{find-erase, find-insert_at, find-append, length-insert_at}
use gossip_net.Members.{
  MemberSet, members, size, build_key, remove, try_known, try_update, add, emplace,
}

-- The member with an id.
unfoldable pub lookup : MemberSet → Bytes → Option Node
lookup s id = find (build_key s id) (members s)

-- Every member stands under its own id, with a status and a version of the protocol.
pub record IsKeyed (s : MemberSet) : Type 0 where
  pub keyed : (id : Bytes) (n : Node) → lookup s id ≡ some n → n.id ≡ id
  pub known : (id : Bytes) (n : Node) → lookup s id ≡ some n → IsKnown n

append_same : (p a b : Bytes) → same (p ++ a) (p ++ b) ≡ same a b
unfolding same
append_same [] a b = refl
append_same (c ∷ p) a b = ground (arith, append_same p a b)

pub lookup-remove :
    (s : MemberSet) (id j : Bytes)
    → lookup (remove (build_key s id) s) j ≡ (if same id j then none else lookup s j)
unfolding lookup
lookup-remove s id j =
    let k = build_key s id in
    ground (
      arith,
      find-append (build_key s j) (erase k s.before) (erase k s.after),
      find-append (build_key s j) s.before s.after,
      find-erase k (build_key s j) s.before,
      find-erase k (build_key s j) s.after,
      append_same s.random_key_prefix id j,
    )

-- The news that a rumor brings, given what the stable members hold under its id.
unfoldable pub news : Option Node → Node → Option Node
news none node = some node
news (some member) node = if ltb (rank member) (rank node) then some node else none

abbrev pub is_news : Option Node → Bool
is_news none = false
is_news (some n) = true

module _ (node : Node) (s : MemberSet) where
  try_new : lookup s node.id ≡ none → try_update node s ≡ ok (s, some node)
  unfolding lookup try_update
  try_new e = rw (e, try_update) refl

  try_old :
      (member : Node)
      → lookup s node.id ≡ some member
      → try_update node s ≡ try_known (build_key s node.id) member node s
  unfolding lookup try_update
  try_old member e = rw (e, try_update) refl

  -- In a sound set, for a node of known status and 64-bit version, `try_update` returns. A node
  -- under an id that is not there, or of a higher rank than the member, is passed on as news and
  -- the member, if any, is removed; any other node is dropped. No other member changes.
  pub try_update-news :
      IsKeyed s
      → IsKnown node
      → (s' : MemberSet) × (try_update node s ≡ ok (s', news (lookup s node.id) node))
        × ((j : Bytes)
            → lookup s' j ≡ (
                if is_news (news (lookup s node.id) node) && same node.id j
                then none
                else lookup s j))
  unfolding news
  try_update-news keyed known = elim (Option-cases (lookup s node.id)) [
    | inl e ↦ (s, rw e (try_new e), λ j. ground (arith, same_iff node.id j, e))
    | inr (member, e) ↦
        let newer = ltb (rank member) (rank node) in
        (
          if newer then remove (build_key s node.id) s else s,
          try_old member e
              ∙ (unfold try_known in
                  rw
                    (
                      lt-rank member node (keyed.known node.id member e) known
                          (keyed.keyed node.id member e),
                      e,
                    )
                    (ground arith)),
          λ j. ground (arith, lookup-remove s node.id j, same_iff node.id j, e),
        )
  ]

module _ (node : Node) (s s' : MemberSet) (r : Option Node) where
  pub try_update-IsKeyed : IsKeyed s → IsKnown node → try_update node s ≡ ok (s', r) → IsKeyed s'
  try_update-IsKeyed keyed known e =
      let (t, e', found) = try_update-news node s keyed known in
      record {
        keyed = λ id n h. ground (arith, found id, keyed.keyed id n);
        known = λ id n h. ground (arith, found id, keyed.known id n);
      }

lookup-emplace :
    (i : ℕ) (k : Bytes) (n : Node) (before after : List (Bytes × Node)) (prefix j : Bytes)
    → find k (before ++ after) ≡ none
    → find j (members (emplace i (k, n) before after prefix))
      ≡ (if same k j then some n else find j (before ++ after))
unfolding emplace
lookup-emplace i k n before [] prefix j e =
    rw (append-nil (insert_at i (k, n) before), append-nil before)
      (find-insert_at i k j n before (rw append-nil at e))
lookup-emplace i k n before (x ∷ after) prefix j e = ground (
  arith,
  find-append k before (x ∷ after),
  find-append j before (x ∷ after),
  find-append j (insert_at i (k, n) before) (x ∷ after),
  find-append j before (insert_at (i - length before) (k, n) (x ∷ after)),
  find-insert_at i k j n before,
  find-insert_at (i - length before) k j n (x ∷ after),
  same_iff k j,
)

random_key_prefix-emplace :
    (i : ℕ) (e : Bytes × Node) (before after : List (Bytes × Node)) (prefix : Bytes)
    → (emplace i e before after prefix).random_key_prefix ≡ prefix
unfolding emplace
random_key_prefix-emplace i e before [] prefix = refl
random_key_prefix-emplace i e before (x ∷ after) prefix = ground arith

module _ (slot : Slot) (node : Node) (s : MemberSet) where
  -- A node whose id is not there is added under it, and no other member changes.
  pub add-lookup :
      lookup s node.id ≡ none
      → (s' : MemberSet) × (add slot node s ≡ ok s')
        × ((j : Bytes) → lookup s' j ≡ (if same node.id j then some node else lookup s j))
  unfolding lookup add
  add-lookup e =
      let k = build_key s node.id in
      let i = slot (keys (members s)) k in
      (
        emplace i (k, node) s.before s.after s.random_key_prefix,
        rw (e, add) refl,
        λ j. ground (
          arith,
          lookup-emplace i k node s.before s.after s.random_key_prefix (build_key s j) e,
          random_key_prefix-emplace i (k, node) s.before s.after s.random_key_prefix,
          append_same s.random_key_prefix node.id j,
        ),
      )

  -- The assertion of `MemberSet::add` fails exactly on a node whose id is there.
  pub add_faults :
      (add slot node s ≡ fault assert_failed) ↔ ((n : Node) × (lookup s node.id ≡ some n))
  add_faults = (
    λ h. elim (Option-cases (lookup s node.id)) [
      | inl e ↦ let (s', q, _) = add-lookup e in cc
      | inr found ↦ found
    ],
    λ (n, e). unfold lookup add in rw (e, add) refl,
  )

size-emplace :
    (i : ℕ) (e : Bytes × Node) (before after : List (Bytes × Node)) (prefix : Bytes)
    → size (emplace i e before after prefix) ≡ suc (length (before ++ after))
unfolding emplace
size-emplace i e before [] prefix =
    rw (append-nil (insert_at i e before), append-nil before) (length-insert_at i e before)
size-emplace i e before (x ∷ after) prefix = ground (
  arith,
  length-append (insert_at i e before) (x ∷ after),
  length-append before (insert_at (i - length before) e (x ∷ after)),
  length-append before (x ∷ after),
  length-insert_at i e before,
  length-insert_at (i - length before) e (x ∷ after),
)

-- Every node that is added counts.
pub add-size :
    (slot : Slot) (node : Node) (s s' : MemberSet)
    → add slot node s ≡ ok s'
    → size s' ≡ suc (size s)
add-size slot node s s' h = elim (Option-cases (find (build_key s node.id) (members s))) [
  | inr (n, e) ↦
      let q : add slot node s ≡ fault assert_failed = unfold add in rw (e, add) refl in cc
  | inl e ↦
      let i = slot (keys (members s)) (build_key s node.id) in
      let q : add slot node s
          ≡ ok (emplace i (build_key s node.id, node) s.before s.after s.random_key_prefix) =
        unfold add in rw (e, add) refl in
      let same_set : emplace i (build_key s node.id, node) s.before s.after s.random_key_prefix
          ≡ s' =
        cc in
      rw (← same_set)
        (size-emplace i (build_key s node.id, node) s.before s.after s.random_key_prefix)
]
