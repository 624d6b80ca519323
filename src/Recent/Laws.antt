-- ===== src/Recent/Laws.antt =====
-- `add` of recently_updated_set.cpp, and the news that it keeps under each id.
use gossip_net.Prelude.{
  ◌≡◌, refl, ◌∙◌, inl, inr, some, none, Option, arith, Bytes, same, same_iff, ltb, Option-cases,
  if◌then◌else◌,
}
use gossip_net.Outcome.{ok}
use gossip_net.Node.{Node}
use gossip_net.Node.Order.{IsKnown, rank, lt-rank}
use gossip_net.Table.{Slot, keys, find, assign, insert_at}
use gossip_net.Table.Laws.{find-assign, find-insert_at}
use gossip_net.Recent.{RecentlyUpdatedSet, Member, fresh, add_known, add}

-- Every member stands under its own id, with a status and a version of the protocol.
pub record IsKeyed (m : RecentlyUpdatedSet) : Type 0 where
  pub keyed : (id : Bytes) (mem : Member) → find id m ≡ some mem → mem.node.id ≡ id
  pub known : (id : Bytes) (mem : Member) → find id m ≡ some mem → IsKnown mem.node

-- What `add` leaves under the id of the node that it is given.
unfoldable pub merged : Option Member → Node → Member
merged none node = fresh node
merged (some mem) node = if ltb (rank mem.node) (rank node) then fresh node else mem

module _ (slot : Slot) (node : Node) (m : RecentlyUpdatedSet) where
  add_new :
      find node.id m ≡ none
      → add slot node m ≡ ok (insert_at (slot (keys m) node.id) (node.id, fresh node) m)
  unfolding add
  add_new e = rw (e, add) refl

  add_old : {mem : Member} → find node.id m ≡ some mem → add slot node m ≡ add_known mem node m
  unfolding add
  add_old e = rw (e, add) refl

  -- In a sound set, for a node of known status and 64-bit version, `add` returns; a node under a
  -- new id or of a higher rank is put there with the count at zero, any other is dropped, and no
  -- other id is touched.
  pub add-merged :
      IsKeyed m
      → IsKnown node
      → (m' : RecentlyUpdatedSet) × (add slot node m ≡ ok m')
        × ((j : Bytes)
            → find j m'
              ≡ (if same node.id j then some (merged (find node.id m) node) else find j m))
  unfolding merged
  add-merged keyed known = elim (Option-cases (find node.id m)) [
    | inl e ↦ (
      insert_at (slot (keys m) node.id) (node.id, fresh node) m,
      add_new e,
      λ j. rw (find-insert_at (slot (keys m) node.id) node.id j (fresh node) m e, e) refl,
    )
    | inr (mem, e) ↦
        let newer = ltb (rank mem.node) (rank node) in
        (
          if newer then assign node.id (fresh node) m else m,
          add_old e
              ∙ (unfold add_known in
                  rw
                    (lt-rank mem.node node (keyed.known node.id mem e) known
                      (keyed.keyed node.id mem e))
                    refl),
          λ j. ground (arith, find-assign node.id j (fresh node) m, same_iff node.id j, e),
        )
  ]

module _ (slot : Slot) (node : Node) (m m' : RecentlyUpdatedSet) where
  pub add-IsKeyed : IsKeyed m → IsKnown node → add slot node m ≡ ok m' → IsKeyed m'
  unfolding merged
  add-IsKeyed keyed known e =
      let (r, e', found) = add-merged slot node m keyed known in
      record {
        keyed = λ id mem h.
            ground
              (arith, found id, keyed.keyed id mem, keyed.keyed node.id mem, same_iff node.id id);
        known = λ id mem h.
            ground
              (arith, found id, keyed.known id mem, keyed.known node.id mem, same_iff node.id id);
      }
