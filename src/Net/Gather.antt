-- ===== src/Net/Gather.antt =====
-- `_build_rumors`: the fetch from the recently updated members, and the stable ones that become members.
use gossip_net.Prelude.{
  ap, sym, ◌≡◌, refl, ◌∙◌, inl, inr, some, none, Option, List, [], ◌∷◌, Bytes, same, same_refl,
  same→eq, Bool-cases, Option-cases, if◌then◌else◌,
}
use gossip_net.Outcome.{ok}
use mathlib.Core.Path.{subst}
use gossip_net.Node.{Node}
use gossip_net.Node.Order.{IsKnown}
use gossip_net.Table.{find}
use gossip_net.Table.Laws.{IsDistinct}
use gossip_net.Recent.{RecentlyUpdatedSet, Fetched, Pops}
use gossip_net.Recent.Settled.{by_id, Settled}
use gossip_net.Recent.Handover.{fetch-Settled}
use gossip_net.Members
use gossip_net.Members.{MemberSet, size}
use gossip_net.Members.Update.{lookup, add-lookup}
use gossip_net.Net.{Env, GossipNet, add_members, fetch_recent}
use gossip_net.Net.Merge.{IsSound}
use gossip_net.Recent.Kept.{NodeOf, Kept, fetch-Kept}
use gossip_net.Net.Apart.{IsApart}

pub add_members_cons :
    (env : Env) (n : Node) (ns : List Node) (net : GossipNet) (s : MemberSet)
    → Members.add env.slot n net.members ≡ ok s
    → add_members env (n ∷ ns) net ≡ add_members env ns (record net { members = s })
add_members_cons env n ns net s e = unfold add_members in rw e refl

abbrev pub or_else : Option Node → Option Node → Option Node
or_else none o = o
or_else (some n) o = some n

-- What the members are after nodes were added under their ids.
abbrev pub joined : List Node → MemberSet → Bytes → Option Node
joined ns s j = or_else (find j (by_id ns)) (lookup s j)

module _ (n : Node) (ns : List Node) (first : find n.id (by_id ns) ≡ none) (t s : MemberSet)
    (found : (j : Bytes) → lookup s j ≡ (if same n.id j then some n else lookup t j)) where
  joined-new :
      ((j : Bytes) (x : Node) → find j (by_id (n ∷ ns)) ≡ some x → lookup t j ≡ none)
      → (j : Bytes) (x : Node) → find j (by_id ns) ≡ some x
      → lookup s j ≡ none
  unfolding find
  joined-new new j x h = elim (Bool-cases (same n.id j)) [
    | inl hit ↦ let q = subst (λ i. find i (by_id ns) ≡ none) (same→eq n.id j hit) first in cc
    | inr miss ↦ found j ∙ (rw miss (new j x (rw miss h)))
  ]

  joined-cons : (j : Bytes) → joined ns s j ≡ joined (n ∷ ns) t j
  unfolding find
  joined-cons j = elim (Bool-cases (same n.id j)) [
    | inl hit ↦
        let q = subst (λ i. find i (by_id ns) ≡ none) (same→eq n.id j hit) first in
        rw (q, hit) (found j ∙ (rw hit refl))
    | inr miss ↦ rw (found j, miss) refl
  ]

-- Nodes of distinct ids, none of them that of a member, all become members.
add_members_lem :
    (env : Env) (ns : List Node) (net : GossipNet)
    → IsDistinct (by_id ns)
    → ((j : Bytes) (n : Node) → find j (by_id ns) ≡ some n → lookup net.members j ≡ none)
    → (s' : MemberSet) × (add_members env ns net ≡ (ok tt, record net { members = s' }))
      × ((j : Bytes) → lookup s' j ≡ joined ns net.members j)
unfolding find
add_members_lem env [] net d new = (net.members, unfold add_members in refl, λ j. refl)
add_members_lem env (n ∷ ns) net d new =
    let (s, e, found) = add-lookup env.slot n net.members (new n.id n (rw (same_refl n.id) refl)) in
    let (s', e', found') =
      add_members_lem env ns (record net { members = s }) d.1
        (joined-new n ns d.0 net.members s found new) in
    (
      s',
      add_members_cons env n ns net s e ∙ e',
      λ j. found' j ∙ joined-cons n ns d.0 net.members s found j,
    )

-- The queue gives up each element of the set once.
pub record IsQueue (pops : Pops) (m : RecentlyUpdatedSet) : Type 0 where
  pub once : IsDistinct (pops m)
  pub same_elements : (j : Bytes) → find j (pops m) ≡ find j m

module _ (net : GossipNet) (r : Fetched) (sound : IsSound net) (kept : Kept net.recent r) where
  old_node : (j : Bytes) (n : Node) → NodeOf net.recent j n → (n.id ≡ j) × IsKnown n
  old_node j n (y, h, e) = (
    ap (λ x. x.id) e ∙ sound.recent_keyed.keyed j y h,
    subst IsKnown (sym e) (sound.recent_keyed.known j y h),
  )

  joined_node :
      (j : Bytes) (n : Node) → joined r.stable net.members j ≡ some n → (n.id ≡ j) × IsKnown n
  joined_node j n h = elim (Option-cases (find j (by_id r.stable))) [
    | inr (n', e) ↦ let q : some n' ≡ some n = rw e at h in old_node j n (kept.leaving j n (e ∙ q))
    | inl e ↦
        let q : lookup net.members j ≡ some n = rw e at h in
        (sound.members_keyed.keyed j n q, sound.members_keyed.known j n q)
  ]

  IsSound-joined :
      (s : MemberSet)
      → ((j : Bytes) → lookup s j ≡ joined r.stable net.members j)
      → IsSound (record net { recent = r.members; members = s })
  IsSound-joined s found = record {
    members_keyed = record {
      keyed = λ j n h. (joined_node j n (sym (found j) ∙ h)).0;
      known = λ j n h. (joined_node j n (sym (found j) ∙ h)).1;
    };
    recent_keyed = record {
      keyed = λ j x h. (old_node j x.node (kept.staying j x h)).0;
      known = λ j x h. (old_node j x.node (kept.staying j x h)).1;
    };
  }

pub add_members-Settled :
    (env : Env) (net : GossipNet) (r : Fetched)
    → IsSound net
    → IsApart net
    → Settled net.recent [] r
    → Kept net.recent r
    → (net' : GossipNet) × (add_members env r.stable (record net { recent = r.members })
        ≡ (ok tt, net'))
      × ((j : Bytes) → lookup net'.members j ≡ joined r.stable net.members j)
      × IsSound net'
      × IsApart net'
      × (net'.recent ≡ r.members)
      × (net'.tasks ≡ net.tasks)
add_members-Settled env net r sound apart settled kept =
    let (s', e, found) =
      add_members_lem env r.stable (record net { recent = r.members }) settled.distinct
        (λ j n h. elim (apart.apart j) [
          | inl absent ↦ let q = (settled.old j absent).0 in cc
          | inr free ↦ free
        ]) in
    (
      record net { recent = r.members; members = s' },
      e,
      found,
      IsSound-joined net r sound kept s' found,
      record {
        apart = λ j. elim (Option-cases (find j (by_id r.stable))) [
          | inr (n, h) ↦ inl (settled.gone j n h).0
          | inl other ↦ elim (apart.apart j) [
            | inl absent ↦ inl (settled.old j absent).1
            | inr free ↦ inr (found j ∙ (rw other free))
          ]
        ];
      },
      refl,
      refl,
    )

pub fetch_recent_lem :
    (env : Env) (net : GossipNet)
    → IsSound net
    → IsDistinct net.recent
    → IsQueue env.pops net.recent
    → Settled net.recent [] (fetch_recent env net) × Kept net.recent (fetch_recent env net)
unfolding fetch_recent
fetch_recent_lem env net sound d q = (
  fetch-Settled net.recent (λ j x h. sound.recent_keyed.keyed j x h) env.pops net.max_rumor_num _ d
      q.once q.same_elements,
  fetch-Kept net.recent (λ j x h. sound.recent_keyed.keyed j x h) env.pops net.max_rumor_num _ d
      q.once q.same_elements,
)

-- In `_build_rumors` the assertion of `MemberSet::add` never fails: if the two sets are sound and
-- no id is in both, all the stable rumors become members, no other member changes, and again the
-- two sets are sound and no id is in both. The ids of the recently updated members are taken to be
-- distinct, and the queue to give up each of them once.
pub add_members-IsApart :
    (env : Env) (net : GossipNet)
    → IsSound net
    → IsApart net
    → IsDistinct net.recent
    → IsQueue env.pops net.recent
    → (net' : GossipNet) × (add_members env
          (fetch_recent env net).stable
          (record net { recent = (fetch_recent env net).members })
        ≡ (ok tt, net'))
      × ((j : Bytes) → lookup net'.members j ≡ joined (fetch_recent env net).stable net.members j)
      × IsSound net'
      × IsApart net'
add_members-IsApart env net sound apart d q =
    let (settled, kept) = fetch_recent_lem env net sound d q in
    let (net', e, found, sound', apart', _, _) =
      add_members-Settled env net (fetch_recent env net) sound apart settled kept in
    (net', e, found, sound', apart')
