-- ===== src/Net/Fill.antt =====
-- The end of `_build_rumors` of gossip_net.cpp, where the message is filled up from the members: only
-- their cursor moves.
use gossip_net.Prelude.{◌≡◌, ◌-◌, refl, inl, inr, List, ◌++◌, Bytes, length, ltb, ◌==◌, Bool-cases}
use gossip_net.Outcome.{Outcome, ok, throws, fault}
use gossip_net.Outcome.Ends.{Ends}
use gossip_net.Exec.{continue}
use gossip_net.Exec.Runs.{Runs, Any}
use gossip_net.Node.{Node}
use gossip_net.Members
use gossip_net.Members.{MemberSet, members}
use gossip_net.Members.Rotation.{fetch-Ends}
use gossip_net.Members.Update.{lookup}
use gossip_net.Net.{GossipNet, fill_rumors}

module _ (P : GossipNet → Type 0)
    (found : (net net' : GossipNet)
      → ((j : Bytes) → lookup net'.members j ≡ lookup net.members j)
      → net'.recent ≡ net.recent
      → net'.tasks ≡ net.tasks
      → P net
      → P net') where
  fetched_members-Runs :
      (rumors : List Node) (net : GossipNet) (r : Outcome (MemberSet × List Node))
      → Ends
          (λ q.
            (members q.0 ≡ members net.members)
            × (q.0.random_key_prefix ≡ net.members.random_key_prefix))
          r
      → P net
      → Ends {A = List Node} Any
          (continue {S = GossipNet} r
            (λ q n. (ok (rumors ++ q.1), record n { members = q.0 }))
            net).0
        × P
            (continue {S = GossipNet} r
              (λ q n. (ok (rumors ++ q.1), record n { members = q.0 }))
              net).1
  fetched_members-Runs rumors net (ok q) e w =
      (tt, found net _ (λ j. unfold lookup in rw (e.0, e.1) refl) refl refl w)
  fetched_members-Runs rumors net (throws e) h w = (tt, w)
  fetched_members-Runs rumors net (fault x) h w = (h, w)

  pub fill_rumors-Runs : (rumors : List Node) → Runs P Any (fill_rumors rumors)
  unfolding fill_rumors
  fill_rumors-Runs rumors net w = elim (Bool-cases (length rumors == net.max_rumor_num)) [
    | inl full ↦ rw full (tt, w)
    | inr more ↦ elim (Bool-cases (ltb (length rumors) net.max_rumor_num)) [
      | inl below ↦
          rw (more, below)
            (fetched_members-Runs rumors net
              (Members.fetch (net.max_rumor_num - length rumors) net.members)
              (fetch-Ends (net.max_rumor_num - length rumors) net.members) w)
      | inr above ↦ rw (more, above) (tt, w)
    ]
  ]
