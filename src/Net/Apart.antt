-- ===== src/Net/Apart.antt =====
-- `_build_rumors` and `update`, and the ids that stand in the two sets.
use gossip_net.Prelude.{◌≡◌, refl, ◌⊎◌, inl, inr, some, none, List, [], ◌∷◌, arith, Bytes, All}
use gossip_net.Outcome.{ok}
use gossip_net.Node.{Node}
use gossip_net.Node.Order.{IsKnown}
use gossip_net.Table.{find}
use gossip_net.Recent
use gossip_net.Recent.{RecentlyUpdatedSet, Fetched, Pops}
use gossip_net.Recent.Laws.{add-merged}
use gossip_net.Members
use gossip_net.Members.{MemberSet, size}
use gossip_net.Members.Update.{lookup, try_update-news}
use gossip_net.Net.{Env, GossipNet, update_one, update_recent, update}
use gossip_net.Net.Converge.{update_cons}
use gossip_net.Net.Merge.{IsSound, news_cases, update_one-Heard}

-- No id is in both sets.
pub record IsApart (net : GossipNet) : Type 0 where
  pub apart : (j : Bytes) → (find j net.recent ≡ none) ⊎ (lookup net.members j ≡ none)

pub update_one_dropped :
    (env : Env) (rumor : Node) (net : GossipNet) (s : MemberSet)
    → Members.try_update rumor net.members ≡ ok (s, none)
    → update_one env rumor net ≡ (ok tt, record net { members = s })
unfolding update_one update_recent
update_one_dropped env rumor net s e = rw e refl

pub update_one_taken :
    (env : Env) (rumor : Node) (net : GossipNet) (s : MemberSet) (m : RecentlyUpdatedSet)
    → Members.try_update rumor net.members ≡ ok (s, some rumor)
    → Recent.add env.slot rumor net.recent ≡ ok m
    → update_one env rumor net ≡ (ok tt, record net { members = s; recent = m })
unfolding update_one update_recent
update_one_taken env rumor net s m e f = rw (e, f) refl

-- One rumor keeps the sets apart: where it is news, its id leaves the members.
pub update_one-IsApart :
    (env : Env) (rumor : Node) (net : GossipNet)
    → IsSound net
    → IsKnown rumor
    → IsApart net
    → IsApart (update_one env rumor net).1
update_one-IsApart env rumor net sound known apart =
    let (s', runs, found) = try_update-news rumor net.members sound.members_keyed known in
    let (m', added, found_recent) = add-merged env.slot rumor net.recent sound.recent_keyed known in
    elim (news_cases (lookup net.members rumor.id) rumor) [
      | inl (old, _) ↦
          rw (update_one_dropped env rumor net s' (rw old at runs))
            (record { apart = λ j. ground (arith, apart.apart j, found j, old) })
      | inr (new, _) ↦
          rw (update_one_taken env rumor net s' m' (rw new at runs) added)
            (record { apart = λ j. ground (arith, apart.apart j, found j, found_recent j, new) })
    ]

-- For sound sets and rumors of known status and 64-bit version, `update` keeps the two sets
-- without a common id.
pub update-IsApart :
    (env : Env) (rumors : List Node) (net : GossipNet)
    → IsSound net
    → IsApart net
    → All IsKnown rumors
    → IsApart (update env rumors net).1
update-IsApart env [] net sound apart known = unfold update in apart
update-IsApart env (r ∷ rs) net sound apart known =
    let (n, h) = update_one-Heard env r net sound known.0 in
    let one = rw h.runs at (update_one-IsApart env r net sound known.0 apart) in
    rw (update_cons env r rs net n h.runs) (update-IsApart env rs n h.sound one known.1)
