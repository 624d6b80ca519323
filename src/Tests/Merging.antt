-- ===== src/Tests/Merging.antt =====
-- The merging of rumors, on concrete ones.
use gossip_net.Prelude.{◌≡◌, refl, [], ◌∷◌, arith, Bytes, ltb}
use mathlib.Core.List.{Permᴰ}
use gossip_net.Outcome.{ok}
use gossip_net.Node.{lt}
use gossip_net.Node.Order.{IsKnown, rank, lt-rank}
use gossip_net.Table.{find}
use gossip_net.Members.Update.{lookup}
use gossip_net.Net.{GossipNet, update}
use gossip_net.Net.Merge.{IsSound, view, all_heard}
use gossip_net.Net.Converge.{update-view, update_converges}
use gossip_net.Tests.{alice, newer_alice, bob, env, late_env, lone, other}

pub alice-IsKnown : IsKnown alice
alice-IsKnown = record { known = refl; fits = omega arith }

pub newer_alice-IsKnown : IsKnown newer_alice
newer_alice-IsKnown = record { known = refl; fits = omega arith }

bob-IsKnown : IsKnown bob
bob-IsKnown = record { known = refl; fits = omega arith }

pub lone-IsSound : IsSound lone
unfolding lookup find
lone-IsSound = record {
  members_keyed = record { keyed = λ id n h. cc; known = λ id n h. cc };
  recent_keyed = record { keyed = λ id n h. cc; known = λ id n h. cc };
}

other-IsSound : IsSound other
unfolding lookup find
other-IsSound = record {
  members_keyed = record { keyed = λ id n h. cc; known = λ id n h. cc };
  recent_keyed = record { keyed = λ id n h. cc; known = λ id n h. cc };
}

views_agree : (id : Bytes) → view lone id ≡ view other id
unfolding view lookup find
views_agree id = refl

update_converges_example :
    (a : GossipNet) × (b : GossipNet) × (update env (alice ∷ newer_alice ∷ bob ∷ []) lone
      ≡ (ok tt, a))
    × (update late_env (newer_alice ∷ alice ∷ bob ∷ []) other ≡ (ok tt, b))
    × ((id : Bytes) → view a id ≡ view b id)
update_converges_example =
    update_converges env late_env (alice ∷ newer_alice ∷ bob ∷ []) (newer_alice ∷ alice ∷ bob ∷ [])
      lone other lone-IsSound other-IsSound
      (alice-IsKnown, (newer_alice-IsKnown, (bob-IsKnown, tt)))
      (newer_alice-IsKnown, (alice-IsKnown, (bob-IsKnown, tt))) views_agree
      ∣ Permᴰ.swap refl refl ∣₁

update-view_example :
    (net : GossipNet) × (update env (newer_alice ∷ alice ∷ bob ∷ []) lone ≡ (ok tt, net))
    × IsSound net
    × ((id : Bytes) → view net id ≡ all_heard id (newer_alice ∷ alice ∷ bob ∷ []) (view lone id))
update-view_example =
    update-view env (newer_alice ∷ alice ∷ bob ∷ []) lone lone-IsSound
      (newer_alice-IsKnown, (alice-IsKnown, (bob-IsKnown, tt)))

lt-rank_example : lt alice newer_alice ≡ ok (ltb (rank alice) (rank newer_alice))
lt-rank_example = lt-rank alice newer_alice alice-IsKnown newer_alice-IsKnown refl
