-- ===== src/Tests/Stories.antt =====
-- What members come to know, alone and in a cluster.
use gossip_net.Prelude.{ℕ, ◌≡◌, refl, [], ◌∷◌, codes, same, arith}
use gossip_net.Table.{find, insert_at}
use gossip_net.Recent
use gossip_net.Members
use gossip_net.Members.Update.{lookup}
use gossip_net.Node.{Node}
use gossip_net.Net.{Env, update, update_one, update_recent}
use gossip_net.Net.Whole.{IsPops}
use gossip_net.Net.Story.{known_of}
use gossip_net.Server.Calls.{Call, ping_call, update_call, perform}
use gossip_net.Server.Life.{created}
use gossip_net.Server.Lossless.{KnownAfter, perform-known}
use gossip_net.Cluster.{Cluster, put, calls, Steps, none_yet, then_step, founded}
use gossip_net.Cluster.Alone.{Says, known_of-told}
use gossip_net.Tests.{alice, bob, env}
use gossip_net.Tests.Merging.{alice-IsKnown}
use gossip_net.Tests.Commands.{commands}
use gossip_net.Tests.Lives.{env-IsPops, older, grown}

perform-known_example :
    KnownAfter
      (known_of older (codes "alice"))
      (known_of (perform env commands (ping_call bob) older).1 (codes "alice"))
perform-known_example =
    perform-known commands bob 7 2 1000 older grown env env-IsPops (ping_call bob) tt
      (codes "alice")

-- A cluster in which the users of the first member tell it of alice.
abbrev names : ℕ → Node
names i = bob

abbrev start : Cluster
start = founded names (λ i. 7) 3 1000

abbrev told : Cluster
told = put 0 (perform env commands (update_call (alice ∷ [])) (start.member 0)).1 start

abbrev IsAlice : Node → Type 0
IsAlice n = n ≡ alice

abbrev Speaks : ℕ → Env → Call → Type 0
Speaks i e call = IsPops e.pops × Says IsAlice call

talk : Steps commands Speaks start told
unfolding perform created update update_one update_recent Members.try_update find Recent.add
talk = then_step none_yet told (
    calls 0 env (update_call (alice ∷ [])) tt (env-IsPops, ((alice-IsKnown, refl), tt)) tt told
      refl)

known_of-told_example : IsAlice alice
unfolding perform created update update_one update_recent Members.try_update find Recent.add lookup
    same insert_at
known_of-told_example =
    known_of-told commands Speaks names (λ i. 7) 3 1000 told 0 IsAlice (omega arith) (λ e call h. h)
      talk (codes "alice") alice refl
