-- ===== src/Tests/Lives.antt =====
-- A member from its constructor on, through a few calls.
use gossip_net.Prelude.{length, arith, ◌≡◌, refl, some, [], ◌∷◌, codes, same}
use gossip_net.Outcome.{ok, fault, assert_failed}
use gossip_net.Table.{find, insert_at}
use gossip_net.Recent
use gossip_net.Pending
use gossip_net.Members.{try_update}
use gossip_net.Net.{GossipNet, update, update_one, update_recent, add_task, do_task}
use gossip_net.Net.Lone.{IsLone}
use gossip_net.Net.Whole.{IsWhole, IsPops}
use gossip_net.Server.Calls.{update_call, add_call, perform}
use gossip_net.Server.Life.{created, Reach, stay, after, reached-IsWhole}
use gossip_net.Server.Spent.{do_task_again}
use gossip_net.Outcome.Ends.{Survives}
use gossip_net.Decimal.{to_string, emit}
use gossip_net.Decimal.Int.{to_string_int}
use gossip_net.Resp.RoundTrip.{IsSmall, encode}
use gossip_net.Wire.Accepted.{as_alive, spaced}
use gossip_net.Command.{name, ping_command}
use gossip_net.Command.Taken.{Updated}
use gossip_net.Net.Answers.{Answers}
use gossip_net.Server.{register_command, register_all, handle}
use gossip_net.Server.Heard.{request, said}
use gossip_net.Server.Exchange.{ping-Wrote}
use gossip_net.Net.Written.{Wrote, Writes}
use gossip_net.Server.Written.{reached-Writes}
use gossip_net.Tests.{alice, bob, carol, env, task}
use gossip_net.Tests.Messages.{alice-IsSized, carol-IsSized}
use gossip_net.Tests.Merging.{alice-IsKnown}
use gossip_net.Tests.Commands.{commands}

pub env-IsPops : IsPops env.pops
env-IsPops m d = record { once = d; same_elements = λ j. refl }

abbrev pub young : GossipNet
young = created bob 7 2 1000

abbrev pub older : GossipNet
older = (perform env commands (update_call (alice ∷ [])) young).1

pub survived : Survives (perform env commands (update_call (alice ∷ [])) young).0
unfolding perform created update update_one update_recent try_update find Recent.add
survived = tt

abbrev pub grown : Reach commands young older
grown = after stay env env-IsPops (update_call (alice ∷ [])) (alice-IsKnown, tt) survived older refl

reached-IsWhole_example : IsWhole older
reached-IsWhole_example = reached-IsWhole commands bob 7 2 1000 older grown

reached-Writes_example : Writes env (codes "ack") carol bob older
reached-Writes_example =
    reached-Writes commands bob 7 2 1000 older grown env env-IsPops (codes "ack") carol bob

abbrev tasked : GossipNet
tasked = (perform env commands (add_call task) older).1

abbrev tasked_again : GossipNet
tasked_again = (perform env commands (add_call task) (do_task env (codes "bob") tasked).1).1

gets_task : Reach commands young tasked
unfolding perform created update update_one update_recent try_update find Recent.add add_task
    Pending.add
gets_task = after grown env env-IsPops (add_call task) tt tt tasked refl

gets_another : Reach commands (do_task env (codes "bob") tasked).1 tasked_again
unfolding perform add_task
gets_another = after stay env env-IsPops (add_call task) tt tt tasked_again refl

waits :
    find (codes "bob") tasked.tasks.task_index
    ≡ some (record { task = some task; time = env.now } ∷ [])
unfolding perform created update update_one update_recent try_update Recent.add add_task Pending.add
    find same insert_at
waits = refl

-- Another task was added between the two.
do_task_again_example : (do_task env (codes "bob") tasked_again).0 ≡ fault assert_failed
do_task_again_example =
    do_task_again commands bob 7 2 1000 tasked tasked_again env env (codes "bob")
      (record { task = some task; time = env.now }) [] env-IsPops gets_task waits gets_another

speaks-IsSmall : IsSmall (request ping_command (λ n. codes "ALIVE") alice alice (carol ∷ []))
unfolding to_string_int to_string emit name spaced
speaks-IsSmall = record { name_fits = omega arith; args_fit = ground arith; few = omega arith }

pub made : register_all (λ ks k. length ks) ≡ ok commands
unfolding register_all register_command name find same insert_at
made = refl

ping-Wrote_example :
    (net : GossipNet) × Updated env (said alice (carol ∷ [])) older net
    × (net.events ≡ older.events)
    × (IsLone net → ⊥)
    × Wrote env (codes "ack") (as_alive alice) net.self net (
        handle env commands
          (encode (request ping_command (λ n. codes "ALIVE") alice alice (carol ∷ [])))
          older)
ping-Wrote_example =
    ping-Wrote (λ ks k. length ks) commands made bob 7 2 1000 older grown env env-IsPops
      (λ n. codes "ALIVE") alice (carol ∷ []) alice-IsSized (carol-IsSized, tt) speaks-IsSmall
