-- ===== src/Tests/Commands.antt =====
-- Commands, datagrams and tasks, on concrete ones.
use gossip_net.Prelude.{◌≡◌, ◌≢◌, ◌⊎◌, refl, some, [], ◌∷◌, ◌++◌, codes, same}
use gossip_net.Outcome.{Error, ok, throws, fault, out_of_bounds}
use gossip_net.Node.{parse_status, unknown}
use gossip_net.Table.{find}
use gossip_net.Resp.RoundTrip.{encode}
use gossip_net.Wire.Accepted.{fields}
use gossip_net.Wire.Sent.{all_fields}
use gossip_net.Command.{ping_command, ping_req_command, ack_command, parse_args, parse_req_args}
use gossip_net.Command.Effect.{self_text, peer_text, parse_args-rumors, parse_req_args-fields}
use gossip_net.Server.{Commands, handle}
use gossip_net.Server.Handling.{handle-pipelined}
use gossip_net.Tests.{alice, bob, carol, env, lone, task, greeting}
use gossip_net.Tests.Requests.{greeting-IsSmall}
use gossip_net.Tests.Messages.{alice-IsSized, bob-IsSized, carol-IsSized}

abbrev pub commands : Commands
commands =
    (codes "ping", ping_command)
    ∷ (codes "ping-req", ping_req_command)
    ∷ (codes "ack", ack_command)
    ∷ []

bob_unknown : parse_status bob.id ≡ unknown
unfolding parse_status
bob_unknown = refl

parse_args-rumors_example :
    ((parse_status bob.id ≡ unknown)
      × ((e : Error) × (parse_args (fields self_text alice ++ all_fields (bob ∷ carol ∷ []))
            ≡ throws e)))
    ⊎ ((parse_status bob.id ≢ unknown)
        × (parse_args (fields self_text alice ++ all_fields (bob ∷ carol ∷ []))
            ≡ fault out_of_bounds))
parse_args-rumors_example =
    parse_args-rumors alice bob (carol ∷ []) alice-IsSized (bob-IsSized, (carol-IsSized, tt))

parse_req_args-fields_example :
    (e : Error) × (parse_req_args
        (fields self_text alice ++ fields peer_text bob ++ all_fields (carol ∷ []))
      ≡ throws e)
parse_req_args-fields_example =
    parse_req_args-fields alice bob (carol ∷ []) alice-IsSized bob_unknown

handle-pipelined_example :
    handle env commands (encode greeting ++ encode greeting) lone ≡ (ok tt, lone)
handle-pipelined_example = handle-pipelined env commands lone greeting greeting greeting-IsSmall

find_waiting :
    find (codes "bob") lone.tasks.task_index ≡ some (record { task = some task; time = 50 } ∷ [])
unfolding find same
find_waiting = refl
