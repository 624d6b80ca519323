-- ===== src/Tests/Pings.antt =====
-- A ping from its bytes to its effect, and the arguments of one, on concrete ones.
use gossip_net.Prelude.{length, codes, List, [], ◌∷◌, ◌++◌}
use gossip_net.Outcome.Ends.{Ends}
use gossip_net.Wire.Accepted.{fields}
use gossip_net.Wire.Sent.{all_fields}
use gossip_net.Command.{parse_args, parse_req_args}
use gossip_net.Command.Effect.{self_text}
use gossip_net.Command.Taken.{nodes_of, req_nodes_of, Updated, update_parsed}
use gossip_net.Tests.{bob, carol, busy}
use gossip_net.Tests.Rumors.{busy-IsSound, busy-IsApart}
use gossip_net.Prelude.{◌≡◌, Bytes, arith}
use gossip_net.Decimal.{to_string, emit}
use gossip_net.Decimal.Int.{to_string_int}
use gossip_net.Resp.RoundTrip.{IsSmall, encode}
use gossip_net.Wire.Accepted.{as_alive, spaced}
use gossip_net.Resp.{RespRequest}
use gossip_net.Net.Lone.{IsLone}
use gossip_net.Net.{GossipNet}
use gossip_net.Command.{ping_req_command, name}
use gossip_net.Server.{handle}
use gossip_net.Server.Heard.{request, said}
use gossip_net.Server.Asks.{Asks, ping_req-Asks}
use gossip_net.Tests.Lives.{env-IsPops, older, grown, made}
use gossip_net.Tests.{alice, env}
use gossip_net.Tests.Messages.{alice-IsSized, bob-IsSized, carol-IsSized}
use gossip_net.Tests.Commands.{commands}

-- alice asks about bob, and tells of carol and alice.
abbrev asked : RespRequest
asked = request ping_req_command (λ n. codes "ALIVE") alice bob (carol ∷ alice ∷ [])

asked-IsSmall : IsSmall asked
unfolding to_string_int to_string emit name spaced
asked-IsSmall = record { name_fits = omega arith; args_fit = ground arith; few = omega arith }

ping_req-Asks_example :
    (net : GossipNet) × Updated env (said alice (carol ∷ alice ∷ [])) older net
    × (net.events ≡ older.events)
    × (net.tasks ≡ older.tasks)
    × (IsLone net → ⊥)
    × Asks env
        (record { dest = as_alive alice; peer = as_alive bob })
        net
        (handle env commands (encode asked) older)
ping_req-Asks_example =
    ping_req-Asks (λ ks k. length ks) commands made bob 7 2 1000 older grown env env-IsPops
      (λ n. codes "ALIVE") alice bob (carol ∷ alice ∷ []) alice-IsSized bob-IsSized
      (carol-IsSized, (alice-IsSized, tt)) asked-IsSmall

abbrev rumor_args : List Bytes
rumor_args = fields self_text alice ++ all_fields (bob ∷ carol ∷ [])

update_parsed_example :
    Ends (λ a. (net : GossipNet) × Updated env (nodes_of a) busy net) (parse_args rumor_args)
    × Ends
        (λ a. (net : GossipNet) × Updated env (req_nodes_of a) busy net)
        (parse_req_args rumor_args)
update_parsed_example = update_parsed env rumor_args busy busy-IsSound busy-IsApart
