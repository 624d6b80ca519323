-- ===== src/Server/Written.antt =====
-- What a member sends by `ack` and `ping` of gossip_net.cpp after whatever calls.
use gossip_net.Prelude.{ℕ, refl, Bytes}
use gossip_net.Node.{Node}
use gossip_net.Node.Order.{IsKnown}
use gossip_net.Net.{Env, GossipNet}
use gossip_net.Net.Steady.{IsSteady-weaken}
use gossip_net.Net.Whole.{IsWhole-same, IsPops}
use gossip_net.Net.Known.{IsFull, IsFull-Steady}
use gossip_net.Net.Written.{Writes, send_message-Writes}
use gossip_net.Server.{Commands}
use gossip_net.Server.Life.{created, created-IsWhole, Reach, Reach-kept}

created-IsFull : (self : Node) (seed n timeout : ℕ) → IsFull IsKnown (created self seed n timeout)
unfolding created
created-IsFull self seed n timeout =
    (created-IsWhole self seed n timeout, record { members = tt; recent = tt; waiting = refl })

-- Whatever calls lead to, every node is of a known status and version.
pub reached-IsFull :
    (commands : Commands) (me : Node) (seed n timeout : ℕ) (net : GossipNet)
    → Reach commands (created me seed n timeout) net
    → IsFull IsKnown net
reached-IsFull commands me seed n timeout net reached =
    Reach-kept (IsFull IsKnown)
      (λ env pops. IsSteady-weaken _ _ _ _ (λ n h. (h, h)) (IsFull-Steady IsKnown env pops))
      (λ net (w, f). (
        IsWhole-same net _ (λ j. refl) refl w.orderly w,
        record { members = f.members; recent = f.recent; waiting = refl },
      ))
      reached (created-IsFull me seed n timeout)

-- In every state that calls lead to from the constructor, datagrams of any bytes among them, a message
-- of `ack` or `ping`, under whatever name and for whatever node, is not made, with nothing more to
-- send, if no member is known at all, so that the logarithm of 0 is cast to an integer; or if the
-- recently updated members to spread do not fill it and are, together with the members, the new stable
-- ones included, as many as fit in it, so that an assertion fails, or more, and 2 ^ 32 or more members
-- are asked for, so that a counter of 32 bits never meets its end. Otherwise nothing is thrown and
-- exactly one datagram more waits to be sent, behind the others: to the address of that node, an array
-- of simple strings, the name and the arguments in the documented order, as many as it declares, with
-- no more rumors than fit in a message, each with a status and a version of 64 bits. A user's own
-- rumors have a status and a version of 64 bits, and the queue gives up each element once.
pub reached-Writes :
    (commands : Commands) (me : Node) (seed n timeout : ℕ) (net : GossipNet)
    → Reach commands (created me seed n timeout) net
    → (env : Env) → IsPops env.pops
    → (name : Bytes) (dest self : Node) → Writes env name dest self net
reached-Writes commands me seed n timeout net reached env pops name dest self =
    send_message-Writes env pops name dest self net
      (reached-IsFull commands me seed n timeout net reached)
