-- ===== src/Tests/Clusters.antt =====
-- A cluster in which the first member pings the second; and a set to fetch from.
use gossip_net.Prelude.{
  ℕ, ◌≡◌, refl, List, [], ◌∷◌, Bytes, arith, codes, take, same, ◌==◌, ◌++◌, if◌then◌else◌,
}
use gossip_net.Node.{Node}
use gossip_net.Table.{find, erase, insert_at}
use gossip_net.Recent
use gossip_net.Recent.{RecentlyUpdatedSet, Member, visit, erased, spread}
use gossip_net.Recent.Fate.{Fate}
use gossip_net.Recent.Order.{fetch_order}
use gossip_net.Members
use gossip_net.Members.{members, try_update}
use gossip_net.Net.{
  Env, update, update_one, update_recent, ping, send_message, gather_rumors, build_rumors,
  fetch_recent, add_members, fill_rumors, message, append_node, append_rumors, send,
}
use mathlib.Core.List.{Memᴰ}
use gossip_net.Decimal.Int.{pos, to_string_int}
use gossip_net.Decimal.{to_string}
use gossip_net.Resp.Builder.{append_simple_string, append_array}
use gossip_net.Outcome.{ok}
use gossip_net.Server.{on_event, on_read}
use gossip_net.Server.Calls.{Call, update_call, ping_call, perform}
use gossip_net.Server.Life.{created}
use gossip_net.Cluster.{
  Cluster, put, contents, calls, hands_over, Steps, none_yet, then_step, founded,
}
use gossip_net.Cluster.Silent.{sent-on_read}
use gossip_net.Cluster.Alone.{Alone, founded-Alone}
use gossip_net.Tests.{alice, bob, carol, env, two_recent}
use gossip_net.Tests.Sets.{two-IsDistinct}
use gossip_net.Tests.Commands.{commands}

abbrev names : ℕ → Node
names i = if i == 0 then alice else bob

abbrev start : Cluster
start = founded names (λ i. 7) 3 1000

-- Alice is told of carol, and then she is to ping bob.
abbrev told : Cluster
told = put 0 (perform env commands (update_call (carol ∷ [])) (start.member 0)).1 start

abbrev pinged : Cluster
pinged = put 0 (perform env commands (ping_call bob) (told.member 0)).1 told

abbrev handed : Cluster
handed = record (put 0 (on_event (pinged.member 0)).0 pinged) {
  sent = contents (on_event (pinged.member 0)).1;
}

-- The one datagram.
abbrev joined : List Bytes → Bytes
joined [] = []
joined (b ∷ bs) = b ++ joined bs

is_sent : Memᴰ (take 500 (joined handed.sent)) handed.sent
unfolding perform created update update_one update_recent try_update find Recent.add ping
    send_message build_rumors gather_rumors fetch_recent add_members fill_rumors message append_node
    append_rumors send Recent.fetch Recent.fetch_all visit insert_at Members.fetch on_event
    append_simple_string append_array to_string_int to_string
is_sent = Memᴰ.head refl

abbrev Freely : ℕ → Env → Call → Type 0
Freely i e call = Unit

walk : Steps commands Freely start handed
unfolding perform created update update_one update_recent try_update find Recent.add ping
    send_message build_rumors gather_rumors fetch_recent add_members fill_rumors message append_node
    append_rumors send Recent.fetch Recent.fetch_all visit insert_at Members.fetch
walk =
    then_step
      (then_step
        (then_step none_yet told (calls 0 env (update_call (carol ∷ [])) tt tt tt told refl)) pinged
        (calls 0 env (ping_call bob) tt tt tt pinged refl))
      handed (hands_over 0 handed refl)

sent-on_read_example :
    on_read env commands (pos 500) (joined handed.sent) (handed.member 1) ≡ (ok tt, handed.member 1)
sent-on_read_example =
    sent-on_read commands Freely names (λ i. 7) 3 1000 handed env 1 500 (joined handed.sent)
      (omega arith) walk is_sent

-- Alice was spread less often than carol. One member is asked for, and both are taken out.
fetch_order_example :
    Fate 0
      (codes "alice")
      (record { node = alice; counter = 0 })
      (Recent.fetch env.pops 1 0 two_recent)
unfolding find erase same Recent.fetch Recent.drain erased
fetch_order_example =
    fetch_order env.pops 1 0 two_recent (codes "carol") (codes "alice")
      (record { node = carol; counter = 2 }) (record { node = alice; counter = 0 })
      ((refl, tt), (tt, tt)) two-IsDistinct (λ k. refl) two-IsDistinct refl refl (omega arith)
      (λ h. cc)

founded-Alone_example : Alone commands (Freely 0) (created alice 7 3 1000) (handed.member 0)
founded-Alone_example =
    founded-Alone commands Freely names (λ i. 7) 3 1000 handed 0 (omega arith) walk
