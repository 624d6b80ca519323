-- ===== src/Net.antt =====
-- gossip_net.h and gossip_net.cpp: the member itself, what it knows of the others, and the messages
-- that it sends.
pub mod Messages
pub mod Merge
pub mod Converge
pub mod Lone
pub mod Tasks
pub mod Apart
pub mod Gather
pub mod Rumors
pub mod Steady
pub mod Fill
pub mod Whole
pub mod Story
pub mod Known
pub mod Written
pub mod Answers
pub mod Sends
use gossip_net.Prelude.{
  ℕ, zero, suc, ◌+◌, ◌-◌, ◌*◌, Bool, true, false, Option, none, some, List, [], ◌∷◌, ◌++◌, Bytes,
  codes, length, ltb, ◌==◌, if◌then◌else◌,
}
use gossip_net.Outcome.{
  bad_cast, Outcome, ok, throws, fault, assert_failed, unknown_status, already_started,
}
use gossip_net.Outcome
use gossip_net.Exec.{Exec, continue, ◌>>=◌, ◌>>◌, pure, lift, gets, modify}
use gossip_net.Decimal.{to_string}
use gossip_net.Decimal.Int.{ℤ, pos, to_string_int}
use gossip_net.Node.{
  Node, NodeStatus, alive, suspected, failed, unknown, text_alive, text_suspected, text_failed,
}
use gossip_net.Table.{Slot}
use gossip_net.Resp.Builder.{append_array, append_simple_string}
use gossip_net.Recent
use gossip_net.Recent.{RecentlyUpdatedSet, Pops}
use gossip_net.Members
use gossip_net.Members.{MemberSet, size}
use gossip_net.Pending
use gossip_net.Pending.{PendingLists, PingReqTask}

-- What a call meets outside the program: the hash tables' choice of positions, the order in which
-- the priority queue gives up equal elements, `static_cast<size_t>(lambda * log(n))`, and the clock.
pub record Env : Type 0 where
  pub slot : Slot
  pub pops : Pops
  pub scaled_log : ℕ → ℕ
  pub now : ℕ

-- `UdpServer::Event`.
pub record Event : Type 0 where
  pub ip : Bytes
  pub port : ℤ
  pub content : Bytes

-- `events` are those of the server that wait to be sent, and `running` is
-- `_server_thread.joinable()`.
pub record GossipNet : Type 0 where
  pub self : Node
  pub members : MemberSet
  pub recent : RecentlyUpdatedSet
  pub tasks : PendingLists
  pub max_rumor_num : ℕ
  pub events : List Event
  pub running : Bool

unfoldable pub start : Exec GossipNet (Unit {0})
start net =
    if net.running then (throws already_started, net) else (ok tt, record net { running = true })

-- `stop`, by whether the thread of the server has come to its end: `UdpServer::stop` does nothing, and
-- the wait for a thread that goes on is none.
unfoldable pub stop : Bool → GossipNet → Option GossipNet
stop ended net =
    if net.running
    then (if ended then some (record net { running = false }) else none)
    else some net

-- Two functions with empty bodies.
abbrev pub join : Bytes → ℤ → Exec GossipNet (Unit {0})
join ip port = pure tt

abbrev pub ping_req : Node → Exec GossipNet (Unit {0})
ping_req node = pure tt

-- `UdpServer::send`.
unfoldable pub send : Bytes → ℤ → Bytes → Exec GossipNet (Unit {0})
send ip port content net = (
  ok tt,
  record net { events = net.events ++ record { ip = ip; port = port; content = content } ∷ [] },
)

-- One rumor of `update`.
unfoldable pub update_recent : Env → Option Node → Exec GossipNet (Unit {0})
update_recent env none net = (ok tt, net)
update_recent env (some node) net =
    continue (Recent.add env.slot node net.recent)
      (λ recent. modify λ n. record n { recent = recent }) net

unfoldable pub update_one : Env → Node → Exec GossipNet (Unit {0})
unfolding update_recent
update_one env rumor net =
    continue (Members.try_update rumor net.members)
      (λ r. modify (λ n. record n { members = r.0 }) >> update_recent env r.1) net

unfoldable pub update : Env → List Node → Exec GossipNet (Unit {0})
unfolding update_one
update env [] = pure tt
update env (rumor ∷ rumors) = update_one env rumor >> update env rumors

-- The loop that makes stable rumors members.
unfoldable pub add_members : Env → List Node → Exec GossipNet (Unit {0})
add_members env [] = pure tt
add_members env (n ∷ ns) =
    (λ net.
      continue (Members.add env.slot n net.members)
        (λ members. modify λ x. record x { members = members }) net)
    >> add_members env ns

-- The rest of the rumors is taken from the members.
unfoldable pub fill_rumors : List Node → Exec GossipNet (List Node)
fill_rumors rumors net =
    if length rumors == net.max_rumor_num
    then (ok rumors, net)
    else if ltb (length rumors) net.max_rumor_num
    then (continue (Members.fetch (net.max_rumor_num - length rumors) net.members)
        (λ r n. (ok (rumors ++ r.1), record n { members = r.0 })) net)
    else (fault assert_failed, net)

-- `_recently_updated_members.fetch(max_rumor_num, max_spreaded_num)`.
unfoldable pub fetch_recent : Env → GossipNet → Recent.Fetched
fetch_recent env net =
    let max_spread = env.scaled_log (size net.members + length net.recent) + 1 in
    Recent.fetch env.pops net.max_rumor_num max_spread net.recent

-- `_build_rumors` behind its first statement.
unfoldable pub gather_rumors : Env → Exec GossipNet (List Node)
gather_rumors env net =
    let fetched = fetch_recent env net in
    (add_members env fetched.stable >> fill_rumors fetched.recent)
      (record net { recent = fetched.members })

-- `_build_rumors`: the logarithm of 0 is minus infinity, whose cast to `std::size_t` is undefined.
unfoldable pub build_rumors : Env → Exec GossipNet (List Node)
unfolding gather_rumors
build_rumors env net =
    if size net.members + length net.recent == 0
    then (fault bad_cast, net)
    else gather_rumors env net

-- The `switch` of `_append_node`.
abbrev status_of : NodeStatus → Outcome Bytes
status_of alive = ok text_alive
status_of suspected = ok text_suspected
status_of failed = ok text_failed
status_of unknown = throws unknown_status

abbrev append_fields : Bytes → Bytes → Node → Bytes
append_fields builder type n =
    append_simple_string
      (append_simple_string
        (append_simple_string (append_simple_string (append_simple_string builder type) n.id) n.ip)
        (to_string_int n.port))
      (to_string n.version)

-- `_append_node`.
unfoldable pub append_node : Bytes → Bytes → Node → Bool → Outcome Bytes
append_node builder type n append_status =
    if append_status
    then (Outcome.◌>>=◌ (status_of n.status)
        (λ status. ok (append_simple_string (append_fields builder type n) status)))
    else ok (append_fields builder type n)

unfoldable pub append_rumors : Bytes → List Node → Outcome Bytes
unfolding append_node
append_rumors builder [] = ok builder
append_rumors builder (n ∷ ns) =
    Outcome.◌>>=◌ (append_node builder (codes "rumor") n true) (λ b. append_rumors b ns)

-- The text that `ack` and `ping` build, under the command's name.
unfoldable pub message : Bytes → Node → List Node → Outcome Bytes
unfolding append_rumors
message name self rumors =
    let header = append_simple_string (append_array [] (pos (1 + 5 + length rumors * 6))) name in
    Outcome.◌>>=◌ (append_node header (codes "self") self false) (λ b. append_rumors b rumors)

unfoldable pub send_message : Env → Bytes → Node → Node → Exec GossipNet (Unit {0})
send_message env name dest self = do
  rumors ← build_rumors env
  content ← lift (message name self rumors)
  send dest.ip dest.port content

-- `ack(dest, self)`.
unfoldable pub ack_as : Env → Node → Node → Exec GossipNet (Unit {0})
ack_as env dest self = send_message env (codes "ack") dest self

-- `ack(dest)`.
unfoldable pub ack : Env → Node → Exec GossipNet (Unit {0})
ack env dest net = ack_as env dest net.self net

unfoldable pub ping : Env → Node → Exec GossipNet (Unit {0})
ping env dest net = send_message env (codes "ping") dest net.self net

-- `add_task`.
unfoldable pub add_task : Env → PingReqTask → Exec GossipNet (Unit {0})
add_task env task = modify λ net. record net { tasks = Pending.add env.slot env.now task net.tasks }

-- `PingReqTask::run`: an acknowledgement, and no next task.
unfoldable pub run_task : Env → PingReqTask → Exec GossipNet (Option PingReqTask)
run_task env t = ack_as env t.dest t.peer >> pure none

-- `if (next_task)`.
unfoldable pub add_next : Env → Option PingReqTask → Exec GossipNet (Unit {0})
add_next env none = pure tt
add_next env (some t) = add_task env t

-- The loop of `do_task`: a null pointer fails the assertion.
unfoldable pub run_tasks : Env → List (Option PingReqTask) → Exec GossipNet (Unit {0})
unfolding run_task add_next
run_tasks env [] = pure tt
run_tasks env (none ∷ tasks) = lift (fault assert_failed)
run_tasks env (some t ∷ tasks) = do next ← run_task env t; add_next env next; run_tasks env tasks

unfoldable pub do_task : Env → Bytes → Exec GossipNet (Unit {0})
unfolding run_tasks
do_task env id net =
    let (tasks, fetched) = Pending.fetch id net.tasks in
    run_tasks env fetched (record net { tasks = tasks })
