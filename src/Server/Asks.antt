-- ===== src/Server/Asks.antt =====
-- What a `ping-req` makes a member do, after whatever calls.
use gossip_net.Prelude.{
  ℕ, ◌≤◌, ◌≡◌, ◌⊎◌, refl, inl, inr, some, List, [], ◌∷◌, ◌++◌, length, Bytes, codes, same, All,
  if◌then◌else◌,
}
use gossip_net.Outcome.{Outcome, ok, fault, Fault}
use gossip_net.Exec.{Exec, ◌>>◌}
use gossip_net.Node.{Node}
use gossip_net.Node.Order.{IsKnown}
use gossip_net.Table.{Slot}
use gossip_net.Pending
use gossip_net.Pending.{PingReqTask, Entry, PendingLists}
use gossip_net.Pending.Expiry.{entries}
use gossip_net.Pending.Indexed.{push_entry-entries}
use gossip_net.Resp.RoundTrip.{IsSmall, encode}
use gossip_net.Wire.Accepted.{IsSized, as_alive}
use gossip_net.Net.{Env, GossipNet, ping, add_task}
use gossip_net.Net.Whole.{IsPops}
use gossip_net.Net.Tasks.{KeepsTasks-send_message}
use gossip_net.Net.Known.{IsFull}
use gossip_net.Net.Lone.{IsLone}
use gossip_net.Net.Rumors.{IsStuck}
use gossip_net.Net.Written.{datagram, send_message-Writes}
use gossip_net.Command.{ping_req_command, caught}
use gossip_net.Command.Taken.{Updated}
use gossip_net.Server.{register_all, Commands, handle}
use gossip_net.Server.Life.{created, Reach}
use gossip_net.Server.Heard.{request, said}
use gossip_net.Server.Exchange.{handled}

-- The tasks that wait under an id after one more was added.
abbrev pub joined_entries : PingReqTask → ℕ → PendingLists → Bytes → List Entry
joined_entries task now s j =
    if same task.peer.id j
    then entries j s.task_index ++ record { task = some task; time = now } ∷ []
    else entries j s.task_index

-- A `ping` to the peer and a task for it, or nothing of both.
abbrev pub Asks : Env → PingReqTask → GossipNet → Outcome (Unit {0}) × GossipNet → Type 0
Asks env task net r =
    (IsStuck env net
      × (x : Fault) × (r.0 ≡ fault x)
      × (r.1.events ≡ net.events)
      × (r.1.tasks ≡ net.tasks))
    ⊎ ((rumors : List Node) × (IsStuck env net → ⊥)
        × All IsKnown rumors
        × (length rumors ≤ net.max_rumor_num)
        × (r.0 ≡ ok tt)
        × (r.1.events ≡ net.events ++ datagram (codes "ping") task.peer net.self rumors ∷ [])
        × ((j : Bytes) → entries j r.1.tasks.task_index ≡ joined_entries task env.now net.tasks j))

add-entries :
    (env : Env) (task : PingReqTask) (s : PendingLists) (j : Bytes)
    → entries j (Pending.add env.slot env.now task s).task_index ≡ joined_entries task env.now s j
unfolding Pending.add
add-entries env task s j =
    push_entry-entries env.slot task.peer.id j (record { task = some task; time = env.now })
      s.task_index

after_ok :
    (env : Env) (task : PingReqTask) (m : Exec GossipNet (Unit {0})) (net : GossipNet)
    → (m net).0 ≡ ok tt
    → caught ((m >> add_task env task) net)
      ≡ (ok tt, record (m net).1 { tasks = Pending.add env.slot env.now task (m net).1.tasks })
unfolding add_task
after_ok env task m net e = rw e refl

after_fault :
    (env : Env) (task : PingReqTask) (m : Exec GossipNet (Unit {0})) (net : GossipNet) (x : Fault)
    → (m net).0 ≡ fault x
    → caught ((m >> add_task env task) net) ≡ (fault x, (m net).1)
after_fault env task m net x e = rw e refl

ping-Asks :
    (env : Env)
    → IsPops env.pops
    → (task : PingReqTask) (net : GossipNet) → IsFull IsKnown net
    → Asks env task net (caught ((ping env task.peer >> add_task env task) net))
unfolding ping
ping-Asks env pops task net full =
    let kept = KeepsTasks-send_message env (codes "ping") task.peer net.self net in
    elim (send_message-Writes env pops (codes "ping") task.peer net.self net full) [
      | inl (stuck, x, e, events) ↦
          rw (after_fault env task (ping env task.peer) net x e)
            (inl (stuck, x, refl, events, kept))
      | inr (rumors, loose, known, few, e, events) ↦
          rw (after_ok env task (ping env task.peer) net e) (
            inr (
              rumors,
              loose,
              known,
              few,
              refl,
              events,
              λ j. rw kept (add-entries env task net.tasks j),
            ))
    ]

-- In every state that calls lead to from the constructor, the three commands registered as the
-- constructor does, a datagram that holds one `ping-req` in bulk strings, from a sender about a peer,
-- with any number of rumors, all with 32-bit ports and 64-bit versions, one argument of any text
-- between two nodes and none behind the last, within the parser's limits, first lifts the view of
-- each id by the rumors and the sender, not the peer, each as ALIVE, so that a member is known. Then the
-- handling does not come to its end, with nothing more to send and no task more, if the recently
-- updated members to spread do not fill a message and are, together with the members, the new stable
-- ones included, as many as fit in it, so that an assertion fails, or more, and 2 ^ 32 or more members
-- are asked for, so that a counter of 32 bits never meets its end.
-- Otherwise it returns, exactly one `ping` waits behind the events that waited before, to the peer's
-- address, with no more rumors than fit, each with a status and a version of 64 bits, and one task
-- more waits behind the others under the peer's id, to acknowledge to the sender; the tasks of other
-- ids are as before. The calls are any, with datagrams of any bytes; a user's own rumors have a
-- status and a version of 64 bits, and the queue gives up each element once.
pub ping_req-Asks :
    (slot : Slot) (commands : Commands)
    → register_all slot ≡ ok commands
    → (me : Node) (seed limit timeout : ℕ) (net : GossipNet)
    → Reach commands (created me seed limit timeout) net
    → (env : Env) → IsPops env.pops
    → (gap : Node → Bytes) (n p : Node) (rs : List Node) → IsSized n
    → IsSized p
    → All IsSized rs
    → IsSmall (request ping_req_command gap n p rs)
    → (net' : GossipNet) × Updated env (said n rs) net net'
      × (net'.events ≡ net.events)
      × (net'.tasks ≡ net.tasks)
      × (IsLone net' → ⊥)
      × Asks env
          (record { dest = as_alive n; peer = as_alive p })
          net'
          (handle env commands (encode (request ping_req_command gap n p rs)) net)
ping_req-Asks slot commands made me seed limit timeout net reached env pops gap n p rs sized
      peer_sized all_sized small =
    let (net', t, e) =
      handled slot commands made me seed limit timeout net reached env pops gap n rs sized all_sized
        ping_req_command p peer_sized small in
    (
      net',
      t.updated,
      t.same_events,
      t.same_tasks,
      t.known,
      rw e (ping-Asks env pops (record { dest = as_alive n; peer = as_alive p }) net' t.full),
    )
