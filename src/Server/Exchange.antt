-- ===== src/Server/Exchange.antt =====
-- A `ping` and the acknowledgement to it, after whatever calls.
use gossip_net.Prelude.{map, arith, ℕ, ◌≡◌, refl, inl, inr, List, Bytes, codes, All}
use gossip_net.Outcome.{Outcome, ok, fault, Fault}
use gossip_net.Node.{Node}
use gossip_net.Node.Order.{IsKnown}
use gossip_net.Table.{Slot}
use gossip_net.Resp.RoundTrip.{IsSmall, encode}
use gossip_net.Wire.Accepted.{IsSized, as_alive}
use gossip_net.Net.{Env, GossipNet, ack, ack_as, update}
use gossip_net.Net.Lone.{IsLone, lone_view, all_heard_pos}
use gossip_net.Net.Merge.{view}
use gossip_net.Net.Whole.{IsPops, IsWhole-Steady}
use gossip_net.Net.Steady.{update-Runs}
use gossip_net.Net.Known.{IsFull, update-Keeps}
use gossip_net.Net.Written.{Wrote, send_message-Writes}
use gossip_net.Pending
use gossip_net.Net.Tasks.{KeepsTasks-update}
use gossip_net.Net.Answers.{Answers}
use gossip_net.Command.Spoken.{answer}
use gossip_net.Command.{Command, ping_command, caught}
use gossip_net.Command.Taken.{Updated}
use gossip_net.Server.{register_all, Commands, handle}
use gossip_net.Server.Handling.{registered_all}
use gossip_net.Server.Life.{created, Reach}
use gossip_net.Server.Written.{reached-IsFull}
use gossip_net.Server.Heard.{request, said, said-IsKnown, handle-request}

pub caught_ok : (r : Outcome (Unit {0}) × GossipNet) → r.0 ≡ ok tt → caught r ≡ r
caught_ok (ok u, net) e = refl
caught_ok (Outcome.throws x, net) e = cc
caught_ok (fault x, net) e = cc

pub caught_fault : (r : Outcome (Unit {0}) × GossipNet) (x : Fault) → r.0 ≡ fault x → caught r ≡ r
caught_fault (ok u, net) x e = cc
caught_fault (Outcome.throws y, net) x e = cc
caught_fault (fault y, net) x e = refl

ack-Wrote :
    (env : Env)
    → IsPops env.pops
    → (dest : Node) (net : GossipNet) → IsFull IsKnown net
    → Wrote env (codes "ack") dest net.self net (caught (ack env dest net))
unfolding ack ack_as
ack-Wrote env pops dest net full =
    elim (send_message-Writes env pops (codes "ack") dest net.self net full) [
      | inl (stuck, x, e, same) ↦
          let q = caught_fault (ack env dest net) x e in inl (stuck, x, rw q e, rw q same)
      | inr (rumors, loose, known, few, e, events) ↦
          let q = caught_ok (ack env dest net) e in
          inr (rumors, loose, known, few, rw q e, rw q events)
    ]

-- What was said is taken in, and nothing else has changed that an answer depends on.
pub record Taken (env : Env) (ns : List Node) (net net' : GossipNet) : Type 0 where
  pub updated : Updated env ns net net'
  pub full : IsFull IsKnown net'
  pub same_events : net'.events ≡ net.events
  pub same_tasks : net'.tasks ≡ net.tasks
  pub known : IsLone net' → ⊥

update-Taken :
    (env : Env) (n : Node) (rs : List Node) (net net' : GossipNet)
    → IsPops env.pops
    → All IsKnown (said n rs)
    → IsFull IsKnown net
    → Updated env (said n rs) net net'
    → Taken env (said n rs) net net'
update-Taken env n rs net net' pops known (w, f) updated =
    let w' = (update-Runs env IsKnown _ (IsWhole-Steady env pops) (said n rs) known net w).1 in
    let f' = (update-Keeps IsKnown net.events env (said n rs) known net f).1 in
    let ended : IsFull IsKnown (update env (said n rs) net).1 =
      (w', record { members = f'.members; recent = f'.recent; waiting = refl }) in
    record {
      updated = updated;
      full = rw updated.runs at ended;
      same_events = rw updated.runs at f'.waiting;
      same_tasks = rw updated.runs at (KeepsTasks-update env (said n rs) net);
      known = λ lone.
          let heard = all_heard_pos n.id (as_alive n) (map as_alive rs) (view net n.id) refl in
          omega (arith, heard, updated.views n.id, lone_view net' n.id lone);
    }

module _ (slot : Slot) (commands : Commands) (made : register_all slot ≡ ok commands) (me : Node)
    (seed limit timeout : ℕ) (net : GossipNet)
    (reached : Reach commands (created me seed limit timeout) net) (env : Env)
    (pops : IsPops env.pops) (gap : Node → Bytes) (n : Node) (rs : List Node) (sized : IsSized n)
    (all_sized : All IsSized rs) where
  pub handled :
      (c : Command) (p : Node)
      → IsSized p
      → IsSmall (request c gap n p rs)
      → (net' : GossipNet) × Taken env (said n rs) net net'
        × (handle env commands (encode (request c gap n p rs)) net
            ≡ caught (answer env c (as_alive n) (as_alive p) net'))
  handled c p peer_sized small =
      let (w, f) = reached-IsFull commands me seed limit timeout net reached in
      let known = said-IsKnown n rs sized all_sized in
      let (net', updated, e) =
        handle-request env commands net c gap n p rs (registered_all slot commands c made) w.sound
          w.apart sized peer_sized all_sized small in
      (net', update-Taken env n rs net net' pops known (w, f) updated, e)

  -- In every state that calls lead to from the constructor, the three commands registered as the
  -- constructor does, a datagram that holds one `ping` in bulk strings, from a sender with any number
  -- of rumors, all with 32-bit ports and 64-bit versions, one argument of any text between two nodes
  -- and none behind the last, within the parser's limits, first lifts the view of each id by the
  -- rumors and the sender, each as ALIVE, so that a member is known. Then the handling does not come to
  -- its end, with nothing more to send, if the recently updated members to spread do not fill a
  -- message and are, together with the members, the new stable ones included, as many as fit in it, so
  -- that an assertion fails, or more, and 2 ^ 32 or more members are asked for, so that a counter of 32
  -- bits never meets its end. Otherwise it returns, and exactly one `ack` waits
  -- behind the events that waited before: to the sender's address, in the documented order, with no
  -- more rumors than fit, each with a status and a version of 64 bits. The calls are any, with
  -- datagrams of any bytes; a user's own rumors have a status and a version of 64 bits, and the queue
  -- gives up each element once.
  pub ping-Wrote :
      IsSmall (request ping_command gap n n rs)
      → (net' : GossipNet) × Updated env (said n rs) net net'
        × (net'.events ≡ net.events)
        × (IsLone net' → ⊥)
        × Wrote env
            (codes "ack")
            (as_alive n)
            net'.self
            net'
            (handle env commands (encode (request ping_command gap n n rs)) net)
  ping-Wrote small =
      let (net', t, e) = handled ping_command n sized small in
      (net', t.updated, t.same_events, t.known, rw e (ack-Wrote env pops (as_alive n) net' t.full))
