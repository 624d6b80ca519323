-- ===== src/Net/Answers.antt =====
-- What `do_task` of gossip_net.cpp sends for the tasks that wait under an id.
use gossip_net.Prelude.{
  ◌≤◌, ◌≡◌, ◌⊎◌, refl, sym, ap, ◌∙◌, inl, inr, some, none, Option, List, [], ◌∷◌, ◌++◌,
  append_assoc, append-nil, length, Bytes, codes, All,
}
use gossip_net.Outcome.{Outcome, ok, fault, Fault, assert_failed}
use gossip_net.Exec.{Exec, ◌>>◌}
use gossip_net.Node.{Node}
use gossip_net.Node.Order.{IsKnown}
use gossip_net.Pending
use gossip_net.Pending.{PingReqTask}
use gossip_net.Net.{Env, Event, GossipNet, ack_as, run_tasks, do_task}
use gossip_net.Net.Tasks.{run_tasks_cons}
use gossip_net.Net.Sends.{ack_as-Runs}
use gossip_net.Net.Whole.{IsPops}
use gossip_net.Net.Known.{IsFull, IsFull-Steady}
use gossip_net.Net.Rumors.{IsStuck}
use gossip_net.Net.Written.{datagram, Wrote, send_message-Writes}

-- The acknowledgements that tasks send, each to the one who asked and in the name of its peer, up to
-- the first null pointer or the first message that cannot be filled, and how that ends.
abbrev pub Answered :
    Env → List (Option PingReqTask) → GossipNet → List Event → Outcome (Unit {0}) → Type 0
Answered env [] net events r = (events ≡ []) × (r ≡ ok tt)
Answered env (none ∷ ts) net events r = (events ≡ []) × (r ≡ fault assert_failed)
Answered env (some t ∷ ts) net events r =
    (IsStuck env net × (events ≡ []) × (x : Fault) × (r ≡ fault x))
    ⊎ ((rumors : List Node) × (rest : List Event) × (IsStuck env net → ⊥)
        × All IsKnown rumors
        × (length rumors ≤ net.max_rumor_num)
        × (events ≡ datagram (codes "ack") t.dest t.peer rumors ∷ rest)
        × Answered env ts (ack_as env t.dest t.peer net).1 rest r)

then_ok :
    {B : Type 0} (m : Exec GossipNet (Unit {0})) (f : Exec GossipNet B) (net : GossipNet)
    → (m net).0 ≡ ok tt
    → (m >> f) net ≡ f (m net).1
then_ok m f net e = rw e refl

then_fault :
    {B : Type 0} (m : Exec GossipNet (Unit {0})) (f : Exec GossipNet B) (net : GossipNet)
    (x : Fault)
    → (m net).0 ≡ fault x
    → (m >> f) net ≡ (fault x, (m net).1)
then_fault m f net x e = rw e refl

-- What waits behind the events is what was answered.
abbrev pub Answers :
    Env → List (Option PingReqTask) → GossipNet → Outcome (Unit {0}) × GossipNet → Type 0
Answers env ts net r =
    (events : List Event) × (r.1.events ≡ net.events ++ events) × Answered env ts net events r.0

module _ (env : Env) (pops : IsPops env.pops) where
  ack_as-Writes :
      (dest self : Node) (net : GossipNet)
      → IsFull IsKnown net
      → Wrote env (codes "ack") dest self net (ack_as env dest self net)
  unfolding ack_as
  ack_as-Writes dest self net full = send_message-Writes env pops (codes "ack") dest self net full

  run_tasks-Answers :
      (ts : List (Option PingReqTask)) (net : GossipNet)
      → IsFull IsKnown net
      → Answers env ts net (run_tasks env ts net)
  run_tasks-Answers [] net full =
      unfold run_tasks in ([], sym (append-nil net.events), (refl, refl))
  run_tasks-Answers (none ∷ ts) net full =
      unfold run_tasks in ([], sym (append-nil net.events), (refl, refl))
  run_tasks-Answers (some t ∷ ts) net full =
      let sends = ack_as env t.dest t.peer in
      rw (run_tasks_cons env t ts net) (elim (ack_as-Writes t.dest t.peer net full) [
        | inl (stuck, x, e, same) ↦
            rw (then_fault sends (run_tasks env ts) net x e)
              ([], same ∙ sym (append-nil net.events), inl (stuck, refl, x, refl))
        | inr (rumors, loose, known, few, e, written) ↦
            let next =
              (ack_as-Runs env _ (IsFull IsKnown) (IsFull-Steady IsKnown env pops) t.dest t.peer net
                full).1 in
            let (rest, q, answered) = run_tasks-Answers ts (sends net).1 next in
            let one = datagram (codes "ack") t.dest t.peer rumors in
            rw (then_ok sends (run_tasks env ts) net e) (
              one ∷ rest,
              q ∙ ap (λ es. es ++ rest) written ∙ append_assoc net.events (one ∷ []) rest,
              inr (rumors, rest, loose, known, few, refl, answered),
            )
      ])

  pub do_task-Answers :
      (id : Bytes) (net : GossipNet)
      → IsFull IsKnown net
      → let (tasks, fetched) = Pending.fetch id net.tasks in
        Answers env fetched (record net { tasks = tasks }) (do_task env id net)
  unfolding do_task
  do_task-Answers id net full =
      run_tasks-Answers (Pending.fetch id net.tasks).1 _
        ((IsFull-Steady IsKnown env pops).fetches id net full)
