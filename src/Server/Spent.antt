-- ===== src/Server/Spent.antt =====
-- What is left of a member, for good, once the tasks of an id were run.
use gossip_net.Prelude.{ℕ, ◌≡◌, refl, false, some, List, ◌∷◌, Bytes, same_refl}
use gossip_net.Outcome.{fault, assert_failed}
use gossip_net.Exec.{Exec}
use gossip_net.Exec.Runs.{Runs, Any}
use gossip_net.Node.{Node}
use gossip_net.Node.Order.{IsKnown}
use gossip_net.Table.{find}
use gossip_net.Table.Laws.{find-assign}
use gossip_net.Pending.{Entry, moved_from}
use gossip_net.Pending.Spent.{IsSpent, add-IsSpent, fetch-IsSpent, IsSpent-find}
use gossip_net.Net.{Env, GossipNet, update_one, build_rumors, add_task, run_tasks, do_task}
use gossip_net.Net.Tasks.{
  KeepsTasks, KeepsTasks-build_rumors, KeepsTasks-update_one, do_task_found, do_task_leaves,
}
use gossip_net.Net.Steady.{IsSteady}
use gossip_net.Net.Sends.{do_task-Runs}
use gossip_net.Net.Whole.{IsWhole, IsPops, IsWhole-Steady}
use gossip_net.Server.{Commands}
use gossip_net.Server.Life.{created, Reach, Reach-kept, reached-IsWhole}

module _ (id : Bytes) where
  -- The invariant of a member in which the first task under the id is a null pointer.
  abbrev Ended : GossipNet → Type 0
  Ended net = IsWhole net × IsSpent id net.tasks

  Ended-keeps :
      {A : Type 0} (m : Exec GossipNet A) → Runs IsWhole Any m → KeepsTasks m → Runs Ended Any m
  Ended-keeps m runs keeps net (w, spent) =
      let (ends, w') = runs net w in (ends, (w', rw (keeps net) spent))

  Ended-Steady : (env : Env) → IsPops env.pops → IsSteady env IsKnown Ended
  Ended-Steady env pops =
      let whole = IsWhole-Steady env pops in
      record {
        hears = λ rumor h.
            Ended-keeps (update_one env rumor) (whole.hears rumor h)
              (KeepsTasks-update_one env rumor);
        builds = Ended-keeps (build_rumors env) whole.builds (KeepsTasks-build_rumors env);
        adds = λ task net (w, spent).
            let (ends, w') = whole.adds task net w in
            unfold add_task in (tt, (w', add-IsSpent id env.slot env.now task net.tasks spent));
        fetches = λ i net (w, spent). (whole.fetches i net w, fetch-IsSpent i id net.tasks spent);
        sends = λ events net (w, spent). (whole.sends events net w, spent);
        starts = λ running net (w, spent). (whole.starts running net w, spent);
      }

  do_task_spent :
      (env : Env) (net : GossipNet)
      → IsSpent id net.tasks
      → (do_task env id net).0 ≡ fault assert_failed
  unfolding run_tasks
  do_task_spent env net spent =
      let (e, es, there, null) = IsSpent-find id net.tasks spent in
      rw (do_task_found env id net (e ∷ es) there, null) refl

  do_task-IsSpent :
      (env : Env) (net : GossipNet) (e : Entry) (es : List Entry)
      → find id net.tasks.task_index ≡ some (e ∷ es)
      → IsSpent id (do_task env id net).1.tasks
  do_task-IsSpent env net e es there =
      rw
        (
          do_task_leaves env id net (e ∷ es) there,
          find-assign id id (moved_from (e ∷ es)) net.tasks.task_index,
          same_refl id,
          there,
        )
        refl

-- Once the tasks that wait under an id were run, the next `do_task` of that id fails an assertion,
-- whenever it comes: whatever calls and datagrams are between them, and whatever tasks these add. A
-- user's own rumors have a status and a version of 64 bits, and the queue gives up each element once.
pub do_task_again :
    (commands : Commands) (self : Node) (seed n timeout : ℕ) (net net' : GossipNet) (env env' : Env)
    (id : Bytes) (e : Entry) (es : List Entry)
    → IsPops env.pops
    → Reach commands (created self seed n timeout) net
    → find id net.tasks.task_index ≡ some (e ∷ es)
    → Reach commands (do_task env id net).1 net'
    → (do_task env' id net').0 ≡ fault assert_failed
do_task_again commands self seed n timeout net net' env env' id e es pops before there later =
    let w = reached-IsWhole commands self seed n timeout net before in
    let whole = (do_task-Runs env IsKnown IsWhole (IsWhole-Steady env pops) id net w).1 in
    do_task_spent id env' net'
      (Reach-kept (Ended id) (Ended-Steady id)
        (λ net t. ((IsWhole-Steady env pops).starts false net t.0, t.1)) later
        (whole, do_task-IsSpent id env net e es there)).1
