-- ===== src/Tests/Tasks.antt =====
-- Pending tasks, on concrete ones.
use gossip_net.Prelude.{refl, ℕ, ◌+◌, Option, none, some, ◌≡◌, [], codes, arith}
use gossip_net.Pending.{PendingLists, PingReqTask, add, fetch, timeout_tasks}
use gossip_net.Pending.Conserved.{held, weight, tasks_conserved}
use gossip_net.Pending.Expiry.{timeout_tasks_twice}
use gossip_net.Table.{find}
use gossip_net.Tests.{env, task, waiting_tasks}

abbrev no_tasks : PendingLists
no_tasks = record { task_index = []; timeout_index = []; timeout = 1000 }

abbrev one_task : PendingLists
one_task = add env.slot 50 task no_tasks

timeout_tasks_twice_example :
    timeout_tasks 90 (timeout_tasks 50 waiting_tasks).0 ≡ ((timeout_tasks 50 waiting_tasks).0, [])
timeout_tasks_twice_example = timeout_tasks_twice 50 90 waiting_tasks (omega arith, tt)

abbrev is_task : Option PingReqTask → ℕ
is_task none = 0
is_task (some t) = 1

tasks_conserved_example :
    (held is_task (add env.slot 50 task waiting_tasks).task_index
      ≡ held is_task waiting_tasks.task_index + 1)
    × (held is_task (fetch (codes "bob") waiting_tasks).0.task_index
          + weight is_task (fetch (codes "bob") waiting_tasks).1
        ≡ held is_task waiting_tasks.task_index)
    × (held is_task (timeout_tasks 50 waiting_tasks).0.task_index
          + weight is_task (timeout_tasks 50 waiting_tasks).1
        ≡ held is_task waiting_tasks.task_index)
unfolding find
tasks_conserved_example =
    tasks_conserved is_task env.slot 50 task (codes "bob") waiting_tasks refl (refl, tt)
