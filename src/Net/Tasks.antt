-- ===== src/Net/Tasks.antt =====
-- `do_task`: the tasks that an acknowledgement sets off, and what is left of them.
use gossip_net.Prelude.{
  ◌-◌, ◌≡◌, refl, ap, ◌∙◌, inl, inr, some, none, Option, List, [], ◌∷◌, codes, Bytes, same_refl,
  length, ltb, Bool-cases, ◌==◌,
}
use gossip_net.Outcome.{Outcome, ok, throws, fault, assert_failed}
use gossip_net.Exec.{Exec, continue, ◌>>=◌, ◌>>◌, pure, lift, modify}
use gossip_net.Node.{Node}
use gossip_net.Table.{find, assign}
use gossip_net.Table.Laws.{find-assign}
use gossip_net.Members
use gossip_net.Recent
use gossip_net.Pending
use gossip_net.Pending.{PingReqTask, Entry, PendingLists, pointers, moved_from}
use gossip_net.Net.Lone.{build_rumors_either}
use gossip_net.Net.{
  Env, GossipNet, update_recent, update_one, update, send, fetch_recent, add_members, fill_rumors,
  gather_rumors, build_rumors, message, send_message, ack_as, run_task, add_next, run_tasks,
  do_task,
}

-- What leaves the tasks alone.
abbrev pub KeepsTasks : {A : Type 0} → Exec GossipNet A → Type 0
KeepsTasks m = (net : GossipNet) → (m net).1.tasks ≡ net.tasks

pub KeepsTasks-continue :
    {A B : Type 0} (r : Outcome A) (f : A → Exec GossipNet B) (net : GossipNet)
    → ((a : A) → r ≡ ok a → (f a net).1.tasks ≡ net.tasks)
    → (continue r f net).1.tasks ≡ net.tasks
KeepsTasks-continue (ok a) f net h = h a refl
KeepsTasks-continue (throws e) f net h = refl
KeepsTasks-continue (fault x) f net h = refl

pub KeepsTasks-bind :
    {A B : Type 0} (m : Exec GossipNet A) (f : A → Exec GossipNet B)
    → KeepsTasks m
    → ((a : A) → KeepsTasks (f a))
    → KeepsTasks (m >>= f)
KeepsTasks-bind m f km kf net =
    KeepsTasks-continue (m net).0 f (m net).1 (λ a _. kf a (m net).1) ∙ km net

KeepsTasks-add_members :
    (env : Env) (ns : List Node) (net : GossipNet) → (add_members env ns net).1.tasks ≡ net.tasks
unfolding add_members
KeepsTasks-add_members env [] net = refl
KeepsTasks-add_members env (n ∷ ns) net =
    KeepsTasks-bind
      (λ net.
        continue (Members.add env.slot n net.members)
          (λ members. modify λ x. record x { members = members }) net)
      (λ _. add_members env ns)
      (λ net. KeepsTasks-continue (Members.add env.slot n net.members) _ net (λ _ _. refl))
      (λ _. KeepsTasks-add_members env ns) net

pub KeepsTasks-fill_rumors : (rumors : List Node) → KeepsTasks (fill_rumors rumors)
unfolding fill_rumors
KeepsTasks-fill_rumors rumors net = elim (Bool-cases (length rumors == net.max_rumor_num)) [
  | inl full ↦ rw full refl
  | inr more ↦ elim (Bool-cases (ltb (length rumors) net.max_rumor_num)) [
    | inl below ↦
        rw (more, below)
          (KeepsTasks-continue (Members.fetch (net.max_rumor_num - length rumors) net.members) _ net
            (λ _ _. refl))
    | inr above ↦ rw (more, above) refl
  ]
]

KeepsTasks-gather_rumors : (env : Env) → KeepsTasks (gather_rumors env)
unfolding gather_rumors
KeepsTasks-gather_rumors env net =
    let fetched = fetch_recent env net in
    KeepsTasks-bind (add_members env fetched.stable) (λ _. fill_rumors fetched.recent)
      (KeepsTasks-add_members env fetched.stable) (λ _. KeepsTasks-fill_rumors fetched.recent)
      (record net { recent = fetched.members })

pub KeepsTasks-build_rumors : (env : Env) → KeepsTasks (build_rumors env)
KeepsTasks-build_rumors env net =
    build_rumors_either env net (λ r. r.1.tasks ≡ net.tasks) refl (KeepsTasks-gather_rumors env net)

pub KeepsTasks-send_message :
    (env : Env) (name : Bytes) (dest self : Node) → KeepsTasks (send_message env name dest self)
unfolding send_message
KeepsTasks-send_message env name dest self =
    KeepsTasks-bind (build_rumors env) _ (KeepsTasks-build_rumors env) λ rumors.
      KeepsTasks-bind (lift (message name self rumors)) (λ content. send dest.ip dest.port content)
        (λ net. refl) (λ content net. unfold send in refl)

pub KeepsTasks-ack_as : (env : Env) (dest self : Node) → KeepsTasks (ack_as env dest self)
unfolding ack_as
KeepsTasks-ack_as env dest self = KeepsTasks-send_message env (codes "ack") dest self

KeepsTasks-update_recent : (env : Env) (o : Option Node) → KeepsTasks (update_recent env o)
unfolding update_recent
KeepsTasks-update_recent env none net = refl
KeepsTasks-update_recent env (some n) net =
    KeepsTasks-continue (Recent.add env.slot n net.recent) _ net (λ _ _. refl)

pub KeepsTasks-update_one : (env : Env) (rumor : Node) → KeepsTasks (update_one env rumor)
unfolding update_one
KeepsTasks-update_one env rumor net =
    KeepsTasks-continue (Members.try_update rumor net.members) _ net
      (λ r _. KeepsTasks-update_recent env r.1 (record net { members = r.0 }))

pub KeepsTasks-update : (env : Env) (rumors : List Node) → KeepsTasks (update env rumors)
unfolding update
KeepsTasks-update env [] net = refl
KeepsTasks-update env (r ∷ rs) net =
    KeepsTasks-bind (update_one env r) (λ _. update env rs) (KeepsTasks-update_one env r)
      (λ _. KeepsTasks-update env rs) net

continue_next :
    (env : Env) (ts : List (Option PingReqTask)) (r : Outcome (Unit {0})) (net : GossipNet)
    → continue
        (continue r (λ _. pure {A = Option PingReqTask} none) net).0
        (λ next. add_next env next >> run_tasks env ts)
        (continue r (λ _. pure {A = Option PingReqTask} none) net).1
      ≡ continue r (λ _. run_tasks env ts) net
unfolding add_next
continue_next env ts (ok u) net = refl
continue_next env ts (throws e) net = refl
continue_next env ts (fault x) net = refl

-- A task that runs has no next one.
pub run_tasks_cons :
    (env : Env) (t : PingReqTask) (ts : List (Option PingReqTask)) (net : GossipNet)
    → run_tasks env (some t ∷ ts) net ≡ (ack_as env t.dest t.peer >> run_tasks env ts) net
unfolding run_tasks run_task
run_tasks_cons env t ts net =
    continue_next env ts (ack_as env t.dest t.peer net).0 (ack_as env t.dest t.peer net).1

KeepsTasks-run_tasks :
    (env : Env) (ts : List (Option PingReqTask)) (net : GossipNet)
    → (run_tasks env ts net).1.tasks ≡ net.tasks
unfolding run_tasks
KeepsTasks-run_tasks env [] net = refl
KeepsTasks-run_tasks env (none ∷ ts) net = refl
KeepsTasks-run_tasks env (some t ∷ ts) net =
    ap (λ r. r.1.tasks) (run_tasks_cons env t ts net)
    ∙ KeepsTasks-bind (ack_as env t.dest t.peer) (λ _. run_tasks env ts)
        (KeepsTasks-ack_as env t.dest t.peer) (λ _. KeepsTasks-run_tasks env ts) net

-- A fetch returns the pointers under the id, and leaves null ones in their place.
fetch_found :
    (id : Bytes) (s : PendingLists) (es : List Entry)
    → find id s.task_index ≡ some es
    → Pending.fetch id s
      ≡ (record s { task_index = assign id (moved_from es) s.task_index }, pointers es)
fetch_found id s es e = unfold Pending.fetch in rw (e, Pending.fetch) refl

find_moved :
    (id : Bytes) (s : PendingLists) (es : List Entry)
    → find id s.task_index ≡ some es
    → find id (assign id (moved_from es) s.task_index) ≡ some (moved_from es)
find_moved id s es e = rw (find-assign id id (moved_from es) s.task_index, same_refl id, e) refl

run_tasks_null :
    (env : Env) (e : Entry) (es : List Entry) (net : GossipNet)
    → run_tasks env (pointers (moved_from (e ∷ es))) net ≡ (fault assert_failed, net)
unfolding run_tasks
run_tasks_null env e es net = refl

pub do_task_found :
    (env : Env) (id : Bytes) (net : GossipNet) (es : List Entry)
    → find id net.tasks.task_index ≡ some es
    → do_task env id net
      ≡ run_tasks env (pointers es) (record net {
        tasks = record net.tasks { task_index = assign id (moved_from es) net.tasks.task_index };
      })
unfolding do_task
do_task_found env id net es h = rw (fetch_found id net.tasks es h) refl

do_task_null :
    (env : Env) (id : Bytes) (net : GossipNet) (e : Entry) (es : List Entry)
    → find id net.tasks.task_index ≡ some (moved_from (e ∷ es))
    → (do_task env id net).0 ≡ fault assert_failed
do_task_null env id net e es h =
    ap (λ r. r.0)
      (do_task_found env id net (moved_from (e ∷ es)) h
        ∙ run_tasks_null env e es (record net {
          tasks = record net.tasks {
            task_index = assign id (moved_from (moved_from (e ∷ es))) net.tasks.task_index;
          };
        }))

pub do_task_leaves :
    (env : Env) (id : Bytes) (net : GossipNet) (es : List Entry)
    → find id net.tasks.task_index ≡ some es
    → (do_task env id net).1.tasks.task_index ≡ assign id (moved_from es) net.tasks.task_index
do_task_leaves env id net es h =
    ap (λ r. r.1.tasks.task_index) (do_task_found env id net es h)
    ∙ ap (λ s. s.task_index)
        (KeepsTasks-run_tasks env (pointers es) (record net {
          tasks = record net.tasks { task_index = assign id (moved_from es) net.tasks.task_index };
        }))

-- If at least one task waits under an id, the second `do_task` of that id fails an assertion:
-- whatever the first came to, it left null pointers there.
pub do_task_twice :
    (env env' : Env) (id : Bytes) (net : GossipNet) (e : Entry) (es : List Entry)
    → find id net.tasks.task_index ≡ some (e ∷ es)
    → (do_task env' id (do_task env id net).1).0 ≡ fault assert_failed
do_task_twice env env' id net e es h =
    do_task_null env' id (do_task env id net).1 e es
      (ap (find id) (do_task_leaves env id net (e ∷ es) h) ∙ find_moved id net.tasks (e ∷ es) h)
