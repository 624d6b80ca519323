-- ===== src/Net/Whole.antt =====
-- The invariant of a member, under `update` and `_build_rumors`.
use gossip_net.Prelude.{◌≡◌, refl, ap, sym, ◌∙◌, inl, inr, Bytes}
use mathlib.Core.Path.{subst}
use gossip_net.Outcome.Ends.{Ends}
use gossip_net.Exec.Runs.{Runs, Any}
use gossip_net.Node.{Node}
use gossip_net.Node.Order.{IsKnown}
use gossip_net.Table.Laws.{IsDistinct}
use gossip_net.Recent
use gossip_net.Recent.{RecentlyUpdatedSet, Pops}
use gossip_net.Recent.Laws.{add-merged}
use gossip_net.Recent.Distinct.{add-IsDistinct, fetch-IsDistinct}
use gossip_net.Members.Update.{lookup, try_update-news}
use gossip_net.Pending.{PingReqTask}
use gossip_net.Pending.Orderly.{IsOrderly, add-IsOrderly, fetch-IsOrderly}
use gossip_net.Net.Steady.{IsSteady}
use gossip_net.Net.Fill.{fill_rumors-Runs}
use gossip_net.Net.Lone.{build_rumors_either}
use gossip_net.Net.{Env, GossipNet, update_one, fetch_recent, gather_rumors, build_rumors, add_task}
use gossip_net.Net.Merge.{IsSound, news_cases, update_one-Heard}
use gossip_net.Net.Apart.{IsApart, update_one_dropped, update_one_taken, update_one-IsApart}
use gossip_net.Net.Gather.{IsQueue, fetch_recent_lem, add_members-Settled}

-- Every node stands under its own id, with a status and a version of 64 bits; no id is in both sets,
-- or twice among the recently updated ones; every task is found by its time, and no id has two lists
-- of tasks.
pub record IsWhole (net : GossipNet) : Type 0 where
  pub sound : IsSound net
  pub apart : IsApart net
  pub distinct : IsDistinct net.recent
  pub orderly : IsOrderly net.tasks

-- A priority queue gives up each of the elements that it was given once.
abbrev pub IsPops : Pops → Type 0
IsPops pops = (m : RecentlyUpdatedSet) → IsDistinct m → IsQueue pops m

-- Another state with the same findings is whole too.
pub IsWhole-same :
    (net net' : GossipNet)
    → ((j : Bytes) → lookup net'.members j ≡ lookup net.members j)
    → net'.recent ≡ net.recent
    → IsOrderly net'.tasks
    → IsWhole net
    → IsWhole net'
IsWhole-same net net' found recent orderly w = record {
  sound = record {
    members_keyed = record {
      keyed = λ j n h. w.sound.members_keyed.keyed j n (sym (found j) ∙ h);
      known = λ j n h. w.sound.members_keyed.known j n (sym (found j) ∙ h);
    };
    recent_keyed = subst (λ m. Recent.Laws.IsKeyed m) (sym recent) w.sound.recent_keyed;
  };
  apart = record {
    apart = λ j. elim (w.apart.apart j) [ inl e ↦ inl (rw recent e) | inr e ↦ inr (found j ∙ e) ];
  };
  distinct = subst (λ m. IsDistinct m) (sym recent) w.distinct;
  orderly = orderly;
}

pub IsWhole-found :
    (net net' : GossipNet)
    → ((j : Bytes) → lookup net'.members j ≡ lookup net.members j)
    → net'.recent ≡ net.recent
    → net'.tasks ≡ net.tasks
    → IsWhole net
    → IsWhole net'
IsWhole-found net net' found recent tasks w =
    IsWhole-same net net' found recent (subst (λ t. IsOrderly t) (sym tasks) w.orderly) w

-- One rumor.
pub update_one-Runs :
    (env : Env) (rumor : Node) → IsKnown rumor → Runs IsWhole Any (update_one env rumor)
update_one-Runs env rumor known net w =
    let (s', runs, found) = try_update-news rumor net.members w.sound.members_keyed known in
    let (m', added, _) = add-merged env.slot rumor net.recent w.sound.recent_keyed known in
    let (net', h) = update_one-Heard env rumor net w.sound known in
    let apart = rw h.runs at (update_one-IsApart env rumor net w.sound known w.apart) in
    elim (news_cases (lookup net.members rumor.id) rumor) [
      | inl (old, _) ↦
          let e = update_one_dropped env rumor net s' (rw old at runs) in
          let q : record net { members = s' } ≡ net' = ap (λ r. r.1) (sym e ∙ h.runs) in
          rw h.runs (
            tt,
            record {
              sound = h.sound;
              apart = apart;
              distinct = rw (← q) w.distinct;
              orderly = rw (← q) w.orderly;
            },
          )
      | inr (new, _) ↦
          let e = update_one_taken env rumor net s' m' (rw new at runs) added in
          let q : record net { members = s'; recent = m' } ≡ net' =
            ap (λ r. r.1) (sym e ∙ h.runs) in
          rw h.runs (
            tt,
            record {
              sound = h.sound;
              apart = apart;
              distinct = rw (← q) (add-IsDistinct env.slot rumor net.recent m' w.distinct added);
              orderly = rw (← q) w.orderly;
            },
          )
    ]

-- The state once the stable ones are members.
pub IsWhole-settled :
    (env : Env)
    → IsPops env.pops
    → (net : GossipNet) → IsWhole net
    → (net' : GossipNet) → IsSound net'
    → IsApart net'
    → net'.recent ≡ (fetch_recent env net).members
    → net'.tasks ≡ net.tasks
    → IsWhole net'
IsWhole-settled env pops net w net' sound apart recent tasks = record {
  sound = sound;
  apart = apart;
  distinct =
      subst (λ m. IsDistinct m) (sym recent)
        (unfold fetch_recent in
          fetch-IsDistinct env.pops net.max_rumor_num _ net.recent w.distinct);
  orderly = subst (λ t. IsOrderly t) (sym tasks) w.orderly;
}

gather_rumors-Runs : (env : Env) → IsPops env.pops → Runs IsWhole Any (gather_rumors env)
unfolding gather_rumors
gather_rumors-Runs env pops net w =
    let (settled, kept) =
      fetch_recent_lem env net w.sound w.distinct (pops net.recent w.distinct) in
    let (net', e, _, sound, apart, recent, tasks) =
      add_members-Settled env net (fetch_recent env net) w.sound w.apart settled kept in
    rw e (
      fill_rumors-Runs IsWhole IsWhole-found (fetch_recent env net).recent net'
        (IsWhole-settled env pops net w net' sound apart recent tasks))

build_rumors-Runs : (env : Env) → IsPops env.pops → Runs IsWhole Any (build_rumors env)
build_rumors-Runs env pops net w =
    build_rumors_either env net (λ r. Ends Any r.0 × IsWhole r.1) (tt, w)
      (gather_rumors-Runs env pops net w)

add_task-Runs : (env : Env) (task : PingReqTask) → Runs IsWhole Any (add_task env task)
unfolding add_task
add_task-Runs env task net w = (
  tt,
  IsWhole-same net _ (λ j. refl) refl (add-IsOrderly env.slot env.now task net.tasks w.orderly) w,
)

pub IsWhole-Steady : (env : Env) → IsPops env.pops → IsSteady env IsKnown IsWhole
IsWhole-Steady env pops = record {
  hears = update_one-Runs env;
  builds = build_rumors-Runs env pops;
  adds = add_task-Runs env;
  fetches =
      λ id net w. IsWhole-same net _ (λ j. refl) refl (fetch-IsOrderly id net.tasks w.orderly) w;
  sends = λ events net w. IsWhole-same net _ (λ j. refl) refl w.orderly w;
  starts = λ running net w. IsWhole-same net _ (λ j. refl) refl w.orderly w;
}
