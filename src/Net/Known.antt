-- ===== src/Net/Known.antt =====
-- What holds of every node that a member of gossip_net.cpp has, and of those that it sends.
use gossip_net.Prelude.{
  ◌-◌, ◌≡◌, refl, sym, ◌∙◌, inl, inr, some, none, Option, List, [], ◌∷◌, length, ltb, ◌==◌,
  Bool-cases, All,
}
use mathlib.Core.Path.{subst}
use gossip_net.Outcome.Ends.{Ends}
use gossip_net.Exec.{Exec, continue, modify}
use gossip_net.Exec.Runs.{Runs, Any}
use gossip_net.Exec.Keeps.{Yields, Anything, Keeps, Keeps-continue, Keeps-bind}
use gossip_net.Node.{Node}
use gossip_net.Node.Order.{IsKnown}
use gossip_net.Table.Every.{All-append, Every-found, Every-find}
use gossip_net.Recent
use gossip_net.Recent.{RecentlyUpdatedSet, Member}
use gossip_net.Recent.Known.{EveryRecent, IsEvery, fetch-IsEvery}
use gossip_net.Members
use gossip_net.Members.{MemberSet}
use gossip_net.Members.Known.{EveryMember, Updates, try_update-Updates, fetch-All}
use gossip_net.Net.Lone.{build_rumors_either}
use gossip_net.Net.{
  Env, Event, GossipNet, update_one, update, update_recent, add_members, fill_rumors, fetch_recent,
  gather_rumors, build_rumors, add_task,
}
use gossip_net.Net.Gather.{IsQueue}
use gossip_net.Net.Steady.{IsSteady}
use gossip_net.Net.Whole.{IsWhole, IsPops, IsWhole-Steady}

module _ (Q : Node → Type 0) (events : List Event) where
  -- Every node is such, and these events wait.
  pub record IsFilled (net : GossipNet) : Type 0 where
    pub members : EveryMember Q net.members
    pub recent : EveryRecent Q net.recent
    pub waiting : net.events ≡ events

  update_recent-Keeps :
      (env : Env) (o : Option Node)
      → ((n : Node) → o ≡ some n → Q n)
      → Keeps IsFilled Anything (update_recent env o)
  unfolding update_recent
  update_recent-Keeps env none q net f = (tt, f)
  update_recent-Keeps env (some n) q net f =
      Keeps-continue IsFilled (EveryRecent Q) Anything (Recent.add env.slot n net.recent) _ net
        (Recent.Known.add-Every Q env.slot n net.recent (q n refl) f.recent) f
        (λ m h x g. (tt, record { members = g.members; recent = h; waiting = g.waiting }))

  pub update_one-Keeps :
      (env : Env) (rumor : Node) → Q rumor → Keeps IsFilled Anything (update_one env rumor)
  unfolding update_one
  update_one-Keeps env rumor q net f =
      Keeps-continue IsFilled (Updates Q rumor) Anything (Members.try_update rumor net.members) _
        net (try_update-Updates Q rumor net.members f.members) f
        (λ r h x g.
          update_recent-Keeps env r.1 (λ n e. subst Q (sym (h.1 n e)) q)
            (record x { members = r.0 })
            (record { members = h.0; recent = g.recent; waiting = g.waiting }))

  pub update-Keeps :
      (env : Env) (rumors : List Node) → All Q rumors → Keeps IsFilled Anything (update env rumors)
  unfolding update
  update-Keeps env [] a net f = (tt, f)
  update-Keeps env (r ∷ rs) a net f =
      Keeps-bind IsFilled Anything Anything (update_one env r) (λ _. update env rs)
        (update_one-Keeps env r a.0) (λ _ _. update-Keeps env rs a.1) net f

  add_members-Keeps :
      (env : Env) (ns : List Node) → All Q ns → Keeps IsFilled Anything (add_members env ns)
  unfolding add_members
  add_members-Keeps env [] a net f = (tt, f)
  add_members-Keeps env (n ∷ ns) a net f =
      Keeps-bind IsFilled Anything Anything
        (λ net.
          continue (Members.add env.slot n net.members)
            (λ members. modify λ x. record x { members = members }) net)
        (λ _. add_members env ns)
        (λ y h.
          Keeps-continue IsFilled (EveryMember Q) Anything (Members.add env.slot n y.members) _ y
            (Members.Known.add-Every Q env.slot n y.members a.0 h.members) h
            (λ s e z g. (tt, record { members = e; recent = g.recent; waiting = g.waiting })))
        (λ _ _. add_members-Keeps env ns a.1) net f

  fill_rumors-Keeps :
      (rumors : List Node) → All Q rumors → Keeps IsFilled (All Q) (fill_rumors rumors)
  unfolding fill_rumors
  fill_rumors-Keeps rumors a net f = elim (Bool-cases (length rumors == net.max_rumor_num)) [
    | inl full ↦ rw full (a, f)
    | inr more ↦ elim (Bool-cases (ltb (length rumors) net.max_rumor_num)) [
      | inr above ↦ rw (more, above) (tt, f)
      | inl below ↦
          rw (more, below)
            (Keeps-continue IsFilled (λ r. All Q r.1 × EveryMember Q r.0) (All Q)
              (Members.fetch (net.max_rumor_num - length rumors) net.members) _ net
              (fetch-All Q (net.max_rumor_num - length rumors) net.members f.members) f
              (λ r h x g. (
                All-append Q rumors r.1 a h.0,
                record { members = h.1; recent = g.recent; waiting = g.waiting },
              )))
    ]
  ]

  -- The queue has the elements of the set, and no others.
  pops-Every :
      (env : Env) (m : RecentlyUpdatedSet)
      → IsQueue env.pops m
      → EveryRecent Q m
      → EveryRecent Q (env.pops m)
  pops-Every env m queue h =
      Every-found (λ (x : Member). Q x.node) (env.pops m) queue.once
        (λ k x e. Every-find (λ (x : Member). Q x.node) k x m h (sym (queue.same_elements k) ∙ e))

  gather_rumors-Keeps :
      (env : Env) (net : GossipNet)
      → IsQueue env.pops net.recent
      → IsFilled net
      → Yields (All Q) (gather_rumors env net).0 × IsFilled (gather_rumors env net).1
  unfolding gather_rumors
  gather_rumors-Keeps env net queue f =
      let fetched = fetch_recent env net in
      let every : IsEvery Q fetched =
        unfold fetch_recent in
        fetch-IsEvery Q env.pops net.max_rumor_num _ net.recent f.recent
          (pops-Every env net.recent queue f.recent) in
      Keeps-bind IsFilled Anything (All Q) (add_members env fetched.stable)
        (λ _. fill_rumors fetched.recent) (add_members-Keeps env fetched.stable every.stable)
        (λ _ _. fill_rumors-Keeps fetched.recent every.recent)
        (record net { recent = fetched.members })
        (record { members = f.members; recent = every.members; waiting = f.waiting })

  pub build_rumors-Keeps :
      (env : Env) (net : GossipNet)
      → IsQueue env.pops net.recent
      → IsFilled net
      → Yields (All Q) (build_rumors env net).0 × IsFilled (build_rumors env net).1
  build_rumors-Keeps env net queue f =
      build_rumors_either env net (λ r. Yields (All Q) r.0 × IsFilled r.1) (tt, f)
        (gather_rumors-Keeps env net queue f)

module _ (Q : Node → Type 0) where
  -- The invariant of a member all of whose nodes are such.
  abbrev pub IsFull : GossipNet → Type 0
  IsFull net = IsWhole net × IsFilled Q net.events net

  IsFull-Runs :
      {A : Type 0} (m : Exec GossipNet A)
      → Runs IsWhole Any m
      → (net : GossipNet) → IsFull net
      → Keeps (IsFilled Q net.events) Anything m
      → Ends Any (m net).0 × IsFull (m net).1
  IsFull-Runs m runs net (w, f) keeps =
      let (ends, w') = runs net w in
      let f' = (keeps net f).1 in
      (ends, (w', record { members = f'.members; recent = f'.recent; waiting = refl }))

  IsFull-build_rumors : (env : Env) → IsPops env.pops → Runs IsFull Any (build_rumors env)
  IsFull-build_rumors env pops net (w, f) =
      let (ends, w') = (IsWhole-Steady env pops).builds net w in
      let f' = (build_rumors-Keeps Q net.events env net (pops net.recent w.distinct) f).1 in
      (ends, (w', record { members = f'.members; recent = f'.recent; waiting = refl }))

  refilled :
      (net net' : GossipNet)
      → net'.members ≡ net.members
      → net'.recent ≡ net.recent
      → IsFilled Q net.events net
      → IsFilled Q net'.events net'
  refilled net net' e g f = record {
    members = subst (EveryMember Q) (sym e) f.members;
    recent = subst (EveryRecent Q) (sym g) f.recent;
    waiting = refl;
  }

  -- It is kept by every call whose rumors are such.
  pub IsFull-Steady : (env : Env) → IsPops env.pops → IsSteady env (λ n. IsKnown n × Q n) IsFull
  IsFull-Steady env pops =
      let whole = IsWhole-Steady env pops in
      record {
        hears = λ rumor h net f.
            IsFull-Runs (update_one env rumor) (whole.hears rumor h.0) net f
              (update_one-Keeps Q net.events env rumor h.1);
        builds = IsFull-build_rumors env pops;
        adds = λ task net f.
            unfold add_task in (tt, ((whole.adds task net f.0).1, refilled net _ refl refl f.1));
        fetches = λ id net f. (whole.fetches id net f.0, refilled net _ refl refl f.1);
        sends = λ events net f. (whole.sends events net f.0, refilled net _ refl refl f.1);
        starts = λ running net f. (whole.starts running net f.0, refilled net _ refl refl f.1);
      }
