-- ===== src/Cluster/Quiet.antt =====
-- What a member sends cannot be read by any, whatever it knows.
use gossip_net.Prelude.{
  ℕ, ◌^◌, ◌<◌, ◌≤◌, ◌+◌, ◌-◌, ◌≡◌, refl, sym, ◌∙◌, inl, inr, Bool, true, false, none, some, Option,
  List, [], ◌∷◌, ◌++◌, Bytes, codes, take, length, length-append, ltb, ltb→lt, ◌==◌, arith,
  if◌then◌else◌, Bool-cases, All, All-snoc,
}
use mathlib.Core.Path.{subst}
use gossip_net.Outcome.{Outcome, ok, throws, fault, Error}
use gossip_net.Outcome.Ends.{Ends, Ends-map}
use gossip_net.Exec.{continue, ◌>>◌, lift, modify}
use gossip_net.Exec.Keeps.{
  Yields, Anything, Yields-any, Keeps, Keeps-continue, Keeps-bind, Keeps-lift,
}
use gossip_net.Decimal.Int.{ℤ, pos}
use gossip_net.Node.{Node}
use gossip_net.Pending
use gossip_net.Pending.{PingReqTask}
use gossip_net.Recent
use gossip_net.Members
use gossip_net.Members.{MemberSet, members, size}
use gossip_net.Members.Rotation.{length-fetch}
use gossip_net.Resp.{parse}
use gossip_net.Net.Lone.{build_rumors_either}
use gossip_net.Net.{
  Env, Event, GossipNet, start, send, update, update_one, update_recent, add_members, fill_rumors,
  fetch_recent, gather_rumors, build_rumors, message, send_message, ack_as, ack, ping, add_task,
  run_tasks, do_task,
}
use gossip_net.Net.Messages.{parse-message}
use gossip_net.Net.Tasks.{run_tasks_cons}
use gossip_net.Server.{Commands, on_read}
use gossip_net.Server.Handling.{handle_refused}
use gossip_net.Server.Calls.{
  Call, read_call, event_call, start_call, update_call, ack_call, ping_call, ack_as_call, add_call,
  do_call, perform,
}
use gossip_net.Cluster.{IsOwn}

-- Bytes that the parser of requests refuses.
abbrev pub IsRefused : Bytes → Type 0
IsRefused buffer = (e : Error) × (parse buffer ≡ throws e)

module _ (n : ℕ) (small : n < 2 ^ 60) where
  -- A member of that limit whose waiting messages nobody will read.
  pub record IsQuiet (net : GossipNet) : Type 0 where
    pub limit : net.max_rumor_num ≡ n
    pub waiting : All (λ (e : Event). IsRefused e.content) net.events

  -- Another state with the same limit and events.
  pub IsQuiet-same :
      (net net' : GossipNet)
      → net'.max_rumor_num ≡ net.max_rumor_num
      → net'.events ≡ net.events
      → IsQuiet net
      → IsQuiet net'
  IsQuiet-same net net' m e q = record {
    limit = m ∙ q.limit;
    waiting = subst (All (λ (e : Event). IsRefused e.content)) (sym e) q.waiting;
  }

  update_recent-Keeps : (env : Env) (o : Option Node) → Keeps IsQuiet Anything (update_recent env o)
  unfolding update_recent
  update_recent-Keeps env none net q = (tt, q)
  update_recent-Keeps env (some node) net q =
      Keeps-continue IsQuiet Anything Anything (Recent.add env.slot node net.recent) _ net
        (Yields-any (Recent.add env.slot node net.recent)) q
        (λ recent _ x h. (tt, IsQuiet-same x _ refl refl h))

  update-Keeps : (env : Env) (rumors : List Node) → Keeps IsQuiet Anything (update env rumors)
  unfolding update update_one
  update-Keeps env [] net q = (tt, q)
  update-Keeps env (r ∷ rs) net q =
      Keeps-bind IsQuiet Anything Anything (update_one env r) (λ _. update env rs)
        (λ x h.
          Keeps-continue IsQuiet Anything Anything (Members.try_update r x.members)
            (λ t. modify (λ n. record n { members = t.0 }) >> update_recent env t.1) x
            (Yields-any (Members.try_update r x.members)) h
            (λ t _ y g.
              update_recent-Keeps env t.1 (record y { members = t.0 })
                (IsQuiet-same y _ refl refl g)))
        (λ _ _. update-Keeps env rs) net q

  add_members-Keeps : (env : Env) (ns : List Node) → Keeps IsQuiet Anything (add_members env ns)
  unfolding add_members
  add_members-Keeps env [] net q = (tt, q)
  add_members-Keeps env (x ∷ xs) net q =
      Keeps-bind IsQuiet Anything Anything
        (λ net.
          continue (Members.add env.slot x net.members)
            (λ members. modify λ x. record x { members = members }) net)
        (λ _. add_members env xs)
        (λ y h.
          Keeps-continue IsQuiet Anything Anything (Members.add env.slot x y.members) _ y
            (Yields-any (Members.add env.slot x y.members)) h
            (λ s _ z g. (tt, IsQuiet-same z _ refl refl g)))
        (λ _ _. add_members-Keeps env xs) net q

  fetched-Keeps :
      (rumors : List Node) (r : Outcome (MemberSet × List Node)) (net : GossipNet)
      → Ends (λ q. length rumors + length q.1 ≤ n) r
      → IsQuiet net
      → Yields
          (λ (rs : List Node). length rs ≤ n)
          (continue {S = GossipNet} r
            (λ q x. (ok (rumors ++ q.1), record x { members = q.0 }))
            net).0
        × IsQuiet
            (continue {S = GossipNet} r
              (λ q x. (ok (rumors ++ q.1), record x { members = q.0 }))
              net).1
  fetched-Keeps rumors (ok q) net h g =
      (omega (arith, h, length-append rumors q.1), IsQuiet-same net _ refl refl g)
  fetched-Keeps rumors (throws e) net h g = (tt, g)
  fetched-Keeps rumors (fault x) net h g = (tt, g)

  fill_rumors-Keeps :
      (rumors : List Node) → Keeps IsQuiet (λ rs. length rs ≤ n) (fill_rumors rumors)
  unfolding fill_rumors
  fill_rumors-Keeps rumors net q = elim (Bool-cases (length rumors == net.max_rumor_num)) [
    | inl full ↦ let e : length rumors ≤ n = ground (arith, q.limit) in rw full (e, q)
    | inr more ↦ elim (Bool-cases (ltb (length rumors) net.max_rumor_num)) [
      | inl below ↦
          let asked = net.max_rumor_num - length rumors in
          let lt = ltb→lt (length rumors) net.max_rumor_num below in
          rw (more, below)
            (fetched-Keeps rumors (Members.fetch asked net.members) net
              (Ends-map (λ r. length r.1 ≤ asked) (λ r. length rumors + length r.1 ≤ n)
                (Members.fetch asked net.members) (length-fetch asked net.members)
                (λ r h. omega (arith, h, lt, q.limit)))
              q)
      | inr above ↦ rw (more, above) (tt, q)
    ]
  ]

  gather_rumors-Keeps : (env : Env) → Keeps IsQuiet (λ rs. length rs ≤ n) (gather_rumors env)
  unfolding gather_rumors
  gather_rumors-Keeps env net q =
      let fetched = fetch_recent env net in
      Keeps-bind IsQuiet Anything (λ rs. length rs ≤ n) (add_members env fetched.stable)
        (λ _. fill_rumors fetched.recent) (add_members-Keeps env fetched.stable)
        (λ _ _. fill_rumors-Keeps fetched.recent) (record net { recent = fetched.members })
        (IsQuiet-same net _ refl refl q)

  build_rumors-Keeps : (env : Env) → Keeps IsQuiet (λ rs. length rs ≤ n) (build_rumors env)
  build_rumors-Keeps env net q =
      build_rumors_either env net (λ r. Yields (λ rs. length rs ≤ n) r.0 × IsQuiet r.1) (tt, q)
        (gather_rumors-Keeps env net q)

  message-Refused :
      (name : Bytes) (self : Node) (rumors : List Node) (r : Outcome Bytes)
      → length rumors ≤ n
      → message name self rumors ≡ r
      → Yields IsRefused r
  message-Refused name self rumors (ok text) h e =
      (_, parse-message name self rumors text (omega (arith, small)) e)
  message-Refused name self rumors (throws e) h q = tt
  message-Refused name self rumors (fault x) h q = tt

  send-Keeps :
      (ip : Bytes) (port : ℤ) (content : Bytes)
      → IsRefused content
      → Keeps IsQuiet Anything (send ip port content)
  unfolding send
  send-Keeps ip port content r net q = (
    tt,
    record {
      limit = q.limit;
      waiting = All-snoc (λ (e : Event). IsRefused e.content) net.events _ q.waiting r;
    },
  )

  send_message-Keeps :
      (env : Env) (name : Bytes) (dest self : Node)
      → Keeps IsQuiet Anything (send_message env name dest self)
  unfolding send_message
  send_message-Keeps env name dest self =
      Keeps-bind IsQuiet (λ rs. length rs ≤ n) Anything (build_rumors env) _
        (build_rumors-Keeps env)
        λ rumors few.
          Keeps-bind IsQuiet IsRefused Anything (lift (message name self rumors))
            (λ content. send dest.ip dest.port content)
            (Keeps-lift IsQuiet IsRefused (message name self rumors)
              (message-Refused name self rumors (message name self rumors) few refl))
            (λ content r. send-Keeps dest.ip dest.port content r)

  ack_as-Keeps : (env : Env) (dest self : Node) → Keeps IsQuiet Anything (ack_as env dest self)
  unfolding ack_as
  ack_as-Keeps env dest self = send_message-Keeps env (codes "ack") dest self

  run_tasks-Keeps :
      (env : Env) (ts : List (Option PingReqTask)) → Keeps IsQuiet Anything (run_tasks env ts)
  unfolding run_tasks
  run_tasks-Keeps env [] net q = (tt, q)
  run_tasks-Keeps env (none ∷ ts) net q = (tt, q)
  run_tasks-Keeps env (some t ∷ ts) net q = rw (run_tasks_cons env t ts net) (
      Keeps-bind IsQuiet Anything Anything (ack_as env t.dest t.peer) (λ _. run_tasks env ts)
        (ack_as-Keeps env t.dest t.peer) (λ _ _. run_tasks-Keeps env ts) net q)

  either-Quiet :
      (b : Bool) (r r' : Outcome (Unit {0}) × GossipNet)
      → Yields Anything r.0 × IsQuiet r.1
      → Yields Anything r'.0 × IsQuiet r'.1
      → Yields Anything (if◌then◌else◌ {A = Outcome (Unit {0}) × GossipNet} b r r').0
        × IsQuiet (if◌then◌else◌ {A = Outcome (Unit {0}) × GossipNet} b r r').1
  either-Quiet true r r' h h' = h
  either-Quiet false r r' h h' = h'

  pub perform-Keeps :
      (env : Env) (commands : Commands) (c : Call)
      → IsOwn c
      → Keeps IsQuiet Anything (perform env commands c)
  unfolding perform start ack ping add_task do_task
  perform-Keeps env commands (read_call k buffer) h = elim h [ ]
  perform-Keeps env commands event_call h = elim h [ ]
  perform-Keeps env commands (update_call rumors) h = update-Keeps env rumors
  perform-Keeps env commands start_call h =
      λ net q. either-Quiet net.running _ _ (tt, q) (tt, IsQuiet-same net _ refl refl q)
  perform-Keeps env commands (ack_call dest) h = λ net q. ack_as-Keeps env dest net.self net q
  perform-Keeps env commands (ping_call dest) h =
      λ net q. send_message-Keeps env (codes "ping") dest net.self net q
  perform-Keeps env commands (ack_as_call dest self) h = ack_as-Keeps env dest self
  perform-Keeps env commands (add_call task) h = λ net q. (tt, IsQuiet-same net _ refl refl q)
  perform-Keeps env commands (do_call id) h = λ net q.
      run_tasks-Keeps env (Pending.fetch id net.tasks).1
        (record net { tasks = (Pending.fetch id net.tasks).0 }) (IsQuiet-same net _ refl refl q)

-- Bytes that are refused change nothing.
pub on_read_refused :
    (env : Env) (commands : Commands) (k : ℕ) (buffer : Bytes) (net : GossipNet)
    → IsRefused (take k buffer)
    → on_read env commands (pos k) buffer net ≡ (ok tt, net)
unfolding on_read
on_read_refused env commands k buffer net (e, h) = elim (Bool-cases (k == 0)) [
  | inl z ↦ rw z refl
  | inr z ↦ rw z (handle_refused env commands (take k buffer) net e h)
]
