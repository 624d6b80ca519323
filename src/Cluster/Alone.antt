-- ===== src/Cluster/Alone.antt =====
-- The members of a cluster have no effect on each other: what each comes to, it comes to alone.
use gossip_net.Prelude.{ℕ, ◌^◌, ◌<◌, ◌≡◌, refl, none, some, Bytes, take, All}
use mathlib.Core.Path.{subst}
use gossip_net.Outcome.Ends.{Survives}
use gossip_net.Node.{Node}
use gossip_net.Node.Order.{IsKnown}
use gossip_net.Table.{find}
use gossip_net.Net.{Env, GossipNet}
use gossip_net.Net.Whole.{IsPops}
use gossip_net.Net.Story.{so_far, known_of, Story-told}
use gossip_net.Net.Story.Tells.{Tells, Tells-found, Tells-Steady}
use gossip_net.Members.Update.{lookup}
use gossip_net.Server.{Commands, on_event}
use gossip_net.Server.Calls.{
  Call, read_call, event_call, start_call, update_call, ack_call, ping_call, ack_as_call, add_call,
  do_call, perform, Meets, perform-Runs,
}
use gossip_net.Server.Life.{created, created-IsWhole}
use gossip_net.Cluster.{
  Cluster, Step, calls, hands_over, receives, Steps, none_yet, then_step, founded, IsOwn,
}
use gossip_net.Cluster.Quiet.{on_read_refused}
use gossip_net.Cluster.Silent.{put-all, All-Mem, IsSilent, Steps-Silent, founded-Silent}

-- What its user's calls and the handing over of its own datagrams make of a member.
pub data Alone (commands : Commands) (Permitted : Env → Call → Type 0) (net : GossipNet)
    : GossipNet → Type 0 where
  untouched : Alone commands Permitted net net
  own_call :
      {net' : GossipNet}
      → Alone commands Permitted net net'
      → (env : Env) (call : Call) → IsOwn call
      → Permitted env call
      → Survives (perform env commands call net').0
      → (net'' : GossipNet) → (perform env commands call net').1 ≡ net''
      → Alone commands Permitted net net''
  own_events :
      {net' : GossipNet}
      → Alone commands Permitted net net'
      → (net'' : GossipNet) → (on_event net').0 ≡ net''
      → Alone commands Permitted net net''

module _ (commands : Commands) (Permitted : ℕ → Env → Call → Type 0) (n : ℕ) (small : n < 2 ^ 60)
    (first : ℕ → GossipNet) where
  AllAlone : Cluster → Type 0
  AllAlone c = (i : ℕ) → Alone commands (Permitted i) (first i) (c.member i)

  Step-Alone :
      {c c' : Cluster}
      → Step commands Permitted c c'
      → IsSilent n small c
      → AllAlone c
      → AllAlone c'
  unfolding AllAlone
  Step-Alone {c = c} (calls i env call own permitted alive c' e) s a = subst AllAlone e (
      put-all (λ i. Alone commands (Permitted i) (first i)) c i _
        (own_call (a i) env call own permitted alive _ refl) a)
  Step-Alone {c = c} (hands_over i c' e) s a =
      subst AllAlone e
        (put-all (λ i. Alone commands (Permitted i) (first i)) c i _ (own_events (a i) _ refl) a)
  Step-Alone {c = c} (receives i env k buffer m alive c' e) s a =
      let refused = All-Mem (take k buffer) c.sent s.unread m in
      subst AllAlone e (
        put-all (λ i. Alone commands (Permitted i) (first i)) c i _
          (rw (on_read_refused env commands k buffer (c.member i) refused) (a i)) a)

  Steps-Alone :
      {c c' : Cluster}
      → Steps commands Permitted c c'
      → IsSilent n small c
      → AllAlone c
      → AllAlone c'
  Steps-Alone none_yet s a = a
  Steps-Alone (then_step {c' = before} steps c'' step) s a =
      Step-Alone step (Steps-Silent n small steps s) (Steps-Alone steps s a)

-- However many members there are, and however their datagrams come, late, repeated, reordered or not
-- at all: the state of each is one that the calls of its own user, with the handing over of its own
-- datagrams between them, lead to from its constructor, as if no other member existed. The limit of
-- the rumors in a message is below 2 ^ 60.
pub founded-Alone :
    (commands : Commands) (Permitted : ℕ → Env → Call → Type 0) (self : ℕ → Node) (seed : ℕ → ℕ)
    (n timeout : ℕ) (c : Cluster) (i : ℕ)
    → n < 2 ^ 60
    → Steps commands Permitted (founded self seed n timeout) c
    → Alone commands (Permitted i) (created (self i) (seed i) n timeout) (c.member i)
founded-Alone commands Permitted self seed n timeout c i small steps =
    unfold AllAlone in
    Steps-Alone commands Permitted n small (λ j. created (self j) (seed j) n timeout) steps
      (founded-Silent n small self seed timeout) (λ j. untouched) i

-- The rumors of a call are known ones, and such as `Told` holds of.
abbrev pub Says : (Node → Type 0) → Call → Type 0
Says Told (update_call rumors) = All (λ n. IsKnown n × Told n) rumors
Says Told _ = Unit

module _ (commands : Commands) (Permitted : Env → Call → Type 0) (Told : Node → Type 0)
    (says : (env : Env) (call : Call) → Permitted env call → IsPops env.pops × Says Told call) where
  own-Meets :
      (P : GossipNet → Type 0) (env : Env) (call : Call)
      → IsOwn call
      → Says Told call
      → Meets env (λ n. IsKnown n × Told n) P commands call
  own-Meets P env (read_call k buffer) own h = elim own [ ]
  own-Meets P env event_call own h = elim own [ ]
  own-Meets P env start_call own h = tt
  own-Meets P env (update_call rumors) own h = h
  own-Meets P env (ack_call dest) own h = tt
  own-Meets P env (ping_call dest) own h = tt
  own-Meets P env (ack_as_call dest self) own h = tt
  own-Meets P env (add_call task) own h = tt
  own-Meets P env (do_call id) own h = tt

  Tells-on_event :
      {j : Bytes} (net : GossipNet) → Tells Told j none net → Tells Told j none (on_event net).0
  unfolding on_event
  Tells-on_event net t = Tells-found Told _ none net _ (λ i. refl) refl refl t

  Alone-Tells :
      {net net' : GossipNet} (j : Bytes)
      → Alone commands Permitted net net'
      → Tells Told j none net
      → Tells Told j none net'
  Alone-Tells j untouched t = t
  Alone-Tells j (own_call {net' = before} a env call own permitted alive net'' e) t =
      let (pops, said) = says env call permitted in
      subst (Tells Told j none) e
        (perform-Runs env (λ n. IsKnown n × Told n) (Tells Told j none)
          (Tells-Steady Told j none env pops) commands call
          (own-Meets (Tells Told j none) env call own said) before (Alone-Tells j a t)).1
  Alone-Tells j (own_events {net' = before} a net'' e) t =
      subst (Tells Told j none) e (Tells-on_event before (Alone-Tells j a t))

-- In a cluster whose limit of rumors in a message is below 2 ^ 60, what a member knows of any id is what
-- its own user told it: no news ever comes from one member to another. That user tells it only rumors with
-- a status and a version of 64 bits, and its queue gives up each element once.
pub known_of-told :
    (commands : Commands) (Permitted : ℕ → Env → Call → Type 0) (self : ℕ → Node) (seed : ℕ → ℕ)
    (n timeout : ℕ) (c : Cluster) (i : ℕ) (Told : Node → Type 0)
    → n < 2 ^ 60
    → ((env : Env) (call : Call) → Permitted i env call → IsPops env.pops × Says Told call)
    → Steps commands Permitted (founded self seed n timeout) c
    → (j : Bytes) (m : Node) → known_of (c.member i) j ≡ some m
    → Told m
known_of-told commands Permitted self seed n timeout c i Told small says steps j m e =
    Story-told
      (Alone-Tells commands (Permitted i) Told says j
        (founded-Alone commands Permitted self seed n timeout c i small steps)
        (created-IsWhole (self i) (seed i) n timeout, unfold created find lookup in so_far)).1
      m e
