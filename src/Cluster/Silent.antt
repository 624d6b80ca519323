-- ===== src/Cluster/Silent.antt =====
-- What the members of a cluster make of each other's datagrams.
use gossip_net.Prelude.{
  ℕ, ◌^◌, ◌<◌, ◌≡◌, refl, inl, inr, List, [], ◌∷◌, ◌++◌, Bytes, take, ◌==◌, Bool-cases, All, arith,
}
use mathlib.Core.Path.{subst}
use mathlib.Core.List.{Memᴰ}
use gossip_net.Outcome.{ok}
use gossip_net.Decimal.Int.{pos}
use gossip_net.Node.{Node}
use gossip_net.Net.{Env, Event, GossipNet}
use gossip_net.Server.{Commands, on_read, on_event}
use gossip_net.Server.Calls.{Call}
use gossip_net.Server.Life.{created}
use gossip_net.Cluster.{
  Cluster, put, contents, Step, calls, hands_over, receives, Steps, none_yet, then_step, founded,
}
use gossip_net.Cluster.Quiet.{IsRefused, IsQuiet, perform-Keeps, on_read_refused}

pub All-Mem : (b : Bytes) (bs : List Bytes) → All IsRefused bs → Memᴰ b bs → IsRefused b
All-Mem b [] a m = elim m [ ]
All-Mem b (x ∷ bs) a (Memᴰ.head e) = rw e a.0
All-Mem b (x ∷ bs) a (Memᴰ.tail m) = All-Mem b bs a.1 m

All-contents :
    (events : List Event) (bs : List Bytes)
    → All IsRefused bs
    → All (λ (e : Event). IsRefused e.content) events
    → All IsRefused (bs ++ contents events)
All-contents [] [] a h = tt
All-contents (e ∷ events) [] a h = (h.0, All-contents events [] a h.1)
All-contents events (b ∷ bs) a h = (a.0, All-contents events bs a.1 h)

-- A change of one member.
pub put-all :
    (Q : ℕ → GossipNet → Type 0) (c : Cluster) (i : ℕ) (net : GossipNet)
    → Q i net
    → ((j : ℕ) → Q j (c.member j))
    → (j : ℕ) → Q j ((put i net c).member j)
put-all Q c i net a all j = elim (Bool-cases (j == i)) [
  | inl hit ↦ rw hit (subst (λ k. Q k net) (ground (arith, hit)) a)
  | inr miss ↦ rw miss (all j)
]

module _ (n : ℕ) (small : n < 2 ^ 60) where
  -- Every member is quiet, and nothing on the network can be read.
  pub record IsSilent (c : Cluster) : Type 0 where
    pub quiet : (i : ℕ) → IsQuiet n small (c.member i)
    pub unread : All IsRefused c.sent

  Step-Silent :
      {commands : Commands} {Permitted : ℕ → Env → Call → Type 0} {c c' : Cluster}
      → Step commands Permitted c c'
      → IsSilent c
      → IsSilent c'
  unfolding on_event
  Step-Silent {c = c} (calls i env call own permitted alive c' e) s = subst IsSilent e (record {
    quiet =
        put-all (λ _. IsQuiet n small) c i _
          (perform-Keeps n small env _ call own (c.member i) (s.quiet i)).1 s.quiet;
    unread = s.unread;
  })
  Step-Silent {c = c} (hands_over i c' e) s = subst IsSilent e (record {
    quiet =
        put-all (λ _. IsQuiet n small) c i _ (record { limit = (s.quiet i).limit; waiting = tt })
          s.quiet;
    unread = All-contents (c.member i).events c.sent s.unread (s.quiet i).waiting;
  })
  Step-Silent {c = c} (receives i env k buffer m alive c' e) s =
      let refused = All-Mem (take k buffer) c.sent s.unread m in
      subst IsSilent e (record {
        quiet =
            put-all (λ _. IsQuiet n small) c i _
              (rw (on_read_refused env _ k buffer (c.member i) refused) (s.quiet i)) s.quiet;
        unread = s.unread;
      })

  pub Steps-Silent :
      {commands : Commands} {Permitted : ℕ → Env → Call → Type 0} {c c' : Cluster}
      → Steps commands Permitted c c'
      → IsSilent c
      → IsSilent c'
  Steps-Silent none_yet s = s
  Steps-Silent (then_step {c' = before} steps c'' step) s = Step-Silent step (Steps-Silent steps s)

  pub founded-Silent :
      (self : ℕ → Node) (seed : ℕ → ℕ) (timeout : ℕ) → IsSilent (founded self seed n timeout)
  unfolding created
  founded-Silent self seed timeout = record {
    quiet = λ i. record { limit = refl; waiting = tt };
    unread = tt;
  }

-- However many members there are, whatever rumors their users give them, and however they call and
-- answer, with datagrams late, repeated, reordered or lost: a datagram that any of them sent, read
-- by any of them, changes nothing there. The limit of the rumors in a message is below 2 ^ 60.
pub sent-on_read :
    (commands : Commands) (Permitted : ℕ → Env → Call → Type 0) (self : ℕ → Node) (seed : ℕ → ℕ)
    (n timeout : ℕ) (c : Cluster) (env : Env) (i k : ℕ) (buffer : Bytes)
    → n < 2 ^ 60
    → Steps commands Permitted (founded self seed n timeout) c
    → Memᴰ (take k buffer) c.sent
    → on_read env commands (pos k) buffer (c.member i) ≡ (ok tt, c.member i)
sent-on_read commands Permitted self seed n timeout c env i k buffer small steps m =
    let s = Steps-Silent n small steps (founded-Silent n small self seed timeout) in
    on_read_refused env commands k buffer (c.member i) (All-Mem (take k buffer) c.sent s.unread m)
