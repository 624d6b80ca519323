-- ===== src/Server/Lossless.antt =====
-- What the calls of gossip_net.cpp by which a member hears of nobody leave of what it knows.
use gossip_net.Prelude.{ℕ, ◌≡◌, ◌⊎◌, refl, sym, inl, inr, true, some, none, Option, Bytes}
use gossip_net.Node.{Node, is_failed}
use gossip_net.Node.Order.{IsKnown}
use gossip_net.Net.{Env, GossipNet}
use gossip_net.Net.Whole.{IsPops}
use gossip_net.Net.Story.{Story, so_far, begins, rises, forgets, known_of}
use gossip_net.Net.Story.Tells.{Tells, Tells-Steady}
use gossip_net.Server.{Commands}
use gossip_net.Server.Calls.{
  Call, read_call, event_call, start_call, update_call, ack_call, ping_call, ack_as_call, add_call,
  do_call, perform, perform-Runs, Meets,
}
use gossip_net.Server.Life.{created, Reach, reached-IsWhole}

-- All calls but an `update` and a datagram.
abbrev pub IsDeaf : Call → Type 0
IsDeaf (read_call n buffer) = ⊥
IsDeaf (update_call rumors) = ⊥
IsDeaf _ = Unit

-- What was known is known, with nothing of it changed, or it was that the id failed and is forgotten.
abbrev pub KnownAfter : Option Node → Option Node → Type 0
KnownAfter o o' = (o' ≡ o) ⊎ ((n : Node) × (o ≡ some n) × (is_failed n.status ≡ true) × (o' ≡ none))

-- No news at all.
abbrev Nobody : Node → Type 0
Nobody n = ⊥

Story-KnownAfter : (j : Bytes) (o o' : Option Node) → Story Nobody j o o' → KnownAfter o o'
Story-KnownAfter j o o' so_far = inl refl
Story-KnownAfter j o o' (begins s n named told) = absurd told
Story-KnownAfter j o o' (rises s n named told up) = absurd told
Story-KnownAfter j o o' (forgets {m} s failed) = elim (Story-KnownAfter j o (some m) s) [
  | inl e ↦ inr (m, sym e, failed, refl)
  | inr (_, _, _, e) ↦ cc
]

deaf-Meets :
    (env : Env) (P : GossipNet → Type 0) (commands : Commands) (c : Call)
    → IsDeaf c
    → Meets env (λ n. IsKnown n × Nobody n) P commands c
deaf-Meets env P commands (read_call n buffer) h = absurd h
deaf-Meets env P commands event_call h = tt
deaf-Meets env P commands start_call h = tt
deaf-Meets env P commands (update_call rumors) h = absurd h
deaf-Meets env P commands (ack_call dest) h = tt
deaf-Meets env P commands (ping_call dest) h = tt
deaf-Meets env P commands (ack_as_call dest self) h = tt
deaf-Meets env P commands (add_call task) h = tt
deaf-Meets env P commands (do_call id) h = tt

-- In every state that calls lead to from the constructor, datagrams of any bytes among them, a call that
-- is no `update` and reads no datagram, whatever its outcome, leaves the node that the member has of
-- each id, in the one or the other set, exactly as it was, or drops it if its status is FAILED: however
-- many messages it makes, and however many nodes go from the recently updated ones to the stable ones
-- on the way, none is lost or changed. A user's own rumors have a status and a version of 64
-- bits, and the queue gives up each element once.
pub perform-known :
    (commands : Commands) (self : Node) (seed n timeout : ℕ) (net : GossipNet)
    → Reach commands (created self seed n timeout) net
    → (env : Env) → IsPops env.pops
    → (c : Call) → IsDeaf c
    → (j : Bytes) → KnownAfter (known_of net j) (known_of (perform env commands c net).1 j)
perform-known commands self seed n timeout net reached env pops c deaf j =
    let o = known_of net j in
    let P = Tells Nobody j o in
    Story-KnownAfter j o _
      (perform-Runs env (λ n. IsKnown n × Nobody n) P (Tells-Steady Nobody j o env pops) commands c
        (deaf-Meets env P commands c deaf) net
        (reached-IsWhole commands self seed n timeout net reached, so_far)).1.1
