-- ===== src/Net/Written.antt =====
-- What a member of gossip_net.cpp sends by `ack` and `ping`, on every branch.
use gossip_net.Prelude.{
  ℕ, ◌+◌, ◌-◌, ◌≤◌, ◌≡◌, ◌⊎◌, refl, inl, inr, true, List, [], ◌∷◌, ◌++◌, length-append, arith,
  Bytes, take, length, ltb, ltb→lt, ◌==◌, Bool-cases, All,
}
use gossip_net.Outcome.{Outcome, ok, fault, Fault}
use gossip_net.Decimal.Int.{pos}
use gossip_net.Node.{Node}
use gossip_net.Node.Order.{IsKnown}
use gossip_net.Resp.Builder.{append_array}
use gossip_net.Members
use gossip_net.Members.{MemberSet, size, nodes, members}
use gossip_net.Members.Rounds.{turn}
use gossip_net.Members.Rotation.{fetch_below, fetch_zero, fetch_above, fetch_equal, length-fetch}
use gossip_net.Net.{
  Env, Event, GossipNet, fetch_recent, fill_rumors, build_rumors, send, send_message,
}
use gossip_net.Net.Lone.{IsLone, build_rumors_lone}
use gossip_net.Net.Rumors.{IsStuck, build_rumors_fills, build_rumors_faults}
use gossip_net.Net.Messages.{words, strings, IsSendable, message-words}
use gossip_net.Net.Known.{IsFull, build_rumors-Keeps}
use gossip_net.Net.Whole.{IsPops}

-- The datagram of these rumors, to the address of a node.
abbrev pub datagram : Bytes → Node → Node → List Node → Event
datagram name dest self rumors = record {
  ip = dest.ip;
  port = dest.port;
  content =
      strings (append_array [] (pos (length (words name self rumors)))) (words name self rumors);
}

fetch-cases :
    (num : ℕ) (s : MemberSet)
    → ((x : Fault) × (Members.fetch num s ≡ fault x))
      ⊎ ((r : MemberSet × List Node) × (Members.fetch num s ≡ ok r) × (length r.1 ≤ num))
fetch-cases num s = elim (Bool-cases (ltb num (size s))) [
  | inl below ↦ elim (fetch_below num s (ltb→lt num (size s) below)) [
    | inl (_, s', q, t) ↦ inr ((s', nodes (take num (turn s))), q, rw q at (length-fetch num s))
    | inr (_, q) ↦ inl (_, q)
  ]
  | inr not_below ↦ elim (Bool-cases (ltb (size s) num)) [
    | inl above ↦
        let q = fetch_above num s (ltb→lt (size s) num above) in
        inr ((s, nodes (members s)), q, rw q at (length-fetch num s))
    | inr not_above ↦ elim (Bool-cases (num == 0)) [
      | inl none_asked ↦ inr ((s, []), fetch_zero num s (ground arith), omega arith)
      | inr some_asked ↦ inl (_, fetch_equal num s (ground arith) (λ z. ground arith))
    ]
  ]
]

-- A list comes back, of so many nodes at most, or the call aborts.
abbrev Fills : ℕ → Outcome (List Node) × GossipNet → Type 0
Fills max r =
    ((x : Fault) × (r.0 ≡ fault x))
    ⊎ ((rumors : List Node) × (r.0 ≡ ok rumors) × (length rumors ≤ max))

fill_rumors-Fills :
    (rumors : List Node) (net : GossipNet)
    → length rumors ≤ net.max_rumor_num
    → Fills net.max_rumor_num (fill_rumors rumors net)
unfolding fill_rumors
fill_rumors-Fills rumors net le = elim (Bool-cases (length rumors == net.max_rumor_num)) [
  | inl full ↦ rw full (inr (rumors, refl, le))
  | inr more ↦
      let below : ltb (length rumors) net.max_rumor_num ≡ true = ground arith in
      rw (more, below)
        (elim (fetch-cases (net.max_rumor_num - length rumors) net.members) [
          | inl (x, e) ↦ rw e (inl (x, refl))
          | inr (r, e, few) ↦
              rw e (inr (rumors ++ r.1, refl, omega (arith, length-append rumors r.1)))
        ])
]

pub build_rumors-Fills :
    (env : Env)
    → IsPops env.pops
    → (net : GossipNet) → IsFull IsKnown net
    → Fills net.max_rumor_num (build_rumors env net)
build_rumors-Fills env pops net (w, f) =
    elim (Bool-cases (size net.members + length net.recent == 0)) [
      | inl e ↦
          let lone : IsLone net = ground arith in
          rw (build_rumors_lone env net lone) (inl (_, refl))
      | inr e ↦
          let known : IsLone net → ⊥ = λ lone. ground arith in
          let (net', fills, _, kept, few) =
            build_rumors_fills env net w.sound w.apart w.distinct (pops net.recent w.distinct)
              known in
          rw fills (rw kept at (fill_rumors-Fills (fetch_recent env net).recent net' (rw kept few)))
    ]

All-IsSendable : (ns : List Node) → All IsKnown ns → All IsSendable ns
All-IsSendable [] h = tt
All-IsSendable (n ∷ ns) h = (h.0.known, All-IsSendable ns h.1)

-- What a message and its sending come to, by what `_build_rumors` does.
send_message_faults :
    (env : Env) (name : Bytes) (dest self : Node) (net : GossipNet) (x : Fault)
    → (build_rumors env net).0 ≡ fault x
    → send_message env name dest self net ≡ (fault x, (build_rumors env net).1)
unfolding send_message
send_message_faults env name dest self net x e = rw e refl

send_message_sends :
    (env : Env) (name : Bytes) (dest self : Node) (net : GossipNet) (rumors : List Node)
    → (build_rumors env net).0 ≡ ok rumors
    → All IsKnown rumors
    → send_message env name dest self net ≡ (
      ok tt,
      record (build_rumors env net).1 {
        events = (build_rumors env net).1.events ++ datagram name dest self rumors ∷ [];
      },
    )
unfolding send_message send
send_message_sends env name dest self net rumors e known =
    rw (e, message-words name self rumors (All-IsSendable rumors known)) refl

-- It is stuck, with no datagram more, or there is one.
abbrev pub Wrote : Env → Bytes → Node → Node → GossipNet → Outcome (Unit {0}) × GossipNet → Type 0
Wrote env name dest self net r =
    (IsStuck env net × (x : Fault) × (r.0 ≡ fault x) × (r.1.events ≡ net.events))
    ⊎ ((rumors : List Node) × (IsStuck env net → ⊥)
        × All IsKnown rumors
        × (length rumors ≤ net.max_rumor_num)
        × (r.0 ≡ ok tt)
        × (r.1.events ≡ net.events ++ datagram name dest self rumors ∷ []))

abbrev pub Writes : Env → Bytes → Node → Node → GossipNet → Type 0
Writes env name dest self net = Wrote env name dest self net (send_message env name dest self net)

pub send_message-Writes :
    (env : Env)
    → IsPops env.pops
    → (name : Bytes) (dest self : Node) (net : GossipNet) → IsFull IsKnown net
    → Writes env name dest self net
send_message-Writes env pops name dest self net (w, f) =
    let queue = pops net.recent w.distinct in
    let faults = build_rumors_faults env net w.sound w.apart w.distinct queue in
    let (known, filled) = build_rumors-Keeps IsKnown net.events env net queue f in
    elim (build_rumors-Fills env pops net (w, f)) [
      | inl (x, e) ↦
          let q = send_message_faults env name dest self net x e in
          inl (faults.0 (x, e), x, rw q refl, rw q filled.waiting)
      | inr (rumors, e, few) ↦
          let known' : All IsKnown rumors = rw e at known in
          let sends = send_message_sends env name dest self net rumors e known' in
          inr (
            rumors,
            λ stuck. let (x, q) = faults.1 stuck in cc,
            known',
            few,
            rw sends refl,
            rw sends (rw filled.waiting refl),
          )
    ]
