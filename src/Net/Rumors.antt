-- ===== src/Net/Rumors.antt =====
-- When `_build_rumors` aborts.
use gossip_net.Prelude.{
  ℕ, ap, ◌⊎◌, ◌<◌, ◌^◌, ltb→lt, ◌+◌, ◌-◌, ◌≡◌, ◌≢◌, ◌≤◌, ◌↔◌, refl, sym, ◌∙◌, inl, inr, true, List,
  [], ◌∷◌, ◌++◌, arith, length, ltb, Bool-cases, ◌==◌,
}
use gossip_net.Outcome.{bad_cast, Outcome, ok, throws, fault, Fault}
use gossip_net.Exec.{Exec, continue, ◌>>◌}
use gossip_net.Node.{Node}
use gossip_net.Table.Laws.{IsDistinct}
use gossip_net.Recent.Spread.{fetch-length}
use gossip_net.Members
use gossip_net.Members.{MemberSet, size}
use gossip_net.Members.Rotation.{IsStopped, fetch_faults}
use gossip_net.Members.Update.{add-size}
use gossip_net.Net.Lone.{IsLone, build_rumors_lone, build_rumors_known}
use gossip_net.Net.{
  gather_rumors, Env, GossipNet, add_members, fill_rumors, fetch_recent, build_rumors,
}
use gossip_net.Net.Merge.{IsSound}
use gossip_net.Net.Apart.{IsApart}
use gossip_net.Net.Gather.{add_members_cons, IsQueue, add_members-IsApart}

-- If the rest is added, the first was.
first_added :
    (env : Env) (n : Node) (ns : List Node) (net net' : GossipNet) (r : Outcome MemberSet)
    → Members.add env.slot n net.members ≡ r
    → add_members env (n ∷ ns) net ≡ (ok tt, net')
    → (s : MemberSet) × (Members.add env.slot n net.members ≡ ok s)
      × (add_members env ns (record net { members = s }) ≡ (ok tt, net'))
first_added env n ns net net' (ok s) h e = (s, h, sym (add_members_cons env n ns net s h) ∙ e)
first_added env n ns net net' (throws x) h e =
    let q : add_members env (n ∷ ns) net ≡ (throws x, net) = unfold add_members in rw h refl in cc
first_added env n ns net net' (fault x) h e =
    let q : add_members env (n ∷ ns) net ≡ (fault x, net) = unfold add_members in rw h refl in cc

pub add_members-size :
    (env : Env) (ns : List Node) (net net' : GossipNet)
    → add_members env ns net ≡ (ok tt, net')
    → (size net'.members ≡ size net.members + length ns) × (net'.max_rumor_num ≡ net.max_rumor_num)
add_members-size env [] net net' e =
    let none_added : add_members env [] net ≡ (ok tt, net) = unfold add_members in refl in
    let q : net ≡ net' = cc in (rw (← q) (omega arith), rw (← q) refl)
add_members-size env (n ∷ ns) net net' e =
    let (s, h, e') = first_added env n ns net net' _ refl e in
    let (a, b) = add_members-size env ns (record net { members = s }) net' e' in
    (omega (arith, add-size env.slot n net.members s h), b)

continue_faults :
    {A B : Type 0} (r : Outcome A) (f : A → B) (g : A → GossipNet → GossipNet) (net : GossipNet)
    (x : Fault)
    → ((continue r (λ a n. (ok (f a), g a n)) net).0 ≡ fault x) ↔ (r ≡ fault x)
continue_faults (ok a) f g net x = (λ h. cc, λ h. cc)
continue_faults (throws e) f g net x = (λ h. cc, λ h. cc)
continue_faults (fault y) f g net x = (λ h. cc, λ h. cc)

-- With so many rumors and members: all members would be asked for, or so many that the counter of the
-- loop over them wraps.
abbrev pub Stuck : ℕ → ℕ → ℕ → Type 0
Stuck rumors all max =
    ((rumors ≢ max) × (rumors + all ≡ max)) ⊎ ((rumors + 2 ^ 32 ≤ max) × (max < rumors + all))

Stuck-IsStopped : (r all max : ℕ) → r < max → IsStopped (max - r) all → Stuck r all max
Stuck-IsStopped r all max lt (inl (e, ne)) = inl (λ z. ne (omega arith), omega arith)
Stuck-IsStopped r all max lt (inr (big, below)) = inr (omega arith, omega arith)

IsStopped-Stuck : (r all max : ℕ) → r < max → Stuck r all max → IsStopped (max - r) all
IsStopped-Stuck r all max lt (inl (ne, e)) = inl (omega arith, λ z. ne (omega arith))
IsStopped-Stuck r all max lt (inr (big, below)) = inr (omega arith, omega arith)

full_unstuck : (r all max : ℕ) → r ≡ max → Stuck r all max → ⊥
full_unstuck r all max e (inl (ne, h)) = ne e
full_unstuck r all max e (inr (big, below)) = omega arith

fill_rumors_faults :
    (rumors : List Node) (net : GossipNet)
    → length rumors ≤ net.max_rumor_num
    → ((x : Fault) × ((fill_rumors rumors net).0 ≡ fault x))
      ↔ Stuck (length rumors) (size net.members) net.max_rumor_num
unfolding fill_rumors
fill_rumors_faults rumors net le = elim (Bool-cases (length rumors == net.max_rumor_num)) [
  | inl full ↦ rw full (
    λ (x, h). cc,
    λ h.
        absurd (full_unstuck (length rumors) (size net.members) net.max_rumor_num (ground arith) h),
  )
  | inr more ↦
      let below : ltb (length rumors) net.max_rumor_num ≡ true = ground arith in
      let lt = ltb→lt (length rumors) net.max_rumor_num below in
      let asked = net.max_rumor_num - length rumors in
      let (to, from) = fetch_faults asked net.members in
      let runs =
        continue_faults (Members.fetch asked net.members) (λ r. rumors ++ r.1)
          (λ r n. record n { members = r.0 }) net in
      rw (more, below)
        (
          λ (x, h). Stuck-IsStopped _ _ _ lt (to (x, (runs x).0 h)),
          λ h. let (x, e) = from (IsStopped-Stuck _ _ _ lt h) in (x, (runs x).1 e),
        )
]

pub continue_after :
    {B : Type 0} (m : Exec GossipNet (Unit {0})) (f : Exec GossipNet B) (net net' : GossipNet)
    → m net ≡ (ok tt, net')
    → (m >> f) net ≡ f net'
continue_after m f net net' e = rw e refl

-- When `_build_rumors` does not come to its end: no member is known at all; or the recently updated
-- members to spread do not fill the message, and are, together with the members, the new stable ones
-- included, as many as fit in it; or they are more, and 2 ^ 32 or more members are asked for.
abbrev pub IsStuck : Env → GossipNet → Type 0
IsStuck env net =
    IsLone net
    ⊎ Stuck (length (fetch_recent env net).recent)
        (size net.members + length (fetch_recent env net).stable) net.max_rumor_num

-- If a member is known, `_build_rumors` fills what a fetch gives up, from the members with the new
-- stable ones.
pub build_rumors_fills :
    (env : Env) (net : GossipNet)
    → IsSound net
    → IsApart net
    → IsDistinct net.recent
    → IsQueue env.pops net.recent
    → (IsLone net → ⊥)
    → (net' : GossipNet) × (build_rumors env net ≡ fill_rumors (fetch_recent env net).recent net')
      × (size net'.members ≡ size net.members + length (fetch_recent env net).stable)
      × (net'.max_rumor_num ≡ net.max_rumor_num)
      × (length (fetch_recent env net).recent ≤ net.max_rumor_num)
build_rumors_fills env net sound apart d q known =
    let fetched = fetch_recent env net in
    let (net', e, _, _, _) = add_members-IsApart env net sound apart d q in
    let (counted, kept) =
      add_members-size env fetched.stable (record net { recent = fetched.members }) net' e in
    let gathered : gather_rumors env net ≡ fill_rumors fetched.recent net' =
      unfold gather_rumors in continue_after (add_members env fetched.stable) _ _ net' e in
    (
      net',
      build_rumors_known env net known ∙ gathered,
      counted,
      kept,
      unfold fetch_recent in fetch-length env.pops net.max_rumor_num _ net.recent,
    )

known_faults :
    (env : Env) (net : GossipNet)
    → IsSound net
    → IsApart net
    → IsDistinct net.recent
    → IsQueue env.pops net.recent
    → (IsLone net → ⊥)
    → ((x : Fault) × ((build_rumors env net).0 ≡ fault x)) ↔ IsStuck env net
known_faults env net sound apart d q known =
    let (net', e, counted, kept, few) = build_rumors_fills env net sound apart d q known in
    let (to, from) =
      rw (counted, kept) at (fill_rumors_faults (fetch_recent env net).recent net' (rw kept few)) in
    rw e (λ h. inr (to h), λ h. elim h [ inl lone ↦ absurd (known lone) | inr stuck ↦ from stuck ])

-- `_build_rumors` does not come to its end exactly when it is stuck. The two sets are sound and have no
-- id in common, the ids of the recently updated members are distinct, and the queue gives up each of
-- them once.
pub build_rumors_faults :
    (env : Env) (net : GossipNet)
    → IsSound net
    → IsApart net
    → IsDistinct net.recent
    → IsQueue env.pops net.recent
    → ((x : Fault) × ((build_rumors env net).0 ≡ fault x)) ↔ IsStuck env net
build_rumors_faults env net sound apart d q =
    elim (Bool-cases (size net.members + length net.recent == 0)) [
      | inl e ↦
          let lone : IsLone net = ground arith in
          (λ h. inl lone, λ h. (bad_cast, ap (λ r. r.0) (build_rumors_lone env net lone)))
      | inr e ↦ known_faults env net sound apart d q (λ lone. ground arith)
    ]
