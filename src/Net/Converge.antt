-- ===== src/Net/Converge.antt =====
-- `update` on whole lists of rumors, and two members that hear the same ones.
use gossip_net.Prelude.{
  ℕ, suc, ◌≡◌, refl, ap, sym, ◌∙◌, inl, inr, List, [], ◌∷◌, arith, Bytes, same, Bool-cases, All,
}
use Prim.Native.Nat.{max}
use native.Mathlib.Nat.{ℕ_set}
use mathlib.Core.Logic.{∥∥₁_elim}
use mathlib.Core.List.{Perm, Permᴰ}
use gossip_net.Outcome.{ok}
use gossip_net.Node.{Node}
use gossip_net.Node.Order.{IsKnown, rank}
use gossip_net.Net.Merge.{IsSound, view, heard, all_heard, update_one-Heard}
use gossip_net.Net.{Env, GossipNet, update, update_one}

pub update_cons :
    (env : Env) (r : Node) (rs : List Node) (net net' : GossipNet)
    → update_one env r net ≡ (ok tt, net')
    → update env (r ∷ rs) net ≡ update env rs net'
update_cons env r rs net net' e = unfold update in rw (e, update_one) refl

-- If the sets are sound, a list of rumors of known status and 64-bit version is taken in whole,
-- the two sets stay sound, and afterwards the view of every id is the highest of what it was and
-- of the ranks of the rumors about it.
pub update-view :
    (env : Env) (rumors : List Node) (net : GossipNet)
    → IsSound net
    → All IsKnown rumors
    → (net' : GossipNet) × (update env rumors net ≡ (ok tt, net'))
      × IsSound net'
      × ((id : Bytes) → view net' id ≡ all_heard id rumors (view net id))
update-view env [] net sound known = (net, unfold update in refl, sound, λ id. refl)
update-view env (r ∷ rs) net sound known =
    let (n, h) = update_one-Heard env r net sound known.0 in
    let (net', e, sound', views) = update-view env rs n h.sound known.1 in
    (
      net',
      update_cons env r rs net n h.runs ∙ e,
      sound',
      λ id. views id ∙ ap (all_heard id rs) (h.views id),
    )

lift_comm : (v a b : ℕ) → max (max v a) b ≡ max (max v b) a
lift_comm v a b = omega arith

heard_comm :
    (id : Bytes) (a b : Node) (v : ℕ) → heard id b (heard id a v) ≡ heard id a (heard id b v)
heard_comm id a b v = elim (Bool-cases (same a.id id)) [
  | inl ea ↦ elim (Bool-cases (same b.id id)) [
    | inl eb ↦ rw (ea, eb) (lift_comm v (suc (rank a)) (suc (rank b)))
    | inr nb ↦ rw (ea, nb) refl
  ]
  | inr na ↦ rw na refl
]

all_heard-permᴰ :
    (id : Bytes) {xs ys : List Node} → Permᴰ xs ys → (v : ℕ) → all_heard id xs v ≡ all_heard id ys v
all_heard-permᴰ id Permᴰ.nil v = refl
all_heard-permᴰ id (Permᴰ.cons {a} {b} {l₁} {l₂} e p) v =
    rw (← e) (all_heard-permᴰ id p (heard id a v))
all_heard-permᴰ id (Permᴰ.swap {a} {b} {a'} {b'} {l} e f) v =
    rw (← e, ← f) (ap (all_heard id l) (heard_comm id a b v))
all_heard-permᴰ id (Permᴰ.trans p q) v = all_heard-permᴰ id p v ∙ all_heard-permᴰ id q v

all_heard-perm :
    (id : Bytes) {xs ys : List Node} (v : ℕ) → Perm xs ys → all_heard id xs v ≡ all_heard id ys v
all_heard-perm id v p = ∥∥₁_elim p (ℕ_set _ _) (λ d. all_heard-permᴰ id d v)

-- Two members with sound sets and one view of every id, that hear the same rumors of known status
-- and 64-bit version, each in its own order, both take them in whole and have one view again,
-- whatever their hash tables, their random prefixes and their clocks.
pub update_converges :
    (env env' : Env) (xs ys : List Node) (a b : GossipNet)
    → IsSound a
    → IsSound b
    → All IsKnown xs
    → All IsKnown ys
    → ((id : Bytes) → view a id ≡ view b id)
    → Perm xs ys
    → (a' : GossipNet) × (b' : GossipNet) × (update env xs a ≡ (ok tt, a'))
      × (update env' ys b ≡ (ok tt, b'))
      × ((id : Bytes) → view a' id ≡ view b' id)
update_converges env env' xs ys a b sa sb kx ky agree p =
    let (a', ea, _, va) = update-view env xs a sa kx in
    let (b', eb, _, vb) = update-view env' ys b sb ky in
    (
      a',
      b',
      ea,
      eb,
      λ id. va id ∙ ap (all_heard id xs) (agree id) ∙ all_heard-perm id (view b id) p ∙ sym (vb id),
    )
