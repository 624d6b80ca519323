-- ===== src/Net/Merge.antt =====
-- `update` against its specification: for each id the highest rank of the news heard so far.
use gossip_net.Prelude.{
  ℕ, suc, ◌≤◌, ◌<◌, ◌≡◌, refl, ◌⊎◌, inl, inr, some, none, Option, List, [], ◌∷◌, arith, Bytes, same,
  same→eq, ltb, ltb→lt, ltb→le, Bool-cases, if◌then◌else◌,
}
use Prim.Native.Nat.{max}
use gossip_net.Outcome.{ok}
use gossip_net.Node.{Node}
use gossip_net.Node.Order.{IsKnown, rank}
use gossip_net.Table.{find}
use gossip_net.Recent
use gossip_net.Recent.{RecentlyUpdatedSet, Member, fresh}
use gossip_net.Recent.Laws
use gossip_net.Recent.Laws.{merged, add-merged, add-IsKeyed}
use gossip_net.Members
use gossip_net.Members.{MemberSet}
use gossip_net.Members.Update
use gossip_net.Members.Update.{lookup, news, is_news, try_update-news, try_update-IsKeyed}
use gossip_net.Net.{Env, GossipNet, update_one}

pub record IsSound (net : GossipNet) : Type 0 where
  pub members_keyed : Members.Update.IsKeyed net.members
  pub recent_keyed : Recent.Laws.IsKeyed net.recent

abbrev pub level : Option Node → ℕ
level none = 0
level (some n) = suc (rank n)

abbrev recent_level : Option Member → ℕ
recent_level none = 0
recent_level (some m) = suc (rank m.node)

-- What is known of an id: zero, or one more than the highest rank in the two sets.
unfoldable pub view : GossipNet → Bytes → ℕ
view net id = max (recent_level (find id net.recent)) (level (lookup net.members id))

-- The specification: a rumor lifts the view of its id to its own rank.
abbrev pub heard : Bytes → Node → ℕ → ℕ
heard id rumor v = if same rumor.id id then max v (suc (rank rumor)) else v

abbrev pub all_heard : Bytes → List Node → ℕ → ℕ
all_heard id [] v = v
all_heard id (r ∷ rs) v = all_heard id rs (heard id r v)

-- What one call leads to.
pub record Heard (env : Env) (rumor : Node) (net net' : GossipNet) : Type 0 where
  pub runs : update_one env rumor net ≡ (ok tt, net')
  pub sound : IsSound net'
  pub views : (id : Bytes) → view net' id ≡ heard id rumor (view net id)

suc_le : (a b : ℕ) → a ≤ b → suc a ≤ suc b
suc_le a b h = omega arith

pub news_cases :
    (o : Option Node) (n : Node)
    → ((news o n ≡ none) × (suc (rank n) ≤ level o)) ⊎ ((news o n ≡ some n) × (level o ≤ rank n))
unfolding news
news_cases none n = inr (refl, omega arith)
news_cases (some m) n = elim (Bool-cases (ltb (rank m) (rank n))) [
  | inl lower ↦ inr (rw lower refl, ltb→lt (rank m) (rank n) lower)
  | inr higher ↦ inl (rw higher refl, suc_le (rank n) (rank m) (ltb→le (rank m) (rank n) higher))
]

higher_wins : (a r b : ℕ) → a < r → b ≤ r → max (suc r) 0 ≡ max (max (suc a) b) (suc r)
higher_wins a r b h k = omega arith

lower_loses : (a r b : ℕ) → r ≤ a → b ≤ r → max (suc a) 0 ≡ max (max (suc a) b) (suc r)
lower_loses a r b h k = omega arith

merged-level :
    (o : Option Member) (n : Node) (b : ℕ)
    → b ≤ rank n
    → max (suc (rank (merged o n).node)) 0 ≡ max (max (recent_level o) b) (suc (rank n))
unfolding merged
merged-level none n b h = omega arith
merged-level (some m) n b h = elim (Bool-cases (ltb (rank m.node) (rank n))) [
  | inl lower ↦
      rw lower (higher_wins (rank m.node) (rank n) b (ltb→lt (rank m.node) (rank n) lower) h)
  | inr higher ↦
      rw higher (lower_loses (rank m.node) (rank n) b (ltb→le (rank m.node) (rank n) higher) h)
]

lift_view : (a b r : ℕ) → suc r ≤ b → max a b ≡ max (max a b) (suc r)
lift_view a b r h = omega arith

module _ (env : Env) (rumor : Node) (net : GossipNet) (sound : IsSound net) (known : IsKnown rumor)
    (s' : MemberSet) where
  module _ (e : Members.try_update rumor net.members ≡ ok (s', none))
      (found : (j : Bytes) → lookup s' j ≡ lookup net.members j)
      (le : suc (rank rumor) ≤ level (lookup net.members rumor.id)) where
    dropped : GossipNet
    dropped = record net { members = s' }

    views_dropped : (id : Bytes) → view dropped id ≡ heard id rumor (view net id)
    unfolding dropped view
    views_dropped id = elim (Bool-cases (same rumor.id id)) [
      | inl eq ↦
          rw (found id, eq, ← same→eq rumor.id id eq)
            (lift_view (recent_level (find rumor.id net.recent))
              (level (lookup net.members rumor.id)) (rank rumor) le)
      | inr ne ↦ rw (found id, ne) refl
    ]

    Heard-dropped : Heard env rumor net dropped
    unfolding dropped update_one
    Heard-dropped = record {
      runs = rw e refl;
      sound = record {
        members_keyed = try_update-IsKeyed rumor net.members s' none sound.members_keyed known e;
        recent_keyed = sound.recent_keyed;
      };
      views = views_dropped;
    }

  module _ (e : Members.try_update rumor net.members ≡ ok (s', some rumor))
      (found : (j : Bytes) → lookup s' j ≡ (if same rumor.id j then none else lookup net.members j))
      (le : level (lookup net.members rumor.id) ≤ rank rumor) (m' : RecentlyUpdatedSet)
      (added : Recent.add env.slot rumor net.recent ≡ ok m')
      (found_recent : (j : Bytes)
        → find j m' ≡ (
            if same rumor.id j
            then some (merged (find rumor.id net.recent) rumor)
            else find j net.recent)) where
    taken : GossipNet
    taken = record net { members = s'; recent = m' }

    views_taken : (id : Bytes) → view taken id ≡ heard id rumor (view net id)
    unfolding taken view
    views_taken id = elim (Bool-cases (same rumor.id id)) [
      | inl eq ↦
          rw (found id, found_recent id, eq, ← same→eq rumor.id id eq)
            (merged-level (find rumor.id net.recent) rumor (level (lookup net.members rumor.id)) le)
      | inr ne ↦ rw (found id, found_recent id, ne) refl
    ]

    Heard-taken : Heard env rumor net taken
    unfolding taken update_one
    Heard-taken = record {
      runs = rw (e, added) refl;
      sound = record {
        members_keyed =
            try_update-IsKeyed rumor net.members s' (some rumor) sound.members_keyed known e;
        recent_keyed = add-IsKeyed env.slot rumor net.recent m' sound.recent_keyed known added;
      };
      views = views_taken;
    }

-- One rumor is always taken in, and lifts the view of its own id.
pub update_one-Heard :
    (env : Env) (rumor : Node) (net : GossipNet)
    → IsSound net
    → IsKnown rumor
    → (net' : GossipNet) × Heard env rumor net net'
update_one-Heard env rumor net sound known =
    let (s', e, found) = try_update-news rumor net.members sound.members_keyed known in
    elim (news_cases (lookup net.members rumor.id) rumor) [
      | inl (q, le) ↦
          (_, Heard-dropped env rumor net sound known s' (rw q at e) (λ j. rw q at (found j)) le)
      | inr (q, le) ↦
          let (m', added, found_recent) =
            add-merged env.slot rumor net.recent sound.recent_keyed known in
          (
            _,
            Heard-taken env rumor net sound known s' (rw q at e) (λ j. rw q at (found j)) le m'
                added found_recent,
          )
    ]
