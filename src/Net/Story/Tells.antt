-- ===== src/Net/Story/Tells.antt =====
-- Every call of a member of gossip_net.cpp follows the story of an id.
use gossip_net.Prelude.{
  ◌≤◌, ◌≡◌, sym, ap, ◌∙◌, inl, inr, true, some, none, Option, [], Bytes, same, same→eq, ltb, ltb→lt,
  Bool-cases, Option-cases, arith, if◌then◌else◌,
}
use mathlib.Core.Path.{subst}
use gossip_net.Outcome.Ends.{Ends}
use gossip_net.Exec.Runs.{Runs, Any}
use gossip_net.Node.{Node, is_failed}
use gossip_net.Node.Order.{IsKnown, rank}
use gossip_net.Table.{find}
use gossip_net.Recent.{Member, RecentlyUpdatedSet, Fetched}
use gossip_net.Recent.Laws.{merged, add-merged}
use gossip_net.Recent.Settled.{by_id, Settled}
use gossip_net.Recent.Kept.{Kept, NodeOf}
use gossip_net.Recent.Lossless.{fetch-Lossless}
use gossip_net.Members.{MemberSet}
use gossip_net.Members.Update.{lookup, try_update-news}
use gossip_net.Net.Lone.{build_rumors_either}
use gossip_net.Net.{Env, GossipNet, update_one, gather_rumors, build_rumors, fetch_recent, add_task}
use gossip_net.Net.Merge.{level, news_cases}
use gossip_net.Net.Apart.{IsApart, update_one_dropped, update_one_taken}
use gossip_net.Net.Gather.{fetch_recent_lem, add_members-Settled, joined}
use gossip_net.Net.Steady.{IsSteady}
use gossip_net.Net.Fill.{fill_rumors-Runs}
use gossip_net.Net.Whole.{
  IsWhole, IsWhole-found, IsPops, IsWhole-Steady, IsWhole-settled, update_one-Runs,
}
use gossip_net.Net.Story.{Story, begins, rises, forgets, first_of, known_of}

module _ (Told : Node → Type 0) (j : Bytes) (o : Option Node) where
  -- The invariant of a member, and what is known of the id in it.
  abbrev pub Tells : GossipNet → Type 0
  Tells net = IsWhole net × Story Told j o (known_of net j)

  pub Tells-found :
      (net net' : GossipNet)
      → ((i : Bytes) → lookup net'.members i ≡ lookup net.members i)
      → net'.recent ≡ net.recent
      → net'.tasks ≡ net.tasks
      → Tells net
      → Tells net'
  Tells-found net net' found recent tasks t =
      (IsWhole-found net net' found recent tasks t.0, rw (found j, recent) t.1)

  module _ (rumor : Node) (told : Told rumor) (named : rumor.id ≡ j) where
    Story-merged :
        (x : Member)
        → Story Told j o (some x.node)
        → Story Told j o (some (merged (some x) rumor).node)
    unfolding merged
    Story-merged x s = elim (Bool-cases (ltb (rank x.node) (rank rumor))) [
      | inl lower ↦ rw lower (rises s rumor named told (ltb→lt (rank x.node) (rank rumor) lower))
      | inr higher ↦ rw higher s
    ]

    Story-heard :
        (q : Option Node) → level q ≤ rank rumor → Story Told j o q → Story Told j o (some rumor)
    Story-heard none le s = begins s rumor named told
    Story-heard (some n) le s = rises s rumor named told (omega arith)

    -- A rumor of a rank no lower than the member's.
    Story-first :
        (q : Option Member) (r : Option Node)
        → level r ≤ rank rumor
        → Story Told j o (first_of q r)
        → Story Told j o (some (merged q rumor).node)
    Story-first none r le s = unfold merged in Story-heard r le s
    Story-first (some x) r le s = Story-merged x s

  Story-taken :
      (env : Env) (rumor : Node) (net : GossipNet) (s' : MemberSet) (m' : RecentlyUpdatedSet)
      → Told rumor
      → level (lookup net.members rumor.id) ≤ rank rumor
      → ((i : Bytes) → lookup s' i ≡ (if same rumor.id i then none else lookup net.members i))
      → ((i : Bytes)
          → find i m' ≡ (
              if same rumor.id i
              then some (merged (find rumor.id net.recent) rumor)
              else find i net.recent))
      → Story Told j o (known_of net j)
      → Story Told j o (known_of (record net { members = s'; recent = m' }) j)
  Story-taken env rumor net s' m' told le found found_recent s =
      elim (Bool-cases (same rumor.id j)) [
        | inr miss ↦ rw (found j, found_recent j, miss) s
        | inl hit ↦
            let named = same→eq rumor.id j hit in
            rw (found_recent j, hit)
              (Story-first rumor told named (find rumor.id net.recent) (lookup net.members rumor.id)
                le (subst (λ i. Story Told j o (known_of net i)) (sym named) s))
      ]

  Tells-hears :
      (env : Env) (rumor : Node)
      → IsKnown rumor
      → Told rumor
      → Runs Tells Any (update_one env rumor)
  Tells-hears env rumor known told net (w, s) =
      let (s', runs, found) = try_update-news rumor net.members w.sound.members_keyed known in
      let (m', added, found_recent) =
        add-merged env.slot rumor net.recent w.sound.recent_keyed known in
      let (ends, whole) = update_one-Runs env rumor known net w in
      elim (news_cases (lookup net.members rumor.id) rumor) [
        | inl (old, _) ↦
            let e = update_one_dropped env rumor net s' (rw old at runs) in
            let whole' = rw e at whole in rw e (tt, (whole', rw (rw old at (found j)) s))
        | inr (new, le) ↦
            let e = update_one_taken env rumor net s' m' (rw new at runs) added in
            let whole' = rw e at whole in
            let s'' =
              Story-taken env rumor net s' m' told le (λ i. rw new at (found i)) found_recent s in
            rw e (tt, (whole', s''))
      ]

  -- What a fetch from the recently updated members makes of what is known of the id, once the stable
  -- ones are members.
  module _ (net : GossipNet) (r : Fetched) (apart : IsApart net) (settled : Settled net.recent [] r)
      (kept : Kept net.recent r)
      (lossless : (x : Member)
        → find j net.recent ≡ some x
        → find j r.members ≡ none
        → find j (by_id r.stable) ≡ none
        → is_failed x.node.status ≡ true)
      (s' : MemberSet) (found : (i : Bytes) → lookup s' i ≡ joined r.stable net.members i) where
    Story-node :
        (x : Member) (n : Node)
        → find j net.recent ≡ some x
        → NodeOf net.recent j n
        → Story Told j o (some x.node)
        → Story Told j o (some n)
    Story-node x n here (y, h, q) s =
        let e : some x ≡ some y = sym here ∙ h in
        let f : x ≡ y = cc in subst (λ m. Story Told j o (some m)) (ap (λ m. m.node) f ∙ sym q) s

    Story-gone :
        (x : Member)
        → find j net.recent ≡ some x
        → find j r.members ≡ none
        → Story Told j o (some x.node)
        → Story Told j o (lookup s' j)
    Story-gone x here gone s = elim (Option-cases (find j (by_id r.stable))) [
      | inr (n, e) ↦ rw (found j, e) (Story-node x n here (kept.leaving j n e) s)
      | inl e ↦ elim (apart.apart j) [
        | inl absent ↦ let q : none ≡ some x = sym absent ∙ here in cc
        | inr free ↦ rw (found j, e, free) (forgets s (lossless x here gone e))
      ]
    ]

    Story-settled :
        Story Told j o (known_of net j) → Story Told j o (first_of (find j r.members) (lookup s' j))
    Story-settled s = elim (Option-cases (find j net.recent)) [
      | inl absent ↦
          let (not_stable, not_there) = settled.old j absent in
          rw (not_there, found j, not_stable) (rw absent at s)
      | inr (x, here) ↦
          let s' : Story Told j o (some x.node) = rw here at s in
          elim (Option-cases (find j r.members)) [
            | inr (x', there) ↦ rw there (Story-node x x'.node here (kept.staying j x' there) s')
            | inl gone ↦ rw gone (Story-gone x here gone s')
          ]
    ]

  Tells-gathers : (env : Env) → IsPops env.pops → Runs Tells Any (gather_rumors env)
  unfolding gather_rumors
  Tells-gathers env pops net (w, s) =
      let queue = pops net.recent w.distinct in
      let (settled, kept) = fetch_recent_lem env net w.sound w.distinct queue in
      let (net', e, found, sound, apart, recent, tasks) =
        add_members-Settled env net (fetch_recent env net) w.sound w.apart settled kept in
      let story =
        Story-settled net (fetch_recent env net) w.apart settled kept
          (λ x here.
            unfold fetch_recent in
            fetch-Lossless net.recent (λ i y h. w.sound.recent_keyed.keyed i y h) j x here env.pops
              net.max_rumor_num _ w.distinct queue.once queue.same_elements)
          net'.members found s in
      rw e (
        fill_rumors-Runs Tells Tells-found (fetch_recent env net).recent net'
          (IsWhole-settled env pops net w net' sound apart recent tasks, rw recent story))

  Tells-builds : (env : Env) → IsPops env.pops → Runs Tells Any (build_rumors env)
  Tells-builds env pops net t =
      build_rumors_either env net (λ r. Ends Any r.0 × Tells r.1) (tt, t)
        (Tells-gathers env pops net t)

  -- What is known of an id follows its story through every call.
  pub Tells-Steady : (env : Env) → IsPops env.pops → IsSteady env (λ n. IsKnown n × Told n) Tells
  Tells-Steady env pops =
      let whole = IsWhole-Steady env pops in
      record {
        hears = λ rumor h. Tells-hears env rumor h.0 h.1;
        builds = Tells-builds env pops;
        adds = λ task net t. unfold add_task in (tt, ((whole.adds task net t.0).1, t.1));
        fetches = λ id net t. (whole.fetches id net t.0, t.1);
        sends = λ events net t. (whole.sends events net t.0, t.1);
        starts = λ running net t. (whole.starts running net t.0, t.1);
      }
