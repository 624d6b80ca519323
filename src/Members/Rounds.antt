-- ===== src/Members/Rounds.antt =====
-- The loop of `_fetch` of member_set.cpp, and its counter of 32 bits.
use gossip_net.Prelude.{
  ℕ, zero, suc, ◌+◌, ◌^◌, ◌%◌, some, true, false, ◌≤◌, ◌<◌, ◌≡◌, refl, ap, sym, ◌∙◌, List, [], ◌∷◌,
  ◌++◌, append_assoc, append-nil, arith, Bytes, length, length-append, take, drop, ◌==◌,
}
use gossip_net.Outcome.{ok, fault, endless}
use gossip_net.Node.{Node}
use gossip_net.Members.{MemberSet, members, nodes, wrap, step, rounds}

-- The members in the order in which the cursor comes to them.
abbrev pub turn : MemberSet → List (Bytes × Node)
turn s = s.after ++ s.before

module _ {ℓ} {A : Type ℓ} where
  pub take-append_le : (k : ℕ) (xs ys : List A) → k ≤ length xs → take k (xs ++ ys) ≡ take k xs
  take-append_le zero xs ys h = refl
  take-append_le (suc k) [] ys h = absurd (omega arith)
  take-append_le (suc k) (x ∷ xs) ys h = ap (◌∷◌ x) (take-append_le k xs ys (omega arith))

  drop-append_le : (k : ℕ) (xs ys : List A) → k ≤ length xs → drop k (xs ++ ys) ≡ drop k xs ++ ys
  drop-append_le zero xs ys h = refl
  drop-append_le (suc k) [] ys h = absurd (omega arith)
  drop-append_le (suc k) (x ∷ xs) ys h = drop-append_le k xs ys (omega arith)

-- What `k` rounds from `s` lead to.
pub record Turned (k : ℕ) (s s' : MemberSet) : Type 0 where
  pub order : turn s' ≡ drop k (turn s) ++ take k (turn s)
  pub same_map : members s' ≡ members s
  pub same_prefix : s'.random_key_prefix ≡ s.random_key_prefix

turn_one :
    (k : ℕ) (x : Bytes × Node) (rest : List (Bytes × Node))
    → k ≤ length rest
    → drop k (rest ++ x ∷ []) ++ take k (rest ++ x ∷ [])
      ≡ drop (suc k) (x ∷ rest) ++ take (suc k) (x ∷ rest)
turn_one k x rest h =
    rw (drop-append_le k rest (x ∷ []) h, take-append_le k rest (x ∷ []) h, append_assoc) refl

Turned-suc :
    (k : ℕ) (s t s' : MemberSet) (x : Bytes × Node) (rest : List (Bytes × Node))
    → turn s ≡ x ∷ rest
    → turn t ≡ rest ++ x ∷ []
    → k ≤ length rest
    → members t ≡ members s
    → t.random_key_prefix ≡ s.random_key_prefix
    → Turned k t s'
    → Turned (suc k) s s'
Turned-suc k s t s' x rest e f h m p turned = record {
  order =
      turned.order
      ∙ ap (λ l. drop k l ++ take k l) f
      ∙ turn_one k x rest h
      ∙ sym (ap (λ l. drop (suc k) l ++ take (suc k) l) e);
  same_map = turned.same_map ∙ m;
  same_prefix = turned.same_prefix ∙ p;
}

-- One more round, whose counter does not wrap.
rounds_next :
    (f idx num : ℕ) (s : MemberSet) (n : Node) (before after : List (Bytes × Node))
    (acc : List Node)
    → step (wrap s.before s.after) ≡ some (n, before, after)
    → idx < num
    → num < 2 ^ 32
    → rounds (suc f) idx num s acc
      ≡ rounds f (idx + 1) num (record s { before = before; after = after }) (acc ++ n ∷ [])
unfolding rounds
rounds_next f idx num s n before after acc e lt fits =
    let ne : (idx == num) ≡ false = ground arith in
    let same_idx : (idx + 1) % 2 ^ 32 ≡ idx + 1 = omega arith in rw (ne, e, same_idx) refl

rounds_end :
    (f idx num : ℕ) (s : MemberSet) (acc : List Node)
    → idx ≡ num
    → rounds (suc f) idx num s acc ≡ ok (s, acc)
unfolding rounds
rounds_end f idx num s acc e = let yes : (idx == num) ≡ true = ground arith in rw yes refl

-- The `k` rounds that are left hand out the next `k` members.
abbrev pub HandsOut : ℕ → ℕ → ℕ → MemberSet → List Node → Type 0
HandsOut k idx num s acc =
    (s' : MemberSet) × (rounds (suc k) idx num s acc ≡ ok (s', acc ++ nodes (take k (turn s))))
    × Turned k s s'

HandsOut-suc :
    (k idx num : ℕ) (s t : MemberSet) (b : Bytes) (n : Node) (rest : List (Bytes × Node))
    (acc : List Node)
    → rounds (suc (suc k)) idx num s acc ≡ rounds (suc k) (idx + 1) num t (acc ++ n ∷ [])
    → turn s ≡ (b, n) ∷ rest
    → turn t ≡ rest ++ (b, n) ∷ []
    → k ≤ length rest
    → members t ≡ members s
    → t.random_key_prefix ≡ s.random_key_prefix
    → HandsOut k (idx + 1) num t (acc ++ n ∷ [])
    → HandsOut (suc k) idx num s acc
HandsOut-suc k idx num s t b n rest acc r e f h m p (s', q, turned) = (
  s',
  r
      ∙ q
      ∙ ap (λ l. ok (s', (acc ++ n ∷ []) ++ nodes l)) (ap (take k) f ∙ take-append_le k rest _ h)
      ∙ ap (λ l. ok (s', l)) (append_assoc acc (n ∷ []) (nodes (take k rest)))
      ∙ sym (ap (λ l. ok (s', acc ++ nodes (take (suc k) l))) e),
  Turned-suc k s t s' (b, n) rest e f h m p turned,
)

pub rounds_lem :
    (k idx num : ℕ) (before after : List (Bytes × Node)) (prefix : Bytes) (acc : List Node)
    → idx + k ≡ num
    → num < 2 ^ 32
    → k ≤ length (after ++ before)
    → HandsOut k idx num (record { before = before; after = after; random_key_prefix = prefix }) acc
rounds_lem zero idx num before after prefix acc e fits h = (
  record { before = before; after = after; random_key_prefix = prefix },
  rw append-nil (rounds_end 0 idx num _ acc (omega arith)),
  record { order = rw append-nil refl; same_map = refl; same_prefix = refl },
)
rounds_lem (suc k) idx num [] [] prefix acc e fits h = absurd (omega arith)
rounds_lem (suc k) idx num ((b, n) ∷ before) [] prefix acc e fits h =
    HandsOut-suc k idx num _ _ b n before acc
      (rounds_next (suc k) idx num _ n ((b, n) ∷ []) before acc refl (omega arith) fits) refl refl
      (omega arith) (sym (append-nil _)) refl
      (rounds_lem k (idx + 1) num ((b, n) ∷ []) before prefix (acc ++ n ∷ []) (omega arith) fits
        (omega (arith, length-append before ((b, n) ∷ []))))
rounds_lem (suc k) idx num before ((b, n) ∷ after) prefix acc e fits h =
    HandsOut-suc k idx num _ _ b n (after ++ before) acc
      (rounds_next (suc k) idx num _ n (before ++ (b, n) ∷ []) after acc refl (omega arith) fits)
      refl (sym (append_assoc after before ((b, n) ∷ []))) (omega arith)
      (append_assoc before ((b, n) ∷ []) after) refl
      (rounds_lem k (idx + 1) num (before ++ (b, n) ∷ []) after prefix (acc ++ n ∷ []) (omega arith)
        fits
        (omega (
          arith,
          length-append after (before ++ (b, n) ∷ []),
          length-append before ((b, n) ∷ []),
          length-append after before,
        )))

-- A counter that wraps never meets a larger number, whatever the fuel.
pub rounds_endless :
    (f idx num : ℕ) (before after : List (Bytes × Node)) (prefix : Bytes) (acc : List Node)
    → idx < 2 ^ 32
    → 2 ^ 32 ≤ num
    → 0 < length (before ++ after)
    → rounds f idx num (record { before = before; after = after; random_key_prefix = prefix }) acc
      ≡ fault endless
unfolding rounds
rounds_endless zero idx num before after prefix acc lt big h = refl
rounds_endless (suc f) idx num [] [] prefix acc lt big h = absurd (omega arith)
rounds_endless (suc f) idx num ((b, n) ∷ before) [] prefix acc lt big h =
    let ne : (idx == num) ≡ false = ground arith in
    rw ne (
      rounds_endless f ((idx + 1) % 2 ^ 32) num ((b, n) ∷ []) before prefix (acc ++ n ∷ [])
        (omega arith) big (omega arith))
rounds_endless (suc f) idx num before ((b, n) ∷ after) prefix acc lt big h =
    let ne : (idx == num) ≡ false = ground arith in
    rw ne (
      rounds_endless f ((idx + 1) % 2 ^ 32) num (before ++ (b, n) ∷ []) after prefix (acc ++ n ∷ [])
        (omega arith) big
        (omega
          (arith, length-append (before ++ (b, n) ∷ []) after, length-append before ((b, n) ∷ []))))
