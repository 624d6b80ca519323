-- ===== src/Members/Turns.antt =====
-- Any number of fetches of member_set.cpp, one after the other.
use gossip_net.Prelude.{
  ℕ, zero, suc, ◌+◌, ◌*◌, ◌^◌, ◌≤◌, ◌<◌, ◌≡◌, refl, ap, sym, ◌∙◌, List, [], ◌∷◌, ◌++◌, append_assoc,
  append-nil, arith, Bytes, length, length-append, take, drop, All,
}
use gossip_net.Outcome.{Outcome, ok, ◌>>=◌}
use gossip_net.Node.{Node}
use gossip_net.Members.{MemberSet, size, nodes, fetch}
use gossip_net.Members.Rounds.{turn, take-append_le}
use gossip_net.Members.Rotation.{fetch-turn}

-- All that a sequence of fetches hands out.
pub fetches : List ℕ → MemberSet → Outcome (MemberSet × List Node)
fetches [] s = ok (s, [])
fetches (n ∷ ns) s = do first ← fetch n s; rest ← fetches ns first.0; ok (rest.0, first.1 ++ rest.1)

abbrev pub sum : List ℕ → ℕ
sum [] = 0
sum (n ∷ ns) = n + sum ns

abbrev pub cycle {ℓ} : {A : Type ℓ} → ℕ → List A → List A
cycle zero xs = []
cycle (suc k) xs = xs ++ cycle k xs

module _ {ℓ} {A : Type ℓ} where
  length-cycle : (k : ℕ) (xs : List A) → length (cycle k xs) ≡ k * length xs
  length-cycle zero xs = omega arith
  length-cycle (suc k) xs = omega (arith, length-append xs (cycle k xs), length-cycle k xs)

  -- A cycle that begins further on.
  cycle-turn : (k : ℕ) (a b : List A) → a ++ cycle k (b ++ a) ≡ cycle k (a ++ b) ++ a
  cycle-turn zero a b = append-nil a
  cycle-turn (suc k) a b =
      ap (◌++◌ a) (append_assoc b a (cycle k (b ++ a)))
      ∙ ap (λ l. a ++ (b ++ l)) (cycle-turn k a b)
      ∙ sym (append_assoc a b (cycle k (a ++ b) ++ a))
      ∙ sym (append_assoc (a ++ b) (cycle k (a ++ b)) a)

  take-drop : (n : ℕ) (xs : List A) → take n xs ++ drop n xs ≡ xs
  take-drop zero xs = refl
  take-drop (suc n) [] = refl
  take-drop (suc n) (x ∷ xs) = ap (◌∷◌ x) (take-drop n xs)

  take-append : (n m : ℕ) (a b : List A) → length a ≡ n → take (n + m) (a ++ b) ≡ a ++ take m b
  take-append zero m [] b h = let e : 0 + m ≡ m = omega arith in ap (λ i. take i b) e
  take-append zero m (x ∷ a) b h = absurd (omega (arith, h))
  take-append (suc n) m [] b h = absurd (omega (arith, h))
  take-append (suc n) m (x ∷ a) b h =
      let e : suc n + m ≡ suc (n + m) = omega arith in
      ap (λ i. take i (x ∷ (a ++ b))) e ∙ ap (◌∷◌ x) (take-append n m a b (omega (arith, h)))

  length-take : (n : ℕ) (xs : List A) → n ≤ length xs → length (take n xs) ≡ n
  length-take zero xs h = refl
  length-take (suc n) [] h = absurd (omega arith)
  length-take (suc n) (x ∷ xs) h = ap suc (length-take n xs (omega arith))

  -- What comes first and what comes later, in one cycle.
  take-cycle :
      (k n m : ℕ) (xs : List A)
      → n ≤ length xs
      → n + m ≤ length (cycle k xs)
      → take n xs ++ take m (cycle k (drop n xs ++ take n xs)) ≡ take (n + m) (cycle k xs)
  take-cycle k n m xs h g =
      let a = take n xs in
      let b = drop n xs in
      let whole = take-drop n xs in
      sym (take-append n m a (cycle k (b ++ a)) (length-take n xs h))
      ∙ ap (take (n + m)) (cycle-turn k a b ∙ ap (λ l. cycle k l ++ a) whole)
      ∙ take-append_le (n + m) (cycle k xs) a g

nodes-append : (a b : List (Bytes × Node)) → nodes (a ++ b) ≡ nodes a ++ nodes b
nodes-append [] b = refl
nodes-append ((k, n) ∷ a) b = ap (◌∷◌ n) (nodes-append a b)

length-turn : (s : MemberSet) → length (turn s) ≡ size s
length-turn s = omega (arith, length-append s.before s.after, length-append s.after s.before)

fetches-cons :
    (n : ℕ) (ns : List ℕ) (s t u : MemberSet) (first rest : List Node)
    → fetch n s ≡ ok (t, first)
    → fetches ns t ≡ ok (u, rest)
    → fetches (n ∷ ns) s ≡ ok (u, first ++ rest)
unfolding fetches
fetches-cons n ns s t u first rest e f = rw (e, f) refl

-- Any number of fetches, each of fewer members than there are and of fewer than 2 ^ 32, hand out
-- together the members in the order in which the cursor comes to them, around and around: `k` rounds are enough for a sum of `k`
-- times as many as there are members.
pub fetches-cycle :
    (ns : List ℕ) (s : MemberSet) (k : ℕ)
    → All (λ n. (n < size s) × (n < 2 ^ 32)) ns
    → sum ns ≤ k * size s
    → (s' : MemberSet) × (fetches ns s ≡ ok (s', nodes (take (sum ns) (cycle k (turn s)))))
unfolding fetches
fetches-cycle [] s k a h = (s, refl)
fetches-cycle (n ∷ ns) s k a h =
    let (t, e, turned) = fetch-turn n s a.0.0 a.0.1 in
    let same_size : size t ≡ size s = ap length turned.same_map in
    let (u, f) = fetches-cycle ns t k (rw same_size a.1) (rw same_size (omega (arith, h))) in
    let joined =
      sym (nodes-append (take n (turn s)) (take (sum ns) (cycle k (turn t))))
      ∙ ap (λ l. nodes (take n (turn s) ++ take (sum ns) (cycle k l))) turned.order
      ∙ ap nodes (
          take-cycle k n (sum ns) (turn s) (omega (arith, length-turn s, a.0.0)) (
            omega
              (arith, length-cycle k (turn s), length-turn s, h, ap (◌*◌ k) (length-turn s)))) in
    (u, fetches-cons n ns s t u _ _ e f ∙ ap (λ l. ok (u, l)) joined)
