-- ===== src/Members/Rotation.antt =====
-- `fetch` of member_set.cpp, and the turn in which it hands the members out.
use gossip_net.Prelude.{
  ℕ, zero, suc, ◌^◌, ◌⊎◌, ◌≤◌, ◌<◌, ◌≡◌, ◌≢◌, ◌↔◌, refl, ap, inl, inr, List, [], ◌∷◌, append-nil,
  arith, Bytes, length, length-append, take, ltb, ltb→lt, Bool-cases, ◌==◌,
}
use gossip_net.Outcome.{ok, fault, assert_failed, endless, Fault}
use gossip_net.Outcome.Ends.{Ends}
use gossip_net.Node.{Node}
use gossip_net.Members.{MemberSet, members, size, nodes, fetch, fetch_num}
use gossip_net.Members.Rounds.{turn, Turned, rounds_lem, rounds_endless}

-- A fetch of fewer members than there are, and fewer than 2 ^ 32, hands out the next ones after the
-- cursor, once around the map; they go to the back of the turn in their order, and the map stays as
-- it is.
pub fetch-turn :
    (num : ℕ) (s : MemberSet)
    → num < size s
    → num < 2 ^ 32
    → (s' : MemberSet) × (fetch num s ≡ ok (s', nodes (take num (turn s)))) × Turned num s s'
unfolding fetch fetch_num
fetch-turn zero s h fits =
    (s, ground arith, record { order = rw append-nil refl; same_map = refl; same_prefix = refl })
fetch-turn (suc k) s h fits =
    let (s', e, t) =
      rounds_lem (suc k) 0 (suc k) s.before s.after s.random_key_prefix [] (omega arith) fits
        (omega (arith, length-append s.before s.after, length-append s.after s.before)) in
    (s', ground (arith, e), t)

pub fetch_endless :
    (num : ℕ) (s : MemberSet) → num < size s → 2 ^ 32 ≤ num → fetch num s ≡ fault endless
unfolding fetch fetch_num
fetch_endless num s h big =
    let e =
      rounds_endless (suc num) 0 num s.before s.after s.random_key_prefix [] (omega arith) big
        (omega arith) in
    ground (arith, e)

-- The two ways of a fetch of fewer members than there are.
pub fetch_below :
    (num : ℕ) (s : MemberSet)
    → num < size s
    → ((num < 2 ^ 32)
        × (s' : MemberSet) × (fetch num s ≡ ok (s', nodes (take num (turn s))))
        × Turned num s s')
      ⊎ ((2 ^ 32 ≤ num) × (fetch num s ≡ fault endless))
fetch_below num s h = elim (Bool-cases (ltb num (2 ^ 32))) [
  | inl fits ↦
      let lt = ltb→lt num (2 ^ 32) fits in
      let (s', e, t) = fetch-turn num s h lt in inl (lt, s', e, t)
  | inr big ↦ let le : 2 ^ 32 ≤ num = ground arith in inr (le, fetch_endless num s h le)
]

pub fetch_zero : (num : ℕ) (s : MemberSet) → num ≡ 0 → fetch num s ≡ ok (s, [])
unfolding fetch fetch_num
fetch_zero num s e = ground arith

pub fetch_equal :
    (num : ℕ) (s : MemberSet) → num ≡ size s → num ≢ 0 → fetch num s ≡ fault assert_failed
unfolding fetch fetch_num
fetch_equal num s e h = ground arith

-- Asking for more members than there are returns all of them, and leaves the cursor alone.
pub fetch_above : (num : ℕ) (s : MemberSet) → size s < num → fetch num s ≡ ok (s, nodes (members s))
unfolding fetch
fetch_above num s h = ground arith

-- What a fetch of so many from so many members is stopped by.
abbrev pub IsStopped : ℕ → ℕ → Type 0
IsStopped num all = ((num ≡ all) × (num ≢ 0)) ⊎ ((2 ^ 32 ≤ num) × (num < all))

fetch_faults_at :
    (num : ℕ) (s : MemberSet) (x : Fault) → fetch num s ≡ fault x → IsStopped num (size s)
fetch_faults_at num s x e = elim (Bool-cases (ltb num (size s))) [
  | inl below ↦
      let lt = ltb→lt num (size s) below in
      elim (fetch_below num s lt) [ inl (_, s', q, _) ↦ cc | inr (big, _) ↦ inr (big, lt) ]
  | inr not_below ↦ elim (Bool-cases (ltb (size s) num)) [
    | inl above ↦ let q = fetch_above num s (ltb→lt (size s) num above) in cc
    | inr not_above ↦
        let eq : num ≡ size s = ground arith in inl (eq, λ z. let q = fetch_zero num s z in cc)
  ]
]

-- A fetch aborts exactly when it asks for as many members as there are, and that is not none, and it
-- goes on for ever exactly when it asks for fewer, but 2 ^ 32 or more.
pub fetch_faults :
    (num : ℕ) (s : MemberSet) → ((x : Fault) × (fetch num s ≡ fault x)) ↔ IsStopped num (size s)
fetch_faults num s = (λ (x, e). fetch_faults_at num s x e, stops)
  where
    stops : IsStopped num (size s) → (x : Fault) × (fetch num s ≡ fault x)
    stops (inl (e, h)) = (assert_failed, fetch_equal num s e h)
    stops (inr (big, lt)) = (endless, fetch_endless num s lt big)

below_faults :
    (num : ℕ) (s : MemberSet) (x : Fault)
    → fetch num s ≡ fault x
    → ((x ≡ assert_failed) × (num ≡ size s) × (num ≢ 0))
      ⊎ ((x ≡ endless) × (2 ^ 32 ≤ num) × (num < size s))
below_faults num s x e = elim (fetch_faults_at num s x e) [
  | inl (eq, ne) ↦ let q = fetch_equal num s eq ne in inl (cc, eq, ne)
  | inr (big, lt) ↦ let q = fetch_endless num s lt big in inr (cc, big, lt)
]

-- A fetch fails its assertion exactly when it asks for as many members as there are, and that is not
-- none, and it goes on for ever exactly when it asks for fewer than there are, but for 2 ^ 32 or more;
-- in every other case it returns.
pub fetch_stops :
    (num : ℕ) (s : MemberSet)
    → ((fetch num s ≡ fault assert_failed) ↔ ((num ≡ size s) × (num ≢ 0)))
      × ((fetch num s ≡ fault endless) ↔ ((2 ^ 32 ≤ num) × (num < size s)))
      × (IsStopped num (size s) ⊎ ((r : MemberSet × List Node) × (fetch num s ≡ ok r)))
fetch_stops num s = (
  (
    λ e. elim (below_faults num s assert_failed e) [
      | inl (_, eq, ne) ↦ (eq, ne)
      | inr (q, _, _) ↦ cc
    ],
    λ (eq, ne). fetch_equal num s eq ne,
  ),
  (
    λ e. elim (below_faults num s endless e) [ inl (q, _, _) ↦ cc | inr (_, big, lt) ↦ (big, lt) ],
    λ (big, lt). fetch_endless num s lt big,
  ),
  elim (Bool-cases (ltb num (size s))) [
    | inl below ↦
        let lt = ltb→lt num (size s) below in
        elim (fetch_below num s lt) [
          | inl (_, s', q, _) ↦ inr (_, q)
          | inr (big, _) ↦ inl (inr (big, lt))
        ]
    | inr not_below ↦ elim (Bool-cases (ltb (size s) num)) [
      | inl above ↦ inr (_, fetch_above num s (ltb→lt (size s) num above))
      | inr not_above ↦ elim (Bool-cases (num == 0)) [
        | inl none_asked ↦ inr (_, fetch_zero num s (ground arith))
        | inr some_asked ↦ inl (inl (ground arith, λ z. ground arith))
      ]
    ]
  ],
)

-- Whatever is asked for, only the cursor moves.
pub fetch-Ends :
    (num : ℕ) (s : MemberSet)
    → Ends
        (λ r. (members r.0 ≡ members s) × (r.0.random_key_prefix ≡ s.random_key_prefix))
        (fetch num s)
fetch-Ends num s = elim (Bool-cases (ltb num (size s))) [
  | inl below ↦ elim (fetch_below num s (ltb→lt num (size s) below)) [
    | inl (_, s', q, t) ↦ rw q (t.same_map, t.same_prefix)
    | inr (_, q) ↦ rw q tt
  ]
  | inr not_below ↦ elim (Bool-cases (ltb (size s) num)) [
    | inl above ↦ rw (fetch_above num s (ltb→lt (size s) num above)) (refl, refl)
    | inr not_above ↦ elim (Bool-cases (num == 0)) [
      | inl none_asked ↦ rw (fetch_zero num s (ground arith)) (refl, refl)
      | inr some_asked ↦ rw (fetch_equal num s (ground arith) (λ z. ground arith)) tt
    ]
  ]
]

length-nodes : (m : List (Bytes × Node)) → length (nodes m) ≡ length m
length-nodes [] = refl
length-nodes ((k, n) ∷ m) = ap suc (length-nodes m)

length-take_le : (k : ℕ) (m : List (Bytes × Node)) → length (take k m) ≤ k
length-take_le zero m = omega arith
length-take_le (suc k) [] = omega arith
length-take_le (suc k) (x ∷ m) = omega (arith, length-take_le k m)

-- No more members are handed out than are asked for.
pub length-fetch : (num : ℕ) (s : MemberSet) → Ends (λ r. length r.1 ≤ num) (fetch num s)
length-fetch num s = elim (Bool-cases (ltb num (size s))) [
  | inl below ↦ elim (fetch_below num s (ltb→lt num (size s) below)) [
    | inl (_, s', q, t) ↦
        rw q (omega (arith, length-nodes (take num (turn s)), length-take_le num (turn s)))
    | inr (_, q) ↦ rw q tt
  ]
  | inr not_below ↦ elim (Bool-cases (ltb (size s) num)) [
    | inl above ↦
        rw (fetch_above num s (ltb→lt (size s) num above))
          (omega (arith, length-nodes (members s), ltb→lt (size s) num above))
    | inr not_above ↦ elim (Bool-cases (num == 0)) [
      | inl none_asked ↦ rw (fetch_zero num s (ground arith)) (omega arith)
      | inr some_asked ↦ rw (fetch_equal num s (ground arith) (λ z. ground arith)) tt
    ]
  ]
]
