-- ===== src/Resp/Ends.antt =====
-- The loops of the parser, and their fuel.
use gossip_net.Prelude.{
  ℕ, zero, suc, ◌+◌, ◌-◌, ◌%◌, ◌^◌, ◌≤◌, ◌<◌, ◌≡◌, ◌≢◌, refl, Option, none, some, List, [], ◌∷◌,
  ◌++◌, arith, Bytes, length, drop, length-drop, ltb, ◌==◌, ◌&&◌,
}
use gossip_net.Outcome.{Outcome, fault, out_of_fuel}
use gossip_net.Outcome.Ends.{Ends, Ends-bind, Ends-if}
use gossip_net.Decimal.{max_u64, from_chars}
use gossip_net.Decimal.RoundTrip.{from_chars-bounds}
use gossip_net.Resp.{
  expect_line_end, cr, lf, parse_digits, parse_tagged, parse_num, parse_payload, parse_argv,
  read_args, finish, parse_args, parse_named, parse_one, parse_argc, parse_loop, parse, max_args,
  RespRequest,
}

-- What a parse step leaves of a buffer of `n` bytes: fewer bytes, if it found something.
abbrev Shrinks : {A : Type 0} → ℕ → Option A × Bytes → Type 0
Shrinks n (none, rest) = length rest ≤ n
Shrinks n (some a, rest) = length rest < n

expect_line_end-Ends :
    {A : Type 0} (P : A → Type 0) (buffer : Bytes) (k : Bytes → Outcome A)
    → ((rest : Bytes) → length rest < length buffer → Ends P (k rest))
    → Ends P (expect_line_end buffer k)
expect_line_end-Ends P [] k h = tt
expect_line_end-Ends P (a ∷ []) k h = Ends-if P (a == cr) _ _ (λ _. tt) (λ _. tt)
expect_line_end-Ends P (a ∷ b ∷ rest) k h =
    Ends-if P (a == cr && b == lf) (k rest) _ (λ _. h rest (omega arith)) (λ _. tt)

parse_digits-Ends :
    (n : ℕ) (buffer : Bytes) (found : Option (ℕ × Bytes))
    → from_chars max_u64 buffer ≡ found
    → length buffer ≤ n
    → Ends (Shrinks n) (parse_digits buffer found)
unfolding parse_digits
parse_digits-Ends n buffer none e le = tt
parse_digits-Ends n buffer (some (num, ptr)) e le =
    let fits = from_chars-bounds max_u64 buffer e in
    Ends-if _ (ltb (length ptr) 2) _ _ (λ _. omega arith)
      λ _. expect_line_end-Ends (Shrinks n) ptr _ λ rest h. omega arith

parse_tagged-Ends : (buffer : Bytes) → Ends (Shrinks (suc (length buffer))) (parse_tagged buffer)
unfolding parse_tagged
parse_tagged-Ends [] = omega arith
parse_tagged-Ends (b ∷ buffer) =
    parse_digits-Ends (suc (length (b ∷ buffer))) (b ∷ buffer) _ refl (omega arith)

parse_num-Ends : (c : ℕ) (buffer : Bytes) → Ends (Shrinks (length buffer)) (parse_num c buffer)
unfolding parse_num
parse_num-Ends c [] = omega arith
parse_num-Ends c (b ∷ buffer) =
    Ends-if _ (b == c) (parse_tagged buffer) _ (λ _. parse_tagged-Ends buffer) (λ _. tt)

parse_payload-Ends :
    (n : ℕ) (num : Option ℕ) (buffer : Bytes)
    → Shrinks n (num, buffer)
    → Ends (Shrinks n) (parse_payload num buffer)
unfolding parse_payload
parse_payload-Ends n none buffer h = h
parse_payload-Ends n (some len) buffer h =
    Ends-if _ (ltb (length buffer) ((len + 2) % 2 ^ 64)) _ _ (λ _. omega arith)
      λ _.
        expect_line_end-Ends (Shrinks n) (drop len buffer) _
          λ rest lt. omega (arith, length-drop len buffer)

parse_argv-Ends : (buffer : Bytes) → Ends (Shrinks (length buffer)) (parse_argv buffer)
unfolding parse_argv
parse_argv-Ends buffer =
    Ends-bind (Shrinks (length buffer)) (Shrinks (length buffer)) (parse_num b'$' buffer) _
      (parse_num-Ends b'$' buffer) λ num. parse_payload-Ends (length buffer) num.0 num.1

Shrinks-le : {A : Type 0} {n : ℕ} (r : Option A × Bytes) → Shrinks n r → length r.1 ≤ n
Shrinks-le (none, rest) h = h
Shrinks-le (some a, rest) h = omega arith

Shrinks-lt :
    {A : Type 0} {n : ℕ} {a : A} (r : Option A × Bytes)
    → r.0 ≡ some a
    → Shrinks n r
    → length r.1 < n
Shrinks-lt (none, rest) e h = cc
Shrinks-lt (some b, rest) e h = h

Ends-option :
    {A B : Type 0} (P : B → Type 0) (o : Option A) (m : Outcome B) (k : A → Outcome B)
    → Ends P m
    → ((a : A) → o ≡ some a → Ends P (k a))
    → Ends P (elim o [ none ↦ m | some a ↦ k a ])
Ends-option P none m k h g = h
Ends-option P (some a) m k h g = g a refl

read_args-Ends :
    (n f argc idx : ℕ) (buffer : Bytes) (args : List Bytes)
    → length buffer ≤ n
    → length buffer < f
    → Ends (λ r. length r.2 ≤ n) (read_args f argc idx buffer args)
unfolding read_args
read_args-Ends n zero argc idx buffer args le h = elim h [ ]
read_args-Ends n (suc f) argc idx buffer args le h =
    Ends-if _ (idx == argc) _ _ (λ _. le)
      λ _.
        Ends-bind (Shrinks (length buffer)) (λ r. length r.2 ≤ n) (parse_argv buffer) _
          (parse_argv-Ends buffer)
          λ argv s.
            Ends-option (λ r. length r.2 ≤ n) argv.0 _ _ (omega (arith, Shrinks-le argv s))
              λ arg e.
                let lt = Shrinks-lt argv e s in
                read_args-Ends n f argc ((idx + 1) % 2 ^ 32) argv.1 (args ++ arg ∷ []) (omega arith)
                  (omega arith)

parse_args-Ends :
    (n argc : ℕ) (name : Option Bytes) (buffer : Bytes)
    → length buffer < n
    → Ends (Shrinks n) (parse_args argc name buffer)
unfolding parse_args finish
parse_args-Ends n argc none buffer h = omega arith
parse_args-Ends n argc (some name) buffer h =
    Ends-if _ (ltb max_args (argc - 1)) _ _ (λ _. tt)
      λ _.
        Ends-bind (λ r. length r.2 ≤ length buffer) (Shrinks n)
          (read_args (suc (length buffer)) argc 0 buffer []) _
          (read_args-Ends (length buffer) (suc (length buffer)) argc 0 buffer [] (omega arith)
            (omega arith))
          λ r le. Ends-if _ (ltb r.0 (argc - 1)) _ _ (λ _. omega arith) (λ _. omega arith)

parse_named-Ends :
    (n : ℕ) (argc : Option ℕ) (buffer : Bytes)
    → Shrinks n (argc, buffer)
    → Ends (Shrinks n) (parse_named argc buffer)
unfolding parse_named
parse_named-Ends n none buffer h = h
parse_named-Ends n (some argc) buffer h =
    Ends-if _ (ltb argc 1) _ _ (λ _. tt)
      λ _.
        Ends-bind (Shrinks (length buffer)) (Shrinks n) (parse_argv buffer) _
          (parse_argv-Ends buffer)
          λ argv s. parse_args-Ends n argc argv.0 argv.1 (omega (arith, Shrinks-le argv s))

parse_one-Ends : (buffer : Bytes) → Ends (Shrinks (length buffer)) (parse_one buffer)
unfolding parse_one parse_argc
parse_one-Ends buffer =
    Ends-bind (Shrinks (length buffer)) (Shrinks (length buffer)) (parse_num b'*' buffer) _
      (parse_num-Ends b'*' buffer) λ num. parse_named-Ends (length buffer) num.0 num.1

parse_loop-Ends :
    (f size : ℕ) (buffer : Bytes) (requests : List RespRequest) (parsed : ℕ)
    → length buffer < f
    → parsed ≤ size
    → Ends (λ r. r.1 ≤ size) (parse_loop f size buffer requests parsed)
unfolding parse_loop
parse_loop-Ends zero size buffer requests parsed h le = elim h [ ]
parse_loop-Ends (suc f) size buffer requests parsed h le =
    Ends-bind (Shrinks (length buffer)) (λ r. r.1 ≤ size) (parse_one buffer) _
      (parse_one-Ends buffer)
      λ one s.
        Ends-option (λ r. r.1 ≤ size) one.0 _ _ le
          λ req e.
            let lt = Shrinks-lt one e s in
            parse_loop-Ends f size one.1 (requests ++ req ∷ []) (size - length one.1) (omega arith)
              (omega arith)

pub parse-Ends : (buffer : Bytes) → Ends (λ r. r.1 ≤ length buffer) (parse buffer)
unfolding parse
parse-Ends buffer =
    parse_loop-Ends (suc (length buffer)) (length buffer) buffer [] 0 (omega arith) (omega arith)

-- Whatever the bytes, both loops of the parser end before their fuel does.
pub parse-terminates : (buffer : Bytes) → parse buffer ≢ fault out_of_fuel
parse-terminates buffer e = rw e at (parse-Ends buffer)
