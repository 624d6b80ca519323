-- ===== src/Resp/Bulk.antt =====
-- Arguments in bulk strings, and the loop that reads them.
use gossip_net.Prelude.{
  ℕ, zero, suc, ◌+◌, ◌%◌, ◌^◌, ◌≤◌, ◌<◌, ◌≡◌, refl, ◌∙◌, false, none, some, List, [], ◌∷◌, ◌++◌,
  append_assoc, append-nil, arith, Bytes, length, length-append, take-length-append,
  drop-length-append, ◌==◌, All,
}
use gossip_net.Outcome.{ok, throws, Error}
use gossip_net.Decimal.{max_u64, to_string, from_chars}
use gossip_net.Decimal.RoundTrip.{to_string-head, from_chars-to_string}
use gossip_net.Resp.{
  cr, lf, parse_digits, parse_tagged, parse_num, parse_payload, parse_argv, read_args,
}
use gossip_net.Resp.Builder.{append_bulk_string}

pub parse_num-to_string :
    (c n : ℕ) (rest : Bytes)
    → n ≤ max_u64
    → parse_num c (c ∷ to_string n ++ (cr ∷ lf ∷ rest)) ≡ ok (some n, rest)
unfolding parse_num parse_tagged parse_digits
parse_num-to_string c n rest fits =
    let (d, s, e, _) = to_string-head n in
    let r : from_chars max_u64 (d ∷ s ++ (cr ∷ lf ∷ rest)) ≡ some (n, cr ∷ lf ∷ rest) =
      rw e at (from_chars-to_string max_u64 n (cr ∷ lf ∷ rest) fits refl) in
    rw (e, r) (ground arith)

-- A length that the parser can add two to in 64 bits.
abbrev pub Fits : Bytes → Type 0
Fits s = length s + 2 < 2 ^ 64

parse_payload-append :
    (s rest : Bytes)
    → Fits s
    → parse_payload (some (length s)) (s ++ (cr ∷ lf ∷ rest)) ≡ ok (some s, rest)
unfolding parse_payload
parse_payload-append s rest fits =
    rw (drop-length-append s (cr ∷ lf ∷ rest), take-length-append s (cr ∷ lf ∷ rest))
      (ground (arith, length-append s (cr ∷ lf ∷ rest)))

pub parse_argv-bulk :
    (s rest : Bytes) → Fits s → parse_argv (append_bulk_string [] s ++ rest) ≡ ok (some s, rest)
unfolding parse_argv append_bulk_string
parse_argv-bulk s rest fits = simp append_assoc (
    rw (parse_num-to_string b'$' (length s) (s ++ (cr ∷ lf ∷ rest)) (omega arith))
      (parse_payload-append s rest fits))

-- The arguments as bulk strings, one behind the other.
unfoldable pub bulks : List Bytes → Bytes
bulks [] = []
bulks (s ∷ ss) = append_bulk_string [] s ++ bulks ss

lt→ne : (a b : ℕ) → a < b → (a == b) ≡ false
lt→ne a b h = ground arith

module _ (f argc idx : ℕ) (buffer : Bytes) (args : List Bytes) (lt : idx < argc) where
  pub read_args-some :
      (arg rest : Bytes)
      → parse_argv buffer ≡ ok (some arg, rest)
      → argc < 2 ^ 32
      → read_args (suc f) argc idx buffer args ≡ read_args f argc (idx + 1) rest (args ++ arg ∷ [])
  unfolding read_args
  read_args-some arg rest e le =
      let i : (idx + 1) % 2 ^ 32 ≡ idx + 1 = omega arith in rw (lt→ne idx argc lt, e, i) refl

  pub read_args-none :
      (rest : Bytes)
      → parse_argv buffer ≡ ok (none, rest)
      → read_args (suc f) argc idx buffer args ≡ ok (idx, args, rest)
  unfolding read_args
  read_args-none rest e = rw (lt→ne idx argc lt, e) refl

  pub read_args-throws :
      (x : Error) → parse_argv buffer ≡ throws x → read_args (suc f) argc idx buffer args ≡ throws x
  unfolding read_args
  read_args-throws x e = rw (lt→ne idx argc lt, e) refl

pub read_args-bulks :
    (ss : List Bytes) (f g argc idx : ℕ) (rest : Bytes) (args : List Bytes)
    → All Fits ss
    → f ≡ length ss + suc g
    → idx + length ss < argc
    → argc < 2 ^ 32
    → read_args f argc idx (bulks ss ++ rest) args
      ≡ read_args (suc g) argc (idx + length ss) rest (args ++ ss)
unfolding bulks
read_args-bulks [] f g argc idx rest args fits e lt le =
    let h : f ≡ suc g = omega arith in
    let i : idx + 0 ≡ idx = omega arith in rw (h, i, append-nil) refl
read_args-bulks (s ∷ ss) zero g argc idx rest args fits e lt le = absurd (omega arith)
read_args-bulks (s ∷ ss) (suc f) g argc idx rest args fits e lt le =
    let j : idx + 1 + length ss ≡ idx + suc (length ss) = omega arith in
    simp append_assoc (
      read_args-some f argc idx _ args (omega arith) s (bulks ss ++ rest)
        (parse_argv-bulk s (bulks ss ++ rest) fits.0) le
      ∙ read_args-bulks ss f g argc (idx + 1) rest (args ++ s ∷ []) fits.1 (omega arith)
          (omega arith) le
      ∙ (rw (j, append_assoc) refl))
