-- ===== src/Resp/RoundTrip.antt =====
-- What the parser makes of requests that are written as arrays of bulk strings.
use gossip_net.Prelude.{
  ℕ, suc, ◌+◌, ◌-◌, ◌^◌, ◌≤◌, ◌<◌, ◌≡◌, refl, ap, ◌∙◌, none, some, List, [], ◌∷◌, ◌++◌,
  append_assoc, append-nil, arith, Bytes, length, length-append, All,
}
use gossip_net.Outcome.{ok, ◌>>=◌}
use gossip_net.Decimal.{max_u64, to_string}
use gossip_net.Decimal.Int.{pos, to_string_int}
use gossip_net.Resp.{
  cr, lf, parse_num, parse_payload, parse_argv, read_args, finish, parse_args, parse_named,
  parse_one, parse_argc, parse_loop, parse, RespRequest,
}
use gossip_net.Resp.Builder.{append_array, append_bulk_string}
use gossip_net.Resp.Bulk.{
  parse_num-to_string, Fits, parse_argv-bulk, bulks, read_args-none, read_args-bulks,
}

small_count : (n : ℕ) → n + 1 < 2 ^ 32 → suc n ≤ max_u64
small_count n h = omega arith

-- A request as a client writes it: the array of its name and its arguments.
unfoldable pub encode : RespRequest → Bytes
unfolding bulks
encode req = append_array [] (pos (suc (length req.args))) ++ bulks (req.name ∷ req.args)

-- The parser's own limits: 32-bit counts of arguments and 64-bit lengths.
pub record IsSmall (req : RespRequest) : Type 0 where
  pub name_fits : Fits req.name
  pub args_fit : All Fits req.args
  pub few : length req.args + 1 < 2 ^ 32

pub parse_argv-nil : parse_argv [] ≡ ok (none, [])
unfolding parse_argv parse_num parse_payload
parse_argv-nil = refl

pub length-bulk : (s : Bytes) → 0 < length (append_bulk_string [] s)
unfolding append_bulk_string
length-bulk s = omega arith

length-bulks :
    (ss : List Bytes) (rest : Bytes) → length ss + length rest ≤ length (bulks ss ++ rest)
unfolding bulks
length-bulks [] rest = omega arith
length-bulks (s ∷ ss) rest = simp append_assoc (
    omega (
      arith,
      length-bulk s,
      length-bulks ss rest,
      length-append (append_bulk_string [] s) (bulks ss ++ rest),
    ))

encode-append :
    (req : RespRequest) (rest : Bytes)
    → encode req ++ rest
      ≡ b'*' ∷ to_string (suc (length req.args))
        ++ (cr ∷ lf ∷ append_bulk_string [] req.name ++ (bulks req.args ++ rest))
unfolding encode append_array to_string_int
encode-append req rest = simp append_assoc

pub parse_args_lem :
    (argc : ℕ) (name buffer : Bytes)
    → argc < 2 ^ 32
    → parse_args argc (some name) buffer
      ≡ (read_args (suc (length buffer)) argc 0 buffer [] >>= finish argc name)
unfolding parse_args
parse_args_lem argc name buffer h = ground arith

pub parse_named_lem :
    (argc : ℕ) (buffer : Bytes)
    → parse_named (some (suc argc)) buffer
      ≡ (parse_argv buffer >>= λ argv. parse_args (suc argc) argv.0 argv.1)
unfolding parse_named
parse_named_lem argc buffer = ground arith

-- One round of the parser, up to the read behind the last argument.
pub parse_one-encode :
    (req : RespRequest) (rest : Bytes)
    → IsSmall req
    → (g : ℕ) × (length rest ≤ g)
      × (parse_one (encode req ++ rest) ≡ (
          read_args (suc g) (suc (length req.args)) (length req.args) rest req.args
          >>= finish (suc (length req.args)) req.name))
unfolding parse_one parse_argc
parse_one-encode req rest small =
    let n = length req.args in
    let body = bulks req.args ++ rest in
    let g = length body - n in
    let e : suc (length body) ≡ n + suc g = omega (arith, length-bulks req.args rest) in
    let z : 0 + n ≡ n = omega arith in
    (
      g,
      omega (arith, length-bulks req.args rest),
      rw
          (
            encode-append req rest,
            parse_num-to_string b'*' (suc n) (append_bulk_string [] req.name ++ body)
                (small_count n small.few),
            parse_named_lem,
            parse_argv-bulk req.name body small.name_fits,
            parse_args_lem (suc n) req.name body (omega arith),
          )
          (ap (λ m. m >>= finish (suc n) req.name)
            (read_args-bulks req.args (suc (length body)) g (suc n) 0 rest [] small.args_fit e
                (omega arith) (omega arith)
              ∙ ap (λ k. read_args (suc g) (suc n) k rest req.args) z)),
    )

length-encode : (req : RespRequest) → 0 < length (encode req)
unfolding encode append_array
length-encode req = omega arith

parse_one-nil : parse_one [] ≡ ok (none, [])
unfolding parse_one parse_argc parse_num parse_named
parse_one-nil = refl

-- The loop over the requests, when the first round takes the whole buffer.
pub parse_whole :
    (buffer : Bytes) (req : RespRequest)
    → 0 < length buffer
    → parse_one buffer ≡ ok (some req, [])
    → parse buffer ≡ ok (req ∷ [], length buffer)
unfolding parse parse_loop
parse_whole [] req h e = absurd (omega arith)
parse_whole (b ∷ buffer) req h e =
    let z : suc (length buffer) - 0 ≡ suc (length buffer) = omega arith in
    rw (e, parse_one-nil, z) refl

finish_all :
    (n : ℕ) (name rest : Bytes) (args : List Bytes)
    → finish (suc n) name (n, args, rest) ≡ ok (some (record { name = name; args = args }), rest)
unfolding finish
finish_all n name rest args = ground arith

-- A request that stands alone in the buffer, with fewer than 2 ^ 32 strings whose lengths plus two
-- fit 64 bits, is read back exactly, and the whole buffer with it.
pub parse-encode :
    (req : RespRequest) → IsSmall req → parse (encode req) ≡ ok (req ∷ [], length (encode req))
parse-encode req small =
    let (g, _, e) = parse_one-encode req [] small in
    let n = length req.args in
    let r = read_args-none g (suc n) n [] req.args (omega arith) [] parse_argv-nil in
    parse_whole (encode req) req (length-encode req) (
      rw append-nil at e
      ∙ ap (λ m. m >>= finish (suc n) req.name) r
      ∙ finish_all n req.name [] req.args)

pub encode-head : (req : RespRequest) → (rest : Bytes) × (encode req ≡ b'*' ∷ rest)
unfolding encode append_array
encode-head req = (
  (to_string_int (pos (suc (length req.args))) ++ cr ∷ lf ∷ []) ++ bulks (req.name ∷ req.args),
  refl,
)
