-- ===== src/Resp/Extra.antt =====
-- What stands behind a request in the buffer of resp.cpp.
use gossip_net.Prelude.{
  append_assoc, ℕ, zero, suc, ==_iff, ◌+◌, ◌<◌, ◌≡◌, ◌≤◌, ◌≢◌, refl, ap, ◌∙◌, some, List, [], ◌∷◌,
  ◌++◌, append-nil, arith, Bytes, length, length-append,
}
use gossip_net.Outcome.{ok, throws, expect_tag, Error, ◌>>=◌}
use gossip_net.Resp.{
  parse_argc, RespRequest, parse_num, parse_argv, read_args, finish, parse_one, parse_loop, parse,
}
use gossip_net.Decimal.{max_u64}
use gossip_net.Decimal.Int.{pos, to_string_int}
use gossip_net.Resp.Builder.{append_array, append_bulk_string}
use gossip_net.Resp.Bulk.{
  parse_num-to_string, Fits, parse_argv-bulk, read_args-some, read_args-throws,
}
use gossip_net.Resp.RoundTrip.{
  parse_named_lem, IsSmall, encode, parse_one-encode, parse_whole, length-bulk,
}

parse_argv-tag :
    (b : ℕ) (rest : Bytes) → b ≢ b'$' → parse_argv (b ∷ rest) ≡ throws (expect_tag b'$')
unfolding parse_argv parse_num
parse_argv-tag b rest h = ground arith

parse_throws : (buffer : Bytes) (x : Error) → parse_one buffer ≡ throws x → parse buffer ≡ throws x
unfolding parse parse_loop
parse_throws buffer x e = rw e refl

-- Behind a request within the parser's limits, any byte but `$`, such as the `*` of a second
-- request, makes `parse` fail on the whole buffer.
pub parse-encode-append :
    (req : RespRequest) (b : ℕ) (rest : Bytes)
    → IsSmall req
    → b ≢ b'$'
    → parse (encode req ++ b ∷ rest) ≡ throws (expect_tag b'$')
parse-encode-append req b rest small h =
    let (g, _, e) = parse_one-encode req (b ∷ rest) small in
    let n = length req.args in
    let r =
      read_args-throws g (suc n) n (b ∷ rest) req.args (omega arith) (expect_tag b'$')
        (parse_argv-tag b rest h) in
    parse_throws (encode req ++ b ∷ rest) (expect_tag b'$')
      (e ∙ ap (λ m. m >>= finish (suc n) req.name) r)

read_args_done :
    (f argc idx : ℕ) (buffer : Bytes) (args : List Bytes)
    → 0 < f
    → idx ≡ argc
    → read_args f argc idx buffer args ≡ ok (idx, args, buffer)
unfolding read_args
read_args_done zero argc idx buffer args h e = elim h [ ]
read_args_done (suc f) argc idx buffer args h e = rw ((==_iff idx argc).1 e) refl

finish_more :
    (n : ℕ) (name rest : Bytes) (args : List Bytes)
    → finish (suc n) name (n + 1, args, rest)
      ≡ ok (some (record { name = name; args = args }), rest)
unfolding finish
finish_more n name rest args = ground arith

-- A bulk string behind a request, both within the parser's limits, is taken as one more argument
-- than the array declares.
pub parse-encode-bulk :
    (req : RespRequest) (s : Bytes)
    → IsSmall req
    → Fits s
    → parse (encode req ++ append_bulk_string [] s)
      ≡ ok (
        record { name = req.name; args = req.args ++ s ∷ [] } ∷ [],
        length (encode req ++ append_bulk_string [] s),
      )
parse-encode-bulk req s small fits =
    let tail = append_bulk_string [] s in
    let (g, le, e) = parse_one-encode req tail small in
    let n = length req.args in
    let argv : parse_argv tail ≡ ok (some s, []) = rw append-nil at (parse_argv-bulk s [] fits) in
    let r = read_args-some g (suc n) n tail req.args (omega arith) s [] argv (omega arith) in
    let d =
      read_args_done g (suc n) (n + 1) [] (req.args ++ s ∷ []) (omega (arith, length-bulk s))
        (omega arith) in
    parse_whole (encode req ++ tail) _
      (omega (arith, length-append (encode req) tail, length-bulk s))
      (e ∙ ap (λ m. m >>= finish (suc n) req.name) (r ∙ d) ∙ finish_more n req.name [] _)

parse_one-array :
    (n b : ℕ) (rest : Bytes)
    → suc n ≤ max_u64
    → b ≢ b'$'
    → parse_one (append_array [] (pos (suc n)) ++ b ∷ rest) ≡ throws (expect_tag b'$')
unfolding parse_one parse_argc append_array to_string_int
parse_one-array n b rest fits h = simp append_assoc (
    rw (parse_num-to_string b'*' (suc n) (b ∷ rest) fits, parse_named_lem, parse_argv-tag b rest h)
      refl)

-- An array whose first element is no bulk string fails the whole buffer.
pub parse-array :
    (n b : ℕ) (rest : Bytes)
    → suc n ≤ max_u64
    → b ≢ b'$'
    → parse (append_array [] (pos (suc n)) ++ b ∷ rest) ≡ throws (expect_tag b'$')
parse-array n b rest fits h = parse_throws _ _ (parse_one-array n b rest fits h)
