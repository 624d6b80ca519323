-- ===== src/Tests/Requests.antt =====
-- The parser, on concrete requests.
use gossip_net.Prelude.{
  ◌+◌, ◌-◌, ◌^◌, ◌≡◌, ◌≢◌, ◌≤◌, ◌↔◌, [], ◌∷◌, ◌++◌, arith, Bytes, codes, length,
}
use gossip_net.Outcome.{ok, fault, out_of_bounds, out_of_fuel}
use gossip_net.Decimal.{max_u64, to_string}
use gossip_net.Resp.{cr, lf, parse, parse_argv}
use gossip_net.Resp.Builder.{append_bulk_string}
use gossip_net.Resp.Bulk.{parse_num-to_string}
use gossip_net.Resp.RoundTrip.{IsSmall, encode, parse-encode}
use gossip_net.Resp.Ends.{parse-terminates}
use gossip_net.Resp.Extra.{parse-encode-bulk}
use gossip_net.Resp.Bounds.{parse_argv-faults}
use gossip_net.Tests.{greeting}

pub greeting-IsSmall : IsSmall greeting
greeting-IsSmall = record {
  name_fits = omega arith;
  args_fit = (omega arith, (omega arith, tt));
  few = omega arith;
}

parse-encode_example : parse (encode greeting) ≡ ok (greeting ∷ [], length (encode greeting))
parse-encode_example = parse-encode greeting greeting-IsSmall

parse-terminates_example : parse (codes "*2#") ≢ fault out_of_fuel
parse-terminates_example = parse-terminates (codes "*2#")

parse-encode-bulk_example :
    parse (encode greeting ++ append_bulk_string [] (codes "more"))
    ≡ ok (
      record { name = greeting.name; args = greeting.args ++ codes "more" ∷ [] } ∷ [],
      length (encode greeting ++ append_bulk_string [] (codes "more")),
    )
parse-encode-bulk_example = parse-encode-bulk greeting (codes "more") greeting-IsSmall (omega arith)

abbrev huge : Bytes
huge = b'$' ∷ to_string max_u64 ++ (cr ∷ lf ∷ codes "ab")

parse_argv-faults_example :
    (parse_argv huge ≡ fault out_of_bounds)
    ↔ ((2 ^ 64 ≤ max_u64 + 2) × (max_u64 + 2 - 2 ^ 64 ≤ length (codes "ab")))
parse_argv-faults_example =
    parse_argv-faults huge (codes "ab") max_u64
      (parse_num-to_string b'$' max_u64 (codes "ab") (omega arith)) (omega arith) (omega arith)
