-- ===== src/Resp.antt =====
-- resp.h and resp.cpp: the parser of requests and the builder of replies.
pub mod Ends
pub mod Builder
pub mod Bulk
pub mod RoundTrip
pub mod Extra
pub mod Bounds
use gossip_net.Prelude.{
  ℕ, zero, suc, ◌+◌, ◌-◌, ◌%◌, ◌^◌, ◌&&◌, Option, none, some, List, [], ◌∷◌, ◌++◌, Bytes, length,
  take, drop, ltb, ◌==◌, if◌then◌else◌,
}
use gossip_net.Outcome.{
  Outcome, ok, throws, fault, expect_tag, expect_number, expect_crlf, no_command_name,
  out_of_bounds, length_error, out_of_fuel, ◌>>=◌,
}
use gossip_net.Decimal.{max_u64, from_chars}

pub record RespRequest : Type 0 where
  pub name : Bytes
  pub args : List Bytes

abbrev pub cr : ℕ
cr = 13

abbrev pub lf : ℕ
lf = 10

-- Reading `*p` and `*(p + 1)`, which must be CR and LF; `buffer` is what is left from `p` on. A read
-- behind the end of the buffer is undefined behaviour.
abbrev pub expect_line_end {ℓ} : {A : Type ℓ} → Bytes → (Bytes → Outcome A) → Outcome A
expect_line_end [] k = fault out_of_bounds
expect_line_end (a ∷ []) k = if a == cr then fault out_of_bounds else throws expect_crlf
expect_line_end (a ∷ b ∷ rest) k = if a == cr && b == lf then k rest else throws expect_crlf

-- Behind the tag.
parse_digits : Bytes → Option (ℕ × Bytes) → Outcome (Option ℕ × Bytes)
parse_digits buffer none = throws expect_number
parse_digits buffer (some (n, ptr)) =
    if ltb (length ptr) 2
    then ok (none, buffer)
    else expect_line_end ptr (λ rest. ok (some n, rest))

parse_tagged : Bytes → Outcome (Option ℕ × Bytes)
parse_tagged [] = ok (none, [])
parse_tagged (b ∷ buffer) = parse_digits (b ∷ buffer) (from_chars max_u64 (b ∷ buffer))

-- `_parse_num`: the number, or none where the buffer ends too early, and the buffer that is left.
pub parse_num : ℕ → Bytes → Outcome (Option ℕ × Bytes)
parse_num c [] = ok (none, [])
parse_num c (b ∷ buffer) = if b == c then parse_tagged buffer else throws (expect_tag c)

pub parse_argc : Bytes → Outcome (Option ℕ × Bytes)
parse_argc buffer = parse_num b'*' buffer

-- `len + 2` is computed in 64 bits.
parse_payload : Option ℕ → Bytes → Outcome (Option Bytes × Bytes)
parse_payload none buffer = ok (none, buffer)
parse_payload (some len) buffer =
    if ltb (length buffer) ((len + 2) % 2 ^ 64)
    then ok (none, buffer)
    else expect_line_end (drop len buffer) (λ rest. ok (some (take len buffer), rest))

-- `_parse_argv`.
pub parse_argv : Bytes → Outcome (Option Bytes × Bytes)
parse_argv buffer = do num ← parse_num b'$' buffer; parse_payload num.0 num.1

-- `for ( ; idx != *argc; ++idx)`, with the 32-bit counter `idx`; it ends at the end of the buffer.
pub read_args : ℕ → ℕ → ℕ → Bytes → List Bytes → Outcome (ℕ × List Bytes × Bytes)
read_args zero argc idx buffer args = fault out_of_fuel
read_args (suc f) argc idx buffer args =
    let step = (do
      argv ← parse_argv buffer
      elim argv.0 [
        | none ↦ ok (idx, args, argv.1)
        | some arg ↦ read_args f argc ((idx + 1) % 2 ^ 32) argv.1 (args ++ arg ∷ [])
      ]) in
    if idx == argc then ok (idx, args, buffer) else step

-- The most elements that a vector of `string_view` can reserve.
abbrev pub max_args : ℕ
max_args = 2 ^ 59 - 1

pub finish : ℕ → Bytes → ℕ × List Bytes × Bytes → Outcome (Option RespRequest × Bytes)
finish argc name (idx, args, buffer) =
    if ltb idx (argc - 1)
    then ok (none, buffer)
    else ok (some (record { name = name; args = args }), buffer)

pub parse_args : ℕ → Option Bytes → Bytes → Outcome (Option RespRequest × Bytes)
parse_args argc none buffer = ok (none, buffer)
parse_args argc (some name) buffer =
    if ltb max_args (argc - 1)
    then fault length_error
    else do read ← read_args (suc (length buffer)) argc 0 buffer []; finish argc name read

pub parse_named : Option ℕ → Bytes → Outcome (Option RespRequest × Bytes)
parse_named none buffer = ok (none, buffer)
parse_named (some argc) buffer =
    if ltb argc 1
    then throws no_command_name
    else do argv ← parse_argv buffer; parse_args argc argv.0 argv.1

-- One round of the `while (true)` of `parse`: a request, or none where the loop breaks.
pub parse_one : Bytes → Outcome (Option RespRequest × Bytes)
parse_one buffer = do argc ← parse_argc buffer; parse_named argc.0 argc.1

-- `size` is that of the whole buffer, so that `buffer.data() - first` is `size - length buffer`.
parse_loop : ℕ → ℕ → Bytes → List RespRequest → ℕ → Outcome (List RespRequest × ℕ)
parse_loop zero size buffer requests bytes_parsed = fault out_of_fuel
parse_loop (suc f) size buffer requests bytes_parsed = do
  one ← parse_one buffer
  elim one.0 [
    | none ↦ ok (requests, bytes_parsed)
    | some req ↦ parse_loop f size one.1 (requests ++ req ∷ []) (size - length one.1)
  ]

pub parse : Bytes → Outcome (List RespRequest × ℕ)
parse buffer = parse_loop (suc (length buffer)) (length buffer) buffer [] 0
