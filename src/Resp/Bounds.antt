-- ===== src/Resp/Bounds.antt =====
-- The reads of `_parse_argv` against the end of the buffer.
use gossip_net.Prelude.{
  ℕ, ◌+◌, ◌-◌, ◌^◌, ◌≤◌, ◌<◌, ◌≡◌, ◌↔◌, refl, Option, some, [], ◌∷◌, arith, Bytes, length, take,
  drop, length-drop,
}
use gossip_net.Outcome.{ok, fault, out_of_bounds}
use gossip_net.Decimal.{max_u64}
use gossip_net.Resp.{expect_line_end, parse_num, parse_payload, parse_argv}

expect_line_end-faults :
    (buffer : Bytes) (arg : Bytes)
    → (expect_line_end {A = Option Bytes × Bytes} buffer (λ rest. ok (some arg, rest))
          ≡ fault out_of_bounds
        → length buffer < 2)
      × (length buffer < 1
          → expect_line_end {A = Option Bytes × Bytes} buffer (λ rest. ok (some arg, rest))
            ≡ fault out_of_bounds)
expect_line_end-faults [] arg = (λ _. omega arith, λ _. refl)
expect_line_end-faults (a ∷ []) arg = (λ _. omega arith, λ h. absurd (omega arith))
expect_line_end-faults (a ∷ b ∷ rest) arg = (λ h. ground arith, λ h. absurd (omega arith))

parse_payload-faults :
    (len : ℕ) (buffer : Bytes)
    → len ≤ max_u64
    → length buffer + 2 < 2 ^ 64
    → (parse_payload (some len) buffer ≡ fault out_of_bounds)
      ↔ ((2 ^ 64 ≤ len + 2) × (len + 2 - 2 ^ 64 ≤ length buffer))
unfolding parse_payload
parse_payload-faults len buffer fits small =
    let (to, from) = expect_line_end-faults (drop len buffer) (take len buffer) in
    (
      λ h. ground (arith, to, length-drop len buffer),
      λ h. ground (arith, from, length-drop len buffer),
    )

-- For a declared length of 64 bits, in a buffer that leaves room in the address space,
-- `_parse_argv` reads behind the end exactly when adding two to the length wraps and the buffer
-- holds as many bytes as are left of the sum.
pub parse_argv-faults :
    (buffer rest : Bytes) (len : ℕ)
    → parse_num b'$' buffer ≡ ok (some len, rest)
    → len ≤ max_u64
    → length rest + 2 < 2 ^ 64
    → (parse_argv buffer ≡ fault out_of_bounds)
      ↔ ((2 ^ 64 ≤ len + 2) × (len + 2 - 2 ^ 64 ≤ length rest))
unfolding parse_argv
parse_argv-faults buffer rest len e fits small = rw e (parse_payload-faults len rest fits small)
