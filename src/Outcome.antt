-- ===== src/Outcome.antt =====
-- errors.h and the ways in which a call of the program can end: with a value, with a thrown
-- `Error` (which handlers catch), or with a fault: undefined behaviour, a failed `assert`, an
-- exception that no handler of the program catches, or a loop whose counter never meets its end,
-- which is `endless`.
pub mod Ends
use gossip_net.Prelude.{ℕ, Bytes}

-- One constructor for each message that the program gives to `Error`; `expect_number` stands for the
-- two of them about numbers, and `uv_error` holds the text that `UvError` makes.
pub data Error : Type 0 where
  expect_tag : ℕ → Error
  expect_number expect_crlf no_command_name : Error
  bad_node_info bad_node_type unknown_status : Error
  null_command already_registered already_started reuseport_failed : Error
  uv_error : Bytes → Error

pub data Fault : Type 0 where
  out_of_bounds assert_failed length_error use_after_free uncaught bad_cast endless out_of_fuel :
      Fault

pub data Outcome {ℓ} (A : Type ℓ) : Type ℓ where
  ok : A → Outcome A
  throws : Error → Outcome A
  fault : Fault → Outcome A

infixl 5 ◌>>=◌
abbrev pub ◌>>=◌ {ℓ κ} : {A : Type ℓ} {B : Type κ} → Outcome A → (A → Outcome B) → Outcome B
ok a >>= f = f a
throws e >>= f = throws e
fault x >>= f = fault x
