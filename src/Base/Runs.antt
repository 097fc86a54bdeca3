-- ===== src/Base/Runs.antt =====
-- How a run of C code ends: with a value, by `exit(EXIT_FAILURE)`, by a read or a write through a
-- pointer that points at nothing, or without an end in the fuel that it was given.
use mathlib.Core.Option.{Option, none, some}

pub data Outcome {ℓ} (A : Type ℓ) : Type ℓ where
  ok : A → Outcome A
  failure fault out_of_fuel : Outcome A

infixl 5 ◌>>=◌
abbrev pub ◌>>=◌ {ℓ κ} : {A : Type ℓ} {B : Type κ} → Outcome A → (A → Outcome B) → Outcome B
ok a >>= f = f a
failure >>= f = failure
fault >>= f = fault
out_of_fuel >>= f = out_of_fuel

-- What is read where `none` stands for memory that is not there.
abbrev pub or_fault {ℓ} : {A : Type ℓ} → Option A → Outcome A
or_fault none = fault
or_fault (some a) = ok a
