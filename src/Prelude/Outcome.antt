-- ===== src/Prelude/Outcome.antt =====
-- What a call can come to in a debug build (NDEBUG not defined, include/common.h): it returns; an
-- `A(...)` assertion fails and aborts the process; it does what C leaves undefined, such as an
-- access past the end of an array; it waits for a mutex that its own thread holds; or a loop of the
-- model has used up its fuel.
pub mod Chains
use mathlib.Core.Bool.{Bool, true, false}
use mathlib.Core.Option.{Option, none, some}

pub data Outcome {ℓ} (A : Type ℓ) : Type ℓ where
  done : A → Outcome A
  aborted undefined blocked unfinished : Outcome A

infixl 5 ◌>>=◌ ◌>>◌
abbrev pub ◌>>=◌ {ℓ κ} : {A : Type ℓ} {B : Type κ} → Outcome A → (A → Outcome B) → Outcome B
done a >>= f = f a
aborted >>= f = aborted
undefined >>= f = undefined
blocked >>= f = blocked
unfinished >>= f = unfinished

abbrev pub ◌>>◌ {ℓ} : {B : Type ℓ} → Outcome (Unit {0}) → Outcome B → Outcome B
m >> k = m >>= λ _. k

-- The macro `A(condition, ...)`.
abbrev pub assert : Bool → Outcome (Unit {0})
assert true = done tt
assert false = aborted

-- A read through a pointer or an index that must be in range.
abbrev pub deref {ℓ} : {A : Type ℓ} → Option A → Outcome A
deref none = undefined
deref (some a) = done a
