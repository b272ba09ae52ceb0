-- ===== src/Base/Outcome.antt =====
-- What a C function does: it returns, it ends the process, or it reaches a state for which the
-- language promises nothing.
use mathlib.Core.Path.{◌≡◌, refl}

pub data Stop : Type 0 where
  -- `exit(1)`
  exits : Stop
  -- a null pointer is followed
  null_pointer : Stop
  -- a read or write outside an array, an unterminated string included
  out_of_bounds : Stop
  -- freed memory, or an iterator to an erased element, is used
  dangling : Stop
  -- `%` by zero
  division_by_zero : Stop

pub data Exec {ℓ} (A : Type ℓ) : Type ℓ where
  ok : A → Exec A
  stop : Stop → Exec A

-- The call that follows runs on the value of the first, if there is one.
infixl 5 ◌>>=◌
abbrev pub ◌>>=◌ {ℓ κ} : {A : Type ℓ} {B : Type κ} → Exec A → (A → Exec B) → Exec B
◌>>=◌ (stop why) next_call = stop why
◌>>=◌ (ok value) next_call = next_call value

-- If two calls in a row go through, so did the first.
pub first_call {ℓ κ} :
    {A : Type ℓ} {B : Type κ} (call : Exec A) (next_call : A → Exec B) {result : B}
    → (call >>= next_call) ≡ ok result
    → (value : A) × (call ≡ ok value) × (next_call value ≡ ok result)
first_call (stop why) next_call done = cc
first_call (ok value) next_call done = (value, refl, done)
