-- ===== src/Base/Wrap.antt =====
-- Indices that go round an array of `n` cells.
use Prim.Native.Nat.{ℕ, ◌+◌, ◌-◌, ◌%◌, ◌<◌}
use mathlib.Core.Path.{◌≡◌}
use native.Mathlib.Nat.{mod-eq_of_lt, mod-eq-sub-mod}
use native.Mathlib.Omega.{arith}
use monitor_system.Base.Tests.{ltb, if◌then◌else◌}

-- `%` on a value below twice the size is one subtraction at most.
pub mod_once : (a n : ℕ) → a < n + n → a % n ≡ (if ltb a n then a else a - n)
mod_once a n h = ground (
  arith,
  mod-eq_of_lt {n = a} {m = n},
  mod-eq-sub-mod {n = a} {m = n},
  mod-eq_of_lt {n = a - n} {m = n},
)
