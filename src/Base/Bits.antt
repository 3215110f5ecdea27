-- ===== src/Base/Bits.antt =====
-- A Boolean test is settled for a small range of numbers by running it on each of them.
use Prim.Native.Nat.{ℕ, zero, suc, ◌<◌}
use mathlib.Core.Path.{◌≡◌}
use mathlib.Core.Bool.{Bool, true, false}
use multi_process.Base.Tests.{if◌then◌else◌}
use native.Mathlib.Omega.{arith}

unfoldable pub passes : (ℕ → Bool) → ℕ → Bool
passes check zero = true
passes check (suc k) = if check k then passes check k else false

-- A number below the bound passes if the run does.
pub check_of_passes :
    (check : ℕ → Bool) {x : ℕ} (bound : ℕ) → passes check bound ≡ true → x < bound → check x ≡ true
unfolding passes
check_of_passes check {x} zero ran below = absurd (omega arith)
check_of_passes check {x} (suc k) ran below = ground (arith, check_of_passes check {x = x} k)
