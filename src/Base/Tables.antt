-- ===== src/Base/Tables.antt =====
-- Facts about every value below a small bound, by evaluation.
use Prim.Native.Nat.{ℕ, zero, suc, ◌<◌}
use mathlib.Core.Path.{◌≡◌}
use mathlib.Core.Bool.{Bool, true, ◌&&◌}
use native.Mathlib.Omega.{arith}

-- A test at each of the numbers 0 to n - 1.
unfoldable pub passes_below : (ℕ → Bool) → ℕ → Bool
passes_below test zero = true
passes_below test (suc last) = passes_below test last && test last

pub passes_below-true :
    (test : ℕ → Bool) (bound k : ℕ) → k < bound → passes_below test bound ≡ true → test k ≡ true
unfolding passes_below
passes_below-true test zero k below passed = absurd (omega arith)
passes_below-true test (suc last) k below passed = ground (arith, passes_below-true test last k)
