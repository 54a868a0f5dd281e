-- ===== src/Base/Table.antt =====
-- Facts about small numbers, checked value by value.
use Prim.Native.Nat.{ℕ, zero, suc, ◌<◌}
use mathlib.Core.Path.{◌≡◌}
use mathlib.Core.Bool.{Bool, true, ◌&&◌}
use native.Mathlib.Omega.{arith}

-- The test passes at every number below the bound.
unfoldable pub passes : (bound : ℕ) (test : ℕ → Bool) → Bool
passes zero test = true
passes (suc bound) test = passes bound test && test bound

pub passes-at :
    (bound : ℕ) (test : ℕ → Bool) (i : ℕ) → passes bound test ≡ true → i < bound → test i ≡ true
unfolding passes
passes-at (suc bound) test i table inside = ground (arith, passes-at bound test i)
passes-at zero test i table inside = absurd (omega arith)
