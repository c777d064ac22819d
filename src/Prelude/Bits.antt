-- ===== src/Prelude/Bits.antt =====
-- A test that evaluates a table: it holds for every number under a limit.
use Prim.Native.Nat.{ℕ, zero, suc, ◌<◌}
use mathlib.Core.Path.{◌≡◌}
use mathlib.Core.Bool.{Bool, true, ◌&&◌}
use native.Mathlib.Omega.{arith}

unfoldable pub all_under : (ℕ → Bool) → ℕ → Bool
all_under test zero = true
all_under test (suc limit) = all_under test limit && test limit

pub all_under_lem :
    (test : ℕ → Bool) (limit entry : ℕ)
    → all_under test limit ≡ true
    → entry < limit
    → test entry ≡ true
unfolding all_under
all_under_lem test zero entry full under = absurd (omega arith)
all_under_lem test (suc limit) entry full under = ground (arith, all_under_lem test limit entry)
