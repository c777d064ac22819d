-- ===== src/Checksum/Fold.antt =====
-- What folding the carries of a 32-bit sum gives (client/common/network/checksum.c).
use kos_tool.Prelude.{ℕ, ◌-◌, ◌%◌, ◌<◌, ◌≡◌, arith, IsU32}
use native.Mathlib.Decide.{ℕ_discrete}
use kos_tool.Checksum.{fold_carries, fold}

pub record Folded (sum r : ℕ) : Type 0 where
  pub small : r < 65536
  pub same_residue : r % 65535 ≡ sum % 65535
  pub zero_sum : sum ≡ 0 → r ≡ 0
  pub zero_result : r ≡ 0 → sum ≡ 0

-- Three rounds are enough for a 32-bit sum: the result has 16 bits, the sum's residue modulo
-- 65535, and is zero just for a zero sum.
pub fold_carries-Folded : (sum : ℕ) → IsU32 sum → Folded sum (fold_carries 3 sum)
unfolding fold_carries
fold_carries-Folded sum h = ground arith

-- Two numbers of 16 bits with one residue modulo 65535, both zero or neither, are equal.
pub eq_of_residue :
    (a b : ℕ)
    → a < 65536
    → b < 65536
    → a % 65535 ≡ b % 65535
    → (a ≡ 0 → b ≡ 0)
    → (b ≡ 0 → a ≡ 0)
    → a ≡ b
eq_of_residue a b ha hb e p q = elim (ℕ_discrete a 0) [
  | yes za ↦ omega (arith, p za)
  | no na ↦ elim (ℕ_discrete b 0) [ yes zb ↦ omega (arith, q zb) | no nb ↦ omega arith ]
]

pub fold_lem : (sum : ℕ) → IsU32 sum → fold sum ≡ 65535 - fold_carries 3 sum
unfolding fold
fold_lem sum h = omega (arith, (fold_carries-Folded sum h).small)
