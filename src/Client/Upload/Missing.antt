-- ===== src/Client/Upload/Missing.antt =====
-- The scan for the first missing chunk in `cmd_donebin` (client/common/core/commands.c).
use kos_tool.Prelude.{
  ℕ, zero, suc, ◌+◌, ◌≤◌, ◌<◌, ◌≡◌, sym, ◌∙◌, arith, true, false, Bool-cases, inl, inr,
}
use mathlib.Core.Bool.{false≢true}
use native.Mathlib.Decide.{ℕ_discrete, dec_le}
use kos_tool.Client.Upload.{map_test, first_missing}

-- `r` is the first index from `i` on whose test fails, or `stop` if none before it does.
pub record IsFirstMissing (m : ℕ → ℕ) (i stop r : ℕ) : Type 0 where
  pub low : i ≤ r
  pub high : r ≤ stop
  pub before : (j : ℕ) → i ≤ j → j < r → map_test j m ≡ true
  pub missing : r < stop → map_test r m ≡ false

-- The scan of DBIN from `i` over the remaining rounds ends at the first index whose bit is clear,
-- or at the end where there is none.
pub first_missing-IsFirstMissing :
    (rounds i stop : ℕ) (m : ℕ → ℕ)
    → i + rounds ≡ stop
    → IsFirstMissing m i stop (first_missing rounds i m)
unfolding first_missing
first_missing-IsFirstMissing zero i stop m e = record {
  low = omega arith;
  high = omega arith;
  before = λ j lo hi. absurd (omega arith);
  missing = λ h. absurd (omega arith);
}
first_missing-IsFirstMissing (suc rounds) i stop m e = elim (Bool-cases (map_test i m)) [
  | inl set ↦ rw set (extend set (first_missing-IsFirstMissing rounds (i + 1) stop m (omega arith)))
  | inr clear ↦ rw clear (record {
    low = omega arith;
    high = omega arith;
    before = λ j lo hi. absurd (omega arith);
    missing = λ h. clear;
  })
]
  where
    extend :
        {r : ℕ} → map_test i m ≡ true → IsFirstMissing m (i + 1) stop r → IsFirstMissing m i stop r
    extend set f = record {
      low = omega (arith, f.low);
      high = f.high;
      before = λ j lo hi. elim (ℕ_discrete i j) [
        | yes e ↦ rw (← e) set
        | no n ↦ f.before j (omega arith) hi
      ];
      missing = f.missing;
    }

-- The scan is determined by what it finds.
pub first_missing_past :
    (m : ℕ → ℕ) (stop r k : ℕ)
    → IsFirstMissing m 0 stop r
    → ((j : ℕ) → j < k → map_test j m ≡ true)
    → k ≤ stop
    → k ≤ r
first_missing_past m stop r k f all h = elim (dec_le k r) [
  | yes le ↦ le
  | no gt ↦ absurd (false≢true (sym (f.missing (omega arith)) ∙ all r (omega arith)))
]
