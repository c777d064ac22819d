-- ===== src/Divutil/Ticks.antt =====
-- `ms_to_ticks` of client/include/kosload/divutil.h: where it is exact up to one tick, and where not.
use kos_tool.Prelude.{
  ℕ, ◌+◌, ◌*◌, ◌/◌, ◌%◌, ◌^◌, ◌≤◌, ◌<◌, ◌≡◌, arith, ap, IsU32, add32, mul32, sub32,
}
use kos_tool.Divutil.{udiv_const, fix_up, ms_to_ticks}
use kos_tool.Divutil.Bounds.{udiv_const_near}
use native.Mathlib.Nat.{le_refl, mul-le-mul}

fix_up_near :
    (tps p : ℕ)
    → IsU32 tps
    → tps / 1000 ≤ p
    → p ≤ tps / 1000 + 1
    → fix_up p (sub32 tps (mul32 p 1000)) ≡ (tps / 1000, tps % 1000)
fix_up_near tps p h lo hi = ground arith

-- After the overshot quotient is put right, the two parts are the true quotient and remainder.
ms_to_ticks_lem :
    (tps ms : ℕ)
    → IsU32 tps
    → ms_to_ticks tps ms ≡ add32 (mul32 (tps / 1000) ms) (udiv_const (mul32 (tps % 1000) ms) 1000)
unfolding ms_to_ticks
ms_to_ticks_lem tps ms h =
    let near = udiv_const_near tps 1000 h (omega arith) in
    ap (λ (r : ℕ × ℕ). add32 (mul32 r.0 ms) (udiv_const (mul32 r.1 ms) 1000))
      (fix_up_near tps (udiv_const tps 1000) h near.0 near.1)

parts_product : (tps ms : ℕ) → tps * ms ≡ tps / 1000 * ms * 1000 + tps % 1000 * ms
parts_product tps ms = omega (arith, ap (λ (t : ℕ). t * ms) (whole tps))
  where
    whole : (t : ℕ) → t ≡ t / 1000 * 1000 + t % 1000
    whole t = omega arith

remainder_small : (tps ms : ℕ) → tps % 1000 * ms ≤ 999 * ms
remainder_small tps ms = mul-le-mul {n₂ = 999} (omega arith) (le_refl ms)

-- For a rate and a time whose remainder product and result fit 32 bits, the ticks are the exact
-- quotient or one more.
pub ms_to_ticks_near :
    (tps ms : ℕ)
    → IsU32 tps
    → IsU32 (999 * ms)
    → IsU32 (tps * ms / 1000 + 1)
    → (tps * ms / 1000 ≤ ms_to_ticks tps ms) × (ms_to_ticks tps ms ≤ tps * ms / 1000 + 1)
ms_to_ticks_near tps ms h hm hr =
    let small = remainder_small tps ms in
    let parts = parts_product tps ms in
    rw (ms_to_ticks_lem tps ms h) (
      omega (
        arith,
        parts,
        small,
        udiv_const_near (mul32 (tps % 1000) ms) 1000 (omega arith) (omega arith),
      ))

-- Below a thousand ticks a second the result falls short of the quotient, by more than four
-- million ticks, as soon as the product passes 32 bits.
pub ms_to_ticks_short :
    (tps ms : ℕ) → tps < 1000 → 2 ^ 32 ≤ tps * ms → ms_to_ticks tps ms + 4_000_000 ≤ tps * ms / 1000
ms_to_ticks_short tps ms h big =
    let none_whole : tps / 1000 ≡ 0 = omega arith in
    let all_left : tps % 1000 ≡ tps = omega arith in
    rw (ms_to_ticks_lem tps ms (omega arith), none_whole, all_left)
      (omega (arith, udiv_const_near (mul32 tps ms) 1000 (omega arith) (omega arith)))
