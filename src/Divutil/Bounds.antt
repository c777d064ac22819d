-- ===== src/Divutil/Bounds.antt =====
-- How far the reciprocal division of client/include/kosload/divutil.h is from the true quotient.
use kos_tool.Prelude.{ℕ, ◌+◌, ◌*◌, ◌/◌, ◌%◌, ◌^◌, ◌≤◌, ◌<◌, ◌≡◌, arith, ap, IsU32}
use kos_tool.Divutil.{udiv_recip, udiv_const}
use native.Mathlib.Nat.{
  le_refl, mul-le-mul, div-mul-le_self, lt-div-mul-add, div-lt_iff_lt-mul, lt_of_mul-lt-mul_right,
  mul-lt-mul_of_pos_right,
}

half_at_most : (q d : ℕ) → q * d ≤ 0xffff_ffff → 2 ≤ d → q * 2 ≤ 0xffff_ffff
half_at_most q d h lo = omega (arith, mul-le-mul (le_refl q) lo)

-- The sum in the macro does not wrap.
udiv_recip_lem : (d : ℕ) → 2 ≤ d → udiv_recip d ≡ 0xffff_ffff / d + 1
unfolding udiv_recip
udiv_recip_lem d lo =
    omega (arith, half_at_most (0xffff_ffff / d) d (div-mul-le_self 0xffff_ffff d) lo)

-- For a divisor from 2 on, the reciprocal is ceil(2^32 / d): its product with `d` passes 2^32 by
-- less than `d`, and it is at most 2^31.
pub udiv_recip_bounds :
    (d : ℕ)
    → 2 ≤ d
    → (2 ^ 32 ≤ udiv_recip d * d) × (udiv_recip d * d < 2 ^ 32 + d) × (udiv_recip d ≤ 2 ^ 31)
udiv_recip_bounds d lo = rw (udiv_recip_lem d lo) (
    omega (
      arith,
      div-mul-le_self 0xffff_ffff d,
      lt-div-mul-add {a = 0xffff_ffff} {b = d} (omega arith),
      half_at_most (0xffff_ffff / d) d (div-mul-le_self 0xffff_ffff d) lo,
    ))

-- The high half `q` of `n * r`, for a reciprocal `r`.
high_half_bounds :
    (n d r q : ℕ)
    → 0 < d
    → IsU32 n
    → 2 ^ 32 ≤ r * d
    → r * d < 2 ^ 32 + d
    → q * 2 ^ 32 ≤ n * r
    → n * r < q * 2 ^ 32 + 2 ^ 32
    → (n < q * d + d) × (q * d < n + d)
high_half_bounds n d r q pos hn lo hi hq hq' =
    let below : n * 2 ^ 32 ≤ n * (r * d) = mul-le-mul (le_refl n) lo in
    let above : n * (r * d) ≤ n * (2 ^ 32 + d) = mul-le-mul (le_refl n) (omega arith) in
    let small : n * d < 2 ^ 32 * d = mul-lt-mul_of_pos_right hn pos in
    let under : q * 2 ^ 32 * d ≤ n * r * d = mul-le-mul hq (le_refl d) in
    let over : n * r * d < (q * 2 ^ 32 + 2 ^ 32) * d = mul-lt-mul_of_pos_right hq' pos in
    (omega arith, omega arith)

-- Neither the operand nor the high half wraps.
udiv_const_lem : (n d : ℕ) → IsU32 n → 2 ≤ d → udiv_const n d ≡ n * udiv_recip d / 2 ^ 32
unfolding udiv_const
udiv_const_lem n d hn lo =
    let small : n * udiv_recip d ≤ 2 ^ 32 * 2 ^ 31 =
      mul-le-mul {n₂ = 2 ^ 32} (omega arith) (udiv_recip_bounds d lo).2 in
    omega (arith, ap (λ (t : ℕ). t * udiv_recip d) (n_mod n hn))
  where
    n_mod : (n : ℕ) → IsU32 n → n % 2 ^ 32 ≡ n
    n_mod n hn = omega arith

udiv_const_product :
    (n d : ℕ) → IsU32 n → 2 ≤ d → (n < udiv_const n d * d + d) × (udiv_const n d * d < n + d)
udiv_const_product n d hn lo =
    let bounds = udiv_recip_bounds d lo in
    rw (udiv_const_lem n d hn lo) (
      high_half_bounds n d (udiv_recip d) (n * udiv_recip d / 2 ^ 32) (omega arith) hn bounds.0
        bounds.1 (omega arith) (omega arith))

quotient_between :
    (n d q : ℕ) → 0 < d → n < q * d + d → q * d < n + d → (n / d ≤ q) × (q ≤ n / d + 1)
quotient_between n d q pos h k = (
  omega (arith, (div-lt_iff_lt-mul {k = d} {x = n} {y = q + 1} pos).1 (omega arith)),
  omega (
    arith,
    lt_of_mul-lt-mul_right d {m = q} {n = n / d + 2} (omega (arith, lt-div-mul-add {a = n} pos)),
  ),
)

-- For a 32-bit number and a divisor from 2 on, UDIV_CONST gives the true quotient or one more.
pub udiv_const_near :
    (n d : ℕ) → IsU32 n → 2 ≤ d → (n / d ≤ udiv_const n d) × (udiv_const n d ≤ n / d + 1)
udiv_const_near n d hn lo =
    let between = udiv_const_product n d hn lo in
    quotient_between n d (udiv_const n d) (omega arith) between.0 between.1

-- It is the true one where the divisor divides.
pub udiv_const_mul : (k d : ℕ) → IsU32 (k * d) → 2 ≤ d → udiv_const (k * d) d ≡ k
udiv_const_mul k d hn lo =
    let between = udiv_const_product (k * d) d hn lo in
    omega (
      arith,
      lt_of_mul-lt-mul_right d {m = udiv_const (k * d) d} {n = k + 1} (omega arith),
      lt_of_mul-lt-mul_right d {m = k} {n = udiv_const (k * d) d + 1} (omega arith),
    )
