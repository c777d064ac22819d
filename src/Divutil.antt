-- ===== src/Divutil.antt =====
-- client/include/kosload/divutil.h: division by a constant by a fixed-point reciprocal.
use kos_tool.Prelude.{
  ℕ, ◌+◌, ◌-◌, ◌*◌, ◌/◌, ◌%◌, ◌^◌, ◌≡◌, refl, leb, if◌then◌else◌, sub32, mul32, add32,
}
pub mod Bounds
pub mod Ticks

-- `UDIV_RECIP(d)`, in 32-bit arithmetic.
unfoldable pub udiv_recip : ℕ → ℕ
udiv_recip d = add32 (0xffff_ffff / d) 1

-- `UDIV_CONST(n, d)`: the 64-bit product's high half, narrowed to 32 bits.
unfoldable pub udiv_const : ℕ → ℕ → ℕ
unfolding udiv_recip
udiv_const n d = n % 2 ^ 32 * udiv_recip d / 2 ^ 32 % 2 ^ 32

-- `UMOD_CONST(n, d)`.
unfoldable pub umod_const : ℕ → ℕ → ℕ
umod_const n d = sub32 n (mul32 (udiv_const n d) d)

-- The undoing of an overshot quotient in `ms_to_ticks`.
abbrev pub fix_up : ℕ → ℕ → ℕ × ℕ
fix_up per_ms rem = if leb 1000 rem then (sub32 per_ms 1, add32 rem 1000) else (per_ms, rem)

unfoldable pub ms_to_ticks : ℕ → ℕ → ℕ
ms_to_ticks tps ms =
    let per_ms = udiv_const tps 1000 in
    let rem = sub32 tps (mul32 per_ms 1000) in
    let (per_ms', rem') = fix_up per_ms rem in
    add32 (mul32 per_ms' ms) (udiv_const (mul32 rem' ms) 1000)
