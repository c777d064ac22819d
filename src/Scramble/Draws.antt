-- ===== src/Scramble/Draws.antt =====
-- The draws of both loops over the slices, in host/src/binary/scramble.c and
-- make-dist/tools/mkcdi-lite.c, and the exchange of two entries.
use kos_tool.Prelude.{
  ℕ, suc, ◌+◌, ◌*◌, ◌/◌, ◌≤◌, ◌<◌, ◌≡◌, ◌⊎◌, inl, inr, arith, mul32, ◌==◌, Bool-cases,
}
use native.Mathlib.Nat.{mul-le-mul_right, div-le_of_le-mul}
use kos_tool.Scramble.{exchange}

-- A draw below 2 ^ 16 picks an index up to `i`.
pub draw-le : (draw i : ℕ) → draw < 65536 → draw * i / 65536 ≤ i
draw-le draw i h = div-le_of_le-mul 65536 (mul-le-mul_right i (omega arith))

-- The product of a draw and an index fits 32 bits.
pub mul32-draw : (draw i : ℕ) → draw < 65536 → i < 65536 → mul32 draw i ≡ draw * i
mul32-draw draw i h k =
    let small : draw * i ≤ 65535 * i = mul-le-mul_right i (omega arith) in omega (arith, small)

-- The slice of the output that an entry names.
abbrev pub InSlice : ℕ → ℕ → ℕ → Type 0
InSlice base v p = (base + v * 32 ≤ p) × (p < base + v * 32 + 32)

-- An entry below `i` names the slice of `p`.
abbrev pub Named : (ℕ → ℕ) → ℕ → ℕ → ℕ → Type 0
Named idx base i p = (j : ℕ) × (j < i) × InSlice base (idx j) p

-- After an exchange with an index up to `i`, the entry that leaves or an entry below it names what
-- was named.
pub exchange-Named :
    (idx : ℕ → ℕ) (base i x p : ℕ)
    → x ≤ i
    → Named idx base (suc i) p
    → InSlice base (exchange idx i x i) p ⊎ Named (exchange idx i x) base i p
exchange-Named idx base i x p h (j, low, is) = elim (Bool-cases (j == x)) [
  | inl e ↦ inl (ground arith)
  | inr e ↦ elim (Bool-cases (j == i)) [
    | inl f ↦ inr (x, ground arith, ground arith)
    | inr f ↦ inr (j, ground arith, ground arith)
  ]
]
