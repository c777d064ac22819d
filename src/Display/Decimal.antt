-- ===== src/Display/Decimal.antt =====
-- The decimal numbers of client/common/network/entry.c.
use kos_tool.Prelude.{
  ℕ, zero, suc, ◌+◌, ◌-◌, ◌*◌, ◌/◌, ◌^◌, ◌≤◌, ◌<◌, ◌≡◌, refl, ◌∙◌, List, [], ◌∷◌, ◌==◌, arith,
  codes, length, All, inl, inr, Bool-cases,
}
use kos_tool.Divutil.{udiv_const, udiv_recip}
use kos_tool.Display.{uint_to_string_dec, digits_from, reverse_onto}

-- The number that a text of digits denotes, with what stands before it.
abbrev pub read_dec : ℕ → List ℕ → ℕ
read_dec acc [] = acc
read_dec acc (c ∷ s) = read_dec (acc * 10 + (c - b'0')) s

abbrev pub IsDigit : ℕ → Type 0
IsDigit c = (b'0' ≤ c) × (c ≤ b'9')

-- Of digits with the last one first.
abbrev value_of : List ℕ → ℕ
value_of [] = 0
value_of (c ∷ s) = value_of s * 10 + (c - b'0')

read_dec-reverse_onto :
    (s acc : List ℕ) → read_dec 0 (reverse_onto s acc) ≡ read_dec (value_of s) acc
read_dec-reverse_onto [] acc = refl
read_dec-reverse_onto (c ∷ s) acc = read_dec-reverse_onto s (c ∷ acc)

All-reverse_onto :
    (s acc : List ℕ) → All IsDigit s → All IsDigit acc → All IsDigit (reverse_onto s acc)
All-reverse_onto [] acc hs ha = ha
All-reverse_onto (c ∷ s) acc hs ha = All-reverse_onto s (c ∷ acc) hs.1 (hs.0, ha)

-- Below 2 ^ 30 the quotient by the reciprocal is exact.
udiv_const_ten : (n : ℕ) → n < 2 ^ 30 → udiv_const n 10 ≡ n / 10
unfolding udiv_const udiv_recip
udiv_const_ten n h = omega arith

-- A number below this has at most that many digits.
abbrev limit : ℕ → ℕ
limit zero = 1
limit (suc fuel) = 10 * limit fuel

digits_from_lem :
    (fuel n : ℕ)
    → n < limit fuel
    → n < 2 ^ 30
    → (value_of (digits_from fuel n) ≡ n) × All IsDigit (digits_from fuel n)
unfolding digits_from
digits_from_lem zero n below small = (omega arith, tt)
digits_from_lem (suc fuel) n below small =
    ground (arith, udiv_const_ten n small, digits_from_lem fuel (n / 10))

length-digits_from : (fuel k n : ℕ) → n < limit k → n < 2 ^ 30 → length (digits_from fuel n) ≤ k
unfolding digits_from
length-digits_from zero k n below small = omega arith
length-digits_from (suc fuel) zero n below small = ground arith
length-digits_from (suc fuel) (suc k) n below small =
    ground (arith, udiv_const_ten n small, length-digits_from fuel k (n / 10))

length-reverse_onto : (s acc : List ℕ) → length (reverse_onto s acc) ≡ length s + length acc
length-reverse_onto [] acc = omega arith
length-reverse_onto (c ∷ s) acc = omega (arith, length-reverse_onto s (c ∷ acc))

-- Below 2 ^ 30, the text of a number is at most ten decimal digits that read as the number.
pub uint_to_string_dec_read :
    (n : ℕ)
    → n < 2 ^ 30
    → (read_dec 0 (uint_to_string_dec n) ≡ n)
      × All IsDigit (uint_to_string_dec n)
      × (length (uint_to_string_dec n) ≤ 10)
unfolding uint_to_string_dec
uint_to_string_dec_read n small = elim (Bool-cases (n == 0)) [
  | inl e ↦ rw e (ground arith)
  | inr e ↦
      let (value, digits) = digits_from_lem 12 n (omega arith) small in
      rw e (
        read_dec-reverse_onto (digits_from 12 n) [] ∙ value,
        All-reverse_onto (digits_from 12 n) [] digits tt,
        omega (
          arith,
          length-reverse_onto (digits_from 12 n) [],
          length-digits_from 12 10 n (omega arith) small,
        ),
      )
]

-- From 2 ^ 30 + 5 on the quotient can be one too large, and the digit's code then precedes `0`.
uint_to_string_dec_overshoot : uint_to_string_dec 1_073_741_829 ≡ codes "107374183/"
unfolding uint_to_string_dec digits_from udiv_const udiv_recip
uint_to_string_dec_overshoot = refl
