-- ===== src/Client/Upload/Bitmap.antt =====
-- The bits of `bin_info.map` in client/common/core/commands.c: setting, testing, clearing them.
use kos_tool.Prelude.{
  ℕ, ◌/◌, ◌%◌, ◌^◌, ◌<◌, ◌≡◌, refl, arith, ap, ◌∙◌, Bool, true, false, ◌||◌, not, ◌==◌, bit_and,
  bit_or,
}
use kos_tool.Prelude.Bits.{all_under, all_under_lem}
use native.Mathlib.Decide.{ℕ_discrete}
use kos_tool.Client.{Platform}
use kos_tool.Client.Upload.{
  map_clear_all, map_set, map_test, bin_info_map_entries, bin_info_map_bytes,
}

-- Every byte of the map is one.
pub record IsMap (m : ℕ → ℕ) : Type 0 where
  pub at : (i : ℕ) → m i < 256

abbrev bit_set : ℕ → ℕ → Bool
bit_set b j = not (bit_and b (2 ^ j) == 0)

abbrev same_bool : Bool → Bool → Bool
same_bool true b = b
same_bool false b = not b

same_bool_sound : (a b : Bool) → same_bool a b ≡ true → a ≡ b
same_bool_sound true b h = ground arith
same_bool_sound false b h = ground arith

-- All bytes, all bits set, all bits tested.
abbrev set_then_test : ℕ → ℕ → ℕ → Bool
set_then_test j k b = same_bool (bit_set (bit_or b (2 ^ k) % 256) j) ((k == j) || bit_set b j)

set_then_test_table : all_under (λ j. all_under (λ k. all_under (set_then_test j k) 256) 8) 8 ≡ true
unfolding all_under
set_then_test_table = refl

set_bit_lem :
    (b k j : ℕ)
    → b < 256
    → k < 8
    → j < 8
    → bit_set (bit_or b (2 ^ k) % 256) j ≡ ((k == j) || bit_set b j)
set_bit_lem b k j hb hk hj =
    let row =
      all_under_lem (λ j. all_under (λ k. all_under (set_then_test j k) 256) 8) 8 j
        set_then_test_table hj in
    let column = all_under_lem (λ k. all_under (set_then_test j k) 256) 8 k row hk in
    same_bool_sound _ _ (all_under_lem (set_then_test j k) 256 b column hb)

==_refl : (n : ℕ) → (n == n) ≡ true
==_refl n = ground arith

same_bit : (i j : ℕ) → j / 8 ≡ i / 8 → (i % 8 == j % 8) ≡ (i == j)
same_bit i j h = ground arith

-- In a map of bytes, setting bit `i` makes the test of bit `i` pass and leaves every other test
-- as it is.
pub map_test-map_set :
    (i j : ℕ) (m : ℕ → ℕ) → IsMap m → map_test j (map_set i m) ≡ ((i == j) || map_test j m)
unfolding map_test map_set
map_test-map_set i j m h = elim (ℕ_discrete (j / 8) (i / 8)) [
  | yes same ↦ rw same (
      rw (==_refl (i / 8)) (
        set_bit_lem (m (i / 8)) (i % 8) (j % 8) (h.at _) (omega arith) (omega arith)
        ∙ ap (λ (b : Bool). b || bit_set (m (i / 8)) (j % 8)) (same_bit i j same)))
  | no other ↦ ground arith
]

pub map_set-IsMap : (i : ℕ) (m : ℕ → ℕ) → IsMap m → IsMap (map_set i m)
unfolding map_set
map_set-IsMap i m h = record { at = λ j. ground (arith, h.at j) }

pub map_clear_all-IsMap : (p : Platform) (m : ℕ → ℕ) → IsMap m → IsMap (map_clear_all p m)
unfolding map_clear_all
map_clear_all-IsMap p m h = record { at = λ j. ground (arith, h.at j) }

-- An index below the number of entries has its byte inside the map.
pub entry_in_map :
    (p : Platform) (i : ℕ) → i < bin_info_map_entries p → i / 8 < bin_info_map_bytes p
entry_in_map p i h = omega arith

zero_and_table : all_under (λ j. not (bit_set 0 j)) 8 ≡ true
unfolding all_under
zero_and_table = refl

pub map_test-map_clear_all :
    (p : Platform) (i : ℕ) (m : ℕ → ℕ)
    → i < bin_info_map_entries p
    → map_test i (map_clear_all p m) ≡ false
unfolding map_test map_clear_all
map_test-map_clear_all p i m h = ground (
  arith,
  entry_in_map p i h,
  all_under_lem (λ j. not (bit_set 0 j)) 8 (i % 8) zero_and_table (omega arith),
)
