-- ===== src/Checksum.antt =====
-- client/common/network/checksum.c: the internet checksum over a buffer of bytes, read as 16-bit
-- words the way the machine reads them. A read past the end of the buffer, which C leaves
-- undefined, ends the sum; `count` is never negative here.
use kos_tool.Prelude.{
  ℕ, zero, suc, ◌+◌, ◌-◌, ◌*◌, ◌/◌, ◌%◌, ◌^◌, ◌≡◌, refl, Bool, true, false, List, [], ◌∷◌, ◌++◌,
  ◌==◌, if◌then◌else◌, get_or, add32, drop,
}
pub mod Fold
pub mod ByteOrder

-- The byte order of a target.
pub data Endian : Type 0 where
  little big : Endian

-- The value of two adjacent bytes read as an unsigned short, and the two bytes of a value stored.
abbrev pub word : Endian → ℕ → ℕ → ℕ
word little b0 b1 = b0 + b1 * 256
word big b0 b1 = b0 * 256 + b1

abbrev pub stored : Endian → ℕ → List ℕ
stored little w = (w % 256) ∷ (w / 256 % 256) ∷ []
stored big w = (w / 256 % 256) ∷ (w % 256) ∷ []

-- `while(sum >> 16) sum = (sum >> 16) + (sum & 0xffff)`: a 32-bit sum needs three rounds at most.
unfoldable pub fold_carries : ℕ → ℕ → ℕ
fold_carries zero sum = sum
fold_carries (suc fuel) sum =
    let again = fold_carries fuel (sum / 65536 + sum % 65536) in
    if sum / 65536 == 0 then sum else again

-- `(unsigned short)~sum`.
unfoldable pub fold : ℕ → ℕ
fold sum = 65535 - fold_carries 3 sum % 65536

-- The odd byte, first in a zero-padded word.
abbrev pub odd_byte : Endian → List ℕ → ℕ
odd_byte e buf = word e (get_or buf 0 0) 0

-- `while(count--) sum += *buf++`: the sum and where `buf` stands then.
unfoldable pub add_words : Endian → ℕ → List ℕ → ℕ → ℕ × List ℕ
add_words e zero buf sum = (sum, buf)
add_words e (suc count) (b0 ∷ b1 ∷ buf) sum = add_words e count buf (add32 sum (word e b0 b1))
add_words e (suc count) buf sum = (sum, buf)

abbrev pub add_odd : Endian → Bool → ℕ × List ℕ → ℕ
add_odd e is_odd (sum, buf) = if is_odd then add32 sum (odd_byte e buf) else sum

unfoldable pub checksum : Endian → List ℕ → ℕ → Bool → ℕ
checksum e buf count is_odd = fold (add_odd e is_odd (add_words e count buf 0))

-- PSEUDO_H_LEN / 2 words of the pseudo-header first.
unfoldable pub checksum_udp : Endian → List ℕ → List ℕ → ℕ → Bool → ℕ
checksum_udp e buf_pseudo buf_data datacount is_odd =
    fold (add_odd e is_odd (add_words e datacount buf_data (add_words e 10 buf_pseudo 0).0))
