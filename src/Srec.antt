-- ===== src/Srec.antt =====
-- host/src/binary/srec.c: the loader of S-records. A line is the text that fgets gives, without the
-- final zero: reading past its end gives 0, as the zero does.
use kos_tool.Prelude.{
  ℕ, zero, suc, ◌+◌, ◌-◌, ◌*◌, ◌/◌, ◌%◌, ◌^◌, Bool, true, false, not, ◌&&◌, Option, none, some,
  List, [], ◌∷◌, ltb, leb, ◌==◌, get_or, if◌then◌else◌, bytes_from, ◌>>=◌, add32, sub32, length,
}
use kos_tool.Dol.{Section}
pub mod Hex
pub mod Ranges
pub mod RoundTrip

abbrev pub hex_digit : ℕ → Option ℕ
hex_digit c =
    if leb b'0' c && leb c b'9'
    then some (c - b'0')
    else if leb b'A' c && leb c b'F'
    then some (c - b'A' + 10)
    else if leb b'a' c && leb c b'f'
    then some (c - b'a' + 10)
    else none

-- The two digits at `p`; `none` is the -1.
unfoldable pub hex_byte : List ℕ → ℕ → Option ℕ
hex_byte s p = do
  hi ← hex_digit (get_or s p 0)
  lo ← hex_digit (get_or s (p + 1) 0)
  some (hi * 16 + lo)

-- The loops that read `n` bytes from `p` on and give up at one that is none.
unfoldable pub hex_bytes : List ℕ → ℕ → ℕ → Option (List ℕ)
unfolding hex_byte
hex_bytes s zero p = some []
hex_bytes s (suc n) p = do b ← hex_byte s p; bs ← hex_bytes s n (p + 2); some (b ∷ bs)

-- The loop that reads the entry: it stops at one that is none.
unfoldable pub hex_prefix : List ℕ → ℕ → ℕ → List ℕ
unfolding hex_byte
hex_prefix s zero p = []
hex_prefix s (suc n) p =
    let rest = hex_prefix s n (p + 2) in elim (hex_byte s p) [ none ↦ [] | some b ↦ b ∷ rest ]

-- `addr = (addr << 8) | b` for each byte.
abbrev pub address_of : ℕ → List ℕ → ℕ
address_of addr [] = addr
address_of addr (b ∷ bs) = address_of (addr * 256 % 2 ^ 32 + b) bs

-- `sum += (uint8_t)b` for each byte.
abbrev pub sum_of : ℕ → List ℕ → ℕ
sum_of sum [] = sum
sum_of sum (b ∷ bs) = sum_of ((sum + b) % 256) bs

-- S1, S2 and S3 have two, three and four bytes of address.
abbrev pub is_data_record : List ℕ → Bool
is_data_record line =
    (get_or line 0 0 == b'S') && (leb b'1' (get_or line 1 0) && leb (get_or line 1 0) b'3')

abbrev pub is_entry_record : List ℕ → Bool
is_entry_record line =
    (get_or line 0 0 == b'S') && (leb b'7' (get_or line 1 0) && leb (get_or line 1 0) b'9')

abbrev pub addr_bytes_of : List ℕ → ℕ
addr_bytes_of line = get_or line 1 0 - b'0' + 1

-- A record without room for its address and checksum does not count.
abbrev pub widen : ℕ → ℕ → ℕ → ℕ × ℕ → Option (ℕ × ℕ)
widen addr byte_count addr_bytes (addr_min, addr_max) =
    let end = add32 addr (byte_count - addr_bytes - 1) in
    if ltb byte_count (addr_bytes + 1)
    then some (addr_min, addr_max)
    else some (
      (if ltb addr addr_min then addr else addr_min),
      (if ltb addr_max end then end else addr_max),
    )

-- The first pass over a data record, and over a line: the least and the greatest address so far.
unfoldable pub range_record : ℕ × ℕ → List ℕ → Option (ℕ × ℕ)
unfolding hex_bytes
range_record r line = do
  byte_count ← hex_byte line 2
  bs ← hex_bytes line (addr_bytes_of line) 4
  widen (address_of 0 bs) byte_count (addr_bytes_of line) r

abbrev pub range_line : ℕ × ℕ → List ℕ → Option (ℕ × ℕ)
range_line r line = if is_data_record line then range_record r line else some r

unfoldable pub pass1 : List (List ℕ) → ℕ × ℕ → Option (ℕ × ℕ)
pass1 [] r = some r
pass1 (line ∷ lines) r = range_line r line >>= pass1 lines

-- The bytes at `index`, a uint32_t.
abbrev pub fill : (ℕ → ℕ) → ℕ → List ℕ → (ℕ → ℕ)
fill image index [] = image
fill image index (b ∷ bs) = fill (λ q. if q == index then b else image q) (add32 index 1) bs

-- The test of the checksum.
abbrev pub filled : ℕ → (ℕ → ℕ) × Option ℕ → Option ((ℕ → ℕ) × Option ℕ)
filled sum r = if sum == 0xFF then some r else none

-- The second pass: the image, which begins at `addr_min`, and the entry. The first pass has refused
-- a file with a line without its count or its address.
unfoldable pub fill_record : ℕ → (ℕ → ℕ) × Option ℕ → List ℕ → Option ((ℕ → ℕ) × Option ℕ)
unfolding hex_bytes
fill_record addr_min (image, entry) line = do
  byte_count ← hex_byte line 2
  address ← hex_bytes line (addr_bytes_of line) 4
  summed ← hex_bytes line byte_count 2
  cksum ← hex_byte line (2 + byte_count * 2)
  bs ← hex_bytes line (byte_count - addr_bytes_of line - 1) (4 + addr_bytes_of line * 2)
  filled ((sum_of 0 summed + cksum) % 256)
      (fill image (sub32 (address_of 0 address) addr_min) bs, entry)

abbrev pub fill_line : ℕ → (ℕ → ℕ) × Option ℕ → List ℕ → Option ((ℕ → ℕ) × Option ℕ)
fill_line addr_min (image, entry) line =
    if is_data_record line
    then fill_record addr_min (image, entry) line
    else if is_entry_record line
    then some (image, some (address_of 0 (hex_prefix line (11 - (get_or line 1 0 - b'0')) 4)))
    else some (image, entry)

unfoldable pub pass2 : ℕ → List (List ℕ) → (ℕ → ℕ) × Option ℕ → Option ((ℕ → ℕ) × Option ℕ)
pass2 addr_min [] r = some r
pass2 addr_min (line ∷ lines) r = fill_line addr_min r line >>= pass2 addr_min lines

-- The section for the callback and the entry, of a file that is not refused.
unfoldable pub srec_load : List (List ℕ) → Option (Section × Option ℕ)
unfolding pass1 pass2
srec_load lines = do
  r ← pass1 lines (0xFFFFFFFF, 0)
  section ← (if ltb r.1 r.0 then none else pass2 r.0 lines ((λ q. 0), none))
  some ((record { load_addr = r.0; contents = bytes_from (r.1 - r.0) 0 section.0 }), section.1)
