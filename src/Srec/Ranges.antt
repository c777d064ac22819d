-- ===== src/Srec/Ranges.antt =====
-- A printed S3 record under both passes of host/src/binary/srec.c.
use kos_tool.Prelude.{
  ℕ, suc, ◌+◌, ◌-◌, ◌*◌, ◌/◌, ◌%◌, ◌^◌, ◌≤◌, ◌<◌, ◌≡◌, refl, ap, ◌∙◌, arith, true, false, ◌&&◌,
  Option, some, List, [], ◌∷◌, ◌++◌, ltb, leb, ◌==◌, get_or, if◌then◌else◌, add32, sub32, length,
  All, IsByte, inl, inr, Bool-cases, ==_iff, leb→le,
}
use kos_tool.Wire.{be32}
use kos_tool.Srec.{hex_byte, hex_bytes, address_of, sum_of, range_record, fill, fill_record}
use kos_tool.Srec.Hex.{
  digit, hex_of, hex_byte-hex_of, hex_byte_shift, hex_bytes_shift, hex_bytes-hex_of, hex_byte_last,
}

-- What a record holds: bytes for an address.
pub record Record : Type 0 where
  pub address : ℕ
  pub contents : List ℕ

-- The record fits its count, and its bytes end below 2^32.
pub record IsRecord (r : Record) : Type 0 where
  pub bytes : All IsByte r.contents
  pub short : length r.contents ≤ 250
  pub below : r.address + length r.contents < 2 ^ 32

abbrev pub total : List ℕ → ℕ
total [] = 0
total (b ∷ bs) = b + total bs

-- Count, address and bytes; the last byte makes the sum 255.
abbrev pub body : Record → List ℕ
body r = (length r.contents + 5) ∷ (be32 r.address ++ r.contents)

abbrev pub check_byte : Record → ℕ
check_byte r = 255 - total (body r) % 256

-- The line, with `eol` behind the checksum.
abbrev pub print_record : List ℕ → Record → List ℕ
print_record eol r = b'S' ∷ b'3' ∷ hex_of (body r ++ check_byte r ∷ []) eol

-- Bytes in the image from `index` on.
abbrev pub placed : (ℕ → ℕ) → ℕ → List ℕ → (ℕ → ℕ)
placed image index bs q =
    if leb index q && ltb q (index + length bs) then get_or bs (q - index) 0 else image q

sum_of-total : (sum : ℕ) (bs : List ℕ) → sum < 256 → sum_of sum bs ≡ (sum + total bs) % 256
sum_of-total sum [] h = omega arith
sum_of-total sum (b ∷ bs) h = sum_of-total ((sum + b) % 256) bs (omega arith) ∙ omega arith

placed_cons :
    (image : ℕ → ℕ) (index b : ℕ) (bs : List ℕ) (q : ℕ)
    → placed (λ p. if p == index then b else image p) (index + 1) bs q
      ≡ placed image index (b ∷ bs) q
placed_cons image index b bs q = elim (Bool-cases (q == index)) [
  | inl here ↦
      let same : q ≡ index = (==_iff q index).0 here in
      let past : leb (index + 1) q ≡ false = ground arith in
      let inside : (leb index q && ltb q (index + suc (length bs))) ≡ true = ground arith in
      let first : q - index ≡ 0 = omega arith in rw (past, here, inside, first) refl
  | inr other ↦ elim (Bool-cases (leb (index + 1) q)) [
    | inl past ↦
        let after : index + 1 ≤ q = leb→le (index + 1) q past in
        let next : q - index ≡ suc (q - (index + 1)) = omega arith in
        let from : leb index q ≡ true = ground arith in
        let until : ltb q (index + 1 + length bs) ≡ ltb q (index + suc (length bs)) =
          ap (ltb q) (omega arith) in
        rw (past, other, from, until, next) refl
    | inr before ↦ let under : leb index q ≡ false = ground arith in rw (before, other, under) refl
  ]
]

fill_lem :
    (image : ℕ → ℕ) (index : ℕ) (bs : List ℕ)
    → index + length bs < 2 ^ 32
    → fill image index bs ≡ placed image index bs
fill_lem image index [] h = λ i q. none_there q i
  where
    none_there : (q : ℕ) → image q ≡ placed image index [] q
    none_there q = ground arith
fill_lem image index (b ∷ bs) h =
    let next : add32 index 1 ≡ index + 1 = omega arith in
    ap (λ n. fill (λ p. if p == index then b else image p) n bs) next
    ∙ fill_lem (λ p. if p == index then b else image p) (index + 1) bs (omega arith)
    ∙ (λ i q. placed_cons image index b bs q i)

module _ (eol : List ℕ) (r : Record) (is : IsRecord r) where
  count_read : hex_byte (print_record eol r) 2 ≡ some (length r.contents + 5)
  count_read =
      let few = is.short in
      hex_byte_shift b'S' b'3' (hex_of (body r ++ check_byte r ∷ []) eol) 0
      ∙ hex_byte-hex_of (length r.contents + 5)
          (hex_of ((be32 r.address ++ r.contents) ++ check_byte r ∷ []) eol) (omega arith)

  address_read : hex_bytes (print_record eol r) 4 4 ≡ some (be32 r.address)
  address_read =
      hex_bytes_shift b'S' b'3' (hex_of (body r ++ check_byte r ∷ []) eol) 4 2
      ∙ hex_bytes_shift (digit ((length r.contents + 5) / 16))
          (digit ((length r.contents + 5) % 16))
          (hex_of ((be32 r.address ++ r.contents) ++ check_byte r ∷ []) eol) 4 0
      ∙ hex_bytes-hex_of (be32 r.address) (r.contents ++ check_byte r ∷ []) eol
          (omega arith, (omega arith, (omega arith, (omega arith, tt))))

  address_of-be32 : address_of 0 (be32 r.address) ≡ r.address
  address_of-be32 = let small = is.below in omega arith

  body_bytes : All IsByte (body r)
  body_bytes =
      let few = is.short in
      (omega arith, (omega arith, (omega arith, (omega arith, (omega arith, is.bytes)))))

  summed_read : hex_bytes (print_record eol r) (length r.contents + 5) 2 ≡ some (body r)
  summed_read =
      hex_bytes_shift b'S' b'3' (hex_of (body r ++ check_byte r ∷ []) eol) (length r.contents + 5) 0
      ∙ ap (λ n. hex_bytes (hex_of (body r ++ check_byte r ∷ []) eol) n 0) (omega arith)
      ∙ hex_bytes-hex_of (body r) (check_byte r ∷ []) eol body_bytes

  cksum_read : hex_byte (print_record eol r) (2 + (length r.contents + 5) * 2) ≡ some (check_byte r)
  cksum_read =
      ap (hex_byte (print_record eol r)) (omega arith)
      ∙ hex_byte_shift b'S' b'3' (hex_of (body r ++ check_byte r ∷ []) eol) (length (body r) * 2)
      ∙ hex_byte_last (body r) (check_byte r) [] eol (omega arith)

  data_read : hex_bytes (print_record eol r) (length r.contents) 12 ≡ some r.contents
  data_read =
      let n = length r.contents in
      let rest = hex_of (r.contents ++ check_byte r ∷ []) eol in
      let a3 = r.address / 2 ^ 24 % 256 in
      let a2 = r.address / 2 ^ 16 % 256 in
      let a1 = r.address / 2 ^ 8 % 256 in
      let a0 = r.address % 256 in
      hex_bytes_shift b'S' b'3' (hex_of (body r ++ check_byte r ∷ []) eol) n 10
      ∙ hex_bytes_shift (digit ((n + 5) / 16)) (digit ((n + 5) % 16))
          (hex_of ((be32 r.address ++ r.contents) ++ check_byte r ∷ []) eol) n 8
      ∙ hex_bytes_shift (digit (a3 / 16)) (digit (a3 % 16))
          (hex_of (a2 ∷ a1 ∷ a0 ∷ (r.contents ++ check_byte r ∷ [])) eol) n 6
      ∙ hex_bytes_shift (digit (a2 / 16)) (digit (a2 % 16))
          (hex_of (a1 ∷ a0 ∷ (r.contents ++ check_byte r ∷ [])) eol) n 4
      ∙ hex_bytes_shift (digit (a1 / 16)) (digit (a1 % 16))
          (hex_of (a0 ∷ (r.contents ++ check_byte r ∷ [])) eol) n 2
      ∙ hex_bytes_shift (digit (a0 / 16)) (digit (a0 % 16)) rest n 0
      ∙ hex_bytes-hex_of r.contents (check_byte r ∷ []) eol is.bytes

  pub range_record-print_record :
      (mn mx : ℕ)
      → range_record (mn, mx) (print_record eol r)
        ≡ some (
          (if ltb r.address mn then r.address else mn),
          (if ltb mx (r.address + length r.contents) then r.address + length r.contents else mx),
        )
  unfolding range_record
  range_record-print_record mn mx =
      let room : ltb (length r.contents + 5) 5 ≡ false = ground arith in
      let end : add32 r.address (length r.contents + 5 - 4 - 1) ≡ r.address + length r.contents =
        let small = is.below in omega arith in
      rw (count_read, address_read, address_of-be32, room, end) refl

  pub fill_record-print_record :
      (lo : ℕ) (image : ℕ → ℕ) (entry : Option ℕ)
      → lo ≤ r.address
      → fill_record lo (image, entry) (print_record eol r)
        ≡ some (placed image (r.address - lo) r.contents, entry)
  unfolding fill_record
  fill_record-print_record lo image entry low =
      let small = is.below in
      let n : length r.contents + 5 - 4 - 1 ≡ length r.contents = omega arith in
      let index : sub32 r.address lo ≡ r.address - lo = omega arith in
      let good : (sum_of 0 (body r) + check_byte r) % 256 ≡ 255 =
        omega (arith, sum_of-total 0 (body r) (omega arith)) in
      rw
        (
          count_read, address_read, summed_read, cksum_read, n, data_read, address_of-be32, index,
          good,
        )
        (ap (λ m. some (m, entry)) (fill_lem image (r.address - lo) r.contents (omega arith)))
