-- ===== src/Srec/RoundTrip.antt =====
-- A file of printed S3 records and an S7 record under host/src/binary/srec.c.
use kos_tool.Prelude.{
  ℕ, zero, suc, ◌+◌, ◌-◌, ◌/◌, ◌%◌, ◌^◌, ◌≤◌, ◌<◌, ◌≡◌, refl, ap, ◌∙◌, arith, false, Option, none,
  some, List, [], ◌∷◌, ◌++◌, ltb, if◌then◌else◌, ◌>>=◌, length, All, bytes_from, chain_some,
  chain_parts,
}
use mathlib.Core.Option.{some_inj}
use kos_tool.Wire.{be32}
use kos_tool.Srec.{hex_byte, hex_bytes, hex_prefix, address_of, pass1, pass2, srec_load}
use kos_tool.Srec.Hex.{digit, hex_of, hex_bytes_shift, hex_bytes-hex_of}
use kos_tool.Srec.Ranges.{
  Record, IsRecord, total, print_record, placed, range_record-print_record,
  fill_record-print_record,
}

-- The S7 record with the entry, with `last` behind its checksum.
abbrev pub print_entry : List ℕ → ℕ → List ℕ
print_entry last entry =
    b'S' ∷ b'7' ∷ hex_of (5 ∷ (be32 entry ++ (255 - total (5 ∷ be32 entry) % 256) ∷ [])) last

-- The lines as `fgets` gives them: `eol` ends each line but the last, `last` the last one.
abbrev pub print_file : List ℕ → List ℕ → List Record → ℕ → List (List ℕ)
print_file eol last [] entry = print_entry last entry ∷ []
print_file eol last (r ∷ rs) entry = print_record eol r ∷ print_file eol last rs entry

-- The least address and the greatest end.
abbrev pub least : ℕ → List Record → ℕ
least mn [] = mn
least mn (r ∷ rs) = least (if ltb r.address mn then r.address else mn) rs

abbrev pub greatest : ℕ → List Record → ℕ
greatest mx [] = mx
greatest mx (r ∷ rs) =
    greatest (if ltb mx (r.address + length r.contents) then r.address + length r.contents else mx)
      rs

-- The records one after another, in an image that begins at `lo`.
abbrev pub image_of : ℕ → (ℕ → ℕ) → List Record → (ℕ → ℕ)
image_of lo image [] = image
image_of lo image (r ∷ rs) = image_of lo (placed image (r.address - lo) r.contents) rs

least_below :
    (mn : ℕ) (rs : List Record) → (least mn rs ≤ mn) × All (λ r. least mn rs ≤ r.address) rs
least_below mn [] = (omega arith, tt)
least_below mn (r ∷ rs) =
    let (low, each) = least_below (if ltb r.address mn then r.address else mn) rs in
    (ground arith, (ground arith, each))

greatest_above : (mx : ℕ) (rs : List Record) → mx ≤ greatest mx rs
greatest_above mx [] = omega arith
greatest_above mx (r ∷ rs) =
    let above =
      greatest_above
        (if ltb mx (r.address + length r.contents) then r.address + length r.contents else mx) rs in
    ground arith

pass1-print_file :
    (eol last : List ℕ) (rs : List Record) (entry mn mx : ℕ)
    → All IsRecord rs
    → pass1 (print_file eol last rs entry) (mn, mx) ≡ some (least mn rs, greatest mx rs)
unfolding pass1
pass1-print_file eol last [] entry mn mx is = refl
pass1-print_file eol last (r ∷ rs) entry mn mx (is, rest) =
    chain_some (pass1 (print_file eol last rs entry)) (range_record-print_record eol r is mn mx)
    ∙ pass1-print_file eol last rs entry _ _ rest

-- Where every byte can be read, the loop that may stop reads them all.
hex_prefix-hex_bytes :
    (s : List ℕ) (n p : ℕ) (bs : List ℕ) → hex_bytes s n p ≡ some bs → hex_prefix s n p ≡ bs
unfolding hex_prefix hex_bytes
hex_prefix-hex_bytes s zero p bs h = some_inj.0 h
hex_prefix-hex_bytes s (suc n) p bs h =
    let (b, first, rest) =
      chain_parts (hex_byte s p) (λ b. hex_bytes s n (p + 2) >>= λ bs. some (b ∷ bs)) bs h in
    let (more, next, last) = chain_parts (hex_bytes s n (p + 2)) (λ bs. some (b ∷ bs)) bs rest in
    rw (hex_prefix, first, hex_prefix-hex_bytes s n (p + 2) more next) (some_inj.0 last)

-- The entry that the S7 record gives.
entry_read :
    (last : List ℕ) (entry : ℕ)
    → entry < 2 ^ 32
    → address_of 0 (hex_prefix (print_entry last entry) 4 4) ≡ entry
entry_read last entry small =
    let ck = (255 - total (5 ∷ be32 entry) % 256) in
    let read =
      hex_bytes_shift b'S' b'7' (hex_of (5 ∷ (be32 entry ++ ck ∷ [])) last) 4 2
      ∙ hex_bytes_shift (digit (5 / 16)) (digit (5 % 16)) (hex_of (be32 entry ++ ck ∷ []) last) 4 0
      ∙ hex_bytes-hex_of (be32 entry) (ck ∷ []) last
          (omega arith, (omega arith, (omega arith, (omega arith, tt)))) in
    ap (address_of 0) (hex_prefix-hex_bytes (print_entry last entry) 4 4 (be32 entry) read)
    ∙ omega arith

pass2-print_file :
    (eol last : List ℕ) (lo : ℕ) (rs : List Record) (entry : ℕ) (image : ℕ → ℕ) (before : Option ℕ)
    → All IsRecord rs
    → All (λ r. lo ≤ r.address) rs
    → entry < 2 ^ 32
    → pass2 lo (print_file eol last rs entry) (image, before)
      ≡ some (image_of lo image rs, some entry)
unfolding pass2
pass2-print_file eol last lo [] entry image before is low small =
    ap (λ a. some (image, some a)) (entry_read last entry small)
pass2-print_file eol last lo (r ∷ rs) entry image before (is, rest) (low, lows) small =
    chain_some (pass2 lo (print_file eol last rs entry))
      (fill_record-print_record eol r is lo image before low)
    ∙ pass2-print_file eol last lo rs entry (placed image (r.address - lo) r.contents) before rest
        lows small

not_below : (lo hi : ℕ) → lo ≤ hi → ltb hi lo ≡ false
not_below lo hi h = ground arith

-- A file with one or more S3 records, each of at most 250 bytes that end below 2 ^ 32, and an S7
-- record, with any end of line behind the checksums and any text behind the last one, is loaded
-- as one section: from the least address to the greatest end, with the records' bytes in their
-- places, the later record over the earlier one, zeros in the gaps, and the entry of the S7
-- record.
pub srec_load-print_file :
    (eol last : List ℕ) (r : Record) (rs : List Record) (entry : ℕ)
    → All IsRecord (r ∷ rs)
    → entry < 2 ^ 32
    → srec_load (print_file eol last (r ∷ rs) entry)
      ≡ some (
        record {
          load_addr = least 0xFFFFFFFF (r ∷ rs);
          contents =
              bytes_from
                (greatest 0 (r ∷ rs) - least 0xFFFFFFFF (r ∷ rs))
                0
                (image_of (least 0xFFFFFFFF (r ∷ rs)) (λ q. 0) (r ∷ rs));
        },
        some entry,
      )
unfolding srec_load
srec_load-print_file eol last r rs entry is small =
    let lo = least 0xFFFFFFFF (r ∷ rs) in
    let hi = greatest 0 (r ∷ rs) in
    let (low, lows) = least_below 0xFFFFFFFF (r ∷ rs) in
    let above = greatest_above (r.address + length r.contents) rs in
    let top = r.address + length r.contents in
    let starts : (if ltb 0 top then top else 0) ≡ top = ground arith in
    let ends : hi ≡ greatest top rs = ap (λ mx. greatest mx rs) starts in
    let first : lo ≤ r.address = lows.0 in
    let in_order : lo ≤ hi = omega (arith, ends, above, first) in
    let ordered : ltb hi lo ≡ false = not_below lo hi in_order in
    rw
      (
        pass1-print_file eol last (r ∷ rs) entry 0xFFFFFFFF 0 is,
        ordered,
        pass2-print_file eol last lo (r ∷ rs) entry (λ q. 0) none is lows small,
      )
      refl
