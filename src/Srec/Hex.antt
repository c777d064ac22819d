-- ===== src/Srec/Hex.antt =====
-- Hex digits: what host/src/binary/srec.c reads of a printed record.
use kos_tool.Prelude.{
  ℕ, zero, suc, ◌+◌, ◌-◌, ◌*◌, ◌/◌, ◌%◌, ◌<◌, ◌≡◌, refl, ap, ◌∙◌, arith, some, List, [], ◌∷◌, ◌++◌,
  ltb, get_or, if◌then◌else◌, length, All, IsByte,
}
use kos_tool.Srec.{hex_digit, hex_byte, hex_bytes}

-- A digit, and the digits of bytes with `end` behind them.
abbrev pub digit : ℕ → ℕ
digit d = if ltb d 10 then b'0' + d else b'A' + (d - 10)

abbrev pub hex_of : List ℕ → List ℕ → List ℕ
hex_of [] end = end
hex_of (b ∷ bs) end = digit (b / 16) ∷ digit (b % 16) ∷ hex_of bs end

hex_digit-digit : (d : ℕ) → d < 16 → hex_digit (digit d) ≡ some d
hex_digit-digit d h = ground arith

pub hex_byte-hex_of :
    (b : ℕ) (s : List ℕ) → IsByte b → hex_byte (digit (b / 16) ∷ digit (b % 16) ∷ s) 0 ≡ some b
unfolding hex_byte
hex_byte-hex_of b s h =
    rw (hex_digit-digit (b / 16) (omega arith), hex_digit-digit (b % 16) (omega arith))
      (ap some (omega arith))

pub get_or_shift : (x y : ℕ) (s : List ℕ) (p : ℕ) → get_or (x ∷ y ∷ s) (p + 2) 0 ≡ get_or s p 0
get_or_shift x y s p = ap (λ i. get_or (x ∷ y ∷ s) i 0) two
  where
    two : p + 2 ≡ suc (suc p)
    two = omega arith

pub hex_byte_shift : (x y : ℕ) (s : List ℕ) (p : ℕ) → hex_byte (x ∷ y ∷ s) (p + 2) ≡ hex_byte s p
unfolding hex_byte
hex_byte_shift x y s p =
    let second : get_or (x ∷ y ∷ s) (p + 2 + 1) 0 ≡ get_or s (p + 1) 0 =
      ap (λ i. get_or (x ∷ y ∷ s) i 0) (omega arith) ∙ get_or_shift x y s (p + 1) in
    rw (get_or_shift x y s p, second) refl

pub hex_bytes_shift :
    (x y : ℕ) (s : List ℕ) (n p : ℕ) → hex_bytes (x ∷ y ∷ s) n (p + 2) ≡ hex_bytes s n p
unfolding hex_bytes
hex_bytes_shift x y s zero p = refl
hex_bytes_shift x y s (suc n) p = rw (hex_byte_shift x y s p, hex_bytes_shift x y s n (p + 2)) refl

-- The bytes that were printed, with more behind them.
pub hex_bytes-hex_of :
    (bs cs end : List ℕ) → All IsByte bs → hex_bytes (hex_of (bs ++ cs) end) (length bs) 0 ≡ some bs
unfolding hex_bytes
hex_bytes-hex_of [] cs end h = refl
hex_bytes-hex_of (b ∷ bs) cs end (h, hs) =
    let rest =
      hex_bytes_shift (digit (b / 16)) (digit (b % 16)) (hex_of (bs ++ cs) end) (length bs) 0
      ∙ hex_bytes-hex_of bs cs end hs in
    rw (hex_byte-hex_of b (hex_of (bs ++ cs) end) h, rest) refl

-- The byte behind others.
pub hex_byte_last :
    (bs : List ℕ) (c : ℕ) (cs end : List ℕ)
    → IsByte c
    → hex_byte (hex_of (bs ++ c ∷ cs) end) (length bs * 2) ≡ some c
hex_byte_last [] c cs end h = hex_byte-hex_of c (hex_of cs end) h
hex_byte_last (b ∷ bs) c cs end h =
    ap (hex_byte (hex_of (b ∷ bs ++ c ∷ cs) end)) (omega arith)
    ∙ hex_byte_shift (digit (b / 16)) (digit (b % 16)) (hex_of (bs ++ c ∷ cs) end) (length bs * 2)
    ∙ hex_byte_last bs c cs end h
