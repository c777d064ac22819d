-- ===== src/Dol/Transport.antt =====
-- What make-dist/tools/elf2dol.c writes later leaves the sections that it wrote before: the data
-- sections, the end of the header and the file around the header.
use kos_tool.Prelude.{
  bytes_from, bytes_from_eq, ℕ, zero, suc, ◌+◌, ◌*◌, ◌≤◌, ◌<◌, ◌≡◌, refl, ap, ◌∙◌, ◌⊎◌, inl, inr,
  List, [], ◌∷◌, arith, length, ltb, ◌==◌, if◌then◌else◌, IsU32, true, false, Bool, Bool-cases, All,
  sub32,
}
use kos_tool.Dol.{read32be, Section}
use kos_tool.Dol.Writer.{
  write32be, Segment, count_of, is_text, is_data, finish_header, program_headers, read16be,
  align_up,
}
use kos_tool.Dol.Words.{read32be-write32be, read32be-write32be_apart}
use kos_tool.Dol.Written.{wanted, IsSegment, Holds}

pub length-wanted :
    (test : Segment → Bool) (elf : ℕ → ℕ) (gs : List Segment)
    → length (wanted test elf gs) ≡ count_of test gs
unfolding count_of
length-wanted test elf [] = refl
length-wanted test elf (g ∷ gs) = elim (Bool-cases (test g)) [
  | inl e ↦ rw e (omega (arith, length-wanted test elf gs))
  | inr e ↦ rw e (omega (arith, length-wanted test elf gs))
]

pub Holds_lem :
    (o a z top top2 : ℕ) (h f h2 f2 : ℕ → ℕ) (i : ℕ) (cs : List Section)
    → ((j : ℕ) → i ≤ j → j < i + length cs → read32be h2 (o + j * 4) ≡ read32be h (o + j * 4))
    → ((j : ℕ) → i ≤ j → j < i + length cs → read32be h2 (a + j * 4) ≡ read32be h (a + j * 4))
    → ((j : ℕ) → i ≤ j → j < i + length cs → read32be h2 (z + j * 4) ≡ read32be h (z + j * 4))
    → ((q : ℕ) → 256 ≤ q → q < top → f2 q ≡ f q)
    → top ≤ top2
    → Holds o a z h f top i cs
    → Holds o a z h2 f2 top2 i cs
Holds_lem o a z top top2 h f h2 f2 i [] at_o at_a at_z fs more held = tt
Holds_lem o a z top top2 h f h2 f2 i (c ∷ cs) at_o at_a at_z fs more
      (low, size, some_bytes, address, bytes, inside, rest) =
    let same_o = at_o i (omega arith) (omega arith) in
    let contents =
      bytes_from_eq (length c.contents) (read32be h (o + i * 4)) (read32be h (o + i * 4)) f2 f
        (λ k h. fs _ (omega arith) (omega arith)) in
    (
      omega (arith, same_o),
      at_z i (omega arith) (omega arith) ∙ size,
      some_bytes,
      at_a i (omega arith) (omega arith) ∙ address,
      ap (λ p. bytes_from (length c.contents) p f2) same_o ∙ contents ∙ bytes,
      omega (arith, same_o),
      Holds_lem o a z top top2 h f h2 f2 (i + 1) cs
          (λ j above below. at_o j (omega arith) (omega arith))
          (λ j above below. at_a j (omega arith) (omega arith))
          (λ j above below. at_z j (omega arith) (omega arith)) fs more rest,
    )

-- A write that may not be made.
write32be_if :
    (t : Bool) (h : ℕ → ℕ) (p v q : ℕ)
    → (t ≡ false) ⊎ ((p + 4 ≤ q) ⊎ (q + 4 ≤ p))
    → read32be (if t then write32be h p v else h) q ≡ read32be h q
write32be_if true h p v q (inl e) = absurd (ground (arith, e))
write32be_if true h p v q (inr apart) = read32be-write32be_apart h p v q apart
write32be_if false h p v q either = refl

-- The words before the memory without contents stay, but for the first slot of a kind without
-- sections.
pub read32be-finish_header :
    (h : ℕ → ℕ) (num_text num_data : ℕ) (bss : ℕ × ℕ) (entry q : ℕ)
    → q + 4 ≤ 0xD8
    → (0 < num_text) ⊎ (4 ≤ q)
    → (0 < num_data) ⊎ ((q + 4 ≤ 0x1C) ⊎ (0x20 ≤ q))
    → read32be (finish_header h num_text num_data bss entry) q ≡ read32be h q
read32be-finish_header h num_text num_data bss entry q low text table =
    let h1 = if num_text == 0 then write32be h 0x00 (align_up 256 64) else h in
    let h2 = if num_data == 0 then write32be h1 0x1C (align_up 256 64) else h1 in
    let h3 =
      if ltb bss.0 bss.1
      then write32be (write32be h2 0xD8 bss.0) 0xDC (sub32 bss.1 bss.0)
      else h2 in
    let no_text : ((num_text == 0) ≡ false) ⊎ ((0 + 4 ≤ q) ⊎ (q + 4 ≤ 0)) = elim text [
      | inl e ↦ inl (ground arith)
      | inr e ↦ inr (inl (omega arith))
    ] in
    let no_data : ((num_data == 0) ≡ false) ⊎ ((0x1C + 4 ≤ q) ⊎ (q + 4 ≤ 0x1C)) = elim table [
      | inl e ↦ inl (ground arith)
      | inr (inl e) ↦ inr (inr (omega arith))
      | inr (inr e) ↦ inr (inl (omega arith))
    ] in
    let bss_words : read32be h3 q ≡ read32be h2 q = elim (Bool-cases (ltb bss.0 bss.1)) [
      | inl e ↦ rw e (
          read32be-write32be_apart (write32be h2 0xD8 bss.0) 0xDC (sub32 bss.1 bss.0) q
            (inr (omega arith))
          ∙ read32be-write32be_apart h2 0xD8 bss.0 q (inr (omega arith)))
      | inr e ↦ rw e refl
    ] in
    read32be-write32be_apart h3 0xE0 entry q (inr (omega arith))
    ∙ bss_words
    ∙ write32be_if (num_data == 0) h1 0x1C (align_up 256 64) q no_data
    ∙ write32be_if (num_text == 0) h 0x00 (align_up 256 64) q no_text

pub read32be-finish_header_entry :
    (h : ℕ → ℕ) (num_text num_data : ℕ) (bss : ℕ × ℕ) (entry : ℕ)
    → IsU32 entry
    → read32be (finish_header h num_text num_data bss entry) 0xE0 ≡ entry
read32be-finish_header_entry h num_text num_data bss entry small =
    let h1 = if num_text == 0 then write32be h 0x00 (align_up 256 64) else h in
    let h2 = if num_data == 0 then write32be h1 0x1C (align_up 256 64) else h1 in
    let h3 =
      if ltb bss.0 bss.1
      then write32be (write32be h2 0xD8 bss.0) 0xDC (sub32 bss.1 bss.0)
      else h2 in
    read32be-write32be h3 0xE0 entry small

pub read32be-IsU32 : (f : ℕ → ℕ) (p : ℕ) → ((q : ℕ) → f q < 256) → IsU32 (read32be f p)
read32be-IsU32 f p small = omega (arith, small p, small (p + 1), small (p + 2), small (p + 3))

pub program_headers-IsSegment :
    (elf : ℕ → ℕ) (n i : ℕ)
    → ((q : ℕ) → elf q < 256)
    → All (IsSegment is_text) (program_headers elf n i)
      × All (IsSegment is_data) (program_headers elf n i)
unfolding program_headers
program_headers-IsSegment elf zero i small = (tt, tt)
program_headers-IsSegment elf (suc n) i small =
    let p = read32be elf 28 + i * read16be elf 42 in
    let (texts, rest) = program_headers-IsSegment elf n (i + 1) small in
    let address = read32be-IsU32 elf (p + 8) small in
    let size = read32be-IsU32 elf (p + 16) small in
    (((address, size, ground arith), texts), ((address, size, ground arith), rest))
