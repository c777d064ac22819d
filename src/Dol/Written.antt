-- ===== src/Dol/Written.antt =====
-- What make-dist/tools/elf2dol.c writes: the sections of one kind in the header and in the file.
use kos_tool.Prelude.{
  bytes_from, bytes_from_eq, length-bytes_from, ℕ, ◌+◌, ◌*◌, ◌/◌, ◌^◌, ◌≤◌, ◌<◌, ◌≡◌, refl, ap, sym,
  ◌∙◌, ◌⊎◌, inl, inr, List, [], ◌∷◌, arith, length, ltb, leb, if◌then◌else◌, IsU32, true, false,
  Bool, Bool-cases, All,
}
use kos_tool.Dol.{read32be, Section}
use kos_tool.Dol.Writer.{
  write32be, pad, append_bytes, Segment, Output, write_section, write_sections, count_of, align_up,
}
use kos_tool.Dol.Words.{read32be-write32be, read32be-write32be_apart, pad_before, append_bytes_at}

-- The sections of a kind as they have to be delivered.
abbrev pub wanted : (Segment → Bool) → (ℕ → ℕ) → List Segment → List Section
wanted test elf [] = []
wanted test elf (g ∷ gs) =
    if test g
    then (record { load_addr = g.p_vaddr; contents = bytes_from g.p_filesz g.p_offset elf })
      ∷ wanted test elf gs
    else wanted test elf gs

-- Where the sections end, without the wrap-around of the 32 bits.
abbrev pub end_of : (Segment → Bool) → List Segment → ℕ → ℕ
end_of test [] at = at
end_of test (g ∷ gs) at = end_of test gs (if test g then (at + 63) / 64 * 64 + g.p_filesz else at)

pub end_of_grows : (test : Segment → Bool) (gs : List Segment) (at : ℕ) → at ≤ end_of test gs at
end_of_grows test [] at = omega arith
end_of_grows test (g ∷ gs) at = elim (Bool-cases (test g)) [
  | inl e ↦ rw e (omega (arith, end_of_grows test gs ((at + 63) / 64 * 64 + g.p_filesz)))
  | inr e ↦ rw e (end_of_grows test gs at)
]

-- Sizes and addresses are words, and a section that counts is not empty.
abbrev pub IsSegment : (Segment → Bool) → Segment → Type 0
IsSegment test g = IsU32 g.p_vaddr × IsU32 g.p_filesz × (test g ≡ true → 0 < g.p_filesz)

-- The header `h` and the file `f` have these sections from slot `i` on.
abbrev pub Holds : ℕ → ℕ → ℕ → (ℕ → ℕ) → (ℕ → ℕ) → ℕ → ℕ → List Section → Type 0
Holds o a z h f top i [] = Unit
Holds o a z h f top i (c ∷ cs) =
    (256 ≤ read32be h (o + i * 4))
    × (read32be h (z + i * 4) ≡ length c.contents)
    × (0 < length c.contents)
    × (read32be h (a + i * 4) ≡ c.load_addr)
    × (bytes_from (length c.contents) (read32be h (o + i * 4)) f ≡ c.contents)
    × (read32be h (o + i * 4) + length c.contents ≤ top)
    × Holds o a z h f top (i + 1) cs

module _ (test : Segment → Bool) (elf : ℕ → ℕ) (o a z limit : ℕ) where
  -- A word of the header that no slot from `n` on reaches.
  abbrev pub Clear : ℕ → ℕ → Type 0
  Clear n q =
      ((q + 4 ≤ o + n * 4) ⊎ (o + limit * 4 ≤ q))
      × ((q + 4 ≤ a + n * 4) ⊎ (a + limit * 4 ≤ q))
      × ((q + 4 ≤ z + n * 4) ⊎ (z + limit * 4 ≤ q))

  pub write_section_keeps :
      (g : Segment) (w : Output) (q : ℕ)
      → Clear w.num q
      → w.num < limit
      → read32be (write_section elf o a z g w).dol_header q ≡ read32be w.dol_header q
  write_section_keeps g w q (co, ca, cz) h =
      let h1 = write32be w.dol_header (o + w.num * 4) (align_up w.file_offset 64) in
      let h2 = write32be h1 (a + w.num * 4) g.p_vaddr in
      read32be-write32be_apart h2 (z + w.num * 4) g.p_filesz q (ground arith)
      ∙ read32be-write32be_apart h1 (a + w.num * 4) g.p_vaddr q (ground arith)
      ∙ read32be-write32be_apart w.dol_header (o + w.num * 4) (align_up w.file_offset 64) q
          (ground arith)

  pub write_sections_keep :
      (gs : List Segment) (w : Output) (q : ℕ)
      → Clear w.num q
      → w.num + count_of test gs ≤ limit
      → read32be (write_sections test elf o a z gs w).dol_header q ≡ read32be w.dol_header q
  unfolding write_sections count_of
  write_sections_keep [] w q clear h = refl
  write_sections_keep (g ∷ gs) w q clear h = elim (Bool-cases (test g)) [
    | inl e ↦
        let room = rw e at h in
        rw (e, write_sections)
          (write_sections_keep gs (write_section elf o a z g w) q (ground arith) (omega arith)
            ∙ write_section_keeps g w q clear (omega arith))
    | inr e ↦
        let room = rw e at h in
        rw (e, write_sections) (write_sections_keep gs w q clear (omega arith))
  ]

  section_before :
      (g : Segment) (w : Output) (q : ℕ)
      → q < w.position
      → (write_section elf o a z g w).file q ≡ w.file q
  section_before g w q h =
      let offset = align_up w.file_offset 64 in
      let position = if ltb w.position offset then offset else w.position in
      let below : leb position q ≡ false = ground arith in
      rw below (pad_before offset w.position offset w.file q h)

  -- The file before the position stays.
  pub write_sections_before :
      (gs : List Segment) (w : Output) (q : ℕ)
      → q < w.position
      → (write_sections test elf o a z gs w).file q ≡ w.file q
  unfolding write_sections
  write_sections_before [] w q h = refl
  write_sections_before (g ∷ gs) w q h = elim (Bool-cases (test g)) [
    | inl e ↦
        rw (e, write_sections)
          (write_sections_before gs (write_section elf o a z g w) q (ground arith)
            ∙ section_before g w q h)
    | inr e ↦ rw (e, write_sections) (write_sections_before gs w q h)
  ]

  -- One section, at the next multiple of 64.
  section_lem :
      (g : Segment) (w : Output)
      → IsSegment test g
      → w.position ≡ w.file_offset
      → o + limit * 4 ≤ a
      → a + limit * 4 ≤ z
      → w.num < limit
      → (w.file_offset + 63) / 64 * 64 + g.p_filesz + 64 ≤ 2 ^ 32
      → (read32be (write_section elf o a z g w).dol_header (o + w.num * 4)
          ≡ (w.file_offset + 63) / 64 * 64)
        × (read32be (write_section elf o a z g w).dol_header (a + w.num * 4) ≡ g.p_vaddr)
        × (read32be (write_section elf o a z g w).dol_header (z + w.num * 4) ≡ g.p_filesz)
        × ((write_section elf o a z g w).position ≡ (w.file_offset + 63) / 64 * 64 + g.p_filesz)
        × ((write_section elf o a z g w).file_offset ≡ (w.file_offset + 63) / 64 * 64 + g.p_filesz)
        × ((k : ℕ)
            → k < g.p_filesz
            → (write_section elf o a z g w).file ((w.file_offset + 63) / 64 * 64 + k)
              ≡ elf (g.p_offset + k))
  section_lem g w is ready oa az h room =
      let offset = align_up w.file_offset 64 in
      let plain : offset ≡ (w.file_offset + 63) / 64 * 64 = omega arith in
      let position = if ltb w.position offset then offset else w.position in
      let ends : position ≡ offset = ground arith in
      let h1 = write32be w.dol_header (o + w.num * 4) offset in
      let h2 = write32be h1 (a + w.num * 4) g.p_vaddr in
      (
        read32be-write32be_apart h2 (z + w.num * 4) g.p_filesz (o + w.num * 4) (inr (omega arith))
            ∙ read32be-write32be_apart h1 (a + w.num * 4) g.p_vaddr (o + w.num * 4)
                (inr (omega arith))
            ∙ read32be-write32be w.dol_header (o + w.num * 4) offset (omega arith)
            ∙ plain,
        read32be-write32be_apart h2 (z + w.num * 4) g.p_filesz (a + w.num * 4) (inr (omega arith))
            ∙ read32be-write32be h1 (a + w.num * 4) g.p_vaddr is.0,
        read32be-write32be h2 (z + w.num * 4) g.p_filesz is.1,
        omega (arith, ends, plain),
        omega (arith, plain),
        λ k below.
            ap
              (append_bytes (pad offset w.position offset w.file) position elf g.p_offset
                g.p_filesz)
              (omega (arith, ends, plain))
            ∙ append_bytes_at (pad offset w.position offset w.file) elf position g.p_offset
                g.p_filesz k below,
      )

  pub write_sections-Holds :
      (gs : List Segment) (w : Output)
      → All (IsSegment test) gs
      → w.position ≡ w.file_offset
      → 256 ≤ w.file_offset
      → o + limit * 4 ≤ a
      → a + limit * 4 ≤ z
      → w.num + count_of test gs ≤ limit
      → end_of test gs w.file_offset + 64 ≤ 2 ^ 32
      → Holds o a z
          (write_sections test elf o a z gs w).dol_header
          (write_sections test elf o a z gs w).file
          (end_of test gs w.file_offset)
          w.num
          (wanted test elf gs)
        × ((write_sections test elf o a z gs w).position ≡ end_of test gs w.file_offset)
        × ((write_sections test elf o a z gs w).file_offset ≡ end_of test gs w.file_offset)
        × ((write_sections test elf o a z gs w).num ≡ w.num + count_of test gs)
  unfolding write_sections count_of
  write_sections-Holds [] w is ready above oa az h room = (tt, ready, refl, omega arith)
  write_sections-Holds (g ∷ gs) w is ready above oa az h room = elim (Bool-cases (test g)) [
    | inl e ↦
        let off = (w.file_offset + 63) / 64 * 64 in
        let w' = write_section elf o a z g w in
        let fits = rw e at room in
        let grows = end_of_grows test gs (off + g.p_filesz) in
        let slots = rw e at h in
        let sec = section_lem g w is.0 ready oa az (omega arith) (omega arith) in
        let same_end : end_of test gs w'.file_offset ≡ end_of test gs (off + g.p_filesz) =
          ap (end_of test gs) sec.4 in
        let later =
          write_sections-Holds gs w' is.1 (sec.3 ∙ sym sec.4) (omega (arith, sec.4)) oa az
            (omega arith) (omega (arith, same_end)) in
        let (rest, position, offset, num) = rw same_end at later in
        let whole = length-bytes_from g.p_filesz g.p_offset elf in
        let at_o =
          write_sections_keep gs w' (o + w.num * 4)
            (inl (omega arith), inl (omega arith), inl (omega arith)) (omega arith)
          ∙ sec.0 in
        let at_a =
          write_sections_keep gs w' (a + w.num * 4)
            (inr (omega arith), inl (omega arith), inl (omega arith)) (omega arith)
          ∙ sec.1 in
        let at_z =
          write_sections_keep gs w' (z + w.num * 4)
            (inr (omega arith), inr (omega arith), inl (omega arith)) (omega arith)
          ∙ sec.2 in
        let contents =
          bytes_from_eq g.p_filesz off g.p_offset (write_sections test elf o a z gs w').file elf
            (λ k below.
              write_sections_before gs w' (off + k) (omega (arith, sec.3)) ∙ sec.5 k below) in
        rw (e, write_sections, count_of, wanted, end_of)
          (
            (
              omega (arith, at_o),
              at_z ∙ sym whole,
              omega (arith, whole, is.0.2 e),
              at_a,
              rw (whole, at_o) contents,
              omega (arith, whole, at_o, grows),
              rest,
            ),
            position,
            offset,
            omega (arith, num),
          )
    | inr e ↦
        let fits = rw e at room in
        let slots = rw e at h in
        let (held, position, offset, num) =
          write_sections-Holds gs w is.1 ready above oa az (omega arith) fits in
        rw (e, write_sections, count_of, wanted, end_of)
          (held, position, offset, omega (arith, num))
  ]
