-- ===== src/Dol/Layout.antt =====
-- The file that `write_dol` of make-dist/tools/elf2dol.c makes: both tables of the header, the
-- empty slots and the sizes.
use kos_tool.Prelude.{
  ℕ, ◌+◌, ◌*◌, ◌^◌, ◌≤◌, ◌<◌, ◌≡◌, refl, ap, sym, ◌∙◌, ◌⊎◌, inl, inr, List, arith, length, ltb,
  IsU32, true, false, All,
}
use kos_tool.Dol.{read32be}
use kos_tool.Dol.Writer.{
  Segment, Output, write_sections, count_of, is_text, is_data, finish_header, no_output, write_dol,
  bss_of,
}
use kos_tool.Dol.Words.{read32be_eq}
use kos_tool.Dol.Written.{
  wanted, end_of, end_of_grows, IsSegment, Holds, write_sections_keep, write_sections_before,
  write_sections-Holds,
}
use kos_tool.Dol.Transport.{
  length-wanted, Holds_lem, read32be-finish_header, read32be-finish_header_entry,
}

module _ (elf : ℕ → ℕ) (gs : List Segment) (entry : ℕ) (texts_are : All (IsSegment is_text) gs)
    (data_are : All (IsSegment is_data) gs) (few_texts : count_of is_text gs ≤ 7)
    (few_data : count_of is_data gs ≤ 11)
    (room : end_of is_data gs (end_of is_text gs 256) + 64 ≤ 2 ^ 32) where
  abbrev texts : Output
  texts = write_sections is_text elf 0x00 0x48 0x90 gs no_output

  abbrev sections : Output
  sections = write_sections is_data elf 0x1C 0x64 0xAC gs (record texts { num = 0 })

  abbrev header : ℕ → ℕ
  header = finish_header sections.dol_header texts.num sections.num (bss_of gs 0 0) entry

  header_word :
      (q : ℕ) → q + 4 ≤ 256 → read32be (write_dol elf gs entry).bytes q ≡ read32be header q
  unfolding write_dol
  header_word q low =
      read32be_eq (write_dol elf gs entry).bytes header q
        (λ p above below. let inside : ltb p 256 ≡ true = ground arith in rw inside refl)

  file_byte : (q : ℕ) → 256 ≤ q → (write_dol elf gs entry).bytes q ≡ sections.file q
  unfolding write_dol
  file_byte q h = let outside : ltb q 256 ≡ false = ground arith in rw outside refl

  texts_held :
      Holds 0x00 0x48 0x90 texts.dol_header texts.file
        (end_of is_text gs 256)
        0
        (wanted is_text elf gs)
      × (texts.position ≡ end_of is_text gs 256)
      × (texts.file_offset ≡ end_of is_text gs 256)
      × (texts.num ≡ count_of is_text gs)
  texts_held =
      let (held, position, offset, count) =
        write_sections-Holds is_text elf 0x00 0x48 0x90 7 gs no_output texts_are refl (omega arith)
          (omega arith) (omega arith) (omega arith)
          (omega (arith, end_of_grows is_data gs (end_of is_text gs 256))) in
      (held, position, offset, omega (arith, count))

  data_held :
      Holds 0x1C 0x64 0xAC sections.dol_header sections.file
        (end_of is_data gs (end_of is_text gs 256))
        0
        (wanted is_data elf gs)
      × (sections.position ≡ end_of is_data gs (end_of is_text gs 256))
      × (sections.num ≡ count_of is_data gs)
  data_held =
      let (_, position, offset, num) = texts_held in
      let grows = end_of_grows is_text gs 256 in
      let ends : end_of is_data gs texts.file_offset ≡ end_of is_data gs (end_of is_text gs 256) =
        ap (end_of is_data gs) offset in
      let all =
        write_sections-Holds is_data elf 0x1C 0x64 0xAC 11 gs (record texts { num = 0 }) data_are
          (position ∙ sym offset) (omega (arith, offset, grows)) (omega arith) (omega arith)
          (omega arith) (omega (arith, ends)) in
      let (held, at, file_offset, count) = rw ends at all in (held, at, omega (arith, count))

  pub size_lem : (write_dol elf gs entry).size ≡ end_of is_data gs (end_of is_text gs 256)
  unfolding write_dol
  size_lem = data_held.1

  pub entry_lem : IsU32 entry → read32be (write_dol elf gs entry).bytes 0xE0 ≡ entry
  unfolding write_dol
  entry_lem small =
      header_word 0xE0 (omega arith)
      ∙ read32be-finish_header_entry sections.dol_header texts.num sections.num (bss_of gs 0 0)
          entry small

  -- A word of the text table.
  text_word :
      (q : ℕ)
      → (q + 4 ≤ 0x1C) ⊎ (((0x48 ≤ q) × (q + 4 ≤ 0x64)) ⊎ ((0x90 ≤ q) × (q + 4 ≤ 0xAC)))
      → (0 < count_of is_text gs) ⊎ (4 ≤ q)
      → read32be (write_dol elf gs entry).bytes q ≡ read32be texts.dol_header q
  text_word q inside some_text =
      let num = texts_held.3 in
      header_word q (omega arith)
      ∙ read32be-finish_header sections.dol_header texts.num sections.num (bss_of gs 0 0) entry q
          (omega arith) (elim some_text [ inl h ↦ inl (omega (arith, num)) | inr h ↦ inr h ])
          (inr (elim inside [ inl h ↦ inl h | inr h ↦ inr (omega (arith, h)) ]))
      ∙ write_sections_keep is_data elf 0x1C 0x64 0xAC 11 gs (record texts { num = 0 }) q
          (ground (arith, inside), ground (arith, inside), ground (arith, inside)) (omega arith)

  -- A word of the data table.
  data_word :
      (q : ℕ)
      → ((0x1C ≤ q) × (q + 4 ≤ 0x48))
        ⊎ (((0x64 ≤ q) × (q + 4 ≤ 0x90)) ⊎ ((0xAC ≤ q) × (q + 4 ≤ 0xD8)))
      → (0 < count_of is_data gs) ⊎ (0x20 ≤ q)
      → read32be (write_dol elf gs entry).bytes q ≡ read32be sections.dol_header q
  data_word q inside some_data =
      let num = data_held.2 in
      header_word q (omega arith)
      ∙ read32be-finish_header sections.dol_header texts.num sections.num (bss_of gs 0 0) entry q
          (omega arith) (inr (omega arith))
          (elim some_data [ inl h ↦ inl (omega (arith, num)) | inr h ↦ inr (inr h) ])

  pub empty_text :
      (j : ℕ)
      → length (wanted is_text elf gs) ≤ j
      → j < 7
      → read32be (write_dol elf gs entry).bytes (0x90 + j * 4) ≡ 0
  empty_text j above below =
      let counted = length-wanted is_text elf gs in
      text_word (0x90 + j * 4) (inr (inr (omega arith, omega arith))) (inr (omega arith))
      ∙ write_sections_keep is_text elf 0x00 0x48 0x90 (count_of is_text gs) gs no_output
          (0x90 + j * 4) (inr (omega arith), inr (omega arith), inr (omega (arith, counted)))
          (omega arith)

  pub empty_data :
      (j : ℕ)
      → length (wanted is_data elf gs) ≤ j
      → j < 11
      → read32be (write_dol elf gs entry).bytes (0xAC + j * 4) ≡ 0
  empty_data j above below =
      let counted = length-wanted is_data elf gs in
      data_word (0xAC + j * 4) (inr (inr (omega arith, omega arith))) (inr (omega arith))
      ∙ write_sections_keep is_data elf 0x1C 0x64 0xAC (count_of is_data gs) gs
          (record texts { num = 0 }) (0xAC + j * 4)
          (inr (omega arith), inr (omega arith), inr (omega (arith, counted))) (omega arith)
      ∙ write_sections_keep is_text elf 0x00 0x48 0x90 7 gs no_output (0xAC + j * 4)
          (inr (omega arith), inr (omega arith), inr (omega arith)) (omega arith)

  -- Both tables, as the loader reads them.
  pub write_dol-Holds :
      Holds 0x00 0x48 0x90
        (write_dol elf gs entry).bytes
        (write_dol elf gs entry).bytes
        (write_dol elf gs entry).size
        0
        (wanted is_text elf gs)
      × Holds 0x1C 0x64 0xAC
          (write_dol elf gs entry).bytes
          (write_dol elf gs entry).bytes
          (write_dol elf gs entry).size
          0
          (wanted is_data elf gs)
  write_dol-Holds =
      let counted = length-wanted is_text elf gs in
      let data_counted = length-wanted is_data elf gs in
      let (held, position, _, _) = texts_held in
      let (data_there, end, _) = data_held in
      (
        Holds_lem 0x00 0x48 0x90 (end_of is_text gs 256) (write_dol elf gs entry).size
            texts.dol_header texts.file (write_dol elf gs entry).bytes
            (write_dol elf gs entry).bytes 0 (wanted is_text elf gs)
            (λ j above below. text_word (0x00 + j * 4) (inl (omega arith)) (inl (omega arith)))
            (λ j above below.
              text_word (0x48 + j * 4) (inr (inl (omega arith, omega arith))) (inl (omega arith)))
            (λ j above below.
              text_word (0x90 + j * 4) (inr (inr (omega arith, omega arith))) (inl (omega arith)))
            (λ q above below.
              file_byte q above
              ∙ write_sections_before is_data elf 0x1C 0x64 0xAC 11 gs (record texts { num = 0 }) q
                  (omega (arith, position)))
            (omega (arith, size_lem, end_of_grows is_data gs (end_of is_text gs 256))) held,
        Holds_lem 0x1C 0x64 0xAC (end_of is_data gs (end_of is_text gs 256))
            (write_dol elf gs entry).size sections.dol_header sections.file
            (write_dol elf gs entry).bytes (write_dol elf gs entry).bytes 0 (wanted is_data elf gs)
            (λ j above below.
              data_word (0x1C + j * 4) (inl (omega arith, omega arith)) (inl (omega arith)))
            (λ j above below.
              data_word (0x64 + j * 4) (inr (inl (omega arith, omega arith))) (inl (omega arith)))
            (λ j above below.
              data_word (0xAC + j * 4) (inr (inr (omega arith, omega arith))) (inl (omega arith)))
            (λ q above below. file_byte q above) (omega (arith, size_lem)) data_there,
      )
