-- ===== src/Dol/RoundTrip.antt =====
-- The sections that make-dist/tools/elf2dol.c writes are what host/src/binary/dol.c loads.
use kos_tool.Prelude.{
  bytes_from, ℕ, zero, suc, ◌+◌, ◌*◌, ◌%◌, ◌^◌, ◌≤◌, ◌<◌, ◌≡◌, refl, ap, sym, ◌∙◌, inl, inr, List,
  [], ◌∷◌, some, arith, length, ltb, ◌==◌, add32, if◌then◌else◌, IsU32, false, Bool-cases, All,
  ◌||◌,
}
use mathlib.Core.Option.{some_inj}
use kos_tool.Dol.{
  File, Table, Section, Load, loaded, stopped, read32be, load_sections, go_on, dol_load,
}
use kos_tool.Dol.Writer.{
  Segment, count_of, is_text, is_data, write_dol, elf2dol, program_headers, read16be, is_elf,
}
use kos_tool.Dol.Transport.{length-wanted, program_headers-IsSegment, read32be-IsU32}
use kos_tool.Dol.Layout.{size_lem, entry_lem, empty_text, empty_data, write_dol-Holds}
use kos_tool.Dol.Written.{wanted, end_of, end_of_grows, IsSegment, Holds}

-- The callback gets these sections, up to the first that it refuses.
abbrev pub deliver : {S : Type 0} → (Section → S → S × ℕ) → List Section → S → S × Load
deliver callback [] s = (s, loaded)
deliver callback (c ∷ cs) s =
    let r = callback c s in
    let rest = deliver callback cs r.0 in if r.1 == 0 then rest else (r.0, stopped r.1)

abbrev table_at : ℕ → ℕ → ℕ → (ℕ → ℕ) → Table
table_at o a z raw = record {
  offset = λ i. read32be raw (o + i * 4);
  address = λ i. read32be raw (a + i * 4);
  size = λ i. read32be raw (z + i * 4);
}

-- One section that lies in the file is handed over.
load_sections_step :
    {S : Type 0} (callback : Section → S → S × ℕ) (t : Table) (f : File) (n i : ℕ) (c : Section)
    (s : S)
    → f.size < 2 ^ 32
    → t.size i ≡ length c.contents
    → 0 < length c.contents
    → t.address i ≡ c.load_addr
    → bytes_from (length c.contents) (t.offset i) f.bytes ≡ c.contents
    → t.offset i + length c.contents ≤ f.size
    → load_sections callback t f (suc n) i s ≡ (
        if (callback c s).1 == 0
        then load_sections callback t f n (i + 1) (callback c s).0
        else ((callback c s).0, stopped (callback c s).1))
unfolding load_sections
load_sections_step callback t f n i c s small size some_bytes address bytes top =
    let not_empty : (length c.contents == 0) ≡ false = ground arith in
    let inside : ltb (f.size % 2 ^ 32) (add32 (t.offset i) (length c.contents)) ≡ false =
      ground arith in
    let present : ltb f.size (t.offset i + length c.contents) ≡ false = ground arith in
    rw (size, not_empty, inside, present, address, bytes) refl

module _ {S : Type 0} (callback : Section → S → S × ℕ) (o a z : ℕ) (f : File) where
  -- A file that holds sections and then empty slots is loaded as these sections.
  load_sections-deliver :
      (n i : ℕ) (cs : List Section) (s : S)
      → f.size < 2 ^ 32
      → Holds o a z f.bytes f.bytes f.size i cs
      → ((j : ℕ) → i + length cs ≤ j → j < i + n → read32be f.bytes (z + j * 4) ≡ 0)
      → length cs ≤ n
      → load_sections callback (table_at o a z f.bytes) f n i s ≡ deliver callback cs s
  unfolding load_sections
  load_sections-deliver zero i [] s small held empty fits = refl
  load_sections-deliver zero i (c ∷ cs) s small held empty fits = absurd (omega arith)
  load_sections-deliver (suc n) i [] s small held empty fits =
      rw (empty i (omega arith) (omega arith)) (
        load_sections-deliver n (i + 1) [] s small tt
          (λ j above below. empty j (omega arith) (omega arith)) (omega arith))
  load_sections-deliver (suc n) i (c ∷ cs) s small
        (low, size, some_bytes, address, bytes, top, rest) empty fits =
      load_sections_step callback (table_at o a z f.bytes) f n i c s small size some_bytes address
        bytes top
      ∙ ap (λ r. if (callback c s).1 == 0 then r else ((callback c s).0, stopped (callback c s).1))
          (load_sections-deliver n (i + 1) cs (callback c s).0 small rest
            (λ j above below. empty j (omega arith) (omega arith)) (omega arith))

-- The loader of what `write_dol` makes.
dol_load-write_dol :
    {S : Type 0} (callback : Section → S → S × ℕ) (elf : ℕ → ℕ) (gs : List Segment) (entry : ℕ)
    (s : S)
    → All (IsSegment is_text) gs
    → All (IsSegment is_data) gs
    → count_of is_text gs ≤ 7
    → count_of is_data gs ≤ 11
    → end_of is_data gs (end_of is_text gs 256) + 64 ≤ 2 ^ 32
    → IsU32 entry
    → dol_load callback (write_dol elf gs entry) s ≡ (
      entry,
      go_on callback
          (deliver callback (wanted is_text elf gs) s)
          (deliver callback (wanted is_data elf gs)),
    )
unfolding dol_load
dol_load-write_dol {S = S} callback elf gs entry s texts data_are few_texts few_data room small =
    let f = write_dol elf gs entry in
    let size = size_lem elf gs entry texts data_are few_texts few_data room in
    let (text_held, data_held) =
      write_dol-Holds elf gs entry texts data_are few_texts few_data room in
    let whole : ltb f.size 256 ≡ false =
      ground (
        arith,
        size,
        end_of_grows is_text gs 256,
        end_of_grows is_data gs (end_of is_text gs 256),
      ) in
    let header = entry_lem elf gs entry texts data_are few_texts few_data room small in
    let fits : f.size < 2 ^ 32 = omega (arith, size) in
    let text =
      load_sections-deliver callback 0x00 0x48 0x90 f 7 0 (wanted is_text elf gs) s fits text_held
        (λ j above below.
          empty_text elf gs entry texts data_are few_texts few_data room j (omega arith)
            (omega arith))
        (omega (arith, length-wanted is_text elf gs)) in
    let table : (t : S)
        → load_sections callback (table_at 0x1C 0x64 0xAC f.bytes) f 11 0 t
          ≡ deliver callback (wanted is_data elf gs) t =
      λ t.
        load_sections-deliver callback 0x1C 0x64 0xAC f 11 0 (wanted is_data elf gs) t fits
          data_held
          (λ j above below.
            empty_data elf gs entry texts data_are few_texts few_data room j (omega arith)
              (omega arith))
          (omega (arith, length-wanted is_data elf gs)) in
    rw whole (λ i. (header i, go_on callback (text i) (λ t. table t i)))

-- If elf2dol converts an ELF file of bytes and what it writes ends 64 bytes or more below 2 ^ 32,
-- then the host's loader reads the file's entry and hands its callback every executable segment
-- and then every other one that has contents, each with its address and its bytes in the order of
-- the program headers, up to the first one that the callback refuses.
pub dol_load-elf2dol :
    {S : Type 0} (callback : Section → S → S × ℕ) (elf dol : File) (s : S)
    → ((p : ℕ) → elf.bytes p < 256)
    → elf2dol elf ≡ some dol
    → end_of is_data
          (program_headers elf.bytes (read16be elf.bytes 44) 0)
          (end_of is_text (program_headers elf.bytes (read16be elf.bytes 44) 0) 256)
        + 64
      ≤ 2 ^ 32
    → dol_load callback dol s ≡ (
      read32be elf.bytes 24,
      go_on callback
          (deliver callback
            (wanted is_text elf.bytes (program_headers elf.bytes (read16be elf.bytes 44) 0))
            s)
          (deliver callback
            (wanted is_data elf.bytes (program_headers elf.bytes (read16be elf.bytes 44) 0))),
    )
unfolding elf2dol
dol_load-elf2dol callback elf dol s small made room =
    let gs = program_headers elf.bytes (read16be elf.bytes 44) 0 in
    let (texts, data_are) = program_headers-IsSegment elf.bytes (read16be elf.bytes 44) 0 small in
    let entry = read32be-IsU32 elf.bytes 24 small in
    elim (Bool-cases (is_elf elf)) [
      | inl e ↦ elim (Bool-cases (ltb 7 (count_of is_text gs) || ltb 11 (count_of is_data gs))) [
        | inl many ↦ absurd (ground (arith, rw (e, many) at made))
        | inr few ↦
            let same = some_inj.0 (rw (e, few) at made) in
            let few_texts : count_of is_text gs ≤ 7 = ground arith in
            let few_data : count_of is_data gs ≤ 11 = ground arith in
            ap (λ d. dol_load callback d s) (sym same)
            ∙ dol_load-write_dol callback elf.bytes gs (read32be elf.bytes 24) s texts data_are
                few_texts few_data room entry
      ]
      | inr e ↦ absurd (ground (arith, rw e at made))
    ]
