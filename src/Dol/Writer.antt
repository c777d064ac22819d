-- ===== src/Dol/Writer.antt =====
-- make-dist/tools/elf2dol.c: a DOL from the program headers of an ELF file.
use kos_tool.Prelude.{
  ℕ, zero, suc, ◌+◌, ◌-◌, ◌*◌, ◌/◌, ◌%◌, ◌^◌, Bool, ◌&&◌, ◌||◌, not, Option, none, some, List, [],
  ◌∷◌, ltb, leb, ◌==◌, add32, sub32, if◌then◌else◌,
}
use kos_tool.Dol.{File, read32be, dol_header_size, dol_max_text, dol_max_data}

abbrev pub dol_align : ℕ
dol_align = 64

abbrev pub write32be : (ℕ → ℕ) → ℕ → ℕ → (ℕ → ℕ)
write32be raw p val q =
    if q == p
    then val / 2 ^ 24 % 256
    else if q == p + 1
    then val / 2 ^ 16 % 256
    else if q == p + 2
    then val / 2 ^ 8 % 256
    else if q == p + 3
    then val % 256
    else raw q

-- The alignment is a power of two, so `& ~(align - 1)` is a division.
abbrev pub align_up : ℕ → ℕ → ℕ
align_up val align = (val + align - 1) % 2 ^ 32 / align * align

abbrev pub read16be : (ℕ → ℕ) → ℕ → ℕ
read16be raw p = raw p * 2 ^ 8 + raw (p + 1)

-- The fields of `Elf32_Phdr` that are used.
pub record Segment : Type 0 where
  pub p_type : ℕ
  pub p_offset : ℕ
  pub p_vaddr : ℕ
  pub p_filesz : ℕ
  pub p_memsz : ℕ
  pub p_flags : ℕ

abbrev pub program_header : (ℕ → ℕ) → ℕ → Segment
program_header elf p = record {
  p_type = read32be elf (p + 0);
  p_offset = read32be elf (p + 4);
  p_vaddr = read32be elf (p + 8);
  p_filesz = read32be elf (p + 16);
  p_memsz = read32be elf (p + 20);
  p_flags = read32be elf (p + 24);
}

-- The headers from number `i` on.
unfoldable pub program_headers : (ℕ → ℕ) → ℕ → ℕ → List Segment
program_headers elf zero i = []
program_headers elf (suc n) i =
    program_header elf (read32be elf 28 + i * read16be elf 42) ∷ program_headers elf n (i + 1)

-- PT_LOAD is 1 and PF_X the lowest bit.
abbrev pub is_text : Segment → Bool
is_text g = (g.p_type == 1) && (not (g.p_filesz == 0) && (g.p_flags % 2 == 1))

abbrev pub is_data : Segment → Bool
is_data g = (g.p_type == 1) && (not (g.p_filesz == 0) && (g.p_flags % 2 == 0))

unfoldable pub count_of : (Segment → Bool) → List Segment → ℕ
count_of test [] = 0
count_of test (g ∷ gs) = (if test g then 1 else 0) + count_of test gs

-- The first pass over the memory without file contents: its start and its end, 0 and 0 at first.
unfoldable pub bss_of : List Segment → ℕ → ℕ → ℕ × ℕ
bss_of [] bss_addr bss_end = (bss_addr, bss_end)
bss_of (g ∷ gs) bss_addr bss_end =
    let from = add32 g.p_vaddr g.p_filesz in
    let to = add32 g.p_vaddr g.p_memsz in
    let has_bss = (g.p_type == 1) && ltb g.p_filesz g.p_memsz in
    bss_of gs (if has_bss && ((bss_addr == 0) || ltb from bss_addr) then from else bss_addr)
      (if has_bss && ltb bss_end to then to else bss_end)

-- The output: the header that is written last, the file so far and where it ends.
pub record Output : Type 0 where
  pub dol_header : ℕ → ℕ
  pub file : ℕ → ℕ
  pub position : ℕ
  pub file_offset : ℕ
  pub num : ℕ

-- The loop that writes a zero until the file's position is the offset.
unfoldable pub pad : ℕ → ℕ → ℕ → (ℕ → ℕ) → (ℕ → ℕ)
pad zero position file_offset file = file
pad (suc fuel) position file_offset file =
    let rest = pad fuel (position + 1) file_offset (λ q. if q == position then 0 else file q) in
    if ltb position file_offset then rest else file

-- fwrite of `n` bytes at the end of the file.
abbrev pub append_bytes : (ℕ → ℕ) → ℕ → (ℕ → ℕ) → ℕ → ℕ → (ℕ → ℕ)
append_bytes file position source at n q =
    if leb position q && ltb q (position + n) then source (at + (q - position)) else file q

-- One section: `o`, `a` and `z` are where the header has the offsets, addresses and sizes.
abbrev pub write_section : (ℕ → ℕ) → ℕ → ℕ → ℕ → Segment → Output → Output
write_section elf o a z g w =
    let file_offset = align_up w.file_offset dol_align in
    let position = if ltb w.position file_offset then file_offset else w.position in
    record {
      dol_header =
          write32be
            (write32be (write32be w.dol_header (o + w.num * 4) file_offset) (a + w.num * 4)
              g.p_vaddr)
            (z + w.num * 4) g.p_filesz;
      file =
          append_bytes (pad file_offset w.position file_offset w.file) position elf g.p_offset
            g.p_filesz;
      position = position + g.p_filesz;
      file_offset = add32 file_offset g.p_filesz;
      num = w.num + 1;
    }

unfoldable pub write_sections :
    (Segment → Bool) → (ℕ → ℕ) → ℕ → ℕ → ℕ → List Segment → Output → Output
write_sections test elf o a z [] w = w
write_sections test elf o a z (g ∷ gs) w =
    write_sections test elf o a z gs (if test g then write_section elf o a z g w else w)

-- What the header gets at the end: a slot for a kind without sections, the memory without
-- contents, the entry.
abbrev pub finish_header : (ℕ → ℕ) → ℕ → ℕ → ℕ × ℕ → ℕ → (ℕ → ℕ)
finish_header h num_text num_data bss entry =
    let h1 = if num_text == 0 then write32be h 0x00 (align_up dol_header_size dol_align) else h in
    let h2 = if num_data == 0 then write32be h1 0x1C (align_up dol_header_size dol_align) else h1 in
    let h3 =
      if ltb bss.0 bss.1
      then write32be (write32be h2 0xD8 bss.0) 0xDC (sub32 bss.1 bss.0)
      else h2 in
    write32be h3 0xE0 entry

-- The checks of the ELF header.
abbrev pub is_elf : File → Bool
is_elf elf =
    leb 52 elf.size
    && ((elf.bytes 0 == 0x7f)
        && ((elf.bytes 1 == b'E')
            && ((elf.bytes 2 == b'L')
                && ((elf.bytes 3 == b'F') && ((elf.bytes 4 == 1) && (elf.bytes 5 == 2))))))

abbrev pub no_output : Output
no_output = record {
  dol_header = λ q. 0;
  file = λ q. 0;
  position = dol_header_size;
  file_offset = dol_header_size;
  num = 0;
}

-- The text sections, then the data sections; the header is written over the first 256 bytes.
unfoldable pub write_dol : (ℕ → ℕ) → List Segment → ℕ → File
write_dol elf gs entry =
    let texts = write_sections is_text elf 0x00 0x48 0x90 gs no_output in
    let all = write_sections is_data elf 0x1C 0x64 0xAC gs (record texts { num = 0 }) in
    let header = finish_header all.dol_header texts.num all.num (bss_of gs 0 0) entry in
    record {
      bytes = λ q. if ltb q dol_header_size then header q else all.file q;
      size = all.position;
    }

-- `none` where the tool fails: no ELF file of that kind, or too many sections.
unfoldable pub elf2dol : File → Option File
unfolding program_headers count_of write_dol
elf2dol elf =
    let gs = program_headers elf.bytes (read16be elf.bytes 44) 0 in
    if not (is_elf elf)
    then none
    else if ltb dol_max_text (count_of is_text gs) || ltb dol_max_data (count_of is_data gs)
    then none
    else some (write_dol elf.bytes gs (read32be elf.bytes 24))
