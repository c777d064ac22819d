-- ===== src/Dol.antt =====
-- DOL executables: the loader of host/src/binary/dol.c. A file is its size and its bytes, as a
-- function of the offset.
use kos_tool.Prelude.{
  ℕ, zero, suc, ◌+◌, ◌-◌, ◌*◌, ◌/◌, ◌%◌, ◌^◌, Bool, true, false, ◌&&◌, ◌||◌, not, List, [], ◌∷◌,
  ltb, leb, ◌==◌, add32, if◌then◌else◌, bytes_from,
}
pub mod Writer
pub mod Words
pub mod Written
pub mod Transport
pub mod Layout
pub mod RoundTrip

abbrev pub dol_header_size : ℕ
dol_header_size = 256

abbrev pub dol_max_text : ℕ
dol_max_text = 7

abbrev pub dol_max_data : ℕ
dol_max_data = 11

-- The bytes do not overlap, so `|` is a sum.
abbrev pub read32be : (ℕ → ℕ) → ℕ → ℕ
read32be raw p = raw p * 2 ^ 24 + raw (p + 1) * 2 ^ 16 + raw (p + 2) * 2 ^ 8 + raw (p + 3)

-- The three arrays of the text sections or of the data sections.
pub record Table : Type 0 where
  pub offset : ℕ → ℕ
  pub address : ℕ → ℕ
  pub size : ℕ → ℕ

pub record Header : Type 0 where
  pub text : Table
  pub table : Table
  pub bss_address : ℕ
  pub bss_size : ℕ
  pub entry_point : ℕ

abbrev pub text_table : (ℕ → ℕ) → Table
text_table raw = record {
  offset = λ i. read32be raw (0x00 + i * 4);
  address = λ i. read32be raw (0x48 + i * 4);
  size = λ i. read32be raw (0x90 + i * 4);
}

abbrev pub data_table : (ℕ → ℕ) → Table
data_table raw = record {
  offset = λ i. read32be raw (0x1C + i * 4);
  address = λ i. read32be raw (0x64 + i * 4);
  size = λ i. read32be raw (0xAC + i * 4);
}

abbrev pub parse_header : (ℕ → ℕ) → Header
parse_header raw = record {
  text = text_table raw;
  table = data_table raw;
  bss_address = read32be raw 0xD8;
  bss_size = read32be raw 0xDC;
  entry_point = read32be raw 0xE0;
}

pub record File : Type 0 where
  pub bytes : ℕ → ℕ
  pub size : ℕ

-- The check of a section of `dol_probe`.
abbrev pub bad_section : Table → ℕ → Bool
bad_section t i =
    ltb 0 (t.size i) && (ltb (t.offset i) dol_header_size || ltb (t.address i) 0x80000000)

-- Whether one of the sections from `i` on fails the check, and whether one of them is not empty.
unfoldable pub any_bad : Table → ℕ → ℕ → Bool
any_bad t zero i = false
any_bad t (suc n) i = bad_section t i || any_bad t n (i + 1)

unfoldable pub any_section : Table → ℕ → ℕ → Bool
any_section t zero i = false
any_section t (suc n) i = ltb 0 (t.size i) || any_section t n (i + 1)

-- `dol_probe` of a file that opens; the flag tells whether its name ends in ".dol".
unfoldable pub dol_probe : Bool → File → Bool
unfolding any_bad any_section
dol_probe named_dol f =
    let hdr = parse_header f.bytes in
    if ltb f.size dol_header_size
    then false
    else if ltb hdr.entry_point 0x80000000 || ltb 0x817FFFFF hdr.entry_point
    then false
    else if any_bad hdr.text dol_max_text 0 || any_bad hdr.table dol_max_data 0
    then false
    else any_section hdr.text dol_max_text 0 || any_section hdr.table dol_max_data 0 || named_dol

-- What the callback gets.
pub record Section : Type 0 where
  pub load_addr : ℕ
  pub contents : List ℕ

-- How a load ends: all sections delivered, a callback's result that is not 0, a section past the
-- end of the file or a read that fails.
pub data Load : Type 0 where
  loaded : Load
  stopped : ℕ → Load
  past_end short_read : Load

module _ {S : Type 0} (callback : Section → S → S × ℕ) where
  -- The sections of one kind from `i` on. The sum is a uint32_t, as is the file's size.
  -- A read() delivers all the bytes that the file has, as many as are asked for.
  unfoldable pub load_sections : Table → File → ℕ → ℕ → S → S × Load
  load_sections t f zero i s = (s, loaded)
  load_sections t f (suc n) i s =
      let skipped = load_sections t f n (i + 1) s in
      let delivered =
        callback
          (record {
            load_addr = t.address i;
            contents = bytes_from (t.size i) (t.offset i) f.bytes;
          })
          s in
      let rest = load_sections t f n (i + 1) delivered.0 in
      if t.size i == 0
      then skipped
      else if ltb (f.size % 2 ^ 32) (add32 (t.offset i) (t.size i))
      then (s, past_end)
      else if ltb f.size (t.offset i + t.size i)
      then (s, short_read)
      else if delivered.1 == 0
      then rest
      else (delivered.0, stopped delivered.1)

  abbrev pub go_on : S × Load → (S → S × Load) → S × Load
  go_on r next = elim r.1 [ loaded ↦ next r.0 | other ↦ (r.0, other) ]

  -- The result comes with the entry address, of a file whose header could be read.
  unfoldable pub dol_load : File → S → ℕ × (S × Load)
  unfolding load_sections
  dol_load f s =
      let hdr = parse_header f.bytes in
      if ltb f.size dol_header_size then (0, (s, short_read)) else (
        hdr.entry_point,
        go_on (load_sections hdr.text f dol_max_text 0 s)
            (λ t. load_sections hdr.table f dol_max_data 0 t),
      )
