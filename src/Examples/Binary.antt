-- ===== src/Examples/Binary.antt =====
-- Executables that the theorems on host/src/binary are applied to.
use kos_tool.Prelude.{
  ℕ, zero, suc, ◌+◌, ◌-◌, ◌%◌, ◌^◌, ◌≤◌, ◌<◌, ◌≡◌, refl, arith, some, List, [], ◌∷◌, get_or, All,
  IsByte, bytes_from,
}
use kos_tool.Scramble.{dc_descramble}
use kos_tool.Scramble.Disc.{dcdisc_scramble_binary}
use kos_tool.Scramble.RoundTrip.{dc_descramble-dcdisc_scramble_binary}
use kos_tool.Dol.{File, Section, loaded, dol_load, go_on, read32be}
use kos_tool.Dol.Writer.{Segment, elf2dol, write_dol, program_headers, is_text, is_data, read16be}
use kos_tool.Dol.Written.{wanted, end_of}
use kos_tool.Dol.RoundTrip.{deliver, dol_load-elf2dol}
use kos_tool.Srec.{srec_load}
use kos_tool.Srec.Ranges.{Record, IsRecord}
use kos_tool.Srec.RoundTrip.{print_file, least, greatest, image_of, srec_load-print_file}

pub bytes_small : (l : List ℕ) → All IsByte l → (q : ℕ) → get_or l q 0 < 256
bytes_small [] h q = omega arith
bytes_small (b ∷ bs) (h, hs) zero = h
bytes_small (b ∷ bs) (h, hs) (suc q) = bytes_small bs hs q

dc_descramble-dcdisc_scramble_binary_example :
    dc_descramble (dcdisc_scramble_binary (λ p. p % 256) (λ p. 0) 100) (λ p. 0) 100 70 ≡ 70 % 256
dc_descramble-dcdisc_scramble_binary_example =
    dc_descramble-dcdisc_scramble_binary (λ p. p % 256) (λ p. 0) (λ p. 0) 100 70 (omega arith)

-- An ELF file with one segment of four bytes of code.
abbrev elf_bytes : List ℕ
elf_bytes =
    127 ∷ 69 ∷ 76 ∷ 70 ∷ 1 ∷ 2 ∷ 1 ∷ 0 ∷ 0 ∷ 0 ∷ 0 ∷ 0 ∷ 0 ∷ 0 ∷ 0 ∷ 0 ∷ 0 ∷ 2 ∷ 0 ∷ 20 ∷ 0 ∷ 0 ∷ 0
    ∷ 1 ∷ 128 ∷ 0 ∷ 49 ∷ 0 ∷ 0 ∷ 0 ∷ 0 ∷ 52 ∷ 0 ∷ 0 ∷ 0 ∷ 0 ∷ 0 ∷ 0 ∷ 0 ∷ 0 ∷ 0 ∷ 52 ∷ 0 ∷ 32 ∷ 0
    ∷ 1 ∷ 0 ∷ 0 ∷ 0 ∷ 0 ∷ 0 ∷ 0 ∷ 0 ∷ 0 ∷ 0 ∷ 1 ∷ 0 ∷ 0 ∷ 0 ∷ 84 ∷ 128 ∷ 0 ∷ 49 ∷ 0 ∷ 128 ∷ 0 ∷ 49
    ∷ 0 ∷ 0 ∷ 0 ∷ 0 ∷ 4 ∷ 0 ∷ 0 ∷ 0 ∷ 4 ∷ 0 ∷ 0 ∷ 0 ∷ 5 ∷ 0 ∷ 0 ∷ 0 ∷ 32 ∷ 78 ∷ 128 ∷ 0 ∷ 32 ∷ []

abbrev elf : File
elf = record { bytes = λ q. get_or elf_bytes q 0; size = 88 }

abbrev segments : List Segment
segments = program_headers elf.bytes (read16be elf.bytes 44) 0

abbrev converted : File
converted = write_dol elf.bytes segments (read32be elf.bytes 24)

elf2dol-elf : elf2dol elf ≡ some converted
unfolding elf2dol
elf2dol-elf = refl

-- A callback that keeps what it gets.
abbrev keep : Section → List Section → List Section × ℕ
keep c cs = (c ∷ cs, 0)

elf-Fits : end_of is_data segments (end_of is_text segments 256) + 64 ≤ 2 ^ 32
unfolding program_headers
elf-Fits = omega arith

dol_load-elf2dol_example : dol_load keep converted [] ≡ (
  read32be elf.bytes 24,
  go_on keep
      (deliver keep (wanted is_text elf.bytes segments) [])
      (deliver keep (wanted is_data elf.bytes segments)),
)
dol_load-elf2dol_example =
    dol_load-elf2dol keep elf converted [] (bytes_small elf_bytes (ground arith)) elf2dol-elf
      elf-Fits

-- The section that the loader delivers is the code.
code_delivered :
    go_on keep
      (deliver keep (wanted is_text elf.bytes segments) [])
      (deliver keep (wanted is_data elf.bytes segments))
    ≡ ((record { load_addr = 0x80003100; contents = 78 ∷ 128 ∷ 0 ∷ 32 ∷ [] }) ∷ [], loaded)
unfolding program_headers
code_delivered = refl

-- Two records with a gap between them.
abbrev first : Record
first = record { address = 0x8c010000; contents = 1 ∷ 2 ∷ [] }

abbrev second : Record
second = record { address = 0x8c010004; contents = 255 ∷ [] }

records-IsRecord : All IsRecord (first ∷ second ∷ [])
records-IsRecord = (
  record { bytes = ground arith; short = omega arith; below = omega arith },
  (record { bytes = ground arith; short = omega arith; below = omega arith }, tt),
)

srec_load-print_file_example :
    srec_load (print_file (10 ∷ []) [] (first ∷ second ∷ []) 0x8c010000)
    ≡ some (
      record {
        load_addr = least 0xFFFFFFFF (first ∷ second ∷ []);
        contents =
            bytes_from
              (greatest 0 (first ∷ second ∷ []) - least 0xFFFFFFFF (first ∷ second ∷ []))
              0
              (image_of (least 0xFFFFFFFF (first ∷ second ∷ [])) (λ q. 0) (first ∷ second ∷ []));
      },
      some 0x8c010000,
    )
srec_load-print_file_example =
    srec_load-print_file (10 ∷ []) [] first (second ∷ []) 0x8c010000 records-IsRecord (omega arith)

-- The gap is filled with zeros.
gap_filled :
    bytes_from 5 0 (image_of 0x8c010000 (λ q. 0) (first ∷ second ∷ [])) ≡ 1 ∷ 2 ∷ 0 ∷ 0 ∷ 255 ∷ []
gap_filled = refl
