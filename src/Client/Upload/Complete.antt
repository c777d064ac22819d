-- ===== src/Client/Upload/Complete.antt =====
-- What the answer to DBIN says about the memory (client/common/core/commands.c): the transfer as
-- a sequence of steps, and the end of it.
use kos_tool.Prelude.{
  ℕ, ◌+◌, ◌-◌, ◌*◌, ◌/◌, ◌^◌, ◌≤◌, ◌<◌, ◌≡◌, refl, ap, ◌∙◌, arith, true, false, ◌==◌, ltb, sub32,
  add32, mul32, min, if◌then◌else◌,
}
use native.Mathlib.Decide.{ℕ_discrete}
use kos_tool.Client.{Client, Platform, Request, dctool_major}
use kos_tool.Client.Upload.{
  cmd_loadbin, cmd_partbin, cmd_donebin, chunk_count, missing_range, first_missing, map_test,
}
use kos_tool.Client.Upload.Bitmap.{IsMap}
use kos_tool.Client.Upload.Chunks.{chunk_count_near}
use kos_tool.Client.Upload.Missing.{first_missing-IsFirstMissing}
use kos_tool.Client.Upload.Transfer.{
  Image, IsChunkOf, Receiving, IsLoadOf, cmd_partbin-Receiving, cmd_donebin-Receiving,
  cmd_loadbin-Receiving,
}

-- A command that reaches the client during the transfer of an image: a chunk, the question, or a
-- further copy of the command that opened it. A lost datagram is no step.
pub data Step (p : Platform) (image : Image) : Client → Client → Type 0 where
  chunk :
      (k : ℕ) (req : Request) {s : Client}
      → IsChunkOf image k req
      → Step p image s (cmd_partbin p req s)
  asked : (req : Request) {s : Client} → Step p image s (cmd_donebin p req s)
  opened :
      (text : ℕ) (req : Request) {s : Client}
      → IsLoadOf p image req
      → Step p image s (cmd_loadbin p text req s)

pub data Steps (p : Platform) (image : Image) : Client → Client → Type 0 where
  done : {s : Client} → Steps p image s s
  step : {s t u : Client} → Step p image s t → Steps p image t u → Steps p image s u

Step-Receiving :
    (p : Platform) (image : Image) (s t : Client)
    → Receiving image s
    → Step p image s t
    → Receiving image t
Step-Receiving p image s _ r (chunk k req c) = cmd_partbin-Receiving p image k req s r c
Step-Receiving p image s _ r (asked req) = cmd_donebin-Receiving p image req s r
Step-Receiving p image s _ r (opened text req l) =
    cmd_loadbin-Receiving p text image req s r.modern r.is_map l

pub Steps-Receiving :
    (p : Platform) (image : Image) (s t : Client)
    → Receiving image s
    → Steps p image s t
    → Receiving image t
Steps-Receiving p image s _ r done = r
Steps-Receiving p image s u r (step {t = t} first rest) =
    Steps-Receiving p image t u (Step-Receiving p image s t r first) rest

-- Every byte of the image is in the memory.
pub record Holds (image : Image) (s : Client) : Type 0 where
  pub at : (off : ℕ) → off < image.size → s.memory (add32 image.base off) ≡ image.byte_at off

all_before :
    (image : Image) (s : Client) (i off : ℕ)
    → Receiving image s
    → ((j : ℕ) → j < i → map_test j s.bin_map ≡ true)
    → off < i * 1440
    → off < image.size
    → s.memory (add32 image.base off) ≡ image.byte_at off
all_before image s i off r all lo h =
    r.held (off / 1440) off (all (off / 1440) (omega arith)) (omega arith) (omega arith) h

-- The answer, by the chunks' count and the first one that is missing.
abbrev pub range_of : ℕ → ℕ → ℕ → ℕ → ℕ × ℕ
range_of base size count i =
    if i == count then (0, 0) else (add32 base (mul32 i 1440), min (sub32 size (mul32 i 1440)) 1440)

pub missing_range_lem :
    (s : Client)
    → ltb (dctool_major s) 2 ≡ false
    → missing_range s
      ≡ range_of s.load_address s.load_size
          (chunk_count s)
          (first_missing (chunk_count s) 0 s.bin_map)
unfolding missing_range
missing_range_lem s modern = rw modern refl

-- A count of chunks and the first missing one.
abbrev range_size : ℕ → ℕ → ℕ → ℕ
range_size size count i = if i == count then 0 else min (sub32 size (mul32 i 1440)) 1440

range_size_zero :
    (size count i : ℕ)
    → size + 1439 < 2 ^ 32
    → (size + 1439) / 1440 ≤ count
    → count ≤ (size + 1439) / 1440 + 1
    → i ≤ count
    → range_size size count i ≡ 0
    → size ≤ i * 1440
range_size_zero size count i small low high le h = elim (ℕ_discrete i count) [
  | yes all ↦ omega arith
  | no some ↦ ground arith
]

-- An answer with size 0 names no chunk, or one that starts at the image's end.
missing_range_zero :
    (image : Image) (s : Client)
    → Receiving image s
    → (missing_range s).1 ≡ 0
    → image.size ≤ first_missing (chunk_count s) 0 s.bin_map * 1440
missing_range_zero image s r h =
    let (low, high) = chunk_count_near s r.modern (omega (arith, r.of_size, image.size_fits)) in
    let found =
      first_missing-IsFirstMissing (chunk_count s) 0 (chunk_count s) s.bin_map (omega arith) in
    let size : range_size s.load_size (chunk_count s) (first_missing (chunk_count s) 0 s.bin_map)
        ≡ 0 =
      ground (arith, missing_range_lem s r.modern, h) in
    omega (
      arith,
      r.of_size,
      image.size_fits,
      range_size_zero s.load_size (chunk_count s) (first_missing (chunk_count s) 0 s.bin_map)
          (omega (arith, r.of_size, image.size_fits)) low high found.high size,
    )

-- Where every chunk below the first missing one lies in the image, the image has arrived.
pub missing_past-Holds :
    (image : Image) (s : Client)
    → Receiving image s
    → image.size ≤ first_missing (chunk_count s) 0 s.bin_map * 1440
    → Holds image s
missing_past-Holds image s r past = record {
  at = λ off h.
      all_before image s (first_missing (chunk_count s) 0 s.bin_map) off r
        (λ j lo.
          (first_missing-IsFirstMissing (chunk_count s) 0 (chunk_count s) s.bin_map
              (omega arith)).before
            j (omega arith) lo)
        (omega arith) h;
}

-- For a host of version 2 or later, after LBIN opened the transfer of an image that fits the RAM:
-- whatever chunks were lost, repeated or reordered and whatever was asked or opened anew, once
-- the client's answer to DBIN has size 0 its memory holds every byte of the image.
pub upload_complete :
    (p : Platform) (text : ℕ) (image : Image) (req : Request) (s t : Client)
    → ltb (dctool_major s) 2 ≡ false
    → IsMap s.bin_map
    → IsLoadOf p image req
    → Steps p image (cmd_loadbin p text req s) t
    → (missing_range t).1 ≡ 0
    → Holds image t
upload_complete p text image req s t modern is_map l steps h =
    let r =
      Steps-Receiving p image (cmd_loadbin p text req s) t
        (cmd_loadbin-Receiving p text image req s modern is_map l) steps in
    missing_past-Holds image t r (missing_range_zero image t r h)

pub inside_count :
    (image : Image) (s : Client)
    → Receiving image s
    → first_missing (chunk_count s) 0 s.bin_map * 1440 < image.size
    → first_missing (chunk_count s) 0 s.bin_map < chunk_count s
inside_count image s r h =
    let (low, high) = chunk_count_near s r.modern (omega (arith, r.of_size, image.size_fits)) in
    omega (arith, r.of_size)

range_inside :
    (base size count i : ℕ)
    → size < 2 ^ 32
    → i < count
    → i * 1440 < size
    → range_of base size count i ≡ (add32 base (i * 1440), min (size - i * 1440) 1440)
range_inside base size count i small h inside =
    let product : mul32 i 1440 ≡ i * 1440 = omega arith in
    let rest : sub32 size (i * 1440) ≡ size - i * 1440 = omega arith in
    let differ : (i == count) ≡ false = ground arith in ground (arith, product, rest, differ)

pub missing_range_of :
    (image : Image) (s : Client)
    → Receiving image s
    → missing_range s
      ≡ range_of image.base image.size (chunk_count s) (first_missing (chunk_count s) 0 s.bin_map)
missing_range_of image s r =
    missing_range_lem s r.modern
    ∙ ap
        (λ (b : ℕ).
          range_of b s.load_size (chunk_count s) (first_missing (chunk_count s) 0 s.bin_map))
        r.at_base
    ∙ ap
        (λ (n : ℕ).
          range_of image.base n (chunk_count s) (first_missing (chunk_count s) 0 s.bin_map))
        r.of_size

-- While a transfer is received and the first missing chunk lies in the image, the answer to DBIN
-- names exactly that chunk.
pub missing_range_names :
    (image : Image) (s : Client)
    → Receiving image s
    → first_missing (chunk_count s) 0 s.bin_map * 1440 < image.size
    → missing_range s ≡ (
      add32 image.base (first_missing (chunk_count s) 0 s.bin_map * 1440),
      min (image.size - first_missing (chunk_count s) 0 s.bin_map * 1440) 1440,
    )
missing_range_names image s r h =
    missing_range_of image s r
    ∙ range_inside image.base image.size (chunk_count s) (first_missing (chunk_count s) 0 s.bin_map)
        (omega (arith, image.size_fits)) (inside_count image s r h) h
