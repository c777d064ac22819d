-- ===== src/Client/Upload/Transfer.antt =====
-- A transfer to the client by LBIN, PBIN and DBIN (client/common/core/commands.c), for a host of
-- version 2 or later: chunks may be lost, repeated and reordered between the questions.
use kos_tool.Prelude.{
  ℕ, ◌+◌, ◌-◌, ◌*◌, ◌^◌, ◌≤◌, ◌<◌, ◌≡◌, sym, ap, ◌∙◌, arith, true, false, ◌&&◌, ◌||◌, ◌==◌, ltb,
  IsU32, sub32, add32, min, lt→ltb, ◌⊎◌, inl, inr, Bool-cases,
}
use kos_tool.Client.{
  Client, Platform, Request, dctool_major, write_memory, net_bump_syscall_deadline,
}
use kos_tool.Client.Upload.{
  cmd_loadbin, cmd_partbin, cmd_donebin, open_transfer, chunk_index, record_chunk, map_test,
  map_clear_all, bin_info_map_entries,
}
use kos_tool.Client.Upload.Bitmap.{
  IsMap, map_test-map_set, map_set-IsMap, map_clear_all-IsMap, map_test-map_clear_all,
}
use kos_tool.Client.Upload.Chunks.{chunk_index_lem}
use mathlib.Core.Bool.{false≢true}
use native.Mathlib.Decide.{ℕ_discrete, dec_le}

-- What the host sends: `size` bytes for the addresses from `base` on.
pub record Image : Type 0 where
  pub base : ℕ
  pub size : ℕ
  pub byte_at : ℕ → ℕ
  pub base_fits : base < 2 ^ 32
  pub size_fits : size + 2880 < 2 ^ 32

-- The packet of chunk `k`: its address, its length and its bytes.
pub record IsChunkOf (image : Image) (k : ℕ) (req : Request) : Type 0 where
  pub start : k * 1440 < image.size
  pub address : req.address ≡ add32 image.base (k * 1440)
  pub extent : req.size ≡ min (image.size - k * 1440) 1440
  pub content : (j : ℕ) → j < req.size → req.data_at j ≡ image.byte_at (k * 1440 + j)

-- The client is in the transfer of an image, and where a bit is set it holds the chunk's bytes.
pub record Receiving (image : Image) (s : Client) : Type 0 where
  pub at_base : s.load_address ≡ image.base
  pub of_size : s.load_size ≡ image.size
  pub large_chunks : s.payload1024 ≡ false
  pub modern : ltb (dctool_major s) 2 ≡ false
  pub is_map : IsMap s.bin_map
  pub held :
      (k off : ℕ)
      → map_test k s.bin_map ≡ true
      → k * 1440 ≤ off
      → off < k * 1440 + 1440
      → off < image.size
      → s.memory (add32 image.base off) ≡ image.byte_at off

-- The fields that PBIN changes.
pub cmd_partbin_parts :
    (p : Platform) (req : Request) (s : Client)
    → ((cmd_partbin p req s).memory ≡ write_memory s.memory req.address req.size req.data_at)
      × ((cmd_partbin p req s).bin_map ≡ record_chunk p (chunk_index req.address s) s.bin_map)
      × ((cmd_partbin p req s).load_address ≡ s.load_address)
      × ((cmd_partbin p req s).load_size ≡ s.load_size)
      × ((cmd_partbin p req s).payload1024 ≡ s.payload1024)
      × ((cmd_partbin p req s).tool_version ≡ s.tool_version)
unfolding cmd_partbin net_bump_syscall_deadline
cmd_partbin_parts p req s = ground arith

-- How far behind the chunk's address an offset of the image lies.
distance_inside :
    (base off start : ℕ)
    → base < 2 ^ 32
    → off < 2 ^ 32
    → start ≤ off
    → sub32 (add32 base off) (add32 base start) ≡ off - start
distance_inside base off start hb ho h = omega arith

distance_below :
    (base off start : ℕ)
    → base < 2 ^ 32
    → start < 2 ^ 32
    → off < start
    → sub32 (add32 base off) (add32 base start) ≡ 2 ^ 32 - (start - off)
distance_below base off start hb ho h = omega arith

-- The bytes of the chunk arrive, and all others of the image stay.
write_chunk_in :
    (image : Image) (k off : ℕ) (req : Request) (memory : ℕ → ℕ)
    → IsChunkOf image k req
    → k * 1440 ≤ off
    → off < k * 1440 + 1440
    → off < image.size
    → write_memory memory req.address req.size req.data_at (add32 image.base off)
      ≡ image.byte_at off
write_chunk_in image k off req memory c lo hi h =
    let small : off < 2 ^ 32 = omega (arith, image.size_fits) in
    let inside : off - k * 1440 < req.size = omega (arith, c.extent) in
    let back : k * 1440 + (off - k * 1440) ≡ off = omega arith in
    rw
      (
        c.address,
        distance_inside image.base off (k * 1440) image.base_fits small lo,
        lt→ltb _ _ inside,
      )
      (c.content (off - k * 1440) inside ∙ ap image.byte_at back)

write_chunk_out :
    (image : Image) (k off : ℕ) (req : Request) (memory : ℕ → ℕ)
    → IsChunkOf image k req
    → (off < k * 1440) ⊎ (k * 1440 + 1440 ≤ off)
    → off < image.size
    → write_memory memory req.address req.size req.data_at (add32 image.base off)
      ≡ memory (add32 image.base off)
write_chunk_out image k off req memory c (inl lo) h =
    let start : k * 1440 < 2 ^ 32 = omega (arith, image.size_fits, c.start) in
    rw (c.address, distance_below image.base off (k * 1440) image.base_fits start lo)
      (ground (arith, c.extent, c.start, image.size_fits))
write_chunk_out image k off req memory c (inr hi) h =
    let small : off < 2 ^ 32 = omega (arith, image.size_fits) in
    rw (c.address, distance_inside image.base off (k * 1440) image.base_fits small (omega arith))
      (ground (arith, c.extent))

-- The recorded bit is the chunk's own, or none.
map_test-record_chunk :
    (p : Platform) (k j : ℕ) (m : ℕ → ℕ)
    → IsMap m
    → map_test j (record_chunk p k m) ≡ true
    → (k ≡ j) ⊎ (map_test j m ≡ true)
map_test-record_chunk p k j m is_map h = ground (arith, map_test-map_set k j m is_map)

record_chunk-IsMap : (p : Platform) (k : ℕ) (m : ℕ → ℕ) → IsMap m → IsMap (record_chunk p k m)
record_chunk-IsMap p k m h = elim (Bool-cases (ltb k (2 ^ 31) && ltb k (bin_info_map_entries p))) [
  | inl e ↦ rw e (map_set-IsMap k m h)
  | inr e ↦ rw e h
]

-- What the memory holds after the chunk, for a chunk that was recorded before or is this one.
held_after :
    (p : Platform) (image : Image) (k j off : ℕ) (req : Request) (s : Client)
    → Receiving image s
    → IsChunkOf image k req
    → map_test j (record_chunk p k s.bin_map) ≡ true
    → j * 1440 ≤ off
    → off < j * 1440 + 1440
    → off < image.size
    → write_memory s.memory req.address req.size req.data_at (add32 image.base off)
      ≡ image.byte_at off
held_after p image k j off req s r c set lo hi h = elim (ℕ_discrete k j) [
  | yes e ↦ write_chunk_in image k off req s.memory c (omega arith) (omega arith) h
  | no n ↦ elim (map_test-record_chunk p k j s.bin_map r.is_map set) [
    | inl e ↦ absurd (n e)
    | inr before ↦
        write_chunk_out image k off req s.memory c (apart n) h ∙ r.held j off before lo hi h
  ]
]
  where
    apart : ¬ (k ≡ j) → (off < k * 1440) ⊎ (k * 1440 + 1440 ≤ off)
    apart n = elim (dec_le (k * 1440) off) [
      | yes le ↦ inr (omega arith)
      | no gt ↦ inl (omega arith)
    ]

recorded_chunk :
    (p : Platform) (image : Image) (k : ℕ) (req : Request) (s : Client)
    → Receiving image s
    → IsChunkOf image k req
    → (cmd_partbin p req s).bin_map ≡ record_chunk p k s.bin_map
recorded_chunk p image k req s r c =
    let (memory, map, at, size, large, version) = cmd_partbin_parts p req s in
    let start : k * 1440 < 2 ^ 32 = omega (arith, image.size_fits, c.start) in
    let base : IsU32 s.load_address = rw r.at_base image.base_fits in
    let index : chunk_index req.address s ≡ k =
      rw (c.address, ← r.at_base) (chunk_index_lem s k r.large_chunks base start) in
    map ∙ ap (λ (n : ℕ). record_chunk p n s.bin_map) index

-- A chunk of the image keeps the invariant of a transfer, that memory holds the chunk of every
-- set bit, whichever chunk it is and however often it came.
pub cmd_partbin-Receiving :
    (p : Platform) (image : Image) (k : ℕ) (req : Request) (s : Client)
    → Receiving image s
    → IsChunkOf image k req
    → Receiving image (cmd_partbin p req s)
cmd_partbin-Receiving p image k req s r c =
    let (memory, map, at, size, large, version) = cmd_partbin_parts p req s in
    let recorded = recorded_chunk p image k req s r c in
    record {
      at_base = at ∙ r.at_base;
      of_size = size ∙ r.of_size;
      large_chunks = large ∙ r.large_chunks;
      modern = rw version r.modern;
      is_map = rw map (record_chunk-IsMap p _ s.bin_map r.is_map);
      held = λ j off set lo hi h.
          rw memory (held_after p image k j off req s r c (rw (← recorded) set) lo hi h);
    }

-- After chunk `k`, its bit is set and no bit is lost.
record_chunk-sets :
    (p : Platform) (k : ℕ) (m : ℕ → ℕ)
    → IsMap m
    → k < 2 ^ 31
    → k < bin_info_map_entries p
    → (j : ℕ) → map_test j (record_chunk p k m) ≡ ((k == j) || map_test j m)
record_chunk-sets p k m is_map small entry j = ground (arith, map_test-map_set k j m is_map)

pub cmd_partbin_bit :
    (p : Platform) (image : Image) (k j : ℕ) (req : Request) (s : Client)
    → Receiving image s
    → IsChunkOf image k req
    → image.size ≤ p.max_ram_bytes
    → map_test j (cmd_partbin p req s).bin_map ≡ ((k == j) || map_test j s.bin_map)
cmd_partbin_bit p image k j req s r c fits = rw (recorded_chunk p image k req s r c) (
    record_chunk-sets p k s.bin_map r.is_map (omega (arith, c.start, image.size_fits))
      (omega (arith, c.start)) j)

-- The fields that DBIN leaves.
pub cmd_donebin_parts :
    (p : Platform) (req : Request) (s : Client)
    → ((cmd_donebin p req s).memory ≡ s.memory)
      × ((cmd_donebin p req s).bin_map ≡ s.bin_map)
      × ((cmd_donebin p req s).load_address ≡ s.load_address)
      × ((cmd_donebin p req s).load_size ≡ s.load_size)
      × ((cmd_donebin p req s).payload1024 ≡ s.payload1024)
      × ((cmd_donebin p req s).tool_version ≡ s.tool_version)
unfolding cmd_donebin net_bump_syscall_deadline
cmd_donebin_parts p req s = ground arith

pub cmd_donebin-Receiving :
    (p : Platform) (image : Image) (req : Request) (s : Client)
    → Receiving image s
    → Receiving image (cmd_donebin p req s)
cmd_donebin-Receiving p image req s r =
    let (memory, map, at, size, large, version) = cmd_donebin_parts p req s in
    record {
      at_base = at ∙ r.at_base;
      of_size = size ∙ r.of_size;
      large_chunks = large ∙ r.large_chunks;
      modern = rw version r.modern;
      is_map = rw map r.is_map;
      held = λ j off set lo hi h. rw memory (r.held j off (rw (← map) set) lo hi h);
    }

-- The command that opens the transfer, of a size that is let through.
pub record IsLoadOf (p : Platform) (image : Image) (req : Request) : Type 0 where
  pub load_address : req.address ≡ image.base
  pub load_size : req.size ≡ image.size
  pub detected : image.size ≤ p.detect_ram_size
  pub in_ram : image.size ≤ p.max_ram_bytes

-- The fields after a LBIN that is let through.
pub cmd_loadbin_parts :
    (p : Platform) (text : ℕ) (req : Request) (s : Client)
    → ltb (dctool_major s) 2 ≡ false
    → req.size ≤ p.detect_ram_size
    → req.size ≤ p.max_ram_bytes
    → ((cmd_loadbin p text req s).bin_map ≡ map_clear_all p s.bin_map)
      × ((cmd_loadbin p text req s).load_address ≡ req.address)
      × ((cmd_loadbin p text req s).load_size ≡ req.size)
      × ((cmd_loadbin p text req s).payload1024 ≡ false)
      × ((cmd_loadbin p text req s).tool_version ≡ s.tool_version)
unfolding cmd_loadbin open_transfer net_bump_syscall_deadline
cmd_loadbin_parts p text req s modern detected in_ram = ground arith

pub cmd_loadbin-Receiving :
    (p : Platform) (text : ℕ) (image : Image) (req : Request) (s : Client)
    → ltb (dctool_major s) 2 ≡ false
    → IsMap s.bin_map
    → IsLoadOf p image req
    → Receiving image (cmd_loadbin p text req s)
cmd_loadbin-Receiving p text image req s modern is_map l =
    let (map, at, size, large, version) =
      cmd_loadbin_parts p text req s modern (omega (arith, l.load_size, l.detected))
        (omega (arith, l.load_size, l.in_ram)) in
    record {
      at_base = at ∙ l.load_address;
      of_size = size ∙ l.load_size;
      large_chunks = large;
      modern = rw version modern;
      is_map = rw map (map_clear_all-IsMap p s.bin_map is_map);
      held = λ j off set lo hi h. absurd (
          false≢true (
            sym (map_test-map_clear_all p j s.bin_map (omega (arith, l.in_ram))) ∙ rw (← map) set));
    }
