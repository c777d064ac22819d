-- ===== src/Client/Upload.antt =====
-- client/common/core/commands.c: receiving a binary. LBIN opens a transfer, PBIN brings a chunk
-- and DBIN asks which chunk is missing. The received chunks are the bits of `bin_info.map`.
use kos_tool.Prelude.{
  ℕ, zero, suc, ◌+◌, ◌-◌, ◌*◌, ◌/◌, ◌%◌, ◌^◌, Bool, true, false, ◌&&◌, ◌||◌, not, Option, none,
  some, List, [], ◌∷◌, ◌++◌, ltb, leb, ◌==◌, if◌then◌else◌, length, drop, min, bit_and, bit_or,
  sub32, add32, mul32,
}
use kos_tool.Divutil.{udiv_const}
use kos_tool.Client.{
  Client, Platform, Request, Event, emit, bb_start, cache_block_purge, disp_info, disp_status,
  write_memory, answer, command_bytes, dctool_major, net_bump_syscall_deadline, be16,
}
use kos_tool.Client.Syscalls.{progexit}
use kos_tool.Client.Syscalls.Calls.{write}
pub mod Bitmap
pub mod Chunks
pub mod Missing
pub mod Transfer
pub mod Complete
pub mod Recovery

-- BIN_INFO_MAP_ENTRIES and BIN_INFO_MAP_BYTES.
abbrev pub bin_info_map_entries : Platform → ℕ
bin_info_map_entries p = (p.max_ram_bytes + 1439) / 1440

abbrev pub bin_info_map_bytes : Platform → ℕ
bin_info_map_bytes p = (bin_info_map_entries p + 63) / 64 * 8

-- The map is a function of the byte's index; behind `bin_info_map_bytes` lies other memory.
unfoldable pub map_clear_all : Platform → (ℕ → ℕ) → ℕ → ℕ
map_clear_all p m i = if ltb i (bin_info_map_bytes p) then 0 else m i

unfoldable pub map_set : ℕ → (ℕ → ℕ) → ℕ → ℕ
map_set index m i = if i == index / 8 then bit_or (m i) (2 ^ (index % 8)) % 256 else m i

unfoldable pub map_test : ℕ → (ℕ → ℕ) → Bool
map_test index m = not (bit_and (m (index / 8)) (2 ^ (index % 8)) == 0)

-- The ids of the three commands, and the texts of the two refusals with the counts written.
abbrev pub legacy_refusal : ℕ
legacy_refusal = 37

abbrev pub size_refusal : ℕ
size_refusal = 25

-- `write(1, …); progexit(-1); bb->start();`. The text lies at `text` in the loader's image.
unfoldable pub refuse : Platform → ℕ → ℕ → Client → Client
refuse p text count s = emit bb_start (progexit 0xffff_ffff (write p 1 text count s).0)

-- The largest size that the size check lets through.
abbrev pub size_limit : Platform → Client → ℕ
size_limit p s =
    if ltb (dctool_major s) 2
    then bin_info_map_entries p * 1024
    else min p.detect_ram_size p.max_ram_bytes

abbrev pub announce : Client → Client
announce s = if s.booted then s else emit disp_info s

abbrev pub cacheable : ℕ → Bool
cacheable address = not (address / 2 ^ 29 == 5) && not (address / 2 ^ 29 == 7)

-- From `map_clear_all` on.
unfoldable pub open_transfer : Platform → Request → Client → Client
open_transfer p req s =
    let ready = record s {
      bin_map = map_clear_all p s.bin_map;
      our_ip = req.ip_dest;
      cached_dest = cacheable s.load_address;
      payload1024 = ltb (dctool_major s) 2;
    } in
    let acked =
      answer req req.ip_dest req.udp_dest (command_bytes req.id req.address req.size []) ready in
    if acked.running then acked else emit (disp_status "receiving data...") (announce acked)

unfoldable pub cmd_loadbin : Platform → ℕ → Request → Client → Client
unfolding open_transfer
cmd_loadbin p text req s =
    let s1 = record (net_bump_syscall_deadline p s) {
      load_address = req.address;
      load_size = req.size;
    } in
    if ltb (size_limit p s1) req.size
    then refuse p text (if ltb (dctool_major s1) 2 then legacy_refusal else size_refusal) s1
    else open_transfer p req s1

-- The chunk that an address belongs to.
abbrev pub chunk_index : ℕ → Client → ℕ
chunk_index address s =
    if s.payload1024
    then sub32 address s.load_address / 1024
    else udiv_const (sub32 address s.load_address) 1440

-- `index` is an int: from 2 ^ 31 on it is negative.
abbrev pub record_chunk : Platform → ℕ → (ℕ → ℕ) → ℕ → ℕ
record_chunk p index m =
    if ltb index (2 ^ 31) && ltb index (bin_info_map_entries p) then map_set index m else m

unfoldable pub cmd_partbin : Platform → Request → Client → Client
cmd_partbin p req s =
    let s1 = net_bump_syscall_deadline p s in
    let s2 = record s1 { memory = write_memory s1.memory req.address req.size req.data_at } in
    let s3 =
      if s2.cached_dest
      then emit (cache_block_purge req.address (add32 (add32 req.size 31 / 32) 2)) s2
      else s2 in
    record s3 { bin_map = record_chunk p (chunk_index req.address s3) s3.bin_map }

-- `map_index_verify` and `payload_size`.
unfoldable pub chunk_count : Client → ℕ
chunk_count s =
    if ltb (dctool_major s) 2
    then add32 s.load_size 1023 / 1024
    else udiv_const (add32 s.load_size 1439) 1440

abbrev pub chunk_payload : Client → ℕ
chunk_payload s = if ltb (dctool_major s) 2 then 1024 else 1440

-- `for(i = 0; i < n; i++) if(!map_test(i)) break;`, from `i` with `rounds` left.
unfoldable pub first_missing : ℕ → ℕ → (ℕ → ℕ) → ℕ
first_missing zero i m = i
first_missing (suc rounds) i m =
    let later = first_missing rounds (i + 1) m in if map_test i m then later else i

-- The answer's address and size.
unfoldable pub missing_range : Client → ℕ × ℕ
missing_range s =
    let i = first_missing (chunk_count s) 0 s.bin_map in
    if i == chunk_count s then (0, 0) else (
      add32 s.load_address (mul32 i (chunk_payload s)),
      min (sub32 s.load_size (mul32 i (chunk_payload s))) (chunk_payload s),
    )

unfoldable pub cmd_donebin : Platform → Request → Client → Client
cmd_donebin p req s =
    let s1 = net_bump_syscall_deadline p s in
    let (address, size) = missing_range s1 in
    let acked = answer req req.ip_dest req.udp_dest (command_bytes req.id address size []) s1 in
    if acked.running
    then acked
    else if first_missing (chunk_count s1) 0 s1.bin_map == chunk_count s1
    then emit (disp_status "idle...") (announce acked)
    else emit (disp_status "receiving data...") (announce acked)
