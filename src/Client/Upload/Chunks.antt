-- ===== src/Client/Upload/Chunks.antt =====
-- Which chunk of a transfer an address belongs to, and how many chunks there are
-- (client/common/core/commands.c, for a host of version 2 or later: chunks of 1440 bytes).
use kos_tool.Prelude.{ℕ, ◌+◌, ◌*◌, ◌/◌, ◌^◌, ◌≤◌, ◌<◌, ◌≡◌, arith, false, ltb, IsU32, sub32, add32}
use kos_tool.Divutil.Bounds.{udiv_const_near, udiv_const_mul}
use kos_tool.Client.{Client, dctool_major}
use kos_tool.Client.Upload.{chunk_index, chunk_count}

offset_back : (base off : ℕ) → IsU32 base → IsU32 off → sub32 (add32 base off) base ≡ off
offset_back base off hb ho = omega arith

-- For chunks of 1440 bytes at 32-bit offsets, the address of chunk `k` has the index `k`, also
-- where the address wraps.
pub chunk_index_lem :
    (s : Client) (k : ℕ)
    → s.payload1024 ≡ false
    → IsU32 s.load_address
    → IsU32 (k * 1440)
    → chunk_index (add32 s.load_address (k * 1440)) s ≡ k
chunk_index_lem s k modern base small =
    rw (modern, offset_back s.load_address (k * 1440) base small)
      (udiv_const_mul k 1440 small (omega arith))

-- For a host of version 2 or later and sizes below 2 ^ 32 - 1439, the count that DBIN scans is
-- the number of chunks, or one more.
pub chunk_count_near :
    (s : Client)
    → ltb (dctool_major s) 2 ≡ false
    → s.load_size + 1439 < 2 ^ 32
    → ((s.load_size + 1439) / 1440 ≤ chunk_count s)
      × (chunk_count s ≤ (s.load_size + 1439) / 1440 + 1)
unfolding chunk_count
chunk_count_near s modern small =
    let sum : add32 s.load_size 1439 ≡ s.load_size + 1439 = omega arith in
    rw (modern, sum) (udiv_const_near (s.load_size + 1439) 1440 small (omega arith))
