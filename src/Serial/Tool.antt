-- ===== src/Serial/Tool.antt =====
-- The tool's side: host/src/transport/serial.c, and the helpers of host/src/console.c that repeat
-- its blocks for the system calls.
use kos_tool.Prelude.{
  ℕ, zero, suc, ◌+◌, ◌*◌, ◌/◌, ◌%◌, ◌^◌, Bool, Option, none, some, List, [], ◌∷◌, ◌++◌, length,
  take, drop, ltb, ◌==◌, if◌then◌else◌, sub32,
}
use kos_tool.Serial.Io.{Io, ret, stuck, ◌>>=◌, ◌>>◌, put_byte, get_byte, put_all, get_all}
use kos_tool.Serial.Loader.{
  Lzo, xor_sum, serial_data_uncompressed, serial_data_compressed, serial_data_good, serial_data_bad,
}

abbrev pub serial_buffer_size : ℕ
serial_buffer_size = 16384

abbrev pub word : ℕ → ℕ → ℕ → ℕ → ℕ
word b0 b1 b2 b3 = b0 + b1 * 2 ^ 8 + b2 * 2 ^ 16 + b3 * 2 ^ 24

-- The result is whether the echo is the value; a mismatch is only reported.
unfoldable pub send_uint : ℕ → Io Bool
send_uint value = do
  put_byte (value % 256)
  put_byte (value / 2 ^ 8 % 256)
  put_byte (value / 2 ^ 16 % 256)
  put_byte (value / 2 ^ 24 % 256)
  e0 ← get_byte
  e1 ← get_byte
  e2 ← get_byte
  e3 ← get_byte
  ret (word e0 e1 e2 e3 == value)

unfoldable pub recv_uint : Io ℕ
recv_uint = do b0 ← get_byte; b1 ← get_byte; b2 ← get_byte; b3 ← get_byte; ret (word b0 b1 b2 b3)

-- `while(ack != SERIAL_DATA_GOOD)`, on fuel.
unfoldable pub send_packed : ℕ → List ℕ → Io (Unit {0})
send_packed zero buffer = stuck
send_packed (suc fuel) buffer = do
  put_all buffer
  put_byte (xor_sum buffer 0)
  ack ← get_byte
  if ack == serial_data_good then ret tt else send_packed fuel buffer

unfoldable pub send_chunk : Lzo → ℕ → List ℕ → Io (Unit {0})
send_chunk lzo tries chunk =
    let buffer = lzo.compress chunk in
    if ltb (length buffer) (length chunk)
    then (do put_byte serial_data_compressed; send_uint (length buffer); send_packed tries buffer)
    else (do
      put_byte serial_data_uncompressed
      send_uint (length chunk)
      put_all chunk
      put_byte (xor_sum chunk 0)
      ack ← get_byte
      ret tt)

-- The loop over chunks of `SERIAL_BUFFER_SIZE` bytes; `tries` bounds the answers to a chunk.
unfoldable pub send_chunks : Lzo → ℕ → ℕ → List ℕ → Io (Unit {0})
send_chunks lzo tries fuel [] = ret tt
send_chunks lzo tries zero (b ∷ bytes) = stuck
send_chunks lzo tries (suc fuel) (b ∷ bytes) = do
  send_chunk lzo tries (take serial_buffer_size (b ∷ bytes))
  send_chunks lzo tries fuel (drop serial_buffer_size (b ∷ bytes))

unfoldable pub lzo_send_data : Lzo → ℕ → List ℕ → Io (Unit {0})
lzo_send_data lzo tries bytes = send_chunks lzo tries (length bytes) bytes

-- A block of the loader's: what it appends to the buffer, `none` where nothing.
unfoldable pub recv_uncompressed : ℕ → Io (Option (List ℕ))
recv_uncompressed size = do
  bytes ← get_all size
  sum ← get_byte
  put_byte serial_data_good
  ret (some bytes)

unfoldable pub recv_compressed : Lzo → ℕ → Io (Option (List ℕ))
recv_compressed lzo size = do
  packed ← get_all size
  sum ← get_byte
  put_byte (elim (lzo.decompress packed) [ none ↦ serial_data_bad | some b ↦ serial_data_good ])
  ret (lzo.decompress packed)

unfoldable pub recv_block : Lzo → Io (Option (List ℕ))
recv_block lzo = do
  type ← get_byte
  size ← recv_uint
  if type == serial_data_uncompressed
      then recv_uncompressed size
      else if type == serial_data_compressed
      then recv_compressed lzo size
      else ret none

-- `total -= size` is unsigned: it wraps where a block is longer than what is left.
unfoldable pub lzo_recv_data : Lzo → ℕ → ℕ → Io (List ℕ)
lzo_recv_data lzo fuel zero = ret []
lzo_recv_data lzo zero (suc total) = stuck
lzo_recv_data lzo (suc fuel) (suc total) = do
  block ← recv_block lzo
  elim block [
    | none ↦ lzo_recv_data lzo fuel (suc total)
    | some bytes ↦ (do
      rest ← lzo_recv_data lzo fuel (sub32 (suc total) (length bytes))
      ret (bytes ++ rest))
  ]
