-- ===== src/Serial/Loader.antt =====
-- The loader's side: client/common/serial/serial_transport.c. What a transfer writes to memory is
-- its result; LZO is a parameter.
use kos_tool.Prelude.{
  ℕ, zero, suc, ◌+◌, ◌-◌, ◌*◌, ◌/◌, ◌%◌, ◌^◌, bit_xor, Bool, Option, none, some, List, [], ◌∷◌,
  ◌++◌, length, take, drop, ltb, leb, ◌==◌, if◌then◌else◌, ◌≡◌,
}
use kos_tool.Serial.Io.{Io, ret, stuck, ◌>>=◌, ◌>>◌, put_byte, get_byte, put_all, get_all}

-- `lzo1x_1_compress` and `lzo1x_decompress`: the bytes, `none` for an error.
pub record Lzo : Type 0 where
  pub compress : List ℕ → List ℕ
  pub decompress : List ℕ → Option (List ℕ)

-- What the library promises of its two functions.
pub record IsLzo (lzo : Lzo) : Type 0 where
  pub round_trip : (bytes : List ℕ) → lzo.decompress (lzo.compress bytes) ≡ some bytes

unfoldable pub put_uint : ℕ → Io (Unit {0})
put_uint val = do
  put_byte (val % 256)
  put_byte (val / 2 ^ 8 % 256)
  put_byte (val / 2 ^ 16 % 256)
  put_byte (val / 2 ^ 24 % 256)

-- `retval += byte << 24`, on 32 bits.
abbrev pub add_top : ℕ → ℕ → ℕ
add_top retval byte = (retval + byte * 2 ^ 24) % 2 ^ 32

unfoldable pub get_uint : Io ℕ
get_uint = do
  b0 ← get_byte
  b1 ← get_byte
  b2 ← get_byte
  b3 ← get_byte
  let retval = add_top (add_top (add_top (add_top 0 b0 / 2 ^ 8) b1 / 2 ^ 8) b2 / 2 ^ 8) b3
  put_byte (retval % 256)
  put_byte (retval / 2 ^ 8 % 256)
  put_byte (retval / 2 ^ 16 % 256)
  put_byte (retval / 2 ^ 24 % 256)
  ret retval

-- The exclusive or of the bytes.
abbrev pub xor_sum : List ℕ → ℕ → ℕ
xor_sum [] sum = sum
xor_sum (b ∷ bs) sum = xor_sum bs (bit_xor sum b)

-- 'U', 'C', 'G' and 'B'.
abbrev pub serial_data_uncompressed : ℕ
serial_data_uncompressed = b'U'

abbrev pub serial_data_compressed : ℕ
serial_data_compressed = b'C'

abbrev pub serial_data_good : ℕ
serial_data_good = b'G'

abbrev pub serial_data_bad : ℕ
serial_data_bad = b'B'

-- The result is whether the tool answered 'G'.
unfoldable pub send_data_block_uncompressed : List ℕ → Io Bool
send_data_block_uncompressed bytes = do
  put_byte serial_data_uncompressed
  put_uint (length bytes)
  put_all bytes
  put_byte (xor_sum bytes 0)
  data_byte ← get_byte
  ret (data_byte == serial_data_good)

-- `while(!send_data_block_uncompressed(...))`, on fuel.
unfoldable pub send_until_good : ℕ → List ℕ → Io (Unit {0})
send_until_good zero bytes = stuck
send_until_good (suc fuel) bytes = do
  good ← send_data_block_uncompressed bytes
  (if good then ret tt else send_until_good fuel bytes)

-- `while(data != 'G')`, on fuel.
unfoldable pub send_packed : ℕ → List ℕ → Io (Unit {0})
send_packed zero packed = stuck
send_packed (suc fuel) packed = do
  put_all packed
  put_byte (xor_sum packed 0)
  data_byte ← get_byte
  (if data_byte == serial_data_good then ret tt else send_packed fuel packed)

unfoldable pub send_piece : Lzo → ℕ → List ℕ → Io (Unit {0})
send_piece lzo fuel piece =
    let packed = lzo.compress piece in
    if ltb (length packed) (length piece)
    then (do put_byte serial_data_compressed; put_uint (length packed); send_packed fuel packed)
    else send_until_good fuel piece

-- The loop over pieces of 8192 bytes; `tries` bounds the answers to a piece.
unfoldable pub send_pieces : Lzo → ℕ → ℕ → List ℕ → Io (Unit {0})
send_pieces lzo tries fuel [] = ret tt
send_pieces lzo tries zero (b ∷ bytes) = stuck
send_pieces lzo tries (suc fuel) (b ∷ bytes) = do
  send_piece lzo tries (take 8192 (b ∷ bytes))
  send_pieces lzo tries fuel (drop 8192 (b ∷ bytes))

-- `wrkmem` is whether the work memory is there.
unfoldable pub send_data_block_compressed : Lzo → Bool → ℕ → List ℕ → Io (Unit {0})
send_data_block_compressed lzo wrkmem tries bytes =
    if wrkmem
    then if ltb (length bytes) 19
      then (do send_data_block_uncompressed bytes; ret tt)
      else send_pieces lzo tries (length bytes) bytes
    else (do send_data_block_uncompressed bytes; ret tt)

abbrev pub left_of : ℕ → ℕ → ℕ
left_of total size = if leb total size then 0 else total - size

-- The rest of a block after its type and size: what it stores, `none` where it stores nothing. The
-- checksum is read and not compared.
unfoldable pub load_uncompressed : ℕ → Io (Option (List ℕ))
load_uncompressed size = do
  bytes ← get_all size
  sum ← get_byte
  put_byte serial_data_good
  ret (some bytes)

unfoldable pub load_compressed : Lzo → ℕ → Io (Option (List ℕ))
load_compressed lzo size = do
  packed ← get_all size
  sum ← get_byte
  put_byte (elim (lzo.decompress packed) [ none ↦ serial_data_bad | some b ↦ serial_data_good ])
  ret (lzo.decompress packed)

unfoldable pub load_block : Lzo → Io (Option (List ℕ))
load_block lzo = do
  type ← get_byte
  size ← get_uint
  if type == serial_data_uncompressed
      then load_uncompressed size
      else if type == serial_data_compressed
      then load_compressed lzo size
      else ret none

-- The bytes that are stored from `addr` on; each block takes one unit of fuel.
unfoldable pub load_data_block_general : Lzo → ℕ → ℕ → Io (List ℕ)
load_data_block_general lzo fuel zero = ret []
load_data_block_general lzo zero (suc total) = stuck
load_data_block_general lzo (suc fuel) (suc total) = do
  block ← load_block lzo
  elim block [
    | none ↦ load_data_block_general lzo fuel (suc total)
    | some bytes ↦ (do
      rest ← load_data_block_general lzo fuel (left_of (suc total) (length bytes))
      ret (bytes ++ rest))
  ]
