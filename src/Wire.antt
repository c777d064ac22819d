-- ===== src/Wire.antt =====
-- include/kosload/protocol.h: command ids, the command header, the KSQ0 trailer, byte order.
-- A byte string is a list of numbers below 256, and a 32-bit value a number below 2 ^ 32.
use kos_tool.Prelude.{
  ℕ, zero, suc, ◌+◌, ◌-◌, ◌*◌, ◌/◌, ◌%◌, ◌^◌, Bool, true, false, ◌&&◌, List, [], ◌∷◌, ◌++◌, ◌==◌,
  get_or, ltb, if◌then◌else◌,
}
pub mod Bytes

-- memcmp(a, b, n) == 0 over the first `n` bytes; a byte past the end of a list reads as none.
unfoldable pub same_bytes : ℕ → List ℕ → List ℕ → Bool
same_bytes zero a b = true
same_bytes (suc n) (x ∷ a) (y ∷ b) = (x == y) && same_bytes n a b
same_bytes (suc n) _ _ = false

-- The four bytes of a word, most significant first, as the shifts and casts write them.
abbrev pub be32 : ℕ → List ℕ
be32 v = (v / 2 ^ 24 % 256) ∷ (v / 2 ^ 16 % 256) ∷ (v / 2 ^ 8 % 256) ∷ (v % 256) ∷ []

-- The word at the front of a byte string. The bytes do not overlap, so `|` is a sum.
abbrev pub get_be32 : List ℕ → ℕ
get_be32 b = get_or b 0 0 * 2 ^ 24 + get_or b 1 0 * 2 ^ 16 + get_or b 2 0 * 2 ^ 8 + get_or b 3 0

-- NET_SEQ_MAGIC "KSQ0" and NET_INLINE_RET_MAGIC "KIR0".
abbrev pub net_seq_magic : List ℕ
net_seq_magic = b'K' ∷ b'S' ∷ b'Q' ∷ b'0' ∷ []

abbrev pub net_inline_ret_magic : List ℕ
net_inline_ret_magic = b'K' ∷ b'I' ∷ b'R' ∷ b'0' ∷ []

abbrev pub net_seq_trailer_len : ℕ
net_seq_trailer_len = 8

-- The trailer, magic and big-endian number, that closes a tagged payload.
abbrev pub seq_trailer : ℕ → List ℕ
seq_trailer seq = net_seq_magic ++ be32 seq

-- NET_PAYLOAD_SIZE and its legacy form, NET_COMMAND_LEN.
abbrev pub net_payload_size : ℕ
net_payload_size = 1440

abbrev pub net_legacy_payload_size : ℕ
net_legacy_payload_size = 1024

abbrev pub command_len : ℕ
command_len = 12
