-- ===== src/Wire/Bytes.antt =====
-- Byte strings of include/kosload/protocol.h: comparing them, and a word and its four bytes.
use kos_tool.Prelude.{ℕ, ◌≡◌, refl, true, List, [], ◌∷◌, ◌++◌, arith, length, IsU32}
use kos_tool.Wire.{same_bytes, be32, get_be32}

pub get_be32-be32 : (v : ℕ) (rest : List ℕ) → IsU32 v → get_be32 (be32 v ++ rest) ≡ v
get_be32-be32 v rest h = omega arith

pub same_bytes_refl : (a b : List ℕ) → same_bytes (length a) a (a ++ b) ≡ true
unfolding same_bytes
same_bytes_refl [] b = refl
same_bytes_refl (x ∷ a) b = ground (arith, same_bytes_refl a b)
