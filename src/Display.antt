-- ===== src/Display.antt =====
-- Texts of client/common/network/entry.c, and the parsing of the configured address in
-- client/common/network/network_transport.c. A text is the list of its bytes, without the zero
-- that ends it.
use kos_tool.Prelude.{
  ℕ, zero, suc, ◌+◌, ◌-◌, ◌*◌, ◌/◌, ◌%◌, ◌^◌, Bool, true, false, List, [], ◌∷◌, ◌++◌, ltb, leb,
  ◌==◌, if◌then◌else◌, codes, get_or, sub32, mul32,
}
use kos_tool.Divutil.{udiv_const, umod_const}
pub mod Address
pub mod Decimal

-- One part of a dotted address.
unfoldable pub octet : ℕ → List ℕ
octet val =
    if leb 100 val
    then (b'0' + udiv_const val 100)
      ∷ (b'0' + udiv_const (umod_const val 100) 10)
      ∷ (b'0' + umod_const (umod_const val 100) 10)
      ∷ []
    else if leb 10 val
    then (b'0' + udiv_const val 10) ∷ (b'0' + umod_const val 10) ∷ []
    else (b'0' + val) ∷ []

-- The parts from part `i` down to part 0.
unfoldable pub parts_from : ℕ → ℕ → List ℕ
unfolding octet
parts_from zero ip = octet (ip % 256)
parts_from (suc i) ip = octet (ip / 2 ^ (8 * suc i) % 256) ++ (b'.' ∷ parts_from i ip)

unfoldable pub ip_to_string : ℕ → List ℕ
unfolding parts_from
ip_to_string ip = parts_from 3 ip

abbrev pub hex : ℕ → ℕ
hex v = get_or (codes "0123456789abcdef") v 0

unfoldable pub mac_to_string : List ℕ → List ℕ
mac_to_string [] = []
mac_to_string (b ∷ []) = hex (b / 16) ∷ hex (b % 16) ∷ []
mac_to_string (b ∷ c ∷ mac) = hex (b / 16) ∷ hex (b % 16) ∷ b':' ∷ mac_to_string (c ∷ mac)

-- The loop of `uint_to_string_dec`: the digits, the last one first, as they lie in `tmp`. The
-- subtraction is unsigned, and a digit is stored as a byte.
unfoldable pub digits_from : ℕ → ℕ → List ℕ
digits_from zero foo = []
digits_from (suc fuel) foo =
    let q = udiv_const foo 10 in
    let rest = digits_from fuel q in
    if foo == 0 then [] else ((b'0' + sub32 foo (mul32 q 10)) % 256) ∷ rest

abbrev pub reverse_onto : List ℕ → List ℕ → List ℕ
reverse_onto [] acc = acc
reverse_onto (x ∷ xs) acc = reverse_onto xs (x ∷ acc)

-- `tmp` has 12 bytes; a number of 32 bits has at most 10 digits.
unfoldable pub uint_to_string_dec : ℕ → List ℕ
uint_to_string_dec foo = if foo == 0 then b'0' ∷ [] else reverse_onto (digits_from 12 foo) []

-- The bytes of `our_ip` in memory, and a byte of them replaced.
abbrev pub update : (ℕ → ℕ) → ℕ → ℕ → (ℕ → ℕ)
update bytes i v = λ j. if j == i then v else bytes j

unfoldable pub parse_ip : List ℕ → ℕ → (ℕ → ℕ) → (ℕ → ℕ)
parse_ip [] i bytes = bytes
parse_ip (c ∷ s) i bytes =
    let (next, after) =
      if c == b'.'
      then ((i + 1) % 256, bytes)
      else (i, update bytes i ((bytes i * 10 % 256 + c + 256 - b'0') % 256)) in
    parse_ip s next after

-- The bytes of a word in memory, and the word that `ntohl` makes of them.
abbrev pub byte_of : Bool → ℕ → ℕ → ℕ
byte_of big_endian v i = if big_endian then v / 2 ^ (8 * (3 - i)) % 256 else v / 2 ^ (8 * i) % 256

abbrev pub network_word : (ℕ → ℕ) → ℕ
network_word bytes = bytes 0 * 2 ^ 24 + bytes 1 * 2 ^ 16 + bytes 2 * 2 ^ 8 + bytes 3

-- `our_ip` after it. An address that is already there stays.
unfoldable pub set_ip_from_string : Bool → List ℕ → ℕ → ℕ
unfolding parse_ip
set_ip_from_string big_endian s our_ip =
    if byte_of big_endian our_ip 3 == 0
    then network_word (parse_ip s 0 (byte_of big_endian our_ip))
    else our_ip
