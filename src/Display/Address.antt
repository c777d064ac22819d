-- ===== src/Display/Address.antt =====
-- The configured address of client/common/network/network_transport.c reads back what
-- client/common/network/entry.c shows.
use kos_tool.Prelude.{
  ℕ, ◌+◌, ◌-◌, ◌*◌, ◌/◌, ◌%◌, ◌^◌, ◌≤◌, ◌<◌, ◌≡◌, refl, sym, ap, ◌∙◌, Bool, true, false, List, [],
  ◌∷◌, ◌++◌, leb, ◌==◌, arith, inl, inr, Bool-cases,
}
use mathlib.Core.Path.{fun_ext}
use mathlib.Core.List.{append-nil}
use native.Mathlib.Nat.{zero-div}
use kos_tool.Divutil.{udiv_const, umod_const, udiv_recip}
use kos_tool.Display.{
  octet, ip_to_string, update, parse_ip, set_ip_from_string, byte_of, network_word,
}

update_twice : (f : ℕ → ℕ) (i v w : ℕ) → update (update f i v) i w ≡ update f i w
update_twice f i v w = fun_ext λ j. ground arith

-- The digits of a part, by its size.
octet_large :
    (v : ℕ)
    → 100 ≤ v
    → v < 256
    → octet v ≡ (48 + v / 100) ∷ (48 + v % 100 / 10) ∷ (48 + v % 10) ∷ []
unfolding octet udiv_const umod_const udiv_recip
octet_large v low high = ground arith

octet_middle : (v : ℕ) → 10 ≤ v → v < 100 → octet v ≡ (48 + v / 10) ∷ (48 + v % 10) ∷ []
unfolding octet udiv_const umod_const udiv_recip
octet_middle v low high = ground arith

octet_small : (v : ℕ) → v < 10 → octet v ≡ (48 + v) ∷ []
unfolding octet
octet_small v high = ground arith

update_at : (f : ℕ → ℕ) (i v : ℕ) → update f i v i ≡ v
update_at f i v = ground arith

-- A digit extends the part that is being read.
parse_digit :
    (rest : List ℕ) (i : ℕ) (bytes : ℕ → ℕ) (d v w : ℕ)
    → d < 10
    → bytes i ≡ v
    → w ≡ v * 10 + d
    → w < 256
    → parse_ip ((48 + d) ∷ rest) i bytes ≡ parse_ip rest i (update bytes i w)
unfolding parse_ip
parse_digit rest i bytes d v w small here sum fits =
    let digit : ((48 + d) == 46) ≡ false = ground arith in
    let value : (bytes i * 10 % 256 + (48 + d) + 256 - 48) % 256 ≡ w = omega (arith, here) in
    rw (digit, value) refl

parse_two :
    (rest : List ℕ) (i : ℕ) (bytes : ℕ → ℕ) (d e w : ℕ)
    → d < 10
    → e < 10
    → w ≡ d * 10 + e
    → bytes i ≡ 0
    → parse_ip ((48 + d) ∷ (48 + e) ∷ rest) i bytes ≡ parse_ip rest i (update bytes i w)
parse_two rest i bytes d e w d_small e_small sum here =
    parse_digit ((48 + e) ∷ rest) i bytes d 0 d d_small here (omega arith) (omega arith)
    ∙ parse_digit rest i (update bytes i d) e d w e_small (update_at bytes i d) sum (omega arith)
    ∙ ap (parse_ip rest i) (update_twice bytes i d w)

parse_three :
    (rest : List ℕ) (i : ℕ) (bytes : ℕ → ℕ) (c d e w : ℕ)
    → d < 10
    → e < 10
    → w ≡ c * 100 + d * 10 + e
    → w < 256
    → bytes i ≡ 0
    → parse_ip ((48 + c) ∷ (48 + d) ∷ (48 + e) ∷ rest) i bytes ≡ parse_ip rest i (update bytes i w)
parse_three rest i bytes c d e w d_small e_small sum fits here =
    let v = c * 10 + d in
    parse_two ((48 + e) ∷ rest) i bytes c d v (omega arith) d_small refl here
    ∙ parse_digit rest i (update bytes i v) e v w e_small (update_at bytes i v) (omega arith) fits
    ∙ ap (parse_ip rest i) (update_twice bytes i v w)

parse_octet :
    (rest : List ℕ) (i : ℕ) (bytes : ℕ → ℕ) (v : ℕ)
    → v < 256
    → bytes i ≡ 0
    → parse_ip (octet v ++ rest) i bytes ≡ parse_ip rest i (update bytes i v)
parse_octet rest i bytes v small here = elim (Bool-cases (leb 100 v)) [
  | inl e ↦ rw (octet_large v (ground arith) small) (
      parse_three rest i bytes (v / 100) (v % 100 / 10) (v % 10) v (omega arith) (omega arith)
        (omega arith) small here)
  | inr e ↦ elim (Bool-cases (leb 10 v)) [
    | inl h ↦
        rw (octet_middle v (ground arith) (ground arith)) (
          parse_two rest i bytes (v / 10) (v % 10) v (ground arith) (omega arith) (omega arith)
            here)
    | inr h ↦
        rw (octet_small v (ground arith))
          (parse_digit rest i bytes v 0 v (ground arith) here (omega arith) small)
  ]
]

parse_point :
    (rest : List ℕ) (i : ℕ) (bytes : ℕ → ℕ)
    → i < 255
    → parse_ip (46 ∷ rest) i bytes ≡ parse_ip rest (i + 1) bytes
unfolding parse_ip
parse_point rest i bytes small = ap (λ j. parse_ip rest j bytes) (omega arith)

parse_part :
    (rest : List ℕ) (i : ℕ) (bytes : ℕ → ℕ) (v : ℕ)
    → v < 256
    → i < 255
    → bytes i ≡ 0
    → parse_ip (octet v ++ (46 ∷ rest)) i bytes ≡ parse_ip rest (i + 1) (update bytes i v)
parse_part rest i bytes v small few here =
    parse_octet (46 ∷ rest) i bytes v small here ∙ parse_point rest i (update bytes i v) few

-- The four parts of an address, into cleared bytes.
parse_address :
    (bytes : ℕ → ℕ) (a b c d : ℕ)
    → a < 256
    → b < 256
    → c < 256
    → d < 256
    → ((j : ℕ) → bytes j ≡ 0)
    → network_word
        (parse_ip (octet a ++ (46 ∷ (octet b ++ (46 ∷ (octet c ++ (46 ∷ octet d)))))) 0 bytes)
      ≡ a * 2 ^ 24 + b * 2 ^ 16 + c * 2 ^ 8 + d
unfolding parse_ip
parse_address bytes a b c d sa sb sc sd clear = ap network_word (
    parse_part _ 0 bytes a sa (omega arith) (clear 0)
    ∙ parse_part _ 1 (update bytes 0 a) b sb (omega arith) (clear 1)
    ∙ parse_part _ 2 (update (update bytes 0 a) 1 b) c sc (omega arith) (clear 2)
    ∙ ap (λ l. parse_ip l 3 (update (update (update bytes 0 a) 1 b) 2 c))
        (sym (append-nil (octet d)))
    ∙ parse_octet [] 3 (update (update (update bytes 0 a) 1 b) 2 c) d sd (clear 3))

byte_of_zero : (big_endian : Bool) (j : ℕ) → byte_of big_endian 0 j ≡ 0
byte_of_zero true j = rw (zero-div (2 ^ (8 * (3 - j)))) refl
byte_of_zero false j = rw (zero-div (2 ^ (8 * j))) refl

-- An address of 32 bits that is written in dotted form is read back the same, in either byte
-- order, into an address that was 0.
pub set_ip_from_string-ip_to_string :
    (big_endian : Bool) (ip : ℕ)
    → ip < 2 ^ 32
    → set_ip_from_string big_endian (ip_to_string ip) 0 ≡ ip
unfolding set_ip_from_string ip_to_string
set_ip_from_string-ip_to_string big_endian ip small = rw (byte_of_zero big_endian 3) (
    parse_address (byte_of big_endian 0) (ip / 16777216 % 256) (ip / 65536 % 256) (ip / 256 % 256)
      (ip % 256) (omega arith) (omega arith) (omega arith) (omega arith) (byte_of_zero big_endian)
    ∙ omega arith)
