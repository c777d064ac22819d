-- ===== src/Dhcp/Options/Searches.antt =====
-- The searches of client/common/network/dhcp.c against the search in a list of fields.
use kos_tool.Prelude.{
  ℕ, zero, suc, ◌+◌, ◌-◌, ◌≤◌, ◌<◌, ◌≡◌, ◌≢◌, some, List, [], ◌∷◌, ◌++◌, length, All, ◌==◌, arith,
  length-append, inl, inr, Bool-cases,
}
use kos_tool.Dhcp.Options.{
  message_type_from, kos_net_dhcp_get_message_type, word_from, kos_net_dhcp_get_32bit,
}
use kos_tool.Dhcp.Options.Fields.{
  Field, pad, field, encode, find, IsField, HoldsAt, first_byte, first_word,
}

pub HoldsAt-append :
    (buf : ℕ → ℕ) (i : ℕ) (xs ys : List ℕ)
    → HoldsAt buf i (xs ++ ys)
    → HoldsAt buf i xs × HoldsAt buf (i + length xs) ys
HoldsAt-append buf i [] ys h = ground arith
HoldsAt-append buf i (x ∷ xs) ys h = ground (arith, HoldsAt-append buf (i + 1) xs ys h.1)

encode_nonempty : (fs : List Field) → 0 < length (encode fs)
encode_nonempty [] = omega arith
encode_nonempty (pad ∷ fs) = omega arith
encode_nonempty (field code bytes ∷ fs) = omega arith

module _ (options : ℕ → ℕ) (len : ℕ) where
  type_skips :
      (fuel i code n : ℕ)
      → options i ≡ code
      → options (i + 1) ≡ n
      → 0 < code
      → code < 255
      → code ≢ 53
      → i + 1 < len
      → message_type_from (suc fuel) options len i
        ≡ message_type_from fuel options len (i + 1 + 1 + n)
  unfolding message_type_from
  type_skips fuel i code n here width low high other room = ground arith

  type_found :
      (fuel i b : ℕ)
      → options i ≡ 53
      → options (i + 1 + 1) ≡ b
      → i + 1 + 1 < len
      → message_type_from (suc fuel) options len i ≡ some b
  unfolding message_type_from
  type_found fuel i b here value room = ground arith

  message_type_from-encode :
      (fs : List Field) (fuel i : ℕ)
      → All IsField fs
      → HoldsAt options i (encode fs)
      → i + length (encode fs) ≤ len
      → length (encode fs) ≤ fuel
      → message_type_from fuel options len i ≡ first_byte (find 53 fs)
  unfolding message_type_from
  message_type_from-encode fs zero i ok h room enough = absurd (omega (arith, encode_nonempty fs))
  message_type_from-encode [] (suc fuel) i ok h room enough = ground arith
  message_type_from-encode (pad ∷ fs) (suc fuel) i ok h room enough =
      ground (arith, message_type_from-encode fs fuel (i + 1) ok.1 h.1, encode_nonempty fs)
  message_type_from-encode (field code [] ∷ fs) (suc fuel) i ok h room enough = ground (
    arith,
    type_skips fuel i code 0 h.0 h.1.0,
    message_type_from-encode fs fuel (i + 1 + 1 + 0) ok.1,
    encode_nonempty fs,
  )
  message_type_from-encode (field code (b ∷ bs) ∷ fs) (suc fuel) i ok h room enough =
      elim (Bool-cases (code == 53)) [
        | inl e ↦ ground (arith, type_found fuel i b)
        | inr e ↦
            let parts = HoldsAt-append options (i + 1 + 1) (b ∷ bs) (encode fs) h.1.1 in
            let room_left = length-append (b ∷ bs) (encode fs) in
            ground (
              arith,
              type_skips fuel i code (suc (length bs)) h.0 h.1.0,
              message_type_from-encode fs fuel (i + 1 + 1 + suc (length bs)) ok.1 parts.1,
              encode_nonempty fs,
              room_left,
            )
      ]

  module _ (opt : ℕ) where
    word_skips :
        (fuel i code n : ℕ)
        → options i ≡ code
        → options (i + 1) ≡ n
        → 0 < code
        → code < 255
        → code ≢ opt
        → i + 1 < len
        → word_from (suc fuel) options opt len i ≡ word_from fuel options opt len (i + 1 + 1 + n)
    unfolding word_from
    word_skips fuel i code n here width low high other room = ground arith

    word_found :
        (fuel i : ℕ) (bytes : List ℕ)
        → options i ≡ opt
        → options (i + 1) ≡ length bytes
        → HoldsAt options (i + 1 + 1) bytes
        → i + 1 + 1 + length bytes < len
        → word_from (suc fuel) options opt len i ≡ first_word (some bytes)
    unfolding word_from
    word_found fuel i [] here width held room = ground arith
    word_found fuel i (a ∷ []) here width held room = ground arith
    word_found fuel i (a ∷ b ∷ []) here width held room = ground arith
    word_found fuel i (a ∷ b ∷ c ∷ []) here width held room = ground arith
    word_found fuel i (a ∷ b ∷ c ∷ d ∷ bytes) here width held room = ground arith

    word_from-encode :
        (fs : List Field) (fuel i : ℕ)
        → All IsField fs
        → 0 < opt
        → opt < 255
        → HoldsAt options i (encode fs)
        → i + length (encode fs) ≤ len
        → length (encode fs) ≤ fuel
        → word_from fuel options opt len i ≡ first_word (find opt fs)
    unfolding word_from
    word_from-encode fs zero i ok low high h room enough =
        absurd (omega (arith, encode_nonempty fs))
    word_from-encode [] (suc fuel) i ok low high h room enough = ground arith
    word_from-encode (pad ∷ fs) (suc fuel) i ok low high h room enough =
        ground (arith, word_from-encode fs fuel (i + 1) ok.1 low high h.1, encode_nonempty fs)
    word_from-encode (field code bytes ∷ fs) (suc fuel) i ok low high h room enough =
        let parts = HoldsAt-append options (i + 1 + 1) bytes (encode fs) h.1.1 in
        let room_left = length-append bytes (encode fs) in
        elim (Bool-cases (code == opt)) [
          | inl e ↦ ground (arith, word_found fuel i bytes, encode_nonempty fs, room_left)
          | inr e ↦ ground (
            arith,
            word_skips fuel i code (length bytes) h.0 h.1.0,
            word_from-encode fs fuel (i + 1 + 1 + length bytes) ok.1 low high parts.1,
            encode_nonempty fs,
            room_left,
          )
        ]

-- In a packet that holds a list of well-formed options and pads, closed by the end option and
-- within the packet's length, the searches find what the list holds: the first byte of the first
-- message type, and the word of the first option with a code, by the meaning that `first_byte`
-- and `first_word` give.
pub dhcp_options_found :
    (options : ℕ → ℕ) (len opt : ℕ) (fs : List Field)
    → All IsField fs
    → 0 < opt
    → opt < 255
    → HoldsAt options 4 (encode fs)
    → 240 + length (encode fs) ≤ len
    → (kos_net_dhcp_get_message_type options len ≡ first_byte (find 53 fs))
      × (kos_net_dhcp_get_32bit options opt len ≡ first_word (find opt fs))
unfolding kos_net_dhcp_get_message_type kos_net_dhcp_get_32bit
dhcp_options_found options len opt fs ok low high h room = (
  message_type_from-encode options (len - 236) fs len 4 ok h (omega arith) (omega arith),
  word_from-encode options (len - 236) opt fs len 4 ok low high h (omega arith) (omega arith),
)
