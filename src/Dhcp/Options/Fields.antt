-- ===== src/Dhcp/Options/Fields.antt =====
-- The options of RFC 2132 as data: what client/common/network/dhcp.c searches, as a list of pads
-- and of fields with a code and bytes, its encoding, and the search in the list.
use kos_tool.Prelude.{
  ℕ, ◌+◌, ◌*◌, ◌<◌, ◌≡◌, Option, none, some, List, [], ◌∷◌, ◌++◌, ◌==◌, if◌then◌else◌, length,
}

pub data Field : Type 0 where
  pad : Field
  field : ℕ → List ℕ → Field

-- The encoding, closed by the end option.
abbrev pub encode : List Field → List ℕ
encode [] = 255 ∷ []
encode (pad ∷ fs) = 0 ∷ encode fs
encode (field code bytes ∷ fs) = code ∷ length bytes ∷ (bytes ++ encode fs)

-- The bytes of the first field with a code.
abbrev pub find : ℕ → List Field → Option (List ℕ)
find opt [] = none
find opt (pad ∷ fs) = find opt fs
find opt (field code bytes ∷ fs) = if code == opt then some bytes else find opt fs

-- Codes 0 and 255 are the pad and the end; a length is a byte; a message type is not empty.
abbrev pub IsField : Field → Type 0
IsField pad = Unit
IsField (field code bytes) =
    (0 < code) × (code < 255) × (length bytes < 256) × (code ≡ 53 → 0 < length bytes)

-- A buffer holds the bytes from an offset on.
abbrev pub HoldsAt : (ℕ → ℕ) → ℕ → List ℕ → Type 0
HoldsAt buf i [] = Unit
HoldsAt buf i (b ∷ bs) = (buf i ≡ b) × HoldsAt buf (i + 1) bs

abbrev pub first_byte : Option (List ℕ) → Option ℕ
first_byte (some (b ∷ bs)) = some b
first_byte _ = none

abbrev pub first_word : Option (List ℕ) → ℕ
first_word (some (a ∷ b ∷ c ∷ d ∷ bs)) = a * 16777216 + b * 65536 + c * 256 + d
first_word _ = 0
