-- ===== src/Dhcp/Options/Filled.antt =====
-- What `kos_net_dhcp_fill_options` of client/common/network/dhcp.c writes, read back.
use kos_tool.Prelude.{
  ℕ, ◌/◌, ◌%◌, ◌^◌, ◌≤◌, ◌<◌, ◌≡◌, refl, ◌∙◌, some, List, [], ◌∷◌, ◌++◌, length, All, ◌==◌,
  if◌then◌else◌, arith, codes, inl, inr, Bool-cases,
}
use kos_tool.Wire.{be32}
use kos_tool.Dhcp.Options.{fill_options, kos_net_dhcp_get_message_type, kos_net_dhcp_get_32bit}
use kos_tool.Dhcp.Options.Fields.{
  Field, field, encode, find, IsField, HoldsAt, first_byte, first_word,
}
use kos_tool.Dhcp.Options.Searches.{dhcp_options_found}

-- The fields after the cookie.
abbrev word_field : ℕ → ℕ → List Field
word_field code value = if value == 0 then [] else field code (be32 value) ∷ []

abbrev sent_fields : List ℕ → ℕ → ℕ → ℕ → List Field
sent_fields bbmac msgtype serverid reqip =
    field 53 ((if msgtype == 0 then 3 else msgtype) ∷ [])
      ∷ field 57 ((1500 / 256 % 256) ∷ (1500 % 256) ∷ [])
      ∷ field 12 (codes "dcload-ip")
      ∷ field 61 (1 ∷ bbmac)
      ∷ field 55 (1 ∷ 3 ∷ 6 ∷ 28 ∷ 26 ∷ [])
      ∷ word_field 54 serverid
    ++ word_field 50 reqip

fill_options-encode :
    (a b c d e f msgtype serverid reqip : ℕ)
    → fill_options (a ∷ b ∷ c ∷ d ∷ e ∷ f ∷ []) msgtype serverid reqip
      ≡ (0x63 ∷ 0x82 ∷ 0x53 ∷ 0x63 ∷ [])
        ++ encode (sent_fields (a ∷ b ∷ c ∷ d ∷ e ∷ f ∷ []) msgtype serverid reqip)
unfolding fill_options
fill_options-encode a b c d e f msgtype serverid reqip = elim (Bool-cases (serverid == 0)) [
  | inl h ↦ elim (Bool-cases (reqip == 0)) [ inl r ↦ rw (h, r) refl | inr r ↦ rw (h, r) refl ]
  | inr h ↦ elim (Bool-cases (reqip == 0)) [ inl r ↦ rw (h, r) refl | inr r ↦ rw (h, r) refl ]
]

module _ (a b c d e f msgtype serverid reqip : ℕ) where
  abbrev fields : List Field
  fields = sent_fields (a ∷ b ∷ c ∷ d ∷ e ∷ f ∷ []) msgtype serverid reqip

  find_type : first_byte (find 53 fields) ≡ some (if msgtype == 0 then 3 else msgtype)
  find_type = refl

  -- In each of the four shapes that the two optional words give.
  fields_found :
      serverid < 2 ^ 32
      → reqip < 2 ^ 32
      → All IsField fields
        × (first_word (find 54 fields) ≡ serverid)
        × (first_word (find 50 fields) ≡ reqip)
        × (length (encode fields) ≤ 60)
  fields_found small_id small_ip = elim (Bool-cases (serverid == 0)) [
    | inl h ↦ elim (Bool-cases (reqip == 0)) [
      | inl r ↦ rw (h, r) (ground arith)
      | inr r ↦ rw (h, r) (ground arith)
    ]
    | inr h ↦ elim (Bool-cases (reqip == 0)) [
      | inl r ↦ rw (h, r) (ground arith)
      | inr r ↦ rw (h, r) (ground arith)
    ]
  ]

  -- For an address of six bytes, words of 32 bits and a packet of 300 bytes or more: what the
  -- client writes into its options is at most 64 bytes and is found by the searches: the message
  -- type, with 3 for a renewal, the server's id and the requested address, 0 where they are left
  -- out.
  pub fill_options_found :
      (buf : ℕ → ℕ) (len : ℕ)
      → serverid < 2 ^ 32
      → reqip < 2 ^ 32
      → HoldsAt buf 0 (fill_options (a ∷ b ∷ c ∷ d ∷ e ∷ f ∷ []) msgtype serverid reqip)
      → 300 ≤ len
      → (length (fill_options (a ∷ b ∷ c ∷ d ∷ e ∷ f ∷ []) msgtype serverid reqip) ≤ 64)
        × (kos_net_dhcp_get_message_type buf len ≡ some (if msgtype == 0 then 3 else msgtype))
        × (kos_net_dhcp_get_32bit buf 54 len ≡ serverid)
        × (kos_net_dhcp_get_32bit buf 50 len ≡ reqip)
  fill_options_found buf len small_id small_ip held room =
      let whole = fill_options-encode a b c d e f msgtype serverid reqip in
      let at = rw whole at held in
      let (ok, id, ip, short) = fields_found small_id small_ip in
      let server =
        dhcp_options_found buf len 54 fields ok (omega arith) (omega arith) at.1.1.1.1
          (omega arith) in
      let requested =
        dhcp_options_found buf len 50 fields ok (omega arith) (omega arith) at.1.1.1.1
          (omega arith) in
      (rw whole (omega arith), server.0 ∙ find_type, server.1 ∙ id, requested.1 ∙ ip)
