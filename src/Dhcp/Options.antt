-- ===== src/Dhcp/Options.antt =====
-- The options area of a DHCP packet: the two searches and the writer of
-- client/common/network/dhcp.c.
use kos_tool.Prelude.{
  ℕ, zero, suc, ◌+◌, ◌-◌, ◌*◌, ◌/◌, ◌%◌, ◌^◌, Bool, true, false, not, Option, none, some, List, [],
  ◌∷◌, ◌++◌, ltb, leb, ◌==◌, if◌then◌else◌, codes,
}
use kos_tool.Wire.{be32}
pub mod Fields
pub mod Searches
pub mod Within
pub mod Filled

abbrev pub dhcp_h_len : ℕ
dhcp_h_len = 236

abbrev pub dhcp_option_message_type : ℕ
dhcp_option_message_type = 53

abbrev pub dhcp_option_server_id : ℕ
dhcp_option_server_id = 54

abbrev pub dhcp_option_req_ip_addr : ℕ
dhcp_option_req_ip_addr = 50

abbrev pub dhcp_option_ip_lease_time : ℕ
dhcp_option_ip_lease_time = 51

-- Where the searches go on after an option that they skip.
abbrev pub next_option : (ℕ → ℕ) → ℕ → ℕ
next_option options i = if options i == 0 then i + 1 else i + (options (i + 1) + 2)

-- The loop of `kos_net_dhcp_get_message_type`; `none` is its -1. Each pass advances, so `len`
-- passes are enough.
unfoldable pub message_type_from : ℕ → (ℕ → ℕ) → ℕ → ℕ → Option ℕ
message_type_from zero options len i = none
message_type_from (suc fuel) options len i =
    let rest = message_type_from fuel options len (next_option options i) in
    if ltb i len
    then if options i == dhcp_option_message_type
      then if ltb (i + 2) len then some (options (i + 2)) else none
      else if options i == 0
      then rest
      else if options i == 255
      then none
      else if leb len (i + 1)
      then none
      else rest
    else none

-- `len` is a signed int after the subtraction; below 4 it ends the loop at once, as 0 does.
unfoldable pub kos_net_dhcp_get_message_type : (ℕ → ℕ) → ℕ → Option ℕ
kos_net_dhcp_get_message_type options len = message_type_from len options (len - dhcp_h_len) 4

-- The word of four bytes, most significant first, at an offset.
abbrev pub word_at : (ℕ → ℕ) → ℕ → ℕ
word_at options i =
    options i * 2 ^ 24 + options (i + 1) * 2 ^ 16 + options (i + 2) * 2 ^ 8 + options (i + 3)

-- The loop of `kos_net_dhcp_get_32bit`.
unfoldable pub word_from : ℕ → (ℕ → ℕ) → ℕ → ℕ → ℕ → ℕ
word_from zero options opt len i = 0
word_from (suc fuel) options opt len i =
    let rest = word_from fuel options opt len (next_option options i) in
    if ltb i len
    then if options i == opt
      then if leb len (i + 5)
        then 0
        else if ltb (options (i + 1)) 4
        then 0
        else word_at options (i + 2)
      else if options i == 0
      then rest
      else if options i == 255
      then 0
      else if leb len (i + 1)
      then 0
      else rest
    else 0

unfoldable pub kos_net_dhcp_get_32bit : (ℕ → ℕ) → ℕ → ℕ → ℕ
kos_net_dhcp_get_32bit options opt len = word_from len options opt (len - dhcp_h_len) 4

-- An option of four bytes, left out when its value is 0.
abbrev pub word_option : ℕ → ℕ → List ℕ
word_option code value = if value == 0 then [] else code ∷ 4 ∷ be32 value

-- The bytes that `kos_net_dhcp_fill_options` writes to `req->options`; 0 marks a renewal.
unfoldable pub fill_options : List ℕ → ℕ → ℕ → ℕ → List ℕ
fill_options bbmac msgtype serverid reqip =
    (0x63 ∷ 0x82 ∷ 0x53 ∷ 0x63 ∷ [])
    ++ (dhcp_option_message_type ∷ 1 ∷ (if msgtype == 0 then 3 else msgtype) ∷ [])
    ++ (57 ∷ 2 ∷ (1500 / 256 % 256) ∷ (1500 % 256) ∷ [])
    ++ (12 ∷ 9 ∷ codes "dcload-ip")
    ++ (61 ∷ 7 ∷ 1 ∷ bbmac)
    ++ (55 ∷ 5 ∷ 1 ∷ 3 ∷ 6 ∷ 28 ∷ 26 ∷ [])
    ++ word_option dhcp_option_server_id serverid
    ++ word_option dhcp_option_req_ip_addr reqip
    ++ (255 ∷ [])
