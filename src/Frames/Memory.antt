-- ===== src/Frames/Memory.antt =====
-- The receive buffer of client/common/network/net.c as a function of the offset, which the answers
-- are written into, and what a frame leads to. `e` is the byte order of the machine.
use kos_tool.Prelude.{
  ℕ, zero, suc, ◌+◌, ◌-◌, ◌*◌, ◌^◌, Bool, true, ◌&&◌, Option, none, List, [], ltb, leb, ◌==◌,
  get_or, if◌then◌else◌,
}
use kos_tool.Wire.{be32}
use kos_tool.Checksum.{Endian, word, stored}
use kos_tool.Client.{Request}
use kos_tool.Dhcp.{Reply}

-- ETHER_H_LEN and ARP_H_LEN.
abbrev pub ether_h_len : ℕ
ether_h_len = 14

abbrev pub arp_h_len : ℕ
arp_h_len = 28

-- The adapter: its hardware address `bb->mac` and `our_ip`, 0 before there is one.
pub record Adapter : Type 0 where
  pub mac : ℕ → ℕ
  pub our_ip : ℕ

-- Bytes written at `p`, from `source`; memcpy inside the buffer has the buffer from an offset on.
abbrev pub put : (ℕ → ℕ) → ℕ → ℕ → (ℕ → ℕ) → (ℕ → ℕ)
put m p n source q = if leb p q && ltb q (p + n) then source (q - p) else m q

abbrev pub memcpy : (ℕ → ℕ) → ℕ → ℕ → ℕ → (ℕ → ℕ)
memcpy m dest src n = put m dest n (λ i. m (src + i))

-- An address or a 16-bit field, stored.
abbrev pub put_ip : (ℕ → ℕ) → ℕ → ℕ → (ℕ → ℕ)
put_ip m p ip = put m p 4 (λ i. get_or (be32 ip) i 0)

abbrev pub put_word : Endian → (ℕ → ℕ) → ℕ → ℕ → (ℕ → ℕ)
put_word e m p w = put m p 2 (λ i. get_or (stored e w) i 0)

-- ntohs and ntohl of a field.
abbrev pub ntohs_at : (ℕ → ℕ) → ℕ → ℕ
ntohs_at m p = m p * 256 + m (p + 1)

abbrev pub ntohl_at : (ℕ → ℕ) → ℕ → ℕ
ntohl_at m p = m p * 2 ^ 24 + m (p + 1) * 2 ^ 16 + m (p + 2) * 2 ^ 8 + m (p + 3)

-- A field as the machine reads it.
abbrev pub word_at : Endian → (ℕ → ℕ) → ℕ → ℕ
word_at e m p = word e (m p) (m (p + 1))

-- memcmp over `n` bytes.
unfoldable pub same_at : ℕ → (ℕ → ℕ) → ℕ → (ℕ → ℕ) → ℕ → Bool
same_at zero m p other i = true
same_at (suc n) m p other i = (m p == other i) && same_at n m (p + 1) other (i + 1)

-- A datagram for the handlers: a DHCP reply, or a command and whether it is for this adapter.
pub data Datagram : Type 0 where
  dhcp_reply : Reply → Datagram
  command : Bool → Request → Datagram

-- What a frame leads to: the buffer afterwards, the frames sent by their bytes and their length,
-- and what a handler gets.
pub record Outcome : Type 0 where
  pub pkt : ℕ → ℕ
  pub sent : List ((ℕ → ℕ) × ℕ)
  pub handed : Option Datagram

abbrev pub silent : (ℕ → ℕ) → Outcome
silent m = record { pkt = m; sent = []; handed = none }
