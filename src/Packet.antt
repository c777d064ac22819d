-- ===== src/Packet.antt =====
-- client/common/network/packet_helpers.c: the headers of the frames that the client sends, as bytes
-- in memory, and the checksum tests of client/common/network/net.c on the frames that it receives.
-- `e` is the byte order of the machine. Addresses are 32-bit numbers in host order.
use kos_tool.Prelude.{
  ℕ, zero, suc, ◌+◌, ◌-◌, ◌*◌, ◌/◌, ◌%◌, ◌^◌, Bool, true, false, List, [], ◌∷◌, ◌++◌, ◌==◌,
  if◌then◌else◌,
}
use kos_tool.Wire.{be32}
use kos_tool.Client.{be16}
use kos_tool.Checksum.{Endian, word, stored, checksum, checksum_udp}
pub mod Accepted
pub mod Udp

-- IP_TOS_DSCP_EF, IP_UDP_PROTOCOL.
abbrev pub ip_tos_dscp_ef : ℕ
ip_tos_dscp_ef = 0xb8

abbrev pub ip_udp_protocol : ℕ
ip_udp_protocol = 17

-- `pkt_id` is copied as it lies in memory, two bytes.
pub record IpFields : Type 0 where
  pub dest : ℕ
  pub src : ℕ
  pub length : ℕ
  pub protocol : ℕ
  pub pkt_id0 : ℕ
  pub pkt_id1 : ℕ

-- The header around its checksum field.
abbrev pub ip_front : IpFields → List ℕ
ip_front f =
    0x45 ∷ ip_tos_dscp_ef ∷ be16 ((20 + f.length) % 65536)
    ++ (f.pkt_id0 ∷ f.pkt_id1 ∷ 0x40 ∷ 0 ∷ 64 ∷ f.protocol ∷ [])

abbrev pub ip_back : IpFields → List ℕ
ip_back f = be32 f.src ++ be32 f.dest

unfoldable pub make_ip : Endian → IpFields → List ℕ
make_ip e f =
    ip_front f ++ stored e (checksum e (ip_front f ++ (0 ∷ 0 ∷ ip_back f)) 10 false) ++ ip_back f

pub record UdpFields : Type 0 where
  pub dest : ℕ
  pub src : ℕ
  pub length : ℕ

-- The pseudo-header, with the ports and the length as the checksum's other words.
abbrev pub pseudo_array : IpFields → UdpFields → List ℕ
pseudo_array ip udp =
    be32 ip.src
    ++ be32 ip.dest
    ++ (0 ∷ ip.protocol ∷ be16 ((udp.length + 8) % 65536))
    ++ be16 udp.src
    ++ be16 udp.dest
    ++ be16 ((udp.length + 8) % 65536)
    ++ (0 ∷ 0 ∷ [])

-- 0 means that there is no checksum, so 0xffff stands for it.
abbrev pub field_of : ℕ → ℕ
field_of c = if c == 0 then 0xffff else c

unfoldable pub udp_checksum : Endian → IpFields → UdpFields → List ℕ → ℕ
udp_checksum e ip udp payload =
    checksum_udp e (pseudo_array ip udp) payload (udp.length / 2) (udp.length % 2 == 1)

unfoldable pub make_udp : Endian → IpFields → UdpFields → List ℕ → List ℕ
make_udp e ip udp payload =
    be16 udp.src
    ++ be16 udp.dest
    ++ be16 ((udp.length + 8) % 65536)
    ++ stored e (field_of (udp_checksum e ip udp payload))

-- `process_mine`: the sum over the header with the field cleared is what the field held.
unfoldable pub ip_checksum_matches : Endian → List ℕ → ℕ → ℕ → List ℕ → Bool
ip_checksum_matches e front c0 c1 back =
    checksum e (front ++ (0 ∷ 0 ∷ back)) 10 false == word e c0 c1

-- `process_udp`, for the fields of the two headers and the checksum field's bytes.
unfoldable pub udp_checksum_matches : Endian → IpFields → UdpFields → List ℕ → ℕ → ℕ → Bool
unfolding udp_checksum
udp_checksum_matches e ip udp payload c0 c1 =
    let i = if word e c0 c1 == 0 then 0 else udp_checksum e ip udp payload in
    let field = if word e c0 c1 == 0xffff then 0 else word e c0 c1 in i == field
