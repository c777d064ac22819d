-- ===== src/Frames/Stack.antt =====
-- client/common/network/net.c: from a received frame to the protocols.
use kos_tool.Prelude.{ℕ, ◌%◌, ◌^◌, not, Option, some, ◌==◌, if◌then◌else◌, ◌>>=◌}
use kos_tool.Checksum.{Endian}
use kos_tool.Packet.{ip_udp_protocol}
use kos_tool.Frames.Memory.{Adapter, put_word, ntohs_at, word_at, same_at, Outcome, silent}
use kos_tool.Frames.Answers.{process_arp, process_icmp, ip_checksum}
use kos_tool.Frames.Datagrams.{process_udp}

-- IP_ICMP_PROTOCOL.
abbrev pub ip_icmp_protocol : ℕ
ip_icmp_protocol = 1

-- `process_mine` for an IP packet: no fragment, a good checksum, UDP or ICMP. `none` is that of
-- `process_icmp`.
unfoldable pub process_ip : Endian → Adapter → (ℕ → ℕ) → Option Outcome
process_ip e a pkt =
    let ihl = pkt 14 % 16 in
    let cleared = put_word e pkt 24 0 in
    let sum = ip_checksum e cleared ihl in
    let m = put_word e cleared 24 sum in
    if not (ntohs_at pkt 20 % 2 ^ 14 == 0)
    then some (silent pkt)
    else if not (word_at e pkt 24 == sum)
    then some (silent m)
    else if m 23 == ip_udp_protocol
    then some (process_udp e a ihl m)
    else if m 23 == ip_icmp_protocol
    then process_icmp e a ihl m
    else some (silent m)

-- An IP packet is processed first, as `process_mine` does; the rest reads the buffer after that.
unfoldable pub process_broadcast : Endian → Adapter → (ℕ → ℕ) → Option Outcome
process_broadcast e a pkt = do
  s ← (if pkt 13 == 0 then process_ip e a pkt else some (silent pkt))
  some (process_arp a s)

unfoldable pub process_mine : Endian → Adapter → (ℕ → ℕ) → Option Outcome
process_mine e a pkt =
    if not (pkt 13 == 0)
    then if pkt 13 == 6 then process_broadcast e a pkt else some (silent pkt)
    else process_ip e a pkt

abbrev pub broadcast : ℕ → ℕ
broadcast i = 0xff

unfoldable pub process_pkt : Endian → Adapter → (ℕ → ℕ) → Option Outcome
process_pkt e a pkt =
    if not (pkt 12 == 0x08)
    then some (silent pkt)
    else if same_at 6 pkt 0 a.mac 0
    then process_mine e a pkt
    else if same_at 6 pkt 0 broadcast 0
    then process_broadcast e a pkt
    else some (silent pkt)
