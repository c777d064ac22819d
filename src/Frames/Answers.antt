-- ===== src/Frames/Answers.antt =====
-- client/common/network/net.c: the answers to ARP requests and to ICMP echo requests.
use kos_tool.Prelude.{
  ℕ, ◌+◌, ◌-◌, ◌*◌, ◌/◌, ◌%◌, false, not, Option, none, some, [], ◌∷◌, ltb, ◌==◌, get_or,
  if◌then◌else◌, bytes_from,
}
use kos_tool.Wire.{be32}
use kos_tool.Checksum.{Endian, checksum}
use kos_tool.Frames.Memory.{
  ether_h_len, arp_h_len, Adapter, put, memcpy, put_ip, put_word, ntohs_at, word_at, same_at,
  Outcome, silent,
}

-- The answer to an ARP request, in the place of the request.
abbrev pub arp_answer : Adapter → (ℕ → ℕ) → (ℕ → ℕ)
arp_answer a m =
    let m1 = put (memcpy m 0 6 6) 6 6 a.mac in
    let m2 = put m1 20 2 (λ i. get_or (0 ∷ 2 ∷ []) i 0) in
    put_ip (put (memcpy m2 32 22 10) 22 6 a.mac) 28 a.our_ip

-- `process_broadcast` from the test for ARP on.
unfoldable pub process_arp : Adapter → Outcome → Outcome
unfolding same_at
process_arp a s =
    let m = s.pkt in
    if not (m 13 == 6)
    then s
    else if not (ntohs_at m 14 == 1)
    then s
    else if not (ntohs_at m 16 == 0x0800)
    then s
    else if not (ntohs_at m 20 == 1)
    then s
    else if a.our_ip == 0
    then s
    else if same_at 4 m 38 (λ i. get_or (be32 a.our_ip) i 0) 0
    then record s {
      pkt = arp_answer a m;
      sent = (arp_answer a m, ether_h_len + arp_h_len) ∷ s.sent;
    }
    else s

-- The checksum over an ICMP message of an IP packet with `ihl` words of header.
abbrev pub icmp_checksum : Endian → (ℕ → ℕ) → ℕ → ℕ → ℕ
icmp_checksum e m ihl ip_length =
    checksum e (bytes_from (ip_length - 4 * ihl) (ether_h_len + 4 * ihl) m)
      (ip_length / 2 - 2 * ihl) (ip_length % 2 == 1)

abbrev pub ip_checksum : Endian → (ℕ → ℕ) → ℕ → ℕ
ip_checksum e m ihl = checksum e (bytes_from (4 * ihl) ether_h_len m) (2 * ihl) false

-- The answer to an echo request.
abbrev pub icmp_answer : Endian → Adapter → ℕ → ℕ → (ℕ → ℕ) → (ℕ → ℕ)
icmp_answer e a ihl ip_length m =
    let icmp = ether_h_len + 4 * ihl in
    let m1 = memcpy (put m icmp 1 (λ i. 0)) 0 6 6 in
    let m2 = put_ip (memcpy (put m1 6 6 a.mac) 30 26 4) 26 a.our_ip in
    let m3 = put_word e m2 24 0 in
    let m4 = put_word e m3 24 (ip_checksum e m3 ihl) in
    let m5 = put_word e m4 (icmp + 2) 0 in
    put_word e m5 (icmp + 2) (icmp_checksum e m5 ihl ip_length)

-- `none` where the IP length is shorter than the header: the count of words is negative then, and
-- the sum runs off the buffer.
unfoldable pub process_icmp : Endian → Adapter → ℕ → (ℕ → ℕ) → Option Outcome
process_icmp e a ihl pkt =
    let icmp = ether_h_len + 4 * ihl in
    let ip_length = ntohs_at pkt 16 in
    let m = put_word e pkt (icmp + 2) 0 in
    let summed = put_word e m (icmp + 2) (icmp_checksum e m ihl ip_length) in
    if not (pkt icmp == 8)
    then some (silent pkt)
    else if ltb (ip_length / 2) (2 * ihl)
    then none
    else if not (word_at e pkt (icmp + 2) == icmp_checksum e m ihl ip_length)
    then some (silent summed)
    else some (record {
      pkt = icmp_answer e a ihl ip_length summed;
      sent = (icmp_answer e a ihl ip_length summed, ether_h_len + ip_length) ∷ [];
      handed = none;
    })
