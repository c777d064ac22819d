-- ===== src/Frames/Datagrams.antt =====
-- client/common/network/net.c, `process_udp` up to the handlers: the checksum, and what a datagram
-- is. The handlers are those of `Client.Receive` and `Dhcp.Exchange`.
use kos_tool.Prelude.{ℕ, ◌+◌, ◌-◌, ◌*◌, ◌^◌, not, some, [], ltb, ◌==◌, if◌then◌else◌, bytes_from}
use kos_tool.Checksum.{Endian, little, big}
use kos_tool.Packet.{udp_checksum_matches}
use kos_tool.Client.{Request}
use kos_tool.Dhcp.{Reply}
use kos_tool.Frames.Memory.{
  ether_h_len, Adapter, put_word, ntohs_at, ntohl_at, word_at, same_at, Outcome, silent, dhcp_reply,
  command,
}

-- A 32-bit field as the machine reads it.
abbrev pub native32_at : Endian → (ℕ → ℕ) → ℕ → ℕ
native32_at little m p = m p + m (p + 1) * 2 ^ 8 + m (p + 2) * 2 ^ 16 + m (p + 3) * 2 ^ 24
native32_at big m p = ntohl_at m p

-- The parts of the frame as a DHCP packet, which begins at `at`.
abbrev pub reply_of : Endian → (ℕ → ℕ) → ℕ → ℕ → Reply
reply_of e m at len = record {
  router_mac = bytes_from 6 6 m;
  xid = native32_at e m (at + 4);
  yiaddr = native32_at e m (at + 16);
  options_at = λ i. m (at + 236 + i);
  len = len;
}

-- The parts of the frame as a command, with the UDP header at `udp`.
abbrev pub request_of : Endian → (ℕ → ℕ) → ℕ → Request
request_of e m udp = record {
  ether_src = bytes_from 6 6 m;
  ip_src = ntohl_at m 26;
  ip_dest = ntohl_at m 30;
  packet_id = word_at e m 18;
  udp_src = ntohs_at m udp;
  udp_dest = ntohs_at m (udp + 2);
  udp_length = ntohs_at m (udp + 4);
  id = bytes_from 4 (udp + 8) m;
  address = ntohl_at m (udp + 12);
  size = ntohl_at m (udp + 16);
  data_at = λ i. m (udp + 20 + i);
}

-- A datagram that is too short or fails the checksum is dropped. A checksum of 0xffff is written
-- back as 0.
unfoldable pub process_udp : Endian → Adapter → ℕ → (ℕ → ℕ) → Outcome
unfolding same_at
process_udp e a ihl pkt =
    let udp = ether_h_len + 4 * ihl in
    let udp_total = ntohs_at pkt (udp + 4) in
    let len = udp_total - 8 in
    let m = if word_at e pkt (udp + 6) == 0xffff then put_word e pkt (udp + 6) 0 else pkt in
    let good =
      udp_checksum_matches e
        (record {
          dest = ntohl_at pkt 30;
          src = ntohl_at pkt 26;
          length = ntohs_at pkt 16 - 20;
          protocol = pkt 23;
          pkt_id0 = pkt 18;
          pkt_id1 = pkt 19;
        })
        (record { dest = ntohs_at pkt (udp + 2); src = ntohs_at pkt udp; length = len })
        (bytes_from len (udp + 8) pkt) (pkt (udp + 6)) (pkt (udp + 7)) in
    if ltb udp_total 8
    then silent pkt
    else if not good
    then silent m
    else if m (udp + 8) == 2
    then record { pkt = m; sent = []; handed = some (dhcp_reply (reply_of e m (udp + 8) len)) }
    else record {
      pkt = m;
      sent = [];
      handed = some (command (same_at 6 m 0 a.mac 0) (request_of e m udp));
    }
