-- ===== src/Examples/Frames.antt =====
-- Frames that the theorems on client/common/network/net.c are applied to.
use kos_tool.Prelude.{
  true, ℕ, ◌+◌, ◌%◌, ◌≤◌, ◌≡◌, refl, arith, none, some, List, [], ◌∷◌, ◌++◌, get_or, All,
  bytes_from,
}
use kos_tool.Wire.{be32}
use kos_tool.Checksum.{little, big, checksum, add_words, fold, fold_carries}
use kos_tool.Frames.Memory.{Adapter, Outcome, same_at}
use kos_tool.Frames.Answers.{process_arp, arp_answer}
use kos_tool.Frames.Stack.{process_pkt, process_mine, process_broadcast}
use kos_tool.Frames.Arp.{arp_frame, process_pkt-arp_frame}
use kos_tool.Frames.Echo.{IsEcho, IpSummed, IcmpSummed, process_pkt-echo}
use kos_tool.Frames.Unanswered.{Silences, process_pkt-unanswered}
use kos_tool.Frames.Delivered.{IsDatagram, process_pkt-make_udp}
use kos_tool.Frames.Datagrams.{request_of}
use kos_tool.Packet.{IpFields, UdpFields, make_ip, make_udp, udp_checksum}
use kos_tool.Checksum.{checksum_udp}
use kos_tool.Frames.Memory.{command}
use kos_tool.Examples.Binary.{bytes_small}

-- The adapter 02:03:04:05:06:07 with the address 192.168.1.2, and another host.
abbrev ours : Adapter
ours = record { mac = λ i. (i + 2) % 256; our_ip = 0xc0a80102 }

abbrev theirs : ℕ → ℕ
theirs i = i + 9

-- A request for the address.
abbrev arp_bytes : List ℕ
arp_bytes =
    255 ∷ 255 ∷ 255 ∷ 255 ∷ 255 ∷ 255 ∷ 9 ∷ 10 ∷ 11 ∷ 12 ∷ 13 ∷ 14 ∷ 8 ∷ 6 ∷ 0 ∷ 1 ∷ 8 ∷ 0 ∷ 6 ∷ 4
    ∷ 0 ∷ 1 ∷ 9 ∷ 10 ∷ 11 ∷ 12 ∷ 13 ∷ 14 ∷ 192 ∷ 168 ∷ 1 ∷ 5 ∷ 0 ∷ 0 ∷ 0 ∷ 0 ∷ 0 ∷ 0 ∷ 192 ∷ 168 ∷ 1
    ∷ 2 ∷ []

abbrev arp_request : ℕ → ℕ
arp_request q = get_or arp_bytes q 0

process_pkt-arp_frame_example :
    (f : ℕ → ℕ) × (process_pkt little ours arp_request
      ≡ some (record { pkt = f; sent = (f, 42) ∷ []; handed = none }))
    × (bytes_from 42 0 f ≡ arp_frame theirs ours.mac 2 ours.mac ours.our_ip theirs 0xc0a80105)
process_pkt-arp_frame_example =
    process_pkt-arp_frame little ours arp_request theirs (λ i. 0) 0xc0a80105 refl (omega arith)

-- An echo request with the payload "ping".
abbrev echo_bytes : List ℕ
echo_bytes =
    2 ∷ 3 ∷ 4 ∷ 5 ∷ 6 ∷ 7 ∷ 9 ∷ 10 ∷ 11 ∷ 12 ∷ 13 ∷ 14 ∷ 8 ∷ 0 ∷ 69 ∷ 0 ∷ 0 ∷ 32 ∷ 0 ∷ 1 ∷ 0 ∷ 0
    ∷ 64 ∷ 1 ∷ 247 ∷ 132 ∷ 192 ∷ 168 ∷ 1 ∷ 5 ∷ 192 ∷ 168 ∷ 1 ∷ 2 ∷ 8 ∷ 0 ∷ 25 ∷ 45 ∷ 0 ∷ 1 ∷ 0 ∷ 1
    ∷ 112 ∷ 105 ∷ 110 ∷ 103 ∷ []

abbrev echo_request : ℕ → ℕ
echo_request q = get_or echo_bytes q 0

echo_request-IsEcho : IsEcho little ours echo_request 5 32
unfolding same_at checksum add_words fold fold_carries
echo_request-IsEcho = record {
  ip_frame = (refl, refl);
  to_us = refl;
  words = refl;
  length = refl;
  whole = refl;
  protocol = refl;
  ip_sum = refl;
  request = refl;
  icmp_sum = refl;
  header = (omega arith, omega arith, omega arith, omega arith);
  bytes = (bytes_small echo_bytes (ground arith), λ i. omega arith);
}

process_pkt-echo_example :
    (f : ℕ → ℕ) × (process_pkt little ours echo_request
      ≡ some (record { pkt = f; sent = (f, 46) ∷ []; handed = none }))
    × (f 34 ≡ 0)
    × ((q : ℕ) → 38 ≤ q → f q ≡ echo_request q)
    × (bytes_from 12 0 f ≡ bytes_from 6 6 echo_request ++ bytes_from 6 0 ours.mac)
    × (bytes_from 8 26 f ≡ be32 ours.our_ip ++ bytes_from 4 26 echo_request)
    × IpSummed big f 5
    × IcmpSummed big f 5 32
process_pkt-echo_example = process_pkt-echo little big ours echo_request 5 32 echo_request-IsEcho

-- What the request for the address leads to.
abbrev answered : Outcome
answered = record {
  pkt = arp_answer ours arp_request;
  sent = (arp_answer ours arp_request, 42) ∷ [];
  handed = none;
}

arp_request-answered : process_pkt little ours arp_request ≡ some answered
unfolding process_pkt process_mine process_broadcast process_arp same_at
arp_request-answered = refl

process_pkt-unanswered_example :
    All
      (λ f. Silences (process_pkt big (record { mac = theirs; our_ip = 0xc0a80105 }) f.0))
      answered.sent
process_pkt-unanswered_example =
    process_pkt-unanswered little big ours (record { mac = theirs; our_ip = 0xc0a80105 })
      arp_request answered arp_request-answered (λ e. omega (arith, e))

-- A VERS command from port 40000 to port 53535.
abbrev version_bytes : List ℕ
version_bytes =
    2 ∷ 3 ∷ 4 ∷ 5 ∷ 6 ∷ 7 ∷ 9 ∷ 10 ∷ 11 ∷ 12 ∷ 13 ∷ 14 ∷ 8 ∷ 0 ∷ 69 ∷ 184 ∷ 0 ∷ 40 ∷ 0 ∷ 1 ∷ 64 ∷ 0
    ∷ 64 ∷ 17 ∷ 182 ∷ 180 ∷ 192 ∷ 168 ∷ 1 ∷ 5 ∷ 192 ∷ 168 ∷ 1 ∷ 2 ∷ 156 ∷ 64 ∷ 209 ∷ 31 ∷ 0 ∷ 20
    ∷ 102 ∷ 117 ∷ 86 ∷ 69 ∷ 82 ∷ 83 ∷ 0 ∷ 0 ∷ 0 ∷ 0 ∷ 0 ∷ 0 ∷ 0 ∷ 0 ∷ []

abbrev version_request : ℕ → ℕ
version_request q = get_or version_bytes q 0

abbrev version_ip : IpFields
version_ip = record {
  dest = 0xc0a80102;
  src = 0xc0a80105;
  length = 20;
  protocol = 17;
  pkt_id0 = 0;
  pkt_id1 = 1;
}

abbrev version_udp : UdpFields
version_udp = record { dest = 53535; src = 40000; length = 12 }

abbrev version_payload : List ℕ
version_payload = b'V' ∷ b'E' ∷ b'R' ∷ b'S' ∷ 0 ∷ 0 ∷ 0 ∷ 0 ∷ 0 ∷ 0 ∷ 0 ∷ 0 ∷ []

version_request-IsDatagram :
    IsDatagram little ours version_request version_ip version_udp version_payload
unfolding same_at make_ip make_udp udp_checksum checksum checksum_udp add_words fold fold_carries
version_request-IsDatagram = record {
  ip_frame = (refl, refl);
  to_us = refl;
  ip_header = refl;
  udp_header = refl;
  contents = refl;
  is_ip = record { protocol = omega arith; id0 = omega arith; id1 = omega arith };
  protocol = refl;
  addresses = (omega arith, omega arith);
  ports = (omega arith, omega arith);
  fits = omega arith;
  bytes = bytes_small version_bytes (ground arith);
}

process_pkt-make_udp_example :
    (s : Outcome) × (process_pkt big ours version_request ≡ some s)
    × (s.sent ≡ [])
    × (s.handed ≡ some (command true (request_of big version_request 34)))
    × ((request_of big version_request 34).ip_src ≡ version_ip.src)
    × ((request_of big version_request 34).ip_dest ≡ version_ip.dest)
    × ((request_of big version_request 34).udp_src ≡ version_udp.src)
    × ((request_of big version_request 34).udp_dest ≡ version_udp.dest)
    × ((request_of big version_request 34).udp_length ≡ version_udp.length + 8)
process_pkt-make_udp_example =
    process_pkt-make_udp big little ours version_request version_ip version_udp version_payload
      version_request-IsDatagram (λ e. omega (arith, e))
