-- ===== src/Examples/Numbers.antt =====
-- Arithmetic and bytes: checksums, reciprocal division, the cache of replies; the theorems applied.
use kos_tool.Prelude.{ℕ, ◌+◌, ◌≡◌, refl, arith, true, List, [], ◌∷◌, ◌++◌, get_or, All, IsByte}
use kos_tool.Divutil.{udiv_const}
use kos_tool.Checksum.{little, big, checksum, fold, fold_carries, add_words}
use kos_tool.Packet.{IpFields, UdpFields, make_udp, udp_checksum_matches}
use kos_tool.Packet.Udp.{make_udp-accepted}
use kos_tool.Dedup.{State, initial, dedup_begin_capture}
use kos_tool.Dedup.Replay.{Captured, capture_all, capture_all-Captured}

udiv_exact : udiv_const 4320 1440 ≡ 3
unfolding udiv_const
udiv_exact = refl

udiv_overshoots : udiv_const (3_628_800 + 1439) 1440 ≡ 2521
unfolding udiv_const
udiv_overshoots = refl

abbrev five_bytes : List ℕ
five_bytes = 0x12 ∷ 0x34 ∷ 0xff ∷ 0xff ∷ 0x01 ∷ []

checksum_runs : checksum little five_bytes 2 true ≡ 0xcbec
unfolding checksum fold fold_carries add_words
checksum_runs = refl

five_bytes-IsByte : All IsByte five_bytes
five_bytes-IsByte = ground arith

abbrev ip : IpFields
ip = record {
  dest = 0xc0a8_0101;
  src = 0xc0a8_0102;
  length = 13;
  protocol = 17;
  pkt_id0 = 0;
  pkt_id1 = 0;
}

abbrev udp : UdpFields
udp = record { dest = 53535; src = 53535; length = 5 }

make_udp-accepted_example :
    udp_checksum_matches little ip udp five_bytes
      (get_or (make_udp big ip udp five_bytes ++ five_bytes) 6 0)
      (get_or (make_udp big ip udp five_bytes ++ five_bytes) 7 0)
    ≡ true
make_udp-accepted_example =
    make_udp-accepted big little ip udp five_bytes refl five_bytes-IsByte (omega arith)

-- A capture of two packets for the request 5, and its commit.
abbrev capturing : State
capturing = dedup_begin_capture 5 1000 initial

abbrev two_packets : List (List ℕ)
two_packets = (1 ∷ 2 ∷ []) ∷ (3 ∷ []) ∷ []

two_packets-Captured : Captured capturing (capture_all two_packets capturing) two_packets
unfolding dedup_begin_capture
two_packets-Captured =
    capture_all-Captured two_packets capturing refl (omega arith)
      ((omega arith, omega arith), ((omega arith, omega arith), tt))
