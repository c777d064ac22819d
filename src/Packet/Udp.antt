-- ===== src/Packet/Udp.antt =====
-- The UDP checksum field of client/common/network/packet_helpers.c under the test of
-- client/common/network/net.c.
use kos_tool.Prelude.{
  ℕ, ◌+◌, ◌-◌, ◌/◌, ◌%◌, ◌^◌, ◌≤◌, ◌<◌, ◌≡◌, refl, sym, arith, Bool, true, false, List, [], ◌∷◌,
  ◌++◌, ◌==◌, if◌then◌else◌, All, get_or, IsByte,
}
use native.Mathlib.Decide.{ℕ_discrete}
use kos_tool.Checksum.{Endian, little, big, stored, checksum_udp, add_words, add_odd, odd_byte}
use kos_tool.Checksum.Fold.{fold_carries-Folded, fold_lem}
use kos_tool.Checksum.ByteOrder.{stored-checksum_udp}
use kos_tool.Packet.{
  IpFields, UdpFields, ip_udp_protocol, make_udp, pseudo_array, field_of, udp_checksum,
  udp_checksum_matches,
}
use kos_tool.Packet.Accepted.{add_words_bounds, word-stored_either}

pseudo_bytes :
    (ip : IpFields) (udp : UdpFields)
    → ip.protocol ≡ ip_udp_protocol
    → All IsByte (pseudo_array ip udp)
pseudo_bytes ip udp h = ground arith

-- The protocol's byte makes the sum over the pseudo-header positive.
pseudo_positive :
    (e : Endian) (ip : IpFields) (udp : UdpFields)
    → ip.protocol ≡ ip_udp_protocol
    → 0 < (add_words e 10 (pseudo_array ip udp) 0).0
unfolding add_words
pseudo_positive little ip udp h = omega arith
pseudo_positive big ip udp h = omega arith

odd_bound : (e : Endian) (buf : List ℕ) → All IsByte buf → odd_byte e buf < 65536
odd_bound little [] h = omega arith
odd_bound big [] h = omega arith
odd_bound little (b ∷ buf) (h, hs) = omega arith
odd_bound big (b ∷ buf) (h, hs) = omega arith

add_odd_bounds :
    (e : Endian) (odd : Bool) (x : ℕ × List ℕ)
    → All IsByte x.1
    → 0 < x.0
    → x.0 + 65536 ≤ 2 ^ 32
    → (0 < add_odd e odd x) × (add_odd e odd x < 2 ^ 32)
add_odd_bounds e false (sum, buf) bytes positive small = (positive, omega arith)
add_odd_bounds e true (sum, buf) bytes positive small =
    let last = odd_bound e buf bytes in (omega arith, omega arith)

-- The sum that the checksum folds is positive and fits 32 bits.
sum_positive :
    (e : Endian) (ip : IpFields) (udp : UdpFields) (payload : List ℕ) (n : ℕ) (odd : Bool)
    → ip.protocol ≡ ip_udp_protocol
    → All IsByte payload
    → n + 11 < 65536
    → (0 < add_odd e odd (add_words e n payload (add_words e 10 (pseudo_array ip udp) 0).0))
      × (add_odd e odd (add_words e n payload (add_words e 10 (pseudo_array ip udp) 0).0) < 2 ^ 32)
sum_positive e ip udp payload n odd h bytes small =
    let first =
      add_words_bounds e 10 (pseudo_array ip udp) 0 (pseudo_bytes ip udp h) (omega arith) in
    let positive = pseudo_positive e ip udp h in
    let second =
      add_words_bounds e n payload (add_words e 10 (pseudo_array ip udp) 0).0 bytes
        (omega (arith, first.0, first.1)) in
    add_odd_bounds e odd (add_words e n payload (add_words e 10 (pseudo_array ip udp) 0).0) second.2
      (omega (arith, second.0, positive)) (omega (arith, first.1, second.1))

-- A checksum of all ones would need a sum of zero.
udp_checksum_below :
    (e : Endian) (ip : IpFields) (udp : UdpFields) (payload : List ℕ)
    → ip.protocol ≡ ip_udp_protocol
    → All IsByte payload
    → udp.length + 22 < 65536
    → udp_checksum e ip udp payload < 65535
unfolding udp_checksum checksum_udp
udp_checksum_below e ip udp payload h bytes small =
    let (positive, fits) =
      sum_positive e ip udp payload (udp.length / 2) (udp.length % 2 == 1) h bytes (omega arith) in
    let folded = fold_carries-Folded _ fits in
    rw (fold_lem _ fits) (below folded.zero_result positive)
  where
    below : {sum carry : ℕ} → (carry ≡ 0 → sum ≡ 0) → 0 < sum → 65535 - carry < 65535
    below {sum = sum} {carry = carry} z pos = elim (ℕ_discrete carry 0) [
      | yes e ↦ absurd (omega (arith, z e))
      | no n ↦ omega arith
    ]

udp_either :
    (e e2 : Endian) (ip : IpFields) (udp : UdpFields) (payload : List ℕ)
    → ip.protocol ≡ ip_udp_protocol
    → All IsByte payload
    → udp.length + 22 < 65536
    → stored e (udp_checksum e ip udp payload) ≡ stored e2 (udp_checksum e2 ip udp payload)
unfolding udp_checksum
udp_either little little ip udp payload h bytes small = refl
udp_either little big ip udp payload h bytes small =
    stored-checksum_udp _ payload _ _ (pseudo_bytes ip udp h) bytes (omega arith)
udp_either big little ip udp payload h bytes small =
    sym (stored-checksum_udp _ payload _ _ (pseudo_bytes ip udp h) bytes (omega arith))
udp_either big big ip udp payload h bytes small = refl

-- A stored value is 0 on both sides or on none.
field_either :
    (e e2 : Endian) (c c2 : ℕ)
    → c < 65536
    → c2 < 65536
    → stored e c ≡ stored e2 c2
    → stored e (field_of c) ≡ stored e2 (field_of c2)
field_either little little c c2 h h2 same = ground arith
field_either little big c c2 h h2 same = ground arith
field_either big little c c2 h h2 same = ground arith
field_either big big c c2 h h2 same = ground arith

accept_lem :
    (c w : ℕ)
    → c < 65535
    → w ≡ field_of c
    → ((if w == 0 then 0 else c) == (if w == 65535 then 0 else w)) ≡ true
accept_lem c w h e = ground arith

-- A UDP datagram that any of the machines sends passes the checksum test of any other, also where
-- its checksum is 0 and 0xffff stands for it. The payload is shorter than 64 KiB by the headers.
pub make_udp-accepted :
    (e e2 : Endian) (ip : IpFields) (udp : UdpFields) (payload : List ℕ)
    → ip.protocol ≡ ip_udp_protocol
    → All IsByte payload
    → udp.length + 22 < 65536
    → udp_checksum_matches e2 ip udp payload
        (get_or (make_udp e ip udp payload ++ payload) 6 0)
        (get_or (make_udp e ip udp payload ++ payload) 7 0)
      ≡ true
unfolding make_udp udp_checksum_matches
make_udp-accepted e e2 ip udp payload h bytes small =
    let c = udp_checksum_below e ip udp payload h bytes small in
    let c2 = udp_checksum_below e2 ip udp payload h bytes small in
    let either =
      field_either e e2 (udp_checksum e ip udp payload) (udp_checksum e2 ip udp payload)
        (omega arith) (omega arith) (udp_either e e2 ip udp payload h bytes small) in
    let read =
      word-stored_either e e2 _ (field_of (udp_checksum e2 ip udp payload)) payload (ground arith)
        either in
    accept_lem (udp_checksum e2 ip udp payload) _ c2 read
