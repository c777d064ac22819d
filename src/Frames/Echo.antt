-- ===== src/Frames/Echo.antt =====
-- client/common/network/net.c answers an echo request with its payload.
use kos_tool.Prelude.{
  ℕ, ◌+◌, ◌-◌, ◌*◌, ◌/◌, ◌%◌, ◌^◌, ◌≤◌, ◌<◌, ◌≡◌, refl, ap, ◌∙◌, ◌⊎◌, inl, inr, arith, true, false,
  none, some, [], ◌∷◌, ◌++◌, ltb, ◌==◌, get_or, bytes_from, ==_iff,
}
use kos_tool.Prelude.{bytes_from_eq}
use kos_tool.Wire.{be32}
use kos_tool.Checksum.{Endian, stored}
use kos_tool.Frames.Memory.{Adapter, put, memcpy, put_word, word_at, ntohs_at, same_at}
use kos_tool.Frames.Answers.{process_icmp, icmp_answer, icmp_checksum, ip_checksum}
use kos_tool.Frames.Stack.{process_pkt, process_mine, process_ip}
use kos_tool.Frames.Puts.{put_outside, put_inside, addressed, addressed_at, icmp_answer_at}
use kos_tool.Frames.Sums.{put_small, stored_small, be32_small, put_word_same, word_at-checksum}

-- The checksum tests of a receiver.
abbrev pub IpSummed : Endian → (ℕ → ℕ) → ℕ → Type 0
IpSummed e m ihl = word_at e m 24 ≡ ip_checksum e (put_word e m 24 0) ihl

abbrev pub IcmpSummed : Endian → (ℕ → ℕ) → ℕ → ℕ → Type 0
IcmpSummed e m ihl ip_length =
    word_at e m (14 + 4 * ihl + 2)
    ≡ icmp_checksum e (put_word e m (14 + 4 * ihl + 2) 0) ihl ip_length

-- An echo request for the adapter, in an IP packet with `ihl` words of header.
pub record IsEcho (e : Endian) (a : Adapter) (m : ℕ → ℕ) (ihl ip_length : ℕ) : Type 0 where
  pub ip_frame : (m 12 ≡ 8) × (m 13 ≡ 0)
  pub to_us : same_at 6 m 0 a.mac 0 ≡ true
  pub words : m 14 % 16 ≡ ihl
  pub length : ntohs_at m 16 ≡ ip_length
  pub whole : ntohs_at m 20 % 2 ^ 14 ≡ 0
  pub protocol : m 23 ≡ 1
  pub ip_sum : IpSummed e m ihl
  pub request : m (14 + 4 * ihl) ≡ 8
  pub icmp_sum : IcmpSummed e m ihl ip_length
  pub header : (5 ≤ ihl) × (ihl < 16) × (4 * ihl + 8 ≤ ip_length) × (ip_length < 65536)
  pub bytes : ((q : ℕ) → m q < 256) × ((i : ℕ) → a.mac i < 256)

addressed_small :
    (a : Adapter) (icmp : ℕ) (m : ℕ → ℕ)
    → ((q : ℕ) → m q < 256)
    → ((i : ℕ) → a.mac i < 256)
    → (q : ℕ) → addressed a icmp m q < 256
addressed_small a icmp m small mac_small =
    let s0 = put_small m icmp 1 (λ i. 0) small (λ i. omega arith) in
    let m0 = put m icmp 1 (λ i. 0) in
    let s1 = put_small m0 0 6 (λ i. m0 (6 + i)) s0 (λ i. s0 (6 + i)) in
    let m1 = memcpy m0 0 6 6 in
    let s2 = put_small m1 6 6 a.mac s1 mac_small in
    let m2 = put m1 6 6 a.mac in
    let s3 = put_small m2 30 4 (λ i. m2 (26 + i)) s2 (λ i. s2 (26 + i)) in
    put_small (memcpy m2 30 26 4) 26 4 (λ i. get_or (be32 a.our_ip) i 0) s3 (be32_small a.our_ip)

module _ (e e2 : Endian) (a : Adapter) (m : ℕ → ℕ) (ihl ip_length : ℕ)
    (is : IsEcho e a m ihl ip_length) where
  abbrev answer : ℕ → ℕ
  answer = icmp_answer e a ihl ip_length m

  answer-IpSummed : IpSummed e2 answer ihl
  answer-IpSummed =
      let (long, few, fits, small_length) = is.header in
      let m2 = addressed a (14 + 4 * ihl) m in
      let m3 = put_word e m2 24 0 in
      let m4 = put_word e m3 24 (ip_checksum e m3 ihl) in
      let m5 = put_word e m4 (14 + 4 * ihl + 2) 0 in
      word_at-checksum e e2 m2 answer 24 14 (4 * ihl) (2 * ihl) false
        (addressed_small a (14 + 4 * ihl) m is.bytes.0 is.bytes.1) (omega arith) (omega arith)
        (omega arith)
        (λ q low high.
          put_outside m5 (14 + 4 * ihl + 2) 2
            (λ i. get_or (stored e (icmp_checksum e m5 ihl ip_length)) i 0) q (inl (omega arith))
          ∙ put_outside m4 (14 + 4 * ihl + 2) 2 (λ i. get_or (stored e 0) i 0) q
              (inl (omega arith)))

  answer-IcmpSummed : IcmpSummed e2 answer ihl ip_length
  answer-IcmpSummed =
      let (long, few, fits, small_length) = is.header in
      let m2 = addressed a (14 + 4 * ihl) m in
      let s2 = addressed_small a (14 + 4 * ihl) m is.bytes.0 is.bytes.1 in
      let m3 = put_word e m2 24 0 in
      let s3 = put_small m2 24 2 (λ i. get_or (stored e 0) i 0) s2 (stored_small e 0) in
      let sum = ip_checksum e m3 ihl in
      let m4 = put_word e m3 24 sum in
      let s4 = put_small m3 24 2 (λ i. get_or (stored e sum) i 0) s3 (stored_small e sum) in
      word_at-checksum e e2 m4 answer (14 + 4 * ihl + 2) (14 + 4 * ihl) (ip_length - 4 * ihl)
        (ip_length / 2 - 2 * ihl) (ip_length % 2 == 1) s4 (omega arith) (omega arith) (omega arith)
        (λ q low high. refl)

  -- The answer has the request's payload, and the addresses the other way round.
  answer_kept : (q : ℕ) → 14 + 4 * ihl + 4 ≤ q → answer q ≡ m q
  answer_kept q h =
      let (long, few, fits, small_length) = is.header in
      icmp_answer_at e a ihl ip_length m q (inr (omega arith)) (inr (omega arith))
      ∙ addressed_at a (14 + 4 * ihl) m q (omega arith) (inr (omega arith))
      ∙ put_outside m (14 + 4 * ihl) 1 (λ i. 0) q (inr (omega arith))

  answer_type : answer (14 + 4 * ihl) ≡ 0
  answer_type =
      let (long, few, fits, small_length) = is.header in
      icmp_answer_at e a ihl ip_length m (14 + 4 * ihl) (inr (omega arith)) (inl (omega arith))
      ∙ addressed_at a (14 + 4 * ihl) m (14 + 4 * ihl) (omega arith) (inr (omega arith))
      ∙ ap (put m (14 + 4 * ihl) 1 (λ i. 0)) (omega arith)
      ∙ put_inside m (14 + 4 * ihl) 1 (λ i. 0) 0 (omega arith)

  answer_low :
      (q : ℕ) → (q < 24) ⊎ ((26 ≤ q) × (q < 34)) → answer q ≡ addressed a (14 + 4 * ihl) m q
  answer_low q h =
      let (long, few, fits, small_length) = is.header in
      icmp_answer_at e a ihl ip_length m q (ground (arith, h)) (inl (ground (arith, h)))

  answer_addresses :
      (bytes_from 12 0 answer ≡ bytes_from 6 6 m ++ bytes_from 6 0 a.mac)
      × (bytes_from 8 26 answer ≡ be32 a.our_ip ++ bytes_from 4 26 m)
  answer_addresses =
      let (long, few, fits, small_length) = is.header in
      let m0 = put m (14 + 4 * ihl) 1 (λ i. 0) in
      let low : (q : ℕ) → q < 34 → m0 q ≡ m q =
        λ q h. put_outside m (14 + 4 * ihl) 1 (λ i. 0) q (inl (omega arith)) in
      (
        bytes_from_eq 12 0 0 answer (addressed a (14 + 4 * ihl) m)
              (λ k h. answer_low (0 + k) (inl (omega arith)))
            ∙ ap (λ l. l ++ bytes_from 6 0 a.mac)
                (bytes_from_eq 6 6 6 m0 m (λ k h. low (6 + k) (omega arith))),
        bytes_from_eq 8 26 26 answer (addressed a (14 + 4 * ihl) m)
              (λ k h. answer_low (26 + k) (inr (omega arith, omega arith)))
            ∙ ap (λ l. be32 a.our_ip ++ l)
                (bytes_from_eq 4 26 26 m0 m (λ k h. low (26 + k) (omega arith))),
      )

-- An echo request gets past the tests and to its answer.
process_icmp-echo :
    (e : Endian) (a : Adapter) (m : ℕ → ℕ) (ihl ip_length : ℕ)
    → IsEcho e a m ihl ip_length
    → process_icmp e a ihl m
      ≡ some (record {
        pkt = icmp_answer e a ihl ip_length m;
        sent = (icmp_answer e a ihl ip_length m, 14 + ip_length) ∷ [];
        handed = none;
      })
unfolding process_icmp
process_icmp-echo e a m ihl ip_length is =
    let (long, few, fits, small_length) = is.header in
    let c = icmp_checksum e (put_word e m (14 + 4 * ihl + 2) 0) ihl ip_length in
    let enough : ltb (ip_length / 2) (2 * ihl) ≡ false = ground arith in
    let good : (word_at e m (14 + 4 * ihl + 2) == c) ≡ true = (==_iff _ c).1 is.icmp_sum in
    rw (is.request, is.length, enough, good)
      (ap
        (λ t. some (record {
          pkt = icmp_answer e a ihl ip_length t;
          sent = (icmp_answer e a ihl ip_length t, 14 + ip_length) ∷ [];
          handed = none;
        }))
        (put_word_same e m (14 + 4 * ihl + 2) c is.bytes.0 is.icmp_sum))

process_pkt-process_icmp :
    (e : Endian) (a : Adapter) (m : ℕ → ℕ) (ihl ip_length : ℕ)
    → IsEcho e a m ihl ip_length
    → process_pkt e a m ≡ process_icmp e a ihl m
unfolding process_pkt process_mine process_ip
process_pkt-process_icmp e a m ihl ip_length is =
    let sum = ip_checksum e (put_word e m 24 0) ihl in
    let good : (word_at e m 24 == sum) ≡ true = (==_iff _ sum).1 is.ip_sum in
    let same = put_word_same e m 24 sum is.bytes.0 is.ip_sum in
    rw (is.ip_frame.0, is.ip_frame.1, is.to_us, is.words, is.whole, good, same, is.protocol) refl

-- An unfragmented echo request for the adapter, with good checksums and an IP header of at least
-- five words, gets one answer: type 0, the same payload, the hardware and IP addresses turned
-- round, and checksums that hold for a receiver of either byte order.
pub process_pkt-echo :
    (e e2 : Endian) (a : Adapter) (m : ℕ → ℕ) (ihl ip_length : ℕ)
    → IsEcho e a m ihl ip_length
    → (f : ℕ → ℕ) × (process_pkt e a m
        ≡ some (record { pkt = f; sent = (f, 14 + ip_length) ∷ []; handed = none }))
      × (f (14 + 4 * ihl) ≡ 0)
      × ((q : ℕ) → 14 + 4 * ihl + 4 ≤ q → f q ≡ m q)
      × (bytes_from 12 0 f ≡ bytes_from 6 6 m ++ bytes_from 6 0 a.mac)
      × (bytes_from 8 26 f ≡ be32 a.our_ip ++ bytes_from 4 26 m)
      × IpSummed e2 f ihl
      × IcmpSummed e2 f ihl ip_length
process_pkt-echo e e2 a m ihl ip_length is = (
  icmp_answer e a ihl ip_length m,
  process_pkt-process_icmp e a m ihl ip_length is ∙ process_icmp-echo e a m ihl ip_length is,
  answer_type e e2 a m ihl ip_length is,
  answer_kept e e2 a m ihl ip_length is,
  (answer_addresses e e2 a m ihl ip_length is).0,
  (answer_addresses e e2 a m ihl ip_length is).1,
  answer-IpSummed e e2 a m ihl ip_length is,
  answer-IcmpSummed e e2 a m ihl ip_length is,
)
