-- ===== src/Frames/Delivered.antt =====
-- A datagram of client/common/network/packet_helpers.c reaches the handlers of
-- client/common/network/net.c.
use kos_tool.Prelude.{
  ℕ, ◌+◌, ◌-◌, ◌*◌, ◌%◌, ◌^◌, ◌<◌, ◌≡◌, ◌≢◌, refl, ap, sym, ◌∙◌, inl, inr, arith, true, false, some,
  List, [], ◌∷◌, ◌++◌, ltb, ◌==◌, get_or, bytes_from, Bool-cases, ==_iff, All, IsByte, IsU32, take,
  drop, bytes_from-All, subst,
}
use kos_tool.Checksum.{Endian, little, big, stored, checksum}
use kos_tool.Packet.{
  IpFields, UdpFields, ip_front, ip_back, make_ip, make_udp, ip_udp_protocol, udp_checksum,
  ip_checksum_matches, udp_checksum_matches,
}
use kos_tool.Packet.Accepted.{IsIp, make_ip-accepted}
use kos_tool.Packet.Udp.{make_udp-accepted}
use kos_tool.Frames.Memory.{
  Adapter, put_word, word_at, ntohs_at, ntohl_at, same_at, Outcome, command,
}
use kos_tool.Frames.Datagrams.{process_udp, request_of}
use kos_tool.Frames.Stack.{process_pkt, process_mine, process_ip}
use kos_tool.Frames.Answers.{ip_checksum}
use kos_tool.Frames.Puts.{put_outside}
use kos_tool.Frames.Sums.{put_word_same}
use kos_tool.Frames.Silence.{process_udp_sent}
use kos_tool.Frames.Echo.{IpSummed}

-- A frame for the adapter that holds a datagram, which a machine of the order `e2` made.
pub record IsDatagram (e2 : Endian) (a : Adapter) (m : ℕ → ℕ) (ip : IpFields) (udp : UdpFields)
    (payload : List ℕ) : Type 0 where
  pub ip_frame : (m 12 ≡ 8) × (m 13 ≡ 0)
  pub to_us : same_at 6 m 0 a.mac 0 ≡ true
  pub ip_header : bytes_from 20 14 m ≡ make_ip e2 ip
  pub udp_header : bytes_from 8 34 m ≡ make_udp e2 ip udp payload
  pub contents : bytes_from udp.length 42 m ≡ payload
  pub is_ip : IsIp ip
  pub protocol : ip.protocol ≡ ip_udp_protocol
  pub addresses : IsU32 ip.src × IsU32 ip.dest
  pub ports : (udp.src < 65536) × (udp.dest < 65536)
  pub fits : udp.length + 22 < 65536
  pub bytes : (q : ℕ) → m q < 256

make_ip_back : (e2 : Endian) (ip : IpFields) → drop 12 (make_ip e2 ip) ≡ ip_back ip
unfolding make_ip
make_ip_back little ip = refl
make_ip_back big ip = refl

make_ip_front : (e2 : Endian) (ip : IpFields) → take 10 (make_ip e2 ip) ≡ ip_front ip
unfolding make_ip
make_ip_front e2 ip = refl

cleared_bytes :
    (e : Endian) (m : ℕ → ℕ)
    → bytes_from 20 14 (put_word e m 24 0) ≡ bytes_from 10 14 m ++ (0 ∷ 0 ∷ bytes_from 8 26 m)
cleared_bytes little m = refl
cleared_bytes big m = refl

make_udp_field :
    (e2 : Endian) (ip : IpFields) (udp : UdpFields) (payload : List ℕ) (rest : List ℕ)
    → (get_or (make_udp e2 ip udp payload ++ rest) 6 0 ≡ get_or (make_udp e2 ip udp payload) 6 0)
      × (get_or (make_udp e2 ip udp payload ++ rest) 7 0 ≡ get_or (make_udp e2 ip udp payload) 7 0)
unfolding make_udp
make_udp_field little ip udp payload rest = (refl, refl)
make_udp_field big ip udp payload rest = (refl, refl)

-- The checksum reads the addresses and the protocol only.
matches_same :
    (e : Endian) (ip ip2 : IpFields) (udp : UdpFields) (payload : List ℕ) (c0 c1 : ℕ)
    → ip2.src ≡ ip.src
    → ip2.dest ≡ ip.dest
    → ip2.protocol ≡ ip.protocol
    → udp_checksum_matches e ip2 udp payload c0 c1 ≡ udp_checksum_matches e ip udp payload c0 c1
unfolding udp_checksum_matches udp_checksum
matches_same e ip ip2 udp payload c0 c1 src dest protocol = rw (src, dest, protocol) refl

module _ (e e2 : Endian) (a : Adapter) (m : ℕ → ℕ) (ip : IpFields) (udp : UdpFields)
    (payload : List ℕ) (is : IsDatagram e2 a m ip udp payload) where
  back : bytes_from 8 26 m ≡ ip_back ip
  back = ap (drop 12) is.ip_header ∙ make_ip_back e2 ip

  front : bytes_from 10 14 m ≡ ip_front ip
  front = ap (take 10) is.ip_header ∙ make_ip_front e2 ip

  m-IpSummed : IpSummed e m 5
  unfolding ip_checksum_matches
  m-IpSummed =
      let header : bytes_from 20 14 (put_word e m 24 0) ≡ ip_front ip ++ (0 ∷ 0 ∷ ip_back ip) =
        cleared_bytes e m
        ∙ ap (λ l. l ++ (0 ∷ 0 ∷ bytes_from 8 26 m)) front
        ∙ ap (λ l. ip_front ip ++ (0 ∷ 0 ∷ l)) back in
      let c0 : m 24 ≡ get_or (make_ip e2 ip) 10 0 = ap (λ l. get_or l 10 0) is.ip_header in
      let c1 : m 25 ≡ get_or (make_ip e2 ip) 11 0 = ap (λ l. get_or l 11 0) is.ip_header in
      let good = (==_iff _ _).0 (make_ip-accepted e2 e ip is.is_ip) in
      rw (c0, c1) (sym (ap (λ l. checksum e l 10 false) header ∙ good))

  reached : process_pkt e a m ≡ some (process_udp e a 5 m)
  unfolding process_pkt process_mine process_ip
  reached =
      let sum = ip_checksum e (put_word e m 24 0) 5 in
      let good : (word_at e m 24 == sum) ≡ true = (==_iff _ sum).1 m-IpSummed in
      let same = put_word_same e m 24 sum is.bytes m-IpSummed in
      let words : m 14 % 16 ≡ 5 = ap (λ l. get_or l 0 0 % 16) front in
      let whole : ntohs_at m 20 % 2 ^ 14 ≡ 0 =
        ap (λ l. (get_or l 6 0 * 256 + get_or l 7 0) % 2 ^ 14) front in
      let protocol : m 23 ≡ 17 = ap (λ l. get_or l 9 0) front ∙ is.protocol in
      rw (is.ip_frame.0, is.ip_frame.1, is.to_us, words, whole, good, same, protocol) refl

  addressed_fields :
      (ntohl_at m 26 ≡ ip.src)
      × (ntohl_at m 30 ≡ ip.dest)
      × (m 23 ≡ ip.protocol)
      × (ntohs_at m 34 ≡ udp.src)
      × (ntohs_at m 36 ≡ udp.dest)
      × (ntohs_at m 38 ≡ udp.length + 8)
  unfolding make_udp
  addressed_fields =
      let (src, dest) = is.addresses in
      let (from, to) = is.ports in
      let fits = is.fits in
      let at : (i : ℕ) → get_or (bytes_from 8 26 m) i 0 ≡ get_or (ip_back ip) i 0 =
        λ i. ap (λ l. get_or l i 0) back in
      let udp_at : (i : ℕ)
          → get_or (bytes_from 8 34 m) i 0 ≡ get_or (make_udp e2 ip udp payload) i 0 =
        λ i. ap (λ l. get_or l i 0) is.udp_header in
      (
        omega (arith, at 0, at 1, at 2, at 3),
        omega (arith, at 4, at 5, at 6, at 7),
        ap (λ l. get_or l 9 0) front,
        omega (arith, udp_at 0, udp_at 1),
        omega (arith, udp_at 2, udp_at 3),
        omega (arith, udp_at 4, udp_at 5),
      )

  sum_matches :
      udp_checksum_matches e
        (record {
          dest = ntohl_at m 30;
          src = ntohl_at m 26;
          length = ntohs_at m 16 - 20;
          protocol = m 23;
          pkt_id0 = m 18;
          pkt_id1 = m 19;
        })
        udp
        payload
        (m 40)
        (m 41)
      ≡ true
  sum_matches =
      let (src, dest, protocol, _, _, _) = addressed_fields in
      let field = make_udp_field e2 ip udp payload payload in
      let c0 : m 40 ≡ get_or (make_udp e2 ip udp payload ++ payload) 6 0 =
        ap (λ l. get_or l 6 0) is.udp_header ∙ sym field.0 in
      let c1 : m 41 ≡ get_or (make_udp e2 ip udp payload ++ payload) 7 0 =
        ap (λ l. get_or l 7 0) is.udp_header ∙ sym field.1 in
      let payload_bytes : All IsByte payload =
        subst (All IsByte) is.contents (bytes_from-All udp.length 42 m is.bytes) in
      matches_same e ip _ udp payload (m 40) (m 41) src dest protocol
      ∙ rw (c0, c1) (make_udp-accepted e2 e ip udp payload is.protocol payload_bytes is.fits)

  -- Clearing the checksum field changes nothing that the handlers read.
  to_us_kept : same_at 6 (put_word e m 40 0) 0 a.mac 0 ≡ true
  unfolding same_at
  to_us_kept = is.to_us

  request_kept : request_of e (put_word e m 40 0) 34 ≡ request_of e m 34
  request_kept =
      ap (λ (d : ℕ → ℕ). record (request_of e m 34) { data_at = d })
        (λ i k.
          put_outside m 40 2 (λ j. get_or (stored e 0) j 0) (34 + 20 + k) (inr (omega arith)) i)

  udp_handed : m 42 ≢ 2 → (process_udp e a 5 m).handed ≡ some (command true (request_of e m 34))
  unfolding process_udp
  udp_handed no_dhcp =
      let (src, dest, protocol, from, to, size) = addressed_fields in
      let long : ltb (udp.length + 8) 8 ≡ false = ground arith in
      let len : udp.length + 8 - 8 ≡ udp.length = omega arith in
      let other : (m 42 == 2) ≡ false = ground arith in
      elim (Bool-cases (word_at e m 40 == 0xffff)) [
        | inl ones ↦
            rw (size, long, len, from, to, is.contents, sum_matches, ones, other, to_us_kept)
              (ap (λ r. some (command true r)) request_kept ∙ rw (from, to, size) refl)
        | inr plain ↦
            rw (size, long, len, from, to, is.contents, sum_matches, plain, other, is.to_us)
              (rw (from, to, size) refl)
      ]

  -- A UDP frame for the adapter, with the headers that a machine of either byte order makes and
  -- numbers that fit their fields, is handed to the command handlers of a machine of either byte
  -- order, unless its payload begins with the byte 2 of a DHCP reply: nothing else is sent, and
  -- the request has the sender's addresses, ports and length.
  pub process_pkt-make_udp :
      m 42 ≢ 2
      → (s : Outcome) × (process_pkt e a m ≡ some s)
        × (s.sent ≡ [])
        × (s.handed ≡ some (command true (request_of e m 34)))
        × ((request_of e m 34).ip_src ≡ ip.src)
        × ((request_of e m 34).ip_dest ≡ ip.dest)
        × ((request_of e m 34).udp_src ≡ udp.src)
        × ((request_of e m 34).udp_dest ≡ udp.dest)
        × ((request_of e m 34).udp_length ≡ udp.length + 8)
  process_pkt-make_udp no_dhcp =
      let (src, dest, protocol, from, to, size) = addressed_fields in
      (
        process_udp e a 5 m,
        reached,
        process_udp_sent e a 5 m,
        udp_handed no_dhcp,
        src,
        dest,
        from,
        to,
        size,
      )
