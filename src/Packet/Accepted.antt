-- ===== src/Packet/Accepted.antt =====
-- The frames of client/common/network/packet_helpers.c do not depend on the byte order of the machine,
-- and the tests of client/common/network/net.c let them through.
use kos_tool.Prelude.{
  ℕ, zero, suc, ◌+◌, ◌*◌, ◌^◌, ◌≤◌, ◌<◌, ◌≡◌, refl, sym, ap, arith, Bool, true, false, List, [],
  ◌∷◌, ◌++◌, All, get_or, ==_iff, IsByte, add32,
}
use kos_tool.Checksum.{Endian, little, big, word, stored, checksum, add_words, fold}
use kos_tool.Checksum.ByteOrder.{stored-checksum}
use kos_tool.Packet.{IpFields, ip_front, ip_back, make_ip, ip_checksum_matches}

-- The numbers fit their fields.
pub record IsIp (f : IpFields) : Type 0 where
  pub protocol : IsByte f.protocol
  pub id0 : IsByte f.pkt_id0
  pub id1 : IsByte f.pkt_id1

ip_bytes : (f : IpFields) → IsIp f → All IsByte (ip_front f ++ (0 ∷ 0 ∷ ip_back f))
ip_bytes f h = let protocol = h.protocol in let id0 = h.id0 in let id1 = h.id1 in ground arith

-- The same header on both byte orders.
pub make_ip_same : (f : IpFields) → IsIp f → make_ip little f ≡ make_ip big f
unfolding make_ip
make_ip_same f h =
    ap (λ (c : List ℕ). ip_front f ++ c ++ ip_back f)
      (stored-checksum (ip_front f ++ (0 ∷ 0 ∷ ip_back f)) 10 false (ip_bytes f h) (omega arith))

-- The two bytes of a 16-bit value, read back in the order they were stored.
word-stored :
    (e : Endian) (w : ℕ) (rest : List ℕ)
    → w < 65536
    → word e (get_or (stored e w ++ rest) 0 0) (get_or (stored e w ++ rest) 1 0) ≡ w
word-stored little w rest h = omega arith
word-stored big w rest h = omega arith

pub word-stored_either :
    (e e2 : Endian) (w w2 : ℕ) (rest : List ℕ)
    → w2 < 65536
    → stored e w ≡ stored e2 w2
    → word e2 (get_or (stored e w ++ rest) 0 0) (get_or (stored e w ++ rest) 1 0) ≡ w2
word-stored_either e e2 w w2 rest h same = rw same (word-stored e2 w2 rest h)

pub fold_small : (sum : ℕ) → fold sum < 65536
unfolding fold
fold_small sum = omega arith

checksum_small : (e : Endian) (buf : List ℕ) (n : ℕ) (odd : Bool) → checksum e buf n odd < 65536
unfolding checksum
checksum_small e buf n odd = fold_small _

stored_either :
    (e e2 : Endian) (f : IpFields)
    → IsIp f
    → stored e (checksum e (ip_front f ++ (0 ∷ 0 ∷ ip_back f)) 10 false)
      ≡ stored e2 (checksum e2 (ip_front f ++ (0 ∷ 0 ∷ ip_back f)) 10 false)
stored_either little little f h = refl
stored_either little big f h = stored-checksum _ 10 false (ip_bytes f h) (omega arith)
stored_either big little f h = sym (stored-checksum _ 10 false (ip_bytes f h) (omega arith))
stored_either big big f h = refl

-- An IP header that any of the machines makes passes the checksum test of any other, which reads
-- the bytes 10 and 11 as the checksum and sums up the rest.
pub make_ip-accepted :
    (e e2 : Endian) (f : IpFields)
    → IsIp f
    → ip_checksum_matches e2
        (ip_front f)
        (get_or (make_ip e f) 10 0)
        (get_or (make_ip e f) 11 0)
        (ip_back f)
      ≡ true
unfolding make_ip ip_checksum_matches
make_ip-accepted e e2 f h = (==_iff _ _).1 (
    sym (
      word-stored_either e e2 _ _ (ip_back f) (checksum_small e2 _ 10 false)
        (stored_either e e2 f h)))

-- The sum over bytes stays within 16 bits a word, and never falls.
pub add_words_bounds :
    (e : Endian) (count : ℕ) (buf : List ℕ) (sum : ℕ)
    → All IsByte buf
    → sum + count * 65535 < 2 ^ 32
    → (sum ≤ (add_words e count buf sum).0)
      × ((add_words e count buf sum).0 ≤ sum + count * 65535)
      × All IsByte (add_words e count buf sum).1
unfolding add_words
add_words_bounds e zero buf sum bytes h = (omega arith, omega arith, bytes)
add_words_bounds e (suc count) [] sum bytes h = (omega arith, omega arith, bytes)
add_words_bounds e (suc count) (b0 ∷ []) sum bytes h = (omega arith, omega arith, bytes)
add_words_bounds e (suc count) (b0 ∷ b1 ∷ buf) sum (h0, (h1, bytes)) h =
    let w = word_bound e b0 b1 h0 h1 in
    let sum2 : add32 sum (word e b0 b1) ≡ sum + word e b0 b1 = omega arith in
    let (low, high, rest) =
      add_words_bounds e count buf (add32 sum (word e b0 b1)) bytes (omega arith) in
    (omega arith, omega arith, rest)
  where
    word_bound : (e : Endian) (b0 b1 : ℕ) → IsByte b0 → IsByte b1 → word e b0 b1 < 65536
    word_bound little b0 b1 h0 h1 = omega arith
    word_bound big b0 b1 h0 h1 = omega arith
