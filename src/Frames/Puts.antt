-- ===== src/Frames/Puts.antt =====
-- Which bytes of the buffer of client/common/network/net.c the answer to an echo request has from
-- the request.
use kos_tool.Prelude.{
  ℕ, ◌+◌, ◌*◌, ◌≤◌, ◌<◌, ◌≡◌, ap, ◌∙◌, ◌⊎◌, inr, arith, true, ◌&&◌, ltb, leb, get_or,
}
use kos_tool.Wire.{be32}
use kos_tool.Checksum.{Endian, stored}
use kos_tool.Frames.Memory.{Adapter, put, memcpy, put_ip, put_word}
use kos_tool.Frames.Answers.{icmp_answer, icmp_checksum, ip_checksum}

pub put_outside :
    (m : ℕ → ℕ) (p n : ℕ) (source : ℕ → ℕ) (q : ℕ)
    → (q < p) ⊎ (p + n ≤ q)
    → put m p n source q ≡ m q
put_outside m p n source q out = ground arith

pub put_inside :
    (m : ℕ → ℕ) (p n : ℕ) (source : ℕ → ℕ) (k : ℕ) → k < n → put m p n source (p + k) ≡ source k
put_inside m p n source k h =
    let inside : (leb p (p + k) && ltb (p + k) (p + n)) ≡ true = ground arith in
    rw inside (ap source (omega arith))

-- The answer before its checksums.
abbrev pub addressed : Adapter → ℕ → (ℕ → ℕ) → (ℕ → ℕ)
addressed a icmp m =
    put_ip (memcpy (put (memcpy (put m icmp 1 (λ i. 0)) 0 6 6) 6 6 a.mac) 30 26 4) 26 a.our_ip

pub addressed_at :
    (a : Adapter) (icmp : ℕ) (m : ℕ → ℕ) (q : ℕ)
    → 12 ≤ q
    → (q < 26) ⊎ (34 ≤ q)
    → addressed a icmp m q ≡ put m icmp 1 (λ i. 0) q
addressed_at a icmp m q low out =
    let m0 = put m icmp 1 (λ i. 0) in
    let m1 = memcpy m0 0 6 6 in
    let m2 = put m1 6 6 a.mac in
    let m3 = memcpy m2 30 26 4 in
    put_outside m3 26 4 (λ i. get_or (be32 a.our_ip) i 0) q (ground arith)
    ∙ put_outside m2 30 4 (λ i. m2 (26 + i)) q (ground arith)
    ∙ put_outside m1 6 6 a.mac q (inr (omega arith))
    ∙ put_outside m0 0 6 (λ i. m0 (6 + i)) q (inr (omega arith))

pub icmp_answer_at :
    (e : Endian) (a : Adapter) (ihl ip_length : ℕ) (m : ℕ → ℕ) (q : ℕ)
    → (q < 24) ⊎ (26 ≤ q)
    → (q < 14 + 4 * ihl + 2) ⊎ (14 + 4 * ihl + 4 ≤ q)
    → icmp_answer e a ihl ip_length m q ≡ addressed a (14 + 4 * ihl) m q
icmp_answer_at e a ihl ip_length m q out_ip out_icmp =
    let icmp = 14 + 4 * ihl in
    let m2 = addressed a icmp m in
    let m3 = put_word e m2 24 0 in
    let m4 = put_word e m3 24 (ip_checksum e m3 ihl) in
    let m5 = put_word e m4 (icmp + 2) 0 in
    put_outside m5 (icmp + 2) 2 (λ i. get_or (stored e (icmp_checksum e m5 ihl ip_length)) i 0) q
      (ground arith)
    ∙ put_outside m4 (icmp + 2) 2 (λ i. get_or (stored e 0) i 0) q (ground arith)
    ∙ put_outside m3 24 2 (λ i. get_or (stored e (ip_checksum e m3 ihl)) i 0) q (ground arith)
    ∙ put_outside m2 24 2 (λ i. get_or (stored e 0) i 0) q (ground arith)
