-- ===== src/Frames/Arp.antt =====
-- client/common/network/net.c answers ARP requests for its address as RFC 826 says.
use kos_tool.Prelude.{
  ℕ, ◌≡◌, ◌≢◌, refl, ap, ◌∙◌, inl, inr, arith, true, false, none, some, List, [], ◌∷◌, ◌++◌, ◌==◌,
  get_or, bytes_from, Bool-cases, chain_some,
}
use kos_tool.Wire.{be32}
use kos_tool.Checksum.{Endian}
use kos_tool.Frames.Memory.{Adapter, same_at, silent}
use kos_tool.Frames.Answers.{process_arp, arp_answer}
use kos_tool.Frames.Stack.{process_pkt, process_mine, process_broadcast, broadcast}

-- An Ethernet frame with an ARP packet for IP over Ethernet.
abbrev pub arp_frame : (ℕ → ℕ) → (ℕ → ℕ) → ℕ → (ℕ → ℕ) → ℕ → (ℕ → ℕ) → ℕ → List ℕ
arp_frame dest src opcode hw_sender sender hw_target target =
    bytes_from 6 0 dest
    ++ bytes_from 6 0 src
    ++ (0x08 ∷ 0x06 ∷ 0 ∷ 1 ∷ 0x08 ∷ 0 ∷ 6 ∷ 4 ∷ 0 ∷ opcode ∷ [])
    ++ bytes_from 6 0 hw_sender
    ++ be32 sender
    ++ bytes_from 6 0 hw_target
    ++ be32 target

-- The bytes of the answer, by those of the request.
arp_answer_lem :
    (a : Adapter) (m : ℕ → ℕ)
    → bytes_from 42 0 (arp_answer a m)
      ≡ bytes_from 6 6 m
        ++ bytes_from 6 0 a.mac
        ++ bytes_from 8 12 m
        ++ (0 ∷ 2 ∷ [])
        ++ bytes_from 6 0 a.mac
        ++ be32 a.our_ip
        ++ bytes_from 10 22 m
arp_answer_lem a m = refl

-- A request in the buffer gets its answer.
process_arp_lem :
    (a : Adapter) (pkt dest smac tmac : ℕ → ℕ) (sip : ℕ)
    → bytes_from 42 0 pkt ≡ arp_frame dest smac 1 smac sip tmac a.our_ip
    → a.our_ip ≢ 0
    → (process_arp a (silent pkt)
        ≡ record { pkt = arp_answer a pkt; sent = (arp_answer a pkt, 42) ∷ []; handed = none })
      × (bytes_from 42 0 (arp_answer a pkt) ≡ arp_frame smac a.mac 2 a.mac a.our_ip smac sip)
unfolding process_arp same_at
process_arp_lem a pkt dest smac tmac sip h some_ip =
    let at : (q : ℕ)
        → get_or (bytes_from 42 0 pkt) q 0
          ≡ get_or (arp_frame dest smac 1 smac sip tmac a.our_ip) q 0 =
      λ q. ap (λ l. get_or l q 0) h in
    let ip : (a.our_ip == 0) ≡ false = ground arith in
    let target : same_at 4 pkt 38 (λ i. get_or (be32 a.our_ip) i 0) 0 ≡ true =
      ground (arith, at 38, at 39, at 40, at 41) in
    (
      rw (at 13, at 14, at 15, at 16, at 17, at 20, at 21, ip, target) refl,
      rw
          (
            at 6,
            at 7,
            at 8,
            at 9,
            at 10,
            at 11,
            at 12,
            at 13,
            at 14,
            at 15,
            at 16,
            at 17,
            at 18,
            at 19,
            at 22,
            at 23,
            at 24,
            at 25,
            at 26,
            at 27,
            at 28,
            at 29,
            at 30,
            at 31,
          )
          refl,
    )

-- A frame of ARP is not processed as IP.
pub process_broadcast-process_arp :
    (e : Endian) (a : Adapter) (pkt : ℕ → ℕ)
    → pkt 13 ≡ 6
    → process_broadcast e a pkt ≡ some (process_arp a (silent pkt))
unfolding process_broadcast
process_broadcast-process_arp e a pkt h =
    chain_some {a = silent pkt} (λ s. some (process_arp a s)) (rw h refl)

-- A broadcast ARP request for the adapter's address, unless that is 0, gets one answer of 42
-- bytes: the ARP reply to the sender that gives the adapter's hardware address for the requested
-- one.
pub process_pkt-arp_frame :
    (e : Endian) (a : Adapter) (pkt smac tmac : ℕ → ℕ) (sip : ℕ)
    → bytes_from 42 0 pkt ≡ arp_frame broadcast smac 1 smac sip tmac a.our_ip
    → a.our_ip ≢ 0
    → (f : ℕ → ℕ) × (process_pkt e a pkt
        ≡ some (record { pkt = f; sent = (f, 42) ∷ []; handed = none }))
      × (bytes_from 42 0 f ≡ arp_frame smac a.mac 2 a.mac a.our_ip smac sip)
unfolding process_pkt process_mine same_at
process_pkt-arp_frame e a pkt smac tmac sip h some_ip =
    let at : (q : ℕ)
        → get_or (bytes_from 42 0 pkt) q 0
          ≡ get_or (arp_frame broadcast smac 1 smac sip tmac a.our_ip) q 0 =
      λ q. ap (λ l. get_or l q 0) h in
    let to_all : same_at 6 pkt 0 broadcast 0 ≡ true =
      ground (arith, at 0, at 1, at 2, at 3, at 4, at 5) in
    let (answered, answer) = process_arp_lem a pkt broadcast smac tmac sip h some_ip in
    let reached = process_broadcast-process_arp e a pkt (at 13) in
    let whole : process_pkt e a pkt ≡ process_broadcast e a pkt =
      elim (Bool-cases (same_at 6 pkt 0 a.mac 0)) [
        | inl mine ↦ rw (at 12, mine, at 13) refl
        | inr other ↦ rw (at 12, other, to_all) refl
      ] in
    (arp_answer a pkt, whole ∙ reached ∙ ap some answered, answer)
