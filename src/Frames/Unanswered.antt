-- ===== src/Frames/Unanswered.antt =====
-- A frame that is an answer makes client/common/network/net.c send nothing.
use kos_tool.Prelude.{
  ℕ, ◌+◌, ◌*◌, ◌%◌, ◌^◌, ◌≤◌, ◌≡◌, refl, ap, ◌∙◌, inl, inr, arith, Option, some, List, [], ◌∷◌,
  ◌==◌, get_or, Bool-cases, All,
}
use kos_tool.Checksum.{Endian, stored}
use kos_tool.Frames.Memory.{Adapter, same_at, Outcome, silent, ntohs_at, put_word, word_at}
use kos_tool.Frames.Answers.{process_arp, process_icmp, ip_checksum}
use kos_tool.Frames.Puts.{put_outside}
use kos_tool.Frames.Datagrams.{process_udp}
use kos_tool.Frames.Stack.{process_pkt, process_mine, process_broadcast, process_ip, broadcast}
use kos_tool.Frames.Silence.{IsAnswer, process_udp_sent, put_word_type, process_pkt-AllAnswers}
use kos_tool.Frames.Arp.{process_broadcast-process_arp}

-- The frame leads to no other, and the sums over it end.
abbrev pub Silences : Option Outcome → Type 0
Silences o = (s : Outcome) × (o ≡ some s) × (s.sent ≡ [])

silent-Silences : (m : ℕ → ℕ) → Silences (some (silent m))
silent-Silences m = (silent m, refl, refl)

-- An ARP packet that is no request stays.
process_arp_other :
    (a : Adapter) (m : ℕ → ℕ) → ntohs_at m 20 ≡ 2 → process_arp a (silent m) ≡ silent m
unfolding process_arp
process_arp_other a m h = ground (arith, h)

process_udp_type :
    (e : Endian) (a : Adapter) (ihl : ℕ) (pkt : ℕ → ℕ) → (process_udp e a ihl pkt).pkt 13 ≡ pkt 13
unfolding process_udp
process_udp_type e a ihl pkt =
    let kept = put_word_type e pkt (14 + 4 * ihl + 6) 0 13 (omega arith) in ground (arith, kept)

-- An IP packet without an echo request: nothing is sent, and the type stays.
process_ip_other :
    (e : Endian) (a : Adapter) (pkt : ℕ → ℕ)
    → 5 ≤ pkt 14 % 16
    → pkt (14 + 4 * (pkt 14 % 16)) ≡ 0
    → (s : Outcome) × (process_ip e a pkt ≡ some s) × (s.sent ≡ []) × (s.pkt 13 ≡ pkt 13)
unfolding process_ip process_icmp
process_ip_other e a pkt long zeroed =
    let ihl = pkt 14 % 16 in
    let cleared = put_word e pkt 24 0 in
    let sum = ip_checksum e cleared ihl in
    let m = put_word e cleared 24 sum in
    let kept =
      put_word_type e cleared 24 sum 13 (omega arith) ∙ put_word_type e pkt 24 0 13 (omega arith) in
    let there : m (14 + 4 * ihl) ≡ 0 =
      put_outside cleared 24 2 (λ i. get_or (stored e sum) i 0) (14 + 4 * ihl) (inr (omega arith))
      ∙ put_outside pkt 24 2 (λ i. get_or (stored e 0) i 0) (14 + 4 * ihl) (inr (omega arith))
      ∙ zeroed in
    elim (Bool-cases (ntohs_at pkt 20 % 2 ^ 14 == 0)) [
      | inr part ↦ (silent pkt, rw part refl, refl, refl)
      | inl plain ↦ elim (Bool-cases (word_at e pkt 24 == sum)) [
        | inr bad ↦ (silent m, rw (plain, bad) refl, refl, kept)
        | inl good ↦ elim (Bool-cases (m 23 == 17)) [
          | inl udp ↦ (
            process_udp e a ihl m,
            rw (plain, good, udp) refl,
            process_udp_sent e a ihl m,
            process_udp_type e a ihl m ∙ kept,
          )
          | inr other ↦ elim (Bool-cases (m 23 == 1)) [
            | inl icmp ↦ (silent m, rw (plain, good, other, icmp, there) refl, refl, kept)
            | inr neither ↦ (silent m, rw (plain, good, other, neither) refl, refl, kept)
          ]
        ]
      ]
    ]

-- An IP packet to all, whose type stays.
broadcast_ip :
    (e : Endian) (a : Adapter) (f : ℕ → ℕ) (s : Outcome)
    → f 13 ≡ 0
    → process_ip e a f ≡ some s
    → s.sent ≡ []
    → s.pkt 13 ≡ 0
    → Silences (process_broadcast e a f)
unfolding process_broadcast process_arp
broadcast_ip e a f s type made nothing kept = (s, rw (type, made, kept) refl, nothing)

process_broadcast-Silences :
    (e : Endian) (a : Adapter) (f : ℕ → ℕ) → IsAnswer f → Silences (process_broadcast e a f)
process_broadcast-Silences e a f (inl (type, reply)) = (
  silent f,
  process_broadcast-process_arp e a f type ∙ ap some (process_arp_other a f reply),
  refl,
)
process_broadcast-Silences e a f (inr (type, long, zeroed)) =
    let (s, made, nothing, kept) = process_ip_other e a f long zeroed in
    broadcast_ip e a f s type made nothing (kept ∙ type)

process_pkt-Silences :
    (e : Endian) (a : Adapter) (f : ℕ → ℕ) → IsAnswer f → Silences (process_pkt e a f)
unfolding process_pkt process_mine
process_pkt-Silences e a f is = elim (Bool-cases (f 12 == 8)) [
  | inr no_ip ↦ rw no_ip (silent-Silences f)
  | inl ip ↦ elim (Bool-cases (same_at 6 f 0 a.mac 0)) [
    | inl mine ↦
        rw (ip, mine)
          (elim is [
            | inl (type, reply) ↦ rw type (process_broadcast-Silences e a f (inl (type, reply)))
            | inr (type, long, zeroed) ↦
                let (s, made, nothing, kept) = process_ip_other e a f long zeroed in
                (s, rw type made, nothing)
          ])
    | inr other ↦ elim (Bool-cases (same_at 6 f 0 broadcast 0)) [
      | inl all ↦ rw (ip, other, all) (process_broadcast-Silences e a f is)
      | inr none_of ↦ rw (ip, other, none_of) (silent-Silences f)
    ]
  ]
]

answers_ignored :
    (e : Endian) (a : Adapter) (fs : List ((ℕ → ℕ) × ℕ))
    → All (λ f. IsAnswer f.0) fs
    → All (λ f. Silences (process_pkt e a f.0)) fs
answers_ignored e a [] h = tt
answers_ignored e a (f ∷ fs) (h, hs) = (process_pkt-Silences e a f.0 h, answers_ignored e a fs hs)

-- No frame that the ARP and ICMP code sends is answered again: whatever frame an adapter
-- received, if an IP header in it has at least five words, each frame that it sends in return
-- leads any adapter to process it without sending one.
pub process_pkt-unanswered :
    (e e2 : Endian) (a b : Adapter) (pkt : ℕ → ℕ) (s : Outcome)
    → process_pkt e a pkt ≡ some s
    → (pkt 13 ≡ 0 → 5 ≤ pkt 14 % 16)
    → All (λ f. Silences (process_pkt e2 b f.0)) s.sent
process_pkt-unanswered e e2 a b pkt s h long =
    answers_ignored e2 b s.sent (process_pkt-AllAnswers e a pkt s h long)
