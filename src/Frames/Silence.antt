-- ===== src/Frames/Silence.antt =====
-- No answer of client/common/network/net.c is answered again.
use kos_tool.Prelude.{
  ℕ, ◌+◌, ◌*◌, ◌/◌, ◌%◌, ◌^◌, ◌≤◌, ◌<◌, ◌≡◌, refl, ap, sym, ◌∙◌, ◌⊎◌, inl, inr, arith, some, [],
  ◌∷◌, ltb, ◌==◌, get_or, Bool-cases, ==_iff, chain_parts, All,
}
use mathlib.Core.Option.{some_inj}
use mathlib.Core.Path.{subst}
use kos_tool.Checksum.{Endian, stored}
use kos_tool.Frames.Memory.{Adapter, same_at, Outcome, silent, ntohs_at, put, put_word, word_at}
use kos_tool.Frames.Answers.{
  process_arp, arp_answer, process_icmp, icmp_answer, icmp_checksum, ip_checksum,
}
use kos_tool.Frames.Puts.{icmp_answer_at, addressed_at, put_outside, put_inside}
use kos_tool.Frames.Datagrams.{process_udp}
use kos_tool.Frames.Stack.{process_pkt, process_mine, process_broadcast, process_ip, broadcast}

-- What makes a frame an answer: a packet of ARP that is no request, or an IP packet that holds no
-- echo request.
abbrev pub IsAnswer : (ℕ → ℕ) → Type 0
IsAnswer f =
    ((f 13 ≡ 6) × (ntohs_at f 20 ≡ 2))
    ⊎ ((f 13 ≡ 0) × (5 ≤ f 14 % 16) × (f (14 + 4 * (f 14 % 16)) ≡ 0))

pub process_arp_sent :
    (a : Adapter) (s : Outcome)
    → (process_arp a s ≡ s)
      ⊎ ((process_arp a s).sent ≡ (arp_answer a s.pkt, 42) ∷ s.sent) × (s.pkt 13 ≡ 6)
unfolding process_arp
process_arp_sent a s = ground arith

arp_answer-IsAnswer : (a : Adapter) (m : ℕ → ℕ) → m 13 ≡ 6 → IsAnswer (arp_answer a m)
arp_answer-IsAnswer a m h = inl (h, refl)

icmp_answer-IsAnswer :
    (e : Endian) (a : Adapter) (ihl ip_length : ℕ) (m : ℕ → ℕ)
    → m 13 ≡ 0
    → ihl ≡ m 14 % 16
    → 5 ≤ ihl
    → IsAnswer (icmp_answer e a ihl ip_length m)
icmp_answer-IsAnswer e a ihl ip_length m type same long =
    let at : (q : ℕ) → 12 ≤ q → q < 15 → icmp_answer e a ihl ip_length m q ≡ m q = λ q low high.
      icmp_answer_at e a ihl ip_length m q (inl (omega arith)) (inl (omega arith))
      ∙ addressed_at a (14 + 4 * ihl) m q low (inl (omega arith))
      ∙ put_outside m (14 + 4 * ihl) 1 (λ i. 0) q (inl (omega arith)) in
    let words : icmp_answer e a ihl ip_length m 14 % 16 ≡ ihl =
      ap (λ b. b % 16) (at 14 (omega arith) (omega arith)) ∙ sym same in
    let zeroed : icmp_answer e a ihl ip_length m (14 + 4 * ihl) ≡ 0 =
      icmp_answer_at e a ihl ip_length m (14 + 4 * ihl) (inr (omega arith)) (inl (omega arith))
      ∙ addressed_at a (14 + 4 * ihl) m (14 + 4 * ihl) (omega arith) (inr (omega arith))
      ∙ ap (put m (14 + 4 * ihl) 1 (λ i. 0)) (omega arith)
      ∙ put_inside m (14 + 4 * ihl) 1 (λ i. 0) 0 (omega arith) in
    inr (
      at 13 (omega arith) (omega arith) ∙ type,
      omega (arith, words),
      ap (λ w. icmp_answer e a ihl ip_length m (14 + 4 * w)) words ∙ zeroed,
    )

-- The frames that are sent are answers.
abbrev pub AllAnswers : Outcome → Type 0
AllAnswers s = All (λ f. IsAnswer f.0) s.sent

-- A word stored behind the first 24 bytes leaves the type and the length of the header.
pub put_word_type : (e : Endian) (m : ℕ → ℕ) (p w q : ℕ) → q < p → put_word e m p w q ≡ m q
put_word_type e m p w q h = put_outside m p 2 (λ i. get_or (stored e w) i 0) q (inl h)

process_icmp-AllAnswers :
    (e : Endian) (a : Adapter) (ihl : ℕ) (pkt : ℕ → ℕ) (s : Outcome)
    → process_icmp e a ihl pkt ≡ some s
    → pkt 13 ≡ 0
    → ihl ≡ pkt 14 % 16
    → 5 ≤ ihl
    → AllAnswers s
unfolding process_icmp
process_icmp-AllAnswers e a ihl pkt s h type same long =
    let ip_length = ntohs_at pkt 16 in
    let m = put_word e pkt (14 + 4 * ihl + 2) 0 in
    let c = icmp_checksum e m ihl ip_length in
    let summed = put_word e m (14 + 4 * ihl + 2) c in
    let kept : (q : ℕ) → q < 15 → summed q ≡ pkt q = λ q low.
      put_word_type e m (14 + 4 * ihl + 2) c q (omega arith)
      ∙ put_word_type e pkt (14 + 4 * ihl + 2) 0 q (omega arith) in
    let is =
      icmp_answer-IsAnswer e a ihl ip_length summed (kept 13 (omega arith) ∙ type)
        (same ∙ ap (λ b. b % 16) (sym (kept 14 (omega arith)))) long in
    elim (Bool-cases (pkt (14 + 4 * ihl) == 8)) [
      | inr other ↦ subst AllAnswers (some_inj.0 (rw other at h)) tt
      | inl echo ↦ elim (Bool-cases (ltb (ip_length / 2) (2 * ihl))) [
        | inl short ↦ absurd (ground (arith, rw (echo, short) at h))
        | inr enough ↦ elim (Bool-cases (word_at e pkt (14 + 4 * ihl + 2) == c)) [
          | inr bad ↦ subst AllAnswers (some_inj.0 (rw (echo, enough, bad) at h)) tt
          | inl good ↦ subst AllAnswers (some_inj.0 (rw (echo, enough, good) at h)) (is, tt)
        ]
      ]
    ]

pub process_udp_sent :
    (e : Endian) (a : Adapter) (ihl : ℕ) (pkt : ℕ → ℕ) → (process_udp e a ihl pkt).sent ≡ []
unfolding process_udp
process_udp_sent e a ihl pkt = ground arith

process_ip-AllAnswers :
    (e : Endian) (a : Adapter) (pkt : ℕ → ℕ) (s : Outcome)
    → process_ip e a pkt ≡ some s
    → pkt 13 ≡ 0
    → 5 ≤ pkt 14 % 16
    → AllAnswers s
unfolding process_ip
process_ip-AllAnswers e a pkt s h type long =
    let ihl = pkt 14 % 16 in
    let cleared = put_word e pkt 24 0 in
    let sum = ip_checksum e cleared ihl in
    let m = put_word e cleared 24 sum in
    let kept : (q : ℕ) → q < 15 → m q ≡ pkt q = λ q low.
      put_word_type e cleared 24 sum q (omega arith) ∙ put_word_type e pkt 24 0 q (omega arith) in
    elim (Bool-cases (ntohs_at pkt 20 % 2 ^ 14 == 0)) [
      | inr part ↦ subst AllAnswers (some_inj.0 (rw part at h)) tt
      | inl plain ↦ elim (Bool-cases (word_at e pkt 24 == sum)) [
        | inr bad ↦ subst AllAnswers (some_inj.0 (rw (plain, bad) at h)) tt
        | inl good ↦ elim (Bool-cases (m 23 == 17)) [
          | inl udp ↦
              subst AllAnswers (some_inj.0 (rw (plain, good, udp) at h))
                (rw (process_udp_sent e a ihl m) tt)
          | inr other ↦ elim (Bool-cases (m 23 == 1)) [
            | inl icmp ↦
                process_icmp-AllAnswers e a ihl m s (rw (plain, good, other, icmp) at h)
                  (kept 13 (omega arith) ∙ type) (ap (λ b. b % 16) (sym (kept 14 (omega arith))))
                  long
            | inr neither ↦ subst AllAnswers (some_inj.0 (rw (plain, good, other, neither) at h)) tt
          ]
        ]
      ]
    ]

process_arp-AllAnswers : (a : Adapter) (s : Outcome) → AllAnswers s → AllAnswers (process_arp a s)
process_arp-AllAnswers a s h = elim (process_arp_sent a s) [
  | inl same ↦ subst AllAnswers (sym same) h
  | inr (sent, arp) ↦ rw sent (arp_answer-IsAnswer a s.pkt arp, h)
]

process_broadcast-AllAnswers :
    (e : Endian) (a : Adapter) (pkt : ℕ → ℕ) (s : Outcome)
    → process_broadcast e a pkt ≡ some s
    → (pkt 13 ≡ 0 → 5 ≤ pkt 14 % 16)
    → AllAnswers s
unfolding process_broadcast
process_broadcast-AllAnswers e a pkt s h long = elim (Bool-cases (pkt 13 == 0)) [
  | inl ip ↦
      let type : pkt 13 ≡ 0 = (==_iff (pkt 13) 0).0 ip in
      let (first, made, last) =
        chain_parts (process_ip e a pkt) (λ t. some (process_arp a t)) s (rw ip at h) in
      subst AllAnswers (some_inj.0 last)
        (process_arp-AllAnswers a first (process_ip-AllAnswers e a pkt first made type (long type)))
  | inr other ↦
      subst AllAnswers (some_inj.0 (rw other at h)) (process_arp-AllAnswers a (silent pkt) tt)
]

process_mine-AllAnswers :
    (e : Endian) (a : Adapter) (pkt : ℕ → ℕ) (s : Outcome)
    → process_mine e a pkt ≡ some s
    → (pkt 13 ≡ 0 → 5 ≤ pkt 14 % 16)
    → AllAnswers s
unfolding process_mine
process_mine-AllAnswers e a pkt s h long = elim (Bool-cases (pkt 13 == 0)) [
  | inl ip ↦
      let type : pkt 13 ≡ 0 = (==_iff (pkt 13) 0).0 ip in
      process_ip-AllAnswers e a pkt s (rw ip at h) type (long type)
  | inr other ↦ elim (Bool-cases (pkt 13 == 6)) [
    | inl arp ↦ process_broadcast-AllAnswers e a pkt s (rw (other, arp) at h) long
    | inr neither ↦ subst AllAnswers (some_inj.0 (rw (other, neither) at h)) tt
  ]
]

pub process_pkt-AllAnswers :
    (e : Endian) (a : Adapter) (pkt : ℕ → ℕ) (s : Outcome)
    → process_pkt e a pkt ≡ some s
    → (pkt 13 ≡ 0 → 5 ≤ pkt 14 % 16)
    → AllAnswers s
unfolding process_pkt
process_pkt-AllAnswers e a pkt s h long = elim (Bool-cases (pkt 12 == 8)) [
  | inr no_ip ↦ subst AllAnswers (some_inj.0 (rw no_ip at h)) tt
  | inl ip ↦ elim (Bool-cases (same_at 6 pkt 0 a.mac 0)) [
    | inl mine ↦ process_mine-AllAnswers e a pkt s (rw (ip, mine) at h) long
    | inr other ↦ elim (Bool-cases (same_at 6 pkt 0 broadcast 0)) [
      | inl all ↦ process_broadcast-AllAnswers e a pkt s (rw (ip, other, all) at h) long
      | inr none_of ↦ subst AllAnswers (some_inj.0 (rw (ip, other, none_of) at h)) tt
    ]
  ]
]
