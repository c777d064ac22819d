-- ===== src/Frames/Sums.antt =====
-- A checksum that client/common/network/net.c stores passes the test of any of the machines.
use kos_tool.Prelude.{
  ℕ, zero, suc, ◌+◌, ◌-◌, ◌≤◌, ◌<◌, ◌≡◌, refl, ap, sym, ◌∙◌, ◌⊎◌, inl, inr, arith, Bool, List, ltb,
  ◌==◌, get_or, bytes_from, Bool-cases, ==_iff, All,
}
use kos_tool.Prelude.{bytes_from_eq, bytes_from-All, IsByte, ltb→lt}
use kos_tool.Wire.{be32}
use kos_tool.Checksum.{Endian, little, big, word, stored, checksum}
use kos_tool.Checksum.ByteOrder.{stored-checksum}
use kos_tool.Packet.Accepted.{fold_small}
use kos_tool.Frames.Memory.{put, put_word, word_at}
use kos_tool.Frames.Puts.{put_outside, put_inside}

checksum_either :
    (e e2 : Endian) (buf : List ℕ) (count : ℕ) (odd : Bool)
    → All IsByte buf
    → count < 65536
    → stored e (checksum e buf count odd) ≡ stored e2 (checksum e2 buf count odd)
checksum_either little little buf count odd bytes small = refl
checksum_either little big buf count odd bytes small = stored-checksum buf count odd bytes small
checksum_either big little buf count odd bytes small =
    sym (stored-checksum buf count odd bytes small)
checksum_either big big buf count odd bytes small = refl

word_back :
    (e : Endian) (w : ℕ)
    → w < 65536
    → word e (get_or (stored e w) 0 0) (get_or (stored e w) 1 0) ≡ w
word_back little w h = omega arith
word_back big w h = omega arith

stored_zero : (e : Endian) (i : ℕ) → get_or (stored e 0) i 0 ≡ 0
stored_zero little zero = refl
stored_zero little (suc zero) = refl
stored_zero little (suc (suc i)) = refl
stored_zero big zero = refl
stored_zero big (suc zero) = refl
stored_zero big (suc (suc i)) = refl

-- Bytes stay bytes.
pub put_small :
    (m : ℕ → ℕ) (p n : ℕ) (source : ℕ → ℕ)
    → ((q : ℕ) → m q < 256)
    → ((i : ℕ) → source i < 256)
    → (q : ℕ) → put m p n source q < 256
put_small m p n source hm hs q = ground (arith, hm q, hs (q - p))

pub stored_small : (e : Endian) (w i : ℕ) → get_or (stored e w) i 0 < 256
stored_small little w zero = omega arith
stored_small little w (suc zero) = omega arith
stored_small little w (suc (suc i)) = omega arith
stored_small big w zero = omega arith
stored_small big w (suc zero) = omega arith
stored_small big w (suc (suc i)) = omega arith

pub be32_small : (ip i : ℕ) → get_or (be32 ip) i 0 < 256
be32_small ip zero = omega arith
be32_small ip (suc zero) = omega arith
be32_small ip (suc (suc zero)) = omega arith
be32_small ip (suc (suc (suc zero))) = omega arith
be32_small ip (suc (suc (suc (suc i)))) = omega arith

-- A byte of the two at `p`, or none of them.
in_or_out : (p q : ℕ) → ((q < p) ⊎ (p + 2 ≤ q)) ⊎ ((q ≡ p) ⊎ (q ≡ p + 1))
in_or_out p q = elim (Bool-cases (ltb q p)) [
  | inl below ↦ inl (inl (ltb→lt q p below))
  | inr above ↦ elim (Bool-cases (q == p)) [
    | inl first ↦ inr (inl ((==_iff q p).0 first))
    | inr other ↦ elim (Bool-cases (q == p + 1)) [
      | inl second ↦ inr (inr ((==_iff q (p + 1)).0 second))
      | inr neither ↦ inl (inr (ground arith))
    ]
  ]
]

-- A zero stored at `p` is there.
zero_at : (e : Endian) (m : ℕ → ℕ) (p q : ℕ) → (q ≡ p) ⊎ (q ≡ p + 1) → put_word e m p 0 q ≡ 0
zero_at e m p q (inl first) =
    ap (put_word e m p 0) (first ∙ omega arith)
    ∙ put_inside m p 2 (λ i. get_or (stored e 0) i 0) 0 (omega arith)
    ∙ stored_zero e 0
zero_at e m p q (inr second) =
    ap (put_word e m p 0) second
    ∙ put_inside m p 2 (λ i. get_or (stored e 0) i 0) 1 (omega arith)
    ∙ stored_zero e 1

-- A field that holds the word already: clearing and storing it leaves the buffer.
pub put_word_same :
    (e : Endian) (m : ℕ → ℕ) (p w : ℕ)
    → ((q : ℕ) → m q < 256)
    → word_at e m p ≡ w
    → put_word e (put_word e m p 0) p w ≡ m
put_word_same e m p w small same = λ i q. at q i
  where
    halves :
        (e : Endian) (w b0 b1 : ℕ)
        → IsByte b0
        → IsByte b1
        → word e b0 b1 ≡ w
        → (get_or (stored e w) 0 0 ≡ b0) × (get_or (stored e w) 1 0 ≡ b1)
    halves little w b0 b1 h0 h1 h = (omega arith, omega arith)
    halves big w b0 b1 h0 h1 h = (omega arith, omega arith)

    at : (q : ℕ) → put_word e (put_word e m p 0) p w q ≡ m q
    at q = elim (in_or_out p q) [
      | inl out ↦
          put_outside (put_word e m p 0) p 2 (λ i. get_or (stored e w) i 0) q out
          ∙ put_outside m p 2 (λ i. get_or (stored e 0) i 0) q out
      | inr (inl first) ↦
          ap (put_word e (put_word e m p 0) p w) (first ∙ omega arith)
          ∙ put_inside (put_word e m p 0) p 2 (λ i. get_or (stored e w) i 0) 0 (omega arith)
          ∙ (halves e w (m p) (m (p + 1)) (small p) (small (p + 1)) same).0
          ∙ ap m (sym first)
      | inr (inr second) ↦
          ap (put_word e (put_word e m p 0) p w) second
          ∙ put_inside (put_word e m p 0) p 2 (λ i. get_or (stored e w) i 0) 1 (omega arith)
          ∙ (halves e w (m p) (m (p + 1)) (small p) (small (p + 1)) same).1
          ∙ ap m (sym second)
    ]

checksum_small : (e : Endian) (buf : List ℕ) (n : ℕ) (odd : Bool) → checksum e buf n odd < 65536
unfolding checksum
checksum_small e buf n odd = fold_small _

-- The word at `p` is stored over zeros as the checksum of the bytes around it; `f` has these bytes.
pub word_at-checksum :
    (e e2 : Endian) (m f : ℕ → ℕ) (p at n count : ℕ) (odd : Bool)
    → ((q : ℕ) → m q < 256)
    → count < 65536
    → at ≤ p
    → p + 2 ≤ at + n
    → ((q : ℕ)
        → at ≤ q
        → q < at + n
        → f q
          ≡ put_word e
              (put_word e m p 0)
              p
              (checksum e (bytes_from n at (put_word e m p 0)) count odd)
              q)
    → word_at e2 f p ≡ checksum e2 (bytes_from n at (put_word e2 f p 0)) count odd
word_at-checksum e e2 m f p at n count odd small few low high same =
    let m0 = put_word e m p 0 in
    let buf = bytes_from n at m0 in
    let c = checksum e buf count odd in
    let c2 = checksum e2 buf count odd in
    let bytes =
      bytes_from-All n at m0
        (put_small m p 2 (λ i. get_or (stored e 0) i 0) small (stored_small e 0)) in
    let either = checksum_either e e2 buf count odd bytes few in
    let first : f p ≡ get_or (stored e2 c2) 0 0 =
      same p (omega arith) (omega arith)
      ∙ ap (put_word e m0 p c) (omega arith)
      ∙ put_inside m0 p 2 (λ i. get_or (stored e c) i 0) 0 (omega arith)
      ∙ ap (λ l. get_or l 0 0) either in
    let second : f (p + 1) ≡ get_or (stored e2 c2) 1 0 =
      same (p + 1) (omega arith) (omega arith)
      ∙ put_inside m0 p 2 (λ i. get_or (stored e c) i 0) 1 (omega arith)
      ∙ ap (λ l. get_or l 1 0) either in
    let cleared : (k : ℕ) → k < n → m0 (at + k) ≡ put_word e2 f p 0 (at + k) = λ k below.
      elim (in_or_out p (at + k)) [
        | inl out ↦ sym (
            put_outside f p 2 (λ i. get_or (stored e2 0) i 0) (at + k) out
            ∙ same (at + k) (omega arith) (omega arith)
            ∙ put_outside m0 p 2 (λ i. get_or (stored e c) i 0) (at + k) out)
        | inr there ↦ zero_at e m p (at + k) there ∙ sym (zero_at e2 f p (at + k) there)
      ] in
    rw (first, second) (word_back e2 c2 (checksum_small e2 buf count odd))
    ∙ ap (λ l. checksum e2 l count odd) (bytes_from_eq n at at m0 (put_word e2 f p 0) cleared)
