-- ===== src/Host/Send/Stream.antt =====
-- Which packets an upload streams (host/src/transport/network.c), and that they are the chunks the
-- client tracks (client/common/core/commands.c).
use kos_tool.Prelude.{
  ℕ, zero, suc, ◌+◌, ◌-◌, ◌*◌, ◌^◌, ◌≤◌, ◌<◌, ◌≡◌, refl, ap, ◌∙◌, arith, Bool, true, false, List,
  [], ◌∷◌, ltb, leb, if◌then◌else◌, add32, min, ◌⊎◌, inl, inr,
}
use native.Mathlib.Nat.{suc-mul}
use kos_tool.Host.Send.{Sent, partbin, stream, stream_all, chunk_size_of, num_chunks}

-- The packets of the chunks `k`, `k + 1`, …, `n` of them, and a list sent in order.
unfoldable pub plan : ℕ → ℕ → ℕ → ℕ → ℕ → ℕ → List Sent
plan chunk_size buf dest_addr size zero k = []
plan chunk_size buf dest_addr size (suc n) k =
    partbin (add32 dest_addr (k * chunk_size)) (min (size - k * chunk_size) chunk_size)
      (buf + k * chunk_size)
    ∷ plan chunk_size buf dest_addr size n (k + 1)

unfoldable pub in_order : List Sent → List Sent → List Sent
in_order [] sent = sent
in_order (x ∷ xs) sent = in_order xs (x ∷ sent)

row_after : (k c : ℕ) → (k + 1) * c ≡ k * c + c
row_after k c = ap (λ (x : ℕ). x * c) (omega arith) ∙ suc-mul k c

-- From chunk `k` on, with `n` chunks left.
stream_from :
    (rounds n k c buf dest size : ℕ) (sent : List Sent)
    → 0 < c
    → size + c < 2 ^ 32
    → n ≤ rounds
    → size ≤ n * c + k * c
    → (n ≡ 0) ⊎ (n * c + k * c < size + c)
    → stream rounds c buf dest size (k * c) sent ≡ in_order (plan c buf dest size n k) sent
unfolding stream plan in_order
stream_from zero zero k c buf dest size sent pos small le enough tight = refl
stream_from zero (suc n) k c buf dest size sent pos small le enough tight = absurd (omega arith)
stream_from (suc rounds) zero k c buf dest size sent pos small le enough tight =
    let ended : ltb (k * c) size ≡ false = ground arith in rw ended refl
stream_from (suc rounds) (suc n) k c buf dest size sent pos small le enough tight =
    let product : suc n * c ≡ n * c + c = suc-mul n c in
    let next : (k + 1) * c ≡ k * c + c = row_after k c in
    let inside : ltb (k * c) size ≡ true = ground arith in
    let off : add32 (k * c) c ≡ (k + 1) * c = omega arith in
    let amount : (if leb c (size - k * c) then c else size - k * c) ≡ min (size - k * c) c =
      ground arith in
    rw (inside, off, amount)
      (stream_from rounds n (k + 1) c buf dest size _ pos small (omega arith) (omega arith)
        (inr (below tight)))
  where
    below : (suc n ≡ 0) ⊎ (suc n * c + k * c < size + c) → n * c + (k + 1) * c < size + c
    below (inl e) = absurd (omega arith)
    below (inr h) = omega (arith, suc-mul n c, row_after k c)

-- For sizes below 2 ^ 32 - 1440, the stream of an upload is the chunks of 1440 bytes (1024 for a
-- legacy client), the last one shorter, each once and in order, as many as the size needs.
pub stream_all-plan :
    (legacy_mode : Bool) (buf dest size : ℕ) (sent : List Sent)
    → size + 1440 < 2 ^ 32
    → stream_all legacy_mode buf dest size sent
      ≡ in_order
          (plan
            (chunk_size_of legacy_mode)
            buf
            dest
            size
            (num_chunks (chunk_size_of legacy_mode) size)
            0)
          sent
stream_all-plan true buf dest size sent small =
    stream_from size (num_chunks 1024 size) 0 1024 buf dest size sent (omega arith) (omega arith)
      (omega arith) (omega arith) (inr (omega arith))
stream_all-plan false buf dest size sent small =
    stream_from size (num_chunks 1440 size) 0 1440 buf dest size sent (omega arith) (omega arith)
      (omega arith) (omega arith) (inr (omega arith))
