-- ===== src/Scramble/RoundTrip.antt =====
-- A disc image's boot file, scrambled by make-dist/tools/mkcdi-lite.c, is brought back by
-- host/src/binary/scramble.c.
use kos_tool.Prelude.{
  ℕ, zero, suc, ◌+◌, ◌*◌, ◌%◌, ◌^◌, ◌≤◌, ◌<◌, ◌≡◌, refl, ap, ◌∙◌, inl, inr, arith, ltb, ◌==◌,
  if◌then◌else◌, Bool-cases, lt→ltb, ltb→lt,
}
use native.Mathlib.Nat.{pow-le-pow_right}
use kos_tool.Scramble.{Chunks, copy, descramble_while, descramble_sizes, dc_descramble}
use kos_tool.Scramble.Disc.{scramble_while, scramble_sizes, dcdisc_scramble_binary}
use kos_tool.Scramble.Loops.{
  at, RightBelow, ReadsTo, while_outside, while_base, while_twin, while_right, while_ends,
}

-- Equal fields, equal states.
apart :
    (c d : Chunks)
    → c.remaining ≡ d.remaining
    → c.base ≡ d.base
    → c ≡ at c.seed d.remaining d.base c.out
apart c d r b = ground arith

pow_le : (k : ℕ) → suc k ≤ 16 → 2 ^ suc k ≤ 65536
pow_le k h = pow-le-pow_right (omega arith) h

module _ (bytes input : ℕ → ℕ) where
  sizes_outside :
      (k seed remaining base : ℕ) (dst : ℕ → ℕ) (p : ℕ)
      → p < base
      → (scramble_sizes bytes k (at seed remaining base dst)).out p ≡ dst p
  unfolding scramble_sizes
  sizes_outside zero seed remaining base dst p h =
      while_outside bytes input remaining 1 seed remaining base dst p h
  sizes_outside (suc k) seed remaining base dst p h =
      let grows = while_base bytes input remaining (2 ^ suc k) seed remaining base dst in
      sizes_outside k _ _ _ _ p (omega (arith, grows))
      ∙ while_outside bytes input remaining (2 ^ suc k) seed remaining base dst p h

  sizes_twin :
      (k seed seed2 remaining base : ℕ) (out dst : ℕ → ℕ)
      → k ≤ 16
      → seed ≡ seed2
      → ((descramble_sizes input k (at seed remaining base out)).remaining
          ≡ (scramble_sizes bytes k (at seed2 remaining base dst)).remaining)
        × ((descramble_sizes input k (at seed remaining base out)).base
            ≡ (scramble_sizes bytes k (at seed2 remaining base dst)).base)
        × (base ≤ (scramble_sizes bytes k (at seed2 remaining base dst)).base)
        × ((scramble_sizes bytes k (at seed2 remaining base dst)).base
              + (scramble_sizes bytes k (at seed2 remaining base dst)).remaining
            ≡ base + remaining)
  unfolding scramble_sizes descramble_sizes
  sizes_twin zero seed seed2 remaining base out dst h e =
      let (s, r, b, low, total) =
        while_twin bytes input remaining 1 seed seed2 remaining base out dst (omega arith) e in
      (r, b, low, total)
  sizes_twin (suc k) seed seed2 remaining base out dst h e =
      let big = pow_le k h in
      let w = descramble_while input remaining (2 ^ suc k * 32) (at seed remaining base out) in
      let v = scramble_while bytes remaining (2 ^ suc k * 32) (at seed2 remaining base dst) in
      let (s, r, b, low, total) =
        while_twin bytes input remaining (2 ^ suc k) seed seed2 remaining base out dst big e in
      let (r2, b2, low2, total2) =
        sizes_twin k w.seed v.seed v.remaining v.base w.out v.out (omega arith) s in
      let same = apart w v r b in
      (
        ap (λ c. (descramble_sizes input k c).remaining) same ∙ r2,
        ap (λ c. (descramble_sizes input k c).base) same ∙ b2,
        omega (arith, low, low2),
        omega (arith, total, total2),
      )

  sizes_right :
      (k seed seed2 remaining base : ℕ) (out dst : ℕ → ℕ)
      → k ≤ 16
      → seed ≡ seed2
      → ReadsTo bytes input base
          (scramble_sizes bytes k (at seed2 remaining base dst)).base
          (scramble_sizes bytes k (at seed2 remaining base dst)).out
      → RightBelow bytes input base out
      → RightBelow bytes input
          (scramble_sizes bytes k (at seed2 remaining base dst)).base
          (descramble_sizes input k (at seed remaining base out)).out
  unfolding scramble_sizes descramble_sizes
  sizes_right zero seed seed2 remaining base out dst h e reads right p low =
      while_right bytes input remaining 1 seed seed2 remaining base out dst (omega arith) e reads
        right p low
  sizes_right (suc k) seed seed2 remaining base out dst h e reads right p low =
      let big = pow_le k h in
      let w = descramble_while input remaining (2 ^ suc k * 32) (at seed remaining base out) in
      let v = scramble_while bytes remaining (2 ^ suc k * 32) (at seed2 remaining base dst) in
      let twin =
        while_twin bytes input remaining (2 ^ suc k) seed seed2 remaining base out dst big e in
      let more = sizes_twin k w.seed v.seed v.remaining v.base w.out v.out (omega arith) twin.0 in
      ap (λ c. (descramble_sizes input k c).out p) (apart w v twin.1 twin.2)
      ∙ sizes_right k w.seed v.seed v.remaining v.base w.out v.out (omega arith) twin.0
          (λ q above below. reads q (omega (arith, twin.3)) below)
          (while_right bytes input remaining (2 ^ suc k) seed seed2 remaining base out dst big e
            (λ q above below.
              reads q above (omega (arith, more.2)) ∙ sizes_outside k _ _ _ _ q below)
            right)
          p low

  -- Fewer than 32 bytes are left for the copy at the end.
  pub sizes_ends :
      (k seed remaining base : ℕ) (dst : ℕ → ℕ)
      → (scramble_sizes bytes k (at seed remaining base dst)).remaining < 32
  unfolding scramble_sizes
  sizes_ends zero seed remaining base dst =
      while_ends bytes input remaining 1 seed remaining base dst (omega arith) (omega arith)
  sizes_ends (suc k) seed remaining base dst = sizes_ends k _ _ _ _

-- The bytes that are left over, on each side.
scrambled_at :
    (bytes : ℕ → ℕ) (c : Chunks) (p : ℕ)
    → p < c.base + c.remaining
    → (if ltb 0 c.remaining then copy c.out c.base bytes c.base c.remaining else c.out) p
      ≡ (if ltb p c.base then c.out p else bytes p)
scrambled_at bytes c p h = ground arith

descrambled_at :
    (input : ℕ → ℕ) (c : Chunks) (p : ℕ)
    → p < c.base + c.remaining
    → (if c.remaining == 0 then c.out else copy c.out c.base input c.base c.remaining) p
      ≡ (if ltb p c.base then c.out p else input p)
descrambled_at input c p h = ground arith

-- What the disc builder scrambles, the host descrambles: for a program of any size, each byte of
-- it comes back, whatever was in the two output buffers before.
pub dc_descramble-dcdisc_scramble_binary :
    (bytes out dst : ℕ → ℕ) (size p : ℕ)
    → p < size
    → dc_descramble (dcdisc_scramble_binary bytes dst size) out size p ≡ bytes p
unfolding dc_descramble dcdisc_scramble_binary
dc_descramble-dcdisc_scramble_binary bytes out dst size p h =
    let seed = size % 2 ^ 16 in
    let input = dcdisc_scramble_binary bytes dst size in
    let e = scramble_sizes bytes 16 (at seed size 0 dst) in
    let d = descramble_sizes input 16 (at seed size 0 out) in
    let (r, b, low, total) =
      sizes_twin bytes input 16 seed seed size 0 out dst (omega arith) refl in
    let scrambled : (q : ℕ) → q < size → input q ≡ (if ltb q e.base then e.out q else bytes q) =
      λ q below. scrambled_at bytes e q (omega (arith, total)) in
    let right =
      sizes_right bytes input 16 seed seed size 0 out dst (omega arith) refl
        (λ q above below. scrambled q (omega (arith, total)) ∙ rw (lt→ltb q e.base below) refl)
        (λ q below. absurd (omega arith)) in
    descrambled_at input d p (omega (arith, total, r, b)) ∙ elim (Bool-cases (ltb p e.base)) [
      | inl l ↦ rw (b, l) (right p (ltb→lt p e.base l))
      | inr l ↦ rw (b, l) (scrambled p h ∙ rw l refl)
    ]
