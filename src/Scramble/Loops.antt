-- ===== src/Scramble/Loops.antt =====
-- The chunks of one size: the loops of make-dist/tools/mkcdi-lite.c and host/src/binary/scramble.c
-- side by side.
use kos_tool.Prelude.{
  ℕ, zero, suc, ◌+◌, ◌-◌, ◌*◌, ◌/◌, ◌≤◌, ◌<◌, ◌≡◌, refl, ap, ◌∙◌, ◌⊎◌, inl, inr, arith, ltb, leb,
  Bool-cases, leb→le,
}
use kos_tool.Scramble.{Chunks, Slices, descramble_chunk, descramble_while, descramble_slices}
use kos_tool.Scramble.Disc.{dcdisc_scramble_chunk, scramble_while, scramble_slices, Indices}
use kos_tool.Scramble.Rounds.{scramble_slices_outside, slices_seed, descramble_slices-right}

-- The variables between two chunks, with the memory apart.
abbrev pub at : ℕ → ℕ → ℕ → (ℕ → ℕ) → Chunks
at seed remaining base out = record { seed = seed; remaining = remaining; base = base; out = out }

-- The first state of the scrambler's rounds.
abbrev first : (ℕ → ℕ) → ℕ → Indices
first dst seed = record { indices = λ i. i; seed = seed; out_offset = 0; dst = dst }

-- The first state of the descrambler's rounds.
abbrev opening : (ℕ → ℕ) → ℕ → ℕ → Slices
opening out seed src = record { idx = λ i. i; seed = seed; src = src; out = out }

module _ (bytes input : ℕ → ℕ) where
  -- All bytes below the base are right.
  abbrev pub RightBelow : ℕ → (ℕ → ℕ) → Type 0
  RightBelow base out = (p : ℕ) → p < base → out p ≡ bytes p

  abbrev pub ReadsTo : ℕ → ℕ → (ℕ → ℕ) → Type 0
  ReadsTo low high scrambled = (p : ℕ) → low ≤ p → p < high → input p ≡ scrambled p

  chunk_outside :
      (n seed remaining base : ℕ) (dst : ℕ → ℕ) (p : ℕ)
      → (p < base) ⊎ (base + 32 * n ≤ p)
      → (dcdisc_scramble_chunk bytes (n * 32) (at seed remaining base dst)).out p ≡ dst p
  unfolding dcdisc_scramble_chunk
  chunk_outside n seed remaining base dst p side =
      let rounds : n * 32 / 32 ≡ n = omega arith in
      rw rounds (scramble_slices_outside bytes base n _ p (ground arith))

  chunk_seed :
      (n seed seed2 remaining base : ℕ) (out dst : ℕ → ℕ)
      → n ≤ 65536
      → seed ≡ seed2
      → (descramble_chunk input (n * 32) (at seed remaining base out)).seed
        ≡ (dcdisc_scramble_chunk bytes (n * 32) (at seed2 remaining base dst)).seed
  unfolding dcdisc_scramble_chunk descramble_chunk
  chunk_seed n seed seed2 remaining base out dst h e =
      let rounds : n * 32 / 32 ≡ n = omega arith in
      rw (rounds, e)
        (ap (λ b. (descramble_slices input base n (opening out seed2 b)).seed) (omega arith)
          ∙ slices_seed bytes input base n (λ i. i) seed2 0 out dst h)

  chunk_right :
      (n seed seed2 remaining base : ℕ) (out dst : ℕ → ℕ)
      → n ≤ 65536
      → seed ≡ seed2
      → ReadsTo base
          (base + n * 32)
          (dcdisc_scramble_chunk bytes (n * 32) (at seed2 remaining base dst)).out
      → RightBelow base out
      → RightBelow
          (base + n * 32)
          (descramble_chunk input (n * 32) (at seed remaining base out)).out
  unfolding dcdisc_scramble_chunk descramble_chunk
  chunk_right n seed seed2 remaining base out dst h e reads right p low =
      let rounds : n * 32 / 32 ≡ n = omega arith in
      let slices : (q : ℕ)
          → base + 0 ≤ q
          → q < base + 0 + 32 * n
          → input q ≡ (scramble_slices bytes base n (first dst seed2)).dst q =
        λ q above below. reads q (omega arith) (omega arith) ∙ rw rounds refl in
      rw (rounds, e)
        (ap (λ b. (descramble_slices input base n (opening out seed2 b)).out p) (omega arith)
          ∙ descramble_slices-right bytes input base n (λ i. i) seed2 0 out dst h slices p
              (elim (Bool-cases (ltb p base)) [
                | inl e ↦ inl (right p (ground arith))
                | inr e ↦ inr ((p - base) / 32, ground arith, (ground arith, ground arith))
              ]))

  -- The loop of one size, with the same variables and its own memory on each side.
  pub while_outside :
      (fuel n seed remaining base : ℕ) (dst : ℕ → ℕ) (p : ℕ)
      → p < base
      → (scramble_while bytes fuel (n * 32) (at seed remaining base dst)).out p ≡ dst p
  unfolding scramble_while dcdisc_scramble_chunk
  while_outside zero n seed remaining base dst p h = refl
  while_outside (suc fuel) n seed remaining base dst p h =
      elim (Bool-cases (leb (n * 32) remaining)) [
        | inl e ↦ rw e (
            while_outside fuel n _ _ _ _ p (omega arith)
            ∙ chunk_outside n seed remaining base dst p (inl h))
        | inr e ↦ rw e refl
      ]

  -- Where both loops of one size end, from equal seeds.
  pub while_twin :
      (fuel n seed seed2 remaining base : ℕ) (out dst : ℕ → ℕ)
      → n ≤ 65536
      → seed ≡ seed2
      → ((descramble_while input fuel (n * 32) (at seed remaining base out)).seed
          ≡ (scramble_while bytes fuel (n * 32) (at seed2 remaining base dst)).seed)
        × ((descramble_while input fuel (n * 32) (at seed remaining base out)).remaining
            ≡ (scramble_while bytes fuel (n * 32) (at seed2 remaining base dst)).remaining)
        × ((descramble_while input fuel (n * 32) (at seed remaining base out)).base
            ≡ (scramble_while bytes fuel (n * 32) (at seed2 remaining base dst)).base)
        × (base ≤ (scramble_while bytes fuel (n * 32) (at seed2 remaining base dst)).base)
        × ((scramble_while bytes fuel (n * 32) (at seed2 remaining base dst)).base
              + (scramble_while bytes fuel (n * 32) (at seed2 remaining base dst)).remaining
            ≡ base + remaining)
  unfolding scramble_while dcdisc_scramble_chunk descramble_while descramble_chunk
  while_twin zero n seed seed2 remaining base out dst h e = (e, refl, refl, omega arith, refl)
  while_twin (suc fuel) n seed seed2 remaining base out dst h e =
      elim (Bool-cases (leb (n * 32) remaining)) [
        | inl l ↦
            let (s, r, b, low, total) =
              while_twin fuel n _ _ (remaining - n * 32) (base + n * 32) _ _ h
                (chunk_seed n seed seed2 remaining base out dst h e) in
            rw l (s, r, b, omega arith, omega (arith, total, leb→le (n * 32) remaining l))
        | inr l ↦ rw l (e, refl, refl, omega arith, refl)
      ]

  pub while_right :
      (fuel n seed seed2 remaining base : ℕ) (out dst : ℕ → ℕ)
      → n ≤ 65536
      → seed ≡ seed2
      → ReadsTo base
          (scramble_while bytes fuel (n * 32) (at seed2 remaining base dst)).base
          (scramble_while bytes fuel (n * 32) (at seed2 remaining base dst)).out
      → RightBelow base out
      → RightBelow
          (scramble_while bytes fuel (n * 32) (at seed2 remaining base dst)).base
          (descramble_while input fuel (n * 32) (at seed remaining base out)).out
  unfolding scramble_while dcdisc_scramble_chunk descramble_while descramble_chunk
  while_right zero n seed seed2 remaining base out dst h e reads right = right
  while_right (suc fuel) n seed seed2 remaining base out dst h e reads right =
      elim (Bool-cases (leb (n * 32) remaining)) [
        | inl l ↦
            let after = chunk_seed n seed seed2 remaining base out dst h e in
            let twin =
              while_twin fuel n _ _ (remaining - n * 32) (base + n * 32)
                (descramble_chunk input (n * 32) (at seed remaining base out)).out
                (dcdisc_scramble_chunk bytes (n * 32) (at seed2 remaining base dst)).out h after in
            let kept = rw l at reads in
            rw l (
              while_right fuel n _ _ (remaining - n * 32) (base + n * 32) _ _ h after
                (λ p low high. kept p (omega arith) high)
                (chunk_right n seed seed2 remaining base out dst h e
                  (λ p low high.
                    kept p low (omega (arith, twin.3)) ∙ while_outside fuel n _ _ _ _ p high)
                  right))
        | inr l ↦ rw l right
      ]

  pub while_base :
      (fuel n seed remaining base : ℕ) (dst : ℕ → ℕ)
      → base ≤ (scramble_while bytes fuel (n * 32) (at seed remaining base dst)).base
  unfolding scramble_while dcdisc_scramble_chunk
  while_base zero n seed remaining base dst = omega arith
  while_base (suc fuel) n seed remaining base dst = ground (
    arith,
    while_base fuel n (dcdisc_scramble_chunk bytes (n * 32) (at seed remaining base dst)).seed
        (remaining - n * 32) (base + n * 32)
        (dcdisc_scramble_chunk bytes (n * 32) (at seed remaining base dst)).out,
  )

  -- The fuel of a loop is enough: it ends with less than a chunk.
  pub while_ends :
      (fuel n seed remaining base : ℕ) (dst : ℕ → ℕ)
      → remaining ≤ fuel
      → 0 < n
      → (scramble_while bytes fuel (n * 32) (at seed remaining base dst)).remaining < n * 32
  unfolding scramble_while dcdisc_scramble_chunk
  while_ends zero n seed remaining base dst h some_n = ground arith
  while_ends (suc fuel) n seed remaining base dst h some_n =
      elim (Bool-cases (leb (n * 32) remaining)) [
        | inl l ↦ rw l (
            while_ends fuel n _ (remaining - n * 32) (base + n * 32) _
              (omega (arith, leb→le (n * 32) remaining l)) some_n)
        | inr l ↦ rw l (ground arith)
      ]
