-- ===== src/Scramble/Rounds.antt =====
-- One chunk: what `dc_descramble` of host/src/binary/scramble.c makes of the slices that
-- `dcdisc_scramble_chunk` of make-dist/tools/mkcdi-lite.c wrote.
use kos_tool.Prelude.{
  ℕ, zero, suc, ◌+◌, ◌-◌, ◌*◌, ◌/◌, ◌^◌, ◌≤◌, ◌<◌, ◌≡◌, refl, ap, ◌∙◌, ◌⊎◌, inl, inr, arith, ltb,
  leb, ◌&&◌, Bool-cases, true,
}
use kos_tool.Scramble.{
  Slices, copy, exchange, scramble_next, next_seed, descramble_slices, descramble_round,
}
use kos_tool.Scramble.Disc.{Indices, scramble_slices, scramble_round}
use kos_tool.Scramble.Draws.{draw-le, mul32-draw, InSlice, Named, exchange-Named}

-- The scrambler writes between its offset and the end of its rounds only.
pub scramble_slices_outside :
    (bytes : ℕ → ℕ) (base i : ℕ) (t : Indices) (p : ℕ)
    → (p < base + t.out_offset) ⊎ (base + t.out_offset + 32 * i ≤ p)
    → (scramble_slices bytes base i t).dst p ≡ t.dst p
unfolding scramble_slices
scramble_slices_outside bytes base zero t p h = refl
scramble_slices_outside bytes base (suc i) t p h =
    scramble_slices_outside bytes base i (scramble_round bytes base i t) p (ground arith)
    ∙ ground arith

module _ (bytes input : ℕ → ℕ) (base : ℕ) where
  -- Both loops with the same table, seed and position.
  abbrev host : (ℕ → ℕ) → ℕ → ℕ → (ℕ → ℕ) → Slices
  host idx seed off out = record { idx = idx; seed = seed; src = base + off; out = out }

  abbrev disc : (ℕ → ℕ) → ℕ → ℕ → (ℕ → ℕ) → Indices
  disc idx seed off dst = record { indices = idx; seed = seed; out_offset = off; dst = dst }

  abbrev table : (ℕ → ℕ) → ℕ → ℕ → (ℕ → ℕ)
  table idx seed i = exchange idx i (scramble_next seed * i / 2 ^ 16)

  abbrev written : (ℕ → ℕ) → ℕ → ℕ → ℕ → (ℕ → ℕ) → (ℕ → ℕ)
  written idx seed i off out = copy out (base + table idx seed i i * 32) input (base + off) 32

  host_round :
      (i : ℕ) (idx : ℕ → ℕ) (seed off : ℕ) (out : ℕ → ℕ)
      → i < 65536
      → descramble_round input base i (host idx seed off out)
        ≡ host (table idx seed i) (next_seed seed) (off + 32) (written idx seed i off out)
  host_round i idx seed off out h =
      rw (mul32-draw (scramble_next seed) i (omega arith) h) (ground arith)

  pub slices_seed :
      (i : ℕ) (idx : ℕ → ℕ) (seed off : ℕ) (out dst : ℕ → ℕ)
      → i ≤ 65536
      → (descramble_slices input base i (host idx seed off out)).seed
        ≡ (scramble_slices bytes base i (disc idx seed off dst)).seed
  unfolding descramble_slices scramble_slices
  slices_seed zero idx seed off out dst h = refl
  slices_seed (suc i) idx seed off out dst h =
      ap (λ (s : Slices). (descramble_slices input base i s).seed)
        (host_round i idx seed off out (omega arith))
      ∙ slices_seed i (table idx seed i) (next_seed seed) (off + 32) (written idx seed i off out) _
          (omega arith)

  -- What the descrambler reads is what the scrambler leaves.
  abbrev pub Reads : ℕ → (ℕ → ℕ) → ℕ → ℕ → (ℕ → ℕ) → Type 0
  Reads i idx seed off dst =
      (p : ℕ)
      → base + off ≤ p
      → p < base + off + 32 * i
      → input p ≡ (scramble_slices bytes base i (disc idx seed off dst)).dst p

  written_right :
      (i : ℕ) (idx : ℕ → ℕ) (seed off : ℕ) (out dst : ℕ → ℕ)
      → Reads (suc i) idx seed off dst
      → (p : ℕ) → InSlice base (table idx seed i i) p
      → written idx seed i off out p ≡ bytes p
  unfolding scramble_slices
  written_right i idx seed off out dst reads p (low, high) =
      let q = base + off + (p - (base + table idx seed i i * 32)) in
      let read = reads q (omega arith) (omega arith) in
      let final =
        scramble_slices_outside bytes base i (scramble_round bytes base i (disc idx seed off dst)) q
          (inl (omega arith)) in
      let source : (scramble_round bytes base i (disc idx seed off dst)).dst q ≡ bytes p =
        let v = table idx seed i i in
        let inside : (leb (base + off) q && ltb q (base + off + 32)) ≡ true = ground arith in
        let at : base + 32 * v + (q - (base + off)) ≡ p = omega arith in rw inside (ap bytes at) in
      let taken : written idx seed i off out p ≡ input q = ground arith in
      taken ∙ read ∙ final ∙ source

  written_keeps :
      (i : ℕ) (idx : ℕ → ℕ) (seed off : ℕ) (out dst : ℕ → ℕ)
      → Reads (suc i) idx seed off dst
      → (p : ℕ) → out p ≡ bytes p
      → written idx seed i off out p ≡ bytes p
  written_keeps i idx seed off out dst reads p right =
      elim (Bool-cases
        (leb (base + table idx seed i i * 32) p && ltb p (base + table idx seed i i * 32 + 32))) [
          | inl e ↦ written_right i idx seed off out dst reads p (ground arith)
          | inr e ↦ rw e right
        ]

  next_drawn :
      (i : ℕ) (idx : ℕ → ℕ) (seed off : ℕ) (out dst : ℕ → ℕ)
      → Reads (suc i) idx seed off dst
      → (p : ℕ) → (out p ≡ bytes p) ⊎ Named idx base (suc i) p
      → (written idx seed i off out p ≡ bytes p) ⊎ Named (table idx seed i) base i p
  next_drawn i idx seed off out dst reads p (inl right) =
      inl (written_keeps i idx seed off out dst reads p right)
  next_drawn i idx seed off out dst reads p (inr named) =
      elim (exchange-Named idx base i (scramble_next seed * i / 2 ^ 16) p
        (draw-le (scramble_next seed) i (omega arith)) named) [
          | inl is ↦ inl (written_right i idx seed off out dst reads p is)
          | inr still ↦ inr still
        ]

  -- A byte that is right, or whose slice an entry still names, is right in the end.
  pub descramble_slices-right :
      (i : ℕ) (idx : ℕ → ℕ) (seed off : ℕ) (out dst : ℕ → ℕ)
      → i ≤ 65536
      → Reads i idx seed off dst
      → (p : ℕ) → (out p ≡ bytes p) ⊎ Named idx base i p
      → (descramble_slices input base i (host idx seed off out)).out p ≡ bytes p
  unfolding descramble_slices scramble_slices
  descramble_slices-right zero idx seed off out dst h reads p (inl right) = right
  descramble_slices-right zero idx seed off out dst h reads p (inr (j, low, is)) =
      absurd (omega arith)
  descramble_slices-right (suc i) idx seed off out dst h reads p named =
      let before : (written idx seed i off out p ≡ bytes p) ⊎ Named (table idx seed i) base i p =
        next_drawn i idx seed off out dst reads p named in
      ap (λ (s : Slices). (descramble_slices input base i s).out p)
        (host_round i idx seed off out (omega arith))
      ∙ descramble_slices-right i (table idx seed i) (next_seed seed) (off + 32)
          (written idx seed i off out) _ (omega arith)
          (λ q low high. reads q (omega arith) (omega arith)) p before
