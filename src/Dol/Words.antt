-- ===== src/Dol/Words.antt =====
-- Words and bytes of a DOL: reading what make-dist/tools/elf2dol.c wrote, as host/src/binary/dol.c
-- reads it.
use kos_tool.Prelude.{
  ℕ, zero, suc, ◌+◌, ◌≤◌, ◌<◌, ◌≡◌, refl, ap, ◌⊎◌, arith, ltb, leb, ◌&&◌, ◌==◌, if◌then◌else◌,
  IsU32, true,
}
use kos_tool.Dol.{read32be}
use kos_tool.Dol.Writer.{write32be, pad, append_bytes}

pub read32be-write32be : (h : ℕ → ℕ) (p v : ℕ) → IsU32 v → read32be (write32be h p v) p ≡ v
read32be-write32be h p v small = ground arith

pub read32be-write32be_apart :
    (h : ℕ → ℕ) (p v q : ℕ)
    → (p + 4 ≤ q) ⊎ (q + 4 ≤ p)
    → read32be (write32be h p v) q ≡ read32be h q
read32be-write32be_apart h p v q apart = ground arith

pub read32be_eq :
    (h k : ℕ → ℕ) (q : ℕ) → ((p : ℕ) → q ≤ p → p < q + 4 → h p ≡ k p) → read32be h q ≡ read32be k q
read32be_eq h k q same = ground (
  arith,
  same q (omega arith) (omega arith),
  same (q + 1) (omega arith) (omega arith),
  same (q + 2) (omega arith) (omega arith),
  same (q + 3) (omega arith) (omega arith),
)

-- Padding and appending leave what stands before them.
pub pad_before :
    (fuel position offset : ℕ) (file : ℕ → ℕ) (q : ℕ)
    → q < position
    → pad fuel position offset file q ≡ file q
unfolding pad
pad_before zero position offset file q h = refl
pad_before (suc fuel) position offset file q h = ground (
  arith,
  pad_before fuel (position + 1) offset (λ p. if p == position then 0 else file p) q (omega arith),
)

pub append_bytes_at :
    (file source : ℕ → ℕ) (position at n k : ℕ)
    → k < n
    → append_bytes file position source at n (position + k) ≡ source (at + k)
append_bytes_at file source position at n k h =
    let inside : (leb position (position + k) && ltb (position + k) (position + n)) ≡ true =
      ground arith in
    rw inside (ap (λ d. source (at + d)) (omega arith))
