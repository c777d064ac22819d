-- ===== src/Scramble.antt =====
-- The order of the slices in a Dreamcast's 1ST_READ.BIN: host/src/binary/scramble.c. Memory is a
-- function of the offset.
use kos_tool.Prelude.{
  ℕ, zero, suc, ◌+◌, ◌-◌, ◌*◌, ◌/◌, ◌%◌, ◌^◌, ◌&&◌, ltb, leb, mul32, ◌==◌, if◌then◌else◌,
}
pub mod Disc
pub mod Draws
pub mod Rounds
pub mod Loops
pub mod RoundTrip

-- memcpy of `n` bytes.
abbrev pub copy : (ℕ → ℕ) → ℕ → (ℕ → ℕ) → ℕ → ℕ → (ℕ → ℕ)
copy dst d src s n p = if leb d p && ltb p (d + n) then src (s + (p - d)) else dst p

-- Two entries of the table exchanged.
abbrev pub exchange : (ℕ → ℕ) → ℕ → ℕ → (ℕ → ℕ)
exchange idx i x j = if j == x then idx i else if j == i then idx x else idx j

abbrev pub scramble_maxchunk_log : ℕ
scramble_maxchunk_log = 16

abbrev pub scramble_slice : ℕ
scramble_slice = 32

-- The new seed, and the number that is drawn from it.
abbrev pub next_seed : ℕ → ℕ
next_seed seed = (seed * 2109 + 9273) % 2 ^ 32 % 2 ^ 15

abbrev pub scramble_next : ℕ → ℕ
scramble_next seed = (next_seed seed + 0xc000) % 2 ^ 16

-- The table, the seed, the source's position and the output.
pub record Slices : Type 0 where
  pub idx : ℕ → ℕ
  pub seed : ℕ
  pub src : ℕ
  pub out : ℕ → ℕ

-- A round with the index `i`.
abbrev pub descramble_round : (ℕ → ℕ) → ℕ → ℕ → Slices → Slices
descramble_round input base i s =
    let x = mul32 (scramble_next s.seed) i / 2 ^ 16 in
    let idx = exchange s.idx i x in
    record {
      idx = idx;
      seed = next_seed s.seed;
      src = s.src + scramble_slice;
      out = copy s.out (base + idx i * scramble_slice) input s.src scramble_slice;
    }

-- The rounds from the index below the count down to 0.
unfoldable pub descramble_slices : (ℕ → ℕ) → ℕ → ℕ → Slices → Slices
descramble_slices input base zero s = s
descramble_slices input base (suc i) s =
    descramble_slices input base i (descramble_round input base i s)

-- The variables of the loops over the chunks. The source's position and the output's are equal
-- between chunks, for each chunk moves both by its size.
pub record Chunks : Type 0 where
  pub seed : ℕ
  pub remaining : ℕ
  pub base : ℕ
  pub out : ℕ → ℕ

unfoldable pub descramble_chunk : (ℕ → ℕ) → ℕ → Chunks → Chunks
unfolding descramble_slices
descramble_chunk input chunk c =
    let end =
      descramble_slices input c.base (chunk / scramble_slice)
        (record { idx = λ i. i; seed = c.seed; src = c.base; out = c.out }) in
    record {
      seed = end.seed;
      remaining = c.remaining - chunk;
      base = c.base + chunk;
      out = end.out;
    }

-- The `while` of one chunk size, on fuel.
unfoldable pub descramble_while : (ℕ → ℕ) → ℕ → ℕ → Chunks → Chunks
descramble_while input zero chunk c = c
descramble_while input (suc fuel) chunk c =
    let rest = descramble_while input fuel chunk (descramble_chunk input chunk c) in
    if leb chunk c.remaining then rest else c

-- The chunk sizes, from 32 * 2 ^ k down to 32.
unfoldable pub descramble_sizes : (ℕ → ℕ) → ℕ → Chunks → Chunks
unfolding descramble_while
descramble_sizes input zero c = descramble_while input c.remaining scramble_slice c
descramble_sizes input (suc k) c =
    descramble_sizes input k (descramble_while input c.remaining (2 ^ suc k * scramble_slice) c)

-- `out` is the memory before, the result the memory after.
unfoldable pub dc_descramble : (ℕ → ℕ) → (ℕ → ℕ) → ℕ → (ℕ → ℕ)
dc_descramble input out size =
    let end =
      descramble_sizes input scramble_maxchunk_log
        (record { seed = size % 2 ^ 16; remaining = size; base = 0; out = out }) in
    if end.remaining == 0 then end.out else copy end.out end.base input end.base end.remaining
