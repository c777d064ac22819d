-- ===== src/Scramble/Disc.antt =====
-- The scrambler of the disc images: make-dist/tools/mkcdi-lite.c.
use kos_tool.Prelude.{ℕ, zero, suc, ◌+◌, ◌-◌, ◌*◌, ◌/◌, ◌%◌, ◌^◌, ltb, leb, if◌then◌else◌}
use kos_tool.Scramble.{copy, exchange, Chunks}

abbrev pub dcdisc_seed : ℕ → ℕ
dcdisc_seed seed = (seed * 2109 + 9273) % 2 ^ 32 % 2 ^ 15

abbrev pub dcdisc_rand : ℕ → ℕ
dcdisc_rand seed = (dcdisc_seed seed + 0xc000) % 2 ^ 16

pub record Indices : Type 0 where
  pub indices : ℕ → ℕ
  pub seed : ℕ
  pub out_offset : ℕ
  pub dst : ℕ → ℕ

-- A round with the index `i`; the product is a size_t.
abbrev pub scramble_round : (ℕ → ℕ) → ℕ → ℕ → Indices → Indices
scramble_round src offset i s =
    let x = dcdisc_rand s.seed * i / 2 ^ 16 in
    let indices = exchange s.indices i x in
    record {
      indices = indices;
      seed = dcdisc_seed s.seed;
      out_offset = s.out_offset + 32;
      dst = copy s.dst (offset + s.out_offset) src (offset + 32 * indices i) 32;
    }

unfoldable pub scramble_slices : (ℕ → ℕ) → ℕ → ℕ → Indices → Indices
scramble_slices src offset zero s = s
scramble_slices src offset (suc i) s = scramble_slices src offset i (scramble_round src offset i s)

unfoldable pub dcdisc_scramble_chunk : (ℕ → ℕ) → ℕ → Chunks → Chunks
unfolding scramble_slices
dcdisc_scramble_chunk src chunk_size c =
    let end =
      scramble_slices src c.base (chunk_size / 32)
        (record { indices = λ i. i; seed = c.seed; out_offset = 0; dst = c.out }) in
    record {
      seed = end.seed;
      remaining = c.remaining - chunk_size;
      base = c.base + chunk_size;
      out = end.dst;
    }

unfoldable pub scramble_while : (ℕ → ℕ) → ℕ → ℕ → Chunks → Chunks
scramble_while src zero chunk_size c = c
scramble_while src (suc fuel) chunk_size c =
    let rest = scramble_while src fuel chunk_size (dcdisc_scramble_chunk src chunk_size c) in
    if leb chunk_size c.remaining then rest else c

unfoldable pub scramble_sizes : (ℕ → ℕ) → ℕ → Chunks → Chunks
unfolding scramble_while
scramble_sizes src zero c = scramble_while src c.remaining 32 c
scramble_sizes src (suc k) c =
    scramble_sizes src k (scramble_while src c.remaining (2 ^ suc k * 32) c)

-- `dst` is the allocated memory before, the result the memory after.
unfoldable pub dcdisc_scramble_binary : (ℕ → ℕ) → (ℕ → ℕ) → ℕ → (ℕ → ℕ)
dcdisc_scramble_binary src dst size =
    let end =
      scramble_sizes src 16
        (record { seed = size % 2 ^ 16; remaining = size; base = 0; out = dst }) in
    if ltb 0 end.remaining then copy end.out end.base src end.base end.remaining else end.out
