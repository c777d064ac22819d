-- ===== src/Serial/Blocks.antt =====
-- The two sides of a word and of a data block, client/common/serial/serial_transport.c against
-- host/src/transport/serial.c, meet.
use kos_tool.Prelude.{
  ℕ, zero, suc, ◌/◌, ◌%◌, ◌^◌, ◌≤◌, ◌<◌, ◌≡◌, refl, sym, subst, ap, Bool, true, Option, none, some,
  List, [], ◌∷◌, ◌++◌, length, take, drop, ltb, ◌==◌, if◌then◌else◌, arith, Bool-cases, inl, inr,
}
use kos_tool.Serial.Io.{ret, ◌>>=◌, ◌>>◌, put_byte, get_byte, put_all}
use kos_tool.Serial.Io.Meets.{
  done, tool_puts, tool_gets, loader_puts, loader_gets, Agree, loader_ends, tool_then, bytes_down,
}
use kos_tool.Serial.Loader.{
  Lzo, IsLzo, xor_sum, serial_data_good, serial_data_bad, add_top, put_uint, get_uint,
  load_data_block_general, load_block, load_uncompressed, load_compressed, left_of,
}
use kos_tool.Serial.Tool
use kos_tool.Serial.Tool.{
  word, send_uint, recv_uint, send_chunk, send_chunks, lzo_send_data, recv_block, recv_uncompressed,
  recv_compressed, lzo_recv_data, serial_buffer_size,
}

abbrev shifted : ℕ → ℕ → ℕ → ℕ → ℕ
shifted b0 b1 b2 b3 = add_top (add_top (add_top (add_top 0 b0 / 2 ^ 8) b1 / 2 ^ 8) b2 / 2 ^ 8) b3

abbrev bytes_word : ℕ → ℕ
bytes_word v = word (v % 256) (v / 2 ^ 8 % 256) (v / 2 ^ 16 % 256) (v / 2 ^ 24 % 256)

shifted_lem :
    (v : ℕ)
    → v < 2 ^ 32
    → shifted (v % 256) (v / 2 ^ 8 % 256) (v / 2 ^ 16 % 256) (v / 2 ^ 24 % 256) ≡ v
shifted_lem v h = omega arith

bytes_word_lem : (v : ℕ) → v < 2 ^ 32 → bytes_word v ≡ v
bytes_word_lem v h = omega arith

-- A word of the tool's is the loader's, and its echo is right.
pub uint_down : (v : ℕ) → v < 2 ^ 32 → Agree (send_uint v) get_uint true v
unfolding send_uint get_uint
uint_down v h =
    subst (λ (e : Bool). Agree (send_uint v) get_uint e v) (ground (arith, bytes_word_lem v h))
      (subst (λ r. Agree (send_uint v) get_uint (bytes_word r == v) r) (shifted_lem v h)
        (tool_puts (
          loader_gets (
            tool_puts (
              loader_gets (
                tool_puts (
                  loader_gets (
                    tool_puts (
                      loader_gets (
                        loader_puts (
                          tool_gets (
                            loader_puts (
                              tool_gets (
                                loader_puts (tool_gets (loader_puts (tool_gets done)))))))))))))))))

pub uint_up : (v : ℕ) → v < 2 ^ 32 → Agree recv_uint (put_uint v) v tt
unfolding recv_uint put_uint
uint_up v h =
    subst (λ r. Agree recv_uint (put_uint v) r tt) (bytes_word_lem v h)
      (loader_puts (
        tool_gets
          (loader_puts (tool_gets (loader_puts (tool_gets (loader_puts (tool_gets done))))))))

module _ (lzo : Lzo) (is : IsLzo lzo) (tries : ℕ) where
  -- A chunk that is unpacked is acknowledged at once.
  acknowledged_up :
      (buffer chunk : List ℕ) (o : Option (List ℕ))
      → o ≡ some chunk
      → Agree
          (do
            ack ← get_byte
            if ack == serial_data_good then ret tt else Tool.send_packed tries buffer)
          (do put_byte (elim o [ none ↦ serial_data_bad | some b ↦ serial_data_good ]); ret o)
          tt
          o
  acknowledged_up buffer chunk none h = absurd (ground arith)
  acknowledged_up buffer chunk (some b) h = loader_puts (tool_gets done)

  packed_down :
      (chunk : List ℕ)
      → Agree
          (Tool.send_packed (suc tries) (lzo.compress chunk))
          (load_compressed lzo (length (lzo.compress chunk)))
          tt
          (some chunk)
  unfolding Tool.send_packed load_compressed
  packed_down chunk =
      let buffer = lzo.compress chunk in
      subst
        (λ o.
          Agree (Tool.send_packed (suc tries) buffer) (load_compressed lzo (length buffer)) tt o)
        (is.round_trip chunk)
        (tool_then _ (bytes_down buffer) (
          tool_puts (
            loader_gets
              (acknowledged_up buffer chunk (lzo.decompress buffer) (is.round_trip chunk)))))

  plain_down :
      (chunk : List ℕ)
      → Agree
          (do put_all chunk; put_byte (xor_sum chunk 0); ack ← get_byte; ret tt)
          (load_uncompressed (length chunk))
          tt
          (some chunk)
  unfolding load_uncompressed
  plain_down chunk =
      tool_then _ (bytes_down chunk) (tool_puts (loader_gets (loader_puts (tool_gets done))))

  chunk_down :
      (chunk : List ℕ)
      → length chunk < 2 ^ 32
      → Agree (send_chunk lzo (suc tries) chunk) (load_block lzo) tt (some chunk)
  unfolding send_chunk load_block
  chunk_down chunk short = elim (Bool-cases (ltb (length (lzo.compress chunk)) (length chunk))) [
    | inl e ↦ rw e (
        tool_puts (
          loader_gets (
            tool_then _ (uint_down (length (lzo.compress chunk)) (ground arith))
              (packed_down chunk))))
    | inr e ↦
        rw e (
          tool_puts (loader_gets (tool_then _ (uint_down (length chunk) short) (plain_down chunk))))
  ]

pub take-append-drop : (n : ℕ) (xs : List ℕ) → take n xs ++ drop n xs ≡ xs
take-append-drop zero xs = refl
take-append-drop (suc n) [] = refl
take-append-drop (suc n) (x ∷ xs) = ap (λ (l : List ℕ). x ∷ l) (take-append-drop n xs)

left_of-take : (n : ℕ) (xs : List ℕ) → left_of (length xs) (length (take n xs)) ≡ length (drop n xs)
left_of-take zero [] = refl
left_of-take zero (x ∷ xs) = ground arith
left_of-take (suc n) [] = refl
left_of-take (suc n) (x ∷ xs) = ground (arith, left_of-take n xs)

pub length-take_bound : (n : ℕ) (xs : List ℕ) → length (take n xs) ≤ n
length-take_bound zero xs = omega arith
length-take_bound (suc n) [] = omega arith
length-take_bound (suc n) (x ∷ xs) = omega (arith, length-take_bound n xs)

pub length-drop_bound : (n : ℕ) (xs : List ℕ) → length (drop n xs) ≤ length xs
length-drop_bound zero xs = omega arith
length-drop_bound (suc n) [] = omega arith
length-drop_bound (suc n) (x ∷ xs) = omega (arith, length-drop_bound n xs)

pub length-drop_less :
    (n fuel : ℕ) (x : ℕ) (xs : List ℕ)
    → 0 < n
    → length (x ∷ xs) ≤ suc fuel
    → length (drop n (x ∷ xs)) ≤ fuel
length-drop_less zero fuel x xs some_n h = absurd (omega arith)
length-drop_less (suc n) fuel x xs some_n h = omega (arith, length-drop_bound n xs)

module _ (lzo : Lzo) (is : IsLzo lzo) (tries : ℕ) where
  chunks_down :
      (bytes : List ℕ) (fuel blocks : ℕ)
      → length bytes ≤ fuel
      → length bytes ≤ blocks
      → Agree
          (send_chunks lzo (suc tries) fuel bytes)
          (load_data_block_general lzo blocks (length bytes))
          tt
          bytes
  unfolding send_chunks load_data_block_general
  chunks_down [] fuel blocks enough room = done
  chunks_down (b ∷ bytes) zero blocks enough room = absurd (omega arith)
  chunks_down (b ∷ bytes) (suc fuel) zero enough room = absurd (omega arith)
  chunks_down (b ∷ bytes) (suc fuel) (suc blocks) enough room =
      let chunk = take serial_buffer_size (b ∷ bytes) in
      let rest = drop serial_buffer_size (b ∷ bytes) in
      tool_then _
        (chunk_down lzo is tries chunk
          (omega (arith, length-take_bound serial_buffer_size (b ∷ bytes))))
        (subst
          (λ n.
            Agree (send_chunks lzo (suc tries) fuel rest)
              (do more ← load_data_block_general lzo blocks n; ret (chunk ++ more)) tt (b ∷ bytes))
          (sym (left_of-take serial_buffer_size (b ∷ bytes)))
          (subst
            (λ l.
              Agree (send_chunks lzo (suc tries) fuel rest)
                (do more ← load_data_block_general lzo blocks (length rest); ret (chunk ++ more)) tt
                l)
            (take-append-drop serial_buffer_size (b ∷ bytes))
            (loader_ends (λ more. chunk ++ more)
              (chunks_down rest fuel blocks
                (length-drop_less serial_buffer_size fuel b bytes (omega arith) enough)
                (length-drop_less serial_buffer_size blocks b bytes (omega arith) room)))))

  -- Over LZO that restores what it compressed: the host's blocks and the loader's reading of them
  -- agree on every byte of the line, and the loader has exactly the host's bytes.
  pub lzo_send_data-load_data_block_general :
      (bytes : List ℕ)
      → Agree
          (lzo_send_data lzo (suc tries) bytes)
          (load_data_block_general lzo (length bytes) (length bytes))
          tt
          bytes
  unfolding lzo_send_data
  lzo_send_data-load_data_block_general bytes =
      chunks_down bytes (length bytes) (length bytes) (omega arith) (omega arith)
