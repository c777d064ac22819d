-- ===== src/Serial/Sending.antt =====
-- A data block of the loader's, client/common/serial/serial_transport.c, for the tool,
-- host/src/transport/serial.c.
use kos_tool.Prelude.{
  ℕ, zero, suc, ◌+◌, ◌^◌, ◌≤◌, ◌<◌, ◌≡◌, refl, sym, subst, ap, ◌∙◌, Bool, true, false, Option, none,
  some, List, [], ◌∷◌, ◌++◌, length, take, drop, ltb, ◌==◌, if◌then◌else◌, sub32, arith, Bool-cases,
  inl, inr,
}
use mathlib.Core.List.{append-nil}
use kos_tool.Serial.Io.{ret, ◌>>=◌, ◌>>◌, put_byte, get_byte}
use kos_tool.Serial.Io.Meets.{
  done, tool_puts, tool_gets, loader_puts, loader_gets, Agree, tool_ends, loader_then, loader_last,
  tool_last, bytes_up,
}
use kos_tool.Serial.Loader
use kos_tool.Serial.Loader.{
  Lzo, IsLzo, xor_sum, serial_data_uncompressed, serial_data_compressed, serial_data_good,
  serial_data_bad, put_uint, send_data_block_uncompressed, send_until_good, send_piece, send_pieces,
  send_data_block_compressed,
}
use kos_tool.Serial.Tool.{recv_block, recv_uncompressed, recv_compressed, lzo_recv_data}
use kos_tool.Serial.Blocks.{uint_up, take-append-drop, length-take_bound, length-drop_less}

length-take-drop : (n : ℕ) (xs : List ℕ) → length (take n xs) + length (drop n xs) ≡ length xs
length-take-drop zero xs = omega arith
length-take-drop (suc n) [] = omega arith
length-take-drop (suc n) (x ∷ xs) = omega (arith, length-take-drop n xs)

-- A piece is no longer than what is left.
wraps_not :
    (n : ℕ) (xs : List ℕ)
    → length xs < 2 ^ 32
    → sub32 (length xs) (length (take n xs)) ≡ length (drop n xs)
wraps_not n xs short = omega (arith, length-take-drop n xs)

short_rest : (n : ℕ) (xs : List ℕ) → length xs < 2 ^ 32 → length (drop n xs) < 2 ^ 32
short_rest n xs short = omega (arith, length-take-drop n xs)

module _ (lzo : Lzo) (is : IsLzo lzo) (tries : ℕ) where
  uncompressed_up :
      (bytes : List ℕ)
      → length bytes < 2 ^ 32
      → Agree (recv_block lzo) (send_data_block_uncompressed bytes) (some bytes) true
  unfolding recv_block recv_uncompressed send_data_block_uncompressed
  uncompressed_up bytes short = loader_puts (
      tool_gets (
        loader_then _ (uint_up (length bytes) short) (
          loader_then _ (bytes_up bytes) (loader_puts (tool_gets (tool_puts (loader_gets done)))))))

  -- A piece that the tool unpacks is acknowledged at once.
  good_up :
      (packed piece : List ℕ) (o : Option (List ℕ))
      → o ≡ some piece
      → Agree
          (do put_byte (elim o [ none ↦ serial_data_bad | some b ↦ serial_data_good ]); ret o)
          (do
            data_byte ← get_byte
            if data_byte == serial_data_good then ret tt else Loader.send_packed tries packed)
          o
          tt
  good_up packed piece none h = absurd (ground arith)
  good_up packed piece (some b) h = tool_puts (loader_gets done)

  packed_up :
      (piece : List ℕ)
      → Agree
          (recv_compressed lzo (length (lzo.compress piece)))
          (Loader.send_packed (suc tries) (lzo.compress piece))
          (some piece)
          tt
  unfolding recv_compressed Loader.send_packed
  packed_up piece =
      let packed = lzo.compress piece in
      subst
        (λ o.
          Agree (recv_compressed lzo (length packed)) (Loader.send_packed (suc tries) packed) o tt)
        (is.round_trip piece)
        (loader_then _ (bytes_up packed) (
          loader_puts
            (tool_gets (good_up packed piece (lzo.decompress packed) (is.round_trip piece)))))

  piece_up :
      (piece : List ℕ)
      → length piece < 2 ^ 32
      → Agree (recv_block lzo) (send_piece lzo (suc tries) piece) (some piece) tt
  unfolding recv_block send_piece send_until_good
  piece_up piece short = elim (Bool-cases (ltb (length (lzo.compress piece)) (length piece))) [
    | inl e ↦ rw e (
        loader_puts (
          tool_gets (
            loader_then _ (uint_up (length (lzo.compress piece)) (ground arith))
              (packed_up piece))))
    | inr e ↦ rw e (loader_last _ refl (uncompressed_up piece short))
  ]

  pieces_up :
      (bytes : List ℕ) (fuel blocks : ℕ)
      → length bytes < 2 ^ 32
      → length bytes ≤ fuel
      → length bytes ≤ blocks
      → Agree
          (lzo_recv_data lzo blocks (length bytes))
          (send_pieces lzo (suc tries) fuel bytes)
          bytes
          tt
  unfolding send_pieces lzo_recv_data
  pieces_up [] fuel blocks short enough room = done
  pieces_up (b ∷ bytes) zero blocks short enough room = absurd (omega arith)
  pieces_up (b ∷ bytes) (suc fuel) zero short enough room = absurd (omega arith)
  pieces_up (b ∷ bytes) (suc fuel) (suc blocks) short enough room =
      let piece = take 8192 (b ∷ bytes) in
      let rest = drop 8192 (b ∷ bytes) in
      loader_then _ (piece_up piece (omega (arith, length-take_bound 8192 (b ∷ bytes)))) (
        subst
          (λ n.
            Agree (do more ← lzo_recv_data lzo blocks n; ret (piece ++ more))
              (send_pieces lzo (suc tries) fuel rest) (b ∷ bytes) tt)
          (sym (wraps_not 8192 (b ∷ bytes) short))
          (subst
            (λ l.
              Agree (do more ← lzo_recv_data lzo blocks (length rest); ret (piece ++ more))
                (send_pieces lzo (suc tries) fuel rest) l tt)
            (take-append-drop 8192 (b ∷ bytes))
            (tool_ends (λ more. piece ++ more)
              (pieces_up rest fuel blocks (short_rest 8192 (b ∷ bytes) short)
                (length-drop_less 8192 fuel b bytes (omega arith) enough)
                (length-drop_less 8192 blocks b bytes (omega arith) room)))))

  whole_up :
      (bytes : List ℕ)
      → 0 < length bytes
      → length bytes < 2 ^ 32
      → Agree
          (lzo_recv_data lzo (length bytes) (length bytes))
          (send_data_block_uncompressed bytes)
          bytes
          true
  unfolding lzo_recv_data
  whole_up [] some_bytes short = absurd (omega arith)
  whole_up (b ∷ bytes) some_bytes short =
      let whole = b ∷ bytes in
      let none_left : sub32 (length whole) (length whole) ≡ 0 = omega arith in
      tool_last _
        (ap (λ n. lzo_recv_data lzo (length bytes) n >>= λ rest. ret (whole ++ rest)) none_left
          ∙ ap ret (append-nil whole))
        (uncompressed_up whole short)

  -- Over LZO that restores what it compressed, with or without work memory, for 1 to 2 ^ 32 - 1
  -- bytes: the loader's blocks and the host's reading of them agree on every byte of the line,
  -- and the host has exactly the loader's bytes.
  pub send_data_block_compressed-lzo_recv_data :
      (wrkmem : Bool) (bytes : List ℕ)
      → 0 < length bytes
      → length bytes < 2 ^ 32
      → Agree
          (lzo_recv_data lzo (length bytes) (length bytes))
          (send_data_block_compressed lzo wrkmem (suc tries) bytes)
          bytes
          tt
  unfolding send_data_block_compressed
  send_data_block_compressed-lzo_recv_data true bytes some_bytes short =
      elim (Bool-cases (ltb (length bytes) 19)) [
        | inl e ↦ rw e (loader_last _ refl (whole_up bytes some_bytes short))
        | inr e ↦
            rw e (pieces_up bytes (length bytes) (length bytes) short (omega arith) (omega arith))
      ]
  send_data_block_compressed-lzo_recv_data false bytes some_bytes short =
      loader_last _ refl (whole_up bytes some_bytes short)
