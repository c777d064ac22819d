-- ===== src/Dedup.antt =====
-- host/src/dedup.c: the single-slot cache of the replies to the last tagged request.
-- The static `state` is a record that the functions return. `packets` is the array of slots, a
-- function of the index. Numbers of type uint32_t and uint64_t wrap as written.
use kos_tool.Prelude.{
  ℕ, zero, suc, ◌+◌, ◌-◌, ◌%◌, ◌^◌, Bool, true, false, ◌&&◌, ◌||◌, not, Option, none, some, List,
  [], ◌∷◌, ◌++◌, ◌==◌, ltb, leb, if◌then◌else◌, length, drop, sub32,
}
use kos_tool.Wire.{same_bytes, get_be32, net_seq_magic, net_seq_trailer_len}
pub mod Console
pub mod Replay
pub mod Retransmit
pub mod Serving
mod Examples

-- DEDUP_WINDOW_USEC, DEDUP_MAX_PACKETS, DEDUP_MAX_PKT_BYTES.
abbrev pub dedup_window_usec : ℕ
dedup_window_usec = 3000000

abbrev pub dedup_max_packets : ℕ
dedup_max_packets = 64

abbrev pub dedup_max_pkt_bytes : ℕ
dedup_max_pkt_bytes = 2048

pub record State : Type 0 where
  pub seq : ℕ
  pub captured_at_us : ℕ
  pub packets : ℕ → List ℕ
  pub packet_count : ℕ
  pub valid : Bool
  pub capturing : Bool
  pub capture_seq : ℕ
  pub capture_count : ℕ

-- Static storage starts as zeros.
abbrev pub initial : State
initial = record {
  seq = 0;
  captured_at_us = 0;
  packets = λ _. [];
  packet_count = 0;
  valid = false;
  capturing = false;
  capture_seq = 0;
  capture_count = 0;
}

-- The value written through `out_seq`, or `none` for a result of 0. Every caller passes a buffer
-- and a place for the number.
unfoldable pub dedup_extract_seq : List ℕ → ℕ → Option ℕ
dedup_extract_seq buf len =
    if ltb len net_seq_trailer_len
    then none
    else if same_bytes 4 (drop (len - net_seq_trailer_len) buf) net_seq_magic
    then some (get_be32 (drop (len - net_seq_trailer_len + 4) buf))
    else none

-- The packets of slots `i`, `i + 1`, …, `n` of them.
abbrev pub slots : (ℕ → List ℕ) → ℕ → ℕ → List (List ℕ)
slots packets i zero = []
slots packets i (suc n) = packets i ∷ slots packets (i + 1) n

-- What is sent again, in order; `none` for a result of 0. `socket_ops` is never null.
unfoldable pub dedup_try_replay : ℕ → ℕ → State → Option (List (List ℕ))
dedup_try_replay seq now_us s =
    if not s.valid || not (seq == s.seq)
    then none
    else if ltb dedup_window_usec ((now_us + 2 ^ 64 - s.captured_at_us) % 2 ^ 64)
    then none
    else some (slots s.packets 0 s.packet_count)

-- `(int32_t)(seq - state.seq) <= 0`: zero, or the sign bit is set.
unfoldable pub dedup_is_stale : ℕ → State → Bool
dedup_is_stale seq s =
    if not s.valid then false else (sub32 seq s.seq == 0) || leb (2 ^ 31) (sub32 seq s.seq)

unfoldable pub dedup_begin_capture : ℕ → ℕ → State → State
dedup_begin_capture seq now_us s = record s {
  capturing = true;
  capture_seq = seq;
  capture_count = 0;
  captured_at_us = now_us;
}

abbrev pub store_at : (ℕ → List ℕ) → ℕ → List ℕ → ℕ → List ℕ
store_at packets i buf j = if i == j then buf else packets j

unfoldable pub dedup_capture_pkt : List ℕ → State → State
dedup_capture_pkt buf s =
    if not s.capturing || (length buf == 0)
    then s
    else if leb dedup_max_packets s.capture_count
    then s
    else if ltb dedup_max_pkt_bytes (length buf)
    then s
    else record s {
      packets = store_at s.packets s.capture_count buf;
      capture_count = s.capture_count + 1;
    }

unfoldable pub dedup_end_capture : State → State
dedup_end_capture s = if not s.capturing then s else record s {
  seq = s.capture_seq;
  packet_count = s.capture_count;
  valid = true;
  capturing = false;
}

unfoldable pub dedup_current_seq : State → ℕ
dedup_current_seq s = s.capture_seq

unfoldable pub dedup_is_capturing : State → Bool
dedup_is_capturing s = s.capturing
