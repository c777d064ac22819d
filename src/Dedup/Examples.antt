-- ===== src/Dedup/Examples.antt =====
-- Concrete runs of the cache and of the console loop, and the theorems at concrete inputs.
use kos_tool.Prelude.{ℕ, ◌+◌, ◌^◌, ◌<◌, ◌≡◌, refl, arith, none, some, List, [], ◌∷◌, ◌++◌, IsU32}
use kos_tool.Wire.{same_bytes, seq_trailer}
use kos_tool.Dedup.{
  initial, dedup_extract_seq, dedup_try_replay, dedup_is_stale, dedup_begin_capture,
  dedup_capture_pkt, dedup_end_capture,
}
use kos_tool.Dedup.Replay.{dedup_extract_seq-seq_trailer}
use kos_tool.Dedup.Console.{
  Send, reply, net_cmd_retval, net_wire, send_one, send_all, Round, dispatch, serve_tagged,
  console_round,
}
use kos_tool.Dedup.Serving.{
  console_round_once, executed, AscendsFrom, HasSmallTag, executed-AscendsFrom,
}
use kos_tool.Dedup.Retransmit.{console_round_retransmit}

-- A host that counts the requests that it ran, and answers with the count.
abbrev count_calls : ℕ → List ℕ → ℕ × List Send
count_calls n pkt =
    (n + 1, reply (record { cmd = net_cmd_retval; addr = n; size = 0; payload = [] }) ∷ [])

abbrev read_request : ℕ → List ℕ
read_request seq = (b'D' ∷ b'C' ∷ b'0' ∷ b'3' ∷ []) ++ seq_trailer seq

abbrev first_round : Round ℕ
first_round = console_round count_calls (read_request 5) 1000 initial 7

read_request_tag : dedup_extract_seq (read_request 5) 12 ≡ some 5
unfolding dedup_extract_seq same_bytes
read_request_tag = refl

first_round_ran : first_round.ran ≡ some 5
unfolding console_round serve_tagged dispatch dedup_extract_seq same_bytes dedup_try_replay
    dedup_is_stale dedup_begin_capture
first_round_ran = refl

console_round_once_example :
    (console_round count_calls (read_request 5) 9_000_000 first_round.cache first_round.world).world
    ≡ first_round.world
console_round_once_example =
    console_round_once count_calls (read_request 5) (read_request 5) 1000 9_000_000 initial 7 5
      (omega arith) first_round_ran read_request_tag

console_round_retransmit_example :
    console_round count_calls (read_request 5) 600_000 first_round.cache first_round.world
    ≡ record {
      cache = first_round.cache;
      world = first_round.world;
      ran = none;
      sent = first_round.sent;
      exit_code = none;
    }
unfolding console_round serve_tagged dispatch dedup_extract_seq same_bytes dedup_try_replay
    dedup_is_stale dedup_begin_capture send_all send_one net_wire
console_round_retransmit_example =
    console_round_retransmit count_calls (read_request 5) (read_request 5) 1000 600_000 initial 7 5
      first_round_ran read_request_tag (tt, tt) (omega arith) (omega arith) (omega arith)
      (omega arith) (omega arith)

abbrev arrivals : List (List ℕ × ℕ)
arrivals = (read_request 5, 1000) ∷ (read_request 5, 700_000) ∷ (read_request 6, 900_000) ∷ []

read_request_small :
    (seq : ℕ) → IsU32 seq → seq < 2 ^ 31 → (now : ℕ) → HasSmallTag (read_request seq, now)
read_request_small seq h k now q e =
    ground (arith, dedup_extract_seq-seq_trailer (b'D' ∷ b'C' ∷ b'0' ∷ b'3' ∷ []) seq h)

executed-AscendsFrom_example : AscendsFrom 0 (executed count_calls arrivals initial 7)
executed-AscendsFrom_example =
    executed-AscendsFrom count_calls arrivals initial 7
      (
        read_request_small 5 (omega arith) (omega arith) 1000,
        (
          read_request_small 5 (omega arith) (omega arith) 700_000,
          (read_request_small 6 (omega arith) (omega arith) 900_000, tt),
        ),
      )
      (omega arith)

executed_skips_the_copy : executed count_calls arrivals initial 7 ≡ 5 ∷ 6 ∷ []
unfolding executed console_round serve_tagged dispatch dedup_extract_seq same_bytes dedup_try_replay
    dedup_is_stale dedup_begin_capture dedup_capture_pkt dedup_end_capture send_all send_one
    net_wire
executed_skips_the_copy = refl
