-- ===== src/Dedup/Replay.antt =====
-- What dedup.c captures is what it sends again, and which requests it takes for old ones.
use kos_tool.Prelude.{
  ℕ, ◌+◌, ◌-◌, ◌^◌, ◌≤◌, ◌<◌, ◌≡◌, refl, arith, ap, true, false, some, List, [], ◌∷◌, ◌++◌, leb,
  ltb, length, length-append, drop-append, drop-length, All, IsU32,
}
use kos_tool.Wire.{same_bytes, seq_trailer}
use kos_tool.Wire.Bytes.{get_be32-be32}
use kos_tool.Dedup.{
  State, dedup_extract_seq, dedup_try_replay, dedup_is_stale, dedup_capture_pkt, dedup_end_capture,
  slots, store_at, dedup_max_packets, dedup_max_pkt_bytes, dedup_window_usec,
}

-- The 32-bit number that a payload was tagged with is the one that is read back.
pub dedup_extract_seq-seq_trailer :
    (payload : List ℕ) (seq : ℕ)
    → IsU32 seq
    → dedup_extract_seq (payload ++ seq_trailer seq) (length (payload ++ seq_trailer seq))
      ≡ some seq
unfolding dedup_extract_seq same_bytes
dedup_extract_seq-seq_trailer payload seq h =
    let len : length (payload ++ seq_trailer seq) ≡ length payload + 8 =
      length-append payload (seq_trailer seq) in
    let at : length payload + 8 - 8 ≡ length payload = omega arith in
    let long : ltb (length payload + 8) 8 ≡ false = ground arith in
    rw (len, long, at)
      (rw (drop-append payload (seq_trailer seq) 4, drop-length payload (seq_trailer seq))
        (ap some (get_be32-be32 seq [] h)))

-- Every packet of a list, captured one after the other.
unfoldable pub capture_all : List (List ℕ) → State → State
capture_all [] s = s
capture_all (p ∷ ps) s = capture_all ps (dedup_capture_pkt p s)

abbrev pub IsCapturable : List ℕ → Type 0
IsCapturable p = (0 < length p) × (length p ≤ dedup_max_pkt_bytes)

-- `t` is `s` after the packets `ps` went into the slots behind the count of `s`.
pub record Captured (s t : State) (ps : List (List ℕ)) : Type 0 where
  pub kept : (j : ℕ) → j < s.capture_count → t.packets j ≡ s.packets j
  pub stored : slots t.packets s.capture_count (length ps) ≡ ps
  pub count : t.capture_count ≡ s.capture_count + length ps
  pub seq_same : t.seq ≡ s.seq
  pub time_same : t.captured_at_us ≡ s.captured_at_us
  pub valid_same : t.valid ≡ s.valid
  pub capturing_same : t.capturing ≡ s.capturing
  pub capture_seq_same : t.capture_seq ≡ s.capture_seq

abbrev stored_one : List ℕ → State → State
stored_one p s = record s {
  packets = store_at s.packets s.capture_count p;
  capture_count = s.capture_count + 1;
}

dedup_capture_pkt_lem :
    (p : List ℕ) (s : State)
    → s.capturing ≡ true
    → s.capture_count < 64
    → IsCapturable p
    → dedup_capture_pkt p s ≡ stored_one p s
unfolding dedup_capture_pkt
dedup_capture_pkt_lem p s on room fits = ground arith

pub capture_all-Captured :
    (ps : List (List ℕ)) (s : State)
    → s.capturing ≡ true
    → s.capture_count + length ps ≤ dedup_max_packets
    → All IsCapturable ps
    → Captured s (capture_all ps s) ps
unfolding capture_all
capture_all-Captured [] s on room fits = record {
  kept = λ j h. refl;
  stored = refl;
  count = omega arith;
  seq_same = refl;
  time_same = refl;
  valid_same = refl;
  capturing_same = refl;
  capture_seq_same = refl;
}
capture_all-Captured (p ∷ ps) s on room (fit, fits) =
    rw (dedup_capture_pkt_lem p s on (omega arith) fit)
      (step p ps s (capture_all-Captured ps (stored_one p s) on (omega arith) fits))
  where
    step :
        (p : List ℕ) (ps : List (List ℕ)) (s : State)
        → Captured (stored_one p s) (capture_all ps (stored_one p s)) ps
        → Captured s (capture_all ps (stored_one p s)) (p ∷ ps)
    step p ps s c = record {
      kept = λ j h. ground (arith, c.kept j);
      stored = ground (arith, c.kept s.capture_count, c.stored);
      count = omega (arith, c.count);
      seq_same = c.seq_same;
      time_same = c.time_same;
      valid_same = c.valid_same;
      capturing_same = c.capturing_same;
      capture_seq_same = c.capture_seq_same;
    }

-- Packets that a capture stored are, after its commit and inside the window, what a replay of its
-- number sends.
pub dedup_try_replay-end_capture :
    (ps : List (List ℕ)) (s t : State) (seq now : ℕ)
    → Captured s t ps
    → s.capturing ≡ true
    → s.capture_count ≡ 0
    → s.capture_seq ≡ seq
    → s.captured_at_us ≤ now
    → now ≤ s.captured_at_us + dedup_window_usec
    → now < 2 ^ 64
    → dedup_try_replay seq now (dedup_end_capture t) ≡ some ps
unfolding dedup_try_replay dedup_end_capture
dedup_try_replay-end_capture ps s t seq now c on zero_count tag lo hi fits =
    let total : t.capture_count ≡ length ps = omega (arith, c.count) in
    let all : slots t.packets 0 t.capture_count ≡ ps = rw (total, ← zero_count) c.stored in
    ground (arith, all)

-- With a valid cache, a number at or before the last one is stale and a later one is not, while
-- both are below 2^31.
pub dedup_is_stale-leb :
    (seq : ℕ) (s : State)
    → s.valid ≡ true
    → seq < 2 ^ 31
    → s.seq < 2 ^ 31
    → dedup_is_stale seq s ≡ leb seq s.seq
unfolding dedup_is_stale
dedup_is_stale-leb seq s v h k = ground arith

-- A request that the cache was committed for is old ever after.
pub dedup_is_stale_same :
    (s : State) → s.valid ≡ true → s.seq < 2 ^ 32 → dedup_is_stale s.seq s ≡ true
unfolding dedup_is_stale
dedup_is_stale_same s v h = ground arith
