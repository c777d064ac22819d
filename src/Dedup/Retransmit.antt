-- ===== src/Dedup/Retransmit.antt =====
-- A copy of a request that arrives within the window is answered with the packets of the first
-- answer, in their order (host/src/console.c over host/src/dedup.c).
use kos_tool.Prelude.{
  ℕ, ◌+◌, ◌-◌, ◌^◌, ◌≤◌, ◌<◌, ◌≡◌, refl, arith, ap, ◌∙◌, true, false, ◌||◌, none, some, List, [],
  ◌∷◌, length, take, All,
}
use kos_tool.Wire.{same_bytes}
use kos_tool.Dedup.{
  State, dedup_extract_seq, dedup_try_replay, dedup_begin_capture, dedup_capture_pkt,
  dedup_end_capture, dedup_max_packets, dedup_window_usec,
}
use kos_tool.Dedup.Replay.{
  capture_all, capture_all-Captured, IsCapturable, dedup_try_replay-end_capture,
}
use kos_tool.Dedup.Console.{
  Send, reply, bulk, send_one, send_all, idle, dispatch, serve_tagged, console_round, terminated,
  net_cmd_sendbin, net_cmd_sendbinq,
}
use kos_tool.Dedup.Serving.{console_round-ran}

-- The command asks the console for none of its memory.
abbrev pub IsPush : Send → Type 0
IsPush (reply c) = Unit
IsPush (bulk wii c) =
    (same_bytes 4 c.cmd net_cmd_sendbinq || same_bytes 4 c.cmd net_cmd_sendbin) ≡ false

send_one-capture :
    (c : Send) (s : State) → IsPush c → (send_one c s).0 ≡ dedup_capture_pkt (send_one c s).1 s
unfolding send_one
send_one-capture (reply c) s h = refl
send_one-capture (bulk wii c) s h = rw h

send_all-capture_all :
    (cs : List Send) (s : State)
    → All IsPush cs
    → (send_all cs s).0 ≡ capture_all (send_all cs s).1 s
unfolding send_all capture_all
send_all-capture_all [] s h = refl
send_all-capture_all (c ∷ cs) s (h, hs) =
    send_all-capture_all cs (send_one c s).0 hs
    ∙ ap (capture_all (send_all cs (send_one c s).0).1) (send_one-capture c s h)

module _ {H : Type 0} (handle : H → List ℕ → H × List Send) where
  -- The commands that the handler sends for a tagged packet.
  abbrev pub answers : List ℕ → H → List Send
  answers pkt h = (handle h (terminated (take (length pkt - 8) pkt))).1

  dispatch_parts :
      (seq q : ℕ) (pkt : List ℕ) (s : State) (h : H)
      → (dispatch handle (some seq) pkt s h).ran ≡ some q
      → ((dispatch handle (some seq) pkt s h).sent ≡ (send_all (handle h (terminated pkt)).1 s).1)
        × ((dispatch handle (some seq) pkt s h).cache
            ≡ dedup_end_capture (send_all (handle h (terminated pkt)).1 s).0)
  unfolding dispatch
  dispatch_parts seq q pkt s h ran = ground arith

replay_sent :
    (cs : List Send) (s : State) (seq later : ℕ)
    → s.capturing ≡ true
    → s.capture_count ≡ 0
    → s.capture_seq ≡ seq
    → All IsPush cs
    → All IsCapturable (send_all cs s).1
    → length (send_all cs s).1 ≤ dedup_max_packets
    → s.captured_at_us ≤ later
    → later ≤ s.captured_at_us + dedup_window_usec
    → later < 2 ^ 64
    → dedup_try_replay seq later (dedup_end_capture (send_all cs s).0) ≡ some (send_all cs s).1
replay_sent cs s seq later on fresh tag push fits room lo hi small =
    rw (send_all-capture_all cs s push) (
      dedup_try_replay-end_capture (send_all cs s).1 s (capture_all (send_all cs s).1 s) seq later
        (capture_all-Captured (send_all cs s).1 s on (omega arith) fits) on fresh tag lo hi small)

module _ {H : Type 0} (handle : H → List ℕ → H × List Send) where
  serve_tagged_parts :
      (seq q : ℕ) (pkt : List ℕ) (now : ℕ) (s : State) (h : H)
      → (serve_tagged handle seq pkt now s h).ran ≡ some q
      → serve_tagged handle seq pkt now s h
        ≡ dispatch handle (some seq) (take (length pkt - 8) pkt) (dedup_begin_capture seq now s) h
  unfolding serve_tagged
  serve_tagged_parts seq q pkt now s h ran = ground arith

  round_tagged :
      (seq : ℕ) (pkt : List ℕ) (now : ℕ) (s : State) (h : H)
      → dedup_extract_seq pkt (length pkt) ≡ some seq
      → console_round handle pkt now s h ≡ serve_tagged handle seq pkt now s h
  unfolding console_round dedup_extract_seq
  round_tagged seq pkt now s h tag = ground arith

  serve_tagged_replay :
      (seq : ℕ) (pkt : List ℕ) (now : ℕ) (s : State) (h : H) (sent : List (List ℕ))
      → dedup_try_replay seq now s ≡ some sent
      → serve_tagged handle seq pkt now s h ≡ idle handle s h sent
  unfolding serve_tagged
  serve_tagged_replay seq pkt now s h sent e = rw (e, serve_tagged)

  dispatch_replay :
      (seq later now : ℕ) (pkt : List ℕ) (s : State) (h : H)
      → (dispatch handle (some seq) pkt (dedup_begin_capture seq now s) h).ran ≡ some seq
      → All IsPush (handle h (terminated pkt)).1
      → All IsCapturable (dispatch handle (some seq) pkt (dedup_begin_capture seq now s) h).sent
      → length (dispatch handle (some seq) pkt (dedup_begin_capture seq now s) h).sent
        ≤ dedup_max_packets
      → now ≤ later
      → later ≤ now + dedup_window_usec
      → later < 2 ^ 64
      → dedup_try_replay seq later
          (dispatch handle (some seq) pkt (dedup_begin_capture seq now s) h).cache
        ≡ some (dispatch handle (some seq) pkt (dedup_begin_capture seq now s) h).sent
  dispatch_replay seq later now pkt s h ran push fits room lo hi small =
      let parts = dispatch_parts handle seq seq pkt (dedup_begin_capture seq now s) h ran in
      rw (parts.0, parts.1)
        (unfold dedup_begin_capture in
          replay_sent (handle h (terminated pkt)).1 (dedup_begin_capture seq now s) seq later refl
            refl refl push (rw parts.0 at fits) (rw parts.0 at room) lo hi small)

  -- A request that ran, whose answer pulls no guest memory and fits the cache, is answered again
  -- by the same packets when a copy comes within the window, and the cache and the host's world
  -- stay as they are.
  pub console_round_retransmit :
      (pkt copy : List ℕ) (now later : ℕ) (s : State) (h : H) (q : ℕ)
      → (console_round handle pkt now s h).ran ≡ some q
      → dedup_extract_seq copy (length copy) ≡ some q
      → All IsPush (answers handle pkt h)
      → All IsCapturable (console_round handle pkt now s h).sent
      → length (console_round handle pkt now s h).sent ≤ dedup_max_packets
      → now ≤ later
      → later ≤ now + dedup_window_usec
      → later < 2 ^ 64
      → console_round handle copy later
          (console_round handle pkt now s h).cache
          (console_round handle pkt now s h).world
        ≡ record {
          cache = (console_round handle pkt now s h).cache;
          world = (console_round handle pkt now s h).world;
          ran = none;
          sent = (console_round handle pkt now s h).sent;
          exit_code = none;
        }
  console_round_retransmit pkt copy now later s h q ran tag push fits room lo hi small =
      let first = round_tagged q pkt now s h (console_round-ran handle pkt now s h q ran).0 in
      let parts = serve_tagged_parts q q pkt now s h (rw first at ran) in
      let whole = first ∙ parts in
      round_tagged q copy later _ _ tag
      ∙ serve_tagged_replay q copy later _ _ _ (
          rw whole (
            dispatch_replay q later now (take (length pkt - 8) pkt) s h (rw whole at ran) push
              (rw whole at fits) (rw whole at room) lo hi small))
