-- ===== src/Host/Receive.antt =====
-- host/src/transport/network.c, `network_recv_data`: downloading a region. What arrives before a
-- wait times out is a list of datagrams: one for the stream, and one for each pass of the
-- re-request loop, as a function of the pass and of the chunk that it asked for.
use kos_tool.Prelude.{
  ℕ, zero, suc, ◌+◌, ◌-◌, ◌*◌, ◌/◌, ◌%◌, ◌^◌, Bool, true, false, ◌&&◌, ◌||◌, not, List, [], ◌∷◌,
  ltb, leb, ◌==◌, if◌then◌else◌, add32, sub32, mul32, min,
}
pub mod Chunks
pub mod Complete
pub mod Progress

-- A received SBIN: its address and size fields, and its bytes behind the header.
pub record Datagram : Type 0 where
  pub address : ℕ
  pub size : ℕ
  pub byte_at : ℕ → ℕ

-- A received datagram by its id.
pub data Packet : Type 0 where
  sendbin : Datagram → Packet
  donebin other : Packet

-- The region that was asked for, with the size of a chunk and the budget of passes.
pub record Request : Type 0 where
  pub src_addr : ℕ
  pub size : ℕ
  pub chunk_size : ℕ
  pub max_rerequests : ℕ

-- The map of chunks that arrived, and the buffer.
pub record State : Type 0 where
  pub map : ℕ → Bool
  pub buffer : ℕ → ℕ

unfoldable pub num_chunks : Request → ℕ
num_chunks r = add32 r.size (r.chunk_size - 1) / r.chunk_size

unfoldable pub chunk_index : Request → Datagram → ℕ
chunk_index r pkt = sub32 pkt.address r.src_addr / r.chunk_size

-- The test that drops a SBIN that is not of this transfer, negated.
unfoldable pub accepts : Request → Datagram → Bool
unfolding num_chunks chunk_index
accepts r pkt = not (
    ltb pkt.address r.src_addr
    || (leb (add32 r.src_addr r.size) pkt.address
        || (ltb r.chunk_size pkt.size
            || (ltb (sub32 (add32 r.src_addr r.size) pkt.address) pkt.size
                || leb (num_chunks r) (chunk_index r pkt)))))

-- `map[chunk_idx] = 1; memcpy(…)`.
unfoldable pub store : Request → Datagram → State → State
store r pkt s = record {
  map = λ k. if k == chunk_index r pkt then true else s.map k;
  buffer = λ off.
      if leb (sub32 pkt.address r.src_addr) off && ltb off (sub32 pkt.address r.src_addr + pkt.size)
      then pkt.byte_at (off - sub32 pkt.address r.src_addr)
      else s.buffer off;
}

-- The stream: at most `left` datagrams that count; dropped ones do not.
unfoldable pub stream : Request → List Packet → ℕ → State → State
stream r [] left s = s
stream r (pkt ∷ pkts) zero s = s
stream r (sendbin pkt ∷ pkts) (suc left) s =
    let taken = stream r pkts left (store r pkt s) in
    let dropped = stream r pkts (suc left) s in if accepts r pkt then taken else dropped
stream r (donebin ∷ pkts) (suc left) s = stream r pkts left s
stream r (other ∷ pkts) (suc left) s = stream r pkts (suc left) s

-- One pass for chunk `c`: until it arrived or the wait times out.
unfoldable pub pass : Request → ℕ → List Packet → State → State
pass r c [] s = s
pass r c (sendbin pkt ∷ pkts) s =
    let t = store r pkt s in
    let taken = pass r c pkts t in
    let dropped = pass r c pkts s in
    if accepts r pkt then (if t.map c then t else taken) else dropped
pass r c (donebin ∷ pkts) s = let rest = pass r c pkts s in if s.map c then s else rest
pass r c (other ∷ pkts) s = pass r c pkts s

-- The first chunk from `c` on that did not arrive, with `rounds` left.
unfoldable pub first_gap : ℕ → ℕ → State → ℕ
first_gap zero c s = c
first_gap (suc rounds) c s = let later = first_gap rounds (c + 1) s in if s.map c then later else c

-- `incomplete` or not.
pub data Status : Type 0 where
  ok failed : Status

-- The re-request loop: `left` is `max_passes - passes`, so that `passes >= max_passes` is a `left` of
-- 0 after the pass.
unfoldable pub rerequest : Request → (ℕ → ℕ → List Packet) → ℕ → ℕ → ℕ → State → Status × State
unfolding num_chunks first_gap pass
rerequest r replies zero passes stalled s =
    if first_gap (num_chunks r) 0 s == num_chunks r then (ok, s) else (failed, s)
rerequest r replies (suc left) passes stalled s =
    let c = first_gap (num_chunks r) 0 s in
    let t = pass r c (replies passes c) s in
    let stalled2 = if t.map c then 0 else stalled + 1 in
    let rest = rerequest r replies left (passes + 1) stalled2 t in
    if c == num_chunks r
    then (ok, s)
    else if leb r.max_rerequests stalled2 || (left == 0)
    then (failed, t)
    else rest

unfoldable pub network_recv_data :
    Request → List Packet → (ℕ → ℕ → List Packet) → (ℕ → ℕ) → Status × State
unfolding stream rerequest num_chunks
network_recv_data r streamed replies buffer =
    rerequest r replies (num_chunks r + r.max_rerequests) 0 0
      (stream r streamed (num_chunks r + 1) (record { map = λ _. false; buffer = buffer }))
