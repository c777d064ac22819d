-- ===== src/Host/Receive/Progress.antt =====
-- That a download ends well on a link that answers (host/src/transport/network.c).
use kos_tool.Prelude.{
  ℕ, zero, suc, ◌+◌, ◌-◌, ◌*◌, ◌≤◌, ◌<◌, ◌≡◌, refl, sym, ap, ◌∙◌, arith, true, false, List, ◌∷◌,
  ltb, leb, ◌==◌, ◌||◌, add32, sub32, Bool-cases, inl, inr,
}
use mathlib.Core.Path.{subst}
use mathlib.Core.Bool.{false≢true}
use native.Mathlib.Decide.{ℕ_discrete, dec_le}
use kos_tool.Host.Receive.{
  Packet, Datagram, Request, State, Status, sendbin, ok, num_chunks, accepts, store, first_gap,
  pass, rerequest, network_recv_data,
}
use kos_tool.Host.Receive.Chunks.{IsRegion, IsChunkPacket, map-store, chunk_index_lem}

-- A link on which the answer to a re-request brings its chunk, whatever comes behind it.
pub record Answers (r : Request) (content : ℕ → ℕ) (replies : ℕ → ℕ → List Packet) : Type 0 where
  pub chunk : ℕ → ℕ → Datagram
  pub rest : ℕ → ℕ → List Packet
  pub first : (n c : ℕ) → replies n c ≡ sendbin (chunk n c) ∷ rest n c
  pub is_chunk : (n c : ℕ) → c < num_chunks r → IsChunkPacket r content c (chunk n c)

-- Where the gap is, and what is before it.
first_gap_before :
    (rounds c : ℕ) (s : State)
    → (c ≤ first_gap rounds c s)
      × (first_gap rounds c s ≤ c + rounds)
      × ((j : ℕ) → c ≤ j → j < first_gap rounds c s → s.map j ≡ true)
unfolding first_gap
first_gap_before zero c s = (omega arith, omega arith, λ j lo hi. absurd (omega arith))
first_gap_before (suc rounds) c s =
    let (low, high, before) = first_gap_before rounds (c + 1) s in
    elim (Bool-cases (s.map c)) [
      | inl set ↦ rw set (
        omega arith,
        omega arith,
        λ j lo hi. elim (ℕ_discrete c j) [
          | yes same ↦ subst (λ (x : ℕ). s.map x ≡ true) same set
          | no n ↦ before j (omega arith) hi
        ],
      )
      | inr clear ↦ rw clear (omega arith, omega arith, λ j lo hi. absurd (omega arith))
    ]

first_gap_past :
    (rounds c k : ℕ) (s : State)
    → ((j : ℕ) → c ≤ j → j < k → s.map j ≡ true)
    → k ≤ c + rounds
    → k ≤ first_gap rounds c s
unfolding first_gap
first_gap_past zero c k s all h = omega arith
first_gap_past (suc rounds) c k s all h = elim (Bool-cases (s.map c)) [
  | inl set ↦
      rw set (first_gap_past rounds (c + 1) k s (λ j lo hi. all j (omega arith) hi) (omega arith))
  | inr clear ↦ rw clear (elim (dec_le k c) [
    | yes le ↦ le
    | no gt ↦ absurd (false≢true (sym clear ∙ all c (omega arith) (omega arith)))
  ])
]

-- A chunk of the region passes the test.
chunk-accepts :
    (r : Request) (content : ℕ → ℕ) (k : ℕ) (pkt : Datagram)
    → IsRegion r
    → k < num_chunks r
    → IsChunkPacket r content k pkt
    → accepts r pkt ≡ true
unfolding accepts
chunk-accepts r content k pkt region h c =
    let address = c.address in
    let extent = c.extent in
    let start = c.start in
    let fits = region.fits in
    let end : add32 r.src_addr r.size ≡ r.src_addr + r.size = omega arith in
    let room : sub32 (r.src_addr + r.size) pkt.address ≡ r.size - k * r.chunk_size = omega arith in
    let t1 : ltb pkt.address r.src_addr ≡ false = ground arith in
    let t2 : leb (r.src_addr + r.size) pkt.address ≡ false = ground arith in
    let t3 : ltb r.chunk_size pkt.size ≡ false = ground arith in
    let t4 : ltb (r.size - k * r.chunk_size) pkt.size ≡ false = ground arith in
    let t5 : leb (num_chunks r) k ≡ false = ground arith in
    rw (chunk_index_lem r content k pkt region c, end, room, t1, t2, t3, t4, t5) refl

pass_brings :
    (r : Request) (content : ℕ → ℕ) (c : ℕ) (pkt : Datagram) (rest : List Packet) (s : State)
    → IsRegion r
    → c < num_chunks r
    → IsChunkPacket r content c pkt
    → pass r c (sendbin pkt ∷ rest) s ≡ store r pkt s
unfolding pass
pass_brings r content c pkt rest s region h chunk =
    let bit : (store r pkt s).map c ≡ true =
      map-store r content c c pkt s region chunk ∙ ground arith in
    rw (chunk-accepts r content c pkt region h chunk, bit) refl

-- A further round where the asked chunk lands.
rerequest_goes :
    (r : Request) (replies : ℕ → ℕ → List Packet) (left passes stalled : ℕ) (s t : State)
    → 0 < left
    → 0 < r.max_rerequests
    → first_gap (num_chunks r) 0 s < num_chunks r
    → pass r (first_gap (num_chunks r) 0 s) (replies passes (first_gap (num_chunks r) 0 s)) s ≡ t
    → t.map (first_gap (num_chunks r) 0 s) ≡ true
    → rerequest r replies (suc left) passes stalled s ≡ rerequest r replies left (passes + 1) 0 t
unfolding rerequest
rerequest_goes r replies left passes stalled s t more budget gap same lands =
    let inside : (first_gap (num_chunks r) 0 s == num_chunks r) ≡ false = ground arith in
    let going : (leb r.max_rerequests 0 || (left == 0)) ≡ false = ground arith in
    rw (same, lands, inside, going) refl

rerequest_ends :
    (r : Request) (replies : ℕ → ℕ → List Packet) (left passes stalled : ℕ) (s : State)
    → first_gap (num_chunks r) 0 s ≡ num_chunks r
    → (rerequest r replies left passes stalled s).0 ≡ ok
unfolding rerequest
rerequest_ends r replies zero passes stalled s e = ground arith
rerequest_ends r replies (suc left) passes stalled s e = ground arith

rerequest_progress :
    (r : Request) (content : ℕ → ℕ) (replies : ℕ → ℕ → List Packet) (left passes stalled : ℕ)
    (s : State)
    → IsRegion r
    → 0 < r.max_rerequests
    → Answers r content replies
    → num_chunks r < left + first_gap (num_chunks r) 0 s
    → (rerequest r replies left passes stalled s).0 ≡ ok
rerequest_progress r content replies zero passes stalled s region budget a enough =
    absurd (omega (arith, (first_gap_before (num_chunks r) 0 s).1))
rerequest_progress r content replies (suc left) passes stalled s region budget a enough =
    let c = first_gap (num_chunks r) 0 s in
    let (low, high, before) = first_gap_before (num_chunks r) 0 s in
    elim (ℕ_discrete c (num_chunks r)) [
      | yes e ↦ rerequest_ends r replies (suc left) passes stalled s e
      | no n ↦
          let inside : c < num_chunks r = omega arith in
          let chunk = a.is_chunk passes c inside in
          let t = store r (a.chunk passes c) s in
          let brings : pass r c (replies passes c) s ≡ t =
            ap (λ (ps : List Packet). pass r c ps s) (a.first passes c)
            ∙ pass_brings r content c (a.chunk passes c) (a.rest passes c) s region inside chunk in
          let bits = λ (j : ℕ). map-store r content c j (a.chunk passes c) s region chunk in
          let further : c + 1 ≤ first_gap (num_chunks r) 0 t =
            first_gap_past (num_chunks r) 0 (c + 1) t
              (λ j lo hi. elim (ℕ_discrete j c) [
                | yes same ↦ ground (arith, bits j)
                | no other ↦ ground (arith, bits j, before j (omega arith) (omega arith))
              ])
              (omega arith) in
          ap (λ (x : Status × State). x.0)
            (rerequest_goes r replies left passes stalled s t (omega arith) budget inside brings
              (bits c ∙ ground arith))
          ∙ rerequest_progress r content replies left (passes + 1) 0 t region budget a (omega arith)
    ]

-- For a region whose addresses do not wrap and a positive budget of re-requests: whatever the
-- stream lost, a download reports success if each re-request is answered by its chunk.
pub network_recv_data_progress :
    (r : Request) (content : ℕ → ℕ) (streamed : List Packet) (replies : ℕ → ℕ → List Packet)
    (buffer : ℕ → ℕ)
    → IsRegion r
    → 0 < r.max_rerequests
    → Answers r content replies
    → (network_recv_data r streamed replies buffer).0 ≡ ok
unfolding network_recv_data
network_recv_data_progress r content streamed replies buffer region budget a =
    rerequest_progress r content replies (num_chunks r + r.max_rerequests) 0 0 _ region budget a
      (omega arith)
