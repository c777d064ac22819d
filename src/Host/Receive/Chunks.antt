-- ===== src/Host/Receive/Chunks.antt =====
-- What the stored datagrams of a download add up to (host/src/transport/network.c).
use kos_tool.Prelude.{
  ℕ, zero, suc, ◌+◌, ◌-◌, ◌*◌, ◌^◌, ◌≤◌, ◌<◌, ◌≡◌, refl, ap, ◌∙◌, arith, true, false, List, [], ◌∷◌,
  ltb, ◌==◌, ◌&&◌, if◌then◌else◌, sub32, min, All, ◌⊎◌, leb, Bool-cases, inl, inr,
}
use native.Mathlib.Decide.{ℕ_discrete, dec_le}
use native.Mathlib.Nat.{mul-div_cancel}
use kos_tool.Host.Receive.{
  Packet, Datagram, Request, State, sendbin, donebin, other, chunk_index, accepts, store, stream,
  pass,
}

-- A datagram with the bytes of chunk `k` of what the client holds, `content`.
pub record IsChunkPacket (r : Request) (content : ℕ → ℕ) (k : ℕ) (pkt : Datagram) : Type 0 where
  pub start : k * r.chunk_size < r.size
  pub address : pkt.address ≡ r.src_addr + k * r.chunk_size
  pub extent : pkt.size ≡ min (r.size - k * r.chunk_size) r.chunk_size
  pub bytes : (j : ℕ) → j < pkt.size → pkt.byte_at j ≡ content (k * r.chunk_size + j)

-- A datagram that the test lets through is a chunk: what else arrives lies outside the region.
abbrev pub IsGenuine : Request → (ℕ → ℕ) → Packet → Type 0
IsGenuine r content (sendbin pkt) = accepts r pkt ≡ true → (k : ℕ) × IsChunkPacket r content k pkt
IsGenuine r content donebin = Unit
IsGenuine r content other = Unit

-- The sizes for which the addresses do not wrap.
pub record IsRegion (r : Request) : Type 0 where
  pub fits : r.src_addr + r.size + r.chunk_size < 2 ^ 32
  pub chunk_positive : 0 < r.chunk_size

-- Where the map has a chunk, the buffer has its bytes.
pub record Holding (r : Request) (content : ℕ → ℕ) (s : State) : Type 0 where
  pub at :
      (k off : ℕ)
      → s.map k ≡ true
      → k * r.chunk_size ≤ off
      → off < k * r.chunk_size + r.chunk_size
      → off < r.size
      → s.buffer off ≡ content off

pub index_lem :
    (r : Request) (content : ℕ → ℕ) (k : ℕ) (pkt : Datagram)
    → IsRegion r
    → IsChunkPacket r content k pkt
    → sub32 pkt.address r.src_addr ≡ k * r.chunk_size
index_lem r content k pkt region c = omega (arith, c.address, c.start, region.fits)

-- The buffer after a chunk was stored, where it was right outside the chunk.
stored_inside :
    (r : Request) (content : ℕ → ℕ) (k off : ℕ) (pkt : Datagram) (s : State)
    → IsRegion r
    → IsChunkPacket r content k pkt
    → off < r.size
    → k * r.chunk_size ≤ off
    → off < k * r.chunk_size + r.chunk_size
    → (store r pkt s).buffer off ≡ content off
unfolding store
stored_inside r content k off pkt s region c h lo hi =
    let inside : off - k * r.chunk_size < pkt.size = omega (arith, c.extent) in
    let back : k * r.chunk_size + (off - k * r.chunk_size) ≡ off = omega arith in
    let test : (leb (k * r.chunk_size) off && ltb off (k * r.chunk_size + pkt.size)) ≡ true =
      ground arith in
    rw (index_lem r content k pkt region c, test)
      (c.bytes (off - k * r.chunk_size) inside ∙ ap content back)

stored_outside :
    (r : Request) (content : ℕ → ℕ) (k off : ℕ) (pkt : Datagram) (s : State)
    → IsRegion r
    → IsChunkPacket r content k pkt
    → off < r.size
    → (off < k * r.chunk_size) ⊎ (k * r.chunk_size + r.chunk_size ≤ off)
    → (store r pkt s).buffer off ≡ s.buffer off
unfolding store
stored_outside r content k off pkt s region c h out =
    let extent = c.extent in
    let test : (leb (k * r.chunk_size) off && ltb off (k * r.chunk_size + pkt.size)) ≡ false =
      ground arith in
    rw (index_lem r content k pkt region c, test) refl

pub chunk_index_lem :
    (r : Request) (content : ℕ → ℕ) (k : ℕ) (pkt : Datagram)
    → IsRegion r
    → IsChunkPacket r content k pkt
    → chunk_index r pkt ≡ k
unfolding chunk_index
chunk_index_lem r content k pkt region c =
    rw (index_lem r content k pkt region c) (mul-div_cancel k region.chunk_positive)

pub map-store :
    (r : Request) (content : ℕ → ℕ) (k j : ℕ) (pkt : Datagram) (s : State)
    → IsRegion r
    → IsChunkPacket r content k pkt
    → (store r pkt s).map j ≡ (if j == k then true else s.map j)
unfolding store
map-store r content k j pkt s region c = rw (chunk_index_lem r content k pkt region c) refl

-- A bit whose chunk is not the stored one was there before.
other_bit :
    (r : Request) (content : ℕ → ℕ) (k j off : ℕ) (pkt : Datagram) (s : State)
    → IsRegion r
    → IsChunkPacket r content k pkt
    → (store r pkt s).map j ≡ true
    → j * r.chunk_size ≤ off
    → off < j * r.chunk_size + r.chunk_size
    → (off < k * r.chunk_size) ⊎ (k * r.chunk_size + r.chunk_size ≤ off)
    → s.map j ≡ true
other_bit r content k j off pkt s region c set lo hi out = elim (ℕ_discrete j k) [
  | yes e ↦
      let product : j * r.chunk_size ≡ k * r.chunk_size = ap (λ (x : ℕ). x * r.chunk_size) e in
      absurd (elim out [ inl below ↦ omega arith | inr past ↦ omega arith ])
  | no n ↦ ground (arith, map-store r content k j pkt s region c)
]

pub store-Holding :
    (r : Request) (content : ℕ → ℕ) (k : ℕ) (pkt : Datagram) (s : State)
    → IsRegion r
    → IsChunkPacket r content k pkt
    → Holding r content s
    → Holding r content (store r pkt s)
store-Holding r content k pkt s region c held = record {
  at = λ j off set lo hi h. elim (dec_le (k * r.chunk_size) off) [
    | yes le ↦ elim (dec_le (k * r.chunk_size + r.chunk_size) off) [
      | yes past ↦
          stored_outside r content k off pkt s region c h (inr past)
          ∙ held.at j off (other_bit r content k j off pkt s region c set lo hi (inr past)) lo hi h
      | no inside ↦ stored_inside r content k off pkt s region c h le (omega arith)
    ]
    | no below ↦
        stored_outside r content k off pkt s region c h (inl (omega arith))
        ∙ held.at j off (other_bit r content k j off pkt s region c set lo hi (inl (omega arith)))
            lo hi h
  ];
}

-- The stream and a pass of the re-request loop keep what they hold right.
pub stream-Holding :
    (r : Request) (content : ℕ → ℕ) (pkts : List Packet) (left : ℕ) (s : State)
    → IsRegion r
    → All (IsGenuine r content) pkts
    → Holding r content s
    → Holding r content (stream r pkts left s)
unfolding stream
stream-Holding r content [] left s region genuine held = held
stream-Holding r content (pkt ∷ pkts) zero s region genuine held = held
stream-Holding r content (donebin ∷ pkts) (suc left) s region (g, gs) held =
    stream-Holding r content pkts left s region gs held
stream-Holding r content (other ∷ pkts) (suc left) s region (g, gs) held =
    stream-Holding r content pkts (suc left) s region gs held
stream-Holding r content (sendbin pkt ∷ pkts) (suc left) s region (g, gs) held =
    elim (Bool-cases (accepts r pkt)) [
      | inl e ↦
          let (k, c) = g e in
          rw e (
            stream-Holding r content pkts left (store r pkt s) region gs
              (store-Holding r content k pkt s region c held))
      | inr e ↦ rw e (stream-Holding r content pkts (suc left) s region gs held)
    ]

pub pass-Holding :
    (r : Request) (content : ℕ → ℕ) (c : ℕ) (pkts : List Packet) (s : State)
    → IsRegion r
    → All (IsGenuine r content) pkts
    → Holding r content s
    → Holding r content (pass r c pkts s)
unfolding pass
pass-Holding r content c [] s region genuine held = held
pass-Holding r content c (donebin ∷ pkts) s region (g, gs) held = elim (Bool-cases (s.map c)) [
  | inl e ↦ rw e held
  | inr e ↦ rw e (pass-Holding r content c pkts s region gs held)
]
pass-Holding r content c (other ∷ pkts) s region (g, gs) held =
    pass-Holding r content c pkts s region gs held
pass-Holding r content c (sendbin pkt ∷ pkts) s region (g, gs) held =
    elim (Bool-cases (accepts r pkt)) [
      | inl e ↦
          let (k, chunk) = g e in
          let after = store-Holding r content k pkt s region chunk held in
          elim (Bool-cases ((store r pkt s).map c)) [
            | inl f ↦ rw (e, f) after
            | inr f ↦ rw (e, f) (pass-Holding r content c pkts (store r pkt s) region gs after)
          ]
      | inr e ↦ rw e (pass-Holding r content c pkts s region gs held)
    ]
