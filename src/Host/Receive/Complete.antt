-- ===== src/Host/Receive/Complete.antt =====
-- What a download that succeeds has (host/src/transport/network.c, `network_recv_data`).
use kos_tool.Prelude.{
  ℕ, zero, suc, ◌+◌, ◌-◌, ◌*◌, ◌/◌, ◌≤◌, ◌<◌, ◌≡◌, ◌≢◌, refl, sym, ap, ◌∙◌, arith, true, false,
  List, leb, ◌==◌, ◌||◌, if◌then◌else◌, add32, All, Bool-cases, inl, inr,
}
use mathlib.Core.Bool.{false≢true}
use mathlib.Core.Path.{subst}
use native.Mathlib.Decide.{ℕ_discrete}
use native.Mathlib.Nat.{div-mul-le_self, lt-div-mul-add, div-lt_iff_lt-mul}
use kos_tool.Host.Receive.{
  Packet, Request, State, Status, ok, failed, num_chunks, first_gap, pass, rerequest, stream,
  network_recv_data,
}
use kos_tool.Host.Receive.Chunks.{IsRegion, IsGenuine, Holding, stream-Holding, pass-Holding}

-- The scan stays below its end, and at its end has seen every bit set.
first_gap_full :
    (rounds c : ℕ) (s : State)
    → (first_gap rounds c s ≤ c + rounds)
      × (first_gap rounds c s ≡ c + rounds → (j : ℕ) → c ≤ j → j < c + rounds → s.map j ≡ true)
unfolding first_gap
first_gap_full zero c s = (omega arith, λ e j lo hi. absurd (omega arith))
first_gap_full (suc rounds) c s =
    let (le, all) = first_gap_full rounds (c + 1) s in
    elim (Bool-cases (s.map c)) [
      | inl set ↦ rw set (
        omega arith,
        λ e j lo hi. elim (ℕ_discrete c j) [
          | yes same ↦ subst (λ (x : ℕ). s.map x ≡ true) same set
          | no n ↦ all (omega arith) j (omega arith) (omega arith)
        ],
      )
      | inr clear ↦ rw clear (omega arith, λ e j lo hi. absurd (omega arith))
    ]

ok≢failed : ok ≢ failed
ok≢failed e = ground arith

-- A loop that ends well leaves no gap, and what it holds is right.
rerequest_ok :
    (r : Request) (content : ℕ → ℕ) (replies : ℕ → ℕ → List Packet) (left passes stalled : ℕ)
    (s : State)
    → IsRegion r
    → ((n c : ℕ) → All (IsGenuine r content) (replies n c))
    → Holding r content s
    → (rerequest r replies left passes stalled s).0 ≡ ok
    → Holding r content (rerequest r replies left passes stalled s).1
      × (first_gap (num_chunks r) 0 (rerequest r replies left passes stalled s).1 ≡ num_chunks r)
unfolding rerequest
rerequest_ok r content replies zero passes stalled s region genuine held h =
    elim (Bool-cases (first_gap (num_chunks r) 0 s == num_chunks r)) [
      | inl e ↦ rw e (held, ground arith)
      | inr e ↦ absurd (ok≢failed (sym h ∙ rw e refl))
    ]
rerequest_ok r content replies (suc left) passes stalled s region genuine held h =
    let c = first_gap (num_chunks r) 0 s in
    let t = pass r c (replies passes c) s in
    let stalled2 = if t.map c then 0 else stalled + 1 in
    let after = pass-Holding r content c (replies passes c) s region (genuine passes c) held in
    elim (Bool-cases (c == num_chunks r)) [
      | inl e ↦ rw e (held, ground arith)
      | inr e ↦ elim (Bool-cases (leb r.max_rerequests stalled2 || (left == 0))) [
        | inl f ↦ absurd (ok≢failed (sym h ∙ rw (e, f) refl))
        | inr f ↦
            let same : rerequest r replies (suc left) passes stalled s
                ≡ rerequest r replies left (passes + 1) stalled2 t =
              rw (e, f) refl in
            rw (e, f)
              (rerequest_ok r content replies left (passes + 1) stalled2 t region genuine after
                (ap (λ (x : Status × State). x.0) (sym same) ∙ h))
      ]
    ]

chunk_of :
    (r : Request) (off : ℕ)
    → IsRegion r
    → off < r.size
    → (off / r.chunk_size < num_chunks r)
      × (off / r.chunk_size * r.chunk_size ≤ off)
      × (off < off / r.chunk_size * r.chunk_size + r.chunk_size)
unfolding num_chunks
chunk_of r off region h =
    let sum : add32 r.size (r.chunk_size - 1) ≡ r.size + r.chunk_size - 1 =
      omega (arith, region.fits, region.chunk_positive) in
    let enough =
      lt-div-mul-add {a = r.size + r.chunk_size - 1} {b = r.chunk_size} region.chunk_positive in
    let below : off < (r.size + r.chunk_size - 1) / r.chunk_size * r.chunk_size =
      omega (arith, region.chunk_positive) in
    (
      rw sum ((div-lt_iff_lt-mul region.chunk_positive).1 below),
      div-mul-le_self off r.chunk_size,
      lt-div-mul-add {a = off} {b = r.chunk_size} region.chunk_positive,
    )

-- For a region whose addresses do not wrap: a download that reports success has every byte of the
-- region, whatever was lost, repeated, reordered or left over from other transfers, if each
-- datagram that passes the test on address and size is a chunk of what the client holds.
pub network_recv_data_complete :
    (r : Request) (content : ℕ → ℕ) (streamed : List Packet) (replies : ℕ → ℕ → List Packet)
    (buffer : ℕ → ℕ)
    → IsRegion r
    → All (IsGenuine r content) streamed
    → ((n c : ℕ) → All (IsGenuine r content) (replies n c))
    → (network_recv_data r streamed replies buffer).0 ≡ ok
    → (off : ℕ) → off < r.size
    → (network_recv_data r streamed replies buffer).1.buffer off ≡ content off
unfolding network_recv_data
network_recv_data_complete r content streamed replies buffer region genuine later h off lo =
    let start : State = record { map = λ _. false; buffer = buffer } in
    let nothing : Holding r content start = record {
      at = λ k o set a b c. absurd (false≢true set);
    } in
    let after = stream-Holding r content streamed (num_chunks r + 1) start region genuine nothing in
    let (held, full) =
      rerequest_ok r content replies (num_chunks r + r.max_rerequests) 0 0
        (stream r streamed (num_chunks r + 1) start) region later after h in
    let (in_map, from, to) = chunk_of r off region lo in
    held.at (off / r.chunk_size) off
      ((first_gap_full (num_chunks r) 0 _).1 (full ∙ omega arith) (off / r.chunk_size) (omega arith)
        (omega arith))
      from to lo
