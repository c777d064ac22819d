-- ===== src/Client/Upload/Recovery.antt =====
-- The recovery rounds of an upload: the `while` loop of `network_send_data_once`
-- (host/src/transport/network.c) against the client of client/common/core/commands.c, on a link
-- that loses nothing more.
use kos_tool.Prelude.{
  ℕ, zero, suc, ◌+◌, ◌-◌, ◌*◌, ◌/◌, ◌^◌, ◌≤◌, ◌<◌, ◌≡◌, sym, ap, ◌∙◌, arith, false, ◌==◌, ◌||◌, ltb,
  sub32, add32, mul32, min, if◌then◌else◌, ◌⊎◌, inl, inr, Option, none, some,
}
use mathlib.Core.Path.{subst}
use native.Mathlib.Decide.{ℕ_discrete, dec_le}
use kos_tool.Client.{Client, Platform, Request}
use kos_tool.Client.Upload.{
  cmd_partbin, cmd_donebin, chunk_count, missing_range, first_missing, map_test,
}
use kos_tool.Client.Upload.Chunks.{chunk_count_near}
use kos_tool.Client.Upload.Missing.{first_missing-IsFirstMissing, first_missing_past}
use kos_tool.Client.Upload.Transfer.{
  cmd_partbin_parts, cmd_donebin_parts, cmd_donebin-Receiving, Image, IsChunkOf, Receiving,
  cmd_partbin-Receiving, cmd_partbin_bit,
}
use kos_tool.Client.Upload.Complete.{
  Holds, range_of, missing_range_of, missing_range_names, missing_past-Holds, inside_count,
}

-- The packet that the host sends for a range: `data + miss_off` with `miss_off = miss_addr - dest_addr`.
abbrev chunk_for : Request → Image → ℕ × ℕ → Request
chunk_for req image range = record req {
  address = range.0;
  size = range.1;
  data_at = λ j. image.byte_at (sub32 range.0 image.base + j);
}

-- The loop, with its two ends: an answer of size 0, and a range past the image. `none` is a loop
-- that goes on after so many rounds. The requests `req` and `ask` give the other fields of the two
-- packets of a round.
unfoldable pub recover : ℕ → Platform → Request → Request → Image → Client → Option Client
recover zero p req ask image s =
    let range = missing_range s in
    if range.1 == 0
    then some s
    else if ltb image.size (add32 (sub32 range.0 image.base) range.1)
    then some s
    else none
recover (suc rounds) p req ask image s =
    let range = missing_range s in
    let later =
      recover rounds p req ask image
        (cmd_donebin p ask (cmd_partbin p (chunk_for req image range) s)) in
    if range.1 == 0
    then some s
    else if ltb image.size (add32 (sub32 range.0 image.base) range.1)
    then some s
    else later

-- The first missing chunk of a state.
abbrev gap : Client → ℕ
gap s = first_missing (chunk_count s) 0 s.bin_map

range_stops :
    (base size count i : ℕ)
    → base < 2 ^ 32
    → size + 2880 < 2 ^ 32
    → i ≤ count
    → count ≤ (size + 1439) / 1440 + 1
    → size ≤ i * 1440
    → ((range_of base size count i).1 ≡ 0)
      ⊎ (size < add32 (sub32 (range_of base size count i).0 base) (range_of base size count i).1)
range_stops base size count i hb small le high h = elim (ℕ_discrete i count) [
  | yes all ↦ inl (ground arith)
  | no early ↦ elim (ℕ_discrete (i * 1440) size) [
    | yes at_end ↦ inl (ground arith)
    | no past ↦
        let differ : (i == count) ≡ false = ground arith in
        let product : mul32 i 1440 ≡ i * 1440 = omega arith in
        let rest : min (sub32 size (i * 1440)) 1440 ≡ 1440 = omega arith in
        let back : sub32 (add32 base (i * 1440)) base ≡ i * 1440 = omega arith in
        inr (rw (differ, product, rest, back) (omega arith))
  ]
]

chunk_for-IsChunkOf :
    (req : Request) (image : Image) (s : Client)
    → Receiving image s
    → gap s * 1440 < image.size
    → IsChunkOf image (gap s) (chunk_for req image (missing_range s))
chunk_for-IsChunkOf req image s r h =
    let names = missing_range_names image s r h in
    let back : sub32 (add32 image.base (gap s * 1440)) image.base ≡ gap s * 1440 =
      omega (arith, image.base_fits, image.size_fits) in
    record {
      start = h;
      address = ap (λ (x : ℕ × ℕ). x.0) names;
      extent = ap (λ (x : ℕ × ℕ). x.1) names;
      content = λ j lo.
          ap (λ (a : ℕ). image.byte_at (sub32 a image.base + j)) (ap (λ (x : ℕ × ℕ). x.0) names)
          ∙ ap (λ (d : ℕ). image.byte_at (d + j)) back;
    }

-- The count of chunks stays through a round.
same_count :
    (s t : Client)
    → t.load_size ≡ s.load_size
    → t.tool_version ≡ s.tool_version
    → chunk_count t ≡ chunk_count s
unfolding chunk_count
same_count s t e f = ground arith

-- A state after one round.
abbrev round_of : Platform → Request → Request → Image → Client → Client
round_of p req ask image s =
    cmd_donebin p ask (cmd_partbin p (chunk_for req image (missing_range s)) s)

round_parts :
    (p : Platform) (req ask : Request) (image : Image) (s : Client)
    → Receiving image s
    → gap s * 1440 < image.size
    → image.size ≤ p.max_ram_bytes
    → Receiving image (round_of p req ask image s)
      × (chunk_count (round_of p req ask image s) ≡ chunk_count s)
      × ((j : ℕ)
          → map_test j (round_of p req ask image s).bin_map
            ≡ ((gap s == j) || map_test j s.bin_map))
round_parts p req ask image s r h fits =
    let packet = chunk_for req image (missing_range s) in
    let c = chunk_for-IsChunkOf req image s r h in
    let (m1, b1, a1, z1, l1, v1) = cmd_partbin_parts p packet s in
    let (m2, b2, a2, z2, l2, v2) = cmd_donebin_parts p ask (cmd_partbin p packet s) in
    (
      cmd_donebin-Receiving p image ask _ (cmd_partbin-Receiving p image (gap s) packet s r c),
      same_count s _ (z2 ∙ z1) (v2 ∙ v1),
      λ j. rw b2 (cmd_partbin_bit p image (gap s) j packet s r c fits),
    )

-- The answer names a later chunk after each round.
round_advances :
    (p : Platform) (req ask : Request) (image : Image) (s : Client)
    → Receiving image s
    → gap s * 1440 < image.size
    → image.size ≤ p.max_ram_bytes
    → gap s + 1 ≤ gap (round_of p req ask image s)
round_advances p req ask image s r h fits =
    let t = round_of p req ask image s in
    let (r2, count, bits) = round_parts p req ask image s r h fits in
    let found =
      first_missing-IsFirstMissing (chunk_count s) 0 (chunk_count s) s.bin_map (omega arith) in
    let found2 =
      first_missing-IsFirstMissing (chunk_count t) 0 (chunk_count t) t.bin_map (omega arith) in
    first_missing_past t.bin_map (chunk_count t) (gap t) (gap s + 1) found2
      (λ j lo. elim (ℕ_discrete (gap s) j) [
        | yes e ↦ ground (arith, bits j)
        | no n ↦ ground (arith, bits j, found.before j (omega arith) (omega arith))
      ])
      (omega (arith, inside_count image s r h))

-- The two tests of the loop.
stop_test :
    (rounds : ℕ) (p : Platform) (req ask : Request) (image : Image) (s : Client)
    → ((missing_range s).1 ≡ 0)
      ⊎ (image.size < add32 (sub32 (missing_range s).0 image.base) (missing_range s).1)
    → recover rounds p req ask image s ≡ some s
unfolding recover
stop_test zero p req ask image s (inl e) = ground arith
stop_test zero p req ask image s (inr e) = ground arith
stop_test (suc rounds) p req ask image s (inl e) = ground arith
stop_test (suc rounds) p req ask image s (inr e) = ground arith

go_test :
    (rounds : ℕ) (p : Platform) (req ask : Request) (image : Image) (s : Client)
    → (missing_range s).1 ≡ min (image.size - gap s * 1440) 1440
    → sub32 (missing_range s).0 image.base ≡ gap s * 1440
    → gap s * 1440 < image.size
    → recover (suc rounds) p req ask image s
      ≡ recover rounds p req ask image (round_of p req ask image s)
unfolding recover
go_test rounds p req ask image s e f h = let small = image.size_fits in ground arith

recover_stops :
    (rounds : ℕ) (p : Platform) (req ask : Request) (image : Image) (s : Client)
    → Receiving image s
    → image.size ≤ gap s * 1440
    → recover rounds p req ask image s ≡ some s
recover_stops rounds p req ask image s r h =
    let (low, high) = chunk_count_near s r.modern (omega (arith, r.of_size, image.size_fits)) in
    let found =
      first_missing-IsFirstMissing (chunk_count s) 0 (chunk_count s) s.bin_map (omega arith) in
    let ends =
      range_stops image.base image.size (chunk_count s) (gap s) image.base_fits image.size_fits
        found.high (omega (arith, r.of_size)) h in
    stop_test rounds p req ask image s (
      subst (λ (x : ℕ × ℕ). (x.1 ≡ 0) ⊎ (image.size < add32 (sub32 x.0 image.base) x.1))
        (sym (missing_range_of image s r)) ends)

recover_goes :
    (rounds : ℕ) (p : Platform) (req ask : Request) (image : Image) (s : Client)
    → Receiving image s
    → gap s * 1440 < image.size
    → recover (suc rounds) p req ask image s
      ≡ recover rounds p req ask image (round_of p req ask image s)
recover_goes rounds p req ask image s r h =
    let names = missing_range_names image s r h in
    let start : gap s * 1440 < 2 ^ 32 = omega (arith, image.size_fits) in
    let back : sub32 (add32 image.base (gap s * 1440)) image.base ≡ gap s * 1440 =
      omega (arith, image.base_fits) in
    go_test rounds p req ask image s (ap (λ (x : ℕ × ℕ). x.1) names)
      (ap (λ (x : ℕ × ℕ). sub32 x.0 image.base) names ∙ back) h

-- Enough rounds for the chunks that are left end the loop, with the whole image.
recover-Holds :
    (rounds : ℕ) (p : Platform) (req ask : Request) (image : Image) (s : Client)
    → Receiving image s
    → image.size ≤ p.max_ram_bytes
    → image.size ≤ (rounds + gap s) * 1440
    → (t : Client) × (recover rounds p req ask image s ≡ some t) × Holds image t
recover-Holds zero p req ask image s r fits enough = (
  s,
  recover_stops zero p req ask image s r (omega (arith, enough)),
  missing_past-Holds image s r (omega (arith, enough)),
)
recover-Holds (suc rounds) p req ask image s r fits enough =
    elim (dec_le image.size (gap s * 1440)) [
      | yes past ↦ (
        s,
        recover_stops (suc rounds) p req ask image s r past,
        missing_past-Holds image s r past,
      )
      | no inside ↦
          let h : gap s * 1440 < image.size = omega arith in
          let (r2, count, bits) = round_parts p req ask image s r h fits in
          let (t, ends, holds) =
            recover-Holds rounds p req ask image (round_of p req ask image s) r2 fits
              (omega (arith, round_advances p req ask image s r h fits)) in
          (t, recover_goes rounds p req ask image s r h ∙ ends, holds)
    ]

-- On a link that loses nothing more, the host's recovery loop ends within as many rounds as the
-- image has chunks, whatever was lost before, for an image that fits the RAM, and then the whole
-- image is in the client's memory.
pub recover_completes :
    (p : Platform) (req ask : Request) (image : Image) (s : Client)
    → Receiving image s
    → image.size ≤ p.max_ram_bytes
    → (t : Client) × (recover ((image.size + 1439) / 1440) p req ask image s ≡ some t)
      × Holds image t
recover_completes p req ask image s r fits =
    recover-Holds ((image.size + 1439) / 1440) p req ask image s r fits (omega arith)
