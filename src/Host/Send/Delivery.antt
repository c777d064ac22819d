-- ===== src/Host/Send/Delivery.antt =====
-- An upload from the host (host/src/transport/network.c) to the client
-- (client/common/core/commands.c) over a link that loses nothing.
use kos_tool.Prelude.{
  ℕ, zero, suc, ◌+◌, ◌-◌, ◌*◌, ◌/◌, ◌≤◌, ◌<◌, ◌≡◌, refl, arith, true, false, List, [], ◌∷◌, ltb,
  add32, min, ◌⊎◌, inl, inr, ap, sym, ◌∙◌, subst, none, some,
}
use native.Mathlib.Decide.{ℕ_discrete}
use kos_tool.Client.{Client, Platform, Request, dctool_major}
use kos_tool.Client.Upload.{cmd_loadbin, cmd_partbin, cmd_donebin, map_test}
use kos_tool.Client.Upload.Bitmap.{IsMap}
use kos_tool.Client.Upload.Transfer.{
  Image, IsChunkOf, IsLoadOf, Receiving, cmd_partbin-Receiving, cmd_partbin_bit,
  cmd_loadbin-Receiving, cmd_donebin-Receiving, cmd_donebin_parts,
}
use kos_tool.Client.Upload.Complete.{Holds}
use kos_tool.Host.Send.{
  Sent, loadbin, partbin, donebin, num_chunks, Reply, Run, ok, stream_all, network_send_data_once,
  transfer, recovery,
}
use kos_tool.Host.Send.Stream.{plan, in_order, stream_all-plan}

-- The packet of a PBIN of the host, on arrival; `req` gives the other fields.
abbrev packet : Request → Image → ℕ → ℕ → ℕ → Request
packet req image addr size offset = record req {
  address = addr;
  size = size;
  data_at = λ j. image.byte_at (offset + j);
}

-- The client after one command; `text` is the place of the refusal's text.
abbrev pub take_in : Platform → ℕ → Request → Image → Sent → Client → Client
take_in p text req image (loadbin addr size) s =
    cmd_loadbin p text (record req { address = addr; size = size }) s
take_in p text req image (partbin addr size offset) s =
    cmd_partbin p (packet req image addr size offset) s
take_in p text req image donebin s = cmd_donebin p req s

-- The client after what the host sent, newest first, and after commands in the order of their time.
unfoldable pub deliver : Platform → ℕ → Request → Image → List Sent → Client → Client
deliver p text req image [] s = s
deliver p text req image (x ∷ earlier) s =
    take_in p text req image x (deliver p text req image earlier s)

unfoldable pub arrive : Platform → ℕ → Request → Image → List Sent → Client → Client
arrive p text req image [] s = s
arrive p text req image (x ∷ later) s = arrive p text req image later (take_in p text req image x s)

pub deliver-in_order :
    (p : Platform) (text : ℕ) (req : Request) (image : Image) (xs sent : List Sent) (s : Client)
    → deliver p text req image (in_order xs sent) s
      ≡ arrive p text req image xs (deliver p text req image sent s)
unfolding deliver arrive in_order
deliver-in_order p text req image [] sent s = refl
deliver-in_order p text req image (x ∷ xs) sent s =
    deliver-in_order p text req image xs (x ∷ sent) s

abbrev planned : Request → Image → ℕ → Request
planned req image k =
    packet req image (add32 image.base (k * 1440)) (min (image.size - k * 1440) 1440) (0 + k * 1440)

planned-IsChunkOf :
    (req : Request) (image : Image) (k : ℕ)
    → k * 1440 < image.size
    → IsChunkOf image k (planned req image k)
planned-IsChunkOf req image k h = record {
  start = h;
  address = refl;
  extent = refl;
  content = λ j lo. ap (λ (d : ℕ). image.byte_at (d + j)) (omega arith);
}

-- After the chunks from `k` on, their bits are set, and no bit is lost.
arrive-plan :
    (p : Platform) (text : ℕ) (req : Request) (image : Image) (n k : ℕ) (s : Client)
    → Receiving image s
    → image.size ≤ p.max_ram_bytes
    → (n ≡ 0) ⊎ ((k + n) * 1440 < image.size + 1440)
    → Receiving image (arrive p text req image (plan 1440 0 image.base image.size n k) s)
      × ((j : ℕ)
          → map_test j s.bin_map ≡ true
          → map_test j (arrive p text req image (plan 1440 0 image.base image.size n k) s).bin_map
            ≡ true)
      × ((j : ℕ)
          → k ≤ j
          → j < k + n
          → map_test j (arrive p text req image (plan 1440 0 image.base image.size n k) s).bin_map
            ≡ true)
unfolding arrive plan
arrive-plan p text req image zero k s r fits tight =
    (r, λ j set. set, λ j lo hi. absurd (omega arith))
arrive-plan p text req image (suc n) k s r fits (inl e) = absurd (omega arith)
arrive-plan p text req image (suc n) k s r fits (inr tight) =
    let c = planned-IsChunkOf req image k (omega arith) in
    let t = cmd_partbin p (planned req image k) s in
    let bit = λ (j : ℕ). cmd_partbin_bit p image k j (planned req image k) s r c fits in
    let (after, kept, set) =
      arrive-plan p text req image n (k + 1) t
        (cmd_partbin-Receiving p image k (planned req image k) s r c) fits (inr (omega arith)) in
    (
      after,
      λ j before. kept j (ground (arith, bit j, before)),
      λ j lo hi. elim (ℕ_discrete j k) [
        | yes e ↦ kept j (ground (arith, bit j))
        | no other ↦ set j (omega arith) (omega arith)
      ],
    )

-- The client after LBIN and the stream, for an image that fits the RAM: it is in the transfer, and
-- every chunk is recorded.
pub streamed :
    (p : Platform) (text : ℕ) (req : Request) (image : Image) (s : Client)
    → ltb (dctool_major s) 2 ≡ false
    → IsMap s.bin_map
    → image.size ≤ p.detect_ram_size
    → image.size ≤ p.max_ram_bytes
    → Receiving image (
        deliver p text req image
          (stream_all false 0 image.base image.size (loadbin image.base image.size ∷ []))
          s)
      × ((j : ℕ)
          → j < num_chunks 1440 image.size
          → map_test j
              (deliver p text req image
                (stream_all false 0 image.base image.size (loadbin image.base image.size ∷ []))
                s).bin_map
            ≡ true)
unfolding deliver
streamed p text req image s modern is_map detected in_ram =
    let load = record req { address = image.base; size = image.size } in
    let l : IsLoadOf p image load = record {
      load_address = refl;
      load_size = refl;
      detected = detected;
      in_ram = in_ram;
    } in
    let opened = cmd_loadbin p text load s in
    let (r, kept, set) =
      arrive-plan p text req image (num_chunks 1440 image.size) 0 opened
        (cmd_loadbin-Receiving p text image load s modern is_map l) in_ram
        (inr (omega (arith, image.size_fits))) in
    let same =
      ap (λ (sent : List Sent). deliver p text req image sent s)
        (stream_all-plan false 0 image.base image.size (loadbin image.base image.size ∷ [])
          (omega (arith, image.size_fits)))
      ∙ deliver-in_order p text req image
          (plan 1440 0 image.base image.size (num_chunks 1440 image.size) 0)
          (loadbin image.base image.size ∷ []) s in
    (
      subst (Receiving image) (sym same) r,
      λ j h. ap (λ (c : Client). map_test j c.bin_map) same ∙ set j (omega arith) (omega arith),
    )

-- The host's run where its first DBIN is answered by a range of size 0.
once_answered :
    (loaded miss : ℕ × ℕ) (replies : List Reply) (buf dest size : ℕ)
    → 0 < size
    → miss.1 ≡ 0
    → network_send_data_once (some loaded ∷ some miss ∷ replies) false buf dest size ≡ record {
      status = ok;
      sent = donebin ∷ stream_all false buf dest size (loadbin dest size ∷ []);
    }
unfolding network_send_data_once transfer recovery
once_answered loaded miss [] buf dest size pos none_missing = ground arith
once_answered loaded miss (none ∷ replies) buf dest size pos none_missing = ground arith
once_answered loaded miss (some next ∷ replies) buf dest size pos none_missing = ground arith

-- For a host of version 2 or later and a non-empty image that fits the RAM: where LBIN is
-- answered and the first DBIN is answered by a range of size 0, the upload reports success, and
-- the commands that it sent, all delivered to the client in their order, leave every byte of the
-- image in the client's memory.
pub deliver-Holds :
    (p : Platform) (text : ℕ) (image : Image) (req : Request) (s : Client) (loaded miss : ℕ × ℕ)
    (replies : List Reply)
    → ltb (dctool_major s) 2 ≡ false
    → IsMap s.bin_map
    → 0 < image.size
    → image.size ≤ p.detect_ram_size
    → image.size ≤ p.max_ram_bytes
    → miss.1 ≡ 0
    → ((network_send_data_once
          (some loaded ∷ some miss ∷ replies)
          false
          0
          image.base
          image.size).status
        ≡ ok)
      × Holds image (
          deliver p text req image
            (network_send_data_once
              (some loaded ∷ some miss ∷ replies)
              false
              0
              image.base
              image.size).sent
            s)
unfolding deliver
deliver-Holds p text image req s loaded miss replies modern is_map pos detected in_ram
      none_missing =
    let run = once_answered loaded miss replies 0 image.base image.size pos none_missing in
    let (r, set) = streamed p text req image s modern is_map detected in_ram in
    let before =
      deliver p text req image
        (stream_all false 0 image.base image.size (loadbin image.base image.size ∷ [])) s in
    let map = (cmd_donebin_parts p req before).1 in
    let after = cmd_donebin-Receiving p image req before r in
    (
      ap (λ (u : Run). u.status) run,
      subst (λ (u : Run). Holds image (deliver p text req image u.sent s)) (sym run)
          (record {
            at = λ off h.
                after.held (off / 1440) off
                  (ap (map_test (off / 1440)) map
                    ∙ set (off / 1440) (omega (arith, image.size_fits, h)))
                  (omega arith) (omega arith) h;
          }),
    )
