-- ===== src/Host/Send/Restart.antt =====
-- A lost answer to DBIN in the recovery of host/src/transport/network.c, and what the LBIN after it
-- does to the client (client/common/core/commands.c).
use kos_tool.Prelude.{
  ℕ, ◌+◌, ◌-◌, ◌*◌, ◌≤◌, ◌<◌, ◌≡◌, refl, sym, ap, ◌∙◌, subst, arith, false, none, some, List, [],
  ◌∷◌, ltb, add32, sub32, min,
}
use mathlib.Core.Bool.{false≢true}
use native.Mathlib.Decide.{dec_le}
use kos_tool.Client.{Client, Platform, Request, dctool_major}
use kos_tool.Client.Upload.{
  cmd_loadbin, cmd_partbin, cmd_donebin, missing_range, first_missing, chunk_count, record_chunk,
}
use kos_tool.Client.Upload.Bitmap.{IsMap, map_set-IsMap, map_test-map_clear_all}
use kos_tool.Client.Upload.Missing.{first_missing-IsFirstMissing}
use kos_tool.Client.Upload.Transfer.{
  Image, IsLoadOf, cmd_partbin_parts, cmd_loadbin_parts, cmd_loadbin-Receiving, cmd_donebin_parts,
}
use kos_tool.Client.Upload.Complete.{missing_range_names}
use kos_tool.Host.Send.{
  loadbin, partbin, donebin, Reply, Run, ok, network_send_data_once, transfer, recovery, stream_all,
}
use kos_tool.Host.Send.Delivery.{deliver, streamed}

-- A map that stays one, for a host of version 2 or later.
record Modern (s : Client) : Type 0 where
  modern : ltb (dctool_major s) 2 ≡ false
  is_map : IsMap s.bin_map

record_chunk-IsMap :
    (p : Platform) (index : ℕ) (m : ℕ → ℕ) → IsMap m → IsMap (record_chunk p index m)
record_chunk-IsMap p index m h = record {
  at = λ i. ground (arith, h.at i, (map_set-IsMap index m h).at i);
}

cmd_partbin-Modern :
    (p : Platform) (req : Request) (s : Client) → Modern s → Modern (cmd_partbin p req s)
cmd_partbin-Modern p req s h =
    let (memory, map, at, size, large, version) = cmd_partbin_parts p req s in
    record {
      modern = rw version h.modern;
      is_map = rw map (record_chunk-IsMap p _ s.bin_map h.is_map);
    }

cmd_donebin-Modern :
    (p : Platform) (req : Request) (s : Client) → Modern s → Modern (cmd_donebin p req s)
cmd_donebin-Modern p req s h =
    let (memory, map, at, size, large, version) = cmd_donebin_parts p req s in
    record { modern = rw version h.modern; is_map = rw map h.is_map }

-- A transfer that was just opened misses its first chunk.
opened_misses :
    (p : Platform) (text : ℕ) (image : Image) (req : Request) (s : Client)
    → Modern s
    → IsLoadOf p image req
    → 0 < image.size
    → missing_range (cmd_loadbin p text req s) ≡ (image.base, min image.size 1440)
opened_misses p text image req s h l pos =
    let t = cmd_loadbin p text req s in
    let r = cmd_loadbin-Receiving p text image req s h.modern h.is_map l in
    let (map, at, size, large, version) =
      cmd_loadbin_parts p text req s h.modern (omega (arith, l.load_size, l.detected))
        (omega (arith, l.load_size, l.in_ram)) in
    let found =
      first_missing-IsFirstMissing (chunk_count t) 0 (chunk_count t) t.bin_map (omega arith) in
    let first : first_missing (chunk_count t) 0 t.bin_map ≡ 0 =
      elim (dec_le (first_missing (chunk_count t) 0 t.bin_map) 0) [
        | yes le ↦ omega arith
        | no gt ↦ absurd (
            false≢true (
              sym (map_test-map_clear_all p 0 s.bin_map (omega (arith, l.in_ram)))
              ∙ rw (← map) (found.before 0 (omega arith) (omega arith))))
      ] in
    let rest : image.size - 0 * 1440 ≡ image.size = omega arith in
    let whole : add32 image.base (0 * 1440) ≡ image.base = omega (arith, image.base_fits) in
    missing_range_names image t r (omega (arith, first, pos))
    ∙ ap (λ i. (add32 image.base (i * 1440), min (image.size - i * 1440) 1440)) first
    ∙ ap (λ b. (b, min (image.size - 0 * 1440) 1440)) whole
    ∙ ap (λ n. (image.base, min n 1440)) rest

restarted :
    (loaded miss reloaded : ℕ × ℕ) (replies : List Reply) (buf dest size : ℕ)
    → 0 < size
    → 0 < miss.1
    → add32 (sub32 miss.0 dest) miss.1 ≤ size
    → network_send_data_once
        (some loaded ∷ some miss ∷ none ∷ some reloaded ∷ replies)
        false
        buf
        dest
        size
      ≡ record {
        status = ok;
        sent =
            loadbin dest size
            ∷ donebin
            ∷ partbin miss.0 miss.1 (buf + sub32 miss.0 dest)
            ∷ donebin
            ∷ stream_all false buf dest size (loadbin dest size ∷ []);
      }
unfolding network_send_data_once transfer recovery
restarted loaded miss reloaded replies buf dest size pos missing inside = ground arith

-- For a host of version 2 or later and a non-empty image that fits the RAM: where the first
-- answer to DBIN names a non-empty range inside the buffer, the next DBIN after the resent range
-- gets no answer and the LBIN after it does, the upload reports success, while a client that got
-- all its commands in their order misses its first chunk.
pub network_send_data_once_restart :
    (p : Platform) (text : ℕ) (image : Image) (req : Request) (s : Client)
    (loaded miss reloaded : ℕ × ℕ) (replies : List Reply)
    → ltb (dctool_major s) 2 ≡ false
    → IsMap s.bin_map
    → 0 < image.size
    → image.size ≤ p.detect_ram_size
    → image.size ≤ p.max_ram_bytes
    → 0 < miss.1
    → add32 (sub32 miss.0 image.base) miss.1 ≤ image.size
    → ((network_send_data_once
          (some loaded ∷ some miss ∷ none ∷ some reloaded ∷ replies)
          false
          0
          image.base
          image.size).status
        ≡ ok)
      × (missing_range (
            deliver p text req image
              (network_send_data_once
                (some loaded ∷ some miss ∷ none ∷ some reloaded ∷ replies)
                false
                0
                image.base
                image.size).sent
              s)
          ≡ (image.base, min image.size 1440))
unfolding deliver
network_send_data_once_restart p text image req s loaded miss reloaded replies modern is_map pos
      detected in_ram missing inside =
    let run = restarted loaded miss reloaded replies 0 image.base image.size pos missing inside in
    let r = (streamed p text req image s modern is_map detected in_ram).0 in
    let after = cmd_donebin-Modern p req _ (
      cmd_partbin-Modern p _ _
        (cmd_donebin-Modern p req _ (record { modern = r.modern; is_map = r.is_map }))) in
    (
      ap (λ (u : Run). u.status) run,
      subst
          (λ (u : Run).
            missing_range (deliver p text req image u.sent s) ≡ (image.base, min image.size 1440))
          (sym run)
          (opened_misses p text image (record req { address = image.base; size = image.size }) _
            after
            (record { load_address = refl; load_size = refl; detected = detected; in_ram = in_ram })
            pos),
    )
