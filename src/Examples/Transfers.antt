-- ===== src/Examples/Transfers.antt =====
-- The host's transfers: runs of host/src/transport/network.c, and the theorems on it applied.
use kos_tool.Prelude.{
  true, ℕ, ◌+◌, ◌-◌, ◌*◌, ◌≡◌, ◌<◌, refl, arith, false, some, none, List, [], ◌∷◌, min, All,
}
use kos_tool.Client.Upload.{missing_range}
use kos_tool.Client.Upload.Bitmap.{IsMap}
use kos_tool.Client.Upload.Complete.{Holds}
use kos_tool.Host.Receive.{
  Datagram, Packet, sendbin, donebin, other, network_recv_data, accepts, num_chunks, chunk_index,
}
use kos_tool.Host.Receive as Receive
use kos_tool.Host.Receive.Chunks.{IsChunkPacket, IsGenuine, IsRegion}
use kos_tool.Host.Receive.Complete.{network_recv_data_complete}
use kos_tool.Host.Receive.Progress.{Answers, network_recv_data_progress}
use kos_tool.Host.Send.{network_send_data_once, transfer, recovery}
use kos_tool.Host.Send as Send
use kos_tool.Host.Send.Delivery.{deliver, deliver-Holds}
use kos_tool.Host.Send.Outcome.{Grounds, network_send_data_once-Grounds}
use kos_tool.Host.Send.Restart.{network_send_data_once_restart}
use kos_tool.Host.Send.Windows.{Sends, Placed, network_send_data-Sends}
use kos_tool.Examples.{target, client, request, image}

-- A download of two chunks of 1440 bytes, from a client that holds `content`.
abbrev region : Receive.Request
region = record { src_addr = 0x8c01_0000; size = 2000; chunk_size = 1440; max_rerequests = 10 }

abbrev content : ℕ → ℕ
content off = off + 1

abbrev chunk_packet : ℕ → Datagram
chunk_packet k = record {
  address = 0x8c01_0000 + k * 1440;
  size = min (2000 - k * 1440) 1440;
  byte_at = λ j. content (k * 1440 + j);
}

-- A datagram of an earlier transfer, outside the region.
abbrev stray : Datagram
stray = record { address = 0x8c00_0000; size = 1440; byte_at = λ j. 0 }

abbrev streamed : List Packet
streamed = sendbin stray ∷ sendbin (chunk_packet 1) ∷ other ∷ donebin ∷ []

abbrev replies : ℕ → ℕ → List Packet
replies pass c = sendbin (chunk_packet c) ∷ donebin ∷ []

region-IsRegion : IsRegion region
region-IsRegion = record { fits = omega arith; chunk_positive = omega arith }

chunk_packet-IsChunkPacket :
    (k : ℕ) → k * 1440 < 2000 → IsChunkPacket region content k (chunk_packet k)
chunk_packet-IsChunkPacket k h = record {
  start = h;
  address = refl;
  extent = refl;
  bytes = λ j lo. refl;
}

chunk-IsGenuine : (k : ℕ) → IsGenuine region content (sendbin (chunk_packet k))
unfolding accepts num_chunks chunk_index
chunk-IsGenuine k e = (k, chunk_packet-IsChunkPacket k (ground arith))

stray-IsGenuine : IsGenuine region content (sendbin stray)
unfolding accepts num_chunks chunk_index
stray-IsGenuine e = ground arith

answered : Answers region content replies
unfolding num_chunks
answered = record {
  chunk = λ n c. chunk_packet c;
  rest = λ n c. donebin ∷ [];
  first = λ n c. refl;
  is_chunk = λ n c h. chunk_packet-IsChunkPacket c (omega arith);
}

network_recv_data_progress_example :
    (network_recv_data region streamed replies (λ _. 0)).0 ≡ Receive.Status.ok
network_recv_data_progress_example =
    network_recv_data_progress region content streamed replies (λ _. 0) region-IsRegion
      (omega arith) answered

network_recv_data_complete_example :
    (network_recv_data region streamed replies (λ _. 0)).1.buffer 1500 ≡ content 1500
network_recv_data_complete_example =
    network_recv_data_complete region content streamed replies (λ _. 0) region-IsRegion
      (stray-IsGenuine, (chunk-IsGenuine 1, (tt, (tt, tt)))) (λ n c. (chunk-IsGenuine c, (tt, tt)))
      (network_recv_data_progress region content streamed replies (λ _. 0) region-IsRegion
        (omega arith) answered)
      1500 (omega arith)

zeros-IsMap : IsMap client.bin_map
zeros-IsMap = record { at = λ i. omega arith }

deliver-Holds_example :
    ((network_send_data_once (some (0, 0) ∷ some (0, 0) ∷ []) false 0 image.base image.size).status
      ≡ Send.Status.ok)
    × Holds image (
        deliver target 0 request image
          (network_send_data_once
            (some (0, 0) ∷ some (0, 0) ∷ [])
            false
            0
            image.base
            image.size).sent
          client)
deliver-Holds_example =
    deliver-Holds target 0 image request client (0, 0) (0, 0) [] refl zeros-IsMap (omega arith)
      (omega arith) (omega arith) refl

-- The answers of an upload that needs one chunk again.
abbrev one_lost : List Send.Reply
one_lost = some (0x8c01_0000, 2000) ∷ some (0x8c01_05a0, 560) ∷ some (0, 0) ∷ []

one_lost_succeeds :
    (network_send_data_once one_lost false 0 0x8c01_0000 2000).status ≡ Send.Status.ok
unfolding network_send_data_once transfer recovery
one_lost_succeeds = refl

network_send_data_once-Grounds_example :
    (0 < 2000)
    × Grounds 0x8c01_0000 2000 one_lost
        (network_send_data_once one_lost false 0 0x8c01_0000 2000).sent
network_send_data_once-Grounds_example =
    network_send_data_once-Grounds one_lost false 0 0x8c01_0000 2000 one_lost_succeeds

network_send_data_once_restart_example :
    ((network_send_data_once
        (some (0, 0) ∷ some (image.base, 1440) ∷ none ∷ some (0, 0) ∷ [])
        false
        0
        image.base
        image.size).status
      ≡ Send.Status.ok)
    × (missing_range (
          deliver target 0 request image
            (network_send_data_once
              (some (0, 0) ∷ some (image.base, 1440) ∷ none ∷ some (0, 0) ∷ [])
              false
              0
              image.base
              image.size).sent
            client)
        ≡ (image.base, min image.size 1440))
network_send_data_once_restart_example =
    network_send_data_once_restart target 0 image request client (0, 0) (image.base, 1440) (0, 0) []
      refl zeros-IsMap (omega arith) (omega arith) (omega arith) (omega arith) (omega arith)

-- An upload of two windows, each without a loss.
abbrev no_loss : ℕ → List Send.Reply
no_loss offset = some (0, 0) ∷ some (0, 0) ∷ []

two_windows : (Send.network_send_data true no_loss false 0x8c01_0000 40000).status ≡ Send.Status.ok
unfolding Send.network_send_data Send.send_windows network_send_data_once transfer recovery
two_windows = refl

network_send_data-Sends_example :
    Sends no_loss false 0x8c01_0000 40000 0
      (Send.network_send_data true no_loss false 0x8c01_0000 40000).sent
    × All (Placed 0x8c01_0000) (Send.network_send_data true no_loss false 0x8c01_0000 40000).sent
network_send_data-Sends_example =
    network_send_data-Sends no_loss false 0x8c01_0000 40000 (omega arith) (omega arith) two_windows
