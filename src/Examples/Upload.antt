-- ===== src/Examples/Upload.antt =====
-- Uploads and downloads: runs of the handlers of client/common/core/commands.c, and their theorems applied.
use kos_tool.Prelude.{some, ◌≡◌, refl, arith}
use kos_tool.Divutil.{udiv_const}
use kos_tool.Client.{Client, net_bump_syscall_deadline}
use kos_tool.Examples.{
  target, client, request, image, chunk0, chunk1, request-IsLoadOf, chunk0-IsChunkOf,
  chunk1-IsChunkOf,
}
use kos_tool.Client.Upload.{
  cmd_loadbin, cmd_partbin, cmd_donebin, open_transfer, map_test, map_set, map_clear_all,
  chunk_count, first_missing, missing_range,
}
use kos_tool.Client.Download.{plan_chunks}
use kos_tool.Client.Download.Cover.{Follow, joined, region, plan_chunks-cover}
use kos_tool.Client.Upload.Bitmap.{IsMap}
use kos_tool.Client.Upload.Transfer.{Receiving, cmd_loadbin-Receiving}
use kos_tool.Client.Upload.Complete.{Steps, done, step, chunk, asked, Holds, upload_complete}
use kos_tool.Client.Upload.Recovery.{recover, recover_completes}

zeros-IsMap : IsMap client.bin_map
zeros-IsMap = record { at = λ i. omega arith }

abbrev opened : Client
opened = cmd_loadbin target 0 request client

opened-Receiving : Receiving image opened
opened-Receiving =
    cmd_loadbin-Receiving target 0 image request client refl zeros-IsMap request-IsLoadOf

-- The second chunk first, then a question, then the first.
abbrev asked_once : Client
asked_once = cmd_donebin target request (cmd_partbin target chunk1 opened)

abbrev ended : Client
ended = cmd_partbin target chunk0 asked_once

arrival : Steps target image opened ended
arrival =
    step (chunk 1 chunk1 chunk1-IsChunkOf)
      (step (asked request) (step (chunk 0 chunk0 chunk0-IsChunkOf) done))

first_is_missing : missing_range asked_once ≡ (0x8c01_0000, 1440)
unfolding missing_range first_missing chunk_count map_test map_set map_clear_all cmd_donebin
    cmd_partbin cmd_loadbin open_transfer net_bump_syscall_deadline udiv_const
first_is_missing = refl

nothing_missing : (missing_range ended).1 ≡ 0
unfolding missing_range first_missing chunk_count map_test map_set map_clear_all cmd_donebin
    cmd_partbin cmd_loadbin open_transfer net_bump_syscall_deadline udiv_const
nothing_missing = refl

upload_complete_example : Holds image ended
upload_complete_example =
    upload_complete target 0 image request client ended refl zeros-IsMap request-IsLoadOf arrival
      nothing_missing

recover_completes_example :
    (t : Client) × (recover 2 target request request image opened ≡ some t) × Holds image t
recover_completes_example =
    recover_completes target request request image opened opened-Receiving (omega arith)

-- An address that wraps around the end of the 32 bits.
abbrev at_the_end : Client
at_the_end = record client { load_address = 0xffff_ff00; load_size = 2000 }

plan_chunks-cover_example :
    Follow 1440 0x8c01_0000 (plan_chunks request client)
    × (joined (plan_chunks request client) ≡ region client.memory 0x8c01_0000 2000)
plan_chunks-cover_example = plan_chunks-cover request client (omega arith)
