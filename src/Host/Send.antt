-- ===== src/Host/Send.antt =====
-- host/src/transport/network.c: uploading a buffer. `send_and_wait` sends a command up to its
-- limit of retries and gives the answer's address and size, or fails: its results are a list, one
-- for each call, and a call past the list's end fails. The commands sent are a list, newest first.
use kos_tool.Prelude.{
  ℕ, zero, suc, ◌||◌, not, ◌+◌, ◌-◌, ◌*◌, ◌/◌, ◌%◌, ◌^◌, Bool, true, false, Option, none, some,
  List, [], ◌∷◌, ◌++◌, ltb, leb, ◌==◌, if◌then◌else◌, add32, sub32, length, min,
}
use kos_tool.Wire.{net_payload_size, net_legacy_payload_size}
pub mod Stream
pub mod Delivery
pub mod Outcome
pub mod Restart
pub mod Windows

-- A command on the wire. The bytes of PBIN are those of the caller's buffer from `offset` on. A
-- pointer into that buffer is `buf`, the distance from its start.
pub data Sent : Type 0 where
  loadbin : (addr size : ℕ) → Sent
  partbin : (addr size offset : ℕ) → Sent
  donebin : Sent

-- `return 0` and `return -1`.
pub data Status : Type 0 where
  ok failed : Status

pub record Run : Type 0 where
  pub status : Status
  pub sent : List Sent

-- A result of `send_and_wait`: the answer's address and size.
abbrev pub Reply : Type 0
Reply = Option (ℕ × ℕ)

-- One PBIN for each offset below the size, in a row. The `for` loop with at most `rounds` rounds.
unfoldable pub stream : ℕ → ℕ → ℕ → ℕ → ℕ → ℕ → List Sent → List Sent
stream zero chunk_size buf dest_addr size offset sent = sent
stream (suc rounds) chunk_size buf dest_addr size offset sent =
    let remaining = size - offset in
    let send_size = if leb chunk_size remaining then chunk_size else remaining in
    let rest =
      stream rounds chunk_size buf dest_addr size (add32 offset chunk_size)
        (partbin (add32 dest_addr offset) send_size (buf + offset) ∷ sent) in
    if ltb offset size then rest else sent

abbrev pub chunk_size_of : Bool → ℕ
chunk_size_of legacy_mode = if legacy_mode then net_legacy_payload_size else net_payload_size

-- `(size + chunk_size - 1) / chunk_size`.
abbrev pub num_chunks : ℕ → ℕ → ℕ
num_chunks chunk_size size = add32 size (chunk_size - 1) / chunk_size

-- After a DONEBIN failed in the recovery: `loadbin_retries` is at most 1 here, since the branch
-- leaves the loop.
abbrev recovery_restart : ℕ → ℕ → Reply → List Sent → Run
recovery_restart dest_addr size reply sent = elim reply [
  | none ↦ record { status = failed; sent = loadbin dest_addr size ∷ sent }
  | some r ↦ record { status = ok; sent = loadbin dest_addr size ∷ sent }
]

abbrev head_of : List Reply → Reply
head_of [] = none
head_of (r ∷ rs) = r

-- The recovery loop, with the last answer to DBIN. It ends since each round uses up a result.
unfoldable pub recovery : List Reply → ℕ → ℕ → ℕ → ℕ × ℕ → List Sent → Run
recovery [] buf dest_addr size miss sent =
    let miss_off = sub32 miss.0 dest_addr in
    if miss.1 == 0
    then record { status = ok; sent = sent }
    else if ltb size (add32 miss_off miss.1)
    then record { status = ok; sent = sent }
    else recovery_restart dest_addr size none
        (donebin ∷ partbin miss.0 miss.1 (buf + miss_off) ∷ sent)
recovery (none ∷ replies) buf dest_addr size miss sent =
    let miss_off = sub32 miss.0 dest_addr in
    if miss.1 == 0
    then record { status = ok; sent = sent }
    else if ltb size (add32 miss_off miss.1)
    then record { status = ok; sent = sent }
    else recovery_restart dest_addr size (head_of replies)
        (donebin ∷ partbin miss.0 miss.1 (buf + miss_off) ∷ sent)
recovery (some next ∷ replies) buf dest_addr size miss sent =
    let miss_off = sub32 miss.0 dest_addr in
    let rest =
      recovery replies buf dest_addr size next
        (donebin ∷ partbin miss.0 miss.1 (buf + miss_off) ∷ sent) in
    if miss.1 == 0
    then record { status = ok; sent = sent }
    else if ltb size (add32 miss_off miss.1)
    then record { status = ok; sent = sent }
    else rest

-- The stream, with `size` rounds: more than there are chunks.
abbrev pub stream_all : Bool → ℕ → ℕ → ℕ → List Sent → List Sent
stream_all legacy_mode buf dest_addr size sent =
    stream size (chunk_size_of legacy_mode) buf dest_addr size 0 sent

-- Sends all and asks, and on no answer opens the transfer anew, once.
unfoldable pub transfer_again : List Reply → Bool → ℕ → ℕ → ℕ → List Sent → Run
unfolding stream recovery
transfer_again (some loaded ∷ some miss ∷ replies) legacy_mode buf dest_addr size sent =
    recovery replies buf dest_addr size miss
      (donebin ∷ stream_all legacy_mode buf dest_addr size (loadbin dest_addr size ∷ sent))
transfer_again (some loaded ∷ _) legacy_mode buf dest_addr size sent = record {
  status = failed;
  sent = donebin ∷ stream_all legacy_mode buf dest_addr size (loadbin dest_addr size ∷ sent);
}
transfer_again _ legacy_mode buf dest_addr size sent = record {
  status = failed;
  sent = loadbin dest_addr size ∷ sent;
}

unfoldable pub transfer : List Reply → Bool → ℕ → ℕ → ℕ → List Sent → Run
unfolding stream recovery transfer_again
transfer (some loaded ∷ some miss ∷ replies) legacy_mode buf dest_addr size sent =
    recovery replies buf dest_addr size miss
      (donebin ∷ stream_all legacy_mode buf dest_addr size (loadbin dest_addr size ∷ sent))
transfer (some loaded ∷ none ∷ replies) legacy_mode buf dest_addr size sent =
    transfer_again replies legacy_mode buf dest_addr size
      (donebin ∷ stream_all legacy_mode buf dest_addr size (loadbin dest_addr size ∷ sent))
transfer (some loaded ∷ []) legacy_mode buf dest_addr size sent =
    transfer_again [] legacy_mode buf dest_addr size
      (donebin ∷ stream_all legacy_mode buf dest_addr size (loadbin dest_addr size ∷ sent))
transfer _ legacy_mode buf dest_addr size sent = record {
  status = failed;
  sent = loadbin dest_addr size ∷ sent;
}

unfoldable pub network_send_data_once : List Reply → Bool → ℕ → ℕ → ℕ → Run
unfolding transfer
network_send_data_once replies legacy_mode buf dest_addr size =
    if size == 0
    then record { status = failed; sent = [] }
    else transfer replies legacy_mode buf dest_addr size []

-- W5500_UPLOAD_WINDOW_SIZE.
abbrev pub w5500_upload_window_size : ℕ
w5500_upload_window_size = 32768

-- The size of the window at an offset.
abbrev pub window_size : ℕ → ℕ → ℕ
window_size size offset =
    if ltb w5500_upload_window_size (size - offset) then w5500_upload_window_size else size - offset

-- The loop over the windows, at most `rounds` of them, until one fails. `replies` are those that the
-- upload of the window at an offset gets. The data of a window are `data + offset`.
unfoldable pub send_windows : ℕ → (ℕ → List Reply) → Bool → ℕ → ℕ → ℕ → Run
unfolding network_send_data_once
send_windows zero replies legacy_mode dest_addr size offset =
    if ltb offset size
    then record { status = failed; sent = [] }
    else record { status = ok; sent = [] }
send_windows (suc rounds) replies legacy_mode dest_addr size offset =
    let chunk = window_size size offset in
    let once =
      network_send_data_once (replies offset) legacy_mode offset (add32 dest_addr offset) chunk in
    let rest = send_windows rounds replies legacy_mode dest_addr size (add32 offset chunk) in
    if ltb offset size
    then elim once.status [
      | ok ↦ record { status = rest.status; sent = rest.sent ++ once.sent }
      | failed ↦ once
    ]
    else record { status = ok; sent = [] }

-- `w5500` tells whether the adapter is one; `prepare_comms` succeeded before.
unfoldable pub network_send_data : Bool → (ℕ → List Reply) → Bool → ℕ → ℕ → Run
unfolding network_send_data_once send_windows
network_send_data w5500 replies legacy_mode dest_addr size =
    if size == 0
    then record { status = failed; sent = [] }
    else if not w5500 || leb size w5500_upload_window_size
    then network_send_data_once (replies 0) legacy_mode 0 dest_addr size
    else send_windows size replies legacy_mode dest_addr size 0
