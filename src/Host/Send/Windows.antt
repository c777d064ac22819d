-- ===== src/Host/Send/Windows.antt =====
-- Uploads in windows (host/src/transport/network.c, `network_send_data`).
use kos_tool.Prelude.{
  ℕ, zero, suc, ◌+◌, ◌-◌, ◌%◌, ◌^◌, ◌≤◌, ◌<◌, ◌≡◌, ◌≢◌, refl, sym, ap, ◌∙◌, arith, Bool, true,
  false, List, ltb, [], ◌∷◌, ◌++◌, All, All-append, none, some, if◌then◌else◌, sub32, Bool-cases,
  leb, add32, inl, inr, lt→ltb, ◌⊎◌,
}
use mathlib.Core.Path.{subst}
use native.Mathlib.Decide.{dec_le}
use kos_tool.Host.Send.{
  Status, ok, failed, Reply, Run, Sent, loadbin, partbin, donebin, stream, recovery, transfer,
  transfer_again, chunk_size_of, stream_all, window_size, network_send_data_once, send_windows,
  network_send_data, w5500_upload_window_size,
}
use kos_tool.Host.Send.Outcome.{loop_test, ended, once_transfer}

-- From `offset` on, the windows that succeeded follow one another up to the size, and the commands
-- sent are those of their uploads, each from its own place in the buffer.
pub data Sends (replies : ℕ → List Reply) (legacy_mode : Bool) (dest size : ℕ)
    : ℕ → List Sent → Type 0 where
  all : {offset : ℕ} → size ≤ offset → Sends replies legacy_mode dest size offset []
  window :
      {offset : ℕ} {more : List Sent} (chunk : ℕ)
      → 0 < chunk
      → chunk ≤ w5500_upload_window_size
      → offset + chunk ≤ size
      → (network_send_data_once
          (replies offset)
          legacy_mode
          offset
          (add32 dest offset)
          chunk).status
        ≡ ok
      → Sends replies legacy_mode dest size (offset + chunk) more
      → Sends replies legacy_mode dest size offset (
          more
          ++ (network_send_data_once
              (replies offset)
              legacy_mode
              offset
              (add32 dest offset)
              chunk).sent)

-- A packet's address is as far from the upload's as its bytes are from the start of the buffer.
abbrev pub Placed : ℕ → Sent → Type 0
Placed dest (partbin addr size offset) = addr % 2 ^ 32 ≡ (dest + offset) % 2 ^ 32
Placed dest (loadbin addr size) = Unit
Placed dest donebin = Unit

-- Where the upload of a window starts at the place of its data.
module _ (dest buf base : ℕ) (low : base < 2 ^ 32) (start : base ≡ (dest + buf) % 2 ^ 32) where
  stream-Placed :
      (rounds chunk_size size offset : ℕ) (sent : List Sent)
      → All (Placed dest) sent
      → All (Placed dest) (stream rounds chunk_size buf base size offset sent)
  unfolding stream
  stream-Placed zero chunk_size size offset sent h = h
  stream-Placed (suc rounds) chunk_size size offset sent h =
      let send_size = if leb chunk_size (size - offset) then chunk_size else size - offset in
      let rest =
        stream-Placed rounds chunk_size size (add32 offset chunk_size)
          (partbin (add32 base offset) send_size (buf + offset) ∷ sent)
          (omega (arith, start, low), h) in
      elim (Bool-cases (ltb offset size)) [ inl inside ↦ rw inside rest | inr past ↦ rw past h ]

  resent :
      (miss : ℕ × ℕ) (sent : List Sent)
      → All (Placed dest) sent
      → All (Placed dest) (donebin ∷ partbin miss.0 miss.1 (buf + sub32 miss.0 base) ∷ sent)
  resent miss sent h = (tt, (omega (arith, start, low), h))

  recovery-Placed :
      (replies : List Reply) (size : ℕ) (miss : ℕ × ℕ) (sent : List Sent)
      → All (Placed dest) sent
      → All (Placed dest) (recovery replies buf base size miss sent).sent
  unfolding recovery
  recovery-Placed [] size miss sent h = elim (loop_test base size miss) [
    | inl e ↦ subst (All (Placed dest)) (sym (ended [] buf base size miss sent e)) h
    | inr (n, m) ↦ rw (n, m) (tt, resent miss sent h)
  ]
  recovery-Placed (none ∷ []) size miss sent h = elim (loop_test base size miss) [
    | inl e ↦ subst (All (Placed dest)) (sym (ended (none ∷ []) buf base size miss sent e)) h
    | inr (n, m) ↦ rw (n, m) (tt, resent miss sent h)
  ]
  recovery-Placed (none ∷ none ∷ replies) size miss sent h = elim (loop_test base size miss) [
    | inl e ↦
        subst (All (Placed dest)) (sym (ended (none ∷ none ∷ replies) buf base size miss sent e)) h
    | inr (n, m) ↦ rw (n, m) (tt, resent miss sent h)
  ]
  recovery-Placed (none ∷ some r ∷ replies) size miss sent h = elim (loop_test base size miss) [
    | inl e ↦
        subst (All (Placed dest)) (sym (ended (none ∷ some r ∷ replies) buf base size miss sent e))
          h
    | inr (n, m) ↦ rw (n, m) (tt, resent miss sent h)
  ]
  recovery-Placed (some next ∷ replies) size miss sent h = elim (loop_test base size miss) [
    | inl e ↦
        subst (All (Placed dest)) (sym (ended (some next ∷ replies) buf base size miss sent e)) h
    | inr (n, m) ↦ rw (n, m) (recovery-Placed replies size next _ (resent miss sent h))
  ]

  transfer_again-Placed :
      (replies : List Reply) (legacy_mode : Bool) (size : ℕ) (sent : List Sent)
      → All (Placed dest) sent
      → All (Placed dest) (transfer_again replies legacy_mode buf base size sent).sent
  unfolding transfer_again
  transfer_again-Placed [] legacy_mode size sent h = (tt, h)
  transfer_again-Placed (none ∷ replies) legacy_mode size sent h = (tt, h)
  transfer_again-Placed (some loaded ∷ []) legacy_mode size sent h =
      (tt, stream-Placed size (chunk_size_of legacy_mode) size 0 _ (tt, h))
  transfer_again-Placed (some loaded ∷ none ∷ replies) legacy_mode size sent h =
      (tt, stream-Placed size (chunk_size_of legacy_mode) size 0 _ (tt, h))
  transfer_again-Placed (some loaded ∷ some miss ∷ replies) legacy_mode size sent h =
      recovery-Placed replies size miss
        (donebin ∷ stream_all legacy_mode buf base size (loadbin base size ∷ sent))
        (tt, stream-Placed size (chunk_size_of legacy_mode) size 0 _ (tt, h))

  transfer-Placed :
      (replies : List Reply) (legacy_mode : Bool) (size : ℕ)
      → All (Placed dest) (transfer replies legacy_mode buf base size []).sent
  unfolding transfer
  transfer-Placed [] legacy_mode size = (tt, tt)
  transfer-Placed (none ∷ replies) legacy_mode size = (tt, tt)
  transfer-Placed (some loaded ∷ []) legacy_mode size =
      transfer_again-Placed [] legacy_mode size
        (donebin ∷ stream_all legacy_mode buf base size (loadbin base size ∷ []))
        (tt, stream-Placed size (chunk_size_of legacy_mode) size 0 _ (tt, tt))
  transfer-Placed (some loaded ∷ none ∷ replies) legacy_mode size =
      transfer_again-Placed replies legacy_mode size
        (donebin ∷ stream_all legacy_mode buf base size (loadbin base size ∷ []))
        (tt, stream-Placed size (chunk_size_of legacy_mode) size 0 _ (tt, tt))
  transfer-Placed (some loaded ∷ some miss ∷ replies) legacy_mode size =
      recovery-Placed replies size miss
        (donebin ∷ stream_all legacy_mode buf base size (loadbin base size ∷ []))
        (tt, stream-Placed size (chunk_size_of legacy_mode) size 0 _ (tt, tt))

  once-Placed :
      (replies : List Reply) (legacy_mode : Bool) (size : ℕ)
      → All (Placed dest) (network_send_data_once replies legacy_mode buf base size).sent
  unfolding network_send_data_once
  once-Placed replies legacy_mode zero = tt
  once-Placed replies legacy_mode (suc size) =
      subst (λ (run : Run). All (Placed dest) run.sent)
        (sym (once_transfer replies legacy_mode buf base (suc size) (omega arith)))
        (transfer-Placed replies legacy_mode (suc size))

-- What the windows sent is placed.
Sends-Placed :
    (replies : ℕ → List Reply) (legacy_mode : Bool) (dest size : ℕ) {offset : ℕ} {sent : List Sent}
    → Sends replies legacy_mode dest size offset sent
    → All (Placed dest) sent
Sends-Placed replies legacy_mode dest size (all past) = tt
Sends-Placed replies legacy_mode dest size {offset}
      (window {more} chunk pos within fits good rest) =
    All-append (Placed dest) more _ (Sends-Placed replies legacy_mode dest size rest) (
      once-Placed dest offset (add32 dest offset) (omega arith) refl (replies offset) legacy_mode
        chunk)

failed≢ok : failed ≢ ok
failed≢ok e = ground arith

Status-cases : (st : Status) → (st ≡ ok) ⊎ (st ≡ failed)
Status-cases ok = inl refl
Status-cases failed = inr refl

window_bounds :
    (size offset : ℕ)
    → offset < size
    → (0 < window_size size offset)
      × (window_size size offset ≤ w5500_upload_window_size)
      × (offset + window_size size offset ≤ size)
window_bounds size offset h = ground arith

module _ (replies : ℕ → List Reply) (legacy_mode : Bool) (dest size : ℕ) where
  abbrev once : ℕ → Run
  once offset =
      network_send_data_once (replies offset) legacy_mode offset (add32 dest offset)
        (window_size size offset)

  next_window :
      (rounds offset : ℕ)
      → offset < size
      → (once offset).status ≡ ok
      → send_windows (suc rounds) replies legacy_mode dest size offset ≡ record {
        status =
            (send_windows rounds replies legacy_mode dest size
              (add32 offset (window_size size offset))).status;
        sent =
            (send_windows rounds replies legacy_mode dest size
              (add32 offset (window_size size offset))).sent
            ++ (once offset).sent;
      }
  unfolding send_windows
  next_window rounds offset h e =
      let inside : ltb offset size ≡ true = lt→ltb _ _ h in rw (inside, e) refl

  failed_window :
      (rounds offset : ℕ)
      → offset < size
      → (once offset).status ≡ failed
      → send_windows (suc rounds) replies legacy_mode dest size offset ≡ once offset
  unfolding send_windows
  failed_window rounds offset h e =
      let inside : ltb offset size ≡ true = lt→ltb _ _ h in rw (inside, e) refl

  past_end :
      (rounds offset : ℕ)
      → size ≤ offset
      → send_windows rounds replies legacy_mode dest size offset ≡ record { status = ok; sent = [] }
  unfolding send_windows
  past_end zero offset h = ground arith
  past_end (suc rounds) offset h = let past : ltb offset size ≡ false = ground arith in rw past refl

  no_rounds :
      (offset : ℕ)
      → (send_windows zero replies legacy_mode dest size offset).status ≡ ok
      → size ≤ offset
  unfolding send_windows
  no_rounds offset h = elim (dec_le size offset) [
    | yes past ↦ past
    | no more ↦
        let inside : ltb offset size ≡ true = ground arith in
        absurd (failed≢ok (rw inside refl ∙ h))
  ]

  ends-Sends :
      (rounds offset : ℕ)
      → size ≤ offset
      → Sends replies legacy_mode dest size offset
          (send_windows rounds replies legacy_mode dest size offset).sent
  ends-Sends rounds offset past =
      subst (λ (run : Run). Sends replies legacy_mode dest size offset run.sent)
        (sym (past_end rounds offset past)) (all past)

  send_windows-Sends :
      (rounds offset : ℕ)
      → size + 32768 < 2 ^ 32
      → (send_windows rounds replies legacy_mode dest size offset).status ≡ ok
      → Sends replies legacy_mode dest size offset
          (send_windows rounds replies legacy_mode dest size offset).sent
  send_windows-Sends zero offset small h = ends-Sends zero offset (no_rounds offset h)
  send_windows-Sends (suc rounds) offset small h = elim (dec_le size offset) [
    | yes past ↦ ends-Sends (suc rounds) offset past
    | no more ↦
        let inside : offset < size = omega arith in
        let (positive, within, fits) = window_bounds size offset inside in
        let next : add32 offset (window_size size offset) ≡ offset + window_size size offset =
          omega (arith, fits) in
        elim (Status-cases (once offset).status) [
          | inl good ↦
              let step = next_window rounds offset inside good in
              subst (λ (run : Run). Sends replies legacy_mode dest size offset run.sent) (sym step)
                (window (window_size size offset) positive within fits good (
                  subst
                    (λ o.
                      Sends replies legacy_mode dest size o
                        (send_windows rounds replies legacy_mode dest size
                          (add32 offset (window_size size offset))).sent)
                    next
                    (send_windows-Sends rounds (add32 offset (window_size size offset)) small
                      (ap (λ (run : Run). run.status) (sym step) ∙ h))))
          | inr bad ↦ absurd (
              failed≢ok (
                sym bad
                ∙ ap (λ (run : Run). run.status) (sym (failed_window rounds offset inside bad))
                ∙ h))
        ]
  ]

  in_windows :
      leb size w5500_upload_window_size ≡ false
      → network_send_data true replies legacy_mode dest size
        ≡ send_windows size replies legacy_mode dest size 0
  unfolding network_send_data
  in_windows h = ground arith

  -- For a size above the window and below 2 ^ 32 - 32768: an upload through a W5500 that reports
  -- success sent windows that follow one another from the first byte to the last, none empty and
  -- none above 32 KiB, the upload of each of them from its own place in the buffer succeeded, and
  -- the commands sent are those of these uploads in turn. Each packet among them has an address
  -- as far from the upload's, modulo 2 ^ 32, as its bytes are from the start of the buffer.
  pub network_send_data-Sends :
      size + 32768 < 2 ^ 32
      → w5500_upload_window_size < size
      → (network_send_data true replies legacy_mode dest size).status ≡ ok
      → Sends replies legacy_mode dest size 0
          (network_send_data true replies legacy_mode dest size).sent
        × All (Placed dest) (network_send_data true replies legacy_mode dest size).sent
  network_send_data-Sends small large h =
      let same = in_windows (ground arith) in
      let sends : Sends replies legacy_mode dest size 0
          (network_send_data true replies legacy_mode dest size).sent =
        subst (λ (run : Run). Sends replies legacy_mode dest size 0 run.sent) (sym same)
          (send_windows-Sends size 0 small (ap (λ (run : Run). run.status) (sym same) ∙ h)) in
      (sends, Sends-Placed replies legacy_mode dest size sends)
