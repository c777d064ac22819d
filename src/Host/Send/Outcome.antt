-- ===== src/Host/Send/Outcome.antt =====
-- What the result of an upload means (host/src/transport/network.c).
use kos_tool.Prelude.{
  ℕ, zero, suc, ◌+◌, ◌-◌, leb, if◌then◌else◌, ◌<◌, ◌≡◌, ◌≢◌, refl, sym, ap, ◌∙◌, arith, Bool, false,
  none, some, List, [], get_or, drop, ◌∷◌, ltb, add32, sub32, ◌⊎◌, inl, inr, ◌==◌, Bool-cases,
  ltb→lt,
}
use mathlib.Core.Path.{subst}
use kos_tool.Host.Send.{
  Sent, loadbin, partbin, donebin, ok, failed, Run, Reply, recovery, transfer, transfer_again,
  network_send_data_once, stream, stream_all, chunk_size_of,
}

-- An answer to DBIN that ends the recovery: nothing is missing, or what it names is not inside the
-- buffer.
abbrev pub Ends : ℕ → ℕ → ℕ × ℕ → Type 0
Ends dest size answer = (answer.1 ≡ 0) ⊎ (size < add32 (sub32 answer.0 dest) answer.1)

-- The commands that wait for an answer: the n-th of them, from 0 on, gets the n-th reply.
abbrev pub waits : List Sent → ℕ
waits [] = 0
waits (loadbin addr size ∷ sent) = suc (waits sent)
waits (partbin addr size offset ∷ sent) = waits sent
waits (donebin ∷ sent) = suc (waits sent)

-- The answer to a command that waits, after `earlier` were sent.
abbrev pub answer_after : List Reply → List Sent → Reply
answer_after replies earlier = get_or replies (waits earlier) none

-- What a success rests on: the last command is a DBIN whose answer ends the recovery, or an answered
-- LBIN right after a DBIN that got no answer.
abbrev pub Grounds : ℕ → ℕ → List Reply → List Sent → Type 0
Grounds dest size replies sent =
    ((earlier : List Sent) × (sent ≡ donebin ∷ earlier)
      × (a : ℕ × ℕ) × (answer_after replies earlier ≡ some a)
      × Ends dest size a)
    ⊎ ((earlier : List Sent) × (sent ≡ loadbin dest size ∷ donebin ∷ earlier)
        × (answer_after replies earlier ≡ none)
        × (a : ℕ × ℕ) × (answer_after replies (donebin ∷ earlier) ≡ some a))

pub loop_test :
    (dest size : ℕ) (miss : ℕ × ℕ)
    → Ends dest size miss
      ⊎ (((miss.1 == 0) ≡ false) × (ltb size (add32 (sub32 miss.0 dest) miss.1) ≡ false))
loop_test dest size miss = elim (Bool-cases (miss.1 == 0)) [
  | inl e ↦ inl (inl (ground arith))
  | inr n ↦ elim (Bool-cases (ltb size (add32 (sub32 miss.0 dest) miss.1))) [
    | inl e ↦ inl (inr (ltb→lt _ _ e))
    | inr m ↦ inr (n, m)
  ]
]

abbrev pub Goes : ℕ → ℕ → ℕ × ℕ → Type 0
Goes dest size miss =
    ((miss.1 == 0) ≡ false) × (ltb size (add32 (sub32 miss.0 dest) miss.1) ≡ false)

ok≢failed : ok ≢ failed
ok≢failed e = ground arith

pub ended :
    (replies : List Reply) (buf dest size : ℕ) (miss : ℕ × ℕ) (sent : List Sent)
    → Ends dest size miss
    → (recovery replies buf dest size miss sent).sent ≡ sent
unfolding recovery
ended [] buf dest size miss sent (inl e) = ground arith
ended [] buf dest size miss sent (inr e) = ground arith
ended (none ∷ replies) buf dest size miss sent (inl e) = ground arith
ended (none ∷ replies) buf dest size miss sent (inr e) = ground arith
ended (some r ∷ replies) buf dest size miss sent (inl e) = ground arith
ended (some r ∷ replies) buf dest size miss sent (inr e) = ground arith

-- A DBIN without an answer, with that to the LBIN after it.
unanswered :
    (buf dest size : ℕ) (miss : ℕ × ℕ) (sent : List Sent)
    → Goes dest size miss
    → (recovery [] buf dest size miss sent).status ≡ failed
unfolding recovery
unanswered buf dest size miss sent (n, m) = ground arith

not_reopened :
    (replies : List Reply) (buf dest size : ℕ) (miss : ℕ × ℕ) (sent : List Sent)
    → Goes dest size miss
    → get_or replies 0 none ≡ none
    → (recovery (none ∷ replies) buf dest size miss sent).status ≡ failed
unfolding recovery
not_reopened [] buf dest size miss sent (n, m) e = ground arith
not_reopened (none ∷ replies) buf dest size miss sent (n, m) e = ground arith
not_reopened (some r ∷ replies) buf dest size miss sent (n, m) e = absurd (ground (arith, e))

pub reopened :
    (r : ℕ × ℕ) (replies : List Reply) (buf dest size : ℕ) (miss : ℕ × ℕ) (sent : List Sent)
    → Goes dest size miss
    → recovery (none ∷ some r ∷ replies) buf dest size miss sent ≡ record {
      status = ok;
      sent = loadbin dest size ∷ donebin ∷ partbin miss.0 miss.1 (buf + sub32 miss.0 dest) ∷ sent;
    }
unfolding recovery
reopened r replies buf dest size miss sent (n, m) = rw (n, m) refl

pub continued :
    (next : ℕ × ℕ) (replies : List Reply) (buf dest size : ℕ) (miss : ℕ × ℕ) (sent : List Sent)
    → Goes dest size miss
    → recovery (some next ∷ replies) buf dest size miss sent
      ≡ recovery replies buf dest size next
          (donebin ∷ partbin miss.0 miss.1 (buf + sub32 miss.0 dest) ∷ sent)
unfolding recovery
continued next replies buf dest size miss sent (n, m) = rw (n, m) refl

-- The reply at a place, and those behind it.
drop_parts :
    (n : ℕ) (all : List Reply) (r : Reply) (rs : List Reply)
    → drop n all ≡ r ∷ rs
    → (get_or all n none ≡ r) × (drop (suc n) all ≡ rs)
drop_parts zero [] r rs h = absurd (ground (arith, h))
drop_parts zero (x ∷ xs) r rs h = (ap (λ l. get_or l 0 r) h, ap (λ l. drop 1 l) h)
drop_parts (suc n) [] r rs h = absurd (ground (arith, h))
drop_parts (suc n) (x ∷ xs) r rs h = drop_parts n xs r rs h

module _ (all : List Reply) (buf dest size : ℕ) where
  abbrev OfRun : Run → Type 0
  OfRun run = run.status ≡ ok → Grounds dest size all run.sent

  -- The LBIN after an unanswered DBIN.
  reopened-Grounds :
      (n : ℕ) (miss r : ℕ × ℕ) (earlier : List Sent) (replies : List Reply)
      → waits earlier ≡ n
      → drop (suc n) all ≡ none ∷ some r ∷ replies
      → Goes dest size miss
      → OfRun (recovery (none ∷ some r ∷ replies) buf dest size miss (donebin ∷ earlier))
  reopened-Grounds n miss r earlier replies count behind goes h =
      let (lost, rest) = drop_parts (suc n) all none (some r ∷ replies) behind in
      let (answered, beyond) = drop_parts (suc (suc n)) all (some r) replies rest in
      inr (
        partbin miss.0 miss.1 (buf + sub32 miss.0 dest) ∷ donebin ∷ earlier,
        ap (λ (u : Run). u.sent) (reopened r replies buf dest size miss (donebin ∷ earlier) goes),
        ap (λ k. get_or all (suc k) none) count ∙ lost,
        r,
        ap (λ k. get_or all (suc (suc k)) none) count ∙ answered,
      )

  settled-Grounds :
      (replies : List Reply) (n : ℕ) (miss : ℕ × ℕ) (earlier : List Sent)
      → waits earlier ≡ n
      → get_or all n none ≡ some miss
      → Ends dest size miss
      → OfRun (recovery replies buf dest size miss (donebin ∷ earlier))
  settled-Grounds replies n miss earlier count this e h = inl (
    earlier,
    ended replies buf dest size miss (donebin ∷ earlier) e,
    miss,
    ap (λ k. get_or all k none) count ∙ this,
    e,
  )

  recovery-Grounds :
      (replies : List Reply) (n : ℕ) (miss : ℕ × ℕ) (earlier : List Sent)
      → waits earlier ≡ n
      → get_or all n none ≡ some miss
      → drop (suc n) all ≡ replies
      → OfRun (recovery replies buf dest size miss (donebin ∷ earlier))
  recovery-Grounds [] n miss earlier count this behind h = elim (loop_test dest size miss) [
    | inl e ↦ settled-Grounds [] n miss earlier count this e h
    | inr goes ↦ absurd (ok≢failed (sym h ∙ unanswered buf dest size miss (donebin ∷ earlier) goes))
  ]
  recovery-Grounds (none ∷ []) n miss earlier count this behind h =
      elim (loop_test dest size miss) [
        | inl e ↦ settled-Grounds (none ∷ []) n miss earlier count this e h
        | inr goes ↦
            absurd
              (ok≢failed (sym h ∙ not_reopened [] buf dest size miss (donebin ∷ earlier) goes refl))
      ]
  recovery-Grounds (none ∷ none ∷ replies) n miss earlier count this behind h =
      elim (loop_test dest size miss) [
        | inl e ↦ settled-Grounds (none ∷ none ∷ replies) n miss earlier count this e h
        | inr goes ↦ absurd (
            ok≢failed (
              sym h
              ∙ not_reopened (none ∷ replies) buf dest size miss (donebin ∷ earlier) goes refl))
      ]
  recovery-Grounds (none ∷ some r ∷ replies) n miss earlier count this behind h =
      elim (loop_test dest size miss) [
        | inl e ↦ settled-Grounds (none ∷ some r ∷ replies) n miss earlier count this e h
        | inr goes ↦ reopened-Grounds n miss r earlier replies count behind goes h
      ]
  recovery-Grounds (some next ∷ replies) n miss earlier count this behind h =
      elim (loop_test dest size miss) [
        | inl e ↦ settled-Grounds (some next ∷ replies) n miss earlier count this e h
        | inr goes ↦
            let same = continued next replies buf dest size miss (donebin ∷ earlier) goes in
            let (answered, rest) = drop_parts (suc n) all (some next) replies behind in
            subst OfRun (sym same)
              (recovery-Grounds replies (suc n) next
                (partbin miss.0 miss.1 (buf + sub32 miss.0 dest) ∷ donebin ∷ earlier)
                (ap (λ k. suc k) count) answered rest)
              h
      ]

-- The data wait for nothing.
waits-stream :
    (rounds chunk_size buf dest size offset : ℕ) (sent : List Sent)
    → waits (stream rounds chunk_size buf dest size offset sent) ≡ waits sent
unfolding stream
waits-stream zero chunk_size buf dest size offset sent = ground arith
waits-stream (suc rounds) chunk_size buf dest size offset sent =
    let rest = waits-stream rounds chunk_size buf dest size (add32 offset chunk_size) (
      partbin (add32 dest offset)
        (if leb chunk_size (size - offset) then chunk_size else size - offset) (buf + offset)
      ∷ sent) in
    elim (Bool-cases (ltb offset size)) [ inl inside ↦ rw inside rest | inr past ↦ rw past refl ]

transfer_again-Grounds :
    (all replies : List Reply) (legacy_mode : Bool) (buf dest size n : ℕ) (sent : List Sent)
    → waits sent ≡ n
    → drop n all ≡ replies
    → OfRun all buf dest size (transfer_again replies legacy_mode buf dest size sent)
unfolding transfer_again
transfer_again-Grounds all [] legacy_mode buf dest size n sent count from h =
    absurd (ok≢failed (sym h))
transfer_again-Grounds all (none ∷ replies) legacy_mode buf dest size n sent count from h =
    absurd (ok≢failed (sym h))
transfer_again-Grounds all (some loaded ∷ []) legacy_mode buf dest size n sent count from h =
    absurd (ok≢failed (sym h))
transfer_again-Grounds all (some loaded ∷ none ∷ replies) legacy_mode buf dest size n sent count
      from h =
    absurd (ok≢failed (sym h))
transfer_again-Grounds all (some loaded ∷ some miss ∷ replies) legacy_mode buf dest size n sent
      count from h =
    let (opened, rest) = drop_parts n all (some loaded) (some miss ∷ replies) from in
    let (answered, behind) = drop_parts (suc n) all (some miss) replies rest in
    recovery-Grounds all buf dest size replies (suc n) miss
      (stream_all legacy_mode buf dest size (loadbin dest size ∷ sent))
      (waits-stream size (chunk_size_of legacy_mode) buf dest size 0 (loadbin dest size ∷ sent)
        ∙ ap (λ k. suc k) count)
      answered behind h

transfer-Grounds :
    (replies : List Reply) (legacy_mode : Bool) (buf dest size : ℕ)
    → OfRun replies buf dest size (transfer replies legacy_mode buf dest size [])
unfolding transfer
transfer-Grounds [] legacy_mode buf dest size h = absurd (ok≢failed (sym h))
transfer-Grounds (none ∷ replies) legacy_mode buf dest size h = absurd (ok≢failed (sym h))
transfer-Grounds (some loaded ∷ []) legacy_mode buf dest size h =
    transfer_again-Grounds (some loaded ∷ []) [] legacy_mode buf dest size 2 _
      (ap (λ k. suc k)
        (waits-stream size (chunk_size_of legacy_mode) buf dest size 0 (loadbin dest size ∷ [])))
      refl h
transfer-Grounds (some loaded ∷ none ∷ replies) legacy_mode buf dest size h =
    transfer_again-Grounds (some loaded ∷ none ∷ replies) replies legacy_mode buf dest size 2 _
      (ap (λ k. suc k)
        (waits-stream size (chunk_size_of legacy_mode) buf dest size 0 (loadbin dest size ∷ [])))
      refl h
transfer-Grounds (some loaded ∷ some miss ∷ replies) legacy_mode buf dest size h =
    recovery-Grounds (some loaded ∷ some miss ∷ replies) buf dest size replies 1 miss _
      (waits-stream size (chunk_size_of legacy_mode) buf dest size 0 (loadbin dest size ∷ [])) refl
      refl h

pub once_transfer :
    (replies : List Reply) (legacy_mode : Bool) (buf dest size : ℕ)
    → 0 < size
    → network_send_data_once replies legacy_mode buf dest size
      ≡ transfer replies legacy_mode buf dest size []
unfolding network_send_data_once
once_transfer replies legacy_mode buf dest size pos = ground arith

once_of_nothing :
    (replies : List Reply) (legacy_mode : Bool) (buf dest : ℕ)
    → (network_send_data_once replies legacy_mode buf dest 0).status ≡ failed
unfolding network_send_data_once
once_of_nothing replies legacy_mode buf dest = refl

-- An upload that reports success is not of nothing, and the last command that it sent is a DBIN
-- whose own answer names nothing to send or a range past the buffer's end, or else an answered
-- LBIN right after a DBIN that got no answer. The answers are those of the commands that wait, in
-- their order.
pub network_send_data_once-Grounds :
    (replies : List Reply) (legacy_mode : Bool) (buf dest size : ℕ)
    → (network_send_data_once replies legacy_mode buf dest size).status ≡ ok
    → (0 < size)
      × Grounds dest size replies (network_send_data_once replies legacy_mode buf dest size).sent
network_send_data_once-Grounds replies legacy_mode buf dest zero h =
    absurd (ok≢failed (sym h ∙ once_of_nothing replies legacy_mode buf dest))
network_send_data_once-Grounds replies legacy_mode buf dest (suc size) h =
    let same = once_transfer replies legacy_mode buf dest (suc size) (omega arith) in
    (
      omega arith,
      subst (OfRun replies buf dest (suc size)) (sym same)
          (transfer-Grounds replies legacy_mode buf dest (suc size)) h,
    )
