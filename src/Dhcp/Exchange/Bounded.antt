-- ===== src/Dhcp/Exchange/Bounded.antt =====
-- `dhcp_go` of client/common/network/dhcp.c ends, whatever the network answers.
use kos_tool.Prelude.{
  ℕ, zero, suc, ◌+◌, ◌%◌, ◌^◌, ◌≤◌, ◌<◌, ◌≡◌, ◌≢◌, refl, ◌∙◌, ap, chain_some, Bool, true, false,
  Option, none, some, List, [], ◌∷◌, All, ltb, if◌then◌else◌, arith, ◌⊎◌, inl, inr, Bool-cases,
}
use kos_tool.Dhcp.{Dhcp, Net, Reply}
use kos_tool.Dhcp.Exchange.{
  Kind, offer, ack, nak, other, kind_of, on_reply, handle_dhcp_reply, Arrival, reply, escape,
  link_up, wait, Pass, leave, again, count_nak, request, discover, pass, attempts_from, dhcp_go,
  finish_go, build_send_dhcp_packet, rearm, timed_out, answered, offered, next_attempt, begin_go,
}

abbrev pub is_link_up : Arrival → Bool
is_link_up link_up = true
is_link_up _ = false

-- The link does not come up during a wait.
abbrev pub LinkSteady : List Arrival → Type 0
LinkSteady = All (λ a. is_link_up a ≡ false)

-- A time limit is set or has passed.
abbrev pub IsArmed : Dhcp → Type 0
IsArmed s = s.timeout_loop ≢ some 0

-- The loop of `dhcp_go` left because of an acknowledgement or after its attempts.
abbrev pub Ended : Dhcp → Type 0
Ended s = (s.dhcp_acked ≡ true) ⊎ (s.dhcp_nest_counter_maxed ≡ true)

abbrev SameTimes : Dhcp → Dhcp → Type 0
SameTimes s t = (t.timeout_loop ≡ s.timeout_loop) × (t.dhcp_attempts ≡ s.dhcp_attempts)

on_reply-SameTimes :
    (net : Net) (kind : Kind) (r : Reply) (s : Dhcp) → SameTimes s (on_reply net kind r s).1
unfolding on_reply
on_reply-SameTimes net offer r s = ground arith
on_reply-SameTimes net ack r s = ground arith
on_reply-SameTimes net nak r s = ground arith
on_reply-SameTimes net other r s = ground arith

build_send-SameTimes :
    (net : Net) (kind : ℕ) (s : Dhcp) → SameTimes s (build_send_dhcp_packet net kind s)
unfolding build_send_dhcp_packet
build_send-SameTimes net kind s = ground arith

-- A wait with a time limit returns.
abbrev Returns : Net → List Arrival → Dhcp → Type 0
Returns net arrivals s =
    (t : Dhcp) × (wait net arrivals s ≡ some t) × (t.dhcp_attempts ≡ s.dhcp_attempts) × IsArmed t

wait-Returns :
    (net : Net) (arrivals : List Arrival) (s : Dhcp) (limit : ℕ)
    → s.timeout_loop ≡ some (suc limit)
    → LinkSteady arrivals
    → Returns net arrivals s
unfolding wait handle_dhcp_reply
wait-Returns net [] s limit armed steady =
    (record s { timeout_loop = none }, ground arith, refl, λ e. ground arith)
wait-Returns net (reply r ∷ arrivals) s limit armed steady =
    let kept = on_reply-SameTimes net (kind_of r) r s in
    elim (Bool-cases (on_reply net (kind_of r) r s).0) [
      | inl e ↦ ((on_reply net (kind_of r) r s).1, rw e refl, kept.1, λ h. ground arith)
      | inr e ↦
          let (t, got, tries, on) =
            wait-Returns net arrivals (on_reply net (kind_of r) r s).1 limit (kept.0 ∙ armed)
              steady.1 in
          (t, rw e got, tries ∙ kept.1, on)
    ]
wait-Returns net (escape ∷ arrivals) s limit armed steady = (s, refl, refl, λ h. ground arith)
wait-Returns net (link_up ∷ arrivals) s limit armed steady = ground arith

-- What a pass comes to: the loop is left with a result, or goes on with one more attempt counted.
abbrev Outcome : ℕ → Pass → Type 0
Outcome tries (leave t) = Ended t
Outcome tries (again naks t) = (t.dhcp_attempts ≡ tries + 1) × IsArmed t × (tries < 30)

count_nak-Outcome :
    (tries naks : ℕ) (t : Dhcp) → Outcome tries (again naks t) → Outcome tries (count_nak naks t)
unfolding count_nak
count_nak-Outcome tries naks t h = ground arith

limit_of :
    (o : Option ℕ)
    → o ≢ some 0
    → elim o [ none ↦ true | some limit ↦ false ] ≡ false
    → (limit : ℕ) × (o ≡ some (suc limit))
limit_of none armed h = ground arith
limit_of (some zero) armed h = absurd (armed refl)
limit_of (some (suc limit)) armed h = (limit, refl)

module _ (net : Net) where
  -- A wait after a packet is sent.
  sent-Returns :
      (kind : ℕ) (arrivals : List Arrival) (s : Dhcp)
      → LinkSteady arrivals
      → IsArmed s
      → timed_out s ≡ false
      → (t : Dhcp) × (wait net arrivals (build_send_dhcp_packet net kind s) ≡ some t)
        × (t.dhcp_attempts ≡ s.dhcp_attempts)
        × IsArmed t
  sent-Returns kind arrivals s steady armed left =
      let (limit, at) = limit_of s.timeout_loop armed left in
      let sent = build_send-SameTimes net kind s in
      let (t, got, tries, on) =
        wait-Returns net arrivals (build_send_dhcp_packet net kind s) limit (sent.0 ∙ at) steady in
      (t, got, tries ∙ sent.1, on)

  answered-Outcome :
      (tries naks : ℕ) (t : Dhcp)
      → Outcome tries (again naks t)
      → (p : Pass) × (answered naks t ≡ some p) × Outcome tries p
  unfolding answered
  answered-Outcome tries naks t next = (
    if timed_out t then again naks t else count_nak naks t,
    refl,
    elim (Bool-cases (timed_out t)) [
      | inl e ↦ rw e next
      | inr e ↦ rw e (count_nak-Outcome tries naks t next)
    ],
  )

  request-Outcome :
      (answers : List Arrival) (tries naks : ℕ) (s : Dhcp)
      → LinkSteady answers
      → Outcome tries (again naks s)
      → timed_out s ≡ false
      → (p : Pass) × (request net answers naks s ≡ some p) × Outcome tries p
  unfolding request
  request-Outcome answers tries naks s steady h left =
      let (t, got, same, on) = sent-Returns 3 answers s steady h.1 left in
      let (p, done, out) = answered-Outcome tries naks t (same ∙ h.0, on, h.2) in
      (p, chain_some (answered naks) got ∙ done, out)

  rearm-left :
      (s : Dhcp)
      → IsArmed s
      → IsArmed (rearm s)
        × (timed_out (rearm s) ≡ false)
        × ((rearm s).dhcp_attempts ≡ s.dhcp_attempts)
  rearm-left s armed = ground arith

  offered-Outcome :
      (answers : List Arrival) (tries naks : ℕ) (t : Dhcp)
      → LinkSteady answers
      → Outcome tries (again naks t)
      → (p : Pass) × (offered net answers naks t ≡ some p) × Outcome tries p
  unfolding offered
  offered-Outcome answers tries naks t steady next = elim (Bool-cases (timed_out t)) [
    | inl e ↦ (again naks t, rw e refl, next)
    | inr e ↦
        let (p, asked, out) = request-Outcome answers tries naks t steady next e in
        (p, rw e asked, out)
  ]

  discover-Outcome :
      (offers answers : List Arrival) (tries naks : ℕ) (s : Dhcp)
      → LinkSteady offers
      → LinkSteady answers
      → Outcome tries (again naks s)
      → (p : Pass) × (discover net offers answers naks s ≡ some p) × Outcome tries p
  unfolding discover
  discover-Outcome offers answers tries naks s steady_offers steady h =
      let (armed, left, kept) = rearm-left s h.1 in
      let (t, got, same, on) = sent-Returns 1 offers (rearm s) steady_offers armed left in
      let (p, done, out) =
        offered-Outcome answers tries naks t steady (same ∙ kept ∙ h.0, on, h.2) in
      (p, chain_some (offered net answers naks) got ∙ done, out)

  pass-Outcome :
      (offers answers : List Arrival) (naks : ℕ) (s : Dhcp)
      → LinkSteady offers
      → LinkSteady answers
      → IsArmed s
      → s.dhcp_attempts ≤ 30
      → (p : Pass) × (pass net offers answers naks s ≡ some p) × Outcome s.dhcp_attempts p
  unfolding pass
  pass-Outcome offers answers naks s steady_offers steady armed few =
      elim (Bool-cases s.dhcp_acked) [
        | inl e ↦ (leave s, ground arith, inl e)
        | inr e ↦ elim (Bool-cases (ltb 30 ((s.dhcp_attempts + 1) % 2 ^ 32))) [
          | inl h ↦ (
            leave (record s {
              dhcp_attempts = (s.dhcp_attempts + 1) % 2 ^ 32;
              dhcp_nest_counter_maxed = true;
            }),
            ground arith,
            inr refl,
          )
          | inr h ↦
              let (p, asked, out) =
                discover-Outcome offers answers s.dhcp_attempts naks (next_attempt s) steady_offers
                  steady (omega arith, armed, ground arith) in
              (p, ground arith, out)
        ]
      ]

  -- The rest of the loop, after a pass.
  loop_ends :
      (tries fuel : ℕ) {loop : ℕ → Dhcp → Option Dhcp} (p : Pass)
      → ((naks : ℕ) (t : Dhcp)
          → IsArmed t
          → t.dhcp_attempts ≤ 30
          → 31 ≤ t.dhcp_attempts + fuel
          → (u : Dhcp) × (loop naks t ≡ some u) × Ended u)
      → 31 ≤ tries + suc fuel
      → Outcome tries p
      → (u : Dhcp) × (elim p [ leave t ↦ some t | again more t ↦ loop more t ] ≡ some u) × Ended u
  loop_ends tries fuel (leave t) rest enough out = (t, refl, out)
  loop_ends tries fuel (again more t) rest enough out =
      rest more t out.1 (omega arith) (omega arith)

  attempts_from-ends :
      (offers answers : ℕ → List Arrival) (fuel n naks : ℕ) (s : Dhcp)
      → ((i : ℕ) → LinkSteady (offers i))
      → ((i : ℕ) → LinkSteady (answers i))
      → IsArmed s
      → s.dhcp_attempts ≤ 30
      → 31 ≤ s.dhcp_attempts + fuel
      → (t : Dhcp) × (attempts_from net offers answers fuel n naks s ≡ some t) × Ended t
  unfolding attempts_from
  attempts_from-ends offers answers zero n naks s so sa armed few enough = absurd (omega arith)
  attempts_from-ends offers answers (suc fuel) n naks s so sa armed few enough =
      let (p, passed, out) = pass-Outcome (offers n) (answers n) naks s (so n) (sa n) armed few in
      let (t, rest, ended) =
        loop_ends s.dhcp_attempts fuel p
          (λ naks t. attempts_from-ends offers answers fuel (n + 1) naks t so sa) enough out in
      (t, chain_some _ passed ∙ rest, ended)

finish_go-Ended : (s : Dhcp) → Ended s → (t : Dhcp) × (finish_go s ≡ (true, t)) × Ended t
finish_go-Ended s ended = ((finish_go s).1, ground arith, ground arith)

-- Whatever arrives in the waits, as long as the link does not come up anew in one of them, 31
-- passes are enough: `dhcp_go` returns 0, acknowledged or with its counter maxed.
pub dhcp_go_ends :
    (net : Net) (offers answers : ℕ → List Arrival) (s : Dhcp)
    → ((i : ℕ) → LinkSteady (offers i))
    → ((i : ℕ) → LinkSteady (answers i))
    → (t : Dhcp) × (dhcp_go net offers answers 31 s ≡ some (true, t)) × Ended t
unfolding dhcp_go
dhcp_go_ends net offers answers s so sa =
    let (t, looped, ended) =
      attempts_from-ends net offers answers 31 0 0 (begin_go s) so sa (λ h. ground arith)
        (omega arith) (omega arith) in
    let (u, result, kept) = finish_go-Ended t ended in
    (u, chain_some _ looped ∙ ap some result, kept)
