-- ===== src/Dhcp/Poll/Renewal.antt =====
-- A renewal whose acknowledgement is lost: `dhcp_renew` of client/common/network/dhcp.c and the
-- back-off of `dhcp_poll` in client/common/network/entry.c.
use kos_tool.Prelude.{
  ℕ, ◌/◌, ◌%◌, ◌^◌, ◌≤◌, ◌<◌, ◌≡◌, ◌≢◌, refl, sym, ◌∙◌, ap, chain_some, chain_parts, Bool, true,
  false, none, some, List, [], ◌∷◌, All, if◌then◌else◌, arith, ◌>>=◌,
}
use mathlib.Core.Option.{some_inj}
use kos_tool.Dhcp.{Dhcp, Net, Reply}
use kos_tool.Dhcp.Exchange.{
  Arrival, reply, escape, link_up, Kind, offer, ack, nak, other, kind_of, on_reply,
  handle_dhcp_reply, Renewed, failed, dhcp_renew, finish_renew, begin_renew, dhcp_go, finish_go,
  wait, build_send_dhcp_packet, dhcp_renew_type,
}
use kos_tool.Dhcp.Exchange.Waits.{wait_keeps}
use kos_tool.Dhcp.Poll.{
  retry_threshold, after_renew, renewal_due, renewal_step, discovery_step, dhcp_poll, disp_info,
  begin_renewal, discovery_due,
}
use kos_tool.Dhcp.Poll.Settled.{retry_threshold_lem}

-- Neither an answer of the server nor a command that ends the wait.
abbrev pub IsSilent : Arrival → Type 0
IsSilent (reply r) = kind_of r ≡ other
IsSilent escape = ⊥
IsSilent link_up = Unit

wait_silent :
    (net : Net) (arrivals : List Arrival) (s : Dhcp)
    → s.timeout_loop ≡ some 0
    → All IsSilent arrivals
    → wait net arrivals s ≡ none
unfolding wait handle_dhcp_reply on_reply
wait_silent net [] s h silent = ground arith
wait_silent net (reply r ∷ arrivals) s h silent =
    rw silent.0 (wait_silent net arrivals s h silent.1)
wait_silent net (escape ∷ arrivals) s h silent = absurd silent.0
wait_silent net (link_up ∷ arrivals) s h silent =
    ground (arith, wait_silent net arrivals s h silent.1)

finish_go_unlimited :
    (u t : Dhcp) (ok : Bool) → some (finish_go u) ≡ some (ok, t) → t.timeout_loop ≡ some 0
finish_go_unlimited u t ok h = ground arith

build_send-timeout :
    (net : Net) (kind : ℕ) (s : Dhcp)
    → (build_send_dhcp_packet net kind s).timeout_loop ≡ s.timeout_loop
unfolding build_send_dhcp_packet
build_send-timeout net kind s = ground arith

-- With the time limit that `dhcp_go` leaves behind, a renewal during which neither the server
-- answers nor a command ends the wait does not return.
pub dhcp_renew_silent :
    (net : Net) (offers answers : ℕ → List Arrival) (fuel : ℕ) (s t u : Dhcp) (ok : Bool)
    (arrivals : List Arrival)
    → dhcp_go net offers answers fuel s ≡ some (ok, t)
    → u.timeout_loop ≡ t.timeout_loop
    → All IsSilent arrivals
    → dhcp_renew net arrivals u ≡ none
unfolding dhcp_go dhcp_renew
dhcp_renew_silent net offers answers fuel s t u ok arrivals h same silent =
    let (v, looped, rest) = chain_parts _ (λ w. some (finish_go w)) (ok, t) h in
    ap (λ o. o >>= (λ w. some (finish_renew w)))
      (wait_silent net arrivals (build_send_dhcp_packet net dhcp_renew_type (begin_renew u))
        (build_send-timeout net dhcp_renew_type (begin_renew u)
          ∙ same
          ∙ finish_go_unlimited v t ok rest)
        silent)

-- What a renewal leaves alone while it is not acknowledged.
abbrev SameLease : Dhcp → Dhcp → Type 0
SameLease s t =
    (t.our_ip ≡ s.our_ip)
    × (t.lease_display_secs ≡ s.lease_display_secs)
    × (t.lease_expiry_rtc ≡ s.lease_expiry_rtc)
    × (t.dont_renew ≡ s.dont_renew)

on_reply-SameLease :
    (net : Net) (kind : Kind) (r : Reply) (s t : Dhcp)
    → SameLease s t
    → SameLease s (on_reply net kind r t).1
unfolding on_reply
on_reply-SameLease net offer r s t h = h
on_reply-SameLease net ack r s t h = ground arith
on_reply-SameLease net nak r s t h = ground arith
on_reply-SameLease net other r s t h = h

build_send-SameLease :
    (net : Net) (kind : ℕ) (s : Dhcp) → SameLease s (build_send_dhcp_packet net kind s)
unfolding build_send_dhcp_packet
build_send-SameLease net kind s = ground arith

finish_renew-SameLease :
    (s u t : Dhcp) → SameLease s u → finish_renew u ≡ (failed, t) → SameLease s t
unfolding finish_renew
finish_renew-SameLease s u t h e = ground arith

dhcp_renew-SameLease :
    (net : Net) (arrivals : List Arrival) (s t : Dhcp)
    → dhcp_renew net arrivals s ≡ some (failed, t)
    → SameLease s t
unfolding dhcp_renew
dhcp_renew-SameLease net arrivals s t h =
    let (u, waited, rest) = chain_parts _ (λ w. some (finish_renew w)) (failed, t) h in
    finish_renew-SameLease s u t
      (wait_keeps net (SameLease s) (λ r v. on_reply-SameLease net (kind_of r) r s v) (λ v k. k)
        (λ v k. k) arrivals _ u waited (build_send-SameLease net dhcp_renew_type (begin_renew s)))
      (some_inj.0 rest)

-- The countdown has no more than half of it left before the next try, and at least one second.
retry_threshold_half : (secs : ℕ) → 8 ≤ secs → (retry_threshold secs ≡ secs / 2)
unfolding retry_threshold
retry_threshold_half secs h = ground arith

renewal_due_parts : (s : Dhcp) → renewal_due s ≡ true → s.dont_renew ≡ false
unfolding renewal_due
renewal_due_parts s h = ground arith

after_renew_failed :
    (net : Net) (s t : Dhcp)
    → SameLease s t
    → s.lease_display_secs ≢ 0
    → (u : Dhcp) × (after_renew net s.dhcp_lease_time failed t ≡ u)
      × (u.dhcp_lease_time ≡ s.dhcp_lease_time)
      × (u.renew_threshold ≡ retry_threshold s.lease_display_secs)
      × SameLease s u
unfolding after_renew
after_renew_failed net s t same left =
    (after_renew net s.dhcp_lease_time failed t, refl, ground arith, ground arith, ground arith)

already_booted :
    (net : Net) (s : Dhcp) → s.booted ≡ true → (if s.booted then s else disp_info net s) ≡ s
already_booted net s h = ground arith

not_discovering :
    (net : Net) (offers answers : ℕ → List Arrival) (fuel : ℕ) (s u : Dhcp)
    → SameLease s u
    → s.dont_renew ≡ false
    → s.our_ip / 2 ^ 24 % 256 ≢ 0
    → discovery_step net offers answers fuel u ≡ some u
unfolding discovery_step discovery_due
not_discovering net offers answers fuel s u same idle network = ground arith

-- Where a booted client with a network address and some of its lease left has a renewal due, and
-- the renewal fails: the poll returns, the address, the countdown, the end and the time of the
-- lease are kept, and the next renewal comes later, at half of what is left from 8 seconds on.
pub dhcp_poll_lost :
    (net : Net) (arrivals : List Arrival) (offers answers : ℕ → List Arrival) (fuel : ℕ)
    (s t : Dhcp)
    → s.booted ≡ true
    → renewal_due s ≡ true
    → s.lease_display_secs ≢ 0
    → s.our_ip / 2 ^ 24 % 256 ≢ 0
    → dhcp_renew net arrivals (begin_renewal s) ≡ some (failed, t)
    → (u : Dhcp) × (dhcp_poll net arrivals offers answers fuel s ≡ some u)
      × (u.our_ip ≡ s.our_ip)
      × (u.lease_display_secs ≡ s.lease_display_secs)
      × (u.lease_expiry_rtc ≡ s.lease_expiry_rtc)
      × (u.dhcp_lease_time ≡ s.dhcp_lease_time)
      × (u.renew_threshold < u.lease_display_secs)
      × (8 ≤ u.lease_display_secs → u.renew_threshold ≡ u.lease_display_secs / 2)
unfolding dhcp_poll renewal_step
dhcp_poll_lost net arrivals offers answers fuel s t booted due left network h =
    let same = dhcp_renew-SameLease net arrivals (begin_renewal s) t h in
    let (u, shape, lease, threshold, kept) = after_renew_failed net s t same left in
    let idle = renewal_due_parts s due in
    let first : renewal_step net arrivals s ≡ some u = rw due (
      ap (λ o. o >>= (λ (r : Renewed × Dhcp). some (after_renew net s.dhcp_lease_time r.0 r.1))) h
      ∙ ap some shape) in
    (
      u,
      ap (λ v. renewal_step net arrivals v >>= discovery_step net offers answers fuel)
            (already_booted net s booted)
          ∙ chain_some (discovery_step net offers answers fuel) first
          ∙ not_discovering net offers answers fuel s u kept idle network,
      kept.0,
      kept.1,
      kept.2,
      lease,
      omega (arith, retry_threshold_lem s.lease_display_secs, threshold, kept.1, left),
      (λ long.
          threshold
          ∙ retry_threshold_half s.lease_display_secs (omega (arith, kept.1))
          ∙ ap (λ n. n / 2) (sym kept.1)),
    )
