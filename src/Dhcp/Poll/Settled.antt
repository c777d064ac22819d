-- ===== src/Dhcp/Poll/Settled.antt =====
-- What `dhcp_poll` of client/common/network/entry.c leaves for the next poll.
use kos_tool.Prelude.{
  ℕ, ◌<◌, ◌≡◌, ◌≢◌, refl, sym, subst, ◌∙◌, ap, chain_parts, Bool, false, ◌||◌, not, some, List,
  if◌then◌else◌, arith, inl, inr, Bool-cases,
}
use mathlib.Core.Option.{some_inj}
use kos_tool.Dhcp.{Dhcp, Net}
use kos_tool.Dhcp.Exchange.{Arrival, Renewed, renewed, failed, refused, dhcp_renew, dhcp_go}
use kos_tool.Dhcp.Poll.{
  retry_threshold, after_renew, renewal_due, renewal_step, discovery_step, dhcp_poll, after_go,
  start_lease, disp_info, begin_renewal, begin_discovery, discovery_due,
}

-- The back-off keeps the threshold under the countdown.
pub retry_threshold_lem : (secs : ℕ) → 0 < secs → retry_threshold secs < secs
unfolding retry_threshold
retry_threshold_lem secs h = ground arith

start_lease_settled : (net : Net) (s : Dhcp) → renewal_due (start_lease net s) ≡ false
unfolding start_lease renewal_due
start_lease_settled net s = ground arith

-- A refused lease is not renewed, a lost one is renewed later, a renewed one at its half.
after_renew_settled :
    (net : Net) (lease : ℕ) (r : Renewed) (s : Dhcp)
    → renewal_due (after_renew net lease r s) ≡ false
unfolding after_renew renewal_due
after_renew_settled net lease refused s = ground arith
after_renew_settled net lease failed s = ground (arith, retry_threshold_lem s.lease_display_secs)
after_renew_settled net lease renewed s = start_lease_settled net s

after_go_settled :
    (net : Net) (ok : Bool) (s : Dhcp)
    → (after_go net ok s).our_ip ≢ 0
    → renewal_due (after_go net ok s) ≡ false
unfolding after_go
after_go_settled net ok s h = elim (Bool-cases (not ok || s.dhcp_nest_counter_maxed)) [
  | inl e ↦ absurd (h (rw e refl))
  | inr e ↦ rw e (start_lease_settled net s)
]

renewal_step_settled :
    (net : Net) (arrivals : List Arrival) (s t : Dhcp)
    → renewal_step net arrivals s ≡ some t
    → renewal_due t ≡ false
unfolding renewal_step
renewal_step_settled net arrivals s t h = elim (Bool-cases (renewal_due s)) [
  | inl e ↦
      let (r, got, rest) =
        chain_parts (dhcp_renew net arrivals (begin_renewal s)) _ t (rw e at h) in
      subst (λ u. renewal_due u ≡ false) (some_inj.0 rest)
        (after_renew_settled net s.dhcp_lease_time r.0 r.1)
  | inr e ↦ subst (λ u. renewal_due u ≡ false) (some_inj.0 (rw e at h)) e
]

discovery_step_settled :
    (net : Net) (offers answers : ℕ → List Arrival) (fuel : ℕ) (s t : Dhcp)
    → renewal_due s ≡ false
    → discovery_step net offers answers fuel s ≡ some t
    → t.our_ip ≢ 0
    → renewal_due t ≡ false
unfolding discovery_step
discovery_step_settled net offers answers fuel s t settled h address =
    elim (Bool-cases (discovery_due s)) [
      | inl e ↦
          let (r, got, rest) =
            chain_parts (dhcp_go net offers answers fuel (begin_discovery s)) _ t (rw e at h) in
          let same = some_inj.0 rest in
          subst (λ u. renewal_due u ≡ false) same
            (after_go_settled net r.0 r.1
              (λ z. address (ap (λ (u : Dhcp). u.our_ip) (sym same) ∙ z)))
      | inr e ↦ subst (λ u. renewal_due u ≡ false) (some_inj.0 (rw e at h)) settled
    ]

-- After a poll that returns, a client with an address has no renewal due.
pub dhcp_poll_settled :
    (net : Net) (arrivals : List Arrival) (offers answers : ℕ → List Arrival) (fuel : ℕ)
    (s t : Dhcp)
    → dhcp_poll net arrivals offers answers fuel s ≡ some t
    → t.our_ip ≢ 0
    → renewal_due t ≡ false
unfolding dhcp_poll
dhcp_poll_settled net arrivals offers answers fuel s t h address =
    let (u, first, rest) =
      chain_parts (renewal_step net arrivals (if s.booted then s else disp_info net s)) _ t h in
    discovery_step_settled net offers answers fuel u t
      (renewal_step_settled net arrivals (if s.booted then s else disp_info net s) u first) rest
      address
