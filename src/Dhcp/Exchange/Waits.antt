-- ===== src/Dhcp/Exchange/Waits.antt =====
-- What happens in a wait of client/common/network/dhcp.c, arrival by arrival.
use kos_tool.Prelude.{◌≡◌, subst, true, false, none, some, List, [], ◌∷◌, arith, ◌⊎◌, inl, inr}
use mathlib.Core.Option.{some_inj}
use kos_tool.Dhcp.{Dhcp, Net, Reply}
use kos_tool.Dhcp.Exchange.{
  kind_of, on_reply, handle_dhcp_reply, Arrival, reply, escape, link_up, wait,
}

module _ (net : Net) where
  pub reply_parts :
      (r : Reply) (arrivals : List Arrival) (s t : Dhcp)
      → wait net (reply r ∷ arrivals) s ≡ some t
      → (((on_reply net (kind_of r) r s).0 ≡ true) × ((on_reply net (kind_of r) r s).1 ≡ t))
        ⊎ (((on_reply net (kind_of r) r s).0 ≡ false)
            × (wait net arrivals (on_reply net (kind_of r) r s).1 ≡ some t))
  unfolding wait handle_dhcp_reply
  reply_parts r arrivals s t h = ground arith

  pub link_up_parts :
      (arrivals : List Arrival) (s t : Dhcp)
      → wait net (link_up ∷ arrivals) s ≡ some t
      → (wait net arrivals s ≡ some t) ⊎ (record s { dhcp_attempts = 0; timeout_loop = none } ≡ t)
  unfolding wait
  link_up_parts arrivals s t h = ground arith

  timed_parts : (s t : Dhcp) → wait net [] s ≡ some t → record s { timeout_loop = none } ≡ t
  unfolding wait
  timed_parts s t h = ground arith

  -- A property that replies, time limits and the link keep holds after a wait.
  pub wait_keeps :
      (P : Dhcp → Type 0)
      → ((r : Reply) (s : Dhcp) → P s → P (on_reply net (kind_of r) r s).1)
      → ((s : Dhcp) → P s → P (record s { timeout_loop = none }))
      → ((s : Dhcp) → P s → P (record s { dhcp_attempts = 0; timeout_loop = none }))
      → (arrivals : List Arrival) (s t : Dhcp) → wait net arrivals s ≡ some t
      → P s
      → P t
  unfolding wait
  wait_keeps P on late up [] s t h p = subst P (timed_parts s t h) (late s p)
  wait_keeps P on late up (reply r ∷ arrivals) s t h p = elim (reply_parts r arrivals s t h) [
    | inl e ↦ subst P e.1 (on r s p)
    | inr e ↦ wait_keeps P on late up arrivals (on_reply net (kind_of r) r s).1 t e.1 (on r s p)
  ]
  wait_keeps P on late up (escape ∷ arrivals) s t h p = subst P (some_inj.0 h) p
  wait_keeps P on late up (link_up ∷ arrivals) s t h p = elim (link_up_parts arrivals s t h) [
    | inl e ↦ wait_keeps P on late up arrivals s t e p
    | inr e ↦ subst P e (up s p)
  ]
