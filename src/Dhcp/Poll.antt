-- ===== src/Dhcp/Poll.antt =====
-- client/common/network/entry.c: the lease countdown, the renewal and the discovery that the
-- adapter's loop polls.
use kos_tool.Prelude.{
  ℕ, zero, suc, ◌+◌, ◌-◌, ◌*◌, ◌/◌, ◌%◌, ◌^◌, Bool, true, false, ◌&&◌, ◌||◌, not, Option, none,
  some, List, [], ◌∷◌, ltb, leb, ◌==◌, ◌>>=◌, if◌then◌else◌, sub32,
}
use kos_tool.Dhcp.{Dhcp, Net, act, show_info, show_waiting, show_ip, show_lease}
use kos_tool.Dhcp.Exchange.{Arrival, Renewed, renewed, failed, refused, dhcp_renew, dhcp_go}
pub mod Countdown
pub mod Settled
pub mod Renewal

abbrev pub dhcp_renew_retry_floor_secs : ℕ
dhcp_renew_retry_floor_secs = 4

unfoldable pub lease_resync_from_rtc : Net → Dhcp → Dhcp
lease_resync_from_rtc net s =
    if s.lease_expiry_rtc == 0 then record s { lease_display_secs = 0 } else record s {
      lease_display_secs =
          if ltb net.rtc s.lease_expiry_rtc then s.lease_expiry_rtc - net.rtc else 0;
      last_display_tick = net.ticks;
    }

-- What `disp_info` does to these globals.
unfoldable pub disp_info : Net → Dhcp → Dhcp
unfolding lease_resync_from_rtc
disp_info net s =
    let t = act show_info (record s { last_display_tick = net.ticks }) in
    let u = if t.lease_expiry_rtc == 0 then t else lease_resync_from_rtc net t in
    record u { booted = true }

-- The subtraction of the tick counts is unsigned, of 64 bits.
unfoldable pub dhcp_tick : Net → Dhcp → Dhcp
dhcp_tick net s =
    if s.lease_display_secs == 0
    then s
    else if ltb ((net.ticks + 2 ^ 64 - s.last_display_tick) % 2 ^ 64) net.ticks_per_second
    then s
    else let t = record s {
      last_display_tick = net.ticks;
      lease_display_secs = s.lease_display_secs - 1;
    } in
      if net.screensaver_active then t else act (show_lease t.lease_display_secs) t

-- A new lease: its end, the countdown and the time of its renewal.
unfoldable pub start_lease : Net → Dhcp → Dhcp
start_lease net s =
    let t = record s {
      lease_expiry_rtc = (net.rtc + s.dhcp_lease_time) % 2 ^ 32;
      lease_display_secs = s.dhcp_lease_time;
      renew_threshold = s.dhcp_lease_time / 2;
      last_display_tick = net.ticks;
    } in
    act (show_lease t.lease_display_secs) (act (show_ip t.our_ip) t)

abbrev pub nak_remaining : ℕ → ℕ
nak_remaining lease = (lease * 3 + 4) % 2 ^ 32 / 8

-- The renewal threshold after a lost acknowledgement, with `secs` left.
unfoldable pub retry_threshold : ℕ → ℕ
retry_threshold secs =
    let backed_off =
      if ltb dhcp_renew_retry_floor_secs (secs / 2)
      then secs / 2
      else dhcp_renew_retry_floor_secs in
    if leb secs backed_off then secs - 1 else backed_off

-- What follows `dhcp_renew`, by its result; `lease` is the lease time before it.
unfoldable pub after_renew : Net → ℕ → Renewed → Dhcp → Dhcp
unfolding retry_threshold start_lease
after_renew net lease refused s = record s {
  dont_renew = true;
  lease_expiry_rtc = (net.rtc + nak_remaining lease) % 2 ^ 32;
  lease_display_secs = nak_remaining lease;
  last_display_tick = net.ticks;
}
after_renew net lease failed s =
    if s.lease_display_secs == 0
    then record s { our_ip = 0; dhcp_lease_time = 0; lease_expiry_rtc = 0; renew_threshold = 0 }
    else act (show_lease s.lease_display_secs) (
        act (show_ip s.our_ip) (record s {
          dhcp_lease_time = lease;
          renew_threshold = retry_threshold s.lease_display_secs;
          last_display_tick = net.ticks;
        }))
after_renew net lease renewed s = start_lease net s

unfoldable pub renewal_due : Dhcp → Bool
renewal_due s =
    not (s.dhcp_lease_time == 0) && not s.dont_renew && leb s.lease_display_secs s.renew_threshold

abbrev pub begin_renewal : Dhcp → Dhcp
begin_renewal s = act show_waiting (record s { dhcp_lease_time = 0 })

unfoldable pub renewal_step : Net → List Arrival → Dhcp → Option Dhcp
unfolding renewal_due after_renew
renewal_step net arrivals s =
    if renewal_due s
    then (dhcp_renew net arrivals (begin_renewal s)
        >>= (λ r. some (after_renew net s.dhcp_lease_time r.0 r.1)))
    else some s

-- No network part in the address, or a refused lease that has run out.
unfoldable pub discovery_due : Dhcp → Bool
discovery_due s = (s.our_ip / 2 ^ 24 % 256 == 0) || (s.dont_renew && (s.lease_display_secs == 0))

abbrev pub begin_discovery : Dhcp → Dhcp
begin_discovery s = act show_waiting (record s { dont_renew = false })

-- What follows `dhcp_go`; `ok` where it returned 0.
unfoldable pub after_go : Net → Bool → Dhcp → Dhcp
unfolding start_lease
after_go net ok s =
    if not ok || s.dhcp_nest_counter_maxed
    then act show_waiting (record s {
      our_ip = 0;
      dhcp_nest_counter_maxed = false;
      lease_expiry_rtc = 0;
      lease_display_secs = 0;
    })
    else start_lease net s

unfoldable pub discovery_step :
    Net → (ℕ → List Arrival) → (ℕ → List Arrival) → ℕ → Dhcp → Option Dhcp
unfolding discovery_due after_go
discovery_step net offers answers fuel s =
    if discovery_due s
    then (dhcp_go net offers answers fuel (begin_discovery s)
        >>= (λ r. some (after_go net r.0 r.1)))
    else some s

unfoldable pub dhcp_poll :
    Net → List Arrival → (ℕ → List Arrival) → (ℕ → List Arrival) → ℕ → Dhcp → Option Dhcp
unfolding disp_info renewal_step discovery_step
dhcp_poll net arrivals offers answers fuel s =
    let t = if s.booted then s else disp_info net s in
    renewal_step net arrivals t >>= discovery_step net offers answers fuel
