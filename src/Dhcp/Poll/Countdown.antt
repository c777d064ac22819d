-- ===== src/Dhcp/Poll/Countdown.antt =====
-- The pace of the lease countdown, `dhcp_tick` of client/common/network/entry.c.
use kos_tool.Prelude.{ℕ, zero, suc, ◌+◌, ◌-◌, ◌*◌, ◌^◌, ◌≤◌, ◌<◌, ◌≡◌, refl, List, [], ◌∷◌, arith}
use native.Mathlib.Nat.{suc-mul}
use kos_tool.Dhcp.{Dhcp, Net}
use kos_tool.Dhcp.Poll.{dhcp_tick}

-- The polls at these tick counts.
abbrev pub tick_all : Net → List ℕ → Dhcp → Dhcp
tick_all net [] s = s
tick_all net (now ∷ times) s = tick_all net times (dhcp_tick (record net { ticks = now }) s)

-- Tick counts that do not go back, from one on.
abbrev pub Ascending : ℕ → List ℕ → Type 0
Ascending from [] = Unit
Ascending from (now ∷ times) = (from ≤ now) × (now < 2 ^ 64) × Ascending now times

abbrev pub last_of : ℕ → List ℕ → ℕ
last_of from [] = from
last_of from (now ∷ times) = last_of now times

dhcp_tick_pace :
    (net : Net) (s : Dhcp) (now secs : ℕ)
    → s.lease_display_secs ≡ secs
    → s.last_display_tick ≤ now
    → now < 2 ^ 64
    → (s.lease_display_secs * net.ticks_per_second + s.last_display_tick
        ≤ (dhcp_tick (record net { ticks = now }) s).lease_display_secs * net.ticks_per_second
          + (dhcp_tick (record net { ticks = now }) s).last_display_tick)
      × ((dhcp_tick (record net { ticks = now }) s).last_display_tick ≤ now)
      × (s.last_display_tick ≤ (dhcp_tick (record net { ticks = now }) s).last_display_tick)
unfolding dhcp_tick
dhcp_tick_pace net s now zero shown up bound = ground arith
dhcp_tick_pace net s now (suc secs) shown up bound =
    ground (arith, suc-mul secs net.ticks_per_second, shown)

last_of_ascends : (from : ℕ) (times : List ℕ) → Ascending from times → from ≤ last_of from times
last_of_ascends from [] h = omega arith
last_of_ascends from (now ∷ times) h = omega (arith, last_of_ascends now times h.2)

tick_all_pace :
    (net : Net) (times : List ℕ) (s : Dhcp) (from : ℕ)
    → s.last_display_tick ≤ from
    → Ascending from times
    → (s.lease_display_secs * net.ticks_per_second + s.last_display_tick
        ≤ (tick_all net times s).lease_display_secs * net.ticks_per_second + last_of from times)
tick_all_pace net [] s from up h = omega arith
tick_all_pace net (now ∷ times) s from up h =
    let (pace, bound, kept) =
      dhcp_tick_pace net s now s.lease_display_secs refl (omega (arith, up, h.0)) h.1 in
    omega (
      arith,
      pace,
      kept,
      bound,
      tick_all_pace net times (dhcp_tick (record net { ticks = now }) s) now bound h.2,
    )

-- Over any ascending tick counts below 2 ^ 64, the countdown of the lease loses no more than a
-- second for each second of ticks.
pub dhcp_tick_paced :
    (net : Net) (times : List ℕ) (s : Dhcp)
    → Ascending s.last_display_tick times
    → s.lease_display_secs * net.ticks_per_second
      ≤ (tick_all net times s).lease_display_secs * net.ticks_per_second
        + (last_of s.last_display_tick times - s.last_display_tick)
dhcp_tick_paced net times s h = omega (
  arith,
  tick_all_pace net times s s.last_display_tick (omega arith) h,
  last_of_ascends s.last_display_tick times h,
)
