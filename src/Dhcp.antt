-- ===== src/Dhcp.antt =====
-- client/common/network/dhcp.c and the lease management of client/common/network/entry.c: the
-- globals of both files as one record, a received and a sent DHCP packet.
use kos_tool.Prelude.{ℕ, ◌+◌, ◌*◌, ◌/◌, ◌%◌, ◌^◌, Bool, Option, List, ◌∷◌, if◌then◌else◌}
pub mod Options
pub mod Exchange
pub mod Poll

-- The parts of a received frame that the code reads: the sender's address, and of `dhcp_pkt_t` the
-- words as they lie in memory, the options area and the length that the UDP header gives.
pub record Reply : Type 0 where
  pub router_mac : List ℕ
  pub xid : ℕ
  pub yiaddr : ℕ
  pub options_at : ℕ → ℕ
  pub len : ℕ

-- A frame that `build_send_dhcp_packet` sends. What is not named here is zero in the buffer.
pub record Sent : Type 0 where
  pub ether_dest : List ℕ
  pub ip_dest : ℕ
  pub ip_src : ℕ
  pub xid : ℕ
  pub ciaddr : ℕ
  pub chaddr : List ℕ
  pub options : List ℕ

-- What the code does to the adapter and the display.
pub data Action : Type 0 where
  bb_start : Action
  tx : Sent → Action
  show_info show_waiting : Action
  show_ip show_lease : ℕ → Action

-- The globals. A flag that is 0 or 1 is a Bool; `timeout_loop` is `none` when it is -1.
pub record Dhcp : Type 0 where
  pub dhcpoffer_server_ip_from_pkt : ℕ
  pub dhcpoffer_ip_from_pkt : ℕ
  pub dhcpoffer_xid : ℕ
  pub dhcp_lease_time : ℕ
  pub renewal_increment : ℕ
  pub dhcp_acked : Bool
  pub dhcp_renewal : Bool
  pub dhcp_renewal_nak : Bool
  pub dhcp_nak_received : Bool
  pub dhcp_nest_counter_maxed : Bool
  pub dhcp_attempts : ℕ
  pub router_mac : List ℕ
  pub timeout_loop : Option ℕ
  pub our_ip : ℕ
  pub booted : Bool
  pub lease_expiry_rtc : ℕ
  pub lease_display_secs : ℕ
  pub last_display_tick : ℕ
  pub dont_renew : Bool
  pub renew_threshold : ℕ
  pub trace : List Action

-- The adapter's address, the byte order, and what `get_ticks` and `get_rtc` give now.
pub record Net : Type 0 where
  pub mac : List ℕ
  pub big_endian : Bool
  pub ticks : ℕ
  pub ticks_per_second : ℕ
  pub rtc : ℕ
  pub screensaver_active : Bool

abbrev pub act : Action → Dhcp → Dhcp
act e s = record s { trace = e ∷ s.trace }

-- The macro of a target's net/packet.h.
abbrev pub htonl : Net → ℕ → ℕ
htonl net v =
    if net.big_endian
    then v
    else v % 256 * 2 ^ 24 + v / 2 ^ 8 % 256 * 2 ^ 16 + v / 2 ^ 16 % 256 * 2 ^ 8 + v / 2 ^ 24 % 256
