-- ===== src/Examples/Lease.antt =====
-- The theorems on DHCP, the lease and the address texts at concrete values.
use kos_tool.Prelude.{
  ℕ, ◌-◌, ◌/◌, ◌≤◌, ◌<◌, ◌≡◌, ◌≢◌, refl, ap, true, false, none, some, List, [], ◌∷◌, length, All,
  ◌==◌, if◌then◌else◌, arith,
}
use mathlib.Core.List.{Memᴰ}
use kos_tool.Dhcp.{Dhcp, Net, Reply, htonl}
use kos_tool.Dhcp.Options.{
  fill_options, kos_net_dhcp_get_message_type, message_type_from, kos_net_dhcp_get_32bit,
}
use kos_tool.Dhcp.Options.Fields.{field, pad, encode, HoldsAt}
use kos_tool.Dhcp.Options.Searches.{dhcp_options_found}
use kos_tool.Dhcp.Options.Filled.{fill_options_found}
use kos_tool.Dhcp.Exchange.{
  Kind, Arrival, reply, escape, kind_of, offer, ack, dhcp_go, dhcp_renew, begin_renew, failed, wait,
  finish_renew, build_send_dhcp_packet,
}
use kos_tool.Dhcp.Exchange.Bounded.{dhcp_go_ends, Ended}
use kos_tool.Dhcp.Exchange.Answered.{dhcp_go_answered, IsAnswered}
use kos_tool.Dhcp.Exchange.Acknowledged.{dhcp_go_acknowledged}
use kos_tool.Dhcp.Poll.{dhcp_poll, renewal_due, begin_renewal}
use kos_tool.Dhcp.Poll.Settled.{dhcp_poll_settled}
use kos_tool.Dhcp.Poll.Renewal.{dhcp_renew_silent, dhcp_poll_lost}
use kos_tool.Display.{set_ip_from_string, ip_to_string, uint_to_string_dec}
use kos_tool.Display.Address.{set_ip_from_string-ip_to_string}
use kos_tool.Display.Decimal.{uint_to_string_dec_read, read_dec, IsDigit}

abbrev net : Net
net = record {
  mac = 0 ∷ 9 ∷ 191 ∷ 1 ∷ 2 ∷ 3 ∷ [];
  big_endian = true;
  ticks = 5000;
  ticks_per_second = 1000;
  rtc = 100_000;
  screensaver_active = false;
}

abbrev start : Dhcp
start = record {
  dhcpoffer_server_ip_from_pkt = 0;
  dhcpoffer_ip_from_pkt = 0;
  dhcpoffer_xid = 0;
  dhcp_lease_time = 0;
  renewal_increment = 0;
  dhcp_acked = false;
  dhcp_renewal = false;
  dhcp_renewal_nak = false;
  dhcp_nak_received = false;
  dhcp_nest_counter_maxed = false;
  dhcp_attempts = 0;
  router_mac = [];
  timeout_loop = some 0;
  our_ip = 0;
  booted = true;
  lease_expiry_rtc = 0;
  lease_display_secs = 0;
  last_display_tick = 0;
  dont_renew = false;
  renew_threshold = 0;
  trace = [];
}

abbrev byte : List ℕ → ℕ → ℕ
byte [] i = 0
byte (b ∷ bs) i = let rest = byte bs (i - 1) in if i == 0 then b else rest

abbrev answer : ℕ → Reply
answer kind = record {
  router_mac = 1 ∷ 2 ∷ 3 ∷ 4 ∷ 5 ∷ 6 ∷ [];
  xid = 77;
  yiaddr = 0xc0a80002;
  options_at = byte (
      99 ∷ 130 ∷ 83 ∷ 99 ∷ 53 ∷ 1 ∷ kind ∷ 54 ∷ 4 ∷ 192 ∷ 168 ∷ 0 ∷ 1 ∷ 51 ∷ 4 ∷ 0 ∷ 0 ∷ 14 ∷ 16
      ∷ 255 ∷ []);
  len = 260;
}

abbrev offers : ℕ → List Arrival
offers n = reply (answer 2) ∷ []

abbrev answers : ℕ → List Arrival
answers n = reply (answer 5) ∷ []

answer-offer : kind_of (answer 2) ≡ offer
unfolding kind_of kos_net_dhcp_get_message_type message_type_from
answer-offer = refl

answer-ack : kind_of (answer 5) ≡ ack
unfolding kind_of kos_net_dhcp_get_message_type message_type_from
answer-ack = refl

start-IsAnswered : IsAnswered start (answer 2) (answer 5) (offers 0) (answers 0)
start-IsAnswered = record {
  others = [];
  more = [];
  quiet = tt;
  at_first = refl;
  o_offer = answer-offer;
  noise = [];
  rest = [];
  hush = tt;
  at_second = refl;
  a_ack = answer-ack;
  same_xid = refl;
  same_ip = refl;
}

dhcp_go_answered_example :
    (t : Dhcp) × (dhcp_go net offers answers 31 start ≡ some (true, t))
    × (t.dhcp_acked ≡ true)
    × (t.our_ip ≡ htonl net 0xc0a80002)
    × (t.dhcp_lease_time ≡ kos_net_dhcp_get_32bit (answer 5).options_at 51 260)
dhcp_go_answered_example =
    dhcp_go_answered net offers answers 29 start (answer 2) (answer 5) refl start-IsAnswered

abbrev silence : ℕ → List Arrival
silence n = []

dhcp_go_ends_example :
    (t : Dhcp) × (dhcp_go net silence silence 31 start ≡ some (true, t)) × Ended t
dhcp_go_ends_example = dhcp_go_ends net silence silence start (λ i. tt) (λ i. tt)

-- The exchange above, by name.
exchange :
    (t : Dhcp) × (dhcp_go net offers answers 31 start ≡ some (true, t))
    × (t.dhcp_acked ≡ true)
    × (t.our_ip ≡ htonl net 0xc0a80002)
    × (t.dhcp_lease_time ≡ kos_net_dhcp_get_32bit (answer 5).options_at 51 260)
exchange = dhcp_go_answered net offers answers 29 start (answer 2) (answer 5) refl start-IsAnswered

abbrev kind_in : Arrival → Kind
kind_in (reply r) = kind_of r
kind_in _ = offer

offers_only : (i : ℕ) (r : Reply) → Memᴰ (reply r) (offers i) → kind_of r ≢ ack
offers_only i r (Memᴰ.head e) h = ground (arith, ap kind_in e, answer-offer)
offers_only i r (Memᴰ.tail m) h = elim m [ ]

dhcp_go_acknowledged_example :
    (n : ℕ) × (r : Reply) × Memᴰ (reply r) (answers n)
    × (kind_of r ≡ ack)
    × (r.xid ≡ exchange.0.dhcpoffer_xid)
    × (exchange.0.our_ip ≡ htonl net r.yiaddr)
    × (exchange.0.dhcp_lease_time ≡ kos_net_dhcp_get_32bit r.options_at 51 r.len)
dhcp_go_acknowledged_example =
    dhcp_go_acknowledged net offers answers 31 start exchange.0 true refl offers_only exchange.1
      exchange.2

dhcp_renew_silent_example : dhcp_renew net [] exchange.0 ≡ none
dhcp_renew_silent_example =
    dhcp_renew_silent net offers answers 31 start exchange.0 exchange.0 true [] exchange.1 refl tt

abbrev leased : Dhcp
leased = record start {
  our_ip = 0xc0a80002;
  dhcp_lease_time = 3600;
  lease_display_secs = 1800;
  renew_threshold = 1800;
  lease_expiry_rtc = 101_800;
}

abbrev escaped : Dhcp
escaped = (finish_renew (build_send_dhcp_packet net 0 (begin_renew (begin_renewal leased)))).1

renewal_escaped : dhcp_renew net (escape ∷ []) (begin_renewal leased) ≡ some (failed, escaped)
unfolding dhcp_renew wait finish_renew build_send_dhcp_packet
renewal_escaped = refl

leased_due : renewal_due leased ≡ true
unfolding renewal_due
leased_due = refl

dhcp_poll_lost_example :
    (u : Dhcp) × (dhcp_poll net (escape ∷ []) offers answers 31 leased ≡ some u)
    × (u.our_ip ≡ leased.our_ip)
    × (u.lease_display_secs ≡ leased.lease_display_secs)
    × (u.lease_expiry_rtc ≡ leased.lease_expiry_rtc)
    × (u.dhcp_lease_time ≡ leased.dhcp_lease_time)
    × (u.renew_threshold < u.lease_display_secs)
    × (8 ≤ u.lease_display_secs → u.renew_threshold ≡ u.lease_display_secs / 2)
dhcp_poll_lost_example =
    dhcp_poll_lost net (escape ∷ []) offers answers 31 leased escaped refl leased_due (omega arith)
      (ground arith) renewal_escaped

-- The state after that poll.
polled :
    (u : Dhcp) × (dhcp_poll net (escape ∷ []) offers answers 31 leased ≡ some u)
    × (u.our_ip ≡ leased.our_ip)
    × (u.lease_display_secs ≡ leased.lease_display_secs)
    × (u.lease_expiry_rtc ≡ leased.lease_expiry_rtc)
    × (u.dhcp_lease_time ≡ leased.dhcp_lease_time)
    × (u.renew_threshold < u.lease_display_secs)
    × (8 ≤ u.lease_display_secs → u.renew_threshold ≡ u.lease_display_secs / 2)
polled =
    dhcp_poll_lost net (escape ∷ []) offers answers 31 leased escaped refl leased_due (omega arith)
      (ground arith) renewal_escaped

dhcp_poll_settled_example : renewal_due polled.0 ≡ false
dhcp_poll_settled_example =
    dhcp_poll_settled net (escape ∷ []) offers answers 31 leased polled.0 polled.1
      (omega (arith, polled.2))

dhcp_options_found_example :
    (kos_net_dhcp_get_message_type
        (byte (0 ∷ 0 ∷ 0 ∷ 0 ∷ encode (pad ∷ field 53 (5 ∷ []) ∷ [])))
        260
      ≡ some 5)
    × (kos_net_dhcp_get_32bit (byte (0 ∷ 0 ∷ 0 ∷ 0 ∷ encode (pad ∷ field 53 (5 ∷ []) ∷ []))) 51 260
        ≡ 0)
dhcp_options_found_example =
    dhcp_options_found (byte (0 ∷ 0 ∷ 0 ∷ 0 ∷ encode (pad ∷ field 53 (5 ∷ []) ∷ []))) 260 51
      (pad ∷ field 53 (5 ∷ []) ∷ []) (ground arith) (omega arith) (omega arith)
      (refl, (refl, (refl, (refl, (refl, tt))))) (omega arith)

abbrev sent : List ℕ
sent = fill_options (0 ∷ 9 ∷ 191 ∷ 1 ∷ 2 ∷ 3 ∷ []) 3 0xc0a80001 0xc0a80002

sent-HoldsAt : HoldsAt (byte sent) 0 sent
unfolding fill_options
sent-HoldsAt = ground arith

fill_options_found_example :
    (length sent ≤ 64)
    × (kos_net_dhcp_get_message_type (byte sent) 300 ≡ some 3)
    × (kos_net_dhcp_get_32bit (byte sent) 54 300 ≡ 0xc0a80001)
    × (kos_net_dhcp_get_32bit (byte sent) 50 300 ≡ 0xc0a80002)
fill_options_found_example =
    fill_options_found 0 9 191 1 2 3 3 0xc0a80001 0xc0a80002 (byte sent) 300 (omega arith)
      (omega arith) sent-HoldsAt (omega arith)

set_ip_from_string-ip_to_string_example :
    set_ip_from_string false (ip_to_string 0xc0a80a64) 0 ≡ 0xc0a80a64
set_ip_from_string-ip_to_string_example =
    set_ip_from_string-ip_to_string false 0xc0a80a64 (omega arith)

uint_to_string_dec_read_example :
    (read_dec 0 (uint_to_string_dec 86400) ≡ 86400)
    × All IsDigit (uint_to_string_dec 86400)
    × (length (uint_to_string_dec 86400) ≤ 10)
uint_to_string_dec_read_example = uint_to_string_dec_read 86400 (omega arith)
