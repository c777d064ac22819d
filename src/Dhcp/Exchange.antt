-- ===== src/Dhcp/Exchange.antt =====
-- The exchange of client/common/network/dhcp.c: what is sent, what a reply does, the attempts of
-- `dhcp_go` and the renewal.
use kos_tool.Prelude.{
  ℕ, zero, suc, ◌+◌, ◌-◌, ◌*◌, ◌%◌, ◌^◌, bit_xor, Bool, true, false, ◌&&◌, ◌||◌, not, Option, none,
  some, List, [], ◌∷◌, ltb, leb, ◌>>=◌, ◌==◌, if◌then◌else◌, sub32, replicate,
}
use kos_tool.Dhcp.{Dhcp, Net, Reply, Sent, act, tx, bb_start, htonl}
use kos_tool.Dhcp.Options.{
  fill_options, kos_net_dhcp_get_message_type, kos_net_dhcp_get_32bit, dhcp_option_server_id,
  dhcp_option_ip_lease_time,
}
pub mod Waits
pub mod Bounded
pub mod Answered
pub mod Acknowledged

abbrev pub dhcp_msg_dhcpdiscover : ℕ
dhcp_msg_dhcpdiscover = 1

abbrev pub dhcp_msg_dhcprequest : ℕ
dhcp_msg_dhcprequest = 3

abbrev pub dhcp_renew_type : ℕ
dhcp_renew_type = 0

abbrev pub dhcp_max_attempts : ℕ
dhcp_max_attempts = 30

abbrev pub dhcp_max_naks : ℕ
dhcp_max_naks = 5

-- `(uint32_t)get_ticks() ^ 0xDEADBEEF`.
abbrev pub fresh_xid : Net → ℕ
fresh_xid net = bit_xor (net.ticks % 2 ^ 32) 0xDEADBEEF

-- `build_send_dhcp_packet`, with the words that `kos_net_dhcp_fill_options` chooses for a kind.
unfoldable pub build_send_dhcp_packet : Net → ℕ → Dhcp → Dhcp
build_send_dhcp_packet net kind s =
    if kind == dhcp_msg_dhcpdiscover
    then act
        (tx (record {
          ether_dest = replicate 6 255;
          ip_dest = 2 ^ 32 - 1;
          ip_src = s.our_ip;
          xid = htonl net (fresh_xid net);
          ciaddr = 0;
          chaddr = net.mac;
          options = fill_options net.mac kind 0 0;
        }))
        (act bb_start s)
    else if kind == dhcp_msg_dhcprequest
    then act
        (tx (record {
          ether_dest = replicate 6 255;
          ip_dest = 2 ^ 32 - 1;
          ip_src = s.our_ip;
          xid = s.dhcpoffer_xid;
          ciaddr = 0;
          chaddr = net.mac;
          options =
              fill_options net.mac kind s.dhcpoffer_server_ip_from_pkt s.dhcpoffer_ip_from_pkt;
        }))
        s
    else let xid = (fresh_xid net + s.renewal_increment) % 2 ^ 32 in
      act
        (tx (record {
          ether_dest = s.router_mac;
          ip_dest = s.dhcpoffer_server_ip_from_pkt;
          ip_src = s.our_ip;
          xid = xid;
          ciaddr = htonl net s.our_ip;
          chaddr = net.mac;
          options = fill_options net.mac kind 0 s.our_ip;
        }))
        (act bb_start (record s {
          dhcpoffer_xid = xid;
          renewal_increment = (s.renewal_increment + 0x1000) % 2 ^ 32;
        }))

-- What a reply is, by its message type.
pub data Kind : Type 0 where
  offer ack nak other : Kind

unfoldable pub kind_of : Reply → Kind
kind_of r = elim (kos_net_dhcp_get_message_type r.options_at r.len) [
  | none ↦ other
  | some t ↦ if t == 2 then offer else if t == 5 then ack else if t == 6 then nak else other
]

-- The test that an acknowledgement has to pass.
unfoldable pub matches : Net → Reply → Dhcp → Bool
matches net r s =
    (r.xid == s.dhcpoffer_xid)
    && (s.dhcp_renewal || (htonl net r.yiaddr == s.dhcpoffer_ip_from_pkt))

unfoldable pub on_reply : Net → Kind → Reply → Dhcp → Bool × Dhcp
on_reply net offer r s = (
  true,
  record s {
    dhcpoffer_server_ip_from_pkt = kos_net_dhcp_get_32bit r.options_at dhcp_option_server_id r.len;
    dhcpoffer_ip_from_pkt = htonl net r.yiaddr;
    dhcpoffer_xid = r.xid;
    router_mac = r.router_mac;
  },
)
on_reply net ack r s =
    if matches net r s
    then (
      true,
      record s {
        dhcpoffer_ip_from_pkt =
            if s.dhcp_renewal then htonl net r.yiaddr else s.dhcpoffer_ip_from_pkt;
        dhcp_lease_time = kos_net_dhcp_get_32bit r.options_at dhcp_option_ip_lease_time r.len;
        dhcp_acked = true;
      },
    )
    else (false, s)
on_reply net nak r s =
    if s.dhcp_renewal
    then (true, record s { dhcp_renewal_nak = true })
    else (true, record s { dhcp_nak_received = true })
on_reply net other r s = (false, s)

-- The Bool is true where the function returns 0, which ends a wait.
unfoldable pub handle_dhcp_reply : Net → Reply → Dhcp → Bool × Dhcp
unfolding on_reply
handle_dhcp_reply net r s = on_reply net (kind_of r) r s

-- What ends a wait or changes the state in it: a DHCP reply, a command that sets `escape_loop`,
-- the link coming up.
pub data Arrival : Type 0 where
  reply : Reply → Arrival
  escape link_up : Arrival

-- `bb->loop(0)`, with what arrives before the time limit: `none` when the loop does not return,
-- for no limit is set and nothing ends it.
unfoldable pub wait : Net → List Arrival → Dhcp → Option Dhcp
wait net [] s = elim s.timeout_loop [
  | none ↦ none
  | some limit ↦ if limit == 0 then none else some (record s { timeout_loop = none })
]
wait net (reply r ∷ arrivals) s =
    let after = handle_dhcp_reply net r s in
    let rest = wait net arrivals after.1 in if after.0 then some after.1 else rest
wait net (escape ∷ arrivals) s = some s
wait net (link_up ∷ arrivals) s =
    let rest = wait net arrivals s in
    elim s.timeout_loop [
      | none ↦ rest
      | some limit ↦
          if limit == 0 then rest else some (record s { dhcp_attempts = 0; timeout_loop = none })
    ]

abbrev pub timed_out : Dhcp → Bool
timed_out s = elim s.timeout_loop [ none ↦ true | some limit ↦ false ]

-- Attempts 1 and 2 wait 3 s; then 6, 9, 12, ..., at most 30.
abbrev pub next_timeout : ℕ → ℕ
next_timeout attempts =
    if leb attempts 2 then 3 else if ltb 11 attempts then 30 else 3 * (attempts - 1)

abbrev pub rearm : Dhcp → Dhcp
rearm s = if timed_out s then record s { timeout_loop = some (next_timeout s.dhcp_attempts) } else s

-- One pass of the loop of `dhcp_go`: leave it, or run it again with a count of NAKs.
pub data Pass : Type 0 where
  leave : Dhcp → Pass
  again : ℕ → Dhcp → Pass

unfoldable pub count_nak : ℕ → Dhcp → Pass
count_nak naks s =
    if s.dhcp_nak_received
    then if leb dhcp_max_naks (naks + 1)
      then leave (record s { dhcp_nak_received = false; dhcp_nest_counter_maxed = true })
      else again (naks + 1) (record s { dhcp_nak_received = false })
    else again naks s

-- The second half of a pass: the request and the wait for its answer.
unfoldable pub answered : ℕ → Dhcp → Option Pass
answered naks s = some (if timed_out s then again naks s else count_nak naks s)

unfoldable pub request : Net → List Arrival → ℕ → Dhcp → Option Pass
unfolding answered
request net answers naks s =
    wait net answers (build_send_dhcp_packet net dhcp_msg_dhcprequest s) >>= answered naks

unfoldable pub offered : Net → List Arrival → ℕ → Dhcp → Option Pass
unfolding request
offered net answers naks s = if timed_out s then some (again naks s) else request net answers naks s

unfoldable pub discover : Net → List Arrival → List Arrival → ℕ → Dhcp → Option Pass
unfolding offered
discover net offers answers naks s =
    wait net offers (build_send_dhcp_packet net dhcp_msg_dhcpdiscover (rearm s))
    >>= offered net answers naks

abbrev pub next_attempt : Dhcp → Dhcp
next_attempt s = record s { dhcp_attempts = (s.dhcp_attempts + 1) % 2 ^ 32 }

unfoldable pub pass : Net → List Arrival → List Arrival → ℕ → Dhcp → Option Pass
unfolding discover
pass net offers answers naks s =
    let started = discover net offers answers naks (next_attempt s) in
    if s.dhcp_acked
    then some (leave s)
    else if ltb dhcp_max_attempts (next_attempt s).dhcp_attempts
    then some (
        leave (record s {
          dhcp_attempts = (next_attempt s).dhcp_attempts;
          dhcp_nest_counter_maxed = true;
        }))
    else started

-- The loop of `dhcp_go` on fuel; pass `n` waits for `offers n` and then for `answers n`.
unfoldable pub attempts_from :
    Net → (ℕ → List Arrival) → (ℕ → List Arrival) → ℕ → ℕ → ℕ → Dhcp → Option Dhcp
unfolding pass
attempts_from net offers answers zero n naks s = none
attempts_from net offers answers (suc fuel) n naks s =
    pass net (offers n) (answers n) naks s >>= (λ p. elim p [
      | leave t ↦ some t
      | again more t ↦ attempts_from net offers answers fuel (n + 1) more t
    ])

-- The result: whether the function returns 0, and the state with `our_ip` for the buffer.
abbrev pub finish_go : Dhcp → Bool × Dhcp
finish_go s =
    let t = record s { dhcp_attempts = 0; timeout_loop = some 0 } in
    if t.dhcp_acked
    then (true, record t { our_ip = t.dhcpoffer_ip_from_pkt })
    else if t.dhcp_nest_counter_maxed
    then (true, t)
    else (false, t)

abbrev pub begin_go : Dhcp → Dhcp
begin_go s = record s {
  dhcp_acked = false;
  dhcp_nak_received = false;
  dhcp_attempts = 0;
  timeout_loop = some 1;
}

unfoldable pub dhcp_go :
    Net → (ℕ → List Arrival) → (ℕ → List Arrival) → ℕ → Dhcp → Option (Bool × Dhcp)
dhcp_go net offers answers fuel s =
    attempts_from net offers answers fuel 0 0 (begin_go s) >>= (λ t. some (finish_go t))

-- What `dhcp_renew` returns: 0, -1 and -2.
pub data Renewed : Type 0 where
  renewed failed refused : Renewed

unfoldable pub finish_renew : Dhcp → Renewed × Dhcp
finish_renew s =
    let t = record s { dhcp_renewal = false } in
    if t.dhcp_renewal_nak
    then (refused, t)
    else if t.dhcp_acked
    then (renewed, record t { our_ip = t.dhcpoffer_ip_from_pkt })
    else (failed, t)

abbrev pub begin_renew : Dhcp → Dhcp
begin_renew s = record s { dhcp_acked = false; dhcp_renewal = true; dhcp_renewal_nak = false }

unfoldable pub dhcp_renew : Net → List Arrival → Dhcp → Option (Renewed × Dhcp)
unfolding finish_renew
dhcp_renew net arrivals s =
    wait net arrivals (build_send_dhcp_packet net dhcp_renew_type (begin_renew s))
    >>= (λ t. some (finish_renew t))
