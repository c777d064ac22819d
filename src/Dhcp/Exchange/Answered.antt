-- ===== src/Dhcp/Exchange/Answered.antt =====
-- A network that answers gets its client an address: `dhcp_go` of client/common/network/dhcp.c.
use kos_tool.Prelude.{
  ℕ, suc, ◌≡◌, ◌≢◌, refl, sym, subst, ◌∙◌, ap, chain_some, true, false, some, List, [], ◌∷◌, ◌++◌,
  All, arith, ◌⊎◌, inl, inr,
}
use kos_tool.Dhcp.{Dhcp, Net, Reply, htonl}
use kos_tool.Dhcp.Options.{kos_net_dhcp_get_32bit}
use kos_tool.Dhcp.Exchange.{
  Kind, offer, ack, other, kind_of, matches, on_reply, handle_dhcp_reply, Arrival, reply, escape,
  link_up, wait, leave, again, count_nak, request, discover, pass, attempts_from, dhcp_go,
  finish_go, build_send_dhcp_packet, rearm, timed_out, answered, offered, next_attempt, begin_go,
  dhcp_msg_dhcprequest, dhcp_msg_dhcpdiscover,
}

-- What a wait ignores while the offer with this number stands: an answer of another type, or an
-- acknowledgement of another exchange.
abbrev pub IsNoise : ℕ → Arrival → Type 0
IsNoise xid (reply r) = (kind_of r ≡ other) ⊎ ((kind_of r ≡ ack) × (r.xid ≢ xid))
IsNoise xid _ = ⊥

-- An offer and its acknowledgement, each the first that its wait does not ignore.
pub record IsAnswered (s : Dhcp) (o a : Reply) (first second : List Arrival) : Type 0 where
  pub others : List Arrival
  pub more : List Arrival
  pub quiet : All (IsNoise s.dhcpoffer_xid) others
  pub at_first : first ≡ others ++ (reply o ∷ more)
  pub o_offer : kind_of o ≡ offer
  pub noise : List Arrival
  pub rest : List Arrival
  pub hush : All (IsNoise o.xid) noise
  pub at_second : second ≡ noise ++ (reply a ∷ rest)
  pub a_ack : kind_of a ≡ ack
  pub same_xid : a.xid ≡ o.xid
  pub same_ip : a.yiaddr ≡ o.yiaddr

module _ (net : Net) where
  on_reply_noise :
      (kind : Kind) (r : Reply) (s : Dhcp)
      → (kind ≡ other) ⊎ ((kind ≡ ack) × (r.xid ≢ s.dhcpoffer_xid))
      → on_reply net kind r s ≡ (false, s)
  unfolding on_reply matches
  on_reply_noise kind r s (inl e) = rw e refl
  on_reply_noise kind r s (inr (e, differs)) = rw e (ground arith)

  wait_noise :
      (others arrivals : List Arrival) (s : Dhcp)
      → All (IsNoise s.dhcpoffer_xid) others
      → wait net (others ++ arrivals) s ≡ wait net arrivals s
  unfolding wait handle_dhcp_reply
  wait_noise [] arrivals s h = refl
  wait_noise (reply r ∷ others) arrivals s h =
      rw (on_reply_noise (kind_of r) r s h.0) (wait_noise others arrivals s h.1)
  wait_noise (escape ∷ others) arrivals s h = absurd h.0
  wait_noise (link_up ∷ others) arrivals s h = absurd h.0

  wait_offer :
      (others more : List Arrival) (o : Reply) (s : Dhcp)
      → All (IsNoise s.dhcpoffer_xid) others
      → kind_of o ≡ offer
      → wait net (others ++ (reply o ∷ more)) s ≡ some (on_reply net offer o s).1
  unfolding wait handle_dhcp_reply on_reply
  wait_offer others more o s noise is = wait_noise others (reply o ∷ more) s noise ∙ (rw is refl)

  wait_ack :
      (others more : List Arrival) (a : Reply) (s : Dhcp)
      → All (IsNoise s.dhcpoffer_xid) others
      → kind_of a ≡ ack
      → matches net a s ≡ true
      → wait net (others ++ (reply a ∷ more)) s ≡ some (on_reply net ack a s).1
  unfolding wait handle_dhcp_reply on_reply
  wait_ack others more a s noise is fits =
      wait_noise others (reply a ∷ more) s noise ∙ (rw is (ground arith))

  module _ (s : Dhcp) (o a : Reply) where
    discovering : Dhcp
    discovering =
        build_send_dhcp_packet net dhcp_msg_dhcpdiscover (rearm (next_attempt (begin_go s)))

    requesting : Dhcp
    requesting =
        build_send_dhcp_packet net dhcp_msg_dhcprequest (on_reply net offer o discovering).1

    bound : Dhcp
    bound = (on_reply net ack a requesting).1

    -- The packets change no more than what is sent, and the offer is taken.
    requesting_parts :
        s.dhcp_renewal ≡ false
        → a.xid ≡ o.xid
        → a.yiaddr ≡ o.yiaddr
        → (discovering.dhcpoffer_xid ≡ s.dhcpoffer_xid)
          × (requesting.dhcpoffer_xid ≡ o.xid)
          × (matches net a requesting ≡ true)
          × (timed_out (on_reply net offer o discovering).1 ≡ false)
          × (answered 0 bound ≡ some (again 0 bound))
          × (bound.dhcp_acked ≡ true)
          × (bound.dhcpoffer_ip_from_pkt ≡ htonl net a.yiaddr)
          × (bound.dhcp_lease_time ≡ kos_net_dhcp_get_32bit a.options_at 51 a.len)
    unfolding discovering requesting bound build_send_dhcp_packet on_reply matches answered
        count_nak
    requesting_parts mode same_xid same_ip = ground (arith, ap (htonl net) same_ip)

    module _ {first second : List Arrival} (mode : s.dhcp_renewal ≡ false)
        (x : IsAnswered s o a first second) where
      open x use {others, more, quiet, at_first, o_offer, noise, rest, hush, at_second, a_ack}

      offer_taken : wait net first discovering ≡ some (on_reply net offer o discovering).1
      offer_taken =
          let parts = requesting_parts mode x.same_xid x.same_ip in
          ap (λ l. wait net l discovering) at_first
          ∙ wait_offer others more o discovering
              (subst (λ xid. All (IsNoise xid) others) (sym parts.0) quiet) o_offer

      ack_taken : wait net second requesting ≡ some bound
      unfolding bound
      ack_taken =
          let parts = requesting_parts mode x.same_xid x.same_ip in
          ap (λ l. wait net l requesting) at_second
          ∙ wait_ack noise rest a requesting
              (subst (λ xid. All (IsNoise xid) noise) (sym parts.1) hush) a_ack parts.2

      first_pass : pass net first second 0 (begin_go s) ≡ some (again 0 bound)
      unfolding pass discover offered request discovering requesting
      first_pass =
          let parts = requesting_parts mode x.same_xid x.same_ip in
          chain_some (offered net second 0) offer_taken
          ∙ rw parts.3 (chain_some (answered 0) ack_taken ∙ parts.4)

-- A loop that is acknowledged is left.
pass_acked :
    (net : Net) (offers answers : List Arrival) (naks : ℕ) (s : Dhcp)
    → s.dhcp_acked ≡ true
    → pass net offers answers naks s ≡ some (leave s)
unfolding pass
pass_acked net offers answers naks s acked = ground arith

finish_acked :
    (s : Dhcp)
    → s.dhcp_acked ≡ true
    → (t : Dhcp) × (some (finish_go s) ≡ some (true, t))
      × (t.dhcp_acked ≡ true)
      × (t.our_ip ≡ s.dhcpoffer_ip_from_pkt)
      × (t.dhcp_lease_time ≡ s.dhcp_lease_time)
finish_acked s acked = ((finish_go s).1, ground arith, ground arith, ground arith, ground arith)

-- Outside a renewal, if the first wait gets an offer and the next one an acknowledgement of it,
-- each after nothing but noise, `dhcp_go` returns acknowledged within two passes, with the
-- address and the lease time of the acknowledgement.
pub dhcp_go_answered :
    (net : Net) (offers answers : ℕ → List Arrival) (fuel : ℕ) (s : Dhcp) (o a : Reply)
    → s.dhcp_renewal ≡ false
    → IsAnswered s o a (offers 0) (answers 0)
    → (t : Dhcp) × (dhcp_go net offers answers (suc (suc fuel)) s ≡ some (true, t))
      × (t.dhcp_acked ≡ true)
      × (t.our_ip ≡ htonl net a.yiaddr)
      × (t.dhcp_lease_time ≡ kos_net_dhcp_get_32bit a.options_at 51 a.len)
unfolding dhcp_go attempts_from
dhcp_go_answered net offers answers fuel s o a mode x =
    let parts = requesting_parts net s o a mode x.same_xid x.same_ip in
    let (t, done, acked, ip, lease) = finish_acked (bound net s o a) parts.5 in
    (
      t,
      chain_some _ (
            chain_some _ (first_pass net s o a mode x)
            ∙ chain_some _ (pass_acked net (offers 1) (answers 1) 0 (bound net s o a) parts.5))
          ∙ done,
      acked,
      ip ∙ parts.6,
      lease ∙ parts.7,
    )
