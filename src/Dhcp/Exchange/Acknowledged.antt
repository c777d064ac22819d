-- ===== src/Dhcp/Exchange/Acknowledged.antt =====
-- Which address `dhcp_go` of client/common/network/dhcp.c ends with.
use kos_tool.Prelude.{
  ℕ, zero, suc, ◌+◌, ◌≡◌, ◌≢◌, refl, sym, subst, ◌∙◌, ap, chain_parts, Bool, true, false, Option,
  some, List, [], ◌∷◌, arith, ◌⊎◌, inl, inr,
}
use mathlib.Core.List.{Memᴰ}
use mathlib.Core.Option.{some_inj}
use kos_tool.Dhcp.{Dhcp, Net, Reply, htonl}
use kos_tool.Dhcp.Options.{kos_net_dhcp_get_32bit}
use kos_tool.Dhcp.Exchange.{
  Kind, offer, ack, nak, other, kind_of, matches, on_reply, Arrival, reply, escape, link_up, wait,
  Pass, leave, again, count_nak, request, discover, pass, attempts_from, dhcp_go, finish_go,
  build_send_dhcp_packet, rearm, answered, offered, next_attempt, begin_go, dhcp_msg_dhcprequest,
  dhcp_msg_dhcpdiscover,
}
use kos_tool.Dhcp.Exchange.Waits.{reply_parts, link_up_parts}

-- The reply is the acknowledgement of the offer that the state holds, and the lease is its own.
abbrev pub IsAckOf : Net → Dhcp → Reply → Type 0
IsAckOf net t r =
    (kind_of r ≡ ack)
    × (r.xid ≡ t.dhcpoffer_xid)
    × (htonl net r.yiaddr ≡ t.dhcpoffer_ip_from_pkt)
    × (t.dhcp_lease_time ≡ kos_net_dhcp_get_32bit r.options_at 51 r.len)

abbrev pub AckedIn : Net → List Arrival → Dhcp → Type 0
AckedIn net arrivals t = (r : Reply) × Memᴰ (reply r) arrivals × IsAckOf net t r

abbrev Waiting : Dhcp → Type 0
Waiting s = (s.dhcp_acked ≡ false) × (s.dhcp_renewal ≡ false)

-- After a wait: still waiting, or acknowledged by one of the arrivals.
abbrev After : Net → List Arrival → Dhcp → Type 0
After net arrivals t =
    Waiting t ⊎ ((t.dhcp_acked ≡ true) × (t.dhcp_renewal ≡ false) × AckedIn net arrivals t)

module _ (net : Net) where
  on_reply-After :
      (kind : Kind) (r : Reply) (s : Dhcp)
      → kind_of r ≡ kind
      → Waiting s
      → Waiting (on_reply net kind r s).1
        ⊎ (((on_reply net kind r s).1.dhcp_acked ≡ true)
            × ((on_reply net kind r s).1.dhcp_renewal ≡ false)
            × ((on_reply net kind r s).0 ≡ true)
            × IsAckOf net (on_reply net kind r s).1 r)
  unfolding on_reply matches
  on_reply-After offer r s h w = ground arith
  on_reply-After ack r s h w = ground arith
  on_reply-After nak r s h w = ground arith
  on_reply-After other r s h w = ground arith

  After-later :
      (a : Arrival) (arrivals : List Arrival) (t : Dhcp)
      → After net arrivals t
      → After net (a ∷ arrivals) t
  After-later a arrivals t (inl w) = inl w
  After-later a arrivals t (inr (acked, mode, (r, m, is))) = inr (acked, mode, (r, Memᴰ.tail m, is))

  wait-After :
      (arrivals : List Arrival) (s t : Dhcp)
      → Waiting s
      → wait net arrivals s ≡ some t
      → After net arrivals t
  unfolding wait
  wait-After [] s t w h = ground arith
  wait-After (reply r ∷ arrivals) s t w h = elim (on_reply-After (kind_of r) r s refl w) [
    | inl waiting ↦ elim (reply_parts net r arrivals s t h) [
      | inl e ↦ inl (subst Waiting e.1 waiting)
      | inr e ↦
          After-later (reply r) arrivals t
            (wait-After arrivals (on_reply net (kind_of r) r s).1 t waiting e.1)
    ]
    | inr (acked, mode, ok, is) ↦ elim (reply_parts net r arrivals s t h) [
      | inl e ↦ inr (
        ap (λ (u : Dhcp). u.dhcp_acked) (sym e.1) ∙ acked,
        ap (λ (u : Dhcp). u.dhcp_renewal) (sym e.1) ∙ mode,
        (r, Memᴰ.head refl, subst (λ u. IsAckOf net u r) e.1 is),
      )
      | inr e ↦ absurd (ground arith)
    ]
  ]
  wait-After (escape ∷ arrivals) s t w h = inl (ground arith)
  wait-After (link_up ∷ arrivals) s t w h = elim (link_up_parts net arrivals s t h) [
    | inl e ↦ After-later link_up arrivals t (wait-After arrivals s t w e)
    | inr e ↦ inl (subst Waiting e w)
  ]

  -- No acknowledgement among the arrivals: none after the wait.
  wait-Waiting :
      (arrivals : List Arrival) (s t : Dhcp)
      → ((r : Reply) → Memᴰ (reply r) arrivals → kind_of r ≢ ack)
      → Waiting s
      → wait net arrivals s ≡ some t
      → Waiting t
  wait-Waiting arrivals s t quiet w h = elim (wait-After arrivals s t w h) [
    | inl waiting ↦ waiting
    | inr (acked, mode, (r, m, is)) ↦ absurd (quiet r m is.0)
  ]

-- What the loop of `dhcp_go` keeps: it waits, or holds an acknowledged address.
abbrev Grounded : Net → (ℕ → List Arrival) → Dhcp → Type 0
Grounded net answers t =
    Waiting t
    ⊎ ((t.dhcp_acked ≡ true) × (t.dhcp_renewal ≡ false) × ((n : ℕ) × AckedIn net (answers n) t))

abbrev state_of : Pass → Dhcp
state_of (leave t) = t
state_of (again naks t) = t

abbrev SameAddress : Dhcp → Dhcp → Type 0
SameAddress s t =
    (t.dhcp_acked ≡ s.dhcp_acked)
    × (t.dhcp_renewal ≡ s.dhcp_renewal)
    × (t.dhcpoffer_xid ≡ s.dhcpoffer_xid)
    × (t.dhcpoffer_ip_from_pkt ≡ s.dhcpoffer_ip_from_pkt)
    × (t.dhcp_lease_time ≡ s.dhcp_lease_time)

module _ (net : Net) (offers answers : ℕ → List Arrival) where
  SameAddress-Grounded :
      (s t : Dhcp) → SameAddress s t → Grounded net answers s → Grounded net answers t
  SameAddress-Grounded s t same (inl w) = inl (ground arith)
  SameAddress-Grounded s t same (inr (acked, mode, (n, (r, m, is)))) =
      inr (same.0 ∙ acked, same.1 ∙ mode, (n, (r, m, ground arith)))

  answered-Grounded :
      (naks : ℕ) (t : Dhcp) (p : Pass)
      → Grounded net answers t
      → answered naks t ≡ some p
      → Grounded net answers (state_of p)
  unfolding answered count_nak
  answered-Grounded naks t p g h = SameAddress-Grounded t (state_of p) (ground arith) g

  sent-Waiting :
      (s : Dhcp)
      → Waiting s
      → Waiting (build_send_dhcp_packet net dhcp_msg_dhcprequest s)
        × Waiting (build_send_dhcp_packet net dhcp_msg_dhcpdiscover (rearm s))
  unfolding build_send_dhcp_packet
  sent-Waiting s w = ground arith

  request-Grounded :
      (n naks : ℕ) (s : Dhcp) (p : Pass)
      → Waiting s
      → request net (answers n) naks s ≡ some p
      → Grounded net answers (state_of p)
  unfolding request
  request-Grounded n naks s p w h =
      let (t, got, rest) = chain_parts _ (answered naks) p h in
      answered-Grounded naks t p
        (elim (wait-After net (answers n) _ t (sent-Waiting s w).0 got) [
          | inl waiting ↦ inl waiting
          | inr (acked, mode, is) ↦ inr (acked, mode, (n, is))
        ])
        rest

  offered-Grounded :
      (n naks : ℕ) (s : Dhcp) (p : Pass)
      → Waiting s
      → offered net (answers n) naks s ≡ some p
      → Grounded net answers (state_of p)
  unfolding offered
  offered-Grounded n naks s p w h = ground (arith, request-Grounded n naks s p w)

  discover-Grounded :
      (n naks : ℕ) (s : Dhcp) (p : Pass)
      → ((r : Reply) → Memᴰ (reply r) (offers n) → kind_of r ≢ ack)
      → Waiting s
      → discover net (offers n) (answers n) naks s ≡ some p
      → Grounded net answers (state_of p)
  unfolding discover
  discover-Grounded n naks s p quiet w h =
      let (t, got, rest) = chain_parts _ (offered net (answers n) naks) p h in
      offered-Grounded n naks t p (wait-Waiting net (offers n) _ t quiet (sent-Waiting s w).1 got)
        rest

  pass-Grounded :
      (n naks : ℕ) (s : Dhcp) (p : Pass)
      → ((r : Reply) → Memᴰ (reply r) (offers n) → kind_of r ≢ ack)
      → Grounded net answers s
      → pass net (offers n) (answers n) naks s ≡ some p
      → Grounded net answers (state_of p)
  unfolding pass
  pass-Grounded n naks s p quiet (inl w) h =
      ground (arith, discover-Grounded n naks (next_attempt s) p quiet w)
  pass-Grounded n naks s p quiet (inr (acked, mode, is)) h =
      SameAddress-Grounded s (state_of p) (ground arith) (inr (acked, mode, is))

  -- The rest of the loop, after a pass.
  loop_Grounded :
      {loop : ℕ → Dhcp → Option Dhcp} {t : Dhcp} (p : Pass)
      → Grounded net answers (state_of p)
      → ((naks : ℕ) (u : Dhcp)
          → Grounded net answers u
          → loop naks u ≡ some t
          → Grounded net answers t)
      → elim p [ leave u ↦ some u | again more u ↦ loop more u ] ≡ some t
      → Grounded net answers t
  loop_Grounded (leave u) g rest h = subst (Grounded net answers) (some_inj.0 h) g
  loop_Grounded (again more u) g rest h = rest more u g h

  attempts_from-Grounded :
      (fuel n naks : ℕ) (s t : Dhcp)
      → ((i : ℕ) (r : Reply) → Memᴰ (reply r) (offers i) → kind_of r ≢ ack)
      → Grounded net answers s
      → attempts_from net offers answers fuel n naks s ≡ some t
      → Grounded net answers t
  unfolding attempts_from
  attempts_from-Grounded zero n naks s t quiet g h = ground arith
  attempts_from-Grounded (suc fuel) n naks s t quiet g h =
      let (p, passed, rest) = chain_parts (pass net (offers n) (answers n) naks s) _ t h in
      loop_Grounded p (pass-Grounded n naks s p (quiet n) g passed)
        (λ more u k. attempts_from-Grounded fuel (n + 1) more u t quiet k) rest

finish_acked :
    (u t : Dhcp) (ok : Bool)
    → u.dhcp_acked ≡ true
    → some (finish_go u) ≡ some (ok, t)
    → (u.dhcpoffer_xid ≡ t.dhcpoffer_xid)
      × (u.dhcpoffer_ip_from_pkt ≡ t.our_ip)
      × (t.dhcp_lease_time ≡ u.dhcp_lease_time)
finish_acked u t ok acked h = ground arith

-- Outside a renewal and while no wait for an offer sees an acknowledgement: if `dhcp_go` returns
-- acknowledged, then a reply that arrived in a wait for an answer is an acknowledgement with the
-- number of the exchange, the client's address is the one it gives, and the lease time is its
-- option.
pub dhcp_go_acknowledged :
    (net : Net) (offers answers : ℕ → List Arrival) (fuel : ℕ) (s t : Dhcp) (ok : Bool)
    → s.dhcp_renewal ≡ false
    → ((i : ℕ) (r : Reply) → Memᴰ (reply r) (offers i) → kind_of r ≢ ack)
    → dhcp_go net offers answers fuel s ≡ some (ok, t)
    → t.dhcp_acked ≡ true
    → (n : ℕ) × (r : Reply) × Memᴰ (reply r) (answers n)
      × (kind_of r ≡ ack)
      × (r.xid ≡ t.dhcpoffer_xid)
      × (t.our_ip ≡ htonl net r.yiaddr)
      × (t.dhcp_lease_time ≡ kos_net_dhcp_get_32bit r.options_at 51 r.len)
unfolding dhcp_go
dhcp_go_acknowledged net offers answers fuel s t ok mode quiet h acked =
    let (u, looped, rest) = chain_parts _ (λ v. some (finish_go v)) (ok, t) h in
    elim (attempts_from-Grounded net offers answers fuel 0 0 (begin_go s) u quiet (inl (refl, mode))
      looped) [
        | inl w ↦ absurd (ground arith)
        | inr (got, off, (n, (r, m, is))) ↦
            let (xid, ip, lease) = finish_acked u t ok got rest in
            (n, r, m, is.0, is.1 ∙ xid, sym (is.2 ∙ ip), lease ∙ is.3)
      ]
