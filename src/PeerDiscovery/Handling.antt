-- ===== src/PeerDiscovery/Handling.antt =====
-- PeerDiscovery.cpp: when an offer is sent and when a connection is made.
use ll_dlep.Common.{
  ℕ, ◌≡◌, refl, sym, ap, ◌∙◌, ◌⊎◌, inl, inr, true, false, not, Option, none, some, List, [], ◌∷◌,
  arith, if◌then◌else◌, ok, str_eq, nat_key, string_key, bytes_key, if-elim, WhenOk, value, after,
  after_with, either_way,
}
use mathlib.Core.Path.{subst}
use ll_dlep.Message.Build.{ProtocolMessage, new_message, add_header, message_name}
use ll_dlep.Message.CommonItems.{add_common_data_items}
use ll_dlep.Message.Parse.{parse_and_validate, parse_and_validate_again, ignore_report}
use ll_dlep.Peer.State.{PeerState, nonexistent, connected, in_session, terminating, state_eq}
use ll_dlep.Dlep.{peer_state}
use ll_dlep.PeerDiscovery.{
  IpAddress, v4_address, v6_address, Endpoint, Discovery, Outcome, nothing, offered, connecting,
  Connection, connection_point, scoped, connect_once, handle_peer_offer, add_connection,
  send_peer_offer, handle_discovery, is_valid, handle_message,
}
use ll_dlep.PeerDiscovery.Points.{IsPlaced, connection_point_lem}

state_eq-nonexistent : (s : PeerState) → state_eq s nonexistent ≡ true → s ≡ nonexistent
state_eq-nonexistent nonexistent e = refl
state_eq-nonexistent connected e = absurd (cc e)
state_eq-nonexistent in_session e = absurd (cc e)
state_eq-nonexistent terminating e = absurd (cc e)

module _ (d : Discovery) where
  -- An IPv4 address, an address that is not link-local, or one with the scope id of the sender.
  abbrev pub HasScope : IpAddress → IpAddress → Type 0
  HasScope (v4_address ip) from = Unit
  HasScope (v6_address ip scope) (v4_address from_ip) = d.is_link_local ip ≡ false
  HasScope (v6_address ip scope) (v6_address from_ip from_scope) =
      (d.is_link_local ip ≡ false) ⊎ (scope ≡ from_scope)

  -- What a packet from an endpoint may lead to.
  abbrev pub IsRight : Endpoint → Outcome → Type 0
  IsRight from nothing = Unit
  IsRight from (offered bytes to_endpoint) =
      (d.is_modem ≡ true)
      × (peer_state true d.peers (d.peer_id_of from.address from.port) ≡ nonexistent)
      × (to_endpoint.address ≡ from.address)
      × (to_endpoint.port ≡ d.udp_port)
  IsRight from (connecting ip port) =
      (d.is_modem ≡ false)
      × (peer_state false d.peers (d.peer_id_of ip port) ≡ nonexistent)
      × ((ip ≡ from.address) ⊎ HasScope ip from.address)

  -- The address to connect to, if there is one.
  abbrev IsReady : IpAddress → Option IpAddress → Type 0
  IsReady from none = Unit
  IsReady from (some ip) = (ip ≡ from) ⊎ HasScope ip from

  scoped-IsReady : (ip from : IpAddress) → WhenOk (IsReady from) (scoped d ip from)
  unfolding scoped
  scoped-IsReady (v4_address ip) from = λ o e. absurd (cc e)
  scoped-IsReady (v6_address ip scope) (v6_address from_ip from_scope) =
      value (IsReady (v6_address from_ip from_scope)) _ (
        inr (
          if-elim (λ dest. HasScope dest (v6_address from_ip from_scope)) (d.is_link_local ip) _ _
            (λ _. inr refl) (λ other. inl other)))
  scoped-IsReady (v6_address ip scope) (v4_address from_ip) =
      value (IsReady (v4_address from_ip)) _ (
        if-elim (IsReady (v4_address from_ip)) (d.is_link_local ip) _ _ (λ _. tt)
          (λ other. inr other))

  connect_once-IsRight :
      (from : Endpoint) (ip : IpAddress) (port : ℕ)
      → d.is_modem ≡ false
      → (ip ≡ from.address) ⊎ HasScope ip from.address
      → IsRight from (connect_once d ip port)
  unfolding connect_once
  connect_once-IsRight from ip port router h =
      if-elim (IsRight from)
        (state_eq (peer_state d.is_modem d.peers (d.peer_id_of ip port)) nonexistent) _ _
        (λ free. (
          router,
          ap (λ m. peer_state m d.peers (d.peer_id_of ip port)) (sym router)
              ∙ state_eq-nonexistent _ free,
          h,
        ))
        (λ _. tt)

  placed-IsReady :
      (c : Connection) (from : IpAddress)
      → c.may_need_scope_id ≡ false
      → IsPlaced from c
      → IsReady from (some c.dest_ip)
  placed-IsReady c from no_need (inl (need, _)) = absurd (cc (no_need, need))
  placed-IsReady c from no_need (inr (_, inl (ip, e))) =
      inr (subst (λ a. HasScope a from) (sym e) tt)
  placed-IsReady c from no_need (inr (_, inr e)) = inl e

  connected-IsRight :
      (from : Endpoint) (port : ℕ) (dest : Option IpAddress)
      → d.is_modem ≡ false
      → IsReady from.address dest
      → WhenOk
          (IsRight from)
          (elim dest [ none ↦ ok nothing | some ip ↦ ok (connect_once d ip port) ])
  connected-IsRight from port none router h = value (IsRight from) nothing tt
  connected-IsRight from port (some ip) router h =
      value (IsRight from) _ (connect_once-IsRight from ip port router h)

  handle_peer_offer-IsRight :
      (pm : ProtocolMessage) (from : Endpoint) → WhenOk (IsRight from) (handle_peer_offer d pm from)
  unfolding handle_peer_offer
  handle_peer_offer-IsRight pm from =
      if-elim (WhenOk (IsRight from)) d.is_modem _ _ (λ _. value (IsRight from) nothing tt)
        λ router. after (IsRight from) (connection_point d pm from.address) _ λ c e.
          after_with (IsRight from) (IsReady from.address)
            (if c.may_need_scope_id then scoped d c.dest_ip from.address else ok (some c.dest_ip)) _
            (if-elim (WhenOk (IsReady from.address)) c.may_need_scope_id _ _
              (λ _. scoped-IsReady c.dest_ip from.address)
              (λ no_need. value (IsReady from.address) _ (
                placed-IsReady c from.address no_need
                  (connection_point_lem d pm from.address c e).10.2)))
            λ dest ready. connected-IsRight from c.session_port dest router ready

  send_peer_offer-IsRight :
      (from : Endpoint)
      → d.is_modem ≡ true
      → peer_state true d.peers (d.peer_id_of from.address from.port) ≡ nonexistent
      → WhenOk (IsRight from) (send_peer_offer d from)
  unfolding send_peer_offer
  send_peer_offer-IsRight from modem free =
      after (IsRight from) (add_header d.protocfg new_message "Peer_Offer") _ λ pm _.
        after _ (add_common_data_items d.protocfg pm d.client) _ λ pm1 _.
          after _ (add_connection d pm1) _ λ pm2 _.
            after _ (ignore_report (parse_and_validate_again d.protocfg pm2 d.is_modem)) _
              λ pm3 _. value (IsRight from) _ (modem, free, refl, refl)

  handle_discovery-IsRight : (from : Endpoint) → WhenOk (IsRight from) (handle_discovery d from)
  unfolding handle_discovery
  handle_discovery-IsRight from =
      if-elim (WhenOk (IsRight from)) (not d.is_modem) _ _ (λ _. value (IsRight from) nothing tt)
        λ router.
          let modem : d.is_modem ≡ true = ground (arith, router) in
          if-elim (WhenOk (IsRight from))
            (state_eq (peer_state d.is_modem d.peers (d.peer_id_of from.address from.port))
              nonexistent)
            _ _
            (λ free. send_peer_offer-IsRight from modem (
              ap (λ m. peer_state m d.peers (d.peer_id_of from.address from.port)) (sym modem)
              ∙ state_eq-nonexistent _ free))
            (λ _. value (IsRight from) nothing tt)

  -- A packet that is handled leads to an offer only on a modem, when peer_state() of the sender is
  -- nonexistent, and then to the sender's address at the discovery port; and to a connection only on
  -- a router, when peer_state() of the peer to connect to is nonexistent, to the sender's address or
  -- to one that is IPv4, not link-local or has the scope id of the sender.
  pub handle_message_lem :
      (bytes : List ℕ) (from : Endpoint) (o : Outcome)
      → handle_message d bytes from ≡ ok o
      → IsRight from o
  unfolding handle_message
  handle_message_lem [] from o h = value (IsRight from) nothing tt o h
  handle_message_lem (b ∷ bytes) from o h =
      let r = parse_and_validate d.protocfg new_message (b ∷ bytes) true (not d.is_modem) in
      after (IsRight from) (is_valid d r.1) _
        (λ valid _. either_way _ (not valid) _ _ (value _ nothing tt) (
          after _ (message_name d.protocfg r.0) _ λ msgname _.
            either_way _ (str_eq msgname "Peer_Discovery") _ _ (handle_discovery-IsRight from) (
              either_way _ (str_eq msgname "Peer_Offer") _ _ (handle_peer_offer-IsRight r.0 from)
                (value _ nothing tt))))
        o h
