-- ===== src/Peer/Sound/Send.antt =====
-- Peer.cpp: the messages that a session sends by itself or for the client keep it sound.
use ll_dlep.Common.{
  ℕ, ◌%◌, inl, inr, Bool, true, false, not, List, [], ◌∷◌, ltb, if◌then◌else◌, Bool-cases, str_eq,
  nat_key, string_key, bytes_key, if-elim, WhenOk, value, after, after_with, either_way,
}
use ll_dlep.DataItem.Types.{DataItem}
use ll_dlep.InfoBase.Destination.{DestinationData, get_all_data_items}
use ll_dlep.InfoBase.PeerData.{get_needs_response, set_needs_response, get_data_items}
use ll_dlep.InfoBase.Consistency.{set_needs_response-IsConsistent}
use ll_dlep.ProtocolConfig.Modules.{get_extension_ids}
use ll_dlep.Message.Build.{new_message, add_header, add_data_items, add_allowed_data_items}
use ll_dlep.Message.CommonItems.{add_common_data_items}
use ll_dlep.Peer.State.{Peer, Dlep, emit, state_eq, in_session}
use ll_dlep.Peer.Responses.{is_not_interested, should_send_response, send_expecting_response}
use ll_dlep.Peer.Send.{
  parse_built, destination_message, up_message_name, destination_up, destination_down,
  destination_update, peer_update, link_characteristics_request, link_characteristics_response,
  send_each_destination, offer_to_client, add_any_extensions, schedule_heartbeat,
  send_peer_initialization, start_peer, send_peer_initialization_response,
}
use ll_dlep.Peer.Sound.{IsSound, send_expecting_response-IsSound, sent-IsSound}

module _ (dlep : Dlep) where
  -- The response that the client owes for a destination is no longer owed.
  answered-IsSound :
      (peer : Peer) (mac : List ℕ) (b : Bool)
      → IsSound dlep.client peer
      → IsSound dlep.client
          (if b then record peer { peer_pdp = set_needs_response peer.peer_pdp mac "" } else peer)
  unfolding IsSound
  answered-IsSound peer mac true s = (s.0, set_needs_response-IsConsistent peer.peer_pdp mac "" s.1)
  answered-IsSound peer mac false s = s

  pub destination_up-IsSound :
      (peer : Peer) (mac : List ℕ) (data_items : List DataItem)
      → IsSound dlep.client peer
      → WhenOk (IsSound dlep.client) (destination_up dlep peer mac data_items)
  unfolding destination_up
  destination_up-IsSound peer mac data_items s =
      let waiting = get_needs_response peer.peer_pdp mac in
      let is_response = not (str_eq waiting "") in
      let s' = answered-IsSound peer mac is_response s in
      after _
        (destination_message dlep (if is_response then waiting else up_message_name dlep) mac
          data_items)
        _
        λ pm _. after _ (add_common_data_items dlep.protocfg pm dlep.client) _ λ pm' _.
          after _ (parse_built dlep pm') _ λ pm'' _.
            either_way _ is_response _ _ (value _ _ (sent-IsSound dlep _ pm''.msgbuf s'))
              (send_expecting_response-IsSound dlep _ pm'' s')

  pub destination_down-IsSound :
      (peer : Peer) (mac : List ℕ) (data_items : List DataItem)
      → IsSound dlep.client peer
      → WhenOk (IsSound dlep.client) (destination_down dlep peer mac data_items)
  unfolding destination_down
  destination_down-IsSound peer mac data_items s =
      after _ (destination_message dlep "Destination_Down" mac data_items) _ λ pm _.
        after _ (parse_built dlep pm) _ λ pm' _. send_expecting_response-IsSound dlep peer pm' s

  pub destination_update-IsSound :
      (peer : Peer) (mac : List ℕ) (data_items : List DataItem)
      → IsSound dlep.client peer
      → WhenOk (IsSound dlep.client) (destination_update dlep peer mac data_items)
  unfolding destination_update
  destination_update-IsSound peer mac data_items s =
      either_way _ (is_not_interested peer mac) _ _ (value _ _ s) (
        after _ (destination_message dlep "Destination_Update" mac data_items) _ λ pm _.
          after _ (parse_built dlep pm) _ λ pm' _. value _ _ (sent-IsSound dlep peer pm'.msgbuf s))

  pub peer_update-IsSound :
      (peer : Peer) (data_items : List DataItem)
      → IsSound dlep.client peer
      → WhenOk (λ r. IsSound dlep.client r.0) (peer_update dlep peer data_items)
  unfolding peer_update
  peer_update-IsSound peer data_items s =
      either_way _ (state_eq peer.pstate in_session) _ _
        (after _ (add_header dlep.protocfg new_message "Session_Update") _ λ pm _.
          after _ (add_data_items dlep.protocfg pm data_items) _ λ pm' _.
            after _ (parse_built dlep pm') _ λ pm'' _.
              after_with _ (IsSound dlep.client) (send_expecting_response dlep peer pm'') _
                (send_expecting_response-IsSound dlep peer pm'' s) (λ peer' s'. value _ _ s'))
        (value _ _ s)

  pub link_characteristics_request-IsSound :
      (peer : Peer) (mac : List ℕ) (data_items : List DataItem)
      → IsSound dlep.client peer
      → WhenOk (IsSound dlep.client) (link_characteristics_request dlep peer mac data_items)
  unfolding link_characteristics_request
  link_characteristics_request-IsSound peer mac data_items s =
      after _ (destination_message dlep "Link_Characteristics_Request" mac data_items) _ λ pm _.
        after _ (parse_built dlep pm) _ λ pm' _. send_expecting_response-IsSound dlep peer pm' s

  pub link_characteristics_response-IsSound :
      (peer : Peer) (mac : List ℕ) (data_items : List DataItem)
      → IsSound dlep.client peer
      → WhenOk (IsSound dlep.client) (link_characteristics_response dlep peer mac data_items)
  unfolding link_characteristics_response should_send_response IsSound
  link_characteristics_response-IsSound peer mac data_items s =
      elim (Bool-cases (ltb (dlep.rand peer.rand_calls % 100) dlep.client.ack_probability)) [
        | inl e ↦
            rw (e, link_characteristics_response)
              (after _ (destination_message dlep "Link_Characteristics_Response" mac data_items) _
                λ pm _.
                  after _ (parse_built dlep pm) _
                    λ pm' _. value _ _ (sent-IsSound dlep _ pm'.msgbuf s))
        | inr e ↦ rw (e, link_characteristics_response) (value _ _ s)
      ]

  pub send_each_destination-IsSound :
      (peer : Peer) (dds : List (List ℕ × DestinationData))
      → IsSound dlep.client peer
      → WhenOk (IsSound dlep.client) (send_each_destination dlep peer dds)
  unfolding send_each_destination
  send_each_destination-IsSound peer [] s = value _ _ s
  send_each_destination-IsSound peer ((mac, dd) ∷ dds) s =
      after_with _ (IsSound dlep.client) (destination_up dlep peer mac (get_all_data_items dd [])) _
        (destination_up-IsSound peer mac (get_all_data_items dd []) s)
        (λ peer' s'. send_each_destination-IsSound peer' dds s')

  pub schedule_heartbeat-IsSound :
      (peer : Peer) → IsSound dlep.client peer → IsSound dlep.client (schedule_heartbeat dlep peer)
  unfolding schedule_heartbeat emit IsSound
  schedule_heartbeat-IsSound peer s =
      if-elim (IsSound dlep.client) (ltb 0 dlep.client.heartbeat_interval) _ _ (λ _. s) (λ _. s)

  send_peer_initialization-IsSound :
      (peer : Peer)
      → IsSound dlep.client peer
      → WhenOk (IsSound dlep.client) (send_peer_initialization dlep peer)
  unfolding send_peer_initialization
  send_peer_initialization-IsSound peer s =
      after _ (add_header dlep.protocfg new_message "Session_Initialization") _ λ pm _.
        after _ (add_common_data_items dlep.protocfg pm dlep.client) _ λ pm1 _.
          after _ (add_any_extensions dlep pm1 (get_extension_ids dlep.protocfg)) _ λ pm2 _.
            after _ (parse_built dlep pm2) _ λ pm3 _.
              after _ (offer_to_client dlep peer pm3) _
                λ pm4 _. send_expecting_response-IsSound dlep peer pm4 s

  pub start_peer-IsSound :
      (peer : Peer) → IsSound dlep.client peer → WhenOk (IsSound dlep.client) (start_peer dlep peer)
  unfolding start_peer emit IsSound
  start_peer-IsSound peer s = after _ (add_header dlep.protocfg new_message "Heartbeat") _ λ pm _.
      after _ (add_common_data_items dlep.protocfg pm dlep.client) _ λ pm' _.
        after _ (parse_built dlep pm') _ λ pm'' _.
          either_way (IsSound dlep.client) dlep.is_modem _ _ (value _ _ s)
            (send_peer_initialization-IsSound _ s)

  pub send_peer_initialization_response-IsSound :
      (peer : Peer)
      → IsSound dlep.client peer
      → WhenOk (IsSound dlep.client) (send_peer_initialization_response dlep peer)
  unfolding send_peer_initialization_response should_send_response IsSound
  send_peer_initialization_response-IsSound peer s =
      after _ (add_header dlep.protocfg new_message "Session_Initialization_Response") _ λ pm _.
        after _ (add_common_data_items dlep.protocfg pm dlep.client) _ λ pm1 _.
          after _ (add_any_extensions dlep pm1 peer.mutual_extensions) _ λ pm2 _.
            after _ (add_allowed_data_items dlep.protocfg pm2 (get_data_items dlep.local_pdp)) _
              λ pm3 _. after _ (parse_built dlep pm3) _ λ pm4 _.
                after _ (offer_to_client dlep peer pm4) _ λ pm5 _. value (IsSound dlep.client) _ (
                  if-elim (IsSound dlep.client)
                    (ltb (dlep.rand peer.rand_calls % 100) dlep.client.ack_probability) _ _
                    (λ _. sent-IsSound dlep _ pm5.msgbuf s) (λ _. s))
