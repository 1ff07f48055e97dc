-- ===== src/Peer/Sound/Session.antt =====
-- Peer.cpp: the handlers of the messages about the session keep it sound.
use ll_dlep.Common.{
  inl, inr, false, none, List, [], ◌++◌, Option-cases, nat_key, string_key, bytes_key, if-elim,
  WhenOk, value, after, after_with, either_way,
}
use ll_dlep.DataItem.Types.{DataItem}
use ll_dlep.ProtocolConfig.{get_data_item_info_by_name}
use ll_dlep.ProtocolConfig.Modules.{get_extension_ids}
use ll_dlep.InfoBase.PeerData.{update_data_items}
use ll_dlep.InfoBase.PeerUpdates.{update_data_items-IsConsistent}
use ll_dlep.Message.Build.{ProtocolMessage}
use ll_dlep.Message.Values.{
  get_peer_type, get_experiment_names, get_heartbeat_interval, get_extensions,
}
use ll_dlep.Peer.State.{Peer, Dlep, emit, state_eq, terminating, in_session, client_peer_up}
use ll_dlep.Peer.Responses.{if_not_present, set_state, handle_response, send_simple_response}
use ll_dlep.Peer.Send.{get_info, send_each_destination, send_peer_initialization_response}
use ll_dlep.Peer.Addresses.{validate_ip_data_items}
use ll_dlep.Peer.Initialization.{
  if_not_configured, common_extensions, store_heartbeat_interval, store_peer_description,
  session_up, advertise_peer, accept_peer_initialization, handle_peer_initialization,
  accept_peer_initialization_response, handle_peer_initialization_response, status_name_of,
  accept_peer_update, handle_peer_update, handle_peer_update_response, handle_peer_termination,
  handle_peer_termination_response,
}
use ll_dlep.Peer.Sound.{IsSound}
use ll_dlep.Peer.Sound.Responses.{
  stop_peer-IsSound, terminate-IsSound, handle_response-IsSound, send_simple_response-IsSound,
}
use ll_dlep.Peer.Sound.Send.{
  send_each_destination-IsSound, schedule_heartbeat-IsSound,
  send_peer_initialization_response-IsSound,
}

module _ (dlep : Dlep) where
  store_heartbeat_interval-IsSound :
      (peer : Peer) (pm : ProtocolMessage)
      → IsSound dlep.client peer
      → WhenOk (IsSound dlep.client) (store_heartbeat_interval dlep peer pm)
  unfolding store_heartbeat_interval IsSound
  store_heartbeat_interval-IsSound peer pm s =
      after _ (get_heartbeat_interval dlep.protocfg pm) _ λ interval _.
        after _ (get_data_item_info_by_name dlep.protocfg "Heartbeat_Interval") _
          λ info _. value _ _ s

  store_peer_description-IsSound :
      (peer : Peer) (pm : ProtocolMessage)
      → IsSound dlep.client peer
      → WhenOk (IsSound dlep.client) (store_peer_description dlep peer pm)
  unfolding store_peer_description IsSound
  store_peer_description-IsSound peer pm s =
      after _ (if_not_present (get_peer_type dlep.protocfg pm) peer.peer_type) _ λ type' _.
        after _ (if_not_configured (get_experiment_names dlep.protocfg pm) peer.experiment_names) _
          λ names _. store_heartbeat_interval-IsSound _ pm s

  session_up-IsSound :
      (peer : Peer) (data_items : List DataItem)
      → IsSound dlep.client peer
      → WhenOk (IsSound dlep.client) (session_up dlep peer data_items)
  unfolding session_up set_state emit IsSound
  session_up-IsSound peer data_items s =
      after_with _ (IsSound dlep.client)
        (send_each_destination dlep
          (emit (set_state peer in_session) (
            client_peer_up
              (record (get_info (set_state peer in_session)) { data_items = data_items })))
          dlep.local_pdp.destination_data)
        _ (send_each_destination-IsSound dlep _ dlep.local_pdp.destination_data s)
        (λ peer' s'. value (IsSound dlep.client) _ (schedule_heartbeat-IsSound dlep peer' s'))

  advertise_peer-IsSound :
      (peer : Peer) → IsSound dlep.client peer → IsSound dlep.client (advertise_peer dlep peer)
  unfolding advertise_peer emit IsSound
  advertise_peer-IsSound peer s =
      if-elim (IsSound dlep.client) dlep.dest_advert_enabled _ _
        (λ _. elim (Option-cases dlep.peer_mac_address) [ inl e ↦ rw e s | inr (mac, e) ↦ rw e s ])
        (λ _. s)

  accept_peer_initialization-IsSound :
      (peer : Peer) (pm : ProtocolMessage)
      → IsSound dlep.client peer
      → WhenOk (IsSound dlep.client) (accept_peer_initialization dlep peer pm)
  unfolding accept_peer_initialization IsSound
  accept_peer_initialization-IsSound peer pm s =
      after_with _ (IsSound dlep.client) (store_peer_description dlep peer pm) _
        (store_peer_description-IsSound peer pm s)
        λ peer1 s1. after _ (if_not_present (get_extensions dlep.protocfg pm) []) _ λ theirs _.
          after_with _ (IsSound dlep.client)
            (send_peer_initialization_response dlep (record peer1 {
              mutual_extensions =
                  peer1.mutual_extensions
                  ++ common_extensions (get_extension_ids dlep.protocfg) theirs;
            }))
            _ (send_peer_initialization_response-IsSound dlep _ s1)
            λ peer3 s3.
              after_with _ (IsSound dlep.client) (session_up dlep peer3 (get_info peer3).data_items)
                _ (session_up-IsSound peer3 _ s3)
                (λ peer4 s4. value (IsSound dlep.client) _ (advertise_peer-IsSound peer4 s4))

  pub handle_peer_initialization-IsSound :
      (peer : Peer) (pm : ProtocolMessage)
      → IsSound dlep.client peer
      → WhenOk (IsSound dlep.client) (handle_peer_initialization dlep peer pm)
  unfolding handle_peer_initialization
  handle_peer_initialization-IsSound peer pm s =
      after _ (validate_ip_data_items dlep peer pm.data_items []) _ (λ problem _.
        elim (Option-cases problem) [
          | inr (p, e1) ↦ rw e1 (terminate-IsSound dlep peer _ _ s)
          | inl e1 ↦ rw e1 (accept_peer_initialization-IsSound peer pm s)
        ])

  accept_peer_initialization_response-IsSound :
      (peer : Peer) (pm : ProtocolMessage)
      → IsSound dlep.client peer
      → WhenOk (IsSound dlep.client) (accept_peer_initialization_response dlep peer pm)
  unfolding accept_peer_initialization_response IsSound
  accept_peer_initialization_response-IsSound peer pm s =
      after_with _ (IsSound dlep.client) (store_peer_description dlep peer pm) _
        (store_peer_description-IsSound peer pm s)
        λ peer1 s1.
          after _ (if_not_present (get_extensions dlep.protocfg pm) peer1.mutual_extensions) _
            λ extensions _.
              after _ (update_data_items dlep.protocfg peer1.peer_pdp pm.data_items false) _ λ r e.
                session_up-IsSound _ pm.data_items (
                  s1.0,
                  update_data_items-IsConsistent dlep.protocfg peer1.peer_pdp r.0 r.1 r.2
                      pm.data_items false s1.1 e,
                )

  pub handle_peer_initialization_response-IsSound :
      (peer : Peer) (pm : ProtocolMessage)
      → IsSound dlep.client peer
      → WhenOk (IsSound dlep.client) (handle_peer_initialization_response dlep peer pm)
  unfolding handle_peer_initialization_response
  handle_peer_initialization_response-IsSound peer pm s =
      after_with _ (λ r. IsSound dlep.client r.0) (handle_response dlep peer pm) _
        (handle_response-IsSound dlep peer pm s)
        (λ r s'.
          either_way _ r.1 _ _ (accept_peer_initialization_response-IsSound r.0 pm s')
            (value _ _ s'))

  accept_peer_update-IsSound :
      (peer : Peer) (pm : ProtocolMessage)
      → IsSound dlep.client peer
      → WhenOk (IsSound dlep.client) (accept_peer_update dlep peer pm)
  unfolding accept_peer_update emit IsSound
  accept_peer_update-IsSound peer pm s =
      after _ (update_data_items dlep.protocfg peer.peer_pdp pm.data_items false) _ λ r e.
        send_simple_response-IsSound dlep _ "Session_Update_Response" (status_name_of r.1) none (
          s.0,
          update_data_items-IsConsistent dlep.protocfg peer.peer_pdp r.0 r.1 r.2 pm.data_items false
              s.1 e,
        )

  pub handle_peer_update-IsSound :
      (peer : Peer) (pm : ProtocolMessage)
      → IsSound dlep.client peer
      → WhenOk (IsSound dlep.client) (handle_peer_update dlep peer pm)
  unfolding handle_peer_update
  handle_peer_update-IsSound peer pm s =
      after _ (validate_ip_data_items dlep peer pm.data_items peer.peer_pdp.ip_data_items) _
        (λ problem _. elim (Option-cases problem) [
          | inr (p, e1) ↦ rw e1 (terminate-IsSound dlep peer _ _ s)
          | inl e1 ↦ rw e1 (accept_peer_update-IsSound peer pm s)
        ])

  pub handle_peer_update_response-IsSound :
      (peer : Peer) (pm : ProtocolMessage)
      → IsSound dlep.client peer
      → WhenOk (IsSound dlep.client) (handle_peer_update_response dlep peer pm)
  unfolding handle_peer_update_response
  handle_peer_update_response-IsSound peer pm s =
      after_with _ (λ r. IsSound dlep.client r.0) (handle_response dlep peer pm) _
        (handle_response-IsSound dlep peer pm s) (λ r s'. value _ _ s')

  pub handle_peer_termination-IsSound :
      (peer : Peer)
      → IsSound dlep.client peer
      → WhenOk (IsSound dlep.client) (handle_peer_termination dlep peer)
  unfolding handle_peer_termination
  handle_peer_termination-IsSound peer s =
      after_with _ (IsSound dlep.client)
        (send_simple_response dlep peer "Session_Termination_Response" "" none) _
        (send_simple_response-IsSound dlep peer _ _ _ s)
        (λ peer' s'. value _ _ (stop_peer-IsSound dlep peer' s'))

  pub handle_peer_termination_response-IsSound :
      (peer : Peer) (pm : ProtocolMessage)
      → IsSound dlep.client peer
      → WhenOk (IsSound dlep.client) (handle_peer_termination_response dlep peer pm)
  unfolding handle_peer_termination_response
  handle_peer_termination_response-IsSound peer pm s =
      either_way _ (state_eq peer.pstate terminating) _ _
        (after_with _ (λ r. IsSound dlep.client r.0) (handle_response dlep peer pm) _
          (handle_response-IsSound dlep peer pm s)
          (λ r s'. value _ _ (stop_peer-IsSound dlep r.0 s')))
        (value _ _ s)
