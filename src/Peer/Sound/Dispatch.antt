-- ===== src/Peer/Sound/Dispatch.antt =====
-- Peer.cpp: handle_peer_signal() keeps the session sound, whatever the bytes.
use ll_dlep.Common.{
  ℕ, inl, inr, false, not, ◌||◌, List, Option-cases, str_eq, nat_key, string_key, bytes_key, WhenOk,
  value, after, after_with, either_way,
}
use ll_dlep.ProtocolConfig.Modules.{get_status_code_info}
use ll_dlep.Message.Build.{ProtocolMessage, new_message, message_name}
use ll_dlep.Message.Parse.{Report, bad_parse, validated, parse_and_validate}
use ll_dlep.Peer.State.{Peer, Dlep, termination_status}
use ll_dlep.Peer.Responses.{terminate}
use ll_dlep.Peer.Dispatch.{
  MessageKind, heartbeat, destination_update_msg, destination_up_msg, destination_up_response_msg,
  destination_announce_msg, destination_announce_response_msg, destination_down_msg,
  destination_down_response_msg, link_request_msg, link_response_msg, session_update_msg,
  session_update_response_msg, initialization_msg, initialization_response_msg, termination_msg,
  termination_response_msg, unhandled, message_kind, status_of, check_status_code_failure, dispatch,
  handle_valid_signal, handle_report, handle_peer_signal,
}
use ll_dlep.Peer.Sound.{IsSound}
use ll_dlep.Peer.Sound.Responses.{terminate-IsSound}
use ll_dlep.Peer.Sound.Session.{
  handle_peer_initialization-IsSound, handle_peer_initialization_response-IsSound,
  handle_peer_update-IsSound, handle_peer_update_response-IsSound, handle_peer_termination-IsSound,
  handle_peer_termination_response-IsSound,
}
use ll_dlep.Peer.Sound.Destinations.{
  handle_destination_up-IsSound, handle_destination_up_response-IsSound,
  handle_destination_announce-IsSound,
}
use ll_dlep.Peer.Sound.Updates.{
  handle_destination_update-IsSound, handle_destination_down-IsSound,
  handle_destination_down_response-IsSound, handle_link_characteristics_request-IsSound,
  handle_link_characteristics_response-IsSound,
}

module _ (dlep : Dlep) where
  check_status_code_failure-IsSound :
      (peer : Peer) (pm : ProtocolMessage)
      → IsSound dlep.client peer
      → WhenOk (λ r. IsSound dlep.client r.0) (check_status_code_failure dlep peer pm)
  unfolding check_status_code_failure
  check_status_code_failure-IsSound peer pm s =
      after _ (message_name dlep.protocfg pm) _ λ msgname _.
        either_way _
          (str_eq msgname "Session_Termination" || str_eq msgname "Session_Termination_Response") _
          _ (value _ _ s)
          (after _ (status_of dlep pm) _ (λ status _. elim (Option-cases status) [
            | inl e ↦ rw e (value _ _ s)
            | inr (name, e) ↦ rw e (
                after _ (get_status_code_info dlep.protocfg name) _ λ info _.
                  either_way _ (str_eq info.failure_mode "terminate") _ _
                    (after_with _ (IsSound dlep.client)
                      (terminate dlep peer name (termination_status msgname name)) _
                      (terminate-IsSound dlep peer _ _ s) (λ peer' s'. value _ _ s'))
                    (value _ _ s))
          ]))

  dispatch-IsSound :
      (kind : MessageKind) (peer : Peer) (pm : ProtocolMessage)
      → IsSound dlep.client peer
      → WhenOk (IsSound dlep.client) (dispatch dlep kind peer pm)
  unfolding dispatch
  dispatch-IsSound heartbeat peer pm s = value _ _ s
  dispatch-IsSound destination_update_msg peer pm s =
      handle_destination_update-IsSound dlep peer pm s
  dispatch-IsSound destination_up_msg peer pm s =
      either_way _ dlep.is_modem _ _ (handle_destination_announce-IsSound dlep peer pm s)
        (handle_destination_up-IsSound dlep peer pm s)
  dispatch-IsSound destination_up_response_msg peer pm s =
      handle_destination_up_response-IsSound dlep peer pm s
  dispatch-IsSound destination_announce_msg peer pm s =
      handle_destination_announce-IsSound dlep peer pm s
  dispatch-IsSound destination_announce_response_msg peer pm s =
      handle_destination_up_response-IsSound dlep peer pm s
  dispatch-IsSound destination_down_msg peer pm s = handle_destination_down-IsSound dlep peer pm s
  dispatch-IsSound destination_down_response_msg peer pm s =
      handle_destination_down_response-IsSound dlep peer pm s
  dispatch-IsSound link_request_msg peer pm s =
      handle_link_characteristics_request-IsSound dlep peer pm s
  dispatch-IsSound link_response_msg peer pm s =
      handle_link_characteristics_response-IsSound dlep peer pm s
  dispatch-IsSound session_update_msg peer pm s = handle_peer_update-IsSound dlep peer pm s
  dispatch-IsSound session_update_response_msg peer pm s =
      handle_peer_update_response-IsSound dlep peer pm s
  dispatch-IsSound initialization_msg peer pm s = handle_peer_initialization-IsSound dlep peer pm s
  dispatch-IsSound initialization_response_msg peer pm s =
      handle_peer_initialization_response-IsSound dlep peer pm s
  dispatch-IsSound termination_msg peer pm s = handle_peer_termination-IsSound dlep peer s
  dispatch-IsSound termination_response_msg peer pm s =
      handle_peer_termination_response-IsSound dlep peer pm s
  dispatch-IsSound unhandled peer pm s = value _ _ s

  handle_report-IsSound :
      (peer : Peer) (pm : ProtocolMessage) (report : Report)
      → IsSound dlep.client peer
      → WhenOk (IsSound dlep.client) (handle_report dlep peer pm report)
  unfolding handle_report handle_valid_signal
  handle_report-IsSound peer pm (bad_parse outcome) s = terminate-IsSound dlep peer _ _ s
  handle_report-IsSound peer pm (validated r) s = after _ r _ (λ problem _.
      elim (Option-cases problem) [
        | inr (p, e) ↦ rw e (terminate-IsSound dlep peer _ _ s)
        | inl e ↦ rw e (
            after_with _ (λ r. IsSound dlep.client r.0) (check_status_code_failure dlep peer pm) _
              (check_status_code_failure-IsSound peer pm s)
              (λ t s'. either_way _ t.1 _ _ (value _ _ s') (
                after _ (message_name dlep.protocfg pm) _
                  λ msgname _. dispatch-IsSound (message_kind msgname) t.0 pm s')))
      ])

  -- Whatever the bytes of a message are, a session that is sound is sound after them, when
  -- handle_peer_signal() returns.
  pub handle_peer_signal-IsSound :
      (peer : Peer) (buf : List ℕ)
      → IsSound dlep.client peer
      → WhenOk (IsSound dlep.client) (handle_peer_signal dlep peer buf)
  unfolding handle_peer_signal
  handle_peer_signal-IsSound peer buf s =
      let r = parse_and_validate dlep.protocfg new_message buf false (not dlep.is_modem) in
      handle_report-IsSound peer r.0 r.1 s
