-- ===== src/Peer/Dispatch.antt =====
-- Peer.cpp: handle_peer_signal(), which parses a message and hands it to its handler.
use ll_dlep.Common.{
  ℕ, String, Bool, true, false, not, ◌||◌, Option, none, some, List, [], ◌∷◌, if◌then◌else◌,
  data_item_not_present, Result, ok, err, stuck, ◌>>=◌, str_eq, nat_key, string_key, bytes_key,
}
use ll_dlep.ProtocolConfig.Modules.{get_status_code_info}
use ll_dlep.Message.Build.{ProtocolMessage, new_message, message_name}
use ll_dlep.Message.Parse.{Report, bad_parse, validated, parse_and_validate}
use ll_dlep.Message.Values.{get_status}
use ll_dlep.Peer.State.{termination_status, bad_message, invalid_contents, Peer, Dlep}
use ll_dlep.Peer.Responses.{terminate}
use ll_dlep.Peer.Initialization.{
  handle_peer_initialization, handle_peer_initialization_response, handle_peer_update,
  handle_peer_update_response, handle_peer_termination, handle_peer_termination_response,
}
use ll_dlep.Peer.Destinations.{
  handle_destination_up, handle_destination_up_response, handle_destination_announce,
  handle_destination_update, handle_destination_down, handle_destination_down_response,
  handle_link_characteristics_request, handle_link_characteristics_response,
}

-- The message names that handle_peer_signal() tells apart.
pub data MessageKind : Type 0 where
  heartbeat destination_update_msg destination_up_msg destination_up_response_msg : MessageKind
  destination_announce_msg destination_announce_response_msg destination_down_msg : MessageKind
  destination_down_response_msg link_request_msg link_response_msg session_update_msg : MessageKind
  session_update_response_msg initialization_msg initialization_response_msg : MessageKind
  termination_msg termination_response_msg unhandled : MessageKind

-- The chain of comparisons.
abbrev kind_among : String → List (String × MessageKind) → MessageKind
kind_among msgname [] = unhandled
kind_among msgname ((name, kind) ∷ rest) =
    let later = kind_among msgname rest in if str_eq msgname name then kind else later

unfoldable pub message_kind : String → MessageKind
message_kind msgname = kind_among msgname (
    ("Heartbeat", heartbeat)
    ∷ ("Destination_Update", destination_update_msg)
    ∷ ("Destination_Up", destination_up_msg)
    ∷ ("Destination_Up_Response", destination_up_response_msg)
    ∷ ("Destination_Announce", destination_announce_msg)
    ∷ ("Destination_Announce_Response", destination_announce_response_msg)
    ∷ ("Destination_Down", destination_down_msg)
    ∷ ("Destination_Down_Response", destination_down_response_msg)
    ∷ ("Link_Characteristics_Request", link_request_msg)
    ∷ ("Link_Characteristics_Response", link_response_msg)
    ∷ ("Session_Update", session_update_msg)
    ∷ ("Session_Update_Response", session_update_response_msg)
    ∷ ("Session_Initialization", initialization_msg)
    ∷ ("Session_Initialization_Response", initialization_response_msg)
    ∷ ("Session_Termination", termination_msg)
    ∷ ("Session_Termination_Response", termination_response_msg)
    ∷ [])

-- `catch (const ProtocolMessage::DataItemNotPresent &)` with nothing to go on with.
abbrev pub none_if_not_present : Result String → Result (Option String)
none_if_not_present (ok status_name) = ok (some status_name)
none_if_not_present (err (data_item_not_present name)) = ok none
none_if_not_present (err e) = err e
none_if_not_present stuck = stuck

module _ (dlep : Dlep) where
  -- The status of a message, `none` where it has no status data item.
  unfoldable pub status_of : ProtocolMessage → Result (Option String)
  status_of pm = none_if_not_present (get_status dlep.protocfg pm)

  -- The result says whether the peer was terminated for the status code in the message.
  unfoldable pub check_status_code_failure : Peer → ProtocolMessage → Result (Peer × Bool)
  check_status_code_failure peer pm = do
    msgname ← message_name dlep.protocfg pm
    if str_eq msgname "Session_Termination" || str_eq msgname "Session_Termination_Response"
        then ok (peer, false)
        else (do
          status ← status_of pm
          elim status [
            | none ↦ ok (peer, false)
            | some status_name ↦ do
              sc_info ← get_status_code_info dlep.protocfg status_name
              if str_eq sc_info.failure_mode "terminate"
                  then (do
                    peer' ← terminate dlep peer status_name (termination_status msgname status_name)
                    ok (peer', true))
                  else ok (peer, false)
          ])

  unfoldable pub dispatch : MessageKind → Peer → ProtocolMessage → Result Peer
  dispatch heartbeat peer pm = ok peer
  dispatch destination_update_msg peer pm = handle_destination_update dlep peer pm
  dispatch destination_up_msg peer pm =
      if dlep.is_modem
      then handle_destination_announce dlep peer pm
      else handle_destination_up dlep peer pm
  dispatch destination_up_response_msg peer pm = handle_destination_up_response dlep peer pm
  dispatch destination_announce_msg peer pm = handle_destination_announce dlep peer pm
  dispatch destination_announce_response_msg peer pm = handle_destination_up_response dlep peer pm
  dispatch destination_down_msg peer pm = handle_destination_down dlep peer pm
  dispatch destination_down_response_msg peer pm = handle_destination_down_response dlep peer pm
  dispatch link_request_msg peer pm = handle_link_characteristics_request dlep peer pm
  dispatch link_response_msg peer pm = handle_link_characteristics_response dlep peer pm
  dispatch session_update_msg peer pm = handle_peer_update dlep peer pm
  dispatch session_update_response_msg peer pm = handle_peer_update_response dlep peer pm
  dispatch initialization_msg peer pm = handle_peer_initialization dlep peer pm
  dispatch initialization_response_msg peer pm = handle_peer_initialization_response dlep peer pm
  dispatch termination_msg peer pm = handle_peer_termination dlep peer
  dispatch termination_response_msg peer pm = handle_peer_termination_response dlep peer pm
  dispatch unhandled peer pm = ok peer

  -- A message that parses and validates.
  unfoldable pub handle_valid_signal : Peer → ProtocolMessage → Result Peer
  handle_valid_signal peer pm = do
    (peer', failed) ← check_status_code_failure peer pm
    if failed
        then ok peer'
        else (do msgname ← message_name dlep.protocfg pm; dispatch (message_kind msgname) peer' pm)

  unfoldable pub handle_report : Peer → ProtocolMessage → Report → Result Peer
  handle_report peer pm (bad_parse outcome) =
      terminate dlep peer "Invalid_Message" (bad_message outcome)
  handle_report peer pm (validated r) = do
    problem ← r
    elim problem [
      | some p ↦ terminate dlep peer "Invalid_Message" (invalid_contents p)
      | none ↦ handle_valid_signal peer pm
    ]

  unfoldable pub handle_peer_signal : Peer → List ℕ → Result Peer
  handle_peer_signal peer buf =
      let r = parse_and_validate dlep.protocfg new_message buf false (not dlep.is_modem) in
      handle_report peer r.0 r.1
