-- ===== src/Peer/Send.antt =====
-- Peer.cpp: the messages that a session sends by itself or for the client.
use ll_dlep.Common.{
  ℕ, String, Bool, true, false, not, none, some, List, [], ◌∷◌, ltb, if◌then◌else◌, Result, ok, err,
  stuck, ◌>>=◌, str_eq, nat_key, string_key, bytes_key,
}
use ll_dlep.ProtocolConfig.{get_signal_id}
use ll_dlep.ProtocolConfig.Modules.{get_extension_ids}
use ll_dlep.DataItem.Types.{DataItem}
use ll_dlep.InfoBase.Destination.{DestinationData, get_all_data_items}
use ll_dlep.InfoBase.PeerData.{
  get_data_items, get_destinations, get_needs_response, set_needs_response,
}
use ll_dlep.Message.Build.{
  ProtocolMessage, new_message, add_header, add_mac, add_data_items, add_extensions,
  add_allowed_data_items,
}
use ll_dlep.Message.CommonItems.{add_common_data_items, rebuild_from_data_items}
use ll_dlep.Message.Parse.{parse_and_validate_again, ignore_report}
use ll_dlep.Peer.State.{
  in_session, state_eq, PeerInfo, read_up_to, heartbeat_timer_set, acktivity_timer_set, Peer, Dlep,
  emit, max_signal_size,
}
use ll_dlep.Peer.Responses.{
  send_session_message, send_expecting_response, is_not_interested, should_send_response,
}

module _ (dlep : Dlep) where
  -- A freshly built message is parsed and validated, and problems are only logged.
  abbrev pub parse_built : ProtocolMessage → Result ProtocolMessage
  parse_built pm = ignore_report (parse_and_validate_again dlep.protocfg pm dlep.is_modem)

  -- A message about a destination: the header, its MAC address and the data items.
  unfoldable pub destination_message : String → List ℕ → List DataItem → Result ProtocolMessage
  destination_message msg_name mac data_items = do
    pm ← add_header dlep.protocfg new_message msg_name
    pm' ← add_mac dlep.protocfg pm mac
    add_data_items dlep.protocfg pm' data_items

  -- Destination Announce if we are the router and it is configured, or else Destination Up.
  unfoldable pub up_message_name : String
  up_message_name =
      if dlep.is_modem
      then "Destination_Up"
      else elim (get_signal_id dlep.protocfg "Destination_Announce") [
        | ok id ↦ "Destination_Announce"
        | err e ↦ "Destination_Up"
        | stuck ↦ "Destination_Up"
      ]

  unfoldable pub destination_up : Peer → List ℕ → List DataItem → Result Peer
  destination_up peer mac initial_data_items =
      let waiting = get_needs_response peer.peer_pdp mac in
      let is_response = not (str_eq waiting "") in
      let peer' =
        if is_response
        then record peer { peer_pdp = set_needs_response peer.peer_pdp mac "" }
        else peer in
      do
        pm ←
            destination_message (if is_response then waiting else up_message_name) mac
              initial_data_items
        pm' ← add_common_data_items dlep.protocfg pm dlep.client
        pm'' ← parse_built pm'
        if is_response
            then ok (send_session_message peer' pm''.msgbuf)
            else send_expecting_response dlep peer' pm''

  unfoldable pub destination_down : Peer → List ℕ → List DataItem → Result Peer
  destination_down peer mac data_items = do
    pm ← destination_message "Destination_Down" mac data_items
    pm' ← parse_built pm
    send_expecting_response dlep peer pm'

  unfoldable pub destination_update : Peer → List ℕ → List DataItem → Result Peer
  destination_update peer mac updates = if is_not_interested peer mac then ok peer else (do
    pm ← destination_message "Destination_Update" mac updates
    pm' ← parse_built pm
    ok (send_session_message peer pm'.msgbuf))

  -- The result says whether the update was issued.
  unfoldable pub peer_update : Peer → List DataItem → Result (Peer × Bool)
  peer_update peer updates =
      if state_eq peer.pstate in_session
      then (do
        pm ← add_header dlep.protocfg new_message "Session_Update"
        pm' ← add_data_items dlep.protocfg pm updates
        pm'' ← parse_built pm'
        peer' ← send_expecting_response dlep peer pm''
        ok (peer', true))
      else ok (peer, false)

  unfoldable pub link_characteristics_request : Peer → List ℕ → List DataItem → Result Peer
  link_characteristics_request peer mac requests = do
    pm ← destination_message "Link_Characteristics_Request" mac requests
    pm' ← parse_built pm
    send_expecting_response dlep peer pm'

  unfoldable pub link_characteristics_response : Peer → List ℕ → List DataItem → Result Peer
  link_characteristics_response peer mac updates =
      let (peer', sendit) = should_send_response dlep peer in
      elim sendit [
        | false ↦ ok peer'
        | true ↦ do
          pm ← destination_message "Link_Characteristics_Response" mac updates
          pm' ← parse_built pm
          ok (send_session_message peer' pm'.msgbuf)
      ]

  -- PeerData::sendAllDestinations() to this peer.
  unfoldable pub send_each_destination : Peer → List (List ℕ × DestinationData) → Result Peer
  send_each_destination peer [] = ok peer
  send_each_destination peer ((mac, dd) ∷ rest) = do
    peer' ← destination_up peer mac (get_all_data_items dd [])
    send_each_destination peer' rest

  -- The client may change the data items of a message, which is then built again.
  unfoldable pub offer_to_client : Peer → ProtocolMessage → Result ProtocolMessage
  offer_to_client peer pm = elim (dlep.client_peer_init peer.peer_id pm.data_items) [
    | none ↦ ok pm
    | some data_items ↦ do
      rebuilt ← rebuild_from_data_items dlep.protocfg pm dlep.is_modem data_items
      ignore_report rebuilt
  ]

  unfoldable pub add_any_extensions : ProtocolMessage → List ℕ → Result ProtocolMessage
  add_any_extensions pm [] = ok pm
  add_any_extensions pm (x ∷ xs) = add_extensions dlep.protocfg pm (x ∷ xs)

  unfoldable pub schedule_heartbeat : Peer → Peer
  schedule_heartbeat peer =
      if ltb 0 dlep.client.heartbeat_interval
      then emit peer (heartbeat_timer_set dlep.client.heartbeat_interval)
      else peer

  unfoldable pub send_peer_initialization : Peer → Result Peer
  send_peer_initialization peer = do
    pm ← add_header dlep.protocfg new_message "Session_Initialization"
    pm1 ← add_common_data_items dlep.protocfg pm dlep.client
    pm2 ← add_any_extensions pm1 (get_extension_ids dlep.protocfg)
    pm3 ← parse_built pm2
    pm4 ← offer_to_client peer pm3
    send_expecting_response dlep peer pm4

  unfoldable pub start_peer : Peer → Result Peer
  start_peer peer = do
    pm ← add_header dlep.protocfg new_message "Heartbeat"
    pm' ← add_common_data_items dlep.protocfg pm dlep.client
    pm'' ← parse_built pm'
    let started =
        emit (emit (record peer { heartbeat_msg = pm''.msgbuf }) acktivity_timer_set)
          (read_up_to max_signal_size)
    if dlep.is_modem then ok started else send_peer_initialization started

  unfoldable pub send_peer_initialization_response : Peer → Result Peer
  send_peer_initialization_response peer = do
    pm ← add_header dlep.protocfg new_message "Session_Initialization_Response"
    pm1 ← add_common_data_items dlep.protocfg pm dlep.client
    pm2 ← add_any_extensions pm1 peer.mutual_extensions
    pm3 ← add_allowed_data_items dlep.protocfg pm2 (get_data_items dlep.local_pdp)
    pm4 ← parse_built pm3
    pm5 ← offer_to_client peer pm4
    let (peer', sendit) = should_send_response dlep peer
    ok (if sendit then send_session_message peer' pm5.msgbuf else peer')

unfoldable pub get_info : Peer → PeerInfo
get_info peer = record {
  peer_id = peer.peer_id;
  peer_type = peer.peer_type;
  extensions = peer.mutual_extensions;
  experiment_names = peer.experiment_names;
  data_items = get_data_items peer.peer_pdp;
  destinations = get_destinations peer.peer_pdp.destination_data;
  heartbeat_interval = peer.peer_heartbeat_interval;
}
