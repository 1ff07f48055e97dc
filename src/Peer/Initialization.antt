-- ===== src/Peer/Initialization.antt =====
-- Peer.cpp: the handlers of the messages about the session itself.
use ll_dlep.Common.{
  ℕ, ◌+◌, ◌/◌, ◌%◌, ◌^◌, String, Bool, false, ◌||◌, none, some, List, [], ◌∷◌, ◌++◌, ltb, ◌==◌,
  if◌then◌else◌, bad_data_item_name, data_item_not_present, Result, ok, err, stuck, ◌>>=◌, str_eq,
  nat_key, string_key, bytes_key,
}
use ll_dlep.ProtocolConfig.{get_data_item_info_by_name}
use ll_dlep.ProtocolConfig.Modules.{get_extension_ids, get_module_info}
use ll_dlep.DataItem.Types.{DataItem}
use ll_dlep.InfoBase.PeerData.{UpdateStatus, success, invalid_message, update_data_items}
use ll_dlep.Message.Build.{ProtocolMessage}
use ll_dlep.Message.Values.{
  get_peer_type, get_experiment_names, get_heartbeat_interval, get_extensions,
}
use ll_dlep.Peer.State.{
  in_session, terminating, state_eq, bad_ip_data_item, client_peer_up, client_peer_update,
  advert_destination_added, Peer, Dlep, emit,
}
use ll_dlep.Peer.Responses.{
  if_not_present, set_state, stop_peer, terminate, handle_response, send_simple_response,
}
use ll_dlep.Peer.Send.{
  get_info, send_each_destination, schedule_heartbeat, send_peer_initialization_response,
}
use ll_dlep.Peer.Addresses.{validate_ip_data_items}

-- The two catch clauses after pm.get_experiment_names().
abbrev pub if_not_configured {ℓ} : {A : Type ℓ} → Result A → A → Result A
if_not_configured (err (data_item_not_present name)) default = ok default
if_not_configured (err (bad_data_item_name name)) default = ok default
if_not_configured r default = r

abbrev pub divisor_of : String → ℕ
divisor_of units =
    if str_eq units "milliseconds" then 1000 else if str_eq units "microseconds" then 1000000 else 1

-- The interval in seconds, rounded to the nearest.
unfoldable pub interval_in_seconds : String → ℕ → ℕ
interval_in_seconds units interval =
    let divisor = divisor_of units in
    if ltb 1 divisor then (interval + divisor / 2) % 2 ^ 32 / divisor else interval

-- The ids of the peer's extensions that are ours too.
unfoldable pub is_extension : ℕ → List ℕ → Bool
is_extension extid [] = false
is_extension extid (x ∷ xs) = x == extid || is_extension extid xs

unfoldable pub common_extensions : List ℕ → List ℕ → List ℕ
common_extensions mine [] = []
common_extensions mine (extid ∷ extids) =
    if is_extension extid mine
    then extid ∷ common_extensions mine extids
    else common_extensions mine extids

-- The status code name that update_data_items() returns.
abbrev pub status_name_of : UpdateStatus → String
status_name_of success = "Success"
status_name_of invalid_message = "Invalid_Message"

module _ (dlep : Dlep) where
  unfoldable pub store_heartbeat_interval : Peer → ProtocolMessage → Result Peer
  store_heartbeat_interval peer pm = do
    interval ← get_heartbeat_interval dlep.protocfg pm
    info ← get_data_item_info_by_name dlep.protocfg "Heartbeat_Interval"
    ok (record peer {
      peer_heartbeat_interval = interval;
      peer_heartbeat_interval_sec = interval_in_seconds info.units interval;
    })

  -- What both initialization handlers take from the message first.
  unfoldable pub store_peer_description : Peer → ProtocolMessage → Result Peer
  store_peer_description peer pm = do
    type' ← if_not_present (get_peer_type dlep.protocfg pm) peer.peer_type
    names ← if_not_configured (get_experiment_names dlep.protocfg pm) peer.experiment_names
    store_heartbeat_interval (record peer { peer_type = type'; experiment_names = names }) pm

  -- The session is up: tell the client, send all our destinations, start heartbeats.
  unfoldable pub session_up : Peer → List DataItem → Result Peer
  session_up peer data_items = do
    let up = set_state peer in_session
    let told = emit up (client_peer_up (record (get_info up) { data_items = data_items }))
    peer' ← send_each_destination dlep told dlep.local_pdp.destination_data
    ok (schedule_heartbeat dlep peer')

  -- The destination advertisement of the peer's MAC address.
  unfoldable pub advertise_peer : Peer → Peer
  advertise_peer peer =
      if dlep.dest_advert_enabled
      then elim dlep.peer_mac_address [
        | none ↦ peer
        | some mac ↦ emit peer (advert_destination_added mac)
      ]
      else peer

  -- handle_peer_initialization() once the IP addresses are found right.
  unfoldable pub accept_peer_initialization : Peer → ProtocolMessage → Result Peer
  accept_peer_initialization peer pm = do
    peer1 ← store_peer_description peer pm
    theirs ← if_not_present (get_extensions dlep.protocfg pm) []
    let peer2 = record peer1 {
      mutual_extensions =
          peer1.mutual_extensions ++ common_extensions (get_extension_ids dlep.protocfg) theirs;
    }
    peer3 ← send_peer_initialization_response dlep peer2
    peer4 ← session_up peer3 (get_info peer3).data_items
    ok (advertise_peer peer4)

  unfoldable pub handle_peer_initialization : Peer → ProtocolMessage → Result Peer
  handle_peer_initialization peer pm = do
    problem ← validate_ip_data_items dlep peer pm.data_items []
    elim problem [
      | some p ↦ terminate dlep peer "Inconsistent_Data" (bad_ip_data_item p)
      | none ↦ accept_peer_initialization peer pm
    ]

  -- handle_peer_initialization_response() once the response is seen to be expected.
  unfoldable pub accept_peer_initialization_response : Peer → ProtocolMessage → Result Peer
  accept_peer_initialization_response peer pm = do
    peer1 ← store_peer_description peer pm
    extensions ← if_not_present (get_extensions dlep.protocfg pm) peer1.mutual_extensions
    (pdp, status, calls) ← update_data_items dlep.protocfg peer1.peer_pdp pm.data_items false
    session_up (record peer1 { mutual_extensions = extensions; peer_pdp = pdp }) pm.data_items

  unfoldable pub handle_peer_initialization_response : Peer → ProtocolMessage → Result Peer
  handle_peer_initialization_response peer pm = do
    (peer', expected) ← handle_response dlep peer pm
    if expected then accept_peer_initialization_response peer' pm else ok peer'

  -- handle_peer_update() once the IP addresses are found right.
  unfoldable pub accept_peer_update : Peer → ProtocolMessage → Result Peer
  accept_peer_update peer pm = do
    (pdp, status, calls) ← update_data_items dlep.protocfg peer.peer_pdp pm.data_items false
    send_simple_response dlep
        (emit (record peer { peer_pdp = pdp }) (client_peer_update pm.data_items))
        "Session_Update_Response" (status_name_of status) none

  unfoldable pub handle_peer_update : Peer → ProtocolMessage → Result Peer
  handle_peer_update peer pm = do
    problem ← validate_ip_data_items dlep peer pm.data_items peer.peer_pdp.ip_data_items
    elim problem [
      | some p ↦ terminate dlep peer "Inconsistent_Data" (bad_ip_data_item p)
      | none ↦ accept_peer_update peer pm
    ]

  unfoldable pub handle_peer_update_response : Peer → ProtocolMessage → Result Peer
  handle_peer_update_response peer pm = do
    (peer', expected) ← handle_response dlep peer pm
    ok peer'

  unfoldable pub handle_peer_termination : Peer → Result Peer
  handle_peer_termination peer = do
    peer' ← send_simple_response dlep peer "Session_Termination_Response" "" none
    ok (stop_peer dlep peer')

  unfoldable pub handle_peer_termination_response : Peer → ProtocolMessage → Result Peer
  handle_peer_termination_response peer pm =
      if state_eq peer.pstate terminating
      then (do (peer', expected) ← handle_response dlep peer pm; ok (stop_peer dlep peer'))
      else ok peer

  unfoldable pub extension_is_active : Peer → String → Result Bool
  extension_is_active peer extension_name = elim (get_module_info dlep.protocfg extension_name) [
    | ok info ↦ ok (is_extension info.extension_id peer.mutual_extensions)
    | err e ↦ ok false
    | stuck ↦ stuck
  ]
