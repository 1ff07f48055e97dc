-- ===== src/Peer/Destinations.antt =====
-- Peer.cpp: the handlers of the messages about destinations.
use ll_dlep.Common.{
  ℕ, String, true, false, not, ◌&&◌, none, some, List, [], ◌∷◌, if◌then◌else◌, Result, ok, ◌>>=◌,
  str_eq, map_find, map_insert, map_erase, nat_key, string_key, bytes_key,
}
use ll_dlep.ProtocolConfig.{ProtocolConfig, is_metric}
use ll_dlep.ProtocolConfig.Modules.{get_message_response_name}
use ll_dlep.DataItem.Types.{DataItem}
use ll_dlep.InfoBase.Destination.{DestinationData, get_all_data_items, update_destination_data}
use ll_dlep.InfoBase.PeerData.{
  add_destination, remove_destination, valid_destination, set_needs_response,
}
use ll_dlep.Message.Build.{ProtocolMessage, message_name}
use ll_dlep.Message.Values.{get_mac, get_status, get_data_items_no_mac}
use ll_dlep.Peer.State.{
  bad_ip_data_item, unknown_destination, no_reason, client_destination_up,
  client_destination_update, client_destination_down, client_linkchar_request,
  client_linkchar_reply, Peer, Dlep, emit,
}
use ll_dlep.Peer.Responses.{
  if_not_present, not_interested, terminate, handle_response, send_simple_response,
}
use ll_dlep.Peer.Send.{destination_up, link_characteristics_response}
use ll_dlep.Peer.Addresses.{validate_ip_data_items}

-- The metrics among the data items.
unfoldable pub metrics_among : ProtocolConfig → List DataItem → Result (List DataItem)
metrics_among cfg [] = ok []
metrics_among cfg (di ∷ dis) = do
  metric ← is_metric cfg di.id none
  rest ← metrics_among cfg dis
  ok (if metric then di ∷ rest else rest)

unfoldable pub interested_again : Peer → List ℕ → Peer
interested_again peer mac = record peer {
  not_interested_destinations = map_erase mac peer.not_interested_destinations;
}

module _ (dlep : Dlep) where
  -- The client's answer to a new destination; an empty one stands for Success.
  unfoldable pub ask_client : Peer → List ℕ → List DataItem → Peer × String
  ask_client peer mac data_items =
      let answer = dlep.client_destination_up_status peer.peer_id mac data_items in
      (
        emit peer (client_destination_up mac data_items),
        if str_eq answer "" then "Success" else answer,
      )

  -- addDestination() on what is known of the peer, without telling other peers.
  unfoldable pub add_to_peer : Peer → List ℕ → List DataItem → Result Peer
  add_to_peer peer mac data_items = do
    (pdp, added, calls) ← add_destination dlep.protocfg peer.peer_pdp mac data_items false
    ok (record peer { peer_pdp = pdp })

  -- handle_destination_up() for a new destination with the right IP addresses: the new state and
  -- the status for the response.
  unfoldable pub accept_destination_up : Peer → List ℕ → List DataItem → Result (Peer × String)
  accept_destination_up peer mac data_items = do
    let (peer', statusname) = ask_client (interested_again peer mac) mac data_items
    peer'' ← if str_eq statusname "Success" then add_to_peer peer' mac data_items else ok peer'
    ok (peer'', statusname)

  unfoldable pub respond_if_needed : ProtocolMessage → Peer → String → List ℕ → Result Peer
  respond_if_needed pm peer statusname mac = do
    name ← message_name dlep.protocfg pm
    response_name ← get_message_response_name dlep.protocfg name
    if str_eq response_name ""
        then ok peer
        else send_simple_response dlep peer response_name statusname (some mac)

  unfoldable pub handle_destination_up : Peer → ProtocolMessage → Result Peer
  handle_destination_up peer pm = do
    mac ← get_mac dlep.protocfg pm
    elim (valid_destination peer.peer_pdp mac) [
      | true ↦ respond_if_needed pm peer "Invalid_Message" mac
      | false ↦ do
        problem ← validate_ip_data_items dlep peer pm.data_items []
        elim problem [
          | some p ↦ terminate dlep peer "Inconsistent_Data" (bad_ip_data_item p)
          | none ↦ do
            (peer', statusname) ← accept_destination_up peer mac pm.data_items
            respond_if_needed pm peer' statusname mac
        ]
    ]

  -- The status of a response; a message without one goes on as with Success.
  unfoldable pub handle_destination_up_response : Peer → ProtocolMessage → Result Peer
  handle_destination_up_response peer pm = do
    mac ← get_mac dlep.protocfg pm
    (peer', expected) ← handle_response dlep peer pm
    if expected
        then (do
          status_name ← if_not_present (get_status dlep.protocfg pm) "Success"
          let peer'' =
              if str_eq status_name "Not_Interested" then not_interested peer' mac else peer'
          if str_eq status_name "Success" && not dlep.is_modem
              then handle_destination_up peer'' pm
              else ok peer'')
        else ok peer'

  -- handle_destination_announce() once the status for a new destination is known.
  unfoldable pub answer_announce : Peer → String → String → List ℕ → Result Peer
  answer_announce peer response_name statusname mac =
      if str_eq statusname "Success"
      then ok (record peer { peer_pdp = set_needs_response peer.peer_pdp mac response_name })
      else send_simple_response dlep peer response_name statusname (some mac)

  -- A new destination is added, and answered at once if it is ours too.
  unfoldable pub accept_announce : Peer → String → List ℕ → List DataItem → Result Peer
  accept_announce peer response_name mac data_items = do
    peer' ← add_to_peer (interested_again peer mac) mac data_items
    elim (map_find mac dlep.local_pdp.destination_data) [
      | some dd ↦
          destination_up dlep
            (record peer' { peer_pdp = set_needs_response peer'.peer_pdp mac response_name }) mac
            (get_all_data_items dd [])
      | none ↦
          (let (peer'', statusname) = ask_client peer' mac data_items in
            answer_announce peer'' response_name statusname mac)
    ]

  unfoldable pub handle_destination_announce : Peer → ProtocolMessage → Result Peer
  handle_destination_announce peer pm = do
    mac ← get_mac dlep.protocfg pm
    name ← message_name dlep.protocfg pm
    response_name ← get_message_response_name dlep.protocfg name
    elim (valid_destination peer.peer_pdp mac) [
      | true ↦ answer_announce peer response_name "Invalid_Message" mac
      | false ↦ accept_announce peer response_name mac pm.data_items
    ]

  -- `ddp->update(data_items, false)` on a destination of the peer.
  unfoldable pub update_known : Peer → List ℕ → DestinationData → List DataItem → Result Peer
  update_known peer mac dd data_items = do
    (dd', n, calls) ← update_destination_data dlep.protocfg dd data_items false
    ok (record peer {
      peer_pdp = record peer.peer_pdp {
        destination_data = map_insert mac dd' peer.peer_pdp.destination_data;
      };
    })

  unfoldable pub handle_destination_update : Peer → ProtocolMessage → Result Peer
  handle_destination_update peer pm = do
    mac ← get_mac dlep.protocfg pm
    elim (map_find mac peer.peer_pdp.destination_data) [
      | none ↦ terminate dlep peer "Invalid_Message" no_reason
      | some dd ↦ do
        data_items ← get_data_items_no_mac dlep.protocfg pm
        problem ← validate_ip_data_items dlep peer data_items dd.ip_data_items
        elim problem [
          | some p ↦ terminate dlep peer "Inconsistent_Data" (bad_ip_data_item p)
          | none ↦ do
            peer' ← update_known peer mac dd data_items
            ok (emit peer' (client_destination_update mac data_items))
        ]
    ]

  -- The end of handle_destination_down().
  unfoldable pub accept_destination_down : Peer → List ℕ → ProtocolMessage → Result Peer
  accept_destination_down peer mac pm = do
    data_items ← get_data_items_no_mac dlep.protocfg pm
    send_simple_response dlep (emit peer (client_destination_down mac data_items))
        "Destination_Down_Response" "Success" (some mac)

  unfoldable pub handle_destination_down : Peer → ProtocolMessage → Result Peer
  handle_destination_down peer pm = do
    mac ← get_mac dlep.protocfg pm
    let (pdp, removed, calls) = remove_destination peer.peer_pdp mac false []
    let peer' = record peer { peer_pdp = pdp }
    if removed
        then accept_destination_down peer' mac pm
        else if valid_destination dlep.local_pdp mac
        then accept_destination_down (not_interested peer' mac) mac pm
        else terminate dlep peer' "Invalid_Destination" (unknown_destination mac)

  unfoldable pub handle_destination_down_response : Peer → ProtocolMessage → Result Peer
  handle_destination_down_response peer pm = do
    mac ← get_mac dlep.protocfg pm
    (peer', expected) ← handle_response dlep peer pm
    ok peer'

  unfoldable pub handle_link_characteristics_request : Peer → ProtocolMessage → Result Peer
  handle_link_characteristics_request peer pm = do
    mac ← get_mac dlep.protocfg pm
    data_items ← get_data_items_no_mac dlep.protocfg pm
    elim (map_find mac dlep.local_pdp.destination_data) [
      | none ↦ terminate dlep peer "Invalid_Destination" (unknown_destination mac)
      | some dd ↦ elim data_items [
        | [] ↦ do
          metrics ← metrics_among dlep.protocfg (get_all_data_items dd [])
          link_characteristics_response dlep peer mac metrics
        | di ∷ dis ↦ ok (emit peer (client_linkchar_request mac (di ∷ dis)))
      ]
    ]

  unfoldable pub handle_link_characteristics_response : Peer → ProtocolMessage → Result Peer
  handle_link_characteristics_response peer pm = do
    mac ← get_mac dlep.protocfg pm
    (peer', expected) ← handle_response dlep peer pm
    if expected
        then elim (map_find mac peer'.peer_pdp.destination_data) [
          | none ↦ terminate dlep peer' "Invalid_Destination" (unknown_destination mac)
          | some dd ↦ do
            data_items ← get_data_items_no_mac dlep.protocfg pm
            peer'' ← update_known peer' mac dd data_items
            ok (emit peer'' (client_linkchar_reply mac data_items))
        ]
        else ok peer'
