-- ===== src/Peer/Sound/Updates.antt =====
-- Peer.cpp: the handlers of updates, downs and link characteristics keep the session sound.
use ll_dlep.Common.{
  ℕ, ◌≡◌, inl, inr, false, some, List, [], Option-cases, map_find, nat_key, string_key, bytes_key,
  WhenOk, value, after, after_with, either_way,
}
use ll_dlep.DataItem.Types.{DataItem}
use ll_dlep.InfoBase.Destination.{DestinationData, get_all_data_items, update_destination_data}
use ll_dlep.InfoBase.PeerData.{remove_destination, valid_destination}
use ll_dlep.InfoBase.PeerUpdates.{update_destination_data-AreDistinct}
use ll_dlep.InfoBase.Destinations.{map_insert-IsConsistent}
use ll_dlep.InfoBase.Consistency.{map_find-AreDistinct, remove_destination-IsConsistent}
use ll_dlep.Message.Build.{ProtocolMessage}
use ll_dlep.Message.Values.{get_mac, get_data_items_no_mac}
use ll_dlep.Peer.State.{Peer, Dlep, emit, client_destination_down}
use ll_dlep.Peer.Responses.{not_interested, handle_response}
use ll_dlep.Peer.Addresses.{validate_ip_data_items}
use ll_dlep.Peer.Destinations.{
  metrics_among, update_known, handle_destination_update, accept_destination_down,
  handle_destination_down, handle_destination_down_response, handle_link_characteristics_request,
  handle_link_characteristics_response,
}
use ll_dlep.Peer.Sound.{IsSound, List-cases}
use ll_dlep.Peer.Sound.Responses.{
  terminate-IsSound, handle_response-IsSound, send_simple_response-IsSound,
}
use ll_dlep.Peer.Sound.Send.{link_characteristics_response-IsSound}

module _ (dlep : Dlep) where
  update_known-IsSound :
      (peer : Peer) (mac : List ℕ) (dd : DestinationData) (data_items : List DataItem)
      → map_find mac peer.peer_pdp.destination_data ≡ some dd
      → IsSound dlep.client peer
      → WhenOk (IsSound dlep.client) (update_known dlep peer mac dd data_items)
  unfolding update_known IsSound
  update_known-IsSound peer mac dd data_items found s =
      after _ (update_destination_data dlep.protocfg dd data_items false) _ λ r e. value _ _ (
        s.0,
        map_insert-IsConsistent peer.peer_pdp mac r.0
            (update_destination_data-AreDistinct dlep.protocfg dd r.0 r.1 r.2 data_items false
              (map_find-AreDistinct peer.peer_pdp mac dd s.1 found) e)
            s.1,
      )

  pub handle_destination_update-IsSound :
      (peer : Peer) (pm : ProtocolMessage)
      → IsSound dlep.client peer
      → WhenOk (IsSound dlep.client) (handle_destination_update dlep peer pm)
  unfolding handle_destination_update emit IsSound
  handle_destination_update-IsSound peer pm s = after _ (get_mac dlep.protocfg pm) _ λ mac _.
      elim (Option-cases (map_find mac peer.peer_pdp.destination_data)) [
        | inl e ↦ rw e (terminate-IsSound dlep peer _ _ s)
        | inr (dd, e) ↦ rw e (
            after _ (get_data_items_no_mac dlep.protocfg pm) _ λ data_items _.
              after _ (validate_ip_data_items dlep peer data_items dd.ip_data_items) _ (λ problem _.
                elim (Option-cases problem) [
                  | inr (p, e1) ↦ rw e1 (terminate-IsSound dlep peer _ _ s)
                  | inl e1 ↦ rw e1 (
                      after_with _ (IsSound dlep.client) (update_known dlep peer mac dd data_items)
                        _ (update_known-IsSound peer mac dd data_items e s)
                        (λ peer' s'. value (IsSound dlep.client) _ s'))
                ]))
      ]

  accept_destination_down-IsSound :
      (peer : Peer) (mac : List ℕ) (pm : ProtocolMessage)
      → IsSound dlep.client peer
      → WhenOk (IsSound dlep.client) (accept_destination_down dlep peer mac pm)
  unfolding accept_destination_down emit IsSound
  accept_destination_down-IsSound peer mac pm s =
      after _ (get_data_items_no_mac dlep.protocfg pm) _ λ data_items _.
        send_simple_response-IsSound dlep (emit peer (client_destination_down mac data_items)) _ _ _
          s

  without-IsSound :
      (peer : Peer) (mac : List ℕ)
      → IsSound dlep.client peer
      → IsSound dlep.client
          (record peer { peer_pdp = (remove_destination peer.peer_pdp mac false []).0 })
  unfolding IsSound
  without-IsSound peer mac s = (s.0, remove_destination-IsConsistent peer.peer_pdp mac false [] s.1)

  pub handle_destination_down-IsSound :
      (peer : Peer) (pm : ProtocolMessage)
      → IsSound dlep.client peer
      → WhenOk (IsSound dlep.client) (handle_destination_down dlep peer pm)
  unfolding handle_destination_down not_interested IsSound
  handle_destination_down-IsSound peer pm s = after _ (get_mac dlep.protocfg pm) _ λ mac _.
      let s' = without-IsSound peer mac s in
      either_way (IsSound dlep.client) (remove_destination peer.peer_pdp mac false []).1 _ _
        (accept_destination_down-IsSound _ mac pm s')
        (either_way (IsSound dlep.client) (valid_destination dlep.local_pdp mac) _ _
          (accept_destination_down-IsSound _ mac pm s') (terminate-IsSound dlep _ _ _ s'))

  pub handle_destination_down_response-IsSound :
      (peer : Peer) (pm : ProtocolMessage)
      → IsSound dlep.client peer
      → WhenOk (IsSound dlep.client) (handle_destination_down_response dlep peer pm)
  unfolding handle_destination_down_response
  handle_destination_down_response-IsSound peer pm s = after _ (get_mac dlep.protocfg pm) _ λ mac _.
      after_with _ (λ r. IsSound dlep.client r.0) (handle_response dlep peer pm) _
        (handle_response-IsSound dlep peer pm s) (λ r s'. value _ _ s')

  pub handle_link_characteristics_request-IsSound :
      (peer : Peer) (pm : ProtocolMessage)
      → IsSound dlep.client peer
      → WhenOk (IsSound dlep.client) (handle_link_characteristics_request dlep peer pm)
  unfolding handle_link_characteristics_request emit IsSound
  handle_link_characteristics_request-IsSound peer pm s =
      after _ (get_mac dlep.protocfg pm) _ λ mac _.
        after _ (get_data_items_no_mac dlep.protocfg pm) _ (λ data_items _.
          elim (Option-cases (map_find mac dlep.local_pdp.destination_data)) [
            | inl e ↦ rw e (terminate-IsSound dlep peer _ _ s)
            | inr (dd, e) ↦ rw e (elim (List-cases data_items) [
              | inl e1 ↦ rw e1 (
                  after _ (metrics_among dlep.protocfg (get_all_data_items dd [])) _
                    λ metrics _. link_characteristics_response-IsSound dlep peer mac metrics s)
              | inr (di, dis, e1) ↦ rw e1 (value (IsSound dlep.client) _ s)
            ])
          ])

  pub handle_link_characteristics_response-IsSound :
      (peer : Peer) (pm : ProtocolMessage)
      → IsSound dlep.client peer
      → WhenOk (IsSound dlep.client) (handle_link_characteristics_response dlep peer pm)
  unfolding handle_link_characteristics_response emit IsSound
  handle_link_characteristics_response-IsSound peer pm s =
      after _ (get_mac dlep.protocfg pm) _ λ mac _.
        after_with _ (λ r. IsSound dlep.client r.0) (handle_response dlep peer pm) _
          (handle_response-IsSound dlep peer pm s)
          (λ r s'.
            either_way (IsSound dlep.client) r.1 _ _
              (elim (Option-cases (map_find mac r.0.peer_pdp.destination_data)) [
                | inl e ↦ rw e (terminate-IsSound dlep r.0 _ _ s')
                | inr (dd, e) ↦ rw e (
                    after _ (get_data_items_no_mac dlep.protocfg pm) _ λ data_items _.
                      after_with _ (IsSound dlep.client) (update_known dlep r.0 mac dd data_items) _
                        (update_known-IsSound r.0 mac dd data_items e s')
                        (λ peer'' s''. value (IsSound dlep.client) _ s''))
              ])
              (value (IsSound dlep.client) _ s'))
