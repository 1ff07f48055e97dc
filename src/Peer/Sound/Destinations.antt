-- ===== src/Peer/Sound/Destinations.antt =====
-- Peer.cpp: the handlers of destinations that come up keep the session sound.
use ll_dlep.Common.{
  ℕ, String, inl, inr, Bool, true, false, not, ◌&&◌, some, List, [], if◌then◌else◌, Bool-cases,
  Option-cases, ok, str_eq, map_find, nat_key, string_key, bytes_key, WhenOk, value, after,
  after_with, either_way,
}
use ll_dlep.DataItem.Types.{DataItem}
use ll_dlep.ProtocolConfig.Modules.{get_message_response_name}
use ll_dlep.InfoBase.Destination.{get_all_data_items}
use ll_dlep.InfoBase.PeerData.{add_destination, valid_destination, set_needs_response}
use ll_dlep.InfoBase.Destinations.{add_destination_lem}
use ll_dlep.InfoBase.Consistency.{set_needs_response-IsConsistent}
use ll_dlep.Message.Build.{ProtocolMessage, message_name}
use ll_dlep.Message.Values.{get_mac, get_status}
use ll_dlep.Peer.State.{Peer, Dlep, emit}
use ll_dlep.Peer.Responses.{if_not_present, not_interested, handle_response}
use ll_dlep.Peer.Addresses.{validate_ip_data_items}
use ll_dlep.Peer.Destinations.{
  interested_again, ask_client, add_to_peer, accept_destination_up, respond_if_needed,
  handle_destination_up, handle_destination_up_response, answer_announce, accept_announce,
  handle_destination_announce,
}
use ll_dlep.Peer.Sound.{IsSound}
use ll_dlep.Peer.Sound.Responses.{
  terminate-IsSound, handle_response-IsSound, send_simple_response-IsSound,
}
use ll_dlep.Peer.Sound.Send.{destination_up-IsSound}

module _ (dlep : Dlep) where
  add_to_peer-IsSound :
      (peer : Peer) (mac : List ℕ) (data_items : List DataItem)
      → IsSound dlep.client peer
      → WhenOk (IsSound dlep.client) (add_to_peer dlep peer mac data_items)
  unfolding add_to_peer IsSound
  add_to_peer-IsSound peer mac data_items s =
      after _ (add_destination dlep.protocfg peer.peer_pdp mac data_items false) _ λ r e.
        value _ _ (
          s.0,
          (add_destination_lem dlep.protocfg peer.peer_pdp r.0 mac data_items false r.1 r.2 e).4
              s.1,
        )

  interested_again-IsSound :
      (peer : Peer) (mac : List ℕ)
      → IsSound dlep.client peer
      → IsSound dlep.client (interested_again peer mac)
  unfolding interested_again IsSound
  interested_again-IsSound peer mac s = s

  ask_client-IsSound :
      (peer : Peer) (mac : List ℕ) (data_items : List DataItem)
      → IsSound dlep.client peer
      → IsSound dlep.client (ask_client dlep peer mac data_items).0
  unfolding ask_client emit IsSound
  ask_client-IsSound peer mac data_items s = s

  accept_destination_up-IsSound :
      (peer : Peer) (mac : List ℕ) (data_items : List DataItem)
      → IsSound dlep.client peer
      → WhenOk (λ r. IsSound dlep.client r.0) (accept_destination_up dlep peer mac data_items)
  unfolding accept_destination_up
  accept_destination_up-IsSound peer mac data_items s =
      let (asked, statusname) = ask_client dlep (interested_again peer mac) mac data_items in
      let s' =
        ask_client-IsSound (interested_again peer mac) mac data_items
          (interested_again-IsSound peer mac s) in
      after_with _ (IsSound dlep.client)
        (if str_eq statusname "Success" then add_to_peer dlep asked mac data_items else ok asked) _
        (either_way _ (str_eq statusname "Success") _ _
          (add_to_peer-IsSound asked mac data_items s') (value _ _ s'))
        (λ peer' s''. value _ _ s'')

  respond_if_needed-IsSound :
      (pm : ProtocolMessage) (peer : Peer) (statusname : String) (mac : List ℕ)
      → IsSound dlep.client peer
      → WhenOk (IsSound dlep.client) (respond_if_needed dlep pm peer statusname mac)
  unfolding respond_if_needed
  respond_if_needed-IsSound pm peer statusname mac s =
      after _ (message_name dlep.protocfg pm) _ λ name _.
        after _ (get_message_response_name dlep.protocfg name) _ λ response_name _.
          either_way _ (str_eq response_name "") _ _ (value _ _ s)
            (send_simple_response-IsSound dlep peer response_name statusname (some mac) s)

  pub handle_destination_up-IsSound :
      (peer : Peer) (pm : ProtocolMessage)
      → IsSound dlep.client peer
      → WhenOk (IsSound dlep.client) (handle_destination_up dlep peer pm)
  unfolding handle_destination_up
  handle_destination_up-IsSound peer pm s = after _ (get_mac dlep.protocfg pm) _ λ mac _.
      elim (Bool-cases (valid_destination peer.peer_pdp mac)) [
        | inl e ↦ rw e (respond_if_needed-IsSound pm peer "Invalid_Message" mac s)
        | inr e ↦ rw e (
            after _ (validate_ip_data_items dlep peer pm.data_items []) _ (λ problem _.
              elim (Option-cases problem) [
                | inr (p, e1) ↦ rw e1 (terminate-IsSound dlep peer _ _ s)
                | inl e1 ↦ rw e1 (
                    after_with _ (λ r. IsSound dlep.client r.0)
                      (accept_destination_up dlep peer mac pm.data_items) _
                      (accept_destination_up-IsSound peer mac pm.data_items s)
                      (λ r s'. respond_if_needed-IsSound pm r.0 r.1 mac s'))
              ]))
      ]

  not_interested-IsSound :
      (peer : Peer) (mac : List ℕ) (b : Bool)
      → IsSound dlep.client peer
      → IsSound dlep.client (if b then not_interested peer mac else peer)
  unfolding not_interested IsSound
  not_interested-IsSound peer mac true s = s
  not_interested-IsSound peer mac false s = s

  pub handle_destination_up_response-IsSound :
      (peer : Peer) (pm : ProtocolMessage)
      → IsSound dlep.client peer
      → WhenOk (IsSound dlep.client) (handle_destination_up_response dlep peer pm)
  unfolding handle_destination_up_response
  handle_destination_up_response-IsSound peer pm s = after _ (get_mac dlep.protocfg pm) _ λ mac _.
      after_with _ (λ r. IsSound dlep.client r.0) (handle_response dlep peer pm) _
        (handle_response-IsSound dlep peer pm s)
        (λ r s'.
          either_way _ r.1 _ _
            (after _ (if_not_present (get_status dlep.protocfg pm) "Success") _ λ name _.
              let s'' = not_interested-IsSound r.0 mac (str_eq name "Not_Interested") s' in
              either_way _ (str_eq name "Success" && not dlep.is_modem) _ _
                (handle_destination_up-IsSound _ pm s'') (value _ _ s''))
            (value _ _ s'))

  owes-IsSound :
      (peer : Peer) (mac : List ℕ) (response_name : String)
      → IsSound dlep.client peer
      → IsSound dlep.client
          (record peer { peer_pdp = set_needs_response peer.peer_pdp mac response_name })
  unfolding IsSound
  owes-IsSound peer mac response_name s =
      (s.0, set_needs_response-IsConsistent peer.peer_pdp mac response_name s.1)

  answer_announce-IsSound :
      (peer : Peer) (response_name statusname : String) (mac : List ℕ)
      → IsSound dlep.client peer
      → WhenOk (IsSound dlep.client) (answer_announce dlep peer response_name statusname mac)
  unfolding answer_announce
  answer_announce-IsSound peer response_name statusname mac s =
      either_way _ (str_eq statusname "Success") _ _
        (value _ _ (owes-IsSound peer mac response_name s))
        (send_simple_response-IsSound dlep peer response_name statusname (some mac) s)

  accept_announce-IsSound :
      (peer : Peer) (response_name : String) (mac : List ℕ) (data_items : List DataItem)
      → IsSound dlep.client peer
      → WhenOk (IsSound dlep.client) (accept_announce dlep peer response_name mac data_items)
  unfolding accept_announce
  accept_announce-IsSound peer response_name mac data_items s =
      after_with _ (IsSound dlep.client)
        (add_to_peer dlep (interested_again peer mac) mac data_items) _
        (add_to_peer-IsSound _ mac data_items (interested_again-IsSound peer mac s))
        (λ peer' s'. elim (Option-cases (map_find mac dlep.local_pdp.destination_data)) [
          | inr (dd, e) ↦ rw e (
              destination_up-IsSound dlep _ mac (get_all_data_items dd [])
                (owes-IsSound peer' mac response_name s'))
          | inl e ↦ rw e (
              answer_announce-IsSound _ response_name (ask_client dlep peer' mac data_items).1 mac
                (ask_client-IsSound peer' mac data_items s'))
        ])

  pub handle_destination_announce-IsSound :
      (peer : Peer) (pm : ProtocolMessage)
      → IsSound dlep.client peer
      → WhenOk (IsSound dlep.client) (handle_destination_announce dlep peer pm)
  unfolding handle_destination_announce
  handle_destination_announce-IsSound peer pm s = after _ (get_mac dlep.protocfg pm) _ λ mac _.
      after _ (message_name dlep.protocfg pm) _ λ name _.
        after _ (get_message_response_name dlep.protocfg name) _ λ response_name _.
          elim (Bool-cases (valid_destination peer.peer_pdp mac)) [
            | inl e ↦ rw e (answer_announce-IsSound peer response_name "Invalid_Message" mac s)
            | inr e ↦ rw e (accept_announce-IsSound peer response_name mac pm.data_items s)
          ]
