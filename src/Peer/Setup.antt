-- ===== src/Peer/Setup.antt =====
-- Peer.cpp: the heartbeat interval of a peer, and the state after its initialization.
use ll_dlep.Common.{
  ℕ, ◌+◌, ◌*◌, ◌/◌, ◌%◌, ◌^◌, ◌≤◌, ◌<◌, String, ◌≡◌, refl, ◌∙◌, ◌⊎◌, inl, inr, false, not, none,
  List, [], ◌∷◌, ◌++◌, arith, ltb, if◌then◌else◌, Option-cases, ok, str_eq, nat_key, string_key,
  bytes_key, if-elim, WhenOk, value, after, after_with, either_way,
}
use ll_dlep.DataItem.Types.{DataItem}
use ll_dlep.ProtocolConfig.Modules.{get_extension_ids}
use ll_dlep.InfoBase.Destination.{DestinationData, get_all_data_items}
use ll_dlep.InfoBase.PeerData.{get_needs_response, set_needs_response}
use ll_dlep.Message.Build.{ProtocolMessage}
use ll_dlep.Message.CommonItems.{add_common_data_items}
use ll_dlep.Message.Values.{get_extensions}
use ll_dlep.Peer.State.{PeerState, in_session, Peer, Dlep, emit, client_peer_up}
use ll_dlep.Peer.Responses.{if_not_present, set_state, send_session_message}
use ll_dlep.Peer.Send.{
  parse_built, destination_message, up_message_name, destination_up, get_info,
  send_each_destination, schedule_heartbeat, send_peer_initialization_response,
}
use ll_dlep.Peer.Addresses.{validate_ip_data_items}
use ll_dlep.Peer.Initialization.{
  divisor_of, interval_in_seconds, common_extensions, store_peer_description, session_up,
  advertise_peer, accept_peer_initialization, handle_peer_initialization,
}
use ll_dlep.Peer.Ending.{OnlySends, send_expecting_response-OnlySends}

nearest_thousand :
    (i : ℕ)
    → i + 500 < 2 ^ 32
    → (2000 * ((i + 500) % 2 ^ 32 / 1000) ≤ 2 * i + 1000)
      × (2 * i < 2000 * ((i + 500) % 2 ^ 32 / 1000) + 1000)
nearest_thousand i small = (omega arith, omega arith)

nearest_million :
    (i : ℕ)
    → i + 500000 < 2 ^ 32
    → (2000000 * ((i + 500000) % 2 ^ 32 / 1000000) ≤ 2 * i + 1000000)
      × (2 * i < 2000000 * ((i + 500000) % 2 ^ 32 / 1000000) + 1000000)
nearest_million i small = (omega arith, omega arith)

rounded :
    (d interval : ℕ)
    → (d ≡ 1) ⊎ (d ≡ 1000) ⊎ (d ≡ 1000000)
    → interval + d / 2 < 2 ^ 32
    → (2 * d * (if ltb 1 d then (interval + d / 2) % 2 ^ 32 / d else interval) ≤ 2 * interval + d)
      × (2 * interval < 2 * d * (if ltb 1 d then (interval + d / 2) % 2 ^ 32 / d else interval) + d)
rounded d interval (inl e) small = rw e (omega arith, omega arith)
rounded d interval (inr (inl e)) small = rw e (nearest_thousand interval (rw e at small))
rounded d interval (inr (inr e)) small = rw e (nearest_million interval (rw e at small))

-- How many of the configured units are a second. Units other than the two are seconds.
pub data UnitsPerSecond : String → ℕ → Type 0 where
  milliseconds : UnitsPerSecond "milliseconds" 1000
  microseconds : UnitsPerSecond "microseconds" 1000000
  seconds :
      {units : String}
      → str_eq units "milliseconds" ≡ false
      → str_eq units "microseconds" ≡ false
      → UnitsPerSecond units 1

UnitsPerSecond-cases :
    (units : String) (per_second : ℕ)
    → UnitsPerSecond units per_second
    → (divisor_of units ≡ per_second)
      × ((per_second ≡ 1) ⊎ (per_second ≡ 1000) ⊎ (per_second ≡ 1000000))
UnitsPerSecond-cases _ _ milliseconds = (refl, inr (inl refl))
UnitsPerSecond-cases _ _ microseconds = (refl, inr (inr refl))
UnitsPerSecond-cases units _ (seconds e e') = (rw (e, e') refl, inl refl)

-- The heartbeat interval in seconds is the nearest to the interval in the configured units, of which
-- 1000 are a second for milliseconds, 1000000 for microseconds and 1 for any other: they differ by
-- half a second at most. Condition: the interval, with half a second added in its units, is below
-- 2^32, which leaves out the last half second of the intervals of 32 bits, where the sum wraps
-- around.
pub interval_in_seconds_lem :
    (units : String) (per_second interval : ℕ)
    → UnitsPerSecond units per_second
    → interval + per_second / 2 < 2 ^ 32
    → (2 * per_second * interval_in_seconds units interval ≤ 2 * interval + per_second)
      × (2 * interval < 2 * per_second * interval_in_seconds units interval + per_second)
unfolding interval_in_seconds
interval_in_seconds_lem units per_second interval u small =
    let (same, cases) = UnitsPerSecond-cases units per_second u in
    rw same (rounded per_second interval cases small)

module _ (dlep : Dlep) where
  abbrev IsIn : PeerState → Peer → Type 0
  IsIn s p = p.pstate ≡ s

  destination_up-pstate :
      (peer : Peer) (mac : List ℕ) (data_items : List DataItem)
      → WhenOk (IsIn peer.pstate) (destination_up dlep peer mac data_items)
  unfolding destination_up send_session_message emit OnlySends
  destination_up-pstate peer mac data_items =
      let waiting = get_needs_response peer.peer_pdp mac in
      let is_response = not (str_eq waiting "") in
      let same : (if is_response
            then record peer { peer_pdp = set_needs_response peer.peer_pdp mac "" }
            else peer).pstate
          ≡ peer.pstate =
        if-elim (IsIn peer.pstate) is_response _ _ (λ _. refl) (λ _. refl) in
      after _
        (destination_message dlep (if is_response then waiting else up_message_name dlep) mac
          data_items)
        _
        λ pm _. after _ (add_common_data_items dlep.protocfg pm dlep.client) _ λ pm' _.
          after _ (parse_built dlep pm') _ λ pm'' _.
            either_way (IsIn peer.pstate) is_response _ _ (value (IsIn peer.pstate) _ same)
              (λ q e. (send_expecting_response-OnlySends dlep _ pm'' q e).0 ∙ same)

  send_each_destination-pstate :
      (peer : Peer) (dds : List (List ℕ × DestinationData))
      → WhenOk (IsIn peer.pstate) (send_each_destination dlep peer dds)
  unfolding send_each_destination
  send_each_destination-pstate peer [] = value (IsIn peer.pstate) _ refl
  send_each_destination-pstate peer ((mac, dd) ∷ dds) =
      after_with _ (IsIn peer.pstate) (destination_up dlep peer mac (get_all_data_items dd [])) _
        (destination_up-pstate peer mac (get_all_data_items dd []))
        (λ p same q e. send_each_destination-pstate p dds q e ∙ same)

  schedule_heartbeat-pstate : (peer : Peer) → IsIn peer.pstate (schedule_heartbeat dlep peer)
  unfolding schedule_heartbeat emit
  schedule_heartbeat-pstate peer =
      if-elim (IsIn peer.pstate) (ltb 0 dlep.client.heartbeat_interval) _ _ (λ _. refl) (λ _. refl)

  session_up-pstate :
      (peer : Peer) (data_items : List DataItem)
      → WhenOk (IsIn in_session) (session_up dlep peer data_items)
  unfolding session_up set_state emit
  session_up-pstate peer data_items =
      after_with _ (IsIn in_session)
        (send_each_destination dlep
          (emit (set_state peer in_session) (
            client_peer_up
              (record (get_info (set_state peer in_session)) { data_items = data_items })))
          dlep.local_pdp.destination_data)
        _ (send_each_destination-pstate _ dlep.local_pdp.destination_data)
        (λ p same. value (IsIn in_session) _ (schedule_heartbeat-pstate p ∙ same))

  advertise_peer-pstate : (peer : Peer) → IsIn peer.pstate (advertise_peer dlep peer)
  unfolding advertise_peer emit
  advertise_peer-pstate peer =
      if-elim (IsIn peer.pstate) dlep.dest_advert_enabled _ _
        (λ _. elim (Option-cases dlep.peer_mac_address) [
          | inl e ↦ rw e refl
          | inr (mac, e) ↦ rw e refl
        ])
        (λ _. refl)

  accept_peer_initialization-pstate :
      (peer : Peer) (pm : ProtocolMessage)
      → WhenOk (IsIn in_session) (accept_peer_initialization dlep peer pm)
  unfolding accept_peer_initialization
  accept_peer_initialization-pstate peer pm =
      after _ (store_peer_description dlep peer pm) _ λ peer1 _.
        after _ (if_not_present (get_extensions dlep.protocfg pm) []) _ λ theirs _.
          after _
            (send_peer_initialization_response dlep (record peer1 {
              mutual_extensions =
                  peer1.mutual_extensions
                  ++ common_extensions (get_extension_ids dlep.protocfg) theirs;
            }))
            _
            λ peer3 _.
              after_with _ (IsIn in_session) (session_up dlep peer3 (get_info peer3).data_items) _
                (session_up-pstate peer3 (get_info peer3).data_items)
                (λ peer4 same. value (IsIn in_session) _ (advertise_peer-pstate peer4 ∙ same))

  -- When handle_peer_initialization() returns for a message whose IP addresses are all allowed, the
  -- session is in session, whatever its state was before, terminating included.
  pub handle_peer_initialization-in_session :
      (peer q : Peer) (pm : ProtocolMessage)
      → validate_ip_data_items dlep peer pm.data_items [] ≡ ok none
      → handle_peer_initialization dlep peer pm ≡ ok q
      → q.pstate ≡ in_session
  unfolding handle_peer_initialization
  handle_peer_initialization-in_session peer q pm v h =
      accept_peer_initialization-pstate peer pm q (rw v at h)
