-- ===== src/Dlep/Service/Sessions.antt =====
-- DlepServiceImpl.cpp: link characteristics, the end of the service, and what the client may ask.
use ll_dlep.Common.{
  ℕ, String, false, none, some, List, [], ◌∷◌, ◌++◌, if◌then◌else◌, length, drop, Result, ok, ◌>>=◌,
  map_find, nat_key, string_key, bytes_key,
}
use ll_dlep.DataItem.Types.{DataItem}
use ll_dlep.InfoBase.Destination.{get_all_data_items}
use ll_dlep.InfoBase.PeerData.{PeerData, remove_data_items}
use ll_dlep.Peer.State.{no_reason, Peer, Dlep, PeerInfo}
use ll_dlep.Peer.Responses.{terminate}
use ll_dlep.Peer.Send.{get_info, link_characteristics_request, link_characteristics_response}
use ll_dlep.DestAdvert.{DestAdvert}
use ll_dlep.Dlep.{DlepState, known_of, around, apply_events, put_peer, find_id, find_peer}
use ll_dlep.Dlep.Service.{
  ReturnStatus, ok_status, destination_does_not_exist, peer_does_not_exist, update_local,
}

-- DestinationInfo of the client's interface.
pub record DestinationInfo : Type 0 where
  pub peer_id : String
  pub flags : ℕ
  pub mac_address : List ℕ
  pub data_items : List DataItem

module _ (dlep : Dlep) where
  unfoldable pub linkchar_request :
      DlepState → List ℕ → List DataItem → Result (DlepState × ReturnStatus)
  linkchar_request st mac data_items = elim (find_peer mac st.peers) [
    | none ↦ ok (st, peer_does_not_exist)
    | some place ↦ do
      peer ← link_characteristics_request (around dlep st place) place.peer mac data_items
      ok (put_peer st place peer, ok_status)
  ]

  unfoldable pub linkchar_reply :
      DlepState → String → List ℕ → List DataItem → Result (DlepState × ReturnStatus)
  linkchar_reply st peer_id mac data_items = elim (find_id peer_id st.peers) [
    | none ↦ ok (st, peer_does_not_exist)
    | some place ↦ do
      peer ← link_characteristics_response (around dlep st place) place.peer mac data_items
      (st', updated) ← update_local dlep (put_peer st place peer) mac data_items false
      ok (st', if updated then ok_status else destination_does_not_exist)
  ]

  -- The loop of terminate().
  unfoldable pub terminate_each :
      DestAdvert
      → List (String × Peer)
      → List (String × Peer)
      → PeerData
      → Result (DestAdvert × List (String × Peer))
  terminate_each da done [] pdp = ok (da, done)
  terminate_each da done ((id, p) ∷ rest) pdp = do
    let here = record dlep {
      local_pdp = pdp;
      peers_before = known_of done;
      peers_after = known_of rest;
    }
    p' ← terminate here p "Success" no_reason
    terminate_each (apply_events da (drop (length p.events) p'.events)) (done ++ ((id, p') ∷ []))
        rest pdp

-- terminate() without the end of the threads, with the sessions at their end.
unfoldable pub terminate_service : Dlep → DlepState → Result (DlepState × List (String × Peer))
terminate_service dlep st = do
  (da, done) ← terminate_each dlep st.dest_advert [] st.peers st.local_pdp
  ok (record st { peers = []; dest_advert = da }, done)

unfoldable pub peer_remove_data_items : DlepState → List DataItem → DlepState × ReturnStatus
peer_remove_data_items st data_items =
    (record st { local_pdp = remove_data_items st.local_pdp data_items }, ok_status)

-- get_peers(), appended to `peers`.
unfoldable pub get_peers : List (String × Peer) → List String → List String
get_peers [] out = out
get_peers ((id, p) ∷ rest) out = get_peers rest (out ++ (p.peer_id ∷ []))

-- The destinations are appended to those of the caller.
unfoldable pub get_peer_info : DlepState → String → PeerInfo → ReturnStatus × PeerInfo
get_peer_info st peer_id peer_info = elim (find_id peer_id st.peers) [
  | none ↦ (peer_does_not_exist, peer_info)
  | some place ↦ (
    ok_status,
    record (get_info place.peer) {
      destinations = peer_info.destinations ++ (get_info place.peer).destinations;
    },
  )
]

-- The data items are appended to those of the caller.
unfoldable pub get_destination_info :
    DlepState → String → List ℕ → DestinationInfo → ReturnStatus × DestinationInfo
get_destination_info st peer_id mac dest_info = elim (find_id peer_id st.peers) [
  | none ↦ (peer_does_not_exist, dest_info)
  | some place ↦ elim (map_find mac place.peer.peer_pdp.destination_data) [
    | none ↦ (destination_does_not_exist, dest_info)
    | some dd ↦ (
      ok_status,
      record {
        peer_id = peer_id;
        flags = 0;
        mac_address = mac;
        data_items = get_all_data_items dd dest_info.data_items;
      },
    )
  ]
]
