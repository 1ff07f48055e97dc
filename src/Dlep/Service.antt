-- ===== src/Dlep/Service.antt =====
-- DlepServiceImpl.cpp: the operations of the service. Each of them holds `dlep->mutex` throughout.
use ll_dlep.Common.{
  ℕ, String, Bool, true, false, ◌&&◌, Option, none, some, List, [], ◌∷◌, ◌++◌, if◌then◌else◌,
  length, drop, Result, ok, ◌>>=◌, map_find, nat_key, string_key, bytes_key,
}
use ll_dlep.DataItem.Types.{DataItem}
use ll_dlep.InfoBase.Destination.{get_all_data_items}
use ll_dlep.InfoBase.PeerData.{
  PeerData, UpdateStatus, success, invalid_message, add_destination, update_destination,
  remove_destination, update_data_items, remove_data_items,
}
use ll_dlep.Peer.State.{no_reason, Peer, Dlep, PeerInfo}
use ll_dlep.Peer.Responses.{terminate}
use ll_dlep.Peer.Send.{get_info, link_characteristics_request, link_characteristics_response}
use ll_dlep.Peer.Send
use ll_dlep.DestAdvert.{
  EntryState, down, up, DestAdvert, DestAdvertDbEntry, add_advert_entry, find_advert_entry,
  update_advert_entry_data_items, update_advert_entry_state,
}
use ll_dlep.Dlep.{
  DlepState, PeerPlace, known_of, around, apply_events, put_peer, find_id, find_peer, tell_peers,
}
pub mod Sessions

-- DlepService::ReturnStatus.
pub data ReturnStatus : Type 0 where
  ok_status invalid_data_item invalid_mac_address destination_exists : ReturnStatus
  destination_does_not_exist peer_does_not_exist : ReturnStatus

unfoldable pub set_entry_state : DlepState → List ℕ → EntryState → DlepState
set_entry_state st mac estate = record st {
  dest_advert = update_advert_entry_state st.dest_advert mac estate;
}

unfoldable pub set_entry_data_items : DlepState → List ℕ → List DataItem → DlepState
set_entry_data_items st mac data_items = record st {
  dest_advert = update_advert_entry_data_items st.dest_advert mac data_items;
}

-- What peer_update() makes of the status of the information base.
abbrev pub update_result : UpdateStatus → ReturnStatus
update_result success = ok_status
update_result invalid_message = invalid_data_item

module _ (dlep : Dlep) where
  -- `local_pdp->addDestination(mac, data_items, true)`.
  unfoldable pub add_local : DlepState → List ℕ → List DataItem → Result (DlepState × Bool)
  add_local st mac data_items = do
    (pdp, added, calls) ← add_destination dlep.protocfg st.local_pdp mac data_items true
    st' ← tell_peers dlep (record st { local_pdp = pdp }) calls
    ok (st', added)

  unfoldable pub update_local :
      DlepState → List ℕ → List DataItem → Bool → Result (DlepState × Bool)
  update_local st mac data_items telling = do
    (pdp, updated, calls) ← update_destination dlep.protocfg st.local_pdp mac data_items telling
    st' ← tell_peers dlep (record st { local_pdp = pdp }) calls
    ok (st', updated)

  unfoldable pub remove_local : DlepState → List ℕ → List DataItem → Result (DlepState × Bool)
  remove_local st mac data_items = do
    let (pdp, removed, calls) = remove_destination st.local_pdp mac true data_items
    st' ← tell_peers dlep (record st { local_pdp = pdp }) calls
    ok (st', removed)

  -- The loops over the destinations of an advertisement. The last one says whether we had all.
  unfoldable pub add_each_local : DlepState → List (List ℕ) → List DataItem → Result DlepState
  add_each_local st [] data_items = ok st
  add_each_local st (dest ∷ dests) data_items = do
    (st', added) ← add_local st dest data_items
    add_each_local st' dests data_items

  unfoldable pub update_each_local : DlepState → List (List ℕ) → List DataItem → Result DlepState
  update_each_local st [] data_items = ok st
  update_each_local st (dest ∷ dests) data_items = do
    (st', updated) ← update_local st dest data_items true
    update_each_local st' dests data_items

  unfoldable pub remove_each_local :
      DlepState → List (List ℕ) → List DataItem → Result (DlepState × Bool)
  remove_each_local st [] data_items = ok (st, true)
  remove_each_local st (dest ∷ dests) data_items = do
    (st', removed) ← remove_local st dest data_items
    (st'', rest) ← remove_each_local st' dests data_items
    ok (st'', removed && rest)

  -- An entry for an RF ID that was not heard of yet.
  unfoldable pub placeholder_entry : List DataItem → DestAdvertDbEntry
  placeholder_entry data_items = record {
    timestamp = dlep.time;
    estate = up;
    placeholder = true;
    info = record { report_interval = 0; destinations = [] };
    data_items = data_items;
  }

  -- The branch of destination_up() with destination advertisement.
  unfoldable pub advertised_up :
      DlepState
      → List ℕ
      → List DataItem
      → Option DestAdvertDbEntry
      → Result (DlepState × ReturnStatus)
  advertised_up st mac data_items none = ok (
    record st { dest_advert = add_advert_entry st.dest_advert mac (placeholder_entry data_items) },
    ok_status,
  )
  advertised_up st mac data_items (some entry) =
      let st' = set_entry_data_items st mac data_items in
      elim entry.estate [
        | up ↦ ok (st', destination_exists)
        | down ↦ do
          st'' ← add_each_local st' entry.info.destinations data_items
          ok (set_entry_state st'' mac up, ok_status)
      ]

  unfoldable pub destination_up :
      DlepState → List ℕ → List DataItem → Result (DlepState × ReturnStatus)
  destination_up st mac data_items =
      if dlep.dest_advert_enabled
      then advertised_up st mac data_items (find_advert_entry st.dest_advert mac)
      else (do
        (st', added) ← add_local st mac data_items
        ok (st', if added then ok_status else destination_exists))

  -- The end of destination_update(): the update may be for the destination of a peer.
  unfoldable pub update_theirs :
      DlepState → List ℕ → List DataItem → Result (DlepState × ReturnStatus)
  update_theirs st mac data_items = elim (find_peer mac st.peers) [
    | none ↦ ok (st, destination_does_not_exist)
    | some place ↦ do
      peer ← ll_dlep.Peer.Send.destination_update (around dlep st place) place.peer mac data_items
      ok (put_peer st place peer, ok_status)
  ]

  unfoldable pub advertised_update :
      DlepState
      → List ℕ
      → List DataItem
      → Option DestAdvertDbEntry
      → Result (DlepState × ReturnStatus)
  advertised_update st mac data_items none = update_theirs st mac data_items
  advertised_update st mac data_items (some entry) =
      let st' = set_entry_data_items st mac data_items in
      elim entry.estate [
        | down ↦ ok (st', ok_status)
        | up ↦ do
          st'' ← update_each_local st' entry.info.destinations data_items
          ok (st'', ok_status)
      ]

  unfoldable pub destination_update :
      DlepState → List ℕ → List DataItem → Result (DlepState × ReturnStatus)
  destination_update st mac data_items =
      if dlep.dest_advert_enabled
      then advertised_update st mac data_items (find_advert_entry st.dest_advert mac)
      else (do
        (st', updated) ← update_local st mac data_items true
        if updated then ok (st', ok_status) else update_theirs st' mac data_items)

  -- Peer::remove_destination().
  unfoldable pub remove_from_peer :
      DlepState → PeerPlace → List ℕ → List DataItem → Result DlepState
  remove_from_peer st place mac data_items =
      let (pdp, removed, calls) = remove_destination place.peer.peer_pdp mac true data_items in
      tell_peers dlep (put_peer st place (record place.peer { peer_pdp = pdp })) calls

  -- The end of destination_down(): the destination may be one of a peer.
  unfoldable pub remove_theirs :
      DlepState → List ℕ → List DataItem → Result (DlepState × ReturnStatus)
  remove_theirs st mac data_items = elim (find_peer mac st.peers) [
    | none ↦ ok (st, destination_does_not_exist)
    | some place ↦ do st' ← remove_from_peer st place mac data_items; ok (st', ok_status)
  ]

  unfoldable pub remove_anywhere :
      DlepState → List ℕ → List DataItem → Result (DlepState × ReturnStatus)
  remove_anywhere st mac data_items = do
    (st', removed) ← remove_local st mac data_items
    if removed then ok (st', ok_status) else remove_theirs st' mac data_items

  unfoldable pub advertised_down :
      DlepState
      → List ℕ
      → List DataItem
      → Option DestAdvertDbEntry
      → Result (DlepState × ReturnStatus)
  advertised_down st mac data_items none = remove_anywhere st mac data_items
  advertised_down st mac data_items (some entry) = elim entry.estate [
    | down ↦ ok (st, ok_status)
    | up ↦ do
      (st', all) ← remove_each_local st entry.info.destinations data_items
      ok (set_entry_state st' mac down, if all then ok_status else destination_does_not_exist)
  ]

  unfoldable pub destination_down :
      DlepState → List ℕ → List DataItem → Result (DlepState × ReturnStatus)
  destination_down st mac data_items =
      if dlep.dest_advert_enabled
      then advertised_down st mac data_items (find_advert_entry st.dest_advert mac)
      else remove_anywhere st mac data_items

  unfoldable pub peer_update : DlepState → List DataItem → Result (DlepState × ReturnStatus)
  peer_update st data_items = do
    (pdp, status, calls) ← update_data_items dlep.protocfg st.local_pdp data_items true
    st' ← tell_peers dlep (record st { local_pdp = pdp }) calls
    ok (st', update_result status)
