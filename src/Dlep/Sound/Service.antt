-- ===== src/Dlep/Sound/Service.antt =====
-- DlepServiceImpl.cpp: the operations of the service keep every session sound and our own entry
-- consistent.
use ll_dlep.Common.{
  ℕ, ◌≡◌, inl, inr, true, Option, none, some, List, Option-cases, nat_key, string_key, bytes_key,
  WhenOk, value, after, after_with, either_way,
}
use ll_dlep.DataItem.Types.{DataItem}
use ll_dlep.InfoBase.PeerData.{remove_destination, update_data_items}
use ll_dlep.InfoBase.PeerUpdates.{update_data_items-IsConsistent}
use ll_dlep.InfoBase.Consistency.{remove_destination-IsConsistent}
use ll_dlep.Peer.State.{Dlep}
use ll_dlep.Peer.Sound.{IsSound}
use ll_dlep.DestAdvert.{down, up, DestAdvertDbEntry, find_advert_entry}
use ll_dlep.Dlep.{DlepState, PeerPlace, put_peer, find_peer, tell_peers}
use ll_dlep.Dlep.Places.{unplace, find_peer-some}
use ll_dlep.Dlep.Service.{
  ok_status, destination_exists, add_local, update_local, remove_local, add_each_local,
  update_each_local, remove_each_local, set_entry_state, set_entry_data_items, advertised_up,
  destination_up, advertised_update, destination_update, remove_from_peer, remove_theirs,
  remove_anywhere, advertised_down, destination_down, peer_update,
}
use ll_dlep.Dlep.Sound.{IsServing, place-IsSound, put_peer-IsServing, tell_peers-IsServing}
use ll_dlep.Dlep.Sound.Local.{
  Serves, local_pdp-IsServing, local_pdp-IsConsistent, set_entry_state-IsServing,
  set_entry_data_items-IsServing, by_state, add_local-Serves, update_local-Serves,
  remove_local-Serves, add_each_local-IsServing, update_each_local-IsServing,
  remove_each_local-Serves, update_theirs-Serves,
}

module _ (dlep : Dlep) where
  advertised_up-Serves :
      (st : DlepState) (mac : List ℕ) (data_items : List DataItem)
      (found : Option DestAdvertDbEntry)
      → IsServing dlep.client st
      → WhenOk (Serves dlep.client) (advertised_up dlep st mac data_items found)
  unfolding advertised_up IsServing
  advertised_up-Serves st mac data_items none s = value _ _ s
  advertised_up-Serves st mac data_items (some entry) s =
      let st' = set_entry_data_items st mac data_items in
      let s' = set_entry_data_items-IsServing dlep.client st mac data_items s in
      by_state entry.estate (value _ (st', destination_exists) s') (
        after_with _ (IsServing dlep.client)
          (add_each_local dlep st' entry.info.destinations data_items) _
          (add_each_local-IsServing dlep st' entry.info.destinations data_items s')
          λ st'' s''.
            value _ (set_entry_state st'' mac up, ok_status)
              (set_entry_state-IsServing dlep.client st'' mac up s''))

  pub destination_up-Serves :
      (st : DlepState) (mac : List ℕ) (data_items : List DataItem)
      → IsServing dlep.client st
      → WhenOk (Serves dlep.client) (destination_up dlep st mac data_items)
  unfolding destination_up
  destination_up-Serves st mac data_items s =
      either_way _ dlep.dest_advert_enabled _ _
        (advertised_up-Serves st mac data_items (find_advert_entry st.dest_advert mac) s)
        (after_with _ (Serves dlep.client) (add_local dlep st mac data_items) _
          (add_local-Serves dlep st mac data_items s) λ r s'. value _ _ s')

  advertised_update-Serves :
      (st : DlepState) (mac : List ℕ) (data_items : List DataItem)
      (found : Option DestAdvertDbEntry)
      → IsServing dlep.client st
      → WhenOk (Serves dlep.client) (advertised_update dlep st mac data_items found)
  unfolding advertised_update
  advertised_update-Serves st mac data_items none s = update_theirs-Serves dlep st mac data_items s
  advertised_update-Serves st mac data_items (some entry) s =
      let st' = set_entry_data_items st mac data_items in
      let s' = set_entry_data_items-IsServing dlep.client st mac data_items s in
      by_state entry.estate
        (after_with _ (IsServing dlep.client)
          (update_each_local dlep st' entry.info.destinations data_items) _
          (update_each_local-IsServing dlep st' entry.info.destinations data_items s')
          λ st'' s''. value _ (st'', ok_status) s'')
        (value _ (st', ok_status) s')

  pub destination_update-Serves :
      (st : DlepState) (mac : List ℕ) (data_items : List DataItem)
      → IsServing dlep.client st
      → WhenOk (Serves dlep.client) (destination_update dlep st mac data_items)
  unfolding destination_update
  destination_update-Serves st mac data_items s =
      either_way _ dlep.dest_advert_enabled _ _
        (advertised_update-Serves st mac data_items (find_advert_entry st.dest_advert mac) s)
        (after_with _ (Serves dlep.client) (update_local dlep st mac data_items true) _
          (update_local-Serves dlep st mac data_items true s)
          λ r s'.
            either_way _ r.1 _ _ (value _ _ s') (update_theirs-Serves dlep r.0 mac data_items s'))

  remove_from_peer-IsServing :
      (st : DlepState) (place : PeerPlace) (mac : List ℕ) (data_items : List DataItem)
      → st.peers ≡ unplace place
      → IsServing dlep.client st
      → WhenOk (IsServing dlep.client) (remove_from_peer dlep st place mac data_items)
  unfolding remove_from_peer IsSound
  remove_from_peer-IsServing st place mac data_items placed s =
      let r = remove_destination place.peer.peer_pdp mac true data_items in
      let sound = place-IsSound dlep.client st place placed s in
      let q = record place.peer { peer_pdp = r.0 } in
      tell_peers-IsServing dlep (put_peer st place q) r.2 (
        put_peer-IsServing dlep.client st place q placed
          (sound.0, remove_destination-IsConsistent place.peer.peer_pdp mac true data_items sound.1)
          s)

  remove_theirs-Serves :
      (st : DlepState) (mac : List ℕ) (data_items : List DataItem)
      → IsServing dlep.client st
      → WhenOk (Serves dlep.client) (remove_theirs dlep st mac data_items)
  unfolding remove_theirs
  remove_theirs-Serves st mac data_items s = elim (Option-cases (find_peer mac st.peers)) [
    | inl e ↦ rw (e, remove_theirs) (value _ _ s)
    | inr (place, e) ↦
        rw (e, remove_theirs)
          (after_with _ (IsServing dlep.client) (remove_from_peer dlep st place mac data_items) _
            (remove_from_peer-IsServing st place mac data_items
              (find_peer-some mac st.peers place e).0 s)
            λ st' s'. value _ _ s')
  ]

  remove_anywhere-Serves :
      (st : DlepState) (mac : List ℕ) (data_items : List DataItem)
      → IsServing dlep.client st
      → WhenOk (Serves dlep.client) (remove_anywhere dlep st mac data_items)
  unfolding remove_anywhere
  remove_anywhere-Serves st mac data_items s =
      after_with _ (Serves dlep.client) (remove_local dlep st mac data_items) _
        (remove_local-Serves dlep st mac data_items s)
        λ r s'. either_way _ r.1 _ _ (value _ _ s') (remove_theirs-Serves r.0 mac data_items s')

  advertised_down-Serves :
      (st : DlepState) (mac : List ℕ) (data_items : List DataItem)
      (found : Option DestAdvertDbEntry)
      → IsServing dlep.client st
      → WhenOk (Serves dlep.client) (advertised_down dlep st mac data_items found)
  unfolding advertised_down
  advertised_down-Serves st mac data_items none s = remove_anywhere-Serves st mac data_items s
  advertised_down-Serves st mac data_items (some entry) s =
      by_state entry.estate
        (after_with _ (Serves dlep.client)
          (remove_each_local dlep st entry.info.destinations data_items) _
          (remove_each_local-Serves dlep st entry.info.destinations data_items s)
          λ r s'. value _ _ (set_entry_state-IsServing dlep.client r.0 mac down s'))
        (value _ (st, ok_status) s)

  pub destination_down-Serves :
      (st : DlepState) (mac : List ℕ) (data_items : List DataItem)
      → IsServing dlep.client st
      → WhenOk (Serves dlep.client) (destination_down dlep st mac data_items)
  unfolding destination_down
  destination_down-Serves st mac data_items s =
      either_way _ dlep.dest_advert_enabled _ _
        (advertised_down-Serves st mac data_items (find_advert_entry st.dest_advert mac) s)
        (remove_anywhere-Serves st mac data_items s)

  pub peer_update-Serves :
      (st : DlepState) (data_items : List DataItem)
      → IsServing dlep.client st
      → WhenOk (Serves dlep.client) (peer_update dlep st data_items)
  unfolding peer_update
  peer_update-Serves st data_items s =
      after _ (update_data_items dlep.protocfg st.local_pdp data_items true) _ λ r e.
        let c =
          update_data_items-IsConsistent dlep.protocfg st.local_pdp r.0 r.1 r.2 data_items true
            (local_pdp-IsConsistent dlep.client st s) e in
        after_with _ (IsServing dlep.client) (tell_peers dlep (record st { local_pdp = r.0 }) r.2) _
          (tell_peers-IsServing dlep (record st { local_pdp = r.0 }) r.2
            (local_pdp-IsServing dlep.client st r.0 c s))
          λ st' s'. value _ _ s'
