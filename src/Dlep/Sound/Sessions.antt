-- ===== src/Dlep/Sound/Sessions.antt =====
-- DlepServiceImpl.cpp: link characteristics, removals and the end of the service keep every session
-- sound and our own entry consistent.
use ll_dlep.Common.{
  ℕ, String, inl, inr, false, List, [], Option-cases, nat_key, string_key, bytes_key, AllValues,
  WhenOk, value, after, after_with,
}
use ll_dlep.DataItem.Types.{DataItem}
use ll_dlep.InfoBase.Removal.{remove_data_items-IsConsistent}
use ll_dlep.Message.CommonItems.{ClientConfig}
use ll_dlep.Peer.State.{Dlep}
use ll_dlep.Peer.Send.{link_characteristics_request, link_characteristics_response}
use ll_dlep.Peer.Sound.Send.{
  link_characteristics_request-IsSound, link_characteristics_response-IsSound,
}
use ll_dlep.Dlep.{DlepState, around, put_peer, find_id, find_peer}
use ll_dlep.Dlep.Places.{find_id-unplace, find_peer-some}
use ll_dlep.Dlep.Service.{update_local}
use ll_dlep.Dlep.Service.Sessions.{
  linkchar_request, linkchar_reply, peer_remove_data_items, terminate_service, terminate_each,
}
use ll_dlep.Dlep.Sound.{IsServing, place-IsSound}
use ll_dlep.Dlep.Sound.Local.{Serves, update_local-Serves, put_after-IsServing}

module _ (dlep : Dlep) where
  pub linkchar_request-Serves :
      (st : DlepState) (mac : List ℕ) (data_items : List DataItem)
      → IsServing dlep.client st
      → WhenOk (Serves dlep.client) (linkchar_request dlep st mac data_items)
  unfolding linkchar_request around
  linkchar_request-Serves st mac data_items s = elim (Option-cases (find_peer mac st.peers)) [
    | inl e ↦ rw (e, linkchar_request) (value _ _ s)
    | inr (place, e) ↦
        let placed = (find_peer-some mac st.peers place e).0 in
        let here = around dlep st place in
        let sent = link_characteristics_request here place.peer mac data_items in
        rw (e, linkchar_request)
          (after_with _ (λ q. IsServing dlep.client (put_peer st place q)) sent _
            (put_after-IsServing dlep st place sent placed
              (link_characteristics_request-IsSound here place.peer mac data_items
                (place-IsSound dlep.client st place placed s))
              s)
            λ q s'. value _ _ s')
  ]

  pub linkchar_reply-Serves :
      (st : DlepState) (peer_id : String) (mac : List ℕ) (data_items : List DataItem)
      → IsServing dlep.client st
      → WhenOk (Serves dlep.client) (linkchar_reply dlep st peer_id mac data_items)
  unfolding linkchar_reply around
  linkchar_reply-Serves st peer_id mac data_items s =
      elim (Option-cases (find_id peer_id st.peers)) [
        | inl e ↦ rw (e, linkchar_reply) (value _ _ s)
        | inr (place, e) ↦
            let placed = find_id-unplace peer_id st.peers place e in
            let here = around dlep st place in
            let sent = link_characteristics_response here place.peer mac data_items in
            rw (e, linkchar_reply)
              (after_with _ (λ q. IsServing dlep.client (put_peer st place q)) sent _
                (put_after-IsServing dlep st place sent placed
                  (link_characteristics_response-IsSound here place.peer mac data_items
                    (place-IsSound dlep.client st place placed s))
                  s)
                λ q s'.
                  after_with _ (Serves dlep.client)
                    (update_local dlep (put_peer st place q) mac data_items false) _
                    (update_local-Serves dlep (put_peer st place q) mac data_items false s')
                    λ r s''. value _ _ s'')
      ]

pub peer_remove_data_items-IsServing :
    (client : ClientConfig) (st : DlepState) (data_items : List DataItem)
    → IsServing client st
    → IsServing client (peer_remove_data_items st data_items).0
unfolding peer_remove_data_items IsServing
peer_remove_data_items-IsServing client st data_items s =
    (s.0, remove_data_items-IsConsistent st.local_pdp data_items s.1)

pub terminate_service-Serves :
    (dlep : Dlep) (st : DlepState)
    → IsServing dlep.client st
    → WhenOk (Serves dlep.client) (terminate_service dlep st)
unfolding terminate_service IsServing AllValues
terminate_service-Serves dlep st s =
    after _ (terminate_each dlep st.dest_advert [] st.peers st.local_pdp) _
      λ r _. value _ _ (tt, s.1)
