-- ===== src/Dlep/Sound/Runs.antt =====
-- Dlep.cpp, DlepServiceImpl.cpp: every state of the service is one in which all sessions are sound.
use ll_dlep.Common.{
  ℕ, sym, inl, inr, true, List, [], ◌∷◌, Bool-cases, nat_key, string_key, bytes_key, AllValues,
  WhenOk, value, after, after_with,
}
use mathlib.Core.Path.{subst}
use ll_dlep.ProtocolConfig.{ProtocolConfig}
use ll_dlep.InfoBase.PeerData.{PeerData, new_peer, remove_destination}
use ll_dlep.InfoBase.PeerUpdates.{IsConsistent}
use ll_dlep.InfoBase.Consistency.{remove_destination-IsConsistent}
use ll_dlep.InfoBase.Removal.{new_peer-IsConsistent}
use ll_dlep.Message.CommonItems.{ClientConfig}
use ll_dlep.Peer.State.{Dlep}
use ll_dlep.Peer.Receive.{SocketError, no_error, message_size, operation_aborted, eof, other_error}
use ll_dlep.Peer.Sound.Receive.{
  handle_session_receive-IsSound, handle_heartbeat_timeout-IsSound,
  handle_acktivity_timeout-IsSound,
}
use ll_dlep.DestAdvert.{
  DestAdvert, DestAdvertDb, PurgeConfig, is_up, is_overdue, is_expired, remove_each, purge,
  handle_purge_advert_timeout,
}
use ll_dlep.Dlep.{DlepState, around, tell_peers, initial_local_data_items, initialize}
use ll_dlep.Dlep.Places.{find_id-unplace}
use ll_dlep.Dlep.Runs.{
  purge_adverts, DlepStep, peer_made, bytes_received, heartbeat_due, acktivity_due, ex_peers_due,
  purge_due, up_asked, update_asked, down_asked, peer_update_asked, removal_asked, request_asked,
  reply_asked, end_asked, IsServed, initialized, stepped,
}
use ll_dlep.Dlep.Sound.{
  IsServing, place-IsSound, put_peer-IsServing, tell_peers-IsServing, cleanup_ex_peers-IsSound,
  handle_async_make_peer-IsServing,
}
use ll_dlep.Dlep.Sound.Service.{
  destination_up-Serves, destination_update-Serves, destination_down-Serves, peer_update-Serves,
}
use ll_dlep.Dlep.Sound.Sessions.{
  linkchar_request-Serves, linkchar_reply-Serves, peer_remove_data_items-IsServing,
  terminate_service-Serves,
}

remove_each-IsConsistent :
    (pdp : PeerData) (macs : List (List ℕ))
    → IsConsistent pdp
    → IsConsistent (remove_each pdp macs).0
unfolding remove_each
remove_each-IsConsistent pdp [] c = c
remove_each-IsConsistent pdp (mac ∷ macs) c =
    remove_each-IsConsistent (remove_destination pdp mac true []).0 macs
      (remove_destination-IsConsistent pdp mac true [] c)

purge-IsConsistent :
    (cfg : PurgeConfig) (now : ℕ) (pdp : PeerData) (db : DestAdvertDb)
    → IsConsistent pdp
    → IsConsistent (purge cfg now pdp db).1
unfolding purge
purge-IsConsistent cfg now pdp [] c = c
purge-IsConsistent cfg now pdp ((rf_id, entry) ∷ db) c =
    elim (Bool-cases (is_overdue cfg now entry)) [
      | inl o ↦ rw o (purge-IsConsistent cfg now pdp db c)
      | inr o ↦ elim (Bool-cases (is_expired cfg now entry)) [
        | inr x ↦ rw (o, x) (purge-IsConsistent cfg now pdp db c)
        | inl x ↦ elim (Bool-cases (is_up entry.estate)) [
          | inr u ↦ rw (o, x, u) (purge-IsConsistent cfg now pdp db c)
          | inl u ↦
              rw (o, x, u)
                (purge-IsConsistent cfg now (remove_each pdp entry.info.destinations).0 db
                  (remove_each-IsConsistent pdp entry.info.destinations c))
        ]
      ]
    ]

handle_purge-IsConsistent :
    (cfg : PurgeConfig) (now : ℕ) (da : DestAdvert) (pdp : PeerData) (error : SocketError)
    → IsConsistent pdp
    → IsConsistent (handle_purge_advert_timeout cfg now da pdp error).1
unfolding handle_purge_advert_timeout
handle_purge-IsConsistent cfg now da pdp operation_aborted c = c
handle_purge-IsConsistent cfg now da pdp no_error c =
    purge-IsConsistent cfg now pdp da.dest_advert_db c
handle_purge-IsConsistent cfg now da pdp message_size c =
    purge-IsConsistent cfg now pdp da.dest_advert_db c
handle_purge-IsConsistent cfg now da pdp eof c = purge-IsConsistent cfg now pdp da.dest_advert_db c
handle_purge-IsConsistent cfg now da pdp other_error c =
    purge-IsConsistent cfg now pdp da.dest_advert_db c

purge_adverts-IsServing :
    (dlep : Dlep) (cfg : PurgeConfig) (st : DlepState) (error : SocketError)
    → IsServing dlep.client st
    → WhenOk (λ r. IsServing dlep.client r.0) (purge_adverts dlep cfg st error)
unfolding purge_adverts IsServing
purge_adverts-IsServing dlep cfg st error s =
    let r = handle_purge_advert_timeout cfg dlep.time st.dest_advert st.local_pdp error in
    let st' : DlepState = record st { local_pdp = r.1; dest_advert = r.0 } in
    after_with _ (IsServing dlep.client) (tell_peers dlep st' r.2) _
      (tell_peers-IsServing dlep st' r.2
        (s.0, handle_purge-IsConsistent cfg dlep.time st.dest_advert st.local_pdp error s.1))
      λ st'' s'. value _ _ s'

initialize-IsServing :
    (client : ClientConfig) (cfg : ProtocolConfig) → WhenOk (IsServing client) (initialize cfg)
unfolding initialize IsServing AllValues
initialize-IsServing client cfg =
    after _ (initial_local_data_items cfg cfg.data_item_info_map) _ λ dis _.
      after_with _ IsConsistent (new_peer cfg "local_pdp" dis) _
        (new_peer-IsConsistent cfg "local_pdp" dis) λ pdp c. value _ _ (tt, c)

DlepStep-IsServing :
    (dlep : Dlep) (st st' : DlepState)
    → DlepStep dlep st st'
    → IsServing dlep.client st
    → IsServing dlep.client st'
unfolding around IsServing
DlepStep-IsServing dlep st st' (peer_made peer_id e) s =
    handle_async_make_peer-IsServing dlep st peer_id s st' e
DlepStep-IsServing dlep st _ (bytes_received {q = q} peer_id place error bytes f e) s =
    let placed = find_id-unplace peer_id st.peers place f in
    put_peer-IsServing dlep.client st place q placed
      (handle_session_receive-IsSound (around dlep st place) place.peer error bytes
        (place-IsSound dlep.client st place placed s) q e)
      s
DlepStep-IsServing dlep st _ (heartbeat_due peer_id place error f) s =
    let placed = find_id-unplace peer_id st.peers place f in
    put_peer-IsServing dlep.client st place _ placed
      (handle_heartbeat_timeout-IsSound (around dlep st place) place.peer error
        (place-IsSound dlep.client st place placed s))
      s
DlepStep-IsServing dlep st _ (acktivity_due {q = q} peer_id place error f e) s =
    let placed = find_id-unplace peer_id st.peers place f in
    put_peer-IsServing dlep.client st place q placed
      (handle_acktivity_timeout-IsSound (around dlep st place) place.peer error
        (place-IsSound dlep.client st place placed s) q e)
      s
DlepStep-IsServing dlep st _ (ex_peers_due _) s =
    (cleanup_ex_peers-IsSound dlep.client st.peers s.0, s.1)
DlepStep-IsServing dlep st st' (purge_due cfg error again e) s =
    purge_adverts-IsServing dlep cfg st error s (st', again) e
DlepStep-IsServing dlep st st' (up_asked mac data_items rs e) s =
    destination_up-Serves dlep st mac data_items s (st', rs) e
DlepStep-IsServing dlep st st' (update_asked mac data_items rs e) s =
    destination_update-Serves dlep st mac data_items s (st', rs) e
DlepStep-IsServing dlep st st' (down_asked mac data_items rs e) s =
    destination_down-Serves dlep st mac data_items s (st', rs) e
DlepStep-IsServing dlep st st' (peer_update_asked data_items rs e) s =
    peer_update-Serves dlep st data_items s (st', rs) e
DlepStep-IsServing dlep st _ (removal_asked _ data_items) s =
    peer_remove_data_items-IsServing dlep.client st data_items s
DlepStep-IsServing dlep st st' (request_asked mac data_items rs e) s =
    linkchar_request-Serves dlep st mac data_items s (st', rs) e
DlepStep-IsServing dlep st st' (reply_asked peer_id mac data_items rs e) s =
    linkchar_reply-Serves dlep st peer_id mac data_items s (st', rs) e
DlepStep-IsServing dlep st st' (end_asked ended e) s =
    terminate_service-Serves dlep st s (st', ended) e

-- In every state that the service gets into from initialize() on, with one configuration of the
-- client and whatever new connections, the sockets and timers of its sessions, the timers of the
-- cleanup and of the purge and the client call in whatever order, every session is sound, as for IsReachable-IsSound, and neither our own
-- entry nor one of our destinations has two entries for one IP address. Messages of destination
-- advertisements are not among the calls.
pub IsServed-IsServing :
    (client : ClientConfig) (st : DlepState) → IsServed client st → IsServing client st
IsServed-IsServing client st (initialized cfg e) = initialize-IsServing client cfg st e
IsServed-IsServing client st (stepped {st = st0} dlep same step before) =
    subst (λ c. IsServing c st) same
      (DlepStep-IsServing dlep st0 st step
        (subst (λ c. IsServing c st0) (sym same) (IsServed-IsServing client st0 before)))
