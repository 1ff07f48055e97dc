-- ===== src/Dlep/Runs.antt =====
-- Dlep.cpp, DlepServiceImpl.cpp: the life of the service, as the events and calls one by one. Each
-- of them holds `dlep->mutex`, but for the purge of the advertisements, which is taken here as if
-- it did.
use ll_dlep.Common.{
  ℕ, String, ◌≡◌, Bool, some, List, Result, ok, ◌>>=◌, nat_key, string_key, bytes_key,
}
use ll_dlep.ProtocolConfig.{ProtocolConfig}
use ll_dlep.DataItem.Types.{DataItem}
use ll_dlep.Message.CommonItems.{ClientConfig}
use ll_dlep.Peer.State.{Peer, Dlep}
use ll_dlep.Peer.Receive.{
  SocketError, handle_session_receive, handle_heartbeat_timeout, handle_acktivity_timeout,
}
use ll_dlep.DestAdvert.{PurgeConfig, handle_purge_advert_timeout}
use ll_dlep.Dlep.{
  DlepState, PeerPlace, around, put_peer, find_id, tell_peers, handle_async_make_peer,
  cleanup_ex_peers, initialize,
}
use ll_dlep.Dlep.Service.{
  ReturnStatus, destination_up, destination_update, destination_down, peer_update,
}
use ll_dlep.Dlep.Service.Sessions.{
  peer_remove_data_items, linkchar_request, linkchar_reply, terminate_service,
}

-- handle_purge_advert_timeout() with its calls on the peers.
unfoldable pub purge_adverts :
    Dlep → PurgeConfig → DlepState → SocketError → Result (DlepState × Bool)
purge_adverts dlep cfg st error = do
  let (da, pdp, calls, again) =
      handle_purge_advert_timeout cfg dlep.time st.dest_advert st.local_pdp error
  st' ← tell_peers dlep (record st { local_pdp = pdp; dest_advert = da }) calls
  ok (st', again)

-- One event or call that returns. `place` is the peer whose socket or timer it is.
pub data DlepStep (dlep : Dlep) : DlepState → DlepState → Type 0 where
  peer_made :
      {st st' : DlepState} (peer_id : String)
      → handle_async_make_peer dlep st peer_id ≡ ok st'
      → DlepStep dlep st st'
  bytes_received :
      {st : DlepState} {q : Peer} (peer_id : String) (place : PeerPlace) (error : SocketError)
      (bytes : List ℕ)
      → find_id peer_id st.peers ≡ some place
      → handle_session_receive (around dlep st place) place.peer error bytes ≡ ok q
      → DlepStep dlep st (put_peer st place q)
  heartbeat_due :
      {st : DlepState} (peer_id : String) (place : PeerPlace) (error : SocketError)
      → find_id peer_id st.peers ≡ some place
      → DlepStep dlep st
          (put_peer st place (handle_heartbeat_timeout (around dlep st place) place.peer error))
  acktivity_due :
      {st : DlepState} {q : Peer} (peer_id : String) (place : PeerPlace) (error : SocketError)
      → find_id peer_id st.peers ≡ some place
      → handle_acktivity_timeout (around dlep st place) place.peer error ≡ ok q
      → DlepStep dlep st (put_peer st place q)
  ex_peers_due :
      (st : DlepState) → DlepStep dlep st (record st { peers = cleanup_ex_peers st.peers })
  purge_due :
      {st st' : DlepState} (cfg : PurgeConfig) (error : SocketError) (again : Bool)
      → purge_adverts dlep cfg st error ≡ ok (st', again)
      → DlepStep dlep st st'
  up_asked :
      {st st' : DlepState} (mac : List ℕ) (data_items : List DataItem) (rs : ReturnStatus)
      → destination_up dlep st mac data_items ≡ ok (st', rs)
      → DlepStep dlep st st'
  update_asked :
      {st st' : DlepState} (mac : List ℕ) (data_items : List DataItem) (rs : ReturnStatus)
      → destination_update dlep st mac data_items ≡ ok (st', rs)
      → DlepStep dlep st st'
  down_asked :
      {st st' : DlepState} (mac : List ℕ) (data_items : List DataItem) (rs : ReturnStatus)
      → destination_down dlep st mac data_items ≡ ok (st', rs)
      → DlepStep dlep st st'
  peer_update_asked :
      {st st' : DlepState} (data_items : List DataItem) (rs : ReturnStatus)
      → peer_update dlep st data_items ≡ ok (st', rs)
      → DlepStep dlep st st'
  removal_asked :
      (st : DlepState) (data_items : List DataItem)
      → DlepStep dlep st (peer_remove_data_items st data_items).0
  request_asked :
      {st st' : DlepState} (mac : List ℕ) (data_items : List DataItem) (rs : ReturnStatus)
      → linkchar_request dlep st mac data_items ≡ ok (st', rs)
      → DlepStep dlep st st'
  reply_asked :
      {st st' : DlepState} (peer_id : String) (mac : List ℕ) (data_items : List DataItem)
      (rs : ReturnStatus)
      → linkchar_reply dlep st peer_id mac data_items ≡ ok (st', rs)
      → DlepStep dlep st st'
  end_asked :
      {st st' : DlepState} (ended : List (String × Peer))
      → terminate_service dlep st ≡ ok (st', ended)
      → DlepStep dlep st st'

-- The states of a service for a client and its configuration, from initialize() on.
pub data IsServed (client : ClientConfig) : DlepState → Type 0 where
  initialized :
      {st : DlepState} (cfg : ProtocolConfig) → initialize cfg ≡ ok st → IsServed client st
  stepped :
      {st st' : DlepState} (dlep : Dlep)
      → dlep.client ≡ client
      → DlepStep dlep st st'
      → IsServed client st
      → IsServed client st'
