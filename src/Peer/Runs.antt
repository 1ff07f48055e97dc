-- ===== src/Peer/Runs.antt =====
-- Peer.cpp, DlepServiceImpl.cpp: the life of a session, as the calls that reach it one by one.
-- Sockets and timers call it from the event loop and the client through the service; all of them
-- hold `dlep->mutex`. The surroundings may be others at each step, but for the client's
-- configuration.
use ll_dlep.Common.{ℕ, String, ◌≡◌, Bool, true, List, ok, nat_key, string_key, bytes_key}
use ll_dlep.DataItem.Types.{DataItem}
use ll_dlep.InfoBase.PeerData.{PeerData, remove_destination}
use ll_dlep.InfoBase.PeerUpdates.{IsConsistent}
use ll_dlep.Message.CommonItems.{ClientConfig}
use ll_dlep.Peer.State.{Reason, Peer, Dlep, new_peer_session}
use ll_dlep.Peer.Responses.{terminate, stop_peer}
use ll_dlep.Peer.Send.{
  destination_up, destination_down, destination_update, peer_update, link_characteristics_request,
  link_characteristics_response, start_peer,
}
use ll_dlep.Peer.Receive.{
  SocketError, handle_session_receive, handle_heartbeat_timeout, handle_acktivity_timeout,
}

-- Peer::remove_destination(): the peer is left without the destination. The calls on the peers
-- that the removal makes are calls of destination_down().
abbrev pub without_destination : Peer → List ℕ → List DataItem → Peer
without_destination p mac data_items = record p {
  peer_pdp = (remove_destination p.peer_pdp mac true data_items).0;
}

-- One call that returns.
pub data Step (dlep : Dlep) : Peer → Peer → Type 0 where
  started : {p q : Peer} → start_peer dlep p ≡ ok q → Step dlep p q
  received :
      {p q : Peer} (error : SocketError) (bytes : List ℕ)
      → handle_session_receive dlep p error bytes ≡ ok q
      → Step dlep p q
  heartbeat_timed :
      (p : Peer) (error : SocketError) → Step dlep p (handle_heartbeat_timeout dlep p error)
  acktivity_timed :
      {p q : Peer} (error : SocketError)
      → handle_acktivity_timeout dlep p error ≡ ok q
      → Step dlep p q
  up_called :
      {p q : Peer} (mac : List ℕ) (data_items : List DataItem)
      → destination_up dlep p mac data_items ≡ ok q
      → Step dlep p q
  down_called :
      {p q : Peer} (mac : List ℕ) (data_items : List DataItem)
      → destination_down dlep p mac data_items ≡ ok q
      → Step dlep p q
  update_called :
      {p q : Peer} (mac : List ℕ) (data_items : List DataItem)
      → destination_update dlep p mac data_items ≡ ok q
      → Step dlep p q
  removal_called :
      (p : Peer) (mac : List ℕ) (data_items : List DataItem)
      → Step dlep p (without_destination p mac data_items)
  peer_update_called :
      {p q : Peer} (issued : Bool) (data_items : List DataItem)
      → peer_update dlep p data_items ≡ ok (q, issued)
      → Step dlep p q
  request_called :
      {p q : Peer} (mac : List ℕ) (data_items : List DataItem)
      → link_characteristics_request dlep p mac data_items ≡ ok q
      → Step dlep p q
  response_called :
      {p q : Peer} (mac : List ℕ) (data_items : List DataItem)
      → link_characteristics_response dlep p mac data_items ≡ ok q
      → Step dlep p q
  terminated :
      {p q : Peer} (status_name : String) (reason : Reason)
      → terminate dlep p status_name reason ≡ ok q
      → Step dlep p q
  stopped : (p : Peer) → Step dlep p (stop_peer dlep p)

-- The states of the sessions of a client.
pub data IsReachable (client : ClientConfig) : Peer → Type 0 where
  connected_now :
      (peer_id : String) (pdp : PeerData) (time : ℕ)
      → IsConsistent pdp
      → IsReachable client (new_peer_session peer_id pdp time)
  and_then :
      {p q : Peer} (dlep : Dlep)
      → dlep.client ≡ client
      → Step dlep p q
      → IsReachable client p
      → IsReachable client q
