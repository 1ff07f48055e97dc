-- ===== src/Peer/Sound/Runs.antt =====
-- Peer.cpp: every state of a session is sound.
use ll_dlep.Common.{ℕ, true, List, sym, nat_key, string_key, bytes_key}
use mathlib.Core.Path.{subst}
use ll_dlep.InfoBase.Consistency.{remove_destination-IsConsistent}
use ll_dlep.DataItem.Types.{DataItem}
use ll_dlep.Message.CommonItems.{ClientConfig}
use ll_dlep.Peer.State.{Peer, Dlep, new_peer_session}
use ll_dlep.Peer.Queues.{AreQueues}
use ll_dlep.Peer.Runs.{
  Step, started, received, heartbeat_timed, acktivity_timed, up_called, down_called, update_called,
  removal_called, peer_update_called, request_called, response_called, terminated, stopped,
  without_destination, IsReachable, connected_now, and_then,
}
use ll_dlep.Peer.Sound.{IsSound}
use ll_dlep.Peer.Sound.Responses.{stop_peer-IsSound, terminate-IsSound}
use ll_dlep.Peer.Sound.Send.{
  destination_up-IsSound, destination_down-IsSound, destination_update-IsSound, peer_update-IsSound,
  link_characteristics_request-IsSound, link_characteristics_response-IsSound, start_peer-IsSound,
}
use ll_dlep.Peer.Sound.Receive.{
  handle_session_receive-IsSound, handle_heartbeat_timeout-IsSound,
  handle_acktivity_timeout-IsSound,
}

without_destination-IsSound :
    (client : ClientConfig) (p : Peer) (mac : List ℕ) (data_items : List DataItem)
    → IsSound client p
    → IsSound client (without_destination p mac data_items)
unfolding IsSound AreQueues
without_destination-IsSound client p mac data_items s =
    (s.0, remove_destination-IsConsistent p.peer_pdp mac true data_items s.1)

Step-IsSound :
    (dlep : Dlep) (p q : Peer) → Step dlep p q → IsSound dlep.client p → IsSound dlep.client q
Step-IsSound dlep p q (started e) s = start_peer-IsSound dlep p s q e
Step-IsSound dlep p q (received error bytes e) s =
    handle_session_receive-IsSound dlep p error bytes s q e
Step-IsSound dlep p _ (heartbeat_timed _ error) s = handle_heartbeat_timeout-IsSound dlep p error s
Step-IsSound dlep p q (acktivity_timed error e) s =
    handle_acktivity_timeout-IsSound dlep p error s q e
Step-IsSound dlep p q (up_called mac data_items e) s =
    destination_up-IsSound dlep p mac data_items s q e
Step-IsSound dlep p q (down_called mac data_items e) s =
    destination_down-IsSound dlep p mac data_items s q e
Step-IsSound dlep p q (update_called mac data_items e) s =
    destination_update-IsSound dlep p mac data_items s q e
Step-IsSound dlep p _ (removal_called _ mac data_items) s =
    without_destination-IsSound dlep.client p mac data_items s
Step-IsSound dlep p q (peer_update_called issued data_items e) s =
    peer_update-IsSound dlep p data_items s (q, issued) e
Step-IsSound dlep p q (request_called mac data_items e) s =
    link_characteristics_request-IsSound dlep p mac data_items s q e
Step-IsSound dlep p q (response_called mac data_items e) s =
    link_characteristics_response-IsSound dlep p mac data_items s q e
Step-IsSound dlep p q (terminated status_name reason e) s =
    terminate-IsSound dlep p status_name reason s q e
Step-IsSound dlep p _ (stopped _) s = stop_peer-IsSound dlep p s

-- In every state that a session gets into by the calls of Peer/Runs, from its connection on and
-- with one configuration of the client, each queue of messages that wait for a response is nonempty, holds
-- messages for its own destination only, in the order in which they were made, and only its first
-- message was sent, at most as often as the client configured, or once; and neither the peer nor a
-- destination of it has two entries for one IP address.
pub IsReachable-IsSound :
    (client : ClientConfig) (peer : Peer) → IsReachable client peer → IsSound client peer
unfolding IsSound AreQueues new_peer_session
IsReachable-IsSound client peer (connected_now peer_id pdp time c) = (tt, c)
IsReachable-IsSound client peer (and_then {p} {q} dlep same step before) =
    subst (λ c. IsSound c peer) same
      (Step-IsSound dlep p peer step
        (subst (λ c. IsSound c p) (sym same) (IsReachable-IsSound client p before)))
