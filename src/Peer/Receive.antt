-- ===== src/Peer/Receive.antt =====
-- Peer.cpp: what the sockets and timers call.
use ll_dlep.Common.{
  ℕ, suc, ◌-◌, List, ◌++◌, if◌then◌else◌, length, Result, ok, ◌>>=◌, nat_key, string_key, bytes_key,
}
use ll_dlep.Peer.State.{
  in_session, terminating, state_eq, read_up_to, acktivity_timer_set, Peer, Dlep, emit,
  max_signal_size,
}
use ll_dlep.Peer.Responses.{
  send_session_message, stop_peer, check_for_activity, check_for_retransmits,
}
use ll_dlep.Peer.Send.{schedule_heartbeat}
use ll_dlep.Peer.Framing.{handle_complete}
use ll_dlep.Peer.Dispatch.{handle_peer_signal}

-- The error codes of boost::asio that the code tells apart.
pub data SocketError : Type 0 where
  no_error message_size operation_aborted eof other_error : SocketError

module _ (dlep : Dlep) where
  -- async_read_some() into the rest of the buffer.
  unfoldable pub read_more : Peer → Peer
  read_more peer = emit peer (read_up_to (max_signal_size - length peer.signal_recv_buffer))

  -- The bytes that were read, and the complete messages that they make.
  unfoldable pub receive_bytes : Peer → List ℕ → Result Peer
  receive_bytes peer bytes = do
    (peer', left) ←
        handle_complete dlep.protocfg (handle_peer_signal dlep)
          (suc (length (peer.signal_recv_buffer ++ bytes)))
          (record peer { last_receive_time = dlep.time }) (peer.signal_recv_buffer ++ bytes)
    ok (record peer' { signal_recv_buffer = left })

  unfoldable pub handle_session_receive : Peer → SocketError → List ℕ → Result Peer
  handle_session_receive peer no_error bytes = do
    peer' ← receive_bytes peer bytes
    ok (read_more peer')
  handle_session_receive peer message_size bytes = do
    peer' ← receive_bytes peer bytes
    ok (read_more peer')
  handle_session_receive peer operation_aborted bytes = ok peer
  handle_session_receive peer eof bytes = ok (stop_peer dlep peer)
  handle_session_receive peer other_error bytes = ok (read_more peer)

  unfoldable pub handle_heartbeat_timeout : Peer → SocketError → Peer
  handle_heartbeat_timeout peer no_error = schedule_heartbeat dlep (
      if state_eq peer.pstate in_session
      then send_session_message peer peer.heartbeat_msg
      else peer)
  handle_heartbeat_timeout peer operation_aborted = peer
  handle_heartbeat_timeout peer message_size = schedule_heartbeat dlep peer
  handle_heartbeat_timeout peer eof = schedule_heartbeat dlep peer
  handle_heartbeat_timeout peer other_error = schedule_heartbeat dlep peer

  -- `if (pstate != PeerState::terminating) schedule_acktivity_timer();`
  unfoldable pub set_acktivity_timer : Peer → Peer
  set_acktivity_timer peer =
      if state_eq peer.pstate terminating then peer else emit peer acktivity_timer_set

  unfoldable pub handle_acktivity_timeout : Peer → SocketError → Result Peer
  handle_acktivity_timeout peer no_error = do
    (peer', active) ← check_for_activity dlep peer
    peer'' ← if active then check_for_retransmits dlep peer' else ok peer'
    ok (set_acktivity_timer peer'')
  handle_acktivity_timeout peer operation_aborted = ok peer
  handle_acktivity_timeout peer message_size = ok (set_acktivity_timer peer)
  handle_acktivity_timeout peer eof = ok (set_acktivity_timer peer)
  handle_acktivity_timeout peer other_error = ok (set_acktivity_timer peer)
