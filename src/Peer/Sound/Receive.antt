-- ===== src/Peer/Sound/Receive.antt =====
-- Peer.cpp: what the sockets and timers call keeps the session sound.
use ll_dlep.Common.{
  ℕ, zero, suc, inl, inr, List, ◌++◌, if◌then◌else◌, Bool-cases, Option-cases, length, take, drop,
  Result, ok, nat_key, string_key, bytes_key, if-elim, WhenOk, value, after, after_with, either_way,
}
use ll_dlep.ProtocolConfig.{ProtocolConfig}
use ll_dlep.Message.Parse.{is_complete_message}
use ll_dlep.Peer.State.{Peer, Dlep, emit, state_eq, in_session, terminating}
use ll_dlep.Peer.Responses.{check_for_activity, check_for_retransmits}
use ll_dlep.Peer.Dispatch.{handle_peer_signal}
use ll_dlep.Peer.Framing.{handle_complete}
use ll_dlep.Peer.Receive.{
  SocketError, no_error, message_size, operation_aborted, eof, other_error, read_more,
  receive_bytes, handle_session_receive, handle_heartbeat_timeout, set_acktivity_timer,
  handle_acktivity_timeout,
}
use ll_dlep.Peer.Sound.Dispatch.{handle_peer_signal-IsSound}
use ll_dlep.Peer.Sound.{IsSound, sent-IsSound}
use ll_dlep.Peer.Sound.Responses.{
  stop_peer-IsSound, check_for_activity-IsSound, check_for_retransmits-IsSound,
}
use ll_dlep.Peer.Sound.Send.{schedule_heartbeat-IsSound}

-- What every message keeps, the loop over the messages keeps.
handle_complete_keeps {ℓ κ} :
    {S : Type ℓ} (cfg : ProtocolConfig) (handle : S → List ℕ → Result S) (P : S → Type κ)
    → ((s : S) (msg : List ℕ) → P s → WhenOk P (handle s msg))
    → (fuel : ℕ) (s : S) (buf : List ℕ) → P s
    → WhenOk (λ r. P r.0) (handle_complete cfg handle fuel s buf)
unfolding handle_complete
handle_complete_keeps cfg handle P keeps zero s buf p = λ r e. absurd (cc e)
handle_complete_keeps cfg handle P keeps (suc fuel) s buf p =
    after _ (is_complete_message cfg buf) _ (λ r _. elim (Option-cases r.0) [
      | inl e ↦ rw e (value _ _ p)
      | inr (n, e) ↦ rw e (elim (Bool-cases r.1) [
        | inr e' ↦ rw e' (value _ _ p)
        | inl e' ↦ rw e' (
            after_with _ P (handle s (take n buf)) _ (keeps s (take n buf) p)
              (λ s' p'. handle_complete_keeps cfg handle P keeps fuel s' (drop n buf) p'))
      ])
    ])

module _ (dlep : Dlep) where
  read_more-IsSound :
      (peer : Peer) → IsSound dlep.client peer → IsSound dlep.client (read_more dlep peer)
  unfolding read_more emit IsSound
  read_more-IsSound peer s = s

  receive_bytes-IsSound :
      (peer : Peer) (bytes : List ℕ)
      → IsSound dlep.client peer
      → WhenOk (λ p. IsSound dlep.client (read_more dlep p)) (receive_bytes dlep peer bytes)
  unfolding receive_bytes read_more emit IsSound
  receive_bytes-IsSound peer bytes s =
      after_with _ (λ r. IsSound dlep.client r.0)
        (handle_complete dlep.protocfg (handle_peer_signal dlep)
          (suc (length (peer.signal_recv_buffer ++ bytes)))
          (record peer { last_receive_time = dlep.time }) (peer.signal_recv_buffer ++ bytes))
        _
        (handle_complete_keeps dlep.protocfg (handle_peer_signal dlep) (IsSound dlep.client)
          (handle_peer_signal-IsSound dlep) _ _ _ s)
        (λ r s'. value (λ p. IsSound dlep.client (read_more dlep p)) _ s')

  pub handle_session_receive-IsSound :
      (peer : Peer) (error : SocketError) (bytes : List ℕ)
      → IsSound dlep.client peer
      → WhenOk (IsSound dlep.client) (handle_session_receive dlep peer error bytes)
  unfolding handle_session_receive
  handle_session_receive-IsSound peer no_error bytes s =
      after_with _ (λ p. IsSound dlep.client (read_more dlep p)) (receive_bytes dlep peer bytes) _
        (receive_bytes-IsSound peer bytes s) (λ peer' s'. value _ _ s')
  handle_session_receive-IsSound peer message_size bytes s =
      after_with _ (λ p. IsSound dlep.client (read_more dlep p)) (receive_bytes dlep peer bytes) _
        (receive_bytes-IsSound peer bytes s) (λ peer' s'. value _ _ s')
  handle_session_receive-IsSound peer operation_aborted bytes s = value _ _ s
  handle_session_receive-IsSound peer eof bytes s = value _ _ (stop_peer-IsSound dlep peer s)
  handle_session_receive-IsSound peer other_error bytes s = value _ _ (read_more-IsSound peer s)

  pub handle_heartbeat_timeout-IsSound :
      (peer : Peer) (error : SocketError)
      → IsSound dlep.client peer
      → IsSound dlep.client (handle_heartbeat_timeout dlep peer error)
  unfolding handle_heartbeat_timeout
  handle_heartbeat_timeout-IsSound peer no_error s = schedule_heartbeat-IsSound dlep _ (
      if-elim (IsSound dlep.client) (state_eq peer.pstate in_session) _ _
        (λ _. sent-IsSound dlep peer peer.heartbeat_msg s) (λ _. s))
  handle_heartbeat_timeout-IsSound peer operation_aborted s = s
  handle_heartbeat_timeout-IsSound peer message_size s = schedule_heartbeat-IsSound dlep peer s
  handle_heartbeat_timeout-IsSound peer eof s = schedule_heartbeat-IsSound dlep peer s
  handle_heartbeat_timeout-IsSound peer other_error s = schedule_heartbeat-IsSound dlep peer s

  set_acktivity_timer-IsSound :
      (peer : Peer) → IsSound dlep.client peer → IsSound dlep.client (set_acktivity_timer dlep peer)
  unfolding set_acktivity_timer emit IsSound
  set_acktivity_timer-IsSound peer s =
      if-elim (IsSound dlep.client) (state_eq peer.pstate terminating) _ _ (λ _. s) (λ _. s)

  pub handle_acktivity_timeout-IsSound :
      (peer : Peer) (error : SocketError)
      → IsSound dlep.client peer
      → WhenOk (IsSound dlep.client) (handle_acktivity_timeout dlep peer error)
  unfolding handle_acktivity_timeout
  handle_acktivity_timeout-IsSound peer no_error s =
      after_with _ (λ r. IsSound dlep.client r.0) (check_for_activity dlep peer) _
        (check_for_activity-IsSound dlep peer s)
        (λ r s'.
          after_with _ (IsSound dlep.client)
            (if r.1 then check_for_retransmits dlep r.0 else ok r.0) _
            (either_way _ r.1 _ _ (check_for_retransmits-IsSound dlep r.0 s') (value _ _ s'))
            (λ p s''. value _ _ (set_acktivity_timer-IsSound p s'')))
  handle_acktivity_timeout-IsSound peer operation_aborted s = value _ _ s
  handle_acktivity_timeout-IsSound peer message_size s =
      value _ _ (set_acktivity_timer-IsSound peer s)
  handle_acktivity_timeout-IsSound peer eof s = value _ _ (set_acktivity_timer-IsSound peer s)
  handle_acktivity_timeout-IsSound peer other_error s =
      value _ _ (set_acktivity_timer-IsSound peer s)
