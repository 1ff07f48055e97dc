-- ===== src/Peer/Sound/Responses.antt =====
-- Peer.cpp: the end of a session, responses, timeouts and retransmits keep the session sound.
use ll_dlep.Common.{
  ℕ, ◌+◌, ◌%◌, String, ◌≡◌, ap, inl, inr, Option, some, List, [], ◌∷◌, arith, ltb, leb, ◌==◌, ==→eq,
  Bool-cases, Option-cases, nat_key, string_key, bytes_key, if-elim, if-≡-elim, WhenOk, value,
  after, after_with, either_way,
}
use ll_dlep.Message.Build.{ProtocolMessage, message_name}
use ll_dlep.Message.Values.{get_mac}
use ll_dlep.Peer.State.{
  ResponsePending, Reason, unexpected_response, inactive, max_send_tries, Peer, Dlep, terminating,
  state_eq, emit,
}
use ll_dlep.Peer.Responses.{
  if_not_present, set_state, set_state_terminating, stop_peer, termination_message,
  send_expecting_response, terminate, next_on_queue, expected_at, queue_of, handle_response,
  check_for_activity, retransmit_front, retransmit_each, check_for_retransmits, set_queue,
  should_send_response, simple_response, send_simple_response,
}
use ll_dlep.Peer.Queues.{
  IsQueue, AreQueues, IsQueue-tail, map_erase-AreQueues, second_is_unsent, head_is_queued,
}
use ll_dlep.Peer.Sound.{
  most_tries, IsSound, send_expecting_response-IsSound, resend-IsSound, set_queue-IsSound,
  queue_of-front, sent-IsSound,
}

module _ (dlep : Dlep) where
  pub stop_peer-IsSound :
      (peer : Peer) → IsSound dlep.client peer → IsSound dlep.client (stop_peer dlep peer)
  unfolding stop_peer set_state_terminating set_state emit IsSound
  stop_peer-IsSound peer s =
      if-elim (IsSound dlep.client) (state_eq peer.pstate terminating) _ _ (λ _. s)
        (λ _. if-elim (IsSound dlep.client) dlep.dest_advert_enabled _ _ (λ _. s) (λ _. s))

  pub terminate-IsSound :
      (peer : Peer) (status_name : String) (reason : Reason)
      → IsSound dlep.client peer
      → WhenOk (IsSound dlep.client) (terminate dlep peer status_name reason)
  unfolding terminate emit IsSound
  terminate-IsSound peer status_name reason s =
      either_way (IsSound dlep.client) (state_eq peer.pstate terminating) _ _ (value _ peer s) (
        after _ (termination_message dlep status_name reason) _ λ pm _.
          after_with _ (IsSound dlep.client) (send_expecting_response dlep (stop_peer dlep peer) pm)
            _
            (send_expecting_response-IsSound dlep (stop_peer dlep peer) pm
              (stop_peer-IsSound peer s))
            (λ peer' s'. value _ _ s'))

  next_on_queue-IsSound :
      (peer : Peer) (dest : List ℕ) (front : ResponsePending) (rest : List ResponsePending)
      → queue_of peer dest ≡ front ∷ rest
      → IsSound dlep.client peer
      → IsSound dlep.client (next_on_queue dlep peer dest rest)
  unfolding next_on_queue IsSound
  next_on_queue-IsSound peer dest front [] e s = (
    map_erase-AreQueues (most_tries dlep.client) peer.next_address dest peer.responses_pending s.0,
    s.1,
  )
  next_on_queue-IsSound peer dest front (rp ∷ rest) e s =
      let q = queue_of-front dlep peer dest front (rp ∷ rest) s e in
      let (waiting, unsent) =
        second_is_unsent (most_tries dlep.client) peer.next_address dest front rp rest q in
      resend-IsSound dlep (set_queue peer dest (rp ∷ rest)) rp waiting (ground (arith, unsent)) (
        set_queue-IsSound dlep peer dest (rp ∷ rest)
          (IsQueue-tail (most_tries dlep.client) peer.next_address dest front rp rest q) s)

  -- The rest of the queue is behind the message whose response came.
  pub expected_at_lem :
      (signal_id : ℕ) (q rest : List ResponsePending)
      → expected_at signal_id q ≡ some rest
      → (front : ResponsePending) × (q ≡ front ∷ rest) × (front.response_id ≡ signal_id)
  unfolding expected_at
  expected_at_lem signal_id [] rest e = absurd (cc e)
  expected_at_lem signal_id (rp ∷ q) rest e =
      if-≡-elim (rp.response_id == signal_id) e
        (λ same p. (rp, ap (◌∷◌ rp) (let x : q ≡ rest = cc p in x), ==→eq _ _ same))
        (λ _ p. absurd (cc p))

  pub handle_response-IsSound :
      (peer : Peer) (pm : ProtocolMessage)
      → IsSound dlep.client peer
      → WhenOk (λ r. IsSound dlep.client r.0) (handle_response dlep peer pm)
  unfolding handle_response
  handle_response-IsSound peer pm s = after _ (message_name dlep.protocfg pm) _ λ received _.
      after _ (if_not_present (get_mac dlep.protocfg pm) []) _ λ dest _.
        elim (Option-cases (expected_at pm.signal_id (queue_of peer dest))) [
          | inl e ↦ rw e (
              after_with _ (IsSound dlep.client)
                (terminate dlep peer "Unexpected_Message" (unexpected_response received)) _
                (terminate-IsSound peer _ _ s) (λ peer' s'. value _ _ s'))
          | inr (rest, e) ↦
              let (front, q, _) = expected_at_lem pm.signal_id (queue_of peer dest) rest e in
              rw e (value _ _ (next_on_queue-IsSound peer dest front rest q s))
        ]

  pub check_for_activity-IsSound :
      (peer : Peer)
      → IsSound dlep.client peer
      → WhenOk (λ r. IsSound dlep.client r.0) (check_for_activity dlep peer)
  unfolding check_for_activity
  check_for_activity-IsSound peer s =
      either_way _ (peer.peer_heartbeat_interval_sec == 0) _ _ (value _ _ s) (
        either_way _ (leb _ dlep.time) _ _
          (after_with _ (IsSound dlep.client) (terminate dlep peer "Timed_Out" (inactive _)) _
            (terminate-IsSound peer _ _ s) (λ peer' s'. value _ _ s'))
          (value _ _ s))

  -- The snapshot of a queue that is retransmitted is a queue itself.
  retransmit_front-IsSound :
      (peer : Peer) (next : ℕ) (dest : List ℕ) (q : List ResponsePending)
      → IsQueue (most_tries dlep.client) next dest q
      → IsSound dlep.client peer
      → WhenOk (λ r. IsSound dlep.client r.0) (retransmit_front dlep peer q)
  unfolding retransmit_front
  retransmit_front-IsSound peer next dest [] h s = value _ _ s
  retransmit_front-IsSound peer next dest (rp ∷ rest) h s =
      either_way _ (ltb (rp.send_time + dlep.client.ack_timeout) dlep.time) _ _
        (if-elim (WhenOk (λ r. IsSound dlep.client r.0)) (ltb rp.send_tries dlep.client.send_tries)
          _ _
          (λ lt. value _ _ (
            resend-IsSound dlep peer rp
              (head_is_queued (most_tries dlep.client) next dest rp rest h) (ground (arith, lt)) s))
          (λ _.
            after_with _ (IsSound dlep.client)
              (terminate dlep peer "Timed_Out"
                (max_send_tries rp.response_name dlep.client.send_tries))
              _ (terminate-IsSound peer _ _ s) (λ peer' s'. value _ _ s')))
        (value _ _ s)

  retransmit_each-IsSound :
      (peer : Peer) (next : ℕ) (m : List (List ℕ × List ResponsePending))
      → AreQueues (most_tries dlep.client) next m
      → IsSound dlep.client peer
      → WhenOk (IsSound dlep.client) (retransmit_each dlep peer m)
  unfolding retransmit_each AreQueues
  retransmit_each-IsSound peer next [] h s = value _ _ s
  retransmit_each-IsSound peer next ((dest, q) ∷ m) h s =
      after_with _ (λ r. IsSound dlep.client r.0) (retransmit_front dlep peer q) _
        (retransmit_front-IsSound peer next dest q h.0 s)
        (λ r s'. either_way _ r.1 _ _ (retransmit_each-IsSound r.0 next m h.1 s') (value _ _ s'))

  pub check_for_retransmits-IsSound :
      (peer : Peer)
      → IsSound dlep.client peer
      → WhenOk (IsSound dlep.client) (check_for_retransmits dlep peer)
  unfolding check_for_retransmits IsSound
  check_for_retransmits-IsSound peer s =
      retransmit_each-IsSound peer peer.next_address peer.responses_pending s.0 s

  pub send_simple_response-IsSound :
      (peer : Peer) (response_name status_name : String) (mac : Option (List ℕ))
      → IsSound dlep.client peer
      → WhenOk (IsSound dlep.client) (send_simple_response dlep peer response_name status_name mac)
  unfolding send_simple_response should_send_response IsSound
  send_simple_response-IsSound peer response_name status_name mac s =
      elim (Bool-cases (ltb (dlep.rand peer.rand_calls % 100) dlep.client.ack_probability)) [
        | inl e ↦
            rw (e, send_simple_response)
              (after _ (simple_response dlep response_name status_name mac) _
                λ pm _. value _ _ (sent-IsSound dlep _ pm.msgbuf s))
        | inr e ↦ rw (e, send_simple_response) (value _ _ s)
      ]
