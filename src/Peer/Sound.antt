-- ===== src/Peer/Sound.antt =====
-- Peer.cpp: what always holds of a session, and the operations on its queues.
use ll_dlep.Common.{
  ℕ, ◌+◌, ◌<◌, ◌≡◌, refl, sym, ◌⊎◌, inl, inr, true, false, List, ◌∷◌, arith, ltb, ◌==◌,
  if◌then◌else◌, ==→eq, Option-cases, map_find, nat_key, string_key, bytes_key, if-elim, WhenOk,
  value, after, after_with, [],
}
use mathlib.Core.Path.{subst}
use ll_dlep.ProtocolConfig.{ProtocolConfig, get_signal_info, get_signal_name, get_message_name}
use ll_dlep.InfoBase.PeerData.{PeerData}
use ll_dlep.InfoBase.PeerUpdates.{IsConsistent}
use ll_dlep.Message.Build.{ProtocolMessage, message_name}
use ll_dlep.Message.Values.{get_mac}
use ll_dlep.Message.CommonItems.{ClientConfig}
use ll_dlep.Peer.State.{ResponsePending, Reason, Peer, Dlep, terminating, state_eq, emit}
use ll_dlep.Peer.Responses.{
  if_not_present, is_not_interested, send_session_message, new_response_pending, queue_of,
  set_queue, enqueue, send_if_front, send_message_expecting_response, send_expecting_response,
  stop_peer, set_state_terminating, termination_message, terminate, next_on_queue, expected_at,
  handle_response, check_for_activity, retransmit_front, retransmit_each, check_for_retransmits,
}
use ll_dlep.Peer.Queues.{
  IsQueue, AreBehind, AreQueues, AreQueues-mono, IsQueue-push, IsQueue-head, IsQueue-tail,
  map_find-AreQueues, map_insert-AreQueues, map_erase-AreQueues,
}
pub mod Responses
pub mod Send
pub mod Session
pub mod Destinations
pub mod Updates
pub mod Dispatch
pub mod Receive
pub mod Runs

-- A message is sent once, or up to the configured number of times.
abbrev pub most_tries : ClientConfig → ℕ
most_tries client = if ltb client.send_tries 1 then 1 else client.send_tries

-- The queues are in order, and what is known of the peer is consistent.
unfoldable pub IsSound : ClientConfig → Peer → Type 0
IsSound client peer =
    AreQueues (most_tries client) peer.next_address peer.responses_pending
    × IsConsistent peer.peer_pdp

pub List-cases {ℓ} :
    {A : Type ℓ} (xs : List A) → (xs ≡ []) ⊎ ((x : A) × (rest : List A) × (xs ≡ x ∷ rest))
List-cases [] = inl refl
List-cases (x ∷ rest) = inr (x, rest, refl)

module _ (dlep : Dlep) where
  queue_of-IsQueue :
      (peer : Peer) (dest : List ℕ)
      → IsSound dlep.client peer
      → (queue_of peer dest ≡ [])
        ⊎ IsQueue (most_tries dlep.client) peer.next_address dest (queue_of peer dest)
  unfolding queue_of IsSound
  queue_of-IsQueue peer dest s = elim (Option-cases (map_find dest peer.responses_pending)) [
    | inl e ↦ rw (e, queue_of) (inl refl)
    | inr (q, e) ↦
        rw (e, queue_of)
          (inr (
            map_find-AreQueues (most_tries dlep.client) peer.next_address dest q
              peer.responses_pending s.0 e))
  ]

  pub queue_of-front :
      (peer : Peer) (dest : List ℕ) (front : ResponsePending) (rest : List ResponsePending)
      → IsSound dlep.client peer
      → queue_of peer dest ≡ front ∷ rest
      → IsQueue (most_tries dlep.client) peer.next_address dest (front ∷ rest)
  queue_of-front peer dest front rest s e = elim (queue_of-IsQueue peer dest s) [
    | inl n ↦ absurd (cc (n, e))
    | inr h ↦ subst (IsQueue (most_tries dlep.client) peer.next_address dest) e h
  ]

  pub set_queue-IsSound :
      (peer : Peer) (dest : List ℕ) (q : List ResponsePending)
      → IsQueue (most_tries dlep.client) peer.next_address dest q
      → IsSound dlep.client peer
      → IsSound dlep.client (set_queue peer dest q)
  unfolding set_queue IsSound
  set_queue-IsSound peer dest q p s = (
    map_insert-AreQueues (most_tries dlep.client) peer.next_address dest q peer.responses_pending p
        s.0,
    s.1,
  )

  pub sent-IsSound :
      (peer : Peer) (packet : List ℕ)
      → IsSound dlep.client peer
      → IsSound dlep.client (send_session_message peer packet)
  unfolding send_session_message emit IsSound
  sent-IsSound peer packet s = s

  send_if_front-IsSound :
      (peer : Peer) (rp : ResponsePending)
      → rp.send_tries < most_tries dlep.client
      → IsSound dlep.client peer
      → IsSound dlep.client (send_if_front dlep peer rp)
  unfolding send_if_front send_session_message emit
  send_if_front-IsSound peer rp lt s = elim (List-cases (queue_of peer rp.destination)) [
    | inl e ↦ rw (e, send_if_front) s
    | inr (front, rest, e) ↦
        rw (e, send_if_front)
          (if-elim (IsSound dlep.client) (front.address == rp.address) _ _
            (λ same.
              set_queue-IsSound (send_session_message peer rp.msg_buffer) rp.destination _
                (IsQueue-head (most_tries dlep.client) peer.next_address rp.destination front _ rest
                  (sym (==→eq front.address rp.address same)) refl refl (omega (arith, lt))
                  (queue_of-front peer rp.destination front rest s e))
                (sent-IsSound peer rp.msg_buffer s))
            (λ _. s))
  ]

  -- A new address is taken.
  made-IsSound :
      (peer : Peer)
      → IsSound dlep.client peer
      → IsSound dlep.client (record peer { next_address = peer.next_address + 1 })
  unfolding IsSound
  made-IsSound peer s = (
    AreQueues-mono (most_tries dlep.client) peer.next_address (peer.next_address + 1)
        peer.responses_pending (omega arith) s.0,
    s.1,
  )

  enqueue-IsSound :
      (peer : Peer) (rp : ResponsePending)
      → rp.address ≡ peer.next_address
      → rp.send_tries ≡ 0
      → IsSound dlep.client peer
      → IsSound dlep.client (enqueue (record peer { next_address = peer.next_address + 1 }) rp)
  unfolding enqueue queue_of
  enqueue-IsSound peer rp e1 e2 s =
      set_queue-IsSound (record peer { next_address = peer.next_address + 1 }) rp.destination _
        (IsQueue-push (most_tries dlep.client) peer.next_address rp.destination
          (queue_of peer rp.destination) (record rp { queued = true }) e1 refl refl e2
          (queue_of-IsQueue peer rp.destination s))
        (made-IsSound peer s)

  -- A message that is on its queue already.
  pub resend-IsSound :
      (peer : Peer) (rp : ResponsePending)
      → rp.queued ≡ true
      → rp.send_tries < most_tries dlep.client
      → IsSound dlep.client peer
      → IsSound dlep.client (send_message_expecting_response dlep peer rp)
  unfolding send_message_expecting_response send_if_front
  resend-IsSound peer rp q lt s =
      if-elim (IsSound dlep.client) (is_not_interested peer rp.destination) _ _ (λ _. s)
        (λ _. rw q (send_if_front-IsSound peer rp lt s))

  -- A message that was just made.
  send_new-IsSound :
      (peer : Peer) (rp : ResponsePending)
      → rp.address ≡ peer.next_address
      → rp.queued ≡ false
      → rp.send_tries ≡ 0
      → IsSound dlep.client peer
      → IsSound dlep.client (
          send_message_expecting_response dlep
            (record peer { next_address = peer.next_address + 1 })
            rp)
  unfolding send_message_expecting_response enqueue send_if_front
  send_new-IsSound peer rp a q t s =
      if-elim (IsSound dlep.client)
        (is_not_interested (record peer { next_address = peer.next_address + 1 }) rp.destination) _
        _ (λ _. made-IsSound peer s)
        (λ _. rw q (send_if_front-IsSound _ rp (ground (arith, t)) (enqueue-IsSound peer rp a t s)))

  new_response_pending_lem :
      (cfg : ProtocolConfig) (address : ℕ) (pm : ProtocolMessage)
      → WhenOk
          (λ rp. (rp.address ≡ address) × (rp.queued ≡ false) × (rp.send_tries ≡ 0))
          (new_response_pending cfg address pm)
  unfolding new_response_pending
  new_response_pending_lem cfg address pm = after _ (message_name cfg pm) _ λ name _.
      after _ (get_signal_info cfg name) _ λ siginfo _.
        after _
          (if pm.is_signal
            then get_signal_name cfg siginfo.response_id
            else get_message_name cfg siginfo.response_id)
          _
          λ response_name _.
            after _ (if_not_present (get_mac cfg pm) []) _
              λ destination _. value _ _ (refl, refl, refl)

  pub send_expecting_response-IsSound :
      (peer : Peer) (pm : ProtocolMessage)
      → IsSound dlep.client peer
      → WhenOk (IsSound dlep.client) (send_expecting_response dlep peer pm)
  unfolding send_expecting_response
  send_expecting_response-IsSound peer pm s =
      after_with _ _ (new_response_pending dlep.protocfg peer.next_address pm) _
        (new_response_pending_lem dlep.protocfg peer.next_address pm)
        (λ rp h. value _ _ (send_new-IsSound peer rp h.0 h.1 h.2 s))
