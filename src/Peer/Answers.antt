-- ===== src/Peer/Answers.antt =====
-- Peer.cpp: handle_response() against what it is for.
use ll_dlep.Common.{
  ℕ, String, ◌≡◌, refl, sym, ap, ◌∙◌, inl, inr, Bool, true, false, none, some, List, [], ◌∷◌, ◌==◌,
  if◌then◌else◌, eq→==, ==→eq, Bool-cases, Option-cases, drop, ok, ◌>>=◌, >>=-elim, map_erase,
  map_find-map_insert, map_find-map_erase, nat_key, string_key, bytes_key, if-elim, ok-injective,
}
use mathlib.Core.Path.{subst}
use ll_dlep.Message.Build.{ProtocolMessage, message_name}
use ll_dlep.Message.Values.{get_mac}
use ll_dlep.Peer.State.{terminating, ResponsePending, unexpected_response, Peer, Dlep, emit}
use ll_dlep.Peer.Responses.{
  if_not_present, is_not_interested, send_session_message, queue_of, set_queue, send_if_front,
  send_message_expecting_response, terminate, next_on_queue, expected_at, handle_response,
}
use ll_dlep.Peer.Queues.{second_is_unsent}
use ll_dlep.Peer.Sound.{List-cases, IsSound, most_tries, queue_of-front}
use ll_dlep.Peer.Sound.Responses.{expected_at_lem}
use ll_dlep.Peer.Ending.{terminate-ends}

queue_of-set_queue :
    (peer : Peer) (dest d : List ℕ) (q : List ResponsePending)
    → queue_of (set_queue peer dest q) d ≡ (if bytes_key.key_eq dest d then q else queue_of peer d)
unfolding queue_of set_queue
queue_of-set_queue peer dest d q = elim (Bool-cases (bytes_key.key_eq dest d)) [
  | inl e ↦ rw (map_find-map_insert dest d q peer.responses_pending, queue_of, e) refl
  | inr e ↦ rw (map_find-map_insert dest d q peer.responses_pending, queue_of, e) refl
]

queue_of-erased :
    (peer : Peer) (dest d : List ℕ)
    → queue_of (record peer { responses_pending = map_erase dest peer.responses_pending }) d
      ≡ (if bytes_key.key_eq dest d then [] else queue_of peer d)
unfolding queue_of
queue_of-erased peer dest d = elim (Bool-cases (bytes_key.key_eq dest d)) [
  | inl e ↦ rw (map_find-map_erase dest d peer.responses_pending, queue_of, e) refl
  | inr e ↦ rw (map_find-map_erase dest d peer.responses_pending, queue_of, e) refl
]

at_key :
    (peer : Peer) (dest d : List ℕ)
    → bytes_key.key_eq dest d ≡ true
    → queue_of peer d ≡ queue_of peer dest
at_key peer dest d e = ap (queue_of peer) (sym ((bytes_key.key_eq_iff dest d).0 e))

module _ (dlep : Dlep) where
  -- Sending the head of a queue changes neither the lengths of the queues nor who waits in them.
  unfoldable pub addresses : List ResponsePending → List ℕ
  addresses [] = []
  addresses (rp ∷ rest) = rp.address ∷ addresses rest

  send_if_front-addresses :
      (peer : Peer) (rp : ResponsePending) (d : List ℕ)
      → addresses (queue_of (send_if_front dlep peer rp) d) ≡ addresses (queue_of peer d)
  unfolding send_if_front addresses send_session_message emit queue_of
  send_if_front-addresses peer rp d = elim (List-cases (queue_of peer rp.destination)) [
    | inl e ↦ rw (e, send_if_front) refl
    | inr (front, rest, e) ↦
        rw (e, send_if_front)
          (if-elim (λ p. addresses (queue_of p d) ≡ addresses (queue_of peer d))
            (front.address == rp.address) _ _
            (λ same.
              ap addresses
                (queue_of-set_queue (send_session_message peer rp.msg_buffer) rp.destination d _)
              ∙ elim (Bool-cases (bytes_key.key_eq rp.destination d)) [
                | inl this ↦ rw this (
                    sym (
                      ap addresses (at_key peer rp.destination d this ∙ e)
                      ∙ ap (λ a. a ∷ addresses rest) (==→eq _ _ same)))
                | inr other ↦ rw other refl
              ])
            (λ _. refl))
  ]

  resend-addresses :
      (peer : Peer) (rp : ResponsePending) (d : List ℕ)
      → rp.queued ≡ true
      → addresses (queue_of (send_message_expecting_response dlep peer rp) d)
        ≡ addresses (queue_of peer d)
  unfolding send_message_expecting_response send_if_front
  resend-addresses peer rp d e =
      if-elim (λ p. addresses (queue_of p d) ≡ addresses (queue_of peer d))
        (is_not_interested peer rp.destination) _ _ (λ _. refl)
        (λ _. rw e (send_if_front-addresses peer rp d))

  -- The queues after the response to the first message of a queue.
  next_on_queue-addresses :
      (peer : Peer) (dest : List ℕ) (front : ResponsePending) (rest : List ResponsePending)
      (d : List ℕ)
      → IsSound dlep.client peer
      → queue_of peer dest ≡ front ∷ rest
      → addresses (queue_of (next_on_queue dlep peer dest rest) d)
        ≡ (if bytes_key.key_eq dest d then addresses rest else addresses (queue_of peer d))
  unfolding next_on_queue addresses
  next_on_queue-addresses peer dest front [] d s e =
      ap addresses (queue_of-erased peer dest d)
      ∙ elim (Bool-cases (bytes_key.key_eq dest d)) [ inl k ↦ rw k refl | inr k ↦ rw k refl ]
  next_on_queue-addresses peer dest front (rp ∷ rest) d s e =
      let (queued, _) =
        second_is_unsent (most_tries dlep.client) peer.next_address dest front rp rest
          (queue_of-front dlep peer dest front (rp ∷ rest) s e) in
      resend-addresses (set_queue peer dest (rp ∷ rest)) rp d queued
      ∙ ap addresses (queue_of-set_queue peer dest d (rp ∷ rest))
      ∙ elim (Bool-cases (bytes_key.key_eq dest d)) [ inl k ↦ rw k refl | inr k ↦ rw k refl ]

  -- The first message of the queue waits for this response.
  unfoldable pub Expects : Peer → List ℕ → ℕ → Type 0
  Expects peer dest signal_id =
      (front : ResponsePending) × (rest : List ResponsePending) × (queue_of peer dest
        ≡ front ∷ rest)
      × (front.response_id ≡ signal_id)

  -- The first message is off its queue, and the others wait where they waited.
  unfoldable pub Answered : Peer → Peer → List ℕ → Type 0
  Answered peer q dest =
      (d : List ℕ)
      → (bytes_key.key_eq dest d ≡ true
          → addresses (queue_of q d) ≡ drop 1 (addresses (queue_of peer d)))
        × (bytes_key.key_eq dest d ≡ false → addresses (queue_of q d) ≡ addresses (queue_of peer d))

  expected_at-first :
      (signal_id : ℕ) (q rest : List ResponsePending) (front : ResponsePending)
      → q ≡ front ∷ rest
      → front.response_id ≡ signal_id
      → expected_at signal_id q ≡ some rest
  unfolding expected_at
  expected_at-first signal_id q rest front e1 e2 =
      rw (e1, eq→== front.response_id signal_id e2) refl

  handle_response-some :
      (peer : Peer) (pm : ProtocolMessage) (received : String) (dest : List ℕ)
      (rest : List ResponsePending)
      → message_name dlep.protocfg pm ≡ ok received
      → if_not_present (get_mac dlep.protocfg pm) [] ≡ ok dest
      → expected_at pm.signal_id (queue_of peer dest) ≡ some rest
      → handle_response dlep peer pm ≡ ok (next_on_queue dlep peer dest rest, true)
  unfolding handle_response
  handle_response-some peer pm received dest rest n m e = rw (n, m, ◌>>=◌, e) refl

  handle_response-none :
      (peer : Peer) (pm : ProtocolMessage) (received : String) (dest : List ℕ)
      → message_name dlep.protocfg pm ≡ ok received
      → if_not_present (get_mac dlep.protocfg pm) [] ≡ ok dest
      → expected_at pm.signal_id (queue_of peer dest) ≡ none
      → handle_response dlep peer pm ≡ (
          terminate dlep peer "Unexpected_Message" (unexpected_response received) >>= λ peer'.
          ok (peer', false))
  unfolding handle_response
  handle_response-none peer pm received dest n m e = rw (n, m, ◌>>=◌, e) refl

  answered :
      (peer : Peer) (dest : List ℕ) (front : ResponsePending) (rest : List ResponsePending)
      → IsSound dlep.client peer
      → queue_of peer dest ≡ front ∷ rest
      → Answered peer (next_on_queue dlep peer dest rest) dest
  unfolding Answered addresses
  answered peer dest front rest s e d = (
    λ k. next_on_queue-addresses peer dest front rest d s e ∙ rw (k, at_key peer dest d k, e) refl,
    λ k. next_on_queue-addresses peer dest front rest d s e ∙ rw k refl,
  )

  -- handle_response() of a sound session, when it returns: the response is the expected one exactly
  -- if the first message of the queue for its destination waits for its id. Then that message is
  -- off its queue and every other message still waits in its place; otherwise the session is
  -- terminating.
  pub handle_response_lem :
      (peer q : Peer) (pm : ProtocolMessage) (dest : List ℕ) (expected : Bool)
      → IsSound dlep.client peer
      → if_not_present (get_mac dlep.protocfg pm) [] ≡ ok dest
      → handle_response dlep peer pm ≡ ok (q, expected)
      → (expected ≡ true → Expects peer dest pm.signal_id × Answered peer q dest)
        × (expected ≡ false → ¬ Expects peer dest pm.signal_id × (q.pstate ≡ terminating))
  unfolding handle_response Expects Answered
  handle_response_lem peer q pm dest expected s m h =
      >>=-elim (message_name dlep.protocfg pm) _ h λ received n _.
        elim (Option-cases (expected_at pm.signal_id (queue_of peer dest))) [
          | inr (rest, e) ↦
              let (front, first, same) =
                expected_at_lem dlep pm.signal_id (queue_of peer dest) rest e in
              let r =
                ok-injective (sym (handle_response-some peer pm received dest rest n m e) ∙ h) in
              (
                λ _. (
                  (front, rest, first, same),
                  subst (λ t. Answered peer t.0 dest) r (answered peer dest front rest s first),
                ),
                λ no'. absurd (cc (ap (λ t. t.1) r, no')),
              )
          | inl e ↦
              >>=-elim (terminate dlep peer "Unexpected_Message" (unexpected_response received)) _
                (sym (handle_response-none peer pm received dest n m e) ∙ h)
                λ p ended r'.
                  let r = ok-injective r' in
                  (
                    λ yes'. absurd (cc (ap (λ t. t.1) r, yes')),
                    λ _. (
                      λ x. absurd (
                          cc (
                            e,
                            expected_at-first pm.signal_id (queue_of peer dest) x.1 x.0 x.2 x.3,
                          )),
                      ap (λ t. t.0.pstate) (sym r) ∙ (terminate-ends dlep peer p _ _ ended).0,
                    ),
                  )
        ]
