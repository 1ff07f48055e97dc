-- ===== src/Peer/Ending.antt =====
-- Peer.cpp: terminate(), and the messages that end a session.
use ll_dlep.Common.{
  ℕ, ◌+◌, String, ◌≡◌, refl, sym, ap, ◌∙◌, inl, inr, true, false, not, some, List, [], ◌∷◌, ◌++◌,
  map, append-nil, append_assoc, ◌==◌, if◌then◌else◌, Bool-cases, ok, >>=-elim, nat_key, string_key,
  bytes_key, if-elim, if-≡-elim, ok-injective, WhenOk, value, after,
}
use ll_dlep.DataItem.Validate.{Problem}
use ll_dlep.Message.Build.{ProtocolMessage, new_message}
use ll_dlep.Message.Parse.{Report, bad_parse, validated, parse_and_validate}
use ll_dlep.Peer.State.{
  PeerState, nonexistent, connected, in_session, terminating, state_eq, ResponsePending, Reason,
  invalid_contents, PeerEvent, sent, timers_cancelled, client_peer_down,
  advert_destinations_cleared, info_base_peer_removed, Peer, Dlep, emit,
}
use ll_dlep.Peer.Responses.{
  is_not_interested, send_session_message, new_response_pending, queue_of, set_queue, enqueue,
  send_if_front, send_message_expecting_response, send_expecting_response, set_state,
  set_state_terminating, stop_peer, termination_message, terminate,
}
use ll_dlep.Peer.Sound.{List-cases}
use ll_dlep.Peer.Dispatch.{handle_report, handle_peer_signal}

-- The state of the session and what is known of the peer are the same, and the log is longer by
-- messages that were sent.
unfoldable pub OnlySends : Peer → Peer → Type 0
OnlySends p q =
    (q.pstate ≡ p.pstate)
    × (q.peer_pdp ≡ p.peer_pdp)
    × (q.peer_id ≡ p.peer_id)
    × ((packets : List (List ℕ)) × (q.events ≡ p.events ++ map sent packets))

pub state_eq-terminating : (s : PeerState) → state_eq s terminating ≡ true → s ≡ terminating
state_eq-terminating nonexistent e = absurd (cc e)
state_eq-terminating connected e = absurd (cc e)
state_eq-terminating in_session e = absurd (cc e)
state_eq-terminating terminating e = refl

module _ (dlep : Dlep) where
  nothing_sent : (p : Peer) → OnlySends p p
  unfolding OnlySends
  nothing_sent p = (refl, refl, refl, ([], sym (append-nil p.events)))

  send_if_front-OnlySends :
      (peer : Peer) (rp : ResponsePending) → OnlySends peer (send_if_front dlep peer rp)
  unfolding send_if_front set_queue send_session_message emit OnlySends
  send_if_front-OnlySends peer rp = elim (List-cases (queue_of peer rp.destination)) [
    | inl e ↦ rw (e, send_if_front) (nothing_sent peer)
    | inr (front, rest, e) ↦
        rw (e, send_if_front)
          (if-elim (OnlySends peer) (front.address == rp.address) _ _
            (λ _. (refl, refl, refl, (rp.msg_buffer ∷ [], refl))) (λ _. nothing_sent peer))
  ]

  pub send_expecting_response-OnlySends :
      (peer : Peer) (pm : ProtocolMessage)
      → WhenOk (OnlySends peer) (send_expecting_response dlep peer pm)
  unfolding send_expecting_response send_message_expecting_response enqueue set_queue OnlySends
  send_expecting_response-OnlySends peer pm =
      after _ (new_response_pending dlep.protocfg peer.next_address pm) _ λ rp _. value _ _ (
        if-elim (OnlySends peer)
          (is_not_interested (record peer { next_address = peer.next_address + 1 }) rp.destination)
          _ _ (λ _. nothing_sent peer)
          (λ _.
            if-elim (λ base. OnlySends peer (send_if_front dlep base rp)) rp.queued _ _
              (λ _. send_if_front-OnlySends _ rp) (λ _. send_if_front-OnlySends _ rp)))

  -- What stop_peer() does to the surroundings.
  abbrev pub stops : Peer → List PeerEvent
  stops peer =
      timers_cancelled
      ∷ client_peer_down peer.peer_id
      ∷ (if dlep.dest_advert_enabled then advert_destinations_cleared ∷ [] else [])

  stop_peer-events :
      (peer : Peer)
      → state_eq peer.pstate terminating ≡ false
      → ((stop_peer dlep peer).events ≡ peer.events ++ stops peer)
        × ((stop_peer dlep peer).pstate ≡ terminating)
        × ((stop_peer dlep peer).peer_pdp ≡ peer.peer_pdp)
  unfolding stop_peer set_state_terminating set_state emit
  stop_peer-events peer e = elim (Bool-cases dlep.dest_advert_enabled) [
    | inl on ↦
        rw (e, on)
          (
            append_assoc (peer.events ++ (timers_cancelled ∷ []))
                  (client_peer_down peer.peer_id ∷ []) (advert_destinations_cleared ∷ [])
                ∙ append_assoc peer.events (timers_cancelled ∷ [])
                    (client_peer_down peer.peer_id ∷ advert_destinations_cleared ∷ []),
            refl,
            refl,
          )
    | inr off ↦
        rw (e, off)
          (
            append_assoc peer.events (timers_cancelled ∷ []) (client_peer_down peer.peer_id ∷ []),
            refl,
            refl,
          )
  ]

  -- The end of a session, from one state to the next.
  unfoldable pub Ends : Peer → Peer → Type 0
  Ends peer q =
      (q.pstate ≡ terminating)
      × (q.peer_pdp ≡ peer.peer_pdp)
      × ((packets : List (List ℕ)) × (q.events
            ≡ ((peer.events ++ stops peer) ++ map sent packets)
              ++ (info_base_peer_removed peer.peer_id ∷ [])))

  -- When terminate() returns, a session that was terminating already is as it was. Any other is
  -- terminating now, with what is known of the peer unchanged: its timers are cancelled, the client
  -- is told once that the peer is down, the destination advertisements are cleared if they are in
  -- use, nothing but messages is sent, and last the peer is removed from the information base.
  pub terminate_lem :
      (peer q : Peer) (status_name : String) (reason : Reason)
      → terminate dlep peer status_name reason ≡ ok q
      → (state_eq peer.pstate terminating ≡ true → q ≡ peer)
        × (state_eq peer.pstate terminating ≡ false → Ends peer q)
  unfolding terminate emit Ends OnlySends
  terminate_lem peer q status_name reason h =
      if-≡-elim (state_eq peer.pstate terminating) h
        (λ now e. (λ _. sym (ok-injective e), λ other. absurd (cc (now, other))))
        (λ not_yet e. (
          λ now. absurd (cc (now, not_yet)),
          λ _. >>=-elim (termination_message dlep status_name reason) _ e λ pm _ e1.
              >>=-elim (send_expecting_response dlep (stop_peer dlep peer) pm) _ e1 λ peer' e2 e3.
                let (state, pdp, id, sends) =
                  send_expecting_response-OnlySends (stop_peer dlep peer) pm peer' e2 in
                let (log, ended, kept) = stop_peer-events peer not_yet in
                let same = ok-injective e3 in
                (
                  ap (λ p. p.pstate) (sym same) ∙ state ∙ ended,
                  ap (λ p. p.peer_pdp) (sym same) ∙ pdp ∙ kept,
                  (
                    sends.0,
                    ap (λ p. p.events) (sym same)
                        ∙ ap (λ l. l ++ (info_base_peer_removed peer.peer_id ∷ []))
                            (sends.1 ∙ ap (λ l. l ++ map sent sends.0) log),
                  ),
                ),
        ))

  pub terminate-ends :
      (peer q : Peer) (status_name : String) (reason : Reason)
      → terminate dlep peer status_name reason ≡ ok q
      → (q.pstate ≡ terminating) × (q.peer_pdp ≡ peer.peer_pdp)
  unfolding Ends
  terminate-ends peer q status_name reason h =
      let (now, other) = terminate_lem peer q status_name reason h in
      elim (Bool-cases (state_eq peer.pstate terminating)) [
        | inl e ↦ (
          ap (λ p. p.pstate) (now e) ∙ state_eq-terminating peer.pstate e,
          ap (λ p. p.peer_pdp) (now e),
        )
        | inr e ↦ ((other e).0, (other e).1)
      ]

  -- A report of parse_and_validate() that is not a success.
  unfoldable pub IsBad : Report → Type 0
  IsBad (bad_parse outcome) = Unit
  IsBad (validated r) = (p : Problem) × (r ≡ ok (some p))

  handle_report-bad :
      (peer q : Peer) (pm : ProtocolMessage) (report : Report)
      → IsBad report
      → handle_report dlep peer pm report ≡ ok q
      → (q.pstate ≡ terminating) × (q.peer_pdp ≡ peer.peer_pdp)
  unfolding handle_report IsBad
  handle_report-bad peer q pm (bad_parse outcome) bad h = terminate-ends peer q _ _ h
  handle_report-bad peer q pm (validated r) (p, e) h =
      terminate-ends peer q "Invalid_Message" (invalid_contents p) (rw e at h)

  -- When handle_peer_signal() returns for the bytes of a message that do not parse or whose
  -- contents are not valid, the session is terminating, and what is known of the peer is as before.
  pub handle_peer_signal-bad :
      (peer q : Peer) (buf : List ℕ)
      → IsBad (parse_and_validate dlep.protocfg new_message buf false (not dlep.is_modem)).1
      → handle_peer_signal dlep peer buf ≡ ok q
      → (q.pstate ≡ terminating) × (q.peer_pdp ≡ peer.peer_pdp)
  unfolding handle_peer_signal
  handle_peer_signal-bad peer q buf bad h =
      let r = parse_and_validate dlep.protocfg new_message buf false (not dlep.is_modem) in
      handle_report-bad peer q r.0 r.1 bad h
