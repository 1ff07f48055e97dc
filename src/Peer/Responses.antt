-- ===== src/Peer/Responses.antt =====
-- Peer.cpp: messages that expect a response, their queues, and the end of a session.
use ll_dlep.Common.{
  ℕ, ◌+◌, ◌-◌, ◌*◌, ◌%◌, ◌^◌, String, Bool, true, false, Option, none, some, List, [], ◌∷◌, ◌++◌,
  ltb, leb, ◌==◌, if◌then◌else◌, data_item_not_present, Result, ok, err, ◌>>=◌, str_eq, map_find,
  map_insert, map_erase, map_has, nat_key, string_key, bytes_key,
}
use ll_dlep.ProtocolConfig.{ProtocolConfig, get_signal_info, get_signal_name, get_message_name}
use ll_dlep.Message.Build.{
  ProtocolMessage, new_message, message_name, add_header, add_status, add_mac,
}
use ll_dlep.Message.Parse.{parse_and_validate_again, ignore_report}
use ll_dlep.Message.Values.{get_mac}
use ll_dlep.Peer.State.{
  PeerState, terminating, state_eq, ResponsePending, Reason, unexpected_response, inactive,
  max_send_tries, sent, client_peer_down, timers_cancelled, info_base_peer_removed,
  advert_destinations_cleared, Peer, Dlep, emit,
}

-- `catch (const ProtocolMessage::DataItemNotPresent &)` with a value to go on with.
abbrev pub if_not_present {ℓ} : {A : Type ℓ} → Result A → A → Result A
if_not_present (err (data_item_not_present name)) default = ok default
if_not_present r default = r

unfoldable pub send_session_message : Peer → List ℕ → Peer
send_session_message peer packet = emit peer (sent packet)

-- The constructor ResponsePending::ResponsePending(), at a new address.
unfoldable pub new_response_pending : ProtocolConfig → ℕ → ProtocolMessage → Result ResponsePending
new_response_pending cfg address pm = do
  name ← message_name cfg pm
  siginfo ← get_signal_info cfg name
  response_name ←
      if pm.is_signal
      then get_signal_name cfg siginfo.response_id
      else get_message_name cfg siginfo.response_id
  destination ← if_not_present (get_mac cfg pm) []
  ok record {
    address = address;
    response_id = siginfo.response_id;
    response_name = response_name;
    destination = destination;
    queued = false;
    msg_buffer = pm.msgbuf;
    send_time = 0;
    send_tries = 0;
  }

unfoldable pub is_not_interested : Peer → List ℕ → Bool
is_not_interested peer destination = map_has destination peer.not_interested_destinations

unfoldable pub not_interested : Peer → List ℕ → Peer
not_interested peer destination = record peer {
  not_interested_destinations = map_insert destination tt peer.not_interested_destinations;
}

-- The queue of a destination; operator[] makes one that is missing.
unfoldable pub queue_of : Peer → List ℕ → List ResponsePending
queue_of peer destination = elim (map_find destination peer.responses_pending) [
  | none ↦ []
  | some q ↦ q
]

unfoldable pub set_queue : Peer → List ℕ → List ResponsePending → Peer
set_queue peer destination q = record peer {
  responses_pending = map_insert destination q peer.responses_pending;
}

-- The part of send_message_expecting_response() that puts a message on its queue.
unfoldable pub enqueue : Peer → ResponsePending → Peer
enqueue peer rp =
    set_queue peer rp.destination
      (queue_of peer rp.destination ++ (record rp { queued = true } ∷ []))

-- The part that sends the message if it is at the head of its queue.
unfoldable pub send_if_front : Dlep → Peer → ResponsePending → Peer
send_if_front dlep peer rp = elim (queue_of peer rp.destination) [
  | [] ↦ peer
  | front ∷ rest ↦
      if front.address == rp.address
      then set_queue (send_session_message peer rp.msg_buffer) rp.destination (
          record rp {
            queued = true;
            send_time = dlep.time;
            send_tries = (rp.send_tries + 1) % 2 ^ 32;
          }
          ∷ rest)
      else peer
]

unfoldable pub send_message_expecting_response : Dlep → Peer → ResponsePending → Peer
send_message_expecting_response dlep peer rp =
    if is_not_interested peer rp.destination
    then peer
    else send_if_front dlep (if rp.queued then peer else enqueue peer rp) rp

-- `ResponsePendingPtr rp(new ResponsePending(dlep->protocfg, pm)); send_message_...(rp);`
unfoldable pub send_expecting_response : Dlep → Peer → ProtocolMessage → Result Peer
send_expecting_response dlep peer pm = do
  rp ← new_response_pending dlep.protocfg peer.next_address pm
  ok (
      send_message_expecting_response dlep (record peer { next_address = peer.next_address + 1 })
        rp)

-- set_state(), without its log.
unfoldable pub set_state : Peer → PeerState → Peer
set_state peer newstate = record peer { pstate = newstate }

unfoldable pub set_state_terminating : Dlep → Peer → Peer
set_state_terminating dlep peer =
    if state_eq peer.pstate terminating
    then peer
    else (let down = emit (set_state peer terminating) (client_peer_down peer.peer_id) in
        if dlep.dest_advert_enabled then emit down advert_destinations_cleared else down)

unfoldable pub stop_peer : Dlep → Peer → Peer
stop_peer dlep peer = set_state_terminating dlep (emit peer timers_cancelled)

-- The Session Termination message that terminate() sends.
unfoldable pub termination_message : Dlep → String → Reason → Result ProtocolMessage
termination_message dlep status_name reason = do
  pm ← add_header dlep.protocfg new_message "Session_Termination"
  pm' ← add_status dlep.protocfg 3 pm status_name (dlep.describe reason)
  ignore_report (parse_and_validate_again dlep.protocfg pm' dlep.is_modem)

unfoldable pub terminate : Dlep → Peer → String → Reason → Result Peer
terminate dlep peer status_name reason = if state_eq peer.pstate terminating then ok peer else (do
  pm ← termination_message dlep status_name reason
  peer' ← send_expecting_response dlep (stop_peer dlep peer) pm
  ok (emit peer' (info_base_peer_removed peer.peer_id)))

-- handle_response() once the response is seen to be the expected one: take the message off its
-- queue, and send the next one or remove the queue.
unfoldable pub next_on_queue : Dlep → Peer → List ℕ → List ResponsePending → Peer
next_on_queue dlep peer destination [] = record peer {
  responses_pending = map_erase destination peer.responses_pending;
}
next_on_queue dlep peer destination (rp ∷ rest) =
    send_message_expecting_response dlep (set_queue peer destination (rp ∷ rest)) rp

-- Is the response the one that the head of the queue waits for? The answer has the rest of the
-- queue.
unfoldable pub expected_at : ℕ → List ResponsePending → Option (List ResponsePending)
expected_at signal_id [] = none
expected_at signal_id (rp ∷ rest) = if rp.response_id == signal_id then some rest else none

unfoldable pub handle_response : Dlep → Peer → ProtocolMessage → Result (Peer × Bool)
handle_response dlep peer pm = do
  received ← message_name dlep.protocfg pm
  destination ← if_not_present (get_mac dlep.protocfg pm) []
  elim (expected_at pm.signal_id (queue_of peer destination)) [
    | some rest ↦ ok (next_on_queue dlep peer destination rest, true)
    | none ↦ do
      peer' ← terminate dlep peer "Unexpected_Message" (unexpected_response received)
      ok (peer', false)
  ]

-- The result says whether the peer is active.
unfoldable pub check_for_activity : Dlep → Peer → Result (Peer × Bool)
check_for_activity dlep peer =
    let active_time =
      (peer.last_receive_time
        + peer.peer_heartbeat_interval_sec * dlep.client.heartbeat_threshold % 2 ^ 32)
      % 2 ^ 32 in
    if peer.peer_heartbeat_interval_sec == 0
    then ok (peer, true)
    else if leb active_time dlep.time
    then (do
      peer' ← terminate dlep peer "Timed_Out" (inactive (dlep.time - active_time))
      ok (peer', false))
    else ok (peer, true)

-- One queue of check_for_retransmits(); the result says whether the loop goes on.
unfoldable pub retransmit_front : Dlep → Peer → List ResponsePending → Result (Peer × Bool)
retransmit_front dlep peer [] = ok (peer, true)
retransmit_front dlep peer (rp ∷ rest) =
    if ltb (rp.send_time + dlep.client.ack_timeout) dlep.time
    then (if ltb rp.send_tries dlep.client.send_tries
        then ok (send_message_expecting_response dlep peer rp, true)
        else (do
          peer' ←
              terminate dlep peer "Timed_Out"
                (max_send_tries rp.response_name dlep.client.send_tries)
          ok (peer', false)))
    else ok (peer, true)

-- The loop over the queues. A round changes only the queue of its own destination, until the last.
unfoldable pub retransmit_each : Dlep → Peer → List (List ℕ × List ResponsePending) → Result Peer
retransmit_each dlep peer [] = ok peer
retransmit_each dlep peer ((destination, q) ∷ rest) = do
  (peer', more) ← retransmit_front dlep peer q
  if more then retransmit_each dlep peer' rest else ok peer'

unfoldable pub check_for_retransmits : Dlep → Peer → Result Peer
check_for_retransmits dlep peer = retransmit_each dlep peer peer.responses_pending

-- should_send_response(), which calls std::rand() once.
unfoldable pub should_send_response : Dlep → Peer → Peer × Bool
should_send_response dlep peer = (
  record peer { rand_calls = peer.rand_calls + 1 },
  ltb (dlep.rand peer.rand_calls % 100) dlep.client.ack_probability,
)

unfoldable pub simple_response : Dlep → String → String → Option (List ℕ) → Result ProtocolMessage
simple_response dlep response_name status_name mac = do
  pm ← add_header dlep.protocfg new_message response_name
  pm' ← if str_eq status_name "" then ok pm else add_status dlep.protocfg 3 pm status_name []
  pm'' ← elim mac [ none ↦ ok pm' | some m ↦ add_mac dlep.protocfg pm' m ]
  ignore_report (parse_and_validate_again dlep.protocfg pm'' dlep.is_modem)

unfoldable pub send_simple_response : Dlep → Peer → String → String → Option (List ℕ) → Result Peer
send_simple_response dlep peer response_name status_name mac =
    let (peer', sendit) = should_send_response dlep peer in
    elim sendit [
      | false ↦ ok peer'
      | true ↦ do
        pm ← simple_response dlep response_name status_name mac
        ok (send_session_message peer' pm.msgbuf)
    ]
