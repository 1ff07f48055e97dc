-- ===== src/Tests/Session.antt =====
-- Runs of a session on a small protocol configuration, and each theorem about it applied once.
use ll_dlep.Common.{
  ℕ, suc, ◌+◌, ◌*◌, ◌≤◌, ◌<◌, String, ◌≡◌, refl, true, false, ◌||◌, none, List, [], ◌∷◌, ◌++◌, map,
  arith, ltb, ◌==◌, length, All, Result, ok, ◌>>=◌, map_find, map_insert, map_erase, map_has,
  nat_key, string_key, bytes_key, AllValues,
}
use mathlib.Core.Logic.{◌↔◌}
use ll_dlep.ProtocolConfig.{SignalInfo, ProtocolConfig}
use ll_dlep.DataItem.Types.{
  SubDataItem, DataItemInfo, DataItem, div_u8, div_u32, div_string, div_v_extid, u32,
}
use ll_dlep.InfoBase.PeerData.{PeerData}
use ll_dlep.InfoBase.PeerUpdates.{IsConsistent}
use ll_dlep.Message.Build.{ProtocolMessage, new_message}
use ll_dlep.Message.CommonItems.{ClientConfig}
use ll_dlep.Peer.State.{
  terminating, in_session, state_eq, ResponsePending, no_reason, sent, client_peer_up,
  client_peer_down, timers_cancelled, info_base_peer_removed, Peer, Dlep, new_peer_session,
}
use ll_dlep.Message.Parse.{parse_and_validate, is_complete_message}
use ll_dlep.Message.Values.{get_mac}
use ll_dlep.Peer.Responses.{if_not_present, terminate, handle_response, check_for_activity}
use ll_dlep.Peer.Dispatch.{handle_peer_signal}
use ll_dlep.Peer.Initialization.{interval_in_seconds, handle_peer_initialization}
use ll_dlep.Peer.Addresses.{validate_ip_data_items}
use ll_dlep.Peer.Owners.{IsAllowed, validate_ip_data_items_lem}
use ll_dlep.Peer.Framing.{handle_complete}
use ll_dlep.Peer.Framing.Rounds.{IsByte}
use ll_dlep.Peer.Framing.Chunks.{handle_complete-append}
use ll_dlep.Peer.Framing.Messages.{handle_each, Fits, bytes_of, stream, handle_complete-messages}
use ll_dlep.Peer.Runs.{IsReachable, connected_now, and_then, terminated}
use ll_dlep.Peer.Sound.{IsSound}
use ll_dlep.Peer.Sound.Runs.{IsReachable-IsSound}
use ll_dlep.Peer.Ending.{Ends, IsBad, terminate_lem, handle_peer_signal-bad}
use ll_dlep.Peer.Answers.{Expects, Answered, handle_response_lem}
use ll_dlep.Peer.Activity.{check_for_activity_lem}
use ll_dlep.DestAdvert.{DestAdvertDbEntry, PurgeConfig, up}
use ll_dlep.Peer.Setup.{
  milliseconds, interval_in_seconds_lem, handle_peer_initialization-in_session,
}
use ll_dlep.Tests.{config, status_info, mac_info, ipv4_info, address, peer_mac}

abbrev heartbeat_info : DataItemInfo
heartbeat_info = record {
  name = "Heartbeat_Interval";
  id = 5;
  value_type = div_u32;
  flags = 0;
  units = "milliseconds";
  sub_data_items = [];
}

abbrev peer_type_info : DataItemInfo
peer_type_info = record {
  name = "Peer_Type";
  id = 4;
  value_type = div_string;
  flags = 0;
  units = "";
  sub_data_items = [];
}

abbrev extensions_info : DataItemInfo
extensions_info = record {
  name = "Extensions_Supported";
  id = 6;
  value_type = div_v_extid;
  flags = 0;
  units = "";
  sub_data_items = [];
}

abbrev pub message_info : String → ℕ → List SubDataItem → ℕ → SignalInfo
message_info name id data_items response_id = record {
  name = name;
  id = id;
  flags = 7;
  data_items = data_items;
  response_id = response_id;
}

abbrev pub session_config : ProtocolConfig
session_config = record config {
  message_map =
      (1, "Session_Initialization")
      ∷ (2, "Session_Initialization_Response")
      ∷ (5, "Session_Termination")
      ∷ (6, "Session_Termination_Response")
      ∷ [];
  data_item_map =
      (1, "Status")
      ∷ (4, "Peer_Type")
      ∷ (5, "Heartbeat_Interval")
      ∷ (6, "Extensions_Supported")
      ∷ (7, "MAC_Address")
      ∷ (8, "IPv4_Address")
      ∷ [];
  message_info_map =
      message_info "Session_Initialization_Response" 2 [] 0
      ∷ message_info "Session_Termination" 5 (record { name = "Status"; id = 1; occurs = "1" } ∷ [])
          6
      ∷ message_info "Session_Termination_Response" 6 [] 0
      ∷ [];
  data_item_info_map =
      status_info ∷ peer_type_info ∷ heartbeat_info ∷ extensions_info ∷ mac_info ∷ ipv4_info ∷ [];
}

abbrev pub client : ClientConfig
client = record {
  heartbeat_interval = 0;
  heartbeat_threshold = 4;
  ack_timeout = 5;
  ack_probability = 0;
  send_tries = 3;
  peer_type = none;
  peer_flags = none;
}

abbrev pub nobody : PeerData
nobody = record {
  peer_id = "router";
  destination_data = [];
  metric_data_items = [];
  ip_data_items = [];
  other_data_items = [];
}

abbrev pub dlep : Dlep
dlep = record {
  protocfg = session_config;
  is_modem = false;
  client = client;
  local_pdp = nobody;
  peers_before = [];
  peers_after = [];
  time = 100;
  rand = λ n. n;
  describe = λ r. [];
  client_peer_init = λ name dis. none;
  client_destination_up_status = λ name mac dis. "";
  dest_advert_enabled = false;
  peer_mac_address = none;
}

abbrev pub begun : Peer
begun = new_peer_session "modem" nobody 90

abbrev heartbeat_item : DataItem
heartbeat_item = record { id = 5; value = u32 1500 }

abbrev initialization : ProtocolMessage
initialization = record new_message {
  signal_id = 1;
  signal_id_initialized = true;
  data_items = heartbeat_item ∷ [];
}

abbrev ending : ℕ → ResponsePending
ending status = record {
  address = 0;
  response_id = 6;
  response_name = "Session_Termination_Response";
  destination = [];
  queued = true;
  msg_buffer = 0 ∷ 5 ∷ 0 ∷ 5 ∷ 0 ∷ 1 ∷ 0 ∷ 1 ∷ status ∷ [];
  send_time = 100;
  send_tries = 1;
}

-- The session after its end, with the status that was sent.
abbrev ended : ℕ → Peer
ended status = record begun {
  pstate = terminating;
  responses_pending = ([], ending status ∷ []) ∷ [];
  next_address = 1;
  events =
      timers_cancelled
      ∷ client_peer_down "modem"
      ∷ sent (ending status).msg_buffer
      ∷ info_base_peer_removed "modem"
      ∷ [];
}

terminate_run : terminate dlep begun "Success" no_reason ≡ ok (ended 0)
unfolding terminate new_peer_session ll_dlep.Peer.Responses.termination_message
    ll_dlep.Message.Build.add_header ll_dlep.ProtocolConfig.get_signal_id
    ll_dlep.Serialize.serialize_field ll_dlep.Message.Build.add_status
    ll_dlep.Message.Build.find_status_code_id ll_dlep.ProtocolConfig.get_status_code_id
    ll_dlep.ProtocolConfig.get_data_item_value_type ll_dlep.Message.Build.add_new_data_item
    ll_dlep.ProtocolConfig.get_data_item_id ll_dlep.Message.Build.add_data_item
    ll_dlep.DataItem.Wire.serialize ll_dlep.DataItem.Types.type_eq
    ll_dlep.DataItem.Wire.serialize_header ll_dlep.Serialize.serialize_value
    ll_dlep.Serialize.put_bytes ll_dlep.Message.Build.update_message_length
    ll_dlep.Message.Build.size_minus ll_dlep.Message.Build.message_name
    ll_dlep.ProtocolConfig.get_message_name ll_dlep.Message.Parse.ignore_report
    ll_dlep.Message.Parse.parse_and_validate_again ll_dlep.Message.Parse.report
    ll_dlep.Message.Parse.parse ll_dlep.Message.Parse.parse_contents
    ll_dlep.Serialize.deserialize_field ll_dlep.Serialize.get_bytes
    ll_dlep.Message.Parse.parse_length ll_dlep.Message.Parse.parse_data_items
    ll_dlep.Message.Parse.parse_data_item ll_dlep.DataItem.Wire.deserialize
    ll_dlep.ProtocolConfig.get_data_item_info ll_dlep.DataItem.Wire.deserialize_as
    ll_dlep.Serialize.deserialize_u8 ll_dlep.Message.Parse.validate_message
    ll_dlep.ProtocolConfig.get_signal_info ll_dlep.Message.Parse.check_sender
    ll_dlep.DataItem.Validate.validate_occurrences ll_dlep.DataItem.Validate.check_left
    ll_dlep.DataItem.Validate.check_all ll_dlep.DataItem.Validate.check_occurs
    ll_dlep.DataItem.Validate.occurs_actual ll_dlep.DataItem.Validate.count_all
    ll_dlep.DataItem.Validate.count_one ll_dlep.DataItem.Validate.erase
    ll_dlep.Message.Parse.validate_each ll_dlep.DataItem.Validate.validate
    ll_dlep.DataItem.Types.get_type ll_dlep.DataItem.Validate.validate_u8
    ll_dlep.Peer.Responses.send_expecting_response ll_dlep.Peer.Responses.new_response_pending
    get_mac ll_dlep.Message.Values.get_data_item_value ll_dlep.Message.Values.first_value
    ll_dlep.Peer.State.emit ll_dlep.Peer.Responses.send_message_expecting_response
    ll_dlep.Peer.Responses.is_not_interested map_has ll_dlep.Peer.Responses.stop_peer
    ll_dlep.Peer.Responses.set_state_terminating ll_dlep.Peer.Responses.set_state
    ll_dlep.Peer.Responses.send_if_front ll_dlep.Peer.Responses.queue_of map_find
    ll_dlep.Peer.Responses.enqueue ll_dlep.Peer.Responses.set_queue map_insert
    ll_dlep.Peer.Responses.send_session_message ll_dlep.DataItem.Wire.serialize_value
    ll_dlep.DataItem.Validate.validate_value
terminate_run = refl

terminate_lem_example :
    (state_eq begun.pstate terminating ≡ true → ended 0 ≡ begun)
    × (state_eq begun.pstate terminating ≡ false → Ends dlep begun (ended 0))
terminate_lem_example = terminate_lem dlep begun (ended 0) "Success" no_reason terminate_run

unparsable : IsBad dlep (parse_and_validate session_config new_message (0 ∷ 9 ∷ []) false true).1
unfolding IsBad parse_and_validate ll_dlep.Message.Parse.report ll_dlep.Message.Parse.parse_buffer
    ll_dlep.Message.Parse.parse ll_dlep.Message.Parse.parse_contents
    ll_dlep.Serialize.deserialize_field ll_dlep.Serialize.get_bytes
    ll_dlep.Message.Parse.parse_length
unparsable = tt

bad_run : handle_peer_signal dlep begun (0 ∷ 9 ∷ []) ≡ ok (ended 130)
unfolding terminate new_peer_session ll_dlep.Peer.Responses.termination_message
    ll_dlep.Message.Build.add_header ll_dlep.ProtocolConfig.get_signal_id
    ll_dlep.Serialize.serialize_field ll_dlep.Message.Build.add_status
    ll_dlep.Message.Build.find_status_code_id ll_dlep.ProtocolConfig.get_status_code_id
    ll_dlep.ProtocolConfig.get_data_item_value_type ll_dlep.Message.Build.add_new_data_item
    ll_dlep.ProtocolConfig.get_data_item_id ll_dlep.Message.Build.add_data_item
    ll_dlep.DataItem.Wire.serialize ll_dlep.DataItem.Types.type_eq
    ll_dlep.DataItem.Wire.serialize_header ll_dlep.Serialize.serialize_value
    ll_dlep.Serialize.put_bytes ll_dlep.Message.Build.update_message_length
    ll_dlep.Message.Build.size_minus ll_dlep.Message.Build.message_name
    ll_dlep.ProtocolConfig.get_message_name ll_dlep.Message.Parse.ignore_report
    ll_dlep.Message.Parse.parse_and_validate_again ll_dlep.Message.Parse.report
    ll_dlep.Message.Parse.parse ll_dlep.Message.Parse.parse_contents
    ll_dlep.Serialize.deserialize_field ll_dlep.Serialize.get_bytes
    ll_dlep.Message.Parse.parse_length ll_dlep.Message.Parse.parse_data_items
    ll_dlep.Message.Parse.parse_data_item ll_dlep.DataItem.Wire.deserialize
    ll_dlep.ProtocolConfig.get_data_item_info ll_dlep.DataItem.Wire.deserialize_as
    ll_dlep.Serialize.deserialize_u8 ll_dlep.Message.Parse.validate_message
    ll_dlep.ProtocolConfig.get_signal_info ll_dlep.Message.Parse.check_sender
    ll_dlep.DataItem.Validate.validate_occurrences ll_dlep.DataItem.Validate.check_left
    ll_dlep.DataItem.Validate.check_all ll_dlep.DataItem.Validate.check_occurs
    ll_dlep.DataItem.Validate.occurs_actual ll_dlep.DataItem.Validate.count_all
    ll_dlep.DataItem.Validate.count_one ll_dlep.DataItem.Validate.erase
    ll_dlep.Message.Parse.validate_each ll_dlep.DataItem.Validate.validate
    ll_dlep.DataItem.Types.get_type ll_dlep.DataItem.Validate.validate_u8
    ll_dlep.Peer.Responses.send_expecting_response ll_dlep.Peer.Responses.new_response_pending
    get_mac ll_dlep.Message.Values.get_data_item_value ll_dlep.Message.Values.first_value
    ll_dlep.Peer.State.emit ll_dlep.Peer.Responses.send_message_expecting_response
    ll_dlep.Peer.Responses.is_not_interested map_has ll_dlep.Peer.Responses.stop_peer
    ll_dlep.Peer.Responses.set_state_terminating ll_dlep.Peer.Responses.set_state
    ll_dlep.Peer.Responses.send_if_front ll_dlep.Peer.Responses.queue_of map_find handle_peer_signal
    ll_dlep.Peer.Dispatch.handle_report parse_and_validate ll_dlep.Message.Parse.parse_buffer
    ll_dlep.Message.Build.remap_status ll_dlep.Peer.Responses.enqueue
    ll_dlep.Peer.Responses.set_queue map_insert ll_dlep.Peer.Responses.send_session_message
    ll_dlep.DataItem.Wire.serialize_value ll_dlep.DataItem.Validate.validate_value
bad_run = refl

handle_peer_signal-bad_example :
    ((ended 130).pstate ≡ terminating) × ((ended 130).peer_pdp ≡ begun.peer_pdp)
handle_peer_signal-bad_example =
    handle_peer_signal-bad dlep begun (ended 130) (0 ∷ 9 ∷ []) unparsable bad_run

nobody-IsConsistent : IsConsistent nobody
unfolding IsConsistent ll_dlep.InfoBase.IpUpdates.AreDistinct AllValues
nobody-IsConsistent = (tt, tt)

ended-IsReachable : IsReachable client (ended 0)
ended-IsReachable =
    and_then dlep refl (terminated "Success" no_reason terminate_run)
      (connected_now "modem" nobody 90 nobody-IsConsistent)

IsReachable-IsSound_example : IsSound client (ended 0)
IsReachable-IsSound_example = IsReachable-IsSound client (ended 0) ended-IsReachable

-- The session on which the end was sent and answered.
abbrev answered : Peer
answered = record (ended 0) { responses_pending = [] }

abbrev answer : ProtocolMessage
answer = record new_message { signal_id = 6; signal_id_initialized = true }

no_mac_run : if_not_present (get_mac session_config answer) [] ≡ ok []
unfolding get_mac ll_dlep.Message.Values.get_data_item_value ll_dlep.ProtocolConfig.get_data_item_id
    ll_dlep.Message.Values.first_value
no_mac_run = refl

answer_run : handle_response dlep (ended 0) answer ≡ ok (answered, true)
unfolding handle_response ll_dlep.Message.Build.message_name ll_dlep.ProtocolConfig.get_message_name
    get_mac ll_dlep.Message.Values.get_data_item_value ll_dlep.ProtocolConfig.get_data_item_id
    ll_dlep.Message.Values.first_value ll_dlep.Peer.Responses.expected_at
    ll_dlep.Peer.Responses.queue_of map_find ll_dlep.Peer.Responses.next_on_queue map_erase
answer_run = refl

handle_response_lem_example :
    (true ≡ true → Expects dlep (ended 0) [] 6 × Answered dlep (ended 0) answered [])
    × (true ≡ false → ¬ Expects dlep (ended 0) [] 6 × (answered.pstate ≡ terminating))
handle_response_lem_example =
    handle_response_lem dlep (ended 0) answered answer [] true
      (IsReachable-IsSound client (ended 0) ended-IsReachable) no_mac_run answer_run

abbrev lively : Peer
lively = record begun { peer_heartbeat_interval_sec = 3 }

lively_run : check_for_activity dlep lively ≡ ok (lively, true)
unfolding check_for_activity new_peer_session
lively_run = refl

check_for_activity_lem_example :
    (true ≡ (3 == 0 || ltb 100 (90 + 3 * 4)))
    × (true ≡ true → lively ≡ lively)
    × (true ≡ false → lively.pstate ≡ terminating)
unfolding new_peer_session
check_for_activity_lem_example =
    check_for_activity_lem dlep lively lively true (omega arith) lively_run

interval_in_seconds_lem_example :
    (2 * 1000 * interval_in_seconds "milliseconds" 1500 ≤ 2 * 1500 + 1000)
    × (2 * 1500 < 2 * 1000 * interval_in_seconds "milliseconds" 1500 + 1000)
interval_in_seconds_lem_example =
    interval_in_seconds_lem "milliseconds" 1000 1500 milliseconds (omega arith)

validate_ip_data_items_lem_example :
    (validate_ip_data_items dlep begun (address ∷ []) [] ≡ ok none)
    ↔ All (IsAllowed dlep begun []) (address ∷ [])
validate_ip_data_items_lem_example = validate_ip_data_items_lem dlep begun [] (address ∷ [])

abbrev revived : Peer
revived = record (ended 0) {
  pstate = in_session;
  peer_heartbeat_interval = 1500;
  peer_heartbeat_interval_sec = 2;
  rand_calls = 1;
  events =
      (ended 0).events
      ++ (client_peer_up (record {
        peer_id = "modem";
        peer_type = begun.peer_type;
        extensions = [];
        experiment_names = [];
        data_items = [];
        destinations = [];
        heartbeat_interval = 1500;
      })
          ∷ []);
}

allowed_run : validate_ip_data_items dlep (ended 0) (heartbeat_item ∷ []) [] ≡ ok none
unfolding validate_ip_data_items ll_dlep.ProtocolConfig.is_ipaddr
allowed_run = refl

revived_run : handle_peer_initialization dlep (ended 0) initialization ≡ ok revived
unfolding terminate new_peer_session ll_dlep.Peer.Responses.termination_message
    ll_dlep.Message.Build.add_header ll_dlep.ProtocolConfig.get_signal_id
    ll_dlep.Serialize.serialize_field ll_dlep.Message.Build.add_status
    ll_dlep.Message.Build.find_status_code_id ll_dlep.ProtocolConfig.get_status_code_id
    ll_dlep.ProtocolConfig.get_data_item_value_type ll_dlep.Message.Build.add_new_data_item
    ll_dlep.ProtocolConfig.get_data_item_id ll_dlep.Message.Build.add_data_item
    ll_dlep.DataItem.Wire.serialize ll_dlep.DataItem.Types.type_eq
    ll_dlep.DataItem.Wire.serialize_header ll_dlep.ProtocolConfig.get_data_item_name
    ll_dlep.Message.Build.message_name ll_dlep.ProtocolConfig.get_message_name
    ll_dlep.Message.Parse.ignore_report ll_dlep.Message.Parse.parse_and_validate_again
    ll_dlep.Message.Parse.report ll_dlep.Message.Parse.parse ll_dlep.Message.Parse.parse_contents
    ll_dlep.Serialize.deserialize_field ll_dlep.Serialize.get_bytes
    ll_dlep.Message.Parse.parse_length ll_dlep.Message.Parse.parse_data_items
    ll_dlep.Serialize.deserialize_u8 ll_dlep.Message.Parse.validate_message
    ll_dlep.ProtocolConfig.get_signal_info ll_dlep.Message.Parse.check_sender
    ll_dlep.DataItem.Validate.validate_occurrences ll_dlep.DataItem.Validate.check_left
    ll_dlep.DataItem.Validate.check_all ll_dlep.DataItem.Validate.check_occurs
    ll_dlep.DataItem.Validate.occurs_actual ll_dlep.DataItem.Validate.count_all
    ll_dlep.DataItem.Validate.count_one ll_dlep.DataItem.Validate.erase
    ll_dlep.Message.Parse.validate_each ll_dlep.DataItem.Validate.validate
    ll_dlep.DataItem.Types.get_type ll_dlep.DataItem.Validate.validate_u8
    ll_dlep.Peer.Responses.send_expecting_response ll_dlep.Peer.Responses.new_response_pending
    get_mac ll_dlep.Message.Values.get_data_item_value ll_dlep.Message.Values.first_value
    ll_dlep.Peer.State.emit ll_dlep.Peer.Responses.send_message_expecting_response
    ll_dlep.Peer.Responses.is_not_interested map_has ll_dlep.Peer.Responses.stop_peer
    ll_dlep.Peer.Responses.set_state_terminating ll_dlep.Peer.Responses.set_state
    handle_peer_initialization validate_ip_data_items ll_dlep.ProtocolConfig.is_ipaddr
    ll_dlep.Peer.Initialization.accept_peer_initialization
    ll_dlep.Peer.Initialization.store_peer_description ll_dlep.Message.Values.get_peer_type
    ll_dlep.Message.Values.get_experiment_names ll_dlep.Message.Values.get_data_item_values
    ll_dlep.Peer.Initialization.store_heartbeat_interval
    ll_dlep.Message.Values.get_heartbeat_interval ll_dlep.Message.Values.get_extensions
    ll_dlep.Peer.Send.send_peer_initialization_response
    ll_dlep.Message.CommonItems.add_common_data_items ll_dlep.Message.CommonItems.add_each_common
    ll_dlep.Peer.Send.add_any_extensions ll_dlep.Peer.Initialization.common_extensions
    ll_dlep.Message.Build.add_allowed_data_items ll_dlep.Message.Build.add_each_allowed
    ll_dlep.InfoBase.PeerData.get_data_items ll_dlep.InfoBase.Destination.map_values
    ll_dlep.Peer.Send.offer_to_client ll_dlep.Peer.Initialization.session_up
    ll_dlep.Peer.Send.send_each_destination ll_dlep.Peer.Initialization.advertise_peer
    ll_dlep.Peer.Send.schedule_heartbeat ll_dlep.Peer.Responses.should_send_response
    ll_dlep.Peer.Send.get_info interval_in_seconds ll_dlep.InfoBase.PeerData.get_destinations
    ll_dlep.DataItem.Wire.serialize_value ll_dlep.DataItem.Validate.validate_value
revived_run = refl

handle_peer_initialization-in_session_example : revived.pstate ≡ in_session
handle_peer_initialization-in_session_example =
    handle_peer_initialization-in_session dlep (ended 0) revived initialization allowed_run
      revived_run

-- A handler that keeps the messages.
abbrev keep : List (List ℕ) → List ℕ → Result (List (List ℕ))
keep kept msg = ok (kept ++ (msg ∷ []))

front_bytes : All IsByte (0 ∷ 6 ∷ 0 ∷ [])
front_bytes = (omega arith, (omega arith, (omega arith, tt)))

back_bytes : All IsByte (0 ∷ 0 ∷ 6 ∷ [])
back_bytes = (omega arith, (omega arith, (omega arith, tt)))

handle_complete-append_example :
    handle_complete session_config keep
      (suc (length {A = ℕ} (0 ∷ 6 ∷ 0 ∷ 0 ∷ 0 ∷ 6 ∷ [])))
      []
      (0 ∷ 6 ∷ 0 ∷ 0 ∷ 0 ∷ 6 ∷ [])
    ≡ (handle_complete session_config keep
          (suc (length {A = ℕ} (0 ∷ 6 ∷ 0 ∷ [])))
          []
          (0 ∷ 6 ∷ 0 ∷ [])
        >>= λ r.
            handle_complete session_config keep
              (suc (length (r.1 ++ (0 ∷ 0 ∷ 6 ∷ []))))
              r.0
              (r.1 ++ (0 ∷ 0 ∷ 6 ∷ [])))
handle_complete-append_example =
    handle_complete-append session_config keep (omega arith) (omega arith) [] (0 ∷ 6 ∷ 0 ∷ [])
      (0 ∷ 0 ∷ 6 ∷ []) front_bytes back_bytes

abbrev two_messages : List (ℕ × List ℕ)
two_messages = (6, []) ∷ (5, 1 ∷ 2 ∷ []) ∷ []

two_messages-Fits : All (Fits session_config) two_messages
unfolding Fits ll_dlep.Serialize.put_bytes
two_messages-Fits = (
  (omega arith, omega arith, omega arith, omega arith),
  ((omega arith, omega arith, omega arith, omega arith), tt),
)

half_run : is_complete_message session_config (0 ∷ 6 ∷ 0 ∷ []) ≡ ok (none, false)
unfolding is_complete_message
half_run = refl

handle_complete-messages_example :
    handle_complete session_config keep
      (suc (length (stream (map (bytes_of session_config) two_messages) (0 ∷ 6 ∷ 0 ∷ []))))
      []
      (stream (map (bytes_of session_config) two_messages) (0 ∷ 6 ∷ 0 ∷ []))
    ≡ (handle_each keep [] (map (bytes_of session_config) two_messages) >>= λ s'.
        ok (s', 0 ∷ 6 ∷ 0 ∷ []))
handle_complete-messages_example =
    handle_complete-messages session_config keep [] two_messages (0 ∷ 6 ∷ 0 ∷ []) none (omega arith)
      two_messages-Fits half_run

-- An advertisement that was heard 50 seconds ago and is repeated every 10 seconds.
abbrev heard : DestAdvertDbEntry
heard = record {
  timestamp = 50;
  estate = up;
  placeholder = false;
  info = record { report_interval = 10; destinations = peer_mac ∷ [] };
  data_items = [];
}

abbrev purge_config : PurgeConfig
purge_config = record { hold_interval = 0; expire_count = 3 }

-- We have the destination of the advertisement.
abbrev holder : PeerData
holder = record nobody {
  destination_data =
      (
        peer_mac,
        record {
          mac_address = peer_mac;
          metric_data_items = [];
          ip_data_items = [];
          needs_response = "";
        },
      )
      ∷ [];
}
