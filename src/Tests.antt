-- ===== src/Tests.antt =====
-- Runs of the model on a small protocol configuration, and each theorem applied once.
use ll_dlep.Common.{
  ℕ, ◌+◌, ◌%◌, ◌^◌, ◌≤◌, ◌<◌, ◌≡◌, refl, ◌≢◌, ◌⊎◌, inr, true, false, not, ◌&&◌, ◌||◌, none, some,
  List, [], ◌∷◌, ◌++◌, arith, if◌then◌else◌, length, invalid_argument, length_error,
  bad_status_code_name, ok, err, stuck, map_find, map_insert, map_erase, map_has, nat_key,
  string_key, bytes_key, AllValues,
}
use mathlib.Core.Logic.{◌↔◌}
use ll_dlep.Serialize.{
  put_bytes, serialize_value, fits_field, field_bytes, overwrite, serialize_at, serialize_field,
  deserialize_value, deserialize_field,
}
use ll_dlep.Serialize.RoundTrip.{
  deserialize_field-serialize_field, deserialize_value-serialize_value, serialize_field_lem,
}
use ll_dlep.Serialize.InPlace.{deserialize_field_lem, serialize_at_lem}
use ll_dlep.ProtocolConfig.{
  SignalInfo, ProtocolConfig, find_left, find_right, find_sub_by_name, find_sub_by_id,
  find_data_item_info, get_signal_id, get_message_name, get_data_item_id, get_data_item_name,
  get_status_code_id, get_data_item_info_by_name, get_data_item_info, is_metric, is_ipaddr,
}
use ll_dlep.DataItem.Types.{
  SubDataItem, DataItemInfo, DataItem, get_type, div_u8, div_u64, div_dlepmac, div_u8_ipv4, u64,
  dlepmac, u8_ipv4,
}
use ll_dlep.DataItem.Wire.{
  serialize_header, serialize, deserialize_ip, deserialize_all, deserialize_port, deserialize_as,
  deserialize,
}
use ll_dlep.DataItem.Wire as Wire
use ll_dlep.DataItem.WellTyped.{IsWellTyped, HasFieldSizes}
use ll_dlep.DataItem.RoundTrip.{deserialize-serialize}
use ll_dlep.DataItem.Termination.{deserialize-ne-stuck}
use ll_dlep.DataItem.Validate.{validate_occurrences}
use ll_dlep.DataItem.Occurrences.{validate_occurrences-Conforms, Conforms}
use ll_dlep.DataItem.Ip.{ip_equal, ip_flags_value}
use ll_dlep.InfoBase.Destination.{
  update_ip_data_items, DestinationData, record_data_item, record_data_items, new_destination,
  update_destination_data, destination_up, destination_update, destination_down, peer_update,
  is_adding,
}
use ll_dlep.InfoBase.IpUpdates.{
  contains_ip, AreDistinct, contains_ip-update_ip_data_items, update_ip_data_items-AreDistinct,
}
use ll_dlep.InfoBase.Updates.{latest, record_data_items-metric}
use ll_dlep.InfoBase.PeerData.{
  PeerData, success, invalid_message, update_data_item, update_each_data_item,
  update_data_items_helper, has_unknown_metric, update_all_destinations, update_destinations,
  update_data_items, add_destination, update_destination, remove_destination, valid_destination,
}
use ll_dlep.InfoBase.PeerUpdates.{IsConsistent, update_data_items-IsConsistent}
use ll_dlep.InfoBase.Metrics.{HasUnknownMetric, update_data_items-metrics}
use ll_dlep.InfoBase.Destinations.{
  told, add_destination_lem, update_destination_lem, remove_destination_lem,
}
use ll_dlep.Message.Build.{
  ProtocolMessage, new_message, size_minus, add_header, update_message_length, message_name,
  add_data_item, add_data_items, clear_data_items, add_each_allowed, find_status_code_id,
}
use ll_dlep.Message.Parse.{parse, parse_buffer, parsed, ran_out, is_complete_message}
use ll_dlep.Message.Layout.{
  HasLayout, message_bytes, header_size, add_header-HasLayout, add_data_item-HasLayout,
  clear_data_items-HasLayout,
}
use ll_dlep.Message.Received.{serialize_each, parse-build}
use ll_dlep.Message.Termination.{parse-ne-ran_out}
use ll_dlep.Message.Complete.{is_complete_message-message_bytes}
use ll_dlep.Message.Statuses.{
  find_status_code_id-terminates, find_status_code_id-loops, AreAllowed, add_each_allowed_lem,
}
mod Session
mod Service
mod Discovery

-- A configuration with one signal, one message and four data items.
abbrev pub status_info : DataItemInfo
status_info = record {
  name = "Status";
  id = 1;
  value_type = div_u8;
  flags = 0;
  units = "";
  sub_data_items = [];
}

abbrev pub mac_info : DataItemInfo
mac_info = record {
  name = "MAC_Address";
  id = 7;
  value_type = div_dlepmac;
  flags = 0;
  units = "";
  sub_data_items = [];
}

abbrev pub ipv4_info : DataItemInfo
ipv4_info = record {
  name = "IPv4_Address";
  id = 8;
  value_type = div_u8_ipv4;
  flags = 0;
  units = "";
  sub_data_items = [];
}

abbrev pub latency_info : DataItemInfo
latency_info = record {
  name = "Latency";
  id = 16;
  value_type = div_u64;
  flags = 1;
  units = "microseconds";
  sub_data_items = [];
}

abbrev one_mac : SubDataItem
one_mac = record { name = "MAC_Address"; id = 7; occurs = "1" }

abbrev destination_up_info : SignalInfo
destination_up_info = record {
  name = "Destination_Up";
  id = 11;
  flags = 7;
  data_items = one_mac ∷ [];
  response_id = 12;
}

abbrev pub config : ProtocolConfig
config = record {
  version = (1, 0);
  signal_prefix = 68 ∷ 76 ∷ 69 ∷ 80 ∷ [];
  signal_length_size = 2;
  signal_id_size = 2;
  data_item_length_size = 2;
  data_item_id_size = 2;
  extension_id_size = 2;
  signal_map = (1, "Peer_Discovery") ∷ [];
  message_map = (11, "Destination_Up") ∷ [];
  data_item_map = (1, "Status") ∷ (7, "MAC_Address") ∷ (8, "IPv4_Address") ∷ (16, "Latency") ∷ [];
  status_code_map = (0, "Success") ∷ (1, "Unknown_Message") ∷ (130, "Invalid_Data") ∷ [];
  signal_info_map = [];
  message_info_map = destination_up_info ∷ [];
  status_code_info_map = [];
  module_info_map = [];
  data_item_info_map = status_info ∷ mac_info ∷ ipv4_info ∷ latency_info ∷ [];
}

abbrev no_statuses : ProtocolConfig
no_statuses = record config { status_code_map = [] }

config-HasFieldSizes : HasFieldSizes config
config-HasFieldSizes = record { header = omega arith; extension = omega arith }

abbrev pub latency : DataItem
latency = record { id = 16; value = u64 5000 }

abbrev latency_bytes : List ℕ
latency_bytes = 0 ∷ 16 ∷ 0 ∷ 8 ∷ 0 ∷ 0 ∷ 0 ∷ 0 ∷ 0 ∷ 0 ∷ 19 ∷ 136 ∷ []

abbrev pub peer_mac : List ℕ
peer_mac = 2 ∷ 0 ∷ 0 ∷ 0 ∷ 0 ∷ 1 ∷ []

abbrev pub mac_item : DataItem
mac_item = record { id = 7; value = dlepmac peer_mac }

abbrev pub address : DataItem
address = record { id = 8; value = u8_ipv4 1 (10 ∷ 0 ∷ 0 ∷ 1 ∷ []) }

abbrev dropped : DataItem
dropped = record { id = 8; value = u8_ipv4 0 (10 ∷ 0 ∷ 0 ∷ 1 ∷ []) }

latency-IsWellTyped : IsWellTyped config none latency
unfolding get_data_item_info get_data_item_name get_data_item_info_by_name find_left find_sub_by_id
    find_data_item_info get_type
latency-IsWellTyped = (omega arith, (latency_info, refl, refl, omega arith))

serialize-latency : serialize config latency ≡ ok latency_bytes
unfolding serialize Wire.serialize_value serialize_header serialize_field serialize_at put_bytes
    serialize_value fits_field field_bytes overwrite
serialize-latency = refl

deserialize-serialize_example :
    deserialize 12 config none (latency_bytes ++ (9 ∷ [])) ≡ ok (latency, 9 ∷ [])
deserialize-serialize_example =
    deserialize-serialize config none latency 12 latency_bytes (9 ∷ []) config-HasFieldSizes
      latency-IsWellTyped serialize-latency (omega arith) (omega arith)

deserialize-ne-stuck_example : deserialize 13 config none latency_bytes ≢ stuck
deserialize-ne-stuck_example =
    deserialize-ne-stuck 13 config none latency_bytes config-HasFieldSizes (omega arith)

deserialize_value-serialize_value_example :
    deserialize_value 2 (serialize_value 2 300 ++ (7 ∷ [])) ≡ ok (300, 7 ∷ [])
deserialize_value-serialize_value_example =
    deserialize_value-serialize_value 2 300 (7 ∷ []) (omega arith)

serialize_field_run : serialize_field 4 300 2 [] ≡ ok (1 ∷ 44 ∷ [])
unfolding serialize_field serialize_at fits_field field_bytes overwrite
serialize_field_run = refl

deserialize_field-serialize_field_example :
    deserialize_field 4 2 ((1 ∷ 44 ∷ []) ++ (7 ∷ [])) ≡ ok (300, 7 ∷ [])
deserialize_field-serialize_field_example =
    deserialize_field-serialize_field 4 300 2 (7 ∷ []) (1 ∷ 44 ∷ []) (omega arith) (omega arith)
      serialize_field_run

serialize_field_lem_example :
    (300 < 256 ^ 2 → serialize_field 4 300 2 [] ≡ ok ([] ++ put_bytes 300 2))
    × (256 ^ 2 ≤ 300 → serialize_field 4 300 2 [] ≡ err invalid_argument)
serialize_field_lem_example = serialize_field_lem 4 300 2 [] (omega arith)

deserialize_field_lem_example :
    (length {A = ℕ} (1 ∷ 44 ∷ []) < 2 → deserialize_field 4 2 (1 ∷ 44 ∷ []) ≡ err length_error)
    × ((v : ℕ) (rest : List ℕ)
        → deserialize_field 4 2 (1 ∷ 44 ∷ []) ≡ ok (v, rest)
        → (1 ∷ 44 ∷ [] ≡ put_bytes v 2 ++ rest) × (v % 256 ^ 4 ≡ v))
deserialize_field_lem_example =
    deserialize_field_lem 4 2 (1 ∷ 44 ∷ []) (omega arith, (omega arith, tt)) (omega arith)

serialize_at_lem_example :
    serialize_at 8 5 2 ((7 ∷ []) ++ ((0 ∷ 0 ∷ []) ++ (9 ∷ []))) (length {A = ℕ} (7 ∷ []))
    ≡ ok ((7 ∷ []) ++ (put_bytes 5 2 ++ (9 ∷ [])))
serialize_at_lem_example =
    serialize_at_lem 8 5 2 (7 ∷ []) (0 ∷ 0 ∷ []) (9 ∷ []) (omega arith) (omega arith) refl
      (omega arith)

validate_occurrences-Conforms_example :
    (validate_occurrences config (mac_item ∷ []) (one_mac ∷ []) none ≡ ok none)
    ↔ Conforms (mac_item ∷ []) (one_mac ∷ [])
validate_occurrences-Conforms_example =
    validate_occurrences-Conforms config (mac_item ∷ []) (one_mac ∷ []) none (refl, tt)
      (omega arith)

one_address-AreDistinct : AreDistinct (address ∷ [])
unfolding AreDistinct contains_ip
one_address-AreDistinct = (refl, tt)

contains_ip-update_ip_data_items_example :
    contains_ip address (update_ip_data_items dropped (address ∷ []))
    ≡ (if ip_equal dropped address then is_adding dropped else contains_ip address (address ∷ []))
contains_ip-update_ip_data_items_example =
    contains_ip-update_ip_data_items address dropped (address ∷ []) one_address-AreDistinct

update_ip_data_items-AreDistinct_example : AreDistinct (update_ip_data_items address (address ∷ []))
update_ip_data_items-AreDistinct_example =
    update_ip_data_items-AreDistinct address (address ∷ []) one_address-AreDistinct

-- A destination, and a peer that has it.
abbrev slow : DataItem
slow = record { id = 16; value = u64 9000 }

abbrev fresh : DestinationData
fresh = record {
  mac_address = peer_mac;
  metric_data_items = [];
  ip_data_items = [];
  needs_response = "";
}

abbrev known : DestinationData
known = record fresh { metric_data_items = (16, latency) ∷ []; ip_data_items = address ∷ [] }

abbrev updated_destination : DestinationData
updated_destination = record known { metric_data_items = (16, slow) ∷ [] }

abbrev pub peer : PeerData
peer = record {
  peer_id = "modem";
  destination_data = [];
  metric_data_items = (16, latency) ∷ [];
  ip_data_items = [];
  other_data_items = [];
}

abbrev peer_with : DestinationData → PeerData
peer_with dd = record peer { destination_data = (peer_mac, dd) ∷ [] }

latency-is_metric : is_metric config 16 none ≡ ok true
unfolding is_metric get_data_item_info get_data_item_name get_data_item_info_by_name find_left
    find_sub_by_id find_data_item_info
latency-is_metric = refl

record_run : record_data_items config fresh 0 (latency ∷ address ∷ []) ≡ ok (known, 2)
unfolding record_data_items record_data_item is_metric is_ipaddr get_data_item_info
    get_data_item_name get_data_item_info_by_name find_left find_sub_by_id find_data_item_info
    map_insert update_ip_data_items ip_flags_value
record_run = refl

record_data_items-metric_example :
    map_find 16 known.metric_data_items
    ≡ latest 16 (latency ∷ address ∷ []) (map_find 16 fresh.metric_data_items)
record_data_items-metric_example =
    record_data_items-metric config 16 fresh known 0 2 (latency ∷ address ∷ []) latency-is_metric
      record_run

add_run :
    add_destination config peer peer_mac (latency ∷ address ∷ []) true
    ≡ ok (peer_with known, true, destination_up peer_mac (latency ∷ address ∷ []) ∷ [])
unfolding add_destination new_destination record_data_items record_data_item is_metric is_ipaddr
    get_data_item_info get_data_item_name get_data_item_info_by_name find_left find_sub_by_id
    find_data_item_info map_insert map_find update_ip_data_items ip_flags_value
add_run = refl

add_destination_lem_example :
    (true ≡ not (valid_destination peer peer_mac))
    × (true ≡ false → peer_with known ≡ peer)
    × ((m : List ℕ)
        → valid_destination (peer_with known) m
          ≡ (bytes_key.key_eq peer_mac m || valid_destination peer m))
    × (destination_up peer_mac (latency ∷ address ∷ []) ∷ []
        ≡ told true true (destination_up peer_mac (latency ∷ address ∷ [])))
    × (IsConsistent peer → IsConsistent (peer_with known))
add_destination_lem_example =
    add_destination_lem config peer (peer_with known) peer_mac (latency ∷ address ∷ []) true true
      (destination_up peer_mac (latency ∷ address ∷ []) ∷ []) add_run

update_run :
    update_destination config (peer_with known) peer_mac (slow ∷ []) true
    ≡ ok (peer_with updated_destination, true, destination_update peer_mac (slow ∷ []) ∷ [])
unfolding update_destination update_destination_data record_data_items record_data_item is_metric
    is_ipaddr get_data_item_info get_data_item_name get_data_item_info_by_name find_left
    find_sub_by_id find_data_item_info map_insert map_find update_ip_data_items ip_flags_value
update_run = refl

update_destination_lem_example :
    (true ≡ valid_destination (peer_with known) peer_mac)
    × (true ≡ false → peer_with updated_destination ≡ peer_with known)
    × ((m : List ℕ)
        → valid_destination (peer_with updated_destination) m
          ≡ valid_destination (peer_with known) m)
    × (IsConsistent (peer_with known) → IsConsistent (peer_with updated_destination))
    × ((k : ℕ) (dd dd' : DestinationData)
        → is_metric config k none ≡ ok true
        → map_find peer_mac (peer_with known).destination_data ≡ some dd
        → map_find peer_mac (peer_with updated_destination).destination_data ≡ some dd'
        → map_find k dd'.metric_data_items ≡ latest k (slow ∷ []) (map_find k dd.metric_data_items))
update_destination_lem_example =
    update_destination_lem config (peer_with known) (peer_with updated_destination) peer_mac
      (slow ∷ []) true true (destination_update peer_mac (slow ∷ []) ∷ []) update_run

remove_run :
    remove_destination (peer_with known) peer_mac true []
    ≡ (peer, true, destination_down peer_mac [] ∷ [])
unfolding remove_destination map_find map_erase
remove_run = refl

remove_destination_lem_example :
    (true ≡ valid_destination (peer_with known) peer_mac)
    × ((m : List ℕ)
        → valid_destination peer m
          ≡ (not (bytes_key.key_eq peer_mac m) && valid_destination (peer_with known) m))
    × (destination_down peer_mac [] ∷ [] ≡ told true true (destination_down peer_mac []))
remove_destination_lem_example =
    remove_destination_lem (peer_with known) peer peer_mac true true []
      (destination_down peer_mac [] ∷ []) remove_run

-- An update with the IP address, which stays with the peer, and the metric, which its
-- destinations get as well.
abbrev peer_after : PeerData
peer_after = record peer {
  destination_data = (peer_mac, updated_destination) ∷ [];
  metric_data_items = (16, slow) ∷ [];
  ip_data_items = address ∷ [];
}

update_data_items_run :
    update_data_items config (peer_with known) (slow ∷ address ∷ []) true
    ≡ ok (peer_after, success, peer_update (slow ∷ address ∷ []) ∷ [])
unfolding update_data_items has_unknown_metric update_data_items_helper update_each_data_item
    update_data_item update_destinations update_all_destinations update_destination_data
    record_data_items record_data_item is_metric is_ipaddr get_data_item_id get_data_item_info
    get_data_item_name get_data_item_info_by_name find_left find_right find_sub_by_id
    find_sub_by_name find_data_item_info map_insert map_find map_has update_ip_data_items
    ip_flags_value
update_data_items_run = refl

update_data_items-metrics_example :
    ((success ≡ invalid_message)
      × (peer_after ≡ peer_with known)
      × (peer_update (slow ∷ address ∷ []) ∷ [] ≡ [])
      × HasUnknownMetric config ((16, latency) ∷ []) (slow ∷ address ∷ []))
    ⊎ ((success ≡ success)
        × ((k : ℕ) → map_has k peer_after.metric_data_items ≡ map_has k peer.metric_data_items))
update_data_items-metrics_example =
    update_data_items-metrics config (peer_with known) peer_after success
      (peer_update (slow ∷ address ∷ []) ∷ []) (slow ∷ address ∷ []) true update_data_items_run

peer-IsConsistent : IsConsistent (peer_with known)
unfolding IsConsistent AreDistinct contains_ip AllValues
peer-IsConsistent = (tt, ((refl, tt), tt))

update_data_items-IsConsistent_example : IsConsistent peer_after
update_data_items-IsConsistent_example =
    update_data_items-IsConsistent config (peer_with known) peer_after success
      (peer_update (slow ∷ address ∷ []) ∷ []) (slow ∷ address ∷ []) true peer-IsConsistent
      update_data_items_run

-- A message with two data items, built and parsed.
abbrev start : ProtocolMessage
start = record new_message {
  msg_len_index = 2;
  header_length = 4;
  msgbuf = 0 ∷ 11 ∷ 0 ∷ 0 ∷ [];
  signal_id = 11;
  signal_id_initialized = true;
}

abbrev mac_bytes : List ℕ
mac_bytes = 0 ∷ 7 ∷ 0 ∷ 6 ∷ 2 ∷ 0 ∷ 0 ∷ 0 ∷ 0 ∷ 1 ∷ []

abbrev sent : ProtocolMessage
sent = record start { msgbuf = (0 ∷ 11 ∷ 0 ∷ 22 ∷ []) ++ (mac_bytes ++ latency_bytes) }

abbrev sent_mac : ProtocolMessage
sent_mac = record start { msgbuf = (0 ∷ 11 ∷ 0 ∷ 10 ∷ []) ++ mac_bytes }

start_run : add_header config new_message "Destination_Up" ≡ ok start
unfolding add_header get_signal_id serialize_field
start_run = refl

sent_run : add_data_items config start (mac_item ∷ latency ∷ []) ≡ ok sent
unfolding add_data_items add_data_item serialize Wire.serialize_value serialize_header
    serialize_field update_message_length size_minus get_data_item_name message_name
    get_message_name serialize_value put_bytes
sent_run = refl

sent_mac_run : add_data_item config start mac_item ≡ ok sent_mac
unfolding add_data_item serialize Wire.serialize_value serialize_header serialize_field
    update_message_length size_minus get_data_item_name message_name get_message_name
sent_mac_run = refl

body_run : serialize_each config (mac_item ∷ latency ∷ []) ≡ ok (mac_bytes ++ latency_bytes)
unfolding serialize_each serialize Wire.serialize_value serialize_header serialize_field
    serialize_value put_bytes
body_run = refl

name_run : message_name config sent ≡ ok "Destination_Up"
unfolding message_name get_message_name
name_run = refl

mac_item-IsWellTyped : IsWellTyped config none mac_item
unfolding get_data_item_info get_data_item_name get_data_item_info_by_name find_left find_sub_by_id
    find_data_item_info get_type
mac_item-IsWellTyped = (
  omega arith,
  (
    mac_info,
    refl,
    refl,
    (omega arith, (omega arith, (omega arith, (omega arith, (omega arith, (omega arith, tt)))))),
  ),
)

body_fits : header_size config false 11 + length (mac_bytes ++ latency_bytes) < 2 ^ 64
unfolding put_bytes
body_fits = omega arith

header_fits : header_size config false 11 < 2 ^ 64
unfolding put_bytes
header_fits = omega arith

mac_fits : header_size config false 11 + length mac_bytes < 2 ^ 64
unfolding put_bytes
mac_fits = omega arith

parse-build_example : parse_buffer config new_message sent.msgbuf sent.is_signal ≡ (
  record new_message {
    msgbuf = sent.msgbuf;
    is_signal = false;
    signal_id = 11;
    signal_id_initialized = true;
    data_items = mac_item ∷ latency ∷ [];
  },
  parsed,
)
parse-build_example =
    parse-build config new_message start sent "Destination_Up" "Destination_Up"
      (mac_bytes ++ latency_bytes) (mac_item ∷ latency ∷ []) config-HasFieldSizes (omega arith)
      (omega arith) (mac_item-IsWellTyped, (latency-IsWellTyped, tt)) start_run sent_run body_run
      body_fits name_run

parse-ne-ran_out_example : (parse config sent).1 ≢ ran_out
parse-ne-ran_out_example = parse-ne-ran_out config config-HasFieldSizes sent

start-HasLayout : HasLayout config false 11 start []
start-HasLayout = add_header-HasLayout config start "Destination_Up" (omega arith) start_run

add_data_item-HasLayout_example :
    (bs : List ℕ) × (serialize config mac_item ≡ ok bs)
    × (header_size config false 11 + length ([] ++ bs) < 2 ^ 64
        → HasLayout config false 11 sent_mac ([] ++ bs))
add_data_item-HasLayout_example =
    add_data_item-HasLayout config false 11 start sent_mac [] mac_item (omega arith) start-HasLayout
      sent_mac_run

clear_run : clear_data_items config start ≡ ok start
unfolding clear_data_items update_message_length serialize_at size_minus
clear_run = refl

clear_data_items-HasLayout_example : HasLayout config false 11 start [] × (start.data_items ≡ [])
clear_data_items-HasLayout_example =
    clear_data_items-HasLayout config false 11 start start [] (omega arith) header_fits
      start-HasLayout clear_run

is_complete_message-message_bytes_example :
    is_complete_message config (message_bytes config false 11 mac_bytes ++ (0 ∷ []))
    ≡ ok (some (length (message_bytes config false 11 mac_bytes)), true)
is_complete_message-message_bytes_example =
    is_complete_message-message_bytes config 11 mac_bytes (0 ∷ []) (omega arith) (omega arith)
      (omega arith) mac_fits

unknown_run : get_status_code_id config "Unknown_Message" ≡ ok 1
unfolding get_status_code_id find_right
unknown_run = refl

invalid_run : get_status_code_id config "Invalid_Data" ≡ ok 130
unfolding get_status_code_id find_right
invalid_run = refl

find_status_code_id-terminates_example :
    (id : ℕ) × (find_status_code_id config 3 "Inconsistent_Data" ≡ ok id)
find_status_code_id-terminates_example =
    find_status_code_id-terminates config "Inconsistent_Data" (1, unknown_run)
      (inr (130, invalid_run))

no_status_run :
    get_status_code_id no_statuses "Unknown_Message" ≡ err (bad_status_code_name "Unknown_Message")
unfolding get_status_code_id find_right
no_status_run = refl

find_status_code_id-loops_example : find_status_code_id no_statuses 100 "Unknown_Message" ≡ stuck
find_status_code_id-loops_example = find_status_code_id-loops no_statuses 100 no_status_run

add_each_allowed_lem_example :
    (kept : List DataItem) × AreAllowed config (one_mac ∷ []) (mac_item ∷ latency ∷ []) kept
    × (add_each_allowed config (one_mac ∷ []) start (mac_item ∷ latency ∷ [])
        ≡ add_data_items config start kept)
add_each_allowed_lem_example =
    add_each_allowed_lem config (one_mac ∷ []) start (mac_item ∷ latency ∷ [])
