-- ===== src/Tests/Discovery.antt =====
-- A Peer Offer that reaches a router, and each theorem about discovery applied once.
use ll_dlep.Common.{
  ℕ, ◌≡◌, refl, true, false, Option, none, List, [], ◌∷◌, ok, nat_key, string_key, bytes_key,
}
use ll_dlep.ProtocolConfig.{ProtocolConfig}
use ll_dlep.Message.Build.{ProtocolMessage, new_message}
use ll_dlep.Message.Parse.{parse_and_validate}
use ll_dlep.Message.Values.{get_port}
use ll_dlep.PeerDiscovery.{
  IpAddress, v4_address, v6_address, Endpoint, Discovery, Outcome, connecting, Connection,
  get_ipv4_address, get_ipv4_conn_point, get_ipv6_address, get_ipv6_conn_point, if_found,
  connection_point, handle_message,
}
use ll_dlep.PeerDiscovery.Points.{Follows, connection_point_lem}
use ll_dlep.PeerDiscovery.Handling.{IsRight, handle_message_lem}
use ll_dlep.Tests.{address}
use ll_dlep.Tests.Session.{session_config, client, message_info}

abbrev offer_config : ProtocolConfig
offer_config = record session_config {
  signal_map = (2, "Peer_Offer") ∷ [];
  signal_info_map =
      message_info "Peer_Offer" 2 (record { name = "IPv4_Address"; id = 8; occurs = "0-1" } ∷ []) 0
      ∷ [];
}

-- A router without sessions.
abbrev router : Discovery
router = record {
  protocfg = offer_config;
  is_modem = false;
  client = client;
  session_port = 854;
  session_address = none;
  interface_address = v4_address (10 ∷ 0 ∷ 0 ∷ 9 ∷ []);
  udp_port = 854;
  peers = [];
  peer_id_of = λ ip port. "10.0.0.1:854";
  is_link_local = λ ip. false;
}

abbrev sender : Endpoint
sender = record { address = v6_address [] 3; port = 854 }

-- An offer with one IPv4_Address.
abbrev offer_bytes : List ℕ
offer_bytes = 68 ∷ 76 ∷ 69 ∷ 80 ∷ 0 ∷ 2 ∷ 0 ∷ 9 ∷ 0 ∷ 8 ∷ 0 ∷ 5 ∷ 1 ∷ 10 ∷ 0 ∷ 0 ∷ 1 ∷ []

abbrev offer : ProtocolMessage
offer = record new_message {
  signal_id = 2;
  signal_id_initialized = true;
  is_signal = true;
  data_items = address ∷ [];
}

abbrev target : IpAddress
target = v4_address (10 ∷ 0 ∷ 0 ∷ 1 ∷ [])

abbrev found_connection : Connection
found_connection = record { dest_ip = target; session_port = 854; may_need_scope_id = false }

message_run : handle_message router offer_bytes sender ≡ ok (connecting target 854)
unfolding handle_message ll_dlep.PeerDiscovery.is_valid parse_and_validate
    ll_dlep.Message.Parse.report ll_dlep.Message.Parse.parse_buffer ll_dlep.Message.Parse.parse
    ll_dlep.Message.Parse.match_prefix ll_dlep.Message.Parse.parse_contents
    ll_dlep.Serialize.deserialize_field ll_dlep.Serialize.get_bytes
    ll_dlep.Message.Parse.parse_length ll_dlep.Message.Build.message_name
    ll_dlep.ProtocolConfig.get_signal_name ll_dlep.Message.Parse.parse_data_items
    ll_dlep.Message.Parse.parse_data_item ll_dlep.DataItem.Wire.deserialize
    ll_dlep.ProtocolConfig.get_data_item_info ll_dlep.DataItem.Wire.deserialize_as
    ll_dlep.Serialize.deserialize_u8 ll_dlep.DataItem.Wire.deserialize_ip
    ll_dlep.Message.Parse.validate_message ll_dlep.ProtocolConfig.get_signal_info
    ll_dlep.Message.Parse.check_sender ll_dlep.DataItem.Validate.validate_occurrences
    ll_dlep.DataItem.Validate.check_left ll_dlep.DataItem.Validate.check_all
    ll_dlep.DataItem.Validate.check_occurs ll_dlep.DataItem.Validate.occurs_actual
    ll_dlep.DataItem.Validate.count_all ll_dlep.DataItem.Validate.count_one
    ll_dlep.DataItem.Validate.erase ll_dlep.Message.Parse.validate_each
    ll_dlep.DataItem.Validate.validate ll_dlep.DataItem.Types.type_eq
    ll_dlep.DataItem.Types.get_type ll_dlep.DataItem.Validate.validate_value
    ll_dlep.DataItem.Validate.validate_add_drop ll_dlep.PeerDiscovery.handle_peer_offer
    connection_point if_found get_port ll_dlep.Message.Values.get_data_item_value
    ll_dlep.ProtocolConfig.get_data_item_id get_ipv4_address ll_dlep.Message.Values.first_value
    get_ipv4_conn_point get_ipv6_address get_ipv6_conn_point
    ll_dlep.PeerDiscovery.use_ipv6_conn_point ll_dlep.PeerDiscovery.use_ipv6_address
    ll_dlep.PeerDiscovery.use_ipv4_conn_point ll_dlep.PeerDiscovery.use_ipv4_address
    ll_dlep.PeerDiscovery.use_port ll_dlep.PeerDiscovery.connect_once ll_dlep.Dlep.peer_state
    ll_dlep.Dlep.find_id
message_run = refl

handle_message_lem_example : IsRight router sender (connecting target 854)
handle_message_lem_example =
    handle_message_lem router offer_bytes sender (connecting target 854) message_run

point_run : connection_point router offer sender.address ≡ ok found_connection
unfolding connection_point if_found get_port ll_dlep.Message.Values.get_data_item_value
    ll_dlep.ProtocolConfig.get_data_item_id get_ipv4_address ll_dlep.Message.Values.first_value
    get_ipv4_conn_point get_ipv6_address get_ipv6_conn_point
    ll_dlep.PeerDiscovery.use_ipv6_conn_point ll_dlep.PeerDiscovery.use_ipv6_address
    ll_dlep.PeerDiscovery.use_ipv4_conn_point ll_dlep.PeerDiscovery.use_ipv4_address
    ll_dlep.PeerDiscovery.use_port
point_run = refl

connection_point_lem_example :
    (port : Option ℕ) × (ipv4 : Option (ℕ × List ℕ)) × (ipv4_point : Option (ℕ × List ℕ × ℕ))
    × (ipv6 : Option (ℕ × List ℕ)) × (ipv6_point : Option (ℕ × List ℕ × ℕ)) × (if_found
          (get_port offer_config offer)
        ≡ ok port)
    × (if_found (get_ipv4_address offer_config offer) ≡ ok ipv4)
    × (if_found (get_ipv4_conn_point offer_config offer) ≡ ok ipv4_point)
    × (if_found (get_ipv6_address offer_config offer) ≡ ok ipv6)
    × (if_found (get_ipv6_conn_point offer_config offer) ≡ ok ipv6_point)
    × Follows found_connection 854 sender.address port ipv4 ipv4_point ipv6 ipv6_point
connection_point_lem_example =
    connection_point_lem router offer sender.address found_connection point_run
