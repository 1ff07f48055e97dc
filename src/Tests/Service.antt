-- ===== src/Tests/Service.antt =====
-- Runs of the service with one session, and each theorem about it applied once.
use ll_dlep.Common.{
  ℕ, String, ◌≡◌, refl, true, List, [], ◌∷◌, ok, map_find, map_insert, nat_key, string_key,
  bytes_key,
}
use ll_dlep.ProtocolConfig.{ProtocolConfig}
use ll_dlep.DataItem.Types.{DataItem}
use ll_dlep.InfoBase.Destination.{DestinationData}
use ll_dlep.InfoBase.PeerData.{PeerData}
use ll_dlep.Peer.State.{in_session, ResponsePending, sent, Peer, Dlep}
use ll_dlep.Dlep.{DlepState, initialize}
use ll_dlep.Dlep.Service.{ReturnStatus, ok_status, destination_exists, destination_does_not_exist}
use ll_dlep.Dlep.Service
use ll_dlep.Dlep.Runs.{up_asked, IsServed, initialized, stepped}
use ll_dlep.Dlep.Sound.{IsServing}
use ll_dlep.Dlep.Sound.Runs.{IsServed-IsServing}
use ll_dlep.Dlep.Directory.{Request, up_request, update_request, down_request}
use ll_dlep.Tests.{peer_mac}
use ll_dlep.Tests.Session.{session_config, client, nobody, dlep, begun, message_info}

abbrev service_config : ProtocolConfig
service_config = record session_config {
  message_map =
      (7, "Destination_Up")
      ∷ (8, "Destination_Up_Response")
      ∷ (9, "Destination_Down")
      ∷ (10, "Destination_Down_Response")
      ∷ session_config.message_map;
  message_info_map =
      message_info "Destination_Up" 7 (record { name = "MAC_Address"; id = 7; occurs = "1" } ∷ []) 8
      ∷ message_info "Destination_Down" 9
          (record { name = "MAC_Address"; id = 7; occurs = "1" } ∷ []) 10
      ∷ session_config.message_info_map;
}

abbrev service : Dlep
service = record dlep { protocfg = service_config }

abbrev their_mac : List ℕ
their_mac = 2 ∷ 0 ∷ 0 ∷ 0 ∷ 0 ∷ 2 ∷ []

abbrev bare : List ℕ → DestinationData
bare mac = record {
  mac_address = mac;
  metric_data_items = [];
  ip_data_items = [];
  needs_response = "";
}

-- A modem that has told of one destination.
abbrev modem : Peer
modem = record begun {
  pstate = in_session;
  peer_pdp = record nobody { destination_data = (their_mac, bare their_mac) ∷ [] };
}

abbrev one_session : DlepState
one_session = record {
  peers = ("modem", modem) ∷ [];
  local_pdp = record nobody { peer_id = "local_pdp" };
  dest_advert = record { destinations = []; dest_advert_db = [] };
}

abbrev requests : List Request
requests =
    up_request peer_mac []
    ∷ up_request peer_mac []
    ∷ down_request their_mac []
    ∷ down_request their_mac []
    ∷ []

abbrev up_message : List ℕ
up_message = 0 ∷ 7 ∷ 0 ∷ 10 ∷ 0 ∷ 7 ∷ 0 ∷ 6 ∷ peer_mac

abbrev down_message : List ℕ
down_message = 0 ∷ 9 ∷ 0 ∷ 10 ∷ 0 ∷ 7 ∷ 0 ∷ 6 ∷ their_mac

abbrev pending : ℕ → ℕ → String → List ℕ → List ℕ → ResponsePending
pending address response_id response_name destination msg_buffer = record {
  address = address;
  response_id = response_id;
  response_name = response_name;
  destination = destination;
  queued = true;
  msg_buffer = msg_buffer;
  send_time = 100;
  send_tries = 1;
}

-- The service after the requests: the modem was told of our destination, and lost its own.
abbrev served : DlepState
served = record one_session {
  peers =
      (
        "modem",
        record modem {
          peer_pdp = nobody;
          responses_pending =
              (peer_mac, pending 0 8 "Destination_Up_Response" peer_mac up_message ∷ [])
              ∷ (their_mac, pending 1 10 "Destination_Down_Response" their_mac down_message ∷ [])
              ∷ [];
          next_address = 2;
          events = sent up_message ∷ sent down_message ∷ [];
        },
      )
      ∷ [];
  local_pdp = record nobody {
    peer_id = "local_pdp";
    destination_data = (peer_mac, bare peer_mac) ∷ [];
  };
}

abbrev statuses : List ReturnStatus
statuses = ok_status ∷ destination_exists ∷ ok_status ∷ destination_does_not_exist ∷ []

-- The service at its start, and after one destination of ours.
abbrev started_state : DlepState
started_state = record one_session { peers = [] }

initialize_run : initialize service_config ≡ ok started_state
unfolding initialize ll_dlep.Dlep.initial_local_data_items ll_dlep.ProtocolConfig.is_metric
    ll_dlep.InfoBase.PeerData.new_peer ll_dlep.InfoBase.PeerData.update_data_items_helper
    ll_dlep.ProtocolConfig.get_data_item_id ll_dlep.InfoBase.PeerData.update_each_data_item
initialize_run = refl

abbrev one_destination : DlepState
one_destination = record started_state { local_pdp = served.local_pdp }

up_run :
    ll_dlep.Dlep.Service.destination_up service started_state peer_mac []
    ≡ ok (one_destination, ok_status)
unfolding Service.destination_up Service.add_local ll_dlep.InfoBase.PeerData.add_destination
    map_find ll_dlep.InfoBase.Destination.new_destination
    ll_dlep.InfoBase.Destination.record_data_items ll_dlep.Dlep.tell_peers ll_dlep.Dlep.call_each
    map_insert
up_run = refl

one_destination-IsServed : IsServed client one_destination
one_destination-IsServed =
    stepped service refl (up_asked peer_mac [] ok_status up_run)
      (initialized service_config initialize_run)

IsServed-IsServing_example : IsServing client one_destination
IsServed-IsServing_example = IsServed-IsServing client one_destination one_destination-IsServed
