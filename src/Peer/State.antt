-- ===== src/Peer/State.antt =====
-- Peer.h: the state of a session, its surroundings, and what it does to them.
use ll_dlep.Common.{
  ℕ, ◌*◌, String, Bool, Option, List, [], ◌∷◌, ◌++◌, ◌==◌, nat_key, string_key, bytes_key,
}
use ll_dlep.ProtocolConfig.{ProtocolConfig}
use ll_dlep.DataItem.Types.{DataItem}
use ll_dlep.InfoBase.PeerData.{PeerData, IpOwner}
use ll_dlep.Message.Parse.{ParseOutcome}
use ll_dlep.DataItem.Validate.{Problem}
use ll_dlep.Message.CommonItems.{ClientConfig}

pub data PeerState : Type 0 where
  nonexistent connected in_session terminating : PeerState

abbrev pub state_index : PeerState → ℕ
state_index nonexistent = 0
state_index connected = 1
state_index in_session = 2
state_index terminating = 3

abbrev pub state_eq : PeerState → PeerState → Bool
state_eq s t = state_index s == state_index t

-- A message that was sent, or waits to be sent, and is to be answered. An object is known by its
-- address, as in the comparison of two pointers.
pub record ResponsePending : Type 0 where
  pub address : ℕ
  pub response_id : ℕ
  pub response_name : String
  pub destination : List ℕ
  pub queued : Bool
  pub msg_buffer : List ℕ
  pub send_time : ℕ
  pub send_tries : ℕ

-- What validate_ip_data_items() finds wrong.
pub data IpProblem : Type 0 where
  already_owned : DataItem → IpOwner → IpProblem
  not_there : DataItem → IpProblem

-- The reasons that are given to terminate(); Dlep.describe is their text.
pub data Reason : Type 0 where
  unexpected_response : String → Reason
  inactive : ℕ → Reason
  max_send_tries : String → ℕ → Reason
  bad_ip_data_item : IpProblem → Reason
  unknown_destination : List ℕ → Reason
  termination_status : String → String → Reason
  bad_message : ParseOutcome → Reason
  invalid_contents : Problem → Reason
  no_reason : Reason

-- PeerInfo of the client's interface.
pub record PeerInfo : Type 0 where
  pub peer_id : String
  pub peer_type : List ℕ
  pub extensions : List ℕ
  pub experiment_names : List (List ℕ)
  pub data_items : List DataItem
  pub destinations : List (List ℕ)
  pub heartbeat_interval : ℕ

-- What a session does to its surroundings, in order: bytes to the socket, calls of the client,
-- timers, the information base and the destination advertisements.
pub data PeerEvent : Type 0 where
  sent : List ℕ → PeerEvent
  read_up_to : ℕ → PeerEvent
  client_peer_up : PeerInfo → PeerEvent
  client_peer_down : String → PeerEvent
  client_peer_update : List DataItem → PeerEvent
  client_destination_up client_destination_update client_destination_down :
      List ℕ → List DataItem → PeerEvent
  client_linkchar_request client_linkchar_reply : List ℕ → List DataItem → PeerEvent
  heartbeat_timer_set : ℕ → PeerEvent
  acktivity_timer_set timers_cancelled : PeerEvent
  info_base_peer_removed : String → PeerEvent
  advert_destination_added : List ℕ → PeerEvent
  advert_destinations_cleared : PeerEvent

pub record Peer : Type 0 where
  pub peer_id : String
  pub peer_type : List ℕ
  pub experiment_names : List (List ℕ)
  pub pstate : PeerState
  pub responses_pending : List (List ℕ × List ResponsePending)
  pub not_interested_destinations : List (List ℕ × Unit {0})
  pub peer_heartbeat_interval : ℕ
  pub peer_heartbeat_interval_sec : ℕ
  pub heartbeat_msg : List ℕ
  pub last_receive_time : ℕ
  pub signal_recv_buffer : List ℕ
  pub mutual_extensions : List ℕ
  pub peer_pdp : PeerData
  pub next_address : ℕ
  pub rand_calls : ℕ
  pub events : List PeerEvent

-- The surroundings of a session while it handles one event. `peers_before` and `peers_after` are
-- what is known of the other peers, in the order of `dlep->peers`. The client's answers, the text
-- of a reason and std::rand() are functions that the session calls.
pub record Dlep : Type 0 where
  pub protocfg : ProtocolConfig
  pub is_modem : Bool
  pub client : ClientConfig
  pub local_pdp : PeerData
  pub peers_before : List PeerData
  pub peers_after : List PeerData
  pub time : ℕ
  pub rand : ℕ → ℕ
  pub describe : Reason → List ℕ
  pub client_peer_init : String → List DataItem → Option (List DataItem)
  pub client_destination_up_status : String → List ℕ → List DataItem → String
  pub dest_advert_enabled : Bool
  pub peer_mac_address : Option (List ℕ)

unfoldable pub emit : Peer → PeerEvent → Peer
emit peer event = record peer { events = peer.events ++ (event ∷ []) }

-- The constructor Peer::Peer(), with the new entry of the information base.
unfoldable pub new_peer_session : String → PeerData → ℕ → Peer
new_peer_session peer_id pdp time = record {
  peer_id = peer_id;
  peer_type = 117 ∷ 110 ∷ 107 ∷ 110 ∷ 111 ∷ 119 ∷ 110 ∷ [];
  experiment_names = [];
  pstate = connected;
  responses_pending = [];
  not_interested_destinations = [];
  peer_heartbeat_interval = 0;
  peer_heartbeat_interval_sec = 0;
  heartbeat_msg = [];
  last_receive_time = time;
  signal_recv_buffer = [];
  mutual_extensions = [];
  peer_pdp = pdp;
  next_address = 0;
  rand_calls = 0;
  events = [];
}

-- ProtocolMessage::MAX_SIGNAL_SIZE, the size of `signal_recv_buffer`.
abbrev pub max_signal_size : ℕ
max_signal_size = 1024 * 64
