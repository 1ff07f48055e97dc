-- ===== src/PeerDiscovery.antt =====
-- PeerDiscovery.cpp: the handling of Peer Discovery and Peer Offer, before there is a session. What
-- boost::asio says of an address is a function, and so is the text of a peer id.
use ll_dlep.Common.{
  ℕ, ◌%◌, ◌^◌, String, Bool, true, false, not, Option, none, some, List, [], ◌∷◌, ◌==◌,
  if◌then◌else◌, bad_cast, bad_data_item_name, data_item_not_present, Result, ok, err, stuck, ◌>>=◌,
  str_eq, nat_key, string_key, bytes_key,
}
use ll_dlep.ProtocolConfig.{ProtocolConfig}
use ll_dlep.DataItem.Types.{DataItemValue, u16, u8_ipv4, u8_ipv6, u8_ipv4_u16, u8_ipv6_u16}
use ll_dlep.Message.Build.{
  ProtocolMessage, new_message, add_header, add_new_data_item, message_name,
}
use ll_dlep.Message.CommonItems.{ClientConfig, add_common_data_items}
use ll_dlep.Message.Parse.{
  Report, bad_parse, validated, parse_and_validate, parse_and_validate_again, ignore_report,
}
use ll_dlep.Message.Values.{get_data_item_value, get_port}
use ll_dlep.Peer.State.{nonexistent, state_eq, Peer}
use ll_dlep.Peer.Receive.{SocketError, no_error, operation_aborted}
use ll_dlep.Dlep.{peer_state}
pub mod Points
pub mod Handling

-- boost::asio::ip::address: the bytes, and for IPv6 the scope id.
pub data IpAddress : Type 0 where
  v4_address : List ℕ → IpAddress
  v6_address : List ℕ → ℕ → IpAddress

pub record Endpoint : Type 0 where
  pub address : IpAddress
  pub port : ℕ

-- The surroundings: the parameters session-port and session-address, our addresses, the sessions.
pub record Discovery : Type 0 where
  pub protocfg : ProtocolConfig
  pub is_modem : Bool
  pub client : ClientConfig
  pub session_port : ℕ
  pub session_address : Option IpAddress
  pub interface_address : IpAddress
  pub udp_port : ℕ
  pub peers : List (String × Peer)
  pub peer_id_of : IpAddress → ℕ → String
  pub is_link_local : List ℕ → Bool

-- What a packet leads to: an offer to an endpoint, or a connection for a new session.
pub data Outcome : Type 0 where
  nothing : Outcome
  offered : List ℕ → Endpoint → Outcome
  connecting : IpAddress → ℕ → Outcome

abbrev get_u8_ipv4 : DataItemValue → Option (ℕ × List ℕ)
get_u8_ipv4 (u8_ipv4 x ip) = some (x, ip)
get_u8_ipv4 _ = none

abbrev get_u8_ipv6 : DataItemValue → Option (ℕ × List ℕ)
get_u8_ipv6 (u8_ipv6 x ip) = some (x, ip)
get_u8_ipv6 _ = none

abbrev get_u8_ipv4_u16 : DataItemValue → Option (ℕ × List ℕ × ℕ)
get_u8_ipv4_u16 (u8_ipv4_u16 x ip port) = some (x, ip, port)
get_u8_ipv4_u16 _ = none

abbrev get_u8_ipv6_u16 : DataItemValue → Option (ℕ × List ℕ × ℕ)
get_u8_ipv6_u16 (u8_ipv6_u16 x ip port) = some (x, ip, port)
get_u8_ipv6_u16 _ = none

module _ (cfg : ProtocolConfig) (pm : ProtocolMessage) where
  unfoldable pub get_ipv4_address : Result (ℕ × List ℕ)
  get_ipv4_address = get_data_item_value get_u8_ipv4 cfg pm "IPv4_Address"

  unfoldable pub get_ipv6_address : Result (ℕ × List ℕ)
  get_ipv6_address = get_data_item_value get_u8_ipv6 cfg pm "IPv6_Address"

  unfoldable pub get_ipv4_conn_point : Result (ℕ × List ℕ × ℕ)
  get_ipv4_conn_point = get_data_item_value get_u8_ipv4_u16 cfg pm "IPv4_Connection_Point"

  unfoldable pub get_ipv6_conn_point : Result (ℕ × List ℕ × ℕ)
  get_ipv6_conn_point = get_data_item_value get_u8_ipv6_u16 cfg pm "IPv6_Connection_Point"

-- The two catch clauses after each of them.
unfoldable pub if_found {ℓ} : {A : Type ℓ} → Result A → Result (Option A)
if_found (ok x) = ok (some x)
if_found (err (data_item_not_present name)) = ok none
if_found (err (bad_data_item_name name)) = ok none
if_found (err e) = err e
if_found stuck = stuck

-- The variables of handle_peer_offer().
pub record Connection : Type 0 where
  pub dest_ip : IpAddress
  pub session_port : ℕ
  pub may_need_scope_id : Bool

unfoldable pub use_port : Option ℕ → Connection → Connection
use_port none c = c
use_port (some port) c = record c { session_port = port }

-- An address with field1 = 0 is ignored.
unfoldable pub use_ipv4_address : Option (ℕ × List ℕ) → Connection → Connection
use_ipv4_address none c = c
use_ipv4_address (some (field1, ip)) c =
    if field1 == 0 then c else record c { dest_ip = v4_address ip }

unfoldable pub use_ipv4_conn_point : Option (ℕ × List ℕ × ℕ) → Connection → Connection
use_ipv4_conn_point none c = c
use_ipv4_conn_point (some (flags, ip, port)) c = record c {
  session_port = port;
  dest_ip = v4_address ip;
}

unfoldable pub use_ipv6_address : Option (ℕ × List ℕ) → Connection → Connection
use_ipv6_address none c = c
use_ipv6_address (some (field1, ip)) c =
    if field1 == 0 then c else record c { dest_ip = v6_address ip 0; may_need_scope_id = true }

unfoldable pub use_ipv6_conn_point : Option (ℕ × List ℕ × ℕ) → Connection → Connection
use_ipv6_conn_point none c = c
use_ipv6_conn_point (some (flags, ip, port)) c = record {
  session_port = port;
  dest_ip = v6_address ip 0;
  may_need_scope_id = true;
}

module _ (d : Discovery) where
  -- From the data items of the offer, in the order in which they are tried.
  unfoldable pub connection_point : ProtocolMessage → IpAddress → Result Connection
  connection_point pm from = do
    port ← if_found (get_port d.protocfg pm)
    ipv4 ← if_found (get_ipv4_address d.protocfg pm)
    ipv4_point ← if_found (get_ipv4_conn_point d.protocfg pm)
    ipv6 ← if_found (get_ipv6_address d.protocfg pm)
    ipv6_point ← if_found (get_ipv6_conn_point d.protocfg pm)
    let start : Connection = record {
      dest_ip = from;
      session_port = d.session_port;
      may_need_scope_id = false;
    }
    ok (
        use_ipv6_conn_point ipv6_point (
          use_ipv6_address ipv6
            (use_ipv4_conn_point ipv4_point (use_ipv4_address ipv4 (use_port port start)))))

  -- `dest_ip.to_v6()` and the scope id: none where it cannot be determined.
  unfoldable pub scoped : IpAddress → IpAddress → Result (Option IpAddress)
  scoped (v4_address ip) from = err bad_cast
  scoped (v6_address ip scope) (v6_address from_ip from_scope) =
      ok (some (if d.is_link_local ip then v6_address ip from_scope else v6_address ip scope))
  scoped (v6_address ip scope) (v4_address from_ip) =
      ok (if d.is_link_local ip then none else some (v6_address ip scope))

  -- Connect, unless there is a session.
  unfoldable pub connect_once : IpAddress → ℕ → Outcome
  connect_once dest_ip port =
      if state_eq (peer_state d.is_modem d.peers (d.peer_id_of dest_ip port)) nonexistent
      then connecting dest_ip port
      else nothing

  unfoldable pub handle_peer_offer : ProtocolMessage → Endpoint → Result Outcome
  handle_peer_offer pm from = if d.is_modem then ok nothing else (do
    c ← connection_point pm from.address
    dest ← if c.may_need_scope_id then scoped c.dest_ip from.address else ok (some c.dest_ip)
    elim dest [ none ↦ ok nothing | some dest_ip ↦ ok (connect_once dest_ip c.session_port) ])

  -- The data item with our session address, and the one that also has the port.
  unfoldable pub add_session_address : ProtocolMessage → IpAddress → Result ProtocolMessage
  add_session_address pm (v4_address ip) =
      add_new_data_item d.protocfg pm "IPv4_Address" (u8_ipv4 1 ip)
  add_session_address pm (v6_address ip scope) =
      add_new_data_item d.protocfg pm "IPv6_Address" (u8_ipv6 1 ip)

  unfoldable pub add_conn_point : ProtocolMessage → IpAddress → Result ProtocolMessage
  add_conn_point pm (v4_address ip) =
      add_new_data_item d.protocfg pm "IPv4_Connection_Point"
        (u8_ipv4_u16 0 ip (d.session_port % 2 ^ 16))
  add_conn_point pm (v6_address ip scope) =
      add_new_data_item d.protocfg pm "IPv6_Connection_Point"
        (u8_ipv6_u16 0 ip (d.session_port % 2 ^ 16))

  -- The catch clause. add_data_item() throws a BadDataItemName, if at all, before it changes `pm`.
  unfoldable pub or_conn_point : ProtocolMessage → Result ProtocolMessage → Result ProtocolMessage
  or_conn_point pm (err (bad_data_item_name name)) = elim d.session_address [
    | none ↦ add_conn_point pm d.interface_address
    | some address ↦ add_conn_point pm address
  ]
  or_conn_point pm r = r

  -- The try block after the Port data item.
  unfoldable pub add_optional_address : ProtocolMessage → Result ProtocolMessage
  add_optional_address pm = elim d.session_address [
    | none ↦ ok pm
    | some address ↦ or_conn_point pm (add_session_address pm address)
  ]

  unfoldable pub add_connection : ProtocolMessage → Result ProtocolMessage
  add_connection pm =
      elim (add_new_data_item d.protocfg pm "Port" (u16 (d.session_port % 2 ^ 16))) [
        | ok pm' ↦ add_optional_address pm'
        | err e ↦ or_conn_point pm (err e)
        | stuck ↦ stuck
      ]

  unfoldable pub send_peer_offer : Endpoint → Result Outcome
  send_peer_offer to_endpoint = do
    pm ← add_header d.protocfg new_message "Peer_Offer"
    pm1 ← add_common_data_items d.protocfg pm d.client
    pm2 ← add_connection pm1
    pm3 ← ignore_report (parse_and_validate_again d.protocfg pm2 d.is_modem)
    ok (offered pm3.msgbuf (record { address = to_endpoint.address; port = d.udp_port }))

  unfoldable pub handle_discovery : Endpoint → Result Outcome
  handle_discovery from =
      if not d.is_modem
      then ok nothing
      else if state_eq (peer_state d.is_modem d.peers (d.peer_id_of from.address from.port))
          nonexistent
      then send_peer_offer from
      else ok nothing

  -- `err == ""`.
  unfoldable pub is_valid : Report → Result Bool
  is_valid (bad_parse outcome) = ok false
  is_valid (validated r) = do problem ← r; ok (elim problem [ none ↦ true | some p ↦ false ])

  unfoldable pub handle_message : List ℕ → Endpoint → Result Outcome
  handle_message [] from = ok nothing
  handle_message (b ∷ bytes) from = do
    let (pm, report) = parse_and_validate d.protocfg new_message (b ∷ bytes) true (not d.is_modem)
    valid ← is_valid report
    if not valid then ok nothing else (do
      msgname ← message_name d.protocfg pm
      if str_eq msgname "Peer_Discovery"
          then handle_discovery from
          else if str_eq msgname "Peer_Offer"
          then handle_peer_offer pm from
          else ok nothing)

  -- handle_receive() of `bytes`; the result says whether the socket is read again.
  unfoldable pub handle_receive : SocketError → List ℕ → Endpoint → Result (Outcome × Bool)
  handle_receive no_error bytes from = do o ← handle_message bytes from; ok (o, true)
  handle_receive operation_aborted bytes from = ok (nothing, false)
  handle_receive e bytes from = ok (nothing, true)

  -- The Peer Discovery signal that the router sends periodically.
  unfoldable pub get_message_to_send : Result (List ℕ)
  get_message_to_send = do
    pm ← add_header d.protocfg new_message "Peer_Discovery"
    pm1 ← add_common_data_items d.protocfg pm d.client
    pm2 ← ignore_report (parse_and_validate_again d.protocfg pm1 d.is_modem)
    ok pm2.msgbuf
