-- ===== src/Lib.antt =====
-- LL-DLEP: the Dynamic Link Exchange Protocol between a router and a modem.
--
-- A DLEP participant exchanges messages that carry data items. The protocol configuration says
-- which messages and data items there are, with their ids, the sizes of the fields on the wire and
-- the type of each value. A message is built into bytes (ProtocolMessage.cpp), which uses the data
-- items' own wire format (DataItem.cpp) over integers in network byte order (Serialize.h); the
-- receiver parses and validates it, and what it learns of peers and destinations is held in the
-- information base (InfoBaseMgr.cpp). A session with one peer (Peer.cpp) cuts the stream of a TCP
-- connection into messages, hands each to its handler, sends messages and waits for their
-- responses, one for each destination at a time. The service (Dlep.cpp, DlepServiceImpl.cpp) holds
-- the sessions, our own entry of the information base and the destination advertisements, and its
-- operations tell every session of a change. Discovery (PeerDiscovery.cpp) finds the peer to connect
-- to, before there is a session with it.
--
-- Files and the code that they model:
--   Serialize            Serialize.h: serialize() and deserialize() of integers and of fields
--   DataItem/Types       DataItem.h: values, their types, get_type(), set_default_value()
--   DataItem/Wire        DataItem.cpp: DataItem::serialize(), DataItem::deserialize()
--   DataItem/Validate    DataItem.cpp: validate(), validate_occurrences()
--   DataItem/Ip          DataItem.cpp: ip_equal(), ip_flags(), find_ip_data_item()
--   ProtocolConfig       ProtocolConfigImpl.cpp: the queries of a loaded configuration
--   Message/Build        ProtocolMessage.cpp: add_header(), add_data_item(), add_status(), ...
--   Message/Parse        ProtocolMessage.cpp: is_complete_message(), parse(), validate()
--   Message/Values       ProtocolMessage.cpp: get_data_item_value() and what is built on it
--   ProtocolConfig/Modules  ProtocolConfigImpl.cpp: status codes, modules and extensions
--   Message/CommonItems  ProtocolMessage.cpp: add_common_data_items(), rebuild_from_data_items()
--   InfoBase/Destination InfoBaseMgr.cpp: update_ip_data_items(), class DestinationData
--   InfoBase/PeerData    InfoBaseMgr.cpp: class PeerData
--   InfoBase/Manager     InfoBaseMgr.cpp: class InfoBaseMgr
--   Peer/State           Peer.h: the state of a session, its surroundings and its log
--   Peer/Responses       Peer.cpp: queues, responses, retransmits, terminate()
--   Peer/Send            Peer.cpp: destination_up(), start_peer() and other messages that start here
--   Peer/Addresses       Peer.cpp: validate_ip_data_items()
--   Peer/Initialization  Peer.cpp: the handlers of the messages about the session
--   Peer/Destinations    Peer.cpp: the handlers of the messages about destinations
--   Peer/Dispatch        Peer.cpp: handle_peer_signal()
--   Peer/Framing, Peer/Receive  Peer.cpp: handle_session_receive() and the timers
--   Peer/Runs            the calls that reach a session, as steps
--   DestAdvert           DestAdvert.cpp: the table of destination advertisements and its purge
--   Dlep                 Dlep.cpp: the peers, find_peer(), peer_state(), handle_async_make_peer(), ...
--   Dlep/Service         DlepServiceImpl.cpp: destination_up(), destination_update(),
--                        destination_down(), peer_update()
--   Dlep/Service/Sessions  DlepServiceImpl.cpp: linkchar_request(), terminate(), get_peers(), ...
--   Dlep/Runs            the events and calls that reach the service, as steps
--   Dlep/Directory       what the service promises about destinations
--   PeerDiscovery        PeerDiscovery.cpp: handle_message(), handle_peer_offer(), send_peer_offer()
--   Common               lists, results, maps with the order of DlepMac.cpp
-- The other files hold proofs, and Tests the runs on a small configuration.
--
-- How the code is written in the model:
--   * A buffer is a list of bytes, and an input iterator is the list of the bytes that are left. A
--     shift by 8 * i bits is written with 256 ^ i. Strings, MAC addresses and IP addresses are
--     their bytes, IP addresses in network order.
--   * Code that may throw returns a Result with the exception's class and subject. What an object
--     holds after an exception leaves an operation is not modelled, except in parse(), which
--     catches it. Error texts are the constructors of Problem.
--   * std::map is the list of its entries in key order, and a boost::bimap the list of its pairs.
--   * A call on the peers of `dlep->peers` is a PeerCall in the result of the operation.
--   * deserialize() takes fuel for the nesting of data items, one for each level. A level takes a
--     header off the bytes, so more fuel than bytes is enough; parse() passes that much. The loop
--     of add_status() takes fuel for its rounds.
--   * A session is a record, and each method a function from the session to the session after it.
--     What it does to its surroundings (bytes to the socket, calls of the client, timers, the
--     information base, destination advertisements) is appended to a log in the session. The
--     surroundings are the record Dlep: the configuration, what is known of us and of the other
--     peers, the time, and as functions what the client answers, the text of a reason and
--     std::rand(), by the number of its calls. The time does not change within a call.
--   * Two ResponsePending objects are the same if their addresses are; a new one has the next
--     address. The loop of handle_session_receive() takes a message off the buffer in each round,
--     so one more fuel than bytes is enough. add_status() is called with three rounds.
--   * A PeerPtr into `dlep->peers` is the place of the peer in the list of the map's entries. A
--     session that a socket or timer calls is one of that list. The log that the call leaves in the
--     session is applied to the destination advertisements; the table of InfoBaseMgr, which only
--     names the peers again, is left to InfoBase/Manager.
--   * All calls hold one mutex, so a run of a session is a sequence of calls. A call that throws
--     is no step of a run. The mutex is recursive, but a client that calls the service back from
--     one of its callbacks is not modelled: what it answers is a function of the surroundings.
--   * DestAdvert::handle_purge_advert_timeout() holds a mutex of its own and calls the peers in its
--     loop. In the model the calls on the peers come after the loop, in its order.
--   * validate_occurrences() keeps its counts in the order of the data items, the code in a
--     std::map by their ids: which of several unexpected data items is reported may differ, but not
--     whether one is.
--   * What boost::asio says of an address, its text and whether it is link-local, is a function that
--     discovery takes. A connection that start_async_connect() refuses is not told apart.
--   * Logging is left out, but for its calls of get_signal_name() and get_data_item_name(), which
--     may throw, and so is the text of each data item that parse() makes for its log, which looks
--     up names that every loaded configuration has. Assertions are left out.
--
-- Not modelled: the messages of destination advertisements (protobuf), that is
-- DestAdvert::handle_message(), which adds and removes destinations of ours, and what it sends, multicast
-- (PeriodicMcastSendRcv.cpp), the start of the service (its parameters, sockets and threads), the
-- loading of the configuration from XML, conversions of data items from and to text, and the
-- example client.
pub mod Common
pub mod Serialize
pub mod DataItem
pub mod ProtocolConfig
pub mod InfoBase
pub mod Message
pub mod Peer
pub mod DestAdvert
pub mod Dlep
pub mod PeerDiscovery
pub mod Tests
