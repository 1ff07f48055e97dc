-- ===== src/Dlep.antt =====
-- Dlep.cpp, Dlep.h: the sessions of the service, our own entry of the information base, and the
-- destination advertisements. The surroundings of one session are put together from this state.
use ll_dlep.Common.{
  ℕ, String, Bool, true, false, Option, none, some, List, ◌∷◌, ◌++◌, if◌then◌else◌, length, drop,
  Result, ok, str_eq, map_insert, nat_key, string_key, bytes_key, value, [], ◌>>=◌,
}
use ll_dlep.ProtocolConfig.{ProtocolConfig, is_metric, get_data_item_id, get_data_item_value_type}
use ll_dlep.DataItem.Types.{DataItem, DataItemInfo, set_default_value}
use ll_dlep.InfoBase.Destination.{
  PeerCall, destination_up, destination_update, destination_down, peer_update,
}
use ll_dlep.InfoBase.PeerData.{PeerData, new_peer, valid_destination}
use ll_dlep.Peer.State.{
  PeerState, nonexistent, terminating, state_eq, Peer, PeerEvent, advert_destination_added,
  advert_destinations_cleared, Dlep, new_peer_session,
}
use ll_dlep.Peer.Send
use ll_dlep.Peer.Send.{start_peer}
use ll_dlep.DestAdvert.{DestAdvert, advertise_destination, clear_destinations}
pub mod Service
pub mod Places
pub mod Runs
pub mod Sound
pub mod Directory

-- `peers` maps the ids to the sessions.
pub record DlepState : Type 0 where
  pub peers : List (String × Peer)
  pub local_pdp : PeerData
  pub dest_advert : DestAdvert

-- A PeerPtr that points into `peers`: the place of the peer in the map.
pub record PeerPlace : Type 0 where
  pub before : List (String × Peer)
  pub peer_id : String
  pub peer : Peer
  pub following : List (String × Peer)

unfoldable pub known_of : List (String × Peer) → List PeerData
known_of [] = []
known_of ((id, p) ∷ rest) = p.peer_pdp ∷ known_of rest

-- The surroundings of the session at a place. `dlep` has the configuration, the client and the
-- time.
unfoldable pub around : Dlep → DlepState → PeerPlace → Dlep
around dlep st place = record dlep {
  local_pdp = st.local_pdp;
  peers_before = known_of place.before;
  peers_after = known_of place.following;
}

-- What a session did to the destination advertisements.
unfoldable pub apply_event : DestAdvert → PeerEvent → DestAdvert
apply_event da (advert_destination_added mac) = advertise_destination da mac
apply_event da advert_destinations_cleared = clear_destinations da
apply_event da event = da

unfoldable pub apply_events : DestAdvert → List PeerEvent → DestAdvert
apply_events da [] = da
apply_events da (event ∷ events) = apply_events (apply_event da event) events

-- The session at a place has changed, and with it the destination advertisements.
unfoldable pub put_peer : DlepState → PeerPlace → Peer → DlepState
put_peer st place peer = record st {
  peers = place.before ++ ((place.peer_id, peer) ∷ place.following);
  dest_advert = apply_events st.dest_advert (drop (length place.peer.events) peer.events);
}

-- The place comes after one more peer.
abbrev pub step_over : String × Peer → Option PeerPlace → Option PeerPlace
step_over first none = none
step_over first (some place) = some (record place { before = first ∷ place.before })

-- `peers.find(peer_id)`.
unfoldable pub find_id : String → List (String × Peer) → Option PeerPlace
find_id peer_id [] = none
find_id peer_id ((id, p) ∷ rest) =
    let further = step_over (id, p) (find_id peer_id rest) in
    if str_eq id peer_id
    then some (record { before = []; peer_id = id; peer = p; following = rest })
    else further

-- The loop of find_peer(): the first peer that has the destination.
unfoldable pub find_peer : List ℕ → List (String × Peer) → Option PeerPlace
find_peer mac [] = none
find_peer mac ((id, p) ∷ rest) =
    let further = step_over (id, p) (find_peer mac rest) in
    if valid_destination p.peer_pdp mac
    then some (record { before = []; peer_id = id; peer = p; following = rest })
    else further

-- A modem has one peer, whatever its id.
unfoldable pub peer_state : Bool → List (String × Peer) → String → PeerState
peer_state true [] peer_id = nonexistent
peer_state true ((id, p) ∷ rest) peer_id = p.pstate
peer_state false peers peer_id = elim (find_id peer_id peers) [
  | none ↦ nonexistent
  | some place ↦ place.peer.pstate
]

-- The peers whose sessions are over are removed. cancel_session() only concerns their sockets.
unfoldable pub cleanup_ex_peers : List (String × Peer) → List (String × Peer)
cleanup_ex_peers [] = []
cleanup_ex_peers ((id, p) ∷ rest) =
    if state_eq p.pstate terminating then cleanup_ex_peers rest else (id, p) ∷ cleanup_ex_peers rest

-- One call of the information base on one peer.
unfoldable pub call_peer : Dlep → Peer → PeerCall → Result Peer
call_peer dlep peer (destination_up mac data_items) =
    ll_dlep.Peer.Send.destination_up dlep peer mac data_items
call_peer dlep peer (destination_update mac data_items) =
    ll_dlep.Peer.Send.destination_update dlep peer mac data_items
call_peer dlep peer (destination_down mac data_items) =
    ll_dlep.Peer.Send.destination_down dlep peer mac data_items
call_peer dlep peer (peer_update data_items) = do
  (peer', issued) ← ll_dlep.Peer.Send.peer_update dlep peer data_items
  ok peer'

-- `for (auto & it : dlep->peers)`, with what is known of the peers that were called already.
unfoldable pub call_each :
    Dlep → List PeerData → List (String × Peer) → PeerCall → Result (List (String × Peer))
call_each dlep called [] call = ok []
call_each dlep called ((id, p) ∷ rest) call = do
  p' ← call_peer (record dlep { peers_before = called; peers_after = known_of rest }) p call
  rest' ← call_each dlep (called ++ (p'.peer_pdp ∷ [])) rest call
  ok ((id, p') ∷ rest')

-- The calls that an operation of the information base makes on every peer. They only send.
unfoldable pub tell_peers : Dlep → DlepState → List PeerCall → Result DlepState
tell_peers dlep st [] = ok st
tell_peers dlep st (call ∷ calls) = do
  peers ← call_each (record dlep { local_pdp = st.local_pdp }) [] st.peers call
  tell_peers dlep (record st { peers = peers }) calls

-- handle_async_make_peer() without an error, for the endpoint of the socket as an id. `peers[id]`
-- is overwritten when there is an entry. The options of the socket and the next accept are left out.
unfoldable pub handle_async_make_peer : Dlep → DlepState → String → Result DlepState
handle_async_make_peer dlep st peer_id = do
  pdp ← new_peer dlep.protocfg peer_id []
  let peers = map_insert peer_id (new_peer_session peer_id pdp dlep.time) st.peers
  elim (find_id peer_id peers) [
    | none ↦ ok (record st { peers = peers })
    | some place ↦ do
      peer ← start_peer (around dlep st place) place.peer
      ok (put_peer (record st { peers = peers }) place peer)
  ]

-- The constructor of a DataItem with the default value of its type.
unfoldable pub default_data_item : ProtocolConfig → String → Result DataItem
default_data_item cfg name = do
  id ← get_data_item_id cfg name none
  value_type ← get_data_item_value_type cfg name
  ok (record { id = id; value = set_default_value value_type })

-- The loop of initialize(): a default data item for each configured metric.
unfoldable pub initial_local_data_items :
    ProtocolConfig → List DataItemInfo → Result (List DataItem)
initial_local_data_items cfg [] = ok []
initial_local_data_items cfg (minfo ∷ rest) = do
  metric ← is_metric cfg minfo.id none
  dis ← initial_local_data_items cfg rest
  if metric then (do di ← default_data_item cfg minfo.name; ok (di ∷ dis)) else ok dis

-- initialize(), as far as the state goes.
unfoldable pub initialize : ProtocolConfig → Result DlepState
initialize cfg = do
  dis ← initial_local_data_items cfg cfg.data_item_info_map
  pdp ← new_peer cfg "local_pdp" dis
  ok (record {
    peers = [];
    local_pdp = pdp;
    dest_advert = record { destinations = []; dest_advert_db = [] };
  })
