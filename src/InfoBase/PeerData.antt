-- ===== src/InfoBase/PeerData.antt =====
-- InfoBaseMgr.cpp: the class PeerData. A call on `dlep->peers` is a PeerCall in the result.
use ll_dlep.Common.{
  ℕ, String, Bool, true, false, not, ◌&&◌, Option, none, some, List, [], ◌∷◌, ◌++◌, ◌==◌,
  if◌then◌else◌, Result, ok, ◌>>=◌, map_find, map_insert, map_erase, map_has, nat_key, string_key,
  bytes_key,
}
use mathlib.Core.Option
use ll_dlep.ProtocolConfig.{ProtocolConfig, is_metric, is_ipaddr, get_data_item_id}
use ll_dlep.DataItem.Types.{DataItem}
use ll_dlep.DataItem.Ip.{data_item_eq, find_ip_data_item}
use ll_dlep.InfoBase.Destination.{
  DataItemMap, map_values, update_ip_data_items, DestinationData, PeerCall, destination_up,
  destination_down, peer_update, new_destination, update_destination_data, get_all_data_items,
  destination_has_ip,
}

pub record PeerData : Type 0 where
  pub peer_id : String
  pub destination_data : List (List ℕ × DestinationData)
  pub metric_data_items : DataItemMap
  pub ip_data_items : List DataItem
  pub other_data_items : List DataItem

-- The return value of update_data_items(), a status code name.
pub data UpdateStatus : Type 0 where
  success invalid_message : UpdateStatus

-- The return value of find_ip_data_item(): "", "peer=" + id or "destination=" + mac.
pub data IpOwner : Type 0 where
  no_owner : IpOwner
  peer_owner : String → IpOwner
  destination_owner : List ℕ → IpOwner

module _ (cfg : ProtocolConfig) where
  -- The body of the loop in update_data_items_helper(), with what it adds to
  -- `destination_updates`.
  unfoldable pub update_data_item : ℕ → PeerData → DataItem → Result (PeerData × List DataItem)
  update_data_item status_id pd di = do
    metric ← is_metric cfg di.id none
    if metric
        then ok
            (record pd { metric_data_items = map_insert di.id di pd.metric_data_items }, di ∷ [])
        else (do
          ipaddr ← is_ipaddr cfg di.id none
          if ipaddr
              then ok (record pd { ip_data_items = update_ip_data_items di pd.ip_data_items }, [])
              else if di.id == status_id
              then ok (pd, [])
              else ok (record pd { other_data_items = pd.other_data_items ++ (di ∷ []) }, []))

  unfoldable pub update_each_data_item :
      ℕ → PeerData → List DataItem → Result (PeerData × List DataItem)
  update_each_data_item status_id pd [] = ok (pd, [])
  update_each_data_item status_id pd (di ∷ dis) = do
    (pd', here) ← update_data_item status_id pd di
    (pd'', rest) ← update_each_data_item status_id pd' dis
    ok (pd'', here ++ rest)

  unfoldable pub update_data_items_helper :
      PeerData → List DataItem → Result (PeerData × List DataItem)
  update_data_items_helper pd data_items = do
    status_id ← get_data_item_id cfg "Status" none
    update_each_data_item status_id pd data_items

  -- The constructor PeerData::PeerData().
  unfoldable pub new_peer : String → List DataItem → Result PeerData
  new_peer id initial = do
    let pd : PeerData = record {
      peer_id = id;
      destination_data = [];
      metric_data_items = [];
      ip_data_items = [];
      other_data_items = [];
    }
    (pd', updates) ← update_data_items_helper pd initial
    ok pd'

  unfoldable pub add_destination :
      PeerData → List ℕ → List DataItem → Bool → Result (PeerData × Bool × List PeerCall)
  add_destination pd mac initial tell_peers = elim (map_find mac pd.destination_data) [
    | some old ↦ ok (pd, false, [])
    | none ↦ do
      dd ← new_destination cfg mac initial
      ok (
        record pd { destination_data = map_insert mac dd pd.destination_data },
        true,
        if tell_peers then destination_up mac initial ∷ [] else [],
      )
  ]

  unfoldable pub update_destination :
      PeerData → List ℕ → List DataItem → Bool → Result (PeerData × Bool × List PeerCall)
  update_destination pd mac updates tell_peers = elim (map_find mac pd.destination_data) [
    | none ↦ ok (pd, false, [])
    | some dd ↦ do
      (dd', n, calls) ← update_destination_data cfg dd updates tell_peers
      ok (record pd { destination_data = map_insert mac dd' pd.destination_data }, true, calls)
  ]

  -- The first loop of update_data_items(): is a metric of the update unknown to this peer?
  unfoldable pub has_unknown_metric : DataItemMap → List DataItem → Result Bool
  has_unknown_metric known [] = ok false
  has_unknown_metric known (di ∷ dis) = do
    metric ← is_metric cfg di.id none
    if metric && not (map_has di.id known) then ok true else has_unknown_metric known dis

  -- Update all destinations' metrics, without telling the peers.
  unfoldable pub update_all_destinations :
      List DataItem → List (List ℕ × DestinationData) → Result (List (List ℕ × DestinationData))
  update_all_destinations updates [] = ok []
  update_all_destinations updates ((mac, dd) ∷ rest) = do
    (dd', n, calls) ← update_destination_data cfg dd updates false
    rest' ← update_all_destinations updates rest
    ok ((mac, dd') ∷ rest')

  -- `if (!destination_updates.empty())`.
  unfoldable pub update_destinations :
      List DataItem → List (List ℕ × DestinationData) → Result (List (List ℕ × DestinationData))
  update_destinations [] dds = ok dds
  update_destinations (di ∷ dis) dds = update_all_destinations (di ∷ dis) dds

  unfoldable pub update_data_items :
      PeerData → List DataItem → Bool → Result (PeerData × UpdateStatus × List PeerCall)
  update_data_items pd updates tell_peers = do
    unknown ← has_unknown_metric pd.metric_data_items updates
    if unknown then ok (pd, invalid_message, []) else (do
      (pd', destination_updates) ← update_data_items_helper pd updates
      dds ← update_destinations destination_updates pd'.destination_data
      ok (
        record pd' { destination_data = dds },
        success,
        if tell_peers then peer_update updates ∷ [] else [],
      ))

unfoldable pub remove_destination :
    PeerData → List ℕ → Bool → List DataItem → PeerData × Bool × List PeerCall
remove_destination pd mac tell_peers data_items = elim (map_find mac pd.destination_data) [
  | none ↦ (pd, false, [])
  | some dd ↦ (
    record pd { destination_data = map_erase mac pd.destination_data },
    true,
    if tell_peers then destination_down mac data_items ∷ [] else [],
  )
]

unfoldable pub valid_destination : PeerData → List ℕ → Bool
valid_destination pd mac = map_has mac pd.destination_data

unfoldable pub get_destinations : List (List ℕ × DestinationData) → List (List ℕ)
get_destinations [] = []
get_destinations ((mac, dd) ∷ rest) = mac ∷ get_destinations rest

-- sendAllDestinations(): the calls on the peer.
unfoldable pub send_all_destinations : List (List ℕ × DestinationData) → List PeerCall
send_all_destinations [] = []
send_all_destinations ((mac, dd) ∷ rest) =
    destination_up mac (get_all_data_items dd []) ∷ send_all_destinations rest

-- std::find() and erase() of a data item in a vector: `none` when it is not there.
unfoldable pub remove_first : DataItem → List DataItem → Option (List DataItem)
remove_first di [] = none
remove_first di (x ∷ xs) =
    let rest = Option.map (◌∷◌ x) (remove_first di xs) in
    if data_item_eq x di then some xs else rest

-- One round of remove_data_items(): the metric if it is the same, or else the first equal data
-- item with an IP address, or else the first other equal one.
unfoldable pub remove_data_item : PeerData → DataItem → PeerData
remove_data_item pd di =
    let is_metric_here : Bool = elim (map_find di.id pd.metric_data_items) [
      | none ↦ false
      | some held ↦ data_item_eq held di
    ] in
    if is_metric_here
    then record pd { metric_data_items = map_erase di.id pd.metric_data_items }
    else elim (remove_first di pd.ip_data_items) [
      | some left ↦ record pd { ip_data_items = left }
      | none ↦ elim (remove_first di pd.other_data_items) [
        | some left ↦ record pd { other_data_items = left }
        | none ↦ pd
      ]
    ]

unfoldable pub remove_data_items : PeerData → List DataItem → PeerData
remove_data_items pd [] = pd
remove_data_items pd (di ∷ dis) = remove_data_items (remove_data_item pd di) dis

unfoldable pub get_data_items : PeerData → List DataItem
get_data_items pd = (map_values pd.metric_data_items ++ pd.ip_data_items) ++ pd.other_data_items

-- needs_response(mac, response_name).
unfoldable pub set_needs_response : PeerData → List ℕ → String → PeerData
set_needs_response pd mac response_name = elim (map_find mac pd.destination_data) [
  | none ↦ pd
  | some dd ↦ record pd {
    destination_data =
        map_insert mac (record dd { needs_response = response_name }) pd.destination_data;
  }
]

-- needs_response(mac).
unfoldable pub get_needs_response : PeerData → List ℕ → String
get_needs_response pd mac = elim (map_find mac pd.destination_data) [
  | none ↦ ""
  | some dd ↦ dd.needs_response
]

-- The loop over the destinations in find_ip_data_item().
unfoldable pub find_ip_destination : DataItem → List (List ℕ × DestinationData) → IpOwner
find_ip_destination ip [] = no_owner
find_ip_destination ip ((mac, dd) ∷ rest) =
    if destination_has_ip dd ip
    then destination_owner dd.mac_address
    else find_ip_destination ip rest

unfoldable pub find_ip_owner : PeerData → DataItem → IpOwner
find_ip_owner pd ip = elim (find_ip_data_item ip pd.ip_data_items) [
  | some di ↦ peer_owner pd.peer_id
  | none ↦ find_ip_destination ip pd.destination_data
]
