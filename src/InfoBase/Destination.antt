-- ===== src/InfoBase/Destination.antt =====
-- InfoBaseMgr.cpp: update_ip_data_items() and the class DestinationData.
use ll_dlep.Common.{
  ℕ, ◌+◌, ◌%◌, ◌^◌, String, Bool, true, false, none, some, List, [], ◌∷◌, ◌++◌, ◌==◌, if◌then◌else◌,
  Result, ok, ◌>>=◌, map_insert, nat_key, string_key, bytes_key,
}
use ll_dlep.ProtocolConfig.{ProtocolConfig, is_metric, is_ipaddr}
use ll_dlep.DataItem.Types.{DataItem}
use ll_dlep.DataItem.Ip.{ip_equal, ip_flags, find_ip_data_item}

-- A map from data item ids.
abbrev pub DataItemMap : Type 0
DataItemMap = List (ℕ × DataItem)

-- The values of a map in key order.
unfoldable pub map_values : DataItemMap → List DataItem
map_values [] = []
map_values ((id, di) ∷ m) = di ∷ map_values m

-- `ip_flags() & DataItem::IPFlags::add`.
abbrev pub is_adding : DataItem → Bool
is_adding di = ip_flags di % 2 == 1

-- The loop stops at the first data item with the address, and past the end appends.
unfoldable pub update_ip_data_items : DataItem → List DataItem → List DataItem
update_ip_data_items new [] = if is_adding new then new ∷ [] else []
update_ip_data_items new (di ∷ dis) =
    if ip_equal di new
    then (if is_adding new then di ∷ dis else dis)
    else di ∷ update_ip_data_items new dis

pub record DestinationData : Type 0 where
  pub mac_address : List ℕ
  pub metric_data_items : DataItemMap
  pub ip_data_items : List DataItem
  pub needs_response : String

-- A call that the information base makes on each connected peer, in the order of the calls.
pub data PeerCall : Type 0 where
  destination_up destination_update destination_down : List ℕ → List DataItem → PeerCall
  peer_update : List DataItem → PeerCall

module _ (cfg : ProtocolConfig) where
  -- The body of the loop in DestinationData::update() and in the constructor, with the number of
  -- updates that it counts.
  unfoldable pub record_data_item : DestinationData → DataItem → Result (DestinationData × ℕ)
  unfolding update_ip_data_items
  record_data_item dd di = do
    metric ← is_metric cfg di.id none
    if metric
        then ok (record dd { metric_data_items = map_insert di.id di dd.metric_data_items }, 1)
        else (do
          ipaddr ← is_ipaddr cfg di.id none
          if ipaddr
              then ok (record dd { ip_data_items = update_ip_data_items di dd.ip_data_items }, 1)
              else ok (dd, 0))

  unfoldable pub record_data_items :
      DestinationData → ℕ → List DataItem → Result (DestinationData × ℕ)
  record_data_items dd n [] = ok (dd, n)
  record_data_items dd n (di ∷ dis) = do
    (dd', k) ← record_data_item dd di
    record_data_items dd' ((n + k) % 2 ^ 32) dis

  -- The constructor DestinationData::DestinationData().
  unfoldable pub new_destination : List ℕ → List DataItem → Result DestinationData
  new_destination mac initial = do
    let dd : DestinationData = record {
      mac_address = mac;
      metric_data_items = [];
      ip_data_items = [];
      needs_response = "";
    }
    (dd', n) ← record_data_items dd 0 initial
    ok dd'

  -- DestinationData::update(): the new state, the number of updates, and the calls on each peer.
  unfoldable pub update_destination_data :
      DestinationData → List DataItem → Bool → Result (DestinationData × ℕ × List PeerCall)
  update_destination_data dd updates tell_peers = do
    (dd', n) ← record_data_items dd 0 updates
    ok (dd', n, if tell_peers then destination_update dd.mac_address updates ∷ [] else [])

-- DestinationData::get_all_data_items(), appended to `data_items_out`.
unfoldable pub get_all_data_items : DestinationData → List DataItem → List DataItem
get_all_data_items dd data_items_out =
    (data_items_out ++ map_values dd.metric_data_items) ++ dd.ip_data_items

-- DestinationData::find_ip_data_item(): whether the result is not empty.
unfoldable pub destination_has_ip : DestinationData → DataItem → Bool
destination_has_ip dd ip = elim (find_ip_data_item ip dd.ip_data_items) [
  | none ↦ false
  | some di ↦ true
]
