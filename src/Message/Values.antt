-- ===== src/Message/Values.antt =====
-- ProtocolMessage.cpp: what a parsed message is asked for.
use ll_dlep.Common.{
  ℕ, String, Bool, true, false, not, Option, none, some, List, [], ◌∷◌, ◌==◌, if◌then◌else◌,
  data_item_wrong_type, data_item_not_present, Result, ok, err, ◌>>=◌, or_throw, nat_key,
  string_key, bytes_key,
}
use ll_dlep.ProtocolConfig.{
  ProtocolConfig, get_data_item_id, get_data_item_value_type, get_status_code_name, is_metric,
  is_ipaddr,
}
use ll_dlep.DataItem.Types.{
  DataItem, DataItemValue, div_u8, div_u16, div_u32, div_string, type_eq, u8, u16, u32, u8_string,
  string, dlepmac, v_extid,
}
use ll_dlep.Message.Build.{ProtocolMessage}

-- boost::get<T>() for the types asked for.
abbrev pub get_u8 : DataItemValue → Option ℕ
get_u8 (u8 x) = some x
get_u8 _ = none

abbrev pub get_u16 : DataItemValue → Option ℕ
get_u16 (u16 x) = some x
get_u16 _ = none

abbrev pub get_u32 : DataItemValue → Option ℕ
get_u32 (u32 x) = some x
get_u32 _ = none

abbrev pub get_string : DataItemValue → Option (List ℕ)
get_string (string s) = some s
get_string _ = none

abbrev pub get_u8_string : DataItemValue → Option (ℕ × List ℕ)
get_u8_string (u8_string x s) = some (x, s)
get_u8_string _ = none

abbrev pub get_dlepmac : DataItemValue → Option (List ℕ)
get_dlepmac (dlepmac mac) = some mac
get_dlepmac _ = none

abbrev pub get_v_extid : DataItemValue → Option (List ℕ)
get_v_extid (v_extid xs) = some xs
get_v_extid _ = none

module _ {ℓ} {T : Type ℓ} (get : DataItemValue → Option T) where
  -- The loop of get_data_item_value<T>().
  unfoldable pub first_value : String → ℕ → List DataItem → Result T
  first_value name id [] = err (data_item_not_present name)
  first_value name id (di ∷ dis) =
      if di.id == id
      then or_throw (get di.value) (data_item_wrong_type name)
      else first_value name id dis

  -- The loop of get_data_item_values<T>().
  unfoldable pub all_values : String → ℕ → List DataItem → Result (List T)
  all_values name id [] = ok []
  all_values name id (di ∷ dis) =
      let rest = all_values name id dis in
      if di.id == id
      then (do
        val ← or_throw (get di.value) (data_item_wrong_type name)
        vals ← rest
        ok (val ∷ vals))
      else rest

  unfoldable pub get_data_item_value : ProtocolConfig → ProtocolMessage → String → Result T
  get_data_item_value cfg msg name = do
    id ← get_data_item_id cfg name none
    first_value name id msg.data_items

  unfoldable pub get_data_item_values : ProtocolConfig → ProtocolMessage → String → Result (List T)
  get_data_item_values cfg msg name = do
    id ← get_data_item_id cfg name none
    all_values name id msg.data_items

unfoldable pub has_data_item : ℕ → List DataItem → Bool
has_data_item id [] = false
has_data_item id (di ∷ dis) = if di.id == id then true else has_data_item id dis

unfoldable pub without_id : ℕ → List DataItem → List DataItem
without_id id [] = []
without_id id (di ∷ dis) = if not (di.id == id) then di ∷ without_id id dis else without_id id dis

module _ (cfg : ProtocolConfig) (msg : ProtocolMessage) where
  unfoldable pub get_data_item_exists : String → Result Bool
  get_data_item_exists name = do
    id ← get_data_item_id cfg name none
    ok (has_data_item id msg.data_items)

  unfoldable pub get_mac : Result (List ℕ)
  get_mac = get_data_item_value get_dlepmac cfg msg "MAC_Address"

  unfoldable pub get_peer_type : Result (List ℕ)
  get_peer_type = do
    div_type ← get_data_item_value_type cfg "Peer_Type"
    if type_eq div_type div_string
        then get_data_item_value get_string cfg msg "Peer_Type"
        else (do (flags, name) ← get_data_item_value get_u8_string cfg msg "Peer_Type"; ok name)

  unfoldable pub get_status : Result String
  get_status = do
    div_type ← get_data_item_value_type cfg "Status"
    status_code_id ←
        if type_eq div_type div_u8
        then get_data_item_value get_u8 cfg msg "Status"
        else (do (code, reason) ← get_data_item_value get_u8_string cfg msg "Status"; ok code)
    get_status_code_name cfg status_code_id

  unfoldable pub get_experiment_names : Result (List (List ℕ))
  get_experiment_names = get_data_item_values get_string cfg msg "Experimental_Definition"

  unfoldable pub get_heartbeat_interval : Result ℕ
  get_heartbeat_interval = do
    div_type ← get_data_item_value_type cfg "Heartbeat_Interval"
    if type_eq div_type div_u16
        then get_data_item_value get_u16 cfg msg "Heartbeat_Interval"
        else if type_eq div_type div_u32
        then get_data_item_value get_u32 cfg msg "Heartbeat_Interval"
        else err (data_item_wrong_type "Heartbeat_Interval")

  unfoldable pub get_extensions : Result (List ℕ)
  get_extensions = get_data_item_value get_v_extid cfg msg "Extensions_Supported"

  unfoldable pub get_port : Result ℕ
  get_port = get_data_item_value get_u16 cfg msg "Port"

  -- The loop of get_metrics_and_ipaddrs().
  unfoldable pub metrics_and_ipaddrs : List DataItem → Result (List DataItem)
  metrics_and_ipaddrs [] = ok []
  metrics_and_ipaddrs (di ∷ dis) = do
    metric ← is_metric cfg di.id none
    wanted ← if metric then ok true else is_ipaddr cfg di.id none
    rest ← metrics_and_ipaddrs dis
    ok (if wanted then di ∷ rest else rest)

  unfoldable pub get_metrics_and_ipaddrs : Result (List DataItem)
  get_metrics_and_ipaddrs = metrics_and_ipaddrs msg.data_items

  unfoldable pub get_data_items_no_mac : Result (List DataItem)
  get_data_items_no_mac = do
    mac_id ← get_data_item_id cfg "MAC_Address" none
    ok (without_id mac_id msg.data_items)
