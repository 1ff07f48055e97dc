-- ===== src/Message/CommonItems.antt =====
-- ProtocolMessage.cpp: the data items that a message gets from the client's configuration.
use ll_dlep.Common.{
  ℕ, ◌%◌, ◌^◌, String, Bool, false, Option, none, some, List, [], ◌∷◌, ◌==◌, if◌then◌else◌,
  signal_id_not_initialized, Result, ok, ◌>>=◌, ◌>>◌, guard, str_eq, nat_key, string_key, bytes_key,
}
use text.Mathlib.Text.{starts_with}
use ll_dlep.ProtocolConfig.{
  ProtocolConfig, get_data_item_id, get_data_item_name, get_data_item_value_type, get_signal_info,
}
use ll_dlep.ProtocolConfig.Modules.{get_experiment_names}
use ll_dlep.DataItem.Types.{DataItem, SubDataItem, div_string, type_eq, string, u8_string}
use ll_dlep.Message.Build.{
  ProtocolMessage, message_name, add_new_data_item, add_version, add_heartbeat_interval, add_status,
  add_data_items, clear_data_items,
}
use ll_dlep.Message.Parse.{Report, parse_and_validate_again}

-- DlepClient::get_config_parameter(): the client's parameters. `none` stands for BadParameterName.
pub record ClientConfig : Type 0 where
  pub heartbeat_interval : ℕ
  pub heartbeat_threshold : ℕ
  pub ack_timeout : ℕ
  pub ack_probability : ℕ
  pub send_tries : ℕ
  pub peer_type : Option (List ℕ)
  pub peer_flags : Option ℕ

-- The loop of add_peer_type(): is the data item optional for the signal?
unfoldable pub is_optional : ℕ → List SubDataItem → Bool
is_optional di_id [] = false
is_optional di_id (difs ∷ rest) =
    if difs.id == di_id then starts_with difs.occurs "0" else is_optional di_id rest

module _ (cfg : ProtocolConfig) where
  -- The rest of add_peer_type(), for a peer type from the configuration or an empty one.
  unfoldable pub put_peer_type : ProtocolMessage → Option ℕ → List ℕ → Result ProtocolMessage
  put_peer_type msg peer_flags peer_type = do
    div_type ← get_data_item_value_type cfg "Peer_Type"
    let flags : ℕ = elim peer_flags [ none ↦ 0 | some n ↦ n ]
    add_new_data_item cfg msg "Peer_Type" (
        if type_eq div_type div_string
        then string peer_type
        else u8_string (flags % 2 ^ 8) peer_type)

  unfoldable pub add_peer_type : ProtocolMessage → ClientConfig → Result ProtocolMessage
  add_peer_type msg client = elim client.peer_type [
    | some peer_type ↦ put_peer_type msg client.peer_flags peer_type
    | none ↦ do
      name ← message_name cfg msg
      siginfo ← get_signal_info cfg name
      di_id ← get_data_item_id cfg "Peer_Type" none
      if is_optional di_id siginfo.data_items
          then ok msg
          else put_peer_type msg client.peer_flags []
  ]

  unfoldable pub add_each_experiment : ProtocolMessage → List (List ℕ) → Result ProtocolMessage
  add_each_experiment msg [] = ok msg
  add_each_experiment msg (en ∷ ens) = do
    msg' ← add_new_data_item cfg msg "Experimental_Definition" (string en)
    add_each_experiment msg' ens

  unfoldable pub add_experiment_names : ProtocolMessage → Result ProtocolMessage
  add_experiment_names msg = add_each_experiment msg (get_experiment_names cfg)

  -- The body of the loop of add_common_data_items(). Three rounds find a status code or never do.
  unfoldable pub add_common_data_item :
      ClientConfig → ProtocolMessage → String → Result ProtocolMessage
  add_common_data_item client msg di_name =
      if str_eq di_name "Version"
      then add_version cfg msg
      else if str_eq di_name "Heartbeat_Interval"
      then add_heartbeat_interval cfg msg client.heartbeat_interval
      else if str_eq di_name "Peer_Type"
      then add_peer_type msg client
      else if str_eq di_name "Experimental_Definition"
      then add_experiment_names msg
      else if str_eq di_name "Status"
      then add_status cfg 3 msg "Success" []
      else ok msg

  unfoldable pub add_each_common :
      ClientConfig → ProtocolMessage → List SubDataItem → Result ProtocolMessage
  add_each_common client msg [] = ok msg
  add_each_common client msg (difs ∷ rest) = do
    di_name ← get_data_item_name cfg difs.id none
    msg' ← add_common_data_item client msg di_name
    add_each_common client msg' rest

  unfoldable pub add_common_data_items : ProtocolMessage → ClientConfig → Result ProtocolMessage
  add_common_data_items msg client = do
    name ← message_name cfg msg
    siginfo ← get_signal_info cfg name
    add_each_common client msg siginfo.data_items

  unfoldable pub rebuild_from_data_items :
      ProtocolMessage → Bool → List DataItem → Result (ProtocolMessage × Report)
  rebuild_from_data_items msg modem_sender data_items = do
    guard msg.signal_id_initialized signal_id_not_initialized
    msg' ← clear_data_items cfg msg
    msg'' ← add_data_items cfg msg' data_items
    ok (parse_and_validate_again cfg msg'' modem_sender)
