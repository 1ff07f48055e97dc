-- ===== src/Message/Build.antt =====
-- ProtocolMessage.cpp: building a message. The logging is not modelled, but for its calls that may
-- throw.
use ll_dlep.Common.{
  ℕ, zero, suc, ◌+◌, ◌-◌, ◌*◌, ◌%◌, ◌^◌, String, Bool, true, false, ◌||◌, none, List, [], ◌∷◌, ◌++◌,
  ◌==◌, if◌then◌else◌, length, take, signal_id_not_initialized, Result, ok, err, stuck, ◌>>=◌, ◌>>◌,
  guard, str_eq, nat_key, string_key, bytes_key,
}
use ll_dlep.Serialize.{serialize_field, serialize_at}
use ll_dlep.ProtocolConfig.{
  ProtocolConfig, get_signal_id, get_signal_name, get_message_name, get_data_item_id,
  get_data_item_name, get_data_item_info_by_name, get_data_item_value_type, get_signal_info,
  get_status_code_id,
}
use ll_dlep.DataItem.Types.{
  DataItem, DataItemValue, SubDataItem, div_u8, div_u16, div_u32, type_eq, a2_u16, u8, u16, u32,
  u8_string, v_extid, dlepmac,
}
use ll_dlep.DataItem.Wire.{serialize}

pub record ProtocolMessage : Type 0 where
  pub msg_len_index : ℕ
  pub header_length : ℕ
  pub msgbuf : List ℕ
  pub signal_id : ℕ
  pub signal_id_initialized : Bool
  pub is_signal : Bool
  pub data_items : List DataItem

-- The constructor ProtocolMessage::ProtocolMessage().
abbrev pub new_message : ProtocolMessage
new_message = record {
  msg_len_index = 0;
  header_length = 0;
  msgbuf = [];
  signal_id = 0;
  signal_id_initialized = false;
  is_signal = false;
  data_items = [];
}

-- Subtraction of two numbers of type size_t.
unfoldable pub size_minus : ℕ → ℕ → ℕ
size_minus a b = (a + (2 ^ 64 - b % 2 ^ 64)) % 2 ^ 64

module _ (cfg : ProtocolConfig) where
  unfoldable pub add_header : ProtocolMessage → String → Result ProtocolMessage
  add_header msg msg_name = do
    (id, is_sig) ← get_signal_id cfg msg_name
    buf ←
        serialize_field 4 id cfg.signal_id_size
          (if is_sig then msg.msgbuf ++ cfg.signal_prefix else msg.msgbuf)
    buf' ← serialize_field 4 0 cfg.signal_length_size buf
    ok (record msg {
      signal_id = id;
      is_signal = is_sig;
      signal_id_initialized = true;
      msg_len_index = length buf;
      msgbuf = buf';
      header_length = length buf';
    })

  unfoldable pub update_message_length : ProtocolMessage → Result ProtocolMessage
  update_message_length msg = do
    buf ←
        serialize_at 8 (size_minus (length msg.msgbuf) msg.header_length) cfg.signal_length_size
          msg.msgbuf msg.msg_len_index
    ok (record msg { msgbuf = buf })

  -- ProtocolMessage::get_signal_name().
  unfoldable pub message_name : ProtocolMessage → Result String
  message_name msg = do
    guard msg.signal_id_initialized signal_id_not_initialized
    if msg.is_signal then get_signal_name cfg msg.signal_id else get_message_name cfg msg.signal_id

  unfoldable pub add_data_item : ProtocolMessage → DataItem → Result ProtocolMessage
  add_data_item msg di = do
    dibuf ← serialize cfg di
    msg' ← update_message_length (record msg { msgbuf = msg.msgbuf ++ dibuf })
    di_name ← get_data_item_name cfg di.id none
    name ← message_name msg'
    ok msg'

  unfoldable pub add_data_items : ProtocolMessage → List DataItem → Result ProtocolMessage
  add_data_items msg [] = ok msg
  add_data_items msg (di ∷ dis) = do msg' ← add_data_item msg di; add_data_items msg' dis

  -- The inner loop of add_allowed_data_items(): is the id one of the signal's?
  unfoldable pub is_allowed : ℕ → List SubDataItem → Bool
  is_allowed id [] = false
  is_allowed id (difs ∷ rest) = if difs.id == id then true else is_allowed id rest

  unfoldable pub add_each_allowed :
      List SubDataItem → ProtocolMessage → List DataItem → Result ProtocolMessage
  add_each_allowed info msg [] = ok msg
  add_each_allowed info msg (di ∷ dis) = do
    msg' ← if is_allowed di.id info then add_data_item msg di else ok msg
    add_each_allowed info msg' dis

  unfoldable pub add_allowed_data_items : ProtocolMessage → List DataItem → Result ProtocolMessage
  add_allowed_data_items msg dis = do
    name ← message_name msg
    siginfo ← get_signal_info cfg name
    add_each_allowed siginfo.data_items msg dis

  -- `DataItem di {name, value, protocfg}; add_data_item(di);`
  unfoldable pub add_new_data_item :
      ProtocolMessage → String → DataItemValue → Result ProtocolMessage
  add_new_data_item msg name value = do
    id ← get_data_item_id cfg name none
    add_data_item msg (record { id = id; value = value })

  unfoldable pub add_version : ProtocolMessage → Result ProtocolMessage
  add_version msg = add_new_data_item msg "Version" (a2_u16 cfg.version.0 cfg.version.1)

  -- The interval, which the client configures in seconds, in the units of the data item.
  unfoldable pub convert_interval : String → ℕ → ℕ
  convert_interval units interval =
      if str_eq units "milliseconds"
      then interval * 1000 % 2 ^ 32
      else if str_eq units "microseconds"
      then interval * 1000000 % 2 ^ 32
      else interval

  -- An unexpected value type is only logged. `heartbeat_interval` is the client's parameter.
  unfoldable pub add_heartbeat_interval : ProtocolMessage → ℕ → Result ProtocolMessage
  add_heartbeat_interval msg heartbeat_interval = do
    info ← get_data_item_info_by_name cfg "Heartbeat_Interval"
    let interval = convert_interval info.units heartbeat_interval
    if type_eq info.value_type div_u16
        then add_new_data_item msg "Heartbeat_Interval" (u16 (interval % 2 ^ 16))
        else if type_eq info.value_type div_u32
        then add_new_data_item msg "Heartbeat_Interval" (u32 interval)
        else ok msg

  -- The status code to try when the configuration has no `status_name`.
  unfoldable pub remap_status : String → String
  remap_status status_name =
      if str_eq status_name "Invalid_Message"
      then "Invalid_Data"
      else if str_eq status_name "Invalid_Destination" || str_eq status_name "Inconsistent_Data"
      then "Invalid_Message"
      else if str_eq status_name "Invalid_Data"
      then "Invalid_Message"
      else if str_eq status_name "Not_Interested"
      then "Request_Denied"
      else "Unknown_Message"

  -- `while (! id_found)`, on fuel.
  unfoldable pub find_status_code_id : ℕ → String → Result ℕ
  find_status_code_id zero status_name = stuck
  find_status_code_id (suc fuel) status_name = elim (get_status_code_id cfg status_name) [
    | ok id ↦ ok id
    | err e ↦ find_status_code_id fuel (remap_status status_name)
    | stuck ↦ stuck
  ]

  unfoldable pub add_status : ℕ → ProtocolMessage → String → List ℕ → Result ProtocolMessage
  add_status fuel msg status_name reason = do
    id ← find_status_code_id fuel status_name
    div_type ← get_data_item_value_type cfg "Status"
    add_new_data_item msg "Status"
        (if type_eq div_type div_u8 then u8 (id % 2 ^ 8) else u8_string (id % 2 ^ 8) reason)

  unfoldable pub add_extensions : ProtocolMessage → List ℕ → Result ProtocolMessage
  add_extensions msg extensions = add_new_data_item msg "Extensions_Supported" (v_extid extensions)

  unfoldable pub add_mac : ProtocolMessage → List ℕ → Result ProtocolMessage
  add_mac msg mac = add_new_data_item msg "MAC_Address" (dlepmac mac)

  -- msgbuf.resize(header_length) only ever shortens the buffer.
  unfoldable pub clear_data_items : ProtocolMessage → Result ProtocolMessage
  clear_data_items msg = do
    msg' ← update_message_length (record msg { msgbuf = take msg.header_length msg.msgbuf })
    ok (record msg' { data_items = [] })
