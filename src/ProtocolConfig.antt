-- ===== src/ProtocolConfig.antt =====
-- ProtocolConfig.h, ProtocolConfigImpl.cpp: the protocol configuration once it is loaded, and the
-- queries that the message code makes. A map is the list of its entries in key order.
pub mod Modules
use ll_dlep.Common.{
  ℕ, ◌/◌, ◌%◌, ◌^◌, String, Bool, true, false, not, ◌&&◌, Option, none, some, List, [], ◌∷◌, ◌==◌,
  if◌then◌else◌, bad_data_item_id, bad_signal_id, bad_status_code_id, bad_data_item_name,
  bad_signal_name, bad_status_code_name, Result, ok, err, ◌>>=◌, or_throw, str_eq,
}
use ll_dlep.DataItem.Types.{
  DataItemValueType, SubDataItem, DataItemInfo, div_u8_ipv4, div_u8_ipv6, div_u8_ipv4_u16,
  div_u8_ipv6_u16, div_u8_ipv4_u8, div_u8_ipv6_u8, id_undefined,
}

pub record SignalInfo : Type 0 where
  pub name : String
  pub id : ℕ
  pub flags : ℕ
  pub data_items : List SubDataItem
  pub response_id : ℕ

pub record StatusCodeInfo : Type 0 where
  pub name : String
  pub id : ℕ
  pub flags : ℕ
  pub failure_mode : String

-- Of a module the fields that the session code asks for.
pub record ModuleInfo : Type 0 where
  pub name : String
  pub experiment_name : List ℕ
  pub extension_id : ℕ

-- The state of ProtocolConfigImpl. A bimap is the list of its pairs; an info map is the list of its
-- values, each of which holds its own key.
pub record ProtocolConfig : Type 0 where
  pub version : ℕ × ℕ
  pub signal_prefix : List ℕ
  pub signal_length_size : ℕ
  pub signal_id_size : ℕ
  pub data_item_length_size : ℕ
  pub data_item_id_size : ℕ
  pub extension_id_size : ℕ
  pub signal_map : List (ℕ × String)
  pub message_map : List (ℕ × String)
  pub data_item_map : List (ℕ × String)
  pub status_code_map : List (ℕ × String)
  pub signal_info_map : List SignalInfo
  pub message_info_map : List SignalInfo
  pub data_item_info_map : List DataItemInfo
  pub status_code_info_map : List StatusCodeInfo
  pub module_info_map : List ModuleInfo

-- Flag number `k` of an OR-combination of flags.
abbrev pub flag_set : ℕ → ℕ → Bool
flag_set flags k = flags / 2 ^ k % 2 == 1

abbrev pub message_flag : ℕ
message_flag = 0

abbrev pub modem_sends : ℕ
modem_sends = 1

abbrev pub router_sends : ℕ
router_sends = 2

abbrev pub metric_flag : ℕ
metric_flag = 0

-- `left.find` and `right.find` of a bimap.
unfoldable pub find_left : ℕ → List (ℕ × String) → Option String
find_left id [] = none
find_left id ((i, n) ∷ m) = if i == id then some n else find_left id m

unfoldable pub find_right : String → List (ℕ × String) → Option ℕ
find_right name [] = none
find_right name ((i, n) ∷ m) = if str_eq n name then some i else find_right name m

unfoldable pub find_sub_by_name : String → List SubDataItem → Option ℕ
find_sub_by_name name [] = none
find_sub_by_name name (sdi ∷ rest) =
    if str_eq sdi.name name && not (sdi.id == id_undefined)
    then some sdi.id
    else find_sub_by_name name rest

unfoldable pub find_sub_by_id : ℕ → List SubDataItem → Option String
find_sub_by_id id [] = none
find_sub_by_id id (sdi ∷ rest) = if sdi.id == id then some sdi.name else find_sub_by_id id rest

-- The sub data items of `parent_di_info`; a null pointer has none.
abbrev pub parent_sub_data_items : Option DataItemInfo → List SubDataItem
parent_sub_data_items none = []
parent_sub_data_items (some info) = info.sub_data_items

unfoldable pub find_data_item_info : String → List DataItemInfo → Option DataItemInfo
find_data_item_info name [] = none
find_data_item_info name (info ∷ rest) =
    if str_eq name info.name then some info else find_data_item_info name rest

unfoldable pub find_signal_info : String → List SignalInfo → Option SignalInfo
find_signal_info name [] = none
find_signal_info name (info ∷ rest) =
    if str_eq name info.name then some info else find_signal_info name rest

-- The value types that hold an IP address.
abbrev pub is_ipaddr_type : DataItemValueType → Bool
is_ipaddr_type div_u8_ipv4 = true
is_ipaddr_type div_u8_ipv6 = true
is_ipaddr_type div_u8_ipv4_u16 = true
is_ipaddr_type div_u8_ipv6_u16 = true
is_ipaddr_type div_u8_ipv4_u8 = true
is_ipaddr_type div_u8_ipv6_u8 = true
is_ipaddr_type _ = false

module _ (protocfg : ProtocolConfig) where
  -- The id of a signal or message, and whether it is a signal.
  unfoldable pub get_signal_id : String → Result (ℕ × Bool)
  unfolding find_right
  get_signal_id name = elim (find_right name protocfg.signal_map) [
    | some id ↦ ok (id, true)
    | none ↦ elim (find_right name protocfg.message_map) [
      | some id ↦ ok (id, false)
      | none ↦ err (bad_signal_name name)
    ]
  ]

  unfoldable pub get_signal_name : ℕ → Result String
  unfolding find_left
  get_signal_name id = or_throw (find_left id protocfg.signal_map) (bad_signal_id id)

  unfoldable pub get_message_name : ℕ → Result String
  unfolding find_left
  get_message_name id = or_throw (find_left id protocfg.message_map) (bad_signal_id id)

  unfoldable pub get_data_item_id : String → Option DataItemInfo → Result ℕ
  unfolding find_sub_by_name find_right
  get_data_item_id name parent = elim (find_sub_by_name name (parent_sub_data_items parent)) [
    | some id ↦ ok id
    | none ↦ or_throw (find_right name protocfg.data_item_map) (bad_data_item_name name)
  ]

  unfoldable pub get_data_item_name : ℕ → Option DataItemInfo → Result String
  unfolding find_sub_by_id find_left
  get_data_item_name id parent = elim (find_sub_by_id id (parent_sub_data_items parent)) [
    | some name ↦ ok name
    | none ↦ or_throw (find_left id protocfg.data_item_map) (bad_data_item_id id)
  ]

  unfoldable pub get_status_code_id : String → Result ℕ
  unfolding find_right
  get_status_code_id name =
      or_throw (find_right name protocfg.status_code_map) (bad_status_code_name name)

  unfoldable pub get_status_code_name : ℕ → Result String
  unfolding find_left
  get_status_code_name id = or_throw (find_left id protocfg.status_code_map) (bad_status_code_id id)

  -- get_data_item_info(di_name).
  unfoldable pub get_data_item_info_by_name : String → Result DataItemInfo
  unfolding find_data_item_info
  get_data_item_info_by_name name =
      or_throw (find_data_item_info name protocfg.data_item_info_map) (bad_data_item_name name)

  -- get_data_item_info(id, parent_di_info).
  unfoldable pub get_data_item_info : ℕ → Option DataItemInfo → Result DataItemInfo
  unfolding get_data_item_name get_data_item_info_by_name
  get_data_item_info id parent = do
    name ← get_data_item_name id parent
    get_data_item_info_by_name name

  unfoldable pub get_data_item_value_type : String → Result DataItemValueType
  unfolding get_data_item_info_by_name
  get_data_item_value_type name = do info ← get_data_item_info_by_name name; ok info.value_type

  -- The signals come before the messages.
  unfoldable pub get_signal_info : String → Result SignalInfo
  unfolding find_signal_info
  get_signal_info name = elim (find_signal_info name protocfg.signal_info_map) [
    | some info ↦ ok info
    | none ↦ or_throw (find_signal_info name protocfg.message_info_map) (bad_signal_name name)
  ]

  unfoldable pub is_metric : ℕ → Option DataItemInfo → Result Bool
  unfolding get_data_item_info
  is_metric id parent =
      if id == id_undefined
      then ok false
      else (do info ← get_data_item_info id parent; ok (flag_set info.flags metric_flag))

  unfoldable pub is_ipaddr : ℕ → Option DataItemInfo → Result Bool
  unfolding get_data_item_info
  is_ipaddr id parent =
      if id == id_undefined
      then ok false
      else (do info ← get_data_item_info id parent; ok (is_ipaddr_type info.value_type))
