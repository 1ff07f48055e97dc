-- ===== src/ProtocolConfig/Modules.antt =====
-- ProtocolConfigImpl.cpp: responses, status codes and modules.
use ll_dlep.Common.{
  ℕ, String, not, Option, none, some, List, [], ◌∷◌, ◌==◌, if◌then◌else◌, length, bad_signal_name,
  bad_module_name, Result, ok, ◌>>=◌, or_throw, str_eq, nat_key, string_key, bytes_key,
}
use ll_dlep.ProtocolConfig.{
  StatusCodeInfo, ModuleInfo, ProtocolConfig, flag_set, message_flag, get_signal_info,
  get_message_name, get_signal_name,
}

unfoldable pub find_status_code_info : String → List StatusCodeInfo → Option StatusCodeInfo
find_status_code_info name [] = none
find_status_code_info name (info ∷ rest) =
    if str_eq name info.name then some info else find_status_code_info name rest

unfoldable pub find_module_info : String → List ModuleInfo → Option ModuleInfo
find_module_info name [] = none
find_module_info name (info ∷ rest) =
    if str_eq name info.name then some info else find_module_info name rest

unfoldable pub extension_ids : List ModuleInfo → List ℕ
extension_ids [] = []
extension_ids (info ∷ rest) =
    if not (info.extension_id == 0)
    then info.extension_id ∷ extension_ids rest
    else extension_ids rest

unfoldable pub experiment_names : List ModuleInfo → List (List ℕ)
experiment_names [] = []
experiment_names (info ∷ rest) =
    if not (length info.experiment_name == 0)
    then info.experiment_name ∷ experiment_names rest
    else experiment_names rest

module _ (protocfg : ProtocolConfig) where
  -- An empty name is the answer for a message without a response.
  unfoldable pub get_message_response_name : String → Result String
  get_message_response_name msg_name = do
    siginfo ← get_signal_info protocfg msg_name
    if siginfo.response_id == 0
        then ok ""
        else if flag_set siginfo.flags message_flag
        then get_message_name protocfg siginfo.response_id
        else get_signal_name protocfg siginfo.response_id

  unfoldable pub get_status_code_info : String → Result StatusCodeInfo
  get_status_code_info sc_name =
      or_throw (find_status_code_info sc_name protocfg.status_code_info_map)
        (bad_signal_name sc_name)

  unfoldable pub get_module_info : String → Result ModuleInfo
  get_module_info module_name =
      or_throw (find_module_info module_name protocfg.module_info_map) (bad_module_name module_name)

  unfoldable pub get_extension_ids : List ℕ
  get_extension_ids = extension_ids protocfg.module_info_map

  unfoldable pub get_experiment_names : List (List ℕ)
  get_experiment_names = experiment_names protocfg.module_info_map
