-- ===== src/DataItem/Validate.antt =====
-- DataItem.cpp: DataItem::validate() and DataItem::validate_occurrences(). An error text is a
-- `Problem`, with the numbers and names that the text shows; the empty text is `none`. What throws
-- is an error of the `Result`.
use ll_dlep.Common.{
  ℕ, ◌+◌, ◌%◌, ◌^◌, String, Option, none, some, List, [], ◌∷◌, ltb, ◌==◌, if◌then◌else◌, Result, ok,
  ◌>>=◌, str_eq,
}
use ll_dlep.ProtocolConfig.{
  ProtocolConfig, get_data_item_name, get_data_item_info_by_name, find_left,
}
use ll_dlep.DataItem.Types.{
  DataItemValueType, type_eq, SubDataItem, DataItemInfo, DataItemValue, SubDataItems, DataItem, nil,
  cons, get_type, to_list, u8, u8_string, u8_ipv4, u8_ipv6, u8_ipv4_u8, u8_ipv6_u8, sub_data_items,
  u16_sub_data_items,
}

pub data Problem : Type 0 where
  wrong_type : DataItemValueType → DataItemValueType → Problem
  bad_add_drop bad_percentage bad_status : ℕ → Problem
  bad_subnet_mask : ℕ → ℕ → Problem
  need_exactly_one need_no_more_than_one : String → ℕ → Problem
  need_at_least_one : String → Problem
  unexpected_data_items : List (String × ℕ) → Problem
  in_data_item in_signal : String → Problem → Problem
  not_sent_by_modem not_sent_by_router : Problem

-- di_occurrences, which maps an id to an unsigned count.
abbrev pub Occurrences : Type 0
Occurrences = List (ℕ × ℕ)

-- The body of the counting loop.
unfoldable pub count_one : ℕ → Occurrences → Occurrences
count_one id [] = (id, 1) ∷ []
count_one id ((i, n) ∷ m) = if i == id then (i, (n + 1) % 2 ^ 32) ∷ m else (i, n) ∷ count_one id m

unfoldable pub count_all : List DataItem → Occurrences → Occurrences
count_all [] m = m
count_all (di ∷ dis) m = count_all dis (count_one di.id m)

-- at(), with 0 where it throws, and erase().
unfoldable pub occurs_actual : ℕ → Occurrences → ℕ
occurs_actual id [] = 0
occurs_actual id ((i, n) ∷ m) = if i == id then n else occurs_actual id m

unfoldable pub erase : ℕ → Occurrences → Occurrences
erase id [] = []
erase id ((i, n) ∷ m) = if i == id then erase id m else (i, n) ∷ erase id m

-- The comparison of the configured and the actual number.
unfoldable pub check_occurs : SubDataItem → ℕ → Option Problem
check_occurs info actual =
    if str_eq info.occurs "1"
    then (if actual == 1 then none else some (need_exactly_one info.name actual))
    else if str_eq info.occurs "1+"
    then (if ltb actual 1 then some (need_at_least_one info.name) else none)
    else if str_eq info.occurs "0-1"
    then (if ltb 1 actual then some (need_no_more_than_one info.name actual) else none)
    else none

-- The loop over the allowed data items: the first error, or the occurrences that are left.
unfoldable pub check_all : List SubDataItem → Occurrences → Option Problem × Occurrences
check_all [] m = (none, m)
check_all (info ∷ infos) m =
    let rest = check_all infos (erase info.id m) in
    elim (check_occurs info (occurs_actual info.id m)) [
      | some p ↦ (some p, erase info.id m)
      | none ↦ rest
    ]

unfoldable pub name_unexpected :
    ProtocolConfig → Option DataItemInfo → Occurrences → Result (List (String × ℕ))
name_unexpected cfg parent [] = ok []
name_unexpected cfg parent ((id, n) ∷ m) = do
  name ← get_data_item_name cfg id parent
  rest ← name_unexpected cfg parent m
  ok ((name, n) ∷ rest)

-- What follows the loop over the allowed data items.
unfoldable pub check_left :
    ProtocolConfig → Option DataItemInfo → Option Problem × Occurrences → Result (Option Problem)
check_left cfg parent (some p, m) = ok (some p)
check_left cfg parent (none, []) = ok none
check_left cfg parent (none, o ∷ m) = do
  unexpected ← name_unexpected cfg parent (o ∷ m)
  ok (some (unexpected_data_items unexpected))

unfoldable pub validate_occurrences :
    ProtocolConfig
    → List DataItem
    → List SubDataItem
    → Option DataItemInfo
    → Result (Option Problem)
validate_occurrences cfg data_items v_di_info parent =
    check_left cfg parent (check_all v_di_info (count_all data_items []))

-- validate_status(): only the failure to find the status code is caught.
unfoldable pub validate_status : ProtocolConfig → ℕ → Option Problem
validate_status cfg status_id = elim (find_left status_id cfg.status_code_map) [
  | some name ↦ none
  | none ↦ some (bad_status status_id)
]

unfoldable pub validate_add_drop : ℕ → Option Problem
validate_add_drop flags = if ltb 1 flags then some (bad_add_drop flags) else none

unfoldable pub validate_subnet : ℕ → ℕ → ℕ → Option Problem
unfolding validate_add_drop
validate_subnet most flags mask =
    if ltb 1 flags
    then some (bad_add_drop flags)
    else if ltb most mask
    then some (bad_subnet_mask mask most)
    else none

unfoldable pub validate_u8 : ProtocolConfig → DataItemInfo → ℕ → Option Problem
unfolding validate_status
validate_u8 cfg info x =
    if str_eq info.units "percentage"
    then (if ltb 100 x then some (bad_percentage x) else none)
    else if str_eq info.name "Status"
    then validate_status cfg x
    else none

-- `if (err != "") err = di_name + " " + err`.
abbrev pub name_problem : String → Option Problem → Option Problem
name_problem name none = none
name_problem name (some p) = some (in_data_item name p)

unfoldable mutual
  -- DataItemValidateVisitor.
  pub validate_value : ProtocolConfig → DataItemInfo → DataItemValue → Result (Option Problem)
  validate_value cfg info (u8 x) = ok (validate_u8 cfg info x)
  validate_value cfg info (u8_string x s) =
      ok (if str_eq info.name "Status" then validate_status cfg x else none)
  validate_value cfg info (u8_ipv4 x ip) = ok (validate_add_drop x)
  validate_value cfg info (u8_ipv6 x ip) = ok (validate_add_drop x)
  validate_value cfg info (u8_ipv4_u8 x ip mask) = ok (validate_subnet 32 x mask)
  validate_value cfg info (u8_ipv6_u8 x ip mask) = ok (validate_subnet 128 x mask)
  validate_value cfg info (sub_data_items sdis) = do
    p ← validate_sub_data_items cfg info sdis
    elim p [
      | some q ↦ ok (some q)
      | none ↦ validate_occurrences cfg (to_list sdis) info.sub_data_items (some info)
    ]
  validate_value cfg info (u16_sub_data_items x sdis) = do
    p ← validate_sub_data_items cfg info sdis
    elim p [
      | some q ↦ ok (some q)
      | none ↦ validate_occurrences cfg (to_list sdis) info.sub_data_items (some info)
    ]
  validate_value cfg info _ = ok none

  -- The loop of validate_sub_data_items(), with DataItem::validate() of each.
  pub validate_sub_data_items :
      ProtocolConfig → DataItemInfo → SubDataItems → Result (Option Problem)
  validate_sub_data_items cfg parent nil = ok none
  validate_sub_data_items cfg parent (cons id value sdis) = do
    name ← get_data_item_name cfg id (some parent)
    info ← get_data_item_info_by_name cfg name
    p ←
        if type_eq info.value_type (get_type value)
        then validate_value cfg info value
        else ok (some (wrong_type (get_type value) info.value_type))
    elim (name_problem name p) [
      | some q ↦ ok (some q)
      | none ↦ validate_sub_data_items cfg parent sdis
    ]

-- DataItem::validate().
unfoldable pub validate : ProtocolConfig → Option DataItemInfo → DataItem → Result (Option Problem)
validate cfg parent di = do
  name ← get_data_item_name cfg di.id parent
  info ← get_data_item_info_by_name cfg name
  p ←
      if type_eq info.value_type (get_type di.value)
      then validate_value cfg info di.value
      else ok (some (wrong_type (get_type di.value) info.value_type))
  ok (name_problem name p)
