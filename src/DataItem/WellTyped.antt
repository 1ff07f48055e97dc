-- ===== src/DataItem/WellTyped.antt =====
-- What a data item must satisfy to be sent: its integers fit their C++ types, its IP addresses have
-- the bytes of an address, and its type is the one that the configuration gives its id, in the scope
-- of the data item that contains it.
use ll_dlep.Common.{ℕ, ◌+◌, ◌^◌, ◌<◌, ◌≡◌, Option, some, List, length, All, ok}
use ll_dlep.ProtocolConfig.{ProtocolConfig, get_data_item_info}
use ll_dlep.DataItem.Types.{
  DataItemInfo, DataItemValue, SubDataItems, DataItem, nil, cons, get_type, no_value, u8, u16, u32,
  u64, v_u8, v_u32, a2_u16, string, dlepmac, u8_string, u8_ipv4, u8_ipv6, u16_vu8, v_extid,
  u8_ipv4_u16, u8_ipv6_u16, u8_ipv4_u8, u8_ipv6_u8, u8_u8, u64_u64, sub_data_items,
  u16_sub_data_items,
}
use ll_dlep.DataItem.Wire.{size}

abbrev pub AllBelow : ℕ → List ℕ → Type 0
AllBelow m = All (λ x. x < m)

abbrev pub IsBytes : List ℕ → Type 0
IsBytes = AllBelow 256

abbrev pub IsAddress : ℕ → List ℕ → Type 0
IsAddress n ip = (length ip ≡ n) × IsBytes ip

abbrev mutual
  -- A value of a data item with the configuration `info`.
  pub IsInRange : ProtocolConfig → DataItemInfo → DataItemValue → Type 0
  IsInRange cfg info no_value = Unit {0}
  IsInRange cfg info (u8 x) = x < 256
  IsInRange cfg info (u16 x) = x < 256 ^ 2
  IsInRange cfg info (u32 x) = x < 256 ^ 4
  IsInRange cfg info (u64 x) = x < 256 ^ 8
  IsInRange cfg info (v_u8 xs) = IsBytes xs
  IsInRange cfg info (v_u32 xs) = AllBelow (256 ^ 4) xs
  IsInRange cfg info (a2_u16 x y) = (x < 256 ^ 2) × (y < 256 ^ 2)
  IsInRange cfg info (string s) = IsBytes s
  IsInRange cfg info (dlepmac mac) = IsBytes mac
  IsInRange cfg info (u8_string x s) = (x < 256) × IsBytes s
  IsInRange cfg info (u8_ipv4 x ip) = (x < 256) × IsAddress 4 ip
  IsInRange cfg info (u8_ipv6 x ip) = (x < 256) × IsAddress 16 ip
  IsInRange cfg info (u16_vu8 x xs) = (x < 256 ^ 2) × IsBytes xs × (length xs < 2 ^ 32)
  IsInRange cfg info (v_extid xs) = AllBelow (256 ^ 4) xs
  IsInRange cfg info (u8_ipv4_u16 x ip port) = (x < 256) × IsAddress 4 ip × (port < 256 ^ 2)
  IsInRange cfg info (u8_ipv6_u16 x ip port) = (x < 256) × IsAddress 16 ip × (port < 256 ^ 2)
  IsInRange cfg info (u8_ipv4_u8 x ip mask) = (x < 256) × IsAddress 4 ip × (mask < 256)
  IsInRange cfg info (u8_ipv6_u8 x ip mask) = (x < 256) × IsAddress 16 ip × (mask < 256)
  IsInRange cfg info (u8_u8 x y) = (x < 256) × (y < 256)
  IsInRange cfg info (u64_u64 x y) = (x < 256 ^ 8) × (y < 256 ^ 8)
  IsInRange cfg info (sub_data_items sdis) = AreWellTyped cfg info sdis
  IsInRange cfg info (u16_sub_data_items x sdis) =
      (x < 256 ^ 2) × (size sdis < 2 ^ 32) × AreWellTyped cfg info sdis

  -- Sub data items of a data item with the configuration `parent`.
  pub AreWellTyped : ProtocolConfig → DataItemInfo → SubDataItems → Type 0
  AreWellTyped cfg parent nil = Unit {0}
  AreWellTyped cfg parent (cons id value sdis) =
      ((id < 256 ^ 4)
        × ((info : DataItemInfo) × (get_data_item_info cfg id (some parent) ≡ ok info)
            × (info.value_type ≡ get_type value)
            × IsInRange cfg info value))
      × AreWellTyped cfg parent sdis

abbrev pub IsWellTyped : ProtocolConfig → Option DataItemInfo → DataItem → Type 0
IsWellTyped cfg parent di =
    (di.id < 256 ^ 4)
    × ((info : DataItemInfo) × (get_data_item_info cfg di.id parent ≡ ok info)
        × (info.value_type ≡ get_type di.value)
        × IsInRange cfg info di.value)

-- The configured sizes with which reading makes progress and loses no number.
pub record HasFieldSizes (cfg : ProtocolConfig) : Type 0 where
  pub header : 0 < cfg.data_item_id_size + cfg.data_item_length_size
  pub extension : 0 < cfg.extension_id_size
