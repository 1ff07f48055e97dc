-- ===== src/DataItem/Types.antt =====
-- DataItem.h: the value of a data item, its type, and what the configuration says of a data item.
-- An integer is a number, a string or a MAC address its bytes, an IP address its bytes in network
-- order. Reserved and count fields of the wire format are not part of a value.
use ll_dlep.Common.{
  ℕ, zero, suc, ◌-◌, ◌^◌, String, ◌≡◌, refl, sym, ap, ◌∙◌, Bool, true, List, [], ◌∷◌, ◌==◌, eq→==,
  ==→eq,
}

pub data DataItemValueType : Type 0 where
  blank div_u8 div_u16 div_u32 div_u64 div_v_u8 div_v_u32 div_a2_u16 : DataItemValueType
  div_string div_dlepmac div_u8_string div_u8_ipv4 div_u8_ipv6 div_u16_vu8 : DataItemValueType
  div_v_extid div_u8_ipv4_u16 div_u8_ipv6_u16 div_u8_ipv4_u8 div_u8_ipv6_u8 : DataItemValueType
  div_u8_u8 div_u64_u64 div_sub_data_items div_u16_sub_data_items : DataItemValueType

-- The number of an enumerator, by which operator== compares.
abbrev pub type_index : DataItemValueType → ℕ
type_index blank = 0
type_index div_u8 = 1
type_index div_u16 = 2
type_index div_u32 = 3
type_index div_u64 = 4
type_index div_v_u8 = 5
type_index div_v_u32 = 6
type_index div_a2_u16 = 7
type_index div_string = 8
type_index div_dlepmac = 9
type_index div_u8_string = 10
type_index div_u8_ipv4 = 11
type_index div_u8_ipv6 = 12
type_index div_u16_vu8 = 13
type_index div_v_extid = 14
type_index div_u8_ipv4_u16 = 15
type_index div_u8_ipv6_u16 = 16
type_index div_u8_ipv4_u8 = 17
type_index div_u8_ipv6_u8 = 18
type_index div_u8_u8 = 19
type_index div_u64_u64 = 20
type_index div_sub_data_items = 21
type_index div_u16_sub_data_items = 22

unfoldable pub type_eq : DataItemValueType → DataItemValueType → Bool
type_eq t u = type_index t == type_index u

-- The enumerators by their numbers.
type_at : ℕ → List DataItemValueType → DataItemValueType
type_at i [] = blank
type_at zero (t ∷ ts) = t
type_at (suc i) (t ∷ ts) = type_at i ts

abbrev enumerators : List DataItemValueType
enumerators =
    blank ∷ div_u8 ∷ div_u16 ∷ div_u32 ∷ div_u64 ∷ div_v_u8 ∷ div_v_u32 ∷ div_a2_u16 ∷ div_string
    ∷ div_dlepmac ∷ div_u8_string ∷ div_u8_ipv4 ∷ div_u8_ipv6 ∷ div_u16_vu8 ∷ div_v_extid
    ∷ div_u8_ipv4_u16 ∷ div_u8_ipv6_u16 ∷ div_u8_ipv4_u8 ∷ div_u8_ipv6_u8 ∷ div_u8_u8 ∷ div_u64_u64
    ∷ div_sub_data_items ∷ div_u16_sub_data_items ∷ []

type_at-type_index : (t : DataItemValueType) → type_at (type_index t) enumerators ≡ t
unfolding type_at
type_at-type_index blank = refl
type_at-type_index _ = refl

pub type_eq→eq : (t u : DataItemValueType) → type_eq t u ≡ true → t ≡ u
unfolding type_eq
type_eq→eq t u h =
    sym (type_at-type_index t)
    ∙ ap (λ i. type_at i enumerators) (==→eq (type_index t) (type_index u) h)
    ∙ type_at-type_index u

pub type_eq_refl : (t : DataItemValueType) → type_eq t t ≡ true
unfolding type_eq
type_eq_refl t = eq→== (type_index t) (type_index t) refl

-- IdUndefined of IdTypes.h.
abbrev pub id_undefined : ℕ
id_undefined = 2 ^ 32 - 1

pub record SubDataItem : Type 0 where
  pub name : String
  pub id : ℕ
  pub occurs : String

pub record DataItemInfo : Type 0 where
  pub name : String
  pub id : ℕ
  pub value_type : DataItemValueType
  pub flags : ℕ
  pub units : String
  pub sub_data_items : List SubDataItem

-- The variant DataItemValue, an alternative to each type of value. `SubDataItems` is a vector of
-- DataItem, each with its id and its value.
mutual
  pub data DataItemValue : Type 0 where
    no_value : DataItemValue
    u8 u16 u32 u64 : ℕ → DataItemValue
    v_u8 v_u32 : List ℕ → DataItemValue
    a2_u16 : ℕ → ℕ → DataItemValue
    string dlepmac : List ℕ → DataItemValue
    u8_string : ℕ → List ℕ → DataItemValue
    u8_ipv4 u8_ipv6 : ℕ → List ℕ → DataItemValue
    u16_vu8 : ℕ → List ℕ → DataItemValue
    v_extid : List ℕ → DataItemValue
    u8_ipv4_u16 u8_ipv6_u16 : ℕ → List ℕ → ℕ → DataItemValue
    u8_ipv4_u8 u8_ipv6_u8 : ℕ → List ℕ → ℕ → DataItemValue
    u8_u8 u64_u64 : ℕ → ℕ → DataItemValue
    sub_data_items : SubDataItems → DataItemValue
    u16_sub_data_items : ℕ → SubDataItems → DataItemValue

  pub data SubDataItems : Type 0 where
    nil : SubDataItems
    cons : ℕ → DataItemValue → SubDataItems → SubDataItems

pub record DataItem : Type 0 where
  pub id : ℕ
  pub value : DataItemValue

abbrev pub of_list : List DataItem → SubDataItems
of_list [] = nil
of_list (di ∷ dis) = cons di.id di.value (of_list dis)

abbrev pub to_list : SubDataItems → List DataItem
to_list nil = []
to_list (cons id value sdis) = record { id = id; value = value } ∷ to_list sdis

pub of_list-to_list : (sdis : SubDataItems) → of_list (to_list sdis) ≡ sdis
of_list-to_list nil = refl
of_list-to_list (cons id value sdis) = ap (cons id value) (of_list-to_list sdis)

-- get_type(): the alternatives of the variant stand in the order of the enumerators.
unfoldable pub get_type : DataItemValue → DataItemValueType
get_type no_value = blank
get_type (u8 x) = div_u8
get_type (u16 x) = div_u16
get_type (u32 x) = div_u32
get_type (u64 x) = div_u64
get_type (v_u8 xs) = div_v_u8
get_type (v_u32 xs) = div_v_u32
get_type (a2_u16 x y) = div_a2_u16
get_type (string s) = div_string
get_type (dlepmac mac) = div_dlepmac
get_type (u8_string x s) = div_u8_string
get_type (u8_ipv4 x ip) = div_u8_ipv4
get_type (u8_ipv6 x ip) = div_u8_ipv6
get_type (u16_vu8 x xs) = div_u16_vu8
get_type (v_extid xs) = div_v_extid
get_type (u8_ipv4_u16 x ip port) = div_u8_ipv4_u16
get_type (u8_ipv6_u16 x ip port) = div_u8_ipv6_u16
get_type (u8_ipv4_u8 x ip mask) = div_u8_ipv4_u8
get_type (u8_ipv6_u8 x ip mask) = div_u8_ipv6_u8
get_type (u8_u8 x y) = div_u8_u8
get_type (u64_u64 x y) = div_u64_u64
get_type (sub_data_items sdis) = div_sub_data_items
get_type (u16_sub_data_items x sdis) = div_u16_sub_data_items

zeros : ℕ → List ℕ
zeros zero = []
zeros (suc n) = 0 ∷ zeros n

-- set_default_value(). A default-constructed IP address is all zero.
unfoldable pub set_default_value : DataItemValueType → DataItemValue
unfolding zeros
set_default_value blank = no_value
set_default_value div_u8 = u8 0
set_default_value div_u16 = u16 0
set_default_value div_u32 = u32 0
set_default_value div_u64 = u64 0
set_default_value div_v_u8 = v_u8 []
set_default_value div_v_u32 = v_u32 []
set_default_value div_a2_u16 = a2_u16 0 0
set_default_value div_string = string []
set_default_value div_dlepmac = dlepmac []
set_default_value div_u8_string = u8_string 0 []
set_default_value div_u8_ipv4 = u8_ipv4 0 (zeros 4)
set_default_value div_u8_ipv6 = u8_ipv6 0 (zeros 16)
set_default_value div_u16_vu8 = u16_vu8 0 []
set_default_value div_v_extid = v_extid []
set_default_value div_u8_ipv4_u16 = u8_ipv4_u16 0 (zeros 4) 0
set_default_value div_u8_ipv6_u16 = u8_ipv6_u16 0 (zeros 16) 0
set_default_value div_u8_ipv4_u8 = u8_ipv4_u8 0 (zeros 4) 0
set_default_value div_u8_ipv6_u8 = u8_ipv6_u8 0 (zeros 16) 0
set_default_value div_u8_u8 = u8_u8 0 0
set_default_value div_u64_u64 = u64_u64 0 0
set_default_value div_sub_data_items = sub_data_items nil
set_default_value div_u16_sub_data_items = u16_sub_data_items 0 nil

-- The default of a type is a value of that type.
pub get_type-set_default_value : (t : DataItemValueType) → get_type (set_default_value t) ≡ t
unfolding get_type set_default_value
get_type-set_default_value blank = refl
get_type-set_default_value _ = refl
