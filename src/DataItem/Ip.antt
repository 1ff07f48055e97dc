-- ===== src/DataItem/Ip.antt =====
-- DataItem.cpp: comparing the IP addresses of data items, and DataItem.h: equality of data items.
use ll_dlep.Common.{
  ℕ, ◌≡◌, refl, sym, ap, Bool, true, false, ◌&&◌, Option, none, some, List, [], ◌∷◌, arith, ◌==◌,
  if◌then◌else◌,
}
use mathlib.Core.Logic.{◌↔◌}
use ll_dlep.DataItem.Types.{
  DataItemValue, DataItem, get_type, u8_ipv4, u8_ipv6, u8_ipv4_u8, u8_ipv6_u8, type_eq,
}
use native.Mathlib.Decide.{ℕ_discrete}
use mathlib.Core.Logic.{ite, if_pos, if_neg}

pub DataItemValue-discrete : Discrete DataItemValue
DataItemValue-discrete = hlevel ℕ_discrete

pub Address-discrete : Discrete (List ℕ)
Address-discrete = hlevel ℕ_discrete

-- operator== of two addresses.
unfoldable pub address_eq : List ℕ → List ℕ → Bool
address_eq ip ip' = ite (Address-discrete ip ip') true false

-- operator== of two data items.
unfoldable pub data_item_eq : DataItem → DataItem → Bool
data_item_eq di other =
    di.id == other.id && ite (DataItemValue-discrete di.value other.value) true false

-- DataItemIpEqualVisitor, which is applied to two values of one type only.
unfoldable pub ip_equal_values : DataItemValue → DataItemValue → Bool
unfolding address_eq
ip_equal_values (u8_ipv4 x ip) (u8_ipv4 y ip') = address_eq ip ip'
ip_equal_values (u8_ipv6 x ip) (u8_ipv6 y ip') = address_eq ip ip'
ip_equal_values (u8_ipv4_u8 x ip mask) (u8_ipv4_u8 y ip' mask') = address_eq ip ip' && mask == mask'
ip_equal_values (u8_ipv6_u8 x ip mask) (u8_ipv6_u8 y ip' mask') = address_eq ip ip' && mask == mask'
ip_equal_values _ _ = false

-- DataItem::ip_equal().
unfoldable pub ip_equal : DataItem → DataItem → Bool
unfolding type_eq get_type ip_equal_values
ip_equal di other =
    if type_eq (get_type di.value) (get_type other.value)
    then ip_equal_values di.value other.value
    else false

-- DataItem::ip_flags().
unfoldable pub ip_flags_value : DataItemValue → ℕ
ip_flags_value (u8_ipv4 x ip) = x
ip_flags_value (u8_ipv6 x ip) = x
ip_flags_value (u8_ipv4_u8 x ip mask) = x
ip_flags_value (u8_ipv6_u8 x ip mask) = x
ip_flags_value _ = 0

abbrev pub ip_flags : DataItem → ℕ
ip_flags di = ip_flags_value di.value

-- DataItem::find_ip_data_item(): the first data item with the address, `none` for the end.
unfoldable pub find_ip_data_item : DataItem → List DataItem → Option DataItem
find_ip_data_item ip [] = none
find_ip_data_item ip (di ∷ dis) = if ip_equal ip di then some di else find_ip_data_item ip dis

-- The IP address information of a value: the kind of value, the address and, if present, the
-- subnet size.
pub data IpInfo : Type 0 where
  ipv4 ipv6 : List ℕ → IpInfo
  ipv4_subnet ipv6_subnet : List ℕ → ℕ → IpInfo

abbrev pub ip_info : DataItemValue → Option IpInfo
ip_info (u8_ipv4 x ip) = some (ipv4 ip)
ip_info (u8_ipv6 x ip) = some (ipv6 ip)
ip_info (u8_ipv4_u8 x ip mask) = some (ipv4_subnet ip mask)
ip_info (u8_ipv6_u8 x ip mask) = some (ipv6_subnet ip mask)
ip_info _ = none

address_eq_refl : (ip : List ℕ) → address_eq ip ip ≡ true
unfolding address_eq
address_eq_refl ip = if_pos (Address-discrete ip ip) refl true false

address_eq→eq : (ip ip' : List ℕ) → address_eq ip ip' ≡ true → ip ≡ ip'
unfolding address_eq
address_eq→eq ip ip' h = elim (Address-discrete ip ip') [
  | yes e ↦ e
  | no n ↦ absurd (let x : false ≡ true = rw (if_neg _ n) at h in cc x)
]

pub ip_equal_lem :
    (di other : DataItem)
    → (ip_equal di other ≡ true)
      ↔ ((info : IpInfo) × (ip_info di.value ≡ some info) × (ip_info other.value ≡ some info))
unfolding ip_equal
ip_equal_lem di other = (sound di.value other.value, λ h. complete di.value other.value h.0 h.1 h.2)
  where
    sound :
        (v w : DataItemValue)
        → (if type_eq (get_type v) (get_type w) then ip_equal_values v w else false) ≡ true
        → (info : IpInfo) × (ip_info v ≡ some info) × (ip_info w ≡ some info)
    sound (u8_ipv4 x ip) (u8_ipv4 y ip') h =
        (ipv4 ip, refl, ap (λ a. some (ipv4 a)) (sym (address_eq→eq ip ip' h)))
    sound (u8_ipv6 x ip) (u8_ipv6 y ip') h =
        (ipv6 ip, refl, ap (λ a. some (ipv6 a)) (sym (address_eq→eq ip ip' h)))
    sound (u8_ipv4_u8 x ip mask) (u8_ipv4_u8 y ip' mask') h =
        (ipv4_subnet ip mask, refl, ground (arith, address_eq→eq ip ip'))
    sound (u8_ipv6_u8 x ip mask) (u8_ipv6_u8 y ip' mask') h =
        (ipv6_subnet ip mask, refl, ground (arith, address_eq→eq ip ip'))
    sound (u8_ipv4 x ip) _ h = absurd (cc h)
    sound (u8_ipv6 x ip) _ h = absurd (cc h)
    sound (u8_ipv4_u8 x ip mask) _ h = absurd (cc h)
    sound (u8_ipv6_u8 x ip mask) _ h = absurd (cc h)
    sound v w h = absurd (ground arith)

    complete :
        (v w : DataItemValue) (info : IpInfo)
        → ip_info v ≡ some info
        → ip_info w ≡ some info
        → (if type_eq (get_type v) (get_type w) then ip_equal_values v w else false) ≡ true
    complete (u8_ipv4 x ip) (u8_ipv4 y ip') info p q = ground (arith, address_eq_refl ip)
    complete (u8_ipv6 x ip) (u8_ipv6 y ip') info p q = ground (arith, address_eq_refl ip)
    complete (u8_ipv4_u8 x ip mask) (u8_ipv4_u8 y ip' mask') info p q =
        ground (arith, address_eq_refl ip)
    complete (u8_ipv6_u8 x ip mask) (u8_ipv6_u8 y ip' mask') info p q =
        ground (arith, address_eq_refl ip)
    complete (u8_ipv4 x ip) _ info p q = cc
    complete (u8_ipv6 x ip) _ info p q = cc
    complete (u8_ipv4_u8 x ip mask) _ info p q = cc
    complete (u8_ipv6_u8 x ip mask) _ info p q = cc
    complete _ w info p q = cc
