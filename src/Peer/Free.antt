-- ===== src/Peer/Free.antt =====
-- InfoBaseMgr.cpp: find_ip_data_item() of a peer against what it looks for.
use ll_dlep.Common.{
  ℕ, ◌≡◌, refl, ◌⊎◌, inl, inr, true, false, none, some, List, [], ◌∷◌, Bool-cases, All, nat_key,
  string_key, bytes_key,
}
use mathlib.Core.Path.{subst}
use mathlib.Core.HLevel.{⊥_prop}
use mathlib.Core.Logic.{◌↔◌}
use mathlib.Core.Logic.Or
use mathlib.Core.List.{Mem, mem-cons, mem-cons_self, mem-cons_of_mem, not-mem-nil}
use ll_dlep.DataItem.Types.{DataItem}
use ll_dlep.DataItem.Ip.{IpInfo, ip_info, ip_equal, ip_equal_lem, find_ip_data_item}
use ll_dlep.InfoBase.Destination.{DestinationData, destination_has_ip}
use ll_dlep.Peer.Addresses.{is_owned}
use ll_dlep.InfoBase.PeerData.{PeerData, find_ip_destination, find_ip_owner}

-- Two data items have one IP address: the kind, the bytes and the subnet size are the same.
abbrev pub Shares : DataItem → DataItem → Type 0
Shares ip held = (info : IpInfo) × (ip_info ip.value ≡ some info) × (ip_info held.value ≡ some info)

-- None of the data items has the address.
abbrev pub IsNoneOf : DataItem → List DataItem → Type 0
IsNoneOf ip = All (λ held. ¬ Shares ip held)

-- One of the data items has the address.
abbrev pub IsAmong : DataItem → List DataItem → Type 0
IsAmong ip dis = (held : DataItem) × Mem held dis × Shares ip held

-- Neither the peer nor a destination of it has the address.
abbrev pub IsFreeAt : DataItem → PeerData → Type 0
IsFreeAt ip pd =
    IsNoneOf ip pd.ip_data_items
    × All (λ entry. IsNoneOf ip entry.1.ip_data_items) pd.destination_data

ip_equal-Shares :
    (ip held : DataItem)
    → ((ip_equal ip held ≡ true) × Shares ip held) ⊎ ((ip_equal ip held ≡ false) × ¬ Shares ip held)
ip_equal-Shares ip held = elim (Bool-cases (ip_equal ip held)) [
  | inl e ↦ inl (e, (ip_equal_lem ip held).0 e)
  | inr e ↦
      inr (e, λ s. absurd (let t : ip_equal ip held ≡ true = (ip_equal_lem ip held).1 s in cc))
]

-- Found, and then it is one of them, or not found, and then it is none of them.
pub find_ip_data_item-cases :
    (ip : DataItem) (dis : List DataItem)
    → ((di : DataItem) × (find_ip_data_item ip dis ≡ some di) × IsAmong ip dis)
      ⊎ ((find_ip_data_item ip dis ≡ none) × IsNoneOf ip dis)
unfolding find_ip_data_item
find_ip_data_item-cases ip [] = inr (refl, tt)
find_ip_data_item-cases ip (di ∷ dis) = elim (ip_equal-Shares ip di) [
  | inl (e, s) ↦ inl (di, rw e refl, (di, mem-cons_self, s))
  | inr (e, n) ↦ elim (find_ip_data_item-cases ip dis) [
    | inl (found, f, (held, m, s)) ↦ inl (found, rw e f, (held, mem-cons_of_mem di m, s))
    | inr (f, none_of) ↦ inr (rw e f, (n, none_of))
  ]
]

pub IsNoneOf-IsAmong : (ip : DataItem) (dis : List DataItem) → IsNoneOf ip dis → ¬ IsAmong ip dis
IsNoneOf-IsAmong ip [] n (held, m, s) = not-mem-nil m
IsNoneOf-IsAmong ip (di ∷ dis) (n, ns) (held, m, s) =
    Or.elim ⊥_prop (mem-cons.0 m) (λ e. n (subst (Shares ip) e s))
      (λ later. IsNoneOf-IsAmong ip dis ns (held, later, s))

destination_has_ip-cases :
    (ip : DataItem) (dd : DestinationData)
    → ((destination_has_ip dd ip ≡ true) × IsAmong ip dd.ip_data_items)
      ⊎ ((destination_has_ip dd ip ≡ false) × IsNoneOf ip dd.ip_data_items)
unfolding destination_has_ip
destination_has_ip-cases ip dd = elim (find_ip_data_item-cases ip dd.ip_data_items) [
  | inl (di, f, a) ↦ inl (rw (f, destination_has_ip) refl, a)
  | inr (f, n) ↦ inr (rw (f, destination_has_ip) refl, n)
]

find_ip_destination_lem :
    (ip : DataItem) (dds : List (List ℕ × DestinationData))
    → (is_owned (find_ip_destination ip dds) ≡ false)
      ↔ All (λ entry. IsNoneOf ip entry.1.ip_data_items) dds
unfolding find_ip_destination
find_ip_destination_lem ip [] = (λ _. tt, λ _. refl)
find_ip_destination_lem ip ((mac, dd) ∷ dds) = elim (destination_has_ip-cases ip dd) [
  | inl (e, a) ↦ (
    λ h. absurd (let x : true ≡ false = rw e at h in cc x),
    λ h. absurd (IsNoneOf-IsAmong ip dd.ip_data_items h.0 a),
  )
  | inr (e, n) ↦
      rw e (
        λ h. (n, (find_ip_destination_lem ip dds).0 h),
        λ h. (find_ip_destination_lem ip dds).1 h.1,
      )
]

pub find_ip_owner_lem :
    (ip : DataItem) (pd : PeerData) → (is_owned (find_ip_owner pd ip) ≡ false) ↔ IsFreeAt ip pd
unfolding find_ip_owner
find_ip_owner_lem ip pd = elim (find_ip_data_item-cases ip pd.ip_data_items) [
  | inl (di, f, a) ↦ (
    λ h. absurd (let x : true ≡ false = rw (f, is_owned, find_ip_owner) at h in cc x),
    λ h. absurd (IsNoneOf-IsAmong ip pd.ip_data_items h.0 a),
  )
  | inr (f, n) ↦
      rw (f, is_owned, find_ip_owner)
        (
          λ h. (n, (find_ip_destination_lem ip pd.destination_data).0 h),
          λ h. (find_ip_destination_lem ip pd.destination_data).1 h.1,
        )
]
