-- ===== src/Peer/Addresses.antt =====
-- Peer.cpp: validate_ip_data_items(), which keeps an IP address from having two owners.
use ll_dlep.Common.{
  Bool, true, false, Option, none, some, List, [], ◌∷◌, ◌++◌, if◌then◌else◌, Result, ok, ◌>>=◌,
  nat_key, string_key, bytes_key,
}
use ll_dlep.ProtocolConfig.{is_ipaddr}
use ll_dlep.DataItem.Types.{DataItem}
use ll_dlep.DataItem.Ip.{find_ip_data_item}
use ll_dlep.InfoBase.Destination.{is_adding}
use ll_dlep.InfoBase.PeerData.{
  PeerData, IpOwner, no_owner, peer_owner, destination_owner, find_ip_owner,
}
use ll_dlep.Peer.State.{IpProblem, already_owned, not_there, Peer, Dlep}

-- `ip_owner == ""`.
abbrev pub is_owned : IpOwner → Bool
is_owned no_owner = false
is_owned (peer_owner id) = true
is_owned (destination_owner mac) = true

-- The loop over the peers, which stops at the first owner.
unfoldable pub find_owner_among : DataItem → List PeerData → IpOwner
find_owner_among ip [] = no_owner
find_owner_among ip (pd ∷ pds) =
    let owner = find_ip_owner pd ip in
    let rest = find_owner_among ip pds in if is_owned owner then owner else rest

-- All the peers in the order of `dlep->peers`, with this one among them.
abbrev pub all_peers : Dlep → Peer → List PeerData
all_peers dlep peer = dlep.peers_before ++ (peer.peer_pdp ∷ dlep.peers_after)

-- One data item with an IP address.
unfoldable pub check_ip_data_item : Dlep → Peer → List DataItem → DataItem → Option IpProblem
check_ip_data_item dlep peer existing ndi =
    if is_adding ndi
    then (let owner = find_ip_owner dlep.local_pdp ndi in
        let owner' = if is_owned owner then owner else find_owner_among ndi (all_peers dlep peer) in
        if is_owned owner' then some (already_owned ndi owner') else none)
    else elim (find_ip_data_item ndi existing) [ none ↦ some (not_there ndi) | some di ↦ none ]

unfoldable pub validate_ip_data_items :
    Dlep → Peer → List DataItem → List DataItem → Result (Option IpProblem)
validate_ip_data_items dlep peer [] existing = ok none
validate_ip_data_items dlep peer (ndi ∷ ndis) existing = do
  ipaddr ← is_ipaddr dlep.protocfg ndi.id none
  let problem = if ipaddr then check_ip_data_item dlep peer existing ndi else none
  elim problem [ some p ↦ ok (some p) | none ↦ validate_ip_data_items dlep peer ndis existing ]
