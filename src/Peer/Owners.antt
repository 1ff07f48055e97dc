-- ===== src/Peer/Owners.antt =====
-- Peer.cpp: validate_ip_data_items() against what it is for.
use ll_dlep.Common.{
  ◌%◌, ◌≡◌, refl, sym, ◌∙◌, ◌≢◌, ◌⊎◌, inl, inr, Bool, true, false, Option, none, some, List, [],
  ◌∷◌, ◌++◌, if◌then◌else◌, ==→eq, ==→ne, Bool-cases, All, ok, >>=-elim, nat_key, string_key,
  bytes_key,
}
use mathlib.Core.Logic.{◌↔◌}
use ll_dlep.ProtocolConfig.{is_ipaddr}
use ll_dlep.DataItem.Types.{DataItem}
use ll_dlep.DataItem.Ip.{find_ip_data_item, ip_flags}
use ll_dlep.Peer.Free.{
  IsFreeAt, IsAmong, find_ip_data_item-cases, IsNoneOf-IsAmong, find_ip_owner_lem,
}
use ll_dlep.InfoBase.Destination.{is_adding}
use ll_dlep.InfoBase.PeerData.{
  PeerData, IpOwner, no_owner, peer_owner, destination_owner, find_ip_owner,
}
use ll_dlep.Peer.State.{Peer, Dlep, IpProblem, not_there}
use ll_dlep.Peer.Addresses.{
  is_owned, find_owner_among, all_peers, check_ip_data_item, validate_ip_data_items,
}

-- An address may be added if neither we nor a peer, this one included, nor a destination of one of
-- them has it, and removed if one of the existing data items has it.
unfoldable pub MayChange : Dlep → Peer → List DataItem → DataItem → Type 0
MayChange dlep peer existing ip =
    ((ip_flags ip % 2 ≡ 1)
      × IsFreeAt ip dlep.local_pdp
      × All (IsFreeAt ip) (dlep.peers_before ++ (peer.peer_pdp ∷ dlep.peers_after)))
    ⊎ ((ip_flags ip % 2 ≢ 1) × IsAmong ip existing)

-- A data item without an address, or with one that may be changed so.
unfoldable pub IsAllowed : Dlep → Peer → List DataItem → DataItem → Type 0
IsAllowed dlep peer existing di =
    (is_ipaddr dlep.protocfg di.id none ≡ ok false)
    ⊎ ((is_ipaddr dlep.protocfg di.id none ≡ ok true) × MayChange dlep peer existing di)

-- The first owner, and then another.
neither_owned :
    (a b : IpOwner)
    → (is_owned (if is_owned a then a else b) ≡ false)
      ↔ ((is_owned a ≡ false) × (is_owned b ≡ false))
neither_owned no_owner b = (λ h. (refl, h), λ h. h.1)
neither_owned (peer_owner id) b = (λ h. absurd (cc h), λ h. h.0)
neither_owned (destination_owner mac) b = (λ h. absurd (cc h), λ h. h.0)

find_owner_among_lem :
    (ip : DataItem) (pds : List PeerData)
    → (is_owned (find_owner_among ip pds) ≡ false) ↔ All (IsFreeAt ip) pds
unfolding find_owner_among
find_owner_among_lem ip [] = (λ _. tt, λ _. refl)
find_owner_among_lem ip (pd ∷ pds) =
    let here = neither_owned (find_ip_owner pd ip) (find_owner_among ip pds) in
    let at_pd = find_ip_owner_lem ip pd in
    let later = find_owner_among_lem ip pds in
    (λ h. (at_pd.0 (here.0 h).0, later.0 (here.0 h).1), λ h. here.1 (at_pd.1 h.0, later.1 h.1))

module _ (dlep : Dlep) (peer : Peer) (existing : List DataItem) where
  no_problem_if : (b : Bool) (p : IpProblem) → (if b then some p else none) ≡ none → b ≡ false
  no_problem_if true p h = absurd (cc h)
  no_problem_if false p h = refl

  check-adding :
      (ip : DataItem)
      → is_adding ip ≡ true
      → (check_ip_data_item dlep peer existing ip ≡ none)
        ↔ (IsFreeAt ip dlep.local_pdp × All (IsFreeAt ip) (all_peers dlep peer))
  unfolding check_ip_data_item
  check-adding ip e =
      let ours = find_ip_owner dlep.local_pdp ip in
      let both = neither_owned ours (find_owner_among ip (all_peers dlep peer)) in
      let here = find_ip_owner_lem ip dlep.local_pdp in
      let later = find_owner_among_lem ip (all_peers dlep peer) in
      rw e (
        λ h. let free = both.0 (no_problem_if _ _ h) in (here.0 free.0, later.0 free.1),
        λ h. rw (both.1 (here.1 h.0, later.1 h.1)) refl,
      )

  check-missing :
      (ip : DataItem)
      → is_adding ip ≡ false
      → find_ip_data_item ip existing ≡ none
      → check_ip_data_item dlep peer existing ip ≡ some (not_there ip)
  unfolding check_ip_data_item
  check-missing ip e n = rw (e, n) refl

  check-removing :
      (ip : DataItem)
      → is_adding ip ≡ false
      → (check_ip_data_item dlep peer existing ip ≡ none) ↔ IsAmong ip existing
  unfolding check_ip_data_item
  check-removing ip e = elim (find_ip_data_item-cases ip existing) [
    | inl (di, f, a) ↦ (λ _. a, λ _. rw (e, f) refl)
    | inr (n, none_of) ↦ (
      λ h. absurd (cc (check-missing ip e n, h)),
      λ a. absurd (IsNoneOf-IsAmong ip existing none_of a),
    )
  ]

  check_ip_data_item_lem :
      (ip : DataItem)
      → (check_ip_data_item dlep peer existing ip ≡ none) ↔ MayChange dlep peer existing ip
  unfolding MayChange
  check_ip_data_item_lem ip = elim (Bool-cases (is_adding ip)) [
    | inl e ↦ (
      λ h. let free = (check-adding ip e).0 h in inl (==→eq _ 1 e, free.0, free.1),
      λ m. elim m [ inl a ↦ (check-adding ip e).1 (a.1, a.2) | inr r ↦ absurd (r.0 (==→eq _ 1 e)) ],
    )
    | inr e ↦ (
      λ h. inr (==→ne _ 1 e, (check-removing ip e).0 h),
      λ m. elim m [ inl a ↦ absurd (==→ne _ 1 e a.0) | inr r ↦ (check-removing ip e).1 r.1 ],
    )
  ]

  validate-next :
      (di : DataItem) (dis : List DataItem) (ipaddr : Bool)
      → is_ipaddr dlep.protocfg di.id none ≡ ok ipaddr
      → (if ipaddr then check_ip_data_item dlep peer existing di else none) ≡ none
      → validate_ip_data_items dlep peer (di ∷ dis) existing
        ≡ validate_ip_data_items dlep peer dis existing
  unfolding validate_ip_data_items
  validate-next di dis false e n = rw e refl
  validate-next di dis true e n = rw (e, n) refl

  validate-stop :
      (di : DataItem) (dis : List DataItem) (p : IpProblem)
      → is_ipaddr dlep.protocfg di.id none ≡ ok true
      → check_ip_data_item dlep peer existing di ≡ some p
      → validate_ip_data_items dlep peer (di ∷ dis) existing ≡ ok (some p)
  unfolding validate_ip_data_items
  validate-stop di dis p e n = rw (e, n) refl

  first_of_good :
      (di : DataItem) (dis : List DataItem) (ipaddr : Bool) (problem : Option IpProblem)
      → is_ipaddr dlep.protocfg di.id none ≡ ok ipaddr
      → check_ip_data_item dlep peer existing di ≡ problem
      → validate_ip_data_items dlep peer (di ∷ dis) existing ≡ ok none
      → IsAllowed dlep peer existing di × (validate_ip_data_items dlep peer dis existing ≡ ok none)
  unfolding IsAllowed
  first_of_good di dis false problem e n h = (inl e, sym (validate-next di dis false e refl) ∙ h)
  first_of_good di dis true none e n h =
      (inr (e, (check_ip_data_item_lem di).0 n), sym (validate-next di dis true e n) ∙ h)
  first_of_good di dis true (some p) e n h = absurd (cc (validate-stop di dis p e n, h))

  skip_first :
      (di : DataItem) (dis : List DataItem)
      → IsAllowed dlep peer existing di
      → validate_ip_data_items dlep peer (di ∷ dis) existing
        ≡ validate_ip_data_items dlep peer dis existing
  unfolding IsAllowed
  skip_first di dis (inl e) = validate-next di dis false e refl
  skip_first di dis (inr (e, may)) = validate-next di dis true e ((check_ip_data_item_lem di).1 may)

  -- validate_ip_data_items() finds nothing wrong exactly when is_ipaddr() throws for no data item and
  -- each one that it holds of either has its add flag set and an address that neither we nor any
  -- peer, nor a destination of one of them, has, or has the flag clear and an address that one of
  -- the existing data items has. Having an address means the same kind, bytes
  -- and subnet size, whatever the flags.
  pub validate_ip_data_items_lem :
      (dis : List DataItem)
      → (validate_ip_data_items dlep peer dis existing ≡ ok none)
        ↔ All (IsAllowed dlep peer existing) dis
  unfolding validate_ip_data_items
  validate_ip_data_items_lem [] = (λ _. tt, λ _. refl)
  validate_ip_data_items_lem (di ∷ dis) =
      let later = validate_ip_data_items_lem dis in
      (
        λ h. >>=-elim (is_ipaddr dlep.protocfg di.id none) _ h (λ ipaddr e _.
            let (here, rest) =
              first_of_good di dis ipaddr (check_ip_data_item dlep peer existing di) e refl h in
            (here, later.0 rest)),
        λ h. skip_first di dis h.0 ∙ later.1 h.1,
      )
