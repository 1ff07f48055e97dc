-- ===== src/InfoBase/Destinations.antt =====
-- InfoBaseMgr.cpp: adding, updating and removing the destinations of a peer.
use ll_dlep.Common.{
  ℕ, ◌≡◌, refl, sym, ap, ◌∙◌, inl, inr, Bool, true, false, not, ◌&&◌, ◌||◌, none, some, List, [],
  ◌∷◌, if◌then◌else◌, Bool-cases, Option-cases, ok, ◌>>=◌, >>=-elim, map_find, map_insert,
  map_erase, map_has, map_find-map_insert, map_has-map_insert, map_has-map_find, nat_key,
  string_key, bytes_key, ok-injective, map_insert-AllValues, map_find-AllValues, map_has-map_erase,
}
use mathlib.Core.Path.{subst}
use ll_dlep.ProtocolConfig.{ProtocolConfig, is_metric}
use ll_dlep.DataItem.Types.{DataItem}
use ll_dlep.InfoBase.Destination.{
  DestinationData, PeerCall, new_destination, record_data_items, update_destination_data,
  destination_up, destination_down,
}
use ll_dlep.InfoBase.IpUpdates.{AreDistinct}
use ll_dlep.InfoBase.Updates.{latest, new_destination-AreDistinct, record_data_items-metric}
use ll_dlep.InfoBase.PeerUpdates.{IsConsistent, update_destination_data-AreDistinct}
use ll_dlep.InfoBase.PeerData.{
  PeerData, add_destination, update_destination, remove_destination, valid_destination,
}

-- The call that a change of a destination makes, if it is to be told to the peers.
abbrev pub told : Bool → Bool → PeerCall → List PeerCall
told changed tell_peers call = if changed && tell_peers then call ∷ [] else []

found_or_not :
    (mac : List ℕ) (pd : PeerData) (C : Type 0)
    → (map_find mac pd.destination_data ≡ none → valid_destination pd mac ≡ false → C)
    → ((dd : DestinationData)
        → map_find mac pd.destination_data ≡ some dd
        → valid_destination pd mac ≡ true
        → C)
    → C
unfolding valid_destination
found_or_not mac pd C missing found = elim (Option-cases (map_find mac pd.destination_data)) [
  | inl e ↦ missing e (map_has-map_find mac pd.destination_data ∙ rw e)
  | inr (dd, e) ↦ found dd e (map_has-map_find mac pd.destination_data ∙ rw e)
]

map_has-present :
    (mac m : List ℕ) (dds : List (List ℕ × DestinationData))
    → map_has mac dds ≡ true
    → map_has m dds ≡ (bytes_key.key_eq mac m || map_has m dds)
map_has-present mac m dds v = elim (Bool-cases (bytes_key.key_eq mac m)) [
  | inl same ↦ rw same (ap (λ k. map_has k dds) (sym ((bytes_key.key_eq_iff mac m).0 same)) ∙ v)
  | inr other ↦ rw other
]

map_find-inserted :
    (mac : List ℕ) (dd : DestinationData) (dds : List (List ℕ × DestinationData))
    → map_find mac (map_insert mac dd dds) ≡ some dd
map_find-inserted mac dd dds =
    map_find-map_insert mac mac dd dds ∙ rw ((bytes_key.key_eq_iff mac mac).1 refl)

some-injective {ℓ} : {A : Type ℓ} {a b : A} → some a ≡ some b → a ≡ b
some-injective h = cc

pub map_insert-IsConsistent :
    (pd : PeerData) (mac : List ℕ) (dd : DestinationData)
    → AreDistinct dd.ip_data_items
    → IsConsistent pd
    → IsConsistent (record pd { destination_data = map_insert mac dd pd.destination_data })
unfolding IsConsistent
map_insert-IsConsistent pd mac dd d c =
    (c.0, map_insert-AllValues (λ x. AreDistinct x.ip_data_items) mac dd pd.destination_data d c.1)

remove_destination-none :
    (pd : PeerData) (mac : List ℕ) (tell_peers : Bool) (data_items : List DataItem)
    → map_find mac pd.destination_data ≡ none
    → remove_destination pd mac tell_peers data_items ≡ (pd, false, [])
unfolding remove_destination
remove_destination-none pd mac tell_peers data_items e = rw (e, remove_destination) refl

remove_destination-some :
    (pd : PeerData) (mac : List ℕ) (tell_peers : Bool) (data_items : List DataItem)
    (dd : DestinationData)
    → map_find mac pd.destination_data ≡ some dd
    → remove_destination pd mac tell_peers data_items ≡ (
      record pd { destination_data = map_erase mac pd.destination_data },
      true,
      told true tell_peers (destination_down mac data_items),
    )
unfolding remove_destination
remove_destination-some pd mac tell_peers data_items dd e = rw (e, remove_destination) refl

-- remove_destination() reports whether the peer had the destination, removes it and no other, and
-- makes the call destination_down if it had it and the peers are to be told.
pub remove_destination_lem :
    (pd pd' : PeerData) (mac : List ℕ) (tell_peers removed : Bool) (data_items : List DataItem)
    (calls : List PeerCall)
    → remove_destination pd mac tell_peers data_items ≡ (pd', removed, calls)
    → (removed ≡ valid_destination pd mac)
      × ((m : List ℕ)
          → valid_destination pd' m ≡ (not (bytes_key.key_eq mac m) && valid_destination pd m))
      × (calls ≡ told removed tell_peers (destination_down mac data_items))
unfolding valid_destination
remove_destination_lem pd pd' mac tell_peers removed data_items calls h =
    found_or_not mac pd _
      (λ e v.
        let q = sym (remove_destination-none pd mac tell_peers data_items e) ∙ h in
        (
          sym (ap (λ t. t.1) q) ∙ sym v,
          λ m. rw (sym (ap (λ t. t.0) q)) (absent m v),
          sym (ap (λ t. t.2) q)
              ∙ ap (λ b. told b tell_peers (destination_down mac data_items)) (ap (λ t. t.1) q),
        ))
      (λ dd e v.
        let q = sym (remove_destination-some pd mac tell_peers data_items dd e) ∙ h in
        (
          sym (ap (λ t. t.1) q) ∙ sym v,
          λ m. rw (sym (ap (λ t. t.0) q)) (map_has-map_erase mac m pd.destination_data),
          sym (ap (λ t. t.2) q)
              ∙ ap (λ b. told b tell_peers (destination_down mac data_items)) (ap (λ t. t.1) q),
        ))
  where
    absent :
        (m : List ℕ)
        → map_has mac pd.destination_data ≡ false
        → map_has m pd.destination_data
          ≡ (not (bytes_key.key_eq mac m) && map_has m pd.destination_data)
    absent m v = elim (Bool-cases (bytes_key.key_eq mac m)) [
      | inl same ↦
          rw same (
            ap (λ k. map_has k pd.destination_data) (sym ((bytes_key.key_eq_iff mac m).0 same)) ∙ v)
      | inr other ↦ rw other
    ]

module _ (cfg : ProtocolConfig) where
  add_destination-none :
      (pd : PeerData) (mac : List ℕ) (initial : List DataItem) (tell_peers : Bool)
      → map_find mac pd.destination_data ≡ none
      → add_destination cfg pd mac initial tell_peers ≡ (do
        dd ← new_destination cfg mac initial
        ok (
          record pd { destination_data = map_insert mac dd pd.destination_data },
          true,
          told true tell_peers (destination_up mac initial),
        ))
  unfolding add_destination
  add_destination-none pd mac initial tell_peers e = rw (e, add_destination) refl

  add_destination-some :
      (pd : PeerData) (mac : List ℕ) (initial : List DataItem) (tell_peers : Bool)
      (dd : DestinationData)
      → map_find mac pd.destination_data ≡ some dd
      → add_destination cfg pd mac initial tell_peers ≡ ok (pd, false, [])
  unfolding add_destination
  add_destination-some pd mac initial tell_peers dd e = rw (e, add_destination) refl

  update_destination-none :
      (pd : PeerData) (mac : List ℕ) (updates : List DataItem) (tell_peers : Bool)
      → map_find mac pd.destination_data ≡ none
      → update_destination cfg pd mac updates tell_peers ≡ ok (pd, false, [])
  unfolding update_destination
  update_destination-none pd mac updates tell_peers e = rw (e, update_destination) refl

  update_destination-some :
      (pd : PeerData) (mac : List ℕ) (updates : List DataItem) (tell_peers : Bool)
      (dd : DestinationData)
      → map_find mac pd.destination_data ≡ some dd
      → update_destination cfg pd mac updates tell_peers ≡ (do
        (dd', n, calls) ← update_destination_data cfg dd updates tell_peers
        ok (record pd { destination_data = map_insert mac dd' pd.destination_data }, true, calls))
  unfolding update_destination
  update_destination-some pd mac updates tell_peers dd e = rw (e, update_destination) refl

  -- add_destination() adds a destination that the peer does not have, and no other, with the call
  -- destination_up if the peers are to be told; a destination that it has is refused, and then
  -- nothing changes. A consistent peer stays consistent.
  pub add_destination_lem :
      (pd pd' : PeerData) (mac : List ℕ) (initial : List DataItem) (tell_peers added : Bool)
      (calls : List PeerCall)
      → add_destination cfg pd mac initial tell_peers ≡ ok (pd', added, calls)
      → (added ≡ not (valid_destination pd mac))
        × (added ≡ false → pd' ≡ pd)
        × ((m : List ℕ)
            → valid_destination pd' m ≡ (bytes_key.key_eq mac m || valid_destination pd m))
        × (calls ≡ told added tell_peers (destination_up mac initial))
        × (IsConsistent pd → IsConsistent pd')
  unfolding valid_destination
  add_destination_lem pd pd' mac initial tell_peers added calls h =
      found_or_not mac pd _
        (λ e v.
          >>=-elim (new_destination cfg mac initial) _
            (sym (add_destination-none pd mac initial tell_peers e) ∙ h)
            (λ dd made q'.
              let q = ok-injective q' in
              (
                sym (ap (λ t. t.1) q) ∙ ap not (sym v),
                λ no. let c : true ≡ false = ap (λ t. t.1) q ∙ no in absurd (cc c),
                λ m. rw (sym (ap (λ t. t.0) q)) (map_has-map_insert mac m dd pd.destination_data),
                sym (ap (λ t. t.2) q)
                    ∙ ap (λ b. told b tell_peers (destination_up mac initial)) (ap (λ t. t.1) q),
                λ c. subst IsConsistent (ap (λ t. t.0) q) (grown dd made c),
              )))
        (λ dd e v.
          let q = ok-injective (sym (add_destination-some pd mac initial tell_peers dd e) ∙ h) in
          (
            sym (ap (λ t. t.1) q) ∙ ap not (sym v),
            λ _. sym (ap (λ t. t.0) q),
            λ m. rw (sym (ap (λ t. t.0) q)) (map_has-present mac m pd.destination_data v),
            sym (ap (λ t. t.2) q)
                ∙ ap (λ b. told b tell_peers (destination_up mac initial)) (ap (λ t. t.1) q),
            λ c. subst IsConsistent (ap (λ t. t.0) q) c,
          ))
    where
      grown :
          (dd : DestinationData)
          → new_destination cfg mac initial ≡ ok dd
          → IsConsistent pd
          → IsConsistent (record pd { destination_data = map_insert mac dd pd.destination_data })
      grown dd made c =
          map_insert-IsConsistent pd mac dd (new_destination-AreDistinct cfg mac initial dd made) c

  -- update_destination() reports whether the peer has the destination. It changes nothing if the
  -- peer does not have it; otherwise each metric of the destination becomes the last of the
  -- updates with its id. The set of destinations stays the same, and a consistent peer stays
  -- consistent.
  pub update_destination_lem :
      (pd pd' : PeerData) (mac : List ℕ) (updates : List DataItem) (tell_peers updated : Bool)
      (calls : List PeerCall)
      → update_destination cfg pd mac updates tell_peers ≡ ok (pd', updated, calls)
      → (updated ≡ valid_destination pd mac)
        × (updated ≡ false → pd' ≡ pd)
        × ((m : List ℕ) → valid_destination pd' m ≡ valid_destination pd m)
        × (IsConsistent pd → IsConsistent pd')
        × ((k : ℕ) (dd dd' : DestinationData)
            → is_metric cfg k none ≡ ok true
            → map_find mac pd.destination_data ≡ some dd
            → map_find mac pd'.destination_data ≡ some dd'
            → map_find k dd'.metric_data_items ≡ latest k updates (map_find k dd.metric_data_items))
  unfolding valid_destination update_destination_data IsConsistent
  update_destination_lem pd pd' mac updates tell_peers updated calls h =
      found_or_not mac pd _
        (λ e v.
          let q = ok-injective (sym (update_destination-none pd mac updates tell_peers e) ∙ h) in
          (
            sym (ap (λ t. t.1) q) ∙ sym v,
            λ _. sym (ap (λ t. t.0) q),
            λ m. rw (sym (ap (λ t. t.0) q)) refl,
            λ c. subst IsConsistent (ap (λ t. t.0) q) c,
            λ k dd dd' _ f _. let c : none ≡ some dd = sym e ∙ f in absurd (cc c),
          ))
        (λ dd e v.
          >>=-elim (update_destination_data cfg dd updates tell_peers) _
            (sym (update_destination-some pd mac updates tell_peers dd e) ∙ h)
            (λ r made q'. >>=-elim (record_data_items cfg dd 0 updates) _ made (λ r' made' q''.
              let q = ok-injective q' in
              (
                sym (ap (λ t. t.1) q) ∙ sym v,
                λ no. let c : true ≡ false = ap (λ t. t.1) q ∙ no in absurd (cc c),
                λ m.
                    ap (λ t. valid_destination t.0 m) (sym q)
                    ∙ map_has-map_insert mac m r.0 pd.destination_data
                    ∙ sym (map_has-present mac m pd.destination_data v),
                λ c. subst IsConsistent (ap (λ t. t.0) q) (
                    map_insert-IsConsistent pd mac r.0
                      (update_destination_data-AreDistinct cfg dd r.0 r.1 r.2 updates tell_peers
                        (map_find-AllValues (λ x. AreDistinct x.ip_data_items) mac dd
                          pd.destination_data c.1 e)
                        made)
                      c),
                λ k dd1 dd' hk f f'.
                    let found : r.0 ≡ dd' = some-injective (
                      sym (map_find-inserted mac r.0 pd.destination_data)
                      ∙ ap (λ t. map_find mac t.0.destination_data) q
                      ∙ f') in
                    ap (λ d. map_find k d.metric_data_items)
                      (sym found ∙ ap (λ t. t.0) (sym (ok-injective q'')))
                    ∙ record_data_items-metric cfg k dd r'.0 0 r'.1 updates hk made'
                    ∙ ap (λ d. latest k updates (map_find k d.metric_data_items))
                        (some-injective (sym e ∙ f)),
              ))))
