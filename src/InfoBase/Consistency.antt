-- ===== src/InfoBase/Consistency.antt =====
-- InfoBaseMgr.cpp: the operations that a session calls keep what is known of its peer consistent.
use ll_dlep.Common.{
  ℕ, String, ◌≡◌, inl, inr, Bool, some, List, [], ◌∷◌, Option-cases, map_find, map_erase, nat_key,
  string_key, bytes_key, if-elim, AllValues, map_find-AllValues,
}
use ll_dlep.InfoBase.Destination.{DestinationData}
use ll_dlep.InfoBase.PeerData.{PeerData, remove_destination, set_needs_response}
use ll_dlep.InfoBase.IpUpdates.{AreDistinct}
use ll_dlep.InfoBase.PeerUpdates.{IsConsistent}
use ll_dlep.InfoBase.Destinations.{map_insert-IsConsistent}
use ll_dlep.DataItem.Types.{DataItem}

pub map_find-AreDistinct :
    (pd : PeerData) (mac : List ℕ) (dd : DestinationData)
    → IsConsistent pd
    → map_find mac pd.destination_data ≡ some dd
    → AreDistinct dd.ip_data_items
unfolding IsConsistent
map_find-AreDistinct pd mac dd c e =
    map_find-AllValues (λ x. AreDistinct x.ip_data_items) mac dd pd.destination_data c.1 e

map_erase-AllValues {ℓ μ} :
    {V : Type ℓ} (P : V → Type μ) (k : List ℕ) (m : List (List ℕ × V))
    → AllValues P m
    → AllValues P (map_erase k m)
unfolding AllValues map_erase
map_erase-AllValues P k [] h = tt
map_erase-AllValues P k ((j, w) ∷ m) h =
    if-elim (AllValues P) (bytes_key.key_eq j k) _ _ (λ _. map_erase-AllValues P k m h.1)
      (λ _. (h.0, map_erase-AllValues P k m h.1))

pub set_needs_response-IsConsistent :
    (pd : PeerData) (mac : List ℕ) (response_name : String)
    → IsConsistent pd
    → IsConsistent (set_needs_response pd mac response_name)
unfolding set_needs_response
set_needs_response-IsConsistent pd mac response_name c =
    elim (Option-cases (map_find mac pd.destination_data)) [
      | inl e ↦ rw (e, set_needs_response) c
      | inr (dd, e) ↦
          rw (e, set_needs_response)
            (map_insert-IsConsistent pd mac (record dd { needs_response = response_name })
              (map_find-AreDistinct pd mac dd c e) c)
    ]

pub remove_destination-IsConsistent :
    (pd : PeerData) (mac : List ℕ) (tell_peers : Bool) (data_items : List DataItem)
    → IsConsistent pd
    → IsConsistent (remove_destination pd mac tell_peers data_items).0
unfolding remove_destination IsConsistent
remove_destination-IsConsistent pd mac tell_peers data_items c =
    elim (Option-cases (map_find mac pd.destination_data)) [
      | inl e ↦ rw (e, remove_destination) c
      | inr (dd, e) ↦
          rw (e, remove_destination)
            (
              c.0,
              map_erase-AllValues (λ x. AreDistinct x.ip_data_items) mac pd.destination_data c.1,
            )
    ]
