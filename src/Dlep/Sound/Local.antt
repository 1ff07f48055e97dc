-- ===== src/Dlep/Sound/Local.antt =====
-- DlepServiceImpl.cpp: the calls on our own entry and on one peer keep every session sound and our
-- own entry consistent.
use ll_dlep.Common.{
  ℕ, ◌≡◌, inl, inr, Bool, true, List, [], ◌∷◌, Option-cases, Result, nat_key, string_key, bytes_key,
  WhenOk, value, after, after_with,
}
use ll_dlep.DataItem.Types.{DataItem}
use ll_dlep.InfoBase.PeerData.{PeerData, add_destination, update_destination, remove_destination}
use ll_dlep.InfoBase.PeerUpdates.{IsConsistent}
use ll_dlep.InfoBase.Destinations.{add_destination_lem, update_destination_lem}
use ll_dlep.InfoBase.Consistency.{remove_destination-IsConsistent}
use ll_dlep.Message.CommonItems.{ClientConfig}
use ll_dlep.Peer.State.{Peer, Dlep}
use ll_dlep.Peer.Send.{link_characteristics_request, link_characteristics_response}
use ll_dlep.Peer.Send
use ll_dlep.Peer.Sound.{IsSound}
use ll_dlep.Peer.Sound.Send.{destination_update-IsSound}
use ll_dlep.DestAdvert.{EntryState, down, up}
use ll_dlep.Dlep.{DlepState, PeerPlace, around, put_peer, find_peer, tell_peers}
use ll_dlep.Dlep.Places.{unplace, find_peer-some}
use ll_dlep.Dlep.Service.{
  add_local, update_local, remove_local, add_each_local, update_each_local, remove_each_local,
  set_entry_state, set_entry_data_items, update_theirs,
}
use ll_dlep.Dlep.Sound.{IsServing, place-IsSound, put_peer-IsServing, tell_peers-IsServing}

-- The state that an operation returns with its answer.
abbrev pub Serves {ℓ} : {A : Type ℓ} → ClientConfig → DlepState × A → Type 0
Serves client r = IsServing client r.0

pub local_pdp-IsServing :
    (client : ClientConfig) (st : DlepState) (pdp : PeerData)
    → IsConsistent pdp
    → IsServing client st
    → IsServing client (record st { local_pdp = pdp })
unfolding IsServing
local_pdp-IsServing client st pdp c s = (s.0, c)

pub local_pdp-IsConsistent :
    (client : ClientConfig) (st : DlepState) → IsServing client st → IsConsistent st.local_pdp
unfolding IsServing
local_pdp-IsConsistent client st s = s.1

pub set_entry_state-IsServing :
    (client : ClientConfig) (st : DlepState) (mac : List ℕ) (estate : EntryState)
    → IsServing client st
    → IsServing client (set_entry_state st mac estate)
unfolding IsServing set_entry_state
set_entry_state-IsServing client st mac estate s = s

pub set_entry_data_items-IsServing :
    (client : ClientConfig) (st : DlepState) (mac : List ℕ) (data_items : List DataItem)
    → IsServing client st
    → IsServing client (set_entry_data_items st mac data_items)
unfolding IsServing set_entry_data_items
set_entry_data_items-IsServing client st mac data_items s = s

-- The two states of an entry.
pub by_state {κ} :
    {B : Type 0} {P : B → Type κ} {x y : Result B} (estate : EntryState)
    → WhenOk P x
    → WhenOk P y
    → WhenOk P (elim estate [ up ↦ x | down ↦ y ])
by_state up hx hy = hx
by_state down hx hy = hy

module _ (dlep : Dlep) where
  pub add_local-Serves :
      (st : DlepState) (mac : List ℕ) (data_items : List DataItem)
      → IsServing dlep.client st
      → WhenOk (Serves dlep.client) (add_local dlep st mac data_items)
  unfolding add_local
  add_local-Serves st mac data_items s =
      after _ (add_destination dlep.protocfg st.local_pdp mac data_items true) _ λ r e.
        let c =
          (add_destination_lem dlep.protocfg st.local_pdp r.0 mac data_items true r.1 r.2 e).4
            (local_pdp-IsConsistent dlep.client st s) in
        after_with _ (IsServing dlep.client) (tell_peers dlep (record st { local_pdp = r.0 }) r.2) _
          (tell_peers-IsServing dlep (record st { local_pdp = r.0 }) r.2
            (local_pdp-IsServing dlep.client st r.0 c s))
          λ st' s'. value _ _ s'

  pub update_local-Serves :
      (st : DlepState) (mac : List ℕ) (data_items : List DataItem) (telling : Bool)
      → IsServing dlep.client st
      → WhenOk (Serves dlep.client) (update_local dlep st mac data_items telling)
  unfolding update_local
  update_local-Serves st mac data_items telling s =
      after _ (update_destination dlep.protocfg st.local_pdp mac data_items telling) _ λ r e.
        let c =
          (update_destination_lem dlep.protocfg st.local_pdp r.0 mac data_items telling r.1 r.2 e).3
            (local_pdp-IsConsistent dlep.client st s) in
        after_with _ (IsServing dlep.client) (tell_peers dlep (record st { local_pdp = r.0 }) r.2) _
          (tell_peers-IsServing dlep (record st { local_pdp = r.0 }) r.2
            (local_pdp-IsServing dlep.client st r.0 c s))
          λ st' s'. value _ _ s'

  pub remove_local-Serves :
      (st : DlepState) (mac : List ℕ) (data_items : List DataItem)
      → IsServing dlep.client st
      → WhenOk (Serves dlep.client) (remove_local dlep st mac data_items)
  unfolding remove_local
  remove_local-Serves st mac data_items s =
      let r = remove_destination st.local_pdp mac true data_items in
      let c =
        remove_destination-IsConsistent st.local_pdp mac true data_items
          (local_pdp-IsConsistent dlep.client st s) in
      after_with _ (IsServing dlep.client) (tell_peers dlep (record st { local_pdp = r.0 }) r.2) _
        (tell_peers-IsServing dlep (record st { local_pdp = r.0 }) r.2
          (local_pdp-IsServing dlep.client st r.0 c s))
        λ st' s'. value _ _ s'

  pub add_each_local-IsServing :
      (st : DlepState) (dests : List (List ℕ)) (data_items : List DataItem)
      → IsServing dlep.client st
      → WhenOk (IsServing dlep.client) (add_each_local dlep st dests data_items)
  unfolding add_each_local
  add_each_local-IsServing st [] data_items s = value _ _ s
  add_each_local-IsServing st (dest ∷ dests) data_items s =
      after_with _ (Serves dlep.client) (add_local dlep st dest data_items) _
        (add_local-Serves st dest data_items s)
        λ r s'. add_each_local-IsServing r.0 dests data_items s'

  pub update_each_local-IsServing :
      (st : DlepState) (dests : List (List ℕ)) (data_items : List DataItem)
      → IsServing dlep.client st
      → WhenOk (IsServing dlep.client) (update_each_local dlep st dests data_items)
  unfolding update_each_local
  update_each_local-IsServing st [] data_items s = value _ _ s
  update_each_local-IsServing st (dest ∷ dests) data_items s =
      after_with _ (Serves dlep.client) (update_local dlep st dest data_items true) _
        (update_local-Serves st dest data_items true s)
        λ r s'. update_each_local-IsServing r.0 dests data_items s'

  pub remove_each_local-Serves :
      (st : DlepState) (dests : List (List ℕ)) (data_items : List DataItem)
      → IsServing dlep.client st
      → WhenOk (Serves dlep.client) (remove_each_local dlep st dests data_items)
  unfolding remove_each_local
  remove_each_local-Serves st [] data_items s = value _ _ s
  remove_each_local-Serves st (dest ∷ dests) data_items s =
      after_with _ (Serves dlep.client) (remove_local dlep st dest data_items) _
        (remove_local-Serves st dest data_items s)
        λ r s'.
          after_with _ (Serves dlep.client) (remove_each_local dlep r.0 dests data_items) _
            (remove_each_local-Serves r.0 dests data_items s') λ r' s''. value _ _ s''

  -- One call on the peer at a place, and the state with what it leaves.
  pub put_after-IsServing :
      (st : DlepState) (place : PeerPlace) (call : Result Peer)
      → st.peers ≡ unplace place
      → WhenOk (IsSound dlep.client) call
      → IsServing dlep.client st
      → WhenOk (λ q. IsServing dlep.client (put_peer st place q)) call
  put_after-IsServing st place call e h s q returned =
      put_peer-IsServing dlep.client st place q e (h q returned) s

  pub update_theirs-Serves :
      (st : DlepState) (mac : List ℕ) (data_items : List DataItem)
      → IsServing dlep.client st
      → WhenOk (Serves dlep.client) (update_theirs dlep st mac data_items)
  unfolding update_theirs around
  update_theirs-Serves st mac data_items s = elim (Option-cases (find_peer mac st.peers)) [
    | inl e ↦ rw (e, update_theirs) (value _ _ s)
    | inr (place, e) ↦
        let placed = (find_peer-some mac st.peers place e).0 in
        let sent =
          ll_dlep.Peer.Send.destination_update (around dlep st place) place.peer mac data_items in
        rw (e, update_theirs)
          (after_with _ (λ q. IsServing dlep.client (put_peer st place q)) sent _
            (put_after-IsServing st place sent placed
              (destination_update-IsSound (around dlep st place) place.peer mac data_items
                (place-IsSound dlep.client st place placed s))
              s)
            λ q s'. value _ _ s')
  ]
