-- ===== src/Dlep/Sound.antt =====
-- Dlep.cpp: what the loops over the peers and the changes of one peer keep.
use ll_dlep.Common.{
  ℕ, String, ◌≡◌, inl, inr, List, ◌∷◌, ◌++◌, Option-cases, map_insert, nat_key, string_key,
  bytes_key, if-elim, AllValues, map_insert-AllValues, WhenOk, value, after_with, [],
}
use mathlib.Core.Path.{subst}
use ll_dlep.InfoBase.Destination.{
  PeerCall, destination_up, destination_update, destination_down, peer_update,
}
use ll_dlep.InfoBase.PeerData.{PeerData, new_peer}
use ll_dlep.InfoBase.PeerUpdates.{IsConsistent}
use ll_dlep.InfoBase.Removal.{new_peer-IsConsistent}
use ll_dlep.Message.CommonItems.{ClientConfig}
use ll_dlep.Peer.State.{terminating, state_eq, Peer, Dlep, new_peer_session}
use ll_dlep.Peer.Queues.{AreQueues}
use ll_dlep.Peer.Send
use ll_dlep.Peer.Send.{start_peer}
use ll_dlep.Peer.Sound.{IsSound}
use ll_dlep.Peer.Sound.Send.{
  destination_up-IsSound, destination_down-IsSound, destination_update-IsSound, peer_update-IsSound,
  start_peer-IsSound,
}
use ll_dlep.Dlep.{
  DlepState, PeerPlace, known_of, around, put_peer, find_id, call_peer, call_each, tell_peers,
  handle_async_make_peer, cleanup_ex_peers,
}
use ll_dlep.Dlep.Places.{unplace, find_id-unplace}
pub mod Local
pub mod Service
pub mod Sessions
pub mod Runs

-- Every session is sound, and our own entry is consistent.
unfoldable pub IsServing : ClientConfig → DlepState → Type 0
IsServing client st = AllValues (IsSound client) st.peers × IsConsistent st.local_pdp

module _ {ℓ κ} {V : Type ℓ} (P : V → Type κ) where
  pub AllValues-at :
      (before : List (String × V)) (k : String) (v : V) (following : List (String × V))
      → AllValues P (before ++ ((k, v) ∷ following))
      → P v
  unfolding AllValues
  AllValues-at [] k v following h = h.0
  AllValues-at ((j, w) ∷ before) k v following h = AllValues-at before k v following h.1

  pub AllValues-replace :
      (before : List (String × V)) (k : String) (v w : V) (following : List (String × V))
      → P w
      → AllValues P (before ++ ((k, v) ∷ following))
      → AllValues P (before ++ ((k, w) ∷ following))
  unfolding AllValues
  AllValues-replace [] k v w following p h = (p, h.1)
  AllValues-replace ((j, u) ∷ before) k v w following p h =
      (h.0, AllValues-replace before k v w following p h.1)

module _ (client : ClientConfig) (st : DlepState) (place : PeerPlace) where
  pub place-IsSound : st.peers ≡ unplace place → IsServing client st → IsSound client place.peer
  unfolding IsServing
  place-IsSound e s =
      AllValues-at (IsSound client) place.before place.peer_id place.peer place.following
        (subst (AllValues (IsSound client)) e s.0)

  pub put_peer-IsServing :
      (q : Peer)
      → st.peers ≡ unplace place
      → IsSound client q
      → IsServing client st
      → IsServing client (put_peer st place q)
  unfolding IsServing put_peer
  put_peer-IsServing q e p s = (
    AllValues-replace (IsSound client) place.before place.peer_id place.peer q place.following p
        (subst (AllValues (IsSound client)) e s.0),
    s.1,
  )

module _ (dlep : Dlep) where
  call_peer-IsSound :
      (p : Peer) (call : PeerCall)
      → IsSound dlep.client p
      → WhenOk (IsSound dlep.client) (call_peer dlep p call)
  unfolding call_peer
  call_peer-IsSound p (destination_up mac data_items) s =
      destination_up-IsSound dlep p mac data_items s
  call_peer-IsSound p (destination_update mac data_items) s =
      destination_update-IsSound dlep p mac data_items s
  call_peer-IsSound p (destination_down mac data_items) s =
      destination_down-IsSound dlep p mac data_items s
  call_peer-IsSound p (peer_update data_items) s =
      after_with _ (λ r. IsSound dlep.client r.0) (ll_dlep.Peer.Send.peer_update dlep p data_items)
        _ (peer_update-IsSound dlep p data_items s) (λ r s'. value _ _ s')

call_each-IsSound :
    (dlep : Dlep) (called : List PeerData) (peers : List (String × Peer)) (call : PeerCall)
    → AllValues (IsSound dlep.client) peers
    → WhenOk (AllValues (IsSound dlep.client)) (call_each dlep called peers call)
unfolding call_each AllValues
call_each-IsSound dlep called [] call s = value _ _ tt
call_each-IsSound dlep called ((id, p) ∷ rest) call s =
    let here = record dlep { peers_before = called; peers_after = known_of rest } in
    after_with _ (IsSound dlep.client) (call_peer here p call) _ (call_peer-IsSound here p call s.0)
      λ p' s0.
        after_with _ (AllValues (IsSound dlep.client))
          (call_each dlep (called ++ (p'.peer_pdp ∷ [])) rest call) _
          (call_each-IsSound dlep (called ++ (p'.peer_pdp ∷ [])) rest call s.1)
          λ rest' s1. value _ _ (s0, s1)

pub tell_peers-IsServing :
    (dlep : Dlep) (st : DlepState) (calls : List PeerCall)
    → IsServing dlep.client st
    → WhenOk (IsServing dlep.client) (tell_peers dlep st calls)
unfolding tell_peers IsServing
tell_peers-IsServing dlep st [] s = value _ _ s
tell_peers-IsServing dlep st (call ∷ calls) s =
    let here = record dlep { local_pdp = st.local_pdp } in
    after_with _ (AllValues (IsSound dlep.client)) (call_each here [] st.peers call) _
      (call_each-IsSound here [] st.peers call s.0)
      λ peers s0. tell_peers-IsServing dlep (record st { peers = peers }) calls (s0, s.1)

pub cleanup_ex_peers-IsSound :
    (client : ClientConfig) (peers : List (String × Peer))
    → AllValues (IsSound client) peers
    → AllValues (IsSound client) (cleanup_ex_peers peers)
unfolding cleanup_ex_peers AllValues
cleanup_ex_peers-IsSound client [] s = tt
cleanup_ex_peers-IsSound client ((id, p) ∷ rest) s =
    if-elim (AllValues (IsSound client)) (state_eq p.pstate terminating) _ _
      (λ _. cleanup_ex_peers-IsSound client rest s.1)
      (λ _. (s.0, cleanup_ex_peers-IsSound client rest s.1))

new_peer_session-IsSound :
    (client : ClientConfig) (peer_id : String) (pdp : PeerData) (time : ℕ)
    → IsConsistent pdp
    → IsSound client (new_peer_session peer_id pdp time)
unfolding IsSound AreQueues new_peer_session
new_peer_session-IsSound client peer_id pdp time c = (tt, c)

pub handle_async_make_peer-IsServing :
    (dlep : Dlep) (st : DlepState) (peer_id : String)
    → IsServing dlep.client st
    → WhenOk (IsServing dlep.client) (handle_async_make_peer dlep st peer_id)
unfolding handle_async_make_peer IsServing around
handle_async_make_peer-IsServing dlep st peer_id s =
    after_with _ IsConsistent (new_peer dlep.protocfg peer_id []) _
      (new_peer-IsConsistent dlep.protocfg peer_id [])
      λ pdp c.
        let peers = map_insert peer_id (new_peer_session peer_id pdp dlep.time) st.peers in
        let all =
          map_insert-AllValues (IsSound dlep.client) peer_id
            (new_peer_session peer_id pdp dlep.time) st.peers
            (new_peer_session-IsSound dlep.client peer_id pdp dlep.time c) s.0 in
        elim (Option-cases (find_id peer_id peers)) [
          | inl e ↦ rw e (value (IsServing dlep.client) (record st { peers = peers }) (all, s.1))
          | inr (place, e) ↦
              let at_place = find_id-unplace peer_id peers place e in
              let now : DlepState = record st { peers = peers } in
              rw e (
                after_with (IsServing dlep.client) (IsSound dlep.client)
                  (start_peer (around dlep st place) place.peer) _
                  (start_peer-IsSound (around dlep st place) place.peer
                    (place-IsSound dlep.client now place at_place (all, s.1)))
                  λ q s'.
                    value _ _ (put_peer-IsServing dlep.client now place q at_place s' (all, s.1)))
        ]
