-- ===== src/Dlep/Directory/Kept.antt =====
-- Peer.cpp, Dlep.cpp: a message to a peer does not change what is known of its destinations.
use ll_dlep.Common.{
  ℕ, String, ◌≡◌, refl, sym, ap, ◌∙◌, inl, inr, true, false, not, ◌||◌, some, List, [], ◌∷◌, ◌++◌,
  arith, if◌then◌else◌, Bool-cases, Option-cases, str_eq, map_find, map_has, map_has-map_insert,
  map_has-map_find, nat_key, string_key, bytes_key, if-elim, WhenOk, value, after, after_with,
  either_way,
}
use mathlib.Core.Path.{ap₂, fun_ext}
use ll_dlep.DataItem.Types.{DataItem}
use ll_dlep.InfoBase.Destination.{
  DestinationData, PeerCall, destination_up, destination_update, destination_down, peer_update,
}
use ll_dlep.InfoBase.PeerData.{PeerData, valid_destination, get_needs_response, set_needs_response}
use ll_dlep.Message.Build.{ProtocolMessage, new_message, add_header, add_data_items}
use ll_dlep.Message.CommonItems.{add_common_data_items}
use ll_dlep.Peer.State.{in_session, state_eq, Peer, Dlep, emit}
use ll_dlep.Peer.Responses.{send_session_message, send_expecting_response, is_not_interested}
use ll_dlep.Peer.Send.{parse_built, destination_message, up_message_name}
use ll_dlep.Peer.Send
use ll_dlep.Peer.Ending.{OnlySends, send_expecting_response-OnlySends}
use ll_dlep.Dlep.{DlepState, known_of, call_peer, call_each, tell_peers}
use ll_dlep.Dlep.Places.{is_known}
use ll_dlep.Dlep.Directory.{theirs_of, view, any_has, take_from_first, without_dest}

-- A session with the same destinations.
abbrev pub Keeps : Peer → Peer → Type 0
Keeps p q = valid_destination q.peer_pdp ≡ valid_destination p.peer_pdp

set_needs_response-valid_destination :
    (pdp : PeerData) (mac : List ℕ) (name : String)
    → valid_destination (set_needs_response pdp mac name) ≡ valid_destination pdp
unfolding set_needs_response valid_destination
set_needs_response-valid_destination pdp mac name =
    elim (Option-cases (map_find mac pdp.destination_data)) [
      | inl e ↦ rw (e, set_needs_response) refl
      | inr (dd, e) ↦
          rw (e, set_needs_response)
            (fun_ext λ m.
              map_has-map_insert mac m (record dd { needs_response = name }) pdp.destination_data
              ∙ sym (already dd m e))
    ]
  where
    already :
        (dd : DestinationData) (m : List ℕ)
        → map_find mac pdp.destination_data ≡ some dd
        → map_has m pdp.destination_data
          ≡ (bytes_key.key_eq mac m || map_has m pdp.destination_data)
    already dd m e = elim (Bool-cases (bytes_key.key_eq mac m)) [
      | inl same ↦ rw same (
          ap (λ k. map_has k pdp.destination_data) (sym ((bytes_key.key_eq_iff mac m).0 same))
          ∙ map_has-map_find mac pdp.destination_data
          ∙ rw e refl)
      | inr other ↦ rw other refl
    ]

module _ (dlep : Dlep) where
  send_expecting_response-Keeps :
      (p : Peer) (pm : ProtocolMessage) → WhenOk (Keeps p) (send_expecting_response dlep p pm)
  unfolding OnlySends
  send_expecting_response-Keeps p pm q e =
      ap valid_destination (send_expecting_response-OnlySends dlep p pm q e).1

  destination_up-Keeps :
      (p : Peer) (mac : List ℕ) (data_items : List DataItem)
      → WhenOk (Keeps p) (ll_dlep.Peer.Send.destination_up dlep p mac data_items)
  unfolding ll_dlep.Peer.Send.destination_up send_session_message emit
  destination_up-Keeps p mac data_items =
      let waiting = get_needs_response p.peer_pdp mac in
      let is_response = not (str_eq waiting "") in
      let p' =
        if is_response then record p { peer_pdp = set_needs_response p.peer_pdp mac "" } else p in
      let same : Keeps p p' =
        if-elim (Keeps p) is_response _ _
          (λ _. set_needs_response-valid_destination p.peer_pdp mac "") (λ _. refl) in
      after _
        (destination_message dlep (if is_response then waiting else up_message_name dlep) mac
          data_items)
        _
        λ pm _. after _ (add_common_data_items dlep.protocfg pm dlep.client) _ λ pm' _.
          after _ (parse_built dlep pm') _ λ pm'' _.
            either_way (Keeps p) is_response _ _ (value (Keeps p) _ same)
              (λ q e. send_expecting_response-Keeps p' pm'' q e ∙ same)

  destination_down-Keeps :
      (p : Peer) (mac : List ℕ) (data_items : List DataItem)
      → WhenOk (Keeps p) (ll_dlep.Peer.Send.destination_down dlep p mac data_items)
  unfolding ll_dlep.Peer.Send.destination_down
  destination_down-Keeps p mac data_items =
      after _ (destination_message dlep "Destination_Down" mac data_items) _
        λ pm _. after _ (parse_built dlep pm) _ λ pm' _. send_expecting_response-Keeps p pm'

  pub destination_update-Keeps :
      (p : Peer) (mac : List ℕ) (data_items : List DataItem)
      → WhenOk (Keeps p) (ll_dlep.Peer.Send.destination_update dlep p mac data_items)
  unfolding ll_dlep.Peer.Send.destination_update send_session_message emit
  destination_update-Keeps p mac data_items =
      either_way _ (is_not_interested p mac) _ _ (value (Keeps p) _ refl) (
        after _ (destination_message dlep "Destination_Update" mac data_items) _
          λ pm _. after _ (parse_built dlep pm) _ λ pm' _. value (Keeps p) _ refl)

  peer_update-Keeps :
      (p : Peer) (data_items : List DataItem)
      → WhenOk (λ r. Keeps p r.0) (ll_dlep.Peer.Send.peer_update dlep p data_items)
  unfolding ll_dlep.Peer.Send.peer_update
  peer_update-Keeps p data_items =
      either_way _ (state_eq p.pstate in_session) _ _
        (after _ (add_header dlep.protocfg new_message "Session_Update") _ λ pm _.
          after _ (add_data_items dlep.protocfg pm data_items) _ λ pm' _.
            after _ (parse_built dlep pm') _ λ pm'' _.
              after_with _ (Keeps p) (send_expecting_response dlep p pm'') _
                (send_expecting_response-Keeps p pm'') (λ q s. value _ _ s))
        (value _ _ refl)

  call_peer-Keeps : (p : Peer) (call : PeerCall) → WhenOk (Keeps p) (call_peer dlep p call)
  unfolding call_peer
  call_peer-Keeps p (destination_up mac data_items) = destination_up-Keeps p mac data_items
  call_peer-Keeps p (destination_update mac data_items) = destination_update-Keeps p mac data_items
  call_peer-Keeps p (destination_down mac data_items) = destination_down-Keeps p mac data_items
  call_peer-Keeps p (peer_update data_items) =
      after_with _ (λ r. Keeps p r.0) (ll_dlep.Peer.Send.peer_update dlep p data_items) _
        (peer_update-Keeps p data_items) λ r s. value (Keeps p) _ s

call_each-theirs_of :
    (dlep : Dlep) (called : List PeerData) (peers : List (String × Peer)) (call : PeerCall)
    → WhenOk (λ peers'. theirs_of peers' ≡ theirs_of peers) (call_each dlep called peers call)
unfolding call_each theirs_of
call_each-theirs_of dlep called [] call = value _ _ refl
call_each-theirs_of dlep called ((id, p) ∷ rest) call =
    let here = record dlep { peers_before = called; peers_after = known_of rest } in
    after_with _ (Keeps p) (call_peer here p call) _ (call_peer-Keeps here p call) λ p' s0.
      after_with _ (λ rest'. theirs_of rest' ≡ theirs_of rest)
        (call_each dlep (called ++ (p'.peer_pdp ∷ [])) rest call) _
        (call_each-theirs_of dlep (called ++ (p'.peer_pdp ∷ [])) rest call)
        λ rest' s1. value _ _ (ap₂ ◌∷◌ s0 s1)

-- What tell_peers() leaves as it was.
pub tell_peers-view :
    (dlep : Dlep) (st : DlepState) (calls : List PeerCall)
    → WhenOk (λ st'. view st' ≡ view st) (tell_peers dlep st calls)
unfolding tell_peers
tell_peers-view dlep st [] = value _ _ refl
tell_peers-view dlep st (call ∷ calls) =
    let here = record dlep { local_pdp = st.local_pdp } in
    after_with _ (λ peers'. theirs_of peers' ≡ theirs_of st.peers) (call_each here [] st.peers call)
      _ (call_each-theirs_of here [] st.peers call)
      λ peers s st' e.
        tell_peers-view dlep (record st { peers = peers }) calls st' e
        ∙ ap (λ t. record { own = valid_destination st.local_pdp; theirs = t }) s

pub theirs_of-replaced :
    (before : List (String × Peer)) (id : String) (p q : Peer) (following : List (String × Peer))
    → Keeps p q
    → theirs_of (before ++ ((id, q) ∷ following)) ≡ theirs_of (before ++ ((id, p) ∷ following))
unfolding theirs_of
theirs_of-replaced [] id p q following s = ap (λ has. has ∷ theirs_of following) s
theirs_of-replaced ((j, w) ∷ before) id p q following s =
    ap (◌∷◌ (valid_destination w.peer_pdp)) (theirs_of-replaced before id p q following s)

pub is_known-any_has :
    (mac : List ℕ) (peers : List (String × Peer))
    → is_known mac peers ≡ any_has mac (theirs_of peers)
unfolding is_known any_has theirs_of
is_known-any_has mac [] = refl
is_known-any_has mac ((id, p) ∷ rest) =
    ap (λ b. valid_destination p.peer_pdp mac || b) (is_known-any_has mac rest)

-- The peer that find_peer() finds is the first that has the destination.
pub take_from_first-theirs_of :
    (mac : List ℕ) (before : List (String × Peer)) (id : String) (p q : Peer)
    (following : List (String × Peer))
    → is_known mac before ≡ false
    → valid_destination p.peer_pdp mac ≡ true
    → valid_destination q.peer_pdp ≡ without_dest mac (valid_destination p.peer_pdp)
    → theirs_of (before ++ ((id, q) ∷ following))
      ≡ take_from_first mac (theirs_of (before ++ ((id, p) ∷ following)))
unfolding is_known theirs_of take_from_first
take_from_first-theirs_of mac [] id p q following u has s =
    rw has (ap (λ h. h ∷ theirs_of following) s)
take_from_first-theirs_of mac ((j, w) ∷ before) id p q following u has s =
    let no : valid_destination w.peer_pdp mac ≡ false = ground (arith, u) in
    rw no (
      ap (◌∷◌ (valid_destination w.peer_pdp))
        (take_from_first-theirs_of mac before id p q following (ground (arith, u)) has s))
