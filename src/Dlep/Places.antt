-- ===== src/Dlep/Places.antt =====
-- Dlep.cpp: find_peer() and the look-up by an id, as places of the map of peers.
use ll_dlep.Common.{
  ℕ, String, ◌≡◌, refl, sym, ap, ◌∙◌, inl, inr, Bool, true, false, ◌||◌, Option, none, some, List,
  [], ◌∷◌, ◌++◌, arith, Option-cases, str_eq, nat_key, string_key, bytes_key, if-≡-elim,
}
use ll_dlep.InfoBase.PeerData.{valid_destination}
use ll_dlep.Peer.State.{Peer}
use ll_dlep.Dlep.{PeerPlace, step_over, find_id, find_peer}

-- The map with a place in it.
abbrev pub unplace : PeerPlace → List (String × Peer)
unplace place = place.before ++ ((place.peer_id, place.peer) ∷ place.following)

-- Does one of the peers have the destination?
unfoldable pub is_known : List ℕ → List (String × Peer) → Bool
is_known mac [] = false
is_known mac ((id, p) ∷ rest) = valid_destination p.peer_pdp mac || is_known mac rest

step_over-elim {ℓ} :
    {C : Type ℓ} (first : String × Peer) (o : Option PeerPlace) (place : PeerPlace)
    → step_over first o ≡ some place
    → ((inner : PeerPlace)
        → o ≡ some inner
        → record inner { before = first ∷ inner.before } ≡ place
        → C)
    → C
step_over-elim first none place h k = absurd (cc h)
step_over-elim first (some inner) place h k =
    k inner refl (let e : record inner { before = first ∷ inner.before } ≡ place = cc h in e)

pub find_id-unplace :
    (peer_id : String) (peers : List (String × Peer)) (place : PeerPlace)
    → find_id peer_id peers ≡ some place
    → peers ≡ unplace place
unfolding find_id
find_id-unplace peer_id [] place h = absurd (cc h)
find_id-unplace peer_id ((id, p) ∷ rest) place h =
    if-≡-elim (str_eq id peer_id) h
      (λ _ q.
        let e : record { before = []; peer_id = id; peer = p; following = rest } ≡ place = cc q in
        ap unplace e)
      (λ _ q.
        step_over-elim (id, p) (find_id peer_id rest) place q
          λ inner e same. ap (◌∷◌ (id, p)) (find_id-unplace peer_id rest inner e) ∙ ap unplace same)

-- find_peer() returns a peer that has the destination, and no peer before it has it.
pub find_peer-some :
    (mac : List ℕ) (peers : List (String × Peer)) (place : PeerPlace)
    → find_peer mac peers ≡ some place
    → (peers ≡ unplace place)
      × (valid_destination place.peer.peer_pdp mac ≡ true)
      × (is_known mac place.before ≡ false)
unfolding find_peer is_known
find_peer-some mac [] place h = absurd (cc h)
find_peer-some mac ((id, p) ∷ rest) place h =
    if-≡-elim (valid_destination p.peer_pdp mac) h
      (λ has q.
        let e : record { before = []; peer_id = id; peer = p; following = rest } ≡ place = cc q in
        (
          ap unplace e,
          ap (λ x. valid_destination x.peer.peer_pdp mac) (sym e) ∙ has,
          ap (λ x. is_known mac x.before) (sym e),
        ))
      (λ has q.
        step_over-elim (id, p) (find_peer mac rest) place q
          λ inner e same.
            let (placed, found, unknown) = find_peer-some mac rest inner e in
            (
              ap (◌∷◌ (id, p)) placed ∙ ap unplace same,
              ap (λ x. valid_destination x.peer.peer_pdp mac) (sym same) ∙ found,
              ap (λ x. is_known mac x.before) (sym same) ∙ ground (arith, has, unknown),
            ))

-- It returns none only when no peer has the destination.
pub find_peer-none :
    (mac : List ℕ) (peers : List (String × Peer))
    → find_peer mac peers ≡ none
    → is_known mac peers ≡ false
unfolding find_peer is_known
find_peer-none mac [] h = refl
find_peer-none mac ((id, p) ∷ rest) h =
    if-≡-elim (valid_destination p.peer_pdp mac) h (λ _ q. absurd (cc q))
      (λ has q. elim (Option-cases (find_peer mac rest)) [
        | inl e ↦ ground (arith, has, find_peer-none mac rest e)
        | inr (inner, e) ↦ absurd (
            let c : step_over (id, p) (some inner) ≡ none = ap (step_over (id, p)) (sym e) ∙ q in
            cc c)
      ])

known_at :
    (mac : List ℕ) (before : List (String × Peer)) (id : String) (p : Peer)
    (following : List (String × Peer))
    → valid_destination p.peer_pdp mac ≡ true
    → is_known mac (before ++ ((id, p) ∷ following)) ≡ true
unfolding is_known
known_at mac [] id p following has = ground (arith, has)
known_at mac ((j, w) ∷ before) id p following has =
    ground (arith, known_at mac before id p following has)

pub is_known-unplace :
    (mac : List ℕ) (peers : List (String × Peer)) (place : PeerPlace)
    → peers ≡ unplace place
    → valid_destination place.peer.peer_pdp mac ≡ true
    → is_known mac peers ≡ true
is_known-unplace mac peers place placed has =
    ap (is_known mac) placed
    ∙ known_at mac place.before place.peer_id place.peer place.following has
