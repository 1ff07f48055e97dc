-- ===== src/Dlep/Directory.antt =====
-- DlepServiceImpl.cpp: what the service promises about destinations when destination advertisement
-- is off, as a directory of who has which destination.
use ll_dlep.Common.{
  ℕ, String, Bool, false, not, ◌&&◌, ◌||◌, List, ◌∷◌, if◌then◌else◌, Result, ok, nat_key,
  string_key, bytes_key, [], ◌>>=◌,
}
use ll_dlep.DataItem.Types.{DataItem}
use ll_dlep.InfoBase.PeerData.{PeerData, valid_destination}
use ll_dlep.Peer.State.{Peer, Dlep}
use ll_dlep.Dlep.{DlepState}
use ll_dlep.Dlep.Service.{
  ReturnStatus, ok_status, destination_exists, destination_does_not_exist, destination_up,
  destination_update, destination_down,
}
pub mod Kept
pub mod Local
pub mod Refines

-- Our own destinations, and those of each peer, in the order of the peers.
pub record Directory : Type 0 where
  pub own : List ℕ → Bool
  pub theirs : List (List ℕ → Bool)

unfoldable pub theirs_of : List (String × Peer) → List (List ℕ → Bool)
theirs_of [] = []
theirs_of ((id, p) ∷ rest) = valid_destination p.peer_pdp ∷ theirs_of rest

abbrev pub view : DlepState → Directory
view st = record { own = valid_destination st.local_pdp; theirs = theirs_of st.peers }

-- The sets with and without one destination.
abbrev pub with_dest : List ℕ → (List ℕ → Bool) → List ℕ → Bool
with_dest mac has m = bytes_key.key_eq mac m || has m

abbrev pub without_dest : List ℕ → (List ℕ → Bool) → List ℕ → Bool
without_dest mac has m = not (bytes_key.key_eq mac m) && has m

unfoldable pub any_has : List ℕ → List (List ℕ → Bool) → Bool
any_has mac [] = false
any_has mac (has ∷ rest) = has mac || any_has mac rest

-- The first peer that has the destination loses it.
unfoldable pub take_from_first : List ℕ → List (List ℕ → Bool) → List (List ℕ → Bool)
take_from_first mac [] = []
take_from_first mac (has ∷ rest) =
    let rest' = take_from_first mac rest in
    if has mac then without_dest mac has ∷ rest else has ∷ rest'

pub data Request : Type 0 where
  up_request update_request down_request : List ℕ → List DataItem → Request

-- What becomes of a destination that is not ours.
abbrev pub down_theirs : List ℕ → Directory → Directory × ReturnStatus
down_theirs mac d =
    if any_has mac d.theirs
    then (record d { theirs = take_from_first mac d.theirs }, ok_status)
    else (d, destination_does_not_exist)

-- What the directory makes of a request.
unfoldable pub answer : Request → Directory → Directory × ReturnStatus
answer (up_request mac data_items) d =
    (record d { own = with_dest mac d.own }, if d.own mac then destination_exists else ok_status)
answer (update_request mac data_items) d =
    (d, if d.own mac || any_has mac d.theirs then ok_status else destination_does_not_exist)
answer (down_request mac data_items) d =
    if d.own mac then (record d { own = without_dest mac d.own }, ok_status) else down_theirs mac d

unfoldable pub answer_all : List Request → Directory → Directory × List ReturnStatus
answer_all [] d = (d, [])
answer_all (request ∷ requests) d =
    let here = answer request d in
    let rest = answer_all requests here.0 in (rest.0, here.1 ∷ rest.1)

module _ (dlep : Dlep) where
  -- The same requests to the service.
  unfoldable pub serve : DlepState → Request → Result (DlepState × ReturnStatus)
  serve st (up_request mac data_items) = destination_up dlep st mac data_items
  serve st (update_request mac data_items) = destination_update dlep st mac data_items
  serve st (down_request mac data_items) = destination_down dlep st mac data_items

  unfoldable pub serve_all : DlepState → List Request → Result (DlepState × List ReturnStatus)
  serve_all st [] = ok (st, [])
  serve_all st (request ∷ requests) = do
    (st', status) ← serve st request
    (st'', statuses) ← serve_all st' requests
    ok (st'', status ∷ statuses)
