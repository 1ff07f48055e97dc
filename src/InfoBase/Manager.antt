-- ===== src/InfoBase/Manager.antt =====
-- InfoBaseMgr.cpp: the class InfoBaseMgr, the peers by their ids.
use ll_dlep.Common.{
  ℕ, String, Bool, true, false, Option, none, some, List, Result, ok, ◌>>=◌, map_find, map_insert,
  map_erase, map_has, nat_key, string_key, bytes_key,
}
use ll_dlep.ProtocolConfig.{ProtocolConfig}
use ll_dlep.DataItem.Types.{DataItem}
use ll_dlep.InfoBase.PeerData.{PeerData, new_peer, valid_destination}

abbrev pub InfoBaseMgr : Type 0
InfoBaseMgr = List (String × PeerData)

-- A peer with the same id is replaced.
unfoldable pub add_peer : ProtocolConfig → InfoBaseMgr → String → List DataItem → Result InfoBaseMgr
add_peer cfg ib peer_id initial_values = do
  pd ← new_peer cfg peer_id initial_values
  ok (map_insert peer_id pd ib)

unfoldable pub remove_peer : InfoBaseMgr → String → InfoBaseMgr × Bool
remove_peer ib peer_id = elim (map_find peer_id ib) [
  | none ↦ (ib, false)
  | some pd ↦ (map_erase peer_id ib, true)
]

unfoldable pub get_peer_data : InfoBaseMgr → String → Option PeerData
get_peer_data ib peer_id = map_find peer_id ib

unfoldable pub valid_peer : InfoBaseMgr → String → Bool
valid_peer ib peer_id = map_has peer_id ib

unfoldable pub valid_peer_destination : InfoBaseMgr → String → List ℕ → Bool
valid_peer_destination ib peer_id mac = elim (map_find peer_id ib) [
  | none ↦ false
  | some pd ↦ valid_destination pd mac
]
