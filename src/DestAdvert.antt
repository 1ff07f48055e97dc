-- ===== src/DestAdvert.antt =====
-- DestAdvert.cpp, DestAdvertDataBase.h: our own list of destinations and the table of the
-- advertisements that were heard. The time is an argument.
use ll_dlep.Common.{
  ℕ, ◌+◌, ◌*◌, ◌%◌, ◌^◌, Bool, true, false, ◌&&◌, Option, none, some, List, ◌∷◌, ◌++◌, ltb, leb,
  if◌then◌else◌, map_find, map_insert, map_erase, nat_key, string_key, bytes_key, [],
}
use ll_dlep.DataItem.Types.{DataItem}
use ll_dlep.InfoBase.Destination.{PeerCall}
use ll_dlep.InfoBase.PeerData.{PeerData, remove_destination}
use ll_dlep.Peer.Receive.{SocketError, no_error, message_size, operation_aborted, eof, other_error}
pub mod Purge

pub data EntryState : Type 0 where
  down up : EntryState

-- The parts of DestAdvertInfo that the table uses.
pub record DestAdvertInfo : Type 0 where
  pub report_interval : ℕ
  pub destinations : List (List ℕ)

pub record DestAdvertDbEntry : Type 0 where
  pub timestamp : ℕ
  pub estate : EntryState
  pub placeholder : Bool
  pub info : DestAdvertInfo
  pub data_items : List DataItem

abbrev pub DestAdvertDb : Type 0
DestAdvertDb = List (List ℕ × DestAdvertDbEntry)

pub record DestAdvert : Type 0 where
  pub destinations : List (List ℕ × Unit {0})
  pub dest_advert_db : DestAdvertDb

unfoldable pub advertise_destination : DestAdvert → List ℕ → DestAdvert
advertise_destination da mac = record da { destinations = map_insert mac tt da.destinations }

unfoldable pub del_destination : DestAdvert → List ℕ → DestAdvert
del_destination da mac = record da { destinations = map_erase mac da.destinations }

unfoldable pub clear_destinations : DestAdvert → DestAdvert
clear_destinations da = record da { destinations = [] }

unfoldable pub add_advert_entry : DestAdvert → List ℕ → DestAdvertDbEntry → DestAdvert
add_advert_entry da rf_id entry = record da {
  dest_advert_db = map_insert rf_id entry da.dest_advert_db;
}

unfoldable pub find_advert_entry : DestAdvert → List ℕ → Option DestAdvertDbEntry
find_advert_entry da rf_id = map_find rf_id da.dest_advert_db

unfoldable pub update_advert_entry_data_items : DestAdvert → List ℕ → List DataItem → DestAdvert
update_advert_entry_data_items da rf_id data_items = elim (map_find rf_id da.dest_advert_db) [
  | none ↦ da
  | some entry ↦ add_advert_entry da rf_id (record entry { data_items = data_items })
]

unfoldable pub update_advert_entry_state : DestAdvert → List ℕ → EntryState → DestAdvert
update_advert_entry_state da rf_id newstate = elim (map_find rf_id da.dest_advert_db) [
  | none ↦ da
  | some entry ↦ add_advert_entry da rf_id (record entry { estate = newstate })
]

-- The client's parameters destination-advert-hold-interval and destination-advert-expire-count.
pub record PurgeConfig : Type 0 where
  pub hold_interval : ℕ
  pub expire_count : ℕ

abbrev pub is_up : EntryState → Bool
is_up down = false
is_up up = true

-- `entry_age >= interval`; the age is a signed number.
abbrev pub is_older : ℕ → DestAdvertDbEntry → ℕ → Bool
is_older now entry interval = leb (entry.timestamp + interval) now

-- A placeholder that was held long enough.
unfoldable pub is_overdue : PurgeConfig → ℕ → DestAdvertDbEntry → Bool
is_overdue cfg now entry =
    ltb 0 cfg.hold_interval
    && (entry.placeholder && (is_up entry.estate && is_older now entry cfg.hold_interval))

-- An advertisement that was not repeated.
unfoldable pub is_expired : PurgeConfig → ℕ → DestAdvertDbEntry → Bool
is_expired cfg now entry =
    ltb 0 cfg.expire_count
    && is_older now entry (cfg.expire_count * entry.info.report_interval % 2 ^ 32)

-- `removeDestination(dest, true)` for each destination, with the calls on the peers.
unfoldable pub remove_each : PeerData → List (List ℕ) → PeerData × List PeerCall
remove_each pdp [] = (pdp, [])
remove_each pdp (mac ∷ macs) =
    let r = remove_destination pdp mac true [] in
    let rest = remove_each r.0 macs in (rest.0, r.2 ++ rest.1)

-- The loop over the table.
unfoldable pub purge :
    PurgeConfig → ℕ → PeerData → DestAdvertDb → DestAdvertDb × PeerData × List PeerCall
purge cfg now pdp [] = ([], pdp, [])
purge cfg now pdp ((rf_id, entry) ∷ db) =
    if is_overdue cfg now entry
    then purge cfg now pdp db
    else if is_expired cfg now entry
    then (let r =
          if is_up entry.estate then remove_each pdp entry.info.destinations else (pdp, []) in
        let rest = purge cfg now r.0 db in (rest.0, rest.1, r.1 ++ rest.2))
    else (let rest = purge cfg now pdp db in ((rf_id, entry) ∷ rest.0, rest.1, rest.2))

-- The result says whether the timer is started again.
unfoldable pub handle_purge_advert_timeout :
    PurgeConfig
    → ℕ
    → DestAdvert
    → PeerData
    → SocketError
    → DestAdvert × PeerData × List PeerCall × Bool
handle_purge_advert_timeout cfg now da pdp operation_aborted = (da, pdp, [], false)
handle_purge_advert_timeout cfg now da pdp e =
    let r = purge cfg now pdp da.dest_advert_db in
    (record da { dest_advert_db = r.0 }, r.1, r.2, true)
