-- ===== src/DestAdvert/Purge.antt =====
-- DestAdvert.cpp: what handle_purge_advert_timeout() removes.
use ll_dlep.Common.{
  ℕ, ◌+◌, ◌*◌, ◌%◌, ◌^◌, ◌≤◌, ◌<◌, ◌≡◌, Bool, true, false, ◌||◌, List, [], ◌∷◌, ◌++◌, nat_key,
  string_key, bytes_key,
}
use ll_dlep.InfoBase.PeerData.{PeerData}
use ll_dlep.DestAdvert.{up, down, DestAdvertDbEntry, DestAdvertDb, PurgeConfig}

abbrev pub is_among : List ℕ → List (List ℕ) → Bool
is_among m [] = false
is_among m (mac ∷ macs) = bytes_key.key_eq mac m || is_among m macs

-- A placeholder is overdue when its RF ID is up and the hold interval, which is not 0, has passed
-- since its time.
abbrev pub IsOverdue : PurgeConfig → ℕ → DestAdvertDbEntry → Type 0
IsOverdue cfg now entry =
    (0 < cfg.hold_interval)
    × (entry.placeholder ≡ true)
    × (entry.estate ≡ up)
    × (entry.timestamp + cfg.hold_interval ≤ now)

-- An advertisement expires when it was not repeated for the configured number of its report
-- intervals, which is not 0; the product is one of 32 bits.
abbrev pub IsExpired : PurgeConfig → ℕ → DestAdvertDbEntry → Type 0
IsExpired cfg now entry =
    (0 < cfg.expire_count)
    × (entry.timestamp + cfg.expire_count * entry.info.report_interval % 2 ^ 32 ≤ now)

-- Which advertisements stay, and which destinations are lost.
pub data IsPurged (cfg : PurgeConfig) (now : ℕ)
    : DestAdvertDb → DestAdvertDb → List (List ℕ) → Type 0 where
  finished : IsPurged cfg now [] [] []
  overdue :
      {db kept : DestAdvertDb} {lost : List (List ℕ)} (rf_id : List ℕ) (entry : DestAdvertDbEntry)
      → IsOverdue cfg now entry
      → IsPurged cfg now db kept lost
      → IsPurged cfg now ((rf_id, entry) ∷ db) kept lost
  expired_up :
      {db kept : DestAdvertDb} {lost : List (List ℕ)} (rf_id : List ℕ) (entry : DestAdvertDbEntry)
      → ¬ IsOverdue cfg now entry
      → IsExpired cfg now entry
      → entry.estate ≡ up
      → IsPurged cfg now db kept lost
      → IsPurged cfg now ((rf_id, entry) ∷ db) kept (entry.info.destinations ++ lost)
  expired_down :
      {db kept : DestAdvertDb} {lost : List (List ℕ)} (rf_id : List ℕ) (entry : DestAdvertDbEntry)
      → ¬ IsOverdue cfg now entry
      → IsExpired cfg now entry
      → entry.estate ≡ down
      → IsPurged cfg now db kept lost
      → IsPurged cfg now ((rf_id, entry) ∷ db) kept lost
  fresh :
      {db kept : DestAdvertDb} {lost : List (List ℕ)} (rf_id : List ℕ) (entry : DestAdvertDbEntry)
      → ¬ IsOverdue cfg now entry
      → ¬ IsExpired cfg now entry
      → IsPurged cfg now db kept lost
      → IsPurged cfg now ((rf_id, entry) ∷ db) ((rf_id, entry) ∷ kept) lost
