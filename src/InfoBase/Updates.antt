-- ===== src/InfoBase/Updates.antt =====
-- InfoBaseMgr.cpp: what updates of a peer and of a destination keep, and what they record.
use ll_dlep.Common.{
  ℕ, ◌+◌, ◌%◌, ◌^◌, ◌≡◌, sym, ap, ◌∙◌, true, false, Option, none, some, List, [], ◌∷◌, ◌==◌,
  if◌then◌else◌, ne→==, ok, >>=-elim, map_find, map_insert, map_find-map_insert, nat_key,
  string_key, bytes_key, if-≡-elim, ok-injective,
}
use mathlib.Core.Path.{subst}
use ll_dlep.ProtocolConfig.{ProtocolConfig, is_metric, is_ipaddr}
use ll_dlep.DataItem.Types.{DataItem}
use ll_dlep.InfoBase.Destination.{
  DestinationData, record_data_item, record_data_items, new_destination, update_ip_data_items,
}
use ll_dlep.InfoBase.IpUpdates.{AreDistinct, update_ip_data_items-AreDistinct}

-- The last data item with the id, or else what was there.
unfoldable pub latest : ℕ → List DataItem → Option DataItem → Option DataItem
latest k [] held = held
latest k (di ∷ dis) held = latest k dis (if di.id == k then some di else held)

module _ (cfg : ProtocolConfig) where
  -- The three things that a data item can do to a destination.
  record_data_item-elim {ℓ} :
      {C : Type ℓ} (dd dd' : DestinationData) (n : ℕ) (di : DataItem)
      → record_data_item cfg dd di ≡ ok (dd', n)
      → (is_metric cfg di.id none ≡ ok true
          → record dd { metric_data_items = map_insert di.id di dd.metric_data_items } ≡ dd'
          → C)
      → (is_metric cfg di.id none ≡ ok false
          → record dd { ip_data_items = update_ip_data_items di dd.ip_data_items } ≡ dd'
          → C)
      → (is_metric cfg di.id none ≡ ok false → dd ≡ dd' → C)
      → C
  unfolding record_data_item
  record_data_item-elim dd dd' n di h on_metric on_ip on_other =
      >>=-elim (is_metric cfg di.id none) _ h (λ metric e h'.
        if-≡-elim metric h' (λ p q. on_metric (e ∙ ap ok p) (ap (λ r. r.0) (ok-injective q)))
          (λ p h''. >>=-elim (is_ipaddr cfg di.id none) _ h'' (λ ipaddr e' q.
            if-≡-elim ipaddr q (λ p' q'. on_ip (e ∙ ap ok p) (ap (λ r. r.0) (ok-injective q')))
              (λ p' q'. on_other (e ∙ ap ok p) (ap (λ r. r.0) (ok-injective q'))))))

  -- A data item that is not a metric has an id other than a metric's.
  other_than_metric :
      (k : ℕ) (di : DataItem)
      → is_metric cfg k none ≡ ok true
      → is_metric cfg di.id none ≡ ok false
      → (di.id == k) ≡ false
  other_than_metric k di hk hi =
      ne→== di.id k (λ e. let c = sym hi ∙ ap (λ i. is_metric cfg i none) e ∙ hk in cc c)

  -- One data item leaves each metric as it was or, for its own id, replaces it.
  record_data_item-metric :
      (k : ℕ) (dd dd' : DestinationData) (n : ℕ) (di : DataItem)
      → is_metric cfg k none ≡ ok true
      → record_data_item cfg dd di ≡ ok (dd', n)
      → map_find k dd'.metric_data_items
        ≡ (if di.id == k then some di else map_find k dd.metric_data_items)
  record_data_item-metric k dd dd' n di hk h =
      record_data_item-elim dd dd' n di h
        (λ p e.
          ap (λ d. map_find k d.metric_data_items) (sym e)
          ∙ map_find-map_insert di.id k di dd.metric_data_items)
        (λ p e. ap (λ d. map_find k d.metric_data_items) (sym e) ∙ rw (other_than_metric k di hk p))
        (λ p e. ap (λ d. map_find k d.metric_data_items) (sym e) ∙ rw (other_than_metric k di hk p))

  -- When a series of data items is recorded for a destination, the value of a configured metric is
  -- then the last of them with its id, or else the one held before.
  pub record_data_items-metric :
      (k : ℕ) (dd dd' : DestinationData) (n n' : ℕ) (dis : List DataItem)
      → is_metric cfg k none ≡ ok true
      → record_data_items cfg dd n dis ≡ ok (dd', n')
      → map_find k dd'.metric_data_items ≡ latest k dis (map_find k dd.metric_data_items)
  unfolding record_data_items latest
  record_data_items-metric k dd dd' n n' [] hk h =
      ap (λ r. map_find k r.0.metric_data_items) (sym (ok-injective h))
  record_data_items-metric k dd dd' n n' (di ∷ dis) hk h =
      >>=-elim (record_data_item cfg dd di) _ h (λ r e h'.
        record_data_items-metric k r.0 dd' ((n + r.1) % 2 ^ 32) n' dis hk h'
        ∙ ap (latest k dis) (record_data_item-metric k dd r.0 r.1 di hk e))

  -- No series of data items gives a destination two entries for one IP address.
  pub record_data_items-AreDistinct :
      (dd dd' : DestinationData) (n n' : ℕ) (dis : List DataItem)
      → AreDistinct dd.ip_data_items
      → record_data_items cfg dd n dis ≡ ok (dd', n')
      → AreDistinct dd'.ip_data_items
  unfolding record_data_items
  record_data_items-AreDistinct dd dd' n n' [] d h =
      subst (λ r. AreDistinct r.0.ip_data_items) (ok-injective h) d
  record_data_items-AreDistinct dd dd' n n' (di ∷ dis) d h =
      >>=-elim (record_data_item cfg dd di) _ h (λ r e h'.
        record_data_items-AreDistinct r.0 dd' ((n + r.1) % 2 ^ 32) n' dis
          (record_data_item-elim dd r.0 r.1 di e
            (λ p q. subst (λ x. AreDistinct x.ip_data_items) q d)
            (λ p q.
              subst (λ x. AreDistinct x.ip_data_items) q
                (update_ip_data_items-AreDistinct di dd.ip_data_items d))
            (λ p q. subst (λ x. AreDistinct x.ip_data_items) q d))
          h')

  pub new_destination-AreDistinct :
      (mac : List ℕ) (initial : List DataItem) (dd : DestinationData)
      → new_destination cfg mac initial ≡ ok dd
      → AreDistinct dd.ip_data_items
  unfolding new_destination AreDistinct
  new_destination-AreDistinct mac initial dd h =
      >>=-elim (record_data_items cfg blank_destination 0 initial) _ h (λ r e q.
        subst (λ d. AreDistinct d.ip_data_items) (ok-injective q)
          (record_data_items-AreDistinct blank_destination r.0 0 r.1 initial tt e))
    where
      blank_destination : DestinationData
      blank_destination = record {
        mac_address = mac;
        metric_data_items = [];
        ip_data_items = [];
        needs_response = "";
      }
