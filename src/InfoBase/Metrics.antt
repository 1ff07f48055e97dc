-- ===== src/InfoBase/Metrics.antt =====
-- InfoBaseMgr.cpp: PeerData::update_data_items() and the metrics that a peer declared.
use ll_dlep.Common.{
  ℕ, ◌≡◌, refl, sym, ap, ◌∙◌, ◌⊎◌, inl, inr, Bool, true, false, not, ◌&&◌, ◌||◌, none, List, [],
  ◌∷◌, arith, ◌==◌, ==→eq, Bool-cases, ok, >>=-elim, map_has, map_has-map_insert, nat_key,
  string_key, bytes_key, if-≡-elim, ok-injective,
}
use mathlib.Core.Path.{subst}
use ll_dlep.ProtocolConfig.{ProtocolConfig, is_metric, get_data_item_id}
use ll_dlep.DataItem.Types.{DataItem}
use ll_dlep.InfoBase.Destination.{DataItemMap, PeerCall}
use ll_dlep.InfoBase.PeerUpdates.{update_data_item-elim}
use ll_dlep.InfoBase.PeerData.{
  PeerData, UpdateStatus, success, invalid_message, update_data_item, update_each_data_item,
  update_data_items_helper, has_unknown_metric, update_destinations, update_data_items,
}

module _ (cfg : ProtocolConfig) where
  -- One of the data items is a metric that is not among the known ones.
  unfoldable pub HasUnknownMetric : DataItemMap → List DataItem → Type 0
  HasUnknownMetric known [] = ⊥
  HasUnknownMetric known (di ∷ dis) =
      ((is_metric cfg di.id none ≡ ok true) × (map_has di.id known ≡ false))
      ⊎ HasUnknownMetric known dis

  has_unknown_metric-HasUnknownMetric :
      (known : DataItemMap) (dis : List DataItem)
      → has_unknown_metric cfg known dis ≡ ok true
      → HasUnknownMetric known dis
  unfolding has_unknown_metric HasUnknownMetric
  has_unknown_metric-HasUnknownMetric known [] h = absurd (cc h)
  has_unknown_metric-HasUnknownMetric known (di ∷ dis) h =
      >>=-elim (is_metric cfg di.id none) _ h (λ metric e h'.
        if-≡-elim (metric && not (map_has di.id known)) h' (λ p _. inl (found metric e p))
          (λ _ g. inr (has_unknown_metric-HasUnknownMetric known dis g)))
    where
      found :
          (metric : Bool)
          → is_metric cfg di.id none ≡ ok metric
          → (metric && not (map_has di.id known)) ≡ true
          → (is_metric cfg di.id none ≡ ok true) × (map_has di.id known ≡ false)
      found metric e p = (e ∙ ap ok (ground (arith, p)), ground (arith, p))

  -- Data items without an unknown metric leave the set of metrics as it is.
  update_each_data_item-metrics :
      (status_id : ℕ) (known : DataItemMap) (pd pd' : PeerData) (ups dis : List DataItem)
      → has_unknown_metric cfg known dis ≡ ok false
      → ((k : ℕ) → map_has k pd.metric_data_items ≡ map_has k known)
      → update_each_data_item cfg status_id pd dis ≡ ok (pd', ups)
      → (k : ℕ) → map_has k pd'.metric_data_items ≡ map_has k known
  unfolding has_unknown_metric update_each_data_item
  update_each_data_item-metrics status_id known pd pd' ups [] u s h =
      λ k. subst (λ r. map_has k r.0.metric_data_items ≡ map_has k known) (ok-injective h) (s k)
  update_each_data_item-metrics status_id known pd pd' ups (di ∷ dis) u s h =
      >>=-elim (is_metric cfg di.id none) _ u (λ metric m u'.
        if-≡-elim (metric && not (map_has di.id known)) u' (λ _ q. absurd (cc q))
          (λ p u''. >>=-elim (update_data_item cfg status_id pd di) _ h (λ r e h'.
            >>=-elim (update_each_data_item cfg status_id r.0 dis) _ h' (λ r' e' q.
              subst (λ t. (k : ℕ) → map_has k t.0.metric_data_items ≡ map_has k known)
                (ok-injective q)
                (update_each_data_item-metrics status_id known r.0 r'.0 r'.1 dis u''
                  (one metric m p r.0 r.1 e) e')))))
    where
      one :
          (metric : Bool)
          → is_metric cfg di.id none ≡ ok metric
          → (metric && not (map_has di.id known)) ≡ false
          → (p : PeerData) (here : List DataItem)
          → update_data_item cfg status_id pd di ≡ ok (p, here)
          → (k : ℕ) → map_has k p.metric_data_items ≡ map_has k known
      one metric m p pd1 here e k =
          update_data_item-elim cfg status_id pd pd1 here di e
            (λ w q.
              subst (λ t. map_has k t.metric_data_items ≡ map_has k known) q
                (map_has-map_insert di.id k di pd.metric_data_items
                  ∙ present k
                      (let t : metric ≡ true = ok-injective (sym m ∙ w) in ground (arith, p, t))))
            (λ _ q. subst (λ t. map_has k t.metric_data_items ≡ map_has k known) q (s k))
            (λ _ _ q. subst (λ t. map_has k t.metric_data_items ≡ map_has k known) q (s k))
        where
          present :
              (k : ℕ)
              → map_has di.id known ≡ true
              → (di.id == k || map_has k pd.metric_data_items) ≡ map_has k known
          present k t = elim (Bool-cases (di.id == k)) [
            | inl same ↦ rw (same, sym (==→eq di.id k same), t)
            | inr other ↦ rw (other, s k)
          ]

  -- When update_data_items() returns, it either refused the update, because one of its data items
  -- is a metric that the peer does not have, and then it changed nothing and made no call, or it
  -- accepted it, and then the peer has values for the same metrics as before.
  pub update_data_items-metrics :
      (pd pd' : PeerData) (status : UpdateStatus) (calls : List PeerCall) (updates : List DataItem)
      (tell_peers : Bool)
      → update_data_items cfg pd updates tell_peers ≡ ok (pd', status, calls)
      → ((status ≡ invalid_message)
          × (pd' ≡ pd)
          × (calls ≡ [])
          × HasUnknownMetric pd.metric_data_items updates)
        ⊎ ((status ≡ success)
            × ((k : ℕ) → map_has k pd'.metric_data_items ≡ map_has k pd.metric_data_items))
  unfolding update_data_items update_data_items_helper
  update_data_items-metrics pd pd' status calls updates tell_peers h =
      >>=-elim (has_unknown_metric cfg pd.metric_data_items updates) _ h (λ unknown u h'.
        if-≡-elim unknown h'
          (λ p q.
            let r = ok-injective q in
            inl (
              sym (ap (λ t. t.1) r),
              sym (ap (λ t. t.0) r),
              sym (ap (λ t. t.2) r),
              has_unknown_metric-HasUnknownMetric pd.metric_data_items updates (u ∙ ap ok p),
            ))
          (λ p h''. >>=-elim (update_data_items_helper cfg pd updates) _ h'' (λ r e g.
            >>=-elim (update_destinations cfg r.1 r.0.destination_data) _ g (λ dds _ q. inr (
              sym (ap (λ t. t.1) (ok-injective q)),
              subst
                  (λ t. (k : ℕ) → map_has k t.0.metric_data_items ≡ map_has k pd.metric_data_items)
                  (ok-injective q)
                  (>>=-elim (get_data_item_id cfg "Status" none) _ e (λ status_id _ e'.
                    update_each_data_item-metrics status_id pd.metric_data_items pd r.0 r.1 updates
                      (u ∙ ap ok p) (λ k. refl) e')),
            )))))
