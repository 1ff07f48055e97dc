-- ===== src/InfoBase/PeerUpdates.antt =====
-- InfoBaseMgr.cpp: what PeerData::update_data_items() and the operations on destinations do.
use ll_dlep.Common.{
  ℕ, ◌≡◌, ap, ◌∙◌, Bool, true, false, none, List, [], ◌∷◌, ◌==◌, ok, >>=-elim, map_insert, nat_key,
  string_key, bytes_key, if-≡-elim, ok-injective, AllValues,
}
use mathlib.Core.Path.{subst}
use ll_dlep.ProtocolConfig.{ProtocolConfig, is_metric, is_ipaddr, get_data_item_id}
use ll_dlep.DataItem.Types.{DataItem}
use ll_dlep.InfoBase.Destination.{
  DestinationData, PeerCall, record_data_items, update_destination_data, update_ip_data_items,
}
use ll_dlep.InfoBase.IpUpdates.{AreDistinct, update_ip_data_items-AreDistinct}
use ll_dlep.InfoBase.Updates.{record_data_items-AreDistinct}
use ll_dlep.InfoBase.PeerData.{
  PeerData, UpdateStatus, update_data_item, update_each_data_item, update_data_items_helper,
  has_unknown_metric, update_all_destinations, update_destinations, update_data_items,
}

-- No destination has two entries for one IP address.
abbrev pub AreDistinctAtAll : List (List ℕ × DestinationData) → Type 0
AreDistinctAtAll = AllValues (λ dd. AreDistinct dd.ip_data_items)

-- Neither the peer nor a destination of it has two entries for one IP address.
unfoldable pub IsConsistent : PeerData → Type 0
IsConsistent pd = AreDistinct pd.ip_data_items × AreDistinctAtAll pd.destination_data

module _ (cfg : ProtocolConfig) where
  pub update_destination_data-AreDistinct :
      (dd dd' : DestinationData) (n : ℕ) (calls : List PeerCall) (updates : List DataItem)
      (tell_peers : Bool)
      → AreDistinct dd.ip_data_items
      → update_destination_data cfg dd updates tell_peers ≡ ok (dd', n, calls)
      → AreDistinct dd'.ip_data_items
  unfolding update_destination_data
  update_destination_data-AreDistinct dd dd' n calls updates tell_peers d h =
      >>=-elim (record_data_items cfg dd 0 updates) _ h (λ r e q.
        subst (λ x. AreDistinct x.ip_data_items) (ap (λ t. t.0) (ok-injective q))
          (record_data_items-AreDistinct cfg dd r.0 0 r.1 updates d e))

  -- The four things that a data item can do to a peer.
  pub update_data_item-elim {ℓ} :
      {C : Type ℓ} (status_id : ℕ) (pd pd' : PeerData) (ups : List DataItem) (di : DataItem)
      → update_data_item cfg status_id pd di ≡ ok (pd', ups)
      → (is_metric cfg di.id none ≡ ok true
          → record pd { metric_data_items = map_insert di.id di pd.metric_data_items } ≡ pd'
          → C)
      → (is_metric cfg di.id none ≡ ok false
          → record pd { ip_data_items = update_ip_data_items di pd.ip_data_items } ≡ pd'
          → C)
      → ((others : List DataItem)
          → is_metric cfg di.id none ≡ ok false
          → record pd { other_data_items = others } ≡ pd'
          → C)
      → C
  unfolding update_data_item
  update_data_item-elim status_id pd pd' ups di h on_metric on_ip on_other =
      >>=-elim (is_metric cfg di.id none) _ h (λ metric e h'.
        if-≡-elim metric h' (λ p q. on_metric (e ∙ ap ok p) (ap (λ r. r.0) (ok-injective q)))
          (λ p h''. >>=-elim (is_ipaddr cfg di.id none) _ h'' (λ ipaddr e' q.
            if-≡-elim ipaddr q (λ p' q'. on_ip (e ∙ ap ok p) (ap (λ r. r.0) (ok-injective q')))
              (λ p' q'.
                if-≡-elim (di.id == status_id) q'
                  (λ _ r.
                    on_other pd.other_data_items (e ∙ ap ok p) (ap (λ t. t.0) (ok-injective r)))
                  (λ _ r. on_other _ (e ∙ ap ok p) (ap (λ t. t.0) (ok-injective r)))))))

  pub update_each_data_item-IsConsistent :
      (status_id : ℕ) (pd pd' : PeerData) (ups : List DataItem) (dis : List DataItem)
      → IsConsistent pd
      → update_each_data_item cfg status_id pd dis ≡ ok (pd', ups)
      → IsConsistent pd'
  unfolding update_each_data_item IsConsistent
  update_each_data_item-IsConsistent status_id pd pd' ups [] c h =
      subst (λ r. IsConsistent r.0) (ok-injective h) c
  update_each_data_item-IsConsistent status_id pd pd' ups (di ∷ dis) c h =
      >>=-elim (update_data_item cfg status_id pd di) _ h (λ r e h'.
        >>=-elim (update_each_data_item cfg status_id r.0 dis) _ h' (λ r' e' q.
          subst IsConsistent (ap (λ t. t.0) (ok-injective q)) (
            update_each_data_item-IsConsistent status_id r.0 r'.0 r'.1 dis
              (update_data_item-elim status_id pd r.0 r.1 di e (λ _ w. subst IsConsistent w c)
                (λ _ w.
                  subst IsConsistent w
                    (update_ip_data_items-AreDistinct di pd.ip_data_items c.0, c.1))
                (λ others _ w. subst IsConsistent w c))
              e')))

  update_all_destinations-AreDistinctAtAll :
      (updates : List DataItem) (dds dds' : List (List ℕ × DestinationData))
      → AreDistinctAtAll dds
      → update_all_destinations cfg updates dds ≡ ok dds'
      → AreDistinctAtAll dds'
  unfolding update_all_destinations AllValues
  update_all_destinations-AreDistinctAtAll updates [] dds' d h =
      subst AreDistinctAtAll (ok-injective h) d
  update_all_destinations-AreDistinctAtAll updates ((mac, dd) ∷ dds) dds' d h =
      >>=-elim (update_destination_data cfg dd updates false) _ h (λ r e h'.
        >>=-elim (update_all_destinations cfg updates dds) _ h' (λ r' e' q.
          subst AreDistinctAtAll (ok-injective q) (
            update_destination_data-AreDistinct dd r.0 r.1 r.2 updates false d.0 e,
            update_all_destinations-AreDistinctAtAll updates dds r' d.1 e',
          )))

  update_destinations-AreDistinctAtAll :
      (updates : List DataItem) (dds dds' : List (List ℕ × DestinationData))
      → AreDistinctAtAll dds
      → update_destinations cfg updates dds ≡ ok dds'
      → AreDistinctAtAll dds'
  unfolding update_destinations
  update_destinations-AreDistinctAtAll [] dds dds' d h = subst AreDistinctAtAll (ok-injective h) d
  update_destinations-AreDistinctAtAll (di ∷ dis) dds dds' d h =
      update_all_destinations-AreDistinctAtAll (di ∷ dis) dds dds' d h

  -- When update_data_items() returns for a peer that, like its destinations, has no two entries
  -- for one IP address, the same holds of the peer that it leaves.
  pub update_data_items-IsConsistent :
      (pd pd' : PeerData) (status : UpdateStatus) (calls : List PeerCall) (updates : List DataItem)
      (tell_peers : Bool)
      → IsConsistent pd
      → update_data_items cfg pd updates tell_peers ≡ ok (pd', status, calls)
      → IsConsistent pd'
  unfolding update_data_items update_data_items_helper IsConsistent
  update_data_items-IsConsistent pd pd' status calls updates tell_peers c h =
      >>=-elim (has_unknown_metric cfg pd.metric_data_items updates) _ h (λ unknown _ h'.
        if-≡-elim unknown h' (λ _ q. subst (λ r. IsConsistent r.0) (ok-injective q) c)
          (λ _ h''. >>=-elim (update_data_items_helper cfg pd updates) _ h'' (λ r e g.
            let c' = helper r.0 r.1 e in
            >>=-elim (update_destinations cfg r.1 r.0.destination_data) _ g (λ dds e' q.
              subst (λ t. IsConsistent t.0) (ok-injective q)
                (c'.0, update_destinations-AreDistinctAtAll r.1 _ dds c'.1 e')))))
    where
      helper :
          (p : PeerData) (ups : List DataItem)
          → update_data_items_helper cfg pd updates ≡ ok (p, ups)
          → IsConsistent p
      helper p ups e =
          >>=-elim (get_data_item_id cfg "Status" none) _ e
            (λ status_id _ e'. update_each_data_item-IsConsistent status_id pd p ups updates c e')
