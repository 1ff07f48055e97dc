-- ===== src/InfoBase/Removal.antt =====
-- InfoBaseMgr.cpp: a new peer is consistent, and remove_data_items() keeps a peer consistent.
use ll_dlep.Common.{
  String, ◌≡◌, sym, ap, ◌∙◌, inl, inr, false, none, some, List, [], ◌∷◌, arith, Option-cases,
  >>=-elim, map_find, nat_key, string_key, bytes_key, if-elim, if-≡-elim, ok-injective, AllValues,
  WhenOk,
}
use mathlib.Core.Path.{subst}
use ll_dlep.ProtocolConfig.{ProtocolConfig, get_data_item_id}
use ll_dlep.DataItem.Types.{DataItem}
use ll_dlep.DataItem.Ip.{data_item_eq}
use ll_dlep.InfoBase.PeerData.{
  PeerData, new_peer, update_data_items_helper, remove_first, remove_data_item, remove_data_items,
}
use ll_dlep.InfoBase.IpUpdates.{contains_ip, AreDistinct}
use ll_dlep.InfoBase.PeerUpdates.{IsConsistent, update_each_data_item-IsConsistent}

-- The two ways in which remove_first() can find a data item.
remove_first-elim {ℓ} :
    {C : Type ℓ} (di x : DataItem) (xs left : List DataItem)
    → remove_first di (x ∷ xs) ≡ some left
    → (xs ≡ left → C)
    → ((rest : List DataItem) → remove_first di xs ≡ some rest → x ∷ rest ≡ left → C)
    → C
unfolding remove_first
remove_first-elim di x xs left h here later =
    if-≡-elim (data_item_eq x di) h (λ _ q. here (let e : xs ≡ left = cc q in e))
      (λ _ q. elim (Option-cases (remove_first di xs)) [
        | inl e ↦ absurd (let c : none ≡ some left = rw e at q in cc c)
        | inr (rest, e) ↦
            later rest e (
              let c : some (x ∷ rest) ≡ some left = rw e at q in
              let d : x ∷ rest ≡ left = cc c in d)
      ])

remove_first-contains_ip :
    (di y : DataItem) (xs left : List DataItem)
    → remove_first di xs ≡ some left
    → contains_ip y xs ≡ false
    → contains_ip y left ≡ false
unfolding contains_ip remove_first
remove_first-contains_ip di y [] left h n = absurd (cc h)
remove_first-contains_ip di y (x ∷ xs) left h n =
    remove_first-elim di x xs left h (λ e. ap (contains_ip y) (sym e) ∙ ground (arith, n))
      (λ rest e same.
        ap (contains_ip y) (sym same)
        ∙ ground (arith, n, remove_first-contains_ip di y xs rest e (ground (arith, n))))

remove_first-AreDistinct :
    (di : DataItem) (xs left : List DataItem)
    → remove_first di xs ≡ some left
    → AreDistinct xs
    → AreDistinct left
unfolding AreDistinct remove_first
remove_first-AreDistinct di [] left h d = absurd (cc h)
remove_first-AreDistinct di (x ∷ xs) left h d =
    remove_first-elim di x xs left h (λ e. subst AreDistinct e d.1)
      (λ rest e same.
        subst AreDistinct same
          (remove_first-contains_ip di x xs rest e d.0, remove_first-AreDistinct di xs rest e d.1))

-- The branch of remove_data_item() past the metrics.
remove_elsewhere : PeerData → DataItem → PeerData
remove_elsewhere pd di = elim (remove_first di pd.ip_data_items) [
  | some left ↦ record pd { ip_data_items = left }
  | none ↦ elim (remove_first di pd.other_data_items) [
    | some left ↦ record pd { other_data_items = left }
    | none ↦ pd
  ]
]

remove_elsewhere-IsConsistent :
    (pd : PeerData) (di : DataItem) → IsConsistent pd → IsConsistent (remove_elsewhere pd di)
unfolding remove_elsewhere IsConsistent
remove_elsewhere-IsConsistent pd di c = elim (Option-cases (remove_first di pd.ip_data_items)) [
  | inr (left, e) ↦
      rw (e, remove_elsewhere) (remove_first-AreDistinct di pd.ip_data_items left e c.0, c.1)
  | inl e ↦ elim (Option-cases (remove_first di pd.other_data_items)) [
    | inr (left, e') ↦ rw (e, e', remove_elsewhere) c
    | inl e' ↦ rw (e, e', remove_elsewhere) c
  ]
]

remove_data_item-IsConsistent :
    (pd : PeerData) (di : DataItem) → IsConsistent pd → IsConsistent (remove_data_item pd di)
unfolding remove_data_item remove_elsewhere IsConsistent
remove_data_item-IsConsistent pd di c =
    if-elim IsConsistent
      (elim (map_find di.id pd.metric_data_items) [
        | none ↦ false
        | some held ↦ data_item_eq held di
      ])
      _ _ (λ _. c) (λ _. remove_elsewhere-IsConsistent pd di c)

pub remove_data_items-IsConsistent :
    (pd : PeerData) (dis : List DataItem)
    → IsConsistent pd
    → IsConsistent (remove_data_items pd dis)
unfolding remove_data_items
remove_data_items-IsConsistent pd [] c = c
remove_data_items-IsConsistent pd (di ∷ dis) c =
    remove_data_items-IsConsistent (remove_data_item pd di) dis
      (remove_data_item-IsConsistent pd di c)

abbrev empty_peer : String → PeerData
empty_peer id = record {
  peer_id = id;
  destination_data = [];
  metric_data_items = [];
  ip_data_items = [];
  other_data_items = [];
}

empty_peer-IsConsistent : (id : String) → IsConsistent (empty_peer id)
unfolding IsConsistent AreDistinct AllValues
empty_peer-IsConsistent id = (tt, tt)

pub new_peer-IsConsistent :
    (cfg : ProtocolConfig) (id : String) (initial : List DataItem)
    → WhenOk IsConsistent (new_peer cfg id initial)
unfolding new_peer update_data_items_helper
new_peer-IsConsistent cfg id initial pd h =
    >>=-elim (update_data_items_helper cfg (empty_peer id) initial) _ h λ r e q.
      >>=-elim (get_data_item_id cfg "Status" none) _ e λ status_id _ e'.
        subst IsConsistent (ok-injective q) (
          update_each_data_item-IsConsistent cfg status_id (empty_peer id) r.0 r.1 initial
            (empty_peer-IsConsistent id) e')
