-- ===== src/Dlep/Directory/Local.antt =====
-- DlepServiceImpl.cpp: the calls on our own entry, as changes of the directory.
use ll_dlep.Common.{
  ℕ, ◌≡◌, refl, sym, ap, ◌∙◌, inl, inr, Bool, true, false, not, List, Bool-cases, nat_key,
  string_key, bytes_key, WhenOk, value, after, after_with,
}
use mathlib.Core.Path.{fun_ext}
use ll_dlep.DataItem.Types.{DataItem}
use ll_dlep.InfoBase.PeerData.{add_destination, update_destination, remove_destination}
use ll_dlep.InfoBase.Destinations.{
  add_destination_lem, update_destination_lem, remove_destination_lem,
}
use ll_dlep.Peer.State.{Dlep}
use ll_dlep.Dlep.{DlepState, tell_peers}
use ll_dlep.Dlep.Service.{add_local, update_local, remove_local}
use ll_dlep.Dlep.Directory.{Directory, view, with_dest, without_dest}
use ll_dlep.Dlep.Directory.Kept.{tell_peers-view}

abbrev pub with_own : Directory → (List ℕ → Bool) → Directory
with_own d has = record d { own = has }

-- A set that does not have the destination is the same without it.
pub without_absent :
    (mac : List ℕ) (has : List ℕ → Bool) → has mac ≡ false → without_dest mac has ≡ has
without_absent mac has absent = fun_ext λ m. elim (Bool-cases (bytes_key.key_eq mac m)) [
  | inl same ↦ rw same (sym absent ∙ ap has ((bytes_key.key_eq_iff mac m).0 same))
  | inr other ↦ rw other refl
]

module _ (dlep : Dlep) where
  pub add_local-view :
      (st : DlepState) (mac : List ℕ) (data_items : List DataItem)
      → WhenOk
          (λ r.
            (view r.0 ≡ with_own (view st) (with_dest mac (view st).own))
            × (r.1 ≡ not ((view st).own mac)))
          (add_local dlep st mac data_items)
  unfolding add_local
  add_local-view st mac data_items =
      after _ (add_destination dlep.protocfg st.local_pdp mac data_items true) _ λ r e.
        let l = add_destination_lem dlep.protocfg st.local_pdp r.0 mac data_items true r.1 r.2 e in
        let st1 : DlepState = record st { local_pdp = r.0 } in
        after_with _ (λ st'. view st' ≡ view st1) (tell_peers dlep st1 r.2) _
          (tell_peers-view dlep st1 r.2)
          λ st' s. value _ _ (s ∙ ap (with_own (view st)) (fun_ext l.2), l.0)

  pub update_local-view :
      (st : DlepState) (mac : List ℕ) (data_items : List DataItem) (telling : Bool)
      → WhenOk
          (λ r. (view r.0 ≡ view st) × (r.1 ≡ (view st).own mac))
          (update_local dlep st mac data_items telling)
  unfolding update_local
  update_local-view st mac data_items telling =
      after _ (update_destination dlep.protocfg st.local_pdp mac data_items telling) _ λ r e.
        let l =
          update_destination_lem dlep.protocfg st.local_pdp r.0 mac data_items telling r.1 r.2 e in
        let st1 : DlepState = record st { local_pdp = r.0 } in
        after_with _ (λ st'. view st' ≡ view st1) (tell_peers dlep st1 r.2) _
          (tell_peers-view dlep st1 r.2)
          λ st' s. value _ _ (s ∙ ap (with_own (view st)) (fun_ext l.2), l.0)

  pub remove_local-view :
      (st : DlepState) (mac : List ℕ) (data_items : List DataItem)
      → WhenOk
          (λ r.
            (view r.0 ≡ with_own (view st) (without_dest mac (view st).own))
            × (r.1 ≡ (view st).own mac))
          (remove_local dlep st mac data_items)
  unfolding remove_local
  remove_local-view st mac data_items =
      let r = remove_destination st.local_pdp mac true data_items in
      let l = remove_destination_lem st.local_pdp r.0 mac true r.1 data_items r.2 refl in
      let st1 : DlepState = record st { local_pdp = r.0 } in
      after_with _ (λ st'. view st' ≡ view st1) (tell_peers dlep st1 r.2) _
        (tell_peers-view dlep st1 r.2)
        λ st' s. value _ _ (s ∙ ap (with_own (view st)) (fun_ext l.1), l.0)
