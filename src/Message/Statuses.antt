-- ===== src/Message/Statuses.antt =====
-- ProtocolMessage.cpp: the remapping of status codes in add_status(), and what a message is asked
-- for and given.
use ll_dlep.Common.{
  ℕ, zero, suc, String, ◌≡◌, refl, sym, ap, ◌∙◌, ◌⊎◌, inl, inr, true, false, ◌||◌, List, [], ◌∷◌,
  map, ◌==◌, ==→eq, ==→ne, Bool-cases, Option-cases, bad_status_code_name, ok, err, stuck, ◌>>=◌,
  str_eq, nat_key, string_key, bytes_key, if-elim,
}
use mathlib.Core.Path.{subst, fun_ext}
use mathlib.Core.HLevel.{⊥_prop}
use mathlib.Core.Logic.Or
use mathlib.Core.List.{Mem, mem-cons_of_mem, not-mem-nil, mem-cons}
use ll_dlep.ProtocolConfig.{ProtocolConfig, get_status_code_id, find_right}
use ll_dlep.DataItem.Types.{DataItem, SubDataItem}
use ll_dlep.Message.Build.{
  ProtocolMessage, add_data_item, add_data_items, is_allowed, add_each_allowed, remap_status,
  find_status_code_id,
}

-- The configuration has a status code of this name.
abbrev pub HasStatus : ProtocolConfig → String → Type 0
HasStatus cfg name = (id : ℕ) × (get_status_code_id cfg name ≡ ok id)

module _ (cfg : ProtocolConfig) where
  find_status_code_id-here :
      (fuel : ℕ) (name : String)
      → HasStatus cfg name
      → (id : ℕ) × (find_status_code_id cfg (suc fuel) name ≡ ok id)
  unfolding find_status_code_id
  find_status_code_id-here fuel name (id, e) = (id, rw (e, find_status_code_id) refl)

  find_status_code_id-cases :
      (fuel : ℕ) (name : String)
      → HasStatus cfg name
        ⊎ (find_status_code_id cfg (suc fuel) name
            ≡ find_status_code_id cfg fuel (remap_status cfg name))
  unfolding find_status_code_id get_status_code_id
  find_status_code_id-cases fuel name = elim (Option-cases (find_right name cfg.status_code_map)) [
    | inl e ↦ inr (rw (e, find_status_code_id) refl)
    | inr (id, e) ↦ inl (id, rw (e) refl)
  ]

  IsRemapped : String → Type 0
  IsRemapped name =
      (name ≡ "Invalid_Data")
      ⊎ ((name ≡ "Invalid_Message") ⊎ ((name ≡ "Request_Denied") ⊎ (name ≡ "Unknown_Message")))

  remap_status-IsRemapped : (name : String) → IsRemapped (remap_status cfg name)
  unfolding remap_status IsRemapped
  remap_status-IsRemapped name =
      if-elim IsRemapped (str_eq name "Invalid_Message") _ _ (λ _. inl refl)
        λ _.
          if-elim IsRemapped (str_eq name "Invalid_Destination" || str_eq name "Inconsistent_Data")
            _ _ (λ _. inr (inl refl))
            λ _.
              if-elim IsRemapped (str_eq name "Invalid_Data") _ _ (λ _. inr (inl refl))
                λ _.
                  if-elim IsRemapped (str_eq name "Not_Interested") _ _ (λ _. inr (inr (inl refl)))
                    (λ _. inr (inr (inr refl)))

  find_next :
      (fuel : ℕ) (name next : String)
      → remap_status cfg name ≡ next
      → HasStatus cfg next
      → (id : ℕ) × (find_status_code_id cfg (suc (suc fuel)) name ≡ ok id)
  find_next fuel name next e h = elim (find_status_code_id-cases (suc fuel) name) [
    | inl here ↦ find_status_code_id-here (suc fuel) name here
    | inr later ↦
        let (id, f) = find_status_code_id-here fuel next h in
        (id, later ∙ ap (find_status_code_id cfg (suc fuel)) e ∙ f)
  ]

  -- The loop of add_status() finds a status code within three rounds, whatever it is asked for, if
  -- the configuration has Unknown_Message and one of Invalid_Message and Invalid_Data.
  pub find_status_code_id-terminates :
      (name : String)
      → HasStatus cfg "Unknown_Message"
      → HasStatus cfg "Invalid_Message" ⊎ HasStatus cfg "Invalid_Data"
      → (id : ℕ) × (find_status_code_id cfg 3 name ≡ ok id)
  unfolding remap_status IsRemapped
  find_status_code_id-terminates name unknown invalid = elim (find_status_code_id-cases 2 name) [
    | inl here ↦ find_status_code_id-here 2 name here
    | inr later ↦
        let (id, f) = next (remap_status cfg name) (remap_status-IsRemapped name) in (id, later ∙ f)
  ]
    where
      next : (n : String) → IsRemapped n → (id : ℕ) × (find_status_code_id cfg 2 n ≡ ok id)
      next n (inl e) = elim invalid [
        | inl m ↦ find_next 0 n "Invalid_Message" (ap (remap_status cfg) e) m
        | inr d ↦ find_status_code_id-here 1 n (subst (HasStatus cfg) (sym e) d)
      ]
      next n (inr (inl e)) = elim invalid [
        | inl m ↦ find_status_code_id-here 1 n (subst (HasStatus cfg) (sym e) m)
        | inr d ↦ find_next 0 n "Invalid_Data" (ap (remap_status cfg) e) d
      ]
      next n (inr (inr (inl e))) = find_next 0 n "Unknown_Message" (ap (remap_status cfg) e) unknown
      next n (inr (inr (inr e))) =
          find_status_code_id-here 1 n (subst (HasStatus cfg) (sym e) unknown)

  find_status_code_id-missing :
      (fuel : ℕ) (name : String)
      → get_status_code_id cfg name ≡ err (bad_status_code_name name)
      → find_status_code_id cfg (suc fuel) name
        ≡ find_status_code_id cfg fuel (remap_status cfg name)
  unfolding find_status_code_id
  find_status_code_id-missing fuel name e = rw (e, find_status_code_id) refl

  -- Without Unknown_Message the loop of add_status() never ends when it is asked for it: no number
  -- of rounds is enough.
  pub find_status_code_id-loops :
      (fuel : ℕ)
      → get_status_code_id cfg "Unknown_Message" ≡ err (bad_status_code_name "Unknown_Message")
      → find_status_code_id cfg fuel "Unknown_Message" ≡ stuck
  unfolding find_status_code_id remap_status
  find_status_code_id-loops zero e = refl
  find_status_code_id-loops (suc fuel) e =
      find_status_code_id-missing fuel "Unknown_Message" e ∙ find_status_code_id-loops fuel e

  -- The signal has this id among its data items.
  abbrev pub IsOneOf : List SubDataItem → ℕ → Type 0
  IsOneOf info id = Mem id (map (λ sub. sub.id) info)

  -- The data items whose ids the signal has, each once and in order.
  pub data AreAllowed (info : List SubDataItem) : List DataItem → List DataItem → Type 0 where
    no_more : AreAllowed info [] []
    taken :
        {dis kept : List DataItem} (di : DataItem)
        → IsOneOf info di.id
        → AreAllowed info dis kept
        → AreAllowed info (di ∷ dis) (di ∷ kept)
    passed_over :
        {dis kept : List DataItem} (di : DataItem)
        → ¬ IsOneOf info di.id
        → AreAllowed info dis kept
        → AreAllowed info (di ∷ dis) kept

  is_allowed-IsOneOf :
      (id : ℕ) (info : List SubDataItem)
      → ((is_allowed cfg id info ≡ true) × IsOneOf info id)
        ⊎ ((is_allowed cfg id info ≡ false) × ¬ IsOneOf info id)
  unfolding is_allowed
  is_allowed-IsOneOf id [] = inr (refl, not-mem-nil)
  is_allowed-IsOneOf id (difs ∷ rest) = elim (Bool-cases (difs.id == id)) [
    | inl same ↦ inl (rw same refl, mem-cons.1 ∣ inl (sym (==→eq difs.id id same)) ∣₁)
    | inr other ↦ elim (is_allowed-IsOneOf id rest) [
      | inl (e, m) ↦ inl (rw other e, mem-cons_of_mem difs.id m)
      | inr (e, n) ↦ inr (
        rw other e,
        λ m. Or.elim ⊥_prop (mem-cons.0 m) (λ same. ==→ne difs.id id other (sym same)) n,
      )
    ]
  ]

  -- The loops of add_allowed_data_items() add exactly the data items whose ids are among those of
  -- the signal, each once and in order.
  pub add_each_allowed_lem :
      (info : List SubDataItem) (msg : ProtocolMessage) (dis : List DataItem)
      → (kept : List DataItem) × AreAllowed info dis kept
        × (add_each_allowed cfg info msg dis ≡ add_data_items cfg msg kept)
  unfolding add_each_allowed add_data_items
  add_each_allowed_lem info msg dis =
      let (kept, all) = allowed info dis in (kept, all, adds info msg dis kept all)
    where
      allowed :
          (info : List SubDataItem) (dis : List DataItem)
          → (kept : List DataItem) × AreAllowed info dis kept
      allowed info [] = ([], no_more)
      allowed info (di ∷ dis) =
          let (kept, all) = allowed info dis in
          elim (is_allowed-IsOneOf di.id info) [
            | inl (_, m) ↦ (di ∷ kept, taken di m all)
            | inr (_, n) ↦ (kept, passed_over di n all)
          ]

      adds :
          (info : List SubDataItem) (msg : ProtocolMessage) (dis kept : List DataItem)
          → AreAllowed info dis kept
          → add_each_allowed cfg info msg dis ≡ add_data_items cfg msg kept
      adds info msg _ _ no_more = refl
      adds info msg _ _ (taken {dis} {kept} di m all) = elim (is_allowed-IsOneOf di.id info) [
        | inl (yes', _) ↦
            rw yes' (
              ap (λ k. add_data_item cfg msg di >>= k)
                (fun_ext λ msg'. adds info msg' dis kept all))
        | inr (_, n) ↦ absurd (n m)
      ]
      adds info msg _ _ (passed_over {dis} {kept} di n all) = elim (is_allowed-IsOneOf di.id info) [
        | inl (_, m) ↦ absurd (n m)
        | inr (no', _) ↦ rw no' (adds info msg dis kept all)
      ]
