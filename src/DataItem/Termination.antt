-- ===== src/DataItem/Termination.antt =====
-- DataItem.cpp: DataItem::deserialize() ends on every input, well formed or not.
use ll_dlep.Common.{
  ℕ, zero, suc, ◌+◌, ◌%◌, ◌^◌, ◌≤◌, ◌<◌, String, ◌≡◌, ap, ◌≢◌, Bool, true, false, Option, none,
  some, List, [], ◌∷◌, arith, leb, ◌==◌, length, take, drop, length-take-le, length-drop, Error,
  invalid_argument, length_error, out_of_range, bad_data_item_id, Result, ok, stuck, ◌>>◌, guard,
  or_throw, >>=-ne-stuck, >>=-elim, guard->>-elim,
}
use ll_dlep.Serialize.{deserialize_u8, deserialize_value as deserialize_uint, deserialize_field}
use ll_dlep.Serialize.InPlace.{get_bytes-ne-stuck, get_bytes_takes, deserialize_field-eq_ok}
use ll_dlep.ProtocolConfig.{
  ProtocolConfig, get_data_item_info, find_left, find_sub_by_id, parent_sub_data_items,
}
use ll_dlep.DataItem.Types.{
  DataItemValueType, DataItemInfo, DataItem, blank, div_u8, div_u16, div_u32, div_u64, div_v_u8,
  div_v_u32, div_a2_u16, div_string, div_dlepmac, div_u8_string, div_u8_ipv4, div_u8_ipv6,
  div_u16_vu8, div_v_extid, div_u8_ipv4_u16, div_u8_ipv6_u16, div_u8_ipv4_u8, div_u8_ipv6_u8,
  div_u8_u8, div_u64_u64, div_sub_data_items, div_u16_sub_data_items,
}
use ll_dlep.DataItem.Wire.{
  deserialize_ip, deserialize_all, deserialize_port, deserialize_as, deserialize,
}
use ll_dlep.DataItem.WellTyped.{HasFieldSizes}

pub ok-ne-stuck {ℓ} : {A : Type ℓ} (a : A) → ok a ≢ stuck
ok-ne-stuck a e = cc

-- A check that throws or goes on.
pub guard->>-ne-stuck {ℓ} :
    {A : Type ℓ} (b : Bool) (e : Error) (m : Result A) → m ≢ stuck → (guard b e >> m) ≢ stuck
guard->>-ne-stuck true e m h = h
guard->>-ne-stuck false e m h = λ p. cc

or_throw-ne-stuck {ℓ} : {A : Type ℓ} (o : Option A) (e : Error) → or_throw o e ≢ stuck
or_throw-ne-stuck none e p = cc
or_throw-ne-stuck (some a) e p = cc

deserialize_u8-ne-stuck : (it : List ℕ) → deserialize_u8 it ≢ stuck
unfolding deserialize_u8
deserialize_u8-ne-stuck [] p = cc
deserialize_u8-ne-stuck (b ∷ it) p = cc

deserialize_u8_takes :
    (it : List ℕ) (x : ℕ) (rest : List ℕ)
    → deserialize_u8 it ≡ ok (x, rest)
    → length rest < length it
unfolding deserialize_u8
deserialize_u8_takes [] x rest e = cc
deserialize_u8_takes (b ∷ it) x rest e = let e' : it ≡ rest = cc in omega (arith, ap length e')

deserialize_uint-ne-stuck : (w : ℕ) (it : List ℕ) → deserialize_uint w it ≢ stuck
unfolding deserialize_uint
deserialize_uint-ne-stuck w it = get_bytes-ne-stuck (256 ^ w) 0 w it

deserialize_uint_takes :
    (w : ℕ) (it : List ℕ) (x : ℕ) (rest : List ℕ)
    → 0 < w
    → deserialize_uint w it ≡ ok (x, rest)
    → length rest < length it
unfolding deserialize_uint
deserialize_uint_takes w it x rest h e = omega (arith, get_bytes_takes (256 ^ w) 0 w it e)

pub deserialize_field-ne-stuck : (w n : ℕ) (it : List ℕ) → deserialize_field w n it ≢ stuck
unfolding deserialize_field
deserialize_field-ne-stuck w n it =
    >>=-ne-stuck _ _ (get_bytes-ne-stuck (2 ^ 64) 0 n it) λ p _.
      guard->>-ne-stuck (p.0 % 256 ^ w == p.0) invalid_argument (ok (p.0, p.1)) (ok-ne-stuck _)

pub deserialize_field_takes :
    (w n : ℕ) (it : List ℕ) (x : ℕ) (rest : List ℕ)
    → deserialize_field w n it ≡ ok (x, rest)
    → length it ≡ length rest + n
deserialize_field_takes w n it x rest e =
    get_bytes_takes (2 ^ 64) 0 n it (deserialize_field-eq_ok w n it e).0

deserialize_ip-ne-stuck : (n : ℕ) (it : List ℕ) → deserialize_ip n it ≢ stuck
unfolding deserialize_ip
deserialize_ip-ne-stuck zero it = λ p. cc
deserialize_ip-ne-stuck (suc n) [] = λ p. cc
deserialize_ip-ne-stuck (suc n) (b ∷ it) =
    >>=-ne-stuck _ _ (deserialize_ip-ne-stuck n it) (λ _ _. ok-ne-stuck _)

deserialize_port-ne-stuck : (it : List ℕ) → deserialize_port it ≢ stuck
unfolding deserialize_port
deserialize_port-ne-stuck [] = λ p. cc
deserialize_port-ne-stuck (b ∷ it) = deserialize_uint-ne-stuck 2 (b ∷ it)

-- A loop whose rounds take a byte at least ends within as many rounds as there are bytes.
deserialize_all-ne-stuck :
    {A : Type 0} (read : List ℕ → Result (A × List ℕ)) (fuel : ℕ) (it : List ℕ)
    → ((it' : List ℕ) → length it' ≤ length it → read it' ≢ stuck)
    → ((it' : List ℕ) (x : A) (rest : List ℕ) → read it' ≡ ok (x, rest) → length rest < length it')
    → length it ≤ fuel
    → deserialize_all read fuel it ≢ stuck
unfolding deserialize_all
deserialize_all-ne-stuck read zero [] hs ht hf = ok-ne-stuck []
deserialize_all-ne-stuck read (suc fuel) [] hs ht hf = ok-ne-stuck []
deserialize_all-ne-stuck read zero (b ∷ it) hs ht hf = absurd (omega arith)
deserialize_all-ne-stuck read (suc fuel) (b ∷ it) hs ht hf =
    >>=-ne-stuck _ _ (hs (b ∷ it) (omega arith)) λ p e.
      let shorter = ht (b ∷ it) p.0 p.1 e in
      >>=-ne-stuck _ _
        (deserialize_all-ne-stuck read fuel p.1 (λ it' h. hs it' (omega arith)) ht (omega arith))
        (λ _ _. ok-ne-stuck _)

get_data_item_info-ne-stuck :
    (cfg : ProtocolConfig) (id : ℕ) (parent : Option DataItemInfo)
    → get_data_item_info cfg id parent ≢ stuck
unfolding get_data_item_info
get_data_item_info-ne-stuck cfg id parent =
    >>=-ne-stuck _ _ (name (find_sub_by_id id (parent_sub_data_items parent)))
      (λ n _. or_throw-ne-stuck _ _)
  where
    name :
        (o : Option String)
        → (elim o [
          | some n ↦ ok n
          | none ↦ or_throw (find_left id cfg.data_item_map) (bad_data_item_id id)
        ])
          ≢ stuck
    name none = or_throw-ne-stuck _ _
    name (some n) = ok-ne-stuck n

-- The switch ends if reading a sub data item does, and takes a byte at least.
deserialize_as-ne-stuck :
    (cfg : ProtocolConfig) (read : List ℕ → Result (DataItem × List ℕ)) (t : DataItemValueType)
    (it : List ℕ)
    → 0 < cfg.extension_id_size
    → ((it' : List ℕ) → length it' ≤ length it → read it' ≢ stuck)
    → ((it' : List ℕ) (x : DataItem) (rest : List ℕ)
        → read it' ≡ ok (x, rest)
        → length rest < length it')
    → deserialize_as cfg read t it ≢ stuck
unfolding deserialize_as
deserialize_as-ne-stuck cfg read blank it hx hs ht = ok-ne-stuck _
deserialize_as-ne-stuck cfg read div_u8 it hx hs ht =
    >>=-ne-stuck _ _ (deserialize_u8-ne-stuck it) λ p0 _. ok-ne-stuck _
deserialize_as-ne-stuck cfg read div_u16 it hx hs ht =
    >>=-ne-stuck _ _ (deserialize_uint-ne-stuck 2 it) λ p0 _. ok-ne-stuck _
deserialize_as-ne-stuck cfg read div_u32 it hx hs ht =
    >>=-ne-stuck _ _ (deserialize_uint-ne-stuck 4 it) λ p0 _. ok-ne-stuck _
deserialize_as-ne-stuck cfg read div_u64 it hx hs ht =
    >>=-ne-stuck _ _ (deserialize_uint-ne-stuck 8 it) λ p0 _. ok-ne-stuck _
deserialize_as-ne-stuck cfg read div_v_u8 it hx hs ht =
    >>=-ne-stuck _ _
      (deserialize_all-ne-stuck deserialize_u8 (length it) it (λ it' _. deserialize_u8-ne-stuck it')
        deserialize_u8_takes (omega arith))
      λ p0 _. ok-ne-stuck _
deserialize_as-ne-stuck cfg read div_v_u32 it hx hs ht =
    >>=-ne-stuck _ _
      (deserialize_all-ne-stuck (deserialize_uint 4) (length it) it
        (λ it' _. deserialize_uint-ne-stuck 4 it')
        (λ it' x rest. deserialize_uint_takes 4 it' x rest (omega arith)) (omega arith))
      λ p0 _. ok-ne-stuck _
deserialize_as-ne-stuck cfg read div_a2_u16 it hx hs ht =
    >>=-ne-stuck _ _ (deserialize_uint-ne-stuck 2 it)
      λ p0 _. >>=-ne-stuck _ _ (deserialize_uint-ne-stuck 2 p0.1) λ p1 _. ok-ne-stuck _
deserialize_as-ne-stuck cfg read div_string it hx hs ht = ok-ne-stuck _
deserialize_as-ne-stuck cfg read div_dlepmac it hx hs ht = ok-ne-stuck _
deserialize_as-ne-stuck cfg read div_u8_string it hx hs ht =
    >>=-ne-stuck _ _ (deserialize_u8-ne-stuck it) λ p0 _. ok-ne-stuck _
deserialize_as-ne-stuck cfg read div_u8_ipv4 it hx hs ht =
    >>=-ne-stuck _ _ (deserialize_u8-ne-stuck it)
      λ p0 _. >>=-ne-stuck _ _ (deserialize_ip-ne-stuck 4 p0.1) λ p1 _. ok-ne-stuck _
deserialize_as-ne-stuck cfg read div_u8_ipv6 it hx hs ht =
    >>=-ne-stuck _ _ (deserialize_u8-ne-stuck it)
      λ p0 _. >>=-ne-stuck _ _ (deserialize_ip-ne-stuck 16 p0.1) λ p1 _. ok-ne-stuck _
deserialize_as-ne-stuck cfg read div_u16_vu8 it hx hs ht =
    >>=-ne-stuck _ _ (deserialize_uint-ne-stuck 2 it) λ p0 _.
      >>=-ne-stuck _ _ (deserialize_u8-ne-stuck p0.1)
        λ p1 _. guard->>-ne-stuck (length p1.1 == p1.0) length_error _ (ok-ne-stuck _)
deserialize_as-ne-stuck cfg read div_v_extid it hx hs ht =
    >>=-ne-stuck _ _
      (deserialize_all-ne-stuck (deserialize_field 4 cfg.extension_id_size) (length it) it
        (λ it' _. deserialize_field-ne-stuck 4 cfg.extension_id_size it')
        (λ it' x rest e.
          omega (arith, deserialize_field_takes 4 cfg.extension_id_size it' x rest e))
        (omega arith))
      λ p0 _. ok-ne-stuck _
deserialize_as-ne-stuck cfg read div_u8_ipv4_u16 it hx hs ht =
    >>=-ne-stuck _ _ (deserialize_u8-ne-stuck it) λ p0 _.
      >>=-ne-stuck _ _ (deserialize_ip-ne-stuck 4 p0.1)
        λ p1 _. >>=-ne-stuck _ _ (deserialize_port-ne-stuck p1.1) λ p2 _. ok-ne-stuck _
deserialize_as-ne-stuck cfg read div_u8_ipv6_u16 it hx hs ht =
    >>=-ne-stuck _ _ (deserialize_u8-ne-stuck it) λ p0 _.
      >>=-ne-stuck _ _ (deserialize_ip-ne-stuck 16 p0.1)
        λ p1 _. >>=-ne-stuck _ _ (deserialize_port-ne-stuck p1.1) λ p2 _. ok-ne-stuck _
deserialize_as-ne-stuck cfg read div_u8_ipv4_u8 it hx hs ht =
    >>=-ne-stuck _ _ (deserialize_u8-ne-stuck it) λ p0 _.
      >>=-ne-stuck _ _ (deserialize_ip-ne-stuck 4 p0.1)
        λ p1 _. >>=-ne-stuck _ _ (deserialize_u8-ne-stuck p1.1) λ p2 _. ok-ne-stuck _
deserialize_as-ne-stuck cfg read div_u8_ipv6_u8 it hx hs ht =
    >>=-ne-stuck _ _ (deserialize_u8-ne-stuck it) λ p0 _.
      >>=-ne-stuck _ _ (deserialize_ip-ne-stuck 16 p0.1)
        λ p1 _. >>=-ne-stuck _ _ (deserialize_u8-ne-stuck p1.1) λ p2 _. ok-ne-stuck _
deserialize_as-ne-stuck cfg read div_u8_u8 it hx hs ht =
    >>=-ne-stuck _ _ (deserialize_u8-ne-stuck it)
      λ p0 _. >>=-ne-stuck _ _ (deserialize_u8-ne-stuck p0.1) λ p1 _. ok-ne-stuck _
deserialize_as-ne-stuck cfg read div_u64_u64 it hx hs ht =
    >>=-ne-stuck _ _ (deserialize_uint-ne-stuck 8 it)
      λ p0 _. >>=-ne-stuck _ _ (deserialize_uint-ne-stuck 8 p0.1) λ p1 _. ok-ne-stuck _
deserialize_as-ne-stuck cfg read div_sub_data_items it hx hs ht =
    >>=-ne-stuck _ _ (deserialize_all-ne-stuck read (length it) it hs ht (omega arith))
      λ p0 _. ok-ne-stuck _
deserialize_as-ne-stuck cfg read div_u16_sub_data_items it hx hs ht =
    >>=-ne-stuck _ _ (deserialize_uint-ne-stuck 2 it) λ p0 e0.
      >>=-ne-stuck _ _ (deserialize_u8-ne-stuck p0.1) λ p1 e1.
        >>=-ne-stuck _ _ (deserialize_u8-ne-stuck p1.1) λ p2 e2.
          let l0 = deserialize_uint_takes 2 it p0.0 p0.1 (omega arith) e0 in
          let l1 = deserialize_u8_takes p0.1 p1.0 p1.1 e1 in
          let l2 = deserialize_u8_takes p1.1 p2.0 p2.1 e2 in
          guard->>-ne-stuck (p2.0 == 0) out_of_range _ (
            >>=-ne-stuck _ _
              (deserialize_all-ne-stuck read (length p2.1) p2.1 (λ it' h. hs it' (omega arith)) ht
                (omega arith))
              λ p3 _. guard->>-ne-stuck (length p3 == p1.0) length_error _ (ok-ne-stuck _))

-- A data item that is read takes a byte at least off the input.
pub deserialize_takes :
    (fuel : ℕ) (cfg : ProtocolConfig) (parent : Option DataItemInfo) (it : List ℕ) (di : DataItem)
    (rest : List ℕ)
    → HasFieldSizes cfg
    → deserialize fuel cfg parent it ≡ ok (di, rest)
    → length rest < length it
unfolding deserialize
deserialize_takes zero cfg parent it di rest sizes e = absurd (cc e)
deserialize_takes (suc fuel) cfg parent it di rest sizes e =
    >>=-elim (deserialize_field 4 cfg.data_item_id_size it) _ e λ p1 r1 e1.
      >>=-elim (deserialize_field 8 cfg.data_item_length_size p1.1) _ e1 λ p2 r2 e2.
        guard->>-elim (leb p2.0 (length p2.1)) length_error _ e2 λ r3 e3.
          >>=-elim (get_data_item_info cfg p1.0 parent) _ e3 λ info r4 e4.
            >>=-elim
              (deserialize_as cfg (deserialize fuel cfg (some info)) info.value_type
                (take p2.0 p2.1))
              _ e4
              λ p5 r5 e5. guard->>-elim (length p5.1 == 0) length_error _ e5 λ r6 e6.
                let left : drop p2.0 p2.1 ≡ rest = cc e6 in
                omega (
                  arith,
                  sizes.header,
                  ap length left,
                  length-drop p2.0 p2.1,
                  deserialize_field_takes 4 cfg.data_item_id_size it p1.0 p1.1 r1,
                  deserialize_field_takes 8 cfg.data_item_length_size p1.1 p2.0 p2.1 r2,
                )

-- Reading a data item from any bytes ends: with more fuel than there are bytes the model never
-- runs out, so the nested loops of the source end with a data item or an exception. Condition: the
-- header of a data item and an extension id have a size other than 0.
pub deserialize-ne-stuck :
    (fuel : ℕ) (cfg : ProtocolConfig) (parent : Option DataItemInfo) (it : List ℕ)
    → HasFieldSizes cfg
    → length it < fuel
    → deserialize fuel cfg parent it ≢ stuck
unfolding deserialize
deserialize-ne-stuck zero cfg parent it sizes h = absurd (omega arith)
deserialize-ne-stuck (suc fuel) cfg parent it sizes h =
    >>=-ne-stuck _ _ (deserialize_field-ne-stuck 4 cfg.data_item_id_size it) λ p1 r1.
      >>=-ne-stuck _ _ (deserialize_field-ne-stuck 8 cfg.data_item_length_size p1.1) λ p2 r2.
        guard->>-ne-stuck (leb p2.0 (length p2.1)) length_error _ (
          >>=-ne-stuck _ _ (get_data_item_info-ne-stuck cfg p1.0 parent) λ info _.
            let less : length (take p2.0 p2.1) < length it = omega (
              arith,
              sizes.header,
              length-take-le p2.0 p2.1,
              deserialize_field_takes 4 cfg.data_item_id_size it p1.0 p1.1 r1,
              deserialize_field_takes 8 cfg.data_item_length_size p1.1 p2.0 p2.1 r2,
            ) in
            >>=-ne-stuck _ _
              (deserialize_as-ne-stuck cfg (deserialize fuel cfg (some info)) info.value_type
                (take p2.0 p2.1) sizes.extension
                (λ it' hl. deserialize-ne-stuck fuel cfg (some info) it' sizes (omega arith))
                (λ it' x rest. deserialize_takes fuel cfg (some info) it' x rest sizes))
              λ p5 _. guard->>-ne-stuck (length p5.1 == 0) length_error _ (ok-ne-stuck _))
