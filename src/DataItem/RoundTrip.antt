-- ===== src/DataItem/RoundTrip.antt =====
-- DataItem.cpp: DataItem::deserialize() reads back what DataItem::serialize() wrote.
use ll_dlep.Common.{
  ℕ, zero, suc, ◌+◌, ◌-◌, ◌^◌, ◌≤◌, ◌<◌, ◌≡◌, refl, sym, ap, inl, inr, Option, some, List, [], ◌∷◌,
  ◌++◌, append-nil, append_assoc, arith, leb, le→leb, eq→==, Bool-cases, length, length-append,
  take-append, drop-append, ok, >>=-eq-ok,
}
use mathlib.Core.Path.{subst}
use ll_dlep.Serialize.{
  put_bytes, serialize_value as serialize_uint, serialize_field, deserialize_u8,
  deserialize_value as deserialize_uint,
}
use ll_dlep.Serialize.RoundTrip.{
  deserialize_value-serialize_value, deserialize_field-put_bytes, length-put_bytes,
}
use ll_dlep.ProtocolConfig.{ProtocolConfig, get_data_item_info}
use ll_dlep.DataItem.Types.{
  DataItemInfo, DataItemValue, SubDataItems, DataItem, nil, cons, get_type, no_value, u8, u16, u32,
  u64, v_u8, v_u32, a2_u16, string, dlepmac, u8_string, u8_ipv4, u8_ipv6, u16_vu8, v_extid,
  u8_ipv4_u16, u8_ipv6_u16, u8_ipv4_u8, u8_ipv6_u8, u8_u8, u64_u64, sub_data_items,
  u16_sub_data_items, to_list, of_list-to_list,
}
use ll_dlep.DataItem.Wire.{
  size, num_sdis, serialize_value, serialize_sub_data_items, serialize_header, serialize,
  serialize_vector, serialize_ip_port, deserialize_all, deserialize_as, deserialize,
}
use ll_dlep.DataItem.WellTyped.{IsInRange, AreWellTyped, IsWellTyped, HasFieldSizes}
use ll_dlep.DataItem.Fields.{
  serialize_uint-one, deserialize_all_step, deserialize_all_empty, deserialize_all-serialize_vector,
  deserialize_u8_lem, deserialize_u8-serialize_uint, deserialize_ip_lem, port_bytes,
  serialize_ip_port-port_bytes, deserialize_port-port_bytes, deserialize_uint-only, extid_bytes,
  serialize_v_extid-eq_ok, deserialize_all-extid_bytes, serialize_u16_vu8-eq_ok,
  serialize_header-eq_ok,
}

-- A data item whose value is read back from its bytes is read back from its own.
deserialize-serialize_header :
    (cfg : ProtocolConfig) (fuel : ℕ) (parent : Option DataItemInfo) (info : DataItemInfo) (id : ℕ)
    (value : DataItemValue) (valbuf one rest : List ℕ)
    → id < 256 ^ 4
    → length valbuf < 2 ^ 64
    → get_data_item_info cfg id parent ≡ ok info
    → info.value_type ≡ get_type value
    → serialize_header cfg id valbuf ≡ ok one
    → deserialize_as cfg (deserialize fuel cfg (some info)) (get_type value) valbuf ≡ ok (value, [])
    → deserialize (suc fuel) cfg parent (one ++ rest) ≡ ok (record { id = id; value = value }, rest)
unfolding deserialize
deserialize-serialize_header cfg fuel parent info id value valbuf one rest hi hv look typed put ih =
    let (fit1, fit2, shape) = serialize_header-eq_ok cfg id valbuf hi hv put in
    let read_value =
      subst (λ t. deserialize_as cfg (deserialize fuel cfg (some info)) t valbuf ≡ ok (value, []))
        (sym typed) ih in
    let ids = cfg.data_item_id_size in
    let lens = cfg.data_item_length_size in
    rw (
      shape,
      append_assoc (put_bytes id ids) (put_bytes (length valbuf) lens ++ valbuf) rest,
      deserialize_field-put_bytes 4 id ids ((put_bytes (length valbuf) lens ++ valbuf) ++ rest) hi
          (omega arith) fit1,
      append_assoc (put_bytes (length valbuf) lens) valbuf rest,
      deserialize_field-put_bytes 8 (length valbuf) lens (valbuf ++ rest) hv hv fit2,
      le→leb (length valbuf) (length (valbuf ++ rest)) (omega (arith, length-append valbuf rest)),
      look,
      take-append valbuf rest,
      drop-append valbuf rest,
      read_value,
    )

-- The header of a data item that may be sent is not empty.
length-serialize_header :
    (cfg : ProtocolConfig) (id : ℕ) (valbuf : List ℕ) {one : List ℕ}
    → HasFieldSizes cfg
    → id < 256 ^ 4
    → length valbuf < 2 ^ 64
    → serialize_header cfg id valbuf ≡ ok one
    → length valbuf < length one
length-serialize_header cfg id valbuf {one} sizes hi hv put =
    let (fit1, fit2, shape) = serialize_header-eq_ok cfg id valbuf hi hv put in
    let ids = cfg.data_item_id_size in
    let lens = cfg.data_item_length_size in
    omega (
      arith,
      sizes.header,
      ap length shape,
      length-append (put_bytes id ids) (put_bytes (length valbuf) lens ++ valbuf),
      length-append (put_bytes (length valbuf) lens) valbuf,
      length-put_bytes id ids,
      length-put_bytes (length valbuf) lens,
    )

-- The length of a value is at most that of its data item, whatever the sizes.
length-valbuf-le :
    (cfg : ProtocolConfig) (id : ℕ) (valbuf : List ℕ) {one : List ℕ}
    → serialize_header cfg id valbuf ≡ ok one
    → length valbuf ≤ length one
unfolding serialize_header
length-valbuf-le cfg id valbuf {one} put =
    let (b1, put1, e1) = >>=-eq-ok (serialize_field 4 id cfg.data_item_id_size []) _ put in
    let (b2, put2, e2) =
      >>=-eq-ok (serialize_field 8 (length valbuf) cfg.data_item_length_size b1) _ e1 in
    let same : b2 ++ valbuf ≡ one = cc in omega (arith, ap length same, length-append b2 valbuf)

serialize_u16_sub-eq_ok :
    (cfg : ProtocolConfig) (x : ℕ) (sdis : SubDataItems) {bs : List ℕ}
    → size sdis < 2 ^ 32
    → serialize_value cfg (u16_sub_data_items x sdis) ≡ ok bs
    → (size sdis ≤ 255)
      × ((sub : List ℕ) × (serialize_sub_data_items cfg sdis ≡ ok sub)
          × (bs ≡ serialize_uint 2 x ++ (size sdis ∷ 0 ∷ sub)))
unfolding serialize_value
serialize_u16_sub-eq_ok cfg x sdis {bs} h e =
    let count : num_sdis sdis ≡ size sdis = omega arith in
    let e1 = rw count at e in
    elim (Bool-cases (leb (size sdis) 255)) [
      | inl few ↦
          let e2 = rw few at e1 in
          let (sub, put, shape) = >>=-eq-ok (serialize_sub_data_items cfg sdis) _ e2 in
          let same : serialize_uint 2 x ++ (size sdis ∷ 0 ∷ sub) ≡ bs = cc in
          (ground arith, (sub, put, sym same))
      | inr many ↦ let e2 = rw many at e1 in absurd (cc e2)
    ]

length-to_list : (sdis : SubDataItems) → length (to_list sdis) ≡ size sdis
length-to_list nil = refl
length-to_list (cons id value sdis) = ap suc (length-to_list sdis)

-- Reading one sub data item and then the others.
deserialize_all_cons :
    (cfg : ProtocolConfig) (parent info : DataItemInfo) (id : ℕ) (value : DataItemValue)
    (sdis : List DataItem) (fuel rounds : ℕ) (valbuf one rest : List ℕ)
    → HasFieldSizes cfg
    → id < 256 ^ 4
    → length (one ++ rest) < 2 ^ 64
    → length (one ++ rest) ≤ fuel
    → length (one ++ rest) ≤ rounds
    → get_data_item_info cfg id (some parent) ≡ ok info
    → info.value_type ≡ get_type value
    → serialize_header cfg id valbuf ≡ ok one
    → ((f : ℕ)
        → length valbuf ≤ f
        → deserialize_as cfg (deserialize f cfg (some info)) (get_type value) valbuf
          ≡ ok (value, []))
    → ((r : ℕ)
        → length rest ≤ r
        → deserialize_all (deserialize fuel cfg (some parent)) r rest ≡ ok sdis)
    → deserialize_all (deserialize fuel cfg (some parent)) rounds (one ++ rest)
      ≡ ok (record { id = id; value = value } ∷ sdis)
deserialize_all_cons cfg parent info id value sdis fuel rounds valbuf one rest sizes hi hl hf hr
      look typed put ih more =
    go fuel rounds hf hr more
  where
    total : length (one ++ rest) ≡ length one + length rest
    total = length-append one rest

    shorter : length valbuf < length one
    shorter =
        length-serialize_header cfg id valbuf sizes hi
          (omega (arith, total, length-valbuf-le cfg id valbuf put)) put

    go :
        (f r : ℕ)
        → length (one ++ rest) ≤ f
        → length (one ++ rest) ≤ r
        → ((r' : ℕ)
            → length rest ≤ r'
            → deserialize_all (deserialize f cfg (some parent)) r' rest ≡ ok sdis)
        → deserialize_all (deserialize f cfg (some parent)) r (one ++ rest)
          ≡ ok (record { id = id; value = value } ∷ sdis)
    go zero r hf hr m = absurd (omega (arith, total, shorter))
    go (suc f) zero hf hr m = absurd (omega (arith, total, shorter))
    go (suc f) (suc r) hf hr m =
        deserialize_all_step _ r one rest _ sdis (omega (arith, shorter))
          (deserialize-serialize_header cfg f (some parent) info id value valbuf one rest hi
            (omega (arith, total, shorter)) look typed put (ih f (omega (arith, total, shorter))))
          (m r (omega (arith, total, shorter)))

mutual
  unfolding serialize_value deserialize_as get_type

  deserialize_as-serialize_value :
      (cfg : ProtocolConfig) (info : DataItemInfo) (value : DataItemValue) (fuel : ℕ) {bs : List ℕ}
      → HasFieldSizes cfg
      → IsInRange cfg info value
      → serialize_value cfg value ≡ ok bs
      → length bs ≤ fuel
      → length bs < 2 ^ 64
      → deserialize_as cfg (deserialize fuel cfg (some info)) (get_type value) bs ≡ ok (value, [])
  deserialize_as-serialize_value cfg info no_value fuel {bs} sizes h e hf hl =
      let e' : [] ≡ bs = cc in rw (← e')
  deserialize_as-serialize_value cfg info (u8 x) fuel {bs} sizes h e hf hl =
      let e' : serialize_uint 1 x ≡ bs = cc in rw (← e', serialize_uint-one x h, deserialize_u8_lem)
  deserialize_as-serialize_value cfg info (u16 x) fuel {bs} sizes h e hf hl =
      let e' : serialize_uint 2 x ≡ bs = cc in rw (← e', deserialize_uint-only 2 x h)
  deserialize_as-serialize_value cfg info (u32 x) fuel {bs} sizes h e hf hl =
      let e' : serialize_uint 4 x ≡ bs = cc in rw (← e', deserialize_uint-only 4 x h)
  deserialize_as-serialize_value cfg info (u64 x) fuel {bs} sizes h e hf hl =
      let e' : serialize_uint 8 x ≡ bs = cc in rw (← e', deserialize_uint-only 8 x h)
  deserialize_as-serialize_value cfg info (v_u8 xs) fuel {bs} sizes h e hf hl =
      let e' : serialize_vector 1 xs ≡ bs = cc in
      rw (
        ← e',
        deserialize_all-serialize_vector deserialize_u8 1 (length (serialize_vector 1 xs)) xs
            (omega arith) deserialize_u8-serialize_uint h (omega arith),
      )
  deserialize_as-serialize_value cfg info (v_u32 xs) fuel {bs} sizes h e hf hl =
      let e' : serialize_vector 4 xs ≡ bs = cc in
      rw (
        ← e',
        deserialize_all-serialize_vector (deserialize_uint 4) 4 (length (serialize_vector 4 xs)) xs
            (omega arith) (deserialize_value-serialize_value 4) h (omega arith),
      )
  deserialize_as-serialize_value cfg info (a2_u16 x y) fuel {bs} sizes h e hf hl =
      let e' : serialize_uint 2 x ++ serialize_uint 2 y ≡ bs = cc in
      rw (
        ← e',
        deserialize_value-serialize_value 2 x (serialize_uint 2 y) h.0,
        deserialize_uint-only 2 y h.1,
      )
  deserialize_as-serialize_value cfg info (string s) fuel {bs} sizes h e hf hl =
      let e' : s ≡ bs = cc in rw (← e')
  deserialize_as-serialize_value cfg info (dlepmac mac) fuel {bs} sizes h e hf hl =
      let e' : mac ≡ bs = cc in rw (← e')
  deserialize_as-serialize_value cfg info (u8_string x s) fuel {bs} sizes h e hf hl =
      let e' : serialize_uint 1 x ++ s ≡ bs = cc in rw (← e', deserialize_u8-serialize_uint x s h.0)
  deserialize_as-serialize_value cfg info (u8_ipv4 x ip) fuel {bs} sizes h e hf hl =
      let e' : x ∷ ip ≡ bs = cc in
      rw (← e', deserialize_u8_lem, rw append-nil at (deserialize_ip_lem 4 ip [] h.1.0))
  deserialize_as-serialize_value cfg info (u8_ipv6 x ip) fuel {bs} sizes h e hf hl =
      let e' : x ∷ ip ≡ bs = cc in
      rw (← e', deserialize_u8_lem, rw append-nil at (deserialize_ip_lem 16 ip [] h.1.0))
  deserialize_as-serialize_value cfg info (u16_vu8 x xs) fuel {bs} sizes h e hf hl =
      let (count, shape) = serialize_u16_vu8-eq_ok x xs h.2 e in
      rw (
        shape,
        deserialize_value-serialize_value 2 x (length xs ∷ xs) h.0,
        deserialize_u8_lem,
        eq→== (length xs) (length xs) refl,
      )
  deserialize_as-serialize_value cfg info (v_extid xs) fuel {bs} sizes h e hf hl =
      let n = cfg.extension_id_size in
      let (shape, fits) = serialize_v_extid-eq_ok n [] xs h e in
      rw (
        shape,
        deserialize_all-extid_bytes n (length (extid_bytes n xs)) xs sizes.extension h fits
            (omega arith),
      )
  deserialize_as-serialize_value cfg info (u8_ipv4_u16 x ip port) fuel {bs} sizes h e hf hl =
      let e' : serialize_ip_port x ip port ≡ bs = cc in
      rw (
        ← e',
        serialize_ip_port-port_bytes x ip port,
        deserialize_u8_lem,
        deserialize_ip_lem 4 ip (port_bytes port) h.1.0,
        deserialize_port-port_bytes port h.2,
      )
  deserialize_as-serialize_value cfg info (u8_ipv6_u16 x ip port) fuel {bs} sizes h e hf hl =
      let e' : serialize_ip_port x ip port ≡ bs = cc in
      rw (
        ← e',
        serialize_ip_port-port_bytes x ip port,
        deserialize_u8_lem,
        deserialize_ip_lem 16 ip (port_bytes port) h.1.0,
        deserialize_port-port_bytes port h.2,
      )
  deserialize_as-serialize_value cfg info (u8_ipv4_u8 x ip mask) fuel {bs} sizes h e hf hl =
      let e' : x ∷ (ip ++ (mask ∷ [])) ≡ bs = cc in
      rw (← e', deserialize_u8_lem, deserialize_ip_lem 4 ip (mask ∷ []) h.1.0, deserialize_u8_lem)
  deserialize_as-serialize_value cfg info (u8_ipv6_u8 x ip mask) fuel {bs} sizes h e hf hl =
      let e' : x ∷ (ip ++ (mask ∷ [])) ≡ bs = cc in
      rw (← e', deserialize_u8_lem, deserialize_ip_lem 16 ip (mask ∷ []) h.1.0, deserialize_u8_lem)
  deserialize_as-serialize_value cfg info (u8_u8 x y) fuel {bs} sizes h e hf hl =
      let e' : serialize_uint 1 x ++ serialize_uint 1 y ≡ bs = cc in
      rw (
        ← e',
        deserialize_u8-serialize_uint x (serialize_uint 1 y) h.0,
        serialize_uint-one y h.1,
        deserialize_u8_lem,
      )
  deserialize_as-serialize_value cfg info (u64_u64 x y) fuel {bs} sizes h e hf hl =
      let e' : serialize_uint 8 x ++ serialize_uint 8 y ≡ bs = cc in
      rw (
        ← e',
        deserialize_value-serialize_value 8 x (serialize_uint 8 y) h.0,
        deserialize_uint-only 8 y h.1,
      )
  deserialize_as-serialize_value cfg info (sub_data_items sdis) fuel {bs} sizes h e hf hl = rw (
    deserialize_all-serialize_sub_data_items cfg info sdis fuel (length bs) sizes h e hf hl
        (omega arith),
    of_list-to_list sdis,
  )
  deserialize_as-serialize_value cfg info (u16_sub_data_items x sdis) fuel {bs} sizes h e hf hl =
      let (few, (sub, put, shape)) = serialize_u16_sub-eq_ok cfg x sdis h.1 e in
      let longer = length-append (serialize_uint 2 x) (size sdis ∷ 0 ∷ sub) in
      rw (
        shape,
        deserialize_value-serialize_value 2 x (size sdis ∷ 0 ∷ sub) h.0,
        deserialize_u8_lem (size sdis),
        deserialize_u8_lem 0,
        deserialize_all-serialize_sub_data_items cfg info sdis fuel (length sub) sizes h.2 put
            (omega (arith, ap length shape)) (omega (arith, ap length shape)) (omega arith),
        eq→== (length (to_list sdis)) (size sdis) (length-to_list sdis),
        of_list-to_list sdis,
      )

  deserialize_all-serialize_sub_data_items :
      (cfg : ProtocolConfig) (info : DataItemInfo) (sdis : SubDataItems) (fuel rounds : ℕ)
      {bs : List ℕ}
      → HasFieldSizes cfg
      → AreWellTyped cfg info sdis
      → serialize_sub_data_items cfg sdis ≡ ok bs
      → length bs ≤ fuel
      → length bs < 2 ^ 64
      → length bs ≤ rounds
      → deserialize_all (deserialize fuel cfg (some info)) rounds bs ≡ ok (to_list sdis)
  deserialize_all-serialize_sub_data_items cfg info nil fuel rounds {bs} sizes h e hf hl hr =
      let e' : [] ≡ bs = cc in
      rw (← e') (deserialize_all_empty (deserialize fuel cfg (some info)) rounds)
  deserialize_all-serialize_sub_data_items cfg info (cons id value sdis) fuel rounds {bs} sizes h e
        hf hl hr =
      let (valbuf, put1, e1) = >>=-eq-ok (serialize_value cfg value) _ e in
      let (one, put2, e2) = >>=-eq-ok (serialize_header cfg id valbuf) _ e1 in
      let (rest, put3, e3) = >>=-eq-ok (serialize_sub_data_items cfg sdis) _ e2 in
      let same : one ++ rest ≡ bs = cc in
      let total = length-append one rest in
      let size-le = ap length same in
      let small = length-valbuf-le cfg id valbuf put2 in
      let (hid, (info', look, typed, range)) = h.0 in
      rw (← same) (
        deserialize_all_cons cfg info info' id value (to_list sdis) fuel rounds valbuf one rest
          sizes hid (omega arith) (omega arith) (omega arith) look typed put2
          (λ f hf'.
            deserialize_as-serialize_value cfg info' value f sizes range put1 hf' (omega arith))
          (λ r hr'.
            deserialize_all-serialize_sub_data_items cfg info sdis fuel r sizes h.1 put3
              (omega arith) (omega arith) hr'))

-- A data item that the configuration allows in its scope is read back from the bytes that
-- serializing it gives, whatever follows them: the same id and value come out, and exactly what
-- follows is left. Conditions: the sizes of the configured fields are not 0, serializing succeeds,
-- and the bytes are fewer than 2^64; fuel of their number is enough.
pub deserialize-serialize :
    (cfg : ProtocolConfig) (parent : Option DataItemInfo) (di : DataItem) (fuel : ℕ)
    (bs rest : List ℕ)
    → HasFieldSizes cfg
    → IsWellTyped cfg parent di
    → serialize cfg di ≡ ok bs
    → length bs < 2 ^ 64
    → length bs ≤ fuel
    → deserialize fuel cfg parent (bs ++ rest) ≡ ok (di, rest)
unfolding serialize
deserialize-serialize cfg parent di fuel bs rest sizes h e hl hf =
    let (valbuf, put1, put2) = >>=-eq-ok (serialize_value cfg di.value) _ e in
    let small = length-valbuf-le cfg di.id valbuf put2 in
    let (hid, (info, look, typed, range)) = h in
    let shorter = length-serialize_header cfg di.id valbuf sizes hid (omega arith) put2 in
    let some_fuel : fuel ≡ suc (fuel - 1) = omega arith in
    rw some_fuel (
      deserialize-serialize_header cfg (fuel - 1) parent info di.id di.value valbuf bs rest hid
        (omega arith) look typed put2
        (deserialize_as-serialize_value cfg info di.value (fuel - 1) sizes range put1 (omega arith)
          (omega arith)))
