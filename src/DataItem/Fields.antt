-- ===== src/DataItem/Fields.antt =====
-- Reading back the parts of a value: integers, vectors, addresses, ports and the header.
use ll_dlep.Common.{
  ℕ, zero, suc, ◌/◌, ◌%◌, ◌^◌, ◌≤◌, ◌<◌, ◌≡◌, refl, sym, ap, ◌∙◌, inl, inr, List, [], ◌∷◌, ◌++◌,
  append-nil, append_assoc, arith, ◌==◌, if◌then◌else◌, ==→eq, Bool-cases, length, length-append,
  Result, ok, >>=-eq-ok,
}
use ll_dlep.Serialize.{
  put_bytes, serialize_value as serialize_uint, serialize_field, deserialize_u8,
  deserialize_value as deserialize_uint, deserialize_field,
}
use ll_dlep.Serialize.RoundTrip.{
  deserialize_value-serialize_value, deserialize_field-put_bytes, serialize_field-eq_ok,
  length-put_bytes,
}
use ll_dlep.ProtocolConfig.{ProtocolConfig}
use ll_dlep.DataItem.Wire.{
  serialize_vector, serialize_v_extid, serialize_ip_port, serialize_header, serialize_u16_vu8,
  deserialize_ip, deserialize_all, deserialize_port,
}
use ll_dlep.DataItem.WellTyped.{AllBelow}

put_bytes-one : (x : ℕ) → x < 256 → put_bytes x 1 ≡ x ∷ []
unfolding put_bytes
put_bytes-one x h = let e : x / 256 ^ 0 % 256 ≡ x = omega arith in rw e

pub serialize_uint-one : (x : ℕ) → x < 256 → serialize_uint 1 x ≡ x ∷ []
unfolding serialize_uint put_bytes
serialize_uint-one x h = let e : x / 256 ^ 0 % 256 ≡ x = omega arith in rw e

pub length-serialize_uint : (w x : ℕ) → length (serialize_uint w x) ≡ w
unfolding serialize_uint
length-serialize_uint w x = length-put_bytes x w

-- One round of the loop over the bytes of a data item.
pub deserialize_all_step {ℓ} :
    {A : Type ℓ} (read : List ℕ → Result (A × List ℕ)) (fuel : ℕ) (one rest : List ℕ) (x : A)
    (xs : List A)
    → 0 < length one
    → read (one ++ rest) ≡ ok (x, rest)
    → deserialize_all read fuel rest ≡ ok xs
    → deserialize_all read (suc fuel) (one ++ rest) ≡ ok (x ∷ xs)
unfolding deserialize_all
deserialize_all_step read fuel [] rest x xs h e f = absurd (omega arith)
deserialize_all_step read fuel (b ∷ one) rest x xs h e f = rw (e, f)

pub deserialize_all_empty {ℓ} :
    {A : Type ℓ} (read : List ℕ → Result (A × List ℕ)) (fuel : ℕ)
    → deserialize_all read fuel [] ≡ ok []
unfolding deserialize_all
deserialize_all_empty read zero = refl
deserialize_all_empty read (suc fuel) = refl

-- Reading a vector back with a reader that reads back each element.
pub deserialize_all-serialize_vector :
    (read : List ℕ → Result (ℕ × List ℕ)) (w fuel : ℕ) (xs : List ℕ)
    → 0 < w
    → ((x : ℕ) (rest : List ℕ) → x < 256 ^ w → read (serialize_uint w x ++ rest) ≡ ok (x, rest))
    → AllBelow (256 ^ w) xs
    → length (serialize_vector w xs) ≤ fuel
    → deserialize_all read fuel (serialize_vector w xs) ≡ ok xs
unfolding serialize_vector
deserialize_all-serialize_vector read w zero [] hw hr hx hf = deserialize_all_empty _ _
deserialize_all-serialize_vector read w (suc fuel) [] hw hr hx hf = deserialize_all_empty _ _
deserialize_all-serialize_vector read w zero (x ∷ xs) hw hr hx hf = absurd (
    omega (
      arith,
      length-append (serialize_uint w x) (serialize_vector w xs),
      length-serialize_uint w x,
    ))
deserialize_all-serialize_vector read w (suc fuel) (x ∷ xs) hw hr hx hf =
    let shorter : length (serialize_vector w xs) ≤ fuel = omega (
      arith,
      length-append (serialize_uint w x) (serialize_vector w xs),
      length-serialize_uint w x,
    ) in
    deserialize_all_step read fuel (serialize_uint w x) (serialize_vector w xs) x xs
      (omega (arith, length-serialize_uint w x)) (hr x (serialize_vector w xs) hx.0)
      (deserialize_all-serialize_vector read w fuel xs hw hr hx.1 shorter)

pub deserialize_u8-serialize_uint :
    (x : ℕ) (rest : List ℕ) → x < 256 → deserialize_u8 (serialize_uint 1 x ++ rest) ≡ ok (x, rest)
unfolding deserialize_u8
deserialize_u8-serialize_uint x rest h = rw (serialize_uint-one x h)

pub deserialize_u8_lem : (x : ℕ) (rest : List ℕ) → deserialize_u8 (x ∷ rest) ≡ ok (x, rest)
unfolding deserialize_u8
deserialize_u8_lem x rest = refl

pub deserialize_ip_lem :
    (n : ℕ) (ip rest : List ℕ) → length ip ≡ n → deserialize_ip n (ip ++ rest) ≡ ok (ip, rest)
unfolding deserialize_ip
deserialize_ip_lem zero [] rest h = refl
deserialize_ip_lem zero (b ∷ ip) rest h = absurd (omega arith)
deserialize_ip_lem (suc n) [] rest h = absurd (omega arith)
deserialize_ip_lem (suc n) (b ∷ ip) rest h = rw (deserialize_ip_lem n ip rest (omega arith))

-- The port of an address comes back, also when it was left out.
abbrev pub port_bytes : ℕ → List ℕ
port_bytes port = if port == 0 then [] else serialize_uint 2 port

pub serialize_ip_port-port_bytes :
    (x : ℕ) (ip : List ℕ) (port : ℕ) → serialize_ip_port x ip port ≡ x ∷ (ip ++ port_bytes port)
unfolding serialize_ip_port
serialize_ip_port-port_bytes x ip port = elim (Bool-cases (port == 0)) [
  | inl e ↦ rw e (sym (ap (◌∷◌ x) (append-nil ip)))
  | inr e ↦ rw e
]

deserialize_port_nonempty :
    (it : List ℕ) → 0 < length it → deserialize_port it ≡ deserialize_uint 2 it
unfolding deserialize_port
deserialize_port_nonempty [] h = absurd (omega arith)
deserialize_port_nonempty (b ∷ it) h = refl

pub deserialize_uint-only :
    (w x : ℕ) → x < 256 ^ w → deserialize_uint w (serialize_uint w x) ≡ ok (x, [])
deserialize_uint-only w x h =
    rw (append-nil (serialize_uint w x)) at (deserialize_value-serialize_value w x [] h)

pub deserialize_port-port_bytes :
    (port : ℕ) → port < 256 ^ 2 → deserialize_port (port_bytes port) ≡ ok (port, [])
unfolding deserialize_port
deserialize_port-port_bytes port h = elim (Bool-cases (port == 0)) [
  | inl e ↦ rw (e, ==→eq port 0 e)
  | inr e ↦ rw e (
      deserialize_port_nonempty (serialize_uint 2 port)
        (omega (arith, length-serialize_uint 2 port))
      ∙ deserialize_uint-only 2 port h)
]

-- The bytes of the extension ids.
abbrev pub extid_bytes : ℕ → List ℕ → List ℕ
extid_bytes n [] = []
extid_bytes n (x ∷ xs) = put_bytes x n ++ extid_bytes n xs

pub serialize_v_extid-eq_ok :
    (n : ℕ) (buf xs : List ℕ) {bs : List ℕ}
    → AllBelow (256 ^ 4) xs
    → serialize_v_extid n buf xs ≡ ok bs
    → (bs ≡ buf ++ extid_bytes n xs) × AllBelow (256 ^ n) xs
unfolding serialize_v_extid
serialize_v_extid-eq_ok n buf [] {bs} h e =
    let e' : buf ≡ bs = cc in (sym e' ∙ sym (append-nil buf), tt)
serialize_v_extid-eq_ok n buf (x ∷ xs) {bs} h e =
    let (buf', put, more) = >>=-eq-ok (serialize_field 4 x n buf) _ e in
    let (fits, shape) = serialize_field-eq_ok 4 x n buf buf' h.0 put in
    let (tail, rest) = serialize_v_extid-eq_ok n buf' xs h.1 more in
    (rw (tail, shape, append_assoc buf (put_bytes x n) (extid_bytes n xs)), (fits, rest))

pub deserialize_all-extid_bytes :
    (n fuel : ℕ) (xs : List ℕ)
    → 0 < n
    → AllBelow (256 ^ 4) xs
    → AllBelow (256 ^ n) xs
    → length (extid_bytes n xs) ≤ fuel
    → deserialize_all (deserialize_field 4 n) fuel (extid_bytes n xs) ≡ ok xs
deserialize_all-extid_bytes n zero [] hn h4 hx hf = deserialize_all_empty _ _
deserialize_all-extid_bytes n (suc fuel) [] hn h4 hx hf = deserialize_all_empty _ _
deserialize_all-extid_bytes n zero (x ∷ xs) hn h4 hx hf =
    absurd (omega (arith, length-append (put_bytes x n) (extid_bytes n xs), length-put_bytes x n))
deserialize_all-extid_bytes n (suc fuel) (x ∷ xs) hn h4 hx hf =
    let sum = length-append (put_bytes x n) (extid_bytes n xs) in
    let one = length-put_bytes x n in
    deserialize_all_step (deserialize_field 4 n) fuel (put_bytes x n) (extid_bytes n xs) x xs
      (omega arith) (deserialize_field-put_bytes 4 x n (extid_bytes n xs) h4.0 (omega arith) hx.0)
      (deserialize_all-extid_bytes n fuel xs hn h4.1 hx.1 (omega arith))

-- The count byte and the elements behind a u16.
pub serialize_u16_vu8-eq_ok :
    (x : ℕ) (xs : List ℕ) {bs : List ℕ}
    → length xs < 2 ^ 32
    → serialize_u16_vu8 x xs ≡ ok bs
    → (length xs < 256) × (bs ≡ serialize_uint 2 x ++ (length xs ∷ xs))
unfolding serialize_u16_vu8
serialize_u16_vu8-eq_ok x xs {bs} h e =
    let count : length xs % 2 ^ 32 ≡ length xs = omega arith in
    let e' = rw count at e in
    let (buf, put, more) = >>=-eq-ok (serialize_field 4 (length xs) 1 (serialize_uint 2 x)) _ e' in
    let (fits, shape) =
      serialize_field-eq_ok 4 (length xs) 1 (serialize_uint 2 x) buf (omega arith) put in
    let fits' : length xs < 256 = omega arith in
    let same : buf ++ xs ≡ bs = cc in
    (
      fits',
      sym same
          ∙ rw (shape, put_bytes-one (length xs) fits')
              (append_assoc (serialize_uint 2 x) (length xs ∷ []) xs),
    )

-- The header of a data item, and that reading it back leaves the value.
pub serialize_header-eq_ok :
    (cfg : ProtocolConfig) (id : ℕ) (valbuf : List ℕ) {bs : List ℕ}
    → id < 256 ^ 4
    → length valbuf < 2 ^ 64
    → serialize_header cfg id valbuf ≡ ok bs
    → (id < 256 ^ cfg.data_item_id_size)
      × (length valbuf < 256 ^ cfg.data_item_length_size)
      × (bs
          ≡ put_bytes id cfg.data_item_id_size
            ++ (put_bytes (length valbuf) cfg.data_item_length_size ++ valbuf))
unfolding serialize_header
serialize_header-eq_ok cfg id valbuf {bs} hi hv e =
    let (b1, put1, e1) = >>=-eq-ok (serialize_field 4 id cfg.data_item_id_size []) _ e in
    let (fit1, shape1) = serialize_field-eq_ok 4 id cfg.data_item_id_size [] b1 hi put1 in
    let (b2, put2, e2) =
      >>=-eq-ok (serialize_field 8 (length valbuf) cfg.data_item_length_size b1) _ e1 in
    let (fit2, shape2) =
      serialize_field-eq_ok 8 (length valbuf) cfg.data_item_length_size b1 b2 hv put2 in
    let same : b2 ++ valbuf ≡ bs = cc in
    (fit1, fit2, sym same ∙ rw (shape2, shape1) (append_assoc _ _ valbuf))
