-- ===== src/DataItem/Wire.antt =====
-- DataItem.cpp: DataItem::serialize() and DataItem::deserialize(). Each operator() of
-- DataItemSerializeVisitor is a clause of `serialize_value`, and each case of the switch in
-- DataItem::deserialize() is a clause of `deserialize_as`.
use ll_dlep.Common.{
  ℕ, zero, suc, ◌%◌, ◌^◌, Option, some, List, [], ◌∷◌, ◌++◌, leb, ◌==◌, if◌then◌else◌, length, take,
  drop, length_error, out_of_range, Result, ok, err, stuck, ◌>>=◌, ◌>>◌, guard,
}
use ll_dlep.Serialize.{
  serialize_value as serialize_uint, serialize_field, deserialize_u8,
  deserialize_value as deserialize_uint, deserialize_field,
}
use ll_dlep.ProtocolConfig.{ProtocolConfig, get_data_item_info}
use ll_dlep.DataItem.Types.{
  DataItemValueType, DataItemInfo, DataItemValue, SubDataItems, DataItem, nil, cons, of_list, blank,
  div_u8, div_u16, div_u32, div_u64, div_v_u8, div_v_u32, div_a2_u16, div_string, div_dlepmac,
  div_u8_string, div_u8_ipv4, div_u8_ipv6, div_u16_vu8, div_v_extid, div_u8_ipv4_u16,
  div_u8_ipv6_u16, div_u8_ipv4_u8, div_u8_ipv6_u8, div_u8_u8, div_u64_u64, div_sub_data_items,
  div_u16_sub_data_items, no_value, u8, u16, u32, u64, v_u8, v_u32, a2_u16, string, dlepmac,
  u8_string, u8_ipv4, u8_ipv6, u16_vu8, v_extid, u8_ipv4_u16, u8_ipv6_u16, u8_ipv4_u8, u8_ipv6_u8,
  u8_u8, u64_u64, sub_data_items, u16_sub_data_items,
}

-- serialize() of each element of a vector of integers of `w` bytes.
unfoldable pub serialize_vector : ℕ → List ℕ → List ℕ
serialize_vector w [] = []
serialize_vector w (x ∷ xs) = serialize_uint w x ++ serialize_vector w xs

-- Extension ids take the configured size.
unfoldable pub serialize_v_extid : ℕ → List ℕ → List ℕ → Result (List ℕ)
serialize_v_extid size buf [] = ok buf
serialize_v_extid size buf (x ∷ xs) = do
  buf' ← serialize_field 4 x size buf
  serialize_v_extid size buf' xs

-- The number of elements of the vector goes into one byte.
unfoldable pub serialize_u16_vu8 : ℕ → List ℕ → Result (List ℕ)
serialize_u16_vu8 x xs = do
  buf ← serialize_field 4 (length xs % 2 ^ 32) 1 (serialize_uint 2 x)
  ok (buf ++ xs)

-- An IP address with a port, which is left out when it is 0.
unfoldable pub serialize_ip_port : ℕ → List ℕ → ℕ → List ℕ
serialize_ip_port x ip port =
    let buf = x ∷ ip in if port == 0 then buf else buf ++ serialize_uint 2 port

module _ (protocfg : ProtocolConfig) where
  -- DataItem::serialize() once the value is serialized: the header needs the value's length.
  unfoldable pub serialize_header : ℕ → List ℕ → Result (List ℕ)
  serialize_header id valbuf = do
    dibuf ← serialize_field 4 id protocfg.data_item_id_size []
    dibuf' ← serialize_field 8 (length valbuf) protocfg.data_item_length_size dibuf
    ok (dibuf' ++ valbuf)

-- sub_data_items.size().
abbrev pub size : SubDataItems → ℕ
size nil = 0
size (cons id value sdis) = suc (size sdis)

-- unsigned int num_sdis = operand.sub_data_items.size().
abbrev pub num_sdis : SubDataItems → ℕ
num_sdis sdis = size sdis % 2 ^ 32

unfoldable mutual
  -- DataItemSerializeVisitor.
  pub serialize_value : ProtocolConfig → DataItemValue → Result (List ℕ)
  serialize_value cfg no_value = ok []
  serialize_value cfg (u8 x) = ok (serialize_uint 1 x)
  serialize_value cfg (u16 x) = ok (serialize_uint 2 x)
  serialize_value cfg (u32 x) = ok (serialize_uint 4 x)
  serialize_value cfg (u64 x) = ok (serialize_uint 8 x)
  serialize_value cfg (v_u8 xs) = ok (serialize_vector 1 xs)
  serialize_value cfg (v_u32 xs) = ok (serialize_vector 4 xs)
  serialize_value cfg (a2_u16 x y) = ok (serialize_uint 2 x ++ serialize_uint 2 y)
  serialize_value cfg (string s) = ok s
  serialize_value cfg (dlepmac mac) = ok mac
  serialize_value cfg (u8_string x s) = ok (serialize_uint 1 x ++ s)
  serialize_value cfg (u8_ipv4 x ip) = ok (x ∷ ip)
  serialize_value cfg (u8_ipv6 x ip) = ok (x ∷ ip)
  serialize_value cfg (u16_vu8 x xs) = serialize_u16_vu8 x xs
  serialize_value cfg (v_extid xs) = serialize_v_extid cfg.extension_id_size [] xs
  serialize_value cfg (u8_ipv4_u16 x ip port) = ok (serialize_ip_port x ip port)
  serialize_value cfg (u8_ipv6_u16 x ip port) = ok (serialize_ip_port x ip port)
  serialize_value cfg (u8_ipv4_u8 x ip mask) = ok ((x ∷ ip) ++ (mask ∷ []))
  serialize_value cfg (u8_ipv6_u8 x ip mask) = ok ((x ∷ ip) ++ (mask ∷ []))
  serialize_value cfg (u8_u8 x y) = ok (serialize_uint 1 x ++ serialize_uint 1 y)
  serialize_value cfg (u64_u64 x y) = ok (serialize_uint 8 x ++ serialize_uint 8 y)
  serialize_value cfg (sub_data_items sdis) = serialize_sub_data_items cfg sdis
  serialize_value cfg (u16_sub_data_items x sdis) = do
    guard (leb (num_sdis sdis) 255) out_of_range
    sub ← serialize_sub_data_items cfg sdis
    ok (serialize_uint 2 x ++ (num_sdis sdis ∷ 0 ∷ sub))

  pub serialize_sub_data_items : ProtocolConfig → SubDataItems → Result (List ℕ)
  serialize_sub_data_items cfg nil = ok []
  serialize_sub_data_items cfg (cons id value sdis) = do
    valbuf ← serialize_value cfg value
    one ← serialize_header cfg id valbuf
    rest ← serialize_sub_data_items cfg sdis
    ok (one ++ rest)

-- DataItem::serialize().
unfoldable pub serialize : ProtocolConfig → DataItem → Result (List ℕ)
serialize cfg di = do valbuf ← serialize_value cfg di.value; serialize_header cfg di.id valbuf

-- deserialize_ipv4() and deserialize_ipv6(): the next `n` bytes.
unfoldable pub deserialize_ip : ℕ → List ℕ → Result (List ℕ × List ℕ)
deserialize_ip zero it = ok ([], it)
deserialize_ip (suc n) [] = err length_error
deserialize_ip (suc n) (b ∷ it) = do (ip, it') ← deserialize_ip n it; ok (b ∷ ip, it')

-- `while (it < di_end)`: read values until the bytes are used up. A round that takes a byte at least
-- makes the number of bytes enough fuel.
unfoldable pub deserialize_all {ℓ} :
    {A : Type ℓ} → (List ℕ → Result (A × List ℕ)) → ℕ → List ℕ → Result (List A)
deserialize_all read fuel [] = ok []
deserialize_all read zero (b ∷ it) = stuck
deserialize_all read (suc fuel) (b ∷ it) = do
  (x, it') ← read (b ∷ it)
  xs ← deserialize_all read fuel it'
  ok (x ∷ xs)

-- The port is optional; if there are more bytes, get it.
unfoldable pub deserialize_port : List ℕ → Result (ℕ × List ℕ)
deserialize_port [] = ok (0, [])
deserialize_port (b ∷ it) = deserialize_uint 2 (b ∷ it)

-- The switch in DataItem::deserialize(), over the bytes up to `di_end`. `read_sdi` is the call
-- sdi.deserialize(it, di_end, di_info) of deserialize_sub_data_items().
unfoldable pub deserialize_as :
    ProtocolConfig
    → (List ℕ → Result (DataItem × List ℕ))
    → DataItemValueType
    → List ℕ
    → Result (DataItemValue × List ℕ)
deserialize_as cfg read_sdi blank it = ok (no_value, it)
deserialize_as cfg read_sdi div_u8 it = do (x, it') ← deserialize_u8 it; ok (u8 x, it')
deserialize_as cfg read_sdi div_u16 it = do (x, it') ← deserialize_uint 2 it; ok (u16 x, it')
deserialize_as cfg read_sdi div_u32 it = do (x, it') ← deserialize_uint 4 it; ok (u32 x, it')
deserialize_as cfg read_sdi div_u64 it = do (x, it') ← deserialize_uint 8 it; ok (u64 x, it')
deserialize_as cfg read_sdi div_v_u8 it = do
  xs ← deserialize_all deserialize_u8 (length it) it
  ok (v_u8 xs, [])
deserialize_as cfg read_sdi div_v_u32 it = do
  xs ← deserialize_all (deserialize_uint 4) (length it) it
  ok (v_u32 xs, [])
deserialize_as cfg read_sdi div_a2_u16 it = do
  (x, it') ← deserialize_uint 2 it
  (y, left) ← deserialize_uint 2 it'
  ok (a2_u16 x y, left)
deserialize_as cfg read_sdi div_string it = ok (string it, [])
deserialize_as cfg read_sdi div_dlepmac it = ok (dlepmac it, [])
deserialize_as cfg read_sdi div_u8_string it = do
  (x, it') ← deserialize_u8 it
  ok (u8_string x it', [])
deserialize_as cfg read_sdi div_u8_ipv4 it = do
  (x, it') ← deserialize_u8 it
  (ip, left) ← deserialize_ip 4 it'
  ok (u8_ipv4 x ip, left)
deserialize_as cfg read_sdi div_u8_ipv6 it = do
  (x, it') ← deserialize_u8 it
  (ip, left) ← deserialize_ip 16 it'
  ok (u8_ipv6 x ip, left)
deserialize_as cfg read_sdi div_u16_vu8 it = do
  (x, it') ← deserialize_uint 2 it
  (sz, xs) ← deserialize_u8 it'
  guard (length xs == sz) length_error
  ok (u16_vu8 x xs, [])
deserialize_as cfg read_sdi div_v_extid it = do
  xs ← deserialize_all (deserialize_field 4 cfg.extension_id_size) (length it) it
  ok (v_extid xs, [])
deserialize_as cfg read_sdi div_u8_ipv4_u16 it = do
  (x, it') ← deserialize_u8 it
  (ip, it'') ← deserialize_ip 4 it'
  (port, left) ← deserialize_port it''
  ok (u8_ipv4_u16 x ip port, left)
deserialize_as cfg read_sdi div_u8_ipv6_u16 it = do
  (x, it') ← deserialize_u8 it
  (ip, it'') ← deserialize_ip 16 it'
  (port, left) ← deserialize_port it''
  ok (u8_ipv6_u16 x ip port, left)
deserialize_as cfg read_sdi div_u8_ipv4_u8 it = do
  (x, it') ← deserialize_u8 it
  (ip, it'') ← deserialize_ip 4 it'
  (mask, left) ← deserialize_u8 it''
  ok (u8_ipv4_u8 x ip mask, left)
deserialize_as cfg read_sdi div_u8_ipv6_u8 it = do
  (x, it') ← deserialize_u8 it
  (ip, it'') ← deserialize_ip 16 it'
  (mask, left) ← deserialize_u8 it''
  ok (u8_ipv6_u8 x ip mask, left)
deserialize_as cfg read_sdi div_u8_u8 it = do
  (x, it') ← deserialize_u8 it
  (y, left) ← deserialize_u8 it'
  ok (u8_u8 x y, left)
deserialize_as cfg read_sdi div_u64_u64 it = do
  (x, it') ← deserialize_uint 8 it
  (y, left) ← deserialize_uint 8 it'
  ok (u64_u64 x y, left)
deserialize_as cfg read_sdi div_sub_data_items it = do
  sdis ← deserialize_all read_sdi (length it) it
  ok (sub_data_items (of_list sdis), [])
deserialize_as cfg read_sdi div_u16_sub_data_items it = do
  (x, it') ← deserialize_uint 2 it
  (num, it'') ← deserialize_u8 it'
  (reserved, sub) ← deserialize_u8 it''
  guard (reserved == 0) out_of_range
  sdis ← deserialize_all read_sdi (length sub) sub
  guard (length sdis == num) length_error
  ok (u16_sub_data_items x (of_list sdis), [])

-- DataItem::deserialize(). The fuel bounds how deep data items nest: each level takes a header off
-- the bytes, so more fuel than bytes is enough where a header is not empty.
unfoldable pub deserialize :
    ℕ → ProtocolConfig → Option DataItemInfo → List ℕ → Result (DataItem × List ℕ)
deserialize zero cfg parent it = stuck
deserialize (suc fuel) cfg parent it = do
  (id, it') ← deserialize_field 4 cfg.data_item_id_size it
  (di_length, it'') ← deserialize_field 8 cfg.data_item_length_size it'
  guard (leb di_length (length it'')) length_error
  info ← get_data_item_info cfg id parent
  (value, left) ←
      deserialize_as cfg (deserialize fuel cfg (some info)) info.value_type (take di_length it'')
  guard (length left == 0) length_error
  ok (record { id = id; value = value }, drop di_length it'')
