-- ===== src/Message/Layout.antt =====
-- ProtocolMessage.cpp: the bytes of a message while it is built.
use ll_dlep.Common.{
  ℕ, ◌+◌, ◌-◌, ◌^◌, ◌≤◌, ◌<◌, String, ◌≡◌, refl, sym, ap, ◌∙◌, Bool, true, none, List, [], ◌++◌,
  append-nil, append_assoc, arith, if◌then◌else◌, ltb→lt, length, take, length-append, take-append,
  invalid_argument, ok, >>=-elim, guard->>-elim, nat_key, string_key, bytes_key, ok-injective,
}
use mathlib.Core.Path.{subst}
use ll_dlep.Serialize.{put_bytes, serialize_field, serialize_at, fits_field}
use ll_dlep.Serialize.RoundTrip.{serialize_field-eq_ok, fits_field-lt, length-put_bytes}
use ll_dlep.Serialize.InPlace.{serialize_at_lem}
use ll_dlep.ProtocolConfig.{ProtocolConfig, get_signal_id, get_data_item_name}
use ll_dlep.DataItem.Types.{DataItem}
use ll_dlep.DataItem.Wire.{serialize}
use ll_dlep.Message.Build.{
  ProtocolMessage, new_message, size_minus, add_header, update_message_length, message_name,
  add_data_item, clear_data_items,
}

-- What comes before the length field: the prefix of a signal, and the signal id.
abbrev pub head_bytes : ProtocolConfig → Bool → ℕ → List ℕ
head_bytes cfg is_sig id =
    (if is_sig then cfg.signal_prefix else []) ++ put_bytes id cfg.signal_id_size

-- The bytes of a message with the given body: its header, whose length field holds the number of
-- bytes after the header, and the body.
abbrev pub message_bytes : ProtocolConfig → Bool → ℕ → List ℕ → List ℕ
message_bytes cfg is_sig id body =
    head_bytes cfg is_sig id ++ (put_bytes (length body) cfg.signal_length_size ++ body)

-- The number of bytes up to the body.
abbrev pub header_size : ProtocolConfig → Bool → ℕ → ℕ
header_size cfg is_sig id = length (head_bytes cfg is_sig id) + cfg.signal_length_size

-- The message has these bytes, the length field is where `msg_len_index` says, the body starts at
-- `header_length`, and the signal id and the length fit their fields.
pub record HasLayout (cfg : ProtocolConfig) (is_sig : Bool) (id : ℕ) (msg : ProtocolMessage)
    (body : List ℕ) : Type 0 where
  pub signal : msg.is_signal ≡ is_sig
  pub named : msg.signal_id ≡ id
  pub initialized : msg.signal_id_initialized ≡ true
  pub bytes : msg.msgbuf ≡ message_bytes cfg is_sig id body
  pub len_index : msg.msg_len_index ≡ length (head_bytes cfg is_sig id)
  pub header : msg.header_length ≡ header_size cfg is_sig id
  pub fits_id : id < 256 ^ cfg.signal_id_size
  pub fits_length : length body < 256 ^ cfg.signal_length_size

size_minus_lem : (a b : ℕ) → b ≤ a → a < 2 ^ 64 → size_minus a b ≡ a - b
unfolding size_minus
size_minus_lem a b h k = omega arith

-- In place, a number that does not fit the field is refused.
serialize_at-fits :
    (val fs : ℕ) (buf out : List ℕ) (pos : ℕ)
    → val < 256 ^ 8
    → serialize_at 8 val fs buf pos ≡ ok out
    → val < 256 ^ fs
unfolding serialize_at
serialize_at-fits val fs buf out pos hw h =
    guard->>-elim (fits_field 8 val fs) invalid_argument _ h
      (λ p _. ltb→lt val (256 ^ fs) (sym (fits_field-lt 8 val fs hw) ∙ p))

length-message_bytes :
    (cfg : ProtocolConfig) (front old back : List ℕ)
    → length old ≡ cfg.signal_length_size
    → length (front ++ (old ++ back)) ≡ length front + cfg.signal_length_size + length back
length-message_bytes cfg front old back h =
    omega (arith, length-append front (old ++ back), length-append old back)

take_header :
    (front old back : List ℕ) (n : ℕ) (buf : List ℕ)
    → n ≡ length front + length old
    → buf ≡ front ++ (old ++ back)
    → take n buf ≡ front ++ (old ++ [])
take_header front old back n buf h e =
    ap (λ b. take n b) (e ∙ sym (append_assoc front old back))
    ∙ ap (λ k. take k ((front ++ old) ++ back)) (h ∙ sym (length-append front old))
    ∙ take-append (front ++ old) back
    ∙ ap (λ b. front ++ b) (sym (append-nil old))

module _ (cfg : ProtocolConfig) where
  -- update_message_length() on any message whose length field is in the right place.
  update_message_length_lem :
      (msg msg' : ProtocolMessage) (front old back : List ℕ)
      → msg.msgbuf ≡ front ++ (old ++ back)
      → msg.msg_len_index ≡ length front
      → msg.header_length ≡ length front + cfg.signal_length_size
      → length old ≡ cfg.signal_length_size
      → 0 < cfg.signal_length_size
      → length front + cfg.signal_length_size + length back < 2 ^ 64
      → update_message_length cfg msg ≡ ok msg'
      → (record msg { msgbuf = front ++ (put_bytes (length back) cfg.signal_length_size ++ back) }
          ≡ msg')
        × (length back < 256 ^ cfg.signal_length_size)
  unfolding update_message_length
  update_message_length_lem msg msg' front old back hb hi hh ho hp small h =
      >>=-elim
        (serialize_at 8 (size_minus (length msg.msgbuf) msg.header_length) cfg.signal_length_size
          msg.msgbuf msg.msg_len_index)
        _ h
        λ buf e q.
          let size : size_minus (length msg.msgbuf) msg.header_length ≡ length back =
            rw (hb, hh)
              (size_minus_lem (length (front ++ (old ++ back)))
                  (length front + cfg.signal_length_size)
                  (omega (arith, length-message_bytes cfg front old back ho))
                  (omega (arith, length-message_bytes cfg front old back ho))
                ∙ omega (arith, length-message_bytes cfg front old back ho)) in
          let e' : serialize_at 8 (length back) cfg.signal_length_size (front ++ (old ++ back))
                (length front)
              ≡ ok buf =
            rw (size, hb, hi) at e in
          let fits =
            serialize_at-fits (length back) cfg.signal_length_size _ buf (length front)
              (omega (arith, small)) e' in
          let new = ok-injective (
            sym (
              serialize_at_lem 8 (length back) cfg.signal_length_size front old back
                (omega (arith, small)) fits ho hp)
            ∙ e') in
          (ap (λ b. record msg { msgbuf = b }) new ∙ ok-injective q, fits)

  -- add_header() on a new message gives the layout with an empty body.
  pub add_header-HasLayout :
      (msg : ProtocolMessage) (name : String)
      → msg.signal_id < 256 ^ 4
      → add_header cfg new_message name ≡ ok msg
      → HasLayout cfg msg.is_signal msg.signal_id msg []
  unfolding add_header
  add_header-HasLayout msg name hid h = >>=-elim (get_signal_id cfg name) _ h λ r e1 h1.
      >>=-elim (serialize_field 4 r.0 cfg.signal_id_size (if r.1 then cfg.signal_prefix else [])) _
        h1
        λ buf e2 h2. >>=-elim (serialize_field 4 0 cfg.signal_length_size buf) _ h2 λ buf' e3 h3.
          let q = ok-injective h3 in
          let lt : r.0 < 256 ^ 4 = subst (λ m. m.signal_id < 256 ^ 4) (sym q) hid in
          let (fits, shape) = serialize_field-eq_ok 4 r.0 cfg.signal_id_size _ buf lt e2 in
          let (fits', shape') =
            serialize_field-eq_ok 4 0 cfg.signal_length_size buf buf' (omega arith) e3 in
          subst (λ m. HasLayout cfg m.is_signal m.signal_id m []) q
            record {
              signal = refl;
              named = refl;
              initialized = refl;
              bytes =
                  shape'
                  ∙ ap (λ b. b ++ put_bytes 0 cfg.signal_length_size) shape
                  ∙ ap (λ b. head_bytes cfg r.1 r.0 ++ b)
                      (sym (append-nil (put_bytes 0 cfg.signal_length_size)));
              len_index = ap length shape;
              header =
                  ap length shape'
                  ∙ length-append buf (put_bytes 0 cfg.signal_length_size)
                  ∙ ap (λ n. length buf + n) (length-put_bytes 0 cfg.signal_length_size)
                  ∙ ap (λ b. length b + cfg.signal_length_size) shape;
              fits_id = fits;
              fits_length = fits';
            }

  -- When add_data_item() succeeds on a message with the layout, it has serialized the data item;
  -- and if the message stays shorter than 2^64 bytes, it appended those bytes to the body and kept
  -- the layout, so that the length field counts them. Condition: the length field has a size other
  -- than 0.
  pub add_data_item-HasLayout :
      (is_sig : Bool) (id : ℕ) (msg msg' : ProtocolMessage) (body : List ℕ) (di : DataItem)
      → 0 < cfg.signal_length_size
      → HasLayout cfg is_sig id msg body
      → add_data_item cfg msg di ≡ ok msg'
      → (bs : List ℕ) × (serialize cfg di ≡ ok bs)
        × (header_size cfg is_sig id + length (body ++ bs) < 2 ^ 64
            → HasLayout cfg is_sig id msg' (body ++ bs))
  unfolding add_data_item
  add_data_item-HasLayout is_sig id msg msg' body di hp l h =
      >>=-elim (serialize cfg di) _ h λ bs e1 h1.
        >>=-elim (update_message_length cfg (record msg { msgbuf = msg.msgbuf ++ bs })) _ h1
          λ m e2 h2. >>=-elim (get_data_item_name cfg di.id none) _ h2 λ n e3 h3.
            >>=-elim (message_name cfg m) _ h3 λ n' e4 q. (
              bs,
              e1,
              λ small.
                  let (same, fits) =
                    update_message_length_lem (record msg { msgbuf = msg.msgbuf ++ bs }) m
                      (head_bytes cfg is_sig id) (put_bytes (length body) cfg.signal_length_size)
                      (body ++ bs) (ap (λ b. b ++ bs) l.bytes ∙ reassociate body bs) l.len_index
                      l.header (length-put_bytes (length body) cfg.signal_length_size) hp small
                      e2 in
                  subst (λ m'. HasLayout cfg is_sig id m' (body ++ bs)) (same ∙ ok-injective q)
                    record {
                      signal = l.signal;
                      named = l.named;
                      initialized = l.initialized;
                      bytes = refl;
                      len_index = l.len_index;
                      header = l.header;
                      fits_id = l.fits_id;
                      fits_length = fits;
                    },
            )
    where
      reassociate :
          (body bs : List ℕ)
          → message_bytes cfg is_sig id body ++ bs
            ≡ head_bytes cfg is_sig id
              ++ (put_bytes (length body) cfg.signal_length_size ++ (body ++ bs))
      reassociate body bs =
          append_assoc (head_bytes cfg is_sig id)
            (put_bytes (length body) cfg.signal_length_size ++ body) bs
          ∙ ap (λ b. head_bytes cfg is_sig id ++ b)
              (append_assoc (put_bytes (length body) cfg.signal_length_size) body bs)

  -- When clear_data_items() succeeds on a message with the layout, it leaves the layout with an
  -- empty body, and no data items. Conditions: the length field has a size other than 0, and the
  -- header is shorter than 2^64 bytes.
  pub clear_data_items-HasLayout :
      (is_sig : Bool) (id : ℕ) (msg msg' : ProtocolMessage) (body : List ℕ)
      → 0 < cfg.signal_length_size
      → header_size cfg is_sig id < 2 ^ 64
      → HasLayout cfg is_sig id msg body
      → clear_data_items cfg msg ≡ ok msg'
      → HasLayout cfg is_sig id msg' [] × (msg'.data_items ≡ [])
  unfolding clear_data_items
  clear_data_items-HasLayout is_sig id msg msg' body hp small l h =
      >>=-elim
        (update_message_length cfg (record msg { msgbuf = take msg.header_length msg.msgbuf })) _ h
        λ m e q.
          let (same, fits) =
            update_message_length_lem (record msg { msgbuf = take msg.header_length msg.msgbuf }) m
              (head_bytes cfg is_sig id) (put_bytes (length body) cfg.signal_length_size) []
              (take_header (head_bytes cfg is_sig id)
                (put_bytes (length body) cfg.signal_length_size) body msg.header_length msg.msgbuf
                (l.header
                  ∙ ap (λ n. length (head_bytes cfg is_sig id) + n)
                      (sym (length-put_bytes (length body) cfg.signal_length_size)))
                l.bytes)
              l.len_index l.header (length-put_bytes (length body) cfg.signal_length_size) hp
              (omega (arith, small)) e in
          let same' =
            ap {A = ProtocolMessage} (λ x. record x { data_items = [] }) same ∙ ok-injective q in
          (
            subst (λ m'. HasLayout cfg is_sig id m' []) same'
                record {
                  signal = l.signal;
                  named = l.named;
                  initialized = l.initialized;
                  bytes = refl;
                  len_index = l.len_index;
                  header = l.header;
                  fits_id = l.fits_id;
                  fits_length = fits;
                },
            ap (λ x. x.data_items) (sym (ok-injective q)),
          )
