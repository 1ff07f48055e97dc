-- ===== src/Message/Received.antt =====
-- ProtocolMessage.cpp: what parse() makes of the bytes of a message.
use ll_dlep.Common.{
  ℕ, zero, suc, ◌+◌, ◌^◌, ◌≤◌, ◌<◌, String, ◌≡◌, refl, sym, ap, ◌∙◌, Bool, true, false, none, some,
  List, [], ◌∷◌, ◌++◌, append-nil, append_assoc, arith, leb, gt→leb, eq→==, length, All,
  length-append, Result, ok, ◌>>=◌, >>=-elim, nat_key, string_key, bytes_key, ok-injective,
}
use mathlib.Core.Path.{subst}
use ll_dlep.Serialize.{put_bytes, deserialize_field}
use ll_dlep.Serialize.RoundTrip.{deserialize_field-put_bytes, length-put_bytes}
use ll_dlep.ProtocolConfig.{ProtocolConfig}
use ll_dlep.DataItem.Types.{DataItem}
use ll_dlep.DataItem.Wire.{serialize, deserialize}
use ll_dlep.DataItem.WellTyped.{HasFieldSizes, IsWellTyped}
use ll_dlep.DataItem.RoundTrip.{deserialize-serialize}
use ll_dlep.DataItem.Termination.{deserialize_takes}
use ll_dlep.Message.Build.{
  ProtocolMessage, new_message, add_header, add_data_item, add_data_items, message_name,
}
use ll_dlep.Message.Layout.{
  HasLayout, message_bytes, header_size, add_header-HasLayout, add_data_item-HasLayout,
}
use ll_dlep.Message.Parse.{
  parsed, match_prefix, parse_data_item, parse_data_items, parse_length, parse_contents, parse,
  parse_buffer,
}

module _ (cfg : ProtocolConfig) where
  -- The bytes of a series of data items.
  unfoldable pub serialize_each : List DataItem → Result (List ℕ)
  serialize_each [] = ok []
  serialize_each (di ∷ dis) = do bs ← serialize cfg di; rest ← serialize_each dis; ok (bs ++ rest)

  -- add_data_items() keeps the layout, with the bytes of all the data items in the body.
  pub add_data_items-HasLayout :
      (is_sig : Bool) (id : ℕ) (msg msg' : ProtocolMessage) (body rest : List ℕ)
      (dis : List DataItem)
      → 0 < cfg.signal_length_size
      → HasLayout cfg is_sig id msg body
      → add_data_items cfg msg dis ≡ ok msg'
      → serialize_each dis ≡ ok rest
      → header_size cfg is_sig id + length (body ++ rest) < 2 ^ 64
      → HasLayout cfg is_sig id msg' (body ++ rest)
  unfolding add_data_items serialize_each
  add_data_items-HasLayout is_sig id msg msg' body rest [] hp l h e small =
      subst (λ m. HasLayout cfg is_sig id m (body ++ rest)) (ok-injective h)
        (subst (λ b. HasLayout cfg is_sig id msg b)
          (sym (append-nil body) ∙ ap (λ r. body ++ r) (ok-injective e)) l)
  add_data_items-HasLayout is_sig id msg msg' body rest (di ∷ dis) hp l h e small =
      >>=-elim (add_data_item cfg msg di) _ h λ m h1 h2. >>=-elim (serialize cfg di) _ e λ bs e1 e2.
        >>=-elim (serialize_each dis) _ e2 λ bs' e3 e4.
          let (bs1, e5, keep) = add_data_item-HasLayout cfg is_sig id msg m body di hp l h1 in
          let same : bs1 ≡ bs = ok-injective (sym e5 ∙ e1) in
          let whole : (body ++ bs1) ++ bs' ≡ body ++ rest =
            append_assoc body bs1 bs'
            ∙ ap (λ b. body ++ (b ++ bs')) same
            ∙ ap (λ r. body ++ r) (ok-injective e4) in
          let small' =
            subst (λ b. header_size cfg is_sig id + length b < 2 ^ 64) (sym whole) small in
          subst (λ b. HasLayout cfg is_sig id msg' b) whole
            (add_data_items-HasLayout is_sig id m msg' (body ++ bs1) bs' dis hp
              (keep (omega (arith, small', length-append (body ++ bs1) bs'))) h2 e3 small')

  -- The first reads of a round repeat those of deserialize().
  parse_data_item-reads :
      (fuel : ℕ) (it : List ℕ) (p1 p2 : ℕ × List ℕ)
      → deserialize_field 4 cfg.data_item_id_size it ≡ ok p1
      → deserialize_field 8 cfg.data_item_length_size p1.1 ≡ ok p2
      → parse_data_item cfg fuel it ≡ deserialize fuel cfg none it
  unfolding parse_data_item
  parse_data_item-reads fuel it p1 p2 r1 r2 = rw (r1, r2) refl

  parse_data_item-deserialize :
      (fuel : ℕ) (it : List ℕ) (r : DataItem × List ℕ)
      → deserialize fuel cfg none it ≡ ok r
      → parse_data_item cfg fuel it ≡ ok r
  unfolding deserialize
  parse_data_item-deserialize zero it r e = absurd (cc e)
  parse_data_item-deserialize (suc fuel) it r e =
      >>=-elim (deserialize_field 4 cfg.data_item_id_size it) _ e λ p1 r1 e1.
        >>=-elim (deserialize_field 8 cfg.data_item_length_size p1.1) _ e1
          λ p2 r2 e2. parse_data_item-reads (suc fuel) it p1 p2 r1 r2 ∙ e

  parse_data_items-step :
      (rounds fuel : ℕ) (it it' : List ℕ) (di : DataItem) (dis : List DataItem)
      → 0 < length it
      → parse_data_item cfg fuel it ≡ ok (di, it')
      → parse_data_items cfg rounds fuel it' ≡ (dis, ok tt)
      → parse_data_items cfg (suc rounds) fuel it ≡ (di ∷ dis, ok tt)
  unfolding parse_data_items
  parse_data_items-step rounds fuel [] it' di dis hl h rest = absurd (omega arith)
  parse_data_items-step rounds fuel (b ∷ it) it' di dis hl h rest =
      rw (h, parse_data_items, rest) refl

  parse_data_items-nil : (rounds fuel : ℕ) → parse_data_items cfg rounds fuel [] ≡ ([], ok tt)
  unfolding parse_data_items
  parse_data_items-nil zero fuel = refl
  parse_data_items-nil (suc rounds) fuel = refl

  -- The loop reads back the data items that were serialized.
  parse_data_items-serialize_each :
      (rounds fuel : ℕ) (body : List ℕ) (dis : List DataItem)
      → HasFieldSizes cfg
      → All (IsWellTyped cfg none) dis
      → serialize_each dis ≡ ok body
      → length body < 2 ^ 64
      → length body ≤ fuel
      → length body ≤ rounds
      → parse_data_items cfg rounds fuel body ≡ (dis, ok tt)
  unfolding serialize_each
  parse_data_items-serialize_each rounds fuel body [] sizes w e small hf hr =
      ap (λ b. parse_data_items cfg rounds fuel b) (sym (ok-injective e))
      ∙ parse_data_items-nil rounds fuel
  parse_data_items-serialize_each zero fuel body (di ∷ dis) sizes w e small hf hr =
      >>=-elim (serialize cfg di) _ e λ bs e1 e2. >>=-elim (serialize_each dis) _ e2 λ bs' e3 e4.
        let total : length bs + length bs' ≡ length body =
          omega (arith, length-append bs bs', ap length (ok-injective e4)) in
        let back =
          deserialize-serialize cfg none di fuel bs bs' sizes w.0 e1 (omega (arith, total))
            (omega (arith, total)) in
        absurd (
          omega (
            arith,
            total,
            length-append bs bs',
            deserialize_takes fuel cfg none (bs ++ bs') di bs' sizes back,
          ))
  parse_data_items-serialize_each (suc rounds) fuel body (di ∷ dis) sizes w e small hf hr =
      >>=-elim (serialize cfg di) _ e λ bs e1 e2. >>=-elim (serialize_each dis) _ e2 λ bs' e3 e4.
        let total : length bs + length bs' ≡ length body =
          omega (arith, length-append bs bs', ap length (ok-injective e4)) in
        let back =
          deserialize-serialize cfg none di fuel bs bs' sizes w.0 e1 (omega (arith, total))
            (omega (arith, total)) in
        let takes = deserialize_takes fuel cfg none (bs ++ bs') di bs' sizes back in
        subst (λ b. parse_data_items cfg (suc rounds) fuel b ≡ (di ∷ dis, ok tt)) (ok-injective e4)
          (parse_data_items-step rounds fuel (bs ++ bs') bs' di dis (omega (arith, takes))
            (parse_data_item-deserialize fuel (bs ++ bs') (di, bs') back)
            (parse_data_items-serialize_each rounds fuel bs' dis sizes w.1 e3 (omega (arith, total))
              (omega (arith, total)) (omega (arith, total, takes, length-append bs bs'))))

  parse_contents-message :
      (msg : ProtocolMessage) (id : ℕ) (name : String) (body : List ℕ) (dis : List DataItem)
      → HasFieldSizes cfg
      → id < 256 ^ 4
      → id < 256 ^ cfg.signal_id_size
      → length body < 256 ^ cfg.signal_length_size
      → length body < 2 ^ 64
      → message_name cfg (record msg { signal_id = id; signal_id_initialized = true }) ≡ ok name
      → All (IsWellTyped cfg none) dis
      → serialize_each dis ≡ ok body
      → parse_contents cfg msg (
          put_bytes id cfg.signal_id_size
          ++ (put_bytes (length body) cfg.signal_length_size ++ body))
        ≡ (record msg { signal_id = id; signal_id_initialized = true; data_items = dis }, parsed)
  unfolding parse_contents parse_length
  parse_contents-message msg id name body dis sizes hid hs hl small named w e =
      rw
        (
          parse_contents,
          parse_length,
          deserialize_field-put_bytes 4 id cfg.signal_id_size
              (put_bytes (length body) cfg.signal_length_size ++ body) hid (omega arith) hs,
          deserialize_field-put_bytes 8 (length body) cfg.signal_length_size body (omega arith)
              small hl,
          named,
          parse_data_items-serialize_each (length body) (suc (length body)) body dis sizes w e small
              (omega arith) (omega arith),
        )
        refl

  match_prefix-append : (prefix it : List ℕ) → match_prefix prefix (prefix ++ it) ≡ some it
  unfolding match_prefix
  match_prefix-append [] it = refl
  match_prefix-append (ch ∷ chs) it = rw (eq→== ch ch refl) (match_prefix-append chs it)

  -- The name depends on the signal id and on the kind of message only.
  message_name-eq :
      (m n : ProtocolMessage)
      → m.is_signal ≡ n.is_signal
      → m.signal_id ≡ n.signal_id
      → m.signal_id_initialized ≡ n.signal_id_initialized
      → message_name cfg m ≡ message_name cfg n
  unfolding message_name
  message_name-eq m n a b c = rw (a, b, c) refl

  parse-prefixed :
      (old : ProtocolMessage) (buf it : List ℕ)
      → leb (length buf) (length cfg.signal_prefix) ≡ false
      → match_prefix cfg.signal_prefix buf ≡ some it
      → parse cfg (record old { msgbuf = buf; is_signal = true })
        ≡ parse_contents cfg (record old { msgbuf = buf; is_signal = true; data_items = [] }) it
  unfolding parse
  parse-prefixed old buf it b c = rw (b, parse, c) refl

  parse-message_bytes :
      (old : ProtocolMessage) (is_sig : Bool) (id : ℕ) (name : String) (body : List ℕ)
      (dis : List DataItem)
      → HasFieldSizes cfg
      → 0 < cfg.signal_length_size
      → id < 256 ^ 4
      → id < 256 ^ cfg.signal_id_size
      → length body < 256 ^ cfg.signal_length_size
      → length body < 2 ^ 64
      → ((m : ProtocolMessage)
          → m.is_signal ≡ is_sig
          → m.signal_id ≡ id
          → m.signal_id_initialized ≡ true
          → message_name cfg m ≡ ok name)
      → All (IsWellTyped cfg none) dis
      → serialize_each dis ≡ ok body
      → parse_buffer cfg old (message_bytes cfg is_sig id body) is_sig ≡ (
        record old {
          msgbuf = message_bytes cfg is_sig id body;
          is_signal = is_sig;
          signal_id = id;
          signal_id_initialized = true;
          data_items = dis;
        },
        parsed,
      )
  unfolding parse_buffer parse
  parse-message_bytes old false id name body dis sizes hp hid hs hl small named w e =
      parse_contents-message
        (record old {
          msgbuf = message_bytes cfg false id body;
          is_signal = false;
          data_items = [];
        })
        id name body dis sizes hid hs hl small (named _ refl refl refl) w e
  parse-message_bytes old true id name body dis sizes hp hid hs hl small named w e =
      let assoc =
        append_assoc cfg.signal_prefix (put_bytes id cfg.signal_id_size)
          (put_bytes (length body) cfg.signal_length_size ++ body) in
      parse-prefixed old (message_bytes cfg true id body)
        (put_bytes id cfg.signal_id_size
          ++ (put_bytes (length body) cfg.signal_length_size ++ body))
        (gt→leb _ _ (
          omega (
            arith,
            length-append (cfg.signal_prefix ++ put_bytes id cfg.signal_id_size)
                (put_bytes (length body) cfg.signal_length_size ++ body),
            length-append cfg.signal_prefix (put_bytes id cfg.signal_id_size),
            length-append (put_bytes (length body) cfg.signal_length_size) body,
            length-put_bytes (length body) cfg.signal_length_size,
          )))
        (ap (match_prefix cfg.signal_prefix) assoc ∙ match_prefix-append cfg.signal_prefix _)
      ∙ parse_contents-message
          (record old {
            msgbuf = message_bytes cfg true id body;
            is_signal = true;
            data_items = [];
          })
          id name body dis sizes hid hs hl small (named _ refl refl refl) w e

  -- A message that was built from a header and data items is parsed as the same data items, with
  -- the same signal id, by any receiver that is told the kind of message. Conditions: the sizes of
  -- the configured fields are not 0, the signal id is below 2^32, the data items are well typed,
  -- the message is shorter than 2^64 bytes, and its name is configured.
  pub parse-build :
      (old start sent : ProtocolMessage) (header_name sent_name : String) (body : List ℕ)
      (dis : List DataItem)
      → HasFieldSizes cfg
      → 0 < cfg.signal_length_size
      → start.signal_id < 256 ^ 4
      → All (IsWellTyped cfg none) dis
      → add_header cfg new_message header_name ≡ ok start
      → add_data_items cfg start dis ≡ ok sent
      → serialize_each dis ≡ ok body
      → header_size cfg start.is_signal start.signal_id + length body < 2 ^ 64
      → message_name cfg sent ≡ ok sent_name
      → parse_buffer cfg old sent.msgbuf sent.is_signal ≡ (
        record old {
          msgbuf = sent.msgbuf;
          is_signal = sent.is_signal;
          signal_id = sent.signal_id;
          signal_id_initialized = true;
          data_items = dis;
        },
        parsed,
      )
  parse-build old start sent header_name sent_name body dis sizes hp hid w e1 e2 e3 small named =
      let l =
        add_data_items-HasLayout start.is_signal start.signal_id start sent [] body dis hp
          (add_header-HasLayout cfg start header_name hid e1) e2 e3 small in
      rw (l.bytes, l.signal, l.named)
        (parse-message_bytes old start.is_signal start.signal_id sent_name body dis sizes hp hid
          l.fits_id l.fits_length (omega (arith, small))
          (λ m a b c.
            message_name-eq m sent (a ∙ sym l.signal) (b ∙ sym l.named) (c ∙ sym l.initialized)
            ∙ named)
          w e3)
