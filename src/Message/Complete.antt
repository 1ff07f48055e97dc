-- ===== src/Message/Complete.antt =====
-- ProtocolMessage.cpp: is_complete_message() on the bytes of a message.
use ll_dlep.Common.{
  ℕ, ◌+◌, ◌%◌, ◌^◌, ◌<◌, ◌≡◌, refl, ap, ◌∙◌, true, false, some, List, ◌++◌, append_assoc, arith,
  ltb, leb, ge→ltb, le→leb, length, length-append, ok, nat_key, string_key, bytes_key,
}
use ll_dlep.Serialize.{put_bytes, deserialize_field}
use ll_dlep.Serialize.RoundTrip.{deserialize_field-put_bytes, length-put_bytes}
use ll_dlep.ProtocolConfig.{ProtocolConfig}
use ll_dlep.Message.Layout.{message_bytes, header_size}
use ll_dlep.Message.Parse.{is_complete_message}

module _ (cfg : ProtocolConfig) where
  complete-reads :
      (buf : List ℕ) (p1 p2 : ℕ × List ℕ)
      → ltb (length buf) (cfg.signal_id_size + cfg.signal_length_size) ≡ false
      → deserialize_field 4 cfg.signal_id_size buf ≡ ok p1
      → deserialize_field 8 cfg.signal_length_size p1.1 ≡ ok p2
      → is_complete_message cfg buf
        ≡ ok (
          some ((cfg.signal_id_size + cfg.signal_length_size + p2.0) % 2 ^ 64),
          leb ((cfg.signal_id_size + cfg.signal_length_size + p2.0) % 2 ^ 64) (length buf),
        )
  unfolding is_complete_message
  complete-reads buf p1 p2 c r1 r2 = rw (c, r1, r2) refl

  -- The bytes of a message that is not a signal, with anything after them, hold a complete message,
  -- and its size is the number of those bytes. Conditions: the id and the length fit their fields
  -- and the size is below 2^64.
  pub is_complete_message-message_bytes :
      (id : ℕ) (body rest : List ℕ)
      → id < 256 ^ 4
      → id < 256 ^ cfg.signal_id_size
      → length body < 256 ^ cfg.signal_length_size
      → header_size cfg false id + length body < 2 ^ 64
      → is_complete_message cfg (message_bytes cfg false id body ++ rest)
        ≡ ok (some (length (message_bytes cfg false id body)), true)
  is_complete_message-message_bytes id body rest hid hs hl small =
      complete-reads (message_bytes cfg false id body ++ rest)
        (id, put_bytes (length body) cfg.signal_length_size ++ (body ++ rest))
        (length body, body ++ rest)
        (ge→ltb (length (message_bytes cfg false id body ++ rest))
          (cfg.signal_id_size + cfg.signal_length_size) (omega (arith, total, whole)))
        (ap (deserialize_field 4 cfg.signal_id_size) assoc
          ∙ deserialize_field-put_bytes 4 id cfg.signal_id_size
              (put_bytes (length body) cfg.signal_length_size ++ (body ++ rest)) hid (omega arith)
              hs)
        (deserialize_field-put_bytes 8 (length body) cfg.signal_length_size (body ++ rest)
          (omega (arith, small)) (omega (arith, small)) hl)
      ∙ rw (size) (
          ap (λ t. ok (some (length (message_bytes cfg false id body)), t))
            (le→leb (length (message_bytes cfg false id body))
              (length (message_bytes cfg false id body ++ rest)) (omega (arith, whole))))
    where
      sizes : header_size cfg false id ≡ cfg.signal_id_size + cfg.signal_length_size
      sizes = omega (arith, length-put_bytes id cfg.signal_id_size)

      total :
          length (message_bytes cfg false id body)
          ≡ cfg.signal_id_size + cfg.signal_length_size + length body
      total = omega (
        arith,
        length-append (put_bytes id cfg.signal_id_size)
            (put_bytes (length body) cfg.signal_length_size ++ body),
        length-append (put_bytes (length body) cfg.signal_length_size) body,
        length-put_bytes id cfg.signal_id_size,
        length-put_bytes (length body) cfg.signal_length_size,
      )

      assoc :
          message_bytes cfg false id body ++ rest
          ≡ put_bytes id cfg.signal_id_size
            ++ (put_bytes (length body) cfg.signal_length_size ++ (body ++ rest))
      assoc =
          append_assoc (put_bytes id cfg.signal_id_size)
            (put_bytes (length body) cfg.signal_length_size ++ body) rest
          ∙ ap (λ b. put_bytes id cfg.signal_id_size ++ b)
              (append_assoc (put_bytes (length body) cfg.signal_length_size) body rest)

      whole :
          length (message_bytes cfg false id body ++ rest)
          ≡ length (message_bytes cfg false id body) + length rest
      whole = length-append (message_bytes cfg false id body) rest

      size :
          (cfg.signal_id_size + cfg.signal_length_size + length body) % 2 ^ 64
          ≡ length (message_bytes cfg false id body)
      size = omega (arith, total, small, sizes)
