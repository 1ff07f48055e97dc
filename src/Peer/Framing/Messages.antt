-- ===== src/Peer/Framing/Messages.antt =====
-- Peer.cpp: what handle_session_receive() makes of a stream of whole messages.
use ll_dlep.Common.{
  ℕ, zero, suc, ◌+◌, ◌^◌, ◌<◌, ◌≡◌, refl, sym, ◌∙◌, false, Option, List, [], ◌∷◌, ◌++◌, map, arith,
  length, All, length-append, take-append, drop-append, Result, ok, ◌>>=◌, nat_key, string_key,
  bytes_key,
}
use ll_dlep.Serialize.{put_bytes}
use ll_dlep.Serialize.RoundTrip.{length-put_bytes}
use ll_dlep.ProtocolConfig.{ProtocolConfig}
use ll_dlep.Message.Layout.{message_bytes, header_size}
use ll_dlep.Message.Parse.{is_complete_message}
use ll_dlep.Message.Complete.{is_complete_message-message_bytes}
use ll_dlep.Peer.Framing.{handle_complete}
use ll_dlep.Peer.Framing.Rounds.{>>=-cong, >>=->>=, waits, takes}

module _ {ℓ} {S : Type ℓ} (handle : S → List ℕ → Result S) where
  -- What a session does with its messages, each on its own.
  unfoldable pub handle_each : S → List (List ℕ) → Result S
  handle_each s [] = ok s
  handle_each s (msg ∷ msgs) = do s' ← handle s msg; handle_each s' msgs

-- A message, as its id and its data items, fits the header's fields.
unfoldable pub Fits : ProtocolConfig → ℕ × List ℕ → Type 0
Fits cfg (id, body) =
    (id < 256 ^ 4)
    × (id < 256 ^ cfg.signal_id_size)
    × (length body < 256 ^ cfg.signal_length_size)
    × (header_size cfg false id + length body < 2 ^ 64)

abbrev pub bytes_of : ProtocolConfig → ℕ × List ℕ → List ℕ
bytes_of cfg (id, body) = message_bytes cfg false id body

abbrev pub stream : List (List ℕ) → List ℕ → List ℕ
stream [] rest = rest
stream (msg ∷ msgs) rest = msg ++ stream msgs rest

module _ {ℓ} {S : Type ℓ} (cfg : ProtocolConfig) (handle : S → List ℕ → Result S) where
  first_message :
      (m : ℕ × List ℕ) (rest : List ℕ)
      → Fits cfg m
      → (fuel : ℕ) (s : S)
      → handle_complete cfg handle (suc fuel) s (bytes_of cfg m ++ rest)
        ≡ (handle s (bytes_of cfg m) >>= λ s'. handle_complete cfg handle fuel s' rest)
  unfolding Fits
  first_message (id, body) rest (a, b, c, d) fuel s =
      takes cfg handle (message_bytes cfg false id body ++ rest)
        (length (message_bytes cfg false id body))
        (is_complete_message-message_bytes cfg id body rest a b c d) fuel s
      ∙ rw
          (
            take-append (message_bytes cfg false id body) rest,
            drop-append (message_bytes cfg false id body) rest,
          )
          refl

  messages_in_turn :
      (fuel : ℕ) (s : S) (ms : List (ℕ × List ℕ)) (rest : List ℕ) (o : Option ℕ)
      → 0 < cfg.signal_id_size + cfg.signal_length_size
      → All (Fits cfg) ms
      → is_complete_message cfg rest ≡ ok (o, false)
      → length (stream (map (bytes_of cfg) ms) rest) < fuel
      → handle_complete cfg handle fuel s (stream (map (bytes_of cfg) ms) rest)
        ≡ (handle_each handle s (map (bytes_of cfg) ms) >>= λ s'. ok (s', rest))
  unfolding handle_each
  messages_in_turn zero s ms rest o pos fits h enough = absurd (omega arith)
  messages_in_turn (suc fuel) s [] rest o pos fits h enough = waits cfg handle rest o h fuel s
  messages_in_turn (suc fuel) s (m ∷ ms) rest o pos fits h enough =
      first_message m (stream (map (bytes_of cfg) ms) rest) fits.0 fuel s
      ∙ >>=-cong (handle s (bytes_of cfg m)) _ _ (λ s'.
        messages_in_turn fuel s' ms rest o pos fits.1 h (
          omega (
            arith,
            enough,
            at_least_one m,
            length-append (bytes_of cfg m) (stream (map (bytes_of cfg) ms) rest),
          )))
      ∙ sym (>>=->>= (handle s (bytes_of cfg m)) _ _)
    where
      at_least_one : (m : ℕ × List ℕ) → 0 < length (bytes_of cfg m)
      at_least_one (id, body) = omega (
        arith,
        pos,
        length-append (put_bytes id cfg.signal_id_size)
            (put_bytes (length body) cfg.signal_length_size ++ body),
        length-append (put_bytes (length body) cfg.signal_length_size) body,
        length-put_bytes id cfg.signal_id_size,
        length-put_bytes (length body) cfg.signal_length_size,
      )

  -- A buffer of whole messages, with the start of another behind them, is handled message by
  -- message in the order of the messages, and that start is what is left. Conditions: the header is
  -- not empty, the ids and lengths of the messages fit their fields and no size reaches 2^64.
  pub handle_complete-messages :
      (s : S) (ms : List (ℕ × List ℕ)) (rest : List ℕ) (o : Option ℕ)
      → 0 < cfg.signal_id_size + cfg.signal_length_size
      → All (Fits cfg) ms
      → is_complete_message cfg rest ≡ ok (o, false)
      → handle_complete cfg handle
          (suc (length (stream (map (bytes_of cfg) ms) rest)))
          s
          (stream (map (bytes_of cfg) ms) rest)
        ≡ (handle_each handle s (map (bytes_of cfg) ms) >>= λ s'. ok (s', rest))
  handle_complete-messages s ms rest o pos fits h =
      messages_in_turn (suc (length (stream (map (bytes_of cfg) ms) rest))) s ms rest o pos fits h
        (omega arith)
