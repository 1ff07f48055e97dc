-- ===== src/Message/Termination.antt =====
-- ProtocolMessage.cpp: parse() comes to an end on every input.
use ll_dlep.Common.{
  ℕ, zero, suc, ◌≤◌, ◌<◌, String, ◌≡◌, refl, sym, ◌∙◌, ◌≢◌, inl, inr, true, Option, none, some,
  List, [], ◌∷◌, arith, leb, Bool-cases, Option-cases, length, Error, signal_id_not_initialized,
  Result, ok, err, stuck, or_throw, >>=-ne-stuck, Result-cases, >>=-elim, nat_key, string_key,
  bytes_key, if-elim,
}
use ll_dlep.Serialize.{deserialize_field}
use ll_dlep.ProtocolConfig.{ProtocolConfig, get_signal_name, get_message_name}
use ll_dlep.DataItem.Types.{DataItem}
use ll_dlep.DataItem.WellTyped.{HasFieldSizes}
use ll_dlep.DataItem.Termination.{
  deserialize_takes, deserialize-ne-stuck, deserialize_field-ne-stuck, ok-ne-stuck,
  guard->>-ne-stuck,
}
use ll_dlep.Message.Build.{ProtocolMessage, message_name}
use ll_dlep.Message.Parse.{
  ran_out, outcome, match_prefix, parse_data_item, parse_data_items, parse_length, parse_contents,
  parse,
}

module _ (cfg : ProtocolConfig) (sizes : HasFieldSizes cfg) where
  parse_data_item-ne-stuck :
      (fuel : ℕ) (it : List ℕ) → length it < fuel → parse_data_item cfg fuel it ≢ stuck
  unfolding parse_data_item
  parse_data_item-ne-stuck fuel it hf =
      >>=-ne-stuck _ _ (deserialize_field-ne-stuck 4 cfg.data_item_id_size it) λ p1 r1.
        >>=-ne-stuck _ _ (deserialize_field-ne-stuck 8 cfg.data_item_length_size p1.1)
          λ p2 r2. deserialize-ne-stuck fuel cfg none it sizes hf

  parse_data_item_takes :
      (fuel : ℕ) (it : List ℕ) (r : DataItem × List ℕ)
      → parse_data_item cfg fuel it ≡ ok r
      → length r.1 < length it
  unfolding parse_data_item
  parse_data_item_takes fuel it r h =
      >>=-elim (deserialize_field 4 cfg.data_item_id_size it) _ h λ p1 r1 e1.
        >>=-elim (deserialize_field 8 cfg.data_item_length_size p1.1) _ e1
          λ p2 r2 e2. deserialize_takes fuel cfg none it r.0 r.1 sizes e2

  parse_data_items-ok :
      (rounds fuel : ℕ) (b : ℕ) (it : List ℕ) (r : DataItem × List ℕ)
      → parse_data_item cfg fuel (b ∷ it) ≡ ok r
      → (parse_data_items cfg (suc rounds) fuel (b ∷ it)).1
        ≡ (parse_data_items cfg rounds fuel r.1).1
  unfolding parse_data_items
  parse_data_items-ok rounds fuel b it r e = rw (e, parse_data_items) refl

  parse_data_items-err :
      (rounds fuel : ℕ) (b : ℕ) (it : List ℕ) (e : Error)
      → parse_data_item cfg fuel (b ∷ it) ≡ err e
      → (parse_data_items cfg (suc rounds) fuel (b ∷ it)).1 ≡ err e
  unfolding parse_data_items
  parse_data_items-err rounds fuel b it e h = rw (h, parse_data_items) refl

  parse_data_items-end : (rounds fuel : ℕ) → (parse_data_items cfg rounds fuel []).1 ≢ stuck
  unfolding parse_data_items
  parse_data_items-end zero fuel = ok-ne-stuck tt
  parse_data_items-end (suc rounds) fuel = ok-ne-stuck tt

  parse_data_items-ne-stuck :
      (rounds fuel : ℕ) (it : List ℕ)
      → length it < fuel
      → length it ≤ rounds
      → (parse_data_items cfg rounds fuel it).1 ≢ stuck
  parse_data_items-ne-stuck rounds fuel [] hf hr = parse_data_items-end rounds fuel
  parse_data_items-ne-stuck zero fuel (b ∷ it) hf hr = absurd (omega arith)
  parse_data_items-ne-stuck (suc rounds) fuel (b ∷ it) hf hr = λ s.
      elim (Result-cases (parse_data_item cfg fuel (b ∷ it))) [
        | inl (r, e) ↦
            let less = parse_data_item_takes fuel (b ∷ it) r e in
            parse_data_items-ne-stuck rounds fuel r.1 (omega (arith, less)) (omega (arith, less))
              (sym (parse_data_items-ok rounds fuel b it r e) ∙ s)
        | inr (inl (e, p)) ↦
            let q : err e ≡ stuck = sym (parse_data_items-err rounds fuel b it e p) ∙ s in cc q
        | inr (inr p) ↦ parse_data_item-ne-stuck fuel (b ∷ it) hf p
      ]

  or_throw-ne-stuck : (o : Option String) (e : Error) → or_throw o e ≢ stuck
  or_throw-ne-stuck none e p = cc p
  or_throw-ne-stuck (some a) e p = cc p

  message_name-ne-stuck : (msg : ProtocolMessage) → message_name cfg msg ≢ stuck
  unfolding message_name get_signal_name get_message_name
  message_name-ne-stuck msg =
      guard->>-ne-stuck msg.signal_id_initialized signal_id_not_initialized _ (
        if-elim (λ r. r ≢ stuck) msg.is_signal _ _ (λ _. or_throw-ne-stuck _ _)
          (λ _. or_throw-ne-stuck _ _))

  parse_length-ne-stuck : (msg : ProtocolMessage) (it : List ℕ) → parse_length cfg msg it ≢ stuck
  unfolding parse_length
  parse_length-ne-stuck msg it =
      >>=-ne-stuck _ _ (deserialize_field-ne-stuck 8 cfg.signal_length_size it)
        λ p _. >>=-ne-stuck _ _ (message_name-ne-stuck msg) λ _ _. ok-ne-stuck _

  outcome-ne-ran_out : (r : Result (Unit {0})) → r ≢ stuck → outcome r ≢ ran_out
  outcome-ne-ran_out (ok x) h p = cc p
  outcome-ne-ran_out (err e) h p = cc p
  outcome-ne-ran_out stuck h p = h refl

  parse_contents-ne-ran_out :
      (msg : ProtocolMessage) (it : List ℕ) → (parse_contents cfg msg it).1 ≢ ran_out
  unfolding parse_contents
  parse_contents-ne-ran_out msg it =
      elim (Result-cases (deserialize_field 4 cfg.signal_id_size it)) [
        | inl ((id, it'), e) ↦
            let msg' : ProtocolMessage = record msg {
              signal_id = id;
              signal_id_initialized = true;
            } in
            elim (Result-cases (parse_length cfg msg' it')) [
              | inl (it'', e') ↦
                  rw (e, parse_contents, e')
                    (outcome-ne-ran_out _ (
                      parse_data_items-ne-stuck (length it'') (suc (length it'')) it'' (omega arith)
                        (omega arith)))
              | inr (inl (x, e')) ↦
                  rw (e, parse_contents, e') (outcome-ne-ran_out (err x) (λ p. cc p))
              | inr (inr e') ↦ absurd (parse_length-ne-stuck msg' it' e')
            ]
        | inr (inl (x, e)) ↦ rw (e, parse_contents) (outcome-ne-ran_out (err x) (λ p. cc p))
        | inr (inr e) ↦ absurd (deserialize_field-ne-stuck 4 cfg.signal_id_size it e)
      ]

  -- parse() reports success or a reason on every input: its loops end within the fuel of the
  -- model. Condition: the header of a data item and an extension id have a size other than 0.
  pub parse-ne-ran_out : (msg : ProtocolMessage) → (parse cfg msg).1 ≢ ran_out
  unfolding parse
  parse-ne-ran_out msg = elim (Bool-cases msg.is_signal) [
    | inr message ↦ rw (message, parse) (parse_contents-ne-ran_out _ _)
    | inl sig ↦ elim (Bool-cases (leb (length msg.msgbuf) (length cfg.signal_prefix))) [
      | inl short ↦ rw (sig, parse, short) (λ p. cc p)
      | inr long ↦ elim (Option-cases (match_prefix cfg.signal_prefix msg.msgbuf)) [
        | inl e ↦ rw (sig, parse, long, e) (λ p. cc p)
        | inr (it, e) ↦ rw (sig, parse, long, e) (parse_contents-ne-ran_out _ it)
      ]
    ]
  ]
