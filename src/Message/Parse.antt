-- ===== src/Message/Parse.antt =====
-- ProtocolMessage.cpp: is_complete_message(), parse(), validate() and parse_and_validate(). The
-- logging is not modelled, but for its call of get_signal_name(), which may throw.
use ll_dlep.Common.{
  ℕ, zero, suc, ◌+◌, ◌%◌, ◌^◌, Bool, true, false, Option, none, some, List, [], ◌∷◌, ltb, leb, ◌==◌,
  if◌then◌else◌, length, Error, Result, ok, err, stuck, ◌>>=◌, nat_key, string_key, bytes_key,
}
use ll_dlep.Serialize.{deserialize_field}
use ll_dlep.ProtocolConfig.{ProtocolConfig, get_signal_info, flag_set, modem_sends, router_sends}
use ll_dlep.DataItem.Types.{DataItem}
use ll_dlep.DataItem.Wire.{deserialize}
use ll_dlep.DataItem.Validate.{
  Problem, not_sent_by_modem, not_sent_by_router, in_signal, validate_occurrences, validate,
}
use ll_dlep.Message.Build.{ProtocolMessage, message_name}

-- What parse() reports: an empty string, or what went wrong. `ran_out` is no result of the program:
-- the fuel of the model was used up.
pub data ParseOutcome : Type 0 where
  parsed too_short_for_prefix prefix_mismatch : ParseOutcome
  threw : Error → ParseOutcome
  ran_out : ParseOutcome

-- What parse_and_validate() reports.
pub data Report : Type 0 where
  bad_parse : ParseOutcome → Report
  validated : Result (Option Problem) → Report

abbrev pub outcome : Result (Unit {0}) → ParseOutcome
outcome (ok x) = parsed
outcome (err e) = threw e
outcome stuck = ran_out

-- The loop over the characters of the prefix: the bytes after it, or none for a mismatch. The
-- message is longer than the prefix.
unfoldable pub match_prefix : List ℕ → List ℕ → Option (List ℕ)
match_prefix [] it = some it
match_prefix (ch ∷ chs) [] = none
match_prefix (ch ∷ chs) (b ∷ it) = if b == ch then match_prefix chs it else none

module _ (cfg : ProtocolConfig) where
  -- is_complete_message(): none where the buffer does not hold a header, or else `msg_size` and
  -- the result.
  unfoldable pub is_complete_message : List ℕ → Result (Option ℕ × Bool)
  is_complete_message buf =
      if ltb (length buf) (cfg.signal_id_size + cfg.signal_length_size)
      then ok (none, false)
      else (do
        (sid, it) ← deserialize_field 4 cfg.signal_id_size buf
        (signal_len, it') ← deserialize_field 8 cfg.signal_length_size it
        let msg_size = (cfg.signal_id_size + cfg.signal_length_size + signal_len) % 2 ^ 64
        ok (some msg_size, leb msg_size (length buf)))

  -- One round of the loop over the data items: the id and the length are read for the log, and
  -- then the data item from its start.
  unfoldable pub parse_data_item : ℕ → List ℕ → Result (DataItem × List ℕ)
  parse_data_item fuel it = do
    (di_id, it') ← deserialize_field 4 cfg.data_item_id_size it
    (di_len, it'') ← deserialize_field 8 cfg.data_item_length_size it'
    deserialize fuel cfg none it

  -- The data items up to the end of the message or the first exception, and the exception.
  unfoldable pub parse_data_items : ℕ → ℕ → List ℕ → List DataItem × Result (Unit {0})
  parse_data_items rounds fuel [] = ([], ok tt)
  parse_data_items zero fuel (b ∷ it) = ([], stuck)
  parse_data_items (suc rounds) fuel (b ∷ it) = elim (parse_data_item fuel (b ∷ it)) [
    | ok (di, it') ↦ let rest = parse_data_items rounds fuel it' in (di ∷ rest.0, rest.1)
    | err e ↦ ([], err e)
    | stuck ↦ ([], stuck)
  ]

  -- The part of the header after the signal id, and the log entry with the signal's name.
  unfoldable pub parse_length : ProtocolMessage → List ℕ → Result (List ℕ)
  parse_length msg it = do
    (signal_len, it') ← deserialize_field 8 cfg.signal_length_size it
    name ← message_name cfg msg
    ok it'

  -- The body of the try block, from the position after the prefix.
  unfoldable pub parse_contents : ProtocolMessage → List ℕ → ProtocolMessage × ParseOutcome
  parse_contents msg it = elim (deserialize_field 4 cfg.signal_id_size it) [
    | err e ↦ (msg, threw e)
    | stuck ↦ (msg, ran_out)
    | ok (id, it') ↦
        let msg' : ProtocolMessage = record msg { signal_id = id; signal_id_initialized = true } in
        elim (parse_length msg' it') [
          | err e ↦ (msg', threw e)
          | stuck ↦ (msg', ran_out)
          | ok it'' ↦
              let dis = parse_data_items (length it'') (suc (length it'')) it'' in
              (record msg' { data_items = dis.0 }, outcome dis.1)
        ]
  ]

  unfoldable pub parse : ProtocolMessage → ProtocolMessage × ParseOutcome
  parse old =
      let msg : ProtocolMessage = record old { data_items = [] } in
      elim msg.is_signal [
        | false ↦ parse_contents msg msg.msgbuf
        | true ↦ elim (leb (length msg.msgbuf) (length cfg.signal_prefix)) [
          | true ↦ (msg, too_short_for_prefix)
          | false ↦ elim (match_prefix cfg.signal_prefix msg.msgbuf) [
            | none ↦ (msg, prefix_mismatch)
            | some it ↦ parse_contents msg it
          ]
        ]
      ]

  -- parse() of a buffer.
  unfoldable pub parse_buffer : ProtocolMessage → List ℕ → Bool → ProtocolMessage × ParseOutcome
  parse_buffer msg buf is_sig = parse (record msg { msgbuf = buf; is_signal = is_sig })

  -- The loop over the data items in validate(): the first problem.
  unfoldable pub validate_each : List DataItem → Result (Option Problem)
  validate_each [] = ok none
  validate_each (di ∷ dis) = do
    p ← validate cfg none di
    elim p [ some problem ↦ ok (some problem) | none ↦ validate_each dis ]

  unfoldable pub check_sender : ℕ → Bool → Option Problem
  check_sender flags modem_sender =
      if flag_set flags (if modem_sender then modem_sends else router_sends)
      then none
      else some (if modem_sender then not_sent_by_modem else not_sent_by_router)

  -- `if (err == "") err = ...`
  abbrev pub or_else : Option Problem → Result (Option Problem) → Result (Option Problem)
  or_else (some p) next = ok (some p)
  or_else none next = next

  -- ProtocolMessage::validate().
  unfoldable pub validate_message : ProtocolMessage → Bool → Result (Option Problem)
  validate_message msg modem_sender = do
    signal_name ← message_name cfg msg
    siginfo ← get_signal_info cfg signal_name
    p ←
        or_else (check_sender siginfo.flags modem_sender)
          (validate_occurrences cfg msg.data_items siginfo.data_items none)
    q ← or_else p (validate_each msg.data_items)
    ok (elim q [ none ↦ none | some problem ↦ some (in_signal signal_name problem) ])

  unfoldable pub report : ProtocolMessage × ParseOutcome → Bool → Report
  report (msg, parsed) modem_sender = validated (validate_message msg modem_sender)
  report (msg, too_short_for_prefix) modem_sender = bad_parse too_short_for_prefix
  report (msg, prefix_mismatch) modem_sender = bad_parse prefix_mismatch
  report (msg, threw e) modem_sender = bad_parse (threw e)
  report (msg, ran_out) modem_sender = bad_parse ran_out

  unfoldable pub parse_and_validate :
      ProtocolMessage → List ℕ → Bool → Bool → ProtocolMessage × Report
  parse_and_validate msg buf is_sig modem_sender =
      let r = parse_buffer msg buf is_sig in (r.0, report r modem_sender)

  -- parse_and_validate() of the message's own buffer.
  unfoldable pub parse_and_validate_again : ProtocolMessage → Bool → ProtocolMessage × Report
  parse_and_validate_again msg modem_sender = let r = parse msg in (r.0, report r modem_sender)

-- The message after parse_and_validate() where the caller only logs what it reports. What validate()
-- throws goes on to the caller.
unfoldable pub ignore_report : ProtocolMessage × Report → Result ProtocolMessage
ignore_report (msg, bad_parse outcome) = ok msg
ignore_report (msg, validated r) = r >>= λ _. ok msg
