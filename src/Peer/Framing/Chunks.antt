-- ===== src/Peer/Framing/Chunks.antt =====
-- Peer.cpp: what handle_session_receive() makes of a stream that arrives in pieces.
use ll_dlep.Common.{
  ℕ, zero, suc, ◌+◌, ◌^◌, ◌≤◌, ◌<◌, ◌≡◌, refl, sym, ap, ◌∙◌, inl, inr, Bool, true, false, none,
  some, List, [], ◌++◌, append-nil, arith, ltb, leb, ltb→lt, ltb→ge, lt→ltb, le→leb, Bool-cases,
  length, take, drop, All, length-append, length-drop, All-append, invalid_argument, Result, ok,
  err, ◌>>=◌, nat_key, string_key, bytes_key,
}
use ll_dlep.ProtocolConfig.{ProtocolConfig}
use ll_dlep.Message.Parse.{is_complete_message}
use ll_dlep.Peer.Framing.{handle_complete}
use ll_dlep.Peer.Framing.Rounds.{
  with_nothing, take-append_le, drop-append_le, All-drop, >>=-cong, >>=->>=, IsByte,
  is_complete_message-append, waits, throws, takes,
}

module _ {ℓ} {S : Type ℓ} (cfg : ProtocolConfig) (handle : S → List ℕ → Result S) where
  -- What a round does with a buffer, whatever comes later: it waits, fails or takes a message.
  data Round (buf : List ℕ) : Type ℓ where
    waiting :
        ((fuel : ℕ) (s : S) → handle_complete cfg handle (suc fuel) s buf ≡ ok (s, buf)) → Round buf
    failing :
        ((more : List ℕ) (fuel : ℕ) (s : S)
          → handle_complete cfg handle (suc fuel) s (buf ++ more) ≡ err invalid_argument)
        → Round buf
    taking :
        (n : ℕ)
        → 0 < n
        → n ≤ length buf
        → ((more : List ℕ) (fuel : ℕ) (s : S)
            → handle_complete cfg handle (suc fuel) s (buf ++ more) ≡ (
                handle s (take n buf) >>= λ s'.
                handle_complete cfg handle fuel s' (drop n buf ++ more)))
        → Round buf

  module _ (pos : 0 < cfg.signal_id_size + cfg.signal_length_size)
      (small : cfg.signal_id_size + cfg.signal_length_size + 256 ^ cfg.signal_length_size
        ≤ 2 ^ 64) where
    take_or_wait :
        (buf : List ℕ) (n : ℕ)
        → 0 < n
        → ((more : List ℕ)
            → is_complete_message cfg (buf ++ more) ≡ ok (some n, leb n (length (buf ++ more))))
        → (c : Bool) → leb n (length buf) ≡ c
        → Round buf
    take_or_wait buf n hn reads false e = waiting (
        waits cfg handle buf (some n) (
          with_nothing (λ all. is_complete_message cfg all ≡ ok (some n, leb n (length all))) buf
            reads
          ∙ rw e refl))
    take_or_wait buf n hn reads true e =
        let inside : n ≤ length buf = ground arith in
        taking n hn inside λ more fuel s.
          takes cfg handle (buf ++ more) n
            (reads more
              ∙ rw (le→leb n (length (buf ++ more)) (omega (arith, inside, length-append buf more)))
                  refl)
            fuel s
          ∙ rw (take-append_le n buf more inside, drop-append_le n buf more inside) refl

    short :
        (buf : List ℕ)
        → length buf < cfg.signal_id_size + cfg.signal_length_size
        → is_complete_message cfg buf ≡ ok (none, false)
    unfolding is_complete_message
    short buf h = rw (lt→ltb _ _ h) refl

    round : (buf : List ℕ) → All IsByte buf → Round buf
    round buf p =
        elim (Bool-cases (ltb (length buf) (cfg.signal_id_size + cfg.signal_length_size))) [
          | inl e ↦ waiting (waits cfg handle buf none (short buf (ltb→lt _ _ e)))
          | inr e ↦ elim (is_complete_message-append cfg buf pos small (ltb→ge _ _ e) p) [
            | inl (n, hn, reads) ↦ take_or_wait buf n hn reads (leb n (length buf)) refl
            | inr fails ↦ failing λ more fuel s. throws cfg handle (buf ++ more) (fails more) fuel s
          ]
        ]

    alone :
        (buf : List ℕ) (n : ℕ)
        → ((more : List ℕ) (fuel : ℕ) (s : S)
            → handle_complete cfg handle (suc fuel) s (buf ++ more) ≡ (
                handle s (take n buf) >>= λ s'.
                handle_complete cfg handle fuel s' (drop n buf ++ more)))
        → (fuel : ℕ) (s : S)
        → handle_complete cfg handle (suc fuel) s buf
          ≡ (handle s (take n buf) >>= λ s'. handle_complete cfg handle fuel s' (drop n buf))
    alone buf n t fuel s = rw (append-nil buf, append-nil (drop n buf)) at (t [] fuel s)

    -- Any fuel above the number of bytes is enough, so no result depends on it.
    enough :
        (f g : ℕ) (s : S) (buf : List ℕ)
        → All IsByte buf
        → length buf < f
        → length buf < g
        → handle_complete cfg handle f s buf ≡ handle_complete cfg handle g s buf
    enough zero g s buf p hf hg = absurd (omega arith)
    enough (suc f) zero s buf p hf hg = absurd (omega arith)
    enough (suc f) (suc g) s buf p hf hg = elim (round buf p) [
      | waiting w ↦ w f s ∙ sym (w g s)
      | failing t ↦
          with_nothing
            (λ all.
              handle_complete cfg handle (suc f) s all ≡ handle_complete cfg handle (suc g) s all)
            buf (λ more. t more f s ∙ sym (t more g s))
      | taking n hn inside t ↦
          alone buf n t f s
          ∙ >>=-cong (handle s (take n buf)) _ _ (λ s'.
            enough f g s' (drop n buf) (All-drop IsByte n buf p) (omega (arith, length-drop n buf))
              (omega (arith, length-drop n buf)))
          ∙ sym (alone buf n t g s)
    ]

    -- The bytes `front ++ back` may be handled as they come: first those of `front`, then what is
    -- left of them with `back` behind it. Conditions: bytes are numbers below 256, the header of a
    -- message is not empty, and the size of the header plus 256 to the power of the size of the
    -- length field is at most 2^64, so that the size of a message does not wrap around; a length
    -- field of 8 bytes, which the schema of the configuration allows, is excluded.
    pub handle_complete-append :
        (s : S) (front back : List ℕ)
        → All IsByte front
        → All IsByte back
        → handle_complete cfg handle (suc (length (front ++ back))) s (front ++ back) ≡ (
            handle_complete cfg handle (suc (length front)) s front >>= λ r.
            handle_complete cfg handle (suc (length (r.1 ++ back))) r.0 (r.1 ++ back))
    handle_complete-append s front back p q =
        in_pieces (suc (length front)) (suc (length (front ++ back))) s front back p q (omega arith)
          (omega arith)
      where
        in_pieces :
            (f g : ℕ) (s : S) (front back : List ℕ)
            → All IsByte front
            → All IsByte back
            → length front < f
            → length (front ++ back) < g
            → handle_complete cfg handle g s (front ++ back) ≡ (
                handle_complete cfg handle f s front >>= λ r.
                handle_complete cfg handle (suc (length (r.1 ++ back))) r.0 (r.1 ++ back))
        in_pieces zero g s front back p q hf hg = absurd (omega arith)
        in_pieces (suc f) zero s front back p q hf hg = absurd (omega arith)
        in_pieces (suc f) (suc g) s front back p q hf hg = elim (round front p) [
          | waiting w ↦ rw (w f s) (
              enough (suc g) (suc (length (front ++ back))) s (front ++ back)
                (All-append IsByte front back p q) hg (omega arith))
          | failing t ↦
              rw
                (
                  t back g s,
                  with_nothing
                      (λ all. handle_complete cfg handle (suc f) s all ≡ err invalid_argument) front
                      (λ more. t more f s),
                )
                refl
          | taking n hn inside t ↦
              t back g s
              ∙ >>=-cong (handle s (take n front)) _ _ (λ s'.
                in_pieces f g s' (drop n front) back (All-drop IsByte n front p) q
                  (omega (arith, length-drop n front))
                  (omega (
                    arith,
                    length-drop n front,
                    length-append front back,
                    length-append (drop n front) back,
                  )))
              ∙ sym (
                  ap
                    (λ m. m >>= (λ r.
                      handle_complete cfg handle (suc (length (r.1 ++ back))) r.0 (r.1 ++ back)))
                    (alone front n t f s)
                  ∙ >>=->>= (handle s (take n front)) _ _)
        ]
