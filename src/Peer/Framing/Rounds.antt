-- ===== src/Peer/Framing/Rounds.antt =====
-- Peer.cpp: one round of the loop of handle_session_receive(), whatever bytes come later.
use ll_dlep.Common.{
  ℕ, zero, suc, ◌+◌, ◌*◌, ◌%◌, ◌^◌, ◌≤◌, ◌<◌, ◌≡◌, refl, sym, ap, ◌⊎◌, inl, inr, true, false,
  Option, none, some, List, [], ◌∷◌, ◌++◌, append-nil, arith, ltb, leb, ◌==◌, ge→ltb, Bool-cases,
  length, take, drop, All, length-append, length-drop, invalid_argument, Result, ok, err, stuck,
  ◌>>=◌, nat_key, string_key, bytes_key,
}
use mathlib.Core.Path.{subst}
use native.Mathlib.Nat.{pow-suc, mul-le-mul_right, mod-le, mul_comm, mul_assoc, le_trans}
use ll_dlep.Serialize.{get_bytes, deserialize_field}
use ll_dlep.ProtocolConfig.{ProtocolConfig}
use ll_dlep.Message.Parse.{is_complete_message}
use ll_dlep.Peer.Framing.{handle_complete}

-- What holds with anything after a list holds with nothing after it.
pub with_nothing {ℓ κ} :
    {A : Type ℓ} (P : List A → Type κ) (xs : List A) → ((ys : List A) → P (xs ++ ys)) → P xs
with_nothing P xs h = subst P (append-nil xs) (h [])

pub take-append_le {ℓ} :
    {A : Type ℓ} (n : ℕ) (xs ys : List A) → n ≤ length xs → take n (xs ++ ys) ≡ take n xs
take-append_le zero xs ys h = refl
take-append_le (suc n) [] ys h = absurd (omega arith)
take-append_le (suc n) (x ∷ xs) ys h = ap (◌∷◌ x) (take-append_le n xs ys (omega arith))

pub drop-append_le {ℓ} :
    {A : Type ℓ} (n : ℕ) (xs ys : List A) → n ≤ length xs → drop n (xs ++ ys) ≡ drop n xs ++ ys
drop-append_le zero xs ys h = refl
drop-append_le (suc n) [] ys h = absurd (omega arith)
drop-append_le (suc n) (x ∷ xs) ys h = drop-append_le n xs ys (omega arith)

pub All-drop {ℓ κ} :
    {A : Type ℓ} (P : A → Type κ) (n : ℕ) (xs : List A) → All P xs → All P (drop n xs)
All-drop P zero xs h = h
All-drop P (suc n) [] h = h
All-drop P (suc n) (x ∷ xs) h = All-drop P n xs h.1

pub >>=-cong {ℓ κ} :
    {A : Type ℓ} {B : Type κ} (m : Result A) (f g : A → Result B)
    → ((a : A) → f a ≡ g a)
    → (m >>= f) ≡ (m >>= g)
>>=-cong (ok a) f g h = h a
>>=-cong (err e) f g h = refl
>>=-cong stuck f g h = refl

pub >>=->>= {ℓ κ μ} :
    {A : Type ℓ} {B : Type κ} {C : Type μ} (m : Result A) (f : A → Result B) (g : B → Result C)
    → ((m >>= f) >>= g) ≡ (m >>= λ a. f a >>= g)
>>=->>= (ok a) f g = refl
>>=->>= (err e) f g = refl
>>=->>= stuck f g = refl

abbrev pub IsByte : ℕ → Type 0
IsByte b = b < 256

scaled :
    (acc acc' i : ℕ) → acc' + 1 ≤ (acc + 1) * 256 → (acc' + 1) * 256 ^ i ≤ (acc + 1) * 256 ^ suc i
scaled acc acc' i h =
    let step = mul-le-mul_right (256 ^ i) h in
    rw (pow-suc, mul_comm (256 ^ i) 256, sym (mul_assoc (acc + 1) 256 (256 ^ i))) step

-- Reading from a list that is long enough: the value does not depend on what comes later.
get_bytes-append :
    (m acc i : ℕ) (it : List ℕ)
    → i ≤ length it
    → All IsByte it
    → (v : ℕ) × ((more : List ℕ) → get_bytes m acc i (it ++ more) ≡ ok (v, drop i it ++ more))
      × (v < (acc + 1) * 256 ^ i)
unfolding get_bytes
get_bytes-append m acc zero it h p = (acc, λ more. refl, omega arith)
get_bytes-append m acc (suc i) [] h p = absurd (omega arith)
get_bytes-append m acc (suc i) (b ∷ it) h p =
    let (v, reads, bound) = get_bytes-append m (acc * 256 % m + b) i it (omega arith) p.1 in
    (
      v,
      reads,
      le_trans bound (scaled acc (acc * 256 % m + b) i (omega (arith, mod-le (acc * 256) m, p.0))),
    )

-- The same for a field: a value, or an exception whatever comes later.
deserialize_field-append :
    (w i : ℕ) (it : List ℕ)
    → i ≤ length it
    → All IsByte it
    → ((v : ℕ) × ((more : List ℕ) → deserialize_field w i (it ++ more) ≡ ok (v, drop i it ++ more))
        × (v < 256 ^ i))
      ⊎ ((more : List ℕ) → deserialize_field w i (it ++ more) ≡ err invalid_argument)
unfolding deserialize_field
deserialize_field-append w i it h p =
    let (v, reads, bound) = get_bytes-append (2 ^ 64) 0 i it h p in
    elim (Bool-cases (v % 256 ^ w == v)) [
      | inl fits ↦ inl (v, λ more. rw (reads more, fits) refl, omega (arith, bound))
      | inr wide ↦ inr λ more. rw (reads more, wide) refl
    ]

module _ (cfg : ProtocolConfig) where
  -- A header in front: the size of the message, or an exception whatever comes later.
  pub is_complete_message-append :
      (buf : List ℕ)
      → 0 < cfg.signal_id_size + cfg.signal_length_size
      → cfg.signal_id_size + cfg.signal_length_size + 256 ^ cfg.signal_length_size ≤ 2 ^ 64
      → cfg.signal_id_size + cfg.signal_length_size ≤ length buf
      → All IsByte buf
      → ((n : ℕ) × (0 < n)
          × ((more : List ℕ)
              → is_complete_message cfg (buf ++ more) ≡ ok (some n, leb n (length (buf ++ more)))))
        ⊎ ((more : List ℕ) → is_complete_message cfg (buf ++ more) ≡ err invalid_argument)
  unfolding is_complete_message
  is_complete_message-append buf pos small h p =
      let long : (more : List ℕ)
          → ltb (length (buf ++ more)) (cfg.signal_id_size + cfg.signal_length_size) ≡ false =
        λ more. ge→ltb _ _ (omega (arith, length-append buf more)) in
      elim (deserialize_field-append 4 cfg.signal_id_size buf (omega arith) p) [
        | inr throws ↦ inr λ more. rw (long more, throws more) refl
        | inl (sid, reads, _) ↦
            elim (deserialize_field-append 8 cfg.signal_length_size (drop cfg.signal_id_size buf)
              (omega (arith, length-drop cfg.signal_id_size buf))
              (All-drop IsByte cfg.signal_id_size buf p)) [
                | inr throws ↦ inr λ more. rw (long more, reads more, throws more) refl
                | inl (len, reads', bound) ↦ inl (
                  (cfg.signal_id_size + cfg.signal_length_size + len) % 2 ^ 64,
                  omega (arith, bound),
                  λ more. rw (long more, reads more, reads' more) refl,
                )
              ]
      ]

module _ {ℓ} {S : Type ℓ} (cfg : ProtocolConfig) (handle : S → List ℕ → Result S) where
  pub waits :
      (buf : List ℕ) (o : Option ℕ)
      → is_complete_message cfg buf ≡ ok (o, false)
      → (fuel : ℕ) (s : S) → handle_complete cfg handle (suc fuel) s buf ≡ ok (s, buf)
  unfolding handle_complete
  waits buf none h fuel s = rw h refl
  waits buf (some n) h fuel s = rw h refl

  pub throws :
      (buf : List ℕ)
      → is_complete_message cfg buf ≡ err invalid_argument
      → (fuel : ℕ) (s : S) → handle_complete cfg handle (suc fuel) s buf ≡ err invalid_argument
  unfolding handle_complete
  throws buf h fuel s = rw h refl

  pub takes :
      (buf : List ℕ) (n : ℕ)
      → is_complete_message cfg buf ≡ ok (some n, true)
      → (fuel : ℕ) (s : S)
      → handle_complete cfg handle (suc fuel) s buf
        ≡ (handle s (take n buf) >>= λ s'. handle_complete cfg handle fuel s' (drop n buf))
  unfolding handle_complete
  takes buf n h fuel s = rw h refl
