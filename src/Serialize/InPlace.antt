-- ===== src/Serialize/InPlace.antt =====
-- Serialize.h on any input: short buffers, values that do not fit, and writes into a buffer.
use ll_dlep.Common.{
  ℕ, zero, suc, ◌+◌, ◌*◌, ◌/◌, ◌%◌, ◌^◌, ◌≤◌, ◌<◌, ◌≡◌, refl, sym, ap, ◌∙◌, ◌≢◌, List, [], ◌∷◌,
  ◌++◌, arith, lt→ltb, ne→==, length, drop, All, length-append, length_error, ok, err, stuck,
}
use native.Mathlib.Nat.{
  mod-eq_of_lt, pow-suc, mul-le-mul_right, mul-le-mul_left, le_trans, pow-le-pow_right,
}
use ll_dlep.Serialize.{put_bytes, overwrite, serialize_at, get_bytes, deserialize_field}
use ll_dlep.Serialize.RoundTrip.{
  length-put_bytes, pow_pos, div-suc, field_bytes-put_bytes, fits_field-lt,
}

pub get_bytes_short :
    (m acc i : ℕ) (it : List ℕ) → length it < i → get_bytes m acc i it ≡ err length_error
unfolding get_bytes
get_bytes_short m acc zero it h = absurd (omega arith)
get_bytes_short m acc (suc i) [] h = refl
get_bytes_short m acc (suc i) (b ∷ it) h = get_bytes_short m (acc * 256 % m + b) i it (omega arith)

pub get_bytes_enough :
    (m acc i : ℕ) (it : List ℕ)
    → i ≤ length it
    → (v : ℕ) × (get_bytes m acc i it ≡ ok (v, drop i it))
unfolding get_bytes
get_bytes_enough m acc zero it h = (acc, refl)
get_bytes_enough m acc (suc i) [] h = absurd (omega arith)
get_bytes_enough m acc (suc i) (b ∷ it) h =
    get_bytes_enough m (acc * 256 % m + b) i it (omega arith)

pub get_bytes-ne-stuck : (m acc i : ℕ) (it : List ℕ) → get_bytes m acc i it ≢ stuck
unfolding get_bytes
get_bytes-ne-stuck m acc zero it e = cc
get_bytes-ne-stuck m acc (suc i) [] e = cc
get_bytes-ne-stuck m acc (suc i) (b ∷ it) e = get_bytes-ne-stuck m (acc * 256 % m + b) i it e

pub get_bytes_takes :
    (m acc i : ℕ) (it : List ℕ) {v : ℕ} {rest : List ℕ}
    → get_bytes m acc i it ≡ ok (v, rest)
    → length it ≡ length rest + i
unfolding get_bytes
get_bytes_takes m acc zero it {rest = rest} e = omega (arith, ap length e')
  where
    e' : it ≡ rest
    e' = cc
get_bytes_takes m acc (suc i) [] e = cc
get_bytes_takes m acc (suc i) (b ∷ it) e =
    omega (arith, get_bytes_takes m (acc * 256 % m + b) i it e)

-- While the bytes still to come fit, the shift loses nothing.
no_overflow :
    (m acc b i : ℕ)
    → b < 256
    → (acc + 1) * 256 ^ suc i ≤ m
    → (acc * 256 % m + b ≡ acc * 256 + b) × ((acc * 256 + b + 1) * 256 ^ i ≤ m)
no_overflow m acc b i hb h = (rw (mod-eq_of_lt below), le_trans wider widest)
  where
    widest : (acc + 1) * 256 * 256 ^ i ≤ m
    widest = omega (arith, ap (λ (t : ℕ). (acc + 1) * t) (pow-suc 256 i))

    wider : (acc * 256 + b + 1) * 256 ^ i ≤ (acc + 1) * 256 * 256 ^ i
    wider = mul-le-mul_right (256 ^ i) (omega arith)

    one-le : (acc + 1) * 256 * 1 ≤ (acc + 1) * 256 * 256 ^ i
    one-le = mul-le-mul_left ((acc + 1) * 256) (pow_pos i)

    below : acc * 256 < m
    below = omega (arith, one-le, widest)

get_bytes_digits :
    (m acc i : ℕ) (it : List ℕ) {v : ℕ} {rest : List ℕ}
    → All (λ b. b < 256) it
    → (acc + 1) * 256 ^ i ≤ m
    → get_bytes m acc i it ≡ ok (v, rest)
    → (it ≡ put_bytes v i ++ rest) × (v / 256 ^ i ≡ acc)
unfolding get_bytes put_bytes
get_bytes_digits m acc zero it {v = v} {rest = rest} hb hm e =
    let ev : acc ≡ v = ground arith in (cc, omega (arith, ev))
get_bytes_digits m acc (suc i) [] hb hm e = cc
get_bytes_digits m acc (suc i) (b ∷ it) {v = v} {rest = rest} hb hm e =
    let (same, fits) = no_overflow m acc b i hb.0 hm in
    let (tail, top) = get_bytes_digits m (acc * 256 + b) i it hb.1 fits (rw same at e) in
    let head : b ≡ v / 256 ^ i % 256 = rw top (omega arith) in
    (cc (head, tail), rw (div-suc v i, top) (omega arith))

-- Reading a field of at most eight bytes and writing the number that was read gives the same
-- bytes back.
pub get_bytes-inverse :
    (i : ℕ) (it : List ℕ) {v : ℕ} {rest : List ℕ}
    → All (λ b. b < 256) it
    → i ≤ 8
    → get_bytes (2 ^ 64) 0 i it ≡ ok (v, rest)
    → it ≡ put_bytes v i ++ rest
get_bytes-inverse i it hb hi e =
    (get_bytes_digits (2 ^ 64) 0 i it hb
      (omega (arith, pow-le-pow_right {n = 256} (omega arith) hi)) e).0

pub deserialize_field-eq_ok :
    (w fs : ℕ) (it : List ℕ) {v : ℕ} {rest : List ℕ}
    → deserialize_field w fs it ≡ ok (v, rest)
    → (get_bytes (2 ^ 64) 0 fs it ≡ ok (v, rest)) × (v % 256 ^ w ≡ v)
unfolding deserialize_field
deserialize_field-eq_ok w fs it e = ground arith

-- On any input with the bytes of a field of at most eight bytes, reading throws length_error when
-- the bytes run out; when it succeeds, it took exactly those bytes, they are the ones that writing
-- the number gives, and the number fits the variable.
pub deserialize_field_lem :
    (w fs : ℕ) (it : List ℕ)
    → All (λ b. b < 256) it
    → fs ≤ 8
    → (length it < fs → deserialize_field w fs it ≡ err length_error)
      × ((v : ℕ) (rest : List ℕ)
          → deserialize_field w fs it ≡ ok (v, rest)
          → (it ≡ put_bytes v fs ++ rest) × (v % 256 ^ w ≡ v))
unfolding deserialize_field
deserialize_field_lem w fs it hb hf = (
  λ short. rw (get_bytes_short (2 ^ 64) 0 fs it short),
  λ v rest e.
      let (got, fits) = deserialize_field-eq_ok w fs it e in
      (get_bytes-inverse fs it hb hf got, fits),
)

-- Writing into a buffer, not at its end, keeps its length and every byte outside the field.
overwrite_lem :
    (front old back new : List ℕ)
    → length new ≡ length old
    → overwrite (front ++ (old ++ back)) (length front) new ≡ ok (front ++ (new ++ back))
unfolding overwrite
overwrite_lem [] [] back [] h = refl
overwrite_lem [] [] back (n ∷ new) h = absurd (omega arith)
overwrite_lem [] (o ∷ old) back [] h = absurd (omega arith)
overwrite_lem [] (o ∷ old) back (n ∷ new) h = rw (overwrite_lem [] old back new (omega arith))
overwrite_lem (f ∷ front) [] back [] h = refl
overwrite_lem (f ∷ front) (o ∷ old) back [] h = absurd (omega arith)
overwrite_lem (f ∷ front) [] back (n ∷ new) h = absurd (omega arith)
overwrite_lem (f ∷ front) (o ∷ old) back (n ∷ new) h =
    rw (overwrite_lem front (o ∷ old) back (n ∷ new) h)

-- Writing a number that fits into a field inside the buffer replaces the field's bytes by those of
-- the number and keeps what is before and after it. Conditions: the number fits its type and the
-- field, and the field has a size other than 0.
pub serialize_at_lem :
    (w val fs : ℕ) (front old back : List ℕ)
    → val < 256 ^ w
    → val < 256 ^ fs
    → length old ≡ fs
    → 0 < fs
    → serialize_at w val fs (front ++ (old ++ back)) (length front)
      ≡ ok (front ++ (put_bytes val fs ++ back))
unfolding serialize_at
serialize_at_lem w val fs front old back hw hf hl hp =
    rw
      (
        fits_field-lt w val fs hw,
        lt→ltb val (256 ^ fs) hf,
        field_bytes-put_bytes w val fs hw,
        ne→== (length front) (length (front ++ (old ++ back))) inner,
      )
      (overwrite_lem front old back (put_bytes val fs) (length-put_bytes val fs ∙ sym hl))
  where
    inner : length front ≢ length (front ++ (old ++ back))
    inner e = omega (arith, length-append front (old ++ back), length-append old back)
