-- ===== src/Serialize/RoundTrip.antt =====
-- Serialize.h: what the serializers write, the deserializers read back.
use ll_dlep.Common.{
  ℕ, zero, suc, ◌+◌, ◌*◌, ◌/◌, ◌%◌, ◌^◌, ◌≤◌, ◌<◌, ◌≡◌, refl, sym, ap, List, [], ◌++◌, length,
  arith, ltb, leb, ◌==◌, if◌then◌else◌, inl, inr, Bool-cases, All, eq→==, ne→==, ltb→lt, ltb→ge,
  lt→ltb, ge→ltb, ok, err, invalid_argument,
}
use ll_dlep.Serialize.{
  put_bytes, serialize_value, fits_field, field_bytes, serialize_field, get_bytes,
  deserialize_value, deserialize_field,
}
use native.Mathlib.Nat.{
  pow-suc, div-div-eq-div-mul, div-eq_of_lt, div-le_self, le-div_iff_mul-le, one-le-pow,
  pow-le-pow_right, mod-eq_of_lt, le_trans,
}

pub pow_pos : (i : ℕ) → 0 < 256 ^ i
pow_pos i = one-le-pow i 256 (omega arith)

-- A value that fits `i` bytes has nothing above them.
pub div-zero_of_lt : (val i : ℕ) → val < 256 ^ i → val / 256 ^ i ≡ 0
div-zero_of_lt val i h = div-eq_of_lt h

pub div-suc : (val i : ℕ) → val / 256 ^ suc i ≡ val / 256 ^ i / 256
div-suc val i = rw pow-suc (sym (div-div-eq-div-mul val (256 ^ i) 256))

-- One round of the reading loop puts the next byte below what is already read.
next_byte : (m q : ℕ) → q < m → q / 256 * 256 % m + q % 256 ≡ q
next_byte m q h =
    let below : q / 256 * 256 < m = omega arith in rw (mod-eq_of_lt below) (omega arith)

get_bytes-put_bytes_from :
    (m val i : ℕ) (rest : List ℕ)
    → val < m
    → get_bytes m (val / 256 ^ i) i (put_bytes val i ++ rest) ≡ ok (val, rest)
unfolding get_bytes put_bytes
get_bytes-put_bytes_from m val zero rest h = let e : val / 256 ^ 0 ≡ val = omega arith in rw e
get_bytes-put_bytes_from m val (suc i) rest h =
    rw (div-suc val i, next_byte m (val / 256 ^ i) (omega (arith, div-le_self val (256 ^ i))))
      (get_bytes-put_bytes_from m val i rest h)

pub get_bytes-put_bytes :
    (m val i : ℕ) (rest : List ℕ)
    → val < m
    → val < 256 ^ i
    → get_bytes m 0 i (put_bytes val i ++ rest) ≡ ok (val, rest)
get_bytes-put_bytes m val i rest hm hi =
    rw (div-zero_of_lt val i hi) at (get_bytes-put_bytes_from m val i rest hm)

pub length-put_bytes : (val i : ℕ) → length (put_bytes val i) ≡ i
unfolding put_bytes
length-put_bytes val zero = refl
length-put_bytes val (suc i) = ap suc (length-put_bytes val i)

pub put_bytes-IsByte : (val i : ℕ) → All (λ b. b < 256) (put_bytes val i)
unfolding put_bytes
put_bytes-IsByte val zero = tt
put_bytes-IsByte val (suc i) = (omega arith, put_bytes-IsByte val i)

-- The padding of a field that is wider than the type agrees with the bytes of the value.
pub field_bytes-put_bytes : (w val i : ℕ) → val < 256 ^ w → field_bytes w val i ≡ put_bytes val i
unfolding field_bytes put_bytes
field_bytes-put_bytes w val zero h = refl
field_bytes-put_bytes w val (suc i) h = elim (Bool-cases (leb (suc i) w)) [
  | inl inside ↦ rw (inside, field_bytes-put_bytes w val i h)
  | inr above ↦
      let fits : val < 256 ^ i = le_trans h (pow-le-pow_right (omega arith) (ground arith)) in
      rw (above, field_bytes-put_bytes w val i h, div-zero_of_lt val i fits)
]

zero-div_test : (a d : ℕ) → 0 < d → (a / d == 0) ≡ ltb a d
zero-div_test a d p = elim (Bool-cases (ltb a d)) [
  | inl lt ↦ rw (lt, div-eq_of_lt (ltb→lt a d lt))
  | inr ge ↦
      let one-le : 1 ≤ a / d = (le-div_iff_mul-le p).1 (omega (arith, ltb→ge a d ge)) in
      rw ge (ground (arith, ne→== (a / d) 0))
]

pub fits_field-lt :
    (w val field_size : ℕ)
    → val < 256 ^ w
    → fits_field w val field_size ≡ ltb val (256 ^ field_size)
unfolding fits_field
fits_field-lt w val fs h = elim (Bool-cases (ltb fs w)) [
  | inl narrow ↦ rw narrow (zero-div_test val (256 ^ fs) (pow_pos fs))
  | inr wide ↦
      let fits : val < 256 ^ fs = le_trans h (pow-le-pow_right (omega arith) (ltb→ge fs w wide)) in
      rw (wide, lt→ltb val (256 ^ fs) fits)
]

-- Appending a field: the big-endian bytes of the value when they fit, and an exception when not.
serialize_field-eq :
    (w val fs : ℕ) (buf : List ℕ)
    → val < 256 ^ w
    → serialize_field w val fs buf
      ≡ (if ltb val (256 ^ fs) then ok (buf ++ put_bytes val fs) else err invalid_argument)
unfolding serialize_field
serialize_field-eq w val fs buf h =
    rw (fits_field-lt w val fs h, field_bytes-put_bytes w val fs h, eq→== (length buf) _ refl)
      (elim (Bool-cases (ltb val (256 ^ fs))) [ inl e ↦ rw e | inr e ↦ rw e ])

-- Appending a value of type T in a field of any width succeeds exactly when the value is below
-- 256 ^ width; it then adds its big-endian bytes and nothing else, and throws invalid_argument
-- otherwise.
pub serialize_field_lem :
    (w val fs : ℕ) (buf : List ℕ)
    → val < 256 ^ w
    → (val < 256 ^ fs → serialize_field w val fs buf ≡ ok (buf ++ put_bytes val fs))
      × (256 ^ fs ≤ val → serialize_field w val fs buf ≡ err invalid_argument)
serialize_field_lem w val fs buf h = (
  λ lt. rw (serialize_field-eq w val fs buf h, lt→ltb _ _ lt),
  λ ge. rw (serialize_field-eq w val fs buf h, ge→ltb _ _ ge),
)

-- What is left of a successful append.
pub serialize_field-eq_ok :
    (w val fs : ℕ) (buf out : List ℕ)
    → val < 256 ^ w
    → serialize_field w val fs buf ≡ ok out
    → (val < 256 ^ fs) × (out ≡ buf ++ put_bytes val fs)
serialize_field-eq_ok w val fs buf out h e = elim (Bool-cases (ltb val (256 ^ fs))) [
  | inl lt ↦ (ltb→lt _ _ lt, cc (e, serialize_field-eq w val fs buf h, lt))
  | inr ge ↦ absurd (let x : _ ≡ ok out = rw (serialize_field-eq w val fs buf h, ge) at e in cc)
]

pub deserialize_field-put_bytes :
    (w val fs : ℕ) (rest : List ℕ)
    → val < 256 ^ w
    → val < 2 ^ 64
    → val < 256 ^ fs
    → deserialize_field w fs (put_bytes val fs ++ rest) ≡ ok (val, rest)
unfolding deserialize_field
deserialize_field-put_bytes w val fs rest hw h64 hf =
    rw (get_bytes-put_bytes (2 ^ 64) val fs rest h64 hf, mod-eq_of_lt hw, eq→== val val refl)

-- A value appended by one serializer, in a field of any width, is read back by the other, which
-- leaves what follows the field.
pub deserialize_field-serialize_field :
    (w val fs : ℕ) (rest out : List ℕ)
    → val < 256 ^ w
    → val < 2 ^ 64
    → serialize_field w val fs [] ≡ ok out
    → deserialize_field w fs (out ++ rest) ≡ ok (val, rest)
deserialize_field-serialize_field w val fs rest out hw h64 e =
    let (fits, shape) = serialize_field-eq_ok w val fs [] out hw e in
    rw shape (deserialize_field-put_bytes w val fs rest hw h64 fits)

-- An integer of `w` bytes is read back from the bytes written for it, and what follows is left.
pub deserialize_value-serialize_value :
    (w val : ℕ) (rest : List ℕ)
    → val < 256 ^ w
    → deserialize_value w (serialize_value w val ++ rest) ≡ ok (val, rest)
unfolding deserialize_value serialize_value
deserialize_value-serialize_value w val rest h = get_bytes-put_bytes (256 ^ w) val w rest h h
