-- ===== src/Serialize.antt =====
-- Serialize.h: unsigned integers in network byte order. A buffer is a list of bytes, an input
-- iterator the bytes that are left, and `w` stands for sizeof(T). A value of type T is a number
-- below 256 ^ w. A shift by 8 * i bits is written with 256 ^ i.
pub mod RoundTrip
pub mod InPlace
use ll_dlep.Common.{
  ℕ, zero, suc, ◌+◌, ◌*◌, ◌/◌, ◌%◌, ◌^◌, Bool, true, List, [], ◌∷◌, ◌++◌, length, ltb, leb, ◌==◌,
  if◌then◌else◌, Result, ok, err, invalid_argument, length_error, guard, ◌>>=◌, ◌>>◌,
}

-- serialize(value, buf): the bytes `i - 1`, ..., 0 of the value.
unfoldable pub put_bytes : ℕ → ℕ → List ℕ
put_bytes val zero = []
put_bytes val (suc i) = val / 256 ^ i % 256 ∷ put_bytes val i

unfoldable pub serialize_value : ℕ → ℕ → List ℕ
serialize_value w val = put_bytes val w

-- No bit of `val` lies under the mask T(~0) << field_size * 8.
unfoldable pub fits_field : ℕ → ℕ → ℕ → Bool
fits_field w val field_size = if ltb field_size w then val / 256 ^ field_size == 0 else true

-- The bytes that the loop of serialize(val, field_size, buf, it) writes.
unfoldable pub field_bytes : ℕ → ℕ → ℕ → List ℕ
field_bytes w val zero = []
field_bytes w val (suc i) = (if leb (suc i) w then val / 256 ^ i % 256 else 0) ∷ field_bytes w val i

-- Write over the bytes from a position on; the end of the buffer is an error.
unfoldable pub overwrite : List ℕ → ℕ → List ℕ → Result (List ℕ)
overwrite buf pos [] = ok buf
overwrite [] pos (b ∷ bs) = err length_error
overwrite (x ∷ buf) zero (b ∷ bs) = do rest ← overwrite buf zero bs; ok (b ∷ rest)
overwrite (x ∷ buf) (suc pos) (b ∷ bs) = do rest ← overwrite buf pos (b ∷ bs); ok (x ∷ rest)

-- serialize(val, field_size, buf, it), with the position of `it` in `buf`.
unfoldable pub serialize_at : ℕ → ℕ → ℕ → List ℕ → ℕ → Result (List ℕ)
unfolding fits_field field_bytes overwrite
serialize_at w val field_size buf pos = do
  guard (fits_field w val field_size) invalid_argument
  let bytes = field_bytes w val field_size
  if pos == length buf then ok (buf ++ bytes) else overwrite buf pos bytes

-- serialize(val, field_size, buf).
unfoldable pub serialize_field : ℕ → ℕ → ℕ → List ℕ → Result (List ℕ)
unfolding serialize_at
serialize_field w val field_size buf = serialize_at w val field_size buf (length buf)

-- The loop `value <<= 8; value |= *it`, in a variable that holds numbers below `m`.
unfoldable pub get_bytes : ℕ → ℕ → ℕ → List ℕ → Result (ℕ × List ℕ)
get_bytes m acc zero it = ok (acc, it)
get_bytes m acc (suc i) [] = err length_error
get_bytes m acc (suc i) (b ∷ it) = get_bytes m (acc * 256 % m + b) i it

-- The overload for one byte.
unfoldable pub deserialize_u8 : List ℕ → Result (ℕ × List ℕ)
deserialize_u8 [] = err length_error
deserialize_u8 (b ∷ it) = ok (b, it)

-- deserialize(value, it, it_end) for a type of more than one byte.
unfoldable pub deserialize_value : ℕ → List ℕ → Result (ℕ × List ℕ)
deserialize_value w it = get_bytes (256 ^ w) 0 w it

-- deserialize(value, field_size, it, it_end), which reads into a uint64_t first.
unfoldable pub deserialize_field : ℕ → ℕ → List ℕ → Result (ℕ × List ℕ)
deserialize_field w field_size it = do
  (val64, it') ← get_bytes (2 ^ 64) 0 field_size it
  guard (val64 % 256 ^ w == val64) invalid_argument
  ok (val64, it')
