-- ===== src/Gcl/Shape/Bounds.antt =====
-- The fixed-size types of the serializer: sizes, ranges and truncated input.
use dioxide_python.Prelude.{ℕ, ◌+◌, ◌≤◌, ◌<◌, ◌≡◌, refl, sym, ◌∙◌, arith}
use dioxide_python.Prelude.{length, All}
use mathlib.Core.Path.{subst}
use dioxide_python.Prelude.Int.{ℤ, pos}
use dioxide_python.Prelude.Result.{ok, err, deserialization}
use dioxide_python.Bytes.{Bytes, slice, from_bytes, from_bytes_signed}
use dioxide_python.Bytes.Laws.{IsByte}
use dioxide_python.Text.{Text, codes}
use dioxide_python.Gcl.Value.{Value, int, bytes}
use dioxide_python.Gcl.Scalar.{
  byte_size, deserialize_sized, deserialize_uint, deserialize_int, deserialize_fixed_bytes,
  deserialize_enum,
}
use dioxide_python.Gcl.Scalar.Ranges.{
  UintOutcome, IntOutcome, serialize_uint-total, serialize_int-total, deserialize_bool-short,
  deserialize_sized-short, deserialize_float-short, serialize_uint-deserialize_uint,
}
use dioxide_python.Gcl.Serializer.{serialize_fuel, serialize, deserialize_fuel, deserialize}
use dioxide_python.Gcl.Shape.{Width, FloatWidth, Fixed, Shape, fixed_name, name}
use dioxide_python.Gcl.Shape.Dispatch.{
  serialize_fixed, deserialize_fixed, serialize-fixed_name, deserialize-fixed_name,
}

abbrev pub byte_width : Width → ℕ
byte_width Width.w8 = 1
byte_width Width.w16 = 2
byte_width Width.w32 = 4
byte_width Width.w64 = 8
byte_width Width.w128 = 16
byte_width Width.w256 = 32
byte_width Width.w512 = 64

-- The sizes that the format gives to the fixed-size types.
abbrev pub fixed_size : Fixed → ℕ
fixed_size Fixed.bool = 1
fixed_size (Fixed.uint w) = byte_width w
fixed_size (Fixed.int w) = byte_width w
fixed_size (Fixed.float FloatWidth.f256) = 36
fixed_size (Fixed.float FloatWidth.f512) = 68
fixed_size (Fixed.float FloatWidth.f1024) = 132
fixed_size Fixed.blob = 36
fixed_size Fixed.hash = 32
fixed_size Fixed.address = 36
fixed_size Fixed.enum = 2

pub byte_size-fixed_name : (k : Fixed) → byte_size (fixed_name k) ≡ ok (fixed_size k)
unfolding byte_size
byte_size-fixed_name Fixed.bool = refl
byte_size-fixed_name (Fixed.uint Width.w8) = refl
byte_size-fixed_name (Fixed.uint Width.w16) = refl
byte_size-fixed_name (Fixed.uint Width.w32) = refl
byte_size-fixed_name (Fixed.uint Width.w64) = refl
byte_size-fixed_name (Fixed.uint Width.w128) = refl
byte_size-fixed_name (Fixed.uint Width.w256) = refl
byte_size-fixed_name (Fixed.uint Width.w512) = refl
byte_size-fixed_name (Fixed.int Width.w8) = refl
byte_size-fixed_name (Fixed.int Width.w16) = refl
byte_size-fixed_name (Fixed.int Width.w32) = refl
byte_size-fixed_name (Fixed.int Width.w64) = refl
byte_size-fixed_name (Fixed.int Width.w128) = refl
byte_size-fixed_name (Fixed.int Width.w256) = refl
byte_size-fixed_name (Fixed.int Width.w512) = refl
byte_size-fixed_name (Fixed.float FloatWidth.f256) = refl
byte_size-fixed_name (Fixed.float FloatWidth.f512) = refl
byte_size-fixed_name (Fixed.float FloatWidth.f1024) = refl
byte_size-fixed_name Fixed.blob = refl
byte_size-fixed_name Fixed.hash = refl
byte_size-fixed_name Fixed.address = refl
byte_size-fixed_name Fixed.enum = refl

pub byte_width_pos : (w : Width) → 1 ≤ byte_width w
byte_width_pos Width.w8 = omega arith
byte_width_pos _ = omega arith

-- `serialize` with the name of an unsigned type and any int: an int from 0 to 2 ** (8 * size) - 1 is
-- stored in as many little-endian bytes as the type has, every other int is refused with
-- TypeValidationError.
pub serialize-uint :
    (w : Width) (z : ℤ)
    → UintOutcome (byte_width w) z (serialize (name (Shape.fixed (Fixed.uint w))) (int z))
unfolding serialize name serialize_fuel serialize_fixed
serialize-uint w z =
    let t : Text = fixed_name (Fixed.uint w) in
    subst (UintOutcome (byte_width w) z)
      (sym (serialize-fixed_name (serialize_fuel (length t)) (int z) (Fixed.uint w)))
      (serialize_uint-total t (byte_width w) z (byte_size-fixed_name (Fixed.uint w)))

-- `serialize` with the name of a signed type and any int: an int from -2 ** (8 * size - 1) to
-- 2 ** (8 * size - 1) - 1 is stored as the two's complement, little-endian, in as many bytes as the
-- type has, every other int is refused with TypeValidationError.
pub serialize-int :
    (w : Width) (z : ℤ)
    → IntOutcome (byte_width w) z (serialize (name (Shape.fixed (Fixed.int w))) (int z))
unfolding serialize name serialize_fuel serialize_fixed
serialize-int w z =
    let t : Text = fixed_name (Fixed.int w) in
    subst (IntOutcome (byte_width w) z)
      (sym (serialize-fixed_name (serialize_fuel (length t)) (int z) (Fixed.int w)))
      (serialize_int-total t (byte_width w) z (byte_size-fixed_name (Fixed.int w))
        (byte_width_pos w))

sized_short :
    (k : Fixed) (read : Bytes → Value) (data_ : Bytes) (at : ℕ)
    → length data_ < at + fixed_size k
    → deserialize_sized (fixed_name k) read data_ at ≡ err deserialization
sized_short k read data_ at h =
    deserialize_sized-short (fixed_name k) data_ at (fixed_size k) (byte_size-fixed_name k) read h

fixed-short :
    (k : Fixed) (data_ : Bytes) (at : ℕ)
    → length data_ < at + fixed_size k
    → deserialize_fixed data_ at k ≡ err deserialization
unfolding deserialize_fixed deserialize_uint deserialize_int deserialize_fixed_bytes
    deserialize_enum
fixed-short Fixed.bool data_ at h = deserialize_bool-short data_ at h
fixed-short (Fixed.float w) data_ at h =
    deserialize_float-short (fixed_name (Fixed.float w)) data_ at _
      (byte_size-fixed_name (Fixed.float w)) h
fixed-short (Fixed.uint w) data_ at h =
    sized_short (Fixed.uint w) (λ b. int (pos (from_bytes b))) data_ at h
fixed-short (Fixed.int w) data_ at h =
    sized_short (Fixed.int w) (λ b. int (from_bytes_signed b)) data_ at h
fixed-short Fixed.blob data_ at h = sized_short Fixed.blob bytes data_ at h
fixed-short Fixed.hash data_ at h = sized_short Fixed.hash bytes data_ at h
fixed-short Fixed.address data_ at h = sized_short Fixed.address bytes data_ at h
fixed-short Fixed.enum data_ at h =
    deserialize_sized-short (codes "uint16") data_ at 2
      (byte_size-fixed_name (Fixed.uint Width.w16)) (λ b. int (pos (from_bytes b))) h

-- `deserialize` with the name of a fixed-size type, where fewer bytes than the type has are left at
-- the offset, raises DeserializationError.
pub deserialize-truncated :
    (k : Fixed) (data_ : Bytes) (at : ℕ)
    → length data_ < at + fixed_size k
    → deserialize (name (Shape.fixed k)) data_ at ≡ err deserialization
unfolding deserialize deserialize_fuel name
deserialize-truncated k data_ at h =
    deserialize-fixed_name (deserialize_fuel (length (fixed_name k))) data_ at k
    ∙ fixed-short k data_ at h

-- What `deserialize` reads as an unsigned integer, `serialize` writes as the very bytes that were
-- read: no two encodings stand for one integer.
pub serialize-deserialize_uint :
    (w : Width) (data_ : Bytes) (at : ℕ) (v : Value) (next : ℕ)
    → All IsByte data_
    → deserialize (name (Shape.fixed (Fixed.uint w))) data_ at ≡ ok (v, next)
    → serialize (name (Shape.fixed (Fixed.uint w))) v ≡ ok (slice data_ at (byte_width w))
unfolding deserialize deserialize_fuel serialize serialize_fuel name serialize_fixed
    deserialize_fixed
serialize-deserialize_uint w data_ at v next h read =
    let t : Text = fixed_name (Fixed.uint w) in
    serialize-fixed_name (serialize_fuel (length t)) v (Fixed.uint w)
    ∙ serialize_uint-deserialize_uint t data_ at (byte_width w)
        (byte_size-fixed_name (Fixed.uint w)) v next h
        (sym (deserialize-fixed_name (deserialize_fuel (length t)) data_ at (Fixed.uint w)) ∙ read)
