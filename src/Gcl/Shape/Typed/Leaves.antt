-- ===== src/Gcl/Shape/Typed/Leaves.antt =====
-- The deserializers of the fixed-size types, strings, bigints and tokens return values of the type.
use dioxide_python.Prelude.{
  ℕ, ◌+◌, ◌*◌, ◌^◌, ◌<◌, ◌≤◌, ◌≡◌, sym, ◌==◌, leb, ltb, bit_and, not, Bool-cases, inl, inr, length,
  All, arith, if◌then◌else◌,
}
use dioxide_python.Prelude.Int.{pos, neg}
use dioxide_python.Prelude.Result.{ok, deserialization, >>=-eq-ok, guard-eq-ok}
use dioxide_python.Bytes.{Bytes, slice, from_bytes, from_bytes_signed, check_data_length}
use dioxide_python.Bytes.Laws.{IsByte, slice-All, length-slice, from_bytes-lt}
use dioxide_python.Text.{Text, codes}
use dioxide_python.Text.Utf8.{decode}
use dioxide_python.Gcl.Value.{Value, int, float, bytes}
use dioxide_python.Gcl.Scalar.{
  byte_size, byte_at, deserialize_bool, deserialize_sized, deserialize_uint, deserialize_int,
  deserialize_float, deserialize_fixed_bytes, deserialize_enum,
}
use dioxide_python.Gcl.Scalar.Ranges.{leb→le}
use dioxide_python.Gcl.Variable.{
  token, read_limbs, decoded_or_raise, deserialize_string, deserialize_bigint, deserialize_token,
}
use dioxide_python.Gcl.Table.{}
use dioxide_python.Gcl.Container.{}
use dioxide_python.Gcl.Shape.{Width, FloatWidth, Fixed, fixed_name}
use dioxide_python.Gcl.Shape.Dispatch.{deserialize_fixed}
use dioxide_python.Gcl.Shape.Bounds.{byte_width, fixed_size, byte_size-fixed_name}
use dioxide_python.Gcl.Shape.Typed.{IsSigned, IsUnsigned, IsBytes, HasFixed, IsStr, IsInt}

-- What is read of as many bytes as the type has.
sized-slice :
    (t : Text) (size : ℕ) (read : Bytes → Value) (data_ : Bytes) (at : ℕ) (v : Value) (next : ℕ)
    → byte_size t ≡ ok size
    → All IsByte data_
    → deserialize_sized t read data_ at ≡ ok (v, next)
    → (v ≡ read (slice data_ at size))
      × (length (slice data_ at size) ≡ size)
      × All IsByte (slice data_ at size)
unfolding deserialize_sized check_data_length
sized-slice t size read data_ at v next known small h =
    let (room, e) =
      guard-eq-ok (leb (at + size) (length data_)) deserialization _ (rw known at h) in
    (
      cc,
      length-slice data_ at size (leb→le (at + size) (length data_) room),
      slice-All data_ at size small,
    )

from_bytes-below :
    (b : Bytes) (size : ℕ) → length b ≡ size → All IsByte b → from_bytes b < 256 ^ size
from_bytes-below b size e small = rw e at (from_bytes-lt b small)

uint-IsUnsigned :
    (t : Text) (size : ℕ) (data_ : Bytes) (at : ℕ) (v : Value) (next : ℕ)
    → byte_size t ≡ ok size
    → All IsByte data_
    → deserialize_uint t data_ at ≡ ok (v, next)
    → IsUnsigned size v
unfolding deserialize_uint
uint-IsUnsigned t size data_ at v next known small h =
    let (e, n, b) =
      sized-slice t size (λ b. int (pos (from_bytes b))) data_ at v next known small h in
    (from_bytes (slice data_ at size), e, from_bytes-below (slice data_ at size) size n b)

from_bytes_signed-IsSigned :
    (b : Bytes) (size : ℕ) → length b ≡ size → All IsByte b → IsSigned size (from_bytes_signed b)
unfolding from_bytes_signed
from_bytes_signed-IsSigned b size e small =
    let below = from_bytes-lt b small in
    rw (sym e) (elim (Bool-cases (ltb (from_bytes b * 2) (256 ^ length b))) [
      | inl y ↦ rw y (ground arith)
      | inr n ↦ rw n (ground arith)
    ])

bytes-IsBytes :
    (t : Text) (size : ℕ) (data_ : Bytes) (at : ℕ) (v : Value) (next : ℕ)
    → byte_size t ≡ ok size
    → All IsByte data_
    → deserialize_fixed_bytes t data_ at ≡ ok (v, next)
    → IsBytes size v
unfolding deserialize_fixed_bytes
bytes-IsBytes t size data_ at v next known small h =
    let (e, n, b) = sized-slice t size bytes data_ at v next known small h in
    (slice data_ at size, e, n)

float-HasFixed :
    (t : Text) (size : ℕ) (data_ : Bytes) (at : ℕ) (v : Value) (next : ℕ)
    → byte_size t ≡ ok size
    → 8 ≤ size
    → All IsByte data_
    → deserialize_float t data_ at ≡ ok (v, next)
    → (b : ℕ) × (v ≡ float b) × (b < 256 ^ 8)
unfolding deserialize_float check_data_length
float-HasFixed t size data_ at v next known large small h =
    let (room, e) =
      guard-eq-ok (leb (at + size) (length data_)) deserialization _ (rw known at h) in
    let fits = leb→le (at + size) (length data_) room in
    let n = length-slice data_ at 8 (omega (arith, fits, large)) in
    (
      from_bytes (slice data_ at 8),
      cc,
      from_bytes-below (slice data_ at 8) 8 n (slice-All data_ at 8 small),
    )

pub fixed-HasFixed :
    (k : Fixed) (data_ : Bytes) (at : ℕ) (v : Value) (next : ℕ)
    → All IsByte data_
    → deserialize_fixed data_ at k ≡ ok (v, next)
    → HasFixed k v
unfolding deserialize_fixed deserialize_bool deserialize_int deserialize_enum
fixed-HasFixed Fixed.bool data_ at v next small h =
    let (u, hu, h₁) = >>=-eq-ok (check_data_length data_ at 1) _ h in
    let (b, hb, h₂) = >>=-eq-ok (byte_at data_ at) _ h₁ in (not (b == 0), cc)
fixed-HasFixed (Fixed.uint w) data_ at v next small h =
    uint-IsUnsigned (fixed_name (Fixed.uint w)) (byte_width w) data_ at v next
      (byte_size-fixed_name (Fixed.uint w)) small h
fixed-HasFixed (Fixed.int w) data_ at v next small h =
    let (e, n, b) =
      sized-slice (fixed_name (Fixed.int w)) (byte_width w) (λ b. int (from_bytes_signed b)) data_
        at v next (byte_size-fixed_name (Fixed.int w)) small h in
    (
      from_bytes_signed (slice data_ at (byte_width w)),
      e,
      from_bytes_signed-IsSigned (slice data_ at (byte_width w)) (byte_width w) n b,
    )
fixed-HasFixed (Fixed.float w) data_ at v next small h =
    float-HasFixed (fixed_name (Fixed.float w)) (fixed_size (Fixed.float w)) data_ at v next
      (byte_size-fixed_name (Fixed.float w)) (float_is_large w) small h
  where
    float_is_large : (w : FloatWidth) → 8 ≤ fixed_size (Fixed.float w)
    float_is_large FloatWidth.f256 = omega arith
    float_is_large FloatWidth.f512 = omega arith
    float_is_large FloatWidth.f1024 = omega arith
fixed-HasFixed Fixed.blob data_ at v next small h =
    bytes-IsBytes (codes "blob") 36 data_ at v next (byte_size-fixed_name Fixed.blob) small h
fixed-HasFixed Fixed.hash data_ at v next small h =
    bytes-IsBytes (codes "hash") 32 data_ at v next (byte_size-fixed_name Fixed.hash) small h
fixed-HasFixed Fixed.address data_ at v next small h =
    bytes-IsBytes (codes "address") 36 data_ at v next (byte_size-fixed_name Fixed.address) small h
fixed-HasFixed Fixed.enum data_ at v next small h =
    uint-IsUnsigned (codes "uint16") 2 data_ at v next (byte_size-fixed_name (Fixed.uint Width.w16))
      small h

pub string-IsStr :
    (data_ : Bytes) (at : ℕ) (v : Value) (next : ℕ)
    → deserialize_string data_ at ≡ ok (v, next)
    → IsStr v
unfolding deserialize_string
string-IsStr data_ at v next h =
    let (u, hu, h₁) = >>=-eq-ok (check_data_length data_ at 2) _ h in
    let (u', hu', h₂) =
      >>=-eq-ok (check_data_length data_ (at + 2) (from_bytes (slice data_ at 2))) _ h₁ in
    let (s, hs, h₃) =
      >>=-eq-ok (decoded_or_raise (decode (slice data_ (at + 2) (from_bytes (slice data_ at 2))))) _
        h₂ in
    (s, cc)

pub bigint-IsInt :
    (data_ : Bytes) (at : ℕ) (v : Value) (next : ℕ)
    → deserialize_bigint data_ at ≡ ok (v, next)
    → IsInt v
unfolding deserialize_bigint
bigint-IsInt data_ at v next h =
    let (u, hu, h₁) = >>=-eq-ok (check_data_length data_ at 1) _ h in
    let (first_byte, hb, h₂) = >>=-eq-ok (byte_at data_ at) _ h₁ in
    let (u', hu', h₃) =
      >>=-eq-ok (check_data_length data_ at (1 + bit_and first_byte 0x7f * 8)) _ h₂ in
    elim (Bool-cases (bit_and first_byte 0x7f == 0)) [
      | inl y ↦ let e = rw y at h₃ in (pos 0, cc)
      | inr n ↦
          let e = rw n at h₃ in
          let value : ℕ = read_limbs (bit_and first_byte 0x7f) 0 0 data_ (at + 1) in
          (if not (bit_and first_byte 0x80 == 0) then neg value else pos value, cc)
    ]

pub token-HasShape :
    (data_ : Bytes) (at : ℕ) (v : Value) (next : ℕ)
    → All IsByte data_
    → deserialize_token data_ at ≡ ok (v, next)
    → (id : Value) × (amount : Value) × (v ≡ token id amount) × IsUnsigned 8 id × IsInt amount
unfolding deserialize_token
token-HasShape data_ at v next small h =
    let ((id, mid), hid, h₁) = >>=-eq-ok (deserialize_uint (codes "uint64") data_ at) _ h in
    let ((amount, last), hamount, h₂) = >>=-eq-ok (deserialize_bigint data_ mid) _ h₁ in
    (
      id,
      amount,
      cc,
      uint-IsUnsigned (codes "uint64") 8 data_ at id mid
          (byte_size-fixed_name (Fixed.uint Width.w64)) small hid,
      bigint-IsInt data_ mid amount last hamount,
    )
