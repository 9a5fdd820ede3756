-- ===== src/Gcl/Shape/Sized/Leaves.antt =====
-- The types without parts: every value is written, in as many bytes as it takes.
use dioxide_python.Prelude.{
  ℕ, ◌+◌, ◌-◌, ◌*◌, ◌^◌, ◌%◌, ◌≤◌, ◌≡◌, refl, inl, inr, true, false, [], ◌∷◌, ◌++◌, length,
  length-append, length-replicate, ==_refl, leb, replicate, Bool-cases, arith,
}
use dioxide_python.Prelude.Bits.{pow_256}
use dioxide_python.Prelude.Int.{ℤ, pos, negsuc, is_zero, abs}
use dioxide_python.Prelude.Result.{Result, ok}
use dioxide_python.Bytes.{Bytes, le_digits}
use dioxide_python.Bytes.Laws.{length-le_digits, to_bytes-small}
use dioxide_python.Text.{Text, codes}
use dioxide_python.Text.Utf8.{encode}
use dioxide_python.Gcl.Value.{Value, int, float, str, as_int, truthy}
use dioxide_python.Gcl.Dict.{get}
use dioxide_python.Gcl.Scalar.{
  byte_size, serialize_bool, serialize_uint, serialize_int, serialize_float, as_float,
  serialize_fixed_bytes, fixed_value, serialize_enum,
}
use dioxide_python.Gcl.Scalar.Ranges.{
  half_range, IntOutcome, serialize_uint-total, serialize_int-total,
}
use dioxide_python.Gcl.Variable.{
  serialize_string, limbs, nonzero_bytes, bigint_bytes, serialize_bigint, token_bytes,
  serialize_token, token,
}
use dioxide_python.Gcl.Variable.Limbs.{limb_bytes-limbs, length-limb_bytes}
use dioxide_python.Gcl.Shape.{Width, FloatWidth, Fixed, fixed_name}
use dioxide_python.Gcl.Shape.Bounds.{byte_width, byte_width_pos, fixed_size, byte_size-fixed_name}
use dioxide_python.Gcl.Shape.Dispatch.{serialize_fixed}
use dioxide_python.Gcl.Shape.Typed.{HasFixed, IsUnsigned, IsSigned, IsBytes}
use dioxide_python.Gcl.Shape.Sized.{Takes, bigint_size}

uint-Takes :
    (w : Width) (v : Value)
    → IsUnsigned (byte_width w) v
    → Takes (byte_width w) (serialize_uint (fixed_name (Fixed.uint w)) v)
uint-Takes w v (n, e, lt) =
    let total =
      serialize_uint-total (fixed_name (Fixed.uint w)) (byte_width w) (pos n)
        (byte_size-fixed_name (Fixed.uint w)) in
    let size : 256 ^ byte_width w ≡ 2 ^ (byte_width w * 8) = pow_256 (byte_width w) in
    rw e (elim total [
      | inl (_, (bs, written, n, _)) ↦ (bs, written, n)
      | inr (le, _) ↦ absurd (omega arith)
    ])

int-Takes :
    (w : Width) (v : Value)
    → (z : ℤ) × (v ≡ int z) × IsSigned (byte_width w) z
    → Takes (byte_width w) (serialize_int (fixed_name (Fixed.int w)) v)
int-Takes w v (z, e, range) = rw e (
    by z range (
      serialize_int-total (fixed_name (Fixed.int w)) (byte_width w) z
        (byte_size-fixed_name (Fixed.int w)) (byte_width_pos w)))
  where
    half : 2 ^ (byte_width w * 8 - 1) * 2 ≡ 256 ^ byte_width w
    half = half_range (byte_width w) (byte_width_pos w)

    by :
        {r : Result Bytes} (y : ℤ)
        → IsSigned (byte_width w) y
        → IntOutcome (byte_width w) y r
        → Takes (byte_width w) r
    by (pos n) small (inl (_, (bs, written, size, _))) = (bs, written, size)
    by (pos n) small (inr (le, _)) = absurd (omega (arith, half))
    by (negsuc n) small (inl (_, (bs, written, size, _))) = (bs, written, size)
    by (negsuc n) small (inr (le, _)) = absurd (omega (arith, half))

-- A double, zeros, and five bytes at the end.
padded :
    (b size : ℕ)
    → 13 ≤ size
    → length (
        le_digits 8 (b % 2 ^ 64)
        ++ (replicate (size - 8 - 5) 0 ++ (0x80 ∷ 0x00 ∷ 0xcc ∷ 0xcc ∷ 0xcc ∷ [])))
      ≡ size
padded b size big =
    let end : Bytes = 0x80 ∷ 0x00 ∷ 0xcc ∷ 0xcc ∷ 0xcc ∷ [] in
    omega (
      arith,
      length-append (le_digits 8 (b % 2 ^ 64)) (replicate (size - 8 - 5) 0 ++ end),
      length-append (replicate (size - 8 - 5) 0) end,
      length-le_digits 8 (b % 2 ^ 64),
      length-replicate {A = ℕ} (size - 8 - 5) 0,
    )

float-Takes :
    (w : FloatWidth) (b : ℕ)
    → Takes (fixed_size (Fixed.float w)) (serialize_float (fixed_name (Fixed.float w)) (float b))
unfolding serialize_float as_float
float-Takes w b =
    rw (byte_size-fixed_name (Fixed.float w))
      (_, refl, padded b (fixed_size (Fixed.float w)) (by w))
  where
    by : (x : FloatWidth) → 13 ≤ fixed_size (Fixed.float x)
    by FloatWidth.f256 = omega arith
    by FloatWidth.f512 = omega arith
    by FloatWidth.f1024 = omega arith

fixed_bytes-Takes :
    (t : Text) (size : ℕ) (v : Value)
    → byte_size t ≡ ok size
    → IsBytes size v
    → Takes size (serialize_fixed_bytes t v)
unfolding serialize_fixed_bytes fixed_value
fixed_bytes-Takes t size v h (b, e, n) = rw (e, h, n, ==_refl size) (b, refl, n)

pub fixed-Takes :
    (k : Fixed) (v : Value) → HasFixed k v → Takes (fixed_size k) (serialize_fixed v k)
unfolding serialize_fixed serialize_bool truthy serialize_enum
fixed-Takes Fixed.bool v (true, e) = rw e (1 ∷ [], refl, refl)
fixed-Takes Fixed.bool v (false, e) = rw e (0 ∷ [], refl, refl)
fixed-Takes (Fixed.uint w) v h = uint-Takes w v h
fixed-Takes (Fixed.int w) v h = int-Takes w v h
fixed-Takes (Fixed.float w) v (b, e, lt) = rw e (float-Takes w b)
fixed-Takes Fixed.blob v h =
    fixed_bytes-Takes (codes "blob") 36 v (byte_size-fixed_name Fixed.blob) h
fixed-Takes Fixed.hash v h =
    fixed_bytes-Takes (codes "hash") 32 v (byte_size-fixed_name Fixed.hash) h
fixed-Takes Fixed.address v h =
    fixed_bytes-Takes (codes "address") 36 v (byte_size-fixed_name Fixed.address) h
fixed-Takes Fixed.enum v h = uint-Takes Width.w16 v h

pub string-Takes :
    (t : Text) (utf8 : Bytes)
    → encode t ≡ ok utf8
    → length utf8 ≤ 65535
    → Takes (2 + length utf8) (serialize_string (str t))
unfolding serialize_string
string-Takes t utf8 h fits =
    let small : leb (length utf8) 65535 ≡ true = ground arith in
    let size = to_bytes-small 2 (length utf8) (omega arith) in
    let total : length (le_digits 2 (length utf8) ++ utf8) ≡ 2 + length utf8 =
      omega
        (arith, length-append (le_digits 2 (length utf8)) utf8, length-le_digits 2 (length utf8)) in
    rw (h, small, size) (_, refl, total)

pub bigint-Takes :
    (z : ℤ) → length (limbs (abs z)) ≤ 127 → Takes (bigint_size z) (serialize_bigint (int z))
unfolding serialize_bigint bigint_bytes nonzero_bytes as_int
bigint-Takes z h = elim (Bool-cases (is_zero z)) [
  | inl e ↦ rw e (_, refl, refl)
  | inr e ↦
      let few : leb (length (limbs (abs z))) 127 ≡ true = ground arith in
      let (bs, written) = limb_bytes-limbs (abs z) in
      rw (e, few, written) (_, refl, omega (arith, length-limb_bytes (limbs (abs z)) written))
]

pub token-Takes :
    (id : Value) (z : ℤ)
    → IsUnsigned 8 id
    → length (limbs (abs z)) ≤ 127
    → Takes (8 + bigint_size z) (serialize_token (token id (int z)))
unfolding serialize_token token_bytes get
token-Takes id z hid h =
    let (bs, e, n) = uint-Takes Width.w64 id hid in
    let (cs, e', n') = bigint-Takes z h in
    rw (e, e') (bs ++ cs, refl, omega (arith, length-append bs cs, n, n'))
