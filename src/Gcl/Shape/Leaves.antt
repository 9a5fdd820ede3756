-- ===== src/Gcl/Shape/Leaves.antt =====
-- The types without parts: what is written for them is read back, and can be a key of a dict.
use dioxide_python.Prelude.{false, ℕ, zero, suc, ◌≤◌, ◌≡◌, refl, sym, ◌∙◌, true, length, arith}
use dioxide_python.Prelude.Result.{ok}
use dioxide_python.Bytes.{Bytes}
use dioxide_python.Text.{codes}
use dioxide_python.Gcl.Value.{Value, as_int, list, dict}
use dioxide_python.Gcl.Dict.{is_hashable}
use dioxide_python.Gcl.Scalar.{byte_size}
use dioxide_python.Gcl.Scalar.Reads.{
  serialize_bool-Reads, serialize_uint-Reads, serialize_int-Reads, serialize_float-Reads,
  serialize_fixed_bytes-Reads, serialize_enum-Reads,
}
use dioxide_python.Gcl.Scalar.Reads.Hashable.{
  serialize_uint-is_hashable, serialize_int-is_hashable, serialize_float-is_hashable,
  serialize_fixed_bytes-is_hashable,
}
use dioxide_python.Gcl.Variable.{serialize_string}
use dioxide_python.Gcl.Scalar.{serialize_enum}
use dioxide_python.Gcl.Scalar.Reads.{int_or}
use dioxide_python.Gcl.Variable.Reads.{bigint_size, serialize_string-Reads, serialize_bigint-Reads}
use dioxide_python.Gcl.Variable.TokenReads.{
  token_or, token_size, field, amount_int, serialize_token-Reads,
}
use dioxide_python.Gcl.Table.Laws.{Reads}
use dioxide_python.Gcl.Serializer.{
  serialize_step, deserialize_step, serialize_fuel, deserialize_fuel,
}
use dioxide_python.Gcl.Shape.{is_bigint_key, FloatWidth, Fixed, Key, fixed_name, key_name}
use dioxide_python.Gcl.Shape.Dispatch.{
  serialize_fixed, deserialize_fixed, serialize-fixed_name, deserialize-fixed_name,
}
use dioxide_python.Gcl.Shape.Decoded.{decoded_fixed, decoded_key}

float_size : (w : FloatWidth) → (n : ℕ) × (byte_size (fixed_name (Fixed.float w)) ≡ ok n) × (13 ≤ n)
unfolding byte_size
float_size FloatWidth.f256 = (36, refl, omega arith)
float_size FloatWidth.f512 = (68, refl, omega arith)
float_size FloatWidth.f1024 = (132, refl, omega arith)

fixed-Reads :
    (k : Fixed) (v : Value) (bs : Bytes)
    → serialize_fixed v k ≡ ok bs
    → Reads (λ d a. deserialize_fixed d a k) bs (decoded_fixed k v) (length bs)
unfolding serialize_fixed deserialize_fixed
fixed-Reads Fixed.bool v bs h = serialize_bool-Reads v bs h
fixed-Reads (Fixed.uint w) v bs h = serialize_uint-Reads (fixed_name (Fixed.uint w)) v bs h
fixed-Reads (Fixed.int w) v bs h = serialize_int-Reads (fixed_name (Fixed.int w)) v bs h
fixed-Reads (Fixed.float w) v bs h =
    let (n, hn, big) = float_size w in
    serialize_float-Reads (fixed_name (Fixed.float w)) v bs n hn big h
fixed-Reads Fixed.blob v bs h = serialize_fixed_bytes-Reads (codes "blob") v bs h
fixed-Reads Fixed.hash v bs h = serialize_fixed_bytes-Reads (codes "hash") v bs h
fixed-Reads Fixed.address v bs h = serialize_fixed_bytes-Reads (codes "address") v bs h
fixed-Reads Fixed.enum v bs h = serialize_enum-Reads v bs h

fixed-is_hashable :
    (k : Fixed) (v : Value) (bs : Bytes)
    → serialize_fixed v k ≡ ok bs
    → is_hashable (decoded_fixed k v) ≡ true
unfolding serialize_fixed
fixed-is_hashable Fixed.bool v bs h = unfold is_hashable in refl
fixed-is_hashable (Fixed.uint w) v bs h =
    serialize_uint-is_hashable (fixed_name (Fixed.uint w)) v bs h
fixed-is_hashable (Fixed.int w) v bs h = serialize_int-is_hashable (fixed_name (Fixed.int w)) v bs h
fixed-is_hashable (Fixed.float w) v bs h =
    serialize_float-is_hashable (fixed_name (Fixed.float w)) v bs h
fixed-is_hashable Fixed.blob v bs h = serialize_fixed_bytes-is_hashable (codes "blob") v bs h
fixed-is_hashable Fixed.hash v bs h = serialize_fixed_bytes-is_hashable (codes "hash") v bs h
fixed-is_hashable Fixed.address v bs h = serialize_fixed_bytes-is_hashable (codes "address") v bs h
fixed-is_hashable Fixed.enum v bs h =
    unfold serialize_enum in serialize_uint-is_hashable (codes "uint16") v bs h

pub fixed_name-Reads :
    (fuel : ℕ) (k : Fixed) (v : Value) (bs : Bytes)
    → serialize_fuel fuel (fixed_name k) v ≡ ok bs
    → Reads (deserialize_fuel fuel (fixed_name k)) bs (decoded_fixed k v) (length bs)
unfolding serialize_fuel deserialize_fuel
fixed_name-Reads zero k v bs h data_ at s = cc
fixed_name-Reads (suc fuel) k v bs h data_ at s =
    deserialize-fixed_name (deserialize_fuel fuel) data_ at k
    ∙ fixed-Reads k v bs (sym (serialize-fixed_name (serialize_fuel fuel) v k) ∙ h) data_ at s

fixed_name-is_hashable :
    (fuel : ℕ) (k : Fixed) (v : Value) (bs : Bytes)
    → serialize_fuel fuel (fixed_name k) v ≡ ok bs
    → is_hashable (decoded_fixed k v) ≡ true
unfolding serialize_fuel
fixed_name-is_hashable zero k v bs h = cc
fixed_name-is_hashable (suc fuel) k v bs h =
    fixed-is_hashable k v bs (sym (serialize-fixed_name (serialize_fuel fuel) v k) ∙ h)

pub string-Reads :
    (fuel : ℕ) (v : Value) (bs : Bytes)
    → serialize_fuel fuel (codes "string") v ≡ ok bs
    → Reads (deserialize_fuel fuel (codes "string")) bs v (length bs)
unfolding serialize_fuel deserialize_fuel serialize_step deserialize_step
string-Reads zero v bs h = cc
string-Reads (suc fuel) v bs h = serialize_string-Reads v bs h

pub bigint-Reads :
    (fuel : ℕ) (v : Value) (bs : Bytes)
    → serialize_fuel fuel (codes "bigint") v ≡ ok bs
    → Reads
        (deserialize_fuel fuel (codes "bigint"))
        bs
        (int_or (as_int v) v)
        (bigint_size (as_int v) bs)
unfolding serialize_fuel deserialize_fuel serialize_step deserialize_step
bigint-Reads zero v bs h = cc
bigint-Reads (suc fuel) v bs h = serialize_bigint-Reads v bs h

pub token-Reads :
    (fuel : ℕ) (v : Value) (bs : Bytes)
    → serialize_fuel fuel (codes "token") v ≡ ok bs
    → Reads
        (deserialize_fuel fuel (codes "token"))
        bs
        (token_or (field (codes "id") v) (field (codes "amount") v) v)
        (token_size (amount_int (field (codes "amount") v)) bs)
unfolding serialize_fuel deserialize_fuel serialize_step deserialize_step
token-Reads zero v bs h = cc
token-Reads (suc fuel) v bs h = serialize_token-Reads v bs h

string-is_hashable :
    (fuel : ℕ) (v : Value) (bs : Bytes)
    → serialize_fuel fuel (codes "string") v ≡ ok bs
    → is_hashable v ≡ true
unfolding serialize_fuel serialize_step is_hashable serialize_string
string-is_hashable zero v bs h = cc
string-is_hashable (suc fuel) (list vs) bs h = cc
string-is_hashable (suc fuel) (dict es) bs h = cc
string-is_hashable (suc fuel) _ bs h = refl

pub key_name-Reads :
    (fuel : ℕ) (k : Key) (v : Value) (bs : Bytes)
    → is_bigint_key k ≡ false
    → serialize_fuel fuel (key_name k) v ≡ ok bs
    → Reads (deserialize_fuel fuel (key_name k)) bs (decoded_key k v) (length bs)
key_name-Reads fuel (Key.fixed k) v bs e h = fixed_name-Reads fuel k v bs h
key_name-Reads fuel Key.string v bs e h = string-Reads fuel v bs h
key_name-Reads fuel Key.bigint v bs e h = cc

pub key_name-is_hashable :
    (fuel : ℕ) (k : Key) (v : Value) (bs : Bytes)
    → is_bigint_key k ≡ false
    → serialize_fuel fuel (key_name k) v ≡ ok bs
    → is_hashable (decoded_key k v) ≡ true
key_name-is_hashable fuel (Key.fixed k) v bs e h = fixed_name-is_hashable fuel k v bs h
key_name-is_hashable fuel Key.string v bs e h = string-is_hashable fuel v bs h
key_name-is_hashable fuel Key.bigint v bs e h = cc
