-- ===== src/Gcl/Scalar/Reads/Hashable.antt =====
-- What is read for a fixed-size type can be a key of a dict.
use dioxide_python.Prelude.{◌≡◌, true}
use dioxide_python.Prelude.{}
use dioxide_python.Prelude.Result.{ok, >>=-eq-ok}
use dioxide_python.Bytes.{Bytes}
use dioxide_python.Bytes.Laws.{}
use dioxide_python.Bytes.Place.{}
use dioxide_python.Text.{Text}
use dioxide_python.Gcl.Value.{Value, as_int}
use dioxide_python.Gcl.Scalar.{byte_size, serialize_uint}
use dioxide_python.Gcl.Scalar.{serialize_int, as_float, serialize_float}
use dioxide_python.Gcl.Scalar.{serialize_fixed_bytes}
use dioxide_python.Gcl.Dict.{is_hashable}
use dioxide_python.Gcl.Scalar.Reads.{
  int_or, float_or, uint_bytes-eq_ok, int_bytes-eq_ok, fixed_value-eq_ok,
}

-- What the fixed-size types read can be a key of a dict.
pub serialize_uint-is_hashable :
    (t : Text) (v : Value) (bs : Bytes)
    → serialize_uint t v ≡ ok bs
    → is_hashable (int_or (as_int v) v) ≡ true
unfolding serialize_uint is_hashable
serialize_uint-is_hashable t v bs h =
    let (n, size, e, hs, hb) = uint_bytes-eq_ok t (as_int v) h in rw e

pub serialize_int-is_hashable :
    (t : Text) (v : Value) (bs : Bytes)
    → serialize_int t v ≡ ok bs
    → is_hashable (int_or (as_int v) v) ≡ true
unfolding serialize_int is_hashable
serialize_int-is_hashable t v bs h =
    let (z, size, e, hs, hb) = int_bytes-eq_ok t (as_int v) h in rw e

pub serialize_float-is_hashable :
    (t : Text) (v : Value) (bs : Bytes)
    → serialize_float t v ≡ ok bs
    → is_hashable (float_or (as_float v) v) ≡ true
unfolding serialize_float is_hashable
serialize_float-is_hashable t v bs h =
    let (size, hs, k) = >>=-eq-ok (byte_size t) _ h in
    let (bits, hb, e) = >>=-eq-ok (as_float v) _ k in rw hb

pub serialize_fixed_bytes-is_hashable :
    (t : Text) (v : Value) (bs : Bytes) → serialize_fixed_bytes t v ≡ ok bs → is_hashable v ≡ true
unfolding serialize_fixed_bytes is_hashable
serialize_fixed_bytes-is_hashable t v bs h =
    let (size, hs, k) = >>=-eq-ok (byte_size t) _ h in
    let (e, fits) = fixed_value-eq_ok size v k in rw e
