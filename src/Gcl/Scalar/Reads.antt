-- ===== src/Gcl/Scalar/Reads.antt =====
-- Each fixed-size type: what is written has the size of the type and is read back.
pub mod Hashable
use dioxide_python.Prelude.{
  ℕ, ◌-◌, ◌*◌, ◌^◌, ◌<◌, ◌≤◌, ◌≡◌, refl, ap, Bool, true, false, Option, none, some, arith,
}
use dioxide_python.Prelude.{
  [], ◌∷◌, ◌++◌, length, replicate, length-append, length-replicate, ◌==◌, ==_iff, if◌then◌else◌,
  leb,
}
use dioxide_python.Prelude.Int.{ℤ, pos, negsuc}
use dioxide_python.Prelude.Result.{
  Result, ok, err, type_validation, not_bytes, >>=-eq-ok, guard-eq-ok,
}
use dioxide_python.Bytes.{
  Bytes, le_digits, to_bytes, from_bytes, to_bytes_signed, from_bytes_signed,
}
use dioxide_python.Bytes.Laws.{
  length-to_bytes, from_bytes-to_bytes, length-le_digits, from_bytes-le_digits,
}
use dioxide_python.Bytes.Signed.{length-to_bytes_signed, from_bytes_signed-to_bytes_signed}
use dioxide_python.Bytes.Place.{
  Stands-left, check-Stands, check-Stands_size, slice-Stands, slice-Stands_size, get_elem?-Stands,
}
use dioxide_python.Text.{Text, codes}
use dioxide_python.Gcl.Value.{
  Value, null, bool, int, float, str, bytes, list, dict, to_list, items, as_int, truthy,
}
use dioxide_python.Gcl.Scalar.{
  byte_size, serialize_bool, deserialize_bool, uint_bytes, serialize_uint, deserialize_uint,
}
use dioxide_python.Gcl.Scalar.{
  deserialize_sized, int_bytes, serialize_int, deserialize_int, as_float, serialize_float,
  deserialize_float,
}
use dioxide_python.Gcl.Scalar.{
  fixed_value, serialize_fixed_bytes, deserialize_fixed_bytes, serialize_enum, deserialize_enum,
  in_int_range,
}
use dioxide_python.Gcl.Table.Laws.{Reads}
use dioxide_python.Gcl.Float.{float_of_int-lt}
use dioxide_python.Gcl.Dict.{is_hashable}

-- The int that a bool or an int stands for.
abbrev pub int_or : Option ℤ → Value → Value
int_or none v = v
int_or (some z) v = int z

abbrev bool_byte : Bool → Bytes
bool_byte b = if b then 1 ∷ [] else 0 ∷ []

bool_byte-Reads : (b : Bool) → Reads deserialize_bool (bool_byte b) (bool b) (length (bool_byte b))
unfolding deserialize_bool
bool_byte-Reads true data_ at s = rw (check-Stands (1 ∷ []) s, get_elem?-Stands 1 [] s)
bool_byte-Reads false data_ at s = rw (check-Stands (0 ∷ []) s, get_elem?-Stands 0 [] s)

pub serialize_bool-Reads :
    (v : Value) (bs : Bytes)
    → serialize_bool v ≡ ok bs
    → Reads deserialize_bool bs (bool (truthy v)) (length bs)
unfolding serialize_bool
serialize_bool-Reads v bs h =
    let e : bs ≡ bool_byte (truthy v) = cc in rw e (bool_byte-Reads (truthy v))

-- Reading a sized part.
deserialize_sized-Reads :
    (t : Text) (read : Bytes → Value) (bs : Bytes)
    → byte_size t ≡ ok (length bs)
    → Reads (deserialize_sized t read) bs (read bs) (length bs)
unfolding deserialize_sized
deserialize_sized-Reads t read bs h data_ at s = rw (h, check-Stands bs s, slice-Stands bs s)

uint_bytes-eq_ok :
    (t : Text) (o : Option ℤ) {bs : Bytes}
    → uint_bytes t o ≡ ok bs
    → (n : ℕ) × (size : ℕ) × (o ≡ some (pos n))
      × (byte_size t ≡ ok size)
      × (to_bytes size n ≡ ok bs)
unfolding uint_bytes
uint_bytes-eq_ok t none h = cc
uint_bytes-eq_ok t (some (negsuc n)) h = cc
uint_bytes-eq_ok t (some (pos n)) h =
    let (size, hs, k) = >>=-eq-ok (byte_size t) _ h in
    let (_, k') = guard-eq-ok (leb n (2 ^ (size * 8) - 1)) _ (to_bytes size n) k in
    (n, size, refl, hs, k')

pub serialize_uint-Reads :
    (t : Text) (v : Value) (bs : Bytes)
    → serialize_uint t v ≡ ok bs
    → Reads (deserialize_uint t) bs (int_or (as_int v) v) (length bs)
unfolding serialize_uint deserialize_uint
serialize_uint-Reads t v bs h data_ at s =
    let (n, size, e, hs, hb) = uint_bytes-eq_ok t (as_int v) h in
    let sized : byte_size t ≡ ok (length bs) = rw (length-to_bytes size n hb) hs in
    let run = deserialize_sized-Reads t (λ b. int (pos (from_bytes b))) bs sized data_ at s in
    rw e (rw (from_bytes-to_bytes size n hb) at run)

pub length-serialize_uint :
    (t : Text) (v : Value) (bs : Bytes) (size : ℕ)
    → byte_size t ≡ ok size
    → serialize_uint t v ≡ ok bs
    → length bs ≡ size
unfolding serialize_uint
length-serialize_uint t v bs size hs h =
    let (n, k, e, hk, hb) = uint_bytes-eq_ok t (as_int v) h in
    let same : k ≡ size = cc in rw (length-to_bytes k n hb) same

int_bytes-eq_ok :
    (t : Text) (o : Option ℤ) {bs : Bytes}
    → int_bytes t o ≡ ok bs
    → (z : ℤ) × (size : ℕ) × (o ≡ some z)
      × (byte_size t ≡ ok size)
      × (to_bytes_signed size z ≡ ok bs)
unfolding int_bytes
int_bytes-eq_ok t none h = cc
int_bytes-eq_ok t (some z) h =
    let (size, hs, k) = >>=-eq-ok (byte_size t) _ h in
    let (_, k') = guard-eq-ok (in_int_range (size * 8) z) _ (to_bytes_signed size z) k in
    (z, size, refl, hs, k')

pub serialize_int-Reads :
    (t : Text) (v : Value) (bs : Bytes)
    → serialize_int t v ≡ ok bs
    → Reads (deserialize_int t) bs (int_or (as_int v) v) (length bs)
unfolding serialize_int deserialize_int
serialize_int-Reads t v bs h data_ at s =
    let (z, size, e, hs, hb) = int_bytes-eq_ok t (as_int v) h in
    let sized : byte_size t ≡ ok (length bs) = rw (length-to_bytes_signed size z hb) hs in
    let run = deserialize_sized-Reads t (λ b. int (from_bytes_signed b)) bs sized data_ at s in
    rw e (rw (from_bytes_signed-to_bytes_signed size z hb) at run)

fixed_value-eq_ok :
    (size : ℕ) (v : Value) {bs : Bytes}
    → fixed_value size v ≡ ok bs
    → (v ≡ bytes bs) × (length bs ≡ size)
unfolding fixed_value
fixed_value-eq_ok size (bytes b) {bs} h =
    let (fits, e) = guard-eq-ok (length b == size) _ (ok b) h in
    let same : b ≡ bs = cc in (ap bytes same, rw same at ((==_iff (length b) size).0 fits))
fixed_value-eq_ok size (str s) {bs} h =
    let (fits, e) = guard-eq-ok (length s == size) type_validation (err not_bytes) h in cc
fixed_value-eq_ok size (list vs) {bs} h =
    let (fits, e) = guard-eq-ok (length (to_list vs) == size) type_validation (err not_bytes) h in
    cc
fixed_value-eq_ok size (dict es) {bs} h =
    let (fits, e) = guard-eq-ok (length (items es) == size) type_validation (err not_bytes) h in cc
fixed_value-eq_ok size null {bs} h = cc
fixed_value-eq_ok size (bool b) {bs} h = cc
fixed_value-eq_ok size (int z) {bs} h = cc
fixed_value-eq_ok size (float b) {bs} h = cc

pub serialize_fixed_bytes-Reads :
    (t : Text) (v : Value) (bs : Bytes)
    → serialize_fixed_bytes t v ≡ ok bs
    → Reads (deserialize_fixed_bytes t) bs v (length bs)
unfolding serialize_fixed_bytes deserialize_fixed_bytes
serialize_fixed_bytes-Reads t v bs h data_ at s =
    let (size, hs, k) = >>=-eq-ok (byte_size t) _ h in
    let (e, fits) = fixed_value-eq_ok size v k in
    rw e (deserialize_sized-Reads t bytes bs (rw fits hs) data_ at s)

-- What a float type reads: the 64 bits that were written.
abbrev pub float_or : Result ℕ → Value → Value
float_or (ok bits) v = float bits
float_or (err e) v = v

as_float-lt : (v : Value) {n : ℕ} → as_float v ≡ ok n → n < 256 ^ 8
unfolding as_float
as_float-lt (float bits) h = ground arith
as_float-lt (int z) h = float_of_int-lt z h
as_float-lt (bool true) h = float_of_int-lt (pos 1) h
as_float-lt (bool false) h = float_of_int-lt (pos 0) h
as_float-lt null h = cc
as_float-lt (str s) h = cc
as_float-lt (bytes b) h = cc
as_float-lt (list vs) h = cc
as_float-lt (dict es) h = cc

abbrev trailer : Bytes
trailer = 0x80 ∷ 0x00 ∷ 0xcc ∷ 0xcc ∷ 0xcc ∷ []

length_float :
    (size bits : ℕ)
    → 13 ≤ size
    → length (le_digits 8 bits ++ (replicate (size - 8 - 5) 0 ++ trailer)) ≡ size
length_float size bits h = omega (
  arith,
  length-append (le_digits 8 bits) (replicate (size - 8 - 5) 0 ++ trailer),
  length-append (replicate (size - 8 - 5) 0) trailer,
  length-replicate (size - 8 - 5) (let z : ℕ = 0 in z),
  length-le_digits 8 bits,
)

pub serialize_float-Reads :
    (t : Text) (v : Value) (bs : Bytes)
    → (size : ℕ) → byte_size t ≡ ok size
    → 13 ≤ size
    → serialize_float t v ≡ ok bs
    → Reads (deserialize_float t) bs (float_or (as_float v) v) (length bs)
unfolding serialize_float deserialize_float
serialize_float-Reads t v bs size hs big h data_ at s =
    let (bits, hb, e) = >>=-eq-ok (as_float v) _ (rw hs at h) in
    let whole : bs ≡ le_digits 8 bits ++ (replicate (size - 8 - 5) 0 ++ trailer) = cc in
    let len : length bs ≡ size = rw whole (length_float size bits big) in
    let front =
      Stands-left (le_digits 8 bits) (replicate (size - 8 - 5) 0 ++ trailer) (rw whole at s) in
    rw (
      hs,
      check-Stands_size bs size len s,
      slice-Stands_size (le_digits 8 bits) 8 (length-le_digits 8 bits) front,
      from_bytes-le_digits 8 bits (as_float-lt v hb),
      hb,
      len,
    )

pub serialize_enum-Reads :
    (v : Value) (bs : Bytes)
    → serialize_enum v ≡ ok bs
    → Reads deserialize_enum bs (int_or (as_int v) v) (length bs)
unfolding serialize_enum deserialize_enum
serialize_enum-Reads v bs h = serialize_uint-Reads (codes "uint16") v bs h
