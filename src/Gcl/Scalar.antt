-- ===== src/Gcl/Scalar.antt =====
-- The fixed-size types: `_serialize_bool` to `_serialize_enum`, and the deserializers of the same.
-- In the deserializers `data_` is the whole input and the result holds the next offset.
pub mod Reads
pub mod Ranges
use dioxide_python.Prelude.{
  ℕ, ◌+◌, ◌-◌, ◌*◌, ◌^◌, ◌%◌, Bool, true, false, not, Option, none, some, ◌==◌, leb, ltb,
}
use dioxide_python.Prelude.{[], ◌∷◌, ◌++◌, length, replicate, get_elem?, if◌then◌else◌}
use dioxide_python.Prelude.Int.{ℤ, pos, negsuc}
use dioxide_python.Prelude.Result.{
  Result, ok, err, type_validation, type_error, index_error, key_error, struct_error,
}
use dioxide_python.Prelude.Result.{not_bytes, ◌>>=◌, ◌>>◌, guard}
use dioxide_python.Bytes.{Bytes, slice, le_digits, to_bytes, from_bytes, to_bytes_signed}
use dioxide_python.Bytes.{from_bytes_signed, check_data_length}
use dioxide_python.Text.{Text, codes}
use dioxide_python.Gcl.Value.{
  Value, null, bool, int, float, str, bytes, list, dict, to_list, items, as_int, truthy,
}
use dioxide_python.Gcl.TypeName.{size_of}
use dioxide_python.Gcl.Float.{float_of_int}

-- `self._fixed_type_sizes[type_name]`
abbrev pub or_key_error : Option ℕ → Result ℕ
or_key_error none = err key_error
or_key_error (some n) = ok n

unfoldable pub byte_size : Text → Result ℕ
unfolding size_of
byte_size t = or_key_error (size_of t)

-- `data[offset]`
abbrev pub or_index_error : Option ℕ → Result ℕ
or_index_error none = err index_error
or_index_error (some b) = ok b

abbrev pub byte_at : Bytes → ℕ → Result ℕ
byte_at data_ i = or_index_error (get_elem? data_ i)

unfoldable pub serialize_bool : Value → Result Bytes
unfolding truthy
serialize_bool v = ok (if truthy v then 1 ∷ [] else 0 ∷ [])

uint_bytes : Text → Option ℤ → Result Bytes
unfolding byte_size to_bytes
uint_bytes t none = err type_validation
uint_bytes t (some (negsuc n)) = err type_validation
uint_bytes t (some (pos n)) = do
  size ← byte_size t
  guard (leb n (2 ^ (size * 8) - 1)) type_validation
  to_bytes size n

unfoldable pub serialize_uint : Text → Value → Result Bytes
unfolding uint_bytes as_int
serialize_uint t v = uint_bytes t (as_int v)

-- `min_value <= value <= max_value`
abbrev pub in_int_range : ℕ → ℤ → Bool
in_int_range bits (pos n) = leb n (2 ^ (bits - 1) - 1)
in_int_range bits (negsuc n) = leb (n + 1) (2 ^ (bits - 1))

int_bytes : Text → Option ℤ → Result Bytes
unfolding byte_size to_bytes_signed
int_bytes t none = err type_validation
int_bytes t (some z) = do
  size ← byte_size t
  guard (in_int_range (size * 8) z) type_validation
  to_bytes_signed size z

unfoldable pub serialize_int : Text → Value → Result Bytes
unfolding int_bytes as_int
serialize_int t v = int_bytes t (as_int v)

-- The bits that `struct.pack('<d', value)` writes.
unfoldable pub as_float : Value → Result ℕ
unfolding float_of_int
as_float (float bits) = ok (bits % 2 ^ 64)
as_float (int z) = float_of_int z
as_float (bool true) = float_of_int (pos 1)
as_float (bool false) = float_of_int (pos 0)
as_float _ = err struct_error

unfoldable pub serialize_float : Text → Value → Result Bytes
unfolding byte_size as_float
serialize_float t v = do
  size ← byte_size t
  bits ← as_float v
  let trailer = 0x80 ∷ 0x00 ∷ 0xcc ∷ 0xcc ∷ 0xcc ∷ []
  ok (le_digits 8 bits ++ (replicate (size - 8 - 5) 0 ++ trailer))

-- `len(value) != expected_size`, and then `return value`, which may be no `bytes`.
unfoldable pub fixed_value : ℕ → Value → Result Bytes
unfolding to_list items
fixed_value size (bytes b) = do guard (length b == size) type_validation; ok b
fixed_value size (str s) = do guard (length s == size) type_validation; err not_bytes
fixed_value size (list vs) = do guard (length (to_list vs) == size) type_validation; err not_bytes
fixed_value size (dict es) = do guard (length (items es) == size) type_validation; err not_bytes
fixed_value size _ = err type_error

unfoldable pub serialize_fixed_bytes : Text → Value → Result Bytes
unfolding byte_size fixed_value
serialize_fixed_bytes t v = do size ← byte_size t; fixed_value size v

unfoldable pub serialize_enum : Value → Result Bytes
unfolding serialize_uint
serialize_enum v = serialize_uint (codes "uint16") v

unfoldable pub deserialize_bool : Bytes → ℕ → Result (Value × ℕ)
unfolding check_data_length
deserialize_bool data_ offset = do
  check_data_length data_ offset 1
  b ← byte_at data_ offset
  ok (bool (not (b == 0)), offset + 1)

-- The value and the next offset, after `byte_size` bytes that are known to be there.
unfoldable pub deserialize_sized : Text → (Bytes → Value) → Bytes → ℕ → Result (Value × ℕ)
unfolding byte_size check_data_length
deserialize_sized t read data_ offset = do
  size ← byte_size t
  check_data_length data_ offset size
  ok (read (slice data_ offset size), offset + size)

unfoldable pub deserialize_uint : Text → Bytes → ℕ → Result (Value × ℕ)
unfolding deserialize_sized from_bytes
deserialize_uint t = deserialize_sized t (λ b. int (pos (from_bytes b)))

unfoldable pub deserialize_int : Text → Bytes → ℕ → Result (Value × ℕ)
unfolding deserialize_sized from_bytes_signed
deserialize_int t = deserialize_sized t (λ b. int (from_bytes_signed b))

-- `struct.unpack('<d', data[offset:offset + 8])`
unfoldable pub deserialize_float : Text → Bytes → ℕ → Result (Value × ℕ)
unfolding byte_size check_data_length from_bytes
deserialize_float t data_ offset = do
  size ← byte_size t
  check_data_length data_ offset size
  ok (float (from_bytes (slice data_ offset 8)), offset + size)

unfoldable pub deserialize_fixed_bytes : Text → Bytes → ℕ → Result (Value × ℕ)
unfolding deserialize_sized
deserialize_fixed_bytes t = deserialize_sized t bytes

unfoldable pub deserialize_enum : Bytes → ℕ → Result (Value × ℕ)
unfolding deserialize_uint
deserialize_enum = deserialize_uint (codes "uint16")
