-- ===== src/Gcl/Variable.antt =====
-- The variable-size scalars: string, bigint and token.
pub mod Limbs
pub mod Reads
pub mod TokenReads
use dioxide_python.Prelude.{
  ℕ, zero, suc, ◌+◌, ◌*◌, ◌/◌, ◌%◌, ◌^◌, Bool, true, false, not, Option, none, some, ◌==◌, leb, ltb,
}
use dioxide_python.Prelude.{List, [], ◌∷◌, ◌++◌, length, replicate, bit_and, bit_or, if◌then◌else◌}
use dioxide_python.Prelude.Int.{ℤ, pos, negsuc, is_neg, is_zero, abs, neg}
use dioxide_python.Prelude.Result.{
  Result, ok, err, type_validation, deserialization, unicode_error, ◌>>=◌, ◌>>◌, guard, map_result,
}
use dioxide_python.Bytes.{Bytes, slice, to_bytes, from_bytes, check_data_length}
use dioxide_python.Text.{Text, codes}
use dioxide_python.Text.Utf8.{encode, decode}
use dioxide_python.Gcl.Value.{Value, int, str, dict, Entries, end, entry, as_int}
use dioxide_python.Gcl.Dict.{get}
use dioxide_python.Gcl.Scalar.{serialize_uint, deserialize_uint, byte_at}

unfoldable pub serialize_string : Value → Result Bytes
unfolding encode to_bytes
serialize_string (str s) = do
  utf8 ← encode s
  guard (leb (length utf8) 65535) type_validation
  size ← to_bytes 2 (length utf8)
  ok (size ++ utf8)
serialize_string _ = err type_validation

-- `except UnicodeDecodeError` raises DeserializationError.
unfoldable pub decoded_or_raise : Result Text → Result Text
decoded_or_raise (ok s) = ok s
decoded_or_raise (err unicode_error) = err deserialization
decoded_or_raise (err e) = err e

unfoldable pub deserialize_string : Bytes → ℕ → Result (Value × ℕ)
unfolding decode check_data_length from_bytes decoded_or_raise
deserialize_string data_ offset = do
  check_data_length data_ offset 2
  let size = from_bytes (slice data_ offset 2)
  check_data_length data_ (offset + 2) size
  s ← decoded_or_raise (decode (slice data_ (offset + 2) size))
  ok (str s, offset + 2 + size)

-- `while temp > 0`: the base-2**64 digits, lowest first.
limbs_fuel : ℕ → ℕ → List ℕ
limbs_fuel zero n = []
limbs_fuel (suc fuel) n =
    let more = (n % 2 ^ 64) ∷ limbs_fuel fuel (n / 2 ^ 64) in if n == 0 then [] else more

-- A number is at least the number of its digits.
unfoldable pub limbs : ℕ → List ℕ
unfolding limbs_fuel
limbs n = limbs_fuel n n

-- `for val in uint64_values: result += val.to_bytes(8, ...)`
unfoldable pub limb_bytes : List ℕ → Result Bytes
unfolding to_bytes
limb_bytes [] = ok []
limb_bytes (n ∷ ns) = do b ← to_bytes 8 n; bs ← limb_bytes ns; ok (b ++ bs)

unfoldable pub nonzero_bytes : ℤ → Result Bytes
unfolding limbs limb_bytes
nonzero_bytes z = do
  let values = limbs (abs z)
  let count = length values
  guard (leb count 127) type_validation
  let first_byte = if is_neg z then bit_or count 0x80 else count
  bs ← limb_bytes values
  ok (first_byte ∷ bs)

unfoldable pub bigint_bytes : Option ℤ → Result Bytes
unfolding nonzero_bytes
bigint_bytes none = err type_validation
bigint_bytes (some z) = if is_zero z then ok (0 ∷ replicate 8 0) else nonzero_bytes z

unfoldable pub serialize_bigint : Value → Result Bytes
unfolding bigint_bytes as_int
serialize_bigint v = bigint_bytes (as_int v)

-- The loop over `range(count)`: limbs `i` and on, from offset `at`, added to `value`.
unfoldable pub read_limbs : ℕ → ℕ → ℕ → Bytes → ℕ → ℕ
unfolding from_bytes
read_limbs zero i value data_ at = value
read_limbs (suc count) i value data_ at =
    read_limbs count (suc i) (value + from_bytes (slice data_ at 8) * 2 ^ (64 * i)) data_ (at + 8)

unfoldable pub deserialize_bigint : Bytes → ℕ → Result (Value × ℕ)
unfolding read_limbs check_data_length
deserialize_bigint data_ offset = do
  check_data_length data_ offset 1
  first_byte ← byte_at data_ offset
  let is_negative = not (bit_and first_byte 0x80 == 0)
  let count = bit_and first_byte 0x7f
  let total_size = 1 + count * 8
  check_data_length data_ offset total_size
  let value = read_limbs count 0 0 data_ (offset + 1)
  ok (
      if count == 0
      then (int (pos 0), offset + 1)
      else (int (if is_negative then neg value else pos value), offset + total_size))

unfoldable pub token_bytes : Option Value → Option Value → Result Bytes
unfolding serialize_uint serialize_bigint
token_bytes (some id) (some amount) = do
  id_bytes ← serialize_uint (codes "uint64") id
  amount_bytes ← serialize_bigint amount
  ok (id_bytes ++ amount_bytes)
token_bytes _ _ = err type_validation

unfoldable pub serialize_token : Value → Result Bytes
unfolding token_bytes get
serialize_token (dict es) = token_bytes (get (str (codes "id")) es) (get (str (codes "amount")) es)
serialize_token _ = err type_validation

abbrev pub token : Value → Value → Value
token id amount = dict (entry (str (codes "id")) id (entry (str (codes "amount")) amount end))

unfoldable pub deserialize_token : Bytes → ℕ → Result (Value × ℕ)
unfolding deserialize_uint deserialize_bigint
deserialize_token data_ offset = do
  (id, next_offset) ← deserialize_uint (codes "uint64") data_ offset
  (amount, final_offset) ← deserialize_bigint data_ next_offset
  ok (token id amount, final_offset)
