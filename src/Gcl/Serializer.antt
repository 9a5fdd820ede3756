-- ===== src/Gcl/Serializer.antt =====
-- `GclSerializer.serialize` and `deserialize`: the dispatch on the type name. A container calls the
-- dispatch again with a shorter name, so the length of the name bounds the depth of the calls.
pub mod Fuel
pub mod ReadFuel
use dioxide_python.Prelude.{ℕ, zero, suc, List, [], ◌∷◌, length, if◌then◌else◌}
use dioxide_python.Prelude.Result.{Result, ok, err, unsupported_type, out_of_fuel, ◌>>=◌}
use dioxide_python.Bytes.{Bytes}
use dioxide_python.Text.{Text, codes, text_eq, text_in, starts_with}
use dioxide_python.Gcl.Value.{Value}
use dioxide_python.Gcl.TypeName.{is_uint_type, is_int_type, is_float_type}
use dioxide_python.Gcl.TypeName.{extract_array_element_type, extract_map_types}
use dioxide_python.Gcl.Scalar.{
  serialize_bool, serialize_uint, serialize_int, serialize_float, serialize_fixed_bytes,
  serialize_enum,
}
use dioxide_python.Gcl.Scalar.{
  deserialize_bool, deserialize_uint, deserialize_int, deserialize_float, deserialize_fixed_bytes,
  deserialize_enum,
}
use dioxide_python.Gcl.Variable.{serialize_string, serialize_bigint, serialize_token}
use dioxide_python.Gcl.Variable.{deserialize_string, deserialize_bigint, deserialize_token}
use dioxide_python.Gcl.Table.{Deserializer}
use dioxide_python.Gcl.Container.{Serializer, serialize_array, serialize_map, serialize_struct}
use dioxide_python.Gcl.Container.{deserialize_array, deserialize_map, deserialize_struct}

abbrev pub fixed_bytes_types : List Text
fixed_bytes_types = codes "blob" ∷ codes "hash" ∷ codes "address" ∷ []

-- One round of `serialize`; `rec` makes the calls for the elements of a container.
unfoldable pub serialize_step : Serializer → Serializer
unfolding is_uint_type is_int_type is_float_type extract_array_element_type extract_map_types
serialize_step rec t v =
    if is_uint_type t
    then serialize_uint t v
    else if is_int_type t
    then serialize_int t v
    else if text_eq t (codes "bool")
    then serialize_bool v
    else if is_float_type t
    then serialize_float t v
    else if text_in t fixed_bytes_types
    then serialize_fixed_bytes t v
    else if text_eq t (codes "enum")
    then serialize_enum v
    else if text_eq t (codes "string")
    then serialize_string v
    else if text_eq t (codes "bigint")
    then serialize_bigint v
    else if text_eq t (codes "token")
    then serialize_token v
    else if starts_with (codes "array<") t
    then (do element_type ← extract_array_element_type t; serialize_array rec element_type v)
    else if starts_with (codes "map<") t
    then (do (key_type, value_type) ← extract_map_types t; serialize_map rec key_type value_type v)
    else if starts_with (codes "struct<") t
    then serialize_struct rec t v
    else err unsupported_type

-- One round of `deserialize`.
unfoldable pub deserialize_step : Deserializer → Deserializer
unfolding is_uint_type is_int_type is_float_type extract_array_element_type extract_map_types
deserialize_step rec t data_ offset =
    if is_uint_type t
    then deserialize_uint t data_ offset
    else if is_int_type t
    then deserialize_int t data_ offset
    else if text_eq t (codes "bool")
    then deserialize_bool data_ offset
    else if is_float_type t
    then deserialize_float t data_ offset
    else if text_in t fixed_bytes_types
    then deserialize_fixed_bytes t data_ offset
    else if text_eq t (codes "enum")
    then deserialize_enum data_ offset
    else if text_eq t (codes "string")
    then deserialize_string data_ offset
    else if text_eq t (codes "bigint")
    then deserialize_bigint data_ offset
    else if text_eq t (codes "token")
    then deserialize_token data_ offset
    else if starts_with (codes "array<") t
    then (do
      element_type ← extract_array_element_type t
      deserialize_array rec element_type data_ offset)
    else if starts_with (codes "map<") t
    then (do
      (key_type, value_type) ← extract_map_types t
      deserialize_map rec key_type value_type data_ offset)
    else if starts_with (codes "struct<") t
    then deserialize_struct rec t data_ offset
    else err unsupported_type

unfoldable pub serialize_fuel : ℕ → Serializer
serialize_fuel zero t v = err out_of_fuel
serialize_fuel (suc fuel) t v = serialize_step (serialize_fuel fuel) t v

unfoldable pub deserialize_fuel : ℕ → Deserializer
deserialize_fuel zero t data_ offset = err out_of_fuel
deserialize_fuel (suc fuel) t data_ offset = deserialize_step (deserialize_fuel fuel) t data_ offset

-- `serialize(type_name, value)`
unfoldable pub serialize : Text → Value → Result Bytes
unfolding serialize_fuel
serialize t v = serialize_fuel (suc (length t)) t v

-- `deserialize(type_name, data, offset)`
unfoldable pub deserialize : Text → Bytes → ℕ → Result (Value × ℕ)
unfolding deserialize_fuel
deserialize t data_ offset = deserialize_fuel (suc (length t)) t data_ offset
