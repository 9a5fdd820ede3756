-- ===== src/Gcl/Container.antt =====
-- Arrays, maps and structs. `rec` is `self.serialize` or `self.deserialize`, which the methods call
-- for the elements.
pub mod Tables
pub mod Arrays
pub mod Maps
pub mod Structs
use dioxide_python.Prelude.{
  ℕ, zero, suc, ◌+◌, ◌-◌, ◌*◌, ◌/◌, List, [], ◌∷◌, ◌++◌, length, ◌==◌, bit_or, if◌then◌else◌,
}
use dioxide_python.Prelude.Result.{
  Result, ok, err, type_validation, deserialization, ◌>>=◌, ◌>>◌, guard, map_result,
}
use dioxide_python.Bytes.{Bytes, slice, to_bytes, from_bytes, check_data_length}
use dioxide_python.Text.{Text, codes, text_eq, decimal}
use dioxide_python.Gcl.Value.{
  Value, Entries, list, dict, str, end, entry, to_list, from_list, items, from_items,
}
use dioxide_python.Gcl.Dict.{dict_zip}
use dioxide_python.Gcl.TypeName.{is_variable_size_type, extract_struct_member_types}
use dioxide_python.Gcl.Infer.{infer_type}
use dioxide_python.Gcl.Table.{
  Deserializer, join, end_offsets, offset_bytes, read_offsets, last_or, read_many, read_at,
  read_slices,
}
use mathlib.Core.List.{map, zip}

-- `self.serialize`
abbrev pub Serializer : Type 0
Serializer = Text → Value → Result Bytes

-- The offset table over `parts`, and the parts.
unfoldable pub with_table : List Bytes → Result Bytes
unfolding join end_offsets offset_bytes
with_table parts = do
  table ← offset_bytes (end_offsets (length parts * 4) parts)
  ok (table ++ join parts)

-- `list(value.values())` of a dict, a list as it is
unfoldable pub member_values : Value → Result (List Value)
unfolding to_list items
member_values (dict es) = ok (map (λ e. e.1) (items es))
member_values (list vs) = ok (to_list vs)
member_values _ = err type_validation

module _ (rec : Serializer) where
  unfoldable pub array_bytes : Text → List Value → Result Bytes
  unfolding map_result with_table to_bytes is_variable_size_type
  array_bytes t vs = do
    size ← to_bytes 4 (length vs)
    if is_variable_size_type t
        then (if length vs == 0
            then ok size
            else do parts ← map_result (rec t) vs; rest ← with_table parts; ok (size ++ rest))
        else (do parts ← map_result (rec t) vs; ok (size ++ join parts))

  unfoldable pub serialize_array : Text → Value → Result Bytes
  unfolding array_bytes to_list
  serialize_array t (list vs) = array_bytes t (to_list vs)
  serialize_array t _ = err type_validation

  unfoldable pub map_bytes : Text → Text → List (Value × Value) → Result Bytes
  unfolding map_result with_table to_bytes is_variable_size_type
  map_bytes key_type value_type es = do
    size ← to_bytes 4 (length es)
    keys ← map_result (λ e. rec key_type e.0) es
    parts ← map_result (λ e. rec value_type e.1) es
    rest ← (if is_variable_size_type value_type then with_table parts else ok (join parts))
    ok (size ++ (join keys ++ rest))

  unfoldable pub serialize_map : Text → Text → Value → Result Bytes
  unfolding map_bytes items
  serialize_map key_type value_type (dict es) = map_bytes key_type value_type (items es)
  serialize_map key_type value_type _ = err type_validation

  -- `for member_type, member_value in zip(member_types, member_values)`
  unfoldable pub serialize_members : List Text → List Value → Result (List Bytes)
  serialize_members [] vs = ok []
  serialize_members (t ∷ ts) [] = ok []
  serialize_members (t ∷ ts) (v ∷ vs) = do b ← rec t v; bs ← serialize_members ts vs; ok (b ∷ bs)

  unfoldable pub struct_bytes : List Text → List Value → Result Bytes
  unfolding serialize_members with_table to_bytes
  struct_bytes types values = do
    guard (length values == length types) type_validation
    header ← to_bytes 4 (bit_or (length types * 16) 3)
    if length types == 0
        then ok header
        else do parts ← serialize_members types values; rest ← with_table parts; ok (header ++ rest)

  unfoldable pub serialize_struct : Text → Value → Result Bytes
  unfolding member_values struct_bytes infer_type extract_struct_member_types map_result
  serialize_struct t v = do
    values ← member_values v
    types ←
        (if text_eq t (codes "struct")
          then map_result infer_type values
          else extract_struct_member_types t)
    struct_bytes types values

-- f"member_{i}"
unfoldable pub member_name : ℕ → Value
unfolding decimal
member_name i = str (codes "member_" ++ decimal i)

-- `members[f"member_{i}"] = member_value` for `i` and on; no two of the names are equal.
unfoldable pub members_from : ℕ → List Value → Entries
unfolding member_name
members_from i [] = end
members_from i (v ∷ vs) = entry (member_name i) v (members_from (suc i) vs)

module _ (rec : Deserializer) where
  unfoldable pub deserialize_array : Text → Bytes → ℕ → Result (Value × ℕ)
  unfolding check_data_length from_bytes read_offsets read_many read_slices from_list
      is_variable_size_type
  deserialize_array t data_ offset = do
    check_data_length data_ offset 4
    let size = from_bytes (slice data_ offset 4)
    let start = offset + 4
    if size == 0
        then ok (list (from_list []), start)
        else if is_variable_size_type t
        then (do
          check_data_length data_ start (size * 4)
          let offsets = read_offsets size data_ start
          let elements_start = start + size * 4
          elements ← read_slices rec t data_ elements_start (size * 4) elements_start offsets
          ok (list (from_list elements), elements_start + last_or 0 offsets - size * 4))
        else (do
          (elements, after) ← read_many rec t data_ size start
          ok (list (from_list elements), after))

  -- The values of a map and the offset behind them.
  unfoldable pub map_values : Text → Bytes → ℕ → ℕ → Result (List Value × ℕ)
  unfolding check_data_length read_offsets read_many read_at is_variable_size_type
  map_values t data_ size start =
      if is_variable_size_type t
      then (do
        check_data_length data_ start (size * 4)
        let offsets = read_offsets size data_ start
        values ← read_at rec data_ start (start + size * 4) (map (λ o. (t, o)) offsets)
        ok (values, if size == 0 then start else start + last_or 0 offsets))
      else read_many rec t data_ size start

  unfoldable pub deserialize_map : Text → Text → Bytes → ℕ → Result (Value × ℕ)
  unfolding check_data_length from_bytes read_many map_values dict_zip
  deserialize_map key_type value_type data_ offset = do
    check_data_length data_ offset 4
    let size = from_bytes (slice data_ offset 4)
    (keys, values_start) ← read_many rec key_type data_ size (offset + 4)
    (values, after) ← map_values value_type data_ size values_start
    result ← dict_zip keys values
    ok (dict result, after)

  -- The members, once their types are known.
  unfoldable pub struct_members : List Text → Bytes → ℕ → Result (Value × ℕ)
  unfolding check_data_length read_offsets read_at members_from
  struct_members types data_ start = do
    let count = length types
    check_data_length data_ start (count * 4)
    let offsets = read_offsets count data_ start
    members ← read_at rec data_ start (start + count * 4) (zip types offsets)
    ok (dict (members_from 0 members), start + last_or 0 offsets)

  unfoldable pub deserialize_struct : Text → Bytes → ℕ → Result (Value × ℕ)
  unfolding check_data_length from_bytes struct_members extract_struct_member_types
  deserialize_struct t data_ offset = do
    check_data_length data_ offset 4
    let count = from_bytes (slice data_ offset 4) / 16
    let start = offset + 4
    if count == 0
        then ok (dict end, start)
        else if text_eq t (codes "struct")
        then err deserialization
        else (do
          types ← extract_struct_member_types t
          guard (count == length types) deserialization
          struct_members types data_ start)
