-- ===== src/Gcl/TypeName.antt =====
-- The type names of the serializer: `_fixed_type_sizes`, the tests on names, and the parts of the
-- names of arrays, maps and structs.
pub mod Shorter
use dioxide_python.Prelude.{
  ℕ, zero, suc, ◌+◌, Bool, true, false, not, ◌&&◌, ◌||◌, ◌==◌, Option, none, some,
}
use dioxide_python.Prelude.{List, [], ◌∷◌, ◌++◌, take, drop, if◌then◌else◌}
use dioxide_python.Prelude.Int.{ℤ, pos, inc, dec, is_zero}
use dioxide_python.Prelude.Result.{Result, ok, err, unsupported_type, ◌>>=◌, ◌>>◌, guard}
use dioxide_python.Text.{
  Text, codes, text_eq, text_in, starts_with, ends_with, inner, find, strip, is_empty,
}

abbrev pub fixed_type_sizes : List (Text × ℕ)
fixed_type_sizes =
    (codes "bool", 1)
    ∷ (codes "uint8", 1)
    ∷ (codes "uint16", 2)
    ∷ (codes "uint32", 4)
    ∷ (codes "uint64", 8)
    ∷ (codes "uint128", 16)
    ∷ (codes "uint256", 32)
    ∷ (codes "uint512", 64)
    ∷ (codes "int8", 1)
    ∷ (codes "int16", 2)
    ∷ (codes "int32", 4)
    ∷ (codes "int64", 8)
    ∷ (codes "int128", 16)
    ∷ (codes "int256", 32)
    ∷ (codes "int512", 64)
    ∷ (codes "float256", 36)
    ∷ (codes "float512", 68)
    ∷ (codes "float1024", 132)
    ∷ (codes "blob", 36)
    ∷ (codes "hash", 32)
    ∷ (codes "address", 36)
    ∷ (codes "enum", 2)
    ∷ []

-- `sizes[t]`; `none` is a missing key.
unfoldable pub size_in : List (Text × ℕ) → Text → Option ℕ
size_in [] t = none
size_in ((name, size) ∷ sizes) t = if text_eq name t then some size else size_in sizes t

unfoldable pub size_of : Text → Option ℕ
unfolding size_in
size_of t = size_in fixed_type_sizes t

-- `t in sizes`
abbrev pub is_some {ℓ} : {A : Type ℓ} → Option A → Bool
is_some none = false
is_some (some _) = true

unfoldable pub is_uint_type : Text → Bool
unfolding size_of
is_uint_type t = starts_with (codes "uint") t && is_some (size_of t)

unfoldable pub is_int_type : Text → Bool
unfolding size_of
is_int_type t = starts_with (codes "int") t && is_some (size_of t)

unfoldable pub is_float_type : Text → Bool
unfolding size_of
is_float_type t = starts_with (codes "float") t && is_some (size_of t)

unfoldable pub is_variable_size_type : Text → Bool
is_variable_size_type t =
    starts_with (codes "array<") t
    || starts_with (codes "map<") t
    || starts_with (codes "struct<") t
    || text_in t (codes "string" ∷ codes "bigint" ∷ codes "token" ∷ [])

unfoldable pub extract_array_element_type : Text → Result Text
unfolding ends_with
extract_array_element_type t = do
  guard (starts_with (codes "array<") t && ends_with (codes ">") t) unsupported_type
  ok (inner 6 t)

-- The two sides of the first comma.
key_and_value : Text → Option ℕ → Result (Text × Text)
unfolding strip
key_and_value t none = err unsupported_type
key_and_value t (some i) = ok (strip (take i t), strip (drop (i + 1) t))

unfoldable pub extract_map_types : Text → Result (Text × Text)
unfolding ends_with find key_and_value
extract_map_types t = do
  guard (starts_with (codes "map<") t && ends_with (codes ">") t) unsupported_type
  key_and_value (inner 4 t) (find b',' (inner 4 t))

-- How one character changes the nesting depth, which may fall below zero.
abbrev pub deeper : ℕ → ℤ → ℤ
deeper c depth = if c == b'<' then inc depth else if c == b'>' then dec depth else depth

-- A comma outside all brackets ends a part.
abbrev pub ends_part : ℕ → ℤ → Bool
ends_part c depth = c == b',' && is_zero depth

-- The loop that splits at the commas outside brackets; the parts so far, the part being read, and
-- the depth are its variables. utils/gadget.py has it twice more.
unfoldable pub split_loop : List Text → Text → ℤ → Text → List Text
unfolding strip
split_loop parts cur depth [] = if is_empty (strip cur) then parts else parts ++ (strip cur ∷ [])
split_loop parts cur depth (c ∷ s) =
    let closed = split_loop (parts ++ (strip cur ∷ [])) [] depth s in
    let longer = split_loop parts (cur ++ (c ∷ [])) (deeper c depth) s in
    if ends_part c depth then closed else longer

unfoldable pub split_types : Text → List Text
unfolding split_loop
split_types t = split_loop [] [] (pos 0) t

unfoldable pub extract_struct_member_types : Text → Result (List Text)
unfolding ends_with strip split_types
extract_struct_member_types t = do
  guard (starts_with (codes "struct<") t && ends_with (codes ">") t) unsupported_type
  ok (if is_empty (strip (inner 7 t)) then [] else split_types (inner 7 t))
