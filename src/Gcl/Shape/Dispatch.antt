-- ===== src/Gcl/Shape/Dispatch.antt =====
-- The dispatch of the serializer at the names of the types.
use dioxide_python.Prelude.{ℕ, ◌≡◌, refl, Bool, true, false}
use dioxide_python.Bytes.{Bytes}
use dioxide_python.Text.{codes}
use dioxide_python.Gcl.Value.{Value}
use dioxide_python.Gcl.TypeName.{is_variable_size_type}
use dioxide_python.Gcl.Scalar.{
  serialize_bool, serialize_uint, serialize_int, serialize_float, serialize_fixed_bytes,
  serialize_enum,
}
use dioxide_python.Gcl.Scalar.{
  deserialize_bool, deserialize_uint, deserialize_int, deserialize_float, deserialize_fixed_bytes,
  deserialize_enum,
}
use dioxide_python.Gcl.Table.{Deserializer}
use dioxide_python.Gcl.Container.{Serializer, serialize_array, serialize_map, serialize_struct}
use dioxide_python.Gcl.Container.{deserialize_array, deserialize_map, deserialize_struct}
use dioxide_python.Gcl.Serializer.{serialize_step, deserialize_step}
use dioxide_python.Gcl.Shape.{
  Width, FloatWidth, Fixed, Key, Shape, Members, fixed_name, key_name, name,
}
use dioxide_python.Gcl.Shape.Split.{extract_array-name, extract_map-name}
use dioxide_python.Prelude.Result.{Result}

module _ (v : Value) where
  unfoldable pub serialize_fixed : Fixed → Result Bytes
  serialize_fixed Fixed.bool = serialize_bool v
  serialize_fixed (Fixed.uint w) = serialize_uint (fixed_name (Fixed.uint w)) v
  serialize_fixed (Fixed.int w) = serialize_int (fixed_name (Fixed.int w)) v
  serialize_fixed (Fixed.float w) = serialize_float (fixed_name (Fixed.float w)) v
  serialize_fixed Fixed.blob = serialize_fixed_bytes (codes "blob") v
  serialize_fixed Fixed.hash = serialize_fixed_bytes (codes "hash") v
  serialize_fixed Fixed.address = serialize_fixed_bytes (codes "address") v
  serialize_fixed Fixed.enum = serialize_enum v

module _ (rec : Serializer) (v : Value) where
  pub serialize-fixed_name : (k : Fixed) → serialize_step rec (fixed_name k) v ≡ serialize_fixed v k
  unfolding serialize_step serialize_fixed
  serialize-fixed_name (Fixed.uint Width.w8) = refl
  serialize-fixed_name (Fixed.uint _) = refl
  serialize-fixed_name (Fixed.int Width.w8) = refl
  serialize-fixed_name (Fixed.int _) = refl
  serialize-fixed_name (Fixed.float FloatWidth.f256) = refl
  serialize-fixed_name (Fixed.float _) = refl
  serialize-fixed_name _ = refl

  pub serialize-array :
      (s : Shape) → serialize_step rec (name (Shape.array s)) v ≡ serialize_array rec (name s) v
  unfolding serialize_step name
  serialize-array s = rw (extract_array-name s)

  pub serialize-map :
      (k : Key) (s : Shape)
      → serialize_step rec (name (Shape.map k s)) v ≡ serialize_map rec (key_name k) (name s) v
  unfolding serialize_step name
  serialize-map k s = rw (extract_map-name k s)

  pub serialize-struct :
      (ms : Members)
      → serialize_step rec (name (Shape.struct ms)) v
        ≡ serialize_struct rec (name (Shape.struct ms)) v
  unfolding serialize_step name
  serialize-struct ms = refl

module _ (data_ : Bytes) (at : ℕ) where
  unfoldable pub deserialize_fixed : Fixed → Result (Value × ℕ)
  deserialize_fixed Fixed.bool = deserialize_bool data_ at
  deserialize_fixed (Fixed.uint w) = deserialize_uint (fixed_name (Fixed.uint w)) data_ at
  deserialize_fixed (Fixed.int w) = deserialize_int (fixed_name (Fixed.int w)) data_ at
  deserialize_fixed (Fixed.float w) = deserialize_float (fixed_name (Fixed.float w)) data_ at
  deserialize_fixed Fixed.blob = deserialize_fixed_bytes (codes "blob") data_ at
  deserialize_fixed Fixed.hash = deserialize_fixed_bytes (codes "hash") data_ at
  deserialize_fixed Fixed.address = deserialize_fixed_bytes (codes "address") data_ at
  deserialize_fixed Fixed.enum = deserialize_enum data_ at

module _ (rec : Deserializer) (data_ : Bytes) (at : ℕ) where
  pub deserialize-fixed_name :
      (k : Fixed) → deserialize_step rec (fixed_name k) data_ at ≡ deserialize_fixed data_ at k
  unfolding deserialize_step deserialize_fixed
  deserialize-fixed_name (Fixed.uint Width.w8) = refl
  deserialize-fixed_name (Fixed.uint _) = refl
  deserialize-fixed_name (Fixed.int Width.w8) = refl
  deserialize-fixed_name (Fixed.int _) = refl
  deserialize-fixed_name (Fixed.float FloatWidth.f256) = refl
  deserialize-fixed_name (Fixed.float _) = refl
  deserialize-fixed_name _ = refl

  pub deserialize-array :
      (s : Shape)
      → deserialize_step rec (name (Shape.array s)) data_ at
        ≡ deserialize_array rec (name s) data_ at
  unfolding deserialize_step name
  deserialize-array s = rw (extract_array-name s)

  pub deserialize-map :
      (k : Key) (s : Shape)
      → deserialize_step rec (name (Shape.map k s)) data_ at
        ≡ deserialize_map rec (key_name k) (name s) data_ at
  unfolding deserialize_step name
  deserialize-map k s = rw (extract_map-name k s)

  pub deserialize-struct :
      (ms : Members)
      → deserialize_step rec (name (Shape.struct ms)) data_ at
        ≡ deserialize_struct rec (name (Shape.struct ms)) data_ at
  unfolding deserialize_step name
  deserialize-struct ms = refl

-- Which types get an offset table.
abbrev pub has_variable_size : Shape → Bool
has_variable_size (Shape.fixed _) = false
has_variable_size _ = true

pub is_variable_size-name : (s : Shape) → is_variable_size_type (name s) ≡ has_variable_size s
unfolding is_variable_size_type name
is_variable_size-name (Shape.fixed Fixed.bool) = refl
is_variable_size-name (Shape.fixed (Fixed.uint Width.w8)) = refl
is_variable_size-name (Shape.fixed (Fixed.uint _)) = refl
is_variable_size-name (Shape.fixed (Fixed.int Width.w8)) = refl
is_variable_size-name (Shape.fixed (Fixed.int _)) = refl
is_variable_size-name (Shape.fixed (Fixed.float FloatWidth.f256)) = refl
is_variable_size-name (Shape.fixed (Fixed.float _)) = refl
is_variable_size-name (Shape.fixed _) = refl
is_variable_size-name _ = refl
