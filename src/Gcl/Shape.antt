-- ===== src/Gcl/Shape.antt =====
-- The GCL types as trees, and the names by which the serializer knows them. `Fixed` are the
-- fixed-size members of the enumeration `GclType`; a key of a map has a fixed size, is a string or
-- is a bigint, which are the names that `_serialize_map` lets through; with the others it raises an
-- error.
pub mod Names
pub mod Split
pub mod Dispatch
pub mod Decoded
pub mod Leaves
pub mod RoundTrip
pub mod Whole
pub mod Bounds
pub mod Typed
pub mod Sized
use dioxide_python.Prelude.{List, [], ◌∷◌, ◌++◌, Bool, true, false, not, ◌&&◌}
use dioxide_python.Text.{Text, codes}

pub data Width : Type 0 where
  w8 w16 w32 w64 w128 w256 w512 : Width

pub data FloatWidth : Type 0 where
  f256 f512 f1024 : FloatWidth

pub data Fixed : Type 0 where
  bool : Fixed
  uint : Width → Fixed
  int : Width → Fixed
  float : FloatWidth → Fixed
  blob hash address enum : Fixed

pub data Key : Type 0 where
  fixed : Fixed → Key
  string bigint : Key

mutual
  pub data Shape : Type 0 where
    fixed : Fixed → Shape
    string bigint token : Shape
    array : Shape → Shape
    map : Key → Shape → Shape
    struct : Members → Shape

  pub data Members : Type 0 where
    none : Members
    more : Shape → Members → Members

abbrev pub width_name : Width → Text
width_name w8 = codes "8"
width_name w16 = codes "16"
width_name w32 = codes "32"
width_name w64 = codes "64"
width_name w128 = codes "128"
width_name w256 = codes "256"
width_name w512 = codes "512"

abbrev pub fixed_name : Fixed → Text
fixed_name bool = codes "bool"
fixed_name (uint w) = codes "uint" ++ width_name w
fixed_name (int w) = codes "int" ++ width_name w
fixed_name (float f256) = codes "float256"
fixed_name (float f512) = codes "float512"
fixed_name (float f1024) = codes "float1024"
fixed_name blob = codes "blob"
fixed_name hash = codes "hash"
fixed_name address = codes "address"
fixed_name enum = codes "enum"

abbrev pub key_name : Key → Text
key_name (fixed k) = fixed_name k
key_name string = codes "string"
key_name bigint = codes "bigint"

unfoldable mutual
  pub name : Shape → Text
  name (fixed k) = fixed_name k
  name string = codes "string"
  name bigint = codes "bigint"
  name token = codes "token"
  name (array s) = codes "array<" ++ (name s ++ codes ">")
  name (map k s) = codes "map<" ++ ((key_name k ++ (b',' ∷ name s)) ++ codes ">")
  name (struct ms) = codes "struct<" ++ (members_name ms ++ codes ">")

  pub members_name : Members → Text
  members_name none = []
  members_name (more s ms) = name s ++ others_name ms

  pub others_name : Members → Text
  others_name none = []
  others_name (more s ms) = b',' ∷ (name s ++ others_name ms)

abbrev pub is_bigint_key : Key → Bool
is_bigint_key bigint = true
is_bigint_key _ = false

-- No map inside has keys of type bigint.
unfoldable mutual
  pub no_bigint_key : Shape → Bool
  no_bigint_key (array s) = no_bigint_key s
  no_bigint_key (map k s) = not (is_bigint_key k) && no_bigint_key s
  no_bigint_key (struct ms) = no_bigint_keys ms
  no_bigint_key _ = true

  pub no_bigint_keys : Members → Bool
  no_bigint_keys none = true
  no_bigint_keys (more s ms) = no_bigint_key s && no_bigint_keys ms

unfoldable pub names : Members → List Text
unfolding name
names none = []
names (more s ms) = name s ∷ names ms
