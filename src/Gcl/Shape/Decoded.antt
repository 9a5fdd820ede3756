-- ===== src/Gcl/Shape/Decoded.antt =====
-- The value that comes back when what was written is read: a bool given for an int is an int, a
-- float type holds 64 bits, and the members of a struct are named by their places.
use dioxide_python.Prelude.{ℕ, List, [], ◌∷◌, length}
use dioxide_python.Prelude.Result.{Result, ok, err}
use dioxide_python.Bytes.{Bytes}
use dioxide_python.Text.{codes}
use dioxide_python.Gcl.Value.{
  Value, Entries, list, dict, bool, to_list, from_list, items, as_int, truthy,
}
use dioxide_python.Gcl.Dict.{dict_zip, or_end}
use dioxide_python.Gcl.Scalar.{as_float}
use dioxide_python.Gcl.Scalar.Reads.{int_or, float_or}
use dioxide_python.Gcl.Variable.Reads.{bigint_size}
use dioxide_python.Gcl.Variable.TokenReads.{token_or, token_size, field, amount_int}
use dioxide_python.Gcl.Container.{member_values, members_from}
use dioxide_python.Gcl.Shape.{Fixed, Key, Shape, Members}
use mathlib.Core.List.{map}

abbrev pub decoded_fixed : Fixed → Value → Value
decoded_fixed Fixed.bool v = bool (truthy v)
decoded_fixed (Fixed.uint w) v = int_or (as_int v) v
decoded_fixed (Fixed.int w) v = int_or (as_int v) v
decoded_fixed (Fixed.float w) v = float_or (as_float v) v
decoded_fixed Fixed.enum v = int_or (as_int v) v
decoded_fixed Fixed.blob v = v
decoded_fixed Fixed.hash v = v
decoded_fixed Fixed.address v = v

abbrev pub decoded_key : Key → Value → Value
decoded_key (Key.fixed k) v = decoded_fixed k v
decoded_key Key.string v = v
decoded_key Key.bigint v = int_or (as_int v) v

abbrev pub decoded_list : (Value → Value) → Value → Value
decoded_list f (list vs) = list (from_list (map f (to_list vs)))
decoded_list f v = v

abbrev pub decoded_items : (Value → Value) → (Value → Value) → List (Value × Value) → Result Entries
decoded_items f g es = dict_zip (map (λ e. f e.0) es) (map (λ e. g e.1) es)

abbrev pub decoded_map : (Value → Value) → (Value → Value) → Value → Value
decoded_map f g (dict es) = dict (or_end (decoded_items f g (items es)))
decoded_map f g v = v

abbrev pub decoded_struct : (List Value → List Value) → Result (List Value) → Value → Value
decoded_struct f (ok vs) v = dict (members_from 0 (f vs))
decoded_struct f (err e) v = v

unfoldable mutual
  pub decoded : Shape → Value → Value
  decoded (Shape.fixed k) v = decoded_fixed k v
  decoded Shape.string v = v
  decoded Shape.bigint v = int_or (as_int v) v
  decoded Shape.token v = token_or (field (codes "id") v) (field (codes "amount") v) v
  decoded (Shape.array s) v = decoded_list (decoded s) v
  decoded (Shape.map k s) v = decoded_map (decoded_key k) (decoded s) v
  decoded (Shape.struct ms) v = decoded_struct (decoded_members ms) (member_values v) v

  pub decoded_members : Members → List Value → List Value
  decoded_members Members.none vs = []
  decoded_members (Members.more s ms) [] = []
  decoded_members (Members.more s ms) (v ∷ vs) = decoded s v ∷ decoded_members ms vs

-- How far the reader goes: to the end of what was written, but for a zero bigint or amount, of
-- whose nine bytes only the first is read.
abbrev pub read_size : Shape → Value → Bytes → ℕ
read_size Shape.bigint v bs = bigint_size (as_int v) bs
read_size Shape.token v bs = token_size (amount_int (field (codes "amount") v)) bs
read_size _ v bs = length bs
