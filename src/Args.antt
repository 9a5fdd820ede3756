-- ===== src/Args.antt =====
-- The arguments of a contract call, by a signature such as "address:to,uint32:amount":
-- `serialize_args` and `deserialized_args` of dioxide_python_sdk/utils/gadget.py.
pub mod Fallback
pub mod Signature
pub mod RoundTrip
pub mod Errors
pub mod Total
pub mod Examples
use dioxide_python.Prelude.{
  ℕ, zero, suc, ◌+◌, Bool, true, false, Option, none, some, List, [], ◌∷◌, ◌++◌, take, drop,
  if◌then◌else◌, ltb,
}
use dioxide_python.Prelude.Int.{ℤ, pos, negsuc}
use dioxide_python.Prelude.Result.{Result, ok, err, value_error, not_bytes, ◌>>=◌, map_result}
use dioxide_python.Bytes.{Bytes}
use dioxide_python.Text.{Text, codes, strip, rfind, decimal, text_in}
use dioxide_python.Text.Hex.{hex, from_hex}
use dioxide_python.Gcl.Value.{Value, Entries, null, str, list, dict, end, as_int, to_list, items}
use dioxide_python.Gcl.Dict.{get, put}
use dioxide_python.Gcl.TypeName.{split_types}
use dioxide_python.Gcl.Serializer.{serialize, deserialize, fixed_bytes_types}
use dioxide_python.Args.Fallback.{Krock32, parse_manually}
use mathlib.Core.List.{map}

-- The two sides of the last colon of a parameter; without one, the name is f"value#{idx}".
at_colon : ℕ → Text → Option ℕ → Text × Text
unfolding strip decimal
at_colon idx param none = (strip param, codes "value#" ++ decimal idx)
at_colon idx param (some i) = (strip (take i param), strip (drop (i + 1) param))

unfoldable pub type_and_name : ℕ → Text → Text × Text
unfolding at_colon rfind
type_and_name idx param = at_colon idx param (rfind b':' param)

-- A byte that `bytearray.extend` takes out of a list.
byte_of : Option ℤ → Result ℕ
byte_of (some (pos n)) = if ltb n 256 then ok n else err value_error
byte_of _ = err value_error

-- For a blob, a hash or an address the serializer may return a list or a dict of the right length
-- as it is; `bytearray.extend` takes the ints in it.
extended : Value → Result Bytes
unfolding byte_of map_result to_list items as_int
extended (list vs) = map_result (λ v. byte_of (as_int v)) (to_list vs)
extended (dict es) = map_result (λ e. byte_of (as_int e.0)) (items es)
extended _ = err value_error

-- `except Exception` raises ValueError.
extend_with : Text → Value → Result Bytes → Result Bytes
unfolding extended
extend_with t v (ok b) = ok b
extend_with t v (err not_bytes) =
    if text_in t fixed_bytes_types then extended v else err value_error
extend_with t v (err e) = err value_error

or_missing : Option Value → Result Value
or_missing none = err value_error
or_missing (some v) = ok v

-- The loop over the parameters from `idx` on.
unfoldable pub serialize_params : ℕ → List Text → Entries → Result Bytes
unfolding type_and_name extend_with or_missing get serialize
serialize_params idx [] args = ok []
serialize_params idx (param ∷ params) args = do
  let (t, n) = type_and_name idx param
  v ← or_missing (get (str n) args)
  b ← extend_with t v (serialize t v)
  bs ← serialize_params (suc idx) params args
  ok (b ++ bs)

-- `serialize_args(signature, args)`
unfoldable pub serialize_args : Text → Entries → Result Text
unfolding split_types serialize_params hex
serialize_args signature args = do bs ← serialize_params 0 (split_types signature) args; ok (hex bs)

module _ (krock32 : Krock32) where
  -- One parameter: its value, and the offset behind it.
  read_param : Text → Bytes → ℕ → Result (Value × ℕ) → Value × ℕ
  unfolding parse_manually
  read_param t data_ at (ok r) = r
  read_param t data_ at (err e) = parse_manually krock32 t data_ at

  -- The loop over the parameters from `idx` on.
  unfoldable pub deserialize_params : ℕ → List Text → Bytes → ℕ → Entries → Entries × ℕ
  unfolding type_and_name read_param put deserialize
  deserialize_params idx [] data_ at ret = (ret, at)
  deserialize_params idx (param ∷ params) data_ at ret =
      let (t, n) = type_and_name idx param in
      let (v, next) = read_param t data_ at (deserialize t data_ at) in
      deserialize_params (suc idx) params data_ next (put (str n) v ret)

  -- `deserialized_args(signature, sargs, offset=True)`; without `offset`, the dict alone is returned.
  unfoldable pub deserialized_args : Text → Text → Result (Entries × ℕ)
  unfolding split_types deserialize_params from_hex
  deserialized_args signature sargs = do
    data_ ← from_hex sargs
    ok (deserialize_params 0 (split_types signature) data_ 0 end)
