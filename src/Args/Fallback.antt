-- ===== src/Args/Fallback.antt =====
-- The parsing by hand that `deserialized_args` of dioxide_python_sdk/utils/gadget.py falls back to
-- when the serializer refuses. Slices may be short, and an exception in it gives None; what was
-- added to the offset by then stays added.
use dioxide_python.Prelude.{
  ℕ, zero, suc, ◌+◌, ◌-◌, ◌*◌, ◌^◌, not, Option, none, some, List, [], ◌∷◌, if◌then◌else◌, ◌==◌,
  bit_and,
}
use dioxide_python.Prelude.Int.{pos, neg}
use dioxide_python.Prelude.Result.{Result, ok, err, ◌>>=◌}
use dioxide_python.Bytes.{Bytes, slice, from_bytes, from_bytes_signed}
use dioxide_python.Text.{Text, codes, text_eq, text_in}
use dioxide_python.Text.Hex.{hex}
use dioxide_python.Text.Utf8.{decode}
use dioxide_python.Gcl.Value.{Value, null, bool, int, str, dict, end, entry}
use dioxide_python.Gcl.Scalar.{byte_at}
use dioxide_python.Gcl.TypeName.{size_of}
use dioxide_python.Gcl.Serializer.{deserialize}

-- The module krock32, where it could be imported: the lower-cased text that its encoder makes of
-- bytes.
abbrev pub Krock32 : Type 0
Krock32 = Option (Bytes → Text)

encoded : Krock32 → Bytes → Text
unfolding hex
encoded (some encode) b = encode b
encoded none b = hex b

abbrev uint_types : List Text
uint_types =
    codes "uint8"
    ∷ codes "uint16"
    ∷ codes "uint32"
    ∷ codes "uint64"
    ∷ codes "uint128"
    ∷ codes "uint256"
    ∷ codes "uint512"
    ∷ []

abbrev int_types : List Text
int_types =
    codes "int8"
    ∷ codes "int16"
    ∷ codes "int32"
    ∷ codes "int64"
    ∷ codes "int128"
    ∷ codes "int256"
    ∷ codes "int512"
    ∷ []

-- `int(type_name[4:]) // 8`, for the names in the lists
width_of : Option ℕ → ℕ
width_of none = 0
width_of (some n) = n

parse_bool : ℕ → Result ℕ → Value × ℕ
parse_bool at (ok b) = (bool (not (b == 0)), at + 1)
parse_bool at (err e) = (null, at)

parse_string : ℕ → ℕ → Result Text → Value × ℕ
parse_string at size (ok s) = (str s, at + size)
parse_string at size (err e) = (null, at)

-- `for i in range(nlen-1,-1,-1)`: the last limb first.
limbs_down : ℕ → Bytes → ℕ → ℕ → ℕ
unfolding from_bytes
limbs_down zero data_ at value = value
limbs_down (suc i) data_ at value =
    limbs_down i data_ at (value * 2 ^ 64 + from_bytes (slice data_ (at + i * 8) 8))

parse_bigint : Bytes → ℕ → Value × ℕ
unfolding limbs_down
parse_bigint data_ at =
    let bitmask = from_bytes (slice data_ at 1) in
    let nlen = bit_and bitmask 0x7f in
    let value = limbs_down nlen data_ (at + 1) 0 in
    (int (if bit_and bitmask 0x80 == 0 then pos value else neg value), at + 1 + nlen * 8)

-- `for i in range(current_offset, current_offset + 8)`: the place of the first zero, or the end.
find_zero : ℕ → Bytes → ℕ → Result ℕ
find_zero zero data_ i = ok i
find_zero (suc count) data_ i = do
  b ← byte_at data_ i
  let rest = find_zero count data_ (i + 1)
  if b == 0 then ok i else rest

-- The amount behind the symbol; where it is refused, the eight bytes of the symbol stay skipped.
token_amount : Text → ℕ → Result (Value × ℕ) → Value × ℕ
token_amount symbol at (ok (amount, next)) = (dict (entry (str symbol) amount end), next)
token_amount symbol at (err e) = (null, at)

parse_token : Bytes → ℕ → Result Text → Value × ℕ
unfolding token_amount deserialize
parse_token data_ at (ok symbol) =
    token_amount symbol (at + 8) (deserialize (codes "bigint") data_ (at + 8))
parse_token data_ at (err e) = (null, at)

token_symbol : Bytes → ℕ → Result Text
unfolding find_zero decode
token_symbol data_ at = do stop ← find_zero 8 data_ at; decode (slice data_ at (stop - at))

module _ (krock32 : Krock32) where
  unfoldable pub parse_manually : Text → Bytes → ℕ → Value × ℕ
  unfolding encoded width_of size_of parse_bool parse_string parse_bigint parse_token token_symbol
  parse_manually t data_ at =
      let width = width_of (size_of t) in
      if text_in t uint_types
      then (int (pos (from_bytes (slice data_ at width))), at + width)
      else if text_in t int_types
      then (int (from_bytes_signed (slice data_ at width)), at + width)
      else if text_eq t (codes "bool")
      then parse_bool at (byte_at data_ at)
      else if text_eq t (codes "hash")
      then (str (encoded krock32 (slice data_ at 32)), at + 32)
      else if text_eq t (codes "address")
      then (str (encoded krock32 (slice data_ at 36)), at + 36)
      else if text_eq t (codes "string")
      then (let size = from_bytes (slice data_ at 2) in
          parse_string (at + 2) size (decode (slice data_ (at + 2) size)))
      else if text_eq t (codes "bigint")
      then parse_bigint data_ at
      else if text_eq t (codes "token")
      then parse_token data_ at (token_symbol data_ at)
      else (null, at)
