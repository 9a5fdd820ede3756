-- ===== src/Text/Utf8.antt =====
-- `str.encode('utf-8')` and `bytes.decode('utf-8')`, strict as Python's: no surrogates, no overlong
-- forms, nothing above U+10FFFF.
pub mod RoundTrip
use dioxide_python.Prelude.{ℕ, zero, suc, ◌+◌, ◌-◌, ◌*◌, ◌/◌, ◌%◌, Bool, ◌&&◌, not, [], ◌∷◌, ◌++◌}
use dioxide_python.Prelude.{ltb, leb, if◌then◌else◌, length}
use dioxide_python.Prelude.Result.{Result, ok, err, unicode_error, out_of_fuel, ◌>>=◌, ◌>>◌, guard}
use dioxide_python.Bytes.{Bytes}
use dioxide_python.Text.{Text}

abbrev pub is_surrogate : ℕ → Bool
is_surrogate c = leb 0xd800 c && ltb c 0xe000

unfoldable pub encode_char : ℕ → Result Bytes
encode_char c =
    if ltb c 0x80
    then ok (c ∷ [])
    else if ltb c 0x800
    then ok ((0xc0 + c / 64) ∷ (0x80 + c % 64) ∷ [])
    else if is_surrogate c
    then err unicode_error
    else if ltb c 0x10000
    then ok ((0xe0 + c / 4096) ∷ (0x80 + c / 64 % 64) ∷ (0x80 + c % 64) ∷ [])
    else if ltb c 0x110000
    then ok
        ((0xf0 + c / 262144) ∷ (0x80 + c / 4096 % 64) ∷ (0x80 + c / 64 % 64) ∷ (0x80 + c % 64) ∷ [])
    else err unicode_error

-- `value.encode('utf-8')`
unfoldable pub encode : Text → Result Bytes
unfolding encode_char
encode [] = ok []
encode (c ∷ s) = do b ← encode_char c; bs ← encode s; ok (b ++ bs)

-- A continuation byte: its six bits, and what follows.
unfoldable pub continuation : Bytes → Result (ℕ × Bytes)
continuation [] = err unicode_error
continuation (b ∷ bs) = if leb 0x80 b && ltb b 0xc0 then ok (b - 0x80, bs) else err unicode_error

unfoldable pub decode_char : ℕ → Bytes → Result (ℕ × Bytes)
unfolding continuation
decode_char b bs =
    if ltb b 0x80
    then ok (b, bs)
    else if ltb b 0xc0
    then err unicode_error
    else if ltb b 0xe0
    then (do
      (x, r) ← continuation bs
      let c = (b - 0xc0) * 64 + x
      guard (leb 0x80 c) unicode_error
      ok (c, r))
    else if ltb b 0xf0
    then (do
      (x, r) ← continuation bs
      (y, r') ← continuation r
      let c = (b - 0xe0) * 4096 + x * 64 + y
      guard (leb 0x800 c && not (is_surrogate c)) unicode_error
      ok (c, r'))
    else if ltb b 0xf8
    then (do
      (x, r) ← continuation bs
      (y, r') ← continuation r
      (z, r'') ← continuation r'
      let c = (b - 0xf0) * 262144 + x * 4096 + y * 64 + z
      guard (leb 0x10000 c && ltb c 0x110000) unicode_error
      ok (c, r''))
    else err unicode_error

unfoldable pub decode_fuel : ℕ → Bytes → Result Text
unfolding decode_char
decode_fuel fuel [] = ok []
decode_fuel zero (b ∷ bs) = err out_of_fuel
decode_fuel (suc fuel) (b ∷ bs) = do
  (c, rest) ← decode_char b bs
  s ← decode_fuel fuel rest
  ok (c ∷ s)

-- `data.decode('utf-8')`; each character takes a byte at least.
unfoldable pub decode : Bytes → Result Text
unfolding decode_fuel
decode bs = decode_fuel (length bs) bs
