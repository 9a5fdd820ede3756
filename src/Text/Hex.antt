-- ===== src/Text/Hex.antt =====
-- `bytes.hex()` and `bytes.fromhex(text)`, for utils/gadget.py.
use dioxide_python.Prelude.{
  ℕ, ◌+◌, ◌-◌, ◌*◌, ◌/◌, ◌%◌, ◌<◌, ◌≡◌, refl, Bool, false, ◌&&◌, ◌||◌, ◌==◌, [], ◌∷◌, All, arith,
}
use dioxide_python.Prelude.{ltb, leb, if◌then◌else◌}
use dioxide_python.Prelude.Result.{Result, ok, err, value_error, ◌>>=◌}
use dioxide_python.Bytes.{Bytes}
use dioxide_python.Bytes.Laws.{IsByte}
use dioxide_python.Text.{Text}

abbrev hex_digit : ℕ → ℕ
hex_digit n = if ltb n 10 then 48 + n else 87 + n

unfoldable pub hex : Bytes → Text
hex [] = []
hex (b ∷ bs) = hex_digit (b / 16) ∷ hex_digit (b % 16) ∷ hex bs

-- The value of a digit, in either case.
unfoldable pub hex_value : ℕ → Result ℕ
hex_value c =
    if leb 48 c && leb c 57
    then ok (c - 48)
    else if leb 97 c && leb c 102
    then ok (c - 87)
    else if leb 65 c && leb c 70
    then ok (c - 55)
    else err value_error

-- White space between the bytes is skipped.
unfoldable pub is_ascii_space : ℕ → Bool
is_ascii_space c = (leb 9 c && leb c 13) || c == 32

with_pair : ℕ → ℕ → Result Bytes → Result Bytes
unfolding hex_value
with_pair c d rest = do
  high ← hex_value c
  low ← hex_value d
  bs ← rest
  ok ((high * 16 + low) ∷ bs)

unfoldable pub from_hex : Text → Result Bytes
unfolding with_pair is_ascii_space
from_hex [] = ok []
from_hex (c ∷ []) = if is_ascii_space c then ok [] else err value_error
from_hex (c ∷ d ∷ t) =
    let skipped = from_hex (d ∷ t) in
    let rest = from_hex t in if is_ascii_space c then skipped else with_pair c d rest

hex_value-hex_digit : (n : ℕ) → n < 16 → hex_value (hex_digit n) ≡ ok n
unfolding hex_value
hex_value-hex_digit n h = ground arith

is_ascii_space-hex_digit : (n : ℕ) → n < 16 → is_ascii_space (hex_digit n) ≡ false
unfolding is_ascii_space
is_ascii_space-hex_digit n h = ground arith

-- Reading the digits gives the bytes.
pub from_hex-hex : (bs : Bytes) → All IsByte bs → from_hex (hex bs) ≡ ok bs
unfolding from_hex hex with_pair
from_hex-hex [] h = refl
from_hex-hex (b ∷ bs) (hb, hbs) =
    let whole : b / 16 * 16 + b % 16 ≡ b = omega arith in
    rw (
      is_ascii_space-hex_digit (b / 16) (omega arith),
      hex_value-hex_digit (b / 16) (omega arith),
      hex_value-hex_digit (b % 16) (omega arith),
      from_hex-hex bs hbs,
      whole,
    )
