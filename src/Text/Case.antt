-- ===== src/Text/Case.antt =====
-- `upper`, `lower`, `isdigit` and the classes of regular expressions, as client/account.py and
-- client/dioxclient.py use them. Above ASCII, where Python asks its Unicode database, they are
-- only as exact as those calls need: `upper` knows the two characters with an ASCII capital.
use dioxide_python.Prelude.{ℕ, ◌+◌, ◌-◌, Bool, true, ◌&&◌, ◌||◌, ltb, leb, ◌==◌, [], ◌∷◌}
use dioxide_python.Prelude.{if◌then◌else◌}
use dioxide_python.Prelude.{Option, none, some, false, ◌*◌, ◌-◌}
use dioxide_python.Prelude.Result.{Result, ok, err, value_error}
use mathlib.Core.List.{map}
use dioxide_python.Text.{Text}

abbrev pub is_upper_letter : ℕ → Bool
is_upper_letter c = leb b'A' c && leb c b'Z'

abbrev pub is_lower_letter : ℕ → Bool
is_lower_letter c = leb b'a' c && leb c b'z'

abbrev pub is_ascii_digit : ℕ → Bool
is_ascii_digit c = leb b'0' c && leb c b'9'

unfoldable pub upper_char : ℕ → ℕ
upper_char c =
    if is_lower_letter c
    then c - 32
    else if c == 0x131
    then b'I'
    else if c == 0x17f
    then b'S'
    else c

-- `t.upper()`
unfoldable pub upper : Text → Text
unfolding upper_char
upper t = map upper_char t

unfoldable pub lower_char : ℕ → ℕ
lower_char c = if is_upper_letter c then c + 32 else c

-- `t.lower()`
unfoldable pub lower : Text → Text
unfolding lower_char
lower t = map lower_char t

-- The characters above ASCII that `\d` and `\w` match and that `isdigit` holds of, and the digit
-- that `int` reads for one; `none` where it raises ValueError.
pub record Unicode : Type 0 where
  pub is_decimal : ℕ → Bool
  pub is_word : ℕ → Bool
  pub is_digit : ℕ → Bool
  pub digit_value : ℕ → Option ℕ

module _ (unicode : Unicode) where
  -- `\d`
  abbrev pub matches_digit : ℕ → Bool
  matches_digit c = if ltb c 128 then is_ascii_digit c else unicode.is_decimal c

  -- `\w`
  abbrev pub matches_word : ℕ → Bool
  matches_word c =
      if ltb c 128
      then is_ascii_digit c || is_upper_letter c || is_lower_letter c || c == b'_'
      else unicode.is_word c

-- Every character passes: `re.fullmatch('[...]*', t)`.
abbrev pub all_chars : (ℕ → Bool) → Text → Bool
all_chars p [] = true
all_chars p (c ∷ t) = p c && all_chars p t

module _ (unicode : Unicode) where
  digit_char : ℕ → Bool
  digit_char c = if ltb c 128 then is_ascii_digit c else unicode.is_digit c

  -- `t.isdigit()`
  unfoldable pub is_digits : Text → Bool
  unfolding digit_char
  is_digits [] = false
  is_digits (c ∷ t) = digit_char c && all_chars digit_char t

  digit_of : ℕ → Option ℕ
  digit_of c =
      if ltb c 128
      then (if is_ascii_digit c then some (c - b'0') else none)
      else unicode.digit_value c

  -- `int(t)` of a text of digits, with the value of what was read
  unfoldable pub int_from : ℕ → Text → Result ℕ
  unfolding digit_of
  int_from n [] = ok n
  int_from n (c ∷ t) = elim (digit_of c) [
    | none ↦ err value_error
    | some d ↦ int_from (n * 10 + d) t
  ]
