-- ===== src/Text.antt =====
-- Python's `str`, as lists of code points, with the methods that the package calls.
pub mod Utf8
pub mod Hex
pub mod Laws
pub mod Lengths
pub mod Split
pub mod Case
use dioxide_python.Prelude.{
  ℕ, zero, suc, ◌+◌, ◌-◌, ◌/◌, ◌%◌, Bool, true, false, ◌&&◌, ◌||◌, Option, none, some,
}
use dioxide_python.Prelude.{List, [], ◌∷◌, ◌++◌, ltb, leb, ◌==◌, length, drop, take, if◌then◌else◌}
use Prim.Native.Char.{code}
use Prim.Native.String.{String}
use mathlib.Core.Option

abbrev pub Text : Type 0
Text = List ℕ

-- The code points of a literal.
abbrev pub codes : String → Text
codes String.[] = []
codes (String.◌∷◌ c s) = code c ∷ codes s

-- `s == t`
abbrev pub text_eq : Text → Text → Bool
text_eq [] [] = true
text_eq [] (_ ∷ _) = false
text_eq (_ ∷ _) [] = false
text_eq (a ∷ s) (b ∷ t) = a == b && text_eq s t

-- `t in [...]`
abbrev pub text_in : Text → List Text → Bool
text_in t [] = false
text_in t (x ∷ xs) = text_eq t x || text_in t xs

-- `t.startswith(prefix)`
abbrev pub starts_with : Text → Text → Bool
starts_with [] t = true
starts_with (_ ∷ _) [] = false
starts_with (a ∷ s) (b ∷ t) = a == b && starts_with s t

-- `t.endswith(suffix)`
unfoldable pub ends_with : Text → Text → Bool
ends_with suffix t =
    leb (length suffix) (length t) && text_eq (drop (length t - length suffix) t) suffix

-- `t[start:-1]`
abbrev pub inner : ℕ → Text → Text
inner start t = take (length t - 1 - start) (drop start t)

-- `t.find(c)` of a one-character text; `none` is -1
unfoldable pub find : ℕ → Text → Option ℕ
find c [] = none
find c (a ∷ t) = if a == c then some 0 else Option.map suc (find c t)

-- `t.rfind(c)`
unfoldable pub rfind : ℕ → Text → Option ℕ
rfind c [] = none
rfind c (a ∷ t) = elim (rfind c t) [
  | some i ↦ some (suc i)
  | none ↦ if a == c then some 0 else none
]

-- `c.isspace()`, the characters that `strip` removes
unfoldable pub is_space : ℕ → Bool
is_space c =
    (leb 9 c && leb c 13)
    || (leb 28 c && leb c 32)
    || c == 0x85
    || c == 0xa0
    || c == 0x1680
    || (leb 0x2000 c && leb c 0x200a)
    || c == 0x2028
    || c == 0x2029
    || c == 0x202f
    || c == 0x205f
    || c == 0x3000

unfoldable pub lstrip : Text → Text
lstrip [] = []
lstrip (c ∷ t) = let rest = lstrip t in if is_space c then rest else c ∷ t

-- A space with nothing but spaces behind it goes.
abbrev keep_unless_last : ℕ → Text → Text
keep_unless_last c [] = if is_space c then [] else c ∷ []
keep_unless_last c (d ∷ t) = c ∷ d ∷ t

unfoldable pub rstrip : Text → Text
rstrip [] = []
rstrip (c ∷ t) = keep_unless_last c (rstrip t)

-- `t.strip()`
unfoldable pub strip : Text → Text
unfolding lstrip rstrip is_space
strip t = rstrip (lstrip t)

-- `not t`
abbrev pub is_empty : Text → Bool
is_empty [] = true
is_empty (_ ∷ _) = false

-- The decimal digits of `n`, as `str(n)` and f-strings print it; `fuel` bounds their number.
unfoldable pub decimal_fuel : ℕ → ℕ → Text → Text
decimal_fuel zero n acc = acc
decimal_fuel (suc fuel) n acc =
    let digit = 48 + n % 10 in
    let more = decimal_fuel fuel (n / 10) (digit ∷ acc) in if ltb n 10 then digit ∷ acc else more

unfoldable pub decimal : ℕ → Text
unfolding decimal_fuel
decimal n = decimal_fuel (suc n) n []
