-- ===== src/Text/Split.antt =====
-- `split`, `join` and substrings, as client/filters.py and client/dioxclient.py call them.
pub mod Laws
use dioxide_python.Prelude.{
  Bool, true, false, ◌==◌, ◌||◌, List, [], ◌∷◌, ◌++◌, Option, none, some, ◌≡◌, refl, ap, ℕ,
  if◌then◌else◌, Bool-cases, inl, inr, ==_iff, not, ◌&&◌,
}
use dioxide_python.Text.{Text, starts_with, codes}

-- One more character in front of the first part.
abbrev pub onto_first : ℕ → List Text → List Text
onto_first c [] = (c ∷ []) ∷ []
onto_first c (p ∷ ps) = (c ∷ p) ∷ ps

-- `t.split(sep)`, with a separator of one character
unfoldable pub split : ℕ → Text → List Text
split sep [] = [] ∷ []
split sep (c ∷ t) = let rest = split sep t in if c == sep then [] ∷ rest else onto_first c rest

-- `sep.join(parts)`
unfoldable pub join : Text → List Text → Text
join sep [] = []
join sep (p ∷ []) = p
join sep (p ∷ q ∷ ps) = p ++ (sep ++ join sep (q ∷ ps))

-- `parts[0]`; a text has at least one part
unfoldable pub first_part : List Text → Text
first_part [] = []
first_part (p ∷ ps) = p

-- `part in t`, which is `t.find(part) != -1`
unfoldable pub contains : Text → Text → Bool
contains part [] = starts_with part []
contains part (c ∷ t) = starts_with part (c ∷ t) || contains part t
