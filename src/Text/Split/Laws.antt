-- ===== src/Text/Split/Laws.antt =====
-- The first part of a text that is split.
use dioxide_python.Prelude.{
  ℕ, Bool, true, false, not, ◌&&◌, ◌==◌, ◌≡◌, refl, List, [], ◌∷◌, ◌++◌, take, arith, Bool-cases,
  inl, inr, ==_refl,
}
use dioxide_python.Text.{Text}
use dioxide_python.Text.Split.{split, join, first_part, onto_first, contains}

abbrev pub no_char : ℕ → Text → Bool
no_char c [] = true
no_char c (a ∷ t) = not (a == c) && no_char c t

-- What stands in front of the first separator is determined by the text.
prefix_unique :
    (sep : ℕ) (p d s t : Text)
    → no_char sep p ≡ true
    → no_char sep d ≡ true
    → p ++ (sep ∷ s) ≡ d ++ (sep ∷ t)
    → p ≡ d
prefix_unique sep [] [] s t hp hd e = refl
prefix_unique sep [] (a ∷ d) s t hp hd e =
    let same : sep ≡ a = cc in ground (arith, hd, ==_refl sep)
prefix_unique sep (a ∷ p) [] s t hp hd e =
    let same : a ≡ sep = cc in ground (arith, hp, ==_refl sep)
prefix_unique sep (a ∷ p) (b ∷ d) s t hp hd e =
    let same : a ≡ b = cc in
    let rest : p ++ (sep ∷ s) ≡ d ++ (sep ∷ t) = cc in
    rw (same, prefix_unique sep p d s t (ground (arith, hp)) (ground (arith, hd)) rest)

no_char-none : (sep : ℕ) (p d t : Text) → no_char sep p ≡ true → p ≡ d ++ (sep ∷ t) → true ≡ false
no_char-none sep [] [] t h e = cc
no_char-none sep [] (a ∷ d) t h e = cc
no_char-none sep (a ∷ p) [] t h e = let same : a ≡ sep = cc in ground (arith, h, ==_refl sep)
no_char-none sep (a ∷ p) (b ∷ d) t h e =
    let rest : p ≡ d ++ (sep ∷ t) = cc in no_char-none sep p d t (ground (arith, h)) rest

onto_first_lem :
    (sep c : ℕ) (ps : List Text)
    → (c == sep) ≡ false
    → no_char sep (first_part ps) ≡ true
    → no_char sep (first_part (onto_first c ps)) ≡ true
unfolding first_part
onto_first_lem sep c [] e h = ground arith
onto_first_lem sep c (p ∷ ps) e h = ground arith

first_part-no_char : (sep : ℕ) (t : Text) → no_char sep (first_part (split sep t)) ≡ true
unfolding split first_part
first_part-no_char sep [] = refl
first_part-no_char sep (c ∷ t) = elim (Bool-cases (c == sep)) [
  | inl e ↦ rw e
  | inr e ↦ rw e (onto_first_lem sep c (split sep t) e (first_part-no_char sep t))
]

join_two :
    (sep : ℕ) (ps : List Text) (d c : Text)
    → no_char sep (first_part ps) ≡ true
    → no_char sep d ≡ true
    → join (sep ∷ []) (take 2 ps) ≡ d ++ (sep ∷ c)
    → first_part ps ≡ d
unfolding join first_part
join_two sep [] [] c h hd e = cc
join_two sep [] (_ ∷ d) c h hd e = cc
join_two sep (p ∷ []) d c h hd e = let no = no_char-none sep p d c h e in cc
join_two sep (p ∷ q ∷ ps) d c h hd e = prefix_unique sep p d q c h hd e

-- If the first two parts are `d` and `c` with the separator between, the first is `d`.
pub first_part-join :
    (sep : ℕ) (t d c : Text)
    → no_char sep d ≡ true
    → join (sep ∷ []) (take 2 (split sep t)) ≡ d ++ (sep ∷ c)
    → first_part (split sep t) ≡ d
first_part-join sep t d c hd e = join_two sep (split sep t) d c (first_part-no_char sep t) hd e

-- A text without the separator is one part.
pub split-no_char : (sep : ℕ) (t : Text) → no_char sep t ≡ true → split sep t ≡ t ∷ []
unfolding split
split-no_char sep [] h = refl
split-no_char sep (c ∷ t) h =
    let other : (c == sep) ≡ false = ground (arith, h) in
    let rest : no_char sep t ≡ true = ground (arith, h) in rw (other, split-no_char sep t rest) refl

-- A text without a character does not contain a text that starts with it.
pub contains-no_char : (c : ℕ) (part t : Text) → no_char c t ≡ true → contains (c ∷ part) t ≡ false
unfolding contains
contains-no_char c part [] h = refl
contains-no_char c part (a ∷ t) h =
    let other : (c == a) ≡ false = ground (arith, h) in
    let rest : no_char c t ≡ true = ground (arith, h) in
    rw (other, contains-no_char c part t rest) refl

-- The part in front of a separator.
pub split-append :
    (sep : ℕ) (p t : Text) → no_char sep p ≡ true → split sep (p ++ (sep ∷ t)) ≡ p ∷ split sep t
unfolding split
split-append sep [] t h = rw (==_refl sep) refl
split-append sep (c ∷ p) t h =
    let other : (c == sep) ≡ false = ground (arith, h) in
    let rest : no_char sep p ≡ true = ground (arith, h) in
    rw (other, split-append sep p t rest) refl
