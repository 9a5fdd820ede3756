-- ===== src/Text/Laws.antt =====
-- Stripping, prefixes and suffixes.
use dioxide_python.Prelude.{ℕ, ◌-◌, ◌≡◌, refl, Bool, true, false, not, ◌&&◌, [], ◌∷◌, ◌++◌, arith}
use dioxide_python.Prelude.{
  Bool-cases, inl, inr, ==_iff, length, leb, ◌==◌, ==_refl, length-append, drop-length_append,
  take-length_append,
}
use dioxide_python.Text.{
  Text, text_eq, ends_with, inner, is_space, lstrip, rstrip, keep_unless_last, strip,
}

pub text_eq_refl : (t : Text) → text_eq t t ≡ true
text_eq_refl [] = refl
text_eq_refl (a ∷ t) = rw (==_refl a, text_eq_refl t)

-- No character is a space.
abbrev pub no_space : Text → Bool
no_space [] = true
no_space (c ∷ t) = not (is_space c) && no_space t

lstrip-no_space : (t : Text) → no_space t ≡ true → lstrip t ≡ t
unfolding lstrip
lstrip-no_space [] h = refl
lstrip-no_space (c ∷ t) h = ground arith

keep_lem : (c : ℕ) (t : Text) → is_space c ≡ false → keep_unless_last c t ≡ c ∷ t
keep_lem c [] h = rw h
keep_lem c (d ∷ t) h = refl

rstrip-no_space : (t : Text) → no_space t ≡ true → rstrip t ≡ t
unfolding rstrip
rstrip-no_space [] h = refl
rstrip-no_space (c ∷ t) h = rw (rstrip-no_space t (ground arith)) (keep_lem c t (ground arith))

-- A text with no space is left alone.
pub strip-no_space : (t : Text) → no_space t ≡ true → strip t ≡ t
unfolding strip
strip-no_space t h = rw (lstrip-no_space t h) (rstrip-no_space t h)

-- What stands between a prefix and a last character.
pub inner_lem : (p t : Text) (c : ℕ) → inner (length p) (p ++ (t ++ (c ∷ []))) ≡ t
inner_lem p t c =
    let size : length (p ++ (t ++ (c ∷ []))) - 1 - length p ≡ length t =
      omega (arith, length-append p (t ++ (c ∷ [])), length-append t (c ∷ [])) in
    rw (size, drop-length_append) (take-length_append t (c ∷ []))

pub ends_with_last : (t : Text) (c : ℕ) → ends_with (c ∷ []) (t ++ (c ∷ [])) ≡ true
unfolding ends_with
ends_with_last t c =
    let size : length (t ++ (c ∷ [])) - 1 ≡ length t = omega (arith, length-append t (c ∷ [])) in
    let long : leb 1 (length (t ++ (c ∷ []))) ≡ true =
      rw (length-append t (c ∷ [])) (ground arith) in
    rw (long, size, drop-length_append t (c ∷ []), ==_refl c)

pub text_eq→≡ : (s t : Text) → text_eq s t ≡ true → s ≡ t
text_eq→≡ [] [] h = refl
text_eq→≡ [] (_ ∷ _) h = cc
text_eq→≡ (_ ∷ _) [] h = cc
text_eq→≡ (a ∷ s) (b ∷ t) h = elim (Bool-cases (a == b)) [
  | inl e ↦
      let same : a ≡ b = (==_iff a b).0 e in
      let rest : text_eq s t ≡ true = rw e at h in rw (same, text_eq→≡ s t rest)
  | inr e ↦ let no : false ≡ true = rw e at h in cc
]
