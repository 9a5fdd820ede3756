-- ===== src/Gcl/Serializer/Fuel.antt =====
-- Fuel of `serialize`: how much its recursion through the containers takes.
use dioxide_python.Prelude.{
  ℕ, zero, suc, ◌+◌, ◌<◌, ◌≡◌, refl, ap, ◌∙◌, Bool-cases, inl, inr, true, false, List, [], ◌∷◌,
  arith,
}
use dioxide_python.Prelude.{length, All}
use dioxide_python.Prelude.Result.{err, out_of_fuel, >>=-cong}
use dioxide_python.Text.{Text, codes, text_eq, starts_with}
use dioxide_python.Text.Laws.{text_eq→≡}
use dioxide_python.Gcl.Value.{Value, null, bool, int, float, str, bytes, list, dict}
use dioxide_python.Gcl.TypeName.{
  extract_array_element_type, extract_map_types, extract_struct_member_types,
}
use dioxide_python.Gcl.TypeName.Shorter.{element_type-lt, map_types-lt, member_types-lt}
use dioxide_python.Gcl.Container.{
  Serializer, array_bytes, map_bytes, serialize_array, serialize_map, serialize_members,
  serialize_struct, struct_bytes, member_values,
}
use dioxide_python.Gcl.Serializer.{serialize_step, serialize_fuel, serialize}

pub not_plain :
    (t : Text) → starts_with (codes "struct<") t ≡ true → text_eq t (codes "struct") ≡ false
not_plain t h = elim (Bool-cases (text_eq t (codes "struct"))) [
  | inl e ↦ let no : false ≡ true = rw (text_eq→≡ t (codes "struct") e) at h in cc
  | inr e ↦ e
]

-- `f` and `g` do the same at every name shorter than `t`.
abbrev pub AgreeBelow {ℓ} : {A : Type ℓ} → Text → (Text → A) → (Text → A) → Type ℓ
AgreeBelow t f g = (u : Text) → length u < length t → f u ≡ g u

pub agree-All {ℓ} :
    {A : Type ℓ} (t : Text) (f g : Text → A) (ts : List Text)
    → AgreeBelow t f g
    → All (λ p. length p < length t) ts
    → All (λ p. f p ≡ g p) ts
agree-All t f g [] same all = tt
agree-All t f g (u ∷ ts) same (h, hs) = (same u h, agree-All t f g ts same hs)

module _ (f g : Serializer) where
  array_agree : (t : Text) (v : Value) → f t ≡ g t → serialize_array f t v ≡ serialize_array g t v
  unfolding serialize_array array_bytes
  array_agree t (list vs) h = rw h
  array_agree t null h = refl
  array_agree t (bool _) h = refl
  array_agree t (int _) h = refl
  array_agree t (float _) h = refl
  array_agree t (str _) h = refl
  array_agree t (bytes _) h = refl
  array_agree t (dict _) h = refl

  map_agree :
      (k t : Text) (v : Value)
      → f k ≡ g k
      → f t ≡ g t
      → serialize_map f k t v ≡ serialize_map g k t v
  unfolding serialize_map map_bytes
  map_agree k t (dict es) hk h = rw (hk, h)
  map_agree k t null hk h = refl
  map_agree k t (bool _) hk h = refl
  map_agree k t (int _) hk h = refl
  map_agree k t (float _) hk h = refl
  map_agree k t (str _) hk h = refl
  map_agree k t (bytes _) hk h = refl
  map_agree k t (list _) hk h = refl

  members_agree :
      (ts : List Text) (vs : List Value)
      → All (λ t. f t ≡ g t) ts
      → serialize_members f ts vs ≡ serialize_members g ts vs
  unfolding serialize_members
  members_agree [] vs h = refl
  members_agree (t ∷ ts) [] h = refl
  members_agree (t ∷ ts) (v ∷ vs) (h, hs) = rw (h, members_agree ts vs hs)

  struct_agree :
      (t : Text) (v : Value)
      → AgreeBelow t f g
      → starts_with (codes "struct<") t ≡ true
      → serialize_struct f t v ≡ serialize_struct g t v
  unfolding serialize_struct struct_bytes
  struct_agree t v same plain = >>=-cong (member_values v) _ _ (λ values _. rw (not_plain t plain) (
      >>=-cong (extract_struct_member_types t) _ _
        (λ ts e. rw (members_agree ts values (agree-All t f g ts same (member_types-lt t e))))))

  step_agree :
      (t : Text) (v : Value) → AgreeBelow t f g → serialize_step f t v ≡ serialize_step g t v
  unfolding serialize_step
  step_agree t v same =
      let arrays =
        >>=-cong (extract_array_element_type t) (λ u. serialize_array f u v)
          (λ u. serialize_array g u v) (λ u e. array_agree u v (same u (element_type-lt t e))) in
      let maps =
        >>=-cong (extract_map_types t) (λ (k, u). serialize_map f k u v)
          (λ (k, u). serialize_map g k u v)
          (λ p e.
            let (hk, hu) = map_types-lt t e in map_agree p.0 p.1 v (same p.0 hk) (same p.1 hu)) in
      elim (Bool-cases (starts_with (codes "struct<") t)) [
        | inl h ↦ rw (arrays, maps, struct_agree t v same h)
        | inr h ↦ rw (arrays, maps, h)
      ]

-- `n` rounds of the dispatch, and `rest` where they are used up.
unfoldable pub rounds : ℕ → Serializer → Serializer
rounds zero rest = rest
rounds (suc n) rest = serialize_step (rounds n rest)

enough_rounds :
    (n m : ℕ) (rest : Serializer) (t : Text)
    → length t < n
    → length t < m
    → rounds n rest t ≡ serialize_fuel m t
unfolding rounds serialize_fuel
enough_rounds zero m rest t hn hm = absurd (omega (arith, hn))
enough_rounds (suc n) zero rest t hn hm = absurd (omega (arith, hm))
enough_rounds (suc n) (suc m) rest t hn hm = λ i v.
    step_agree (rounds n rest) (serialize_fuel m) t v
      (λ u lt. enough_rounds n m rest u (omega arith) (omega arith)) i

fuel-rounds : (n : ℕ) (t : Text) → serialize_fuel n t ≡ rounds n (λ t v. err out_of_fuel) t
unfolding rounds serialize_fuel
fuel-rounds zero t = refl
fuel-rounds (suc n) t = λ i v.
    step_agree (serialize_fuel n) (rounds n (λ t v. err out_of_fuel)) t v (λ u lt. fuel-rounds n u)
      i

-- `serialize` takes no more rounds than the type name is long, and one more: after these nothing is
-- called any more. Whatever function `rest` the dispatch would call next, the result is that of
-- `serialize`, for every type name and value, well formed or not, and with every larger number of
-- rounds.
pub serialize-rounds :
    (rest : Serializer) (extra : ℕ) (t : Text) (v : Value)
    → rounds (suc (length t) + extra) rest t v ≡ serialize t v
unfolding serialize
serialize-rounds rest extra t v =
    ap (λ f. f v)
      (enough_rounds (suc (length t) + extra) (suc (length t)) rest t (omega arith) (omega arith))

-- More fuel than the type name is long gives the same result.
pub serialize-fuel_suffices :
    (extra : ℕ) (t : Text) (v : Value) → serialize_fuel (suc (length t) + extra) t v ≡ serialize t v
serialize-fuel_suffices extra t v =
    ap (λ f. f v) (fuel-rounds (suc (length t) + extra) t)
    ∙ serialize-rounds (λ t v. err out_of_fuel) extra t v
