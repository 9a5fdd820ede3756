-- ===== src/Gcl/Dict/Laws.antt =====
-- Lookup after insertion, with string keys.
use dioxide_python.Prelude.{true, false, ◌≡◌, refl, ◌∙◌, [], ◌∷◌, some, Bool-cases, inl, inr, arith}
use dioxide_python.Text.{Text, text_eq}
use dioxide_python.Text.Laws.{text_eq_refl, text_eq→≡}
use dioxide_python.Gcl.Value.{
  Value, Entries, null, bool, int, float, str, bytes, list, dict, end, entry, as_int,
}
use dioxide_python.Gcl.Dict.{key_eq, get, put}

pub text_eq_comm : (s t : Text) → text_eq s t ≡ text_eq t s
text_eq_comm [] [] = refl
text_eq_comm [] (_ ∷ _) = refl
text_eq_comm (_ ∷ _) [] = refl
text_eq_comm (a ∷ s) (b ∷ t) = let rest = text_eq_comm s t in ground arith

-- A key that equals one string does not equal another.
key_eq-apart :
    (j : Value) (k l : Text)
    → text_eq l k ≡ false
    → key_eq j (str k) ≡ true
    → key_eq j (str l) ≡ false
unfolding key_eq as_int
key_eq-apart null k l h e = cc
key_eq-apart (bool true) k l h e = cc
key_eq-apart (bool false) k l h e = cc
key_eq-apart (int _) k l h e = cc
key_eq-apart (float _) k l h e = cc
key_eq-apart (str s) k l h e = let same = text_eq→≡ s k e in rw same (text_eq_comm k l ∙ h)
key_eq-apart (bytes _) k l h e = cc
key_eq-apart (list _) k l h e = cc
key_eq-apart (dict _) k l h e = cc

pub get-put_same : (k : Text) (v : Value) (d : Entries) → get (str k) (put (str k) v d) ≡ some v
unfolding get put
get-put_same k v end = rw (text_eq_refl k)
get-put_same k v (entry j w es) = elim (Bool-cases (key_eq j (str k))) [
  | inl e ↦ rw (e, e)
  | inr e ↦ rw (e, e) (get-put_same k v es)
]

pub get-put_other :
    (k l : Text) (v : Value) (d : Entries)
    → text_eq l k ≡ false
    → get (str l) (put (str k) v d) ≡ get (str l) d
unfolding get put
get-put_other k l v end h = rw (text_eq_comm k l ∙ h)
get-put_other k l v (entry j w es) h = elim (Bool-cases (key_eq j (str k))) [
  | inl e ↦ let other = key_eq-apart j k l h e in rw (e, other)
  | inr e ↦ elim (Bool-cases (key_eq j (str l))) [
    | inl o ↦ rw (e, o)
    | inr o ↦ rw (e, o) (get-put_other k l v es h)
  ]
]
