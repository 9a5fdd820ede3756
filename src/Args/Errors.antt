-- ===== src/Args/Errors.antt =====
-- The exceptions of `serialize_args`.
use dioxide_python.Prelude.{
  ℕ, suc, ◌≡◌, Bool, true, false, Option, none, some, List, [], ◌∷◌, inl, inr, if◌then◌else◌, arith,
}
use dioxide_python.Prelude.Int.{ℤ, pos, negsuc}
use dioxide_python.Prelude.Result.{
  Result, Error, ok, err, value_error, not_bytes, >>=-eq-err, map_result,
}
use dioxide_python.Bytes.{Bytes}
use dioxide_python.Text.{Text, text_in}
use dioxide_python.Gcl.Value.{
  Value, Entries, null, bool, int, float, str, bytes, list, dict, as_int, to_list, items,
}
use dioxide_python.Gcl.Dict.{get}
use dioxide_python.Gcl.TypeName.{split_types}
use dioxide_python.Gcl.Serializer.{serialize, fixed_bytes_types}
use dioxide_python.Args.{
  byte_of, extended, extend_with, or_missing, type_and_name, serialize_params, serialize_args,
}

byte_of-error : (o : Option ℤ) {e : Error} → byte_of o ≡ err e → e ≡ value_error
unfolding byte_of
byte_of-error none h = cc
byte_of-error (some (pos n)) h = ground arith
byte_of-error (some (negsuc n)) h = cc

map_result-error :
    {A : Type 0} {B : Type 0} (f : A → Result B) (e : Error)
    → ((a : A) → f a ≡ err e → e ≡ value_error)
    → (xs : List A) → map_result f xs ≡ err e
    → e ≡ value_error
unfolding map_result
map_result-error f e each [] h = cc
map_result-error f e each (x ∷ xs) h = elim (>>=-eq-err (f x) _ h) [
  | inl bad ↦ each x bad
  | inr (y, _, k) ↦ elim (>>=-eq-err (map_result f xs) _ k) [
    | inl bad ↦ map_result-error f e each xs bad
    | inr (ys, _, never) ↦ cc
  ]
]

extended-error : (v : Value) (e : Error) → extended v ≡ err e → e ≡ value_error
unfolding extended
extended-error (list vs) e h =
    map_result-error (λ v. byte_of (as_int v)) e (λ v k. byte_of-error (as_int v) k) (to_list vs) h
extended-error (dict es) e h =
    map_result-error (λ p. byte_of (as_int p.0)) e (λ p k. byte_of-error (as_int p.0) k) (items es)
      h
extended-error null e h = cc
extended-error (bool _) e h = cc
extended-error (int _) e h = cc
extended-error (float _) e h = cc
extended-error (str _) e h = cc
extended-error (bytes _) e h = cc

either_error :
    (b : Bool) (v : Value) (e : Error)
    → (if b then extended v else err value_error) ≡ err e
    → e ≡ value_error
either_error true v e h = extended-error v e h
either_error false v e h = cc

extend_with-error :
    (t : Text) (v : Value) (r : Result Bytes) (e : Error)
    → extend_with t v r ≡ err e
    → e ≡ value_error
unfolding extend_with
extend_with-error t v (ok b) e h = cc
extend_with-error t v (err not_bytes) e h = either_error (text_in t fixed_bytes_types) v e h
extend_with-error t v (err _) e h = cc

or_missing-error : (o : Option Value) {e : Error} → or_missing o ≡ err e → e ≡ value_error
unfolding or_missing
or_missing-error none h = cc
or_missing-error (some v) h = cc

serialize_params-error :
    (idx : ℕ) (params : List Text) (args : Entries) (e : Error)
    → serialize_params idx params args ≡ err e
    → e ≡ value_error
unfolding serialize_params
serialize_params-error idx [] args e h = cc
serialize_params-error idx (param ∷ params) args e h =
    elim (>>=-eq-err (or_missing (get (str (type_and_name idx param).1) args)) _ h) [
      | inl bad ↦ or_missing-error (get (str (type_and_name idx param).1) args) bad
      | inr (v, _, k) ↦
          let t : Text = (type_and_name idx param).0 in
          elim (>>=-eq-err (extend_with t v (serialize t v)) _ k) [
            | inl bad ↦ extend_with-error t v (serialize t v) e bad
            | inr (b, _, k') ↦ elim (>>=-eq-err (serialize_params (suc idx) params args) _ k') [
              | inl bad ↦ serialize_params-error (suc idx) params args e bad
              | inr (bs, _, never) ↦ cc
            ]
          ]
    ]

-- Whatever the signature and the arguments are, the only exception of `serialize_args` is
-- ValueError.
pub serialize_args-error :
    (signature : Text) (args : Entries) (e : Error)
    → serialize_args signature args ≡ err e
    → e ≡ value_error
unfolding serialize_args
serialize_args-error signature args e h =
    elim (>>=-eq-err (serialize_params 0 (split_types signature) args) _ h) [
      | inl bad ↦ serialize_params-error 0 (split_types signature) args e bad
      | inr (bs, _, never) ↦ cc
    ]
