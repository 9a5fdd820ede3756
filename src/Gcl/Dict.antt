-- ===== src/Gcl/Dict.antt =====
-- Python's dict: equality and hashing of keys, lookup, insertion, and `dict(zip(keys, values))`.
pub mod Laws
use dioxide_python.Prelude.{
  ℕ, Bool, true, false, not, ◌&&◌, ◌||◌, ◌==◌, ◌*◌, ◌^◌, ◌%◌, ltb, Option, none, some,
}
use dioxide_python.Prelude.{List, [], ◌∷◌, if◌then◌else◌, All, ◌≡◌, refl}
use mathlib.Core.List.{map}
use dioxide_python.Prelude.Int.{ℤ, pos, negsuc}
use dioxide_python.Prelude.Result.{Result, ok, err, type_error}
use dioxide_python.Text.{text_eq}
use dioxide_python.Gcl.Value.{
  Value, Entries, null, bool, int, float, str, bytes, list, dict, end, entry, as_int,
}

int_eq : ℤ → ℤ → Bool
int_eq (pos a) (pos b) = a == b
int_eq (negsuc a) (negsuc b) = a == b
int_eq _ _ = false

is_nan : ℕ → Bool
is_nan bits = ltb (2047 * 2 ^ 52) (bits % 2 ^ 63)

-- Equality of float keys: the two zeros are equal, and a NaN that was just read equals no key.
float_eq : ℕ → ℕ → Bool
unfolding is_nan
float_eq a b = not (is_nan a) && not (is_nan b) && (a == b || (a % 2 ^ 63 == 0 && b % 2 ^ 63 == 0))

int_key_eq : Option ℤ → Option ℤ → Bool
unfolding int_eq
int_key_eq (some a) (some b) = int_eq a b
int_key_eq _ _ = false

-- `k == j` of two keys of one kind. A float is equal to no int here, and neither occurs beside the
-- other in a dict that the package builds.
unfoldable pub key_eq : Value → Value → Bool
unfolding int_key_eq float_eq
key_eq null null = true
key_eq (float a) (float b) = float_eq a b
key_eq (str a) (str b) = text_eq a b
key_eq (bytes a) (bytes b) = text_eq a b
key_eq (int a) k = int_key_eq (some a) (as_int k)
key_eq (bool b) k = int_key_eq (as_int (bool b)) (as_int k)
key_eq _ _ = false

-- `hash(k)` raises for a list or a dict.
unfoldable pub is_hashable : Value → Bool
is_hashable (list _) = false
is_hashable (dict _) = false
is_hashable _ = true

-- `d.get(k)`
unfoldable pub get : Value → Entries → Option Value
unfolding key_eq as_int
get k end = none
get k (entry j v es) = if key_eq j k then some v else get k es

-- `d[k] = v`: an old key keeps its place.
unfoldable pub put : Value → Value → Entries → Entries
unfolding key_eq as_int
put k v end = entry k v end
put k v (entry j w es) =
    let rest = put k v es in if key_eq j k then entry j v es else entry j w rest

unfoldable pub zip_into : Entries → List Value → List Value → Result Entries
unfolding put is_hashable
zip_into d [] vs = ok d
zip_into d (k ∷ ks) [] = ok d
zip_into d (k ∷ ks) (v ∷ vs) =
    let rest = zip_into (put k v d) ks vs in if is_hashable k then rest else err type_error

-- `dict(zip(keys, values))`
unfoldable pub dict_zip : List Value → List Value → Result Entries
unfolding zip_into
dict_zip keys values = zip_into end keys values

-- The dict, or the empty one where a key cannot be hashed.
abbrev pub or_end : Result Entries → Entries
or_end (ok d) = d
or_end (err e) = end

zip_into-ok :
    {A : Type 0} (key value : A → Value) (xs : List A) (d : Entries)
    → All (λ x. is_hashable (key x) ≡ true) xs
    → zip_into d (map key xs) (map value xs) ≡ ok (or_end (zip_into d (map key xs) (map value xs)))
unfolding zip_into
zip_into-ok key value [] d h = refl
zip_into-ok key value (x ∷ xs) d (hx, hxs) =
    rw hx (zip_into-ok key value xs (put (key x) (value x) d) hxs)

-- With keys that can be hashed the dict is built.
pub dict_zip-ok :
    {A : Type 0} (key value : A → Value) (xs : List A)
    → All (λ x. is_hashable (key x) ≡ true) xs
    → dict_zip (map key xs) (map value xs) ≡ ok (or_end (dict_zip (map key xs) (map value xs)))
unfolding dict_zip
dict_zip-ok key value xs h = zip_into-ok key value xs end h
