-- ===== src/Gcl/TypeName/Shorter.antt =====
-- The lengths of the type names that are found in the name of a container.
use dioxide_python.Prelude.{
  ℕ, ◌+◌, ◌≤◌, ◌<◌, ◌≡◌, refl, Bool-cases, inl, inr, Bool, true, false, List, [], ◌∷◌, ◌++◌, arith,
}
use dioxide_python.Prelude.{
  length, take, drop, length-take, length-drop, length-append, All, All-append, if◌then◌else◌,
  Option, none, some, ◌&&◌,
}
use dioxide_python.Prelude.Int.{ℤ, pos}
use dioxide_python.Prelude.Result.{ok, unsupported_type, guard-eq-ok}
use dioxide_python.Text.{Text, codes, inner, strip, is_empty, starts_with, ends_with, find}
use dioxide_python.Text.Lengths.{length-strip, length-inner}
use dioxide_python.Gcl.TypeName.{
  extract_array_element_type, key_and_value, extract_map_types, deeper, ends_part, split_loop,
  split_types, extract_struct_member_types,
}

starts_with-length : (c : ℕ) (p t : Text) → starts_with (c ∷ p) t ≡ true → 1 ≤ length t
starts_with-length c p [] h = cc
starts_with-length c p (_ ∷ t) h = omega arith

and_left : (a b : Bool) → (a && b) ≡ true → a ≡ true
and_left true b h = refl
and_left false b h = h

pub element_type-lt :
    (t : Text) {u : Text} → extract_array_element_type t ≡ ok u → length u < length t
unfolding extract_array_element_type
element_type-lt t {u} h =
    let (g, e) =
      guard-eq-ok (starts_with (codes "array<") t && ends_with (codes ">") t) unsupported_type _
        h in
    let whole : u ≡ inner 6 t = cc in
    rw whole (
      length-inner 6 t
        (starts_with-length b'a' (codes "rray<") t (and_left (starts_with (codes "array<") t) _ g)))

key_and_value-le :
    (t : Text) (o : Option ℕ) {k v : Text}
    → key_and_value t o ≡ ok (k, v)
    → (length k ≤ length t) × (length v ≤ length t)
unfolding key_and_value
key_and_value-le t none {k} {v} h = cc
key_and_value-le t (some i) {k} {v} h =
    let ek : k ≡ strip (take i t) = cc in
    let ev : v ≡ strip (drop (i + 1) t) = cc in
    (
      rw ek (omega (arith, length-strip (take i t), length-take i t)),
      rw ev (omega (arith, length-strip (drop (i + 1) t), length-drop (i + 1) t)),
    )

pub map_types-lt :
    (t : Text) {k v : Text}
    → extract_map_types t ≡ ok (k, v)
    → (length k < length t) × (length v < length t)
unfolding extract_map_types
map_types-lt t h =
    let (g, e) =
      guard-eq-ok (starts_with (codes "map<") t && ends_with (codes ">") t) unsupported_type _ h in
    let (hk, hv) = key_and_value-le (inner 4 t) (find b',' (inner 4 t)) e in
    let lt =
      length-inner 4 t
        (starts_with-length b'm' (codes "ap<") t (and_left (starts_with (codes "map<") t) _ g)) in
    (omega (arith, hk, lt), omega (arith, hv, lt))

split_loop-le :
    (bound : ℕ) (s : Text) (parts : List Text) (cur : Text) (depth : ℤ)
    → All (λ p. length p ≤ bound) parts
    → length cur + length s ≤ bound
    → All (λ p. length p ≤ bound) (split_loop parts cur depth s)
unfolding split_loop
split_loop-le bound [] parts cur depth all room = elim (Bool-cases (is_empty (strip cur))) [
  | inl h ↦ rw h all
  | inr h ↦ rw h (
      All-append (λ p. length p ≤ bound) parts (strip cur ∷ []) all
        (omega (arith, length-strip cur), tt))
]
split_loop-le bound (c ∷ s) parts cur depth all room = elim (Bool-cases (ends_part c depth)) [
  | inl h ↦ rw h (
      split_loop-le bound s (parts ++ (strip cur ∷ [])) [] depth
        (All-append (λ p. length p ≤ bound) parts (strip cur ∷ []) all
          (omega (arith, length-strip cur), tt))
        (omega arith))
  | inr h ↦ rw h (
      split_loop-le bound s parts (cur ++ (c ∷ [])) (deeper c depth) all
        (omega (arith, length-append cur (c ∷ []))))
]

split_types-le :
    (t : Text) → All (λ p. length p ≤ length t) (if is_empty (strip t) then [] else split_types t)
unfolding split_types
split_types-le t = elim (Bool-cases (is_empty (strip t))) [
  | inl h ↦ rw h tt
  | inr h ↦ rw h (split_loop-le (length t) t [] [] (pos 0) tt (omega arith))
]

All-le_lt :
    (n m : ℕ) (ts : List Text) → n < m → All (λ p. length p ≤ n) ts → All (λ p. length p < m) ts
All-le_lt n m [] lt all = tt
All-le_lt n m (t ∷ ts) lt (h, hs) = (omega arith, All-le_lt n m ts lt hs)

pub member_types-lt :
    (t : Text) {ts : List Text}
    → extract_struct_member_types t ≡ ok ts
    → All (λ p. length p < length t) ts
unfolding extract_struct_member_types
member_types-lt t {ts} h =
    let (g, e) =
      guard-eq-ok (starts_with (codes "struct<") t && ends_with (codes ">") t) unsupported_type _
        h in
    let lt = length-inner 7 t (
      starts_with-length b's' (codes "truct<") t
        (and_left (starts_with (codes "struct<") t) _ g)) in
    let whole : ts ≡ (if is_empty (strip (inner 7 t)) then [] else split_types (inner 7 t)) = cc in
    rw whole (All-le_lt (length (inner 7 t)) (length t) _ lt (split_types-le (inner 7 t)))
