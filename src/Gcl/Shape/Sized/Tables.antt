-- ===== src/Gcl/Shape/Sized/Tables.antt =====
-- Parts that are written one after the other, and their offset tables: they are written, if all the
-- offsets have four bytes.
use dioxide_python.Prelude.{
  ℕ, suc, ◌+◌, ◌*◌, ◌^◌, ◌<◌, ◌≡◌, refl, ap, Bool, true, false, inl, inr, List, [], ◌∷◌, ◌++◌,
  length, length-append, ◌==◌, Bool-cases, ==_refl, suc_ne_zero, bit_or, arith,
}
use dioxide_python.Prelude.Bits.{bit_or_disjoint}
use dioxide_python.Prelude.Result.{Result, ok, map_result}
use dioxide_python.Bytes.{Bytes, le_digits}
use dioxide_python.Bytes.Laws.{to_bytes-small, length-le_digits}
use dioxide_python.Text.{Text}
use dioxide_python.Gcl.Value.{Value}
use dioxide_python.Gcl.TypeName.{is_variable_size_type}
use dioxide_python.Gcl.Table.{join, end_offsets, offset_bytes}
use dioxide_python.Gcl.Container.{
  Serializer, with_table, array_bytes, map_bytes, struct_bytes, serialize_members,
}
use dioxide_python.Gcl.Container.Tables.{length-with_table}
use dioxide_python.Gcl.Shape.Sized.{Takes, table_size}
use mathlib.Core.List.{map}

-- The parts that the loop returns, and their bytes.
abbrev pub Written : ℕ → ℕ → Result (List Bytes) → Type 0
Written count n r =
    (parts : List Bytes) × (r ≡ ok parts) × (length parts ≡ count) × (length (join parts) ≡ n)

pub Written-cons {ℓ} :
    {A : Type ℓ} (f : A → Result Bytes) (x : A) (xs : List A) (m n : ℕ)
    → Takes m (f x)
    → Written (length xs) n (map_result f xs)
    → Written (length (x ∷ xs)) (m + n) (map_result f (x ∷ xs))
unfolding map_result join
Written-cons f x xs m n (b, e, size) (bs, e', count, total) =
    rw (e, e') (b ∷ bs, refl, ap suc count, omega (arith, length-append b (join bs)))

pub map_result-map {ℓ κ} :
    {A : Type ℓ} {B : Type κ} (f : B → Result Bytes) (g : A → B) (xs : List A)
    → map_result (λ a. f (g a)) xs ≡ map_result f (map g xs)
unfolding map_result
map_result-map f g [] = refl
map_result-map f g (x ∷ xs) = rw (map_result-map f g xs) refl

offset_bytes-total :
    (cur : ℕ) (parts : List Bytes)
    → cur + length (join parts) < 2 ^ 32
    → (table : Bytes) × (offset_bytes (end_offsets cur parts) ≡ ok table)
unfolding offset_bytes end_offsets join
offset_bytes-total cur [] h = ([], refl)
offset_bytes-total cur (b ∷ bs) h =
    let whole = length-append b (join bs) in
    let (table, e) = offset_bytes-total (cur + length b) bs (omega (arith, whole, h)) in
    rw (to_bytes-small 4 (cur + length b) (omega (arith, whole, h)), e) (_, refl)

pub with_table-Takes :
    (parts : List Bytes)
    → length parts * 4 + length (join parts) < 2 ^ 32
    → Takes (length parts * 4 + length (join parts)) (with_table parts)
unfolding with_table
with_table-Takes parts h =
    let (table, e) = offset_bytes-total (length parts * 4) parts h in
    (table ++ join parts, rw e refl, length-with_table parts (rw e refl))

no_parts : (parts : List Bytes) → length parts ≡ 0 → length (join parts) ≡ 0
unfolding join
no_parts [] h = refl
no_parts (b ∷ bs) h = absurd (omega (arith, h))

-- The elements of an array.
pub array_bytes-Takes :
    (rec : Serializer) (t : Text) (variable : Bool) (vs : List Value) (n : ℕ)
    → is_variable_size_type t ≡ variable
    → length vs < 2 ^ 32
    → 4 + (table_size variable (length vs) + n) < 2 ^ 32
    → Written (length vs) n (map_result (rec t) vs)
    → Takes (4 + (table_size variable (length vs) + n)) (array_bytes rec t vs)
unfolding array_bytes
array_bytes-Takes rec t false vs n kind few small (parts, e, count, total) =
    rw (kind, to_bytes-small 4 (length vs) few, e)
      (
        _,
        refl,
        omega (
          arith,
          length-append (le_digits 4 (length vs)) (join parts),
          length-le_digits 4 (length vs),
          total,
        ),
      )
array_bytes-Takes rec t true [] n kind few small (parts, e, count, total) =
    rw kind (_, refl, omega (arith, length-le_digits 4 0, no_parts parts count, total))
array_bytes-Takes rec t true (v ∷ vs) n kind few small (parts, e, count, total) =
    let (rest, written, long) = with_table-Takes parts (omega (arith, count, total, small)) in
    let some : (length (v ∷ vs) == 0) ≡ false = suc_ne_zero (length vs) in
    rw (kind, to_bytes-small 4 (length (v ∷ vs)) few, some, e, written)
      (
        _,
        refl,
        omega (
          arith,
          length-append (le_digits 4 (length (v ∷ vs))) rest,
          length-le_digits 4 (length (v ∷ vs)),
          long,
          count,
          total,
        ),
      )

pub map_bytes-Takes :
    (rec : Serializer) (key_type value_type : Text) (variable : Bool) (es : List (Value × Value))
    (m n : ℕ)
    → is_variable_size_type value_type ≡ variable
    → length es < 2 ^ 32
    → 4 + (m + (table_size variable (length es) + n)) < 2 ^ 32
    → Written (length es) m (map_result (λ e. rec key_type e.0) es)
    → Written (length es) n (map_result (λ e. rec value_type e.1) es)
    → Takes (4 + (m + (table_size variable (length es) + n))) (map_bytes rec key_type value_type es)
unfolding map_bytes
map_bytes-Takes rec key_type value_type false es m n kind few small (keys, e, _, size)
      (parts, e', _, total) =
    rw (kind, to_bytes-small 4 (length es) few, e, e')
      (
        _,
        refl,
        omega (
          arith,
          length-append (le_digits 4 (length es)) (join keys ++ join parts),
          length-append (join keys) (join parts),
          length-le_digits 4 (length es),
          size,
          total,
        ),
      )
map_bytes-Takes rec key_type value_type true es m n kind few small (keys, e, _, size)
      (parts, e', count, total) =
    let (rest, written, long) = with_table-Takes parts (omega (arith, count, total, small)) in
    rw (kind, to_bytes-small 4 (length es) few, e, e', written)
      (
        _,
        refl,
        omega (
          arith,
          length-append (le_digits 4 (length es)) (join keys ++ rest),
          length-append (join keys) rest,
          length-le_digits 4 (length es),
          size,
          total,
          long,
          count,
        ),
      )

-- The count of a struct's members, above four bits with the number 3.
pub struct_bytes-Takes :
    (rec : Serializer) (types : List Text) (values : List Value) (n : ℕ)
    → length values ≡ length types
    → length values < 2 ^ 28
    → 4 + (length values * 4 + n) < 2 ^ 32
    → Written (length values) n (serialize_members rec types values)
    → Takes (4 + (length values * 4 + n)) (struct_bytes rec types values)
unfolding struct_bytes
struct_bytes-Takes rec types values n same few small (parts, e, count, total) =
    let header : ℕ = bit_or (length types * 16) 3 in
    let sum : header ≡ length types * 16 + 3 = bit_or_disjoint 4 (length types) 3 (omega arith) in
    let fits = to_bytes-small 4 header (omega (arith, sum, same, few)) in
    elim (Bool-cases (length types == 0)) [
      | inl none ↦
          let zero_ : length types ≡ 0 = ground arith in
          rw (same, ==_refl (length types), fits, none)
            (
              _,
              refl,
              omega (
                arith,
                length-le_digits 4 header,
                zero_,
                same,
                no_parts parts (omega (arith, count, same, zero_)),
                total,
              ),
            )
      | inr some ↦
          let (rest, written, long) = with_table-Takes parts (omega (arith, count, total, small)) in
          rw (same, ==_refl (length types), fits, some, e, written)
            (
              _,
              refl,
              omega (
                arith,
                length-append (le_digits 4 header) rest,
                length-le_digits 4 header,
                long,
                count,
                total,
                same,
              ),
            )
    ]
