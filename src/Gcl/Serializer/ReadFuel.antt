-- ===== src/Gcl/Serializer/ReadFuel.antt =====
-- Fuel of `deserialize`, in the same way.
use dioxide_python.Prelude.{
  ℕ, zero, suc, ◌+◌, ◌-◌, ◌*◌, ◌/◌, ◌<◌, ◌≡◌, refl, ap, Bool-cases, inl, inr, true, List, [], ◌∷◌,
  arith,
}
use dioxide_python.Prelude.{length, All, if◌then◌else◌, ◌==◌}
use dioxide_python.Prelude.Result.{ok, ◌>>◌, >>=-cong}
use dioxide_python.Bytes.{Bytes, slice, from_bytes, check_data_length}
use dioxide_python.Text.{Text, codes, starts_with}
use dioxide_python.Gcl.Value.{dict, end}
use dioxide_python.Gcl.TypeName.{
  extract_array_element_type, extract_map_types, extract_struct_member_types,
}
use dioxide_python.Gcl.TypeName.Shorter.{element_type-lt, map_types-lt, member_types-lt}
use dioxide_python.Gcl.Table.{Deserializer, read_offsets, read_many, read_at, read_slices}
use dioxide_python.Gcl.Container.{
  deserialize_array, map_values, deserialize_map, struct_members, deserialize_struct,
}
use dioxide_python.Gcl.Serializer.{deserialize_step, deserialize_fuel, deserialize}
use dioxide_python.Gcl.Serializer.Fuel.{not_plain, AgreeBelow, agree-All}
use mathlib.Core.List.{map, zip}

module _ (f g : Deserializer) where
  read_many_agree :
      (t : Text) (data_ : Bytes) (n at : ℕ)
      → f t ≡ g t
      → read_many f t data_ n at ≡ read_many g t data_ n at
  unfolding read_many
  read_many_agree t data_ zero at h = refl
  read_many_agree t data_ (suc n) at h =
      rw h (>>=-cong (g t data_ at) _ _ (λ (v, next) _. rw (read_many_agree t data_ n next h)))

  read_slices_agree :
      (t : Text) (data_ : Bytes) (origin size begin : ℕ) (os : List ℕ)
      → f t ≡ g t
      → read_slices f t data_ origin size begin os ≡ read_slices g t data_ origin size begin os
  unfolding read_slices
  read_slices_agree t data_ origin size begin [] h = refl
  read_slices_agree t data_ origin size begin (o ∷ os) h =
      rw (h, read_slices_agree t data_ origin size (origin + o - size) os h)

  read_at_agree :
      (data_ : Bytes) (table begin : ℕ) (es : List (Text × ℕ))
      → All (λ e. f e.0 ≡ g e.0) es
      → read_at f data_ table begin es ≡ read_at g data_ table begin es
  unfolding read_at
  read_at_agree data_ table begin [] h = refl
  read_at_agree data_ table begin ((t, o) ∷ es) (h, hs) =
      rw (h, read_at_agree data_ table (table + o) es hs)

  array_agree :
      (t : Text) (data_ : Bytes) (at : ℕ)
      → f t ≡ g t
      → deserialize_array f t data_ at ≡ deserialize_array g t data_ at
  unfolding deserialize_array
  array_agree t data_ at h =
      let n : ℕ = from_bytes (slice data_ at 4) in
      let start : ℕ = at + 4 + n * 4 in
      rw (
        read_slices_agree t data_ start (n * 4) start (read_offsets n data_ (at + 4)) h,
        read_many_agree t data_ n (at + 4) h,
      )

  types_of :
      (t : Text) (os : List ℕ)
      → f t ≡ g t
      → All (λ (e : Text × ℕ). f e.0 ≡ g e.0) (map (λ o. (t, o)) os)
  types_of t [] h = tt
  types_of t (o ∷ os) h = (h, types_of t os h)

  values_agree :
      (t : Text) (data_ : Bytes) (n start : ℕ)
      → f t ≡ g t
      → map_values f t data_ n start ≡ map_values g t data_ n start
  unfolding map_values
  values_agree t data_ n start h = rw (
    read_at_agree data_ start (start + n * 4) (map (λ o. (t, o)) (read_offsets n data_ start))
        (types_of t (read_offsets n data_ start) h),
    read_many_agree t data_ n start h,
  )

  map_agree :
      (k t : Text) (data_ : Bytes) (at : ℕ)
      → f k ≡ g k
      → f t ≡ g t
      → deserialize_map f k t data_ at ≡ deserialize_map g k t data_ at
  unfolding deserialize_map
  map_agree k t data_ at hk h =
      let n : ℕ = from_bytes (slice data_ at 4) in
      rw (read_many_agree k data_ n (at + 4) hk) (
        >>=-cong (check_data_length data_ at 4) _ _ (λ _ _.
          >>=-cong (read_many g k data_ n (at + 4)) _ _
            (λ (keys, start) _. rw (values_agree t data_ n start h))))

  zip_agree :
      (ts : List Text) (os : List ℕ)
      → All (λ t. f t ≡ g t) ts
      → All (λ (e : Text × ℕ). f e.0 ≡ g e.0) (zip ts os)
  unfolding zip
  zip_agree [] os h = tt
  zip_agree (t ∷ ts) [] h = tt
  zip_agree (t ∷ ts) (o ∷ os) (h, hs) = (h, zip_agree ts os hs)

  members_agree :
      (ts : List Text) (data_ : Bytes) (start : ℕ)
      → All (λ t. f t ≡ g t) ts
      → struct_members f ts data_ start ≡ struct_members g ts data_ start
  unfolding struct_members
  members_agree ts data_ start h =
      let n : ℕ = length ts in
      rw (
        read_at_agree data_ start (start + n * 4) (zip ts (read_offsets n data_ start))
          (zip_agree ts (read_offsets n data_ start) h))

  struct_agree :
      (t : Text) (data_ : Bytes) (at : ℕ)
      → AgreeBelow t f g
      → starts_with (codes "struct<") t ≡ true
      → deserialize_struct f t data_ at ≡ deserialize_struct g t data_ at
  unfolding deserialize_struct
  struct_agree t data_ at same plain = rw (not_plain t plain) (
      ap
        (λ r.
          check_data_length data_ at 4
          >> (if from_bytes (slice data_ at 4) / 16 == 0 then ok (dict end, at + 4) else r))
        (>>=-cong (extract_struct_member_types t) _ _ (λ ts e.
          rw (members_agree ts data_ (at + 4) (agree-All t f g ts same (member_types-lt t e))))))

  step_agree :
      (t : Text) (data_ : Bytes) (at : ℕ)
      → AgreeBelow t f g
      → deserialize_step f t data_ at ≡ deserialize_step g t data_ at
  unfolding deserialize_step
  step_agree t data_ at same =
      let arrays =
        >>=-cong (extract_array_element_type t) (λ u. deserialize_array f u data_ at)
          (λ u. deserialize_array g u data_ at)
          (λ u e. array_agree u data_ at (same u (element_type-lt t e))) in
      let maps =
        >>=-cong (extract_map_types t) (λ (k, u). deserialize_map f k u data_ at)
          (λ (k, u). deserialize_map g k u data_ at)
          (λ p e.
            let (hk, hu) = map_types-lt t e in
            map_agree p.0 p.1 data_ at (same p.0 hk) (same p.1 hu)) in
      elim (Bool-cases (starts_with (codes "struct<") t)) [
        | inl h ↦ rw (arrays, maps, struct_agree t data_ at same h)
        | inr h ↦ rw (arrays, maps, h)
      ]

-- `n` rounds of the dispatch, and `rest` where they are used up.
unfoldable pub read_rounds : ℕ → Deserializer → Deserializer
read_rounds zero rest = rest
read_rounds (suc n) rest = deserialize_step (read_rounds n rest)

enough_rounds :
    (n m : ℕ) (rest : Deserializer) (t : Text)
    → length t < n
    → length t < m
    → read_rounds n rest t ≡ deserialize_fuel m t
unfolding read_rounds deserialize_fuel
enough_rounds zero m rest t hn hm = absurd (omega (arith, hn))
enough_rounds (suc n) zero rest t hn hm = absurd (omega (arith, hm))
enough_rounds (suc n) (suc m) rest t hn hm = λ i data_ at.
    step_agree (read_rounds n rest) (deserialize_fuel m) t data_ at
      (λ u lt. enough_rounds n m rest u (omega arith) (omega arith)) i

-- `deserialize` takes no more rounds than the type name is long, and one more: after these nothing
-- is called any more. Whatever function `rest` the dispatch would call next, the result is that of
-- `deserialize`, for every type name, input and offset, malformed or not, and with every larger
-- number of rounds.
pub deserialize-rounds :
    (rest : Deserializer) (extra : ℕ) (t : Text) (data_ : Bytes) (at : ℕ)
    → read_rounds (suc (length t) + extra) rest t data_ at ≡ deserialize t data_ at
unfolding deserialize
deserialize-rounds rest extra t data_ at =
    ap (λ f. f data_ at)
      (enough_rounds (suc (length t) + extra) (suc (length t)) rest t (omega arith) (omega arith))
