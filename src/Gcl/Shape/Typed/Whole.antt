-- ===== src/Gcl/Shape/Typed/Whole.antt =====
-- The deserializer returns values of the type that it is given, whatever the bytes are.
use dioxide_python.Prelude.{
  ℕ, zero, suc, ◌+◌, ◌*◌, ◌/◌, ◌≡◌, refl, sym, ◌∙◌, ap, ◌⊎◌, ◌==◌, Bool-cases, inl, inr, List, [],
  ◌∷◌, length, All, arith,
}
use dioxide_python.Prelude.Result.{Result, ok, deserialization, >>=-eq-ok, guard-eq-ok}
use dioxide_python.Bytes.{Bytes, slice, from_bytes, check_data_length}
use dioxide_python.Bytes.Laws.{IsByte}
use dioxide_python.Text.{Text}
use dioxide_python.Gcl.Value.{Value, Entries, list, dict, from_list}
use dioxide_python.Gcl.Dict.{dict_zip}
use dioxide_python.Gcl.TypeName.{is_variable_size_type}
use dioxide_python.Gcl.Table.{Deserializer, read_offsets, read_many, read_at, read_slices}
use dioxide_python.Gcl.Container.{
  members_from, deserialize_array, map_values, deserialize_map, struct_members, deserialize_struct,
}
use dioxide_python.Gcl.Serializer.{deserialize_step, deserialize_fuel, deserialize}
use dioxide_python.Gcl.Shape.{Key, Shape, Members, key_name, name, names}
use dioxide_python.Gcl.Shape.Split.{extract_struct-name}
use dioxide_python.Gcl.Shape.Dispatch.{
  deserialize-fixed_name, deserialize-array, deserialize-map, deserialize-struct,
}
use dioxide_python.Gcl.Shape.Whole.{struct_is_plain}
use dioxide_python.Gcl.Shape.Typed.{
  HasKey, HasShape, HasMembers, AllEntries, Gives, read_many-All, read_slices-All, read_at-All,
  dict_zip-AllEntries,
}
use dioxide_python.Gcl.Shape.Typed.Leaves.{
  fixed-HasFixed, string-IsStr, bigint-IsInt, token-HasShape,
}
use mathlib.Core.List.{map, zip}
use mathlib.Core.Path.{subst}

module _ (des : Deserializer) (t : Text) (P : Value → Type 0) (gives : Gives des t P) where
  -- A list of what the elements are.
  abbrev IsListOf : Value → Type 0
  IsListOf v = (vs : List Value) × (v ≡ list (from_list vs)) × All P vs

  deserialize_array-IsListOf :
      (data_ : Bytes) (at : ℕ) (v : Value) (next : ℕ)
      → All IsByte data_
      → deserialize_array des t data_ at ≡ ok (v, next)
      → IsListOf v
  unfolding deserialize_array
  deserialize_array-IsListOf data_ at v next small h =
      let (u, hu, h₁) = >>=-eq-ok (check_data_length data_ at 4) _ h in
      let size : ℕ = from_bytes (slice data_ at 4) in
      elim (Bool-cases (size == 0)) [
        | inl y ↦ let e = rw y at h₁ in ([], cc, tt)
        | inr n ↦ elim (Bool-cases (is_variable_size_type t)) [
          | inl y ↦
              let e₁ = rw (n, y) at h₁ in
              let (u', hu', e₂) = >>=-eq-ok (check_data_length data_ (at + 4) (size * 4)) _ e₁ in
              let origin : ℕ = at + 4 + size * 4 in
              let (vs, hvs, e₃) =
                >>=-eq-ok
                  (read_slices des t data_ origin (size * 4) origin
                    (read_offsets size data_ (at + 4)))
                  _ e₂ in
              (
                vs,
                cc,
                read_slices-All des t P gives data_ origin (size * 4) origin
                    (read_offsets size data_ (at + 4)) vs small hvs,
              )
          | inr f ↦
              let e₁ = rw (n, f) at h₁ in
              let ((vs, after), hvs, e₂) = >>=-eq-ok (read_many des t data_ size (at + 4)) _ e₁ in
              (vs, cc, read_many-All des t P gives data_ size (at + 4) vs after small hvs)
        ]
      ]

  map_values-All :
      (data_ : Bytes) (size start : ℕ) (vs : List Value) (after : ℕ)
      → All IsByte data_
      → map_values des t data_ size start ≡ ok (vs, after)
      → All P vs
  unfolding map_values
  map_values-All data_ size start vs after small h = elim (Bool-cases (is_variable_size_type t)) [
    | inl y ↦
        let e₁ = rw y at h in
        let (u, hu, e₂) = >>=-eq-ok (check_data_length data_ start (size * 4)) _ e₁ in
        let (ws, hws, e₃) =
          >>=-eq-ok
            (read_at des data_ start (start + size * 4)
              (map (λ o. (t, o)) (read_offsets size data_ start)))
            _ e₂ in
        let same : ws ≡ vs = cc in
        subst (All P) same (
          read_at-All des t P gives data_ start (start + size * 4) (read_offsets size data_ start)
            ws small hws)
    | inr f ↦ read_many-All des t P gives data_ size start vs after small (rw f at h)
  ]

deserialize_map-AllEntries :
    (des : Deserializer) (key_type value_type : Text) (K V : Value → Type 0)
    → Gives des key_type K
    → Gives des value_type V
    → (data_ : Bytes) (at : ℕ) (v : Value) (next : ℕ) → All IsByte data_
    → deserialize_map des key_type value_type data_ at ≡ ok (v, next)
    → (es : Entries) × (v ≡ dict es) × AllEntries K V es
unfolding deserialize_map
deserialize_map-AllEntries des key_type value_type K V keyed valued data_ at v next small h =
    let (u, hu, h₁) = >>=-eq-ok (check_data_length data_ at 4) _ h in
    let size : ℕ = from_bytes (slice data_ at 4) in
    let ((ks, start), hks, h₂) = >>=-eq-ok (read_many des key_type data_ size (at + 4)) _ h₁ in
    let ((vs, after), hvs, h₃) = >>=-eq-ok (map_values des value_type data_ size start) _ h₂ in
    let (es, hes, h₄) = >>=-eq-ok (dict_zip ks vs) _ h₃ in
    (
      es,
      cc,
      dict_zip-AllEntries K V ks vs es
          (read_many-All des key_type K keyed data_ size (at + 4) ks start small hks)
          (map_values-All des value_type V valued data_ size start vs after small hvs) hes,
    )

-- The members that are read by their offsets are as many as there are types.
abbrev MembersOf : Deserializer → Members → Type 0
MembersOf des ms =
    (data_ : Bytes) (table_start begin : ℕ) (os : List ℕ) (vs : List Value)
    → All IsByte data_
    → length os ≡ length (names ms)
    → read_at des data_ table_start begin (zip (names ms) os) ≡ ok vs
    → HasMembers ms vs

length-read_offsets :
    (count : ℕ) (data_ : Bytes) (at : ℕ) → length (read_offsets count data_ at) ≡ count
unfolding read_offsets
length-read_offsets zero data_ at = refl
length-read_offsets (suc count) data_ at = ap suc (length-read_offsets count data_ (at + 4))

deserialize_struct-HasMembers :
    (des : Deserializer) (ms : Members)
    → MembersOf des ms
    → (data_ : Bytes) (at : ℕ) (v : Value) (next : ℕ) → All IsByte data_
    → deserialize_struct des (name (Shape.struct ms)) data_ at ≡ ok (v, next)
    → (vs : List Value) × (v ≡ dict (members_from 0 vs)) × (HasMembers ms vs ⊎ (vs ≡ []))
unfolding deserialize_struct struct_members members_from
deserialize_struct-HasMembers des ms members data_ at v next small h =
    let (u, hu, h₁) = >>=-eq-ok (check_data_length data_ at 4) _ h in
    let count : ℕ = from_bytes (slice data_ at 4) / 16 in
    elim (Bool-cases (count == 0)) [
      | inl y ↦ let e = rw y at h₁ in ([], cc, inr refl)
      | inr n ↦
          let e₁ = rw (n, struct_is_plain ms, extract_struct-name ms) at h₁ in
          let (same, e₂) = guard-eq-ok (count == length (names ms)) deserialization _ e₁ in
          let size : ℕ = length (names ms) in
          let (u', hu', e₃) = >>=-eq-ok (check_data_length data_ (at + 4) (size * 4)) _ e₂ in
          let os : List ℕ = read_offsets size data_ (at + 4) in
          let (vs, hvs, e₄) =
            >>=-eq-ok (read_at des data_ (at + 4) (at + 4 + size * 4) (zip (names ms) os)) _ e₃ in
          (
            vs,
            cc,
            inl (
                members data_ (at + 4) (at + 4 + size * 4) os vs small
                  (length-read_offsets size data_ (at + 4)) hvs),
          )
    ]

key_name-Gives : (fuel : ℕ) (k : Key) → Gives (deserialize_fuel fuel) (key_name k) (HasKey k)
unfolding deserialize_fuel deserialize_step
key_name-Gives zero k data_ at v next small h = cc
key_name-Gives (suc fuel) (Key.fixed k) data_ at v next small h =
    fixed-HasFixed k data_ at v next small
      (sym (deserialize-fixed_name (deserialize_fuel fuel) data_ at k) ∙ h)
key_name-Gives (suc fuel) Key.string data_ at v next small h = string-IsStr data_ at v next h
key_name-Gives (suc fuel) Key.bigint data_ at v next small h = bigint-IsInt data_ at v next h

empty_ne : {v : Value} {vs : List Value} → Result.ok [] ≡ ok (v ∷ vs) → ⊥
empty_ne h = cc

mutual
  unfolding deserialize_fuel deserialize_step HasShape name names read_at zip

  name-Gives : (fuel : ℕ) (s : Shape) → Gives (deserialize_fuel fuel) (name s) (HasShape s)
  name-Gives zero s data_ at v next small h = cc
  name-Gives (suc fuel) (Shape.fixed k) data_ at v next small h =
      fixed-HasFixed k data_ at v next small
        (sym (deserialize-fixed_name (deserialize_fuel fuel) data_ at k) ∙ h)
  name-Gives (suc fuel) Shape.string data_ at v next small h = string-IsStr data_ at v next h
  name-Gives (suc fuel) Shape.bigint data_ at v next small h = bigint-IsInt data_ at v next h
  name-Gives (suc fuel) Shape.token data_ at v next small h = token-HasShape data_ at v next small h
  name-Gives (suc fuel) (Shape.array s) data_ at v next small h =
      deserialize_array-IsListOf (deserialize_fuel fuel) (name s) (HasShape s) (name-Gives fuel s)
        data_ at v next small (sym (deserialize-array (deserialize_fuel fuel) data_ at s) ∙ h)
  name-Gives (suc fuel) (Shape.map k s) data_ at v next small h =
      deserialize_map-AllEntries (deserialize_fuel fuel) (key_name k) (name s) (HasKey k)
        (HasShape s) (key_name-Gives fuel k) (name-Gives fuel s) data_ at v next small
        (sym (deserialize-map (deserialize_fuel fuel) data_ at k s) ∙ h)
  name-Gives (suc fuel) (Shape.struct ms) data_ at v next small h =
      deserialize_struct-HasMembers (deserialize_fuel fuel) ms (names-Gives fuel ms) data_ at v next
        small (sym (deserialize-struct (deserialize_fuel fuel) data_ at ms) ∙ h)

  names-Gives : (fuel : ℕ) (ms : Members) → MembersOf (deserialize_fuel fuel) ms
  names-Gives fuel Members.none data_ table_start begin [] [] small n h = tt
  names-Gives fuel Members.none data_ table_start begin [] (v ∷ vs) small n h = absurd (empty_ne h)
  names-Gives fuel Members.none data_ table_start begin (o ∷ os) vs small n h =
      absurd (omega (arith, n))
  names-Gives fuel (Members.more s ms) data_ table_start begin [] vs small n h =
      absurd (omega (arith, n))
  names-Gives fuel (Members.more s ms) data_ table_start begin (o ∷ os) vs small n h =
      let ((v, next), hv, h₁) = >>=-eq-ok (deserialize_fuel fuel (name s) data_ begin) _ h in
      let (rest, hs, h₂) =
        >>=-eq-ok
          (read_at (deserialize_fuel fuel) data_ table_start (table_start + o) (zip (names ms) os))
          _ h₁ in
      let e : v ∷ rest ≡ vs = cc in
      subst (HasMembers (Members.more s ms)) e (
        name-Gives fuel s data_ begin v next small hv,
        names-Gives fuel ms data_ table_start (table_start + o) os rest small (omega (arith, n)) hs,
      )

-- Whatever the bytes are, a value that `deserialize` returns for a type is of that type: an int in
-- the range of its width, as many bytes as the type has, a list of elements or a dict with keys and
-- values of their types, and for a struct a dict of members of their types, or the empty dict, which
-- is returned where the count in the data is 0.
pub deserialize-HasShape :
    (s : Shape) (data_ : Bytes) (at : ℕ) (v : Value) (next : ℕ)
    → All IsByte data_
    → deserialize (name s) data_ at ≡ ok (v, next)
    → HasShape s v
unfolding deserialize
deserialize-HasShape s data_ at v next small h =
    name-Gives (suc (length (name s))) s data_ at v next small h
