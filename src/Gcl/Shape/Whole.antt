-- ===== src/Gcl/Shape/Whole.antt =====
-- Values of every shape, from `serialize` to `deserialize`.
use dioxide_python.Prelude.{
  ℕ, zero, suc, ◌+◌, ◌≡◌, refl, sym, ◌∙◌, ap, List, [], ◌∷◌, ◌++◌, length, Bool, true, false, not,
  ◌&&◌, arith,
}
use dioxide_python.Prelude.Result.{ok, bind₂-eq-ok, >>=-eq-ok}
use dioxide_python.Bytes.{Bytes}
use dioxide_python.Text.{codes, text_eq}
use dioxide_python.Gcl.Value.{Value}
use dioxide_python.Gcl.Table.{Deserializer}
use dioxide_python.Gcl.Table.Laws.{Reads, EachReads}
use dioxide_python.Gcl.Container.{
  Serializer, serialize_struct, deserialize_struct, struct_bytes, serialize_members, member_values,
}
use dioxide_python.Gcl.Container.Structs.{struct_bytes-Reads}
use dioxide_python.Gcl.Serializer.{serialize_fuel, deserialize_fuel, serialize, deserialize}
use dioxide_python.Gcl.Shape.{
  Key, Shape, Members, name, names, is_bigint_key, no_bigint_key, no_bigint_keys,
}
use dioxide_python.Gcl.Shape.Split.{extract_struct-name}
use dioxide_python.Gcl.Shape.Dispatch.{
  serialize-array, serialize-map, serialize-struct, deserialize-array, deserialize-map,
  deserialize-struct,
}
use dioxide_python.Gcl.Shape.Decoded.{decoded, decoded_members, decoded_struct, read_size}
use dioxide_python.Gcl.Shape.Leaves.{
  fixed_name-Reads, string-Reads, bigint-Reads, token-Reads, key_name-Reads, key_name-is_hashable,
}
use dioxide_python.Gcl.Shape.RoundTrip.{array_step, map_step}

pub and_left : (a b : Bool) → a && b ≡ true → a ≡ true
and_left true b h = refl
and_left false b h = h

pub and_right : (a b : Bool) → a && b ≡ true → b ≡ true
and_right true b h = h
and_right false b h = cc

other_key : (k : Key) (b : Bool) → not (is_bigint_key k) && b ≡ true → is_bigint_key k ≡ false
other_key (Key.fixed k) b h = refl
other_key Key.string b h = refl
other_key Key.bigint b h = cc

pub struct_is_plain : (ms : Members) → text_eq (name (Shape.struct ms)) (codes "struct") ≡ false
unfolding name
struct_is_plain ms = refl

no_members : (ms : Members) (vs : List Value) → length (names ms) ≡ 0 → decoded_members ms vs ≡ []
unfolding decoded_members names
no_members Members.none vs h = refl
no_members (Members.more s ms) vs h = let no : ⊥ = omega (arith, h) in elim no [ ]

-- One round at a struct, given the members.
struct_step :
    (ser : Serializer) (des : Deserializer) (ms : Members)
    → ((vs : List Value) (parts : List Bytes)
        → serialize_members ser (names ms) vs ≡ ok parts
        → length vs ≡ length (names ms)
        → (length parts ≡ length (names ms))
          × EachReads des (names ms) parts (decoded_members ms vs))
    → (v : Value) (bs : Bytes) → serialize_struct ser (name (Shape.struct ms)) v ≡ ok bs
    → Reads
        (deserialize_struct des (name (Shape.struct ms)))
        bs
        (decoded_struct (decoded_members ms) (member_values v) v)
        (length bs)
unfolding serialize_struct
struct_step ser des ms each v bs h =
    let (values, hv, k) = >>=-eq-ok (member_values v) _ h in
    let written : struct_bytes ser (names ms) values ≡ ok bs =
      rw (struct_is_plain ms, extract_struct-name ms) at k in
    rw hv (
      struct_bytes-Reads ser des (name (Shape.struct ms)) (names ms) values
        (decoded_members ms values) bs written (struct_is_plain ms) (extract_struct-name ms)
        (each values) (no_members ms values))

mutual
  unfolding no_bigint_key serialize_fuel deserialize_fuel decoded serialize_members names
      decoded_members name

  pub name-Reads :
      (fuel : ℕ) (s : Shape) (v : Value) (bs : Bytes)
      → no_bigint_key s ≡ true
      → serialize_fuel fuel (name s) v ≡ ok bs
      → Reads (deserialize_fuel fuel (name s)) bs (decoded s v) (read_size s v bs)
  name-Reads zero s v bs e h data_ at st = cc
  name-Reads (suc fuel) (Shape.fixed k) v bs e h data_ at st =
      fixed_name-Reads (suc fuel) k v bs h data_ at st
  name-Reads (suc fuel) Shape.string v bs e h data_ at st =
      string-Reads (suc fuel) v bs h data_ at st
  name-Reads (suc fuel) Shape.bigint v bs e h data_ at st =
      bigint-Reads (suc fuel) v bs h data_ at st
  name-Reads (suc fuel) Shape.token v bs e h data_ at st = token-Reads (suc fuel) v bs h data_ at st
  name-Reads (suc fuel) (Shape.array s) v bs e h data_ at st =
      deserialize-array (deserialize_fuel fuel) data_ at s
      ∙ array_step (serialize_fuel fuel) (deserialize_fuel fuel) s (λ w b. name-Reads fuel s w b e)
          v bs (sym (serialize-array (serialize_fuel fuel) v s) ∙ h) data_ at st
  name-Reads (suc fuel) (Shape.map k s) v bs e h data_ at st =
      deserialize-map (deserialize_fuel fuel) data_ at k s
      ∙ map_step (serialize_fuel fuel) (deserialize_fuel fuel) k s
          (λ w b. key_name-Reads fuel k w b (other_key k (no_bigint_key s) e))
          (λ w b. key_name-is_hashable fuel k w b (other_key k (no_bigint_key s) e))
          (λ w b. name-Reads fuel s w b (and_right (not (is_bigint_key k)) (no_bigint_key s) e)) v
          bs (sym (serialize-map (serialize_fuel fuel) v k s) ∙ h) data_ at st
  name-Reads (suc fuel) (Shape.struct ms) v bs e h data_ at st =
      deserialize-struct (deserialize_fuel fuel) data_ at ms
      ∙ struct_step (serialize_fuel fuel) (deserialize_fuel fuel) ms
          (λ vs ps. names-EachReads fuel ms vs ps e) v bs
          (sym (serialize-struct (serialize_fuel fuel) v ms) ∙ h) data_ at st

  names-EachReads :
      (fuel : ℕ) (ms : Members) (vs : List Value) (parts : List Bytes)
      → no_bigint_keys ms ≡ true
      → serialize_members (serialize_fuel fuel) (names ms) vs ≡ ok parts
      → length vs ≡ length (names ms)
      → (length parts ≡ length (names ms))
        × EachReads (deserialize_fuel fuel) (names ms) parts (decoded_members ms vs)
  names-EachReads fuel Members.none vs [] k h n = (refl, tt)
  names-EachReads fuel Members.none vs (b ∷ bs) k h n = cc
  names-EachReads fuel (Members.more s ms) [] parts k h n =
      let no : ⊥ = omega (arith, n) in elim no [ ]
  names-EachReads fuel (Members.more s ms) (v ∷ vs) parts k h n =
      let (b, bs, hb, hbs, e) =
        bind₂-eq-ok (serialize_fuel fuel (name s) v)
          (serialize_members (serialize_fuel fuel) (names ms) vs) (λ x y. x ∷ y) h in
      let here : Reads (deserialize_fuel fuel (name s)) b (decoded s v) (read_size s v b) =
        name-Reads fuel s v b (and_left (no_bigint_key s) (no_bigint_keys ms) k) hb in
      let (count, others) =
        names-EachReads fuel ms vs bs (and_right (no_bigint_key s) (no_bigint_keys ms) k) hbs
          (omega (arith, n)) in
      rw e (ap suc count, ((read_size s v b, here), others))

-- What `serialize` returns for a type, in which no map has bigint keys, and a value, put at any place among other bytes, is what
-- `deserialize` with the same type name reads there: it returns the value as the type keeps it, and
-- the offset behind what was written, or, for a bigint of zero and a token with such an amount,
-- the offset eight bytes before that.
pub deserialize-serialize :
    (s : Shape) (v : Value) (before bs after : Bytes)
    → no_bigint_key s ≡ true
    → serialize (name s) v ≡ ok bs
    → deserialize (name s) (before ++ (bs ++ after)) (length before)
      ≡ ok (decoded s v, length before + read_size s v bs)
unfolding serialize deserialize
deserialize-serialize s v before bs after e h =
    name-Reads (suc (length (name s))) s v bs e h (before ++ (bs ++ after)) (length before)
      (record { before = before; after = after; whole = refl; place = refl })
