-- ===== src/Gcl/Shape/Sized/Whole.antt =====
-- Values of every type are written, in as many bytes as they take.
use dioxide_python.Prelude.{
  ℕ, suc, ◌+◌, ◌-◌, ◌^◌, ◌<◌, ◌≡◌, refl, ◌∙◌, ap, List, [], ◌∷◌, ◌++◌, length, length-append, All,
  arith,
}
use dioxide_python.Prelude.Result.{Result, ok, map_result}
use dioxide_python.Bytes.{Bytes}
use dioxide_python.Text.{Text, codes}
use dioxide_python.Gcl.Value.{Value, Values, Entries, int, str, list, dict, to_list, items}
use dioxide_python.Gcl.TypeName.Shorter.{member_types-lt}
use dioxide_python.Gcl.Container.{
  Serializer, array_bytes, map_bytes, struct_bytes, member_values, serialize_array, serialize_map,
  serialize_struct, serialize_members,
}
use dioxide_python.Gcl.Serializer.{serialize_step, serialize_fuel, serialize}
use dioxide_python.Gcl.Serializer.Fuel.{serialize-fuel_suffices}
use dioxide_python.Gcl.Shape.{Fixed, Key, Shape, Members, name, names, key_name, fixed_name}
use dioxide_python.Gcl.Shape.Split.{extract_struct-name}
use dioxide_python.Gcl.Shape.Whole.{struct_is_plain}
use dioxide_python.Gcl.Table.{join}
use dioxide_python.Gcl.Variable.{serialize_string, serialize_bigint, serialize_token, token}
use dioxide_python.Gcl.Shape.Dispatch.{
  serialize_fixed, serialize-fixed_name, serialize-array, serialize-map, serialize-struct,
  is_variable_size-name, has_variable_size,
}
use dioxide_python.Gcl.Shape.Sized.{
  Sized, AllSized, MembersSized, fixed, string, bigint, amount, array, mapping, struct, nothing,
  next, no_member, member, key_shape, Takes,
}
use dioxide_python.Gcl.Shape.Sized.Leaves.{fixed-Takes, string-Takes, bigint-Takes, token-Takes}
use dioxide_python.Gcl.Shape.Sized.Tables.{
  Written, Written-cons, map_result-map, array_bytes-Takes, map_bytes-Takes, struct_bytes-Takes,
}
use mathlib.Core.List.{map}

shorter_fuel :
    (fuel : ℕ) (t : Text) (v : Value) → length t < fuel → serialize_fuel fuel t v ≡ serialize t v
shorter_fuel fuel t v h =
    let all : fuel ≡ suc (length t) + (fuel - suc (length t)) = omega arith in
    ap (λ (n : ℕ). serialize_fuel n t v) all ∙ serialize-fuel_suffices (fuel - suc (length t)) t v

key_shape-name : (k : Key) → name (key_shape k) ≡ key_name k
unfolding name
key_shape-name (Key.fixed k) = refl
key_shape-name Key.string = refl
key_shape-name Key.bigint = refl

array-lt : (s : Shape) → length (name s) < length (name (Shape.array s))
unfolding name
array-lt s = omega (arith, length-append (name s) (codes ">"))

map-lt :
    (k : Key) (s : Shape)
    → (length (key_name k) < length (name (Shape.map k s)))
      × (length (name s) < length (name (Shape.map k s)))
unfolding name
map-lt k s =
    let inner = length-append (key_name k) (b',' ∷ name s) in
    let outer = length-append (key_name k ++ (b',' ∷ name s)) (codes ">") in
    (omega (arith, inner, outer), omega (arith, inner, outer))

members-lt : (ms : Members) → All (λ u. length u < length (name (Shape.struct ms))) (names ms)
members-lt ms = member_types-lt (name (Shape.struct ms)) (extract_struct-name ms)

members-length :
    (ms : Members) (vs : List Value) (n : ℕ) → MembersSized ms vs n → length vs ≡ length (names ms)
unfolding names
members-length Members.none [] n no_member = refl
members-length (Members.more s ms) (v ∷ vs) n (member _ _ _ _ m k h hs) =
    ap suc (members-length ms vs k hs)
members-length Members.none (v ∷ vs) n h = elim h [ ]
members-length (Members.more s ms) [] n h = elim h [ ]

-- What the dispatch does at each type.
fixed_lem : (k : Fixed) (v : Value) → serialize (name (Shape.fixed k)) v ≡ serialize_fixed v k
unfolding serialize serialize_fuel name
fixed_lem k v = serialize-fixed_name (serialize_fuel (length (fixed_name k))) v k

string_lem : (v : Value) → serialize (name Shape.string) v ≡ serialize_string v
unfolding serialize serialize_fuel serialize_step name
string_lem v = refl

bigint_lem : (v : Value) → serialize (name Shape.bigint) v ≡ serialize_bigint v
unfolding serialize serialize_fuel serialize_step name
bigint_lem v = refl

token_lem : (v : Value) → serialize (name Shape.token) v ≡ serialize_token v
unfolding serialize serialize_fuel serialize_step name
token_lem v = refl

array_lem :
    (s : Shape) (vs : Values)
    → serialize (name (Shape.array s)) (list vs)
      ≡ array_bytes (serialize_fuel (length (name (Shape.array s)))) (name s) (to_list vs)
unfolding serialize serialize_fuel serialize_array
array_lem s vs = serialize-array (serialize_fuel (length (name (Shape.array s)))) (list vs) s

map_lem :
    (k : Key) (s : Shape) (es : Entries)
    → serialize (name (Shape.map k s)) (dict es)
      ≡ map_bytes (serialize_fuel (length (name (Shape.map k s)))) (key_name k) (name s) (items es)
unfolding serialize serialize_fuel serialize_map
map_lem k s es = serialize-map (serialize_fuel (length (name (Shape.map k s)))) (dict es) k s

struct_lem :
    (ms : Members) (v : Value) (vs : List Value)
    → member_values v ≡ ok vs
    → serialize (name (Shape.struct ms)) v
      ≡ struct_bytes (serialize_fuel (length (name (Shape.struct ms)))) (names ms) vs
unfolding serialize serialize_fuel serialize_struct
struct_lem ms v vs h =
    serialize-struct (serialize_fuel (length (name (Shape.struct ms)))) v ms
    ∙ rw (h, struct_is_plain ms, extract_struct-name ms) refl

no_parts-Written : (f : Value → Result Bytes) → Written 0 0 (map_result f [])
unfolding map_result join
no_parts-Written f = ([], refl, refl, refl)

no_members-Written : (f : Serializer) → Written 0 0 (serialize_members f (names Members.none) [])
unfolding serialize_members names join
no_members-Written f = ([], refl, refl, refl)

more_members-Written :
    (f : Serializer) (s : Shape) (ms : Members) (v : Value) (vs : List Value) (m n : ℕ)
    → Takes m (f (name s) v)
    → Written (length vs) n (serialize_members f (names ms) vs)
    → Written (length (v ∷ vs)) (m + n) (serialize_members f (names (Members.more s ms)) (v ∷ vs))
unfolding serialize_members names join
more_members-Written f s ms v vs m n (b, e, size) (bs, e', count, total) =
    rw (e, e') (b ∷ bs, refl, ap suc count, omega (arith, length-append b (join bs)))

length-map {ℓ κ} :
    {A : Type ℓ} {B : Type κ} (f : A → B) (xs : List A) → length (map f xs) ≡ length xs
length-map f [] = refl
length-map f (x ∷ xs) = ap suc (length-map f xs)

entries-Written :
    (fuel : ℕ) (part : Value × Value → Value) (t : Text) (es : List (Value × Value)) (n : ℕ)
    → Written (length (map part es)) n (map_result (serialize_fuel fuel t) (map part es))
    → Written (length es) n (map_result (λ e. serialize_fuel fuel t (part e)) es)
entries-Written fuel part t es n h =
    rw (map_result-map (serialize_fuel fuel t) part es) (rw (length-map part es) at h)

mutual
  unfolding names

  name-Takes :
      (s : Shape) (v : Value) (n : ℕ) → Sized s v n → n < 2 ^ 32 → Takes n (serialize (name s) v)
  name-Takes (Shape.fixed k) v n (fixed _ _ h) small = rw (fixed_lem k v) (fixed-Takes k v h)
  name-Takes Shape.string v n (string t utf8 h fits) small =
      rw (string_lem (str t)) (string-Takes t utf8 h fits)
  name-Takes Shape.bigint v n (bigint z h) small = rw (bigint_lem (int z)) (bigint-Takes z h)
  name-Takes Shape.token v n (amount id z hid h) small =
      rw (token_lem (token id (int z))) (token-Takes id z hid h)
  name-Takes (Shape.array s) v n (array _ vs m few all) small =
      let fuel : ℕ = length (name (Shape.array s)) in
      rw (array_lem s vs) (
        array_bytes-Takes (serialize_fuel fuel) (name s) (has_variable_size s) (to_list vs) m
          (is_variable_size-name s) few small
          (all-Written fuel s (name s) (to_list vs) m refl (array-lt s) all (omega arith)))
  name-Takes (Shape.map k s) v n (mapping _ _ es l m few keys all) small =
      let fuel : ℕ = length (name (Shape.map k s)) in
      let (key-lt, value-lt) = map-lt k s in
      rw (map_lem k s es) (
        map_bytes-Takes (serialize_fuel fuel) (key_name k) (name s) (has_variable_size s) (items es)
          l m (is_variable_size-name s) few small
          (entries-Written fuel (λ e. e.0) (key_name k) (items es) l
            (all-Written fuel (key_shape k) (key_name k) (map (λ e. e.0) (items es)) l
              (key_shape-name k) key-lt keys (omega arith)))
          (entries-Written fuel (λ e. e.1) (name s) (items es) m
            (all-Written fuel s (name s) (map (λ e. e.1) (items es)) m refl value-lt all
              (omega arith))))
  name-Takes (Shape.struct ms) v n (struct _ _ vs m h few all) small =
      let fuel : ℕ = length (name (Shape.struct ms)) in
      rw (struct_lem ms v vs h) (
        struct_bytes-Takes (serialize_fuel fuel) (names ms) vs m (members-length ms vs m all) few
          small (members-Written fuel ms vs m (members-lt ms) all (omega arith)))

  all-Written :
      (fuel : ℕ) (s : Shape) (t : Text) (vs : List Value) (n : ℕ)
      → name s ≡ t
      → length t < fuel
      → AllSized s vs n
      → n < 2 ^ 32
      → Written (length vs) n (map_result (serialize_fuel fuel t) vs)
  all-Written fuel s t [] n e lt (nothing _) small = no_parts-Written (serialize_fuel fuel t)
  all-Written fuel s t (v ∷ vs) n e lt (next _ _ _ m k h hs) small =
      Written-cons (serialize_fuel fuel t) v vs m k
        (rw (shorter_fuel fuel t v lt, ← e) (name-Takes s v m h (omega arith)))
        (all-Written fuel s t vs k e lt hs (omega arith))

  members-Written :
      (fuel : ℕ) (ms : Members) (vs : List Value) (n : ℕ)
      → All (λ u. length u < fuel) (names ms)
      → MembersSized ms vs n
      → n < 2 ^ 32
      → Written (length vs) n (serialize_members (serialize_fuel fuel) (names ms) vs)
  members-Written fuel Members.none [] n lt no_member small =
      no_members-Written (serialize_fuel fuel)
  members-Written fuel Members.none (v ∷ vs) n lt h small = elim h [ ]
  members-Written fuel (Members.more s ms) [] n lt h small = elim h [ ]
  members-Written fuel (Members.more s ms) (v ∷ vs) n (lt, lts) (member _ _ _ _ m k h hs) small =
      more_members-Written (serialize_fuel fuel) s ms v vs m k
        (rw (shorter_fuel fuel (name s) v lt) (name-Takes s v m h (omega arith)))
        (members-Written fuel ms vs k lts hs (omega arith))

-- Every value of a type, of texts, ints and counts that the format can hold, is written, in exactly
-- as many bytes as it takes, if these are fewer than 2 ** 32.
pub serialize-Takes :
    (s : Shape) (v : Value) (n : ℕ) → Sized s v n → n < 2 ^ 32 → Takes n (serialize (name s) v)
serialize-Takes s v n sized small = name-Takes s v n sized small
