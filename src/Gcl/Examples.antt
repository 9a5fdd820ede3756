-- ===== src/Gcl/Examples.antt =====
-- The serializer on concrete values, and its theorems at them.
use dioxide_python.Prelude.{[], ◌∷◌, ◌++◌, ◌+◌, ◌≡◌, refl, suc, length, true, All, arith}
use dioxide_python.Prelude.Int.{pos, negsuc}
use dioxide_python.Prelude.Result.{ok}
use dioxide_python.Bytes.{Bytes, le_digits}
use dioxide_python.Bytes.Laws.{IsByte}
use dioxide_python.Text.{codes}
use dioxide_python.Gcl.Value.{Value, int, str, list, dict, nil, cons, end, entry, as_int, from_list}
use dioxide_python.Gcl.Dict.{get}
use dioxide_python.Gcl.TypeName.{extract_struct_member_types}
use dioxide_python.Gcl.Variable.{
  token, serialize_bigint, deserialize_bigint, serialize_string, serialize_token,
}
use dioxide_python.Gcl.Serializer.{serialize, deserialize, serialize_step, deserialize_step}
use dioxide_python.Gcl.Serializer.Fuel.{rounds, serialize-rounds}
use dioxide_python.Gcl.Serializer.ReadFuel.{read_rounds, deserialize-rounds}
use dioxide_python.Gcl.Container.{
  member_values, members_from, serialize_array, serialize_struct, deserialize_array,
  deserialize_struct, serialize_map, deserialize_map,
}
use dioxide_python.Gcl.Scalar.{serialize_uint, deserialize_uint}
use dioxide_python.Gcl.Scalar.Ranges.{UintOutcome, IntOutcome}
use dioxide_python.Gcl.Shape.Typed.{HasShape}
use dioxide_python.Gcl.Shape.Typed.Whole.{deserialize-HasShape}
use dioxide_python.Gcl.Variable.{deserialize_string}
use dioxide_python.Gcl.Shape.{Width, Fixed, Key, Shape, Members, name, names, no_bigint_key}
use dioxide_python.Gcl.Shape.Sized.{
  Sized, AllSized, Takes, fixed, string, amount, array, struct, nothing, next, no_member, member,
}
use dioxide_python.Gcl.Shape.Sized.Whole.{serialize-Takes}
use dioxide_python.Text.Utf8.{encode}
use dioxide_python.Gcl.Variable.{limbs}
use dioxide_python.Gcl.Value.{to_list}
use dioxide_python.Gcl.Shape.Split.{extract_struct-name}
use dioxide_python.Gcl.Shape.Decoded.{decoded, read_size}
use dioxide_python.Gcl.Shape.Bounds.{serialize-uint, serialize-int, serialize-deserialize_uint}
use dioxide_python.Gcl.Shape.Whole.{deserialize-serialize}

abbrev words : Value
words = list (cons (str (codes "a")) (cons (str (codes "bc")) nil))

array_of_strings :
    serialize (codes "array<string>") words
    ≡ ok (2 ∷ 0 ∷ 0 ∷ 0 ∷ 11 ∷ 0 ∷ 0 ∷ 0 ∷ 15 ∷ 0 ∷ 0 ∷ 0 ∷ 1 ∷ 0 ∷ 97 ∷ 2 ∷ 0 ∷ 98 ∷ 99 ∷ [])
unfolding serialize serialize_step serialize_array serialize_string le_digits
array_of_strings = refl

-- struct<uint8,array<string>,token>
abbrev sample : Shape
sample = Shape.struct (
    Members.more (Shape.fixed (Fixed.uint Width.w8))
      (Members.more (Shape.array Shape.string) (Members.more Shape.token Members.none)))

abbrev sample_value : Value
sample_value =
    list (cons (int (pos 7)) (cons words (cons (token (int (pos 3)) (int (negsuc 299))) nil)))

abbrev sample_bytes : Bytes
sample_bytes =
    51 ∷ 0 ∷ 0 ∷ 0 ∷ 13 ∷ 0 ∷ 0 ∷ 0 ∷ 32 ∷ 0 ∷ 0 ∷ 0 ∷ 49 ∷ 0 ∷ 0 ∷ 0 ∷ 7 ∷ 2 ∷ 0 ∷ 0 ∷ 0 ∷ 11 ∷ 0
    ∷ 0 ∷ 0 ∷ 15 ∷ 0 ∷ 0 ∷ 0 ∷ 1 ∷ 0 ∷ 97 ∷ 2 ∷ 0 ∷ 98 ∷ 99 ∷ 3 ∷ 0 ∷ 0 ∷ 0 ∷ 0 ∷ 0 ∷ 0 ∷ 0 ∷ 129
    ∷ 44 ∷ 1 ∷ 0 ∷ 0 ∷ 0 ∷ 0 ∷ 0 ∷ 0 ∷ []

sample_written : serialize (name sample) sample_value ≡ ok sample_bytes
unfolding serialize serialize_step serialize_array serialize_struct name serialize_uint
    serialize_string le_digits serialize_token
sample_written = refl

sample_keys : no_bigint_key sample ≡ true
unfolding no_bigint_key
sample_keys = refl

deserialize-serialize_example :
    deserialize (name sample) ((9 ∷ []) ++ (sample_bytes ++ (8 ∷ []))) 1
    ≡ ok (decoded sample sample_value, 1 + read_size sample sample_value sample_bytes)
deserialize-serialize_example =
    deserialize-serialize sample sample_value (9 ∷ []) sample_bytes (8 ∷ []) sample_keys
      sample_written

-- What comes back is a dict of the members by their places.
sample_reads_back :
    decoded sample sample_value
    ≡ dict (
        entry (str (codes "member_0")) (int (pos 7)) (
          entry
            (str (codes "member_1"))
            words
            (entry (str (codes "member_2")) (token (int (pos 3)) (int (negsuc 299))) end)))
unfolding decoded member_values members_from as_int from_list get
sample_reads_back = refl

-- A bigint of zero is written in nine bytes.
zero_written :
    serialize (name Shape.bigint) (int (pos 0)) ≡ ok (0 ∷ 0 ∷ 0 ∷ 0 ∷ 0 ∷ 0 ∷ 0 ∷ 0 ∷ 0 ∷ [])
unfolding serialize serialize_step name serialize_bigint
zero_written = refl

-- One of them is read.
zero_read_short :
    deserialize (name Shape.bigint) (0 ∷ 0 ∷ 0 ∷ 0 ∷ 0 ∷ 0 ∷ 0 ∷ 0 ∷ 0 ∷ []) 0 ≡ ok (int (pos 0), 1)
unfolding decoded as_int no_bigint_key
zero_read_short =
    deserialize-serialize Shape.bigint (int (pos 0)) [] (0 ∷ 0 ∷ 0 ∷ 0 ∷ 0 ∷ 0 ∷ 0 ∷ 0 ∷ 0 ∷ []) []
      refl zero_written

-- A map with a key of zero is written.
abbrev zero_key : Shape
zero_key = Shape.map Key.bigint (Shape.fixed (Fixed.uint Width.w8))

abbrev zero_key_bytes : Bytes
zero_key_bytes = 1 ∷ 0 ∷ 0 ∷ 0 ∷ 0 ∷ 0 ∷ 0 ∷ 0 ∷ 0 ∷ 0 ∷ 0 ∷ 0 ∷ 0 ∷ 5 ∷ []

zero_key_written :
    serialize (name zero_key) (dict (entry (int (pos 0)) (int (pos 5)) end)) ≡ ok zero_key_bytes
unfolding serialize serialize_step name serialize_bigint serialize_map serialize_uint le_digits
zero_key_written = refl

-- Its value is read too early, as a byte of the key: {0: 5} comes back as {0: 0}.
zero_key_misread :
    deserialize (name zero_key) zero_key_bytes 0
    ≡ ok (dict (entry (int (pos 0)) (int (pos 0)) end), 6)
unfolding deserialize deserialize_step name deserialize_map deserialize_bigint deserialize_uint
zero_key_misread = refl

serialize-rounds_example :
    rounds (suc (length (name sample)) + 5) (λ t v. ok []) (name sample) sample_value
    ≡ serialize (name sample) sample_value
serialize-rounds_example = serialize-rounds (λ t v. ok []) 5 (name sample) sample_value

deserialize-rounds_example :
    read_rounds
      (suc (length (name sample)) + 5)
      (λ t d a. ok (dict end, 0))
      (name sample)
      sample_bytes
      0
    ≡ deserialize (name sample) sample_bytes 0
deserialize-rounds_example =
    deserialize-rounds (λ t d a. ok (dict end, 0)) 5 (name sample) sample_bytes 0

serialize-uint_example :
    UintOutcome 2
      (pos 65536)
      (serialize (name (Shape.fixed (Fixed.uint Width.w16))) (int (pos 65536)))
serialize-uint_example = serialize-uint Width.w16 (pos 65536)

serialize-int_example :
    IntOutcome 1
      (negsuc 127)
      (serialize (name (Shape.fixed (Fixed.int Width.w8))) (int (negsuc 127)))
serialize-int_example = serialize-int Width.w8 (negsuc 127)

uint16_read :
    deserialize (name (Shape.fixed (Fixed.uint Width.w16))) (5 ∷ 44 ∷ 1 ∷ []) 1
    ≡ ok (int (pos 300), 3)
unfolding deserialize deserialize_step name deserialize_uint
uint16_read = refl

serialize-deserialize_uint_example :
    serialize (name (Shape.fixed (Fixed.uint Width.w16))) (int (pos 300)) ≡ ok (44 ∷ 1 ∷ [])
serialize-deserialize_uint_example =
    serialize-deserialize_uint Width.w16 (5 ∷ 44 ∷ 1 ∷ []) 1 (int (pos 300)) 3
      (omega arith, (omega arith, (omega arith, tt))) uint16_read

extract_struct-name_example :
    extract_struct_member_types (codes "struct<uint8,array<string>,token>")
    ≡ ok (codes "uint8" ∷ codes "array<string>" ∷ codes "token" ∷ [])
unfolding name names
extract_struct-name_example = extract_struct-name (
    Members.more (Shape.fixed (Fixed.uint Width.w8))
      (Members.more (Shape.array Shape.string) (Members.more Shape.token Members.none)))

abbrev greeting : Bytes
greeting = 1 ∷ 0 ∷ 0 ∷ 0 ∷ 8 ∷ 0 ∷ 0 ∷ 0 ∷ 2 ∷ 0 ∷ 104 ∷ 105 ∷ []

greeting_read :
    deserialize (name (Shape.array Shape.string)) greeting 0
    ≡ ok (list (from_list (str (codes "hi") ∷ [])), 12)
unfolding deserialize deserialize_step name deserialize_string from_list deserialize_array
greeting_read = refl

greeting-IsByte : All IsByte greeting
greeting-IsByte = ground arith

deserialize-HasShape_example :
    HasShape (Shape.array Shape.string) (list (from_list (str (codes "hi") ∷ [])))
deserialize-HasShape_example =
    deserialize-HasShape (Shape.array Shape.string) greeting 0
      (list (from_list (str (codes "hi") ∷ []))) 12 greeting-IsByte greeting_read

-- A struct with the count 0 is read as the empty dict, though its type has a member.
no_members_read : deserialize (codes "struct<uint8>") (0 ∷ 0 ∷ 0 ∷ 0 ∷ 7 ∷ []) 0 ≡ ok (dict end, 4)
unfolding deserialize deserialize_step deserialize_struct
no_members_read = refl

two_texts : AllSized Shape.string (str (codes "a") ∷ str (codes "bc") ∷ []) 7
unfolding encode
two_texts =
    next Shape.string (str (codes "a")) (str (codes "bc") ∷ []) 3 4
      (string (codes "a") (97 ∷ []) refl (omega arith))
      (next Shape.string (str (codes "bc")) [] 4 0
        (string (codes "bc") (98 ∷ 99 ∷ []) refl (omega arith)) (nothing Shape.string))

words-Sized : Sized (Shape.array Shape.string) words 19
unfolding to_list
words-Sized =
    array Shape.string (cons (str (codes "a")) (cons (str (codes "bc")) nil)) 7 (omega arith)
      two_texts

amount-Sized : Sized Shape.token (token (int (pos 3)) (int (negsuc 299))) 17
unfolding limbs
amount-Sized = amount (int (pos 3)) (negsuc 299) (3, refl, omega arith) (omega arith)

sample-Sized : Sized sample sample_value 53
unfolding member_values to_list
sample-Sized = struct _ sample_value _ 37 refl (omega arith) (
    member _ _ _ _ 1 36 (fixed (Fixed.uint Width.w8) (int (pos 7)) (7, refl, omega arith))
      (member _ _ _ _ 19 17 words-Sized (member _ _ _ _ 17 0 amount-Sized no_member)))

serialize-Takes_example : Takes 53 (serialize (name sample) sample_value)
serialize-Takes_example = serialize-Takes sample sample_value 53 sample-Sized (omega arith)
