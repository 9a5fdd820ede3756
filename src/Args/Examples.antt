-- ===== src/Args/Examples.antt =====
-- Arguments at a concrete signature.
use dioxide_python.Prelude.{List, [], ◌∷◌, ◌≡◌, refl, none, length, arith}
use dioxide_python.Prelude.Int.{pos}
use dioxide_python.Prelude.Result.{ok, err, value_error, ◌>>=◌}
use dioxide_python.Bytes.{Bytes, le_digits}
use dioxide_python.Text.{codes, is_space}
use dioxide_python.Gcl.Value.{Entries, int, str, end, entry}
use dioxide_python.Gcl.Dict.{get}
use dioxide_python.Gcl.TypeName.{split_types}
use dioxide_python.Gcl.Variable.{serialize_string, serialize_bigint, deserialize_bigint}
use dioxide_python.Gcl.Scalar.{serialize_uint, deserialize_uint}
use dioxide_python.Gcl.Serializer.{serialize_step, deserialize_step}
use dioxide_python.Gcl.Shape.{no_bigint_key, Width, Fixed, Shape, name}
use dioxide_python.Args.{serialize_params, serialize_args, deserialized_args}
use dioxide_python.Args.Signature.{Param, IsName, signature_text, split_types-signature_text}
use dioxide_python.Args.Errors.{serialize_args-error}
use dioxide_python.Args.Total.{Given, no_param, given, serialize_args-Given}
use dioxide_python.Gcl.Shape.Sized.{fixed, string}
use dioxide_python.Text.Hex.{hex}
use dioxide_python.Text.Utf8.{encode}
use dioxide_python.Args.RoundTrip.{read_back, deserialized_args-serialize_args}

-- "uint16:amount,string:memo"
abbrev pub params : List Param
params = (Shape.fixed (Fixed.uint Width.w16), codes "amount") ∷ (Shape.string, codes "memo") ∷ []

abbrev pub arguments : Entries
arguments =
    entry (str (codes "memo")) (str (codes "hi")) (entry (str (codes "amount")) (int (pos 300)) end)

abbrev pub argument_bytes : Bytes
argument_bytes = 44 ∷ 1 ∷ 2 ∷ 0 ∷ 104 ∷ 105 ∷ []

pub arguments_written :
    serialize_params 0 (split_types (signature_text params)) arguments ≡ ok argument_bytes
unfolding serialize_params split_types signature_text name serialize_step serialize_uint
    serialize_string le_digits
arguments_written = refl

-- A bigint of zero before another argument: the reader takes the other argument from its padding.
zero_first :
    (serialize_args
        (codes "bigint:a,uint16:b")
        (entry (str (codes "a")) (int (pos 0)) (entry (str (codes "b")) (int (pos 300)) end))
      >>= deserialized_args none (codes "bigint:a,uint16:b"))
    ≡ ok (entry (str (codes "a")) (int (pos 0)) (entry (str (codes "b")) (int (pos 0)) end), 3)
unfolding serialize_args serialize_step serialize_bigint serialize_uint deserialized_args le_digits
    deserialize_step deserialize_bigint deserialize_uint
zero_first = refl

-- The names are allowed.
pub amount-IsName : IsName (codes "amount")
unfolding is_space
amount-IsName = record { no_bracket = refl; no_blank = refl; colon_free = refl }

pub memo-IsName : IsName (codes "memo")
unfolding is_space
memo-IsName = record { no_bracket = refl; no_blank = refl; colon_free = refl }

deserialized_args-serialize_args_example :
    (serialize_args (signature_text params) arguments
      >>= deserialized_args none (signature_text params))
    ≡ ok (read_back params arguments end, 6)
unfolding no_bigint_key
deserialized_args-serialize_args_example =
    deserialized_args-serialize_args none params arguments argument_bytes
      (amount-IsName, (memo-IsName, tt)) (refl, (refl, tt)) arguments_written
      (omega arith, (omega arith, (omega arith, (omega arith, (omega arith, (omega arith, tt))))))

-- The dict in the order of the signature.
arguments_back :
    read_back params arguments end
    ≡ entry
        (str (codes "amount"))
        (int (pos 300))
        (entry (str (codes "memo")) (str (codes "hi")) end)
unfolding read_back get
arguments_back = refl

-- A missing argument
amount_missing :
    serialize_args (signature_text params) (entry (str (codes "memo")) (str (codes "hi")) end)
    ≡ err value_error
unfolding serialize_args signature_text name get
amount_missing = refl

serialize_args-error_example : value_error ≡ value_error
serialize_args-error_example =
    serialize_args-error (signature_text params) (entry (str (codes "memo")) (str (codes "hi")) end)
      value_error amount_missing

split_types-signature_text_example :
    split_types (codes "uint16:amount,string:memo")
    ≡ codes "uint16:amount" ∷ codes "string:memo" ∷ []
unfolding signature_text name
split_types-signature_text_example =
    split_types-signature_text params (amount-IsName, (memo-IsName, tt))

params-Given : Given arguments params 6
unfolding get encode
params-Given =
    given (Shape.fixed (Fixed.uint Width.w16)) (codes "amount") (int (pos 300)) _ 2 4 refl
      (fixed (Fixed.uint Width.w16) (int (pos 300)) (300, refl, omega arith)) (omega arith)
      (given Shape.string (codes "memo") (str (codes "hi")) [] 4 0 refl
        (string (codes "hi") (104 ∷ 105 ∷ []) refl (omega arith)) (omega arith) no_param)

serialize_args-Given_example :
    (bs : Bytes) × (serialize_args (codes "uint16:amount,string:memo") arguments ≡ ok (hex bs))
    × (length bs ≡ 6)
unfolding signature_text name
serialize_args-Given_example =
    serialize_args-Given params arguments 6 (amount-IsName, (memo-IsName, tt)) params-Given
