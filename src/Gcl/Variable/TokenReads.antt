-- ===== src/Gcl/Variable/TokenReads.antt =====
-- Tokens are read back.
use dioxide_python.Prelude.{ℕ, ◌+◌, ◌≡◌, refl, arith}
use dioxide_python.Prelude.{◌++◌, length, length-append}
use dioxide_python.Prelude.{Option, none, some, if◌then◌else◌}
use dioxide_python.Prelude.Int.{ℤ, is_zero}
use dioxide_python.Prelude.Result.{ok, bind₂-eq-ok}
use dioxide_python.Bytes.{Bytes}
use dioxide_python.Bytes.Place.{Stands-left, Stands-right}
use dioxide_python.Text.{Text, codes}
use dioxide_python.Gcl.Value.{Value, null, bool, int, float, str, bytes, list, dict, as_int}
use dioxide_python.Gcl.Dict.{get}
use dioxide_python.Gcl.Scalar.{byte_size, serialize_uint}
use dioxide_python.Gcl.Scalar.Reads.{int_or, serialize_uint-Reads, length-serialize_uint}
use dioxide_python.Gcl.Table.Laws.{Reads}
use dioxide_python.Gcl.Variable.{}
use dioxide_python.Gcl.Variable.{
  serialize_bigint, token_bytes, serialize_token, token, deserialize_token,
}
use dioxide_python.Gcl.Variable.Limbs.{}
use dioxide_python.Gcl.Variable.Reads.{bigint_size, serialize_bigint-Reads}

-- The id and the amount of a token, as they are read back.
abbrev pub token_or : Option Value → Option Value → Value → Value
token_or (some id) (some amount) v = token (int_or (as_int id) id) (int_or (as_int amount) amount)
token_or none _ v = v
token_or (some id) none v = v

-- How far a token is read: nine bytes if the amount is zero.
abbrev pub token_size : Option ℤ → Bytes → ℕ
token_size none bs = length bs
token_size (some z) bs = if is_zero z then 9 else length bs

token_size-append :
    (o : Option ℤ) (id amount : Bytes)
    → length id ≡ 8
    → 8 + bigint_size o amount ≡ token_size o (id ++ amount)
token_size-append none id amount h = omega (arith, length-append id amount)
token_size-append (some z) id amount h = ground (arith, length-append id amount)

token_bytes-Reads :
    (id amount v : Value) (bs : Bytes)
    → token_bytes (some id) (some amount) ≡ ok bs
    → Reads deserialize_token bs
        (token_or (some id) (some amount) v)
        (token_size (as_int amount) bs)
unfolding token_bytes deserialize_token
token_bytes-Reads id amount v bs h data_ at s =
    let (ib, ab, hi, ha, e) =
      bind₂-eq-ok (serialize_uint (codes "uint64") id) (serialize_bigint amount) (λ x y. x ++ y)
        h in
    let len : length ib ≡ 8 =
      length-serialize_uint (codes "uint64") id ib 8 (unfold byte_size in refl) hi in
    let here = rw e at s in
    let end : at + length ib + bigint_size (as_int amount) ab ≡ at + token_size (as_int amount) bs =
      rw e (omega (arith, token_size-append (as_int amount) ib ab len)) in
    rw (
      serialize_uint-Reads (codes "uint64") id ib hi data_ at (Stands-left ib ab here),
      serialize_bigint-Reads amount ab ha data_ (at + length ib) (Stands-right ib ab here),
      end,
    )

-- The fields of a token that is given as a dict.
abbrev pub field : Text → Value → Option Value
field name (dict es) = get (str name) es
field name _ = none

-- The int of the amount of a token.
abbrev pub amount_int : Option Value → Option ℤ
amount_int none = none
amount_int (some amount) = as_int amount

pub serialize_token-Reads :
    (v : Value) (bs : Bytes)
    → serialize_token v ≡ ok bs
    → Reads deserialize_token bs
        (token_or (field (codes "id") v) (field (codes "amount") v) v)
        (token_size (amount_int (field (codes "amount") v)) bs)
unfolding serialize_token
serialize_token-Reads (dict es) bs h =
    go (get (str (codes "id")) es) (get (str (codes "amount")) es) h
  where
    go :
        (i a : Option Value)
        → token_bytes i a ≡ ok bs
        → Reads deserialize_token bs (token_or i a (dict es)) (token_size (amount_int a) bs)
    go (some i) (some a) k = token_bytes-Reads i a (dict es) bs k
    go none a k = unfold token_bytes in cc
    go (some i) none k = unfold token_bytes in cc
serialize_token-Reads null bs h = cc
serialize_token-Reads (bool b) bs h = cc
serialize_token-Reads (int z) bs h = cc
serialize_token-Reads (float b) bs h = cc
serialize_token-Reads (str s) bs h = cc
serialize_token-Reads (bytes b) bs h = cc
serialize_token-Reads (list vs) bs h = cc
