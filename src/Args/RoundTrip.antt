-- ===== src/Args/RoundTrip.antt =====
-- Arguments that are read with the signature that they were written with.
use dioxide_python.Prelude.{
  ℕ, suc, ◌+◌, ◌≡◌, refl, ◌∙◌, ap, Bool, true, false, not, Option, none, some, List, [], ◌∷◌, ◌++◌,
  arith, ◌&&◌,
}
use dioxide_python.Prelude.{length, All, if◌then◌else◌, length-append}
use dioxide_python.Prelude.Int.{ℤ, is_zero}
use dioxide_python.Prelude.Result.{Result, Error, ok, err, not_bytes, ◌>>=◌, >>=-eq-ok}
use dioxide_python.Bytes.{Bytes}
use dioxide_python.Bytes.Laws.{IsByte}
use dioxide_python.Bytes.Place.{Stands, all-Stands, Stands-left, Stands-right}
use dioxide_python.Text.{Text, codes, text_in}
use dioxide_python.Text.Hex.{from_hex-hex}
use dioxide_python.Gcl.Value.{
  Value, Entries, null, bool, int, float, str, bytes, list, dict, end, as_int,
}
use dioxide_python.Gcl.Dict.{get, put}
use dioxide_python.Gcl.TypeName.{split_types}
use dioxide_python.Gcl.Variable.Reads.{bigint_size}
use dioxide_python.Gcl.Variable.TokenReads.{field, amount_int, token_size}
use dioxide_python.Gcl.Serializer.{serialize, deserialize, fixed_bytes_types}
use dioxide_python.Gcl.Shape.{Fixed, FloatWidth, Shape, name, no_bigint_key}
use dioxide_python.Gcl.Shape.Decoded.{decoded, read_size}
use dioxide_python.Gcl.Shape.Whole.{name-Reads, and_left, and_right}
use dioxide_python.Args.{
  type_and_name, extended, extend_with, or_missing, serialize_params, serialize_args, read_param,
  deserialize_params, deserialized_args,
}
use dioxide_python.Args.Fallback.{Krock32}
use dioxide_python.Args.Signature.{
  Param, IsName, param_text, signature_text, split_types-signature_text, type_and_name-param_text,
}
use mathlib.Core.List.{map}

-- No bigint and no token amount is zero, and blobs, hashes and addresses are bytes.
abbrev nonzero : Option ℤ → Bool
nonzero none = true
nonzero (some z) = not (is_zero z)

abbrev is_bytes : Value → Bool
is_bytes (bytes b) = true
is_bytes _ = false

abbrev is_plain_fixed : Fixed → Value → Bool
is_plain_fixed Fixed.blob v = is_bytes v
is_plain_fixed Fixed.hash v = is_bytes v
is_plain_fixed Fixed.address v = is_bytes v
is_plain_fixed _ v = true

abbrev is_whole : Shape → Value → Bool
is_whole (Shape.fixed k) v = is_plain_fixed k v
is_whole Shape.bigint v = nonzero (as_int v)
is_whole Shape.token v = nonzero (amount_int (field (codes "amount") v))
is_whole _ v = true

-- Then all that was written is read.
read_size-whole :
    (s : Shape) (v : Value) (b : Bytes) → is_whole s v ≡ true → read_size s v b ≡ length b
read_size-whole (Shape.fixed k) v b h = refl
read_size-whole Shape.string v b h = refl
read_size-whole Shape.bigint v b h = go (as_int v) h
  where
    go : (o : Option ℤ) → nonzero o ≡ true → bigint_size o b ≡ length b
    go none k = refl
    go (some z) k = ground arith
read_size-whole Shape.token v b h = go (amount_int (field (codes "amount") v)) h
  where
    go : (o : Option ℤ) → nonzero o ≡ true → token_size o b ≡ length b
    go none k = refl
    go (some z) k = ground arith
read_size-whole (Shape.array s) v b h = refl
read_size-whole (Shape.map k s) v b h = refl
read_size-whole (Shape.struct ms) v b h = refl

-- Then nothing but bytes is appended.
bytes_only : (v : Value) {b : Bytes} → is_bytes v ≡ true → extended v ≡ ok b → ⊥
unfolding extended
bytes_only (bytes x) h k = cc
bytes_only null h k = cc
bytes_only (bool x) h k = cc
bytes_only (int x) h k = cc
bytes_only (float x) h k = cc
bytes_only (str x) h k = cc
bytes_only (list x) h k = cc
bytes_only (dict x) h k = cc

not_returned :
    (s : Shape) (v : Value) {b : Bytes}
    → is_whole s v ≡ true
    → (if text_in (name s) fixed_bytes_types then extended v else err Error.value_error) ≡ ok b
    → ⊥
unfolding name
not_returned (Shape.fixed Fixed.blob) v h k = bytes_only v h k
not_returned (Shape.fixed Fixed.hash) v h k = bytes_only v h k
not_returned (Shape.fixed Fixed.address) v h k = bytes_only v h k
not_returned (Shape.fixed (Fixed.float FloatWidth.f256)) v h k = cc
not_returned (Shape.fixed (Fixed.float _)) v h k = cc
not_returned s v h k = cc

extend_with-ok :
    (s : Shape) (v : Value) (r : Result Bytes) {b : Bytes}
    → is_whole s v ≡ true
    → extend_with (name s) v r ≡ ok b
    → r ≡ ok b
unfolding extend_with
extend_with-ok s v (ok x) h k = k
extend_with-ok s v (err not_bytes) h k = elim (not_returned s v h k) [ ]
extend_with-ok s v (err _) h k = cc

-- Nor has a map in the type bigint keys, among which a zero could stand.
abbrev pub is_plain : Shape → Value → Bool
is_plain s v = no_bigint_key s && is_whole s v

-- The value of a parameter, and whether it is one that is read back whole.
abbrev or_null : Option Value → Value
or_null none = null
or_null (some v) = v

abbrev argument : Text → Entries → Value
argument n args = or_null (get (str n) args)

abbrev pub AllPlain : List Param → Entries → Type 0
AllPlain ps args = All (λ p. is_plain p.0 (argument p.1 args) ≡ true) ps

-- The dict that comes back: each value as its type keeps it, under its name.
unfoldable pub read_back : List Param → Entries → Entries → Entries
unfolding decoded put
read_back [] args ret = ret
read_back ((s, n) ∷ ps) args ret = read_back ps args (put (str n) (decoded s (argument n args)) ret)

or_missing-ok : (o : Option Value) {v : Value} → or_missing o ≡ ok v → or_null o ≡ v
unfolding or_missing
or_missing-ok none h = cc
or_missing-ok (some v) h = cc

serialize_param :
    (idx : ℕ) (s : Shape) (n : Text) (rest : List Text) (args : Entries) (bs : Bytes)
    → IsName n
    → serialize_params idx (param_text (s, n) ∷ rest) args ≡ ok bs
    → is_plain s (argument n args) ≡ true
    → (b : Bytes) × (more : Bytes) × (serialize (name s) (argument n args) ≡ ok b)
      × (serialize_params (suc idx) rest args ≡ ok more)
      × (bs ≡ b ++ more)
unfolding serialize_params
serialize_param idx s n rest args bs hn h plain =
    let h' = rw (type_and_name-param_text idx s n hn) at h in
    let (v, hv, h₁) = >>=-eq-ok (or_missing (get (str n) args)) _ h' in
    let (b, hb, h₂) = >>=-eq-ok (extend_with (name s) v (serialize (name s) v)) _ h₁ in
    let (more, hm, e) = >>=-eq-ok (serialize_params (suc idx) rest args) _ h₂ in
    let same : argument n args ≡ v = or_missing-ok (get (str n) args) hv in
    let plain' : is_plain s v ≡ true = rw same at plain in
    let written =
      extend_with-ok s v (serialize (name s) v) (and_right (no_bigint_key s) (is_whole s v) plain')
        hb in
    (b, more, rw same written, hm, cc)

value-Reads :
    (s : Shape) (v : Value) (b data_ : Bytes) (at : ℕ)
    → no_bigint_key s ≡ true
    → serialize (name s) v ≡ ok b
    → read_size s v b ≡ length b
    → Stands data_ at b
    → deserialize (name s) data_ at ≡ ok (decoded s v, at + length b)
unfolding serialize deserialize
value-Reads s v b data_ at k h size st =
    rw (← size) (name-Reads (suc (length (name s))) s v b k h data_ at st)

module _ (krock32 : Krock32) where
  one_param :
      (idx : ℕ) (param : Text) (params : List Text) (data_ : Bytes) (at : ℕ) (ret : Entries)
      (t n : Text) (v : Value) (next : ℕ)
      → type_and_name idx param ≡ (t, n)
      → deserialize t data_ at ≡ ok (v, next)
      → deserialize_params krock32 idx (param ∷ params) data_ at ret
        ≡ deserialize_params krock32 (suc idx) params data_ next (put (str n) v ret)
  unfolding deserialize_params read_param
  one_param idx param params data_ at ret t n v next ht hd = rw (ht, hd)

  params-Reads :
      (ps : List Param) (idx : ℕ) (args : Entries) (bs : Bytes)
      → All (λ p. IsName p.1) ps
      → AllPlain ps args
      → serialize_params idx (map param_text ps) args ≡ ok bs
      → (data_ : Bytes) (at : ℕ) (ret : Entries) → Stands data_ at bs
      → deserialize_params krock32 idx (map param_text ps) data_ at ret
        ≡ (read_back ps args ret, at + length bs)
  unfolding deserialize_params read_back serialize_params
  params-Reads [] idx args bs names plain h data_ at ret st =
      let none_left : bs ≡ [] = cc in
      let end : at ≡ at + length bs = omega (arith, ap length none_left) in
      ap (λ (k : ℕ). (ret, k)) end
  params-Reads ((s, n) ∷ ps) idx args bs (hn, names) (plain, plains) h data_ at ret st =
      let (b, more, hb, hm, e) = serialize_param idx s n (map param_text ps) args bs hn h plain in
      let v : Value = argument n args in
      let here = rw e at st in
      let size : read_size s v b ≡ length b =
        read_size-whole s v b (and_right (no_bigint_key s) (is_whole s v) plain) in
      let read : deserialize (name s) data_ at ≡ ok (decoded s v, at + length b) =
        value-Reads s v b data_ at (and_left (no_bigint_key s) (is_whole s v) plain) hb size
          (Stands-left b more here) in
      let rest =
        params-Reads ps (suc idx) args more names plains hm data_ (at + length b)
          (put (str n) (decoded s v) ret) (Stands-right b more here) in
      let end : at + length b + length more ≡ at + length bs =
        omega (arith, ap length e, length-append b more) in
      one_param idx (param_text (s, n)) (map param_text ps) data_ at ret (name s) n (decoded s v)
        (at + length b) (type_and_name-param_text idx s n hn) read
      ∙ (rest ∙ ap (λ (k : ℕ). (read_back ps args (put (str n) (decoded s v) ret), k)) end)

-- A signature of types and names, and arguments among which no bigint and no token amount is zero
-- and each blob, hash and address is a `bytes` object, and no map has bigint keys: where `serialize_args` writes the
-- parameters, as bytes that are numbers below 256, `deserialized_args` with the same signature
-- reads its text. Every parameter gets the value that its type keeps, and the offset is the number
-- of bytes, whether or not krock32 could be imported.
pub deserialized_args-serialize_args :
    (krock32 : Krock32) (ps : List Param) (args : Entries) (bs : Bytes)
    → All (λ p. IsName p.1) ps
    → AllPlain ps args
    → serialize_params 0 (split_types (signature_text ps)) args ≡ ok bs
    → All IsByte bs
    → (serialize_args (signature_text ps) args >>= deserialized_args krock32 (signature_text ps))
      ≡ ok (read_back ps args end, length bs)
unfolding serialize_args deserialized_args
deserialized_args-serialize_args krock32 ps args bs names plain h all_bytes =
    let split = split_types-signature_text ps names in
    let written : serialize_params 0 (map param_text ps) args ≡ ok bs = rw split at h in
    let read = params-Reads krock32 ps 0 args bs names plain written bs 0 end (all-Stands bs) in
    rw (split, written, from_hex-hex bs all_bytes, split, read)
      (ap (λ (k : ℕ). ok (read_back ps args end, k)) (omega arith))
