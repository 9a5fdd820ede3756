-- ===== src/Args/Total.antt =====
-- Arguments that `serialize_args` writes.
use dioxide_python.Prelude.{
  ℕ, suc, ◌+◌, ◌^◌, ◌<◌, ◌≡◌, refl, some, List, [], ◌∷◌, ◌++◌, length, length-append, All, arith,
}
use dioxide_python.Prelude.Result.{ok}
use dioxide_python.Bytes.{Bytes}
use dioxide_python.Text.{Text}
use dioxide_python.Text.Hex.{hex}
use dioxide_python.Gcl.Value.{Value, Entries, str}
use dioxide_python.Gcl.Dict.{get}
use dioxide_python.Gcl.Shape.{Shape}
use dioxide_python.Gcl.Shape.Sized.{Sized}
use dioxide_python.Gcl.Shape.Sized.Whole.{serialize-Takes}
use dioxide_python.Args.{extend_with, or_missing, serialize_params, serialize_args}
use dioxide_python.Args.Signature.{
  Param, IsName, param_text, signature_text, split_types-signature_text, type_and_name-param_text,
}
use mathlib.Core.List.{map}

-- Each parameter has an argument of its type, and these take `n` bytes together.
pub data Given (args : Entries) : List Param → ℕ → Type 0 where
  no_param : Given args [] 0
  given :
      (s : Shape) (n : Text) (v : Value) (ps : List Param) (size rest : ℕ)
      → get (str n) args ≡ some v
      → Sized s v size
      → size < 2 ^ 32
      → Given args ps rest
      → Given args ((s, n) ∷ ps) (size + rest)

serialize_params-Given :
    (ps : List Param) (idx : ℕ) (args : Entries) (n : ℕ)
    → All (λ p. IsName p.1) ps
    → Given args ps n
    → (bs : Bytes) × (serialize_params idx (map param_text ps) args ≡ ok bs) × (length bs ≡ n)
unfolding serialize_params or_missing extend_with
serialize_params-Given [] idx args n names no_param = ([], refl, refl)
serialize_params-Given ((s, x) ∷ ps) idx args n (hx, names)
      (given _ _ v _ m k found sized small more) =
    let (b, written, size) = serialize-Takes s v m sized small in
    let (bs, others, total) = serialize_params-Given ps (suc idx) args k names more in
    rw (type_and_name-param_text idx s x hx, found, written, others)
      (b ++ bs, refl, omega (arith, length-append b bs, size, total))

-- Where each parameter of a signature of types and names has an argument of its type, of texts, ints
-- and counts that the format can hold and of fewer than 2 ** 32 bytes, `serialize_args` returns the
-- hex text of exactly as many bytes as the arguments take together.
pub serialize_args-Given :
    (ps : List Param) (args : Entries) (n : ℕ)
    → All (λ p. IsName p.1) ps
    → Given args ps n
    → (bs : Bytes) × (serialize_args (signature_text ps) args ≡ ok (hex bs)) × (length bs ≡ n)
unfolding serialize_args
serialize_args-Given ps args n names h =
    let (bs, written, size) = serialize_params-Given ps 0 args n names h in
    (bs, rw (split_types-signature_text ps names, written) refl, size)
