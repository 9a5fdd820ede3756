-- ===== src/Gcl/Shape/Sized.antt =====
-- How many bytes the values of the types take, whatever the code does with them.
pub mod Leaves
pub mod Tables
pub mod Whole
use dioxide_python.Prelude.{
  ℕ, ◌+◌, ◌*◌, ◌^◌, ◌≤◌, ◌<◌, ◌≡◌, Bool, List, [], ◌∷◌, length, if◌then◌else◌,
}
use dioxide_python.Prelude.Int.{ℤ, is_zero, abs}
use dioxide_python.Prelude.Result.{Result, ok}
use dioxide_python.Bytes.{Bytes}
use dioxide_python.Text.{Text}
use dioxide_python.Text.Utf8.{encode}
use dioxide_python.Gcl.Value.{Value, Values, Entries, int, str, list, dict, to_list, items}
use dioxide_python.Gcl.Variable.{limbs, token}
use dioxide_python.Gcl.Container.{member_values}
use dioxide_python.Gcl.Shape.{Fixed, Key, Shape, Members}
use dioxide_python.Gcl.Shape.Bounds.{fixed_size}
use dioxide_python.Gcl.Shape.Dispatch.{has_variable_size}
use dioxide_python.Gcl.Shape.Typed.{HasFixed, IsUnsigned}
use mathlib.Core.List.{map}

-- A zero has nine bytes, any other int a byte and eight for each digit to the base 2 ** 64.
abbrev pub bigint_size : ℤ → ℕ
bigint_size z = if is_zero z then 9 else 1 + length (limbs (abs z)) * 8

-- Four bytes for each part of variable size.
abbrev pub table_size : Bool → ℕ → ℕ
table_size variable count = if variable then count * 4 else 0

abbrev pub key_shape : Key → Shape
key_shape (Key.fixed k) = Shape.fixed k
key_shape Key.string = Shape.string
key_shape Key.bigint = Shape.bigint

-- The values of a type that can be written, with the number of their bytes: texts of at most 65535
-- bytes, ints of at most 127 digits, and containers with a count of four bytes, which in a struct
-- holds sixteen times the number of the members.
mutual
  pub data Sized : Shape → Value → ℕ → Type 0 where
    fixed : (k : Fixed) (v : Value) → HasFixed k v → Sized (Shape.fixed k) v (fixed_size k)
    string :
        (t : Text) (utf8 : Bytes)
        → encode t ≡ ok utf8
        → length utf8 ≤ 65535
        → Sized Shape.string (str t) (2 + length utf8)
    bigint : (z : ℤ) → length (limbs (abs z)) ≤ 127 → Sized Shape.bigint (int z) (bigint_size z)
    amount :
        (id : Value) (z : ℤ)
        → IsUnsigned 8 id
        → length (limbs (abs z)) ≤ 127
        → Sized Shape.token (token id (int z)) (8 + bigint_size z)
    array :
        (s : Shape) (vs : Values) (n : ℕ)
        → length (to_list vs) < 2 ^ 32
        → AllSized s (to_list vs) n
        → Sized
            (Shape.array s)
            (list vs)
            (4 + (table_size (has_variable_size s) (length (to_list vs)) + n))
    mapping :
        (k : Key) (s : Shape) (es : Entries) (m n : ℕ)
        → length (items es) < 2 ^ 32
        → AllSized (key_shape k) (map (λ e. e.0) (items es)) m
        → AllSized s (map (λ e. e.1) (items es)) n
        → Sized
            (Shape.map k s)
            (dict es)
            (4 + (m + (table_size (has_variable_size s) (length (items es)) + n)))
    struct :
        (ms : Members) (v : Value) (vs : List Value) (n : ℕ)
        → member_values v ≡ ok vs
        → length vs < 2 ^ 28
        → MembersSized ms vs n
        → Sized (Shape.struct ms) v (4 + (length vs * 4 + n))

  pub data AllSized : Shape → List Value → ℕ → Type 0 where
    nothing : (s : Shape) → AllSized s [] 0
    next :
        (s : Shape) (v : Value) (vs : List Value) (m n : ℕ)
        → Sized s v m
        → AllSized s vs n
        → AllSized s (v ∷ vs) (m + n)

  pub data MembersSized : Members → List Value → ℕ → Type 0 where
    no_member : MembersSized Members.none [] 0
    member :
        (s : Shape) (ms : Members) (v : Value) (vs : List Value) (m n : ℕ)
        → Sized s v m
        → MembersSized ms vs n
        → MembersSized (Members.more s ms) (v ∷ vs) (m + n)

-- It returns that many bytes.
abbrev pub Takes : ℕ → Result Bytes → Type 0
Takes n r = (bs : Bytes) × (r ≡ ok bs) × (length bs ≡ n)
