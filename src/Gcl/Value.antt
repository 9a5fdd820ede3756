-- ===== src/Gcl/Value.antt =====
-- The Python values that the serializer takes and returns. A float is its IEEE 754 bit pattern.
use dioxide_python.Prelude.{
  ℕ, Bool, true, false, not, ◌==◌, ◌^◌, ◌%◌, Option, none, some, List, [], ◌∷◌,
}
use dioxide_python.Prelude.{◌≡◌, refl, ap, length}
use dioxide_python.Prelude.Int.{ℤ, pos, is_zero}
use dioxide_python.Text.{Text, is_empty}
use dioxide_python.Bytes.{Bytes}

-- `Values` are the elements of a list and `Entries` the items of a dict, in insertion order.
mutual
  pub data Value : Type 0 where
    null : Value
    bool : Bool → Value
    int : ℤ → Value
    float : ℕ → Value
    str : Text → Value
    bytes : Bytes → Value
    list : Values → Value
    dict : Entries → Value

  pub data Values : Type 0 where
    nil : Values
    cons : Value → Values → Values

  pub data Entries : Type 0 where
    end : Entries
    entry : Value → Value → Entries → Entries

unfoldable pub to_list : Values → List Value
to_list nil = []
to_list (cons v vs) = v ∷ to_list vs

unfoldable pub from_list : List Value → Values
from_list [] = nil
from_list (v ∷ vs) = cons v (from_list vs)

-- `list(d.items())`
unfoldable pub items : Entries → List (Value × Value)
items end = []
items (entry k v es) = (k, v) ∷ items es

unfoldable pub from_items : List (Value × Value) → Entries
from_items [] = end
from_items ((k, v) ∷ es) = entry k v (from_items es)

-- `isinstance(value, int)`: a bool is the int 0 or 1.
unfoldable pub as_int : Value → Option ℤ
as_int (int z) = some z
as_int (bool true) = some (pos 1)
as_int (bool false) = some (pos 0)
as_int _ = none

-- `if value`
unfoldable pub truthy : Value → Bool
truthy null = false
truthy (bool b) = b
truthy (int z) = not (is_zero z)
truthy (float bits) = not (bits % 2 ^ 63 == 0)
truthy (str s) = not (is_empty s)
truthy (bytes b) = not (length b == 0)
truthy (list nil) = false
truthy (list (cons _ _)) = true
truthy (dict end) = false
truthy (dict (entry _ _ _)) = true

pub to_list-from_list : (vs : List Value) → to_list (from_list vs) ≡ vs
unfolding to_list from_list
to_list-from_list [] = refl
to_list-from_list (v ∷ vs) = ap (λ r. v ∷ r) (to_list-from_list vs)

pub from_list-to_list : (vs : Values) → from_list (to_list vs) ≡ vs
unfolding to_list from_list
from_list-to_list nil = refl
from_list-to_list (cons v vs) = ap (λ r. Values.cons v r) (from_list-to_list vs)

pub items-from_items : (es : List (Value × Value)) → items (from_items es) ≡ es
unfolding items from_items
items-from_items [] = refl
items-from_items ((k, v) ∷ es) = ap (λ r. (k, v) ∷ r) (items-from_items es)
