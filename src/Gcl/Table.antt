-- ===== src/Gcl/Table.antt =====
-- Offset tables: the loops that write and read them in the array, map and struct methods.
pub mod Laws
use dioxide_python.Prelude.{ℕ, zero, suc, ◌+◌, ◌-◌, ◌*◌, List, [], ◌∷◌, ◌++◌, length}
use dioxide_python.Prelude.Result.{Result, ok, ◌>>=◌}
use dioxide_python.Bytes.{Bytes, slice, to_bytes, from_bytes}
use dioxide_python.Text.{Text}
use dioxide_python.Gcl.Value.{Value}

-- `self.deserialize`, as the container methods call it.
abbrev pub Deserializer : Type 0
Deserializer = Text → Bytes → ℕ → Result (Value × ℕ)

-- `for val_bytes in serialized: result += val_bytes`
unfoldable pub join : List Bytes → Bytes
join [] = []
join (b ∷ bs) = b ++ join bs

-- `current_offset += len(elem_bytes); offsets.append(current_offset)`
unfoldable pub end_offsets : ℕ → List Bytes → List ℕ
end_offsets current [] = []
end_offsets current (b ∷ bs) = (current + length b) ∷ end_offsets (current + length b) bs

-- `for offset in offsets: result += offset.to_bytes(4, byteorder='little')`
unfoldable pub offset_bytes : List ℕ → Result Bytes
unfolding to_bytes
offset_bytes [] = ok []
offset_bytes (o ∷ os) = do b ← to_bytes 4 o; bs ← offset_bytes os; ok (b ++ bs)

-- `offsets.append(...); current_offset += 4`, `count` times
unfoldable pub read_offsets : ℕ → Bytes → ℕ → List ℕ
unfolding from_bytes
read_offsets zero data_ at = []
read_offsets (suc count) data_ at =
    from_bytes (slice data_ at 4) ∷ read_offsets count data_ (at + 4)

-- `offsets[-1]`; the default stands for the empty table, which the code tests for.
abbrev pub last_or : ℕ → List ℕ → ℕ
last_or d [] = d
last_or d (o ∷ os) = last_or o os

-- `count` values one after the other, and the offset behind them.
unfoldable pub read_many : Deserializer → Text → Bytes → ℕ → ℕ → Result (List Value × ℕ)
read_many rec t data_ zero at = ok ([], at)
read_many rec t data_ (suc count) at = do
  (v, next) ← rec t data_ at
  (vs, after) ← read_many rec t data_ count next
  ok (v ∷ vs, after)

-- The values of a map or a struct: the first from `begin`, each other from the offset before it.
unfoldable pub read_at : Deserializer → Bytes → ℕ → ℕ → List (Text × ℕ) → Result (List Value)
read_at rec data_ table_start begin [] = ok []
read_at rec data_ table_start begin ((t, o) ∷ os) = do
  (v, _) ← rec t data_ begin
  vs ← read_at rec data_ table_start (table_start + o) os
  ok (v ∷ vs)

-- The elements of an array: each from a slice of its own. `origin` is `elements_start`, and
-- `table_size` is `length * 4`.
unfoldable pub read_slices : Deserializer → Text → Bytes → ℕ → ℕ → ℕ → List ℕ → Result (List Value)
read_slices rec t data_ origin table_size begin [] = ok []
read_slices rec t data_ origin table_size begin (o ∷ os) = do
  let stop = origin + o - table_size
  (v, _) ← rec t (slice data_ begin (stop - begin)) 0
  vs ← read_slices rec t data_ origin table_size stop os
  ok (v ∷ vs)
