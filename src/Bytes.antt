-- ===== src/Bytes.antt =====
-- Python's `bytes`, as lists of numbers: slices, `int.to_bytes` and `int.from_bytes`
-- (little-endian), and `_check_data_length` of dioxide_python_sdk/utils/serializer.py.
pub mod Laws
pub mod Signed
pub mod Place
use dioxide_python.Prelude.{ℕ, zero, suc, ◌+◌, ◌-◌, ◌*◌, ◌/◌, ◌%◌, ◌^◌, List, [], ◌∷◌, ltb, leb}
use dioxide_python.Prelude.{length, take, drop, if◌then◌else◌}
use dioxide_python.Prelude.Int.{ℤ, pos, negsuc}
use dioxide_python.Prelude.Result.{Result, ok, err, overflow_error, deserialization, guard}

abbrev pub Bytes : Type 0
Bytes = List ℕ

-- `data[start:start + size]`
abbrev pub slice : Bytes → ℕ → ℕ → Bytes
slice data_ start size = take size (drop start data_)

-- The `w` lowest base-256 digits of `n`, lowest first.
unfoldable pub le_digits : ℕ → ℕ → Bytes
le_digits zero n = []
le_digits (suc w) n = (n % 256) ∷ le_digits w (n / 256)

-- `n.to_bytes(w, byteorder='little')` of a natural number
unfoldable pub to_bytes : ℕ → ℕ → Result Bytes
to_bytes w n = if ltb n (256 ^ w) then ok (le_digits w n) else err overflow_error

-- `int.from_bytes(data, byteorder='little')`
unfoldable pub from_bytes : Bytes → ℕ
from_bytes [] = 0
from_bytes (b ∷ bs) = b + 256 * from_bytes bs

-- `z.to_bytes(w, byteorder='little', signed=True)`
unfoldable pub to_bytes_signed : ℕ → ℤ → Result Bytes
to_bytes_signed w (pos n) = if ltb (n * 2) (256 ^ w) then ok (le_digits w n) else err overflow_error
to_bytes_signed w (negsuc n) =
    if ltb (n * 2 + 1) (256 ^ w) then ok (le_digits w (256 ^ w - 1 - n)) else err overflow_error

-- `int.from_bytes(data, byteorder='little', signed=True)`
unfoldable pub from_bytes_signed : Bytes → ℤ
from_bytes_signed bs =
    let n = from_bytes bs in
    if ltb (n * 2) (256 ^ length bs) then pos n else negsuc (256 ^ length bs - 1 - n)

-- `_check_data_length`
unfoldable pub check_data_length : Bytes → ℕ → ℕ → Result (Unit {0})
check_data_length data_ offset required =
    guard (leb (offset + required) (length data_)) deserialization
