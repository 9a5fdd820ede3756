-- ===== src/Bytes/Signed.antt =====
-- Signed little-endian numbers: reading back what was written.
use dioxide_python.Prelude.{ℕ, ◌+◌, ◌-◌, ◌*◌, ◌^◌, ◌<◌, ◌≡◌, arith, length}
use dioxide_python.Prelude.Int.{ℤ, pos, negsuc}
use dioxide_python.Prelude.Result.{ok}
use dioxide_python.Bytes.{Bytes, le_digits, from_bytes, to_bytes_signed, from_bytes_signed}
use dioxide_python.Bytes.Laws.{length-le_digits, from_bytes-le_digits}

pub length-to_bytes_signed :
    (w : ℕ) (z : ℤ) {bs : Bytes} → to_bytes_signed w z ≡ ok bs → length bs ≡ w
unfolding to_bytes_signed
length-to_bytes_signed w (pos n) h = ground (arith, length-le_digits w n)
length-to_bytes_signed w (negsuc n) h = ground (arith, length-le_digits w (256 ^ w - 1 - n))

to_bytes_signed-negsuc :
    (w n : ℕ) {bs : Bytes}
    → to_bytes_signed w (negsuc n) ≡ ok bs
    → (n * 2 + 1 < 256 ^ w) × (bs ≡ le_digits w (256 ^ w - 1 - n))
unfolding to_bytes_signed
to_bytes_signed-negsuc w n h = ground arith

pub from_bytes_signed-to_bytes_signed :
    (w : ℕ) (z : ℤ) {bs : Bytes} → to_bytes_signed w z ≡ ok bs → from_bytes_signed bs ≡ z
unfolding to_bytes_signed from_bytes_signed
from_bytes_signed-to_bytes_signed w (pos n) h =
    ground (arith, length-le_digits w n, from_bytes-le_digits w n)
from_bytes_signed-to_bytes_signed w (negsuc n) h =
    let m : ℕ = 256 ^ w - 1 - n in
    let (fits, e) = to_bytes_signed-negsuc w n h in
    let len : length (le_digits w m) ≡ w = length-le_digits w m in
    let val : from_bytes (le_digits w m) ≡ m = from_bytes-le_digits w m (omega arith) in
    rw (e, len, val) (ground arith)
