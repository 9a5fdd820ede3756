-- ===== src/Bytes/Laws.antt =====
-- Unsigned little-endian numbers: lengths, bounds, and reading back what was written.
use dioxide_python.Prelude.{ℕ, zero, suc, ◌+◌, ◌*◌, ◌/◌, ◌%◌, ◌^◌, ◌<◌, ◌≤◌, ◌≡◌, refl, ◌∙◌, ap}
use dioxide_python.Prelude.{[], ◌∷◌, ◌++◌, length, take, drop, length-take, length-drop, All, arith}
use dioxide_python.Prelude.{length-append, drop-length_append, take-length_append}
use dioxide_python.Prelude.Result.{ok}
use dioxide_python.Bytes.{Bytes, slice, le_digits, to_bytes, from_bytes, check_data_length}
use native.Mathlib.Nat.{pow-suc}

abbrev pub IsByte : ℕ → Type 0
IsByte b = b < 256

pub length-le_digits : (w n : ℕ) → length (le_digits w n) ≡ w
unfolding le_digits
length-le_digits zero n = refl
length-le_digits (suc w) n = ap suc (length-le_digits w (n / 256))

pub le_digits-IsByte : (w n : ℕ) → All IsByte (le_digits w n)
unfolding le_digits
le_digits-IsByte zero n = omega arith
le_digits-IsByte (suc w) n = (omega arith, le_digits-IsByte w (n / 256))

-- Reading the digits of a number that fits gives the number.
pub from_bytes-le_digits : (w n : ℕ) → n < 256 ^ w → from_bytes (le_digits w n) ≡ n
unfolding le_digits from_bytes
from_bytes-le_digits zero n h = omega arith
from_bytes-le_digits (suc w) n h =
    omega (arith, from_bytes-le_digits w (n / 256) (omega (arith, pow-suc 256 w)))

-- A list of bytes stands for a number below the power of its length.
pub from_bytes-lt : (bs : Bytes) → All IsByte bs → from_bytes bs < 256 ^ length bs
unfolding from_bytes
from_bytes-lt [] h = omega arith
from_bytes-lt (b ∷ bs) (hb, hbs) = omega (arith, from_bytes-lt bs hbs, pow-suc 256 (length bs))

pub le_digits-from_bytes : (bs : Bytes) → All IsByte bs → le_digits (length bs) (from_bytes bs) ≡ bs
unfolding le_digits from_bytes
le_digits-from_bytes [] h = refl
le_digits-from_bytes (b ∷ bs) (hb, hbs) =
    let low : (b + 256 * from_bytes bs) % 256 ≡ b = omega arith in
    let high : (b + 256 * from_bytes bs) / 256 ≡ from_bytes bs = omega arith in
    rw (low, high) (ap (λ r. b ∷ r) (le_digits-from_bytes bs hbs))

-- Inversion of `to_bytes`.
pub to_bytes-eq_ok :
    (w n : ℕ) {bs : Bytes} → to_bytes w n ≡ ok bs → (n < 256 ^ w) × (bs ≡ le_digits w n)
unfolding to_bytes
to_bytes-eq_ok w n h = ground arith

pub length-to_bytes : (w n : ℕ) {bs : Bytes} → to_bytes w n ≡ ok bs → length bs ≡ w
length-to_bytes w n h = let (_, e) = to_bytes-eq_ok w n h in rw e (length-le_digits w n)

pub from_bytes-to_bytes : (w n : ℕ) {bs : Bytes} → to_bytes w n ≡ ok bs → from_bytes bs ≡ n
from_bytes-to_bytes w n h = let (lt, e) = to_bytes-eq_ok w n h in rw e (from_bytes-le_digits w n lt)

-- A slice at the place where `x` stands.
pub slice-append : (pre x rest : Bytes) → slice (pre ++ (x ++ rest)) (length pre) (length x) ≡ x
slice-append pre x rest = rw drop-length_append (take-length_append x rest)

-- The length check passes for what stands in the data.
pub check_data_length-append :
    (pre x rest : Bytes) → check_data_length (pre ++ (x ++ rest)) (length pre) (length x) ≡ ok tt
unfolding check_data_length
check_data_length-append pre x rest =
    let e : length (pre ++ (x ++ rest)) ≡ length pre + (length x + length rest) =
      length-append pre (x ++ rest) ∙ ap (λ (t : ℕ). length pre + t) (length-append x rest) in
    rw e (ground arith)

take-All : (P : ℕ → Type 0) (n : ℕ) (xs : Bytes) → All P xs → All P (take n xs)
take-All P zero xs h = tt
take-All P (suc n) [] h = tt
take-All P (suc n) (x ∷ xs) (h, hs) = (h, take-All P n xs hs)

drop-All : (P : ℕ → Type 0) (n : ℕ) (xs : Bytes) → All P xs → All P (drop n xs)
drop-All P zero xs h = h
drop-All P (suc n) [] h = tt
drop-All P (suc n) (x ∷ xs) (h, hs) = drop-All P n xs hs

pub slice-All : (bs : Bytes) (at size : ℕ) → All IsByte bs → All IsByte (slice bs at size)
slice-All bs at size h = take-All IsByte size (drop at bs) (drop-All IsByte at bs h)

pub length-slice :
    (bs : Bytes) (at size : ℕ) → at + size ≤ length bs → length (slice bs at size) ≡ size
length-slice bs at size h = omega (arith, length-take size (drop at bs), length-drop at bs)

-- A number that fits is written.
pub to_bytes-small : (w n : ℕ) → n < 256 ^ w → to_bytes w n ≡ ok (le_digits w n)
unfolding to_bytes
to_bytes-small w n h = ground arith
