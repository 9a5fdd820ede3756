-- ===== src/Gcl/Float.antt =====
-- The conversion of a Python int to the bits of a double, which `struct.pack('<d', value)` makes:
-- to nearest, ties to even; for an int that is too large it raises struct.error.
use dioxide_python.Prelude.{
  ℕ, zero, suc, ◌+◌, ◌-◌, ◌*◌, ◌/◌, ◌%◌, ◌^◌, ◌==◌, ltb, leb, if◌then◌else◌, ◌||◌, ◌&&◌, refl, ◌≡◌,
  ◌<◌, ◌≤◌, arith,
}
use native.Mathlib.Nat.{pow-suc}
use dioxide_python.Prelude.Int.{ℤ, pos, negsuc, abs, is_neg}
use dioxide_python.Prelude.Result.{Result, ok, err, struct_error, ◌>>=◌, >>=-eq-ok}

-- `n.bit_length()`; a number has at most as many bits as its value.
bit_length_fuel : ℕ → ℕ → ℕ
bit_length_fuel zero n = 0
bit_length_fuel (suc fuel) n =
    let more = suc (bit_length_fuel fuel (n / 2)) in if n == 0 then 0 else more

unfoldable pub bit_length : ℕ → ℕ
unfolding bit_length_fuel
bit_length n = bit_length_fuel n n

-- `n / 2 ** k`, rounded to nearest, ties to even
round_shift : ℕ → ℕ → ℕ
round_shift n k =
    let q = n / 2 ^ k in
    let twice = n % 2 ^ k * 2 in
    if ltb (2 ^ k) twice || (twice == 2 ^ k && q % 2 == 1) then q + 1 else q

-- The bits of the magnitude: 53 bits of which the first is implicit, over a biased exponent.
-- A mantissa that rounds up to 2 ** 53 carries into the exponent by itself.
magnitude_bits : ℕ → Result ℕ
unfolding bit_length round_shift
magnitude_bits zero = ok 0
magnitude_bits (suc m) =
    let n = suc m in
    let bits = bit_length n in
    let mantissa = if leb bits 53 then n * 2 ^ (53 - bits) else round_shift n (bits - 53) in
    let word = (bits + 1021) * 2 ^ 52 + mantissa in
    if ltb word (2047 * 2 ^ 52) then ok word else err struct_error

unfoldable pub float_of_int : ℤ → Result ℕ
unfolding magnitude_bits
float_of_int z = do word ← magnitude_bits (abs z); ok (if is_neg z then 2 ^ 63 + word else word)

float_of_one : float_of_int (pos 1) ≡ ok 0x3ff0000000000000
unfolding float_of_int
float_of_one = refl

float_of_minus_ten : float_of_int (negsuc 9) ≡ ok 0xc024000000000000
unfolding float_of_int
float_of_minus_ten = refl

magnitude_bits-lt : (m : ℕ) {word : ℕ} → magnitude_bits m ≡ ok word → word < 2 ^ 63
unfolding magnitude_bits
magnitude_bits-lt zero h = ground arith
magnitude_bits-lt (suc m) h = ground arith

-- The bits of a double are 64.
pub float_of_int-lt : (z : ℤ) {n : ℕ} → float_of_int z ≡ ok n → n < 2 ^ 64
unfolding float_of_int
float_of_int-lt z {n} h =
    let (word, hw, e) = >>=-eq-ok (magnitude_bits (abs z)) _ h in
    let small : word < 2 ^ 63 = magnitude_bits-lt (abs z) hw in ground arith

bit_length_fuel-zero : (fuel : ℕ) → bit_length_fuel fuel 0 ≡ 0
unfolding bit_length_fuel
bit_length_fuel-zero zero = refl
bit_length_fuel-zero (suc fuel) = refl

bit_length_fuel-bounds :
    (fuel n : ℕ)
    → n ≤ fuel
    → (n < 2 ^ bit_length_fuel fuel n) × (1 ≤ n → 2 ^ bit_length_fuel fuel n ≤ 2 * n)
unfolding bit_length_fuel
bit_length_fuel-bounds fuel zero h =
    (rw (bit_length_fuel-zero fuel) (omega arith), λ some. absurd (omega arith))
bit_length_fuel-bounds zero (suc m) h = absurd (omega arith)
bit_length_fuel-bounds (suc fuel) (suc zero) h =
    let none : bit_length_fuel fuel 0 ≡ 0 = bit_length_fuel-zero fuel in
    (rw none (omega arith), λ some. rw none (omega arith))
bit_length_fuel-bounds (suc fuel) (suc (suc m)) h =
    let n : ℕ = suc (suc m) in
    let (above, below) = bit_length_fuel-bounds fuel (n / 2) (omega arith) in
    let twice = pow-suc 2 (bit_length_fuel fuel (n / 2)) in
    (ground (arith, above, twice), λ some. ground (arith, below, twice))

-- A number lies between the powers of its length.
pub bit_length-bounds : (n : ℕ) → (n < 2 ^ bit_length n) × (1 ≤ n → 2 ^ bit_length n ≤ 2 * n)
unfolding bit_length
bit_length-bounds n = bit_length_fuel-bounds n n (omega arith)
