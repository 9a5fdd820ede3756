-- ===== src/Pow/Share.antt =====
-- The share of the hashes that pass the difficulty of a transaction.
use dioxide_python.Prelude.{ℕ, ◌+◌, ◌-◌, ◌*◌, ◌/◌, ◌^◌, ◌≤◌, ◌<◌, ◌≡◌, true, length, All, arith}
use dioxide_python.Pow.{PowDifficulty, set_difficulty, is_fullfiled, get_pow_difficulty}
use dioxide_python.Bytes.{Bytes, from_bytes}
use dioxide_python.Bytes.Laws.{IsByte}
use dioxide_python.Pow.Laws.{is_fullfiled_lem}
use native.Mathlib.Nat.{
  mul-le-mul_right, mul-lt-mul_of_pos_right, lt-mul-div-succ, le-div_iff_mul-le, div-mul-le_self,
  lt_of_mul-lt-mul_left,
}
use dioxide_python.Pow.Target.{IsTarget, set_difficulty-FitsIn}

-- Numbers below the target, and the share of the denominator.
module _ (n t m v : ℕ) (some : 2 ≤ n) (small : n ≤ 2 ^ 32) (is : IsTarget (2 ^ 63 / n) t m) where
  share_below : v < t * 256 ^ m → v * n < 2 ^ 256
  share_below h =
      let num : ℕ = 2 ^ 63 / n in
      let target : ℕ = t * 256 ^ m in
      let scaled : v * n < target * n = mul-lt-mul_of_pos_right {k = n} h (omega arith) in
      let most : target * n ≤ num * 2 ^ 193 * n = mul-le-mul_right n is.at_most in
      let whole : num * n ≤ 2 ^ 63 = div-mul-le_self (2 ^ 63) n in omega arith

  share_above : v * n * (2 ^ 23 + 1) ≤ 2 ^ 279 → v < t * 256 ^ m
  share_above h =
      let num : ℕ = 2 ^ 63 / n in
      let target : ℕ = t * 256 ^ m in
      let next : 2 ^ 63 < n * (num + 1) = lt-mul-div-succ (2 ^ 63) {b = n} (omega arith) in
      let low : 2 ^ 31 ≤ num =
        (le-div_iff_mul-le {k = n} {x = 2 ^ 31} {y = 2 ^ 63} (omega arith)).1 (omega arith) in
      let rounded : 2 ^ 31 * n ≤ num * n = mul-le-mul_right n low in
      let split : n * (num + 1) ≡ num * n + n = omega arith in
      let least : 2 ^ 24 * (num * 2 ^ 193) * n < (2 ^ 24 + 1) * target * n =
        mul-lt-mul_of_pos_right {k = n} is.at_least (omega arith) in
      let scaled : n * (2 ^ 23 + 1) * v < n * (2 ^ 23 + 1) * target = omega arith in
      lt_of_mul-lt-mul_left (n * (2 ^ 23 + 1)) scaled

-- A hash of 32 bytes, and a size and a time to live for which the denominator,
-- a third of `1000 + size * (ttl * 10 + 100)`, has at most 32 bits: a hash that passes the
-- difficulty is, as a little-endian number, below 2 ** 256 over the denominator; and one that is
-- below that by a part in 2 ** 23 passes.
pub get_pow_difficulty_lem :
    (tx_size ttl : ℕ) (val : Bytes)
    → length val ≡ 32
    → All IsByte val
    → tx_size * (ttl * 10 + 100) ≤ 2 ^ 33
    → (is_fullfiled (get_pow_difficulty tx_size ttl) val ≡ true
        → from_bytes val * ((1000 + tx_size * (ttl * 10 + 100)) / 3) < 2 ^ 256)
      × (from_bytes val * ((1000 + tx_size * (ttl * 10 + 100)) / 3) * (2 ^ 23 + 1) ≤ 2 ^ 279
          → is_fullfiled (get_pow_difficulty tx_size ttl) val ≡ true)
unfolding get_pow_difficulty
get_pow_difficulty_lem tx_size ttl val size bytes_ small =
    let n : ℕ = (1000 + tx_size * (ttl * 10 + 100)) / 3 in
    let some : 2 ≤ n = omega arith in
    let few : n ≤ 2 ^ 32 = omega arith in
    let d : PowDifficulty = set_difficulty n in
    let is = set_difficulty-FitsIn n some few in
    let (passes, suffices) =
      is_fullfiled_lem d val size bytes_ is.inside.0 is.inside.1 is.is_target.fits in
    let at : ℕ = d.nonzero_bytes - 4 in
    let v : ℕ = from_bytes val in
    (
      λ e. share_below n d.target_num at v some few is.is_target (passes e),
      λ h. suffices (share_above n d.target_num at v some few is.is_target h),
    )
