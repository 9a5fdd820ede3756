-- ===== src/Pow/Examples.antt =====
-- The difficulty of a transaction of 300 bytes, and a hash that passes it.
use dioxide_python.Prelude.{◌*◌, ◌^◌, ◌+◌, ◌≤◌, ◌<◌, ◌≡◌, refl, true, ◌++◌, replicate, All, arith}
use dioxide_python.Bytes.{Bytes, from_bytes}
use dioxide_python.Bytes.Laws.{IsByte}
use dioxide_python.Pow.{PowDifficulty, get_pow_difficulty, is_fullfiled}
use dioxide_python.Prelude.{ℕ, ◌%◌, ◌==◌, List, [], ◌∷◌, length, ◌⊎◌, if◌then◌else◌}
use dioxide_python.Prelude.Result.{ok, err, overflow_error}
use dioxide_python.Bytes.{slice, le_digits}
use dioxide_python.Pow.Search.{
  Hashes, rounds, find_nonce, calculate_txn_pow, difficulty_of, pow_data_of,
}
use dioxide_python.Pow.Search.First.{
  AreFirst, Enough, none_needed, one_more, passes_for, calculate_txn_pow_lem,
  calculate_txn_pow-Enough,
}
use dioxide_python.Pow.Share.{get_pow_difficulty_lem}

abbrev difficulty : PowDifficulty
difficulty = record { target_num = 2159660076; nonzero_bytes = 30 }

difficulty_of_300 : get_pow_difficulty 300 120 ≡ difficulty
unfolding get_pow_difficulty
difficulty_of_300 = refl

abbrev hash : Bytes
hash = replicate 24 255 ++ replicate 8 0

hash_passes : is_fullfiled difficulty hash ≡ true
unfolding is_fullfiled from_bytes
hash_passes = refl

hash_in_bytes : All IsByte hash
hash_in_bytes = omega arith

get_pow_difficulty_lem_example :
    (is_fullfiled (get_pow_difficulty 300 120) hash ≡ true → from_bytes hash * 130333 < 2 ^ 256)
    × (from_bytes hash * 130333 * (2 ^ 23 + 1) ≤ 2 ^ 279
        → is_fullfiled (get_pow_difficulty 300 120) hash ≡ true)
get_pow_difficulty_lem_example =
    get_pow_difficulty_lem 300 120 hash refl hash_in_bytes (omega arith)

-- A hash function whose value passes where the first byte of the nonce is a multiple of three.
abbrev thirds : Hashes
thirds = record {
  sha512 = λ b. replicate 64 1;
  sha256 = λ b. if from_bytes (slice b 60 1) % 3 == 0 then replicate 32 0 else replicate 32 255;
}

abbrev signed : Bytes
signed = replicate 200 7

nonces_of_signed : calculate_txn_pow thirds signed ≡ ok (0 ∷ 3 ∷ 6 ∷ [])
unfolding calculate_txn_pow from_bytes le_digits
nonces_of_signed = refl

-- No nonce below 2 ** 32 is tried twice: the search starts behind the last one.
last_nonce :
    find_nonce thirds rounds (difficulty_of thirds signed) (replicate 60 1) (2 ^ 32)
    ≡ err overflow_error
unfolding find_nonce
last_nonce = refl

calculate_txn_pow_lem_example :
    ((ns : List ℕ) × (calculate_txn_pow thirds signed ≡ ok ns)
      × (length ns ≡ 3)
      × AreFirst (passes_for thirds signed) 0 ns)
    ⊎ (calculate_txn_pow thirds signed ≡ err overflow_error)
calculate_txn_pow_lem_example = calculate_txn_pow_lem thirds signed

three_pass : Enough (passes_for thirds signed) (2 ^ 32) 3 0
unfolding is_fullfiled le_digits pow_data_of difficulty_of from_bytes
three_pass = one_more 3 (omega arith) (omega arith) refl (
    one_more 9 (omega arith) (omega arith) refl
      (one_more 30 (omega arith) (omega arith) refl none_needed))

calculate_txn_pow-Enough_example : (ns : List ℕ) × (calculate_txn_pow thirds signed ≡ ok ns)
calculate_txn_pow-Enough_example = calculate_txn_pow-Enough thirds signed three_pass
