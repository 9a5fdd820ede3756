-- ===== src/Pow.antt =====
-- The proof of work of a transaction, dioxide_python_sdk/utils/gadget.py: the difficulty, and the
-- test on a hash; the search, which calls the hash functions, is in Pow.Search.
pub mod Laws
pub mod Search
pub mod Target
pub mod Share
mod Examples
use dioxide_python.Prelude.{
  ℕ, zero, suc, ◌+◌, ◌-◌, ◌*◌, ◌/◌, ◌%◌, ◌^◌, Bool, true, false, not, ◌==◌, leb, ltb, [], ◌∷◌, drop,
  if◌then◌else◌,
}
use dioxide_python.Bytes.{Bytes, slice, from_bytes}
use dioxide_python.Gcl.Float.{bit_length}

pub record PowDifficulty : Type 0 where
  pub target_num : ℕ
  pub nonzero_bytes : ℕ

-- `set(denominator)`, of a denominator that is not zero
unfoldable pub set_difficulty : ℕ → PowDifficulty
unfolding bit_length
set_difficulty denominator =
    let num = 2 ^ 63 / denominator in
    let shift = 64 - bit_length num in
    let filled = num * 2 ^ shift in
    let exp = 32 * 8 - 63 - shift in
    if exp % 8 == 0
    then record { target_num = filled / 2 ^ 32; nonzero_bytes = exp / 8 + 8 }
    else record {
      target_num = filled / 2 ^ (8 - exp % 8) / 2 ^ 32;
      nonzero_bytes = exp / 8 + 1 + 8;
    }

-- `while p < 32`: no byte from `p` on is above zero.
unfoldable pub all_zero : Bytes → Bool
all_zero [] = true
all_zero (b ∷ bs) = let rest = all_zero bs in if ltb 0 b then false else rest

-- `is_fullfiled(val)`, of a hash of 32 bytes
unfoldable pub is_fullfiled : PowDifficulty → Bytes → Bool
unfolding all_zero from_bytes
is_fullfiled d val =
    if leb d.target_num (from_bytes (slice val (d.nonzero_bytes - 4) 4))
    then false
    else all_zero (drop d.nonzero_bytes val)

-- `get_pow_difficulty(tx_size, ttl)`
unfoldable pub get_pow_difficulty : ℕ → ℕ → PowDifficulty
unfolding set_difficulty
get_pow_difficulty tx_size ttl = set_difficulty ((1000 + tx_size * (ttl * 10 + 100)) / 3)
