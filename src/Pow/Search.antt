-- ===== src/Pow/Search.antt =====
-- `calculate_txn_pow` of dioxide_python_sdk/utils/gadget.py: the search for three nonces. SHA-512
-- and SHA-256 are parameters.
pub mod First
use dioxide_python.Prelude.{
  ℕ, zero, suc, ◌+◌, ◌-◌, ◌^◌, Bool, true, false, List, [], ◌∷◌, ◌++◌, take, length, if◌then◌else◌,
}
use dioxide_python.Prelude.Result.{Result, ok, err, ◌>>=◌, out_of_fuel}
use dioxide_python.Bytes.{Bytes, to_bytes}
use dioxide_python.Pow.{PowDifficulty, is_fullfiled, get_pow_difficulty}
use dioxide_python.Transaction.{get_ttl_from_signed_txn}

-- `hashlib.sha512(b).digest()` and `hashlib.sha256(b).digest()`
pub record Hashes : Type 0 where
  pub sha512 : Bytes → Bytes
  pub sha256 : Bytes → Bytes

-- `to_bytes` raises at 2 ** 32, so that no more rounds than these are made.
abbrev pub rounds : ℕ
rounds = 2 ^ 32 + 1

module _ (hashes : Hashes) where
  -- `while True`, from a nonce on
  unfoldable pub find_nonce : ℕ → PowDifficulty → Bytes → ℕ → Result ℕ
  unfolding is_fullfiled to_bytes
  find_nonce zero diff pow_data nonce = err out_of_fuel
  find_nonce (suc fuel) diff pow_data nonce =
      let rest = find_nonce fuel diff pow_data (nonce + 1) in
      to_bytes 4 nonce >>= λ nonce_bytes.
      if is_fullfiled diff (hashes.sha256 (pow_data ++ nonce_bytes)) then ok nonce else rest

  -- `for i in range(count)`
  unfoldable pub find_nonces : ℕ → PowDifficulty → Bytes → ℕ → Result (List ℕ)
  unfolding find_nonce
  find_nonces zero diff pow_data nonce = ok []
  find_nonces (suc count) diff pow_data nonce = do
    found ← find_nonce rounds diff pow_data nonce
    more ← find_nonces count diff pow_data (found + 1)
    ok (found ∷ more)

  -- `hashlib.sha512(tx).digest()[0:-4]`
  unfoldable pub pow_data_of : Bytes → Bytes
  pow_data_of tx = let digest = hashes.sha512 tx in take (length digest - 4) digest

  unfoldable pub difficulty_of : Bytes → PowDifficulty
  unfolding get_pow_difficulty get_ttl_from_signed_txn
  difficulty_of tx = get_pow_difficulty (length tx + 12) (get_ttl_from_signed_txn tx)

  unfoldable pub calculate_txn_pow : Bytes → Result (List ℕ)
  unfolding find_nonces pow_data_of difficulty_of
  calculate_txn_pow tx = find_nonces 3 (difficulty_of tx) (pow_data_of tx) 0
