-- ===== src/Account/Sign.antt =====
-- Signing and verifying by an account, and the transaction with its proof of work:
-- dioxide_python_sdk/client/account.py.
use dioxide_python.Prelude.{
  ℕ, Bool, true, false, ◌==◌, Option, none, some, List, [], ◌∷◌, ◌++◌, length, if◌then◌else◌,
}
use dioxide_python.Prelude.Result.{Result, ok, err, ◌>>=◌}
use dioxide_python.Bytes.{Bytes, to_bytes}
use dioxide_python.Text.Hex.{hex, from_hex}
use dioxide_python.Pow.Search.{calculate_txn_pow}
use dioxide_python.Account.{ed25519, sm2, account_value, Suite, DioxAccount, or_none, or_raise}

module _ (suite : Suite) where
  -- `sign(msg)`
  unfoldable pub sign : DioxAccount → Bytes → Option Bytes
  unfolding hex from_hex
  sign a msg = elim a.account_type [
    | ed25519 ↦
        or_none
          (do sk ← or_raise suite a.private_key; sig ← suite.ed25519_sign sk msg; ok (some sig))
    | sm2 ↦ or_none (do
      sk ← or_raise suite a.private_key
      pk ← or_raise suite a.public_key
      sig_hex ← suite.sign_with_sm3 (hex sk) (hex pk) msg
      sig ← from_hex sig_hex
      ok (if length sig == 64 then some sig else none))
    | _ ↦ none
  ]

  abbrev or_false : Result Bool → Bool
  or_false (ok b) = b
  or_false (err _) = false

  -- `verify(sig,msg)`
  unfoldable pub verify : DioxAccount → Bytes → Bytes → Bool
  unfolding hex
  verify a sig msg = elim a.account_type [
    | ed25519 ↦
        or_false (do pk ← or_raise suite a.public_key; _ ← suite.ed25519_verify pk sig msg; ok true)
    | sm2 ↦
        if length sig == 64
        then or_false (do
          sk ← or_raise suite a.private_key
          pk ← or_raise suite a.public_key
          suite.verify_with_sm3 (hex sk) (hex pk) (hex sig) msg)
        else false
    | _ ↦ false
  ]

  -- `for nonce in nonces: signed_tx_data = signed_tx_data + nonce.to_bytes(4,'little')`
  unfoldable pub append_nonces : Bytes → List ℕ → Result Bytes
  unfolding to_bytes
  append_nonces signed_tx_data [] = ok signed_tx_data
  append_nonces signed_tx_data (nonce ∷ nonces) = do
    b ← to_bytes 4 nonce
    append_nonces (signed_tx_data ++ b) nonces

  -- What is signed: the transaction, the type of the key, and the public key.
  unfoldable pub sign_payload : DioxAccount → Bytes → Result Bytes
  unfolding to_bytes
  sign_payload a txdata = do
    sid ← to_bytes 1 (account_value a.account_type)
    pk ← or_raise suite a.public_key
    ok (txdata ++ (sid ++ pk))

  unfoldable pub with_pow : Bytes → Option Bytes → Result (Option Bytes)
  unfolding append_nonces
  with_pow payload none = ok none
  with_pow payload (some sig) = do
    nonces ← calculate_txn_pow suite.hashes (payload ++ sig)
    signed ← append_nonces (payload ++ sig) nonces
    ok (some signed)

  -- `sign_diox_transaction(txdata)`
  unfoldable pub sign_diox_transaction : DioxAccount → Bytes → Option Bytes
  unfolding sign_payload sign with_pow
  sign_diox_transaction a txdata =
      or_none (do payload ← sign_payload a txdata; with_pow payload (sign a payload))
