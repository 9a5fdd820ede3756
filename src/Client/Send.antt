-- ===== src/Client/Send.antt =====
-- The methods of client/dioxclient.py that compose, sign and send a transaction. The libraries of
-- accounts are those of `Suite`; arguments that may be None are options.
pub mod Sent
pub mod Logged
pub mod Quiet
pub mod Once
use dioxide_python.Prelude.{
  ℕ, Bool, true, false, Option, none, some, List, [], ◌∷◌, ◌++◌, if◌then◌else◌,
}
use dioxide_python.Prelude.Int.{ℤ, pos, negsuc}
use dioxide_python.Prelude.Result.{Result, ok, err, type_error}
use dioxide_python.Bytes.{Bytes}
use dioxide_python.Text.{Text, codes}
use dioxide_python.Text.Case.{Unicode, lower}
use dioxide_python.Text.Split.{contains}
use dioxide_python.Gcl.Value.{
  Value, Entries, null, bool, int, float, str, bytes, list, dict, end, entry,
}
use dioxide_python.Gcl.Dict.{put}
use dioxide_python.Address.{address, default}
use dioxide_python.Account.{Suite, DioxAccount, account_name}
use dioxide_python.Account.Sign.{sign_diox_transaction}
use dioxide_python.Client.{Run, ◌>>=◌, return, lift, fail, Service, make_request, item}
use dioxide_python.Client.Queries.{update}
use dioxide_python.Client.Wait.{
  wait_for_transaction_confirmed, wait_for_dapp_deployed, wait_for_token_deployed,
}

-- `if value is not None: params.update({key: value})`
abbrev pub update_some : Entries → Text → Option Value → Entries
update_some params key none = params
update_some params key (some v) = update params key v

-- The codes of the errors that the client raises itself.
abbrev pub code : ℕ → Value
code n = int (negsuc n)

-- -10000 and -10006
abbrev pub timeout_code : Value
timeout_code = code 9999

abbrev pub sign_code : Value
sign_code = code 10005

-- What `compose_transaction` is called with, besides the sender.
pub record Options : Type 0 where
  pub tokens : Option Value
  pub isn : Option Value
  pub gas_price : Option Value
  pub gas_limit : Option Value
  pub ttl : Option Value

abbrev pub no_options : Options
no_options = record { tokens = none; isn = none; gas_price = none; gas_limit = none; ttl = none }

-- The parameters of "tx.compose".
unfoldable pub compose_params : Value → Text → Value → Bool → Options → Entries
unfolding put
compose_params sender function args is_delegatee o =
    let called = update (update end (codes "function") (str function)) (codes "args") args in
    let from = update called (if is_delegatee then codes "delegatee" else codes "sender") sender in
    update_some
      (update_some
        (update_some
          (update_some (update_some from (codes "gasprice") o.gas_price) (codes "gaslimit")
            o.gas_limit)
          (codes "isn") o.isn)
        (codes "tokens") o.tokens)
      (codes "ttl") o.ttl

-- `"{}".format(value)` of a text is the text; other values are given as they print.
abbrev pub text_arg : Text → Value
text_arg t = str t

module _ {ℓ} {W : Type ℓ} (suite : Suite) (service : Service W) where
  -- `base64.b64decode(value)`
  unfoldable pub b64decode_value : Value → Result Bytes
  b64decode_value (str t) = suite.b64decode t
  b64decode_value _ = err type_error

  unfoldable pub compose_transaction : Value → Text → Value → Bool → Options → Run W Bytes
  unfolding make_request compose_params item b64decode_value
  compose_transaction sender function args is_delegatee o = do
    response ←
        make_request service (codes "tx.compose")
          (compose_params sender function args is_delegatee o)
    tx_data ← lift (item (codes "TxData") response)
    lift (b64decode_value tx_data)

  -- `user.address`, with the type of the account behind it
  unfoldable pub sender_address : DioxAccount → Result Text
  unfolding address contains lower
  sender_address user =
      elim (address suite.codecs (record { bytes_ = user.address_bytes; type_ = default })) [
        | err e ↦ err e
        | ok addr ↦ ok (
            if contains (codes ":") addr
            then addr
            else addr ++ (b':' ∷ lower (account_name user.account_type)))
      ]

  -- A delegatee goes before the sender, and makes the transaction a delegated one.
  unfoldable pub compose_sender : Text → Bool → Option Value → Value × Bool
  compose_sender sender_addr is_delegatee (some delegatee) = (delegatee, true)
  compose_sender sender_addr is_delegatee none = (str sender_addr, is_delegatee)

module _ {ℓ} {W : Type ℓ} (unicode : Unicode) (suite : Suite) (service : Service W) where
  -- `if sync`: the hash is returned once the transaction is confirmed.
  unfoldable pub finish_send : ℕ → ℕ → Bool → ℕ → Value → Run W Value
  unfolding wait_for_transaction_confirmed
  finish_send rounds fuel false timeout tx_hash = return tx_hash
  finish_send rounds fuel true timeout tx_hash = do
    confirmed ← wait_for_transaction_confirmed unicode service rounds fuel tx_hash timeout
    if confirmed then return tx_hash else fail timeout_code

  -- `send_raw_transaction(signed_txn,sync,timeout)`
  unfoldable pub send_raw_transaction : ℕ → ℕ → Bytes → Bool → ℕ → Run W Value
  unfolding make_request item finish_send put
  send_raw_transaction rounds fuel signed_txn sync timeout = do
    response ←
        make_request service (codes "tx.send")
          (update end (codes "txdata") (str (suite.b64encode signed_txn)))
    tx_hash ← lift (item (codes "Hash") response)
    finish_send rounds fuel sync timeout tx_hash

  -- What follows the signature.
  unfoldable pub send_signed : ℕ → ℕ → Bool → ℕ → Option Bytes → Run W Value
  unfolding send_raw_transaction
  send_signed rounds fuel sync timeout none = fail sign_code
  send_signed rounds fuel sync timeout (some signed_txn) =
      send_raw_transaction rounds fuel signed_txn sync timeout

  unfoldable pub send_transaction :
      ℕ → ℕ → DioxAccount → Text → Value → Options → Bool → Option Value → Bool → ℕ → Run W Value
  unfolding sender_address compose_sender compose_transaction send_signed
  send_transaction rounds fuel user function args o is_delegatee delegatee is_sync timeout = do
    sender_addr ← lift (sender_address suite service user)
    let (sender, delegated) = compose_sender suite service sender_addr is_delegatee delegatee
    unsigned_txn ← compose_transaction suite service sender function args delegated o
    send_signed rounds fuel is_sync timeout (sign_diox_transaction suite user unsigned_txn)

  unfoldable pub send_transaction_with_sk : ℕ → ℕ → Text → Text → Value → Bool → ℕ → Run W Value
  unfolding make_request item finish_send put
  send_transaction_with_sk rounds fuel private_key function args sync timeout = do
    response ← make_request service (codes "tx.send_withSK") (
        update
          (update (update end (codes "privatekey") (str private_key)) (codes "function")
            (str function))
          (codes "args") args)
    tx_hash ← lift (item (codes "Hash") response)
    finish_send rounds fuel sync timeout tx_hash

  -- `user.sk_b64`
  sk_b64 : DioxAccount → Result Text
  sk_b64 user = elim user.private_key [ none ↦ err type_error | some sk ↦ ok (suite.b64encode sk) ]

  abbrev mint_args : Text → Value
  mint_args amount = dict (entry (str (codes "Amount")) (text_arg amount) end)

  -- Amounts, names and receivers are given as the text they print as.
  unfoldable pub mint_dio : ℕ → ℕ → DioxAccount → Text → Bool → ℕ → Run W Value
  unfolding send_transaction
  mint_dio rounds fuel user amount sync timeout =
      send_transaction rounds fuel user (codes "core.coin.mint") (mint_args amount) no_options false
        none sync timeout

  unfoldable pub mint_dio_with_sk : ℕ → ℕ → DioxAccount → Text → Bool → ℕ → Run W Value
  unfolding send_transaction_with_sk sk_b64
  mint_dio_with_sk rounds fuel user amount sync timeout = do
    key ← lift (sk_b64 user)
    send_transaction_with_sk rounds fuel key (codes "core.coin.mint") (mint_args amount) sync
        timeout

  abbrev transfer_args : Text → Text → Text → Value
  transfer_args receiver amount token = dict (
      entry (str (codes "To")) (text_arg receiver) (
        entry (str (codes "Amount")) (text_arg amount)
          (entry (str (codes "TokenId")) (text_arg token) end)))

  unfoldable pub transfer :
      ℕ → ℕ → DioxAccount → Text → Text → Text → Option Value → Bool → ℕ → Run W Value
  unfolding send_transaction
  transfer rounds fuel sender receiver amount token delegatee sync timeout =
      send_transaction rounds fuel sender (codes "core.wallet.transfer")
        (transfer_args receiver amount token) no_options false delegatee sync timeout

  unfoldable pub transfer_with_sk :
      ℕ → ℕ → DioxAccount → Text → Text → Text → Bool → ℕ → Run W Value
  unfolding send_transaction_with_sk sk_b64
  transfer_with_sk rounds fuel sender receiver amount token sync timeout = do
    key ← lift (sk_b64 sender)
    send_transaction_with_sk rounds fuel key (codes "core.wallet.transfer")
        (transfer_args receiver amount token) sync timeout
