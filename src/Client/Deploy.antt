-- ===== src/Client/Deploy.antt =====
-- The methods of client/dioxclient.py that create dapps and tokens and deploy contracts. Reading a
-- file, `os.path.normpath` and `json.dumps` are parameters.
use dioxide_python.Prelude.{ℕ, Bool, true, false, Option, none, some, List, [], ◌∷◌, if◌then◌else◌}
use dioxide_python.Prelude.Int.{pos}
use dioxide_python.Prelude.Result.{Result, ok, err, type_error}
use dioxide_python.Bytes.{Bytes}
use dioxide_python.Text.{Text, codes, strip, is_empty}
use dioxide_python.Text.Case.{Unicode}
use dioxide_python.Gcl.Value.{Value, Entries, int, str, list, dict, end, entry, from_list}
use dioxide_python.Gcl.Dict.{put}
use dioxide_python.Address.{address, dapp, set_delegatee_from_string}
use dioxide_python.Account.{Suite, DioxAccount}
use dioxide_python.Account.Sign.{sign_diox_transaction}
use dioxide_python.Client.{Run, ◌>>=◌, return, lift, fail, outcome_of, Service}
use dioxide_python.Client.Queries.{update}
use dioxide_python.Client.Wait.{wait_for_dapp_deployed, wait_for_token_deployed, wait_for_deploy}
use dioxide_python.Client.Send.{
  code, no_options, text_arg, update_some, compose_transaction, send_transaction,
  send_raw_transaction,
}

-- `open(path, encoding='utf-8', errors='replace').read()`, `os.path.normpath` and `json.dumps`.
pub record Files {ℓ} (W : Type ℓ) : Type ℓ where
  pub read : Text → W → Result Text × W
  pub normpath : Text → Text
  pub dumps : Value → Result Text

-- A contract of `deploy_contracts`: its path, and its constructor's arguments.
abbrev pub ContractFile : Type 0
ContractFile = Text × Option Value

module _ {ℓ} {W : Type ℓ} (unicode : Unicode) (suite : Suite) (service : Service W)
    (files : Files W) where
  read_file : Text → Run W Text
  read_file path w = let (r, w') = files.read path w in (outcome_of r, w')

  -- `json.dumps(carg)`, or "" for None
  dumped : Option Value → Result Value
  dumped none = ok (str [])
  dumped (some v) = elim (files.dumps v) [ err e ↦ err e | ok t ↦ ok (str t) ]

  -- The code of a file, or the source code, which must not be blank.
  source_of : Option Text → Option Text → Run W Text
  unfolding read_file strip
  source_of (some path) source_code = read_file path
  source_of none none = fail (code 10000)
  source_of none (some source) =
      if is_empty (strip source) then fail (code 10000) else return source

  -- The delegated transaction that deploys, sent and waited for.
  unfoldable pub send_deploy : ℕ → ℕ → ℕ → Text → DioxAccount → Entries → Run W Value
  unfolding set_delegatee_from_string address compose_transaction send_raw_transaction
      wait_for_deploy
  send_deploy rounds fuel timeout dapp_name delegator deploy_args = do
    (valid, dapp_address) ← lift (
        set_delegatee_from_string unicode suite.codecs dapp_name
          (record { bytes_ = none; type_ = dapp }))
    named ← (if valid then lift (address suite.codecs dapp_address) else fail (code 10001))
    deployed_txn ←
        compose_transaction suite service (str named) (codes "core.delegation.deploy_contracts")
          (dict deploy_args) true no_options
    signed ← lift (or_raise (sign_diox_transaction suite delegator deployed_txn))
    tx_hash ← send_raw_transaction unicode suite service rounds fuel signed true timeout
    _ ← wait_for_deploy unicode service rounds tx_hash
    return tx_hash
    where
      or_raise : Option Bytes → Result Bytes
      or_raise none = err type_error
      or_raise (some b) = ok b

  -- `deploy_contract(dapp_name,delegator,file_path,source_code,construct_args,compile_time)`
  unfoldable pub deploy_contract :
      ℕ
      → ℕ
      → ℕ
      → Text
      → DioxAccount
      → Option Text
      → Option Text
      → Option Value
      → Option Value
      → Run W Value
  unfolding source_of dumped send_deploy put from_list
  deploy_contract rounds fuel timeout dapp_name delegator file_path source_code construct_args
        compile_time =
      do
        source ← source_of file_path source_code
        carg ← lift (dumped construct_args)
        let args =
            update (update end (codes "code") (list (from_list (str source ∷ [])))) (codes "cargs")
              (list (from_list (carg ∷ [])))
        send_deploy rounds fuel timeout dapp_name delegator
            (update_some args (codes "time") compile_time)

  -- `for contract_path in contracts.keys()`: the codes and the arguments, in the order of the dict.
  unfoldable pub read_contracts : List ContractFile → Run W (List Value × List Value)
  unfolding read_file dumped
  read_contracts [] = return ([], [])
  read_contracts ((path, carg) ∷ contracts) = do
    source ← read_file (files.normpath path)
    arg ← lift (dumped carg)
    (sources, cargs) ← read_contracts contracts
    return (str source ∷ sources, arg ∷ cargs)

  is_none_or_empty : Option (List ContractFile) → Bool
  is_none_or_empty none = true
  is_none_or_empty (some []) = true
  is_none_or_empty (some (_ ∷ _)) = false

  or_nothing : Option (List ContractFile) → List ContractFile
  or_nothing none = []
  or_nothing (some contracts) = contracts

  -- `deploy_contracts(dapp_name,delegator,contracts,compile_time)`
  unfoldable pub deploy_contracts :
      ℕ → ℕ → ℕ → Text → DioxAccount → Option (List ContractFile) → Option Value → Run W Value
  unfolding is_none_or_empty or_nothing read_contracts send_deploy put from_list
  deploy_contracts rounds fuel timeout dapp_name delegator contracts compile_time = do
    (sources, cargs) ←
        (if is_none_or_empty contracts
          then fail (code 10003)
          else read_contracts (or_nothing contracts))
    let args =
        update (update end (codes "code") (list (from_list sources))) (codes "cargs")
          (list (from_list cargs))
    send_deploy rounds fuel timeout dapp_name delegator
        (update_some args (codes "time") compile_time)

  -- `if sync: ok = wait(...) else: ok = None`, and `return tx_hash,ok`
  hash_and_state : Bool → Value → Run W Bool → Run W (Value × Option Bool)
  hash_and_state false tx_hash wait = return (tx_hash, none)
  hash_and_state true tx_hash wait = do deployed ← wait; return (tx_hash, some deployed)

  -- `create_dapp(user,dapp_name,deposit_amount,sync,timeout)`; the transaction is waited for with
  -- the default timeout, and its relays with the given one.
  unfoldable pub create_dapp :
      ℕ → ℕ → ℕ → DioxAccount → Text → Text → Bool → ℕ → Run W (Value × Option Bool)
  unfolding send_transaction hash_and_state wait_for_dapp_deployed
  create_dapp rounds fuel default_timeout user dapp_name deposit_amount sync timeout = do
    tx_hash ←
        send_transaction unicode suite service rounds fuel user (codes "core.delegation.create")
          (dict (
            entry (str (codes "Type")) (int (pos 10)) (
              entry (str (codes "Name")) (text_arg dapp_name)
                (entry (str (codes "Deposit")) (text_arg deposit_amount) end))))
          no_options false none sync default_timeout
    hash_and_state sync tx_hash (wait_for_dapp_deployed unicode service rounds fuel tx_hash timeout)

  unfoldable pub create_token :
      ℕ
      → ℕ
      → ℕ
      → DioxAccount
      → Text
      → Text
      → Text
      → Value
      → Value
      → Value
      → Value
      → Bool
      → ℕ
      → Run W (Value × Option Bool)
  unfolding send_transaction hash_and_state wait_for_token_deployed
  create_token rounds fuel default_timeout user symbol initial_supply deposit decimals cid
        minter_flag token_flag sync timeout =
      do
        tx_hash ←
            send_transaction unicode suite service rounds fuel user
              (codes "core.delegation.create_token")
              (dict (
                entry (str (codes "Minter")) cid (
                  entry (str (codes "MinterFlags")) minter_flag (
                    entry (str (codes "TokenStates")) token_flag (
                      entry (str (codes "Symbol")) (text_arg symbol) (
                        entry (str (codes "InitSupply")) (text_arg initial_supply) (
                          entry (str (codes "Deposit")) (text_arg deposit)
                            (entry (str (codes "Decimals")) decimals end))))))))
              no_options false none sync default_timeout
        hash_and_state sync tx_hash
            (wait_for_token_deployed unicode service rounds fuel tx_hash timeout)
