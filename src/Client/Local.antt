-- ===== src/Client/Local.antt =====
-- `compose_transaction_local` of client/dioxclient.py, which puts the identifiers, the arguments and
-- the transaction together without the node. Opcodes, prices and limits are not negative, and
-- `import_time` is the time in milliseconds at which the module was imported: the default of the
-- timestamp is computed once.
pub mod Ttl
pub mod Asked
pub mod Target
pub mod Described
pub mod Finished
pub mod Composed
pub mod Options
pub mod Input
pub mod Offline
use dioxide_python.Prelude.{
  ℕ, zero, suc, ◌+◌, ◌*◌, ◌/◌, ◌^◌, Bool, true, false, not, ◌&&◌, ◌==◌, bit_and, bit_or, Option,
  none, some, List, [], ◌∷◌, ◌++◌, length, if◌then◌else◌,
}
use dioxide_python.Prelude.Int.{ℤ, pos, negsuc}
use dioxide_python.Prelude.Result.{
  Result, ok, err, type_error, attribute_error, value_error, overflow_error,
}
use dioxide_python.Bytes.{Bytes}
use dioxide_python.Text.{Text, codes, is_empty}
use dioxide_python.Text.Case.{Unicode}
use dioxide_python.Text.Hex.{from_hex}
use dioxide_python.Text.Split.{split}
use dioxide_python.Gcl.Value.{
  Value, Entries, null, bool, int, float, str, bytes, list, dict, nil, end, entry, truthy, as_int,
}
use dioxide_python.Address.{DioxAddress, set_delegatee_from_string, address, dapp, default}
use dioxide_python.Account.{Suite}
use dioxide_python.Args.{serialize_args}
use dioxide_python.Contract.{
  ContractId, ContractVersionId, ContractInvokeId, contract_id, contract_version_id,
  contract_invoke_id, get_scope,
}
use dioxide_python.Transaction.{
  Log2, UnsignedTransaction, unsigned_transaction, set_isn, set_gas_price, set_gas_limit,
  serialize_transaction,
}
use dioxide_python.Client.{Run, ◌>>=◌, return, lift, fail, Service}
use dioxide_python.Client.Queries.{to_int, get_contract_info, get_isn}
use dioxide_python.Client.Send.{code}
use dioxide_python.Client.Interface.{Printed, function_of, signature_of}

-- The sender: the text of an address, or an account by its address bytes.
pub data Sender : Type 0 where
  by_address : Text → Sender
  by_account : Bytes → Sender

-- What may be given besides the function and its arguments.
pub record LocalOptions : Type 0 where
  pub signature : Option Text
  pub contract_info : Option Entries
  pub isn : Option ℕ
  pub is_delegatee : Bool
  pub gas_price : Option ℕ
  pub gas_limit : Option ℕ
  pub ttl : Option ℕ

-- `DEFAULT_TRANSCTION_VERSION`
abbrev pub default_version : ℕ
default_version = 108

natural : ℤ → Result ℕ
natural (pos n) = ok n
natural (negsuc _) = err overflow_error

-- An int that is not negative.
natural_of : Option ℤ → Result ℕ
unfolding natural
natural_of none = err attribute_error
natural_of (some z) = natural z

-- `if x is not None: tx.set(x)`
abbrev pub set_some :
    (ℕ → UnsignedTransaction → UnsignedTransaction)
    → Option ℕ
    → UnsignedTransaction
    → UnsignedTransaction
set_some set none tx = tx
set_some set (some n) tx = set n tx

abbrev pub set_ttl : ℕ → UnsignedTransaction → UnsignedTransaction
set_ttl ttl tx = record tx { ttl = ttl }

unfoldable pub hex_bytes : Result Text → Result Bytes
unfolding from_hex
hex_bytes (ok t) = from_hex t
hex_bytes (err e) = err e

unfoldable pub filled_with : UnsignedTransaction → Result Bytes → Result UnsignedTransaction
filled_with tx (ok b) = ok (record tx { input = b; input_size = length b })
filled_with tx (err e) = err e

-- `if args and signature`, `elif not args`
unfoldable pub with_input : Text → Entries → UnsignedTransaction → Result UnsignedTransaction
unfolding serialize_args hex_bytes filled_with
with_input signature end tx = ok (record tx { mode = bit_or tx.mode 0x400 })
with_input signature args tx =
    if is_empty signature then ok tx else filled_with tx (hex_bytes (serialize_args signature args))

-- The identifier that is called: the parts of the contract's identifier, its scope, and the build.
unfoldable pub invoke_id : ContractId → ContractVersionId → Result ContractInvokeId
unfolding contract_invoke_id get_scope
invoke_id cid version =
    contract_invoke_id 0 (some cid.sn) (some cid.engine_id) (some cid.dapp_id)
      (some (bit_and (get_scope cid / 2 ^ 8) 0xFFF)) (some version.build)

module _ {ℓ} {W : Type ℓ} (unicode : Unicode) (suite : Suite) (printed : Printed) (log2 : Log2)
    (import_time : ℕ) (service : Service W) where
  -- An identifier of the contract's description.
  pub id_of : Text → Entries → Result ℕ
  unfolding to_int natural
  id_of key contract_info = elim (service.attribute key contract_info) [
    | err e ↦ err e
    | ok v ↦ elim (to_int unicode v) [ err e ↦ err e | ok z ↦ natural z ]
  ]

  -- The signature that was given, or that of the function's parameters.
  unfoldable pub local_signature : Option Text → Entries → Result Text
  unfolding signature_of truthy
  local_signature (some signature) function_info = ok signature
  local_signature none function_info =
      elim (service.box_get (codes "Params") (list nil) function_info) [
        | err e ↦ err e
        | ok params ↦ if truthy params then signature_of printed service params else ok []
      ]

  pub opcode_of : Entries → Result ℕ
  unfolding natural_of as_int
  opcode_of function_info = elim (service.box_get (codes "Opcode") (int (pos 0)) function_info) [
    | err e ↦ err e
    | ok v ↦ natural_of (as_int v)
  ]

  -- The address of the delegatee.
  pub delegatee_of : Bool → Sender → Run W (Option Bytes)
  unfolding set_delegatee_from_string
  delegatee_of false sender = return none
  delegatee_of true (by_account b) = return (some b)
  delegatee_of true (by_address s) = do
    (valid, a) ←
        lift (
          set_delegatee_from_string unicode suite.codecs s (record { bytes_ = none; type_ = dapp }))
    if valid then return a.bytes_ else fail (code 10004)

  sender_text : Sender → Result Text
  unfolding address
  sender_text (by_address s) = ok s
  sender_text (by_account b) = address suite.codecs (record { bytes_ = some b; type_ = default })

  -- The ISN that was given, or that of the sender's address.
  unfoldable pub isn_of : Option ℕ → Sender → Run W ℤ
  unfolding sender_text get_isn
  isn_of (some n) sender = return (pos n)
  isn_of none sender = do t ← lift (sender_text sender); get_isn unicode service (str t)

  with_isn : UnsignedTransaction → Result ℕ → Result Bytes
  unfolding serialize_transaction set_isn
  with_isn tx (ok n) = serialize_transaction log2 (set_isn n tx)
  with_isn tx (err e) = err e

  serialized : ℤ → Result UnsignedTransaction → Result Bytes
  unfolding with_isn natural
  serialized isn (ok tx) = with_isn tx (natural isn)
  serialized isn (err e) = err e

  -- The prices, the limit and the time to live that were given.
  abbrev set_options : LocalOptions → UnsignedTransaction → UnsignedTransaction
  set_options o tx =
      set_some set_ttl o.ttl
        (set_some set_gas_limit o.gas_limit (set_some set_gas_price o.gas_price tx))

  -- The bytes of the transaction behind all that sets it up; a negative ISN cannot be written.
  unfoldable pub finished : LocalOptions → Text → Entries → ℤ → UnsignedTransaction → Result Bytes
  unfolding with_input serialized set_gas_price set_gas_limit
  finished o signature args isn tx = serialized isn (with_input signature args (set_options o tx))

  -- What follows where the function was found.
  unfoldable pub compose_call :
      Sender → Entries → LocalOptions → ContractId → ContractVersionId → Entries → Run W Bytes
  unfolding local_signature opcode_of invoke_id delegatee_of unsigned_transaction isn_of finished
  compose_call sender args o cid version function_info = do
    signature ← lift (local_signature o.signature function_info)
    opcode ← lift (opcode_of function_info)
    invoked ← lift (invoke_id cid version)
    delegatee ← delegatee_of o.is_delegatee sender
    tx ← lift (unsigned_transaction invoked opcode default_version import_time delegatee)
    isn ← isn_of o.isn sender
    lift (finished o signature args isn tx)

  -- The description that was given, or the node's.
  info_of : Option Entries → Text → Text → Run W Entries
  unfolding get_contract_info
  info_of (some contract_info) dapp_name contract_name = return contract_info
  info_of none dapp_name contract_name = get_contract_info unicode service dapp_name contract_name

  compose_found :
      Sender
      → Entries
      → LocalOptions
      → ContractId
      → ContractVersionId
      → Option Entries
      → Run W Bytes
  unfolding compose_call
  compose_found sender args o cid version none = fail (code 10003)
  compose_found sender args o cid version (some function_info) =
      compose_call sender args o cid version function_info

  compose_parts : Sender → Entries → LocalOptions → List Text → Run W Bytes
  unfolding info_of id_of contract_id contract_version_id function_of compose_found
  compose_parts sender args o (dapp_name ∷ contract_name ∷ function_name ∷ []) = do
    contract_info ← info_of o.contract_info dapp_name contract_name
    contract_value ← lift (id_of (codes "ContractID") contract_info)
    version_value ← lift (id_of (codes "ContractVersionID") contract_info)
    cid ← lift (contract_id contract_value none none none)
    version ← lift (contract_version_id version_value none none none none)
    found ← lift (function_of printed service function_name contract_info)
    compose_found sender args o cid version found
  compose_parts sender args o _ = fail (code 10002)

  unfoldable pub compose_transaction_local : Sender → Text → Entries → LocalOptions → Run W Bytes
  unfolding compose_parts split
  compose_transaction_local sender function args o =
      compose_parts sender args o (split b'.' function)
