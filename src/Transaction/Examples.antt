-- ===== src/Transaction/Examples.antt =====
-- Transactions at concrete identifiers.
use dioxide_python.Prelude.{◌-◌, ◌≡◌, refl, none, [], ◌∷◌, ◌++◌, false, arith}
use dioxide_python.Prelude.Result.{ok, err, overflow_error, ◌>>=◌}
use dioxide_python.Bytes.{Bytes, to_bytes, le_digits}
use dioxide_python.Gcl.Float.{bit_length}
use dioxide_python.Contract.{ContractInvokeId, is_core_dapp, get_scope, core_contract_id_from_rvm}
use dioxide_python.Transaction.{
  delegatee_bytes, Log2, UnsignedTransaction, unsigned_transaction, target, ttl_sc_tsc,
  gas_price_parts, serialize_tail, serialize_transaction, get_ttl_from_signed_txn, set_isn,
  set_gas_limit,
}
use dioxide_python.Transaction.Layout.{
  read_fields, head_widths, tail_widths, head_fields, tail_fields,
  serialize_transaction-read_fields,
}
use dioxide_python.Transaction.Laws.{
  get_ttl_from_signed_txn-serialize_transaction, serialize_transaction-scoped,
}

-- The exact logarithm
unfoldable pub exact_log2 : Log2
unfolding bit_length
exact_log2 n = bit_length n - 1

-- The core dapp's coin contract in the scope of addresses, as the file's own main block builds it
abbrev coin : ContractInvokeId
coin = record {
  id = record { value = 73152856577; sn = 132; engine_id = 1; dapp_id = 1 };
  scope = 2;
  build = 1;
}

abbrev transfer : UnsignedTransaction
transfer = record {
  version = 108;
  packflag = 0;
  delegatee = none;
  timestamp = 1756808332132;
  mode = 11;
  ttl = 120;
  sc = 1;
  tsc = 0;
  opcode = 0;
  isn = 7;
  fca_token = [];
  gas_price = 100;
  gas_limit = 74;
  rvm_contract = none;
  core_contract = 132;
  build = 1;
  input_size = 0;
  input = [];
}

transfer_built :
    (unsigned_transaction coin 0 108 1756808332132 none >>= λ tx.
    ok (set_isn 7 (set_gas_limit 74 tx)))
    ≡ ok transfer
unfolding unsigned_transaction target is_core_dapp core_contract_id_from_rvm get_scope set_isn
    set_gas_limit
transfer_built = refl

abbrev transfer_bytes : Bytes
transfer_bytes =
    108 ∷ 0 ∷ 100 ∷ 195 ∷ 239 ∷ 9 ∷ 153 ∷ 1 ∷ 7 ∷ 0 ∷ 0 ∷ 0 ∷ 119 ∷ 0 ∷ 11 ∷ 0 ∷ 0 ∷ 132 ∷ 100 ∷ 0
    ∷ 0 ∷ 0 ∷ 0 ∷ 0 ∷ 74 ∷ 0 ∷ 0 ∷ 0 ∷ 1 ∷ 0 ∷ 0 ∷ []

transfer_written : serialize_transaction exact_log2 transfer ≡ ok transfer_bytes
unfolding serialize_transaction serialize_tail gas_price_parts ttl_sc_tsc to_bytes le_digits
    exact_log2
transfer_written = refl

serialize_transaction-read_fields_example :
    (rest : Bytes) × (size : Bytes) × (read_fields head_widths transfer_bytes
      ≡ (head_fields transfer, rest))
    × (read_fields (tail_widths transfer) rest ≡ (
      tail_fields exact_log2 transfer,
      delegatee_bytes exact_log2 transfer.delegatee ++ (size ++ transfer.input),
    ))
    × (to_bytes 2 transfer.input_size ≡ ok size)
serialize_transaction-read_fields_example =
    serialize_transaction-read_fields exact_log2 transfer transfer_bytes transfer_written

get_ttl_from_signed_txn-serialize_transaction_example : get_ttl_from_signed_txn transfer_bytes ≡ 120
get_ttl_from_signed_txn-serialize_transaction_example =
    get_ttl_from_signed_txn-serialize_transaction exact_log2 transfer transfer_bytes
      transfer_written (omega arith) (omega arith)

-- A contract of another dapp, in the scope of addresses
abbrev deployed : ContractInvokeId
deployed = record {
  id = record { value = 150324904449; sn = 1; engine_id = 3; dapp_id = 2 };
  scope = 2;
  build = 1;
}

is_core_dapp-deployed : is_core_dapp deployed.id ≡ false
unfolding is_core_dapp
is_core_dapp-deployed = refl

serialize_transaction-scoped_example :
    (unsigned_transaction deployed 0 108 1756808332132 none >>= serialize_transaction exact_log2)
    ≡ err overflow_error
serialize_transaction-scoped_example =
    serialize_transaction-scoped exact_log2 deployed 0 108 1756808332132 none is_core_dapp-deployed
      (omega arith)
