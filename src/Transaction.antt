-- ===== src/Transaction.antt =====
-- Unsigned transactions, dioxide_python_sdk/client/transaction.py, and the time to live that
-- utils/gadget.py reads off a signed one. Ints are not negative here.
pub mod Laws
pub mod Layout
pub mod Examples
use dioxide_python.Prelude.{
  ℕ, ◌+◌, ◌-◌, ◌*◌, ◌/◌, ◌%◌, ◌^◌, Bool, true, false, ◌==◌, ltb, bit_and, bit_or, Option, none,
  some, [], ◌++◌, if◌then◌else◌,
}
use dioxide_python.Prelude.Result.{Result, ok, err, attribute_error, ◌>>=◌}
use dioxide_python.Bytes.{Bytes, slice, to_bytes, from_bytes}
use dioxide_python.Gcl.Float.{bit_length}
use dioxide_python.Contract.{
  ContractInvokeId, is_core_dapp, get_scope, core_contract_id_from_rvm, scope_address,
}

-- `int(math.log2(n))` of a positive number, which goes through a double.
abbrev pub Log2 : Type 0
Log2 = ℕ → ℕ

-- `build` is read only where `rvm_contract` is None; it is 0 where the object has no such attribute.
pub record UnsignedTransaction : Type 0 where
  pub version : ℕ
  pub packflag : ℕ
  pub delegatee : Option Bytes
  pub timestamp : ℕ
  pub mode : ℕ
  pub ttl : ℕ
  pub sc : ℕ
  pub tsc : ℕ
  pub opcode : ℕ
  pub isn : ℕ
  pub fca_token : Bytes
  pub gas_price : ℕ
  pub gas_limit : ℕ
  pub rvm_contract : Option ContractInvokeId
  pub core_contract : ℕ
  pub build : ℕ
  pub input_size : ℕ
  pub input : Bytes

-- `CORE_CONTRACT_RVM`
abbrev pub core_contract_rvm : ℕ
core_contract_rvm = 0x3F

-- The core contract, the contract of the virtual machine and the build that `__init__` sets.
unfoldable pub target : ContractInvokeId → Result (ℕ × (Option ContractInvokeId × ℕ))
unfolding is_core_dapp get_scope core_contract_id_from_rvm
target cid =
    let scope = get_scope cid.id in
    if is_core_dapp cid.id
    then (do core ← core_contract_id_from_rvm cid.id; ok (core, (none, cid.build)))
    else ok (core_contract_rvm + scope * 2 ^ 6, (some cid, 0))

-- ITM_FIRST_SIGNER, ITM_SCOPE_ADDRESS and ITM_SHARD
abbrev target_mode : ℕ → Option Bytes → ℕ
target_mode core delegatee =
    if core / 2 ^ 6 == scope_address then elim delegatee [ none ↦ 11 | some _ ↦ 1 ] else 12

-- `UnsignedTransaction(contract_invoke_id, opcode, version, timestamp, delegatee)`
unfoldable pub unsigned_transaction :
    ContractInvokeId → ℕ → ℕ → ℕ → Option Bytes → Result UnsignedTransaction
unfolding target
unsigned_transaction cid opcode version timestamp delegatee = do
  (core, (rvm, build)) ← target cid
  ok (record {
    version = version;
    packflag = 0;
    delegatee = delegatee;
    timestamp = timestamp;
    mode = bit_or 0 (target_mode core delegatee);
    ttl = 120;
    sc = 1;
    tsc = 0;
    opcode = opcode;
    isn = 0;
    fca_token = [];
    gas_price = 100;
    gas_limit = 500000;
    rvm_contract = rvm;
    core_contract = core;
    build = build;
    input_size = 0;
    input = [];
  })

unfoldable pub set_isn : ℕ → UnsignedTransaction → UnsignedTransaction
set_isn isn tx = record tx { isn = isn }

unfoldable pub set_gas_price : ℕ → UnsignedTransaction → UnsignedTransaction
set_gas_price gas_price tx = record tx { gas_price = gas_price }

unfoldable pub set_gas_limit : ℕ → UnsignedTransaction → UnsignedTransaction
set_gas_limit gas_limit tx = record tx { gas_limit = gas_limit }

-- `add_fca(token_id, amount)`
unfoldable pub add_fca : ℕ → ℕ → UnsignedTransaction → Result UnsignedTransaction
unfolding to_bytes bit_length
add_fca token_id amount tx = do
  id ← to_bytes 8 token_id
  value ← to_bytes ((bit_length amount + 7) / 8) amount
  ok (record tx { fca_token = tx.fca_token ++ (id ++ value); tsc = tx.tsc + 1 })

-- `set_input(args, abi)`: the transaction behind it, and what it returns or raises.
unfoldable pub set_input : Bool → UnsignedTransaction → UnsignedTransaction × Result (Unit {0})
set_input has_args tx = (
  (if has_args then tx else record tx { mode = bit_or tx.mode 0x400 }),
  elim tx.rvm_contract [ none ↦ err attribute_error | some _ ↦ ok tt ],
)

-- `ttl_sc_tsc`; `(self.sc - 1) & 0xF` and `(self.ttl - 1) & 0x1FF` wrap around at zero.
unfoldable pub ttl_sc_tsc : UnsignedTransaction → ℕ
ttl_sc_tsc tx =
    bit_or (bit_or (bit_and tx.tsc 0x3 * 2 ^ 13) (bit_and (tx.sc + 15) 0xF * 2 ^ 9))
      (bit_and (tx.ttl + 511) 0x1FF)

module _ (log2 : Log2) where
  -- The mantissa and the exponent of the gas price.
  unfoldable pub gas_price_parts : ℕ → ℕ × ℕ
  gas_price_parts price =
      let size = if price == 0 then 0 else log2 price + 1 in
      if ltb 32 size
      then (bit_and (price / 2 ^ (size - 32)) 0xFFFFFFFF, size - 32)
      else (bit_and price 0xFFFFFFFF, 0)

  -- The contract's build or identifier, the delegatee, and the input.
  unfoldable pub contract_bytes : UnsignedTransaction → Result Bytes
  unfolding to_bytes
  contract_bytes tx = elim tx.rvm_contract [
    | none ↦ to_bytes 1 tx.build
    | some cid ↦ to_bytes 8 cid.id.value
  ]

  abbrev pub delegatee_bytes : Option Bytes → Bytes
  delegatee_bytes none = []
  delegatee_bytes (some b) = b

  -- What follows the core contract.
  unfoldable pub serialize_tail : UnsignedTransaction → Result Bytes
  unfolding gas_price_parts contract_bytes to_bytes
  serialize_tail tx = do
    mantissa ← to_bytes 4 (gas_price_parts tx.gas_price).0
    exponent ← to_bytes 2 (gas_price_parts tx.gas_price).1
    gas_limit ← to_bytes 4 tx.gas_limit
    contract ← contract_bytes tx
    input_size ← to_bytes 2 tx.input_size
    ok (
        mantissa
        ++ (exponent
            ++ (gas_limit
                ++ (contract ++ (delegatee_bytes tx.delegatee ++ (input_size ++ tx.input))))))

  unfoldable pub serialize_transaction : UnsignedTransaction → Result Bytes
  unfolding ttl_sc_tsc serialize_tail to_bytes
  serialize_transaction tx = do
    version ← to_bytes 1 tx.version
    packflag ← to_bytes 1 tx.packflag
    timestamp ← to_bytes 6 tx.timestamp
    isn ← to_bytes 4 tx.isn
    flags ← to_bytes 2 (ttl_sc_tsc tx)
    mode ← to_bytes 2 tx.mode
    opcode ← to_bytes 1 tx.opcode
    core ← to_bytes 1 tx.core_contract
    tail ← serialize_tail tx
    ok (
        version
        ++ (packflag ++ (timestamp ++ (isn ++ (flags ++ (mode ++ (opcode ++ (core ++ tail))))))))

-- `get_ttl_from_signed_txn(tx)`
unfoldable pub get_ttl_from_signed_txn : Bytes → ℕ
unfolding from_bytes
get_ttl_from_signed_txn tx = 1 + bit_and (from_bytes (slice tx 12 2)) 0x01ff
