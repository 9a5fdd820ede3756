-- ===== src/Client/Local/Asked.antt =====
-- What a transaction of `compose_transaction_local` in client/dioxclient.py calls, told apart from
-- the code that finds it: the opcode, the contract, the mode and the delegatee.
use dioxide_python.Prelude.{
  ℕ, ◌≡◌, ◌+◌, ◌*◌, ◌/◌, ◌^◌, Bool, true, false, ◌==◌, bit_and, bit_or, Option, none, some, [], ◌∷◌,
}
use dioxide_python.Prelude.Int.{pos}
use dioxide_python.Prelude.Result.{ok}
use dioxide_python.Bytes.{Bytes}
use dioxide_python.Text.{Text, codes}
use dioxide_python.Text.Case.{Unicode}
use dioxide_python.Text.Split.{split}
use dioxide_python.Gcl.Value.{Value, Entries, int, as_int}
use dioxide_python.Address.{DioxAddress, set_delegatee_from_string, dapp}
use dioxide_python.Account.{Suite}
use dioxide_python.Contract.{
  ContractInvokeId, is_core_dapp, get_scope, core_contract_id_from_rvm, scope_address, packed,
}
use dioxide_python.Transaction.{Log2, UnsignedTransaction}
use dioxide_python.Client.{Service}
use dioxide_python.Client.Queries.{to_int}
use dioxide_python.Client.Interface.{Printed, function_of}
use dioxide_python.Client.Local.{Sender, by_address, by_account, LocalOptions}

-- The fields of a transaction that say what it calls, and for whom.
pub record Call : Type 0 where
  pub opcode : ℕ
  pub delegatee : Option Bytes
  pub rvm_contract : Option ContractInvokeId
  pub core_contract : ℕ
  pub build : ℕ
  pub mode : ℕ

abbrev pub call_of : UnsignedTransaction → Call
call_of tx = record {
  opcode = tx.opcode;
  delegatee = tx.delegatee;
  rvm_contract = tx.rvm_contract;
  core_contract = tx.core_contract;
  build = tx.build;
  mode = tx.mode;
}

-- The mode, for whether the core contract's scope is that of addresses.
abbrev pub expected_mode : Bool → Option Bytes → ℕ
expected_mode true none = 11
expected_mode true (some _) = 1
expected_mode false _ = 12

-- The contract that is called, core or of the virtual machine, and the mode.
pub record IsTarget (invoked : ContractInvokeId) (c : Call) : Type 0 where
  pub core_ :
      is_core_dapp invoked.id ≡ true
      → (core_contract_id_from_rvm invoked.id ≡ ok c.core_contract)
        × (c.rvm_contract ≡ none)
        × (c.build ≡ invoked.build)
  pub rvm_ :
      is_core_dapp invoked.id ≡ false
      → (c.core_contract ≡ 0x3F + get_scope invoked.id * 64)
        × (c.rvm_contract ≡ some invoked)
        × (c.build ≡ 0)
  pub mode_ : c.mode ≡ expected_mode (c.core_contract / 64 == scope_address) c.delegatee

-- The identifier that is called, from the two numbers of the contract's description.
pub record IsInvoked (contract_value version_value : ℕ) (invoked : ContractInvokeId) : Type 0 where
  pub sn_ : invoked.id.sn ≡ bit_and (contract_value / 2 ^ 20) 0xFFF
  pub engine_ : invoked.id.engine_id ≡ bit_and (contract_value / 2 ^ 32) 0xF
  pub dapp_ : invoked.id.dapp_id ≡ bit_and (contract_value / 2 ^ 36) 0xFFFFFFF
  pub scope_ : invoked.scope ≡ bit_and (bit_and contract_value 0xFFF00 / 2 ^ 8) 0xFFF
  pub build_ : invoked.build ≡ bit_and version_value 0xFF
  pub value_ :
      invoked.id.value
      ≡ bit_or
          (bit_or
            (packed invoked.id.dapp_id invoked.id.engine_id invoked.id.sn)
            (bit_and invoked.scope 0xFFF * 2 ^ 8))
          (bit_and invoked.build 0xFF)

module _ {ℓ} {W : Type ℓ} (unicode : Unicode) (suite : Suite) (printed : Printed) (log2 : Log2)
    (import_time : ℕ) (service : Service W) where
  -- A number of the contract's description.
  abbrev pub IsId : Text → Entries → ℕ → Type 0
  IsId key info n =
      (v : Value) × (service.attribute key info ≡ ok v) × (to_int unicode v ≡ ok (pos n))

  -- No delegatee, the account's bytes, or the name's bytes and checksum.
  abbrev pub IsDelegatee : Bool → Sender → Option Bytes → Type 0
  IsDelegatee false sender d = d ≡ none
  IsDelegatee true (by_account b) d = d ≡ some b
  IsDelegatee true (by_address s) d =
      (a : DioxAddress) × (set_delegatee_from_string unicode suite.codecs s
          (record { bytes_ = none; type_ = dapp })
        ≡ ok (true, a))
      × (d ≡ a.bytes_)

  -- The call that was asked for: the function and the contract of the description, and the
  -- delegatee.
  pub record IsAsked (sender : Sender) (function : Text) (o : LocalOptions) (c : Call)
      : Type 0 where
    pub dapp_name : Text
    pub contract_name : Text
    pub function_name : Text
    pub parts_ : split b'.' function ≡ dapp_name ∷ contract_name ∷ function_name ∷ []
    pub contract_info : Entries
    pub given_ : (info : Entries) → o.contract_info ≡ some info → contract_info ≡ info
    pub function_info : Entries
    pub found_ : function_of printed service function_name contract_info ≡ ok (some function_info)
    pub value : Value
    pub read_ : service.box_get (codes "Opcode") (int (pos 0)) function_info ≡ ok value
    pub opcode_ : as_int value ≡ some (pos c.opcode)
    pub contract_value : ℕ
    pub version_value : ℕ
    pub contract_ : IsId (codes "ContractID") contract_info contract_value
    pub version_ : IsId (codes "ContractVersionID") contract_info version_value
    pub invoked : ContractInvokeId
    pub invoked_ : IsInvoked contract_value version_value invoked
    pub target_ : IsTarget invoked c
    pub delegatee_ : IsDelegatee o.is_delegatee sender c.delegatee
