-- ===== src/Contract.antt =====
-- Contract identifiers, dioxide_python_sdk/client/contract.py. An identifier is an int, with its
-- parts as attributes: from the low end 8 bits of build, 12 of scope, 12 of serial number, 4 of
-- engine and 28 of dapp. Ints are not negative here.
pub mod Layout
pub mod Laws
pub mod Core
mod Examples
use dioxide_python.Prelude.{
  ℕ, ◌*◌, ◌/◌, ◌^◌, ◌+◌, Bool, ◌&&◌, ◌==◌, bit_and, bit_or, Option, none, some, if◌then◌else◌,
}
use dioxide_python.Prelude.Result.{Result, ok, err, type_error, assertion_error, ◌>>=◌, ◌>>◌, guard}

pub record ContractId : Type 0 where
  pub value : ℕ
  pub sn : ℕ
  pub engine_id : ℕ
  pub dapp_id : ℕ

pub record ContractVersionId : Type 0 where
  pub id : ContractId
  pub build : ℕ

pub record ContractScopeId : Type 0 where
  pub id : ContractId
  pub scope : ℕ

pub record ContractInvokeId : Type 0 where
  pub id : ContractId
  pub scope : ℕ
  pub build : ℕ

-- `None & mask` raises TypeError.
abbrev pub or_type_error : Option ℕ → Result ℕ
or_type_error none = err type_error
or_type_error (some n) = ok n

-- `((dapp_id & 0xFFFFFFF) << 36) | ((engine_id & 0xF) << 32) | ((sn & 0xFFF) << 20)`
unfoldable pub packed : ℕ → ℕ → ℕ → ℕ
packed dapp_id engine_id sn =
    bit_or (bit_or (bit_and dapp_id 0xFFFFFFF * 2 ^ 36) (bit_and engine_id 0xF * 2 ^ 32))
      (bit_and sn 0xFFF * 2 ^ 20)

-- The attributes that `__new__` reads off an int.
unfoldable pub read_id : ℕ → ContractId
read_id val = record {
  value = val;
  sn = bit_and (val / 2 ^ 20) 0xFFF;
  engine_id = bit_and (val / 2 ^ 32) 0xF;
  dapp_id = bit_and (val / 2 ^ 36) 0xFFFFFFF;
}

-- `ContractID(value, sn, engine_id, dapp_id)`
unfoldable pub contract_id : ℕ → Option ℕ → Option ℕ → Option ℕ → Result ContractId
unfolding packed read_id
contract_id value none none none = ok (read_id value)
contract_id value sn engine_id dapp_id = do
  d ← or_type_error dapp_id
  e ← or_type_error engine_id
  s ← or_type_error sn
  ok (record { value = packed d e s; sn = s; engine_id = e; dapp_id = d })

-- `ContractVersionID(value, sn, engine_id, dapp_id, build)`
unfoldable pub contract_version_id :
    ℕ → Option ℕ → Option ℕ → Option ℕ → Option ℕ → Result ContractVersionId
unfolding packed read_id
contract_version_id value none none none none =
    ok (record { id = read_id value; build = bit_and value 0xFF })
contract_version_id value sn engine_id dapp_id build = do
  d ← or_type_error dapp_id
  e ← or_type_error engine_id
  s ← or_type_error sn
  b ← or_type_error build
  ok (record {
    id = record {
      value = bit_or (packed d e s) (bit_and b 0xFF);
      sn = s;
      engine_id = e;
      dapp_id = d;
    };
    build = b;
  })

-- `ContractScopeID(value, sn, engine_id, dapp_id, scope)`: a scope beside a value alone is ignored.
unfoldable pub contract_scope_id :
    ℕ → Option ℕ → Option ℕ → Option ℕ → Option ℕ → Result ContractScopeId
unfolding packed read_id
contract_scope_id value none none none scope =
    ok (record { id = read_id value; scope = bit_and (value / 2 ^ 8) 0xFFF })
contract_scope_id value sn engine_id dapp_id scope = do
  d ← or_type_error dapp_id
  e ← or_type_error engine_id
  s ← or_type_error sn
  c ← or_type_error scope
  ok (record {
    id = record {
      value = bit_or (packed d e s) (bit_and c 0xFFF * 2 ^ 8);
      sn = s;
      engine_id = e;
      dapp_id = d;
    };
    scope = c;
  })

-- `ContractInvokeID(value, sn, engine_id, dapp_id, scope, build)`
unfoldable pub contract_invoke_id :
    ℕ → Option ℕ → Option ℕ → Option ℕ → Option ℕ → Option ℕ → Result ContractInvokeId
unfolding packed read_id
contract_invoke_id value none none none scope build = ok (record {
  id = read_id value;
  scope = bit_and (value / 2 ^ 8) 0xFFF;
  build = bit_and value 0xFF;
})
contract_invoke_id value sn engine_id dapp_id scope build = do
  d ← or_type_error dapp_id
  e ← or_type_error engine_id
  s ← or_type_error sn
  c ← or_type_error scope
  b ← or_type_error build
  ok (record {
    id = record {
      value = bit_or (bit_or (packed d e s) (bit_and c 0xFFF * 2 ^ 8)) (bit_and b 0xFF);
      sn = s;
      engine_id = e;
      dapp_id = d;
    };
    scope = c;
    build = b;
  })

abbrev pub dapp_id_core : ℕ
dapp_id_core = 1

-- `EngineID.Core.value`
abbrev pub engine_core : ℕ
engine_core = 1

-- `Scope`
abbrev pub scope_global : ℕ
scope_global = 0

abbrev pub scope_shard : ℕ
scope_shard = 1

abbrev pub scope_address : ℕ
scope_address = 2

-- `CORE_CONTRACT_GLOBAL_BEGIN` and the others
abbrev pub begin_of : ℕ → ℕ
begin_of scope = scope * 2 ^ 6

abbrev pub core_contract_coin_global : ℕ
core_contract_coin_global = begin_of scope_global

abbrev pub core_contract_delegation_shard : ℕ
core_contract_delegation_shard = begin_of scope_shard + 1

abbrev pub core_contract_regulation_global : ℕ
core_contract_regulation_global = core_contract_coin_global + 2

abbrev pub core_contract_coin : ℕ
core_contract_coin = begin_of scope_address

abbrev pub core_contract_delegation : ℕ
core_contract_delegation = core_contract_coin + 6

abbrev pub core_contract_regulation : ℕ
core_contract_regulation = core_contract_coin + 8

unfoldable pub is_core_dapp : ContractId → Bool
is_core_dapp cid = cid.dapp_id == dapp_id_core && cid.engine_id == engine_core

unfoldable pub get_scope : ContractId → ℕ
get_scope cid = bit_and cid.value 0xFFF00

unfoldable pub get_build : ContractId → ℕ
get_build cid = bit_and cid.value 0xFF

-- `CoreContractIDFromRvm(cid)`. Its third test compares the method `cid.get_scope`, not what it
-- returns, with a number: that is never equal, so the branch behind it is never taken.
unfoldable pub core_contract_id_from_rvm : ContractId → Result ℕ
unfolding is_core_dapp get_scope
core_contract_id_from_rvm cid = do
  guard (is_core_dapp cid) assertion_error
  ok (
      if cid.sn == core_contract_coin && get_scope cid == scope_global
      then core_contract_coin_global
      else if cid.sn == core_contract_delegation && get_scope cid == scope_shard
      then core_contract_delegation_shard
      else cid.sn)
