-- ===== src/Contract/Examples.antt =====
-- The theorems on identifiers at concrete identifiers.
use dioxide_python.Prelude.{◌≡◌, refl, none, some, arith, if◌then◌else◌, ◌&&◌, ◌==◌, ◌/◌, ◌%◌, ◌^◌}
use dioxide_python.Prelude.Result.{ok, err, assertion_error, ◌>>=◌}
use dioxide_python.Contract.{
  ContractId, contract_version_id, contract_invoke_id, core_contract_id_from_rvm, is_core_dapp,
}
use dioxide_python.Contract.{core_contract_coin, core_contract_coin_global}
use dioxide_python.Contract.Laws.{
  id_of, low_bits, contract_invoke_id-parts, contract_invoke_id-value,
}
use dioxide_python.Contract.Core.{core_contract_id_from_rvm_lem}

-- The identifier that the file's own main block prints.
read_back : (contract_version_id 73148661761 none none none none >>= λ i. ok i.build) ≡ ok 1
unfolding contract_version_id
read_back = refl

contract_invoke_id-parts_example :
    (contract_invoke_id 0 (some 128) (some 1) (some 1) (some 5) (some 300) >>= λ i.
    contract_invoke_id i.id.value none none none none none)
    ≡ ok (record { id = id_of 1 1 128 (low_bits 5 300); scope = 5; build = 44 })
contract_invoke_id-parts_example = contract_invoke_id-parts 0 128 1 1 5 300

contract_invoke_id-value_example :
    (contract_invoke_id 73148661761 none none none none none >>= λ i.
    contract_invoke_id 0
      (some i.id.sn)
      (some i.id.engine_id)
      (some i.id.dapp_id)
      (some i.scope)
      (some i.build))
    ≡ contract_invoke_id 73148661761 none none none none none
contract_invoke_id-value_example = contract_invoke_id-value 73148661761 (omega arith)

-- The regulation contract of the core dapp, in the global scope
abbrev regulation : ContractId
regulation = record { value = 73157050368; sn = 136; engine_id = 1; dapp_id = 1 }

core_contract_id_from_rvm_lem_example : core_contract_id_from_rvm regulation ≡ (
    if is_core_dapp regulation
    then ok (
        if 136 == core_contract_coin && (73157050368 / 2 ^ 8 % 2 ^ 12 == 0)
        then core_contract_coin_global
        else 136)
    else err assertion_error)
core_contract_id_from_rvm_lem_example = core_contract_id_from_rvm_lem regulation

regulation_stays : core_contract_id_from_rvm regulation ≡ ok 136
unfolding core_contract_id_from_rvm
regulation_stays = refl
