-- ===== src/Contract/Core.antt =====
-- `CoreContractIDFromRvm`: what it returns for every identifier.
use dioxide_python.Prelude.{
  ℕ, ◌*◌, ◌/◌, ◌%◌, ◌^◌, ◌≡◌, refl, ◌∙◌, ap, true, false, ◌&&◌, ◌==◌, ==_ne, Bool, if◌then◌else◌,
  arith,
}
use dioxide_python.Prelude.Bits.{bit_and_mask, bit_and_shift}
use dioxide_python.Prelude.Result.{ok, err, assertion_error, ◌>>◌, guard}
use dioxide_python.Contract.{ContractId, is_core_dapp, get_scope, core_contract_id_from_rvm}
use dioxide_python.Contract.{
  core_contract_coin, core_contract_coin_global, core_contract_delegation,
}

-- The scope stays where it stands in the int.
pub get_scope_lem : (cid : ContractId) → get_scope cid ≡ cid.value / 2 ^ 8 % 2 ^ 12 * 2 ^ 8
unfolding get_scope
get_scope_lem cid =
    bit_and_shift 8 cid.value 0xFFF
    ∙ ap (λ (r : ℕ). r * 2 ^ 8) (bit_and_mask 12 (cid.value / 2 ^ 8))

never_shard : (n : ℕ) → (n * 2 ^ 8 == 1) ≡ false
never_shard n = ==_ne (n * 2 ^ 8) 1 (λ h. omega (arith, h))

zero_scope : (n : ℕ) → (n * 2 ^ 8 == 0) ≡ (n == 0)
zero_scope n = ground arith

and_false : (b : Bool) → (b && false) ≡ false
and_false true = refl
and_false false = refl

-- `CoreContractIDFromRvm` returns the serial number of a core dapp's identifier, but for one case:
-- for the coin contract, where the scope bits are zero, it returns the global coin contract.
-- Neither the shard's delegation contract nor the global regulation contract is ever substituted.
-- An identifier of another dapp or engine is refused.
pub core_contract_id_from_rvm_lem :
    (cid : ContractId)
    → core_contract_id_from_rvm cid ≡ (
        if is_core_dapp cid
        then ok (
            if cid.sn == core_contract_coin && (cid.value / 2 ^ 8 % 2 ^ 12 == 0)
            then core_contract_coin_global
            else cid.sn)
        else err assertion_error)
unfolding core_contract_id_from_rvm
core_contract_id_from_rvm_lem cid =
    let scope : ℕ = cid.value / 2 ^ 8 % 2 ^ 12 in
    rw
      (
        get_scope_lem cid,
        never_shard scope,
        zero_scope scope,
        and_false (cid.sn == core_contract_delegation),
      )
      (guard_if (is_core_dapp cid) _)
  where
    guard_if :
        (b : Bool) (n : ℕ)
        → (guard b assertion_error >> ok n) ≡ (if b then ok n else err assertion_error)
    guard_if true n = refl
    guard_if false n = refl
