-- ===== src/Client/Local/Target.antt =====
-- The identifier that `compose_transaction_local` of client/dioxclient.py calls, and what the
-- constructor in client/transaction.py makes of it.
use dioxide_python.Prelude.{
  ap, ℕ, ◌≡◌, refl, ◌∙◌, sym, ◌+◌, ◌*◌, ◌/◌, ◌^◌, Bool, true, false, ◌==◌, bit_and, bit_or, Option,
  none, some, if◌then◌else◌,
}
use dioxide_python.Prelude.Result.{Result, ok, err, Error, ◌>>=◌, >>=-eq-ok}
use dioxide_python.Bytes.{Bytes}
use dioxide_python.Contract.{
  ContractInvokeId, is_core_dapp, get_scope, core_contract_id_from_rvm, scope_address, contract_id,
  contract_version_id, ContractId, ContractVersionId, contract_invoke_id, read_id, packed,
}
use dioxide_python.Transaction.{UnsignedTransaction, unsigned_transaction, target}
use mathlib.Core.Path.{subst}
use dioxide_python.Client.Local.{invoke_id}
use dioxide_python.Client.Local.Asked.{call_of, expected_mode, IsTarget, IsInvoked}

abbrev result_or {ℓ} : {A : Type ℓ} → A → Result A → A
result_or a (ok b) = b
result_or a (err e) = a

pub invoke_id-IsInvoked :
    (c v : ℕ) (cid : ContractId) (version : ContractVersionId) (invoked : ContractInvokeId)
    → contract_id c none none none ≡ ok cid
    → contract_version_id v none none none none ≡ ok version
    → invoke_id cid version ≡ ok invoked
    → IsInvoked c v invoked
unfolding contract_id contract_version_id read_id invoke_id contract_invoke_id get_scope packed
invoke_id-IsInvoked c v cid version invoked hc hv h =
    let same_id = ap (λ r. result_or cid r) hc in
    let same_version = ap (λ r. result_or version r) hv in
    let same = ap (λ r. result_or invoked r) h in
    record {
      sn_ = sym (ap (λ i. i.id.sn) same) ∙ sym (ap (λ i. i.sn) same_id);
      engine_ = sym (ap (λ i. i.id.engine_id) same) ∙ sym (ap (λ i. i.engine_id) same_id);
      dapp_ = sym (ap (λ i. i.id.dapp_id) same) ∙ sym (ap (λ i. i.dapp_id) same_id);
      scope_ =
          sym (ap (λ i. i.scope) same)
          ∙ sym (ap (λ i. bit_and (bit_and i.value 0xFFF00 / 2 ^ 8) 0xFFF) same_id);
      build_ = sym (ap (λ i. i.build) same) ∙ sym (ap (λ i. i.build) same_version);
      value_ =
          subst
            (λ (i : ContractInvokeId).
              i.id.value
              ≡ bit_or
                  (bit_or (packed i.id.dapp_id i.id.engine_id i.id.sn)
                    (bit_and i.scope 0xFFF * 2 ^ 8))
                  (bit_and i.build 0xFF))
            same refl;
    }

expected :
    (b : Bool) (d : Option Bytes)
    → bit_or 0 (if b then elim d [ none ↦ 11 | some _ ↦ 1 ] else 12) ≡ expected_mode b d
expected true none = refl
expected true (some b) = refl
expected false d = refl

pub err_ne_ok : {A : Type 0} {x : Error} {n : A} → Result.err x ≡ ok n → ⊥
err_ne_ok h = cc

-- Either branch of the test for a core contract.
branch-parts :
    (b : Bool) (r : Result ℕ) (cid : ContractInvokeId) (other core : ℕ)
    (rvm : Option ContractInvokeId) (build : ℕ)
    → (if b
        then ◌>>=◌ {B = ℕ × (Option ContractInvokeId × ℕ)} r (λ c. ok (c, (none, cid.build)))
        else ok (other, (some cid, 0)))
      ≡ ok (core, (rvm, build))
    → (b ≡ true → (r ≡ ok core) × (rvm ≡ none) × (build ≡ cid.build))
      × (b ≡ false → (core ≡ other) × (rvm ≡ some cid) × (build ≡ 0))
branch-parts true (err e) cid other core rvm build h = absurd (err_ne_ok h)
branch-parts true (ok c) cid other core rvm build h =
    let same = ap (λ r. result_or (core, (rvm, build)) r) h in
    (
      λ _. (ap ok (ap (λ p. p.0) same), sym (ap (λ p. p.1.0) same), sym (ap (λ p. p.1.1) same)),
      λ no. cc,
    )
branch-parts false r cid other core rvm build h =
    let same = ap (λ r. result_or (core, (rvm, build)) r) h in
    (
      λ no. cc,
      λ _. (sym (ap (λ p. p.0) same), sym (ap (λ p. p.1.0) same), sym (ap (λ p. p.1.1) same)),
    )

target-parts :
    (cid : ContractInvokeId) (core : ℕ) (rvm : Option ContractInvokeId) (build : ℕ)
    → target cid ≡ ok (core, (rvm, build))
    → (is_core_dapp cid.id ≡ true
        → (core_contract_id_from_rvm cid.id ≡ ok core) × (rvm ≡ none) × (build ≡ cid.build))
      × (is_core_dapp cid.id ≡ false
          → (core ≡ 0x3F + get_scope cid.id * 64) × (rvm ≡ some cid) × (build ≡ 0))
unfolding target
target-parts cid core rvm build h =
    branch-parts (is_core_dapp cid.id) (core_contract_id_from_rvm cid.id) cid
      (0x3F + get_scope cid.id * 64) core rvm build h

pub unsigned-IsTarget :
    (cid : ContractInvokeId) (opcode version timestamp : ℕ) (delegatee : Option Bytes)
    (tx : UnsignedTransaction)
    → unsigned_transaction cid opcode version timestamp delegatee ≡ ok tx
    → (tx.opcode ≡ opcode) × (tx.delegatee ≡ delegatee) × IsTarget cid (call_of tx)
unfolding unsigned_transaction
unsigned-IsTarget cid opcode version timestamp delegatee tx h =
    let (parts, ht, made) = >>=-eq-ok (target cid) _ h in
    let (core, rvm) = target-parts cid parts.0 parts.1.0 parts.1.1 ht in
    subst
      (λ (t : UnsignedTransaction).
        (t.opcode ≡ opcode) × (t.delegatee ≡ delegatee) × IsTarget cid (call_of t))
      (ap (λ r. result_or tx r) made)
      (
        refl,
        refl,
        record {
          core_ = core;
          rvm_ = rvm;
          mode_ = expected (parts.0 / 64 == scope_address) delegatee;
        },
      )
