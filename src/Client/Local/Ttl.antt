-- ===== src/Client/Local/Ttl.antt =====
-- The time to live of a transaction that `compose_transaction_local` is still setting up.
use dioxide_python.Prelude.{ℕ, ◌≡◌, refl, sym, ap, Option, none, some, [], ◌∷◌}
use dioxide_python.Prelude.Result.{Result, ok, err, overflow_error}
use dioxide_python.Prelude.Result
use dioxide_python.Bytes.{Bytes}
use dioxide_python.Text.{Text}
use dioxide_python.Gcl.Value.{Entries, end, entry}
use dioxide_python.Contract.{ContractInvokeId}
use dioxide_python.Transaction.{
  UnsignedTransaction, unsigned_transaction, set_gas_price, set_gas_limit, target,
}
use dioxide_python.Client.Local.{with_input, set_some, set_ttl, filled_with}

-- The time to live that was asked for, or the default.
abbrev pub ttl_or_default : Option ℕ → ℕ
ttl_or_default none = 120
ttl_or_default (some n) = n

filled_with-ttl :
    (tx filled : UnsignedTransaction) (r : Result Bytes)
    → filled_with tx r ≡ ok filled
    → filled.ttl ≡ tx.ttl
unfolding filled_with
filled_with-ttl tx filled (ok b) h = sym (ap (λ r. ttl_of r) h)
  where
    ttl_of : Result UnsignedTransaction → ℕ
    ttl_of (ok t) = t.ttl
    ttl_of (err _) = 0
filled_with-ttl tx filled (err e) h = cc

-- The input leaves the time to live as it is.
pub with_input-ttl :
    (signature : Text) (args : Entries) (tx filled : UnsignedTransaction)
    → with_input signature args tx ≡ ok filled
    → filled.ttl ≡ tx.ttl
unfolding with_input
with_input-ttl signature end tx filled h = sym (ap (λ r. ttl_of r) h)
  where
    ttl_of : Result UnsignedTransaction → ℕ
    ttl_of (ok t) = t.ttl
    ttl_of (err _) = 0
with_input-ttl [] (entry k v es) tx filled h = sym (ap (λ r. ttl_of r) h)
  where
    ttl_of : Result UnsignedTransaction → ℕ
    ttl_of (ok t) = t.ttl
    ttl_of (err _) = 0
with_input-ttl (c ∷ t) (entry k v es) tx filled h = filled_with-ttl tx filled _ h

pub unsigned-ttl :
    (cid : ContractInvokeId) (opcode version timestamp : ℕ) (delegatee : Option Bytes)
    (tx : UnsignedTransaction)
    → unsigned_transaction cid opcode version timestamp delegatee ≡ ok tx
    → tx.ttl ≡ 120
unfolding unsigned_transaction
unsigned-ttl cid opcode version timestamp delegatee tx h =
    let (parts, _, h') = Result.>>=-eq-ok (target cid) _ h in sym (ap (λ r. ttl_of r) h')
  where
    ttl_of : Result UnsignedTransaction → ℕ
    ttl_of (ok t) = t.ttl
    ttl_of (err _) = 120

pub set_some-ttl :
    (ttl gas_limit gas_price : Option ℕ) (tx : UnsignedTransaction)
    → tx.ttl ≡ 120
    → (set_some set_ttl ttl
        (set_some set_gas_limit gas_limit (set_some set_gas_price gas_price tx))).ttl
      ≡ ttl_or_default ttl
unfolding set_gas_limit set_gas_price
set_some-ttl (some n) l p tx h = refl
set_some-ttl none none none tx h = h
set_some-ttl none (some l) none tx h = h
set_some-ttl none none (some p) tx h = h
set_some-ttl none (some l) (some p) tx h = h
