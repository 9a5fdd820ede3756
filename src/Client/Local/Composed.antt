-- ===== src/Client/Local/Composed.antt =====
-- The time to live of the transaction that `compose_transaction_local` returns.
use dioxide_python.Prelude.{ℕ, ◌≤◌, ◌≡◌, refl, ◌∙◌, arith}
use dioxide_python.Prelude.Int.{ℤ}
use dioxide_python.Prelude.Result.{Result, ok, err}
use dioxide_python.Bytes.{Bytes}
use dioxide_python.Text.{Text}
use dioxide_python.Text.Case.{Unicode}
use dioxide_python.Gcl.Value.{Entries}
use dioxide_python.Account.{Suite}
use dioxide_python.Transaction.{Log2, UnsignedTransaction, set_isn, get_ttl_from_signed_txn}
use dioxide_python.Transaction.Laws.{get_ttl_from_signed_txn-serialize_transaction}
use dioxide_python.Client.{returned, Service}
use dioxide_python.Client.Interface.{Printed}
use dioxide_python.Client.Local.{
  Sender, LocalOptions, default_version, with_input, finished, compose_transaction_local, natural,
  serialized, with_isn, set_options,
}
use dioxide_python.Client.Local.Ttl.{ttl_or_default, with_input-ttl, unsigned-ttl, set_some-ttl}
use dioxide_python.Client.Local.Finished.{compose_transaction_local-IsFinished}

module _ {ℓ} {W : Type ℓ} (unicode : Unicode) (suite : Suite) (printed : Printed) (log2 : Log2)
    (import_time : ℕ) (service : Service W) where
  with_isn-ttl :
      (t : ℕ) (tx : UnsignedTransaction) (r : Result ℕ) (bs : Bytes)
      → tx.ttl ≡ t
      → 1 ≤ t
      → t ≤ 512
      → with_isn unicode suite printed log2 import_time service tx r ≡ ok bs
      → get_ttl_from_signed_txn bs ≡ t
  unfolding with_isn set_isn
  with_isn-ttl t tx (ok n) bs e low high h =
      get_ttl_from_signed_txn-serialize_transaction log2 (set_isn n tx) bs h (omega (arith, e, low))
        (omega (arith, e, high))
      ∙ e
  with_isn-ttl t tx (err x) bs e low high h = cc

  serialized-ttl :
      (t : ℕ) (isn : ℤ) (r : Result UnsignedTransaction) (bs : Bytes)
      → ((filled : UnsignedTransaction) → r ≡ ok filled → filled.ttl ≡ t)
      → 1 ≤ t
      → t ≤ 512
      → serialized unicode suite printed log2 import_time service isn r ≡ ok bs
      → get_ttl_from_signed_txn bs ≡ t
  unfolding serialized
  serialized-ttl t isn (ok filled) bs e low high h =
      with_isn-ttl t filled (natural isn) bs (e filled refl) low high h
  serialized-ttl t isn (err x) bs e low high h = cc

  finished-ttl :
      (o : LocalOptions) (signature : Text) (args : Entries) (isn : ℤ) (tx : UnsignedTransaction)
      (bs : Bytes)
      → tx.ttl ≡ 120
      → 1 ≤ ttl_or_default o.ttl
      → ttl_or_default o.ttl ≤ 512
      → finished unicode suite printed log2 import_time service o signature args isn tx ≡ ok bs
      → get_ttl_from_signed_txn bs ≡ ttl_or_default o.ttl
  unfolding finished
  finished-ttl o signature args isn tx bs h low high e =
      let options = set_options unicode suite printed log2 import_time service o tx in
      serialized-ttl (ttl_or_default o.ttl) isn (with_input signature args options) bs
        (λ filled ef.
          with_input-ttl signature args options filled ef
          ∙ set_some-ttl o.ttl o.gas_limit o.gas_price tx h)
        low high e

  -- The time to live, from 1 to 512, that is read off a transaction that `compose_transaction_local`
  -- returns is the one that was asked for, or 120.
  pub compose_transaction_local-ttl :
      (sender : Sender) (function : Text) (args : Entries) (o : LocalOptions) (w : W) (bs : Bytes)
      → 1 ≤ ttl_or_default o.ttl
      → ttl_or_default o.ttl ≤ 512
      → (compose_transaction_local unicode suite printed log2 import_time service sender function
          args o w).0
        ≡ returned bs
      → get_ttl_from_signed_txn bs ≡ ttl_or_default o.ttl
  compose_transaction_local-ttl sender function args o w bs low high h =
      let f =
        compose_transaction_local-IsFinished unicode suite printed log2 import_time service sender
          function args o w bs h in
      finished-ttl o f.signature args f.isn f.tx bs
        (unsigned-ttl f.invoked f.opcode default_version import_time f.delegatee f.tx f.made) low
        high f.done
