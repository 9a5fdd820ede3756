-- ===== src/Client/Local/Input.antt =====
-- The whole transaction that `compose_transaction_local` makes of arguments with a signature.
use dioxide_python.Prelude.{ℕ, ◌≡◌, some, length}
use dioxide_python.Prelude.Result.{Result}
use dioxide_python.Bytes.{Bytes}
use dioxide_python.Text.{Text}
use dioxide_python.Gcl.Value.{Value}
use dioxide_python.Transaction.{UnsignedTransaction}
use dioxide_python.Client.Local.{LocalOptions}
use dioxide_python.Client.Local.Ttl.{ttl_or_default}
use dioxide_python.Client.Local.Options.{or_else}

-- The transaction that is written: what is not an option, the options or their defaults, the ISN
-- that was given, and the input with its size.
pub record IsComposed (import_time : ℕ) (o : LocalOptions) (input : Bytes)
    (tx : UnsignedTransaction) : Type 0 where
  pub version_ : tx.version ≡ 108
  pub timestamp_ : tx.timestamp ≡ import_time
  pub ttl_ : tx.ttl ≡ ttl_or_default o.ttl
  pub gas_price_ : tx.gas_price ≡ or_else 100 o.gas_price
  pub gas_limit_ : tx.gas_limit ≡ or_else 500000 o.gas_limit
  pub isn_ : (n : ℕ) → o.isn ≡ some n → tx.isn ≡ n
  pub input_ : tx.input ≡ input
  pub input_size_ : tx.input_size ≡ length input

abbrev with_bytes : Bytes → UnsignedTransaction → UnsignedTransaction
with_bytes input tx = record tx { input = input; input_size = length input }
