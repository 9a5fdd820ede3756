-- ===== src/Client/Local/Options.antt =====
-- The options of `compose_transaction_local`, and the fields that they leave alone.
use dioxide_python.Prelude.{ℕ, ◌≡◌, refl, sym, ◌∙◌, ap, Option, none, some}
use dioxide_python.Prelude.Result.{Result, ok, err, >>=-eq-ok}
use dioxide_python.Bytes.{Bytes}
use dioxide_python.Contract.{ContractInvokeId}
use dioxide_python.Transaction.{
  UnsignedTransaction, unsigned_transaction, target, set_gas_price, set_gas_limit,
}
use dioxide_python.Client.Local.{set_some, set_ttl}

abbrev pub or_else : ℕ → Option ℕ → ℕ
or_else d none = d
or_else d (some n) = n

-- What is not an option of the caller, or was left out.
pub record IsFresh (version timestamp : ℕ) (tx : UnsignedTransaction) : Type 0 where
  pub version_ : tx.version ≡ version
  pub timestamp_ : tx.timestamp ≡ timestamp
  pub gas_price_ : tx.gas_price ≡ 100
  pub gas_limit_ : tx.gas_limit ≡ 500000

pub unsigned-IsFresh :
    (cid : ContractInvokeId) (opcode version timestamp : ℕ) (delegatee : Option Bytes)
    (tx : UnsignedTransaction)
    → unsigned_transaction cid opcode version timestamp delegatee ≡ ok tx
    → IsFresh version timestamp tx
unfolding unsigned_transaction
unsigned-IsFresh cid opcode version timestamp delegatee tx h =
    let (parts, _, made) = >>=-eq-ok (target cid) _ h in
    let same = ap (λ r. or_tx r) made in
    record {
      version_ = sym (ap (λ t. t.version) same);
      timestamp_ = sym (ap (λ t. t.timestamp) same);
      gas_price_ = sym (ap (λ t. t.gas_price) same);
      gas_limit_ = sym (ap (λ t. t.gas_limit) same);
    }
  where
    or_tx : Result UnsignedTransaction → UnsignedTransaction
    or_tx (ok t) = t
    or_tx (err _) = tx

-- A field that an option does not set.
set_some-keeps :
    {A : Type 0} (field : UnsignedTransaction → A)
    (set : ℕ → UnsignedTransaction → UnsignedTransaction)
    → ((n : ℕ) (t : UnsignedTransaction) → field (set n t) ≡ field t)
    → (x : Option ℕ) (t : UnsignedTransaction) → field (set_some set x t) ≡ field t
set_some-keeps field set keeps none t = refl
set_some-keeps field set keeps (some n) t = keeps n t

-- A field that an option sets.
set_some-sets :
    (field : UnsignedTransaction → ℕ) (set : ℕ → UnsignedTransaction → UnsignedTransaction)
    → ((n : ℕ) (t : UnsignedTransaction) → field (set n t) ≡ n)
    → (x : Option ℕ) (t : UnsignedTransaction) → field (set_some set x t) ≡ or_else (field t) x
set_some-sets field set sets none t = refl
set_some-sets field set sets (some n) t = sets n t

-- A field that no option sets.
pub options-keep :
    {A : Type 0} (field : UnsignedTransaction → A) (ttl gas_limit gas_price : Option ℕ)
    (tx : UnsignedTransaction)
    → ((n : ℕ) (t : UnsignedTransaction) → field (set_ttl n t) ≡ field t)
    → ((n : ℕ) (t : UnsignedTransaction) → field (set_gas_limit n t) ≡ field t)
    → ((n : ℕ) (t : UnsignedTransaction) → field (set_gas_price n t) ≡ field t)
    → field (
        set_some set_ttl ttl
          (set_some set_gas_limit gas_limit (set_some set_gas_price gas_price tx)))
      ≡ field tx
options-keep field ttl gas_limit gas_price tx a b c =
    set_some-keeps field set_ttl a ttl _
    ∙ (set_some-keeps field set_gas_limit b gas_limit _
        ∙ set_some-keeps field set_gas_price c gas_price tx)

-- The price and the limit of what the options were put into.
pub options-gas_price :
    (ttl gas_limit gas_price : Option ℕ) (tx : UnsignedTransaction) (d : ℕ)
    → tx.gas_price ≡ d
    → (set_some set_ttl ttl
        (set_some set_gas_limit gas_limit (set_some set_gas_price gas_price tx))).gas_price
      ≡ or_else d gas_price
unfolding set_gas_limit set_gas_price
options-gas_price ttl gas_limit gas_price tx d h =
    set_some-keeps (λ t. t.gas_price) set_ttl (λ _ _. refl) ttl _
    ∙ (set_some-keeps (λ t. t.gas_price) set_gas_limit (λ _ _. refl) gas_limit _
        ∙ (set_some-sets (λ t. t.gas_price) set_gas_price (λ _ _. refl) gas_price tx
            ∙ ap (λ n. or_else n gas_price) h))

pub options-gas_limit :
    (ttl gas_limit gas_price : Option ℕ) (tx : UnsignedTransaction) (d : ℕ)
    → tx.gas_limit ≡ d
    → (set_some set_ttl ttl
        (set_some set_gas_limit gas_limit (set_some set_gas_price gas_price tx))).gas_limit
      ≡ or_else d gas_limit
unfolding set_gas_limit set_gas_price
options-gas_limit ttl gas_limit gas_price tx d h =
    set_some-keeps (λ t. t.gas_limit) set_ttl (λ _ _. refl) ttl _
    ∙ (set_some-sets (λ t. t.gas_limit) set_gas_limit (λ _ _. refl) gas_limit _
        ∙ ap (λ n. or_else n gas_limit)
            (set_some-keeps (λ t. t.gas_limit) set_gas_price (λ _ _. refl) gas_price tx ∙ h))
