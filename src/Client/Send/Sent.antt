-- ===== src/Client/Send/Sent.antt =====
-- When the synchronous form of `send_raw_transaction` returns.
use dioxide_python.Prelude.{ℕ, ◌≡◌, Bool, true, false, if◌then◌else◌}
use dioxide_python.Bytes.{Bytes}
use dioxide_python.Text.{codes}
use dioxide_python.Text.Case.{Unicode}
use dioxide_python.Gcl.Value.{Value}
use dioxide_python.Account.{Suite}
use dioxide_python.Client.{returned, return, lift, fail, Service, item}
use dioxide_python.Client.Methods.{>>=-returned}
use dioxide_python.Client.Wait.{wait_for_transaction_confirmed}
use dioxide_python.Client.Send.{finish_send, send_raw_transaction, timeout_code}

module _ {ℓ} {W : Type ℓ} (unicode : Unicode) (suite : Suite) (service : Service W) where
  -- Where `send_raw_transaction` with `sync` returns a hash, it waited, and what it waited for was
  -- that the transaction and its relays are confirmed.
  pub send_raw_transaction-confirmed :
      (rounds fuel : ℕ) (signed_txn : Bytes) (timeout : ℕ) (w : W) (tx_hash : Value)
      → (send_raw_transaction unicode suite service rounds fuel signed_txn true timeout w).0
        ≡ returned tx_hash
      → (v : W) × (u : W) × (wait_for_transaction_confirmed unicode service rounds fuel tx_hash
            timeout v
          ≡ (returned true, u))
  unfolding send_raw_transaction finish_send
  send_raw_transaction-confirmed rounds fuel signed_txn timeout w tx_hash h =
      let (response, v, _, h₁) = >>=-returned w _ _ h in
      let (hash, u, _, h₂) = >>=-returned v (lift (item (codes "Hash") response)) _ h₁ in
      let (b, x, e, h₃) =
        >>=-returned u (wait_for_transaction_confirmed unicode service rounds fuel hash timeout) _
          h₂ in
      let (y, e') = confirmed b x hash u e h₃ in (u, y, e')
    where
      confirmed :
          (b : Bool) (x : W) (hash : Value) (u : W)
          → wait_for_transaction_confirmed unicode service rounds fuel hash timeout u
            ≡ (returned b, x)
          → ((if b then return hash else fail timeout_code) x).0 ≡ returned tx_hash
          → (y : W) × (wait_for_transaction_confirmed unicode service rounds fuel tx_hash timeout u
              ≡ (returned true, y))
      confirmed true x hash u e h' = let same : hash ≡ tx_hash = cc in (x, rw same at e)
      confirmed false x hash u e h' = cc
