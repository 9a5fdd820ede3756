-- ===== src/Client/Send/Quiet.antt =====
-- The methods that send no transaction: the requests under other names, and the waiting.
use dioxide_python.Prelude.{
  ℕ, zero, suc, ◌≡◌, refl, ◌∙◌, Bool, true, false, Option, none, some, List, [], ◌∷◌, ◌++◌, ◌-◌,
  ltb, Bool-cases, inl, inr,
}
use dioxide_python.Prelude.Result.{Result}
use dioxide_python.Text.{Text, codes, text_eq}
use dioxide_python.Text.Case.{Unicode}
use dioxide_python.Gcl.Value.{Value, Entries}
use dioxide_python.Client.{returned, Run, Service, call, finish, make_request}
use dioxide_python.Client.Relays.{
  get_transaction, relays_of, relayed, visit, walk, is_tx_confirmed, is_tx_confirmed_with_relays,
}
use dioxide_python.Client.Wait.{one_second, poll, wait_more, wait_for_transaction_confirmed}
use dioxide_python.Client.Send.Logged.{Log, logged, sends, Quiet, >>=-sends, >>=-Quiet}

module _ {ℓ} {W : Type ℓ} (service : Service W) where
  finish-Quiet :
      (response : Value) (e : Option Value) → Quiet {W = W} (finish (logged service) response e)
  unfolding finish
  finish-Quiet response none = λ s. refl
  finish-Quiet response (some code) = >>=-Quiet _ _ (λ s. refl) (λ memo s. refl)

  -- What a request adds to what was sent.
  pub make_request-sends :
      (method : Text) (params : Entries) (s : W × Log)
      → sends ((make_request (logged service) method params s).1.1) ≡ sends ((method, params) ∷ s.1)
  unfolding make_request call
  make_request-sends method params s =
      >>=-sends _ _ (λ response. >>=-Quiet _ _ (λ s. refl) (λ e. finish-Quiet response e)) s

  pub make_request-Quiet :
      (method : Text) (params : Entries)
      → text_eq method (codes "tx.send") ≡ false
      → Quiet (make_request (logged service) method params)
  unfolding sends
  make_request-Quiet method params h s = make_request-sends method params s ∙ rw h refl

  relays_of-Quiet : (tx : Entries) → Quiet {W = W} (relays_of (logged service) tx)
  unfolding relays_of
  relays_of-Quiet tx = >>=-Quiet _ _ (λ s. refl) (λ a. >>=-Quiet _ _ (λ s. refl) (λ b s. refl))

module _ {ℓ} {W : Type ℓ} (unicode : Unicode) (service : Service W) where
  get_transaction-Quiet :
      (hash : Value) (shard : Option Value)
      → Quiet (get_transaction unicode (logged service) hash shard)
  unfolding get_transaction
  get_transaction-Quiet hash shard =
      >>=-Quiet _ _ (λ s. refl)
        (λ has_colon.
          >>=-Quiet _ _ (λ s. refl)
            (λ p.
              >>=-Quiet _ _ (make_request-Quiet service (codes "dx.transaction") _ refl)
                (λ r s. refl)))

  relayed-Quiet : (b : Bool) (tx : Entries) → Quiet (relayed unicode (logged service) b tx)
  unfolding relayed
  relayed-Quiet false tx = λ s. refl
  relayed-Quiet true tx =
      >>=-Quiet _ _ (relays_of-Quiet service tx) (λ rs. >>=-Quiet _ _ (λ s. refl) (λ hs s. refl))

  visit-Quiet :
      (test : Option Entries → Result Bool) (hash : Value)
      → Quiet (visit unicode (logged service) test hash)
  unfolding visit
  visit-Quiet test hash =
      >>=-Quiet _ _ (get_transaction-Quiet hash none)
        (λ tx. >>=-Quiet _ _ (λ s. refl) (λ passes. relayed-Quiet passes tx))

  walk-Quiet :
      (test : Option Entries → Result Bool) (fuel : ℕ) (q : List Value)
      → Quiet (walk unicode (logged service) test fuel q)
  unfolding walk
  walk-Quiet test fuel [] = λ s. refl
  walk-Quiet test zero (hash ∷ q) = λ s. refl
  walk-Quiet test (suc fuel) (hash ∷ q) =
      >>=-Quiet _ _ (visit-Quiet test hash)
        (λ found. on (λ hashes. walk-Quiet test fuel (q ++ hashes)) found)
    where
      on :
          ((hashes : List Value) → Quiet (walk unicode (logged service) test fuel (q ++ hashes)))
          → (found : Option (List Value))
          → Quiet {W = W} (elim found [
            | none ↦ λ s. (returned false, s)
            | some hashes ↦ walk unicode (logged service) test fuel (q ++ hashes)
          ])
      on rest none = λ s. refl
      on rest (some hashes) = rest hashes

  confirmed-Quiet :
      (fuel : ℕ) (tx : Entries)
      → Quiet (is_tx_confirmed_with_relays unicode (logged service) fuel tx)
  unfolding is_tx_confirmed_with_relays
  confirmed-Quiet fuel tx =
      >>=-Quiet _ _ (λ s. refl)
        (λ hash. walk-Quiet (is_tx_confirmed (logged service)) fuel (hash ∷ []))

  wait_more-Quiet :
      (start timeout : ℕ) (rest : Run (W × Log) Bool) (found : Bool)
      → Quiet rest
      → Quiet (wait_more (logged service) start timeout rest found)
  unfolding wait_more
  wait_more-Quiet start timeout rest true h s = refl
  wait_more-Quiet start timeout rest false h s =
      elim (Bool-cases (ltb timeout (service.time s.0 - start))) [
        | inl over ↦ rw over refl
        | inr in_time ↦ rw in_time (h (service.sleep one_second s.0, s.1))
      ]

  poll-Quiet :
      (check : Run (W × Log) Bool) (start timeout rounds : ℕ)
      → Quiet check
      → Quiet (poll (logged service) check start timeout rounds)
  unfolding poll
  poll-Quiet check start timeout zero h = λ s. refl
  poll-Quiet check start timeout (suc rounds) h = >>=-Quiet _ _ h (λ found.
      wait_more-Quiet start timeout (poll (logged service) check start timeout rounds) found
        (poll-Quiet check start timeout rounds h))

  pub wait_for_transaction_confirmed-Quiet :
      (rounds fuel : ℕ) (tx_hash : Value) (timeout : ℕ)
      → Quiet (wait_for_transaction_confirmed unicode (logged service) rounds fuel tx_hash timeout)
  unfolding wait_for_transaction_confirmed
  wait_for_transaction_confirmed-Quiet rounds fuel tx_hash timeout s =
      >>=-Quiet _ _ (get_transaction-Quiet tx_hash none)
        (λ tx.
          poll-Quiet (is_tx_confirmed_with_relays unicode (logged service) fuel tx) _ timeout rounds
            (confirmed-Quiet fuel tx))
        s
