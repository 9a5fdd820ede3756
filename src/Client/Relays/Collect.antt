-- ===== src/Client/Relays/Collect.antt =====
-- `get_all_relay_transactions` and `get_events_by_transaction` of client/dioxclient.py, which list the
-- relayed transactions.
pub mod Kids
pub mod Listed
use dioxide_python.Prelude.{
  ℕ, zero, suc, Bool, true, false, Option, none, some, List, [], ◌∷◌, ◌++◌, if◌then◌else◌,
}
use dioxide_python.Prelude.Result.{Result, ok, err, type_error, out_of_fuel}
use dioxide_python.Text.{codes}
use dioxide_python.Text.Case.{Unicode}
use dioxide_python.Gcl.Value.{Value, Entries, str, dict}
use dioxide_python.Message.Filters.{call_find}
use dioxide_python.Client.{raised, Run, ◌>>=◌, return, lift, Service}
use dioxide_python.Client.Relays.{
  normalize_relay_hash, get_of, relays_of, get_transaction, is_tx_confirmed_with_relays,
}

module _ {ℓ} {W : Type ℓ} (unicode : Unicode) (service : Service W) where
  -- `self.get_transaction(normalized_h) if detail is True else h`
  detail_of : Bool → Value → Value → Run W Value
  unfolding get_transaction
  detail_of false h normalized = return h
  detail_of true h normalized = do
    tx ← get_transaction unicode service normalized none
    return (dict tx)

  -- The inner loop of `get_all_relay_transactions`, over the relays of one transaction; each relay
  -- is asked for once for the queue, and once more for its details.
  unfoldable pub collect_relays :
      Bool → List Value → List Entries → List Value → Run W (List Entries × List Value)
  unfolding detail_of get_transaction normalize_relay_hash
  collect_relays detail [] q res = return (q, res)
  collect_relays detail (h ∷ hs) q res = do
    normalized ← lift (normalize_relay_hash unicode h)
    seen ← detail_of detail h normalized
    next ← get_transaction unicode service normalized none
    collect_relays detail hs (q ++ (next ∷ [])) (res ++ (seen ∷ []))

  unfoldable pub collect : Bool → ℕ → List Entries → List Value → Run W (List Value)
  unfolding collect_relays relays_of
  collect detail fuel [] res = return res
  collect detail zero (tx ∷ q) res = λ w. (raised out_of_fuel, w)
  collect detail (suc fuel) (tx ∷ q) res = do
    relays ← relays_of service tx
    (q', res') ← collect_relays detail relays q res
    collect detail fuel q' res'

  collect_if : Bool → Bool → ℕ → Entries → Run W (Option (List Value))
  unfolding collect
  collect_if false detail fuel tx = return none
  collect_if true detail fuel tx = do res ← collect detail fuel (tx ∷ []) []; return (some res)

  -- `get_all_relay_transactions(tx,detail)`
  unfoldable pub get_all_relay_transactions : ℕ → Bool → Entries → Run W (Option (List Value))
  unfolding is_tx_confirmed_with_relays collect_if
  get_all_relay_transactions fuel detail tx = do
    confirmed ← is_tx_confirmed_with_relays unicode service fuel tx
    collect_if confirmed detail fuel tx

  -- The relays whose mode is external.
  unfoldable pub external_relays : List Value → Result (List Value)
  unfolding get_of call_find
  external_relays [] = ok []
  external_relays (relay ∷ relays) = elim (get_of service (codes "Mode") (str []) relay) [
    | err e ↦ err e
    | ok mode ↦ elim (call_find (codes "TMF_EXTERNAL") mode) [
      | err e ↦ err e
      | ok hit ↦ elim (external_relays relays) [
        | err e ↦ err e
        | ok rest ↦ ok (if hit then relay ∷ rest else rest)
      ]
    ]
  ]

  -- `get_events_by_transaction(txhash)`; where the transaction is not confirmed there is no list
  -- of relays to go through, which raises TypeError.
  unfoldable pub get_events_by_transaction : ℕ → Value → Run W (List Value)
  unfolding get_transaction get_all_relay_transactions external_relays
  get_events_by_transaction fuel txhash = do
    tx ← get_transaction unicode service txhash none
    relays ← get_all_relay_transactions fuel true tx
    elim relays [ none ↦ lift (err type_error) | some rs ↦ lift (external_relays rs) ]
