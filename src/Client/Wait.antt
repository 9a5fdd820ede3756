-- ===== src/Client/Wait.antt =====
-- The methods of client/dioxclient.py that ask again until something has happened. A loop has fuel
-- for its rounds, and the walks over relays have fuel of their own.
pub mod Polls
use dioxide_python.Prelude.{
  ℕ, zero, suc, ◌-◌, Bool, true, false, not, ◌&&◌, ◌==◌, ltb, Option, none, some, List, [], ◌∷◌,
  if◌then◌else◌,
}
use dioxide_python.Prelude.Int.{ℤ, pos, negsuc}
use dioxide_python.Prelude.Result.{
  Result, ok, err, type_error, attribute_error, zero_division, out_of_fuel,
}
use dioxide_python.Text.{Text, codes}
use dioxide_python.Text.Case.{Unicode}
use dioxide_python.Gcl.Value.{
  Value, Entries, null, bool, int, float, str, bytes, list, dict, end, entry, as_int,
}
use dioxide_python.Gcl.Dict.{key_eq}
use dioxide_python.Message.{equals, iterate}
use dioxide_python.Message.Filters.{int_at_least}
use dioxide_python.Client.{Outcome, raised, Run, ◌>>=◌, return, lift, Service}
use dioxide_python.Client.Queries.{get_block_number, get_contract_state}
use dioxide_python.Client.Relays.{
  get_transaction, is_tx_confirmed_with_relays, is_tx_success_with_relays,
}
use dioxide_python.Client.Relays.Collect.{get_all_relay_transactions}

-- `time.sleep(1)` and `time.sleep(0.5)`, in nanoseconds
abbrev pub one_second : ℕ
one_second = 1000000000

abbrev pub half_a_second : ℕ
half_a_second = 500000000

-- `v == w`
abbrev pub equals_value : Value → Value → Bool
equals_value v (str t) = equals v t
equals_value v w = key_eq v w

module _ {ℓ} {W : Type ℓ} (service : Service W) where
  -- `if time.time() - start > timeout: return False`, and `time.sleep(1)` before the next round.
  -- A clock that went back is not above the timeout.
  unfoldable pub wait_more : ℕ → ℕ → Run W Bool → Bool → Run W Bool
  wait_more start timeout rest true w = return true w
  wait_more start timeout rest false w =
      if ltb timeout (service.time w - start)
      then return false w
      else rest (service.sleep one_second w)

  -- The loop `while not check()`.
  unfoldable pub poll : Run W Bool → ℕ → ℕ → ℕ → Run W Bool
  unfolding wait_more
  poll check start timeout zero = λ w. (raised out_of_fuel, w)
  poll check start timeout (suc fuel) =
      let rest = poll check start timeout fuel in
      check >>= λ found. wait_more start timeout rest found

  -- The attribute of what may be a Box.
  unfoldable pub attribute_of : Text → Value → Result Value
  attribute_of key (dict d) = service.attribute key d
  attribute_of key _ = err attribute_error

  -- `for relay in relays: if relay.Function == 'core.coin.address.deposit': return False`
  unfoldable pub no_deposit : List Value → Result Bool
  unfolding attribute_of
  no_deposit [] = ok true
  no_deposit (relay ∷ relays) =
      let rest = no_deposit relays in
      elim (attribute_of (codes "Function") relay) [
        | err e ↦ err e
        | ok f ↦ if equals f (codes "core.coin.address.deposit") then ok false else rest
      ]

module _ {ℓ} {W : Type ℓ} (unicode : Unicode) (service : Service W) where
  -- `wait_for_transaction_confirmed(tx_hash,timeout)`
  unfoldable pub wait_for_transaction_confirmed : ℕ → ℕ → Value → ℕ → Run W Bool
  unfolding get_transaction poll is_tx_confirmed_with_relays
  wait_for_transaction_confirmed rounds fuel tx_hash timeout w =
      let start = service.time w in
      (get_transaction unicode service tx_hash none >>= λ tx.
      poll service (is_tx_confirmed_with_relays unicode service fuel tx) start timeout rounds)
        w

  -- What follows where the transaction and its relays succeeded.
  deposits_of : ℕ → Entries → Bool → Run W Bool
  unfolding get_all_relay_transactions no_deposit
  deposits_of fuel tx false = return false
  deposits_of fuel tx true = do
    relays ← get_all_relay_transactions unicode service fuel true tx
    elim relays [ none ↦ lift (err type_error) | some rs ↦ lift (no_deposit service rs) ]

  -- What follows where the transaction is confirmed.
  deployed : ℕ → Value → Bool → Run W Bool
  unfolding deposits_of get_transaction is_tx_success_with_relays
  deployed fuel tx_hash false = return false
  deployed fuel tx_hash true = do
    tx ← get_transaction unicode service tx_hash none
    success ← is_tx_success_with_relays unicode service fuel tx
    deposits_of fuel tx success

  -- `wait_for_dapp_deployed(tx_hash,timeout)`
  unfoldable pub wait_for_dapp_deployed : ℕ → ℕ → Value → ℕ → Run W Bool
  unfolding wait_for_transaction_confirmed deployed
  wait_for_dapp_deployed rounds fuel tx_hash timeout = do
    confirmed ← wait_for_transaction_confirmed rounds fuel tx_hash timeout
    deployed fuel tx_hash confirmed

  -- `wait_for_token_deployed(tx_hash,timeout)`, which is the same
  unfoldable pub wait_for_token_deployed : ℕ → ℕ → Value → ℕ → Run W Bool
  unfolding wait_for_transaction_confirmed deployed
  wait_for_token_deployed rounds fuel tx_hash timeout = do
    confirmed ← wait_for_transaction_confirmed rounds fuel tx_hash timeout
    deployed fuel tx_hash confirmed

  -- `for s in state.Scheduled`: the target height of the first build with the hash.
  unfoldable pub target_of : Value → ℤ → List Value → Result Value
  unfolding attribute_of key_eq
  target_of deploy_hash height [] = ok (int height)
  target_of deploy_hash height (s ∷ ss) =
      let rest = target_of deploy_hash height ss in
      elim (attribute_of service (codes "BuildKey") s) [
        | err e ↦ err e
        | ok key ↦
            if equals_value key deploy_hash
            then attribute_of service (codes "TargetHeight") s
            else rest
      ]

  -- `if state is not None and state != {}`
  unfoldable pub scheduled_target : Value → Value → Result Value
  unfolding target_of attribute_of iterate
  scheduled_target deploy_hash null = ok (int (negsuc 0))
  scheduled_target deploy_hash (dict end) = ok (int (negsuc 0))
  scheduled_target deploy_hash state = elim (attribute_of service (codes "Scheduled") state) [
    | err e ↦ err e
    | ok scheduled ↦ elim (iterate scheduled) [
      | err e ↦ err e
      | ok ss ↦ target_of deploy_hash (negsuc 0) ss
    ]
  ]

  int_or_type_error : Option ℤ → Result ℤ
  int_or_type_error none = err type_error
  int_or_type_error (some z) = ok z

  -- `while cur_height <= target_height`. The bar divides by `target_height-base`.
  unfoldable pub deploy_loop : ℕ → ℤ → ℤ → ℤ → Run W (Unit {0})
  unfolding get_block_number int_at_least
  deploy_loop zero base target cur = λ w. (raised out_of_fuel, w)
  deploy_loop (suc rounds) base target cur =
      let rest =
        λ (next : ℤ) (w : W). deploy_loop rounds base target next (service.sleep half_a_second w) in
      if not (int_at_least target cur)
      then return tt
      else if int_at_least base target && int_at_least target base
      then lift (err zero_division)
      else (get_block_number unicode service >>= rest)

  -- `wait_for_deploy(deploy_hash)`, of target heights that are ints
  unfoldable pub wait_for_deploy : ℕ → Value → Run W (Unit {0})
  unfolding get_contract_state scheduled_target deploy_loop get_block_number as_int
      int_or_type_error
  wait_for_deploy rounds deploy_hash = do
    contracts ←
        get_contract_state unicode service (codes "core") (codes "contracts") 0 (codes "global")
          null
    state ← lift (service.attribute (codes "State") contracts)
    target ← lift (scheduled_target deploy_hash state)
    target_height ← lift (int_or_type_error (as_int target))
    base ← get_block_number unicode service
    deploy_loop rounds base target_height base
