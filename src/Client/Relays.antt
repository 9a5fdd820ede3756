-- ===== src/Client/Relays.antt =====
-- Transactions and their relays: `get_transaction`, the tests on a transaction, and the walks over
-- the relayed transactions, which take them from a queue.
pub mod Walk
pub mod Collect
pub mod Confirmed
use dioxide_python.Prelude.{
  ℕ, zero, suc, ◌+◌, Bool, true, false, not, Option, none, some, List, [], ◌∷◌, ◌++◌, take, drop,
  if◌then◌else◌,
}
use dioxide_python.Prelude.Result.{Result, ok, err, Error, type_error, attribute_error, out_of_fuel}
use dioxide_python.Prelude.Int.{pos}
use dioxide_python.Text.{Text, codes, find, rfind}
use dioxide_python.Text.Case.{Unicode, is_digits, int_from}
use dioxide_python.Gcl.Value.{Value, Values, Entries, null, int, str, list, dict, nil, end, entry}
use dioxide_python.Gcl.Dict.{put}
use dioxide_python.Message.{is_none, equals, iterate}
use dioxide_python.Message.Filters.{call_find}
use dioxide_python.Client.{
  Outcome, returned, raised, Run, ◌>>=◌, return, lift, Service, call_in, make_request,
}

-- `TXN_CONFIRMED_STATUS`
abbrev pub txn_confirmed_status : List Text
txn_confirmed_status = codes "TXN_ARCHIVED" ∷ codes "TXN_CONFIRMED" ∷ codes "TXN_FINALIZED" ∷ []

-- `value in texts`
abbrev pub is_one_of : Value → List Text → Bool
is_one_of v [] = false
is_one_of v (t ∷ ts) = let rest = is_one_of v ts in if equals v t then true else rest

module _ (unicode : Unicode) where
  -- A digit suffix is the shard, unless one was given.
  shard_of : Text → Text → Value → Option Value → Result (Value × Option Value)
  unfolding is_digits int_from
  shard_of base suffix hash (some shard) =
      ok (if is_digits unicode suffix then (str base, some shard) else (hash, some shard))
  shard_of base suffix hash none =
      if is_digits unicode suffix
      then elim (int_from unicode 0 suffix) [
        | err e ↦ err e
        | ok n ↦ ok (str base, some (int (pos n)))
      ]
      else ok (hash, none)

  -- The two sides of the first colon, `hash.split(":", 1)`.
  at_first_colon : Text → Option Value → Option ℕ → Result (Value × Option Value)
  unfolding shard_of
  at_first_colon t shard none = ok (str t, shard)
  at_first_colon t shard (some i) = shard_of (take i t) (drop (i + 1) t) (str t) shard

  -- The hash and the shard that `get_transaction` asks for.
  unfoldable pub hash_and_shard : Value → Option Value → Bool → Result (Value × Option Value)
  unfolding at_first_colon find
  hash_and_shard hash shard false = ok (hash, shard)
  hash_and_shard (str t) shard true = at_first_colon t shard (find b':' t)
  hash_and_shard _ shard true = err attribute_error

  -- The two sides of the last colon, `relay_hash.rsplit(':', 1)`.
  at_last_colon : Text → Option ℕ → Value
  unfolding is_digits
  at_last_colon t none = str t
  at_last_colon t (some i) = if is_digits unicode (drop (i + 1) t) then str (take i t) else str t

  without_shard : Value → Bool → Result Value
  unfolding at_last_colon rfind
  without_shard hash false = ok hash
  without_shard (str t) true = ok (at_last_colon t (rfind b':' t))
  without_shard _ true = err attribute_error

  -- `_normalize_relay_hash(relay_hash)`
  unfoldable pub normalize_relay_hash : Value → Result Value
  unfolding without_shard call_in
  normalize_relay_hash hash = elim (call_in (codes ":") hash) [
    | err e ↦ err e
    | ok has_colon ↦ without_shard hash has_colon
  ]

module _ {ℓ} {W : Type ℓ} (service : Service W) where
  -- `value.get(key, default)` of what a Box holds
  unfoldable pub get_of : Text → Value → Value → Result Value
  get_of key default (dict d) = service.box_get key default d
  get_of key default _ = err attribute_error

  -- `is_tx_confirmed(tx)`
  unfoldable pub is_tx_confirmed : Option Entries → Result Bool
  is_tx_confirmed none = ok false
  is_tx_confirmed (some tx) = elim (service.box_get (codes "ConfirmState") null tx) [
    | err e ↦ err e
    | ok state ↦
        if is_none state then ok false else elim (service.attribute (codes "ConfirmState") tx) [
          | err e ↦ err e
          | ok s ↦ ok (is_one_of s txn_confirmed_status)
        ]
  ]

  -- The status of an invocation that is not None.
  succeeded : Value → Result Bool
  unfolding get_of
  succeeded invocation = elim (get_of (codes "Status") null invocation) [
    | err e ↦ err e
    | ok status ↦ ok (equals status (codes "IVKRET_SUCCESS"))
  ]

  -- `is_tx_success(tx)`
  unfoldable pub is_tx_success : Option Entries → Result Bool
  unfolding succeeded
  is_tx_success none = ok false
  is_tx_success (some tx) = elim (service.box_get (codes "Invocation") null tx) [
    | err e ↦ err e
    | ok invocation ↦ if is_none invocation then ok false else succeeded invocation
  ]

  -- `tx.Invocation.get("Relays",[])`, as a `for` loop goes through it
  unfoldable pub relays_of : Entries → Run W (List Value)
  unfolding get_of iterate
  relays_of tx = do
    invocation ← lift (service.attribute (codes "Invocation") tx)
    relays ← lift (get_of (codes "Relays") (list nil) invocation)
    lift (iterate relays)

module _ {ℓ} {W : Type ℓ} (unicode : Unicode) (service : Service W) where
  transaction_params : Value → Option Value → Entries
  unfolding put
  transaction_params hash none = put (str (codes "hash")) hash end
  transaction_params hash (some shard) =
      put (str (codes "shard_index")) shard (put (str (codes "hash")) hash end)

  -- `get_transaction(hash,shard_index)`
  unfoldable pub get_transaction : Value → Option Value → Run W Entries
  unfolding call_in hash_and_shard transaction_params make_request
  get_transaction hash shard_index = do
    has_colon ← lift (call_in (codes ":") hash)
    (tx_hash, tx_shard) ← lift (hash_and_shard unicode hash shard_index has_colon)
    response ← make_request service (codes "dx.transaction") (transaction_params tx_hash tx_shard)
    lift (service.box response)

  -- `for relay_tx_hash in relays: q.put(self._normalize_relay_hash(relay_tx_hash))`
  unfoldable pub normalize_all : List Value → Result (List Value)
  unfolding normalize_relay_hash
  normalize_all [] = ok []
  normalize_all (h ∷ hs) = elim (normalize_relay_hash unicode h) [
    | err e ↦ err e
    | ok n ↦ elim (normalize_all hs) [ err e ↦ err e | ok ns ↦ ok (n ∷ ns) ]
  ]

  -- The relays of a transaction that passes the test.
  unfoldable pub relayed : Bool → Entries → Run W (Option (List Value))
  unfolding relays_of normalize_all
  relayed false cur_tx = return none
  relayed true cur_tx = do
    relays ← relays_of service cur_tx
    hashes ← lift (normalize_all relays)
    return (some hashes)

  -- One round of a walk: the hashes to be put into the queue, or `none` where the test fails.
  unfoldable pub visit : (Option Entries → Result Bool) → Value → Run W (Option (List Value))
  unfolding get_transaction relayed
  visit test hash = do
    cur_tx ← get_transaction hash none
    passes ← lift (test (some cur_tx))
    relayed passes cur_tx

  -- `while not q.empty()`
  unfoldable pub walk : (Option Entries → Result Bool) → ℕ → List Value → Run W Bool
  unfolding visit
  walk test fuel [] = return true
  walk test zero (hash ∷ q) = λ w. (raised out_of_fuel, w)
  walk test (suc fuel) (hash ∷ q) = do
    found ← visit test hash
    elim found [ none ↦ return false | some hashes ↦ walk test fuel (q ++ hashes) ]

  unfoldable pub is_tx_confirmed_with_relays : ℕ → Entries → Run W Bool
  unfolding walk is_tx_confirmed
  is_tx_confirmed_with_relays fuel tx = do
    hash ← lift (service.attribute (codes "Hash") tx)
    walk (is_tx_confirmed service) fuel (hash ∷ [])

  unfoldable pub is_tx_success_with_relays : ℕ → Entries → Run W Bool
  unfolding walk is_tx_success
  is_tx_success_with_relays fuel tx = do
    hash ← lift (service.attribute (codes "Hash") tx)
    walk (is_tx_success service) fuel (hash ∷ [])
