-- ===== src/Message/Examples.antt =====
-- A message with states of two contracts, and the filters and handlers on it.
use dioxide_python.Prelude.{◌≡◌, refl, true, false, [], ◌∷◌, some, ◌++◌}
use dioxide_python.Prelude.Result.{ok, err, type_error}
use dioxide_python.Prelude.Int.{pos}
use dioxide_python.Text.{Text, codes}
use dioxide_python.Gcl.Value.{Value, Entries, null, int, str, list, dict, nil, cons, end, entry}
use dioxide_python.Message.{all_state_msg_key_name}
use dioxide_python.Message.Filters.{
  contract_filter, contract_and_scopekey_filter, contract_and_statekey_filter, height_filter,
  external_relay_filter, dapp_test,
}
use dioxide_python.Message.Subscriptions.{
  with_dapp, with_scopekey, subscribed_filter, subscribed_handler, deliver,
}
use dioxide_python.Message.Handlers.Selection.{IsSelection, subscribed_handler-IsSelection}
use dioxide_python.Message.Handlers.Agree.{has_states, subscribed_filter-has_states}

abbrev field : Text → Value → Entries → Entries
field k v d = entry (str k) v d

-- A state of the contract `bank.vault`, at the key `alice`.
abbrev vault : Value
vault = dict (
    field (codes "Contract") (str (codes "bank.vault.address")) (
      field (codes "Key") (str (codes "alice"))
        (field (codes "State") (dict (field (codes "Balance") (int (pos 5)) end)) end)))

abbrev shop : Value
shop = dict (field (codes "Contract") (str (codes "market.shop")) (field (codes "State") null end))

abbrev message : Entries
message = field (codes "Height") (int (pos 7)) (
    field (codes "KeyedScopeStates") (list (cons shop (cons vault nil)))
      (field (codes "GlobalStates") (list (cons shop nil)) end))

-- What is left for the dapp `bank`.
abbrev of_bank : Entries
of_bank = field (codes "Height") (int (pos 7)) (
    field (codes "KeyedScopeStates") (list (cons vault nil))
      (field (codes "GlobalStates") (list nil) end))

bank_handled : subscribed_handler (with_dapp (codes "bank")) (dict message) ≡ ok of_bank
unfolding subscribed_handler
bank_handled = refl

bank_delivered : deliver (with_dapp (codes "bank")) (dict message) ≡ ok (some of_bank)
unfolding deliver
bank_delivered = refl

alice_handled : subscribed_handler (with_scopekey (codes "alice")) (dict message) ≡ ok of_bank
unfolding subscribed_handler
alice_handled = refl

-- The handler raises where the value at a key is `None`, which has no elements.
no_states :
    subscribed_handler (with_dapp (codes "bank")) (dict (field (codes "GlobalStates") null end))
    ≡ err type_error
unfolding subscribed_handler
no_states = refl

statekey_found :
    contract_and_statekey_filter (codes "bank.vault") (codes "Balance") (dict message) ≡ ok true
unfolding contract_and_statekey_filter
statekey_found = refl

heights :
    (height_filter (pos 7) (pos 8) (dict message) ≡ ok true)
    × (height_filter (pos 0) (pos 7) (dict message) ≡ ok false)
    × (height_filter (pos 0) (pos 7) (dict of_bank) ≡ ok false)
unfolding height_filter
heights = (refl, refl, refl)

abbrev relay : Entries
relay =
    field (codes "Mode") (str (codes "TMF_RELAY|TMF_EXTERNAL"))
      (field (codes "Target") (str (codes "oracle:name")) end)

relays :
    (external_relay_filter null (dict relay) ≡ ok true)
    × (external_relay_filter (str (codes "oracle")) (dict relay) ≡ ok true)
    × (external_relay_filter (list (cons (str (codes "other")) nil)) (dict relay) ≡ ok false)
    × (external_relay_filter (int (pos 3)) (dict relay) ≡ ok false)
    × (external_relay_filter null (dict end) ≡ ok false)
unfolding external_relay_filter
relays = (refl, refl, refl, refl, refl)

subscribed_handler-IsSelection_example :
    IsSelection (dapp_test (codes "bank")) all_state_msg_key_name [] message of_bank
subscribed_handler-IsSelection_example =
    subscribed_handler-IsSelection (with_dapp (codes "bank")) message of_bank bank_handled

subscribed_filter-has_states_example :
    subscribed_filter (with_scopekey (codes "alice")) (dict message)
    ≡ ok (has_states all_state_msg_key_name of_bank)
subscribed_filter-has_states_example =
    subscribed_filter-has_states (with_scopekey (codes "alice")) message of_bank alice_handled

vault_found : contract_filter (codes "bank" ++ (b'.' ∷ codes "vault")) (dict message) ≡ ok true
unfolding contract_filter
vault_found = refl

alice_found :
    contract_and_scopekey_filter (codes "bank.vault") (codes "alice") (dict message) ≡ ok true
unfolding contract_and_scopekey_filter
alice_found = refl
