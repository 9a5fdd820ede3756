-- ===== src/Message/Handlers.antt =====
-- client/handlers.py: a handler copies the message, empties its lists of states, and appends the
-- states that pass. The result is the message that `to_handler` is called with.
pub mod Scan
pub mod Kept
pub mod Selection
pub mod Agree
use dioxide_python.Prelude.{
  Bool, true, false, not, List, [], ◌∷◌, ◌++◌, ℕ, if◌then◌else◌, Option, none, some,
}
use dioxide_python.Prelude.Result.{Result, ok, err, ◌>>=◌, key_error, attribute_error}
use dioxide_python.Text.{Text}
use dioxide_python.Gcl.Value.{
  Value, Values, Entries, null, str, list, dict, nil, to_list, from_list,
}
use dioxide_python.Gcl.Dict.{get, put}
use dioxide_python.Message.{
  keyed_state_msg_key_name, all_state_msg_key_name, is_none, or_default, states_of,
}
use dioxide_python.Message.Filters.{
  dapp_test, contract_test, scopekey_test, contract_and_scopekey_test, contract_and_statekey_test,
}

-- `if r.get(scope,None) is not None: filtered_msg[scope] = []`
unfoldable pub clear_scope : Entries → Text → Entries → Result Entries
unfolding get put
clear_scope r scope filtered_msg =
    if is_none (or_default null (get (str scope) r))
    then ok filtered_msg
    else ok (put (str scope) (list nil) filtered_msg)

-- `filtered_msg[scope].append(state)`
unfoldable pub append_to : Text → Value → Option Value → Entries → Result Entries
unfolding put to_list from_list
append_to scope state none filtered_msg = err key_error
append_to scope state (some (list vs)) filtered_msg =
    ok (put (str scope) (list (from_list (to_list vs ++ (state ∷ [])))) filtered_msg)
append_to scope state (some _) filtered_msg = err attribute_error

unfoldable pub append_state : Text → Value → Entries → Result Entries
unfolding append_to get
append_state scope state filtered_msg =
    append_to scope state (get (str scope) filtered_msg) filtered_msg

-- The inner loop over the states of one key.
unfoldable pub append_states : (Value → Result Bool) → Text → List Value → Entries → Result Entries
unfolding append_state
append_states test scope [] filtered_msg = ok filtered_msg
append_states test scope (state ∷ states) filtered_msg = do
  hit ← test state
  next ← (if hit then append_state scope state filtered_msg else ok filtered_msg)
  append_states test scope states next

unfoldable pub scan_scope : (Value → Result Bool) → Entries → Text → Entries → Result Entries
unfolding states_of append_states
scan_scope test r scope filtered_msg = do
  states ← states_of scope (dict r)
  append_states test scope states filtered_msg

unfoldable pub clear_and_scan : (Value → Result Bool) → Entries → Text → Entries → Result Entries
unfolding clear_scope scan_scope
clear_and_scan test r scope filtered_msg = do
  cleared ← clear_scope r scope filtered_msg
  scan_scope test r scope cleared

-- The outer loop.
unfoldable pub for_scopes : (Text → Entries → Result Entries) → List Text → Entries → Result Entries
for_scopes step [] filtered_msg = ok filtered_msg
for_scopes step (scope ∷ scopes) filtered_msg = do
  next ← step scope filtered_msg
  for_scopes step scopes next

unfoldable pub default_dapp_state_handler : Text → Value → Result Entries
unfolding clear_and_scan for_scopes dapp_test
default_dapp_state_handler dapp_name (dict r) =
    for_scopes (clear_and_scan (dapp_test dapp_name) r) all_state_msg_key_name r
default_dapp_state_handler dapp_name _ = err attribute_error

unfoldable pub default_contract_state_handler : Text → Value → Result Entries
unfolding clear_and_scan for_scopes contract_test
default_contract_state_handler contract_name (dict r) =
    for_scopes (clear_and_scan (contract_test contract_name) r) all_state_msg_key_name r
default_contract_state_handler contract_name _ = err attribute_error

unfoldable pub default_scopekey_state_handler : Text → Value → Result Entries
unfolding clear_scope scan_scope for_scopes scopekey_test
default_scopekey_state_handler scopekey (dict r) = do
  cleared ← for_scopes (clear_scope r) all_state_msg_key_name r
  for_scopes (scan_scope (scopekey_test scopekey) r) keyed_state_msg_key_name cleared
default_scopekey_state_handler scopekey _ = err attribute_error

unfoldable pub default_contract_scopekey_state_handler : Text → Text → Value → Result Entries
unfolding clear_scope clear_and_scan for_scopes contract_and_scopekey_test
default_contract_scopekey_state_handler contract_name scopekey (dict r) = do
  cleared ← for_scopes (clear_scope r) all_state_msg_key_name r
  for_scopes (clear_and_scan (contract_and_scopekey_test contract_name scopekey) r)
      keyed_state_msg_key_name cleared
default_contract_scopekey_state_handler contract_name scopekey _ = err attribute_error

unfoldable pub default_contract_statekey_state_handler : Text → Text → Value → Result Entries
unfolding clear_and_scan for_scopes contract_and_statekey_test
default_contract_statekey_state_handler contract_name statekey (dict r) =
    for_scopes (clear_and_scan (contract_and_statekey_test contract_name statekey) r)
      all_state_msg_key_name r
default_contract_statekey_state_handler contract_name statekey _ = err attribute_error
