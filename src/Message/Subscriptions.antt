-- ===== src/Message/Subscriptions.antt =====
-- The methods `subscribe_state_with_*` of client/dioxclient.py, which put a handler and a filter
-- together, and what the loop of `__subscribe` does with a message.
use dioxide_python.Prelude.{Bool, Option, none, some, if◌then◌else◌}
use dioxide_python.Prelude.Result.{Result, ok, ◌>>=◌}
use dioxide_python.Text.{Text}
use dioxide_python.Gcl.Value.{Value, Entries}
use dioxide_python.Message.Filters.{
  dapp_filter, contract_filter, scopekey_filter, contract_and_scopekey_filter,
  contract_and_statekey_filter,
}
use dioxide_python.Message.Handlers.{
  default_dapp_state_handler, default_contract_state_handler, default_scopekey_state_handler,
  default_contract_scopekey_state_handler, default_contract_statekey_state_handler,
}

-- A call of one of the five methods, with its arguments.
pub data StateSubscription : Type 0 where
  with_dapp with_contract with_scopekey : Text → StateSubscription
  with_contract_and_scopekey with_contract_and_statekey : Text → Text → StateSubscription

unfoldable pub subscribed_filter : StateSubscription → Value → Result Bool
unfolding dapp_filter contract_filter scopekey_filter contract_and_scopekey_filter
    contract_and_statekey_filter
subscribed_filter (with_dapp name) = dapp_filter name
subscribed_filter (with_contract name) = contract_filter name
subscribed_filter (with_scopekey key) = scopekey_filter key
subscribed_filter (with_contract_and_scopekey name key) = contract_and_scopekey_filter name key
subscribed_filter (with_contract_and_statekey name key) = contract_and_statekey_filter name key

unfoldable pub subscribed_handler : StateSubscription → Value → Result Entries
unfolding default_dapp_state_handler default_contract_state_handler default_scopekey_state_handler
    default_contract_scopekey_state_handler default_contract_statekey_state_handler
subscribed_handler (with_dapp name) = default_dapp_state_handler name
subscribed_handler (with_contract name) = default_contract_state_handler name
subscribed_handler (with_scopekey key) = default_scopekey_state_handler key
subscribed_handler (with_contract_and_scopekey name key) =
    default_contract_scopekey_state_handler name key
subscribed_handler (with_contract_and_statekey name key) =
    default_contract_statekey_state_handler name key

-- `if filter(resp): executor.submit(handler,resp)`: the message that reaches the user's handler.
unfoldable pub deliver : StateSubscription → Value → Result (Option Entries)
unfolding subscribed_filter subscribed_handler
deliver subscription resp = do
  hit ← subscribed_filter subscription resp
  if hit then (do m ← subscribed_handler subscription resp; ok (some m)) else ok none
