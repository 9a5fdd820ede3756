-- ===== src/Message/Filters.antt =====
-- client/filters.py: the tests on a state, the loops that look for a state that passes, and the
-- filters.
pub mod Narrow
use dioxide_python.Prelude.{
  Bool, true, false, not, List, [], ◌∷◌, ◌^◌, ◌*◌, ◌+◌, ◌-◌, ◌/◌, ◌%◌, ◌==◌, ℕ, ltb, leb,
  if◌then◌else◌, ◌&&◌, ◌||◌, Option, none, some,
}
use dioxide_python.Prelude.Result.{Result, ok, err, ◌>>=◌, type_error, attribute_error}
use dioxide_python.Prelude.Int.{ℤ, pos, negsuc}
use dioxide_python.Text.{Text, codes, text_eq}
use dioxide_python.Text.Split.{contains, first_part, split}
use dioxide_python.Gcl.Value.{
  Value, Values, null, bool, int, float, str, bytes, list, dict, nil, as_int, to_list,
}
use dioxide_python.Message.{
  keyed_state_msg_key_name, all_state_msg_key_name, call_get, call_split, is_none, equals, is_dict,
  states_of, is_of_dapp, is_of_contract,
}

-- `state.get(key,None) is not None and test`, where `test` reads `state[key]`
unfoldable pub with_entry : Text → (Value → Result Bool) → Value → Result Bool
unfolding call_get
with_entry key test state = do v ← call_get state key null; if is_none v then ok false else test v

-- The test of `dapp_filter` on a state.
unfoldable pub dapp_test : Text → Value → Result Bool
unfolding with_entry is_of_dapp
dapp_test dapp_name = with_entry (codes "Contract") (is_of_dapp dapp_name)

unfoldable pub contract_test : Text → Value → Result Bool
unfolding with_entry is_of_contract
contract_test dapp_contract_name = with_entry (codes "Contract") (is_of_contract dapp_contract_name)

unfoldable pub scopekey_test : Text → Value → Result Bool
unfolding with_entry
scopekey_test scopekey = with_entry (codes "Key") (λ v. ok (equals v scopekey))

unfoldable pub contract_and_scopekey_test : Text → Text → Value → Result Bool
unfolding scopekey_test contract_test
contract_and_scopekey_test dapp_contract_name scopekey state = do
  key_ok ← scopekey_test scopekey state
  if key_ok then contract_test dapp_contract_name state else ok false

-- `isinstance(state["State"],dict) and state["State"].get(statekey,None) != None`
unfoldable pub has_statekey : Text → Value → Result Bool
unfolding call_get
has_statekey statekey v =
    if is_dict v then (do w ← call_get v statekey null; ok (not (is_none w))) else ok false

unfoldable pub contract_and_statekey_test : Text → Text → Value → Result Bool
unfolding with_entry has_statekey contract_test
contract_and_statekey_test dapp_contract_name statekey state = do
  state_ok ← with_entry (codes "State") (has_statekey statekey) state
  if state_ok then contract_test dapp_contract_name state else ok false

-- The inner loop, which returns at the first state that passes.
unfoldable pub any_in : (Value → Result Bool) → List Value → Result Bool
any_in test [] = ok false
any_in test (state ∷ states) =
    let rest = any_in test states in test state >>= λ hit. if hit then ok true else rest

-- The outer loop, over the keys of the message.
unfoldable pub any_state : (Value → Result Bool) → List Text → Value → Result Bool
unfolding any_in states_of
any_state test [] r = ok false
any_state test (scope ∷ scopes) r =
    let rest = any_state test scopes r in
    states_of scope r >>= λ states. any_in test states >>= λ hit. if hit then ok true else rest

unfoldable pub dapp_filter : Text → Value → Result Bool
unfolding any_state dapp_test
dapp_filter dapp_name r = any_state (dapp_test dapp_name) all_state_msg_key_name r

unfoldable pub contract_filter : Text → Value → Result Bool
unfolding any_state contract_test
contract_filter dapp_contract_name r =
    any_state (contract_test dapp_contract_name) all_state_msg_key_name r

unfoldable pub scopekey_filter : Text → Value → Result Bool
unfolding any_state scopekey_test
scopekey_filter scopekey r = any_state (scopekey_test scopekey) keyed_state_msg_key_name r

unfoldable pub contract_and_scopekey_filter : Text → Text → Value → Result Bool
unfolding any_state contract_and_scopekey_test
contract_and_scopekey_filter dapp_contract_name scopekey r =
    any_state (contract_and_scopekey_test dapp_contract_name scopekey) keyed_state_msg_key_name r

unfoldable pub contract_and_statekey_filter : Text → Text → Value → Result Bool
unfolding any_state contract_and_statekey_test
contract_and_statekey_filter dapp_contract_name statekey r =
    any_state (contract_and_statekey_test dapp_contract_name statekey) all_state_msg_key_name r

-- A finite double times 2 ** 1074, which is an int; its size without the sign.
unfoldable pub scaled_size : ℕ → ℕ
scaled_size bits =
    let exponent = bits / 2 ^ 52 % 2 ^ 11 in
    let fraction = bits % 2 ^ 52 in
    if exponent == 0 then fraction else (2 ^ 52 + fraction) * 2 ^ (exponent - 1)

-- `x >= n` for a float and an int: by its sign, a NaN being above nothing, and infinity above all.
unfoldable pub float_at_least : ℕ → ℤ → Bool
unfolding scaled_size
float_at_least bits n =
    let size = bits % 2 ^ 63 in
    let is_negative = leb (2 ^ 63) bits in
    if ltb (2047 * 2 ^ 52) size
    then false
    else if size == 2047 * 2 ^ 52
    then not is_negative
    else compare is_negative (scaled_size bits) n
  where
    compare : Bool → ℕ → ℤ → Bool
    compare false m (pos k) = leb (k * 2 ^ 1074) m
    compare false m (negsuc k) = true
    compare true m (pos k) = m == 0 && k == 0
    compare true m (negsuc k) = leb m ((k + 1) * 2 ^ 1074)

-- A NaN, which no comparison holds of.
unfoldable pub is_not_a_number : ℕ → Bool
is_not_a_number bits = ltb (2047 * 2 ^ 52) (bits % 2 ^ 63)

unfoldable pub int_at_least : ℤ → ℤ → Bool
int_at_least (pos a) (pos b) = leb b a
int_at_least (pos a) (negsuc b) = true
int_at_least (negsuc a) (pos b) = false
int_at_least (negsuc a) (negsuc b) = leb a b

-- `value >= n`
unfoldable pub at_least : Value → ℤ → Result Bool
unfolding int_at_least as_int float_at_least
at_least (float bits) n = ok (float_at_least bits n)
at_least (int z) n = ok (int_at_least z n)
at_least (bool true) n = ok (int_at_least (pos 1) n)
at_least (bool false) n = ok (int_at_least (pos 0) n)
at_least _ n = err type_error

-- `value < n`
unfoldable pub below : Value → ℤ → Result Bool
unfolding int_at_least as_int float_at_least is_not_a_number
below (float bits) n = ok (not (is_not_a_number bits) && not (float_at_least bits n))
below (int z) n = ok (not (int_at_least z n))
below (bool true) n = ok (not (int_at_least (pos 1) n))
below (bool false) n = ok (not (int_at_least (pos 0) n))
below _ n = err type_error

-- `height_filter(start,end)`, of two ints
unfoldable pub height_filter : ℤ → ℤ → Value → Result Bool
unfolding call_get at_least below
height_filter start stop r = do
  height ← call_get r (codes "Height") null
  if is_none height
      then ok false
      else (do high ← at_least height start; if high then below height stop else ok false)

-- `target_name in external_name`, of a list
unfoldable pub value_in : Text → List Value → Bool
value_in t [] = false
value_in t (v ∷ vs) = equals v t || value_in t vs

-- The name is `None`, a string or a list; for any other value the loop falls through to the end.
unfoldable pub names_target : Value → Text → Bool
unfolding value_in to_list
names_target (str name) target = text_eq target name
names_target (list names) target = value_in target (to_list names)
names_target _ target = false

-- `value.find(part) != -1`
unfoldable pub call_find : Text → Value → Result Bool
unfolding contains
call_find part (str s) = ok (contains part s)
call_find part (bytes b) = err type_error
call_find part _ = err attribute_error

unfoldable pub external_relay_filter : Value → Value → Result Bool
unfolding call_get call_find call_split first_part names_target
external_relay_filter external_name r = do
  mode ← call_get r (codes "Mode") (str [])
  hit ← call_find (codes "TMF_EXTERNAL") mode
  let by_name = (do
    target ← call_get r (codes "Target") (str [])
    parts ← call_split b':' target
    ok (names_target external_name (first_part parts)))
  if not hit then ok false else (if is_none external_name then ok true else by_name)
