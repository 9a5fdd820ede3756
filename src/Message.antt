-- ===== src/Message.antt =====
-- The messages of a subscription, dioxide_python_sdk/client/filters.py and client/handlers.py: the
-- keys of client/types.py under which a message lists its states, and what the calls of `get`,
-- `split` and the `for` loops do with a value of any type.
pub mod Filters
pub mod Handlers
pub mod Subscriptions
mod Examples
use dioxide_python.Prelude.{Bool, true, false, Option, none, some, List, [], ◌∷◌, ◌++◌, take}
use dioxide_python.Prelude.Result.{Result, ok, err, ◌>>=◌, type_error, attribute_error, map_result}
use dioxide_python.Prelude.Int.{ℤ, pos}
use dioxide_python.Prelude.{ℕ}
use mathlib.Core.List.{map}
use dioxide_python.Text.{Text, codes, text_eq}
use dioxide_python.Text.Split.{split, join, first_part}
use dioxide_python.Gcl.Value.{
  Value, Values, Entries, null, bool, int, float, str, bytes, list, dict, nil, cons, end, entry,
  to_list, items,
}
use dioxide_python.Gcl.Dict.{get}

abbrev pub keyed_state_msg_key_name : List Text
keyed_state_msg_key_name =
    codes "KeyedScopeStates"
    ∷ codes "GlobalScatteredMaps"
    ∷ codes "ScatteredMapOnShard_CloneScale"
    ∷ codes "ScatteredMapOnShard_SplitScale"
    ∷ []

abbrev pub non_keyed_state_msg_key_name : List Text
non_keyed_state_msg_key_name = codes "GlobalStates" ∷ codes "ShardStates" ∷ []

abbrev pub all_state_msg_key_name : List Text
all_state_msg_key_name = keyed_state_msg_key_name ++ non_keyed_state_msg_key_name

-- `default` where there is no entry
abbrev pub or_default : Value → Option Value → Value
or_default default none = default
or_default default (some v) = v

-- `value.get(key, default)`: only a dict has the method.
unfoldable pub call_get : Value → Text → Value → Result Value
unfolding get
call_get (dict d) key default = ok (or_default default (get (str key) d))
call_get _ key default = err attribute_error

-- `value is None`
abbrev pub is_none : Value → Bool
is_none null = true
is_none _ = false

-- `value == text`
abbrev pub equals : Value → Text → Bool
equals (str s) t = text_eq s t
equals _ t = false

-- `isinstance(value, dict)`
abbrev pub is_dict : Value → Bool
is_dict (dict _) = true
is_dict _ = false

-- `value.split(sep)`: `bytes` have the method, but want a separator of bytes.
unfoldable pub call_split : ℕ → Value → Result (List Text)
unfolding split
call_split sep (str s) = ok (split sep s)
call_split sep (bytes b) = err type_error
call_split sep _ = err attribute_error

-- `for x in value`: the elements of a list, the keys of a dict, the characters of a string.
unfoldable pub iterate : Value → Result (List Value)
unfolding to_list items
iterate (list vs) = ok (to_list vs)
iterate (dict d) = ok (map (λ (e : Value × Value). e.0) (items d))
iterate (str s) = ok (map (λ c. str (c ∷ [])) s)
iterate (bytes b) = ok (map (λ c. int (pos c)) b)
iterate _ = err type_error

-- `r.get(scope, [])`, as a `for` loop goes through it
unfoldable pub states_of : Text → Value → Result (List Value)
unfolding call_get iterate
states_of scope r = do v ← call_get r scope (list nil); iterate v

-- `state["Contract"].split('.')[0] == dapp_name`
unfoldable pub is_of_dapp : Text → Value → Result Bool
unfolding call_split first_part
is_of_dapp dapp_name v = do parts ← call_split b'.' v; ok (text_eq (first_part parts) dapp_name)

-- `".".join(state["Contract"].split(".")[:2]) == dapp_contract_name`
unfoldable pub is_of_contract : Text → Value → Result Bool
unfolding call_split join
is_of_contract dapp_contract_name v = do
  parts ← call_split b'.' v
  ok (text_eq (join (b'.' ∷ []) (take 2 parts)) dapp_contract_name)
