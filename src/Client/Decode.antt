-- ===== src/Client/Decode.antt =====
-- `decode_transaction_input` of client/dioxclient.py, of a transaction that is a Box, as
-- `get_transaction` returns it. A dict that is none has no attribute `Function`.
pub mod Signature
pub mod RoundTrip
use dioxide_python.Prelude.{
  ℕ, Bool, true, false, not, ◌&&◌, ◌||◌, ◌==◌, leb, Option, none, some, List, [], ◌∷◌, ◌++◌, length,
  if◌then◌else◌,
}
use dioxide_python.Prelude.Int.{pos}
use dioxide_python.Prelude.Result.{Result, ok, err}
use dioxide_python.Text.{Text, codes, text_eq, strip, is_empty}
use dioxide_python.Text.Case.{Unicode}
use dioxide_python.Text.Split.{split, first_part}
use dioxide_python.Gcl.Value.{
  Value, Values, Entries, null, bool, int, float, str, bytes, list, dict, nil, end, entry, truthy,
}
use dioxide_python.Gcl.Dict.{get}
use dioxide_python.Message.{or_default, call_split, is_dict}
use dioxide_python.Args.{deserialized_args}
use dioxide_python.Args.Fallback.{Krock32}
use dioxide_python.Client.{
  Outcome, returned, raised, diox_error, Run, ◌>>=◌, return, lift, fail, Service,
}
use dioxide_python.Client.Queries.{get_contract_info}
use dioxide_python.Client.Send.{code}
use dioxide_python.Client.Interface.{Printed, function_of, signature_of}

-- The empty dict.
abbrev nothing : Value
nothing = dict end

-- `raw.get("Function", "") or ""`, where a Box is printed
unfoldable pub function_value : Printed → Value → Value
unfolding truthy
function_value printed (dict end) = str []
function_value printed (dict d) = str (printed (dict d))
function_value printed v = if truthy v then v else str []

-- `raw.get("Input")`, where an empty Box is None
unfoldable pub input_value : Value → Value
input_value (dict end) = null
input_value v = v

-- `not function or function.strip() == ""`
unfoldable pub is_blank : Value → Bool
unfolding truthy strip
is_blank (str t) = is_empty (strip t)
is_blank v = not (truthy v)

is_text : Value → Bool
is_text (str _) = true
is_text _ = false

-- `not params`
abbrev pub is_false : Value → Bool
is_false v = not (truthy v)

module _ {ℓ} {W : Type ℓ} (unicode : Unicode) (krock32 : Krock32) (printed : Printed)
    (service : Service W) where
  -- The dict that the arguments make.
  unfoldable pub decoded_args : Value → Text → Run W Value
  unfolding deserialized_args
  decoded_args (str t) signature =
      lift (elim (deserialized_args krock32 signature t) [ err e ↦ err e | ok r ↦ ok (dict r.0) ])
  decoded_args _ signature = return nothing

  -- What follows where the function was looked for.
  unfoldable pub decode_with : Value → Option Entries → Run W Value
  unfolding signature_of decoded_args truthy
  decode_with input_data none = fail (code 10003)
  decode_with input_data (some function_info) = do
    params ← lift (service.box_get (codes "Params") (list nil) function_info)
    let by_signature = (do
      signature ← lift (signature_of printed service params)
      decoded_args input_data signature)
    if is_false params then return nothing else by_signature

  -- `except Exception`: without a description of the contract the dict is empty.
  unfoldable pub decode_by : Value → Text → Outcome Entries → Run W Value
  unfolding function_of decode_with
  decode_by input_data function_name (returned contract_info) = do
    found ← lift (function_of printed service function_name contract_info)
    decode_with input_data found
  decode_by input_data function_name _ = return nothing

  -- What follows where the function's name is taken apart.
  unfoldable pub decode_parts : Value → List Text → Run W Value
  unfolding get_contract_info decode_by
  decode_parts input_data (dapp_name ∷ contract_name ∷ function_name ∷ []) w =
      let (info, v) = get_contract_info unicode service dapp_name contract_name w in
      decode_by input_data function_name info v
  decode_parts input_data _ w = fail (code 10002) w

  -- `len(parts) >= 2 and parts[0] == "core"`
  unfoldable pub is_core : List Text → Bool
  unfolding first_part
  is_core parts = leb 2 (length parts) && text_eq (first_part parts) (codes "core")

  -- The input of a function of the core is given back as it is, unless it is a string.
  unfoldable pub decode_function : Value → List Text → Run W Value
  unfolding is_core is_text decode_parts
  decode_function input_data parts =
      if is_core parts
      then return (if is_text input_data then nothing else input_data)
      else decode_parts input_data parts

  -- An input that is a dict is decoded already; one that is empty gives the empty dict.
  unfoldable pub decode_input : Value → Value → Run W Value
  unfolding is_blank truthy call_split decode_function
  decode_input function input_data =
      let by_parts = (do
        parts ← lift (call_split b'.' function)
        decode_function input_data parts) in
      if is_blank function
      then return nothing
      else if is_dict input_data
      then return input_data
      else if is_false input_data
      then return nothing
      else by_parts

  -- `decode_transaction_input(tx)`
  unfoldable pub decode_transaction_input : Entries → Run W Value
  unfolding get function_value input_value decode_input
  decode_transaction_input tx =
      decode_input (function_value printed (or_default (str []) (get (str (codes "Function")) tx)))
        (input_value (or_default null (get (str (codes "Input")) tx)))
