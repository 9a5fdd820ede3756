-- ===== src/Client/Interface.antt =====
-- What client/dioxclient.py takes out of a contract's description: the function of a name, and the
-- signature of its parameters.
use dioxide_python.Prelude.{Option, none, some, List, [], ◌∷◌, ◌++◌, if◌then◌else◌}
use dioxide_python.Prelude.Result.{Result, ok, ◌>>=◌}
use dioxide_python.Text.{Text, codes}
use dioxide_python.Text.Split.{join}
use dioxide_python.Gcl.Value.{Value, Entries, null, str, dict}
use dioxide_python.Message.{equals, iterate}
use dioxide_python.Client.{Service}

-- `str(value)` of a value that is no string.
abbrev pub Printed : Type 0
Printed = Value → Text

-- `f"{value}"`
abbrev pub formatted : Printed → Value → Text
formatted printed (str t) = t
formatted printed v = printed v

module _ {ℓ} {W : Type ℓ} (printed : Printed) (service : Service W) where
  -- `func.get("Name") if isinstance(func, dict) else getattr(func, "Name", None)`: only what is a
  -- dict has a name.
  name_of : Value → Result Value
  name_of (dict d) = service.box_get (codes "Name") null d
  name_of _ = ok null

  dict_or_none : Value → Option Entries
  dict_or_none (dict d) = some d
  dict_or_none _ = none

  -- `for func in functions`, up to the first with the name
  unfoldable pub find_function : Text → List Value → Result (Option Entries)
  unfolding name_of dict_or_none
  find_function function_name [] = ok none
  find_function function_name (func ∷ funcs) =
      let rest = find_function function_name funcs in
      name_of func >>= λ n. if equals n function_name then ok (dict_or_none func) else rest

  -- The function of a contract, by its description.
  unfoldable pub function_of : Text → Entries → Result (Option Entries)
  unfolding find_function iterate
  function_of function_name contract_info = do
    functions ← service.attribute (codes "Functions") contract_info
    funcs ← iterate functions
    find_function function_name funcs

  -- `f"{param_type}:{param_name}"`; what is no dict has neither.
  unfoldable pub param_text_of : Value → Result Text
  param_text_of (dict d) = do
    t ← service.box_get (codes "Type") (str []) d
    n ← service.box_get (codes "Name") (str []) d
    ok (formatted printed t ++ (b':' ∷ formatted printed n))
  param_text_of _ = ok (b':' ∷ [])

  unfoldable pub param_texts : List Value → Result (List Text)
  unfolding param_text_of
  param_texts [] = ok []
  param_texts (p ∷ ps) = do t ← param_text_of p; ts ← param_texts ps; ok (t ∷ ts)

  -- `",".join(sig_parts)`
  unfoldable pub signature_of : Value → Result Text
  unfolding iterate param_texts join
  signature_of params = do ps ← iterate params; ts ← param_texts ps; ok (join (codes ",") ts)
