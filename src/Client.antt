-- ===== src/Client.antt =====
-- The client, dioxide_python_sdk/client/dioxclient.py. The node, the clock and the library Box are
-- parameters; a method is a function of the state of the world, which it passes on.
pub mod Methods
pub mod Queries
pub mod Relays
pub mod Wait
pub mod Send
pub mod Deploy
pub mod Interface
pub mod Local
pub mod Decode
pub mod Connections
mod Examples
use dioxide_python.Prelude.{ℕ, Bool, true, false, ◌||◌, Option, none, some, List, [], ◌∷◌}
use dioxide_python.Prelude.Result.{Result, ok, err, Error, type_error, key_error}
use dioxide_python.Prelude.Int.{ℤ, negsuc}
use dioxide_python.Text.{Text, codes}
use dioxide_python.Text.Split.{contains}
use dioxide_python.Gcl.Value.{
  Value, Values, Entries, null, bool, int, float, str, bytes, list, dict, to_list, end, entry,
}
use dioxide_python.Gcl.Dict.{get}
use dioxide_python.Message.{equals, is_none}

-- What a method does: it returns, an exception of Python or of a library is raised, or a DioxError
-- of some code.
pub data Outcome {ℓ} (A : Type ℓ) : Type ℓ where
  returned : A → Outcome A
  raised : Error → Outcome A
  diox_error : Value → Outcome A

-- A method, in a world of type `W`.
abbrev pub Run {ℓ κ} : Type ℓ → Type κ → Type (ℓ ⊔ κ)
Run W A = W → Outcome A × W

-- Python code that raises no DioxError and makes no request.
abbrev pub outcome_of {ℓ} : {A : Type ℓ} → Result A → Outcome A
outcome_of (ok a) = returned a
outcome_of (err e) = raised e

abbrev pub then_do {ℓ κ μ} :
    {W : Type ℓ} {A : Type κ} {B : Type μ} → Outcome A × W → (A → Run W B) → Outcome B × W
then_do (returned a, w) next = next a w
then_do (raised e, w) next = (raised e, w)
then_do (diox_error c, w) next = (diox_error c, w)

infixl 5 ◌>>=◌
unfoldable pub ◌>>=◌ {ℓ κ μ} :
    {W : Type ℓ} {A : Type κ} {B : Type μ} → Run W A → (A → Run W B) → Run W B
m >>= next = λ w. then_do (m w) next

abbrev pub return {ℓ κ} : {W : Type ℓ} {A : Type κ} → A → Run W A
return a = λ w. (returned a, w)

abbrev pub lift {ℓ κ} : {W : Type ℓ} {A : Type κ} → Result A → Run W A
lift r = λ w. (outcome_of r, w)

abbrev pub fail {ℓ κ} : {W : Type ℓ} {A : Type κ} → Value → Run W A
fail code = λ w. (diox_error code, w)

-- The node, the clock in nanoseconds, and the library Box: `request(method, params)` is the JSON
-- value that `HTTPProvide.make_request` returns; `box`, `attribute` and `box_get` are
-- `Box(value, default_box=True)`, `box.key` and `box.get(key, default)`.
pub record Service {ℓ} (W : Type ℓ) : Type ℓ where
  pub request : Text → Entries → W → Result Value × W
  pub time : W → ℕ
  pub sleep : ℕ → W → W
  pub box : Value → Result Entries
  pub attribute : Text → Entries → Result Value
  pub box_get : Text → Value → Entries → Result Value

-- The index of what `in` finds in a list.
any_equals : Text → List Value → Bool
any_equals t [] = false
any_equals t (v ∷ vs) = equals v t || any_equals t vs

has_key : Option Value → Bool
has_key none = false
has_key (some _) = true

-- `text in value`
unfoldable pub call_in : Text → Value → Result Bool
unfolding contains any_equals has_key get to_list
call_in t (str s) = ok (contains t s)
call_in t (dict d) = ok (has_key (get (str t) d))
call_in t (list vs) = ok (any_equals t (to_list vs))
call_in t _ = err type_error

or_key_error : Option Value → Result Value
or_key_error none = err key_error
or_key_error (some v) = ok v

-- `value[key]`, of a string
unfoldable pub item : Text → Value → Result Value
unfolding or_key_error get
item key (dict d) = or_key_error (get (str key) d)
item key _ = err type_error

-- `error_response(response)`: the code of the error, if it is one.
unfoldable pub error_response : Value → Result (Option Value)
unfolding call_in item
error_response response = if_none (is_none response) response
  where
    code_of : Value → Bool → Result (Option Value)
    code_of response false = ok none
    code_of response true = elim (item (codes "ret") response) [
      | err e ↦ err e
      | ok msg ↦ elim (item (codes "err") response) [ err e ↦ err e | ok code ↦ ok (some code) ]
    ]

    if_none : Bool → Value → Result (Option Value)
    if_none true response = ok (some (int (negsuc 0)))
    if_none false response = elim (call_in (codes "err") response) [
      | err e ↦ err e
      | ok found ↦ code_of response found
    ]

module _ {ℓ} {W : Type ℓ} (service : Service W) where
  -- `self.rpc.make_request(method, params)`
  unfoldable pub call : Text → Entries → Run W Value
  call method params w = let (r, w') = service.request method params w in (outcome_of r, w')

  -- What `make_request` does with a response that is an error, or none.
  finish : Value → Option Value → Run W Value
  unfolding item
  finish response none = lift (item (codes "ret") response)
  finish response (some code) = do memo ← lift (item (codes "err") response); fail code

  -- `make_request(method,params)`. The log line of an error reads `response["err"]`, also where
  -- the response is None.
  unfoldable pub make_request : Text → Entries → Run W Value
  unfolding call error_response finish
  make_request method params = do
    response ← call method params
    e ← lift (error_response response)
    finish response e
