-- ===== src/Message/Handlers/Agree.antt =====
-- The handlers of client/handlers.py pass states on for exactly the
-- messages that the filter beside it lets through.
use dioxide_python.Prelude.{
  Bool, true, false, ◌||◌, List, [], ◌∷◌, ◌++◌, ◌≡◌, refl, sym, ap, ◌∙◌, Option, none, some, All,
  arith, if◌then◌else◌, Bool-cases, inl, inr,
}
use dioxide_python.Prelude.Result.{Result, ok, ◌>>=◌, >>=-eq-ok}
use dioxide_python.Text.{Text}
use dioxide_python.Gcl.Value.{
  Value, Entries, null, bool, int, float, str, bytes, list, dict, nil, cons, from_list,
}
use dioxide_python.Gcl.Dict.{get}
use dioxide_python.Message.{all_state_msg_key_name, or_default, states_of, iterate, call_get}
use dioxide_python.Message.Filters.{
  any_in, any_state, dapp_filter, contract_filter, scopekey_filter, contract_and_scopekey_filter,
  contract_and_statekey_filter,
}
use dioxide_python.Message.Handlers.{}
use dioxide_python.Message.Subscriptions.{
  StateSubscription, with_dapp, with_contract, with_scopekey, with_contract_and_scopekey,
  with_contract_and_statekey, subscribed_filter, subscribed_handler, deliver,
}
use dioxide_python.Message.Handlers.Scan.{is_hit, passing, or_nil, kept, cleared, Decided, Scanned}
use dioxide_python.Message.Handlers.Kept.{}
use dioxide_python.Message.Handlers.Selection.{IsSelection, subscribed_handler-IsSelection}

-- Some key of the message has a state.
abbrev is_nonempty : Option Value → Bool
is_nonempty (some (list (cons _ _))) = true
is_nonempty _ = false

unfoldable pub has_states : List Text → Entries → Bool
unfolding get
has_states [] m = false
has_states (x ∷ xs) m = is_nonempty (get (str x) m) || has_states xs m

abbrev some_of : List Value → Bool
some_of [] = false
some_of (_ ∷ _) = true

any_in_lem :
    (test : Value → Result Bool) (ss : List Value)
    → Decided test ss
    → any_in test ss ≡ ok (some_of (passing test ss))
unfolding any_in
any_in_lem test [] d = refl
any_in_lem test (s ∷ ss) (d, ds) = elim (Bool-cases (is_hit (test s))) [
  | inl e ↦ rw (d, e) refl
  | inr e ↦ rw (d, e) (any_in_lem test ss ds)
]

-- Whether a state under `x` passes.
abbrev passes_at : (Value → Result Bool) → Entries → Text → Bool
passes_at test r x = some_of (passing test (or_nil (states_of x (dict r))))

abbrev passes_at_any : (Value → Result Bool) → Entries → List Text → Bool
passes_at_any test r [] = false
passes_at_any test r (x ∷ xs) = passes_at test r x || passes_at_any test r xs

any_state_lem :
    (test : Value → Result Bool) (r : Entries) (xs : List Text)
    → All (Scanned test r) xs
    → any_state test xs (dict r) ≡ ok (passes_at_any test r xs)
unfolding any_state
any_state_lem test r [] h = refl
any_state_lem test r (x ∷ xs) ((e, d), h) =
    rw (e, any_in_lem test _ d, any_state_lem test r xs h) (or_ok (passes_at test r x) _)
  where
    or_ok : (a b : Bool) → (if a then ok true else ok b) ≡ ok (a || b)
    or_ok true b = refl
    or_ok false b = refl

passes_at_lem :
    (test : Value → Result Bool) (r : Entries) (x : Text)
    → is_nonempty (kept test (get (str x) r)) ≡ passes_at test r x
unfolding states_of call_get iterate from_list
passes_at_lem test r x = of (get (str x) r)
  where
    listed : (vs : List Value) → is_nonempty (some (list (from_list vs))) ≡ some_of vs
    listed [] = refl
    listed (_ ∷ _) = refl

    of :
        (o : Option Value)
        → is_nonempty (kept test o)
          ≡ some_of (passing test (or_nil (iterate (or_default (list nil) o))))
    of none = refl
    of (some v) = listed (passing test (or_nil (iterate v)))

has_states_lem :
    (test : Value → Result Bool) (r m : Entries) (xs : List Text)
    → All (λ x. get (str x) m ≡ kept test (get (str x) r)) xs
    → has_states xs m ≡ passes_at_any test r xs
unfolding has_states
has_states_lem test r m [] h = refl
has_states_lem test r m (x ∷ xs) (e, h) =
    rw (e, passes_at_lem test r x, has_states_lem test r m xs h)

cleared-empty : (o : Option Value) → is_nonempty (cleared o) ≡ false
cleared-empty none = refl
cleared-empty (some null) = refl
cleared-empty (some (bool _)) = refl
cleared-empty (some (int _)) = refl
cleared-empty (some (float _)) = refl
cleared-empty (some (str _)) = refl
cleared-empty (some (bytes _)) = refl
cleared-empty (some (list _)) = refl
cleared-empty (some (dict _)) = refl

has_states-dropped :
    (r m : Entries) (xs : List Text)
    → All (λ x. get (str x) m ≡ cleared (get (str x) r)) xs
    → has_states xs m ≡ false
unfolding has_states
has_states-dropped r m [] h = refl
has_states-dropped r m (x ∷ xs) (e, h) =
    rw (e, cleared-empty (get (str x) r), has_states-dropped r m xs h)

has_states-append :
    (m : Entries) (xs ys : List Text)
    → has_states (xs ++ ys) m ≡ (has_states xs m || has_states ys m)
unfolding has_states
has_states-append m [] ys = refl
has_states-append m (x ∷ xs) ys = let rest = has_states-append m xs ys in ground arith

-- The filter finds a state where the handler left one.
finds :
    (test : Value → Result Bool) (xs ys : List Text) (r m : Entries)
    → IsSelection test xs ys r m
    → any_state test xs (dict r) ≡ ok (has_states (xs ++ ys) m)
finds test xs ys r m h =
    any_state_lem test r xs h.decided
    ∙ ap ok (
        sym (has_states_lem test r m xs h.selected)
        ∙ sym (or_false (has_states xs m))
        ∙ ap (λ b. has_states xs m || b) (sym (has_states-dropped r m ys h.dropped))
        ∙ sym (has_states-append m xs ys))
  where
    or_false : (a : Bool) → (a || false) ≡ a
    or_false true = refl
    or_false false = refl

-- If the handler of a subscription returns for a message, the filter beside it returns too, and
-- lets the message through exactly if the handler leaves some state in it.
pub subscribed_filter-has_states :
    (s : StateSubscription) (r m : Entries)
    → subscribed_handler s (dict r) ≡ ok m
    → subscribed_filter s (dict r) ≡ ok (has_states all_state_msg_key_name m)
unfolding subscribed_filter dapp_filter contract_filter scopekey_filter contract_and_scopekey_filter
    contract_and_statekey_filter
subscribed_filter-has_states (with_dapp name) r m h =
    finds _ _ [] r m (subscribed_handler-IsSelection (with_dapp name) r m h)
subscribed_filter-has_states (with_contract name) r m h =
    finds _ _ [] r m (subscribed_handler-IsSelection (with_contract name) r m h)
subscribed_filter-has_states (with_scopekey key) r m h =
    finds _ _ _ r m (subscribed_handler-IsSelection (with_scopekey key) r m h)
subscribed_filter-has_states (with_contract_and_scopekey name key) r m h =
    finds _ _ _ r m (subscribed_handler-IsSelection (with_contract_and_scopekey name key) r m h)
subscribed_filter-has_states (with_contract_and_statekey name key) r m h =
    finds _ _ [] r m (subscribed_handler-IsSelection (with_contract_and_statekey name key) r m h)

-- A message that is delivered has a state.
pub deliver-has_states :
    (s : StateSubscription) (r m : Entries)
    → deliver s (dict r) ≡ ok (some m)
    → has_states all_state_msg_key_name m ≡ true
unfolding deliver
deliver-has_states s r m h =
    let (hit, e, h₁) = >>=-eq-ok (subscribed_filter s (dict r)) _ h in after hit e h₁
  where
    after :
        (hit : Bool)
        → subscribed_filter s (dict r) ≡ ok hit
        → (if hit then (subscribed_handler s (dict r) >>= λ m'. ok (some m')) else ok none)
          ≡ ok (some m)
        → has_states all_state_msg_key_name m ≡ true
    after false e h' = cc
    after true e h' =
        let (m', e', h₂) = >>=-eq-ok (subscribed_handler s (dict r)) _ h' in
        let same : m' ≡ m = cc in
        let same_test : ok (has_states all_state_msg_key_name m') ≡ ok true =
          sym (subscribed_filter-has_states s r m' e') ∙ e in
        rw (← same) cc
