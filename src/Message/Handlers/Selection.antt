-- ===== src/Message/Handlers/Selection.antt =====
-- What a handler of client/handlers.py passes on.
use dioxide_python.Prelude.{
  Bool, true, false, List, [], ◌≡◌, refl, ◌∙◌, Option, none, some, All, All-every, All-split, arith,
}
use dioxide_python.Prelude.Result.{Result, ok, >>=-eq-ok}
use dioxide_python.Text.{Text, text_in}
use dioxide_python.Gcl.Value.{Value, Entries, null, bool, int, float, str, bytes, list, dict}
use dioxide_python.Gcl.Dict.{get}
use dioxide_python.Message.{
  keyed_state_msg_key_name, non_keyed_state_msg_key_name, all_state_msg_key_name, is_none,
  or_default,
}
use dioxide_python.Message.Filters.{
  dapp_test, contract_test, scopekey_test, contract_and_scopekey_test, contract_and_statekey_test,
}
use dioxide_python.Message.Handlers.{
  clear_scope, scan_scope, clear_and_scan, for_scopes, default_dapp_state_handler,
  default_contract_state_handler, default_scopekey_state_handler,
  default_contract_scopekey_state_handler, default_contract_statekey_state_handler,
}
use dioxide_python.Message.Subscriptions.{
  StateSubscription, with_dapp, with_contract, with_scopekey, with_contract_and_scopekey,
  with_contract_and_statekey, subscribed_handler,
}
use dioxide_python.Message.Handlers.Scan.{kept, cleared, Scanned, Frame, scan_scope_lem}
use dioxide_python.Message.Handlers.Kept.{
  Untouched, clear_scope_lem, clear_and_scan_lem, for_scopes_lem,
}

-- The test that a subscription makes on a state.
abbrev pub test_of : StateSubscription → Value → Result Bool
test_of (with_dapp name) = dapp_test name
test_of (with_contract name) = contract_test name
test_of (with_scopekey key) = scopekey_test key
test_of (with_contract_and_scopekey name key) = contract_and_scopekey_test name key
test_of (with_contract_and_statekey name key) = contract_and_statekey_test name key

-- The keys whose states it looks through; it empties all the others.
abbrev pub scopes_of : StateSubscription → List Text
scopes_of (with_scopekey key) = keyed_state_msg_key_name
scopes_of (with_contract_and_scopekey name key) = keyed_state_msg_key_name
scopes_of _ = all_state_msg_key_name

abbrev pub emptied_of : StateSubscription → List Text
emptied_of (with_scopekey key) = non_keyed_state_msg_key_name
emptied_of (with_contract_and_scopekey name key) = non_keyed_state_msg_key_name
emptied_of _ = []

-- `m` is `r` with, at each of `scopes`, the states that pass `test`, in order, and none at `rest`.
pub record IsSelection (test : Value → Result Bool) (scopes rest : List Text) (r m : Entries)
    : Type 0 where
  pub selected : All (λ x. get (str x) m ≡ kept test (get (str x) r)) scopes
  pub dropped : All (λ x. get (str x) m ≡ cleared (get (str x) r)) rest
  pub others : (l : Text) → text_in l all_state_msg_key_name ≡ false → get (str l) m ≡ get (str l) r
  pub decided : All (Scanned test r) scopes

-- The handlers with one loop over all keys.
one_loop :
    (test : Value → Result Bool) (r m : Entries)
    → for_scopes (clear_and_scan test r) all_state_msg_key_name r ≡ ok m
    → IsSelection test all_state_msg_key_name [] r m
one_loop test r m h =
    let (outs, dones, frame) =
      for_scopes_lem (clear_and_scan test r) (Untouched r) (λ x. kept test (get (str x) r))
        (Scanned test r) (clear_and_scan_lem test r) all_state_msg_key_name r m refl
        (All-every (λ x. Untouched r x (get (str x) r)) (λ x _. refl) all_state_msg_key_name) h in
    record { selected = outs; dropped = tt; others = frame; decided = dones }

-- The loop that empties all keys.
first_loop :
    (r m : Entries)
    → for_scopes (clear_scope r) all_state_msg_key_name r ≡ ok m
    → All (λ x. get (str x) m ≡ cleared (get (str x) r)) all_state_msg_key_name
      × ((l : Text) → text_in l all_state_msg_key_name ≡ false → get (str l) m ≡ get (str l) r)
first_loop r m h =
    let (outs, _, frame) =
      for_scopes_lem (clear_scope r) (Untouched r) (λ x. cleared (get (str x) r)) (λ x. Unit {0})
        (clear_scope_lem r) all_state_msg_key_name r m refl
        (All-every (λ x. Untouched r x (get (str x) r)) (λ x _. refl) all_state_msg_key_name) h in
    (outs, frame)

-- A round of the second loop, on a copy whose keys are emptied.
abbrev Round : (Value → Result Bool) → Entries → (Text → Entries → Result Entries) → Type 0
Round test r step =
    (x : Text) (f m : Entries)
    → get (str x) f ≡ cleared (get (str x) r)
    → step x f ≡ ok m
    → (get (str x) m ≡ kept test (get (str x) r)) × Scanned test r x × Frame x f m

-- The handlers with a second loop over the keyed scopes.
two_loops :
    (test : Value → Result Bool) (r mid m : Entries) (step : Text → Entries → Result Entries)
    → Round test r step
    → for_scopes (clear_scope r) all_state_msg_key_name r ≡ ok mid
    → for_scopes step keyed_state_msg_key_name mid ≡ ok m
    → IsSelection test keyed_state_msg_key_name non_keyed_state_msg_key_name r m
two_loops test r mid m step round h₁ h₂ =
    let (all, away) = first_loop r mid h₁ in
    let (keyed, rest) =
      All-split (λ x. get (str x) mid ≡ cleared (get (str x) r)) keyed_state_msg_key_name
        non_keyed_state_msg_key_name all in
    let (outs, dones, frame) =
      for_scopes_lem step (λ x o. o ≡ cleared (get (str x) r)) (λ x. kept test (get (str x) r))
        (Scanned test r) round keyed_state_msg_key_name mid m refl keyed h₂ in
    record {
      selected = outs;
      dropped = (frame _ refl ∙ rest.0, (frame _ refl ∙ rest.1.0, tt));
      others = λ l apart. frame l (ground (arith, apart)) ∙ away l apart;
      decided = dones;
    }

cleared-Untouched : (r : Entries) (x : Text) → Untouched r x (cleared (get (str x) r))
cleared-Untouched r x = of (get (str x) r)
  where
    of : (o : Option Value) → is_none (or_default null o) ≡ true → cleared o ≡ o
    of none e = refl
    of (some null) e = refl
    of (some (bool _)) e = cc
    of (some (int _)) e = cc
    of (some (float _)) e = cc
    of (some (str _)) e = cc
    of (some (bytes _)) e = cc
    of (some (list _)) e = cc
    of (some (dict _)) e = cc

-- A handler that returns calls `to_handler` with the message in which each key that its filter
-- reads has exactly the states that pass the filter's test, in their order, each other list of
-- states is empty, a key that was missing is missing, and every other entry is as it was.
pub subscribed_handler-IsSelection :
    (s : StateSubscription) (r m : Entries)
    → subscribed_handler s (dict r) ≡ ok m
    → IsSelection (test_of s) (scopes_of s) (emptied_of s) r m
unfolding subscribed_handler default_dapp_state_handler default_contract_state_handler
    default_scopekey_state_handler default_contract_scopekey_state_handler
    default_contract_statekey_state_handler
subscribed_handler-IsSelection (with_dapp name) r m h = one_loop (dapp_test name) r m h
subscribed_handler-IsSelection (with_contract name) r m h = one_loop (contract_test name) r m h
subscribed_handler-IsSelection (with_scopekey key) r m h =
    let (mid, h₁, h₂) = >>=-eq-ok (for_scopes (clear_scope r) all_state_msg_key_name r) _ h in
    two_loops (scopekey_test key) r mid m (scan_scope (scopekey_test key) r)
      (scan_scope_lem (scopekey_test key) r) h₁ h₂
subscribed_handler-IsSelection (with_contract_and_scopekey name key) r m h =
    let (mid, h₁, h₂) = >>=-eq-ok (for_scopes (clear_scope r) all_state_msg_key_name r) _ h in
    let test = contract_and_scopekey_test name key in
    two_loops test r mid m (clear_and_scan test r)
      (λ x f m' e h'. clear_and_scan_lem test r x f m' (rw e (cleared-Untouched r x)) h') h₁ h₂
subscribed_handler-IsSelection (with_contract_and_statekey name key) r m h =
    one_loop (contract_and_statekey_test name key) r m h
