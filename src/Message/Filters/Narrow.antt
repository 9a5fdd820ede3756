-- ===== src/Message/Filters/Narrow.antt =====
-- A filter that asks for more lets fewer messages through.
use dioxide_python.Prelude.{
  Bool, true, false, List, [], ◌∷◌, ◌++◌, ◌≡◌, refl, ◌∙◌, ap, if◌then◌else◌, take,
}
use dioxide_python.Prelude.Result.{Result, ok, >>=-eq-ok}
use dioxide_python.Text.{Text, text_eq, codes}
use dioxide_python.Text.Laws.{text_eq→≡, text_eq_refl}
use dioxide_python.Text.Split.{split, join, first_part}
use dioxide_python.Text.Split.Laws.{no_char, first_part-join}
use dioxide_python.Gcl.Value.{Value, null}
use dioxide_python.Message.{
  all_state_msg_key_name, keyed_state_msg_key_name, call_get, call_split, is_none, states_of,
  is_of_dapp, is_of_contract,
}
use dioxide_python.Message.Filters.{
  with_entry, dapp_test, contract_test, scopekey_test, contract_and_scopekey_test, any_in,
  any_state, dapp_filter, contract_filter, contract_and_scopekey_filter, scopekey_filter,
}

-- `wide` returns where `narrow` does, and is passed where `narrow` is.
abbrev Wider : Result Bool → Result Bool → Type 0
Wider narrow wide =
    (b : Bool) → narrow ≡ ok b → (b' : Bool) × (wide ≡ ok b') × ((b ≡ true) → (b' ≡ true))

-- The loops return at once where a test is passed.
if_Wider :
    (hit hit' : Bool) (narrow wide : Result Bool)
    → ((hit ≡ true) → (hit' ≡ true))
    → Wider narrow wide
    → Wider (if hit then ok true else narrow) (if hit' then ok true else wide)
if_Wider hit true narrow wide up rest b h = (true, refl, λ _. refl)
if_Wider true false narrow wide up rest b h = let no = up refl in (true, cc, λ _. refl)
if_Wider false false narrow wide up rest b h = rest b h

module _ (narrow wide : Value → Result Bool) (widen : (s : Value) → Wider (narrow s) (wide s)) where
  any_in-Wider : (ss : List Value) → Wider (any_in narrow ss) (any_in wide ss)
  unfolding any_in
  any_in-Wider [] b h = (b, h, λ e. e)
  any_in-Wider (s ∷ ss) b h =
      let (hit, e, h₁) = >>=-eq-ok (narrow s) _ h in
      let (hit', e', up) = widen s hit e in
      let (b', eb, up') = if_Wider hit hit' _ (any_in wide ss) up (any_in-Wider ss) b h₁ in
      (b', rw e' eb, up')

  any_state-Wider :
      (scopes : List Text) (r : Value) → Wider (any_state narrow scopes r) (any_state wide scopes r)
  unfolding any_state
  any_state-Wider [] r b h = (b, h, λ e. e)
  any_state-Wider (x ∷ xs) r b h =
      let (ss, es, h₁) = >>=-eq-ok (states_of x r) _ h in
      let (hit, e, h₂) = >>=-eq-ok (any_in narrow ss) _ h₁ in
      let (hit', e', up) = any_in-Wider ss hit e in
      let (b', eb, up') =
        if_Wider hit hit' _ (any_state wide xs r) up (any_state-Wider xs r) b h₂ in
      (b', rw (es, e') eb, up')

is_of_contract-Wider :
    (d c : Text) (v : Value)
    → no_char b'.' d ≡ true
    → Wider (is_of_contract (d ++ (b'.' ∷ c)) v) (is_of_dapp d v)
unfolding is_of_contract is_of_dapp call_split
is_of_contract-Wider d c (Value.str t) h b e = (
  text_eq (first_part (split b'.' t)) d,
  refl,
  λ eb.
      let same : text_eq (join (b'.' ∷ []) (take 2 (split b'.' t))) (d ++ (b'.' ∷ c)) ≡ true = cc in
      rw (first_part-join b'.' t d c h (text_eq→≡ _ _ same)) (text_eq_refl d),
)
is_of_contract-Wider d c null h b e = cc
is_of_contract-Wider d c (Value.bool _) h b e = cc
is_of_contract-Wider d c (Value.int _) h b e = cc
is_of_contract-Wider d c (Value.float _) h b e = cc
is_of_contract-Wider d c (Value.bytes _) h b e = cc
is_of_contract-Wider d c (Value.list _) h b e = cc
is_of_contract-Wider d c (Value.dict _) h b e = cc

with_entry-Wider :
    (key : Text) (narrow wide : Value → Result Bool) (s : Value)
    → ((v : Value) → Wider (narrow v) (wide v))
    → Wider (with_entry key narrow s) (with_entry key wide s)
unfolding with_entry
with_entry-Wider key narrow wide s widen b h =
    let (v, ev, h₁) = >>=-eq-ok (call_get s key null) _ h in
    let (b', e', up) = on (is_none v) v h₁ in (b', rw ev e', up)
  where
    on :
        (none_ : Bool) (v : Value)
        → (if none_ then ok false else narrow v) ≡ ok b
        → (b' : Bool) × ((if none_ then ok false else wide v) ≡ ok b') × ((b ≡ true) → (b' ≡ true))
    on true v h₁ = (b, h₁, λ e. e)
    on false v h₁ = widen v b h₁

-- Every message that `contract_filter` lets through for a contract of a dapp, `dapp_filter` lets
-- through for the dapp, where the name of the dapp has no full stop.
pub contract_filter-dapp_filter :
    (d c : Text) (r : Value)
    → no_char b'.' d ≡ true
    → contract_filter (d ++ (b'.' ∷ c)) r ≡ ok true
    → dapp_filter d r ≡ ok true
unfolding contract_filter dapp_filter contract_test dapp_test
contract_filter-dapp_filter d c r h e =
    let (b, eb, up) =
      any_state-Wider (contract_test (d ++ (b'.' ∷ c))) (dapp_test d)
        (λ s. with_entry-Wider (codes "Contract") _ _ s (λ v. is_of_contract-Wider d c v h))
        all_state_msg_key_name r true e in
    eb ∙ ap ok (up refl)

contract_and_scopekey_test-Wider :
    (name key : Text) (s : Value)
    → Wider (contract_and_scopekey_test name key s) (scopekey_test key s)
unfolding contract_and_scopekey_test
contract_and_scopekey_test-Wider name key s b h =
    let (hit, e, h₁) = >>=-eq-ok (scopekey_test key s) _ h in (hit, e, up hit h₁)
  where
    up :
        (hit : Bool)
        → (if hit then contract_test name s else ok false) ≡ ok b
        → (b ≡ true)
        → (hit ≡ true)
    up true h₁ eb = refl
    up false h₁ eb = cc

-- Every message that `contract_and_scopekey_filter` lets through for a contract and a key,
-- `scopekey_filter` lets through for the key.
pub contract_and_scopekey_filter-scopekey_filter :
    (name key : Text) (r : Value)
    → contract_and_scopekey_filter name key r ≡ ok true
    → scopekey_filter key r ≡ ok true
unfolding contract_and_scopekey_filter scopekey_filter
contract_and_scopekey_filter-scopekey_filter name key r e =
    let (b, eb, up) =
      any_state-Wider (contract_and_scopekey_test name key) (scopekey_test key)
        (contract_and_scopekey_test-Wider name key) keyed_state_msg_key_name r true e in
    eb ∙ ap ok (up refl)
