-- ===== src/Client/Queries.antt =====
-- The requests of client/dioxclient.py that only ask the node, with what they take out of its
-- answer. Names, symbols and scopes are texts; heights, indexes, hashes and keys any values.
use dioxide_python.Prelude.{
  ℕ, zero, suc, ◌*◌, ◌/◌, ◌^◌, ◌%◌, true, false, ◌==◌, ltb, leb, Option, none, some, [], ◌∷◌, ◌++◌,
  if◌then◌else◌,
}
use dioxide_python.Prelude.Int.{ℤ, pos, negsuc}
use dioxide_python.Prelude.Result.{Result, ok, err, type_error, value_error, overflow_error}
use dioxide_python.Text.{Text, codes, strip}
use dioxide_python.Text.Case.{Unicode, int_from, is_digits}
use dioxide_python.Gcl.Value.{Value, Entries, bool, int, float, str, bytes, end}
use dioxide_python.Gcl.Dict.{put}
use dioxide_python.Message.Filters.{scaled_size}
use dioxide_python.Client.{Run, ◌>>=◌, lift, Service, make_request, item}

-- `params.update({key: value})`
abbrev pub update : Entries → Text → Value → Entries
update params key v = put (str key) v params

negative : ℕ → ℤ
negative zero = pos 0
negative (suc n) = negsuc n

-- `int(x)` of a float: its part in front of the point.
unfoldable pub int_of_float : ℕ → Result ℤ
unfolding scaled_size negative
int_of_float bits =
    let size = bits % 2 ^ 63 in
    let n = scaled_size bits / 2 ^ 1074 in
    if ltb (2047 * 2 ^ 52) size
    then err value_error
    else if size == 2047 * 2 ^ 52
    then err overflow_error
    else if leb (2 ^ 63) bits
    then ok (negative n)
    else ok (pos n)

module _ (unicode : Unicode) where
  -- Digits, between which single underscores may stand.
  digits : Text → Option Text
  digits [] = some []
  digits (c ∷ []) = if c == b'_' then none else some (c ∷ [])
  digits (c ∷ d ∷ t) =
      let rest = digits (d ∷ t) in
      if c == b'_'
      then (if d == b'_' then none else rest)
      else elim rest [ none ↦ none | some r ↦ some (c ∷ r) ]

  int_of_digits : Text → Result ℕ
  unfolding digits is_digits int_from
  int_of_digits [] = err value_error
  int_of_digits (c ∷ t) = if c == b'_' then err value_error else elim (digits (c ∷ t)) [
    | none ↦ err value_error
    | some ds ↦ if is_digits unicode ds then int_from unicode 0 ds else err value_error
  ]

  negated : Result ℕ → Result ℤ
  unfolding negative
  negated (ok n) = ok (negative n)
  negated (err e) = err e

  plain : Result ℕ → Result ℤ
  plain (ok n) = ok (pos n)
  plain (err e) = err e

  int_of_text : Text → Result ℤ
  unfolding negated plain int_of_digits
  int_of_text [] = err value_error
  int_of_text (c ∷ t) =
      if c == b'-'
      then negated (int_of_digits t)
      else if c == b'+'
      then plain (int_of_digits t)
      else plain (int_of_digits (c ∷ t))

  -- `int(value)`
  unfoldable pub to_int : Value → Result ℤ
  unfolding int_of_float int_of_text strip
  to_int (int z) = ok z
  to_int (bool true) = ok (pos 1)
  to_int (bool false) = ok (pos 0)
  to_int (float bits) = int_of_float bits
  to_int (str t) = int_of_text (strip t)
  to_int (bytes b) = int_of_text (strip b)
  to_int _ = err type_error

module _ {ℓ} {W : Type ℓ} (unicode : Unicode) (service : Service W) where
  -- A request whose answer is made a Box.
  unfoldable pub boxed_request : Text → Entries → Run W Entries
  unfolding make_request
  boxed_request method params = do
    response ← make_request service method params
    lift (service.box response)

  -- A request for a number.
  unfoldable pub int_request : Text → Entries → Text → Run W ℤ
  unfolding make_request item to_int
  int_request method params key = do
    response ← make_request service method params
    v ← lift (item key response)
    lift (to_int unicode v)

  unfoldable pub get_overview : Run W Value
  unfolding make_request
  get_overview = make_request service (codes "dx.overview") end

  unfoldable pub get_block_number : Run W ℤ
  unfolding int_request
  get_block_number = int_request (codes "dx.committed_head_height") end (codes "HeadHeight")

  unfoldable pub get_shard_index : Value → Value → Run W ℤ
  unfolding int_request put
  get_shard_index scope scope_key =
      int_request (codes "dx.shard_index")
        (update (update end (codes "scope") scope) (codes "scope_key") scope_key)
        (codes "ShardIndex")

  unfoldable pub get_isn : Value → Run W ℤ
  unfolding int_request put
  get_isn address =
      int_request (codes "dx.isn") (update end (codes "address") address) (codes "ISN")

  unfoldable pub get_consensus_header_by_height : Value → Run W Entries
  unfolding boxed_request put
  get_consensus_header_by_height height =
      boxed_request (codes "dx.consensus_header")
        (update (update end (codes "query_type") (int (pos 0))) (codes "height") height)

  unfoldable pub get_consensus_header_by_hash : Value → Run W Entries
  unfolding boxed_request put
  get_consensus_header_by_hash hash =
      boxed_request (codes "dx.consensus_header")
        (update (update end (codes "query_type") (int (pos 1))) (codes "hash") hash)

  unfoldable pub get_transaction_block_by_height : Value → Value → Run W Entries
  unfolding boxed_request put
  get_transaction_block_by_height shard_index height =
      boxed_request (codes "dx.transaction_block") (
        update
          (update (update end (codes "query_type") (int (pos 0))) (codes "shard_index") shard_index)
          (codes "height") height)

  unfoldable pub get_transaction_block_by_hash : Value → Value → Run W Entries
  unfolding boxed_request put
  get_transaction_block_by_hash shard_index hash = boxed_request (codes "dx.transaction_block") (
      update
        (update (update end (codes "query_type") (int (pos 1))) (codes "shard_index") shard_index)
        (codes "hash") hash)

  -- "{}.{}".format(dapp_name,contract_name)
  abbrev dotted : Text → Text → Text
  dotted dapp_name contract_name = dapp_name ++ (b'.' ∷ contract_name)

  unfoldable pub get_contract_info : Text → Text → Run W Entries
  unfolding boxed_request put
  get_contract_info dapp_name contract_name =
      boxed_request (codes "dx.contract_info")
        (update end (codes "contract") (str (dotted dapp_name contract_name)))

  unfoldable pub get_source_code : Text → Text → Run W Value
  unfolding make_request put
  get_source_code dapp_name contract_name =
      make_request service (codes "dx.source_code")
        (update end (codes "contract") (str (dotted dapp_name contract_name)))

  -- The scope by its value and its name in lower case; the global scope has no key.
  unfoldable pub get_contract_state : Text → Text → ℕ → Text → Value → Run W Entries
  unfolding boxed_request put
  get_contract_state dapp_name contract_name scope scope_name key =
      let params =
        update end (codes "contract_with_scope")
          (str (dotted dapp_name (dotted contract_name scope_name))) in
      boxed_request (codes "dx.contract_state")
        (if scope == 0 then params else update params (codes "scope_key") key)

  unfoldable pub get_dapp_info : Text → Run W Entries
  unfolding boxed_request put
  get_dapp_info dapp_name =
      boxed_request (codes "dx.dapp") (update end (codes "name") (str dapp_name))

  unfoldable pub get_token_info : Text → Run W Entries
  unfolding boxed_request put
  get_token_info token_symbol =
      boxed_request (codes "dx.token") (update end (codes "symbol") (str token_symbol))
