-- ===== src/Rpc.antt =====
-- The requests of the client to the node: dioxide_python_sdk/utils/rpc.py and utils/request.py, and
-- `get_subscribe_message` of utils/gadget.py with its topics of client/types.py. The package
-- requests and json.dumps are parameters.
pub mod Alone
mod Examples
use dioxide_python.Prelude.{ℕ, Bool, Option, none, some, List, [], ◌∷◌, ◌++◌, ◌≡◌}
use dioxide_python.Prelude.Int.{pos}
use dioxide_python.Prelude.Result.{Result, ok, err, ◌>>=◌}
use dioxide_python.Text.{Text, codes}
use dioxide_python.Gcl.Value.{Value, Entries, int, str, dict, end, entry, truthy}
use dioxide_python.Gcl.Dict.{get, put}

-- `requests.post(url, params, data, **kwargs)` with `raise_for_status()`, `response.json()`, and
-- `json.dumps(value)`.
pub record Http {ℓ} (W : Type ℓ) (Response : Type 0) : Type ℓ where
  pub post : Text → Entries → Text → Entries → W → Result Response × W
  pub raise_for_status : Response → Result (Unit {0})
  pub json : Response → Result Value
  pub dumps : Value → Result Text

-- `kwargs.setdefault('timeout',10)`
unfoldable pub with_timeout : Entries → Entries
unfolding get put
with_timeout kwargs = default (get (str (codes "timeout")) kwargs)
  where
    default : Option Value → Entries
    default none = put (str (codes "timeout")) (int (pos 10)) kwargs
    default (some _) = kwargs

-- `self.request_params.update({"req":method})`, of the dict that all instances of the class share.
unfoldable pub set_method : Text → Entries → Entries
unfolding put
set_method method request_params = put (str (codes "req")) (str method) request_params

module _ {ℓ} {W : Type ℓ} {Response : Type 0} (http : Http W Response) where
  -- `make_post_request(url,params,data,**kwargs)`
  unfoldable pub make_post_request : Text → Entries → Text → Entries → W → Result Response × W
  unfolding with_timeout
  make_post_request url params data_ kwargs w =
      let (response, w') = http.post url params data_ (with_timeout kwargs) w in
      (response >>= λ r. http.raise_for_status r >>= λ _. ok r, w')

  -- `encode_rpc_request(method,params)`: the shared dict behind it, and the text of the parameters.
  unfoldable pub encode_rpc_request : Text → Entries → Entries → Result Text × Entries
  unfolding set_method
  encode_rpc_request method params request_params =
      (http.dumps (dict params), set_method method request_params)

  send_encoded : Text → Entries → Result Text → Entries → W → Result Value × W
  unfolding make_post_request
  send_encoded url kwargs (err e) request_params w = (err e, w)
  send_encoded url kwargs (ok request_data) request_params w =
      let (response, w') = make_post_request url request_params request_data kwargs w in
      (response >>= λ r. http.json r, w')

  -- `make_request(method, params)`, of an instance with the given url and kwargs, where nothing
  -- else changes the shared dict: what it returns, and the dict and the world behind it.
  unfoldable pub make_rpc_request :
      Text → Entries → Text → Entries → Entries → W → Result Value × (Entries × W)
  unfolding encode_rpc_request send_encoded
  make_rpc_request url kwargs method params request_params w =
      let (request_data, shared) = encode_rpc_request method params request_params in
      let (result, w') = send_encoded url kwargs request_data shared w in (result, (shared, w'))

pub data SubscribeTopic : Type 0 where
  consensus_header transaction_block transaction state relays : SubscribeTopic
  finalized_block_and_transaction mempool : SubscribeTopic

-- What `get_subscribe_message(topic)` gives to json.dumps.
abbrev pub subscribe_request : SubscribeTopic → Text
subscribe_request consensus_header = codes "subscribe.master_commit_head"
subscribe_request transaction_block = codes "subscribe.block_commit_on_head"
subscribe_request transaction = codes "subscribe.txn_confirm_on_head"
subscribe_request state = codes "subscribe.state_update"
subscribe_request relays = codes "subscribe.txn_emit_on_head"
subscribe_request finalized_block_and_transaction = codes "subscribe.block_and_txn_finalize"
subscribe_request mempool = codes "subscribe.mempool_insert"

unfoldable pub get_subscribe_message : (Value → Result Text) → SubscribeTopic → Result Text
get_subscribe_message dumps topic =
    dumps (dict (entry (str (codes "req")) (str (subscribe_request topic)) end))

-- Threads that make requests at the same time: the dict that they share, the methods that were
-- encoded and not sent yet, and the methods that were sent, each with the dict that it was sent with.
pub record Sending : Type 0 where
  pub request_params : Entries
  pub encoded : List Text
  pub sent : List (Text × Entries)

abbrev pub at_start : Sending
at_start = record { request_params = end; encoded = []; sent = [] }

-- The first half of `make_request` on a thread.
unfoldable pub encode_request : Text → Sending → Sending
unfolding set_method
encode_request method s = record s {
  request_params = set_method method s.request_params;
  encoded = method ∷ s.encoded;
}

-- The second half, of one of the encoded requests: it sends what the dict is by then.
unfoldable pub send : Text → List Text → Sending → Sending
send method left s = record s { encoded = left; sent = (method, s.request_params) ∷ s.sent }

pub data Step : Sending → Sending → Type 0 where
  encodes : (method : Text) (s : Sending) → Step s (encode_request method s)
  sends :
      (method : Text) (before after : List Text) (s : Sending)
      → s.encoded ≡ before ++ (method ∷ after)
      → Step s (send method (before ++ after) s)
