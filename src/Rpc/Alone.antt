-- ===== src/Rpc/Alone.antt =====
-- Requests that share the dict of their parameters.
use dioxide_python.Prelude.{
  ◌≡◌, Option, some, List, [], ◌∷◌, All, All-split, All-append, length, ◌≤◌, arith,
}
use dioxide_python.Text.{Text, codes}
use dioxide_python.Gcl.Value.{Value, Entries, str}
use dioxide_python.Gcl.Dict.{get}
use dioxide_python.Gcl.Dict.Laws.{get-put_same}
use dioxide_python.Rpc.{Sending, at_start, set_method, encode_request, send, Step, encodes, sends}

-- The method that a request is sent with.
abbrev pub method_of : Entries → Option Value
method_of request_params = get (str (codes "req")) request_params

-- Runs in which no request is encoded while another one waits to be sent.
pub data Alone : Sending → Type 0 where
  idle : Alone at_start
  next : {s t : Sending} → Alone s → Step s t → length t.encoded ≤ 1 → Alone t

-- Each request that was sent went with its own method.
abbrev pub AllOwn : List (Text × Entries) → Type 0
AllOwn sent = All (λ e. method_of e.1 ≡ some (str e.0)) sent

-- The method that waits is the one in the dict.
record IsOwn (s : Sending) : Type 0 where
  waits : All (λ m. method_of s.request_params ≡ some (str m)) s.encoded
  own : AllOwn s.sent

only_one :
    (P : Text → Type 0) (m : Text) (ms : List Text) → length (m ∷ ms) ≤ 1 → P m → All P (m ∷ ms)
only_one P m [] h p = (p, tt)
only_one P m (_ ∷ _) h p = absurd (omega (arith, h))

Step-IsOwn : {s t : Sending} → Step s t → length t.encoded ≤ 1 → IsOwn s → IsOwn t
unfolding encode_request send set_method
Step-IsOwn (encodes method s) few h = record {
  waits =
      only_one (λ m. method_of (set_method method s.request_params) ≡ some (str m)) method s.encoded
        few (get-put_same (codes "req") (str method) s.request_params);
  own = h.own;
}
Step-IsOwn (sends method before after s e) few h =
    let waits = h.waits in
    let split =
      All-split (λ m. method_of s.request_params ≡ some (str m)) before (method ∷ after)
        (rw e at waits) in
    record { waits = All-append _ before after split.0 split.1.1; own = (split.1.0, h.own) }

Alone-IsOwn : {s : Sending} → Alone s → IsOwn s
Alone-IsOwn idle = record { waits = tt; own = tt }
Alone-IsOwn (next r step few) = Step-IsOwn step few (Alone-IsOwn r)

-- The dict of the parameters is shared by all requests of the process: where no request is encoded
-- while another one waits to be sent, each is sent with its own method.
pub sent-AllOwn : (s : Sending) → Alone s → AllOwn s.sent
sent-AllOwn s r = (Alone-IsOwn r).own
