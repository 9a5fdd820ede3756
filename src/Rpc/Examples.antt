-- ===== src/Rpc/Examples.antt =====
-- Two requests, one after the other and at the same time.
use dioxide_python.Prelude.{◌≡◌, refl, some, [], ◌∷◌, arith}
use dioxide_python.Prelude.Result.{ok}
use dioxide_python.Text.{Text, codes}
use dioxide_python.Gcl.Value.{Entries, int, str, dict, end, entry}
use dioxide_python.Gcl.Dict.{get, put}
use dioxide_python.Prelude.Int.{pos}
use dioxide_python.Rpc.{
  Http, Sending, at_start, set_method, make_rpc_request, encode_request, send, encodes, sends,
}
use dioxide_python.Rpc.Alone.{method_of, Alone, idle, next, AllOwn, sent-AllOwn}

-- A node that answers with what it is asked by.
abbrev echo : Http Entries Entries
echo = record {
  post = λ url params data_ kwargs w. (ok params, kwargs);
  raise_for_status = λ r. ok tt;
  json = λ r. ok (dict r);
  dumps = λ v. ok (codes "{}");
}

asked : make_rpc_request echo (codes "http://node") end (codes "dx.overview") end end end ≡ (
  ok (dict (entry (str (codes "req")) (str (codes "dx.overview")) end)),
  (
    entry (str (codes "req")) (str (codes "dx.overview")) end,
    entry (str (codes "timeout")) (int (pos 10)) end,
  ),
)
unfolding make_rpc_request get put
asked = refl

abbrev first : Text
first = codes "tx.send"

abbrev second : Text
second = codes "dx.overview"

abbrev one_by_one : Sending
one_by_one = send second [] (encode_request second (send first [] (encode_request first at_start)))

one_by_one-Alone : Alone one_by_one
unfolding encode_request send
one_by_one-Alone =
    next
      (next
        (next (next idle (encodes first at_start) (omega arith))
          (sends first [] [] (encode_request first at_start) refl) (omega arith))
        (encodes second (send first [] (encode_request first at_start))) (omega arith))
      (sends second [] [] (encode_request second (send first [] (encode_request first at_start)))
        refl)
      (omega arith)

sent-AllOwn_example : AllOwn one_by_one.sent
sent-AllOwn_example = sent-AllOwn one_by_one one_by_one-Alone

-- Where both are encoded first, the first is sent with the method of the second.
mixed_up :
    method_of (set_method second (encode_request first at_start).request_params) ≡ some (str second)
unfolding set_method encode_request get put
mixed_up = refl

sent_mixed_up :
    (send first (second ∷ []) (encode_request second (encode_request first at_start))).sent
    ≡ (first, entry (str (codes "req")) (str second) end) ∷ []
unfolding send encode_request set_method put
sent_mixed_up = refl
