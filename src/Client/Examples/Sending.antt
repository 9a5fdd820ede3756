-- ===== src/Client/Examples/Sending.antt =====
-- A node that composes one transaction, and takes and confirms it at once.
use dioxide_python.Prelude.{[], ◌∷◌, ℕ, ◌+◌, ◌≡◌, refl, true, false, none, if◌then◌else◌}
use dioxide_python.Prelude.Result.{ok}
use dioxide_python.Bytes.{from_bytes, le_digits}
use dioxide_python.Text.{Text, codes, text_eq}
use dioxide_python.Text.Split.{contains}
use dioxide_python.Gcl.Value.{Value, str, list, dict, nil, end}
use dioxide_python.Gcl.Dict.{get}
use dioxide_python.Message.{or_default}
use dioxide_python.Account.Sign.{sign_diox_transaction}
use dioxide_python.Account.Examples.{stand_ins, alice, unsigned, sent}
use dioxide_python.Pow.Search.{calculate_txn_pow}
use dioxide_python.Client.{returned, ◌>>=◌, Service}
use dioxide_python.Client.Examples.{ascii, field, boxed}
use dioxide_python.Client.Send.{no_options, send_raw_transaction, send_transaction}
use dioxide_python.Client.Send.Logged.{logged, sends}
use dioxide_python.Client.Send.Once.{SendsOnce, send_transaction-SendsOnce}

abbrev confirmed : Value
confirmed = dict (
    field (codes "Hash") (str (codes "a")) (
      field (codes "ConfirmState") (str (codes "TXN_CONFIRMED"))
        (field (codes "Invocation") (dict (field (codes "Relays") (list nil) end)) end)))

abbrev reply : Text → Value
reply method =
    if text_eq method (codes "tx.compose")
    then dict (field (codes "TxData") (str (stand_ins.b64encode unsigned)) end)
    else if text_eq method (codes "tx.send")
    then dict (field (codes "Hash") (str (codes "a")) end)
    else confirmed

abbrev node : Service ℕ
node = record {
  request = λ method params w. (ok (dict (field (codes "ret") (reply method) end)), w);
  time = λ w. w;
  sleep = λ n w. w + n;
  box = boxed;
  attribute = λ key d. ok (or_default (dict end) (get (str key) d));
  box_get = λ key default d. ok (or_default default (get (str key) d));
}

raw_sent :
    (send_raw_transaction ascii stand_ins node 1 1 sent true 0 5).0 ≡ returned (str (codes "a"))
unfolding send_raw_transaction ◌>>=◌ get contains
raw_sent = refl

alice_sends :
    (send_transaction ascii stand_ins node 1 1 alice
      (codes "d.c.f")
      (dict end)
      no_options
      false
      none
      true
      0
      5).0
    ≡ returned (str (codes "a"))
unfolding send_transaction sign_diox_transaction calculate_txn_pow ◌>>=◌ get contains from_bytes
    le_digits
alice_sends = refl

send_transaction-SendsOnce_example :
    SendsOnce ascii stand_ins node alice
      (codes "d.c.f")
      (dict end)
      no_options
      false
      none
      (5, [])
      ((send_transaction ascii stand_ins
        (logged node)
        1
        1
        alice
        (codes "d.c.f")
        (dict end)
        no_options
        false
        none
        true
        0
        (5, [])).1.1)
send_transaction-SendsOnce_example =
    send_transaction-SendsOnce ascii stand_ins node 1 1 alice (codes "d.c.f") (dict end) no_options
      false none true 0 5

-- Alice's transaction is sent, and nothing else.
alice_sent :
    sends (
      (send_transaction ascii stand_ins
        (logged node)
        1
        1
        alice
        (codes "d.c.f")
        (dict end)
        no_options
        false
        none
        true
        0
        (5, [])).1.1)
    ≡ field (codes "txdata") (str (stand_ins.b64encode sent)) end ∷ []
unfolding send_transaction sign_diox_transaction calculate_txn_pow ◌>>=◌ get contains from_bytes
    le_digits sends
alice_sent = refl
