-- ===== src/Client/Examples.antt =====
-- A node with a transaction and its relay, of which the relay is confirmed after a while. The
-- world is the time in nanoseconds.
mod Sending
mod Listing
mod Decoding
mod Composing
mod Subscribing
use dioxide_python.Prelude.{
  ℕ, ◌+◌, ◌*◌, ◌≤◌, ◌≡◌, refl, sym, ap, ◌∙◌, ◌⊎◌, inl, inr, Bool, true, false, Bool-cases, leb,
  Option, none, some, List, [], ◌∷◌, if◌then◌else◌, arith,
}
use dioxide_python.Prelude.Result.{Result, ok, err, value_error, type_error}
use dioxide_python.Prelude.Int.{ℤ, pos, negsuc}
use dioxide_python.Text.{Text, codes, text_eq, find, rfind}
use dioxide_python.Text.Case.{Unicode, is_digits, int_from}
use dioxide_python.Text.Split.{contains}
use dioxide_python.Gcl.Value.{
  Value, Values, Entries, null, int, str, list, dict, nil, cons, end, entry,
}
use dioxide_python.Gcl.Dict.{get}
use dioxide_python.Message.{or_default, equals}
use dioxide_python.Client.{Outcome, returned, raised, diox_error, Run, ◌>>=◌, Service, make_request}
use dioxide_python.Client.Relays.{
  get_transaction, is_tx_confirmed, is_tx_success, visit, walk, is_tx_confirmed_with_relays,
  is_tx_success_with_relays,
}
use dioxide_python.Client.Relays.Collect.{get_all_relay_transactions}
use dioxide_python.Client.Relays.Walk.{Tree, Forest, failing, passing, empty, more}
use dioxide_python.Client.Relays.Confirmed.{
  IsSteady, answer_of, Decides, is_tx_confirmed_with_relays-Decides,
  is_tx_success_with_relays-Decides,
}
use dioxide_python.Client.Wait.{one_second, poll, wait_for_transaction_confirmed}
use dioxide_python.Client.Wait.Polls.{IsClock, Ended, wait_for_transaction_confirmed-Ended}

abbrev pub ascii : Unicode
ascii = record {
  is_decimal = λ c. false;
  is_word = λ c. false;
  is_digit = λ c. false;
  digit_value = λ c. none;
}

abbrev pub field : Text → Value → Entries → Entries
field k v d = entry (str k) v d

abbrev invocation : Values → Value
invocation relays = dict (
    field (codes "Status") (str (codes "IVKRET_SUCCESS"))
      (field (codes "Relays") (list relays) end))

abbrev pub first_tx : Entries
first_tx = field (codes "Hash") (str (codes "a")) (
    field (codes "ConfirmState") (str (codes "TXN_FINALIZED"))
      (field (codes "Invocation") (invocation (cons (str (codes "b:1")) nil)) end))

abbrev pub second_tx : Text → Entries
second_tx state =
    field (codes "Hash") (str (codes "b"))
      (field (codes "ConfirmState") (str state) (field (codes "Invocation") (invocation nil) end))

-- The relay is confirmed after a second and a half.
abbrev state_at : ℕ → Text
state_at now = if leb 1500000000 now then codes "TXN_CONFIRMED" else codes "TXN_READY"

abbrev answer : Bool → ℕ → Value
answer true now = dict (field (codes "ret") (dict first_tx) end)
answer false now = dict (field (codes "ret") (dict (second_tx (state_at now))) end)

abbrev pub boxed : Value → Result Entries
boxed (dict d) = ok d
boxed _ = err value_error

abbrev pub node : Service ℕ
node = record {
  request = λ method params w.
      (ok (answer (equals (or_default null (get (str (codes "hash")) params)) (codes "a")) w), w);
  time = λ w. w;
  sleep = λ n w. w + n;
  box = boxed;
  attribute = λ key d. ok (or_default (dict end) (get (str key) d));
  box_get = λ key default d. ok (or_default default (get (str key) d));
}

abbrev pub late : ℕ
late = 2000000000

steady_node : (w : ℕ) → IsSteady ascii node w
steady_node w params = refl

first_answer :
    answer_of ascii node late (is_tx_confirmed node) (str (codes "a"))
    ≡ returned (some (str (codes "b") ∷ []))
unfolding visit is_tx_confirmed ◌>>=◌ get contains
first_answer = refl

second_answer :
    answer_of ascii node late (is_tx_confirmed node) (str (codes "b")) ≡ returned (some [])
unfolding visit is_tx_confirmed ◌>>=◌ get contains
second_answer = refl

confirmed_tree : Tree (answer_of ascii node late (is_tx_confirmed node)) (str (codes "a")) 2
confirmed_tree = passing first_answer (more (passing second_answer empty) empty)

hash_of_first : node.attribute (codes "Hash") first_tx ≡ ok (str (codes "a"))
unfolding get
hash_of_first = refl

is_tx_confirmed_with_relays-Decides_example :
    (b : Bool) × (is_tx_confirmed_with_relays ascii node 2 first_tx late ≡ (returned b, late))
    × Decides ascii node late (is_tx_confirmed node) (str (codes "a")) b
is_tx_confirmed_with_relays-Decides_example =
    is_tx_confirmed_with_relays-Decides ascii node late (steady_node late) 2 first_tx
      (str (codes "a")) 2 hash_of_first confirmed_tree (omega arith)

first_success :
    answer_of ascii node 0 (is_tx_success node) (str (codes "a"))
    ≡ returned (some (str (codes "b") ∷ []))
unfolding visit is_tx_success ◌>>=◌ get contains
first_success = refl

second_success : answer_of ascii node 0 (is_tx_success node) (str (codes "b")) ≡ returned (some [])
unfolding visit is_tx_success ◌>>=◌ get contains
second_success = refl

-- Before that time the walk stops at the relay.
not_yet : is_tx_confirmed_with_relays ascii node 2 first_tx 0 ≡ (returned false, 0)
unfolding is_tx_confirmed_with_relays ◌>>=◌ get contains
not_yet = refl

-- The relays are listed with the hashes they have in the transaction, or with what they are.
listed :
    (get_all_relay_transactions ascii node 2 false first_tx late
      ≡ (returned (some (str (codes "b:1") ∷ [])), late))
    × (get_all_relay_transactions ascii node 2 true first_tx late
        ≡ (returned (some (dict (second_tx (codes "TXN_CONFIRMED")) ∷ [])), late))
unfolding get_all_relay_transactions ◌>>=◌ get contains
listed = (refl, refl)

-- Two rounds of waiting, and it is confirmed in the third.
waited :
    wait_for_transaction_confirmed ascii node 4 2 (str (codes "a")) 2500000000 0
    ≡ (returned true, 2000000000)
unfolding wait_for_transaction_confirmed ◌>>=◌ get contains
waited = refl

-- With a shorter timeout it is given up.
given_up :
    wait_for_transaction_confirmed ascii node 4 2 (str (codes "a")) 500000000 0
    ≡ (returned false, 1000000000)
unfolding wait_for_transaction_confirmed ◌>>=◌ get contains
given_up = refl

checked :
    (w : ℕ) → is_tx_confirmed_with_relays ascii node 2 first_tx w ≡ (returned (leb 1500000000 w), w)
unfolding is_tx_confirmed_with_relays ◌>>=◌ get contains
checked w = elim (Bool-cases (leb 1500000000 w)) [ inl e ↦ rw e refl | inr e ↦ rw e refl ]

node-IsClock : IsClock node (is_tx_confirmed_with_relays ascii node 2 first_tx)
node-IsClock = record {
  slept = λ n w. omega arith;
  asked = λ w. let e = ap (λ p. p.1) (checked w) in rw e (omega arith);
}

fetched : get_transaction ascii node (str (codes "a")) none 0 ≡ (returned first_tx, 0)
unfolding get_transaction ◌>>=◌ get contains
fetched = refl

wait_for_transaction_confirmed-Ended_example :
    (b : Bool) × (u : ℕ) × (wait_for_transaction_confirmed ascii node 4 2
        (str (codes "a"))
        2500000000
        0
      ≡ (returned b, u))
    × Ended node (is_tx_confirmed_with_relays ascii node 2 first_tx) 0 2500000000 b u
wait_for_transaction_confirmed-Ended_example =
    wait_for_transaction_confirmed-Ended ascii node 3 2 (str (codes "a")) 2500000000 first_tx 0 0
      fetched (omega arith) node-IsClock (λ u. (leb 1500000000 u, u, checked u)) (omega arith)
