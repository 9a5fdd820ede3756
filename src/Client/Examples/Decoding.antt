-- ===== src/Client/Examples/Decoding.antt =====
-- A node that describes one contract, and a transaction that calls its function.
use dioxide_python.Gcl.Shape.{no_bigint_key}
use dioxide_python.Prelude.{ℕ, ◌+◌, ◌≡◌, refl, none, some, [], arith}
use dioxide_python.Prelude.Result.{ok}
use dioxide_python.Text.{codes, is_space}
use dioxide_python.Text.Hex.{hex}
use dioxide_python.Text.Split.{contains}
use dioxide_python.Gcl.Value.{Entries, str, list, dict, nil, cons, end, from_list}
use dioxide_python.Gcl.Dict.{get}
use dioxide_python.Message.{or_default}
use dioxide_python.Args.RoundTrip.{read_back}
use dioxide_python.Args.Examples.{
  params, arguments, argument_bytes, arguments_written, amount-IsName, memo-IsName,
}
use dioxide_python.Client.{returned, ◌>>=◌, Service}
use dioxide_python.Client.Examples.{ascii, field, boxed}
use dioxide_python.Client.Interface.{Printed, find_function}
use dioxide_python.Client.Queries.{get_contract_info}
use dioxide_python.Client.Decode.{decode_transaction_input}
use dioxide_python.Client.Decode.RoundTrip.{
  IsWritten, IsFunctionName, IsDescribed, decode_transaction_input-serialize_args,
}
use dioxide_python.Client.Decode.Signature.{IsBox, param_value}
use mathlib.Core.List.{map}

abbrev pay : Entries
pay =
    field (codes "Name") (str (codes "pay"))
      (field (codes "Params") (list (from_list (map param_value params))) end)

abbrev contract : Entries
contract = field (codes "Functions") (list (cons (dict pay) nil)) end

abbrev pub node : Service ℕ
node = record {
  request = λ method asked w. (ok (dict (field (codes "ret") (dict contract) end)), w);
  time = λ w. w;
  sleep = λ n w. w + n;
  box = boxed;
  attribute = λ key d. ok (or_default (dict end) (get (str key) d));
  box_get = λ key default d. ok (or_default default (get (str key) d));
}

abbrev pub unprinted : Printed
unprinted v = []

node-IsBox : IsBox node
node-IsBox = record { reads_attribute = λ key d v e. rw e refl; reads_get = λ key default d. refl }

abbrev payment : Entries
payment =
    field (codes "Function") (str (codes "shop.till.pay"))
      (field (codes "Input") (str (hex argument_bytes)) end)

till-IsDescribed :
    IsDescribed ascii unprinted node (codes "shop") (codes "till") (codes "pay") params 3 3
unfolding get_contract_info find_function get ◌>>=◌ contains
till-IsDescribed = record {
  info = contract;
  function_info = pay;
  functions = cons (dict pay) nil;
  answered = refl;
  listed = refl;
  found = refl;
  params = refl;
}

pay_named : IsFunctionName (codes "shop") (codes "till") (codes "pay")
unfolding is_space
pay_named = record {
  dapp_name = refl;
  contract_name = refl;
  function_name = refl;
  not_core = refl;
  no_blank = refl;
}

pub payment-IsWritten : IsWritten params arguments argument_bytes
unfolding no_bigint_key
payment-IsWritten = record {
  names = (amount-IsName, (memo-IsName, tt));
  plain = (refl, (refl, tt));
  written = arguments_written;
  in_bytes =
      (omega arith, (omega arith, (omega arith, (omega arith, (omega arith, (omega arith, tt))))));
}

payment_function : get (str (codes "Function")) payment ≡ some (str (codes "shop.till.pay"))
unfolding get
payment_function = refl

payment_input : get (str (codes "Input")) payment ≡ some (str (hex argument_bytes))
unfolding get
payment_input = refl

decode_transaction_input-serialize_args_example :
    decode_transaction_input ascii none unprinted node payment 3
    ≡ (returned (dict (read_back params arguments end)), 3)
decode_transaction_input-serialize_args_example =
    decode_transaction_input-serialize_args ascii none unprinted node node-IsBox (codes "shop")
      (codes "till") (codes "pay") _ _ arguments argument_bytes payment 3 3 pay_named
      till-IsDescribed payment-IsWritten (omega arith) payment_function payment_input
