-- ===== src/Client/Examples/Composing.antt =====
-- A transaction that is composed from a contract's description, without a node.
use dioxide_python.Prelude.{◌≡◌, refl, false, none, some, [], ◌∷◌}
use dioxide_python.Prelude.Int.{pos}
use dioxide_python.Bytes.{Bytes}
use dioxide_python.Text.{codes}
use dioxide_python.Gcl.Value.{Entries, int, str, list, dict, nil, cons, end}
use dioxide_python.Account.Examples.{stand_ins}
use dioxide_python.Args.Examples.{arguments}
use dioxide_python.Transaction.Examples.{exact_log2}
use dioxide_python.Client.Examples.{ascii, field}
use dioxide_python.Client.Examples.Decoding.{node, unprinted}
use dioxide_python.Client.Local.{by_address, LocalOptions, compose_transaction_local}
use dioxide_python.Client.Local.Offline.{compose_transaction_local-Same}

abbrev till : Entries
till = field (codes "ContractID") (int (pos 150324903937)) (
    field (codes "ContractVersionID") (int (pos 1)) (
      field (codes "Functions")
        (list (
          cons
            (dict
              (field (codes "Name") (str (codes "pay")) (field (codes "Opcode") (int (pos 3)) end)))
            nil))
        end))

abbrev options : LocalOptions
options = record {
  signature = some (codes "uint16:amount,string:memo");
  contract_info = some till;
  isn = some 7;
  is_delegatee = false;
  gas_price = none;
  gas_limit = none;
  ttl = some 60;
}

abbrev composed : Bytes
composed =
    108 ∷ 0 ∷ 100 ∷ 195 ∷ 239 ∷ 9 ∷ 153 ∷ 1 ∷ 7 ∷ 0 ∷ 0 ∷ 0 ∷ 59 ∷ 0 ∷ 12 ∷ 0 ∷ 3 ∷ 63 ∷ 100 ∷ 0 ∷ 0
    ∷ 0 ∷ 0 ∷ 0 ∷ 32 ∷ 161 ∷ 7 ∷ 0 ∷ 1 ∷ 0 ∷ 16 ∷ 0 ∷ 35 ∷ 0 ∷ 0 ∷ 0 ∷ 6 ∷ 0 ∷ 44 ∷ 1 ∷ 2 ∷ 0 ∷ 104
    ∷ 105 ∷ []

compose_transaction_local-Same_example :
    (compose_transaction_local ascii stand_ins unprinted exact_log2 1756808332132 node
      (by_address (codes "a:dapp"))
      (codes "shop.till.pay")
      arguments
      options
      3).1
    ≡ 3
compose_transaction_local-Same_example =
    compose_transaction_local-Same ascii stand_ins unprinted exact_log2 1756808332132 node
      (by_address (codes "a:dapp")) (codes "shop.till.pay") arguments options till 7 3 refl refl
