-- ===== src/Client/Examples/Listing.antt =====
-- The relays of a transaction that has one.
use dioxide_python.Prelude.{◌≡◌, ◌↔◌, refl, true, false, some, List, [], ◌∷◌, arith}
use dioxide_python.Text.{codes}
use dioxide_python.Text.Split.{contains}
use dioxide_python.Gcl.Value.{Value, Entries, str}
use dioxide_python.Gcl.Dict.{get}
use dioxide_python.Client.{returned, ◌>>=◌}
use dioxide_python.Client.Relays.{
  relays_of, normalize_relay_hash, get_transaction, is_tx_confirmed_with_relays,
}
use dioxide_python.Client.Relays.Collect.{get_all_relay_transactions}
use dioxide_python.Client.Relays.Collect.Kids.{IsFetched, AreKids, nothing, fetched}
use dioxide_python.Client.Relays.Collect.Listed.{
  Listed, Tree, node, empty, more, get_all_relay_transactions-Listed,
}
use dioxide_python.Client.Examples.{ascii, late, first_tx, second_tx}
use dioxide_python.Client.Examples
use mathlib.Core.List.{Memᴰ}

abbrev second : Entries
second = second_tx (codes "TXN_CONFIRMED")

second-IsFetched :
    IsFetched ascii Examples.node false late (str (codes "b:1")) (second, str (codes "b:1"))
unfolding normalize_relay_hash get_transaction ◌>>=◌ get contains
second-IsFetched = record {
  normalized = str (codes "b");
  normalizes = refl;
  answered = refl;
  shows = refl;
}

first-AreKids : AreKids ascii Examples.node false late first_tx ((second, str (codes "b:1")) ∷ [])
unfolding relays_of ◌>>=◌ get
first-AreKids = (str (codes "b:1") ∷ [], refl, fetched second-IsFetched nothing)

second-AreKids : AreKids ascii Examples.node false late second []
unfolding relays_of ◌>>=◌ get
second-AreKids = ([], refl, nothing)

first-Tree : Tree ascii Examples.node false late first_tx 2
first-Tree = node _ first-AreKids (more (node _ second-AreKids empty) empty)

first_confirmed :
    is_tx_confirmed_with_relays ascii Examples.node 2 first_tx late ≡ (returned true, late)
unfolding is_tx_confirmed_with_relays ◌>>=◌ get contains
first_confirmed = refl

get_all_relay_transactions-Listed_example :
    (res : List Value) × (get_all_relay_transactions ascii Examples.node 2 false first_tx late
      ≡ (returned (some res), late))
    × ((v : Value) → Memᴰ v res ↔ Listed ascii Examples.node false late first_tx v)
get_all_relay_transactions-Listed_example =
    get_all_relay_transactions-Listed ascii Examples.node false late 2 first_tx 2 first_confirmed
      first-Tree (omega arith)
