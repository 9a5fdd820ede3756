-- ===== src/Gcl/Container/Tables.antt =====
-- An offset table and the parts behind it, found in the data.
use dioxide_python.Prelude.{ℕ, ◌+◌, ◌*◌, ◌≡◌, List, ◌++◌, length, length-append, arith}
use dioxide_python.Prelude.Result.{ok, >>=-eq-ok}
use dioxide_python.Bytes.{Bytes, check_data_length}
use dioxide_python.Bytes.Place.{Stands, Stands-left, Stands-right, check-Stands_size}
use dioxide_python.Gcl.Table.{join, end_offsets, offset_bytes, read_offsets}
use dioxide_python.Gcl.Table.Laws.{
  length-end_offsets, length-offset_bytes, read_offsets-offset_bytes,
}
use dioxide_python.Gcl.Container.{with_table}

pub with_table-eq_ok :
    (parts : List Bytes) {rest : Bytes}
    → with_table parts ≡ ok rest
    → (table : Bytes) × (offset_bytes (end_offsets (length parts * 4) parts) ≡ ok table)
      × (rest ≡ table ++ join parts)
unfolding with_table
with_table-eq_ok parts h =
    let (table, ht, e) = >>=-eq-ok (offset_bytes (end_offsets (length parts * 4) parts)) _ h in
    (table, ht, cc)

-- What the readers find at `start`: room for the table, the offsets, and the parts behind them.
pub record TableAt (parts : List Bytes) (data_ : Bytes) (start : ℕ) : Type 0 where
  pub room : check_data_length data_ start (length parts * 4) ≡ ok tt
  pub offsets : read_offsets (length parts) data_ start ≡ end_offsets (length parts * 4) parts
  pub behind : Stands data_ (start + length parts * 4) (join parts)

pub with_table-TableAt :
    (parts : List Bytes) (data_ : Bytes) (start : ℕ) {rest : Bytes}
    → with_table parts ≡ ok rest
    → Stands data_ start rest
    → TableAt parts data_ start
with_table-TableAt parts data_ start h s =
    let (table, ht, e) = with_table-eq_ok parts h in
    let here = rw e at s in
    let os = end_offsets (length parts * 4) parts in
    let len : length table ≡ length parts * 4 =
      rw (← length-end_offsets (length parts * 4) parts) (length-offset_bytes os ht) in
    record {
      room = check-Stands_size table (length parts * 4) len (Stands-left table (join parts) here);
      offsets =
          rw (length-end_offsets (length parts * 4) parts) at
            (read_offsets-offset_bytes os data_ start ht (Stands-left table (join parts) here));
      behind = rw len at (Stands-right table (join parts) here);
    }

pub length-with_table :
    (parts : List Bytes) {rest : Bytes}
    → with_table parts ≡ ok rest
    → length rest ≡ length parts * 4 + length (join parts)
length-with_table parts h =
    let (table, ht, e) = with_table-eq_ok parts h in
    let os = end_offsets (length parts * 4) parts in
    rw e (
      omega (
        arith,
        length-append table (join parts),
        length-offset_bytes os ht,
        length-end_offsets (length parts * 4) parts,
      ))
