-- ===== src/Gcl/Container/Structs.antt =====
-- A struct is read back, member for member.
use dioxide_python.Prelude.{
  ℕ, ◌+◌, ◌*◌, ◌/◌, ◌≡◌, ◌≢◌, List, [], ◌++◌, length, arith, Bool-cases, inl, inr, false, ◌==◌,
  ==_iff, ==_ne, ==_refl, bit_or,
}
use dioxide_python.Prelude.{length-append}
use dioxide_python.Prelude.Bits.{bit_or_disjoint}
use dioxide_python.Prelude.Result.{ok, type_validation, >>=-eq-ok, guard-eq-ok}
use dioxide_python.Bytes.{Bytes, to_bytes}
use dioxide_python.Bytes.Laws.{length-to_bytes}
use dioxide_python.Bytes.Place.{
  Stands, Stands-left, Stands-right, check-Stands_size, from_bytes-Stands,
}
use dioxide_python.Text.{Text, text_eq, codes}
use dioxide_python.Gcl.Value.{Value, dict, end}
use dioxide_python.Gcl.TypeName.{extract_struct_member_types}
use dioxide_python.Gcl.Table.{Deserializer, join, end_offsets, last_or}
use dioxide_python.Gcl.Table.Laws.{Reads, EachReads, read_at-EachReads, last-end_offsets_of}
use dioxide_python.Gcl.Container.{
  Serializer, with_table, serialize_members, struct_bytes, members_from, struct_members,
  deserialize_struct,
}
use dioxide_python.Gcl.Container.Tables.{TableAt, with_table-TableAt, length-with_table}

-- `(count << 4) | 3`
header_value : (n : ℕ) → bit_or (n * 16) 3 ≡ n * 16 + 3
header_value n = bit_or_disjoint 4 n 3 (omega arith)

-- `header >> 4`
header_count : (n : ℕ) → bit_or (n * 16) 3 / 16 ≡ n
header_count n = rw header_value (omega arith)

module _ (des : Deserializer) (types : List Text) (parts : List Bytes) (vs : List Value)
    (rest : Bytes) where
  struct_members-Reads :
      (data_ : Bytes) (start : ℕ)
      → length parts ≡ length types
      → length types ≢ 0
      → EachReads des types parts vs
      → with_table parts ≡ ok rest
      → Stands data_ start rest
      → struct_members des types data_ start ≡ ok (dict (members_from 0 vs), start + length rest)
  unfolding struct_members
  struct_members-Reads data_ start n some all ht s =
      let found : TableAt parts data_ start = with_table-TableAt parts data_ start ht s in
      let size : ℕ = length parts * 4 in
      let values = read_at-EachReads des types parts vs all data_ start size found.behind in
      let last : last_or 0 (end_offsets size parts) ≡ size + length (join parts) =
        last-end_offsets_of size parts (omega arith) in
      let end : start + last_or 0 (end_offsets size parts) ≡ start + length rest =
        omega (arith, last, length-with_table parts ht) in
      rw (← n, found.room, found.offsets, values, end)

  -- A struct with members: the header, the table and the members.
  found_struct :
      (t : Text) (header : Bytes)
      → to_bytes 4 (bit_or (length types * 16) 3) ≡ ok header
      → text_eq t (codes "struct") ≡ false
      → extract_struct_member_types t ≡ ok types
      → length parts ≡ length types
      → length types ≢ 0
      → EachReads des types parts vs
      → with_table parts ≡ ok rest
      → Reads
          (deserialize_struct des t)
          (header ++ rest)
          (dict (members_from 0 vs))
          (length (header ++ rest))
  unfolding deserialize_struct
  found_struct t header hh plain ht n some all hr data_ at s =
      let front = Stands-left header rest s in
      let len : length header ≡ 4 = length-to_bytes 4 (bit_or (length types * 16) 3) hh in
      let members =
        struct_members-Reads data_ (at + 4) n some all hr
          (rw len at (Stands-right header rest s)) in
      let end : at + 4 + length rest ≡ at + length (header ++ rest) =
        omega (arith, len, length-append header rest) in
      rw (
        check-Stands_size header 4 len front,
        from_bytes-Stands 4 (bit_or (length types * 16) 3) hh front,
        header_count (length types),
        ==_ne (length types) 0 some,
        plain,
        ht,
        ==_refl (length types),
        members,
        end,
      )

empty_struct-Reads :
    (des : Deserializer) (t : Text) (header : Bytes)
    → to_bytes 4 (bit_or 0 3) ≡ ok header
    → Reads (deserialize_struct des t) header (dict end) (length header)
unfolding deserialize_struct
empty_struct-Reads des t header hh data_ at s =
    let len : length header ≡ 4 = length-to_bytes 4 (bit_or 0 3) hh in
    rw (check-Stands_size header 4 len s, from_bytes-Stands 4 (bit_or 0 3) hh s, len)

-- What `struct_bytes` wrote is read back by a type name with the same member types.
pub struct_bytes-Reads :
    (ser : Serializer) (des : Deserializer) (t : Text) (types : List Text) (values vs : List Value)
    (bs : Bytes)
    → struct_bytes ser types values ≡ ok bs
    → text_eq t (codes "struct") ≡ false
    → extract_struct_member_types t ≡ ok types
    → ((parts : List Bytes)
        → serialize_members ser types values ≡ ok parts
        → length values ≡ length types
        → (length parts ≡ length types) × EachReads des types parts vs)
    → (length types ≡ 0 → vs ≡ [])
    → Reads (deserialize_struct des t) bs (dict (members_from 0 vs)) (length bs)
unfolding struct_bytes
struct_bytes-Reads ser des t types values vs bs h plain ht each empty =
    let (same, k) = guard-eq-ok (length values == length types) type_validation _ h in
    let (header, hh, k') = >>=-eq-ok (to_bytes 4 (bit_or (length types * 16) 3)) _ k in
    elim (Bool-cases (length types == 0)) [
      | inl none_left ↦
          let e : length types ≡ 0 = (==_iff (length types) 0).0 none_left in
          let written : to_bytes 4 (bit_or 0 3) ≡ ok header = rw e at hh in
          let whole : bs ≡ header = let k'' = rw none_left at k' in cc in
          rw (whole, empty e) (unfold members_from in empty_struct-Reads des t header written)
      | inr some_left ↦
          let k'' = rw some_left at k' in
          let (parts, hp, k₃) = >>=-eq-ok (serialize_members ser types values) _ k'' in
          let (rest, hr, e) = >>=-eq-ok (with_table parts) _ k₃ in
          let whole : bs ≡ header ++ rest = cc in
          let (n, all) = each parts hp ((==_iff (length values) (length types)).0 same) in
          rw whole
            (found_struct des types parts vs rest t header hh plain ht n (ground arith) all hr)
    ]
