-- ===== src/Gcl/Container/Arrays.antt =====
-- An array is read back, element for element.
use dioxide_python.Prelude.{
  ℕ, suc, ◌+◌, ◌-◌, ◌*◌, ◌≡◌, sym, ◌∙◌, ap, List, [], ◌∷◌, ◌++◌, length, arith, true, false,
  suc_ne_zero, ==_ne, Bool, if◌then◌else◌,
}
use dioxide_python.Prelude.{append-nil, length-append}
use dioxide_python.Prelude.Result.{Result, ok, err, ◌>>=◌, >>=-eq-ok, map_result}
use dioxide_python.Bytes.{Bytes, to_bytes}
use dioxide_python.Bytes.Laws.{length-to_bytes}
use dioxide_python.Bytes.Place.{Stands-left, Stands-right, check-Stands_size, from_bytes-Stands}
use dioxide_python.Text.{Text}
use dioxide_python.Gcl.Value.{Value, list, from_list}
use dioxide_python.Gcl.TypeName.{is_variable_size_type}
use dioxide_python.Gcl.Table.{Deserializer, join, end_offsets, last_or}
use dioxide_python.Gcl.Table.Laws.{
  Reads, AllRead, AllFull, map_result-AllRead, map_result-AllFull, read_slices-AllRead,
  read_many-AllFull, last-end_offsets_of,
}
use dioxide_python.Gcl.Container.{Serializer, with_table, array_bytes, deserialize_array}
use dioxide_python.Gcl.Container.Tables.{TableAt, with_table-TableAt, length-with_table}
use mathlib.Core.List.{map}

-- The empty array is its length.
empty_array-Reads :
    (des : Deserializer) (t : Text) (bs : Bytes)
    → to_bytes 4 0 ≡ ok bs
    → Reads (deserialize_array des t) bs (list (from_list [])) (length bs)
unfolding deserialize_array
empty_array-Reads des t bs h data_ at s = rw (
  check-Stands_size bs 4 (length-to_bytes 4 0 h) s,
  from_bytes-Stands 4 0 h s,
  length-to_bytes 4 0 h,
)

array_bytes-nil :
    (ser : Serializer) (t : Text) {bs : Bytes} → array_bytes ser t [] ≡ ok bs → to_bytes 4 0 ≡ ok bs
unfolding array_bytes join map_result
array_bytes-nil ser t {bs} h = go (to_bytes 4 0) (is_variable_size_type t) h
  where
    go :
        (m : Result Bytes) (variable : Bool)
        → (m >>= λ size. if variable then ok size else ok (size ++ [])) ≡ ok bs
        → m ≡ ok bs
    go (ok size) true k = k
    go (ok size) false k = sym (ap ok (append-nil size)) ∙ k
    go (err e) variable k = cc

module _ (ser : Serializer) (des : Deserializer) (t : Text) (dec : Value → Value) where
  fixed_elements :
      (size : Bytes) (parts : List Bytes) (x : Value) (xs : List Value) (bs : Bytes)
      → is_variable_size_type t ≡ false
      → to_bytes 4 (suc (length xs)) ≡ ok size
      → length parts ≡ suc (length xs)
      → AllFull (des t) parts (map dec (x ∷ xs))
      → bs ≡ size ++ join parts
      → Reads (deserialize_array des t) bs (list (from_list (map dec (x ∷ xs)))) (length bs)
  unfolding deserialize_array
  fixed_elements size parts x xs bs fixed hs n full e data_ at s =
      let here = rw e at s in
      let front = Stands-left size (join parts) here in
      let len : length size ≡ 4 = length-to_bytes 4 (suc (length xs)) hs in
      let elements =
        read_many-AllFull des t parts (map dec (x ∷ xs)) data_ (at + 4) full
          (rw len at (Stands-right size (join parts) here)) in
      let end : at + 4 + length (join parts) ≡ at + length bs =
        rw e (omega (arith, length-append size (join parts), len)) in
      rw (
        check-Stands_size size 4 len front,
        from_bytes-Stands 4 (suc (length xs)) hs front,
        suc_ne_zero (length xs),
        fixed,
        rw n at elements,
        end,
      )

  -- Elements of a fixed size.
  pub fixed_array-Reads :
      is_variable_size_type t ≡ false
      → ((v : Value) (b : Bytes) → ser t v ≡ ok b → Reads (des t) b (dec v) (length b))
      → (vs : List Value) (bs : Bytes) → array_bytes ser t vs ≡ ok bs
      → Reads (deserialize_array des t) bs (list (from_list (map dec vs))) (length bs)
  unfolding array_bytes join
  fixed_array-Reads fixed reads [] bs h = empty_array-Reads des t bs (array_bytes-nil ser t h)
  fixed_array-Reads fixed reads (x ∷ xs) bs h =
      let vs : List Value = x ∷ xs in
      let (size, hs, k) = >>=-eq-ok (to_bytes 4 (length vs)) _ (rw fixed at h) in
      let (parts, hp, e) = >>=-eq-ok (map_result (ser t) vs) _ k in
      let (n, full) = map_result-AllFull (ser t) (des t) dec reads vs hp in
      fixed_elements size parts x xs bs fixed hs n full (cc)

  variable_elements :
      (size : Bytes) (parts : List Bytes) (x : Value) (xs : List Value) (rest bs : Bytes)
      → is_variable_size_type t ≡ true
      → to_bytes 4 (suc (length xs)) ≡ ok size
      → length parts ≡ suc (length xs)
      → AllRead (des t) parts (map dec (x ∷ xs))
      → with_table parts ≡ ok rest
      → bs ≡ size ++ rest
      → Reads (deserialize_array des t) bs (list (from_list (map dec (x ∷ xs)))) (length bs)
  unfolding deserialize_array
  variable_elements size parts x xs rest bs variable hs n all ht e data_ at s =
      let here = rw e at s in
      let front = Stands-left size rest here in
      let len : length size ≡ 4 = length-to_bytes 4 (suc (length xs)) hs in
      let found : TableAt parts data_ (at + 4) =
        with_table-TableAt parts data_ (at + 4) ht (rw len at (Stands-right size rest here)) in
      let table_size : ℕ = length parts * 4 in
      let origin : ℕ = at + 4 + table_size in
      let begin : origin + table_size - table_size ≡ origin = omega arith in
      let elements =
        read_slices-AllRead des t parts (map dec (x ∷ xs)) data_ origin table_size table_size all
          (omega arith) (rw begin found.behind) in
      let last : last_or 0 (end_offsets table_size parts) ≡ table_size + length (join parts) =
        last-end_offsets_of table_size parts (omega arith) in
      let end : origin + last_or 0 (end_offsets table_size parts) - table_size ≡ at + length bs =
        rw e (omega (arith, last, len, length-append size rest, length-with_table parts ht)) in
      let hs' : to_bytes 4 (length parts) ≡ ok size = rw n hs in
      rw (
        check-Stands_size size 4 len front,
        from_bytes-Stands 4 (length parts) hs' front,
        ==_ne (length parts) 0 (omega arith),
        variable,
        found.room,
        found.offsets,
        rw begin at elements,
        end,
      )

  -- Elements of a variable size, however far each reader goes.
  pub variable_array-Reads :
      (size : Value → Bytes → ℕ)
      → is_variable_size_type t ≡ true
      → ((v : Value) (b : Bytes) → ser t v ≡ ok b → Reads (des t) b (dec v) (size v b))
      → (vs : List Value) (bs : Bytes) → array_bytes ser t vs ≡ ok bs
      → Reads (deserialize_array des t) bs (list (from_list (map dec vs))) (length bs)
  unfolding array_bytes
  variable_array-Reads size variable reads [] bs h =
      empty_array-Reads des t bs (array_bytes-nil ser t h)
  variable_array-Reads size variable reads (x ∷ xs) bs h =
      let vs : List Value = x ∷ xs in
      let h' = rw (variable, suc_ne_zero (length xs)) at h in
      let (b, hs, k) = >>=-eq-ok (to_bytes 4 (length vs)) _ h' in
      let (parts, hp, k') = >>=-eq-ok (map_result (ser t) vs) _ k in
      let (n, all) = map_result-AllRead (ser t) (des t) dec size reads vs hp in
      let (rest, hr, e) = >>=-eq-ok (with_table parts) _ k' in
      variable_elements b parts x xs rest bs variable hs n all hr (cc)
