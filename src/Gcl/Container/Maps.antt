-- ===== src/Gcl/Container/Maps.antt =====
-- A map is read back: the keys one after the other, the values by the table or one after the other.
use dioxide_python.Prelude.{
  ℕ, ◌+◌, ◌*◌, ◌≡◌, refl, ap, List, [], ◌∷◌, ◌++◌, length, arith, Bool-cases, inl, inr, true, false,
  ◌==◌, ==_iff, if◌then◌else◌,
}
use dioxide_python.Prelude.{length-append}
use dioxide_python.Prelude.Result.{ok, >>=-eq-ok, map_result}
use dioxide_python.Bytes.{Bytes, to_bytes}
use dioxide_python.Bytes.Laws.{length-to_bytes}
use dioxide_python.Bytes.Place.{
  Stands, Stands-left, Stands-right, check-Stands_size, from_bytes-Stands,
}
use dioxide_python.Text.{Text}
use dioxide_python.Gcl.Value.{Value, Entries, dict}
use dioxide_python.Gcl.Dict.{dict_zip}
use dioxide_python.Gcl.TypeName.{is_variable_size_type}
use dioxide_python.Gcl.Table.{Deserializer, join, end_offsets, last_or}
use dioxide_python.Gcl.Table.Laws.{
  Reads, AllRead, AllFull, map_result-AllRead, map_result-AllFull, read_at-AllRead,
  read_many-AllFull, last-end_offsets_of,
}
use dioxide_python.Gcl.Container.{Serializer, with_table, map_bytes, map_values, deserialize_map}
use dioxide_python.Gcl.Container.Tables.{TableAt, with_table-TableAt, length-with_table}
use mathlib.Core.List.{map}

length-join_nil : (parts : List Bytes) → length parts ≡ 0 → length (join parts) ≡ 0
unfolding join
length-join_nil [] h = refl
length-join_nil (p ∷ ps) h = absurd (omega arith)

module _ (des : Deserializer) (t : Text) (parts : List Bytes) (vs : List Value) (data_ : Bytes)
    (start : ℕ) where
  map_values_variable :
      (rest : Bytes)
      → is_variable_size_type t ≡ true
      → AllRead (des t) parts vs
      → with_table parts ≡ ok rest
      → Stands data_ start rest
      → map_values des t data_ (length parts) start ≡ ok (vs, start + length rest)
  unfolding map_values
  map_values_variable rest variable all ht s =
      let found : TableAt parts data_ start = with_table-TableAt parts data_ start ht s in
      let size : ℕ = length parts * 4 in
      let values = read_at-AllRead des t parts vs data_ start size all found.behind in
      let total = length-with_table parts ht in
      elim (Bool-cases (length parts == 0)) [
        | inl none_left ↦
            let e : start ≡ start + length rest = omega (
              arith,
              total,
              length-join_nil parts ((==_iff (length parts) 0).0 none_left),
              (==_iff (length parts) 0).0 none_left,
            ) in
            rw (variable, found.room, found.offsets, values, none_left)
              (ap (λ (k : ℕ). ok (vs, k)) e)
        | inr some_left ↦
            let last : last_or 0 (end_offsets size parts) ≡ size + length (join parts) =
              last-end_offsets_of size parts (ground arith) in
            let e : start + last_or 0 (end_offsets size parts) ≡ start + length rest =
              omega (arith, total, last) in
            rw (variable, found.room, found.offsets, values, some_left, e)
      ]

  map_values_fixed :
      is_variable_size_type t ≡ false
      → AllFull (des t) parts vs
      → Stands data_ start (join parts)
      → map_values des t data_ (length parts) start ≡ ok (vs, start + length (join parts))
  unfolding map_values
  map_values_fixed fixed all s = rw (fixed, read_many-AllFull des t parts vs data_ start all s)

-- The keys of a map that was serialized were.
pub map_bytes-keys :
    (ser : Serializer) (key_type value_type : Text) (es : List (Value × Value)) {bs : Bytes}
    → map_bytes ser key_type value_type es ≡ ok bs
    → (ks : List Bytes) × (map_result (λ e. ser key_type e.0) es ≡ ok ks)
unfolding map_bytes
map_bytes-keys ser key_type value_type es h =
    let (sb, hs, k₁) = >>=-eq-ok (to_bytes 4 (length es)) _ h in
    let (ks, hk, k₂) = >>=-eq-ok (map_result (λ e. ser key_type e.0) es) _ k₁ in (ks, hk)

-- The keys of a map are read to their ends; of the values only those of a fixed size need be.
module _ (ser : Serializer) (des : Deserializer) (key_type value_type : Text)
    (dec_key dec_value : Value × Value → Value) (size : Value × Value → Bytes → ℕ)
    (keys_read : (e : Value × Value) (b : Bytes)
      → ser key_type e.0 ≡ ok b
      → Reads (des key_type) b (dec_key e) (length b))
    (values_read : (e : Value × Value) (b : Bytes)
      → ser value_type e.1 ≡ ok b
      → Reads (des value_type) b (dec_value e) (size e b))
    (full : is_variable_size_type value_type ≡ false
      → (e : Value × Value) (b : Bytes) → size e b ≡ length b) where
  value_parts :
      (es : List (Value × Value)) (parts : List Bytes) (rest : Bytes)
      → map_result (λ e. ser value_type e.1) es ≡ ok parts
      → (if is_variable_size_type value_type then with_table parts else ok (join parts)) ≡ ok rest
      → (data_ : Bytes) (start : ℕ) → Stands data_ start rest
      → map_values des value_type data_ (length es) start
        ≡ ok (map dec_value es, start + length rest)
  value_parts es parts rest hp hr data_ start s =
      elim (Bool-cases (is_variable_size_type value_type)) [
        | inl variable ↦
            let (n, all) =
              map_result-AllRead (λ (e : Value × Value). ser value_type e.1) (des value_type)
                dec_value size values_read es hp in
            rw n at (
              map_values_variable des value_type parts (map dec_value es) data_ start rest variable
                all (rw variable at hr) s)
        | inr fixed ↦
            let (n, all) =
              map_result-AllFull (λ (e : Value × Value). ser value_type e.1) (des value_type)
                dec_value (λ e b h. rw (full fixed e b) at (values_read e b h)) es hp in
            let e : join parts ≡ rest = let h = rw fixed at hr in cc in
            rw (n, e) at
              (map_values_fixed des value_type parts (map dec_value es) data_ start fixed all
                (rw (← e) at s))
      ]

  found_map :
      (es : List (Value × Value)) (sb : Bytes) (ks ps : List Bytes) (rest : Bytes) (d : Entries)
      → to_bytes 4 (length es) ≡ ok sb
      → map_result (λ e. ser key_type e.0) es ≡ ok ks
      → map_result (λ e. ser value_type e.1) es ≡ ok ps
      → (if is_variable_size_type value_type then with_table ps else ok (join ps)) ≡ ok rest
      → dict_zip (map dec_key es) (map dec_value es) ≡ ok d
      → (data_ : Bytes) (at : ℕ) → Stands data_ at (sb ++ (join ks ++ rest))
      → deserialize_map des key_type value_type data_ at
        ≡ ok (dict d, at + length (sb ++ (join ks ++ rest)))
  unfolding deserialize_map
  found_map es sb ks ps rest d hs hk hp hr hd data_ at here =
      let front = Stands-left sb (join ks ++ rest) here in
      let len : length sb ≡ 4 = length-to_bytes 4 (length es) hs in
      let keys_here : Stands data_ (at + 4) (join ks ++ rest) =
        rw len at (Stands-right sb (join ks ++ rest) here) in
      let values_here = Stands-right (join ks) rest keys_here in
      let (n, all) =
        map_result-AllFull (λ (e : Value × Value). ser key_type e.0) (des key_type) dec_key
          keys_read es hk in
      let keys = rw n at (
        read_many-AllFull des key_type ks (map dec_key es) data_ (at + 4) all
          (Stands-left (join ks) rest keys_here)) in
      let values = value_parts es ps rest hp hr data_ (at + 4 + length (join ks)) values_here in
      let end : at + 4 + length (join ks) + length rest ≡ at + length (sb ++ (join ks ++ rest)) =
        omega (arith, length-append sb (join ks ++ rest), length-append (join ks) rest, len) in
      rw (
        check-Stands_size sb 4 len front,
        from_bytes-Stands 4 (length es) hs front,
        keys,
        values,
        hd,
        end,
      )

  pub map_bytes-Reads :
      (es : List (Value × Value)) (bs : Bytes) (d : Entries)
      → map_bytes ser key_type value_type es ≡ ok bs
      → dict_zip (map dec_key es) (map dec_value es) ≡ ok d
      → Reads (deserialize_map des key_type value_type) bs (dict d) (length bs)
  unfolding map_bytes
  map_bytes-Reads es bs d h hd =
      let (sb, hs, k₁) = >>=-eq-ok (to_bytes 4 (length es)) _ h in
      let (ks, hk, k₂) = >>=-eq-ok (map_result (λ e. ser key_type e.0) es) _ k₁ in
      let (ps, hp, k₃) = >>=-eq-ok (map_result (λ e. ser value_type e.1) es) _ k₂ in
      let (rest, hr, e) =
        >>=-eq-ok (if is_variable_size_type value_type then with_table ps else ok (join ps)) _ k₃ in
      let whole : bs ≡ sb ++ (join ks ++ rest) = cc in
      rw whole (found_map es sb ks ps rest d hs hk hp hr hd)
