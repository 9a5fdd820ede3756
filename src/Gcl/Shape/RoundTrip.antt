-- ===== src/Gcl/Shape/RoundTrip.antt =====
-- One round of the dispatch at an array and at a map.
use dioxide_python.Prelude.{◌≡◌, refl, sym, ◌∙◌, true, false, length}
use dioxide_python.Prelude.Result.{ok, map_result-All}
use dioxide_python.Bytes.{Bytes}
use dioxide_python.Gcl.Value.{Value, null, bool, int, float, str, bytes, list, dict, to_list, items}
use dioxide_python.Gcl.Dict.{is_hashable, dict_zip-ok}
use dioxide_python.Gcl.TypeName.{is_variable_size_type}
use dioxide_python.Gcl.Table.Laws.{Reads}
use dioxide_python.Gcl.Table.{Deserializer}
use dioxide_python.Gcl.Container.{
  Serializer, deserialize_array, deserialize_map, serialize_array, serialize_map,
}
use dioxide_python.Gcl.Container.Arrays.{fixed_array-Reads, variable_array-Reads}
use dioxide_python.Gcl.Container.Maps.{map_bytes-Reads, map_bytes-keys}
use dioxide_python.Gcl.Shape.{Key, Shape, key_name, name}
use dioxide_python.Gcl.Shape.Dispatch.{is_variable_size-name, has_variable_size}
use dioxide_python.Gcl.Shape.Decoded.{decoded_key, decoded, read_size}
use dioxide_python.Gcl.Shape.Decoded.{decoded_list, decoded_map}

-- One round at an array, given the elements.
pub array_step :
    (ser : Serializer) (des : Deserializer) (s : Shape)
    → ((v : Value) (b : Bytes)
        → ser (name s) v ≡ ok b
        → Reads (des (name s)) b (decoded s v) (read_size s v b))
    → (v : Value) (bs : Bytes) → serialize_array ser (name s) v ≡ ok bs
    → Reads (deserialize_array des (name s)) bs (decoded_list (decoded s) v) (length bs)
unfolding serialize_array
array_step ser des s reads (list vs) bs h = go s reads (is_variable_size-name s)
  where
    go :
        (s' : Shape)
        → ((v : Value) (b : Bytes)
            → ser (name s) v ≡ ok b
            → Reads (des (name s)) b (decoded s v) (read_size s' v b))
        → is_variable_size_type (name s) ≡ has_variable_size s'
        → Reads (deserialize_array des (name s)) bs (decoded_list (decoded s) (list vs)) (length bs)
    go (Shape.fixed k) r fixed =
        fixed_array-Reads ser des (name s) (decoded s) fixed r (to_list vs) bs h
    go Shape.string r variable =
        variable_array-Reads ser des (name s) (decoded s) (read_size Shape.string) variable r
          (to_list vs) bs h
    go s' r variable =
        variable_array-Reads ser des (name s) (decoded s) (read_size s') variable r (to_list vs) bs
          h
array_step ser des s reads null bs h = cc
array_step ser des s reads (bool b) bs h = cc
array_step ser des s reads (int z) bs h = cc
array_step ser des s reads (float f) bs h = cc
array_step ser des s reads (str t) bs h = cc
array_step ser des s reads (bytes b) bs h = cc
array_step ser des s reads (dict es) bs h = cc

read_size-fixed :
    (s : Shape)
    → is_variable_size_type (name s) ≡ false
    → (v : Value) (b : Bytes) → read_size s v b ≡ length b
read_size-fixed s h v b = go s (sym (is_variable_size-name s) ∙ h)
  where
    go : (s' : Shape) → has_variable_size s' ≡ false → read_size s' v b ≡ length b
    go (Shape.fixed k) e = refl
    go Shape.string e = refl
    go Shape.bigint e = cc
    go Shape.token e = cc
    go (Shape.array s') e = refl
    go (Shape.map k s') e = refl
    go (Shape.struct ms) e = refl

pub map_step :
    (ser : Serializer) (des : Deserializer) (k : Key) (s : Shape)
    → ((v : Value) (b : Bytes)
        → ser (key_name k) v ≡ ok b
        → Reads (des (key_name k)) b (decoded_key k v) (length b))
    → ((v : Value) (b : Bytes) → ser (key_name k) v ≡ ok b → is_hashable (decoded_key k v) ≡ true)
    → ((v : Value) (b : Bytes)
        → ser (name s) v ≡ ok b
        → Reads (des (name s)) b (decoded s v) (read_size s v b))
    → (v : Value) (bs : Bytes) → serialize_map ser (key_name k) (name s) v ≡ ok bs
    → Reads
        (deserialize_map des (key_name k) (name s))
        bs
        (decoded_map (decoded_key k) (decoded s) v)
        (length bs)
unfolding serialize_map
map_step ser des k s keys hashable values (dict es) bs h =
    let (ks, hk) = map_bytes-keys ser (key_name k) (name s) (items es) h in
    let all =
      map_result-All (λ (e : Value × Value). is_hashable (decoded_key k e.0) ≡ true)
        (λ e. ser (key_name k) e.0) (λ e b p. hashable e.0 b p) (items es) hk in
    map_bytes-Reads ser des (key_name k) (name s) (λ e. decoded_key k e.0) (λ e. decoded s e.1)
      (λ e b. read_size s e.1 b) (λ e b p. keys e.0 b p) (λ e b p. values e.1 b p)
      (λ fixed e b. read_size-fixed s fixed e.1 b) (items es) bs _ h
      (dict_zip-ok (λ e. decoded_key k e.0) (λ e. decoded s e.1) (items es) all)
map_step ser des k s keys hashable values null bs h = cc
map_step ser des k s keys hashable values (bool b) bs h = cc
map_step ser des k s keys hashable values (int z) bs h = cc
map_step ser des k s keys hashable values (float f) bs h = cc
map_step ser des k s keys hashable values (str t) bs h = cc
map_step ser des k s keys hashable values (bytes b) bs h = cc
map_step ser des k s keys hashable values (list es) bs h = cc
