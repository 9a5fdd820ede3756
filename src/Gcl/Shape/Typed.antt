-- ===== src/Gcl/Shape/Typed.antt =====
-- What it means that a Python value is of a GCL type, and what the loops of the deserializer that
-- read several values keep of it.
pub mod Leaves
pub mod Whole
use dioxide_python.Prelude.{
  ℕ, zero, suc, ◌+◌, ◌-◌, ◌*◌, ◌^◌, ◌<◌, ◌≡◌, refl, ◌⊎◌, Bool, Bool-cases, inl, inr, List, [], ◌∷◌,
  length, All, arith, if◌then◌else◌,
}
use dioxide_python.Prelude.Int.{ℤ, pos, negsuc}
use dioxide_python.Prelude.Result.{Result, ok, err, ◌>>=◌, >>=-eq-ok, bind₂-eq-ok}
use dioxide_python.Bytes.{Bytes, slice}
use dioxide_python.Bytes.Laws.{IsByte, slice-All}
use dioxide_python.Text.{Text}
use dioxide_python.Gcl.Value.{
  Value, Entries, bool, int, float, str, bytes, list, dict, end, entry, from_list, items,
}
use dioxide_python.Gcl.Dict.{key_eq, is_hashable, put, zip_into, dict_zip}
use dioxide_python.Gcl.Variable.{token}
use dioxide_python.Gcl.Table.{Deserializer, read_many, read_at, read_slices}
use dioxide_python.Gcl.Container.{members_from}
use dioxide_python.Gcl.Shape.{Fixed, Key, Shape, Members, names}
use dioxide_python.Gcl.Shape.Bounds.{byte_width, fixed_size}
use mathlib.Core.List.{map, zip}
use mathlib.Core.Path.{subst}

-- The ints of `size` bytes in two's complement.
abbrev pub IsSigned : ℕ → ℤ → Type 0
IsSigned size (pos n) = n * 2 < 256 ^ size
IsSigned size (negsuc n) = n * 2 + 1 < 256 ^ size

abbrev pub IsUnsigned : ℕ → Value → Type 0
IsUnsigned size v = (n : ℕ) × (v ≡ int (pos n)) × (n < 256 ^ size)

abbrev pub IsBytes : ℕ → Value → Type 0
IsBytes size v = (b : Bytes) × (v ≡ bytes b) × (length b ≡ size)

abbrev pub HasFixed : Fixed → Value → Type 0
HasFixed Fixed.bool v = (b : Bool) × (v ≡ bool b)
HasFixed (Fixed.uint w) v = IsUnsigned (byte_width w) v
HasFixed (Fixed.int w) v = (z : ℤ) × (v ≡ int z) × IsSigned (byte_width w) z
HasFixed (Fixed.float w) v = (b : ℕ) × (v ≡ float b) × (b < 256 ^ 8)
HasFixed Fixed.blob v = IsBytes (fixed_size Fixed.blob) v
HasFixed Fixed.hash v = IsBytes (fixed_size Fixed.hash) v
HasFixed Fixed.address v = IsBytes (fixed_size Fixed.address) v
HasFixed Fixed.enum v = IsUnsigned 2 v

abbrev pub IsStr : Value → Type 0
IsStr v = (t : Text) × (v ≡ str t)

abbrev pub IsInt : Value → Type 0
IsInt v = (z : ℤ) × (v ≡ int z)

abbrev pub HasKey : Key → Value → Type 0
HasKey (Key.fixed k) v = HasFixed k v
HasKey Key.string v = IsStr v
HasKey Key.bigint v = IsInt v

-- The entries of a dict, by what its keys and its values are.
abbrev pub AllEntries : (Value → Type 0) → (Value → Type 0) → Entries → Type 0
AllEntries K V es = All (λ e. K e.0 × V e.1) (items es)

-- A struct is read as a dict of members with numbered names. A struct with the count 0 is the empty
-- dict, whatever members its type has.
unfoldable mutual
  pub HasShape : Shape → Value → Type 0
  HasShape (Shape.fixed k) v = HasFixed k v
  HasShape Shape.string v = IsStr v
  HasShape Shape.bigint v = IsInt v
  HasShape Shape.token v =
      (id : Value) × (amount : Value) × (v ≡ token id amount) × IsUnsigned 8 id × IsInt amount
  HasShape (Shape.array s) v = (vs : List Value) × (v ≡ list (from_list vs)) × All (HasShape s) vs
  HasShape (Shape.map k s) v =
      (es : Entries) × (v ≡ dict es) × AllEntries (HasKey k) (HasShape s) es
  HasShape (Shape.struct ms) v =
      (vs : List Value) × (v ≡ dict (members_from 0 vs)) × (HasMembers ms vs ⊎ (vs ≡ []))

  pub HasMembers : Members → List Value → Type 0
  HasMembers Members.none [] = Unit
  HasMembers Members.none (v ∷ vs) = ⊥
  HasMembers (Members.more s ms) [] = ⊥
  HasMembers (Members.more s ms) (v ∷ vs) = HasShape s v × HasMembers ms vs

-- What a deserializer returns for a type name, of whatever bytes.
abbrev pub Gives : Deserializer → Text → (Value → Type 0) → Type 0
Gives des t P =
    (data_ : Bytes) (at : ℕ) (v : Value) (next : ℕ)
    → All IsByte data_
    → des t data_ at ≡ ok (v, next)
    → P v

module _ (des : Deserializer) (t : Text) (P : Value → Type 0) (gives : Gives des t P) where
  pub read_many-All :
      (data_ : Bytes) (count at : ℕ) (vs : List Value) (after : ℕ)
      → All IsByte data_
      → read_many des t data_ count at ≡ ok (vs, after)
      → All P vs
  unfolding read_many
  read_many-All data_ zero at [] after small h = tt
  read_many-All data_ zero at (v ∷ vs) after small h = cc
  read_many-All data_ (suc count) at vs after small h =
      let ((v, next), hv, h₁) = >>=-eq-ok (des t data_ at) _ h in
      let ((rest, end_), hs, h₂) = >>=-eq-ok (read_many des t data_ count next) _ h₁ in
      let e : v ∷ rest ≡ vs = cc in
      subst (All P) e
        (gives data_ at v next small hv, read_many-All data_ count next rest end_ small hs)

  pub read_slices-All :
      (data_ : Bytes) (origin table_size begin : ℕ) (os : List ℕ) (vs : List Value)
      → All IsByte data_
      → read_slices des t data_ origin table_size begin os ≡ ok vs
      → All P vs
  unfolding read_slices
  read_slices-All data_ origin table_size begin [] [] small h = tt
  read_slices-All data_ origin table_size begin [] (v ∷ vs) small h = cc
  read_slices-All data_ origin table_size begin (o ∷ os) vs small h =
      let stop : ℕ = origin + o - table_size in
      let part : Bytes = slice data_ begin (stop - begin) in
      let ((v, next), hv, h₁) = >>=-eq-ok (des t part 0) _ h in
      let (rest, hs, h₂) = >>=-eq-ok (read_slices des t data_ origin table_size stop os) _ h₁ in
      let e : v ∷ rest ≡ vs = cc in
      subst (All P) e (
        gives part 0 v next (slice-All data_ begin (stop - begin) small) hv,
        read_slices-All data_ origin table_size stop os rest small hs,
      )

  pub read_at-All :
      (data_ : Bytes) (table_start begin : ℕ) (os : List ℕ) (vs : List Value)
      → All IsByte data_
      → read_at des data_ table_start begin (map (λ o. (t, o)) os) ≡ ok vs
      → All P vs
  unfolding read_at
  read_at-All data_ table_start begin [] [] small h = tt
  read_at-All data_ table_start begin [] (v ∷ vs) small h = cc
  read_at-All data_ table_start begin (o ∷ os) vs small h =
      let ((v, next), hv, h₁) = >>=-eq-ok (des t data_ begin) _ h in
      let (rest, hs, h₂) =
        >>=-eq-ok (read_at des data_ table_start (table_start + o) (map (λ x. (t, x)) os)) _ h₁ in
      let e : v ∷ rest ≡ vs = cc in
      subst (All P) e (
        gives data_ begin v next small hv,
        read_at-All data_ table_start (table_start + o) os rest small hs,
      )

module _ (K V : Value → Type 0) where
  put-AllEntries :
      (k v : Value) (d : Entries) → K k → V v → AllEntries K V d → AllEntries K V (put k v d)
  unfolding put items
  put-AllEntries k v end hk hv h = ((hk, hv), tt)
  put-AllEntries k v (entry j w es) hk hv ((hj, hw), hs) = elim (Bool-cases (key_eq j k)) [
    | inl e ↦ rw e ((hj, hv), hs)
    | inr e ↦ rw e ((hj, hw), put-AllEntries k v es hk hv hs)
  ]

  zip_into-AllEntries :
      (d : Entries) (ks vs : List Value) (es : Entries)
      → AllEntries K V d
      → All K ks
      → All V vs
      → zip_into d ks vs ≡ ok es
      → AllEntries K V es
  unfolding zip_into
  zip_into-AllEntries d [] vs es h hk hv e = let same : d ≡ es = cc in subst (AllEntries K V) same h
  zip_into-AllEntries d (k ∷ ks) [] es h hk hv e =
      let same : d ≡ es = cc in subst (AllEntries K V) same h
  zip_into-AllEntries d (k ∷ ks) (v ∷ vs) es h (hk, hks) (hv, hvs) e =
      elim (Bool-cases (is_hashable k)) [
        | inl y ↦
            zip_into-AllEntries (put k v d) ks vs es (put-AllEntries k v d hk hv h) hks hvs
              (rw y at e)
        | inr n ↦ let e' = rw n at e in cc
      ]

  pub dict_zip-AllEntries :
      (ks vs : List Value) (es : Entries)
      → All K ks
      → All V vs
      → dict_zip ks vs ≡ ok es
      → AllEntries K V es
  unfolding dict_zip items
  dict_zip-AllEntries ks vs es hk hv e = zip_into-AllEntries end ks vs es tt hk hv e
