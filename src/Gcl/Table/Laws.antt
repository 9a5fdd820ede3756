-- ===== src/Gcl/Table/Laws.antt =====
-- The readers of this module read back what its writers wrote.
use dioxide_python.Prelude.{
  ℕ, suc, ◌+◌, ◌-◌, ◌*◌, ◌≤◌, ◌≡◌, ◌≢◌, refl, sym, ◌∙◌, ap, List, [], ◌∷◌, ◌++◌, length, arith,
}
use dioxide_python.Prelude.{append-nil, length-append}
use dioxide_python.Prelude.Result.{Result, ok, bind₂-eq-ok, map_result}
use dioxide_python.Bytes.{Bytes, to_bytes}
use dioxide_python.Bytes.Laws.{length-to_bytes}
use dioxide_python.Bytes.Place.{
  Stands, all-Stands, Stands-left, Stands-right, slice-Stands, from_bytes-Stands,
}
use dioxide_python.Text.{Text}
use dioxide_python.Gcl.Value.{Value}
use dioxide_python.Gcl.Table.{
  Deserializer, join, end_offsets, offset_bytes, read_offsets, last_or, read_many, read_at,
  read_slices,
}
use mathlib.Core.List.{map, zip}
use mathlib.Core.Path.{subst}

-- Wherever `bs` stands, `des` reads `v` from it and goes on `n` bytes further.
abbrev pub Reads : (Bytes → ℕ → Result (Value × ℕ)) → Bytes → Value → ℕ → Type 0
Reads des bs v n = (data_ : Bytes) (at : ℕ) → Stands data_ at bs → des data_ at ≡ ok (v, at + n)

-- Each part is read as the value at its place.
abbrev pub EachReads : Deserializer → List Text → List Bytes → List Value → Type 0
EachReads rec [] [] [] = Unit
EachReads rec (t ∷ ts) (b ∷ bs) (v ∷ vs) = ((n : ℕ) × Reads (rec t) b v n) × EachReads rec ts bs vs
EachReads rec _ _ _ = ⊥

pub length-end_offsets :
    (cur : ℕ) (parts : List Bytes) → length (end_offsets cur parts) ≡ length parts
unfolding end_offsets
length-end_offsets cur [] = refl
length-end_offsets cur (b ∷ bs) = ap suc (length-end_offsets (cur + length b) bs)

-- The last offset is the end of the last part.
pub last-end_offsets :
    (d cur : ℕ) (b : Bytes) (bs : List Bytes)
    → last_or d (end_offsets cur (b ∷ bs)) ≡ cur + length (join (b ∷ bs))
unfolding end_offsets join
last-end_offsets d cur b [] = ap (λ (x : Bytes). cur + length x) (sym (append-nil b))
last-end_offsets d cur b (c ∷ bs) =
    last-end_offsets (cur + length b) (cur + length b) c bs
    ∙ omega (arith, length-append b (c ++ join bs))

pub last-end_offsets_of :
    (cur : ℕ) (parts : List Bytes)
    → length parts ≢ 0
    → last_or 0 (end_offsets cur parts) ≡ cur + length (join parts)
last-end_offsets_of cur [] h = absurd (h refl)
last-end_offsets_of cur (b ∷ bs) h = last-end_offsets 0 cur b bs

pub length-offset_bytes :
    (os : List ℕ) {tb : Bytes} → offset_bytes os ≡ ok tb → length tb ≡ length os * 4
unfolding offset_bytes
length-offset_bytes [] {tb} h = let e : tb ≡ [] = cc in rw e
length-offset_bytes (o ∷ os) h =
    let (b, bs, hb, hbs, e) = bind₂-eq-ok (to_bytes 4 o) (offset_bytes os) (λ x y. x ++ y) h in
    rw e (omega (arith, length-append b bs, length-to_bytes 4 o hb, length-offset_bytes os hbs))

-- The offsets are read back.
pub read_offsets-offset_bytes :
    (os : List ℕ) {tb : Bytes} (data_ : Bytes) (at : ℕ)
    → offset_bytes os ≡ ok tb
    → Stands data_ at tb
    → read_offsets (length os) data_ at ≡ os
unfolding offset_bytes read_offsets
read_offsets-offset_bytes [] data_ at h s = refl
read_offsets-offset_bytes (o ∷ os) data_ at h s =
    let (b, bs, hb, hbs, e) = bind₂-eq-ok (to_bytes 4 o) (offset_bytes os) (λ x y. x ++ y) h in
    let here = rw e at s in
    let next : Stands data_ (at + 4) bs = rw (length-to_bytes 4 o hb) at (Stands-right b bs here) in
    rw (from_bytes-Stands 4 o hb (Stands-left b bs here))
      (ap (λ r. o ∷ r) (read_offsets-offset_bytes os data_ (at + 4) hbs next))

module _ (rec : Deserializer) where
  pub read_at-EachReads :
      (ts : List Text) (parts : List Bytes) (vs : List Value)
      → EachReads rec ts parts vs
      → (data_ : Bytes) (table_start cur : ℕ) → Stands data_ (table_start + cur) (join parts)
      → read_at rec data_ table_start (table_start + cur) (zip ts (end_offsets cur parts)) ≡ ok vs
  unfolding read_at end_offsets join zip
  read_at-EachReads [] [] [] r data_ table_start cur s = refl
  read_at-EachReads [] [] (v ∷ vs) r data_ table_start cur s = elim r [ ]
  read_at-EachReads [] (b ∷ bs) vs r data_ table_start cur s = elim r [ ]
  read_at-EachReads (t ∷ ts) [] vs r data_ table_start cur s = elim r [ ]
  read_at-EachReads (t ∷ ts) (b ∷ bs) [] r data_ table_start cur s = elim r [ ]
  read_at-EachReads (t ∷ ts) (b ∷ bs) (v ∷ vs) ((n, r), rs) data_ table_start cur s =
      let next : Stands data_ (table_start + (cur + length b)) (join bs) =
        subst (λ k. Stands data_ k (join bs)) (omega arith) (Stands-right b (join bs) s) in
      rw (
        r data_ (table_start + cur) (Stands-left b (join bs) s),
        read_at-EachReads ts bs vs rs data_ table_start (cur + length b) next,
      )

-- The parts of one type.
abbrev pub AllRead : (Bytes → ℕ → Result (Value × ℕ)) → List Bytes → List Value → Type 0
AllRead des [] [] = Unit
AllRead des (b ∷ bs) (v ∷ vs) = ((n : ℕ) × Reads des b v n) × AllRead des bs vs
AllRead des _ _ = ⊥

module _ (rec : Deserializer) (t : Text) where
  pub AllRead→EachReads :
      (parts : List Bytes) (vs : List Value)
      → AllRead (rec t) parts vs
      → EachReads rec (map (λ _. t) parts) parts vs
  AllRead→EachReads [] [] r = tt
  AllRead→EachReads [] (v ∷ vs) r = elim r [ ]
  AllRead→EachReads (b ∷ bs) [] r = elim r [ ]
  AllRead→EachReads (b ∷ bs) (v ∷ vs) (r, rs) = (r, AllRead→EachReads bs vs rs)

  zip_same :
      (cur : ℕ) (parts : List Bytes)
      → zip (map (λ _. t) parts) (end_offsets cur parts) ≡ map (λ o. (t, o)) (end_offsets cur parts)
  unfolding zip end_offsets
  zip_same cur [] = refl
  zip_same cur (b ∷ bs) = ap (λ r. (t, cur + length b) ∷ r) (zip_same (cur + length b) bs)

  -- The values of a map.
  pub read_at-AllRead :
      (parts : List Bytes) (vs : List Value) (data_ : Bytes) (table_start cur : ℕ)
      → AllRead (rec t) parts vs
      → Stands data_ (table_start + cur) (join parts)
      → read_at rec data_ table_start
          (table_start + cur)
          (map (λ o. (t, o)) (end_offsets cur parts))
        ≡ ok vs
  read_at-AllRead parts vs data_ table_start cur r s =
      rw (← zip_same cur parts)
        (read_at-EachReads rec _ parts vs (AllRead→EachReads parts vs r) data_ table_start cur s)

  -- The elements of an array, each from its slice.
  pub read_slices-AllRead :
      (parts : List Bytes) (vs : List Value) (data_ : Bytes) (origin size cur : ℕ)
      → AllRead (rec t) parts vs
      → size ≤ cur
      → Stands data_ (origin + cur - size) (join parts)
      → read_slices rec t data_ origin size (origin + cur - size) (end_offsets cur parts) ≡ ok vs
  unfolding read_slices end_offsets join
  read_slices-AllRead [] [] data_ origin size cur r h s = refl
  read_slices-AllRead [] (v ∷ vs) data_ origin size cur r h s = elim r [ ]
  read_slices-AllRead (b ∷ bs) [] data_ origin size cur r h s = elim r [ ]
  read_slices-AllRead (b ∷ bs) (v ∷ vs) data_ origin size cur ((n, r), rs) h s =
      let begin : ℕ = origin + cur - size in
      let width : origin + (cur + length b) - size - begin ≡ length b = omega arith in
      let next : Stands data_ (origin + (cur + length b) - size) (join bs) =
        subst (λ k. Stands data_ k (join bs)) (omega arith) (Stands-right b (join bs) s) in
      rw (
        width,
        slice-Stands b (Stands-left b (join bs) s),
        r b 0 (all-Stands b),
        read_slices-AllRead bs vs data_ origin size (cur + length b) rs (omega arith) next,
      )

-- Parts that are read to their ends.
abbrev pub AllFull : (Bytes → ℕ → Result (Value × ℕ)) → List Bytes → List Value → Type 0
AllFull des [] [] = Unit
AllFull des (b ∷ bs) (v ∷ vs) = Reads des b v (length b) × AllFull des bs vs
AllFull des _ _ = ⊥

-- Values one after the other.
pub read_many-AllFull :
    (rec : Deserializer) (t : Text) (parts : List Bytes) (vs : List Value) (data_ : Bytes) (at : ℕ)
    → AllFull (rec t) parts vs
    → Stands data_ at (join parts)
    → read_many rec t data_ (length parts) at ≡ ok (vs, at + length (join parts))
unfolding read_many join
read_many-AllFull rec t [] [] data_ at r s = ap (λ (k : ℕ). ok ([], k)) (omega arith)
read_many-AllFull rec t [] (v ∷ vs) data_ at r s = elim r [ ]
read_many-AllFull rec t (b ∷ bs) [] data_ at r s = elim r [ ]
read_many-AllFull rec t (b ∷ bs) (v ∷ vs) data_ at (r, rs) s =
    let end : at + length b + length (join bs) ≡ at + length (b ++ join bs) =
      omega (arith, length-append b (join bs)) in
    rw (
      r data_ at (Stands-left b (join bs) s),
      read_many-AllFull rec t bs vs data_ (at + length b) rs (Stands-right b (join bs) s),
      end,
    )

-- What the loops that serialize the parts give.
module _ {A : Type 0} (ser : A → Result Bytes) (des : Bytes → ℕ → Result (Value × ℕ))
    (dec : A → Value) where
  pub map_result-AllRead :
      (size : A → Bytes → ℕ)
      → ((x : A) (b : Bytes) → ser x ≡ ok b → Reads des b (dec x) (size x b))
      → (xs : List A) {parts : List Bytes} → map_result ser xs ≡ ok parts
      → (length parts ≡ length xs) × AllRead des parts (map dec xs)
  unfolding map_result
  map_result-AllRead size reads [] {parts} h = let e : parts ≡ [] = cc in rw e (refl, tt)
  map_result-AllRead size reads (x ∷ xs) h =
      let (b, bs, hb, hbs, e) = bind₂-eq-ok (ser x) (map_result ser xs) (λ y ys. y ∷ ys) h in
      let (n, r) = map_result-AllRead size reads xs hbs in
      rw e (ap suc n, ((size x b, reads x b hb), r))

  pub map_result-AllFull :
      ((x : A) (b : Bytes) → ser x ≡ ok b → Reads des b (dec x) (length b))
      → (xs : List A) {parts : List Bytes} → map_result ser xs ≡ ok parts
      → (length parts ≡ length xs) × AllFull des parts (map dec xs)
  unfolding map_result
  map_result-AllFull reads [] {parts} h = let e : parts ≡ [] = cc in rw e (refl, tt)
  map_result-AllFull reads (x ∷ xs) h =
      let (b, bs, hb, hbs, e) = bind₂-eq-ok (ser x) (map_result ser xs) (λ y ys. y ∷ ys) h in
      let (n, r) = map_result-AllFull reads xs hbs in rw e (ap suc n, (reads x b hb, r))
