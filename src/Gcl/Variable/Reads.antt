-- ===== src/Gcl/Variable/Reads.antt =====
-- Strings and bigints are read back.
use dioxide_python.Prelude.{ℕ, zero, suc, ◌+◌, ◌*◌, ◌<◌, ◌≡◌, ◌≢◌, refl, ◌∙◌, arith, ◌==◌}
use dioxide_python.Prelude.{
  [], ◌∷◌, ◌++◌, length, length-append, bit_and, bit_or, Bool, true, false, not, ◌&&◌, replicate,
}
use dioxide_python.Prelude.{Option, none, some, if◌then◌else◌, leb, Bool-cases, inl, inr}
use dioxide_python.Prelude.Int.{ℤ, pos, negsuc, is_neg, is_zero, abs, neg}
use dioxide_python.Prelude.Result.{ok, type_validation, >>=-eq-ok, guard-eq-ok}
use dioxide_python.Bytes.{Bytes, to_bytes}
use dioxide_python.Bytes.Laws.{length-to_bytes}
use dioxide_python.Bytes.Place.{
  Stands, Stands-left, Stands-right, from_bytes-Stands, check-Stands, check-Stands_size,
  slice-Stands, get_elem?-Stands,
}
use dioxide_python.Text.{Text}
use dioxide_python.Text.Utf8.{encode}
use dioxide_python.Text.Utf8.RoundTrip.{decode-encode}
use dioxide_python.Gcl.Value.{Value, null, bool, int, float, str, bytes, list, dict, as_int}
use dioxide_python.Gcl.Scalar.Reads.{int_or}
use dioxide_python.Gcl.Table.Laws.{Reads}
use dioxide_python.Gcl.Variable.{
  serialize_string, deserialize_string, limbs, limb_bytes, read_limbs,
}
use dioxide_python.Gcl.Variable.{nonzero_bytes, bigint_bytes, serialize_bigint, deserialize_bigint}
use dioxide_python.Gcl.Variable.Limbs.{
  limb_value-limbs, limbs-ne-nil, length-limb_bytes, read_limbs-limb_bytes,
}

text_bytes-Reads :
    (s : Text) (size utf8 : Bytes)
    → encode s ≡ ok utf8
    → to_bytes 2 (length utf8) ≡ ok size
    → Reads deserialize_string (size ++ utf8) (str s) (length (size ++ utf8))
unfolding deserialize_string
text_bytes-Reads s size utf8 hu hs data_ at st =
    let here = Stands-left size utf8 st in
    let next : Stands data_ (at + 2) utf8 =
      rw (length-to_bytes 2 (length utf8) hs) at (Stands-right size utf8 st) in
    let end : at + 2 + length utf8 ≡ at + length (size ++ utf8) =
      omega (arith, length-append size utf8, length-to_bytes 2 (length utf8) hs) in
    rw (
      check-Stands_size size 2 (length-to_bytes 2 (length utf8) hs) here,
      from_bytes-Stands 2 (length utf8) hs here,
      check-Stands utf8 next,
      slice-Stands utf8 next,
      decode-encode s hu,
      end,
    )

pub serialize_string-Reads :
    (v : Value) (bs : Bytes)
    → serialize_string v ≡ ok bs
    → Reads deserialize_string bs v (length bs)
unfolding serialize_string
serialize_string-Reads (str s) bs h =
    let (utf8, hu, k) = >>=-eq-ok (encode s) _ h in
    let (fits, k') = guard-eq-ok (leb (length utf8) 65535) type_validation _ k in
    let (size, hs, e) = >>=-eq-ok (to_bytes 2 (length utf8)) _ k' in
    let whole : bs ≡ size ++ utf8 = cc in rw whole (text_bytes-Reads s size utf8 hu hs)
serialize_string-Reads null bs h = cc
serialize_string-Reads (bool b) bs h = cc
serialize_string-Reads (int z) bs h = cc
serialize_string-Reads (float b) bs h = cc
serialize_string-Reads (bytes b) bs h = cc
serialize_string-Reads (list vs) bs h = cc
serialize_string-Reads (dict es) bs h = cc

-- How far a bigint is read: of the nine bytes of a zero, only the first.
abbrev pub bigint_size : Option ℤ → Bytes → ℕ
bigint_size none bs = length bs
bigint_size (some z) bs = if is_zero z then 1 else length bs

-- The first byte of a bigint: the count, and the sign above it. A table of 128 entries for each sign.
first_byte : Bool → ℕ → ℕ
first_byte negative count = if negative then bit_or count 0x80 else count

splits : Bool → ℕ → Bool
unfolding first_byte
splits negative zero = true
splits negative (suc n) =
    let b = first_byte negative n in
    bit_and b 0x7f == n
    && (if negative then not (bit_and b 0x80 == 0) else bit_and b 0x80 == 0)
    && splits negative n

splits_sound :
    (negative : Bool) (k n : ℕ)
    → splits negative k ≡ true
    → n < k
    → (bit_and (first_byte negative n) 0x7f ≡ n)
      × (not (bit_and (first_byte negative n) 0x80 == 0) ≡ negative)
unfolding splits
splits_sound negative zero n h lt = absurd (omega arith)
splits_sound true (suc k) n h lt = ground (arith, splits_sound true k n)
splits_sound false (suc k) n h lt = ground (arith, splits_sound false k n)

first_byte_splits :
    (negative : Bool) (n : ℕ)
    → n < 128
    → (bit_and (first_byte negative n) 0x7f ≡ n)
      × (not (bit_and (first_byte negative n) 0x80 == 0) ≡ negative)
unfolding splits
first_byte_splits true n h = splits_sound true 128 n refl h
first_byte_splits false n h = splits_sound false 128 n refl h

-- A sign and a magnitude make up the number.
sign_abs : (z : ℤ) → (if is_neg z then neg (abs z) else pos (abs z)) ≡ z
sign_abs (pos n) = refl
sign_abs (negsuc n) = refl

abs-ne-zero : (z : ℤ) → is_zero z ≡ false → abs z ≢ 0
abs-ne-zero (pos n) h = ground arith
abs-ne-zero (negsuc n) h = ground arith

nonzero_bytes-Reads :
    (z : ℤ) (bs : Bytes)
    → is_zero z ≡ false
    → nonzero_bytes z ≡ ok bs
    → Reads deserialize_bigint bs (int z) (length bs)
unfolding deserialize_bigint nonzero_bytes first_byte
nonzero_bytes-Reads z bs nz h data_ at s =
    let ns = limbs (abs z) in
    let (small, k) = guard-eq-ok (leb (length ns) 127) type_validation _ h in
    let (b, hb, e) = >>=-eq-ok (limb_bytes ns) _ k in
    let whole : bs ≡ first_byte (is_neg z) (length ns) ∷ b = cc in
    let here = rw whole at s in
    let (count, sign) = first_byte_splits (is_neg z) (length ns) (ground arith) in
    let len : length bs ≡ 1 + length ns * 8 = rw whole (omega (arith, length-limb_bytes ns hb)) in
    let next : Stands data_ (at + 1) b =
      Stands-right (first_byte (is_neg z) (length ns) ∷ []) b here in
    let full : (length ns == 0) ≡ false = ground (arith, limbs-ne-nil (abs z) (abs-ne-zero z nz)) in
    let value : read_limbs (length ns) 0 0 data_ (at + 1) ≡ abs z =
      read_limbs-limb_bytes ns 0 0 (at + 1) data_ hb next
      ∙ omega (arith, limb_value-limbs (abs z)) in
    let lead : Bytes = first_byte (is_neg z) (length ns) ∷ [] in
    rw (
      check-Stands_size lead 1 refl (Stands-left lead b here),
      get_elem?-Stands (first_byte (is_neg z) (length ns)) b here,
      count,
      check-Stands_size bs (1 + length ns * 8) len s,
      full,
      sign,
      value,
      sign_abs z,
      len,
    )

zero_bytes-Reads : Reads deserialize_bigint (0 ∷ replicate 8 0) (int (pos 0)) 1
unfolding deserialize_bigint
zero_bytes-Reads data_ at s =
    let lead : Bytes = 0 ∷ [] in
    let here : Stands data_ at lead = Stands-left lead (replicate 8 0) s in
    rw (
      check-Stands_size lead 1 refl here,
      get_elem?-Stands 0 (replicate 8 0) s,
      check-Stands_size lead 1 refl here,
    )

is_zero-eq : (z : ℤ) → is_zero z ≡ true → z ≡ pos 0
is_zero-eq (pos n) h = ground arith
is_zero-eq (negsuc n) h = cc

bigint_bytes-Reads :
    (z : ℤ) (bs : Bytes)
    → bigint_bytes (some z) ≡ ok bs
    → Reads deserialize_bigint bs (int z) (bigint_size (some z) bs)
unfolding bigint_bytes
bigint_bytes-Reads z bs h = elim (Bool-cases (is_zero z)) [
  | inl zero_z ↦
      let e : bs ≡ 0 ∷ replicate 8 0 = let k = rw zero_z at h in cc in
      rw (zero_z, e, is_zero-eq z zero_z) zero_bytes-Reads
  | inr nz ↦ rw nz (nonzero_bytes-Reads z bs nz (rw nz at h))
]

pub serialize_bigint-Reads :
    (v : Value) (bs : Bytes)
    → serialize_bigint v ≡ ok bs
    → Reads deserialize_bigint bs (int_or (as_int v) v) (bigint_size (as_int v) bs)
unfolding serialize_bigint
serialize_bigint-Reads v bs h = go (as_int v) h
  where
    go :
        (o : Option ℤ)
        → bigint_bytes o ≡ ok bs
        → Reads deserialize_bigint bs (int_or o v) (bigint_size o bs)
    go (some z) k = bigint_bytes-Reads z bs k
    go none k = unfold bigint_bytes in cc
