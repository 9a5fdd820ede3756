-- ===== src/Gcl/Scalar/Ranges.antt =====
-- Which ints the integer types take, and which bytes stand for them.
use dioxide_python.Prelude.{
  ℕ, suc, ◌+◌, ◌-◌, ◌*◌, ◌^◌, ◌≤◌, ◌<◌, ◌≡◌, refl, sym, ◌∙◌, ap, ◌⊎◌, inl, inr, Bool-cases, true,
  false, arith,
}
use dioxide_python.Prelude.{length, leb, ltb, All, lt→ltb, ltb→lt}
use dioxide_python.Prelude.Int.{ℤ, pos, negsuc}
use dioxide_python.Prelude.Bits.{pow_256}
use dioxide_python.Prelude.Result.{Result, ok, err, type_validation, deserialization, guard-eq-ok}
use dioxide_python.Bytes.{
  Bytes, slice, le_digits, to_bytes, from_bytes, to_bytes_signed, from_bytes_signed,
  check_data_length,
}
use dioxide_python.Bytes.Laws.{
  IsByte, from_bytes-to_bytes, length-le_digits, le_digits-from_bytes, from_bytes-lt, slice-All,
  length-slice,
}
use dioxide_python.Bytes.Signed.{length-to_bytes_signed, from_bytes_signed-to_bytes_signed}
use dioxide_python.Text.{Text}
use dioxide_python.Gcl.Value.{Value, int}
use dioxide_python.Gcl.Scalar.{
  byte_size, uint_bytes, serialize_uint, int_bytes, serialize_int, deserialize_sized,
  deserialize_uint, deserialize_bool, deserialize_float,
}
use native.Mathlib.Nat.{pow-suc, one-le-pow}

-- The bytes `r` that stand for the natural number `n`.
abbrev pub Stored : ℕ → ℕ → Result Bytes → Type 0
Stored size n r = (bs : Bytes) × (r ≡ ok bs) × (length bs ≡ size) × (from_bytes bs ≡ n)

abbrev pub StoredSigned : ℕ → ℤ → Result Bytes → Type 0
StoredSigned size z r = (bs : Bytes) × (r ≡ ok bs) × (length bs ≡ size) × (from_bytes_signed bs ≡ z)

-- An int between 0 and 2 ** (8 * size) - 1 is stored in `size` bytes; any other int is refused.
abbrev pub UintOutcome : ℕ → ℤ → Result Bytes → Type 0
UintOutcome size (pos n) r =
    ((n < 2 ^ (size * 8)) × Stored size n r) ⊎ ((2 ^ (size * 8) ≤ n) × (r ≡ err type_validation))
UintOutcome size (negsuc n) r = r ≡ err type_validation

-- The same for a signed type: from -2 ** (8 * size - 1) to 2 ** (8 * size - 1) - 1.
abbrev pub IntOutcome : ℕ → ℤ → Result Bytes → Type 0
IntOutcome size (pos n) r =
    ((n < 2 ^ (size * 8 - 1)) × StoredSigned size (pos n) r)
    ⊎ ((2 ^ (size * 8 - 1) ≤ n) × (r ≡ err type_validation))
IntOutcome size (negsuc n) r =
    ((n < 2 ^ (size * 8 - 1)) × StoredSigned size (negsuc n) r)
    ⊎ ((2 ^ (size * 8 - 1) ≤ n) × (r ≡ err type_validation))

lt_or_le : (a b : ℕ) → (a < b) ⊎ (b ≤ a)
lt_or_le a b = elim (Bool-cases (ltb a b)) [
  | inl h ↦ inl (ltb→lt a b h)
  | inr h ↦ inr (ground arith)
]

pub leb→le : (a b : ℕ) → leb a b ≡ true → a ≤ b
leb→le a b h = ground arith

leb_last : (n p : ℕ) → n < p → leb n (p - 1) ≡ true
leb_last n p h = ground arith

leb_beyond : (n p : ℕ) → 1 ≤ p → p ≤ n → leb n (p - 1) ≡ false
leb_beyond n p nonzero h = ground arith

leb_suc : (n p : ℕ) → n < p → leb (n + 1) p ≡ true
leb_suc n p h = ground arith

leb_suc_beyond : (n p : ℕ) → p ≤ n → leb (n + 1) p ≡ false
leb_suc_beyond n p h = ground arith

two_pos : (k : ℕ) → 1 ≤ 2 ^ k
two_pos k = one-le-pow k 2 (omega arith)

to_bytes_fits : (size n : ℕ) → n < 2 ^ (size * 8) → to_bytes size n ≡ ok (le_digits size n)
unfolding to_bytes
to_bytes_fits size n h = let fits : n < 256 ^ size = rw (pow_256 size) h in ground arith

pub serialize_uint-total :
    (t : Text) (size : ℕ) (z : ℤ)
    → byte_size t ≡ ok size
    → UintOutcome size z (serialize_uint t (int z))
unfolding serialize_uint uint_bytes
serialize_uint-total t size (negsuc n) h = refl
serialize_uint-total t size (pos n) h = elim (lt_or_le n (2 ^ (size * 8))) [
  | inl lt ↦
      let e = to_bytes_fits size n lt in
      inl (
        lt,
        (
          le_digits size n,
          rw (h, leb_last n _ lt, e),
          length-le_digits size n,
          from_bytes-to_bytes size n e,
        ),
      )
  | inr le ↦ inr (le, rw (h, leb_beyond n _ (two_pos (size * 8)) le))
]

-- Half of the numbers of `size` bytes are negative.
pub half_range : (size : ℕ) → 1 ≤ size → 2 ^ (size * 8 - 1) * 2 ≡ 256 ^ size
half_range size nonzero =
    let e : size * 8 ≡ suc (size * 8 - 1) = omega arith in
    pow-twice (size * 8 - 1) ∙ ap (λ (k : ℕ). 2 ^ k) (sym e) ∙ sym (pow_256 size)
  where
    pow-twice : (k : ℕ) → 2 ^ k * 2 ≡ 2 ^ suc k
    pow-twice k = rw (pow-suc 2 k)

to_bytes_signed_fits-pos :
    (size n p : ℕ)
    → p * 2 ≡ 256 ^ size
    → n < p
    → to_bytes_signed size (pos n) ≡ ok (le_digits size n)
unfolding to_bytes_signed
to_bytes_signed_fits-pos size n p half h = rw (lt→ltb (n * 2) (256 ^ size) (omega (arith, half)))

to_bytes_signed_fits-negsuc :
    (size n p : ℕ)
    → p * 2 ≡ 256 ^ size
    → n < p
    → to_bytes_signed size (negsuc n) ≡ ok (le_digits size (256 ^ size - 1 - n))
unfolding to_bytes_signed
to_bytes_signed_fits-negsuc size n p half h =
    rw (lt→ltb (n * 2 + 1) (256 ^ size) (omega (arith, half)))

stored_signed :
    (size : ℕ) (z : ℤ) (bs : Bytes) (r : Result Bytes)
    → to_bytes_signed size z ≡ ok bs
    → r ≡ to_bytes_signed size z
    → StoredSigned size z r
stored_signed size z bs r e h =
    (bs, h ∙ e, length-to_bytes_signed size z e, from_bytes_signed-to_bytes_signed size z e)

pub serialize_int-total :
    (t : Text) (size : ℕ) (z : ℤ)
    → byte_size t ≡ ok size
    → 1 ≤ size
    → IntOutcome size z (serialize_int t (int z))
unfolding serialize_int int_bytes
serialize_int-total t size (pos n) h nonzero = elim (lt_or_le n (2 ^ (size * 8 - 1))) [
  | inl lt ↦ inl (
    lt,
    stored_signed size (pos n) _ _ (to_bytes_signed_fits-pos size n _ (half_range size nonzero) lt)
        (rw (h, leb_last n _ lt)),
  )
  | inr le ↦ inr (le, rw (h, leb_beyond n _ (two_pos (size * 8 - 1)) le))
]
serialize_int-total t size (negsuc n) h nonzero = elim (lt_or_le n (2 ^ (size * 8 - 1))) [
  | inl lt ↦ inl (
    lt,
    stored_signed size (negsuc n) _ _
        (to_bytes_signed_fits-negsuc size n _ (half_range size nonzero) lt)
        (rw (h, leb_suc n _ lt)),
  )
  | inr le ↦ inr (le, rw (h, leb_suc_beyond n _ le))
]

check_data_length-short :
    (data_ : Bytes) (at size : ℕ)
    → length data_ < at + size
    → check_data_length data_ at size ≡ err deserialization
unfolding check_data_length
check_data_length-short data_ at size h =
    let short : leb (at + size) (length data_) ≡ false = ground arith in rw short

pub deserialize_bool-short :
    (data_ : Bytes) (at : ℕ)
    → length data_ < at + 1
    → deserialize_bool data_ at ≡ err deserialization
unfolding deserialize_bool
deserialize_bool-short data_ at h = rw (check_data_length-short data_ at 1 h)

in_range :
    (bs : Bytes) (size : ℕ) → length bs ≡ size → All IsByte bs → from_bytes bs < 2 ^ (size * 8)
in_range bs size len h =
    let e : 256 ^ length bs ≡ 2 ^ (size * 8) = ap (λ (k : ℕ). 256 ^ k) len ∙ pow_256 size in
    rw (← e) (from_bytes-lt bs h)

module _ (t : Text) (data_ : Bytes) (at size : ℕ) (known : byte_size t ≡ ok size) where
  pub deserialize_sized-short :
      (read : Bytes → Value)
      → length data_ < at + size
      → deserialize_sized t read data_ at ≡ err deserialization
  unfolding deserialize_sized
  deserialize_sized-short read h = rw (known, check_data_length-short data_ at size h)

  pub deserialize_float-short :
      length data_ < at + size → deserialize_float t data_ at ≡ err deserialization
  unfolding deserialize_float
  deserialize_float-short h = rw (known, check_data_length-short data_ at size h)

  -- What is read as an unsigned integer is written as the bytes that were read.
  pub serialize_uint-deserialize_uint :
      (v : Value) (next : ℕ)
      → All IsByte data_
      → deserialize_uint t data_ at ≡ ok (v, next)
      → serialize_uint t v ≡ ok (slice data_ at size)
  unfolding deserialize_uint deserialize_sized check_data_length serialize_uint uint_bytes
  serialize_uint-deserialize_uint v next bytes_ h =
      let h' = rw known at h in
      let (room, e) = guard-eq-ok (leb (at + size) (length data_)) deserialization _ h' in
      let read : v ≡ int (pos (from_bytes (slice data_ at size))) = cc in
      let len : length (slice data_ at size) ≡ size =
        length-slice data_ at size (leb→le (at + size) (length data_) room) in
      let digits = le_digits-from_bytes (slice data_ at size) (slice-All data_ at size bytes_) in
      let small : from_bytes (slice data_ at size) < 2 ^ (size * 8) =
        in_range (slice data_ at size) size len (slice-All data_ at size bytes_) in
      rw read (
        rw (
          known,
          leb_last (from_bytes (slice data_ at size)) (2 ^ (size * 8)) small,
          to_bytes_fits size (from_bytes (slice data_ at size)) small,
          ap (λ (k : ℕ). le_digits k (from_bytes (slice data_ at size))) (sym len),
          digits,
        ))
