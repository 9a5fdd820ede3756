-- ===== src/Bytes/Place.antt =====
-- A part of the data at a known offset: how the readers find what the writers put there.
use dioxide_python.Prelude.{
  ℕ, ◌+◌, ◌≡◌, refl, sym, ◌∙◌, ap, [], ◌∷◌, ◌++◌, append_assoc, append-nil, length, arith,
}
use dioxide_python.Prelude.{length-append, get_elem?, some, get_elem?-append}
use dioxide_python.Prelude.Result.{ok}
use dioxide_python.Bytes.{Bytes, slice, to_bytes, from_bytes, check_data_length}
use dioxide_python.Bytes.Laws.{
  slice-append, check_data_length-append, length-to_bytes, from_bytes-to_bytes,
}

-- `x` stands in `data_` at the offset `at`.
pub record Stands (data_ : Bytes) (at : ℕ) (x : Bytes) : Type 0 where
  pub before : Bytes
  pub after : Bytes
  pub whole : data_ ≡ before ++ (x ++ after)
  pub place : at ≡ length before

-- All of the data stands at its start.
pub all-Stands : (x : Bytes) → Stands x 0 x
all-Stands x = record { before = []; after = []; whole = sym (append-nil x); place = refl }

module _ {data_ : Bytes} {at : ℕ} where
  pub Stands-left : (x y : Bytes) → Stands data_ at (x ++ y) → Stands data_ at x
  Stands-left x y s = record {
    before = s.before;
    after = y ++ s.after;
    whole = s.whole ∙ ap (λ r. s.before ++ r) (append_assoc x y s.after);
    place = s.place;
  }

  pub Stands-right : (x y : Bytes) → Stands data_ at (x ++ y) → Stands data_ (at + length x) y
  Stands-right x y s = record {
    before = s.before ++ x;
    after = s.after;
    whole =
        s.whole
        ∙ ap (λ r. s.before ++ r) (append_assoc x y s.after)
        ∙ sym (append_assoc s.before x (y ++ s.after));
    place = omega (arith, s.place, length-append s.before x);
  }

  pub slice-Stands : (x : Bytes) → Stands data_ at x → slice data_ at (length x) ≡ x
  slice-Stands x s = rw (s.whole, s.place) (slice-append s.before x s.after)

  pub check-Stands : (x : Bytes) → Stands data_ at x → check_data_length data_ at (length x) ≡ ok tt
  check-Stands x s = rw (s.whole, s.place) (check_data_length-append s.before x s.after)

  pub get_elem?-Stands : (b : ℕ) (x : Bytes) → Stands data_ at (b ∷ x) → get_elem? data_ at ≡ some b
  get_elem?-Stands b x s = rw (s.whole, s.place) (get_elem?-append s.before (x ++ s.after) b)

  -- A number in `w` bytes is read where it stands.
  pub from_bytes-Stands :
      (w n : ℕ) {x : Bytes}
      → to_bytes w n ≡ ok x
      → Stands data_ at x
      → from_bytes (slice data_ at w) ≡ n
  from_bytes-Stands w n {x} h s =
      let e : slice data_ at w ≡ x = rw (length-to_bytes w n h) at (slice-Stands x s) in
      rw e (from_bytes-to_bytes w n h)

  pub check-Stands_size :
      (x : Bytes) (w : ℕ) → length x ≡ w → Stands data_ at x → check_data_length data_ at w ≡ ok tt
  check-Stands_size x w e s = rw (← e) (check-Stands x s)

  pub slice-Stands_size :
      (x : Bytes) (w : ℕ) → length x ≡ w → Stands data_ at x → slice data_ at w ≡ x
  slice-Stands_size x w e s = rw (← e) (slice-Stands x s)
