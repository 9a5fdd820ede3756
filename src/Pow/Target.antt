-- ===== src/Pow/Target.antt =====
-- The target that `set` makes of a denominator, and its place.
use dioxide_python.Prelude.{
  ℕ, ◌+◌, ◌-◌, ◌*◌, ◌/◌, ◌^◌, ◌≤◌, ◌<◌, ◌≡◌, refl, sym, ◌∙◌, ap, ◌%◌, ◌==◌, if◌then◌else◌, Bool,
  false, inl, inr, le_or_lt, true, arith,
}
use dioxide_python.Prelude.Bits.{pow_add, pow_256}
use dioxide_python.Gcl.Float.{bit_length, bit_length-bounds}
use dioxide_python.Pow.{PowDifficulty, set_difficulty}
use native.Mathlib.Nat.{
  pow-le-pow_right, one-le-pow, div-div-eq-div-mul, mul-le-mul_right, mul-lt-mul_of_pos_right,
  mul-div-le, lt-mul-div-succ, le-div_iff_mul-le, div-le_of_le-mul, div-one,
}

-- The top 24 bits of a number of 64 bits, and its first bits.
cut_bounds :
    (filled p : ℕ)
    → 1 ≤ p
    → p ≤ 2 ^ 39
    → 2 ^ 63 ≤ filled
    → (filled / p * p ≤ filled) × (2 ^ 24 * filled < (2 ^ 24 + 1) * (filled / p * p))
cut_bounds filled p some small top =
    let t : ℕ = filled / p in
    let below : p * t ≤ filled = mul-div-le filled p in
    let above : filled < p * (t + 1) = lt-mul-div-succ filled some in
    let many : 2 ^ 24 ≤ t =
      (le-div_iff_mul-le {k = p} {x = 2 ^ 24} {y = filled} some).1 (omega arith) in
    let more : 2 ^ 24 * p ≤ t * p = mul-le-mul_right p many in (omega arith, omega arith)

-- The word of 64 bits that `set` makes of the quotient, at its place.
record IsFilled (num filled exp : ℕ) : Type 0 where
  top : 2 ^ 63 ≤ filled
  less : filled < 2 ^ 64
  place : filled * 2 ^ exp ≡ num * 2 ^ 193
  low : 160 < exp
  high : exp ≤ 192

filled_lem :
    (num : ℕ)
    → 2 ^ 31 ≤ num
    → num ≤ 2 ^ 62
    → IsFilled num (num * 2 ^ (64 - bit_length num)) (32 * 8 - 63 - (64 - bit_length num))
filled_lem num low high =
    let bits : ℕ = bit_length num in
    let (above, below) = bit_length-bounds num in
    let below' : 2 ^ bits ≤ 2 * num = below (omega arith) in
    let at_least : 32 ≤ bits = few bits above in
    let at_most : bits ≤ 63 = many bits below' in
    let shift : ℕ = 64 - bits in
    let word : 2 ^ bits * 2 ^ shift ≡ 2 ^ 64 =
      sym (pow_add bits shift) ∙ ap (λ (k : ℕ). 2 ^ k) {y = 64} (omega arith) in
    let place : 2 ^ shift * 2 ^ (193 - shift) ≡ 2 ^ 193 =
      sym (pow_add shift (193 - shift)) ∙ ap (λ (k : ℕ). 2 ^ k) {y = 193} (omega arith) in
    let grown : 2 ^ bits * 2 ^ shift ≤ 2 * num * 2 ^ shift = mul-le-mul_right (2 ^ shift) below' in
    record {
      top = omega arith;
      less = omega (
        arith,
        word,
        mul-lt-mul_of_pos_right {k = 2 ^ shift} above (one-le-pow shift 2 (omega arith)),
      );
      place = omega (arith, ap (λ (k : ℕ). num * k) place);
      low = omega arith;
      high = omega arith;
    }
  where
    few : (bits : ℕ) → num < 2 ^ bits → 32 ≤ bits
    few bits h = elim (le_or_lt 32 bits) [
      | inl enough ↦ enough
      | inr less ↦
          let p : 2 ^ bits ≤ 2 ^ 31 =
            pow-le-pow_right {n = 2} (omega arith) {i = bits} {j = 31} (omega arith) in
          absurd (omega arith)
    ]

    many : (bits : ℕ) → 2 ^ bits ≤ 2 * num → bits ≤ 63
    many bits h = elim (le_or_lt bits 63) [
      | inl enough ↦ enough
      | inr more ↦
          let p : 2 ^ 64 ≤ 2 ^ bits =
            pow-le-pow_right {n = 2} (omega arith) {i = 64} {j = bits} (omega arith) in
          absurd (omega arith)
    ]

-- The number that a hash is compared with, and its place: the share `num` of the hashes, up to a
-- part in 2 ** 24.
pub record IsTarget (num : ℕ) (t m : ℕ) : Type 0 where
  pub fits : t ≤ 2 ^ 32
  pub at_most : t * 256 ^ m ≤ num * 2 ^ 193
  pub at_least : 2 ^ 24 * (num * 2 ^ 193) < (2 ^ 24 + 1) * (t * 256 ^ m)

target_lem :
    (num filled exp k m : ℕ)
    → IsFilled num filled exp
    → k ≤ 7
    → 8 * m ≡ exp + (k + 32)
    → IsTarget num (filled / 2 ^ k / 2 ^ 32) m
target_lem num filled exp k m is small whole =
    let p : ℕ = 2 ^ (k + 32) in
    let e : ℕ = 2 ^ exp in
    let t : ℕ = filled / p in
    let some : 1 ≤ p = one-le-pow (k + 32) 2 (omega arith) in
    let some_e : 1 ≤ e = one-le-pow exp 2 (omega arith) in
    let many : 2 ^ 32 ≤ p =
      pow-le-pow_right {n = 2} (omega arith) {i = 32} {j = k + 32} (omega arith) in
    let less : p ≤ 2 ^ 39 =
      pow-le-pow_right {n = 2} (omega arith) {i = k + 32} {j = 39} (omega arith) in
    let joined : filled / 2 ^ k / 2 ^ 32 ≡ t =
      div-div-eq-div-mul filled (2 ^ k) (2 ^ 32)
      ∙ ap (λ (d : ℕ). filled / d) (sym (pow_add k 32)) in
    let whole' : m * 8 ≡ exp + (k + 32) = omega (arith, whole) in
    let power : 256 ^ m ≡ e * p =
      pow_256 m ∙ (ap (λ (n : ℕ). 2 ^ n) whole' ∙ pow_add exp (k + 32)) in
    let (below, above) = cut_bounds filled p some less is.top in
    let placed : t * (e * p) ≡ t * p * e = omega arith in
    let top = is.less in
    let place = is.place in
    let low = mul-le-mul_right e below in
    let high = mul-lt-mul_of_pos_right {k = e} above some_e in
    rw joined (record {
      fits = omega arith;
      at_most = rw (power, placed) (omega (arith, low, place));
      at_least = rw (power, placed) (omega (arith, high, place));
    })

-- A difficulty whose word ends inside a hash of 32 bytes.
pub record FitsIn (num : ℕ) (d : PowDifficulty) : Type 0 where
  pub inside : (4 ≤ d.nonzero_bytes) × (d.nonzero_bytes ≤ 32)
  pub is_target : IsTarget num d.target_num (d.nonzero_bytes - 4)

pub set_difficulty-FitsIn : (n : ℕ) → 2 ≤ n → n ≤ 2 ^ 32 → FitsIn (2 ^ 63 / n) (set_difficulty n)
unfolding set_difficulty
set_difficulty-FitsIn n some small =
    let num : ℕ = 2 ^ 63 / n in
    let shift : ℕ = 64 - bit_length num in
    let exp : ℕ = 32 * 8 - 63 - shift in
    let low : 2 ^ 31 ≤ num =
      (le-div_iff_mul-le {k = n} {x = 2 ^ 31} {y = 2 ^ 63} (omega arith)).1 (omega arith) in
    let high : num ≤ 2 ^ 62 = div-le_of_le-mul n (omega arith) in
    let is = filled_lem num low high in by is (exp % 8 == 0) refl
  where
    by :
        {num filled exp : ℕ}
        → IsFilled num filled exp
        → (b : Bool) → (exp % 8 == 0) ≡ b
        → FitsIn num (
            if b
            then record { target_num = filled / 2 ^ 32; nonzero_bytes = exp / 8 + 8 }
            else record {
              target_num = filled / 2 ^ (8 - exp % 8) / 2 ^ 32;
              nonzero_bytes = exp / 8 + 1 + 8;
            })
    by {num} {filled} {exp} is true e =
        let whole : filled / 1 ≡ filled = div-one filled in
        let place : 8 * (exp / 8 + 8 - 4) ≡ exp + (0 + 32) = ground (arith, e) in
        let target = target_lem num filled exp 0 (exp / 8 + 8 - 4) is (omega arith) place in
        let low = is.low in
        let high = is.high in
        record { inside = (omega arith, omega arith); is_target = rw whole at target }
    by {num} {filled} {exp} is false e =
        let place : 8 * (exp / 8 + 1 + 8 - 4) ≡ exp + (8 - exp % 8 + 32) = ground (arith, e) in
        let few : 8 - exp % 8 ≤ 7 = ground (arith, e) in
        let low = is.low in
        let high = is.high in
        let rest : exp / 8 + 9 ≤ 32 = ground (arith, e) in
        record {
          inside = (omega arith, omega arith);
          is_target = target_lem num filled exp (8 - exp % 8) (exp / 8 + 1 + 8 - 4) is few place;
        }
