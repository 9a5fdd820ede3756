-- ===== src/Contract/Layout.antt =====
-- Where the parts of an identifier stand in its int.
use dioxide_python.Prelude.{ℕ, ◌+◌, ◌*◌, ◌%◌, ◌^◌, ◌<◌, ◌≡◌, refl, bit_and, bit_or, arith}
use dioxide_python.Prelude.Bits.{bit_and_mask, bit_or_disjoint}
use dioxide_python.Contract.{packed}

-- A part below the bits that are already set.
pub or_below : (k x a b : ℕ) → x ≡ a * 2 ^ k → b < 2 ^ k → bit_or x b ≡ x + b
or_below k x a b e h = rw e (bit_or_disjoint k a b h)

-- The three parts of every identifier, without the low 20 bits.
abbrev pub high : ℕ → ℕ → ℕ → ℕ
high d e s = (d % 2 ^ 28) * 2 ^ 36 + (e % 2 ^ 4) * 2 ^ 32 + (s % 2 ^ 12) * 2 ^ 20

pub packed_lem : (d e s : ℕ) → packed d e s ≡ high d e s
unfolding packed
packed_lem d e s =
    let md : bit_and d 0xFFFFFFF ≡ d % 2 ^ 28 = bit_and_mask 28 d in
    let me : bit_and e 0xF ≡ e % 2 ^ 4 = bit_and_mask 4 e in
    let ms : bit_and s 0xFFF ≡ s % 2 ^ 12 = bit_and_mask 12 s in
    rw (md, me, ms) (join (d % 2 ^ 28) (e % 2 ^ 4) (s % 2 ^ 12) (omega arith) (omega arith))
  where
    join :
        (x y z : ℕ)
        → y < 2 ^ 4
        → z < 2 ^ 12
        → bit_or (bit_or (x * 2 ^ 36) (y * 2 ^ 32)) (z * 2 ^ 20)
          ≡ x * 2 ^ 36 + y * 2 ^ 32 + z * 2 ^ 20
    join x y z hy hz = rw (or_below 36 (x * 2 ^ 36) x (y * 2 ^ 32) refl (omega arith)) (
        or_below 32 (x * 2 ^ 36 + y * 2 ^ 32) (x * 16 + y) (z * 2 ^ 20) (omega arith) (omega arith))
