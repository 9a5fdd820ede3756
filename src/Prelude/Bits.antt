-- ===== src/Prelude/Bits.antt =====
-- Python's `&` with a mask of ones and `|` of disjoint fields, as arithmetic, for every width.
use Prim.Native.Nat.{
  ℕ, zero, suc, ◌+◌, ◌-◌, ◌*◌, ◌/◌, ◌%◌, ◌^◌, ◌≤◌, ◌<◌, min, max, bit_and, bit_or,
}
use Prim.Native.Nat.{digits, bit_and-bitwise, bit_or-bitwise}
use mathlib.Core.Path.{◌≡◌, refl, sym, ◌∙◌, ap}
use native.Mathlib.Omega.{arith}
use native.Mathlib.Nat.{
  div-div-eq-div-mul, pow-succ', pow-suc, div-add-mod, mod-lt, add-zero, add-suc,
}

-- The library's bit operations run on fuel. Any fuel that is at least the first number gives the
-- same digits.
module _ (tail : ℕ → ℕ) (op : ℕ → ℕ → ℕ) where
  fuel_free : (x y k l : ℕ) → x ≤ k → x ≤ l → digits tail op k x y ≡ digits tail op l x y
  fuel_free zero y zero zero u v = refl
  fuel_free zero y zero (suc l) u v = refl
  fuel_free zero y (suc k) zero u v = refl
  fuel_free zero y (suc k) (suc l) u v = refl
  fuel_free (suc x) y zero l u v = absurd (omega (arith, u))
  fuel_free (suc x) y (suc k) zero u v = absurd (omega (arith, v))
  fuel_free (suc x) y (suc k) (suc l) u v =
      let rest = fuel_free (suc x / 2) (y / 2) k l (omega arith) (omega arith) in
      ap (λ (r : ℕ). r * 2 + op (suc x % 2) (y % 2)) rest

and_none : (y : ℕ) → bit_and 0 y ≡ 0
and_none y = bit_and-bitwise 0 y

or_none : (y : ℕ) → bit_or 0 y ≡ y
or_none y = bit_or-bitwise 0 y

-- One binary digit of each operation.
and_digit : (x y : ℕ) → bit_and x y ≡ min (x % 2) (y % 2) + 2 * bit_and (x / 2) (y / 2)
and_digit zero y = omega (arith, and_none (y / 2), and_none y)
and_digit (suc x) y =
    let half : ℕ = suc x / 2 in
    let rest = fuel_free (λ _. zero) min half (y / 2) x half (omega arith) (omega arith) in
    omega (arith, rest, bit_and-bitwise half (y / 2), bit_and-bitwise (suc x) y)

or_digit : (x y : ℕ) → bit_or x y ≡ max (x % 2) (y % 2) + 2 * bit_or (x / 2) (y / 2)
or_digit zero y = omega (arith, or_none (y / 2), or_none y)
or_digit (suc x) y =
    let half : ℕ = suc x / 2 in
    let rest = fuel_free (λ r. r) max half (y / 2) x half (omega arith) (omega arith) in
    omega (arith, rest, bit_or-bitwise half (y / 2), bit_or-bitwise (suc x) y)

-- Nothing on the right, for numbers up to a bound.
and_none_right : (bound x : ℕ) → x ≤ bound → bit_and x 0 ≡ 0
and_none_right bound zero u = refl
and_none_right zero (suc x) u = absurd (omega (arith, u))
and_none_right (suc bound) (suc x) u =
    let rest = and_none_right bound (suc x / 2) (omega arith) in
    omega (arith, rest, and_digit (suc x) 0)

or_none_right : (bound x : ℕ) → x ≤ bound → bit_or x 0 ≡ x
or_none_right bound zero u = refl
or_none_right zero (suc x) u = absurd (omega (arith, u))
or_none_right (suc bound) (suc x) u =
    let rest = or_none_right bound (suc x / 2) (omega arith) in
    omega (arith, rest, or_digit (suc x) 0)

pow_pos : (k : ℕ) → 1 ≤ 2 ^ k
pow_pos zero = omega arith
pow_pos (suc k) = omega (arith, pow-suc 2 k, pow_pos k)

-- `a = m * q + r` determines `r`.
pub mod_of : (m q r : ℕ) → r < m → (m * q + r) % m ≡ r
mod_of m q r h = grind arith

pub div_of : (m q r : ℕ) → r < m → (m * q + r) / m ≡ q
div_of m q r h = grind arith

mod_twice : (k a : ℕ) → a % 2 ^ suc k ≡ a / 2 % 2 ^ k * 2 + a % 2
mod_twice k a =
    let p : ℕ = 2 ^ k in
    let q : ℕ = a / 2 / p in
    let r : ℕ = a / 2 % p * 2 + a % 2 in
    let small : r < 2 ^ suc k = omega (arith, pow-suc 2 k, pow_pos k, mod-lt (a / 2) (pow_pos k)) in
    let whole : a ≡ 2 ^ suc k * q + r =
      omega (arith, ap (λ (t : ℕ). t * q) (pow-suc 2 k), div-add-mod (a / 2) p) in
    ap (λ (t : ℕ). t % 2 ^ suc k) whole ∙ mod_of (2 ^ suc k) q r small

-- `a & (2 ** k - 1)` is `a % 2 ** k`.
pub bit_and_mask : (k a : ℕ) → bit_and a (2 ^ k - 1) ≡ a % 2 ^ k
bit_and_mask zero a = omega (arith, and_none_right a a (omega arith))
bit_and_mask (suc k) a =
    let m : ℕ = 2 ^ suc k - 1 in
    let half : m / 2 ≡ 2 ^ k - 1 = omega (arith, pow-suc 2 k, pow_pos k) in
    let low : m % 2 ≡ 1 = omega (arith, pow-suc 2 k, pow_pos k) in
    let step : bit_and a m ≡ bit_and (a / 2) (2 ^ k - 1) * 2 + a % 2 =
      rw (and_digit a m, half, low) (omega arith) in
    step ∙ rw (bit_and_mask k (a / 2)) (sym (mod_twice k a))

-- `(a << k) | b` adds, where `b` has at most `k` bits.
pub bit_or_disjoint : (k a b : ℕ) → b < 2 ^ k → bit_or (a * 2 ^ k) b ≡ a * 2 ^ k + b
bit_or_disjoint zero a zero h = omega (arith, or_none_right (a * 1) (a * 1) (omega arith))
bit_or_disjoint zero a (suc b) h = absurd (omega arith)
bit_or_disjoint (suc k) a b h =
    let n : ℕ = a * 2 ^ suc k in
    let twice : n ≡ a * 2 ^ k * 2 = rw (pow-suc 2 k) (omega arith) in
    let half : n / 2 ≡ a * 2 ^ k = omega (arith, twice) in
    let low : n % 2 ≡ 0 = omega (arith, twice) in
    let rec : bit_or (a * 2 ^ k) (b / 2) ≡ a * 2 ^ k + b / 2 =
      bit_or_disjoint k a (b / 2) (omega (arith, pow-suc 2 k)) in
    rw (or_digit n b, half, low, rec) (omega (arith, twice))

pub pow_add : (a b : ℕ) → 2 ^ (a + b) ≡ 2 ^ a * 2 ^ b
pow_add a zero = rw add-zero (omega arith)
pow_add a (suc b) = rw (add-suc, pow-suc 2 (a + b), pow_add a b, pow-suc 2 b) (omega arith)

bit_and_double : (a b : ℕ) → bit_and a (b * 2) ≡ bit_and (a / 2) b * 2
bit_and_double a b =
    let half : b * 2 / 2 ≡ b = omega arith in
    let low : b * 2 % 2 ≡ 0 = omega arith in
    let step = and_digit a (b * 2) in let step' = rw (half, low) at step in omega (arith, step')

-- A mask that does not reach the `k` lowest bits.
pub bit_and_shift : (k a b : ℕ) → bit_and a (b * 2 ^ k) ≡ bit_and (a / 2 ^ k) b * 2 ^ k
bit_and_shift zero a b =
    let e : b * 1 ≡ b = omega arith in let e' : a / 1 ≡ a = omega arith in rw (e, e') (omega arith)
bit_and_shift (suc k) a b =
    let e : b * 2 ^ suc k ≡ b * 2 ^ k * 2 = rw (pow-suc 2 k) (omega arith) in
    let q : a / 2 / 2 ^ k ≡ a / 2 ^ suc k =
      div-div-eq-div-mul a 2 (2 ^ k) ∙ ap (λ (d : ℕ). a / d) (sym (pow-succ' 2 k)) in
    let m : ℕ = bit_and (a / 2 ^ suc k) b in
    let below : bit_and (a / 2) (b * 2 ^ k) ≡ m * 2 ^ k =
      bit_and_shift k (a / 2) b ∙ ap (λ (d : ℕ). bit_and d b * 2 ^ k) q in
    let twice : m * 2 ^ k * 2 ≡ m * 2 ^ suc k = rw (pow-suc 2 k) (omega arith) in
    ap (λ (r : ℕ). bit_and a r) e
    ∙ bit_and_double a (b * 2 ^ k)
    ∙ ap (λ (r : ℕ). r * 2) below
    ∙ twice

pub pow_256 : (k : ℕ) → 256 ^ k ≡ 2 ^ (k * 8)
pow_256 zero = refl
pow_256 (suc k) =
    let e : suc k * 8 ≡ 8 + k * 8 = omega arith in
    rw (e, pow_add 8 (k * 8), ← pow_256 k, pow-suc 256 k) (omega arith)
