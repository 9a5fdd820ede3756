-- ===== src/Pow/Laws.antt =====
-- The test on a hash, as a comparison of numbers.
use dioxide_python.Prelude.{
  ℕ, zero, suc, ◌+◌, ◌-◌, ◌*◌, ◌/◌, ◌^◌, ◌≤◌, ◌<◌, ◌≡◌, ◌↔◌, refl, ◌∙◌, ap, Bool, true, false, leb,
  [], ◌∷◌, take, drop, length, length-drop, length-take, All, if◌then◌else◌, arith,
}
use dioxide_python.Bytes.{Bytes, slice, from_bytes}
use dioxide_python.Bytes.Laws.{IsByte, from_bytes-lt, slice-All}
use dioxide_python.Pow.{PowDifficulty, all_zero, is_fullfiled}
use native.Mathlib.Nat.{pow-suc, div-lt_iff_lt-mul}
use dioxide_python.Prelude.Bits.{div_of}

-- The digits below a place and the digits from it on.
from_bytes-split :
    (n : ℕ) (bs : Bytes)
    → n ≤ length bs
    → from_bytes bs ≡ from_bytes (take n bs) + 256 ^ n * from_bytes (drop n bs)
unfolding from_bytes
from_bytes-split zero bs h = omega arith
from_bytes-split (suc n) [] h = absurd (omega (arith, h))
from_bytes-split (suc n) (x ∷ bs) h = omega (
  arith,
  from_bytes-split n bs (omega arith),
  ap (λ (p : ℕ). p * from_bytes (drop n bs)) (pow-suc 256 n),
)

all_zero_iff : (bs : Bytes) → (all_zero bs ≡ true) ↔ (from_bytes bs ≡ 0)
unfolding all_zero from_bytes
all_zero_iff [] = (λ _. refl, λ _. refl)
all_zero_iff (b ∷ bs) = ground (arith, all_zero_iff bs)

drop-drop : (m n : ℕ) (bs : Bytes) → drop n (drop m bs) ≡ drop (m + n) bs
drop-drop zero n bs = let e : 0 + n ≡ n = omega arith in rw e refl
drop-drop (suc m) n [] = let e : suc m + n ≡ suc (m + n) = omega arith in rw e (drop_nil n)
  where
    drop_nil : (k : ℕ) → drop {A = ℕ} k [] ≡ []
    drop_nil zero = refl
    drop_nil (suc k) = refl
drop-drop (suc m) n (x ∷ bs) =
    let e : suc m + n ≡ suc (m + n) = omega arith in rw e (drop-drop m n bs)

-- The three parts of a hash: below the compared word, the word, and above it.
parts_of :
    (n : ℕ) (bs : Bytes)
    → n + 4 ≤ length bs
    → from_bytes bs
      ≡ from_bytes (take n bs)
        + 256 ^ n * (from_bytes (slice bs n 4) + 2 ^ 32 * from_bytes (drop (n + 4) bs))
parts_of n bs h =
    let low = from_bytes-split n bs (omega arith) in
    let word = from_bytes-split 4 (drop n bs) (omega (arith, length-drop n bs)) in
    low
    ∙ ap (λ (r : ℕ). from_bytes (take n bs) + 256 ^ n * r)
        (word
          ∙ ap (λ (r : Bytes). from_bytes (slice bs n 4) + 2 ^ 32 * from_bytes r)
              (drop-drop n 4 bs))

test_iff :
    (target word high : ℕ) (zeros : Bool)
    → target ≤ 2 ^ 32
    → (zeros ≡ true) ↔ (high ≡ 0)
    → ((if leb target word then false else zeros) ≡ true) ↔ (word + 2 ^ 32 * high < target)
test_iff target word high zeros fits h = ground arith

below_iff :
    (target n low q : ℕ) → low < 256 ^ n → (low + 256 ^ n * q < target * 256 ^ n) ↔ (q < target)
below_iff target n low q h =
    let p : ℕ = 256 ^ n in
    let swap : low + p * q ≡ p * q + low = omega arith in
    let part : (low + p * q) / p ≡ q = ap (λ (k : ℕ). k / p) swap ∙ div_of p q low h in
    let some : 1 ≤ p = omega (arith, h) in
    let (there, back) = div-lt_iff_lt-mul {k = p} {x = low + p * q} {y = target} some in
    (λ lt. let r = back lt in rw part at r, λ lt. there (rw part lt))

take-lt : (n : ℕ) (bs : Bytes) → n ≤ length bs → All IsByte bs → from_bytes (take n bs) < 256 ^ n
take-lt n bs h all =
    let size : length (take n bs) ≡ n = omega (arith, length-take n bs) in
    let lt = from_bytes-lt (take n bs) (slice-All bs 0 n all) in rw size at lt

-- A hash of 32 bytes, and a difficulty whose number fits in the word that the test compares, which
-- ends inside the hash: the hash passes exactly if it is, read as a little-endian number, below the
-- target at its place.
pub is_fullfiled_lem :
    (d : PowDifficulty) (val : Bytes)
    → length val ≡ 32
    → All IsByte val
    → 4 ≤ d.nonzero_bytes
    → d.nonzero_bytes ≤ 32
    → d.target_num ≤ 2 ^ 32
    → (is_fullfiled d val ≡ true) ↔ (from_bytes val < d.target_num * 256 ^ (d.nonzero_bytes - 4))
unfolding is_fullfiled
is_fullfiled_lem d val size bytes_ low high fits =
    let n : ℕ = d.nonzero_bytes - 4 in
    let end : n + 4 ≡ d.nonzero_bytes = omega arith in
    let word : ℕ = from_bytes (slice val n 4) in
    let above : ℕ = from_bytes (drop d.nonzero_bytes val) in
    let low_part : ℕ = from_bytes (take n val) in
    let whole : from_bytes val ≡ low_part + 256 ^ n * (word + 2 ^ 32 * above) =
      parts_of n val (omega arith)
      ∙ ap (λ (k : ℕ). low_part + 256 ^ n * (word + 2 ^ 32 * from_bytes (drop k val))) end in
    let (passes, fails) =
      test_iff d.target_num word above (all_zero (drop d.nonzero_bytes val)) fits
        (all_zero_iff (drop d.nonzero_bytes val)) in
    let small : low_part < 256 ^ n = take-lt n val (omega arith) bytes_ in
    let (shrink, grow) = below_iff d.target_num n low_part (word + 2 ^ 32 * above) small in
    (λ e. rw whole (grow (passes e)), λ lt. fails (shrink (rw whole at lt)))
