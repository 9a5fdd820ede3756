-- ===== src/Gcl/Variable/Limbs.antt =====
-- The base-2**64 digits of a bigint: they stand for the number, and reading their bytes adds them up.
use dioxide_python.Prelude.{ℕ, zero, suc, ◌+◌, ◌*◌, ◌/◌, ◌^◌, ◌≤◌, ◌≡◌, ◌≢◌, ap, ◌∙◌, sym, arith}
use dioxide_python.Prelude.{
  List, [], ◌∷◌, ◌++◌, length, length-append, Bool-cases, inl, inr, ◌==◌, ◌%◌, ◌<◌, refl,
}
use dioxide_python.Prelude.Bits.{pow_add}
use dioxide_python.Prelude.Result.{ok, bind₂-eq-ok}
use dioxide_python.Bytes.{Bytes, to_bytes}
use dioxide_python.Bytes.Laws.{length-to_bytes, to_bytes-small}
use dioxide_python.Bytes.Place.{Stands, Stands-left, Stands-right, from_bytes-Stands}
use native.Mathlib.Nat.{mod-lt}
use dioxide_python.Gcl.Variable.{limbs_fuel, limbs, limb_bytes, read_limbs}

-- The number that the limbs stand for.
abbrev pub limb_value : List ℕ → ℕ
limb_value [] = 0
limb_value (n ∷ ns) = n + 2 ^ 64 * limb_value ns

limb_value-limbs_fuel : (fuel n : ℕ) → n ≤ fuel → limb_value (limbs_fuel fuel n) ≡ n
unfolding limbs_fuel
limb_value-limbs_fuel zero n h = omega arith
limb_value-limbs_fuel (suc fuel) n h =
    ground (arith, limb_value-limbs_fuel fuel (n / 2 ^ 64) (omega arith))

pub limb_value-limbs : (n : ℕ) → limb_value (limbs n) ≡ n
unfolding limbs
limb_value-limbs n = limb_value-limbs_fuel n n (omega arith)

pub limbs-ne-nil : (n : ℕ) → n ≢ 0 → length (limbs n) ≢ 0
limbs-ne-nil n h e = go (limbs n) (limb_value-limbs n) e
  where
    go : (l : List ℕ) → limb_value l ≡ n → length l ≡ 0 → ⊥
    go [] p q = h (sym p)
    go (x ∷ xs) p q = omega arith

pub length-limb_bytes :
    (ns : List ℕ) {bs : Bytes} → limb_bytes ns ≡ ok bs → length bs ≡ length ns * 8
unfolding limb_bytes
length-limb_bytes [] {bs} h = let e : bs ≡ [] = cc in rw e
length-limb_bytes (n ∷ ns) h =
    let (b, bs, hb, hbs, e) = bind₂-eq-ok (to_bytes 8 n) (limb_bytes ns) (λ x y. x ++ y) h in
    rw e (omega (arith, length-append b bs, length-to_bytes 8 n hb, length-limb_bytes ns hbs))

limb_shift : (i : ℕ) → 2 ^ (64 * suc i) ≡ 2 ^ 64 * 2 ^ (64 * i)
limb_shift i = let e : 64 * suc i ≡ 64 + 64 * i = omega arith in rw e (pow_add 64 (64 * i))

pub read_limbs-limb_bytes :
    (ns : List ℕ) (i value at : ℕ) (data_ : Bytes) {bs : Bytes}
    → limb_bytes ns ≡ ok bs
    → Stands data_ at bs
    → read_limbs (length ns) i value data_ at ≡ value + limb_value ns * 2 ^ (64 * i)
unfolding limb_bytes read_limbs
read_limbs-limb_bytes [] i value at data_ h s = omega arith
read_limbs-limb_bytes (n ∷ ns) i value at data_ h s =
    let (b, bs, hb, hbs, e) = bind₂-eq-ok (to_bytes 8 n) (limb_bytes ns) (λ x y. x ++ y) h in
    let here = rw e at s in
    let next : Stands data_ (at + 8) bs = rw (length-to_bytes 8 n hb) at (Stands-right b bs here) in
    let step : value + n * 2 ^ (64 * i) + limb_value ns * 2 ^ (64 * suc i)
        ≡ value + limb_value (n ∷ ns) * 2 ^ (64 * i) =
      omega (arith, ap (λ (t : ℕ). limb_value ns * t) (limb_shift i)) in
    ap (λ (x : ℕ). read_limbs (length ns) (suc i) (value + x * 2 ^ (64 * i)) data_ (at + 8))
      (from_bytes-Stands 8 n hb (Stands-left b bs here))
    ∙ read_limbs-limb_bytes ns (suc i) (value + n * 2 ^ (64 * i)) (at + 8) data_ hbs next
    ∙ step

-- Each digit has eight bytes.
limb_bytes-limbs_fuel : (fuel n : ℕ) → (bs : Bytes) × (limb_bytes (limbs_fuel fuel n) ≡ ok bs)
unfolding limbs_fuel limb_bytes
limb_bytes-limbs_fuel zero n = ([], refl)
limb_bytes-limbs_fuel (suc fuel) n = elim (Bool-cases (n == 0)) [
  | inl e ↦ rw e ([], refl)
  | inr e ↦
      let (bs, h) = limb_bytes-limbs_fuel fuel (n / 2 ^ 64) in
      let digit : n % 2 ^ 64 < 256 ^ 8 = mod-lt n (omega arith) in
      rw (e, to_bytes-small 8 (n % 2 ^ 64) digit, h) (_, refl)
]

pub limb_bytes-limbs : (n : ℕ) → (bs : Bytes) × (limb_bytes (limbs n) ≡ ok bs)
unfolding limbs
limb_bytes-limbs n = limb_bytes-limbs_fuel n n
