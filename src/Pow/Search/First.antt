-- ===== src/Pow/Search/First.antt =====
-- The search finds the first nonces that pass, and finds them if there are any.
use dioxide_python.Prelude.{
  ℕ, zero, suc, ◌+◌, ◌^◌, ◌≤◌, ◌<◌, ◌≡◌, refl, sym, ap, ◌∙◌, ◌⊎◌, inl, inr, Bool, true, false,
  Bool-cases, length, le_or_lt, List, [], ◌∷◌, ◌++◌, if◌then◌else◌, arith, ltb,
}
use dioxide_python.Prelude.Result.{Result, ok, err, overflow_error}
use dioxide_python.Bytes.{Bytes, to_bytes, le_digits}
use dioxide_python.Pow.{PowDifficulty, is_fullfiled}
use dioxide_python.Pow.Search.{
  Hashes, rounds, find_nonce, find_nonces, pow_data_of, difficulty_of, calculate_txn_pow,
}

-- `n` is the first number from `start` on that passes.
pub record IsFirst (passes : ℕ → Bool) (start n : ℕ) : Type 0 where
  pub at_least : start ≤ n
  pub passed : passes n ≡ true
  pub failed : (k : ℕ) → start ≤ k → k < n → passes k ≡ false

-- Each number is the first one behind the number before it.
abbrev pub AreFirst : (ℕ → Bool) → ℕ → List ℕ → Type 0
AreFirst passes start [] = Unit {0}
AreFirst passes start (n ∷ ns) = IsFirst passes start n × AreFirst passes (n + 1) ns

-- There are `count` numbers from `start` on, below `end`, that pass.
pub data Enough (passes : ℕ → Bool) (end : ℕ) : ℕ → ℕ → Type 0 where
  none_needed : {start : ℕ} → Enough passes end zero start
  one_more :
      {count start : ℕ} (n : ℕ)
      → start ≤ n
      → n < end
      → passes n ≡ true
      → Enough passes end count (n + 1)
      → Enough passes end (suc count) start

-- One more number that fails.
fails_from :
    (passes : ℕ → Bool) (n end : ℕ)
    → passes n ≡ false
    → ((k : ℕ) → n + 1 ≤ k → k < end → passes k ≡ false)
    → (k : ℕ) → n ≤ k
    → k < end
    → passes k ≡ false
fails_from passes n end e later k low high = elim (le_or_lt k n) [
  | inl le ↦ let same : k ≡ n = omega arith in rw same e
  | inr lt ↦ later k (omega arith) high
]

-- An earlier start leaves as many.
sooner :
    {passes : ℕ → Bool} {end : ℕ} (count m k : ℕ)
    → m ≤ k
    → Enough passes end count (k + 1)
    → Enough passes end count (m + 1)
sooner zero m k le enough = none_needed
sooner (suc count) m k le (one_more n low high passed rest) =
    one_more n (omega arith) high passed rest

module _ (hashes : Hashes) (diff : PowDifficulty) (pow_data : Bytes) where
  -- The test on a nonce, of 32 bits.
  abbrev pub passes_nonce : ℕ → Bool
  passes_nonce n = is_fullfiled diff (hashes.sha256 (pow_data ++ le_digits 4 n))

  round_at :
      (fuel n : ℕ)
      → n < 2 ^ 32
      → find_nonce hashes (suc fuel) diff pow_data n
        ≡ (if passes_nonce n then ok n else find_nonce hashes fuel diff pow_data (n + 1))
  unfolding find_nonce to_bytes
  round_at fuel n h = let small : ltb n (256 ^ 4) ≡ true = ground arith in rw small refl

  past_end :
      (fuel n : ℕ) → 2 ^ 32 ≤ n → find_nonce hashes (suc fuel) diff pow_data n ≡ err overflow_error
  unfolding find_nonce to_bytes
  past_end fuel n h = let large : ltb n (256 ^ 4) ≡ false = ground arith in rw large refl

  -- From a nonce on the loop returns the first one that passes, or raises OverflowError where
  -- none of 32 bits does.
  abbrev Finds : ℕ → Result ℕ → Type 0
  Finds n r =
      ((m : ℕ) × (r ≡ ok m) × IsFirst passes_nonce n m × (m < 2 ^ 32))
      ⊎ ((r ≡ err overflow_error) × ((k : ℕ) → n ≤ k → k < 2 ^ 32 → passes_nonce k ≡ false))

  first_below : (n m k : ℕ) → IsFirst passes_nonce n m → n ≤ k → passes_nonce k ≡ true → m ≤ k
  first_below n m k first low passed = elim (le_or_lt m k) [
    | inl le ↦ le
    | inr lt ↦ let no : true ≡ false = sym passed ∙ first.failed k low lt in cc
  ]

  extend_first :
      (n : ℕ) (r : Result ℕ) → n < 2 ^ 32 → passes_nonce n ≡ false → Finds (n + 1) r → Finds n r
  extend_first n r h e (inl (m, er, first, small)) = inl (
    m,
    er,
    record {
      at_least = omega (arith, first.at_least);
      passed = first.passed;
      failed = fails_from passes_nonce n m e first.failed;
    },
    small,
  )
  extend_first n r h e (inr (er, none_)) = inr (er, fails_from passes_nonce n (2 ^ 32) e none_)

  find_nonce_lem :
      (fuel n : ℕ)
      → n ≤ 2 ^ 32
      → 2 ^ 32 + 1 ≤ n + fuel
      → Finds n (find_nonce hashes fuel diff pow_data n)
  find_nonce_lem zero n h enough = absurd (omega (arith, h, enough))
  find_nonce_lem (suc fuel) n h enough = elim (le_or_lt (2 ^ 32) n) [
    | inl large ↦
        inr (past_end fuel n large, λ k low high. absurd (omega (arith, large, low, high)))
    | inr small ↦ elim (Bool-cases (passes_nonce n)) [
      | inl e ↦ inl (
        n,
        rw (round_at fuel n small, e) refl,
        record {
          at_least = omega arith;
          passed = e;
          failed = λ k low high. absurd (omega (arith, low, high));
        },
        small,
      )
      | inr e ↦
          rw (round_at fuel n small, e)
            (extend_first n _ small e (find_nonce_lem fuel (n + 1) (omega arith) (omega arith)))
    ]
  ]

  found : (n : ℕ) → n ≤ 2 ^ 32 → Finds n (find_nonce hashes rounds diff pow_data n)
  found n h = find_nonce_lem rounds n h (omega arith)

  -- The `for` loop ends, with the first nonces that pass, or with OverflowError.
  abbrev FindsAll : ℕ → ℕ → Result (List ℕ) → Type 0
  FindsAll count n r =
      ((ns : List ℕ) × (r ≡ ok ns) × (length ns ≡ count) × AreFirst passes_nonce n ns)
      ⊎ (r ≡ err overflow_error)

  pub find_nonces_lem :
      (count n : ℕ) → n ≤ 2 ^ 32 → FindsAll count n (find_nonces hashes count diff pow_data n)
  unfolding find_nonces
  find_nonces_lem zero n h = inl ([], refl, refl, tt)
  find_nonces_lem (suc count) n h = elim (found n h) [
    | inr (e, _) ↦ inr (rw e refl)
    | inl (m, e, first, small) ↦ elim (find_nonces_lem count (m + 1) (omega arith)) [
      | inr e' ↦ inr (rw (e, e') refl)
      | inl (ns, e', size, firsts) ↦ inl (m ∷ ns, rw (e, e') refl, ap suc size, (first, firsts))
    ]
  ]

  -- It returns if enough nonces pass.
  pub find_nonces-Enough :
      (count n : ℕ)
      → n ≤ 2 ^ 32
      → Enough passes_nonce (2 ^ 32) count n
      → (ns : List ℕ) × (find_nonces hashes count diff pow_data n ≡ ok ns)
  unfolding find_nonces
  find_nonces-Enough zero n h enough = ([], refl)
  find_nonces-Enough (suc count) n h (one_more k low high passed rest) = elim (found n h) [
    | inr (e, none_) ↦ let no : true ≡ false = sym passed ∙ none_ k low high in ([], cc)
    | inl (m, e, first, small) ↦
        let (ns, e') =
          find_nonces-Enough count (m + 1) (omega arith)
            (sooner count m k (first_below n m k first low passed) rest) in
        (m ∷ ns, rw (e, e') refl)
  ]

module _ (hashes : Hashes) (tx : Bytes) where
  -- The test that the nonces of a transaction are put to.
  abbrev pub passes_for : ℕ → Bool
  passes_for = passes_nonce hashes (difficulty_of hashes tx) (pow_data_of hashes tx)

  -- `calculate_txn_pow` ends for every transaction: it returns three nonces, each of which is the
  -- first one behind the one before it that passes the difficulty, or raises OverflowError.
  pub calculate_txn_pow_lem :
      ((ns : List ℕ) × (calculate_txn_pow hashes tx ≡ ok ns)
        × (length ns ≡ 3)
        × AreFirst passes_for 0 ns)
      ⊎ (calculate_txn_pow hashes tx ≡ err overflow_error)
  unfolding calculate_txn_pow
  calculate_txn_pow_lem =
      find_nonces_lem hashes (difficulty_of hashes tx) (pow_data_of hashes tx) 3 0 (omega arith)

  -- If three nonces of 32 bits pass, `calculate_txn_pow` returns.
  pub calculate_txn_pow-Enough :
      Enough passes_for (2 ^ 32) 3 0 → (ns : List ℕ) × (calculate_txn_pow hashes tx ≡ ok ns)
  unfolding calculate_txn_pow
  calculate_txn_pow-Enough enough =
      find_nonces-Enough hashes (difficulty_of hashes tx) (pow_data_of hashes tx) 3 0 (omega arith)
        enough
