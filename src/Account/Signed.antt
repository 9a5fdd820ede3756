-- ===== src/Account/Signed.antt =====
-- The signed transaction that `sign_diox_transaction` returns.
use dioxide_python.Prelude.{
  ℕ, ◌+◌, ◌*◌, ◌≡◌, refl, sym, ◌∙◌, ap, inl, inr, Option, some, none, List, [], ◌∷◌, ◌++◌,
  append_assoc, append-nil, length, length-append, arith,
}
use dioxide_python.Prelude.Result.{Result, ok, err, >>=-eq-ok, overflow_error}
use dioxide_python.Bytes.{Bytes, to_bytes, le_digits}
use dioxide_python.Bytes.Laws.{to_bytes-eq_ok, length-le_digits}
use dioxide_python.Account.{
  DioxAccountType, ethereum, bitcoin_p2pkh, ed25519, sm2, end_type, account_value, Suite,
  DioxAccount, or_raise,
}
use dioxide_python.Account.Sign.{sign, append_nonces, sign_payload, with_pow, sign_diox_transaction}
use dioxide_python.Account.Keys.{or_none-eq-some}
use dioxide_python.Pow.Search.{calculate_txn_pow}
use dioxide_python.Pow.Search.First.{AreFirst, passes_for, calculate_txn_pow_lem}

-- The nonces as they are sent, four bytes each.
abbrev pub nonce_bytes : List ℕ → Bytes
nonce_bytes [] = []
nonce_bytes (n ∷ ns) = le_digits 4 n ++ nonce_bytes ns

pub length-nonce_bytes : (ns : List ℕ) → length (nonce_bytes ns) ≡ 4 * length ns
length-nonce_bytes [] = refl
length-nonce_bytes (n ∷ ns) = omega (
  arith,
  length-append (le_digits 4 n) (nonce_bytes ns),
  length-le_digits 4 n,
  length-nonce_bytes ns,
)

module _ (suite : Suite) where
  append_nonces_lem :
      (ns : List ℕ) (body out : Bytes)
      → append_nonces suite body ns ≡ ok out
      → out ≡ body ++ nonce_bytes ns
  unfolding append_nonces
  append_nonces_lem [] body out h = rw append-nil cc
  append_nonces_lem (n ∷ ns) body out h =
      let (b, eb, h₁) = >>=-eq-ok (to_bytes 4 n) _ h in
      let (_, digits) = to_bytes-eq_ok 4 n eb in
      append_nonces_lem ns (body ++ b) out h₁
      ∙ ap (λ (d : Bytes). (body ++ d) ++ nonce_bytes ns) digits
      ∙ append_assoc body (le_digits 4 n) (nonce_bytes ns)

  payload_of :
      (a : DioxAccount) (tx payload : Bytes)
      → sign_payload suite a tx ≡ ok payload
      → (pk : Bytes) × (a.public_key ≡ some pk)
        × (payload ≡ tx ++ ((account_value a.account_type ∷ []) ++ pk))
  unfolding sign_payload le_digits
  payload_of a tx payload h =
      let (sid, es, h₁) = >>=-eq-ok (to_bytes 1 (account_value a.account_type)) _ h in
      let (pk, ep, h₂) = >>=-eq-ok (or_raise suite a.public_key) _ h₁ in
      let (_, digits) = to_bytes-eq_ok 1 (account_value a.account_type) es in
      let one : le_digits 1 (account_value a.account_type) ≡ account_value a.account_type ∷ [] =
        one_digit a.account_type in
      let shape : tx ++ (sid ++ pk) ≡ payload = ap payload_value h₂ in
      (pk, raised a.public_key pk ep, sym shape ∙ ap (λ d. tx ++ (d ++ pk)) (digits ∙ one))
    where
      payload_value : Result Bytes → Bytes
      payload_value (ok b) = b
      payload_value (err _) = []

      one_digit : (t : DioxAccountType) → le_digits 1 (account_value t) ≡ account_value t ∷ []
      one_digit ethereum = refl
      one_digit bitcoin_p2pkh = refl
      one_digit ed25519 = refl
      one_digit sm2 = refl
      one_digit end_type = refl

      raised : (o : Option Bytes) (pk : Bytes) → or_raise suite o ≡ ok pk → o ≡ some pk
      raised none pk e = cc
      raised (some b) pk e = cc

  -- The nonces that follow a body are the first three that pass for it.
  abbrev pub IsProven : Bytes → Bytes → Type 0
  IsProven body out =
      (ns : List ℕ) × (out ≡ body ++ nonce_bytes ns)
      × (length out ≡ length body + 12)
      × AreFirst (passes_for suite.hashes body) 0 ns

  with_pow_lem :
      (payload : Bytes) (o : Option Bytes) (out : Bytes)
      → with_pow suite payload o ≡ ok (some out)
      → (sig : Bytes) × (o ≡ some sig) × IsProven (payload ++ sig) out
  unfolding with_pow
  with_pow_lem payload none out h = cc
  with_pow_lem payload (some sig) out h =
      let (ns, en, h₁) = >>=-eq-ok (calculate_txn_pow suite.hashes (payload ++ sig)) _ h in
      let (signed, es, h₂) = >>=-eq-ok (append_nonces suite (payload ++ sig) ns) _ h₁ in
      let same : signed ≡ out = ap or_nothing h₂ in
      let whole : out ≡ (payload ++ sig) ++ nonce_bytes ns =
        sym same ∙ append_nonces_lem ns (payload ++ sig) signed es in
      let (three, firsts) = first_three (payload ++ sig) ns en in
      (
        sig,
        refl,
        (
          ns,
          whole,
          ap length whole
              ∙ omega (
                arith,
                length-append (payload ++ sig) (nonce_bytes ns),
                length-nonce_bytes ns,
                three,
              ),
          firsts,
        ),
      )
    where
      or_nothing : Result (Option Bytes) → Bytes
      or_nothing (ok (some b)) = b
      or_nothing (ok none) = []
      or_nothing (err _) = []

      first_three :
          (body : Bytes) (ns : List ℕ)
          → calculate_txn_pow suite.hashes body ≡ ok ns
          → (length ns ≡ 3) × AreFirst (passes_for suite.hashes body) 0 ns
      first_three body ns e = elim (calculate_txn_pow_lem suite.hashes body) [
        | inl (ms, em, size, firsts) ↦ let same : ms ≡ ns = cc in rw (← same) (size, firsts)
        | inr em ↦ let no : ok ns ≡ err overflow_error = sym e ∙ em in cc
      ]

  -- A transaction that `sign_diox_transaction` returns is the transaction it was given, the type
  -- of the account in one byte, the public key, the account's signature of all that, and the first
  -- three nonces that pass the difficulty for what stands in front of them, which is 12 bytes
  -- shorter.
  pub sign_diox_transaction-IsProven :
      (a : DioxAccount) (tx out : Bytes)
      → sign_diox_transaction suite a tx ≡ some out
      → (pk sig payload : Bytes) × (a.public_key ≡ some pk)
        × (payload ≡ tx ++ ((account_value a.account_type ∷ []) ++ pk))
        × (sign suite a payload ≡ some sig)
        × IsProven (payload ++ sig) out
  unfolding sign_diox_transaction
  sign_diox_transaction-IsProven a tx out h =
      let (payload, ep, h₁) = >>=-eq-ok (sign_payload suite a tx) _ (or_none-eq-some _ h) in
      let (pk, public, shape) = payload_of a tx payload ep in
      let (sig, es, proven) = with_pow_lem payload (sign suite a payload) out h₁ in
      (pk, sig, payload, public, shape, es, proven)
