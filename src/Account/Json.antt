-- ===== src/Account/Json.antt =====
-- `from_json` reads what `jsonify` writes.
use dioxide_python.Prelude.{◌≡◌, refl, ◌∙◌, ap, ◌⊎◌, inl, inr, true, some, [], ◌∷◌, arith, All}
use dioxide_python.Prelude.Result.{ok, ◌>>=◌}
use dioxide_python.Bytes.{Bytes}
use dioxide_python.Bytes.Laws.{IsByte}
use dioxide_python.Text.{Text, codes}
use dioxide_python.Text.Case.{upper, lower, lower_char, upper_char}
use dioxide_python.Text.Split.{split, first_part}
use dioxide_python.Text.Split.Laws.{no_char, split-no_char, contains-no_char}
use dioxide_python.Account.{
  DioxAccountType, ethereum, bitcoin_p2pkh, ed25519, sm2, end_type, account_name, Suite,
  DioxAccount, AccountJson, is_valid, or_none, lookup, by_type_name, by_suffix, read_key,
  read_address, read_account, read_typed, from_json, jsonify,
}

no_char-lower : (t : Text) → no_char b':' t ≡ true → no_char b':' (lower t) ≡ true
unfolding lower lower_char
no_char-lower [] h = refl
no_char-lower (c ∷ t) h = let rest = no_char-lower t (ground (arith, h)) in ground arith

-- The name of a supported type is read back.
by_type_name-account_name :
    (t u : DioxAccountType) → (t ≡ ed25519) ⊎ (t ≡ sm2) → by_type_name u (some (account_name t)) ≡ t
unfolding upper upper_char
by_type_name-account_name t u (inl e) = rw e refl
by_type_name-account_name t u (inr e) = rw e refl

-- Without a colon the address does not change the type.
by_suffix-no_char :
    (t : DioxAccountType) (s : Text) → no_char b':' s ≡ true → by_suffix t (some s) ≡ t
by_suffix-no_char t s h =
    let plain = no_char-lower s h in
    rw
      (
        contains-no_char b':' (codes "sm2") (lower s) plain,
        contains-no_char b':' (codes "ed25519") (lower s) plain,
      )
      refl

module _ (suite : Suite) where
  -- What the account's libraries do: base64 and krock32 read what they write, and krock32 writes
  -- no colon.
  pub record IsRoundTrip : Type 0 where
    pub base64 : (b : Bytes) → All IsByte b → suite.b64decode (suite.b64encode b) ≡ ok b
    pub krock32 :
        (b : Bytes)
        → All IsByte b
        → suite.codecs.krock32_decode (lower (suite.codecs.krock32_encode b)) ≡ ok b
    pub no_colon : (b : Bytes) → no_char b':' (suite.codecs.krock32_encode b) ≡ true

  abbrev account : Bytes → Bytes → Bytes → DioxAccountType → DioxAccount
  account sk pk addr t = record {
    private_key = some sk;
    public_key = some pk;
    address_bytes = some addr;
    account_type = t;
  }

  -- The object that `jsonify` writes for an account with keys.
  abbrev json_of : Bytes → Bytes → Bytes → DioxAccountType → AccountJson
  json_of sk pk addr t =
      (codes "PrivateKey", some (suite.b64encode sk))
      ∷ (codes "PublicKey", some (suite.b64encode pk))
      ∷ (codes "Address", some (lower (suite.codecs.krock32_encode addr)))
      ∷ (codes "AddressType", some (account_name t))
      ∷ []

  read_account-json_of :
      IsRoundTrip
      → (sk pk addr : Bytes) (t : DioxAccountType) → All IsByte sk
      → All IsByte pk
      → All IsByte addr
      → is_valid (account sk pk addr t) ≡ true
      → read_account suite (json_of sk pk addr t) t ≡ ok (some (account sk pk addr t))
  unfolding read_account lookup read_key read_address first_part
  read_account-json_of lib sk pk addr t bsk bpk baddr valid =
      let whole : split b':' (lower (suite.codecs.krock32_encode addr))
          ≡ lower (suite.codecs.krock32_encode addr) ∷ [] =
        split-no_char b':' _ (no_char-lower _ (lib.no_colon addr)) in
      rw (lib.base64 sk bsk, lib.base64 pk bpk, whole, lib.krock32 addr baddr, valid) refl

  -- A valid account of one of the two supported types is read back from its JSON object, whatever
  -- type `from_json` is called with, if the libraries read what they write.
  pub from_json-jsonify :
      IsRoundTrip
      → (sk pk addr : Bytes) (t u : DioxAccountType) → All IsByte sk
      → All IsByte pk
      → All IsByte addr
      → (t ≡ ed25519) ⊎ (t ≡ sm2)
      → is_valid (account sk pk addr t) ≡ true
      → (jsonify suite (account sk pk addr t) >>= λ json. ok (from_json suite json u))
        ≡ ok (some (account sk pk addr t))
  unfolding jsonify from_json lookup
  from_json-jsonify lib sk pk addr t u bsk bpk baddr supported valid =
      let read = read_account-json_of lib sk pk addr t bsk bpk baddr valid in
      let text : Text = suite.codecs.krock32_encode addr in
      let suffix = by_suffix-no_char t (lower text) (no_char-lower text (lib.no_colon addr)) in
      ap (λ a. ok a)
        (ap (λ v. or_none (read_typed suite (json_of sk pk addr t) v))
            (ap (λ v. by_suffix v (some (lower (suite.codecs.krock32_encode addr))))
                (by_type_name-account_name t u supported)
              ∙ suffix)
          ∙ ap or_none (typed t supported read))
    where
      typed :
          (t : DioxAccountType)
          → (t ≡ ed25519) ⊎ (t ≡ sm2)
          → read_account suite (json_of sk pk addr t) t ≡ ok (some (account sk pk addr t))
          → read_typed suite (json_of sk pk addr t) t ≡ ok (some (account sk pk addr t))
      typed ed25519 s e = e
      typed sm2 s e = e
      typed ethereum (inl s) e = cc
      typed ethereum (inr s) e = cc
      typed bitcoin_p2pkh (inl s) e = cc
      typed bitcoin_p2pkh (inr s) e = cc
      typed end_type (inl s) e = cc
      typed end_type (inr s) e = cc
