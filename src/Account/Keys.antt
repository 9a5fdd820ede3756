-- ===== src/Account/Keys.antt =====
-- The accounts that are made of a JSON object, of a key, or anew.
use dioxide_python.Prelude.{
  ◌%◌, ◌≡◌, refl, sym, ◌∙◌, ap, ◌⊎◌, inl, inr, Bool, true, false, Option, some, none, ◌++◌, length,
  length-append, arith, if◌then◌else◌, take,
}
use dioxide_python.Prelude.Result.{Result, ok, err, >>=-eq-ok}
use dioxide_python.Bytes.{Bytes, from_bytes}
use dioxide_python.Text.{Text, codes}
use dioxide_python.Address.Laws.Checksum.{checksum_lem}
use dioxide_python.Account.{
  DioxAccountType, ethereum, bitcoin_p2pkh, ed25519, sm2, end_type, Suite, DioxAccount, is_valid,
  or_none, AccountJson, lookup, lookup_or_none, by_type_name, by_suffix, read_key, read_address,
  read_account, read_typed, from_json, account_of, account_from_key,
}

pub or_none-eq-some :
    {A : Type 0} (r : Result (Option A)) {a : A} → or_none r ≡ some a → r ≡ ok (some a)
or_none-eq-some (ok o) h = ap ok h
or_none-eq-some (err e) h = cc

kept_valid :
    (account a : DioxAccount)
    → (if is_valid account then some account else none) ≡ some a
    → (account ≡ a) × (is_valid a ≡ true)
kept_valid account a h = of (is_valid account) refl h
  where
    of :
        (b : Bool)
        → is_valid account ≡ b
        → (if b then some account else none) ≡ some a
        → (account ≡ a) × (is_valid a ≡ true)
    of true e h' = let same : account ≡ a = cc in (same, ap is_valid (sym same) ∙ e)
    of false e h' = cc

module _ (suite : Suite) where
  read_account-valid :
      (json : AccountJson) (t : DioxAccountType) (a : DioxAccount)
      → read_account suite json t ≡ ok (some a)
      → (is_valid a ≡ true) × (a.account_type ≡ t)
  unfolding read_account
  read_account-valid json t a h =
      let (private_text, _, h₁) = >>=-eq-ok (lookup (codes "PrivateKey") json) _ h in
      let (sk, _, h₂) = >>=-eq-ok (read_key suite private_text) _ h₁ in
      let (public_text, _, h₃) = >>=-eq-ok (lookup (codes "PublicKey") json) _ h₂ in
      let (pk, _, h₄) = >>=-eq-ok (read_key suite public_text) _ h₃ in
      let (address_text, _, h₅) = >>=-eq-ok (lookup (codes "Address") json) _ h₄ in
      let (addr, _, h₆) = >>=-eq-ok (read_address suite address_text) _ h₅ in
      let account : DioxAccount = record {
        private_key = sk;
        public_key = pk;
        address_bytes = addr;
        account_type = t;
      } in
      let kept : (if is_valid account then some account else none) ≡ some a = ok_inj h₆ in
      let (same, valid) = kept_valid account a kept in (valid, ap (λ x. x.account_type) (sym same))
    where
      ok_inj : {x y : Option DioxAccount} → ok x ≡ ok y → x ≡ y
      ok_inj e = ap value e
        where
          value : Result (Option DioxAccount) → Option DioxAccount
          value r = or_none r

  -- An account that `from_json` returns, whatever the libraries do, is valid, and of one of the
  -- two types it supports.
  pub from_json-is_valid :
      (json : AccountJson) (t : DioxAccountType) (a : DioxAccount)
      → from_json suite json t ≡ some a
      → (is_valid a ≡ true) × ((a.account_type ≡ ed25519) ⊎ (a.account_type ≡ sm2))
  unfolding from_json
  from_json-is_valid json t a h =
      typed
        (by_suffix (by_type_name t (lookup_or_none (codes "AddressType") json))
          (lookup_or_none (codes "Address") json))
        (or_none-eq-some _ h)
    where
      typed :
          (u : DioxAccountType)
          → read_typed suite json u ≡ ok (some a)
          → (is_valid a ≡ true) × ((a.account_type ≡ ed25519) ⊎ (a.account_type ≡ sm2))
      typed ed25519 h' = let (v, e) = read_account-valid json ed25519 a h' in (v, inl e)
      typed sm2 h' = let (v, e) = read_account-valid json sm2 a h' in (v, inr e)
      typed ethereum h' = cc
      typed bitcoin_p2pkh h' = cc
      typed end_type h' = cc

  -- What `account_of` makes of two keys of the right lengths.
  abbrev IsEd25519 : DioxAccount → Type 0
  IsEd25519 a =
      (is_valid a ≡ true)
      × (a.account_type ≡ ed25519)
      × ((pk crc : Bytes) × (a.public_key ≡ some pk)
          × (a.address_bytes ≡ some (pk ++ crc))
          × (length crc ≡ 4)
          × (from_bytes crc % 16 ≡ 3))

  account_of-IsEd25519 :
      (sk pk : Bytes) (a : DioxAccount)
      → length sk ≡ 64
      → length pk ≡ 32
      → account_of suite sk pk ≡ ok (some a)
      → IsEd25519 a
  unfolding account_of is_valid
  account_of-IsEd25519 sk pk a hsk hpk h =
      let (crc, ec, four, low, _) = checksum_lem suite.codecs pk 3 (omega arith) in
      let made : DioxAccount = record {
        private_key = some sk;
        public_key = some pk;
        address_bytes = some (pk ++ crc);
        account_type = ed25519;
      } in
      let h' : ok (some made) ≡ ok (some a) = rw ec at h in
      let same : made ≡ a = cc in
      let size : length (pk ++ crc) ≡ 36 = omega (arith, length-append pk crc, hpk, four) in
      rw (← same) (rw (size, hsk, hpk) refl, refl, (pk, crc, refl, refl, four, low))

  -- If ed25519 makes keys of 64 and of 32 bytes, an account that `from_key`
  -- returns is valid, and its address is its public key and a checksum whose low four bits are the
  -- type.
  pub account_from_key-IsEd25519 :
      (key : Text) (t : DioxAccountType) (a : DioxAccount)
      → ((b sk vk : Bytes)
          → suite.signing_key b ≡ ok (sk, vk)
          → (length sk ≡ 64) × (length vk ≡ 32))
      → account_from_key suite key t ≡ some a
      → IsEd25519 a
  unfolding account_from_key
  account_from_key-IsEd25519 key ed25519 a sized h =
      let (bs, _, h₁) = >>=-eq-ok (suite.b64decode key) _ (or_none-eq-some _ h) in
      let ((sk, vk), e, h₂) = >>=-eq-ok (suite.signing_key (take 32 bs)) _ h₁ in
      let (hsk, hvk) = sized (take 32 bs) sk vk e in account_of-IsEd25519 sk vk a hsk hvk h₂
  account_from_key-IsEd25519 key ethereum a sized h = cc
  account_from_key-IsEd25519 key bitcoin_p2pkh a sized h = cc
  account_from_key-IsEd25519 key sm2 a sized h = cc
  account_from_key-IsEd25519 key end_type a sized h = cc
