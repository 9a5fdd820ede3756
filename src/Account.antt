-- ===== src/Account.antt =====
-- Accounts, the class DioxAccount of dioxide_python_sdk/client/account.py. What it calls of
-- base64, ed25519 and gmssl is a parameter, as are krock32, crc32c and the hash functions.
pub mod Keys
pub mod Json
pub mod Sign
pub mod Signed
pub mod Examples
use dioxide_python.Prelude.{
  ℕ, ◌+◌, Bool, true, false, ◌&&◌, ◌||◌, not, ◌==◌, leb, ltb, Option, none, some, List, [], ◌∷◌,
  ◌++◌, length, take, if◌then◌else◌,
}
use dioxide_python.Prelude.Result.{
  Result, ok, err, ◌>>=◌, type_error, key_error, attribute_error, map_result,
}
use dioxide_python.Bytes.{Bytes, to_bytes}
use dioxide_python.Text.{Text, codes, text_eq}
use dioxide_python.Text.Hex.{hex, from_hex}
use dioxide_python.Text.Split.{split, first_part, contains}
use dioxide_python.Text.Case.{upper, lower}
use dioxide_python.Address.{Codecs, checksum, address, default}
use dioxide_python.Pow.Search.{Hashes, calculate_txn_pow}

pub data DioxAccountType : Type 0 where
  ethereum bitcoin_p2pkh ed25519 sm2 end_type : DioxAccountType

abbrev pub account_value : DioxAccountType → ℕ
account_value ethereum = 1
account_value bitcoin_p2pkh = 2
account_value ed25519 = 3
account_value sm2 = 4
account_value end_type = 5

-- `account_type.name`
abbrev pub account_name : DioxAccountType → Text
account_name ethereum = codes "ETHEREUM"
account_name bitcoin_p2pkh = codes "BITCOIN_P2PKH"
account_name ed25519 = codes "ED25519"
account_name sm2 = codes "SM2"
account_name end_type = codes "END"

-- The libraries: `base64.b64encode` and `b64decode`; the two keys of `ed25519.SigningKey(sk_s=b)`
-- and of `ed25519.create_keypair()`; signing and verifying, where `verify` raises on a bad
-- signature; and the same of `gmssl.sm2.CryptSM2`, of keys in hex.
pub record Suite : Type 0 where
  pub codecs : Codecs
  pub hashes : Hashes
  pub b64encode : Bytes → Text
  pub b64decode : Text → Result Bytes
  pub signing_key : Bytes → Result (Bytes × Bytes)
  pub create_keypair : Result (Bytes × Bytes)
  pub ed25519_sign : Bytes → Bytes → Result Bytes
  pub ed25519_verify : Bytes → Bytes → Bytes → Result (Unit {0})
  pub sign_with_sm3 : Text → Text → Bytes → Result Text
  pub verify_with_sm3 : Text → Text → Text → Bytes → Result Bool

pub record DioxAccount : Type 0 where
  pub private_key : Option Bytes
  pub public_key : Option Bytes
  pub address_bytes : Option Bytes
  pub account_type : DioxAccountType

-- `except: return None`
abbrev pub or_none {ℓ} : {A : Type ℓ} → Result (Option A) → Option A
or_none (ok a) = a
or_none (err _) = none

-- The length of a key, which is not None.
abbrev length_of : Option Bytes → ℕ
length_of none = 0
length_of (some bs) = length bs

abbrev is_some : Option Bytes → Bool
is_some none = false
is_some (some _) = true

-- The lengths of the keys of each type.
abbrev sizes_fit : DioxAccountType → ℕ → ℕ → Bool
sizes_fit ed25519 sk pk = sk == 64 && pk == 32
sizes_fit sm2 sk pk = sk == 32 && pk == 64
sizes_fit _ sk pk = ltb 0 sk && ltb 0 pk

unfoldable pub is_valid : DioxAccount → Bool
is_valid a =
    not (leb (account_value end_type) (account_value a.account_type))
    && (is_some a.private_key && is_some a.public_key && is_some a.address_bytes)
    && length_of a.address_bytes == 36
    && sizes_fit a.account_type (length_of a.private_key) (length_of a.public_key)

-- `DioxAccountType[name]`
abbrev pub type_named : Text → Option DioxAccountType
type_named t =
    if text_eq t (codes "ETHEREUM")
    then some ethereum
    else if text_eq t (codes "BITCOIN_P2PKH")
    then some bitcoin_p2pkh
    else if text_eq t (codes "ED25519")
    then some ed25519
    else if text_eq t (codes "SM2")
    then some sm2
    else if text_eq t (codes "END")
    then some end_type
    else none

-- The JSON object of an account, whose values are strings or None.
abbrev pub AccountJson : Type 0
AccountJson = List (Text × Option Text)

-- `json[key]`
unfoldable pub lookup : Text → AccountJson → Result (Option Text)
lookup key [] = err key_error
lookup key ((k, v) ∷ json) = let rest = lookup key json in if text_eq key k then ok v else rest

-- `json[key]`, or None where there is no such key
abbrev pub lookup_or_none : Text → AccountJson → Option Text
lookup_or_none key json = elim (lookup key json) [ ok v ↦ v | err _ ↦ none ]

-- The type of a key's name, or `default_type`.
abbrev or_type : DioxAccountType → Option DioxAccountType → DioxAccountType
or_type default_type none = default_type
or_type default_type (some t) = t

-- "AddressType" of the JSON object, where it is the name of a type
abbrev pub by_type_name : DioxAccountType → Option Text → DioxAccountType
by_type_name default_type none = default_type
by_type_name default_type (some t) = or_type default_type (type_named (upper t))

-- A suffix of the address goes before the type's name.
abbrev pub by_suffix : DioxAccountType → Option Text → DioxAccountType
by_suffix account_type none = account_type
by_suffix account_type (some t) =
    if contains (codes ":sm2") (lower t)
    then sm2
    else if contains (codes ":ed25519") (lower t)
    then ed25519
    else account_type

module _ (suite : Suite) where
  -- `if json[key] is not None: base64.b64decode(json[key])`
  unfoldable pub read_key : Option Text → Result (Option Bytes)
  read_key none = ok none
  read_key (some t) = do b ← suite.b64decode t; ok (some b)

  unfoldable pub read_address : Option Text → Result (Option Bytes)
  unfolding split first_part
  read_address none = ok none
  read_address (some t) = do
    b ← suite.codecs.krock32_decode (first_part (split b':' t))
    ok (some b)

  -- The branch of either type.
  unfoldable pub read_account : AccountJson → DioxAccountType → Result (Option DioxAccount)
  unfolding lookup read_key read_address is_valid
  read_account json account_type = do
    private_text ← lookup (codes "PrivateKey") json
    sk ← read_key private_text
    public_text ← lookup (codes "PublicKey") json
    pk ← read_key public_text
    address_text ← lookup (codes "Address") json
    addr ← read_address address_text
    let account : DioxAccount = record {
      private_key = sk;
      public_key = pk;
      address_bytes = addr;
      account_type = account_type;
    }
    ok (if is_valid account then some account else none)

  read_typed : AccountJson → DioxAccountType → Result (Option DioxAccount)
  unfolding read_account
  read_typed json ed25519 = read_account json ed25519
  read_typed json sm2 = read_account json sm2
  read_typed json _ = ok none

  -- `DioxAccount.from_json(json,type)`
  unfoldable pub from_json : AccountJson → DioxAccountType → Option DioxAccount
  unfolding read_typed lookup upper lower contains
  from_json json type_ = or_none (
      read_typed json (
        by_suffix (by_type_name type_ (lookup_or_none (codes "AddressType") json))
          (lookup_or_none (codes "Address") json)))

  -- The account of two ed25519 keys.
  unfoldable pub account_of : Bytes → Bytes → Result (Option DioxAccount)
  unfolding checksum
  account_of sk pk = do
    crc ← checksum suite.codecs pk (account_value ed25519)
    ok (
        some (record {
          private_key = some sk;
          public_key = some pk;
          address_bytes = some (pk ++ crc);
          account_type = ed25519;
        }))

  -- `DioxAccount.from_key(key,type)`
  unfoldable pub account_from_key : Text → DioxAccountType → Option DioxAccount
  unfolding account_of
  account_from_key key ed25519 = or_none (do
    sk_bytes ← suite.b64decode key
    (sk, vk) ← suite.signing_key (take 32 sk_bytes)
    account_of sk vk)
  account_from_key key _ = none

  unfoldable pub generate_key_pair : DioxAccountType → Option DioxAccount
  unfolding account_of
  generate_key_pair ed25519 = or_none (do (sk, pk) ← suite.create_keypair; account_of sk pk)
  generate_key_pair _ = none

  -- A call on a key that is None raises.
  abbrev pub or_raise : Option Bytes → Result Bytes
  or_raise none = err type_error
  or_raise (some b) = ok b

  -- `jsonify()`; `address` prints the address bytes as krock32.
  unfoldable pub jsonify : DioxAccount → Result AccountJson
  unfolding address
  jsonify a = do
    sk ← or_raise a.private_key
    pk ← or_raise a.public_key
    addr ← address suite.codecs (record { bytes_ = a.address_bytes; type_ = default })
    ok (
        (codes "PrivateKey", some (suite.b64encode sk))
        ∷ (codes "PublicKey", some (suite.b64encode pk))
        ∷ (codes "Address", some addr)
        ∷ (codes "AddressType", some (account_name a.account_type))
        ∷ [])
