-- ===== src/Account/Examples.antt =====
-- An account with stand-ins for the libraries: texts that are the bytes moved above ASCII, keys
-- that are filled up, and a signature that is the same for every message.
use dioxide_python.Prelude.{
  ℕ, ◌+◌, ◌-◌, ◌%◌, ◌==◌, ◌≡◌, refl, ◌∙◌, ap, inl, ◌⊎◌, true, false, [], ◌∷◌, ◌++◌, replicate, some,
  none, length, if◌then◌else◌, arith,
}
use dioxide_python.Prelude.Result.{Result, ok, err, value_error, ◌>>=◌}
use mathlib.Core.List.{map}
use dioxide_python.Bytes.{Bytes, le_digits, from_bytes, slice}
use dioxide_python.Text.{Text, codes}
use dioxide_python.Text.Case.{lower, lower_char}
use dioxide_python.Text.Split.Laws.{no_char}
use dioxide_python.Pow.Search.{Hashes, calculate_txn_pow}
use dioxide_python.Account.{
  ed25519, sm2, Suite, DioxAccount, is_valid, AccountJson, from_json, account_from_key,
  generate_key_pair, jsonify,
}
use dioxide_python.Account.Sign.{sign, verify, sign_diox_transaction}
use dioxide_python.Account.Keys.{from_json-is_valid, account_from_key-IsEd25519}
use dioxide_python.Account.Json.{IsRoundTrip, from_json-jsonify}
use dioxide_python.Account.Signed.{IsProven, sign_diox_transaction-IsProven}

abbrev above : Bytes → Text
above b = map (λ c. c + 1000) b

abbrev back : Text → Result Bytes
back t = ok (map (λ c. c - 1000) t)

-- Hashes that pass the difficulty for every other nonce.
abbrev evens : Hashes
evens = record {
  sha512 = λ b. replicate 64 1;
  sha256 = λ b. if from_bytes (slice b 60 1) % 2 == 0 then replicate 32 0 else replicate 32 255;
}

abbrev pub stand_ins : Suite
stand_ins = record {
  codecs = record { krock32_encode = above; krock32_decode = back; crc32c = λ b n. 0x12345678 };
  hashes = evens;
  b64encode = above;
  b64decode = back;
  signing_key = λ b. ok (replicate 64 5, replicate 32 6);
  create_keypair = ok (replicate 64 5, replicate 32 6);
  ed25519_sign = λ sk msg. ok (replicate 64 9);
  ed25519_verify = λ pk sig msg. if length sig == 64 then ok tt else err value_error;
  sign_with_sm3 = λ sk pk msg. ok (codes "00ff");
  verify_with_sm3 = λ sk pk sig msg. ok true;
}

abbrev crc : Bytes
crc = 0x73 ∷ 0x56 ∷ 0x34 ∷ 0x12 ∷ []

abbrev pub alice : DioxAccount
alice = record {
  private_key = some (replicate 64 5);
  public_key = some (replicate 32 6);
  address_bytes = some (replicate 32 6 ++ crc);
  account_type = ed25519;
}

alice_from_key : account_from_key stand_ins (above (replicate 32 1)) ed25519 ≡ some alice
unfolding account_from_key le_digits
alice_from_key = refl

alice_anew : generate_key_pair stand_ins ed25519 ≡ some alice
unfolding generate_key_pair le_digits
alice_anew = refl

-- The signature of a type that is not supported, or of the wrong length, is None.
signatures :
    (sign stand_ins alice (1 ∷ 2 ∷ []) ≡ some (replicate 64 9))
    × (sign stand_ins (record alice { account_type = sm2 }) (1 ∷ 2 ∷ []) ≡ none)
    × (verify stand_ins alice (replicate 64 9) (1 ∷ 2 ∷ []) ≡ true)
    × (verify stand_ins alice (9 ∷ []) (1 ∷ 2 ∷ []) ≡ false)
unfolding sign verify
signatures = (refl, refl, refl, refl)

above-back : (b : Bytes) → back (above b) ≡ ok b
above-back [] = refl
above-back (c ∷ b) = ap cons_ok (above-back b) ∙ ap (λ n. ok (n ∷ b)) (moved c)
  where
    moved : (n : ℕ) → n + 1000 - 1000 ≡ n
    moved n = omega arith

    cons_ok : Result Bytes → Result Bytes
    cons_ok (ok r) = ok ((c + 1000 - 1000) ∷ r)
    cons_ok (err e) = err e

lower-above : (b : Bytes) → lower (above b) ≡ above b
unfolding lower lower_char
lower-above [] = refl
lower-above (c ∷ b) = rw (lower-above b) (ap (λ n. n ∷ above b) (high c))
  where
    high : (n : ℕ) → lower_char (n + 1000) ≡ n + 1000
    high n = ground arith

no_colon_above : (b : Bytes) → no_char b':' (above b) ≡ true
no_colon_above [] = refl
no_colon_above (c ∷ b) = let rest = no_colon_above b in ground arith

stand_ins-IsRoundTrip : IsRoundTrip stand_ins
stand_ins-IsRoundTrip = record {
  base64 = λ b _. above-back b;
  krock32 = λ b _. rw (lower-above b) (above-back b);
  no_colon = no_colon_above;
}

alice_json : AccountJson
alice_json =
    (codes "PrivateKey", some (above (replicate 64 5)))
    ∷ (codes "PublicKey", some (above (replicate 32 6)))
    ∷ (codes "Address", some (above (replicate 32 6 ++ crc)))
    ∷ []

alice_read : from_json stand_ins alice_json ed25519 ≡ some alice
unfolding from_json alice_json
alice_read = refl

-- Without a private key there is no account.
nobody : from_json stand_ins ((codes "PublicKey", some (codes "6")) ∷ []) ed25519 ≡ none
unfolding from_json
nobody = refl

from_json-is_valid_example : (is_valid alice ≡ true) × ((ed25519 ≡ ed25519) ⊎ (ed25519 ≡ sm2))
from_json-is_valid_example = from_json-is_valid stand_ins alice_json ed25519 alice alice_read

sized :
    (b sk vk : Bytes) → stand_ins.signing_key b ≡ ok (sk, vk) → (length sk ≡ 64) × (length vk ≡ 32)
sized b sk vk e =
    let first : replicate 64 5 ≡ sk = ap (λ r. (keys r).0) e in
    let second : replicate 32 6 ≡ vk = ap (λ r. (keys r).1) e in
    (rw (← first) refl, rw (← second) refl)
  where
    keys : Result (Bytes × Bytes) → Bytes × Bytes
    keys (ok k) = k
    keys (err _) = ([], [])

account_from_key-IsEd25519_example :
    (is_valid alice ≡ true)
    × (ed25519 ≡ ed25519)
    × ((pk c : Bytes) × (some (replicate 32 6) ≡ some pk)
        × (some (replicate 32 6 ++ crc) ≡ some (pk ++ c))
        × (length c ≡ 4)
        × (from_bytes c % 16 ≡ 3))
account_from_key-IsEd25519_example =
    account_from_key-IsEd25519 stand_ins (above (replicate 32 1)) ed25519 alice sized alice_from_key

alice_valid : is_valid alice ≡ true
unfolding is_valid
alice_valid = refl

from_json-jsonify_example :
    (jsonify stand_ins alice >>= λ json. ok (from_json stand_ins json sm2)) ≡ ok (some alice)
from_json-jsonify_example =
    from_json-jsonify stand_ins stand_ins-IsRoundTrip (replicate 64 5) (replicate 32 6)
      (replicate 32 6 ++ crc) ed25519 sm2 (omega arith) (omega arith) (omega arith) (inl refl)
      alice_valid

abbrev pub unsigned : Bytes
unsigned = replicate 20 7

abbrev body : Bytes
body = (unsigned ++ ((3 ∷ []) ++ replicate 32 6)) ++ replicate 64 9

abbrev pub sent : Bytes
sent = body ++ (0 ∷ 0 ∷ 0 ∷ 0 ∷ 2 ∷ 0 ∷ 0 ∷ 0 ∷ 4 ∷ 0 ∷ 0 ∷ 0 ∷ [])

pub alice_signs : sign_diox_transaction stand_ins alice unsigned ≡ some sent
unfolding sign_diox_transaction calculate_txn_pow from_bytes le_digits
alice_signs = refl

sign_diox_transaction-IsProven_example :
    (pk sig payload : Bytes) × (some (replicate 32 6) ≡ some pk)
    × (payload ≡ unsigned ++ ((3 ∷ []) ++ pk))
    × (sign stand_ins alice payload ≡ some sig)
    × IsProven stand_ins (payload ++ sig) sent
sign_diox_transaction-IsProven_example =
    sign_diox_transaction-IsProven stand_ins alice unsigned sent alice_signs
