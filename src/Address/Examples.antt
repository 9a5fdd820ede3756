-- ===== src/Address/Examples.antt =====
-- The address of the dapp `bank`, with a stand-in for krock32 and for the checksum.
use dioxide_python.Prelude.{
  ◌≡◌, refl, true, false, leb, ltb, ◌&&◌, [], ◌∷◌, ◌++◌, replicate, some, none, length,
}
use dioxide_python.Prelude.{◌-◌}
use dioxide_python.Prelude.Result.{ok}
use dioxide_python.Bytes.{Bytes, le_digits}
use dioxide_python.Text.{codes}
use dioxide_python.Text.Case.{Unicode}
use dioxide_python.Text.Hex.{hex, from_hex}
use dioxide_python.Address.{
  DioxAddress, Codecs, default, dapp, token, name, is_delegatee_name_valid,
  set_delegatee_from_string, address, address_eq, address_eq_text, address_from_key,
}
use dioxide_python.Address.Laws.Names.{
  IsName, is_delegatee_name_valid-IsName, set_delegatee-address,
}

-- Arabic digits are decimal digits, above ASCII.
abbrev arabic : Unicode
arabic = record {
  is_decimal = λ c. leb 0x660 c && ltb c 0x66a;
  is_word = λ c. leb 0x660 c && ltb c 0x66a;
  is_digit = λ c. leb 0x660 c && ltb c 0x66a;
  digit_value = λ c. some (c - 0x660);
}

abbrev stand_in : Codecs
stand_in = record { krock32_encode = hex; krock32_decode = from_hex; crc32c = λ b n. 0x12345678 }

abbrev new_dapp : DioxAddress
new_dapp = record { bytes_ = none; type_ = dapp }

abbrev bank : DioxAddress
bank = record {
  bytes_ = some (codes "bank" ++ (replicate 28 0 ++ (0x7a ∷ 0x56 ∷ 0x34 ∷ 0x12 ∷ [])));
  type_ = dapp;
}

bank_set : set_delegatee_from_string arabic stand_in (codes "bank") new_dapp ≡ ok (true, bank)
unfolding set_delegatee_from_string le_digits
bank_set = refl

bank_shown : address stand_in bank ≡ ok (codes "bank:dapp")
unfolding address
bank_shown = refl

bank_is_bank : address_eq_text stand_in bank (codes "bank") ≡ ok true
unfolding address_eq_text
bank_is_bank = refl

-- A key of 36 bytes makes an address, one of another length none.
keys :
    (address_from_key stand_in (codes "00:sm2") ≡ ok none)
    × (address_from_key stand_in (hex (replicate 36 7))
        ≡ ok (some (record { bytes_ = some (replicate 36 7); type_ = default })))
unfolding address_from_key hex from_hex
keys = (refl, refl)

-- A bar is a character of names, a hyphen is not, and `bank` is too long for the name of a user.
odd_names :
    (is_delegatee_name_valid arabic token (codes "A|B") ≡ true)
    × (is_delegatee_name_valid arabic token (codes "A-B") ≡ false)
    × (is_delegatee_name_valid arabic name (codes "bob") ≡ true)
    × (is_delegatee_name_valid arabic name (codes "bank") ≡ false)
unfolding is_delegatee_name_valid
odd_names = (refl, refl, refl, refl)

-- A digit above ASCII takes two bytes, so that the address of the dapp is a byte too long.
abbrev wide : DioxAddress
wide = record {
  bytes_ = some (codes "ban" ++ (0xd9 ∷ 0xa3 ∷ replicate 28 0 ++ (0x7a ∷ 0x56 ∷ 0x34 ∷ 0x12 ∷ [])));
  type_ = dapp;
}

wide_set :
    set_delegatee_from_string arabic stand_in (codes "ban" ++ (0x663 ∷ [])) new_dapp
    ≡ ok (true, wide)
unfolding set_delegatee_from_string le_digits
wide_set = refl

-- An address is not equal to itself.
bank_is_not_bank : address_eq stand_in bank bank ≡ ok false
unfolding address_eq
bank_is_not_bank = refl

bank_valid : is_delegatee_name_valid arabic dapp (codes "bank") ≡ true
unfolding is_delegatee_name_valid
bank_valid = refl

is_delegatee_name_valid-IsName_example : IsName dapp (codes "bank")
is_delegatee_name_valid-IsName_example =
    is_delegatee_name_valid-IsName arabic dapp (codes "bank") bank_valid

set_delegatee-address_example :
    (bs : Bytes) × (set_delegatee_from_string arabic stand_in (codes "bank") new_dapp
      ≡ ok (true, record { bytes_ = some bs; type_ = dapp }))
    × (length bs ≡ 36)
    × (address stand_in (record { bytes_ = some bs; type_ = dapp }) ≡ ok (codes "bank:dapp"))
set_delegatee-address_example =
    set_delegatee-address arabic stand_in (codes "bank") new_dapp bank_valid refl
