-- ===== src/Address.antt =====
-- Addresses, the class DioxAddress of dioxide_python_sdk/client/account.py. krock32 and crc32c are
-- parameters, and so is the Unicode database behind `\w` and `\d`.
pub mod Laws
mod Examples
use dioxide_python.Prelude.{
  ℕ, zero, suc, ◌+◌, ◌-◌, ◌*◌, Bool, true, false, ◌&&◌, ◌||◌, not, ◌==◌, leb, ltb, bit_and, bit_or,
  Option, none, some, List, [], ◌∷◌, ◌++◌, length, take, replicate, get_elem?, if◌then◌else◌,
}
use dioxide_python.Prelude.Result.{Result, ok, err, ◌>>=◌, type_error, index_error}
use dioxide_python.Bytes.{Bytes, to_bytes}
use dioxide_python.Text.{Text, codes, text_eq, text_in}
use dioxide_python.Text.Utf8.{encode, decode}
use dioxide_python.Text.Split.{split, first_part}
use dioxide_python.Text.Case.{
  Unicode, matches_digit, matches_word, is_upper_letter, is_lower_letter, all_chars, lower,
}

pub data DioxAddressType : Type 0 where
  default hash name dapp token contract : DioxAddressType

abbrev pub type_value : DioxAddressType → ℕ
type_value default = 0
type_value hash = 8
type_value name = 9
type_value dapp = 10
type_value token = 11
type_value contract = 14

-- What stands on a side of `self.__type == other.type`: a member of the enumeration, or a string.
pub data Operand : Type 0 where
  member : DioxAddressType → Operand
  printed : Text → Operand

-- `a == b` of these; a member of an enumeration is equal to itself alone, and to no string.
unfoldable pub operand_eq : Operand → Operand → Bool
operand_eq (member a) (member b) = type_value a == type_value b
operand_eq (printed s) (printed t) = text_eq s t
operand_eq (member _) (printed _) = false
operand_eq (printed _) (member _) = false

-- `type.name.lower()`
abbrev pub type_name : DioxAddressType → Text
type_name default = codes "default"
type_name hash = codes "hash"
type_name name = codes "name"
type_name dapp = codes "dapp"
type_name token = codes "token"
type_name contract = codes "contract"

-- `krock32.Encoder` and `krock32.Decoder`, `update` and `finalize` in one call, and
-- `crc32c.crc32c(data, crc)`.
pub record Codecs : Type 0 where
  pub krock32_encode : Bytes → Text
  pub krock32_decode : Text → Result Bytes
  pub crc32c : Bytes → ℕ → ℕ

pub record DioxAddress : Type 0 where
  pub bytes_ : Option Bytes
  pub type_ : DioxAddressType

abbrev pub delegated_name_sizemin : ℕ
delegated_name_sizemin = 3

abbrev pub delegated_dapp_sizemin : ℕ
delegated_dapp_sizemin = 4

abbrev pub delegated_dapp_sizemax : ℕ
delegated_dapp_sizemax = 8

abbrev pub delegated_token_sizemin : ℕ
delegated_token_sizemin = 3

abbrev pub delegated_token_sizemax : ℕ
delegated_token_sizemax = 8

-- `sid | (0xfffffff0 & crc32c.crc32c(addr, sid))`, in four bytes
unfoldable pub checksum : Codecs → Bytes → ℕ → Result Bytes
unfolding to_bytes
checksum codecs addr sid = to_bytes 4 (bit_or (bit_and (codecs.crc32c addr sid) 0xfffffff0) sid)

module _ (unicode : Unicode) where
  -- The character sets. Between two bars, `|-|` is the range from a bar to a bar.
  unfoldable pub dapp_char : ℕ → Bool
  dapp_char c =
      is_lower_letter c || c == b'|' || is_upper_letter c || matches_digit unicode c || c == b'_'

  unfoldable pub token_char : ℕ → Bool
  token_char c = is_upper_letter c || c == b'|' || matches_digit unicode c || c == b'#'

  unfoldable pub name_char : ℕ → Bool
  name_char c =
      matches_word unicode c
      || matches_digit unicode c
      || text_in (c ∷ []) (split b' ' (codes "| _ ! # $ @ & ^ * ( ) [ ] { } < > , ; ? ~"))

  within : ℕ → ℕ → (ℕ → Bool) → Text → Bool
  within least most char_set s =
      not (ltb most (length s) || ltb (length s) least || not (all_chars char_set s))

  -- `is_delegatee_name_valid(name)`; the longest NAME is DELEGATED_NAME_SIZEMIN long, as the
  -- shortest.
  unfoldable pub is_delegatee_name_valid : DioxAddressType → Text → Bool
  unfolding within dapp_char token_char name_char
  is_delegatee_name_valid dapp s = within delegated_dapp_sizemin delegated_dapp_sizemax dapp_char s
  is_delegatee_name_valid token s =
      within delegated_token_sizemin delegated_token_sizemax token_char s
  is_delegatee_name_valid name s = within delegated_name_sizemin delegated_name_sizemin name_char s
  is_delegatee_name_valid _ s = false

  -- `s.ljust(32,'\x00')`
  abbrev pub ljust : Text → Text
  ljust s = s ++ replicate (32 - length s) 0

  -- `set_delegatee_from_string(s)`: what it returns, and the address behind it.
  unfoldable pub set_delegatee_from_string :
      Codecs → Text → DioxAddress → Result (Bool × DioxAddress)
  unfolding is_delegatee_name_valid checksum encode
  set_delegatee_from_string codecs s a =
      if is_delegatee_name_valid a.type_ s
      then (do
        addr ← encode (ljust s)
        crc ← checksum codecs addr (type_value a.type_)
        ok (true, record a { bytes_ = some (addr ++ crc) }))
      else ok (false, a)

module _ (codecs : Codecs) where
  -- `DioxAddress.from_key(key)`
  unfoldable pub address_from_key : Text → Result (Option DioxAddress)
  unfolding split first_part
  address_from_key key = do
    addr ← codecs.krock32_decode (first_part (split b':' key))
    ok (if length addr == 36 then some (record { bytes_ = some addr; type_ = default }) else none)

  -- `while valid<32`: the bytes in front of the first zero, of the first `count`.
  unfoldable pub name_bytes : ℕ → Bytes → Result Bytes
  name_bytes zero bs = ok []
  name_bytes (suc count) [] = err index_error
  name_bytes (suc count) (b ∷ bs) =
      let rest = name_bytes count bs in if b == 0 then ok [] else (do ns ← rest; ok (b ∷ ns))

  -- The property `address`, of bytes that are not None.
  unfoldable pub show_address : DioxAddressType → Bytes → Result Text
  unfolding name_bytes decode lower
  show_address default bs = ok (lower (codecs.krock32_encode bs))
  show_address type_ bs = do
    ns ← name_bytes 32 bs
    s ← decode ns
    ok (s ++ ((b':' ∷ []) ++ type_name type_))

  unfoldable pub address : DioxAddress → Result Text
  unfolding show_address
  address a = elim a.bytes_ [ none ↦ err type_error | some bs ↦ show_address a.type_ bs ]

  -- What the attribute `type` reads: its setter is built with `@address.setter`, which keeps the
  -- getter of `address`.
  unfoldable pub type_attribute : DioxAddress → Result Operand
  unfolding address
  type_attribute a = do t ← address a; ok (printed t)

  -- `self == other` of two addresses
  unfoldable pub address_eq : DioxAddress → DioxAddress → Result Bool
  unfolding type_attribute address split first_part operand_eq
  address_eq a b = do
    other_type ← type_attribute b
    let by_address = (do
      s ← address a
      t ← address b
      ok (text_eq (first_part (split b':' s)) (first_part (split b':' t))))
    if operand_eq (member a.type_) other_type then by_address else ok false

  -- `self == other` of an address and a string
  unfoldable pub address_eq_text : DioxAddress → Text → Result Bool
  unfolding address split first_part
  address_eq_text a t = do
    s ← address a
    ok (text_eq (first_part (split b':' s)) (first_part (split b':' t)))
