-- ===== src/Address/Laws.antt =====
-- Addresses of names: which names there are, and that they are read back.
pub mod Checksum
pub mod Names
use dioxide_python.Prelude.{false, ◌≡◌, refl}
use dioxide_python.Prelude.Result.{ok}
use dioxide_python.Text.{Text}
use dioxide_python.Address.{Codecs, DioxAddress, address, address_eq, type_attribute, operand_eq}

-- An address is not equal to an address that can be printed, not even to itself: the attribute
-- `type` of the other one is a string.
pub address_eq-false :
    (codecs : Codecs) (a b : DioxAddress) {t : Text}
    → address codecs b ≡ ok t
    → address_eq codecs a b ≡ ok false
unfolding address_eq type_attribute operand_eq
address_eq-false codecs a b h = rw h refl
