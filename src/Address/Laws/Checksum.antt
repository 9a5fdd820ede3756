-- ===== src/Address/Laws/Checksum.antt =====
-- The four bytes behind a key or a name.
use dioxide_python.Prelude.{
  ℕ, ◌+◌, ◌*◌, ◌/◌, ◌%◌, ◌^◌, ◌≡◌, ◌∙◌, ap, ◌<◌, bit_and, bit_or, arith, length, All,
}
use dioxide_python.Prelude.Bits.{bit_and_mask, bit_or_disjoint, bit_and_shift}
use dioxide_python.Prelude.Result.{ok}
use dioxide_python.Bytes.{Bytes, from_bytes, le_digits}
use dioxide_python.Bytes.Laws.{
  IsByte, to_bytes-small, length-le_digits, from_bytes-le_digits, le_digits-IsByte,
}
use dioxide_python.Address.{Codecs, checksum}

crc_value :
    (crc sid : ℕ)
    → sid < 16
    → bit_or (bit_and crc 0xfffffff0) sid ≡ crc / 2 ^ 4 % 2 ^ 28 * 2 ^ 4 + sid
crc_value crc sid h =
    ap (λ m. bit_or m sid)
      (bit_and_shift 4 crc 0xfffffff ∙ ap (λ q. q * 2 ^ 4) (bit_and_mask 28 (crc / 2 ^ 4)))
    ∙ bit_or_disjoint 4 (crc / 2 ^ 4 % 2 ^ 28) sid h

-- The checksum of a type below 16 can always be written, and its low four bits are the type.
pub checksum_lem :
    (codecs : Codecs) (addr : Bytes) (sid : ℕ)
    → sid < 16
    → (crc : Bytes) × (checksum codecs addr sid ≡ ok crc)
      × (length crc ≡ 4)
      × (from_bytes crc % 16 ≡ sid)
      × All IsByte crc
unfolding checksum
checksum_lem codecs addr sid h =
    let n : ℕ = bit_or (bit_and (codecs.crc32c addr sid) 0xfffffff0) sid in
    let value = crc_value (codecs.crc32c addr sid) sid h in
    let small : n < 256 ^ 4 = omega (arith, value) in
    (
      le_digits 4 n,
      to_bytes-small 4 n small,
      length-le_digits 4 n,
      omega (arith, value, from_bytes-le_digits 4 n small),
      le_digits-IsByte 4 n,
    )
