-- ===== src/Transaction/Laws.antt =====
-- Transactions and the bytes they are serialized to.
use dioxide_python.Prelude.{
  ℕ, ◌+◌, ◌*◌, ◌/◌, ◌%◌, ◌^◌, ◌≤◌, ◌<◌, ◌≡◌, ◌≢◌, refl, sym, ap, false, Option, [], ◌++◌,
  append_assoc, arith,
}
use dioxide_python.Prelude.{
  length, length-append, bit_and, bit_or, ltb, le→ltb_false, Bool-cases, inl, inr,
}
use dioxide_python.Prelude.Bits.{bit_and_mask}
use dioxide_python.Prelude.Result.{Result, ok, err, overflow_error, ◌>>=◌, >>=-eq-ok}
use dioxide_python.Bytes.{Bytes, slice, to_bytes, from_bytes}
use dioxide_python.Bytes.Laws.{length-to_bytes, from_bytes-to_bytes, slice-append}
use dioxide_python.Contract.{ContractInvokeId, is_core_dapp, get_scope}
use dioxide_python.Contract.Layout.{or_below}
use dioxide_python.Contract.Core.{get_scope_lem}
use dioxide_python.Transaction.{
  Log2, UnsignedTransaction, target, unsigned_transaction, ttl_sc_tsc, serialize_tail,
  serialize_transaction, get_ttl_from_signed_txn, core_contract_rvm,
}

-- The low nine bits of the packed word.
ttl_bits : (tx : UnsignedTransaction) → ttl_sc_tsc tx % 512 ≡ (tx.ttl + 511) % 512
unfolding ttl_sc_tsc
ttl_bits tx =
    let c : bit_and tx.tsc 0x3 ≡ tx.tsc % 4 = bit_and_mask 2 tx.tsc in
    let s : bit_and (tx.sc + 15) 0xF ≡ (tx.sc + 15) % 16 = bit_and_mask 4 (tx.sc + 15) in
    let t : bit_and (tx.ttl + 511) 0x1FF ≡ (tx.ttl + 511) % 512 = bit_and_mask 9 (tx.ttl + 511) in
    rw (c, s, t)
      (packed_low (tx.tsc % 4) ((tx.sc + 15) % 16) ((tx.ttl + 511) % 512) (omega arith)
        (omega arith))
  where
    packed_low :
        (x y z : ℕ) → y < 16 → z < 512 → bit_or (bit_or (x * 2 ^ 13) (y * 2 ^ 9)) z % 512 ≡ z
    packed_low x y z hy hz =
        rw
          (
            or_below 13 (x * 2 ^ 13) x (y * 2 ^ 9) refl (omega arith),
            or_below 9 (x * 2 ^ 13 + y * 2 ^ 9) (x * 16 + y) z (omega arith) hz,
          )
          (omega arith)

-- Two bytes behind twelve.
read_at_twelve :
    (a b c d x rest : Bytes)
    → length a ≡ 1
    → length b ≡ 1
    → length c ≡ 6
    → length d ≡ 4
    → length x ≡ 2
    → slice (a ++ (b ++ (c ++ (d ++ (x ++ rest))))) 12 2 ≡ x
read_at_twelve a b c d x rest ha hb hc hd hx =
    let front : Bytes = a ++ (b ++ (c ++ d)) in
    let size : length front ≡ 12 =
      omega (arith, length-append a (b ++ (c ++ d)), length-append b (c ++ d), length-append c d) in
    let whole : a ++ (b ++ (c ++ (d ++ (x ++ rest)))) ≡ front ++ (x ++ rest) =
      sym (simp append_assoc) in
    let found = slice-append front x rest in let found' = rw (size, hx) at found in rw whole found'

abbrev or_nil : Result Bytes → Bytes
or_nil (ok b) = b
or_nil (err e) = []

ttl_of :
    (a b c d x rest bs : Bytes) (tx : UnsignedTransaction)
    → length a ≡ 1
    → length b ≡ 1
    → length c ≡ 6
    → length d ≡ 4
    → to_bytes 2 (ttl_sc_tsc tx) ≡ ok x
    → bs ≡ a ++ (b ++ (c ++ (d ++ (x ++ rest))))
    → 1 ≤ tx.ttl
    → tx.ttl ≤ 512
    → get_ttl_from_signed_txn bs ≡ tx.ttl
unfolding get_ttl_from_signed_txn
ttl_of a b c d x rest bs tx ha hb hc hd hx whole low high =
    let found = read_at_twelve a b c d x rest ha hb hc hd (length-to_bytes 2 (ttl_sc_tsc tx) hx) in
    let word : from_bytes x ≡ ttl_sc_tsc tx = from_bytes-to_bytes 2 (ttl_sc_tsc tx) hx in
    let mask : bit_and (ttl_sc_tsc tx) 0x01ff ≡ ttl_sc_tsc tx % 512 =
      bit_and_mask 9 (ttl_sc_tsc tx) in
    let last : 1 + (tx.ttl + 511) % 512 ≡ tx.ttl = omega arith in
    rw (whole, found, word, mask, ttl_bits tx) last

-- For every transaction that `serialize` can write, with a time to live from 1 to 512,
-- `get_ttl_from_signed_txn` reads that time off the bytes.
pub get_ttl_from_signed_txn-serialize_transaction :
    (log2 : Log2) (tx : UnsignedTransaction) (bs : Bytes)
    → serialize_transaction log2 tx ≡ ok bs
    → 1 ≤ tx.ttl
    → tx.ttl ≤ 512
    → get_ttl_from_signed_txn bs ≡ tx.ttl
unfolding serialize_transaction
get_ttl_from_signed_txn-serialize_transaction log2 tx bs h low high =
    let (a, ha, h₁) = >>=-eq-ok (to_bytes 1 tx.version) _ h in
    let (b, hb, h₂) = >>=-eq-ok (to_bytes 1 tx.packflag) _ h₁ in
    let (c, hc, h₃) = >>=-eq-ok (to_bytes 6 tx.timestamp) _ h₂ in
    let (d, hd, h₄) = >>=-eq-ok (to_bytes 4 tx.isn) _ h₃ in
    let (x, hx, h₅) = >>=-eq-ok (to_bytes 2 (ttl_sc_tsc tx)) _ h₄ in
    let (m, hm, h₆) = >>=-eq-ok (to_bytes 2 tx.mode) _ h₅ in
    let (o, ho, h₇) = >>=-eq-ok (to_bytes 1 tx.opcode) _ h₆ in
    let (k, hk, h₈) = >>=-eq-ok (to_bytes 1 tx.core_contract) _ h₇ in
    let (tail, ht, e) = >>=-eq-ok (serialize_tail log2 tx) _ h₈ in
    ttl_of a b c d x (m ++ (o ++ (k ++ tail))) bs tx (length-to_bytes 1 tx.version ha)
      (length-to_bytes 1 tx.packflag hb) (length-to_bytes 6 tx.timestamp hc)
      (length-to_bytes 4 tx.isn hd) hx (sym (ap or_nil e)) low high

-- A chain of numbers of which one does not fit.
overflows_later :
    {A : Type 0} (w n : ℕ) (next : Bytes → Result A)
    → ((b : Bytes) → next b ≡ err overflow_error)
    → (to_bytes w n >>= next) ≡ err overflow_error
unfolding to_bytes
overflows_later w n next h = elim (Bool-cases (ltb n (256 ^ w))) [
  | inl e ↦ rw e (h _)
  | inr e ↦ rw e
]

overflows_here :
    {A : Type 0} (w n : ℕ) (next : Bytes → Result A)
    → 256 ^ w ≤ n
    → (to_bytes w n >>= next) ≡ err overflow_error
unfolding to_bytes
overflows_here w n next h = rw (le→ltb_false n (256 ^ w) h)

core_overflows :
    (log2 : Log2) (tx : UnsignedTransaction)
    → 256 ≤ tx.core_contract
    → serialize_transaction log2 tx ≡ err overflow_error
unfolding serialize_transaction
core_overflows log2 tx h = overflows_later 1 tx.version _ (λ _.
    overflows_later 1 tx.packflag _ (λ _. overflows_later 6 tx.timestamp _ (λ _.
      overflows_later 4 tx.isn _ (λ _. overflows_later 2 (ttl_sc_tsc tx) _ (λ _.
        overflows_later 2 tx.mode _
          (λ _. overflows_later 1 tx.opcode _ (λ _. overflows_here 1 tx.core_contract _ h)))))))

-- A transaction for a contract that is not of the core dapp, and whose identifier has scope bits
-- that are not zero, is never serialized: OverflowError is raised, whatever the rest is, because the
-- one byte of the core contract holds 63 and the scope, shifted 14 bits to the left.
pub serialize_transaction-scoped :
    (log2 : Log2) (cid : ContractInvokeId) (opcode version timestamp : ℕ) (delegatee : Option Bytes)
    → is_core_dapp cid.id ≡ false
    → cid.id.value / 2 ^ 8 % 2 ^ 12 ≢ 0
    → (unsigned_transaction cid opcode version timestamp delegatee >>= serialize_transaction log2)
      ≡ err overflow_error
unfolding unsigned_transaction target
serialize_transaction-scoped log2 cid opcode version timestamp delegatee other scoped =
    let scope : ℕ = cid.id.value / 2 ^ 8 % 2 ^ 12 in
    let big : 256 ≤ core_contract_rvm + get_scope cid.id * 2 ^ 6 =
      rw (get_scope_lem cid.id) (omega (arith, scoped)) in
    rw other (core_overflows log2 _ big)
