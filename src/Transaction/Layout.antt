-- ===== src/Transaction/Layout.antt =====
-- A reader of the bytes of a transaction, field by field, and what it reads.
use dioxide_python.Prelude.{
  ℕ, ◌≡◌, refl, sym, ◌∙◌, ap, Option, none, some, List, [], ◌∷◌, ◌++◌, length, take, drop,
  take-length_append, drop-length_append,
}
use dioxide_python.Prelude.Result.{Result, ok, >>=-eq-ok}
use dioxide_python.Bytes.{Bytes, to_bytes, from_bytes}
use dioxide_python.Bytes.Laws.{length-to_bytes, from_bytes-to_bytes}
use dioxide_python.Contract.{ContractInvokeId}
use dioxide_python.Transaction.{
  Log2, UnsignedTransaction, ttl_sc_tsc, gas_price_parts, contract_bytes, delegatee_bytes,
  serialize_tail, serialize_transaction,
}

-- Little-endian fields of the given widths, and the bytes behind them.
unfoldable pub read_fields : List ℕ → Bytes → List ℕ × Bytes
unfolding from_bytes
read_fields [] bs = ([], bs)
read_fields (w ∷ ws) bs =
    let (ns, rest) = read_fields ws (drop w bs) in (from_bytes (take w bs) ∷ ns, rest)

ok_injective : {x y : Bytes} → Result.ok x ≡ ok y → x ≡ y
ok_injective h = cc

-- A field in front of others.
read_fields-append :
    (w n : ℕ) (x : Bytes) (ws ns : List ℕ) (rest after : Bytes)
    → to_bytes w n ≡ ok x
    → read_fields ws rest ≡ (ns, after)
    → read_fields (w ∷ ws) (x ++ rest) ≡ (n ∷ ns, after)
unfolding read_fields
read_fields-append w n x ws ns rest after h others =
    let size : length x ≡ w = length-to_bytes w n h in
    let first : take w (x ++ rest) ≡ x = rw (← size) (take-length_append x rest) in
    let left : drop w (x ++ rest) ≡ rest = rw (← size) (drop-length_append x rest) in
    rw (first, left, others, from_bytes-to_bytes w n h) refl

read_fields-nil : (rest : Bytes) → read_fields [] rest ≡ ([], rest)
unfolding read_fields
read_fields-nil rest = refl

-- The contract is a byte with the build, or eight with the identifier outside the core dapp.
abbrev pub contract_width : UnsignedTransaction → ℕ
contract_width tx = elim tx.rvm_contract [ none ↦ 1 | some _ ↦ 8 ]

abbrev pub contract_value : UnsignedTransaction → ℕ
contract_value tx = elim tx.rvm_contract [ none ↦ tx.build | some cid ↦ cid.id.value ]

contract_bytes_lem :
    (log2 : Log2) (tx : UnsignedTransaction)
    → contract_bytes log2 tx ≡ to_bytes (contract_width tx) (contract_value tx)
unfolding contract_bytes
contract_bytes_lem log2 tx = of tx.rvm_contract
  where
    of :
        (rvm : Option ContractInvokeId)
        → (elim rvm [ none ↦ to_bytes 1 tx.build | some cid ↦ to_bytes 8 cid.id.value ])
          ≡ to_bytes
              (elim rvm [ none ↦ 1 | some _ ↦ 8 ])
              (elim rvm [ none ↦ tx.build | some cid ↦ cid.id.value ])
    of none = refl
    of (some cid) = refl

abbrev pub head_widths : List ℕ
head_widths = 1 ∷ 1 ∷ 6 ∷ 4 ∷ 2 ∷ 2 ∷ 1 ∷ 1 ∷ []

abbrev pub tail_widths : UnsignedTransaction → List ℕ
tail_widths tx = 4 ∷ 2 ∷ 4 ∷ contract_width tx ∷ []

abbrev pub head_fields : UnsignedTransaction → List ℕ
head_fields tx =
    tx.version
    ∷ tx.packflag
    ∷ tx.timestamp
    ∷ tx.isn
    ∷ ttl_sc_tsc tx
    ∷ tx.mode
    ∷ tx.opcode
    ∷ tx.core_contract
    ∷ []

abbrev pub tail_fields : Log2 → UnsignedTransaction → List ℕ
tail_fields log2 tx =
    (gas_price_parts log2 tx.gas_price).0
    ∷ (gas_price_parts log2 tx.gas_price).1
    ∷ tx.gas_limit
    ∷ contract_value tx
    ∷ []

serialize_tail_lem :
    (log2 : Log2) (tx : UnsignedTransaction) (bs : Bytes)
    → serialize_tail log2 tx ≡ ok bs
    → (size : Bytes) × (to_bytes 2 tx.input_size ≡ ok size)
      × (read_fields (tail_widths tx) bs
          ≡ (tail_fields log2 tx, delegatee_bytes log2 tx.delegatee ++ (size ++ tx.input)))
unfolding serialize_tail
serialize_tail_lem log2 tx bs h =
    let (m, hm, h₁) = >>=-eq-ok (to_bytes 4 (gas_price_parts log2 tx.gas_price).0) _ h in
    let (e, he, h₂) = >>=-eq-ok (to_bytes 2 (gas_price_parts log2 tx.gas_price).1) _ h₁ in
    let (g, hg, h₃) = >>=-eq-ok (to_bytes 4 tx.gas_limit) _ h₂ in
    let (c, hc, h₄) = >>=-eq-ok (contract_bytes log2 tx) _ h₃ in
    let (s, hs, h₅) = >>=-eq-ok (to_bytes 2 tx.input_size) _ h₄ in
    let rest : Bytes = delegatee_bytes log2 tx.delegatee ++ (s ++ tx.input) in
    let whole : m ++ (e ++ (g ++ (c ++ rest))) ≡ bs = ok_injective h₅ in
    (
      s,
      hs,
      ap (λ b. read_fields (tail_widths tx) b) (sym whole)
          ∙ (read_fields-append 4 _ m _ _ _ _ hm (
              read_fields-append 2 _ e _ _ _ _ he (
                read_fields-append 4 _ g _ _ _ _ hg (
                  read_fields-append (contract_width tx) (contract_value tx) c _ _ _ _
                    (sym (contract_bytes_lem log2 tx) ∙ hc) (read_fields-nil rest))))),
    )

-- What the eight fields of the head, and then the four of the tail, read as.
pub serialize_transaction-read_fields :
    (log2 : Log2) (tx : UnsignedTransaction) (bs : Bytes)
    → serialize_transaction log2 tx ≡ ok bs
    → (rest : Bytes) × (size : Bytes) × (read_fields head_widths bs ≡ (head_fields tx, rest))
      × (read_fields (tail_widths tx) rest
          ≡ (tail_fields log2 tx, delegatee_bytes log2 tx.delegatee ++ (size ++ tx.input)))
      × (to_bytes 2 tx.input_size ≡ ok size)
unfolding serialize_transaction
serialize_transaction-read_fields log2 tx bs h =
    let (a, ha, h₁) = >>=-eq-ok (to_bytes 1 tx.version) _ h in
    let (b, hb, h₂) = >>=-eq-ok (to_bytes 1 tx.packflag) _ h₁ in
    let (c, hc, h₃) = >>=-eq-ok (to_bytes 6 tx.timestamp) _ h₂ in
    let (d, hd, h₄) = >>=-eq-ok (to_bytes 4 tx.isn) _ h₃ in
    let (x, hx, h₅) = >>=-eq-ok (to_bytes 2 (ttl_sc_tsc tx)) _ h₄ in
    let (m, hm, h₆) = >>=-eq-ok (to_bytes 2 tx.mode) _ h₅ in
    let (o, ho, h₇) = >>=-eq-ok (to_bytes 1 tx.opcode) _ h₆ in
    let (k, hk, h₈) = >>=-eq-ok (to_bytes 1 tx.core_contract) _ h₇ in
    let (tail, ht, h₉) = >>=-eq-ok (serialize_tail log2 tx) _ h₈ in
    let (size, hs, read) = serialize_tail_lem log2 tx tail ht in
    let whole : a ++ (b ++ (c ++ (d ++ (x ++ (m ++ (o ++ (k ++ tail))))))) ≡ bs = ok_injective h₉ in
    (
      tail,
      size,
      ap (λ b. read_fields head_widths b) (sym whole)
          ∙ (read_fields-append 1 _ a _ _ _ _ ha (
              read_fields-append 1 _ b _ _ _ _ hb (
                read_fields-append 6 _ c _ _ _ _ hc (
                  read_fields-append 4 _ d _ _ _ _ hd (
                    read_fields-append 2 _ x _ _ _ _ hx (
                      read_fields-append 2 _ m _ _ _ _ hm (
                        read_fields-append 1 _ o _ _ _ _ ho
                          (read_fields-append 1 _ k _ _ _ _ hk (read_fields-nil tail))))))))),
      read,
      hs,
    )
