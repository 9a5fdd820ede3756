-- ===== src/Contract/Laws.antt =====
-- Identifiers made of parts are taken apart into the same parts, and the other way round.
use dioxide_python.Prelude.{
  ℕ, ◌+◌, ◌*◌, ◌/◌, ◌%◌, ◌^◌, ◌<◌, ◌≡◌, ◌∙◌, ap, bit_and, bit_or, none, some, arith,
}
use dioxide_python.Prelude.Bits.{bit_and_mask}
use dioxide_python.Prelude.Result.{ok, ◌>>=◌}
use dioxide_python.Contract.{ContractId, packed, read_id}
use dioxide_python.Contract.{
  contract_id, contract_version_id, contract_scope_id, contract_invoke_id,
}
use dioxide_python.Contract.Layout.{or_below, high, packed_lem}

-- The attributes of an int whose parts are known.
abbrev pub id_of : ℕ → ℕ → ℕ → ℕ → ContractId
id_of d e s low = record {
  value = high d e s + low;
  sn = s % 2 ^ 12;
  engine_id = e % 2 ^ 4;
  dapp_id = d % 2 ^ 28;
}

sn_of :
    (x y z low : ℕ)
    → z < 2 ^ 12
    → y < 2 ^ 4
    → low < 2 ^ 20
    → (x * 2 ^ 36 + y * 2 ^ 32 + z * 2 ^ 20 + low) / 2 ^ 20 % 2 ^ 12 ≡ z
sn_of x y z low hz hy h = omega arith

engine_of :
    (x y z low : ℕ)
    → z < 2 ^ 12
    → y < 2 ^ 4
    → low < 2 ^ 20
    → (x * 2 ^ 36 + y * 2 ^ 32 + z * 2 ^ 20 + low) / 2 ^ 32 % 2 ^ 4 ≡ y
engine_of x y z low hz hy h = omega arith

dapp_of :
    (x y z low : ℕ)
    → x < 2 ^ 28
    → z < 2 ^ 12
    → y < 2 ^ 4
    → low < 2 ^ 20
    → (x * 2 ^ 36 + y * 2 ^ 32 + z * 2 ^ 20 + low) / 2 ^ 36 % 2 ^ 28 ≡ x
dapp_of x y z low hx hz hy h = omega arith

read_id-high : (d e s low : ℕ) → low < 2 ^ 20 → read_id (high d e s + low) ≡ id_of d e s low
unfolding read_id
read_id-high d e s low h =
    let x : ℕ = d % 2 ^ 28 in
    let y : ℕ = e % 2 ^ 4 in
    let z : ℕ = s % 2 ^ 12 in
    let v : ℕ = high d e s + low in
    let hs : bit_and (v / 2 ^ 20) 0xFFF ≡ z =
      bit_and_mask 12 (v / 2 ^ 20) ∙ sn_of x y z low (omega arith) (omega arith) h in
    let he : bit_and (v / 2 ^ 32) 0xF ≡ y =
      bit_and_mask 4 (v / 2 ^ 32) ∙ engine_of x y z low (omega arith) (omega arith) h in
    let hd : bit_and (v / 2 ^ 36) 0xFFFFFFF ≡ x =
      bit_and_mask 28 (v / 2 ^ 36)
      ∙ dapp_of x y z low (omega arith) (omega arith) (omega arith) h in
    λ i. record { value = v; sn = hs i; engine_id = he i; dapp_id = hd i }

-- The low 20 bits.
abbrev pub low_bits : ℕ → ℕ → ℕ
low_bits c b = (c % 2 ^ 12) * 2 ^ 8 + b % 2 ^ 8

with_scope :
    (d e s c : ℕ)
    → bit_or (packed d e s) (bit_and c 0xFFF * 2 ^ 8) ≡ high d e s + (c % 2 ^ 12) * 2 ^ 8
with_scope d e s c =
    let mc : bit_and c 0xFFF ≡ c % 2 ^ 12 = bit_and_mask 12 c in
    rw (packed_lem d e s, mc)
      (or_below 20 (high d e s) ((d % 2 ^ 28) * 2 ^ 16 + (e % 2 ^ 4) * 2 ^ 12 + s % 2 ^ 12)
        ((c % 2 ^ 12) * 2 ^ 8) (omega arith) (omega arith))

with_build : (d e s b : ℕ) → bit_or (packed d e s) (bit_and b 0xFF) ≡ high d e s + b % 2 ^ 8
with_build d e s b =
    let mb : bit_and b 0xFF ≡ b % 2 ^ 8 = bit_and_mask 8 b in
    rw (packed_lem d e s, mb)
      (or_below 20 (high d e s) ((d % 2 ^ 28) * 2 ^ 16 + (e % 2 ^ 4) * 2 ^ 12 + s % 2 ^ 12)
        (b % 2 ^ 8) (omega arith) (omega arith))

with_both :
    (d e s c b : ℕ)
    → bit_or (bit_or (packed d e s) (bit_and c 0xFFF * 2 ^ 8)) (bit_and b 0xFF)
      ≡ high d e s + low_bits c b
with_both d e s c b =
    let mb : bit_and b 0xFF ≡ b % 2 ^ 8 = bit_and_mask 8 b in
    let h : ℕ = high d e s in
    rw (with_scope d e s c, mb)
      (or_below 8 (h + (c % 2 ^ 12) * 2 ^ 8)
          ((d % 2 ^ 28) * 2 ^ 28 + (e % 2 ^ 4) * 2 ^ 24 + (s % 2 ^ 12) * 2 ^ 12 + c % 2 ^ 12)
          (b % 2 ^ 8) (omega arith) (omega arith)
        ∙ assoc h ((c % 2 ^ 12) * 2 ^ 8) (b % 2 ^ 8))
  where
    assoc : (x y z : ℕ) → x + y + z ≡ x + (y + z)
    assoc x y z = omega arith

scope_of : (h k c b : ℕ) → h ≡ k * 2 ^ 20 → bit_and ((h + low_bits c b) / 2 ^ 8) 0xFFF ≡ c % 2 ^ 12
scope_of h k c b e = bit_and_mask 12 ((h + low_bits c b) / 2 ^ 8) ∙ omega arith

build_of : (h k c b : ℕ) → h ≡ k * 2 ^ 20 → bit_and (h + low_bits c b) 0xFF ≡ b % 2 ^ 8
build_of h k c b e = bit_and_mask 8 (h + low_bits c b) ∙ omega arith

scope_alone :
    (h k c : ℕ) → h ≡ k * 2 ^ 20 → bit_and ((h + (c % 2 ^ 12) * 2 ^ 8) / 2 ^ 8) 0xFFF ≡ c % 2 ^ 12
scope_alone h k c e = bit_and_mask 12 ((h + (c % 2 ^ 12) * 2 ^ 8) / 2 ^ 8) ∙ omega arith

build_alone : (h k b : ℕ) → h ≡ k * 2 ^ 20 → bit_and (h + b % 2 ^ 8) 0xFF ≡ b % 2 ^ 8
build_alone h k b e = bit_and_mask 8 (h + b % 2 ^ 8) ∙ omega arith

-- `ContractInvokeID` of any five parts, given as an int to `ContractInvokeID` again: the int is the
-- sum of the parts at their places, and each attribute that is read back is the part, cut to its
-- number of bits.
pub contract_invoke_id-parts :
    (v s e d c b : ℕ)
    → (contract_invoke_id v (some s) (some e) (some d) (some c) (some b) >>= λ i.
        contract_invoke_id i.id.value none none none none none)
      ≡ ok (record { id = id_of d e s (low_bits c b); scope = c % 2 ^ 12; build = b % 2 ^ 8 })
unfolding contract_invoke_id
contract_invoke_id-parts v s e d c b =
    let h : ℕ = high d e s in
    let k : ℕ = (d % 2 ^ 28) * 2 ^ 16 + (e % 2 ^ 4) * 2 ^ 12 + s % 2 ^ 12 in
    rw (
      with_both d e s c b,
      read_id-high d e s (low_bits c b) (omega arith),
      scope_of h k c b (omega arith),
      build_of h k c b (omega arith),
    )

-- `ContractID`, `ContractVersionID` and `ContractScopeID` of any parts, given as ints to the same
-- class again: each attribute that is read back is the part, cut to its number of bits.
pub contract_ids-parts :
    (v s e d c b : ℕ)
    → ((contract_id v (some s) (some e) (some d) >>= λ i. contract_id i.value none none none)
        ≡ ok (id_of d e s 0))
      × ((contract_version_id v (some s) (some e) (some d) (some b) >>= λ i.
            contract_version_id i.id.value none none none none)
          ≡ ok (record { id = id_of d e s (b % 2 ^ 8); build = b % 2 ^ 8 }))
      × ((contract_scope_id v (some s) (some e) (some d) (some c) >>= λ i.
            contract_scope_id i.id.value none none none none)
          ≡ ok (record { id = id_of d e s ((c % 2 ^ 12) * 2 ^ 8); scope = c % 2 ^ 12 }))
unfolding contract_id contract_version_id contract_scope_id
contract_ids-parts v s e d c b =
    let h : ℕ = high d e s in
    let k : ℕ = (d % 2 ^ 28) * 2 ^ 16 + (e % 2 ^ 4) * 2 ^ 12 + s % 2 ^ 12 in
    let whole : packed d e s ≡ h + 0 = packed_lem d e s ∙ plus_zero h in
    (
      rw whole (ap ok (read_id-high d e s 0 (omega arith))),
      rw (
        with_build d e s b,
        read_id-high d e s (b % 2 ^ 8) (omega arith),
        build_alone h k b (omega arith),
      ),
      rw (
        with_scope d e s c,
        read_id-high d e s ((c % 2 ^ 12) * 2 ^ 8) (omega arith),
        scope_alone h k c (omega arith),
      ),
    )
  where
    plus_zero : (n : ℕ) → n ≡ n + 0
    plus_zero n = omega arith

all_parts :
    (value d e s c b : ℕ)
    → value < 2 ^ 64
    → d ≡ value / 2 ^ 36 % 2 ^ 28
    → e ≡ value / 2 ^ 32 % 2 ^ 4
    → s ≡ value / 2 ^ 20 % 2 ^ 12
    → c ≡ value / 2 ^ 8 % 2 ^ 12
    → b ≡ value % 2 ^ 8
    → high d e s + low_bits c b ≡ value
all_parts value d e s c b h hd he hs hc hb = omega arith

-- An int below 2 ** 64, taken apart by `ContractInvokeID`, is what `ContractInvokeID` makes of the
-- parts.
pub contract_invoke_id-value :
    (value : ℕ)
    → value < 2 ^ 64
    → (contract_invoke_id value none none none none none >>= λ i.
        contract_invoke_id 0
          (some i.id.sn)
          (some i.id.engine_id)
          (some i.id.dapp_id)
          (some i.scope)
          (some i.build))
      ≡ contract_invoke_id value none none none none none
unfolding contract_invoke_id read_id
contract_invoke_id-value value h =
    let s : ℕ = bit_and (value / 2 ^ 20) 0xFFF in
    let e : ℕ = bit_and (value / 2 ^ 32) 0xF in
    let d : ℕ = bit_and (value / 2 ^ 36) 0xFFFFFFF in
    let c : ℕ = bit_and (value / 2 ^ 8) 0xFFF in
    let b : ℕ = bit_and value 0xFF in
    let again : bit_or (bit_or (packed d e s) (bit_and c 0xFFF * 2 ^ 8)) (bit_and b 0xFF) ≡ value =
      with_both d e s c b
      ∙ all_parts value d e s c b h (bit_and_mask 28 (value / 2 ^ 36))
          (bit_and_mask 4 (value / 2 ^ 32)) (bit_and_mask 12 (value / 2 ^ 20))
          (bit_and_mask 12 (value / 2 ^ 8)) (bit_and_mask 8 value) in
    λ i. ok (record {
      id = record { value = again i; sn = s; engine_id = e; dapp_id = d };
      scope = c;
      build = b;
    })
