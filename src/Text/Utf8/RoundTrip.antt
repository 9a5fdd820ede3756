-- ===== src/Text/Utf8/RoundTrip.antt =====
-- Decoding what was encoded gives the text.
use dioxide_python.Prelude.{
  ℕ, zero, suc, ◌+◌, ◌-◌, ◌*◌, ◌/◌, ◌%◌, ◌≤◌, ◌<◌, ◌≡◌, refl, [], ◌∷◌, ◌++◌, arith,
}
use dioxide_python.Prelude.{length, length-append, Bool-cases, inl, inr, ltb, false}
use dioxide_python.Prelude.Result.{ok, >>=-eq-ok}
use dioxide_python.Bytes.{Bytes}
use dioxide_python.Text.{Text}
use dioxide_python.Text.Utf8.{
  encode_char, encode, continuation, decode_char, decode_fuel, decode, is_surrogate,
}

continuation_lem : (x : ℕ) (r : Bytes) → x < 64 → continuation ((0x80 + x) ∷ r) ≡ ok (x, r)
unfolding continuation
continuation_lem x r h = ground arith

-- One character is read back, by the length of its form.
module _ (c : ℕ) (r : Bytes) where
  decode_two : 0x80 ≤ c → c < 0x800 → decode_char (0xc0 + c / 64) ((0x80 + c % 64) ∷ r) ≡ ok (c, r)
  unfolding decode_char
  decode_two lo hi = ground (arith, continuation_lem (c % 64) r (omega arith))

  decode_three :
      0x800 ≤ c
      → is_surrogate c ≡ false
      → c < 0x10000
      → decode_char (0xe0 + c / 4096) ((0x80 + c / 64 % 64) ∷ (0x80 + c % 64) ∷ r) ≡ ok (c, r)
  unfolding decode_char
  decode_three lo sur hi =
      let whole : (0xe0 + c / 4096 - 0xe0) * 4096 + c / 64 % 64 * 64 + c % 64 ≡ c = omega arith in
      rw
        (
          continuation_lem (c / 64 % 64) ((0x80 + c % 64) ∷ r) (omega arith),
          continuation_lem (c % 64) r (omega arith),
          whole,
          sur,
        )
        (ground arith)

  decode_four :
      0x10000 ≤ c
      → c < 0x110000
      → decode_char
          (0xf0 + c / 262144)
          ((0x80 + c / 4096 % 64) ∷ (0x80 + c / 64 % 64) ∷ (0x80 + c % 64) ∷ r)
        ≡ ok (c, r)
  unfolding decode_char
  decode_four lo hi =
      let low = (0x80 + c / 64 % 64) ∷ (0x80 + c % 64) ∷ r in
      let whole : (0xf0 + c / 262144 - 0xf0) * 262144
            + c / 4096 % 64 * 4096
            + c / 64 % 64 * 64
            + c % 64
          ≡ c =
        omega arith in
      rw
        (
          continuation_lem (c / 4096 % 64) low (omega arith),
          continuation_lem (c / 64 % 64) ((0x80 + c % 64) ∷ r) (omega arith),
          continuation_lem (c % 64) r (omega arith),
          whole,
        )
        (ground arith)

-- A form that `decode_char` reads back as `c`.
record IsForm (c : ℕ) (bs : Bytes) : Type 0 where
  lead : ℕ
  others : Bytes
  shape : bs ≡ lead ∷ others
  reads : (r : Bytes) → decode_char lead (others ++ r) ≡ ok (c, r)

encode_char-IsForm : (c : ℕ) {bs : Bytes} → encode_char c ≡ ok bs → IsForm c bs
unfolding encode_char
encode_char-IsForm c {bs} h = elim (Bool-cases (ltb c 0x80)) [
  | inl one ↦ record {
    lead = c;
    others = [];
    shape = ground arith;
    reads = λ r. unfold decode_char in rw one;
  }
  | inr n1 ↦ elim (Bool-cases (ltb c 0x800)) [
    | inl two ↦ record {
      lead = 0xc0 + c / 64;
      others = (0x80 + c % 64) ∷ [];
      shape = ground arith;
      reads = λ r. decode_two c r (ground arith) (ground arith);
    }
    | inr n2 ↦ elim (Bool-cases (is_surrogate c)) [
      | inl bad ↦ absurd (ground arith)
      | inr fine ↦ elim (Bool-cases (ltb c 0x10000)) [
        | inl three ↦ record {
          lead = 0xe0 + c / 4096;
          others = (0x80 + c / 64 % 64) ∷ (0x80 + c % 64) ∷ [];
          shape = ground arith;
          reads = λ r. decode_three c r (ground arith) fine (ground arith);
        }
        | inr n3 ↦ elim (Bool-cases (ltb c 0x110000)) [
          | inl four ↦ record {
            lead = 0xf0 + c / 262144;
            others = (0x80 + c / 4096 % 64) ∷ (0x80 + c / 64 % 64) ∷ (0x80 + c % 64) ∷ [];
            shape = ground arith;
            reads = λ r. decode_four c r (ground arith) (ground arith);
          }
          | inr big ↦ absurd (ground arith)
        ]
      ]
    ]
  ]
]

decode_fuel-form :
    (c : ℕ) (s : Text) (fuel : ℕ) (b t : Bytes)
    → IsForm c b
    → ((f : ℕ) → length t ≤ f → decode_fuel f t ≡ ok s)
    → length (b ++ t) ≤ fuel
    → decode_fuel fuel (b ++ t) ≡ ok (c ∷ s)
unfolding decode_fuel
decode_fuel-form c s fuel b t f ih hf = rw f.shape (go fuel (rw f.shape at hf))
  where
    go :
        (k : ℕ)
        → suc (length (f.others ++ t)) ≤ k
        → decode_fuel k (f.lead ∷ (f.others ++ t)) ≡ ok (c ∷ s)
    go zero h = absurd (omega arith)
    go (suc k) h =
        let fits : length t ≤ k = omega (arith, length-append f.others t) in
        rw (f.reads t, ih k fits)

encode-cons :
    (c : ℕ) (s : Text) {bs : Bytes}
    → encode (c ∷ s) ≡ ok bs
    → (b : Bytes) × (t : Bytes) × (encode_char c ≡ ok b) × (encode s ≡ ok t) × (b ++ t ≡ bs)
unfolding encode
encode-cons c s h =
    let (b, hb, k) = >>=-eq-ok (encode_char c) _ h in
    let (t, ht, e) = >>=-eq-ok (encode s) _ k in (b, t, hb, ht, cc)

decode_fuel-encode :
    (s : Text) (fuel : ℕ) {bs : Bytes}
    → encode s ≡ ok bs
    → length bs ≤ fuel
    → decode_fuel fuel bs ≡ ok s
decode_fuel-encode [] fuel {bs} h hf =
    let e : bs ≡ [] = unfold encode in cc in rw e (unfold decode_fuel in refl)
decode_fuel-encode (c ∷ s) fuel {bs} h hf =
    let (b, t, hb, ht, e) = encode-cons c s h in
    rw (← e) (
      decode_fuel-form c s fuel b t (encode_char-IsForm c hb) (λ f. decode_fuel-encode s f ht)
        (rw (← e) at hf))

-- Decoding the UTF-8 form of a text gives the text.
pub decode-encode : (s : Text) {bs : Bytes} → encode s ≡ ok bs → decode bs ≡ ok s
unfolding decode
decode-encode s {bs} h = decode_fuel-encode s (length bs) h (omega arith)
