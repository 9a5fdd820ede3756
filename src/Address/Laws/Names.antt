-- ===== src/Address/Laws/Names.antt =====
-- The names of dapps, tokens and users, and the addresses made of them.
use dioxide_python.Prelude.{
  ℕ, zero, suc, ◌-◌, ◌≤◌, ◌<◌, ◌≡◌, refl, ◌⊎◌, inl, inr, Bool, true, false, ◌==◌, ltb, [], ◌∷◌,
  ◌++◌, some, length, replicate, length-append, length-replicate, append_assoc, arith, Bool-cases,
}
use dioxide_python.Prelude.Result.{ok}
use dioxide_python.Bytes.{Bytes}
use dioxide_python.Text.{Text}
use dioxide_python.Text.Utf8.{encode, encode_char, decode}
use dioxide_python.Text.Utf8.RoundTrip.{decode-encode}
use dioxide_python.Text.Split.Laws.{no_char}
use dioxide_python.Text.Split.{split}
use dioxide_python.Text.Case.{Unicode, all_chars}
use dioxide_python.Address.{
  DioxAddressType, default, hash, name, dapp, token, contract, type_value, type_name, Codecs,
  DioxAddress, dapp_char, token_char, name_char, within, is_delegatee_name_valid, ljust,
  set_delegatee_from_string, name_bytes, show_address, address,
}
use dioxide_python.Address.Laws.Checksum.{checksum_lem}

abbrev pub is_ascii : ℕ → Bool
is_ascii c = ltb c 128

-- A character that a set does not contain occurs in no text of the set.
all_chars-no_char :
    (p : ℕ → Bool) (c : ℕ) (s : Text) → p c ≡ false → all_chars p s ≡ true → no_char c s ≡ true
all_chars-no_char p c [] out h = refl
all_chars-no_char p c (a ∷ s) out h = elim (Bool-cases (a == c)) [
  | inl e ↦ let same : a ≡ c = ground arith in let h' = rw same at h in ground (arith, out, h')
  | inr e ↦
      let rest : all_chars p s ≡ true = ground (arith, h) in
      rw (e, all_chars-no_char p c s out rest) refl
]

within_lem :
    (unicode : Unicode) (least most : ℕ) (p : ℕ → Bool) (s : Text)
    → within unicode least most p s ≡ true
    → (least ≤ length s) × (length s ≤ most) × (all_chars p s ≡ true)
unfolding within
within_lem unicode least most p s h = ground arith

-- What a valid name is like: its type, its length and two characters it does not have.
abbrev pub IsName : DioxAddressType → Text → Type 0
IsName t s =
    (((t ≡ dapp) × (4 ≤ length s) × (length s ≤ 8))
      ⊎ ((t ≡ token) × (3 ≤ length s) × (length s ≤ 8))
      ⊎ ((t ≡ name) × (length s ≡ 3)))
    × (no_char b'-' s ≡ true)
    × (no_char 0 s ≡ true)

-- A valid name is that of a dapp, with 4 to 8 characters, of a token, with 3 to 8, or of a user,
-- with exactly 3; none of them has a hyphen or a null character.
pub is_delegatee_name_valid-IsName :
    (unicode : Unicode) (t : DioxAddressType) (s : Text)
    → is_delegatee_name_valid unicode t s ≡ true
    → IsName t s
unfolding is_delegatee_name_valid dapp_char token_char name_char split
is_delegatee_name_valid-IsName unicode dapp s h =
    let (low, high, all) = within_lem unicode 4 8 (dapp_char unicode) s h in
    (
      inl (refl, low, high),
      all_chars-no_char (dapp_char unicode) b'-' s refl all,
      all_chars-no_char (dapp_char unicode) 0 s refl all,
    )
is_delegatee_name_valid-IsName unicode token s h =
    let (low, high, all) = within_lem unicode 3 8 (token_char unicode) s h in
    (
      inr (inl (refl, low, high)),
      all_chars-no_char (token_char unicode) b'-' s refl all,
      all_chars-no_char (token_char unicode) 0 s refl all,
    )
is_delegatee_name_valid-IsName unicode name s h =
    let (low, high, all) = within_lem unicode 3 3 (name_char unicode) s h in
    (
      inr (inr (refl, omega (arith, low, high))),
      all_chars-no_char (name_char unicode) b'-' s refl all,
      all_chars-no_char (name_char unicode) 0 s refl all,
    )
is_delegatee_name_valid-IsName unicode default s h = cc
is_delegatee_name_valid-IsName unicode hash s h = cc
is_delegatee_name_valid-IsName unicode contract s h = cc

encode-ascii : (s : Text) → all_chars is_ascii s ≡ true → encode s ≡ ok s
unfolding encode encode_char
encode-ascii [] h = refl
encode-ascii (c ∷ s) h =
    let small : ltb c 128 ≡ true = ground arith in
    let rest : all_chars is_ascii s ≡ true = ground (arith, h) in
    rw (small, encode-ascii s rest) refl

all_chars-append :
    (p : ℕ → Bool) (s t : Text)
    → all_chars p s ≡ true
    → all_chars p t ≡ true
    → all_chars p (s ++ t) ≡ true
all_chars-append p [] t hs ht = ht
all_chars-append p (c ∷ s) t hs ht =
    let rest = all_chars-append p s t (ground (arith, hs)) ht in ground arith

zeros-ascii : (n : ℕ) → all_chars is_ascii (replicate n 0) ≡ true
zeros-ascii zero = refl
zeros-ascii (suc n) = zeros-ascii n

-- The loop stops at the first zero.
name_bytes-zero :
    (codecs : Codecs) (count : ℕ) (s rest : Bytes)
    → length s < count
    → no_char 0 s ≡ true
    → name_bytes codecs count (s ++ (0 ∷ rest)) ≡ ok s
unfolding name_bytes
name_bytes-zero codecs zero s rest h z = absurd (omega (arith, h))
name_bytes-zero codecs (suc count) [] rest h z = refl
name_bytes-zero codecs (suc count) (b ∷ s) rest h z =
    let nonzero : (b == 0) ≡ false = ground (arith, z) in
    let z' : no_char 0 s ≡ true = ground (arith, z) in
    rw (nonzero, name_bytes-zero codecs count s rest (omega (arith, h)) z') refl

shown :
    (codecs : Codecs) (t : DioxAddressType) (s : Text) (bs : Bytes)
    → IsName t s
    → name_bytes codecs 32 bs ≡ ok s
    → decode s ≡ ok s
    → show_address codecs t bs ≡ ok (s ++ ((b':' ∷ []) ++ type_name t))
unfolding show_address
shown codecs t s bs (inl (e, _, _), _, _) n d = rw (e, n, d) refl
shown codecs t s bs (inr (inl (e, _, _)), _, _) n d = rw (e, n, d) refl
shown codecs t s bs (inr (inr (e, _)), _, _) n d = rw (e, n, d) refl

length-IsName : (t : DioxAddressType) (s : Text) → IsName t s → (length s ≤ 8) × (type_value t < 16)
length-IsName t s (inl (e, _, h), _, _) = (h, rw e (omega arith))
length-IsName t s (inr (inl (e, _, h)), _, _) = (h, rw e (omega arith))
length-IsName t s (inr (inr (e, h)), _, _) = (omega (arith, h), rw e (omega arith))

-- A short text, filled up with zeros, with what stands behind it.
ljust_lem :
    (s crc : Bytes)
    → length s ≤ 8
    → (rest : Bytes) × ((s ++ replicate (32 - length s) 0) ++ crc ≡ s ++ (0 ∷ rest))
ljust_lem s crc h =
    let more : 32 - length s ≡ suc (31 - length s) = omega (arith, h) in
    (
      replicate (31 - length s) 0 ++ crc,
      rw more (append_assoc s (replicate (suc (31 - length s)) 0) crc),
    )

-- Of a valid ASCII name `set_delegatee_from_string` makes 36 bytes, and the address prints as the
-- name and the type.
pub set_delegatee-address :
    (unicode : Unicode) (codecs : Codecs) (s : Text) (a : DioxAddress)
    → is_delegatee_name_valid unicode a.type_ s ≡ true
    → all_chars is_ascii s ≡ true
    → (bs : Bytes) × (set_delegatee_from_string unicode codecs s a
        ≡ ok (true, record a { bytes_ = some bs }))
      × (length bs ≡ 36)
      × (address codecs (record a { bytes_ = some bs })
          ≡ ok (s ++ ((b':' ∷ []) ++ type_name a.type_)))
unfolding set_delegatee_from_string address
set_delegatee-address unicode codecs s a valid ascii =
    let (kind, dash, zero_free) = is_delegatee_name_valid-IsName unicode a.type_ s valid in
    let is_name : IsName a.type_ s = (kind, dash, zero_free) in
    let (short, sid) = length-IsName a.type_ s is_name in
    let padded = ljust unicode s in
    let plain : all_chars is_ascii padded ≡ true =
      all_chars-append is_ascii s (replicate (32 - length s) 0) ascii
        (zeros-ascii (32 - length s)) in
    let (crc, ec, four, _, _) = checksum_lem codecs padded (type_value a.type_) sid in
    let (rest, er) = ljust_lem s crc short in
    let names : name_bytes codecs 32 (padded ++ crc) ≡ ok s =
      rw er (name_bytes-zero codecs 32 s rest (omega (arith, short)) zero_free) in
    let size : length (padded ++ crc) ≡ 36 = omega (
      arith,
      length-append padded crc,
      length-append s (replicate (32 - length s) 0),
      length-replicate {A = ℕ} (32 - length s) 0,
      four,
      short,
    ) in
    (
      padded ++ crc,
      rw (valid, encode-ascii padded plain, ec) refl,
      size,
      shown codecs a.type_ s (padded ++ crc) is_name names (decode-encode s (encode-ascii s ascii)),
    )
