-- ===== src/Client/Decode/RoundTrip.antt =====
-- `decode_transaction_input` gives back the arguments that `serialize_args` wrote for the function's
-- signature.
use dioxide_python.Prelude.{
  ◌≤◌, ◌≡◌, refl, ◌∙◌, ap, true, false, some, List, [], ◌∷◌, ◌++◌, length, All, arith,
}
use dioxide_python.Prelude.Result.{ok}
use dioxide_python.Bytes.{Bytes}
use dioxide_python.Bytes.Laws.{IsByte}
use dioxide_python.Text.{Text, codes, text_eq, is_empty}
use dioxide_python.Text.Case.{Unicode}
use dioxide_python.Text.Hex.{hex}
use dioxide_python.Text.Laws.{no_space, strip-no_space}
use dioxide_python.Text.Split.{split, first_part}
use dioxide_python.Text.Split.Laws.{no_char, split-no_char, split-append}
use dioxide_python.Gcl.Value.{
  Value, Values, Entries, str, list, dict, nil, end, truthy, to_list, from_list,
}
use dioxide_python.Gcl.Dict.{get}
use dioxide_python.Gcl.TypeName.{split_types}
use dioxide_python.Message.{iterate, call_split}
use dioxide_python.Args.{serialize_args, serialize_params, deserialized_args}
use dioxide_python.Args.Fallback.{Krock32}
use dioxide_python.Args.Signature.{Param, IsName, signature_text}
use dioxide_python.Args.RoundTrip.{AllPlain, read_back, deserialized_args-serialize_args}
use dioxide_python.Client.{returned, ◌>>=◌, Service}
use dioxide_python.Client.Queries.{get_contract_info}
use dioxide_python.Client.Interface.{Printed, find_function, function_of}
use dioxide_python.Client.Decode.{
  decoded_args, decode_with, decode_by, decode_parts, is_core, decode_function, decode_input,
  is_blank, is_false, function_value, input_value, decode_transaction_input,
}
use mathlib.Core.List.{map}
use dioxide_python.Client.Decode.Signature.{IsBox, param_value, signature_of_lem}

-- "dapp.contract.function"
abbrev pub dotted : Text → Text → Text → Text
dotted d c f = d ++ (b'.' ∷ (c ++ (b'.' ∷ f)))

split-dotted :
    (d c f : Text)
    → no_char b'.' d ≡ true
    → no_char b'.' c ≡ true
    → no_char b'.' f ≡ true
    → split b'.' (dotted d c f) ≡ d ∷ c ∷ f ∷ []
split-dotted d c f hd hc hf =
    split-append b'.' d (c ++ (b'.' ∷ f)) hd
    ∙ ap (λ r. d ∷ r) (split-append b'.' c f hc ∙ ap (λ r. c ∷ r) (split-no_char b'.' f hf))

-- The arguments can be read back from their text.
pub record IsWritten (ps : List Param) (args : Entries) (bs : Bytes) : Type 0 where
  pub names : All (λ p. IsName p.1) ps
  pub plain : AllPlain ps args
  pub written : serialize_params 0 (split_types (signature_text ps)) args ≡ ok bs
  pub in_bytes : All IsByte bs

pub args_read :
    (krock32 : Krock32) (ps : List Param) (args : Entries) (bs : Bytes)
    → IsWritten ps args bs
    → deserialized_args krock32 (signature_text ps) (hex bs) ≡ ok (read_back ps args end, length bs)
unfolding serialize_args
args_read krock32 ps args bs h =
    let whole =
      deserialized_args-serialize_args krock32 ps args bs h.names h.plain h.written h.in_bytes in
    rw h.written at whole

hex-cons : (bs : Bytes) → 1 ≤ length bs → is_false (str (hex bs)) ≡ false
unfolding hex truthy
hex-cons [] h = absurd (omega (arith, h))
hex-cons (b ∷ bs) h = refl

not_blank : (d c f : Text) → no_space (dotted d c f) ≡ true → is_blank (str (dotted d c f)) ≡ false
unfolding is_blank
not_blank d c f h = rw (strip-no_space (dotted d c f) h) (starts d)
  where
    starts : (d : Text) → is_empty (dotted d c f) ≡ false
    starts [] = refl
    starts (_ ∷ _) = refl

kept_function :
    (printed : Printed) (d c f : Text)
    → function_value printed (str (dotted d c f)) ≡ str (dotted d c f)
unfolding function_value truthy
kept_function printed [] c f = refl
kept_function printed (_ ∷ _) c f = refl

module _ {ℓ} {W : Type ℓ} (unicode : Unicode) (krock32 : Krock32) (printed : Printed)
    (service : Service W) (box : IsBox service) (ps : List Param) (args : Entries) (bs : Bytes)
    (fits : IsWritten ps args bs) where
  abbrev arguments : Value
  arguments = dict (read_back ps args end)

  decode_with_lem :
      (fi : Entries) (v : W)
      → is_false (list (from_list (map param_value ps))) ≡ false
      → get (str (codes "Params")) fi ≡ some (list (from_list (map param_value ps)))
      → decode_with unicode krock32 printed service (str (hex bs)) (some fi) v
        ≡ (returned arguments, v)
  unfolding decode_with decoded_args ◌>>=◌
  decode_with_lem fi v some_ e =
      rw
        (
          box.reads_get (codes "Params") (list nil) fi,
          e,
          some_,
          signature_of_lem printed service box ps,
          args_read krock32 ps args bs fits,
        )
        refl

  decode_by_lem :
      (f : Text) (info fi : Entries) (funcs : Values) (v : W)
      → get (str (codes "Functions")) info ≡ some (list funcs)
      → find_function printed service f (to_list funcs) ≡ ok (some fi)
      → is_false (list (from_list (map param_value ps))) ≡ false
      → get (str (codes "Params")) fi ≡ some (list (from_list (map param_value ps)))
      → decode_by unicode krock32 printed service (str (hex bs)) f (returned info) v
        ≡ (returned arguments, v)
  unfolding decode_by function_of iterate ◌>>=◌
  decode_by_lem f info fi funcs v ef found some_ ep =
      rw (box.reads_attribute (codes "Functions") info (list funcs) ef, found)
        (decode_with_lem fi v some_ ep)

-- A contract's description that the node gives, and the function's in it.
pub record IsDescribed {ℓ} {W : Type ℓ} (unicode : Unicode) (printed : Printed)
    (service : Service W) (d c f : Text) (ps : List Param) (w v : W) : Type ℓ where
  pub info : Entries
  pub function_info : Entries
  pub functions : Values
  pub answered : get_contract_info unicode service d c w ≡ (returned info, v)
  pub listed : get (str (codes "Functions")) info ≡ some (list functions)
  pub found : find_function printed service f (to_list functions) ≡ ok (some function_info)
  pub params :
      get (str (codes "Params")) function_info ≡ some (list (from_list (map param_value ps)))

-- The name of a function outside the core.
pub record IsFunctionName (d c f : Text) : Type 0 where
  pub dapp_name : no_char b'.' d ≡ true
  pub contract_name : no_char b'.' c ≡ true
  pub function_name : no_char b'.' f ≡ true
  pub not_core : text_eq d (codes "core") ≡ false
  pub no_blank : no_space (dotted d c f) ≡ true

-- A transaction that calls a function outside the core, whose description the node gives, with one
-- parameter at least, and whose input is the text that `serialize_args` makes of arguments for its
-- signature, which is not empty: `decode_transaction_input` gives each parameter the value that
-- its type keeps. No bigint and no token amount among the arguments is zero, blobs, hashes and
-- addresses are bytes, and no map has bigint keys.
pub decode_transaction_input-serialize_args {ℓ} :
    {W : Type ℓ} (unicode : Unicode) (krock32 : Krock32) (printed : Printed) (service : Service W)
    → IsBox service
    → (d c f : Text) (p : Param) (ps : List Param) (args : Entries) (bs : Bytes) (tx : Entries)
      (w v : W)
    → IsFunctionName d c f
    → IsDescribed unicode printed service d c f (p ∷ ps) w v
    → IsWritten (p ∷ ps) args bs
    → 1 ≤ length bs
    → get (str (codes "Function")) tx ≡ some (str (dotted d c f))
    → get (str (codes "Input")) tx ≡ some (str (hex bs))
    → decode_transaction_input unicode krock32 printed service tx w
      ≡ (returned (dict (read_back (p ∷ ps) args end)), v)
unfolding decode_transaction_input decode_input decode_function decode_parts is_core input_value
    call_split truthy from_list first_part ◌>>=◌
decode_transaction_input-serialize_args unicode krock32 printed service box d c f p ps args bs tx w
      v named described fits some_ ef ei =
    let shown = not_blank d c f named.no_blank in
    let parts = split-dotted d c f named.dapp_name named.contract_name named.function_name in
    rw
      (
        ef,
        ei,
        kept_function printed d c f,
        shown,
        hex-cons bs some_,
        parts,
        named.not_core,
        described.answered,
      )
      (decode_by_lem unicode krock32 printed service box (p ∷ ps) args bs fits f described.info
        described.function_info described.functions v described.listed described.found refl
        described.params)
