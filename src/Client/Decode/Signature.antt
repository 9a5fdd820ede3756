-- ===== src/Client/Decode/Signature.antt =====
-- The signature that a contract's description has for parameters, where Box reads like a dict.
use dioxide_python.Prelude.{◌≡◌, refl, sym, ap, some, List, [], ◌∷◌, ◌++◌, append-nil}
use dioxide_python.Prelude.Result.{ok}
use dioxide_python.Text.{Text, codes}
use dioxide_python.Text.Split.{join}
use dioxide_python.Gcl.Value.{
  Value, Entries, str, list, dict, end, entry, from_list, to_list-from_list,
}
use dioxide_python.Gcl.Dict.{get}
use dioxide_python.Message.{or_default, iterate}
use dioxide_python.Args.Signature.{Param, param_text, signature_text, other_params}
use dioxide_python.Client.{Service}
use dioxide_python.Client.Interface.{Printed, param_texts, param_text_of, signature_of}
use dioxide_python.Client.Decode.{}
use dioxide_python.Gcl.Shape.{name}
use mathlib.Core.List.{map}

-- A Box reads like the dict it is made of.
pub record IsBox {ℓ} {W : Type ℓ} (service : Service W) : Type 0 where
  pub reads_attribute :
      (key : Text) (d : Entries) (v : Value)
      → get (str key) d ≡ some v
      → service.attribute key d ≡ ok v
  pub reads_get :
      (key : Text) (default : Value) (d : Entries)
      → service.box_get key default d ≡ ok (or_default default (get (str key) d))

-- The description of a parameter.
abbrev pub param_value : Param → Value
param_value (s, n) =
    dict (entry (str (codes "Type")) (str (name s)) (entry (str (codes "Name")) (str n) end))

join-param_texts :
    (p : Param) (ps : List Param)
    → join (codes ",") (map param_text (p ∷ ps)) ≡ param_text p ++ other_params ps
unfolding join other_params
join-param_texts p [] = sym (append-nil (param_text p))
join-param_texts p (q ∷ ps) = ap (λ r. param_text p ++ (b',' ∷ r)) (join-param_texts q ps)

join-signature_text : (ps : List Param) → join (codes ",") (map param_text ps) ≡ signature_text ps
unfolding join signature_text
join-signature_text [] = refl
join-signature_text (p ∷ ps) = join-param_texts p ps

module _ {ℓ} {W : Type ℓ} (printed : Printed) (service : Service W) (box : IsBox service) where
  param_text_of_lem :
      (p : Param) → param_text_of printed service (param_value p) ≡ ok (param_text p)
  unfolding param_text_of get
  param_text_of_lem (s, n) =
      let description : Entries =
        entry (str (codes "Type")) (str (name s)) (entry (str (codes "Name")) (str n) end) in
      rw
        (
          box.reads_get (codes "Type") (str []) description,
          box.reads_get (codes "Name") (str []) description,
        )
        refl

  param_texts_lem :
      (ps : List Param) → param_texts printed service (map param_value ps) ≡ ok (map param_text ps)
  unfolding param_texts
  param_texts_lem [] = refl
  param_texts_lem (p ∷ ps) = rw (param_text_of_lem p, param_texts_lem ps) refl

  pub signature_of_lem :
      (ps : List Param)
      → signature_of printed service (list (from_list (map param_value ps)))
        ≡ ok (signature_text ps)
  unfolding signature_of iterate
  signature_of_lem ps =
      rw (to_list-from_list (map param_value ps), param_texts_lem ps, join-signature_text ps) refl
