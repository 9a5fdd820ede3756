-- ===== src/Args/Signature.antt =====
-- Signatures that are written from types and names, and how their parameters are found again.
use dioxide_python.Prelude.{
  ℕ, ◌≡◌, refl, ◌∙◌, Bool, true, false, not, ◌&&◌, ◌==◌, none, some, List, [], ◌∷◌, ◌++◌,
  append_assoc, arith,
}
use dioxide_python.Prelude.{length, All, take-length_append}
use dioxide_python.Prelude.Int.{pos}
use dioxide_python.Text.{Text, is_space, rfind}
use dioxide_python.Text.Laws.{no_space, strip-no_space}
use dioxide_python.Gcl.TypeName.{split_loop, split_types}
use dioxide_python.Gcl.Shape.{Shape, name}
use dioxide_python.Gcl.Shape.Names.{plain, no_space-name, is_empty-name}
use dioxide_python.Gcl.Shape.Split.{
  Passes, plain-Passes, append-Passes, name-Passes, drop-past, is_empty-append,
}
use dioxide_python.Args.{at_colon, type_and_name}
use mathlib.Core.List.{map}

abbrev pub Param : Type 0
Param = Shape × Text

abbrev pub no_colon : Text → Bool
no_colon [] = true
no_colon (c ∷ t) = not (c == b':') && no_colon t

-- A name without brackets, commas, colons and spaces.
pub record IsName (n : Text) : Type 0 where
  pub no_bracket : plain n ≡ true
  pub no_blank : no_space n ≡ true
  pub colon_free : no_colon n ≡ true

abbrev pub param_text : Param → Text
param_text (s, n) = name s ++ (b':' ∷ n)

unfoldable pub other_params : List Param → Text
other_params [] = []
other_params (p ∷ ps) = b',' ∷ (param_text p ++ other_params ps)

-- "type:name,type:name"
unfoldable pub signature_text : List Param → Text
unfolding other_params
signature_text [] = []
signature_text (p ∷ ps) = param_text p ++ other_params ps

no_space-append : (s t : Text) → no_space s ≡ true → no_space t ≡ true → no_space (s ++ t) ≡ true
no_space-append [] t hs ht = ht
no_space-append (c ∷ s) t hs ht = ground (arith, no_space-append s t)

colon_is_no_space : is_space b':' ≡ false
unfolding is_space
colon_is_no_space = refl

no_space-param_text : (s : Shape) (n : Text) → IsName n → no_space (param_text (s, n)) ≡ true
no_space-param_text s n h =
    no_space-append (name s) (b':' ∷ n) (no_space-name s) (rw colon_is_no_space h.no_blank)

module _ (parts : List Text) where
  param-Passes : (s : Shape) (n : Text) → IsName n → Passes parts (param_text (s, n))
  param-Passes s n h =
      append-Passes parts (name s) (b':' ∷ n) (name-Passes parts s)
        (plain-Passes parts (b':' ∷ n) h.no_bracket)

split_params :
    (parts : List Text) (s : Shape) (n : Text) (ps : List Param)
    → IsName n
    → All (λ p. IsName p.1) ps
    → split_loop parts [] (pos 0) (param_text (s, n) ++ other_params ps)
      ≡ parts ++ (param_text (s, n) ∷ map param_text ps)
unfolding split_loop other_params
split_params parts s n [] h hs =
    param-Passes parts s n h [] [] 0
    ∙ rw (
      strip-no_space (param_text (s, n)) (no_space-param_text s n h),
      is_empty-append (name s) (b':' ∷ n) (is_empty-name s),
    )
split_params parts s n ((s', n') ∷ ps) h (h', hs) =
    param-Passes parts s n h [] (b',' ∷ (param_text (s', n') ++ other_params ps)) 0
    ∙ rw (strip-no_space (param_text (s, n)) (no_space-param_text s n h)) (
        split_params (parts ++ (param_text (s, n) ∷ [])) s' n' ps h' hs
        ∙ append_assoc parts (param_text (s, n) ∷ []) (param_text (s', n') ∷ map param_text ps))

-- The loop that splits a signature at its outer commas gives, for a signature written from types and
-- from names without brackets, commas, colons and spaces, its parameters, each as "type:name".
pub split_types-signature_text :
    (ps : List Param)
    → All (λ p. IsName p.1) ps
    → split_types (signature_text ps) ≡ map param_text ps
unfolding split_types split_loop signature_text
split_types-signature_text [] h = refl
split_types-signature_text ((s, n) ∷ ps) (h, hs) = split_params [] s n ps h hs

rfind-no_colon : (n : Text) → no_colon n ≡ true → rfind b':' n ≡ none
unfolding rfind
rfind-no_colon [] h = refl
rfind-no_colon (c ∷ n) h = ground (arith, rfind-no_colon n)

rfind-last_colon : (t n : Text) → no_colon n ≡ true → rfind b':' (t ++ (b':' ∷ n)) ≡ some (length t)
unfolding rfind
rfind-last_colon [] n h = rw (rfind-no_colon n h)
rfind-last_colon (c ∷ t) n h = rw (rfind-last_colon t n h)

-- A parameter is taken apart at its last colon.
pub type_and_name-param_text :
    (idx : ℕ) (s : Shape) (n : Text)
    → IsName n
    → type_and_name idx (param_text (s, n)) ≡ (name s, n)
unfolding type_and_name at_colon
type_and_name-param_text idx s n h = rw (
  rfind-last_colon (name s) n h.colon_free,
  take-length_append (name s) (b':' ∷ n),
  drop-past (name s) n b':',
  strip-no_space (name s) (no_space-name s),
  strip-no_space n h.no_blank,
)
