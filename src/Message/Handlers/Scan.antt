-- ===== src/Message/Handlers/Scan.antt =====
-- What one round of the loops in client/handlers.py does to the copied message.
use dioxide_python.Prelude.{
  Bool, true, false, List, [], ◌∷◌, ◌++◌, append_assoc, append-nil, ◌≡◌, refl, sym, ap, ◌∙◌, Option,
  none, some, if◌then◌else◌, All,
}
use dioxide_python.Prelude.Result.{Result, ok, err, >>=-eq-ok}
use dioxide_python.Text.{Text, text_eq}
use dioxide_python.Gcl.Value.{
  Value, Entries, null, bool, int, float, str, bytes, list, dict, nil, from_list, to_list-from_list,
}
use dioxide_python.Gcl.Dict.{get, put}
use dioxide_python.Gcl.Dict.Laws.{get-put_same, get-put_other}
use dioxide_python.Message.{or_default, iterate, states_of}
use dioxide_python.Message.Handlers.{append_to, append_state, append_states, scan_scope}

-- Whether a test that did not raise was passed.
abbrev pub is_hit : Result Bool → Bool
is_hit (ok b) = b
is_hit (err _) = false

abbrev pub passing : (Value → Result Bool) → List Value → List Value
passing test [] = []
passing test (state ∷ states) =
    let rest = passing test states in if is_hit (test state) then state ∷ rest else rest

abbrev pub or_nil : Result (List Value) → List Value
or_nil (ok states) = states
or_nil (err _) = []

-- The entry of a key whose states were looked through: the states that pass, in order.
abbrev pub kept : (Value → Result Bool) → Option Value → Option Value
kept test none = none
kept test (some v) = some (list (from_list (passing test (or_nil (iterate v)))))

-- The entry of a key behind the first test of the loop.
abbrev pub cleared : Option Value → Option Value
cleared none = none
cleared (some null) = some null
cleared (some _) = some (list nil)

-- The test returned on each of the states.
abbrev pub Decided : (Value → Result Bool) → List Value → Type 0
Decided test = All (λ s. test s ≡ ok (is_hit (test s)))

-- The states at a key could be looked through.
abbrev pub Scanned : (Value → Result Bool) → Entries → Text → Type 0
Scanned test r x =
    (states_of x (dict r) ≡ ok (or_nil (states_of x (dict r))))
    × Decided test (or_nil (states_of x (dict r)))

-- Only the entry of `x` differs.
abbrev pub Frame : Text → Entries → Entries → Type 0
Frame x f m = (l : Text) → text_eq l x ≡ false → get (str l) m ≡ get (str l) f

append_state_lem :
    (x : Text) (s : Value) (f : Entries) (vs : List Value)
    → get (str x) f ≡ some (list (from_list vs))
    → append_state x s f ≡ ok (put (str x) (list (from_list (vs ++ (s ∷ [])))) f)
unfolding append_state append_to
append_state_lem x s f vs h = rw (h, to_list-from_list vs)

append_if :
    (b : Bool) (x : Text) (s : Value) (f m : Entries) (vs : List Value)
    → get (str x) f ≡ some (list (from_list vs))
    → (if b then append_state x s f else ok f) ≡ ok m
    → (get (str x) m ≡ some (list (from_list (vs ++ (if b then s ∷ [] else []))))) × Frame x f m
append_if true x s f m vs g h =
    let e : ok (put (str x) (list (from_list (vs ++ (s ∷ [])))) f) ≡ ok m =
      sym (append_state_lem x s f vs g) ∙ h in
    let same : put (str x) (list (from_list (vs ++ (s ∷ [])))) f ≡ m = cc in
    rw (← same) (get-put_same x _ f, λ l apart. get-put_other x l _ f apart)
append_if false x s f m vs g h =
    let same : f ≡ m = cc in rw (← same, append-nil vs) (g, λ l apart. refl)

passing-cons :
    (test : Value → Result Bool) (s : Value) (ss : List Value) (b : Bool)
    → test s ≡ ok b
    → passing test (s ∷ ss) ≡ (if b then s ∷ [] else []) ++ passing test ss
passing-cons test s ss true e = rw e
passing-cons test s ss false e = rw e

append_states_lem :
    (test : Value → Result Bool) (x : Text) (ss : List Value) (f m : Entries) (vs : List Value)
    → get (str x) f ≡ some (list (from_list vs))
    → append_states test x ss f ≡ ok m
    → (get (str x) m ≡ some (list (from_list (vs ++ passing test ss))))
      × Decided test ss
      × Frame x f m
unfolding append_states
append_states_lem test x [] f m vs g h =
    let same : f ≡ m = cc in rw (← same, append-nil vs) (g, tt, λ l apart. refl)
append_states_lem test x (s ∷ ss) f m vs g h =
    let (b, eb, h₁) = >>=-eq-ok (test s) _ h in
    let (next, en, h₂) = >>=-eq-ok (if b then append_state x s f else ok f) _ h₁ in
    let (g', frame) = append_if b x s f next vs g en in
    let (g'', decided, frame') = append_states_lem test x ss next m _ g' h₂ in
    (
      g''
          ∙ ap (λ r. some (Value.list (from_list r)))
              (append_assoc vs (if b then s ∷ [] else []) (passing test ss)
                ∙ ap (λ r. vs ++ r) (sym (passing-cons test s ss b eb))),
      (rw eb refl, decided),
      λ l apart. frame' l apart ∙ frame l apart,
    )

cleared_lem : (v : Value) (ss : List Value) → iterate v ≡ ok ss → cleared (some v) ≡ some (list nil)
unfolding iterate
cleared_lem null ss h = cc
cleared_lem (bool _) ss h = refl
cleared_lem (int _) ss h = refl
cleared_lem (float _) ss h = refl
cleared_lem (str _) ss h = refl
cleared_lem (bytes _) ss h = refl
cleared_lem (list _) ss h = refl
cleared_lem (dict _) ss h = refl

scan_of :
    (test : Value → Result Bool) (x : Text) (o : Option Value) (ss : List Value) (f m : Entries)
    → iterate (or_default (list nil) o) ≡ ok ss
    → get (str x) f ≡ cleared o
    → append_states test x ss f ≡ ok m
    → (get (str x) m ≡ kept test o) × Decided test ss × Frame x f m
unfolding iterate append_states
scan_of test x none ss f m i g h =
    let empty : [] ≡ ss = ap or_nil i in
    let h' : ok f ≡ ok m = rw (← empty) at h in
    let same : f ≡ m = cc in rw (← empty, ← same) (g, tt, λ l apart. refl)
scan_of test x (some v) ss f m i g h =
    let (kept_, decided, frame) = append_states_lem test x ss f m [] (g ∙ cleared_lem v ss i) h in
    (
      kept_ ∙ ap (λ r. some (Value.list (from_list (passing test r)))) (sym (ap or_nil i)),
      decided,
      frame,
    )

pub scan_scope_lem :
    (test : Value → Result Bool) (r : Entries) (x : Text) (f m : Entries)
    → get (str x) f ≡ cleared (get (str x) r)
    → scan_scope test r x f ≡ ok m
    → (get (str x) m ≡ kept test (get (str x) r)) × Scanned test r x × Frame x f m
unfolding scan_scope
scan_scope_lem test r x f m g h =
    let (ss, es, h₁) = >>=-eq-ok (states_of x (dict r)) _ h in
    let (k, decided, frame) = scan_of test x (get (str x) r) ss f m (entry_of ss es) g h₁ in
    (k, rw (ap or_nil es) (es, decided), frame)
  where
    entry_of :
        (ss : List Value)
        → states_of x (dict r) ≡ ok ss
        → iterate (or_default (list nil) (get (str x) r)) ≡ ok ss
    entry_of ss es = es
