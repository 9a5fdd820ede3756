-- ===== src/Message/Handlers/Kept.antt =====
-- The loops of client/handlers.py over the keys of a message.
use dioxide_python.Prelude.{
  Bool, true, false, not, ◌&&◌, List, [], ◌∷◌, ◌≡◌, refl, ◌∙◌, Option, none, some, All, arith,
  if◌then◌else◌,
}
use dioxide_python.Prelude.Result.{Result, ok, >>=-eq-ok}
use dioxide_python.Text.{Text, text_eq, text_in}
use dioxide_python.Gcl.Value.{Value, Entries, null, bool, int, float, str, bytes, list, dict, nil}
use dioxide_python.Gcl.Dict.{get, put}
use dioxide_python.Gcl.Dict.Laws.{get-put_same, get-put_other, text_eq_comm}
use dioxide_python.Message.{is_none, or_default}
use dioxide_python.Message.Handlers.{clear_scope, clear_and_scan, for_scopes}
use dioxide_python.Message.Handlers.Scan.{cleared, kept, Scanned, Frame, scan_scope_lem}

-- Where the message has no states, the copy has what the message has.
abbrev pub Untouched : Entries → Text → Option Value → Type 0
Untouched r x o = is_none (or_default null (get (str x) r)) ≡ true → o ≡ get (str x) r

emptied :
    (x : Text) (f m : Entries)
    → ok (put (str x) (list nil) f) ≡ ok m
    → (get (str x) m ≡ some (list nil)) × Frame x f m
emptied x f m h =
    let same : put (str x) (list nil) f ≡ m = cc in
    rw (← same) (get-put_same x (list nil) f, λ l apart. get-put_other x l (list nil) f apart)

clear_of :
    (x : Text) (o : Option Value) (f m : Entries)
    → (is_none (or_default null o) ≡ true → get (str x) f ≡ o)
    → (if is_none (or_default null o) then ok f else ok (put (str x) (list nil) f)) ≡ ok m
    → (get (str x) m ≡ cleared o) × Frame x f m
clear_of x none f m u h = let same : f ≡ m = cc in rw (← same) (u refl, λ l apart. refl)
clear_of x (some null) f m u h = let same : f ≡ m = cc in rw (← same) (u refl, λ l apart. refl)
clear_of x (some (bool _)) f m u h = emptied x f m h
clear_of x (some (int _)) f m u h = emptied x f m h
clear_of x (some (float _)) f m u h = emptied x f m h
clear_of x (some (str _)) f m u h = emptied x f m h
clear_of x (some (bytes _)) f m u h = emptied x f m h
clear_of x (some (list _)) f m u h = emptied x f m h
clear_of x (some (dict _)) f m u h = emptied x f m h

pub clear_scope_lem :
    (r : Entries) (x : Text) (f m : Entries)
    → Untouched r x (get (str x) f)
    → clear_scope r x f ≡ ok m
    → (get (str x) m ≡ cleared (get (str x) r)) × (Unit {0}) × Frame x f m
unfolding clear_scope
clear_scope_lem r x f m u h = let (c, frame) = clear_of x (get (str x) r) f m u h in (c, tt, frame)

pub clear_and_scan_lem :
    (test : Value → Result Bool) (r : Entries) (x : Text) (f m : Entries)
    → Untouched r x (get (str x) f)
    → clear_and_scan test r x f ≡ ok m
    → (get (str x) m ≡ kept test (get (str x) r)) × Scanned test r x × Frame x f m
unfolding clear_and_scan
clear_and_scan_lem test r x f m u h =
    let (mid, em, h₁) = >>=-eq-ok (clear_scope r x f) _ h in
    let (c, _, frame) = clear_scope_lem r x f mid u em in
    let (k, scanned, frame') = scan_scope_lem test r x mid m c h₁ in
    (k, scanned, λ l apart. frame' l apart ∙ frame l apart)

abbrev pub distinct : List Text → Bool
distinct [] = true
distinct (x ∷ xs) = not (text_in x xs) && distinct xs

-- What a round at `x` leaves at the other keys holds of them before.
keep_others :
    (Pre : Text → Option Value → Type 0) (x : Text) (xs : List Text) (f m : Entries)
    → text_in x xs ≡ false
    → Frame x f m
    → All (λ y. Pre y (get (str y) f)) xs
    → All (λ y. Pre y (get (str y) m)) xs
keep_others Pre x [] f m out frame all = tt
keep_others Pre x (y ∷ ys) f m out frame (p, all) =
    let apart : text_eq y x ≡ false = text_eq_comm y x ∙ ground (arith, out) in
    let rest : text_in x ys ≡ false = ground (arith, out) in
    (rw (frame y apart) p, keep_others Pre x ys f m rest frame all)

module _ (step : Text → Entries → Result Entries) (Pre : Text → Option Value → Type 0)
    (out : Text → Option Value) (Done : Text → Type 0)
    (round : (x : Text) (f m : Entries)
      → Pre x (get (str x) f)
      → step x f ≡ ok m
      → (get (str x) m ≡ out x) × Done x × Frame x f m) where
  -- A loop over distinct keys brings each to what a round brings it to.
  pub for_scopes_lem :
      (xs : List Text) (f m : Entries)
      → distinct xs ≡ true
      → All (λ x. Pre x (get (str x) f)) xs
      → for_scopes step xs f ≡ ok m
      → All (λ x. get (str x) m ≡ out x) xs
        × All Done xs
        × ((l : Text) → text_in l xs ≡ false → get (str l) m ≡ get (str l) f)
  unfolding for_scopes
  for_scopes_lem [] f m d all h = let same : f ≡ m = cc in rw (← same) (tt, tt, λ l apart. refl)
  for_scopes_lem (x ∷ xs) f m d (p, all) h =
      let (next, en, h₁) = >>=-eq-ok (step x f) _ h in
      let (here, done, frame) = round x f next p en in
      let away : text_in x xs ≡ false = ground (arith, d) in
      let d' : distinct xs ≡ true = ground (arith, d) in
      let (outs, dones, frame') =
        for_scopes_lem xs next m d' (keep_others Pre x xs f next away frame all) h₁ in
      (
        (frame' x away ∙ here, outs),
        (done, dones),
        λ l apart. frame' l (ground (arith, apart)) ∙ frame l (ground (arith, apart)),
      )
