-- ===== src/Client/Relays/Collect/Kids.antt =====
-- The relays of one transaction, and the inner loop over them, on a node that does not change while
-- it is asked.
use dioxide_python.Prelude.{
  ◌≡◌, refl, sym, ◌∙◌, ap, Bool, true, false, none, List, [], ◌∷◌, ◌++◌, append-nil, append_assoc,
}
use dioxide_python.Prelude.Result.{Result, ok}
use dioxide_python.Text.Case.{Unicode}
use dioxide_python.Gcl.Value.{Value, Entries, dict}
use dioxide_python.Client.{Outcome, returned, Service, ◌>>=◌}
use dioxide_python.Client.Relays.{normalize_relay_hash, relays_of, get_transaction}
use dioxide_python.Client.Relays.Collect.{detail_of, collect_relays}
use mathlib.Core.List.{map}
use mathlib.Core.Path.{ap₂}

-- A relayed transaction, and what is listed for it.
abbrev pub Kid : Type 0
Kid = Entries × Value

abbrev pub txs : List Kid → List Entries
txs ks = map (λ k. k.0) ks

abbrev pub seen_of : List Kid → List Value
seen_of ks = map (λ k. k.1) ks

-- The hash itself, or what the transaction is.
abbrev pub shown : Bool → Value → Entries → Value
shown true h tx = dict tx
shown false h tx = h

ok_injective : {x y : Value} → Result.ok x ≡ ok y → x ≡ y
ok_injective h = cc

returned_injective {ℓ} :
    {W : Type ℓ} {A : Type 0} {x y : A} {w : W}
    → ◌≡◌ {A = Outcome A × W} (returned x, w) (returned y, w)
    → x ≡ y
returned_injective h = cc

module _ {ℓ} {W : Type ℓ} (unicode : Unicode) (service : Service W) (detail : Bool) (w : W) where
  pub record IsFetched (h : Value) (k : Kid) : Type ℓ where
    pub normalized : Value
    pub normalizes : normalize_relay_hash unicode h ≡ ok normalized
    pub answered : get_transaction unicode service normalized none w ≡ (returned k.0, w)
    pub shows : k.1 ≡ shown detail h k.0

  pub data AllFetched : List Value → List Kid → Type ℓ where
    nothing : AllFetched [] []
    fetched :
        {h : Value} {k : Kid} {hs : List Value} {ks : List Kid}
        → IsFetched h k
        → AllFetched hs ks
        → AllFetched (h ∷ hs) (k ∷ ks)

  -- The relays of a transaction, and what the node answers for them.
  abbrev pub AreKids : Entries → List Kid → Type ℓ
  AreKids tx ks = (hs : List Value) × (relays_of service tx w ≡ (returned hs, w)) × AllFetched hs ks

  -- The call for one relay.
  detail_of_lem :
      (h : Value) (k : Kid) (f : IsFetched h k)
      → detail_of unicode service detail h f.normalized w ≡ (returned k.1, w)
  unfolding detail_of ◌>>=◌
  detail_of_lem h k f = by detail f.shows
    where
      by :
          (d : Bool)
          → k.1 ≡ shown d h k.0
          → detail_of unicode service d h f.normalized w ≡ (returned k.1, w)
      by false e = rw e refl
      by true e = rw (e, f.answered) refl

  pub collect_relays_lem :
      (hs : List Value) (ks : List Kid) (q : List Entries) (res : List Value)
      → AllFetched hs ks
      → collect_relays unicode service detail hs q res w
        ≡ (returned (q ++ txs ks, res ++ seen_of ks), w)
  unfolding collect_relays ◌>>=◌
  collect_relays_lem [] [] q res nothing = rw (append-nil q, append-nil res) refl
  collect_relays_lem [] (k ∷ ks) q res f = elim f [ ]
  collect_relays_lem (h ∷ hs) [] q res f = elim f [ ]
  collect_relays_lem (h ∷ hs) (k ∷ ks) q res (fetched f fs) =
      rw (f.normalizes, detail_of_lem h k f, f.answered)
        (collect_relays_lem hs ks (q ++ (k.0 ∷ [])) (res ++ (k.1 ∷ [])) fs
          ∙ ap (λ r. (returned r, w))
              (rw (append_assoc q (k.0 ∷ []) (txs ks), append_assoc res (k.1 ∷ []) (seen_of ks))
                refl))

  kid_eq : (h : Value) (k l : Kid) → IsFetched h k → IsFetched h l → k ≡ l
  kid_eq h k l f g =
      let same : f.normalized ≡ g.normalized = ok_injective (sym f.normalizes ∙ g.normalizes) in
      let asked = rw same at f.answered in
      let tx : k.0 ≡ l.0 = returned_injective (sym asked ∙ g.answered) in
      let shown_ : k.1 ≡ l.1 = f.shows ∙ (ap (λ t. shown detail h t) tx ∙ sym g.shows) in
      ap₂ (λ a b. (a, b)) tx shown_

  kids_eq : (hs : List Value) (ks ls : List Kid) → AllFetched hs ks → AllFetched hs ls → ks ≡ ls
  kids_eq [] [] [] nothing nothing = refl
  kids_eq [] (k ∷ ks) ls f g = elim f [ ]
  kids_eq [] [] (l ∷ ls) f g = elim g [ ]
  kids_eq (h ∷ hs) [] ls f g = elim f [ ]
  kids_eq (h ∷ hs) (k ∷ ks) [] f g = elim g [ ]
  kids_eq (h ∷ hs) (k ∷ ks) (l ∷ ls) (fetched f fs) (fetched g gs) =
      ap₂ (λ a b. a ∷ b) (kid_eq h k l f g) (kids_eq hs ks ls fs gs)

  pub AreKids-eq : (tx : Entries) (ks ls : List Kid) → AreKids tx ks → AreKids tx ls → ks ≡ ls
  AreKids-eq tx ks ls (hs, eh, fs) (gs, eg, fs') =
      let same : hs ≡ gs = returned_injective (sym eh ∙ eg) in kids_eq gs ks ls (rw same at fs) fs'
