-- ===== src/Client/Send/Logged.antt =====
-- A service that writes down the requests that are made of it, and code that sends no transaction.
use dioxide_python.Prelude.{◌≡◌, refl, ◌∙◌, Bool, true, false, List, [], ◌∷◌, if◌then◌else◌}
use dioxide_python.Text.{Text, codes, text_eq}
use dioxide_python.Gcl.Value.{Entries}
use dioxide_python.Client.{Outcome, returned, raised, diox_error, Run, ◌>>=◌, then_do, Service}

-- The requests, the last one first: the method and the parameters of each.
abbrev pub Log : Type 0
Log = List (Text × Entries)

-- The same service, with a log.
abbrev pub logged {ℓ} : {W : Type ℓ} → Service W → Service (W × Log)
logged service = record {
  request = λ method params s.
      let (r, w) = service.request method params s.0 in (r, (w, (method, params) ∷ s.1));
  time = λ s. service.time s.0;
  sleep = λ n s. (service.sleep n s.0, s.1);
  box = service.box;
  attribute = service.attribute;
  box_get = service.box_get;
}

-- The parameters of the requests that send a transaction.
unfoldable pub sends : Log → List Entries
sends [] = []
sends ((method, params) ∷ log) =
    let rest = sends log in if text_eq method (codes "tx.send") then params ∷ rest else rest

module _ {ℓ} {W : Type ℓ} where
  -- Nothing is sent.
  abbrev pub Quiet : {A : Type 0} → Run (W × Log) A → Type ℓ
  Quiet m = (s : W × Log) → sends ((m s).1.1) ≡ sends s.1

  pub then_do-sends :
      {A B : Type 0} (p : Outcome A × (W × Log)) (next : A → Run (W × Log) B)
      → ((a : A) → Quiet (next a))
      → sends ((then_do p next).1.1) ≡ sends p.1.1
  then_do-sends (returned a, s) next k = k a s
  then_do-sends (raised e, s) next k = refl
  then_do-sends (diox_error c, s) next k = refl

  pub >>=-sends :
      {A B : Type 0} (m : Run (W × Log) A) (next : A → Run (W × Log) B)
      → ((a : A) → Quiet (next a))
      → (s : W × Log) → sends (((m >>= next) s).1.1) ≡ sends ((m s).1.1)
  unfolding ◌>>=◌
  >>=-sends m next k s = then_do-sends (m s) next k

  pub >>=-Quiet :
      {A B : Type 0} (m : Run (W × Log) A) (next : A → Run (W × Log) B)
      → Quiet m
      → ((a : A) → Quiet (next a))
      → Quiet (m >>= next)
  >>=-Quiet m next h k s = >>=-sends m next k s ∙ h s

  pub if-Quiet :
      {A : Type 0} (b : Bool) (m n : Run (W × Log) A)
      → Quiet m
      → Quiet n
      → Quiet (if b then m else n)
  if-Quiet true m n h k = h
  if-Quiet false m n h k = k
