-- ===== src/Client/Methods.antt =====
-- What holds of methods that are put together: of one that leaves the world as it is, and of one
-- that returns.
use dioxide_python.Prelude.{◌≡◌, refl, ap}
use dioxide_python.Prelude.Result.{Result, ok, err}
use dioxide_python.Client.{Outcome, returned, raised, diox_error, Run, ◌>>=◌, then_do, lift}

module _ {ℓ} {W : Type ℓ} where
  -- The world is as before.
  abbrev pub Same : {A : Type 0} → W → Run W A → Type ℓ
  Same w m = (m w).1 ≡ w

  then_do-Same :
      {A B : Type 0} (w : W) (p : Outcome A × W) (next : A → Run W B)
      → p.1 ≡ w
      → ((a : A) → Same w (next a))
      → (then_do p next).1 ≡ w
  then_do-Same w (returned a, v) next h k = rw h (k a)
  then_do-Same w (raised e, v) next h k = h
  then_do-Same w (diox_error c, v) next h k = h

  pub >>=-Same :
      {A B : Type 0} (w : W) (m : Run W A) (next : A → Run W B)
      → Same w m
      → ((a : A) → Same w (next a))
      → Same w (m >>= next)
  unfolding ◌>>=◌
  >>=-Same w m next h k = then_do-Same w (m w) next h k

  then_do-returned :
      {A B : Type 0} (p : Outcome A × W) (next : A → Run W B) {b : B}
      → (then_do p next).0 ≡ returned b
      → (a : A) × (v : W) × (p ≡ (returned a, v)) × ((next a v).0 ≡ returned b)
  then_do-returned (returned a, v) next h = (a, v, refl, h)
  then_do-returned (raised e, v) next h = cc
  then_do-returned (diox_error c, v) next h = cc

  -- A method that returns went through its first step.
  pub >>=-returned :
      {A B : Type 0} (w : W) (m : Run W A) (next : A → Run W B) {b : B}
      → ((m >>= next) w).0 ≡ returned b
      → (a : A) × (v : W) × (m w ≡ (returned a, v)) × ((next a v).0 ≡ returned b)
  unfolding ◌>>=◌
  >>=-returned w m next h = then_do-returned (m w) next h

  pub lift-returned :
      {A : Type 0} (w : W) (r : Result A) {a : A} {v : W}
      → lift r w ≡ (returned a, v)
      → (r ≡ ok a) × (w ≡ v)
  lift-returned w (ok x) h = (cc, cc)
  lift-returned w (err e) h = let no = ap (λ p. p.0) h in cc
