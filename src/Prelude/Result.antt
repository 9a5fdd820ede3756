-- ===== src/Prelude/Result.antt =====
-- The outcome of code that may raise. The exception classes are those of utils/serializer.py and
-- the built-in ones that its calls of the standard library raise.
use mathlib.Core.Path.{◌≡◌, refl}
use mathlib.Core.Bool.{Bool, true, false}
use mathlib.Core.Logic.{◌⊎◌, inl, inr}
use mathlib.Core.List.{List, [], ◌∷◌}
use dioxide_python.Prelude.Lists.{All}

-- `not_bytes` stands for a call that returns its argument although that is no `bytes` object;
-- `out_of_fuel` has no counterpart in the program.
pub data Error : Type 0 where
  type_validation deserialization unsupported_type : Error
  overflow_error type_error value_error index_error key_error unicode_error struct_error : Error
  not_bytes assertion_error attribute_error zero_division out_of_fuel : Error

pub data Result {ℓ} (A : Type ℓ) : Type ℓ where
  ok : A → Result A
  err : Error → Result A

-- `if not test: raise e`
abbrev pub guard : Bool → Error → Result (Unit {0})
guard false e = err e
guard true e = ok tt

-- The code goes on with what was returned; an exception ends it.
infixl 5 ◌>>=◌ ◌>>◌
abbrev pub ◌>>=◌ {ℓ κ} : {A : Type ℓ} {B : Type κ} → Result A → (A → Result B) → Result B
err e >>= next = err e
ok a >>= next = next a

abbrev pub ◌>>◌ {ℓ} : {B : Type ℓ} → Result (Unit {0}) → Result B → Result B
test >> next = test >>= λ _. next

-- A loop that collects the result of `f` at each element, in order.
unfoldable pub map_result {ℓ κ} :
    {A : Type ℓ} {B : Type κ} → (A → Result B) → List A → Result (List B)
map_result f [] = ok []
map_result f (x ∷ xs) = do y ← f x; ys ← map_result f xs; ok (y ∷ ys)

-- Code that returned went through its first step, and the rest returned the same.
pub >>=-eq-ok {ℓ κ} :
    {A : Type ℓ} {B : Type κ} (first : Result A) (next : A → Result B) {b : B}
    → first >>= next ≡ ok b
    → (a : A) × (first ≡ ok a) × (next a ≡ ok b)
>>=-eq-ok (err e) next h = cc
>>=-eq-ok (ok a) next h = (a, refl, h)

-- Inversion of a test that did not raise.
pub guard-eq-ok {ℓ} :
    {B : Type ℓ} (t : Bool) (e : Error) (k : Result B) {b : B}
    → (guard t e >> k) ≡ ok b
    → (t ≡ true) × (k ≡ ok b)
guard-eq-ok true e k h = (refl, h)
guard-eq-ok false e k h = cc

-- Inversion of two steps that are put together.
pub bind₂-eq-ok {ℓ κ μ} :
    {A : Type ℓ} {B : Type κ} {C : Type μ} (m : Result A) (n : Result B) (f : A → B → C) {c : C}
    → (m >>= λ a. n >>= λ b. ok (f a b)) ≡ ok c
    → (a : A) × (b : B) × (m ≡ ok a) × (n ≡ ok b) × (c ≡ f a b)
bind₂-eq-ok (ok a) (ok b) f h = (a, b, refl, refl, cc)
bind₂-eq-ok (ok a) (err e) f h = cc
bind₂-eq-ok (err e) n f h = cc

-- What holds of each element for which the loop's step returns.
pub map_result-All {ℓ κ μ} :
    {A : Type ℓ} {B : Type κ} (P : A → Type μ) (f : A → Result B)
    → ((a : A) (b : B) → f a ≡ ok b → P a)
    → (xs : List A) {ys : List B} → map_result f xs ≡ ok ys
    → All P xs
unfolding map_result
map_result-All P f k [] h = tt
map_result-All P f k (x ∷ xs) h =
    let (y, ys, hy, hys, e) = bind₂-eq-ok (f x) (map_result f xs) (λ a b. a ∷ b) h in
    (k x y hy, map_result-All P f k xs hys)

-- Two continuations that do the same with what is returned.
pub >>=-cong {ℓ κ} :
    {A : Type ℓ} {B : Type κ} (m : Result A) (f g : A → Result B)
    → ((a : A) → m ≡ ok a → f a ≡ g a)
    → (m >>= f) ≡ (m >>= g)
>>=-cong (ok a) f g h = h a refl
>>=-cong (err e) f g h = refl

-- Code that raised did so in its first step or behind it.
pub >>=-eq-err {ℓ κ} :
    {A : Type ℓ} {B : Type κ} (first : Result A) (next : A → Result B) {e : Error}
    → first >>= next ≡ err e
    → (first ≡ err e) ⊎ ((a : A) × (first ≡ ok a) × (next a ≡ err e))
>>=-eq-err (ok a) next h = inr (a, refl, h)
>>=-eq-err (err x) next h = inl cc
