-- ===== src/Client/Relays/Walk.antt =====
-- The walk over relayed transactions, on any node that does not change while it is asked.
use dioxide_python.Prelude.{
  ℕ, zero, suc, ◌+◌, ◌≤◌, ◌≡◌, refl, sym, ◌∙◌, ap, ◌⊎◌, inl, inr, Bool, true, false, Option, none,
  some, List, [], ◌∷◌, ◌++◌, All, All-split, arith,
}
use dioxide_python.Prelude.Result.{Result, Error}
use dioxide_python.Text.Case.{Unicode}
use dioxide_python.Gcl.Value.{Value, Entries}
use dioxide_python.Client.{Outcome, returned, raised, diox_error, Service, ◌>>=◌}
use dioxide_python.Client.Relays.{visit, walk}

-- What a round answers for a hash.
abbrev pub Answer : Type 0
Answer = Value → Outcome (Option (List Value))

-- The hash is in the list.
abbrev pub IsIn : Value → List Value → Type 0
IsIn h [] = ⊥
IsIn h (k ∷ ks) = (h ≡ k) ⊎ IsIn h ks

-- The hashes that are reached from a root over relays of transactions that passed.
pub data Reach (answer : Answer) (root : Value) : Value → Type 0 where
  here : Reach answer root root
  relay :
      {h k : Value} {ks : List Value}
      → Reach answer root h
      → answer h ≡ returned (some ks)
      → IsIn k ks
      → Reach answer root k

-- A finite tree of relays of `n` transactions: one that fails has no branches, as the walk ends.
mutual
  pub data Tree (answer : Answer) : Value → ℕ → Type 0 where
    failing : {h : Value} → answer h ≡ returned none → Tree answer h 1
    passing :
        {h : Value} {ks : List Value} {n : ℕ}
        → answer h ≡ returned (some ks)
        → Forest answer ks n
        → Tree answer h (suc n)

  pub data Forest (answer : Answer) : List Value → ℕ → Type 0 where
    empty : Forest answer [] 0
    more :
        {h : Value} {ks : List Value} {m n : ℕ}
        → Tree answer h m
        → Forest answer ks n
        → Forest answer (h ∷ ks) (m + n)

-- Each hash that is reached passes.
abbrev pub AllPass : Answer → Value → Type 0
AllPass answer root =
    (x : Value) → Reach answer root x → (ks : List Value) × (answer x ≡ returned (some ks))

-- Some hash that is reached fails.
abbrev pub SomeFails : Answer → Value → Type 0
SomeFails answer root = (x : Value) × Reach answer root x × (answer x ≡ returned none)

module _ (answer : Answer) where
  Forest-append :
      (q ks : List Value) {m n : ℕ}
      → Forest answer q m
      → Forest answer ks n
      → Forest answer (q ++ ks) (m + n)
  Forest-append [] ks {n = n} empty f = let e : 0 + n ≡ n = omega arith in rw e f
  Forest-append (h ∷ q) ks {n} (more {m = a} {n = b} t fs) f =
      let whole : a + (b + n) ≡ a + b + n = omega arith in
      rw (← whole) (more t (Forest-append q ks fs f))

  -- What is reached is the root, or is reached from one of its relays.
  first_step :
      {root x : Value} (ks : List Value)
      → answer root ≡ returned (some ks)
      → Reach answer root x
      → (x ≡ root) ⊎ ((k : Value) × IsIn k ks × Reach answer k x)
  first_step ks e here = inl refl
  first_step {root} {x} ks e (relay {h} {ks = hs} r eh mem) = elim (first_step ks e r) [
    | inl same ↦
        let lists : hs ≡ ks = lists_agree (sym eh ∙ ap answer same ∙ e) in
        inr (x, rw lists at mem, here)
    | inr (k, m, r') ↦ inr (k, m, relay r' eh mem)
  ]
    where
      lists_agree : {ps rs : List Value} → returned (some ps) ≡ returned (some rs) → ps ≡ rs
      lists_agree e' = cc

  All-IsIn : (P : Value → Type 0) (ks : List Value) (k : Value) → IsIn k ks → All P ks → P k
  All-IsIn P [] k m all = elim m [ ]
  All-IsIn P (h ∷ ks) k (inl e) (p, ps) = rw e p
  All-IsIn P (h ∷ ks) k (inr m) (p, ps) = All-IsIn P ks k m ps

  pass_on :
      (h : Value) (ks : List Value)
      → answer h ≡ returned (some ks)
      → All (AllPass answer) ks
      → AllPass answer h
  pass_on h ks e all x r = elim (first_step ks e r) [
    | inl same ↦ (ks, ap answer same ∙ e)
    | inr (k, m, r') ↦ All-IsIn (AllPass answer) ks k m all x r'
  ]

-- What a round can answer.
answer_cases :
    (o : Outcome (Option (List Value)))
    → ((e : Error) × (o ≡ raised e))
      ⊎ ((c : Value) × (o ≡ diox_error c))
      ⊎ (o ≡ returned none)
      ⊎ ((ks : List Value) × (o ≡ returned (some ks)))
answer_cases (raised e) = inl (e, refl)
answer_cases (diox_error c) = inr (inl (c, refl))
answer_cases (returned none) = inr (inr (inl refl))
answer_cases (returned (some ks)) = inr (inr (inr (ks, refl)))

module _ {ℓ} {W : Type ℓ} (unicode : Unicode) (service : Service W)
    (test : Option Entries → Result Bool) (w : W) (answer : Answer)
    (round : (h : Value) → visit unicode service test h w ≡ (answer h, w)) where
  -- The result of a walk from the hashes of a queue.
  abbrev Walked : List Value → Bool → Type 0
  Walked q b =
      ((b ≡ true) × All (AllPass answer) q)
      ⊎ ((b ≡ false) × ((k : Value) × IsIn k q × SomeFails answer k))

  fails_later :
      (h : Value) (q ks : List Value) (b : Bool)
      → answer h ≡ returned (some ks)
      → Walked (q ++ ks) b
      → Walked (h ∷ q) b
  fails_later h q ks b e (inl (t, all)) =
      let (left, right) = All-split (AllPass answer) q ks all in
      inl (t, (pass_on answer h ks e right, left))
  fails_later h q ks b e (inr (f, (k, mem, (x, r, bad)))) = inr (f, split_in q mem)
    where
      extend : {y : Value} → IsIn k ks → Reach answer k y → Reach answer h y
      extend m here = relay here e m
      extend m (relay r' e' m') = relay (extend m r') e' m'

      skip : (i j : Value) (q : List Value) → IsIn i (h ∷ q) → IsIn i (h ∷ j ∷ q)
      skip i j q (inl same) = inl same
      skip i j q (inr m) = inr (inr m)

      split_in :
          (q : List Value) → IsIn k (q ++ ks) → (j : Value) × IsIn j (h ∷ q) × SomeFails answer j
      split_in [] m = (h, inl refl, (x, extend m r, bad))
      split_in (j ∷ q) (inl same) = (k, inr (inl same), (x, r, bad))
      split_in (j ∷ q) (inr m) = let (i, at, fails) = split_in q m in (i, skip i j q at, fails)

  -- A walk that returns true reached only transactions that pass, and one that returns false
  -- reached one that fails.
  pub walk_lem :
      (fuel : ℕ) (q : List Value) (b : Bool) (w' : W)
      → walk unicode service test fuel q w ≡ (returned b, w')
      → Walked q b
  unfolding walk ◌>>=◌
  walk_lem fuel [] b w' h = inl (sym (ap flag h), tt)
    where
      flag : Outcome Bool × W → Bool
      flag (returned c, _) = c
      flag (raised _, _) = false
      flag (diox_error _, _) = false
  walk_lem zero (h ∷ q) b w' e = cc
  walk_lem (suc fuel) (h ∷ q) b w' e = elim (answer_cases (answer h)) [
    | inl (x, ex) ↦ let e' = rw (round h, ex) at e in cc
    | inr (inl (c, ec)) ↦ let e' = rw (round h, ec) at e in cc
    | inr (inr (inl en)) ↦ let e' = rw (round h, en) at e in inr (cc, (h, inl refl, (h, here, en)))
    | inr (inr (inr (ks, es))) ↦
        let e' = rw (round h, es) at e in fails_later h q ks b es (walk_lem fuel (q ++ ks) b w' e')
  ]

  -- On a finite forest the walk returns, with fuel for each transaction in it.
  pub walk-Forest :
      (fuel : ℕ) (q : List Value) (n : ℕ)
      → Forest answer q n
      → n ≤ fuel
      → (b : Bool) × (walk unicode service test fuel q w ≡ (returned b, w))
  unfolding walk ◌>>=◌
  walk-Forest fuel [] n f le = (true, refl)
  walk-Forest zero (h ∷ q) n (more (failing _) _) le = absurd (omega (arith, le))
  walk-Forest zero (h ∷ q) n (more (passing _ _) _) le = absurd (omega (arith, le))
  walk-Forest (suc fuel) (h ∷ q) n (more (failing en) _) le = (false, rw (round h, en) refl)
  walk-Forest (suc fuel) (h ∷ q) n (more {n = k} (passing {ks} {n = m} es fs) f) le =
      let (b, e) =
        walk-Forest fuel (q ++ ks) (k + m) (Forest-append answer q ks f fs) (omega (arith, le)) in
      (b, rw (round h, es) e)
