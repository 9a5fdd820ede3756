-- ===== src/Client/Relays/Confirmed.antt =====
-- `is_tx_confirmed_with_relays` and `is_tx_success_with_relays`, on a node that does not change
-- while it is asked for transactions.
use dioxide_python.Prelude.{
  ℕ, ◌+◌, ◌≤◌, ◌≡◌, refl, sym, ◌∙◌, ap, ◌⊎◌, inl, inr, Bool, true, false, Option, none, some, List,
  [], ◌∷◌, All, arith,
}
use dioxide_python.Prelude.Result.{Result, ok}
use dioxide_python.Text.{codes}
use dioxide_python.Text.Case.{Unicode}
use dioxide_python.Gcl.Value.{Value, Entries, list, nil}
use dioxide_python.Client.{
  Outcome, returned, Service, ◌>>=◌, lift, fail, finish, call, make_request, call_in,
  error_response, item,
}
use dioxide_python.Client.Methods.{Same, >>=-Same, >>=-returned, lift-returned}
use dioxide_python.Client.Relays.{
  get_transaction, hash_and_shard, get_of, relays_of, normalize_all, relayed, visit, walk,
  is_tx_confirmed, is_tx_success, is_tx_confirmed_with_relays, is_tx_success_with_relays,
}
use dioxide_python.Client.Relays.Walk.{
  Answer, IsIn, Reach, Tree, empty, more, AllPass, SomeFails, walk_lem, walk-Forest,
}

module _ {ℓ} {W : Type ℓ} (unicode : Unicode) (service : Service W) (w : W) where
  -- Asking for a transaction leaves the world as it is.
  abbrev pub IsSteady : Type ℓ
  IsSteady = (params : Entries) → (service.request (codes "dx.transaction") params w).1 ≡ w

  call-Same : IsSteady → (params : Entries) → Same w (call service (codes "dx.transaction") params)
  unfolding call
  call-Same steady params = steady params

  make_request-Same :
      IsSteady → (params : Entries) → Same w (make_request service (codes "dx.transaction") params)
  unfolding make_request
  make_request-Same steady params =
      >>=-Same w _ _ (call-Same steady params)
        (λ response. >>=-Same w (lift (error_response response)) _ refl (λ e. finished response e))
    where
      finished : (response : Value) (e : Option Value) → Same w (finish service response e)
      finished response none = refl
      finished response (some code) =
          >>=-Same w (lift (item (codes "err") response)) (λ memo. fail code) refl (λ memo. refl)

  get_transaction-Same : IsSteady → (h : Value) → Same w (get_transaction unicode service h none)
  unfolding get_transaction
  get_transaction-Same steady h = >>=-Same w (lift (call_in (codes ":") h)) _ refl (λ has_colon.
      >>=-Same w (lift (hash_and_shard unicode h none has_colon)) _ refl
        (λ parts. >>=-Same w _ _ (make_request-Same steady _) (λ response. refl)))

  relays_of-Same : (tx : Entries) → Same w (relays_of service tx)
  unfolding relays_of
  relays_of-Same tx =
      >>=-Same w (lift (service.attribute (codes "Invocation") tx)) _ refl (λ invocation.
        >>=-Same w (lift (get_of service (codes "Relays") (list nil) invocation)) _ refl
          (λ relays. refl))

  relayed-Same : (b : Bool) (tx : Entries) → Same w (relayed unicode service b tx)
  unfolding relayed
  relayed-Same false tx = refl
  relayed-Same true tx =
      >>=-Same w (relays_of service tx) _ (relays_of-Same tx)
        (λ relays. >>=-Same w (lift (normalize_all unicode service relays)) _ refl (λ hashes. refl))

  visit-Same :
      IsSteady
      → (test : Option Entries → Result Bool) (h : Value) → Same w (visit unicode service test h)
  unfolding visit
  visit-Same steady test h =
      >>=-Same w (get_transaction unicode service h none) _ (get_transaction-Same steady h)
        (λ tx. >>=-Same w (lift (test (some tx))) _ refl (λ passes. relayed-Same passes tx))

  -- What a round answers in this world.
  abbrev pub answer_of : (Option Entries → Result Bool) → Answer
  answer_of test h = (visit unicode service test h w).0

  -- The transaction of a hash passes a test, or fails it.
  abbrev pub Tests : (Option Entries → Result Bool) → Bool → Value → Type ℓ
  Tests test b h =
      (tx : Entries) × (get_transaction unicode service h none w ≡ (returned tx, w))
      × (test (some tx) ≡ ok b)

  -- A walk from a hash: either each transaction that is reached over relays passes, or one that
  -- is reached does not.
  abbrev pub Decides : (Option Entries → Result Bool) → Value → Bool → Type ℓ
  Decides test root b =
      ((b ≡ true) × ((x : Value) → Reach (answer_of test) root x → Tests test true x))
      ⊎ ((b ≡ false) × ((x : Value) × Reach (answer_of test) root x × Tests test false x))

  -- Whether a round found the test passed.
  abbrev passed : Option (List Value) → Bool
  passed none = false
  passed (some _) = true

  relayed-passed :
      (b : Bool) (tx : Entries) (v : W) (r : Option (List Value))
      → (relayed unicode service b tx v).0 ≡ returned r
      → passed r ≡ b
  unfolding relayed
  relayed-passed false tx v r h = sym (ap of h)
    where
      of : Outcome (Option (List Value)) → Bool
      of (returned r') = passed r'
      of _ = false
  relayed-passed true tx v r h =
      let (relays, v₁, _, h₁) = >>=-returned v (relays_of service tx) _ h in
      let (hashes, v₂, _, h₂) =
        >>=-returned v₁ (lift (normalize_all unicode service relays)) _ h₁ in
      sym (ap of h₂)
    where
      of : Outcome (Option (List Value)) → Bool
      of (returned r') = passed r'
      of _ = true

  visit-Tests :
      IsSteady
      → (test : Option Entries → Result Bool) (h : Value) (r : Option (List Value))
      → answer_of test h ≡ returned r
      → Tests test (passed r) h
  unfolding visit
  visit-Tests steady test h r e =
      let (tx, v, et, e₁) = >>=-returned w (get_transaction unicode service h none) _ e in
      let (b, u, eb, e₂) = >>=-returned v (lift (test (some tx))) _ e₁ in
      let (eb', _) = lift-returned v (test (some tx)) eb in
      let same : v ≡ w = sym (ap (λ p. p.1) et) ∙ get_transaction-Same steady h in
      (tx, rw same at et, eb' ∙ ap ok (sym (relayed-passed b tx u r e₂)))

  walk-Decides :
      IsSteady
      → (test : Option Entries → Result Bool) (fuel : ℕ) (root : Value) (n : ℕ)
      → Tree (answer_of test) root n
      → n ≤ fuel
      → (b : Bool) × (walk unicode service test fuel (root ∷ []) w ≡ (returned b, w))
        × Decides test root b
  walk-Decides steady test fuel root n tree le =
      let round : (h : Value) → visit unicode service test h w ≡ (answer_of test h, w) =
        λ h. ap (λ v. (answer_of test h, v)) (visit-Same steady test h) in
      let (b, e) =
        walk-Forest unicode service test w (answer_of test) round fuel (root ∷ []) (n + 0)
          (more tree empty) (omega (arith, le)) in
      (
        b,
        e,
        decided b (walk_lem unicode service test w (answer_of test) round fuel (root ∷ []) b w e),
      )
    where
      decided :
          (b : Bool)
          → ((b ≡ true) × All (AllPass (answer_of test)) (root ∷ []))
            ⊎ ((b ≡ false) × ((k : Value) × IsIn k (root ∷ []) × SomeFails (answer_of test) k))
          → Decides test root b
      decided b (inl (t, (all, _))) =
          inl (t, λ x r. let (ks, e) = all x r in visit-Tests steady test x (some ks) e)
      decided b (inr (f, (k, inl same, (x, r, e)))) =
          inr (f, (x, rw (← same) r, visit-Tests steady test x none e))
      decided b (inr (f, (k, inr mem, _))) = elim mem [ ]

  -- On a node that does not change while it is asked, for a transaction whose relays form a finite
  -- tree that can be read, the walk returns with fuel for each transaction in the tree: with true
  -- if the transaction and all relays are confirmed, with false if one that it reaches over
  -- confirmed ones is not.
  pub is_tx_confirmed_with_relays-Decides :
      IsSteady
      → (fuel : ℕ) (tx : Entries) (root : Value) (n : ℕ)
      → service.attribute (codes "Hash") tx ≡ ok root
      → Tree (answer_of (is_tx_confirmed service)) root n
      → n ≤ fuel
      → (b : Bool) × (is_tx_confirmed_with_relays unicode service fuel tx w ≡ (returned b, w))
        × Decides (is_tx_confirmed service) root b
  unfolding is_tx_confirmed_with_relays ◌>>=◌
  is_tx_confirmed_with_relays-Decides steady fuel tx root n hash tree le =
      rw hash (walk-Decides steady (is_tx_confirmed service) fuel root n tree le)

  -- The same of `is_tx_success_with_relays`, for the status of the invocation of each transaction.
  pub is_tx_success_with_relays-Decides :
      IsSteady
      → (fuel : ℕ) (tx : Entries) (root : Value) (n : ℕ)
      → service.attribute (codes "Hash") tx ≡ ok root
      → Tree (answer_of (is_tx_success service)) root n
      → n ≤ fuel
      → (b : Bool) × (is_tx_success_with_relays unicode service fuel tx w ≡ (returned b, w))
        × Decides (is_tx_success service) root b
  unfolding is_tx_success_with_relays ◌>>=◌
  is_tx_success_with_relays-Decides steady fuel tx root n hash tree le =
      rw hash (walk-Decides steady (is_tx_success service) fuel root n tree le)
