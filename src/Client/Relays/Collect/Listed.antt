-- ===== src/Client/Relays/Collect/Listed.antt =====
-- What `get_all_relay_transactions` lists, on a node that does not change while it is asked.
use dioxide_python.Prelude.{
  ℕ, zero, suc, ◌+◌, ◌≤◌, ◌≡◌, refl, sym, ◌∙◌, ap, ◌⊎◌, ◌↔◌, inl, inr, Bool, true, some, List, [],
  ◌∷◌, ◌++◌, append-nil, append_assoc, arith,
}
use dioxide_python.Text.Case.{Unicode}
use dioxide_python.Gcl.Value.{Value, Entries}
use dioxide_python.Client.{returned, Service, ◌>>=◌}
use dioxide_python.Client.Relays.{is_tx_confirmed_with_relays}
use dioxide_python.Client.Relays.Collect.{collect, collect_if, get_all_relay_transactions}
use mathlib.Core.List.{Memᴰ}
use mathlib.Core.List.Memᴰ
use mathlib.Core.Path.{subst}
use dioxide_python.Client.Relays.Collect.Kids.{
  Kid, txs, seen_of, AreKids, collect_relays_lem, AreKids-eq,
}

module _ {ℓ} {W : Type ℓ} (unicode : Unicode) (service : Service W) (detail : Bool) (w : W) where
  -- What stands for a relay of the transaction, or of a relayed one, at any depth.
  pub data Listed : Entries → Value → Type ℓ where
    relay :
        {tx : Entries} (k : Kid) (ks : List Kid)
        → AreKids unicode service detail w tx ks
        → Memᴰ k ks
        → Listed tx k.1
    deeper :
        {tx : Entries} {v : Value} (k : Kid) (ks : List Kid)
        → AreKids unicode service detail w tx ks
        → Memᴰ k ks
        → Listed k.0 v
        → Listed tx v

  -- Relays that form a finite tree of `n` transactions.
  mutual
    pub data Tree : Entries → ℕ → Type ℓ where
      node :
          {tx : Entries} {n : ℕ} (ks : List Kid)
          → AreKids unicode service detail w tx ks
          → Forest (txs ks) n
          → Tree tx (suc n)

    pub data Forest : List Entries → ℕ → Type ℓ where
      empty : Forest [] 0
      more :
          {tx : Entries} {q : List Entries} {m n : ℕ}
          → Tree tx m
          → Forest q n
          → Forest (tx ∷ q) (m + n)

  -- A queue that is put together.
  Forest-append : (q r : List Entries) {m n : ℕ} → Forest q m → Forest r n → Forest (q ++ r) (m + n)
  Forest-append [] r {n = n} empty f = let e : 0 + n ≡ n = omega arith in rw e f
  Forest-append (tx ∷ q) r {n} (more {m = a} {n = b} t fs) f =
      let whole : a + (b + n) ≡ a + b + n = omega arith in
      rw (← whole) (more t (Forest-append q r fs f))

  -- What is listed for some transaction of a queue.
  abbrev ListedFrom : List Entries → Value → Type ℓ
  ListedFrom q v = (tx : Entries) × Memᴰ tx q × Listed tx v

  listed_first :
      (tx : Entries) (v : Value) (ks : List Kid)
      → AreKids unicode service detail w tx ks
      → Listed tx v
      → Memᴰ v (seen_of ks) ⊎ ListedFrom (txs ks) v
  listed_first tx v ks kids (relay k ls kids' among) =
      let same = AreKids-eq unicode service detail w tx ls ks kids' kids in
      inl (Memᴰ.map (λ k. k.1) (rw same at among))
  listed_first tx v ks kids (deeper k ls kids' among l) =
      let same = AreKids-eq unicode service detail w tx ls ks kids' kids in
      inr (k.0, Memᴰ.map (λ k. k.0) (rw same at among), l)

  -- One transaction of the queue is replaced by its relays.
  step :
      (tx : Entries) (ks : List Kid) (q : List Entries) (out : List Value)
      → AreKids unicode service detail w tx ks
      → ((v : Value) → Memᴰ v out ↔ ListedFrom (q ++ txs ks) v)
      → (v : Value) → Memᴰ v (seen_of ks ++ out) ↔ ListedFrom (tx ∷ q) v
  step tx ks q out kids rest v = (to, from)
    where
      to : Memᴰ v (seen_of ks ++ out) → ListedFrom (tx ∷ q) v
      to m = elim (Memᴰ.append_cases (seen_of ks) m) [
        | inl here ↦
            let (k, among, e) = Memᴰ.of_map (λ k. k.1) ks here in
            (tx, Memᴰ.head refl, subst (λ x. Listed tx x) e (relay k ks kids among))
        | inr later ↦
            let (t, m', l) = (rest v).0 later in
            elim (Memᴰ.append_cases q m') [
              | inl left ↦ (t, Memᴰ.tail left, l)
              | inr right ↦
                  let (k, among, e) = Memᴰ.of_map (λ k. k.0) ks right in
                  (tx, Memᴰ.head refl, deeper k ks kids among (subst (λ x. Listed x v) (sym e) l))
            ]
      ]

      mine : Listed tx v → Memᴰ v (seen_of ks ++ out)
      mine l = elim (listed_first tx v ks kids l) [
        | inl here ↦ Memᴰ.append_left out here
        | inr (t, m, l') ↦
            Memᴰ.append_right (seen_of ks) ((rest v).1 (t, Memᴰ.append_right q m, l'))
      ]

      from : ListedFrom (tx ∷ q) v → Memᴰ v (seen_of ks ++ out)
      from (t, Memᴰ.head e, l) = mine (subst (λ x. Listed x v) e l)
      from (t, Memᴰ.tail m, l) =
          Memᴰ.append_right (seen_of ks) ((rest v).1 (t, Memᴰ.append_left (txs ks) m, l))

  none_listed : (v : Value) → Memᴰ v [] ↔ ListedFrom [] v
  none_listed v = (λ m. absurd (Memᴰ.not-nil m), λ l. absurd (Memᴰ.not-nil l.1))

  -- On a finite forest the loop returns, with fuel for each transaction in it.
  collect_lem :
      (fuel : ℕ) (q : List Entries) (n : ℕ) (res : List Value)
      → Forest q n
      → n ≤ fuel
      → (out : List Value) × (collect unicode service detail fuel q res w
          ≡ (returned (res ++ out), w))
        × ((v : Value) → Memᴰ v out ↔ ListedFrom q v)
  unfolding collect ◌>>=◌
  collect_lem fuel [] n res f le = ([], rw (append-nil res) refl, none_listed)
  collect_lem zero (tx ∷ q) n res (more (node _ _ _) _) le = absurd (omega (arith, le))
  collect_lem (suc fuel) (tx ∷ q) n res (more {n = b} (node {n = a} ks kids fs) rest) le =
      let (hs, eh, fetched_) = kids in
      let (out, e, listed) =
        collect_lem fuel (q ++ txs ks) (b + a) (res ++ seen_of ks)
          (Forest-append q (txs ks) rest fs) (omega (arith, le)) in
      (
        seen_of ks ++ out,
        rw (eh, collect_relays_lem unicode service detail w hs ks q res fetched_)
            (e ∙ ap (λ r. (returned r, w)) (append_assoc res (seen_of ks) out)),
        step tx ks q out kids listed,
      )

  -- On a node that does not change while it is asked, for a confirmed transaction whose relays
  -- form a finite tree: with fuel for each transaction in the tree, `get_all_relay_transactions`
  -- returns a list, and in it is exactly what stands for a relay of the transaction, or of a relayed
  -- one, at any depth.
  pub get_all_relay_transactions-Listed :
      (fuel : ℕ) (tx : Entries) (n : ℕ)
      → is_tx_confirmed_with_relays unicode service fuel tx w ≡ (returned true, w)
      → Tree tx n
      → n ≤ fuel
      → (res : List Value) × (get_all_relay_transactions unicode service fuel detail tx w
          ≡ (returned (some res), w))
        × ((v : Value) → Memᴰ v res ↔ Listed tx v)
  unfolding get_all_relay_transactions collect_if ◌>>=◌
  get_all_relay_transactions-Listed fuel tx n confirmed tree le =
      let (res, e, listed) =
        collect_lem fuel (tx ∷ []) (n + 0) [] (more tree empty) (omega (arith, le)) in
      (
        res,
        rw (confirmed, e) refl,
        λ v. (λ m. only ((listed v).0 m), λ l. (listed v).1 (tx, Memᴰ.head refl, l)),
      )
    where
      only : {v : Value} → ListedFrom (tx ∷ []) v → Listed tx v
      only {v} (t, m, l) = subst (λ x. Listed x v) (Memᴰ.eq_of_singleton m) l
