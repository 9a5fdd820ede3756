-- ===== src/Client/Wait/Polls.antt =====
-- The loop of `wait_for_transaction_confirmed` ends, and what it returns is what it found.
use dioxide_python.Prelude.{
  ℕ, zero, suc, ◌+◌, ◌-◌, ◌*◌, ◌≤◌, ◌<◌, ◌≡◌, refl, ◌∙◌, ap, ◌⊎◌, inl, inr, Bool, true, false,
  Bool-cases, none, ltb, le_or_lt, if◌then◌else◌, arith,
}
use dioxide_python.Text.Case.{Unicode}
use dioxide_python.Gcl.Value.{Value, Entries}
use dioxide_python.Client.{returned, Run, ◌>>=◌, Service}
use dioxide_python.Client.Relays.{get_transaction, is_tx_confirmed_with_relays}
use dioxide_python.Client.Wait.{one_second, wait_more, poll, wait_for_transaction_confirmed}

module _ {ℓ} {W : Type ℓ} (service : Service W) where
  -- The clock: sleeping moves it on, and asking does not move it back.
  pub record IsClock (check : Run W Bool) : Type ℓ where
    pub slept : (n : ℕ) (w : W) → service.time w + n ≤ service.time (service.sleep n w)
    pub asked : (w : W) → service.time w ≤ service.time ((check w).1)

  module _ (check : Run W Bool) (start timeout : ℕ) where
    -- The last round of a loop: it found what it waited for, or it did not and the time is over.
    abbrev pub Ended : Bool → W → Type ℓ
    Ended b w =
        ((b ≡ true) × ((v : W) × (check v ≡ (returned true, w))))
        ⊎ ((b ≡ false)
            × ((v : W) × (check v ≡ (returned false, w)))
            × (timeout < service.time w - start))

    -- One round that found nothing.
    round_false :
        (fuel : ℕ) (w v : W)
        → check w ≡ (returned false, v)
        → poll service check start timeout (suc fuel) w ≡ (
            if ltb timeout (service.time v - start)
            then (returned false, v)
            else poll service check start timeout fuel (service.sleep one_second v))
    unfolding poll wait_more ◌>>=◌
    round_false fuel w v e = rw e refl

    round_true :
        (fuel : ℕ) (w v : W)
        → check w ≡ (returned true, v)
        → poll service check start timeout (suc fuel) w ≡ (returned true, v)
    unfolding poll wait_more ◌>>=◌
    round_true fuel w v e = rw e refl

    -- The loop ends from here.
    abbrev Ends : ℕ → W → Type ℓ
    Ends rounds w =
        (b : Bool) × (v : W) × (poll service check start timeout rounds w ≡ (returned b, v))
        × Ended b v

    -- A round ends the loop, or leaves it in time.
    round-Ends :
        IsClock check
        → ((w : W) → (b : Bool) × (v : W) × (check w ≡ (returned b, v)))
        → (fuel : ℕ) (w : W)
        → ((v : W)
            → service.time w ≤ service.time v
            → service.time v - start ≤ timeout
            → Ends fuel (service.sleep one_second v))
        → Ends (suc fuel) w
    round-Ends clock answers fuel w again =
        let (b, v, e) = answers w in
        let asked = clock.asked w in
        let later : service.time w ≤ service.time v = rw (ap (λ p. p.1) e) at asked in
        elim (Bool-cases b) [
          | inl t ↦
              let e' : check w ≡ (returned true, v) = rw t at e in
              (true, v, round_true fuel w v e', inl (refl, (w, e')))
          | inr f ↦
              let e' : check w ≡ (returned false, v) = rw f at e in
              elim (le_or_lt (service.time v - start) timeout) [
                | inr over ↦
                    let past : ltb timeout (service.time v - start) ≡ true = ground arith in
                    (false, v, round_false fuel w v e' ∙ rw past refl, inr (refl, (w, e'), over))
                | inl in_time ↦
                    let not_past : ltb timeout (service.time v - start) ≡ false = ground arith in
                    let (b', u, ends, ended) = again v later in_time in
                    (b', u, round_false fuel w v e' ∙ rw not_past ends, ended)
              ]
        ]

    -- Where each check returns, the loop ends, with a round for each second of the timeout and one
    -- more.
    poll-Ends :
        IsClock check
        → ((w : W) → (b : Bool) × (v : W) × (check w ≡ (returned b, v)))
        → (fuel : ℕ) (w : W) → start ≤ service.time w
        → timeout < fuel * one_second + (service.time w - start)
        → Ends (suc fuel) w
    poll-Ends clock answers zero w le enough =
        round-Ends clock answers 0 w (λ v later in_time. absurd (omega arith))
    poll-Ends clock answers (suc fuel) w le enough =
        round-Ends clock answers (suc fuel) w (λ v later in_time.
          let slept = clock.slept one_second v in
          poll-Ends clock answers fuel (service.sleep one_second v) (omega arith) (omega arith))

module _ {ℓ} {W : Type ℓ} (unicode : Unicode) (service : Service W) where
  -- On a node that answers each check, with a clock that sleeping moves on and no request moves
  -- back, `wait_for_transaction_confirmed` returns, with a round for each second of the timeout
  -- and one more: true only if its last check found the transaction and its relays confirmed,
  -- false only if the last check did not and the timeout is over.
  pub wait_for_transaction_confirmed-Ended :
      (seconds fuel : ℕ) (tx_hash : Value) (timeout : ℕ) (tx : Entries) (w v : W)
      → get_transaction unicode service tx_hash none w ≡ (returned tx, v)
      → service.time w ≤ service.time v
      → IsClock service (is_tx_confirmed_with_relays unicode service fuel tx)
      → ((u : W)
          → (b : Bool) × (u' : W) × (is_tx_confirmed_with_relays unicode service fuel tx u
              ≡ (returned b, u')))
      → timeout < seconds * one_second
      → (b : Bool) × (u : W) × (wait_for_transaction_confirmed unicode service
            (suc seconds)
            fuel
            tx_hash
            timeout
            w
          ≡ (returned b, u))
        × Ended service
            (is_tx_confirmed_with_relays unicode service fuel tx)
            (service.time w)
            timeout
            b
            u
  unfolding wait_for_transaction_confirmed ◌>>=◌
  wait_for_transaction_confirmed-Ended seconds fuel tx_hash timeout tx w v e later clock answers
        lt =
      rw e (
        poll-Ends service (is_tx_confirmed_with_relays unicode service fuel tx) (service.time w)
          timeout clock answers seconds v later (omega (arith, lt, later)))
