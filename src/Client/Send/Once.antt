-- ===== src/Client/Send/Once.antt =====
-- What `send_transaction` sends, on every run.
use dioxide_python.Prelude.{
  ℕ, ◌≡◌, refl, ◌∙◌, ◌⊎◌, inl, inr, Bool, true, false, Option, none, some, [], ◌∷◌, ◌++◌,
}
use dioxide_python.Prelude.Result.{Result, ok, err}
use dioxide_python.Bytes.{Bytes}
use dioxide_python.Text.{Text, codes}
use dioxide_python.Text.Case.{Unicode}
use dioxide_python.Gcl.Value.{Value, Entries, str, end}
use dioxide_python.Account.{Suite, DioxAccount, account_value}
use dioxide_python.Account.Sign.{sign, sign_diox_transaction}
use dioxide_python.Account.Signed.{IsProven, sign_diox_transaction-IsProven}
use dioxide_python.Client.{Outcome, returned, raised, diox_error, ◌>>=◌, then_do, lift, Service}
use dioxide_python.Client.Queries.{update}
use dioxide_python.Client.Send.{
  Options, compose_transaction, sender_address, compose_sender, finish_send, send_raw_transaction,
  send_signed, send_transaction,
}
use dioxide_python.Client.Send.Logged.{Log, logged, sends, Quiet, >>=-sends, >>=-Quiet, if-Quiet}
use dioxide_python.Client.Send.Quiet.{
  make_request-sends, make_request-Quiet, wait_for_transaction_confirmed-Quiet,
}

-- A text that is sent: the base64 of a transaction, signed by the account, with its proof of work.
pub record IsSigned (suite : Suite) (user : DioxAccount) (unsigned : Bytes) (params : Entries)
    : Type 0 where
  pub out : Bytes
  pub sig : Bytes
  pub payload : Bytes
  pub pk : Bytes
  pub text : params ≡ update end (codes "txdata") (str (suite.b64encode out))
  pub public : user.public_key ≡ some pk
  pub layout : payload ≡ unsigned ++ ((account_value user.account_type ∷ []) ++ pk)
  pub signature : sign suite user payload ≡ some sig
  pub proven : IsProven suite (payload ++ sig) out

module _ {ℓ} {W : Type ℓ} (unicode : Unicode) (suite : Suite) (service : Service W) where
  finish_send-Quiet :
      (rounds fuel : ℕ) (sync : Bool) (timeout : ℕ) (tx_hash : Value)
      → Quiet (finish_send unicode suite (logged service) rounds fuel sync timeout tx_hash)
  unfolding finish_send
  finish_send-Quiet rounds fuel false timeout tx_hash = λ s. refl
  finish_send-Quiet rounds fuel true timeout tx_hash =
      >>=-Quiet _ _
        (wait_for_transaction_confirmed-Quiet unicode service rounds fuel tx_hash timeout)
        (λ confirmed. if-Quiet confirmed _ _ (λ s. refl) (λ s. refl))

  -- One transaction.
  send_raw-sends :
      (rounds fuel : ℕ) (out : Bytes) (sync : Bool) (timeout : ℕ) (s : W × Log)
      → sends
          ((send_raw_transaction unicode suite (logged service) rounds fuel out sync timeout s).1.1)
        ≡ update end (codes "txdata") (str (suite.b64encode out)) ∷ sends s.1
  unfolding send_raw_transaction sends
  send_raw-sends rounds fuel out sync timeout s =
      >>=-sends _ _
        (λ response.
          >>=-Quiet _ _ (λ s. refl) (λ tx_hash. finish_send-Quiet rounds fuel sync timeout tx_hash))
        s
      ∙ make_request-sends service (codes "tx.send") _ s

  compose_transaction-Quiet :
      (sender : Value) (function : Text) (args : Value) (is_delegatee : Bool) (o : Options)
      → Quiet (compose_transaction suite (logged service) sender function args is_delegatee o)
  unfolding compose_transaction
  compose_transaction-Quiet sender function args is_delegatee o =
      >>=-Quiet _ _ (make_request-Quiet service (codes "tx.compose") _ refl)
        (λ response. >>=-Quiet _ _ (λ s. refl) (λ tx_data s. refl))

  -- Nothing was sent, or one signed transaction.
  abbrev pub SentOnce : Bytes → DioxAccount → Log → Type 0
  SentOnce unsigned user log =
      (sends log ≡ [])
      ⊎ ((params : Entries) × (sends log ≡ params ∷ []) × IsSigned suite user unsigned params)

  signed-SentOnce :
      (rounds fuel : ℕ) (user : DioxAccount) (sync : Bool) (timeout : ℕ) (unsigned : Bytes)
      (s : W × Log) (o : Option Bytes)
      → sends s.1 ≡ []
      → sign_diox_transaction suite user unsigned ≡ o
      → SentOnce unsigned user
          ((send_signed unicode suite (logged service) rounds fuel sync timeout o s).1.1)
  unfolding send_signed
  signed-SentOnce rounds fuel user sync timeout unsigned s none clean e = inl clean
  signed-SentOnce rounds fuel user sync timeout unsigned s (some out) clean e =
      let (pk, sig, payload, public, layout, signature, proven) =
        sign_diox_transaction-IsProven suite user unsigned out e in
      inr (
        update end (codes "txdata") (str (suite.b64encode out)),
        send_raw-sends rounds fuel out sync timeout s ∙ rw clean refl,
        record {
          out = out;
          sig = sig;
          payload = payload;
          pk = pk;
          text = refl;
          public = public;
          layout = layout;
          signature = signature;
          proven = proven;
        },
      )

  -- What a run of `send_transaction` from `start` sent.
  abbrev pub SendsOnce :
      DioxAccount → Text → Value → Options → Bool → Option Value → W × Log → Log → Type ℓ
  SendsOnce user function args o is_delegatee delegatee start log =
      (sends log ≡ [])
      ⊎ ((addr : Text) × (unsigned : Bytes) × (s : W × Log) × (params : Entries) × (sender_address
              suite (logged service) user
            ≡ ok addr)
          × (compose_transaction suite (logged service)
                (compose_sender suite (logged service) addr is_delegatee delegatee).0 function args
                (compose_sender suite (logged service) addr is_delegatee delegatee).1 o start
              ≡ (returned unsigned, s))
          × (sends log ≡ params ∷ [])
          × IsSigned suite user unsigned params)

  module _ (rounds fuel : ℕ) (user : DioxAccount) (function : Text) (args : Value) (o : Options)
      (is_delegatee : Bool) (delegatee : Option Value) (sync : Bool) (timeout : ℕ) (w : W) where
    composed-SendsOnce :
        (addr : Text) (p : Outcome Bytes × (W × Log))
        → sender_address suite (logged service) user ≡ ok addr
        → compose_transaction suite
            (logged service)
            (compose_sender suite (logged service) addr is_delegatee delegatee).0
            function
            args
            (compose_sender suite (logged service) addr is_delegatee delegatee).1
            o
            (w, [])
          ≡ p
        → sends p.1.1 ≡ []
        → SendsOnce user function args o is_delegatee delegatee
            (w, [])
            ((then_do p (λ unsigned.
              send_signed unicode suite
                (logged service)
                rounds
                fuel
                sync
                timeout
                (sign_diox_transaction suite user unsigned))).1.1)
    composed-SendsOnce addr (raised e, s) ea h clean = inl clean
    composed-SendsOnce addr (diox_error c, s) ea h clean = inl clean
    composed-SendsOnce addr (returned unsigned, s) ea h clean =
        elim (signed-SentOnce rounds fuel user sync timeout unsigned s
          (sign_diox_transaction suite user unsigned) clean refl) [
            | inl none_sent ↦ inl none_sent
            | inr (params, one, signed) ↦ inr (addr, unsigned, s, params, ea, h, one, signed)
          ]

    found-SendsOnce :
        (r : Result Text)
        → sender_address suite (logged service) user ≡ r
        → SendsOnce user function args o is_delegatee delegatee
            (w, [])
            ((then_do (lift r (w, [])) (λ addr.
              compose_transaction suite
                (logged service)
                (compose_sender suite (logged service) addr is_delegatee delegatee).0
                function
                args
                (compose_sender suite (logged service) addr is_delegatee delegatee).1
                o
              >>= λ unsigned.
                  send_signed unicode suite
                    (logged service)
                    rounds
                    fuel
                    sync
                    timeout
                    (sign_diox_transaction suite user unsigned))).1.1)
    unfolding ◌>>=◌ sends
    found-SendsOnce (err e) ea = inl refl
    found-SendsOnce (ok addr) ea = composed-SendsOnce addr _ ea refl (
        compose_transaction-Quiet
          (compose_sender suite (logged service) addr is_delegatee delegatee).0 function args
          (compose_sender suite (logged service) addr is_delegatee delegatee).1 o (w, []))

    -- On every run, whether it returns, raises or waits in vain, the requests "tx.send" of
    -- `send_transaction` are none or one. The one has the base64 text of a transaction that is the
    -- unsigned one which `compose_transaction`, called first and for the delegatee or the account's
    -- own address, returned, signed by the account, with the first three nonces that pass the
    -- difficulty.
    pub send_transaction-SendsOnce :
        SendsOnce user function args o is_delegatee delegatee
          (w, [])
          ((send_transaction unicode suite
            (logged service)
            rounds
            fuel
            user
            function
            args
            o
            is_delegatee
            delegatee
            sync
            timeout
            (w, [])).1.1)
    unfolding send_transaction ◌>>=◌
    send_transaction-SendsOnce = found-SendsOnce (sender_address suite (logged service) user) refl
