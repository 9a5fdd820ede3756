-- ===== src/Client/Local/Finished.antt =====
-- What `compose_transaction_local` went through where it returned.
use dioxide_python.Prelude.{ap, ℕ, ◌≡◌, refl, ◌∙◌, Option, none, some, List, [], ◌∷◌}
use dioxide_python.Prelude.Int.{ℤ}
use dioxide_python.Prelude.Result.{Result, ok, err}
use dioxide_python.Bytes.{Bytes}
use dioxide_python.Text.{Text, codes}
use dioxide_python.Text.Split.{split}
use dioxide_python.Text.Case.{Unicode}
use dioxide_python.Gcl.Value.{Value, Entries}
use dioxide_python.Account.{Suite}
use dioxide_python.Contract.{
  ContractInvokeId, ContractId, ContractVersionId, contract_id, contract_version_id,
}
use dioxide_python.Transaction.{Log2, UnsignedTransaction, unsigned_transaction}
use dioxide_python.Client.{Outcome, returned, lift, Service}
use dioxide_python.Client.Methods.{>>=-returned, lift-returned}
use dioxide_python.Client.Interface.{Printed, function_of}
use dioxide_python.Client.Local.Asked.{call_of, IsAsked}
use dioxide_python.Client.Local.Described.{found-IsDescribed, IsDescribed, described-IsAsked}
use dioxide_python.Client.Local.{
  Sender, LocalOptions, default_version, invoke_id, finished, compose_call, compose_parts,
  compose_found, compose_transaction_local, id_of, local_signature, isn_of, opcode_of, info_of,
}

lift_value {ℓ} :
    {W : Type ℓ} {A : Type 0} (w : W) (r : Result A) {a : A} → (lift r w).0 ≡ returned a → r ≡ ok a
lift_value w (ok x) h = cc
lift_value w (err e) h = cc

not_returned : {A : Type 0} {v : Value} {a : A} → Outcome.diox_error v ≡ returned a → ⊥
not_returned h = cc

module _ {ℓ} {W : Type ℓ} (unicode : Unicode) (suite : Suite) (printed : Printed) (log2 : Log2)
    (import_time : ℕ) (service : Service W) where
  -- The transaction that was made, for the signature and the ISN that were found.
  pub record IsFinished (sender : Sender) (function : Text) (args : Entries) (o : LocalOptions)
      (bs : Bytes) : Type ℓ where
    pub function_info : Entries
    pub signature : Text
    pub invoked : ContractInvokeId
    pub opcode : ℕ
    pub delegatee : Option Bytes
    pub tx : UnsignedTransaction
    pub isn : ℤ
    pub world : W
    pub described :
        local_signature unicode suite printed log2 import_time service o.signature function_info
        ≡ ok signature
    pub asked_for :
        IsAsked unicode suite printed log2 import_time service sender function o (call_of tx)
    pub made : unsigned_transaction invoked opcode default_version import_time delegatee ≡ ok tx
    pub asked :
        (isn_of unicode suite printed log2 import_time service o.isn sender world).0 ≡ returned isn
    pub done :
        finished unicode suite printed log2 import_time service o signature args isn tx ≡ ok bs

  -- A description that was given is used.
  given_info :
      (given : Option Entries) (d c : Text) (w : W) {info : Entries}
      → (info_of unicode suite printed log2 import_time service given d c w).0 ≡ returned info
      → (i : Entries) → given ≡ some i
      → info ≡ i
  unfolding info_of
  given_info none d c w h i e = cc
  given_info (some x) d c w h i e = cc

  compose_call-IsFinished :
      (sender : Sender) (function : Text) (args : Entries) (o : LocalOptions) (cid : ContractId)
      (version : ContractVersionId) (function_info : Entries) (w : W) (bs : Bytes)
      → IsDescribed unicode suite printed log2 import_time service function o cid version
          function_info
      → (compose_call unicode suite printed log2 import_time service sender args o cid version
          function_info w).0
        ≡ returned bs
      → IsFinished sender function args o bs
  unfolding compose_call
  compose_call-IsFinished sender function args o cid version function_info w bs d h =
      let (signature, w₁, es, h₁) =
        >>=-returned w
          (lift (
            local_signature unicode suite printed log2 import_time service o.signature
              function_info))
          _ h in
      let (opcode, w₂, eo, h₂) =
        >>=-returned w₁
          (lift (opcode_of unicode suite printed log2 import_time service function_info)) _ h₁ in
      let (invoked, w₃, ev, h₃) = >>=-returned w₂ (lift (invoke_id cid version)) _ h₂ in
      let (delegatee, w₄, ed, h₄) = >>=-returned w₃ _ _ h₃ in
      let (tx, w₅, et, h₅) =
        >>=-returned w₄
          (lift (unsigned_transaction invoked opcode default_version import_time delegatee)) _ h₄ in
      let (isn, w₆, ei, h₆) = >>=-returned w₅ _ _ h₅ in
      record {
        function_info = function_info;
        signature = signature;
        invoked = invoked;
        opcode = opcode;
        delegatee = delegatee;
        tx = tx;
        isn = isn;
        world = w₅;
        described =
            (lift-returned w
              (local_signature unicode suite printed log2 import_time service o.signature
                function_info)
              es).0;
        asked_for =
            described-IsAsked unicode suite printed log2 import_time service sender function o cid
              version function_info invoked opcode import_time default_version delegatee w₃ tx d
              (lift-returned w₁
                (opcode_of unicode suite printed log2 import_time service function_info) eo).0
              (lift-returned w₂ (invoke_id cid version) ev).0 (ap (λ p. p.0) ed)
              (lift-returned w₄
                (unsigned_transaction invoked opcode default_version import_time delegatee) et).0;
        made =
            (lift-returned w₄
              (unsigned_transaction invoked opcode default_version import_time delegatee) et).0;
        asked = ap (λ p. p.0) ei;
        done =
            lift_value w₆
              (finished unicode suite printed log2 import_time service o signature args isn tx) h₆;
      }

  compose_found-IsFinished :
      (sender : Sender) (function : Text) (args : Entries) (o : LocalOptions) (cid : ContractId)
      (version : ContractVersionId) (found : Option Entries) (w : W) (bs : Bytes)
      → ((function_info : Entries)
          → found ≡ some function_info
          → IsDescribed unicode suite printed log2 import_time service function o cid version
              function_info)
      → (compose_found unicode suite printed log2 import_time service sender args o cid version
          found w).0
        ≡ returned bs
      → IsFinished sender function args o bs
  unfolding compose_found
  compose_found-IsFinished sender function args o cid version none w bs d h =
      absurd (not_returned h)
  compose_found-IsFinished sender function args o cid version (some function_info) w bs d h =
      compose_call-IsFinished sender function args o cid version function_info w bs
        (d function_info refl) h

  compose_parts-IsFinished :
      (sender : Sender) (function : Text) (args : Entries) (o : LocalOptions) (parts : List Text)
      (w : W) (bs : Bytes)
      → split b'.' function ≡ parts
      → (compose_parts unicode suite printed log2 import_time service sender args o parts w).0
        ≡ returned bs
      → IsFinished sender function args o bs
  unfolding compose_parts
  compose_parts-IsFinished sender function args o [] w bs parts h = absurd (not_returned h)
  compose_parts-IsFinished sender function args o (_ ∷ []) w bs parts h = absurd (not_returned h)
  compose_parts-IsFinished sender function args o (_ ∷ _ ∷ []) w bs parts h =
      absurd (not_returned h)
  compose_parts-IsFinished sender function args o (_ ∷ _ ∷ _ ∷ _ ∷ _) w bs parts h =
      absurd (not_returned h)
  compose_parts-IsFinished sender function args o (d ∷ c ∷ f ∷ []) w bs parts h =
      let (info, w₁, ei, h₁) = >>=-returned w _ _ h in
      let (contract_value, w₂, ec, h₂) =
        >>=-returned w₁
          (lift (id_of unicode suite printed log2 import_time service (codes "ContractID") info)) _
          h₁ in
      let (version_value, w₃, ev, h₃) =
        >>=-returned w₂
          (lift
            (id_of unicode suite printed log2 import_time service (codes "ContractVersionID") info))
          _ h₂ in
      let (cid, w₄, ecid, h₄) =
        >>=-returned w₃ (lift (contract_id contract_value none none none)) _ h₃ in
      let (version, w₅, ever, h₅) =
        >>=-returned w₄ (lift (contract_version_id version_value none none none none)) _ h₄ in
      let (found, w₆, ef, h₆) = >>=-returned w₅ (lift (function_of printed service f info)) _ h₅ in
      compose_found-IsFinished sender function args o cid version found w₆ bs
        (λ function_info is.
          found-IsDescribed unicode suite printed log2 import_time service function o d c f info
            function_info contract_value version_value cid version parts
            (given_info o.contract_info d c w (ap (λ p. p.0) ei))
            (lift-returned w₁
              (id_of unicode suite printed log2 import_time service (codes "ContractID") info) ec).0
            (lift-returned w₂
              (id_of unicode suite printed log2 import_time service (codes "ContractVersionID")
                info)
              ev).0
            (lift-returned w₃ (contract_id contract_value none none none) ecid).0
            (lift-returned w₄ (contract_version_id version_value none none none none) ever).0
            ((lift-returned w₅ (function_of printed service f info) ef).0 ∙ ap ok is))
        h₆

  pub compose_transaction_local-IsFinished :
      (sender : Sender) (function : Text) (args : Entries) (o : LocalOptions) (w : W) (bs : Bytes)
      → (compose_transaction_local unicode suite printed log2 import_time service sender function
          args o w).0
        ≡ returned bs
      → IsFinished sender function args o bs
  unfolding compose_transaction_local
  compose_transaction_local-IsFinished sender function args o w bs h =
      compose_parts-IsFinished sender function args o (split b'.' function) w bs refl h
