-- ===== src/Client/Local/Offline.antt =====
-- Composing without the node: `compose_transaction_local` of client/dioxclient.py with a description
-- and an ISN.
use dioxide_python.Prelude.{
  ℕ, ◌≡◌, refl, Bool, true, false, Option, none, some, List, [], ◌∷◌, if◌then◌else◌,
}
use dioxide_python.Text.{Text}
use dioxide_python.Text.Split.{split}
use dioxide_python.Text.Case.{Unicode}
use dioxide_python.Gcl.Value.{Entries}
use dioxide_python.Account.{Suite}
use dioxide_python.Contract.{ContractId, ContractVersionId}
use dioxide_python.Transaction.{Log2}
use dioxide_python.Client.{Run, Service}
use dioxide_python.Client.Methods.{Same, >>=-Same}
use dioxide_python.Client.Interface.{Printed}
use dioxide_python.Client.Local.{
  Sender, by_address, by_account, LocalOptions, compose_call, compose_parts, compose_found,
  compose_transaction_local, info_of, delegatee_of, isn_of,
}

module _ {ℓ} {W : Type ℓ} (unicode : Unicode) (suite : Suite) (printed : Printed) (log2 : Log2)
    (import_time : ℕ) (service : Service W) where
  if-Same :
      {A : Type 0} (w : W) (b : Bool) (m n : Run W A)
      → Same w m
      → Same w n
      → Same w (if b then m else n)
  if-Same w true m n h k = h
  if-Same w false m n h k = k

  delegatee_of-Same :
      (b : Bool) (sender : Sender) (w : W)
      → Same w (delegatee_of unicode suite printed log2 import_time service b sender)
  unfolding delegatee_of
  delegatee_of-Same false sender w = refl
  delegatee_of-Same true (by_account b) w = refl
  delegatee_of-Same true (by_address s) w =
      >>=-Same w _ _ refl (λ found. if-Same w found.0 _ _ refl refl)

  isn_of-Same :
      (isn : Option ℕ) (n : ℕ) (sender : Sender) (w : W)
      → isn ≡ some n
      → Same w (isn_of unicode suite printed log2 import_time service isn sender)
  unfolding isn_of
  isn_of-Same none n sender w h = cc
  isn_of-Same (some _) n sender w h = refl

  info_of-Same :
      (info : Option Entries) (given : Entries) (d c : Text) (w : W)
      → info ≡ some given
      → Same w (info_of unicode suite printed log2 import_time service info d c)
  unfolding info_of
  info_of-Same none given d c w h = cc
  info_of-Same (some _) given d c w h = refl

  compose_call-Same :
      (sender : Sender) (args : Entries) (o : LocalOptions) (cid : ContractId)
      (version : ContractVersionId) (function_info : Entries) (n : ℕ) (w : W)
      → o.isn ≡ some n
      → Same w (
          compose_call unicode suite printed log2 import_time service sender args o cid version
            function_info)
  unfolding compose_call
  compose_call-Same sender args o cid version function_info n w h =
      >>=-Same w _ _ refl (λ signature. >>=-Same w _ _ refl (λ opcode.
        >>=-Same w _ _ refl (λ invoked.
          >>=-Same w _ _ (delegatee_of-Same o.is_delegatee sender w) (λ delegatee.
            >>=-Same w _ _ refl
              (λ tx. >>=-Same w _ _ (isn_of-Same o.isn n sender w h) (λ isn. refl))))))

  compose_found-Same :
      (sender : Sender) (args : Entries) (o : LocalOptions) (cid : ContractId)
      (version : ContractVersionId) (found : Option Entries) (n : ℕ) (w : W)
      → o.isn ≡ some n
      → Same w (
          compose_found unicode suite printed log2 import_time service sender args o cid version
            found)
  unfolding compose_found
  compose_found-Same sender args o cid version none n w h = refl
  compose_found-Same sender args o cid version (some function_info) n w h =
      compose_call-Same sender args o cid version function_info n w h

  compose_parts-Same :
      (sender : Sender) (args : Entries) (o : LocalOptions) (parts : List Text) (given : Entries)
      (n : ℕ) (w : W)
      → o.contract_info ≡ some given
      → o.isn ≡ some n
      → Same w (compose_parts unicode suite printed log2 import_time service sender args o parts)
  unfolding compose_parts
  compose_parts-Same sender args o (d ∷ c ∷ f ∷ []) given n w g h =
      >>=-Same w _ _ (info_of-Same o.contract_info given d c w g) (λ info.
        >>=-Same w _ _ refl (λ contract_value. >>=-Same w _ _ refl (λ version_value.
          >>=-Same w _ _ refl (λ cid. >>=-Same w _ _ refl (λ version.
            >>=-Same w _ _ refl
              (λ found. compose_found-Same sender args o cid version found n w h))))))
  compose_parts-Same sender args o [] given n w g h = refl
  compose_parts-Same sender args o (_ ∷ []) given n w g h = refl
  compose_parts-Same sender args o (_ ∷ _ ∷ []) given n w g h = refl
  compose_parts-Same sender args o (_ ∷ _ ∷ _ ∷ _ ∷ _) given n w g h = refl

  -- With a description of the contract and an ISN, `compose_transaction_local` calls nothing that
  -- changes the world, the node among them, whether it returns or raises.
  pub compose_transaction_local-Same :
      (sender : Sender) (function : Text) (args : Entries) (o : LocalOptions) (given : Entries)
      (n : ℕ) (w : W)
      → o.contract_info ≡ some given
      → o.isn ≡ some n
      → Same w (
          compose_transaction_local unicode suite printed log2 import_time service sender function
            args o)
  unfolding compose_transaction_local
  compose_transaction_local-Same sender function args o given n w g h =
      compose_parts-Same sender args o (split b'.' function) given n w g h
