-- ===== src/Client/Local/Described.antt =====
-- The parts of `compose_transaction_local` in client/dioxclient.py find what was asked for.
use dioxide_python.Prelude.{
  ap, ℕ, ◌≡◌, refl, ◌∙◌, sym, Bool, true, false, Option, none, some, [], ◌∷◌, if◌then◌else◌,
}
use dioxide_python.Prelude.Int.{ℤ, pos, negsuc}
use dioxide_python.Prelude.Result.{Result, ok, err}
use dioxide_python.Bytes.{Bytes}
use dioxide_python.Text.{Text, codes}
use dioxide_python.Text.Case.{Unicode}
use dioxide_python.Text.Split.{split}
use dioxide_python.Gcl.Value.{Value, Entries, int, as_int}
use dioxide_python.Address.{DioxAddress, set_delegatee_from_string, dapp}
use dioxide_python.Account.{Suite}
use dioxide_python.Contract.{
  ContractInvokeId, contract_id, contract_version_id, ContractId, ContractVersionId,
}
use dioxide_python.Transaction.{Log2, UnsignedTransaction, unsigned_transaction}
use dioxide_python.Client.Send.{code}
use dioxide_python.Client.{Outcome, returned, lift, Service, return, fail}
use dioxide_python.Client.Methods.{>>=-returned, lift-returned}
use dioxide_python.Client.Queries.{to_int}
use dioxide_python.Client.Interface.{Printed, function_of}
use mathlib.Core.Path.{subst}
use dioxide_python.Client.Local.{
  Sender, by_address, by_account, LocalOptions, id_of, opcode_of, natural, natural_of, delegatee_of,
  invoke_id,
}
use dioxide_python.Client.Local.Asked.{call_of, IsId, IsDelegatee, IsAsked}
use dioxide_python.Client.Local.Target.{invoke_id-IsInvoked, unsigned-IsTarget, err_ne_ok}

natural_of-some : (z : Option ℤ) (n : ℕ) → natural_of z ≡ ok n → z ≡ some (pos n)
unfolding natural_of natural
natural_of-some none n h = cc
natural_of-some (some (pos m)) n h = cc
natural_of-some (some (negsuc m)) n h = cc

natural-pos : (z : ℤ) (n : ℕ) → natural z ≡ ok n → z ≡ pos n
unfolding natural
natural-pos (pos m) n h = cc
natural-pos (negsuc m) n h = cc

failed : {A : Type 0} {v : Value} {a : A} → Outcome.diox_error v ≡ returned a → ⊥
failed h = cc

module _ {ℓ} {W : Type ℓ} (unicode : Unicode) (suite : Suite) (printed : Printed) (log2 : Log2)
    (import_time : ℕ) (service : Service W) where
  id_of-IsId :
      (key : Text) (info : Entries) (n : ℕ)
      → id_of unicode suite printed log2 import_time service key info ≡ ok n
      → IsId unicode suite printed log2 import_time service key info n
  unfolding id_of
  id_of-IsId key info n h = number (service.attribute key info) refl h
    where
      read :
          (v : Value) (r : Result ℤ)
          → to_int unicode v ≡ r
          → elim r [ err e ↦ err e | ok z ↦ natural z ] ≡ ok n
          → to_int unicode v ≡ ok (pos n)
      read v (err e) e₁ h = absurd (err_ne_ok h)
      read v (ok z) e₁ h = e₁ ∙ ap ok (natural-pos z n h)

      number :
          (r : Result Value)
          → service.attribute key info ≡ r
          → elim r [
            | err e ↦ err e
            | ok v ↦ elim (to_int unicode v) [ err e ↦ err e | ok z ↦ natural z ]
          ]
            ≡ ok n
          → IsId unicode suite printed log2 import_time service key info n
      number (err e) e₁ h = absurd (err_ne_ok h)
      number (ok v) e₁ h = (v, e₁, read v (to_int unicode v) refl h)

  delegatee_of-IsDelegatee :
      (is : Bool) (sender : Sender) (w : W) (d : Option Bytes)
      → (delegatee_of unicode suite printed log2 import_time service is sender w).0 ≡ returned d
      → IsDelegatee unicode suite printed log2 import_time service is sender d
  unfolding delegatee_of
  delegatee_of-IsDelegatee false sender w d h = cc
  delegatee_of-IsDelegatee true (by_account b) w d h = cc
  delegatee_of-IsDelegatee true (by_address s) w d h =
      let set =
        set_delegatee_from_string unicode suite.codecs s (record { bytes_ = none; type_ = dapp }) in
      let (r, w₁, e, h₁) = >>=-returned w (lift set) _ h in
      named r.0 r.1 w₁ (lift-returned w set e).0 h₁
    where
      named :
          (valid : Bool) (a : DioxAddress) (w₁ : W)
          → set_delegatee_from_string unicode suite.codecs s
              (record { bytes_ = none; type_ = dapp })
            ≡ ok (valid, a)
          → ((if valid then return a.bytes_ else fail (code 10004)) w₁).0 ≡ returned d
          → IsDelegatee unicode suite printed log2 import_time service true (by_address s) d
      named true a w₁ e h = (a, e, cc)
      named false a w₁ e h = absurd (failed h)

  -- The function that is named, in the description that was given if there is one.
  pub record IsDescribed (function : Text) (o : LocalOptions) (cid : ContractId)
      (version : ContractVersionId) (function_info : Entries) : Type 0 where
    pub dapp_name : Text
    pub contract_name : Text
    pub function_name : Text
    pub contract_info : Entries
    pub contract_value : ℕ
    pub version_value : ℕ
    pub parts_ : split b'.' function ≡ dapp_name ∷ contract_name ∷ function_name ∷ []
    pub given_ : (info : Entries) → o.contract_info ≡ some info → contract_info ≡ info
    pub found_ : function_of printed service function_name contract_info ≡ ok (some function_info)
    pub contract_ :
        IsId unicode suite printed log2 import_time service
          (codes "ContractID")
          contract_info
          contract_value
    pub version_ :
        IsId unicode suite printed log2 import_time service
          (codes "ContractVersionID")
          contract_info
          version_value
    pub contract_id_ : contract_id contract_value none none none ≡ ok cid
    pub version_id_ : contract_version_id version_value none none none none ≡ ok version

  pub found-IsDescribed :
      (function : Text) (o : LocalOptions) (d c f : Text) (info function_info : Entries)
      (contract_value version_value : ℕ) (cid : ContractId) (version : ContractVersionId)
      → split b'.' function ≡ d ∷ c ∷ f ∷ []
      → ((i : Entries) → o.contract_info ≡ some i → info ≡ i)
      → id_of unicode suite printed log2 import_time service (codes "ContractID") info
        ≡ ok contract_value
      → id_of unicode suite printed log2 import_time service (codes "ContractVersionID") info
        ≡ ok version_value
      → contract_id contract_value none none none ≡ ok cid
      → contract_version_id version_value none none none none ≡ ok version
      → function_of printed service f info ≡ ok (some function_info)
      → IsDescribed function o cid version function_info
  found-IsDescribed function o d c f info function_info contract_value version_value cid version
        parts given ec ev hc hv found =
      record {
        dapp_name = d;
        contract_name = c;
        function_name = f;
        contract_info = info;
        contract_value = contract_value;
        version_value = version_value;
        parts_ = parts;
        given_ = given;
        found_ = found;
        contract_ = id_of-IsId (codes "ContractID") info contract_value ec;
        version_ = id_of-IsId (codes "ContractVersionID") info version_value ev;
        contract_id_ = hc;
        version_id_ = hv;
      }

  opcode_of-read :
      (info : Entries) (n : ℕ)
      → opcode_of unicode suite printed log2 import_time service info ≡ ok n
      → (v : Value) × (service.box_get (codes "Opcode") (int (pos 0)) info ≡ ok v)
        × (as_int v ≡ some (pos n))
  unfolding opcode_of
  opcode_of-read info n h = number (service.box_get (codes "Opcode") (int (pos 0)) info) refl h
    where
      number :
          (r : Result Value)
          → service.box_get (codes "Opcode") (int (pos 0)) info ≡ r
          → elim r [ err e ↦ err e | ok v ↦ natural_of (as_int v) ] ≡ ok n
          → (v : Value) × (service.box_get (codes "Opcode") (int (pos 0)) info ≡ ok v)
            × (as_int v ≡ some (pos n))
      number (err e) e₁ h = absurd (err_ne_ok h)
      number (ok v) e₁ h = (v, e₁, natural_of-some (as_int v) n h)

  -- What is described and what is made of it are what was asked for.
  pub described-IsAsked :
      (sender : Sender) (function : Text) (o : LocalOptions) (cid : ContractId)
      (version : ContractVersionId) (function_info : Entries) (invoked : ContractInvokeId)
      (opcode timestamp version_ : ℕ) (delegatee : Option Bytes) (w : W) (tx : UnsignedTransaction)
      → IsDescribed function o cid version function_info
      → opcode_of unicode suite printed log2 import_time service function_info ≡ ok opcode
      → invoke_id cid version ≡ ok invoked
      → (delegatee_of unicode suite printed log2 import_time service o.is_delegatee sender w).0
        ≡ returned delegatee
      → unsigned_transaction invoked opcode version_ timestamp delegatee ≡ ok tx
      → IsAsked unicode suite printed log2 import_time service sender function o (call_of tx)
  described-IsAsked sender function o cid version function_info invoked opcode timestamp version_
        delegatee w tx d ho hi hd made =
      let (value, read, is) = opcode_of-read function_info opcode ho in
      let (eo, ed, t) = unsigned-IsTarget invoked opcode version_ timestamp delegatee tx made in
      record {
        dapp_name = d.dapp_name;
        contract_name = d.contract_name;
        function_name = d.function_name;
        parts_ = d.parts_;
        contract_info = d.contract_info;
        given_ = d.given_;
        function_info = function_info;
        found_ = d.found_;
        value = value;
        read_ = read;
        opcode_ = is ∙ ap (λ n. some (pos n)) (sym eo);
        contract_value = d.contract_value;
        version_value = d.version_value;
        contract_ = d.contract_;
        version_ = d.version_;
        invoked = invoked;
        invoked_ =
            invoke_id-IsInvoked d.contract_value d.version_value cid version invoked d.contract_id_
              d.version_id_ hi;
        target_ = t;
        delegatee_ =
            subst (IsDelegatee unicode suite printed log2 import_time service o.is_delegatee sender)
              (sym ed) (delegatee_of-IsDelegatee o.is_delegatee sender w delegatee hd);
      }
