-- ===== src/Keeper/Settings/Rights.antt =====
-- About the rights that a change of settings asks for under the default policy.
use cosmwasgo.Base.{
  ◌≡◌, refl, ap, ◌∙◌, true, false, not, [], Option, none, some, String, arith, bytes_eq,
  bytes_eq_iff, bytes_eq_refl, Option-cases, inl, inr,
}
use cosmwasgo.Base.Outcome.{
  Error, wrap, Outcome, ok, err, panic, is_ok, Outcome-cases, continue, fail_if, pure, ◌>>◌,
}
use cosmwasgo.Vm.{Bytes}
use cosmwasgo.Policy.{is_actor, Policy, default_policy, can_modify_contract}
use cosmwasgo.Sdk.{GasMeter}
use cosmwasgo.Keeper.State.{
  err_unauthorized, Store, ContractInfo, admin_addr, render_address, store_contract_info,
}
use cosmwasgo.Keeper.Host.{Host, State}
use cosmwasgo.Keeper.Settings.{modifiable, set_contract_admin, set_contract_label}

-- the guard of the default policy passes for the caller alone
passes :
    {S A : Type 0} (r : Outcome (Option Bytes)) (caller : Bytes) (x : A) (e : Error) (s : S)
    → is_ok
        (continue r
          (λ admin. fail_if (not (can_modify_contract default_policy admin caller)) e >> pure x)
          s).0
      ≡ true
    → r ≡ ok (some caller)
unfolding can_modify_contract
passes (ok none) caller x e s k = cc
passes (ok (some a)) caller x e s k = ground (arith, bytes_eq_iff a caller)
passes (err y) caller x e s k = cc
passes (panic p) caller x e s k = cc

stored :
    (addr : Bytes) (info : ContractInfo) (s : Store)
    → (store_contract_info addr info s).contracts addr ≡ some info
stored addr info s = rw (bytes_eq_refl addr)

module _ (G : GasMeter) {E : Type 0} (h : Host G E) where
  modifiable_state :
      (addr caller : Bytes) (policy : Policy) (c : State G E)
      → (modifiable G h addr caller policy c).1 ≡ c
  unfolding modifiable
  modifiable_state addr caller policy c = ground arith

  modifiable_ok :
      (addr caller : Bytes) (c : State G E) {info : ContractInfo}
      → (modifiable G h addr caller default_policy c).0 ≡ ok info
      → (c.store.wasm.contracts addr ≡ some info) × (admin_addr h.sdk info ≡ ok (some caller))
  unfolding modifiable can_modify_contract
  modifiable_ok addr caller c {info} e = elim (Option-cases (c.store.wasm.contracts addr)) [
    | inl x ↦ ground arith
    | inr (i, x) ↦ ground (
      arith,
      passes (admin_addr h.sdk i) caller i (wrap err_unauthorized "can not modify contract") c,
    )
  ]

  -- Under the default policy a change of the admin is accepted only from the admin of a contract that
  -- exists, and then only the admin of that contract changes.
  pub set_contract_admin_default :
      (addr caller : Bytes) (new_admin : Option Bytes) (c : State G E)
      → (set_contract_admin G h addr caller new_admin default_policy c).0 ≡ ok tt
      → (info : ContractInfo) × (c.store.wasm.contracts addr ≡ some info)
        × (admin_addr h.sdk info ≡ ok (some caller))
        × ((set_contract_admin G h addr caller new_admin default_policy c).1.store.wasm
            ≡ store_contract_info addr
                (record info { admin = render_address h.sdk new_admin })
                c.store.wasm)
  unfolding set_contract_admin
  set_contract_admin_default addr caller new_admin c e =
      elim (Outcome-cases (modifiable G h addr caller default_policy c).0) [
        | inl (info, ran) ↦
            let (found, admin) = modifiable_ok addr caller c ran in
            (info, found, admin, ground (arith, modifiable_state addr caller default_policy c))
        | inr other ↦ ground arith
      ]

  -- The text of an address reads back as that address, and is not empty.
  abbrev pub RoundTrips : Option Bytes → Type 0
  RoundTrips none = Unit {0}
  RoundTrips (some a) =
      (h.sdk.parse (h.sdk.render a) ≡ ok a) × (bytes_eq (h.sdk.render a) [] ≡ false)

  admin_addr-render :
      (info : ContractInfo) (a : Option Bytes)
      → RoundTrips a
      → admin_addr h.sdk (record info { admin = render_address h.sdk a }) ≡ ok a
  unfolding admin_addr
  admin_addr-render info none r = refl
  admin_addr-render info (some a) r = rw (r.1, r.0, admin_addr)

  label_by :
      (addr x : Bytes) (label : String) (a : Option Bytes) (c : State G E) (info : ContractInfo)
      → c.store.wasm.contracts addr ≡ some info
      → admin_addr h.sdk info ≡ ok a
      → is_ok (set_contract_label G h addr x label default_policy c).0 ≡ is_actor a x
  unfolding set_contract_label modifiable can_modify_contract
  label_by addr x label a c info e k = ground arith

  -- Once the admin was changed, exactly the new admin may change the contract under the default
  -- policy, and nobody where the admin was cleared: setting a label succeeds for no other actor.
  pub admin_handover :
      (addr caller x : Bytes) (new_admin : Option Bytes) (label : String) (c : State G E)
      → RoundTrips new_admin
      → (set_contract_admin G h addr caller new_admin default_policy c).0 ≡ ok tt
      → is_ok
          (set_contract_label G h addr x label default_policy
            (set_contract_admin G h addr caller new_admin default_policy c).1).0
        ≡ is_actor new_admin x
  admin_handover addr caller x new_admin label c rt e =
      let (info, found, admin, after) = set_contract_admin_default addr caller new_admin c e in
      let c' = (set_contract_admin G h addr caller new_admin default_policy c).1 in
      let info' : ContractInfo = record info { admin = render_address h.sdk new_admin } in
      label_by addr x label new_admin c' info'
        (ap (λ (s : Store). s.contracts addr) after ∙ stored addr info' c.store.wasm)
        (admin_addr-render info new_admin rt)
