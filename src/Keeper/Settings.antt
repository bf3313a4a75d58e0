-- ===== src/Keeper/Settings.antt =====
-- The operations of the keeper that run no contract: setContractAdmin, setContractLabel,
-- setAccessConfig, setContractInfoExtension, pinCode, unpinCode and IsPinnedCode.
mod Tests
pub mod Rights
pub mod Changes
use cosmwasgo.Base.{
  ℕ, Bool, true, false, not, List, [], ◌∷◌, ◌++◌, Option, none, some, String, length, ◌==◌,
  if◌then◌else◌,
}
use cosmwasgo.Base.Outcome.{
  Error, registered, wrap, wrap_cause, Panic, Outcome, ok, err, panic, Exec, pure, fail, lift,
  fail_if, continue, ◌>>=◌, ◌>>◌,
}
use cosmwasgo.Vm.{Bytes, EventAttribute}
use cosmwasgo.Access.{
  Bech32, AccessType, AccessConfig, nobody, everybody, any_of_addresses, type_is_subset,
}
use cosmwasgo.Policy.{Policy, can_modify_contract, can_modify_code_access_config}
use cosmwasgo.Sdk.{GasMeter, Ctx, emit}
use cosmwasgo.Keeper.State.{
  Store, CodeInfo, ContractInfo, at_id, err_unauthorized, err_invalid_request, err_no_such_code,
  err_no_such_contract, store_code_info, store_contract_info, admin_addr, render_address,
}
use cosmwasgo.Keeper.Host.{
  Host, State, World, update_store, read_store, update_ext, attribute, new_event,
}

-- a value that is there, or the error
abbrev pub or_fail : {S A : Type 0} → Option A → Error → Exec S A
or_fail none e = fail e
or_fail (some a) e = pure a

-- AccessType.String
abbrev pub permission_text : AccessType → String
permission_text nobody = "Nobody"
permission_text everybody = "Everybody"
permission_text any_of_addresses = "AnyOfAddresses"
permission_text _ = "Unspecified"

-- AllAuthorizedAddresses
abbrev pub all_authorized_addresses : AccessConfig → List Bytes
all_authorized_addresses c = elim c.permission [
  | AccessType.unspecified ↦ []
  | nobody ↦ []
  | everybody ↦ []
  | any_of_addresses ↦ c.addresses
  | AccessType.unknown ↦ []
]

-- strings.Join with ","
abbrev pub join : List Bytes → Bytes
join [] = []
join (x ∷ []) = x
join (x ∷ y ∷ xs) = x ++ (b',' ∷ join (y ∷ xs))

-- `errorsmod.Wrap(e, err.Error())` on an error
abbrev pub wrapped : {A : Type 0} → Error → Outcome A → Outcome A
wrapped e (ok a) = ok a
wrapped e (err x) = err (wrap_cause e x)
wrapped e (panic p) = panic p

module _ (G : GasMeter) {E : Type 0} (h : Host G E) where
  -- the checks that setContractAdmin and setContractLabel begin with
  unfoldable pub modifiable : Bytes → Bytes → Policy → Exec (State G E) ContractInfo
  modifiable addr caller policy = do
    found ← read_store G (λ s. s.contracts addr)
    info ← or_fail found (wrap err_invalid_request "unknown contract")
    admin ← lift (admin_addr h.sdk info)
    fail_if (not (can_modify_contract policy admin caller))
        (wrap err_unauthorized "can not modify contract")
    pure info

  -- setContractAdmin; a nil address clears the admin
  unfoldable pub set_contract_admin :
      Bytes → Bytes → Option Bytes → Policy → Exec (State G E) (Unit {0})
  set_contract_admin addr caller new_admin policy = do
    info ← modifiable addr caller policy
    update_store G
        (store_contract_info addr (record info { admin = render_address h.sdk new_admin }))
    emit G (
        new_event "update_contract_admin" (
          attribute "_contract_address" (h.text (h.sdk.render addr))
          ∷ attribute "new_admin_address" (h.text (render_address h.sdk new_admin))
          ∷ [])
        ∷ [])

  -- setContractLabel
  unfoldable pub set_contract_label : Bytes → Bytes → String → Policy → Exec (State G E) (Unit {0})
  set_contract_label addr caller new_label policy = do
    info ← modifiable addr caller policy
    update_store G (store_contract_info addr (record info { label = new_label }))
    emit G (
        new_event "update_contract_label" (
          attribute "_contract_address" (h.text (h.sdk.render addr))
          ∷ attribute "new_label" new_label
          ∷ [])
        ∷ [])

  -- setContractInfoExtension, with the encoded extension or none, and what its own validation says
  unfoldable pub set_contract_info_extension :
      Bytes → Option Bytes → Outcome (Unit {0}) → Exec (State G E) (Unit {0})
  set_contract_info_extension addr ext valid = do
    found ← read_store G (λ s. s.contracts addr)
    info ← or_fail found err_no_such_contract
    lift valid
    update_store G (store_contract_info addr (record info { extension = ext }))

  -- sdk.MustAccAddressFromBech32
  abbrev pub must_parse : Bytes → Outcome Bytes
  must_parse t = elim (h.sdk.parse t) [
    | ok a ↦ ok a
    | err e ↦ panic (Panic.other "address")
    | panic p ↦ panic p
  ]

  -- the attributes of the event of setAccessConfig
  abbrev pub access_attributes : ℕ → AccessConfig → List EventAttribute
  access_attributes code_id config =
      let base =
        attribute "code_permission" (permission_text config.permission)
        ∷ attribute "code_id" (h.format_uint code_id)
        ∷ [] in
      let addrs = all_authorized_addresses config in
      if length addrs == 0
      then base
      else base ++ (attribute "authorized_addresses" (h.text (join addrs)) ∷ [])

  -- setAccessConfig
  unfoldable pub set_access_config : ℕ → Bytes → AccessConfig → Policy → Exec (State G E) (Unit {0})
  set_access_config code_id caller new_config policy = do
    found ← read_store G (λ s. s.codes code_id)
    info ← or_fail found err_no_such_code
    default ← read_store G (λ s. s.params.instantiate_default_permission)
    creator ← lift (must_parse info.creator)
    fail_if
        (not (
          can_modify_code_access_config policy (some creator) caller
            (type_is_subset new_config.permission default)))
        (wrap err_unauthorized "can not modify code access config")
    update_store G (store_code_info code_id (record info { instantiate_config = new_config }))
    emit G (new_event "update_code_access_config" (access_attributes code_id new_config) ∷ [])

  -- pinCode
  unfoldable pub pin_code : ℕ → Exec (State G E) (Unit {0})
  pin_code code_id = do
    found ← read_store G (λ s. s.codes code_id)
    info ← or_fail found err_no_such_code
    update_ext G
        (λ x. let (r, x') = h.pin info.code_hash x in (wrapped (registered "wasm" 18) r, x'))
    update_store G (λ s. record s { pinned = at_id s.pinned code_id true })
    emit G (new_event "pin_code" (attribute "code_id" (h.format_uint code_id) ∷ []) ∷ [])

  -- unpinCode
  unfoldable pub unpin_code : ℕ → Exec (State G E) (Unit {0})
  unpin_code code_id = do
    found ← read_store G (λ s. s.codes code_id)
    info ← or_fail found err_no_such_code
    update_ext G
        (λ x. let (r, x') = h.unpin info.code_hash x in (wrapped (registered "wasm" 19) r, x'))
    update_store G (λ s. record s { pinned = at_id s.pinned code_id false })
    emit G (new_event "unpin_code" (attribute "code_id" (h.format_uint code_id) ∷ []) ∷ [])
