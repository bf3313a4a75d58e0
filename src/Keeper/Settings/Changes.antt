-- ===== src/Keeper/Settings/Changes.antt =====
-- About the changes of settings of a contract or a code: their frame, and their refusals.
use cosmwasgo.Base.{
  ℕ, ◌≡◌, refl, sym, ap, ◌∙◌, false, Option, none, some, String, arith, bytes_eq, bytes_eq_iff,
  ◌==◌, ==_iff, Bool-cases, Option-cases, inl, inr,
}
use cosmwasgo.Base.Outcome.{Outcome, Exec, is_ok}
use cosmwasgo.Vm.{Bytes}
use cosmwasgo.Access.{AccessConfig}
use cosmwasgo.Policy.{Policy}
use cosmwasgo.Sdk.{GasMeter}
use cosmwasgo.Keeper.State.{
  Store, Position, CodeInfo, ContractInfo, store_code_info, store_contract_info, render_address,
}
use cosmwasgo.Keeper.Host.{Host, State}
use cosmwasgo.Keeper.Settings.{
  modifiable, set_contract_admin, set_contract_label, set_contract_info_extension,
  set_access_config, pin_code, unpin_code,
}

-- the calls of the operations, with their arguments
pub data Change : Type 0 where
  admin : Bytes → Bytes → Option Bytes → Policy → Change
  label : Bytes → Bytes → String → Policy → Change
  extension : Bytes → Option Bytes → Outcome (Unit {0}) → Change
  access : ℕ → Bytes → AccessConfig → Policy → Change
  pin unpin : ℕ → Change

-- the fields of the store that settings are no part of
pub record SameLife (a b : Store) : Type 0 where
  pub history : b.history ≡ a.history
  pub by_code : b.by_code ≡ a.by_code
  pub by_creator : b.by_creator ≡ a.by_creator
  pub contract_store : b.contract_store ≡ a.contract_store
  pub last_code_id : b.last_code_id ≡ a.last_code_id
  pub last_contract_id : b.last_contract_id ≡ a.last_contract_id
  pub params : b.params ≡ a.params

-- what of a contract and of a code is no setting
abbrev pub identity_of : Option ContractInfo → Option (ℕ × Bytes × Position × Bytes)
identity_of none = none
identity_of (some info) = some (info.code_id, info.creator, info.created, info.ibc_port)

abbrev pub origin_of : Option CodeInfo → Option (Bytes × Bytes)
origin_of none = none
origin_of (some info) = some (info.code_hash, info.creator)

-- a new record with the identity of the old one
pub store-identity_of :
    (addr : Bytes) (info info' : ContractInfo) (s : Store) (a : Bytes)
    → s.contracts addr ≡ some info
    → identity_of (some info') ≡ identity_of (some info)
    → identity_of ((store_contract_info addr info' s).contracts a) ≡ identity_of (s.contracts a)
store-identity_of addr info info' s a e k = elim (Bool-cases (bytes_eq a addr)) [
  | inl q ↦ rw q (
      k
      ∙ ap identity_of (sym e)
      ∙ ap (λ x. identity_of (s.contracts x)) (sym ((bytes_eq_iff a addr).0 q)))
  | inr q ↦ rw q refl
]

store-origin_of :
    (id : ℕ) (info info' : CodeInfo) (s : Store) (i : ℕ)
    → s.codes id ≡ some info
    → origin_of (some info') ≡ origin_of (some info)
    → origin_of ((store_code_info id info' s).codes i) ≡ origin_of (s.codes i)
store-origin_of id info info' s i e k = elim (Bool-cases (i == id)) [
  | inl q ↦
      rw q (k ∙ ap origin_of (sym e) ∙ ap (λ x. origin_of (s.codes x)) (sym ((==_iff i id).0 q)))
  | inr q ↦ rw q refl
]

module _ (G : GasMeter) {E : Type 0} (h : Host G E) where
  unfoldable pub apply : Change → Exec (State G E) (Unit {0})
  apply (admin addr caller new_admin p) = set_contract_admin G h addr caller new_admin p
  apply (label addr caller new_label p) = set_contract_label G h addr caller new_label p
  apply (extension addr ext valid) = set_contract_info_extension G h addr ext valid
  apply (access id caller config p) = set_access_config G h id caller config p
  apply (pin id) = pin_code G h id
  apply (unpin id) = unpin_code G h id

  -- A change of settings that ends with an error or a panic leaves the store of the keeper as it was.
  pub refused_change :
      (x : Change) (c : State G E)
      → is_ok (apply x c).0 ≡ false
      → (apply x c).1.store.wasm ≡ c.store.wasm
  unfolding apply set_contract_admin set_contract_label set_contract_info_extension
      set_access_config pin_code unpin_code modifiable
  refused_change (admin addr caller a p) c e = ground arith
  refused_change (label addr caller a p) c e = ground arith
  refused_change (extension addr ext valid) c e = ground arith
  refused_change (access id caller config p) c e = ground arith
  refused_change (pin id) c e = ground arith
  refused_change (unpin id) c e = ground arith

  change_life : (x : Change) (c : State G E) → SameLife c.store.wasm (apply x c).1.store.wasm
  unfolding apply set_contract_admin set_contract_label set_contract_info_extension
      set_access_config pin_code unpin_code modifiable
  change_life (admin addr caller a p) c = ground arith
  change_life (label addr caller a p) c = ground arith
  change_life (extension addr ext valid) c = ground arith
  change_life (access id caller config p) c = ground arith
  change_life (pin id) c = ground arith
  change_life (unpin id) c = ground arith

  change-identity_of :
      (x : Change) (c : State G E) (a : Bytes)
      → identity_of ((apply x c).1.store.wasm.contracts a) ≡ identity_of (c.store.wasm.contracts a)
  unfolding apply set_contract_admin set_contract_label set_contract_info_extension
      set_access_config pin_code unpin_code modifiable
  change-identity_of (admin addr caller b p) c a =
      elim (Option-cases (c.store.wasm.contracts addr)) [
        | inl n ↦ ground arith
        | inr (info, e) ↦ ground (
          arith,
          store-identity_of addr info (record info { admin = render_address h.sdk b }) c.store.wasm
              a e refl,
        )
      ]
  change-identity_of (label addr caller b p) c a =
      elim (Option-cases (c.store.wasm.contracts addr)) [
        | inl n ↦ ground arith
        | inr (info, e) ↦
            ground
              (arith, store-identity_of addr info (record info { label = b }) c.store.wasm a e refl)
      ]
  change-identity_of (extension addr ext valid) c a =
      elim (Option-cases (c.store.wasm.contracts addr)) [
        | inl n ↦ ground arith
        | inr (info, e) ↦ ground (
          arith,
          store-identity_of addr info (record info { extension = ext }) c.store.wasm a e refl,
        )
      ]
  change-identity_of (access id caller config p) c a = ground arith
  change-identity_of (pin id) c a = ground arith
  change-identity_of (unpin id) c a = ground arith

  change-origin_of :
      (x : Change) (c : State G E) (i : ℕ)
      → origin_of ((apply x c).1.store.wasm.codes i) ≡ origin_of (c.store.wasm.codes i)
  unfolding apply set_contract_admin set_contract_label set_contract_info_extension
      set_access_config pin_code unpin_code modifiable
  change-origin_of (admin addr caller b p) c i = ground arith
  change-origin_of (label addr caller b p) c i = ground arith
  change-origin_of (extension addr ext valid) c i = ground arith
  change-origin_of (access id caller config p) c i = elim (Option-cases (c.store.wasm.codes id)) [
    | inl n ↦ ground arith
    | inr (info, e) ↦ ground (
      arith,
      store-origin_of id info (record info { instantiate_config = config }) c.store.wasm i e refl,
    )
  ]
  change-origin_of (pin id) c i = ground arith
  change-origin_of (unpin id) c i = ground arith

  -- A change of settings, accepted or not, leaves the histories, the indexes, the storage of the
  -- contracts, the sequences and the parameters as they were, the code, the creator, the position of
  -- the birth and the port of every contract, and the checksum and the creator of every code.
  pub change_frame :
      (x : Change) (c : State G E)
      → SameLife c.store.wasm (apply x c).1.store.wasm
        × ((a : Bytes)
            → identity_of ((apply x c).1.store.wasm.contracts a)
              ≡ identity_of (c.store.wasm.contracts a))
        × ((i : ℕ)
            → origin_of ((apply x c).1.store.wasm.codes i) ≡ origin_of (c.store.wasm.codes i))
  change_frame x c = (change_life x c, change-identity_of x c, change-origin_of x c)
