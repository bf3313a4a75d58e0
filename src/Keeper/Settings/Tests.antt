-- ===== src/Keeper/Settings/Tests.antt =====
-- The settings changed on a store with one contract and one code.
use cosmwasgo.Base.{ℕ, ◌≡◌, refl, [], ◌∷◌, none, some, bytes_eq, ◌==◌, if◌then◌else◌}
use cosmwasgo.Base.Outcome.{ok, is_ok}
use cosmwasgo.Vm.{Bytes}
use cosmwasgo.Access.{allow_everybody, allow_nobody}
use cosmwasgo.Policy.{default_policy, is_actor, can_modify_contract, can_modify_code_access_config}
use cosmwasgo.Access.{type_is_subset}
use cosmwasgo.Sdk.Concrete.{basic_meter}
use cosmwasgo.Keeper.State.{Store, ContractInfo, CodeInfo, admin_addr, store_contract_info}
use cosmwasgo.Keeper.Host.{State}
use cosmwasgo.Keeper.Concrete.{plain_host, plain_bech32, empty_store, context}
use cosmwasgo.Keeper.Settings.{
  modifiable, set_contract_admin, set_contract_label, set_access_config,
}
use cosmwasgo.Keeper.Settings.Rights.{set_contract_admin_default, admin_handover}
use cosmwasgo.Keeper.Settings.Changes.{
  access, apply, SameLife, identity_of, origin_of, refused_change, change_frame,
}

abbrev one_contract : ContractInfo
one_contract = record {
  code_id = 1;
  creator = 10 ∷ [];
  admin = 10 ∷ [];
  label = "one";
  created = record { block_height = 5; tx_index = 3 };
  ibc_port = [];
  extension = none;
}

abbrev one_code : CodeInfo
one_code = record { code_hash = 9 ∷ []; creator = 10 ∷ []; instantiate_config = allow_everybody }

abbrev small_store : Store
small_store = record empty_store {
  contracts = λ a. if bytes_eq a (20 ∷ []) then some one_contract else none;
  codes = λ i. if i == 1 then some one_code else none;
}

abbrev c0 : State basic_meter ℕ
c0 = context small_store

set_contract_admin_default_example :
    (info : ContractInfo) × (small_store.contracts (20 ∷ []) ≡ some info)
    × (admin_addr plain_bech32 info ≡ ok (some (10 ∷ [])))
    × ((set_contract_admin basic_meter plain_host
          (20 ∷ [])
          (10 ∷ [])
          (some (11 ∷ []))
          default_policy
          c0).1.store.wasm
        ≡ store_contract_info (20 ∷ []) (record info { admin = 11 ∷ [] }) small_store)
unfolding set_contract_admin modifiable can_modify_contract admin_addr
set_contract_admin_default_example =
    set_contract_admin_default basic_meter plain_host (20 ∷ []) (10 ∷ []) (some (11 ∷ [])) c0 refl

admin_handover_example :
    is_ok
      (set_contract_label basic_meter plain_host
        (20 ∷ [])
        (11 ∷ [])
        "two"
        default_policy
        (set_contract_admin basic_meter plain_host
          (20 ∷ [])
          (10 ∷ [])
          (some (11 ∷ []))
          default_policy
          c0).1).0
    ≡ is_actor (some (11 ∷ [])) (11 ∷ [])
unfolding set_contract_admin modifiable can_modify_contract admin_addr
admin_handover_example =
    admin_handover basic_meter plain_host (20 ∷ []) (10 ∷ []) (11 ∷ []) (some (11 ∷ [])) "two" c0
      (refl, refl) refl

-- a stranger may not open the code
refused_change_example :
    (apply basic_meter plain_host (access 1 (11 ∷ []) allow_nobody default_policy) c0).1.store.wasm
    ≡ small_store
unfolding apply set_access_config can_modify_code_access_config type_is_subset
refused_change_example =
    refused_change basic_meter plain_host (access 1 (11 ∷ []) allow_nobody default_policy) c0 refl

change_frame_example :
    let closed = access 1 (10 ∷ []) allow_nobody default_policy in
    let after = (apply basic_meter plain_host closed c0).1.store.wasm in
    SameLife small_store after
    × ((a : Bytes) → identity_of (after.contracts a) ≡ identity_of (small_store.contracts a))
    × ((i : ℕ) → origin_of (after.codes i) ≡ origin_of (small_store.codes i))
change_frame_example =
    change_frame basic_meter plain_host (access 1 (10 ∷ []) allow_nobody default_policy) c0
