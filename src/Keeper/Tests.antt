-- ===== src/Keeper/Tests.antt =====
-- The keeper run on inputs.
use cosmwasgo.Base.{ℕ, ◌≡◌, refl, [], ◌∷◌, none, some}
use cosmwasgo.Vm.{Bytes}
use cosmwasgo.Gas.{to_wasm_vm_gas, from_wasm_vm_gas}
use cosmwasgo.Policy.{default_policy}
use cosmwasgo.Sdk.Concrete.{basic_meter}
use cosmwasgo.Keeper.State.{
  Store, append_to_contract_history, add_to_contract_creator_index, add_to_contract_code_index,
}
use cosmwasgo.Keeper.Host.{State}
use cosmwasgo.Keeper.Concrete.{plain_host, empty_store, plain_values, context}
use cosmwasgo.Keeper.Entry.Isolation.{same-Keeps, entry_points_keep}
use cosmwasgo.Keeper.Instantiate.{Order, instantiate}
use cosmwasgo.Keeper.Index.{IsConsistent}
use cosmwasgo.Keeper.Index.Reach.{at_genesis, by_call, upload, start, perform, Reached-IsConsistent}
use cosmwasgo.Keeper.Code.{create, authorize_upload, compile_upload, register_code, uncompress}
use cosmwasgo.Policy.{can_create_code}
use cosmwasgo.Access.{access_with, allowed, is_subset, validate_bech32_addresses}
use cosmwasgo.Keeper.Metering.{consume_runtime_gas, runtime_gas_for_contract}
use cosmwasgo.Base.Words.{take}
use cosmwasgo.Keeper.Code.Upload.{Registered, create_registers, create_refused}
use cosmwasgo.Vm.{Reply}
use cosmwasgo.Base.{sym, subst}
use cosmwasgo.Gas.{setup_contract_cost, event_costs, event_attribute_costs, event_costs_from}
use cosmwasgo.Policy.{can_instantiate_contract}
use cosmwasgo.Keeper.Host.{new_env}
use cosmwasgo.Keeper.Addresses.{classic_address_generator}
use cosmwasgo.Keeper.Instantiate.{launch, claim, settle, persist_instance}
use cosmwasgo.Keeper.Metering.{check_discount_eligibility}
use cosmwasgo.Keeper.Entry.{
  charge_setup, run_contract, call_vm, resolve, handle_contract_response, execute, sudo, reply,
}

abbrev no_reply : Reply
no_reply = record { id = 0; result = record { response = none; error = "" }; payload = [] }

abbrev alice : Bytes
alice = 10 ∷ []

abbrev birth : Order
birth = record {
  code_id = 1;
  creator = alice;
  admin = some alice;
  init_msg = 1 ∷ [];
  label = "one";
  deposit = [];
  policy = default_policy;
}

-- an upload, and a contract that is made of the code
abbrev uploaded : State basic_meter ℕ
uploaded =
    perform basic_meter plain_host (upload (some alice) (0 ∷ 1 ∷ []) none default_policy)
      (context empty_store)

abbrev born : State basic_meter ℕ
born = perform basic_meter plain_host (start plain_values birth) uploaded

upload_stores : (uploaded.store.wasm.last_code_id ≡ some 2) × (uploaded.meter.consumed ≡ 102)
unfolding perform create authorize_upload compile_upload register_code uncompress can_create_code
    access_with allowed is_subset consume_runtime_gas runtime_gas_for_contract to_wasm_vm_gas
    from_wasm_vm_gas validate_bech32_addresses take
upload_stores = (refl, refl)

born_once : (born.store.wasm.last_contract_id ≡ some 2) × (born.meter.consumed ≡ 60_104)
unfolding perform create authorize_upload compile_upload register_code uncompress can_create_code
    access_with allowed is_subset consume_runtime_gas runtime_gas_for_contract to_wasm_vm_gas
    from_wasm_vm_gas validate_bech32_addresses take instantiate launch claim settle charge_setup
    check_discount_eligibility setup_contract_cost can_instantiate_contract run_contract call_vm
    resolve new_env classic_address_generator handle_contract_response event_costs
    event_attribute_costs event_costs_from persist_instance append_to_contract_history
    add_to_contract_creator_index add_to_contract_code_index
born_once = (refl, refl)

Reached-IsConsistent_example : IsConsistent born.store.wasm
Reached-IsConsistent_example =
    Reached-IsConsistent basic_meter plain_host
      (λ w addr port msgs answer. same-Keeps basic_meter IsConsistent (λ c. refl)) born.store.wasm
      (by_call (start plain_values birth) uploaded (
        by_call (upload (some alice) (0 ∷ 1 ∷ []) none default_policy) (context empty_store) (
          at_genesis empty_store
            (record { contracts = λ a. refl; history = λ a. refl; by_code = λ i p a. refl }))))

create_registers_example :
    Registered plain_host.sdk default_policy alice none empty_store
      (create basic_meter plain_host
        (some alice)
        (0 ∷ 1 ∷ [])
        none
        default_policy
        (context empty_store)).1.store.wasm
      1
      (9 ∷ [])
unfolding create authorize_upload compile_upload register_code uncompress can_create_code
    access_with allowed is_subset consume_runtime_gas runtime_gas_for_contract to_wasm_vm_gas
    from_wasm_vm_gas validate_bech32_addresses take
create_registers_example =
    create_registers basic_meter plain_host alice none default_policy (0 ∷ 1 ∷ [])
      (context empty_store) 1 (9 ∷ []) refl

-- a context without gas
abbrev poor : State basic_meter ℕ
poor = record (context empty_store) { meter = record { limit = 50; consumed = 50 } }

create_refused_example :
    (create basic_meter plain_host (some alice) (0 ∷ 1 ∷ []) none default_policy poor).1.store.wasm
    ≡ empty_store
unfolding create authorize_upload compile_upload register_code uncompress can_create_code
    access_with allowed is_subset consume_runtime_gas runtime_gas_for_contract to_wasm_vm_gas
    from_wasm_vm_gas validate_bech32_addresses take
create_refused_example =
    create_refused basic_meter plain_host alice none default_policy (0 ∷ 1 ∷ []) poor refl

-- the next ids stay what they were while contracts run
abbrev NextIds : Store → Type 0
NextIds s = (s.last_code_id ≡ some 2) × (s.last_contract_id ≡ some 2)

abbrev settled_store : Store
settled_store = record empty_store { last_code_id = some 2; last_contract_id = some 2 }

entry_points_keep_example :
    let c = context settled_store in
    NextIds (execute basic_meter plain_host plain_values alice alice (1 ∷ []) [] c).1.store.wasm
    × NextIds (sudo basic_meter plain_host plain_values alice (1 ∷ []) c).1.store.wasm
    × NextIds (reply basic_meter plain_host plain_values alice no_reply c).1.store.wasm
entry_points_keep_example =
    entry_points_keep basic_meter NextIds plain_host alice (λ a b o k. subst NextIds (sym o.rest) k)
      (λ v port msgs answer. same-Keeps basic_meter NextIds (λ c. refl)) plain_values alice (1 ∷ [])
      [] no_reply (context settled_store) (refl, refl)
