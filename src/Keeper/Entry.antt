-- ===== src/Keeper/Entry.antt =====
-- The entry points of a contract, x/wasm/keeper/keeper.go: execute, Sudo and reply, what they and
-- instantiate and migrate have in common, and handleContractResponse.
pub mod Isolation
use cosmwasgo.Base.{
  ℕ, Bool, true, false, ◌&&◌, List, [], ◌∷◌, Option, none, some, String, length, ◌==◌,
  if◌then◌else◌,
}
use cosmwasgo.Base.Outcome.{
  Error, registered, wrap, wrap_cause, deterministic, Panic, Outcome, ok, err, panic, Exec, pure,
  fail, lift, continue, ◌>>=◌, ◌>>◌,
}
use cosmwasgo.Vm.{Bytes, EventAttribute, Event, Reply, Response}
use cosmwasgo.Gas.{setup_contract_cost, event_costs, reply_costs}
use cosmwasgo.Sdk.{GasMeter, Ctx, consume_gas, emit}
use cosmwasgo.Keeper.State.{at_bytes, CodeInfo, ContractInfo, contract_instance}
use cosmwasgo.Keeper.Host.{
  Coin, Values, new_env, MessageInfo, Env, EntryPoint, Answer, vm_error, no_result, contract_error,
  response, Run, World, State, Host, read_store, external, attribute, new_event,
}
use cosmwasgo.Keeper.Events.{new_wasm_module_event, new_custom_events}
use cosmwasgo.Keeper.Metering.{
  runtime_gas_for_contract, consume_runtime_gas, check_discount_eligibility,
}

abbrev pub err_vm_error : Error
err_vm_error = registered "wasm" 29

abbrev pub err_execute_failed : Error
err_execute_failed = registered "wasm" 5

-- sdk.Coins.IsZero
abbrev pub is_zero : List Coin → Bool
is_zero [] = true
is_zero (c ∷ cs) = c.amount == 0 && is_zero cs

-- the tests after a call of the VM, with the error of a contract that returns one
unfoldable pub resolve : Error → Answer → Outcome Response
resolve failed (vm_error e) = err (wrap_cause err_vm_error e)
resolve failed no_result = err (wrap err_vm_error "internal wasmvm error")
resolve failed (contract_error text) = err (deterministic (wrap failed text))
resolve failed (response r) = ok r

-- the events for a list that is not empty
abbrev pub events_unless_empty : {A : Type 0} → List A → Outcome (List Event) → Outcome (List Event)
events_unless_empty [] events = ok []
events_unless_empty (a ∷ as') events = events

-- errorsmod.Wrap(err, text) on an error
abbrev pub wrap_error : {S A : Type 0} → String → Outcome A × S → Outcome A × S
wrap_error text (ok a, s) = (ok a, s)
wrap_error text (err e, s) = (err (wrap e text), s)
wrap_error text (panic p, s) = (panic p, s)

module _ (G : GasMeter) {E : Type 0} (h : Host G E) where
  -- handleContractResponse
  unfoldable pub handle_contract_response :
      Values → Bytes → Bytes → Response → Exec (State G E) (Option Bytes)
  handle_contract_response v addr port r = do
    cost ← lift (event_costs h.gas_register r.attributes r.events)
    consume_gas G cost
    wasm_events ← lift (
        events_unless_empty r.attributes
          (new_wasm_module_event r.attributes (h.text (h.sdk.render addr))))
    emit G wasm_events
    custom_events ←
        lift
          (events_unless_empty r.events (new_custom_events r.events (h.text (h.sdk.render addr))))
    emit G custom_events
    h.handle_response v addr port r.messages r.data_bytes

  -- the discount for the code, and the costs of loading it
  unfoldable pub charge_setup : ℕ → Bytes → ℕ → Exec (State G E) (Unit {0})
  charge_setup code_id checksum msg_len = do
    is_pinned ← read_store G (λ s. s.pinned code_id)
    discount ← check_discount_eligibility G checksum is_pinned
    consume_gas G (setup_contract_cost h.gas_register discount msg_len)

  abbrev pub panic_or : {A : Type 0} → Option Panic → A → Outcome A
  panic_or none a = ok a
  panic_or (some p) a = panic p

  -- the call of the VM with the storage of the contract
  unfoldable pub call_vm :
      Values → Bytes → Bytes → Env → EntryPoint → ℕ → Exec (State G E) (Answer × ℕ)
  call_vm v addr checksum env entry gas_left c =
      let r = h.call v checksum env entry gas_left c (c.store.wasm.contract_store addr) in
      let wasm = record c.store.wasm {
        contract_store = at_bytes c.store.wasm.contract_store addr r.storage;
      } in
      (
        panic_or r.panicked (r.answer, r.gas_used),
        record c {
          store = record c.store { wasm = wasm };
          meter = r.meter;
          tx_contracts = r.tx_contracts;
        },
      )

  -- from NewEnv to the test of res.Err
  unfoldable pub run_contract :
      Error → Values → Bytes → Bytes → EntryPoint → Exec (State G E) Response
  run_contract failed v addr checksum entry = do
    env ← lift (new_env h.sdk v addr)
    gas_left ← λ c. (runtime_gas_for_contract G h.gas_register c.meter, c)
    done ← call_vm v addr checksum env entry gas_left
    consume_runtime_gas G h.gas_register done.1
    lift (resolve failed done.0)

  -- the transfer of funds that are not zero
  abbrev pub transfer : Bytes → Bytes → List Coin → Exec (State G E) (Unit {0})
  transfer from to coins =
      if is_zero coins then pure tt else external G (h.transfer_coins from to coins)

  abbrev pub contract_event : String → Bytes → Exec (State G E) (Unit {0})
  contract_event type addr =
      emit G (new_event type (attribute "_contract_address" (h.text (h.sdk.render addr)) ∷ []) ∷ [])

  -- contractInstance
  abbrev pub load : Bytes → Exec (State G E) (ContractInfo × CodeInfo)
  load addr c = (contract_instance addr c.store.wasm, c)

  -- execute
  unfoldable pub execute :
      Values → Bytes → Bytes → Bytes → List Coin → Exec (State G E) (Option Bytes)
  execute v addr caller msg coins = do
    loaded ← load addr
    charge_setup loaded.0.code_id loaded.1.code_hash (length msg)
    transfer caller addr coins
    r ←
        run_contract err_execute_failed v addr loaded.1.code_hash
          (EntryPoint.execute (record { sender = h.sdk.render caller; funds = coins }) msg)
    contract_event "execute" addr
    handle_contract_response v addr loaded.0.ibc_port r

  -- Sudo
  unfoldable pub sudo : Values → Bytes → Bytes → Exec (State G E) (Option Bytes)
  sudo v addr msg = do
    loaded ← load addr
    charge_setup loaded.0.code_id loaded.1.code_hash (length msg)
    r ← run_contract err_execute_failed v addr loaded.1.code_hash (EntryPoint.sudo msg)
    contract_event "sudo" addr
    λ c. wrap_error "dispatch" (handle_contract_response v addr loaded.0.ibc_port r c)

  -- reply; its cost always has the discount
  unfoldable pub reply : Values → Bytes → Reply → Exec (State G E) (Option Bytes)
  reply v addr rep = do
    loaded ← load addr
    cost ← lift (reply_costs h.gas_register true rep)
    consume_gas G cost
    r ← run_contract err_execute_failed v addr loaded.1.code_hash (EntryPoint.reply rep)
    contract_event "reply" addr
    λ c. wrap_error "dispatch" (handle_contract_response v addr loaded.0.ibc_port r c)
