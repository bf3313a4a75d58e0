-- ===== src/Keeper/Instantiate.antt =====
-- The birth of a contract, x/wasm/keeper/keeper.go: instantiate.
pub mod Rights
pub mod Steps
mod Tests
use cosmwasgo.Base.{
  ℕ, Bool, not, ◌||◌, List, [], ◌∷◌, Option, none, some, String, length, is_some, ◌==◌,
  if◌then◌else◌,
}
use cosmwasgo.Base.Outcome.{
  Error, registered, wrap, ok, Exec, pure, fail, lift, fail_if, ◌>>=◌, ◌>>◌,
}
use cosmwasgo.Vm.{Bytes, Event, Response}
use cosmwasgo.Policy.{Policy, action_instantiate, can_instantiate_contract, sub_message_policy}
use cosmwasgo.Sdk.{GasMeter, emit}
use cosmwasgo.Keeper.State.{
  Store, CodeInfo, ContractInfo, HistoryEntry, err_no_such_code, err_unauthorized,
  store_contract_info, add_to_contract_code_index, add_to_contract_creator_index,
  append_to_contract_history, new_contract_info, initial_history,
}
use cosmwasgo.Keeper.Host.{
  Coin, Values, new_position, EntryPoint, Account, Report, State, Host, read_store, update_store,
  external, update_ext, attribute, new_event,
}
use cosmwasgo.Keeper.Settings.{or_fail, wrapped}
use cosmwasgo.Keeper.Addresses.{Generator}
use cosmwasgo.Keeper.Entry.{
  err_vm_error, charge_setup, run_contract, transfer, handle_contract_response, wrap_error,
}

abbrev pub err_instantiate_failed : Error
err_instantiate_failed = registered "wasm" 4

abbrev pub err_account_exists : Error
err_account_exists = wrap (registered "wasm" 3) "address is claimed by external account"

-- what instantiate is called with
pub record Order : Type 0 where
  pub code_id : ℕ
  pub creator : Bytes
  pub admin : Option Bytes
  pub init_msg : Bytes
  pub label : String
  pub deposit : List Coin
  pub policy : Policy

-- the writes that persist the instance
unfoldable pub persist_instance : Bytes → Bytes → ContractInfo → HistoryEntry → Store → Store
persist_instance creator addr info entry s = store_contract_info addr info (
    append_to_contract_history addr entry (
      add_to_contract_creator_index creator entry.updated addr
        (add_to_contract_code_index addr entry s)))

-- the policy that the sub-messages of the contract are under
abbrev pub sub_values : Values → Order → Values
sub_values v o = record v { sub_msg_policy = some (sub_message_policy o.policy action_instantiate) }

module _ (G : GasMeter) {E : Type 0} (h : Host G E) where
  -- accountKeeper.SetAccount of a NewAccountWithAddress
  abbrev pub set_new_account : Bytes → Exec (State G E) (Unit {0})
  set_new_account addr = update_ext G (λ x. (ok tt, h.new_account addr x))

  -- pruning an account of a type that is not accepted
  abbrev pub prune_account : Bytes → Account → Exec (State G E) (Unit {0})
  prune_account addr acc = do
    set_new_account addr
    handled ← λ c.
        let (r, c') = external G (h.cleanup_account addr acc) c in
        wrap_error "prune balance" (r, c')
    fail_if (not handled) err_account_exists

  -- the tests on the account of the new address
  abbrev pub settle_account : Bytes → Option Account → Exec (State G E) (Unit {0})
  settle_account addr none = set_new_account addr
  settle_account addr (some acc) =
      if not (acc.sequence == 0) || acc.has_pub_key
      then fail err_account_exists
      else if acc.is_accepted
      then pure tt
      else prune_account addr acc

  abbrev pub claim_account : Bytes → Exec (State G E) (Unit {0})
  claim_account addr c = settle_account addr (h.get_account c.store.ext addr) c

  -- VM.AnalyzeCode
  abbrev pub analyze : Bytes → Exec (State G E) Report
  analyze checksum c = (wrapped err_vm_error (h.analyze_code c.store.ext checksum), c)

  -- the IBC port of a contract with IBC entry points
  abbrev pub port_for : Bytes → Bool → Exec (State G E) Bytes
  port_for addr has_ibc = if has_ibc then external G (h.ensure_ibc_port addr) else pure []

  -- the record of the new contract
  abbrev pub contract_info : Values → Order → Bytes → ContractInfo
  contract_info v o port =
      record (new_contract_info h.sdk o.code_id o.creator o.admin o.label (new_position v)) {
        ibc_port = port;
      }

  abbrev pub instantiate_event : Order → Bytes → List Event
  instantiate_event o addr =
      new_event "instantiate" (
        attribute "_contract_address" (h.text (h.sdk.render addr))
        ∷ attribute "code_id" (h.format_uint o.code_id)
        ∷ [])
      ∷ []

  -- from the test of the address to the call of the contract
  unfoldable pub claim :
      Values → Order → CodeInfo → Bytes → Exec (State G E) (Bytes × CodeInfo × Response)
  claim v o code addr = do
    existing ← read_store G (λ s. s.contracts addr)
    fail_if (is_some existing) (wrap (registered "wasm" 15) "contract address already exists")
    claim_account addr
    transfer G h o.creator addr o.deposit
    r ← run_contract G h err_instantiate_failed v addr code.code_hash (
        EntryPoint.instantiate (record { sender = h.sdk.render o.creator; funds = o.deposit })
          o.init_msg)
    pure (addr, code, r)

  -- the first part, to the call of the contract: the address, the code, and the response
  unfoldable pub launch :
      Values → Order → Generator G E → Exec (State G E) (Bytes × CodeInfo × Response)
  launch v o generate = do
    found ← read_store G (λ s. s.codes o.code_id)
    code ← or_fail found err_no_such_code
    charge_setup G h o.code_id code.code_hash (length o.init_msg)
    is_allowed ← lift (can_instantiate_contract h.sdk o.policy code.instantiate_config o.creator)
    fail_if (not is_allowed) (wrap err_unauthorized "can not instantiate")
    addr ← generate o.code_id code.code_hash
    claim v o code addr

  -- the second part: the instance is persisted, then its response is handled
  unfoldable pub settle :
      Values → Order → Bytes × CodeInfo × Response → Exec (State G E) (Bytes × Option Bytes)
  settle v o (addr, code, r) = do
    report ← analyze code.code_hash
    port ← port_for addr report.has_ibc_entry_points
    update_store G (
        persist_instance o.creator addr (contract_info v o port)
          (initial_history (contract_info v o port) o.init_msg))
    emit G (instantiate_event o addr)
    data_out ←
        λ c. wrap_error "dispatch" (handle_contract_response G h (sub_values v o) addr port r c)
    pure (addr, data_out)

  -- instantiate
  unfoldable pub instantiate :
      Values → Order → Generator G E → Exec (State G E) (Bytes × Option Bytes)
  instantiate v o generate = launch v o generate >>= settle v o

  -- instantiate with a creator that may be nil
  unfoldable pub instantiate_by :
      Values
      → Option Bytes
      → (Bytes → Order)
      → Generator G E
      → Exec (State G E) (Bytes × Option Bytes)
  instantiate_by v none order generate = fail (wrap (registered "wasm" 12) "creator")
  instantiate_by v (some creator) order generate = instantiate v (order creator) generate
