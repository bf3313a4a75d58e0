-- ===== src/Keeper/Migrate.antt =====
-- A contract changes its code, x/wasm/keeper/keeper.go: migrate and callMigrateEntrypoint.
pub mod Rights
mod Tests
use cosmwasgo.Base.{
  ℕ, Bool, false, not, ◌&&◌, List, [], ◌∷◌, Option, none, some, length, bytes_eq, ◌==◌,
  if◌then◌else◌,
}
use cosmwasgo.Base.Outcome.{
  Error, registered, wrap, other, ok, panic, Exec, pure, fail, lift, fail_if, ◌>>=◌, ◌>>◌,
}
use cosmwasgo.Vm.{Bytes, Event, Response}
use cosmwasgo.Policy.{
  Policy, action_migrate_contract, can_instantiate_contract, can_modify_contract,
  sub_message_policy,
}
use cosmwasgo.Sdk.{GasMeter, emit}
use cosmwasgo.Keeper.State.{
  Store, CodeInfo, ContractInfo, HistoryEntry, migrate as op_migrate, err_invalid_request,
  err_unauthorized, admin_addr, store_contract_info, add_to_contract_code_index,
  remove_from_contract_code_index, append_to_contract_history, must_get_last_contract_history_entry,
}
use cosmwasgo.Keeper.Host.{
  Values, new_position, EntryPoint, Report, State, Host, read_store, update_store, external,
  attribute, new_event,
}
use cosmwasgo.Keeper.Settings.{or_fail}
use cosmwasgo.Keeper.Entry.{charge_setup, run_contract, handle_contract_response, wrap_error}
use cosmwasgo.Keeper.Instantiate.{analyze}

abbrev pub err_migration_failed : Error
err_migration_failed = registered "wasm" 11

-- what migrate is called with
pub record Order : Type 0 where
  pub addr : Bytes
  pub caller : Bytes
  pub new_code_id : ℕ
  pub msg : Bytes
  pub policy : Policy

-- both versions are set and the same
abbrev pub same_version : Option ℕ → Option ℕ → Bool
same_version none b = false
same_version (some a) none = false
same_version (some a) (some b) = a == b

-- the entry that ContractInfo.AddMigration makes
abbrev pub migration_entry : Values → Order → HistoryEntry
migration_entry v o = record {
  operation = op_migrate;
  code_id = o.new_code_id;
  updated = new_position v;
  msg = o.msg;
}

-- the writes that persist a migration, after the last entry was found
unfoldable pub persist_migration :
    Bytes → ContractInfo → HistoryEntry → HistoryEntry → Store → Store
persist_migration addr info last entry s = store_contract_info addr info (
    add_to_contract_code_index addr entry
      (append_to_contract_history addr entry (remove_from_contract_code_index addr last s)))

-- the policy that the sub-messages of the contract are under
abbrev pub sub_values : Values → Order → Values
sub_values v o = record v {
  sub_msg_policy = some (sub_message_policy o.policy action_migrate_contract);
}

module _ (G : GasMeter) {E : Type 0} (h : Host G E) where
  abbrev pub migrate_event : Order → List Event
  migrate_event o =
      new_event "migrate" (
        attribute "code_id" (h.format_uint o.new_code_id)
        ∷ attribute "_contract_address" (h.text (h.sdk.render o.addr))
        ∷ [])
      ∷ []

  -- the switch on the IBC entry points: the port of the migrated contract
  abbrev pub migrated_port : Bytes → Bool → Bytes → Exec (State G E) Bytes
  migrated_port addr has_ibc port =
      if not has_ibc && not (bytes_eq port [])
      then fail (wrap err_migration_failed "requires ibc callbacks")
      else if has_ibc && bytes_eq port []
      then external G (h.ensure_ibc_port addr)
      else pure port

  -- a code that must be there: the code dereferences the result of GetCodeInfo
  abbrev pub old_code : ℕ → Exec (State G E) CodeInfo
  old_code code_id c = elim (c.store.wasm.codes code_id) [
    | some info ↦ (ok info, c)
    | none ↦ (panic (other "nil pointer"), c)
  ]

  -- callMigrateEntrypoint
  unfoldable pub call_migrate_entrypoint :
      Values → Order → Bytes → Option ℕ → Exec (State G E) Response
  call_migrate_entrypoint v o checksum old_version =
      charge_setup G h o.new_code_id checksum (length o.msg)
      >> run_contract G h err_migration_failed v o.addr checksum
          (EntryPoint.migrate o.msg (h.sdk.render o.caller) old_version)

  -- the call, unless both codes have the same migrate version
  abbrev pub migrate_unless_same :
      Values → Order → Bytes → Report → Report → Exec (State G E) (Option Response)
  migrate_unless_same v o checksum report old_report =
      if same_version report.contract_migrate_version old_report.contract_migrate_version
      then pure none
      else call_migrate_entrypoint v o checksum old_report.contract_migrate_version >>= λ r.
          pure (some r)

  -- from the lookup of the new code to the call of the contract
  unfoldable pub choose_code :
      Values → Order → ContractInfo → Exec (State G E) (ContractInfo × Option Response)
  choose_code v o info = do
    found_code ← read_store G (λ s. s.codes o.new_code_id)
    code ← or_fail found_code (wrap err_invalid_request "unknown code")
    is_allowed ← lift (can_instantiate_contract h.sdk o.policy code.instantiate_config o.caller)
    fail_if (not is_allowed) (wrap err_unauthorized "to use new code")
    report ← analyze G h code.code_hash
    port ← migrated_port o.addr report.has_ibc_entry_points info.ibc_port
    old ← old_code info.code_id
    old_report ← analyze G h old.code_hash
    r ← migrate_unless_same v o code.code_hash report old_report
    pure (record info { ibc_port = port }, r)

  -- the first part, to the call of the contract: the contract with its port, and the response
  unfoldable pub prepare : Values → Order → Exec (State G E) (ContractInfo × Option Response)
  prepare v o = do
    found ← read_store G (λ s. s.contracts o.addr)
    info ← or_fail found (wrap err_invalid_request "unknown contract")
    admin ← lift (admin_addr h.sdk info)
    fail_if (not (can_modify_contract o.policy admin o.caller))
        (wrap err_unauthorized "can not migrate")
    choose_code v o info

  -- the response of the migrate entry point, if it was called
  abbrev pub handle_migrated :
      Values → Order → Bytes → Option Response → Exec (State G E) (Option Bytes)
  handle_migrated v o port none c = pure none c
  handle_migrated v o port (some r) c =
      wrap_error "dispatch" (handle_contract_response G h (sub_values v o) o.addr port r c)

  -- the second part: the migration is persisted, then the response is handled
  unfoldable pub finish :
      Values → Order → ContractInfo × Option Response → Exec (State G E) (Option Bytes)
  finish v o (info, r) = do
    last ← λ c. (must_get_last_contract_history_entry o.addr c.store.wasm, c)
    update_store G (
        persist_migration o.addr (record info { code_id = o.new_code_id }) last
          (migration_entry v o))
    emit G (migrate_event o)
    handle_migrated v o info.ibc_port r

  -- migrate
  unfoldable pub migrate : Values → Order → Exec (State G E) (Option Bytes)
  migrate v o = prepare v o >>= finish v o
