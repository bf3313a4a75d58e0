-- ===== src/Keeper/Index/Move.antt =====
-- The invariant under migrate.
use cosmwasgo.Base.{
  ℕ, ◌≡◌, refl, sym, ◌∙◌, Bool, true, false, not, List, Option, none, some, arith, length,
  if◌then◌else◌,
}
use cosmwasgo.Base.Outcome.{wrap, ok, panic, other, pure, ◌>>=◌}
use cosmwasgo.Vm.{Bytes, SubMsg, Response}
use cosmwasgo.Policy.{can_instantiate_contract, can_modify_contract}
use cosmwasgo.Sdk.{GasMeter}
use cosmwasgo.Keeper.State.{
  Store, ContractInfo, HistoryEntry, last_entry, must_get_last_contract_history_entry,
  err_invalid_request, err_unauthorized, admin_addr,
}
use cosmwasgo.Keeper.Host.{Values, EntryPoint, State, Host}
use cosmwasgo.Keeper.Entry.Isolation.{
  OnlyStorage, Keeps, bind-Keeps, same-Keeps, lift-Keeps, charge_setup-Keeps, run_contract-Keeps,
  emit-Keeps, wrapped_response-Keeps,
}
use cosmwasgo.Keeper.Runs.{
  Runs, Post, bind_runs, read_runs, or_fail_runs, return_runs, weaken, keeps_runs, then_runs,
  read-Keeps, or_fail-Keeps, fail_if-Keeps, update_runs, runs_all,
}
use cosmwasgo.Keeper.Migrate.{
  Order, err_migration_failed, same_version, migration_entry, persist_migration, sub_values,
  migrate_event, migrated_port, old_code, call_migrate_entrypoint, choose_code, prepare,
  handle_migrated, finish, migrate,
}
use cosmwasgo.Keeper.Index.{IsConsistent, persist_migration-IsConsistent}
use cosmwasgo.Keeper.Instantiate.Steps.{analyze-Keeps}
use cosmwasgo.Keeper.Index.Life.{only-IsConsistent}

-- what must_get_last_contract_history_entry leaves
found :
    (x : Option HistoryEntry) (s : Store) (addr : Bytes)
    → IsConsistent s
    → last_entry (s.history addr) ≡ x
    → Post IsConsistent
        (λ last t. IsConsistent t × (last_entry (t.history addr) ≡ some last))
        (elim x [ some e ↦ ok e | none ↦ panic (other "no history") ])
        s
found none s addr k e = k
found (some x) s addr k e = (k, e)

module _ (G : GasMeter) {E : Type 0} (h : Host G E) (v : Values) (o : Order) where
  migrated_port-Keeps :
      (P : Store → Type 0) (has_ibc : Bool) (port : Bytes)
      → Keeps G P (migrated_port G h o.addr has_ibc port)
  migrated_port-Keeps P has_ibc port = same-Keeps G P (λ c. ground arith)

  old_code-Keeps : (P : Store → Type 0) (code_id : ℕ) → Keeps G P (old_code G h code_id)
  old_code-Keeps P code_id = same-Keeps G P (λ c. ground arith)

  module _ (P : Store → Type 0) (stable : (a b : Store) → OnlyStorage o.addr a b → P a → P b) where
    call-Keeps :
        (checksum : Bytes) (old_version : Option ℕ)
        → Keeps G P (call_migrate_entrypoint G h v o checksum old_version)
    unfolding call_migrate_entrypoint
    call-Keeps checksum old_version =
        bind-Keeps G P (charge_setup-Keeps G P h o.new_code_id checksum (length o.msg)) (λ u.
          run_contract-Keeps G P h o.addr stable err_migration_failed v checksum
            (EntryPoint.migrate o.msg (h.sdk.render o.caller) old_version))

    unless-Keeps :
        (b : Bool) (checksum : Bytes) (old_version : Option ℕ)
        → Keeps G P (
            if b
            then pure none
            else call_migrate_entrypoint G h v o checksum old_version >>= λ r. pure (some r))
    unless-Keeps true checksum old_version = same-Keeps G P (λ c. refl)
    unless-Keeps false checksum old_version =
        bind-Keeps G P (call-Keeps checksum old_version) (λ r. lift-Keeps G P (ok (some r)))

    -- what the lookup of the code and the call of the contract leave, of the contract with its port
    pub choose_code_runs :
        (R : Store → Type 0) (Q : ContractInfo × Option Response → Store → Type 0)
        (info : ContractInfo)
        → ((s : Store) → P s → R s)
        → ((port : Bytes) (r : Option Response) (s : Store)
            → P s
            → Q (record info { ibc_port = port }, r) s)
        → Runs G R P (choose_code G h v o info) Q
    unfolding choose_code
    choose_code_runs R Q info weak given =
        then_runs G R weak (read-Keeps G P (λ s. s.codes o.new_code_id)) (λ found.
          then_runs G R weak (or_fail-Keeps G P found (wrap err_invalid_request "unknown code"))
            (λ code.
              then_runs G R weak
                (lift-Keeps G P
                  (can_instantiate_contract h.sdk o.policy code.instantiate_config o.caller))
                (λ is_allowed.
                  then_runs G R weak
                    (fail_if-Keeps G P (not is_allowed) (wrap err_unauthorized "to use new code"))
                    (λ u1. then_runs G R weak (analyze-Keeps G h P code.code_hash) (λ report.
                      then_runs G R weak
                        (migrated_port-Keeps P report.has_ibc_entry_points info.ibc_port)
                        (λ port. then_runs G R weak (old_code-Keeps P info.code_id) (λ old.
                          then_runs G R weak (analyze-Keeps G h P old.code_hash) (λ old_report.
                            then_runs G R weak
                              (unless-Keeps
                                (same_version report.contract_migrate_version
                                  old_report.contract_migrate_version)
                                code.code_hash old_report.contract_migrate_version)
                              (λ r.
                                return_runs G R (record info { ibc_port = port }, r) Q
                                  (given port r))))))))))

    pub handle_migrated-Keeps :
        ((w : Values) (addr port : Bytes) (msgs : List SubMsg) (answer : Option Bytes)
          → Keeps G P (h.handle_response w addr port msgs answer))
        → (port : Bytes) (r : Option Response) → Keeps G P (handle_migrated G h v o port r)
    handle_migrated-Keeps handled port none = same-Keeps G P (λ c. refl)
    handle_migrated-Keeps handled port (some r) =
        wrapped_response-Keeps G P h o.addr stable (λ u. handled u o.addr) (sub_values v o) port r

  -- what holds of the store and of the record that is read from it, when the contract was called
  pub prepare_runs :
      (R : Store → Type 0) (P : ContractInfo → Store → Type 0)
      (stable : (info : ContractInfo) (a b : Store) → OnlyStorage o.addr a b → P info a → P info b)
      → ((info : ContractInfo) (s : Store) → P info s → R s)
      → ((info : ContractInfo) (s : Store) → R s → s.contracts o.addr ≡ some info → P info s)
      → ((info : ContractInfo) (port : Bytes) (s : Store)
          → P info s
          → P (record info { ibc_port = port }) s)
      → Runs G R R (prepare G h v o) (λ x. P x.0)
  unfolding prepare
  prepare_runs R P stable weak found moved =
      bind_runs G R (read_runs G R (λ s. s.contracts o.addr)) (λ x.
        bind_runs G R
          (or_fail_runs G R x (wrap err_invalid_request "unknown contract") (λ s k. k.0))
          (λ info.
            weaken G R (λ s ((k, e), q). found info s k (sym e ∙ q))
              (then_runs G R (weak info) (lift-Keeps G (P info) (admin_addr h.sdk info)) (λ admin.
                then_runs G R (weak info)
                  (fail_if-Keeps G (P info) (not (can_modify_contract o.policy admin o.caller))
                    (wrap err_unauthorized "can not migrate"))
                  (λ u1.
                    choose_code_runs (P info) (stable info) R (λ x. P x.0) info (weak info)
                      (λ port r. moved info port))))))

  last_runs :
      Runs G {E = E} IsConsistent IsConsistent
        (λ c. (must_get_last_contract_history_entry o.addr c.store.wasm, c))
        (λ last s. IsConsistent s × (last_entry (s.history o.addr) ≡ some last))
  unfolding must_get_last_contract_history_entry
  last_runs = record {
    runs = λ c k. found (last_entry (c.store.wasm.history o.addr)) c.store.wasm o.addr k refl;
  }

  module _
      (handled : (w : Values) (addr port : Bytes) (msgs : List SubMsg) (answer : Option Bytes)
        → Keeps G IsConsistent (h.handle_response w addr port msgs answer)) where
    finish_runs :
        (x : ContractInfo × Option Response)
        → Runs G IsConsistent IsConsistent (finish G h v o x) (λ d. IsConsistent)
    unfolding finish
    finish_runs (info, r) =
        let same = λ (s : Store) (k : IsConsistent s). k in
        let moved = record info { code_id = o.new_code_id } in
        bind_runs G IsConsistent last_runs (λ last.
          bind_runs G IsConsistent
            (update_runs G IsConsistent (persist_migration o.addr moved last (migration_entry v o))
              (λ s (k, e).
                persist_migration-IsConsistent s o.addr moved (migration_entry v o) k refl last e))
            (λ u1.
              then_runs G IsConsistent same (emit-Keeps G IsConsistent (migrate_event G h o)) (λ u2.
                keeps_runs G IsConsistent same (
                  handle_migrated-Keeps IsConsistent (only-IsConsistent o.addr) handled
                    info.ibc_port r))))

    -- Migrate keeps record, history and index of every contract consistent, however it ends, where the
    -- handler of responses keeps them consistent.
    pub migrate-IsConsistent :
        (c : State G E) → IsConsistent c.store.wasm → IsConsistent (migrate G h v o c).1.store.wasm
    unfolding migrate
    migrate-IsConsistent c k =
        let same = λ (s : Store) (k : IsConsistent s). k in
        runs_all G IsConsistent
          (bind_runs G IsConsistent
            (prepare_runs IsConsistent (λ info. IsConsistent) (λ info. only-IsConsistent o.addr)
              (λ info. same) (λ info s k e. k) (λ info port s k. k))
            finish_runs)
          c k
