-- ===== src/Keeper/Agree/Calls.antt =====
-- Execute, sudo, reply, instantiate and migrate over two keepers whose response handlers agree.
use cosmwasgo.Base.{
  ℕ, ◌≡◌, refl, Bool, true, false, not, ◌&&◌, ◌||◌, List, [], Option, none, some, arith, length,
  is_some, bytes_eq, ◌==◌, if◌then◌else◌,
}
use cosmwasgo.Base.Outcome.{wrap, ok, err, fail, pure, ◌>>=◌, registered}
use cosmwasgo.Vm.{Bytes, SubMsg, Response}
use cosmwasgo.Policy.{can_instantiate_contract, can_modify_contract}
use cosmwasgo.Sdk.{GasMeter, GasMeterLaws}
use cosmwasgo.Keeper.State.{
  CodeInfo, ContractInfo, err_no_such_code, err_unauthorized, err_invalid_request, admin_addr,
  initial_history,
}
use cosmwasgo.Keeper.Host.{Coin, Values, EntryPoint, Account, Host, external}
use cosmwasgo.Keeper.Addresses.{Generator}
use cosmwasgo.Keeper.Entry.{err_execute_failed, execute, sudo}
use cosmwasgo.Keeper.Instantiate
use cosmwasgo.Keeper.Instantiate.{
  Order, err_instantiate_failed, err_account_exists, persist_instance, claim, launch, settle,
  instantiate, claim_account, settle_account, prune_account, set_new_account, analyze, port_for,
  contract_info, instantiate_event,
}
use cosmwasgo.Keeper.Migrate
use cosmwasgo.Keeper.Migrate.{
  Order as Migration, err_migration_failed, same_version, migration_entry, persist_migration,
  migrate_event, migrated_port, old_code, call_migrate_entrypoint, choose_code, prepare,
  handle_migrated, finish, migrate,
}
use cosmwasgo.Keeper.Relation.{Handler, with_handler}
use cosmwasgo.Keeper.Agree.{
  Agrees, bind_agrees, quiet_agrees, lift_agrees, emit_agrees, read_agrees, update_agrees,
  external_agrees,
}
use cosmwasgo.Keeper.Agree.Steps.{
  Metered, fail_if_agrees, or_fail_agrees, wrap_agrees, charge_setup_agrees, transfer_agrees,
  run_contract_agrees, event_agrees, load_agrees, response_agrees, wrapped_agrees,
}

module _ (G : GasMeter) (laws : GasMeterLaws G) {E : Type 0} (base : Host G E)
    (metered : Metered G base) (f f' : Handler G E) (k : ℕ) where
  abbrev h : Host G E
  h = with_handler G base f

  abbrev h' : Host G E
  h' = with_handler G base f'

  new_account_agrees :
      (addr : Bytes) → Agrees G k k (set_new_account G h addr) (set_new_account G h' addr)
  new_account_agrees addr = quiet_agrees G k (λ c. refl)

  pruned_agrees :
      (addr : Bytes) (acc : Account)
      → Agrees G k k (prune_account G h addr acc) (prune_account G h' addr acc)
  pruned_agrees addr acc = bind_agrees G (new_account_agrees addr) (λ u.
      bind_agrees G
        (wrap_agrees G "prune balance" (
          external_agrees G k (base.cleanup_account addr acc)
            (λ x m q. metered.cleanup_account k addr acc x m q)))
        (λ handled. fail_if_agrees G k (not handled) err_account_exists))

  claimed_agrees :
      (addr : Bytes) (acc : Account) (a b : Bool)
      → Agrees G k k
          (if a then fail err_account_exists else if b then pure tt else prune_account G h addr acc)
          (if a
            then fail err_account_exists
            else if b
            then pure tt
            else prune_account G h' addr acc)
  claimed_agrees addr acc true b = lift_agrees G k (err err_account_exists)
  claimed_agrees addr acc false true = lift_agrees G k (ok tt)
  claimed_agrees addr acc false false = pruned_agrees addr acc

  account_agrees :
      (addr : Bytes) (x : Option Account)
      → Agrees G k k (settle_account G h addr x) (settle_account G h' addr x)
  account_agrees addr none = new_account_agrees addr
  account_agrees addr (some acc) =
      claimed_agrees addr acc (not (acc.sequence == 0) || acc.has_pub_key) acc.is_accepted

  claim_account_agrees :
      (addr : Bytes) → Agrees G k k (claim_account G h addr) (claim_account G h' addr)
  claim_account_agrees addr = record {
    same = λ c q. (account_agrees addr (base.get_account c.store.ext addr)).same c q;
    ends = λ c q. (account_agrees addr (base.get_account c.store.ext addr)).ends c q;
  }

  port_agrees :
      (addr : Bytes) (b : Bool) → Agrees G k k (port_for G h addr b) (port_for G h' addr b)
  port_agrees addr true =
      external_agrees G k (base.ensure_ibc_port addr)
        (λ x m q. metered.ensure_ibc_port k addr x m q)
  port_agrees addr false = lift_agrees G k (ok [])

  analyze_agrees : (checksum : Bytes) → Agrees G k k (analyze G h checksum) (analyze G h' checksum)
  analyze_agrees checksum = quiet_agrees G k (λ c. refl)

  claim_agrees :
      (v : Values) (o : Order) (code : CodeInfo) (addr : Bytes)
      → Agrees G k k (claim G h v o code addr) (claim G h' v o code addr)
  unfolding claim
  claim_agrees v o code addr = bind_agrees G (read_agrees G k (λ s. s.contracts addr)) (λ existing.
      bind_agrees G
        (fail_if_agrees G k (is_some existing)
          (wrap (registered "wasm" 15) "contract address already exists"))
        (λ u1. bind_agrees G (claim_account_agrees addr) (λ u2.
          bind_agrees G (transfer_agrees G laws base metered f f' k o.creator addr o.deposit) (λ u3.
            bind_agrees G
              (run_contract_agrees G laws base metered f f' k err_instantiate_failed v addr
                code.code_hash
                (EntryPoint.instantiate
                  (record { sender = base.sdk.render o.creator; funds = o.deposit }) o.init_msg))
              (λ r. lift_agrees G k (ok (addr, code, r)))))))

  launch_agrees :
      (v : Values) (o : Order) (generate generate' : Generator G E)
      → ((id : ℕ) (checksum : Bytes) → Agrees G k k (generate id checksum) (generate' id checksum))
      → Agrees G k k (launch G h v o generate) (launch G h' v o generate')
  unfolding launch
  launch_agrees v o generate generate' generated =
      bind_agrees G (read_agrees G k (λ s. s.codes o.code_id)) (λ found.
        bind_agrees G (or_fail_agrees G k found err_no_such_code) (λ code.
          bind_agrees G
            (charge_setup_agrees G laws base metered f f' k o.code_id code.code_hash
              (length o.init_msg))
            (λ u1.
              bind_agrees G
                (lift_agrees G k
                  (can_instantiate_contract base.sdk o.policy code.instantiate_config o.creator))
                (λ is_allowed.
                  bind_agrees G
                    (fail_if_agrees G k (not is_allowed)
                      (wrap err_unauthorized "can not instantiate"))
                    (λ u2.
                      bind_agrees G (generated o.code_id code.code_hash)
                        (λ addr. claim_agrees v o code addr))))))

  migrated_port_agrees :
      (addr : Bytes) (has_ibc : Bool) (port : Bytes)
      → Agrees G k k (migrated_port G h addr has_ibc port) (migrated_port G h' addr has_ibc port)
  migrated_port_agrees addr has_ibc port =
      pick (not has_ibc && not (bytes_eq port [])) (has_ibc && bytes_eq port [])
    where
      pick :
          (a b : Bool)
          → let m =
              if a
              then fail (wrap err_migration_failed "requires ibc callbacks")
              else if b
              then external G (base.ensure_ibc_port addr)
              else pure port in
            Agrees G k k m m
      pick true b = lift_agrees G k (err (wrap err_migration_failed "requires ibc callbacks"))
      pick false true =
          external_agrees G k (base.ensure_ibc_port addr)
            (λ x m q. metered.ensure_ibc_port k addr x m q)
      pick false false = lift_agrees G k (ok port)

  old_code_agrees : (id : ℕ) → Agrees G k k (old_code G h id) (old_code G h' id)
  old_code_agrees id = quiet_agrees G k (λ c. ground arith)

  migrate_call_agrees :
      (v : Values) (o : Migration) (checksum : Bytes) (old_version : Option ℕ)
      → Agrees G k k
          (call_migrate_entrypoint G h v o checksum old_version)
          (call_migrate_entrypoint G h' v o checksum old_version)
  unfolding call_migrate_entrypoint
  migrate_call_agrees v o checksum old_version =
      bind_agrees G
        (charge_setup_agrees G laws base metered f f' k o.new_code_id checksum (length o.msg))
        (λ u.
          run_contract_agrees G laws base metered f f' k err_migration_failed v o.addr checksum
            (EntryPoint.migrate o.msg (base.sdk.render o.caller) old_version))

  unless_agrees :
      (b : Bool) (v : Values) (o : Migration) (checksum : Bytes) (old_version : Option ℕ)
      → Agrees G k k
          (if b
            then pure none
            else call_migrate_entrypoint G h v o checksum old_version >>= λ r. pure (some r))
          (if b
            then pure none
            else call_migrate_entrypoint G h' v o checksum old_version >>= λ r. pure (some r))
  unless_agrees true v o checksum old_version = lift_agrees G k (ok none)
  unless_agrees false v o checksum old_version =
      bind_agrees G (migrate_call_agrees v o checksum old_version)
        (λ r. lift_agrees G k (ok (some r)))

  choose_code_agrees :
      (v : Values) (o : Migration) (info : ContractInfo)
      → Agrees G k k (choose_code G h v o info) (choose_code G h' v o info)
  unfolding choose_code
  choose_code_agrees v o info =
      bind_agrees G (read_agrees G k (λ s. s.codes o.new_code_id)) (λ found.
        bind_agrees G (or_fail_agrees G k found (wrap err_invalid_request "unknown code")) (λ code.
          bind_agrees G
            (lift_agrees G k
              (can_instantiate_contract base.sdk o.policy code.instantiate_config o.caller))
            (λ is_allowed.
              bind_agrees G
                (fail_if_agrees G k (not is_allowed) (wrap err_unauthorized "to use new code"))
                (λ u1. bind_agrees G (analyze_agrees code.code_hash) (λ report.
                  bind_agrees G
                    (migrated_port_agrees o.addr report.has_ibc_entry_points info.ibc_port)
                    (λ port. bind_agrees G (old_code_agrees info.code_id) (λ old.
                      bind_agrees G (analyze_agrees old.code_hash) (λ old_report.
                        bind_agrees G
                          (unless_agrees
                            (same_version report.contract_migrate_version
                              old_report.contract_migrate_version)
                            v o code.code_hash old_report.contract_migrate_version)
                          (λ r. lift_agrees G k (ok (record info { ibc_port = port }, r)))))))))))

  prepare_agrees : (v : Values) (o : Migration) → Agrees G k k (prepare G h v o) (prepare G h' v o)
  unfolding prepare
  prepare_agrees v o = bind_agrees G (read_agrees G k (λ s. s.contracts o.addr)) (λ found.
      bind_agrees G (or_fail_agrees G k found (wrap err_invalid_request "unknown contract"))
        (λ info. bind_agrees G (lift_agrees G k (admin_addr base.sdk info)) (λ admin.
          bind_agrees G
            (fail_if_agrees G k (not (can_modify_contract o.policy admin o.caller))
              (wrap err_unauthorized "can not migrate"))
            (λ u1. choose_code_agrees v o info))))

  module _ (d : Option ℕ)
      (handled : (v : Values) (addr port : Bytes) (msgs : List SubMsg) (answer : Option Bytes)
        → v.call_depth ≡ d
        → Agrees G k k (f v addr port msgs answer) (f' v addr port msgs answer)) where
    pub execute_agrees :
        (v : Values) (addr caller msg : Bytes) (coins : List Coin)
        → v.call_depth ≡ d
        → Agrees G k k (execute G h v addr caller msg coins) (execute G h' v addr caller msg coins)
    unfolding execute
    execute_agrees v addr caller msg coins e =
        bind_agrees G (load_agrees G laws base metered f f' k addr) (λ loaded.
          bind_agrees G
            (charge_setup_agrees G laws base metered f f' k loaded.0.code_id loaded.1.code_hash
              (length msg))
            (λ u1.
              bind_agrees G (transfer_agrees G laws base metered f f' k caller addr coins) (λ u2.
                bind_agrees G
                  (run_contract_agrees G laws base metered f f' k err_execute_failed v addr
                    loaded.1.code_hash
                    (EntryPoint.execute (record { sender = base.sdk.render caller; funds = coins })
                      msg))
                  (λ r.
                    bind_agrees G (event_agrees G laws base metered f f' k "execute" addr) (λ u3.
                      response_agrees G laws base metered f f' k d handled v addr loaded.0.ibc_port
                        r e)))))

    pub sudo_agrees :
        (v : Values) (addr msg : Bytes)
        → v.call_depth ≡ d
        → Agrees G k k (sudo G h v addr msg) (sudo G h' v addr msg)
    unfolding sudo
    sudo_agrees v addr msg e =
        bind_agrees G (load_agrees G laws base metered f f' k addr) (λ loaded.
          bind_agrees G
            (charge_setup_agrees G laws base metered f f' k loaded.0.code_id loaded.1.code_hash
              (length msg))
            (λ u1.
              bind_agrees G
                (run_contract_agrees G laws base metered f f' k err_execute_failed v addr
                  loaded.1.code_hash (EntryPoint.sudo msg))
                (λ r. bind_agrees G (event_agrees G laws base metered f f' k "sudo" addr) (λ u2.
                  wrapped_agrees G laws base metered f f' k d handled v addr loaded.0.ibc_port r
                    e))))

    settle_agrees :
        (v : Values) (o : Order) (x : Bytes × CodeInfo × Response)
        → v.call_depth ≡ d
        → Agrees G k k (settle G h v o x) (settle G h' v o x)
    unfolding settle
    settle_agrees v o (addr, code, r) e = bind_agrees G (analyze_agrees code.code_hash) (λ report.
        bind_agrees G (port_agrees addr report.has_ibc_entry_points) (λ port.
          let info = contract_info G base v o port in
          bind_agrees G
            (update_agrees G k
              (persist_instance o.creator addr info (initial_history info o.init_msg)))
            (λ u1. bind_agrees G (emit_agrees G k (instantiate_event G base o addr)) (λ u2.
              bind_agrees G
                (wrapped_agrees G laws base metered f f' k d handled (Instantiate.sub_values v o)
                  addr port r e)
                (λ data_out. lift_agrees G k (ok (addr, data_out)))))))

    pub instantiate_agrees :
        (v : Values) (o : Order) (generate generate' : Generator G E)
        → ((id : ℕ) (checksum : Bytes)
            → Agrees G k k (generate id checksum) (generate' id checksum))
        → v.call_depth ≡ d
        → Agrees G k k (instantiate G h v o generate) (instantiate G h' v o generate')
    unfolding instantiate
    instantiate_agrees v o generate generate' generated e =
        bind_agrees G (launch_agrees v o generate generate' generated) (λ x. settle_agrees v o x e)

    handle_migrated_agrees :
        (v : Values) (o : Migration) (port : Bytes) (r : Option Response)
        → v.call_depth ≡ d
        → Agrees G k k (handle_migrated G h v o port r) (handle_migrated G h' v o port r)
    handle_migrated_agrees v o port none e = lift_agrees G k (ok none)
    handle_migrated_agrees v o port (some r) e =
        wrapped_agrees G laws base metered f f' k d handled (Migrate.sub_values v o) o.addr port r e

    finish_agrees :
        (v : Values) (o : Migration) (x : ContractInfo × Option Response)
        → v.call_depth ≡ d
        → Agrees G k k (finish G h v o x) (finish G h' v o x)
    unfolding finish
    finish_agrees v o (info, r) e = bind_agrees G (quiet_agrees G k (λ c. refl)) (λ last.
        bind_agrees G
          (update_agrees G k (
            persist_migration o.addr (record info { code_id = o.new_code_id }) last
              (migration_entry v o)))
          (λ u1.
            bind_agrees G (emit_agrees G k (migrate_event G base o))
              (λ u2. handle_migrated_agrees v o info.ibc_port r e)))

    pub migrate_agrees :
        (v : Values) (o : Migration)
        → v.call_depth ≡ d
        → Agrees G k k (migrate G h v o) (migrate G h' v o)
    unfolding migrate
    migrate_agrees v o e = bind_agrees G (prepare_agrees v o) (λ x. finish_agrees v o x e)
