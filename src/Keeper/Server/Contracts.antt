-- ===== src/Keeper/Server/Contracts.antt =====
-- The handlers of x/wasm/keeper/msg_server.go for contracts.
use cosmwasgo.Base.{none, some}
use cosmwasgo.Base.Outcome.{Exec, pure, ◌>>=◌, ◌>>◌}
use cosmwasgo.Sdk.{GasMeter}
use cosmwasgo.Keeper.Host.{Values, State, Host}
use cosmwasgo.Keeper.Addresses.{classic_address_generator, predictable_address_generator}
use cosmwasgo.Keeper.Settings.{set_contract_admin, set_contract_label}
use cosmwasgo.Keeper.Code.{create}
use cosmwasgo.Keeper.Entry.{execute, sudo}
use cosmwasgo.Keeper.Instantiate.{instantiate}
use cosmwasgo.Keeper.Migrate.{migrate}
use cosmwasgo.Messages.{
  MsgInstantiateContract, MsgInstantiateContract2, MsgExecuteContract, MsgMigrateContract,
  MsgUpdateAdmin, MsgClearAdmin, MsgSudoContract, MsgStoreAndInstantiateContract,
  MsgStoreAndMigrateContract, MsgUpdateContractLabel, Message,
}
use cosmwasgo.Keeper.Server.Steps.{
  select_authorization_policy, parse, parse_admin, basic, require_authority, order, Service, Answer,
  done, instantiated, answered, stored_and_migrated,
}

module _ (G : GasMeter) {E : Type 0} (h : Host G E) (s : Service) (v : Values) where
  -- InstantiateContract
  unfoldable pub serve_instantiate_contract : MsgInstantiateContract → Exec (State G E) Answer
  unfolding select_authorization_policy
  serve_instantiate_contract m = do
    basic G h s (Message.instantiate_contract m)
    sender ← parse G h s "sender" m.sender
    admin ← parse_admin G h s m.admin
    r ←
        instantiate G h v
          (order G h s m m.code_id sender admin (select_authorization_policy s v m.sender))
          (classic_address_generator G h)
    pure (instantiated (h.sdk.render r.0) r.1)

  -- InstantiateContract2
  unfoldable pub serve_instantiate_contract2 : MsgInstantiateContract2 → Exec (State G E) Answer
  unfolding select_authorization_policy
  serve_instantiate_contract2 m = do
    basic G h s (Message.instantiate_contract2 m)
    sender ← parse G h s "sender" m.base.sender
    admin ← parse_admin G h s m.base.admin
    r ←
        instantiate G h v
          (order G h s m.base m.base.code_id sender admin
            (select_authorization_policy s v m.base.sender))
          (predictable_address_generator G h sender m.salt m.base.msg m.fix_msg)
    pure (instantiated (h.sdk.render r.0) r.1)

  -- ExecuteContract
  unfoldable pub serve_execute_contract : MsgExecuteContract → Exec (State G E) Answer
  serve_execute_contract m = do
    basic G h s (Message.execute_contract m)
    sender ← parse G h s "sender" m.sender
    contract ← parse G h s "contract" m.contract
    r ← execute G h v contract sender m.msg m.funds
    pure (answered r)

  -- MigrateContract
  unfoldable pub serve_migrate_contract : MsgMigrateContract → Exec (State G E) Answer
  unfolding select_authorization_policy
  serve_migrate_contract m = do
    basic G h s (Message.migrate_contract m)
    sender ← parse G h s "sender" m.sender
    contract ← parse G h s "contract" m.contract
    r ← migrate G h v (record {
      addr = contract;
      caller = sender;
      new_code_id = m.code_id;
      msg = m.msg;
      policy = select_authorization_policy s v m.sender;
    })
    pure (answered r)

  -- UpdateAdmin
  unfoldable pub serve_update_admin : MsgUpdateAdmin → Exec (State G E) Answer
  unfolding select_authorization_policy
  serve_update_admin m = do
    basic G h s (Message.update_admin m)
    sender ← parse G h s "sender" m.sender
    contract ← parse G h s "contract" m.contract
    new_admin ← parse G h s "new admin" m.new_admin
    set_contract_admin G h contract sender (some new_admin)
        (select_authorization_policy s v m.sender)
    pure done

  -- ClearAdmin
  unfoldable pub serve_clear_admin : MsgClearAdmin → Exec (State G E) Answer
  unfolding select_authorization_policy
  serve_clear_admin m = do
    basic G h s (Message.clear_admin m)
    sender ← parse G h s "sender" m.sender
    contract ← parse G h s "contract" m.contract
    set_contract_admin G h contract sender none (select_authorization_policy s v m.sender)
    pure done

  -- SudoContract
  unfoldable pub serve_sudo_contract : MsgSudoContract → Exec (State G E) Answer
  serve_sudo_contract m = do
    basic G h s (Message.sudo_contract m)
    require_authority G h s m.authority
    contract ← parse G h s "contract" m.contract
    r ← sudo G h v contract m.msg
    pure (answered r)

  abbrev pub instantiate_part : MsgStoreAndInstantiateContract → MsgInstantiateContract
  instantiate_part m = record {
    sender = m.authority;
    admin = m.admin;
    code_id = 0;
    label = m.label;
    msg = m.msg;
    funds = m.funds;
  }

  -- StoreAndInstantiateContract
  unfoldable pub serve_store_and_instantiate_contract :
      MsgStoreAndInstantiateContract → Exec (State G E) Answer
  unfolding select_authorization_policy
  serve_store_and_instantiate_contract m = do
    basic G h s (Message.store_and_instantiate_contract m)
    authority ← parse G h s "authority" m.authority
    admin ← parse_admin G h s m.admin
    code ←
        create G h (some authority) m.wasm_byte_code m.instantiate_permission
          (select_authorization_policy s v m.authority)
    r ←
        instantiate G h v
          (order G h s (instantiate_part m) code.0 authority admin
            (select_authorization_policy s v m.authority))
          (classic_address_generator G h)
    pure (instantiated (h.sdk.render r.0) r.1)

  -- StoreAndMigrateContract
  unfoldable pub serve_store_and_migrate_contract :
      MsgStoreAndMigrateContract → Exec (State G E) Answer
  unfolding select_authorization_policy
  serve_store_and_migrate_contract m = do
    authority ← parse G h s "authority" m.authority
    basic G h s (Message.store_and_migrate_contract m)
    code ←
        create G h (some authority) m.wasm_byte_code m.instantiate_permission
          (select_authorization_policy s v m.authority)
    contract ← parse G h s "contract" m.contract
    r ← migrate G h v (record {
      addr = contract;
      caller = authority;
      new_code_id = code.0;
      msg = m.msg;
      policy = select_authorization_policy s v m.authority;
    })
    pure (stored_and_migrated code.0 code.1 r)

  -- UpdateContractLabel
  unfoldable pub serve_update_contract_label : MsgUpdateContractLabel → Exec (State G E) Answer
  unfolding select_authorization_policy
  serve_update_contract_label m = do
    basic G h s (Message.update_contract_label m)
    sender ← parse G h s "sender" m.sender
    contract ← parse G h s "contract" m.contract
    set_contract_label G h contract sender m.new_label (select_authorization_policy s v m.sender)
    pure done
