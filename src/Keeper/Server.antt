-- ===== src/Keeper/Server.antt =====
-- The message server, x/wasm/keeper/msg_server.go: every handler of the module's Msg service checks
-- the message, selects the policy of its sender and calls the keeper.
pub mod Related
pub mod Refused
pub mod Uploaders
pub mod Parts
mod Tests
mod Steps
mod Codes
mod Contracts
unfoldable pub use Steps.*
unfoldable pub use Codes.*
unfoldable pub use Contracts.*
use cosmwasgo.Base.{
  ℕ, Bool, true, false, not, List, [], ◌∷◌, ◌++◌, Option, none, some, String, bytes_eq, contains,
  if◌then◌else◌,
}
use cosmwasgo.Base.Outcome.{
  Error, wrap, Panic, other, Outcome, ok, err, panic, Exec, pure, fail, throw, lift, fail_if, ◌>>=◌,
  ◌>>◌,
}
use cosmwasgo.Vm.{Bytes}
use cosmwasgo.Access.{AccessConfig, err_invalid, is_any_of_addresses}
use cosmwasgo.Policy.{Action, Policy, default_policy, gov}
use cosmwasgo.Sdk.{GasMeter}
use cosmwasgo.Keeper.State.{Store, Params}
use cosmwasgo.Keeper.Host.{Coin, Values, State, Host, read_store, update_store}
use cosmwasgo.Keeper.Addresses.{classic_address_generator, predictable_address_generator}
use cosmwasgo.Keeper.Settings.{
  set_contract_admin, set_contract_label, set_access_config, pin_code, unpin_code,
}
use cosmwasgo.Keeper.Code.{create}
use cosmwasgo.Keeper.Entry.{execute, sudo}
use cosmwasgo.Keeper.Instantiate.{Order, instantiate}
use cosmwasgo.Keeper.Migrate.{Order as Migration, migrate}
use cosmwasgo.Messages.{
  MsgStoreCode, MsgInstantiateContract, MsgInstantiateContract2, MsgExecuteContract,
  MsgMigrateContract, MsgUpdateAdmin, MsgClearAdmin, MsgUpdateInstantiateConfig, MsgUpdateParams,
  MsgPinCodes, MsgSudoContract, MsgStoreAndInstantiateContract, MsgCodeUploadParamsAddresses,
  MsgStoreAndMigrateContract, MsgUpdateContractLabel, Message,
}
use cosmwasgo.Messages.Validate.{Checks, validate}

module _ (G : GasMeter) {E : Type 0} (h : Host G E) (s : Service) (v : Values) where
  -- the handler of a message
  pub serve : Message → Exec (State G E) Answer
  serve (Message.store_code m) = serve_store_code G h s v m
  serve (Message.instantiate_contract m) = serve_instantiate_contract G h s v m
  serve (Message.instantiate_contract2 m) = serve_instantiate_contract2 G h s v m
  serve (Message.execute_contract m) = serve_execute_contract G h s v m
  serve (Message.migrate_contract m) = serve_migrate_contract G h s v m
  serve (Message.update_admin m) = serve_update_admin G h s v m
  serve (Message.clear_admin m) = serve_clear_admin G h s v m
  serve (Message.update_instantiate_config m) = serve_update_instantiate_config G h s v m
  serve (Message.update_params m) = serve_update_params G h s v m
  serve (Message.pin_codes m) = serve_pin_codes G h s v m
  serve (Message.unpin_codes m) = serve_unpin_codes G h s v m
  serve (Message.sudo_contract m) = serve_sudo_contract G h s v m
  serve (Message.store_and_instantiate_contract m) = serve_store_and_instantiate_contract G h s v m
  serve (Message.add_code_upload_params_addresses m) =
      serve_add_code_upload_params_addresses G h s v m
  serve (Message.remove_code_upload_params_addresses m) =
      serve_remove_code_upload_params_addresses G h s v m
  serve (Message.store_and_migrate_contract m) = serve_store_and_migrate_contract G h s v m
  serve (Message.update_contract_label m) = serve_update_contract_label G h s v m
