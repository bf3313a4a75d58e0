-- ===== src/Messages/Validate.antt =====
-- ValidateBasic of the messages (x/wasm/types/tx.go), made of the checks in `Rules`.
pub mod Parts
mod Rules
unfoldable pub use Rules.*
use Prim.Native.Char.{Char, code}
use text.Mathlib.Text.{◌==◌ as str_eq}
use cosmwasgo.Base.{
  ℕ, ◌+◌, ◌*◌, Bool, true, false, not, ◌&&◌, ◌||◌, List, [], ◌∷◌, Option, none, some, String,
  length, bytes_eq, any, ltb, ◌==◌, if◌then◌else◌,
}
use cosmwasgo.Base.Outcome.{Error, registered, wrap, wrap_cause, external, Outcome, ok, err, panic}
use cosmwasgo.Vm.{Bytes}
use cosmwasgo.Access.{
  Bech32, AccessConfig, err_empty, err_invalid, err_invalid_request, to_upper,
  validate_bech32_addresses, validate_access_config, validate_access_type,
}
use cosmwasgo.Keeper.State.{Params}
use cosmwasgo.Keeper.Host.{Coin}
use cosmwasgo.Keeper.Events.{trim_space}
use cosmwasgo.Messages.{
  MsgStoreCode, MsgInstantiateContract, MsgInstantiateContract2, MsgExecuteContract,
  MsgMigrateContract, MsgUpdateAdmin, MsgClearAdmin, MsgUpdateInstantiateConfig, MsgUpdateParams,
  MsgPinCodes, MsgSudoContract, MsgStoreAndInstantiateContract, MsgCodeUploadParamsAddresses,
  MsgStoreAndMigrateContract, MsgUpdateContractLabel, Message, store_code, instantiate_contract,
  instantiate_contract2, execute_contract, migrate_contract, update_admin, clear_admin,
  update_instantiate_config, update_params, pin_codes, unpin_codes, sudo_contract,
  store_and_instantiate_contract, add_code_upload_params_addresses,
  remove_code_upload_params_addresses, store_and_migrate_contract, update_contract_label,
}

module _ (x : Checks) where
  abbrev store_code_checks : MsgStoreCode → List (Outcome (Unit {0}))
  unfolding validate_wasm_code
  store_code_checks m =
      checked (x.sdk.parse m.sender)
      ∷ wasm_code x m.wasm_byte_code
      ∷ permission x m.instantiate_permission
      ∷ []

  pub validate_store_code : MsgStoreCode → Outcome (Unit {0})
  unfolding validate_wasm_code
  validate_store_code m = first_failure (store_code_checks m)

  abbrev instantiate_contract_checks : MsgInstantiateContract → List (Outcome (Unit {0}))
  unfolding validate_label
  instantiate_contract_checks m =
      address x "sender" m.sender
      ∷ refuse_if (m.code_id == 0) (wrap err_invalid_request "code id is required")
      ∷ label x m.label
      ∷ within "funds" (x.coins m.funds)
      ∷ unless_empty m.admin (address x "admin" m.admin)
      ∷ payload x m.msg
      ∷ []

  pub validate_instantiate_contract : MsgInstantiateContract → Outcome (Unit {0})
  unfolding validate_label
  validate_instantiate_contract m = first_failure (instantiate_contract_checks m)

  pub validate_instantiate_contract2 : MsgInstantiateContract2 → Outcome (Unit {0})
  unfolding validate_instantiate_contract validate_salt
  validate_instantiate_contract2 m =
      first_failure
        (validate_instantiate_contract m.base ∷ within "salt" (validate_salt m.salt) ∷ [])

  unfoldable pub validate_execute_contract : MsgExecuteContract → Outcome (Unit {0})
  validate_execute_contract m = first_failure (
      address x "sender" m.sender
      ∷ address x "contract" m.contract
      ∷ within "funds" (x.coins m.funds)
      ∷ payload x m.msg
      ∷ [])

  abbrev migrate_contract_checks : MsgMigrateContract → List (Outcome (Unit {0}))
  migrate_contract_checks m =
      refuse_if (m.code_id == 0) (wrap err_invalid_request "code id is required")
      ∷ address x "sender" m.sender
      ∷ address x "contract" m.contract
      ∷ payload x m.msg
      ∷ []

  pub validate_migrate_contract : MsgMigrateContract → Outcome (Unit {0})
  validate_migrate_contract m = first_failure (migrate_contract_checks m)

  pub validate_update_admin : MsgUpdateAdmin → Outcome (Unit {0})
  validate_update_admin m = first_failure (
      address x "sender" m.sender
      ∷ address x "contract" m.contract
      ∷ address x "new admin" m.new_admin
      ∷ refuse_if (equal_fold m.sender m.new_admin)
          (wrap err_invalid "new admin is the same as the old")
      ∷ [])

  unfoldable pub validate_clear_admin : MsgClearAdmin → Outcome (Unit {0})
  validate_clear_admin m =
      first_failure (address x "sender" m.sender ∷ address x "contract" m.contract ∷ [])

  pub validate_update_instantiate_config : MsgUpdateInstantiateConfig → Outcome (Unit {0})
  validate_update_instantiate_config m = first_failure (
      address x "sender" m.sender
      ∷ refuse_if (m.code_id == 0) (wrap err_invalid_request "code id is required")
      ∷ refuse_if (is_nil m.new_instantiate_permission)
          (wrap err_invalid_request "instantiate permission is required")
      ∷ permission x m.new_instantiate_permission
      ∷ [])

  pub validate_update_params : MsgUpdateParams → Outcome (Unit {0})
  unfolding validate_params
  validate_update_params m =
      first_failure (address x "authority" m.authority ∷ validate_params x m.params ∷ [])

  unfoldable pub validate_pin_codes : MsgPinCodes → Outcome (Unit {0})
  unfolding validate_code_ids
  validate_pin_codes m =
      first_failure (address x "authority" m.authority ∷ validate_code_ids m.code_ids ∷ [])

  pub validate_sudo_contract : MsgSudoContract → Outcome (Unit {0})
  validate_sudo_contract m =
      first_failure
        (address x "authority" m.authority ∷ address x "contract" m.contract ∷ payload x m.msg ∷ [])

  abbrev store_and_instantiate_contract_checks :
      MsgStoreAndInstantiateContract → List (Outcome (Unit {0}))
  unfolding validate_label validate_verification_info validate_wasm_code
  store_and_instantiate_contract_checks m =
      address x "authority" m.authority
      ∷ label x m.label
      ∷ within "funds" (x.coins m.funds)
      ∷ unless_empty m.admin (address x "admin" m.admin)
      ∷ within "code verification info"
          (validate_verification_info x m.source m.builder m.code_hash)
      ∷ payload x m.msg
      ∷ wasm_code x m.wasm_byte_code
      ∷ permission x m.instantiate_permission
      ∷ []

  unfoldable pub validate_store_and_instantiate_contract :
      MsgStoreAndInstantiateContract → Outcome (Unit {0})
  unfolding validate_label validate_verification_info validate_wasm_code
  validate_store_and_instantiate_contract m =
      first_failure (store_and_instantiate_contract_checks m)

  unfoldable pub validate_code_upload_params_addresses :
      MsgCodeUploadParamsAddresses → Outcome (Unit {0})
  unfolding validate_bech32_addresses
  validate_code_upload_params_addresses m =
      first_failure
        (address x "authority" m.authority ∷ validate_bech32_addresses x.sdk m.addresses ∷ [])

  abbrev store_and_migrate_contract_checks : MsgStoreAndMigrateContract → List (Outcome (Unit {0}))
  unfolding validate_wasm_code
  store_and_migrate_contract_checks m =
      address x "authority" m.authority
      ∷ address x "contract" m.contract
      ∷ payload x m.msg
      ∷ wasm_code x m.wasm_byte_code
      ∷ permission x m.instantiate_permission
      ∷ []

  unfoldable pub validate_store_and_migrate_contract :
      MsgStoreAndMigrateContract → Outcome (Unit {0})
  unfolding validate_wasm_code
  validate_store_and_migrate_contract m = first_failure (store_and_migrate_contract_checks m)

  pub validate_update_contract_label : MsgUpdateContractLabel → Outcome (Unit {0})
  unfolding validate_label
  validate_update_contract_label m =
      first_failure
        (address x "sender" m.sender ∷ label x m.new_label ∷ address x "contract" m.contract ∷ [])

  -- the ValidateBasic of a message
  unfoldable pub validate : Message → Outcome (Unit {0})
  validate (store_code m) = validate_store_code m
  validate (instantiate_contract m) = validate_instantiate_contract m
  validate (instantiate_contract2 m) = validate_instantiate_contract2 m
  validate (execute_contract m) = validate_execute_contract m
  validate (migrate_contract m) = validate_migrate_contract m
  validate (update_admin m) = validate_update_admin m
  validate (clear_admin m) = validate_clear_admin m
  validate (update_instantiate_config m) = validate_update_instantiate_config m
  validate (update_params m) = validate_update_params m
  validate (pin_codes m) = validate_pin_codes m
  validate (unpin_codes m) = validate_pin_codes m
  validate (sudo_contract m) = validate_sudo_contract m
  validate (store_and_instantiate_contract m) = validate_store_and_instantiate_contract m
  validate (add_code_upload_params_addresses m) = validate_code_upload_params_addresses m
  validate (remove_code_upload_params_addresses m) = validate_code_upload_params_addresses m
  validate (store_and_migrate_contract m) = validate_store_and_migrate_contract m
  validate (update_contract_label m) = validate_update_contract_label m
