-- ===== src/Messages.antt =====
-- The messages of the module, x/wasm/types/tx.proto with x/wasm/types/tx.go: what a transaction, a
-- contract or governance asks for. Addresses are texts, as in the protobuf types; `none` is a nil
-- pointer.
pub mod Validate
use cosmwasgo.Base.{ℕ, Bool, List, Option, String}
use cosmwasgo.Vm.{Bytes}
use cosmwasgo.Access.{AccessConfig}
use cosmwasgo.Keeper.State.{Params}
use cosmwasgo.Keeper.Host.{Coin}

pub record MsgStoreCode : Type 0 where
  pub sender : Bytes
  pub wasm_byte_code : Bytes
  pub instantiate_permission : Option AccessConfig

pub record MsgInstantiateContract : Type 0 where
  pub sender : Bytes
  pub admin : Bytes
  pub code_id : ℕ
  pub label : String
  pub msg : Bytes
  pub funds : List Coin

-- MsgInstantiateContract2 has the fields of MsgInstantiateContract, and two more
pub record MsgInstantiateContract2 : Type 0 where
  pub base : MsgInstantiateContract
  pub salt : Bytes
  pub fix_msg : Bool

pub record MsgExecuteContract : Type 0 where
  pub sender : Bytes
  pub contract : Bytes
  pub msg : Bytes
  pub funds : List Coin

pub record MsgMigrateContract : Type 0 where
  pub sender : Bytes
  pub contract : Bytes
  pub code_id : ℕ
  pub msg : Bytes

pub record MsgUpdateAdmin : Type 0 where
  pub sender : Bytes
  pub new_admin : Bytes
  pub contract : Bytes

pub record MsgClearAdmin : Type 0 where
  pub sender : Bytes
  pub contract : Bytes

pub record MsgUpdateInstantiateConfig : Type 0 where
  pub sender : Bytes
  pub code_id : ℕ
  pub new_instantiate_permission : Option AccessConfig

pub record MsgUpdateParams : Type 0 where
  pub authority : Bytes
  pub params : Params

-- MsgPinCodes and MsgUnpinCodes
pub record MsgPinCodes : Type 0 where
  pub authority : Bytes
  pub code_ids : List ℕ

pub record MsgSudoContract : Type 0 where
  pub authority : Bytes
  pub contract : Bytes
  pub msg : Bytes

-- MsgStoreAndInstantiateContract; the checksum of the source may be nil
pub record MsgStoreAndInstantiateContract : Type 0 where
  pub authority : Bytes
  pub wasm_byte_code : Bytes
  pub instantiate_permission : Option AccessConfig
  pub unpin_code : Bool
  pub admin : Bytes
  pub label : String
  pub msg : Bytes
  pub funds : List Coin
  pub source : Bytes
  pub builder : Bytes
  pub code_hash : Option Bytes

-- MsgAddCodeUploadParamsAddresses and MsgRemoveCodeUploadParamsAddresses
pub record MsgCodeUploadParamsAddresses : Type 0 where
  pub authority : Bytes
  pub addresses : List Bytes

pub record MsgStoreAndMigrateContract : Type 0 where
  pub authority : Bytes
  pub wasm_byte_code : Bytes
  pub instantiate_permission : Option AccessConfig
  pub contract : Bytes
  pub msg : Bytes

pub record MsgUpdateContractLabel : Type 0 where
  pub sender : Bytes
  pub new_label : String
  pub contract : Bytes

-- the requests of the module's Msg service (MsgServer)
pub data Message : Type 0 where
  store_code : MsgStoreCode → Message
  instantiate_contract : MsgInstantiateContract → Message
  instantiate_contract2 : MsgInstantiateContract2 → Message
  execute_contract : MsgExecuteContract → Message
  migrate_contract : MsgMigrateContract → Message
  update_admin : MsgUpdateAdmin → Message
  clear_admin : MsgClearAdmin → Message
  update_instantiate_config : MsgUpdateInstantiateConfig → Message
  update_params : MsgUpdateParams → Message
  pin_codes unpin_codes : MsgPinCodes → Message
  sudo_contract : MsgSudoContract → Message
  store_and_instantiate_contract : MsgStoreAndInstantiateContract → Message
  add_code_upload_params_addresses : MsgCodeUploadParamsAddresses → Message
  remove_code_upload_params_addresses : MsgCodeUploadParamsAddresses → Message
  store_and_migrate_contract : MsgStoreAndMigrateContract → Message
  update_contract_label : MsgUpdateContractLabel → Message
