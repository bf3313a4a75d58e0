-- ===== src/Keeper/Server/Tests.antt =====
-- The message server on inputs.
use cosmwasgo.Base.{ℕ, ◌≡◌, refl, false, not, ◌&&◌, ◌||◌, [], ◌∷◌, none, contains, arith}
use cosmwasgo.Base.Outcome.{◌>>=◌}
use cosmwasgo.Vm.{Bytes}
use cosmwasgo.Access.{any_of_addresses}
use cosmwasgo.Sdk.Concrete.{basic_meter}
use cosmwasgo.Keeper.Host.{State}
use cosmwasgo.Keeper.Concrete.{plain_host, plain_service, plain_values, empty_store, context}
use cosmwasgo.Keeper.Server.{
  done, serve, serve_add_code_upload_params_addresses, serve_remove_code_upload_params_addresses,
  serve_code_upload_params,
}
use cosmwasgo.Keeper.Server.Refused.{Refused, serve-Refused}
use cosmwasgo.Keeper.Server.Uploaders.{
  IsListing, with_uploaders, uploaders, uploaders_added, uploaders_removed,
}
use cosmwasgo.Keeper.Server.Parts.{
  then_instantiate, then_migrate, store_and_instantiate_parts, store_and_migrate_parts,
}
use cosmwasgo.Messages.{
  Message, MsgCodeUploadParamsAddresses, MsgStoreAndInstantiateContract, MsgStoreAndMigrateContract,
}
use cosmwasgo.Messages.Validate.{
  validate, validate_pin_codes, validate_code_upload_params_addresses,
  validate_store_and_instantiate_contract, validate_store_and_migrate_contract, byte_length,
  printable,
}
use cosmwasgo.Access.{validate_bech32_addresses}
use cosmwasgo.Keeper.Events.{trim_space}
use cosmwasgo.Messages.Validate.Parts.{upload_part, new_code_part}

abbrev alice : Bytes
alice = 10 ∷ []

abbrev bob : Bytes
bob = 11 ∷ []

-- codes are to be pinned by an account that is not the authority
abbrev pinning : Message
pinning = Message.pin_codes (record { authority = alice; code_ids = 1 ∷ [] })

serve-Refused_example :
    Refused basic_meter
      (serve basic_meter plain_host plain_service plain_values pinning)
      (context empty_store)
unfolding validate validate_pin_codes
serve-Refused_example =
    serve-Refused basic_meter plain_host plain_service plain_values pinning (context empty_store)
      refl

-- a store where listed addresses upload, alice among them
abbrev listing : State basic_meter ℕ
listing = context (record empty_store {
  params = record empty_store.params {
    code_upload_access = record { permission = any_of_addresses; addresses = alice ∷ [] };
  };
})

abbrev naming : Bytes → MsgCodeUploadParamsAddresses
naming a = record { authority = 1 ∷ []; addresses = a ∷ [] }

uploaders_added_example :
    let after =
      (serve_add_code_upload_params_addresses basic_meter plain_host plain_service plain_values
        (naming bob)
        listing).1 in
    IsListing basic_meter plain_host plain_service plain_values (1 ∷ []) listing
    × (after
        ≡ with_uploaders basic_meter plain_host plain_service plain_values
            (uploaders basic_meter plain_host plain_service plain_values after)
            listing)
    × (contains (uploaders basic_meter plain_host plain_service plain_values after) bob
        ≡ contains (alice ∷ []) bob || contains (bob ∷ []) bob)
unfolding serve_add_code_upload_params_addresses serve_code_upload_params validate
    validate_code_upload_params_addresses validate_bech32_addresses
uploaders_added_example =
    uploaders_added basic_meter plain_host plain_service plain_values (naming bob) listing done bob
      refl

uploaders_removed_example :
    let after =
      (serve_remove_code_upload_params_addresses basic_meter plain_host plain_service plain_values
        (naming alice)
        listing).1 in
    IsListing basic_meter plain_host plain_service plain_values (1 ∷ []) listing
    × (after
        ≡ with_uploaders basic_meter plain_host plain_service plain_values
            (uploaders basic_meter plain_host plain_service plain_values after)
            listing)
    × (contains (uploaders basic_meter plain_host plain_service plain_values after) alice
        ≡ contains (alice ∷ []) alice && not (contains (alice ∷ []) alice))
unfolding serve_remove_code_upload_params_addresses serve_code_upload_params validate
    validate_code_upload_params_addresses validate_bech32_addresses
uploaders_removed_example =
    uploaders_removed basic_meter plain_host plain_service plain_values (naming alice) listing done
      alice refl

abbrev both : MsgStoreAndInstantiateContract
both = record {
  authority = alice;
  wasm_byte_code = 0 ∷ 1 ∷ [];
  instantiate_permission = none;
  unpin_code = false;
  admin = bob;
  label = "one";
  msg = 1 ∷ [];
  funds = [];
  source = [];
  builder = [];
  code_hash = none;
}

store_and_instantiate_parts_example :
    serve basic_meter plain_host plain_service plain_values
      (Message.store_and_instantiate_contract both)
      (context empty_store)
    ≡ (serve basic_meter plain_host plain_service plain_values
            (Message.store_code (upload_part both))
          >>= then_instantiate basic_meter plain_host plain_service plain_values both)
        (context empty_store)
unfolding validate validate_store_and_instantiate_contract byte_length trim_space printable
store_and_instantiate_parts_example =
    store_and_instantiate_parts basic_meter plain_host plain_service plain_values both
      (context empty_store) refl (omega arith)

abbrev moving : MsgStoreAndMigrateContract
moving = record {
  authority = alice;
  wasm_byte_code = 0 ∷ 1 ∷ [];
  instantiate_permission = none;
  contract = bob;
  msg = 1 ∷ [];
}

store_and_migrate_parts_example :
    serve basic_meter plain_host plain_service plain_values
      (Message.store_and_migrate_contract moving)
      (context empty_store)
    ≡ (serve basic_meter plain_host plain_service plain_values
            (Message.store_code (new_code_part moving))
          >>= then_migrate basic_meter plain_host plain_service plain_values moving)
        (context empty_store)
unfolding validate validate_store_and_migrate_contract
store_and_migrate_parts_example =
    store_and_migrate_parts basic_meter plain_host plain_service plain_values moving
      (context empty_store) refl (omega arith)
