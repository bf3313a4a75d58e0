-- ===== src/Keeper/Server/Codes.antt =====
-- The handlers of x/wasm/keeper/msg_server.go for codes and parameters.
use cosmwasgo.Base.{not, List, some}
use cosmwasgo.Base.Outcome.{wrap, Exec, pure, fail_if, ◌>>=◌, ◌>>◌}
use cosmwasgo.Vm.{Bytes}
use cosmwasgo.Access.{err_invalid, is_any_of_addresses}
use cosmwasgo.Sdk.{GasMeter}
use cosmwasgo.Keeper.Host.{Values, State, Host, read_store, update_store}
use cosmwasgo.Keeper.Settings.{set_access_config, pin_code, unpin_code}
use cosmwasgo.Keeper.Code.{create}
use cosmwasgo.Messages.{
  MsgStoreCode, MsgUpdateInstantiateConfig, MsgUpdateParams, MsgPinCodes,
  MsgCodeUploadParamsAddresses, Message,
}
use cosmwasgo.Keeper.Server.Steps.{
  select_authorization_policy, add_addresses, remove_addresses, with_addresses, parse, basic,
  require_authority, for_each, deref, Service, Answer, done, stored,
}

module _ (G : GasMeter) {E : Type 0} (h : Host G E) (s : Service) (v : Values) where
  -- StoreCode
  unfoldable pub serve_store_code : MsgStoreCode → Exec (State G E) Answer
  unfolding select_authorization_policy
  serve_store_code m = do
    basic G h s (Message.store_code m)
    sender ← parse G h s "sender" m.sender
    r ←
        create G h (some sender) m.wasm_byte_code m.instantiate_permission
          (select_authorization_policy s v m.sender)
    pure (stored r.0 r.1)

  -- UpdateInstantiateConfig
  unfoldable pub serve_update_instantiate_config :
      MsgUpdateInstantiateConfig → Exec (State G E) Answer
  unfolding select_authorization_policy
  serve_update_instantiate_config m = do
    basic G h s (Message.update_instantiate_config m)
    sender ← parse G h s "sender" m.sender
    config ← deref G h s m.new_instantiate_permission
    set_access_config G h m.code_id sender config (select_authorization_policy s v m.sender)
    pure done

  -- UpdateParams
  unfoldable pub serve_update_params : MsgUpdateParams → Exec (State G E) Answer
  serve_update_params m = do
    basic G h s (Message.update_params m)
    require_authority G h s m.authority
    update_store G (λ w. record w { params = m.params })
    pure done

  -- PinCodes
  unfoldable pub serve_pin_codes : MsgPinCodes → Exec (State G E) Answer
  serve_pin_codes m = do
    basic G h s (Message.pin_codes m)
    require_authority G h s m.authority
    for_each G h s (pin_code G h) m.code_ids
    pure done

  -- UnpinCodes
  unfoldable pub serve_unpin_codes : MsgPinCodes → Exec (State G E) Answer
  serve_unpin_codes m = do
    basic G h s (Message.unpin_codes m)
    require_authority G h s m.authority
    for_each G h s (unpin_code G h) m.code_ids
    pure done

  -- the tests and the write that the next two handlers share
  unfoldable pub serve_code_upload_params :
      Message → Bytes → (List Bytes → List Bytes) → Exec (State G E) Answer
  serve_code_upload_params m authority f = do
    basic G h s m
    require_authority G h s authority
    params ← read_store G (λ w. w.params)
    fail_if (not (is_any_of_addresses params.code_upload_access.permission))
        (wrap err_invalid "permission")
    update_store G
        (λ w. record w { params = with_addresses (f params.code_upload_access.addresses) params })
    pure done

  -- AddCodeUploadParamsAddresses
  unfoldable pub serve_add_code_upload_params_addresses :
      MsgCodeUploadParamsAddresses → Exec (State G E) Answer
  unfolding serve_code_upload_params
  serve_add_code_upload_params_addresses m =
      serve_code_upload_params (Message.add_code_upload_params_addresses m) m.authority
        (λ addresses. add_addresses addresses m.addresses)

  -- RemoveCodeUploadParamsAddresses
  unfoldable pub serve_remove_code_upload_params_addresses :
      MsgCodeUploadParamsAddresses → Exec (State G E) Answer
  unfolding serve_code_upload_params
  serve_remove_code_upload_params_addresses m =
      serve_code_upload_params (Message.remove_code_upload_params_addresses m) m.authority
        (λ addresses. remove_addresses addresses m.addresses)
