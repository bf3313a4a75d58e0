-- ===== src/Keeper/Handlers/Tests.antt =====
-- The handlers on inputs: a contract that sends a message for another account.
use cosmwasgo.Base.{ℕ, ◌+◌, ◌≤◌, ◌≡◌, refl, false, [], ◌∷◌}
use cosmwasgo.Base.Outcome.{ok, is_ok, fail, external, Exec, pure, ◌>>=◌}
use cosmwasgo.Vm.{CosmosMsg, WasmMsg}
use cosmwasgo.Sdk.{consume_gas}
use cosmwasgo.Sdk.Concrete.{basic_meter, basic_meter-laws}
use cosmwasgo.Dispatch.{Messenger, dispatch_msg_with_gas_limit}
use cosmwasgo.Dispatch.Limit.{limited_message_charge}
use cosmwasgo.Keeper.Host.{Values, World, State}
use cosmwasgo.Keeper.Metering.{check_and_increase_call_depth}
use cosmwasgo.Keeper.Server.{Answer}
use cosmwasgo.Keeper.Relation.{bind_related}
use cosmwasgo.Keeper.Concrete.{plain_values, context, empty_store}
use cosmwasgo.Keeper.Handlers.{
  Plugins, sdk_message_handler, call_depth_handler, default_message_handler,
}
use cosmwasgo.Keeper.Handlers.Concrete.{plain_plugins, respects}
use cosmwasgo.Keeper.Handlers.Related.{PluginsRelated}
use cosmwasgo.Keeper.Handlers.Within.{
  Within, Within-IsClosed, IsWithin, quiet-IsWithin, consume-IsWithin,
  default_message_handler-within,
}
use cosmwasgo.Keeper.Handlers.Encoders.{SdkMsg, encode, encode_wasm_msg}
use cosmwasgo.Keeper.Handlers.Signed.{sdk_message_handler_signed}
use cosmwasgo.Messages.{Message}
use cosmwasgo.Messages.Validate.{validate, validate_clear_admin}

-- every message must be signed by the account 11
abbrev plugins : Plugins basic_meter ℕ
plugins = record plain_plugins { signers = λ m. ok ((11 ∷ []) ∷ []) }

abbrev clearing : CosmosMsg
clearing = CosmosMsg.wasm (WasmMsg.clear_admin (12 ∷ []))

sdk_message_handler_signed_example :
    is_ok
      (sdk_message_handler basic_meter plugins
        (λ v m. fail (external 1))
        plain_values
        (10 ∷ [])
        []
        clearing
        (context empty_store)).0
    ≡ false
unfolding encode encode_wasm_msg
sdk_message_handler_signed_example =
    sdk_message_handler_signed basic_meter plugins (λ v m. fail (external 1)) plain_values (10 ∷ [])
      [] clearing
      (SdkMsg.wasm (Message.clear_admin (record { sender = 10 ∷ []; contract = 12 ∷ [] })) ∷ [])
      (context empty_store) refl refl

-- a service that charges 30
abbrev charging : Values → Message → Exec (State basic_meter ℕ) Answer
charging v m = consume_gas basic_meter 30 >>= λ u. pure Answer.done

charging-IsWithin : (v : Values) (m : Message) → IsWithin basic_meter (charging v m)
charging-IsWithin v m =
    bind_related basic_meter (Within-IsClosed basic_meter) {m' = consume_gas basic_meter 30}
      {f' = λ u. pure Answer.done} (consume-IsWithin basic_meter basic_meter-laws 30)
      (λ u. quiet-IsWithin basic_meter (λ c. refl))

quiet_plugins : PluginsRelated basic_meter (Within basic_meter) plain_plugins
quiet_plugins =
    respects (Within basic_meter) (Within-IsClosed basic_meter)
      (λ addr coins. quiet-IsWithin basic_meter (λ c. refl))
      (λ coins. quiet-IsWithin basic_meter (λ c. refl))

-- the default message handler over that service
abbrev messenger : Messenger basic_meter (World ℕ)
messenger = default_message_handler basic_meter plain_plugins 500 charging plain_values (10 ∷ []) []

limited_message_charge_example :
    (dispatch_msg_with_gas_limit basic_meter messenger clearing 20
      (context empty_store)).1.meter.consumed
    ≤ (context empty_store).meter.consumed + 20
unfolding dispatch_msg_with_gas_limit default_message_handler call_depth_handler sdk_message_handler
    encode encode_wasm_msg check_and_increase_call_depth validate validate_clear_admin
limited_message_charge_example =
    limited_message_charge basic_meter basic_meter-laws messenger
      (default_message_handler-within basic_meter plain_plugins quiet_plugins 500 charging
        charging-IsWithin plain_values (10 ∷ []) [])
      clearing 20 (context empty_store) refl
