-- ===== src/Keeper/Handlers.antt =====
-- The message handlers, x/wasm/keeper/handler_plugin.go: the messages of contracts are encoded as
-- messages of the SDK and routed, with the chain of handlers, the guard of the call depth and the
-- handler of burns. The router of the SDK, its signers and the handler of raw IBC packets are
-- parameters.
pub mod Encoders
pub mod Related
pub mod Within
pub mod Signed
pub mod Concrete
mod Tests
use cosmwasgo.Base.{
  ℕ, Bool, true, false, not, List, [], ◌∷◌, ◌++◌, Option, none, some, any, bytes_eq, if◌then◌else◌,
  String,
}
use text.Mathlib.Text.{◌==◌ as str_eq}
use cosmwasgo.Base.{◌==◌, ◌&&◌}
use cosmwasgo.Base.Outcome.{
  Error, registered, wrap, wrap_cause, flavoured, deterministic, system, redacted, external,
  Outcome, ok, err, panic, Exec, pure, fail, lift, fail_if, continue, rescue, ◌>>=◌, ◌>>◌,
}
use cosmwasgo.Vm.{Bytes, Event, CosmosMsg, BankMsg, MsgResponse}
use cosmwasgo.Access.{err_empty}
use cosmwasgo.Sdk.{GasMeter}
use cosmwasgo.Dispatch.{Dispatched, Messenger}
use cosmwasgo.Keeper.State.{err_unauthorized}
use cosmwasgo.Keeper.Host.{Coin, Values, World, State, Effect, external as call_keeper}
use cosmwasgo.Keeper.Entry.{is_zero, wrap_error}
use cosmwasgo.Keeper.Metering.{check_and_increase_call_depth}
use cosmwasgo.Keeper.Server.{Answer}
use cosmwasgo.Messages.{Message}
use cosmwasgo.Messages.Validate.{Checks, validate}
use Encoders.{SdkMsg, Coding, convert_wasm_coins_to_sdk_coins, encode, err_unknown_msg}

-- sdk.Result
pub record SdkResult : Type 0 where
  pub data_bytes : Bytes
  pub events : List Event
  pub msg_responses : List MsgResponse

-- A MessageRouter that knows the module's Msg service: the handler of a message, which may call
-- that service.
abbrev pub Router : GasMeter → Type 0 → Type 0
Router G E = (Message → Exec (State G E) Answer) → SdkMsg → Option (Exec (State G E) SdkResult)

-- What the handlers are given: the coding and the checks of messages, the router, ValidateBasic of
-- messages of other modules, the signers of a message (GetMsgV1Signers), the handler of raw IBC
-- packets, and types.Burner.
pub record Plugins (G : GasMeter) (E : Type 0) : Type 0 where
  pub coding : Coding
  pub router : Router G E
  pub checks : Checks
  pub validate_other : SdkMsg → Outcome (Unit {0})
  pub signers : SdkMsg → Outcome (List Bytes)
  pub ibc_raw_packet : Values → Bytes → Bytes → Messenger G (World E)
  pub send_coins_from_account_to_module : Bytes → List Coin → E → G.Meter → Effect G E (Unit {0})
  pub burn_coins : List Coin → E → G.Meter → Effect G E (Unit {0})

-- errors.Is(err, types.ErrUnknownMsg); errors of other packages are others
abbrev pub is_unknown_msg : Error → Bool
is_unknown_msg (registered space code) = str_eq space "wasm" && code == 20
is_unknown_msg (wrap e text) = is_unknown_msg e
is_unknown_msg (wrap_cause e cause) = is_unknown_msg e
is_unknown_msg (flavoured e) = is_unknown_msg e
is_unknown_msg (deterministic e) = is_unknown_msg e
is_unknown_msg (system n) = false
is_unknown_msg (redacted space code) = false
is_unknown_msg (external n) = false

abbrev pub nothing : Dispatched
nothing = record { events = []; data_list = []; msg_responses = [] }

-- one more result before those that follow
abbrev pub prepend : SdkResult → Dispatched → Dispatched
prepend r d = record {
  events = r.events ++ d.events;
  data_list = r.data_bytes ∷ d.data_list;
  msg_responses = r.msg_responses ∷ d.msg_responses;
}

module _ (G : GasMeter) {E : Type 0} where
  -- the end of handleSdkMessage
  abbrev pub route : Option (Exec (State G E) SdkResult) → Exec (State G E) SdkResult
  route none = fail (wrap (registered "sdk" 6) "can't route message")
  route (some handler) = handler

  -- after an error of a handler: the next one, if it did not know the message
  abbrev pub or_next : Exec (State G E) Dispatched → Error → Exec (State G E) Dispatched
  or_next rest e = if is_unknown_msg e then rest else fail e

  -- MessageHandlerChain.DispatchMsg
  pub message_handler_chain : List (Messenger G (World E)) → Messenger G (World E)
  message_handler_chain [] msg c = (err (wrap err_unknown_msg "no handler found"), c)
  message_handler_chain (h ∷ handlers) msg c =
      rescue (h msg c).0 (or_next (message_handler_chain handlers msg)) (h msg c).1

  -- the messenger in the deeper context, unless the depth is exceeded
  abbrev pub at_depth :
      Outcome Values → (Values → Exec (State G E) Dispatched) → Exec (State G E) Dispatched
  at_depth (ok deeper) f = f deeper
  at_depth (err e) f = fail (wrap e "dispatch")
  at_depth (panic p) f = λ c. (panic p, c)

  -- callDepthMessageHandler.DispatchMsg
  pub call_depth_handler :
      ℕ
      → (Values → Bytes → Bytes → Messenger G (World E))
      → Values
      → Bytes
      → Bytes
      → Messenger G (World E)
  call_depth_handler max messenger v addr port msg =
      at_depth (check_and_increase_call_depth max v) (λ deeper. messenger deeper addr port msg)

  module _ (p : Plugins G E) where
    -- sdk.HasValidateBasic
    abbrev pub validate_basic : SdkMsg → Outcome (Unit {0})
    validate_basic (SdkMsg.wasm m) = validate p.checks m
    validate_basic m = p.validate_other m

    -- handleSdkMessage
    pub handle_sdk_message :
        (Message → Exec (State G E) Answer) → Bytes → SdkMsg → Exec (State G E) SdkResult
    handle_sdk_message serve addr m = do
      lift (validate_basic m)
      signers ← lift (p.signers m)
      fail_if (any (λ acct. not (bytes_eq addr acct)) signers)
          (wrap err_unauthorized "contract doesn't have permission")
      route (p.router serve m)

    -- the loop of SDKMessageHandler.DispatchMsg
    pub handle_all :
        (Message → Exec (State G E) Answer) → Bytes → List SdkMsg → Exec (State G E) Dispatched
    unfolding handle_sdk_message
    handle_all serve addr [] = pure nothing
    handle_all serve addr (m ∷ msgs) = handle_sdk_message serve addr m >>= λ r.
        handle_all serve addr msgs >>= λ d. pure (prepend r d)

    -- SDKMessageHandler.DispatchMsg
    pub sdk_message_handler :
        (Values → Message → Exec (State G E) Answer)
        → Values
        → Bytes
        → Bytes
        → Messenger G (World E)
    unfolding handle_all
    sdk_message_handler serve v addr port msg =
        lift (encode p.coding v addr port msg) >>= λ msgs. handle_all (serve v) addr msgs

    -- SendCoinsFromAccountToModule and BurnCoins with their errors wrapped
    abbrev pub send_to_module : Bytes → List Coin → Exec (State G E) (Unit {0})
    send_to_module addr coins c =
        wrap_error "transfer to module"
          (call_keeper G (p.send_coins_from_account_to_module addr coins) c)

    abbrev pub burn_coins : List Coin → Exec (State G E) (Unit {0})
    burn_coins coins c = wrap_error "burn coins" (call_keeper G (p.burn_coins coins) c)

    -- the handler of NewBurnCoinMessageHandler, on the coins
    abbrev pub burn : Bytes → List Coin → Exec (State G E) Dispatched
    burn addr coins = do
      fail_if (is_zero coins) (wrap err_empty "amount")
      send_to_module addr coins
      burn_coins coins
      pure nothing

    -- NewBurnCoinMessageHandler
    pub burn_coin_handler : Bytes → Messenger G (World E)
    burn_coin_handler addr (CosmosMsg.bank (BankMsg.burn amount)) =
        lift (convert_wasm_coins_to_sdk_coins p.coding amount) >>= λ coins. burn addr coins
    burn_coin_handler addr msg = fail err_unknown_msg

    -- the handlers of NewDefaultMessageHandler
    abbrev pub default_handlers :
        (Values → Message → Exec (State G E) Answer)
        → Values
        → Bytes
        → Bytes
        → List (Messenger G (World E))
    default_handlers serve v addr port =
        sdk_message_handler serve v addr port
        ∷ p.ibc_raw_packet v addr port
        ∷ burn_coin_handler addr
        ∷ []

    -- NewDefaultMessageHandler, with the call depth guard that NewKeeper puts around it
    pub default_message_handler :
        ℕ
        → (Values → Message → Exec (State G E) Answer)
        → Values
        → Bytes
        → Bytes
        → Messenger G (World E)
    unfolding call_depth_handler message_handler_chain
    default_message_handler max serve =
        call_depth_handler max
          (λ v addr port. message_handler_chain (default_handlers serve v addr port))
