-- ===== src/Keeper/Closed.antt =====
-- The keeper with its own message handlers in the place of the response handler (NewKeeper,
-- x/wasm/keeper/keeper_cgo.go): what a contract returns is dispatched to the message server, which
-- calls the keeper again, and replies go to the contract that sent the message.
pub mod Invariant
pub mod Consistent
pub mod Births
pub mod Enough
mod Tests
use cosmwasgo.Base.{ℕ, zero, suc, List, Option}
use cosmwasgo.Base.Outcome.{other, Exec, throw}
use cosmwasgo.Vm.{Bytes, SubMsg}
use cosmwasgo.Sdk.{GasMeter, ErrorInfo}
use cosmwasgo.Dispatch.{handle}
use cosmwasgo.Keeper.Host.{Values, State, Host}
use cosmwasgo.Keeper.Entry.{reply}
use cosmwasgo.Keeper.Relation.{Handler, with_handler}
use cosmwasgo.Keeper.Server.{Service, Answer, serve}
use cosmwasgo.Keeper.Handlers.{Plugins, default_message_handler}
use cosmwasgo.Messages.{Message}

-- what NewKeeper is given; the response handler of `host` is not used
pub record Setup (G : GasMeter) (E : Type 0) : Type 0 where
  pub host : Host G E
  pub service : Service
  pub plugins : Plugins G E
  pub info : ErrorInfo
  pub max_call_depth : ℕ

module _ (G : GasMeter) {E : Type 0} (k : Setup G E) where
  -- DefaultWasmVMContractResponseHandler.Handle over the default message handler, for a keeper whose
  -- own responses `f` handles
  abbrev pub respond : Handler G E → Handler G E
  respond f v addr port msgs answer =
      let h = with_handler G k.host f in
      handle G k.info
        (default_message_handler G k.plugins k.max_call_depth (serve G h k.service) v addr port)
        (reply G h v addr) msgs answer

  -- The response handler of the running keeper. The number bounds how deep responses are handled
  -- within one another; below it, the handler `floor` is asked.
  pub handler : Handler G E → ℕ → Handler G E
  handler floor zero v addr port msgs answer = floor v addr port msgs answer
  handler floor (suc n) v addr port msgs answer = respond (handler floor n) v addr port msgs answer

  abbrev pub running : Handler G E → ℕ → Host G E
  running floor n = with_handler G k.host (handler floor n)

  -- a message that arrives at the running keeper
  pub run_message : Handler G E → ℕ → Values → Message → Exec (State G E) Answer
  unfolding handler
  run_message floor n v m = serve G (running floor n) k.service v m

-- a floor that ends the call
abbrev pub out_of_fuel : (G : GasMeter) {E : Type 0} → Handler G E
out_of_fuel G v addr port msgs answer = throw (other "out of fuel")
