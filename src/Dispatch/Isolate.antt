-- ===== src/Dispatch/Isolate.antt =====
-- About the errors of sub-messages in DispatchSubmessages and what their sender sees of them.
use cosmwasgo.Base.{◌≡◌, Bool, true, false, List, [], ◌∷◌, Option, arith}
use cosmwasgo.Base.Outcome.{Error, Outcome, err, Exec}
use cosmwasgo.Vm.{Bytes, SubMsg, ReplyOn, reply_success, reply_never, Reply}
use cosmwasgo.Sdk.{GasMeter, ErrorInfo, Ctx}
use cosmwasgo.Dispatch.{
  Dispatched, Messenger, gas_remaining, call_messenger, run_sandbox, dispatch_submessage,
  dispatch_from, dispatch_submessages,
}

-- the values of ReplyOn for which the sender does not want to hear of a failure
abbrev pub is_abort : ReplyOn → Bool
is_abort reply_success = true
is_abort reply_never = true
is_abort _ = false

module _ (G : GasMeter) {S : Type 0} (info : ErrorInfo) (messenger : Messenger G S)
    (reply : Reply → Exec (Ctx G S) (Option Bytes)) (msg : SubMsg) (c : Ctx G S) where
  -- the call of the messenger in the sandbox of the message
  abbrev pub sandboxed : Outcome Dispatched × Ctx G S
  sandboxed =
      call_messenger G messenger msg.msg msg.gas_limit (gas_remaining G c.meter)
        (record c { events = [] })

  -- Where a sub-message fails and its sender asked for no reply to a failure, dispatch ends with the
  -- error of the message, whatever messages follow, and store and events are as they were before it.
  pub failed_message_aborts :
      (e : Error) (rest : List SubMsg)
      → sandboxed.0 ≡ err e
      → is_abort msg.reply_on ≡ true
      → let (r, after) = dispatch_submessages G info messenger reply (msg ∷ rest) c in
        (r ≡ err e) × (after.store ≡ c.store) × (after.events ≡ c.events)
  unfolding dispatch_submessages dispatch_from dispatch_submessage run_sandbox
  failed_message_aborts e rest h on = ground arith
