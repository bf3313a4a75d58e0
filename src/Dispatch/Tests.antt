-- ===== src/Dispatch/Tests.antt =====
-- Dispatch on inputs: a bank message counts the store up, every other message counts it up and fails.
use cosmwasgo.Base.{ℕ, ◌+◌, ◌≤◌, ◌≡◌, refl, [], ◌∷◌, Option, none, some, arith, inr}
use cosmwasgo.Base.Outcome.{wrap, external, ok, err, Exec, pure, ◌>>=◌}
use cosmwasgo.Vm.{
  Bytes, Event, BankMsg, CosmosMsg, bank, custom, SubMsg, ReplyOn, reply_always, reply_error,
  reply_never, Reply,
}
use cosmwasgo.Sdk.{ErrorInfo, Ctx}
use cosmwasgo.Sdk.Concrete.{basic_meter}
use cosmwasgo.Dispatch.{
  Dispatched, Messenger, dispatch_msg_with_gas_limit, call_messenger, run_sandbox,
  dispatch_submessage, dispatch_from, dispatch_submessages, handle, error_result,
}
use cosmwasgo.Dispatch.Frame.{dispatch_submessages_keeps}
use cosmwasgo.Dispatch.Isolate.{failed_message_aborts}
use cosmwasgo.Dispatch.Opaque.{AlikeEnds, dispatch_submessages_alike}
use cosmwasgo.Dispatch.Data.{last_some, collect, handle-collect}
use cosmwasgo.Dispatch.Redact.{error_result_redacted}

abbrev State : Type 0
State = Ctx basic_meter ℕ

abbrev plain_info : ErrorInfo
plain_info = record { text = λ e. "text"; abci_info = λ e. ("sdk", 1) }

abbrev moved : Event
moved = record {
  type = "moved";
  attributes = record { key = "b"; value = "1" } ∷ record { key = "a"; value = "2" } ∷ [];
}

abbrev message : Event
message = record { type = "message"; attributes = [] }

abbrev counting : Messenger basic_meter ℕ
counting (bank b) c = (
  ok (record { events = message ∷ moved ∷ []; data_list = (5 ∷ []) ∷ []; msg_responses = [] }),
  record c { store = c.store + 1 },
)
counting _ c = (err (external 3), record c { store = c.store + 1 })

abbrev counting_reply : Reply → Exec State (Option Bytes)
counting_reply r c = (ok (some (r.id ∷ [])), record c { store = c.store + 10 })

abbrev start : State
start = record {
  store = 1;
  meter = record { limit = 1_000; consumed = 100 };
  events = [];
  tx_contracts = none;
}

abbrev good : SubMsg
good = record {
  id = 1;
  msg = bank BankMsg.unset;
  payload = [];
  gas_limit = none;
  reply_on = reply_always;
}

abbrev bad : ReplyOn → SubMsg
bad on = record { id = 2; msg = custom []; payload = []; gas_limit = some 50; reply_on = on }

-- the second message fails, and what it wrote is gone
one_fails :
    (dispatch_submessages basic_meter plain_info counting counting_reply
      (good ∷ bad reply_error ∷ [])
      start).1.store
    ≡ 22
unfolding dispatch_submessages dispatch_from dispatch_submessage run_sandbox call_messenger
    dispatch_msg_with_gas_limit
one_fails = refl

-- a store that is not 0 stays so
abbrev IsPositive : ℕ → Type 0
IsPositive n = 1 ≤ n

counting-IsPositive :
    (msg : CosmosMsg) (c : State) (d : Dispatched)
    → (counting msg c).0 ≡ ok d
    → IsPositive c.store
    → IsPositive (counting msg c).1.store
counting-IsPositive (bank b) c d e h = omega arith
counting-IsPositive _ c d e h = omega arith

dispatch_submessages_keeps_example :
    IsPositive
      (dispatch_submessages basic_meter plain_info counting counting_reply
        (good ∷ bad reply_error ∷ [])
        start).1.store
dispatch_submessages_keeps_example =
    dispatch_submessages_keeps basic_meter counting IsPositive counting-IsPositive plain_info
      counting_reply (λ r c h. omega arith) (good ∷ bad reply_error ∷ []) start (omega arith)

failed_message_aborts_example :
    let (r, after) =
      dispatch_submessages basic_meter plain_info counting counting_reply
        (bad reply_never ∷ good ∷ [])
        start in
    (r ≡ err (external 3)) × (after.store ≡ 1) × (after.events ≡ [])
unfolding call_messenger dispatch_msg_with_gas_limit
failed_message_aborts_example =
    failed_message_aborts basic_meter plain_info counting counting_reply (bad reply_never) start
      (external 3) (good ∷ []) refl refl

-- the same messenger, but for the error
abbrev counting' : Messenger basic_meter ℕ
counting' (bank b) c = counting (bank b) c
counting' msg c = (err (wrap (external 4) "secret"), record c { store = c.store + 1 })

counting-alike :
    (msg : CosmosMsg) (c : State)
    → AlikeEnds basic_meter plain_info (counting msg c) (counting' msg c)
counting-alike (bank b) c = record { outcomes = refl; contexts = refl }
counting-alike _ c = record { outcomes = inr (refl, refl, refl); contexts = refl }

dispatch_submessages_alike_example :
    AlikeEnds basic_meter plain_info
      (dispatch_submessages basic_meter plain_info counting counting_reply
        (good ∷ bad reply_error ∷ [])
        start)
      (dispatch_submessages basic_meter plain_info counting' counting_reply
        (good ∷ bad reply_error ∷ [])
        start)
dispatch_submessages_alike_example =
    dispatch_submessages_alike basic_meter plain_info counting_reply counting counting'
      counting-alike (good ∷ bad reply_error ∷ []) start

handle-collect_example :
    handle basic_meter plain_info counting counting_reply
      (good ∷ bad reply_error ∷ [])
      (some (0 ∷ []))
      start
    ≡ (collect basic_meter plain_info counting counting_reply (good ∷ bad reply_error ∷ [])
          >>= λ ds. pure (last_some (some (0 ∷ [])) ds))
        start
handle-collect_example =
    handle-collect basic_meter plain_info counting counting_reply (good ∷ bad reply_error ∷ [])
      (some (0 ∷ [])) start

error_result_redacted_example :
    error_result plain_info (external 3) ≡ error_result plain_info (wrap (external 4) "secret")
error_result_redacted_example =
    error_result_redacted plain_info (external 3) (wrap (external 4) "secret") refl refl refl
