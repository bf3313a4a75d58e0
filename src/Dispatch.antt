-- ===== src/Dispatch.antt =====
-- Message dispatch, x/wasm/keeper/msg_dispatcher.go, and the response handler of keeper.go.
-- The messenger and the keeper's reply are interfaces in Go and arguments here, over any type of
-- store. Attributes have no index, the flag that the SDK keeps beside key and value.
pub mod Sort
pub mod Frame
pub mod Isolate
pub mod Limit
pub mod Data
pub mod Redact
pub mod Opaque
mod Tests
use text.Mathlib.Text.{◌==◌ as str_eq}
use cosmwasgo.Base.{
  ℕ, ◌+◌, ◌-◌, Bool, true, false, not, ◌&&◌, List, [], ◌∷◌, ◌++◌, map, Option, none, some, String,
  ltb, if◌then◌else◌,
}
use cosmwasgo.Base.Outcome.{
  Error, registered, wrap, deterministic, system, redacted, Panic, out_of_gas, gas_overflow, other,
  Outcome, ok, err, panic, Exec, pure, fail, throw, ◌>>=◌, ◌>>◌,
}
use cosmwasgo.Vm.{
  Bytes, word64, EventAttribute, Event, CosmosMsg, is_wasm, ReplyOn, reply_always, reply_success,
  reply_error, reply_never, invalid, SubMsg, MsgResponse, SubMsgResponse, SubMsgResult, Reply,
}
use cosmwasgo.Sdk.{GasMeter, ErrorInfo, Ctx, consume_gas, emit}
use Sort.{sort_by_key}

-- what Messenger.DispatchMsg returns beside the error
pub record Dispatched : Type 0 where
  pub events : List Event
  pub data_list : List Bytes
  pub msg_responses : List (List MsgResponse)

-- redactError
pub redact_error : ErrorInfo → Error → Error
redact_error info (system e) = system e
redact_error info (deterministic e) = deterministic e
redact_error info e = redacted (info.abci_info e).0 (info.abci_info e).1

-- filterEvents
pub filter_events : List Event → List Event
filter_events [] = []
filter_events (ev ∷ events) =
    if str_eq ev.type "message" then filter_events events else ev ∷ filter_events events

abbrev sort_attributes : Event → Event
sort_attributes ev = record ev { attributes = sort_by_key ev.attributes }

-- The events that a sub-message passes on. For a wasm message their attributes are sorted, in the
-- slices that the emitted events share with those of the reply.
pub passed_events : CosmosMsg → List Event → List Event
unfolding filter_events sort_by_key
passed_events msg events =
    if is_wasm msg then map sort_attributes (filter_events events) else filter_events events

-- `data[0]` if there is one
abbrev pub first_data : List Bytes → Bytes
first_data [] = []
first_data (d ∷ ds) = d

-- the flattening loop over msgResponses
abbrev pub flatten_responses : List (List MsgResponse) → List MsgResponse
flatten_responses [] = []
flatten_responses (rs ∷ rss) = rs ++ flatten_responses rss

-- the SubMsgResult of a message that succeeded; only a wasm message shows its events to the contract
pub success_result : CosmosMsg → List Event → Dispatched → SubMsgResult
success_result msg passed d = record {
  response = some (record {
    events = if is_wasm msg then passed else [];
    data_bytes = first_data d.data_list;
    msg_responses = flatten_responses d.msg_responses;
  });
  error = "";
}

pub error_result : ErrorInfo → Error → SubMsgResult
unfolding redact_error
error_result info e = record { response = none; error = info.text (redact_error info e) }

-- the switch at the head of the loop
abbrev pub is_valid : ReplyOn → Bool
is_valid invalid = false
is_valid _ = true

abbrev pub make_reply : SubMsg → SubMsgResult → Reply
make_reply msg result = record { id = msg.id; result = result; payload = msg.payload }

abbrev pub err_out_of_gas : Error
err_out_of_gas = registered "sdk" 11

-- `rspData != nil` replaces the data so far
abbrev pub newer : Option Bytes → Option Bytes → Option Bytes
newer rsp none = rsp
newer rsp (some d) = some d

-- Messenger.DispatchMsg for a contract and its IBC port
abbrev pub Messenger : GasMeter → Type 0 → Type 0
Messenger G S = CosmosMsg → Exec (Ctx G S) Dispatched

-- `ctx.GasMeter().Limit() - ctx.GasMeter().GasConsumed()` in uint64
abbrev pub gas_remaining : (G : GasMeter) → G.Meter → ℕ
gas_remaining G m = word64 (G.limit m + 0x1_0000_0000_0000_0000 - G.consumed m)

module _ (G : GasMeter) {S : Type 0} where
  -- the deferred function of dispatchMsgWithGasLimit on an out-of-gas panic
  abbrev pub charge_limit : ℕ → Exec (Ctx G S) Dispatched
  charge_limit gas_limit =
      consume_gas G gas_limit >> fail (wrap err_out_of_gas "SubMsg hit gas limit")

  -- ... and on any end of the body: other panics go on
  abbrev pub recover_out_of_gas : ℕ → Exec (Ctx G S) Dispatched → Exec (Ctx G S) Dispatched
  recover_out_of_gas gas_limit body c = elim (body c).0 [
    | ok d ↦ (ok d, (body c).1)
    | err e ↦ (err e, (body c).1)
    | panic p ↦ elim p [
      | out_of_gas ↦ charge_limit gas_limit (body c).1
      | gas_overflow ↦ (panic gas_overflow, (body c).1)
      | other s ↦ (panic (other s), (body c).1)
    ]
  ]

  -- The body: the message runs on a meter of its own, and its parent is charged what it spent.
  -- After a panic of the message nothing of that is done.
  abbrev pub limited_body : Messenger G S → CosmosMsg → ℕ → Exec (Ctx G S) Dispatched
  limited_body messenger msg gas_limit c =
      let (r, sub) = messenger msg (record c { meter = G.new_meter gas_limit }) in
      let back : Ctx G S = record sub { meter = c.meter } in
      elim r [
        | ok d ↦ (consume_gas G (G.consumed sub.meter) >> pure d) back
        | err e ↦ (consume_gas G (G.consumed sub.meter) >> fail e) back
        | panic p ↦ (panic p, back)
      ]

  -- dispatchMsgWithGasLimit
  unfoldable pub dispatch_msg_with_gas_limit :
      Messenger G S → CosmosMsg → ℕ → Exec (Ctx G S) Dispatched
  dispatch_msg_with_gas_limit messenger msg gas_limit =
      recover_out_of_gas gas_limit (limited_body messenger msg gas_limit)

  -- the call of the messenger, with the gas limit if there is one below what remains
  unfoldable pub call_messenger :
      Messenger G S → CosmosMsg → Option ℕ → ℕ → Exec (Ctx G S) Dispatched
  call_messenger messenger msg none remaining = messenger msg
  call_messenger messenger msg (some limit) remaining =
      if ltb limit remaining then dispatch_msg_with_gas_limit messenger msg limit else messenger msg

  -- the end of the sandbox: commit the copy and pass the events on, or drop both
  abbrev pub close_sandbox :
      CosmosMsg
      → Ctx G S
      → Outcome Dispatched × Ctx G S
      → Outcome (Dispatched × List Event) × Ctx G S
  close_sandbox msg c (ok d, sub) =
      let passed = passed_events msg (sub.events ++ d.events) in
      (ok (d, passed), record sub { events = c.events ++ passed })
  close_sandbox msg c (err e, sub) =
      (err e, record c { meter = sub.meter; tx_contracts = sub.tx_contracts })
  close_sandbox msg c (panic p, sub) =
      (panic p, record c { meter = sub.meter; tx_contracts = sub.tx_contracts })

  -- The sandbox of one message: it runs on a copy of the store with an event manager of its own.
  -- After success the copy is committed and the events are passed on, else both are dropped.
  unfoldable pub run_sandbox : Messenger G S → SubMsg → Exec (Ctx G S) (Dispatched × List Event)
  run_sandbox messenger msg c = close_sandbox msg.msg c (
      call_messenger messenger msg.msg msg.gas_limit (gas_remaining G c.meter)
        (record c { events = [] }))

  abbrev pub wrap_reply : Outcome (Option Bytes) × Ctx G S → Outcome (Option Bytes) × Ctx G S
  wrap_reply (ok d, c) = (ok d, c)
  wrap_reply (err e, c) = (err (wrap e "reply"), c)
  wrap_reply (panic p, c) = (panic p, c)

  module _ (info : ErrorInfo) (messenger : Messenger G S)
      (reply : Reply → Exec (Ctx G S) (Option Bytes)) where
    -- the call of the contract's reply entry point, with the error wrapped
    abbrev pub call_reply : SubMsg → SubMsgResult → Exec (Ctx G S) (Option Bytes)
    call_reply msg result c = wrap_reply (reply (make_reply msg result) c)

    -- after a success: a reply if it is asked for
    abbrev pub on_success :
        ReplyOn → SubMsg → Dispatched → List Event → Exec (Ctx G S) (Option Bytes)
    on_success reply_always msg d passed = call_reply msg (success_result msg.msg passed d)
    on_success reply_success msg d passed = call_reply msg (success_result msg.msg passed d)
    on_success reply_error msg d passed = pure none
    on_success reply_never msg d passed = pure none
    on_success invalid msg d passed = pure none

    -- after an error: a reply if it is asked for, else the error is returned
    abbrev pub on_error : ReplyOn → SubMsg → Error → Exec (Ctx G S) (Option Bytes)
    on_error reply_always msg e = call_reply msg (error_result info e)
    on_error reply_success msg e = fail e
    on_error reply_error msg e = call_reply msg (error_result info e)
    on_error reply_never msg e = fail e
    on_error invalid msg e = fail e

    abbrev pub answer :
        SubMsg → Outcome (Dispatched × List Event) × Ctx G S → Outcome (Option Bytes) × Ctx G S
    answer msg (ok (d, passed), c) = on_success msg.reply_on msg d passed c
    answer msg (err e, c) = on_error msg.reply_on msg e c
    answer msg (panic p, c) = (panic p, c)

    -- one round of the loop in DispatchSubmessages; the result is the data of the reply, if any
    unfoldable pub dispatch_submessage : SubMsg → Exec (Ctx G S) (Option Bytes)
    dispatch_submessage msg c =
        if is_valid msg.reply_on
        then answer msg (run_sandbox messenger msg c)
        else (err (wrap (registered "wasm" 14) "replyOn value"), c)

    unfoldable pub dispatch_from : Option Bytes → List SubMsg → Exec (Ctx G S) (Option Bytes)
    dispatch_from rsp [] = pure rsp
    dispatch_from rsp (msg ∷ msgs) =
        dispatch_submessage msg >>= λ d. dispatch_from (newer rsp d) msgs

    -- DispatchSubmessages
    unfoldable pub dispatch_submessages : List SubMsg → Exec (Ctx G S) (Option Bytes)
    unfolding dispatch_from
    dispatch_submessages msgs = dispatch_from none msgs

    -- DefaultWasmVMContractResponseHandler.Handle
    unfoldable pub handle : List SubMsg → Option Bytes → Exec (Ctx G S) (Option Bytes)
    unfolding dispatch_submessages
    handle messages orig = dispatch_submessages messages >>= λ rsp. pure (newer orig rsp)

  -- DispatchMessages
  pub dispatch_messages : Messenger G S → List CosmosMsg → Exec (Ctx G S) (Unit {0})
  dispatch_messages messenger [] = pure tt
  dispatch_messages messenger (msg ∷ msgs) =
      messenger msg >>= λ d. emit G d.events >> dispatch_messages messenger msgs
