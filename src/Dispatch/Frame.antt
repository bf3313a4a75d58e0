-- ===== src/Dispatch/Frame.antt =====
-- About the effect of sub-messages on the store and the events of the contract that sends them.
use cosmwasgo.Base.{
  ltb, if◌then◌else◌, Bool-cases, ℕ, ◌≡◌, inl, inr, refl, sym, subst, Bool, true, false, List, [],
  ◌∷◌, Option, none, some, arith,
}
use cosmwasgo.Base.Outcome.{continue, Error, Outcome, ok, err, panic, Exec}
use cosmwasgo.Vm.{
  Bytes, Event, CosmosMsg, SubMsg, ReplyOn, reply_always, reply_success, reply_error, reply_never,
  invalid, Reply, SubMsgResult,
}
use cosmwasgo.Sdk.{GasMeter, ErrorInfo, Ctx}
use cosmwasgo.Dispatch.{
  Dispatched, Messenger, gas_remaining, dispatch_msg_with_gas_limit, call_messenger, run_sandbox,
  call_reply, dispatch_submessage, dispatch_from, dispatch_submessages, make_reply, close_sandbox,
  wrap_reply, on_success, on_error, answer, is_valid, newer,
}

module _ (G : GasMeter) {S : Type 0} (messenger : Messenger G S) where
  -- a limited message that succeeds leaves the store that the messenger left
  limited_ok :
      (msg : CosmosMsg) (limit : ℕ) (c : Ctx G S) (d : Dispatched)
      → (dispatch_msg_with_gas_limit G messenger msg limit c).0 ≡ ok d
      → let sub : Ctx G S = record c { meter = G.new_meter limit } in
        ((messenger msg sub).0 ≡ ok d)
        × ((dispatch_msg_with_gas_limit G messenger msg limit c).1.store
            ≡ (messenger msg sub).1.store)
  unfolding dispatch_msg_with_gas_limit
  limited_ok msg limit c d h = ground arith

  -- the meter that the message runs on
  abbrev sub_meter : Option ℕ → ℕ → Ctx G S → G.Meter
  sub_meter none remaining c = c.meter
  sub_meter (some limit) remaining c = if ltb limit remaining then G.new_meter limit else c.meter

  pick_ok :
      (msg : CosmosMsg) (l : ℕ) (b : Bool) (c : Ctx G S) (d : Dispatched)
      → let run = if b then dispatch_msg_with_gas_limit G messenger msg l else messenger msg in
        let sub : Ctx G S = record c { meter = if b then G.new_meter l else c.meter } in
        (run c).0 ≡ ok d
        → ((messenger msg sub).0 ≡ ok d) × ((run c).1.store ≡ (messenger msg sub).1.store)
  pick_ok msg l true c d h = limited_ok msg l c d h
  pick_ok msg l false c d h = (h, refl)

  call_ok :
      (msg : CosmosMsg) (limit : Option ℕ) (remaining : ℕ) (c : Ctx G S) (d : Dispatched)
      → (call_messenger G messenger msg limit remaining c).0 ≡ ok d
      → let sub : Ctx G S = record c { meter = sub_meter limit remaining c } in
        ((messenger msg sub).0 ≡ ok d)
        × ((call_messenger G messenger msg limit remaining c).1.store ≡ (messenger msg sub).1.store)
  unfolding call_messenger
  call_ok msg none remaining c d h = (h, refl)
  call_ok msg (some l) remaining c d h = pick_ok msg l (ltb l remaining) c d h

  module _ (P : S → Type 0)
      (messenger_keeps : (msg : CosmosMsg) (c : Ctx G S) (d : Dispatched)
        → (messenger msg c).0 ≡ ok d
        → P c.store
        → P (messenger msg c).1.store) where
    close_keeps :
        (msg : CosmosMsg) (c : Ctx G S) (r : Outcome Dispatched) (sub : Ctx G S)
        → P c.store
        → ((d : Dispatched) → r ≡ ok d → P sub.store)
        → P (close_sandbox G msg c (r, sub)).1.store
    close_keeps msg c (ok d) sub h k = k d refl
    close_keeps msg c (err e) sub h k = h
    close_keeps msg c (panic p) sub h k = h

    sandbox_keeps :
        (msg : SubMsg) (c : Ctx G S) → P c.store → P (run_sandbox G messenger msg c).1.store
    unfolding run_sandbox
    sandbox_keeps msg c h =
        let sub : Ctx G S = record c { events = [] } in
        let left = gas_remaining G c.meter in
        let (r, end) = call_messenger G messenger msg.msg msg.gas_limit left sub in
        close_keeps msg.msg c r end h (λ d e.
          let (ran, same) = call_ok msg.msg msg.gas_limit left sub d e in
          subst P (sym same) (
            messenger_keeps msg.msg (record sub { meter = sub_meter msg.gas_limit left sub }) d ran
              h))

    module _ (info : ErrorInfo) (reply : Reply → Exec (Ctx G S) (Option Bytes))
        (reply_keeps : (r : Reply) (c : Ctx G S) → P c.store → P (reply r c).1.store) where
      wrap_keeps :
          (r : Outcome (Option Bytes)) (c : Ctx G S) → P c.store → P (wrap_reply G (r, c)).1.store
      wrap_keeps (ok d) c h = h
      wrap_keeps (err e) c h = h
      wrap_keeps (panic p) c h = h

      call_reply_keeps :
          (msg : SubMsg) (r : SubMsgResult) (c : Ctx G S)
          → P c.store
          → P (call_reply G info messenger reply msg r c).1.store
      call_reply_keeps msg r c h =
          let (o, c') = reply (make_reply msg r) c in
          wrap_keeps o c' (reply_keeps (make_reply msg r) c h)

      success_keeps :
          (on : ReplyOn) (msg : SubMsg) (d : Dispatched) (passed : List Event) (c : Ctx G S)
          → P c.store
          → P (on_success G info messenger reply on msg d passed c).1.store
      success_keeps reply_always msg d passed c h = call_reply_keeps msg _ c h
      success_keeps reply_success msg d passed c h = call_reply_keeps msg _ c h
      success_keeps reply_error msg d passed c h = h
      success_keeps reply_never msg d passed c h = h
      success_keeps invalid msg d passed c h = h

      error_keeps :
          (on : ReplyOn) (msg : SubMsg) (e : Error) (c : Ctx G S)
          → P c.store
          → P (on_error G info messenger reply on msg e c).1.store
      error_keeps reply_always msg e c h = call_reply_keeps msg _ c h
      error_keeps reply_success msg e c h = h
      error_keeps reply_error msg e c h = call_reply_keeps msg _ c h
      error_keeps reply_never msg e c h = h
      error_keeps invalid msg e c h = h

      answer_keeps :
          (msg : SubMsg) (r : Outcome (Dispatched × List Event)) (c : Ctx G S)
          → P c.store
          → P (answer G info messenger reply msg (r, c)).1.store
      answer_keeps msg (ok (d, passed)) c h = success_keeps msg.reply_on msg d passed c h
      answer_keeps msg (err e) c h = error_keeps msg.reply_on msg e c h
      answer_keeps msg (panic p) c h = h

      submessage_keeps :
          (msg : SubMsg) (c : Ctx G S)
          → P c.store
          → P (dispatch_submessage G info messenger reply msg c).1.store
      unfolding dispatch_submessage
      submessage_keeps msg c h = elim (Bool-cases (is_valid msg.reply_on)) [
        | inl e ↦
            let (r, c') = run_sandbox G messenger msg c in
            rw (e, dispatch_submessage) (answer_keeps msg r c' (sandbox_keeps msg c h))
        | inr e ↦ rw (e, dispatch_submessage) h
      ]

      continue_keeps :
          (r : Outcome (Option Bytes)) (c : Ctx G S)
          (f : Option Bytes → Exec (Ctx G S) (Option Bytes))
          → P c.store
          → ((d : Option Bytes) → P c.store → P (f d c).1.store)
          → P (continue r f c).1.store
      continue_keeps (ok d) c f h k = k d h
      continue_keeps (err e) c f h k = h
      continue_keeps (panic p) c f h k = h

      from_keeps :
          (msgs : List SubMsg) (rsp : Option Bytes) (c : Ctx G S)
          → P c.store
          → P (dispatch_from G info messenger reply rsp msgs c).1.store
      unfolding dispatch_from
      from_keeps [] rsp c h = h
      from_keeps (msg ∷ msgs) rsp c h =
          let (r, c') = dispatch_submessage G info messenger reply msg c in
          continue_keeps r c' (λ d. dispatch_from G info messenger reply (newer rsp d) msgs)
            (submessage_keeps msg c h) (λ d. from_keeps msgs (newer rsp d) c')

      -- A property of the store that every successful run of the messenger keeps, and every reply
      -- however it ends, still holds after sub-messages were dispatched, however that ends and
      -- whatever the sub-messages that failed did to the store.
      pub dispatch_submessages_keeps :
          (msgs : List SubMsg) (c : Ctx G S)
          → P c.store
          → P (dispatch_submessages G info messenger reply msgs c).1.store
      unfolding dispatch_submessages
      dispatch_submessages_keeps msgs c h = from_keeps msgs none c h
