-- ===== src/Keeper/Agree/Dispatch.antt =====
-- The dispatch of sub-messages over two messengers and two replies that agree.
use cosmwasgo.Base.{
  ℕ, ◌<◌, ◌≡◌, refl, ap, ◌∙◌, List, [], ◌∷◌, Option, none, some, arith, ◌⊎◌, inl, inr, Option-cases,
  Bool-cases, ltb,
}
use cosmwasgo.Base.Outcome.{
  Error, wrap, Panic, out_of_gas, gas_overflow, other, Outcome, ok, err, panic, Exec, continue,
}
use cosmwasgo.Vm.{
  Bytes, Event, CosmosMsg, SubMsg, SubMsgResult, Reply, ReplyOn, reply_always, reply_success,
  reply_error, reply_never, invalid,
}
use cosmwasgo.Sdk.{GasMeter, GasMeterLaws, ErrorInfo, panicked}
use cosmwasgo.Dispatch.{
  Dispatched, Messenger, gas_remaining, dispatch_msg_with_gas_limit, call_messenger, close_sandbox,
  run_sandbox, wrap_reply, call_reply, on_success, on_error, answer, is_valid, make_reply,
  dispatch_submessage, dispatch_from, dispatch_submessages, handle, newer, err_out_of_gas,
  charge_limit, recover_out_of_gas,
}
use cosmwasgo.Keeper.Host.{World, State}
use cosmwasgo.Keeper.Agree.{
  Left, Ends, Agrees, bind_agrees, raise_agrees, lift_agrees, consume_agrees,
}

-- a limit below what remains is within the bound, as a meter of its own
remaining-Left :
    (G : GasMeter) (laws : GasMeterLaws G) (k : ℕ) (m : G.Meter) (l : ℕ)
    → Left G k m
    → l < gas_remaining G m
    → Left G k (G.new_meter l)
remaining-Left G laws k m l x lt = record {
  word = omega (arith, laws.new_limit l, x.word, x.within, lt);
  within = omega (arith, laws.new_limit l, laws.new_consumed l);
  rest = omega (arith, laws.new_limit l, laws.new_consumed l, x.word, x.within, x.rest, lt);
}

-- what the deferred function finds: a meter in order, or one past its limit after a panic
abbrev Found : (G : GasMeter) → ℕ → Outcome Dispatched → G.Meter → Type 0
Found G k (ok d) m = Left G k m
Found G k (err e) m = Left G k m
Found G k (panic out_of_gas) m = Left G k m ⊎ (G.limit m < G.consumed m)
Found G k (panic gas_overflow) m = Unit
Found G k (panic (other s)) m = Unit

module _ (G : GasMeter) (laws : GasMeterLaws G) {E : Type 0} (k : ℕ) where
  charge_limit-Ends :
      (l : ℕ) (c : State G E)
      → Left G k c.meter
      → Ends G k (charge_limit G l c).0 (charge_limit G l c).1.meter
  charge_limit-Ends l c x =
      (bind_agrees G (raise_agrees G k (omega arith) (consume_agrees G laws {E = E} k l))
          (λ u. lift_agrees G k (err (wrap err_out_of_gas "SubMsg hit gas limit")))).ends
        c x

  charge_limit_past :
      (l : ℕ) (c : State G E)
      → G.limit c.meter < G.consumed c.meter
      → Ends G k (charge_limit G l c).0 (charge_limit G l c).1.meter
  charge_limit_past l c h = elim (Option-cases (G.consume l c.meter).0) [
    | inl e ↦ absurd (omega (arith, laws.consume_none l c.meter e))
    | inr (p, e) ↦ rw e tt
  ]

  recovered-Ends :
      (l : ℕ) (c d : State G E) (r : Outcome Dispatched)
      → Found G k r d.meter
      → let x = recover_out_of_gas G l (λ c. (r, d)) c in Ends G k x.0 x.1.meter
  recovered-Ends l c d (ok a) x = x
  recovered-Ends l c d (err e) x = x
  recovered-Ends l c d (panic out_of_gas) (inl x) = charge_limit-Ends l d x
  recovered-Ends l c d (panic out_of_gas) (inr x) = charge_limit_past l d x
  recovered-Ends l c d (panic gas_overflow) x = tt
  recovered-Ends l c d (panic (other s)) x = tt

  -- the parent is charged what the message spent
  spent-Found :
      (n : ℕ) (m : G.Meter) (o : Option Panic) (r : Outcome Dispatched) (sub : State G E)
      → Left G k m
      → (G.consume n m).0 ≡ o
      → (Left G k (G.consume n m).1 → Found G k r (G.consume n m).1)
      → let x = continue (panicked o) (λ u c. (r, c)) (record sub { meter = (G.consume n m).1 }) in
        Found G k x.0 x.1.meter
  spent-Found n m none r sub x e h = h (record {
    word = omega (arith, x.word, laws.limit_consume n m);
    within = omega (arith, laws.consume_none n m e, laws.limit_consume n m);
    rest = omega (arith, laws.consume_none n m e, laws.limit_consume n m, x.rest);
  })
  spent-Found n m (some out_of_gas) r sub x e h =
      inr (omega (arith, laws.consume_out_of_gas n m e, laws.limit_consume n m))
  spent-Found n m (some gas_overflow) r sub x e h = tt
  spent-Found n m (some (other s)) r sub x e h = tt

  -- how a limited message ends, by how the message ended on the meter of its own
  limited-Ends :
      (msg : CosmosMsg) (l : ℕ) (c : State G E) (r : Outcome Dispatched) (sub : State G E)
      → Left G k c.meter
      → let x = dispatch_msg_with_gas_limit G (λ m d. (r, sub)) msg l c in Ends G k x.0 x.1.meter
  unfolding dispatch_msg_with_gas_limit
  limited-Ends msg l c (ok d) sub x =
      let n = G.consumed sub.meter in
      let paid : State G E = record sub { meter = (G.consume n c.meter).1 } in
      let after = continue (panicked (G.consume n c.meter).0) (λ u c. (ok d, c)) paid in
      recovered-Ends l c after.1 after.0
        (spent-Found n c.meter (G.consume n c.meter).0 (ok d) sub x refl (λ y. y))
  limited-Ends msg l c (err f) sub x =
      let n = G.consumed sub.meter in
      let paid : State G E = record sub { meter = (G.consume n c.meter).1 } in
      let after = continue (panicked (G.consume n c.meter).0) (λ u c. (err f, c)) paid in
      recovered-Ends l c after.1 after.0
        (spent-Found n c.meter (G.consume n c.meter).0 (err f) sub x refl (λ y. y))
  limited-Ends msg l c (panic out_of_gas) sub x =
      charge_limit-Ends l (record sub { meter = c.meter }) x
  limited-Ends msg l c (panic gas_overflow) sub x = tt
  limited-Ends msg l c (panic (other s)) sub x = tt

  module _ (messenger messenger' : Messenger G (World E))
      (messages : (msg : CosmosMsg) → Agrees G k k (messenger msg) (messenger' msg)) where
    limited_agrees :
        (msg : CosmosMsg) (l : ℕ) (c : State G E)
        → Left G k c.meter
        → l < gas_remaining G c.meter
        → (dispatch_msg_with_gas_limit G messenger msg l c
            ≡ dispatch_msg_with_gas_limit G messenger' msg l c)
          × Ends G k
              (dispatch_msg_with_gas_limit G messenger msg l c).0
              (dispatch_msg_with_gas_limit G messenger msg l c).1.meter
    unfolding dispatch_msg_with_gas_limit
    limited_agrees msg l c x lt =
        let sub : State G E = record c { meter = G.new_meter l } in
        (
          ap (λ r. dispatch_msg_with_gas_limit G (λ m d. r) msg l c)
              ((messages msg).same sub (remaining-Left G laws k c.meter l x lt)),
          limited-Ends msg l c (messenger msg sub).0 (messenger msg sub).1 x,
        )

    call_agrees :
        (msg : CosmosMsg) (limit : Option ℕ) (c : State G E)
        → Left G k c.meter
        → (call_messenger G messenger msg limit (gas_remaining G c.meter) c
            ≡ call_messenger G messenger' msg limit (gas_remaining G c.meter) c)
          × Ends G k
              (call_messenger G messenger msg limit (gas_remaining G c.meter) c).0
              (call_messenger G messenger msg limit (gas_remaining G c.meter) c).1.meter
    unfolding call_messenger
    call_agrees msg none c x = ((messages msg).same c x, (messages msg).ends c x)
    call_agrees msg (some l) c x = elim (Bool-cases (ltb l (gas_remaining G c.meter))) [
      | inl e ↦ rw e (limited_agrees msg l c x (ground arith))
      | inr e ↦ rw e ((messages msg).same c x, (messages msg).ends c x)
    ]

    close-Ends :
        (msg : CosmosMsg) (c sub : State G E) (r : Outcome Dispatched)
        → Ends G k r sub.meter
        → Ends G k (close_sandbox G msg c (r, sub)).0 (close_sandbox G msg c (r, sub)).1.meter
    close-Ends msg c sub (ok d) x = x
    close-Ends msg c sub (err e) x = x
    close-Ends msg c sub (panic p) x = tt

    sandbox_agrees :
        (msg : SubMsg) → Agrees G k k (run_sandbox G messenger msg) (run_sandbox G messenger' msg)
    unfolding run_sandbox
    sandbox_agrees msg = record {
      same = λ c x.
          ap (close_sandbox G msg.msg c)
            (call_agrees msg.msg msg.gas_limit (record c { events = [] }) x).0;
      ends = λ c x.
          let (r, sub) =
            call_messenger G messenger msg.msg msg.gas_limit (gas_remaining G c.meter)
              (record c { events = [] }) in
          close-Ends msg.msg c sub r
            (call_agrees msg.msg msg.gas_limit (record c { events = [] }) x).1;
    }

    module _ (info : ErrorInfo) (reply reply' : Reply → Exec (State G E) (Option Bytes))
        (replies : (r : Reply) → Agrees G k k (reply r) (reply' r)) where
      wrap_reply-Ends :
          (r : Outcome (Option Bytes)) (c : State G E)
          → Ends G k r c.meter
          → Ends G k (wrap_reply G (r, c)).0 (wrap_reply G (r, c)).1.meter
      wrap_reply-Ends (ok d) c x = x
      wrap_reply-Ends (err e) c x = x
      wrap_reply-Ends (panic p) c x = tt

      call_reply_agrees :
          (msg : SubMsg) (r : SubMsgResult)
          → Agrees G k k
              (call_reply G info messenger reply msg r)
              (call_reply G info messenger' reply' msg r)
      call_reply_agrees msg r = record {
        same = λ c x. ap (wrap_reply G) ((replies (make_reply msg r)).same c x);
        ends = λ c x.
            wrap_reply-Ends (reply (make_reply msg r) c).0 (reply (make_reply msg r) c).1
              ((replies (make_reply msg r)).ends c x);
      }

      success_agrees :
          (on : ReplyOn) (msg : SubMsg) (d : Dispatched) (passed : List Event)
          → Agrees G k k
              (on_success G info messenger reply on msg d passed)
              (on_success G info messenger' reply' on msg d passed)
      success_agrees reply_always msg d passed = call_reply_agrees msg _
      success_agrees reply_success msg d passed = call_reply_agrees msg _
      success_agrees reply_error msg d passed = lift_agrees G k (ok none)
      success_agrees reply_never msg d passed = lift_agrees G k (ok none)
      success_agrees invalid msg d passed = lift_agrees G k (ok none)

      error_agrees :
          (on : ReplyOn) (msg : SubMsg) (e : Error)
          → Agrees G k k
              (on_error G info messenger reply on msg e)
              (on_error G info messenger' reply' on msg e)
      error_agrees reply_always msg e = call_reply_agrees msg _
      error_agrees reply_success msg e = lift_agrees G k (err e)
      error_agrees reply_error msg e = call_reply_agrees msg _
      error_agrees reply_never msg e = lift_agrees G k (err e)
      error_agrees invalid msg e = lift_agrees G k (err e)

      answer_agrees :
          (msg : SubMsg) (r : Outcome (Dispatched × List Event)) (c : State G E)
          → Ends G k r c.meter
          → (answer G info messenger reply msg (r, c) ≡ answer G info messenger' reply' msg (r, c))
            × Ends G k
                (answer G info messenger reply msg (r, c)).0
                (answer G info messenger reply msg (r, c)).1.meter
      answer_agrees msg (ok (d, passed)) c x =
          let a = success_agrees msg.reply_on msg d passed in (a.same c x, a.ends c x)
      answer_agrees msg (err e) c x =
          let a = error_agrees msg.reply_on msg e in (a.same c x, a.ends c x)
      answer_agrees msg (panic p) c x = (refl, tt)

      sent_agrees :
          (msg : SubMsg)
          → Agrees G k k
              (λ c. answer G info messenger reply msg (run_sandbox G messenger msg c))
              (λ c. answer G info messenger' reply' msg (run_sandbox G messenger' msg c))
      sent_agrees msg = record {
        same = λ c x.
            let (r, sub) = run_sandbox G messenger msg c in
            (answer_agrees msg r sub ((sandbox_agrees msg).ends c x)).0
            ∙ ap (answer G info messenger' reply' msg) ((sandbox_agrees msg).same c x);
        ends = λ c x.
            let (r, sub) = run_sandbox G messenger msg c in
            (answer_agrees msg r sub ((sandbox_agrees msg).ends c x)).1;
      }

      submessage_agrees :
          (msg : SubMsg)
          → Agrees G k k
              (dispatch_submessage G info messenger reply msg)
              (dispatch_submessage G info messenger' reply' msg)
      unfolding dispatch_submessage
      submessage_agrees msg = elim (Bool-cases (is_valid msg.reply_on)) [
        | inl e ↦ record {
          same = λ c x. rw (e, dispatch_submessage) ((sent_agrees msg).same c x);
          ends = λ c x. rw (e, dispatch_submessage) ((sent_agrees msg).ends c x);
        }
        | inr e ↦ record {
          same = λ c x. rw (e, dispatch_submessage) refl;
          ends = λ c x. rw (e, dispatch_submessage) x;
        }
      ]

      from_agrees :
          (rsp : Option Bytes) (msgs : List SubMsg)
          → Agrees G k k
              (dispatch_from G info messenger reply rsp msgs)
              (dispatch_from G info messenger' reply' rsp msgs)
      unfolding dispatch_from
      from_agrees rsp [] = lift_agrees G k (ok rsp)
      from_agrees rsp (msg ∷ msgs) =
          bind_agrees G (submessage_agrees msg) (λ d. from_agrees (newer rsp d) msgs)

      -- messengers and replies that agree make response handlers that agree
      pub handle_agrees :
          (msgs : List SubMsg) (orig : Option Bytes)
          → Agrees G k k
              (handle G info messenger reply msgs orig)
              (handle G info messenger' reply' msgs orig)
      unfolding handle dispatch_submessages
      handle_agrees msgs orig =
          bind_agrees G (from_agrees none msgs) (λ rsp. lift_agrees G k (ok (newer orig rsp)))
