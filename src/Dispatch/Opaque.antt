-- ===== src/Dispatch/Opaque.antt =====
-- About what the details of errors change in a dispatch (redactError, DispatchSubmessages): two runs
-- over messengers that differ in them.
use cosmwasgo.Base.{
  ℕ, ◌≡◌, refl, ap, subst, false, List, [], ◌∷◌, Option, none, some, ltb, ◌⊎◌, inl, inr, Bool-cases,
}
use cosmwasgo.Base.Outcome.{
  Error, registered, wrap, Panic, Outcome, ok, err, panic, Exec, continue, ◌>>=◌,
}
use cosmwasgo.Vm.{
  Bytes, Event, CosmosMsg, SubMsg, Reply, ReplyOn, reply_always, reply_success, reply_error,
  reply_never, invalid,
}
use cosmwasgo.Sdk.{GasMeter, ErrorInfo, Ctx, panicked}
use cosmwasgo.Dispatch.{
  Dispatched, Messenger, gas_remaining, recover_out_of_gas, dispatch_msg_with_gas_limit,
  call_messenger, close_sandbox, run_sandbox, call_reply, on_error, answer, is_valid,
  dispatch_submessage, dispatch_from, dispatch_submessages, newer, error_result,
}
use cosmwasgo.Dispatch.Redact.{is_shown, error_result_redacted}

-- The errors are the same, or both are of those whose text is not shown, with one codespace and code.
abbrev pub LooksLike : ErrorInfo → Error → Error → Type 0
LooksLike info e e' =
    (e ≡ e')
    ⊎ ((is_shown e ≡ false) × (is_shown e' ≡ false) × (info.abci_info e ≡ info.abci_info e'))

abbrev pub Alike : ErrorInfo → {A : Type 0} → Outcome A → Outcome A → Type 0
Alike info (ok a) (ok b) = a ≡ b
Alike info (err e) (err e') = LooksLike info e e'
Alike info (panic p) (panic q) = p ≡ q
Alike info _ _ = ⊥

module _ (info : ErrorInfo) where
  Alike-refl : {A : Type 0} (r : Outcome A) → Alike info r r
  Alike-refl (ok a) = refl
  Alike-refl (err e) = inl refl
  Alike-refl (panic p) = refl

  error_result-alike :
      (e e' : Error) → LooksLike info e e' → error_result info e ≡ error_result info e'
  error_result-alike e e' (inl same) = ap (error_result info) same
  error_result-alike e e' (inr (h, h', same)) = error_result_redacted info e e' h h' same

module _ (G : GasMeter) {S : Type 0} (info : ErrorInfo) where
  -- two ends of a call in the same context, with alike outcomes
  pub record AlikeEnds {A : Type 0} (x y : Outcome A × Ctx G S) : Type 0 where
    pub outcomes : Alike info x.0 y.0
    pub contexts : x.1 ≡ y.1

  -- two calls that end alike in every context
  abbrev pub AlikeRuns : {A : Type 0} → Exec (Ctx G S) A → Exec (Ctx G S) A → Type 0
  AlikeRuns m m' = (c : Ctx G S) → AlikeEnds (m c) (m' c)

  same_ends : {A : Type 0} (x : Outcome A × Ctx G S) → AlikeEnds x x
  same_ends x = record { outcomes = Alike-refl info x.0; contexts = refl }

  equal_ends : {A : Type 0} (x y : Outcome A × Ctx G S) → x ≡ y → AlikeEnds x y
  equal_ends x y e = subst (AlikeEnds x) e (same_ends x)

  continue-Alike :
      {A B : Type 0} (r r' : Outcome A) (c : Ctx G S) (f f' : A → Exec (Ctx G S) B)
      → ((a : A) → AlikeRuns (f a) (f' a))
      → Alike info r r'
      → AlikeEnds (continue r f c) (continue r' f' c)
  continue-Alike (ok a) (ok b) c f f' h e = subst (λ x. AlikeEnds (f a c) (f' x c)) e (h a c)
  continue-Alike (err e) (err e') c f f' h x = record { outcomes = x; contexts = refl }
  continue-Alike (panic p) (panic q) c f f' h x = record { outcomes = x; contexts = refl }
  continue-Alike (ok a) (err e) c f f' h x = absurd x
  continue-Alike (ok a) (panic e) c f f' h x = absurd x
  continue-Alike (err a) (ok e) c f f' h x = absurd x
  continue-Alike (err a) (panic e) c f f' h x = absurd x
  continue-Alike (panic a) (ok e) c f f' h x = absurd x
  continue-Alike (panic a) (err e) c f f' h x = absurd x

  bind_alike :
      {A B : Type 0} (m m' : Exec (Ctx G S) A) (f f' : A → Exec (Ctx G S) B)
      → AlikeRuns m m'
      → ((a : A) → AlikeRuns (f a) (f' a))
      → AlikeRuns (m >>= f) (m' >>= f')
  bind_alike m m' f f' h k c =
      subst (λ d. AlikeEnds (continue (m c).0 f (m c).1) (continue (m' c).0 f' d)) (h c).contexts
        (continue-Alike (m c).0 (m' c).0 (m c).1 f f' k (h c).outcomes)

  -- what follows an outcome respects alike ends, if it does so in each context
  follow :
      {A B : Type 0} (F F' : Outcome A × Ctx G S → Outcome B × Ctx G S) (x y : Outcome A × Ctx G S)
      → ((r r' : Outcome A) (c : Ctx G S) → Alike info r r' → AlikeEnds (F (r, c)) (F' (r', c)))
      → AlikeEnds x y
      → AlikeEnds (F x) (F' y)
  follow F F' (r, c) (r', c') h k =
      subst (λ d. AlikeEnds (F (r, c)) (F' (r', d))) k.contexts (h r r' c k.outcomes)

  close-Alike :
      (msg : CosmosMsg) (c : Ctx G S) (r r' : Outcome Dispatched) (sub : Ctx G S)
      → Alike info r r'
      → AlikeEnds (close_sandbox G msg c (r, sub)) (close_sandbox G msg c (r', sub))
  close-Alike msg c (ok d) (ok d') sub e =
      equal_ends _ _ (ap (λ x. close_sandbox G msg c (ok x, sub)) e)
  close-Alike msg c (err e) (err e') sub x = record { outcomes = x; contexts = refl }
  close-Alike msg c (panic p) (panic q) sub x = record { outcomes = x; contexts = refl }
  close-Alike msg c (ok a) (err e) sub x = absurd x
  close-Alike msg c (ok a) (panic e) sub x = absurd x
  close-Alike msg c (err a) (ok e) sub x = absurd x
  close-Alike msg c (err a) (panic e) sub x = absurd x
  close-Alike msg c (panic a) (ok e) sub x = absurd x
  close-Alike msg c (panic a) (err e) sub x = absurd x

  paid_alike :
      (l : ℕ) (c paid : Ctx G S) (x : Option Panic) (e e' : Error)
      → LooksLike info e e'
      → AlikeEnds
          (recover_out_of_gas G l (λ d. continue (panicked x) (λ u z. (err e, z)) paid) c)
          (recover_out_of_gas G l (λ d. continue (panicked x) (λ u z. (err e', z)) paid) c)
  paid_alike l c paid none e e' k = record { outcomes = k; contexts = refl }
  paid_alike l c paid (some p) e e' k = same_ends (recover_out_of_gas G l (λ d. (panic p, paid)) c)

  limited-Alike :
      (msg : CosmosMsg) (l : ℕ) (c : Ctx G S) (r r' : Outcome Dispatched) (sub : Ctx G S)
      → Alike info r r'
      → AlikeEnds
          (dispatch_msg_with_gas_limit G (λ m d. (r, sub)) msg l c)
          (dispatch_msg_with_gas_limit G (λ m d. (r', sub)) msg l c)
  unfolding dispatch_msg_with_gas_limit
  limited-Alike msg l c (ok d) (ok d') sub e =
      equal_ends _ _ (ap (λ x. dispatch_msg_with_gas_limit G (λ m d. (ok x, sub)) msg l c) e)
  limited-Alike msg l c (err e) (err e') sub k =
      let paid : Ctx G S = record sub { meter = (G.consume (G.consumed sub.meter) c.meter).1 } in
      paid_alike l c paid (G.consume (G.consumed sub.meter) c.meter).0 e e' k
  limited-Alike msg l c (panic p) (panic q) sub e =
      equal_ends _ _ (ap (λ x. dispatch_msg_with_gas_limit G (λ m d. (panic x, sub)) msg l c) e)
  limited-Alike msg l c (ok a) (err e) sub x = absurd x
  limited-Alike msg l c (ok a) (panic e) sub x = absurd x
  limited-Alike msg l c (err a) (ok e) sub x = absurd x
  limited-Alike msg l c (err a) (panic e) sub x = absurd x
  limited-Alike msg l c (panic a) (ok e) sub x = absurd x
  limited-Alike msg l c (panic a) (err e) sub x = absurd x

  module _ (reply : Reply → Exec (Ctx G S) (Option Bytes)) where
    -- the call of the contract, with errors that look alike
    on_error_alike :
        (m m' : Messenger G S) (on : ReplyOn) (msg : SubMsg) (e e' : Error) (c : Ctx G S)
        → LooksLike info e e'
        → AlikeEnds (on_error G info m reply on msg e c) (on_error G info m' reply on msg e' c)
    on_error_alike m m' reply_always msg e e' c k =
        equal_ends _ _
          (ap (λ x. call_reply G info m reply msg x c) (error_result-alike info e e' k))
    on_error_alike m m' reply_error msg e e' c k =
        equal_ends _ _
          (ap (λ x. call_reply G info m reply msg x c) (error_result-alike info e e' k))
    on_error_alike m m' reply_success msg e e' c k = record { outcomes = k; contexts = refl }
    on_error_alike m m' reply_never msg e e' c k = record { outcomes = k; contexts = refl }
    on_error_alike m m' invalid msg e e' c k = record { outcomes = k; contexts = refl }

    answer-Alike :
        (m m' : Messenger G S) (msg : SubMsg) (r r' : Outcome (Dispatched × List Event))
        (c : Ctx G S)
        → Alike info r r'
        → AlikeEnds (answer G info m reply msg (r, c)) (answer G info m' reply msg (r', c))
    answer-Alike m m' msg (ok d) (ok d') c e =
        equal_ends _ _ (ap (λ x. answer G info m reply msg (ok x, c)) e)
    answer-Alike m m' msg (err e) (err e') c k = on_error_alike m m' msg.reply_on msg e e' c k
    answer-Alike m m' msg (panic p) (panic q) c e = record { outcomes = e; contexts = refl }
    answer-Alike m m' msg (ok a) (err e) c x = absurd x
    answer-Alike m m' msg (ok a) (panic e) c x = absurd x
    answer-Alike m m' msg (err a) (ok e) c x = absurd x
    answer-Alike m m' msg (err a) (panic e) c x = absurd x
    answer-Alike m m' msg (panic a) (ok e) c x = absurd x
    answer-Alike m m' msg (panic a) (err e) c x = absurd x

    module _ (messenger messenger' : Messenger G S)
        (messages : (msg : CosmosMsg) → AlikeRuns (messenger msg) (messenger' msg)) where
      call_alike :
          (msg : CosmosMsg) (limit : Option ℕ) (remaining : ℕ)
          → AlikeRuns
              (call_messenger G messenger msg limit remaining)
              (call_messenger G messenger' msg limit remaining)
      unfolding call_messenger dispatch_msg_with_gas_limit
      call_alike msg none remaining c = messages msg c
      call_alike msg (some l) remaining c = elim (Bool-cases (ltb l remaining)) [
        | inl e ↦ rw e (
            follow (λ x. dispatch_msg_with_gas_limit G (λ m d. x) msg l c)
              (λ x. dispatch_msg_with_gas_limit G (λ m d. x) msg l c)
              (messenger msg (record c { meter = G.new_meter l }))
              (messenger' msg (record c { meter = G.new_meter l }))
              (λ r r' sub. limited-Alike msg l c r r' sub)
              (messages msg (record c { meter = G.new_meter l })))
        | inr e ↦ rw e (messages msg c)
      ]

      submessage_alike :
          (msg : SubMsg)
          → AlikeRuns
              (dispatch_submessage G info messenger reply msg)
              (dispatch_submessage G info messenger' reply msg)
      unfolding dispatch_submessage run_sandbox
      submessage_alike msg c = elim (Bool-cases (is_valid msg.reply_on)) [
        | inl e ↦ rw e (
            follow (answer G info messenger reply msg) (answer G info messenger' reply msg)
              (run_sandbox G messenger msg c) (run_sandbox G messenger' msg c)
              (λ r r' d. answer-Alike messenger messenger' msg r r' d)
              (follow (close_sandbox G msg.msg c) (close_sandbox G msg.msg c)
                (call_messenger G messenger msg.msg msg.gas_limit (gas_remaining G c.meter)
                  (record c { events = [] }))
                (call_messenger G messenger' msg.msg msg.gas_limit (gas_remaining G c.meter)
                  (record c { events = [] }))
                (λ r r' sub. close-Alike msg.msg c r r' sub)
                (call_alike msg.msg msg.gas_limit (gas_remaining G c.meter)
                  (record c { events = [] }))))
        | inr e ↦ rw e (same_ends (err (wrap (registered "wasm" 14) "replyOn value"), c))
      ]

      from_alike :
          (msgs : List SubMsg) (rsp : Option Bytes)
          → AlikeRuns
              (dispatch_from G info messenger reply rsp msgs)
              (dispatch_from G info messenger' reply rsp msgs)
      unfolding dispatch_from
      from_alike [] rsp c = same_ends (ok rsp, c)
      from_alike (msg ∷ msgs) rsp c =
          bind_alike (dispatch_submessage G info messenger reply msg)
            (dispatch_submessage G info messenger' reply msg)
            (λ d. dispatch_from G info messenger reply (newer rsp d) msgs)
            (λ d. dispatch_from G info messenger' reply (newer rsp d) msgs) (submessage_alike msg)
            (λ d. from_alike msgs (newer rsp d)) c

      -- What is hidden of an error does not reach the contract: where two messengers end alike in every
      -- context, with the same outcome and context but for the details of errors that are neither
      -- deterministic nor system errors and have one codespace and code, so do the dispatches of
      -- sub-messages over them, with one handler of replies: with the same data, store, events and gas.
      pub dispatch_submessages_alike :
          (msgs : List SubMsg) (c : Ctx G S)
          → AlikeEnds
              (dispatch_submessages G info messenger reply msgs c)
              (dispatch_submessages G info messenger' reply msgs c)
      unfolding dispatch_submessages
      dispatch_submessages_alike msgs c = from_alike msgs none c
