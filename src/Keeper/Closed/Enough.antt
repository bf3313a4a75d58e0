-- ===== src/Keeper/Closed/Enough.antt =====
-- How deep responses are handled within one another: bounded by the gas that is left and the limit on
-- the call depth.
use cosmwasgo.Base.{
  ℕ, zero, suc, ◌+◌, ◌-◌, ◌*◌, ◌≤◌, ◌<◌, ◌≡◌, refl, ap, ◌∙◌, true, List, Option, none, arith,
}
use cosmwasgo.Base.Outcome.{ok}
use cosmwasgo.Vm.{Bytes, SubMsg, Reply}
use cosmwasgo.Gas.{reply_costs}
use cosmwasgo.Sdk.{GasMeter, GasMeterLaws}
use cosmwasgo.Keeper.Host.{Values, State}
use cosmwasgo.Keeper.Metering.{value_or_zero, check_and_increase_call_depth}
use cosmwasgo.Keeper.Relation.{Handler, with_handler}
use cosmwasgo.Keeper.Agree.{Left, Agrees, agrees-IsClosed, update_agrees}
use cosmwasgo.Keeper.Agree.Steps.{Metered}
use cosmwasgo.Keeper.Agree.Calls.{execute_agrees, sudo_agrees, instantiate_agrees, migrate_agrees}
use cosmwasgo.Keeper.Agree.Replies.{
  reply_agrees, settings_agrees, classic_agrees, predictable_agrees, create_agrees,
}
use cosmwasgo.Keeper.Agree.Dispatch.{handle_agrees}
use cosmwasgo.Keeper.Server.{serve}
use cosmwasgo.Keeper.Server.Related.{KeepersRelated, serve_related}
use cosmwasgo.Keeper.Handlers.{default_message_handler}
use cosmwasgo.Keeper.Handlers.Related.{PluginsRelated, messenger_related}
use cosmwasgo.Keeper.Closed.{Setup, handler, respond, run_message}
use cosmwasgo.Messages.{Message}

-- the handlers that are still to come with `k` gas left at a call depth
abbrev pub budget : ℕ → ℕ → ℕ → ℕ
budget max k depth = k * (max + 1) + (max - depth)

-- the next call depth is counted, and within the limit
deeper :
    (max : ℕ) (v w : Values)
    → max < 0xffff_ffff
    → value_or_zero v.call_depth ≤ max
    → check_and_increase_call_depth max v ≡ ok w
    → (value_or_zero w.call_depth ≡ value_or_zero v.call_depth + 1)
      × (value_or_zero w.call_depth ≤ max)
unfolding check_and_increase_call_depth
deeper max v w m h e = ground arith

-- a unit of gas pays for all call depths
lower : (max i j d n : ℕ) → j ≡ suc i → budget max j d < suc n → budget max i d < n
lower max i j d n q h = grind arith

-- The code of other packages goes by the meter, and replies cost gas.
pub record Metering (G : GasMeter) {E : Type 0} (k : Setup G E) : Type 1 where
  pub laws : GasMeterLaws G
  pub host : Metered G k.host
  pub plugins : (j : ℕ) → PluginsRelated G (λ A m m'. Agrees G {E = E} j j m m') k.plugins
  pub costly : (r : Reply) (n : ℕ) → reply_costs k.host.gas_register true r ≡ ok n → 1 ≤ n
  pub depth : k.max_call_depth < 0xffff_ffff

module _ (G : GasMeter) {E : Type 0} (k : Setup G E) (M : Metering G k) where
  abbrev AgreeAt : Handler G E → Handler G E → ℕ → Option ℕ → Type 0
  AgreeAt f g j d =
      (v : Values) (addr port : Bytes) (msgs : List SubMsg) (answer : Option Bytes)
      → v.call_depth ≡ d
      → Agrees G j j (f v addr port msgs answer) (g v addr port msgs answer)

  keepers_agree :
      (f g : Handler G E) (j : ℕ) (v : Values)
      → AgreeAt f g j v.call_depth
      → KeepersRelated G k.host f g (λ A m m'. Agrees G j j m m') v
  keepers_agree f g j v handled = record {
    settings = λ x. settings_agrees G M.laws k.host M.host f g j x;
    params = λ p. update_agrees G j (λ w. record w { params = p });
    upload =
        λ creator code config p. create_agrees G M.laws k.host M.host f g j creator code config p;
    birth = λ o.
        instantiate_agrees G M.laws k.host M.host f g j v.call_depth handled v o _ _
          (classic_agrees G M.laws k.host M.host f g j) refl;
    birth2 = λ o creator salt msg fix_msg.
        instantiate_agrees G M.laws k.host M.host f g j v.call_depth handled v o _ _
          (predictable_agrees G M.laws k.host M.host f g j creator salt msg fix_msg) refl;
    call = λ addr caller msg coins.
        execute_agrees G M.laws k.host M.host f g j v.call_depth handled v addr caller msg coins
          refl;
    order =
        λ addr msg. sudo_agrees G M.laws k.host M.host f g j v.call_depth handled v addr msg refl;
    move = λ o. migrate_agrees G M.laws k.host M.host f g j v.call_depth handled v o refl;
  }

  serves_agree :
      (f g : Handler G E) (j : ℕ) (v : Values) (m : Message)
      → AgreeAt f g j v.call_depth
      → Agrees G j j
          (serve G (with_handler G k.host f) k.service v m)
          (serve G (with_handler G k.host g) k.service v m)
  serves_agree f g j v m handled =
      serve_related G k.host f g (λ A m m'. Agrees G j j m m') v k.service (agrees-IsClosed G j)
        (keepers_agree f g j v handled) m

  respond_agrees :
      (f g : Handler G E) (j : ℕ) (v : Values) (addr port : Bytes) (msgs : List SubMsg)
      (answer : Option Bytes)
      → ((w : Values)
          → check_and_increase_call_depth k.max_call_depth v ≡ ok w
          → AgreeAt f g j w.call_depth)
      → ((i : ℕ) → j ≡ suc i → AgreeAt f g i v.call_depth)
      → Agrees G j j (respond G k f v addr port msgs answer) (respond G k g v addr port msgs answer)
  respond_agrees f g j v addr port msgs answer down replied =
      let hf = with_handler G k.host f in
      let hg = with_handler G k.host g in
      handle_agrees G M.laws j
        (default_message_handler G k.plugins k.max_call_depth (serve G hf k.service) v addr port)
        (default_message_handler G k.plugins k.max_call_depth (serve G hg k.service) v addr port)
        (λ msg.
          messenger_related G (λ A m m'. Agrees G j j m m') (agrees-IsClosed G j) k.plugins
            (M.plugins j) k.max_call_depth (serve G hf k.service) (serve G hg k.service) v addr port
            (λ w m e. serves_agree f g j w m (down w e)) msg)
        k.info _ _ (λ r. reply_agrees G M.laws k.host M.host f g j v addr r (M.costly r) replied)
        msgs answer

  handlers_agree :
      (x y : Handler G E) (n n' j : ℕ) (v : Values) (addr port : Bytes) (msgs : List SubMsg)
      (answer : Option Bytes)
      → value_or_zero v.call_depth ≤ k.max_call_depth
      → budget k.max_call_depth j (value_or_zero v.call_depth) < n
      → budget k.max_call_depth j (value_or_zero v.call_depth) < n'
      → Agrees G j j
          (handler G k x n v addr port msgs answer)
          (handler G k y n' v addr port msgs answer)
  unfolding handler
  handlers_agree x y zero n' j v addr port msgs answer d lt lt' = absurd (omega (arith, lt))
  handlers_agree x y (suc n) zero j v addr port msgs answer d lt lt' = absurd (omega (arith, lt'))
  handlers_agree x y (suc n) (suc n') j v addr port msgs answer d lt lt' =
      respond_agrees (handler G k x n) (handler G k y n') j v addr port msgs answer
        (λ w e u a p ms b q.
          let (up, within) = deeper k.max_call_depth v w M.depth d e in
          let same = ap value_or_zero q in
          handlers_agree x y n n' j u a p ms b (omega (arith, same, within))
            (omega (arith, same, within, up, lt)) (omega (arith, same, within, up, lt')))
        (λ i q u a p ms b z.
          let same = ap value_or_zero z in
          let at_v = value_or_zero v.call_depth in
          handlers_agree x y n n' i u a p ms b (omega (arith, same, d))
            (omega (arith, same, lower k.max_call_depth i j at_v n q lt))
            (omega (arith, same, lower k.max_call_depth i j at_v n' q lt')))

  -- One run of a message for every fuel above the budget: where it is called with no more than `j`
  -- gas left and at call depth 0, where replies cost gas and the code of other packages goes by the
  -- meter, neither more fuel nor what is done when the fuel is out changes how it ends.
  pub run_message_fuel :
      (x y : Handler G E) (n n' j : ℕ) (v : Values) (m : Message) (c : State G E)
      → v.call_depth ≡ none
      → Left G j c.meter
      → budget k.max_call_depth j 0 < n
      → budget k.max_call_depth j 0 < n'
      → run_message G k x n v m c ≡ run_message G k y n' v m c
  unfolding run_message
  run_message_fuel x y n n' j v m c none_yet left lt lt' =
      (serves_agree (handler G k x n) (handler G k y n') j v m (λ u a p ms b z.
          let zero = ap value_or_zero (z ∙ none_yet) in
          handlers_agree x y n n' j u a p ms b (omega (arith, zero)) (omega (arith, zero, lt))
            (omega (arith, zero, lt')))).same
        c left
