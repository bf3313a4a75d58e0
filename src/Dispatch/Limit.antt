-- ===== src/Dispatch/Limit.antt =====
-- About the gas limit of a sub-message (dispatchMsgWithGasLimit).
use cosmwasgo.Base.{ℕ, ◌+◌, ◌≤◌, ◌≡◌, Bool, true, false, arith}
use cosmwasgo.Base.Outcome.{Outcome, panic}
use cosmwasgo.Vm.{CosmosMsg}
use cosmwasgo.Sdk.{GasMeter, GasMeterLaws, Ctx}
use cosmwasgo.Dispatch.{Messenger, dispatch_msg_with_gas_limit}

abbrev pub is_panic {ℓ} : {A : Type ℓ} → Outcome A → Bool
is_panic (panic p) = true
is_panic _ = false

module _ (G : GasMeter) (laws : GasMeterLaws G) {S : Type 0} (messenger : Messenger G S)
    (messenger_within : (msg : CosmosMsg) (c : Ctx G S)
      → G.consumed c.meter ≤ G.limit c.meter
      → is_panic (messenger msg c).0 ≡ false
      → G.consumed (messenger msg c).1.meter ≤ G.limit c.meter) where
  -- Where a limited sub-message returns, with a value or an error, its sender is charged at most the
  -- limit, given a messenger that on a meter within its limit stays within it, unless it panics.
  pub limited_message_charge :
      (msg : CosmosMsg) (limit : ℕ) (c : Ctx G S)
      → is_panic (dispatch_msg_with_gas_limit G messenger msg limit c).0 ≡ false
      → G.consumed (dispatch_msg_with_gas_limit G messenger msg limit c).1.meter
        ≤ G.consumed c.meter + limit
  unfolding dispatch_msg_with_gas_limit
  limited_message_charge msg limit c h =
      let sub : Ctx G S = record c { meter = G.new_meter limit } in
      let spent = G.consumed (messenger msg sub).1.meter in
      let charged = (G.consume spent c.meter).1 in
      ground (
        arith,
        laws.new_limit limit,
        laws.new_consumed limit,
        messenger_within msg sub,
        laws.consume_none spent c.meter,
        laws.consume_out_of_gas spent c.meter,
        laws.limit_consume spent c.meter,
        laws.consume_none limit charged,
        laws.consume_none limit c.meter,
      )
