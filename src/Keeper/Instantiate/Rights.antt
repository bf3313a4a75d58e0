-- ===== src/Keeper/Instantiate/Rights.antt =====
-- About the checks of instantiate on its caller.
use cosmwasgo.Base.{◌≡◌, false, some, arith}
use cosmwasgo.Base.Outcome.{ok, is_ok}
use cosmwasgo.Policy.{can_instantiate_contract}
use cosmwasgo.Sdk.{GasMeter}
use cosmwasgo.Keeper.State.{CodeInfo}
use cosmwasgo.Keeper.Host.{Values, State, Host}
use cosmwasgo.Keeper.Addresses.{Generator}
use cosmwasgo.Keeper.Metering.{check_discount_eligibility}
use cosmwasgo.Keeper.Entry.{charge_setup}
use cosmwasgo.Keeper.Instantiate.{Order, launch, instantiate}

module _ (G : GasMeter) {E : Type 0} (h : Host G E) (v : Values) (o : Order) where
  -- Where the policy does not let the creator instantiate the code, instantiate fails whatever
  -- address it would have generated, and leaves the stores of the keeper and of all other modules
  -- and the events as they were.
  pub refused_instantiation :
      (generate : Generator G E) (c : State G E) (code : CodeInfo)
      → c.store.wasm.codes o.code_id ≡ some code
      → can_instantiate_contract h.sdk o.policy code.instantiate_config o.creator ≡ ok false
      → (is_ok (instantiate G h v o generate c).0 ≡ false)
        × ((instantiate G h v o generate c).1.store ≡ c.store)
        × ((instantiate G h v o generate c).1.events ≡ c.events)
  unfolding instantiate launch charge_setup check_discount_eligibility
  refused_instantiation generate c code e1 e2 = ground arith
