-- ===== src/Keeper/Migrate/Rights.antt =====
-- About the checks of migrate on its caller and on the new code.
use cosmwasgo.Base.{◌≡◌, ◌&&◌, Bool, false, Option, some, arith}
use cosmwasgo.Base.Outcome.{ok, is_ok}
use cosmwasgo.Vm.{Bytes}
use cosmwasgo.Policy.{can_instantiate_contract, can_modify_contract}
use cosmwasgo.Sdk.{GasMeter}
use cosmwasgo.Keeper.State.{ContractInfo, CodeInfo, admin_addr}
use cosmwasgo.Keeper.Host.{Values, State, Host}
use cosmwasgo.Keeper.Migrate.{Order, prepare, choose_code, migrate}

module _ (G : GasMeter) {E : Type 0} (h : Host G E) (v : Values) (o : Order) (c : State G E)
    (info : ContractInfo) (code : CodeInfo) (admin : Option Bytes) (yes : Bool) where
  -- A migration succeeds only if the policy lets the caller change the contract and use the new code:
  -- for a contract and a code that exist, and an admin that parses, it fails otherwise, and leaves
  -- the state as it was.
  pub refused_migration :
      c.store.wasm.contracts o.addr ≡ some info
      → admin_addr h.sdk info ≡ ok admin
      → c.store.wasm.codes o.new_code_id ≡ some code
      → can_instantiate_contract h.sdk o.policy code.instantiate_config o.caller ≡ ok yes
      → (can_modify_contract o.policy admin o.caller && yes) ≡ false
      → (is_ok (migrate G h v o c).0 ≡ false) × ((migrate G h v o c).1 ≡ c)
  unfolding migrate prepare choose_code
  refused_migration e1 e2 e3 e4 refused = ground arith
