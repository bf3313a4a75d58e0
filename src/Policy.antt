-- ===== src/Policy.antt =====
-- Authorization policies: x/wasm/types/authz_policy.go and x/wasm/keeper/authz_policy.go. The Go
-- interface has three implementations, which are the constructors here. A nil address is `none`.
pub mod Laws
mod Tests
use cosmwasgo.Base.{
  ℕ, Bool, true, false, ◌&&◌, List, Option, none, some, bytes_eq, any, ◌==◌, if◌then◌else◌,
}
use cosmwasgo.Base.Outcome.{Outcome, ok, err, panic}
use cosmwasgo.Vm.{Bytes}
use cosmwasgo.Access.{Bech32, AccessConfig, allowed, is_subset}

-- AuthorizationPolicyAction
abbrev pub Action : Type 0
Action = ℕ

abbrev pub action_instantiate : Action
action_instantiate = 1

abbrev pub action_migrate_contract : Action
action_migrate_contract = 2

pub record ChainAccessConfigs : Type 0 where
  pub upload : AccessConfig
  pub instantiate : AccessConfig

pub data Policy : Type 0 where
  default_policy : Policy
  gov : List Action → Policy
  partial_gov : Action → Policy → Policy

module _ (sdk : Bech32) where
  -- CanCreateCode: `&&` asks the second question only after a yes to the first
  unfoldable pub can_create_code : Policy → ChainAccessConfigs → Bytes → AccessConfig → Outcome Bool
  can_create_code default_policy chain actor config = elim (allowed sdk chain.upload actor) [
    | ok true ↦ ok (is_subset config chain.instantiate)
    | ok false ↦ ok false
    | err e ↦ err e
    | panic p ↦ panic p
  ]
  can_create_code (gov propagate) chain actor config = ok true
  can_create_code (partial_gov action p) chain actor config = can_create_code p chain actor config

  -- CanInstantiateContract
  unfoldable pub can_instantiate_contract : Policy → AccessConfig → Bytes → Outcome Bool
  can_instantiate_contract default_policy config actor = allowed sdk config actor
  can_instantiate_contract (gov propagate) config actor = ok true
  can_instantiate_contract (partial_gov action p) config actor =
      let nested = can_instantiate_contract p config actor in
      if action == action_instantiate then ok true else nested

-- `x != nil && x.Equals(actor)`
abbrev pub is_actor : Option Bytes → Bytes → Bool
is_actor none actor = false
is_actor (some a) actor = bytes_eq a actor

-- CanModifyContract
unfoldable pub can_modify_contract : Policy → Option Bytes → Bytes → Bool
can_modify_contract default_policy admin actor = is_actor admin actor
can_modify_contract (gov propagate) admin actor = true
can_modify_contract (partial_gov action p) admin actor =
    let nested = can_modify_contract p admin actor in
    if action == action_migrate_contract then true else nested

-- CanModifyCodeAccessConfig
unfoldable pub can_modify_code_access_config : Policy → Option Bytes → Bytes → Bool → Bool
can_modify_code_access_config default_policy creator actor subset = is_actor creator actor && subset
can_modify_code_access_config (gov propagate) creator actor subset = true
can_modify_code_access_config (partial_gov action p) creator actor subset =
    can_modify_code_access_config p creator actor subset

-- SubMessageAuthorizationPolicy
unfoldable pub sub_message_policy : Policy → Action → Policy
sub_message_policy default_policy action = default_policy
sub_message_policy (gov propagate) action =
    if any (λ a. a == action) propagate then partial_gov action default_policy else default_policy
sub_message_policy (partial_gov a p) action = partial_gov a p
