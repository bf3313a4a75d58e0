-- ===== src/Policy/Laws.antt =====
-- About the default policy and the policies of sub-messages (authz_policy.go).
use cosmwasgo.Base.{
  ◌≡◌, refl, Bool, true, false, ◌&&◌, List, Option, arith, any, ◌==◌, if◌then◌else◌,
}
use cosmwasgo.Base.Outcome.{Outcome, ok, err, panic}
use cosmwasgo.Vm.{Bytes}
use cosmwasgo.Access.{Bech32, AccessConfig, allowed}
use cosmwasgo.Access.Subset.{is_subset-allowed}
use cosmwasgo.Policy.{
  Action, action_instantiate, action_migrate_contract, ChainAccessConfigs, Policy, default_policy,
  gov, partial_gov, can_create_code, can_instantiate_contract, can_modify_contract,
  can_modify_code_access_config, is_actor, sub_message_policy,
}

-- the answer `q` is a yes only if `p` is
abbrev pub Implies : Outcome Bool → Outcome Bool → Type 0
Implies (ok true) p = p ≡ ok true
Implies q p = Unit

Implies-refl : (q : Outcome Bool) → Implies q q
Implies-refl (ok true) = refl
Implies-refl (ok false) = tt
Implies-refl (err e) = tt
Implies-refl (panic p) = tt

Implies-yes : (q : Outcome Bool) → Implies q (ok true)
Implies-yes (ok true) = refl
Implies-yes (ok false) = tt
Implies-yes (err e) = tt
Implies-yes (panic p) = tt

-- `q` permits no more than `p` does, whatever is asked of them.
pub record Within (sdk : Bech32) (q p : Policy) : Type 0 where
  pub create :
      (chain : ChainAccessConfigs) (actor : Bytes) (config : AccessConfig)
      → Implies
          (can_create_code sdk q chain actor config)
          (can_create_code sdk p chain actor config)
  pub instantiate :
      (config : AccessConfig) (actor : Bytes)
      → Implies
          (can_instantiate_contract sdk q config actor)
          (can_instantiate_contract sdk p config actor)
  pub modify :
      (admin : Option Bytes) (actor : Bytes)
      → Implies (ok (can_modify_contract q admin actor)) (ok (can_modify_contract p admin actor))
  pub modify_access :
      (creator : Option Bytes) (actor : Bytes) (subset : Bool)
      → Implies
          (ok (can_modify_code_access_config q creator actor subset))
          (ok (can_modify_code_access_config p creator actor subset))

Within-refl : (sdk : Bech32) (p : Policy) → Within sdk p p
Within-refl sdk p = record {
  create = λ chain actor config. Implies-refl _;
  instantiate = λ config actor. Implies-refl _;
  modify = λ admin actor. Implies-refl (ok (can_modify_contract p admin actor));
  modify_access = λ creator actor subset.
      Implies-refl (ok (can_modify_code_access_config p creator actor subset));
}

Within-gov : (sdk : Bech32) (q : Policy) (propagate : List Action) → Within sdk q (gov propagate)
unfolding can_create_code can_instantiate_contract can_modify_contract can_modify_code_access_config
Within-gov sdk q propagate = record {
  create = λ chain actor config. Implies-yes _;
  instantiate = λ config actor. Implies-yes _;
  modify = λ admin actor. Implies-yes (ok (can_modify_contract q admin actor));
  modify_access = λ creator actor subset.
      Implies-yes (ok (can_modify_code_access_config q creator actor subset));
}

-- The policy for the sub-messages of an action permits no more than the policy of the message.
pub sub_message_policy-Within :
    (sdk : Bech32) (p : Policy) (action : Action) → Within sdk (sub_message_policy p action) p
unfolding sub_message_policy
sub_message_policy-Within sdk default_policy action = Within-refl sdk default_policy
sub_message_policy-Within sdk (gov propagate) action =
    Within-gov sdk (sub_message_policy (gov propagate) action) propagate
sub_message_policy-Within sdk (partial_gov a p) action = Within-refl sdk (partial_gov a p)

-- The policy for sub-messages is its own policy for further sub-messages, whatever their actions:
-- rights that governance passed on are neither lost nor widened further down.
sub_message_policy_stable :
    (p : Policy) (a b : Action)
    → sub_message_policy (sub_message_policy p a) b ≡ sub_message_policy p a
unfolding sub_message_policy
sub_message_policy_stable default_policy a b = refl
sub_message_policy_stable (gov propagate) a b = ground arith
sub_message_policy_stable (partial_gov c p) a b = refl

-- What governance passes on to the sub-messages of an action: instantiating is permitted to
-- everybody if the action is instantiate and governance passes it on, changing a contract if it is
-- migrate and passed on; in all other cases, and for storing code and for changing the access to
-- a code in every case, the answer is that of the default policy.
pub gov_sub_message_policy :
    (sdk : Bech32) (propagate : List Action) (action : Action)
    → let p = sub_message_policy (gov propagate) action in
      let passed_on = any (λ a. a == action) propagate in
      ((config : AccessConfig) (actor : Bytes)
        → can_instantiate_contract sdk p config actor ≡ (
            if passed_on && action == action_instantiate
            then ok true
            else allowed sdk config actor))
      × ((admin : Option Bytes) (actor : Bytes)
          → can_modify_contract p admin actor ≡ (
              if passed_on && action == action_migrate_contract
              then true
              else is_actor admin actor))
      × ((chain : ChainAccessConfigs) (actor : Bytes) (config : AccessConfig)
          → can_create_code sdk p chain actor config
            ≡ can_create_code sdk default_policy chain actor config)
      × ((creator : Option Bytes) (actor : Bytes) (subset : Bool)
          → can_modify_code_access_config p creator actor subset
            ≡ (is_actor creator actor && subset))
unfolding sub_message_policy can_create_code can_instantiate_contract can_modify_contract
    can_modify_code_access_config
gov_sub_message_policy sdk propagate action = (
  λ config actor. ground arith,
  λ admin actor. ground arith,
  λ chain actor config. ground arith,
  λ creator actor subset. ground arith,
)

-- Under the default policy a code is stored only with a configuration that lets nobody
-- instantiate it whom the chain's own instantiate configuration does not allow.
pub can_create_code-allowed :
    (sdk : Bech32) (chain : ChainAccessConfigs) (creator actor : Bytes) (config : AccessConfig)
    → can_create_code sdk default_policy chain creator config ≡ ok true
    → allowed sdk config actor ≡ ok true
    → (allowed sdk chain.upload creator ≡ ok true) × (allowed sdk chain.instantiate actor ≡ ok true)
unfolding can_create_code
can_create_code-allowed sdk chain creator actor config h k =
    ground (arith, is_subset-allowed sdk config chain.instantiate actor)
