-- ===== src/Policy/Tests.antt =====
-- Policies on inputs.
use cosmwasgo.Base.{◌≡◌, refl, [], ◌∷◌, Bool, true, Option, ◌&&◌}
use cosmwasgo.Base.Outcome.{ok}
use cosmwasgo.Vm.{Bytes}
use cosmwasgo.Access.{Bech32, AccessConfig, allow_everybody, any_of_addresses, allowed, is_subset}
use cosmwasgo.Policy.{
  action_instantiate, ChainAccessConfigs, default_policy, gov, can_create_code,
  can_instantiate_contract, can_modify_contract, can_modify_code_access_config, is_actor,
  sub_message_policy,
}
use cosmwasgo.Policy.Laws.{
  Within, sub_message_policy-Within, gov_sub_message_policy, can_create_code-allowed,
}

abbrev plain : Bech32
plain = record { parse = λ t. ok t; render = λ a. a }

abbrev open_chain : ChainAccessConfigs
open_chain = record { upload = allow_everybody; instantiate = allow_everybody }

abbrev single : AccessConfig
single = record { permission = any_of_addresses; addresses = (99 ∷ []) ∷ [] }

sub_message_policy-Within_example :
    Within plain
      (sub_message_policy (gov (action_instantiate ∷ [])) action_instantiate)
      (gov (action_instantiate ∷ []))
sub_message_policy-Within_example =
    sub_message_policy-Within plain (gov (action_instantiate ∷ [])) action_instantiate

gov_sub_message_policy_example :
    let p = sub_message_policy (gov (action_instantiate ∷ [])) action_instantiate in
    ((config : AccessConfig) (actor : Bytes)
      → can_instantiate_contract plain p config actor ≡ ok true)
    × ((admin : Option Bytes) (actor : Bytes)
        → can_modify_contract p admin actor ≡ is_actor admin actor)
    × ((chain : ChainAccessConfigs) (actor : Bytes) (config : AccessConfig)
        → can_create_code plain p chain actor config
          ≡ can_create_code plain default_policy chain actor config)
    × ((creator : Option Bytes) (actor : Bytes) (subset : Bool)
        → can_modify_code_access_config p creator actor subset ≡ (is_actor creator actor && subset))
gov_sub_message_policy_example =
    gov_sub_message_policy plain (action_instantiate ∷ []) action_instantiate

can_create_code-allowed_example :
    (allowed plain allow_everybody (98 ∷ []) ≡ ok true)
    × (allowed plain allow_everybody (99 ∷ []) ≡ ok true)
unfolding can_create_code allowed is_subset
can_create_code-allowed_example =
    can_create_code-allowed plain open_chain (98 ∷ []) (99 ∷ []) single refl refl
