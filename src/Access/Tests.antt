-- ===== src/Access/Tests.antt =====
-- Access configurations on inputs.
use cosmwasgo.Base.{◌≡◌, ◌≢◌, ◌↔◌, refl, ◌<◌, ◌≤◌, [], ◌∷◌, true, bytes_eq, arith, if◌then◌else◌}
use cosmwasgo.Base.Outcome.{ok, err, external}
use cosmwasgo.Access.{
  Bech32, AccessConfig, any_of_addresses, allowed, is_subset, is_subset_list,
  validate_bech32_addresses,
}
use cosmwasgo.Access.Subset.{is_subset-allowed}
use cosmwasgo.Access.Validation.{AllParse, Distinct, validate_bech32_addresses_iff}

-- every text but the empty one is an address, and its own text
abbrev plain : Bech32
plain = record { parse = λ t. if bytes_eq t [] then err (external 7) else ok t; render = λ a. a }

abbrev pair : AccessConfig
pair = record { permission = any_of_addresses; addresses = (98 ∷ []) ∷ (99 ∷ []) ∷ [] }

abbrev single : AccessConfig
single = record { permission = any_of_addresses; addresses = (99 ∷ []) ∷ [] }

is_subset-allowed_example : allowed plain pair (99 ∷ []) ≡ ok true
unfolding is_subset is_subset_list allowed
is_subset-allowed_example = is_subset-allowed plain single pair (99 ∷ []) refl refl

validate_bech32_addresses_iff_example :
    (validate_bech32_addresses plain ((98 ∷ []) ∷ (99 ∷ []) ∷ []) ≡ ok tt) ↔ (
      (0 < 2)
      × (2 ≤ 50)
      × AllParse plain ((98 ∷ []) ∷ (99 ∷ []) ∷ [])
      × Distinct [] ((98 ∷ []) ∷ (99 ∷ []) ∷ []))
validate_bech32_addresses_iff_example =
    validate_bech32_addresses_iff plain ((98 ∷ []) ∷ (99 ∷ []) ∷ [])

-- two texts that differ in case are one address
same_address : validate_bech32_addresses plain ((98 ∷ []) ∷ (66 ∷ []) ∷ []) ≢ ok tt
unfolding validate_bech32_addresses
same_address = ground arith
