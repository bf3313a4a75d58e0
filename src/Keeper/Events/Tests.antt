-- ===== src/Keeper/Events/Tests.antt =====
-- The events of a response, made and refused.
use cosmwasgo.Base.{◌≡◌, refl, List, [], ◌∷◌}
use cosmwasgo.Base.Outcome.{err, wrap}
use cosmwasgo.Vm.{EventAttribute}
use cosmwasgo.Keeper.Host.{attribute, new_event}
use cosmwasgo.Keeper.Events.{
  trim_space, convert_attribute, new_wasm_module_event, new_custom_events, err_invalid_event,
}
use cosmwasgo.Keeper.Events.Reserved.{Signed, AllSigned, new_events-Signed}

trims : trim_space "  a b \n" ≡ "a b"
unfolding trim_space
trims = refl

-- a key with white space before the reserved prefix is refused
forged :
    convert_attribute (attribute " _contract_address" "x")
    ≡ err (wrap err_invalid_event "Attribute key starts with reserved prefix _")
unfolding convert_attribute
forged = refl

new_events-Signed_example :
    ((parts : List EventAttribute) × ((new_event "wasm"
            (attribute "_contract_address" "c1" ∷ attribute "k" "v" ∷ [])
          ∷ [])
        ≡ (new_event "wasm" parts ∷ []))
      × Signed "c1" parts)
    × AllSigned "c1"
        (new_event "wasm-moved" (attribute "_contract_address" "c1" ∷ attribute "to" "x" ∷ []) ∷ [])
unfolding new_wasm_module_event new_custom_events
new_events-Signed_example =
    new_events-Signed (attribute " k" "v " ∷ []) (new_event "moved" (attribute "to" "x" ∷ []) ∷ [])
      (new_event "wasm-moved" (attribute "_contract_address" "c1" ∷ attribute "to" "x" ∷ []) ∷ [])
      (new_event "wasm" (attribute "_contract_address" "c1" ∷ attribute "k" "v" ∷ []) ∷ []) "c1"
      refl refl
