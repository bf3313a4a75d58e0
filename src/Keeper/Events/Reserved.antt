-- ===== src/Keeper/Events/Reserved.antt =====
-- About the reserved names in events of contracts (events.go).
use Prim.Native.String.{◌++◌ as text_append}
use cosmwasgo.Base.{◌≡◌, subst, sym, false, List, [], ◌∷◌, String, arith, inl, inr}
use cosmwasgo.Base.Outcome.{ok, Outcome-cases, ok_inj}
use cosmwasgo.Vm.{EventAttribute, Event}
use cosmwasgo.Keeper.Host.{attribute, new_event}
use cosmwasgo.Keeper.Events.{
  is_reserved, trim_space, convert_attribute, convert_attributes, contract_sdk_event_attributes,
  new_wasm_module_event, new_custom_event, new_custom_events,
}

-- Every key is free of the reserved prefix.
pub data Unreserved : List EventAttribute → Type 0 where
  none_left : Unreserved []
  one_more :
      (a : EventAttribute) (attrs : List EventAttribute)
      → is_reserved a.key ≡ false
      → Unreserved attrs
      → Unreserved (a ∷ attrs)

-- The attributes begin with the address of the contract, and no other key is a reserved one.
pub data Signed : String → List EventAttribute → Type 0 where
  signed :
      (contract : String) (attrs : List EventAttribute)
      → Unreserved attrs
      → Signed contract (attribute "_contract_address" contract ∷ attrs)

-- Every event is signed by the contract and its type is "wasm-" and more.
pub data AllSigned : String → List Event → Type 0 where
  no_event : (contract : String) → AllSigned contract []
  one_event :
      (contract typ : String) (attrs : List EventAttribute) (events : List Event)
      → Signed contract attrs
      → AllSigned contract events
      → AllSigned contract (new_event (text_append "wasm-" typ) attrs ∷ events)

convert_attribute-unreserved :
    (a b : EventAttribute) → convert_attribute a ≡ ok b → is_reserved b.key ≡ false
unfolding convert_attribute
convert_attribute-unreserved a b e = ground arith

convert_attributes-Unreserved :
    (attrs bs : List EventAttribute) → convert_attributes attrs ≡ ok bs → Unreserved bs
unfolding convert_attributes
convert_attributes-Unreserved [] bs e = subst Unreserved (ok_inj [] bs e) none_left
convert_attributes-Unreserved (a ∷ attrs) bs e = elim (Outcome-cases (convert_attribute a)) [
  | inl (b, k) ↦ elim (Outcome-cases (convert_attributes attrs)) [
    | inl (cs, l) ↦ subst Unreserved (ok_inj (b ∷ cs) bs (ground arith)) (
        one_more b cs (convert_attribute-unreserved a b k)
          (convert_attributes-Unreserved attrs cs l))
    | inr other ↦ ground arith
  ]
  | inr other ↦ ground arith
]

contract_sdk_event_attributes-Signed :
    (attrs bs : List EventAttribute) (contract : String)
    → contract_sdk_event_attributes attrs contract ≡ ok bs
    → Signed contract bs
unfolding contract_sdk_event_attributes
contract_sdk_event_attributes-Signed attrs bs contract e =
    elim (Outcome-cases (convert_attributes attrs)) [
      | inl (cs, l) ↦
          subst (Signed contract)
            (ok_inj (attribute "_contract_address" contract ∷ cs) bs (ground arith))
            (signed contract cs (convert_attributes-Unreserved attrs cs l))
      | inr other ↦ ground arith
    ]

new_custom_event-signed :
    (v b : Event) (cs : List Event) (contract : String)
    → new_custom_event v contract ≡ ok b
    → AllSigned contract cs
    → AllSigned contract (b ∷ cs)
unfolding new_custom_event
new_custom_event-signed v b cs contract e h =
    elim (Outcome-cases (contract_sdk_event_attributes v.attributes contract)) [
      | inl (bs, l) ↦
          subst (λ x. AllSigned contract (x ∷ cs))
            (ok_inj (new_event (text_append "wasm-" (trim_space v.type)) bs) b (ground arith))
            (one_event contract (trim_space v.type) bs cs
              (contract_sdk_event_attributes-Signed v.attributes bs contract l) h)
      | inr other ↦ ground arith
    ]

new_custom_events-AllSigned :
    (events evts : List Event) (contract : String)
    → new_custom_events events contract ≡ ok evts
    → AllSigned contract evts
unfolding new_custom_events
new_custom_events-AllSigned [] evts contract e =
    subst (AllSigned contract) (ok_inj [] evts e) (no_event contract)
new_custom_events-AllSigned (v ∷ events) evts contract e =
    elim (Outcome-cases (new_custom_event v contract)) [
      | inl (b, k) ↦ elim (Outcome-cases (new_custom_events events contract)) [
        | inl (cs, l) ↦ subst (AllSigned contract) (ok_inj (b ∷ cs) evts (ground arith)) (
            new_custom_event-signed v b cs contract k
              (new_custom_events-AllSigned events cs contract l))
        | inr other ↦ ground arith
      ]
      | inr other ↦ ground arith
    ]

-- The events of a response that passes the checks are signed: the one for its attributes is of type
-- "wasm", those for its events are of a type that begins with "wasm-", and each begins with the
-- address of the contract and has no other key with the reserved prefix "_".
pub new_events-Signed :
    (attrs : List EventAttribute) (events custom : List Event) (module_events : List Event)
    (contract : String)
    → new_wasm_module_event attrs contract ≡ ok module_events
    → new_custom_events events contract ≡ ok custom
    → ((parts : List EventAttribute) × (module_events ≡ new_event "wasm" parts ∷ [])
        × Signed contract parts)
      × AllSigned contract custom
unfolding new_wasm_module_event
new_events-Signed attrs events custom module_events contract e k =
    elim (Outcome-cases (contract_sdk_event_attributes attrs contract)) [
      | inl (bs, l) ↦ (
        (
          bs,
          sym (ok_inj (new_event "wasm" bs ∷ []) module_events (ground arith)),
          contract_sdk_event_attributes-Signed attrs bs contract l,
        ),
        new_custom_events-AllSigned events custom contract k,
      )
      | inr other ↦ ground arith
    ]
