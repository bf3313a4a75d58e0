-- ===== src/Keeper/Events.antt =====
-- The events that a contract asks for, x/wasm/keeper/events.go: newWasmModuleEvent, newCustomEvents
-- and contractSDKEventAttributes, with strings.TrimSpace on texts that are valid UTF-8.
mod Tests
pub mod Reserved
use Prim.Native.Char.{Char, code}
use Prim.Native.String.{len, ◌++◌ as text_append}
use cosmwasgo.Base.{
  ℕ, Bool, true, false, ◌&&◌, ◌||◌, List, [], ◌∷◌, String, ltb, leb, ◌==◌, if◌then◌else◌,
}
use cosmwasgo.Base.Outcome.{Error, registered, wrap, Outcome, ok, err, panic}
use cosmwasgo.Vm.{EventAttribute, Event}
use cosmwasgo.Keeper.Host.{attribute, new_event}

-- unicode.IsSpace
unfoldable pub is_space : ℕ → Bool
is_space c =
    (leb 9 c && leb c 13)
    || c == 0x20
    || c == 0x85
    || c == 0xa0
    || c == 0x1680
    || (leb 0x2000 c && leb c 0x200a)
    || c == 0x2028
    || c == 0x2029
    || c == 0x202f
    || c == 0x205f
    || c == 0x3000

-- strings.TrimSpace from the left, and from the right
unfoldable pub trim_start : String → String
unfolding is_space
trim_start String.[] = ""
trim_start (String.◌∷◌ c s) = if is_space (code c) then trim_start s else String.◌∷◌ c s

abbrev pub push : Char → String → String
push c String.[] = if is_space (code c) then "" else String.◌∷◌ c ""
push c (String.◌∷◌ d s) = String.◌∷◌ c (String.◌∷◌ d s)

unfoldable pub trim_end : String → String
unfolding is_space
trim_end String.[] = ""
trim_end (String.◌∷◌ c s) = push c (trim_end s)

unfoldable pub trim_space : String → String
unfolding trim_start trim_end
trim_space s = trim_end (trim_start s)

abbrev pub err_invalid_event : Error
err_invalid_event = registered "wasm" 21

-- a text with the reserved prefix "_"
abbrev pub is_reserved : String → Bool
is_reserved String.[] = false
is_reserved (String.◌∷◌ c s) = code c == b'_'

-- the loop body of contractSDKEventAttributes, on the trimmed key
unfoldable pub convert_attribute : EventAttribute → Outcome EventAttribute
unfolding trim_space
convert_attribute a =
    let key = trim_space a.key in
    if len key == 0
    then err (wrap err_invalid_event "Empty attribute key")
    else if is_reserved key
    then err (wrap err_invalid_event "Attribute key starts with reserved prefix _")
    else ok (attribute key (trim_space a.value))

unfoldable pub convert_attributes : List EventAttribute → Outcome (List EventAttribute)
unfolding convert_attribute
convert_attributes [] = ok []
convert_attributes (a ∷ attrs) = elim (convert_attribute a) [
  | err e ↦ err e
  | panic p ↦ panic p
  | ok b ↦ elim (convert_attributes attrs) [
    | ok bs ↦ ok (b ∷ bs)
    | err e ↦ err e
    | panic p ↦ panic p
  ]
]

-- contractSDKEventAttributes; the contract's address is given as text
unfoldable pub contract_sdk_event_attributes :
    List EventAttribute → String → Outcome (List EventAttribute)
unfolding convert_attributes
contract_sdk_event_attributes attrs contract = elim (convert_attributes attrs) [
  | ok bs ↦ ok (attribute "_contract_address" contract ∷ bs)
  | err e ↦ err e
  | panic p ↦ panic p
]

-- newWasmModuleEvent
unfoldable pub new_wasm_module_event : List EventAttribute → String → Outcome (List Event)
unfolding contract_sdk_event_attributes
new_wasm_module_event attrs contract = elim (contract_sdk_event_attributes attrs contract) [
  | ok bs ↦ ok (new_event "wasm" bs ∷ [])
  | err e ↦ err e
  | panic p ↦ panic p
]

-- the loop body of newCustomEvents
unfoldable pub new_custom_event : Event → String → Outcome Event
unfolding contract_sdk_event_attributes trim_space
new_custom_event e contract =
    let typ = trim_space e.type in
    if leb (len typ) 2
    then err (wrap err_invalid_event "Event type too short")
    else elim (contract_sdk_event_attributes e.attributes contract) [
      | ok bs ↦ ok (new_event (text_append "wasm-" typ) bs)
      | err x ↦ err x
      | panic p ↦ panic p
    ]

-- newCustomEvents
unfoldable pub new_custom_events : List Event → String → Outcome (List Event)
unfolding new_custom_event
new_custom_events [] contract = ok []
new_custom_events (e ∷ events) contract = elim (new_custom_event e contract) [
  | err x ↦ err x
  | panic p ↦ panic p
  | ok b ↦ elim (new_custom_events events contract) [
    | ok bs ↦ ok (b ∷ bs)
    | err x ↦ err x
    | panic p ↦ panic p
  ]
]
