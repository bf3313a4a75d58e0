-- ===== src/Dispatch/Redact.antt =====
-- About redactError and the events that a reply is handed (msg_dispatcher.go).
use text.Mathlib.Text.{◌==◌ as str_eq}
use cosmwasgo.Base.{
  ◌≡◌, refl, ap, Bool, true, false, List, [], ◌∷◌, map, All, Bool-cases, inl, inr, arith,
}
use cosmwasgo.Base.Outcome.{Error, system, deterministic}
use cosmwasgo.Vm.{Event, CosmosMsg, is_wasm}
use cosmwasgo.Sdk.{ErrorInfo}
use cosmwasgo.Dispatch.{redact_error, error_result, filter_events, passed_events, sort_attributes}

-- the errors whose text is shown: deterministic ones and system errors
abbrev pub is_shown : Error → Bool
is_shown (system e) = true
is_shown (deterministic e) = true
is_shown _ = false

redact-eq :
    (info : ErrorInfo) (e : Error)
    → is_shown e ≡ false
    → redact_error info e ≡ Error.redacted (info.abci_info e).0 (info.abci_info e).1
unfolding redact_error
redact-eq info (Error.registered s n) h = refl
redact-eq info (system n) h = cc
redact-eq info (deterministic e) h = cc
redact-eq info _ h = refl

-- Two errors that are neither deterministic nor system errors give the contract the same result if
-- they have the same codespace and code: nothing else of them is shown.
pub error_result_redacted :
    (info : ErrorInfo) (e e' : Error)
    → is_shown e ≡ false
    → is_shown e' ≡ false
    → info.abci_info e ≡ info.abci_info e'
    → error_result info e ≡ error_result info e'
unfolding error_result
error_result_redacted info e e' h h' same = rw (redact-eq info e h, redact-eq info e' h', same)

abbrev pub IsPassed : Event → Type 0
IsPassed ev = str_eq ev.type "message" ≡ false

filter_events-All : (events : List Event) → All IsPassed (filter_events events)
unfolding filter_events
filter_events-All [] = tt
filter_events-All (ev ∷ events) = ground (arith, filter_events-All events)

-- sorting the attributes does not touch the type
All-sorted : (events : List Event) → All IsPassed events → All IsPassed (map sort_attributes events)
All-sorted [] h = tt
All-sorted (ev ∷ events) h = (h.0, All-sorted events h.1)

types_sorted :
    (events : List Event)
    → map (λ (ev : Event). ev.type) (map sort_attributes events)
      ≡ map (λ (ev : Event). ev.type) events
types_sorted [] = refl
types_sorted (ev ∷ events) = ap (λ ts. ev.type ∷ ts) (types_sorted events)

-- A sub-message passes on no event of type "message", and of the others every one, in their
-- order: what it passes on is of the types of the events that are left when those are taken out.
passed_events_types :
    (msg : CosmosMsg) (events : List Event)
    → All IsPassed (passed_events msg events)
      × (map (λ (ev : Event). ev.type) (passed_events msg events)
          ≡ map (λ (ev : Event). ev.type) (filter_events events))
unfolding passed_events
passed_events_types msg events = elim (Bool-cases (is_wasm msg)) [
  | inl e ↦
      rw (e, passed_events)
        (
          All-sorted (filter_events events) (filter_events-All events),
          types_sorted (filter_events events),
        )
  | inr e ↦ rw (e, passed_events) (filter_events-All events, refl)
]
