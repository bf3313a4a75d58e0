-- ===== src/Gas/Replies.antt =====
-- Replies under a gas register that asks nothing for events, as ReplyCosts charges for them.
use Prim.Native.String.{len}
use cosmwasgo.Base.{
  ℕ, ◌++◌, ◌+◌, ◌*◌, ◌≡◌, refl, ap, ◌∙◌, Bool, List, [], ◌∷◌, Option, none, some, arith, length,
}
use cosmwasgo.Base.Outcome.{ok}
use cosmwasgo.Vm.{Event, EventAttribute, Reply, SubMsgResponse, word64}
use cosmwasgo.Gas.{
  Config, event_attribute_costs, event_costs, event_costs_from, calc_with_free_tier, reply_events,
  reply_event_gas, reply_costs, setup_contract_cost, stored_bytes, response_len,
}

-- a product with 0 adds nothing
word_of_none : (n d : ℕ) → d ≡ 0 → word64 (0 + word64 (n * d)) ≡ 0
word_of_none n d e =
    ap (λ x. word64 (0 + word64 (n * x))) e ∙ ap (λ x. word64 (0 + word64 x)) {y = 0} (omega arith)

module _ (c : Config) (no_data : c.event_attribute_data_cost ≡ 0)
    (no_attributes : c.event_per_attribute_cost ≡ 0) where
  free_events :
      (events : List Event) (attrs : List EventAttribute) → (reply_events c events 0 attrs).0 ≡ 0
  unfolding reply_events
  free_events [] attrs = refl
  free_events (e ∷ events) attrs =
      ap (λ g. (reply_events c events g (attrs ++ e.attributes)).0)
        (word_of_none (len e.type) c.event_attribute_data_cost no_data)
      ∙ free_events events (attrs ++ e.attributes)

  no_cost : (x n : ℕ) → c.event_attribute_data_cost * x + c.event_per_attribute_cost * n ≡ 0
  no_cost x n =
      ap (λ d. d * x + c.event_per_attribute_cost * n) no_data
      ∙ ap (λ a. 0 * x + a * n) no_attributes
      ∙ omega arith

  free_attributes : (attrs : List EventAttribute) → event_costs c attrs [] ≡ ok 0
  unfolding event_costs event_costs_from event_attribute_costs
  free_attributes [] = refl
  free_attributes (a ∷ attrs) =
      let charged =
        (calc_with_free_tier (stored_bytes 0 (a ∷ attrs)) c.event_attribute_data_free_tier).0 in
      let z = no_cost charged (length (a ∷ attrs)) in ground arith

  free_response : (r : Option SubMsgResponse) → reply_event_gas c r ≡ ok 0
  unfolding reply_event_gas
  free_response none = refl
  free_response (some r) =
      let events = free_events r.events [] in
      let attrs = free_attributes (reply_events c r.events 0 []).1 in ground arith

  -- what a reply costs then is what it costs to load the contract
  pub reply_costs-flat :
      (discount : Bool) (r : Reply)
      → reply_costs c discount r
        ≡ ok (
            word64 (
              0
              + setup_contract_cost c discount
                  (len r.result.error + response_len r.result.response)))
  unfolding reply_costs
  reply_costs-flat discount r = let free = free_response r.result.response in ground arith
