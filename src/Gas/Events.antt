-- ===== src/Gas/Events.antt =====
-- About the costs of events (gas_register.go), with an independent description of them.
use Prim.Native.String.{len}
use native.Mathlib.Nat.{add_assoc, mul-add, mul-zero, zero-sub}
use cosmwasgo.Base.{ℕ, ◌+◌, ◌-◌, ◌*◌, ◌^◌, ◌<◌, ◌≡◌, ap, ◌∙◌, List, [], ◌∷◌, arith, length}
use cosmwasgo.Base.Outcome.{ok}
use cosmwasgo.Vm.{EventAttribute, Event, word64}
use cosmwasgo.Gas.{
  Config, stored_bytes, calc_with_free_tier, event_attribute_costs, event_costs_from, event_costs,
}

-- the bytes of all keys and values
abbrev pub attribute_bytes : List EventAttribute → ℕ
attribute_bytes [] = 0
attribute_bytes (a ∷ attrs) = len a.key + len a.value + attribute_bytes attrs

abbrev pub all_bytes : List Event → ℕ
all_bytes [] = 0
all_bytes (e ∷ events) = attribute_bytes e.attributes + all_bytes events

abbrev pub attribute_count : List Event → ℕ
attribute_count [] = 0
attribute_count (e ∷ events) = length e.attributes + attribute_count events

abbrev pub type_bytes : List Event → ℕ
type_bytes [] = 0
type_bytes (e ∷ events) = len e.type + type_bytes events

stored_bytes-eq :
    (acc : ℕ) (attrs : List EventAttribute)
    → acc + attribute_bytes attrs < 2 ^ 64
    → stored_bytes acc attrs ≡ acc + attribute_bytes attrs
unfolding stored_bytes
stored_bytes-eq acc [] h = omega arith
stored_bytes-eq acc (a ∷ attrs) h =
    let e : word64 (acc + word64 (len a.key + len a.value)) ≡ acc + (len a.key + len a.value) =
      omega arith in
    rw e (
      stored_bytes-eq (acc + (len a.key + len a.value)) attrs (omega arith)
      ∙ add_assoc acc (len a.key + len a.value) (attribute_bytes attrs))

-- the cost of attributes of `b` bytes and of number `n`, with `free` bytes free of charge
abbrev pub attribute_cost : Config → ℕ → ℕ → ℕ → ℕ
attribute_cost c b n free =
    c.event_attribute_data_cost * (b - free) + c.event_per_attribute_cost * n

calc_with_free_tier-eq :
    (stored free : ℕ) → calc_with_free_tier stored free ≡ (stored - free, free - stored)
unfolding calc_with_free_tier
calc_with_free_tier-eq stored free = ground arith

attribute_cost_free : (c : Config) (free : ℕ) → attribute_cost c 0 0 free ≡ 0
attribute_cost_free c free = rw (zero-sub, mul-zero, mul-zero)

-- the cost of the attributes of one event, and the part of the free tier that they leave
event_attribute_costs-eq :
    (c : Config) (attrs : List EventAttribute) (free : ℕ)
    → attribute_bytes attrs < 2 ^ 64
    → attribute_cost c (attribute_bytes attrs) (length attrs) free < 2 ^ 64
    → event_attribute_costs c attrs free
      ≡ ok (
        attribute_cost c (attribute_bytes attrs) (length attrs) free,
        free - attribute_bytes attrs,
      )
unfolding event_attribute_costs
event_attribute_costs-eq c [] free hb hc = ground (arith, attribute_cost_free c free)
event_attribute_costs-eq c (a ∷ attrs) free hb hc =
    let e : stored_bytes 0 (a ∷ attrs) ≡ attribute_bytes (a ∷ attrs) =
      stored_bytes-eq 0 (a ∷ attrs) (omega arith) ∙ omega arith in
    rw e (ground arith)

-- a free tier that is used up in two steps
split_charge : (d a b free : ℕ) → d * (a + b - free) ≡ d * (a - free) + d * (b - (free - a))
split_charge d a b free =
    let e : a + b - free ≡ (a - free) + (b - (free - a)) = omega arith in rw (e, mul-add)

attribute_cost_split :
    (c : Config) (a n b m free : ℕ)
    → attribute_cost c (a + b) (n + m) free
      ≡ attribute_cost c a n free + attribute_cost c b m (free - a)
attribute_cost_split c a n b m free = omega (
  arith,
  split_charge c.event_attribute_data_cost a b free,
  mul-add c.event_per_attribute_cost n m,
)

-- the cost of custom events without their attributes
abbrev pub event_cost : Config → List Event → ℕ
event_cost c [] = 0
event_cost c (e ∷ events) =
    c.custom_event_cost + len e.type * c.event_attribute_data_cost + event_cost c events

event_costs_from-eq :
    (c : Config) (events : List Event) (gas free : ℕ)
    → all_bytes events < 2 ^ 64
    → gas + event_cost c events + attribute_cost c (all_bytes events) (attribute_count events) free
      < 2 ^ 64
    → event_costs_from c events gas free
      ≡ ok (
          gas
          + event_cost c events
          + attribute_cost c (all_bytes events) (attribute_count events) free)
unfolding event_costs_from
event_costs_from-eq c [] gas free hb hc = ground (arith, attribute_cost_free c free)
event_costs_from-eq c (e ∷ events) gas free hb hc =
    let b = attribute_bytes e.attributes in
    let cost = attribute_cost c b (length e.attributes) free in
    let split =
      attribute_cost_split c b (length e.attributes) (all_bytes events) (attribute_count events)
        free in
    let sum : word64 (
          word64
            (word64 (gas + c.custom_event_cost) + word64 (len e.type * c.event_attribute_data_cost))
          + cost)
        ≡ gas + c.custom_event_cost + len e.type * c.event_attribute_data_cost + cost =
      omega (arith, split) in
    rw
      (
        event_attribute_costs-eq c e.attributes free (omega arith) (omega (arith, split)),
        event_costs_from,
      )
      (rw sum (
        event_costs_from-eq c events
          (gas + c.custom_event_cost + len e.type * c.event_attribute_data_cost + cost) (free - b)
          (omega arith) (omega (arith, split))
        ∙ ap ok (omega (arith, split))))

-- EventCosts charges every custom event and its type, every attribute, and the bytes of all
-- attributes beyond one free tier that the contract's attributes and the events share, as long as
-- that cost and the number of bytes fit into uint64.
pub event_costs-eq :
    (c : Config) (attrs : List EventAttribute) (events : List Event)
    → attribute_bytes attrs + all_bytes events < 2 ^ 64
    → event_cost c events
        + attribute_cost c
            (attribute_bytes attrs + all_bytes events)
            (length attrs + attribute_count events)
            c.event_attribute_data_free_tier
      < 2 ^ 64
    → event_costs c attrs events
      ≡ ok (
          event_cost c events
          + attribute_cost c
              (attribute_bytes attrs + all_bytes events)
              (length attrs + attribute_count events)
              c.event_attribute_data_free_tier)
unfolding event_costs
event_costs-eq c attrs events hb hc =
    let b = attribute_bytes attrs in
    let free = c.event_attribute_data_free_tier in
    let split =
      attribute_cost_split c b (length attrs) (all_bytes events) (attribute_count events) free in
    rw (event_attribute_costs-eq c attrs free (omega arith) (omega (arith, split)), event_costs)
      (event_costs_from-eq c events (attribute_cost c b (length attrs) free) (free - b)
          (omega arith) (omega (arith, split))
        ∙ ap ok (omega (arith, split)))
