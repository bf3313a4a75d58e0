-- ===== src/Gas.antt =====
-- The gas register, x/wasm/types/gas_register.go: what the module charges for decompressing,
-- loading, replying and events, and the conversion between SDK gas and wasmvm gas. Gas is uint64
-- and wraps where the source uses plain `+` and `*`. The sum in eventAttributeCosts is taken in
-- sdkmath.Int, which holds it exactly. Lengths come from `len`, so they are never negative.
pub mod Events
pub mod Convert
pub mod Replies
mod Tests
use Prim.Native.String.{len}
use cosmwasgo.Base.{
  ℕ, ◌+◌, ◌-◌, ◌*◌, ◌/◌, Bool, List, [], ◌∷◌, ◌++◌, Option, none, some, String, length, ltb, leb,
  ◌==◌, if◌then◌else◌,
}
use cosmwasgo.Base.Outcome.{Outcome, ok, panic, out_of_gas, other}
use cosmwasgo.Vm.{
  EventAttribute, Event, Reply, SubMsgResponse, UFraction, word64, max_uint64, mul, floor,
}

pub record Config : Type 0 where
  pub instance_cost : ℕ
  pub instance_cost_discount : ℕ
  pub compile_cost : ℕ
  pub uncompress_cost : UFraction
  pub gas_multiplier : ℕ
  pub event_per_attribute_cost : ℕ
  pub event_attribute_data_cost : ℕ
  pub event_attribute_data_free_tier : ℕ
  pub contract_message_data_cost : ℕ
  pub custom_event_cost : ℕ

-- DefaultGasRegisterConfig
abbrev pub default_config : Config
default_config = record {
  instance_cost = 60_000;
  instance_cost_discount = 2_000;
  compile_cost = 3;
  uncompress_cost = record { numerator = 15; denominator = 100 };
  gas_multiplier = 140_000;
  event_per_attribute_cost = 10;
  event_attribute_data_cost = 1;
  event_attribute_data_free_tier = 100;
  contract_message_data_cost = 0;
  custom_event_cost = 20;
}

-- NewWasmGasRegister
pub new_gas_register : Config → Outcome Config
new_gas_register c =
    if c.gas_multiplier == 0 then panic (other "GasMultiplier can not be 0") else ok c

-- UncompressCosts
unfoldable pub uncompress_costs : Config → ℕ → ℕ
unfolding mul floor
uncompress_costs c byte_length = floor (mul c.uncompress_cost byte_length)

-- SetupContractCost
unfoldable pub setup_contract_cost : Config → Bool → ℕ → ℕ
setup_contract_cost c discount msg_len =
    let data_cost = word64 (msg_len * c.contract_message_data_cost) in
    if discount
    then word64 (c.instance_cost_discount + data_cost)
    else word64 (c.instance_cost + data_cost)

-- calcWithFreeTier: what is charged for, and what is left of the free tier
unfoldable pub calc_with_free_tier : ℕ → ℕ → ℕ × ℕ
calc_with_free_tier stored_bytes free_tier =
    if leb stored_bytes free_tier
    then (0, free_tier - stored_bytes)
    else (stored_bytes - free_tier, 0)

-- the loop of eventAttributeCosts over the attributes
unfoldable pub stored_bytes : ℕ → List EventAttribute → ℕ
stored_bytes acc [] = acc
stored_bytes acc (a ∷ attrs) = stored_bytes (word64 (acc + word64 (len a.key + len a.value))) attrs

abbrev is_empty {ℓ} : {A : Type ℓ} → List A → Bool
is_empty [] = Bool.true
is_empty (x ∷ xs) = Bool.false

-- eventAttributeCosts: the cost, and what is left of the free tier
unfoldable pub event_attribute_costs : Config → List EventAttribute → ℕ → Outcome (ℕ × ℕ)
unfolding calc_with_free_tier
event_attribute_costs c attrs free_tier =
    let (charged, free) = calc_with_free_tier (stored_bytes 0 attrs) free_tier in
    let r = c.event_attribute_data_cost * charged + c.event_per_attribute_cost * length attrs in
    if is_empty attrs
    then ok (0, free_tier)
    else if leb r max_uint64
    then ok (r, free)
    else panic out_of_gas

-- the loop of EventCosts over the custom events, from the gas and the free tier so far
unfoldable pub event_costs_from : Config → List Event → ℕ → ℕ → Outcome ℕ
event_costs_from c [] gas free = ok gas
event_costs_from c (e ∷ events) gas free = elim (event_attribute_costs c e.attributes free) [
  | ok (cost, free') ↦
      event_costs_from c events
        (word64 (
          word64
            (word64 (gas + c.custom_event_cost) + word64 (len e.type * c.event_attribute_data_cost))
          + cost))
        free'
  | Outcome.err x ↦ Outcome.err x
  | panic p ↦ panic p
]

-- EventCosts
unfoldable pub event_costs : Config → List EventAttribute → List Event → Outcome ℕ
unfolding event_costs_from
event_costs c attrs events = elim (event_attribute_costs c attrs c.event_attribute_data_free_tier) [
  | ok (gas, free) ↦ event_costs_from c events gas free
  | Outcome.err x ↦ Outcome.err x
  | panic p ↦ panic p
]

-- the loop of ReplyCosts: the gas of the event types, and all attributes in order
unfoldable reply_events : Config → List Event → ℕ → List EventAttribute → ℕ × List EventAttribute
reply_events c [] gas attrs = (gas, attrs)
reply_events c (e ∷ events) gas attrs =
    reply_events c events (word64 (gas + word64 (len e.type * c.event_attribute_data_cost)))
      (attrs ++ e.attributes)

unfoldable reply_event_gas : Config → Option SubMsgResponse → Outcome ℕ
unfolding reply_events event_costs
reply_event_gas c none = ok 0
reply_event_gas c (some r) =
    let (gas, attrs) = reply_events c r.events 0 [] in
    elim (event_costs c attrs []) [
      | ok cost ↦ ok (word64 (gas + cost))
      | Outcome.err x ↦ Outcome.err x
      | panic p ↦ panic p
    ]

abbrev response_len : Option SubMsgResponse → ℕ
response_len none = 0
response_len (some r) = length r.data_bytes

-- ReplyCosts
unfoldable pub reply_costs : Config → Bool → Reply → Outcome ℕ
unfolding reply_event_gas setup_contract_cost
reply_costs c discount reply =
    let msg_len = len reply.result.error + response_len reply.result.response in
    elim (reply_event_gas c reply.result.response) [
      | ok event_gas ↦ ok (word64 (event_gas + setup_contract_cost c discount msg_len))
      | Outcome.err x ↦ Outcome.err x
      | panic p ↦ panic p
    ]

-- ToWasmVMGas
unfoldable pub to_wasm_vm_gas : Config → ℕ → Outcome ℕ
to_wasm_vm_gas c source =
    let x = word64 (source * c.gas_multiplier) in if ltb x source then panic out_of_gas else ok x

-- FromWasmVMGas
unfoldable pub from_wasm_vm_gas : Config → ℕ → ℕ
from_wasm_vm_gas c source = source / c.gas_multiplier
