-- ===== src/Gas/Tests.antt =====
-- Gas on inputs.
use cosmwasgo.Base.{ℕ, ◌*◌, ◌%◌, ◌^◌, ◌<◌, ◌≡◌, List, [], ◌∷◌, arith}
use cosmwasgo.Base.Outcome.{ok}
use cosmwasgo.Vm.{EventAttribute, Event}
use cosmwasgo.Gas.{default_config, event_costs, to_wasm_vm_gas, from_wasm_vm_gas}
use cosmwasgo.Gas.Events.{event_costs-eq}
use cosmwasgo.Gas.Convert.{from_wasm_vm_gas-to_wasm_vm_gas, to_wasm_vm_gas_undetected}

abbrev one_attribute : List EventAttribute
one_attribute = record { key = "k"; value = "value" } ∷ []

abbrev one_event : List Event
one_event = record { type = "moved"; attributes = one_attribute } ∷ []

event_costs-eq_example : event_costs default_config one_attribute one_event ≡ ok 45
event_costs-eq_example =
    event_costs-eq default_config one_attribute one_event (omega arith) (omega arith)

from_wasm_vm_gas-to_wasm_vm_gas_example :
    (x : ℕ) × (to_wasm_vm_gas default_config 7 ≡ ok x)
    × (x ≡ 7 * 140_000)
    × (from_wasm_vm_gas default_config x ≡ 7)
from_wasm_vm_gas-to_wasm_vm_gas_example =
    from_wasm_vm_gas-to_wasm_vm_gas default_config 7 (omega arith) (omega arith)

-- 2 ^ 50 SDK gas at the default multiplier
to_wasm_vm_gas_undetected_example :
    (to_wasm_vm_gas default_config 0x4_0000_0000_0000 ≡ ok (0x4_0000_0000_0000 * 140_000 % 2 ^ 64))
    × (from_wasm_vm_gas default_config (0x4_0000_0000_0000 * 140_000 % 2 ^ 64) < 0x4_0000_0000_0000)
to_wasm_vm_gas_undetected_example =
    to_wasm_vm_gas_undetected default_config 0x4_0000_0000_0000 (omega arith) (omega arith)
