-- ===== src/Keeper/Metering/Tests.antt =====
-- Limits and discounts on inputs.
use cosmwasgo.Base.{◌-◌, ◌≤◌, refl, some, arith}
use cosmwasgo.Gas.{default_config, to_wasm_vm_gas, from_wasm_vm_gas}
use cosmwasgo.Sdk.Concrete.{basic_meter}
use cosmwasgo.Keeper.Host.{Values}
use cosmwasgo.Keeper.Concrete.{plain_values}
use cosmwasgo.Keeper.Metering.{runtime_gas_for_contract}
use cosmwasgo.Keeper.Metering.Bounds.{runtime_gas_covered}

abbrev queried : Values
queried = record plain_values { query_stack_size = some 2 }

abbrev called : Values
called = record plain_values { call_depth = some 2 }

runtime_gas_covered_example : from_wasm_vm_gas default_config 280_000 ≤ 1_000_000 - 100
unfolding runtime_gas_for_contract to_wasm_vm_gas
runtime_gas_covered_example =
    runtime_gas_covered basic_meter default_config (record { limit = 1_000_000; consumed = 100 })
      139_986_000_000 280_000 (omega arith) (omega arith) (omega arith) refl (omega arith)
