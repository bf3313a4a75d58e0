-- ===== src/Gas/Convert.antt =====
-- The conversion between SDK gas and wasmvm gas (ToWasmVMGas, FromWasmVMGas).
use cosmwasgo.Base.{ℕ, ◌*◌, ◌/◌, ◌%◌, ◌^◌, ◌≤◌, ◌<◌, ◌≡◌, arith}
use cosmwasgo.Base.Outcome.{ok}
use cosmwasgo.Gas.{Config, to_wasm_vm_gas, from_wasm_vm_gas}

-- a product divided by one of its factors
div_mul_self : (a m : ℕ) → 0 < m → a * m / m ≡ a
div_mul_self a m h = grind arith

div_le_of_le_mul : (u a m : ℕ) → 0 < m → u ≤ a * m → u / m ≤ a
div_le_of_le_mul u a m h k = grind arith

div_lt_of_lt_mul : (u a m : ℕ) → u < a * m → u / m < a
div_lt_of_lt_mul u a m h = grind arith

mul-ge : (a m : ℕ) → 0 < m → a ≤ a * m
mul-ge a m h = grind arith

-- Where the product fits into uint64 the conversion does not panic and is exact, and converting
-- back gives the SDK gas that one began with.
pub from_wasm_vm_gas-to_wasm_vm_gas :
    (c : Config) (source : ℕ)
    → 0 < c.gas_multiplier
    → source * c.gas_multiplier < 2 ^ 64
    → (x : ℕ) × (to_wasm_vm_gas c source ≡ ok x)
      × (x ≡ source * c.gas_multiplier)
      × (from_wasm_vm_gas c x ≡ source)
unfolding to_wasm_vm_gas from_wasm_vm_gas
from_wasm_vm_gas-to_wasm_vm_gas c source pos fits = (
  source * c.gas_multiplier,
  ground (arith, mul-ge source c.gas_multiplier pos),
  omega arith,
  div_mul_self source c.gas_multiplier pos,
)

-- What a contract uses of the wasmvm gas it was given costs no more than the SDK gas that was
-- converted for it, whatever the multiplier and also where the product wraps.
pub from_wasm_vm_gas-le :
    (c : Config) (left limit used : ℕ)
    → 0 < c.gas_multiplier
    → to_wasm_vm_gas c left ≡ ok limit
    → used ≤ limit
    → from_wasm_vm_gas c used ≤ left
unfolding to_wasm_vm_gas from_wasm_vm_gas
from_wasm_vm_gas-le c left limit used pos given h =
    div_le_of_le_mul used left c.gas_multiplier pos (ground arith)

-- no gas used is no gas charged
pub from_wasm_vm_gas-zero : (c : Config) (used : ℕ) → used ≤ 0 → from_wasm_vm_gas c used ≡ 0
unfolding from_wasm_vm_gas
from_wasm_vm_gas-zero c used h = grind arith

-- The overflow test compares the wrapped product with the source only: where the product does not
-- fit into uint64 and its low 64 bits are not below the source, the conversion returns those bits
-- and does not panic, and converting them back gives less SDK gas than one began with.
pub to_wasm_vm_gas_undetected :
    (c : Config) (source : ℕ)
    → 2 ^ 64 ≤ source * c.gas_multiplier
    → source ≤ source * c.gas_multiplier % 2 ^ 64
    → (to_wasm_vm_gas c source ≡ ok (source * c.gas_multiplier % 2 ^ 64))
      × (from_wasm_vm_gas c (source * c.gas_multiplier % 2 ^ 64) < source)
unfolding to_wasm_vm_gas from_wasm_vm_gas
to_wasm_vm_gas_undetected c source over hidden = (
  ground arith,
  div_lt_of_lt_mul (source * c.gas_multiplier % 2 ^ 64) source c.gas_multiplier (omega arith),
)
