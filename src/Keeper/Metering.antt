-- ===== src/Keeper/Metering.antt =====
-- Gas and recursion limits of the keeper: runtimeGasForContract, consumeRuntimeGas,
-- checkDiscountEligibility, checkAndIncreaseQueryStackSize and checkAndIncreaseCallDepth, with
-- types.TxContracts.
mod Tests
pub mod Bounds
use cosmwasgo.Base.{
  ℕ, ◌+◌, ◌-◌, ◌%◌, ◌^◌, Bool, true, false, List, [], ◌∷◌, Option, none, some, contains, bytes_eq,
  ltb, ◌==◌, if◌then◌else◌,
}
use cosmwasgo.Base.Outcome.{
  Error, registered, out_of_gas, Outcome, ok, err, panic, Exec, pure, throw, lift, continue, ◌>>=◌,
  ◌>>◌,
}
use cosmwasgo.Vm.{Bytes, word64, max_uint64}
use cosmwasgo.Gas.{Config, to_wasm_vm_gas, from_wasm_vm_gas}
use cosmwasgo.Sdk.{GasMeter, Ctx, consume_gas}
use cosmwasgo.Keeper.Host.{Values}

-- runtimeGasForContract
unfoldable pub runtime_gas_for_contract : (G : GasMeter) → Config → G.Meter → Outcome ℕ
runtime_gas_for_contract G c m =
    if G.is_out_of_gas m
    then ok 0
    else if G.limit m == max_uint64
    then ok max_uint64
    else to_wasm_vm_gas c (word64 (G.limit m + 0x1_0000_0000_0000_0000 - G.consumed_to_limit m))

-- TxContracts.AddContract
abbrev pub add_contract : List Bytes → Bytes → List Bytes
add_contract xs [] = xs
add_contract xs (b ∷ bs) = (b ∷ bs) ∷ xs

module _ (G : GasMeter) {S : Type 0} where
  -- consumeRuntimeGas
  unfoldable pub consume_runtime_gas : Config → ℕ → Exec (Ctx G S) (Unit {0})
  consume_runtime_gas c gas =
      consume_gas G (from_wasm_vm_gas c gas)
      >> (λ x. (if G.is_out_of_gas x.meter then panic out_of_gas else ok tt, x))

  discount_from : Bytes → Option (List Bytes) → Exec (Ctx G S) Bool
  discount_from checksum none x = (ok false, x)
  discount_from checksum (some xs) x =
      if contains xs checksum
      then (ok true, x)
      else (ok false, record x { tx_contracts = some (add_contract xs checksum) })

  -- checkDiscountEligibility
  unfoldable pub check_discount_eligibility : Bytes → Bool → Exec (Ctx G S) Bool
  unfolding discount_from
  check_discount_eligibility checksum is_pinned x =
      if is_pinned then (ok true, x) else discount_from checksum x.tx_contracts x

abbrev pub value_or_zero : Option ℕ → ℕ
value_or_zero none = 0
value_or_zero (some n) = n

-- uint32 arithmetic wraps
abbrev pub next_size : Option ℕ → ℕ
next_size n = (value_or_zero n + 1) % 2 ^ 32

-- checkAndIncreaseQueryStackSize
unfoldable pub check_and_increase_query_stack_size : ℕ → Values → Outcome Values
check_and_increase_query_stack_size max v =
    if ltb max (next_size v.query_stack_size)
    then err (registered "wasm" 27)
    else ok (record v { query_stack_size = some (next_size v.query_stack_size) })

-- checkAndIncreaseCallDepth
unfoldable pub check_and_increase_call_depth : ℕ → Values → Outcome Values
check_and_increase_call_depth max v =
    if ltb max (next_size v.call_depth)
    then err (registered "wasm" 30)
    else ok (record v { call_depth = some (next_size v.call_depth) })
