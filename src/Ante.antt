-- ===== src/Ante.antt =====
-- The ante handlers, x/wasm/keeper/ante.go: the counter of transactions in a block, the gas limit of
-- simulations, the gas register and the contracts of a transaction in the context. They do not read
-- the transaction, so it is left out; the next handler is a parameter.
pub mod Counter
mod Tests
use cosmwasgo.Base.{
  ℕ, ◌+◌, ◌/◌, ◌%◌, ◌^◌, Bool, true, false, not, List, [], ◌∷◌, ◌++◌, Option, none, some, length,
  ltb, ◌==◌, if◌then◌else◌,
}
use cosmwasgo.Base.Outcome.{Panic, other, Outcome, ok, err, panic, Exec, pure, throw, continue}
use cosmwasgo.Base.Words.{be32, be64, from_be, take, drop}
use cosmwasgo.Vm.{Bytes}
use cosmwasgo.Gas.{Config}
use cosmwasgo.Sdk.{GasMeter}

-- The values of a context that the handlers read and set: the block height (an int64 that is not
-- negative), the max gas of a block (0 where it is not positive), the meter, and what
-- x/wasm/types/context.go keeps.
pub record Context (G : GasMeter) : Type 0 where
  pub block_height : ℕ
  pub max_gas : ℕ
  pub meter : G.Meter
  pub tx_counter : Option ℕ
  pub gas_register : Option Config
  pub tx_contracts : Option (List Bytes)

-- what the store holds under TXCounterPrefix
abbrev pub Stored : Type 0
Stored = Option Bytes

-- sdk.AnteHandler
abbrev pub Handler : GasMeter → Type 0
Handler G = Context G → Bool → Exec Stored (Context G)

-- encodeHeightCounter
unfoldable pub encode_height_counter : ℕ → ℕ → Bytes
unfolding be64
encode_height_counter height counter = be64 height ++ be32 counter

-- decodeHeightCounter; slices of a text that is too short panic
unfoldable pub decode_height_counter : Bytes → Outcome (ℕ × ℕ)
unfolding from_be take drop
decode_height_counter bz =
    if ltb (length bz) 12
    then panic (other "index out of range")
    else ok (from_be 0 (take 8 bz), from_be 0 (take 4 (drop 8 bz)))

-- the counter that is stored for a height, or 0
abbrev pub counter_at : ℕ → Outcome (ℕ × ℕ) → Outcome ℕ
counter_at height (ok (last_height, val)) = ok (if height == last_height then val else 0)
counter_at height (err e) = err e
counter_at height (panic p) = panic p

abbrev pub stored_counter : ℕ → Stored → Outcome ℕ
stored_counter height none = ok 0
stored_counter height (some bz) = counter_at height (decode_height_counter bz)

-- NewLimitSimulationGasDecorator
pub new_limit_simulation_gas_decorator : Option ℕ → Outcome (Option ℕ)
new_limit_simulation_gas_decorator none = ok none
new_limit_simulation_gas_decorator (some limit) =
    if limit == 0 then panic (other "gas limit must not be zero") else ok (some limit)

module _ (G : GasMeter) where
  -- CountTXDecorator.AnteHandle
  unfoldable pub count_tx_decorator : Handler G → Handler G
  unfolding encode_height_counter decode_height_counter
  count_tx_decorator next ctx simulate store =
      if simulate
      then next ctx simulate store
      else continue (stored_counter ctx.block_height store)
          (λ tx_counter s.
            next (record ctx { tx_counter = some tx_counter }) simulate
              (some (encode_height_counter ctx.block_height ((tx_counter + 1) % 2 ^ 32))))
          store

  abbrev pub with_limit : ℕ → Context G → Context G
  with_limit limit ctx = record ctx { meter = G.new_meter limit }

  -- the context of a simulation
  abbrev pub simulation_context : Option ℕ → Context G → Context G
  simulation_context (some limit) ctx = with_limit limit ctx
  simulation_context none ctx = if ltb 0 ctx.max_gas then with_limit ctx.max_gas ctx else ctx

  -- LimitSimulationGasDecorator.AnteHandle
  unfoldable pub limit_simulation_gas_decorator : Option ℕ → Handler G → Handler G
  limit_simulation_gas_decorator limit next ctx simulate =
      next (if simulate then simulation_context limit ctx else ctx) simulate

  -- GasRegisterDecorator.AnteHandle
  unfoldable pub gas_register_decorator : Config → Handler G → Handler G
  gas_register_decorator register next ctx simulate =
      next (record ctx { gas_register = some register }) simulate

  -- TxContractsDecorator.AnteHandle
  unfoldable pub tx_contracts_decorator : Handler G → Handler G
  tx_contracts_decorator next ctx simulate = next (record ctx { tx_contracts = some [] }) simulate
