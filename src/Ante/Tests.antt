-- ===== src/Ante/Tests.antt =====
-- The ante handlers on inputs.
use cosmwasgo.Base.{◌≡◌, refl, false, true, [], none, some, arith}
use cosmwasgo.Base.Outcome.{ok}
use cosmwasgo.Gas.{default_config}
use cosmwasgo.Sdk.Concrete.{basic_meter}
use cosmwasgo.Ante.{
  Context, Stored, encode_height_counter, count_tx_decorator, limit_simulation_gas_decorator,
  gas_register_decorator, tx_contracts_decorator,
}
use cosmwasgo.Ante.Counter.{other_block, passes, delivered, count_tx_decorator_counts}

abbrev start : Context basic_meter
start = record {
  block_height = 7;
  max_gas = 1_000;
  meter = record { limit = 5; consumed = 0 };
  tx_counter = none;
  gas_register = none;
  tx_contracts = none;
}

-- what the block before left
abbrev left_over : Stored
left_over = some (encode_height_counter 6 9)

count_tx_decorator_counts_example :
    ((count_tx_decorator basic_meter
        (passes basic_meter)
        start
        false
        (delivered basic_meter start 2 left_over)).0
      ≡ ok (record start { tx_counter = some 2 }))
    × (count_tx_decorator basic_meter
          (passes basic_meter)
          start
          true
          (delivered basic_meter start 2 left_over)
        ≡ (ok start, delivered basic_meter start 2 left_over))
count_tx_decorator_counts_example =
    count_tx_decorator_counts basic_meter start left_over 2 (omega arith)
      (other_block 6 9 (omega arith) (omega arith) (λ e. omega (arith, e))) (omega arith)

-- a simulation is bounded by the gas of a block, and gets what the keeper needs
simulated :
    (limit_simulation_gas_decorator basic_meter none
      (gas_register_decorator basic_meter default_config
        (tx_contracts_decorator basic_meter (passes basic_meter)))
      start
      true
      none).0
    ≡ ok (record start {
      meter = record { limit = 1_000; consumed = 0 };
      gas_register = some default_config;
      tx_contracts = some [];
    })
unfolding limit_simulation_gas_decorator gas_register_decorator tx_contracts_decorator
simulated = refl
