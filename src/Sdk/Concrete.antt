-- ===== src/Sdk/Concrete.antt =====
-- A meter that has the documented behaviour (basicGasMeter), to run the definitions on inputs.
use cosmwasgo.Base.{ℕ, ◌+◌, refl, Option, none, some, arith, ltb, leb, if◌then◌else◌}
use cosmwasgo.Base.Outcome.{Panic, out_of_gas, gas_overflow}
use cosmwasgo.Vm.{max_uint64}
use cosmwasgo.Sdk.{GasMeter, GasMeterLaws}

pub record BasicMeter : Type 0 where
  pub limit : ℕ
  pub consumed : ℕ

abbrev basic_consume : ℕ → BasicMeter → Option Panic × BasicMeter
basic_consume n m =
    if ltb max_uint64 (m.consumed + n)
    then (some gas_overflow, record m { consumed = max_uint64 })
    else if ltb m.limit (m.consumed + n)
    then (some out_of_gas, record m { consumed = m.consumed + n })
    else (none, record m { consumed = m.consumed + n })

abbrev pub basic_meter : GasMeter
basic_meter = record {
  Meter = BasicMeter;
  limit = λ m. m.limit;
  consumed = λ m. m.consumed;
  consumed_to_limit = λ m. if ltb m.limit m.consumed then m.limit else m.consumed;
  is_out_of_gas = λ m. leb m.limit m.consumed;
  consume = basic_consume;
  new_meter = λ n. record { limit = n; consumed = 0 };
}

pub basic_meter-laws : GasMeterLaws basic_meter
basic_meter-laws = record {
  new_limit = λ n. refl;
  new_consumed = λ n. refl;
  limit_consume = λ n m. ground arith;
  consume_none = λ n m h. ground arith;
  consume_out_of_gas = λ n m h. ground arith;
}
