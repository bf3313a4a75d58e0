-- ===== src/Sdk.antt =====
-- What the keeper takes from the Cosmos SDK: the gas meter as an interface with the behaviour that
-- cosmossdk.io/store documents, the text and the ABCI code of an error, and the part of sdk.Context
-- that changes during a call. A cached context (Context.CacheContext) is a copy of the store; its
-- commit hands the copy back. The meter and the set of the transaction's contracts are pointers in
-- Go, so the copies share them.
pub mod Concrete
use cosmwasgo.Base.{ℕ, ◌+◌, ◌≤◌, ◌<◌, ◌≡◌, ◌≢◌, Bool, List, ◌++◌, Option, none, some, String}
use cosmwasgo.Base.Outcome.{Error, Panic, out_of_gas, Outcome, ok, panic, Exec}
use cosmwasgo.Vm.{Event}

-- storetypes.GasMeter; `consume` is ConsumeGas with the value that it panics with, if it does
pub record GasMeter : Type 1 where
  pub Meter : Type 0
  pub limit : Meter → ℕ
  pub consumed : Meter → ℕ
  pub consumed_to_limit : Meter → ℕ
  pub is_out_of_gas : Meter → Bool
  pub consume : ℕ → Meter → Option Panic × Meter
  pub new_meter : ℕ → Meter

-- Documented: gas is added up also where that passes the limit, which is when ConsumeGas panics
-- with ErrorOutOfGas; a sum beyond uint64 panics with ErrorGasOverflow. Limits do not change.
pub record GasMeterLaws (G : GasMeter) : Type 0 where
  pub new_limit : (n : ℕ) → G.limit (G.new_meter n) ≡ n
  pub new_consumed : (n : ℕ) → G.consumed (G.new_meter n) ≡ 0
  pub limit_consume : (n : ℕ) (m : G.Meter) → G.limit (G.consume n m).1 ≡ G.limit m
  pub consume_none :
      (n : ℕ) (m : G.Meter)
      → (G.consume n m).0 ≡ none
      → (G.consumed (G.consume n m).1 ≡ G.consumed m + n) × (G.consumed m + n ≤ G.limit m)
  pub consume_out_of_gas :
      (n : ℕ) (m : G.Meter)
      → (G.consume n m).0 ≡ some out_of_gas
      → (G.consumed (G.consume n m).1 ≡ G.consumed m + n) × (G.limit m < G.consumed m + n)

-- the error texts (Error()) and errorsmod.ABCIInfo
pub record ErrorInfo : Type 0 where
  pub text : Error → String
  pub abci_info : Error → String × ℕ

-- The part of a context that a call changes, over the store of the module that uses it. The checksums
-- in `tx_contracts` are those of types.TxContracts, and `none` a context without that value.
pub record Ctx (G : GasMeter) (S : Type 0) : Type 0 where
  pub store : S
  pub meter : G.Meter
  pub events : List Event
  pub tx_contracts : Option (List (List ℕ))

abbrev pub panicked : Option Panic → Outcome (Unit {0})
panicked none = ok tt
panicked (some p) = panic p

module _ (G : GasMeter) {S : Type 0} where
  -- ctx.GasMeter().ConsumeGas(n, ...)
  abbrev pub consume_gas : ℕ → Exec (Ctx G S) (Unit {0})
  consume_gas n c = (panicked (G.consume n c.meter).0, record c { meter = (G.consume n c.meter).1 })

  -- ctx.EventManager().EmitEvents(events)
  abbrev pub emit : List Event → Exec (Ctx G S) (Unit {0})
  emit evts c = (ok tt, record c { events = c.events ++ evts })
