-- ===== src/Keeper/Host.antt =====
-- What the wasm keeper is given and calls: the other keepers of the chain, the wasm VM, the address
-- generator and the response handler, as records of functions. Each may charge gas and emit events;
-- the VM is handed the contract's own storage and returns it changed (types.NewStoreAdapter over the
-- prefix store), and a query that it makes may add to the transaction's contracts.
use cosmwasgo.Base.{ℕ, Bool, List, ◌++◌, Option, String, ltb, if◌then◌else◌}
use cosmwasgo.Base.Outcome.{Error, Panic, Outcome, ok, panic, other, Exec}
use cosmwasgo.Vm.{Bytes, EventAttribute, Event, Reply, SubMsg, Response}
use cosmwasgo.Gas.{Config}
use cosmwasgo.Access.{Bech32}
use cosmwasgo.Policy.{Policy}
use cosmwasgo.Sdk.{GasMeter, Ctx}
use cosmwasgo.Keeper.State.{Store, Position}

-- types.DepositCoins are only passed on and tested for zero
pub record Coin : Type 0 where
  pub denom : String
  pub amount : ℕ

-- The values of a context that a call reads (x/wasm/types/context.go, the block header).
pub record Values : Type 0 where
  pub block_height : ℕ
  pub block_gas : ℕ
  pub block_time : ℕ
  pub chain_id : String
  pub tx_counter : Option ℕ
  pub query_stack_size : Option ℕ
  pub call_depth : Option ℕ
  pub sub_msg_policy : Option Policy

-- NewAbsoluteTxPosition
abbrev pub new_position : Values → Position
new_position v = record { block_height = v.block_height; tx_index = v.block_gas }

-- wasmvmtypes.Env
pub record Env : Type 0 where
  pub height : ℕ
  pub time : ℕ
  pub chain_id : String
  pub transaction : Option ℕ
  pub contract : Bytes

-- NewEnv
unfoldable pub new_env : Bech32 → Values → Bytes → Outcome Env
new_env sdk v addr =
    if ltb v.block_time 1
    then panic (other "Block (unix) time must never be empty or negative ")
    else ok (record {
      height = v.block_height;
      time = v.block_time;
      chain_id = v.chain_id;
      transaction = v.tx_counter;
      contract = sdk.render addr;
    })

-- NewInfo
pub record MessageInfo : Type 0 where
  pub sender : Bytes
  pub funds : List Coin

-- the entry points of a contract with what they are given
pub data EntryPoint : Type 0 where
  instantiate execute : MessageInfo → Bytes → EntryPoint
  migrate : Bytes → Bytes → Option ℕ → EntryPoint
  sudo : Bytes → EntryPoint
  reply : Reply → EntryPoint

-- an error of wasmvm, a nil result, an error text of the contract (not ""), or its response
pub data Answer : Type 0 where
  vm_error : Error → Answer
  no_result : Answer
  contract_error : String → Answer
  response : Response → Answer

-- AnalyzeCode
pub record Report : Type 0 where
  pub has_ibc_entry_points : Bool
  pub required_capabilities : String
  pub contract_migrate_version : Option ℕ

-- what a call of the VM leaves; `panicked` is a panic of a callback that unwinds through it
pub record Run (G : GasMeter) : Type 0 where
  pub panicked : Option Panic
  pub answer : Answer
  pub gas_used : ℕ
  pub storage : Bytes → Option Bytes
  pub meter : G.Meter
  pub tx_contracts : Option (List Bytes)

-- an sdk.AccountI: the sequence, whether it has a public key, whether its type is accepted
pub record Account : Type 0 where
  pub sequence : ℕ
  pub has_pub_key : Bool
  pub is_accepted : Bool

-- what a call of another keeper leaves
pub record Effect (G : GasMeter) (E : Type 0) (A : Type 0) : Type 0 where
  pub result : Outcome A
  pub ext : E
  pub meter : G.Meter
  pub events : List Event

-- the store of the keeper, and all that belongs to other modules
pub record World (E : Type 0) : Type 0 where
  pub wasm : Store
  pub ext : E

abbrev pub State : GasMeter → Type 0 → Type 0
State G E = Ctx G (World E)

-- The keepers, the VM and the settings of type Keeper; `text` is a Go string of bytes, `format_uint`
-- strconv.FormatUint and `hex` hex.EncodeToString, which only go into events. `module_address` is
-- address.Module for the module, `is_valid_address` sdk.VerifyAddressFormat, `is_json` json.Valid and
-- `inflate` the gzip reader behind a limited reader.
pub record Host (G : GasMeter) (E : Type 0) : Type 0 where
  pub sdk : Bech32
  pub gas_register : Config
  pub transfer_coins : Bytes → Bytes → List Coin → E → G.Meter → Effect G E (Unit {0})
  pub get_account : E → Bytes → Option Account
  pub new_account : Bytes → E → E
  pub cleanup_account : Bytes → Account → E → G.Meter → Effect G E Bool
  pub ensure_ibc_port : Bytes → E → G.Meter → Effect G E Bytes
  pub module_address : Bytes → Bytes
  pub is_valid_address : Bytes → Bool
  pub is_json : Bytes → Bool
  pub store_code : Bytes → ℕ → E → Outcome Bytes × ℕ × E
  pub store_code_unchecked : Bytes → E → Outcome Bytes × E
  pub analyze_code : E → Bytes → Outcome Report
  pub pin : Bytes → E → Outcome (Unit {0}) × E
  pub unpin : Bytes → E → Outcome (Unit {0}) × E
  pub call : Values → Bytes → Env → EntryPoint → ℕ → State G E → (Bytes → Option Bytes) → Run G
  pub text : Bytes → String
  pub format_uint : ℕ → String
  pub hex : Bytes → String
  pub inflate : Bytes → ℕ → Outcome Bytes
  pub handle_response :
      Values → Bytes → Bytes → List SubMsg → Option Bytes → Exec (State G E) (Option Bytes)

module _ (G : GasMeter) {E : Type 0} where
  -- a change of the keeper's store
  abbrev pub update_store : (Store → Store) → Exec (State G E) (Unit {0})
  update_store f c = (ok tt, record c { store = record c.store { wasm = f c.store.wasm } })

  -- without the gas that the SDK's KV store charges for each access
  abbrev pub read_store : {A : Type 0} → (Store → A) → Exec (State G E) A
  read_store f c = (ok (f c.store.wasm), c)

  -- a call of another keeper
  abbrev pub external : {A : Type 0} → (E → G.Meter → Effect G E A) → Exec (State G E) A
  external f c =
      let e = f c.store.ext c.meter in
      (
        e.result,
        record c {
          store = record c.store { ext = e.ext };
          meter = e.meter;
          events = c.events ++ e.events;
        },
      )

  abbrev pub update_ext : {A : Type 0} → (E → Outcome A × E) → Exec (State G E) A
  update_ext f c =
      let (r, ext) = f c.store.ext in (r, record c { store = record c.store { ext = ext } })

abbrev pub attribute : String → String → EventAttribute
attribute key value = record { key = key; value = value }

abbrev pub new_event : String → List EventAttribute → Event
new_event type attributes = record { type = type; attributes = attributes }
