-- ===== src/Keeper/Closed/Tests.antt =====
-- The running keeper on inputs: a contract whose birth burns coins and asks for the reply, in a chain
-- whose router knows the messages of the module, and where events cost nothing.
use cosmwasgo.Base.{
  ℕ, ◌≤◌, ◌≡◌, refl, sym, ◌∙◌, true, false, [], ◌∷◌, none, some, arith, List, bytes_eq,
  if◌then◌else◌,
}
use cosmwasgo.Base.Outcome.{ok, pure}
use cosmwasgo.Vm.{Bytes, SubMsg, reply_always, CosmosMsg, BankMsg, Reply}
use cosmwasgo.Gas.{Config, default_config, reply_costs, setup_contract_cost}
use cosmwasgo.Gas.Replies.{reply_costs-flat}
use cosmwasgo.Sdk.Concrete.{basic_meter, basic_meter-laws}
use cosmwasgo.Keeper.State.{Store, ContractInfo}
use cosmwasgo.Keeper.Host.{Answer as VmAnswer, EntryPoint, Host}
use cosmwasgo.Keeper.Concrete.{
  plain_host, empty_store, plain_values, context, empty_response, plain_service,
}
use cosmwasgo.Keeper.Handlers.Concrete.{plain_plugins, respects}
use cosmwasgo.Keeper.Entry.Isolation.{same-Keeps}
use cosmwasgo.Keeper.Index.{IsConsistent}
use cosmwasgo.Keeper.Handlers.Related.{PluginsRelated}
use cosmwasgo.Keeper.Agree.{Agrees, agrees-IsClosed, quiet_agrees}
use cosmwasgo.Keeper.Agree.Steps.{Metered}
use cosmwasgo.Keeper.Closed.{Setup, run_message, out_of_fuel}
use cosmwasgo.Keeper.Closed.Invariant.{Kept, Kept-IsClosed}
use cosmwasgo.Keeper.Closed.Births.{Born, run_message-Born}
use cosmwasgo.Keeper.Closed.Consistent.{run_message-IsConsistent}
use cosmwasgo.Keeper.Closed.Enough.{Metering, run_message_fuel}
use cosmwasgo.Messages.{Message}

abbrev alice : Bytes
alice = 10 ∷ []

abbrev burning : SubMsg
burning = record {
  id = 1;
  msg = CosmosMsg.bank (BankMsg.burn (record { denom = "atom"; amount = 5 ∷ [] } ∷ []));
  payload = [];
  gas_limit = none;
  reply_on = reply_always;
}

-- the messages of a contract: none in a reply
abbrev messages_of : EntryPoint → List SubMsg
messages_of (EntryPoint.reply r) = []
messages_of entry = burning ∷ []

abbrev flat_config : Config
flat_config = record default_config {
  event_per_attribute_cost = 0;
  event_attribute_data_cost = 0;
  custom_event_cost = 0;
}

abbrev burning_host : Host basic_meter ℕ
burning_host = record plain_host {
  gas_register = flat_config;
  call = λ v checksum env entry gas c storage. record {
    panicked = none;
    answer = VmAnswer.response (record empty_response { messages = messages_of entry });
    gas_used = 280_000;
    storage = λ k. some (1 ∷ []);
    meter = c.meter;
    tx_contracts = c.tx_contracts;
  };
}

abbrev setup : Setup basic_meter ℕ
setup = record {
  host = burning_host;
  service = plain_service;
  plugins = plain_plugins;
  info = record { text = λ e. "text"; abci_info = λ e. ("sdk", 1) };
  max_call_depth = 500;
}

kept_plugins : (P : Store → Type 0) → PluginsRelated basic_meter (Kept basic_meter P) plain_plugins
kept_plugins P =
    respects (Kept basic_meter P) (Kept-IsClosed basic_meter P)
      (λ addr coins. same-Keeps basic_meter P (λ c. refl))
      (λ coins. same-Keeps basic_meter P (λ c. refl))

-- an upload and the birth of a contract in one message
abbrev both : Message
both = Message.store_and_instantiate_contract (record {
  authority = alice;
  wasm_byte_code = 0 ∷ 1 ∷ [];
  instantiate_permission = none;
  unpin_code = false;
  admin = [];
  label = "one";
  msg = 1 ∷ [];
  funds = [];
  source = [];
  builder = [];
  code_hash = none;
})

run_message-IsConsistent_example :
    IsConsistent
      (run_message basic_meter setup
        (out_of_fuel basic_meter)
        3
        plain_values
        both
        (context empty_store)).1.store.wasm
run_message-IsConsistent_example =
    run_message-IsConsistent basic_meter setup (kept_plugins IsConsistent) 3 plain_values both
      (context empty_store) (record { agree = λ a. refl; indexed = λ i p a. refl })

-- the address of the contract that is born next is taken
abbrev elder : ContractInfo
elder = record {
  code_id = 1;
  creator = 12 ∷ [];
  admin = [];
  label = "elder";
  created = record { block_height = 1; tx_index = 1 };
  ibc_port = [];
  extension = none;
}

abbrev taken_store : Store
taken_store = record empty_store {
  contracts = λ a. if bytes_eq a (20 ∷ []) then some elder else none;
}

run_message-Born_example :
    Born
      (20 ∷ [])
      (12 ∷ [])
      (record { block_height = 1; tx_index = 1 })
      (run_message basic_meter setup
        (out_of_fuel basic_meter)
        3
        plain_values
        both
        (context taken_store)).1.store.wasm
run_message-Born_example =
    run_message-Born (20 ∷ []) (12 ∷ []) (record { block_height = 1; tx_index = 1 }) basic_meter
      setup (kept_plugins (Born (20 ∷ []) (12 ∷ []) (record { block_height = 1; tx_index = 1 }))) 3
      plain_values both (context taken_store) refl

-- a reply costs the discounted load of a contract
flat_costs : (r : Reply) (n : ℕ) → reply_costs flat_config true r ≡ ok n → 1 ≤ n
unfolding setup_contract_cost
flat_costs r n e =
    let same = sym (reply_costs-flat flat_config refl refl true r) ∙ e in ground arith

metered : Metered basic_meter burning_host
metered = record {
  transfer_coins = λ k from to coins x m q. q;
  cleanup_account = λ k addr acc x m q. q;
  ensure_ibc_port = λ k addr x m q. q;
  call = λ k v checksum env entry gas c storage q e. q;
}

metering : Metering basic_meter setup
metering = record {
  laws = basic_meter-laws;
  host = metered;
  plugins = λ j.
      respects (λ A m m'. Agrees basic_meter j j m m') (agrees-IsClosed basic_meter j)
        (λ addr coins. quiet_agrees basic_meter j (λ c. refl))
        (λ coins. quiet_agrees basic_meter j (λ c. refl));
  costly = flat_costs;
  depth = omega arith;
}

run_message_fuel_example :
    run_message basic_meter setup
      (out_of_fuel basic_meter)
      600_000_000
      plain_values
      both
      (context empty_store)
    ≡ run_message basic_meter setup
        (λ v addr port msgs answer. pure answer)
        700_000_000
        plain_values
        both
        (context empty_store)
run_message_fuel_example =
    run_message_fuel basic_meter setup metering (out_of_fuel basic_meter)
      (λ v addr port msgs answer. pure answer) 600_000_000 700_000_000 999_900 plain_values both
      (context empty_store) refl
      (record { word = omega arith; within = omega arith; rest = omega arith }) (omega arith)
      (omega arith)
