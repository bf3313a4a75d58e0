-- ===== src/Keeper/Concrete.antt =====
-- A host that the definitions run on: its VM stores one value for the contract, returns no
-- sub-message and uses some gas, and its other keepers accept what they are asked.
use cosmwasgo.Base.{ℕ, true, false, [], ◌∷◌, none, some, bytes_eq, if◌then◌else◌}
use cosmwasgo.Base.Outcome.{ok, err, external, pure}
use cosmwasgo.Vm.{Response}
use cosmwasgo.Gas.{default_config}
use cosmwasgo.Access.{Bech32, everybody, allow_everybody}
use cosmwasgo.Sdk.Concrete.{BasicMeter, basic_meter}
use cosmwasgo.Keeper.State.{Store}
use cosmwasgo.Keeper.Server.{Service}
use cosmwasgo.Keeper.Host.{Values, Answer, Effect, State, Host}

-- addresses that are their own text, but for the empty one
abbrev pub plain_bech32 : Bech32
plain_bech32 = record {
  parse = λ t. if bytes_eq t [] then err (external 7) else ok t;
  render = λ a. a;
}

abbrev pub done : {A : Type 0} → A → ℕ → BasicMeter → Effect basic_meter ℕ A
done a x m = record { result = ok a; ext = x; meter = m; events = [] }

abbrev pub empty_response : Response
empty_response = record { messages = []; data_bytes = some (7 ∷ []); attributes = []; events = [] }

abbrev pub plain_host : Host basic_meter ℕ
plain_host = record {
  sdk = plain_bech32;
  gas_register = default_config;
  transfer_coins = λ from to coins. done tt;
  get_account = λ x addr. none;
  new_account = λ addr x. x;
  cleanup_account = λ addr acc. done true;
  ensure_ibc_port = λ addr. done (1 ∷ []);
  module_address = λ key. key;
  is_valid_address = λ a. true;
  is_json = λ b. true;
  store_code = λ code gas x. (ok (9 ∷ []), 280_000, x);
  store_code_unchecked = λ code x. (ok (9 ∷ []), x);
  analyze_code = λ x checksum. ok (record {
    has_ibc_entry_points = false;
    required_capabilities = "iterator,staking";
    contract_migrate_version = none;
  });
  pin = λ checksum x. (ok tt, x);
  unpin = λ checksum x. (ok tt, x);
  call = λ v checksum env entry gas c storage. record {
    panicked = none;
    answer = Answer.response empty_response;
    gas_used = 280_000;
    storage = λ k. some (1 ∷ []);
    meter = c.meter;
    tx_contracts = c.tx_contracts;
  };
  text = λ b. "text";
  format_uint = λ n. "1";
  hex = λ b. "09";
  inflate = λ src limit. ok src;
  handle_response = λ v addr port msgs answer. pure answer;
}

-- the message server of a chain with an authority
abbrev pub plain_service : Service
plain_service = record {
  authority = 1 ∷ [];
  propagate = [];
  coins = λ coins. ok tt;
  is_print = λ c. true;
  request_uri = λ uri. ok tt;
  docker_ref = λ ref. ok tt;
}

abbrev pub empty_store : Store
empty_store = record {
  params = record {
    code_upload_access = allow_everybody;
    instantiate_default_permission = everybody;
  };
  last_code_id = none;
  last_contract_id = none;
  codes = λ i. none;
  pinned = λ i. false;
  contracts = λ a. none;
  history = λ a. [];
  by_code = λ i p a. false;
  by_creator = λ c p a. false;
  contract_store = λ a k. none;
}

abbrev pub plain_values : Values
plain_values = record {
  block_height = 5;
  block_gas = 3;
  block_time = 1_700_000_000;
  chain_id = "testing";
  tx_counter = some 0;
  query_stack_size = none;
  call_depth = none;
  sub_msg_policy = none;
}

-- a context over a store, with gas left
abbrev pub context : Store → State basic_meter ℕ
context s = record {
  store = record { wasm = s; ext = 0 };
  meter = record { limit = 1_000_000; consumed = 100 };
  events = [];
  tx_contracts = some [];
}
