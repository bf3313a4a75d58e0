-- ===== src/Keeper/Instantiate/Tests.antt =====
-- Instantiate on inputs: a refused creator, and an address that is taken.
use cosmwasgo.Base.{ℕ, ◌≡◌, refl, false, [], ◌∷◌, none, some, bytes_eq, ◌==◌, if◌then◌else◌}
use cosmwasgo.Base.Outcome.{is_ok}
use cosmwasgo.Access.{allow_nobody, allow_everybody, allowed}
use cosmwasgo.Policy.{default_policy, can_instantiate_contract}
use cosmwasgo.Sdk.Concrete.{basic_meter}
use cosmwasgo.Keeper.State.{Store, CodeInfo, ContractInfo}
use cosmwasgo.Keeper.Host.{State}
use cosmwasgo.Keeper.Concrete.{plain_host, plain_values, empty_store, context}
use cosmwasgo.Keeper.Addresses.{classic_address_generator}
use cosmwasgo.Keeper.Instantiate.{Order, instantiate}
use cosmwasgo.Keeper.Instantiate.Rights.{refused_instantiation}

abbrev closed_code : CodeInfo
closed_code = record { code_hash = 9 ∷ []; creator = 10 ∷ []; instantiate_config = allow_nobody }

abbrev open_code : CodeInfo
open_code = record closed_code { instantiate_config = allow_everybody }

abbrev elder : ContractInfo
elder = record {
  code_id = 2;
  creator = 10 ∷ [];
  admin = [];
  label = "elder";
  created = record { block_height = 1; tx_index = 1 };
  ibc_port = [];
  extension = none;
}

-- code 1 is closed, code 2 is open, and there is a contract at one address
abbrev two_codes : Store
two_codes = record empty_store {
  codes = λ i. if i == 1 then some closed_code else if i == 2 then some open_code else none;
  contracts = λ a. if bytes_eq a (20 ∷ []) then some elder else none;
}

abbrev birth : ℕ → Order
birth id = record {
  code_id = id;
  creator = 11 ∷ [];
  admin = none;
  init_msg = 1 ∷ [];
  label = "one";
  deposit = [];
  policy = default_policy;
}

abbrev c0 : State basic_meter ℕ
c0 = context two_codes

refused_instantiation_example :
    let r =
      instantiate basic_meter plain_host plain_values
        (birth 1)
        (classic_address_generator basic_meter plain_host)
        c0 in
    (is_ok r.0 ≡ false) × (r.1.store ≡ c0.store) × (r.1.events ≡ [])
unfolding can_instantiate_contract allowed
refused_instantiation_example =
    refused_instantiation basic_meter plain_host plain_values (birth 1)
      (classic_address_generator basic_meter plain_host) c0 closed_code refl refl
