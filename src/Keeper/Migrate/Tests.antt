-- ===== src/Keeper/Migrate/Tests.antt =====
-- Migrate on inputs: a stranger is refused.
use cosmwasgo.Base.{ℕ, ◌≡◌, refl, true, false, [], ◌∷◌, none, some, bytes_eq, ◌==◌, if◌then◌else◌}
use cosmwasgo.Base.Outcome.{is_ok}
use cosmwasgo.Access.{allow_everybody, allowed}
use cosmwasgo.Policy.{default_policy, can_instantiate_contract, can_modify_contract}
use cosmwasgo.Sdk.Concrete.{basic_meter}
use cosmwasgo.Keeper.State.{CodeInfo, ContractInfo, admin_addr}
use cosmwasgo.Keeper.Host.{State}
use cosmwasgo.Keeper.Concrete.{plain_host, plain_values, empty_store, context}
use cosmwasgo.Keeper.Migrate.{Order, migrate}
use cosmwasgo.Keeper.Migrate.Rights.{refused_migration}

abbrev some_code : CodeInfo
some_code = record { code_hash = 9 ∷ []; creator = 10 ∷ []; instantiate_config = allow_everybody }

abbrev some_contract : ContractInfo
some_contract = record {
  code_id = 1;
  creator = 10 ∷ [];
  admin = 10 ∷ [];
  label = "one";
  created = record { block_height = 1; tx_index = 1 };
  ibc_port = [];
  extension = none;
}

abbrev c0 : State basic_meter ℕ
c0 = context (record empty_store {
  codes = λ i. if i == 2 then some some_code else none;
  contracts = λ a. if bytes_eq a (20 ∷ []) then some some_contract else none;
})

abbrev by_stranger : Order
by_stranger = record {
  addr = 20 ∷ [];
  caller = 11 ∷ [];
  new_code_id = 2;
  msg = [];
  policy = default_policy;
}

refused_migration_example :
    (is_ok (migrate basic_meter plain_host plain_values by_stranger c0).0 ≡ false)
    × ((migrate basic_meter plain_host plain_values by_stranger c0).1 ≡ c0)
unfolding admin_addr can_instantiate_contract can_modify_contract allowed
refused_migration_example =
    refused_migration basic_meter plain_host plain_values by_stranger c0 some_contract some_code
      (some (10 ∷ [])) true refl refl refl refl refl
