-- ===== src/Authz/Tests.antt =====
-- Authorizations on inputs: an authorization for two calls, and three messages.
use cosmwasgo.Base.{ℕ, ◌≤◌, ◌≡◌, refl, true, [], ◌∷◌, none, some}
use cosmwasgo.Base.Outcome.{ok}
use cosmwasgo.Sdk.Concrete.{basic_meter}
use cosmwasgo.Keeper.Concrete.{plain_host, plain_service, context, empty_store}
use cosmwasgo.Keeper.Server.{checks}
use cosmwasgo.Messages.{Message}
use cosmwasgo.Messages.Validate.{validate, validate_execute_contract}
use cosmwasgo.Authz.{
  Granted, granted, Tools, ContractGrant, max_calls, allow_all, executions, accept_granted_message,
  accept_from, accept_limit, accept_filter, validate_grants, validate_grant, validate_limit,
  validate_filter,
}
use cosmwasgo.Authz.Allowed.{Allowed, accept_granted_message-Allowed}
use cosmwasgo.Keeper.Host.{World}
use cosmwasgo.Authz.Calls.{passing, passing-total_calls}

abbrev tools : Tools
tools = record {
  checks = checks basic_meter plain_host plain_service;
  is_all_lte = λ a b. true;
  sub = λ a b. ok [];
  new_coins = λ a. ok a;
  object_keys = λ b. ok none;
}

abbrev two_calls : ContractGrant
two_calls = record { contract = 11 ∷ []; limit = max_calls 2; filter = allow_all }

abbrev calling : Message
calling =
    Message.execute_contract
      (record { sender = 10 ∷ []; contract = 11 ∷ []; msg = 1 ∷ []; funds = [] })

-- the third message does not pass
two_pass :
    passing tools basic_meter executions
      (two_calls ∷ [])
      (calling ∷ calling ∷ calling ∷ [])
      (context empty_store)
    ≡ 2
unfolding passing accept_granted_message accept_from accept_limit accept_filter validate_grants
    validate_grant validate_limit validate_filter validate validate_execute_contract
two_pass = refl

passing-total_calls_example :
    passing tools basic_meter executions
      (two_calls ∷ [])
      (calling ∷ calling ∷ calling ∷ [])
      (context empty_store)
    ≤ 2
passing-total_calls_example =
    passing-total_calls tools basic_meter executions (two_calls ∷ [])
      (calling ∷ calling ∷ calling ∷ []) (context empty_store) (tt, tt)

accept_granted_message-Allowed_example :
    (m : Granted) × (granted executions calling ≡ some m)
    × Allowed tools basic_meter (World ℕ) (two_calls ∷ []) m
unfolding accept_granted_message accept_from accept_limit accept_filter validate_grants
    validate_grant validate_limit validate_filter validate validate_execute_contract
accept_granted_message-Allowed_example =
    accept_granted_message-Allowed tools basic_meter (World ℕ) executions (two_calls ∷ []) calling
      (context empty_store) refl
